-- ===== src/Json.antt =====
-- JSON values as the code meets them: a parsed object is its own enumerable properties in order.
-- Of the numbers only integers are kept; the code compares no other ones.
pub mod Canonical
use threadloop.Base.{
  ℕ, String, Option, none, some, Bool, true, false, if◌then◌else◌, ◌==◌, string_eq,
}

mutual
  pub data Value : Type 0 where
    null : Value
    boolean : Bool → Value
    number : ℕ → Value
    negative : ℕ → Value
    text : String → Value
    array : Items → Value
    object : Fields → Value

  pub data Items : Type 0 where
    nil : Items
    cons : Value → Items → Items

  pub data Fields : Type 0 where
    end : Fields
    field : String → Value → Fields → Fields

-- `value[key]`; `none` is `undefined`, so `Object.hasOwn` is `is_some`.
unfoldable pub get : String → Fields → Option Value
get key end = none
get key (field k v rest) = if k == key then some v else get key rest

-- `isPlainObject`, and the properties of such a value.
unfoldable pub as_object : Option Value → Option Fields
as_object (some (object fields)) = some fields
as_object _ = none

-- `typeof value === 'string'`
unfoldable pub as_text : Option Value → Option String
as_text (some (text s)) = some s
as_text _ = none

-- `Array.isArray`
unfoldable pub as_array : Option Value → Option Items
as_array (some (array items)) = some items
as_array _ = none
