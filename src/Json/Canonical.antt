-- ===== src/Json/Canonical.antt =====
-- src/domain/canonical-json.ts: `canonicalizeJsonValue`. The keys are sorted by UTF-16 code units,
-- as `Array.prototype.sort` does, and `Object.fromEntries` then builds an object, whose array-index
-- keys come first, in numeric order.
use threadloop.Base.{
  ℕ, ◌+◌, ◌-◌, ◌*◌, String, Option, none, some, Bool, true, false, ◌&&◌, ◌||◌, List, [], ◌∷◌, ◌++◌,
  if◌then◌else◌, ltb, leb, eqb, all, codes,
}
use Prim.Native.Nat.{◌/◌, ◌%◌}
use threadloop.Json.{
  Value, null, boolean, number, negative, text, array, object, Items, nil, cons, Fields, end, field,
}

-- The code units of one code point.
code_units_of : ℕ → List ℕ
code_units_of c =
    if ltb c 0x10000
    then c ∷ []
    else (0xd800 + (c - 0x10000) / 0x400) ∷ (0xdc00 + (c - 0x10000) % 0x400) ∷ []

code_units : List ℕ → List ℕ
unfolding code_units_of
code_units [] = []
code_units (c ∷ cs) = code_units_of c ++ code_units cs

is_before : List ℕ → List ℕ → Bool
is_before [] [] = false
is_before [] (b ∷ bs) = true
is_before (a ∷ as') [] = false
is_before (a ∷ as') (b ∷ bs) = ltb a b || eqb a b && is_before as' bs

-- `a < b` on strings.
unfoldable pub key_before : String → String → Bool
unfolding is_before code_units
key_before a b = is_before (code_units (codes a)) (code_units (codes b))

is_digit : ℕ → Bool
is_digit c = leb b'0' c && leb c b'9'

decimal : ℕ → List ℕ → ℕ
decimal n [] = n
decimal n (c ∷ cs) = decimal (n * 10 + (c - b'0')) cs

in_index_range : ℕ → Option ℕ
in_index_range n = if ltb n 4294967295 then some n else none

-- The array index that a key denotes, if it denotes one.
unfoldable pub array_index : List ℕ → Option ℕ
unfolding is_digit decimal in_index_range
array_index [] = none
array_index (c ∷ []) = if is_digit c then some (c - b'0') else none
array_index (c ∷ d ∷ cs) =
    if leb b'1' c && is_digit c && all is_digit (d ∷ cs)
    then in_index_range (decimal 0 (c ∷ d ∷ cs))
    else none

-- An entry put among the entries, in front of the first key that sorts behind it.
unfoldable pub insert_sorted : String → Value → Fields → Fields
insert_sorted k v end = field k v end
insert_sorted k v (field j w rest) =
    if key_before k j then field k v (field j w rest) else field j w (insert_sorted k v rest)

unfoldable pub append_field : String → Value → Fields → Fields
append_field k v end = field k v end
append_field k v (field j w rest) = field j w (append_field k v rest)

-- Whether an index key goes in front of the key `j`.
index_before : ℕ → Option ℕ → Bool
index_before n none = true
index_before n (some m) = ltb n m

insert_index : ℕ → String → Value → Fields → Fields
unfolding index_before array_index
insert_index n k v end = field k v end
insert_index n k v (field j w rest) =
    if index_before n (array_index (codes j))
    then field k v (field j w rest)
    else field j w (insert_index n k v rest)

define_property : String → Value → Fields → Fields
unfolding insert_index array_index append_field
define_property k v fields = elim (array_index (codes k)) [
  | none ↦ append_field k v fields
  | some n ↦ insert_index n k v fields
]

-- `Object.fromEntries`, onto the properties defined so far.
unfoldable pub from_entries : Fields → Fields → Fields
unfolding define_property
from_entries defined end = defined
from_entries defined (field k v rest) = from_entries (define_property k v defined) rest

unfoldable mutual
  unfolding from_entries insert_sorted key_before

  pub canonicalize_json_value : Value → Value
  canonicalize_json_value null = null
  canonicalize_json_value (boolean b) = boolean b
  canonicalize_json_value (number n) = number n
  canonicalize_json_value (negative n) = negative n
  canonicalize_json_value (text s) = text s
  canonicalize_json_value (array items) = array (canonicalize_items items)
  canonicalize_json_value (object fields) = object (from_entries end (sorted_fields fields))

  pub canonicalize_items : Items → Items
  canonicalize_items nil = nil
  canonicalize_items (cons v rest) = cons (canonicalize_json_value v) (canonicalize_items rest)

  -- The canonical entries in key order.
  pub sorted_fields : Fields → Fields
  sorted_fields end = end
  sorted_fields (field k v rest) = insert_sorted k (canonicalize_json_value v) (sorted_fields rest)

-- `canonicalJson`, with the engine's `JSON.stringify`.
unfoldable pub canonical_json : (Value → String) → Value → String
unfolding canonicalize_json_value
canonical_json stringify value = stringify (canonicalize_json_value value)
