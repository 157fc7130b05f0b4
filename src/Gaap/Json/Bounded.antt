-- ===== src/Gaap/Json/Bounded.antt =====
-- src/domain/gaap-json.ts: what every value that the reader accepts satisfies.
use threadloop.Base.{
  ℕ, suc, ◌+◌, ◌<◌, ◌≡◌, ◌≢◌, ◌⊎◌, some, List, [], ◌∷◌, Bool, true, false, leb, if◌then◌else◌,
  contains, list_eq, nat_eq, All,
}
use threadloop.Gaap.Json.{Host, Value, Items, Fields}
use threadloop.Gaap.Json.Scan.{number_end, slice, mantissa}
use threadloop.Gaap.Json.Surrogates.{IsScalarText}

abbrev pub larger : ℕ → ℕ → ℕ
larger a b = if leb a b then b else a

module _ {N : Type 0} where
  -- How many values a tree holds, itself included.
  unfoldable mutual
    pub size : Value N → ℕ
    size (Value.array items) = suc (items_size items)
    size (Value.object fields) = suc (fields_size fields)
    size _ = 1

    pub items_size : Items N → ℕ
    items_size Items.nil = 0
    items_size (Items.cons value items) = size value + items_size items

    pub fields_size : Fields N → ℕ
    fields_size Fields.end = 0
    fields_size (Fields.field key value fields) = size value + fields_size fields

  -- How many arrays and objects stand within each other, an empty one included.
  unfoldable mutual
    pub height : Value N → ℕ
    height (Value.array items) = suc (items_height items)
    height (Value.object fields) = suc (fields_height fields)
    height _ = 0

    pub items_height : Items N → ℕ
    items_height Items.nil = 0
    items_height (Items.cons value items) = larger (height value) (items_height items)

    pub fields_height : Fields N → ℕ
    fields_height Fields.end = 0
    fields_height (Fields.field key value fields) = larger (height value) (fields_height fields)

  unfoldable pub keys_of : Fields N → List (List ℕ)
  keys_of Fields.end = []
  keys_of (Fields.field key value fields) = key ∷ keys_of fields

module _ (host : Host) (literals : Bool) where
  -- Where only integer literals are taken, the token has neither a fraction nor an exponent and its
  -- number is not -0. Where its number is zero, no digit of its mantissa is from 1 to 9. Its number
  -- is finite, and safe where it is an integer.
  pub record IsAdmitted (token : List ℕ) : Type 0 where
    pub is_literal : literals ≡ true → All (λ c. (c ≢ b'.') × (c ≢ b'e') × (c ≢ b'E')) token
    pub is_signed : literals ≡ true → host.is_negative_zero (host.to_number token) ≡ false
    pub no_underflow :
        host.is_zero (host.to_number token) ≡ true
        → All (λ c. (c < b'1') ⊎ (b'9' < c)) (mantissa token)
    pub is_finite : host.is_finite (host.to_number token) ≡ true
    pub is_safe :
        host.is_integer (host.to_number token) ≡ true
        → host.is_safe_integer (host.to_number token) ≡ true

  -- What the host makes of an admitted token, which the scan of a number takes off a text. The host
  -- is arbitrary: where its numbers carry their tokens, the token is the one that was read.
  pub record IsRepresented (n : host.Number) : Type 0 where
    pub text : List ℕ
    pub rest : List ℕ
    pub is_scanned : number_end text ≡ some rest
    pub is_number : host.to_number (slice text rest) ≡ n
    pub is_admitted : IsAdmitted (slice text rest)

  -- Strings and keys that are UTF-16 of scalar values, numbers of admitted tokens, and in no object a
  -- key twice.
  unfoldable mutual
    pub IsStrict : Value host.Number → Type 0
    IsStrict (Value.number n) = IsRepresented n
    IsStrict (Value.text value) = IsScalarText value
    IsStrict (Value.array items) = ItemsStrict items
    IsStrict (Value.object fields) = FieldsStrict fields
    IsStrict _ = Unit {0}

    pub ItemsStrict : Items host.Number → Type 0
    ItemsStrict Items.nil = Unit {0}
    ItemsStrict (Items.cons value items) = IsStrict value × ItemsStrict items

    pub FieldsStrict : Fields host.Number → Type 0
    FieldsStrict Fields.end = Unit {0}
    FieldsStrict (Fields.field key value fields) =
        IsScalarText key
        × (contains (keys_of fields) key ≡ false)
        × IsStrict value
        × FieldsStrict fields
