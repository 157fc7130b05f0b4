-- ===== src/Gaap/Json.antt =====
-- src/domain/gaap-json.ts: what `parseGaapJson` makes of a text. A text is its UTF-16 code units,
-- and an offset into it is the units that are left.
pub mod Scan
pub mod Reader
mod Ends
pub mod Bounded
mod Accepts
pub mod Surrogates
pub mod Accepted
use threadloop.Base.{ℕ, Bool, List, Option, if◌then◌else◌, ◌≡◌, ◌≢◌, true, false}

-- What `JSON.parse` gives for a token: its string, or a value that is no string.
pub data Literal : Type 0 where
  string_literal : List ℕ → Literal
  other_literal : Literal

-- The host's numbers, with `Number`, `Object.is(number, -0)`, `number === 0`, the three `Number.is`
-- tests, `JSON.parse` (`none` when it throws), and the fatal UTF-8 `TextDecoder` (`none` likewise).
pub record Host : Type 1 where
  pub Number : Type 0
  pub to_number : List ℕ → Number
  pub is_negative_zero : Number → Bool
  pub is_zero : Number → Bool
  pub is_finite : Number → Bool
  pub is_integer : Number → Bool
  pub is_safe_integer : Number → Bool
  pub json_parse : List ℕ → Option Literal
  pub decode : List ℕ → Option (List ℕ)

module _ (N : Type 0) where
  mutual
    pub data Value : Type 0 where
      null : Value
      boolean : Bool → Value
      number : N → Value
      text : List ℕ → Value
      array : Items → Value
      object : Fields → Value

    pub data Items : Type 0 where
      nil : Items
      cons : Value → Items → Items

    pub data Fields : Type 0 where
      end : Fields
      field : List ℕ → Value → Fields → Fields

-- `GaapEvidenceError` by its code.
pub data Refusal : Type 0 where
  json_limit json_utf8 json_invalid : Refusal

-- `exhausted` has no counterpart in the code: the fuel ran out.
pub data Reading {ℓ} (A : Type ℓ) : Type ℓ where
  read : A → Reading A
  refused : Refusal → Reading A
  exhausted : Reading A

infixl 1 ◌>>=◌
abbrev pub ◌>>=◌ {ℓ κ} : {A : Type ℓ} {B : Type κ} → Reading A → (A → Reading B) → Reading B
read a >>= f = f a
refused e >>= f = refused e
exhausted >>= f = exhausted

-- `if (!test) reject()`
abbrev pub expect {ℓ} : {A : Type ℓ} → Bool → Reading A → Reading A
expect test r = if test then r else refused json_invalid
