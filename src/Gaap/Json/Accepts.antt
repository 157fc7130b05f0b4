-- ===== src/Gaap/Json/Accepts.antt =====
-- src/domain/gaap-json.ts: one induction on the fuel shows that a reading ends, and what it gives.
pub mod Trees
use threadloop.Base.{
  ℕ, zero, suc, ◌+◌, ◌*◌, ◌≤◌, ◌<◌, ◌≡◌, refl, ap, List, [], ◌∷◌, Option, some, none, Bool, true,
  false, not, ◌&&◌, ◌||◌, ◌==◌, nat_eq, list_eq, eqb_iff, beq_list_iff, Bool-cases, Option-cases,
  length, contains, any, leb, arith, ◌⊎◌, inl, inr, ◌≢◌, All,
}
use threadloop.Gaap.Json.{
  Host, Literal, string_literal, other_literal, Value, Items, Fields, Reading, read, refused,
}
use threadloop.Gaap.Json.Scan.{
  starts, advance, whitespace, well_formed, slice, mantissa, string_end, number_end, after_token,
}
use threadloop.Gaap.Json.Scan.Shorter.{
  length-advance, length-advance-starts, length-whitespace, length-after_token, length-number_end,
  length-string_end,
}
use threadloop.Gaap.Json.Reader.{
  Reader, max_depth, max_values, null_token, true_token, false_token, admits_number, read_token,
  read_number, literal_string, read_string, read_scalar, pass, skip, exceeds, is_fraction_unit,
  read_value, read_object, read_members, read_array, read_elements,
}
use threadloop.Gaap.Json.Ends.{
  Ends, reads, refuses, Ends-split, Ends-option, Ends-expect, Ends-then,
}
use threadloop.Gaap.Json.Bounded.{
  larger, size, items_size, fields_size, height, items_height, fields_height, keys_of, IsStrict,
  ItemsStrict, FieldsStrict, IsAdmitted, IsRepresented,
}
use threadloop.Gaap.Json.Surrogates.{IsScalarText, well_formed-IsScalarText}

pub length-skip : (s : Reader) → length (skip s).rest ≤ length s.rest
unfolding skip
length-skip s = length-whitespace s.rest

pub values-skip : (s : Reader) → (skip s).values ≡ s.values
unfolding skip
values-skip s = refl

-- The text left is shorter, `n` values more are counted, and the limits hold.
pub record Takes (limit depth n h : ℕ) (s t : Reader) : Type 0 where
  pub shorter : length t.rest < length s.rest
  pub counted : t.values ≡ s.values + n
  pub within : t.values ≤ max_values
  pub shallow : depth + h ≤ limit

pub pass-Ends :
    (c : ℕ) (s : Reader)
    → Ends (λ t. (length s.rest ≡ suc (length t.rest)) × (t.values ≡ s.values)) (pass c s)
unfolding pass
pass-Ends c s = Ends-expect (starts c s.rest) λ e. reads (length-advance-starts c s.rest e, refl)

module _ (host : Host) where
  literal_string-Ends : (o : Option Literal) → Ends IsScalarText (literal_string host o)
  unfolding literal_string
  literal_string-Ends none = refuses
  literal_string-Ends (some other_literal) = refuses
  literal_string-Ends (some (string_literal value)) =
      Ends-expect (well_formed value) λ e. reads (well_formed-IsScalarText value e)

  pub read_string-Ends :
      (s : Reader)
      → Ends
          (λ (value, t).
            (length t.rest < length s.rest) × (t.values ≡ s.values) × IsScalarText value)
          (read_string host s)
  unfolding read_string
  read_string-Ends s = Ends-option (string_end (advance s.rest)) refuses λ rest e.
      Ends-then (literal_string-Ends (host.json_parse (slice s.rest rest))) λ value w.
        reads
          (omega (arith, length-string_end (advance s.rest) rest e, length-advance s.rest), refl, w)

  All-integer :
      (token : List ℕ)
      → any (is_fraction_unit host) token ≡ false
      → All (λ c. (c ≢ b'.') × (c ≢ b'e') × (c ≢ b'E')) token
  unfolding is_fraction_unit
  All-integer [] h = tt
  All-integer (c ∷ cs) h =
      ((λ e. ground arith, λ e. ground arith, λ e. ground arith), All-integer cs (ground arith))

  All-zeros :
      (token : List ℕ)
      → any (λ c. leb b'1' c && leb c b'9') token ≡ false
      → All (λ c. (c < b'1') ⊎ (b'9' < c)) token
  All-zeros [] h = tt
  All-zeros (c ∷ cs) h = (ground arith, All-zeros cs (ground arith))

  admits_number-IsAdmitted :
      (literals : Bool) (token : List ℕ)
      → admits_number host literals token (host.to_number token) ≡ true
      → IsAdmitted host literals token
  unfolding admits_number
  admits_number-IsAdmitted literals token h = record {
    is_literal = λ e. All-integer token (ground arith);
    is_signed = λ e. ground arith;
    no_underflow = λ e. All-zeros (mantissa token) (ground arith);
    is_finite = ground arith;
    is_safe = λ e. ground arith;
  }

  abbrev Scalar : Bool → Reader → Value host.Number × Reader → Type 0
  Scalar literals s (value, t) =
      (length t.rest < length s.rest)
      × (t.values ≡ s.values)
      × (size value ≡ 1)
      × (height value ≡ 0)
      × IsStrict host literals value

  read_token-Ends :
      (literals : Bool) (s : Reader) (rest : List ℕ)
      → number_end s.rest ≡ some rest
      → Ends (Scalar literals s) (read_token host literals s.values (slice s.rest rest) rest)
  unfolding read_token size height IsStrict
  read_token-Ends literals s rest h =
      let token = slice s.rest rest in
      Ends-expect (admits_number host literals token (host.to_number token)) λ e. reads (
        length-number_end s.rest rest h,
        refl,
        refl,
        refl,
        record {
          text = s.rest;
          rest = rest;
          is_scanned = h;
          is_number = refl;
          is_admitted = admits_number-IsAdmitted literals token e;
        },
      )

  read_number-Ends :
      (literals : Bool) (s : Reader) → Ends (Scalar literals s) (read_number host literals s)
  unfolding read_number
  read_number-Ends literals s =
      Ends-option (number_end s.rest) refuses λ rest e. read_token-Ends literals s rest e

  Ends-token :
      (literals : Bool) (s : Reader) (token : List ℕ) (value : Value host.Number)
      {otherwise : Reading (Value host.Number × Reader)}
      → 0 < length token
      → (size value ≡ 1) × (height value ≡ 0) × IsStrict host literals value
      → Ends (Scalar literals s) otherwise
      → Ends (Scalar literals s) (elim (after_token token s.rest) [
        | none ↦ otherwise
        | some rest ↦ read (value, record { rest = rest; values = s.values })
      ])
  Ends-token literals s token value pos (one, flat, strict) other =
      Ends-option (after_token token s.rest) other λ rest e.
        reads (omega (arith, length-after_token token s.rest rest e), refl, one, flat, strict)

  pub read_scalar-Ends :
      (literals : Bool) (s : Reader) → Ends (Scalar literals s) (read_scalar host literals s)
  unfolding read_scalar size height IsStrict
  read_scalar-Ends literals s =
      Ends-token literals s null_token Value.null (omega arith) (refl, refl, tt)
        (Ends-token literals s true_token (Value.boolean true) (omega arith) (refl, refl, tt)
          (Ends-token literals s false_token (Value.boolean false) (omega arith) (refl, refl, tt)
            (read_number-Ends literals s)))
