-- ===== src/Gaap/Json/Accepted.antt =====
-- src/domain/gaap-json.ts: `parseGaapJson` ends, and what it returns is bounded and strict.
use threadloop.Base.{
  ℕ, suc, ◌+◌, ◌*◌, ◌≤◌, ◌≡◌, ◌≢◌, List, Option, Bool, false, ltb, length, is_empty, or_else, arith,
}
use threadloop.Gaap.Json.{Host, Value, read, exhausted}
use threadloop.Gaap.Json.Reader.{max_depth, max_values, skip, read_text, parse_gaap_json}
use threadloop.Gaap.Json.Ends.{
  Ends, reads, refuses, Ends-exhausted, Ends-read, Ends-split, Ends-option, Ends-expect, Ends-then,
  Ends-map,
}
use threadloop.Gaap.Json.Bounded.{size, height, IsStrict}
use threadloop.Gaap.Json.Accepts.Trees.{read_value-Ends}

abbrev byte_limit : Option ℕ → ℕ
byte_limit max_bytes = or_else max_bytes (4 * 1024 * 1024)

module _ (host : Host) where
  read_text-Ends :
      (literals : Bool) (text : List ℕ)
      → Ends
          (λ value.
            (height value ≤ suc max_depth)
            × (size value ≤ max_values)
            × IsStrict host literals value)
          (read_text host literals text)
  unfolding read_text
  read_text-Ends literals text =
      Ends-then
        (read_value-Ends host literals (3 * length text + 1) 0 (record { rest = text; values = 0 })
          (omega arith))
        λ (value, s) (taken, strict). Ends-expect (is_empty (skip s).rest) λ _.
          reads (omega (arith, taken.shallow), omega (arith, taken.counted, taken.within), strict)

  parse_gaap_json-Ends :
      (max_bytes : Option ℕ) (integer_literals : Option Bool) (bytes : List ℕ)
      → Ends
          (λ value.
            (length bytes ≤ byte_limit max_bytes)
            × (height value ≤ suc max_depth)
            × (size value ≤ max_values)
            × IsStrict host (or_else integer_literals false) value)
          (parse_gaap_json host max_bytes integer_literals bytes)
  unfolding parse_gaap_json
  parse_gaap_json-Ends max_bytes integer_literals bytes =
      Ends-split (ltb (byte_limit max_bytes) (length bytes)) (λ _. refuses)
        λ small. Ends-option (host.decode bytes) refuses λ text _.
          Ends-map (read_text-Ends (or_else integer_literals false) text)
            λ value (low, few, strict). reads (at_most small, low, few, strict)
    where
      at_most : {a b : ℕ} → ltb a b ≡ false → b ≤ a
      at_most h = ground arith

  -- For every input and every behaviour of the host, the reader comes to a value or to a refusal:
  -- the fuel, three times the units of the text and one, suffices.
  pub parse_gaap_json-returns :
      (max_bytes : Option ℕ) (integer_literals : Option Bool) (bytes : List ℕ)
      → parse_gaap_json host max_bytes integer_literals bytes ≢ exhausted
  parse_gaap_json-returns max_bytes integer_literals bytes =
      Ends-exhausted (parse_gaap_json-Ends max_bytes integer_literals bytes)

  -- A value is only returned for bytes within the limit, at most 65 of its arrays and objects
  -- stand within each other, empty ones included, and it holds at most 1,000,000 values.
  pub parse_gaap_json-bounded :
      (max_bytes : Option ℕ) (integer_literals : Option Bool) (bytes : List ℕ)
      (value : Value host.Number)
      → parse_gaap_json host max_bytes integer_literals bytes ≡ read value
      → (length bytes ≤ byte_limit max_bytes)
        × (height value ≤ suc max_depth)
        × (size value ≤ max_values)
  parse_gaap_json-bounded max_bytes integer_literals bytes value h =
      let (small, low, few, strict) =
        Ends-read (parse_gaap_json-Ends max_bytes integer_literals bytes) h in
      (small, low, few)

  -- In a value that is returned no object has a key twice, and every string and every key is UTF-16
  -- of Unicode scalar values. Every number is what the host makes of a number token: it is finite,
  -- safe where it is an integer, and zero only where the token's mantissa has no digit from 1 to 9.
  -- Where only integer literals are taken, the token has no fraction and no exponent, and the number
  -- is not -0.
  pub parse_gaap_json-IsStrict :
      (max_bytes : Option ℕ) (integer_literals : Option Bool) (bytes : List ℕ)
      (value : Value host.Number)
      → parse_gaap_json host max_bytes integer_literals bytes ≡ read value
      → IsStrict host (or_else integer_literals false) value
  parse_gaap_json-IsStrict max_bytes integer_literals bytes value h =
      let (small, low, few, strict) =
        Ends-read (parse_gaap_json-Ends max_bytes integer_literals bytes) h in
      strict
