-- ===== src/Scenarios/Gaap.antt =====
-- A document with a nested array, and texts with surrogates.
use threadloop.Base.{
  ℕ, ◌≤◌, List, [], ◌∷◌, none, some, true, false, ◌==◌, nat_eq, ◌≡◌, ◌≢◌, ◌↔◌, refl, codes, length,
  list_eq, reverse,
}
use threadloop.Gaap.Json.{Host, string_literal, Value, Items, Fields, read, exhausted}
use threadloop.Gaap.Json.Scan.{
  starts, whitespace, is_whitespace, after_token, is_decimal_digit, at_digit, skip_digits,
  some_digits, skip_minus, integer_part, fraction, skip_sign, exponent, number_end, string_end,
  take, slice, mantissa, is_high, is_low, well_formed,
}
use threadloop.Gaap.Json.Reader.{
  is_fraction_unit, admits_number, read_token, read_number, literal_string, read_string,
  read_scalar, pass, skip, exceeds, read_value, read_text, parse_gaap_json,
}
use threadloop.Gaap.Json.Bounded.{size, height, IsStrict}
use threadloop.Gaap.Json.Accepted.{
  parse_gaap_json-returns, parse_gaap_json-bounded, parse_gaap_json-IsStrict,
}
use threadloop.Gaap.Json.Surrogates.{IsScalarText, well_formed_iff}

-- A number is its token, and a string what stands between its quotes.
inner : List ℕ → List ℕ
inner [] = []
inner (c ∷ cs) = reverse (behind (reverse cs))
  where
    behind : List ℕ → List ℕ
    behind [] = []
    behind (d ∷ ds) = ds

abbrev host : Host
host = record {
  Number = List ℕ;
  to_number = λ token. token;
  is_negative_zero = λ n. n == b'-' ∷ b'0' ∷ [];
  is_zero = λ n. n == b'0' ∷ [];
  is_finite = λ n. true;
  is_integer = λ n. true;
  is_safe_integer = λ n. true;
  json_parse = λ token. some (string_literal (inner token));
  decode = λ bytes. some bytes;
}

abbrev document : List ℕ
document = codes "{\"a\": [1, true], \"b\": -20}"

abbrev value : Value (List ℕ)
value = Value.object (
    Fields.field (b'a' ∷ [])
      (Value.array
        (Items.cons (Value.number (b'1' ∷ [])) (Items.cons (Value.boolean true) Items.nil)))
      (Fields.field (b'b' ∷ []) (Value.number (b'-' ∷ b'2' ∷ b'0' ∷ [])) Fields.end))

is_read : parse_gaap_json host none none document ≡ read value
unfolding parse_gaap_json read_text read_value exceeds skip pass read_scalar read_string
    literal_string read_number read_token admits_number is_fraction_unit well_formed is_high is_low
    mantissa slice take string_end number_end exponent skip_sign fraction integer_part skip_minus
    some_digits skip_digits at_digit is_decimal_digit after_token whitespace is_whitespace starts
    inner
is_read = refl

parse_gaap_json-returns_example : parse_gaap_json host none none document ≢ exhausted
parse_gaap_json-returns_example = parse_gaap_json-returns host none none document

parse_gaap_json-bounded_example :
    (length document ≤ 4194304) × (height value ≤ 65) × (size value ≤ 1_000_000)
parse_gaap_json-bounded_example = parse_gaap_json-bounded host none none document value is_read

parse_gaap_json-IsStrict_example : IsStrict host false value
parse_gaap_json-IsStrict_example = parse_gaap_json-IsStrict host none none document value is_read

-- U+1F600, and a text that ends in its first half.
well_formed_iff_example :
    (well_formed (0xd83d ∷ 0xde00 ∷ b'a' ∷ []) ≡ true) ↔ IsScalarText (0xd83d ∷ 0xde00 ∷ b'a' ∷ [])
well_formed_iff_example = well_formed_iff (0xd83d ∷ 0xde00 ∷ b'a' ∷ [])
