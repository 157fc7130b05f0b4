-- ===== src/Gaap/Json/Reader.antt =====
-- src/domain/gaap-json.ts: `JsonReader` and `parseGaapJson`.
use threadloop.Base.{
  ℕ, zero, suc, ◌+◌, ◌*◌, List, [], ◌∷◌, Option, some, none, Bool, true, false, not, ◌&&◌, ◌||◌,
  ◌==◌, nat_eq, list_eq, ltb, leb, any, contains, length, is_empty, or_else,
}
use threadloop.Gaap.Json.{
  Host, Literal, string_literal, other_literal, Value, Items, Fields, Reading, read, refused,
  exhausted, json_limit, json_utf8, json_invalid, expect, ◌>>=◌,
}
use threadloop.Gaap.Json.Scan.{
  starts, advance, whitespace, after_token, number_end, string_end, slice, mantissa, well_formed,
}

-- `offset` as the units left, and `values`.
pub record Reader : Type 0 where
  pub rest : List ℕ
  pub values : ℕ

abbrev pub max_depth : ℕ
max_depth = 64

abbrev pub max_values : ℕ
max_values = 1_000_000

abbrev pub null_token : List ℕ
null_token = b'n' ∷ b'u' ∷ b'l' ∷ b'l' ∷ []

abbrev pub true_token : List ℕ
true_token = b't' ∷ b'r' ∷ b'u' ∷ b'e' ∷ []

abbrev pub false_token : List ℕ
false_token = b'f' ∷ b'a' ∷ b'l' ∷ b's' ∷ b'e' ∷ []

-- `this.text[this.offset++] !== c`, then `reject`
unfoldable pub pass : ℕ → Reader → Reading Reader
unfolding starts
pass c s = expect (starts c s.rest) (read (record { rest = advance s.rest; values = s.values }))

unfoldable pub skip : Reader → Reader
unfolding whitespace
skip s = record { rest = whitespace s.rest; values = s.values }

-- `depth > 64 || ++this.values > 1_000_000`
unfoldable pub exceeds : ℕ → Reader → Bool
exceeds depth s = ltb max_depth depth || ltb max_values (suc s.values)

module _ (host : Host) where
  abbrev pub Read : Type 0 → Type 0
  Read A = Reading (A × Reader)

  unfoldable pub is_fraction_unit : ℕ → Bool
  is_fraction_unit c = c == b'.' || c == b'e' || c == b'E'

  -- The tests of `number` on the token and its number.
  unfoldable pub admits_number : Bool → List ℕ → host.Number → Bool
  unfolding is_fraction_unit mantissa
  admits_number integer_literals token number =
      not (integer_literals && (any is_fraction_unit token || host.is_negative_zero number))
      && not (host.is_zero number && any (λ c. leb b'1' c && leb c b'9') (mantissa token))
      && not (
          not (host.is_finite number)
          || host.is_integer number && not (host.is_safe_integer number))

  unfoldable pub read_token : Bool → ℕ → List ℕ → List ℕ → Read (Value host.Number)
  unfolding admits_number
  read_token integer_literals values token rest =
      let number = host.to_number token in
      expect (admits_number integer_literals token number)
        (read (Value.number number, record { rest = rest; values = values }))

  unfoldable pub read_number : Bool → Reader → Read (Value host.Number)
  unfolding number_end slice read_token
  read_number integer_literals s = elim (number_end s.rest) [
    | none ↦ refused json_invalid
    | some rest ↦ read_token integer_literals s.values (slice s.rest rest) rest
  ]

  unfoldable pub literal_string : Option Literal → Reading (List ℕ)
  unfolding well_formed
  literal_string none = refused json_invalid
  literal_string (some other_literal) = refused json_invalid
  literal_string (some (string_literal value)) = expect (well_formed value) (read value)

  -- `string`, at its opening quote
  unfoldable pub read_string : Reader → Read (List ℕ)
  unfolding string_end slice literal_string
  read_string s = elim (string_end (advance s.rest)) [
    | none ↦ refused json_invalid
    | some rest ↦ literal_string (host.json_parse (slice s.rest rest)) >>= λ value.
        read (value, record { rest = rest; values = s.values })
  ]

  -- The loop over `null`, `true` and `false`, and `number` behind it.
  unfoldable pub read_scalar : Bool → Reader → Read (Value host.Number)
  unfolding after_token read_number
  read_scalar integer_literals s = elim (after_token null_token s.rest) [
    | some rest ↦ read (Value.null, record { rest = rest; values = s.values })
    | none ↦ elim (after_token true_token s.rest) [
      | some rest ↦ read (Value.boolean true, record { rest = rest; values = s.values })
      | none ↦ elim (after_token false_token s.rest) [
        | some rest ↦ read (Value.boolean false, record { rest = rest; values = s.values })
        | none ↦ read_number integer_literals s
      ]
    ]
  ]

  unfoldable mutual
    unfolding exceeds skip starts read_string read_scalar pass

    pub read_value : Bool → ℕ → ℕ → Reader → Read (Value host.Number)
    read_value literals zero depth s = exhausted
    read_value literals (suc fuel) depth s =
        let counted = skip (record { rest = s.rest; values = suc s.values }) in
        elim (exceeds depth s) [
          | true ↦ refused json_invalid
          | false ↦ elim (starts b'"' counted.rest) [
            | true ↦ read_string counted >>= λ (value, next). read (Value.text value, next)
            | false ↦ elim (starts b'{' counted.rest) [
              | true ↦ read_object literals fuel (suc depth) counted >>= λ (fields, next).
                  read (Value.object fields, next)
              | false ↦ elim (starts b'[' counted.rest) [
                | true ↦ read_array literals fuel (suc depth) counted >>= λ (items, next).
                    read (Value.array items, next)
                | false ↦ read_scalar literals counted
              ]
            ]
          ]
        ]

    pub read_object : Bool → ℕ → ℕ → Reader → Read (Fields host.Number)
    read_object literals zero depth s = exhausted
    read_object literals (suc fuel) depth s =
        let opened = skip (record { rest = advance s.rest; values = s.values }) in
        elim (starts b'}' opened.rest) [
          | true ↦ read (Fields.end, record { rest = advance opened.rest; values = s.values })
          | false ↦ read_members literals fuel depth [] opened
        ]

    -- The loop of `object` with the keys that it has seen.
    pub read_members : Bool → ℕ → ℕ → List (List ℕ) → Reader → Read (Fields host.Number)
    read_members literals zero depth keys s = exhausted
    read_members literals (suc fuel) depth keys s =
        expect (starts b'"' (skip s).rest) (read_string (skip s)) >>= λ (key, named).
        expect (not (contains keys key)) (pass b':' (skip named)) >>= λ colon.
        read_value literals fuel depth colon >>= λ (value, valued).
        elim (starts b'}' (skip valued).rest) [
          | true ↦ read (
            Fields.field key value Fields.end,
            record { rest = advance (skip valued).rest; values = valued.values },
          )
          | false ↦ pass b',' (skip valued) >>= λ next.
              read_members literals fuel depth (key ∷ keys) next >>= λ (fields, last).
              read (Fields.field key value fields, last)
        ]

    pub read_array : Bool → ℕ → ℕ → Reader → Read (Items host.Number)
    read_array literals zero depth s = exhausted
    read_array literals (suc fuel) depth s =
        let opened = skip (record { rest = advance s.rest; values = s.values }) in
        elim (starts b']' opened.rest) [
          | true ↦ read (Items.nil, record { rest = advance opened.rest; values = s.values })
          | false ↦ read_elements literals fuel depth opened
        ]

    -- The loop of `array`.
    pub read_elements : Bool → ℕ → ℕ → Reader → Read (Items host.Number)
    read_elements literals zero depth s = exhausted
    read_elements literals (suc fuel) depth s =
        read_value literals fuel depth s >>= λ (value, valued).
        elim (starts b']' (skip valued).rest) [
          | true ↦ read (
            Items.cons value Items.nil,
            record { rest = advance (skip valued).rest; values = valued.values },
          )
          | false ↦ pass b',' (skip valued) >>= λ next.
              read_elements literals fuel depth next >>= λ (items, last).
              read (Items.cons value items, last)
        ]

  -- `reader.value(0)`, the white space behind it, and the test that nothing is left.
  unfoldable pub read_text : Bool → List ℕ → Reading (Value host.Number)
  unfolding read_value skip
  read_text literals text =
      read_value literals (3 * length text + 1) 0 (record { rest = text; values = 0 })
      >>= λ (value, s). expect (is_empty (skip s).rest) (read value)

  -- `options.maxBytes` and `options.integerLiterals` where they are given.
  unfoldable pub parse_gaap_json : Option ℕ → Option Bool → List ℕ → Reading (Value host.Number)
  unfolding read_text
  parse_gaap_json max_bytes integer_literals bytes =
      elim (ltb (or_else max_bytes (4 * 1024 * 1024)) (length bytes)) [
        | true ↦ refused json_limit
        | false ↦ elim (host.decode bytes) [
          | none ↦ refused json_utf8
          | some text ↦ read_text (or_else integer_literals false) text
        ]
      ]
