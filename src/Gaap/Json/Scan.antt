-- ===== src/Gaap/Json/Scan.antt =====
-- src/domain/gaap-json.ts: how far `whitespace`, `number` and `string` move the offset, and
-- `wellFormed`.
pub mod Shorter
use threadloop.Base.{
  ℕ, zero, suc, ◌-◌, List, [], ◌∷◌, Option, some, none, Bool, true, false, not, ◌&&◌, ◌||◌, ◌==◌,
  nat_eq, ltb, leb, any, length, if◌then◌else◌, ◌>>=◌,
}

-- text.startsWith(c, offset) for one unit, and `text[offset] === c`
unfoldable pub starts : ℕ → List ℕ → Bool
starts c [] = false
starts c (d ∷ cs) = d == c

abbrev pub advance : List ℕ → List ℕ
advance [] = []
advance (c ∷ cs) = cs

unfoldable pub is_whitespace : ℕ → Bool
is_whitespace c = c == 0x20 || c == 0x9 || c == 0xd || c == 0xa

unfoldable pub whitespace : List ℕ → List ℕ
unfolding is_whitespace
whitespace [] = []
whitespace (c ∷ cs) = if is_whitespace c then whitespace cs else c ∷ cs

-- text.startsWith(token, offset), with the units behind the token
unfoldable pub after_token : List ℕ → List ℕ → Option (List ℕ)
after_token [] cs = some cs
after_token (t ∷ ts) [] = none
after_token (t ∷ ts) (c ∷ cs) = if c == t then after_token ts cs else none

unfoldable pub is_decimal_digit : ℕ → Bool
is_decimal_digit c = leb b'0' c && leb c b'9'

unfoldable pub at_digit : List ℕ → Bool
unfolding is_decimal_digit
at_digit [] = false
at_digit (c ∷ cs) = is_decimal_digit c

-- while (this.digit()) this.offset += 1
unfoldable pub skip_digits : List ℕ → List ℕ
unfolding is_decimal_digit
skip_digits [] = []
skip_digits (c ∷ cs) = if is_decimal_digit c then skip_digits cs else c ∷ cs

-- if (!this.digit()) this.reject(), then the loop
unfoldable pub some_digits : List ℕ → Option (List ℕ)
unfolding at_digit skip_digits
some_digits cs = if at_digit cs then some (skip_digits cs) else none

unfoldable pub skip_minus : List ℕ → List ℕ
unfolding starts
skip_minus cs = if starts b'-' cs then advance cs else cs

unfoldable pub integer_part : List ℕ → Option (List ℕ)
unfolding starts at_digit skip_digits
integer_part cs =
    if starts b'0' cs
    then some (advance cs)
    else if not (at_digit cs) || starts b'0' cs
    then none
    else some (skip_digits cs)

unfoldable pub fraction : List ℕ → Option (List ℕ)
unfolding starts some_digits
fraction cs = if starts b'.' cs then some_digits (advance cs) else some cs

unfoldable pub skip_sign : List ℕ → List ℕ
unfolding starts
skip_sign cs = if starts b'+' cs || starts b'-' cs then advance cs else cs

unfoldable pub exponent : List ℕ → Option (List ℕ)
unfolding starts some_digits skip_sign
exponent cs =
    if starts b'e' cs || starts b'E' cs then some_digits (skip_sign (advance cs)) else some cs

-- The units behind the number that `number` scans; `none` is a rejection.
unfoldable pub number_end : List ℕ → Option (List ℕ)
unfolding skip_minus integer_part fraction exponent
number_end cs = integer_part (skip_minus cs) >>= fraction >>= exponent

-- The units behind the string whose opening quote is passed. A backslash passes the next unit too,
-- which may be the end of the text.
unfoldable pub string_end : List ℕ → Option (List ℕ)
string_end [] = none
string_end (c ∷ []) = if c == b'\\' then none else if c == b'"' then some [] else none
string_end (c ∷ d ∷ cs) = elim (c == b'\\') [
  | true ↦ string_end cs
  | false ↦ elim (c == b'"') [ true ↦ some (d ∷ cs) | false ↦ string_end (d ∷ cs) ]
]

unfoldable pub take : ℕ → List ℕ → List ℕ
take zero cs = []
take (suc n) [] = []
take (suc n) (c ∷ cs) = c ∷ take n cs

-- text.slice(start, offset), with the units left at each
unfoldable pub slice : List ℕ → List ℕ → List ℕ
unfolding take
slice start rest = take (length start - length rest) start

-- token.split(/[eE]/, 1)[0]
unfoldable pub mantissa : List ℕ → List ℕ
mantissa [] = []
mantissa (c ∷ cs) = let rest = mantissa cs in if c == b'e' || c == b'E' then [] else c ∷ rest

unfoldable pub is_high : ℕ → Bool
is_high c = leb 0xd800 c && leb c 0xdbff

unfoldable pub is_low : ℕ → Bool
is_low c = leb 0xdc00 c && leb c 0xdfff

unfoldable pub well_formed : List ℕ → Bool
unfolding is_high is_low
well_formed [] = true
well_formed (c ∷ []) = not (is_high c) && not (is_low c)
well_formed (c ∷ d ∷ cs) = elim (is_high c) [
  | true ↦ is_low d && well_formed cs
  | false ↦ not (is_low c) && well_formed (d ∷ cs)
]
