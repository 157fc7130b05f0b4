-- ===== src/Gaap/Json/Scan/Shorter.antt =====
-- src/domain/gaap-json.ts: how much of the text each scan passes.
use threadloop.Base.{
  ℕ, suc, ◌+◌, ◌≤◌, ◌<◌, ◌≡◌, List, [], ◌∷◌, some, true, nat_eq, Option-cases, length, arith,
  Option-cases, inl, inr,
}
use threadloop.Gaap.Json.Scan.{
  starts, advance, whitespace, after_token, at_digit, skip_digits, some_digits, skip_minus,
  integer_part, fraction, skip_sign, exponent, number_end, string_end,
}

pub length-advance : (cs : List ℕ) → length (advance cs) ≤ length cs
length-advance [] = omega arith
length-advance (c ∷ cs) = omega arith

pub length-advance-starts :
    (c : ℕ) (cs : List ℕ) → starts c cs ≡ true → length cs ≡ suc (length (advance cs))
unfolding starts
length-advance-starts c [] h = cc
length-advance-starts c (d ∷ cs) h = omega arith

pub length-whitespace : (cs : List ℕ) → length (whitespace cs) ≤ length cs
unfolding whitespace
length-whitespace [] = omega arith
length-whitespace (c ∷ cs) = ground (arith, length-whitespace cs)

pub length-after_token :
    (ts cs rest : List ℕ) → after_token ts cs ≡ some rest → length cs ≡ length ts + length rest
unfolding after_token
length-after_token [] cs rest h = ground arith
length-after_token (t ∷ ts) [] rest h = cc
length-after_token (t ∷ ts) (c ∷ cs) rest h = ground (arith, length-after_token ts cs rest)

length-skip_digits : (cs : List ℕ) → length (skip_digits cs) ≤ length cs
unfolding skip_digits
length-skip_digits [] = omega arith
length-skip_digits (c ∷ cs) = ground (arith, length-skip_digits cs)

length-skip_digits-digit : (cs : List ℕ) → at_digit cs ≡ true → length (skip_digits cs) < length cs
unfolding skip_digits at_digit
length-skip_digits-digit [] h = cc
length-skip_digits-digit (c ∷ cs) h = ground (arith, length-skip_digits cs)

length-some_digits : (cs rest : List ℕ) → some_digits cs ≡ some rest → length rest < length cs
unfolding some_digits
length-some_digits cs rest h = ground (arith, length-skip_digits-digit cs)

length-integer_part : (cs rest : List ℕ) → integer_part cs ≡ some rest → length rest < length cs
unfolding integer_part
length-integer_part cs rest h =
    ground (arith, length-skip_digits-digit cs, length-advance-starts b'0' cs)

length-skip_minus : (cs : List ℕ) → length (skip_minus cs) ≤ length cs
unfolding skip_minus
length-skip_minus cs = ground (arith, length-advance cs)

length-skip_sign : (cs : List ℕ) → length (skip_sign cs) ≤ length cs
unfolding skip_sign
length-skip_sign cs = ground (arith, length-advance cs)

length-fraction : (cs rest : List ℕ) → fraction cs ≡ some rest → length rest ≤ length cs
unfolding fraction
length-fraction cs rest h = ground (arith, length-some_digits (advance cs) rest, length-advance cs)

length-exponent : (cs rest : List ℕ) → exponent cs ≡ some rest → length rest ≤ length cs
unfolding exponent
length-exponent cs rest h = ground (
  arith,
  length-some_digits (skip_sign (advance cs)) rest,
  length-skip_sign (advance cs),
  length-advance cs,
)

pub length-number_end : (cs rest : List ℕ) → number_end cs ≡ some rest → length rest < length cs
unfolding number_end
length-number_end cs rest h = elim (Option-cases (integer_part (skip_minus cs))) [
  | inl e ↦ absurd (cc (rw e at h))
  | inr (one, e) ↦ elim (Option-cases (fraction one)) [
    | inl e' ↦ absurd (cc (rw (e, e') at h))
    | inr (two, e') ↦ omega (
      arith,
      length-skip_minus cs,
      length-integer_part (skip_minus cs) one e,
      length-fraction one two e',
      length-exponent two rest (rw (e, e') at h),
    )
  ]
]

pub length-string_end : (cs rest : List ℕ) → string_end cs ≡ some rest → length rest < length cs
unfolding string_end
length-string_end [] rest h = cc
length-string_end (c ∷ []) rest h = ground arith
length-string_end (c ∷ d ∷ cs) rest h =
    ground (arith, length-string_end cs rest, length-string_end (d ∷ cs) rest)
