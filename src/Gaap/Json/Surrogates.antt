-- ===== src/Gaap/Json/Surrogates.antt =====
-- src/domain/gaap-json.ts: `wellFormed` against UTF-16 as Unicode defines it.
use Prim.Native.Nat.{◌/◌, ◌%◌}
use threadloop.Base.{
  ℕ, ◌+◌, ◌-◌, ◌*◌, ◌<◌, ◌≤◌, ◌≡◌, ◌⊎◌, ◌↔◌, refl, List, [], ◌∷◌, true, false, not, arith,
  Bool-cases, inl, inr, &&-eq-true,
}
use threadloop.Gaap.Json.Scan.{is_high, is_low, well_formed}

-- UTF-16 of a sequence of scalar values. A scalar value below 0x10000, which lies outside the
-- surrogates 0xd800 to 0xdfff, is one unit; one from 0x10000 to 0x10ffff is two.
pub data IsScalarText : List ℕ → Type 0 where
  empty : IsScalarText []
  basic :
      {c : ℕ} {cs : List ℕ} → (c < 0xd800) ⊎ (0xe000 ≤ c) → IsScalarText cs → IsScalarText (c ∷ cs)
  supplementary :
      {c d : ℕ} {cs : List ℕ} (scalar : ℕ)
      → 0x10000 ≤ scalar
      → scalar ≤ 0x10ffff
      → c ≡ 0xd800 + (scalar - 0x10000) / 0x400
      → d ≡ 0xdc00 + (scalar - 0x10000) % 0x400
      → IsScalarText cs
      → IsScalarText (c ∷ d ∷ cs)

outside : (c : ℕ) → is_high c ≡ false → is_low c ≡ false → (c < 0xd800) ⊎ (0xe000 ≤ c)
unfolding is_high is_low
outside c h l = ground arith

pair_of :
    (c d : ℕ) {cs : List ℕ}
    → is_high c ≡ true
    → is_low d ≡ true
    → IsScalarText cs
    → IsScalarText (c ∷ d ∷ cs)
unfolding is_high is_low
pair_of c d h l text =
    let low : 0xd800 ≤ c = ground arith in
    let high : c ≤ 0xdbff = ground arith in
    let low' : 0xdc00 ≤ d = ground arith in
    let high' : d ≤ 0xdfff = ground arith in
    IsScalarText.supplementary (0x10000 + (c - 0xd800) * 0x400 + (d - 0xdc00)) (omega arith)
      (omega arith) (omega arith) (omega arith) text

surrogates_of :
    (c d scalar : ℕ)
    → 0x10000 ≤ scalar
    → scalar ≤ 0x10ffff
    → c ≡ 0xd800 + (scalar - 0x10000) / 0x400
    → d ≡ 0xdc00 + (scalar - 0x10000) % 0x400
    → (is_high c ≡ true) × (is_low d ≡ true)
unfolding is_high is_low
surrogates_of c d scalar above below e f =
    let high : c ≤ 0xdbff = omega arith in
    let high' : d ≤ 0xdfff = omega arith in
    let low : 0xd800 ≤ c = omega arith in
    let low' : 0xdc00 ≤ d = omega arith in (ground arith, ground arith)

neither : (c : ℕ) → (c < 0xd800) ⊎ (0xe000 ≤ c) → (is_high c ≡ false) × (is_low c ≡ false)
unfolding is_high is_low
neither c h = (ground arith, ground arith)

pub well_formed-IsScalarText : (cs : List ℕ) → well_formed cs ≡ true → IsScalarText cs
unfolding well_formed
well_formed-IsScalarText [] h = IsScalarText.empty
well_formed-IsScalarText (c ∷ []) h =
    IsScalarText.basic (outside c (ground arith) (ground arith)) IsScalarText.empty
well_formed-IsScalarText (c ∷ d ∷ cs) h = elim (Bool-cases (is_high c)) [
  | inl e ↦
      let (low, rest) = &&-eq-true (is_low d) (well_formed cs) (rw (well_formed, e) at h) in
      pair_of c d e low (well_formed-IsScalarText cs rest)
  | inr e ↦
      let (low, rest) =
        &&-eq-true (not (is_low c)) (well_formed (d ∷ cs)) (rw (well_formed, e) at h) in
      IsScalarText.basic (outside c e (ground arith)) (well_formed-IsScalarText (d ∷ cs) rest)
]

complete : {cs : List ℕ} → IsScalarText cs → well_formed cs ≡ true
unfolding well_formed
complete IsScalarText.empty = refl
complete (IsScalarText.basic {c} {cs = []} range text) =
    let (high, low) = neither c range in simp (well_formed, high, low)
complete (IsScalarText.basic {c} {cs = d ∷ ds} range text) =
    let (high, low) = neither c range in simp (well_formed, high, low, complete text)
complete (IsScalarText.supplementary {c} {d} scalar above below e f text) =
    let (high, low) = surrogates_of c d scalar above below e f in
    simp (well_formed, high, low, complete text)

-- The test accepts exactly the UTF-16 of a sequence of Unicode scalar values.
pub well_formed_iff : (cs : List ℕ) → (well_formed cs ≡ true) ↔ IsScalarText cs
well_formed_iff cs = (well_formed-IsScalarText cs, complete)
