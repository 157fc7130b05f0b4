-- ===== src/Scenarios/Hexadecimal.antt =====
-- The digest of the scenarios is in hexadecimal.
use Prim.Native.Nat.{◌/◌, ◌%◌}
use Prim.Native.Char.{code}
use Prim.Native.String.{◌++◌ as join}
use Prim.Native.String.append
use threadloop.Base.{
  ℕ, zero, suc, String, true, ◌≡◌, refl, ap, ◌∙◌, ◌∷◌, ◌++◌, length, all, length-append, all-append,
  is_lower_hex, codes, is_hex_of_length, arith,
}
use threadloop.Scenarios.Engine.{digit, digits, checksum, engine, fold}

codes-join : (a b : String) → codes (join a b) ≡ codes a ++ codes b
codes-join String.[] b = ap codes (append.nil b)
codes-join (String.◌∷◌ c a) b = ap codes (append.cons c a b) ∙ ap (λ t. code c ∷ t) (codes-join a b)

digit-codes : (n : ℕ) → (length (codes (digit n)) ≡ 1) × (all is_lower_hex (codes (digit n)) ≡ true)
unfolding digit
digit-codes zero = (refl, refl)
digit-codes (suc zero) = (refl, refl)
digit-codes (suc (suc zero)) = (refl, refl)
digit-codes (suc (suc (suc zero))) = (refl, refl)
digit-codes (suc (suc (suc (suc zero)))) = (refl, refl)
digit-codes (suc (suc (suc (suc (suc zero))))) = (refl, refl)
digit-codes (suc (suc (suc (suc (suc (suc zero)))))) = (refl, refl)
digit-codes (suc (suc (suc (suc (suc (suc (suc zero))))))) = (refl, refl)
digit-codes (suc (suc (suc (suc (suc (suc (suc (suc n)))))))) = (refl, refl)

digits-codes :
    (k n : ℕ)
    → (length (codes (digits 8 k n)) ≡ k) × (all is_lower_hex (codes (digits 8 k n)) ≡ true)
unfolding digits
digits-codes zero n = (refl, refl)
digits-codes (suc k) n =
    let front = digits 8 k (n / 8) in
    let last = digit (n % 8) in
    let ih = digits-codes k (n / 8) in
    let one = digit-codes (n % 8) in
    let split = codes-join front last in
    (
      ap length split ∙ length-append (codes front) (codes last) ∙ omega (arith, ih.0, one.0),
      ap (all is_lower_hex) split
          ∙ all-append is_lower_hex (codes front) (codes last)
          ∙ rw (ih.1, one.1) refl,
    )

pub digest-is_hex : (content : String) → is_hex_of_length 64 (engine.digest content) ≡ true
unfolding engine checksum is_hex_of_length
digest-is_hex content = let h = digits-codes 64 (fold 7 (codes content)) in rw (h.0, h.1) refl
