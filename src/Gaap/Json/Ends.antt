-- ===== src/Gaap/Json/Ends.antt =====
-- Postconditions of a reading: the fuel sufficed, and what was read satisfies the predicate.
use threadloop.Base.{Bool, true, false, Option, none, some, ◌≡◌, ◌≢◌, refl, subst}
use threadloop.Gaap.Json.{Reading, Refusal, read, refused, exhausted, expect, ◌>>=◌}

pub data Ends {ℓ κ} {A : Type ℓ} (P : A → Type κ) : Reading A → Type (ℓ ⊔ κ) where
  reads : {a : A} → P a → Ends P (read a)
  refuses : {e : Refusal} → Ends P (refused e)

module _ {ℓ κ} {A : Type ℓ} {P : A → Type κ} where
  pub Ends-exhausted : {r : Reading A} → Ends P r → r ≢ exhausted
  Ends-exhausted (reads p) = cc
  Ends-exhausted refuses = cc

  pub Ends-read : {r : Reading A} {a : A} → Ends P r → r ≡ read a → P a
  Ends-read (reads p) e = subst P (cc) p
  Ends-read refuses e = cc

  pub Ends-split :
      (b : Bool) {x y : Reading A}
      → (b ≡ true → Ends P x)
      → (b ≡ false → Ends P y)
      → Ends P (elim b [ true ↦ x | false ↦ y ])
  Ends-split true on_true on_false = on_true refl
  Ends-split false on_true on_false = on_false refl

  pub Ends-option {μ} :
      {B : Type μ} (o : Option B) {x : Reading A} {f : B → Reading A}
      → Ends P x
      → ((b : B) → o ≡ some b → Ends P (f b))
      → Ends P (elim o [ none ↦ x | some b ↦ f b ])
  Ends-option none on_none on_some = on_none
  Ends-option (some b) on_none on_some = on_some b refl

  pub Ends-expect : (b : Bool) {x : Reading A} → (b ≡ true → Ends P x) → Ends P (expect b x)
  Ends-expect true on_true = on_true refl
  Ends-expect false on_true = refuses

  pub Ends-then {μ ν} :
      {B : Type μ} {Q : B → Type ν} {r : Reading A} {f : A → Reading B}
      → Ends P r
      → ((a : A) → P a → Ends Q (f a))
      → Ends Q (r >>= f)
  Ends-then (reads {a} p) k = k a p
  Ends-then refuses k = refuses

  pub Ends-map {ν} :
      {Q : A → Type ν} {r : Reading A} → Ends P r → ((a : A) → P a → Ends Q (read a)) → Ends Q r
  Ends-map (reads {a} p) k = k a p
  Ends-map refuses k = refuses
