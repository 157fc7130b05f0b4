-- ===== src/Base/Equality.antt =====
-- `===` as one operator for every type of the model that the code compares.
use Prim.Native.Nat.{ℕ}
use Prim.Native.String.{String}
use mathlib.Core.Path.{◌≡◌, refl}
use mathlib.Core.Logic.{◌↔◌}
use mathlib.Core.Bool.{Bool, true, false, ◌&&◌}
use mathlib.Core.Option.{Option, none, some}
use mathlib.Core.List.{List, [], ◌∷◌}
use native.Mathlib.Omega.{arith}
use text.Mathlib.Text.{◌==◌ as str_eq}
use text.Mathlib.TextEquality.{eq_iff}
use threadloop.Base.Test.{eqb}

pub record StrictEquality {ℓ} (A : Type ℓ) : Type ℓ where
  pub strict : A → A → Bool
  pub strict_iff : (a b : A) → (strict a b ≡ true) ↔ (a ≡ b)

infix 50 ◌==◌
abbrev pub ◌==◌ {ℓ} : {A : Type ℓ} ⦃e : StrictEquality A⦄ → A → A → Bool
◌==◌ ⦃e⦄ = e.strict

pub eqb_iff : (a b : ℕ) → (eqb a b ≡ true) ↔ (a ≡ b)
eqb_iff a b = ground arith

instance abbrev pub nat_eq : StrictEquality ℕ
nat_eq = record { strict = eqb; strict_iff = eqb_iff }

abbrev pub beq_bool : Bool → Bool → Bool
beq_bool true b = b
beq_bool false true = false
beq_bool false false = true

pub beq_bool_iff : (a b : Bool) → (beq_bool a b ≡ true) ↔ (a ≡ b)
beq_bool_iff a b = ground arith

instance abbrev pub bool_eq : StrictEquality Bool
bool_eq = record { strict = beq_bool; strict_iff = beq_bool_iff }

instance abbrev pub string_eq : StrictEquality String
string_eq = record { strict = str_eq; strict_iff = eq_iff }

module _ {ℓ} {A : Type ℓ} ⦃e : StrictEquality A⦄ where
  abbrev pub beq_option : Option A → Option A → Bool
  beq_option none none = true
  beq_option none (some b) = false
  beq_option (some a) none = false
  beq_option (some a) (some b) = e.strict a b

  pub beq_option_iff : (a b : Option A) → (beq_option a b ≡ true) ↔ (a ≡ b)
  beq_option_iff none none = (λ _. refl, λ _. refl)
  beq_option_iff none (some b) = (λ h. cc, λ h. cc)
  beq_option_iff (some a) none = (λ h. cc, λ h. cc)
  beq_option_iff (some a) (some b) =
      (λ h. cc ((e.strict_iff a b).0 h), λ h. (e.strict_iff a b).1 (cc))

  instance abbrev pub option_eq : StrictEquality (Option A)
  option_eq = record { strict = beq_option; strict_iff = beq_option_iff }

  abbrev pub beq_list : List A → List A → Bool
  beq_list [] [] = true
  beq_list [] (b ∷ bs) = false
  beq_list (a ∷ as') [] = false
  beq_list (a ∷ as') (b ∷ bs) = e.strict a b && beq_list as' bs

  pub beq_list_iff : (xs ys : List A) → (beq_list xs ys ≡ true) ↔ (xs ≡ ys)
  beq_list_iff [] [] = (λ _. refl, λ _. refl)
  beq_list_iff [] (b ∷ bs) = (λ h. cc, λ h. cc)
  beq_list_iff (a ∷ xs) [] = (λ h. cc, λ h. cc)
  beq_list_iff (a ∷ xs) (b ∷ ys) = ground (arith, e.strict_iff a b, beq_list_iff xs ys)

  instance abbrev pub list_eq : StrictEquality (List A)
  list_eq = record { strict = beq_list; strict_iff = beq_list_iff }

  pub beq_refl : (a : A) → (a == a) ≡ true
  beq_refl a = (e.strict_iff a a).1 refl

  pub eq_of_beq : {a b : A} → (a == b) ≡ true → a ≡ b
  eq_of_beq {a} {b} h = (e.strict_iff a b).0 h
