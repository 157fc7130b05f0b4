-- ===== src/Store/Steps.antt =====
-- Inversion of the `Action` monad: what a sequence that returned has done.
use threadloop.Base.{Bool, true, false, ◌≡◌, ap, refl, arith}
use threadloop.Store.{Fault, Action, return, throw, ◌>>=◌, ◌>>◌, require}

of_return : {A : Type 0} → Action A → A → A
of_return (return a) d = a
of_return (throw e) d = d

pub return-injective : {A : Type 0} {a b : A} → Action.return a ≡ return b → a ≡ b
unfolding of_return
return-injective {a = a} p = ap (λ m. of_return m a) p

module _ {A B : Type 0} where
  pub bind_returns :
      (m : Action A) (f : A → Action B) {b : B}
      → m >>= f ≡ return b
      → (a : A) × (m ≡ return a) × (f a ≡ return b)
  bind_returns (return a) f p = (a, refl, p)
  bind_returns (throw e) f p = absurd (ground arith)

pub require_returns :
    {B : Type 0} (b : Bool) (e : Fault) (m : Action B) {r : B}
    → require b e >> m ≡ return r
    → (b ≡ true) × (m ≡ return r)
require_returns true e m p = (refl, p)
require_returns false e m p = absurd (ground arith)
