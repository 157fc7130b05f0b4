-- ===== src/Session/Transition/Denies.antt =====
-- A proof plan whose baseline is turned down comes with a decision of the guards that denies.
use threadloop.Base.{
  String, if◌then◌else◌, Option, none, some, Bool, true, false, not, ◌≡◌, refl, ap, subst, is_some,
  arith, [],
}
use threadloop.Json.{Value}
use threadloop.Proof.{BoundProofPlan, gates_of}
use threadloop.Transition.{TransitionGuardDecision}
use threadloop.Session.{Readers, ProofRepository}
use threadloop.Session.Files.{Files}
use threadloop.Session.Proof.{CanonicalProofPlan, canonicalize_proof_plan}
use threadloop.Session.Prepare.{
  Identity, Preparation, prepared, baseline_rejected, invalid_proof_plan, unreadable_repository,
  prepare_bound_proof_plan, prepare_canonical, named_branch, bind_baseline, on_branch,
  policies_are_bound, directories_are_inside,
}

-- A baseline that is turned down comes with a decision that denies.
pub data Denies : Preparation → Type 0 where
  denies :
      {decision : TransitionGuardDecision}
      → decision.allowed ≡ false
      → Denies (baseline_rejected decision)
  prepares : {plan : BoundProofPlan} → Denies (prepared plan)
  invalidates : Denies invalid_proof_plan
  stops : Denies unreadable_repository

decision_of : TransitionGuardDecision → Preparation → TransitionGuardDecision
decision_of d (baseline_rejected decision) = decision
decision_of d _ = d

pub Denies-rejected :
    {p : Preparation} {decision : TransitionGuardDecision}
    → Denies p
    → p ≡ baseline_rejected decision
    → decision.allowed ≡ false
unfolding decision_of
Denies-rejected {decision = d} (denies h) e =
    subst (λ decision. decision.allowed ≡ false) (ap (decision_of d) e) h
Denies-rejected prepares e = absurd (ground arith)
Denies-rejected invalidates e = absurd (ground arith)
Denies-rejected stops e = absurd (ground arith)

Denies-if : (b : Bool) {p q : Preparation} → Denies p → Denies q → Denies (if b then p else q)
Denies-if true h k = h
Denies-if false h k = k

module _ (readers : Readers) (files : Files) (identity : Identity) (now : String) where
  bind_baseline-Denies :
      (repository : ProofRepository) (canonical : CanonicalProofPlan) (branch : String)
      → Denies (bind_baseline readers files identity now repository canonical branch)
  unfolding bind_baseline
  bind_baseline-Denies repository canonical branch =
      Denies-if (not (policies_are_bound identity branch canonical.plan)) invalidates (
        Denies-if
          (not (
            directories_are_inside files (files.realpath (files.resolve []))
              (gates_of canonical.plan)))
          (Denies-if (is_some (files.realpath (files.resolve []))) invalidates stops) prepares)

  on_branch-Denies :
      (repository : ProofRepository) (canonical : CanonicalProofPlan) (o : Option String)
      → Denies (on_branch readers files identity now repository canonical o)
  on_branch-Denies repository canonical none = denies refl
  on_branch-Denies repository canonical (some branch) =
      Denies-if repository.clean (bind_baseline-Denies repository canonical branch) (denies refl)

  prepare_canonical-Denies :
      (repository : Option ProofRepository) (o : Option CanonicalProofPlan)
      → Denies (prepare_canonical readers files identity now repository o)
  unfolding prepare_canonical
  prepare_canonical-Denies repository none = invalidates
  prepare_canonical-Denies none (some canonical) = stops
  prepare_canonical-Denies (some repository) (some canonical) =
      on_branch-Denies repository canonical (named_branch repository)

  pub prepare_bound_proof_plan-Denies :
      (repository : Option ProofRepository) (value : Option Value)
      → Denies (prepare_bound_proof_plan readers files identity now repository value)
  unfolding prepare_bound_proof_plan
  prepare_bound_proof_plan-Denies repository none = invalidates
  prepare_bound_proof_plan-Denies repository (some value) =
      prepare_canonical-Denies repository (canonicalize_proof_plan readers true true value)
