-- ===== src/Session/Transition/Edges.antt =====
-- What the edges of the lifecycle need of a context that was built in an observed repository.
use threadloop.Base.{some, Bool, true, false, ◌||◌, ◌≡◌, ◌≢◌, refl, ◌==◌, arith, ◌⊎◌, inl, inr}
use threadloop.Task.{
  TaskStatus, verifying, pre_pr_reviewing, reviewing, ready_for_human, completed, blocked,
  status_eq,
}
use threadloop.Json.{Fields}
use threadloop.Review.{has_blocking_review, has_current_human_approval}
use threadloop.Transition.{GuardRepository, ProofGuardContext}
use threadloop.Transition.Authority.{Authorized, CurrentReview, ProofPassed}
use threadloop.Lifecycle.{LifecycleTransitionContext}
use threadloop.Lifecycle.Graph.{CanMove}

-- Proof that passed, in a repository.
pub record Supported (ctx : ProofGuardContext) : Type 0 where
  pub passed : ProofPassed ctx
  pub repository : GuardRepository
  pub located : ctx.repository ≡ some repository

-- A state that is entered on proof that passed.
abbrev pub rests_on_proof : TaskStatus → Bool
rests_on_proof target =
    target == pre_pr_reviewing
    || target == reviewing
    || target == ready_for_human
    || target == completed

pub Authorized-Supported :
    {input : Fields} {ctx : ProofGuardContext} {source target : TaskStatus}
    → source ≢ blocked
    → rests_on_proof target ≡ true
    → Authorized input ctx source target
    → Supported ctx
Authorized-Supported live rests (Authorized.frame _) = absurd (ground arith)
Authorized-Supported live rests (Authorized.plan_proof _ _) = absurd (ground arith)
Authorized-Supported live rests (Authorized.implement _ _ _) = absurd (ground arith)
Authorized-Supported live rests (Authorized.verify _ _ _ _ _) = absurd (ground arith)
Authorized-Supported live rests (Authorized.rework_failure _ _ _ _) = absurd (ground arith)
Authorized-Supported live rests (Authorized.rework_review _ _ _) = absurd (ground arith)
Authorized-Supported live rests (Authorized.enter_pre_pr_review _ at_plan _ p) = record {
  passed = p;
  repository = at_plan.repository;
  located = at_plan.observed;
}
Authorized-Supported live rests (Authorized.return_to_review _ at_plan _ p) = record {
  passed = p;
  repository = at_plan.repository;
  located = at_plan.observed;
}
Authorized-Supported live rests (Authorized.repair_proof _ _ _ _ _ _) = absurd (ground arith)
Authorized-Supported live rests (Authorized.remediate _ _ _) = absurd (ground arith)
Authorized-Supported live rests (Authorized.clear_review _ at_plan _ p) = record {
  passed = p;
  repository = at_plan.repository;
  located = at_plan.observed;
}
Authorized-Supported live rests (Authorized.repair_review _ _ _ _ _) = absurd (ground arith)
Authorized-Supported live rests (Authorized.hand_over _ reviewed _ p) = record {
  passed = p;
  repository = reviewed.repository;
  located = reviewed.observed;
}
Authorized-Supported live rests (Authorized.verify_repair _ _ _) = absurd (ground arith)
Authorized-Supported live rests (Authorized.complete _ reviewed _ p _ _) = record {
  passed = p;
  repository = reviewed.repository;
  located = reviewed.observed;
}
Authorized-Supported live rests (Authorized.block _ _ _) = absurd (ground arith)
Authorized-Supported live rests (Authorized.resume _ _ _) = absurd (live refl)

-- What completion needs besides.
pub record Completable (ctx : ProofGuardContext) : Type 0 where
  pub passed : ProofPassed ctx
  pub reviewed : CurrentReview ctx
  pub clear : has_blocking_review reviewed.evidence ≡ false
  pub approved : has_current_human_approval reviewed.evidence ≡ true
  pub merged : reviewed.evidence.merged ≡ true

-- No other state is completed from, nor is a block resumed to completion.
CanMove-completed :
    {context : LifecycleTransitionContext} {source target : TaskStatus}
    → CanMove context source target
    → target ≡ completed
    → source ≢ blocked
CanMove-completed CanMove.complete e = λ p. ground arith
CanMove-completed (CanMove.resume recorded not_blocked live) e = absurd (live e)
CanMove-completed _ e = absurd (ground arith)

Authorized-live :
    {input : Fields} {ctx : ProofGuardContext} {source target : TaskStatus}
    → source ≢ blocked
    → target ≡ completed
    → Authorized input ctx source target
    → Completable ctx
Authorized-live live e (Authorized.complete _ reviewed clear p approved merged) = record {
  passed = p;
  reviewed = reviewed;
  clear = clear;
  approved = approved;
  merged = merged;
}
Authorized-live live e (Authorized.resume _ _ _) = absurd (live refl)
Authorized-live live e _ = absurd (ground arith)

pub Authorized-Completable :
    {context : LifecycleTransitionContext} {input : Fields} {ctx : ProofGuardContext}
    {source target : TaskStatus}
    → CanMove context source target
    → target ≡ completed
    → Authorized input ctx source target
    → Completable ctx
Authorized-Completable moves e a = Authorized-live (CanMove-completed moves e) e a

-- Work that is committed since its basis, or a repair since the failure.
pub record Committed (ctx : ProofGuardContext) : Type 0 where
  pub repository : GuardRepository
  pub located : ctx.repository ≡ some repository
  pub is_committed :
      (repository.committed_implementation_from_basis ≡ true)
      ⊎ (repository.committed_repair_from_failure ≡ true)

pub Authorized-Committed :
    {input : Fields} {ctx : ProofGuardContext} {source target : TaskStatus}
    → source ≢ blocked
    → target ≡ verifying
    → Authorized input ctx source target
    → Committed ctx
Authorized-Committed live e (Authorized.verify _ at_plan _ _ implemented) = record {
  repository = at_plan.repository;
  located = at_plan.observed;
  is_committed = inl implemented;
}
Authorized-Committed live e (Authorized.verify_repair _ at_plan repaired) = record {
  repository = at_plan.repository;
  located = at_plan.observed;
  is_committed = inr repaired;
}
Authorized-Committed live e (Authorized.resume _ _ _) = absurd (live refl)
Authorized-Committed live e _ = absurd (ground arith)
