-- ===== src/Lifecycle/Graph.antt =====
-- The lifecycle graph as a relation, and the decision procedure held to it.
use threadloop.Base.{Option, none, some, refl, Option-cases, inl, inr, true, ◌≡◌, ◌≢◌, ◌↔◌, arith}
use threadloop.Task.{
  TaskStatus, queued, framed, proof_ready, implementing, verifying, pre_pr_reviewing, reviewing,
  repairing, ready_for_human, blocked, completed, LifecyclePhase, pre_pr, post_pr, status_iff,
}
use threadloop.Lifecycle.{LifecycleTransitionContext, evaluate_lifecycle_transition}

-- Who may move where: the diagram of docs/lifecycle.md with the phase that each edge needs, and one
-- move that the diagram does not have, `repair_before_pr`. The code leaves that one to the guards.
pub data CanMove (context : LifecycleTransitionContext) : TaskStatus → TaskStatus → Type 0 where
  frame : CanMove context queued framed
  plan_proof : CanMove context framed proof_ready
  implement : CanMove context proof_ready implementing
  verify : CanMove context implementing verifying
  rework : context.phase ≢ some post_pr → CanMove context verifying implementing
  enter_pre_pr_review : context.phase ≢ some post_pr → CanMove context verifying pre_pr_reviewing
  return_to_review : context.phase ≢ some pre_pr → CanMove context verifying reviewing
  repair_after_pr : context.phase ≢ some pre_pr → CanMove context verifying repairing
  repair_before_pr : context.phase ≡ some pre_pr → CanMove context verifying repairing
  remediate : context.phase ≢ some post_pr → CanMove context pre_pr_reviewing implementing
  clear_review : context.phase ≢ some post_pr → CanMove context pre_pr_reviewing reviewing
  repair_review : CanMove context reviewing repairing
  hand_over : CanMove context reviewing ready_for_human
  verify_repair : CanMove context repairing verifying
  repair_handed_over : CanMove context ready_for_human repairing
  complete : CanMove context ready_for_human completed
  block :
      {source : TaskStatus} → source ≢ completed → source ≢ blocked → CanMove context source blocked
  resume :
      {prior : TaskStatus}
      → context.blocked_from_state ≡ some prior
      → prior ≢ blocked
      → prior ≢ completed
      → CanMove context blocked prior

module _ (context : LifecycleTransitionContext) where
  resume-CanMove :
      (target : TaskStatus)
      → (evaluate_lifecycle_transition blocked target context).allowed ≡ true
      → CanMove context blocked target
  unfolding evaluate_lifecycle_transition
  resume-CanMove target h = elim (Option-cases context.blocked_from_state) [
    | inl e ↦ absurd (ground arith)
    | inr (prior, e) ↦
        let same : target ≡ prior = ground (arith, status_iff target prior) in
        resume (rw same e) (ground (arith, status_iff target prior))
          (ground (arith, status_iff target prior))
  ]

  allowed-CanMove :
      (source target : TaskStatus)
      → (evaluate_lifecycle_transition source target context).allowed ≡ true
      → CanMove context source target
  unfolding evaluate_lifecycle_transition
  allowed-CanMove queued framed h = frame
  allowed-CanMove framed proof_ready h = plan_proof
  allowed-CanMove proof_ready implementing h = implement
  allowed-CanMove implementing verifying h = verify
  allowed-CanMove verifying implementing h = rework (λ e. ground arith)
  allowed-CanMove verifying pre_pr_reviewing h = enter_pre_pr_review (λ e. ground arith)
  allowed-CanMove verifying reviewing h = return_to_review (λ e. ground arith)
  allowed-CanMove verifying repairing h = repair_in context.phase refl
    where
      repair_in :
          (p : Option LifecyclePhase) → context.phase ≡ p → CanMove context verifying repairing
      repair_in none e = repair_after_pr (λ d. ground arith)
      repair_in (some post_pr) e = repair_after_pr (λ d. ground arith)
      repair_in (some pre_pr) e = repair_before_pr e
  allowed-CanMove pre_pr_reviewing implementing h = remediate (λ e. ground arith)
  allowed-CanMove pre_pr_reviewing reviewing h = clear_review (λ e. ground arith)
  allowed-CanMove reviewing repairing h = repair_review
  allowed-CanMove reviewing ready_for_human h = hand_over
  allowed-CanMove repairing verifying h = verify_repair
  allowed-CanMove ready_for_human repairing h = repair_handed_over
  allowed-CanMove ready_for_human completed h = complete
  allowed-CanMove blocked target h = resume-CanMove target h
  allowed-CanMove completed target h = absurd (ground arith)
  allowed-CanMove source blocked h = block (λ e. ground arith) (λ e. ground arith)
  allowed-CanMove source target h = absurd (ground arith)

  CanMove-allowed :
      {source target : TaskStatus}
      → CanMove context source target
      → (evaluate_lifecycle_transition source target context).allowed ≡ true
  unfolding evaluate_lifecycle_transition
  CanMove-allowed frame = ground arith
  CanMove-allowed plan_proof = ground arith
  CanMove-allowed implement = ground arith
  CanMove-allowed verify = ground arith
  CanMove-allowed (rework h) = ground arith
  CanMove-allowed (enter_pre_pr_review h) = ground arith
  CanMove-allowed (return_to_review h) = ground arith
  CanMove-allowed (repair_after_pr h) = ground arith
  CanMove-allowed (repair_before_pr h) = ground arith
  CanMove-allowed (remediate h) = ground arith
  CanMove-allowed (clear_review h) = ground arith
  CanMove-allowed repair_review = ground arith
  CanMove-allowed hand_over = ground arith
  CanMove-allowed verify_repair = ground arith
  CanMove-allowed repair_handed_over = ground arith
  CanMove-allowed complete = ground arith
  CanMove-allowed (block {source} live open_state) = ground arith
  CanMove-allowed (resume {prior} recorded not_blocked not_completed) =
      rw recorded (ground (arith, status_iff prior prior))

-- A transition is structurally allowed exactly when it is an edge of the documented diagram in a
-- phase that the edge belongs to, a session of no phase having every edge; or it blocks a state
-- that is neither blocked nor completed; or it resumes a blocked session to the prior state that it
-- recorded; or it is the one move that the documents do not allow, from verifying to repairing
-- before the pull request.
pub evaluate_lifecycle_transition_iff :
    (context : LifecycleTransitionContext) (source target : TaskStatus)
    → ((evaluate_lifecycle_transition source target context).allowed ≡ true)
      ↔ CanMove context source target
evaluate_lifecycle_transition_iff context source target =
    (allowed-CanMove context source target, CanMove-allowed context)
