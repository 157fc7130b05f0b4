-- ===== src/Transition/Authority/Decision.antt =====
-- The guards decide the relation `Authorized`.
use threadloop.Base.{
  Option, some, Option-cases, true, false, ◌≡◌, ◌↔◌, inl, inr, refl, arith, is_some,
}
use threadloop.Task.{TaskStatus, queued, framed, proof_ready, blocked}
use threadloop.Json.{Fields, get}
use threadloop.Lifecycle.{LifecycleTransitionContext}
use threadloop.Lifecycle.Graph.{CanMove}
use threadloop.Proof.{BoundProofPlan}
use threadloop.Transition.{ProofGuardContext}
use threadloop.Transition.Input.{
  validate_transition_evidence, is_pre_pr_review_transition, has_required_text_fields, block_fields,
  recovery_fields,
}
use threadloop.Transition.Guards.{
  evaluate_transition_guards, evaluate_proof_owned_guards, guard_with_authority,
  get_transition_guard_requirement,
}
use threadloop.Transition.Authority.{Authorized}
use threadloop.Transition.Authority.ProofEdges.{
  Allowed, Allowed-Valid, carries-NoReview, implement_authorized, verify_authorized,
  rework_authorized, enter_authorized, return_authorized, repair_proof_authorized,
  remediate_authorized, clear_authorized, verify_repair_authorized,
}
use threadloop.Transition.Authority.ReviewEdges.{
  repair_review_authorized, repair_handed_over_authorized, hand_over_authorized,
  complete_authorized,
}
use threadloop.Transition.Authority.Sufficient.{Authorized-Allowed}

no_review_edge : (source : TaskStatus) → is_pre_pr_review_transition source blocked ≡ false
unfolding is_pre_pr_review_transition
no_review_edge source = ground arith

block_evidence :
    (source : TaskStatus) (input : Fields) (ctx : ProofGuardContext)
    → (validate_transition_evidence source blocked input ctx).allowed ≡ true
    → has_required_text_fields (get "block" input) block_fields ≡ true
unfolding validate_transition_evidence
block_evidence source input ctx v = ground arith

recovery_evidence :
    (target : TaskStatus) (input : Fields) (ctx : ProofGuardContext)
    → (validate_transition_evidence blocked target input ctx).allowed ≡ true
    → has_required_text_fields (get "recovery" input) recovery_fields ≡ true
unfolding validate_transition_evidence
recovery_evidence target input ctx v = ground arith

plan_is_bound :
    (input : Fields) (prior : Option TaskStatus) (ctx : ProofGuardContext)
    → Allowed framed proof_ready input prior ctx
    → (plan : BoundProofPlan) × (ctx.bound_plan ≡ some plan)
unfolding evaluate_transition_guards get_transition_guard_requirement evaluate_proof_owned_guards
    guard_with_authority
plan_is_bound input prior ctx a = elim (Option-cases ctx.bound_plan) [
  | inl e ↦ absurd (ground arith)
  | inr found ↦ found
]

module _ (context : LifecycleTransitionContext) (input : Fields) (ctx : ProofGuardContext) where
  Allowed-Authorized :
      {source target : TaskStatus}
      → CanMove context source target
      → Allowed source target input context.blocked_from_state ctx
      → Authorized input ctx source target
  unfolding is_pre_pr_review_transition
  Allowed-Authorized CanMove.frame a =
      Authorized.frame (carries-NoReview input _ ctx queued framed refl a)
  Allowed-Authorized CanMove.plan_proof a =
      Authorized.plan_proof (carries-NoReview input _ ctx framed proof_ready refl a)
        (plan_is_bound input _ ctx a).1
  Allowed-Authorized CanMove.implement a = implement_authorized input _ ctx a
  Allowed-Authorized CanMove.verify a = verify_authorized input _ ctx a
  Allowed-Authorized (CanMove.rework h) a = rework_authorized input _ ctx a
  Allowed-Authorized (CanMove.enter_pre_pr_review h) a = enter_authorized input _ ctx a
  Allowed-Authorized (CanMove.return_to_review h) a = return_authorized input _ ctx a
  Allowed-Authorized (CanMove.repair_after_pr h) a = repair_proof_authorized input _ ctx a
  Allowed-Authorized (CanMove.repair_before_pr h) a = repair_proof_authorized input _ ctx a
  Allowed-Authorized (CanMove.remediate h) a = remediate_authorized input _ ctx a
  Allowed-Authorized (CanMove.clear_review h) a = clear_authorized input _ ctx a
  Allowed-Authorized CanMove.repair_review a = repair_review_authorized input _ ctx a
  Allowed-Authorized CanMove.hand_over a = hand_over_authorized input _ ctx a
  Allowed-Authorized CanMove.verify_repair a = verify_repair_authorized input _ ctx a
  Allowed-Authorized CanMove.repair_handed_over a = repair_handed_over_authorized input _ ctx a
  Allowed-Authorized CanMove.complete a = complete_authorized input _ ctx a
  Allowed-Authorized (CanMove.block {source} live unblocked) a =
      Authorized.block (carries-NoReview input _ ctx source blocked (no_review_edge source) a)
        unblocked (block_evidence source input ctx (Allowed-Valid source blocked input _ ctx a))
  Allowed-Authorized (CanMove.resume {prior} recorded not_blocked live) a =
      Authorized.resume (carries-NoReview input _ ctx blocked prior refl a) not_blocked
        (recovery_evidence prior input ctx (Allowed-Valid blocked prior input _ ctx a))

  -- A blocked session that may move has a recorded prior state.
  prior_recorded :
      {source target : TaskStatus}
      → CanMove context source target
      → source ≡ blocked
      → is_some context.blocked_from_state ≡ true
  prior_recorded (CanMove.block live unblocked) e = absurd (unblocked e)
  prior_recorded (CanMove.resume recorded not_blocked live) e = rw recorded refl
  prior_recorded _ e = absurd (ground arith)

  -- On every edge of the lifecycle graph, the guards allow the transition exactly when the
  -- request and the evidence authorize it: what `Authorized` lists for that edge, namely the clean
  -- checkout of the plan's branch, the committed work, the gates passed locally and by signed CI,
  -- the current signed review, the human approval with the merge, the repair attempts left, or the
  -- block and recovery fields, and a pre-PR review on the pre-PR review edges and on no other.
  pub evaluate_transition_guards_iff :
      {source target : TaskStatus}
      → CanMove context source target
      → ((evaluate_transition_guards source target input context.blocked_from_state ctx).allowed
          ≡ true)
        ↔ Authorized input ctx source target
  evaluate_transition_guards_iff m = (
    Allowed-Authorized m,
    Authorized-Allowed input context.blocked_from_state ctx (prior_recorded m),
  )
