-- ===== src/Transition/Authority/Sufficient.antt =====
-- From the authority of an edge to an allowed request.
use threadloop.Base.{Option, some, true, false, ◌≡◌, ◌≢◌, ◌⊎◌, refl, arith, ◌==◌, is_some}
use text.Mathlib.TextEquality.{eq_iff}
use threadloop.Task.{
  TaskStatus, queued, framed, proof_ready, implementing, verifying, pre_pr_reviewing, reviewing,
  repairing, ready_for_human, blocked, completed, status_iff, status_eq,
}
use threadloop.Json.{Fields}
use threadloop.Transition.{TransitionGuardRequirement, PrePrReviewOutcome, ProofGuardContext}
use threadloop.Transition.Input.{
  requires_pre_pr_review, is_pre_pr_review_transition, expected_outcome,
  validate_transition_evidence,
}
use threadloop.Transition.Guards.{
  is_clean_checkout, is_current_review, evaluate_current_review, evaluate_review_owned_guards,
  evaluate_proof_owned_guards, evaluate_transition_guards, guard_with_authority,
  guard_implementation_start, guard_implementation_done, guard_rework, guard_review_entry,
  guard_remediation, guard_clearance, guard_proof_repair, guard_repair_done,
  get_transition_guard_requirement,
}
use threadloop.Transition.Authority.{NoReview, Reviewed, CleanCheckout, CurrentReview, Authorized}
use threadloop.Transition.Authority.Evidence.{NoReview-Valid, Reviewed-Valid}
use threadloop.Transition.Authority.ProofEdges.{Allowed}

CleanCheckout-is_clean_checkout :
    {ctx : ProofGuardContext} (c : CleanCheckout ctx) → is_clean_checkout c.plan c.repository ≡ true
CleanCheckout-is_clean_checkout c =
    rw (c.is_clean, c.on_branch) ((eq_iff c.plan.baseline_branch c.plan.baseline_branch).1 refl)

CurrentReview-is_current :
    {ctx : ProofGuardContext} (r : CurrentReview ctx) → is_current_review r.evidence ctx ≡ true
unfolding is_current_review
CurrentReview-is_current r = ground (
  arith,
  r.observed,
  r.is_current,
  r.same_head,
  r.named,
  eq_iff r.repository.head_sha r.repository.head_sha,
  eq_iff r.repository.head_sha "",
)

module _ (input : Fields) (prior : Option TaskStatus) (ctx : ProofGuardContext) where
  -- A valid request on an edge that the proof decides.
  proof_sufficient :
      (source target : TaskStatus)
      → (source == blocked) ≡ false
      → get_transition_guard_requirement source target ≡ TransitionGuardRequirement.proof
      → (validate_transition_evidence source target input ctx).allowed ≡ true
      → (evaluate_proof_owned_guards source target input ctx).allowed ≡ true
      → Allowed source target input prior ctx
  unfolding evaluate_transition_guards
  proof_sufficient source target o e v p = ground arith

  -- A request without a review is valid on an edge that needs none.
  NoReview-valid :
      (source target : TaskStatus)
      → source ≢ blocked
      → target ≢ blocked
      → requires_pre_pr_review source target ctx ≡ false
      → NoReview input
      → (validate_transition_evidence source target input ctx).allowed ≡ true
  NoReview-valid source target s t r n =
      NoReview-Valid source target input ctx n r (λ e. absurd (t e)) (λ e. absurd (s e))

  review_sufficient :
      (source target : TaskStatus)
      → (source == blocked) ≡ false
      → get_transition_guard_requirement source target ≡ TransitionGuardRequirement.review
      → (validate_transition_evidence source target input ctx).allowed ≡ true
      → (evaluate_review_owned_guards source target ctx).allowed ≡ true
      → Allowed source target input prior ctx
  unfolding evaluate_transition_guards
  review_sufficient source target o e v p = ground arith

  -- The review-owned guards allow what the current review supports.
  reviewed_sufficient :
      (source target : TaskStatus) (r : CurrentReview ctx)
      → (evaluate_current_review source target r.evidence ctx).allowed ≡ true
      → (evaluate_review_owned_guards source target ctx).allowed ≡ true
  unfolding evaluate_review_owned_guards
  reviewed_sufficient source target r a = ground (arith, r.imported, CurrentReview-is_current r)

  -- The proof-owned guards allow what the plan and the repository support.
  planned_sufficient :
      (source target : TaskStatus) (c : CleanCheckout ctx)
      → (guard_with_authority input c.plan c.repository ctx source target).allowed ≡ true
      → (evaluate_proof_owned_guards source target input ctx).allowed ≡ true
  unfolding evaluate_proof_owned_guards
  planned_sufficient source target c a = ground (arith, c.planned, c.observed)

  -- The two shapes of a proof-owned edge: without and with a pre-PR review.
  plain_edge :
      (source target : TaskStatus)
      → (source == blocked) ≡ false
      → (target == blocked) ≡ false
      → get_transition_guard_requirement source target ≡ TransitionGuardRequirement.proof
      → requires_pre_pr_review source target ctx ≡ false
      → NoReview input
      → (c : CleanCheckout ctx)
      → (guard_with_authority input c.plan c.repository ctx source target).allowed ≡ true
      → Allowed source target input prior ctx
  plain_edge source target s t e r n c a =
      proof_sufficient source target s e
        (NoReview-valid source target (λ x. ground (arith, status_iff source blocked))
          (λ x. ground (arith, status_iff target blocked)) r n)
        (planned_sufficient source target c a)

  reviewed_edge :
      (source target : TaskStatus) {outcome : PrePrReviewOutcome}
      → (source == blocked) ≡ false
      → (target == blocked) ≡ false
      → get_transition_guard_requirement source target ≡ TransitionGuardRequirement.proof
      → is_pre_pr_review_transition source target ≡ true
      → expected_outcome source target ≡ some outcome
      → Reviewed input ctx outcome
      → (c : CleanCheckout ctx)
      → (guard_with_authority input c.plan c.repository ctx source target).allowed ≡ true
      → Allowed source target input prior ctx
  reviewed_edge source target s t e i o r c a =
      proof_sufficient source target s e
        (Reviewed-Valid source target input ctx i o (λ x. ground (arith, status_iff target blocked))
          (λ x. ground (arith, status_iff source blocked)) r)
        (planned_sufficient source target c a)

  -- An edge that the current review decides.
  review_edge :
      (source target : TaskStatus)
      → (source == blocked) ≡ false
      → (target == blocked) ≡ false
      → get_transition_guard_requirement source target ≡ TransitionGuardRequirement.review
      → requires_pre_pr_review source target ctx ≡ false
      → NoReview input
      → (r : CurrentReview ctx)
      → (evaluate_current_review source target r.evidence ctx).allowed ≡ true
      → Allowed source target input prior ctx
  review_edge source target s t e q n r a =
      review_sufficient source target s e
        (NoReview-valid source target (λ x. ground (arith, status_iff source blocked))
          (λ x. ground (arith, status_iff target blocked)) q n)
        (reviewed_sufficient source target r a)

  repair_edge :
      (source : TaskStatus)
      → (source ≡ reviewing) ⊎ (source ≡ ready_for_human)
      → NoReview input
      → (r : CurrentReview ctx)
      → (evaluate_current_review source repairing r.evidence ctx).allowed ≡ true
      → Allowed source repairing input prior ctx
  unfolding get_transition_guard_requirement requires_pre_pr_review
  repair_edge reviewing s n r a = review_edge reviewing repairing refl refl refl refl n r a
  repair_edge ready_for_human s n r a =
      review_edge ready_for_human repairing refl refl refl refl n r a
  repair_edge _ s n r a = absurd (ground arith)

  needs_none : (source : TaskStatus) → requires_pre_pr_review source blocked ctx ≡ false
  unfolding requires_pre_pr_review
  needs_none source = ground arith

  pub Authorized-Allowed :
      {source target : TaskStatus}
      → (source ≡ blocked → is_some prior ≡ true)
      → Authorized input ctx source target
      → Allowed source target input prior ctx
  unfolding get_transition_guard_requirement requires_pre_pr_review is_pre_pr_review_transition
      expected_outcome guard_with_authority
  Authorized-Allowed p (Authorized.frame n) =
      unfold evaluate_transition_guards in
      ground (arith, NoReview-valid queued framed (λ e. cc) (λ e. cc) refl n)
  Authorized-Allowed p (Authorized.plan_proof n b) =
      unfold evaluate_transition_guards in
      ground (arith, NoReview-valid framed proof_ready (λ e. cc) (λ e. cc) refl n)
  Authorized-Allowed p (Authorized.implement n c h) =
      plain_edge proof_ready implementing refl refl refl refl n c (
        unfold guard_implementation_start in
        ground (
          arith,
          CleanCheckout-is_clean_checkout c,
          eq_iff c.repository.head_sha c.plan.baseline_head_sha,
        ))
  Authorized-Allowed p (Authorized.verify {basis} n c b h k) =
      plain_edge implementing verifying refl refl refl refl n c (
        unfold guard_implementation_done in
        ground
          (arith, CleanCheckout-is_clean_checkout c, eq_iff c.repository.head_sha basis.head_sha))
  Authorized-Allowed p (Authorized.rework_failure n c h f) =
      plain_edge verifying implementing refl refl refl (rw f) n c
        (unfold guard_rework in ground (arith, CleanCheckout-is_clean_checkout c))
  Authorized-Allowed p (Authorized.rework_review r c h) =
      reviewed_edge verifying implementing refl refl refl refl refl r c (
        unfold guard_rework in
        ground (arith, CleanCheckout-is_clean_checkout c, r.read, r.same_outcome))
  Authorized-Allowed p (Authorized.enter_pre_pr_review n c h q) =
      plain_edge verifying pre_pr_reviewing refl refl refl refl n c (
        unfold guard_review_entry in
        ground (arith, CleanCheckout-is_clean_checkout c, q.local, q.signed))
  Authorized-Allowed p (Authorized.return_to_review n c h q) =
      plain_edge verifying reviewing refl refl refl refl n c (
        unfold guard_review_entry in
        ground (arith, CleanCheckout-is_clean_checkout c, q.local, q.signed))
  Authorized-Allowed p (Authorized.repair_proof {plan} {repository} n c r h f b) =
      proof_sufficient verifying repairing refl refl
        (NoReview-valid verifying repairing (λ e. cc) (λ e. cc) refl n)
        (unfold evaluate_proof_owned_guards guard_proof_repair in ground arith)
  Authorized-Allowed p (Authorized.remediate r c h) =
      reviewed_edge pre_pr_reviewing implementing refl refl refl refl refl r c (
        unfold guard_remediation in
        ground (arith, CleanCheckout-is_clean_checkout c, r.read, r.same_outcome))
  Authorized-Allowed p (Authorized.clear_review r c h q) =
      reviewed_edge pre_pr_reviewing reviewing refl refl refl refl refl r c (
        unfold guard_clearance in
        ground
          (arith, CleanCheckout-is_clean_checkout c, r.read, r.same_outcome, q.local, q.signed))
  Authorized-Allowed p (Authorized.repair_review {source} s n r b k) =
      repair_edge source s n r (unfold evaluate_current_review in ground arith)
  Authorized-Allowed p (Authorized.hand_over n r b q) =
      review_edge reviewing ready_for_human refl refl refl refl n r
        (unfold evaluate_current_review in ground (arith, q.local, q.signed))
  Authorized-Allowed p (Authorized.verify_repair n c h) =
      plain_edge repairing verifying refl refl refl refl n c
        (unfold guard_repair_done in ground (arith, CleanCheckout-is_clean_checkout c))
  Authorized-Allowed p (Authorized.complete n r b q a m) =
      review_edge ready_for_human completed refl refl refl refl n r
        (unfold evaluate_current_review in ground (arith, q.local, q.signed))
  Authorized-Allowed p (Authorized.block {source} n s f) =
      unfold evaluate_transition_guards in
      ground (
        arith,
        NoReview-Valid source blocked input ctx n (needs_none source) (λ _. f) (λ e. absurd (s e)),
        status_iff source blocked,
      )
  Authorized-Allowed p (Authorized.resume {target} n t f) =
      unfold evaluate_transition_guards in
      ground (
        arith,
        NoReview-Valid blocked target input ctx n refl (λ e. absurd (t e)) (λ _. f),
        p refl,
        status_iff target blocked,
      )
