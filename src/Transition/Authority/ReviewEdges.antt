-- ===== src/Transition/Authority/ReviewEdges.antt =====
-- What an allowed request proves on the edges that the signed review decides.
use threadloop.Base.{
  Option, some, Option-cases, true, false, ◌≡◌, ◌≢◌, ◌<◌, inl, inr, refl, ◌∙◌, ap, arith, ◌==◌,
  string_eq, option_eq,
}
use text.Mathlib.TextEquality.{eq_iff}
use threadloop.Task.{TaskStatus, reviewing, repairing, ready_for_human, completed, status_iff}
use threadloop.Json.{Fields}
use threadloop.Lifecycle.{repair_budget}
use threadloop.Proof.{ProofEvidenceStatus, evidence_status_eq}
use threadloop.Review.{
  ReviewEvidence, ReviewEvidenceStatus, review_status_iff, review_status_eq, has_blocking_review,
  has_current_human_approval,
}
use threadloop.Transition.{review, CiProofStatus, ci_status_eq, ProofGuardContext, evidence_status}
use threadloop.Transition.Input.{is_pre_pr_review_transition}
use threadloop.Transition.Guards.{
  attempts, is_current_review, evaluate_current_review, evaluate_review_owned_guards,
  deny_review_status, evaluate_transition_guards, get_transition_guard_requirement,
}
use threadloop.Transition.Authority.{CurrentReview, Authorized}
use threadloop.Transition.Authority.ProofEdges.{Allowed, carries-NoReview, proof_passed}

is_current-CurrentReview :
    (evidence : ReviewEvidence) (ctx : ProofGuardContext)
    → ctx.review_evidence ≡ some evidence
    → is_current_review evidence ctx ≡ true
    → (r : CurrentReview ctx) × (r.evidence ≡ evidence)
unfolding is_current_review
is_current-CurrentReview evidence ctx e c = elim (Option-cases ctx.repository) [
  | inl f ↦ absurd (ground arith)
  | inr (repository, f) ↦ elim (Option-cases evidence.head_sha) [
    | inl g ↦ absurd (ground arith)
    | inr (head, g) ↦ (
      record {
        evidence = evidence;
        repository = repository;
        imported = e;
        observed = f;
        is_current = ground (arith, review_status_iff evidence.status ReviewEvidenceStatus.current);
        same_head = g ∙ ap some (ground (arith, eq_iff head repository.head_sha));
        named = λ h. ground (arith, eq_iff head repository.head_sha, eq_iff head "");
      },
      refl,
    )
  ]
]

-- The current review under which the review-owned guards allowed an edge.
record Granted (source target : TaskStatus) (ctx : ProofGuardContext) : Type 0 where
  reviewed : CurrentReview ctx
  granted : (evaluate_current_review source target reviewed.evidence ctx).allowed ≡ true

review_owned-Granted :
    (source target : TaskStatus) (ctx : ProofGuardContext)
    → (evaluate_review_owned_guards source target ctx).allowed ≡ true
    → Granted source target ctx
unfolding evaluate_review_owned_guards deny_review_status
review_owned-Granted source target ctx a = elim (Option-cases ctx.review_evidence) [
  | inl e ↦ absurd (ground arith)
  | inr (evidence, e) ↦
      let (r, same) = is_current-CurrentReview evidence ctx e (ground arith) in
      record { reviewed = r; granted = rw same (ground arith) }
]

-- What a review-owned branch tested when it allowed.
module _ (source : TaskStatus) (evidence : ReviewEvidence) (ctx : ProofGuardContext) where
  repair_granted :
      (evaluate_current_review source repairing evidence ctx).allowed ≡ true
      → (has_blocking_review evidence ≡ true) × (attempts ctx < repair_budget)
  unfolding evaluate_current_review
  repair_granted a = ground arith

  progress_granted :
      (target : TaskStatus)
      → target ≢ repairing
      → (evaluate_current_review source target evidence ctx).allowed ≡ true
      → (has_blocking_review evidence ≡ false)
        × ((evidence_status ctx == some ProofEvidenceStatus.passed) ≡ true)
        × ((ctx.ci_evidence == some CiProofStatus.passed) ≡ true)
  unfolding evaluate_current_review
  progress_granted target h a = ground (arith, status_iff target repairing)

completion_granted :
    (evidence : ReviewEvidence) (ctx : ProofGuardContext)
    → (evaluate_current_review ready_for_human completed evidence ctx).allowed ≡ true
    → (has_current_human_approval evidence ≡ true) × (evidence.merged ≡ true)
unfolding evaluate_current_review
completion_granted evidence ctx a = ground arith

module _ (input : Fields) (prior : Option TaskStatus) (ctx : ProofGuardContext) where
  Allowed-Granted :
      (source target : TaskStatus)
      → get_transition_guard_requirement source target ≡ review
      → Allowed source target input prior ctx
      → Granted source target ctx
  unfolding evaluate_transition_guards
  Allowed-Granted source target e a = review_owned-Granted source target ctx (ground arith)

  pub repair_review_authorized :
      Allowed reviewing repairing input prior ctx → Authorized input ctx reviewing repairing
  unfolding get_transition_guard_requirement is_pre_pr_review_transition
  repair_review_authorized a =
      let g = Allowed-Granted reviewing repairing refl a in
      let t = repair_granted reviewing g.reviewed.evidence ctx g.granted in
      Authorized.repair_review (inl refl)
        (carries-NoReview input prior ctx reviewing repairing refl a) g.reviewed t.0 t.1

  pub repair_handed_over_authorized :
      Allowed ready_for_human repairing input prior ctx
      → Authorized input ctx ready_for_human repairing
  unfolding get_transition_guard_requirement is_pre_pr_review_transition
  repair_handed_over_authorized a =
      let g = Allowed-Granted ready_for_human repairing refl a in
      let t = repair_granted ready_for_human g.reviewed.evidence ctx g.granted in
      Authorized.repair_review (inr refl)
        (carries-NoReview input prior ctx ready_for_human repairing refl a) g.reviewed t.0 t.1

  pub hand_over_authorized :
      Allowed reviewing ready_for_human input prior ctx
      → Authorized input ctx reviewing ready_for_human
  unfolding get_transition_guard_requirement is_pre_pr_review_transition
  hand_over_authorized a =
      let g = Allowed-Granted reviewing ready_for_human refl a in
      let t =
        progress_granted reviewing g.reviewed.evidence ctx ready_for_human (λ e. cc) g.granted in
      Authorized.hand_over (carries-NoReview input prior ctx reviewing ready_for_human refl a)
        g.reviewed t.0 (proof_passed ctx t.1 t.2)

  pub complete_authorized :
      Allowed ready_for_human completed input prior ctx
      → Authorized input ctx ready_for_human completed
  unfolding get_transition_guard_requirement is_pre_pr_review_transition
  complete_authorized a =
      let g = Allowed-Granted ready_for_human completed refl a in
      let t =
        progress_granted ready_for_human g.reviewed.evidence ctx completed (λ e. cc) g.granted in
      let c = completion_granted g.reviewed.evidence ctx g.granted in
      Authorized.complete (carries-NoReview input prior ctx ready_for_human completed refl a)
        g.reviewed t.0 (proof_passed ctx t.1 t.2) c.0 c.1
