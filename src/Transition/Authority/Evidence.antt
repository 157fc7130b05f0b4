-- ===== src/Transition/Authority/Evidence.antt =====
-- `validateTransitionEvidence` against what the request carries.
use threadloop.Base.{
  none, some, Option-cases, true, false, ◌≡◌, inl, inr, arith, ◌==◌, string_eq, option_eq,
  map_option,
}
use text.Mathlib.TextEquality.{eq_iff}
use threadloop.Task.{TaskStatus, blocked, status_eq, status_iff}
use threadloop.Json.{Fields, get, as_object}
use threadloop.Transition.{
  PrePrReviewOutcome, PrePrReviewEvidence, ProofGuardContext, outcome_eq, outcome_iff,
}
use threadloop.Transition.Input.{
  read_pre_pr_review_evidence, validate_transition_evidence, validate_pre_pr_review,
  requires_pre_pr_review, is_pre_pr_review_transition, expected_outcome, has_required_text_fields,
  block_fields, recovery_fields,
}
use threadloop.Transition.Authority.{NoReview, Reviewed}

-- Nothing is read from a request that carries no review.
pub read-NoReview : (input : Fields) → NoReview input → read_pre_pr_review_evidence input ≡ none
unfolding read_pre_pr_review_evidence as_object
read-NoReview input h = rw h

module _ (source target : TaskStatus) (input : Fields) (ctx : ProofGuardContext) where
  abbrev Valid : Type 0
  Valid = (validate_transition_evidence source target input ctx).allowed ≡ true

  -- Off the three pre-PR review edges a valid request carries no review.
  pub Valid-NoReview : is_pre_pr_review_transition source target ≡ false → Valid → NoReview input
  unfolding validate_transition_evidence validate_pre_pr_review
  Valid-NoReview h v = elim (Option-cases (get "pre_pr_review" input)) [
    | inl e ↦ e
    | inr (p, e) ↦ absurd (ground arith)
  ]

  pub NoReview-Valid :
      NoReview input
      → requires_pre_pr_review source target ctx ≡ false
      → (target ≡ blocked → has_required_text_fields (get "block" input) block_fields ≡ true)
      → (source ≡ blocked → has_required_text_fields (get "recovery" input) recovery_fields ≡ true)
      → Valid
  unfolding validate_transition_evidence
  NoReview-Valid h r b s =
      ground (arith, read-NoReview input h, status_iff target blocked, status_iff source blocked)

module _ (source target : TaskStatus) (ctx : ProofGuardContext) (review : PrePrReviewEvidence) where
  -- What the checks of a review that was read establish.
  review_head :
      (validate_pre_pr_review source target review ctx).allowed ≡ true
      → (some review.head_sha == map_option (λ r. r.head_sha) ctx.repository) ≡ true
  unfolding validate_pre_pr_review
  review_head v = ground arith

  outcome_matches :
      {outcome : PrePrReviewOutcome}
      → expected_outcome source target ≡ some outcome
      → (validate_pre_pr_review source target review ctx).allowed ≡ true
      → review.outcome ≡ outcome
  unfolding validate_pre_pr_review
  outcome_matches {outcome} o v = ground (arith, outcome_iff review.outcome outcome)

module _ (source target : TaskStatus) (input : Fields) (ctx : ProofGuardContext) where
  checked_review :
      {review : PrePrReviewEvidence}
      → read_pre_pr_review_evidence input ≡ some review
      → Valid source target input ctx
      → (validate_pre_pr_review source target review ctx).allowed ≡ true
  unfolding validate_transition_evidence
  checked_review e v = ground arith

  -- Where an outcome is expected, the review that a valid request carries has it, at the live HEAD.
  pub Valid-Reviewed :
      {outcome : PrePrReviewOutcome} {review : PrePrReviewEvidence}
      → expected_outcome source target ≡ some outcome
      → read_pre_pr_review_evidence input ≡ some review
      → Valid source target input ctx
      → Reviewed input ctx outcome
  Valid-Reviewed {outcome} {review} o e v =
      let checked = checked_review e v in
      elim (Option-cases ctx.repository) [
        | inl none_there ↦ absurd (cc (review_head source target ctx review checked, none_there))
        | inr (repository, there) ↦ record {
          review = review;
          repository = repository;
          read = e;
          observed = there;
          same_head = ground (
            arith,
            review_head source target ctx review checked,
            there,
            eq_iff review.head_sha repository.head_sha,
          );
          same_outcome = outcome_matches source target ctx review o checked;
        }
      ]

  -- Where a review is required, a valid request carries it.
  pub Valid-required :
      requires_pre_pr_review source target ctx ≡ true
      → Valid source target input ctx
      → (review : PrePrReviewEvidence) × (read_pre_pr_review_evidence input ≡ some review)
  unfolding validate_transition_evidence
  Valid-required r v = elim (Option-cases (read_pre_pr_review_evidence input)) [
    | inl e ↦ absurd (ground arith)
    | inr found ↦ found
  ]

  -- Where none is required, it carries a valid one or none at all.
  pub Valid-optional :
      read_pre_pr_review_evidence input ≡ none → Valid source target input ctx → NoReview input
  unfolding validate_transition_evidence
  Valid-optional e v = elim (Option-cases (get "pre_pr_review" input)) [
    | inl absent ↦ absent
    | inr (p, there) ↦ absurd (ground arith)
  ]

  pub Reviewed-Valid :
      {outcome : PrePrReviewOutcome}
      → is_pre_pr_review_transition source target ≡ true
      → expected_outcome source target ≡ some outcome
      → (target ≡ blocked → has_required_text_fields (get "block" input) block_fields ≡ true)
      → (source ≡ blocked → has_required_text_fields (get "recovery" input) recovery_fields ≡ true)
      → Reviewed input ctx outcome
      → Valid source target input ctx
  unfolding validate_transition_evidence validate_pre_pr_review
  Reviewed-Valid {outcome} p o b s r = ground (
    arith,
    r.read,
    r.observed,
    r.same_head,
    r.same_outcome,
    status_iff target blocked,
    status_iff source blocked,
    eq_iff r.review.head_sha r.repository.head_sha,
    outcome_iff r.review.outcome outcome,
  )
