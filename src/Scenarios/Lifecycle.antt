-- ===== src/Scenarios/Lifecycle.antt =====
-- The lifecycle, its guards and its planner at concrete requests.
use threadloop.Base.{none, some, true, false, [], ◌∷◌, ◌≡◌, ◌↔◌, refl}
use threadloop.Task.{
  verifying, pre_pr_reviewing, reviewing, ready_for_human, completed, pre_pr, post_pr,
}
use threadloop.Json.{text, array, object, nil, Fields, end, field, get, as_object}
use threadloop.Lifecycle.{LifecycleTransitionContext, evaluate_lifecycle_transition}
use threadloop.Lifecycle.Graph.{CanMove, evaluate_lifecycle_transition_iff}
use threadloop.Proof.{ProofPlan, BoundProofPlan, ProofEvidence, ProofEvidenceStatus}
use threadloop.Review.{
  ReviewEvidence, ReviewEvidenceStatus, ReviewDecision, has_blocking_review, is_human_approval,
  has_current_human_approval,
}
use threadloop.Transition.{CiProofStatus, GuardRepository, ProofGuardContext}
use threadloop.Transition.Guards.{
  evaluate_transition_guards, get_transition_guard_requirement, evaluate_review_owned_guards,
  is_current_review, evaluate_current_review,
}
use threadloop.Transition.Input.{
  validate_transition_evidence, read_pre_pr_review_evidence, requires_pre_pr_review,
}
use threadloop.Transition.Authority.{Authorized}
use threadloop.Transition.Authority.Decision.{evaluate_transition_guards_iff}
use threadloop.Transition.Plan.{
  Candidate, PlanInput, plan_next_transition, review_target, evaluated, candidate,
}
use threadloop.Transition.Plan.Offer.{IsAccepted, plan_next_transition-IsAccepted}

abbrev before_pr : LifecycleTransitionContext
before_pr = record { blocked_from_state = none; phase = some pre_pr }

evaluate_lifecycle_transition_iff_example :
    ((evaluate_lifecycle_transition verifying reviewing before_pr).allowed ≡ true)
    ↔ CanMove before_pr verifying reviewing
evaluate_lifecycle_transition_iff_example =
    evaluate_lifecycle_transition_iff before_pr verifying reviewing

abbrev plan : BoundProofPlan
plan = record {
  plan = ProofPlan.legacy ("it works" ∷ []) [];
  json = "{}";
  sha256 = "p";
  baseline_branch = "topic";
  baseline_head_sha = "base";
  created_at = "t0";
}

abbrev head : GuardRepository
head = record {
  branch = some "topic";
  head_sha = "1111111111222222222233333333334444444444";
  clean = true;
  committed_implementation_from_basis = true;
  committed_repair_from_failure = false;
}

abbrev passed_evidence : ProofEvidence
passed_evidence = record {
  status = ProofEvidenceStatus.passed;
  gates = [];
  stale_receipt_ids = [];
  failed_receipt_ids = [];
  setup_failed_receipt_ids = [];
  corrupt_receipt_ids = [];
}

abbrev merged_review : ReviewEvidence
merged_review = record {
  status = ReviewEvidenceStatus.current;
  snapshot_id = some "snapshot_1";
  head_sha = some "1111111111222222222233333333334444444444";
  review_decision = some ReviewDecision.approved;
  blocking_findings = [];
  approvals =
      record {
        actor_id = "7";
        actor_login = some "reviewer";
        actor_type = "User";
        state = "APPROVED";
        commit_sha = "1111111111222222222233333333334444444444";
        submitted_at = none;
      }
      ∷ [];
  merged = true;
  merged_at = some "t9";
}

abbrev live : ProofGuardContext
live = record {
  bound_plan = some plan;
  plan = some plan;
  evidence = some passed_evidence;
  ci_evidence = some CiProofStatus.passed;
  review_evidence = some merged_review;
  phase = some post_pr;
  implementation_basis = none;
  repository = some head;
  attempts_used = some 0;
}

-- A clean review of the live HEAD.
abbrev clean_review : Fields
clean_review =
    field "pre_pr_review"
      (object (
        field "outcome" (text "clean") (
          field "head_sha" (text "1111111111222222222233333333334444444444") (
            field "evidence_ref" (text "review.md") (
              field "evidence_sha256"
                (text "1111111111222222222233333333334444444444555555555566666666667777")
                (field "findings" (array nil) end))))))
      end

evaluate_transition_guards_iff_example :
    ((evaluate_transition_guards pre_pr_reviewing reviewing clean_review none
        (record live { phase = some pre_pr })).allowed
      ≡ true)
    ↔ Authorized clean_review (record live { phase = some pre_pr }) pre_pr_reviewing reviewing
evaluate_transition_guards_iff_example =
    evaluate_transition_guards_iff before_pr clean_review (record live { phase = some pre_pr })
      (CanMove.clear_review (λ e. cc))

-- The pull request is approved and merged.
abbrev merged : PlanInput
merged = record {
  state = ready_for_human;
  state_version = 9;
  blocked_from_state = none;
  phase = some post_pr;
  proof = none;
  proof_guard_context = some live;
}

abbrev completion : Candidate
completion = record {
  from_state = ready_for_human;
  target_state = completed;
  expected_state_version = 9;
  executable = true;
}

completion_offered : (plan_next_transition merged).offered ≡ some completion
unfolding plan_next_transition review_target evaluated candidate evaluate_transition_guards
    get_transition_guard_requirement evaluate_review_owned_guards is_current_review
    evaluate_current_review has_blocking_review is_human_approval has_current_human_approval
    validate_transition_evidence read_pre_pr_review_evidence requires_pre_pr_review get as_object
completion_offered = refl

plan_next_transition-IsAccepted_example : IsAccepted merged live post_pr completion
plan_next_transition-IsAccepted_example =
    plan_next_transition-IsAccepted merged live post_pr refl refl refl completion completion_offered
      refl
