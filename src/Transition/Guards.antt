-- ===== src/Transition/Guards.antt =====
-- The guards of src/domain/session-transition.ts: `evaluateTransitionGuards` and its branches.
use threadloop.Base.{
  ℕ, Option, none, some, Bool, true, false, not, ◌&&◌, ◌||◌, if◌then◌else◌, ◌==◌, ltb, leb, is_some,
  map_option, or_else, string_eq, option_eq,
}
use threadloop.Task.{
  TaskStatus, queued, framed, proof_ready, implementing, verifying, pre_pr_reviewing, reviewing,
  repairing, ready_for_human, blocked, completed, pre_pr, post_pr, status_eq, phase_eq,
}
use threadloop.Json.{Fields}
use threadloop.Lifecycle.{repair_budget, is_forward_lifecycle_transition}
use threadloop.Proof.{ProofEvidenceStatus, BoundProofPlan, evidence_status_eq}
use threadloop.Review.{
  ReviewEvidence, ReviewEvidenceStatus, review_status_eq, is_truthy, has_blocking_review,
  has_current_human_approval,
}
use threadloop.Transition.{
  GuardCode, WorkCode, CiProofStatus, ci_status_eq, TransitionGuardDecision, allowed_guards, deny,
  TransitionGuardRequirement, none_required, proof_plan, proof, review, PrePrReviewOutcome,
  changes_required, clean, outcome_eq, GuardRepository, ProofGuardContext, evidence_status,
}
use threadloop.Transition.Input.{read_pre_pr_review_evidence, validate_transition_evidence}

-- `proof.attemptsUsed ?? REPAIR_BUDGET`
abbrev pub attempts : ProofGuardContext → ℕ
attempts ctx = or_else ctx.attempts_used repair_budget

-- The details by status when the review is not that of the live HEAD.
unfoldable pub deny_review_status : ReviewEvidenceStatus → TransitionGuardDecision
deny_review_status ReviewEvidenceStatus.policy_missing =
    deny GuardCode.review_proof_policy_required WorkCode.start_session_with_review_policy (some 42)
deny_review_status ReviewEvidenceStatus.missing =
    deny GuardCode.signed_review_proof_required WorkCode.import_signed_review_proof (some 42)
deny_review_status ReviewEvidenceStatus.stale =
    deny GuardCode.current_review_proof_required WorkCode.refresh_signed_review_proof (some 42)
deny_review_status ReviewEvidenceStatus.corrupt =
    deny GuardCode.uncorrupted_review_proof_required WorkCode.restore_signed_review_proof (some 42)
deny_review_status ReviewEvidenceStatus.current =
    deny GuardCode.current_review_proof_required WorkCode.refresh_signed_review_proof (some 42)

-- `review.status !== 'current' || !review.headSha || review.headSha !== proof.repository?.headSha`,
-- negated.
unfoldable pub is_current_review : ReviewEvidence → ProofGuardContext → Bool
is_current_review evidence ctx =
    evidence.status == ReviewEvidenceStatus.current
    && is_truthy evidence.head_sha
    && evidence.head_sha == map_option (λ r. r.head_sha) ctx.repository

unfoldable pub evaluate_current_review :
    TaskStatus → TaskStatus → ReviewEvidence → ProofGuardContext → TransitionGuardDecision
evaluate_current_review source target evidence ctx =
    if target == repairing
    then (if has_blocking_review evidence && ltb (attempts ctx) repair_budget
        then allowed_guards
        else if leb repair_budget (attempts ctx)
        then deny GuardCode.repair_budget_exhausted WorkCode.transition_to_blocked (some 42)
        else deny GuardCode.blocking_review_finding_required WorkCode.refresh_signed_review_proof
            (some 42))
    else if has_blocking_review evidence
    then deny GuardCode.blocking_review_findings WorkCode.enter_review_repair (some 42)
    else if not (evidence_status ctx == some ProofEvidenceStatus.passed)
        || not (ctx.ci_evidence == some CiProofStatus.passed)
    then deny GuardCode.current_review_proof_set_required WorkCode.refresh_review_proof_set
        (some 42)
    else if source == ready_for_human
        && target == completed
        && not (has_current_human_approval evidence)
    then deny GuardCode.current_human_approval_required WorkCode.obtain_current_human_approval
        (some 42)
    else if source == ready_for_human && target == completed && not evidence.merged
    then deny GuardCode.observed_merge_required WorkCode.merge_and_refresh_review_proof (some 42)
    else allowed_guards

unfoldable pub evaluate_review_owned_guards :
    TaskStatus → TaskStatus → ProofGuardContext → TransitionGuardDecision
evaluate_review_owned_guards source target ctx = elim ctx.review_evidence [
  | none ↦ deny_review_status ReviewEvidenceStatus.missing
  | some evidence ↦
      if not (is_current_review evidence ctx)
      then deny_review_status evidence.status
      else evaluate_current_review source target evidence ctx
]

unfoldable pub get_transition_guard_requirement :
    TaskStatus → TaskStatus → TransitionGuardRequirement
get_transition_guard_requirement source target =
    if target == blocked || source == blocked || source == queued && target == framed
    then none_required
    else if source == framed && target == proof_ready
    then proof_plan
    else if source == reviewing || source == ready_for_human || target == completed
    then review
    else proof

unfoldable pub requires_proof_guard_context : TaskStatus → TaskStatus → Bool
unfolding is_forward_lifecycle_transition get_transition_guard_requirement
requires_proof_guard_context source target =
    is_forward_lifecycle_transition source target
    && elim (get_transition_guard_requirement source target) [ proof ↦ true | _ ↦ false ]

unfoldable pub signed_ci_proof_guard : CiProofStatus → TransitionGuardDecision
signed_ci_proof_guard CiProofStatus.policy_missing =
    deny GuardCode.ci_proof_policy_required WorkCode.start_session_with_ci_policy (some 41)
signed_ci_proof_guard CiProofStatus.missing =
    deny GuardCode.signed_ci_proof_required WorkCode.import_signed_ci_proof (some 41)
signed_ci_proof_guard CiProofStatus.stale =
    deny GuardCode.current_signed_ci_proof_required WorkCode.rerun_and_import_ci_proof (some 41)
signed_ci_proof_guard CiProofStatus.corrupt =
    deny GuardCode.uncorrupted_signed_ci_proof_required WorkCode.restore_signed_ci_proof (some 41)
signed_ci_proof_guard CiProofStatus.passed =
    deny GuardCode.signed_ci_proof_required WorkCode.import_signed_ci_proof (some 41)

abbrev pub deferred_proof_guards : TransitionGuardDecision
deferred_proof_guards =
    deny GuardCode.proof_authority_deferred WorkCode.implement_issue_40 (some 40)

-- A clean checkout of the proof-plan branch.
abbrev pub is_clean_checkout : BoundProofPlan → GuardRepository → Bool
is_clean_checkout plan repository =
    repository.clean && repository.branch == some plan.baseline_branch

-- `readPrePrReviewEvidence(input)?.outcome`
abbrev pub review_outcome : Fields → Option PrePrReviewOutcome
review_outcome input = map_option (λ r. r.outcome) (read_pre_pr_review_evidence input)

module _ (input : Fields) (plan : BoundProofPlan) (repository : GuardRepository)
    (ctx : ProofGuardContext) where
  unfoldable pub guard_implementation_start : TransitionGuardDecision
  guard_implementation_start =
      if is_clean_checkout plan repository && repository.head_sha == plan.baseline_head_sha
      then allowed_guards
      else deny GuardCode.proof_baseline_mismatch WorkCode.restore_proof_baseline (some 40)

  unfoldable pub guard_implementation_done : TransitionGuardDecision
  guard_implementation_done = elim ctx.implementation_basis [
    | none ↦
        deny GuardCode.committed_implementation_required WorkCode.commit_implementation (some 69)
    | some basis ↦
        if is_clean_checkout plan repository
          && not (repository.head_sha == basis.head_sha)
          && repository.committed_implementation_from_basis
        then allowed_guards
        else deny GuardCode.implementation_basis_not_advanced WorkCode.commit_implementation
            (some 69)
  ]

  unfoldable pub guard_rework : TransitionGuardDecision
  guard_rework =
      if not (ctx.phase == some pre_pr)
      then deny GuardCode.post_pr_implementation_reentry_forbidden WorkCode.enter_review_repair
          (some 69)
      else if not (is_clean_checkout plan repository)
      then deny GuardCode.proof_checkout_mismatch WorkCode.restore_proof_checkout (some 69)
      else if evidence_status ctx == some ProofEvidenceStatus.failed
          || review_outcome input == some changes_required
      then allowed_guards
      else deny GuardCode.pre_pr_review_input_required WorkCode.record_pre_pr_review_outcome
          (some 69)

  -- `verifying` to `pre_pr_reviewing` or `reviewing`.
  unfoldable pub guard_review_entry : TaskStatus → TransitionGuardDecision
  unfolding signed_ci_proof_guard
  guard_review_entry target =
      if target == pre_pr_reviewing && not (ctx.phase == some pre_pr)
      then deny GuardCode.post_pr_implementation_reentry_forbidden WorkCode.refresh_review_proof_set
          (some 69)
      else if target == reviewing && not (ctx.phase == some post_pr)
      then deny GuardCode.pre_pr_review_input_required WorkCode.record_pre_pr_review_outcome
          (some 69)
      else if not (evidence_status ctx == some ProofEvidenceStatus.passed)
      then deny GuardCode.current_passing_proof_required WorkCode.complete_current_proof (some 40)
      else if not (is_clean_checkout plan repository)
      then deny GuardCode.proof_checkout_mismatch WorkCode.restore_proof_checkout (some 40)
      else if not (ctx.ci_evidence == some CiProofStatus.passed)
      then signed_ci_proof_guard (or_else ctx.ci_evidence CiProofStatus.missing)
      else allowed_guards

  unfoldable pub guard_remediation : TransitionGuardDecision
  guard_remediation =
      if ctx.phase == some pre_pr
        && is_clean_checkout plan repository
        && review_outcome input == some changes_required
      then allowed_guards
      else deny GuardCode.pre_pr_review_input_required WorkCode.record_pre_pr_review_outcome
          (some 69)

  unfoldable pub guard_clearance : TransitionGuardDecision
  guard_clearance =
      if not (ctx.phase == some pre_pr) || not (review_outcome input == some clean)
      then deny GuardCode.pre_pr_review_input_required WorkCode.record_pre_pr_review_outcome
          (some 69)
      else if not (evidence_status ctx == some ProofEvidenceStatus.passed)
          || not (ctx.ci_evidence == some CiProofStatus.passed)
          || not (is_clean_checkout plan repository)
      then deny GuardCode.current_review_proof_set_required WorkCode.refresh_review_proof_set
          (some 69)
      else allowed_guards

  unfoldable pub guard_proof_repair : TransitionGuardDecision
  guard_proof_repair =
      if not (ctx.phase == some post_pr)
      then deny GuardCode.current_failed_proof_required WorkCode.commit_implementation (some 69)
      else if evidence_status ctx == some ProofEvidenceStatus.failed
          && ltb (attempts ctx) repair_budget
      then allowed_guards
      else if leb repair_budget (attempts ctx)
      then deny GuardCode.repair_budget_exhausted WorkCode.transition_to_blocked (some 40)
      else deny GuardCode.current_failed_proof_required WorkCode.run_current_gates (some 40)

  unfoldable pub guard_repair_done : TransitionGuardDecision
  guard_repair_done =
      if is_clean_checkout plan repository && repository.committed_repair_from_failure
      then allowed_guards
      else deny GuardCode.committed_repair_required WorkCode.commit_repair (some 40)

  unfoldable pub guard_with_authority : TaskStatus → TaskStatus → TransitionGuardDecision
  guard_with_authority source target =
      if source == proof_ready && target == implementing
      then guard_implementation_start
      else if source == implementing && target == verifying
      then guard_implementation_done
      else if source == verifying && target == implementing
      then guard_rework
      else if source == verifying && (target == pre_pr_reviewing || target == reviewing)
      then guard_review_entry target
      else if source == pre_pr_reviewing && target == implementing
      then guard_remediation
      else if source == pre_pr_reviewing && target == reviewing
      then guard_clearance
      else if source == verifying && target == repairing
      then guard_proof_repair
      else if source == repairing && target == verifying
      then guard_repair_done
      else deferred_proof_guards

abbrev without_authority : TransitionGuardDecision
without_authority = deny GuardCode.proof_plan_required WorkCode.restore_proof_authority (some 40)

unfoldable pub evaluate_proof_owned_guards :
    TaskStatus → TaskStatus → Fields → ProofGuardContext → TransitionGuardDecision
evaluate_proof_owned_guards source target input ctx = elim ctx.plan [
  | none ↦ without_authority
  | some plan ↦ elim ctx.repository [
    | none ↦ without_authority
    | some repository ↦ guard_with_authority input plan repository ctx source target
  ]
]

unfoldable pub evaluate_transition_guards :
    TaskStatus
    → TaskStatus
    → Fields
    → Option TaskStatus
    → ProofGuardContext
    → TransitionGuardDecision
evaluate_transition_guards source target input blocked_from_state ctx =
    if source == blocked && not (is_some blocked_from_state)
    then deny GuardCode.blocked_prior_state_required WorkCode.restore_blocked_prior_state none
    else if not (validate_transition_evidence source target input ctx).allowed
    then validate_transition_evidence source target input ctx
    else elim (get_transition_guard_requirement source target) [
      | none_required ↦ allowed_guards
      | proof_plan ↦
          if is_some ctx.bound_plan
          then allowed_guards
          else evaluate_proof_owned_guards source target input ctx
      | proof ↦ evaluate_proof_owned_guards source target input ctx
      | review ↦ evaluate_review_owned_guards source target ctx
    ]
