-- ===== src/Transition.antt =====
-- The types of src/domain/session-transition.ts. Messages and descriptions are prose for the
-- operator and are left out; the codes of a failure and of its work, and the owner, are kept.
pub mod Input
pub mod Guards
pub mod Authority
pub mod Plan
pub mod Request
use threadloop.Base.{
  ℕ, String, Option, none, some, Bool, true, false, List, [], ◌∷◌, map_option, StrictEquality, eqb,
  ◌≡◌, ◌↔◌, arith,
}
use threadloop.Task.{LifecyclePhase}
use threadloop.Proof.{BoundProofPlan, ProofEvidence, ProofEvidenceStatus}
use threadloop.Review.{ReviewEvidence}

-- `CiProofEvidence['status']` of src/domain/attestation.ts.
pub data CiProofStatus : Type 0 where
  policy_missing missing passed stale corrupt : CiProofStatus

abbrev ci_rank : CiProofStatus → ℕ
ci_rank policy_missing = 0
ci_rank missing = 1
ci_rank passed = 2
ci_rank stale = 3
ci_rank corrupt = 4

pub ci_status_iff : (a b : CiProofStatus) → (eqb (ci_rank a) (ci_rank b) ≡ true) ↔ (a ≡ b)
ci_status_iff a b = (λ h. ground arith, λ h. ground arith)

instance abbrev pub ci_status_eq : StrictEquality CiProofStatus
ci_status_eq = record { strict = λ a b. eqb (ci_rank a) (ci_rank b); strict_iff = ci_status_iff }

pub data GuardCode : Type 0 where
  blocked_prior_state_required block_evidence_required recovery_evidence_required : GuardCode
  pre_pr_review_findings_invalid pre_pr_review_input_required : GuardCode
  pre_pr_review_head_mismatch pre_pr_review_outcome_required : GuardCode
  proof_plan_required proof_baseline_mismatch implementation_basis_not_advanced : GuardCode
  committed_implementation_required post_pr_implementation_reentry_forbidden : GuardCode
  proof_checkout_mismatch current_passing_proof_required : GuardCode
  current_review_proof_set_required current_failed_proof_required : GuardCode
  repair_budget_exhausted committed_repair_required proof_authority_deferred : GuardCode
  ci_proof_policy_required signed_ci_proof_required current_signed_ci_proof_required : GuardCode
  uncorrupted_signed_ci_proof_required review_proof_policy_required : GuardCode
  signed_review_proof_required current_review_proof_required : GuardCode
  uncorrupted_review_proof_required blocking_review_finding_required : GuardCode
  blocking_review_findings current_human_approval_required observed_merge_required : GuardCode
  proof_gates_missing proof_receipts_stale proof_receipts_corrupt proof_gate_setup_failed :
      GuardCode
  proof_baseline_dirty proof_baseline_branch_required : GuardCode

pub data WorkCode : Type 0 where
  restore_blocked_prior_state provide_block_evidence provide_recovery_evidence : WorkCode
  record_pre_pr_review_outcome restore_proof_authority restore_proof_baseline : WorkCode
  commit_implementation enter_review_repair restore_proof_checkout : WorkCode
  refresh_review_proof_set complete_current_proof transition_to_blocked : WorkCode
  run_current_gates commit_repair implement_issue_40 start_session_with_ci_policy : WorkCode
  import_signed_ci_proof rerun_and_import_ci_proof restore_signed_ci_proof : WorkCode
  start_session_with_review_policy import_signed_review_proof : WorkCode
  refresh_signed_review_proof restore_signed_review_proof : WorkCode
  obtain_current_human_approval merge_and_refresh_review_proof : WorkCode
  run_missing_gates rerun_stale_gates rerun_corrupt_gates correct_gate_setup : WorkCode
  prepare_clean_proof_baseline : WorkCode

pub record TransitionGuardFailure : Type 0 where
  pub code : GuardCode
  pub owner_issue : Option ℕ

pub record TransitionRequiredWork : Type 0 where
  pub code : WorkCode
  pub owner_issue : Option ℕ

pub record TransitionGuardDecision : Type 0 where
  pub allowed : Bool
  pub guard_failures : List TransitionGuardFailure
  pub required_work : List TransitionRequiredWork

abbrev pub allowed_guards : TransitionGuardDecision
allowed_guards = record { allowed = true; guard_failures = []; required_work = [] }

abbrev pub deny : GuardCode → WorkCode → Option ℕ → TransitionGuardDecision
deny failure work owner = record {
  allowed = false;
  guard_failures = record { code = failure; owner_issue = owner } ∷ [];
  required_work = record { code = work; owner_issue = owner } ∷ [];
}

pub data TransitionGuardRequirement : Type 0 where
  none_required proof_plan proof review : TransitionGuardRequirement

pub data PrePrReviewOutcome : Type 0 where
  changes_required clean : PrePrReviewOutcome

abbrev outcome_rank : PrePrReviewOutcome → ℕ
outcome_rank changes_required = 0
outcome_rank clean = 1

pub outcome_iff :
    (a b : PrePrReviewOutcome) → (eqb (outcome_rank a) (outcome_rank b) ≡ true) ↔ (a ≡ b)
outcome_iff a b = (λ h. ground arith, λ h. ground arith)

instance abbrev pub outcome_eq : StrictEquality PrePrReviewOutcome
outcome_eq = record {
  strict = λ a b. eqb (outcome_rank a) (outcome_rank b);
  strict_iff = outcome_iff;
}

pub record PrePrReviewFinding : Type 0 where
  pub id : String
  pub summary : String
  pub path : String

pub record PrePrReviewEvidence : Type 0 where
  pub outcome : PrePrReviewOutcome
  pub head_sha : String
  pub evidence_ref : String
  pub evidence_sha256 : String
  pub findings : List PrePrReviewFinding

pub data BasisSource : Type 0 where
  proof_plan_baseline failed_local_proof pre_pr_review : BasisSource

pub record ImplementationBasis : Type 0 where
  pub head_sha : String
  pub source : BasisSource

pub record GuardRepository : Type 0 where
  pub branch : Option String
  pub head_sha : String
  pub clean : Bool
  pub committed_implementation_from_basis : Bool
  pub committed_repair_from_failure : Bool

-- Each field is `none` where the source leaves it undefined or null.
pub record ProofGuardContext : Type 0 where
  pub bound_plan : Option BoundProofPlan
  pub plan : Option BoundProofPlan
  pub evidence : Option ProofEvidence
  pub ci_evidence : Option CiProofStatus
  pub review_evidence : Option ReviewEvidence
  pub phase : Option LifecyclePhase
  pub implementation_basis : Option ImplementationBasis
  pub repository : Option GuardRepository
  pub attempts_used : Option ℕ

-- `proof.evidence?.status`
abbrev pub evidence_status : ProofGuardContext → Option ProofEvidenceStatus
evidence_status ctx = map_option (λ evidence. evidence.status) ctx.evidence
