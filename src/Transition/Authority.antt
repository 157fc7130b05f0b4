-- ===== src/Transition/Authority.antt =====
-- What each edge of the lifecycle needs as evidence, as a relation beside the guard code.
pub mod Evidence
pub mod Branches
pub mod ProofEdges
pub mod ReviewEdges
pub mod Sufficient
pub mod Decision
use threadloop.Base.{
  ℕ, String, Option, none, some, Bool, true, false, List, ◌≡◌, ◌≢◌, ◌⊎◌, ◌<◌, ◌||◌,
}
use threadloop.Task.{
  TaskStatus, queued, framed, proof_ready, implementing, verifying, pre_pr_reviewing, reviewing,
  repairing, ready_for_human, blocked, completed, pre_pr, post_pr,
}
use threadloop.Json.{Fields, get}
use threadloop.Lifecycle.{repair_budget}
use threadloop.Proof.{ProofEvidenceStatus, BoundProofPlan}
use threadloop.Review.{
  ReviewEvidence, ReviewEvidenceStatus, has_blocking_review, has_current_human_approval,
}
use threadloop.Transition.{
  CiProofStatus, PrePrReviewOutcome, changes_required, clean, PrePrReviewEvidence,
  ImplementationBasis, GuardRepository, ProofGuardContext, evidence_status,
}
use threadloop.Transition.Input.{
  read_pre_pr_review_evidence, has_required_text_fields, block_fields, recovery_fields,
}
use threadloop.Transition.Guards.{attempts}

-- The request carries no pre-PR review.
abbrev pub NoReview : Fields → Type 0
NoReview input = get "pre_pr_review" input ≡ none

-- The request carries a valid pre-PR review of the live HEAD, with this outcome.
pub record Reviewed (input : Fields) (ctx : ProofGuardContext) (outcome : PrePrReviewOutcome)
    : Type 0 where
  pub review : PrePrReviewEvidence
  pub repository : GuardRepository
  pub read : read_pre_pr_review_evidence input ≡ some review
  pub observed : ctx.repository ≡ some repository
  pub same_head : review.head_sha ≡ repository.head_sha
  pub same_outcome : review.outcome ≡ outcome

-- A proof plan, and a live checkout of its branch with nothing uncommitted.
pub record CleanCheckout (ctx : ProofGuardContext) : Type 0 where
  pub plan : BoundProofPlan
  pub repository : GuardRepository
  pub planned : ctx.plan ≡ some plan
  pub observed : ctx.repository ≡ some repository
  pub is_clean : repository.clean ≡ true
  pub on_branch : repository.branch ≡ some plan.baseline_branch

-- Every gate passed locally, and by signed receipts of the CI.
pub record ProofPassed (ctx : ProofGuardContext) : Type 0 where
  pub local : evidence_status ctx ≡ some ProofEvidenceStatus.passed
  pub signed : ctx.ci_evidence ≡ some CiProofStatus.passed

-- The signed review snapshot of the live HEAD.
pub record CurrentReview (ctx : ProofGuardContext) : Type 0 where
  pub evidence : ReviewEvidence
  pub repository : GuardRepository
  pub imported : ctx.review_evidence ≡ some evidence
  pub observed : ctx.repository ≡ some repository
  pub is_current : evidence.status ≡ ReviewEvidenceStatus.current
  pub same_head : evidence.head_sha ≡ some repository.head_sha
  pub named : repository.head_sha ≢ ""

pub data Authorized (input : Fields) (ctx : ProofGuardContext)
    : TaskStatus → TaskStatus → Type 0 where
  frame : NoReview input → Authorized input ctx queued framed
  plan_proof :
      {plan : BoundProofPlan}
      → NoReview input
      → ctx.bound_plan ≡ some plan
      → Authorized input ctx framed proof_ready
  implement :
      NoReview input
      → (at_plan : CleanCheckout ctx) → at_plan.repository.head_sha ≡ at_plan.plan.baseline_head_sha
      → Authorized input ctx proof_ready implementing
  verify :
      {basis : ImplementationBasis}
      → NoReview input
      → (at_plan : CleanCheckout ctx) → ctx.implementation_basis ≡ some basis
      → at_plan.repository.head_sha ≢ basis.head_sha
      → at_plan.repository.committed_implementation_from_basis ≡ true
      → Authorized input ctx implementing verifying
  rework_failure :
      NoReview input
      → CleanCheckout ctx
      → ctx.phase ≡ some pre_pr
      → evidence_status ctx ≡ some ProofEvidenceStatus.failed
      → Authorized input ctx verifying implementing
  rework_review :
      Reviewed input ctx changes_required
      → CleanCheckout ctx
      → ctx.phase ≡ some pre_pr
      → Authorized input ctx verifying implementing
  enter_pre_pr_review :
      NoReview input
      → CleanCheckout ctx
      → ctx.phase ≡ some pre_pr
      → ProofPassed ctx
      → Authorized input ctx verifying pre_pr_reviewing
  return_to_review :
      NoReview input
      → CleanCheckout ctx
      → ctx.phase ≡ some post_pr
      → ProofPassed ctx
      → Authorized input ctx verifying reviewing
  repair_proof :
      {plan : BoundProofPlan} {repository : GuardRepository}
      → NoReview input
      → ctx.plan ≡ some plan
      → ctx.repository ≡ some repository
      → ctx.phase ≡ some post_pr
      → evidence_status ctx ≡ some ProofEvidenceStatus.failed
      → attempts ctx < repair_budget
      → Authorized input ctx verifying repairing
  remediate :
      Reviewed input ctx changes_required
      → CleanCheckout ctx
      → ctx.phase ≡ some pre_pr
      → Authorized input ctx pre_pr_reviewing implementing
  clear_review :
      Reviewed input ctx clean
      → CleanCheckout ctx
      → ctx.phase ≡ some pre_pr
      → ProofPassed ctx
      → Authorized input ctx pre_pr_reviewing reviewing
  repair_review :
      {source : TaskStatus}
      → (source ≡ reviewing) ⊎ (source ≡ ready_for_human)
      → NoReview input
      → (reviewed : CurrentReview ctx) → has_blocking_review reviewed.evidence ≡ true
      → attempts ctx < repair_budget
      → Authorized input ctx source repairing
  hand_over :
      NoReview input
      → (reviewed : CurrentReview ctx) → has_blocking_review reviewed.evidence ≡ false
      → ProofPassed ctx
      → Authorized input ctx reviewing ready_for_human
  verify_repair :
      NoReview input
      → (at_plan : CleanCheckout ctx) → at_plan.repository.committed_repair_from_failure ≡ true
      → Authorized input ctx repairing verifying
  complete :
      NoReview input
      → (reviewed : CurrentReview ctx) → has_blocking_review reviewed.evidence ≡ false
      → ProofPassed ctx
      → has_current_human_approval reviewed.evidence ≡ true
      → reviewed.evidence.merged ≡ true
      → Authorized input ctx ready_for_human completed
  block :
      {source : TaskStatus}
      → NoReview input
      → source ≢ blocked
      → has_required_text_fields (get "block" input) block_fields ≡ true
      → Authorized input ctx source blocked
  resume :
      {target : TaskStatus}
      → NoReview input
      → target ≢ blocked
      → has_required_text_fields (get "recovery" input) recovery_fields ≡ true
      → Authorized input ctx blocked target
