-- ===== src/Transition/Authority/Branches.antt =====
-- What each branch of the proof-owned guards tested when it allowed.
use threadloop.Base.{
  some, Option-cases, true, false, ◌||◌, ◌≡◌, ◌<◌, inl, inr, arith, ◌==◌, string_eq, option_eq,
}
use threadloop.Task.{TaskStatus, pre_pr_reviewing, reviewing, pre_pr, post_pr, phase_eq}
use threadloop.Json.{Fields}
use threadloop.Lifecycle.{repair_budget}
use threadloop.Proof.{ProofEvidenceStatus, BoundProofPlan, evidence_status_eq}
use threadloop.Transition.{
  outcome_eq, CiProofStatus, ci_status_eq, changes_required, ImplementationBasis, GuardRepository,
  ProofGuardContext, evidence_status,
}
use threadloop.Transition.Guards.{
  attempts, is_clean_checkout, review_outcome, guard_implementation_start,
  guard_implementation_done, guard_rework, guard_review_entry, guard_remediation, guard_clearance,
  guard_proof_repair, guard_repair_done,
}

-- The Boolean tests of each branch that allows.
module _ (input : Fields) (plan : BoundProofPlan) (repository : GuardRepository)
    (ctx : ProofGuardContext) where
  pub start_granted :
      (guard_implementation_start input plan repository ctx).allowed ≡ true
      → (is_clean_checkout plan repository ≡ true)
        × ((repository.head_sha == plan.baseline_head_sha) ≡ true)
  unfolding guard_implementation_start
  start_granted a = ground arith

  pub done_granted :
      {basis : ImplementationBasis}
      → ctx.implementation_basis ≡ some basis
      → (guard_implementation_done input plan repository ctx).allowed ≡ true
      → (is_clean_checkout plan repository ≡ true)
        × ((repository.head_sha == basis.head_sha) ≡ false)
        × (repository.committed_implementation_from_basis ≡ true)
  unfolding guard_implementation_done
  done_granted e a = ground arith

  pub done_basis :
      (guard_implementation_done input plan repository ctx).allowed ≡ true
      → (basis : ImplementationBasis) × (ctx.implementation_basis ≡ some basis)
  unfolding guard_implementation_done
  done_basis a = elim (Option-cases ctx.implementation_basis) [
    | inl e ↦ absurd (ground arith)
    | inr found ↦ found
  ]

  pub rework_granted :
      (guard_rework input plan repository ctx).allowed ≡ true
      → ((ctx.phase == some pre_pr) ≡ true)
        × (is_clean_checkout plan repository ≡ true)
        × (((evidence_status ctx == some ProofEvidenceStatus.failed)
              || (review_outcome input == some changes_required))
            ≡ true)
  unfolding guard_rework
  rework_granted a = ground arith

  pub entry_granted :
      (target : TaskStatus)
      → (guard_review_entry input plan repository ctx target).allowed ≡ true
      → ((evidence_status ctx == some ProofEvidenceStatus.passed) ≡ true)
        × (is_clean_checkout plan repository ≡ true)
        × ((ctx.ci_evidence == some CiProofStatus.passed) ≡ true)
  unfolding guard_review_entry
  entry_granted target a = ground arith

  pub pre_pr_entry_phase :
      (guard_review_entry input plan repository ctx pre_pr_reviewing).allowed ≡ true
      → (ctx.phase == some pre_pr) ≡ true
  unfolding guard_review_entry
  pre_pr_entry_phase a = ground arith

  pub post_pr_entry_phase :
      (guard_review_entry input plan repository ctx reviewing).allowed ≡ true
      → (ctx.phase == some post_pr) ≡ true
  unfolding guard_review_entry
  post_pr_entry_phase a = ground arith

  pub remediation_granted :
      (guard_remediation input plan repository ctx).allowed ≡ true
      → ((ctx.phase == some pre_pr) ≡ true) × (is_clean_checkout plan repository ≡ true)
  unfolding guard_remediation
  remediation_granted a = ground arith

  pub clearance_granted :
      (guard_clearance input plan repository ctx).allowed ≡ true
      → ((ctx.phase == some pre_pr) ≡ true)
        × (is_clean_checkout plan repository ≡ true)
        × ((evidence_status ctx == some ProofEvidenceStatus.passed) ≡ true)
        × ((ctx.ci_evidence == some CiProofStatus.passed) ≡ true)
  unfolding guard_clearance
  clearance_granted a = ground arith

  pub repair_granted :
      (guard_proof_repair input plan repository ctx).allowed ≡ true
      → ((ctx.phase == some post_pr) ≡ true)
        × ((evidence_status ctx == some ProofEvidenceStatus.failed) ≡ true)
        × (attempts ctx < repair_budget)
  unfolding guard_proof_repair
  repair_granted a = ground arith

  pub repaired_granted :
      (guard_repair_done input plan repository ctx).allowed ≡ true
      → (is_clean_checkout plan repository ≡ true)
        × (repository.committed_repair_from_failure ≡ true)
  unfolding guard_repair_done
  repaired_granted a = ground arith
