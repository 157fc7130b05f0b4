-- ===== src/Proof.antt =====
-- The types of src/domain/proof.ts: plans, gates, receipts and their evidence.
pub mod Setup
pub mod Evidence
pub mod Latest
pub mod Receipt
use threadloop.Base.{
  ℕ, String, Option, none, some, Bool, true, false, List, StrictEquality, eqb, ◌≡◌, ◌↔◌, arith,
}

pub data GateReceiptResult : Type 0 where
  passed failed timed_out aborted invalidated execution_error cleanup_failed : GateReceiptResult
  setup_failed : GateReceiptResult

-- Also the status of one gate.
pub data ProofEvidenceStatus : Type 0 where
  missing passed failed setup_failed stale corrupt : ProofEvidenceStatus

abbrev result_rank : GateReceiptResult → ℕ
result_rank GateReceiptResult.passed = 0
result_rank GateReceiptResult.failed = 1
result_rank timed_out = 2
result_rank aborted = 3
result_rank invalidated = 4
result_rank execution_error = 5
result_rank cleanup_failed = 6
result_rank GateReceiptResult.setup_failed = 7

abbrev status_rank : ProofEvidenceStatus → ℕ
status_rank missing = 0
status_rank ProofEvidenceStatus.passed = 1
status_rank ProofEvidenceStatus.failed = 2
status_rank ProofEvidenceStatus.setup_failed = 3
status_rank stale = 4
status_rank corrupt = 5

pub result_iff : (a b : GateReceiptResult) → (eqb (result_rank a) (result_rank b) ≡ true) ↔ (a ≡ b)
result_iff a b = (λ h. ground arith, λ h. ground arith)

instance abbrev pub result_eq : StrictEquality GateReceiptResult
result_eq = record { strict = λ a b. eqb (result_rank a) (result_rank b); strict_iff = result_iff }

pub evidence_status_iff :
    (a b : ProofEvidenceStatus) → (eqb (status_rank a) (status_rank b) ≡ true) ↔ (a ≡ b)
evidence_status_iff a b = (λ h. ground arith, λ h. ground arith)

instance abbrev pub evidence_status_eq : StrictEquality ProofEvidenceStatus
evidence_status_eq = record {
  strict = λ a b. eqb (status_rank a) (status_rank b);
  strict_iff = evidence_status_iff;
}

pub record ProofSetupStep : Type 0 where
  pub id : String
  pub command : List String
  pub working_directory : String
  pub timeout_ms : ℕ

pub record ProofGate : Type 0 where
  pub id : String
  pub setup : Option (List ProofSetupStep)
  pub command : List String
  pub working_directory : String
  pub timeout_ms : ℕ

pub record GitHubActionsTrustPolicy : Type 0 where
  pub issuer : String
  pub certificate_identity : String
  pub source_repository : String
  pub build_signer_uri : String
  pub build_signer_sha : String

-- By `contract_version`: none, 2, and 3 or 4.
pub data ProofPlan : Type 0 where
  legacy : List String → List ProofGate → ProofPlan
  ci : List String → List ProofGate → GitHubActionsTrustPolicy → ProofPlan
  review :
      ℕ
      → List String
      → List ProofGate
      → GitHubActionsTrustPolicy
      → GitHubActionsTrustPolicy
      → ProofPlan

abbrev pub gates_of : ProofPlan → List ProofGate
gates_of (legacy _ gates) = gates
gates_of (ci _ gates _) = gates
gates_of (review _ _ gates _ _) = gates

-- `hasCiTrustPolicy(plan)` with the `plan.ci` that it guards.
unfoldable pub ci_trust_policy : ProofPlan → Option GitHubActionsTrustPolicy
ci_trust_policy (legacy _ _) = none
ci_trust_policy (ci _ _ policy) = some policy
ci_trust_policy (review _ _ _ policy _) = some policy

-- `hasReviewTrustPolicy(plan)` with the `plan.review` that it guards.
unfoldable pub review_trust_policy : ProofPlan → Option GitHubActionsTrustPolicy
review_trust_policy (legacy _ _) = none
review_trust_policy (ci _ _ _) = none
review_trust_policy (review _ _ _ _ policy) = some policy

pub record BoundProofPlan : Type 0 where
  pub plan : ProofPlan
  pub json : String
  pub sha256 : String
  pub baseline_branch : String
  pub baseline_head_sha : String
  pub created_at : String

pub record ProofGateEvidence : Type 0 where
  pub gate_id : String
  pub status : ProofEvidenceStatus
  pub receipt_id : Option String
  pub sequence : Option ℕ
  pub result : Option GateReceiptResult

pub record ProofEvidence : Type 0 where
  pub status : ProofEvidenceStatus
  pub gates : List ProofGateEvidence
  pub stale_receipt_ids : List String
  pub failed_receipt_ids : List String
  pub setup_failed_receipt_ids : List String
  pub corrupt_receipt_ids : List String
