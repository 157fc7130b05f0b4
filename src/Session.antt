-- ===== src/Session.antt =====
-- src/services/session-service.ts: how a session's proof is read and evaluated, and how a transition
-- is carried out on it. Git, the file system and the schemas are arguments.
pub mod Files
pub mod Proof
pub mod Basis
pub mod Prepare
pub mod Transition
use threadloop.Base.{ℕ, String, Option, Bool, List}
use threadloop.Json.{Value}
use threadloop.Proof.{ProofPlan, BoundProofPlan, ProofEvidence}
use threadloop.Proof.Receipt.{StoredGateReceipt, ReceiptReader}
use threadloop.Package.{PackageReader}
use threadloop.Package.Ci.{SignedGateReceiptArtifact, StoredSignedGateReceipt, CiProofEvidence}
use threadloop.Review.{ReviewEvidence}
use threadloop.Review.Evidence.{SignedReviewReceiptArtifact, StoredSignedReviewReceipt}

-- A `PersistedProofPlan`.
pub record StoredProofPlan : Type 0 where
  pub json : String
  pub sha256 : String
  pub baseline_branch : String
  pub baseline_head_sha : String
  pub created_at : String

-- What `readSessionProofEvidenceReadOnly` reads.
pub record ProofRows : Type 0 where
  pub plan : Option StoredProofPlan
  pub receipts : List StoredGateReceipt
  pub signed_receipts : List StoredSignedGateReceipt
  pub signed_review_receipts : List StoredSignedReviewReceipt
  pub attempts_used : ℕ

-- The result of `evaluateSessionProof`.
pub record ProofState : Type 0 where
  pub evidence : ProofEvidence
  pub ci_evidence : CiProofEvidence
  pub review_evidence : ReviewEvidence
  pub attempts_used : ℕ
  pub plan : Option BoundProofPlan
  pub receipts : List StoredGateReceipt
  pub signed_receipts : List StoredSignedGateReceipt
  pub signed_review_receipts : List StoredSignedReviewReceipt

-- The key of `proofPlanSchemas`.
pub data PlanSchema : Type 0 where
  legacy_schema version_2 version_3 version_4 : PlanSchema

-- The engine's JSON with `sha256`, the schemas, and the value that a parsed plan or artifact is.
pub record Readers : Type 0 where
  pub receipt : ReceiptReader
  pub signed : PackageReader
  pub plan_schema : PlanSchema → Value → Option ProofPlan
  pub plan_value : ProofPlan → Value
  pub gate_schema : Value → Option SignedGateReceiptArtifact
  pub gate_value : SignedGateReceiptArtifact → Value
  pub review_schema : Value → Option SignedReviewReceiptArtifact
  pub review_value : SignedReviewReceiptArtifact → Value

-- The repository as `observeProofRepository` observes it.
pub record ProofRepository : Type 0 where
  pub branch : Option String
  pub head_sha : String
  pub clean : Bool
