-- ===== src/Session/Proof.antt =====
-- `canonicalizeProofPlan` and `bindStoredProofPlan` of src/domain/proof.ts, and
-- `evaluateSessionProof` of src/services/session-service.ts, which evaluates the local receipts, the
-- signed CI receipts and the signed review receipts under the plan that it binds.
use threadloop.Base.{
  String, Option, none, some, Bool, true, false, not, ◌&&◌, [], if◌then◌else◌, ◌==◌, ◌>>=◌, ◌>>◌,
  guard, nat_eq, string_eq,
}
use threadloop.Json.{Value, number, get, as_object}
use threadloop.Json.Canonical.{canonical_json}
use threadloop.Proof.{ProofPlan, BoundProofPlan, ProofEvidenceStatus}
use threadloop.Proof.Receipt.{evaluate_proof_evidence}
use threadloop.Package.Ci.{evaluate_ci_proof_evidence}
use threadloop.Review.{ReviewEvidence, ReviewEvidenceStatus}
use threadloop.Review.Evidence.{evaluate_review_evidence}
use threadloop.Session.{
  StoredProofPlan, ProofRows, ProofState, PlanSchema, legacy_schema, version_2, version_3,
  version_4, Readers,
}
use threadloop.Session.Files.{
  Files, read_receipt_artifact_digests, read_controlled_signed_receipt_package_contents,
}

-- `value.contract_version`
unfoldable pub plan_version : Option Value → PlanSchema
plan_version (some (number n)) =
    if n == 2
    then version_2
    else if n == 3
    then version_3
    else if n == 4
    then version_4
    else legacy_schema
plan_version _ = legacy_schema

unfoldable pub is_legacy : PlanSchema → Bool
is_legacy legacy_schema = true
is_legacy _ = false

unfoldable pub is_version_4 : PlanSchema → Bool
is_version_4 version_4 = true
is_version_4 _ = false

pub record CanonicalProofPlan : Type 0 where
  pub plan : ProofPlan
  pub json : String
  pub sha256 : String

module _ (readers : Readers) where
  -- `none` is a `ProofValidationError`; the tests are `requireCiPolicy` and `requireReviewPolicy`.
  unfoldable pub validate_proof_plan : Bool → Bool → Value → Option ProofPlan
  unfolding as_object get plan_version is_legacy is_version_4
  validate_proof_plan require_ci_policy require_review_policy value = do
    fields ← as_object (some value)
    let version = plan_version (get "contract_version" fields)
    guard (not (is_legacy version && require_ci_policy))
    guard (not (not (is_version_4 version) && require_review_policy))
    readers.plan_schema version value

  unfoldable pub canonicalize_proof_plan : Bool → Bool → Value → Option CanonicalProofPlan
  unfolding validate_proof_plan canonical_json
  canonicalize_proof_plan require_ci_policy require_review_policy value = do
    plan ← validate_proof_plan require_ci_policy require_review_policy value
    let json = canonical_json readers.receipt.stringify (readers.plan_value plan)
    some (record { plan = plan; json = json; sha256 = readers.receipt.digest json })

  -- `none` is a problem: a plan that does not validate, or is not what was hashed.
  unfoldable pub bind_stored_proof_plan : StoredProofPlan → Option BoundProofPlan
  unfolding canonicalize_proof_plan
  bind_stored_proof_plan stored = do
    value ← readers.receipt.parse stored.json
    canonical ← canonicalize_proof_plan false false value
    guard (canonical.json == stored.json && canonical.sha256 == stored.sha256)
    some (record {
      plan = canonical.plan;
      json = canonical.json;
      sha256 = canonical.sha256;
      baseline_branch = stored.baseline_branch;
      baseline_head_sha = stored.baseline_head_sha;
      created_at = stored.created_at;
    })

  abbrev pub empty_session_review_evidence : ReviewEvidenceStatus → ReviewEvidence
  empty_session_review_evidence status = record {
    status = status;
    snapshot_id = none;
    head_sha = none;
    review_decision = none;
    blocking_findings = [];
    approvals = [];
    merged = false;
    merged_at = none;
  }

  -- The state of a session whose plan is absent or corrupt, by the statuses of its three evidences.
  unfoldable pub unevaluated :
      ProofRows
      → ProofEvidenceStatus
      → Option ProofEvidenceStatus
      → ReviewEvidenceStatus
      → ProofState
  unevaluated rows plan_status ci_status review_status = record {
    evidence = record {
      status = plan_status;
      gates = [];
      stale_receipt_ids = [];
      failed_receipt_ids = [];
      setup_failed_receipt_ids = [];
      corrupt_receipt_ids = [];
    };
    ci_evidence = record { status = ci_status; policy = none; gates = [] };
    review_evidence = empty_session_review_evidence review_status;
    attempts_used = rows.attempts_used;
    plan = none;
    receipts = rows.receipts;
    signed_receipts = rows.signed_receipts;
    signed_review_receipts = rows.signed_review_receipts;
  }

  abbrev pub missing_state : ProofRows → ProofState
  missing_state rows =
      unevaluated rows ProofEvidenceStatus.missing none ReviewEvidenceStatus.policy_missing

  abbrev pub corrupt_state : ProofRows → ProofState
  corrupt_state rows =
      unevaluated rows ProofEvidenceStatus.corrupt (some ProofEvidenceStatus.corrupt)
        ReviewEvidenceStatus.corrupt

  module _ (files : Files) (session_id : String) (current_head : Option String) where
    -- The evaluation under a plan that is bound.
    unfoldable pub evaluate_bound : ProofRows → BoundProofPlan → ProofState
    unfolding read_receipt_artifact_digests read_controlled_signed_receipt_package_contents
        evaluate_proof_evidence evaluate_ci_proof_evidence evaluate_review_evidence
    evaluate_bound rows plan = record {
      evidence = evaluate_proof_evidence readers.receipt (record {
        session_id = session_id;
        plan = plan;
        receipts = rows.receipts;
        current_head = current_head;
        artifact_digests = read_receipt_artifact_digests files session_id rows.receipts;
      });
      ci_evidence =
          evaluate_ci_proof_evidence readers.signed readers.gate_schema readers.gate_value (record {
            session_id = session_id;
            plan = plan;
            receipts = rows.signed_receipts;
            current_head = current_head;
            package_contents =
                read_controlled_signed_receipt_package_contents files session_id
                  (λ receipt. receipt.id) (λ receipt. receipt.package_path) rows.signed_receipts;
          });
      review_evidence =
          evaluate_review_evidence readers.signed readers.review_schema readers.review_value
            (record {
              session_id = session_id;
              plan = plan;
              receipts = rows.signed_review_receipts;
              current_head = current_head;
              package_contents =
                  read_controlled_signed_receipt_package_contents files session_id
                    (λ receipt. receipt.id) (λ receipt. receipt.package_path)
                    rows.signed_review_receipts;
            });
      attempts_used = rows.attempts_used;
      plan = some plan;
      receipts = rows.receipts;
      signed_receipts = rows.signed_receipts;
      signed_review_receipts = rows.signed_review_receipts;
    }

    abbrev pub under_binding : ProofRows → Option BoundProofPlan → ProofState
    under_binding rows none = corrupt_state rows
    under_binding rows (some plan) = evaluate_bound rows plan

    abbrev pub under_stored : ProofRows → Option StoredProofPlan → ProofState
    under_stored rows none = missing_state rows
    under_stored rows (some stored) = under_binding rows (bind_stored_proof_plan stored)

    unfoldable pub evaluate_session_proof : ProofRows → ProofState
    unfolding bind_stored_proof_plan evaluate_bound unevaluated
    evaluate_session_proof rows = under_stored rows rows.plan
