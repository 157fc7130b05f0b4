-- ===== src/Package/Ci.antt =====
-- `evaluateCiProofEvidence` of src/domain/attestation.ts: the stored signed gate receipts against
-- the gates of the bound plan.
pub mod Proven
use Prim.Native.String.{◌++◌ as join}
use threadloop.Base.{
  ℕ, String, Option, none, some, Bool, true, false, not, ◌&&◌, ◌||◌, List, [], ◌∷◌, map,
  if◌then◌else◌, ◌==◌, is_some, is_hex_of_length, nat_eq, string_eq, option_eq,
}
use threadloop.Json.{Value, number, text, array, object, Items, nil, cons, Fields, end, field}
use threadloop.Json.Canonical.{canonical_json}
use threadloop.Proof.{
  GateReceiptResult, result_eq, ProofEvidenceStatus, missing, stale, corrupt, ProofSetupStep,
  ProofGate, GitHubActionsTrustPolicy, BoundProofPlan, gates_of, ci_trust_policy,
}
use threadloop.Proof.Setup.{RecordedSetupStep, items_of, recorded_setup_violation}
use threadloop.Proof.Evidence.{aggregate_gate_status}
use threadloop.Proof.Latest.{latest_by}
use threadloop.Proof.Receipt.{is_falsy}
use threadloop.Package.{
  ArtifactSource, SignedReceiptKind, PackageReader, ParsedSignedPackage, StoredSignedPackage,
  reverify_stored_package,
}

-- The fields of a `SignedGateReceiptArtifact` that the evaluation and the statement read.
pub record SignedGateReceiptArtifact : Type 0 where
  pub schema_version : ℕ
  pub receipt_id : String
  pub session_id : String
  pub plan_sha256 : String
  pub gate : ProofGate
  pub result : GateReceiptResult
  pub setup : Option (List RecordedSetupStep)
  pub exit_status : Value
  pub signal : Option String
  pub head_before : String
  pub head_after : String
  pub clean_before : Bool
  pub clean_after : Bool
  pub source : ArtifactSource
  pub head_sha : String

abbrev result_text : GateReceiptResult → String
result_text GateReceiptResult.passed = "passed"
result_text GateReceiptResult.failed = "failed"
result_text GateReceiptResult.timed_out = "timed_out"
result_text GateReceiptResult.aborted = "aborted"
result_text GateReceiptResult.invalidated = "invalidated"
result_text GateReceiptResult.execution_error = "execution_error"
result_text GateReceiptResult.cleanup_failed = "cleanup_failed"
result_text GateReceiptResult.setup_failed = "setup_failed"

-- `${artifact.schema_version}`, which is 1 or 2.
abbrev version_text : ℕ → String
version_text version = if version == 1 then "1" else "2"

abbrev pub signed_receipt_media_type : ℕ → String
signed_receipt_media_type version =
    if version == 1
    then "application/vnd.threadloop.signed-receipt.v1+json"
    else "application/vnd.threadloop.signed-receipt.v2+json"

abbrev subjects : SignedGateReceiptArtifact → String → Value
subjects artifact sha256 = array (
    cons
      (object (
        field "name" (text artifact.source.repository)
          (field "digest" (object (field "gitCommit" (text artifact.head_sha) end)) end)))
      (cons
        (object (
          field "name" (text "threadloop-gate-receipt.json")
            (field "digest" (object (field "sha256" (text sha256) end)) end)))
        nil))

abbrev predicate : SignedGateReceiptArtifact → String → Value
predicate artifact sha256 = object (
    field "schema_version" (number artifact.schema_version) (
      field "receipt_type" (text "gate") (
        field "session_id" (text artifact.session_id) (
          field "plan_sha256" (text artifact.plan_sha256) (
            field "gate_id" (text artifact.gate.id) (
              field "result" (text (result_text artifact.result)) (
                field "subject_head_sha" (text artifact.head_sha) (
                  field "artifact"
                    (object (
                      field "name" (text "threadloop-gate-receipt.json")
                        (field "sha256" (text sha256) end)))
                    (field "sensor"
                      (object (
                        field "name" (text "threadloop-github-actions-gate")
                          (field "contract_version" (number artifact.schema_version) end)))
                      end)))))))))

-- `none` where the hash of the artifact is no SHA-256.
unfoldable pub build_in_toto_receipt_statement : SignedGateReceiptArtifact → String → Option Value
build_in_toto_receipt_statement artifact sha256 =
    if is_hex_of_length 64 sha256
    then some (
        object (
          field "_type" (text "https://in-toto.io/Statement/v1") (
            field "subject" (subjects artifact sha256) (
              field "predicateType"
                (text (
                  join "https://threadloop.dev/attestations/receipt/v"
                    (version_text artifact.schema_version)))
                (field "predicate" (predicate artifact sha256) end)))))
    else none

-- `gateReceiptKind`, with its schema and with the object that an artifact is.
abbrev pub gate_receipt_kind :
    (Value → Option SignedGateReceiptArtifact)
    → (SignedGateReceiptArtifact → Value)
    → SignedReceiptKind SignedGateReceiptArtifact
gate_receipt_kind schema value_of = record {
  schema = schema;
  value_of = value_of;
  source_of = λ artifact. artifact.source;
  media_type = λ artifact. signed_receipt_media_type artifact.schema_version;
  build_statement = build_in_toto_receipt_statement;
}

-- A gate as the object that it is.
step_items : List ProofSetupStep → Items
step_items [] = nil
step_items (step ∷ steps) =
    cons
      (object (
        field "id" (text step.id) (
          field "command" (array (items_of step.command)) (
            field "working_directory" (text step.working_directory)
              (field "timeout_ms" (number step.timeout_ms) end)))))
      (step_items steps)

unfoldable pub gate_value : ProofGate → Value
unfolding step_items
gate_value gate =
    let rest = field "command" (array (items_of gate.command)) (
      field "working_directory" (text gate.working_directory)
        (field "timeout_ms" (number gate.timeout_ms) end)) in
    object (
      field "id" (text gate.id) (elim gate.setup [
        | none ↦ rest
        | some steps ↦ field "setup" (array (step_items steps)) rest
      ]))

pub record StoredSignedGateReceipt : Type 0 where
  pub stored : StoredSignedPackage
  pub sequence : ℕ
  pub id : String
  pub session_id : String
  pub gate_id : String
  pub plan_sha256 : String
  pub subject_head_sha : String
  pub result : GateReceiptResult
  pub package_path : String
  pub state_version : ℕ
  pub verified_at : String

pub record CiProofGateEvidence : Type 0 where
  pub gate_id : String
  pub status : ProofEvidenceStatus
  pub receipt_id : Option String
  pub sequence : Option ℕ
  pub subject_head_sha : Option String
  pub package_sha256 : Option String
  pub verified_at : Option String

-- A status of `policy_missing` is `none`.
pub record CiProofEvidence : Type 0 where
  pub status : Option ProofEvidenceStatus
  pub policy : Option GitHubActionsTrustPolicy
  pub gates : List CiProofGateEvidence

-- `input` of `evaluateCiProofEvidence`. A package that is missing is `none`.
pub record CiInput : Type 0 where
  pub session_id : String
  pub plan : BoundProofPlan
  pub receipts : List StoredSignedGateReceipt
  pub current_head : Option String
  pub package_contents : String → Option String

-- `exit_status === 0`
abbrev pub is_zero : Value → Bool
is_zero (number n) = n == 0
is_zero _ = false

abbrev pub empty_ci_gate : String → CiProofGateEvidence
empty_ci_gate gate_id = record {
  gate_id = gate_id;
  status = missing;
  receipt_id = none;
  sequence = none;
  subject_head_sha = none;
  package_sha256 = none;
  verified_at = none;
}

module _ (reader : PackageReader) (schema : Value → Option SignedGateReceiptArtifact)
    (value_of : SignedGateReceiptArtifact → Value) where
  abbrev pub kind : SignedReceiptKind SignedGateReceiptArtifact
  kind = gate_receipt_kind schema value_of

  unfoldable pub is_corrupt :
      CiInput → ProofGate → StoredSignedGateReceipt → SignedGateReceiptArtifact → Bool
  is_corrupt input gate receipt artifact =
      not (artifact.receipt_id == receipt.id)
      || not (artifact.session_id == input.session_id)
      || not (artifact.gate.id == receipt.gate_id)
      || not (artifact.plan_sha256 == receipt.plan_sha256)
      || not (artifact.head_sha == receipt.subject_head_sha)
      || not (receipt.result == GateReceiptResult.passed)
      || not (artifact.result == GateReceiptResult.passed)
      || not (is_zero artifact.exit_status)
      || is_some artifact.signal
      || not artifact.clean_before
      || not artifact.clean_after
      || not (artifact.head_before == receipt.subject_head_sha)
      || not (artifact.head_after == receipt.subject_head_sha)
      || not (
          canonical_json reader.stringify (gate_value artifact.gate)
          == canonical_json reader.stringify (gate_value gate))
      || is_some
          (recorded_setup_violation reader.stringify artifact.setup gate.setup artifact.result)

  unfoldable pub ci_status :
      CiInput
      → ProofGate
      → StoredSignedGateReceipt
      → Option (ParsedSignedPackage SignedGateReceiptArtifact)
      → ProofEvidenceStatus
  ci_status input gate receipt none = corrupt
  ci_status input gate receipt (some parsed) =
      if is_corrupt input gate receipt parsed.envelope.artifact
      then corrupt
      else if not (receipt.plan_sha256 == input.plan.sha256)
          || is_falsy input.current_head
          || not (some receipt.subject_head_sha == input.current_head)
      then stale
      else ProofEvidenceStatus.passed

  abbrev pub ci_gate_evidence :
      CiInput
      → GitHubActionsTrustPolicy
      → ProofGate
      → Option StoredSignedGateReceipt
      → CiProofGateEvidence
  ci_gate_evidence input policy gate none = empty_ci_gate gate.id
  ci_gate_evidence input policy gate (some receipt) = record {
    gate_id = gate.id;
    status = ci_status input gate receipt (
        reverify_stored_package reader kind receipt.stored (input.package_contents receipt.id)
          policy);
    receipt_id = some receipt.id;
    sequence = some receipt.sequence;
    subject_head_sha = some receipt.subject_head_sha;
    package_sha256 = some receipt.stored.package_sha256;
    verified_at = some receipt.verified_at;
  }

  abbrev pub latest_signed : CiInput → String → Option StoredSignedGateReceipt
  latest_signed input = latest_by (λ r. r.sequence) (λ r. r.gate_id) input.receipts

  abbrev pub under_policy : CiInput → Option GitHubActionsTrustPolicy → CiProofEvidence
  under_policy input none = record {
    status = none;
    policy = none;
    gates = map (λ gate. empty_ci_gate gate.id) (gates_of input.plan.plan);
  }
  under_policy input (some policy) =
      let gates =
        map (λ gate. ci_gate_evidence input policy gate (latest_signed input gate.id))
          (gates_of input.plan.plan) in
      record {
        status = some (aggregate_gate_status (map (λ gate. gate.status) gates));
        policy = some policy;
        gates = gates;
      }

  unfoldable pub evaluate_ci_proof_evidence : CiInput → CiProofEvidence
  evaluate_ci_proof_evidence input = under_policy input (ci_trust_policy input.plan.plan)
