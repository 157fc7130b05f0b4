-- ===== src/Proof/Receipt.antt =====
-- `evaluateProofEvidence` of src/domain/proof.ts: the stored local receipts against the gates of the
-- bound plan. The schema of a receipt's payload is a parameter.
pub mod Valid
pub mod Proven
use threadloop.Base.{
  ℕ, String, Option, none, some, Bool, true, false, not, ◌&&◌, ◌||◌, List, [], ◌∷◌, map,
  if◌then◌else◌, ◌==◌, leb, ltb, is_some, nat_eq, string_eq, option_eq,
}
use threadloop.Json.{Value, array}
use threadloop.Json.Canonical.{canonical_json}
use threadloop.Audit.{max_safe_integer}
use threadloop.Proof.{
  GateReceiptResult, result_eq, ProofEvidenceStatus, missing, stale, corrupt, evidence_status_eq,
  ProofGate, BoundProofPlan, gates_of, ProofGateEvidence, ProofEvidence,
}
use threadloop.Proof.Setup.{RecordedSetupStep, items_of, recorded_setup_violation}
use threadloop.Proof.Evidence.{aggregate_gate_status}
use threadloop.Proof.Latest.{latest_by}

-- The fields of a `GateReceiptPayload` that the evaluation reads.
pub record GateReceiptPayload : Type 0 where
  pub id : String
  pub session_id : String
  pub gate_id : String
  pub plan_sha256 : String
  pub result : GateReceiptResult
  pub setup : Option (List RecordedSetupStep)
  pub command : List String
  pub working_directory : String
  pub timeout_ms : ℕ
  pub head_before : String
  pub head_after : String
  pub clean_before : Bool
  pub clean_after : Bool
  pub artifact_path : String
  pub artifact_sha256 : String

pub record StoredGateReceipt : Type 0 where
  pub sequence : ℕ
  pub id : String
  pub session_id : String
  pub gate_id : String
  pub plan_sha256 : String
  pub head_before : String
  pub head_after : String
  pub result : GateReceiptResult
  pub artifact_path : String
  pub artifact_sha256 : String
  pub receipt_json : String
  pub receipt_sha256 : String
  pub state_version : ℕ
  pub created_at : String

-- What reads a stored receipt: the engine's JSON, the digest, and `gateReceiptPayloadSchema`.
pub record ReceiptReader : Type 0 where
  pub stringify : Value → String
  pub parse : String → Option Value
  pub digest : String → String
  pub read_payload : Value → Option GateReceiptPayload

-- `input` of `evaluateProofEvidence`. An artifact without a digest is `none`.
pub record ProofInput : Type 0 where
  pub session_id : String
  pub plan : BoundProofPlan
  pub receipts : List StoredGateReceipt
  pub current_head : Option String
  pub artifact_digests : String → Option String

-- `!text`
abbrev pub is_falsy : Option String → Bool
is_falsy none = true
is_falsy (some s) = s == ""

module _ (reader : ReceiptReader) where
  unfoldable pub disagrees :
      StoredGateReceipt → String → ProofGate → Option String → GateReceiptPayload → Bool
  disagrees receipt session_id gate artifact_digest payload =
      not (payload.id == receipt.id)
      || not (payload.session_id == session_id)
      || not (payload.gate_id == receipt.gate_id)
      || not (payload.plan_sha256 == receipt.plan_sha256)
      || not (payload.result == receipt.result)
      || not (payload.head_before == receipt.head_before)
      || not (payload.head_after == receipt.head_after)
      || not (payload.artifact_path == receipt.artifact_path)
      || not (payload.artifact_sha256 == receipt.artifact_sha256)
      || not (artifact_digest == some receipt.artifact_sha256)
      || not (payload.working_directory == gate.working_directory)
      || not (payload.timeout_ms == gate.timeout_ms)
      || not (
          reader.stringify (array (items_of payload.command))
          == reader.stringify (array (items_of gate.command)))
      || is_some (recorded_setup_violation reader.stringify payload.setup gate.setup payload.result)

  -- The payload where it agrees with the receipt and the gate.
  abbrev pub agreed :
      StoredGateReceipt
      → String
      → ProofGate
      → Option String
      → Option GateReceiptPayload
      → Option GateReceiptPayload
  agreed receipt session_id gate artifact_digest none = none
  agreed receipt session_id gate artifact_digest (some payload) =
      if disagrees receipt session_id gate artifact_digest payload then none else some payload

  -- The payload of a parsed text that is canonical.
  abbrev pub payload_of : String → Option Value → Option GateReceiptPayload
  payload_of json none = none
  payload_of json (some parsed) =
      if not (canonical_json reader.stringify parsed == json)
      then none
      else reader.read_payload parsed

  unfoldable pub parse_and_validate_receipt :
      StoredGateReceipt → String → ProofGate → Option String → Option GateReceiptPayload
  parse_and_validate_receipt receipt session_id gate artifact_digest =
      if not (leb receipt.sequence max_safe_integer)
        || ltb receipt.sequence 1
        || not (receipt.receipt_sha256 == reader.digest receipt.receipt_json)
      then none
      else agreed receipt session_id gate artifact_digest
          (payload_of receipt.receipt_json (reader.parse receipt.receipt_json))

  unfoldable pub is_stale : ProofInput → StoredGateReceipt → GateReceiptPayload → Bool
  is_stale input receipt payload =
      not (receipt.plan_sha256 == input.plan.sha256)
      || not (payload.plan_sha256 == input.plan.sha256)
      || is_falsy input.current_head
      || not (some receipt.head_before == input.current_head)
      || not (some receipt.head_after == input.current_head)

  -- The status that a receipt gives its gate.
  unfoldable pub status_of :
      ProofInput → StoredGateReceipt → Option GateReceiptPayload → ProofEvidenceStatus
  status_of input receipt none = corrupt
  status_of input receipt (some payload) =
      if is_stale input receipt payload
      then stale
      else if receipt.result == GateReceiptResult.passed
          && payload.result == GateReceiptResult.passed
          && payload.clean_before
          && payload.clean_after
      then ProofEvidenceStatus.passed
      else if receipt.result == GateReceiptResult.setup_failed
          && payload.result == GateReceiptResult.setup_failed
      then ProofEvidenceStatus.setup_failed
      else ProofEvidenceStatus.failed

  abbrev pub latest_by_gate : ProofInput → String → Option StoredGateReceipt
  latest_by_gate input = latest_by (λ r. r.sequence) (λ r. r.gate_id) input.receipts

  abbrev pub gate_evidence : ProofInput → ProofGate → Option StoredGateReceipt → ProofGateEvidence
  gate_evidence input gate none = record {
    gate_id = gate.id;
    status = missing;
    receipt_id = none;
    sequence = none;
    result = none;
  }
  gate_evidence input gate (some receipt) = record {
    gate_id = gate.id;
    status = status_of input receipt (
        parse_and_validate_receipt receipt input.session_id gate
          (input.artifact_digests receipt.id));
    receipt_id = some receipt.id;
    sequence = some receipt.sequence;
    result = some receipt.result;
  }

  -- `receiptIds`
  unfoldable pub receipt_ids : ProofEvidenceStatus → List ProofGateEvidence → List String
  receipt_ids status [] = []
  receipt_ids status (gate ∷ gates) =
      let rest = receipt_ids status gates in
      elim gate.receipt_id [
        | none ↦ rest
        | some id ↦ if gate.status == status && not (id == "") then id ∷ rest else rest
      ]

  unfoldable pub evaluate_proof_evidence : ProofInput → ProofEvidence
  evaluate_proof_evidence input =
      let gates =
        map (λ gate. gate_evidence input gate (latest_by_gate input gate.id))
          (gates_of input.plan.plan) in
      record {
        status = aggregate_gate_status (map (λ gate. gate.status) gates);
        gates = gates;
        stale_receipt_ids = receipt_ids stale gates;
        failed_receipt_ids = receipt_ids ProofEvidenceStatus.failed gates;
        setup_failed_receipt_ids = receipt_ids ProofEvidenceStatus.setup_failed gates;
        corrupt_receipt_ids = receipt_ids corrupt gates;
      }
