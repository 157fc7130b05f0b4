-- ===== src/Scenarios/Receipts.antt =====
-- A gate that ran twice: it failed, and then it passed.
use threadloop.Base.{
  ℕ, String, Option, none, some, true, List, [], ◌∷◌, if◌then◌else◌, ◌==◌, string_eq, ◌≡◌, ◌↔◌,
  refl, All,
}
use threadloop.Json.{Value, object, end}
use threadloop.Json.Canonical.{canonical_json, canonicalize_json_value, from_entries, sorted_fields}
use threadloop.Proof.{
  GateReceiptResult, ProofEvidenceStatus, ProofGate, legacy, BoundProofPlan, gates_of,
}
use threadloop.Proof.Evidence.{aggregate_gate_status}
use threadloop.Proof.Setup.{
  recorded_setup_violation, violation_of, first_mismatch, first_non_passing, command_ran,
}
use threadloop.Proof.Latest.{latest_by, insert_by, sort_by, set_all, IsLatest, latest_by-IsLatest}
use threadloop.Proof.Receipt.{
  GateReceiptPayload, StoredGateReceipt, ReceiptReader, ProofInput, evaluate_proof_evidence,
  parse_and_validate_receipt, disagrees, is_stale, status_of, receipt_ids,
}
use threadloop.Proof.Receipt.Proven.{IsProven, evaluate_proof_evidence_iff}
use threadloop.Scenarios.Engine.{writer, checksum}

abbrev pub gate : ProofGate
gate = record {
  id = "test";
  setup = none;
  command = "npm" ∷ "test" ∷ [];
  working_directory = ".";
  timeout_ms = 60000;
}

abbrev plan : BoundProofPlan
plan = record {
  plan = legacy ("works" ∷ []) (gate ∷ []);
  json = "plan";
  sha256 = "plan_hash";
  baseline_branch = "main";
  baseline_head_sha = "base";
  created_at = "t0";
}

-- The payload of the receipt that passed; its text is the empty object.
abbrev payload : GateReceiptPayload
payload = record {
  id = "receipt_2";
  session_id = "S";
  gate_id = "test";
  plan_sha256 = "plan_hash";
  result = GateReceiptResult.passed;
  setup = none;
  command = "npm" ∷ "test" ∷ [];
  working_directory = ".";
  timeout_ms = 60000;
  head_before = "head";
  head_after = "head";
  clean_before = true;
  clean_after = true;
  artifact_path = "out.log";
  artifact_sha256 = "log_hash";
}

unfoldable pub read_payload : Value → Option GateReceiptPayload
read_payload (object end) = some payload
read_payload _ = none

parse : String → Option Value
parse s = if s == "{}" then some (object end) else none

reader : ReceiptReader
unfolding writer checksum read_payload parse
reader = record {
  stringify = writer;
  parse = parse;
  digest = checksum;
  read_payload = read_payload;
}

abbrev receipt : ℕ → String → GateReceiptResult → StoredGateReceipt
receipt sequence id result = record {
  sequence = sequence;
  id = id;
  session_id = "S";
  gate_id = "test";
  plan_sha256 = "plan_hash";
  head_before = "head";
  head_after = "head";
  result = result;
  artifact_path = "out.log";
  artifact_sha256 = "log_hash";
  receipt_json = "{}";
  receipt_sha256 = checksum "{}";
  state_version = 3;
  created_at = "t1";
}

abbrev pub receipts : List StoredGateReceipt
receipts =
    receipt 7 "receipt_2" GateReceiptResult.passed
    ∷ receipt 4 "receipt_1" GateReceiptResult.failed
    ∷ []

abbrev input : ProofInput
input = record {
  session_id = "S";
  plan = plan;
  receipts = receipts;
  current_head = some "head";
  artifact_digests = λ id. some "log_hash";
}

-- The receipt of the later sequence counts, wherever it stands.
is_passed : (evaluate_proof_evidence reader input).status ≡ ProofEvidenceStatus.passed
unfolding evaluate_proof_evidence parse_and_validate_receipt disagrees is_stale status_of
    receipt_ids aggregate_gate_status recorded_setup_violation violation_of first_mismatch
    first_non_passing command_ran latest_by insert_by sort_by set_all reader writer checksum
    canonical_json canonicalize_json_value from_entries sorted_fields
is_passed = refl

evaluate_proof_evidence_iff_example :
    ((evaluate_proof_evidence reader input).status ≡ ProofEvidenceStatus.passed)
    ↔ All (IsProven reader input) (gates_of input.plan.plan)
evaluate_proof_evidence_iff_example = evaluate_proof_evidence_iff reader input

latest_by-IsLatest_example :
    IsLatest
      (λ r. r.sequence)
      (λ r. r.gate_id)
      receipts
      "test"
      (receipt 7 "receipt_2" GateReceiptResult.passed)
unfolding latest_by insert_by sort_by set_all
latest_by-IsLatest_example =
    latest_by-IsLatest (λ r. r.sequence) (λ r. r.gate_id) receipts "test"
      (receipt 7 "receipt_2" GateReceiptResult.passed) refl
