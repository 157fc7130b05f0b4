-- ===== src/Scenarios/Signed.antt =====
-- A gate with a signed receipt.
use threadloop.Base.{
  String, Option, none, some, true, [], ◌∷◌, if◌then◌else◌, ◌==◌, string_eq, ◌≡◌, refl, All,
  or_else, is_hex_of_length,
}
use threadloop.Json.{Value, null, number, text, object, end, get}
use threadloop.Json.Canonical.{canonical_json, canonicalize_json_value, from_entries, sorted_fields}
use threadloop.Proof.{
  GateReceiptResult, ProofEvidenceStatus, ProofGate, ci, BoundProofPlan, gates_of,
  GitHubActionsTrustPolicy, ci_trust_policy,
}
use threadloop.Proof.Evidence.{aggregate_gate_status}
use threadloop.Proof.Setup.{
  recorded_setup_violation, violation_of, first_mismatch, first_non_passing, command_ran,
}
use threadloop.Proof.Latest.{latest_by, insert_by, sort_by, set_all}
use threadloop.Package.{
  PackageReader, StoredSignedPackage, is_same, parse_signed_envelope, bind_signed_statement,
  matches_stored, reverify_stored_package, package_value,
}
use threadloop.Package.Ci.{
  SignedGateReceiptArtifact, StoredSignedGateReceipt, CiInput, kind, is_corrupt, ci_status,
  gate_value, evaluate_ci_proof_evidence, build_in_toto_receipt_statement,
}
use threadloop.Package.Ci.Proven.{IsSigned, evaluate_ci_proof_evidence-IsSigned}
use threadloop.Scenarios.Engine.{writer, checksum}

abbrev pub gate : ProofGate
gate = record {
  id = "test";
  setup = none;
  command = "npm" ∷ "test" ∷ [];
  working_directory = ".";
  timeout_ms = 60000;
}

abbrev pub policy : GitHubActionsTrustPolicy
policy = record {
  issuer = "issuer";
  certificate_identity = "workflow";
  source_repository = "repository";
  build_signer_uri = "signer";
  build_signer_sha = "signer_sha";
}

abbrev plan : BoundProofPlan
plan = record {
  plan = ci ("works" ∷ []) (gate ∷ []) policy;
  json = "plan";
  sha256 = "plan_hash";
  baseline_branch = "main";
  baseline_head_sha = "base";
  created_at = "t0";
}

-- Its text is the empty object.
abbrev pub artifact : SignedGateReceiptArtifact
artifact = record {
  schema_version = 1;
  receipt_id = "receipt_1";
  session_id = "S";
  plan_sha256 = "plan_hash";
  gate = gate;
  result = GateReceiptResult.passed;
  setup = none;
  exit_status = number 0;
  signal = none;
  head_before = "head";
  head_after = "head";
  clean_before = true;
  clean_after = true;
  source = record {
    repository = "repository";
    ref = "refs/heads/main";
    run_invocation_uri = "run";
  };
  head_sha = "head";
}

abbrev pub schema : Value → Option SignedGateReceiptArtifact
schema v = some artifact

abbrev pub value_of : SignedGateReceiptArtifact → Value
value_of a = object end

unfoldable pub statement : Value
unfolding build_in_toto_receipt_statement is_hex_of_length checksum
statement = or_else (build_in_toto_receipt_statement artifact (checksum "{}")) null

unfoldable pub statement_json : String
unfolding statement canonical_json writer
statement_json = canonical_json writer statement

abbrev pub media_type : String
media_type = "application/vnd.threadloop.signed-receipt.v1+json"

unfoldable pub reader : PackageReader
unfolding writer checksum statement statement_json
reader = record {
  stringify = writer;
  parse = λ s. if s == statement_json then some statement else some (object end);
  digest = checksum;
  package_keys = λ v.
      some (record { media_type = text media_type; artifact = object end; bundle = object end });
  bundle_payload = λ bundle. some "payload";
  from_base64 = λ payload. [];
  utf8_text = λ bytes. statement_json;
  utf8_bytes = λ s. [];
}

unfoldable pub package_json : String
unfolding reader canonical_json writer
package_json =
    canonical_json writer
      (package_value reader (kind reader schema value_of) media_type artifact (object end))

unfoldable pub stored : StoredSignedPackage
unfolding package_json statement_json checksum
stored = record {
  package_sha256 = checksum package_json;
  artifact_json = "{}";
  artifact_sha256 = checksum "{}";
  statement_json = statement_json;
  statement_sha256 = checksum statement_json;
  issuer = "issuer";
  certificate_identity = "workflow";
  build_signer_uri = "signer";
  build_signer_sha = "signer_sha";
  source_repository = "repository";
  source_ref = "refs/heads/main";
  run_invocation_uri = "run";
}

unfoldable pub receipt : StoredSignedGateReceipt
unfolding stored
receipt = record {
  stored = stored;
  sequence = 2;
  id = "receipt_1";
  session_id = "S";
  gate_id = "test";
  plan_sha256 = "plan_hash";
  subject_head_sha = "head";
  result = GateReceiptResult.passed;
  package_path = "package.json";
  state_version = 3;
  verified_at = "t1";
}

input : CiInput
unfolding receipt package_json
input = record {
  session_id = "S";
  plan = plan;
  receipts = receipt ∷ [];
  current_head = some "head";
  package_contents = λ id. some package_json;
}

is_passed :
    (evaluate_ci_proof_evidence reader schema value_of input).status
    ≡ some ProofEvidenceStatus.passed
unfolding evaluate_ci_proof_evidence ci_trust_policy ci_status is_corrupt reverify_stored_package
    parse_signed_envelope bind_signed_statement matches_stored is_same gate_value get
    build_in_toto_receipt_statement is_hex_of_length aggregate_gate_status recorded_setup_violation
    violation_of first_mismatch first_non_passing command_ran latest_by insert_by sort_by set_all
    reader writer checksum canonical_json canonicalize_json_value from_entries sorted_fields stored
    receipt input package_json statement statement_json
is_passed = refl

evaluate_ci_proof_evidence-IsSigned_example :
    (policy : GitHubActionsTrustPolicy) × (ci_trust_policy input.plan.plan ≡ some policy)
    × All (IsSigned reader schema value_of input policy) (gates_of input.plan.plan)
evaluate_ci_proof_evidence-IsSigned_example =
    evaluate_ci_proof_evidence-IsSigned reader schema value_of input is_passed
