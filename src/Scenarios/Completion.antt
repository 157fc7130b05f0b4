-- ===== src/Scenarios/Completion.antt =====
-- A session that was handed over, with its gate passed and its pull request approved and merged.
use threadloop.Base.{
  String, Option, none, some, true, List, [], ◌∷◌, if◌then◌else◌, ◌==◌, string_eq, nat_eq, list_eq,
  codes, or_else, is_hex_of_length,
}
use threadloop.Task.{ready_for_human, completed}
use threadloop.Json.{Value, null, text, object, end, field}
use threadloop.Json.Canonical.{canonical_json}
use threadloop.Proof.{review}
use threadloop.Package.{PackageReader, ReceiptPackage, package_value}
use threadloop.Package.Ci.{StoredSignedGateReceipt, kind}
use threadloop.Review.Evidence.{
  SignedReviewReceiptArtifact, StoredSignedReviewReceipt, review_receipt_kind,
  build_in_toto_review_statement,
}
use threadloop.Audit.{
  AuditEventValue, StoredAuditEvent, session_started, zero_audit_hash, event_json, event_object,
}
use threadloop.Store.{SessionStore}
use threadloop.Session.{ProofRows, Readers}
use threadloop.Session.Files.{Files, within_limit}
use threadloop.Session.Transition.{TransitionSessionInput, Snapshots}
use threadloop.Scenarios.Engine.{writer, checksum, engine}
use threadloop.Scenarios.Receipts.{gate}
use threadloop.Scenarios.Signed
use threadloop.Scenarios.Snapshot
use threadloop.Scenarios.Handover

abbrev genesis_value : AuditEventValue
genesis_value = record {
  id = "audit_1";
  session_id = "S";
  sequence = 1;
  event_type = session_started;
  recorded_at = "t0";
  state_version = 0;
  previous_sha256 = zero_audit_hash;
  payload = field "lifecycle_state" (text "ready_for_human") (field "task_id" (text "T") end);
}

genesis : StoredAuditEvent
unfolding event_json event_object canonical_json writer checksum engine
genesis = record {
  value = genesis_value;
  json = event_json writer genesis_value;
  sha256 = checksum (event_json writer genesis_value);
}

unfoldable pub store : SessionStore
unfolding genesis
store = record {
  session_id = "S";
  task_id = "T";
  current = some (record {
    ended_at = none;
    status = ready_for_human;
    state_version = 0;
    blocked_from_state = none;
  });
  transitions = [];
  idempotency = [];
  conflicts = [];
  proof_plan = none;
  gate_sequences = 7 ∷ 4 ∷ [];
  signed_gate_sequences = 2 ∷ [];
  signed_review_sequences = 2 ∷ [];
  audit_events = genesis ∷ [];
}

abbrev artifact : SignedReviewReceiptArtifact
artifact = record Snapshot.artifact { merged = true; merged_at = some "t3"; threads = [] }

abbrev schema : Value → Option SignedReviewReceiptArtifact
schema v = some artifact

unfoldable pub statement : Value
unfolding build_in_toto_review_statement is_hex_of_length checksum
statement = or_else (build_in_toto_review_statement artifact (checksum "{}")) null

unfoldable pub statement_json : String
unfolding statement canonical_json writer
statement_json = canonical_json writer statement

-- The bundle is the payload, by which the two packages differ.
abbrev package_of : String → Value → ReceiptPackage
package_of media bundle = record { media_type = text media; artifact = object end; bundle = bundle }

unfoldable pub payload_of : Value → Option String
payload_of (text s) = some s
payload_of _ = none

unfoldable pub keys_of : Value → Option ReceiptPackage
keys_of (text s) =
    if s == "gate"
    then some (package_of Signed.media_type (text s))
    else some (package_of Snapshot.media_type (text s))
keys_of _ = none

-- The reader without the texts of the packages.
unfoldable pub writing_reader : PackageReader
unfolding writer checksum keys_of payload_of Signed.statement_json statement_json
writing_reader = record {
  stringify = writer;
  parse = λ s. none;
  digest = checksum;
  package_keys = keys_of;
  bundle_payload = payload_of;
  from_base64 = codes;
  utf8_text = λ bytes. if bytes == codes "gate" then Signed.statement_json else statement_json;
  utf8_bytes = λ s. if s == Signed.statement_json then codes "gate" else codes "review";
}

unfoldable pub gate_package : String
unfolding writing_reader canonical_json writer
gate_package = canonical_json writer (
    package_value writing_reader (kind writing_reader Signed.schema Signed.value_of)
      Signed.media_type Signed.artifact (text "gate"))

unfoldable pub review_package : String
unfolding writing_reader canonical_json writer
review_package = canonical_json writer (
    package_value writing_reader (review_receipt_kind schema Snapshot.value_of) Snapshot.media_type
      artifact (text "review"))

unfoldable pub parse : String → Option Value
unfolding gate_package review_package Signed.statement Signed.statement_json statement
    statement_json
parse s =
    if s == gate_package
    then some (text "gate")
    else if s == review_package
    then some (text "review")
    else if s == Signed.statement_json
    then some Signed.statement
    else if s == statement_json
    then some statement
    else some (object end)

unfoldable pub reader : PackageReader
unfolding writing_reader parse
reader = record writing_reader { parse = parse }

unfoldable pub gate_receipt : StoredSignedGateReceipt
unfolding Signed.receipt Signed.stored gate_package checksum
gate_receipt = record Signed.receipt {
  stored = record Signed.stored { package_sha256 = checksum gate_package };
  package_path = "gate";
}

unfoldable pub snapshot : StoredSignedReviewReceipt
unfolding review_package statement_json checksum
snapshot = record {
  stored = record {
    package_sha256 = checksum review_package;
    artifact_json = "{}";
    artifact_sha256 = checksum "{}";
    statement_json = statement_json;
    statement_sha256 = checksum statement_json;
    issuer = "issuer";
    certificate_identity = "review_workflow";
    build_signer_uri = "signer";
    build_signer_sha = "signer_sha";
    source_repository = "repository";
    source_ref = "refs/heads/main";
    run_invocation_uri = "run";
  };
  sequence = 2;
  id = "snapshot_2";
  session_id = "S";
  plan_sha256 = "plan_hash";
  pull_request_number = 5;
  subject_head_sha = "head";
  package_path = "review";
  state_version = 6;
  verified_at = "t2";
}

unfoldable pub readers : Readers
unfolding Handover.readers reader
readers = record Handover.readers {
  signed = reader;
  plan_schema =
      λ key value. some (review 4 ("works" ∷ []) (gate ∷ []) Signed.policy Snapshot.policy);
  review_schema = schema;
  review_value = Snapshot.value_of;
}

-- A path is its last part, and a package's bytes are its path.
unfoldable pub last_part : List String → String
last_part [] = ""
last_part (part ∷ []) = part
last_part (part ∷ next ∷ parts) = last_part (next ∷ parts)

unfoldable pub files : Files
unfolding Handover.files last_part gate_package review_package
files = record Handover.files {
  resolve = last_part;
  read_within_limit = λ path limit. some (within_limit (codes path));
  utf8_text = λ bytes. if bytes == codes "gate" then gate_package else review_package;
}

unfoldable pub rows : ProofRows
unfolding Handover.rows gate_receipt snapshot
rows = record Handover.rows {
  signed_receipts = gate_receipt ∷ [];
  signed_review_receipts = snapshot ∷ [];
}

unfoldable pub snapshots : Snapshots
unfolding Handover.snapshots store rows
snapshots = record Handover.snapshots {
  at_lifecycle = store;
  at_key = store;
  at_watermark = store;
  preliminary_rows = rows;
  rows = rows;
}

abbrev pub request : TransitionSessionInput
request = record Handover.request { target_state = completed }
