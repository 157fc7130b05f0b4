-- ===== src/Scenarios/Handover.antt =====
-- A session in verification whose proof is read and that enters the pre-PR review.
use threadloop.Base.{String, none, some, true, false, [], ◌∷◌, if◌then◌else◌, ◌==◌, string_eq, ◌||◌}
use threadloop.Task.{verifying, pre_pr_reviewing, cli}
use threadloop.Json.{Value, text, object, end, field}
use threadloop.Json.Canonical.{canonical_json}
use threadloop.Proof.{ci}
use threadloop.Proof.Receipt.{ReceiptReader}
use threadloop.Audit.{
  AuditEventValue, StoredAuditEvent, session_started, zero_audit_hash, event_json, event_object,
}
use threadloop.Store.{SessionStore}
use threadloop.Session.{ProofRows, Readers}
use threadloop.Session.Files.{Files, within_limit}
use threadloop.Session.Basis.{Git}
use threadloop.Session.Transition.{TransitionSessionInput, Snapshots}
use threadloop.Scenarios.Engine.{writer, checksum, engine}
use threadloop.Scenarios.Receipts.{gate, receipts, read_payload}
use threadloop.Scenarios.Signed

abbrev genesis_value : AuditEventValue
genesis_value = record {
  id = "audit_1";
  session_id = "S";
  sequence = 1;
  event_type = session_started;
  recorded_at = "t0";
  state_version = 0;
  previous_sha256 = zero_audit_hash;
  payload = field "lifecycle_state" (text "verifying") (field "task_id" (text "T") end);
}

genesis : StoredAuditEvent
unfolding event_json event_object canonical_json writer checksum engine
genesis = record {
  value = genesis_value;
  json = event_json writer genesis_value;
  sha256 = checksum (event_json writer genesis_value);
}

unfoldable pub store : SessionStore
unfolding genesis
store = record {
  session_id = "S";
  task_id = "T";
  current = some (record {
    ended_at = none;
    status = verifying;
    state_version = 0;
    blocked_from_state = none;
  });
  transitions = [];
  idempotency = [];
  conflicts = [];
  proof_plan = none;
  gate_sequences = 7 ∷ 4 ∷ [];
  signed_gate_sequences = 2 ∷ [];
  signed_review_sequences = [];
  audit_events = genesis ∷ [];
}

-- The plan's text is an empty string.
abbrev plan_text : String
plan_text = "''"

digest : String → String
unfolding checksum
digest s = if s == plan_text then "plan_hash" else checksum s

receipt_reader : ReceiptReader
unfolding writer digest read_payload
receipt_reader = record {
  stringify = writer;
  parse = λ s. if s == "{}" || s == plan_text then some (object end) else none;
  digest = digest;
  read_payload = read_payload;
}

unfoldable pub readers : Readers
unfolding receipt_reader Signed.reader
readers = record {
  receipt = receipt_reader;
  signed = Signed.reader;
  plan_schema = λ schema value. some (ci ("works" ∷ []) (gate ∷ []) Signed.policy);
  plan_value = λ plan. text "";
  gate_schema = Signed.schema;
  gate_value = Signed.value_of;
  review_schema = λ value. none;
  review_value = λ artifact. object end;
}

-- Every file lies in the receipts directory, and both streams are its output.
abbrev output : Value
output = object (field "path" (text "out.log") (field "sha256" (text "log_hash") end))

unfoldable pub files : Files
unfolding Signed.package_json
files = record {
  resolve = λ parts. "out.log";
  relative = λ from_path to_path. "out.log";
  is_absolute = λ path. false;
  dirname = λ path. "receipts";
  separator = "/";
  realpath = λ path. some path;
  sha256_file = λ path. some "log_hash";
  read_file = λ path. some "execution";
  read_within_limit = λ path limit. some (within_limit []);
  utf8_text = λ bytes. Signed.package_json;
  parse = λ s. some (object (field "stdout" output (field "stderr" output end)));
}

-- No command of git is needed before the pre-PR review.
abbrev pub git : Git
git = record {
  merge_base_is_ancestor = λ from_head to_head. none;
  diff_quiet = λ from_head to_head. none;
}

unfoldable pub rows : ProofRows
unfolding Signed.receipt
rows = record {
  plan = some (record {
    json = plan_text;
    sha256 = "plan_hash";
    baseline_branch = "main";
    baseline_head_sha = "base";
    created_at = "t0";
  });
  receipts = receipts;
  signed_receipts = Signed.receipt ∷ [];
  signed_review_receipts = [];
  attempts_used = 0;
}

unfoldable pub snapshots : Snapshots
unfolding store rows
snapshots = record {
  at_lifecycle = store;
  at_key = store;
  at_watermark = store;
  preliminary_rows = rows;
  rows = rows;
  repository = some (record { branch = some "main"; head_sha = "head"; clean = true });
  identity = record { from_origin = false; host = none; owner = none; name = "threadloop" };
  plan_time = "t0";
}

abbrev pub request : TransitionSessionInput
request = record {
  session_id = "S";
  target_state = pre_pr_reviewing;
  expected_state_version = 0;
  actor = cli;
  input = end;
  idempotency_key = "k1";
}
