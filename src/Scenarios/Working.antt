-- ===== src/Scenarios/Working.antt =====
-- A session in implementation, with a commit on top of the baseline of its plan.
use threadloop.Base.{String, none, some, true, [], ◌∷◌}
use threadloop.Task.{implementing, verifying}
use threadloop.Json.{text, end, field}
use threadloop.Json.Canonical.{canonical_json}
use threadloop.Audit.{
  AuditEventValue, StoredAuditEvent, session_started, zero_audit_hash, event_json, event_object,
}
use threadloop.Store.{SessionStore}
use threadloop.Session.{ProofRows}
use threadloop.Session.Basis.{Git}
use threadloop.Session.Transition.{TransitionSessionInput, Snapshots}
use threadloop.Scenarios.Engine.{writer, checksum, engine}
use threadloop.Scenarios.Handover

abbrev genesis_value : AuditEventValue
genesis_value = record {
  id = "audit_1";
  session_id = "S";
  sequence = 1;
  event_type = session_started;
  recorded_at = "t0";
  state_version = 0;
  previous_sha256 = zero_audit_hash;
  payload = field "lifecycle_state" (text "implementing") (field "task_id" (text "T") end);
}

genesis : StoredAuditEvent
unfolding event_json event_object canonical_json writer checksum engine
genesis = record {
  value = genesis_value;
  json = event_json writer genesis_value;
  sha256 = checksum (event_json writer genesis_value);
}

unfoldable pub store : SessionStore
unfolding genesis
store = record {
  session_id = "S";
  task_id = "T";
  current = some (record {
    ended_at = none;
    status = implementing;
    state_version = 0;
    blocked_from_state = none;
  });
  transitions = [];
  idempotency = [];
  conflicts = [];
  proof_plan = none;
  gate_sequences = 7 ∷ 4 ∷ [];
  signed_gate_sequences = 2 ∷ [];
  signed_review_sequences = [];
  audit_events = genesis ∷ [];
}

abbrev base_commit : String
base_commit = "bbbbbbbbbbbbbbbbbbbbbbbbbbbbbbbbbbbbbbbb"

abbrev work_commit : String
work_commit = "cccccccccccccccccccccccccccccccccccccccc"

abbrev pub git : Git
git = record {
  merge_base_is_ancestor = λ from_head to_head. some 0;
  diff_quiet = λ from_head to_head. some 1;
}

unfoldable pub rows : ProofRows
unfolding Handover.rows
rows = record Handover.rows {
  plan = some (record {
    json = "''";
    sha256 = "plan_hash";
    baseline_branch = "main";
    baseline_head_sha = base_commit;
    created_at = "t0";
  });
}

unfoldable pub snapshots : Snapshots
unfolding Handover.snapshots store rows
snapshots = record Handover.snapshots {
  at_lifecycle = store;
  at_key = store;
  at_watermark = store;
  preliminary_rows = rows;
  rows = rows;
  repository = some (record { branch = some "main"; head_sha = work_commit; clean = true });
}

abbrev pub request : TransitionSessionInput
request = record Handover.request { target_state = verifying }
