-- ===== src/Scenarios/Session.antt =====
-- A session that is framed, asked again, and refused, as the runs of the call compute it.
use threadloop.Base.{ℕ, String, Option, none, some, [], ◌∷◌, or_else, is_hex_of_length}
use threadloop.Task.{queued, framed, cli}
use threadloop.Json.{object, text, end, field, get, as_object, as_text}
use threadloop.Json.Canonical.{canonical_json}
use threadloop.Transition.Guards.{evaluate_transition_guards, get_transition_guard_requirement}
use threadloop.Transition.Input.{
  validate_transition_evidence, read_pre_pr_review_evidence, requires_pre_pr_review,
}
use threadloop.Transition.Plan.{no_context}
use threadloop.Transition.Request.{
  TransitionRequest, CanonicalTransitionRequest, canonicalize_transition_request, request_object,
  read_status,
}
use threadloop.Lifecycle.{
  evaluate_lifecycle_transition, derive_lifecycle_phase, is_forward_lifecycle_transition,
}
use threadloop.Audit.{
  AuditEventValue, StoredAuditEvent, session_started, zero_audit_hash, event_json, event_object,
  verify_audit_chain, verify_events, check_event, conclude, create_audit_event,
}
use threadloop.Store.{
  AppliedTransition, SessionTransitionResult, applied, failed, SessionStore, Action, return, throw,
  is_corrupted,
}
use threadloop.Store.History.{
  assert_session_transition_history_authority, read_verified_audit_events,
  read_session_audit_genesis, check_rows, row_is_valid, row_continues, row_is_bound,
  event_matches_row, event_is_covered, applied_events,
}
use threadloop.Store.Ledger.{
  append_audit_event, event_collides, read_evidence_watermark, is_same_watermark,
}
use threadloop.Store.Rejection.{
  PersistInput, Fresh, persist_rejected_transition, append_rejection, replay,
}
use threadloop.Store.Apply.{
  GuardEvaluator, apply_session_transition, first_use, decide, accept, persist_proof_plan,
  append_applied_events, decision_payload, applied_payload,
}
use threadloop.Scenarios.Engine.{writer, checksum, engine}

abbrev genesis_value : AuditEventValue
genesis_value = record {
  id = "audit_1";
  session_id = "S";
  sequence = 1;
  event_type = session_started;
  recorded_at = "t0";
  state_version = 0;
  previous_sha256 = zero_audit_hash;
  payload = field "lifecycle_state" (text "queued") (field "task_id" (text "T") end);
}

genesis : StoredAuditEvent
unfolding event_json event_object canonical_json writer checksum engine
genesis = record {
  value = genesis_value;
  json = event_json writer genesis_value;
  sha256 = checksum (event_json writer genesis_value);
}

unfoldable pub start : SessionStore
unfolding genesis
start = record {
  session_id = "S";
  task_id = "T";
  current =
      some
        (record { ended_at = none; status = queued; state_version = 0; blocked_from_state = none });
  transitions = [];
  idempotency = [];
  conflicts = [];
  proof_plan = none;
  gate_sequences = 3 ∷ [];
  signed_gate_sequences = [];
  signed_review_sequences = [];
  audit_events = genesis ∷ [];
}

abbrev request : ℕ → TransitionRequest
request version = record {
  session_id = "S";
  target_state = framed;
  expected_state_version = version;
  actor = cli;
  input = object end;
}

canonical : ℕ → CanonicalTransitionRequest
unfolding canonicalize_transition_request request_object writer checksum
canonical version = canonicalize_transition_request writer checksum (request version)

-- queued to framed, with the receipts that were seen.
unfoldable pub ask : ℕ → String → PersistInput
unfolding canonical
ask version key = record {
  target_state = framed;
  expected_state_version = version;
  actor = cli;
  canonical_input = end;
  request_json = (canonical version).request_json;
  request_sha256 = (canonical version).request_sha256;
  idempotency_key = key;
  bound_proof_plan = none;
  evidence_watermark = some (record { gate = 3; signed_gate = 0; signed_review = 0 });
}

abbrev pub first : Fresh
first = record {
  now = "t1";
  transition_id = "transition_1";
  decision_id = "audit_2";
  applied_id = "audit_3";
}

abbrev pub second : Fresh
second = record {
  now = "t2";
  transition_id = "transition_2";
  decision_id = "audit_4";
  applied_id = "audit_5";
}

abbrev pub guards : GuardEvaluator
guards source target input prior = evaluate_transition_guards source target input prior no_context

-- Everything that a run computes with.
unfoldable pub run :
    Fresh → PersistInput → SessionStore → Action (SessionTransitionResult × SessionStore)
unfolding apply_session_transition first_use decide accept persist_proof_plan append_applied_events
    decision_payload applied_payload persist_rejected_transition append_rejection replay
    append_audit_event event_collides read_evidence_watermark is_same_watermark
    assert_session_transition_history_authority read_verified_audit_events
    read_session_audit_genesis check_rows row_is_valid row_continues row_is_bound event_matches_row
    event_is_covered applied_events is_corrupted evaluate_lifecycle_transition
    derive_lifecycle_phase is_forward_lifecycle_transition evaluate_transition_guards
    get_transition_guard_requirement validate_transition_evidence read_pre_pr_review_evidence
    requires_pre_pr_review create_audit_event verify_audit_chain verify_events check_event conclude
    event_json event_object canonical_json get as_text read_status canonicalize_transition_request
    request_object engine start ask as_object is_hex_of_length
run fresh input s = apply_session_transition engine fresh input guards s

unfoldable pub store_of : Action (SessionTransitionResult × SessionStore) → SessionStore
unfolding start
store_of (return (result, t)) = t
store_of (throw e) = start

report_of : SessionTransitionResult → Option AppliedTransition
report_of (applied a) = some a
report_of (failed e) = none

nothing_applied : AppliedTransition
unfolding ask
nothing_applied = record {
  transition = record {
    id = "";
    task_id = "";
    from_state = queued;
    to_state = queued;
    from_state_version = 0;
    to_state_version = 0;
    actor = cli;
    input_json = "";
    request_sha256 = "";
    created_at = "";
  };
  lifecycle = record {
    ended_at = none;
    status = queued;
    state_version = 0;
    blocked_from_state = none;
  };
  idempotency_key = "";
  proof_plan = none;
}

unfoldable pub report : Action (SessionTransitionResult × SessionStore) → AppliedTransition
unfolding report_of nothing_applied
report (return (result, t)) = or_else (report_of result) nothing_applied
report (throw e) = nothing_applied

-- The store after the session is framed.
unfoldable pub framed_store : SessionStore
unfolding run store_of
framed_store = store_of (run first (ask 0 "k1") start)

unfoldable pub framing : AppliedTransition
unfolding run report
framing = report (run first (ask 0 "k1") start)

-- The same version again, under a new key.
unfoldable pub refused_store : SessionStore
unfolding run store_of framed_store
refused_store = store_of (run second (ask 0 "k2") framed_store)
