-- ===== src/Store/Ledger.antt =====
-- `appendAuditEvent`, `appendRejectedGuardDecision` and the evidence watermark.
use threadloop.Base.{
  ℕ, ◌+◌, String, Option, none, some, Bool, not, ◌&&◌, ◌||◌, List, [], ◌∷◌, ◌++◌, if◌then◌else◌,
  ◌==◌, any, get_last?, nat_eq, string_eq, leb,
}
use threadloop.Json.{Fields}
use threadloop.Audit.{
  StoredAuditEvent, AuditEventValue, AuditEventType, zero_audit_hash, create_audit_event,
  verify_audit_event_integrity, AuditVerificationErrorCode,
}
use threadloop.Store.{
  Engine, SessionStore, TransitionError, idempotency_conflict, session_not_found, state_corrupted,
  state_version_conflict, transition_not_allowed, transition_guard_failed, audit_chain_corrupted,
  invalid_audit_event, immutable_row_conflict, Action, return, throw, ◌>>=◌, ◌>>◌, require,
}

-- What an event records, with the id that `createId('audit')` made for it.
pub record AuditDraft : Type 0 where
  pub id : String
  pub event_type : AuditEventType
  pub state_version : ℕ
  pub recorded_at : String
  pub payload : Fields

abbrev pub tail_error : Engine → Option StoredAuditEvent → Option AuditVerificationErrorCode
tail_error engine none = none
tail_error engine (some event) = verify_audit_event_integrity engine.stringify engine.digest event

abbrev pub next_value : SessionStore → AuditDraft → Option StoredAuditEvent → AuditEventValue
next_value s draft none = record {
  id = draft.id;
  session_id = s.session_id;
  sequence = 1;
  event_type = draft.event_type;
  recorded_at = draft.recorded_at;
  state_version = draft.state_version;
  previous_sha256 = zero_audit_hash;
  payload = draft.payload;
}
next_value s draft (some previous) = record {
  id = draft.id;
  session_id = s.session_id;
  sequence = previous.value.sequence + 1;
  event_type = draft.event_type;
  recorded_at = draft.recorded_at;
  state_version = draft.state_version;
  previous_sha256 = previous.sha256;
  payload = draft.payload;
}

-- The insert guard of `audit_events`.
unfoldable pub event_collides : StoredAuditEvent → StoredAuditEvent → Bool
event_collides event row =
    row.value.id == event.value.id
    || row.value.sequence == event.value.sequence
    || row.sha256 == event.sha256

abbrev pub checked_tail : Option AuditVerificationErrorCode → Action (Unit {0})
checked_tail none = return tt
checked_tail (some code) = throw (audit_chain_corrupted code)

abbrev pub created : Option StoredAuditEvent → Action StoredAuditEvent
created none = throw invalid_audit_event
created (some event) = return event

unfoldable pub append_audit_event : Engine → AuditDraft → SessionStore → Action SessionStore
append_audit_event engine draft s = do
  let previous = get_last? s.audit_events
  checked_tail (tail_error engine previous)
  event ← created (create_audit_event engine.stringify engine.digest (next_value s draft previous))
  require (not (any (event_collides event) s.audit_events)) immutable_row_conflict
  return (record s { audit_events = s.audit_events ++ event ∷ [] })

-- The `code` of a failed result.
abbrev pub error_text : TransitionError → String
error_text (idempotency_conflict _) = "IDEMPOTENCY_CONFLICT"
error_text session_not_found = "SESSION_NOT_FOUND"
error_text state_corrupted = "STATE_CORRUPTED"
error_text (state_version_conflict _) = "STATE_VERSION_CONFLICT"
error_text (transition_not_allowed _) = "TRANSITION_NOT_ALLOWED"
error_text (transition_guard_failed _ _) = "TRANSITION_GUARD_FAILED"

-- `coalesce(max(sequence), 0)`
abbrev greatest : List ℕ → ℕ
greatest [] = 0
greatest (n ∷ ns) = let m = greatest ns in if leb n m then m else n

-- `readEvidenceWatermark`, whose text is the three numbers.
pub record EvidenceWatermark : Type 0 where
  pub gate : ℕ
  pub signed_gate : ℕ
  pub signed_review : ℕ

unfoldable pub read_evidence_watermark : SessionStore → EvidenceWatermark
read_evidence_watermark s = record {
  gate = greatest s.gate_sequences;
  signed_gate = greatest s.signed_gate_sequences;
  signed_review = greatest s.signed_review_sequences;
}

unfoldable pub is_same_watermark : EvidenceWatermark → EvidenceWatermark → Bool
is_same_watermark a b =
    a.gate == b.gate && a.signed_gate == b.signed_gate && a.signed_review == b.signed_review
