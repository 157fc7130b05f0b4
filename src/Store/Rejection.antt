-- ===== src/Store/Rejection.antt =====
-- What `applySessionTransition` of src/adapters/fs/sqlite-store.ts records of a rejected request and
-- of a key that was used before. An error is recorded by its code: its message and details are
-- prose for the operator.
use threadloop.Base.{
  ℕ, String, Option, none, some, Bool, false, ◌&&◌, [], ◌∷◌, ◌++◌, if◌then◌else◌, ◌==◌, find,
  nat_eq, string_eq,
}
use threadloop.Task.{TaskStatus, EntrySource, status_eq}
use threadloop.Json.{boolean, text, object, Fields, end, field}
use threadloop.Proof.{BoundProofPlan}
use threadloop.Transition.Request.{status_text}
use threadloop.Audit.{guard_decision}
use threadloop.Store.{
  Engine, TransitionSessionRow, TransitionError, idempotency_conflict, SessionTransitionResult,
  failed, IdempotencyRow, SessionStore, Action, return, ◌>>=◌,
}
use threadloop.Store.History.{assert_session_transition_history_authority}
use threadloop.Store.Ledger.{append_audit_event, error_text, EvidenceWatermark}

-- `PersistSessionTransitionInput`, without the session's id.
pub record PersistInput : Type 0 where
  pub target_state : TaskStatus
  pub expected_state_version : ℕ
  pub actor : EntrySource
  pub canonical_input : Fields
  pub request_json : String
  pub request_sha256 : String
  pub idempotency_key : String
  pub bound_proof_plan : Option BoundProofPlan
  pub evidence_watermark : Option EvidenceWatermark

-- The clock, and the ids that `createId` makes during the call.
pub record Fresh : Type 0 where
  pub now : String
  pub transition_id : String
  pub decision_id : String
  pub applied_id : String

module _ (engine : Engine) (fresh : Fresh) (input : PersistInput) where
  rejection_payload : TransitionSessionRow → TransitionError → Fields
  rejection_payload current error = field "idempotency_key" (text input.idempotency_key) (
      field "request_sha256" (text input.request_sha256) (
        field "from_state" (text (status_text current.status)) (
          field "target_state" (text (status_text input.target_state)) (
            field "allowed" (boolean false)
              (field "error" (object (field "code" (text (error_text error)) end)) end)))))

  unfoldable pub append_rejection :
      TransitionError → Option TransitionSessionRow → SessionStore → Action SessionStore
  unfolding rejection_payload
  append_rejection error none s = return s
  append_rejection error (some current) s =
      append_audit_event engine
        (record {
          id = fresh.decision_id;
          event_type = guard_decision;
          state_version = current.state_version;
          recorded_at = fresh.now;
          payload = rejection_payload current error;
        })
        s

  -- `appendRejectedGuardDecision`
  abbrev pub append_rejected_guard_decision : TransitionError → SessionStore → Action SessionStore
  append_rejected_guard_decision error s = append_rejection error s.current s

  abbrev pub idempotency_row : SessionTransitionResult → IdempotencyRow
  idempotency_row result = record {
    idempotency_key = input.idempotency_key;
    request_json = input.request_json;
    request_sha256 = input.request_sha256;
    result = result;
  }

  -- `persistTransitionIdempotency`
  abbrev pub persist_transition_idempotency : SessionTransitionResult → SessionStore → SessionStore
  persist_transition_idempotency result s = record s {
    idempotency = s.idempotency ++ idempotency_row result ∷ [];
  }

  -- `persistRejectedTransition`
  unfoldable pub persist_rejected_transition :
      TransitionError → SessionStore → Action (SessionTransitionResult × SessionStore)
  persist_rejected_transition error s = do
    t ← append_rejected_guard_decision error (persist_transition_idempotency (failed error) s)
    return (failed error, t)

  abbrev pub is_same_request : IdempotencyRow → Bool
  is_same_request row =
      row.request_sha256 == input.request_sha256 && row.request_json == input.request_json

  abbrev pub has_key : IdempotencyRow → Bool
  has_key row = row.idempotency_key == input.idempotency_key

  -- The key was used before: the stored result, or the conflict of a different request.
  unfoldable pub replay :
      IdempotencyRow → SessionStore → Action (SessionTransitionResult × SessionStore)
  replay existing s = do
    authority ← assert_session_transition_history_authority engine s
    if is_same_request existing
        then return (existing.result, s)
        else elim (find (λ row. has_key row && is_same_request row) s.conflicts) [
          | some prior ↦ return (prior.result, s)
          | none ↦ do
            let error = idempotency_conflict existing.request_sha256
            t ←
                append_rejected_guard_decision error
                  (record s { conflicts = s.conflicts ++ idempotency_row (failed error) ∷ [] })
            return (failed error, t)
        ]
