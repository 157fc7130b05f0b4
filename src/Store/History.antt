-- ===== src/Store/History.antt =====
-- `assertSessionTransitionHistoryAuthority` and `readSessionAuditGenesis`: the stored transitions
-- against their requests, against the audit chain and against the current lifecycle row.
pub mod Rows
pub mod Coverage
pub mod Authoritative
pub mod Extends
pub mod Recorded
use threadloop.Base.{
  ℕ, ◌+◌, String, Option, none, some, Bool, true, false, not, ◌&&◌, List, [], ◌∷◌, if◌then◌else◌,
  ◌==◌, leb, length, reverse, select, find, get_last?, head?, is_empty, all, nat_eq, string_eq,
  option_eq,
}
use threadloop.Task.{TaskStatus, status_eq}
use threadloop.Json.{Value, get, as_text}
use threadloop.Transition.Request.{status_text, read_status, canonicalize_transition_request}
use threadloop.Audit.{
  StoredAuditEvent, AuditEventValue, AuditEventType, AuditError, session_started, audit_activated,
  transition_applied, verify_audit_chain, sequence_mismatch, hash_mismatch,
  AuditVerificationErrorCode, max_safe_integer,
}
use threadloop.Store.{
  Engine, TransitionSessionRow, TransitionRow, SessionStore, Fault, audit_chain_corrupted,
  history_corrupted, invalid_state, Action, return, throw, ◌>>=◌, ◌>>◌, require,
}

error_code : Option AuditError → AuditVerificationErrorCode
error_code none = hash_mismatch
error_code (some e) = e.code

unfoldable pub read_verified_audit_events :
    Engine → List StoredAuditEvent → Action (List StoredAuditEvent)
unfolding error_code
read_verified_audit_events engine events = do
  require (not (is_empty events)) (audit_chain_corrupted sequence_mismatch)
  let v = verify_audit_chain engine.stringify engine.digest events none
  require v.valid (audit_chain_corrupted (error_code v.error))
  return events

pub record Genesis : Type 0 where
  pub event : AuditEventValue
  pub floor : ℕ
  pub state : TaskStatus

-- `payload.key === text` and `payload.key === number`.
abbrev holds_text : Option Value → String → Bool
holds_text (some (Value.text s)) t = s == t
holds_text _ t = false

abbrev holds_number : Option Value → ℕ → Bool
holds_number (some (Value.number n)) m = n == m
holds_number _ m = false

-- The floor and the property that holds the lifecycle state.
abbrev boundary : AuditEventType → AuditEventValue → Option (ℕ × String)
boundary session_started event = some (0, "lifecycle_state")
boundary audit_activated event =
    if holds_text (get "coverage" event.payload) "schema_v6_forward"
    then some (event.state_version, "lifecycle_state_at_activation")
    else none
boundary _ event = none

abbrev or_throw {ℓ} : {A : Type ℓ} → Option A → Fault → Action A
or_throw none e = throw e
or_throw (some a) e = return a

abbrev named_status : Option String → Option TaskStatus
named_status none = none
named_status (some s) = read_status s

unfoldable pub read_session_audit_genesis : List StoredAuditEvent → Action Genesis
read_session_audit_genesis events = do
  first ← or_throw (head? events) history_corrupted
  limits ← or_throw (boundary first.value.event_type first.value) history_corrupted
  state ← or_throw (named_status (as_text (get limits.1 first.value.payload))) history_corrupted
  return (record { event = first.value; floor = limits.0; state = state })

-- The lifecycle fields of a row, and its continuation of the row before it.
unfoldable pub row_is_valid : TransitionRow → Bool
row_is_valid row =
    leb row.from_state_version max_safe_integer
    && row.to_state_version == row.from_state_version + 1

unfoldable pub row_continues : Option TransitionRow → TransitionRow → Bool
row_continues none row = true
row_continues (some previous) row =
    row.from_state_version == previous.to_state_version && row.from_state == previous.to_state

-- The request that a row records is the one that it was made from.
unfoldable pub row_is_bound : Engine → String → TransitionRow → Value → Bool
row_is_bound engine session_id row input =
    let request = canonicalize_transition_request engine.stringify engine.digest (record {
      session_id = session_id;
      target_state = row.to_state;
      expected_state_version = row.from_state_version;
      actor = row.actor;
      input = input;
    }) in
    request.request_sha256 == row.request_sha256
    && engine.stringify request.canonical_input == row.input_json

-- The loop over the rows.
unfoldable pub check_rows :
    Engine → String → Option TransitionRow → List TransitionRow → Action (Unit {0})
check_rows engine session_id previous [] = return tt
check_rows engine session_id previous (row ∷ rows) = do
  require (row_is_valid row) history_corrupted
  require (row_continues previous row) history_corrupted
  input ← or_throw (engine.parse row.input_json) invalid_state
  require (row_is_bound engine session_id row input) history_corrupted
  check_rows engine session_id (some row) rows

-- An applied event against the row that it names.
unfoldable pub event_matches_row : AuditEventValue → TransitionRow → Bool
event_matches_row event row =
    event.state_version == row.to_state_version
    && holds_text (get "request_sha256" event.payload) row.request_sha256
    && holds_text (get "from_state" event.payload) (status_text row.from_state)
    && holds_text (get "to_state" event.payload) (status_text row.to_state)
    && holds_number (get "from_state_version" event.payload) row.from_state_version
    && holds_number (get "to_state_version" event.payload) row.to_state_version

abbrev named_row : List TransitionRow → Option String → Option TransitionRow
named_row rows none = none
named_row rows (some id) = find (λ row. row.id == id) (reverse rows)

abbrev matches_row : AuditEventValue → Option TransitionRow → Bool
matches_row event none = false
matches_row event (some row) = event_matches_row event row

unfoldable pub event_is_covered : List TransitionRow → StoredAuditEvent → Bool
event_is_covered rows event =
    matches_row event.value (named_row rows (as_text (get "transition_id" event.value.payload)))

abbrev pub is_applied : AuditEventType → Bool
is_applied transition_applied = true
is_applied _ = false

unfoldable pub applied_events : List StoredAuditEvent → List StoredAuditEvent
applied_events = select (λ event. is_applied event.value.event_type)

-- The first authoritative row continues from the genesis state.
abbrev starts_at_genesis : Genesis → Option TransitionRow → Bool
starts_at_genesis genesis none = true
starts_at_genesis genesis (some row) =
    row.from_state_version == genesis.floor && row.from_state == genesis.state

abbrev genesis_owns_task : Genesis → String → AuditEventType → Bool
genesis_owns_task genesis task_id session_started =
    holds_text (get "task_id" genesis.event.payload) task_id && genesis.event.state_version == 0
genesis_owns_task genesis task_id _ = true

-- The lifecycle row against the latest transition, or against the genesis where there is none.
abbrev pub projects : Genesis → String → TransitionSessionRow → Option TransitionRow → Bool
projects genesis task_id current (some latest) =
    latest.task_id == task_id
    && latest.to_state == current.status
    && latest.to_state_version == current.state_version
projects genesis task_id current none =
    current.state_version == genesis.floor && current.status == genesis.state

-- A history that ends below the floor ends at the activation state.
abbrev legacy_matches : Genesis → Option TransitionRow → Option TransitionRow → Bool
legacy_matches genesis none (some latest) =
    latest.to_state_version == genesis.floor && latest.to_state == genesis.state
legacy_matches genesis _ _ = true

pub record HistoryAuthority : Type 0 where
  pub history : List TransitionRow
  pub genesis_state : TaskStatus

unfoldable pub assert_session_transition_history_authority :
    Engine → SessionStore → Action HistoryAuthority
assert_session_transition_history_authority engine s = do
  check_rows engine s.session_id none s.transitions
  events ← read_verified_audit_events engine s.audit_events
  genesis ← read_session_audit_genesis events
  let rows = select (λ row. leb genesis.floor row.from_state_version) s.transitions
  require (starts_at_genesis genesis (head? rows)) history_corrupted
  require (length (applied_events events) == length rows) history_corrupted
  require (all (event_is_covered rows) (applied_events events)) history_corrupted
  current ← or_throw s.current history_corrupted
  require (genesis_owns_task genesis s.task_id genesis.event.event_type) history_corrupted
  require (projects genesis s.task_id current (get_last? s.transitions)) history_corrupted
  require (legacy_matches genesis (head? rows) (get_last? s.transitions)) history_corrupted
  return (record { history = s.transitions; genesis_state = genesis.state })
