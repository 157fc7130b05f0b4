-- ===== src/Store.antt =====
-- The rows of src/adapters/fs/sqlite-store.ts that one session owns, and the errors that its
-- operations throw. Every statement of these operations selects by the session's id, so the model
-- is the projection of the database to one session; a table is the list of its rows, oldest first.
pub mod History
pub mod Ledger
pub mod Rejection
pub mod Apply
pub mod Steps
pub mod Outcome
pub mod Calls
use threadloop.Base.{
  ℕ, String, Option, none, some, Bool, true, false, not, ◌&&◌, ◌||◌, List, [], ◌∷◌, ◌++◌,
  if◌then◌else◌, ◌==◌, leb, is_some, bool_eq,
}
use threadloop.Task.{TaskStatus, blocked, completed, EntrySource, status_eq}
use threadloop.Json.{Value, Fields}
use threadloop.Lifecycle.{LifecycleDecisionCode}
use threadloop.Proof.{BoundProofPlan}
use threadloop.Transition.{TransitionGuardFailure, TransitionRequiredWork}
use threadloop.Audit.{StoredAuditEvent, AuditVerificationErrorCode, max_safe_integer}

-- The engine's `JSON.stringify` and `JSON.parse`, and `sha256`.
pub record Engine : Type 0 where
  pub stringify : Value → String
  pub parse : String → Option Value
  pub digest : String → String

-- `TransitionSessionRow`, without its ids.
pub record TransitionSessionRow : Type 0 where
  pub ended_at : Option String
  pub status : TaskStatus
  pub state_version : ℕ
  pub blocked_from_state : Option TaskStatus

-- `SessionTransitionAuthorityRow`
pub record TransitionRow : Type 0 where
  pub id : String
  pub task_id : String
  pub from_state : TaskStatus
  pub to_state : TaskStatus
  pub from_state_version : ℕ
  pub to_state_version : ℕ
  pub actor : EntrySource
  pub input_json : String
  pub request_sha256 : String
  pub created_at : String

-- The `error` of a failed result, by its code.
pub data TransitionError : Type 0 where
  idempotency_conflict : String → TransitionError
  session_not_found state_corrupted : TransitionError
  state_version_conflict : ℕ → TransitionError
  transition_not_allowed : LifecycleDecisionCode → TransitionError
  transition_guard_failed :
      List TransitionGuardFailure → List TransitionRequiredWork → TransitionError

pub record AppliedTransition : Type 0 where
  pub transition : TransitionRow
  pub lifecycle : TransitionSessionRow
  pub idempotency_key : String
  pub proof_plan : Option BoundProofPlan

pub data SessionTransitionResult : Type 0 where
  applied : AppliedTransition → SessionTransitionResult
  failed : TransitionError → SessionTransitionResult

-- A row of `transition_idempotency` or of `transition_idempotency_conflicts`. The stored
-- `result_json` is read back as the result that was written.
pub record IdempotencyRow : Type 0 where
  pub idempotency_key : String
  pub request_json : String
  pub request_sha256 : String
  pub result : SessionTransitionResult

pub record SessionStore : Type 0 where
  pub session_id : String
  pub task_id : String
  pub current : Option TransitionSessionRow
  pub transitions : List TransitionRow
  pub idempotency : List IdempotencyRow
  pub conflicts : List IdempotencyRow
  pub proof_plan : Option BoundProofPlan
  pub gate_sequences : List ℕ
  pub signed_gate_sequences : List ℕ
  pub signed_review_sequences : List ℕ
  pub audit_events : List StoredAuditEvent

-- The errors that roll the transaction back.
pub data Fault : Type 0 where
  audit_chain_corrupted : AuditVerificationErrorCode → Fault
  history_corrupted evidence_changed compare_and_swap_failed : Fault
  misplaced_proof_plan immutable_row_conflict invalid_audit_event invalid_state : Fault

pub data Action {ℓ} (A : Type ℓ) : Type ℓ where
  return : A → Action A
  throw : Fault → Action A

infixl 8 ◌>>=◌ ◌>>◌
abbrev pub ◌>>=◌ {ℓ κ} : {A : Type ℓ} {B : Type κ} → Action A → (A → Action B) → Action B
return a >>= f = f a
throw e >>= f = throw e

abbrev pub ◌>>◌ {ℓ} : {B : Type ℓ} → Action (Unit {0}) → Action B → Action B
m >> k = m >>= λ _. k

-- Throws unless the test holds.
abbrev pub require : Bool → Fault → Action (Unit {0})
require true e = return tt
require false e = throw e

-- What the caller of `withWriteTransaction` gets back, and the store that it leaves: a throw rolls
-- back.
abbrev pub commit :
    {A : Type 0} → SessionStore → Action (A × SessionStore) → Action A × SessionStore
commit s (return (a, t)) = (return a, t)
commit s (throw e) = (throw e, s)

abbrev has_prior : Option TaskStatus → Bool
has_prior none = false
has_prior (some prior) = not (prior == blocked || prior == completed)

-- `detectTransitionStateCorruption(current) !== null`
unfoldable pub is_corrupted : TransitionSessionRow → Bool
is_corrupted current =
    not (leb current.state_version max_safe_integer)
    || current.status == blocked && not (has_prior current.blocked_from_state)
    || not (current.status == blocked) && is_some current.blocked_from_state
    || not ((current.status == completed) == is_some current.ended_at)
