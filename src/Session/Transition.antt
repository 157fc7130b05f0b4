-- ===== src/Session/Transition.antt =====
-- `transitionSession` of src/services/session-service.ts, with `readSessionLifecycleReadOnly` of
-- src/adapters/fs/sqlite-store.ts: the evidence is read first, in snapshots of its own, and the
-- transition is then applied in one write transaction.
pub mod Run
pub mod Reading
pub mod Gathered
pub mod Proven
pub mod Edges
pub mod Denies
pub mod Observed
pub mod Applied
pub mod Worked
use threadloop.Base.{
  ℕ, String, Option, none, some, Bool, true, false, not, ◌&&◌, List, [], ◌∷◌, map, find,
  if◌then◌else◌, ◌==◌, is_some, or_else, nat_eq, ◌>>=◌ as ◌>>=?◌,
}
use threadloop.Task.{
  TaskStatus, framed, proof_ready, EntrySource, LifecyclePhase, pre_pr, status_eq,
}
use threadloop.Json.{Value, Fields, end, get, as_object}
use threadloop.Lifecycle.{derive_lifecycle_phase}
use threadloop.Proof.{BoundProofPlan}
use threadloop.Transition.{
  TransitionGuardRequirement, review, TransitionGuardDecision, ProofGuardContext,
}
use threadloop.Transition.Guards.{
  evaluate_transition_guards, get_transition_guard_requirement, requires_proof_guard_context,
}
use threadloop.Transition.Request.{
  TransitionRequest, CanonicalTransitionRequest, canonicalize_transition_request,
}
use threadloop.Store.{
  Engine, TransitionSessionRow, TransitionRow, SessionTransitionResult, SessionStore, Fault,
  audit_chain_corrupted, history_corrupted, evidence_changed, invalid_state, Action, return, throw,
  is_corrupted,
}
use threadloop.Store.History.{HistoryAuthority, assert_session_transition_history_authority}
use threadloop.Store.Ledger.{EvidenceWatermark, read_evidence_watermark}
use threadloop.Store.Rejection.{PersistInput, Fresh, has_key}
use threadloop.Store.Apply.{GuardEvaluator, apply_session_transition}
use threadloop.Session.{ProofRows, ProofState, Readers, ProofRepository}
use threadloop.Session.Files.{Files}
use threadloop.Session.Proof.{evaluate_session_proof}
use threadloop.Session.Basis.{HistoryEntry, Git}
use threadloop.Session.Basis.Context.{ci_proof_status, build_proof_guard_context}
use threadloop.Session.Prepare.{
  Identity, Preparation, prepared, baseline_rejected, invalid_proof_plan, unreadable_repository,
  prepare_bound_proof_plan,
}

-- `TransitionSessionInput`, whose input is an object.
pub record TransitionSessionInput : Type 0 where
  pub session_id : String
  pub target_state : TaskStatus
  pub expected_state_version : ℕ
  pub actor : EntrySource
  pub input : Fields
  pub idempotency_key : String

-- What a call throws: `INVALID_ARGUMENT`, `STATE_BUSY` for evidence that changed, the mapped audit
-- corruption, an error of git or of the file system, and the store's other errors as they are.
pub data SessionError : Type 0 where
  invalid_argument state_busy audit_corrupted outside_failed : SessionError
  store_failed : Fault → SessionError

pub data Attempt {ℓ} (A : Type ℓ) : Type ℓ where
  done : A → Attempt A
  fails : SessionError → Attempt A

infixl 8 ◌>>=◌
abbrev pub ◌>>=◌ {ℓ κ} : {A : Type ℓ} {B : Type κ} → Attempt A → (A → Attempt B) → Attempt B
done a >>= f = f a
fails e >>= f = fails e

-- The `catch` of `transitionSession`.
unfoldable pub mapped : Fault → SessionError
mapped (audit_chain_corrupted code) = audit_corrupted
mapped evidence_changed = state_busy
mapped fault = store_failed fault

unfoldable pub caught : {A : Type 0} → Action A → Attempt A
unfolding mapped
caught (return a) = done a
caught (throw fault) = fails (mapped fault)

abbrev pub or_fail : {A : Type 0} → Option A → Attempt A
or_fail none = fails outside_failed
or_fail (some a) = done a

-- What a call reads before it writes, each read in a snapshot of its own. The fields are independent
-- of each other; that the code reads `rows` behind `at_watermark` is not expressed.
pub record Snapshots : Type 0 where
  pub at_lifecycle : SessionStore
  pub at_key : SessionStore
  pub at_watermark : SessionStore
  pub preliminary_rows : ProofRows
  pub rows : ProofRows
  pub repository : Option ProofRepository
  pub identity : Identity
  pub plan_time : String

-- The fields of the lifecycle that the call reads.
pub record SessionLifecycle : Type 0 where
  pub state : TaskStatus
  pub state_version : ℕ
  pub genesis_state : TaskStatus
  pub history : List TransitionRow

unfoldable pub read_session_lifecycle : Engine → SessionStore → Action (Option SessionLifecycle)
read_session_lifecycle engine s = elim s.current [
  | none ↦ return none
  | some current ↦
      if is_corrupted current
      then throw invalid_state
      else elim (assert_session_transition_history_authority engine s) [
        | throw fault ↦ throw fault
        | return authority ↦ return (
            some (record {
              state = current.status;
              state_version = current.state_version;
              genesis_state = authority.genesis_state;
              history = authority.history;
            }))
      ]
]

-- An object, or else no properties.
unfoldable pub fields_of : Option Value → Fields
unfolding as_object
fields_of value = or_else (as_object value) end

unfoldable pub history_entry : Engine → TransitionRow → HistoryEntry
unfolding fields_of
history_entry engine row = record {
  from_state = row.from_state;
  to_state = row.to_state;
  from_state_version = row.from_state_version;
  input = fields_of (engine.parse row.input_json);
}

abbrev pub empty_context : ProofGuardContext
empty_context = record {
  bound_plan = none;
  plan = none;
  evidence = none;
  ci_evidence = none;
  review_evidence = none;
  phase = none;
  implementation_basis = none;
  repository = none;
  attempts_used = none;
}

-- The guards of the call, the plan to bind, and the watermark that the evidence was read under.
pub record GuardInputs : Type 0 where
  pub evaluate_guards : GuardEvaluator
  pub bound_proof_plan : Option BoundProofPlan
  pub evidence_watermark : Option EvidenceWatermark

abbrev pub guards_in : ProofGuardContext → GuardEvaluator
guards_in ctx source target input prior = evaluate_transition_guards source target input prior ctx

abbrev pub without_evidence : GuardInputs
without_evidence = record {
  evaluate_guards = guards_in empty_context;
  bound_proof_plan = none;
  evidence_watermark = none;
}

unfoldable pub prepared_inputs : Preparation → Attempt GuardInputs
prepared_inputs (prepared plan) = done (record {
  evaluate_guards = guards_in (record empty_context { bound_plan = some plan });
  bound_proof_plan = some plan;
  evidence_watermark = none;
})
prepared_inputs (baseline_rejected decision) = done (record {
  evaluate_guards = λ source target input prior. decision;
  bound_proof_plan = none;
  evidence_watermark = none;
})
prepared_inputs invalid_proof_plan = fails invalid_argument
prepared_inputs unreadable_repository = fails outside_failed

unfoldable pub is_review_requirement : TransitionGuardRequirement → Bool
is_review_requirement review = true
is_review_requirement _ = false
