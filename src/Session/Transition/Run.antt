-- ===== src/Session/Transition/Run.antt =====
-- `transitionSession` of src/services/session-service.ts: the context that is gathered for the
-- guards, and the call.
use threadloop.Base.{
  Option, none, some, Bool, ◌&&◌, map, find, if◌then◌else◌, ◌==◌, is_some, nat_eq,
}
use threadloop.Task.{framed, proof_ready, LifecyclePhase, status_eq}
use threadloop.Json.{Value, get}
use threadloop.Lifecycle.{derive_lifecycle_phase}
use threadloop.Transition.{ProofGuardContext}
use threadloop.Transition.Guards.{get_transition_guard_requirement, requires_proof_guard_context}
use threadloop.Transition.Request.{CanonicalTransitionRequest, canonicalize_transition_request}
use threadloop.Store.{Engine, SessionTransitionResult, SessionStore}
use threadloop.Store.Ledger.{read_evidence_watermark}
use threadloop.Store.Rejection.{PersistInput, Fresh, has_key}
use threadloop.Store.Apply.{apply_session_transition}
use threadloop.Session.{ProofState, Readers, ProofRepository}
use threadloop.Session.Files.{Files}
use threadloop.Session.Proof.{evaluate_session_proof}
use threadloop.Session.Basis.{Git}
use threadloop.Session.Basis.Context.{ci_proof_status, build_proof_guard_context}
use threadloop.Session.Prepare.{prepare_bound_proof_plan}
use threadloop.Session.Transition.{
  TransitionSessionInput, Attempt, done, ◌>>=◌, caught, or_fail, Snapshots, SessionLifecycle,
  read_session_lifecycle, fields_of, history_entry, empty_context, GuardInputs, guards_in,
  without_evidence, prepared_inputs, is_review_requirement,
}

module _ (engine : Engine) (readers : Readers) (files : Files) (git : Git) (snapshots : Snapshots)
    (request : TransitionSessionInput) where
  unfoldable pub session_phase : SessionLifecycle → LifecyclePhase
  unfolding derive_lifecycle_phase
  session_phase lifecycle =
      derive_lifecycle_phase (map (λ row. row.to_state) lifecycle.history)
        (some lifecycle.genesis_state)

  -- The context where the session has no plan that can be evaluated.
  unfoldable pub planless_context : ProofState → LifecyclePhase → ProofGuardContext
  unfolding ci_proof_status
  planless_context state phase = record empty_context {
    evidence = some state.evidence;
    ci_evidence = some (ci_proof_status state.ci_evidence.status);
    review_evidence = some state.review_evidence;
    attempts_used = some state.attempts_used;
    phase = some phase;
  }

  unfoldable pub observed_inputs : SessionLifecycle → ProofRepository → Attempt GuardInputs
  unfolding evaluate_session_proof build_proof_guard_context session_phase
  observed_inputs lifecycle repository = do
    ctx ← or_fail (
        build_proof_guard_context git
          (evaluate_session_proof readers files request.session_id (some repository.head_sha)
            snapshots.rows)
          repository (session_phase lifecycle) (map (history_entry engine) lifecycle.history))
    done (record {
      evaluate_guards = guards_in ctx;
      bound_proof_plan = none;
      evidence_watermark = some (read_evidence_watermark snapshots.at_watermark);
    })

  -- The evidence that is read under the watermark, in the live repository.
  unfoldable pub proof_inputs : SessionLifecycle → Attempt GuardInputs
  unfolding observed_inputs
  proof_inputs lifecycle = do
    repository ← or_fail snapshots.repository
    observed_inputs lifecycle repository

  unfoldable pub preliminary : ProofState
  preliminary =
      evaluate_session_proof readers files request.session_id none snapshots.preliminary_rows

  -- A session without a plan needs no repository.
  unfoldable pub review_inputs : SessionLifecycle → Attempt GuardInputs
  unfolding planless_context preliminary session_phase proof_inputs
  review_inputs lifecycle =
      if is_some preliminary.plan
      then proof_inputs lifecycle
      else done (record {
        evaluate_guards = guards_in (planless_context preliminary (session_phase lifecycle));
        bound_proof_plan = none;
        evidence_watermark = some (read_evidence_watermark snapshots.at_watermark);
      })

  abbrev pub plans_proof : SessionLifecycle → Bool
  plans_proof lifecycle =
      lifecycle.state == framed
      && lifecycle.state_version == request.expected_state_version
      && request.target_state == proof_ready

  unfoldable pub guard_inputs : Option SessionLifecycle → Attempt GuardInputs
  unfolding prepare_bound_proof_plan prepared_inputs review_inputs proof_inputs
  guard_inputs none = done without_evidence
  guard_inputs (some lifecycle) =
      if plans_proof lifecycle
      then prepared_inputs (
          prepare_bound_proof_plan readers files snapshots.identity snapshots.plan_time
            snapshots.repository (get "proof_plan" request.input))
      else if is_review_requirement
          (get_transition_guard_requirement lifecycle.state request.target_state)
      then review_inputs lifecycle
      else if requires_proof_guard_context lifecycle.state request.target_state
      then proof_inputs lifecycle
      else done without_evidence

  abbrev pub canonical_request : CanonicalTransitionRequest
  canonical_request = canonicalize_transition_request engine.stringify engine.digest (record {
    session_id = request.session_id;
    target_state = request.target_state;
    expected_state_version = request.expected_state_version;
    actor = request.actor;
    input = Value.object request.input;
  })

  abbrev pub persist_input : GuardInputs → PersistInput
  persist_input inputs = record {
    target_state = request.target_state;
    expected_state_version = request.expected_state_version;
    actor = request.actor;
    canonical_input = fields_of (some canonical_request.canonical_input);
    request_json = canonical_request.request_json;
    request_sha256 = canonical_request.request_sha256;
    idempotency_key = request.idempotency_key;
    bound_proof_plan = inputs.bound_proof_plan;
    evidence_watermark = inputs.evidence_watermark;
  }

  -- `applySessionTransition` on the store as it is when the transaction starts.
  unfoldable pub apply_with :
      Fresh → GuardInputs → SessionStore → Attempt (SessionTransitionResult × SessionStore)
  unfolding apply_session_transition caught
  apply_with fresh inputs s =
      caught (apply_session_transition engine fresh (persist_input inputs) inputs.evaluate_guards s)

  -- `hasSessionTransitionIdempotencyReadOnly`
  unfoldable pub has_session_transition_idempotency : Fresh → Bool
  has_session_transition_idempotency fresh =
      is_some
        (find (has_key engine fresh (persist_input without_evidence)) snapshots.at_key.idempotency)

  -- A key that was used before is replayed without new evidence.
  unfoldable pub after_lifecycle :
      Fresh
      → SessionStore
      → Option SessionLifecycle
      → Attempt (SessionTransitionResult × SessionStore)
  unfolding has_session_transition_idempotency guard_inputs apply_with
  after_lifecycle fresh s lifecycle =
      if has_session_transition_idempotency fresh
      then apply_with fresh without_evidence s
      else (guard_inputs lifecycle >>= λ inputs. apply_with fresh inputs s)

  unfoldable pub transition_session :
      Fresh → SessionStore → Attempt (SessionTransitionResult × SessionStore)
  unfolding read_session_lifecycle after_lifecycle
  transition_session fresh s =
      caught (read_session_lifecycle engine snapshots.at_lifecycle) >>= after_lifecycle fresh s
