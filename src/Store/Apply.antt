-- ===== src/Store/Apply.antt =====
-- `applySessionTransition` of src/adapters/fs/sqlite-store.ts: one call inside its write
-- transaction.
use threadloop.Base.{
  ◌+◌, String, Option, none, some, Bool, true, not, ◌&&◌, ◌||◌, List, [], ◌∷◌, ◌++◌, if◌then◌else◌,
  ◌==◌, any, find, map, is_some, nat_eq, string_eq,
}
use threadloop.Task.{TaskStatus, framed, proof_ready, blocked, completed, LifecyclePhase, status_eq}
use threadloop.Json.{boolean, number, text, array, object, nil, Fields, end, field}
use threadloop.Lifecycle.{
  derive_lifecycle_phase, LifecycleTransitionDecision, evaluate_lifecycle_transition,
}
use threadloop.Proof.{BoundProofPlan}
use threadloop.Transition.{TransitionGuardDecision}
use threadloop.Transition.Request.{status_text}
use threadloop.Audit.{guard_decision, transition_applied}
use threadloop.Store.{
  Engine, TransitionSessionRow, TransitionRow, session_not_found, state_corrupted,
  state_version_conflict, transition_not_allowed, transition_guard_failed, SessionTransitionResult,
  applied, failed, SessionStore, evidence_changed, compare_and_swap_failed, misplaced_proof_plan,
  immutable_row_conflict, Action, return, ◌>>=◌, ◌>>◌, require, is_corrupted,
}
use threadloop.Store.History.{HistoryAuthority, assert_session_transition_history_authority}
use threadloop.Store.Ledger.{
  AuditDraft, append_audit_event, EvidenceWatermark, read_evidence_watermark, is_same_watermark,
}
use threadloop.Store.Rejection.{
  PersistInput, Fresh, persist_rejected_transition, persist_transition_idempotency, replay, has_key,
}
use threadloop.Transition.{
  PrePrReviewEvidence, PrePrReviewFinding, PrePrReviewOutcome, changes_required, clean,
}
use threadloop.Transition.Input.{read_pre_pr_review_evidence}
use threadloop.Json.{Items, cons}
use threadloop.Base.{length}

abbrev pub GuardEvaluator : Type 0
GuardEvaluator = TaskStatus → TaskStatus → Fields → Option TaskStatus → TransitionGuardDecision

outcome_text : PrePrReviewOutcome → String
outcome_text changes_required = "changes_required"
outcome_text clean = "clean"

finding_ids : List PrePrReviewFinding → Items
finding_ids [] = nil
finding_ids (finding ∷ rest) = cons (text finding.id) (finding_ids rest)

-- `summarizePrePrReview`, where the input has a review.
pre_pr_review_summary : Option PrePrReviewEvidence → Fields
unfolding outcome_text finding_ids
pre_pr_review_summary none = end
pre_pr_review_summary (some evidence) =
    field "pre_pr_review"
      (object (
        field "outcome" (text (outcome_text evidence.outcome)) (
          field "head_sha" (text evidence.head_sha) (
            field "evidence_ref" (text evidence.evidence_ref) (
              field "evidence_sha256" (text evidence.evidence_sha256) (
                field "finding_count" (number (length evidence.findings))
                  (field "finding_ids" (array (finding_ids evidence.findings)) end)))))))
      end

module _ (engine : Engine) (fresh : Fresh) (input : PersistInput) where
  -- The proof plan that the transition binds.
  unfoldable pub persist_proof_plan :
      Option BoundProofPlan → TransitionSessionRow → SessionStore → Action SessionStore
  persist_proof_plan none current s = return s
  persist_proof_plan (some plan) current s = do
    require (current.status == framed && input.target_state == proof_ready) misplaced_proof_plan
    require (not (is_some s.proof_plan)) immutable_row_conflict
    return (record s { proof_plan = some plan })

  abbrev pub next_row : TransitionSessionRow → TransitionSessionRow
  next_row current = record {
    ended_at = if input.target_state == completed then some fresh.now else current.ended_at;
    status = input.target_state;
    state_version = current.state_version + 1;
    blocked_from_state = if input.target_state == blocked then some current.status else none;
  }

  abbrev pub transition_row : SessionStore → TransitionSessionRow → TransitionRow
  transition_row s current = record {
    id = fresh.transition_id;
    task_id = s.task_id;
    from_state = current.status;
    to_state = input.target_state;
    from_state_version = current.state_version;
    to_state_version = current.state_version + 1;
    actor = input.actor;
    input_json = engine.stringify (object input.canonical_input);
    request_sha256 = input.request_sha256;
    created_at = fresh.now;
  }

  -- The insert guard of `session_transitions`.
  abbrev transition_collides : TransitionRow → TransitionRow → Bool
  transition_collides new row =
      row.id == new.id || row.task_id == new.task_id && row.to_state_version == new.to_state_version

  unfoldable pub decision_payload : TransitionRow → Fields
  decision_payload row = field "idempotency_key" (text input.idempotency_key) (
      field "request_sha256" (text input.request_sha256) (
        field "from_state" (text (status_text row.from_state)) (
          field "target_state" (text (status_text row.to_state))
            (field "allowed" (boolean true) (field "guard_failures" (array nil) end)))))

  unfoldable pub applied_payload : TransitionRow → Fields
  unfolding pre_pr_review_summary
  applied_payload row = field "transition_id" (text row.id) (
      field "request_sha256" (text row.request_sha256) (
        field "from_state" (text (status_text row.from_state)) (
          field "to_state" (text (status_text row.to_state)) (
            field "from_state_version" (number row.from_state_version) (
              field "to_state_version" (number row.to_state_version)
                (pre_pr_review_summary (read_pre_pr_review_evidence input.canonical_input)))))))

  -- The result reports no end of a session that the call did not end.
  abbrev pub reported_row : TransitionSessionRow → TransitionSessionRow
  reported_row current = record {
    ended_at = if input.target_state == completed then some fresh.now else none;
    status = input.target_state;
    state_version = current.state_version + 1;
    blocked_from_state = if input.target_state == blocked then some current.status else none;
  }

  abbrev pub applied_result : SessionStore → TransitionSessionRow → SessionTransitionResult
  applied_result s current = applied (record {
    transition = transition_row s current;
    lifecycle = reported_row current;
    idempotency_key = input.idempotency_key;
    proof_plan = input.bound_proof_plan;
  })

  -- The lifecycle row, the transition and the request, written together.
  abbrev pub written : TransitionSessionRow → SessionStore → SessionStore
  written current s =
      persist_transition_idempotency engine fresh input (applied_result s current) (record s {
        current = some (next_row current);
        transitions = s.transitions ++ transition_row s current ∷ [];
      })

  abbrev pub decision_draft : TransitionRow → AuditDraft
  decision_draft row = record {
    id = fresh.decision_id;
    event_type = guard_decision;
    state_version = row.from_state_version;
    recorded_at = fresh.now;
    payload = decision_payload row;
  }

  abbrev pub applied_draft : TransitionRow → AuditDraft
  applied_draft row = record {
    id = fresh.applied_id;
    event_type = transition_applied;
    state_version = row.to_state_version;
    recorded_at = fresh.now;
    payload = applied_payload row;
  }

  unfoldable pub append_applied_events : TransitionRow → SessionStore → Action SessionStore
  append_applied_events row s = do
    t ← append_audit_event engine (decision_draft row) s
    append_audit_event engine (applied_draft row) t

  -- `ended_at IS NULL`, where the call ends the session.
  abbrev pub can_end : TransitionSessionRow → Bool
  can_end current = not (input.target_state == completed && is_some current.ended_at)

  abbrev pub is_new_transition : SessionStore → TransitionSessionRow → Bool
  is_new_transition s current =
      not (any (transition_collides (transition_row s current)) s.transitions)

  -- What follows once the guards allow the transition.
  unfoldable pub accept :
      TransitionSessionRow → SessionStore → Action (SessionTransitionResult × SessionStore)
  accept current s = do
    planned ← persist_proof_plan input.bound_proof_plan current s
    require (can_end current) compare_and_swap_failed
    require (is_new_transition s current) immutable_row_conflict
    t ← append_applied_events (transition_row s current) (written current planned)
    return (applied_result s current, t)

  abbrev pub evidence_is_current : Option EvidenceWatermark → SessionStore → Bool
  evidence_is_current none s = true
  evidence_is_current (some seen) s = is_same_watermark (read_evidence_watermark s) seen

  abbrev pub phase_of : HistoryAuthority → LifecyclePhase
  phase_of authority =
      derive_lifecycle_phase (map (λ row. row.to_state) authority.history)
        (some authority.genesis_state)

  abbrev pub move : TransitionSessionRow → HistoryAuthority → LifecycleTransitionDecision
  move current authority = evaluate_lifecycle_transition current.status input.target_state (record {
    blocked_from_state = current.blocked_from_state;
    phase = some (phase_of authority);
  })

  -- What follows once the history is authoritative.
  unfoldable pub decide :
      GuardEvaluator
      → TransitionSessionRow
      → HistoryAuthority
      → SessionStore
      → Action (SessionTransitionResult × SessionStore)
  decide evaluate_guards current authority s =
      if not (input.expected_state_version == current.state_version)
      then persist_rejected_transition engine fresh input
          (state_version_conflict current.state_version) s
      else if not (move current authority).allowed
      then persist_rejected_transition engine fresh input
          (transition_not_allowed (move current authority).code) s
      else do
        require (evidence_is_current input.evidence_watermark s) evidence_changed
        let guards =
            evaluate_guards current.status input.target_state input.canonical_input
              current.blocked_from_state
        if not guards.allowed
            then persist_rejected_transition engine fresh input
                (transition_guard_failed guards.guard_failures guards.required_work) s
            else accept current s

  -- A key that was not used before, with what `readTransitionSession` gives.
  unfoldable pub first_use :
      GuardEvaluator
      → Option TransitionSessionRow
      → SessionStore
      → Action (SessionTransitionResult × SessionStore)
  first_use evaluate_guards none s = return (failed session_not_found, s)
  first_use evaluate_guards (some current) s =
      if is_corrupted current then return (failed state_corrupted, s) else do
        authority ← assert_session_transition_history_authority engine s
        decide evaluate_guards current authority s

  unfoldable pub apply_session_transition :
      GuardEvaluator → SessionStore → Action (SessionTransitionResult × SessionStore)
  apply_session_transition evaluate_guards s =
      elim (find (has_key engine fresh input) s.idempotency) [
        | some existing ↦ replay engine fresh input existing s
        | none ↦ first_use evaluate_guards s.current s
      ]
