-- ===== src/Store/Outcome/Progress.antt =====
-- Calls of `applySessionTransition` that return.
pub mod Append
pub mod Returns
use threadloop.Base.{
  ◌+◌, ◌≤◌, String, Option, none, some, Bool, true, false, not, List, [], ◌∷◌, ◌++◌, ◌≡◌, refl, sym,
  ap, ◌∙◌, subst, arith, find, length, is_hex_of_length, ◌==◌, beq_refl, eqb_iff, nat_eq,
  length-append, get_last?,
}
use threadloop.Audit.{max_safe_integer}
use threadloop.Lifecycle.{evaluate_lifecycle_transition}
use threadloop.Store.{
  Engine, TransitionSessionRow, TransitionRow, SessionTransitionResult, SessionStore, return,
  is_corrupted,
}
use threadloop.Store.Steps.{return-injective}
use threadloop.Store.History.{HistoryAuthority, assert_session_transition_history_authority}
use threadloop.Store.History.Authoritative.{assert-HasAuthority}
use threadloop.Store.Ledger.{AuditDraft, append_audit_event}
use threadloop.Store.Rejection.{PersistInput, Fresh, has_key}
use threadloop.Store.Apply.{
  GuardEvaluator, apply_session_transition, first_use, decide, accept, append_applied_events,
  persist_proof_plan, move, can_end, is_new_transition, evidence_is_current, transition_row,
  written, decision_draft, applied_draft, applied_result,
}
use threadloop.Store.Outcome.Applies.{persist_proof_plan-store, bound_plan}
use threadloop.Store.Outcome.Writes.{Appended}
use threadloop.Store.Outcome.Chains.{IsIntact, Appended-IsIntact}
use threadloop.Store.Outcome.Progress.Append.{
  event_of, with_event, is_unused, append_audit_event-returns, with_event-Appended,
}

module _ (engine : Engine) (fresh : Fresh) (input : PersistInput) (s : SessionStore) where
  -- The store with the two events of an applied transition.
  abbrev with_applied_events : TransitionRow → SessionStore → SessionStore
  with_applied_events row u =
      with_event engine (with_event engine u (decision_draft engine fresh input row))
        (applied_draft engine fresh input row)

  module _ (is_hex : (content : String) → is_hex_of_length 64 (engine.digest content) ≡ true) where
    append_applied_events-returns :
        (row : TransitionRow) (u : SessionStore)
        → IsIntact engine u.audit_events
        → length u.audit_events + 2 ≤ max_safe_integer
        → row.from_state_version ≤ max_safe_integer
        → row.to_state_version ≤ max_safe_integer
        → is_unused engine
            (event_of engine u (decision_draft engine fresh input row))
            u.audit_events
          ≡ true
        → let between = with_event engine u (decision_draft engine fresh input row) in
          is_unused engine
              (event_of engine between (applied_draft engine fresh input row))
              between.audit_events
            ≡ true
          → append_applied_events engine fresh input row u ≡ return (with_applied_events row u)
    unfolding append_applied_events
    append_applied_events-returns row u intact room from to first second =
        let decision = decision_draft engine fresh input row in
        let between = with_event engine u decision in
        let e1 =
          append_audit_event-returns engine u decision is_hex intact (omega arith) from first in
        let grown = with_event-Appended engine u decision is_hex intact (omega arith) from in
        let longer : length between.audit_events ≡ length u.audit_events + 1 =
          length-append u.audit_events (event_of engine u decision ∷ []) in
        let e2 =
          append_audit_event-returns engine between (applied_draft engine fresh input row) is_hex
            (Appended-IsIntact engine grown intact) (omega arith) to second in
        rw (e1, append_applied_events) e2

  module _ (current : TransitionSessionRow) (planned : SessionStore) where
    abbrev row : TransitionRow
    row = transition_row engine fresh input s current

    abbrev before_events : SessionStore
    before_events = written engine fresh input current planned

    abbrev between_events : SessionStore
    between_events = with_event engine before_events (decision_draft engine fresh input row)

    -- The two events meet neither an id nor a hash of another one.
    pub record IsUnused : Type 0 where
      pub decision :
          is_unused engine
            (event_of engine before_events (decision_draft engine fresh input row))
            before_events.audit_events
          ≡ true
      pub transition :
          is_unused engine
            (event_of engine between_events (applied_draft engine fresh input row))
            between_events.audit_events
          ≡ true

    accept-returns :
        (evaluate_guards : GuardEvaluator)
        → ((content : String) → is_hex_of_length 64 (engine.digest content) ≡ true)
        → IsIntact engine s.audit_events
        → length s.audit_events + 2 ≤ max_safe_integer
        → current.state_version + 1 ≤ max_safe_integer
        → IsUnused
        → persist_proof_plan engine fresh input input.bound_proof_plan current s ≡ return planned
        → can_end engine fresh input current ≡ true
        → is_new_transition engine fresh input s current ≡ true
        → accept engine fresh input current s
          ≡ return
              (applied_result engine fresh input s current, with_applied_events row before_events)
    unfolding accept
    accept-returns evaluate_guards is_hex intact room safe unused p ends new =
        let events =
          ap (λ u. u.audit_events)
            (persist_proof_plan-store engine fresh input evaluate_guards s input.bound_proof_plan
              current p) in
        let appended =
          append_applied_events-returns is_hex row before_events
            (subst (IsIntact engine) (sym events) intact)
            (subst (λ e. length e + 2 ≤ max_safe_integer) (sym events) room) (omega arith) safe
            unused.decision unused.transition in
        rw (p, accept) (rw ends (rw new (rw appended refl)))

  -- A call under a new key on a sound session with an authoritative history applies its transition
  -- where the version is the expected one, the lifecycle graph has the move, the receipts are the
  -- ones that were seen, the guards allow it and the proof plan can be bound: it returns, as long
  -- as the numbers stay safe integers, the digest is in hexadecimal, and the insert guards meet no
  -- id and no hash a second time.
  pub apply_session_transition-accepts :
      (evaluate_guards : GuardEvaluator) (current : TransitionSessionRow)
      (authority : HistoryAuthority) (planned : SessionStore)
      → find (has_key engine fresh input) s.idempotency ≡ none
      → s.current ≡ some current
      → is_corrupted current ≡ false
      → assert_session_transition_history_authority engine s ≡ return authority
      → input.expected_state_version ≡ current.state_version
      → (move engine fresh input current authority).allowed ≡ true
      → evidence_is_current engine fresh input input.evidence_watermark s ≡ true
      → (evaluate_guards current.status input.target_state input.canonical_input
          current.blocked_from_state).allowed
        ≡ true
      → persist_proof_plan engine fresh input input.bound_proof_plan current s ≡ return planned
      → can_end engine fresh input current ≡ true
      → is_new_transition engine fresh input s current ≡ true
      → length s.audit_events + 2 ≤ max_safe_integer
      → current.state_version + 1 ≤ max_safe_integer
      → ((content : String) → is_hex_of_length 64 (engine.digest content) ≡ true)
      → IsUnused current planned
      → (t : SessionStore) × (apply_session_transition engine fresh input evaluate_guards s
          ≡ return (applied_result engine fresh input s current, t))
  unfolding apply_session_transition first_use decide
  apply_session_transition-accepts evaluate_guards current authority planned key found sound h v
        moves seen guarded plan ends new room safe is_hex unused =
      let intact = (assert-HasAuthority engine s h).is_verified in
      let accepts =
        accept-returns current planned evaluate_guards is_hex intact room safe unused plan ends
          new in
      (
        with_applied_events (row current planned) (before_events current planned),
        rw (key, apply_session_transition)
            (subst
              (λ found.
                first_use engine fresh input evaluate_guards found s
                ≡ return (
                  applied_result engine fresh input s current,
                  with_applied_events (row current planned) (before_events current planned),
                ))
              (sym found)
              (rw (sound, first_use)
                (rw h (
                  rw ((eqb_iff input.expected_state_version current.state_version).1 v, decide)
                    (rw moves (rw seen (rw guarded accepts))))))),
      )
