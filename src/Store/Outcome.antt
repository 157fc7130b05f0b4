-- ===== src/Store/Outcome.antt =====
-- The paths of `applySessionTransition` that return, as a data type, and what each of them leaves.
pub mod Writes
pub mod Rejects
pub mod Applies
pub mod Chains
pub mod Retry
pub mod Authority
pub mod Growth
pub mod Progress
use threadloop.Base.{
  ℕ, String, Option, none, some, Bool, true, false, not, ◌&&◌, List, [], ◌∷◌, ◌++◌, if◌then◌else◌,
  ◌==◌, find, nat_eq, Option-cases, Bool-cases, inl, inr, ◌≡◌, refl, sym, ap, ◌∙◌, subst, arith,
  eq_of_beq,
}
use threadloop.Lifecycle.{derive_lifecycle_phase, evaluate_lifecycle_transition}
use threadloop.Store.{
  Engine, TransitionSessionRow, TransitionError, idempotency_conflict, session_not_found,
  state_corrupted, SessionTransitionResult, failed, IdempotencyRow, SessionStore, Action, return,
  throw, is_corrupted,
}
use threadloop.Store.Steps.{return-injective, bind_returns, require_returns}
use threadloop.Store.History.{HistoryAuthority, assert_session_transition_history_authority}
use threadloop.Store.Rejection.{
  PersistInput, Fresh, append_rejected_guard_decision, persist_rejected_transition,
  persist_transition_idempotency, replay, has_key, is_same_request, idempotency_row,
}
use threadloop.Store.Apply.{
  GuardEvaluator, accept, move, evidence_is_current, decide, first_use, apply_session_transition,
}

module _ (engine : Engine) (fresh : Fresh) (input : PersistInput) (evaluate_guards : GuardEvaluator)
    (s : SessionStore) where
  pub data Outcome : SessionTransitionResult × SessionStore → Type 0 where
    replayed :
        {row : IdempotencyRow} {authority : HistoryAuthority}
        → find (has_key engine fresh input) s.idempotency ≡ some row
        → assert_session_transition_history_authority engine s ≡ return authority
        → Outcome (row.result, s)
    conflict_replayed :
        {row prior : IdempotencyRow} {authority : HistoryAuthority}
        → find (has_key engine fresh input) s.idempotency ≡ some row
        → assert_session_transition_history_authority engine s ≡ return authority
        → find
            (λ row. has_key engine fresh input row && is_same_request engine fresh input row)
            s.conflicts
          ≡ some prior
        → Outcome (prior.result, s)
    conflicted :
        {row : IdempotencyRow} {authority : HistoryAuthority} {error : TransitionError}
        {t : SessionStore}
        → find (has_key engine fresh input) s.idempotency ≡ some row
        → assert_session_transition_history_authority engine s ≡ return authority
        → append_rejected_guard_decision engine fresh input error (record s {
          conflicts = s.conflicts ++ idempotency_row engine fresh input (failed error) ∷ [];
        })
          ≡ return t
        → Outcome (failed error, t)
    missing : s.current ≡ none → Outcome (failed session_not_found, s)
    unsound :
        {current : TransitionSessionRow}
        → s.current ≡ some current
        → is_corrupted current ≡ true
        → Outcome (failed state_corrupted, s)
    rejected :
        {authority : HistoryAuthority} {error : TransitionError} {t : SessionStore}
        → assert_session_transition_history_authority engine s ≡ return authority
        → append_rejected_guard_decision engine fresh input error
            (persist_transition_idempotency engine fresh input (failed error) s)
          ≡ return t
        → Outcome (failed error, t)
    accepted :
        {current : TransitionSessionRow} {authority : HistoryAuthority}
        {r : SessionTransitionResult × SessionStore}
        → find (has_key engine fresh input) s.idempotency ≡ none
        → s.current ≡ some current
        → is_corrupted current ≡ false
        → assert_session_transition_history_authority engine s ≡ return authority
        → input.expected_state_version ≡ current.state_version
        → (move engine fresh input current authority).allowed ≡ true
        → evidence_is_current engine fresh input input.evidence_watermark s ≡ true
        → (evaluate_guards current.status input.target_state input.canonical_input
            current.blocked_from_state).allowed
          ≡ true
        → accept engine fresh input current s ≡ return r
        → Outcome r

  module _ (authority : HistoryAuthority)
      (h : assert_session_transition_history_authority engine s ≡ return authority) where
    persist_rejected-Outcome :
        (error : TransitionError) {r : SessionTransitionResult × SessionStore}
        → persist_rejected_transition engine fresh input error s ≡ return r
        → Outcome r
    unfolding persist_rejected_transition
    persist_rejected-Outcome error p =
        let (t, m, q) = bind_returns _ _ p in subst Outcome (return-injective q) (rejected h m)

    decide-Outcome :
        (current : TransitionSessionRow)
        → find (has_key engine fresh input) s.idempotency ≡ none
        → s.current ≡ some current
        → is_corrupted current ≡ false
        → {r : SessionTransitionResult × SessionStore}
        → decide engine fresh input evaluate_guards current authority s ≡ return r
        → Outcome r
    unfolding decide
    decide-Outcome current new c sound p =
        elim (Bool-cases (input.expected_state_version == current.state_version)) [
          | inr b ↦ persist_rejected-Outcome _ (rw b at p)
          | inl b ↦ elim (Bool-cases ((move engine fresh input current authority).allowed)) [
            | inr m ↦ persist_rejected-Outcome _ (rw (b, m) at p)
            | inl m ↦
                let (w, q) = require_returns _ _ _ (rw (b, m) at p) in
                elim (Bool-cases (
                  (evaluate_guards current.status input.target_state input.canonical_input
                    current.blocked_from_state).allowed)) [
                      | inr g ↦ persist_rejected-Outcome _ (rw g at q)
                      | inl g ↦ accepted new c sound h (eq_of_beq b) m w g (rw g at q)
                    ]
          ]
        ]

  module _ (row : IdempotencyRow)
      (k : find (has_key engine fresh input) s.idempotency ≡ some row) where
    replay-Outcome :
        {r : SessionTransitionResult × SessionStore}
        → replay engine fresh input row s ≡ return r
        → Outcome r
    unfolding replay
    replay-Outcome p =
        let (authority, h, q) =
          bind_returns (assert_session_transition_history_authority engine s) _ p in
        elim (Bool-cases (is_same_request engine fresh input row)) [
          | inl b ↦ subst Outcome (return-injective (rw b at q)) (replayed k h)
          | inr b ↦
              elim (Option-cases (
                find
                  (λ row. has_key engine fresh input row && is_same_request engine fresh input row)
                  s.conflicts)) [
                    | inr (prior, f) ↦
                        subst Outcome (return-injective (rw (b, f) at q)) (conflict_replayed k h f)
                    | inl f ↦
                        let (t, m, z) = bind_returns _ _ (rw (b, f) at q) in
                        subst Outcome (return-injective z) (conflicted k h m)
                  ]
        ]

  first_use-Outcome :
      find (has_key engine fresh input) s.idempotency ≡ none
      → (row : Option TransitionSessionRow) → s.current ≡ row
      → {r : SessionTransitionResult × SessionStore}
      → first_use engine fresh input evaluate_guards row s ≡ return r
      → Outcome r
  unfolding first_use
  first_use-Outcome new none c p = subst Outcome (return-injective p) (missing c)
  first_use-Outcome new (some current) c p = elim (Bool-cases (is_corrupted current)) [
    | inl b ↦ subst Outcome (return-injective (rw b at p)) (unsound c b)
    | inr b ↦
        let (authority, h, q) = bind_returns _ _ (rw b at p) in
        decide-Outcome authority h current new c b q
  ]

  pub apply_session_transition-Outcome :
      {r : SessionTransitionResult × SessionStore}
      → apply_session_transition engine fresh input evaluate_guards s ≡ return r
      → Outcome r
  unfolding apply_session_transition
  apply_session_transition-Outcome p =
      elim (Option-cases (find (has_key engine fresh input) s.idempotency)) [
        | inl f ↦ first_use-Outcome f s.current refl (rw (f, apply_session_transition) at p)
        | inr (row, f) ↦ replay-Outcome row f (rw (f, apply_session_transition) at p)
      ]
