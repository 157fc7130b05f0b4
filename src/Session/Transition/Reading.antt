-- ===== src/Session/Transition/Reading.antt =====
-- `readSessionLifecycleReadOnly` of src/adapters/fs/sqlite-store.ts: what a call of
-- `transitionSession` reads first.
use threadloop.Base.{
  Option, none, some, Bool-cases, ◌≡◌, refl, sym, ap, ◌∙◌, subst, inl, inr, arith,
}
use mathlib.Core.Option.{some-injective}
use threadloop.Store.{
  Engine, TransitionSessionRow, SessionStore, Action, return, throw, is_corrupted,
}
use threadloop.Store.Steps.{return-injective}
use threadloop.Store.History.{HistoryAuthority, assert_session_transition_history_authority}
use threadloop.Store.History.Authoritative.{HasAuthority, assert-HasAuthority, HasAuthority-assert}
use threadloop.Session.Transition.{SessionLifecycle, read_session_lifecycle}

module _ (engine : Engine) (s : SessionStore) where
  -- The lifecycle is that of the session's row, with the whole history of the session, whose genesis
  -- is the one that the audit chain records.
  pub record IsLifecycle (lifecycle : SessionLifecycle) : Type 0 where
    pub row : TransitionSessionRow
    pub authority : HasAuthority engine s
    pub found : s.current ≡ some row
    pub in_state : lifecycle.state ≡ row.status
    pub at_version : lifecycle.state_version ≡ row.state_version
    pub has_history : lifecycle.history ≡ s.transitions
    pub from_genesis : lifecycle.genesis_state ≡ authority.genesis.state

  of_authority :
      (row : TransitionSessionRow) (a : Action HistoryAuthority) {lifecycle : SessionLifecycle}
      → s.current ≡ some row
      → assert_session_transition_history_authority engine s ≡ a
      → (elim a as (λ _. Action (Option SessionLifecycle)) [
        | throw fault ↦ throw fault
        | return authority ↦ return (
            some (record {
              state = row.status;
              state_version = row.state_version;
              genesis_state = authority.genesis_state;
              history = authority.history;
            }))
      ])
        ≡ return (some lifecycle)
      → IsLifecycle lifecycle
  of_authority row (throw fault) found e h = absurd (ground arith)
  of_authority row (return authority) found e h =
      let has = assert-HasAuthority engine s e in
      let same : authority ≡ record { history = s.transitions; genesis_state = has.genesis.state } =
        return-injective (sym e ∙ HasAuthority-assert engine s has) in
      subst IsLifecycle (some-injective _ _ (return-injective h)) (record {
        row = row;
        authority = has;
        found = found;
        in_state = refl;
        at_version = refl;
        has_history = ap (λ a. a.history) same;
        from_genesis = ap (λ a. a.genesis_state) same;
      })

  of_current :
      (o : Option TransitionSessionRow) {lifecycle : SessionLifecycle}
      → s.current ≡ o
      → read_session_lifecycle engine s ≡ return (some lifecycle)
      → IsLifecycle lifecycle
  unfolding read_session_lifecycle
  of_current none e h = absurd (ground arith)
  of_current (some row) e h = elim (Bool-cases (is_corrupted row)) [
    | inl c ↦ absurd (ground arith)
    | inr c ↦ of_authority row _ e refl (rw (read_session_lifecycle, e, c) at h)
  ]

  pub read_session_lifecycle-IsLifecycle :
      {lifecycle : SessionLifecycle}
      → read_session_lifecycle engine s ≡ return (some lifecycle)
      → IsLifecycle lifecycle
  read_session_lifecycle-IsLifecycle h = of_current s.current refl h
