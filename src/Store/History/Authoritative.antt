-- ===== src/Store/History/Authoritative.antt =====
-- What `assertSessionTransitionHistoryAuthority` establishes of a session where it returns.
use threadloop.Base.{
  String, Option, none, some, true, false, not, List, ◌≡◌, refl, sym, subst, arith, length, head?,
  get_last?, is_empty, all, ◌==◌, nat_eq, eqb_iff,
}
use threadloop.Audit.{StoredAuditEvent, verify_audit_chain}
use threadloop.Store.{Engine, TransitionSessionRow, TransitionRow, SessionStore, return}
use threadloop.Store.Steps.{return-injective, bind_returns, require_returns}
use threadloop.Store.History.{
  Genesis, HistoryAuthority, read_verified_audit_events, read_session_audit_genesis, check_rows,
  starts_at_genesis, applied_events, event_is_covered, genesis_owns_task, projects, legacy_matches,
  or_throw, assert_session_transition_history_authority,
}
use threadloop.Store.History.Rows.{Continues, authoritative_rows, or_throw-returns}

-- A session whose rows, audit events and lifecycle row agree.
pub record IsAuthoritative (engine : Engine) (session_id : String) (task_id : String)
    (current : Option TransitionSessionRow) (transitions : List TransitionRow)
    (events : List StoredAuditEvent) : Type 0 where
  pub genesis : Genesis
  pub row : TransitionSessionRow
  pub continues : Continues engine session_id none transitions
  pub is_verified : (verify_audit_chain engine.stringify engine.digest events none).valid ≡ true
  pub has_events : is_empty events ≡ false
  pub started : read_session_audit_genesis events ≡ return genesis
  pub from_genesis :
      starts_at_genesis genesis (head? (authoritative_rows genesis.floor transitions)) ≡ true
  pub counted :
      length (applied_events events) ≡ length (authoritative_rows genesis.floor transitions)
  pub covered :
      all (event_is_covered (authoritative_rows genesis.floor transitions)) (applied_events events)
      ≡ true
  pub found : current ≡ some row
  pub owned : genesis_owns_task genesis task_id genesis.event.event_type ≡ true
  pub projected : projects genesis task_id row (get_last? transitions) ≡ true
  pub legacy :
      legacy_matches genesis
        (head? (authoritative_rows genesis.floor transitions))
        (get_last? transitions)
      ≡ true

abbrev pub HasAuthority : Engine → SessionStore → Type 0
HasAuthority engine s =
    IsAuthoritative engine s.session_id s.task_id s.current s.transitions s.audit_events

module _ (engine : Engine) where
  read_verified :
      (events read : List StoredAuditEvent)
      → read_verified_audit_events engine events ≡ return read
      → (is_empty events ≡ false)
        × ((verify_audit_chain engine.stringify engine.digest events none).valid ≡ true)
        × (read ≡ events)
  unfolding read_verified_audit_events
  read_verified events read p =
      let (filled, q) = require_returns (not (is_empty events)) _ _ p in
      let (valid, r) =
        require_returns (verify_audit_chain engine.stringify engine.digest events none).valid _ _
          q in
      (ground arith, valid, sym (return-injective r))

  verified_read :
      (events : List StoredAuditEvent)
      → is_empty events ≡ false
      → (verify_audit_chain engine.stringify engine.digest events none).valid ≡ true
      → read_verified_audit_events engine events ≡ return events
  unfolding read_verified_audit_events
  verified_read events e v = rw (e, read_verified_audit_events) (rw v refl)

  pub assert-HasAuthority :
      (s : SessionStore) {authority : HistoryAuthority}
      → assert_session_transition_history_authority engine s ≡ return authority
      → HasAuthority engine s
  unfolding assert_session_transition_history_authority
  assert-HasAuthority s p =
      let (u, continues, q) =
        bind_returns (check_rows engine s.session_id none s.transitions) _ p in
      let (events, read, q1) =
        bind_returns (read_verified_audit_events engine s.audit_events) _ q in
      let (filled, valid, same) = read_verified s.audit_events events read in
      let (genesis, started, q2) = bind_returns (read_session_audit_genesis events) _ q1 in
      let rows = authoritative_rows genesis.floor s.transitions in
      let (from, q3) = require_returns (starts_at_genesis genesis (head? rows)) _ _ q2 in
      let (counted, q4) = require_returns (length (applied_events events) == length rows) _ _ q3 in
      let (covered, q5) =
        require_returns (all (event_is_covered rows) (applied_events events)) _ _ q4 in
      let (row, found, q6) = bind_returns (or_throw s.current _) _ q5 in
      let (owned, q7) =
        require_returns (genesis_owns_task genesis s.task_id genesis.event.event_type) _ _ q6 in
      let (projected, q8) =
        require_returns (projects genesis s.task_id row (get_last? s.transitions)) _ _ q7 in
      let (legacy, q9) =
        require_returns (legacy_matches genesis (head? rows) (get_last? s.transitions)) _ _ q8 in
      record {
        genesis = genesis;
        row = row;
        continues = continues;
        is_verified = valid;
        has_events = filled;
        started = subst (λ e. read_session_audit_genesis e ≡ return genesis) same started;
        from_genesis = from;
        counted =
            subst (λ e. length (applied_events e) ≡ length rows) same
              ((eqb_iff (length (applied_events events)) (length rows)).0 counted);
        covered = subst (λ e. all (event_is_covered rows) (applied_events e) ≡ true) same covered;
        found = or_throw-returns _ _ found;
        owned = owned;
        projected = projected;
        legacy = legacy;
      }

  pub HasAuthority-assert :
      (s : SessionStore) (a : HasAuthority engine s)
      → assert_session_transition_history_authority engine s
        ≡ return (record { history = s.transitions; genesis_state = a.genesis.state })
  unfolding assert_session_transition_history_authority
  HasAuthority-assert s a =
      rw (a.continues, assert_session_transition_history_authority)
        (rw (verified_read s.audit_events a.has_events a.is_verified) (
          rw a.started (
            rw a.from_genesis (
              rw
                ((eqb_iff (length (applied_events s.audit_events))
                    (length (authoritative_rows a.genesis.floor s.transitions))).1
                  a.counted)
                (rw a.covered (rw a.found (rw a.owned (rw a.projected (rw a.legacy refl)))))))))
