-- ===== src/Store/History/Extends.antt =====
-- What keeps a session authoritative: a decision in its audit chain, and a transition with its
-- event.
use threadloop.Base.{
  ◌≤◌, String, Option, none, Option-cases, true, false, List, [], ◌∷◌, ◌++◌, ◌≡◌, refl, sym, ◌∙◌,
  subst, inl, inr, arith, length, select, select-append, head?, get_last?, is_empty, all,
  append-nil,
}
use threadloop.Task.{status_iff}
use threadloop.Audit.{StoredAuditEvent, verify_audit_chain}
use threadloop.Store.{Engine, TransitionSessionRow, TransitionRow}
use threadloop.Store.History.{
  read_session_audit_genesis, applied_events, event_is_covered, is_applied, row_continues,
}
use threadloop.Store.History.Rows.{
  authoritative_rows, last_row, last_row-get_last?, authoritative-last,
}
use threadloop.Store.History.Authoritative.{IsAuthoritative}

pub head-append : {A : Type 0} (xs ys : List A) → is_empty xs ≡ false → head? (xs ++ ys) ≡ head? xs
head-append [] ys h = absurd (ground arith)
head-append (x ∷ xs) ys h = refl

pub filled-append :
    {A : Type 0} (xs ys : List A) → is_empty xs ≡ false → is_empty (xs ++ ys) ≡ false
filled-append [] ys h = absurd (ground arith)
filled-append (x ∷ xs) ys h = refl

pub genesis-append :
    (events more : List StoredAuditEvent)
    → is_empty events ≡ false
    → read_session_audit_genesis (events ++ more) ≡ read_session_audit_genesis events
unfolding read_session_audit_genesis
genesis-append [] more h = absurd (ground arith)
genesis-append (event ∷ events) more h = refl

applied-append-other :
    (events : List StoredAuditEvent) (event : StoredAuditEvent)
    → is_applied event.value.event_type ≡ false
    → applied_events (events ++ event ∷ []) ≡ applied_events events
unfolding applied_events
applied-append-other events event h =
    select-append (λ e. is_applied e.value.event_type) events (event ∷ [])
    ∙ rw h (append-nil (select (λ e. is_applied e.value.event_type) events))

pub applied-append-applied :
    (events : List StoredAuditEvent) (event : StoredAuditEvent)
    → is_applied event.value.event_type ≡ true
    → applied_events (events ++ event ∷ []) ≡ applied_events events ++ event ∷ []
unfolding applied_events
applied-append-applied events event h =
    select-append (λ e. is_applied e.value.event_type) events (event ∷ []) ∙ rw h refl

pub last_row-none : (rows : List TransitionRow) → last_row none rows ≡ get_last? rows
last_row-none [] = refl
last_row-none (row ∷ rows) = last_row-get_last? row rows

module _ (engine : Engine) (session_id : String) (task_id : String)
    {current : Option TransitionSessionRow} {transitions : List TransitionRow}
    {events : List StoredAuditEvent}
    (a : IsAuthoritative engine session_id task_id current transitions events)
    (event : StoredAuditEvent)
    (intact : (verify_audit_chain engine.stringify engine.digest (events ++ event ∷ []) none).valid
      ≡ true) where
  -- An event that applies nothing.
  pub IsAuthoritative-decision :
      is_applied event.value.event_type ≡ false
      → IsAuthoritative engine session_id task_id current transitions (events ++ event ∷ [])
  IsAuthoritative-decision h =
      let same = sym (applied-append-other events event h) in
      let rows = authoritative_rows a.genesis.floor transitions in
      record {
        genesis = a.genesis;
        row = a.row;
        continues = a.continues;
        is_verified = intact;
        has_events = filled-append events (event ∷ []) a.has_events;
        started = genesis-append events (event ∷ []) a.has_events ∙ a.started;
        from_genesis = a.from_genesis;
        counted = subst (λ e. length e ≡ length rows) same a.counted;
        covered = subst (λ e. all (event_is_covered rows) e ≡ true) same a.covered;
        found = a.found;
        owned = a.owned;
        projected = a.projected;
        legacy = a.legacy;
      }

-- The lifecycle row of an authoritative session stands at or above the audit floor, and at the
-- genesis where nothing is authoritative yet.
module _ (engine : Engine) (session_id : String) (task_id : String)
    {current : Option TransitionSessionRow} {transitions : List TransitionRow}
    {events : List StoredAuditEvent}
    (a : IsAuthoritative engine session_id task_id current transitions events) where
  abbrev pub rows_of : List TransitionRow
  rows_of = authoritative_rows a.genesis.floor transitions

  pub at_genesis :
      head? rows_of ≡ none
      → (a.row.state_version ≡ a.genesis.floor) × (a.row.status ≡ a.genesis.state)
  at_genesis h = elim (Option-cases (get_last? transitions)) [
    | inl e ↦
        let p = rw e at a.projected in
        (ground arith, ground (arith, status_iff a.row.status a.genesis.state))
    | inr (latest, e) ↦
        let p = rw e at a.projected in
        let l = rw (h, e) at a.legacy in
        (
          ground arith,
          ground (
            arith,
            status_iff latest.to_state a.row.status,
            status_iff latest.to_state a.genesis.state,
          ),
        )
  ]

  pub above_floor : a.genesis.floor ≤ a.row.state_version
  above_floor = elim (Option-cases (head? rows_of)) [
    | inl e ↦ let p = (at_genesis e).0 in omega arith
    | inr (first, e) ↦ elim (Option-cases (get_last? transitions)) [
      | inl n ↦ let p = rw n at a.projected in ground arith
      | inr (latest, l) ↦
          let up =
            authoritative-last engine session_id a.genesis.floor none transitions {first = first}
              {last = latest} a.continues e (last_row-none transitions ∙ l) in
          let p = rw l at a.projected in ground arith
    ]
  ]

  pub continues-latest :
      (row : TransitionRow)
      → row.from_state ≡ a.row.status
      → row.from_state_version ≡ a.row.state_version
      → row_continues (last_row none transitions) row ≡ true
  unfolding row_continues
  continues-latest row s v = elim (Option-cases (get_last? transitions)) [
    | inl e ↦ rw (last_row-none transitions) (rw e refl)
    | inr (latest, e) ↦
        let p = rw e at a.projected in
        rw (last_row-none transitions) (
          rw e (
            ground (
              arith,
              status_iff latest.to_state a.row.status,
              status_iff row.from_state latest.to_state,
            )))
  ]
