-- ===== src/Store/History/Recorded.antt =====
-- A transition that `applySessionTransition` records keeps its session authoritative.
use text.Mathlib.TextEquality.{eq_iff}
use threadloop.Base.{
  ◌+◌, String, Option, none, some, Bool, true, false, List, [], ◌∷◌, ◌++◌, ◌≡◌, refl, sym, ap, ◌∙◌,
  subst, arith, length, length-append, select, select-append, leb, head?, get_last?,
  get_last?-append, all, all-append, any, nat_eq, string_eq,
}
use threadloop.Task.{status_iff}
use threadloop.Json.{Value, get, as_text}
use threadloop.Audit.{StoredAuditEvent, verify_audit_chain}
use threadloop.Store.{Engine, TransitionSessionRow, TransitionRow}
use threadloop.Store.History.{
  Genesis, applied_events, event_is_covered, event_matches_row, is_applied, starts_at_genesis,
  projects, legacy_matches, row_is_valid, row_is_bound,
}
use threadloop.Store.History.Rows.{authoritative_rows, Continues-append}
use threadloop.Store.History.Coverage.{has_id, covered-append, covered-new}
use threadloop.Store.History.Authoritative.{IsAuthoritative}
use threadloop.Store.History.Extends.{
  filled-append, genesis-append, applied-append-applied, rows_of, at_genesis, above_floor,
  continues-latest,
}

any-select :
    {A : Type 0} (p q : A → Bool) (xs : List A) → any p xs ≡ false → any p (select q xs) ≡ false
any-select p q [] h = refl
any-select p q (x ∷ xs) h = let ih = any-select p q xs (ground arith) in ground arith

-- The first authoritative row, where one more is behind the others.
module _ (genesis : Genesis) (row : TransitionRow) where
  starts-append :
      (rows : List TransitionRow)
      → (head? rows ≡ none → starts_at_genesis genesis (some row) ≡ true)
      → starts_at_genesis genesis (head? rows) ≡ true
      → starts_at_genesis genesis (head? (rows ++ row ∷ [])) ≡ true
  starts-append [] first h = first refl
  starts-append (x ∷ rows) first h = h

  legacy-append :
      (rows : List TransitionRow) (latest : Option TransitionRow)
      → legacy_matches genesis (head? (rows ++ row ∷ [])) latest ≡ true
  legacy-append [] latest = refl
  legacy-append (x ∷ rows) latest = refl

module _ (engine : Engine) (session_id : String) (task_id : String)
    {current : Option TransitionSessionRow} {transitions : List TransitionRow}
    {events : List StoredAuditEvent}
    (a : IsAuthoritative engine session_id task_id current transitions events)
    (next : TransitionSessionRow) (row : TransitionRow) (event : StoredAuditEvent) where
  -- A transition from the lifecycle row to the next one, with its event.
  pub record IsRecorded : Type 0 where
    pub input : Value
    pub from_state : row.from_state ≡ a.row.status
    pub from_version : row.from_state_version ≡ a.row.state_version
    pub is_valid : row_is_valid row ≡ true
    pub is_parsed : engine.parse row.input_json ≡ some input
    pub is_bound : row_is_bound engine session_id row input ≡ true
    pub is_new : any (has_id row.id) transitions ≡ false
    pub of_task : row.task_id ≡ task_id
    pub reached : next.status ≡ row.to_state
    pub reached_version : next.state_version ≡ row.to_state_version
    pub applies : is_applied event.value.event_type ≡ true
    pub names_row : as_text (get "transition_id" event.value.payload) ≡ some row.id
    pub matches : event_matches_row event.value row ≡ true
    pub is_intact :
        (verify_audit_chain engine.stringify engine.digest (events ++ event ∷ []) none).valid ≡ true

  module _ (r : IsRecorded) where
    abbrev old_rows : List TransitionRow
    old_rows = rows_of engine session_id task_id a

    grown : authoritative_rows a.genesis.floor (transitions ++ row ∷ []) ≡ old_rows ++ row ∷ []
    grown =
        let up = above_floor engine session_id task_id a in
        let v = r.from_version in
        let above : leb a.genesis.floor row.from_state_version ≡ true = ground arith in
        select-append (λ row. leb a.genesis.floor row.from_state_version) transitions (row ∷ [])
        ∙ rw above refl

    starts : starts_at_genesis a.genesis (head? (old_rows ++ row ∷ [])) ≡ true
    starts =
        starts-append a.genesis row old_rows
          (λ h.
            let p = at_genesis engine session_id task_id a h in
            let s = r.from_state in
            let v = r.from_version in ground (arith, status_iff row.from_state a.genesis.state))
          a.from_genesis

    projects-last : projects a.genesis task_id next (get_last? (transitions ++ row ∷ [])) ≡ true
    projects-last =
        let t = r.of_task in
        let s = r.reached in
        let v = r.reached_version in
        rw (get_last?-append transitions row)
          (ground (arith, eq_iff row.task_id task_id, status_iff row.to_state next.status))

    all_covered :
        all (event_is_covered (old_rows ++ row ∷ [])) (applied_events events ++ event ∷ []) ≡ true
    all_covered =
        let fresh =
          any-select (has_id row.id) (λ row. leb a.genesis.floor row.from_state_version) transitions
            r.is_new in
        let old = covered-append old_rows row fresh (applied_events events) a.covered in
        let new = covered-new old_rows row event r.names_row r.matches in
        all-append (event_is_covered (old_rows ++ row ∷ [])) (applied_events events) (event ∷ [])
        ∙ rw (old, new) refl

    pub IsAuthoritative-transition :
        IsAuthoritative engine session_id task_id
          (some next)
          (transitions ++ row ∷ [])
          (events ++ event ∷ [])
    IsAuthoritative-transition =
        let applied = sym (applied-append-applied events event r.applies) in
        record {
          genesis = a.genesis;
          row = next;
          continues = Continues-append engine session_id none transitions row a.continues (record {
            input = r.input;
            is_valid = r.is_valid;
            continues =
                continues-latest engine session_id task_id a row r.from_state r.from_version;
            is_parsed = r.is_parsed;
            is_bound = r.is_bound;
          });
          is_verified = r.is_intact;
          has_events = filled-append events (event ∷ []) a.has_events;
          started = genesis-append events (event ∷ []) a.has_events ∙ a.started;
          from_genesis = rw grown starts;
          counted =
              ap length (sym applied)
              ∙ length-append (applied_events events) (event ∷ [])
              ∙ ap (λ n. n + 1) a.counted
              ∙ sym (length-append old_rows (row ∷ []))
              ∙ ap length (sym grown);
          covered = rw grown (
              subst (λ e. all (event_is_covered (old_rows ++ row ∷ [])) e ≡ true) applied
                all_covered);
          found = refl;
          owned = a.owned;
          projected = projects-last;
          legacy = rw grown (legacy-append a.genesis row old_rows _);
        }
