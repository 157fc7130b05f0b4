-- ===== src/Store/History/Coverage.antt =====
-- The applied events of `assertSessionTransitionHistoryAuthority` against the rows that they name.
use mathlib.Core.List.{reverse-append}
use text.Mathlib.TextEquality.{eq_iff}
use threadloop.Base.{
  String, Option, none, some, Option-cases, Bool, Bool-cases, true, false, List, [], ◌∷◌, ◌++◌, ◌≡◌,
  refl, sym, ap, ◌∙◌, inl, inr, arith, all, any, any-append, find, reverse, ◌==◌, string_eq,
  beq_refl,
}
use threadloop.Json.{get, as_text}
use threadloop.Audit.{StoredAuditEvent}
use threadloop.Store.{TransitionRow}
use threadloop.Store.History.{event_is_covered, event_matches_row, named_row, matches_row}

find-any : {A : Type 0} (p : A → Bool) (xs : List A) {x : A} → find p xs ≡ some x → any p xs ≡ true
find-any p [] e = absurd (ground arith)
find-any p (y ∷ xs) e = elim (Bool-cases (p y)) [
  | inl h ↦ ground arith
  | inr h ↦ let k = find-any p xs (rw h at e) in ground arith
]

any-reverse : {A : Type 0} (p : A → Bool) (xs : List A) → any p (reverse xs) ≡ any p xs
any-reverse p [] = refl
any-reverse p (x ∷ xs) =
    ap (any p) (reverse-append (x ∷ []) xs)
    ∙ any-append p (reverse xs) (x ∷ [])
    ∙ (let ih = any-reverse p xs in ground arith)

abbrev pub has_id : String → TransitionRow → Bool
has_id id row = row.id == id

module _ (rows : List TransitionRow) (row : TransitionRow) where
  named_row-append :
      (id : String)
      → find (has_id id) (reverse (rows ++ row ∷ [])) ≡ find (has_id id) (row ∷ reverse rows)
  named_row-append id = ap (find (has_id id)) (reverse-append rows (row ∷ []))

  module _ (is_new : any (has_id row.id) rows ≡ false) where
    covered_by_id :
        (event : StoredAuditEvent) (id : Option String)
        → matches_row event.value (named_row rows id) ≡ true
        → matches_row event.value (named_row (rows ++ row ∷ []) id) ≡ true
    covered_by_id event none h = absurd (ground arith)
    covered_by_id event (some id) h = elim (Bool-cases (row.id == id)) [
      | inr other ↦ rw (named_row-append id) (rw other h)
      | inl same ↦ elim (Option-cases (find (has_id id) (reverse rows))) [
        | inl e ↦ absurd (cc (rw e at h))
        | inr (found, e) ↦
            let old = sym (any-reverse (has_id id) rows) ∙ find-any (has_id id) (reverse rows) e in
            let named = (eq_iff row.id id).0 same in absurd (cc (rw named at is_new, old))
      ]
    ]

    pub covered-append :
        (events : List StoredAuditEvent)
        → all (event_is_covered rows) events ≡ true
        → all (event_is_covered (rows ++ row ∷ [])) events ≡ true
    unfolding event_is_covered
    covered-append [] h = refl
    covered-append (event ∷ events) h =
        let first =
          covered_by_id event (as_text (get "transition_id" event.value.payload)) (ground arith) in
        let rest = covered-append events (ground arith) in ground arith

  pub covered-new :
      (event : StoredAuditEvent)
      → as_text (get "transition_id" event.value.payload) ≡ some row.id
      → event_matches_row event.value row ≡ true
      → event_is_covered (rows ++ row ∷ []) event ≡ true
  unfolding event_is_covered
  covered-new event e h = rw e (rw (named_row-append row.id) (rw (beq_refl row.id) h))
