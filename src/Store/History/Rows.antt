-- ===== src/Store/History/Rows.antt =====
-- The loop of `assertSessionTransitionHistoryAuthority` over the transition rows.
use threadloop.Base.{
  ℕ, ◌≤◌, String, Option, none, some, Bool-cases, true, List, [], ◌∷◌, ◌++◌, ◌≡◌, refl, ap, inl,
  inr, arith, leb, get_last?, head?, select, nat_eq, string_eq,
}
use threadloop.Json.{Value}
use threadloop.Store.{Engine, TransitionRow, Fault, return}
use threadloop.Store.Steps.{return-injective, bind_returns, require_returns}
use threadloop.Store.History.{or_throw, row_is_valid, row_continues, row_is_bound, check_rows}

pub or_throw-returns :
    {A : Type 0} (o : Option A) (e : Fault) {a : A} → or_throw o e ≡ return a → o ≡ some a
or_throw-returns none e p = absurd (ground arith)
or_throw-returns (some a) e p = ap some (return-injective p)

-- The rows at or above the audit floor.
abbrev pub authoritative_rows : ℕ → List TransitionRow → List TransitionRow
authoritative_rows floor = select (λ row. leb floor row.from_state_version)

-- The last row, from the one before the list.
abbrev pub last_row : Option TransitionRow → List TransitionRow → Option TransitionRow
last_row previous [] = previous
last_row previous (row ∷ rows) = last_row (some row) rows

pub last_row-get_last? :
    (row : TransitionRow) (rows : List TransitionRow)
    → last_row (some row) rows ≡ get_last? (row ∷ rows)
last_row-get_last? row [] = refl
last_row-get_last? row (next ∷ rows) = last_row-get_last? next rows

module _ (engine : Engine) (session_id : String) where
  abbrev pub Continues : Option TransitionRow → List TransitionRow → Type 0
  Continues previous rows = check_rows engine session_id previous rows ≡ return tt

  -- A row that the loop accepts behind the row before it.
  pub record IsNext (previous : Option TransitionRow) (row : TransitionRow) : Type 0 where
    pub input : Value
    pub is_valid : row_is_valid row ≡ true
    pub continues : row_continues previous row ≡ true
    pub is_parsed : engine.parse row.input_json ≡ some input
    pub is_bound : row_is_bound engine session_id row input ≡ true

  pub Continues-IsNext :
      (previous : Option TransitionRow) (row : TransitionRow) (rows : List TransitionRow)
      → Continues previous (row ∷ rows)
      → IsNext previous row × Continues (some row) rows
  unfolding check_rows
  Continues-IsNext previous row rows p =
      let (valid, q) = require_returns (row_is_valid row) _ _ p in
      let (follows, r) = require_returns (row_continues previous row) _ _ q in
      let (input, parsed, u) = bind_returns (or_throw (engine.parse row.input_json) _) _ r in
      let (bound, v) = require_returns (row_is_bound engine session_id row input) _ _ u in
      (
        record {
          input = input;
          is_valid = valid;
          continues = follows;
          is_parsed = or_throw-returns _ _ parsed;
          is_bound = bound;
        },
        v,
      )

  pub IsNext-Continues :
      (previous : Option TransitionRow) (row : TransitionRow) (rows : List TransitionRow)
      → IsNext previous row
      → Continues (some row) rows
      → Continues previous (row ∷ rows)
  unfolding check_rows
  IsNext-Continues previous row rows n p =
      rw (n.is_valid, check_rows) (rw n.continues (rw n.is_parsed (rw n.is_bound p)))

  pub Continues-append :
      (previous : Option TransitionRow) (rows : List TransitionRow) (row : TransitionRow)
      → Continues previous rows
      → IsNext (last_row previous rows) row
      → Continues previous (rows ++ row ∷ [])
  unfolding check_rows
  Continues-append previous [] row p n = IsNext-Continues previous row [] n refl
  Continues-append previous (first ∷ rows) row p n =
      let (m, q) = Continues-IsNext previous first rows p in
      IsNext-Continues previous first (rows ++ row ∷ []) m
        (Continues-append (some first) rows row q n)

  -- Versions only grow along the rows.
  above-last :
      (floor : ℕ) (row : TransitionRow) (rows : List TransitionRow) {last : TransitionRow}
      → Continues (some row) rows
      → floor ≤ row.to_state_version
      → last_row (some row) rows ≡ some last
      → floor ≤ last.to_state_version
  unfolding row_continues row_is_valid
  above-last floor row [] p h e = ground arith
  above-last floor row (next ∷ rows) p h e =
      let (n, q) = Continues-IsNext (some row) next rows p in
      let up : floor ≤ next.to_state_version =
        let c = n.continues in let v = n.is_valid in ground arith in
      above-last floor next rows q up e

  pub authoritative-last :
      (floor : ℕ) (previous : Option TransitionRow) (rows : List TransitionRow)
      {first last : TransitionRow}
      → Continues previous rows
      → head? (authoritative_rows floor rows) ≡ some first
      → last_row previous rows ≡ some last
      → floor ≤ last.to_state_version
  unfolding row_is_valid
  authoritative-last floor previous [] p h e = absurd (ground arith)
  authoritative-last floor previous (row ∷ rows) p h e =
      let (n, q) = Continues-IsNext previous row rows p in
      elim (Bool-cases (leb floor row.from_state_version)) [
        | inl b ↦ above-last floor row rows q (let v = n.is_valid in ground arith) e
        | inr b ↦ authoritative-last floor (some row) rows q (rw b at h) e
      ]
