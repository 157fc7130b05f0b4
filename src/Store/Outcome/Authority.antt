-- ===== src/Store/Outcome/Authority.antt =====
-- The authority of the history through `applySessionTransition`.
pub mod Events
use text.Mathlib.TextEquality.{eq_iff}
use mathlib.Core.Option.{some-injective}
use threadloop.Base.{
  ◌+◌, String, Option, none, some, Bool, true, false, not, ◌&&◌, ◌||◌, List, [], ◌∷◌, ◌++◌, ◌≡◌,
  refl, sym, ap, ◌∙◌, subst, arith, any, get_last?, beq_refl, nat_eq, string_eq, ◌==◌, leb,
  if◌then◌else◌,
}
use threadloop.Json.{Value, object, Fields, get, as_text}
use threadloop.Json.Canonical.{canonicalize_json_value}
use threadloop.Transition.Request.{status_text, canonicalize_transition_request}
use threadloop.Audit.{StoredAuditEvent, create_audit_event, transition_applied, max_safe_integer}
use threadloop.Store.{
  Engine, TransitionSessionRow, TransitionRow, TransitionError, SessionTransitionResult,
  SessionStore, return, is_corrupted,
}
use threadloop.Store.Steps.{return-injective}
use threadloop.Store.History.{
  row_is_valid, row_is_bound, event_matches_row, is_applied, HistoryAuthority,
  assert_session_transition_history_authority,
}
use threadloop.Store.History.Coverage.{has_id}
use threadloop.Store.History.Authoritative.{HasAuthority, assert-HasAuthority, HasAuthority-assert}
use threadloop.Store.History.Extends.{IsAuthoritative-decision}
use threadloop.Store.History.Recorded.{IsRecorded, IsAuthoritative-transition}
use threadloop.Store.Ledger.{AuditDraft, next_value}
use threadloop.Store.Rejection.{PersistInput, Fresh, append_rejection}
use threadloop.Store.Apply.{
  GuardEvaluator, apply_session_transition, is_new_transition, next_row, transition_row, written,
  applied_draft, decision_draft, applied_payload,
}
use threadloop.Store.Outcome.{
  Outcome, apply_session_transition-Outcome, replayed, conflict_replayed, conflicted, missing,
  unsound, rejected, accepted,
}
use threadloop.Store.Outcome.Writes.{
  Appended, append_audit_event-Appended, append_applied_events-Appended, Accepted, accept-Accepted,
}
use threadloop.Store.Outcome.Applies.{persist_proof_plan-store, bound_plan}
use threadloop.Store.Outcome.Chains.{IsIntact, Appended-IsIntact}
use threadloop.Store.Outcome.Authority.Events.{
  Appended-HasAuthority, appended_type, appended_payload, names-applied, matches-applied,
  create-value,
}

any-left :
    {A : Type 0} (p q : A → Bool) (xs : List A)
    → any (λ x. p x || q x) xs ≡ false
    → any p xs ≡ false
any-left p q [] h = refl
any-left p q (x ∷ xs) h = let ih = any-left p q xs (ground arith) in ground arith

and_true : {a b : Bool} → a ≡ true → b ≡ true → (a && b) ≡ true
and_true p q = ground arith

not-false : {b : Bool} → not b ≡ true → b ≡ false
not-false p = ground arith

module _ (engine : Engine) (fresh : Fresh) (input : PersistInput) (s : SessionStore) where
  -- The request that the call records is canonical, and hashes to the hash that it is filed under.
  pub record IsCanonical : Type 0 where
    pub canonical :
        canonicalize_json_value (object input.canonical_input) ≡ object input.canonical_input
    pub round_trips :
        engine.parse (engine.stringify (object input.canonical_input))
        ≡ some (object input.canonical_input)
    pub hashed :
        (canonicalize_transition_request engine.stringify engine.digest (record {
          session_id = s.session_id;
          target_state = input.target_state;
          expected_state_version = input.expected_state_version;
          actor = input.actor;
          input = object input.canonical_input;
        })).request_sha256
        ≡ input.request_sha256

  row_is_bound-transition_row :
      (current : TransitionSessionRow)
      → IsCanonical
      → input.expected_state_version ≡ current.state_version
      → row_is_bound engine s.session_id
          (transition_row engine fresh input s current)
          (object input.canonical_input)
        ≡ true
  unfolding row_is_bound canonicalize_transition_request
  row_is_bound-transition_row current c v =
      let hashed =
        subst
          (λ n.
            (canonicalize_transition_request engine.stringify engine.digest (record {
              session_id = s.session_id;
              target_state = input.target_state;
              expected_state_version = n;
              actor = input.actor;
              input = object input.canonical_input;
            })).request_sha256
            ≡ input.request_sha256)
          v c.hashed in
      and_true ((eq_iff _ _).1 hashed) ((eq_iff _ _).1 (ap engine.stringify c.canonical))

  module _ (a : HasAuthority engine s) (current : TransitionSessionRow)
      (found : s.current ≡ some current) (sound : is_corrupted current ≡ false) (c : IsCanonical)
      (v : input.expected_state_version ≡ current.state_version)
      (fresh_row : is_new_transition engine fresh input s current ≡ true) where
    abbrev row : TransitionRow
    row = transition_row engine fresh input s current

    valid_row : row_is_valid row ≡ true
    unfolding row_is_valid is_corrupted
    valid_row = ground arith

    unused_id : any (has_id row.id) s.transitions ≡ false
    unused_id =
        any-left (has_id row.id)
          (λ old. old.task_id == s.task_id && old.to_state_version == current.state_version + 1)
          s.transitions (not-false fresh_row)

    abbrev planned : SessionStore
    planned = record s { proof_plan = bound_plan input.bound_proof_plan s.proof_plan }

    HasAuthority-applied :
        (between : SessionStore) {t : SessionStore}
        → Appended engine
            (decision_draft engine fresh input row)
            (written engine fresh input current planned)
            between
        → Appended engine (applied_draft engine fresh input row) between t
        → HasAuthority engine t
    HasAuthority-applied between first second =
        let before = ap (λ u. u.audit_events) first.grown in
        let after =
          ap (λ u. u.audit_events) second.grown ∙ ap (λ e. e ++ second.event ∷ []) before in
        let intact_first = Appended-IsIntact engine first a.is_verified in
        let decided =
          IsAuthoritative-decision engine s.session_id s.task_id a first.event
            (subst (IsIntact engine) before intact_first)
            (ap is_applied (appended_type engine first)) in
        let at_row = some-injective _ _ (sym found ∙ decided.found) in
        let value = create-value engine _ second.is_created in
        subst (HasAuthority engine)
          (sym (
            second.grown
            ∙ ap {A = SessionStore} {B = SessionStore}
                (λ b. record b { audit_events = b.audit_events ++ second.event ∷ [] }) first.grown))
          (IsAuthoritative-transition engine s.session_id s.task_id decided
            (next_row engine fresh input current) row second.event
            (record {
              input = object input.canonical_input;
              from_state = ap (λ r. r.status) at_row;
              from_version = ap (λ r. r.state_version) at_row;
              is_valid = valid_row;
              is_parsed = c.round_trips;
              is_bound = row_is_bound-transition_row current c v;
              is_new = unused_id;
              of_task = refl;
              reached = refl;
              reached_version = refl;
              applies = ap is_applied (appended_type engine second);
              names_row =
                  ap (λ p. as_text (get "transition_id" p)) (appended_payload engine second)
                  ∙ names-applied engine fresh input row;
              matches =
                  ap (λ v. event_matches_row v row) value
                  ∙ matches-applied engine fresh input row between (get_last? between.audit_events);
              is_intact =
                  subst (IsIntact engine) after (Appended-IsIntact engine second intact_first);
            }))

  Accepted-HasAuthority :
      (evaluate_guards : GuardEvaluator) (current : TransitionSessionRow)
      {r : SessionTransitionResult × SessionStore}
      → HasAuthority engine s
      → s.current ≡ some current
      → is_corrupted current ≡ false
      → IsCanonical
      → input.expected_state_version ≡ current.state_version
      → Accepted engine fresh input current s r
      → HasAuthority engine r.1
  Accepted-HasAuthority evaluate_guards current {r} a found sound c v m =
      let (between, first, second) =
        append_applied_events-Appended engine fresh input _ _ m.audited in
      let same =
        persist_proof_plan-store engine fresh input evaluate_guards s input.bound_proof_plan current
          m.persisted in
      HasAuthority-applied a current found sound c v m.is_new between
        (subst
          (λ u.
            Appended engine
              (decision_draft engine fresh input (transition_row engine fresh input s current))
              (written engine fresh input current u) between)
          same first)
        second

  module _ (evaluate_guards : GuardEvaluator) (a : HasAuthority engine s) (c : IsCanonical) where
    append_rejection-HasAuthority :
        (error : TransitionError) (current : Option TransitionSessionRow) (u : SessionStore)
        {t : SessionStore}
        → append_rejection engine fresh input error current u ≡ return t
        → HasAuthority engine u
        → HasAuthority engine t
    unfolding append_rejection
    append_rejection-HasAuthority error none u p h =
        subst (HasAuthority engine) (return-injective p) h
    append_rejection-HasAuthority error (some current) u p h =
        Appended-HasAuthority engine (append_audit_event-Appended engine _ u p) refl h

    pub Outcome-HasAuthority :
        {r : SessionTransitionResult × SessionStore}
        → Outcome engine fresh input evaluate_guards s r
        → HasAuthority engine r.1
    Outcome-HasAuthority (replayed _ _) = a
    Outcome-HasAuthority (conflict_replayed _ _ _) = a
    Outcome-HasAuthority (conflicted _ _ m) = append_rejection-HasAuthority _ _ _ m a
    Outcome-HasAuthority (missing _) = a
    Outcome-HasAuthority (unsound _ _) = a
    Outcome-HasAuthority (rejected _ m) = append_rejection-HasAuthority _ _ _ m a
    Outcome-HasAuthority (accepted {current} _ found sound _ v _ _ _ m) =
        Accepted-HasAuthority evaluate_guards current a found sound c v
          (accept-Accepted engine fresh input current s m)
