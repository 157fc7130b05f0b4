-- ===== src/Store/Outcome/Retry.antt =====
-- A request that is sent again.
use threadloop.Base.{
  Option, none, some, Bool, true, false, List, [], ◌∷◌, ◌++◌, Bool-cases, inl, inr, ◌≡◌, refl, sym,
  ap, ◌∙◌, arith, find, beq_refl, string_eq,
}
use threadloop.Store.{
  Engine, TransitionSessionRow, TransitionError, SessionTransitionResult, IdempotencyRow,
  SessionStore, return, is_corrupted,
}
use mathlib.Core.Option.{some-injective}
use threadloop.Store.Steps.{return-injective}
use threadloop.Store.History.{HistoryAuthority, assert_session_transition_history_authority}
use threadloop.Store.Rejection.{
  PersistInput, Fresh, append_rejection, has_key, is_same_request, idempotency_row, replay,
}
use threadloop.Store.Apply.{GuardEvaluator, apply_session_transition, written}
use threadloop.Store.History.Authoritative.{HasAuthority, assert-HasAuthority, HasAuthority-assert}
use threadloop.Store.Outcome.Authority.{IsCanonical, Outcome-HasAuthority}
use threadloop.Store.Outcome.{
  Outcome, apply_session_transition-Outcome, replayed, conflict_replayed, conflicted, missing,
  unsound, rejected, accepted,
}
use threadloop.Store.Outcome.Writes.{
  append_audit_event-Appended, append_applied_events-Appended, Accepted, accept-Accepted,
}
use threadloop.Store.Outcome.Applies.{persist_proof_plan-store}

find-append :
    {A : Type 0} (p : A → Bool) (xs : List A) (x : A)
    → find p xs ≡ none
    → p x ≡ true
    → find p (xs ++ x ∷ []) ≡ some x
find-append p [] x h k = rw k refl
find-append p (y ∷ xs) x h k = elim (Bool-cases (p y)) [
  | inl e ↦ absurd (ground arith)
  | inr e ↦ rw e (find-append p xs x (rw e at h) k)
]

some-none {ℓ} : {A : Type ℓ} {a : A} → some a ≡ none → ⊥
some-none p = ground arith

true-false : true ≡ false → ⊥
true-false p = ground arith

module _ (engine : Engine) (fresh : Fresh) (input : PersistInput) where
  abbrev pub requests_with : SessionStore → SessionTransitionResult → List IdempotencyRow
  requests_with s result = s.idempotency ++ idempotency_row engine fresh input result ∷ []

  -- What a request that returned a result under a new key leaves for the next one.
  pub record IsRecordedAs (result : SessionTransitionResult) (t : SessionStore) : Type 0 where
    pub under_key :
        find (has_key engine fresh input) t.idempotency
        ≡ some (idempotency_row engine fresh input result)
    pub authority : HasAuthority engine t

  append_rejection-requests :
      (error : TransitionError) (current : Option TransitionSessionRow) (s : SessionStore)
      {t : SessionStore}
      → append_rejection engine fresh input error current s ≡ return t
      → t.idempotency ≡ s.idempotency
  unfolding append_rejection
  append_rejection-requests error none s p = ap (λ t. t.idempotency) (sym (return-injective p))
  append_rejection-requests error (some current) s p =
      ap (λ t. t.idempotency) (append_audit_event-Appended engine _ s p).grown

  replay-same :
      (row : IdempotencyRow) (t : SessionStore) {authority : HistoryAuthority}
      → find (has_key engine fresh input) t.idempotency ≡ some row
      → is_same_request engine fresh input row ≡ true
      → assert_session_transition_history_authority engine t ≡ return authority
      → (evaluate_guards : GuardEvaluator)
      → apply_session_transition engine fresh input evaluate_guards t ≡ return (row.result, t)
  unfolding apply_session_transition replay
  replay-same row t f b h evaluate_guards =
      rw (f, apply_session_transition) (rw (h, replay) (rw b refl))

module _ (engine : Engine) (fresh : Fresh) (input : PersistInput) (evaluate_guards : GuardEvaluator)
    (s : SessionStore) where
  Accepted-requests :
      (current : TransitionSessionRow) {r : SessionTransitionResult × SessionStore}
      → Accepted engine fresh input current s r
      → r.1.idempotency ≡ requests_with engine fresh input s r.0
  Accepted-requests current {r} m =
      let planned =
        persist_proof_plan-store engine fresh input evaluate_guards s input.bound_proof_plan current
          m.persisted in
      let (between, first, second) =
        append_applied_events-Appended engine fresh input _ _ m.audited in
      ap (λ t. t.idempotency) second.grown
      ∙ ap (λ t. t.idempotency) first.grown
      ∙ ap (λ u. (written engine fresh input current u).idempotency) planned
      ∙ ap (requests_with engine fresh input s) (sym m.result)

  Outcome-requests :
      {r : SessionTransitionResult × SessionStore}
      → Outcome engine fresh input evaluate_guards s r
      → find (has_key engine fresh input) s.idempotency ≡ none
      → {current : TransitionSessionRow} → s.current ≡ some current
      → is_corrupted current ≡ false
      → r.1.idempotency ≡ requests_with engine fresh input s r.0
  Outcome-requests (replayed k _) new found sound = absurd (some-none (sym k ∙ new))
  Outcome-requests (conflict_replayed k _ _) new found sound = absurd (some-none (sym k ∙ new))
  Outcome-requests (conflicted k _ _) new found sound = absurd (some-none (sym k ∙ new))
  Outcome-requests (missing c) new found sound = absurd (some-none (sym found ∙ c))
  Outcome-requests (unsound {current = row} c b) new {current} found sound =
      let same : row ≡ current = some-injective _ _ (sym c ∙ found) in
      absurd (true-false (sym b ∙ ap is_corrupted same ∙ sound))
  Outcome-requests (rejected _ m) new found sound =
      append_rejection-requests engine fresh input _ _ _ m
  Outcome-requests (accepted {current} _ _ _ _ _ _ _ _ m) new found sound =
      Accepted-requests current (accept-Accepted engine fresh input current s m)

  Outcome-authority :
      {r : SessionTransitionResult × SessionStore}
      → Outcome engine fresh input evaluate_guards s r
      → {current : TransitionSessionRow} → s.current ≡ some current
      → is_corrupted current ≡ false
      → HasAuthority engine s
  Outcome-authority (replayed _ h) found sound = assert-HasAuthority engine s h
  Outcome-authority (conflict_replayed _ h _) found sound = assert-HasAuthority engine s h
  Outcome-authority (conflicted _ h _) found sound = assert-HasAuthority engine s h
  Outcome-authority (missing c) found sound = absurd (some-none (sym found ∙ c))
  Outcome-authority (unsound {current = row} c b) {current} found sound =
      let same : row ≡ current = some-injective _ _ (sym c ∙ found) in
      absurd (true-false (sym b ∙ ap is_corrupted same ∙ sound))
  Outcome-authority (rejected h _) found sound = assert-HasAuthority engine s h
  Outcome-authority (accepted _ _ _ h _ _ _ _ _) found sound = assert-HasAuthority engine s h

  pub apply_session_transition-IsRecordedAs :
      (t : SessionStore) (result : SessionTransitionResult) (current : TransitionSessionRow)
      → find (has_key engine fresh input) s.idempotency ≡ none
      → s.current ≡ some current
      → is_corrupted current ≡ false
      → IsCanonical engine fresh input s
      → apply_session_transition engine fresh input evaluate_guards s ≡ return (result, t)
      → IsRecordedAs engine fresh input result t
  apply_session_transition-IsRecordedAs t result current new found sound c p =
      let outcome = apply_session_transition-Outcome engine fresh input evaluate_guards s p in
      let row = idempotency_row engine fresh input result in
      record {
        under_key =
            ap (find (has_key engine fresh input)) (Outcome-requests outcome new found sound)
            ∙ find-append (has_key engine fresh input) s.idempotency row new
                (beq_refl input.idempotency_key);
        authority =
            Outcome-HasAuthority engine fresh input s evaluate_guards
              (Outcome-authority outcome found sound) c outcome;
      }

-- A recorded request returns its result, and changes nothing.
pub IsRecordedAs-returns :
    (engine : Engine) (fresh later : Fresh) (input : PersistInput) (evaluate_later : GuardEvaluator)
    (t : SessionStore) (result : SessionTransitionResult)
    → IsRecordedAs engine fresh input result t
    → apply_session_transition engine later input evaluate_later t ≡ return (result, t)
IsRecordedAs-returns engine fresh later input evaluate_later t result r =
    replay-same engine later input (idempotency_row engine fresh input result) t r.under_key
      (rw (beq_refl input.request_sha256, beq_refl input.request_json) refl)
      (HasAuthority-assert engine t r.authority) evaluate_later
