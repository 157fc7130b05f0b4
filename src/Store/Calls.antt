-- ===== src/Store/Calls.antt =====
-- Any number of calls of `applySessionTransition`, each in its write transaction.
use threadloop.Base.{none, some, false, ◌≡◌, refl, find}
use threadloop.Store.{
  Engine, TransitionSessionRow, SessionTransitionResult, SessionStore, Action, return, throw,
  commit, is_corrupted,
}
use threadloop.Store.History.Authoritative.{HasAuthority, assert-HasAuthority, HasAuthority-assert}
use threadloop.Store.History.{HistoryAuthority, assert_session_transition_history_authority}
use threadloop.Store.Rejection.{PersistInput, Fresh, has_key}
use threadloop.Store.Apply.{GuardEvaluator, apply_session_transition}
use threadloop.Store.Outcome.{Outcome, apply_session_transition-Outcome}
use threadloop.Store.Outcome.Growth.{Grows, Grows-refl, Grows-trans, Outcome-Grows, find-StartsWith}
use threadloop.Store.Outcome.Authority.{IsCanonical, Outcome-HasAuthority}
use threadloop.Store.Outcome.Retry.{apply_session_transition-IsRecordedAs, IsRecordedAs-returns}

-- The store that a call leaves, thrown or returned.
abbrev pub after_call : Engine → Fresh → PersistInput → GuardEvaluator → SessionStore → SessionStore
after_call engine fresh input evaluate_guards s =
    (commit s (apply_session_transition engine fresh input evaluate_guards s)).1

-- One call after the other, with canonical requests.
pub data Calls (engine : Engine) : SessionStore → SessionStore → Type 0 where
  no_more : {s : SessionStore} → Calls engine s s
  next_call :
      {s t : SessionStore} (fresh : Fresh) (input : PersistInput) (evaluate_guards : GuardEvaluator)
      → IsCanonical engine fresh input s
      → Calls engine (after_call engine fresh input evaluate_guards s) t
      → Calls engine s t

module _ (engine : Engine) where
  -- One call, which rolls back where it throws.
  module _ (fresh : Fresh) (input : PersistInput) (evaluate_guards : GuardEvaluator)
      (s : SessionStore) where
    after_call-cases :
        (P : SessionStore → Type 0)
        → P s
        → ((r : SessionTransitionResult × SessionStore)
            → Outcome engine fresh input evaluate_guards s r
            → P r.1)
        → P (after_call engine fresh input evaluate_guards s)
    after_call-cases P stays moves =
        by_result (apply_session_transition engine fresh input evaluate_guards s) refl
      where
        by_result :
            (m : Action (SessionTransitionResult × SessionStore))
            → apply_session_transition engine fresh input evaluate_guards s ≡ m
            → P (commit s m).1
        by_result (return r) e =
            moves r (apply_session_transition-Outcome engine fresh input evaluate_guards s e)
        by_result (throw fault) e = stays

  Calls-Grows : {s t : SessionStore} → Calls engine s t → Grows s t
  Calls-Grows {s} no_more = Grows-refl s
  Calls-Grows {s} (next_call fresh input evaluate_guards c rest) =
      Grows-trans
        (after_call-cases fresh input evaluate_guards s (Grows s) (Grows-refl s)
          (λ r. Outcome-Grows engine fresh input evaluate_guards s))
        (Calls-Grows rest)

  Calls-HasAuthority :
      {s t : SessionStore} → Calls engine s t → HasAuthority engine s → HasAuthority engine t
  Calls-HasAuthority no_more a = a
  Calls-HasAuthority {s} (next_call fresh input evaluate_guards c rest) a =
      Calls-HasAuthority rest (
        after_call-cases fresh input evaluate_guards s (HasAuthority engine) a
          (λ r. Outcome-HasAuthority engine fresh input s evaluate_guards a c))

  -- After any number of calls with canonical requests, each of which returned or threw, a session
  -- whose history passed the assertion of authority passes it again, and has every transition,
  -- every request and every audit event that it had, in their order, with the later ones behind
  -- them.
  pub Calls-IsAuthoritative :
      {s t : SessionStore} (authority : HistoryAuthority)
      → Calls engine s t
      → assert_session_transition_history_authority engine s ≡ return authority
      → Grows s t
        × (after : HistoryAuthority) × (assert_session_transition_history_authority engine t
            ≡ return after)
  Calls-IsAuthoritative {s} {t} authority calls h = (
    Calls-Grows calls,
    _,
    HasAuthority-assert engine t (Calls-HasAuthority calls (assert-HasAuthority engine s h)),
  )

  -- A canonical request that returned a result to a sound session under a new key returns the same
  -- result when it is sent again, after any number of other calls, whatever the clock, the ids and
  -- the guards are by then, and changes nothing.
  pub apply_session_transition-retry :
      (fresh later : Fresh) (input : PersistInput) (evaluate_guards evaluate_later : GuardEvaluator)
      (s t u : SessionStore) (result : SessionTransitionResult) (current : TransitionSessionRow)
      → find (has_key engine fresh input) s.idempotency ≡ none
      → s.current ≡ some current
      → is_corrupted current ≡ false
      → IsCanonical engine fresh input s
      → apply_session_transition engine fresh input evaluate_guards s ≡ return (result, t)
      → Calls engine t u
      → apply_session_transition engine later input evaluate_later u ≡ return (result, u)
  apply_session_transition-retry fresh later input evaluate_guards evaluate_later s t u result
        current new found sound c p calls =
      let recorded =
        apply_session_transition-IsRecordedAs engine fresh input evaluate_guards s t result current
          new found sound c p in
      IsRecordedAs-returns engine fresh later input evaluate_later u result (record {
        under_key =
            find-StartsWith (has_key engine fresh input) t.idempotency u.idempotency
              (Calls-Grows calls).requests recorded.under_key;
        authority = Calls-HasAuthority calls recorded.authority;
      })
