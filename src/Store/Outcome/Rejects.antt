-- ===== src/Store/Outcome/Rejects.antt =====
-- What a call of `applySessionTransition` that fails leaves.
use threadloop.Base.{Option, none, some, ◌≡◌, refl, sym, ◌∙◌, subst, arith}
use threadloop.Store.{
  Engine, TransitionSessionRow, TransitionError, AppliedTransition, SessionTransitionResult, failed,
  SessionStore, return,
}
use threadloop.Store.Steps.{return-injective}
use threadloop.Store.Rejection.{PersistInput, Fresh, append_rejection}
use threadloop.Store.Apply.{GuardEvaluator, apply_session_transition}
use threadloop.Store.Outcome.{
  Outcome, replayed, conflict_replayed, conflicted, missing, unsound, rejected, accepted,
  apply_session_transition-Outcome,
}
use threadloop.Store.Outcome.Writes.{
  Keeps, Keeps-trans, same_session, append_audit_event-Appended, Appended-Keeps, accept-Accepted,
}

Keeps-refl : (s : SessionStore) → Keeps s s
Keeps-refl s = same_session s s.idempotency s.conflicts s.audit_events

module _ (engine : Engine) (fresh : Fresh) (input : PersistInput) where
  append_rejection-Keeps :
      (error : TransitionError) (current : Option TransitionSessionRow) (s : SessionStore)
      {t : SessionStore}
      → append_rejection engine fresh input error current s ≡ return t
      → Keeps s t
  unfolding append_rejection
  append_rejection-Keeps error none s p = subst (Keeps s) (return-injective p) (Keeps-refl s)
  append_rejection-Keeps error (some current) s p =
      Appended-Keeps engine (append_audit_event-Appended engine _ s p)

  module _ (evaluate_guards : GuardEvaluator) (s : SessionStore) where
    Outcome-Keeps :
        {r : SessionTransitionResult × SessionStore}
        → Outcome engine fresh input evaluate_guards s r
        → {error : TransitionError} → r.0 ≡ failed error
        → Keeps s r.1
    Outcome-Keeps (replayed _ _) e = Keeps-refl s
    Outcome-Keeps (conflict_replayed _ _ _) e = Keeps-refl s
    Outcome-Keeps (conflicted _ _ m) e =
        Keeps-trans (same_session s _ _ _) (append_rejection-Keeps _ _ _ m)
    Outcome-Keeps (missing _) e = Keeps-refl s
    Outcome-Keeps (unsound _ _) e = Keeps-refl s
    Outcome-Keeps (rejected _ m) e =
        Keeps-trans (same_session s _ _ _) (append_rejection-Keeps _ _ _ m)
    Outcome-Keeps (accepted {current} _ _ _ _ _ _ _ _ m) e =
        absurd (applied-failed (sym (accept-Accepted engine fresh input current s m).result ∙ e))
      where
        applied-failed :
            {a : AppliedTransition} {error : TransitionError}
            → SessionTransitionResult.applied a ≡ failed error
            → ⊥
        applied-failed e = ground arith

    -- A call that returns a failure, fresh or replayed, changes nothing of what the session has:
    -- its lifecycle row, its transitions, its bound proof plan and its receipts are what they were.
    pub apply_session_transition-failed :
        (t : SessionStore) (error : TransitionError)
        → apply_session_transition engine fresh input evaluate_guards s ≡ return (failed error, t)
        → Keeps s t
    apply_session_transition-failed t error p =
        Outcome-Keeps (apply_session_transition-Outcome engine fresh input evaluate_guards s p) refl
