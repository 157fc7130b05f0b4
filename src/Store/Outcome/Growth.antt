-- ===== src/Store/Outcome/Growth.antt =====
-- What `applySessionTransition` leaves of the rows that it found.
use threadloop.Base.{
  Option, none, some, Bool, List, [], ◌∷◌, ◌++◌, Bool-cases, inl, inr, ◌≡◌, refl, sym, ap, ◌∙◌,
  subst, arith, find, append_assoc, append-nil,
}
use threadloop.Store.{
  Engine, TransitionSessionRow, TransitionError, SessionTransitionResult, IdempotencyRow,
  SessionStore, return,
}
use threadloop.Store.Steps.{return-injective}
use threadloop.Store.Rejection.{PersistInput, Fresh, append_rejection}
use threadloop.Store.Apply.{GuardEvaluator, written}
use threadloop.Store.Outcome.{
  Outcome, replayed, conflict_replayed, conflicted, missing, unsound, rejected, accepted,
}
use threadloop.Store.Outcome.Writes.{
  Appended, append_audit_event-Appended, append_applied_events-Appended, Accepted, accept-Accepted,
}
use threadloop.Proof.{BoundProofPlan}
use threadloop.Store.Ledger.{AuditDraft}
use threadloop.Store.Outcome.Applies.{bound_plan, persist_proof_plan-store}

abbrev pub StartsWith : {A : Type 0} → List A → List A → Type 0
StartsWith {A} xs ys = (more : List A) × (ys ≡ xs ++ more)

module _ {A : Type 0} where
  starts_refl : (xs : List A) → StartsWith xs xs
  starts_refl xs = ([], sym (append-nil xs))

  starts_trans : (xs ys zs : List A) → StartsWith xs ys → StartsWith ys zs → StartsWith xs zs
  starts_trans xs ys zs (more, p) (rest, q) =
      (more ++ rest, q ∙ ap (λ t. t ++ rest) p ∙ append_assoc xs more rest)

  pub find-StartsWith :
      (p : A → Bool) (xs ys : List A) {x : A}
      → StartsWith xs ys
      → find p xs ≡ some x
      → find p ys ≡ some x
  find-StartsWith p xs ys (more, q) h = ap (find p) q ∙ find_more xs h
    where
      find_more : (xs : List A) {x : A} → find p xs ≡ some x → find p (xs ++ more) ≡ some x
      find_more [] h = absurd (ground arith)
      find_more (y ∷ ys) h = elim (Bool-cases (p y)) [
        | inl e ↦ rw e (rw e at h)
        | inr e ↦ rw e (find_more ys (rw e at h))
      ]

-- Transitions, requests and audit events are only ever appended.
pub record Grows (s t : SessionStore) : Type 0 where
  pub transitions : StartsWith s.transitions t.transitions
  pub requests : StartsWith s.idempotency t.idempotency
  pub events : StartsWith s.audit_events t.audit_events

pub Grows-refl : (s : SessionStore) → Grows s s
Grows-refl s = record {
  transitions = starts_refl s.transitions;
  requests = starts_refl s.idempotency;
  events = starts_refl s.audit_events;
}

pub Grows-trans : {s t u : SessionStore} → Grows s t → Grows t u → Grows s u
Grows-trans a b = record {
  transitions = starts_trans _ _ _ a.transitions b.transitions;
  requests = starts_trans _ _ _ a.requests b.requests;
  events = starts_trans _ _ _ a.events b.events;
}

module _ (engine : Engine) where
  Appended-Grows : {draft : AuditDraft} {s t : SessionStore} → Appended engine draft s t → Grows s t
  Appended-Grows {s = s} {t} m = subst (Grows s) (sym m.grown) (record {
    transitions = starts_refl s.transitions;
    requests = starts_refl s.idempotency;
    events = (m.event ∷ [], refl);
  })

  module _ (fresh : Fresh) (input : PersistInput) where
    append_rejection-Grows :
        (error : TransitionError) (current : Option TransitionSessionRow) (s : SessionStore)
        {t : SessionStore}
        → append_rejection engine fresh input error current s ≡ return t
        → Grows s t
    unfolding append_rejection
    append_rejection-Grows error none s p = subst (Grows s) (return-injective p) (Grows-refl s)
    append_rejection-Grows error (some current) s p =
        Appended-Grows (append_audit_event-Appended engine _ s p)

    requests-Grows :
        (s : SessionStore) (row : IdempotencyRow)
        → Grows s (record s { idempotency = s.idempotency ++ row ∷ [] })
    requests-Grows s row = record {
      transitions = starts_refl s.transitions;
      requests = (row ∷ [], refl);
      events = starts_refl s.audit_events;
    }

    conflicts-Grows :
        (s : SessionStore) (conflicts : List IdempotencyRow)
        → Grows s (record s { conflicts = conflicts })
    conflicts-Grows s conflicts = record {
      transitions = starts_refl s.transitions;
      requests = starts_refl s.idempotency;
      events = starts_refl s.audit_events;
    }

    written-Grows :
        (current : TransitionSessionRow) (s : SessionStore) (plan : Option BoundProofPlan)
        → Grows s (written engine fresh input current (record s { proof_plan = plan }))
    written-Grows current s plan = record {
      transitions = (_, refl);
      requests = (_, refl);
      events = starts_refl s.audit_events;
    }

    module _ (evaluate_guards : GuardEvaluator) (s : SessionStore) where
      Accepted-Grows :
          (current : TransitionSessionRow) {r : SessionTransitionResult × SessionStore}
          → Accepted engine fresh input current s r
          → Grows s r.1
      Accepted-Grows current m =
          let same =
            persist_proof_plan-store engine fresh input evaluate_guards s input.bound_proof_plan
              current m.persisted in
          let (between, first, second) =
            append_applied_events-Appended engine fresh input _ _ m.audited in
          let start =
            subst (λ u. Grows s (written engine fresh input current u)) (sym same)
              (written-Grows current s (bound_plan input.bound_proof_plan s.proof_plan)) in
          Grows-trans start (Grows-trans (Appended-Grows first) (Appended-Grows second))

      pub Outcome-Grows :
          {r : SessionTransitionResult × SessionStore}
          → Outcome engine fresh input evaluate_guards s r
          → Grows s r.1
      Outcome-Grows (replayed _ _) = Grows-refl s
      Outcome-Grows (conflict_replayed _ _ _) = Grows-refl s
      Outcome-Grows (conflicted _ _ m) =
          Grows-trans (conflicts-Grows s _) (append_rejection-Grows _ _ _ m)
      Outcome-Grows (missing _) = Grows-refl s
      Outcome-Grows (unsound _ _) = Grows-refl s
      Outcome-Grows (rejected _ m) =
          Grows-trans (requests-Grows s _) (append_rejection-Grows _ _ _ m)
      Outcome-Grows (accepted {current} _ _ _ _ _ _ _ _ m) =
          Accepted-Grows current (accept-Accepted engine fresh input current s m)
