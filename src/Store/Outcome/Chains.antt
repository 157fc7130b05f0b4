-- ===== src/Store/Outcome/Chains.antt =====
-- The audit chain through `applySessionTransition`.
use threadloop.Base.{
  ℕ, suc, ◌+◌, String, Option, none, some, true, List, [], ◌∷◌, ◌≡◌, refl, sym, ap, ◌∙◌, subst,
  arith, get_last?, length,
}
use threadloop.Audit.{StoredAuditEvent, verify_audit_chain, zero_audit_hash}
use threadloop.Audit.Chain.{Chained, link, done}
use threadloop.Audit.Verification.{verify_audit_chain_iff, create_audit_event-extends}
use threadloop.Store.{
  Engine, TransitionSessionRow, TransitionError, SessionTransitionResult, SessionStore, return,
}
use threadloop.Store.Steps.{return-injective}
use threadloop.Store.Ledger.{AuditDraft, next_value}
use threadloop.Store.Rejection.{PersistInput, Fresh, append_rejection}
use threadloop.Store.Apply.{GuardEvaluator, apply_session_transition}
use threadloop.Store.Outcome.{
  Outcome, apply_session_transition-Outcome, replayed, conflict_replayed, conflicted, missing,
  unsound, rejected, accepted,
}
use threadloop.Store.Outcome.Writes.{
  Appended, append_audit_event-Appended, append_applied_events-Appended, Accepted, accept-Accepted,
}
use threadloop.Store.Outcome.Applies.{persist_proof_plan-store}

pub hash_after : String → Option StoredAuditEvent → String
hash_after hash none = hash
hash_after hash (some event) = event.sha256

pub sequence_after : ℕ → Option StoredAuditEvent → ℕ
sequence_after sequence none = sequence
sequence_after sequence (some event) = event.value.sequence + 1

last_event :
    (event : StoredAuditEvent) (events : List StoredAuditEvent)
    → (last : StoredAuditEvent) × (get_last? (event ∷ events) ≡ some last)
last_event event [] = (event, refl)
last_event event (next ∷ events) = last_event next events

module _ (engine : Engine) where
  -- The last event of a chain has the root, and the sequence before the next one.
  pub Chained-last :
      {sequence : ℕ} {previous root : String} {events : List StoredAuditEvent}
      → Chained engine.stringify engine.digest sequence previous events root
      → (hash_after previous (get_last? events) ≡ root)
        × (sequence_after sequence (get_last? events) ≡ sequence + length events)
  unfolding hash_after sequence_after
  Chained-last done = (refl, omega arith)
  Chained-last {sequence} (link {events = []} m c) =
      ((Chained-last c).0, let e = m.in_sequence in omega arith)
  Chained-last {sequence} (link {events = next ∷ events} m c) =
      let (last, e) = last_event next events in
      let k = Chained-last c in
      let n : last.value.sequence + 1 ≡ suc sequence + suc (length events) = rw e at k.1 in
      (rw e (rw e at k.0), rw e (omega arith))

  abbrev pub IsIntact : List StoredAuditEvent → Type 0
  IsIntact events = (verify_audit_chain engine.stringify engine.digest events none).valid ≡ true

  pub value-sequence :
      (s : SessionStore) (draft : AuditDraft) (o : Option StoredAuditEvent)
      → ((next_value s draft o).sequence ≡ sequence_after 1 o)
        × ((next_value s draft o).previous_sha256 ≡ hash_after zero_audit_hash o)
  unfolding hash_after sequence_after
  value-sequence s draft none = (refl, refl)
  value-sequence s draft (some event) = (refl, refl)

  pub Appended-IsIntact :
      {draft : AuditDraft} {s t : SessionStore}
      → Appended engine draft s t
      → IsIntact s.audit_events
      → IsIntact t.audit_events
  Appended-IsIntact {draft} {s} a h =
      let c =
        ((verify_audit_chain_iff engine.stringify engine.digest s.audit_events none).0 h).chained in
      let last = Chained-last c in
      let value = value-sequence s draft (get_last? s.audit_events) in
      subst (λ t. IsIntact t.audit_events) (sym a.grown)
        (create_audit_event-extends engine.stringify engine.digest s.audit_events _ c
          (value.0 ∙ last.1 ∙ omega arith) (value.1 ∙ last.0) a.is_created).0

module _ (engine : Engine) (fresh : Fresh) (input : PersistInput) where
  append_rejection-IsIntact :
      (error : TransitionError) (current : Option TransitionSessionRow) (s : SessionStore)
      {t : SessionStore}
      → append_rejection engine fresh input error current s ≡ return t
      → IsIntact engine s.audit_events
      → IsIntact engine t.audit_events
  unfolding append_rejection
  append_rejection-IsIntact error none s p h =
      subst (λ t. IsIntact engine t.audit_events) (return-injective p) h
  append_rejection-IsIntact error (some current) s p h =
      Appended-IsIntact engine (append_audit_event-Appended engine _ s p) h

  module _ (evaluate_guards : GuardEvaluator) (s : SessionStore) where
    Accepted-IsIntact :
        (current : TransitionSessionRow) {r : SessionTransitionResult × SessionStore}
        → Accepted engine fresh input current s r
        → IsIntact engine s.audit_events
        → IsIntact engine r.1.audit_events
    Accepted-IsIntact current m h =
        let events =
          persist_proof_plan-store engine fresh input evaluate_guards s input.bound_proof_plan
            current m.persisted in
        let (between, first, second) =
          append_applied_events-Appended engine fresh input _ _ m.audited in
        Appended-IsIntact engine second (
          Appended-IsIntact engine first
            (subst (IsIntact engine) (ap (λ u. u.audit_events) (sym events)) h))

    Outcome-IsIntact :
        {r : SessionTransitionResult × SessionStore}
        → Outcome engine fresh input evaluate_guards s r
        → IsIntact engine s.audit_events
        → IsIntact engine r.1.audit_events
    Outcome-IsIntact (replayed _ _) h = h
    Outcome-IsIntact (conflict_replayed _ _ _) h = h
    Outcome-IsIntact (conflicted _ _ m) h = append_rejection-IsIntact _ _ _ m h
    Outcome-IsIntact (missing _) h = h
    Outcome-IsIntact (unsound _ _) h = h
    Outcome-IsIntact (rejected _ m) h = append_rejection-IsIntact _ _ _ m h
    Outcome-IsIntact (accepted {current} _ _ _ _ _ _ _ _ m) h =
        Accepted-IsIntact current (accept-Accepted engine fresh input current s m) h

    -- A call that returns, with a success or a failure, fresh or replayed, leaves an audit chain that
    -- verifies if the chain it found does.
    pub apply_session_transition-IsIntact :
        (t : SessionStore) (result : SessionTransitionResult)
        → IsIntact engine s.audit_events
        → apply_session_transition engine fresh input evaluate_guards s ≡ return (result, t)
        → IsIntact engine t.audit_events
    apply_session_transition-IsIntact t result h p =
        Outcome-IsIntact (apply_session_transition-Outcome engine fresh input evaluate_guards s p) h
