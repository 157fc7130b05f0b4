-- ===== src/Audit/Chain.antt =====
-- What a verified audit chain is, beside `verifyAuditChain`.
use threadloop.Base.{
  ℕ, suc, ◌+◌, String, Option, none, some, Option-cases, ◌≡◌, inl, inr, refl, sym, ◌∙◌, ap, arith,
  List, [], ◌∷◌, ◌++◌, length, nat_eq, string_eq, subst,
}
use text.Mathlib.TextEquality.{eq_iff}
use mathlib.Core.Option.{some-injective}
use threadloop.Json.{Value}
use threadloop.Audit.{
  StoredAuditEvent, AuditVerificationErrorCode, AuditError, event_json, check_event, verify_events,
}

module _ (stringify : Value → String) (digest : String → String) where
  -- An event at its place: its sequence, the hash before it, its canonical text and its hash.
  pub record IsLinked (sequence : ℕ) (previous : String) (event : StoredAuditEvent) : Type 0 where
    pub in_sequence : event.value.sequence ≡ sequence
    pub to_previous : event.value.previous_sha256 ≡ previous
    pub is_canonical : event.json ≡ event_json stringify event.value
    pub is_hashed : event.sha256 ≡ digest event.json

  -- Events that link one to the next, from a sequence and a hash to the root.
  pub data Chained : ℕ → String → List StoredAuditEvent → String → Type 0 where
    done : {sequence : ℕ} {root : String} → Chained sequence root [] root
    link :
        {sequence : ℕ} {previous root : String} {event : StoredAuditEvent}
        {events : List StoredAuditEvent}
        → IsLinked sequence previous event
        → Chained (suc sequence) event.sha256 events root
        → Chained sequence previous (event ∷ events) root

  pub check_event-IsLinked :
      (sequence : ℕ) (previous : String) (event : StoredAuditEvent)
      → check_event stringify digest sequence previous event ≡ none
      → IsLinked sequence previous event
  unfolding check_event
  check_event-IsLinked sequence previous event h = record {
    in_sequence = ground arith;
    to_previous = ground (arith, eq_iff event.value.previous_sha256 previous);
    is_canonical = ground (arith, eq_iff event.json (event_json stringify event.value));
    is_hashed = ground (arith, eq_iff event.sha256 (digest event.json));
  }

  pub IsLinked-check_event :
      {sequence : ℕ} {previous : String} (event : StoredAuditEvent)
      → IsLinked sequence previous event
      → check_event stringify digest sequence previous event ≡ none
  unfolding check_event
  IsLinked-check_event {sequence} {previous} event l = ground (
    arith,
    eq_iff event.value.previous_sha256 previous,
    eq_iff event.json (event_json stringify event.value),
    eq_iff event.sha256 (digest event.json),
  )

  -- Where a prefix holds, and the first event behind it does not.
  pub record FirstError (sequence : ℕ) (previous : String) (events : List StoredAuditEvent)
      (root : String) (e : AuditError) : Type 0 where
    pub before : List StoredAuditEvent
    pub event : StoredAuditEvent
    pub after : List StoredAuditEvent
    pub split : events ≡ before ++ event ∷ after
    pub chained : Chained sequence previous before root
    pub at_event : e.sequence ≡ some (sequence + length before)
    pub reported : check_event stringify digest (sequence + length before) root event ≡ some e.code

  abbrev pub Verifies : ℕ → String → List StoredAuditEvent → String × Option AuditError → Type 0
  Verifies sequence previous events result =
      verify_events stringify digest sequence previous events ≡ result

  pub verify_events-Chained :
      (sequence : ℕ) (previous : String) (events : List StoredAuditEvent) (root : String)
      → Verifies sequence previous events (root, none)
      → Chained sequence previous events root
  unfolding verify_events
  verify_events-Chained sequence previous [] root h =
      subst (λ r. Chained sequence previous [] r) (ap (λ t. t.0) h) done
  verify_events-Chained sequence previous (event ∷ events) root h =
      elim (Option-cases (check_event stringify digest sequence previous event)) [
        | inl e ↦ link (check_event-IsLinked sequence previous event e) (
            verify_events-Chained (suc sequence) event.sha256 events root
              (rw (e, verify_events) at h))
        | inr (code, e) ↦ absurd (cc (ap (λ t. t.1) (rw (e, verify_events) at h)))
      ]

  pub Chained-verify_events :
      {sequence : ℕ} {previous root : String} {events : List StoredAuditEvent}
      → Chained sequence previous events root
      → Verifies sequence previous events (root, none)
  unfolding verify_events
  Chained-verify_events done = refl
  Chained-verify_events (link {event = event} l c) =
      rw (IsLinked-check_event event l, verify_events) (Chained-verify_events c)

  here_first :
      (sequence : ℕ) (previous : String) (event : StoredAuditEvent) (events : List StoredAuditEvent)
      {root : String} {e : AuditError} {code : AuditVerificationErrorCode}
      → check_event stringify digest sequence previous event ≡ some code
      → previous ≡ root
      → record { code = code; sequence = some sequence } ≡ e
      → FirstError sequence previous (event ∷ events) root e
  here_first sequence previous event events {root} {e} c p q = record {
    before = [];
    event = event;
    after = events;
    split = refl;
    chained = subst (λ r. Chained sequence previous [] r) p done;
    at_event = ap (λ x. x.sequence) (sym q) ∙ ap some (omega arith);
    reported =
        subst (λ k. check_event stringify digest k root event ≡ some e.code) (omega arith)
          (subst (λ r. check_event stringify digest sequence r event ≡ some e.code) p
            (c ∙ ap (λ x. some x.code) q));
  }

  later_first :
      (sequence : ℕ) (previous : String) (event : StoredAuditEvent) (events : List StoredAuditEvent)
      {root : String} {e : AuditError}
      → IsLinked sequence previous event
      → FirstError (suc sequence) event.sha256 events root e
      → FirstError sequence previous (event ∷ events) root e
  later_first sequence previous event events {root} {e} l f =
      let same : suc sequence + length f.before ≡ sequence + suc (length f.before) = omega arith in
      record {
        before = event ∷ f.before;
        event = f.event;
        after = f.after;
        split = ap (λ t. event ∷ t) f.split;
        chained = link l f.chained;
        at_event = f.at_event ∙ ap some same;
        reported =
            subst (λ k. check_event stringify digest k root f.event ≡ some e.code) same f.reported;
      }

  pub verify_events-FirstError :
      (sequence : ℕ) (previous : String) (events : List StoredAuditEvent) (root : String)
      (e : AuditError)
      → Verifies sequence previous events (root, some e)
      → FirstError sequence previous events root e
  unfolding verify_events
  verify_events-FirstError sequence previous [] root e h = absurd (cc (ap (λ t. t.1) h))
  verify_events-FirstError sequence previous (event ∷ events) root e h =
      elim (Option-cases (check_event stringify digest sequence previous event)) [
        | inl c ↦
            later_first sequence previous event events
              (check_event-IsLinked sequence previous event c)
              (verify_events-FirstError (suc sequence) event.sha256 events root e
                (rw (c, verify_events) at h))
        | inr (code, c) ↦
            here_first sequence previous event events c (ap (λ t. t.0) (rw (c, verify_events) at h))
              (some-injective _ _ (ap (λ t. t.1) (rw (c, verify_events) at h)))
      ]
