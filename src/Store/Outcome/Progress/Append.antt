-- ===== src/Store/Outcome/Progress/Append.antt =====
-- Where `appendAuditEvent` returns.
use threadloop.Base.{
  ℕ, ◌+◌, ◌≤◌, String, none, some, Bool, true, false, not, ◌&&◌, List, [], ◌∷◌, ◌++◌, ◌≡◌, refl, ap,
  ◌∙◌, arith, any, all, get_last?, length, is_hex_of_length, ◌==◌, string_eq, nat_eq,
}
use text.Mathlib.TextEquality.{eq_iff}
use threadloop.Audit.{
  StoredAuditEvent, AuditEventValue, verify_audit_chain, create_audit_event, event_json,
  zero_audit_hash, max_safe_integer, verify_audit_event_integrity,
}
use threadloop.Audit.Chain.{Chained, link, done}
use threadloop.Audit.Verification.{verify_audit_chain_iff}
use threadloop.Store.{Engine, SessionStore, return}
use threadloop.Store.Ledger.{AuditDraft, append_audit_event, next_value, tail_error, event_collides}
use threadloop.Store.Outcome.Authority.Events.{drafted}
use threadloop.Store.Outcome.Writes.{Appended}
use threadloop.Store.Outcome.Chains.{IsIntact, Chained-last, value-sequence}

zero_audit_hash-is_hex : is_hex_of_length 64 zero_audit_hash ≡ true
unfolding is_hex_of_length
zero_audit_hash-is_hex = refl

module _ (engine : Engine) where
  abbrev Chain : ℕ → String → List StoredAuditEvent → String → Type 0
  Chain = Chained engine.stringify engine.digest

  -- A later sequence is free.
  sequence-free :
      {sequence : ℕ} {previous root : String} {events : List StoredAuditEvent} (n : ℕ)
      → Chain sequence previous events root
      → sequence + length events ≤ n
      → any (λ event. event.value.sequence == n) events ≡ false
  sequence-free n done h = refl
  sequence-free n (link l c) h =
      let rest = sequence-free n c (omega arith) in let here = l.in_sequence in ground arith

  -- The last event of a chain is sound.
  tail_is_sound :
      {sequence : ℕ} {previous root : String} {events : List StoredAuditEvent}
      → Chain sequence previous events root
      → tail_error engine (get_last? events) ≡ none
  unfolding verify_audit_event_integrity
  tail_is_sound done = refl
  tail_is_sound (link {event = event} {events = []} l c) = ground (
    arith,
    eq_iff event.json (event_json engine.stringify event.value),
    eq_iff event.sha256 (engine.digest event.json),
    l.is_canonical,
    l.is_hashed,
  )
  tail_is_sound (link {events = next ∷ events} l c) = tail_is_sound c

  module _ (is_hex : (content : String) → is_hex_of_length 64 (engine.digest content) ≡ true) where
    previous-is_hex :
        {sequence : ℕ} {previous root : String} {events : List StoredAuditEvent}
        → Chain sequence previous events root
        → is_hex_of_length 64 previous ≡ true
        → is_hex_of_length 64 root ≡ true
    previous-is_hex done h = h
    previous-is_hex (link {event = event} l c) h =
        previous-is_hex c (ap (is_hex_of_length 64) l.is_hashed ∙ is_hex event.json)

  -- The event that a draft becomes, and the store with it.
  abbrev pub event_of : SessionStore → AuditDraft → StoredAuditEvent
  event_of s draft =
      let value = next_value s draft (get_last? s.audit_events) in
      record {
        value = value;
        json = event_json engine.stringify value;
        sha256 = engine.digest (event_json engine.stringify value);
      }

  abbrev pub with_event : SessionStore → AuditDraft → SessionStore
  with_event s draft = record s { audit_events = s.audit_events ++ event_of s draft ∷ [] }

  -- Neither the id nor the hash of an event is among the events.
  abbrev pub is_unused : StoredAuditEvent → List StoredAuditEvent → Bool
  is_unused event events =
      all (λ row. not (row.value.id == event.value.id) && not (row.sha256 == event.sha256)) events

  unused-collides :
      (event : StoredAuditEvent) (events : List StoredAuditEvent)
      → is_unused event events ≡ true
      → any (λ row. row.value.sequence == event.value.sequence) events ≡ false
      → any (event_collides event) events ≡ false
  unfolding event_collides
  unused-collides event [] h k = refl
  unused-collides event (row ∷ rows) h k =
      let rest = unused-collides event rows (ground arith) (ground arith) in ground arith

  create-returns :
      (value : AuditEventValue)
      → 1 ≤ value.sequence
      → value.sequence ≤ max_safe_integer
      → value.state_version ≤ max_safe_integer
      → is_hex_of_length 64 value.previous_sha256 ≡ true
      → create_audit_event engine.stringify engine.digest value
        ≡ some (record {
          value = value;
          json = event_json engine.stringify value;
          sha256 = engine.digest (event_json engine.stringify value);
        })
  unfolding create_audit_event
  create-returns value a b c d = ground arith

  module _ (s : SessionStore) (draft : AuditDraft)
      (is_hex : (content : String) → is_hex_of_length 64 (engine.digest content) ≡ true)
      (intact : IsIntact engine s.audit_events)
      (has_room : length s.audit_events + 1 ≤ max_safe_integer)
      (is_safe : draft.state_version ≤ max_safe_integer) where
    abbrev next : AuditEventValue
    next = next_value s draft (get_last? s.audit_events)

    abbrev root : String
    root = (verify_audit_chain engine.stringify engine.digest s.audit_events none).root

    chain : Chain 1 zero_audit_hash s.audit_events root
    chain =
        ((verify_audit_chain_iff engine.stringify engine.digest s.audit_events none).0
          intact).chained

    in_place : (next.sequence ≡ 1 + length s.audit_events) × (next.previous_sha256 ≡ root)
    in_place =
        let last = Chained-last engine chain in
        let value = value-sequence engine s draft (get_last? s.audit_events) in
        (value.0 ∙ last.1, value.1 ∙ last.0)

    create_audit_event-returns :
        create_audit_event engine.stringify engine.digest next ≡ some (event_of s draft)
    create_audit_event-returns =
        let place = in_place.0 in
        let version = (drafted engine s draft (get_last? s.audit_events)).1 in
        create-returns next (omega arith) (omega arith) (omega arith) (
          ap (is_hex_of_length 64) in_place.1 ∙ previous-is_hex is_hex chain zero_audit_hash-is_hex)

    -- It returns for an event that the insert guard has not met.
    pub append_audit_event-returns :
        is_unused (event_of s draft) s.audit_events ≡ true
        → append_audit_event engine draft s ≡ return (with_event s draft)
    unfolding append_audit_event
    append_audit_event-returns unused =
        let free = sequence-free next.sequence chain (let place = in_place.0 in omega arith) in
        rw (tail_is_sound chain, append_audit_event)
          (rw create_audit_event-returns
            (rw (unused-collides (event_of s draft) s.audit_events unused free) refl))

    pub with_event-Appended : Appended engine draft s (with_event s draft)
    with_event-Appended = record {
      event = event_of s draft;
      is_created = create_audit_event-returns;
      grown = refl;
    }
