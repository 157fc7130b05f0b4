-- ===== src/Audit/Verification.antt =====
-- `verifyAuditChain` against the chain relation.
use threadloop.Base.{
  ℕ, ◌+◌, String, Option, none, some, Bool-cases, true, false, ◌≡◌, ◌↔◌, inl, inr, refl, sym, ◌∙◌,
  ap, arith, List, [], ◌∷◌, ◌++◌, length, string_eq, subst, length-append,
}
use threadloop.Json.{Value}
use threadloop.Audit.{
  StoredAuditEvent, AuditEventValue, AuditError, event_json, create_audit_event, verify_events,
  verify_audit_chain, conclude, root_differs, zero_audit_hash,
}
use threadloop.Audit.Chain.{
  IsLinked, Chained, link, done, FirstError, verify_events-Chained, Chained-verify_events,
  verify_events-FirstError,
}

-- A chain from the genesis, with the root that the caller expects, if it expects one.
pub record IsVerified (stringify : Value → String) (digest : String → String)
    (events : List StoredAuditEvent) (expected_root : Option String) (root : String) : Type 0 where
  pub chained : Chained stringify digest 1 zero_audit_hash events root
  pub expected : root_differs expected_root root ≡ false

conclude_valid :
    (count : ℕ) (expected_root : Option String) (result : String × Option AuditError)
    → (conclude count expected_root result).valid ≡ true
    → (result ≡ ((conclude count expected_root result).root, none))
      × (root_differs expected_root (conclude count expected_root result).root ≡ false)
unfolding conclude
conclude_valid count expected_root (root, some e) h = absurd (cc)
conclude_valid count expected_root (root, none) h =
    elim (Bool-cases (root_differs expected_root root)) [
      | inl d ↦ absurd (cc (rw (d, conclude) at h))
      | inr d ↦ (rw d refl, rw d d)
    ]

module _ (stringify : Value → String) (digest : String → String) where
  -- A chain is reported valid exactly when its events, numbered from 1, link from the zero hash to
  -- the reported root, each with its canonical text and the digest of that text, and the root is the
  -- expected one where one is expected.
  pub verify_audit_chain_iff :
      (events : List StoredAuditEvent) (expected_root : Option String)
      → let v = verify_audit_chain stringify digest events expected_root in
        (v.valid ≡ true) ↔ IsVerified stringify digest events expected_root v.root
  unfolding verify_audit_chain
  verify_audit_chain_iff events expected_root = (
    λ h.
        let c =
          conclude_valid (length events) expected_root
            (verify_events stringify digest 1 zero_audit_hash events) h in
        record {
          chained = verify_events-Chained stringify digest 1 zero_audit_hash events _ c.0;
          expected = c.1;
        },
    λ v. verified events expected_root v,
  )
    where
      verified :
          (events : List StoredAuditEvent) (expected_root : Option String) {root : String}
          → IsVerified stringify digest events expected_root root
          → (conclude
              (length events)
              expected_root
              (verify_events stringify digest 1 zero_audit_hash events)).valid
            ≡ true
      verified events expected_root v =
          rw (Chained-verify_events stringify digest v.chained) (unfold conclude in rw v.expected)

  -- An error that names a sequence is the first one: the events before it chain up to the reported
  -- root, and the event at that sequence fails there with the reported code.
  pub verify_audit_chain-FirstError :
      (events : List StoredAuditEvent) (expected_root : Option String) (e : AuditError)
      {sequence : ℕ}
      → (verify_audit_chain stringify digest events expected_root).error ≡ some e
      → e.sequence ≡ some sequence
      → FirstError stringify digest 1 zero_audit_hash events
          (verify_audit_chain stringify digest events expected_root).root
          e
  unfolding verify_audit_chain
  verify_audit_chain-FirstError events expected_root e h s =
      first (verify_events stringify digest 1 zero_audit_hash events) refl h s
    where
      first :
          (result : String × Option AuditError)
          → verify_events stringify digest 1 zero_audit_hash events ≡ result
          → {sequence : ℕ} → (conclude (length events) expected_root result).error ≡ some e
          → e.sequence ≡ some sequence
          → FirstError stringify digest 1 zero_audit_hash events
              (conclude (length events) expected_root result).root
              e
      first (root, some e') p h s =
          unfold conclude in
          verify_events-FirstError stringify digest 1 zero_audit_hash events root e
            (p ∙ λ i. (root, h i))
      first (root, none) p h s = absurd (unfold conclude in ground arith)

  Chained-append :
      {sequence : ℕ} {previous root : String} {events : List StoredAuditEvent}
      (event : StoredAuditEvent)
      → Chained stringify digest sequence previous events root
      → IsLinked stringify digest (sequence + length events) root event
      → Chained stringify digest sequence previous (events ++ event ∷ []) event.sha256
  Chained-append {sequence} {root = root} event done l =
      link (subst (λ n. IsLinked stringify digest n root event) (omega arith) l) done
  Chained-append {sequence} {root = root} event (link {event = first} {events = rest} m c) l =
      link m (
        Chained-append event c
          (subst (λ n. IsLinked stringify digest n root event) (omega arith) l))

  created :
      (value : AuditEventValue) {event : StoredAuditEvent}
      → create_audit_event stringify digest value ≡ some event
      → (event.value ≡ value)
        × (event.json ≡ event_json stringify value)
        × (event.sha256 ≡ digest (event_json stringify value))
  unfolding create_audit_event
  created value k = ground arith

  -- What `createAuditEvent` makes of a value that continues a verified chain, at the next sequence
  -- and with the root as its previous hash, extends the chain: the longer chain verifies, and its
  -- root is the new event's hash.
  pub create_audit_event-extends :
      (events : List StoredAuditEvent) (value : AuditEventValue) {root : String}
      {event : StoredAuditEvent}
      → Chained stringify digest 1 zero_audit_hash events root
      → value.sequence ≡ length events + 1
      → value.previous_sha256 ≡ root
      → create_audit_event stringify digest value ≡ some event
      → let v = verify_audit_chain stringify digest (events ++ event ∷ []) none in
        (v.valid ≡ true) × (v.root ≡ event.sha256) × (v.count ≡ length events + 1)
  unfolding verify_audit_chain conclude
  create_audit_event-extends events value {root} {event} c s p k =
      let m = created value k in
      let chained = Chained-append event c (record {
        in_sequence = ap (λ v. v.sequence) m.0 ∙ (omega arith);
        to_previous = ap (λ v. v.previous_sha256) m.0 ∙ p;
        is_canonical = m.1 ∙ ap (event_json stringify) (sym m.0);
        is_hashed = m.2 ∙ ap digest (sym m.1);
      }) in
      let run = Chained-verify_events stringify digest chained in
      rw run (refl, refl, length-append events (event ∷ []) ∙ omega arith)
