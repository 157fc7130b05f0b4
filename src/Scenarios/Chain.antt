-- ===== src/Scenarios/Chain.antt =====
-- Audit chains of one event and of two.
use threadloop.Base.{
  ℕ, none, some, true, [], ◌∷◌, ◌≡◌, ◌↔◌, ◌⊎◌, refl, map, is_hex_of_length, String,
}
use threadloop.Json.{text, end, field}
use threadloop.Json.Canonical.{canonical_json}
use threadloop.Audit.{
  AuditEventValue, StoredAuditEvent, AuditError, session_started, zero_audit_hash, event_json,
  event_object, verify_audit_chain, verify_events, check_event, conclude, create_audit_event,
  sequence_mismatch,
}
use threadloop.Audit.Chain.{Chained, FirstError, link, done}
use threadloop.Audit.Verification.{
  IsVerified, verify_audit_chain_iff, verify_audit_chain-FirstError, create_audit_event-extends,
}
use threadloop.Audit.Tamper.{Collision, Ambiguous, root_commits}
use threadloop.Scenarios.Engine.{writer, checksum}

value_at : ℕ → String → AuditEventValue
value_at sequence previous = record {
  id = "audit";
  session_id = "S";
  sequence = sequence;
  event_type = session_started;
  recorded_at = "t0";
  state_version = 0;
  previous_sha256 = previous;
  payload = field "lifecycle_state" (text "queued") end;
}

stored : AuditEventValue → StoredAuditEvent
unfolding event_json event_object canonical_json writer checksum
stored value = record {
  value = value;
  json = event_json writer value;
  sha256 = checksum (event_json writer value);
}

one : StoredAuditEvent
unfolding stored value_at
one = stored (value_at 1 zero_audit_hash)

two : StoredAuditEvent
unfolding stored value_at one
two = stored (value_at 2 one.sha256)

verify_audit_chain_iff_example :
    ((verify_audit_chain writer checksum (one ∷ two ∷ []) (some two.sha256)).valid ≡ true)
    ↔ IsVerified writer checksum
        (one ∷ two ∷ [])
        (some two.sha256)
        (verify_audit_chain writer checksum (one ∷ two ∷ []) (some two.sha256)).root
verify_audit_chain_iff_example =
    verify_audit_chain_iff writer checksum (one ∷ two ∷ []) (some two.sha256)

-- The second event stands twice.
abbrev third_is_second : AuditError
third_is_second = record { code = sequence_mismatch; sequence = some 3 }

verify_audit_chain-FirstError_example :
    FirstError writer checksum 1 zero_audit_hash
      (one ∷ two ∷ two ∷ [])
      (verify_audit_chain writer checksum (one ∷ two ∷ two ∷ []) none).root
      third_is_second
unfolding verify_audit_chain verify_events check_event conclude two
verify_audit_chain-FirstError_example =
    verify_audit_chain-FirstError writer checksum (one ∷ two ∷ two ∷ []) none third_is_second
      {sequence = 3} refl refl

two_events-valid : (verify_audit_chain writer checksum (one ∷ two ∷ []) none).valid ≡ true
unfolding verify_audit_chain verify_events check_event conclude two
two_events-valid = refl

root_commits_example :
    (map (λ event. event.json) (one ∷ two ∷ []) ≡ map (λ event. event.json) (one ∷ two ∷ []))
    ⊎ Collision checksum
    ⊎ Ambiguous writer
root_commits_example =
    root_commits writer checksum (one ∷ two ∷ []) (one ∷ two ∷ []) two_events-valid two_events-valid
      refl refl

one-Chained : Chained writer checksum 1 zero_audit_hash (one ∷ []) one.sha256
unfolding one
one-Chained =
    link (record { in_sequence = refl; to_previous = refl; is_canonical = refl; is_hashed = refl })
      done

create_audit_event-extends_example :
    let v = verify_audit_chain writer checksum (one ∷ two ∷ []) none in
    (v.valid ≡ true) × (v.root ≡ two.sha256) × (v.count ≡ 2)
unfolding create_audit_event two is_hex_of_length
create_audit_event-extends_example =
    create_audit_event-extends writer checksum (one ∷ []) (value_at 2 one.sha256) one-Chained refl
      refl refl
