-- ===== src/Audit.antt =====
-- src/domain/audit.ts: the hash chain of a session's audit events. The engine's
-- `JSON.stringify` and the SHA-256 digest are arguments.
pub mod Chain
pub mod Verification
pub mod Tamper
use threadloop.Base.{
  ℕ, zero, suc, ◌+◌, String, Option, none, some, Bool, true, false, not, ◌&&◌, ◌||◌, List, [], ◌∷◌,
  if◌then◌else◌, ◌==◌, leb, ltb, length, is_some, nat_eq, string_eq, option_eq, is_hex_of_length,
}
use threadloop.Json.{Value, Fields}
use threadloop.Json.Canonical.{canonical_json}

abbrev pub zero_audit_hash : String
zero_audit_hash = "0000000000000000000000000000000000000000000000000000000000000000"

-- Number.MAX_SAFE_INTEGER
abbrev pub max_safe_integer : ℕ
max_safe_integer = 9007199254740991

pub data AuditEventType : Type 0 where
  session_started audit_activated proof_receipt_recorded signed_proof_receipt_imported :
      AuditEventType
  signed_review_receipt_imported guard_decision transition_applied : AuditEventType

-- `schema_version` is 1 in every event.
pub record AuditEventValue : Type 0 where
  pub id : String
  pub session_id : String
  pub sequence : ℕ
  pub event_type : AuditEventType
  pub recorded_at : String
  pub state_version : ℕ
  pub previous_sha256 : String
  pub payload : Fields

pub record StoredAuditEvent : Type 0 where
  pub value : AuditEventValue
  pub json : String
  pub sha256 : String

pub data AuditVerificationErrorCode : Type 0 where
  sequence_mismatch link_mismatch canonicalization_mismatch : AuditVerificationErrorCode
  hash_mismatch root_mismatch : AuditVerificationErrorCode

pub record AuditError : Type 0 where
  pub code : AuditVerificationErrorCode
  pub sequence : Option ℕ

pub record AuditVerification : Type 0 where
  pub valid : Bool
  pub count : ℕ
  pub root : String
  pub error : Option AuditError

-- `root` is compared only where one is expected.
abbrev pub root_differs : Option String → String → Bool
root_differs none root = false
root_differs (some expected) root = not (root == expected)

-- After the loop: its error, or the comparison of the root.
unfoldable pub conclude : ℕ → Option String → String × Option AuditError → AuditVerification
conclude count expected_root (root, some e) = record {
  valid = false;
  count = count;
  root = root;
  error = some e;
}
conclude count expected_root (root, none) =
    if root_differs expected_root root
    then record {
      valid = false;
      count = count;
      root = root;
      error = some (record { code = root_mismatch; sequence = none });
    }
    else record { valid = true; count = count; root = root; error = none }

event_type_text : AuditEventType → String
event_type_text session_started = "session_started"
event_type_text audit_activated = "audit_activated"
event_type_text proof_receipt_recorded = "proof_receipt_recorded"
event_type_text signed_proof_receipt_imported = "signed_proof_receipt_imported"
event_type_text signed_review_receipt_imported = "signed_review_receipt_imported"
event_type_text guard_decision = "guard_decision"
event_type_text transition_applied = "transition_applied"

-- The event as the object that is written.
unfoldable pub event_object : AuditEventValue → Value
unfolding event_type_text
event_object value = Value.object (
    Fields.field "schema_version" (Value.number 1) (
      Fields.field "id" (Value.text value.id) (
        Fields.field "session_id" (Value.text value.session_id) (
          Fields.field "sequence" (Value.number value.sequence) (
            Fields.field "event_type" (Value.text (event_type_text value.event_type)) (
              Fields.field "recorded_at" (Value.text value.recorded_at) (
                Fields.field "state_version" (Value.number value.state_version) (
                  Fields.field "previous_sha256" (Value.text value.previous_sha256)
                    (Fields.field "payload" (Value.object value.payload) Fields.end)))))))))

-- `canonicalJson(value)` of an event.
unfoldable pub event_json : (Value → String) → AuditEventValue → String
event_json stringify value = canonical_json stringify (event_object value)

module _ (stringify : Value → String) (digest : String → String) where
  -- `none` where the source throws: on a sequence that is no positive safe integer, on a state
  -- version that is no safe integer, or on a previous hash that is no SHA-256.
  unfoldable pub create_audit_event : AuditEventValue → Option StoredAuditEvent
  create_audit_event value =
      if not (leb 1 value.sequence && leb value.sequence max_safe_integer)
        || not (leb value.state_version max_safe_integer)
        || not (is_hex_of_length 64 value.previous_sha256)
      then none
      else some (record {
        value = value;
        json = event_json stringify value;
        sha256 = digest (event_json stringify value);
      })

  -- `none` is the valid result.
  unfoldable pub verify_audit_event_integrity : StoredAuditEvent → Option AuditVerificationErrorCode
  verify_audit_event_integrity event =
      if not (event.json == event_json stringify event.value)
      then some canonicalization_mismatch
      else if not (event.sha256 == digest event.json)
      then some hash_mismatch
      else none

  -- The checks of one event at its place in the chain.
  unfoldable pub check_event : ℕ → String → StoredAuditEvent → Option AuditVerificationErrorCode
  unfolding verify_audit_event_integrity
  check_event sequence previous event =
      if not (event.value.sequence == sequence)
      then some sequence_mismatch
      else if not (event.value.previous_sha256 == previous)
      then some link_mismatch
      else verify_audit_event_integrity event

  -- The loop of `verifyAuditChain`: the root and the first error, from the sequence of the next
  -- event and the hash before it.
  unfoldable pub verify_events : ℕ → String → List StoredAuditEvent → String × Option AuditError
  verify_events sequence previous [] = (previous, none)
  verify_events sequence previous (event ∷ events) =
      let rest = verify_events (suc sequence) event.sha256 events in
      elim (check_event sequence previous event) [
        | some code ↦ (previous, some (record { code = code; sequence = some sequence }))
        | none ↦ rest
      ]

  unfoldable pub verify_audit_chain : List StoredAuditEvent → Option String → AuditVerification
  verify_audit_chain events expected_root =
      conclude (length events) expected_root (verify_events 1 zero_audit_hash events)
