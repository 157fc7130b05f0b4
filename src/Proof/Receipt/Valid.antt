-- ===== src/Proof/Receipt/Valid.antt =====
-- What `parseAndValidateReceipt` accepts.
use text.Mathlib.TextEquality.{eq_iff}
use threadloop.Base.{
  ◌≤◌, String, Option, none, some, Bool-cases, true, false, or_else, [], ◌==◌, leb, ltb, ◌≡◌, ◌↔◌,
  inl, inr, refl, sym, ap, ◌∙◌, arith, is_some, string_eq, nat_eq, option_eq, eq_of_beq, eqb_iff,
  beq_option_iff,
}
use mathlib.Core.Option.{some-injective}
use threadloop.Json.{Value, array}
use threadloop.Json.Canonical.{canonical_json}
use threadloop.Audit.{max_safe_integer}
use threadloop.Proof.{ProofGate, result_iff}
use threadloop.Proof.Setup.{IsAdmissible, recorded_setup_violation_iff, items_of}
use threadloop.Proof.Receipt.{
  GateReceiptPayload, StoredGateReceipt, ReceiptReader, disagrees, agreed, payload_of,
  parse_and_validate_receipt,
}

not-is_some : {A : Type 0} (o : Option A) → is_some o ≡ false → o ≡ none
not-is_some none h = refl
not-is_some (some a) h = absurd (ground arith)

module _ (reader : ReceiptReader) (receipt : StoredGateReceipt) (session_id : String)
    (gate : ProofGate) (artifact_digest : Option String) (payload : GateReceiptPayload) where
  -- The payload agrees with the row of the receipt, with the gate and with the artifact.
  pub record Agrees : Type 0 where
    pub id : payload.id ≡ receipt.id
    pub session : payload.session_id ≡ session_id
    pub gate_id : payload.gate_id ≡ receipt.gate_id
    pub plan : payload.plan_sha256 ≡ receipt.plan_sha256
    pub result : payload.result ≡ receipt.result
    pub heads :
        (payload.head_before ≡ receipt.head_before) × (payload.head_after ≡ receipt.head_after)
    pub artifact_path : payload.artifact_path ≡ receipt.artifact_path
    pub artifact_sha256 : payload.artifact_sha256 ≡ receipt.artifact_sha256
    pub artifact : artifact_digest ≡ some receipt.artifact_sha256
    pub working_directory : payload.working_directory ≡ gate.working_directory
    pub timeout_ms : payload.timeout_ms ≡ gate.timeout_ms
    pub command :
        reader.stringify (array (items_of payload.command))
        ≡ reader.stringify (array (items_of gate.command))
    pub setup :
        IsAdmissible reader.stringify
          (or_else payload.setup [])
          (or_else gate.setup [])
          payload.result

  disagrees-Agrees :
      disagrees reader receipt session_id gate artifact_digest payload ≡ false → Agrees
  unfolding disagrees
  disagrees-Agrees h = record {
    id = (eq_iff _ _).0 (ground arith);
    session = (eq_iff _ _).0 (ground arith);
    gate_id = (eq_iff _ _).0 (ground arith);
    plan = (eq_iff _ _).0 (ground arith);
    result = (result_iff _ _).0 (ground arith);
    heads = ((eq_iff _ _).0 (ground arith), (eq_iff _ _).0 (ground arith));
    artifact_path = (eq_iff _ _).0 (ground arith);
    artifact_sha256 = (eq_iff _ _).0 (ground arith);
    artifact = (beq_option_iff artifact_digest (some receipt.artifact_sha256)).0 (ground arith);
    working_directory = (eq_iff _ _).0 (ground arith);
    timeout_ms = (eqb_iff _ _).0 (ground arith);
    command = (eq_iff _ _).0 (ground arith);
    setup =
        (recorded_setup_violation_iff reader.stringify payload.setup gate.setup payload.result).0
          (not-is_some _ (ground arith));
  }

  Agrees-disagrees :
      Agrees → disagrees reader receipt session_id gate artifact_digest payload ≡ false
  unfolding disagrees
  Agrees-disagrees a =
      let setup =
        (recorded_setup_violation_iff reader.stringify payload.setup gate.setup payload.result).1
          a.setup in
      rw
        (
          (eq_iff _ _).1 a.id,
          (eq_iff _ _).1 a.session,
          (eq_iff _ _).1 a.gate_id,
          (eq_iff _ _).1 a.plan,
          (result_iff _ _).1 a.result,
          (eq_iff _ _).1 a.heads.0,
          (eq_iff _ _).1 a.heads.1,
          (eq_iff _ _).1 a.artifact_path,
          (eq_iff _ _).1 a.artifact_sha256,
          (beq_option_iff artifact_digest (some receipt.artifact_sha256)).1 a.artifact,
          (eq_iff _ _).1 a.working_directory,
          (eqb_iff _ _).1 a.timeout_ms,
          (eq_iff _ _).1 a.command,
          setup,
        )
        refl

  -- A receipt that is read to a payload.
  pub record IsValid : Type 0 where
    pub parsed : Value
    pub in_sequence : (1 ≤ receipt.sequence) × (receipt.sequence ≤ max_safe_integer)
    pub is_hashed : receipt.receipt_sha256 ≡ reader.digest receipt.receipt_json
    pub parses : reader.parse receipt.receipt_json ≡ some parsed
    pub is_canonical : canonical_json reader.stringify parsed ≡ receipt.receipt_json
    pub has_payload : reader.read_payload parsed ≡ some payload
    pub agrees : Agrees

  agreed-Agrees :
      (o : Option GateReceiptPayload)
      → agreed reader receipt session_id gate artifact_digest o ≡ some payload
      → (o ≡ some payload) × Agrees
  agreed-Agrees none h = absurd (ground arith)
  agreed-Agrees (some other) h =
      elim (Bool-cases (disagrees reader receipt session_id gate artifact_digest other)) [
        | inl b ↦ absurd (let k = rw b at h in ground arith)
        | inr b ↦
            let same : other ≡ payload = some-injective _ _ (rw b at h) in
            (
              ap some same,
              disagrees-Agrees
                  (sym (ap (disagrees reader receipt session_id gate artifact_digest) same) ∙ b),
            )
      ]

  payload_of-read :
      (o : Option Value)
      → payload_of reader receipt.receipt_json o ≡ some payload
      → (parsed : Value) × (o ≡ some parsed)
        × (canonical_json reader.stringify parsed ≡ receipt.receipt_json)
        × (reader.read_payload parsed ≡ some payload)
  payload_of-read none h = absurd (ground arith)
  payload_of-read (some parsed) h =
      elim (Bool-cases (canonical_json reader.stringify parsed == receipt.receipt_json)) [
        | inl b ↦ (parsed, refl, eq_of_beq b, rw b at h)
        | inr b ↦ absurd (let k = rw b at h in ground arith)
      ]

  abbrev IsRead : Type 0
  IsRead = parse_and_validate_receipt reader receipt session_id gate artifact_digest ≡ some payload

  read-IsValid : IsRead → IsValid
  unfolding parse_and_validate_receipt
  read-IsValid h =
      let (read, agrees) = agreed-Agrees _ (ground arith) in
      let (parsed, parses, canonical, has_payload) =
        payload_of-read (reader.parse receipt.receipt_json) read in
      record {
        parsed = parsed;
        in_sequence = (ground arith, ground arith);
        is_hashed = (eq_iff _ _).0 (ground arith);
        parses = parses;
        is_canonical = canonical;
        has_payload = has_payload;
        agrees = agrees;
      }

  IsValid-read : IsValid → IsRead
  unfolding parse_and_validate_receipt
  IsValid-read v =
      let (from, to) = v.in_sequence in
      let low : ltb receipt.sequence 1 ≡ false = ground arith in
      let high : leb receipt.sequence max_safe_integer ≡ true = ground arith in
      rw (low, high, (eq_iff _ _).1 v.is_hashed)
        (rw v.parses (
          rw ((eq_iff _ _).1 v.is_canonical)
            (rw v.has_payload (rw (Agrees-disagrees v.agrees) refl))))

  -- A stored receipt is read to a payload exactly when its sequence is in range, its text has the
  -- recorded hash and is the canonical text of a value that has the payload, and the payload agrees
  -- with the row, with the gate, its declared setup included, and with the artifact on disk.
  pub parse_and_validate_receipt_iff : IsRead ↔ IsValid
  parse_and_validate_receipt_iff = (read-IsValid, IsValid-read)
