-- ===== src/Proof/Receipt/Proven.antt =====
-- When `evaluateProofEvidence` reports the plan's gates as passed.
use text.Mathlib.TextEquality.{eq_iff}
use threadloop.Base.{
  String, Option, none, some, Bool, Bool-cases, true, false, List, [], ◌∷◌, map, ◌==◌, ◌≡◌, ◌≢◌,
  ◌↔◌, inl, inr, refl, sym, ap, ◌∙◌, arith, All, all, string_eq, option_eq, beq_option_iff,
  eq_of_beq,
}
use threadloop.Proof.{
  GateReceiptResult, result_eq, result_iff, ProofEvidenceStatus, evidence_status_eq,
  evidence_status_iff, ProofGate, gates_of,
}
use threadloop.Proof.Evidence.{aggregate_gate_status}
use threadloop.Proof.Receipt.{
  GateReceiptPayload, StoredGateReceipt, ReceiptReader, ProofInput, parse_and_validate_receipt,
  is_stale, is_falsy, status_of, latest_by_gate, gate_evidence, evaluate_proof_evidence,
}
use threadloop.Proof.Receipt.Valid.{IsValid, parse_and_validate_receipt_iff}

true-false : true ≡ false → ⊥
true-false p = ground arith

not-empty : (s : String) → s ≢ "" → (s == "") ≡ false
not-empty s n = elim (Bool-cases (s == "")) [ inl b ↦ absurd (n (eq_of_beq b)) | inr b ↦ b ]

-- A receipt that shows the gate passed, in a clean repository at the current head.
pub record IsProof (reader : ReceiptReader) (input : ProofInput) (gate : ProofGate)
    (receipt : StoredGateReceipt) : Type 0 where
  pub payload : GateReceiptPayload
  pub is_valid :
      IsValid reader receipt input.session_id gate (input.artifact_digests receipt.id) payload
  pub of_plan : receipt.plan_sha256 ≡ input.plan.sha256
  pub before : input.current_head ≡ some receipt.head_before
  pub after : input.current_head ≡ some receipt.head_after
  pub has_head : receipt.head_before ≢ ""
  pub passed : receipt.result ≡ GateReceiptResult.passed
  pub clean : (payload.clean_before ≡ true) × (payload.clean_after ≡ true)

-- The latest receipt of the gate shows that it passed.
pub record IsProven (reader : ReceiptReader) (input : ProofInput) (gate : ProofGate) : Type 0 where
  pub receipt : StoredGateReceipt
  pub is_latest : latest_by_gate reader input gate.id ≡ some receipt
  pub is_proof : IsProof reader input gate receipt

module _ (reader : ReceiptReader) (input : ProofInput) (gate : ProofGate) where
  -- What the tests of the status leave open.
  passed_status :
      (receipt : StoredGateReceipt) (payload : GateReceiptPayload)
      → status_of reader input receipt (some payload) ≡ ProofEvidenceStatus.passed
      → (is_stale reader input receipt payload ≡ false)
        × ((receipt.result == GateReceiptResult.passed) ≡ true)
        × (payload.clean_before ≡ true)
        × (payload.clean_after ≡ true)
  unfolding status_of
  passed_status receipt payload h = (ground arith, ground arith, ground arith, ground arith)

  current_receipt :
      (receipt : StoredGateReceipt) (payload : GateReceiptPayload)
      → is_stale reader input receipt payload ≡ false
      → ((receipt.plan_sha256 == input.plan.sha256) ≡ true)
        × (is_falsy input.current_head ≡ false)
        × ((some receipt.head_before == input.current_head) ≡ true)
        × ((some receipt.head_after == input.current_head) ≡ true)
  unfolding is_stale
  current_receipt receipt payload h = (ground arith, ground arith, ground arith, ground arith)

  status_of-IsProof :
      (receipt : StoredGateReceipt) (o : Option GateReceiptPayload)
      → parse_and_validate_receipt reader receipt input.session_id gate
          (input.artifact_digests receipt.id)
        ≡ o
      → status_of reader input receipt o ≡ ProofEvidenceStatus.passed
      → IsProof reader input gate receipt
  unfolding status_of
  status_of-IsProof receipt none e h = absurd (ground arith)
  status_of-IsProof receipt (some payload) e h =
      let (fresh, passed, before, after) = passed_status receipt payload h in
      let (plan, falsy, head, end) = current_receipt receipt payload fresh in
      let same : some receipt.head_before ≡ input.current_head = eq_of_beq head in
      record {
        payload = payload;
        is_valid = (parse_and_validate_receipt_iff reader receipt _ gate _ payload).0 e;
        of_plan = eq_of_beq plan;
        before = sym same;
        after = sym (eq_of_beq end);
        has_head = λ empty.
            true-false (sym ((eq_iff receipt.head_before "").1 empty) ∙ ap is_falsy same ∙ falsy);
        passed = (result_iff _ _).0 passed;
        clean = (before, after);
      }

  IsProof-status_of :
      (receipt : StoredGateReceipt)
      → IsProof reader input gate receipt
      → status_of reader input receipt (
          parse_and_validate_receipt reader receipt input.session_id gate
            (input.artifact_digests receipt.id))
        ≡ ProofEvidenceStatus.passed
  unfolding status_of is_stale
  IsProof-status_of receipt p =
      let a = p.is_valid.agrees in
      let read =
        (parse_and_validate_receipt_iff reader receipt input.session_id gate
            (input.artifact_digests receipt.id) p.payload).1
          p.is_valid in
      let filled = ap is_falsy p.before ∙ not-empty receipt.head_before p.has_head in
      rw read (
        rw
          (
            (eq_iff _ _).1 p.of_plan,
            (eq_iff _ _).1 (a.plan ∙ p.of_plan),
            filled,
            (beq_option_iff (some receipt.head_before) input.current_head).1 (sym p.before),
            (beq_option_iff (some receipt.head_after) input.current_head).1 (sym p.after),
            (result_iff _ _).1 p.passed,
            (result_iff _ _).1 (a.result ∙ p.passed),
            p.clean.0,
            p.clean.1,
          )
          refl)

  abbrev Shows : Option StoredGateReceipt → Type 0
  Shows found = (gate_evidence reader input gate found).status ≡ ProofEvidenceStatus.passed

  gate_evidence-IsProven :
      (found : Option StoredGateReceipt)
      → latest_by_gate reader input gate.id ≡ found
      → Shows found
      → IsProven reader input gate
  gate_evidence-IsProven none e h = absurd (ground arith)
  gate_evidence-IsProven (some receipt) e h = record {
    receipt = receipt;
    is_latest = e;
    is_proof = status_of-IsProof receipt _ refl h;
  }

  IsProven-gate_evidence : IsProven reader input gate → Shows (latest_by_gate reader input gate.id)
  IsProven-gate_evidence p =
      ap (λ found. (gate_evidence reader input gate found).status) p.is_latest
      ∙ IsProof-status_of p.receipt p.is_proof

abbrev pub are_passed : List ProofEvidenceStatus → Bool
are_passed = all (λ status. status == ProofEvidenceStatus.passed)

-- The aggregate is passed only where each status is.
pub aggregate-are_passed :
    (statuses : List ProofEvidenceStatus)
    → aggregate_gate_status statuses ≡ ProofEvidenceStatus.passed
    → are_passed statuses ≡ true
unfolding aggregate_gate_status
aggregate-are_passed statuses h = elim (Bool-cases (are_passed statuses)) [
  | inl e ↦ e
  | inr e ↦ absurd (let k = rw e at h in ground arith)
]

pub are_passed-aggregate :
    (statuses : List ProofEvidenceStatus)
    → are_passed statuses ≡ true
    → aggregate_gate_status statuses ≡ ProofEvidenceStatus.passed
unfolding aggregate_gate_status
are_passed-aggregate statuses h = rw h refl

module _ (reader : ReceiptReader) (input : ProofInput) where
  abbrev statuses : List ProofGate → List ProofEvidenceStatus
  statuses gates =
      map (λ evidence. evidence.status)
        (map (λ gate. gate_evidence reader input gate (latest_by_gate reader input gate.id)) gates)

  are_passed-IsProven :
      (gates : List ProofGate)
      → are_passed (statuses gates) ≡ true
      → All (IsProven reader input) gates
  are_passed-IsProven [] h = tt
  are_passed-IsProven (gate ∷ gates) h = (
    gate_evidence-IsProven reader input gate _ refl ((evidence_status_iff _ _).0 (ground arith)),
    are_passed-IsProven gates (ground arith),
  )

  IsProven-are_passed :
      (gates : List ProofGate)
      → All (IsProven reader input) gates
      → are_passed (statuses gates) ≡ true
  IsProven-are_passed [] h = refl
  IsProven-are_passed (gate ∷ gates) (p, h) =
      rw
        (
          (evidence_status_iff _ _).1 (IsProven-gate_evidence reader input gate p),
          IsProven-are_passed gates h,
        )
        refl

  -- The proof evidence is passed exactly when the latest receipt of every gate of the bound plan
  -- reads to a valid payload that belongs to the session, the gate and the artifact on disk, is
  -- bound to the plan's hash and to the current head before and after the run, and records a
  -- passed result in a clean repository, its declared setup included.
  pub evaluate_proof_evidence_iff :
      ((evaluate_proof_evidence reader input).status ≡ ProofEvidenceStatus.passed)
      ↔ All (IsProven reader input) (gates_of input.plan.plan)
  unfolding evaluate_proof_evidence
  evaluate_proof_evidence_iff = (
    λ h.
        are_passed-IsProven (gates_of input.plan.plan)
          (aggregate-are_passed (statuses (gates_of input.plan.plan)) h),
    λ h.
        are_passed-aggregate (statuses (gates_of input.plan.plan))
          (IsProven-are_passed (gates_of input.plan.plan) h),
  )
