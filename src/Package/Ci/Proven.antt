-- ===== src/Package/Ci/Proven.antt =====
-- What signed CI evidence that is passed rests on.
use text.Mathlib.TextEquality.{eq_iff}
use mathlib.Core.Option.{some-injective}
use threadloop.Base.{
  String, Option, none, some, true, false, List, [], ◌∷◌, map, ◌==◌, ◌≡◌, refl, sym, ap, ◌∙◌, arith,
  All, or_else, is_some, string_eq, option_eq, eq_of_beq,
}
use threadloop.Json.{Value}
use threadloop.Json.Canonical.{canonical_json}
use threadloop.Proof.{
  GateReceiptResult, result_eq, result_iff, ProofEvidenceStatus, evidence_status_iff, ProofGate,
  GitHubActionsTrustPolicy, gates_of, ci_trust_policy,
}
use threadloop.Proof.Setup.{IsAdmissible, recorded_setup_violation_iff}
use threadloop.Proof.Receipt.Proven.{are_passed, aggregate-are_passed}
use threadloop.Package.{PackageReader, ParsedSignedPackage, reverify_stored_package}
use threadloop.Package.Verified.{IsTrusted, reverify_stored_package-IsTrusted}
use threadloop.Package.Ci.{
  SignedGateReceiptArtifact, StoredSignedGateReceipt, CiInput, kind, is_corrupt, is_zero, ci_status,
  ci_gate_evidence, latest_signed, gate_value, under_policy, evaluate_ci_proof_evidence,
}

module _ (reader : PackageReader) (schema : Value → Option SignedGateReceiptArtifact)
    (value_of : SignedGateReceiptArtifact → Value) (input : CiInput)
    (policy : GitHubActionsTrustPolicy) (gate : ProofGate) where
  -- The artifact reports a clean pass of the gate, in this session and at the current head.
  pub record IsCleanPass (receipt : StoredSignedGateReceipt) (artifact : SignedGateReceiptArtifact)
      : Type 0 where
    pub of_session : artifact.session_id ≡ input.session_id
    pub of_plan : artifact.plan_sha256 ≡ input.plan.sha256
    pub of_gate :
        canonical_json reader.stringify (gate_value artifact.gate)
        ≡ canonical_json reader.stringify (gate_value gate)
    pub at_head : input.current_head ≡ some artifact.head_sha
    pub heads :
        (artifact.head_before ≡ artifact.head_sha) × (artifact.head_after ≡ artifact.head_sha)
    pub passed : artifact.result ≡ GateReceiptResult.passed
    pub exits : is_zero artifact.exit_status ≡ true
    pub clean : (artifact.clean_before ≡ true) × (artifact.clean_after ≡ true)
    pub setup :
        IsAdmissible reader.stringify
          (or_else artifact.setup [])
          (or_else gate.setup [])
          artifact.result

  -- The latest signed receipt of the gate, with its package.
  pub record IsSigned : Type 0 where
    pub receipt : StoredSignedGateReceipt
    pub package_json : String
    pub parsed : ParsedSignedPackage SignedGateReceiptArtifact
    pub is_latest : latest_signed reader schema value_of input gate.id ≡ some receipt
    pub contents : input.package_contents receipt.id ≡ some package_json
    pub is_trusted :
        IsTrusted reader (kind reader schema value_of) receipt.stored policy package_json parsed
    pub is_clean_pass : IsCleanPass receipt parsed.envelope.artifact

  module _ (receipt : StoredSignedGateReceipt) (artifact : SignedGateReceiptArtifact) where
    not-some : {A : Type 0} (o : Option A) → is_some o ≡ false → o ≡ none
    not-some none h = refl
    not-some (some a) h = absurd (ground arith)

    is_corrupt-IsCleanPass :
        is_corrupt reader schema value_of input gate receipt artifact ≡ false
        → receipt.plan_sha256 ≡ input.plan.sha256
        → some receipt.subject_head_sha ≡ input.current_head
        → IsCleanPass receipt artifact
    unfolding is_corrupt
    is_corrupt-IsCleanPass h plan head =
        let of_plan : artifact.plan_sha256 ≡ receipt.plan_sha256 = (eq_iff _ _).0 (ground arith) in
        let at_head : artifact.head_sha ≡ receipt.subject_head_sha =
          (eq_iff _ _).0 (ground arith) in
        let before : artifact.head_before ≡ receipt.subject_head_sha =
          (eq_iff _ _).0 (ground arith) in
        let after : artifact.head_after ≡ receipt.subject_head_sha =
          (eq_iff _ _).0 (ground arith) in
        record {
          of_session = (eq_iff _ _).0 (ground arith);
          of_plan = of_plan ∙ plan;
          of_gate = (eq_iff _ _).0 (ground arith);
          at_head = sym head ∙ ap some (sym at_head);
          heads = (before ∙ sym at_head, after ∙ sym at_head);
          passed = (result_iff _ _).0 (ground arith);
          exits = ground arith;
          clean = (ground arith, ground arith);
          setup =
              (recorded_setup_violation_iff reader.stringify artifact.setup gate.setup
                  artifact.result).0
                (not-some _ (ground arith));
        }

  -- What a status of passed leaves open.
  passed_status :
      (receipt : StoredSignedGateReceipt) (parsed : ParsedSignedPackage SignedGateReceiptArtifact)
      → ci_status reader schema value_of input gate receipt (some parsed)
        ≡ ProofEvidenceStatus.passed
      → (is_corrupt reader schema value_of input gate receipt parsed.envelope.artifact ≡ false)
        × ((receipt.plan_sha256 == input.plan.sha256) ≡ true)
        × ((some receipt.subject_head_sha == input.current_head) ≡ true)
  unfolding ci_status
  passed_status receipt parsed h = (ground arith, ground arith, ground arith)

  reverified :
      StoredSignedGateReceipt
      → Option String
      → Option (ParsedSignedPackage SignedGateReceiptArtifact)
  reverified receipt contents =
      reverify_stored_package reader (kind reader schema value_of) receipt.stored contents policy

  status-IsSigned :
      (receipt : StoredSignedGateReceipt) (contents : Option String)
      (o : Option (ParsedSignedPackage SignedGateReceiptArtifact))
      → latest_signed reader schema value_of input gate.id ≡ some receipt
      → input.package_contents receipt.id ≡ contents
      → reverified receipt contents ≡ o
      → ci_status reader schema value_of input gate receipt o ≡ ProofEvidenceStatus.passed
      → IsSigned
  unfolding reverified ci_status reverify_stored_package
  status-IsSigned receipt contents none l c r h = absurd (ground arith)
  status-IsSigned receipt none (some parsed) l c r h = absurd (ground arith)
  status-IsSigned receipt (some package_json) (some parsed) l c r h =
      let (sound, plan, head) = passed_status receipt parsed h in
      record {
        receipt = receipt;
        package_json = package_json;
        parsed = parsed;
        is_latest = l;
        contents = c;
        is_trusted =
            reverify_stored_package-IsTrusted reader (kind reader schema value_of) receipt.stored
              policy package_json parsed r;
        is_clean_pass =
            is_corrupt-IsCleanPass receipt parsed.envelope.artifact sound (eq_of_beq plan)
              (eq_of_beq head);
      }

  evidence-IsSigned :
      (found : Option StoredSignedGateReceipt)
      → latest_signed reader schema value_of input gate.id ≡ found
      → (ci_gate_evidence reader schema value_of input policy gate found).status
        ≡ ProofEvidenceStatus.passed
      → IsSigned
  unfolding reverified
  evidence-IsSigned none l h = absurd (ground arith)
  evidence-IsSigned (some receipt) l h = status-IsSigned receipt _ _ l refl refl h

module _ (reader : PackageReader) (schema : Value → Option SignedGateReceiptArtifact)
    (value_of : SignedGateReceiptArtifact → Value) (input : CiInput) where
  are_passed-IsSigned :
      (policy : GitHubActionsTrustPolicy) (gates : List ProofGate)
      → are_passed (
          map
            (λ evidence. evidence.status)
            (map
              (λ gate.
                ci_gate_evidence reader schema value_of input policy gate
                  (latest_signed reader schema value_of input gate.id))
              gates))
        ≡ true
      → All (IsSigned reader schema value_of input policy) gates
  are_passed-IsSigned policy [] h = tt
  are_passed-IsSigned policy (gate ∷ gates) h = (
    evidence-IsSigned reader schema value_of input policy gate _ refl
        ((evidence_status_iff _ _).0 (ground arith)),
    are_passed-IsSigned policy gates (ground arith),
  )

  -- Signed CI evidence that is passed rests, for every gate of the bound plan, on the latest signed
  -- receipt of the gate: its package is verified again under the CI policy of the plan, and its
  -- artifact reports a clean pass of the declared gate and setup, in the session, under the plan
  -- and at the current head before and after the run.
  pub evaluate_ci_proof_evidence-IsSigned :
      (evaluate_ci_proof_evidence reader schema value_of input).status
        ≡ some ProofEvidenceStatus.passed
      → (policy : GitHubActionsTrustPolicy) × (ci_trust_policy input.plan.plan ≡ some policy)
        × All (IsSigned reader schema value_of input policy) (gates_of input.plan.plan)
  unfolding evaluate_ci_proof_evidence
  evaluate_ci_proof_evidence-IsSigned h = by_policy (ci_trust_policy input.plan.plan) refl h
    where
      by_policy :
          (o : Option GitHubActionsTrustPolicy)
          → ci_trust_policy input.plan.plan ≡ o
          → (under_policy reader schema value_of input o).status ≡ some ProofEvidenceStatus.passed
          → (policy : GitHubActionsTrustPolicy) × (ci_trust_policy input.plan.plan ≡ some policy)
            × All (IsSigned reader schema value_of input policy) (gates_of input.plan.plan)
      by_policy none p h = absurd (ground arith)
      by_policy (some policy) p h = (
        policy,
        p,
        are_passed-IsSigned policy (gates_of input.plan.plan)
            (aggregate-are_passed _ (some-injective _ _ h)),
      )
