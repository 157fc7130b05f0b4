-- ===== src/Session/Transition/Proven.antt =====
-- What a transition that `transitionSession` applies rests on.
use threadloop.Base.{String, Option, none, some, ◌≡◌, refl, arith, All}
use threadloop.Task.{status_eq}
use threadloop.Proof.{
  BoundProofPlan, ProofEvidenceStatus, GitHubActionsTrustPolicy, gates_of, ci_trust_policy,
}
use threadloop.Proof.Receipt.{ProofInput}
use threadloop.Proof.Receipt.Proven.{IsProven, evaluate_proof_evidence_iff}
use threadloop.Review.{ReviewEvidence, ReviewEvidenceStatus}
use threadloop.Review.Evidence.{ReviewInput}
use threadloop.Review.Evidence.Current.{IsSnapshot, evaluate_review_evidence-IsSnapshot}
use threadloop.Package.Ci.{CiInput}
use threadloop.Package.Ci.Proven.{IsSigned, evaluate_ci_proof_evidence-IsSigned}
use threadloop.Session.{StoredProofPlan, ProofRows, Readers}
use threadloop.Session.Files.{
  Files, read_receipt_artifact_digests, read_controlled_signed_receipt_package_contents,
}
use threadloop.Session.Proof.{
  bind_stored_proof_plan, unevaluated, evaluate_bound, under_binding, under_stored,
  evaluate_session_proof,
}

module _ (readers : Readers) (files : Files) (session_id : String) (head : Option String)
    (rows : ProofRows) where
  abbrev pub local_input : BoundProofPlan → ProofInput
  local_input plan = record {
    session_id = session_id;
    plan = plan;
    receipts = rows.receipts;
    current_head = head;
    artifact_digests = read_receipt_artifact_digests files session_id rows.receipts;
  }

  abbrev pub signed_input : BoundProofPlan → CiInput
  signed_input plan = record {
    session_id = session_id;
    plan = plan;
    receipts = rows.signed_receipts;
    current_head = head;
    package_contents =
        read_controlled_signed_receipt_package_contents files session_id (λ receipt. receipt.id)
          (λ receipt. receipt.package_path) rows.signed_receipts;
  }

  -- The stored plan binds, and at the head every one of its gates is proven locally and by CI.
  pub record Proves : Type 0 where
    pub stored : StoredProofPlan
    pub plan : BoundProofPlan
    pub policy : GitHubActionsTrustPolicy
    pub is_stored : rows.plan ≡ some stored
    pub is_bound : bind_stored_proof_plan readers stored ≡ some plan
    pub locally : All (IsProven readers.receipt (local_input plan)) (gates_of plan.plan)
    pub has_policy : ci_trust_policy plan.plan ≡ some policy
    pub by_ci :
        All
          (IsSigned readers.signed readers.gate_schema readers.gate_value
            (signed_input plan)
            policy)
          (gates_of plan.plan)

  evaluate_bound-Proves :
      (stored : StoredProofPlan) (plan : BoundProofPlan)
      → rows.plan ≡ some stored
      → bind_stored_proof_plan readers stored ≡ some plan
      → (evaluate_bound readers files session_id head rows plan).evidence.status
        ≡ ProofEvidenceStatus.passed
      → (evaluate_bound readers files session_id head rows plan).ci_evidence.status
        ≡ some ProofEvidenceStatus.passed
      → Proves
  unfolding evaluate_bound
  evaluate_bound-Proves stored plan is_stored is_bound local signed =
      let (policy, has_policy, by_ci) =
        evaluate_ci_proof_evidence-IsSigned readers.signed readers.gate_schema readers.gate_value
          (signed_input plan) signed in
      record {
        stored = stored;
        plan = plan;
        policy = policy;
        is_stored = is_stored;
        is_bound = is_bound;
        locally = (evaluate_proof_evidence_iff readers.receipt (local_input plan)).0 local;
        has_policy = has_policy;
        by_ci = by_ci;
      }

  under_binding-Proves :
      (stored : StoredProofPlan) (o : Option BoundProofPlan)
      → rows.plan ≡ some stored
      → bind_stored_proof_plan readers stored ≡ o
      → (under_binding readers files session_id head rows o).evidence.status
        ≡ ProofEvidenceStatus.passed
      → (under_binding readers files session_id head rows o).ci_evidence.status
        ≡ some ProofEvidenceStatus.passed
      → Proves
  unfolding unevaluated
  under_binding-Proves stored none e b local signed = absurd (ground arith)
  under_binding-Proves stored (some plan) e b local signed =
      evaluate_bound-Proves stored plan e b local signed

  under_stored-Proves :
      (o : Option StoredProofPlan)
      → rows.plan ≡ o
      → (under_stored readers files session_id head rows o).evidence.status
        ≡ ProofEvidenceStatus.passed
      → (under_stored readers files session_id head rows o).ci_evidence.status
        ≡ some ProofEvidenceStatus.passed
      → Proves
  unfolding unevaluated
  under_stored-Proves none e local signed = absurd (ground arith)
  under_stored-Proves (some stored) e local signed =
      under_binding-Proves stored (bind_stored_proof_plan readers stored) e refl local signed

  pub evaluate_session_proof-Proves :
      (evaluate_session_proof readers files session_id head rows).evidence.status
        ≡ ProofEvidenceStatus.passed
      → (evaluate_session_proof readers files session_id head rows).ci_evidence.status
        ≡ some ProofEvidenceStatus.passed
      → Proves
  unfolding evaluate_session_proof
  evaluate_session_proof-Proves local signed = under_stored-Proves rows.plan refl local signed

  abbrev pub review_input : BoundProofPlan → ReviewInput
  review_input plan = record {
    session_id = session_id;
    plan = plan;
    receipts = rows.signed_review_receipts;
    current_head = head;
    package_contents =
        read_controlled_signed_receipt_package_contents files session_id (λ receipt. receipt.id)
          (λ receipt. receipt.package_path) rows.signed_review_receipts;
  }

  -- The evidence is what the latest signed review snapshot says of the head, under the stored plan.
  pub record Reviews (evidence : ReviewEvidence) : Type 0 where
    pub stored : StoredProofPlan
    pub plan : BoundProofPlan
    pub is_stored : rows.plan ≡ some stored
    pub is_bound : bind_stored_proof_plan readers stored ≡ some plan
    pub is_snapshot :
        IsSnapshot readers.signed readers.review_schema readers.review_value
          (review_input plan)
          evidence

  under_binding-Reviews :
      (stored : StoredProofPlan) (o : Option BoundProofPlan)
      → rows.plan ≡ some stored
      → bind_stored_proof_plan readers stored ≡ o
      → (under_binding readers files session_id head rows o).review_evidence.status
        ≡ ReviewEvidenceStatus.current
      → Reviews (under_binding readers files session_id head rows o).review_evidence
  unfolding unevaluated evaluate_bound
  under_binding-Reviews stored none e b now = absurd (ground arith)
  under_binding-Reviews stored (some plan) e b now = record {
    stored = stored;
    plan = plan;
    is_stored = e;
    is_bound = b;
    is_snapshot =
        evaluate_review_evidence-IsSnapshot readers.signed readers.review_schema
          readers.review_value (review_input plan) now;
  }

  under_stored-Reviews :
      (o : Option StoredProofPlan)
      → rows.plan ≡ o
      → (under_stored readers files session_id head rows o).review_evidence.status
        ≡ ReviewEvidenceStatus.current
      → Reviews (under_stored readers files session_id head rows o).review_evidence
  unfolding unevaluated
  under_stored-Reviews none e now = absurd (ground arith)
  under_stored-Reviews (some stored) e now =
      under_binding-Reviews stored (bind_stored_proof_plan readers stored) e refl now

  pub evaluate_session_proof-Reviews :
      (evaluate_session_proof readers files session_id head rows).review_evidence.status
        ≡ ReviewEvidenceStatus.current
      → Reviews (evaluate_session_proof readers files session_id head rows).review_evidence
  unfolding evaluate_session_proof
  evaluate_session_proof-Reviews now = under_stored-Reviews rows.plan refl now
