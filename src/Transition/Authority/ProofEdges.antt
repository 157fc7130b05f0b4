-- ===== src/Transition/Authority/ProofEdges.antt =====
-- What an allowed request proves on the edges that the proof-owned guards decide.
use threadloop.Base.{
  String, Option, some, Option-cases, true, false, ◌≡◌, inl, inr, refl, arith, ◌==◌, string_eq,
  option_eq, eq_of_beq,
}
use text.Mathlib.TextEquality.{eq_iff}
use threadloop.Task.{
  TaskStatus, proof_ready, implementing, verifying, pre_pr_reviewing, reviewing, repairing,
  phase_eq,
}
use threadloop.Json.{Fields}
use threadloop.Proof.{ProofEvidenceStatus, BoundProofPlan, evidence_status_eq}
use threadloop.Transition.{
  proof, CiProofStatus, ci_status_eq, GuardRepository, ProofGuardContext, evidence_status,
}
use threadloop.Transition.Input.{
  read_pre_pr_review_evidence, validate_transition_evidence, requires_pre_pr_review,
  is_pre_pr_review_transition, expected_outcome,
}
use threadloop.Transition.Guards.{
  is_clean_checkout, evaluate_proof_owned_guards, evaluate_transition_guards, guard_with_authority,
  get_transition_guard_requirement,
}
use threadloop.Transition.Authority.{NoReview, CleanCheckout, ProofPassed, Authorized}
use threadloop.Transition.Authority.Branches.{
  start_granted, done_granted, done_basis, rework_granted, entry_granted, pre_pr_entry_phase,
  post_pr_entry_phase, remediation_granted, clearance_granted, repair_granted, repaired_granted,
}
use threadloop.Transition.Authority.Evidence.{
  Valid-NoReview, Valid-Reviewed, Valid-required, Valid-optional,
}

module _ (source target : TaskStatus) (input : Fields) (prior : Option TaskStatus)
    (ctx : ProofGuardContext) where
  abbrev pub Allowed : Type 0
  Allowed = (evaluate_transition_guards source target input prior ctx).allowed ≡ true

  -- An allowed request is a valid one.
  pub Allowed-Valid :
      Allowed → (validate_transition_evidence source target input ctx).allowed ≡ true
  unfolding evaluate_transition_guards
  Allowed-Valid a = ground arith

-- The plan and the repository under which the proof-owned guards allowed an edge.
record Authority (source target : TaskStatus) (input : Fields) (ctx : ProofGuardContext)
    : Type 0 where
  plan : BoundProofPlan
  repository : GuardRepository
  planned : ctx.plan ≡ some plan
  observed : ctx.repository ≡ some repository
  granted : (guard_with_authority input plan repository ctx source target).allowed ≡ true

proof_owned-Authority :
    (source target : TaskStatus) (input : Fields) (ctx : ProofGuardContext)
    → (evaluate_proof_owned_guards source target input ctx).allowed ≡ true
    → Authority source target input ctx
unfolding evaluate_proof_owned_guards
proof_owned-Authority source target input ctx a = elim (Option-cases ctx.plan) [
  | inl e ↦ absurd (ground arith)
  | inr (plan, e) ↦ elim (Option-cases ctx.repository) [
    | inl f ↦ absurd (ground arith)
    | inr (repository, f) ↦ record {
      plan = plan;
      repository = repository;
      planned = e;
      observed = f;
      granted = ground arith;
    }
  ]
]

module _ {source target : TaskStatus} {input : Fields} {ctx : ProofGuardContext}
    (h : Authority source target input ctx) where
  clean_checkout : is_clean_checkout h.plan h.repository ≡ true → CleanCheckout ctx
  clean_checkout c = record {
    plan = h.plan;
    repository = h.repository;
    planned = h.planned;
    observed = h.observed;
    is_clean = ground arith;
    on_branch = branch_of h.repository.branch (ground arith);
  }
    where
      branch_of :
          (b : Option String)
          → (b == some h.plan.baseline_branch) ≡ true
          → b ≡ some h.plan.baseline_branch
      branch_of b e = eq_of_beq e

module _ (ctx : ProofGuardContext) where
  pub proof_passed :
      (evidence_status ctx == some ProofEvidenceStatus.passed) ≡ true
      → (ctx.ci_evidence == some CiProofStatus.passed) ≡ true
      → ProofPassed ctx
  proof_passed l s = record { local = eq_of_beq l; signed = eq_of_beq s }

-- From an allowed request to its authority, edge by edge.
module _ (input : Fields) (prior : Option TaskStatus) (ctx : ProofGuardContext) where
  pub carries-NoReview :
      (source target : TaskStatus)
      → is_pre_pr_review_transition source target ≡ false
      → Allowed source target input prior ctx
      → NoReview input
  carries-NoReview source target e a =
      Valid-NoReview source target input ctx e (Allowed-Valid source target input prior ctx a)

  -- The edges whose requirement is the proof.
  Allowed-Authority :
      (source target : TaskStatus)
      → get_transition_guard_requirement source target ≡ proof
      → Allowed source target input prior ctx
      → Authority source target input ctx
  unfolding evaluate_transition_guards
  Allowed-Authority source target e a = proof_owned-Authority source target input ctx (ground arith)

  pub implement_authorized :
      Allowed proof_ready implementing input prior ctx
      → Authorized input ctx proof_ready implementing
  unfolding guard_with_authority get_transition_guard_requirement is_pre_pr_review_transition
      clean_checkout
  implement_authorized a =
      let h = Allowed-Authority proof_ready implementing refl a in
      let t = start_granted input h.plan h.repository ctx h.granted in
      Authorized.implement (carries-NoReview proof_ready implementing refl a) (clean_checkout h t.0)
        ((eq_iff h.repository.head_sha h.plan.baseline_head_sha).0 t.1)

  pub verify_authorized :
      Allowed implementing verifying input prior ctx → Authorized input ctx implementing verifying
  unfolding guard_with_authority get_transition_guard_requirement is_pre_pr_review_transition
      clean_checkout
  verify_authorized a =
      let h = Allowed-Authority implementing verifying refl a in
      let (basis, e) = done_basis input h.plan h.repository ctx h.granted in
      let t = done_granted input h.plan h.repository ctx e h.granted in
      Authorized.verify (carries-NoReview implementing verifying refl a) (clean_checkout h t.0) e
        (λ same. cc (t.1, (eq_iff h.repository.head_sha basis.head_sha).1 same)) t.2

  pub rework_authorized :
      Allowed verifying implementing input prior ctx → Authorized input ctx verifying implementing
  unfolding guard_with_authority get_transition_guard_requirement expected_outcome
  rework_authorized a =
      let h = Allowed-Authority verifying implementing refl a in
      let t = rework_granted input h.plan h.repository ctx h.granted in
      let valid = Allowed-Valid verifying implementing input prior ctx a in
      elim (Option-cases (read_pre_pr_review_evidence input)) [
        | inl e ↦
            Authorized.rework_failure (Valid-optional verifying implementing input ctx e valid)
              (clean_checkout h t.1) (eq_of_beq t.0) (eq_of_beq (ground arith))
        | inr (review, e) ↦
            Authorized.rework_review (Valid-Reviewed verifying implementing input ctx refl e valid)
              (clean_checkout h t.1) (eq_of_beq t.0)
      ]

  pub enter_authorized :
      Allowed verifying pre_pr_reviewing input prior ctx
      → Authorized input ctx verifying pre_pr_reviewing
  unfolding guard_with_authority get_transition_guard_requirement is_pre_pr_review_transition
  enter_authorized a =
      let h = Allowed-Authority verifying pre_pr_reviewing refl a in
      let t = entry_granted input h.plan h.repository ctx pre_pr_reviewing h.granted in
      Authorized.enter_pre_pr_review (carries-NoReview verifying pre_pr_reviewing refl a)
        (clean_checkout h t.1)
        (eq_of_beq (pre_pr_entry_phase input h.plan h.repository ctx h.granted))
        (proof_passed ctx t.0 t.2)

  pub return_authorized :
      Allowed verifying reviewing input prior ctx → Authorized input ctx verifying reviewing
  unfolding guard_with_authority get_transition_guard_requirement is_pre_pr_review_transition
  return_authorized a =
      let h = Allowed-Authority verifying reviewing refl a in
      let t = entry_granted input h.plan h.repository ctx reviewing h.granted in
      Authorized.return_to_review (carries-NoReview verifying reviewing refl a)
        (clean_checkout h t.1)
        (eq_of_beq (post_pr_entry_phase input h.plan h.repository ctx h.granted))
        (proof_passed ctx t.0 t.2)

  pub repair_proof_authorized :
      Allowed verifying repairing input prior ctx → Authorized input ctx verifying repairing
  unfolding guard_with_authority get_transition_guard_requirement is_pre_pr_review_transition
  repair_proof_authorized a =
      let h = Allowed-Authority verifying repairing refl a in
      let t = repair_granted input h.plan h.repository ctx h.granted in
      Authorized.repair_proof (carries-NoReview verifying repairing refl a) h.planned h.observed
        (eq_of_beq t.0) (eq_of_beq t.1) t.2

  pub remediate_authorized :
      Allowed pre_pr_reviewing implementing input prior ctx
      → Authorized input ctx pre_pr_reviewing implementing
  unfolding guard_with_authority get_transition_guard_requirement expected_outcome
      requires_pre_pr_review
  remediate_authorized a =
      let h = Allowed-Authority pre_pr_reviewing implementing refl a in
      let t = remediation_granted input h.plan h.repository ctx h.granted in
      let valid = Allowed-Valid pre_pr_reviewing implementing input prior ctx a in
      let (review, e) = Valid-required pre_pr_reviewing implementing input ctx refl valid in
      Authorized.remediate (Valid-Reviewed pre_pr_reviewing implementing input ctx refl e valid)
        (clean_checkout h t.1) (eq_of_beq t.0)

  pub clear_authorized :
      Allowed pre_pr_reviewing reviewing input prior ctx
      → Authorized input ctx pre_pr_reviewing reviewing
  unfolding guard_with_authority get_transition_guard_requirement expected_outcome
      requires_pre_pr_review
  clear_authorized a =
      let h = Allowed-Authority pre_pr_reviewing reviewing refl a in
      let t = clearance_granted input h.plan h.repository ctx h.granted in
      let valid = Allowed-Valid pre_pr_reviewing reviewing input prior ctx a in
      let (review, e) = Valid-required pre_pr_reviewing reviewing input ctx refl valid in
      Authorized.clear_review (Valid-Reviewed pre_pr_reviewing reviewing input ctx refl e valid)
        (clean_checkout h t.1) (eq_of_beq t.0) (proof_passed ctx t.2 t.3)

  pub verify_repair_authorized :
      Allowed repairing verifying input prior ctx → Authorized input ctx repairing verifying
  unfolding guard_with_authority get_transition_guard_requirement is_pre_pr_review_transition
      clean_checkout
  verify_repair_authorized a =
      let h = Allowed-Authority repairing verifying refl a in
      let t = repaired_granted input h.plan h.repository ctx h.granted in
      Authorized.verify_repair (carries-NoReview repairing verifying refl a) (clean_checkout h t.0)
        t.1
