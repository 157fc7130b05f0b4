-- ===== src/Session/Basis/Context.antt =====
-- `buildProofGuardContext` of src/services/session-service.ts: what the guards see of a session.
use threadloop.Base.{
  String, Option, none, some, Bool, List, reverse, find, map_option, ◌>>=◌, ◌≡◌, sym, Option-cases,
  inl, inr, arith,
}
use mathlib.Core.Option.{some-injective}
use threadloop.Task.{LifecyclePhase}
use threadloop.Proof.{ProofEvidenceStatus}
use threadloop.Transition.{CiProofStatus, ImplementationBasis, ProofGuardContext}
use threadloop.Session.{ProofState, ProofRepository}
use threadloop.Session.Basis.{
  HistoryEntry, Git, latest_failure, latest_implementation_entry, implementation_basis,
  is_repair_entry, repair_basis, committed_from,
}

-- `CiProofEvidence['status']`. A gate of signed CI evidence is missing, passed, stale or corrupt.
unfoldable pub ci_proof_status : Option ProofEvidenceStatus → CiProofStatus
ci_proof_status none = CiProofStatus.policy_missing
ci_proof_status (some ProofEvidenceStatus.missing) = CiProofStatus.missing
ci_proof_status (some ProofEvidenceStatus.passed) = CiProofStatus.passed
ci_proof_status (some ProofEvidenceStatus.stale) = CiProofStatus.stale
ci_proof_status (some _) = CiProofStatus.corrupt

module _ (git : Git) (state : ProofState) (repository : ProofRepository) (phase : LifecyclePhase)
    (history : List HistoryEntry) where
  unfoldable pub work_basis : Option ImplementationBasis
  unfolding latest_failure latest_implementation_entry implementation_basis
  work_basis =
      implementation_basis state.plan phase state.evidence.status
        (latest_implementation_entry history) (latest_failure state.receipts)

  unfoldable pub repaired_from : Option String
  unfolding latest_failure is_repair_entry repair_basis
  repaired_from =
      repair_basis (find is_repair_entry (reverse history)) (latest_failure state.receipts)
        state.signed_review_receipts

  -- The context, by whether work and a repair are committed since their bases.
  unfoldable pub context_with : Bool → Bool → ProofGuardContext
  unfolding work_basis ci_proof_status
  context_with implemented repaired = record {
    bound_plan = none;
    plan = state.plan;
    evidence = some state.evidence;
    ci_evidence = some (ci_proof_status state.ci_evidence.status);
    review_evidence = some state.review_evidence;
    phase = some phase;
    implementation_basis = work_basis;
    repository = some (record {
      branch = repository.branch;
      head_sha = repository.head_sha;
      clean = repository.clean;
      committed_implementation_from_basis = implemented;
      committed_repair_from_failure = repaired;
    });
    attempts_used = some state.attempts_used;
  }

  abbrev pub committed_implementation : Option Bool
  committed_implementation =
      committed_from git (map_option (λ b. b.head_sha) work_basis) repository.head_sha

  abbrev pub committed_repair : Option Bool
  committed_repair = committed_from git repaired_from repository.head_sha

  -- `none` is an error of git.
  unfoldable pub build_proof_guard_context : Option ProofGuardContext
  unfolding work_basis repaired_from committed_from context_with
  build_proof_guard_context = do
    implemented ← committed_implementation
    repaired ← committed_repair
    some (context_with implemented repaired)

  -- The context that is built, and where its two tests on the history of git come from.
  pub build_proof_guard_context-parts :
      {ctx : ProofGuardContext}
      → build_proof_guard_context ≡ some ctx
      → (implemented : Bool) × (repaired : Bool) × (committed_implementation ≡ some implemented)
        × (committed_repair ≡ some repaired)
        × (ctx ≡ context_with implemented repaired)
  unfolding build_proof_guard_context
  build_proof_guard_context-parts p = elim (Option-cases committed_implementation) [
    | inl e ↦ absurd (ground arith)
    | inr (implemented, e) ↦ elim (Option-cases committed_repair) [
      | inl f ↦ absurd (cc (rw (e, f) at p))
      | inr (repaired, f) ↦ (implemented, repaired, e, f, sym (some-injective _ _ (rw (e, f) at p)))
    ]
  ]
