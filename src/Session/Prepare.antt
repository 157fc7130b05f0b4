-- ===== src/Session/Prepare.antt =====
-- `prepareBoundProofPlan` and `proofBaselineGuardRejection` of src/services/session-service.ts: the
-- proof plan that a transition binds is signed by policies of the origin repository and of the
-- branch that is checked out.
pub mod Baseline
pub mod Inside
pub mod Bound
use threadloop.Base.{
  ℕ, String, Option, none, some, Bool, true, false, not, ◌&&◌, List, [], ◌∷◌, ◌++◌, reverse,
  if◌then◌else◌, ◌==◌, all, is_some, is_empty, codes, nat_eq, string_eq, list_eq, option_eq,
}
use threadloop.Json.{Value}
use threadloop.Proof.{
  ProofPlan, ProofGate, gates_of, BoundProofPlan, GitHubActionsTrustPolicy, ci_trust_policy,
  review_trust_policy,
}
use threadloop.Transition.{GuardCode, WorkCode, TransitionGuardDecision, deny}
use threadloop.Session.{Readers, ProofRepository}
use threadloop.Session.Files.{Files, escapes, starts_with}
use threadloop.Session.Proof.{CanonicalProofPlan, canonicalize_proof_plan}

-- `RepositoryIdentity` of `observeRepository`
pub record Identity : Type 0 where
  pub from_origin : Bool
  pub host : Option String
  pub owner : Option String
  pub name : String

pub data Preparation : Type 0 where
  prepared : BoundProofPlan → Preparation
  baseline_rejected : TransitionGuardDecision → Preparation
  invalid_proof_plan : Preparation
  unreadable_repository : Preparation

-- `text.endsWith(suffix)`
unfoldable pub ends_with : List ℕ → List ℕ → Bool
unfolding starts_with
ends_with suffix cs = starts_with (reverse suffix) (reverse cs)

-- `https://github.com/${owner}/${name}` for a GitHub origin.
unfoldable pub expected_source_repository : Identity → Option (List ℕ)
expected_source_repository identity =
    if identity.from_origin && identity.host == some "github.com"
    then named identity.owner
    else none
  where
    named : Option String → Option (List ℕ)
    named none = none
    named (some owner) =
        if owner == ""
        then none
        else some (codes "https://github.com/" ++ codes owner ++ codes "/" ++ codes identity.name)

unfoldable pub policy_is_bound : Identity → String → GitHubActionsTrustPolicy → Bool
unfolding expected_source_repository ends_with
policy_is_bound identity branch policy =
    some (codes policy.source_repository) == expected_source_repository identity
    && ends_with (codes "@refs/heads/" ++ codes branch) (codes policy.certificate_identity)

unfoldable pub policies_are_bound : Identity → String → ProofPlan → Bool
unfolding ci_trust_policy review_trust_policy policy_is_bound
policies_are_bound identity branch plan = elim (review_trust_policy plan) [
  | none ↦ false
  | some review ↦ elim (ci_trust_policy plan) [
    | none ↦ false
    | some ci ↦ policy_is_bound identity branch ci && policy_is_bound identity branch review
  ]
]

-- `resolveProofWorkingDirectory` accepts the gate's directory.
unfoldable pub directory_is_inside : Files → String → ProofGate → Bool
unfolding escapes
directory_is_inside files root gate =
    elim (files.realpath (files.resolve (root ∷ gate.working_directory ∷ []))) [
      | none ↦ false
      | some directory ↦ not (escapes files (files.relative root directory))
    ]

unfoldable pub directories_are_inside : Files → Option String → List ProofGate → Bool
unfolding directory_is_inside
directories_are_inside files none gates = is_empty gates
directories_are_inside files (some root) gates = all (directory_is_inside files root) gates

-- A branch that is checked out; an empty name is none.
unfoldable pub named_branch : ProofRepository → Option String
named_branch repository = elim repository.branch [
  | none ↦ none
  | some branch ↦ if branch == "" then none else some branch
]

abbrev pub dirty_baseline : Preparation
dirty_baseline =
    baseline_rejected
      (deny GuardCode.proof_baseline_dirty WorkCode.prepare_clean_proof_baseline none)

abbrev pub branch_required : Preparation
branch_required =
    baseline_rejected
      (deny GuardCode.proof_baseline_branch_required WorkCode.prepare_clean_proof_baseline none)

module _ (readers : Readers) (files : Files) (identity : Identity) (now : String) where
  -- The checks of a plan on a branch in a clean repository.
  unfoldable pub bind_baseline : ProofRepository → CanonicalProofPlan → String → Preparation
  unfolding policies_are_bound directories_are_inside
  bind_baseline repository canonical branch =
      if not (policies_are_bound identity branch canonical.plan)
      then invalid_proof_plan
      else if not (
          directories_are_inside files (files.realpath (files.resolve []))
            (gates_of canonical.plan))
      then (if is_some (files.realpath (files.resolve []))
          then invalid_proof_plan
          else unreadable_repository)
      else prepared (record {
        plan = canonical.plan;
        json = canonical.json;
        sha256 = canonical.sha256;
        baseline_branch = branch;
        baseline_head_sha = repository.head_sha;
        created_at = now;
      })

  abbrev pub on_branch : ProofRepository → CanonicalProofPlan → Option String → Preparation
  on_branch repository canonical none = branch_required
  on_branch repository canonical (some branch) =
      if repository.clean then bind_baseline repository canonical branch else dirty_baseline

  unfoldable pub prepare_canonical :
      Option ProofRepository → Option CanonicalProofPlan → Preparation
  unfolding named_branch bind_baseline
  prepare_canonical repository none = invalid_proof_plan
  prepare_canonical none (some canonical) = unreadable_repository
  prepare_canonical (some repository) (some canonical) =
      on_branch repository canonical (named_branch repository)

  -- `value` is none where the request has no `proof_plan`, and `repository` where git fails.
  unfoldable pub prepare_bound_proof_plan : Option ProofRepository → Option Value → Preparation
  unfolding canonicalize_proof_plan prepare_canonical
  prepare_bound_proof_plan repository none = invalid_proof_plan
  prepare_bound_proof_plan repository (some value) =
      prepare_canonical repository (canonicalize_proof_plan readers true true value)
