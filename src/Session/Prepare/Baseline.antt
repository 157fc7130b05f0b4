-- ===== src/Session/Prepare/Baseline.antt =====
-- src/services/session-service.ts: what the checks of `prepareBoundProofPlan` on the trust policies
-- and on the branch establish.
use threadloop.Base.{
  ℕ, String, none, some, Bool-cases, true, false, ◌&&◌, List, [], ◌∷◌, ◌++◌, reverse, ◌≡◌, ◌≢◌,
  refl, sym, ap, ◌∙◌, arith, inl, inr, ◌==◌, codes, nat_eq, string_eq, list_eq, option_eq, beq_refl,
  Option-cases, eq_of_beq, eqb_iff, &&-eq-true,
}
use mathlib.Core.List.{reverse-append, reverse-reverse}
use mathlib.Core.Option.{some-injective}
use threadloop.Proof.{ProofPlan, GitHubActionsTrustPolicy, ci_trust_policy, review_trust_policy}
use threadloop.Session.{ProofRepository}
use threadloop.Session.Files.{starts_with}
use threadloop.Session.Prepare.{
  Identity, ends_with, expected_source_repository, policy_is_bound, policies_are_bound,
  named_branch,
}

-- A GitHub origin with a named owner, whose address the policy has; and the workflow that the
-- policy certifies is one of the branch.
pub record IsNamed (identity : Identity) (branch : String) (policy : GitHubActionsTrustPolicy)
    : Type 0 where
  pub owner : String
  pub workflow : List ℕ
  pub from_origin : identity.from_origin ≡ true
  pub on_github : identity.host ≡ some "github.com"
  pub is_owned : identity.owner ≡ some owner
  pub has_owner : owner ≢ ""
  pub in_repository :
      codes policy.source_repository
      ≡ codes "https://github.com/" ++ codes owner ++ codes "/" ++ codes identity.name
  pub on_branch :
      codes policy.certificate_identity ≡ workflow ++ (codes "@refs/heads/" ++ codes branch)

starts_with-append :
    (ps cs : List ℕ) → starts_with ps cs ≡ true → (rest : List ℕ) × (cs ≡ ps ++ rest)
unfolding starts_with
starts_with-append [] cs h = (cs, refl)
starts_with-append (p ∷ ps) [] h = absurd (ground arith)
starts_with-append (p ∷ ps) (c ∷ cs) h =
    let (e, k) = &&-eq-true (p == c) (starts_with ps cs) h in
    let (rest, same) = starts_with-append ps cs k in let first = (eqb_iff p c).0 e in (rest, cc)

ends_with-append :
    (suffix cs : List ℕ) → ends_with suffix cs ≡ true → (front : List ℕ) × (cs ≡ front ++ suffix)
unfolding ends_with
ends_with-append suffix cs h =
    let (rest, e) = starts_with-append (reverse suffix) (reverse cs) h in
    (
      reverse rest,
      sym (reverse-reverse cs)
          ∙ ap reverse e
          ∙ reverse-append (reverse suffix) rest
          ∙ ap (λ s. reverse rest ++ s) (reverse-reverse suffix),
    )

-- The address that a policy must have, and the owner it names.
record IsAddress (identity : Identity) (source : List ℕ) : Type 0 where
  owner : String
  from_origin : identity.from_origin ≡ true
  on_github : identity.host ≡ some "github.com"
  is_owned : identity.owner ≡ some owner
  has_owner : owner ≢ ""
  address : source ≡ codes "https://github.com/" ++ codes owner ++ codes "/" ++ codes identity.name

not_empty : {owner : String} → (owner == "") ≡ false → owner ≢ ""
not_empty {owner} h e = ground (arith, beq_refl owner)

expected_source_repository-IsAddress :
    (identity : Identity) (source : List ℕ)
    → expected_source_repository identity ≡ some source
    → IsAddress identity source
unfolding expected_source_repository
expected_source_repository-IsAddress identity source h =
    elim (Bool-cases (identity.from_origin && identity.host == some "github.com")) [
      | inr b ↦ absurd (none-some (rw (expected_source_repository, b) at h))
      | inl b ↦
          let (origin, host) =
            &&-eq-true identity.from_origin (identity.host == some "github.com") b in
          elim (Option-cases identity.owner) [
            | inl e ↦ absurd (none-some (rw (expected_source_repository, b, e) at h))
            | inr (owner, e) ↦ elim (Bool-cases (owner == "")) [
              | inl o ↦ absurd (none-some (rw (expected_source_repository, b, e, o) at h))
              | inr o ↦ record {
                owner = owner;
                from_origin = origin;
                on_github = eq_of_beq host;
                is_owned = e;
                has_owner = not_empty o;
                address = sym (some-injective _ _ (rw (expected_source_repository, b, e, o) at h));
              }
            ]
          ]
    ]
  where
    none-some : {A : Type 0} {a : A} → none ≡ some a → ⊥
    none-some p = ground arith

policy_is_bound-IsNamed :
    (identity : Identity) (branch : String) (policy : GitHubActionsTrustPolicy)
    → policy_is_bound identity branch policy ≡ true
    → IsNamed identity branch policy
unfolding policy_is_bound
policy_is_bound-IsNamed identity branch policy h =
    let (source, certificate) =
      &&-eq-true (some (codes policy.source_repository) == expected_source_repository identity)
        (ends_with (codes "@refs/heads/" ++ codes branch) (codes policy.certificate_identity)) h in
    let at = expected_source_repository-IsAddress identity _ (sym (eq_of_beq source)) in
    let (workflow, e) =
      ends_with-append (codes "@refs/heads/" ++ codes branch) (codes policy.certificate_identity)
        certificate in
    record {
      owner = at.owner;
      workflow = workflow;
      from_origin = at.from_origin;
      on_github = at.on_github;
      is_owned = at.is_owned;
      has_owner = at.has_owner;
      in_repository = at.address;
      on_branch = e;
    }

-- Both policies of a plan name the repository and the branch.
pub record AreNamed (identity : Identity) (branch : String) (plan : ProofPlan) : Type 0 where
  pub ci : GitHubActionsTrustPolicy
  pub review : GitHubActionsTrustPolicy
  pub has_ci : ci_trust_policy plan ≡ some ci
  pub has_review : review_trust_policy plan ≡ some review
  pub by_ci : IsNamed identity branch ci
  pub by_review : IsNamed identity branch review

pub policies_are_bound-AreNamed :
    (identity : Identity) (branch : String) (plan : ProofPlan)
    → policies_are_bound identity branch plan ≡ true
    → AreNamed identity branch plan
unfolding policies_are_bound
policies_are_bound-AreNamed identity branch plan h =
    elim (Option-cases (review_trust_policy plan)) [
      | inl r ↦ absurd (false-true (rw (policies_are_bound, r) at h))
      | inr (review, r) ↦ elim (Option-cases (ci_trust_policy plan)) [
        | inl c ↦ absurd (false-true (rw (policies_are_bound, r, c) at h))
        | inr (ci, c) ↦
            let (first, second) =
              &&-eq-true (policy_is_bound identity branch ci)
                (policy_is_bound identity branch review) (rw (policies_are_bound, r, c) at h) in
            record {
              ci = ci;
              review = review;
              has_ci = c;
              has_review = r;
              by_ci = policy_is_bound-IsNamed identity branch ci first;
              by_review = policy_is_bound-IsNamed identity branch review second;
            }
      ]
    ]
  where
    false-true : false ≡ true → ⊥
    false-true p = ground arith

-- A branch that is checked out has a name.
pub named_branch-some :
    (repository : ProofRepository) (branch : String)
    → named_branch repository ≡ some branch
    → (repository.branch ≡ some branch) × (branch ≢ "")
unfolding named_branch
named_branch-some repository branch h = elim (Option-cases repository.branch) [
  | inl e ↦ absurd (ground arith)
  | inr (found, e) ↦ elim (Bool-cases (found == "")) [
    | inl o ↦ absurd (ground arith)
    | inr o ↦
        let same = some-injective _ _ (rw (named_branch, e, o) at h) in
        (e ∙ ap some same, λ f. not_empty o (same ∙ f))
  ]
]
