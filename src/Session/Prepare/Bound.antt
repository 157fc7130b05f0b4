-- ===== src/Session/Prepare/Bound.antt =====
-- src/services/session-service.ts: what `prepareBoundProofPlan` binds.
use threadloop.Base.{
  All, ◌≢◌, String, Option, none, some, Bool, true, false, not, ◌&&◌, ◌≡◌, refl, [], subst, ap, ◌∙◌,
  ◌>>◌, string_eq, guard, if◌then◌else◌, arith, is_some,
}
use mathlib.Core.Option.{some-injective}
use threadloop.Json.{Value, get, as_object}
use threadloop.Json.Canonical.{canonical_json}
use threadloop.Proof.{ProofPlan, BoundProofPlan, gates_of}
use threadloop.Session.{
  PlanSchema, legacy_schema, version_2, version_3, version_4, Readers, ProofRepository,
}
use threadloop.Session.Files.{Files}
use threadloop.Session.Files.Controlled.{option_bind}
use threadloop.Session.Proof.{
  plan_version, is_legacy, is_version_4, CanonicalProofPlan, validate_proof_plan,
  canonicalize_proof_plan,
}
use threadloop.Session.Prepare.Baseline.{AreNamed, policies_are_bound-AreNamed, named_branch-some}
use threadloop.Session.Prepare.Inside.{IsInside, directories_are_inside-IsInside}
use threadloop.Session.Prepare.{
  Identity, Preparation, prepared, invalid_proof_plan, unreadable_repository, policies_are_bound,
  directories_are_inside, named_branch, dirty_baseline, bind_baseline, on_branch, prepare_canonical,
  prepare_bound_proof_plan,
}

-- A plan that must carry both policies is of version 4.
of_version_4 :
    (v : PlanSchema) (schema : PlanSchema → Option ProofPlan) {plan : ProofPlan}
    → (guard (not (is_legacy v && true))
        >> (guard (not (not (is_version_4 v) && true)) >> schema v))
      ≡ some plan
    → schema version_4 ≡ some plan
unfolding is_version_4 is_legacy
of_version_4 version_4 schema h = h
of_version_4 version_3 schema h = absurd (ground arith)
of_version_4 version_2 schema h = absurd (ground arith)
of_version_4 legacy_schema schema h = absurd (ground arith)

-- A preparation that its three checks let through is the plan they were made on.
checked-prepared :
    (bound inside known : Bool) {x plan : BoundProofPlan}
    → (if not bound
        then invalid_proof_plan
        else if not inside
        then (if known then invalid_proof_plan else unreadable_repository)
        else prepared x)
      ≡ prepared plan
    → (bound ≡ true) × ((inside ≡ true) × (x ≡ plan))
checked-prepared bound inside known h = ground arith

if-prepared :
    (b : Bool) {x : Preparation} {bound : BoundProofPlan}
    → (if b then x else dirty_baseline) ≡ prepared bound
    → (b ≡ true) × (x ≡ prepared bound)
if-prepared true h = (refl, h)
if-prepared false h = absurd (ground arith)

module _ (files : Files) (identity : Identity) where
  -- The plan is bound to the head of a clean branch with a name, both of its policies name that
  -- branch and the GitHub origin, and every gate runs inside the repository.
  pub record IsBaseline (repository : ProofRepository) (bound : BoundProofPlan) : Type 0 where
    pub is_clean : repository.clean ≡ true
    pub on_branch : repository.branch ≡ some bound.baseline_branch
    pub has_name : bound.baseline_branch ≢ ""
    pub at_head : bound.baseline_head_sha ≡ repository.head_sha
    pub by_policies : AreNamed identity bound.baseline_branch bound.plan
    pub inside : All (IsInside files) (gates_of bound.plan)

module _ (readers : Readers) where
  abbrev plan_json : ProofPlan → String
  plan_json plan = canonical_json readers.receipt.stringify (readers.plan_value plan)

  validate-Version :
      (value : Value) (plan : ProofPlan)
      → validate_proof_plan readers true true value ≡ some plan
      → readers.plan_schema version_4 value ≡ some plan
  unfolding validate_proof_plan
  validate-Version value plan h =
      let (fields, f, h₁) = option_bind (as_object (some value)) _ h in
      of_version_4 (plan_version (get "contract_version" fields)) (λ v. readers.plan_schema v value)
        h₁

  canonicalize_proof_plan-Version :
      (value : Value) (canonical : CanonicalProofPlan)
      → canonicalize_proof_plan readers true true value ≡ some canonical
      → (readers.plan_schema version_4 value ≡ some canonical.plan)
        × ((canonical.json ≡ plan_json canonical.plan)
            × (canonical.sha256 ≡ readers.receipt.digest canonical.json))
  unfolding canonicalize_proof_plan
  canonicalize_proof_plan-Version value canonical h =
      let (plan, v, h₁) = option_bind (validate_proof_plan readers true true value) _ h in
      subst
        (λ c.
          (readers.plan_schema version_4 value ≡ some c.plan)
          × ((c.json ≡ plan_json c.plan) × (c.sha256 ≡ readers.receipt.digest c.json)))
        (some-injective _ _ h₁) (validate-Version value plan v, (refl, refl))

  -- The plan validates as one of version 4, and its text and digest are its own.
  pub record IsCanonical (value : Value) (bound : BoundProofPlan) : Type 0 where
    pub validates : readers.plan_schema version_4 value ≡ some bound.plan
    pub is_canonical :
        bound.json ≡ canonical_json readers.receipt.stringify (readers.plan_value bound.plan)
    pub is_hashed : bound.sha256 ≡ readers.receipt.digest bound.json

  module _ (files : Files) (identity : Identity) (now : String) where
    IsBound : ProofRepository → CanonicalProofPlan → BoundProofPlan → Type 0
    IsBound repository canonical bound =
        IsBaseline files identity repository bound
        × (canonical ≡ record { plan = bound.plan; json = bound.json; sha256 = bound.sha256 })

    bind_baseline-IsBaseline :
        (repository : ProofRepository) (canonical : CanonicalProofPlan) (branch : String)
        (bound : BoundProofPlan)
        → repository.clean ≡ true
        → named_branch repository ≡ some branch
        → bind_baseline readers files identity now repository canonical branch ≡ prepared bound
        → IsBound repository canonical bound
    unfolding bind_baseline IsBound
    bind_baseline-IsBaseline repository canonical branch bound is_clean named h =
        let (policies, (inside, e)) =
          checked-prepared (policies_are_bound identity branch canonical.plan)
            (directories_are_inside files (files.realpath (files.resolve []))
              (gates_of canonical.plan))
            (is_some (files.realpath (files.resolve []))) h in
        let (checked_out, has_name) = named_branch-some repository branch named in
        subst (IsBound repository canonical) e (
          record {
            is_clean = is_clean;
            on_branch = checked_out;
            has_name = has_name;
            at_head = refl;
            by_policies = policies_are_bound-AreNamed identity branch canonical.plan policies;
            inside =
                directories_are_inside-IsInside files (files.realpath (files.resolve []))
                  (gates_of canonical.plan) refl inside;
          },
          refl,
        )

    on_branch-IsBaseline :
        (repository : ProofRepository) (canonical : CanonicalProofPlan) (branch : Option String)
        (bound : BoundProofPlan)
        → named_branch repository ≡ branch
        → on_branch readers files identity now repository canonical branch ≡ prepared bound
        → IsBound repository canonical bound
    on_branch-IsBaseline repository canonical none bound named h = absurd (ground arith)
    on_branch-IsBaseline repository canonical (some branch) bound named h =
        let (is_clean, h₁) = if-prepared repository.clean h in
        bind_baseline-IsBaseline repository canonical branch bound is_clean named h₁

    prepare_canonical-IsBaseline :
        (repository : Option ProofRepository) (canonical : Option CanonicalProofPlan)
        (bound : BoundProofPlan)
        → prepare_canonical readers files identity now repository canonical ≡ prepared bound
        → (r : ProofRepository) × (c : CanonicalProofPlan) × (repository ≡ some r)
          × (canonical ≡ some c)
          × IsBound r c bound
    unfolding prepare_canonical
    prepare_canonical-IsBaseline repository none bound h = absurd (ground arith)
    prepare_canonical-IsBaseline none (some canonical) bound h = absurd (ground arith)
    prepare_canonical-IsBaseline (some repository) (some canonical) bound h = (
      repository,
      canonical,
      refl,
      refl,
      on_branch-IsBaseline repository canonical (named_branch repository) bound refl h,
    )

    -- `prepareBoundProofPlan` binds only a plan that validates as one of version 4, with its own
    -- canonical text and the digest of that text, and binds it to the head of a clean repository on
    -- a branch with a name. The source repository of both trust policies is then the address of the
    -- GitHub origin, the certified workflow of both is one of the branch, and the real directory of
    -- every gate is the repository's or below it.
    pub prepare_bound_proof_plan-IsBaseline :
        (repository : Option ProofRepository) (value : Option Value) (bound : BoundProofPlan)
        → prepare_bound_proof_plan readers files identity now repository value ≡ prepared bound
        → (r : ProofRepository) × (v : Value) × (repository ≡ some r)
          × (value ≡ some v)
          × IsBaseline files identity r bound
          × IsCanonical v bound
    unfolding prepare_bound_proof_plan IsBound
    prepare_bound_proof_plan-IsBaseline repository none bound h = absurd (ground arith)
    prepare_bound_proof_plan-IsBaseline repository (some value) bound h =
        let (r, c, is_some_r, is_some_c, (baseline, e)) =
          prepare_canonical-IsBaseline repository _ bound h in
        let (v, (j, d)) =
          canonicalize_proof_plan-Version value _ (is_some_c ∙ ap (λ c. some c) e) in
        (
          r,
          value,
          is_some_r,
          refl,
          baseline,
          record { validates = v; is_canonical = j; is_hashed = d },
        )
