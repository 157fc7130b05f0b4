-- ===== src/Scenarios/Prepared.antt =====
-- A proof plan of version 4 that is prepared on the main branch.
use threadloop.Base.{String, none, some, true, [], ◌∷◌, if◌then◌else◌, ◌==◌, string_eq, ◌≡◌, refl}
use threadloop.Json.{Value, Fields, number, object, end, field, get, as_object}
use threadloop.Json.Canonical.{canonical_json, canonicalize_json_value, from_entries, sorted_fields}
use threadloop.Proof.{
  ProofPlan, review, GitHubActionsTrustPolicy, BoundProofPlan, ci_trust_policy, review_trust_policy,
}
use threadloop.Session.{Readers, ProofRepository}
use threadloop.Session.Files.{Files, escapes, starts_with}
use threadloop.Session.Proof.{
  validate_proof_plan, plan_version, is_legacy, is_version_4, canonicalize_proof_plan,
}
use threadloop.Session.Prepare.{
  Identity, prepared, prepare_bound_proof_plan, prepare_canonical, bind_baseline,
  policies_are_bound, policy_is_bound, expected_source_repository, ends_with,
  directories_are_inside, directory_is_inside, named_branch,
}
use threadloop.Session.Prepare.Bound.{IsBaseline, IsCanonical, prepare_bound_proof_plan-IsBaseline}
use threadloop.Scenarios.Engine.{writer, checksum}
use threadloop.Scenarios.Receipts.{gate}
use threadloop.Scenarios.Handover

abbrev policy : GitHubActionsTrustPolicy
policy = record {
  issuer = "issuer";
  certificate_identity = "workflow.yml@refs/heads/main";
  source_repository = "https://github.com/owner/threadloop";
  build_signer_uri = "signer";
  build_signer_sha = "signer_sha";
}

abbrev plan : ProofPlan
plan = review 4 ("works" ∷ []) (gate ∷ []) policy policy

-- Of the document only the version is written out.
abbrev fields : Fields
fields = field "contract_version" (number 4) end

plan_text : String
unfolding writer canonical_json canonicalize_json_value from_entries sorted_fields
plan_text = canonical_json writer (object fields)

-- One document validates, and as one plan.
unfoldable readers : Readers
unfolding plan_text checksum Handover.readers writer
readers = record Handover.readers {
  receipt = record Handover.readers.receipt {
    stringify = writer;
    parse = λ s. if s == plan_text then some (object fields) else none;
    digest = checksum;
  };
  plan_schema = λ schema value. some plan;
  plan_value = λ plan. object fields;
}

unfoldable files : Files
unfolding Handover.files
files = record Handover.files { relative = λ from_path to_path. "packages" }

abbrev identity : Identity
identity = record {
  from_origin = true;
  host = some "github.com";
  owner = some "owner";
  name = "threadloop";
}

abbrev repository : ProofRepository
repository = record { branch = some "main"; head_sha = "head"; clean = true }

bound : BoundProofPlan
unfolding plan_text checksum
bound = record {
  plan = plan;
  json = plan_text;
  sha256 = checksum plan_text;
  baseline_branch = "main";
  baseline_head_sha = "head";
  created_at = "t0";
}

is_prepared :
    prepare_bound_proof_plan readers files identity "t0" (some repository) (some (object fields))
    ≡ prepared bound
unfolding prepare_bound_proof_plan prepare_canonical bind_baseline policies_are_bound
    policy_is_bound expected_source_repository ends_with starts_with directories_are_inside
    directory_is_inside named_branch escapes validate_proof_plan plan_version is_legacy is_version_4
    canonicalize_proof_plan canonical_json canonicalize_json_value from_entries sorted_fields
    ci_trust_policy review_trust_policy get as_object readers files bound plan_text checksum writer
is_prepared = refl

prepare_bound_proof_plan-IsBaseline_example :
    (r : ProofRepository) × (v : Value) × (some repository ≡ some r)
    × (some (object fields) ≡ some v)
    × IsBaseline files identity r bound
    × IsCanonical readers v bound
prepare_bound_proof_plan-IsBaseline_example =
    prepare_bound_proof_plan-IsBaseline readers files identity "t0" (some repository)
      (some (object fields)) bound is_prepared
