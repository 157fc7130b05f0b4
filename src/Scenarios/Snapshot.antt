-- ===== src/Scenarios/Snapshot.antt =====
-- A session with a signed snapshot of its review.
use threadloop.Base.{
  ℕ, String, Option, none, some, true, false, [], ◌∷◌, if◌then◌else◌, ◌==◌, string_eq, ◌≡◌, refl,
  or_else, is_hex_of_length,
}
use threadloop.Json.{Value, null, text, object, end, get}
use threadloop.Json.Canonical.{canonical_json, canonicalize_json_value, from_entries, sorted_fields}
use threadloop.Proof.{review, BoundProofPlan, GitHubActionsTrustPolicy, review_trust_policy}
use threadloop.Review.{current, approved}
use threadloop.Package.{
  PackageReader, is_same, parse_signed_envelope, bind_signed_statement, matches_stored,
  reverify_stored_package, package_value,
}
use threadloop.Review.Evidence.{
  SignedReviewReceiptArtifact, StoredSignedReviewReceipt, ReviewInput, review_receipt_kind,
  insert_descending, sort_descending, is_foreign, receipt_evidence, review_evidence_from_artifact,
  evaluate_review_evidence, build_in_toto_review_statement,
}
use threadloop.Review.Evidence.Current.{IsSnapshot, evaluate_review_evidence-IsSnapshot}
use threadloop.Scenarios.Engine.{writer, checksum}

abbrev pub policy : GitHubActionsTrustPolicy
policy = record {
  issuer = "issuer";
  certificate_identity = "review_workflow";
  source_repository = "repository";
  build_signer_uri = "signer";
  build_signer_sha = "signer_sha";
}

abbrev plan : BoundProofPlan
plan = record {
  plan = review 4 ("works" ∷ []) [] policy policy;
  json = "plan";
  sha256 = "plan_hash";
  baseline_branch = "main";
  baseline_head_sha = "base";
  created_at = "t0";
}

-- Approved, with one open and one outdated thread. Its text is the empty object.
abbrev pub artifact : SignedReviewReceiptArtifact
artifact = record {
  receipt_id = "snapshot_2";
  session_id = "S";
  plan_sha256 = "plan_hash";
  pull_request_number = 5;
  head_sha = "head";
  merged = false;
  merged_at = none;
  decision = some approved;
  approvals =
      record {
        actor_id = "actor_1";
        actor_login = "ada";
        actor_type = "User";
        state = "APPROVED";
        commit_sha = "head";
        submitted_at = "t1";
      }
      ∷ [];
  threads =
      record {
        id = "thread_1";
        url = "url_1";
        author_login = some "ada";
        body = "rename";
        path = none;
        line = none;
        resolved = false;
        outdated = false;
      }
      ∷ record {
        id = "thread_2";
        url = "url_2";
        author_login = none;
        body = "old";
        path = none;
        line = none;
        resolved = false;
        outdated = true;
      }
      ∷ [];
  source = record {
    repository = "repository";
    ref = "refs/heads/main";
    run_invocation_uri = "run";
  };
}

abbrev schema : Value → Option SignedReviewReceiptArtifact
schema v = some artifact

abbrev pub value_of : SignedReviewReceiptArtifact → Value
value_of a = object end

statement : Value
unfolding build_in_toto_review_statement is_hex_of_length checksum
statement = or_else (build_in_toto_review_statement artifact (checksum "{}")) null

statement_json : String
unfolding statement canonical_json writer
statement_json = canonical_json writer statement

abbrev pub media_type : String
media_type = "application/vnd.threadloop.signed-review-receipt.v1+json"

reader : PackageReader
unfolding writer checksum statement statement_json
reader = record {
  stringify = writer;
  parse = λ s. if s == statement_json then some statement else some (object end);
  digest = checksum;
  package_keys = λ v.
      some (record { media_type = text media_type; artifact = object end; bundle = object end });
  bundle_payload = λ bundle. some "payload";
  from_base64 = λ payload. [];
  utf8_text = λ bytes. statement_json;
  utf8_bytes = λ s. [];
}

package_json : String
unfolding reader canonical_json writer
package_json =
    canonical_json writer
      (package_value reader (review_receipt_kind schema value_of) media_type artifact (object end))

abbrev snapshot : ℕ → String → StoredSignedReviewReceipt
snapshot sequence id = record {
  stored = record {
    package_sha256 = checksum package_json;
    artifact_json = "{}";
    artifact_sha256 = checksum "{}";
    statement_json = statement_json;
    statement_sha256 = checksum statement_json;
    issuer = "issuer";
    certificate_identity = "review_workflow";
    build_signer_uri = "signer";
    build_signer_sha = "signer_sha";
    source_repository = "repository";
    source_ref = "refs/heads/main";
    run_invocation_uri = "run";
  };
  sequence = sequence;
  id = id;
  session_id = "S";
  plan_sha256 = "plan_hash";
  pull_request_number = 5;
  subject_head_sha = "head";
  package_path = "package.json";
  state_version = 6;
  verified_at = "t2";
}

abbrev input : ReviewInput
input = record {
  session_id = "S";
  plan = plan;
  receipts = snapshot 1 "snapshot_1" ∷ snapshot 2 "snapshot_2" ∷ [];
  current_head = some "head";
  package_contents = λ id. some package_json;
}

is_current_review : (evaluate_review_evidence reader schema value_of input).status ≡ current
unfolding evaluate_review_evidence review_trust_policy receipt_evidence is_foreign
    review_evidence_from_artifact insert_descending sort_descending reverify_stored_package
    parse_signed_envelope bind_signed_statement matches_stored is_same get
    build_in_toto_review_statement is_hex_of_length reader writer checksum canonical_json
    canonicalize_json_value from_entries sorted_fields package_json statement statement_json
is_current_review = refl

evaluate_review_evidence-IsSnapshot_example :
    IsSnapshot reader schema value_of input (evaluate_review_evidence reader schema value_of input)
evaluate_review_evidence-IsSnapshot_example =
    evaluate_review_evidence-IsSnapshot reader schema value_of input is_current_review
