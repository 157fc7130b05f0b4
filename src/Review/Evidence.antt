-- ===== src/Review/Evidence.antt =====
-- `reviewEvidenceFromArtifact` and `evaluateReviewEvidence` of src/domain/review.ts: the latest stored
-- snapshot of the pull request's review.
pub mod Current
use threadloop.Base.{
  ℕ, String, Option, none, some, Bool, true, false, not, ◌&&◌, ◌||◌, List, [], ◌∷◌, map, select,
  head?, if◌then◌else◌, ◌==◌, leb, is_hex_of_length, nat_eq, string_eq, option_eq,
}
use threadloop.Json.{Value, number, text, array, object, nil, cons, end, field}
use threadloop.Proof.{BoundProofPlan, GitHubActionsTrustPolicy, review_trust_policy}
use threadloop.Review.{
  ReviewEvidenceStatus, policy_missing, missing, current, stale, corrupt, ReviewDecision,
  ReviewFinding, ReviewApproval, ReviewEvidence, is_truthy,
}
use threadloop.Package.{
  ArtifactSource, SignedReceiptKind, PackageReader, ParsedSignedPackage, StoredSignedPackage,
  reverify_stored_package,
}

-- The fields of a `SignedReviewReceiptArtifact` that the evidence and the statement read.
pub record ReviewThread : Type 0 where
  pub id : String
  pub url : String
  pub author_login : Option String
  pub body : String
  pub path : Option String
  pub line : Option ℕ
  pub resolved : Bool
  pub outdated : Bool

pub record ArtifactApproval : Type 0 where
  pub actor_id : String
  pub actor_login : String
  pub actor_type : String
  pub state : String
  pub commit_sha : String
  pub submitted_at : String

pub record SignedReviewReceiptArtifact : Type 0 where
  pub receipt_id : String
  pub session_id : String
  pub plan_sha256 : String
  pub pull_request_number : ℕ
  pub head_sha : String
  pub merged : Bool
  pub merged_at : Option String
  pub decision : Option ReviewDecision
  pub approvals : List ArtifactApproval
  pub threads : List ReviewThread
  pub source : ArtifactSource

pub record StoredSignedReviewReceipt : Type 0 where
  pub stored : StoredSignedPackage
  pub sequence : ℕ
  pub id : String
  pub session_id : String
  pub plan_sha256 : String
  pub pull_request_number : ℕ
  pub subject_head_sha : String
  pub package_path : String
  pub state_version : ℕ
  pub verified_at : String

abbrev review_predicate : SignedReviewReceiptArtifact → String → Value
review_predicate artifact sha256 = object (
    field "schema_version" (number 1) (
      field "receipt_type" (text "review") (
        field "session_id" (text artifact.session_id) (
          field "plan_sha256" (text artifact.plan_sha256) (
            field "pull_request_number" (number artifact.pull_request_number) (
              field "subject_head_sha" (text artifact.head_sha) (
                field "artifact"
                  (object (
                    field "name" (text "threadloop-review-snapshot.json")
                      (field "sha256" (text sha256) end)))
                  (field "sensor"
                    (object (
                      field "name" (text "threadloop-github-actions-review")
                        (field "contract_version" (number 1) end)))
                    end))))))))

-- `none` where the hash of the artifact is no SHA-256.
unfoldable pub build_in_toto_review_statement : SignedReviewReceiptArtifact → String → Option Value
build_in_toto_review_statement artifact sha256 =
    if is_hex_of_length 64 sha256
    then some (
        object (
          field "_type" (text "https://in-toto.io/Statement/v1") (
            field "subject"
              (array (
                cons
                  (object (
                    field "name" (text artifact.source.repository) (
                      field "digest" (object (field "gitCommit" (text artifact.head_sha) end))
                        end)))
                  (cons
                    (object (
                      field "name" (text "threadloop-review-snapshot.json")
                        (field "digest" (object (field "sha256" (text sha256) end)) end)))
                    nil)))
              (field "predicateType" (text "https://threadloop.dev/attestations/review/v1")
                (field "predicate" (review_predicate artifact sha256) end)))))
    else none

-- `reviewReceiptKind`
abbrev pub review_receipt_kind :
    (Value → Option SignedReviewReceiptArtifact)
    → (SignedReviewReceiptArtifact → Value)
    → SignedReceiptKind SignedReviewReceiptArtifact
review_receipt_kind schema value_of = record {
  schema = schema;
  value_of = value_of;
  source_of = λ artifact. artifact.source;
  media_type = λ artifact. "application/vnd.threadloop.signed-review-receipt.v1+json";
  build_statement = build_in_toto_review_statement;
}

abbrev pub finding_of : ReviewThread → ReviewFinding
finding_of thread = record {
  id = thread.id;
  url = thread.url;
  author = thread.author_login;
  body = thread.body;
  path = thread.path;
  line = thread.line;
  resolved = thread.resolved;
  outdated = thread.outdated;
}

abbrev pub approval_of : ArtifactApproval → ReviewApproval
approval_of approval = record {
  actor_id = approval.actor_id;
  actor_login = some approval.actor_login;
  actor_type = approval.actor_type;
  state = approval.state;
  commit_sha = approval.commit_sha;
  submitted_at = some approval.submitted_at;
}

abbrev pub is_open : ReviewThread → Bool
is_open thread = not thread.resolved && not thread.outdated

-- `Boolean(currentHead && artifact.pull_request.head_sha === currentHead)`
abbrev pub is_current : SignedReviewReceiptArtifact → Option String → Bool
is_current artifact current_head = is_truthy current_head && some artifact.head_sha == current_head

unfoldable pub review_evidence_from_artifact :
    SignedReviewReceiptArtifact → Option String → ReviewEvidence
review_evidence_from_artifact artifact current_head = record {
  status = if is_current artifact current_head then current else stale;
  snapshot_id = some artifact.receipt_id;
  head_sha = some artifact.head_sha;
  review_decision = artifact.decision;
  blocking_findings = map finding_of (select is_open artifact.threads);
  approvals = map approval_of artifact.approvals;
  merged = artifact.merged;
  merged_at = artifact.merged_at;
}

abbrev pub empty_review_evidence : ReviewEvidenceStatus → ReviewEvidence
empty_review_evidence status = record {
  status = status;
  snapshot_id = none;
  head_sha = none;
  review_decision = none;
  blocking_findings = [];
  approvals = [];
  merged = false;
  merged_at = none;
}

-- `[...receipts].sort((left, right) => right.sequence - left.sequence)`, which is stable.
unfoldable pub insert_descending :
    StoredSignedReviewReceipt → List StoredSignedReviewReceipt → List StoredSignedReviewReceipt
insert_descending receipt [] = receipt ∷ []
insert_descending receipt (other ∷ others) =
    let rest = insert_descending receipt others in
    if leb other.sequence receipt.sequence then receipt ∷ other ∷ others else other ∷ rest

unfoldable pub sort_descending : List StoredSignedReviewReceipt → List StoredSignedReviewReceipt
sort_descending [] = []
sort_descending (receipt ∷ receipts) = insert_descending receipt (sort_descending receipts)

-- `input` of `evaluateReviewEvidence`. A package that is missing is `none`.
pub record ReviewInput : Type 0 where
  pub session_id : String
  pub plan : BoundProofPlan
  pub receipts : List StoredSignedReviewReceipt
  pub current_head : Option String
  pub package_contents : String → Option String

unfoldable pub is_foreign :
    ReviewInput → StoredSignedReviewReceipt → SignedReviewReceiptArtifact → Bool
is_foreign input receipt artifact =
    not (artifact.receipt_id == receipt.id)
    || not (artifact.session_id == input.session_id)
    || not (artifact.plan_sha256 == receipt.plan_sha256)
    || not (artifact.pull_request_number == receipt.pull_request_number)
    || not (artifact.head_sha == receipt.subject_head_sha)

abbrev pub corrupt_evidence : StoredSignedReviewReceipt → ReviewEvidence
corrupt_evidence receipt = record (empty_review_evidence corrupt) {
  snapshot_id = some receipt.id;
  head_sha = some receipt.subject_head_sha;
}

-- The evidence of a receipt, with the package that was verified again.
unfoldable pub receipt_evidence :
    ReviewInput
    → StoredSignedReviewReceipt
    → Option (ParsedSignedPackage SignedReviewReceiptArtifact)
    → ReviewEvidence
receipt_evidence input receipt none = corrupt_evidence receipt
receipt_evidence input receipt (some parsed) =
    let artifact = parsed.envelope.artifact in
    let evidence = review_evidence_from_artifact artifact input.current_head in
    if is_foreign input receipt artifact
    then corrupt_evidence receipt
    else if receipt.plan_sha256 == input.plan.sha256
    then evidence
    else record evidence { status = stale }

module _ (reader : PackageReader) (schema : Value → Option SignedReviewReceiptArtifact)
    (value_of : SignedReviewReceiptArtifact → Value) where
  abbrev pub latest_evidence :
      ReviewInput → GitHubActionsTrustPolicy → Option StoredSignedReviewReceipt → ReviewEvidence
  latest_evidence input policy none = empty_review_evidence missing
  latest_evidence input policy (some receipt) = receipt_evidence input receipt (
      reverify_stored_package reader (review_receipt_kind schema value_of) receipt.stored
        (input.package_contents receipt.id) policy)

  abbrev pub review_under_policy : ReviewInput → Option GitHubActionsTrustPolicy → ReviewEvidence
  review_under_policy input none = empty_review_evidence policy_missing
  review_under_policy input (some policy) =
      latest_evidence input policy (head? (sort_descending input.receipts))

  unfoldable pub evaluate_review_evidence : ReviewInput → ReviewEvidence
  evaluate_review_evidence input = review_under_policy input (review_trust_policy input.plan.plan)
