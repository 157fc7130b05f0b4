-- ===== src/Review/Evidence/Current.antt =====
-- What review evidence that is current rests on.
use text.Mathlib.TextEquality.{eq_iff}
use threadloop.Base.{
  ◌≤◌, String, Option, none, some, Bool-cases, false, List, [], ◌∷◌, head?, ◌==◌, leb, ◌≡◌, inl,
  inr, refl, sym, ◌∙◌, arith, All, string_eq, option_eq, eq_of_beq, subst,
}
use mathlib.Core.Option.{some-injective}
use threadloop.Json.{Value}
use threadloop.Proof.{GitHubActionsTrustPolicy, review_trust_policy}
use threadloop.Review.{ReviewEvidence, current}
use threadloop.Package.{PackageReader, ParsedSignedPackage, reverify_stored_package}
use threadloop.Package.Verified.{IsTrusted, reverify_stored_package-IsTrusted}
use threadloop.Review.Evidence.{
  SignedReviewReceiptArtifact, StoredSignedReviewReceipt, ReviewInput, review_receipt_kind,
  insert_descending, sort_descending, is_foreign, receipt_evidence, latest_evidence,
  review_under_policy, review_evidence_from_artifact, evaluate_review_evidence,
}

abbrev Receipts : Type 0
Receipts = List StoredSignedReviewReceipt

-- The head of the sort is the receipt or the head before it.
insert-head :
    (receipt : StoredSignedReviewReceipt) (others : Receipts) {found : StoredSignedReviewReceipt}
    → head? (insert_descending receipt others) ≡ some found
    → ((other : StoredSignedReviewReceipt)
        → head? others ≡ some other
        → other.sequence ≤ found.sequence)
      × (receipt.sequence ≤ found.sequence)
unfolding insert_descending
insert-head receipt [] {found} h =
    let same : receipt ≡ found = some-injective _ _ h in
    (
      λ other e. absurd (ground arith),
      subst (λ r. receipt.sequence ≤ r.sequence) same (omega arith),
    )
insert-head receipt (first ∷ others) {found} h =
    elim (Bool-cases (leb first.sequence receipt.sequence)) [
      | inl b ↦
          let same : receipt ≡ found = some-injective _ _ (rw b at h) in
          (
            λ other e.
                subst (λ r. other.sequence ≤ r.sequence) same
                  (subst (λ o. o.sequence ≤ receipt.sequence) (some-injective _ _ e)
                    (ground arith)),
            subst (λ r. receipt.sequence ≤ r.sequence) same (omega arith),
          )
      | inr b ↦
          let same : first ≡ found = some-injective _ _ (rw b at h) in
          (
            λ other e.
                subst (λ r. other.sequence ≤ r.sequence) same
                  (subst (λ o. o.sequence ≤ first.sequence) (some-injective _ _ e) (omega arith)),
            subst (λ r. receipt.sequence ≤ r.sequence) same (ground arith),
          )
    ]

insert-filled :
    (receipt : StoredSignedReviewReceipt) (others : Receipts)
    → (found : StoredSignedReviewReceipt) × (head? (insert_descending receipt others) ≡ some found)
unfolding insert_descending
insert-filled receipt [] = (receipt, refl)
insert-filled receipt (first ∷ others) = elim (Bool-cases (leb first.sequence receipt.sequence)) [
  | inl b ↦ (receipt, rw b refl)
  | inr b ↦ (first, rw b refl)
]

All-map :
    {A : Type 0} {P Q : A → Type 0} → (f : (a : A) → P a → Q a) (xs : List A) → All P xs → All Q xs
All-map f [] h = tt
All-map f (x ∷ xs) (p, h) = (f x p, All-map f xs h)

-- No receipt has a greater sequence than the head of the sort.
sort_descending-greatest :
    (receipts : Receipts) {found : StoredSignedReviewReceipt}
    → head? (sort_descending receipts) ≡ some found
    → All (λ other. other.sequence ≤ found.sequence) receipts
unfolding sort_descending
sort_descending-greatest [] h = tt
sort_descending-greatest (receipt ∷ []) h = ((insert-head receipt [] h).1, tt)
sort_descending-greatest (receipt ∷ next ∷ receipts) {found} h =
    let (above, self) = insert-head receipt (sort_descending (next ∷ receipts)) h in
    let (first, e) = insert-filled next (sort_descending receipts) in
    let top = above first e in
    (
      self,
      All-map (λ other le. omega arith) (next ∷ receipts)
          (sort_descending-greatest (next ∷ receipts) {found = first} e),
    )

module _ (reader : PackageReader) (schema : Value → Option SignedReviewReceiptArtifact)
    (value_of : SignedReviewReceiptArtifact → Value) (input : ReviewInput) where
  -- The evidence is what the artifact of the latest snapshot says.
  pub record IsSnapshot (evidence : ReviewEvidence) : Type 0 where
    pub policy : GitHubActionsTrustPolicy
    pub receipt : StoredSignedReviewReceipt
    pub package_json : String
    pub parsed : ParsedSignedPackage SignedReviewReceiptArtifact
    pub has_policy : review_trust_policy input.plan.plan ≡ some policy
    pub is_greatest : All (λ other. other.sequence ≤ receipt.sequence) input.receipts
    pub contents : input.package_contents receipt.id ≡ some package_json
    pub is_trusted :
        IsTrusted reader
          (review_receipt_kind schema value_of)
          receipt.stored
          policy
          package_json
          parsed
    pub of_session : parsed.envelope.artifact.session_id ≡ input.session_id
    pub of_plan : parsed.envelope.artifact.plan_sha256 ≡ input.plan.sha256
    pub at_head : input.current_head ≡ some parsed.envelope.artifact.head_sha
    pub reports :
        evidence ≡ review_evidence_from_artifact parsed.envelope.artifact input.current_head

  current_artifact :
      (artifact : SignedReviewReceiptArtifact)
      → (review_evidence_from_artifact artifact input.current_head).status ≡ current
      → input.current_head ≡ some artifact.head_sha
  unfolding review_evidence_from_artifact
  current_artifact artifact h = elim (Bool-cases (some artifact.head_sha == input.current_head)) [
    | inl b ↦ sym (eq_of_beq b)
    | inr b ↦ absurd (ground arith)
  ]

  own_artifact :
      (receipt : StoredSignedReviewReceipt) (artifact : SignedReviewReceiptArtifact)
      → is_foreign input receipt artifact ≡ false
      → (artifact.session_id ≡ input.session_id) × (artifact.plan_sha256 ≡ receipt.plan_sha256)
  unfolding is_foreign
  own_artifact receipt artifact h = ((eq_iff _ _).0 (ground arith), (eq_iff _ _).0 (ground arith))

  module _ (policy : GitHubActionsTrustPolicy)
      (has_policy : review_trust_policy input.plan.plan ≡ some policy)
      (receipt : StoredSignedReviewReceipt)
      (is_greatest : All (λ other. other.sequence ≤ receipt.sequence) input.receipts) where
    receipt-IsSnapshot :
        (contents : Option String) (o : Option (ParsedSignedPackage SignedReviewReceiptArtifact))
        → input.package_contents receipt.id ≡ contents
        → reverify_stored_package reader
            (review_receipt_kind schema value_of)
            receipt.stored
            contents
            policy
          ≡ o
        → (receipt_evidence input receipt o).status ≡ current
        → IsSnapshot (receipt_evidence input receipt o)
    unfolding receipt_evidence reverify_stored_package
    receipt-IsSnapshot contents none c r h = absurd (ground arith)
    receipt-IsSnapshot none (some parsed) c r h = absurd (ground arith)
    receipt-IsSnapshot (some package_json) (some parsed) c r h =
        let artifact = parsed.envelope.artifact in
        elim (Bool-cases (is_foreign input receipt artifact)) [
          | inl f ↦ absurd (let k = rw f at h in ground arith)
          | inr f ↦ elim (Bool-cases (receipt.plan_sha256 == input.plan.sha256)) [
            | inr p ↦ absurd (let k = rw (f, p) at h in ground arith)
            | inl p ↦
                let own = own_artifact receipt artifact f in
                record {
                  policy = policy;
                  receipt = receipt;
                  package_json = package_json;
                  parsed = parsed;
                  has_policy = has_policy;
                  is_greatest = is_greatest;
                  contents = c;
                  is_trusted =
                      reverify_stored_package-IsTrusted reader (review_receipt_kind schema value_of)
                        receipt.stored policy package_json parsed r;
                  of_session = own.0;
                  of_plan = own.1 ∙ eq_of_beq p;
                  at_head = current_artifact artifact (rw (f, p) at h);
                  reports = rw (f, p) refl;
                }
          ]
        ]

  latest-IsSnapshot :
      (policy : GitHubActionsTrustPolicy) (o : Option StoredSignedReviewReceipt)
      → review_trust_policy input.plan.plan ≡ some policy
      → head? (sort_descending input.receipts) ≡ o
      → (latest_evidence reader schema value_of input policy o).status ≡ current
      → IsSnapshot (latest_evidence reader schema value_of input policy o)
  latest-IsSnapshot policy none p e h = absurd (ground arith)
  latest-IsSnapshot policy (some receipt) p e h =
      receipt-IsSnapshot policy p receipt (sort_descending-greatest input.receipts e) _ _ refl refl
        h

  -- Review evidence that is current is what the artifact of one stored snapshot says, with the
  -- threads that are neither resolved nor outdated as blocking findings: no snapshot has a greater
  -- sequence, its package is verified again under the review policy of the plan, and the artifact
  -- belongs to the session, to the plan and to the current head.
  pub evaluate_review_evidence-IsSnapshot :
      (evaluate_review_evidence reader schema value_of input).status ≡ current
      → IsSnapshot (evaluate_review_evidence reader schema value_of input)
  unfolding evaluate_review_evidence
  evaluate_review_evidence-IsSnapshot h = by_policy (review_trust_policy input.plan.plan) refl h
    where
      by_policy :
          (o : Option GitHubActionsTrustPolicy)
          → review_trust_policy input.plan.plan ≡ o
          → (review_under_policy reader schema value_of input o).status ≡ current
          → IsSnapshot (review_under_policy reader schema value_of input o)
      by_policy none p h = absurd (ground arith)
      by_policy (some policy) p h = latest-IsSnapshot policy _ p refl h
