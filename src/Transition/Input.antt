-- ===== src/Transition/Input.antt =====
-- What a transition request carries: `readPrePrReviewEvidence`, `validateTransitionEvidence` and
-- their text rules.
use threadloop.Base.{
  ℕ, String, Option, none, some, Bool, false, not, ◌&&◌, ◌||◌, List, [], ◌∷◌, if◌then◌else◌, ◌==◌,
  leb, eqb, is_some, map_option, guard, ◌>>=◌, ◌>>◌, all, any, contains, is_empty, codes, trim,
  is_hex_of_length, nat_eq, string_eq, list_eq, option_eq,
}
use threadloop.Task.{
  TaskStatus, implementing, verifying, pre_pr_reviewing, reviewing, blocked, status_eq,
}
use threadloop.Json.{Value, Items, nil, cons, Fields, get, as_object, as_text, as_array}
use threadloop.Proof.{ProofEvidenceStatus, evidence_status_eq}
use threadloop.Transition.{
  GuardCode, WorkCode, TransitionGuardDecision, allowed_guards, deny, PrePrReviewOutcome,
  changes_required, clean, outcome_eq, PrePrReviewFinding, PrePrReviewEvidence, ProofGuardContext,
  evidence_status,
}

unfoldable pub is_disallowed_text_character : ℕ → Bool
is_disallowed_text_character c =
    leb c 0x1f || leb 0x7f c && leb c 0x9f || eqb c 0x2028 || eqb c 0x2029

unfoldable pub is_normalized_text : String → Bool
unfolding is_disallowed_text_character trim
is_normalized_text value =
    not (is_empty (codes value))
    && codes value == trim (codes value)
    && not (any is_disallowed_text_character (codes value))

-- A property that `isNormalizedText` accepts.
unfoldable pub normalized : Option Value → Option String
unfolding as_text is_normalized_text
normalized property = do value ← as_text property; guard (is_normalized_text value); some value

-- A non-blank text.
unfoldable pub is_present_text : Option String → Bool
unfolding trim
is_present_text none = false
is_present_text (some value) = not (is_empty (trim (codes value)))

unfoldable pub has_required_text_fields : Option Value → List String → Bool
unfolding as_object as_text get is_present_text
has_required_text_fields value fields = has_all (as_object value)
  where
    has_all : Option Fields → Bool
    has_all none = false
    has_all (some o) = all (λ name. is_present_text (as_text (get name o))) fields

unfoldable pub read_outcome : Option Value → Option PrePrReviewOutcome
unfolding as_text
read_outcome property = do
  value ← as_text property
  if value == "changes_required"
      then some changes_required
      else if value == "clean"
      then some clean
      else none

-- The loop over `value.findings`, with the ids seen so far.
unfoldable pub read_findings : List String → Items → Option (List PrePrReviewFinding)
unfolding as_object get normalized
read_findings seen nil = some []
read_findings seen (cons candidate rest) = do
  o ← as_object (some candidate)
  id ← normalized (get "id" o)
  summary ← normalized (get "summary" o)
  path ← normalized (get "path" o)
  guard (not (contains seen id))
  more ← read_findings (id ∷ seen) rest
  some (record { id = id; summary = summary; path = path } ∷ more)

-- Changes need findings, and a clean review has none.
unfoldable pub findings_match_outcome : PrePrReviewOutcome → List PrePrReviewFinding → Bool
findings_match_outcome changes_required findings = not (is_empty findings)
findings_match_outcome clean findings = is_empty findings

unfoldable pub read_pre_pr_review_evidence : Fields → Option PrePrReviewEvidence
read_pre_pr_review_evidence input = do
  value ← as_object (get "pre_pr_review" input)
  outcome ← read_outcome (get "outcome" value)
  head_sha ← normalized (get "head_sha" value)
  guard (is_hex_of_length 40 head_sha)
  evidence_ref ← normalized (get "evidence_ref" value)
  evidence_sha256 ← normalized (get "evidence_sha256" value)
  guard (is_hex_of_length 64 evidence_sha256)
  candidates ← as_array (get "findings" value)
  findings ← read_findings [] candidates
  guard (findings_match_outcome outcome findings)
  some (record {
    outcome = outcome;
    head_sha = head_sha;
    evidence_ref = evidence_ref;
    evidence_sha256 = evidence_sha256;
    findings = findings;
  })

abbrev pub block_fields : List String
block_fields = "reason" ∷ "evidence_ref" ∷ "recovery" ∷ "stop_code" ∷ []

abbrev pub recovery_fields : List String
recovery_fields = "approved_by" ∷ "evidence_ref" ∷ "reason" ∷ []

unfoldable pub requires_pre_pr_review : TaskStatus → TaskStatus → ProofGuardContext → Bool
requires_pre_pr_review source target ctx =
    source == pre_pr_reviewing && (target == implementing || target == reviewing)
    || source == verifying
      && target == implementing
      && not (evidence_status ctx == some ProofEvidenceStatus.failed)

unfoldable pub is_pre_pr_review_transition : TaskStatus → TaskStatus → Bool
is_pre_pr_review_transition source target =
    source == verifying && target == implementing
    || source == pre_pr_reviewing && (target == implementing || target == reviewing)

unfoldable pub expected_outcome : TaskStatus → TaskStatus → Option PrePrReviewOutcome
expected_outcome source target =
    if target == implementing
    then some changes_required
    else if source == pre_pr_reviewing && target == reviewing
    then some clean
    else none

abbrev record_outcome : GuardCode → TransitionGuardDecision
record_outcome code = deny code WorkCode.record_pre_pr_review_outcome (some 69)

-- The checks of a review that was read.
unfoldable pub validate_pre_pr_review :
    TaskStatus → TaskStatus → PrePrReviewEvidence → ProofGuardContext → TransitionGuardDecision
validate_pre_pr_review source target review ctx =
    if not (is_pre_pr_review_transition source target)
    then record_outcome GuardCode.pre_pr_review_findings_invalid
    else if not (some review.head_sha == map_option (λ r. r.head_sha) ctx.repository)
    then record_outcome GuardCode.pre_pr_review_head_mismatch
    else if is_some (expected_outcome source target)
        && not (some review.outcome == expected_outcome source target)
    then record_outcome GuardCode.pre_pr_review_findings_invalid
    else allowed_guards

unfoldable pub validate_transition_evidence :
    TaskStatus → TaskStatus → Fields → ProofGuardContext → TransitionGuardDecision
validate_transition_evidence source target input ctx =
    if target == blocked && not (has_required_text_fields (get "block" input) block_fields)
    then deny GuardCode.block_evidence_required WorkCode.provide_block_evidence none
    else if source == blocked
        && not (has_required_text_fields (get "recovery" input) recovery_fields)
    then deny GuardCode.recovery_evidence_required WorkCode.provide_recovery_evidence none
    else if is_some (get "pre_pr_review" input) && not (is_some (read_pre_pr_review_evidence input))
    then record_outcome GuardCode.pre_pr_review_findings_invalid
    else if requires_pre_pr_review source target ctx
        && not (is_some (read_pre_pr_review_evidence input))
    then record_outcome GuardCode.pre_pr_review_input_required
    else elim (read_pre_pr_review_evidence input) [
      | none ↦ allowed_guards
      | some review ↦ validate_pre_pr_review source target review ctx
    ]
