-- ===== src/Review.antt =====
-- The evidence types of src/domain/review.ts, and its two questions about a review.
pub mod Evidence
use threadloop.Base.{
  ℕ, String, Option, none, some, Bool, true, false, ◌&&◌, ◌||◌, not, List, is_empty, any,
  StrictEquality, eqb, ◌==◌, string_eq, option_eq, ◌≡◌, ◌↔◌, arith,
}

pub data ReviewEvidenceStatus : Type 0 where
  policy_missing missing current stale corrupt : ReviewEvidenceStatus

abbrev status_rank : ReviewEvidenceStatus → ℕ
status_rank policy_missing = 0
status_rank missing = 1
status_rank current = 2
status_rank stale = 3
status_rank corrupt = 4

pub review_status_iff :
    (a b : ReviewEvidenceStatus) → (eqb (status_rank a) (status_rank b) ≡ true) ↔ (a ≡ b)
review_status_iff a b = (λ h. ground arith, λ h. ground arith)

instance abbrev pub review_status_eq : StrictEquality ReviewEvidenceStatus
review_status_eq = record {
  strict = λ a b. eqb (status_rank a) (status_rank b);
  strict_iff = review_status_iff;
}

pub data ReviewDecision : Type 0 where
  approved changes_requested review_required : ReviewDecision

pub record ReviewFinding : Type 0 where
  pub id : String
  pub url : String
  pub author : Option String
  pub body : String
  pub path : Option String
  pub line : Option ℕ
  pub resolved : Bool
  pub outdated : Bool

pub record ReviewApproval : Type 0 where
  pub actor_id : String
  pub actor_login : Option String
  pub actor_type : String
  pub state : String
  pub commit_sha : String
  pub submitted_at : Option String

pub record ReviewEvidence : Type 0 where
  pub status : ReviewEvidenceStatus
  pub snapshot_id : Option String
  pub head_sha : Option String
  pub review_decision : Option ReviewDecision
  pub blocking_findings : List ReviewFinding
  pub approvals : List ReviewApproval
  pub merged : Bool
  pub merged_at : Option String

-- A text is truthy unless it is null or empty.
abbrev pub is_truthy : Option String → Bool
is_truthy none = false
is_truthy (some s) = not (s == "")

abbrev requests_changes : Option ReviewDecision → Bool
requests_changes (some changes_requested) = true
requests_changes _ = false

unfoldable pub has_blocking_review : ReviewEvidence → Bool
has_blocking_review evidence =
    requests_changes evidence.review_decision || not (is_empty evidence.blocking_findings)

unfoldable pub is_human_approval : Option String → ReviewApproval → Bool
is_human_approval head approval =
    approval.actor_type == "User"
    && approval.state == "APPROVED"
    && some approval.commit_sha == head

unfoldable pub has_current_human_approval : ReviewEvidence → Bool
has_current_human_approval evidence =
    is_truthy evidence.head_sha && any (is_human_approval evidence.head_sha) evidence.approvals
