-- ===== src/Session/Basis.antt =====
-- `buildProofGuardContext` of src/services/session-service.ts: the commits from which work and
-- repairs are measured, and the context of the guards.
pub mod Context
use threadloop.Base.{
  ℕ, String, Option, none, some, Bool, true, false, not, ◌&&◌, ◌||◌, List, [], ◌∷◌, reverse, select,
  find, head?, if◌then◌else◌, ◌==◌, leb, map_option, is_hex_of_length, nat_eq, string_eq, option_eq,
}
use threadloop.Task.{
  TaskStatus, proof_ready, implementing, verifying, pre_pr_reviewing, repairing, LifecyclePhase,
  pre_pr, status_eq, phase_eq,
}
use threadloop.Json.{Value, Fields, as_object, end}
use threadloop.Lifecycle.{is_repair_entry_transition}
use threadloop.Proof.{
  BoundProofPlan, ProofEvidenceStatus, evidence_status_eq, GateReceiptResult, result_eq,
}
use threadloop.Proof.Latest.{sort_by}
use threadloop.Proof.Receipt.{StoredGateReceipt}
use threadloop.Review.Evidence.{StoredSignedReviewReceipt, sort_descending}
use threadloop.Package.Ci.{CiProofEvidence}
use threadloop.Transition.{
  CiProofStatus, BasisSource, ImplementationBasis, GuardRepository, ProofGuardContext,
  PrePrReviewEvidence,
}
use threadloop.Transition.Input.{read_pre_pr_review_evidence}
use threadloop.Session.{ProofState, ProofRepository}

-- An entry of the transition history, with its input parsed.
pub record HistoryEntry : Type 0 where
  pub from_state : TaskStatus
  pub to_state : TaskStatus
  pub from_state_version : ℕ
  pub input : Fields

module _ {A : Type 0} (sequence : A → ℕ) where
  unfoldable pub insert_down : A → List A → List A
  insert_down a [] = a ∷ []
  insert_down a (b ∷ bs) =
      let rest = insert_down a bs in if leb (sequence b) (sequence a) then a ∷ b ∷ bs else b ∷ rest

  -- `[...rows].sort((left, right) => right.sequence - left.sequence)`
  unfoldable pub sort_down : List A → List A
  unfolding insert_down
  sort_down [] = []
  sort_down (a ∷ rest) = insert_down a (sort_down rest)

-- A run that failed on the commit that it started from.
unfoldable pub is_verified_failure : StoredGateReceipt → Bool
is_verified_failure receipt =
    not (receipt.result == GateReceiptResult.passed)
    && not (receipt.result == GateReceiptResult.invalidated)
    && not (receipt.result == GateReceiptResult.setup_failed)
    && receipt.head_before == receipt.head_after

unfoldable pub latest_failure : List StoredGateReceipt → Option StoredGateReceipt
unfolding sort_down is_verified_failure
latest_failure receipts = find is_verified_failure (sort_down (λ r. r.sequence) receipts)

unfoldable pub is_implementation_entry : HistoryEntry → Bool
is_implementation_entry entry =
    entry.to_state == implementing
    && (entry.from_state == proof_ready
        || entry.from_state == verifying
        || entry.from_state == pre_pr_reviewing)

unfoldable pub latest_implementation_entry : List HistoryEntry → Option HistoryEntry
unfolding is_implementation_entry
latest_implementation_entry history = find is_implementation_entry (reverse history)

unfoldable pub entry_review : Option HistoryEntry → Option PrePrReviewEvidence
entry_review none = none
entry_review (some entry) = read_pre_pr_review_evidence entry.input

-- `latestFailure?.headAfter` where it is a commit's name.
unfoldable pub failed_head : Option StoredGateReceipt → Option String
failed_head none = none
failed_head (some receipt) = if receipt.head_after == "" then none else some receipt.head_after

unfoldable pub baseline : BoundProofPlan → ImplementationBasis
baseline plan = record {
  head_sha = plan.baseline_head_sha;
  source = BasisSource.proof_plan_baseline;
}

-- Without a review: the failed commit before the PR where a failure sent the work back, or else the
-- baseline of the plan.
unfoldable pub unreviewed_basis :
    BoundProofPlan
    → LifecyclePhase
    → ProofEvidenceStatus
    → Option HistoryEntry
    → Option StoredGateReceipt
    → ImplementationBasis
unfolding failed_head baseline
unreviewed_basis plan phase status entry failure =
    if phase == pre_pr
      && (status == ProofEvidenceStatus.failed
          || map_option (λ e. e.from_state) entry == some verifying)
    then elim (failed_head failure) [
      | none ↦ baseline plan
      | some head ↦ record { head_sha = head; source = BasisSource.failed_local_proof }
    ]
    else baseline plan

unfoldable pub implementation_basis :
    Option BoundProofPlan
    → LifecyclePhase
    → ProofEvidenceStatus
    → Option HistoryEntry
    → Option StoredGateReceipt
    → Option ImplementationBasis
unfolding unreviewed_basis entry_review
implementation_basis none phase status entry failure = none
implementation_basis (some plan) phase status entry failure = elim (entry_review entry) [
  | some review ↦ some (record { head_sha = review.head_sha; source = BasisSource.pre_pr_review })
  | none ↦ some (unreviewed_basis plan phase status entry failure)
]

unfoldable pub is_repair_entry : HistoryEntry → Bool
is_repair_entry entry = is_repair_entry_transition entry.from_state entry.to_state

unfoldable pub authorizing_snapshot : HistoryEntry → List StoredSignedReviewReceipt → Option String
unfolding sort_down
authorizing_snapshot entry receipts =
    map_option (λ r. r.subject_head_sha)
      (head? (
        sort_down (λ r. r.sequence)
          (select (λ r. leb r.state_version entry.from_state_version) receipts)))

unfoldable pub repair_basis :
    Option HistoryEntry → Option StoredGateReceipt → List StoredSignedReviewReceipt → Option String
unfolding authorizing_snapshot
repair_basis none failure receipts = none
repair_basis (some entry) failure receipts =
    if not (entry.to_state == repairing)
    then none
    else if entry.from_state == verifying
    then map_option (λ r. r.head_after) failure
    else authorizing_snapshot entry receipts

-- The exit code of a git command; `none` is an error that has no exit code.
pub record Git : Type 0 where
  pub merge_base_is_ancestor : String → String → Option ℕ
  pub diff_quiet : String → String → Option ℕ

-- `isFullCommitSha`
abbrev pub is_full_commit_sha : String → Bool
is_full_commit_sha = is_hex_of_length 40

-- The second command: 0 is no difference, 1 a difference, 128 a failure that counts as none. `none`
-- is a throw.
unfoldable pub differs : Option ℕ → Option Bool
differs none = none
differs (some code) =
    if code == 0
    then some false
    else if code == 1
    then some true
    else if code == 128
    then some false
    else none

unfoldable pub is_ancestor : Option ℕ → Option Bool
is_ancestor none = none
is_ancestor (some code) =
    if code == 0 then some true else if code == 1 || code == 128 then some false else none

-- The second command counts where the first one found an ancestor.
abbrev pub after_ancestry : Option Bool → Option ℕ → Option Bool
after_ancestry none code = none
after_ancestry (some true) code = differs code
after_ancestry (some false) code = some false

module _ (git : Git) where
  -- `hasCommittedDiff` of src/adapters/git/client.ts
  unfoldable pub has_committed_diff : String → String → Option Bool
  unfolding is_ancestor differs
  has_committed_diff from_head to_head =
      if not (is_full_commit_sha from_head)
        || not (is_full_commit_sha to_head)
        || from_head == to_head
      then some false
      else after_ancestry (is_ancestor (git.merge_base_is_ancestor from_head to_head))
          (git.diff_quiet from_head to_head)

  -- Whether work from a basis is committed at the head.
  unfoldable pub committed_from : Option String → String → Option Bool
  unfolding has_committed_diff
  committed_from none head = some false
  committed_from (some basis) head =
      if is_full_commit_sha basis && not (basis == head)
      then has_committed_diff basis head
      else some false
