-- ===== src/Proof/Evidence.antt =====
-- `latestBy` and `aggregateGateStatus` of src/domain/proof.ts.
use threadloop.Base.{
  ℕ, or_else, Bool, true, false, List, [], ◌∷◌, if◌then◌else◌, ◌==◌, leb, all, find, contains,
  Bool-cases, inl, inr, ◌≡◌, ◌≢◌, refl, sym, ap, ◌∙◌, arith, string_eq,
}
use threadloop.Proof.{
  ProofEvidenceStatus, missing, stale, corrupt, evidence_status_eq, evidence_status_iff,
}

-- From the gravest to the mildest.
abbrev pub precedence : List ProofEvidenceStatus
precedence =
    corrupt ∷ ProofEvidenceStatus.setup_failed ∷ ProofEvidenceStatus.failed ∷ stale ∷ missing ∷ []

unfoldable pub aggregate_gate_status : List ProofEvidenceStatus → ProofEvidenceStatus
aggregate_gate_status statuses =
    if all (λ status. status == ProofEvidenceStatus.passed) statuses
    then ProofEvidenceStatus.passed
    else or_else (find (λ status. contains statuses status) precedence) missing

-- How grave a status is.
unfoldable pub gravity : ProofEvidenceStatus → ℕ
gravity ProofEvidenceStatus.passed = 0
gravity missing = 1
gravity stale = 2
gravity ProofEvidenceStatus.failed = 3
gravity ProofEvidenceStatus.setup_failed = 4
gravity corrupt = 5

-- The gravest of the statuses, one after the other.
unfoldable pub gravest : List ProofEvidenceStatus → ProofEvidenceStatus
unfolding gravity
gravest [] = ProofEvidenceStatus.passed
gravest (status ∷ statuses) =
    let rest = gravest statuses in if leb (gravity rest) (gravity status) then status else rest

abbrev are_passed : List ProofEvidenceStatus → Bool
are_passed = all (λ status. status == ProofEvidenceStatus.passed)

contains-are_passed :
    (statuses : List ProofEvidenceStatus) (status : ProofEvidenceStatus)
    → are_passed statuses ≡ true
    → status ≢ ProofEvidenceStatus.passed
    → contains statuses status ≡ false
contains-are_passed [] status h n = refl
contains-are_passed (ProofEvidenceStatus.passed ∷ statuses) status h n =
    let k = contains-are_passed statuses status h n in
    ground (arith, evidence_status_iff ProofEvidenceStatus.passed status)
contains-are_passed (first ∷ statuses) status h n = absurd (ground arith)

aggregate-passed :
    (statuses : List ProofEvidenceStatus)
    → are_passed statuses ≡ true
    → aggregate_gate_status statuses ≡ ProofEvidenceStatus.passed
unfolding aggregate_gate_status
aggregate-passed statuses h = rw h refl

abbrev graver : ProofEvidenceStatus → ProofEvidenceStatus → ProofEvidenceStatus
graver a b = if leb (gravity b) (gravity a) then a else b

none_contained :
    (statuses : List ProofEvidenceStatus)
    → are_passed statuses ≡ true
    → (contains statuses corrupt ≡ false)
      × (contains statuses ProofEvidenceStatus.setup_failed ≡ false)
      × (contains statuses ProofEvidenceStatus.failed ≡ false)
      × (contains statuses stale ≡ false)
none_contained statuses h = (
  contains-are_passed statuses corrupt h (λ e. ground arith),
  contains-are_passed statuses ProofEvidenceStatus.setup_failed h (λ e. ground arith),
  contains-are_passed statuses ProofEvidenceStatus.failed h (λ e. ground arith),
  contains-are_passed statuses stale h (λ e. ground arith),
)

aggregate-one :
    (status : ProofEvidenceStatus) (statuses : List ProofEvidenceStatus)
    → are_passed statuses ≡ true
    → aggregate_gate_status (status ∷ statuses) ≡ status
unfolding aggregate_gate_status
aggregate-one ProofEvidenceStatus.passed statuses h =
    let n = none_contained statuses h in ground arith
aggregate-one missing statuses h = let n = none_contained statuses h in ground arith
aggregate-one stale statuses h = let n = none_contained statuses h in ground arith
aggregate-one ProofEvidenceStatus.failed statuses h =
    let n = none_contained statuses h in ground arith
aggregate-one ProofEvidenceStatus.setup_failed statuses h =
    let n = none_contained statuses h in ground arith
aggregate-one corrupt statuses h = let n = none_contained statuses h in ground arith

aggregate-more :
    (status : ProofEvidenceStatus) (statuses : List ProofEvidenceStatus)
    → are_passed statuses ≡ false
    → aggregate_gate_status (status ∷ statuses) ≡ graver status (aggregate_gate_status statuses)
unfolding aggregate_gate_status gravity
aggregate-more ProofEvidenceStatus.passed statuses h = ground arith
aggregate-more missing statuses h = ground arith
aggregate-more stale statuses h = ground arith
aggregate-more ProofEvidenceStatus.failed statuses h = ground arith
aggregate-more ProofEvidenceStatus.setup_failed statuses h = ground arith
aggregate-more corrupt statuses h = ground arith

graver-passed : (status : ProofEvidenceStatus) → status ≡ graver status ProofEvidenceStatus.passed
unfolding gravity
graver-passed status = ground arith

-- The aggregate of the gates' statuses is the gravest of them, in the order passed, missing, stale,
-- failed, setup_failed, corrupt; it is passed for no gates.
pub aggregate_gate_status-gravest :
    (statuses : List ProofEvidenceStatus) → aggregate_gate_status statuses ≡ gravest statuses
unfolding gravest
aggregate_gate_status-gravest [] = unfold aggregate_gate_status in refl
aggregate_gate_status-gravest (status ∷ statuses) =
    let k = aggregate_gate_status-gravest statuses in
    elim (Bool-cases (are_passed statuses)) [
      | inl h ↦
          aggregate-one status statuses h
          ∙ graver-passed status
          ∙ ap (graver status) (sym (aggregate-passed statuses h) ∙ k)
      | inr h ↦ aggregate-more status statuses h ∙ ap (graver status) k
    ]
