-- ===== src/Proof/Setup.antt =====
-- `recordedSetupViolation` of src/domain/proof.ts. A violation is kept by its kind, with the position
-- that its path names; its message is prose.
use threadloop.Base.{
  ℕ, suc, ◌+◌, ◌≤◌, String, Option, none, some, or_else, Bool, true, false, not, ◌&&◌, List, [],
  ◌∷◌, if◌then◌else◌, ◌==◌, ltb, length, Option-cases, Bool-cases, inl, inr, ◌≡◌, ◌≢◌, ◌↔◌, refl,
  ◌∙◌, arith, string_eq, nat_eq,
}
use threadloop.Json.{Value, array, text, Items, nil, cons}
use threadloop.Json.Canonical.{canonical_json}
use threadloop.Proof.{
  GateReceiptResult, setup_failed, invalidated, aborted, result_eq, result_iff, ProofSetupStep,
}

-- The fields of a `RecordedSetupStep` that the check reads.
pub record RecordedSetupStep : Type 0 where
  pub id : String
  pub command : List String
  pub working_directory : String
  pub timeout_ms : ℕ
  pub result : GateReceiptResult

pub data SetupViolation : Type 0 where
  undeclared_setup_failure too_many_steps no_failed_step missing_steps : SetupViolation
  mismatched_step : ℕ → SetupViolation
  no_non_passing_step : SetupViolation
  non_passing_step : ℕ → SetupViolation
  non_passing_step_not_last : ℕ → SetupViolation

abbrev pub items_of : List String → Items
items_of [] = nil
items_of (word ∷ words) = cons (text word) (items_of words)

abbrev is_passed : RecordedSetupStep → Bool
is_passed step = step.result == GateReceiptResult.passed

-- `commandRan`
unfoldable pub command_ran : GateReceiptResult → Bool
command_ran result =
    not (result == GateReceiptResult.setup_failed)
    && not (result == invalidated)
    && not (result == aborted)

-- `recorded.findIndex((step) => step.result !== 'passed')`, from a position.
unfoldable pub first_non_passing : ℕ → List RecordedSetupStep → Option ℕ
first_non_passing n [] = none
first_non_passing n (step ∷ steps) =
    let rest = first_non_passing (suc n) steps in if is_passed step then rest else some n

-- The tests on the two lengths, the first mismatch and the first step that did not pass.
unfoldable pub violation_of :
    GateReceiptResult → ℕ → ℕ → Option ℕ → Option ℕ → Option SetupViolation
unfolding command_ran
violation_of result recorded declared mismatch non_passing =
    if result == GateReceiptResult.setup_failed && declared == 0
    then some undeclared_setup_failure
    else if ltb declared recorded
    then some too_many_steps
    else if result == GateReceiptResult.setup_failed && recorded == 0
    then some no_failed_step
    else if command_ran result && not (recorded == declared)
    then some missing_steps
    else elim mismatch [
      | some n ↦ some (mismatched_step n)
      | none ↦ elim non_passing [
        | none ↦ if result == GateReceiptResult.setup_failed then some no_non_passing_step else none
        | some n ↦
            if command_ran result
            then some (non_passing_step n)
            else if not (n + 1 == recorded)
            then some (non_passing_step_not_last n)
            else none
      ]
    ]

module _ (stringify : Value → String) where
  unfoldable pub matches_step : RecordedSetupStep → ProofSetupStep → Bool
  matches_step step expected =
      step.id == expected.id
      && step.working_directory == expected.working_directory
      && step.timeout_ms == expected.timeout_ms
      && canonical_json stringify (array (items_of step.command))
        == canonical_json stringify (array (items_of expected.command))

  -- `recorded.findIndex` of the first step that is not the declared one, from a position.
  unfoldable pub first_mismatch : ℕ → List RecordedSetupStep → List ProofSetupStep → Option ℕ
  first_mismatch n [] declared = none
  first_mismatch n (step ∷ steps) [] = some n
  first_mismatch n (step ∷ steps) (expected ∷ declared) =
      let rest = first_mismatch (suc n) steps declared in
      if matches_step step expected then rest else some n

  unfoldable pub recorded_setup_violation :
      Option (List RecordedSetupStep)
      → Option (List ProofSetupStep)
      → GateReceiptResult
      → Option SetupViolation
  recorded_setup_violation recorded_steps declared_steps result =
      let recorded = or_else recorded_steps [] in
      let declared = or_else declared_steps [] in
      violation_of result (length recorded) (length declared) (first_mismatch 0 recorded declared)
        (first_non_passing 0 recorded)

  -- The recorded steps are the first of the declared ones, in their order.
  pub data Follows : List RecordedSetupStep → List ProofSetupStep → Type 0 where
    start : {declared : List ProofSetupStep} → Follows [] declared
    next :
        {step : RecordedSetupStep} {expected : ProofSetupStep} {steps : List RecordedSetupStep}
        {declared : List ProofSetupStep}
        → matches_step step expected ≡ true
        → Follows steps declared
        → Follows (step ∷ steps) (expected ∷ declared)

  first_mismatch-Follows :
      (n : ℕ) (recorded : List RecordedSetupStep) (declared : List ProofSetupStep)
      → first_mismatch n recorded declared ≡ none
      → Follows recorded declared
  unfolding first_mismatch
  first_mismatch-Follows n [] declared h = start
  first_mismatch-Follows n (step ∷ steps) [] h = absurd (ground arith)
  first_mismatch-Follows n (step ∷ steps) (expected ∷ declared) h =
      elim (Bool-cases (matches_step step expected)) [
        | inl e ↦ next e (first_mismatch-Follows (suc n) steps declared (rw e at h))
        | inr e ↦ absurd (ground arith)
      ]

  Follows-first_mismatch :
      (n : ℕ) {recorded : List RecordedSetupStep} {declared : List ProofSetupStep}
      → Follows recorded declared
      → first_mismatch n recorded declared ≡ none
  unfolding first_mismatch
  Follows-first_mismatch n start = refl
  Follows-first_mismatch n (next e f) = rw e (Follows-first_mismatch (suc n) f)

  Follows-length :
      {recorded : List RecordedSetupStep} {declared : List ProofSetupStep}
      → Follows recorded declared
      → length recorded ≤ length declared
  Follows-length start = omega arith
  Follows-length (next e f) = omega (arith, Follows-length f)

-- Every step passed.
pub data Passed : List RecordedSetupStep → Type 0 where
  none_left : Passed []
  and_passed :
      {step : RecordedSetupStep} {steps : List RecordedSetupStep}
      → step.result ≡ GateReceiptResult.passed
      → Passed steps
      → Passed (step ∷ steps)

-- Every step but the last one passed.
pub data Stopped : List RecordedSetupStep → Type 0 where
  at_last :
      {step : RecordedSetupStep} → step.result ≢ GateReceiptResult.passed → Stopped (step ∷ [])
  and_stopped :
      {step : RecordedSetupStep} {steps : List RecordedSetupStep}
      → step.result ≡ GateReceiptResult.passed
      → Stopped steps
      → Stopped (step ∷ steps)

first_non_passing-Passed :
    (n : ℕ) (steps : List RecordedSetupStep) → first_non_passing n steps ≡ none → Passed steps
unfolding first_non_passing
first_non_passing-Passed n [] h = none_left
first_non_passing-Passed n (step ∷ steps) h = elim (Bool-cases (is_passed step)) [
  | inl e ↦
      and_passed ((result_iff step.result GateReceiptResult.passed).0 e)
        (first_non_passing-Passed (suc n) steps (rw e at h))
  | inr e ↦ absurd (ground arith)
]

Passed-first_non_passing :
    (n : ℕ) {steps : List RecordedSetupStep} → Passed steps → first_non_passing n steps ≡ none
unfolding first_non_passing
Passed-first_non_passing n none_left = refl
Passed-first_non_passing n (and_passed {step} e p) =
    rw ((result_iff step.result GateReceiptResult.passed).1 e) (Passed-first_non_passing (suc n) p)

first_non_passing-bound :
    (n : ℕ) (steps : List RecordedSetupStep) {k : ℕ}
    → first_non_passing n steps ≡ some k
    → (n ≤ k) × (k + 1 ≤ n + length steps)
unfolding first_non_passing
first_non_passing-bound n [] h = absurd (ground arith)
first_non_passing-bound n (step ∷ steps) h = elim (Bool-cases (is_passed step)) [
  | inl e ↦ let k = first_non_passing-bound (suc n) steps (rw e at h) in (omega arith, omega arith)
  | inr e ↦ ground arith
]

first_non_passing-Stopped :
    (n : ℕ) (steps : List RecordedSetupStep) {k : ℕ}
    → first_non_passing n steps ≡ some k
    → k + 1 ≡ n + length steps
    → Stopped steps
unfolding first_non_passing
first_non_passing-Stopped n [] h l = absurd (ground arith)
first_non_passing-Stopped n (step ∷ steps) {k} h l = elim (Bool-cases (is_passed step)) [
  | inl e ↦
      and_stopped ((result_iff step.result GateReceiptResult.passed).0 e)
        (first_non_passing-Stopped (suc n) steps {k = k} (rw e at h) (omega arith))
  | inr e ↦ last e steps (ground arith)
]
  where
    last :
        is_passed step ≡ false
        → (rest : List RecordedSetupStep) → length rest ≡ 0
        → Stopped (step ∷ rest)
    last e [] z =
        at_last (λ q. ground (arith, (result_iff step.result GateReceiptResult.passed).1 q))
    last e (x ∷ rest) z = absurd (ground arith)

Stopped-first_non_passing :
    (n : ℕ) {steps : List RecordedSetupStep}
    → Stopped steps
    → (k : ℕ) × (first_non_passing n steps ≡ some k) × (k + 1 ≡ n + length steps)
unfolding first_non_passing
Stopped-first_non_passing n (at_last {step} e) = elim (Bool-cases (is_passed step)) [
  | inl b ↦ absurd (e ((result_iff step.result GateReceiptResult.passed).0 b))
  | inr b ↦ (n, rw b refl, omega arith)
]
Stopped-first_non_passing n (and_stopped {step} e p) =
    let (k, f, l) = Stopped-first_non_passing (suc n) p in
    (k, rw ((result_iff step.result GateReceiptResult.passed).1 e) f, omega arith)

-- What the tests on the lengths and positions leave open, where they report nothing.
no_violation_passed :
    (result : GateReceiptResult) (recorded declared : ℕ) (mismatch : Option ℕ)
    → violation_of result recorded declared mismatch none ≡ none
    → (mismatch ≡ none)
      × ((command_ran result ≡ true) → recorded ≡ declared)
      × (result ≢ setup_failed)
unfolding violation_of
no_violation_passed result recorded declared mismatch h =
    (ground arith, λ ran. ground arith, λ e. ground (arith, (result_iff result setup_failed).1 e))

no_violation_stopped :
    (result : GateReceiptResult) (recorded declared : ℕ) (mismatch : Option ℕ) (n : ℕ)
    → violation_of result recorded declared mismatch (some n) ≡ none
    → (mismatch ≡ none) × (command_ran result ≡ false) × (n + 1 ≡ recorded)
unfolding violation_of
no_violation_stopped result recorded declared mismatch n h =
    (ground arith, ground arith, ground arith)

-- What a receipt may record of its setup.
pub data IsAdmissible (stringify : Value → String) (recorded : List RecordedSetupStep)
    (declared : List ProofSetupStep) (result : GateReceiptResult) : Type 0 where
  -- The gate's command ran, so every declared step did, and passed.
  ran :
      command_ran result ≡ true
      → Follows stringify recorded declared
      → length recorded ≡ length declared
      → Passed recorded
      → IsAdmissible stringify recorded declared result
  -- The attempt ended between two steps.
  interrupted :
      command_ran result ≡ false
      → result ≢ setup_failed
      → Follows stringify recorded declared
      → Passed recorded
      → IsAdmissible stringify recorded declared result
  -- The attempt ended at its last recorded step.
  stopped :
      command_ran result ≡ false
      → Follows stringify recorded declared
      → Stopped recorded
      → IsAdmissible stringify recorded declared result

module _ (stringify : Value → String) (recorded : List RecordedSetupStep)
    (declared : List ProofSetupStep) (result : GateReceiptResult) where
  abbrev HasNoViolation : Type 0
  HasNoViolation = recorded_setup_violation stringify (some recorded) (some declared) result ≡ none

  no_violation-IsAdmissible : HasNoViolation → IsAdmissible stringify recorded declared result
  unfolding recorded_setup_violation
  no_violation-IsAdmissible h = elim (Option-cases (first_non_passing 0 recorded)) [
    | inl e ↦
        let facts = no_violation_passed result _ _ _ (rw e at h) in
        let follows = first_mismatch-Follows stringify 0 recorded declared facts.0 in
        let passed = first_non_passing-Passed 0 recorded e in
        elim (Bool-cases (command_ran result)) [
          | inl c ↦ ran c follows (facts.1 c) passed
          | inr c ↦ interrupted c facts.2 follows passed
        ]
    | inr (n, e) ↦
        let facts = no_violation_stopped result _ _ _ n (rw e at h) in
        stopped facts.1 (first_mismatch-Follows stringify 0 recorded declared facts.0)
          (first_non_passing-Stopped 0 recorded e (facts.2 ∙ omega arith))
  ]

  IsAdmissible-no_violation : IsAdmissible stringify recorded declared result → HasNoViolation
  unfolding recorded_setup_violation violation_of
  IsAdmissible-no_violation (ran c f l p) =
      rw (Follows-first_mismatch stringify 0 f, Passed-first_non_passing 0 p)
        (ground (arith, Follows-length stringify f))
  IsAdmissible-no_violation (interrupted c n f p) =
      rw (Follows-first_mismatch stringify 0 f, Passed-first_non_passing 0 p)
        (ground (arith, Follows-length stringify f, result_iff result setup_failed))
  IsAdmissible-no_violation (stopped c f p) =
      let (n, e, l) = Stopped-first_non_passing 0 p in
      rw (Follows-first_mismatch stringify 0 f, e) (ground (arith, Follows-length stringify f))

-- The recorded setup of a receipt is accepted exactly when it is admissible for the receipt's
-- result, an absent list counting as empty: the recorded steps are the first of the declared ones
-- in their order, and either the command ran and every declared step was recorded and passed, or
-- it did not run and all the recorded steps passed (where the setup did not fail) or all but the
-- last one did.
pub recorded_setup_violation_iff :
    (stringify : Value → String) (recorded : Option (List RecordedSetupStep))
    (declared : Option (List ProofSetupStep)) (result : GateReceiptResult)
    → (recorded_setup_violation stringify recorded declared result ≡ none)
      ↔ IsAdmissible stringify (or_else recorded []) (or_else declared []) result
unfolding recorded_setup_violation
recorded_setup_violation_iff stringify recorded declared result = (
  no_violation-IsAdmissible stringify (or_else recorded []) (or_else declared []) result,
  IsAdmissible-no_violation stringify (or_else recorded []) (or_else declared []) result,
)
