-- ===== src/Transition/Plan.antt =====
-- `planNextTransition` of src/domain/session-transition.ts: the candidate of `session next`.
pub mod Offer
use threadloop.Base.{
  ℕ, Option, none, some, Bool, true, false, ◌&&◌, ◌||◌, List, [], ◌∷◌, if◌then◌else◌, ◌==◌, ltb,
  map_option, or_else, is_some,
}
use threadloop.Task.{
  TaskStatus, implementing, verifying, pre_pr_reviewing, reviewing, repairing, ready_for_human,
  blocked, completed, LifecyclePhase, pre_pr, post_pr, status_eq, phase_eq,
}
use threadloop.Json.{Fields}
use threadloop.Lifecycle.{repair_budget, get_deterministic_forward_target}
use threadloop.Proof.{ProofEvidenceStatus, evidence_status_eq}
use threadloop.Review.{ReviewEvidence, ReviewEvidenceStatus, review_status_eq, has_blocking_review}
use threadloop.Transition.{
  GuardCode, WorkCode, TransitionGuardFailure, TransitionRequiredWork, TransitionGuardDecision,
  ProofGuardContext,
}
use threadloop.Transition.Guards.{evaluate_transition_guards, deferred_proof_guards}

pub data TerminalReason : Type 0 where
  blocked_requires_human_recovery completed_session : TerminalReason

pub record Candidate : Type 0 where
  pub from_state : TaskStatus
  pub target_state : TaskStatus
  pub expected_state_version : ℕ
  pub executable : Bool

pub record PlannedTransition : Type 0 where
  pub offered : Option Candidate
  pub guard_failures : List TransitionGuardFailure
  pub required_work : List TransitionRequiredWork
  pub terminal_reason : Option TerminalReason

pub record ProofSummary : Type 0 where
  pub status : ProofEvidenceStatus
  pub attempts_used : ℕ

pub record PlanInput : Type 0 where
  pub state : TaskStatus
  pub state_version : ℕ
  pub blocked_from_state : Option TaskStatus
  pub phase : Option LifecyclePhase
  pub proof : Option ProofSummary
  pub proof_guard_context : Option ProofGuardContext

-- The default `{}` of an absent guard context.
abbrev pub no_context : ProofGuardContext
no_context = record {
  bound_plan = none;
  plan = none;
  evidence = none;
  ci_evidence = none;
  review_evidence = none;
  phase = none;
  implementation_basis = none;
  repository = none;
  attempts_used = none;
}

-- The request `{}` that the planner evaluates.
abbrev pub no_input : Fields
no_input = Fields.end

abbrev failure : GuardCode → Option ℕ → List TransitionGuardFailure
failure code owner = record { code = code; owner_issue = owner } ∷ []

abbrev work : WorkCode → Option ℕ → List TransitionRequiredWork
work code owner = record { code = code; owner_issue = owner } ∷ []

unfoldable pub candidate : TaskStatus → TaskStatus → ℕ → TransitionGuardDecision → PlannedTransition
candidate source target version guards = record {
  offered = some (record {
    from_state = source;
    target_state = target;
    expected_state_version = version;
    executable = guards.allowed;
  });
  guard_failures = guards.guard_failures;
  required_work = guards.required_work;
  terminal_reason = none;
}

-- No candidate, for one reason with one piece of work.
abbrev stop : GuardCode → WorkCode → Option ℕ → PlannedTransition
stop code todo owner = record {
  offered = none;
  guard_failures = failure code owner;
  required_work = work todo owner;
  terminal_reason = none;
}

-- `guidance` by the proof status that neither passed nor failed.
unfoldable pub verifying_guidance : ProofEvidenceStatus → PlannedTransition
verifying_guidance ProofEvidenceStatus.missing =
    stop GuardCode.proof_gates_missing WorkCode.run_missing_gates (some 40)
verifying_guidance ProofEvidenceStatus.stale =
    stop GuardCode.proof_receipts_stale WorkCode.rerun_stale_gates (some 40)
verifying_guidance ProofEvidenceStatus.corrupt =
    stop GuardCode.proof_receipts_corrupt WorkCode.rerun_corrupt_gates (some 40)
verifying_guidance _ = stop GuardCode.proof_gate_setup_failed WorkCode.correct_gate_setup (some 40)

unfoldable pub plan_from_verifying :
    ℕ → LifecyclePhase → Option ProofGuardContext → TaskStatus → PlannedTransition
unfolding candidate
plan_from_verifying version phase ctx target = candidate verifying target version (
    evaluate_transition_guards verifying target no_input none
      (record (or_else ctx no_context) { phase = some phase }))

unfoldable pub plan_verifying_transition :
    ℕ → LifecyclePhase → ProofSummary → Option ProofGuardContext → PlannedTransition
unfolding verifying_guidance
plan_verifying_transition version phase summary ctx =
    if summary.status == ProofEvidenceStatus.passed
    then plan_from_verifying version phase ctx
        (if phase == pre_pr then pre_pr_reviewing else reviewing)
    else if summary.status == ProofEvidenceStatus.failed && phase == pre_pr
    then plan_from_verifying version phase ctx implementing
    else if summary.status == ProofEvidenceStatus.failed && ltb summary.attempts_used repair_budget
    then plan_from_verifying version phase ctx repairing
    else if summary.status == ProofEvidenceStatus.failed
    then record {
      offered = some (record {
        from_state = verifying;
        target_state = blocked;
        expected_state_version = version;
        executable = false;
      });
      guard_failures = failure GuardCode.repair_budget_exhausted (some 40);
      required_work = work WorkCode.transition_to_blocked (some 40);
      terminal_reason = none;
    }
    else verifying_guidance summary.status

-- The target of `reviewing` and `ready_for_human`.
abbrev pub is_blocked_by_review : Option ReviewEvidence → Bool
is_blocked_by_review none = false
is_blocked_by_review (some evidence) =
    evidence.status == ReviewEvidenceStatus.current && has_blocking_review evidence

abbrev pub live_review : Option ProofGuardContext → Option ReviewEvidence
live_review none = none
live_review (some ctx) = ctx.review_evidence

unfoldable pub review_target : PlanInput → TaskStatus
review_target input =
    if is_blocked_by_review (live_review input.proof_guard_context)
    then repairing
    else if input.state == reviewing
    then ready_for_human
    else completed

-- The candidate that `session next` evaluates like the transition itself.
unfoldable pub evaluated : PlanInput → TaskStatus → PlannedTransition
unfolding candidate
evaluated input target = candidate input.state target input.state_version (
    evaluate_transition_guards input.state target no_input input.blocked_from_state
      (or_else input.proof_guard_context no_context))

unfoldable pub plan_forward : PlanInput → Option TaskStatus → PlannedTransition
unfolding evaluated
plan_forward input (some target) = evaluated input target
plan_forward input none = record {
  offered = none;
  guard_failures = deferred_proof_guards.guard_failures;
  required_work = deferred_proof_guards.required_work;
  terminal_reason = none;
}

-- `planVerifyingTransition` where the session has a proof state.
unfoldable pub plan_verified : PlanInput → Option ProofSummary → PlannedTransition
plan_verified input none = plan_forward input none
plan_verified input (some summary) =
    plan_verifying_transition input.state_version (or_else input.phase pre_pr) summary
      input.proof_guard_context

unfoldable pub plan_next_transition : PlanInput → PlannedTransition
plan_next_transition input =
    if input.state == completed
    then record {
      offered = none;
      guard_failures = [];
      required_work = [];
      terminal_reason = some completed_session;
    }
    else if input.state == blocked
    then record {
      offered =
          map_option
            (λ target. record {
              from_state = blocked;
              target_state = target;
              expected_state_version = input.state_version;
              executable = false;
            })
            input.blocked_from_state;
      guard_failures = failure GuardCode.recovery_evidence_required none;
      required_work = work WorkCode.provide_recovery_evidence none;
      terminal_reason = some blocked_requires_human_recovery;
    }
    else if input.state == verifying && is_some input.proof
    then plan_verified input input.proof
    else if input.state == pre_pr_reviewing
    then stop GuardCode.pre_pr_review_outcome_required WorkCode.record_pre_pr_review_outcome
        (some 69)
    else if input.state == reviewing || input.state == ready_for_human
    then evaluated input (review_target input)
    else plan_forward input (get_deterministic_forward_target input.state)
