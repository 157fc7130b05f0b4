-- ===== src/Lifecycle.antt =====
-- src/domain/lifecycle.ts: the structural lifecycle graph. `message` and `recovery` of a decision
-- are prose for the operator and are left out; `code` is kept.
pub mod Graph
use threadloop.Base.{
  ℕ, Option, none, some, Bool, true, false, not, ◌&&◌, ◌||◌, List, [], ◌∷◌, if◌then◌else◌, ◌==◌,
  any, contains, option_eq,
}
use threadloop.Task.{
  TaskStatus, queued, framed, proof_ready, implementing, verifying, pre_pr_reviewing, reviewing,
  repairing, ready_for_human, blocked, completed, LifecyclePhase, pre_pr, post_pr, status_eq,
  phase_eq,
}

pub data LifecycleDecisionCode : Type 0 where
  transition_allowed invalid_transition completed_terminal : LifecycleDecisionCode
  blocked_resume_required blocked_resume_mismatch : LifecycleDecisionCode
  pre_pr_review_boundary_required post_pr_implementation_reentry_forbidden : LifecycleDecisionCode

pub record LifecycleTransitionContext : Type 0 where
  pub blocked_from_state : Option TaskStatus
  pub phase : Option LifecyclePhase

pub record LifecycleTransitionDecision : Type 0 where
  pub allowed : Bool
  pub code : LifecycleDecisionCode

abbrev pub repair_budget : ℕ
repair_budget = 3

abbrev pub repair_entry_states : List TaskStatus
repair_entry_states = verifying ∷ reviewing ∷ ready_for_human ∷ []

abbrev pub post_pr_states : List TaskStatus
post_pr_states = reviewing ∷ ready_for_human ∷ completed ∷ []

abbrev pub forward_transitions : TaskStatus → List TaskStatus
forward_transitions queued = framed ∷ []
forward_transitions framed = proof_ready ∷ []
forward_transitions proof_ready = implementing ∷ []
forward_transitions implementing = verifying ∷ []
forward_transitions verifying = implementing ∷ pre_pr_reviewing ∷ reviewing ∷ repairing ∷ []
forward_transitions pre_pr_reviewing = implementing ∷ reviewing ∷ []
forward_transitions reviewing = repairing ∷ ready_for_human ∷ []
forward_transitions repairing = verifying ∷ []
forward_transitions ready_for_human = repairing ∷ completed ∷ []
forward_transitions blocked = []
forward_transitions completed = []

unfoldable pub is_forward_lifecycle_transition : TaskStatus → TaskStatus → Bool
is_forward_lifecycle_transition source target = contains (forward_transitions source) target

unfoldable pub is_repair_entry_transition : TaskStatus → TaskStatus → Bool
is_repair_entry_transition source target =
    target == repairing && any (λ state. state == source) repair_entry_states

single_target : List TaskStatus → Option TaskStatus
single_target (target ∷ []) = some target
single_target _ = none

unfoldable pub get_deterministic_forward_target : TaskStatus → Option TaskStatus
unfolding single_target
get_deterministic_forward_target status = single_target (forward_transitions status)

abbrev allowed_decision : LifecycleTransitionDecision
allowed_decision = record { allowed = true; code = transition_allowed }

abbrev denied : LifecycleDecisionCode → LifecycleTransitionDecision
denied c = record { allowed = false; code = c }

-- `!prior || prior === BLOCKED || prior === COMPLETED`, and the resume to `prior`.
abbrev resume : Option TaskStatus → TaskStatus → LifecycleTransitionDecision
resume none target = denied blocked_resume_required
resume (some prior) target =
    if prior == blocked || prior == completed
    then denied blocked_resume_required
    else if not (target == prior)
    then denied blocked_resume_mismatch
    else allowed_decision

unfoldable pub evaluate_lifecycle_transition :
    TaskStatus → TaskStatus → LifecycleTransitionContext → LifecycleTransitionDecision
unfolding is_forward_lifecycle_transition
evaluate_lifecycle_transition source target context =
    if source == completed
    then denied completed_terminal
    else if source == blocked
    then resume context.blocked_from_state target
    else if target == blocked
    then allowed_decision
    else if context.phase == some post_pr && target == implementing && not (source == proof_ready)
    then denied post_pr_implementation_reentry_forbidden
    else if context.phase == some pre_pr && source == verifying && target == reviewing
    then denied pre_pr_review_boundary_required
    else if context.phase == some post_pr
        && (source == pre_pr_reviewing || target == pre_pr_reviewing)
    then denied invalid_transition
    else if is_forward_lifecycle_transition source target
    then allowed_decision
    else denied invalid_transition

-- The history entries by their `to_state`.
unfoldable pub derive_lifecycle_phase : List TaskStatus → Option TaskStatus → LifecyclePhase
derive_lifecycle_phase history genesis =
    if is_post_pr genesis || any (λ state. contains post_pr_states state) history
    then post_pr
    else pre_pr
  where
    is_post_pr : Option TaskStatus → Bool
    is_post_pr none = false
    is_post_pr (some state) = contains post_pr_states state

unfoldable pub is_active_task_status : TaskStatus → Bool
is_active_task_status status = not (status == completed)
