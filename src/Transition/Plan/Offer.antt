-- ===== src/Transition/Plan/Offer.antt =====
-- What `session next` offers, the apply step accepts.
use threadloop.Base.{
  Option, none, some, Option-cases, Bool-cases, ltb, true, false, ◌≡◌, inl, inr, refl, arith, ◌==◌,
  sym, subst,
}
use mathlib.Core.Option.{some-injective}
use threadloop.Task.{
  TaskStatus, queued, framed, proof_ready, implementing, verifying, pre_pr_reviewing, reviewing,
  repairing, ready_for_human, blocked, completed, LifecyclePhase, pre_pr, post_pr, status_eq,
}
use threadloop.Lifecycle.{
  repair_budget, LifecycleTransitionContext, evaluate_lifecycle_transition,
  get_deterministic_forward_target,
}
use threadloop.Lifecycle.Graph.{CanMove, evaluate_lifecycle_transition_iff}
use threadloop.Proof.{ProofEvidenceStatus}
use threadloop.Transition.{ProofGuardContext}
use threadloop.Transition.Guards.{evaluate_transition_guards}
use threadloop.Transition.Plan.{
  is_blocked_by_review, live_review, Candidate, PlanInput, ProofSummary, no_input,
  plan_from_verifying, plan_verifying_transition, review_target, evaluated, plan_forward,
  plan_verified, plan_next_transition, verifying_guidance,
}

-- The apply step accepts a candidate: the structure and the guards both allow it.
pub record IsAccepted (input : PlanInput) (ctx : ProofGuardContext) (phase : LifecyclePhase)
    (c : Candidate) : Type 0 where
  pub from_here : c.from_state ≡ input.state
  pub at_version : c.expected_state_version ≡ input.state_version
  pub structural :
      (evaluate_lifecycle_transition input.state c.target_state
        (record { blocked_from_state = input.blocked_from_state; phase = some phase })).allowed
      ≡ true
  pub guarded :
      (evaluate_transition_guards input.state c.target_state no_input input.blocked_from_state
        ctx).allowed
      ≡ true

-- Only a blocked source looks at the recorded prior state.
guards_ignore_prior :
    (source target : TaskStatus) (prior other : Option TaskStatus) (ctx : ProofGuardContext)
    → (source == blocked) ≡ false
    → evaluate_transition_guards source target no_input prior ctx
      ≡ evaluate_transition_guards source target no_input other ctx
unfolding evaluate_transition_guards
guards_ignore_prior source target prior other ctx h = rw h

with_phase :
    (ctx : ProofGuardContext) (phase : LifecyclePhase)
    → ctx.phase ≡ some phase
    → record ctx { phase = some phase } ≡ ctx
with_phase ctx phase e = λ i. record ctx { phase = sym e i }

module _ (input : PlanInput) (ctx : ProofGuardContext) (phase : LifecyclePhase)
    (live : input.proof_guard_context ≡ some ctx) (planned_phase : input.phase ≡ some phase)
    (guarded_phase : ctx.phase ≡ some phase) where
  evaluated-IsAccepted :
      (target : TaskStatus) {c : Candidate}
      → (evaluate_lifecycle_transition input.state target
          (record { blocked_from_state = input.blocked_from_state; phase = some phase })).allowed
        ≡ true
      → (evaluated input target).offered ≡ some c
      → c.executable ≡ true
      → IsAccepted input ctx phase c
  unfolding evaluated
  evaluated-IsAccepted target s o x =
      subst (λ c. c.executable ≡ true → IsAccepted input ctx phase c) (some-injective _ _ o)
        (λ allowed. record {
          from_here = refl;
          at_version = refl;
          structural = s;
          guarded = rw live at allowed;
        })
        x

  -- From `verifying` the planner sets the phase that the context already has.
  verifying-IsAccepted :
      (target : TaskStatus) {c : Candidate}
      → input.state ≡ verifying
      → (evaluate_lifecycle_transition input.state target
          (record { blocked_from_state = input.blocked_from_state; phase = some phase })).allowed
        ≡ true
      → (plan_from_verifying input.state_version phase input.proof_guard_context target).offered
        ≡ some c
      → c.executable ≡ true
      → IsAccepted input ctx phase c
  unfolding plan_from_verifying
  verifying-IsAccepted target v s o x =
      subst (λ c. c.executable ≡ true → IsAccepted input ctx phase c) (some-injective _ _ o)
        (λ allowed. record {
          from_here = sym v;
          at_version = refl;
          structural = s;
          guarded =
              rw (v, guards_ignore_prior verifying target input.blocked_from_state none ctx refl)
                (rw (live, with_phase ctx phase guarded_phase) at allowed);
        })
        x

  forward_plan :
      (source target : TaskStatus)
      → input.state ≡ source
      → get_deterministic_forward_target source ≡ some target
      → (source == verifying) ≡ false
      → (source == reviewing) ≡ false
      → (source == ready_for_human) ≡ false
      → (source == pre_pr_reviewing) ≡ false
      → (source == blocked) ≡ false
      → (source == completed) ≡ false
      → plan_next_transition input ≡ evaluated input target
  unfolding plan_next_transition plan_forward
  forward_plan source target e f a b c d g h = simp (e, a, b, c, d, g, h, f)

  abbrev here : LifecycleTransitionContext
  here = record { blocked_from_state = input.blocked_from_state; phase = some phase }

  on_edge :
      (source target : TaskStatus)
      → input.state ≡ source
      → CanMove here source target
      → (evaluate_lifecycle_transition input.state target here).allowed ≡ true
  on_edge source target e m =
      subst (λ s. (evaluate_lifecycle_transition s target here).allowed ≡ true) (sym e)
        ((evaluate_lifecycle_transition_iff here source target).1 m)

  abbrev Accepts : TaskStatus → Type 0
  Accepts source =
      (c : Candidate)
      → input.state ≡ source
      → (plan_next_transition input).offered ≡ some c
      → c.executable ≡ true
      → IsAccepted input ctx phase c

  single_edge :
      (source target : TaskStatus)
      → get_deterministic_forward_target source ≡ some target
      → (source == verifying) ≡ false
      → (source == reviewing) ≡ false
      → (source == ready_for_human) ≡ false
      → (source == pre_pr_reviewing) ≡ false
      → (source == blocked) ≡ false
      → (source == completed) ≡ false
      → CanMove here source target
      → Accepts source
  single_edge source target f v r h p b d m c e o x =
      evaluated-IsAccepted target (on_edge source target e m)
        (rw (forward_plan source target e f v r h p b d) at o) x

  review_edge : CanMove here reviewing (review_target input) → Accepts reviewing
  unfolding plan_next_transition
  review_edge m c e o x =
      evaluated-IsAccepted (review_target input) (on_edge reviewing (review_target input) e m)
        (simp e at o) x

  human_edge : CanMove here ready_for_human (review_target input) → Accepts ready_for_human
  unfolding plan_next_transition
  human_edge m c e o x =
      evaluated-IsAccepted (review_target input) (on_edge ready_for_human (review_target input) e m)
        (simp e at o) x

  -- The target follows the blocking findings of the live review.
  review_target-reviewing : input.state ≡ reviewing → CanMove here reviewing (review_target input)
  unfolding review_target
  review_target-reviewing e =
      elim (Bool-cases (is_blocked_by_review (live_review input.proof_guard_context))) [
        | inl b ↦ simp (b, e) CanMove.repair_review
        | inr b ↦ simp (b, e) CanMove.hand_over
      ]

  review_target-ready :
      input.state ≡ ready_for_human → CanMove here ready_for_human (review_target input)
  unfolding review_target
  review_target-ready e =
      elim (Bool-cases (is_blocked_by_review (live_review input.proof_guard_context))) [
        | inl b ↦ simp (b, e) CanMove.repair_handed_over
        | inr b ↦ simp (b, e) CanMove.complete
      ]

  verified_plan :
      (summary : ProofSummary)
      → input.state ≡ verifying
      → input.proof ≡ some summary
      → plan_next_transition input
        ≡ plan_verifying_transition input.state_version phase summary input.proof_guard_context
  unfolding plan_next_transition plan_verified
  verified_plan summary e f = simp (e, f, planned_phase)

  unverified_plan :
      input.state ≡ verifying → input.proof ≡ none → (plan_next_transition input).offered ≡ none
  unfolding plan_next_transition plan_forward get_deterministic_forward_target
  unverified_plan e f = simp (e, f)

  -- The edge that the proof state selects, in its phase.
  verifying_edge :
      (target : TaskStatus)
      → input.state ≡ verifying
      → CanMove here verifying target
      → (c : Candidate)
      → (plan_from_verifying input.state_version phase input.proof_guard_context target).offered
        ≡ some c
      → c.executable ≡ true
      → IsAccepted input ctx phase c
  verifying_edge target e m c o x = verifying-IsAccepted target e (on_edge verifying target e m) o x

-- The candidate under a proof state, by status and phase.
verified_offer :
    (input : PlanInput) (ctx : ProofGuardContext) (phase : LifecyclePhase) (summary : ProofSummary)
    (status : ProofEvidenceStatus)
    → input.proof_guard_context ≡ some ctx
    → input.phase ≡ some phase
    → ctx.phase ≡ some phase
    → input.state ≡ verifying
    → summary.status ≡ status
    → (c : Candidate)
    → (plan_verifying_transition input.state_version phase summary
        input.proof_guard_context).offered
      ≡ some c
    → c.executable ≡ true
    → IsAccepted input ctx phase c
unfolding plan_verifying_transition
verified_offer input ctx pre_pr summary ProofEvidenceStatus.passed l p g e s c o x =
    verifying_edge input ctx pre_pr l p g pre_pr_reviewing e
      (CanMove.enter_pre_pr_review (λ h. ground arith)) c (simp s at o) x
verified_offer input ctx post_pr summary ProofEvidenceStatus.passed l p g e s c o x =
    verifying_edge input ctx post_pr l p g reviewing e
      (CanMove.return_to_review (λ h. ground arith)) c (simp s at o) x
verified_offer input ctx pre_pr summary ProofEvidenceStatus.failed l p g e s c o x =
    verifying_edge input ctx pre_pr l p g implementing e (CanMove.rework (λ h. ground arith)) c
      (simp s at o) x
verified_offer input ctx post_pr summary ProofEvidenceStatus.failed l p g e s c o x =
    elim (Bool-cases (ltb summary.attempts_used repair_budget)) [
      | inl b ↦
          verifying_edge input ctx post_pr l p g repairing e
            (CanMove.repair_after_pr (λ h. ground arith)) c (simp (s, b) at o) x
      | inr b ↦ absurd (ground arith)
    ]
verified_offer input ctx phase summary status l p g e s c o x =
    absurd (unfold verifying_guidance in ground arith)

module _ (input : PlanInput) (ctx : ProofGuardContext) (phase : LifecyclePhase)
    (l : input.proof_guard_context ≡ some ctx) (p : input.phase ≡ some phase)
    (g : ctx.phase ≡ some phase) where
  verifying_offer :
      (c : Candidate)
      → input.state ≡ verifying
      → (plan_next_transition input).offered ≡ some c
      → c.executable ≡ true
      → IsAccepted input ctx phase c
  verifying_offer c e o x = elim (Option-cases input.proof) [
    | inl f ↦ absurd (cc (unverified_plan input ctx phase l p g e f))
    | inr (summary, f) ↦
        verified_offer input ctx phase summary summary.status l p g e refl c
          (rw (verified_plan input ctx phase l p g summary e f) at o) x
  ]

  offer : (source : TaskStatus) → Accepts input ctx phase l p g source
  unfolding get_deterministic_forward_target
  offer queued =
      single_edge input ctx phase l p g queued framed refl refl refl refl refl refl refl
        CanMove.frame
  offer framed =
      single_edge input ctx phase l p g framed proof_ready refl refl refl refl refl refl refl
        CanMove.plan_proof
  offer proof_ready =
      single_edge input ctx phase l p g proof_ready implementing refl refl refl refl refl refl refl
        CanMove.implement
  offer implementing =
      single_edge input ctx phase l p g implementing verifying refl refl refl refl refl refl refl
        CanMove.verify
  offer repairing =
      single_edge input ctx phase l p g repairing verifying refl refl refl refl refl refl refl
        CanMove.verify_repair
  offer verifying = λ c e o x. verifying_offer c e o x
  offer reviewing = λ c e o x.
      review_edge input ctx phase l p g (review_target-reviewing input ctx phase l p g e) c e o x
  offer ready_for_human = λ c e o x.
      human_edge input ctx phase l p g (review_target-ready input ctx phase l p g e) c e o x
  offer pre_pr_reviewing = λ c e o x. absurd (unfold plan_next_transition in ground arith)
  offer blocked = λ c e o x. absurd (unfold plan_next_transition in ground arith)
  offer completed = λ c e o x. absurd (unfold plan_next_transition in ground arith)

  -- Whatever `session next` offers as executable, the apply step would accept: for a candidate that
  -- is marked executable, planned in the phase that the guard context has, the lifecycle structure
  -- allows the move from the current state at the current version, and the guards of the same
  -- context allow it for the empty request.
  pub plan_next_transition-IsAccepted :
      (c : Candidate)
      → (plan_next_transition input).offered ≡ some c
      → c.executable ≡ true
      → IsAccepted input ctx phase c
  plan_next_transition-IsAccepted c = offer input.state c refl
