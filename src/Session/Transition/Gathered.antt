-- ===== src/Session/Transition/Gathered.antt =====
-- What a call of `transitionSession` that returns gave to the store: one of five kinds of guards.
use threadloop.Base.{
  Option, none, some, Bool-cases, false, ◌≡◌, refl, ap, subst, inl, inr, map, is_some, arith,
}
use threadloop.Proof.{BoundProofPlan}
use threadloop.Json.{get}
use threadloop.Transition.{TransitionGuardDecision, ProofGuardContext}
use threadloop.Transition.Guards.{get_transition_guard_requirement, requires_proof_guard_context}
use threadloop.Store.{Engine, SessionTransitionResult, SessionStore, Action, return, throw}
use threadloop.Store.Ledger.{read_evidence_watermark}
use threadloop.Store.Rejection.{Fresh}
use threadloop.Store.Apply.{apply_session_transition}
use threadloop.Session.{Readers, ProofRepository}
use threadloop.Session.Files.{Files}
use threadloop.Session.Proof.{evaluate_session_proof}
use threadloop.Session.Basis.{Git}
use threadloop.Session.Basis.Context.{build_proof_guard_context}
use threadloop.Session.Prepare.{
  Preparation, prepared, baseline_rejected, invalid_proof_plan, unreadable_repository,
  prepare_bound_proof_plan,
}
use threadloop.Session.Transition.{
  TransitionSessionInput, Attempt, done, fails, ◌>>=◌, caught, or_fail, Snapshots, SessionLifecycle,
  read_session_lifecycle, history_entry, empty_context, GuardInputs, guards_in, without_evidence,
  prepared_inputs, is_review_requirement,
}
use threadloop.Session.Transition.Run.{
  session_phase, planless_context, observed_inputs, proof_inputs, preliminary, review_inputs,
  plans_proof, guard_inputs, persist_input, apply_with, has_session_transition_idempotency,
  after_lifecycle, transition_session,
}

value_of : {A : Type 0} → A → Attempt A → A
value_of a (done b) = b
value_of a (fails _) = a

pub done-injective : {A : Type 0} {a b : A} → done a ≡ done b → a ≡ b
unfolding value_of
done-injective {a} p = ap (value_of a) p

fails-done : {A : Type 0} {a : A} (e : _) → fails e ≡ done a → ⊥
fails-done e p = ground arith

bind_done :
    {A B : Type 0} (m : Attempt A) (f : A → Attempt B) {b : B}
    → (m >>= f) ≡ done b
    → (a : A) × (m ≡ done a) × (f a ≡ done b)
bind_done (done a) f p = (a, refl, p)
bind_done (fails e) f p = absurd (fails-done e p)

or_fail_done : {A : Type 0} (o : Option A) {a : A} → or_fail o ≡ done a → o ≡ some a
or_fail_done none p = absurd (fails-done _ p)
or_fail_done (some a) p = ap some (done-injective p)

caught_done : {A : Type 0} (m : Action A) {a : A} → caught m ≡ done a → m ≡ return a
unfolding caught
caught_done (return a) p = ap return (done-injective p)
caught_done (throw e) p = absurd (fails-done _ p)

module _ (engine : Engine) (readers : Readers) (files : Files) (git : Git) (snapshots : Snapshots)
    (request : TransitionSessionInput) where
  abbrev preparation : Preparation
  preparation =
      prepare_bound_proof_plan readers files snapshots.identity snapshots.plan_time
        snapshots.repository (get "proof_plan" request.input)

  -- The lifecycle that the call reads first.
  abbrev pub IsRead : SessionLifecycle → Type 0
  IsRead lifecycle = read_session_lifecycle engine snapshots.at_lifecycle ≡ return (some lifecycle)

  pub data Gathered : GuardInputs → Type 0 where
    nothing : Gathered without_evidence
    planned :
        {plan : BoundProofPlan}
        → preparation ≡ prepared plan
        → Gathered (record {
          evaluate_guards = guards_in (record empty_context { bound_plan = some plan });
          bound_proof_plan = some plan;
          evidence_watermark = none;
        })
    turned_down :
        {decision : TransitionGuardDecision}
        → preparation ≡ baseline_rejected decision
        → Gathered (record {
          evaluate_guards = λ source target input prior. decision;
          bound_proof_plan = none;
          evidence_watermark = none;
        })
    planless :
        (lifecycle : SessionLifecycle)
        → is_some (preliminary engine readers files git snapshots request).plan ≡ false
        → Gathered (record {
          evaluate_guards = guards_in (
              planless_context engine readers files git snapshots request
                (preliminary engine readers files git snapshots request)
                (session_phase engine readers files git snapshots request lifecycle));
          bound_proof_plan = none;
          evidence_watermark = some (read_evidence_watermark snapshots.at_watermark);
        })
    observed :
        (lifecycle : SessionLifecycle) {repository : ProofRepository} {ctx : ProofGuardContext}
        → IsRead lifecycle
        → snapshots.repository ≡ some repository
        → build_proof_guard_context git
            (evaluate_session_proof readers files request.session_id
              (some repository.head_sha)
              snapshots.rows)
            repository
            (session_phase engine readers files git snapshots request lifecycle)
            (map (history_entry engine) lifecycle.history)
          ≡ some ctx
        → Gathered (record {
          evaluate_guards = guards_in ctx;
          bound_proof_plan = none;
          evidence_watermark = some (read_evidence_watermark snapshots.at_watermark);
        })

  prepared_inputs-Gathered :
      (p : Preparation) {inputs : GuardInputs}
      → preparation ≡ p
      → prepared_inputs p ≡ done inputs
      → Gathered inputs
  unfolding prepared_inputs
  prepared_inputs-Gathered (prepared plan) e d = subst Gathered (done-injective d) (planned e)
  prepared_inputs-Gathered (baseline_rejected decision) e d =
      subst Gathered (done-injective d) (turned_down e)
  prepared_inputs-Gathered invalid_proof_plan e d = absurd (fails-done _ d)
  prepared_inputs-Gathered unreadable_repository e d = absurd (fails-done _ d)

  proof_inputs-Gathered :
      (lifecycle : SessionLifecycle) {inputs : GuardInputs}
      → IsRead lifecycle
      → proof_inputs engine readers files git snapshots request lifecycle ≡ done inputs
      → Gathered inputs
  unfolding proof_inputs observed_inputs
  proof_inputs-Gathered lifecycle l d =
      let (repository, r, d') = bind_done (or_fail snapshots.repository) _ d in
      let (ctx, c, d'') = bind_done (or_fail _) _ d' in
      subst Gathered (done-injective d'')
        (observed lifecycle l (or_fail_done _ r) (or_fail_done _ c))

  review_inputs-Gathered :
      (lifecycle : SessionLifecycle) {inputs : GuardInputs}
      → IsRead lifecycle
      → review_inputs engine readers files git snapshots request lifecycle ≡ done inputs
      → Gathered inputs
  unfolding review_inputs
  review_inputs-Gathered lifecycle l d =
      elim (Bool-cases (is_some (preliminary engine readers files git snapshots request).plan)) [
        | inl b ↦ proof_inputs-Gathered lifecycle l (rw b at d)
        | inr b ↦ subst Gathered (done-injective (rw b at d)) (planless lifecycle b)
      ]

  guard_inputs-Gathered :
      (o : Option SessionLifecycle) {inputs : GuardInputs}
      → read_session_lifecycle engine snapshots.at_lifecycle ≡ return o
      → guard_inputs engine readers files git snapshots request o ≡ done inputs
      → Gathered inputs
  unfolding guard_inputs
  guard_inputs-Gathered none l d = subst Gathered (done-injective d) nothing
  guard_inputs-Gathered (some lifecycle) l d =
      elim (Bool-cases (plans_proof engine readers files git snapshots request lifecycle)) [
        | inl b ↦ prepared_inputs-Gathered preparation refl (rw b at d)
        | inr b ↦
            elim (Bool-cases (
              is_review_requirement
                (get_transition_guard_requirement lifecycle.state request.target_state))) [
                  | inl c ↦ review_inputs-Gathered lifecycle l (rw (b, c) at d)
                  | inr c ↦
                      elim (Bool-cases
                        (requires_proof_guard_context lifecycle.state request.target_state)) [
                          | inl e ↦ proof_inputs-Gathered lifecycle l (rw (b, c, e) at d)
                          | inr e ↦ subst Gathered (done-injective (rw (b, c, e) at d)) nothing
                        ]
                ]
      ]

  abbrev pub Called : Fresh → SessionStore → SessionTransitionResult × SessionStore → Type 0
  Called fresh s r =
      (inputs : GuardInputs) × Gathered inputs
      × (apply_session_transition engine fresh
            (persist_input engine readers files git snapshots request inputs) inputs.evaluate_guards
            s
          ≡ return r)

  after_lifecycle-Called :
      (fresh : Fresh) (s : SessionStore) (lifecycle : Option SessionLifecycle)
      {r : SessionTransitionResult × SessionStore}
      → read_session_lifecycle engine snapshots.at_lifecycle ≡ return lifecycle
      → after_lifecycle engine readers files git snapshots request fresh s lifecycle ≡ done r
      → Called fresh s r
  unfolding after_lifecycle apply_with
  after_lifecycle-Called fresh s lifecycle l d =
      elim (Bool-cases
        (has_session_transition_idempotency engine readers files git snapshots request fresh)) [
          | inl b ↦ (without_evidence, nothing, caught_done _ (rw b at d))
          | inr b ↦
              let (inputs, g, d') =
                bind_done (guard_inputs engine readers files git snapshots request lifecycle)
                  (λ inputs. apply_with engine readers files git snapshots request fresh inputs s)
                  (rw b at d) in
              (inputs, guard_inputs-Gathered lifecycle l g, caught_done _ d')
        ]

  -- The call to the store that a call made, with the guards that it gathered.
  pub transition_session-Called :
      (fresh : Fresh) (s : SessionStore) {r : SessionTransitionResult × SessionStore}
      → transition_session engine readers files git snapshots request fresh s ≡ done r
      → Called fresh s r
  unfolding transition_session
  transition_session-Called fresh s d =
      let (lifecycle, l, d') =
        bind_done (caught (read_session_lifecycle engine snapshots.at_lifecycle))
          (after_lifecycle engine readers files git snapshots request fresh s) d in
      after_lifecycle-Called fresh s lifecycle (caught_done _ l) d'
