-- ===== src/Session/Transition/Observed.antt =====
-- What an applied transition needs of a repository comes from a context that `transitionSession`
-- built in the observed repository, of evidence that is current when the transition is written.
use threadloop.Base.{none, some, Bool, true, false, map, find, ◌≡◌, refl, sym, ◌∙◌, subst, arith}
use threadloop.Task.{TaskStatus}
use threadloop.Json.{Fields, get}
use threadloop.Lifecycle.{LifecycleTransitionContext}
use threadloop.Lifecycle.Graph.{CanMove}
use threadloop.Transition.{GuardRepository, ProofGuardContext}
use threadloop.Transition.Guards.{evaluate_transition_guards}
use threadloop.Transition.Authority.{Authorized}
use threadloop.Transition.Authority.Decision.{evaluate_transition_guards_iff}
use threadloop.Store.{Engine, AppliedTransition, applied, SessionStore}
use threadloop.Store.Ledger.{read_evidence_watermark, is_same_watermark}
use threadloop.Store.Rejection.{Fresh, has_key}
use threadloop.Store.Apply.{evidence_is_current}
use threadloop.Store.Outcome.Applies.{
  apply_session_transition-applied, apply_session_transition-current,
}
use threadloop.Session.{Readers, ProofRepository}
use threadloop.Session.Files.{Files}
use threadloop.Session.Proof.{evaluate_session_proof}
use threadloop.Session.Basis.{Git}
use threadloop.Session.Basis.Context.{build_proof_guard_context}
use threadloop.Session.Transition.{
  TransitionSessionInput, done, Snapshots, SessionLifecycle, history_entry, GuardInputs,
  without_evidence,
}
use threadloop.Session.Transition.Run.{
  session_phase, persist_input, planless_context, transition_session,
}
use threadloop.Session.Transition.Gathered.{
  IsRead, Gathered, nothing, planned, turned_down, planless, observed, transition_session-Called,
}
use threadloop.Session.Transition.Denies.{Denies-rejected, prepare_bound_proof_plan-Denies}

true-false : {b : Bool} → b ≡ true → b ≡ false → ⊥
true-false p q = ground arith

none-some : {A : Type 0} {a : A} → none ≡ some a → ⊥
none-some p = ground arith

-- The context names a repository.
abbrev pub IsLocated : ProofGuardContext → Type 0
IsLocated ctx = (repository : GuardRepository) × (ctx.repository ≡ some repository)

module _ (engine : Engine) (readers : Readers) (files : Files) (git : Git) (snapshots : Snapshots)
    (request : TransitionSessionInput) where
  -- A context built of the snapshots in the observed repository, in which `P` holds.
  pub record Observes (P : ProofGuardContext → Type 0) : Type 0 where
    pub lifecycle : SessionLifecycle
    pub repository : ProofRepository
    pub ctx : ProofGuardContext
    pub is_read : IsRead engine readers files git snapshots request lifecycle
    pub in_repository : snapshots.repository ≡ some repository
    pub is_built :
        build_proof_guard_context git
          (evaluate_session_proof readers files request.session_id
            (some repository.head_sha)
            snapshots.rows)
          repository
          (session_phase engine readers files git snapshots request lifecycle)
          (map (history_entry engine) lifecycle.history)
        ≡ some ctx
    pub holds : P ctx

  module _ (P : ProofGuardContext → Type 0)
      (is_located : (ctx : ProofGuardContext) → P ctx → IsLocated ctx) where
    elsewhere : (ctx : ProofGuardContext) → ctx.repository ≡ none → P ctx → ⊥
    elsewhere ctx e p = let (repository, l) = is_located ctx p in none-some (sym e ∙ l)

    -- Of the guards that a call gathers, only those in an observed repository allow such a move.
    Gathered-Observes :
        (context : LifecycleTransitionContext) (source : TaskStatus) (input : Fields)
        → CanMove context source request.target_state
        → ((ctx : ProofGuardContext) → Authorized input ctx source request.target_state → P ctx)
        → (inputs : GuardInputs) → Gathered engine readers files git snapshots request inputs
        → (inputs.evaluate_guards source request.target_state input
            context.blocked_from_state).allowed
          ≡ true
        → Observes P
          × (inputs.evidence_watermark ≡ some (read_evidence_watermark snapshots.at_watermark))
    unfolding planless_context
    Gathered-Observes context source input moves needs inputs gathered allowed =
        elim gathered
            as (λ inputs _.
              (inputs.evaluate_guards source request.target_state input
                  context.blocked_from_state).allowed
                ≡ true
              → Observes P
                × (inputs.evidence_watermark
                    ≡ some (read_evidence_watermark snapshots.at_watermark))) [
                      | nothing ↦ λ allowed. absurd (elsewhere _ refl (passes _ allowed))
                      | planned _ ↦ λ allowed. absurd (elsewhere _ refl (passes _ allowed))
                      | turned_down e ↦ λ allowed. absurd (
                          true-false allowed (
                            Denies-rejected
                              (prepare_bound_proof_plan-Denies readers files snapshots.identity
                                snapshots.plan_time snapshots.repository
                                (get "proof_plan" request.input))
                              e))
                      | planless lifecycle _ ↦
                          λ allowed. absurd (elsewhere _ refl (passes _ allowed))
                      | observed lifecycle {repository} {ctx} l r c ↦ λ allowed. (
                        record {
                          lifecycle = lifecycle;
                          repository = repository;
                          ctx = ctx;
                          is_read = l;
                          in_repository = r;
                          is_built = c;
                          holds = passes ctx allowed;
                        },
                        refl,
                      )
                    ]
          allowed
      where
        passes :
            (ctx : ProofGuardContext)
            → (evaluate_transition_guards source request.target_state input
                context.blocked_from_state ctx).allowed
              ≡ true
            → P ctx
        passes ctx allowed =
            needs ctx ((evaluate_transition_guards_iff context input ctx moves).0 allowed)

    pub transition_session-Observes :
        (fresh : Fresh) (s t : SessionStore) (a : AppliedTransition)
        → find
            (has_key engine fresh
              (persist_input engine readers files git snapshots request without_evidence))
            s.idempotency
          ≡ none
        → transition_session engine readers files git snapshots request fresh s
          ≡ done (applied a, t)
        → ((context : LifecycleTransitionContext) (source : TaskStatus) (input : Fields)
              (ctx : ProofGuardContext)
            → a.transition.from_state ≡ source
            → a.transition.to_state ≡ request.target_state
            → CanMove context source request.target_state
            → Authorized input ctx source request.target_state
            → P ctx)
        → Observes P
          × (is_same_watermark
                (read_evidence_watermark s)
                (read_evidence_watermark snapshots.at_watermark)
              ≡ true)
    transition_session-Observes fresh s t a new d needs =
        let (inputs, gathered, p) =
          transition_session-Called engine readers files git snapshots request fresh s d in
        let stored = persist_input engine readers files git snapshots request inputs in
        let done_by =
          apply_session_transition-applied engine fresh stored inputs.evaluate_guards s t a new p in
        let (observes, under) =
          Gathered-Observes _ done_by.before.status stored.canonical_input done_by.moves
            (λ ctx. needs _ _ _ ctx done_by.source done_by.target done_by.moves) inputs gathered
            done_by.is_authorized in
        (
          observes,
          subst (λ seen. evidence_is_current engine fresh stored seen s ≡ true) under
              (apply_session_transition-current engine fresh stored inputs.evaluate_guards s t a new
                p),
        )
