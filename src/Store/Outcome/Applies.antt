-- ===== src/Store/Outcome/Applies.antt =====
-- What a call of `applySessionTransition` that applies its transition required, and what it leaves.
use threadloop.Base.{
  ◌+◌, Option, none, some, true, false, not, ◌&&◌, [], ◌∷◌, ◌++◌, if◌then◌else◌, ◌≡◌, refl, sym, ap,
  ◌∙◌, subst, arith, find, ◌==◌, is_some,
}
use threadloop.Task.{framed, proof_ready, blocked, completed, status_eq}
use threadloop.Proof.{BoundProofPlan}
use threadloop.Lifecycle.Graph.{CanMove, evaluate_lifecycle_transition_iff}
use threadloop.Store.{
  Engine, TransitionSessionRow, TransitionRow, TransitionError, AppliedTransition,
  SessionTransitionResult, applied, failed, SessionStore, return, is_corrupted,
}
use threadloop.Store.Steps.{return-injective, require_returns}
use threadloop.Store.History.{HistoryAuthority, assert_session_transition_history_authority}
use threadloop.Store.Rejection.{PersistInput, Fresh, has_key}
use threadloop.Store.Apply.{
  GuardEvaluator, apply_session_transition, persist_proof_plan, append_applied_events, next_row,
  written, phase_of, move, evidence_is_current,
}
use threadloop.Store.Outcome.{
  Outcome, apply_session_transition-Outcome, replayed, conflict_replayed, conflicted, missing,
  unsound, rejected, accepted,
}
use threadloop.Store.Outcome.Writes.{
  Keeps, Keeps-trans, append_applied_events-Appended, Appended-Keeps, Accepted, accept-Accepted,
}

-- The plan that the call binds, or else the one that is bound.
abbrev pub bound_plan : Option BoundProofPlan → Option BoundProofPlan → Option BoundProofPlan
bound_plan none old = old
bound_plan (some plan) old = some plan

applied_row : SessionTransitionResult → TransitionRow → TransitionRow
applied_row (applied a) row = a.transition
applied_row (failed _) row = row

-- Results that agree report the same transition.
applied-injective : {a b : AppliedTransition} → applied a ≡ applied b → a.transition ≡ b.transition
unfolding applied_row
applied-injective {a} p = ap (λ r. applied_row r a.transition) p

failed-applied : {error : TransitionError} {a : AppliedTransition} → failed error ≡ applied a → ⊥
failed-applied p = ground arith

some-none {ℓ} : {A : Type ℓ} {a : A} → some a ≡ none → ⊥
some-none p = ground arith

module _ (engine : Engine) (fresh : Fresh) (input : PersistInput) (evaluate_guards : GuardEvaluator)
    (s : SessionStore) where
  pub persist_proof_plan-store :
      (plan : Option BoundProofPlan) (current : TransitionSessionRow) {planned : SessionStore}
      → persist_proof_plan engine fresh input plan current s ≡ return planned
      → planned ≡ record s { proof_plan = bound_plan plan s.proof_plan }
  unfolding persist_proof_plan
  persist_proof_plan-store none current p = sym (return-injective p)
  persist_proof_plan-store (some plan) current p =
      let (_, q) =
        require_returns (current.status == framed && input.target_state == proof_ready) _ _ p in
      let (_, z) = require_returns (not (is_some s.proof_plan)) _ _ q in sym (return-injective z)

  append_applied_events-Keeps :
      (row : TransitionRow) (u : SessionStore) {t : SessionStore}
      → append_applied_events engine fresh input row u ≡ return t
      → Keeps u t
  append_applied_events-Keeps row u p =
      let (between, first, second) = append_applied_events-Appended engine fresh input row u p in
      Keeps-trans (Appended-Keeps engine first) (Appended-Keeps engine second)

  -- The gate for the transition, and the session after it.
  pub record Applies (a : AppliedTransition) (t : SessionStore) : Type 0 where
    pub before : TransitionSessionRow
    pub after : TransitionSessionRow
    pub authority : HistoryAuthority
    pub found : s.current ≡ some before
    pub is_sound : is_corrupted before ≡ false
    pub has_authority : assert_session_transition_history_authority engine s ≡ return authority
    pub at_version : input.expected_state_version ≡ before.state_version
    pub moves :
        CanMove
          (record {
            blocked_from_state = before.blocked_from_state;
            phase = some (phase_of engine fresh input authority);
          })
          before.status
          input.target_state
    pub is_authorized :
        (evaluate_guards before.status input.target_state input.canonical_input
          before.blocked_from_state).allowed
        ≡ true
    pub left : t.current ≡ some after
    pub status : after.status ≡ input.target_state
    pub version : after.state_version ≡ before.state_version + 1
    pub recorded_prior :
        after.blocked_from_state
        ≡ (if input.target_state == blocked then some before.status else none)
    pub ended :
        after.ended_at
        ≡ (if input.target_state == completed then some fresh.now else before.ended_at)
    pub history : t.transitions ≡ s.transitions ++ a.transition ∷ []
    pub source : a.transition.from_state ≡ before.status
    pub target : a.transition.to_state ≡ input.target_state
    pub versions :
        (a.transition.from_state_version ≡ before.state_version)
        × (a.transition.to_state_version ≡ before.state_version + 1)
    pub plan : t.proof_plan ≡ bound_plan input.bound_proof_plan s.proof_plan

  -- What the writes of `accept` leave, before the events.
  module _ (before : TransitionSessionRow) where
    written-Keeps :
        {r : SessionTransitionResult × SessionStore}
        → Accepted engine fresh input before s r
        → Keeps
            (written engine fresh input before
              (record s { proof_plan = bound_plan input.bound_proof_plan s.proof_plan }))
            r.1
    written-Keeps {r} m =
        subst (λ planned. Keeps (written engine fresh input before planned) r.1)
          (persist_proof_plan-store input.bound_proof_plan before m.persisted)
          (append_applied_events-Keeps _ _ m.audited)

    Accepted-Applies :
        (authority : HistoryAuthority)
        → s.current ≡ some before
        → is_corrupted before ≡ false
        → assert_session_transition_history_authority engine s ≡ return authority
        → input.expected_state_version ≡ before.state_version
        → (move engine fresh input before authority).allowed ≡ true
        → (evaluate_guards before.status input.target_state input.canonical_input
            before.blocked_from_state).allowed
          ≡ true
        → {r : SessionTransitionResult × SessionStore} → Accepted engine fresh input before s r
        → {a : AppliedTransition} → r.0 ≡ applied a
        → Applies a r.1
    Accepted-Applies authority found sound h v moves guarded m e =
        let k = written-Keeps m in
        let row = applied-injective (sym m.result ∙ e) in
        record {
          before = before;
          after = next_row engine fresh input before;
          authority = authority;
          found = found;
          is_sound = sound;
          has_authority = h;
          at_version = v;
          moves = (evaluate_lifecycle_transition_iff _ before.status input.target_state).0 moves;
          is_authorized = guarded;
          left = k.lifecycle;
          status = refl;
          version = refl;
          recorded_prior = refl;
          ended = refl;
          history = k.history ∙ ap (λ row. s.transitions ++ row ∷ []) row;
          source = ap (λ row. row.from_state) (sym row);
          target = ap (λ row. row.to_state) (sym row);
          versions = (
            ap (λ row. row.from_state_version) (sym row),
            ap (λ row. row.to_state_version) (sym row),
          );
          plan = k.plan;
        }

  Outcome-Applies :
      {r : SessionTransitionResult × SessionStore}
      → Outcome engine fresh input evaluate_guards s r
      → find (has_key engine fresh input) s.idempotency ≡ none
      → {a : AppliedTransition} → r.0 ≡ applied a
      → Applies a r.1
  Outcome-Applies (replayed k _) new e = absurd (some-none (sym k ∙ new))
  Outcome-Applies (conflict_replayed k _ _) new e = absurd (some-none (sym k ∙ new))
  Outcome-Applies (conflicted k _ _) new e = absurd (some-none (sym k ∙ new))
  Outcome-Applies (missing _) new e = absurd (failed-applied e)
  Outcome-Applies (unsound _ _) new e = absurd (failed-applied e)
  Outcome-Applies (rejected _ _) new e = absurd (failed-applied e)
  Outcome-Applies (accepted {current} {authority} _ found sound h v moves _ guarded m) new e =
      Accepted-Applies current authority found sound h v moves guarded
        (accept-Accepted engine fresh input current s m) e

  Outcome-current :
      {r : SessionTransitionResult × SessionStore}
      → Outcome engine fresh input evaluate_guards s r
      → find (has_key engine fresh input) s.idempotency ≡ none
      → {a : AppliedTransition} → r.0 ≡ applied a
      → evidence_is_current engine fresh input input.evidence_watermark s ≡ true
  Outcome-current (replayed k _) new e = absurd (some-none (sym k ∙ new))
  Outcome-current (conflict_replayed k _ _) new e = absurd (some-none (sym k ∙ new))
  Outcome-current (conflicted k _ _) new e = absurd (some-none (sym k ∙ new))
  Outcome-current (missing _) new e = absurd (failed-applied e)
  Outcome-current (unsound _ _) new e = absurd (failed-applied e)
  Outcome-current (rejected _ _) new e = absurd (failed-applied e)
  Outcome-current (accepted _ _ _ _ _ _ w _ _) new e = w

  -- The evidence is still what the caller read.
  pub apply_session_transition-current :
      (t : SessionStore) (a : AppliedTransition)
      → find (has_key engine fresh input) s.idempotency ≡ none
      → apply_session_transition engine fresh input evaluate_guards s ≡ return (applied a, t)
      → evidence_is_current engine fresh input input.evidence_watermark s ≡ true
  apply_session_transition-current t a new p =
      Outcome-current (apply_session_transition-Outcome engine fresh input evaluate_guards s p) new
        refl

  -- A call that applies its transition under a new key found the session sound, at the version that
  -- the caller expected and with an authoritative history; the lifecycle graph has the move in
  -- the phase of that history, and the guards allow it. The call leaves the target state at the next
  -- version, with the prior state of a block and the end of a completed session, appends the one
  -- transition that it reports to the history, and binds the proof plan that it was given.
  pub apply_session_transition-applied :
      (t : SessionStore) (a : AppliedTransition)
      → find (has_key engine fresh input) s.idempotency ≡ none
      → apply_session_transition engine fresh input evaluate_guards s ≡ return (applied a, t)
      → Applies a t
  apply_session_transition-applied t a new p =
      Outcome-Applies (apply_session_transition-Outcome engine fresh input evaluate_guards s p) new
        refl
