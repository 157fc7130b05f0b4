-- ===== src/Store/Outcome/Progress/Returns.antt =====
-- What a call of `applySessionTransition` needs so that it applies its transition.
use threadloop.Base.{
  ◌+◌, ◌≤◌, String, Option, none, some, Bool-cases, true, false, List, [], ◌∷◌, ◌++◌, ◌≡◌, ◌≢◌,
  refl, sym, ap, ◌∙◌, subst, arith, find, length, is_hex_of_length, ◌==◌, beq_refl, eq_of_beq,
  nat_eq, string_eq, All, get_last?, Option-cases, inl, inr,
}
use threadloop.Task.{TaskStatus, framed, proof_ready, completed, status_eq}
use threadloop.Audit.{StoredAuditEvent, max_safe_integer}
use threadloop.Lifecycle.{LifecycleTransitionContext, evaluate_lifecycle_transition}
use threadloop.Lifecycle.Graph.{CanMove, evaluate_lifecycle_transition_iff}
use threadloop.Proof.{BoundProofPlan}
use threadloop.Store.{
  Engine, TransitionSessionRow, TransitionRow, SessionStore, return, is_corrupted,
}
use mathlib.Core.Option.{some-injective}
use threadloop.Store.History.{
  Genesis, projects, HistoryAuthority, assert_session_transition_history_authority, row_is_valid,
  row_continues,
}
use threadloop.Store.History.Rows.{Continues, Continues-IsNext}
use threadloop.Store.History.Authoritative.{HasAuthority, assert-HasAuthority}
use threadloop.Store.Ledger.{EvidenceWatermark, read_evidence_watermark, is_same_watermark}
use threadloop.Store.Rejection.{PersistInput, Fresh, has_key}
use threadloop.Store.Apply.{
  GuardEvaluator, apply_session_transition, persist_proof_plan, phase_of, can_end,
  is_new_transition, evidence_is_current, transition_row, decision_draft, applied_draft,
  applied_result,
}
use threadloop.Store.Outcome.Progress.{apply_session_transition-accepts}
use threadloop.Store.Outcome.Progress.Append.{event_of, with_event, is_unused}

-- Neither the id nor the hash of the event is one of the events'.
abbrev pub IsNewEvent : StoredAuditEvent → List StoredAuditEvent → Type 0
IsNewEvent event = All (λ row. (row.value.id ≢ event.value.id) × (row.sha256 ≢ event.sha256))

not_equal : {a b : String} → a ≢ b → (a == b) ≡ false
not_equal {a} {b} n = elim (Bool-cases (a == b)) [ inl e ↦ absurd (n (eq_of_beq e)) | inr e ↦ e ]

module _ (engine : Engine) where
  IsNewEvent-is_unused :
      (event : StoredAuditEvent) (events : List StoredAuditEvent)
      → IsNewEvent event events
      → is_unused engine event events ≡ true
  IsNewEvent-is_unused event [] n = refl
  IsNewEvent-is_unused event (row ∷ rows) ((id, hash), n) =
      let a = not_equal id in
      let b = not_equal hash in let rest = IsNewEvent-is_unused event rows n in ground arith

  -- The versions of an authoritative history rise to that of its last row.
  Continues-rises :
      (session_id : String) (previous : Option TransitionRow) (row : TransitionRow)
      (rows : List TransitionRow) (last : TransitionRow)
      → Continues engine session_id previous (row ∷ rows)
      → get_last? (row ∷ rows) ≡ some last
      → All (λ r. r.to_state_version ≤ last.to_state_version) (row ∷ rows)
  unfolding row_continues row_is_valid
  Continues-rises session_id previous row [] last c e =
      let same : row ≡ last = ground arith in (rw same (omega arith), tt)
  Continues-rises session_id previous row (next ∷ rows) last c e =
      let (first, c₁) = Continues-IsNext engine session_id previous row (next ∷ rows) c in
      let (second, c₂) = Continues-IsNext engine session_id (some row) next rows c₁ in
      let (below, rest) = Continues-rises session_id (some row) next rows last c₁ e in
      let follows = second.continues in let valid = second.is_valid in (ground arith, (below, rest))

module _ (engine : Engine) (fresh : Fresh) (input : PersistInput) (s : SessionStore)
    (current : TransitionSessionRow) where
  none-collides :
      (rows : List TransitionRow)
      → All (λ row. row.id ≢ fresh.transition_id) rows
      → All (λ row. row.to_state_version ≤ current.state_version) rows
      → is_new_transition engine fresh input (record s { transitions = rows }) current ≡ true
  none-collides [] ids below = refl
  none-collides (row ∷ rows) (id, ids) (low, below) =
      let a = not_equal id in let rest = none-collides rows ids below in ground arith

  rows_below :
      HasAuthority engine s
      → s.current ≡ some current
      → (rows : List TransitionRow) → s.transitions ≡ rows
      → All (λ row. row.to_state_version ≤ current.state_version) rows
  rows_below a found [] e = tt
  rows_below a found (row ∷ rows) e = elim (Option-cases (get_last? (row ∷ rows))) [
    | inl n ↦ absurd (filled row rows n)
    | inr (last, l) ↦
        let same : a.row ≡ current = some-injective _ _ (sym a.found ∙ found) in
        let at_last : last.to_state_version ≡ a.row.state_version =
          of_last a.genesis a.row last (rw (e, l) at a.projected) in
        subst (λ n. All (λ r. r.to_state_version ≤ n) (row ∷ rows))
          (at_last ∙ ap (λ r. r.state_version) same)
          (Continues-rises engine s.session_id none row rows last (rw e at a.continues) l)
  ]
    where
      filled : (row : TransitionRow) (rows : List TransitionRow) → get_last? (row ∷ rows) ≡ none → ⊥
      filled row [] h = ground arith
      filled row (next ∷ rows) h = filled next rows h

      of_last :
          (genesis : Genesis) (row : TransitionSessionRow) (last : TransitionRow)
          → projects genesis s.task_id row (some last) ≡ true
          → last.to_state_version ≡ row.state_version
      of_last genesis row last h = ground arith

  -- A completed session makes no move, and one that is not completed has not ended.
  can_end-holds :
      (context : LifecycleTransitionContext)
      → CanMove context current.status input.target_state
      → is_corrupted current ≡ false
      → can_end engine fresh input current ≡ true
  unfolding is_corrupted evaluate_lifecycle_transition
  can_end-holds context moves sound = elim (Bool-cases (current.status == completed)) [
    | inl e ↦
        absurd (
          no_move (subst (λ source. CanMove context source input.target_state) (eq_of_beq e) moves))
    | inr e ↦ ground arith
  ]
    where
      no_move : {target : TaskStatus} → CanMove context completed target → ⊥
      no_move {target} m =
          let h = (evaluate_lifecycle_transition_iff context completed target).1 m in ground arith

  -- A plan is only bound by a session that has none, when it moves from framed to proof_ready.
  abbrev pub CanBind : Type 0
  CanBind =
      (plan : BoundProofPlan)
      → input.bound_proof_plan ≡ some plan
      → (current.status ≡ framed) × (input.target_state ≡ proof_ready) × (s.proof_plan ≡ none)

  binds :
      (o : Option BoundProofPlan)
      → input.bound_proof_plan ≡ o
      → CanBind
      → (plan : Option BoundProofPlan) × (persist_proof_plan engine fresh input o current s
          ≡ return (record s { proof_plan = plan }))
  unfolding persist_proof_plan
  binds none e can = (s.proof_plan, refl)
  binds (some plan) e can =
      let (status, target, empty) = can plan e in (some plan, rw (status, target, empty) refl)

  is_current :
      (o : Option EvidenceWatermark)
      → ((seen : EvidenceWatermark) → o ≡ some seen → read_evidence_watermark s ≡ seen)
      → evidence_is_current engine fresh input o s ≡ true
  unfolding is_same_watermark
  is_current none h = refl
  is_current (some seen) h =
      rw (h seen refl)
        (ground (arith, beq_refl seen.gate, beq_refl seen.signed_gate, beq_refl seen.signed_review))

  abbrev pub decision_event : StoredAuditEvent
  decision_event =
      event_of engine s
        (decision_draft engine fresh input (transition_row engine fresh input s current))

  abbrev pub applied_event : StoredAuditEvent
  applied_event =
      event_of engine
        (with_event engine s
          (decision_draft engine fresh input (transition_row engine fresh input s current)))
        (applied_draft engine fresh input (transition_row engine fresh input s current))

  -- The ids that the call made up are new, and so are the hashes of its two audit events.
  pub record AreNew : Type 0 where
    pub transition_id : All (λ row. row.id ≢ fresh.transition_id) s.transitions
    pub decision : IsNewEvent decision_event s.audit_events
    pub applied : IsNewEvent applied_event (s.audit_events ++ decision_event ∷ [])

  -- A call under a new key on a sound session with an authoritative history applies its transition
  -- and returns it where the version is the expected one, the lifecycle graph has the move in the
  -- phase of the history, the receipts are the ones that were seen, the guards allow the move, and a
  -- proof plan is only bound by a session without one, from framed to proof_ready; as long as the
  -- numbers stay safe integers, the digest is in hexadecimal, the ids that the call made up are new,
  -- and the hashes of its two events are.
  pub apply_session_transition-returns :
      (evaluate_guards : GuardEvaluator) (authority : HistoryAuthority)
      → find (has_key engine fresh input) s.idempotency ≡ none
      → s.current ≡ some current
      → is_corrupted current ≡ false
      → assert_session_transition_history_authority engine s ≡ return authority
      → input.expected_state_version ≡ current.state_version
      → CanMove
          (record {
            blocked_from_state = current.blocked_from_state;
            phase = some (phase_of engine fresh input authority);
          })
          current.status
          input.target_state
      → ((seen : EvidenceWatermark)
          → input.evidence_watermark ≡ some seen
          → read_evidence_watermark s ≡ seen)
      → (evaluate_guards current.status input.target_state input.canonical_input
          current.blocked_from_state).allowed
        ≡ true
      → CanBind
      → length s.audit_events + 2 ≤ max_safe_integer
      → current.state_version + 1 ≤ max_safe_integer
      → ((content : String) → is_hex_of_length 64 (engine.digest content) ≡ true)
      → AreNew
      → (t : SessionStore) × (apply_session_transition engine fresh input evaluate_guards s
          ≡ return (applied_result engine fresh input s current, t))
  apply_session_transition-returns evaluate_guards authority key found sound h v moves seen guarded
        can room safe is_hex new =
      let (plan, bound) = binds input.bound_proof_plan refl can in
      let below = rows_below (assert-HasAuthority engine s h) found s.transitions refl in
      apply_session_transition-accepts engine fresh input s evaluate_guards current authority
        (record s { proof_plan = plan }) key found sound h v
        ((evaluate_lifecycle_transition_iff _ current.status input.target_state).1 moves)
        (is_current input.evidence_watermark seen) guarded bound (can_end-holds _ moves sound)
        (none-collides s.transitions new.transition_id below) room safe is_hex
        (record {
          decision = IsNewEvent-is_unused engine decision_event s.audit_events new.decision;
          transition =
              IsNewEvent-is_unused engine applied_event (s.audit_events ++ decision_event ∷ [])
                new.applied;
        })
