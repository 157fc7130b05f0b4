-- ===== src/Store/Outcome/Writes.antt =====
-- What `appendAuditEvent` and `appendRejectedGuardDecision` leave where they return.
use threadloop.Base.{
  Option, none, some, true, not, List, [], ◌∷◌, ◌++◌, ◌≡◌, refl, sym, ap, ◌∙◌, subst, arith, any,
  get_last?,
}
use threadloop.Audit.{StoredAuditEvent, create_audit_event}
use threadloop.Store.{
  Engine, IdempotencyRow, TransitionRow, TransitionSessionRow, SessionStore,
  SessionTransitionResult, return,
}
use threadloop.Store.Steps.{return-injective, bind_returns, require_returns}
use threadloop.Store.Ledger.{
  AuditDraft, append_audit_event, next_value, created, checked_tail, tail_error, event_collides,
}
use threadloop.Store.Apply.{
  persist_proof_plan, can_end, is_new_transition, append_applied_events, decision_draft,
  applied_draft, transition_row, written, applied_result, accept,
}
use threadloop.Store.Rejection.{PersistInput, Fresh}

-- All that the gates and the next transition read, except the audit events and the requests.
pub record Keeps (s t : SessionStore) : Type 0 where
  pub session : t.session_id ≡ s.session_id
  pub task : t.task_id ≡ s.task_id
  pub lifecycle : t.current ≡ s.current
  pub history : t.transitions ≡ s.transitions
  pub plan : t.proof_plan ≡ s.proof_plan
  pub gates : t.gate_sequences ≡ s.gate_sequences
  pub signed_gates : t.signed_gate_sequences ≡ s.signed_gate_sequences
  pub signed_reviews : t.signed_review_sequences ≡ s.signed_review_sequences

-- Requests and events are free.
pub same_session :
    (s : SessionStore) (requests conflicts : List IdempotencyRow) (events : List StoredAuditEvent)
    → Keeps s (record s { idempotency = requests; conflicts = conflicts; audit_events = events })
same_session s requests conflicts events = record {
  session = refl;
  task = refl;
  lifecycle = refl;
  history = refl;
  plan = refl;
  gates = refl;
  signed_gates = refl;
  signed_reviews = refl;
}

pub Keeps-trans : {s s' t : SessionStore} → Keeps s s' → Keeps s' t → Keeps s t
Keeps-trans a b = record {
  session = b.session ∙ a.session;
  task = b.task ∙ a.task;
  lifecycle = b.lifecycle ∙ a.lifecycle;
  history = b.history ∙ a.history;
  plan = b.plan ∙ a.plan;
  gates = b.gates ∙ a.gates;
  signed_gates = b.signed_gates ∙ a.signed_gates;
  signed_reviews = b.signed_reviews ∙ a.signed_reviews;
}

pub record Appended (engine : Engine) (draft : AuditDraft) (s t : SessionStore) : Type 0 where
  pub event : StoredAuditEvent
  pub is_created :
      create_audit_event engine.stringify engine.digest
        (next_value s draft (get_last? s.audit_events))
      ≡ some event
  pub grown : t ≡ record s { audit_events = s.audit_events ++ event ∷ [] }

module _ (engine : Engine) where
  created-some :
      (o : Option StoredAuditEvent) {event : StoredAuditEvent}
      → created o ≡ return event
      → o ≡ some event
  created-some none p = absurd (ground arith)
  created-some (some event) p = ap some (return-injective p)

  pub append_audit_event-Appended :
      (draft : AuditDraft) (s : SessionStore) {t : SessionStore}
      → append_audit_event engine draft s ≡ return t
      → Appended engine draft s t
  unfolding append_audit_event
  append_audit_event-Appended draft s p =
      let (checked, _, q) =
        bind_returns (checked_tail (tail_error engine (get_last? s.audit_events))) _ p in
      let (event, c, z) =
        bind_returns
          (created (
            create_audit_event engine.stringify engine.digest
              (next_value s draft (get_last? s.audit_events))))
          _ q in
      let (unique, final) =
        require_returns (not (any (event_collides event) s.audit_events)) _ _ z in
      record { event = event; is_created = created-some _ c; grown = sym (return-injective final) }

  pub Appended-Keeps :
      {draft : AuditDraft} {s t : SessionStore} → Appended engine draft s t → Keeps s t
  Appended-Keeps {s = s} a =
      subst (Keeps s) (sym a.grown) (same_session s s.idempotency s.conflicts _)

-- The two events of an applied transition, one after the other.
pub append_applied_events-Appended :
    (engine : Engine) (fresh : Fresh) (input : PersistInput) (row : TransitionRow)
    (u : SessionStore) {t : SessionStore}
    → append_applied_events engine fresh input row u ≡ return t
    → (between : SessionStore) × Appended engine (decision_draft engine fresh input row) u between
      × Appended engine (applied_draft engine fresh input row) between t
unfolding append_applied_events
append_applied_events-Appended engine fresh input row u p =
    let (between, first, second) =
      bind_returns (append_audit_event engine (decision_draft engine fresh input row) u) _ p in
    (
      between,
      append_audit_event-Appended engine _ u first,
      append_audit_event-Appended engine _ between second,
    )

-- What an accepted transition has gone through.
pub record Accepted (engine : Engine) (fresh : Fresh) (input : PersistInput)
    (current : TransitionSessionRow) (s : SessionStore) (r : SessionTransitionResult × SessionStore)
    : Type 0 where
  pub planned : SessionStore
  pub persisted :
      persist_proof_plan engine fresh input input.bound_proof_plan current s ≡ return planned
  pub ends_once : can_end engine fresh input current ≡ true
  pub is_new : is_new_transition engine fresh input s current ≡ true
  pub audited :
      append_applied_events engine fresh input
        (transition_row engine fresh input s current)
        (written engine fresh input current planned)
      ≡ return r.1
  pub result : r.0 ≡ applied_result engine fresh input s current

module _ (engine : Engine) (fresh : Fresh) (input : PersistInput) (current : TransitionSessionRow)
    (s : SessionStore) where
  pub accept-Accepted :
      {r : SessionTransitionResult × SessionStore}
      → accept engine fresh input current s ≡ return r
      → Accepted engine fresh input current s r
  unfolding accept
  accept-Accepted p =
      let (planned, persisted, q) =
        bind_returns (persist_proof_plan engine fresh input input.bound_proof_plan current s) _ p in
      let (ends_once, z) = require_returns (can_end engine fresh input current) _ _ q in
      let (is_new, y) = require_returns (is_new_transition engine fresh input s current) _ _ z in
      let (t, audited, x) =
        bind_returns
          (append_applied_events engine fresh input (transition_row engine fresh input s current)
            (written engine fresh input current planned))
          _ y in
      record {
        planned = planned;
        persisted = persisted;
        ends_once = ends_once;
        is_new = is_new;
        audited = audited ∙ ap (λ r. return r.1) (return-injective x);
        result = ap (λ r. r.0) (sym (return-injective x));
      }
