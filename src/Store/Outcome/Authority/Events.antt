-- ===== src/Store/Outcome/Authority/Events.antt =====
-- The audit events of `applySessionTransition` as the assertion of authority reads them.
use mathlib.Core.Option.{some-injective}
use threadloop.Base.{
  Option, none, some, Bool, true, false, ◌≡◌, refl, sym, ap, ◌∙◌, subst, arith, get_last?, beq_refl,
  nat_eq, string_eq, if◌then◌else◌,
}
use threadloop.Json.{get, as_text}
use threadloop.Transition.Request.{status_text}
use threadloop.Audit.{StoredAuditEvent, create_audit_event}
use threadloop.Store.{Engine, TransitionRow, SessionStore}
use threadloop.Store.History.{event_matches_row, is_applied}
use threadloop.Store.History.Authoritative.{HasAuthority}
use threadloop.Store.History.Extends.{IsAuthoritative-decision}
use threadloop.Store.Ledger.{AuditDraft, next_value}
use threadloop.Store.Rejection.{PersistInput, Fresh}
use threadloop.Store.Apply.{applied_draft, applied_payload}
use threadloop.Store.Outcome.Writes.{Appended}
use threadloop.Store.Outcome.Chains.{IsIntact, Appended-IsIntact}

some-of_else : {A : Type 0} (b : Bool) {x y : A} → (if b then none else some x) ≡ some y → x ≡ y
some-of_else true p = absurd (ground arith)
some-of_else false p = some-injective _ _ p

module _ (engine : Engine) where
  pub create-value :
      (value : _) {event : StoredAuditEvent}
      → create_audit_event engine.stringify engine.digest value ≡ some event
      → event.value ≡ value
  unfolding create_audit_event
  create-value value p = ap (λ e. e.value) (sym (some-of_else _ p))

  -- The fields of an appended event that its place does not determine.
  pub drafted :
      (s : SessionStore) (draft : AuditDraft) (o : Option StoredAuditEvent)
      → ((next_value s draft o).event_type ≡ draft.event_type)
        × ((next_value s draft o).state_version ≡ draft.state_version)
        × ((next_value s draft o).payload ≡ draft.payload)
  drafted s draft none = (refl, refl, refl)
  drafted s draft (some event) = (refl, refl, refl)

  module _ {draft : AuditDraft} {s t : SessionStore} (m : Appended engine draft s t) where
    pub appended_type : m.event.value.event_type ≡ draft.event_type
    appended_type =
        ap (λ v. v.event_type) (create-value _ m.is_created)
        ∙ (drafted s draft (get_last? s.audit_events)).0

    pub appended_payload : m.event.value.payload ≡ draft.payload
    appended_payload =
        ap (λ v. v.payload) (create-value _ m.is_created)
        ∙ (drafted s draft (get_last? s.audit_events)).2

    -- A decision leaves the session authoritative.
    pub Appended-HasAuthority :
        is_applied draft.event_type ≡ false → HasAuthority engine s → HasAuthority engine t
    Appended-HasAuthority other a = subst (HasAuthority engine) (sym m.grown) (
        IsAuthoritative-decision engine s.session_id s.task_id a m.event
          (subst (IsIntact engine) (ap (λ u. u.audit_events) m.grown)
            (Appended-IsIntact engine m a.is_verified))
          (ap is_applied appended_type ∙ other))

  pub names-applied :
      (fresh : Fresh) (input : PersistInput) (row : TransitionRow)
      → as_text (get "transition_id" (applied_payload engine fresh input row)) ≡ some row.id
  unfolding applied_payload get as_text
  names-applied fresh input row = refl

  pub matches-applied :
      (fresh : Fresh) (input : PersistInput) (row : TransitionRow) (s : SessionStore)
      (o : Option StoredAuditEvent)
      → event_matches_row (next_value s (applied_draft engine fresh input row) o) row ≡ true
  unfolding event_matches_row applied_payload get
  matches-applied fresh input row s none =
      rw
        (
          beq_refl row.to_state_version,
          beq_refl row.from_state_version,
          beq_refl row.request_sha256,
          beq_refl (status_text row.from_state),
          beq_refl (status_text row.to_state),
        )
        refl
  matches-applied fresh input row s (some event) =
      rw
        (
          beq_refl row.to_state_version,
          beq_refl row.from_state_version,
          beq_refl row.request_sha256,
          beq_refl (status_text row.from_state),
          beq_refl (status_text row.to_state),
        )
        refl
