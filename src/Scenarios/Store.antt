-- ===== src/Scenarios/Store.antt =====
-- The theorems on calls of `applySessionTransition` at the session of the scenario.
use threadloop.Base.{
  arith, String, false, none, [], ◌≡◌, ◌≢◌, ◌==◌, string_eq, beq_refl, refl, sym, ap, subst,
}
use mathlib.Core.Option.{some-injective}
use threadloop.Task.{queued}
use threadloop.Json.Canonical.{canonicalize_json_value, from_entries, sorted_fields}
use threadloop.Store.{state_version_conflict, applied, failed, SessionStore, return, commit}
use threadloop.Store.History.{HistoryAuthority, assert_session_transition_history_authority}
use threadloop.Store.Apply.{applied_result, apply_session_transition}
use threadloop.Store.Outcome.Writes.{Keeps}
use threadloop.Store.Outcome.Applies.{Applies, apply_session_transition-applied}
use threadloop.Store.Outcome.Rejects.{apply_session_transition-failed}
use threadloop.Store.Outcome.Chains.{IsIntact, apply_session_transition-IsIntact}
use threadloop.Store.Outcome.Authority.{IsCanonical}
use threadloop.Store.Outcome.Growth.{Grows}
use threadloop.Store.Outcome.Progress.Returns.{AreNew, apply_session_transition-returns}
use threadloop.Lifecycle.Graph.{CanMove}
use threadloop.Scenarios.Hexadecimal.{digest-is_hex}
use threadloop.Store.Calls.{
  Calls, no_more, next_call, Calls-IsAuthoritative, apply_session_transition-retry,
}
use threadloop.Scenarios.Engine.{engine}
use threadloop.Scenarios.Session.{
  start, ask, run, framed_store, framing, refused_store, first, second, guards,
}

framed_run :
    apply_session_transition engine first (ask 0 "k1") guards start
    ≡ return (applied framing, framed_store)
unfolding run framed_store framing
framed_run = refl

apply_session_transition-applied_example :
    Applies engine first (ask 0 "k1") guards start framing framed_store
unfolding run
apply_session_transition-applied_example =
    apply_session_transition-applied engine first (ask 0 "k1") guards start framed_store framing
      refl framed_run

refused_run :
    apply_session_transition engine second (ask 0 "k2") guards framed_store
    ≡ return (failed (state_version_conflict 1), refused_store)
unfolding run refused_store framed_store
refused_run = refl

apply_session_transition-failed_example : Keeps framed_store refused_store
apply_session_transition-failed_example =
    apply_session_transition-failed engine second (ask 0 "k2") guards framed_store refused_store
      (state_version_conflict 1) refused_run

framed_IsIntact : IsIntact engine framed_store.audit_events
unfolding run framed_store
framed_IsIntact = refl

apply_session_transition-IsIntact_example : IsIntact engine refused_store.audit_events
apply_session_transition-IsIntact_example =
    apply_session_transition-IsIntact engine second (ask 0 "k2") guards framed_store refused_store
      (failed (state_version_conflict 1)) framed_IsIntact refused_run

-- The requests of the scenario are canonical.
canonical_first : IsCanonical engine first (ask 0 "k1") start
unfolding run canonicalize_json_value from_entries sorted_fields
canonical_first = record { canonical = refl; round_trips = refl; hashed = refl }

canonical_second : IsCanonical engine second (ask 0 "k2") framed_store
unfolding run canonicalize_json_value framed_store
canonical_second = record { canonical = refl; round_trips = refl; hashed = refl }

refused-Calls : Calls engine framed_store refused_store
refused-Calls = next_call second (ask 0 "k2") guards canonical_second (
    subst (λ s. Calls engine s refused_store)
      (sym (ap (λ m. (commit framed_store m).1) refused_run)) no_more)

framed_authority :
    assert_session_transition_history_authority engine framed_store
    ≡ return (record { history = framed_store.transitions; genesis_state = queued })
unfolding run framed_store
framed_authority = refl

Calls-IsAuthoritative_example :
    Grows framed_store refused_store
    × (after : HistoryAuthority) × (assert_session_transition_history_authority engine refused_store
        ≡ return after)
Calls-IsAuthoritative_example =
    Calls-IsAuthoritative engine
      (record { history = framed_store.transitions; genesis_state = queued }) refused-Calls
      framed_authority

apply_session_transition-retry_example :
    apply_session_transition engine second (ask 0 "k1") guards refused_store
    ≡ return (applied framing, refused_store)
unfolding run
apply_session_transition-retry_example =
    apply_session_transition-retry engine first second (ask 0 "k1") guards guards start framed_store
      refused_store (applied framing)
      (record { ended_at = none; status = queued; state_version = 0; blocked_from_state = none })
      refl refl refl canonical_first framed_run refused-Calls

authority_at_start : HistoryAuthority
authority_at_start = record { history = []; genesis_state = queued }

distinct : {a b : String} → (a == b) ≡ false → a ≢ b
distinct {a} {b} h e = ground (arith, beq_refl a)

-- The ids and the hashes of the framing are new.
new_names :
    AreNew engine first
      (ask 0 "k1")
      start
      (record { ended_at = none; status = queued; state_version = 0; blocked_from_state = none })
unfolding run
new_names = record {
  transition_id = tt;
  decision = ((distinct refl, distinct refl), tt);
  applied = ((distinct refl, distinct refl), ((distinct refl, distinct refl), tt));
}

apply_session_transition-returns_example :
    (t : SessionStore) × (apply_session_transition engine first (ask 0 "k1") guards start
      ≡ return (
        applied_result engine first (ask 0 "k1") start (record {
          ended_at = none;
          status = queued;
          state_version = 0;
          blocked_from_state = none;
        }),
        t,
      ))
unfolding run authority_at_start
apply_session_transition-returns_example =
    apply_session_transition-returns engine first (ask 0 "k1") start
      (record { ended_at = none; status = queued; state_version = 0; blocked_from_state = none })
      guards authority_at_start refl refl refl refl refl CanMove.frame
      (λ seen e. some-injective _ _ e) refl (λ plan e. absurd (ground arith)) (omega arith)
      (omega arith) digest-is_hex new_names
