-- ===== src/Scenarios/Completed.antt =====
-- The run of `transitionSession` that completes the session that was handed over.
use threadloop.Base.{true, ◌≡◌, refl}
use threadloop.Store.{
  AppliedTransition, SessionTransitionResult, applied, SessionStore, return, throw, invalid_state,
}
use threadloop.Session.Transition.Applied.{Finished, transition_session-Finished}
use threadloop.Review.Evidence.{
  receipt_evidence, is_foreign, review_evidence_from_artifact, insert_descending, sort_descending,
  build_in_toto_review_statement,
}
use threadloop.Transition.Guards.{
  evaluate_review_owned_guards, is_current_review, evaluate_current_review,
}
use threadloop.Review.{has_blocking_review, has_current_human_approval, is_human_approval}
use threadloop.Session.Transition.Run.{review_inputs, preliminary, planless_context}
use threadloop.Session.Proof.{unevaluated}
use threadloop.Scenarios.Session.{first, report, store_of}
use threadloop.Session.Transition.Run.{
  transition_session, after_lifecycle, has_session_transition_idempotency, guard_inputs, apply_with,
  proof_inputs, observed_inputs, session_phase,
}
use threadloop.Session.Transition.{
  read_session_lifecycle, caught, mapped, fields_of, history_entry, is_review_requirement, Attempt,
  done, fails,
}
use threadloop.Session.Proof.{
  evaluate_session_proof, bind_stored_proof_plan, canonicalize_proof_plan, validate_proof_plan,
  plan_version, is_legacy, is_version_4, evaluate_bound,
}
use threadloop.Review.Evidence.{evaluate_review_evidence}
use threadloop.Session.Basis.Context.{
  build_proof_guard_context, context_with, work_basis, repaired_from, ci_proof_status,
}
use threadloop.Session.Basis.{
  implementation_basis, unreviewed_basis, baseline, latest_failure, latest_implementation_entry,
  is_implementation_entry, is_repair_entry, sort_down, insert_down, is_verified_failure,
  entry_review, failed_head, repair_basis, committed_from, has_committed_diff,
}
use threadloop.Session.Files.{
  read_receipt_artifact_digests, read_controlled_signed_receipt_package_contents, fill_map,
  artifact_digest, package_content, bounded_text, controlled_path, escapes, starts_with,
  execution_outputs_are_valid, execution_is_valid, setup_is_valid, is_not_null, streams_are_valid,
  output_reference_is_valid, output_digest_matches,
}
use threadloop.Transition.Guards.{
  requires_proof_guard_context, evaluate_proof_owned_guards, guard_with_authority,
  guard_review_entry, evaluate_transition_guards, get_transition_guard_requirement,
}
use threadloop.Proof.{review_trust_policy, ci_trust_policy}
use threadloop.Store.Apply.{
  apply_session_transition, first_use, decide, accept, persist_proof_plan, append_applied_events,
  decision_payload, applied_payload,
}
use threadloop.Store.Rejection.{persist_rejected_transition, append_rejection, replay}
use threadloop.Store.Ledger.{
  append_audit_event, event_collides, read_evidence_watermark, is_same_watermark,
}
use threadloop.Store.History.{
  assert_session_transition_history_authority, read_verified_audit_events,
  read_session_audit_genesis, check_rows, row_is_valid, row_continues, row_is_bound,
  event_matches_row, event_is_covered, applied_events,
}
use threadloop.Store.{is_corrupted}
use threadloop.Lifecycle.{
  evaluate_lifecycle_transition, derive_lifecycle_phase, is_forward_lifecycle_transition,
}
use threadloop.Transition.Input.{
  validate_transition_evidence, read_pre_pr_review_evidence, requires_pre_pr_review,
}
use threadloop.Audit.{
  create_audit_event, verify_audit_chain, verify_events, check_event, conclude, event_json,
  event_object,
}
use threadloop.Json.Canonical.{canonical_json, canonicalize_json_value, from_entries, sorted_fields}
use threadloop.Json.{get, as_text, as_object}
use threadloop.Transition.Request.{read_status, canonicalize_transition_request, request_object}
use threadloop.Base.{is_hex_of_length}
use threadloop.Proof.Receipt.{
  evaluate_proof_evidence, parse_and_validate_receipt, disagrees, is_stale, status_of, receipt_ids,
}
use threadloop.Proof.Evidence.{aggregate_gate_status}
use threadloop.Proof.Setup.{
  recorded_setup_violation, violation_of, first_mismatch, first_non_passing, command_ran,
}
use threadloop.Proof.Latest.{latest_by, insert_by, sort_by, set_all}
use threadloop.Scenarios.Engine.{writer, checksum, engine}
use threadloop.Package.Ci.{
  evaluate_ci_proof_evidence, ci_status, is_corrupt, gate_value, build_in_toto_receipt_statement,
}
use threadloop.Package.{
  reverify_stored_package, parse_signed_envelope, bind_signed_statement, matches_stored, is_same,
}
use threadloop.Scenarios.Handover.{git}
use threadloop.Scenarios.Completion.{store, readers, files, snapshots, request}

unfoldable run : Attempt (SessionTransitionResult × SessionStore)
unfolding receipt_evidence is_foreign review_evidence_from_artifact insert_descending
    sort_descending build_in_toto_review_statement evaluate_review_owned_guards is_current_review
    evaluate_current_review has_blocking_review has_current_human_approval is_human_approval
    review_inputs preliminary planless_context unevaluated transition_session after_lifecycle
    has_session_transition_idempotency guard_inputs apply_with proof_inputs observed_inputs
    session_phase read_session_lifecycle caught mapped fields_of history_entry is_review_requirement
    evaluate_session_proof bind_stored_proof_plan canonicalize_proof_plan validate_proof_plan
    plan_version is_legacy is_version_4 evaluate_bound evaluate_review_evidence
    build_proof_guard_context context_with work_basis repaired_from implementation_basis
    unreviewed_basis baseline latest_failure latest_implementation_entry is_implementation_entry
    is_repair_entry sort_down insert_down is_verified_failure entry_review failed_head repair_basis
    committed_from has_committed_diff ci_proof_status read_receipt_artifact_digests
    read_controlled_signed_receipt_package_contents fill_map artifact_digest package_content
    bounded_text controlled_path escapes starts_with execution_outputs_are_valid execution_is_valid
    setup_is_valid is_not_null streams_are_valid output_reference_is_valid output_digest_matches
    requires_proof_guard_context evaluate_proof_owned_guards guard_with_authority guard_review_entry
    review_trust_policy apply_session_transition first_use decide accept persist_proof_plan
    append_applied_events decision_payload applied_payload persist_rejected_transition
    append_rejection replay append_audit_event event_collides read_evidence_watermark
    is_same_watermark assert_session_transition_history_authority read_verified_audit_events
    read_session_audit_genesis check_rows row_is_valid row_continues row_is_bound event_matches_row
    event_is_covered applied_events is_corrupted evaluate_lifecycle_transition
    derive_lifecycle_phase is_forward_lifecycle_transition evaluate_transition_guards
    get_transition_guard_requirement validate_transition_evidence read_pre_pr_review_evidence
    requires_pre_pr_review create_audit_event verify_audit_chain verify_events check_event conclude
    event_json event_object canonical_json get as_text read_status canonicalize_transition_request
    request_object as_object is_hex_of_length evaluate_proof_evidence parse_and_validate_receipt
    disagrees is_stale status_of receipt_ids aggregate_gate_status recorded_setup_violation
    violation_of first_mismatch first_non_passing command_ran latest_by insert_by sort_by set_all
    writer checksum canonicalize_json_value from_entries sorted_fields evaluate_ci_proof_evidence
    ci_trust_policy ci_status is_corrupt reverify_stored_package parse_signed_envelope
    bind_signed_statement matches_stored is_same gate_value build_in_toto_receipt_statement store
    readers files snapshots engine
run = transition_session engine readers files git snapshots request first store

stored_by : Attempt (SessionTransitionResult × SessionStore) → SessionStore
unfolding store_of store
stored_by (done r) = store_of (return r)
stored_by (fails e) = store

reported_by : Attempt (SessionTransitionResult × SessionStore) → AppliedTransition
unfolding report
reported_by (done r) = report (return r)
reported_by (fails e) = report (throw invalid_state)

entered_store : SessionStore
unfolding run stored_by
entered_store = stored_by run

entry : AppliedTransition
unfolding run reported_by
entry = reported_by run

run_enters : run ≡ done (applied entry, entered_store)
unfolding run entered_store entry
run_enters = refl

transition_session-Finished_example :
    Finished engine readers files git snapshots request
    × (is_same_watermark
          (read_evidence_watermark store)
          (read_evidence_watermark snapshots.at_watermark)
        ≡ true)
unfolding run entry
transition_session-Finished_example =
    transition_session-Finished engine readers files git snapshots request first store entered_store
      entry refl run_enters refl
