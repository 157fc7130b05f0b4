-- ===== src/Transition/Request.antt =====
-- `canonicalizeTransitionRequest` of src/domain/session-transition.ts, and the words of its states.
use threadloop.Base.{ℕ, String, Option, none, some, if◌then◌else◌, ◌==◌, string_eq}
use threadloop.Task.{
  TaskStatus, queued, framed, proof_ready, implementing, verifying, pre_pr_reviewing, reviewing,
  repairing, ready_for_human, blocked, completed, EntrySource, cli, agent,
}
use threadloop.Json.{Value, Fields}
use threadloop.Json.Canonical.{canonicalize_json_value}

abbrev pub status_text : TaskStatus → String
status_text queued = "queued"
status_text framed = "framed"
status_text proof_ready = "proof_ready"
status_text implementing = "implementing"
status_text verifying = "verifying"
status_text pre_pr_reviewing = "pre_pr_reviewing"
status_text reviewing = "reviewing"
status_text repairing = "repairing"
status_text ready_for_human = "ready_for_human"
status_text blocked = "blocked"
status_text completed = "completed"

-- `isTaskStatus`, with the status that the text names.
unfoldable pub read_status : String → Option TaskStatus
read_status s =
    if s == "queued"
    then some queued
    else if s == "framed"
    then some framed
    else if s == "proof_ready"
    then some proof_ready
    else if s == "implementing"
    then some implementing
    else if s == "verifying"
    then some verifying
    else if s == "pre_pr_reviewing"
    then some pre_pr_reviewing
    else if s == "reviewing"
    then some reviewing
    else if s == "repairing"
    then some repairing
    else if s == "ready_for_human"
    then some ready_for_human
    else if s == "blocked"
    then some blocked
    else if s == "completed"
    then some completed
    else none

abbrev pub actor_text : EntrySource → String
actor_text cli = "cli"
actor_text agent = "agent"

pub record TransitionRequest : Type 0 where
  pub session_id : String
  pub target_state : TaskStatus
  pub expected_state_version : ℕ
  pub actor : EntrySource
  pub input : Value

pub record CanonicalTransitionRequest : Type 0 where
  pub canonical_input : Value
  pub request_json : String
  pub request_sha256 : String

unfoldable pub request_object : TransitionRequest → Value → Value
request_object request canonical_input = Value.object (
    Fields.field "actor" (Value.text (actor_text request.actor)) (
      Fields.field "expected_state_version" (Value.number request.expected_state_version) (
        Fields.field "input" canonical_input (
          Fields.field "session_id" (Value.text request.session_id) (
            Fields.field "target_state" (Value.text (status_text request.target_state))
              Fields.end)))))

unfoldable pub canonicalize_transition_request :
    (Value → String) → (String → String) → TransitionRequest → CanonicalTransitionRequest
canonicalize_transition_request stringify digest request =
    let input = canonicalize_json_value request.input in
    let json = stringify (request_object request input) in
    record { canonical_input = input; request_json = json; request_sha256 = digest json }
