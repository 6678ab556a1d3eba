-- ===== src/State/Review.antt =====
-- The methods of `HohStateStore` in src/llm_harness/state.py that carry a
-- task through review, rework, escalation and rollback.
use ho_h.Prelude.{
  String, Bool, true, not, ◌&&◌, ◌||◌, Option, none, some, List, [], ◌∷◌, ◌==◌, string_eq, bool_eq,
  format, if◌then◌else◌,
}
use ho_h.Prelude.Int.{ℤ, pos, lebℤ, ltbℤ, int_eq}
use ho_h.Prelude.Exec.{Result, ok, err, pure, raise, ◌>>=◌, ◌>>◌}
use ho_h.Prelude.Lists.{is_nil, any}
use ho_h.Prelude.Chars.{strip, is_empty}
use ho_h.Json.{Json, null, object, str, str_list}
use ho_h.Journal.{artifact, tool_result}
use ho_h.Domain.{WorkItem}
use ho_h.State.Records.{
  QueueTask, TaskStatus, queued, review_pending, rework_required, escalated, done, failed,
  rolled_back, status_eq, Error, state_store_error,
}
use ho_h.State.Store.{Action, record_event, get_task, replace_task, transition_event}
use ho_h.State.Queue.{require_status, lift, limit_message}
use ho_h.State.Results.{option_string_eq}

unfoldable pub attach_review_bundle : String → String → Action QueueTask
attach_review_bundle work_item_id bundle_id = do
  task ← get_task work_item_id
  require_status task review_pending "Only review-pending tasks can receive a review bundle: "
      work_item_id
  updated ←
      replace_task task
        (λ t. record t { pending_review_bundle_id = some bundle_id; last_error = none })
  record_event (record {
    event_type = artifact;
    actor = "supervisor";
    action = "review.bundle_attached";
    recipient = some "critic";
    content = object (("bundle_id", str bundle_id) ∷ []);
    task_id = some work_item_id;
    run_id = none;
    correlation_id = none;
  })
  pure updated

unfoldable pub fail_review_setup : String → String → Action QueueTask
fail_review_setup work_item_id error = do
  task ← get_task work_item_id
  require_status task review_pending "Task is not waiting for review setup: " work_item_id
  updated ← replace_task task (λ t. record t { status = failed; last_error = some error })
  transition_event updated task.status failed "review.setup_failed"
      (object (("error", str error) ∷ [])) none
  pure updated

-- `not task.pending_review_bundle_id`
abbrev pub no_bundle : Option String → Bool
no_bundle none = true
no_bundle (some bundle_id) = bundle_id == ""

abbrev pub optional : Option String → Json
optional none = null
optional (some s) = str s

unfoldable pub record_review_failure : String → String → Action QueueTask
record_review_failure work_item_id error = do
  task ← get_task work_item_id
  if not (task.status == review_pending) || no_bundle task.pending_review_bundle_id
      then raise (
          state_store_error
            (format ("Task is not waiting for critic review: " ∷ work_item_id ∷ [])))
      else do
        updated ← replace_task task (λ t. record t { last_error = some error })
        record_event (record {
          event_type = tool_result;
          actor = "critic";
          action = "critic.review_failed";
          recipient = some "supervisor";
          content =
              object
                (("error", str error) ∷ ("bundle_id", optional task.pending_review_bundle_id) ∷ []);
          task_id = some work_item_id;
          run_id = none;
          correlation_id = task.pending_review_bundle_id;
        })
        pure updated

-- The status and the error that a critic's decision leads to; `none` for an unsupported decision.
unfoldable pub outcome_of : String → String → Option (TaskStatus × Option String)
outcome_of decision summary =
    if decision == "approve"
    then some (done, none)
    else if decision == "reject"
    then some (rework_required, some summary)
    else if decision == "escalate"
    then some (escalated, some summary)
    else none

unfoldable pub resolve_review : String → String → String → String → String → Action QueueTask
resolve_review work_item_id bundle_id decision_id decision summary = do
  task ← get_task work_item_id
  require_status task review_pending "Task is not waiting for critic review: " work_item_id
  if not (task.pending_review_bundle_id == some bundle_id)
      then raise (
          state_store_error (
            format
              ("Critic decision does not match the pending bundle for task: " ∷ work_item_id ∷ [])))
      else elim (outcome_of decision summary) [
        | none ↦
            raise (state_store_error (format ("Unsupported critic decision: " ∷ decision ∷ [])))
        | some (status, error) ↦ do
          updated ← replace_task task (λ t. record t {
            status = status;
            pending_review_bundle_id = none;
            last_review_decision_id = some decision_id;
            last_error = error;
          })
          transition_event updated task.status status "critic.decision_applied"
              (object (
                ("decision", str decision)
                ∷ ("decision_id", str decision_id)
                ∷ ("summary", str summary)
                ∷ []))
              none
          pure updated
      ]

-- the guards of `confirm_rework` behind the status, in order
unfoldable pub check_rework : QueueTask → String → List String → ℤ → Result Error (Unit {0})
unfolding any strip
check_rework task decision_id instructions max_attempts =
    if not (task.last_review_decision_id == some decision_id)
    then err (
        state_store_error (
          format
            ("Correction brief does not match the latest critic decision: " ∷ decision_id ∷ [])))
    else if is_nil instructions || any (λ i. is_empty (strip i)) instructions
    then err (state_store_error "Supervisor-confirmed correction instructions must be non-empty.")
    else if ltbℤ max_attempts (pos 1)
    then err (state_store_error "Three-head max_attempts must be at least 1.")
    else ok tt

unfoldable pub confirm_rework : String → String → List String → ℤ → Action QueueTask
confirm_rework work_item_id decision_id instructions max_attempts = do
  task ← get_task work_item_id
  require_status task rework_required "Task is not awaiting supervisor-confirmed rework: "
      work_item_id
  lift (check_rework task decision_id instructions max_attempts)
  if lebℤ max_attempts task.attempts
      then (do
        updated ← replace_task task (λ t. record t {
          status = escalated;
          last_error =
              some (limit_message "Rework attempt limit reached" task.attempts max_attempts);
        })
        transition_event updated task.status escalated "rework.attempt_limit" null none
        pure updated)
      else do
        let item : WorkItem = record task.work_item {
          correction_instructions = instructions;
          correction_decision_id = some decision_id;
        }
        updated ← replace_task task (λ t. record t {
          status = queued;
          work_item = item;
          pending_review_bundle_id = none;
          last_error = none;
        })
        transition_event updated task.status queued "rework.supervisor_confirmed"
            (object
              (("decision_id", str decision_id) ∷ ("instructions", str_list instructions) ∷ []))
            none
        pure updated

-- The status, the error and the attempts after an operator's resolution.
unfoldable pub resolution_of : String → String → ℤ → Option (TaskStatus × Option String × ℤ)
resolution_of resolution reason attempts =
    if resolution == "requeue"
    then some (queued, none, pos 0)
    else if resolution == "fail"
    then some (failed, some reason, attempts)
    else none

unfoldable pub resolve_escalation : String → String → String → Action QueueTask
resolve_escalation work_item_id resolution reason = do
  task ← get_task work_item_id
  require_status task escalated "Only escalated tasks can be resolved: " work_item_id
  if is_empty (strip reason)
      then raise (state_store_error "Escalation resolution requires an operator reason.")
      else elim (resolution_of resolution reason task.attempts) [
        | none ↦
            raise
              (state_store_error (format ("Unsupported escalation resolution: " ∷ resolution ∷ [])))
        | some (status, error, attempts) ↦ do
          updated ← replace_task task (λ t. record t {
            status = status;
            attempts = attempts;
            pending_review_bundle_id = none;
            last_error = error;
          })
          transition_event updated task.status status "escalation.resolved"
              (object (("resolution", str resolution) ∷ ("reason", str reason) ∷ [])) none
          pure updated
      ]

abbrev pub rolled_back_message : String → String → String
rolled_back_message rollback_commit target_commit =
    format ("Rolled back by " ∷ rollback_commit ∷ "; target commit was " ∷ target_commit ∷ "." ∷ [])

unfoldable pub mark_rolled_back : String → String → String → Action QueueTask
mark_rolled_back work_item_id target_commit rollback_commit = do
  task ← get_task work_item_id
  let message = rolled_back_message rollback_commit target_commit
  if task.status == rolled_back && task.last_error == some message then pure task else do
    require_status task done "Only done tasks can be marked rolled back: " work_item_id
    updated ← replace_task task (λ t. record t { status = rolled_back; last_error = some message })
    transition_event updated task.status rolled_back "rollback.applied"
        (object
          (("target_commit", str target_commit) ∷ ("rollback_commit", str rollback_commit) ∷ []))
        none
    pure updated
