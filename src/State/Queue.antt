-- ===== src/State/Queue.antt =====
-- The methods of `HohStateStore` in src/llm_harness/state.py that move a task through the queue: the
-- bodies that `_state_mutation` runs with the lease held.
use ho_h.Prelude.{
  String, Bool, true, false, not, ◌&&◌, ◌||◌, Option, none, some, List, [], ◌∷◌, ◌++◌, map, ◌==◌,
  string_eq, format, join, if◌then◌else◌,
}
use ho_h.Prelude.Int.{ℤ, pos, lebℤ, show_int, int_eq}
use ho_h.Prelude.Exec.{Result, ok, err, pure, raise, ◌>>=◌, ◌>>◌}
use ho_h.Prelude.Lists.{any, find_first}
use ho_h.Json.{null, int, object, str, str_list}
use ho_h.Journal.{state_transition}
use ho_h.Domain.{WorkItem}
use ho_h.State.Records.{
  QueueTask, TaskStatus, queued, running, review_pending, rework_required, escalated, failed,
  status_eq, TaskReadiness, DependencyBlocker, Error, state_store_error, stop_iteration,
  index_error,
}
use ho_h.State.Store.{
  Action, utc_now, record_event, list_tasks, write_tasks, get_task, update_task, replace_task,
  transition_event,
}
use ho_h.State.Graph.{has_duplicates, validate_enqueue_graph, item_ids}
use ho_h.State.Schedule.{schedule, schedule_batch}

abbrev pub is_active : TaskStatus → Bool
is_active queued = true
is_active running = true
is_active review_pending = true
is_active rework_required = true
is_active escalated = true
is_active _ = false

unfoldable pub lift : {A : Type 0} → Result Error A → Action A
lift r w = (r, w)

-- the loop that refuses an item whose id is still active
unfoldable pub check_inactive : List QueueTask → List WorkItem → Result Error (Unit {0})
unfolding any
check_inactive tasks [] = ok tt
check_inactive tasks (item ∷ items) =
    if any (λ t. t.work_item.id == item.id && is_active t.status) tasks
    then err (
        state_store_error
          (format ("Task already has an active or unresolved lifecycle: " ∷ item.id ∷ [])))
    else check_inactive tasks items

unfoldable pub new_task : String → WorkItem × String → QueueTask
new_task now (item, source) = record {
  work_item = item;
  status = queued;
  source = source;
  added_at_utc = now;
  updated_at_utc = now;
  attempts = pos 0;
  last_commit = none;
  last_error = none;
  pending_review_bundle_id = none;
  last_review_decision_id = none;
}

-- the loop that journals the added tasks
unfoldable pub journal_added : List QueueTask → Action Unit
journal_added [] w = (ok tt, w)
journal_added (t ∷ ts) w =
    (do
      record_event (record {
        event_type = state_transition;
        actor = "supervisor";
        action = "task.enqueued";
        recipient = some "worker";
        content = object (
            ("from", null)
            ∷ ("to", str "queued")
            ∷ ("source", str t.source)
            ∷ ("priority", int t.work_item.priority)
            ∷ ("depends_on", str_list t.work_item.depends_on)
            ∷ []);
        task_id = some t.work_item.id;
        run_id = none;
        correlation_id = none;
      })
      journal_added ts)
      w

-- the guards of `enqueue_many`, in order
unfoldable pub check_batch : List QueueTask → List WorkItem → Result Error (Unit {0})
check_batch tasks items =
    if has_duplicates (item_ids items)
    then err (state_store_error "Enqueue batch must contain unique task ids.")
    else elim (check_inactive tasks items) [
      | err e ↦ err e
      | ok _ ↦ validate_enqueue_graph tasks items
    ]

abbrev pub items_of : List (WorkItem × String) → List WorkItem
items_of = map (λ p. p.0)

unfoldable pub enqueue_many : List (WorkItem × String) → Action (List QueueTask)
enqueue_many [] = pure []
enqueue_many (i ∷ is) = do
  tasks ← list_tasks
  lift (check_batch tasks (items_of (i ∷ is)))
  now ← utc_now
  let added = map (new_task now) (i ∷ is)
  write_tasks (tasks ++ added)
  journal_added added
  pure added

unfoldable pub first_of_batch : List QueueTask → Action QueueTask
first_of_batch [] = raise index_error
first_of_batch (t ∷ _) = pure t

unfoldable pub enqueue : WorkItem → String → Action QueueTask
enqueue item source = do added ← enqueue_many ((item, source) ∷ []); first_of_batch added

abbrev pub readiness_with_id : String → TaskReadiness → Bool
readiness_with_id work_item_id r = r.task.work_item.id == work_item_id

abbrev show_blocker : DependencyBlocker → String
show_blocker b = format (b.task_id ∷ "=" ∷ b.status ∷ [])

-- `readiness is None`: the error names the blockers of the waiting entry; `next` without a default
-- raises if there is none.
unfoldable pub not_ready : String → Option TaskReadiness → Error
not_ready work_item_id none = stop_iteration
not_ready work_item_id (some r) = state_store_error (
    format (
      "Task dependencies are not ready: "
      ∷ work_item_id
      ∷ " ("
      ∷ join ", " (map show_blocker r.blockers)
      ∷ ")."
      ∷ []))

unfoldable pub check_ready : String → List QueueTask → Result Error (Unit {0})
check_ready work_item_id tasks =
    elim (find_first (readiness_with_id work_item_id) (schedule tasks).ready) [
      | some _ ↦ ok tt
      | none ↦ err (
          not_ready work_item_id
            (find_first (readiness_with_id work_item_id) (schedule tasks).waiting))
    ]

-- `if task.status != expected: raise StateStoreError(message)`
unfoldable pub require_status : QueueTask → TaskStatus → String → String → Action Unit
require_status task expected message work_item_id =
    if task.status == expected
    then pure tt
    else raise (state_store_error (format (message ∷ work_item_id ∷ [])))

unfoldable pub mark_running : String → Action QueueTask
mark_running work_item_id = do
  task ← get_task work_item_id
  require_status task queued "Only queued tasks can start running: " work_item_id
  tasks ← list_tasks
  lift (check_ready work_item_id tasks)
  updated ← update_task work_item_id running (pos 1) none none
  transition_event updated task.status running "task.started" null none
  pure updated

-- f"{label} ({attempts}/{max_attempts})."
abbrev pub limit_message : String → ℤ → ℤ → String
limit_message label attempts max_attempts =
    format (label ∷ " (" ∷ show_int attempts ∷ "/" ∷ show_int max_attempts ∷ ")." ∷ [])

unfoldable pub escalate_attempt_limit : String → ℤ → Action QueueTask
escalate_attempt_limit work_item_id max_attempts = do
  task ← get_task work_item_id
  if not (task.status == queued) || not (lebℤ max_attempts task.attempts) then pure task else do
    updated ← replace_task task (λ t. record t {
      status = escalated;
      last_error = some (limit_message "Worker attempt limit reached" task.attempts max_attempts);
    })
    transition_event updated task.status escalated "worker.attempt_limit" null none
    pure updated

-- `max_attempts is not None and attempts >= max_attempts`
abbrev pub limit_reached : Option ℤ → ℤ → Option ℤ
limit_reached none attempts = none
limit_reached (some limit) attempts = if lebℤ limit attempts then some limit else none

-- `escalated.last_error or "Worker attempt limit reached."`
abbrev pub error_or_default : Option String → String
error_or_default none = "Worker attempt limit reached."
error_or_default (some message) = if message == "" then "Worker attempt limit reached." else message

unfoldable pub claim_selected : Option ℤ → Option QueueTask → Action (Option QueueTask)
claim_selected max_attempts none = pure none
claim_selected max_attempts (some selected) = elim (limit_reached max_attempts selected.attempts) [
  | some limit ↦ do
    escalated_task ← escalate_attempt_limit selected.work_item.id limit
    raise (state_store_error (error_or_default escalated_task.last_error))
  | none ↦ do task ← mark_running selected.work_item.id; pure (some task)
]

unfoldable pub claim_next : Option ℤ → Action (Option QueueTask)
claim_next max_attempts = do
  tasks ← list_tasks
  claim_selected max_attempts (schedule tasks).selected

unfoldable pub mark_each : List QueueTask → Action (List QueueTask)
mark_each [] = pure []
mark_each (t ∷ ts) = do
  started ← mark_running t.work_item.id
  rest ← mark_each ts
  pure (started ∷ rest)

unfoldable pub claim_batch : ℤ → Action (List QueueTask)
claim_batch limit = do
  tasks ← list_tasks
  batch ← lift (schedule_batch limit tasks)
  mark_each batch

unfoldable pub requeue_failed : String → Action QueueTask
requeue_failed work_item_id = do
  task ← get_task work_item_id
  require_status task failed "Only failed tasks can be retried: " work_item_id
  updated ← update_task work_item_id queued (pos 0) task.last_commit none
  transition_event updated task.status queued "task.retry_confirmed" null none
  pure updated

unfoldable pub recover_running : String → String → Action QueueTask
recover_running work_item_id reason = do
  task ← get_task work_item_id
  require_status task running "Only running tasks can be recovered: " work_item_id
  updated ← update_task work_item_id queued (pos 0) task.last_commit (some reason)
  transition_event updated task.status queued "task.recovered"
      (object (("reason", str reason) ∷ [])) none
  pure updated
