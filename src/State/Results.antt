-- ===== src/State/Results.antt =====
-- `record_result` and `record_failure` of src/llm_harness/state.py: the bodies that `_state_mutation`
-- runs with the lease held.
use ho_h.Prelude.{
  String, Bool, false, not, ◌&&◌, Option, none, some, List, [], ◌∷◌, ◌++◌, map, Eq, ◌==◌,
  String-discrete, string_eq, bool_eq, format, join, if◌then◌else◌,
}
use ho_h.Prelude.Int.{pos, show_int, int_eq}
use ho_h.Prelude.Exec.{ok, pure, raise, gets, ◌>>=◌, ◌>>◌}
use ho_h.Prelude.Lists.{find_first, keep}
use ho_h.Json.{flag, object, str}
use ho_h.Domain.{HarnessRunResult, CommandResult, run_ok, command_ok}
use ho_h.State.Records.{
  QueueTask, TaskStatus, running, review_pending, done, failed, status_eq, show_status, RunRecord,
  state_store_error,
}
use ho_h.State.Store.{Action, utc_now, uuid4, get_task, update_task, transition_event}

instance unfoldable pub option_string_eq : Eq (Option String)
option_string_eq = record { dec = hlevel String-discrete }

abbrev show_failed : CommandResult → String
show_failed c = format (c.command ∷ " exited " ∷ show_int c.return_code ∷ [])

abbrev error_of : List String → List CommandResult → Option String → Option String
error_of (f ∷ fs) failed_commands commit = some (join "; " (f ∷ fs))
error_of [] (c ∷ cs) commit = some (join "; " (map show_failed (c ∷ cs)))
error_of [] [] none = some "No commit was created."
error_of [] [] (some _) = none

-- `_result_error`
unfoldable pub result_error : HarnessRunResult → Option String
unfolding keep command_ok
result_error result =
    error_of (result.pre_apply.findings ++ result.post_apply.findings)
      (keep (λ c. not (command_ok c)) result.command_results) result.commit

-- `error or _result_error(result)`
abbrev pub or_result_error : Option String → HarnessRunResult → Option String
or_result_error none result = result_error result
or_result_error (some message) result = if message == "" then result_error result else some message

unfoldable pub status_of_result : Bool → Bool → TaskStatus
status_of_result is_ok review_required =
    if is_ok && review_required then review_pending else if is_ok then done else failed

-- `run_id or str(uuid4())`
unfoldable pub select_run_id : Option String → Action String
select_run_id none = uuid4
select_run_id (some run_id) = if run_id == "" then uuid4 else pure run_id

abbrev pub run_with_id : String → RunRecord → Bool
run_with_id run_id run = run.run_id == run_id

abbrev pub same_evidence : String → HarnessRunResult → RunRecord → Bool
same_evidence work_item_id result run =
    run.work_item_id == work_item_id && run.commit == result.commit && (run.is_ok == run_ok result)

-- the guard of `record_result` on the current task, and the task after it
unfoldable pub settle_task :
    String → QueueTask → TaskStatus → Option String → Option String → Action QueueTask
settle_task work_item_id current status commit expected_error =
    if current.status == status
      && current.last_commit == commit
      && current.last_error == expected_error
    then pure current
    else if current.status == running
    then update_task work_item_id status (pos 0) commit expected_error
    else raise (
        state_store_error (
          format (
            "Only a running task can record a new result: "
            ∷ work_item_id
            ∷ "="
            ∷ show_status current.status
            ∷ [])))

unfoldable pub append_history : RunRecord → Action (Unit {0})
append_history record' w =
    (ok tt, record w { store = record w.store { history = w.history ++ record' ∷ [] } })

-- the event of `record_result`, given only when the task was running
abbrev pub record_if : Bool → Action (Unit {0}) → Action (Unit {0})
record_if b m = if b then m else pure tt

abbrev pub new_run : String → HarnessRunResult → String → String → QueueTask → RunRecord
new_run started_at result run_id finished_at task = record {
  run_id = run_id;
  work_item_id = task.work_item.id;
  started_at_utc = started_at;
  finished_at_utc = finished_at;
  is_ok = run_ok result;
  commit = result.commit;
  error = task.last_error;
  pre_apply_findings = result.pre_apply.findings;
  post_apply_findings = result.post_apply.findings;
  command_results = result.command_results;
  semantic_verification = result.semantic_verification;
}

-- the end of `record_result`, with the task before and after the result
unfoldable pub finish_run :
    String → HarnessRunResult → Bool → String → String → QueueTask → QueueTask → Action RunRecord
finish_run started_at result review_required run_id finished_at current task = do
  append_history (new_run started_at result run_id finished_at task)
  record_if (current.status == running) (
      transition_event task running (status_of_result (run_ok result) review_required)
        "task.run_recorded" (object (("ok", flag (run_ok result)) ∷ [])) (some run_id))
  pure (new_run started_at result run_id finished_at task)

-- `record_result` for a run id that history does not hold
unfoldable pub record_new_run :
    String → String → HarnessRunResult → Option String → Bool → String → String → Action RunRecord
record_new_run work_item_id started_at result error review_required run_id finished_at = do
  current ← get_task work_item_id
  let status = status_of_result (run_ok result) review_required
  task ← settle_task work_item_id current status result.commit (or_result_error error result)
  finish_run started_at result review_required run_id finished_at current task

-- `record_result` with the run that has the id already, if there is one
unfoldable pub record_selected :
    String
    → String
    → HarnessRunResult
    → Option String
    → Bool
    → String
    → String
    → Option RunRecord
    → Action RunRecord
record_selected work_item_id started_at result error review_required run_id finished_at none =
    record_new_run work_item_id started_at result error review_required run_id finished_at
record_selected work_item_id started_at result error review_required run_id finished_at
      (some existing) =
    if same_evidence work_item_id result existing
    then pure existing
    else raise (
        state_store_error
          (format ("Run id already exists with different evidence: " ∷ run_id ∷ [])))

unfoldable pub record_result :
    String → String → HarnessRunResult → Option String → Bool → Option String → Action RunRecord
record_result work_item_id started_at result error review_required run_id = do
  finished_at ← utc_now
  selected ← select_run_id run_id
  history ← gets (λ w. w.history)
  record_selected work_item_id started_at result error review_required selected finished_at
      (find_first (run_with_id selected) history)

unfoldable pub record_failure : String → String → String → Action RunRecord
record_failure work_item_id started_at error = do
  task ← update_task work_item_id failed (pos 0) none (some error)
  now ← utc_now
  run_id ← uuid4
  let run : RunRecord = record {
    run_id = run_id;
    work_item_id = task.work_item.id;
    started_at_utc = started_at;
    finished_at_utc = now;
    is_ok = false;
    commit = none;
    error = some error;
    pre_apply_findings = [];
    post_apply_findings = [];
    command_results = [];
    semantic_verification = none;
  }
  append_history run
  transition_event task running failed "task.failed" (object (("error", str error) ∷ []))
      (some run_id)
  pure run
