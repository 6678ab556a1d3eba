-- ===== src/Tests/Examples.antt =====
-- The theorems of the library at concrete inputs.
use ho_h.Domain.{checked}
use ho_h.Prelude.{
  arith, eq_of_==, ◌==◌, string_eq, Bool-cases, inl, inr, sym, subst, ap, ◌≢◌, ◌⊎◌, String, true,
  false, none, some, List, [], ◌∷◌, ◌≡◌, refl, String-discrete, not, ◌||◌, if◌then◌else◌,
}
use ho_h.Prelude.Dict.{lookup}
use ho_h.Prelude.Int.{ℤ, pos, ◌≤ℤ◌}
use ho_h.Prelude.Exec.{ok, err}
use ho_h.Prelude.Lists.{All, length}
use ho_h.Json.{object, str}
use ho_h.Journal.{redact}
use ho_h.Journal.Redaction.{IsRedacted, redact-IsRedacted}
use ho_h.State.Records.{QueueTask, queued, running, done}
use ho_h.State.Store.{find_task, updated}
use ho_h.State.Graph.{latest_tasks_by_id}
use ho_h.State.Schedule.{schedule, schedule_batch}
use ho_h.State.Schedule.Ready.{IsReady, schedule-IsReady}
use ho_h.State.Schedule.Batch.{IsCompatible, schedule_batch-IsCompatible}
use ho_h.State.Queue.{mark_running}
use ho_h.State.Ledger.{record_review_decision, record_rollback, set_telegram_update_offset}
use ho_h.State.Operations.{enqueue_many_op, mark_running_op, perform, run_all}
use ho_h.State.Lifecycle.{Goes, IsWellFormed}
use ho_h.State.Lifecycle.Permits.{permits_under}
use ho_h.State.Lifecycle.Reach.{perform-permits, run_all-IsWellFormed}
use ho_h.State.Claims.{
  IsStartable, IsStarted, mark_running-IsStartable, set_telegram_update_offset-grows,
}
use ho_h.State.Immutable.{
  IsUnique, record_review_decision-IsUnique, record_review_decision-repeated,
  record_rollback-repeated,
}
use ho_h.State.Encode.{
  task_to_json, run_to_json, rollback_record_to_json, operator_event_to_json,
  review_decision_to_json,
}
use ho_h.State.Decode.{
  task_from_json, run_from_json, rollback_record_from_json, operator_event_from_json,
  review_decision_from_json,
}
use ho_h.State.RoundTrip.{
  task_from_json-task_to_json, run_from_json-run_to_json,
  rollback_record_from_json-rollback_record_to_json,
  operator_event_from_json-operator_event_to_json,
  review_decision_from_json-review_decision_to_json,
}
use ho_h.State.Paths.{
  IsLawful, audit_record_to_json, audit_record_from_json, review_bundle_record_to_json,
  review_bundle_record_from_json, audit_record_from_json-audit_record_to_json,
  review_bundle_record_from_json-review_bundle_record_to_json,
}
use ho_h.State.Results.{record_result}
use ho_h.State.Decisions.{IsApplied, resolve_review-IsApplied}
use ho_h.State.Repeated.{record_result-repeated}
use Prim.Native.Nat.{◌+◌}
use ho_h.Commands.{shell_operators, default_policy, resolve, child_environment}
use ho_h.Commands.Safety.{HasNoOperator, IsAllowed, resolve-IsAllowed, lookup-child_environment}
use ho_h.Jobs.{get_job, complete, completion_for, JobStatus, complete_op, step, value_error}
use ho_h.Jobs.Tokens.{IsAuthentic, Reports, complete-get_job, complete-refused, step-IsAuthentic}
use ho_h.Tests.Samples.{
  item, task, patterns, world, three_tasks, decision_record, rollback, run, operator_event, python,
  platform, job, completion, job_world, pathlib, audit, bundle, good_result, good_run,
  running_world, reviewed, approved,
}

perform-permits_example :
    Goes
      (permits_under (world three_tasks).contended (mark_running_op "b"))
      three_tasks
      (perform (mark_running_op "b") (world three_tasks)).1.tasks
perform-permits_example = perform-permits (mark_running_op "b") (world three_tasks)

run_all-IsWellFormed_example :
    IsWellFormed
      (run_all
        (enqueue_many_op ((item "a" [] [], "plan") ∷ []) ∷ mark_running_op "a" ∷ [])
        (world [])).tasks
run_all-IsWellFormed_example =
    run_all-IsWellFormed
      (enqueue_many_op ((item "a" [] [], "plan") ∷ []) ∷ mark_running_op "a" ∷ []) (world []) refl

schedule-IsReady_example :
    All (λ r. IsReady (latest_tasks_by_id three_tasks) r.task) (schedule three_tasks).ready
schedule-IsReady_example = schedule-IsReady three_tasks

record_review_decision-IsUnique_example :
    IsUnique (record_review_decision decision_record (world [])).1.review_decisions
record_review_decision-IsUnique_example =
    record_review_decision-IsUnique decision_record (world []) tt

set_telegram_update_offset-grows_example :
    (later : ℤ) × ((set_telegram_update_offset (pos 3) (world [])).1.telegram_offset ≡ some later)
    × (pos 7 ≤ℤ later)
    × (pos 3 ≤ℤ later)
set_telegram_update_offset-grows_example =
    set_telegram_update_offset-grows (pos 3) (pos 7) (world []) refl

task_from_json-task_to_json_example :
    task_from_json python (task_to_json (task queued (item "a" ("b" ∷ []) [])))
    ≡ ok (task queued (item "a" ("b" ∷ []) []))
task_from_json-task_to_json_example =
    task_from_json-task_to_json python (task queued (item "a" ("b" ∷ []) []))

rollback_record_from_json-rollback_record_to_json_example :
    rollback_record_from_json python (rollback_record_to_json rollback) ≡ ok rollback
rollback_record_from_json-rollback_record_to_json_example =
    rollback_record_from_json-rollback_record_to_json python rollback

operator_event_from_json-operator_event_to_json_example :
    operator_event_from_json python (operator_event_to_json operator_event) ≡ ok operator_event
operator_event_from_json-operator_event_to_json_example =
    operator_event_from_json-operator_event_to_json python operator_event

review_decision_from_json-review_decision_to_json_example :
    review_decision_from_json python (review_decision_to_json decision_record) ≡ ok decision_record
review_decision_from_json-review_decision_to_json_example =
    review_decision_from_json-review_decision_to_json python decision_record

redact-IsRedacted_example :
    IsRedacted patterns
      (object (("token", str "sk-1") ∷ ("note", str "sk-1") ∷ []))
      (redact (object (("token", str "sk-1") ∷ ("note", str "sk-1") ∷ [])) patterns)
redact-IsRedacted_example =
    redact-IsRedacted (object (("token", str "sk-1") ∷ ("note", str "sk-1") ∷ [])) patterns

lookup-child_environment_example :
    lookup "API_TOKEN"
      (child_environment platform default_policy (("PATH", "/bin") ∷ ("API_TOKEN", "x") ∷ []))
    ≡ (if default_policy.inherit_secret_environment || not (platform.is_secret "API_TOKEN")
        then lookup "API_TOKEN" (("PATH", "/bin") ∷ ("API_TOKEN", "x") ∷ [])
        else none)
lookup-child_environment_example =
    lookup-child_environment platform default_policy (("PATH", "/bin") ∷ ("API_TOKEN", "x") ∷ [])
      "API_TOKEN"

run_from_json-run_to_json_example : run_from_json python (run_to_json run) ≡ ok run
unfolding checked String-discrete
run_from_json-run_to_json_example = run_from_json-run_to_json python run refl

abbrev started_b : QueueTask
started_b = record (task running (item "b" ("a" ∷ []) ("src" ∷ []))) {
  attempts = pos 1;
  updated_at_utc = "t1";
}

mark_running-IsStartable_example :
    IsStartable "b" three_tasks
    × ((t : QueueTask) × (find_task "b" three_tasks ≡ some t)
        × (t.status ≡ queued)
        × IsStarted (world three_tasks) t started_b)
unfolding mark_running ho_h.Prelude.Exec.◌>>=◌ ho_h.State.Store.get_task String-discrete
    ho_h.State.Queue.require_status ho_h.State.Records.TaskStatus-discrete
    ho_h.State.Store.list_tasks ho_h.State.Queue.lift ho_h.State.Queue.check_ready
    ho_h.Prelude.Lists.find_first schedule lookup ho_h.State.Graph.dependency_blockers
    latest_tasks_by_id ho_h.Prelude.Dict.put ho_h.Prelude.ℕ_discrete ho_h.State.Store.update_task
    ho_h.State.Store.transition_event ho_h.State.Store.record_event ho_h.Prelude.Int.◌+ℤ◌
    ho_h.Prelude.Exec.pure ho_h.Prelude.Int.ℤ-discrete ho_h.Prelude.Lists.find_last
    ho_h.Prelude.Lists.keep ho_h.Prelude.Exec.raise ho_h.State.Graph.dependency_status
    ho_h.State.Store.find_task
mark_running-IsStartable_example = mark_running-IsStartable "b" (world three_tasks) started_b refl

schedule_batch-IsCompatible_example :
    IsCompatible (task queued (item "b" ("a" ∷ []) ("src" ∷ [])) ∷ [])
    × All
        (IsReady (latest_tasks_by_id three_tasks))
        (task queued (item "b" ("a" ∷ []) ("src" ∷ [])) ∷ [])
    × (pos 1 ≤ℤ pos 2)
unfolding schedule_batch ho_h.State.Records.TaskStatus-discrete lookup
    ho_h.State.Graph.dependency_blockers String-discrete latest_tasks_by_id ho_h.Prelude.Dict.put
    ho_h.Prelude.Int.ℤ-discrete ho_h.Prelude.ℕ_discrete
schedule_batch-IsCompatible_example =
    schedule_batch-IsCompatible (pos 2) three_tasks
      (task queued (item "b" ("a" ∷ []) ("src" ∷ [])) ∷ []) refl

record_review_decision-repeated_example :
    record_review_decision decision_record (record_review_decision decision_record (world [])).1
    ≡ (ok decision_record, (record_review_decision decision_record (world [])).1)
unfolding record_review_decision ho_h.Prelude.Exec.◌>>=◌ ho_h.State.Ledger.settle_decision
    ho_h.State.Ledger.decision_clash ho_h.State.Ledger.append_decision ho_h.State.Store.record_event
record_review_decision-repeated_example =
    record_review_decision-repeated decision_record decision_record (world []) refl

record_rollback-repeated_example :
    record_rollback rollback (record_rollback rollback (world [])).1
    ≡ (ok rollback, (record_rollback rollback (world [])).1)
unfolding record_rollback ho_h.Prelude.Exec.◌>>=◌ ho_h.State.Ledger.settle_rollback
    ho_h.Prelude.Lists.find_first ho_h.State.Ledger.append_rollback ho_h.State.Store.record_event
record_rollback-repeated_example = record_rollback-repeated rollback rollback (world []) refl

resolve-IsAllowed_example :
    (platform.split "pytest" ≡ ok ("pytest" ∷ []))
    × HasNoOperator (platform.lex "pytest")
    × ((program : String) × (args : List String) × ("pytest" ∷ [] ≡ program ∷ args)
        × IsAllowed platform default_policy program)
unfolding resolve ho_h.Prelude.Chars.is_empty ho_h.Prelude.Chars.strip ho_h.Commands.check_parsed
    String-discrete ho_h.Commands.check_program ho_h.Prelude.contains ho_h.Prelude.Chars.casefold
    shell_operators ho_h.Commands.operators_in ho_h.Prelude.Lists.keep ho_h.Commands.executable_name
    ho_h.Commands.strip_first_suffix ho_h.Commands.without_suffix
    ho_h.Commands.is_running_interpreter
resolve-IsAllowed_example = resolve-IsAllowed platform default_policy "pytest" ("pytest" ∷ []) refl

complete-get_job_example :
    (status : JobStatus) × ((complete (completion "t1") job_world).0
      ≡ ok (record job { status = status }))
    × (get_job "j1" (complete (completion "t1") job_world).1 ≡ ok (record job { status = status }))
    × (completion_for "j1" (complete (completion "t1") job_world).1 ≡ some (completion "t1"))
    × Reports (completion "t1").error status
unfolding lookup String-discrete
complete-get_job_example = complete-get_job job_world (completion "t1") job refl refl refl

complete-refused_example : (complete (completion "guess") job_world).1 ≡ job_world
unfolding complete get_job lookup String-discrete
complete-refused_example =
    complete-refused job_world (completion "guess") (value_error "Invalid callback token.") refl

job_world-IsAuthentic : IsAuthentic job_world
unfolding lookup
job_world-IsAuthentic = record {
  named = λ id j found. ground (arith, found, eq_of_== "j1" id);
  owned = λ id c found. absurd (ground (arith, found));
}

step-IsAuthentic_example : IsAuthentic (step (complete_op (completion "t1")) job_world)
step-IsAuthentic_example =
    step-IsAuthentic (complete_op (completion "t1")) job_world tt job_world-IsAuthentic

pathlib-IsLawful : IsLawful pathlib
pathlib-IsLawful = record {
  relative = λ root path p found. ground (arith, found);
  rejoined = λ root path p found. ground (arith, found, eq_of_== path "/r/a.md");
}

audit_record_from_json-audit_record_to_json_example :
    audit_record_from_json python pathlib (audit_record_to_json python pathlib audit "/r") "/r"
    ≡ ok audit
unfolding String-discrete
audit_record_from_json-audit_record_to_json_example =
    audit_record_from_json-audit_record_to_json python pathlib audit "/r" pathlib-IsLawful
      (inl ("a.md", refl))

review_bundle_record_from_json-review_bundle_record_to_json_example :
    review_bundle_record_from_json python pathlib
      (review_bundle_record_to_json python pathlib bundle "/r")
      "/r"
    ≡ ok bundle
unfolding String-discrete
review_bundle_record_from_json-review_bundle_record_to_json_example =
    review_bundle_record_from_json-review_bundle_record_to_json python pathlib bundle "/r"
      pathlib-IsLawful (inr (refl, refl))

record_result-repeated_example :
    record_result "a" "t0" good_result none false
      (some "r1")
      (record_result "a" "t0" good_result none false (some "r1") running_world).1
    ≡ (
      ok good_run,
      record (record_result "a" "t0" good_result none false (some "r1") running_world).1 {
        calls =
            (record_result "a" "t0" good_result none false (some "r1") running_world).1.calls + 1;
      },
    )
unfolding record_result String-discrete ho_h.Prelude.Exec.◌>>=◌ ho_h.State.Store.utc_now
    ho_h.State.Results.select_run_id ho_h.State.Results.record_selected
    ho_h.Prelude.Lists.find_first ho_h.State.Results.record_new_run ho_h.State.Store.get_task
    ho_h.State.Results.settle_task ho_h.State.Records.TaskStatus-discrete
    ho_h.State.Results.status_of_result ho_h.Domain.run_ok ho_h.Prelude.Lists.all
    ho_h.Domain.command_ok ho_h.Prelude.Int.ℤ-discrete ho_h.Prelude.ℕ_discrete
    ho_h.State.Store.update_task ho_h.Prelude.Exec.gets ho_h.Prelude.Exec.pure ho_h.Prelude.Int.◌+ℤ◌
    ho_h.Prelude.Lists.find_last ho_h.Prelude.Lists.keep ho_h.State.Results.append_history
    ho_h.State.Results.finish_run ho_h.State.Results.result_error find_task
    ho_h.State.Store.record_event ho_h.State.Store.replace_last ho_h.State.Store.stored
    ho_h.State.Store.transition_event updated
record_result-repeated_example =
    record_result-repeated "a" "t0" good_result none false "r1" running_world good_run refl refl
      (record_result "a" "t0" good_result none false (some "r1") running_world).1 refl

resolve_review-IsApplied_example :
    IsApplied "a" "b1" "d1" "approve" "fine" (world (reviewed ∷ [])) approved
unfolding ho_h.State.Review.resolve_review String-discrete ho_h.Prelude.Exec.◌>>=◌
    ho_h.State.Store.get_task find_task ho_h.Prelude.Lists.find_last ho_h.State.Queue.require_status
    ho_h.State.Records.TaskStatus-discrete ho_h.State.Review.outcome_of
    ho_h.State.Store.replace_task ho_h.State.Store.replace_first ho_h.State.Store.stored
    ho_h.State.Records.QueueTask-discrete ho_h.State.Store.transition_event
    ho_h.State.Store.record_event ho_h.Prelude.Exec.pure ho_h.Prelude.Exec.raise
    ho_h.State.Results.option_string_eq ho_h.Domain.WorkItem-discrete ho_h.Prelude.Int.ℤ-discrete
    ho_h.Prelude.ℕ_discrete
resolve_review-IsApplied_example =
    resolve_review-IsApplied "a" "b1" "d1" "approve" "fine" (world (reviewed ∷ [])) approved refl
