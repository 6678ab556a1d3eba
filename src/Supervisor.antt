-- ===== src/Supervisor.antt =====
-- `Supervisor` of src/llm_harness/supervisor.py: a worker's patch is verified, applied, tested and
-- committed, or it is refused or taken back. `crash_point` of operations.py does nothing unless a test
-- asks for it, and is left out; so are the two methods that run in an attempt of attempts.py, and a
-- notifier, a journal or a worker that raises.
pub mod Evidence
pub mod Effects
pub mod GitEffects
pub mod Quiet
pub mod Commits
pub mod Tested
pub mod Passed
pub mod Outcome
pub mod Settled
pub mod Guard
pub mod Keeps
pub mod Processes
pub mod Dispatch
pub mod Verdict
use ho_h.Prelude.{
  String, Bool, true, false, not, Option, none, some, List, [], ◌∷◌, ◌++◌, format, join,
  if◌then◌else◌,
}
use ho_h.Prelude.Exec.{Exec, Result, ok, err, pure, raise, ◌>>=◌, ◌>>◌}
use ho_h.Prelude.Lists.{is_nil, all}
use ho_h.Json.{Json, null, object, flag, int, str, str_list, optional_str}
use ho_h.Journal.{
  Entry, EventType, Patterns, interaction, artifact, decision, tool_call, tool_result,
}
use ho_h.Domain.{
  WorkItem, WorkerPatch, CommandResult, command_ok, VerificationReport, HarnessRunResult,
  SemanticVerificationReport, semantic_ok,
}
use ho_h.Commands.{Platform, CommandPolicy}
use ho_h.Jobs.{
  ExecutionTarget, WorkerJob, WorkerCompletion, JobWorld, JobError, JobAction, key_error,
  value_error, JobStatus, failed, created, dispatched, completed, create, mark_dispatched, complete,
}
use ho_h.Git.{
  Task, or_text, ensure_git_repository, resolve_commit, apply_patch, stage_paths, commit_staged,
  run_verification_commands, revert_patch,
}
use ho_h.Git.Calls
use ho_h.Git.Calls.{
  Outside, Desk, Failure, ask, Call, notified, recorded, semantic, ledger, worker, lease_taken,
  lease_released, LedgerCall, assert_no_blocking, begin_task, phase, terminal,
}
use ho_h.Supervisor.Evidence.{
  result_to_json, work_item_trace, semantic_trace, target_name, show_target_type,
}
use ho_h.Verifier.Scan.{Python, changed_files_from_patch}
use ho_h.Verifier.Gate.{
  PosixPath, PolicyVerifier, verify_patch_before_apply, verify_after_apply, documentation_paths,
}

-- Where a supervisor works: the repository, the libraries, and the world outside.
pub record Site : Type 0 where
  pub repository : String
  pub outside : Outside
  pub python : Python
  pub posix : PosixPath
  pub platform : Platform
  pub patterns : Patterns

pub record Supervisor : Type 0 where
  pub verifier : PolicyVerifier
  pub has_journal : Bool
  pub has_semantic_verifier : Bool
  pub command_policy : CommandPolicy

pub record OperationContext : Type 0 where
  pub operation_id : String
  pub run_id : String
  pub state_root : String
  pub started_at_utc : String
  pub review_required : Bool

abbrev pub lifted : {A : Type 0} → Result String A → Task A
lifted (ok a) = pure a
lifted (err message) = raise (Calls.value_error message)

abbrev pub or_text_of : Option String → String → String
or_text_of none other = other
or_text_of (some message) other = or_text message other

abbrev pub notify : String → Task Unit
notify text = ask (notified text) λ _. tt

abbrev pub without_commit :
    String
    → WorkItem
    → VerificationReport
    → VerificationReport
    → List CommandResult
    → Option SemanticVerificationReport
    → HarnessRunResult
without_commit repository item pre_apply post_apply results verdict = record {
  repository = repository;
  work_item_id = item.id;
  commit = none;
  pre_apply = pre_apply;
  post_apply = post_apply;
  command_results = results;
  semantic_verification = verdict;
}

module _ (site : Site) (supervisor : Supervisor) where
  -- `_record`
  unfoldable pub record_entry : Entry → Task Unit
  record_entry entry = if supervisor.has_journal then ask (recorded entry) (λ _. tt) else pure tt

  abbrev pub event :
      EventType → String → String → Option String → Json → WorkItem → String → Task Unit
  event event_type actor action recipient content item job_id = record_entry (record {
    event_type = event_type;
    actor = actor;
    action = action;
    recipient = recipient;
    content = content;
    task_id = some item.id;
    run_id = none;
    correlation_id = some job_id;
  })

  abbrev pub unless_raised : Option String → Task Unit
  unless_raised none = pure tt
  unless_raised (some message) = raise (Calls.ledger_error message)

  unfoldable pub call_ledger : LedgerCall → Task Unit
  call_ledger call =
      ask (ledger call) (λ calls. site.outside.ask_ledger calls call) >>= unless_raised

  -- `if operation_context is not None: ...`
  abbrev pub in_operation : Option OperationContext → (OperationContext → LedgerCall) → Task Unit
  in_operation none call = pure tt
  in_operation (some context) call = call_ledger (call context)

  -- The phase `commit_created`, with the full id of the commit, if there is one.
  abbrev pub record_commit : Option OperationContext → Option String → Task Unit
  record_commit none commit = pure tt
  record_commit (some context) none =
      call_ledger (phase context.operation_id "commit_created" (object (("commit", null) ∷ [])))
  record_commit (some context) (some commit) = do
    full_commit ← resolve_commit site.outside commit
    call_ledger
        (phase context.operation_id "commit_created" (object (("commit", str full_commit) ∷ [])))

  abbrev pub message_of : Option OperationContext → WorkItem → String
  message_of none item = format (item.id ∷ ": " ∷ item.title ∷ [])
  message_of (some context) item =
      format (item.id ∷ ": " ∷ item.title ∷ "\n\nHoH-Operation: " ∷ context.operation_id ∷ [])

  module _ (item : WorkItem) (context : Option OperationContext) (job_id : String) where
    -- what follows the commit
    abbrev pub settle_commit :
        List String → HarnessRunResult → Option String → Task HarnessRunResult
    settle_commit changed_files provisional commit = do
      record_commit context commit
      event tool_result "supervisor" "git.commit" none
          (object
            (("commit", optional_str commit) ∷ ("changed_files", str_list changed_files) ∷ []))
          item job_id
      pure (record provisional { commit = commit })

    abbrev pub make_commit : List String → HarnessRunResult → Task HarnessRunResult
    make_commit changed_files provisional =
        commit_staged site.outside (message_of context item)
        >>= settle_commit changed_files provisional

    abbrev pub stage_and_commit : List String → HarnessRunResult → Task HarnessRunResult
    stage_and_commit changed_files provisional =
        stage_paths site.outside changed_files >> make_commit changed_files provisional

    -- what follows the last gate
    unfoldable pub commit_result : List String → HarnessRunResult → Task HarnessRunResult
    commit_result changed_files provisional =
        in_operation context (λ c.
          phase c.operation_id "verified"
            (object (("result", result_to_json site.patterns provisional) ∷ [])))
        >> stage_and_commit changed_files provisional

    abbrev pub settle_undo : String → String → HarnessRunResult → Task HarnessRunResult
    settle_undo detail text result = do
      in_operation context λ c. terminal c.operation_id "reverted" detail
      notify text
      pure result

    -- the patch is taken back
    unfoldable pub undo : WorkerPatch → String → String → HarnessRunResult → Task HarnessRunResult
    undo patch detail text result =
        revert_patch site.outside patch.patch >> settle_undo detail text result

    -- the verdict of the semantic verifier, an error being a verdict `fail`
    abbrev pub verdict_of : Result String SemanticVerificationReport → SemanticVerificationReport
    verdict_of (ok verdict) = verdict
    verdict_of (err message) = record {
      decision = "fail";
      summary = "Semantic verification could not produce trustworthy evidence.";
      findings = message ∷ [];
      evidence = none;
    }

    abbrev pub after_verdict :
        WorkerPatch
        → List String
        → HarnessRunResult
        → SemanticVerificationReport
        → Task HarnessRunResult
    after_verdict patch changed_files provisional verdict =
        let judged = record provisional { semantic_verification = some verdict } in
        if semantic_ok verdict
        then commit_result changed_files judged
        else undo patch "Semantic verification rejected the applied patch."
            (format ("Semantic verifier blocked the applied result: " ∷ verdict.summary ∷ []))
            judged

    abbrev pub record_verdict :
        WorkerPatch
        → List String
        → HarnessRunResult
        → SemanticVerificationReport
        → Task HarnessRunResult
    record_verdict patch changed_files provisional verdict = do
      event decision "semantic-verifier" "patch.semantic_checked" (some "supervisor")
          (semantic_trace verdict) item job_id
      after_verdict patch changed_files provisional verdict

    -- the question to the semantic verifier
    abbrev pub ask_verdict : WorkerPatch → HarnessRunResult → Task SemanticVerificationReport
    ask_verdict patch provisional = ask (semantic item patch provisional.command_results) λ calls.
        verdict_of (site.outside.verify_semantics calls item patch provisional.command_results)

    abbrev pub judge : WorkerPatch → List String → HarnessRunResult → Task HarnessRunResult
    judge patch changed_files provisional =
        ask_verdict patch provisional >>= record_verdict patch changed_files provisional

    -- the semantic gate, if there is one
    unfoldable pub semantic_gate :
        WorkerPatch → List String → HarnessRunResult → Task HarnessRunResult
    semantic_gate patch changed_files provisional =
        if supervisor.has_semantic_verifier
        then judge patch changed_files provisional
        else commit_result changed_files provisional

    abbrev pub after_report : WorkerPatch → List String → HarnessRunResult → Task HarnessRunResult
    after_report patch changed_files provisional =
        if provisional.post_apply.is_ok
        then semantic_gate patch changed_files provisional
        else undo patch "Deterministic verification rejected the applied patch."
            (format (
              "Verifier rejected applied result: "
              ∷ join "; " provisional.post_apply.findings
              ∷ []))
            provisional

    unfoldable pub record_results : List CommandResult → Task Unit
    record_results [] = pure tt
    record_results (r ∷ rs) = do
      event tool_result "supervisor" "verification.command" (some "deterministic-verifier")
          (object (
            ("command", str r.command)
            ∷ ("return_code", int r.return_code)
            ∷ ("stdout", str r.stdout)
            ∷ ("stderr", str r.stderr)
            ∷ []))
          item job_id
      record_results rs

    abbrev pub provisional_of :
        List String → VerificationReport → List CommandResult → HarnessRunResult
    provisional_of changed_files pre_apply results =
        without_commit site.repository item pre_apply
          (verify_after_apply item (all command_ok results)
            (not (is_nil (documentation_paths site.posix changed_files))))
          results none

    abbrev pub after_commands :
        WorkerPatch → List String → VerificationReport → List CommandResult → Task HarnessRunResult
    after_commands patch changed_files pre_apply results = do
      record_results results
      after_report patch changed_files (provisional_of changed_files pre_apply results)

    -- the verification commands on the patched repository
    abbrev pub test_patch : WorkerPatch → List String → VerificationReport → Task HarnessRunResult
    test_patch patch changed_files pre_apply = do
      in_operation context λ c. phase c.operation_id "patch_applied" (object [])
      event tool_call "supervisor" "git.apply" none
          (object (("changed_files", str_list changed_files) ∷ [])) item job_id
      run_verification_commands site.outside site.platform supervisor.command_policy
            item.verification_commands
          >>= after_commands patch changed_files pre_apply

    -- from the patch's application on
    unfoldable pub apply_and_test :
        WorkerPatch → List String → VerificationReport → Task HarnessRunResult
    apply_and_test patch changed_files pre_apply = do
      in_operation context λ c. begin_task c.operation_id item.id patch.patch changed_files
      apply_patch site.outside patch.patch >> test_patch patch changed_files pre_apply

    abbrev pub refuse : VerificationReport → Task HarnessRunResult
    refuse pre_apply = do
      notify (
          format
            ("Verifier rejected worker patch before apply: " ∷ join "; " pre_apply.findings ∷ []))
      pure (
          without_commit site.repository item pre_apply (verify_after_apply item false false) []
            none)

    abbrev pub after_policy : WorkerPatch → List String → VerificationReport → Task HarnessRunResult
    after_policy patch changed_files pre_apply =
        if pre_apply.is_ok then apply_and_test patch changed_files pre_apply else refuse pre_apply

    abbrev pub record_policy :
        WorkerPatch → List String → VerificationReport → Task HarnessRunResult
    record_policy patch changed_files pre_apply = do
      event decision "deterministic-verifier" "patch.policy_checked" (some "supervisor")
          (object (
            ("ok", flag pre_apply.is_ok)
            ∷ ("findings", str_list pre_apply.findings)
            ∷ ("changed_files", str_list changed_files)
            ∷ []))
          item job_id
      after_policy patch changed_files pre_apply

    -- the policy gate, on the files that the patch changes
    abbrev pub check_policy : WorkerPatch → List String → Task HarnessRunResult
    check_policy patch changed_files =
        lifted (verify_patch_before_apply site.posix site.python supervisor.verifier item patch)
        >>= record_policy patch changed_files

    unfoldable pub check_and_apply : WorkerPatch → Task HarnessRunResult
    check_and_apply patch = do
      event artifact patch.worker_name "worker.patch_returned" (some "supervisor")
          (object (("patch", str patch.patch) ∷ ("notes", str patch.notes) ∷ [])) item job_id
      lifted (changed_files_from_patch site.python patch.patch) >>= check_policy patch

  abbrev pub failed_result : WorkItem → HarnessRunResult
  failed_result item =
      let report = verify_after_apply item false false in
      without_commit site.repository item report report [] none

  abbrev pub with_patch :
      WorkItem
      → WorkerCompletion
      → Option OperationContext
      → Option WorkerPatch
      → Task HarnessRunResult
  with_patch item completion context none = do
    notify (or_text_of completion.error "Worker returned no patch.")
    pure (failed_result item)
  with_patch item completion context (some patch) =
      check_and_apply item context completion.job_id patch

  unfoldable pub execute_worker_completion_locked :
      WorkItem → WorkerCompletion → Option OperationContext → Task HarnessRunResult
  execute_worker_completion_locked item completion context =
      with_patch item completion context completion.patch

  -- `with lease.hold(...)`: the body runs if the lease is taken, which is released also after an error.
  abbrev pub under_lease : {A : Type 0} → String → Task A → Option String → Task A
  under_lease action body (some message) desk = (err (Calls.lock_contended message), desk)
  under_lease action body none desk = do_then (body desk)
    where
      do_then : {A : Type 0} → Result Failure A × Desk → Result Failure A × Desk
      do_then (r, after) = (r, record after { calls = lease_released action ∷ after.calls })

  unfoldable pub execute_worker_completion :
      WorkItem → WorkerCompletion → Option OperationContext → Task HarnessRunResult
  execute_worker_completion item completion context = do
    let action = format ("supervisor.execute_worker_completion:" ∷ item.id ∷ [])
    answer ← ask (lease_taken action) site.outside.take_lease
    under_lease action
        (call_ledger assert_no_blocking >> execute_worker_completion_locked item completion context)
        answer

  abbrev pub failure_of : JobError → Failure
  failure_of (key_error message) = Calls.key_error message
  failure_of (value_error message) = Calls.value_error message

  abbrev pub settled : {A : Type 0} → Desk → Result JobError A → JobWorld → Result Failure A × Desk
  settled desk (ok a) jobs = (ok a, record desk { job_world = jobs })
  settled desk (err e) jobs = (err (failure_of e), record desk { job_world = jobs })

  -- a method of the store of worker jobs
  unfoldable pub on_jobs : {A : Type 0} → JobAction A → Task A
  on_jobs action desk = let (r, jobs) = action desk.job_world in settled desk r jobs

  -- the worker's answer to a dispatched job, which the store of jobs takes
  abbrev pub ask_worker : WorkerJob → Task WorkerCompletion
  ask_worker job = ask (worker job) λ calls. site.outside.run_job calls job

  abbrev pub accept_completion : WorkerCompletion → Task (WorkerJob × WorkerCompletion)
  accept_completion completion =
      on_jobs (complete completion) >>= λ completed_job. pure (completed_job, completion)

  abbrev pub run_dispatched : WorkerJob → Task (WorkerJob × WorkerCompletion)
  run_dispatched job = ask_worker job >>= accept_completion

  abbrev pub record_dispatch :
      WorkItem
      → ExecutionTarget
      → String
      → WorkerJob
      → WorkerJob
      → Task (WorkerJob × WorkerCompletion)
  record_dispatch item target worker_name job dispatched_job = do
    event interaction "supervisor" "worker.task_dispatched" (some worker_name)
        (object (
          ("repository", str site.repository)
          ∷ (
            "target",
            object
                (("name", str (target_name target)) ∷ ("type", str (show_target_type target)) ∷ []),
          )
          ∷ ("task", work_item_trace item)
          ∷ []))
        item job.id
    run_dispatched dispatched_job

  abbrev pub dispatch_job :
      WorkItem → ExecutionTarget → String → WorkerJob → Task (WorkerJob × WorkerCompletion)
  dispatch_job item target worker_name job =
      on_jobs (mark_dispatched job.id) >>= record_dispatch item target worker_name job

  -- the job from its creation to its completion, which the next two methods share
  unfoldable pub run_worker :
      WorkItem → ExecutionTarget → String → Task (WorkerJob × WorkerCompletion)
  run_worker item target worker_name =
      ensure_git_repository site.outside site.repository
      >> (on_jobs (create item target) >>= dispatch_job item target worker_name)

  unfoldable pub collect_worker_completion :
      WorkItem → ExecutionTarget → String → Task WorkerCompletion
  collect_worker_completion item target worker_name =
      run_worker item target worker_name >>= λ (_, completion). pure completion

  abbrev pub report_failure :
      WorkItem → String → WorkerJob → WorkerCompletion → Task HarnessRunResult
  report_failure item worker_name job completion = do
    event tool_result worker_name "worker.failed" (some "supervisor")
        (object (
          ("error", optional_str completion.error)
          ∷ ("error_kind", optional_str completion.error_kind)
          ∷ ("retryable", flag completion.retryable)
          ∷ []))
        item job.id
    notify (or_text_of completion.error "Worker job failed.")
    pure (failed_result item)

  abbrev pub is_failed : JobStatus → Bool
  is_failed failed = true
  is_failed _ = false

  abbrev pub after_completion :
      WorkItem
      → Option OperationContext
      → String
      → WorkerJob × WorkerCompletion
      → Task HarnessRunResult
  after_completion item context worker_name (job, completion) =
      if is_failed job.status
      then report_failure item worker_name job completion
      else execute_worker_completion item completion context

  unfoldable pub dispatch_work_item :
      WorkItem → ExecutionTarget → String → Option OperationContext → Task HarnessRunResult
  dispatch_work_item item target worker_name context =
      run_worker item target worker_name >>= after_completion item context worker_name

  -- `execute_work_item`, of the patch that the worker produces
  unfoldable pub execute_work_item : WorkItem → WorkerPatch → Task HarnessRunResult
  execute_work_item item patch = do
    ensure_git_repository site.outside site.repository
    execute_worker_completion item
        (record {
          job_id = "sync";
          callback_token = "sync";
          patch = some patch;
          error = none;
          error_kind = none;
          retryable = false;
        })
        none
