-- ===== src/Tests/Supervision.antt =====
-- The supervisor at a concrete patch, which passes all gates.
use ho_h.Prelude.{
  String, Bool, true, false, none, some, List, [], ◌∷◌, ◌≡◌, ◌≢◌, ◌↔◌, refl, ◌⊎◌, ◌==◌, string_eq,
  if◌then◌else◌,
}
use ho_h.Prelude.Exec.{Result, ok, err}
use ho_h.Prelude.Lists.{All}
use ho_h.Prelude.Int.{pos}
use ho_h.Domain.{WorkItem, HarnessRunResult, run_ok}
use ho_h.Commands.{default_policy}
use ho_h.Git.Calls.{Outside, Completed, finished, Desk}
use ho_h.Jobs.{WorkerCompletion}
use ho_h.Supervisor.{Site, Supervisor, execute_worker_completion, dispatch_work_item}
use ho_h.Supervisor.Effects.{effects, first_of}
use ho_h.Supervisor.Settled.{IsSettled, execute_worker_completion-IsSettled}
use ho_h.Supervisor.Dispatch.{IsAnswered, dispatch_work_item-IsAnswered}
use ho_h.Supervisor.Verdict.{run_ok-execute_worker_completion}
use ho_h.Supervisor.Processes.{IsAllowedCall, execute_worker_completion-IsAllowedCall}
use ho_h.Supervisor.Guard.{IsGuarded, execute_worker_completion-IsGuarded}
use ho_h.Verifier.Gate.{patch_report, verify_after_apply}
use ho_h.Tests.Samples.{job, patterns, platform, job_world}
use ho_h.Tests.Gate.{python, posix, verifier, scoped_item, patch, patch_scan}

-- Something is always staged, and each other call of git succeeds.
abbrev answer_git : List String → Completed
answer_git args = record {
  returncode = if first_of args == "diff" then pos 1 else pos 0;
  stdout = "c1";
  stderr = "";
}

abbrev outside : Outside
outside = record {
  run_git = λ calls args input. answer_git args;
  environ = ("API_TOKEN", "s") ∷ [];
  run_process = λ calls argv environment. finished (pos 0) "fine" "";
  show_refusal = λ refusal. "refused";
  verify_semantics = λ calls item patch results. err "no model";
  ask_ledger = λ calls call. none;
  run_job = λ calls job. record {
    job_id = job.id;
    callback_token = job.callback_token;
    patch = none;
    error = none;
    error_kind = none;
    retryable = false;
  };
  take_lease = λ calls. none;
}

abbrev site : Site
site = record {
  repository = "/r";
  outside = outside;
  python = python;
  posix = posix;
  platform = platform;
  patterns = patterns;
}

abbrev supervisor : Supervisor
supervisor = record {
  verifier = verifier;
  has_journal = false;
  has_semantic_verifier = false;
  command_policy = default_policy;
}

abbrev completion : WorkerCompletion
completion = record {
  job_id = "sync";
  callback_token = "sync";
  patch = some patch;
  error = none;
  error_kind = none;
  retryable = false;
}

abbrev desk : Desk
desk = record { calls = []; job_world = job_world }

abbrev result : HarnessRunResult
result = record {
  repository = "/r";
  work_item_id = "a";
  commit = some "c1";
  pre_apply = patch_report posix verifier scoped_item patch patch_scan;
  post_apply = verify_after_apply scoped_item true false;
  command_results =
      record { command = "pytest"; return_code = pos 0; stdout = "fine"; stderr = "" } ∷ [];
  semantic_verification = none;
}

execute_worker_completion-IsGuarded_example :
    (effects (execute_worker_completion site supervisor scoped_item completion none desk).1.calls
      ≡ effects desk.calls)
    ⊎ IsGuarded site supervisor scoped_item (some patch)
execute_worker_completion-IsGuarded_example =
    execute_worker_completion-IsGuarded site supervisor scoped_item none completion desk

execute_worker_completion-run :
    (execute_worker_completion site supervisor scoped_item completion none desk).0 ≡ ok result
unfolding execute_worker_completion patch_report verify_after_apply ho_h.Prelude.Exec.◌>>=◌
    ho_h.Verifier.Gate.patch_findings ho_h.Verifier.Gate.forbidden_hits ho_h.Trust.can_create_branch
    ho_h.Trust.can_commit ho_h.Git.Calls.ask ho_h.Trust.requires_patch_output
    ho_h.Prelude.Lists.keep ho_h.Trust.WorkerTrustLevel-discrete ho_h.Supervisor.call_ledger
    ho_h.Prelude.String-discrete ho_h.Verifier.Gate.is_forbidden
    ho_h.Supervisor.execute_worker_completion_locked ho_h.Prelude.Chars.strip ho_h.Prelude.Lists.any
    ho_h.Supervisor.check_and_apply ho_h.Verifier.Gate.is_unsafe_repo_path
    ho_h.Verifier.Gate.path_matches_prefix ho_h.Supervisor.record_entry
    ho_h.Prelude.Chars.has_prefix ho_h.Verifier.Gate.normalize_repo_path
    ho_h.Verifier.Scan.changed_files_from_patch ho_h.Prelude.Chars.translate
    ho_h.Prelude.Chars.strip_slashes ho_h.Verifier.Gate.verify_patch_before_apply
    ho_h.Prelude.Exec.pure ho_h.Prelude.Exec.raise ho_h.Supervisor.apply_and_test
    ho_h.Git.apply_patch ho_h.Git.run_git ho_h.Git.run_verification_commands ho_h.Commands.resolve
    ho_h.Commands.check_parsed ho_h.Commands.check_program ho_h.Commands.shell_operators
    ho_h.Commands.operators_in ho_h.Commands.executable_name ho_h.Commands.is_running_interpreter
    ho_h.Commands.strip_first_suffix ho_h.Commands.without_suffix ho_h.Prelude.Chars.casefold
    ho_h.Prelude.contains ho_h.Prelude.Chars.is_empty ho_h.Supervisor.record_results
    ho_h.Prelude.Lists.all ho_h.Domain.command_ok ho_h.Prelude.Int.ℤ-discrete
    ho_h.Verifier.Gate.documentation_paths ho_h.Verifier.Gate.is_documentation_path
    ho_h.Supervisor.semantic_gate ho_h.Supervisor.commit_result ho_h.Git.stage_paths
    ho_h.Git.commit_staged ho_h.Git.commit_changes ho_h.Prelude.Chars.after_prefix
    ho_h.Prelude.ℕ_discrete ho_h.Verifier.Gate.matches_any_allowed_path
    ho_h.Verifier.Gate.scope_findings ho_h.Prelude.join ho_h.Prelude.format
    ho_h.Verifier.Scan.scan_patch ho_h.Verifier.Scan.read_lines ho_h.Verifier.Scan.read_line
    ho_h.Verifier.Scan.read_header ho_h.Verifier.Headers.git_header_paths ho_h.Prelude.Chars.rstrip
    ho_h.Verifier.Scan.read_git ho_h.Verifier.Headers.chosen ho_h.Verifier.Headers.first_equal
    ho_h.Verifier.Headers.candidates_from ho_h.Verifier.Scan.report_pending
    ho_h.Verifier.Scan.after_combined ho_h.Verifier.Scan.after_pair
    ho_h.Verifier.Headers.decode_path_token ho_h.Prelude.Chars.before_char
    ho_h.Verifier.Scan.read_pair ho_h.Prelude.Chars.split_lines ho_h.Prelude.Members.unique
    ho_h.Verifier.Headers.distinct_names ho_h.Verifier.Headers.strip_diff_prefix
    ho_h.Verifier.Scan.finish ho_h.Verifier.Scan.hunk_body_step ho_h.Verifier.Scan.hunk_counts
    ho_h.Verifier.Scan.read_hunk
execute_worker_completion-run = refl

execute_worker_completion-IsSettled_example :
    IsSettled site supervisor scoped_item none
      (some patch)
      (effects desk.calls)
      result
      (effects (execute_worker_completion site supervisor scoped_item completion none desk).1.calls)
execute_worker_completion-IsSettled_example =
    execute_worker_completion-IsSettled site supervisor scoped_item none completion desk result
      execute_worker_completion-run

execute_worker_completion-IsAllowedCall_example :
    All
      (IsAllowedCall platform default_policy site.outside.environ scoped_item.verification_commands)
      (execute_worker_completion site supervisor scoped_item completion none desk).1.calls
execute_worker_completion-IsAllowedCall_example =
    execute_worker_completion-IsAllowedCall site supervisor scoped_item none completion desk tt

dispatch_work_item-IsAnswered_example :
    (effects (dispatch_work_item site supervisor scoped_item job.target "local" none desk).1.calls
      ≡ effects desk.calls)
    ⊎ IsAnswered site supervisor scoped_item
dispatch_work_item-IsAnswered_example =
    dispatch_work_item-IsAnswered site supervisor scoped_item job.target "local" none desk

run_ok-execute_worker_completion_example : run_ok result ≡ true ↔ result.commit ≢ none
run_ok-execute_worker_completion_example =
    run_ok-execute_worker_completion site supervisor scoped_item none completion desk result
      execute_worker_completion-run
