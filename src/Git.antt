-- ===== src/Git.antt =====
-- src/llm_harness/git_ops.py: the calls of git, and the verification commands of a work item.
pub mod Calls
use ho_h.Prelude.{
  ℕ, String, Bool, true, false, not, ◌&&◌, ◌||◌, Option, none, some, List, [], ◌∷◌, ◌++◌, ◌==◌,
  string_eq, format, if◌then◌else◌,
}
use ho_h.Prelude.Chars.{strip, is_empty, split_char, words, split_lines}
use ho_h.Prelude.Exec.{Exec, Result, ok, err, pure, raise, ◌>>=◌, ◌>>◌}
use ho_h.Prelude.Int.{ℤ, pos, int_eq}
use ho_h.Prelude.Lists.{is_nil, keep}
use ho_h.Domain.{CommandResult}
use ho_h.Commands.{Platform, CommandPolicy, Refusal, resolve, child_environment}
use ho_h.Git.Calls.{
  Outside, Completed, Desk, Failure, git_error, ask, Call, git, process, ProcessOutcome, finished,
  timed_out, not_started,
}

-- `text or other`
abbrev pub or_text : String → String → String
or_text message other = if message == "" then other else message

abbrev pub after_stderr : Completed → String → Failure
after_stderr result other = git_error (or_text (strip result.stderr) other)

-- `result.returncode == code`
abbrev pub returned : ℤ → Completed → Bool
returned code result = result.returncode == code

-- the pieces at the places 0, 2, 4, ...
abbrev pub every_second : Bool → List String → List String
every_second taken [] = []
every_second true (x ∷ xs) = x ∷ every_second false xs
every_second false (x ∷ xs) = every_second true xs

abbrev pub stripped_of : List String → List String
stripped_of [] = []
stripped_of (x ∷ xs) = strip x ∷ stripped_of xs

abbrev pub Task : Type 0 → Type 0
Task A = Exec Desk Failure A

module _ (outside : Outside) where
  -- `_run(["git", *args], repository, input_text)`
  unfoldable pub run_git : List String → Option String → Task Completed
  run_git args input = ask (git args input) λ calls. outside.run_git calls args input

  -- the end of most operations: an error for a return code other than zero
  abbrev pub unless_failed : String → Completed → Task Unit
  unless_failed other result =
      if returned (pos 0) result then pure tt else raise (after_stderr result other)

  unfoldable pub ensure_git_repository : String → Task Unit
  ensure_git_repository repository =
      run_git ("rev-parse" ∷ "--is-inside-work-tree" ∷ []) none >>= λ result.
      if not (returned (pos 0) result) || not (strip result.stdout == "true")
      then raise (git_error (format ("Not a git repository: " ∷ repository ∷ [])))
      else pure tt

  unfoldable pub repository_is_clean : Task Bool
  repository_is_clean = run_git ("status" ∷ "--porcelain" ∷ []) none >>= λ result.
      if returned (pos 0) result
      then pure (strip result.stdout == "")
      else raise (after_stderr result "git status failed")

  unfoldable pub resolve_commit : String → Task String
  resolve_commit revision =
      run_git ("rev-parse" ∷ "--verify" ∷ format (revision ∷ "^{commit}" ∷ []) ∷ []) none
      >>= λ result.
          if returned (pos 0) result
          then pure (strip result.stdout)
          else raise (after_stderr result (format ("Unknown git commit: " ∷ revision ∷ [])))

  unfoldable pub current_head : Task String
  current_head = resolve_commit "HEAD"

  abbrev pub only_match : String → String → List String → Task (Option String)
  only_match trailer value [] = pure none
  only_match trailer value (m ∷ []) = pure (some m)
  only_match trailer value (m ∷ n ∷ ms) =
      raise (git_error (format ("Multiple commits reference " ∷ trailer ∷ ": " ∷ value ∷ [])))

  unfoldable pub find_commit_by_trailer : String → String → Task (Option String)
  find_commit_by_trailer trailer value =
      run_git
        ("log"
          ∷ "--all"
          ∷ "--format=%H%x00%B%x00"
          ∷ format ("--grep=^" ∷ trailer ∷ ": " ∷ value ∷ "$" ∷ [])
          ∷ [])
        none
      >>= λ result.
          if returned (pos 0) result
          then only_match trailer value (
              stripped_of (
                every_second true
                  (keep (λ part. not (strip part == "")) (split_char 0 result.stdout))))
          else raise (after_stderr result "git log trailer lookup failed")

  unfoldable pub commit_is_ancestor : String → String → Task Bool
  commit_is_ancestor ancestor descendant =
      run_git ("merge-base" ∷ "--is-ancestor" ∷ ancestor ∷ descendant ∷ []) none >>= λ result.
      if returned (pos 0) result
      then pure true
      else if returned (pos 1) result
      then pure false
      else raise (after_stderr result "git merge-base --is-ancestor failed")

  unfoldable pub commit_parents : String → Task (List String)
  commit_parents commit = run_git ("show" ∷ "-s" ∷ "--format=%P" ∷ commit ∷ []) none >>= λ result.
      if returned (pos 0) result
      then pure (words (strip result.stdout))
      else raise (after_stderr result "git show parents failed")

  unfoldable pub commit_changed_files : String → Task (List String)
  commit_changed_files commit =
      run_git ("diff-tree" ∷ "--root" ∷ "--no-commit-id" ∷ "--name-only" ∷ "-r" ∷ commit ∷ []) none
      >>= λ result.
          if returned (pos 0) result
          then pure
              (stripped_of (keep (λ line. not (strip line == "")) (split_lines result.stdout)))
          else raise (after_stderr result "git diff-tree failed")

  unfoldable pub revert_commit_no_commit : String → Task Unit
  revert_commit_no_commit commit =
      run_git ("revert" ∷ "--no-commit" ∷ commit ∷ []) none
      >>= unless_failed (format ("git revert --no-commit failed for " ∷ commit ∷ []))

  unfoldable pub apply_patch : String → Task Unit
  apply_patch patch =
      run_git ("apply" ∷ "--check" ∷ []) (some patch)
      >>= unless_failed "git apply --check failed"
      >> (run_git ("apply" ∷ []) (some patch) >>= unless_failed "git apply failed")

  unfoldable pub stage_paths : List String → Task Unit
  stage_paths [] = pure tt
  stage_paths (p ∷ ps) =
      run_git ("add" ∷ "--" ∷ p ∷ ps) none >>= unless_failed "git add paths failed"

  unfoldable pub restore_paths_to_head : List String → Task Unit
  restore_paths_to_head [] = pure tt
  restore_paths_to_head (p ∷ ps) =
      run_git ("restore" ∷ "--staged" ∷ "--worktree" ∷ "--" ∷ p ∷ ps) none
      >>= unless_failed "git restore paths failed"

  -- the commit, once something is staged
  unfoldable pub commit_changes : String → Task (Option String)
  commit_changes message =
      run_git ("commit" ∷ "-m" ∷ message ∷ []) none
      >>= unless_failed "git commit failed"
      >> (run_git ("rev-parse" ∷ "--short" ∷ "HEAD" ∷ []) none >>= λ rev.
          if returned (pos 0) rev
          then pure (some (strip rev.stdout))
          else raise (after_stderr rev "git rev-parse failed"))

  unfoldable pub commit_staged : String → Task (Option String)
  commit_staged message = run_git ("diff" ∷ "--cached" ∷ "--quiet" ∷ []) none >>= λ diff.
      if returned (pos 0) diff then pure none else commit_changes message

  unfoldable pub revert_patch : String → Task Unit
  revert_patch patch =
      run_git ("apply" ∷ "-R" ∷ []) (some patch) >>= unless_failed "git apply -R failed"

  module _ (platform : Platform) (policy : CommandPolicy) where
    abbrev pub result_of : String → ProcessOutcome → CommandResult
    result_of command (finished code stdout stderr) = record {
      command = command;
      return_code = code;
      stdout = stdout;
      stderr = stderr;
    }
    result_of command (timed_out stdout seconds) = record {
      command = command;
      return_code = pos 124;
      stdout = stdout;
      stderr = format ("Verification command timed out after " ∷ seconds ∷ " seconds." ∷ []);
    }
    result_of command (not_started message) = record {
      command = command;
      return_code = pos 127;
      stdout = "";
      stderr = format ("Verification command could not be started: " ∷ message ∷ []);
    }

    abbrev pub run_resolved : String → Result Refusal (List String) → Task CommandResult
    run_resolved command (err refusal) = pure (record {
      command = command;
      return_code = pos 126;
      stdout = "";
      stderr = outside.show_refusal refusal;
    })
    run_resolved command (ok argv) =
        let environment = child_environment platform policy outside.environ in
        ask (process argv environment)
          λ calls. result_of command (outside.run_process calls argv environment)

    -- the loop of `run_verification_commands`
    unfoldable pub run_verification_commands : List String → Task (List CommandResult)
    run_verification_commands [] = pure []
    run_verification_commands (command ∷ commands) =
        run_resolved command (resolve platform policy command) >>= λ result.
        run_verification_commands commands >>= λ results. pure (result ∷ results)
