-- ===== src/Supervisor/Processes.antt =====
-- The processes that src/llm_harness/supervisor.py starts on behalf of a work item.
use ho_h.Prelude.{
  String, true, Option, none, some, List, [], ◌∷◌, ◌≡◌, refl, arith, ==_refl, string_eq, contains,
}
use ho_h.Prelude.Dict.{Dict}
use ho_h.Prelude.Exec.{Result, ok, err}
use ho_h.Prelude.Lists.{All}
use ho_h.Commands.{Platform, CommandPolicy, Refusal, resolve, child_environment}
use ho_h.Domain.{
  WorkItem, WorkerPatch, CommandResult, HarnessRunResult, VerificationReport, semantic_ok,
}
use ho_h.Git.{Task, run_resolved, run_verification_commands}
use ho_h.Git.Calls.{Outside, Desk, Call, process, LedgerCall}
use ho_h.Journal.{Entry}
use ho_h.Jobs.{WorkerCompletion}
use ho_h.Supervisor.{
  Site, Supervisor, OperationContext, lifted, notify, record_entry, unless_raised, call_ledger,
  in_operation, record_commit, commit_result, undo, after_verdict, record_verdict, ask_verdict,
  semantic_gate, after_report, record_results, after_commands, test_patch, apply_and_test,
  after_policy, record_policy, check_policy, check_and_apply, with_patch, under_lease,
  execute_worker_completion_locked, execute_worker_completion,
}
use ho_h.Supervisor.Keeps.{
  Keeps, Keeps->>=, Keeps-pure, Keeps-raise, Keeps-ask, Keeps-if, Keeps-apply_patch,
  Keeps-revert_patch, Keeps-stage_paths, Keeps-resolve_commit, Keeps-commit_staged,
}

-- A process is one of the commands, as the policy resolves it, with the environment of the policy.
abbrev pub IsAllowedCall : Platform → CommandPolicy → Dict String → List String → Call → Type 0
IsAllowedCall platform policy environ commands (process argv environment) =
    (command : String) × (contains command commands ≡ true)
    × (resolve platform policy command ≡ ok argv)
    × (environment ≡ child_environment platform policy environ)
IsAllowedCall platform policy environ commands _ = Unit

module _ (outside : Outside) (platform : Platform) (policy : CommandPolicy)
    (commands : List String) where
  run_resolved-IsAllowed :
      (command : String) (resolved : Result Refusal (List String))
      → contains command commands ≡ true
      → resolve platform policy command ≡ resolved
      → Keeps
          (IsAllowedCall platform policy outside.environ commands)
          (run_resolved outside platform policy command resolved)
  run_resolved-IsAllowed command (err refusal) member same =
      Keeps-pure (IsAllowedCall platform policy outside.environ commands) _
  run_resolved-IsAllowed command (ok argv) member same =
      Keeps-ask (IsAllowedCall platform policy outside.environ commands) _ _
        (command, member, same, refl)

  run_verification_commands-IsAllowed :
      (some_commands : List String)
      → All (λ c. contains c commands ≡ true) some_commands
      → Keeps
          (IsAllowedCall platform policy outside.environ commands)
          (run_verification_commands outside platform policy some_commands)
  unfolding run_verification_commands
  run_verification_commands-IsAllowed [] members =
      Keeps-pure (IsAllowedCall platform policy outside.environ commands) []
  run_verification_commands-IsAllowed (c ∷ cs) (member, members) =
      let P = IsAllowedCall platform policy outside.environ commands in
      Keeps->>= P _ _ (run_resolved-IsAllowed c (resolve platform policy c) member refl) λ result.
        Keeps->>= P _ _ (run_verification_commands-IsAllowed cs members) λ results. Keeps-pure P _

contained :
    (xs ys : List String)
    → ((c : String) → contains c xs ≡ true → contains c ys ≡ true)
    → All (λ c. contains c ys ≡ true) xs
unfolding contains
contained [] ys within = tt
contained (x ∷ xs) ys within =
    (within x (ground (arith, ==_refl x)), contained xs ys λ c h. within c (ground (arith, h)))

module _ (site : Site) (supervisor : Supervisor) (item : WorkItem)
    (context : Option OperationContext) where
  P : Call → Type 0
  P =
      IsAllowedCall site.platform supervisor.command_policy site.outside.environ
        item.verification_commands

  record_entry-P : (entry : Entry) → Keeps P (record_entry site supervisor entry)
  unfolding record_entry P
  record_entry-P entry =
      Keeps-if P supervisor.has_journal _ _ (Keeps-ask P _ _ tt) (Keeps-pure P tt)

  notify-P : (text : String) → Keeps P (notify text)
  unfolding P
  notify-P text = Keeps-ask P _ _ tt

  call_ledger-P : (call : LedgerCall) → Keeps P (call_ledger site supervisor call)
  unfolding call_ledger P
  call_ledger-P call = Keeps->>= P _ _ (Keeps-ask P _ _ tt) answer
    where
      answer : (message : Option String) → Keeps P (unless_raised site supervisor message)
      answer none = Keeps-pure P tt
      answer (some message) = Keeps-raise P Unit _

  in_operation-P :
      (c : Option OperationContext) (call : OperationContext → LedgerCall)
      → Keeps P (in_operation site supervisor c call)
  in_operation-P none call = Keeps-pure P tt
  in_operation-P (some c) call = call_ledger-P (call c)

  lifted-P : {A : Type 0} (r : Result String A) → Keeps P (lifted r)
  lifted-P (ok a) = Keeps-pure P a
  lifted-P {A} (err message) = Keeps-raise P A _

  record_commit-P :
      (c : Option OperationContext) (commit : Option String)
      → Keeps P (record_commit site supervisor c commit)
  unfolding P
  record_commit-P none commit = Keeps-pure P tt
  record_commit-P (some c) none = call_ledger-P _
  record_commit-P (some c) (some commit) =
      Keeps->>= P _ _ (Keeps-resolve_commit P (λ _ _. tt) site.outside commit)
        λ full. call_ledger-P _

  module _ (job_id : String) (patch : WorkerPatch) (files : List String) where
    commit_result-P :
        (r : HarnessRunResult) → Keeps P (commit_result site supervisor item context job_id files r)
    unfolding commit_result P
    commit_result-P r = Keeps->>= P _ _ (in_operation-P context _) λ _.
        Keeps->>= P _ _ (Keeps-stage_paths P (λ _ _. tt) site.outside files) λ _.
          Keeps->>= P _ _ (Keeps-commit_staged P (λ _ _. tt) site.outside _) λ commit.
            Keeps->>= P _ _ (record_commit-P context commit)
              λ _. Keeps->>= P _ _ (record_entry-P _) λ _. Keeps-pure P _

    undo-P :
        (detail text : String) (r : HarnessRunResult)
        → Keeps P (undo site supervisor item context job_id patch detail text r)
    unfolding undo P
    undo-P detail text r =
        Keeps->>= P _ _ (Keeps-revert_patch P (λ _ _. tt) site.outside patch.patch) λ _.
          Keeps->>= P _ _ (in_operation-P context _)
            λ _. Keeps->>= P _ _ (notify-P text) λ _. Keeps-pure P r

    semantic_gate-P :
        (r : HarnessRunResult)
        → Keeps P (semantic_gate site supervisor item context job_id patch files r)
    unfolding semantic_gate P
    semantic_gate-P r =
        Keeps-if P supervisor.has_semantic_verifier _ _
          (Keeps->>= P (ask_verdict site supervisor item context job_id patch r)
            (record_verdict site supervisor item context job_id patch files r) (Keeps-ask P _ _ tt)
            (λ verdict.
              Keeps->>= P _
                (λ _. after_verdict site supervisor item context job_id patch files r verdict)
                (record_entry-P _)
                (λ _. Keeps-if P (semantic_ok verdict) _ _ (commit_result-P _) (undo-P _ _ _))))
          (commit_result-P r)

    after_report-P :
        (r : HarnessRunResult)
        → Keeps P (after_report site supervisor item context job_id patch files r)
    after_report-P r = Keeps-if P r.post_apply.is_ok _ _ (semantic_gate-P r) (undo-P _ _ r)

    record_results-P :
        (results : List CommandResult)
        → Keeps P (record_results site supervisor item context job_id results)
    unfolding record_results
    record_results-P [] = Keeps-pure P tt
    record_results-P (r ∷ rs) = Keeps->>= P _ _ (record_entry-P _) λ _. record_results-P rs

    apply_and_test-P :
        (report : VerificationReport)
        → Keeps P (apply_and_test site supervisor item context job_id patch files report)
    unfolding apply_and_test P
    apply_and_test-P report = Keeps->>= P _ _ (in_operation-P context _) λ _.
        Keeps->>= P _ (λ _. test_patch site supervisor item context job_id patch files report)
          (Keeps-apply_patch P (λ _ _. tt) site.outside patch.patch)
          (λ _. Keeps->>= P _ _ (in_operation-P context _) λ _.
            Keeps->>= P _ _ (record_entry-P _) λ _.
              Keeps->>= P _ (after_commands site supervisor item context job_id patch files report)
                (run_verification_commands-IsAllowed site.outside site.platform
                  supervisor.command_policy item.verification_commands item.verification_commands
                  (contained item.verification_commands item.verification_commands (λ c h. h)))
                (λ results. Keeps->>= P _ _ (record_results-P results) λ _. after_report-P _))

    record_policy-P :
        (report : VerificationReport)
        → Keeps P (record_policy site supervisor item context job_id patch files report)
    record_policy-P report =
        Keeps->>= P _ (λ _. after_policy site supervisor item context job_id patch files report)
          (record_entry-P _)
          (λ _.
            Keeps-if P report.is_ok _ _ (apply_and_test-P report)
              (Keeps->>= P _ _ (notify-P _) λ _. Keeps-pure P _))

  with_patch-P :
      (completion : WorkerCompletion) (returned : Option WorkerPatch)
      → Keeps P (with_patch site supervisor item completion context returned)
  unfolding check_and_apply
  with_patch-P completion none = Keeps->>= P _ _ (notify-P _) λ _. Keeps-pure P _
  with_patch-P completion (some patch) = Keeps->>= P _ _ (record_entry-P _) λ _.
      Keeps->>= P _ (check_policy site supervisor item context completion.job_id patch) (lifted-P _)
        (λ files.
          Keeps->>= P _ (record_policy site supervisor item context completion.job_id patch files)
            (lifted-P _) (record_policy-P completion.job_id patch files))

  under_lease-P :
      (action : String) (body : Task HarnessRunResult) (answer : Option String)
      → Keeps P body
      → Keeps P (under_lease site supervisor action body answer)
  unfolding P
  under_lease-P action body (some message) keeps desk h = h
  under_lease-P action body none keeps desk h = (tt, keeps desk h)

-- If each process started so far is one of the work item's verification commands as the policy
-- resolves it, with the environment that the policy leaves of the parent's, then so is each one
-- when the execution of a completion ends, whether it returns or raises.
pub execute_worker_completion-IsAllowedCall :
    (site : Site) (supervisor : Supervisor) (item : WorkItem) (context : Option OperationContext)
    (completion : WorkerCompletion) (desk : Desk)
    → All
        (IsAllowedCall site.platform supervisor.command_policy site.outside.environ
          item.verification_commands)
        desk.calls
    → All
        (IsAllowedCall site.platform supervisor.command_policy site.outside.environ
          item.verification_commands)
        (execute_worker_completion site supervisor item completion context desk).1.calls
unfolding execute_worker_completion execute_worker_completion_locked P
execute_worker_completion-IsAllowedCall site supervisor item context completion =
    let Q = P site supervisor item context in
    Keeps->>= Q _ _ (Keeps-ask Q _ _ tt) λ answer.
      under_lease-P site supervisor item context _ _ answer (
        Keeps->>= Q _ (λ _. with_patch site supervisor item completion context completion.patch)
          (call_ledger-P site supervisor item context _)
          (λ _. with_patch-P site supervisor item context completion completion.patch))
