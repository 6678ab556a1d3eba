-- ===== src/Supervisor/Settled.antt =====
-- The completions that src/llm_harness/supervisor.py executes.
use ho_h.Prelude.{String, Option, none, some, ◌≡◌, ◌⊎◌, inl, inr, refl, arith}
use ho_h.Prelude.Exec.{ok}
use ho_h.Domain.{WorkItem, WorkerPatch, HarnessRunResult}
use ho_h.Git.{Task}
use ho_h.Git.Calls.{Desk}
use ho_h.Jobs.{WorkerCompletion}
use ho_h.Supervisor.{
  Site, Supervisor, OperationContext, check_and_apply, execute_worker_completion_locked,
}
use ho_h.Supervisor.Effects.{
  Effects, applying, reverting, effects, Sound, Sound-after, Sound-weaken, Sound-pure, Quiet-ask,
}
use ho_h.Supervisor.Quiet.{notify-Quiet, call_ledger-Quiet}
use ho_h.Supervisor.{execute_worker_completion, under_lease, with_patch}
use ho_h.Supervisor.Outcome.{IsLanded, Outcome, check_and_apply-Outcome}

-- What the execution of a completion returns and what it does to the repository: nothing, and no
-- commit; or the patch is applied and taken back, without a commit; or the patch has landed.
abbrev pub IsSettled :
    Site
    → Supervisor
    → WorkItem
    → Option OperationContext
    → Option WorkerPatch
    → Effects
    → HarnessRunResult
    → Effects
    → Type 0
IsSettled site supervisor item context returned e r e' =
    ((r.commit ≡ none) × (e' ≡ e))
    ⊎ ((patch : WorkerPatch) × (returned ≡ some patch)
        × (((r.commit ≡ none) × (e' ≡ reverting patch.patch (applying patch.patch e)))
            ⊎ IsLanded site supervisor item context patch e r e'))

module _ (site : Site) (supervisor : Supervisor) (item : WorkItem)
    (context : Option OperationContext) where
  with_patch-IsSettled :
      (completion : WorkerCompletion) (returned : Option WorkerPatch)
      → Sound
          (IsSettled site supervisor item context returned)
          (with_patch site supervisor item completion context returned)
  with_patch-IsSettled completion none =
      Sound-after (IsSettled site supervisor item context none) _ _ (notify-Quiet _)
        λ _. Sound-pure (IsSettled site supervisor item context none) _ (λ e. inl (refl, refl))
  with_patch-IsSettled completion (some patch) =
      Sound-weaken (Outcome site supervisor item context patch)
        (IsSettled site supervisor item context (some patch))
        (check_and_apply site supervisor item context completion.job_id patch) settled
        (check_and_apply-Outcome site supervisor item context completion.job_id patch)
    where
      settled :
          (e e' : Effects) (r : HarnessRunResult)
          → Outcome site supervisor item context patch e r e'
          → IsSettled site supervisor item context (some patch) e r e'
      settled e e' r (inl untouched) = inl untouched
      settled e e' r (inr rest) = inr (patch, refl, rest)

  under_lease-Sound :
      (P : Effects → HarnessRunResult → Effects → Type 0) (action : String)
      (body : Task HarnessRunResult) (answer : Option String)
      → Sound P body
      → Sound P (under_lease site supervisor action body answer)
  unfolding effects
  under_lease-Sound P action body (some message) s desk r h = absurd (ground (arith, h))
  under_lease-Sound P action body none s desk r h = s desk r h

  -- Where the execution of a completion returns, one of three things holds of its calls of `git apply`,
  -- `git apply -R`, `git add` and `git commit`, in their order: there is none, and the result has no
  -- commit; or the completion's patch is applied and then reversed, and the result has no commit; or
  -- the patch is applied, then the files that it changes are staged, if there are any, and then there is
  -- one commit with the task's message if the result has a commit, and none otherwise. In the third case
  -- the result has the report of the policy gate on the patch, which is `ok`; the work item has
  -- acceptance criteria; the report on the applied patch is `ok`; the results are those of the item's
  -- verification commands, in order, with the return code zero, and for each the policy resolves the
  -- command, and there is a trace of calls, with the effects of those before and then the application of
  -- the patch, at which the process of the resolved command finishes with zero and with the output of
  -- the result; and there is no semantic verifier, or there is such a trace at which it answers, on the
  -- patch and these results, with the verdict of the result, whose decision is "pass".
  pub execute_worker_completion-IsSettled :
      (completion : WorkerCompletion) (desk : Desk) (result : HarnessRunResult)
      → (execute_worker_completion site supervisor item completion context desk).0 ≡ ok result
      → IsSettled site supervisor item context completion.patch
          (effects desk.calls)
          result
          (effects (execute_worker_completion site supervisor item completion context desk).1.calls)
  unfolding execute_worker_completion execute_worker_completion_locked
  execute_worker_completion-IsSettled completion =
      Sound-after (IsSettled site supervisor item context completion.patch) _ _
        (Quiet-ask _ _ (λ e. refl))
        (λ answer.
          under_lease-Sound (IsSettled site supervisor item context completion.patch) _ _ answer (
            Sound-after (IsSettled site supervisor item context completion.patch) _
              (λ _. with_patch site supervisor item completion context completion.patch)
              (call_ledger-Quiet site supervisor _)
              (λ _. with_patch-IsSettled completion completion.patch)))
