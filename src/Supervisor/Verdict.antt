-- ===== src/Supervisor/Verdict.antt =====
-- `HarnessRunResult.ok` of what src/llm_harness/supervisor.py returns.
use ho_h.Prelude.{
  true, Option, none, some, ◌≡◌, ◌≢◌, ◌↔◌, inl, inr, refl, sym, ◌∙◌, arith, String, string_eq,
  ==_refl,
}
use ho_h.Prelude.Exec.{ok}
use ho_h.Domain.{
  WorkItem, WorkerPatch, HarnessRunResult, run_ok, semantic_ok, is_some, absent_or_ok,
}
use ho_h.Git.Calls.{Desk}
use ho_h.Jobs.{WorkerCompletion}
use ho_h.Supervisor.{Site, Supervisor, OperationContext, execute_worker_completion}
use ho_h.Supervisor.Effects.{Effects}
use ho_h.Supervisor.Outcome.{IsLanded}
use ho_h.Supervisor.Passed.{all-HavePassed}
use ho_h.Supervisor.Settled.{IsSettled, execute_worker_completion-IsSettled}
use ho_h.Supervisor.Tested.{Judged}

some_of : (commit : Option String) → is_some commit ≡ true → commit ≢ none
some_of none h same = ground (arith, h)
some_of (some c) h same = ground (arith, same)

some_from : (commit : Option String) → commit ≢ none → is_some commit ≡ true
some_from none h = absurd (h refl)
some_from (some c) h = refl

module _ (site : Site) (supervisor : Supervisor) (item : WorkItem)
    (context : Option OperationContext) where
  absent_or_ok-Judged :
      (patch : WorkerPatch) (e : Effects) (r : HarnessRunResult)
      → Judged site supervisor item context "" patch e r
      → absent_or_ok r.semantic_verification ≡ true
  unfolding semantic_ok
  absent_or_ok-Judged patch e r (inl (off, unasked)) = rw unasked refl
  absent_or_ok-Judged patch e r (inr (verdict, found, passes, answer)) =
      rw (found, passes) (==_refl {A = String} "pass")

  run_ok-IsLanded :
      (patch : WorkerPatch) (e e' : Effects) (r : HarnessRunResult)
      → IsLanded site supervisor item context patch e r e'
      → run_ok r ≡ is_some r.commit
  unfolding run_ok
  run_ok-IsLanded patch e e' r l = ground (
    arith,
    l.accepted,
    l.post_ok,
    all-HavePassed site.outside site.platform supervisor.command_policy _ item.verification_commands
        r.command_results l.all_pass,
    absent_or_ok-Judged patch _ r l.judged,
  )

  run_ok-commit :
      (returned : Option WorkerPatch) (e e' : Effects) (r : HarnessRunResult)
      → IsSettled site supervisor item context returned e r e'
      → run_ok r ≡ is_some r.commit
  unfolding run_ok
  run_ok-commit returned e e' r (inl (no_commit, _)) = ground (arith, no_commit)
  run_ok-commit returned e e' r (inr (patch, _, inl (no_commit, _))) = ground (arith, no_commit)
  run_ok-commit returned e e' r (inr (patch, _, inr landed)) = run_ok-IsLanded patch e e' r landed

  -- A result that the execution of a completion returns is `ok` exactly if it has a commit.
  pub run_ok-execute_worker_completion :
      (completion : WorkerCompletion) (desk : Desk) (result : HarnessRunResult)
      → (execute_worker_completion site supervisor item completion context desk).0 ≡ ok result
      → run_ok result ≡ true ↔ result.commit ≢ none
  run_ok-execute_worker_completion completion desk result returned =
      let same = run_ok-commit completion.patch _ _ result (
        execute_worker_completion-IsSettled site supervisor item context completion desk result
          returned) in
      (λ h. some_of result.commit (sym same ∙ h), λ h. same ∙ some_from result.commit h)
