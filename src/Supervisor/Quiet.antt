-- ===== src/Supervisor/Quiet.antt =====
-- The methods of src/llm_harness/supervisor.py that have no effect on the repository.
use ho_h.Prelude.{
  String, Bool, true, false, Option, none, some, List, [], ◌∷◌, ◌≡◌, refl, arith, if◌then◌else◌,
}
use ho_h.Prelude.Exec.{Result, ok, err, pure, raise}
use ho_h.Journal.{Entry}
use ho_h.Domain.{WorkItem, CommandResult}
use ho_h.Git.Calls.{Desk, ask, recorded, LedgerCall}
use ho_h.Supervisor.{
  Site, Supervisor, OperationContext, lifted, notify, record_entry, unless_raised, call_ledger,
  in_operation, record_commit, record_results,
}
use ho_h.Supervisor.Effects.{Quiet, Quiet->>=, Quiet-pure, Quiet-raise, Quiet-ask}
use ho_h.Supervisor.GitEffects.{resolve_commit-Quiet}

pub notify-Quiet : (text : String) → Quiet (notify text)
notify-Quiet text = Quiet-ask _ _ (λ e. refl)

pub lifted-Quiet : {A : Type 0} (r : Result String A) → Quiet (lifted r)
lifted-Quiet (ok a) = Quiet-pure a
lifted-Quiet {A} (err message) = Quiet-raise A _

pub lifted-ok :
    {A : Type 0} (r : Result String A) (desk : Desk) (a : A) → (lifted r desk).0 ≡ ok a → r ≡ ok a
unfolding pure raise
lifted-ok (ok x) desk a h = ground (arith, h)
lifted-ok (err message) desk a h = absurd (ground (arith, h))

module _ (site : Site) (supervisor : Supervisor) where
  pub record_entry-Quiet : (entry : Entry) → Quiet (record_entry site supervisor entry)
  unfolding record_entry
  record_entry-Quiet entry = go supervisor.has_journal
    where
      go : (b : Bool) → Quiet (if b then ask (recorded entry) (λ _. tt) else pure tt)
      go true = Quiet-ask _ _ (λ e. refl)
      go false = Quiet-pure tt

  pub call_ledger-Quiet : (call : LedgerCall) → Quiet (call_ledger site supervisor call)
  unfolding call_ledger
  call_ledger-Quiet call = Quiet->>= _ _ (Quiet-ask _ _ (λ e. refl)) answer
    where
      answer : (message : Option String) → Quiet (unless_raised site supervisor message)
      answer none = Quiet-pure tt
      answer (some message) = Quiet-raise Unit _

  pub in_operation-Quiet :
      (context : Option OperationContext) (call : OperationContext → LedgerCall)
      → Quiet (in_operation site supervisor context call)
  in_operation-Quiet none call = Quiet-pure tt
  in_operation-Quiet (some context) call = call_ledger-Quiet (call context)

  pub record_commit-Quiet :
      (context : Option OperationContext) (commit : Option String)
      → Quiet (record_commit site supervisor context commit)
  record_commit-Quiet none commit = Quiet-pure tt
  record_commit-Quiet (some context) none = call_ledger-Quiet _
  record_commit-Quiet (some context) (some commit) =
      Quiet->>= _ _ (resolve_commit-Quiet site.outside commit) λ full. call_ledger-Quiet _

  module _ (item : WorkItem) (context : Option OperationContext) (job_id : String) where
    pub record_results-Quiet :
        (results : List CommandResult)
        → Quiet (record_results site supervisor item context job_id results)
    unfolding record_results
    record_results-Quiet [] = Quiet-pure tt
    record_results-Quiet (r ∷ rs) =
        Quiet->>= _ _ (record_entry-Quiet _) λ _. record_results-Quiet rs
