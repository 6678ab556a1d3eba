-- ===== src/Git/Calls.antt =====
-- What the supervisor does to the world outside, as a trace of calls, and how that world answers.
use ho_h.Prelude.{String, Option, List, ◌∷◌}
use ho_h.Prelude.Dict.{Dict}
use ho_h.Prelude.Exec.{Exec, Result, ok}
use ho_h.Prelude.Int.{ℤ}
use ho_h.Commands.{Refusal}
use ho_h.Domain.{WorkItem, WorkerPatch, CommandResult, SemanticVerificationReport}
use ho_h.Journal.{Entry}
use ho_h.Jobs.{WorkerJob, WorkerCompletion, JobWorld}
use ho_h.Json.{Json}

-- `subprocess.CompletedProcess` with its output decoded
pub record Completed : Type 0 where
  pub returncode : ℤ
  pub stdout : String
  pub stderr : String

-- how a verification command ends: with a result, with `TimeoutExpired` after the seconds that the
-- message names, or with an `OSError`
pub data ProcessOutcome : Type 0 where
  finished : ℤ → String → String → ProcessOutcome
  timed_out : String → String → ProcessOutcome
  not_started : String → ProcessOutcome

-- the calls of `OperationLedger`, each for an operation id
pub data LedgerCall : Type 0 where
  assert_no_blocking : LedgerCall
  begin_task : String → String → String → List String → LedgerCall
  phase : String → String → Json → LedgerCall
  terminal : String → String → String → LedgerCall

pub data Call : Type 0 where
  git : List String → Option String → Call
  process : List String → Dict String → Call
  notified : String → Call
  recorded : Entry → Call
  semantic : WorkItem → WorkerPatch → List CommandResult → Call
  ledger : LedgerCall → Call
  worker : WorkerJob → Call
  lease_taken lease_released : String → Call

-- The calls so far, the latest first, and the store of worker jobs.
pub record Desk : Type 0 where
  pub calls : List Call
  pub job_world : JobWorld

pub data Failure : Type 0 where
  git_error value_error ledger_error lock_contended key_error : String → Failure

-- The answers of git, of the commands, of the semantic verifier and of the worker depend on the calls
-- before, so they stand for any world that answers. `environ` is `os.environ`; `verify_semantics`
-- gives `err` for a
-- `ModelProviderError` or a `ValueError`; the ledger and the lease give the message of what they
-- raise.
pub record Outside : Type 0 where
  pub run_git : List Call → List String → Option String → Completed
  pub environ : Dict String
  pub run_process : List Call → List String → Dict String → ProcessOutcome
  pub show_refusal : Refusal → String
  pub verify_semantics :
      List Call
      → WorkItem
      → WorkerPatch
      → List CommandResult
      → Result String SemanticVerificationReport
  pub ask_ledger : List Call → LedgerCall → Option String
  pub run_job : List Call → WorkerJob → WorkerCompletion
  pub take_lease : List Call → Option String

-- A call is noted, and the answer is one to the calls before it.
unfoldable pub ask : {A : Type 0} → Call → (List Call → A) → Exec Desk Failure A
ask call answer desk = (ok (answer desk.calls), record desk { calls = call ∷ desk.calls })
