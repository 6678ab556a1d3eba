-- ===== src/State/Store.antt =====
-- `HohStateStore` of src/llm_harness/state.py: the files that it owns, as lists of records, and the
-- primitive reads and writes on them. A method is an action on the world, which also holds the
-- clock, the source of ids and the lease. A read or write of a file does not fail here.
use ho_h.Prelude.{
  ℕ, ◌+◌, String, Bool, Option, none, some, List, [], ◌∷◌, ◌++◌, ◌==◌, string_eq, format,
  if◌then◌else◌,
}
use ho_h.Prelude.Int.{ℤ, ◌+ℤ◌}
use ho_h.Prelude.Exec.{Exec, ok, err}
use ho_h.Prelude.Lists.{find_last}
use ho_h.Json.{Json, object, str}
use ho_h.Journal.{JournalEvent, Entry, Patterns, event_of, state_transition}
use ho_h.State.Records.{
  QueueTask, TaskStatus, show_status, Error, state_store_error, RunRecord, RollbackRecord,
  OperatorEvent, AuditRecord, ReviewBundleRecord, ReviewDecisionRecord, task_eq,
}

pub record Store : Type 0 where
  pub tasks : List QueueTask
  pub history : List RunRecord
  pub rollback_records : List RollbackRecord
  pub operator_events : List OperatorEvent
  pub audit_reports : List AuditRecord
  -- the Markdown files under audit-reports/, by path
  pub audit_files : List (String × String)
  pub review_bundles : List ReviewBundleRecord
  pub review_decisions : List ReviewDecisionRecord
  pub telegram_offset : Option ℤ
  pub journal : List JournalEvent

-- `utc n` and `uuid n` are what the n-th call of `_utc_now` or `uuid4` returns.
pub record World : Type 0 where
  pub store : Store
  pub open store use *
  pub utc : ℕ → String
  pub uuid : ℕ → String
  pub calls : ℕ
  pub patterns : Patterns
  pub audit_reports_dir : String
  -- the message of the `CoordinationError` with which taking the lease fails, if it does
  pub contended : Option String

abbrev pub Action : Type 0 → Type 0
Action A = Exec World Error A

-- `_state_mutation`: the body runs with the lease held. A nested call re-enters the lease, so
-- methods that call one another are composed from their bodies.
unfoldable pub under_lease : {A : Type 0} → Option String → Action A → Action A
under_lease none body w = body w
under_lease (some message) body w = (err (state_store_error message), w)

unfoldable pub state_mutation : {A : Type 0} → Action A → Action A
unfolding under_lease
state_mutation body w = under_lease w.contended body w

unfoldable pub utc_now : Action String
utc_now w = (ok (w.utc w.calls), record w { calls = w.calls + 1 })

unfoldable pub uuid4 : Action String
uuid4 w = (ok (w.uuid w.calls), record w { calls = w.calls + 1 })

-- `InteractionJournal.record`
unfoldable pub record_event : Entry → Action Unit
unfolding event_of
record_event e w =
    let event = event_of w.patterns (w.uuid w.calls) (w.utc (w.calls + 1)) e in
    (
      ok tt,
      record w {
        store = record w.store { journal = w.journal ++ event ∷ [] };
        calls = w.calls + 2;
      },
    )

-- `list_tasks` and `_write_tasks`
unfoldable pub list_tasks : Action (List QueueTask)
list_tasks w = (ok w.tasks, w)

unfoldable pub write_tasks : List QueueTask → Action Unit
write_tasks tasks w = (ok tt, record w { store = record w.store { tasks = tasks } })

abbrev pub has_id : String → QueueTask → Bool
has_id work_item_id task = task.work_item.id == work_item_id

unfoldable pub find_task : String → List QueueTask → Option QueueTask
unfolding find_last
find_task work_item_id tasks = find_last (has_id work_item_id) tasks

abbrev pub or_raise : {A : Type 0} → Error → Option A → Action A
or_raise e none w = (err e, w)
or_raise e (some a) w = (ok a, w)

abbrev pub unknown_task : String → Error
unknown_task work_item_id = state_store_error (format ("Unknown queued task: " ∷ work_item_id ∷ []))

unfoldable pub get_task : String → Action QueueTask
unfolding find_task
get_task work_item_id w = or_raise (unknown_task work_item_id) (find_task work_item_id w.tasks) w

abbrev put_under :
    QueueTask → Option (QueueTask × List QueueTask) → Option (QueueTask × List QueueTask)
put_under t none = none
put_under t (some (u, ts)) = some (u, t ∷ ts)

-- The loop of `_replace_task`, from the first entry up: the entry that passes the test, changed,
-- and the list with it in place.
unfoldable pub replace_first :
    (QueueTask → Bool)
    → (QueueTask → QueueTask)
    → List QueueTask
    → Option (QueueTask × List QueueTask)
replace_first test change [] = none
replace_first test change (t ∷ ts) =
    let rest = put_under t (replace_first test change ts) in
    if test t then some (change t, change t ∷ ts) else rest

-- The loop of `_update_task`, from the last entry down.
unfoldable pub replace_last :
    (QueueTask → Bool)
    → (QueueTask → QueueTask)
    → List QueueTask
    → Option (QueueTask × List QueueTask)
replace_last test change [] = none
replace_last test change (t ∷ ts) = elim (replace_last test change ts) [
  | some (u, ts') ↦ some (u, t ∷ ts')
  | none ↦ if test t then some (change t, change t ∷ ts) else none
]

-- Writes the queue back and returns the changed entry; the clock was read once.
unfoldable pub stored : Error → Option (QueueTask × List QueueTask) → Action QueueTask
stored e none w = (err e, w)
stored e (some (task, tasks)) w =
    (ok task, record w { store = record w.store { tasks = tasks }; calls = w.calls + 1 })

-- `_update_task`: status, attempts, commit and error are given anew, and nothing else changes.
unfoldable pub updated :
    TaskStatus → ℤ → Option String → Option String → String → QueueTask → QueueTask
updated status attempts_delta last_commit last_error now task = record task {
  status = status;
  updated_at_utc = now;
  attempts = task.attempts +ℤ attempts_delta;
  last_commit = last_commit;
  last_error = last_error;
}

unfoldable pub update_task :
    String → TaskStatus → ℤ → Option String → Option String → Action QueueTask
unfolding updated replace_last stored
update_task work_item_id status delta commit error w =
    let change = updated status delta commit error (w.utc w.calls) in
    stored (unknown_task work_item_id) (replace_last (has_id work_item_id) change w.tasks) w

-- `_replace_task`: the first entry equal to `current` gets the changes and a new time.
unfoldable pub replace_task : QueueTask → (QueueTask → QueueTask) → Action QueueTask
unfolding replace_first stored
replace_task current changes w =
    let change = λ (task : QueueTask). record (changes task) { updated_at_utc = w.utc w.calls } in
    let changed_error =
      state_store_error
        (format ("Queued task changed before transition: " ∷ current.work_item.id ∷ [])) in
    stored changed_error (replace_first (λ task. task == current) change w.tasks) w

-- `_transition_event`
unfoldable pub transition_event :
    QueueTask → TaskStatus → TaskStatus → String → Json → Option String → Action Unit
unfolding record_event
transition_event task previous current action details run_id = record_event (record {
  event_type = state_transition;
  actor = "supervisor";
  action = action;
  recipient = none;
  content = object (
      ("from", str (show_status previous))
      ∷ ("to", str (show_status current))
      ∷ ("details", details)
      ∷ []);
  task_id = some task.work_item.id;
  run_id = run_id;
  correlation_id = none;
})
