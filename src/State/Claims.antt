-- ===== src/State/Claims.antt =====
-- `mark_running` and `set_telegram_update_offset` of src/llm_harness/state.py.
use ho_h.Prelude.{
  String, Bool, true, none, some, List, [], ◌∷◌, ◌≡◌, ap, inl, inr, refl, subst, arith, ◌==◌,
  string_eq, eq_of_==, Bool-cases, Option-cases,
}
use ho_h.Prelude.Int.{ℤ, pos, ltbℤ, ◌≤ℤ◌, ◌+ℤ◌}
use ho_h.Prelude.Exec.{Result, ok, err, ◌>>=◌}
use ho_h.Prelude.Lists.{All, find_first}
use ho_h.State.Records.{QueueTask, queued, running, status_eq, Error}
use ho_h.State.Store.{World, get_task, find_task, list_tasks, updated, transition_event}
use ho_h.State.Graph.{latest_tasks_by_id}
use ho_h.State.Schedule.{schedule}
use ho_h.State.Schedule.Ready.{IsReady, schedule-IsReady}
use ho_h.State.Queue.{lift, require_status, readiness_with_id, check_ready, mark_running}
use ho_h.State.Ledger.{set_telegram_update_offset}
use ho_h.State.Lifecycle.Permits.{anything}
use ho_h.State.Lifecycle.Rules.{update_task_runs}

find_first-All :
    {A : Type 0} (P : A → Type 0) (test : A → Bool) (xs : List A) (x : A)
    → All P xs
    → find_first test xs ≡ some x
    → P x × (test x ≡ true)
unfolding find_first
find_first-All P test [] x hs e = absurd (ground (arith, e))
find_first-All P test (y ∷ ys) x (h, hs) e = elim (Bool-cases (test y)) [
  | inl passes ↦ subst (λ x. P x × (test x ≡ true)) (ground (arith, e, passes)) (h, passes)
  | inr fails ↦ find_first-All P test ys x hs (ground (arith, e, fails))
]

-- a queued entry with the id, whose dependencies are done
abbrev pub IsStartable : String → List QueueTask → Type 0
IsStartable id tasks =
    (task : QueueTask) × (task.work_item.id ≡ id) × IsReady (latest_tasks_by_id tasks) task

check_ready-IsStartable :
    (id : String) (tasks : List QueueTask) → check_ready id tasks ≡ ok tt → IsStartable id tasks
unfolding check_ready
check_ready-IsStartable id tasks h =
    elim (Option-cases (find_first (readiness_with_id id) (schedule tasks).ready)) [
      | inl absent ↦ absurd (ground (arith, h, absent))
      | inr (r, found) ↦
          let (is_ready, named) =
            find_first-All (λ r. IsReady (latest_tasks_by_id tasks) r.task) (readiness_with_id id)
              (schedule tasks).ready r (schedule-IsReady tasks) found in
          (r.task, eq_of_== r.task.work_item.id id named, is_ready)
    ]

-- A task and what it becomes when it is started: every field is written out.
pub record IsStarted (w : World) (task started : QueueTask) : Type 0 where
  pub same_item : started.work_item ≡ task.work_item
  pub runs : started.status ≡ running
  pub same_source : started.source ≡ task.source
  pub same_added : started.added_at_utc ≡ task.added_at_utc
  pub new_time : started.updated_at_utc ≡ w.utc w.calls
  pub one_more : started.attempts ≡ task.attempts +ℤ pos 1
  pub no_commit : started.last_commit ≡ none
  pub no_error : started.last_error ≡ none
  pub same_bundle : started.pending_review_bundle_id ≡ task.pending_review_bundle_id
  pub same_decision : started.last_review_decision_id ≡ task.last_review_decision_id

updated-IsStarted :
    (w : World) (task started : QueueTask)
    → started ≡ updated running (pos 1) none none (w.utc w.calls) task
    → IsStarted w task started
unfolding updated
updated-IsStarted w task started h = record {
  same_item = ap (λ t. t.work_item) h;
  runs = ap (λ t. t.status) h;
  same_source = ap (λ t. t.source) h;
  same_added = ap (λ t. t.added_at_utc) h;
  new_time = ap (λ t. t.updated_at_utc) h;
  one_more = ap (λ t. t.attempts) h;
  no_commit = ap (λ t. t.last_commit) h;
  no_error = ap (λ t. t.last_error) h;
  same_bundle = ap (λ t. t.pending_review_bundle_id) h;
  same_decision = ap (λ t. t.last_review_decision_id) h;
}

-- When `mark_running` returns a task, the latest entry of the id was queued, an entry of the id was
-- queued with all its dependencies done, and the task is the latest entry, now running, at one more
-- attempt, with a new time and with its commit and error cleared, its other fields kept.
pub mark_running-IsStartable :
    (id : String) (w : World) (started : QueueTask)
    → (mark_running id w).0 ≡ ok started
    → IsStartable id w.tasks
      × ((task : QueueTask) × (find_task id w.tasks ≡ some task)
          × (task.status ≡ queued)
          × IsStarted w task started)
unfolding mark_running get_task list_tasks require_status lift ◌>>=◌ transition_event
mark_running-IsStartable id w started h = elim (Option-cases (find_task id w.tasks)) [
  | inl absent ↦ absurd (ground (arith, h, absent))
  | inr (task, found) ↦ elim (Bool-cases (task.status == queued)) [
    | inr other ↦ absurd (ground (arith, h, found, other))
    | inl is_queued ↦ go task found is_queued (check_ready id w.tasks) refl
  ]
]
  where
    go :
        (task : QueueTask)
        → find_task id w.tasks ≡ some task
        → (task.status == queued) ≡ true
        → (r : Result Error (Unit {0})) → check_ready id w.tasks ≡ r
        → IsStartable id w.tasks
          × ((task : QueueTask) × (find_task id w.tasks ≡ some task)
              × (task.status ≡ queued)
              × IsStarted w task started)
    go task found is_queued (err e) refused = absurd (ground (arith, h, found, is_queued, refused))
    go task found is_queued (ok u) passed =
        let q = eq_of_== task.status queued is_queued in
        let (ts, eq, ch) =
          update_task_runs {rule = anything} w id task found running (pos 1) none none tt in
        (
          check_ready-IsStartable id w.tasks passed,
          (
            task,
            found,
            q,
            updated-IsStarted w task started
                (ground (arith, rw (found, is_queued, passed, eq) at h)),
          ),
        )

-- Where an offset of the poller is stored, setting an offset leaves one that is at least as large as
-- the stored one and as the new one.
pub set_telegram_update_offset-grows :
    (offset current : ℤ) (w : World)
    → w.telegram_offset ≡ some current
    → (later : ℤ) × ((set_telegram_update_offset offset w).1.telegram_offset ≡ some later)
      × (current ≤ℤ later)
      × (offset ≤ℤ later)
unfolding set_telegram_update_offset
set_telegram_update_offset-grows offset current w here = elim (Bool-cases (ltbℤ offset current)) [
  | inl behind ↦ (current, rw (here, behind) refl, omega arith, ground (arith, behind))
  | inr ahead ↦ (offset, rw (here, ahead) refl, ground (arith, ahead), omega arith)
]
