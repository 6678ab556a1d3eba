-- ===== src/State/Schedule.antt =====
-- The scheduler of src/llm_harness/state.py: which queued tasks are ready, in which order, which of
-- them may run together, and which tasks stand downstream of one.
pub mod Ready
pub mod Batch
use ho_h.Prelude.{
  ℕ, zero, suc, String, Bool, true, false, not, ◌&&◌, ◌||◌, Option, none, some, List, [], ◌∷◌, ◌++◌,
  map, ◌==◌, string_eq, contains, format, ltb, leb, if◌then◌else◌,
}
use ho_h.Prelude.Int.{ℤ, pos, ltbℤ, int_eq}
use ho_h.Prelude.Dict.{Dict, lookup, put}
use ho_h.Prelude.Exec.{Result, ok, err}
use ho_h.Prelude.Lists.{any, keep, length}
use ho_h.Prelude.Chars.{strip, strip_slashes, translate, casefold, is_empty}
use text.Mathlib.Text.{starts_with}
use ho_h.State.Records.{
  QueueTask, queued, running, status_eq, TaskReadiness, QueueSchedule, DependencyBlocker, Error,
  state_store_error,
}
use ho_h.State.Graph.{keys, latest_tasks_by_id, dependency_blockers}

abbrev pub Indexed : Type 0
Indexed = ℕ × QueueTask

-- `[(index, task) for index, task in enumerate(tasks) if task.status == "queued"]`
unfoldable pub indexed_from : ℕ → List QueueTask → List Indexed
indexed_from i [] = []
indexed_from i (t ∷ ts) =
    let rest = indexed_from (suc i) ts in if t.status == queued then (i, t) ∷ rest else rest

abbrev no_blockers : List DependencyBlocker → Bool
no_blockers [] = true
no_blockers (_ ∷ _) = false

unfoldable pub readiness_of : Dict QueueTask → QueueTask → TaskReadiness
readiness_of latest task =
    let blockers = dependency_blockers task.work_item.depends_on latest in
    record { task = task; ready = no_blockers blockers; blockers = blockers }

-- The order of the keys `(-priority, index)`.
unfoldable pub sorts_before : Indexed → Indexed → Bool
sorts_before (i, s) (j, t) =
    ltbℤ t.work_item.priority s.work_item.priority
    || (s.work_item.priority == t.work_item.priority && ltb i j)

-- `sorted(...)`: insertion behind every entry that does not sort after the new one is stable.
unfoldable pub insert_sorted : Indexed → List Indexed → List Indexed
unfolding sorts_before
insert_sorted x [] = x ∷ []
insert_sorted x (y ∷ ys) =
    let rest = insert_sorted x ys in if sorts_before y x then y ∷ rest else x ∷ y ∷ ys

unfoldable pub sort_indexed : List Indexed → List Indexed
unfolding insert_sorted
sort_indexed [] = []
sort_indexed (x ∷ xs) = insert_sorted x (sort_indexed xs)

unfoldable pub ready_by_id_from : Dict TaskReadiness → List TaskReadiness → Dict TaskReadiness
ready_by_id_from d [] = d
ready_by_id_from d (r ∷ rs) =
    ready_by_id_from (if r.ready then put r.task.work_item.id r d else d) rs

abbrev pub cons_found : Option TaskReadiness → List TaskReadiness → List TaskReadiness
cons_found none rs = rs
cons_found (some r) rs = r ∷ rs

-- `ready_by_id[task.work_item.id] for ... if task.work_item.id in ready_by_id`
unfoldable pub pick_ready : Dict TaskReadiness → List Indexed → List TaskReadiness
pick_ready d [] = []
pick_ready d ((_, t) ∷ xs) = cons_found (lookup t.work_item.id d) (pick_ready d xs)

abbrev pub first_task : List TaskReadiness → Option QueueTask
first_task [] = none
first_task (r ∷ _) = some r.task

abbrev pub is_key_of : Dict TaskReadiness → Indexed → Bool
is_key_of d (_, t) = elim (lookup t.work_item.id d) [ none ↦ false | some _ ↦ true ]

-- The parts of `schedule`, each over the ones before it.
unfoldable pub readiness_list : List QueueTask → List TaskReadiness
unfolding indexed_from readiness_of
readiness_list tasks =
    let latest = latest_tasks_by_id tasks in
    map (λ (x : Indexed). readiness_of latest x.1) (indexed_from 0 tasks)

unfoldable pub ready_list : List QueueTask → List TaskReadiness
unfolding indexed_from sort_indexed ready_by_id_from pick_ready keep readiness_list
ready_list tasks =
    let ready_by_id = ready_by_id_from [] (readiness_list tasks) in
    pick_ready ready_by_id (sort_indexed (keep (is_key_of ready_by_id) (indexed_from 0 tasks)))

unfoldable pub waiting_list : List QueueTask → List TaskReadiness
unfolding readiness_list keep
waiting_list tasks = keep (λ r. not r.ready) (readiness_list tasks)

unfoldable pub schedule : List QueueTask → QueueSchedule
unfolding ready_list waiting_list
schedule tasks = record {
  selected = first_task (ready_list tasks);
  ready = ready_list tasks;
  waiting = waiting_list tasks;
}

-- `next_queued`
unfoldable pub next_queued : List QueueTask → Option QueueTask
next_queued tasks = (schedule tasks).selected

-- `_normalize_resource_path`
unfoldable pub normalize_resource_path : String → String
unfolding strip strip_slashes translate casefold
normalize_resource_path value =
    let normalized = casefold (strip_slashes (translate "\\" "/" (strip value))) in
    if is_empty normalized then "*" else normalized

-- the body of the two loops of `_resource_scopes_conflict`, over normalized paths
unfoldable pub paths_conflict : String → String → Bool
paths_conflict first second =
    first == "*"
    || second == "*"
    || first == second
    || starts_with first (format (second ∷ "/" ∷ []))
    || starts_with second (format (first ∷ "/" ∷ []))

unfoldable pub resource_scopes_conflict : List String → List String → Bool
unfolding any
resource_scopes_conflict [] right = true
resource_scopes_conflict (l ∷ ls) [] = true
resource_scopes_conflict (l ∷ ls) (r ∷ rs) =
    let normalized_right = map normalize_resource_path (r ∷ rs) in
    any (λ first. any (paths_conflict first) normalized_right)
      (map normalize_resource_path (l ∷ ls))

abbrev pub conflicts : QueueTask → QueueTask → Bool
conflicts candidate current =
    resource_scopes_conflict candidate.work_item.allowed_paths current.work_item.allowed_paths

-- The loop of `schedule_batch`: `selected` grows at its end, and the loop stops at the limit.
unfoldable pub select_batch : ℤ → List QueueTask → List TaskReadiness → List QueueTask
unfolding any
select_batch limit selected [] = selected
select_batch limit selected (r ∷ rs) =
    let selected' = selected ++ r.task ∷ [] in
    let skip = select_batch limit selected rs in
    let taken = select_batch limit selected' rs in
    if any (conflicts r.task) selected
    then skip
    else if pos (length selected') == limit
    then selected'
    else taken

unfoldable pub schedule_batch : ℤ → List QueueTask → Result Error (List QueueTask)
unfolding select_batch schedule
schedule_batch limit tasks =
    if ltbℤ limit (pos 1)
    then err (state_store_error "Scheduler batch limit must be at least 1.")
    else ok (select_batch limit [] (schedule tasks).ready)

-- `stale_running_tasks` over times in minutes: a time that the source cannot read raises.
unfoldable pub stale_from : (String → Option ℕ) → ℕ → List QueueTask → Result Error (List QueueTask)
stale_from parse cutoff [] = ok []
stale_from parse cutoff (t ∷ ts) =
    let rest = stale_from parse cutoff ts in
    if t.status == running
    then elim (parse t.updated_at_utc) [
      | none ↦ err (
          state_store_error
            (format ("Invalid UTC timestamp in queue state: " ∷ t.updated_at_utc ∷ [])))
      | some time ↦ elim rest [
        | err e ↦ err e
        | ok stale ↦ ok (if leb time cutoff then t ∷ stale else stale)
      ]
    ]
    else rest

-- The inner loop of `downstream_tasks`: the entries that depend on `dependency_id` and were not seen.
unfoldable pub dependents : String → List String → Dict QueueTask → Dict QueueTask
dependents dependency_id seen [] = []
dependents dependency_id seen ((task_id, t) ∷ d) =
    if contains task_id seen || not (contains dependency_id t.work_item.depends_on)
    then dependents dependency_id seen d
    else (task_id, t) ∷ dependents dependency_id (task_id ∷ seen) d

abbrev pub values : Dict QueueTask → List QueueTask
values [] = []
values ((_, t) ∷ d) = t ∷ values d

-- The outer loop, on fuel: `pending` is a queue, `seen` a set.
unfoldable pub downstream_from :
    ℕ → Dict QueueTask → List String → List String → List QueueTask → Option (List QueueTask)
unfolding dependents
downstream_from zero latest pending seen result = none
downstream_from (suc fuel) latest [] seen result = some result
downstream_from (suc fuel) latest (p ∷ pending) seen result =
    let found = dependents p seen latest in
    downstream_from fuel latest (pending ++ keys found) (keys found ++ seen)
      (result ++ values found)

-- Each round takes one id off the queue, and every id enters it once at most.
unfoldable pub downstream_tasks : String → List QueueTask → Option (List QueueTask)
unfolding downstream_from latest_tasks_by_id
downstream_tasks work_item_id tasks =
    let latest = latest_tasks_by_id tasks in
    downstream_from (suc (suc (length latest))) latest (work_item_id ∷ []) (work_item_id ∷ []) []
