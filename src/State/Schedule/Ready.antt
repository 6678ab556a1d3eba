-- ===== src/State/Schedule/Ready.antt =====
-- What the ready list of `schedule` in src/llm_harness/state.py holds.
use ho_h.Prelude.{
  ℕ, suc, String, Bool, true, false, Option, none, some, List, [], ◌∷◌, ◌≡◌, inl, inr, refl, subst,
  arith, map, ◌==◌, string_eq, eq_of_==, Bool-cases, if◌then◌else◌,
}
use ho_h.Prelude.Dict.{Dict, lookup, put}
use ho_h.Prelude.Lists.{All}
use ho_h.State.Records.{QueueTask, queued, status_eq, TaskReadiness}
use ho_h.State.Graph.{latest_tasks_by_id, dependency_status, dependency_blockers}
use ho_h.State.Schedule.{
  Indexed, indexed_from, readiness_of, ready_by_id_from, cons_found, pick_ready, readiness_list,
  ready_list, schedule,
}

-- a queued task whose dependencies are all done, by the latest entry of each
pub record IsReady (latest : Dict QueueTask) (task : QueueTask) : Type 0 where
  pub is_queued : task.status ≡ queued
  pub all_done : All (λ d. dependency_status latest d ≡ "done") task.work_item.depends_on

module _ {ℓ κ} {V : Type ℓ} (P : V → Type κ) where
  All-put :
      (key : String) (v : V) (d : Dict V)
      → P v
      → All (λ p. P p.1) d
      → All (λ p. P p.1) (put key v d)
  unfolding put
  All-put key v [] h hs = (h, tt)
  All-put key v ((k, u) ∷ d) h (hu, hs) = elim (Bool-cases (k == key)) [
    | inl same ↦ rw same (h, hs)
    | inr other ↦ rw other (hu, All-put key v d h hs)
  ]

  All-lookup :
      (key : String) (v : V) (d : Dict V) → All (λ p. P p.1) d → lookup key d ≡ some v → P v
  unfolding lookup
  All-lookup key v [] hs e = absurd (ground (arith, e))
  All-lookup key v ((k, u) ∷ d) (hu, hs) e = elim (Bool-cases (k == key)) [
    | inl same ↦ subst P (ground (arith, e, same)) hu
    | inr other ↦ All-lookup key v d hs (ground (arith, e, other))
  ]

no_blockers_lem :
    (latest : Dict QueueTask) (ds : List String)
    → dependency_blockers ds latest ≡ []
    → All (λ d. dependency_status latest d ≡ "done") ds
unfolding dependency_blockers
no_blockers_lem latest [] h = tt
no_blockers_lem latest (d ∷ ds) h = elim (Bool-cases (dependency_status latest d == "done")) [
  | inl is_done ↦ (
    eq_of_== (dependency_status latest d) "done" is_done,
    no_blockers_lem latest ds (ground (arith, h, is_done)),
  )
  | inr other ↦ absurd (ground (arith, h, other))
]

module _ (latest : Dict QueueTask) where
  readiness_of-IsReady :
      (t : QueueTask) → t.status ≡ queued → (readiness_of latest t).ready ≡ true → IsReady latest t
  unfolding readiness_of
  readiness_of-IsReady t q h = record {
    is_queued = q;
    all_done = no_blockers_lem latest t.work_item.depends_on (ground (arith, h));
  }

  indexed_from-IsReady :
      (i : ℕ) (ts : List QueueTask)
      → All
          (λ r. r.ready ≡ true → IsReady latest r.task)
          (map (λ (x : Indexed). readiness_of latest x.1) (indexed_from i ts))
  unfolding indexed_from readiness_of
  indexed_from-IsReady i [] = tt
  indexed_from-IsReady i (t ∷ ts) = elim (Bool-cases (t.status == queued)) [
    | inl is_queued ↦ rw is_queued (
      readiness_of-IsReady t (eq_of_== t.status queued is_queued),
      indexed_from-IsReady (suc i) ts,
    )
    | inr other ↦ rw other (indexed_from-IsReady (suc i) ts)
  ]

  All-if :
      (b : Bool) (d e : Dict TaskReadiness)
      → All (λ p. IsReady latest p.1.task) d
      → (b ≡ true → All (λ p. IsReady latest p.1.task) e)
      → All (λ p. IsReady latest p.1.task) (if b then e else d)
  All-if true d e hd he = he refl
  All-if false d e hd he = hd

  ready_by_id_from-IsReady :
      (rs : List TaskReadiness) (d : Dict TaskReadiness)
      → All (λ p. IsReady latest p.1.task) d
      → All (λ r. r.ready ≡ true → IsReady latest r.task) rs
      → All (λ p. IsReady latest p.1.task) (ready_by_id_from d rs)
  unfolding ready_by_id_from
  ready_by_id_from-IsReady [] d hd hs = hd
  ready_by_id_from-IsReady (r ∷ rs) d hd (h, hs) =
      ready_by_id_from-IsReady rs (if r.ready then put r.task.work_item.id r d else d)
        (All-if r.ready d (put r.task.work_item.id r d) hd
          λ is_ready. All-put (λ r. IsReady latest r.task) r.task.work_item.id r d (h is_ready) hd)
        hs

  cons_found-IsReady :
      (d : Dict TaskReadiness) (key : String) (o : Option TaskReadiness) (rs : List TaskReadiness)
      → lookup key d ≡ o
      → All (λ p. IsReady latest p.1.task) d
      → All (λ r. IsReady latest r.task) rs
      → All (λ r. IsReady latest r.task) (cons_found o rs)
  cons_found-IsReady d key none rs absent hd hs = hs
  cons_found-IsReady d key (some r) rs found hd hs =
      (All-lookup (λ r. IsReady latest r.task) key r d hd found, hs)

  pick_ready-IsReady :
      (d : Dict TaskReadiness) (xs : List Indexed)
      → All (λ p. IsReady latest p.1.task) d
      → All (λ r. IsReady latest r.task) (pick_ready d xs)
  unfolding pick_ready
  pick_ready-IsReady d [] hd = tt
  pick_ready-IsReady d ((i, t) ∷ xs) hd =
      cons_found-IsReady d t.work_item.id (lookup t.work_item.id d) (pick_ready d xs) refl hd
        (pick_ready-IsReady d xs hd)

-- Each task in the ready list of a schedule is queued, and the latest entry of each of its
-- dependencies is done.
pub schedule-IsReady :
    (tasks : List QueueTask)
    → All (λ r. IsReady (latest_tasks_by_id tasks) r.task) (schedule tasks).ready
unfolding schedule ready_list readiness_list
schedule-IsReady tasks =
    let latest = latest_tasks_by_id tasks in
    pick_ready-IsReady latest _ _ (
      ready_by_id_from-IsReady latest (readiness_list tasks) [] tt
        (indexed_from-IsReady latest 0 tasks))
