-- ===== src/State/Lifecycle/Replace.antt =====
-- The two loops of src/llm_harness/state.py that replace an entry, as changes of the queue.
use ho_h.Prelude.{
  String, true, none, some, List, [], ◌∷◌, ◌≡◌, inl, inr, refl, arith, ◌==◌, string_eq,
  Option-cases, contains,
}
use ho_h.State.Records.{QueueTask, task_eq}
use ho_h.State.Store.{has_id, find_task, replace_first, replace_last}
use ho_h.State.Lifecycle.{Rule, Lacks, Moved, Change}

pub find_task_id :
    (id : String) (ts : List QueueTask) {t : QueueTask}
    → find_task id ts ≡ some t
    → t.work_item.id ≡ id
unfolding find_task
find_task_id id [] e = cc
find_task_id id (u ∷ us) {t} e = elim (Option-cases (find_task id us)) [
  | inl absent ↦ ground (arith, absent)
  | inr (v, found) ↦ ground (arith, found, find_task_id id us {t = v} found)
]

Lacks-of_none : (id : String) (ts : List QueueTask) → find_task id ts ≡ none → Lacks id ts
unfolding find_task
Lacks-of_none id [] e = tt
Lacks-of_none id (u ∷ us) e = ground (arith, Lacks-of_none id us)

module _ (id : String) (f : QueueTask → QueueTask) where
  pub replace_last-none :
      (ts : List QueueTask) → find_task id ts ≡ none → replace_last (has_id id) f ts ≡ none
  unfolding find_task replace_last
  replace_last-none [] e = refl
  replace_last-none (u ∷ us) e = ground (arith, replace_last-none us)

module _ {rule : Rule} (id : String) (f : QueueTask → QueueTask) where
  pub replace_last_runs :
      (ts : List QueueTask) (t : QueueTask)
      → find_task id ts ≡ some t
      → ((after : List QueueTask) → Lacks id after → Moved rule t (f t) after)
      → (ts' : List QueueTask) × (replace_last (has_id id) f ts ≡ some (f t, ts'))
        × Change rule ts ts'
  unfolding find_task replace_last
  replace_last_runs [] t e m = cc
  replace_last_runs (u ∷ us) t e m = elim (Option-cases (find_task id us)) [
    | inl absent ↦
        let same : u ≡ t = ground (arith, absent) in
        let mine : u.work_item.id ≡ id = ground (arith, absent) in
        (
          f t ∷ us,
          ground (arith, replace_last-none id f us absent),
          rw same (Change.here (m us (Lacks-of_none id us absent))),
        )
    | inr (v, found) ↦
        let (us', eq, c) = replace_last_runs us t (ground (arith, found)) m in
        (u ∷ us', rw eq, Change.there c)
  ]

module _ {rule : Rule} (f : QueueTask → QueueTask) (t : QueueTask) where
  replace_first_at :
      (ts : List QueueTask)
      → contains t ts ≡ true
      → ((after : List QueueTask) → Moved rule t (f t) after)
      → (ts' : List QueueTask) × (replace_first (λ u. u == t) f ts ≡ some (f t, ts'))
        × Change rule ts ts'
  unfolding contains replace_first
  replace_first_at [] e m = cc
  replace_first_at (u ∷ us) e m = elim (task_eq.dec u t) [
    | yes same ↦ (f t ∷ us, ground arith, rw same (Change.here (m us)))
    | no differ ↦
        let (us', eq, c) = replace_first_at us (ground arith) m in
        (u ∷ us', ground (arith, eq), Change.there c)
  ]

find_task-contains :
    (id : String) (t : QueueTask) (ts : List QueueTask)
    → find_task id ts ≡ some t
    → contains t ts ≡ true
unfolding find_task contains
find_task-contains id t [] e = cc
find_task-contains id t (u ∷ us) e = ground (arith, find_task-contains id t us)

pub replace_first_runs :
    {rule : Rule} (id : String) (f : QueueTask → QueueTask) (ts : List QueueTask) (t : QueueTask)
    → find_task id ts ≡ some t
    → ((after : List QueueTask) → Moved rule t (f t) after)
    → (ts' : List QueueTask) × (replace_first (λ u. u == t) f ts ≡ some (f t, ts'))
      × Change rule ts ts'
replace_first_runs id f ts t e m = replace_first_at f t ts (find_task-contains id t ts e) m
