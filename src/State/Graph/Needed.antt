-- ===== src/State/Graph/Needed.antt =====
-- Which task needs which, in terms of the queue and of the batch that is added to it, and the same in
-- the graph that src/llm_harness/state.py builds of them.
use ho_h.Prelude.{
  String, true, false, Option, none, some, List, [], ◌≡◌, ◌⊎◌, inl, inr, refl, sym, ap, ◌∙◌, subst,
  arith, ◌==◌, string_eq, contains, Bool-cases,
}
use ho_h.Prelude.Dict.{Dict, lookup}
use ho_h.Prelude.Lists.{find_last}
use ho_h.Prelude.Members.{Distinct}
use ho_h.Domain.{WorkItem}
use ho_h.State.Records.{QueueTask, done, status_eq}
use ho_h.State.Store.{find_task}
use ho_h.State.Graph.{
  latest_tasks_by_id, edges, keys, is_key, unresolved, queue_graph, placeholder, with_incoming,
}
use ho_h.State.Graph.Cycles.{IsDependency}
use ho_h.State.Graph.Entries.{
  first_some, placed, names, still_open, deps, lookup-latest_tasks_by_id, lookup-with_incoming,
  lookup_present, contains-keys, Distinct-latest_from, Distinct-with_incoming, lookup-unresolved,
  edges-deps, contains-keep,
}

-- The work item of an id, if the id is in the batch, or its latest entry in the queue is not done.
abbrev pub IsUnfinished : List QueueTask → List WorkItem → String → WorkItem → Type 0
IsUnfinished existing incoming id item =
    (find_last (names id) incoming ≡ some item)
    ⊎ ((find_last (names id) incoming ≡ none)
        × ((task : QueueTask) × (find_task id existing ≡ some task)
            × ((task.status == done) ≡ false)
            × (task.work_item ≡ item)))

-- `t` depends on `d`, and both are unfinished
abbrev pub IsNeeded : List QueueTask → List WorkItem → String → String → Type 0
IsNeeded existing incoming d t =
    ((item : WorkItem) × IsUnfinished existing incoming t item
      × (contains d item.depends_on ≡ true))
    × ((other : WorkItem) × IsUnfinished existing incoming d other)

-- the dictionary that the batch is checked on
abbrev pub combined : List QueueTask → List WorkItem → Dict QueueTask
combined existing incoming = with_incoming (latest_tasks_by_id existing) incoming

Distinct-combined :
    (existing : List QueueTask) (incoming : List WorkItem)
    → Distinct (keys (combined existing incoming))
unfolding latest_tasks_by_id
Distinct-combined existing incoming =
    Distinct-with_incoming (latest_tasks_by_id existing) incoming
      (Distinct-latest_from [] existing tt)

-- an entry under an id that is not done
abbrev IsOpen : Dict QueueTask → String → QueueTask → Type 0
IsOpen latest id task = (lookup id latest ≡ some task) × ((task.status == done) ≡ false)

still_open-some :
    (o : Option QueueTask) (t : QueueTask)
    → still_open o ≡ some t
    → (o ≡ some t) × ((t.status == done) ≡ false)
still_open-some none t h = absurd (ground (arith, h))
still_open-some (some x) t h = elim (Bool-cases (x.status == done)) [
  | inl finished ↦ absurd (ground (arith, h, finished))
  | inr waits ↦
      let same : x ≡ t = ground (arith, h, waits) in
      (ap some same, subst (λ (u : QueueTask). (u.status == done) ≡ false) same waits)
]

module _ (latest : Dict QueueTask) (distinct : Distinct (keys latest)) where
  IsOpen-key :
      (id : String)
      → contains id (keys (unresolved latest)) ≡ true
      → (task : QueueTask) × IsOpen latest id task
  IsOpen-key id h =
      let (t, found) = lookup_present id (unresolved latest) h in
      (t, still_open-some _ t (sym (lookup-unresolved id latest distinct) ∙ found))

  key_open :
      (id : String) (task : QueueTask)
      → IsOpen latest id task
      → contains id (keys (unresolved latest)) ≡ true
  key_open id task (found, waits) =
      contains-keys id (unresolved latest) task
        (lookup-unresolved id latest distinct ∙ ap still_open found ∙ rw waits refl)

  edges-queue_graph :
      (t : String)
      → edges (queue_graph latest) t
        ≡ deps (is_key (unresolved latest)) (still_open (lookup t latest))
  unfolding queue_graph
  edges-queue_graph t =
      edges-deps (is_key (unresolved latest)) (unresolved latest) t
      ∙ ap (deps (is_key (unresolved latest))) (lookup-unresolved t latest distinct)

  IsDependency-IsOpen :
      (d t : String)
      → IsDependency (queue_graph latest) d t
      → ((task : QueueTask) × IsOpen latest t task × (contains d task.work_item.depends_on ≡ true))
        × ((other : QueueTask) × IsOpen latest d other)
  unfolding contains
  IsDependency-IsOpen d t h =
      go (still_open (lookup t latest)) refl (ap (contains d) (sym (edges-queue_graph t)) ∙ h)
    where
      go :
          (o : Option QueueTask)
          → still_open (lookup t latest) ≡ o
          → contains d (deps (is_key (unresolved latest)) o) ≡ true
          → ((task : QueueTask) × IsOpen latest t task
              × (contains d task.work_item.depends_on ≡ true))
            × ((other : QueueTask) × IsOpen latest d other)
      go none e listed = absurd (ground (arith, listed))
      go (some task) e listed =
          let both = contains-keep d (is_key (unresolved latest)) task.work_item.depends_on in
          (
            (task, still_open-some _ task e, ground (arith, both, listed)),
            IsOpen-key d (ground (arith, both, listed)),
          )

  open-IsDependency :
      (d t : String) (task other : QueueTask)
      → IsOpen latest t task
      → contains d task.work_item.depends_on ≡ true
      → IsOpen latest d other
      → IsDependency (queue_graph latest) d t
  open-IsDependency d t task other (found, waits) listed open_other =
      let here : still_open (lookup t latest) ≡ some task = ap still_open found ∙ rw waits refl in
      let key = key_open d other open_other in
      ap (contains d) (edges-queue_graph t ∙ ap (deps (is_key (unresolved latest))) here)
      ∙ contains-keep d (is_key (unresolved latest)) task.work_item.depends_on
      ∙ ground (arith, listed, key)

module _ (existing : List QueueTask) (incoming : List WorkItem) where
  lookup-combined :
      (id : String)
      → lookup id (combined existing incoming)
        ≡ first_some (placed (find_last (names id) incoming)) (find_task id existing)
  lookup-combined id =
      lookup-with_incoming id (latest_tasks_by_id existing) incoming
      ∙ ap (first_some (placed (find_last (names id) incoming)))
          (lookup-latest_tasks_by_id id existing)

  open-IsUnfinished :
      (id : String) (task : QueueTask)
      → IsOpen (combined existing incoming) id task
      → IsUnfinished existing incoming id task.work_item
  open-IsUnfinished id task (found, waits) =
      go (find_last (names id) incoming) refl (sym (lookup-combined id) ∙ found)
    where
      go :
          (o : Option WorkItem)
          → find_last (names id) incoming ≡ o
          → first_some (placed o) (find_task id existing) ≡ some task
          → IsUnfinished existing incoming id task.work_item
      go (some item) e h =
          let same : placeholder item ≡ task = ground (arith, h) in
          inl (e ∙ ap (λ (t : QueueTask). some t.work_item) same)
      go none e h = inr (e, (task, h, waits, refl))

  IsUnfinished-IsOpen :
      (id : String) (item : WorkItem)
      → IsUnfinished existing incoming id item
      → (task : QueueTask) × IsOpen (combined existing incoming) id task × (task.work_item ≡ item)
  unfolding ho_h.State.Records.TaskStatus-discrete
  IsUnfinished-IsOpen id item (inl listed) = (
    placeholder item,
    (lookup-combined id ∙ ap (λ o. first_some (placed o) (find_task id existing)) listed, refl),
    refl,
  )
  IsUnfinished-IsOpen id item (inr (unlisted, (task, found, waits, same))) = (
    task,
    (
      lookup-combined id ∙ ap (λ o. first_some (placed o) (find_task id existing)) unlisted ∙ found,
      waits,
    ),
    same,
  )

  pub IsDependency-IsNeeded :
      (d t : String)
      → IsDependency (queue_graph (combined existing incoming)) d t
      → IsNeeded existing incoming d t
  IsDependency-IsNeeded d t h =
      let ((task, is_open, listed), (other, other_open)) =
        IsDependency-IsOpen (combined existing incoming) (Distinct-combined existing incoming) d t
          h in
      (
        (task.work_item, open-IsUnfinished t task is_open, listed),
        (other.work_item, open-IsUnfinished d other other_open),
      )

  pub IsNeeded-IsDependency :
      (d t : String)
      → IsNeeded existing incoming d t
      → IsDependency (queue_graph (combined existing incoming)) d t
  IsNeeded-IsDependency d t ((item, unfinished, listed), (other, waiting)) =
      let (task, is_open, same) = IsUnfinished-IsOpen t item unfinished in
      let (needed, needed_open, _) = IsUnfinished-IsOpen d other waiting in
      open-IsDependency (combined existing incoming) (Distinct-combined existing incoming) d t task
        needed is_open (ap (λ (i : WorkItem). contains d i.depends_on) same ∙ listed) needed_open
