-- ===== src/State/Graph/Entries.antt =====
-- The dictionaries behind the graph of src/llm_harness/state.py: what stands in them under an id, in
-- terms of the lists that they are made of.
use ho_h.Prelude.{
  String, Bool, true, false, ◌||◌, ◌&&◌, Option, none, some, List, [], ◌∷◌, ◌≡◌, inl, inr, refl, ap,
  ◌∙◌, subst, arith, ◌==◌, string_eq, contains, Bool-cases, eq_of_==, ==_refl, if◌then◌else◌,
}
use ho_h.Prelude.Dict.{Dict, lookup, put, lookup-put}
use ho_h.Prelude.Lists.{keep, find_last}
use ho_h.Prelude.Members.{Distinct}
use ho_h.Domain.{WorkItem}
use ho_h.State.Records.{QueueTask, done, status_eq}
use ho_h.State.Store.{find_task, has_id}
use ho_h.State.Graph.{
  latest_from, latest_tasks_by_id, edges, keys, unresolved, graph_over, placeholder, with_incoming,
}

abbrev pub first_some : {A : Type 0} → Option A → Option A → Option A
first_some none o = o
first_some (some a) o = some a

abbrev pub placed : Option WorkItem → Option QueueTask
placed none = none
placed (some item) = some (placeholder item)

abbrev pub names : String → WorkItem → Bool
names id item = item.id == id

lookup-latest_from :
    (id : String) (latest : Dict QueueTask) (ts : List QueueTask)
    → lookup id (latest_from latest ts) ≡ first_some (find_last (has_id id) ts) (lookup id latest)
unfolding latest_from find_last
lookup-latest_from id latest [] = refl
lookup-latest_from id latest (t ∷ ts) =
    lookup-latest_from id (put t.work_item.id t latest) ts ∙ step (find_last (has_id id) ts)
  where
    step :
        (o : Option QueueTask)
        → first_some o (lookup id (put t.work_item.id t latest))
          ≡ first_some
              (elim o [ some y ↦ some y | none ↦ if has_id id t then some t else none ])
              (lookup id latest)
    step (some y) = refl
    step none = elim (Bool-cases (t.work_item.id == id)) [
      | inl same ↦ rw (lookup-put, same) refl
      | inr other ↦ rw (lookup-put, other) refl
    ]

pub lookup-latest_tasks_by_id :
    (id : String) (ts : List QueueTask) → lookup id (latest_tasks_by_id ts) ≡ find_task id ts
unfolding latest_tasks_by_id find_task lookup
lookup-latest_tasks_by_id id ts = lookup-latest_from id [] ts ∙ bare (find_last (has_id id) ts)
  where
    bare : (o : Option QueueTask) → first_some o none ≡ o
    bare none = refl
    bare (some t) = refl

pub lookup-with_incoming :
    (id : String) (latest : Dict QueueTask) (items : List WorkItem)
    → lookup id (with_incoming latest items)
      ≡ first_some (placed (find_last (names id) items)) (lookup id latest)
unfolding with_incoming find_last
lookup-with_incoming id latest [] = refl
lookup-with_incoming id latest (item ∷ items) =
    lookup-with_incoming id (put item.id (placeholder item) latest) items
    ∙ step (find_last (names id) items)
  where
    step :
        (o : Option WorkItem)
        → first_some (placed o) (lookup id (put item.id (placeholder item) latest))
          ≡ first_some
              (placed
                (elim o [ some y ↦ some y | none ↦ if names id item then some item else none ]))
              (lookup id latest)
    step (some y) = refl
    step none = elim (Bool-cases (item.id == id)) [
      | inl same ↦ rw (lookup-put, same) refl
      | inr other ↦ rw (lookup-put, other) refl
    ]

module _ {V : Type 0} where
  pub lookup_absent : (k : String) (d : Dict V) → contains k (keys d) ≡ false → lookup k d ≡ none
  unfolding lookup contains
  lookup_absent k [] h = refl
  lookup_absent k ((j, v) ∷ d) h = ground (arith, lookup_absent k d, h, eq_of_== j k, ==_refl k)

  pub lookup_present :
      (k : String) (d : Dict V) → contains k (keys d) ≡ true → (v : V) × (lookup k d ≡ some v)
  unfolding lookup contains
  lookup_present k [] h = absurd (ground (arith, h))
  lookup_present k ((j, v) ∷ d) h = elim (Bool-cases (j == k)) [
    | inl same ↦ (v, rw same refl)
    | inr other ↦
        let (u, found) = lookup_present k d (ground (arith, h, other, eq_of_== k j, ==_refl k)) in
        (u, rw other found)
  ]

  pub contains-keys :
      (k : String) (d : Dict V) (v : V) → lookup k d ≡ some v → contains k (keys d) ≡ true
  contains-keys k d v h = elim (Bool-cases (contains k (keys d))) [
    | inl present ↦ present
    | inr absent ↦ absurd (ground (arith, h, lookup_absent k d absent))
  ]

  contains-put :
      (j k : String) (v : V) (d : Dict V)
      → contains j (keys (put k v d)) ≡ ((j == k) || contains j (keys d))
  unfolding put contains
  contains-put j k v [] = refl
  contains-put j k v ((i, w) ∷ d) = elim (Bool-cases (i == k)) [
    | inl same ↦ rw (same, eq_of_== i k same) (ground arith)
    | inr other ↦ rw (other, contains-put j k v d) (ground arith)
  ]

  pub Distinct-put :
      (k : String) (v : V) (d : Dict V) → Distinct (keys d) → Distinct (keys (put k v d))
  unfolding put contains
  Distinct-put k v [] h = (refl, tt)
  Distinct-put k v ((i, w) ∷ d) (fresh, h) = elim (Bool-cases (i == k)) [
    | inl same ↦ rw same (fresh, h)
    | inr other ↦
        rw other (contains-put i k v d ∙ ground (arith, other, fresh), Distinct-put k v d h)
  ]

pub Distinct-latest_from :
    (latest : Dict QueueTask) (ts : List QueueTask)
    → Distinct (keys latest)
    → Distinct (keys (latest_from latest ts))
unfolding latest_from
Distinct-latest_from latest [] h = h
Distinct-latest_from latest (t ∷ ts) h =
    Distinct-latest_from (put t.work_item.id t latest) ts (Distinct-put t.work_item.id t latest h)

pub Distinct-with_incoming :
    (latest : Dict QueueTask) (items : List WorkItem)
    → Distinct (keys latest)
    → Distinct (keys (with_incoming latest items))
unfolding with_incoming
Distinct-with_incoming latest [] h = h
Distinct-with_incoming latest (item ∷ items) h =
    Distinct-with_incoming (put item.id (placeholder item) latest) items
      (Distinct-put item.id (placeholder item) latest h)

abbrev pub still_open : Option QueueTask → Option QueueTask
still_open none = none
still_open (some t) = if t.status == done then none else some t

pub lookup-unresolved :
    (k : String) (d : Dict QueueTask)
    → Distinct (keys d)
    → lookup k (unresolved d) ≡ still_open (lookup k d)
unfolding lookup unresolved
lookup-unresolved k [] h = refl
lookup-unresolved k ((j, t) ∷ d) (fresh, h) = elim (Bool-cases (j == k)) [
  | inl same ↦ elim (Bool-cases (t.status == done)) [
    | inl finished ↦
        rw (same, finished)
          (lookup-unresolved k d h
            ∙ ap still_open (
                lookup_absent k d
                  (subst (λ u. contains u (keys d) ≡ false) (eq_of_== j k same) fresh)))
    | inr waits ↦ rw (waits, same, waits) refl
  ]
  | inr other ↦ elim (Bool-cases (t.status == done)) [
    | inl finished ↦ rw (other, finished) (lookup-unresolved k d h)
    | inr waits ↦ rw (waits, other) (lookup-unresolved k d h)
  ]
]

abbrev pub deps : (String → Bool) → Option QueueTask → List String
deps known none = []
deps known (some t) = keep known t.work_item.depends_on

pub edges-deps :
    (known : String → Bool) (d : Dict QueueTask) (t : String)
    → edges (graph_over known d) t ≡ deps known (lookup t d)
unfolding edges graph_over lookup
edges-deps known [] t = refl
edges-deps known ((k, task) ∷ d) t = elim (Bool-cases (k == t)) [
  | inl same ↦ rw same refl
  | inr other ↦ rw other (edges-deps known d t)
]

pub contains-keep :
    (x : String) (test : String → Bool) (xs : List String)
    → contains x (keep test xs) ≡ (contains x xs && test x)
unfolding contains keep
contains-keep x test [] = refl
contains-keep x test (y ∷ ys) = elim (Bool-cases (x == y)) [
  | inl same ↦ rw (eq_of_== x y same) (ground (arith, contains-keep y test ys, ==_refl y))
  | inr other ↦ ground (arith, contains-keep x test ys, other)
]
