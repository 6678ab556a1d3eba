-- ===== src/State/Graph/Verdict.antt =====
-- `_validate_enqueue_graph` of src/llm_harness/state.py, and the search for cycles behind it.
use mathlib.Core.WellFounded.{Acc, WellFounded}
use ho_h.Prelude.{
  String, true, false, not, List, [], ◌∷◌, ◌++◌, ◌≡◌, ◌⊎◌, ◌↔◌, inl, inr, refl, ap, subst, ◌∙◌,
  arith, string_eq, contains, Bool-cases,
}
use ho_h.Prelude.Exec.{Result, ok, err}
use ho_h.Prelude.Results.{◌>>=◌}
use ho_h.Prelude.Lists.{All, keep}
use ho_h.Prelude.Members.{Distinct}
use ho_h.Domain.{WorkItem}
use ho_h.State.Records.{QueueTask, Error}
use ho_h.State.Graph.{
  Graph, keys, visit_graph, queue_graph, has_duplicates, if_unknown, unknown_dependencies,
  check_dependencies, task_ids, item_ids, validate_enqueue_graph,
}
use ho_h.State.Graph.Cycles.{
  IsDependency, IsPath, IsCycle, names_cycle, Outcome, visit_graph-Outcome, WellFounded-keys,
  queue_graph-IsClosed,
}
use ho_h.State.Graph.Needed.{IsNeeded, combined, IsDependency-IsNeeded, IsNeeded-IsDependency}

module _ (R S : String → String → Type 0) (weaker : (d t : String) → R d t → S d t) where
  Acc-weaker : (t : String) → Acc S t → Acc R t
  Acc-weaker t (Acc.intro _ below) = Acc.intro t λ d h. Acc-weaker d (below d (weaker d t h))

  WellFounded-weaker : WellFounded S → WellFounded R
  WellFounded-weaker wf = record { apply = λ t. Acc-weaker t (wf.apply t) }

  IsPath-weaker : (ids : List String) → IsPath R ids → IsPath S ids
  IsPath-weaker [] p = tt
  IsPath-weaker (x ∷ []) p = tt
  IsPath-weaker (x ∷ y ∷ ys) (h, p) = (weaker y x h, IsPath-weaker (y ∷ ys) p)

module _ (R : String → String → Type 0) where
  -- `t` needs `d`, along one dependency or more
  data Needs : String → String → Type 0 where
    one : {d t : String} → R d t → Needs d t
    more : {d s t : String} → R d s → Needs s t → Needs d t

  Needs-trans : {d s t : String} → Needs d s → Needs s t → Needs d t
  Needs-trans (one h) n = more h n
  Needs-trans (more h m) n = more h (Needs-trans m n)

  -- a need begins with a dependency
  split-Needs : {d t : String} → Needs d t → (s : String) × R s t × ((d ≡ s) ⊎ Needs d s)
  split-Needs {d} (one h) = (d, h, inl refl)
  split-Needs {d} (more h n) =
      let (u, first, rest) = split-Needs n in
      (
        u,
        first,
        inr (elim rest [ inl same ↦ one (subst (λ s. R d s) same h) | inr n' ↦ more h n' ]),
      )

  no_loop : (t : String) → Acc R t → Needs t t → ⊥
  no_loop t (Acc.intro _ below) n =
      let (s, first, rest) = split-Needs n in
      no_loop s (below s first) (elim rest [
        | inl same ↦ subst (λ u. Needs u u) same n
        | inr n' ↦ Needs-trans (one first) n'
      ])

  path-Needs :
      (x : String) (xs : List String) (z : String) → IsPath R (x ∷ (xs ++ z ∷ [])) → Needs z x
  path-Needs x [] z (h, _) = one h
  path-Needs x (y ∷ ys) z (h, p) = Needs-trans (path-Needs y ys z p) (one h)

  no_cycle : WellFounded R → (ids : List String) → IsCycle R ids → ⊥
  no_cycle wf ids (t, middle, same, p) =
      no_loop t (wf.apply t) (path-Needs t middle t (subst (IsPath R) same p))

-- The search for cycles in the graph of a queue with a batch added ends within its fuel. Either it
-- returns, and then each chain of dependencies among the unfinished ids ends: those of the batch, and
-- those whose latest entry in the queue is not done. Or it raises a `StateStoreError` whose message
-- lists ids, of which each but the first is an unfinished dependency of the one before it, and of which
-- the last is the first again.
pub queue_graph-decided :
    (existing : List QueueTask) (incoming : List WorkItem)
    → ((visited : List String) × (visit_graph (queue_graph (combined existing incoming))
          ≡ ok visited)
        × WellFounded (IsNeeded existing incoming))
      ⊎ ((cycle : List String) × (visit_graph (queue_graph (combined existing incoming))
            ≡ err (names_cycle cycle))
          × IsCycle (IsNeeded existing incoming) cycle)
unfolding Outcome
queue_graph-decided existing incoming =
    go (visit_graph g) refl
      (visit_graph-Outcome g (queue_graph-IsClosed (combined existing incoming)))
  where
    g : Graph
    g = queue_graph (combined existing incoming)

    go :
        (r : Result Error (List String))
        → visit_graph g ≡ r
        → Outcome g (keys g) r
        → ((visited : List String) × (visit_graph g ≡ ok visited)
            × WellFounded (IsNeeded existing incoming))
          ⊎ ((cycle : List String) × (visit_graph g ≡ err (names_cycle cycle))
              × IsCycle (IsNeeded existing incoming) cycle)
    go (ok visited) e (sound, kept) = inl (
      visited,
      e,
      WellFounded-weaker (IsNeeded existing incoming) (IsDependency g)
          (IsNeeded-IsDependency existing incoming) (WellFounded-keys g sound),
    )
    go (err x) e (cycle, named, (t, middle, same, p)) = inr (
      cycle,
      e ∙ ap err named,
      (
        t,
        middle,
        same,
        IsPath-weaker (IsDependency g) (IsNeeded existing incoming)
            (IsDependency-IsNeeded existing incoming) cycle p,
      ),
    )

-- the dependencies of an item are ids of the queue or of the batch, and none is repeated
abbrev pub HasKnownDependencies : List QueueTask → List WorkItem → WorkItem → Type 0
HasKnownDependencies existing incoming item =
    Distinct item.depends_on
    × All (λ d. contains d (task_ids existing ++ item_ids incoming) ≡ true) item.depends_on

Distinct-has_duplicates : (xs : List String) → has_duplicates xs ≡ false ↔ Distinct xs
unfolding has_duplicates
Distinct-has_duplicates [] = (λ h. tt, λ h. refl)
Distinct-has_duplicates (x ∷ xs) = (
  λ h. (ground (arith, h), (Distinct-has_duplicates xs).0 (ground (arith, h))),
  λ (fresh, h). ground (arith, fresh, (Distinct-has_duplicates xs).1 h),
)

module _ (ids : List String) where
  All-unknown :
      (item : WorkItem) (ds : List String)
      → (if_unknown item (keep (λ d. not (contains d ids)) ds) ≡ ok tt)
        ↔ All (λ d. contains d ids ≡ true) ds
  unfolding keep
  All-unknown item [] = (λ h. tt, λ h. refl)
  All-unknown item (d ∷ ds) = elim (Bool-cases (contains d ids)) [
    | inl known ↦
        rw known (λ h. (refl, (All-unknown item ds).0 h), λ (k, h). (All-unknown item ds).1 h)
    | inr unknown ↦ rw unknown (λ h. absurd (ground (arith, h)), λ h. absurd (ground (arith, h)))
  ]

  abbrev AreKnown : List WorkItem → Type 0
  AreKnown = All λ (item : WorkItem).
      Distinct item.depends_on × All (λ d. contains d ids ≡ true) item.depends_on

  -- the rest of the loop, behind the tests of one item
  known_then :
      (item : WorkItem) (items : List WorkItem)
      → Distinct item.depends_on
      → (check_dependencies ids items ≡ ok tt) ↔ AreKnown items
      → (r : Result Error (Unit {0}))
      → (r ≡ ok tt) ↔ All (λ d. contains d ids ≡ true) item.depends_on
      → ((r >>= λ _. check_dependencies ids items) ≡ ok tt) ↔ AreKnown (item ∷ items)
  known_then item items apart rest (ok u) known =
      (λ h. ((apart, known.0 refl), rest.0 h), λ h. rest.1 h.1)
  known_then item items apart rest (err e) known =
      (λ h. absurd (ground (arith, h)), λ h. absurd (ground (arith, known.1 h.0.1)))

  check_dependencies_iff :
      (items : List WorkItem) → (check_dependencies ids items ≡ ok tt) ↔ AreKnown items
  unfolding check_dependencies unknown_dependencies
  check_dependencies_iff [] = (λ h. tt, λ h. refl)
  check_dependencies_iff (item ∷ items) = elim (Bool-cases (has_duplicates item.depends_on)) [
    | inl repeated ↦ (
      λ h. absurd (ground (arith, h, repeated)),
      λ h. absurd (ground (arith, repeated, (Distinct-has_duplicates item.depends_on).1 h.0.0)),
    )
    | inr apart ↦ rw apart (
        known_then item items ((Distinct-has_duplicates item.depends_on).0 apart)
          (check_dependencies_iff items)
          (if_unknown item (keep (λ d. not (contains d ids)) item.depends_on))
          (All-unknown item item.depends_on))
  ]

-- A batch passes `_validate_enqueue_graph` exactly if no item of it repeats a dependency, each
-- dependency of an item is an id of the queue or of the batch, and each chain of dependencies ends
-- among the unfinished ids: those of the batch, and those whose latest entry in the queue is not done.
pub validate_enqueue_graph_iff :
    (existing : List QueueTask) (incoming : List WorkItem)
    → (validate_enqueue_graph existing incoming ≡ ok tt) ↔ (
        All (HasKnownDependencies existing incoming) incoming
        × WellFounded (IsNeeded existing incoming))
unfolding validate_enqueue_graph
validate_enqueue_graph_iff existing incoming = (forth, back)
  where
    ids : List String
    ids = task_ids existing ++ item_ids incoming

    forth :
        validate_enqueue_graph existing incoming ≡ ok tt
        → All (HasKnownDependencies existing incoming) incoming
          × WellFounded (IsNeeded existing incoming)
    forth h = go (check_dependencies ids incoming) refl
      where
        go :
            (r : Result Error (Unit {0}))
            → check_dependencies ids incoming ≡ r
            → All (HasKnownDependencies existing incoming) incoming
              × WellFounded (IsNeeded existing incoming)
        go (err e) refused = absurd (ground (arith, h, refused))
        go (ok _) known = (
          (check_dependencies_iff ids incoming).0 known,
          elim (queue_graph-decided existing incoming) [
            | inl (visited, e, wf) ↦ wf
            | inr (cycle, e, loop) ↦ absurd (ground (arith, rw (known, e) at h))
          ],
        )

    back :
        All (HasKnownDependencies existing incoming) incoming
          × WellFounded (IsNeeded existing incoming)
        → validate_enqueue_graph existing incoming ≡ ok tt
    back (conditions, wf) =
        let known = (check_dependencies_iff ids incoming).1 conditions in
        elim (queue_graph-decided existing incoming) [
          | inl (visited, e, _) ↦ rw (known, e) refl
          | inr (cycle, e, loop) ↦ absurd (no_cycle (IsNeeded existing incoming) wf cycle loop)
        ]
