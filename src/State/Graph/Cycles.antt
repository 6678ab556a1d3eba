-- ===== src/State/Graph/Cycles.antt =====
-- The search for cycles of src/llm_harness/state.py: it ends, and its verdict on the graph.
use mathlib.Core.WellFounded.{Acc, WellFounded}
use ho_h.Prelude.{
  ℕ, zero, suc, ◌+◌, String, Bool, true, false, List, [], ◌∷◌, ◌++◌, ◌≡◌, inl, inr, refl, sym, ap,
  arith, ◌==◌, string_eq, contains, Bool-cases, eq_of_==, ==_refl, format, join,
}
use ho_h.Prelude.Dict.{Dict, lookup}
use ho_h.Prelude.Exec.{Result, ok, err}
use ho_h.Prelude.Lists.{length, length-append, All, All-append, All-keep}
use ho_h.Prelude.Members.{Within, Distinct, Distinct-snoc, pigeonhole, All-contains, All-intro}
use ho_h.State.Records.{QueueTask, Error, state_store_error}
use ho_h.Prelude.Results.{◌>>=◌}
use ho_h.State.Graph.{
  Graph, from_first, edges, cycle_error, visit_each, visit, keys, visit_graph, is_key, graph_over,
  unresolved, queue_graph,
}

-- `d` is a dependency of `t`
abbrev pub IsDependency : Graph → String → String → Type 0
IsDependency g d t = contains d (edges g t) ≡ true

-- each id of the list but the first is related to the one before it
abbrev pub IsPath : (String → String → Type 0) → List String → Type 0
IsPath R [] = Unit
IsPath R (x ∷ []) = Unit
IsPath R (x ∷ y ∷ ys) = R y x × IsPath R (y ∷ ys)

-- a path that ends where it starts
abbrev pub IsCycle : (String → String → Type 0) → List String → Type 0
IsCycle R ids =
    (t : String) × (middle : List String) × (ids ≡ t ∷ (middle ++ t ∷ [])) × IsPath R ids

-- the error that names the ids of a cycle
abbrev pub names_cycle : List String → Error
names_cycle ids =
    state_store_error (format ("Queue task dependency cycle: " ∷ join " -> " ids ∷ "." ∷ []))

module _ (R : String → String → Type 0) where
  IsPath-snoc :
      (xs : List String) (t d : String)
      → IsPath R (xs ++ t ∷ [])
      → R d t
      → IsPath R ((xs ++ t ∷ []) ++ d ∷ [])
  IsPath-snoc [] t d p h = (h, tt)
  IsPath-snoc (x ∷ []) t d (before, _) h = (before, (h, tt))
  IsPath-snoc (x ∷ y ∷ ys) t d (before, p) h = (before, IsPath-snoc (y ∷ ys) t d p h)

  IsPath-tail :
      (x : String) (xs : List String) (t : String)
      → IsPath R (x ∷ (xs ++ t ∷ []))
      → IsPath R (xs ++ t ∷ [])
  IsPath-tail x [] t p = tt
  IsPath-tail x (y ∷ ys) t p = p.1

  -- a path that comes back to one of its ids holds a cycle
  from_first-IsCycle :
      (t : String) (xs : List String)
      → contains t xs ≡ true
      → IsPath R (xs ++ t ∷ [])
      → IsCycle R (from_first t xs ++ t ∷ [])
  unfolding from_first contains
  from_first-IsCycle t [] h p = absurd (ground (arith, h))
  from_first-IsCycle t (x ∷ xs) h p = elim (Bool-cases (x == t)) [
    | inl same ↦ rw same (x, xs, ap (λ u. x ∷ (xs ++ u ∷ [])) (sym (eq_of_== x t same)), p)
    | inr other ↦ rw other (
        from_first-IsCycle t xs (ground (arith, h, other, eq_of_== t x, ==_refl t))
          (IsPath-tail x xs t p))
  ]

-- every dependency in the graph is a key of it
abbrev pub IsClosed : Graph → Type 0
IsClosed g = (t : String) → Within (keys g) (edges g t)

length-keys : (g : Graph) → length (keys g) ≡ length g
length-keys [] = refl
length-keys ((k, ds) ∷ g) = ap suc (length-keys g)

module _ (g : Graph) where
  abbrev pub IsSound : String → Type 0
  IsSound = Acc (IsDependency g)

  -- what a search from the ids may come to
  unfoldable pub Outcome : List String → Result Error (List String) → Type 0
  Outcome ts (ok visited) = All IsSound ts × All IsSound visited
  Outcome ts (err e) =
      (cycle : List String) × (e ≡ names_cycle cycle) × IsCycle (IsDependency g) cycle

  Outcome-bind :
      (t : String) (ts : List String) (r : Result Error (List String))
      (rest : List String → Result Error (List String))
      → Outcome (t ∷ []) r
      → ((vs : List String) → All IsSound vs → Outcome ts (rest vs))
      → Outcome (t ∷ ts) (r >>= rest)
  unfolding Outcome
  Outcome-bind t ts (err e) rest o h = o
  Outcome-bind t ts (ok vs) rest ((sound, _), kept) h = go (rest vs) (h vs kept)
    where
      go : (r : Result Error (List String)) → Outcome ts r → Outcome (t ∷ ts) r
      go (err e) o = o
      go (ok vs') (all_sound, kept') = ((sound, all_sound), kept')

  visit_each-Outcome :
      (f : String → List String → Result Error (List String)) (ts visited : List String)
      → All IsSound visited
      → All (λ t. (vs : List String) → All IsSound vs → Outcome (t ∷ []) (f t vs)) ts
      → Outcome ts (visit_each f ts visited)
  unfolding visit_each Outcome
  visit_each-Outcome f [] visited h steps = (tt, h)
  visit_each-Outcome f (t ∷ ts) visited h (first, rest) =
      Outcome-bind t ts (f t visited) (visit_each f ts) (first visited h)
        λ vs kept. visit_each-Outcome f ts vs kept rest

  -- a task whose dependencies are sound is sound
  finish-Outcome :
      (t : String) (r : Result Error (List String))
      → Outcome (edges g t) r
      → Outcome (t ∷ []) (r >>= λ visited. ok (t ∷ visited))
  unfolding Outcome
  finish-Outcome t (err e) o = o
  finish-Outcome t (ok visited) (sound, kept) =
      let here : IsSound t = Acc.intro t λ d h. All-contains IsSound d (edges g t) sound h in
      ((here, tt), (here, kept))

  visit-Outcome :
      (fuel : ℕ) (visiting : List String) (t : String) (visited : List String)
      → IsClosed g
      → contains t (keys g) ≡ true
      → fuel + length visiting ≡ suc (length g)
      → Distinct visiting
      → Within (keys g) visiting
      → IsPath (IsDependency g) (visiting ++ t ∷ [])
      → All IsSound visited
      → Outcome (t ∷ []) (visit fuel g visiting t visited)
  unfolding visit Outcome cycle_error
  visit-Outcome zero visiting t visited closed key enough distinct within path kept =
      absurd (omega (arith, enough, pigeonhole visiting (keys g) distinct within, length-keys g))
  visit-Outcome (suc fuel) visiting t visited closed key enough distinct within path kept =
      elim (Bool-cases (contains t visited)) [
        | inl known ↦ rw known ((All-contains IsSound t visited kept known, tt), kept)
        | inr unknown ↦ elim (Bool-cases (contains t visiting)) [
          | inl cyclic ↦
              rw (unknown, cyclic)
                (
                  from_first t visiting ++ t ∷ [],
                  refl,
                  from_first-IsCycle (IsDependency g) t visiting cyclic path,
                )
          | inr fresh ↦
              rw (unknown, fresh)
                (finish-Outcome t _ (
                  visit_each-Outcome _ (edges g t) visited kept (
                    All-intro _ (edges g t) λ d h vs vs_kept.
                      visit-Outcome fuel (visiting ++ t ∷ []) d vs closed
                        (All-contains _ d (edges g t) (closed t) h)
                        (omega (arith, enough, length-append visiting (t ∷ [])))
                        (Distinct-snoc visiting t distinct fresh)
                        (All-append _ visiting (t ∷ []) within (key, tt))
                        (IsPath-snoc (IsDependency g) visiting t d path h) vs_kept)))
        ]
      ]

  pub visit_graph-Outcome : IsClosed g → Outcome (keys g) (visit_graph g)
  unfolding visit_graph
  visit_graph-Outcome closed = visit_each-Outcome _ (keys g) [] tt (
      All-intro _ (keys g) λ t key vs kept.
        visit-Outcome (suc (length g)) [] t vs closed key (omega arith) tt tt tt kept)

edges_of_absent : (g : Graph) (t : String) → contains t (keys g) ≡ false → edges g t ≡ []
unfolding edges lookup contains
edges_of_absent [] t h = refl
edges_of_absent ((k, ds) ∷ g) t h = ground (arith, edges_of_absent g t, h, eq_of_== k t, ==_refl t)

-- if the keys are sound, so is every id
pub WellFounded-keys : (g : Graph) → All (IsSound g) (keys g) → WellFounded (IsDependency g)
unfolding contains
WellFounded-keys g sound = record {
  apply = λ t. elim (Bool-cases (contains t (keys g))) [
    | inl key ↦ All-contains (IsSound g) t (keys g) sound key
    | inr absent ↦ Acc.intro t λ d h. absurd (ground (arith, h, edges_of_absent g t absent))
  ];
}

keys-graph_over : (known : String → Bool) (d : Dict QueueTask) → keys (graph_over known d) ≡ keys d
unfolding graph_over
keys-graph_over known [] = refl
keys-graph_over known ((k, t) ∷ d) = ap (λ ks. k ∷ ks) (keys-graph_over known d)

edges-graph_over :
    (known : String → Bool) (d : Dict QueueTask) (t : String)
    → All (λ x. known x ≡ true) (edges (graph_over known d) t)
unfolding graph_over edges lookup
edges-graph_over known [] t = tt
edges-graph_over known ((k, task) ∷ d) t = elim (Bool-cases (k == t)) [
  | inl same ↦ rw same (All-keep known task.work_item.depends_on)
  | inr other ↦ rw other (edges-graph_over known d t)
]

pub queue_graph-IsClosed : (latest : Dict QueueTask) → IsClosed (queue_graph latest)
unfolding queue_graph
queue_graph-IsClosed latest t =
    let open_tasks = unresolved latest in
    rw (keys-graph_over (is_key open_tasks) open_tasks)
      (edges-graph_over (is_key open_tasks) open_tasks t)
