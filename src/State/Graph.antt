-- ===== src/State/Graph.antt =====
-- The dependency checks of src/llm_harness/state.py: the latest entry of each id, the blockers of a
-- task, and the depth-first search for cycles before a batch is enqueued.
pub mod Entries
pub mod Cycles
pub mod Needed
pub mod Verdict
use ho_h.Prelude.{
  ℕ, zero, suc, String, Bool, false, not, ◌||◌, Option, none, some, List, [], ◌∷◌, ◌++◌, map, ◌==◌,
  string_eq, contains, format, join, if◌then◌else◌,
}
use ho_h.Prelude.Int.{pos}
use ho_h.Prelude.Dict.{Dict, lookup, put}
use ho_h.Prelude.Exec.{Result, ok, err}
use ho_h.Prelude.Results.{◌>>=◌, ◌>>◌}
use ho_h.Prelude.Lists.{keep, length}
use ho_h.Domain.{WorkItem}
use ho_h.State.Records.{
  QueueTask, queued, done, status_eq, show_status, DependencyBlocker, Error, state_store_error,
  recursion_error,
}

unfoldable pub latest_from : Dict QueueTask → List QueueTask → Dict QueueTask
latest_from latest [] = latest
latest_from latest (t ∷ ts) = latest_from (put t.work_item.id t latest) ts

unfoldable pub latest_tasks_by_id : List QueueTask → Dict QueueTask
unfolding latest_from
latest_tasks_by_id tasks = latest_from [] tasks

unfoldable pub dependency_status : Dict QueueTask → String → String
dependency_status latest dependency_id = elim (lookup dependency_id latest) [
  | none ↦ "missing"
  | some dependency ↦ show_status dependency.status
]

unfoldable pub dependency_blockers : List String → Dict QueueTask → List DependencyBlocker
unfolding dependency_status
dependency_blockers [] latest = []
dependency_blockers (d ∷ ds) latest =
    let rest = dependency_blockers ds latest in
    let status = dependency_status latest d in
    if status == "done" then rest else record { task_id = d; status = status } ∷ rest

-- `len(set(xs)) != len(xs)`
unfoldable pub has_duplicates : List String → Bool
has_duplicates [] = false
has_duplicates (x ∷ xs) = contains x xs || has_duplicates xs

-- `xs[xs.index(x):]`
unfoldable pub from_first : String → List String → List String
from_first x [] = []
from_first x (y ∷ ys) = if y == x then y ∷ ys else from_first x ys

abbrev pub Graph : Type 0
Graph = Dict (List String)

abbrev or_empty : Option (List String) → List String
or_empty none = []
or_empty (some ds) = ds

-- `graph.get(task_id, ())`
unfoldable pub edges : Graph → String → List String
edges graph task_id = or_empty (lookup task_id graph)

unfoldable pub cycle_error : List String → String → Error
cycle_error visiting task_id = state_store_error (
    format (
      "Queue task dependency cycle: "
      ∷ join " -> " (from_first task_id visiting ++ task_id ∷ [])
      ∷ "."
      ∷ []))

-- The loop over the dependencies of one task, or over the whole graph.
unfoldable pub visit_each :
    (String → List String → Result Error (List String))
    → List String
    → List String
    → Result Error (List String)
visit_each visit [] visited = ok visited
visit_each visit (d ∷ ds) visited = do visited' ← visit d visited; visit_each visit ds visited'

-- `visit`: the stack is the argument `visiting`, and the result is the new set of visited ids. The
-- fuel makes the recursion structural: the recursion limit of the interpreter, beyond which the code
-- raises `RecursionError`, is not modelled.
unfoldable pub visit : ℕ → Graph → List String → String → List String → Result Error (List String)
unfolding edges visit_each cycle_error
visit zero graph visiting task_id visited = err recursion_error
visit (suc fuel) graph visiting task_id visited =
    if contains task_id visited
    then ok visited
    else if contains task_id visiting
    then err (cycle_error visiting task_id)
    else visit_each (visit fuel graph (visiting ++ task_id ∷ [])) (edges graph task_id) visited
      >>= λ visited'. ok (task_id ∷ visited')

abbrev pub keys {ℓ} : {V : Type ℓ} → Dict V → List String
keys [] = []
keys ((k, _) ∷ d) = k ∷ keys d

-- One more level than the graph has keys is enough.
unfoldable pub visit_graph : Graph → Result Error (List String)
unfolding visit visit_each
visit_graph graph = visit_each (visit (suc (length graph)) graph []) (keys graph) []

unfoldable pub unresolved : Dict QueueTask → Dict QueueTask
unresolved [] = []
unresolved ((k, t) ∷ d) =
    let rest = unresolved d in if t.status == done then rest else (k, t) ∷ rest

abbrev pub is_key {ℓ} : {V : Type ℓ} → Dict V → String → Bool
is_key d k = contains k (keys d)

unfoldable pub graph_over : (String → Bool) → Dict QueueTask → Graph
unfolding keep
graph_over known [] = []
graph_over known ((k, t) ∷ d) = (k, keep known t.work_item.depends_on) ∷ graph_over known d

unfoldable pub queue_graph : Dict QueueTask → Graph
unfolding graph_over unresolved
queue_graph latest = let open_tasks = unresolved latest in graph_over (is_key open_tasks) open_tasks

-- the `QueueTask` that stands for an incoming item while the graph is checked
abbrev pub placeholder : WorkItem → QueueTask
placeholder item = record {
  work_item = item;
  status = queued;
  source = "";
  added_at_utc = "";
  updated_at_utc = "";
  attempts = pos 0;
  last_commit = none;
  last_error = none;
  pending_review_bundle_id = none;
  last_review_decision_id = none;
}

unfoldable pub with_incoming : Dict QueueTask → List WorkItem → Dict QueueTask
with_incoming latest [] = latest
with_incoming latest (item ∷ items) = with_incoming (put item.id (placeholder item) latest) items

unfoldable pub unknown_dependencies : List String → WorkItem → List String
unfolding keep
unknown_dependencies known_ids item = keep (λ d. not (contains d known_ids)) item.depends_on

abbrev if_unknown : WorkItem → List String → Result Error (Unit {0})
if_unknown item [] = ok tt
if_unknown item (d ∷ ds) = err (
    state_store_error
      (format ("Task " ∷ item.id ∷ " has unknown dependencies: " ∷ join ", " (d ∷ ds) ∷ "." ∷ [])))

-- the first loop of `_validate_enqueue_graph`
unfoldable pub check_dependencies : List String → List WorkItem → Result Error (Unit {0})
unfolding unknown_dependencies has_duplicates
check_dependencies known_ids [] = ok tt
check_dependencies known_ids (item ∷ items) =
    if has_duplicates item.depends_on
    then err
        (state_store_error (format ("Task " ∷ item.id ∷ " contains duplicate dependencies." ∷ [])))
    else (if_unknown item (unknown_dependencies known_ids item) >>= λ _.
        check_dependencies known_ids items)

abbrev pub task_ids : List QueueTask → List String
task_ids = map (λ t. t.work_item.id)

abbrev pub item_ids : List WorkItem → List String
item_ids = map (λ item. item.id)

unfoldable pub validate_enqueue_graph : List QueueTask → List WorkItem → Result Error (Unit {0})
unfolding check_dependencies latest_tasks_by_id with_incoming queue_graph visit_graph
validate_enqueue_graph existing incoming = do
  check_dependencies (task_ids existing ++ item_ids incoming) incoming
  visit_graph (queue_graph (with_incoming (latest_tasks_by_id existing) incoming))
  ok tt
