-- ===== src/Projects/Files.antt =====
-- Task files that src/llm_harness/lifecycle.py writes and src/llm_harness/tasks.py reads.
use ho_h.Prelude.{
  String, String-discrete, false, Option, none, some, List, [], ◌∷◌, ◌≡◌, inl, inr, refl, subst,
  arith, ◌==◌, string_eq, Bool-cases,
}
use ho_h.Prelude.Chars.{strip}
use ho_h.Prelude.Chars.Strip.{strip-strip}
use ho_h.Prelude.Exec.{ok}
use ho_h.Prelude.Lists.{All, is_nil}
use ho_h.Prelude.Results.{◌>>=◌, bind_ok}
use ho_h.Json.{
  Json, null, flag, int, float, str, arr, obj, get, Items, nil, cons, Fields, str_items, str_list,
}
use ho_h.Projects.{ProjectTaskSpec, to_work_item, task_from_mapping, task_to_json, spec_field}
use ho_h.Reading.{
  optional_integer, optional_mapping_string, stripped_or, text_of, required_string, item_of,
  strings_from, list_of, optional_string_tuple, unless_none, required_string_tuple,
}
use ho_h.Tasks.{task_field, work_item_from_mapping}

-- a text with something in it and without spaces around it
abbrev IsText : String → Type 0
IsText s = (strip s ≡ s) × ((s == "") ≡ false)

stripped_or-IsText :
    (label key rest value s : String) → stripped_or label key rest value ≡ ok s → IsText s
stripped_or-IsText label key rest value s h = elim (Bool-cases (strip value == "")) [
  | inl blank ↦ absurd (ground (arith, h, blank))
  | inr other ↦
      let same : strip value ≡ s = ground (arith, h, other) in
      subst IsText same (strip-strip value, other)
]

text_of-IsText :
    (label key : String) (value : Option Json) (s : String)
    → text_of label key value ≡ ok s
    → IsText s
text_of-IsText label key none s h = absurd (ground (arith, h))
text_of-IsText label key (some null) s h = absurd (ground (arith, h))
text_of-IsText label key (some (flag b)) s h = absurd (ground (arith, h))
text_of-IsText label key (some (int z)) s h = absurd (ground (arith, h))
text_of-IsText label key (some (float x)) s h = absurd (ground (arith, h))
text_of-IsText label key (some (arr xs)) s h = absurd (ground (arith, h))
text_of-IsText label key (some (obj fs)) s h = absurd (ground (arith, h))
text_of-IsText label key (some (str value)) s h = stripped_or-IsText label key _ value s h

item_of-IsText :
    (label key : String) (value : Json) (s : String) → item_of label key value ≡ ok s → IsText s
item_of-IsText label key null s h = absurd (ground (arith, h))
item_of-IsText label key (flag b) s h = absurd (ground (arith, h))
item_of-IsText label key (int z) s h = absurd (ground (arith, h))
item_of-IsText label key (float x) s h = absurd (ground (arith, h))
item_of-IsText label key (arr xs) s h = absurd (ground (arith, h))
item_of-IsText label key (obj fs) s h = absurd (ground (arith, h))
item_of-IsText label key (str value) s h = stripped_or-IsText label key _ value s h

strings_from-IsText :
    (label key : String) (xs : Items) (ss : List String)
    → strings_from label key xs ≡ ok ss
    → All IsText ss
unfolding strings_from
strings_from-IsText label key nil ss h =
    let same : [] ≡ ss = ground (arith, h) in subst (All IsText) same tt
strings_from-IsText label key (cons x xs) ss h =
    let (s, first, h') =
      bind_ok (item_of label key x) (λ s. strings_from label key xs >>= λ ss. ok (s ∷ ss)) ss h in
    let (rest, others, h'') = bind_ok (strings_from label key xs) (λ ss. ok (s ∷ ss)) ss h' in
    let same : s ∷ rest ≡ ss = ground (arith, h'') in
    subst (All IsText) same
      (item_of-IsText label key x s first, strings_from-IsText label key xs rest others)

list_of-IsText :
    (label key : String) (value : Option Json) (ss : List String)
    → list_of label key value ≡ ok ss
    → All IsText ss
list_of-IsText label key none ss h =
    let same : [] ≡ ss = ground (arith, h) in subst (All IsText) same tt
list_of-IsText label key (some null) ss h =
    let same : [] ≡ ss = ground (arith, h) in subst (All IsText) same tt
list_of-IsText label key (some (arr xs)) ss h = strings_from-IsText label key xs ss h
list_of-IsText label key (some (flag b)) ss h = absurd (ground (arith, h))
list_of-IsText label key (some (int z)) ss h = absurd (ground (arith, h))
list_of-IsText label key (some (float x)) ss h = absurd (ground (arith, h))
list_of-IsText label key (some (str s)) ss h = absurd (ground (arith, h))
list_of-IsText label key (some (obj fs)) ss h = absurd (ground (arith, h))

-- such a list, with something in it
abbrev IsFull : List String → Type 0
IsFull ss = All IsText ss × (is_nil ss ≡ false)

unless_none-IsFull :
    (label key : String) (found ss : List String)
    → All IsText found
    → unless_none label key found ≡ ok ss
    → IsFull ss
unless_none-IsFull label key [] ss texts h = absurd (ground (arith, h))
unless_none-IsFull label key (s ∷ rest) ss texts h =
    let same : s ∷ rest ≡ ss = ground (arith, h) in subst IsFull same (texts, refl)

required_string_tuple-IsFull :
    (label : String) (payload : Fields) (key : String) (ss : List String)
    → required_string_tuple label payload key ≡ ok ss
    → IsFull ss
unfolding required_string_tuple optional_string_tuple
required_string_tuple-IsFull label payload key ss h =
    let (found, listed, h') =
      bind_ok (list_of label key (get key payload)) (unless_none label key) ss h in
    unless_none-IsFull label key found ss (list_of-IsText label key (get key payload) found listed)
      h'

-- reading what is written
read_text : (label key s : String) → IsText s → text_of label key (some (str s)) ≡ ok s
read_text label key s (same, full) = rw same (rw full refl)

read_item : (label key s : String) → IsText s → item_of label key (str s) ≡ ok s
read_item label key s (same, full) = rw same (rw full refl)

read_strings :
    (label key : String) (ss : List String)
    → All IsText ss
    → strings_from label key (str_items ss) ≡ ok ss
unfolding strings_from
read_strings label key [] h = refl
read_strings label key (s ∷ ss) (h, hs) =
    rw (read_item label key s h, read_strings label key ss hs) refl

read_full :
    (label key : String) (ss : List String)
    → IsFull ss
    → (list_of label key (some (str_list ss)) >>= unless_none label key) ≡ ok ss
read_full label key [] (h, full) = absurd (ground (arith, full))
read_full label key (s ∷ ss) (h, full) = rw (read_strings label key (s ∷ ss) h) refl

-- what a specification reads
record IsChecked (task : ProjectTaskSpec) : Type 0 where
  id : IsText task.id
  title : IsText task.title
  objective : IsText task.objective
  acceptance_criteria : IsFull task.acceptance_criteria
  verification_commands : IsFull task.verification_commands
  allowed_paths : All IsText task.allowed_paths
  non_goals : All IsText task.non_goals
  depends_on : All IsText task.depends_on

module _ (task : ProjectTaskSpec) (c : IsChecked task) where
  written_texts :
      (required_string task_field (task_to_json task) "id" ≡ ok task.id)
      × (required_string task_field (task_to_json task) "title" ≡ ok task.title)
      × (required_string task_field (task_to_json task) "objective" ≡ ok task.objective)
  unfolding required_string task_to_json get String-discrete
  written_texts = (
    read_text task_field "id" task.id c.id,
    read_text task_field "title" task.title c.title,
    read_text task_field "objective" task.objective c.objective,
  )

  written_full :
      (required_string_tuple task_field (task_to_json task) "acceptance_criteria"
        ≡ ok task.acceptance_criteria)
      × (required_string_tuple task_field (task_to_json task) "verification_commands"
          ≡ ok task.verification_commands)
  unfolding required_string_tuple optional_string_tuple task_to_json get String-discrete
  written_full = (
    read_full task_field "acceptance_criteria" task.acceptance_criteria c.acceptance_criteria,
    read_full task_field "verification_commands" task.verification_commands c.verification_commands,
  )

  written_lists :
      (optional_string_tuple task_field (task_to_json task) "allowed_paths" ≡ ok task.allowed_paths)
      × (optional_string_tuple task_field (task_to_json task) "non_goals" ≡ ok task.non_goals)
      × (optional_string_tuple task_field (task_to_json task) "depends_on" ≡ ok task.depends_on)
      × (optional_string_tuple task_field (task_to_json task) "correction_instructions" ≡ ok [])
  unfolding optional_string_tuple task_to_json get String-discrete
  written_lists = (
    read_strings task_field "allowed_paths" task.allowed_paths c.allowed_paths,
    read_strings task_field "non_goals" task.non_goals c.non_goals,
    read_strings task_field "depends_on" task.depends_on c.depends_on,
    refl,
  )

  written_others :
      (optional_integer task_field (task_to_json task) "priority" ≡ ok task.priority)
      × (optional_mapping_string task_field (task_to_json task) "correction_decision_id" ≡ ok none)
  unfolding optional_integer optional_mapping_string task_to_json get String-discrete
  written_others = (refl, refl)

  work_item_from_mapping-task_to_json :
      work_item_from_mapping (task_to_json task) ≡ ok (to_work_item task)
  unfolding work_item_from_mapping to_work_item
  work_item_from_mapping-task_to_json =
      let (id, title, objective) = written_texts in
      let (criteria, commands) = written_full in
      let (paths, non_goals, depends_on, instructions) = written_lists in
      let (priority, decision) = written_others in
      rw
        (
          id, title, objective, criteria, commands, paths, non_goals, depends_on, priority,
          instructions, decision,
        )
        refl

task_from_mapping-IsChecked :
    (payload : Fields) (task : ProjectTaskSpec)
    → task_from_mapping payload ≡ ok task
    → IsChecked task
unfolding task_from_mapping required_string optional_string_tuple
task_from_mapping-IsChecked payload task h =
    let text = λ (key : String). required_string spec_field payload key in
    let full = λ (key : String). required_string_tuple spec_field payload key in
    let list = λ (key : String). optional_string_tuple spec_field payload key in
    let (id, id_read, h1) = bind_ok (text "id") _ task h in
    let (title, title_read, h2) = bind_ok (text "title") _ task h1 in
    let (objective, objective_read, h3) = bind_ok (text "objective") _ task h2 in
    let (criteria, criteria_read, h4) = bind_ok (full "acceptance_criteria") _ task h3 in
    let (commands, commands_read, h5) = bind_ok (full "verification_commands") _ task h4 in
    let (paths, paths_read, h6) = bind_ok (list "allowed_paths") _ task h5 in
    let (non_goals, non_goals_read, h7) = bind_ok (list "non_goals") _ task h6 in
    let (depends_on, depends_on_read, h8) = bind_ok (list "depends_on") _ task h7 in
    let (priority, priority_read, h9) =
      bind_ok (optional_integer spec_field payload "priority") _ task h8 in
    let built : ProjectTaskSpec = record {
      id = id;
      title = title;
      objective = objective;
      acceptance_criteria = criteria;
      verification_commands = commands;
      allowed_paths = paths;
      non_goals = non_goals;
      depends_on = depends_on;
      priority = priority;
    } in
    let same : built ≡ task = ground (arith, h9) in
    subst IsChecked same (record {
      id = text_of-IsText spec_field "id" (get "id" payload) id id_read;
      title = text_of-IsText spec_field "title" (get "title" payload) title title_read;
      objective =
          text_of-IsText spec_field "objective" (get "objective" payload) objective objective_read;
      acceptance_criteria =
          required_string_tuple-IsFull spec_field payload "acceptance_criteria" criteria
            criteria_read;
      verification_commands =
          required_string_tuple-IsFull spec_field payload "verification_commands" commands
            commands_read;
      allowed_paths =
          list_of-IsText spec_field "allowed_paths" (get "allowed_paths" payload) paths paths_read;
      non_goals =
          list_of-IsText spec_field "non_goals" (get "non_goals" payload) non_goals non_goals_read;
      depends_on =
          list_of-IsText spec_field "depends_on" (get "depends_on" payload) depends_on
            depends_on_read;
    })

-- A task that a project specification reads from a JSON object is the work item that is loaded from
-- the task file written for it.
pub work_item_from_mapping-task_from_mapping :
    (payload : Fields) (task : ProjectTaskSpec)
    → task_from_mapping payload ≡ ok task
    → work_item_from_mapping (task_to_json task) ≡ ok (to_work_item task)
work_item_from_mapping-task_from_mapping payload task h =
    work_item_from_mapping-task_to_json task (task_from_mapping-IsChecked payload task h)
