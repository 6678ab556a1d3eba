-- ===== src/Projects.antt =====
-- src/llm_harness/lifecycle.py: the tasks of a project specification, and the task files written for them.
pub mod Files
use ho_h.Prelude.{String, none, List, [], ◌∷◌}
use ho_h.Prelude.Exec.{Result, ok, err}
use ho_h.Prelude.Int.{ℤ}
use ho_h.Prelude.Results.{◌>>=◌}
use ho_h.Domain.{WorkItem}
use ho_h.Json.{Fields, fields, str, int, str_list}
use ho_h.Reading.{required_string, optional_integer, optional_string_tuple, required_string_tuple}

pub record ProjectTaskSpec : Type 0 where
  pub id : String
  pub title : String
  pub objective : String
  pub acceptance_criteria : List String
  pub verification_commands : List String
  pub allowed_paths : List String
  pub non_goals : List String
  pub depends_on : List String
  pub priority : ℤ

unfoldable pub to_work_item : ProjectTaskSpec → WorkItem
to_work_item task = record {
  id = task.id;
  title = task.title;
  objective = task.objective;
  acceptance_criteria = task.acceptance_criteria;
  verification_commands = task.verification_commands;
  allowed_paths = task.allowed_paths;
  non_goals = task.non_goals;
  depends_on = task.depends_on;
  priority = task.priority;
  correction_instructions = [];
  correction_decision_id = none;
}

abbrev pub spec_field : String
spec_field = "Project spec field '"

-- `_task_from_mapping`
unfoldable pub task_from_mapping : Fields → Result String ProjectTaskSpec
task_from_mapping payload = do
  id ← required_string spec_field payload "id"
  title ← required_string spec_field payload "title"
  objective ← required_string spec_field payload "objective"
  acceptance_criteria ← required_string_tuple spec_field payload "acceptance_criteria"
  verification_commands ← required_string_tuple spec_field payload "verification_commands"
  allowed_paths ← optional_string_tuple spec_field payload "allowed_paths"
  non_goals ← optional_string_tuple spec_field payload "non_goals"
  depends_on ← optional_string_tuple spec_field payload "depends_on"
  priority ← optional_integer spec_field payload "priority"
  ok (record {
    id = id;
    title = title;
    objective = objective;
    acceptance_criteria = acceptance_criteria;
    verification_commands = verification_commands;
    allowed_paths = allowed_paths;
    non_goals = non_goals;
    depends_on = depends_on;
    priority = priority;
  })

-- `_task_to_json`
unfoldable pub task_to_json : ProjectTaskSpec → Fields
task_to_json task = fields (
    ("id", str task.id)
    ∷ ("title", str task.title)
    ∷ ("objective", str task.objective)
    ∷ ("acceptance_criteria", str_list task.acceptance_criteria)
    ∷ ("verification_commands", str_list task.verification_commands)
    ∷ ("allowed_paths", str_list task.allowed_paths)
    ∷ ("non_goals", str_list task.non_goals)
    ∷ ("depends_on", str_list task.depends_on)
    ∷ ("priority", int task.priority)
    ∷ [])
