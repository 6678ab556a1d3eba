-- ===== src/Tests/Files.antt =====
-- A task of a project specification, written and loaded.
use ho_h.Prelude.{String, List, [], ◌∷◌, ◌≡◌, refl}
use ho_h.Prelude.Exec.{ok}
use ho_h.Prelude.Int.{pos}
use ho_h.Json.{Fields, fields, str, int, str_list}
use ho_h.Projects.{ProjectTaskSpec, to_work_item, task_from_mapping, task_to_json}
use ho_h.Projects.Files.{work_item_from_mapping-task_from_mapping}
use ho_h.Tasks.{work_item_from_mapping}

abbrev payload : Fields
payload = fields (
    ("id", str "T1")
    ∷ ("title", str " Parser ")
    ∷ ("objective", str "Parse")
    ∷ ("acceptance_criteria", str_list ("works " ∷ []))
    ∷ ("verification_commands", str_list ("pytest" ∷ []))
    ∷ ("priority", int (pos 2))
    ∷ [])

abbrev read_task : ProjectTaskSpec
read_task = record {
  id = "T1";
  title = "Parser";
  objective = "Parse";
  acceptance_criteria = "works" ∷ [];
  verification_commands = "pytest" ∷ [];
  allowed_paths = [];
  non_goals = [];
  depends_on = [];
  priority = pos 2;
}

work_item_from_mapping-task_from_mapping_example :
    work_item_from_mapping (task_to_json read_task) ≡ ok (to_work_item read_task)
unfolding task_from_mapping ho_h.Reading.required_string ho_h.Reading.required_string_tuple
    ho_h.Reading.optional_string_tuple ho_h.Reading.strings_from ho_h.Reading.optional_integer
    ho_h.Json.get ho_h.Prelude.String-discrete ho_h.Prelude.Chars.strip
work_item_from_mapping-task_from_mapping_example =
    work_item_from_mapping-task_from_mapping payload read_task refl
