-- ===== src/Tasks.antt =====
-- src/llm_harness/tasks.py: a task file, JSON or Markdown, as a work item. The file's text, the suffix of
-- its path in lower case, `json.loads` and `int` of a text are given.
use ho_h.Prelude.{
  String, Bool, not, ◌||◌, Option, none, some, List, [], ◌∷◌, ◌++◌, map, ◌==◌, string_eq, format,
  join, if◌then◌else◌,
}
use ho_h.Prelude.Chars.{strip, rstrip, casefold, translate, split_lines, after_prefix, has_prefix}
use ho_h.Prelude.Dict.{Dict, lookup, put}
use ho_h.Prelude.Exec.{Result, ok, err}
use ho_h.Prelude.Int.{ℤ, pos}
use ho_h.Prelude.Lists.{keep}
use ho_h.Prelude.Results.{◌>>=◌}
use ho_h.Domain.{WorkItem}
use ho_h.Json.{Json, obj, Fields, fields, str, int, str_list, optional_str}
use ho_h.Reading.{
  required_string, optional_mapping_string, optional_integer, optional_string_tuple,
  required_string_tuple,
}

abbrev pub task_field : String
task_field = "Task field '"

-- `_work_item_from_mapping`
unfoldable pub work_item_from_mapping : Fields → Result String WorkItem
work_item_from_mapping payload = do
  id ← required_string task_field payload "id"
  title ← required_string task_field payload "title"
  objective ← required_string task_field payload "objective"
  acceptance_criteria ← required_string_tuple task_field payload "acceptance_criteria"
  verification_commands ← required_string_tuple task_field payload "verification_commands"
  allowed_paths ← optional_string_tuple task_field payload "allowed_paths"
  non_goals ← optional_string_tuple task_field payload "non_goals"
  depends_on ← optional_string_tuple task_field payload "depends_on"
  priority ← optional_integer task_field payload "priority"
  correction_instructions ← optional_string_tuple task_field payload "correction_instructions"
  correction_decision_id ← optional_mapping_string task_field payload "correction_decision_id"
  ok (record {
    id = id;
    title = title;
    objective = objective;
    acceptance_criteria = acceptance_criteria;
    verification_commands = verification_commands;
    allowed_paths = allowed_paths;
    non_goals = non_goals;
    depends_on = depends_on;
    priority = priority;
    correction_instructions = correction_instructions;
    correction_decision_id = correction_decision_id;
  })

abbrev pub from_object : Json → Result String WorkItem
from_object (obj payload) = work_item_from_mapping payload
from_object _ = err "JSON task file must contain an object."

abbrev pub from_json : String → Option Json → Result String WorkItem
from_json path none = err (format ("Invalid JSON task file: " ∷ path ∷ []))
from_json path (some payload) = from_object payload

-- `_normalize_heading`, with ASCII letters in lower case
unfoldable pub normalize_heading : String → String
normalize_heading value = translate "_" " " (casefold (strip value))

-- `sections.setdefault(current, [])` and `sections[current].append(line)`
abbrev pub lines_of : Option (List String) → List String
lines_of none = []
lines_of (some lines) = lines

-- the loop of `_markdown_sections`
unfoldable pub sections_from : List String → Option String → Dict (List String) → Dict (List String)
unfolding after_prefix
sections_from [] current sections = sections
sections_from (raw_line ∷ lines) current sections = elim (after_prefix "## " (rstrip raw_line)) [
  | some heading ↦
      let name = normalize_heading heading in
      sections_from lines (some name) (put name (lines_of (lookup name sections)) sections)
  | none ↦ elim current [
    | none ↦ sections_from lines none sections
    | some name ↦
        sections_from lines (some name)
          (put name (lines_of (lookup name sections) ++ rstrip raw_line ∷ []) sections)
  ]
]

unfoldable pub markdown_sections : String → Dict (List String)
unfolding split_lines sections_from
markdown_sections text = sections_from (split_lines text) none []

abbrev pub unless_blank : Option String → Option String
unless_blank none = none
unless_blank (some rest) = if strip rest == "" then none else some (strip rest)

abbrev pub or_else : Option String → Option String → Option String
or_else (some a) b = some a
or_else none b = b

unfoldable pub heading_from : List String → Option String
unfolding after_prefix
heading_from [] = none
heading_from (raw_line ∷ lines) =
    or_else (unless_blank (after_prefix "# " (strip raw_line))) (heading_from lines)

-- `_first_markdown_heading`
unfoldable pub first_markdown_heading : String → Option String
unfolding split_lines heading_from
first_markdown_heading text = heading_from (split_lines text)

-- `_content_lines`
unfoldable pub content_lines : Dict (List String) → String → List String
content_lines sections heading =
    map strip (
      keep (λ line. not (strip line == ""))
        (lines_of (lookup (normalize_heading heading) sections)))

unfoldable pub is_list_item : String → Bool
is_list_item line = has_prefix "- " (strip line) || has_prefix "* " (strip line)

abbrev pub rest_or_empty : Option String → Option String → String
rest_or_empty (some rest) other = rest
rest_or_empty none (some rest) = rest
rest_or_empty none none = ""

-- `_strip_list_marker` of a list item
unfoldable pub strip_list_marker : String → String
unfolding after_prefix
strip_list_marker line =
    strip (rest_or_empty (after_prefix "- " (strip line)) (after_prefix "* " (strip line)))

unfoldable pub optional_list : Dict (List String) → String → List String
optional_list sections heading =
    map strip_list_marker (keep is_list_item (content_lines sections heading))

abbrev pub section_error : {A : Type 0} → String → String → Result String A
section_error heading rest =
    err (format ("Markdown task section '## " ∷ heading ∷ "' " ∷ rest ∷ []))

unfoldable pub required_list : Dict (List String) → String → Result String (List String)
required_list sections heading = unless_none (optional_list sections heading)
  where
    unless_none : List String → Result String (List String)
    unless_none [] = section_error heading "must contain at least one list item."
    unless_none (s ∷ ss) = ok (s ∷ ss)

abbrev pub scalar_of : List String → Option String
scalar_of [] = none
scalar_of (l ∷ ls) = some (strip (join "\n" (l ∷ ls)))

unfoldable pub optional_scalar : Dict (List String) → String → Option String
optional_scalar sections heading = scalar_of (content_lines sections heading)

unfoldable pub required_scalar : Dict (List String) → String → Result String String
required_scalar sections heading = unless_none (optional_scalar sections heading)
  where
    unless_none : Option String → Result String String
    unless_none none = section_error heading "is required."
    unless_none (some text) = ok text

unfoldable pub markdown_integer :
    (String → Option ℤ) → Dict (List String) → String → Result String ℤ
markdown_integer parse_int sections heading = go (optional_scalar sections heading)
  where
    read : Option ℤ → Result String ℤ
    read none = section_error heading "must be an integer."
    read (some value) = ok value

    go : Option String → Result String ℤ
    go none = ok (pos 0)
    go (some value) = read (parse_int value)

abbrev pub title_of : Option String → Dict (List String) → Result String String
title_of (some title) sections = ok title
title_of none sections = required_scalar sections "title"

abbrev pub in_file : String → Result String WorkItem → Result String WorkItem
in_file path (ok item) = ok item
in_file path (err message) =
    err (format ("Invalid Markdown task file " ∷ path ∷ ": " ∷ message ∷ []))

-- `_load_markdown_task`
unfoldable pub load_markdown_task : (String → Option ℤ) → String → String → Result String WorkItem
load_markdown_task parse_int text path = do
  let sections = markdown_sections text
  title ← title_of (first_markdown_heading text) sections
  id ← required_scalar sections "id"
  objective ← required_scalar sections "objective"
  acceptance_criteria ← required_list sections "acceptance criteria"
  verification_commands ← required_list sections "verification commands"
  priority ← markdown_integer parse_int sections "priority"
  in_file path (
      work_item_from_mapping (
        fields (
          ("id", str id)
          ∷ ("title", str title)
          ∷ ("objective", str objective)
          ∷ ("acceptance_criteria", str_list acceptance_criteria)
          ∷ ("verification_commands", str_list verification_commands)
          ∷ ("allowed_paths", str_list (optional_list sections "allowed paths"))
          ∷ ("non_goals", str_list (optional_list sections "non-goals"))
          ∷ ("depends_on", str_list (optional_list sections "depends on"))
          ∷ ("priority", int priority)
          ∷ ("correction_instructions", str_list (optional_list sections "correction instructions"))
          ∷ (
            "correction_decision_id",
            optional_str (optional_scalar sections "correction decision id"),
          )
          ∷ [])))

-- `load_work_item`, of the text of the file
unfoldable pub load_work_item :
    (String → Option Json) → (String → Option ℤ) → String → String → String → Result String WorkItem
load_work_item loads parse_int path suffix text =
    if suffix == ".json"
    then from_json path (loads text)
    else if suffix == ".md" || suffix == ".markdown"
    then load_markdown_task parse_int text path
    else err (format ("Unsupported task file extension: " ∷ suffix ∷ []))
