-- ===== src/Supervisor/Evidence.antt =====
-- What src/llm_harness/supervisor.py writes into the journal, and `result_to_json` of
-- src/llm_harness/operations.py.
use ho_h.Prelude.{String, Option, none, some, List, [], ◌∷◌}
use ho_h.Json.{Json, null, object, flag, int, str, arr, str_list, optional_str}
use ho_h.Journal.{Patterns, redact}
use ho_h.Domain.{
  WorkItem, CommandResult, VerificationReport, HarnessRunResult, SemanticVerificationReport, Metric,
}
use ho_h.Domain
use ho_h.Jobs.{
  ExecutionTarget, agent, endpoint, ExecutionTargetType, local_agent, local_model_endpoint,
}
use ho_h.State.Encode.{items_of_list, evidence_to_json}

abbrev pub target_name : ExecutionTarget → String
target_name (agent target) = target.name
target_name (endpoint target) = target.name

abbrev pub show_type : ExecutionTargetType → String
show_type local_agent = "local_agent"
show_type local_model_endpoint = "local_model_endpoint"

abbrev pub show_target_type : ExecutionTarget → String
show_target_type (agent target) = show_type target.target_type
show_target_type (endpoint target) = show_type target.target_type

-- `_work_item_trace`
unfoldable pub work_item_trace : WorkItem → Json
work_item_trace item = object (
    ("id", str item.id)
    ∷ ("title", str item.title)
    ∷ ("objective", str item.objective)
    ∷ ("acceptance_criteria", str_list item.acceptance_criteria)
    ∷ ("verification_commands", str_list item.verification_commands)
    ∷ ("allowed_paths", str_list item.allowed_paths)
    ∷ ("non_goals", str_list item.non_goals)
    ∷ ("correction_instructions", str_list item.correction_instructions)
    ∷ ("correction_decision_id", optional_str item.correction_decision_id)
    ∷ [])

-- `_semantic_trace`
unfoldable pub semantic_trace : SemanticVerificationReport → Json
unfolding evidence_to_json
semantic_trace report = object (
    ("decision", str report.decision)
    ∷ ("summary", str report.summary)
    ∷ ("findings", str_list report.findings)
    ∷ ("evidence", evidence_to_json report.evidence)
    ∷ [])

abbrev pub metric_to_json : Metric → Json
metric_to_json (Domain.count z) = int z
metric_to_json (Domain.text s) = str s
metric_to_json (Domain.flag b) = flag b

abbrev pub metric_fields : List (String × Metric) → List (String × Json)
metric_fields [] = []
metric_fields ((name, metric) ∷ rest) = (name, metric_to_json metric) ∷ metric_fields rest

module _ (patterns : Patterns) where
  abbrev pub report_to_json : VerificationReport → Json
  report_to_json report = object (
      ("ok", flag report.is_ok)
      ∷ ("findings", redact (str_list report.findings) patterns)
      ∷ ("metrics", object (metric_fields report.metrics))
      ∷ [])

  abbrev pub command_to_json : CommandResult → Json
  command_to_json result = object (
      ("command", str result.command)
      ∷ ("return_code", int result.return_code)
      ∷ ("stdout", redact (str result.stdout) patterns)
      ∷ ("stderr", redact (str result.stderr) patterns)
      ∷ [])

  abbrev pub semantic_to_json : Option SemanticVerificationReport → Json
  semantic_to_json none = null
  semantic_to_json (some report) = object (
      ("decision", str report.decision)
      ∷ ("summary", redact (str report.summary) patterns)
      ∷ ("findings", redact (str_list report.findings) patterns)
      ∷ ("evidence", evidence_to_json report.evidence)
      ∷ [])

  unfoldable pub result_to_json : HarnessRunResult → Json
  unfolding items_of_list
  result_to_json result = object (
      ("pre_apply", report_to_json result.pre_apply)
      ∷ ("post_apply", report_to_json result.post_apply)
      ∷ ("command_results", arr (items_of_list command_to_json result.command_results))
      ∷ ("semantic_verification", semantic_to_json result.semantic_verification)
      ∷ [])
