-- ===== src/State/Encode.antt =====
-- What src/llm_harness/state.py writes: the `_..._to_json` functions. The two records that hold a
-- path relative to the root are in `ho_h.State.Paths`.
use ho_h.Prelude.{String, Option, none, some, List, [], ◌∷◌}
use ho_h.Prelude.Int.{ℤ}
use ho_h.Json.{Json, null, flag, int, str, arr, Items, nil, cons, object, optional_str, str_list}
use ho_h.Domain.{WorkItem, CommandResult, ModelInvocationEvidence, SemanticVerificationReport}
use ho_h.State.Records.{
  QueueTask, show_status, RunRecord, RollbackRecord, OperatorEvent, ReviewFinding, CorrectionBrief,
  EscalationRequest, ReviewDecision, approve, reject, escalate, ReviewDecisionRecord,
}

abbrev pub int_or_null : Option ℤ → Json
int_or_null none = null
int_or_null (some z) = int z

unfoldable pub work_item_to_json : WorkItem → Json
work_item_to_json item = object (
    ("id", str item.id)
    ∷ ("title", str item.title)
    ∷ ("objective", str item.objective)
    ∷ ("acceptance_criteria", str_list item.acceptance_criteria)
    ∷ ("verification_commands", str_list item.verification_commands)
    ∷ ("allowed_paths", str_list item.allowed_paths)
    ∷ ("non_goals", str_list item.non_goals)
    ∷ ("depends_on", str_list item.depends_on)
    ∷ ("priority", int item.priority)
    ∷ ("correction_instructions", str_list item.correction_instructions)
    ∷ ("correction_decision_id", optional_str item.correction_decision_id)
    ∷ [])

unfoldable pub task_to_json : QueueTask → Json
task_to_json task = object (
    ("work_item", work_item_to_json task.work_item)
    ∷ ("status", str (show_status task.status))
    ∷ ("source", str task.source)
    ∷ ("added_at_utc", str task.added_at_utc)
    ∷ ("updated_at_utc", str task.updated_at_utc)
    ∷ ("attempts", int task.attempts)
    ∷ ("last_commit", optional_str task.last_commit)
    ∷ ("last_error", optional_str task.last_error)
    ∷ ("pending_review_bundle_id", optional_str task.pending_review_bundle_id)
    ∷ ("last_review_decision_id", optional_str task.last_review_decision_id)
    ∷ [])

unfoldable pub command_result_to_json : CommandResult → Json
command_result_to_json result = object (
    ("command", str result.command)
    ∷ ("return_code", int result.return_code)
    ∷ ("stdout", str result.stdout)
    ∷ ("stderr", str result.stderr)
    ∷ [])

unfoldable pub items_of_list {ℓ} : {A : Type ℓ} → (A → Json) → List A → Items
items_of_list encode [] = nil
items_of_list encode (x ∷ xs) = cons (encode x) (items_of_list encode xs)

-- `evidence` of `_semantic_verification_to_json`
unfoldable pub evidence_to_json : Option ModelInvocationEvidence → Json
evidence_to_json none = null
evidence_to_json (some e) = object (
    ("provider", str e.provider)
    ∷ ("model", str e.model)
    ∷ ("endpoint", str e.endpoint)
    ∷ ("request_id", optional_str e.request_id)
    ∷ ("attempts", int e.attempts)
    ∷ ("latency_ms", int e.latency_ms)
    ∷ ("input_tokens", int_or_null e.input_tokens)
    ∷ ("output_tokens", int_or_null e.output_tokens)
    ∷ ("total_tokens", int_or_null e.total_tokens)
    ∷ ("request_sha256", str e.request_sha256)
    ∷ ("response_sha256", str e.response_sha256)
    ∷ [])

unfoldable pub semantic_verification_to_json : Option SemanticVerificationReport → Json
semantic_verification_to_json none = null
semantic_verification_to_json (some report) = object (
    ("decision", str report.decision)
    ∷ ("summary", str report.summary)
    ∷ ("findings", str_list report.findings)
    ∷ ("evidence", evidence_to_json report.evidence)
    ∷ [])

unfoldable pub run_to_json : RunRecord → Json
run_to_json run = object (
    ("run_id", str run.run_id)
    ∷ ("work_item_id", str run.work_item_id)
    ∷ ("started_at_utc", str run.started_at_utc)
    ∷ ("finished_at_utc", str run.finished_at_utc)
    ∷ ("ok", flag run.is_ok)
    ∷ ("commit", optional_str run.commit)
    ∷ ("error", optional_str run.error)
    ∷ ("pre_apply_findings", str_list run.pre_apply_findings)
    ∷ ("post_apply_findings", str_list run.post_apply_findings)
    ∷ ("command_results", arr (items_of_list command_result_to_json run.command_results))
    ∷ ("semantic_verification", semantic_verification_to_json run.semantic_verification)
    ∷ [])

unfoldable pub rollback_record_to_json : RollbackRecord → Json
rollback_record_to_json rollback = object (
    ("rollback_id", str rollback.rollback_id)
    ∷ ("created_at_utc", str rollback.created_at_utc)
    ∷ ("work_item_id", str rollback.work_item_id)
    ∷ ("run_id", str rollback.run_id)
    ∷ ("target_commit", str rollback.target_commit)
    ∷ ("rollback_commit", optional_str rollback.rollback_commit)
    ∷ ("reason", str rollback.reason)
    ∷ ("ok", flag rollback.is_ok)
    ∷ ("changed_files", str_list rollback.changed_files)
    ∷ ("command_results", arr (items_of_list command_result_to_json rollback.command_results))
    ∷ ("error", optional_str rollback.error)
    ∷ [])

unfoldable pub operator_event_to_json : OperatorEvent → Json
operator_event_to_json event = object (
    ("event_id", str event.event_id)
    ∷ ("created_at_utc", str event.created_at_utc)
    ∷ ("command", str event.command)
    ∷ ("ok", flag event.is_ok)
    ∷ ("message", str event.message)
    ∷ ("raw_text", str event.raw_text)
    ∷ ("task_id", optional_str event.task_id)
    ∷ [])

unfoldable pub finding_to_json : ReviewFinding → Json
finding_to_json finding = object (
    ("code", str finding.code)
    ∷ ("severity", str finding.severity)
    ∷ ("message", str finding.message)
    ∷ ("path", optional_str finding.path)
    ∷ [])

unfoldable pub correction_to_json : Option CorrectionBrief → Json
correction_to_json none = null
correction_to_json (some brief) = object (
    ("rationale", str brief.rationale)
    ∷ ("instructions", str_list brief.instructions)
    ∷ ("validation_focus", str_list brief.validation_focus)
    ∷ [])

unfoldable pub escalation_to_json : Option EscalationRequest → Json
escalation_to_json none = null
escalation_to_json (some request) = object (
    ("reason", str request.reason)
    ∷ ("question", str request.question)
    ∷ ("options", str_list request.options)
    ∷ [])

abbrev pub show_decision : ReviewDecision → String
show_decision approve = "approve"
show_decision reject = "reject"
show_decision escalate = "escalate"

unfoldable pub review_decision_to_json : ReviewDecisionRecord → Json
unfolding correction_to_json escalation_to_json
review_decision_to_json r = object (
    ("decision_id", str r.decision_id)
    ∷ ("bundle_id", str r.bundle_id)
    ∷ ("bundle_sha256", str r.bundle_sha256)
    ∷ ("run_id", str r.run_id)
    ∷ ("work_item_id", str r.work_item_id)
    ∷ ("commit", str r.commit)
    ∷ ("reviewer_id", str r.reviewer_id)
    ∷ ("reviewer_kind", str r.reviewer_kind)
    ∷ ("decision", str (show_decision r.decision))
    ∷ ("summary", str r.summary)
    ∷ ("findings", arr (items_of_list finding_to_json r.findings))
    ∷ ("created_at_utc", str r.created_at_utc)
    ∷ ("imported_at_utc", str r.imported_at_utc)
    ∷ ("protocol_version", str r.protocol_version)
    ∷ ("correction_brief", correction_to_json r.correction_brief)
    ∷ ("escalation", escalation_to_json r.escalation)
    ∷ [])
