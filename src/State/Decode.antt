-- ===== src/State/Decode.antt =====
-- What src/llm_harness/state.py reads: the `_..._from_json` functions. An argument of a record is
-- computed in the order of the source, so the first one that fails gives the error.
use ho_h.Prelude.{String, Option, none, some, List, [], ◌∷◌, ◌==◌, string_eq, format, if◌then◌else◌}
use ho_h.Prelude.Int.{ℤ, pos}
use ho_h.Prelude.Exec.{Result, ok, err}
use ho_h.Json.{Json, null, int, str, arr, Items, Fields, get}
use ho_h.Domain.{
  WorkItem, CommandResult, ModelInvocationEvidence, SemanticVerificationReport, checked,
}
use ho_h.State.Records.{
  QueueTask, TaskStatus, queued, running, review_pending, rework_required, escalated, done, failed,
  rolled_back, Error, state_store_error, type_error, value_error, RunRecord, RollbackRecord,
  OperatorEvent, ReviewFinding, CorrectionBrief, EscalationRequest, ReviewDecision, approve, reject,
  escalate, ReviewDecisionRecord,
}
use ho_h.Prelude.Results.{◌>>=◌}
use ho_h.State.Values.{
  Python, Decoded, at_key, get_or, expect_object, str_of, int_of, truthy, str_at, str_or_empty,
  int_or_zero, optional_string, optional_int, strings, strings_at, decode_items, decode_each,
}

or_error : {A : Type 0} → Error → Option A → Decoded A
or_error e none = err e
or_error e (some a) = ok a

unfoldable pub read_status : String → Option TaskStatus
read_status s =
    if s == "queued"
    then some queued
    else if s == "running"
    then some running
    else if s == "review_pending"
    then some review_pending
    else if s == "rework_required"
    then some rework_required
    else if s == "escalated"
    then some escalated
    else if s == "done"
    then some done
    else if s == "failed"
    then some failed
    else if s == "rolled_back"
    then some rolled_back
    else none

unfoldable pub read_decision : String → Option ReviewDecision
read_decision s =
    if s == "approve"
    then some approve
    else if s == "reject"
    then some reject
    else if s == "escalate"
    then some escalate
    else none

unfoldable pub priority_from_json : Json → Decoded ℤ
priority_from_json (int z) = ok z
priority_from_json _ = err (state_store_error "Queue work_item priority must be an integer.")

-- `data.get(key)` as `None` where the key is missing
unfoldable pub get_null : String → Fields → Json
unfolding get_or
get_null key data' = get_or key null data'

-- the `ValueError` of `__post_init__`
unfoldable pub report_or_error :
    Result String SemanticVerificationReport → Decoded (Option SemanticVerificationReport)
report_or_error (ok report) = ok (some report)
report_or_error (err message) = err (value_error message)

module _ (py : Python) where
  -- A list or a dictionary has no hash, so that `value in {...}` raises on it.
  unfoldable pub status_from_json : Json → Decoded TaskStatus
  unfolding or_error
  status_from_json (str s) =
      or_error (state_store_error (format ("Invalid task status: " ∷ s ∷ []))) (read_status s)
  status_from_json (arr items) = err type_error
  status_from_json (Json.obj data') = err type_error
  status_from_json v = err (state_store_error (format ("Invalid task status: " ∷ str_of py v ∷ [])))

  unfoldable pub decision_from_json : Json → Decoded ReviewDecision
  unfolding or_error
  decision_from_json (str s) =
      or_error (state_store_error (format ("Invalid review decision: " ∷ s ∷ []))) (read_decision s)
  decision_from_json (arr items) = err type_error
  decision_from_json (Json.obj data') = err type_error
  decision_from_json v =
      err (state_store_error (format ("Invalid review decision: " ∷ str_of py v ∷ [])))

  unfoldable pub work_item_from_json : Json → Decoded WorkItem
  work_item_from_json v = expect_object "Queue work_item must be an object." v >>= λ d.
      str_at py "id" d >>= λ id. str_at py "title" d >>= λ title.
      str_at py "objective" d >>= λ objective.
      (at_key "acceptance_criteria" d >>= strings py) >>= λ criteria.
      (at_key "verification_commands" d >>= strings py) >>= λ commands.
      strings_at py "allowed_paths" d >>= λ allowed_paths.
      strings_at py "non_goals" d >>= λ non_goals. strings_at py "depends_on" d >>= λ depends_on.
      priority_from_json (get_or "priority" (int (pos 0)) d) >>= λ priority.
      strings_at py "correction_instructions" d >>= λ instructions. ok (record {
        id = id;
        title = title;
        objective = objective;
        acceptance_criteria = criteria;
        verification_commands = commands;
        allowed_paths = allowed_paths;
        non_goals = non_goals;
        depends_on = depends_on;
        priority = priority;
        correction_instructions = instructions;
        correction_decision_id = optional_string py (get "correction_decision_id" d);
      })

  unfoldable pub task_from_json : Json → Decoded QueueTask
  task_from_json v = expect_object "Queue task entry must be an object." v >>= λ d.
      work_item_from_json (get_null "work_item" d) >>= λ item.
      status_from_json (get_null "status" d) >>= λ status.
      int_or_zero py (get "attempts" d) >>= λ attempts. ok (record {
        work_item = item;
        status = status;
        source = str_or_empty py (get "source" d);
        added_at_utc = str_or_empty py (get "added_at_utc" d);
        updated_at_utc = str_or_empty py (get "updated_at_utc" d);
        attempts = attempts;
        last_commit = optional_string py (get "last_commit" d);
        last_error = optional_string py (get "last_error" d);
        pending_review_bundle_id = optional_string py (get "pending_review_bundle_id" d);
        last_review_decision_id = optional_string py (get "last_review_decision_id" d);
      })

  unfoldable pub command_result_from_json : Json → Decoded CommandResult
  command_result_from_json v = expect_object "Command result entry must be an object." v >>= λ d.
      str_at py "command" d >>= λ command. (at_key "return_code" d >>= int_of py) >>= λ return_code.
      ok (record {
        command = command;
        return_code = return_code;
        stdout = str_or_empty py (get "stdout" d);
        stderr = str_or_empty py (get "stderr" d);
      })

  unfoldable pub evidence_from_json : Json → Decoded (Option ModelInvocationEvidence)
  evidence_from_json null = ok none
  evidence_from_json v =
      expect_object "Semantic verification evidence must be an object." v >>= λ d.
      str_at py "provider" d >>= λ provider. str_at py "model" d >>= λ model.
      str_at py "endpoint" d >>= λ endpoint. (at_key "attempts" d >>= int_of py) >>= λ attempts.
      (at_key "latency_ms" d >>= int_of py) >>= λ latency.
      optional_int py (get "input_tokens" d) >>= λ input.
      optional_int py (get "output_tokens" d) >>= λ output.
      optional_int py (get "total_tokens" d) >>= λ total. ok (
        some (record {
          provider = provider;
          model = model;
          endpoint = endpoint;
          request_id = optional_string py (get "request_id" d);
          attempts = attempts;
          latency_ms = latency;
          input_tokens = input;
          output_tokens = output;
          total_tokens = total;
          request_sha256 = str_of py (get_or "request_sha256" (str "") d);
          response_sha256 = str_of py (get_or "response_sha256" (str "") d);
        }))

  unfoldable pub semantic_verification_from_json :
      Json → Decoded (Option SemanticVerificationReport)
  semantic_verification_from_json null = ok none
  semantic_verification_from_json v =
      expect_object "Semantic verification history must be an object." v >>= λ d.
      evidence_from_json (get_null "evidence" d) >>= λ evidence.
      str_at py "decision" d >>= λ decision. str_at py "summary" d >>= λ summary.
      strings_at py "findings" d >>= λ findings. report_or_error (
        checked (record {
          decision = decision;
          summary = summary;
          findings = findings;
          evidence = evidence;
        }))

  unfoldable pub run_from_json : Json → Decoded RunRecord
  run_from_json v = expect_object "Run history entry must be an object." v >>= λ d.
      str_at py "run_id" d >>= λ run_id. str_at py "work_item_id" d >>= λ work_item_id.
      str_at py "started_at_utc" d >>= λ started. str_at py "finished_at_utc" d >>= λ finished.
      at_key "ok" d >>= λ is_ok. strings_at py "pre_apply_findings" d >>= λ before.
      strings_at py "post_apply_findings" d >>= λ after.
      decode_each command_result_from_json (get_or "command_results" (arr Items.nil) d)
      >>= λ results.
          semantic_verification_from_json (get_null "semantic_verification" d) >>= λ semantic.
          ok (record {
            run_id = run_id;
            work_item_id = work_item_id;
            started_at_utc = started;
            finished_at_utc = finished;
            is_ok = truthy py is_ok;
            commit = optional_string py (get "commit" d);
            error = optional_string py (get "error" d);
            pre_apply_findings = before;
            post_apply_findings = after;
            command_results = results;
            semantic_verification = semantic;
          })

  unfoldable pub rollback_record_from_json : Json → Decoded RollbackRecord
  rollback_record_from_json v = expect_object "Rollback record entry must be an object." v >>= λ d.
      str_at py "rollback_id" d >>= λ rollback_id. str_at py "created_at_utc" d >>= λ created.
      str_at py "work_item_id" d >>= λ work_item_id. str_at py "run_id" d >>= λ run_id.
      str_at py "target_commit" d >>= λ target. str_at py "reason" d >>= λ reason.
      at_key "ok" d >>= λ is_ok. strings_at py "changed_files" d >>= λ files.
      decode_each command_result_from_json (get_or "command_results" (arr Items.nil) d)
      >>= λ results. ok (record {
        rollback_id = rollback_id;
        created_at_utc = created;
        work_item_id = work_item_id;
        run_id = run_id;
        target_commit = target;
        rollback_commit = optional_string py (get "rollback_commit" d);
        reason = reason;
        is_ok = truthy py is_ok;
        changed_files = files;
        command_results = results;
        error = optional_string py (get "error" d);
      })

  unfoldable pub operator_event_from_json : Json → Decoded OperatorEvent
  operator_event_from_json v = expect_object "Operator event entry must be an object." v >>= λ d.
      str_at py "event_id" d >>= λ event_id. str_at py "created_at_utc" d >>= λ created.
      str_at py "command" d >>= λ command. at_key "ok" d >>= λ is_ok.
      str_at py "message" d >>= λ message. str_at py "raw_text" d >>= λ raw_text. ok (record {
        event_id = event_id;
        created_at_utc = created;
        command = command;
        is_ok = truthy py is_ok;
        message = message;
        raw_text = raw_text;
        task_id = optional_string py (get "task_id" d);
      })

  unfoldable pub finding_from_json : Json → Decoded ReviewFinding
  finding_from_json v = expect_object "Review finding must be an object." v >>= λ d.
      str_at py "code" d >>= λ code. str_at py "severity" d >>= λ severity.
      str_at py "message" d >>= λ message. ok (record {
        code = code;
        severity = severity;
        message = message;
        path = optional_string py (get "path" d);
      })

  -- A list of findings is asked for; the default `()` is a tuple, and is refused.
  unfoldable pub findings_from_json : Json → Decoded (List ReviewFinding)
  findings_from_json (arr items) = decode_items finding_from_json items
  findings_from_json _ = err (state_store_error "Review decision findings must be a list.")

  unfoldable pub correction_from_json : Json → Decoded (Option CorrectionBrief)
  correction_from_json null = ok none
  correction_from_json v =
      expect_object "Review correction_brief must be an object or null." v >>= λ d.
      str_at py "rationale" d >>= λ rationale. strings_at py "instructions" d >>= λ instructions.
      strings_at py "validation_focus" d >>= λ focus. ok (
        some
          (record { rationale = rationale; instructions = instructions; validation_focus = focus }))

  unfoldable pub escalation_from_json : Json → Decoded (Option EscalationRequest)
  escalation_from_json null = ok none
  escalation_from_json v = expect_object "Review escalation must be an object or null." v >>= λ d.
      str_at py "reason" d >>= λ reason. str_at py "question" d >>= λ question.
      strings_at py "options" d >>= λ options.
      ok (some (record { reason = reason; question = question; options = options }))

  unfoldable pub review_decision_from_json : Json → Decoded ReviewDecisionRecord
  review_decision_from_json v = expect_object "Review decision record must be an object." v >>= λ d.
      decision_from_json (get_null "decision" d) >>= λ decision.
      findings_from_json (get_null "findings" d) >>= λ findings.
      correction_from_json (get_null "correction_brief" d) >>= λ correction.
      escalation_from_json (get_null "escalation" d) >>= λ escalation.
      str_at py "decision_id" d >>= λ decision_id. str_at py "bundle_id" d >>= λ bundle_id.
      str_at py "bundle_sha256" d >>= λ sha256. str_at py "run_id" d >>= λ run_id.
      str_at py "work_item_id" d >>= λ work_item_id. str_at py "commit" d >>= λ commit.
      str_at py "reviewer_id" d >>= λ reviewer_id. str_at py "reviewer_kind" d >>= λ reviewer_kind.
      str_at py "summary" d >>= λ summary. str_at py "created_at_utc" d >>= λ created.
      str_at py "imported_at_utc" d >>= λ imported. ok (record {
        decision_id = decision_id;
        bundle_id = bundle_id;
        bundle_sha256 = sha256;
        run_id = run_id;
        work_item_id = work_item_id;
        commit = commit;
        reviewer_id = reviewer_id;
        reviewer_kind = reviewer_kind;
        decision = decision;
        summary = summary;
        findings = findings;
        created_at_utc = created;
        imported_at_utc = imported;
        protocol_version = str_of py (get_or "protocol_version" (str "1.0") d);
        correction_brief = correction;
        escalation = escalation;
      })
