-- ===== src/State/RoundTrip.antt =====
-- The `_..._from_json` functions of src/llm_harness/state.py on what its `_..._to_json` functions
-- give.
use ho_h.Prelude.{
  String, Option, none, some, List, [], ◌∷◌, ◌≡◌, refl, string_eq, arith, String-discrete,
}
use ho_h.Prelude.Int.{ℤ, int_eq}
use ho_h.Prelude.Exec.{ok}
use ho_h.Prelude.Lists.{All}
use ho_h.Json.{Json, int, str, arr, get, optional_str, str_items}
use ho_h.Domain.{
  WorkItem, CommandResult, ModelInvocationEvidence, SemanticVerificationReport, checked,
}
use ho_h.State.Records.{
  QueueTask, TaskStatus, queued, running, review_pending, rework_required, escalated, done, failed,
  rolled_back, show_status, RunRecord, RollbackRecord, OperatorEvent, ReviewFinding,
  CorrectionBrief, EscalationRequest, ReviewDecision, approve, reject, escalate,
  ReviewDecisionRecord,
}
use ho_h.State.Encode.{
  work_item_to_json, task_to_json, command_result_to_json, items_of_list, evidence_to_json,
  semantic_verification_to_json, run_to_json, rollback_record_to_json, operator_event_to_json,
  finding_to_json, correction_to_json, escalation_to_json, show_decision, review_decision_to_json,
  int_or_null,
}
use ho_h.State.Values.{
  Python, Decoded, at_key, get_or, expect_object, str_of, int_of, truthy, str_at, str_or_empty,
  int_or_zero, optional_string, strings_of, strings, strings_at, decode_items, decode_each,
  optional_int,
}
use ho_h.State.Decode.{
  read_status, read_decision, priority_from_json, get_null, report_or_error, status_from_json,
  decision_from_json, work_item_from_json, task_from_json, command_result_from_json,
  evidence_from_json, semantic_verification_from_json, run_from_json, rollback_record_from_json,
  operator_event_from_json, finding_from_json, findings_from_json, correction_from_json,
  escalation_from_json, review_decision_from_json,
}

-- a report that passed `__post_init__`, or none
abbrev pub IsChecked : Option SemanticVerificationReport → Type 0
IsChecked none = Unit
IsChecked (some report) = checked report ≡ ok report

module _ (py : Python) where
  strings_lem : (ss : List String) → strings_of py (str_items ss) ≡ ss
  unfolding strings_of str_of
  strings_lem [] = refl
  strings_lem (s ∷ ss) = rw (strings_lem ss) refl

  optional_lem : (o : Option String) → optional_string py (some (optional_str o)) ≡ o
  unfolding optional_string str_of
  optional_lem none = refl
  optional_lem (some s) = refl

  items_lem :
      {A : Type 0} (encode : A → Json) (decode : Json → Decoded A) (xs : List A)
      → All (λ x. decode (encode x) ≡ ok x) xs
      → decode_items decode (items_of_list encode xs) ≡ ok xs
  unfolding decode_items items_of_list
  items_lem encode decode [] h = refl
  items_lem encode decode (x ∷ xs) (h, hs) = rw (h, items_lem encode decode xs hs) refl

  status_lem : (s : TaskStatus) → status_from_json py (str (show_status s)) ≡ ok s
  unfolding status_from_json read_status String-discrete
  status_lem queued = refl
  status_lem running = refl
  status_lem review_pending = refl
  status_lem rework_required = refl
  status_lem escalated = refl
  status_lem done = refl
  status_lem failed = refl
  status_lem rolled_back = refl

  work_item_lem : (item : WorkItem) → work_item_from_json py (work_item_to_json item) ≡ ok item
  unfolding work_item_from_json work_item_to_json expect_object str_at at_key get get_or strings
      strings_at str_of priority_from_json String-discrete
  work_item_lem item =
      rw
        (
          strings_lem item.acceptance_criteria,
          strings_lem item.verification_commands,
          strings_lem item.allowed_paths,
          strings_lem item.non_goals,
          strings_lem item.depends_on,
          strings_lem item.correction_instructions,
          optional_lem item.correction_decision_id,
        )
        refl

  -- the truth of a number and of a text, where the source writes `value or default`
  attempts_lem : (z : ℤ) → int_or_zero py (some (int z)) ≡ ok z
  unfolding int_or_zero truthy int_of
  attempts_lem z = ground arith

  text_lem : (s : String) → str_or_empty py (some (str s)) ≡ s
  unfolding str_or_empty truthy str_of
  text_lem s = ground arith

  -- A queue entry that is written is read back as it was: `_task_from_json` of `_task_to_json` gives
  -- the entry, whatever its fields are.
  pub task_from_json-task_to_json :
      (task : QueueTask) → task_from_json py (task_to_json task) ≡ ok task
  unfolding task_from_json task_to_json expect_object get_null get_or get String-discrete
  task_from_json-task_to_json task =
      rw
        (
          work_item_lem task.work_item,
          status_lem task.status,
          text_lem task.source,
          text_lem task.added_at_utc,
          text_lem task.updated_at_utc,
          attempts_lem task.attempts,
          optional_lem task.last_commit,
          optional_lem task.last_error,
          optional_lem task.pending_review_bundle_id,
          optional_lem task.last_review_decision_id,
        )
        refl

  command_result_lem :
      (result : CommandResult)
      → command_result_from_json py (command_result_to_json result) ≡ ok result
  unfolding command_result_from_json command_result_to_json expect_object str_at at_key get str_of
      int_of String-discrete
  command_result_lem result = rw (text_lem result.stdout, text_lem result.stderr) refl

  command_results_lem :
      (results : List CommandResult)
      → decode_items (command_result_from_json py) (items_of_list command_result_to_json results)
        ≡ ok results
  command_results_lem results = items_lem _ _ results (every results)
    where
      every :
          (rs : List CommandResult)
          → All (λ r. command_result_from_json py (command_result_to_json r) ≡ ok r) rs
      every [] = tt
      every (r ∷ rs) = (command_result_lem r, every rs)

  tokens_lem : (o : Option ℤ) → optional_int py (some (int_or_null o)) ≡ ok o
  unfolding optional_int int_of
  tokens_lem none = refl
  tokens_lem (some z) = refl

  evidence_lem :
      (e : Option ModelInvocationEvidence) → evidence_from_json py (evidence_to_json e) ≡ ok e
  unfolding evidence_from_json evidence_to_json expect_object str_at at_key get get_or str_of int_of
      String-discrete
  evidence_lem none = refl
  evidence_lem (some e) =
      rw
        (
          optional_lem e.request_id,
          tokens_lem e.input_tokens,
          tokens_lem e.output_tokens,
          tokens_lem e.total_tokens,
        )
        refl

  semantic_lem :
      (r : Option SemanticVerificationReport)
      → IsChecked r
      → semantic_verification_from_json py (semantic_verification_to_json r) ≡ ok r
  unfolding semantic_verification_from_json semantic_verification_to_json expect_object str_at
      at_key get get_null get_or strings_at strings str_of report_or_error String-discrete
  semantic_lem none h = refl
  semantic_lem (some r) h = rw (evidence_lem r.evidence, strings_lem r.findings, h) refl

  -- A run whose semantic report, if there is one, holds a decision that the constructor accepts, is
  -- read back as it was written.
  pub run_from_json-run_to_json :
      (run : RunRecord)
      → IsChecked run.semantic_verification
      → run_from_json py (run_to_json run) ≡ ok run
  unfolding run_from_json run_to_json expect_object str_at at_key get get_null get_or strings_at
      strings str_of truthy decode_each String-discrete
  run_from_json-run_to_json run h =
      rw
        (
          strings_lem run.pre_apply_findings,
          strings_lem run.post_apply_findings,
          command_results_lem run.command_results,
          semantic_lem run.semantic_verification h,
          optional_lem run.commit,
          optional_lem run.error,
        )
        refl

  -- A rollback record is read back as it was written.
  pub rollback_record_from_json-rollback_record_to_json :
      (r : RollbackRecord) → rollback_record_from_json py (rollback_record_to_json r) ≡ ok r
  unfolding rollback_record_from_json rollback_record_to_json expect_object str_at at_key get get_or
      strings_at strings str_of truthy decode_each String-discrete
  rollback_record_from_json-rollback_record_to_json r =
      rw
        (
          strings_lem r.changed_files,
          command_results_lem r.command_results,
          optional_lem r.rollback_commit,
          optional_lem r.error,
        )
        refl

  -- An operator event is read back as it was written.
  pub operator_event_from_json-operator_event_to_json :
      (e : OperatorEvent) → operator_event_from_json py (operator_event_to_json e) ≡ ok e
  unfolding operator_event_from_json operator_event_to_json expect_object str_at at_key get str_of
      truthy String-discrete
  operator_event_from_json-operator_event_to_json e = rw (optional_lem e.task_id) refl

  decision_lem : (d : ReviewDecision) → decision_from_json py (str (show_decision d)) ≡ ok d
  unfolding decision_from_json read_decision String-discrete
  decision_lem approve = refl
  decision_lem reject = refl
  decision_lem escalate = refl

  finding_lem : (f : ReviewFinding) → finding_from_json py (finding_to_json f) ≡ ok f
  unfolding finding_from_json finding_to_json expect_object str_at at_key get str_of String-discrete
  finding_lem f = rw (optional_lem f.path) refl

  findings_lem :
      (fs : List ReviewFinding)
      → findings_from_json py (arr (items_of_list finding_to_json fs)) ≡ ok fs
  unfolding findings_from_json
  findings_lem fs = items_lem _ _ fs (every fs)
    where
      every :
          (fs : List ReviewFinding) → All (λ f. finding_from_json py (finding_to_json f) ≡ ok f) fs
      every [] = tt
      every (f ∷ fs) = (finding_lem f, every fs)

  correction_lem :
      (c : Option CorrectionBrief) → correction_from_json py (correction_to_json c) ≡ ok c
  unfolding correction_from_json correction_to_json expect_object str_at at_key get get_or
      strings_at strings str_of String-discrete
  correction_lem none = refl
  correction_lem (some c) = rw (strings_lem c.instructions, strings_lem c.validation_focus) refl

  escalation_lem :
      (e : Option EscalationRequest) → escalation_from_json py (escalation_to_json e) ≡ ok e
  unfolding escalation_from_json escalation_to_json expect_object str_at at_key get get_or
      strings_at strings str_of String-discrete
  escalation_lem none = refl
  escalation_lem (some e) = rw (strings_lem e.options) refl

  -- A review decision is read back as it was written, with its findings and with its correction
  -- brief or its escalation.
  pub review_decision_from_json-review_decision_to_json :
      (r : ReviewDecisionRecord) → review_decision_from_json py (review_decision_to_json r) ≡ ok r
  unfolding review_decision_from_json review_decision_to_json expect_object str_at at_key get
      get_null get_or str_of String-discrete
  review_decision_from_json-review_decision_to_json r =
      rw
        (
          decision_lem r.decision,
          findings_lem r.findings,
          correction_lem r.correction_brief,
          escalation_lem r.escalation,
        )
        refl
