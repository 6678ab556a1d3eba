-- ===== src/State/Operations.antt =====
-- The public methods of `HohStateStore` in src/llm_harness/state.py that change state, as one type of
-- operations, each run with the lease taken, and runs of them from an empty store.
use ho_h.Prelude.{String, Bool, Option, List, [], ◌∷◌}
use ho_h.Prelude.Int.{ℤ}
use ho_h.Prelude.Exec.{pure, ◌>>=◌}
use ho_h.Domain.{WorkItem, HarnessRunResult}
use ho_h.State.Records.{RollbackRecord, ReviewBundleRecord, ReviewDecisionRecord}
use ho_h.State.Store.{World, Action, state_mutation}
use ho_h.State.Queue.{
  enqueue, enqueue_many, claim_next, claim_batch, mark_running, requeue_failed, recover_running,
  escalate_attempt_limit,
}
use ho_h.State.Results.{record_result, record_failure}
use ho_h.State.Review.{
  attach_review_bundle, fail_review_setup, record_review_failure, resolve_review, confirm_rework,
  resolve_escalation, mark_rolled_back,
}
use ho_h.State.Ledger.{
  complete_rollback, record_rollback, record_operator_event, record_audit_report,
  record_review_bundle, record_review_decision, set_telegram_update_offset,
}

-- a call of a method, with its arguments
pub data Operation : Type 0 where
  enqueue_op : WorkItem → (source : String) → Operation
  enqueue_many_op : List (WorkItem × String) → Operation
  claim_next_op : Option ℤ → Operation
  claim_batch_op : ℤ → Operation
  mark_running_op : String → Operation
  requeue_failed_op : String → Operation
  recover_running_op : (id reason : String) → Operation
  record_result_op :
      String → String → HarnessRunResult → Option String → Bool → Option String → Operation
  record_failure_op : (id started error : String) → Operation
  attach_review_bundle_op : (id bundle : String) → Operation
  fail_review_setup_op : (id error : String) → Operation
  record_review_failure_op : (id error : String) → Operation
  resolve_review_op : (id bundle decision_id decision summary : String) → Operation
  confirm_rework_op : (id decision_id : String) → List String → ℤ → Operation
  escalate_attempt_limit_op : String → ℤ → Operation
  resolve_escalation_op : (id resolution reason : String) → Operation
  mark_rolled_back_op : (id target rollback : String) → Operation
  complete_rollback_op : RollbackRecord → Operation
  record_rollback_op : RollbackRecord → Operation
  record_operator_event_op : String → Bool → (message raw : String) → Option String → Operation
  record_audit_report_op : String → Bool → (findings results : ℤ) → Operation
  record_review_bundle_op : ReviewBundleRecord → Operation
  record_review_decision_op : ReviewDecisionRecord → Operation
  set_telegram_update_offset_op : ℤ → Operation

-- the result of an operation is left aside
abbrev ignoring : {A : Type 0} → Action A → Action (Unit {0})
ignoring m = m >>= λ _. pure tt

-- the body of the method, which runs with the lease held
unfoldable pub body : Operation → Action (Unit {0})
body (enqueue_op item source) = ignoring (enqueue item source)
body (enqueue_many_op items) = ignoring (enqueue_many items)
body (claim_next_op limit) = ignoring (claim_next limit)
body (claim_batch_op limit) = ignoring (claim_batch limit)
body (mark_running_op id) = ignoring (mark_running id)
body (requeue_failed_op id) = ignoring (requeue_failed id)
body (recover_running_op id reason) = ignoring (recover_running id reason)
body (record_result_op id started result error required run_id) =
    ignoring (record_result id started result error required run_id)
body (record_failure_op id started error) = ignoring (record_failure id started error)
body (attach_review_bundle_op id bundle) = ignoring (attach_review_bundle id bundle)
body (fail_review_setup_op id error) = ignoring (fail_review_setup id error)
body (record_review_failure_op id error) = ignoring (record_review_failure id error)
body (resolve_review_op id bundle decision_id decision summary) =
    ignoring (resolve_review id bundle decision_id decision summary)
body (confirm_rework_op id decision_id instructions limit) =
    ignoring (confirm_rework id decision_id instructions limit)
body (escalate_attempt_limit_op id limit) = ignoring (escalate_attempt_limit id limit)
body (resolve_escalation_op id resolution reason) =
    ignoring (resolve_escalation id resolution reason)
body (mark_rolled_back_op id target rollback) = ignoring (mark_rolled_back id target rollback)
body (complete_rollback_op r) = ignoring (complete_rollback r)
body (record_rollback_op r) = ignoring (record_rollback r)
body (record_operator_event_op command is_ok message raw task_id) =
    ignoring (record_operator_event command is_ok message raw task_id)
body (record_audit_report_op markdown is_ok findings results) =
    ignoring (record_audit_report markdown is_ok findings results)
body (record_review_bundle_op r) = ignoring (record_review_bundle r)
body (record_review_decision_op r) = ignoring (record_review_decision r)
body (set_telegram_update_offset_op offset) = set_telegram_update_offset offset

unfoldable pub perform : Operation → Action (Unit {0})
unfolding state_mutation
perform op = state_mutation (body op)

-- the world after a sequence of calls, whether each returns or raises
unfoldable pub run_all : List Operation → World → World
run_all [] w = w
run_all (op ∷ ops) w = run_all ops (perform op w).1
