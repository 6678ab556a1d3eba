-- ===== src/State/Lifecycle/Reach.antt =====
-- The calls of `HohStateStore` in src/llm_harness/state.py and runs of them, as moves of the queue.
use ho_h.Prelude.{String, Option, none, some, List, [], ◌∷◌, ◌≡◌}
use ho_h.Prelude.Exec.{pure, ◌>>=◌}
use ho_h.State.Store.{World, Action, under_lease, state_mutation}
use ho_h.State.Operations.{Operation, body, perform, run_all}
use ho_h.State.Lifecycle.{Rule, IsWellFormed, Goes}
use ho_h.State.Lifecycle.Runs.{trans, Goes-weaken, Goes-IsWellFormed}
use ho_h.State.Lifecycle.Permits.{permits, permits_under, anything}
use ho_h.State.Lifecycle.Rules.{Moves, quiet, Quiet-Moves, last_change}
use ho_h.State.Lifecycle.Queue.{
  enqueue-Moves, claim_batch-Moves, claim_next-Moves, enqueue_many-Moves,
  escalate_attempt_limit-Moves, mark_running-Moves, recover_running-Moves, requeue_failed-Moves,
}
use ho_h.State.Lifecycle.Review.{
  attach_review_bundle-Moves, confirm_rework-Moves, fail_review_setup-Moves, mark_rolled_back-Moves,
  record_failure-Moves, record_result-Moves, record_review_failure-Moves, resolve_escalation-Moves,
  resolve_review-Moves,
}
use ho_h.State.Lifecycle.Ledger.{
  Quiet-record_audit_report, Quiet-record_operator_event, Quiet-record_review_bundle,
  Quiet-record_review_decision, Quiet-record_rollback, Quiet-set_telegram_update_offset,
  complete_rollback-Moves,
}

ignoring-Moves :
    {rule : Rule} {A : Type 0} (w : World) (m : Action A)
    → Moves rule w m
    → Moves rule w (m >>= λ _. pure tt)
ignoring-Moves w m h = last_change w m _ h λ _. search quiet

body-Moves : (op : Operation) (w : World) → Moves (permits op) w (body op)
unfolding body permits
body-Moves (Operation.enqueue_op item source) w = ignoring-Moves w _ (enqueue-Moves item source w)
body-Moves (Operation.enqueue_many_op items) w = ignoring-Moves w _ (enqueue_many-Moves items w)
body-Moves (Operation.claim_next_op limit) w = ignoring-Moves w _ (claim_next-Moves limit w)
body-Moves (Operation.claim_batch_op limit) w = ignoring-Moves w _ (claim_batch-Moves limit w)
body-Moves (Operation.mark_running_op id) w = ignoring-Moves w _ (mark_running-Moves id w)
body-Moves (Operation.requeue_failed_op id) w = ignoring-Moves w _ (requeue_failed-Moves id w)
body-Moves (Operation.recover_running_op id reason) w =
    ignoring-Moves w _ (recover_running-Moves id reason w)
body-Moves (Operation.record_result_op id started result error required run_id) w =
    ignoring-Moves w _ (record_result-Moves id started result error required run_id w)
body-Moves (Operation.record_failure_op id started error) w =
    ignoring-Moves w _ (record_failure-Moves id started error w)
body-Moves (Operation.attach_review_bundle_op id bundle) w =
    ignoring-Moves w _ (attach_review_bundle-Moves id bundle w)
body-Moves (Operation.fail_review_setup_op id error) w =
    ignoring-Moves w _ (fail_review_setup-Moves id error w)
body-Moves (Operation.record_review_failure_op id error) w =
    ignoring-Moves w _ (record_review_failure-Moves id error w)
body-Moves (Operation.resolve_review_op id bundle decision_id decision summary) w =
    ignoring-Moves w _ (resolve_review-Moves id bundle decision_id decision summary w)
body-Moves (Operation.confirm_rework_op id decision_id instructions limit) w =
    ignoring-Moves w _ (confirm_rework-Moves id decision_id instructions limit w)
body-Moves (Operation.escalate_attempt_limit_op id limit) w =
    ignoring-Moves w _ (escalate_attempt_limit-Moves id limit w)
body-Moves (Operation.resolve_escalation_op id resolution reason) w =
    ignoring-Moves w _ (resolve_escalation-Moves id resolution reason w)
body-Moves (Operation.mark_rolled_back_op id target rollback) w =
    ignoring-Moves w _ (mark_rolled_back-Moves id target rollback w)
body-Moves (Operation.complete_rollback_op r) w = ignoring-Moves w _ (complete_rollback-Moves r w)
body-Moves (Operation.record_rollback_op r) w =
    ignoring-Moves w _ (Quiet-Moves w _ (Quiet-record_rollback r))
body-Moves (Operation.record_operator_event_op command is_ok message raw task_id) w =
    ignoring-Moves w _
      (Quiet-Moves w _ (Quiet-record_operator_event command is_ok message raw task_id))
body-Moves (Operation.record_audit_report_op markdown is_ok findings results) w =
    ignoring-Moves w _ (Quiet-Moves w _ (Quiet-record_audit_report markdown is_ok findings results))
body-Moves (Operation.record_review_bundle_op r) w =
    ignoring-Moves w _ (Quiet-Moves w _ (Quiet-record_review_bundle r))
body-Moves (Operation.record_review_decision_op r) w =
    ignoring-Moves w _ (Quiet-Moves w _ (Quiet-record_review_decision r))
body-Moves (Operation.set_telegram_update_offset_op offset) w =
    Quiet-Moves w _ (Quiet-set_telegram_update_offset offset)

-- Each public method of the store that changes state, on any arguments and in any world, whether it
-- returns or raises, does to the queue only what it may: `enqueue` and `enqueue_many` append fresh
-- batches of queued entries and change no entry; the methods that read and write ledgers alone, and any
-- method that does not get the lease, leave the queue as it is; and each other method makes changes of
-- single entries that keep their ids. A changed entry has the id that the method was given, except in
-- the two claims, and one of these changes of status. `mark_running`, `claim_batch`: queued to running.
-- `claim_next`: queued to running, or to escalated at the limit of attempts, if one is given.
-- `requeue_failed`: failed to queued. `recover_running`: running to queued. `record_result`: running to
-- failed if the result is not `ok`, else to review_pending if a review is required, else to done.
-- `record_failure`: any to failed. `attach_review_bundle`: review_pending as before, with the bundle.
-- `fail_review_setup`: review_pending to failed. `record_review_failure`: review_pending as before, with
-- the bundle as before. `resolve_review`: review_pending to done, rework_required or escalated by the
-- decision. `confirm_rework`: rework_required to escalated at the limit, else to queued.
-- `escalate_attempt_limit`: queued to escalated, at the limit. `resolve_escalation`: escalated to queued
-- for "requeue" and to failed for "fail". `mark_rolled_back`, `complete_rollback`: done to rolled_back.
-- An entry that becomes unresolved is the last one of its id.
pub perform-permits :
    (op : Operation) (w : World)
    → Goes (permits_under w.contended op) w.tasks (perform op w).1.tasks
unfolding perform state_mutation under_lease
perform-permits op w = go w.contended
  where
    go : (o : Option String) → Goes (permits_under o op) w.tasks (under_lease o (body op) w).1.tasks
    go none = (body-Moves op w).at
    go (some message) = Goes.rest

run_all-Moves : (ops : List Operation) (w : World) → Goes anything w.tasks (run_all ops w).tasks
unfolding run_all
run_all-Moves [] w = Goes.rest
run_all-Moves (op ∷ ops) w =
    trans
      (Goes-weaken (permits_under w.contended op) anything (λ t t' h. tt) (λ h. tt)
        (perform-permits op w))
      (run_all-Moves ops (perform op w).1)

-- After any sequence of calls of the store's methods that starts with an empty queue, of which some
-- may raise, an entry of the queue that is queued, running, in review, in rework or escalated is the
-- last entry with its id.
pub run_all-IsWellFormed :
    (ops : List Operation) (w : World) → w.tasks ≡ [] → IsWellFormed (run_all ops w).tasks
run_all-IsWellFormed ops w empty = Goes-IsWellFormed (run_all-Moves ops w) (rw empty tt)
