-- ===== src/State/Lifecycle/Permits.antt =====
-- What each method of `HohStateStore` in src/llm_harness/state.py may do to the queue: the state machine
-- of a queue entry, operation by operation.
use ho_h.Prelude.{String, Bool, true, false, Option, none, some, ◌≡◌, ◌⊎◌}
use ho_h.Prelude.Int.{ℤ, lebℤ}
use ho_h.Domain.{HarnessRunResult, run_ok}
use ho_h.State.Records.{
  QueueTask, TaskStatus, queued, running, review_pending, rework_required, escalated, done, failed,
  rolled_back,
}
use ho_h.State.Operations.{
  Operation, enqueue_op, enqueue_many_op, claim_next_op, claim_batch_op, mark_running_op,
  requeue_failed_op, recover_running_op, record_result_op, record_failure_op,
  attach_review_bundle_op, fail_review_setup_op, record_review_failure_op, resolve_review_op,
  confirm_rework_op, escalate_attempt_limit_op, resolve_escalation_op, mark_rolled_back_op,
  complete_rollback_op,
}
use ho_h.State.Lifecycle.{Rule}

-- no new entries, and changes of the kind
abbrev pub only_turns : (QueueTask → QueueTask → Type 0) → Rule
only_turns turns = record { Turns = turns; Adds = ⊥ }

-- an entry of the id goes from one status to the other
abbrev pub turn : String → TaskStatus → TaskStatus → Rule
turn id s s' = only_turns λ t t'. (t.work_item.id ≡ id) × (t.status ≡ s) × (t'.status ≡ s')

-- new entries, and no change of an old one
abbrev pub only_adds : Rule
only_adds = record { Turns = λ _ _. ⊥; Adds = Unit }

abbrev pub nothing : Rule
nothing = only_turns λ _ _. ⊥

abbrev pub anything : Rule
anything = record { Turns = λ _ _. Unit; Adds = Unit }

-- What the decision of a critic makes of the status and the error of the task.
abbrev pub Settles : String → String → TaskStatus → Option String → Type 0
Settles decision summary status error =
    ((decision ≡ "approve") × (status ≡ done) × (error ≡ none))
    ⊎ ((decision ≡ "reject") × (status ≡ rework_required) × (error ≡ some summary))
    ⊎ ((decision ≡ "escalate") × (status ≡ escalated) × (error ≡ some summary))

-- a result ends a run: with a failure, with a review to come, or for good
abbrev pub Ends : HarnessRunResult → (required : Bool) → TaskStatus → Type 0
Ends result required status =
    ((run_ok result ≡ false) × (status ≡ failed))
    ⊎ ((run_ok result ≡ true) × (required ≡ true) × (status ≡ review_pending))
    ⊎ ((run_ok result ≡ true) × (required ≡ false) × (status ≡ done))

abbrev pub result_rule : String → HarnessRunResult → Bool → Rule
result_rule id result required =
    only_turns λ t t'. (t.work_item.id ≡ id) × (t.status ≡ running) × Ends result required t'.status

-- any status becomes failed
abbrev pub failure_rule : String → Rule
failure_rule id = only_turns λ t t'. (t.work_item.id ≡ id) × (t'.status ≡ failed)

-- the entry waits for review, and goes on to, with this bundle
abbrev pub bundle_rule : String → String → Rule
bundle_rule id bundle = only_turns λ t t'.
    (t.work_item.id ≡ id)
    × (t.status ≡ review_pending)
    × (t'.status ≡ review_pending)
    × (t'.pending_review_bundle_id ≡ some bundle)

-- the entry waits for the review of its bundle, and goes on to
abbrev pub review_failure_rule : String → Rule
review_failure_rule id = only_turns λ t t'.
    (t.work_item.id ≡ id)
    × (t.status ≡ review_pending)
    × (t'.status ≡ review_pending)
    × (t'.pending_review_bundle_id ≡ t.pending_review_bundle_id)

abbrev pub review_rule : String → (decision summary : String) → Rule
review_rule id decision summary = only_turns λ t t'.
    (t.work_item.id ≡ id)
    × (t.status ≡ review_pending)
    × Settles decision summary t'.status t'.last_error

abbrev pub rework_rule : String → ℤ → Rule
rework_rule id limit = only_turns λ t t'.
    (t.work_item.id ≡ id)
    × (t.status ≡ rework_required)
    × (((lebℤ limit t.attempts ≡ true) × (t'.status ≡ escalated))
        ⊎ ((lebℤ limit t.attempts ≡ false) × (t'.status ≡ queued)))

abbrev pub limit_rule : String → ℤ → Rule
limit_rule id limit = only_turns λ t t'.
    (t.work_item.id ≡ id)
    × (t.status ≡ queued)
    × (lebℤ limit t.attempts ≡ true)
    × (t'.status ≡ escalated)

abbrev pub escalation_rule : String → (resolution : String) → Rule
escalation_rule id resolution = only_turns λ t t'.
    (t.work_item.id ≡ id)
    × (t.status ≡ escalated)
    × (((resolution ≡ "requeue") × (t'.status ≡ queued))
        ⊎ ((resolution ≡ "fail") × (t'.status ≡ failed)))

abbrev pub claim_rule : Option ℤ → Rule
claim_rule limit = only_turns λ t t'.
    (t.status ≡ queued)
    × ((t'.status ≡ running)
        ⊎ ((t'.status ≡ escalated) × ((n : ℤ) × (limit ≡ some n) × (lebℤ n t.attempts ≡ true))))

abbrev pub batch_rule : Rule
batch_rule = only_turns λ t t'. (t.status ≡ queued) × (t'.status ≡ running)

-- what an operation may do to the queue
unfoldable pub permits : Operation → Rule
permits (enqueue_op item source) = only_adds
permits (enqueue_many_op items) = only_adds
permits (claim_next_op limit) = claim_rule limit
permits (claim_batch_op limit) = batch_rule
permits (mark_running_op id) = turn id queued running
permits (requeue_failed_op id) = turn id failed queued
permits (recover_running_op id reason) = turn id running queued
permits (record_result_op id started result error required run_id) = result_rule id result required
permits (record_failure_op id started error) = failure_rule id
permits (attach_review_bundle_op id bundle) = bundle_rule id bundle
permits (fail_review_setup_op id error) = turn id review_pending failed
permits (record_review_failure_op id error) = review_failure_rule id
permits (resolve_review_op id bundle decision_id decision summary) = review_rule id decision summary
permits (confirm_rework_op id decision_id instructions limit) = rework_rule id limit
permits (escalate_attempt_limit_op id limit) = limit_rule id limit
permits (resolve_escalation_op id resolution reason) = escalation_rule id resolution
permits (mark_rolled_back_op id target rollback) = turn id done rolled_back
permits (complete_rollback_op r) = turn r.work_item_id done rolled_back
permits _ = nothing

-- what it may do where the lease is to be had, or is not
abbrev pub permits_under : Option String → Operation → Rule
permits_under none op = permits op
permits_under (some message) op = nothing
