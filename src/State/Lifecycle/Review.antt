-- ===== src/State/Lifecycle/Review.antt =====
-- The methods of `ho_h.State.Results` and `ho_h.State.Review` as moves of the queue.
use ho_h.Prelude.{
  String, Bool, true, false, not, ◌&&◌, ◌||◌, Option, none, some, List, ◌≡◌, inl, inr, refl, arith,
  ◌==◌, string_eq, Option-cases, Bool-cases, ◌⊎◌, eq_of_==,
}
use ho_h.Prelude.Int.{ℤ, pos, lebℤ}
use ho_h.Prelude.Exec.{pure}
use ho_h.Domain.{HarnessRunResult, run_ok}
use ho_h.State.Records.{
  QueueTask, TaskStatus, queued, running, review_pending, rework_required, escalated, done, failed,
  rolled_back, status_eq, RunRecord,
}
use ho_h.State.Store.{World, updated, find_task}
use ho_h.Prelude.Chars.{strip, is_empty}
use ho_h.State.Results.{
  status_of_result, settle_task, append_history, select_run_id, finish_run, record_new_run,
  record_selected, record_result, record_failure, option_string_eq, or_result_error,
}
use ho_h.State.Review.{
  rolled_back_message, attach_review_bundle, fail_review_setup, record_review_failure, no_bundle,
  outcome_of, resolve_review, check_rework, confirm_rework, resolution_of, resolve_escalation,
  mark_rolled_back,
}
use ho_h.State.Lifecycle.Permits.{
  turn, bundle_rule, review_failure_rule, review_rule, Settles, rework_rule, escalation_rule,
  failure_rule, Ends, result_rule,
}
use ho_h.State.Lifecycle.Replace.{find_task_id}
use ho_h.State.Lifecycle.Rules.{
  Moves, Quiet, quiet, Quiet-first, last_change, check_first, Quiet-Moves, get_first, if_first,
  require_first, update_task-Moves, update_any, replace_task-Moves,
}

pub attach_review_bundle-Moves :
    (id bundle : String) (w : World)
    → Moves (bundle_rule id bundle) w (attach_review_bundle id bundle)
unfolding attach_review_bundle
attach_review_bundle-Moves id bundle w = get_first w id _ λ t found.
    require_first w t review_pending _ id _ λ pending.
      last_change w _ _
        (replace_task-Moves w id t found _ t.status refl refl
          (find_task_id id w.tasks found, pending, pending, refl) (λ a. a))
        λ a. search quiet

pub fail_review_setup-Moves :
    (id error : String) (w : World)
    → Moves (turn id review_pending failed) w (fail_review_setup id error)
unfolding fail_review_setup
fail_review_setup-Moves id error w = get_first w id _ λ t found.
    require_first w t review_pending _ id _ λ pending.
      last_change w _ _
        (replace_task-Moves w id t found _ failed refl refl
          (find_task_id id w.tasks found, pending, refl) (λ a. cc))
        λ a. search quiet

pub record_review_failure-Moves :
    (id error : String) (w : World)
    → Moves (review_failure_rule id) w (record_review_failure id error)
unfolding record_review_failure
record_review_failure-Moves id error w = get_first w id _ λ t found.
    if_first w (not (t.status == review_pending) || no_bundle t.pending_review_bundle_id) _ _
      (λ _. Quiet-Moves w _ (search quiet))
      λ waits.
        let pending : t.status ≡ review_pending = ground (arith, waits) in
        last_change w _ _
          (replace_task-Moves w id t found _ t.status refl refl
            (find_task_id id w.tasks found, pending, pending, refl) (λ a. a))
          λ a. search quiet

pub outcome_of-Settles :
    (decision summary : String) (status : TaskStatus) (error : Option String)
    → outcome_of decision summary ≡ some (status, error)
    → Settles decision summary status error
unfolding outcome_of
outcome_of-Settles decision summary status error h = elim (Bool-cases (decision == "approve")) [
  | inl a ↦ inl (eq_of_== decision "approve" a, ground (arith, h, a), ground (arith, h, a))
  | inr na ↦ elim (Bool-cases (decision == "reject")) [
    | inl r ↦
        inr (inl (eq_of_== decision "reject" r, ground (arith, h, na, r), ground (arith, h, na, r)))
    | inr nr ↦ elim (Bool-cases (decision == "escalate")) [
      | inl e ↦ inr (
          inr (
            eq_of_== decision "escalate" e,
            ground (arith, h, na, nr, e),
            ground (arith, h, na, nr, e),
          ))
      | inr ne ↦ absurd (ground (arith, h, na, nr, ne))
    ]
  ]
]

pub resolve_review-Moves :
    (id bundle decision_id decision summary : String) (w : World)
    → Moves
        (review_rule id decision summary)
        w
        (resolve_review id bundle decision_id decision summary)
unfolding resolve_review
resolve_review-Moves id bundle decision_id decision summary w = get_first w id _ λ t found.
    require_first w t review_pending _ id _ λ pending.
      if_first w (not (t.pending_review_bundle_id == some bundle)) _ _
        (λ _. Quiet-Moves w _ (search quiet))
        λ _. elim (Option-cases (outcome_of decision summary)) [
          | inl unsupported ↦ rw unsupported (Quiet-Moves w _ (search quiet))
          | inr ((s, e), supported) ↦ rw supported (
              last_change w _ _
                (replace_task-Moves w id t found _ s refl refl
                  (
                    find_task_id id w.tasks found,
                    pending,
                    outcome_of-Settles decision summary s e supported,
                  )
                  (λ _. rw pending))
                λ a. search quiet)
        ]

pub confirm_rework-Moves :
    (id decision_id : String) (instructions : List String) (limit : ℤ) (w : World)
    → Moves (rework_rule id limit) w (confirm_rework id decision_id instructions limit)
unfolding confirm_rework
confirm_rework-Moves id decision_id instructions limit w = get_first w id _ λ t found.
    require_first w t rework_required _ id _ λ awaiting.
      check_first w (check_rework t decision_id instructions limit) _ λ _ _.
        if_first w (lebℤ limit t.attempts) _ _
          (λ past.
            last_change w _ _
              (replace_task-Moves w id t found _ escalated refl refl
                (find_task_id id w.tasks found, awaiting, inl (past, refl)) (λ _. rw awaiting))
              λ a. search quiet)
          λ before.
            last_change w _ _
              (replace_task-Moves w id t found _ queued refl refl
                (find_task_id id w.tasks found, awaiting, inr (before, refl)) (λ _. rw awaiting))
              λ a. search quiet

resolution_of-cases :
    (resolution reason : String) (n : ℤ) (s : TaskStatus) (e : Option String) (m : ℤ)
    → resolution_of resolution reason n ≡ some (s, e, m)
    → ((resolution ≡ "requeue") × (s ≡ queued)) ⊎ ((resolution ≡ "fail") × (s ≡ failed))
unfolding resolution_of
resolution_of-cases resolution reason n s e m h = elim (Bool-cases (resolution == "requeue")) [
  | inl requeue ↦ inl (eq_of_== resolution "requeue" requeue, ground (arith, h, requeue))
  | inr other ↦ elim (Bool-cases (resolution == "fail")) [
    | inl fail ↦ inr (eq_of_== resolution "fail" fail, ground (arith, h, other, fail))
    | inr neither ↦ absurd (ground (arith, h, other, neither))
  ]
]

pub resolve_escalation-Moves :
    (id resolution reason : String) (w : World)
    → Moves (escalation_rule id resolution) w (resolve_escalation id resolution reason)
unfolding resolve_escalation
resolve_escalation-Moves id resolution reason w = get_first w id _ λ t found.
    require_first w t escalated _ id _ λ waiting.
      if_first w (is_empty (strip reason)) _ _ (λ _. Quiet-Moves w _ (search quiet))
        λ _. elim (Option-cases (resolution_of resolution reason t.attempts)) [
          | inl unsupported ↦ rw unsupported (Quiet-Moves w _ (search quiet))
          | inr ((s, e, m), supported) ↦ rw supported (
              last_change w _ _
                (replace_task-Moves w id t found _ s refl refl
                  (
                    find_task_id id w.tasks found,
                    waiting,
                    resolution_of-cases resolution reason t.attempts s e m supported,
                  )
                  (λ _. rw waiting))
                λ a. search quiet)
        ]

pub mark_rolled_back-Moves :
    (id target rollback : String) (w : World)
    → Moves (turn id done rolled_back) w (mark_rolled_back id target rollback)
unfolding mark_rolled_back
mark_rolled_back-Moves id target rollback w = get_first w id _ λ t found.
    if_first w
      (t.status == rolled_back && t.last_error == some (rolled_back_message rollback target)) _ _
      (λ _. Quiet-Moves w _ (search quiet))
      λ _. require_first w t done _ id _ λ is_done.
        last_change w _ _
          (replace_task-Moves w id t found _ rolled_back refl refl
            (find_task_id id w.tasks found, is_done, refl) (λ a. cc))
          λ a. search quiet

pub Quiet-append_history : (run : RunRecord) → Quiet (append_history run)
unfolding append_history
Quiet-append_history run = record { at = λ w. refl }

Quiet-select_run_id : (run_id : Option String) → Quiet (select_run_id run_id)
unfolding select_run_id
Quiet-select_run_id none = search quiet
Quiet-select_run_id (some run_id) = search quiet

-- `record_failure` asks for no status: any entry may become failed.
pub record_failure-Moves :
    (id started error : String) (w : World)
    → Moves (failure_rule id) w (record_failure id started error)
unfolding record_failure updated
record_failure-Moves id started error w =
    last_change w _ _ (update_any w id failed (pos 0) none (some error) λ t same. (same, refl))
      λ a. search (quiet, Quiet-append_history) depth 8

-- a result leads from `running` to its status
status_of_result-Ends :
    (result : HarnessRunResult) (required : Bool)
    → Ends result required (status_of_result (run_ok result) required)
unfolding status_of_result
status_of_result-Ends result required = go (run_ok result) required refl
  where
    go :
        (is_ok needed : Bool)
        → run_ok result ≡ is_ok
        → Ends result needed (status_of_result is_ok needed)
    go true true e = inr (inl (e, refl, refl))
    go true false e = inr (inr (e, refl, refl))
    go false needed e = inl (e, refl)

settle_task-Moves :
    (id : String) (t : QueueTask) (result : HarnessRunResult) (review_required : Bool)
    (commit error : Option String) (w : World)
    → find_task id w.tasks ≡ some t
    → Moves
        (result_rule id result review_required)
        w
        (settle_task id t (status_of_result (run_ok result) review_required) commit error)
unfolding settle_task updated
settle_task-Moves id t result review_required commit error w found =
    if_first w
      (t.status == status_of_result (run_ok result) review_required
        && t.last_commit == commit
        && t.last_error == error)
      _ _ (λ _. Quiet-Moves w (pure t) (search quiet))
      λ _.
        if_first w (t.status == running) _ _
          (λ b.
            update_task-Moves w id t found (status_of_result (run_ok result) review_required) _ _ _
              (
                find_task_id id w.tasks found,
                eq_of_== t.status running b,
                status_of_result-Ends result review_required,
              ))
          λ _. Quiet-Moves w _ (search quiet)

Quiet-finish_run :
    (started : String) (result : HarnessRunResult) (required : Bool) (run_id finished : String)
    (current task : QueueTask)
    → Quiet (finish_run started result required run_id finished current task)
unfolding finish_run
Quiet-finish_run started result required run_id finished current task =
    search (quiet, Quiet-append_history) depth 8

record_new_run-Moves :
    (id started : String) (result : HarnessRunResult) (error : Option String) (required : Bool)
    (run_id finished : String) (w : World)
    → Moves
        (result_rule id result required)
        w
        (record_new_run id started result error required run_id finished)
unfolding record_new_run
record_new_run-Moves id started result error required run_id finished w =
    get_first w id _ λ t found.
      last_change w _ _
        (settle_task-Moves id t result required result.commit (or_result_error error result) w
          found)
        λ a. Quiet-finish_run started result required run_id finished t a

record_selected-Moves :
    (id started : String) (result : HarnessRunResult) (error : Option String) (required : Bool)
    (run_id finished : String) (existing : Option RunRecord) (w : World)
    → Moves
        (result_rule id result required)
        w
        (record_selected id started result error required run_id finished existing)
unfolding record_selected
record_selected-Moves id started result error required run_id finished none w =
    record_new_run-Moves id started result error required run_id finished w
record_selected-Moves id started result error required run_id finished (some existing) w =
    Quiet-Moves w _ (search quiet)

pub record_result-Moves :
    (id started : String) (result : HarnessRunResult) (error : Option String) (required : Bool)
    (run_id : Option String) (w : World)
    → Moves
        (result_rule id result required)
        w
        (record_result id started result error required run_id)
unfolding record_result
record_result-Moves id started result error required run_id w =
    Quiet-first w _ _ (search quiet) λ finished w₁ _.
      Quiet-first w₁ _ _ (Quiet-select_run_id run_id) λ selected w₂ _.
        Quiet-first w₂ _ _ (search quiet) λ history w₃ _.
          record_selected-Moves id started result error required selected finished _ w₃
