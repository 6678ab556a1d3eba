-- ===== src/State/Decisions.antt =====
-- `resolve_review` of src/llm_harness/state.py, when it applies a critic's decision.
use ho_h.Prelude.{
  String, string_eq, Option, none, some, ◌≡◌, inl, inr, refl, arith, ◌==◌, eq_of_==, Bool-cases,
  Option-cases,
}
use ho_h.Prelude.Exec.{ok, ◌>>=◌}
use ho_h.State.Records.{QueueTask, TaskStatus, review_pending, status_eq}
use ho_h.State.Store.{World, get_task, find_task, transition_event}
use ho_h.State.Queue.{require_status}
use ho_h.State.Results.{option_string_eq}
use ho_h.State.Review.{outcome_of, resolve_review}
use ho_h.State.Lifecycle.Permits.{Settles, anything}
use ho_h.State.Lifecycle.Review.{outcome_of-Settles}
use ho_h.State.Lifecycle.Rules.{replace_task_runs}

-- the latest entry, waiting for review of the bundle, and what it becomes under a supported decision
pub record IsApplied (id bundle decision_id decision summary : String) (w : World)
    (after : QueueTask) : Type 0 where
  pub before : QueueTask
  pub found : find_task id w.tasks ≡ some before
  pub pending : before.status ≡ review_pending
  pub same_bundle : before.pending_review_bundle_id ≡ some bundle
  pub status : TaskStatus
  pub error : Option String
  pub settles : Settles decision summary status error
  pub becomes : after ≡ record before {
    status = status;
    pending_review_bundle_id = none;
    last_review_decision_id = some decision_id;
    last_error = error;
    updated_at_utc = w.utc w.calls;
  }

-- When `resolve_review` returns a task, the latest entry of the id was waiting for the review of this
-- very bundle, and the task is that entry with no pending bundle, the decision's id, a new time, and a
-- status and an error: `done` and none if the decision is "approve", `rework_required` and the summary
-- if it is "reject", `escalated` and the summary if it is "escalate". There is no other decision.
pub resolve_review-IsApplied :
    (id bundle decision_id decision summary : String) (w : World) (after : QueueTask)
    → (resolve_review id bundle decision_id decision summary w).0 ≡ ok after
    → IsApplied id bundle decision_id decision summary w after
unfolding resolve_review get_task require_status ◌>>=◌ transition_event
resolve_review-IsApplied id bundle decision_id decision summary w after h =
    elim (Option-cases (find_task id w.tasks)) [
      | inl absent ↦ absurd (ground (arith, h, absent))
      | inr (t, found) ↦ elim (Bool-cases (t.status == review_pending)) [
        | inr other ↦ absurd (ground (arith, h, found, other))
        | inl pending ↦ elim (Bool-cases (t.pending_review_bundle_id == some bundle)) [
          | inr other ↦ absurd (ground (arith, rw (found, pending, other) at h))
          | inl same ↦ elim (Option-cases (outcome_of decision summary)) [
            | inl unsupported ↦ absurd (ground (arith, rw (found, pending, same, unsupported) at h))
            | inr ((s, e), supported) ↦
                let p = eq_of_== t.status review_pending pending in
                let (ts, eq, ch) =
                  replace_task_runs {rule = anything} w id t found
                    (λ t. record t {
                      status = s;
                      pending_review_bundle_id = none;
                      last_review_decision_id = some decision_id;
                      last_error = e;
                    })
                    refl tt (λ _. rw p refl) in
                record {
                  before = t;
                  found = found;
                  pending = p;
                  same_bundle = eq_of_== t.pending_review_bundle_id (some bundle) same;
                  status = s;
                  error = e;
                  settles = outcome_of-Settles decision summary s e supported;
                  becomes = ground (arith, rw (found, pending, same, supported, eq) at h);
                }
          ]
        ]
      ]
    ]
