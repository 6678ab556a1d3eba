-- ===== src/State/Lifecycle/Ledger.antt =====
-- The methods of `ho_h.State.Ledger` and the queue.
use ho_h.Prelude.{
  String, Bool, Option, none, some, arith, inl, inr, refl, ◌==◌, string_eq, Option-cases,
}
use ho_h.Prelude.Int.{ℤ}
use ho_h.Prelude.Lists.{find_first}
use ho_h.State.Records.{
  RollbackRecord, OperatorEvent, AuditRecord, ReviewBundleRecord, ReviewDecisionRecord,
}
use ho_h.State.Ledger.{
  append_rollback, settle_rollback, record_rollback, settle_decision, completed_commit,
  complete_with, complete_rollback, append_operator_event, record_operator_event, append_audit,
  record_audit_report, append_bundle, record_review_bundle, Clash, append_decision,
  record_review_decision, set_telegram_update_offset,
}
use ho_h.State.Store.{World}
use ho_h.State.Records.{done, rolled_back}
use ho_h.State.Lifecycle.Permits.{turn}
use ho_h.State.Lifecycle.Rules.{Moves, Quiet, Quiet-bind, quiet, Quiet-Moves, last_change}
use ho_h.State.Lifecycle.Review.{mark_rolled_back-Moves}

Quiet-append_rollback : (r : RollbackRecord) → Quiet (append_rollback r)
unfolding append_rollback
Quiet-append_rollback r = record { at = λ w. refl }

Quiet-append_operator_event : (e : OperatorEvent) → Quiet (append_operator_event e)
unfolding append_operator_event
Quiet-append_operator_event e = record { at = λ w. refl }

Quiet-append_audit :
    (path markdown : String) (r : AuditRecord) → Quiet (append_audit path markdown r)
unfolding append_audit
Quiet-append_audit path markdown r = record { at = λ w. refl }

Quiet-append_bundle : (r : ReviewBundleRecord) → Quiet (append_bundle r)
unfolding append_bundle
Quiet-append_bundle r = record { at = λ w. refl }

Quiet-append_decision : (r : ReviewDecisionRecord) → Quiet (append_decision r)
unfolding append_decision
Quiet-append_decision r = record { at = λ w. refl }

ruleset ledger = (
  quiet, Quiet-append_rollback, Quiet-append_operator_event, Quiet-append_audit,
  Quiet-append_bundle, Quiet-append_decision,
)

Quiet-settle_rollback :
    (r : RollbackRecord) (o : Option RollbackRecord) → Quiet (settle_rollback r o)
unfolding settle_rollback
Quiet-settle_rollback r none = search ledger depth 10
Quiet-settle_rollback r (some existing) = search ledger depth 10

pub Quiet-record_rollback : (r : RollbackRecord) → Quiet (record_rollback r)
unfolding record_rollback
Quiet-record_rollback r = Quiet-bind _ _ (search ledger) λ records. Quiet-settle_rollback r _

pub Quiet-record_operator_event :
    (command : String) (is_ok : Bool) (message raw_text : String) (task_id : Option String)
    → Quiet (record_operator_event command is_ok message raw_text task_id)
unfolding record_operator_event
Quiet-record_operator_event command is_ok message raw_text task_id = search ledger depth 10

pub Quiet-record_audit_report :
    (markdown : String) (is_ok : Bool) (findings results : ℤ)
    → Quiet (record_audit_report markdown is_ok findings results)
unfolding record_audit_report
Quiet-record_audit_report markdown is_ok findings results = search ledger depth 10

pub Quiet-record_review_bundle : (r : ReviewBundleRecord) → Quiet (record_review_bundle r)
unfolding record_review_bundle
Quiet-record_review_bundle r = Quiet-bind _ _ (search ledger) λ bundles.
    elim (Option-cases (find_first (λ item. item.bundle_id == r.bundle_id) bundles)) [
      | inl absent ↦ rw absent (search ledger depth 10)
      | inr (existing, found) ↦ rw found (search ledger depth 10)
    ]

Quiet-settle_decision : (r : ReviewDecisionRecord) (c : Clash) → Quiet (settle_decision r c)
unfolding settle_decision
Quiet-settle_decision r (Clash.same existing) = search ledger depth 10
Quiet-settle_decision r (Clash.refused e) = search ledger depth 10
Quiet-settle_decision r Clash.free = search ledger depth 10

pub Quiet-record_review_decision : (r : ReviewDecisionRecord) → Quiet (record_review_decision r)
unfolding record_review_decision
Quiet-record_review_decision r =
    Quiet-bind _ _ (search ledger) λ decisions. Quiet-settle_decision r _

pub Quiet-set_telegram_update_offset : (offset : ℤ) → Quiet (set_telegram_update_offset offset)
unfolding set_telegram_update_offset
Quiet-set_telegram_update_offset offset = record { at = λ w. ground arith }

complete_with-Moves :
    (r : RollbackRecord) (commit : Option String) (w : World)
    → Moves (turn r.work_item_id done rolled_back) w (complete_with r commit)
unfolding complete_with
complete_with-Moves r none w = Quiet-Moves w _ (search ledger)
complete_with-Moves r (some commit) w =
    last_change w _ _ (mark_rolled_back-Moves r.work_item_id r.target_commit commit w)
      λ _. Quiet-record_rollback r

pub complete_rollback-Moves :
    (r : RollbackRecord) (w : World)
    → Moves (turn r.work_item_id done rolled_back) w (complete_rollback r)
unfolding complete_rollback
complete_rollback-Moves r w = complete_with-Moves r (completed_commit r) w
