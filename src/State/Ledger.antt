-- ===== src/State/Ledger.antt =====
-- The append-only ledgers of `HohStateStore` in src/llm_harness/state.py: rollbacks, operator events,
-- audits, review bundles and decisions, and the offset of the Telegram poller.
use ho_h.Prelude.{
  String, Bool, false, Option, none, some, List, [], ◌∷◌, ◌++◌, ◌==◌, string_eq, format,
  if◌then◌else◌,
}
use ho_h.Prelude.Int.{ℤ, ltbℤ}
use ho_h.Prelude.Exec.{ok, pure, raise, gets, ◌>>=◌, ◌>>◌}
use ho_h.Prelude.Lists.{find_first}
use ho_h.Prelude.Chars.{translate, remove}
use ho_h.Json.{flag, object, str}
use ho_h.Journal.{interaction, decision, artifact}
use ho_h.State.Records.{
  RollbackRecord, rollback_record_eq, OperatorEvent, AuditRecord, ReviewBundleRecord,
  review_bundle_record_eq, ReviewDecisionRecord, review_decision_record_eq, Error,
  state_store_error,
}
use ho_h.State.Store.{Action, utc_now, uuid4, record_event}
use ho_h.State.Encode.{rollback_record_to_json, review_decision_to_json}
use ho_h.State.Review.{mark_rolled_back}

unfoldable pub append_rollback : RollbackRecord → Action (Unit {0})
append_rollback r w =
    (ok tt, record w { store = record w.store { rollback_records = w.rollback_records ++ r ∷ [] } })

-- `record_rollback` with the record that has the id already, if there is one
unfoldable pub settle_rollback : RollbackRecord → Option RollbackRecord → Action RollbackRecord
settle_rollback r (some existing) =
    if existing == r
    then pure existing
    else raise (
        state_store_error
          (format ("Rollback id already exists with different evidence: " ∷ r.rollback_id ∷ [])))
settle_rollback r none = do
  append_rollback r
  record_event (record {
    event_type = decision;
    actor = "supervisor";
    action = "rollback.recorded";
    recipient = none;
    content = rollback_record_to_json r;
    task_id = some r.work_item_id;
    run_id = some r.run_id;
    correlation_id = some r.rollback_id;
  })
  pure r

abbrev pub has_rollback_id : String → RollbackRecord → Bool
has_rollback_id id item = item.rollback_id == id

unfoldable pub record_rollback : RollbackRecord → Action RollbackRecord
record_rollback r = do
  records ← gets (λ w. w.rollback_records)
  settle_rollback r (find_first (has_rollback_id r.rollback_id) records)

-- the commit of a rollback that may complete the state
unfoldable pub completed_commit : RollbackRecord → Option String
completed_commit r = if r.is_ok then r.rollback_commit else none

unfoldable pub complete_with : RollbackRecord → Option String → Action RollbackRecord
complete_with r none =
    raise (state_store_error "Only a successful rollback with a commit can complete state.")
complete_with r (some commit) = do
  mark_rolled_back r.work_item_id r.target_commit commit
  record_rollback r

unfoldable pub complete_rollback : RollbackRecord → Action RollbackRecord
complete_rollback r = complete_with r (completed_commit r)

unfoldable pub append_operator_event : OperatorEvent → Action (Unit {0})
append_operator_event e w =
    (ok tt, record w { store = record w.store { operator_events = w.operator_events ++ e ∷ [] } })

unfoldable pub record_operator_event :
    String → Bool → String → String → Option String → Action OperatorEvent
record_operator_event command is_ok message raw_text task_id = do
  event_id ← uuid4
  now ← utc_now
  let event : OperatorEvent = record {
    event_id = event_id;
    created_at_utc = now;
    command = command;
    is_ok = is_ok;
    message = message;
    raw_text = raw_text;
    task_id = task_id;
  }
  append_operator_event event
  record_event (record {
    event_type = interaction;
    actor = "customer";
    action = "operator.command";
    recipient = some "supervisor";
    content =
        object (("raw_text", str raw_text) ∷ ("message", str message) ∷ ("ok", flag is_ok) ∷ []);
    task_id = task_id;
    run_id = none;
    correlation_id = none;
  })
  pure event

-- the report under audit-reports/ and its entry in the ledger
unfoldable pub append_audit : String → String → AuditRecord → Action (Unit {0})
append_audit path markdown r w = (
  ok tt,
  record w {
    store = record w.store {
      audit_files = w.audit_files ++ (path, markdown) ∷ [];
      audit_reports = w.audit_reports ++ r ∷ [];
    };
  },
)

unfoldable pub record_audit_report : String → Bool → ℤ → ℤ → Action AuditRecord
record_audit_report markdown is_ok findings_count command_results_count = do
  audit_id ← uuid4
  created_at ← utc_now
  directory ← gets (λ w. w.audit_reports_dir)
  let report_path =
      format
        (directory ∷ "/" ∷ translate "+" "Z" (remove b':' created_at) ∷ "-" ∷ audit_id ∷ ".md" ∷ [])
  let audit : AuditRecord = record {
    audit_id = audit_id;
    created_at_utc = created_at;
    is_ok = is_ok;
    report_path = report_path;
    findings_count = findings_count;
    command_results_count = command_results_count;
  }
  append_audit report_path markdown audit
  record_event (record {
    event_type = artifact;
    actor = "supervisor";
    action = "audit.recorded";
    recipient = none;
    content =
        object
          (("audit_id", str audit_id) ∷ ("ok", flag is_ok) ∷ ("report_path", str report_path) ∷ []);
    task_id = none;
    run_id = none;
    correlation_id = none;
  })
  pure audit

unfoldable pub append_bundle : ReviewBundleRecord → Action (Unit {0})
append_bundle r w =
    (ok tt, record w { store = record w.store { review_bundles = w.review_bundles ++ r ∷ [] } })

unfoldable pub record_review_bundle : ReviewBundleRecord → Action ReviewBundleRecord
record_review_bundle r = do
  bundles ← gets (λ w. w.review_bundles)
  elim (find_first (λ item. item.bundle_id == r.bundle_id) bundles) [
    | some existing ↦
        if existing == r
        then pure existing
        else raise (
            state_store_error (
              format
                ("Review bundle id already exists with different evidence: " ∷ r.bundle_id ∷ [])))
    | none ↦ do
      append_bundle r
      record_event (record {
        event_type = interaction;
        actor = "supervisor";
        action = "critic.review_bundle";
        recipient = some "critic";
        content = object (
            ("bundle_id", str r.bundle_id)
            ∷ ("commit", str r.commit)
            ∷ ("sha256", str r.bundle_sha256)
            ∷ []);
        task_id = some r.work_item_id;
        run_id = some r.run_id;
        correlation_id = none;
      })
      pure r
  ]

-- The loop of `record_review_decision` over what is recorded: an equal record, an error, or nothing
-- in the way.
pub data Clash : Type 0 where
  same : ReviewDecisionRecord → Clash
  refused : Error → Clash
  free : Clash

unfoldable pub decision_clash : ReviewDecisionRecord → List ReviewDecisionRecord → Clash
decision_clash r [] = free
decision_clash r (existing ∷ rest) =
    if existing.decision_id == r.decision_id
    then (if existing == r
        then same existing
        else refused (
            state_store_error (
              format (
                "Review decision id already exists with different evidence: " ∷ r.decision_id
                ∷ []))))
    else if existing.bundle_id == r.bundle_id
    then refused (
        state_store_error
          (format ("Review bundle already has an immutable decision: " ∷ r.bundle_id ∷ [])))
    else decision_clash r rest

unfoldable pub append_decision : ReviewDecisionRecord → Action (Unit {0})
append_decision r w =
    (ok tt, record w { store = record w.store { review_decisions = w.review_decisions ++ r ∷ [] } })

unfoldable pub settle_decision : ReviewDecisionRecord → Clash → Action ReviewDecisionRecord
settle_decision r (same existing) = pure existing
settle_decision r (refused e) = raise e
settle_decision r free = do
  append_decision r
  record_event (record {
    event_type = decision;
    actor = "critic";
    action = "critic.decision";
    recipient = some "supervisor";
    content = review_decision_to_json r;
    task_id = some r.work_item_id;
    run_id = some r.run_id;
    correlation_id = none;
  })
  pure r

unfoldable pub record_review_decision : ReviewDecisionRecord → Action ReviewDecisionRecord
record_review_decision r = do
  decisions ← gets (λ w. w.review_decisions)
  settle_decision r (decision_clash r decisions)

-- `current is not None and offset < current`
abbrev pub is_behind : Option ℤ → ℤ → Bool
is_behind none offset = false
is_behind (some current) offset = ltbℤ offset current

unfoldable pub set_telegram_update_offset : ℤ → Action (Unit {0})
set_telegram_update_offset offset w =
    if is_behind w.telegram_offset offset
    then (ok tt, w)
    else (ok tt, record w { store = record w.store { telegram_offset = some offset } })
