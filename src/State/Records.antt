-- ===== src/State/Records.antt =====
-- The records of src/llm_harness/state.py. A path is its text; a time is its ISO text.
use ho_h.Prelude.{String, Bool, Option, List, String-discrete, string_eq, Eq}
use ho_h.Prelude.Int.{ℤ, ℤ-discrete}
use ho_h.Domain.{
  WorkItem, CommandResult, SemanticVerificationReport, WorkItem-discrete, CommandResult-discrete,
}

pub data TaskStatus : Type 0 where
  queued running review_pending rework_required escalated done failed rolled_back : TaskStatus

unfoldable pub TaskStatus-discrete : Discrete TaskStatus
TaskStatus-discrete = hlevel

instance abbrev pub status_eq : Eq TaskStatus
status_eq = record { dec = TaskStatus-discrete }

abbrev pub show_status : TaskStatus → String
show_status queued = "queued"
show_status running = "running"
show_status review_pending = "review_pending"
show_status rework_required = "rework_required"
show_status escalated = "escalated"
show_status done = "done"
show_status failed = "failed"
show_status rolled_back = "rolled_back"

pub data ReviewDecision : Type 0 where
  approve reject escalate : ReviewDecision

-- The exceptions that the store's methods raise, with the message where the source gives one.
pub data Error : Type 0 where
  state_store_error : String → Error
  key_error : String → Error
  type_error : Error
  value_error : String → Error
  stop_iteration : Error
  index_error : Error
  recursion_error : Error

pub record QueueTask : Type 0 where
  pub work_item : WorkItem
  pub status : TaskStatus
  pub source : String
  pub added_at_utc : String
  pub updated_at_utc : String
  pub attempts : ℤ
  pub last_commit : Option String
  pub last_error : Option String
  pub pending_review_bundle_id : Option String
  pub last_review_decision_id : Option String

unfoldable pub QueueTask-discrete : Discrete QueueTask
QueueTask-discrete = hlevel (WorkItem-discrete, String-discrete, ℤ-discrete, TaskStatus-discrete)

instance abbrev pub task_eq : Eq QueueTask
task_eq = record { dec = QueueTask-discrete }

pub record DependencyBlocker : Type 0 where
  pub task_id : String
  pub status : String

pub record TaskReadiness : Type 0 where
  pub task : QueueTask
  pub ready : Bool
  pub blockers : List DependencyBlocker

pub record QueueSchedule : Type 0 where
  pub selected : Option QueueTask
  pub ready : List TaskReadiness
  pub waiting : List TaskReadiness

pub record RunRecord : Type 0 where
  pub run_id : String
  pub work_item_id : String
  pub started_at_utc : String
  pub finished_at_utc : String
  pub is_ok : Bool
  pub commit : Option String
  pub error : Option String
  pub pre_apply_findings : List String
  pub post_apply_findings : List String
  pub command_results : List CommandResult
  pub semantic_verification : Option SemanticVerificationReport

pub record RollbackRecord : Type 0 where
  pub rollback_id : String
  pub created_at_utc : String
  pub work_item_id : String
  pub run_id : String
  pub target_commit : String
  pub rollback_commit : Option String
  pub reason : String
  pub is_ok : Bool
  pub changed_files : List String
  pub command_results : List CommandResult
  pub error : Option String

unfoldable pub RollbackRecord-discrete : Discrete RollbackRecord
RollbackRecord-discrete = hlevel (CommandResult-discrete, String-discrete)

instance abbrev pub rollback_record_eq : Eq RollbackRecord
rollback_record_eq = record { dec = RollbackRecord-discrete }

pub record OperatorEvent : Type 0 where
  pub event_id : String
  pub created_at_utc : String
  pub command : String
  pub is_ok : Bool
  pub message : String
  pub raw_text : String
  pub task_id : Option String

pub record AuditRecord : Type 0 where
  pub audit_id : String
  pub created_at_utc : String
  pub is_ok : Bool
  pub report_path : String
  pub findings_count : ℤ
  pub command_results_count : ℤ

pub record ReviewBundleRecord : Type 0 where
  pub bundle_id : String
  pub created_at_utc : String
  pub run_id : String
  pub work_item_id : String
  pub commit : String
  pub bundle_sha256 : String
  pub bundle_path : String

unfoldable pub ReviewBundleRecord-discrete : Discrete ReviewBundleRecord
ReviewBundleRecord-discrete = hlevel String-discrete

instance abbrev pub review_bundle_record_eq : Eq ReviewBundleRecord
review_bundle_record_eq = record { dec = ReviewBundleRecord-discrete }

pub record ReviewFinding : Type 0 where
  pub code : String
  pub severity : String
  pub message : String
  pub path : Option String

pub record CorrectionBrief : Type 0 where
  pub rationale : String
  pub instructions : List String
  pub validation_focus : List String

pub record EscalationRequest : Type 0 where
  pub reason : String
  pub question : String
  pub options : List String

pub record ReviewDecisionRecord : Type 0 where
  pub decision_id : String
  pub bundle_id : String
  pub bundle_sha256 : String
  pub run_id : String
  pub work_item_id : String
  pub commit : String
  pub reviewer_id : String
  pub reviewer_kind : String
  pub decision : ReviewDecision
  pub summary : String
  pub findings : List ReviewFinding
  pub created_at_utc : String
  pub imported_at_utc : String
  pub protocol_version : String
  pub correction_brief : Option CorrectionBrief
  pub escalation : Option EscalationRequest

unfoldable pub ReviewDecisionRecord-discrete : Discrete ReviewDecisionRecord
ReviewDecisionRecord-discrete = hlevel String-discrete

instance abbrev pub review_decision_record_eq : Eq ReviewDecisionRecord
review_decision_record_eq = record { dec = ReviewDecisionRecord-discrete }
