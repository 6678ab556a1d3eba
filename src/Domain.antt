-- ===== src/Domain.antt =====
-- src/llm_harness/domain.py: the values that the roles exchange.
use ho_h.Prelude.{
  String, Bool, true, false, ◌&&◌, ◌||◌, Option, none, some, List, ◌==◌, String-discrete, string_eq,
  if◌then◌else◌,
}
use ho_h.Prelude.Int.{ℤ, pos, ℤ-discrete, int_eq}
use ho_h.Prelude.Lists.{all}
use ho_h.Prelude.Exec.{Result, ok, err}

pub record WorkItem : Type 0 where
  pub id : String
  pub title : String
  pub objective : String
  pub acceptance_criteria : List String
  pub verification_commands : List String
  pub allowed_paths : List String
  pub non_goals : List String
  pub depends_on : List String
  pub priority : ℤ
  pub correction_instructions : List String
  pub correction_decision_id : Option String

pub record WorkerPatch : Type 0 where
  pub worker_name : String
  pub work_item_id : String
  pub patch : String
  pub notes : String

-- a value of `metrics: dict[str, int | str | bool]`
pub data Metric : Type 0 where
  count : ℤ → Metric
  text : String → Metric
  flag : Bool → Metric

pub record VerificationReport : Type 0 where
  pub is_ok : Bool
  pub findings : List String
  pub metrics : List (String × Metric)

pub record ModelInvocationEvidence : Type 0 where
  pub provider : String
  pub model : String
  pub endpoint : String
  pub request_id : Option String
  pub attempts : ℤ
  pub latency_ms : ℤ
  pub input_tokens : Option ℤ
  pub output_tokens : Option ℤ
  pub total_tokens : Option ℤ
  pub request_sha256 : String
  pub response_sha256 : String

pub record SemanticVerificationReport : Type 0 where
  pub decision : String
  pub summary : String
  pub findings : List String
  pub evidence : Option ModelInvocationEvidence

-- `__post_init__`: the message of the `ValueError` that it raises, or the value itself.
unfoldable pub checked : SemanticVerificationReport → Result String SemanticVerificationReport
checked report =
    if report.decision == "pass" || report.decision == "fail" || report.decision == "escalate"
    then ok report
    else err "Semantic verifier decision must be pass, fail, or escalate."

unfoldable pub semantic_ok : SemanticVerificationReport → Bool
semantic_ok report = report.decision == "pass"

pub record CommandResult : Type 0 where
  pub command : String
  pub return_code : ℤ
  pub stdout : String
  pub stderr : String

unfoldable pub command_ok : CommandResult → Bool
command_ok result = result.return_code == pos 0

pub record HarnessRunResult : Type 0 where
  pub repository : String
  pub work_item_id : String
  pub commit : Option String
  pub pre_apply : VerificationReport
  pub post_apply : VerificationReport
  pub command_results : List CommandResult
  pub semantic_verification : Option SemanticVerificationReport

abbrev pub absent_or_ok : Option SemanticVerificationReport → Bool
absent_or_ok none = true
absent_or_ok (some report) = semantic_ok report

abbrev pub is_some : Option String → Bool
is_some none = false
is_some (some _) = true

-- the property `HarnessRunResult.ok`
unfoldable pub run_ok : HarnessRunResult → Bool
run_ok result =
    is_some result.commit
    && result.pre_apply.is_ok
    && result.post_apply.is_ok
    && all command_ok result.command_results
    && absent_or_ok result.semantic_verification

unfoldable pub WorkItem-discrete : Discrete WorkItem
WorkItem-discrete = hlevel (String-discrete, ℤ-discrete)

unfoldable pub CommandResult-discrete : Discrete CommandResult
CommandResult-discrete = hlevel (String-discrete, ℤ-discrete)
