-- ===== src/Tests/Samples.antt =====
-- Sample values: work items, worlds, records of the ledgers, a platform and a job store.
use ho_h.Prelude.{String, true, false, none, some, List, [], ◌∷◌, ◌==◌, string_eq, if◌then◌else◌}
use ho_h.Prelude.Int.{pos}
use ho_h.Prelude.Exec.{ok, err}
use ho_h.Domain.{
  WorkItem, VerificationReport, HarnessRunResult, CommandResult, SemanticVerificationReport,
}
use ho_h.Journal.{Patterns}
use ho_h.State.Records.{
  QueueTask, TaskStatus, queued, running, review_pending, done, RunRecord, RollbackRecord,
  OperatorEvent, ReviewDecisionRecord, approve,
}
use ho_h.State.Store.{World}
use ho_h.State.Values.{Python}
use ho_h.State.Records.{AuditRecord, ReviewBundleRecord}
use ho_h.State.Paths.{Pathlib}
use ho_h.Prelude.{not}
use ho_h.Commands.{Platform}
use ho_h.Jobs.{WorkerJob, WorkerCompletion, JobWorld, agent, local_agent, dispatched}

abbrev pub item : String → List String → List String → WorkItem
item id depends_on paths = record {
  id = id;
  title = "title";
  objective = "objective";
  acceptance_criteria = "works" ∷ [];
  verification_commands = "pytest" ∷ [];
  allowed_paths = paths;
  non_goals = [];
  depends_on = depends_on;
  priority = pos 0;
  correction_instructions = [];
  correction_decision_id = none;
}

abbrev pub task : TaskStatus → WorkItem → QueueTask
task status item = record {
  work_item = item;
  status = status;
  source = "plan";
  added_at_utc = "t0";
  updated_at_utc = "t0";
  attempts = pos 0;
  last_commit = none;
  last_error = none;
  pending_review_bundle_id = none;
  last_review_decision_id = none;
}

abbrev pub patterns : Patterns
patterns = record {
  secret_key = λ k. k == "token";
  bot_token = λ s. s;
  bearer = λ s. if s == "Bearer 1" then "Bearer <redacted>" else s;
  env_secret = λ s. s;
  credential_shapes = (λ s. if s == "sk-1" then "<redacted>" else s) ∷ [];
}

abbrev pub world : List QueueTask → World
world tasks = record {
  store = record {
    tasks = tasks;
    history = [];
    rollback_records = [];
    operator_events = [];
    audit_reports = [];
    audit_files = [];
    review_bundles = [];
    review_decisions = [];
    telegram_offset = some (pos 7);
    journal = [];
  };
  utc = λ _. "t1";
  uuid = λ _. "u1";
  calls = 0;
  patterns = patterns;
  audit_reports_dir = "audit-reports";
  contended = none;
}

-- `b` waits for `a`, which is done; `c` waits for `b`
abbrev pub three_tasks : List QueueTask
three_tasks =
    task done (item "a" [] ("src" ∷ []))
    ∷ task queued (item "b" ("a" ∷ []) ("src" ∷ []))
    ∷ task queued (item "c" ("b" ∷ []) ("docs" ∷ []))
    ∷ []

abbrev pub decision_record : ReviewDecisionRecord
decision_record = record {
  decision_id = "d1";
  bundle_id = "b1";
  bundle_sha256 = "00";
  run_id = "r1";
  work_item_id = "a";
  commit = "abc";
  reviewer_id = "critic";
  reviewer_kind = "model";
  decision = approve;
  summary = "fine";
  findings = record { code = "F1"; severity = "low"; message = "note"; path = none } ∷ [];
  created_at_utc = "t0";
  imported_at_utc = "t0";
  protocol_version = "1.0";
  correction_brief = none;
  escalation = none;
}

abbrev pub command_result : CommandResult
command_result = record { command = "pytest"; return_code = pos 0; stdout = ""; stderr = "" }

abbrev pub rollback : RollbackRecord
rollback = record {
  rollback_id = "k1";
  created_at_utc = "t0";
  work_item_id = "a";
  run_id = "r1";
  target_commit = "abc";
  rollback_commit = some "def";
  reason = "broken";
  is_ok = true;
  changed_files = "src/a.py" ∷ [];
  command_results = command_result ∷ [];
  error = none;
}

abbrev pub report : SemanticVerificationReport
report = record { decision = "pass"; summary = "good"; findings = []; evidence = none }

abbrev pub run : RunRecord
run = record {
  run_id = "r1";
  work_item_id = "a";
  started_at_utc = "t0";
  finished_at_utc = "t1";
  is_ok = true;
  commit = some "abc";
  error = none;
  pre_apply_findings = [];
  post_apply_findings = "style" ∷ [];
  command_results = command_result ∷ [];
  semantic_verification = some report;
}

abbrev pub operator_event : OperatorEvent
operator_event = record {
  event_id = "e1";
  created_at_utc = "t0";
  command = "status";
  is_ok = true;
  message = "done";
  raw_text = "/status";
  task_id = some "a";
}

abbrev pub python : Python
python = record {
  repr = λ _. "[]";
  int_of_text = λ _. none;
  int_of_float = λ _. some (pos 1);
  is_zero = λ _. false;
}

abbrev pub platform : Platform
platform = record {
  split = λ command. if command == "\"" then err "No closing quotation" else ok (command ∷ []);
  lex = λ command. if command == "a | b" then some ("a" ∷ "|" ∷ "b" ∷ []) else some (command ∷ []);
  file_name = λ path. path;
  same_program = λ program. none;
  is_secret = λ name. name == "API_TOKEN";
}

abbrev pub job : WorkerJob
job = record {
  id = "j1";
  work_item = item "a" [] [];
  target = agent (record {
    name = "local";
    command = "worker";
    args = [];
    environment = [];
    target_type = local_agent;
  });
  callback_token = "t1";
  status = dispatched;
  created_at_utc = "t0";
}

abbrev pub completion : String → WorkerCompletion
completion token = record {
  job_id = "j1";
  callback_token = token;
  patch = none;
  error = some "failed";
  error_kind = none;
  retryable = false;
}

abbrev pub job_world : JobWorld
job_world = record {
  jobs = ("j1", job) ∷ [];
  completions = [];
  uuid = λ _. "j2";
  utc = λ _. "t0";
  calls = 0;
}

abbrev pub pathlib : Pathlib
pathlib = record {
  relative_to =
      λ path root. if path == "/r/a.md" then (if root == "/r" then some "a.md" else none) else none;
  is_absolute = λ path. not (path == "a.md");
  joined = λ root path. "/r/a.md";
}

abbrev pub audit : AuditRecord
audit = record {
  audit_id = "a1";
  created_at_utc = "t0";
  is_ok = true;
  report_path = "/r/a.md";
  findings_count = pos 0;
  command_results_count = pos 2;
}

abbrev pub bundle : ReviewBundleRecord
bundle = record {
  bundle_id = "b1";
  created_at_utc = "t0";
  run_id = "r1";
  work_item_id = "a";
  commit = "abc";
  bundle_sha256 = "00";
  bundle_path = "/elsewhere/b.json";
}

abbrev pub clean_report : VerificationReport
clean_report = record { is_ok = true; findings = []; metrics = [] }

abbrev pub good_result : HarnessRunResult
good_result = record {
  repository = "/r";
  work_item_id = "a";
  commit = some "abc";
  pre_apply = clean_report;
  post_apply = clean_report;
  command_results = command_result ∷ [];
  semantic_verification = none;
}

abbrev pub good_run : RunRecord
good_run = record {
  run_id = "r1";
  work_item_id = "a";
  started_at_utc = "t0";
  finished_at_utc = "t1";
  is_ok = true;
  commit = some "abc";
  error = none;
  pre_apply_findings = [];
  post_apply_findings = [];
  command_results = command_result ∷ [];
  semantic_verification = none;
}

abbrev pub running_world : World
running_world = world (task running (item "a" [] []) ∷ [])

abbrev pub reviewed : QueueTask
reviewed = record (task review_pending (item "a" [] [])) { pending_review_bundle_id = some "b1" }

abbrev pub approved : QueueTask
approved = record (task done (item "a" [] [])) {
  last_review_decision_id = some "d1";
  updated_at_utc = "t1";
}
