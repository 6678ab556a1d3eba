-- ===== src/Jobs.antt =====
-- `InMemoryJobStore` of src/llm_harness/jobs.py, with the execution targets of
-- src/llm_harness/targets.py: jobs handed to workers, and the completions that workers send back
-- under the job's callback token.
pub mod Tokens
use ho_h.Prelude.{
  ℕ, ◌+◌, String, Bool, not, Option, none, some, List, [], ◌∷◌, map, ◌==◌, string_eq, format,
  if◌then◌else◌,
}
use ho_h.Prelude.Dict.{Dict, lookup, put}
use ho_h.Prelude.Exec.{Exec, Result, ok, err, pure, raise, gets, ◌>>=◌, ◌>>◌}
use ho_h.Domain.{WorkerPatch, WorkItem}

pub data ExecutionTargetType : Type 0 where
  local_agent local_model_endpoint : ExecutionTargetType

pub record LocalAgentTarget : Type 0 where
  pub name : String
  pub command : String
  pub args : List String
  pub environment : List (String × String)
  pub target_type : ExecutionTargetType

pub record LocalModelEndpointTarget : Type 0 where
  pub name : String
  pub base_url : String
  pub model : String
  pub protocol : String
  pub target_type : ExecutionTargetType

pub data ExecutionTarget : Type 0 where
  agent : LocalAgentTarget → ExecutionTarget
  endpoint : LocalModelEndpointTarget → ExecutionTarget

pub data JobStatus : Type 0 where
  created dispatched completed failed : JobStatus

pub record WorkerJob : Type 0 where
  pub id : String
  pub work_item : WorkItem
  pub target : ExecutionTarget
  pub callback_token : String
  pub status : JobStatus
  pub created_at_utc : String

pub record WorkerCompletion : Type 0 where
  pub job_id : String
  pub callback_token : String
  pub patch : Option WorkerPatch
  pub error : Option String
  pub error_kind : Option String
  pub retryable : Bool

pub data JobError : Type 0 where
  key_error : String → JobError
  value_error : String → JobError

-- The two dictionaries of the store, with the source of ids and the clock beside them: `uuid n` and
-- `utc n` are what call number n gives.
pub record JobWorld : Type 0 where
  pub jobs : Dict WorkerJob
  pub completions : Dict WorkerCompletion
  pub uuid : ℕ → String
  pub utc : ℕ → String
  pub calls : ℕ

abbrev pub JobAction : Type 0 → Type 0
JobAction A = Exec JobWorld JobError A

abbrev pub set_job : String → WorkerJob → JobWorld → JobWorld
set_job id job w = record w { jobs = put id job w.jobs }

unfoldable pub create : WorkItem → ExecutionTarget → JobAction WorkerJob
create work_item target w =
    let job : WorkerJob = record {
      id = w.uuid w.calls;
      work_item = work_item;
      target = target;
      callback_token = w.uuid (w.calls + 1);
      status = created;
      created_at_utc = w.utc (w.calls + 2);
    } in
    (ok job, record (set_job job.id job w) { calls = w.calls + 3 })

abbrev pub found_or_unknown : String → Option WorkerJob → Result JobError WorkerJob
found_or_unknown job_id none = err (key_error (format ("Unknown worker job: " ∷ job_id ∷ [])))
found_or_unknown job_id (some job) = ok job

-- `get`
unfoldable pub get_job : String → JobWorld → Result JobError WorkerJob
get_job job_id w = found_or_unknown job_id (lookup job_id w.jobs)

abbrev pub dispatch_found : String → Result JobError WorkerJob → JobAction WorkerJob
dispatch_found job_id (err e) w = (err e, w)
dispatch_found job_id (ok job) w =
    let job' : WorkerJob = record job { status = dispatched } in (ok job', set_job job_id job' w)

unfoldable pub mark_dispatched : String → JobAction WorkerJob
mark_dispatched job_id w = dispatch_found job_id (get_job job_id w) w

-- `JobStatus.FAILED if completion.error else JobStatus.COMPLETED`
unfoldable pub status_of_completion : Option String → JobStatus
status_of_completion none = completed
status_of_completion (some error) = if error == "" then completed else failed

abbrev pub complete_found : WorkerCompletion → Result JobError WorkerJob → JobAction WorkerJob
complete_found completion (err e) w = (err e, w)
complete_found completion (ok job) w =
    let job' : WorkerJob = record job { status = status_of_completion completion.error } in
    if not (completion.callback_token == job.callback_token)
    then (err (value_error "Invalid callback token."), w)
    else (
      ok job',
      record (set_job job.id job' w) { completions = put job.id completion w.completions },
    )

unfoldable pub complete : WorkerCompletion → JobAction WorkerJob
complete completion w = complete_found completion (get_job completion.job_id w) w

unfoldable pub completion_for : String → JobWorld → Option WorkerCompletion
completion_for job_id w = lookup job_id w.completions

unfoldable pub completions_of : JobWorld → List WorkerCompletion
completions_of w = map (λ p. p.1) w.completions

-- a call of a method that changes the store
pub data JobOperation : Type 0 where
  create_op : WorkItem → ExecutionTarget → JobOperation
  dispatch_op : String → JobOperation
  complete_op : WorkerCompletion → JobOperation

unfoldable pub step : JobOperation → JobWorld → JobWorld
unfolding create mark_dispatched complete
step (create_op item target) w = (create item target w).1
step (dispatch_op job_id) w = (mark_dispatched job_id w).1
step (complete_op completion) w = (complete completion w).1
