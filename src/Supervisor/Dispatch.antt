-- ===== src/Supervisor/Dispatch.antt =====
-- Work items that src/llm_harness/supervisor.py hands to a worker.
use ho_h.Prelude.{
  String, String-discrete, Bool, true, false, not, ◌||◌, Option, none, List, [], ◌∷◌, ◌≡◌, ◌⊎◌, inl,
  inr, refl, sym, subst, arith, if◌then◌else◌, ◌==◌, string_eq, format,
}
use ho_h.Prelude.Chars.{strip}
use ho_h.Prelude.Exec.{Result, ok, err, pure, raise, ◌>>=◌}
use ho_h.Prelude.Int.{pos}
use ho_h.Domain.{WorkItem}
use ho_h.Git.{ensure_git_repository, returned}
use ho_h.Git.Calls.{Desk, ask, Call, git_error}
use ho_h.Jobs.{
  ExecutionTarget, WorkerJob, WorkerCompletion, JobAction, JobError, JobWorld, create,
  mark_dispatched, complete,
}
use ho_h.Supervisor.{
  Site, Supervisor, OperationContext, settled, on_jobs, ask_worker, accept_completion,
  run_dispatched, record_dispatch, dispatch_job, run_worker, report_failure, is_failed,
  after_completion, dispatch_work_item, execute_worker_completion,
}
use ho_h.Supervisor.Effects.{
  effects, Sound, Sound-after, Sound-known, Sound-pure, Quiet, Quiet->>=, Quiet-pure, Quiet-raise,
  Quiet-ask,
}
use ho_h.Supervisor.GitEffects.{Quiet-git}
use ho_h.Supervisor.Quiet.{notify-Quiet, record_entry-Quiet}
use ho_h.Supervisor.Guard.{
  Guarded, Guarded-known, Guarded-Quiet, IsGuarded, execute_worker_completion-IsGuarded,
}

module _ (site : Site) (supervisor : Supervisor) where
  settled-effects :
      {A : Type 0} (desk : Desk) (r : Result JobError A) (jobs : JobWorld)
      → effects (settled site supervisor desk r jobs).1.calls ≡ effects desk.calls
  settled-effects desk (ok a) jobs = refl
  settled-effects desk (err e) jobs = refl

  on_jobs-Quiet : {A : Type 0} (action : JobAction A) → Quiet (on_jobs site supervisor action)
  unfolding on_jobs
  on_jobs-Quiet action desk =
      settled-effects desk (action desk.job_world).0 (action desk.job_world).1

  ensure_git_repository-Quiet : Quiet (ensure_git_repository site.outside site.repository)
  unfolding ensure_git_repository String-discrete
  ensure_git_repository-Quiet =
      Quiet->>= _ _ (Quiet-git site.outside _ none (λ e. refl))
        λ result. branch (not (returned (pos 0) result) || not (strip result.stdout == "true"))
    where
      branch :
          (b : Bool)
          → Quiet (
              if b
              then raise (git_error (format ("Not a git repository: " ∷ site.repository ∷ [])))
              else pure tt)
      branch true = Quiet-raise Unit _
      branch false = Quiet-pure tt

  -- what the worker answers
  abbrev IsAnswer : WorkerJob × WorkerCompletion → Type 0
  IsAnswer (_, completion) =
      (calls : List Call) × (job : WorkerJob) × (completion ≡ site.outside.run_job calls job)

  accept_completion-IsAnswer :
      (completion : WorkerCompletion) (calls : List Call) (job : WorkerJob)
      → completion ≡ site.outside.run_job calls job
      → Sound (λ _ x _. IsAnswer x) (accept_completion site supervisor completion)
  accept_completion-IsAnswer completion calls job same =
      Sound-after (λ _ x _. IsAnswer x) (on_jobs site supervisor (complete completion))
        (λ completed_job. pure (completed_job, completion)) (on_jobs-Quiet (complete completion))
        (λ completed_job.
          Sound-pure (λ _ x _. IsAnswer x) (completed_job, completion) (λ e. (calls, job, same)))

  ask_worker-answer :
      (job : WorkerJob) (desk : Desk) (completion : WorkerCompletion)
      → (ask_worker site supervisor job desk).0 ≡ ok completion
      → (calls : List Call) × (completion ≡ site.outside.run_job calls job)
  unfolding ask
  ask_worker-answer job desk completion h =
      let same : site.outside.run_job desk.calls job ≡ completion = ground (arith, h) in
      (desk.calls, sym same)

  run_dispatched-IsAnswer :
      (job : WorkerJob) → Sound (λ _ x _. IsAnswer x) (run_dispatched site supervisor job)
  run_dispatched-IsAnswer job =
      Sound-known (λ _ x _. IsAnswer x)
        (λ completion. (calls : List Call) × (completion ≡ site.outside.run_job calls job))
        (ask_worker site supervisor job) (accept_completion site supervisor)
        (Quiet-ask _ _ (λ e. refl)) (ask_worker-answer job)
        (λ completion (calls, same). accept_completion-IsAnswer completion calls job same)

  module _ (item : WorkItem) (target : ExecutionTarget) (worker_name : String) where
    run_worker-IsAnswer :
        Sound (λ _ x _. IsAnswer x) (run_worker site supervisor item target worker_name)
    unfolding run_worker
    run_worker-IsAnswer =
        Sound-after (λ _ x _. IsAnswer x) _
          (λ _.
            on_jobs site supervisor (create item target)
            >>= dispatch_job site supervisor item target worker_name)
          ensure_git_repository-Quiet
          (λ _.
            Sound-after (λ _ x _. IsAnswer x) (on_jobs site supervisor (create item target))
              (dispatch_job site supervisor item target worker_name)
              (on_jobs-Quiet (create item target))
              (λ job.
                Sound-after (λ _ x _. IsAnswer x) (on_jobs site supervisor (mark_dispatched job.id))
                  (record_dispatch site supervisor item target worker_name job)
                  (on_jobs-Quiet (mark_dispatched job.id))
                  (λ dispatched_job.
                    Sound-after (λ _ x _. IsAnswer x) _
                      (λ _. run_dispatched site supervisor dispatched_job)
                      (record_entry-Quiet site supervisor _)
                      (λ _. run_dispatched-IsAnswer dispatched_job))))

    run_worker-Quiet : Quiet (run_worker site supervisor item target worker_name)
    unfolding run_worker
    run_worker-Quiet = Quiet->>= _ _ ensure_git_repository-Quiet λ _.
        Quiet->>= _ _ (on_jobs-Quiet (create item target)) λ job.
          Quiet->>= _ _ (on_jobs-Quiet (mark_dispatched job.id)) λ dispatched_job.
            Quiet->>= _ _ (record_entry-Quiet site supervisor _) λ _.
              Quiet->>= _ _ (Quiet-ask _ _ (λ e. refl)) λ completion.
                Quiet->>= _ _ (on_jobs-Quiet (complete completion)) λ completed_job. Quiet-pure _

-- There are a trace and a job at which the worker answers with a patch that the gate accepts.
abbrev pub IsAnswered : Site → Supervisor → WorkItem → Type 0
IsAnswered site supervisor item =
    (calls : List Call) × (job : WorkerJob) × IsGuarded site supervisor item
      (site.outside.run_job calls job).patch

module _ (site : Site) (supervisor : Supervisor) (item : WorkItem) where
  after_completion-Guarded :
      (context : Option OperationContext) (worker_name : String) (x : WorkerJob × WorkerCompletion)
      → IsAnswer site supervisor x
      → Guarded
          (IsAnswered site supervisor item)
          (after_completion site supervisor item context worker_name x)
  after_completion-Guarded context worker_name (job, completion) (calls, answered, same) =
      branch (is_failed site supervisor job.status)
    where
      branch :
          (b : Bool)
          → Guarded (IsAnswered site supervisor item) (
              if b
              then report_failure site supervisor item worker_name job completion
              else execute_worker_completion site supervisor item completion context)
      branch true desk =
          Guarded-Quiet (IsAnswered site supervisor item)
            (report_failure site supervisor item worker_name job completion)
            (Quiet->>= _ _ (record_entry-Quiet site supervisor _)
              λ _. Quiet->>= _ _ (notify-Quiet _) λ _. Quiet-pure _)
            desk
      branch false desk =
          elim (execute_worker_completion-IsGuarded site supervisor item context completion desk) [
            | inl unchanged ↦ inl unchanged
            | inr guarded ↦
                inr (
                  calls,
                  answered,
                  subst (λ c. IsGuarded site supervisor item c.patch) same guarded,
                )
          ]

  -- Whether the dispatch of a work item returns or raises, it makes no call of `git apply`,
  -- `git apply -R`, `git add` and `git commit` unless there are a trace and a job at which the worker
  -- answers with a completion whose patch the policy gate accepts for the work item.
  pub dispatch_work_item-IsAnswered :
      (target : ExecutionTarget) (worker_name : String) (context : Option OperationContext)
      (desk : Desk)
      → (effects (dispatch_work_item site supervisor item target worker_name context desk).1.calls
          ≡ effects desk.calls)
        ⊎ IsAnswered site supervisor item
  unfolding dispatch_work_item
  dispatch_work_item-IsAnswered target worker_name context =
      Guarded-known (IsAnswered site supervisor item) (IsAnswer site supervisor)
        (run_worker site supervisor item target worker_name)
        (after_completion site supervisor item context worker_name)
        (run_worker-Quiet site supervisor item target worker_name)
        (run_worker-IsAnswer site supervisor item target worker_name)
        (after_completion-Guarded context worker_name)
