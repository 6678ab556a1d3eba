-- ===== src/Jobs/Tokens.antt =====
-- The callback tokens of src/llm_harness/jobs.py, and completions that carry the right one or another.
use ho_h.Prelude.{
  String, Option, none, some, ◌≡◌, ◌≢◌, ◌⊎◌, inl, inr, refl, sym, ap, subst, ◌∙◌, arith, ◌==◌,
  string_eq, eq_of_==, ne_of_==, ==_refl, Bool-cases, Option-cases,
}
use mathlib.Core.Option.{some-injective}
use ho_h.Prelude.Dict.{lookup, put, lookup-put, put-cases}
use ho_h.Prelude.Exec.{ok, err}
use ho_h.Jobs.{
  WorkerJob, WorkerCompletion, JobWorld, JobStatus, completed, failed, set_job, JobError, get_job,
  found_or_unknown, dispatch_found, complete_found, create, mark_dispatched, complete,
  completion_for, status_of_completion, JobOperation, create_op, dispatch_op, complete_op, step,
}

-- Each job is stored under its own id, and each completion under the id of a job that has its token.
pub record IsAuthentic (w : JobWorld) : Type 0 where
  pub named : (id : String) (job : WorkerJob) → lookup id w.jobs ≡ some job → job.id ≡ id
  pub owned :
      (id : String) (c : WorkerCompletion)
      → lookup id w.completions ≡ some c
      → (job : WorkerJob) × (lookup id w.jobs ≡ some job) × (job.callback_token ≡ c.callback_token)

-- the id of a new job is not in use
abbrev pub IsFresh : JobOperation → JobWorld → Type 0
IsFresh (create_op item target) w = lookup (w.uuid w.calls) w.jobs ≡ none
IsFresh _ w = Unit

-- The status that reports a completion: `completed` without an error or with an empty one, and
-- `failed` with another.
abbrev pub Reports : Option String → JobStatus → Type 0
Reports error status =
    (((error ≡ none) ⊎ (error ≡ some "")) × (status ≡ completed))
    ⊎ ((message : String) × (error ≡ some message) × (message ≢ "") × (status ≡ failed))

status_of_completion-Reports : (error : Option String) → Reports error (status_of_completion error)
unfolding status_of_completion
status_of_completion-Reports none = inl (inl refl, refl)
status_of_completion-Reports (some message) = elim (Bool-cases (message == "")) [
  | inl blank ↦ inl (inr (ap some (eq_of_== message "" blank)), rw blank refl)
  | inr differ ↦ inr (message, refl, ne_of_== message "" differ, rw differ refl)
]

-- A completion whose job is known and whose token is that of the job is stored: `complete` returns the
-- job with a new status and nothing else changed, and afterwards `get` and `completion_for` give that
-- job and the completion back. The status is `completed` if the completion has no error or an empty
-- one, and `failed` if it has another.
pub complete-get_job :
    (w : JobWorld) (c : WorkerCompletion) (job : WorkerJob)
    → lookup c.job_id w.jobs ≡ some job
    → job.id ≡ c.job_id
    → c.callback_token ≡ job.callback_token
    → (status : JobStatus) × ((complete c w).0 ≡ ok (record job { status = status }))
      × (get_job c.job_id (complete c w).1 ≡ ok (record job { status = status }))
      × (completion_for c.job_id (complete c w).1 ≡ some c)
      × Reports c.error status
unfolding complete get_job completion_for
complete-get_job w c job found same token = (
  status_of_completion c.error,
  rw (found, token, ==_refl job.callback_token) refl,
  rw (found, token, ==_refl job.callback_token, same, lookup-put, ==_refl c.job_id) refl,
  rw (found, token, ==_refl job.callback_token, same, lookup-put, ==_refl c.job_id) refl,
  status_of_completion-Reports c.error,
)

-- When `complete` raises, for an unknown job or for another token than the job's, it changes nothing.
pub complete-refused :
    (w : JobWorld) (c : WorkerCompletion) (e : JobError)
    → (complete c w).0 ≡ err e
    → (complete c w).1 ≡ w
unfolding complete get_job
complete-refused w c e refused = elim (Option-cases (lookup c.job_id w.jobs)) [
  | inl absent ↦ rw absent refl
  | inr (job, found) ↦ elim (Bool-cases (c.callback_token == job.callback_token)) [
    | inl same ↦ absurd (ground (arith, found, same, refused))
    | inr differ ↦ rw (found, differ) refl
  ]
]

-- a job put in place of one with its token, or under a new id
put_job-IsAuthentic :
    (w : JobWorld) (key : String) (job : WorkerJob)
    → IsAuthentic w
    → job.id ≡ key
    → ((old : WorkerJob) → lookup key w.jobs ≡ some old → old.callback_token ≡ job.callback_token)
    → IsAuthentic (set_job key job w)
put_job-IsAuthentic w key job h name keeps = record {
  named = λ id j found. elim (put-cases key id job j w.jobs found) [
    | inl (same, now) ↦ sym (ap (λ j. j.id) now) ∙ name ∙ same
    | inr (differ, before) ↦ h.named id j before
  ];
  owned = λ id c found.
      let (j, at_id, token) = h.owned id c found in
      elim (Bool-cases (key == id)) [
        | inl same ↦ (
          job,
          rw (lookup-put, same) refl,
          sym (keeps j (rw (eq_of_== key id same) at_id)) ∙ token,
        )
        | inr differ ↦ (j, rw (lookup-put, differ) at_id, token)
      ];
}

put_completion-IsAuthentic :
    (w : JobWorld) (key : String) (job : WorkerJob) (c : WorkerCompletion)
    → IsAuthentic w
    → lookup key w.jobs ≡ some job
    → job.callback_token ≡ c.callback_token
    → IsAuthentic (record w { completions = put key c w.completions })
put_completion-IsAuthentic w key job c h here token = record {
  named = h.named;
  owned = λ id d found. elim (put-cases key id c d w.completions found) [
    | inl (same, now) ↦ (
      job,
      subst (λ id. lookup id w.jobs ≡ some job) same here,
      token ∙ ap (λ c. c.callback_token) now,
    )
    | inr (differ, before) ↦ h.owned id d before
  ];
}

dispatch-IsAuthentic :
    (w : JobWorld) (job_id : String) (o : Option WorkerJob)
    → lookup job_id w.jobs ≡ o
    → IsAuthentic w
    → IsAuthentic (dispatch_found job_id (found_or_unknown job_id o) w).1
dispatch-IsAuthentic w job_id none absent h = h
dispatch-IsAuthentic w job_id (some job) found h =
    put_job-IsAuthentic w job_id _ h (h.named job_id job found)
      λ old before. ap (λ j. j.callback_token) (some-injective _ _ (sym before ∙ found))

complete-IsAuthentic :
    (w : JobWorld) (c : WorkerCompletion) (o : Option WorkerJob)
    → lookup c.job_id w.jobs ≡ o
    → IsAuthentic w
    → IsAuthentic (complete_found c (found_or_unknown c.job_id o) w).1
complete-IsAuthentic w c none absent h = h
complete-IsAuthentic w c (some job) found h =
    elim (Bool-cases (c.callback_token == job.callback_token)) [
      | inr differ ↦ rw differ h
      | inl same ↦
          let there =
            subst (λ id. lookup id w.jobs ≡ some job) (sym (h.named c.job_id job found)) found in
          rw same (
            put_completion-IsAuthentic _ job.id
              (record job { status = status_of_completion c.error }) c
              (put_job-IsAuthentic w job.id _ h refl
                λ old before. ap (λ j. j.callback_token) (some-injective _ _ (sym before ∙ there)))
              (rw (lookup-put, ==_refl job.id) refl)
              (sym (eq_of_== c.callback_token job.callback_token same)))
    ]

-- Every method that changes the store keeps each job under its own id, and each stored completion
-- under the id of a job with its token, where the id of a created job is a new one.
pub step-IsAuthentic :
    (op : JobOperation) (w : JobWorld) → IsFresh op w → IsAuthentic w → IsAuthentic (step op w)
unfolding step create mark_dispatched complete get_job
step-IsAuthentic (create_op item target) w fresh h =
    let kept =
      put_job-IsAuthentic w (w.uuid w.calls) _ h refl
        (λ old found. absurd (ground (arith, fresh, found))) in
    record { named = kept.named; owned = kept.owned }
step-IsAuthentic (dispatch_op job_id) w fresh h =
    dispatch-IsAuthentic w job_id (lookup job_id w.jobs) refl h
step-IsAuthentic (complete_op c) w fresh h =
    complete-IsAuthentic w c (lookup c.job_id w.jobs) refl h
