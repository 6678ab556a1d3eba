-- ===== src/State/Repeated.antt =====
-- `record_result` of src/llm_harness/state.py called again with the same run id.
use ho_h.Prelude.{
  ◌+◌, subst, String, Bool, true, false, ◌&&◌, Option, none, some, List, [], ◌∷◌, ◌++◌, ◌≡◌, inl,
  inr, refl, sym, ap, ◌∙◌, arith, ◌==◌, string_eq, bool_eq, ==_refl, Bool-cases, Option-cases,
}
use ho_h.Prelude.Int.{pos}
use ho_h.Prelude.Exec.{Result, ok, err, pure, raise, gets, ◌>>=◌}
use ho_h.Prelude.Lists.{find_first}
use ho_h.Domain.{HarnessRunResult, run_ok}
use ho_h.State.Records.{QueueTask, running, status_eq, Error, RunRecord}
use ho_h.State.Store.{
  World, Action, find_task, get_task, updated, utc_now, transition_event, record_event,
}
use ho_h.State.Results.{
  option_string_eq, or_result_error, status_of_result, settle_task, append_history, select_run_id,
  run_with_id, same_evidence, new_run, finish_run, record_new_run, record_selected, record_result,
}
use ho_h.State.Lifecycle.Replace.{find_task_id}
use ho_h.State.Lifecycle.Permits.{anything}
use ho_h.State.Lifecycle.Rules.{update_task_runs}

ok_injective : {A : Type 0} {a b : A} → Path (Result Error A) (ok a) (ok b) → a ≡ b
ok_injective e = ground (arith, e)

found_last :
    (id : String) (run : RunRecord) (runs : List RunRecord)
    → find_first (run_with_id id) runs ≡ none
    → run.run_id ≡ id
    → find_first (run_with_id id) (runs ++ run ∷ []) ≡ some run
unfolding find_first
found_last id run [] absent same = rw (same, ==_refl id) refl
found_last id run (r ∷ runs) absent same = ground (arith, absent, found_last id run runs, same)

-- the settled task has the id, and the history is as it was
record Settled (id : String) (w : World) (r : Result Error QueueTask × World) : Type 0 where
  pub same_id : (t : QueueTask) → r.0 ≡ ok t → t.work_item.id ≡ id
  pub same_history : r.1.history ≡ w.history

settle_task-Settled :
    (id : String) (t : QueueTask) (is_ok review_required : Bool) (commit error : Option String)
    (w : World)
    → find_task id w.tasks ≡ some t
    → Settled id w (settle_task id t (status_of_result is_ok review_required) commit error w)
unfolding settle_task pure raise updated
settle_task-Settled id t is_ok review_required commit error w found =
    elim (Bool-cases (
      t.status == status_of_result is_ok review_required
      && t.last_commit == commit
      && t.last_error == error)) [
        | inl settled ↦ rw settled (record {
          same_id = λ u e. rw (sym (ok_injective e)) (find_task_id id w.tasks found);
          same_history = refl;
        })
        | inr fresh ↦ elim (Bool-cases (t.status == running)) [
          | inl is_running ↦
              let (ts, eq, ch) =
                update_task_runs {rule = anything} w id t found
                  (status_of_result is_ok review_required) (pos 0) commit error tt in
              rw (fresh, is_running, eq)
                (record {
                  same_id = λ u e. rw (sym (ok_injective e)) (find_task_id id w.tasks found);
                  same_history = refl;
                })
          | inr other ↦
              rw (fresh, other)
                (record { same_id = λ u e. absurd (ground (arith, e)); same_history = refl })
        ]
      ]

-- a new run: its id, its evidence, and its place at the end of the history
record Recorded (id run_id : String) (result : HarnessRunResult) (run : RunRecord) (w : World)
    (after : World) : Type 0 where
  pub has_id : run.run_id ≡ run_id
  pub evidence : same_evidence id result run ≡ true
  pub appended : after.history ≡ w.history ++ run ∷ []

-- an action that returns did so by its first part returning
bind-ok :
    {A B : Type 0} (m : Action A) (f : A → Action B) (w : World) (b : B)
    → ((m >>= f) w).0 ≡ ok b
    → (a : A) × ((m w).0 ≡ ok a) × ((m >>= f) w ≡ f a (m w).1)
unfolding ◌>>=◌
bind-ok {A} {B} m f w b h = go (m w).0 refl
  where
    go :
        (r : Result Error A)
        → (m w).0 ≡ r
        → (a : A) × ((m w).0 ≡ ok a) × ((m >>= f) w ≡ f a (m w).1)
    go (ok a) e = (a, e, rw e refl)
    go (err x) e = absurd (ground (arith, h, e))

get_task-found :
    (id : String) (w : World) (t : QueueTask)
    → (get_task id w).0 ≡ ok t
    → (find_task id w.tasks ≡ some t) × ((get_task id w).1 ≡ w)
unfolding get_task
get_task-found id w t h = elim (Option-cases (find_task id w.tasks)) [
  | inl absent ↦ absurd (ground (arith, h, absent))
  | inr (u, found) ↦ (rw found (ground (arith, h, found)), rw found refl)
]

new_run-Recorded :
    (id started : String) (result : HarnessRunResult) (run_id finished : String) (task : QueueTask)
    (w after : World)
    → task.work_item.id ≡ id
    → after.history ≡ w.history ++ new_run started result run_id finished task ∷ []
    → Recorded id run_id result (new_run started result run_id finished task) w after
new_run-Recorded id started result run_id finished task w after same grown = record {
  has_id = refl;
  evidence = rw (same, ==_refl id, ==_refl result.commit, ==_refl (run_ok result)) refl;
  appended = grown;
}

finish_run-Recorded :
    (id started : String) (result : HarnessRunResult) (required : Bool) (run_id finished : String)
    (current task : QueueTask) (w : World) (run : RunRecord)
    → task.work_item.id ≡ id
    → (finish_run started result required run_id finished current task w).0 ≡ ok run
    → Recorded id run_id result run w
        (finish_run started result required run_id finished current task w).1
unfolding finish_run append_history transition_event record_event pure ◌>>=◌
finish_run-Recorded id started result required run_id finished current task w run same h =
    elim (Bool-cases (current.status == running)) [
      | inl was ↦
          subst
            (λ r.
              Recorded id run_id result r w
                (finish_run started result required run_id finished current task w).1)
            (ok_injective (rw was at h))
            (new_run-Recorded id started result run_id finished task w
              (finish_run started result required run_id finished current task w).1 same
              (rw was refl))
      | inr other ↦
          subst
            (λ r.
              Recorded id run_id result r w
                (finish_run started result required run_id finished current task w).1)
            (ok_injective (rw other at h))
            (new_run-Recorded id started result run_id finished task w
              (finish_run started result required run_id finished current task w).1 same
              (rw other refl))
    ]

record_new_run-Recorded :
    (id started : String) (result : HarnessRunResult) (error : Option String) (required : Bool)
    (run_id finished : String) (w : World) (run : RunRecord)
    → (record_new_run id started result error required run_id finished w).0 ≡ ok run
    → Recorded id run_id result run w
        (record_new_run id started result error required run_id finished w).1
unfolding record_new_run
record_new_run-Recorded id started result error required run_id finished w run h =
    let status = status_of_result (run_ok result) required in
    let message = or_result_error error result in
    let (t, got, e₁) = bind-ok _ _ w run h in
    let (found, kept) = get_task-found id w t got in
    let settle : Action QueueTask = settle_task id t status result.commit message in
    let finish : QueueTask → Action RunRecord =
      finish_run started result required run_id finished t in
    let whole : World → Result Error RunRecord × World = settle >>= finish in
    let e₂ = e₁ ∙ ap whole kept in
    let (task, done_with, e₃) = bind-ok settle finish w run (sym (ap (λ p. p.0) e₂) ∙ h) in
    let settled = settle_task-Settled id t (run_ok result) required result.commit message w found in
    let all = e₂ ∙ e₃ in
    let recorded =
      finish_run-Recorded id started result required run_id finished t task (settle w).1 run
        (settled.same_id task done_with) (sym (ap (λ p. p.0) all) ∙ h) in
    record {
      has_id = recorded.has_id;
      evidence = recorded.evidence;
      appended =
          ap (λ p. p.1.history) all
          ∙ recorded.appended
          ∙ ap (λ runs. runs ++ run ∷ []) settled.same_history;
    }

record_result-known :
    (id started : String) (result : HarnessRunResult) (error : Option String) (required : Bool)
    (run_id : String) (w : World) (run : RunRecord)
    → (run_id == "") ≡ false
    → find_first (run_with_id run_id) w.history ≡ some run
    → same_evidence id result run ≡ true
    → record_result id started result error required (some run_id) w
      ≡ (ok run, record w { calls = w.calls + 1 })
unfolding record_result utc_now select_run_id record_selected gets pure raise ◌>>=◌
record_result-known id started result error required run_id w run named known same =
    rw (named, known, same) refl

-- When `record_result` with a run id that is not empty returns a run, the same call once more returns
-- the same run, and it changes neither the queue nor the history nor any other file: only the clock is
-- read.
pub record_result-repeated :
    (id started : String) (result : HarnessRunResult) (error : Option String) (required : Bool)
    (run_id : String) (w : World) (run : RunRecord)
    → (run_id == "") ≡ false
    → (record_result id started result error required (some run_id) w).0 ≡ ok run
    → (w' : World) → (record_result id started result error required (some run_id) w).1 ≡ w'
    → record_result id started result error required (some run_id) w'
      ≡ (ok run, record w' { calls = w'.calls + 1 })
unfolding record_result utc_now select_run_id record_selected gets pure raise ◌>>=◌
record_result-repeated id started result error required run_id w run named h w' same =
    go (find_first (run_with_id run_id) w.history) refl
  where
    go :
        (o : Option RunRecord)
        → find_first (run_with_id run_id) w.history ≡ o
        → record_result id started result error required (some run_id) w'
          ≡ (ok run, record w' { calls = w'.calls + 1 })
    go none absent =
        let recorded =
          record_new_run-Recorded id started result error required run_id (w.utc w.calls)
            (record w { calls = w.calls + 1 }) run (rw (named, absent) at h) in
        let grown : w'.history ≡ w.history ++ run ∷ [] =
          sym (ap (λ v. v.history) (rw (named, absent) at same)) ∙ recorded.appended in
        record_result-known id started result error required run_id w' run named
          (rw grown (found_last run_id run w.history absent recorded.has_id)) recorded.evidence
    go (some existing) found = elim (Bool-cases (same_evidence id result existing)) [
      | inr other ↦ absurd (ground (arith, rw (named, found, other) at h))
      | inl equal ↦
          let as_before : existing ≡ run = ok_injective (rw (named, found, equal) at h) in
          let kept : w'.history ≡ w.history =
            sym (ap (λ v. v.history) (rw (named, found, equal) at same)) in
          record_result-known id started result error required run_id w' run named
            (rw kept (found ∙ ap some as_before))
            (subst (λ r. same_evidence id result r ≡ true) as_before equal)
    ]
