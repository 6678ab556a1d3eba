-- ===== src/State/Lifecycle/Queue.antt =====
-- The methods of `ho_h.State.Queue` as moves of the queue.
use ho_h.Prelude.{
  String, true, false, not, ◌||◌, Option, none, some, List, [], ◌∷◌, ◌≡◌, inl, inr, refl, arith,
  map, ◌==◌, string_eq, Option-cases, contains,
}
use ho_h.Prelude.Int.{ℤ, lebℤ}
use ho_h.Prelude.Exec.{ok}
use ho_h.Prelude.Lists.{All, any}
use ho_h.Domain.{WorkItem}
use ho_h.State.Records.{QueueTask, queued, running, failed, escalated, status_eq}
use ho_h.State.Store.{World, updated}
use ho_h.State.Graph.{has_duplicates, item_ids}
use ho_h.State.Queue.{
  first_of_batch, limit_reached, is_active, check_inactive, new_task, journal_added, check_batch,
  items_of, enqueue_many, enqueue, check_ready, mark_running, escalate_attempt_limit,
  claim_selected, claim_next, mark_each, claim_batch, requeue_failed, recover_running,
}
use ho_h.State.Schedule.{schedule, schedule_batch}
use ho_h.State.Lifecycle.{Lacks, IsWellFormed, Fresh}
use ho_h.State.Lifecycle.Permits.{turn, limit_rule, claim_rule, batch_rule, only_adds}
use ho_h.State.Lifecycle.Replace.{find_task_id}
use ho_h.State.Lifecycle.Rules.{
  Moves-weaken, Moves, Quiet, Quiet-bind, quiet, Quiet-first, write_added, last_change, then-Moves,
  check_first, Quiet-Moves, get_first, list_first, if_first, require_first, update_task-Moves,
  replace_task-Moves,
}

pub mark_running-Moves :
    (id : String) (w : World) → Moves (turn id queued running) w (mark_running id)
unfolding mark_running updated
mark_running-Moves id w = get_first w id _ λ t found. require_first w t queued _ id _ λ is_queued.
    list_first w _ (
      check_first w (check_ready id w.tasks) _ λ _ _.
        last_change w _ _
          (update_task-Moves w id t found running _ _ _
            (find_task_id id w.tasks found, is_queued, refl))
          λ a. search quiet)

pub requeue_failed-Moves :
    (id : String) (w : World) → Moves (turn id failed queued) w (requeue_failed id)
unfolding requeue_failed updated
requeue_failed-Moves id w = get_first w id _ λ t found. require_first w t failed _ id _ λ is_failed.
    last_change w _ _
      (update_task-Moves w id t found queued _ _ _ (find_task_id id w.tasks found, is_failed, refl))
      λ a. search quiet

pub recover_running-Moves :
    (id reason : String) (w : World) → Moves (turn id running queued) w (recover_running id reason)
unfolding recover_running updated
recover_running-Moves id reason w = get_first w id _ λ t found.
    require_first w t running _ id _ λ is_running.
      last_change w _ _
        (update_task-Moves w id t found queued _ _ _
          (find_task_id id w.tasks found, is_running, refl))
        λ a. search quiet

pub escalate_attempt_limit-Moves :
    (id : String) (limit : ℤ) (w : World)
    → Moves (limit_rule id limit) w (escalate_attempt_limit id limit)
unfolding escalate_attempt_limit
escalate_attempt_limit-Moves id limit w = get_first w id _ λ t found.
    if_first w _ _ _ (λ _. Quiet-Moves w _ (search quiet))
      λ due.
        last_change w _ _
          (replace_task-Moves w id t found _ escalated refl refl
            (find_task_id id w.tasks found, queued_of t due, ground (arith, due), refl)
            (λ _. rw (queued_of t due)))
          λ a. search quiet
  where
    queued_of :
        (t : QueueTask)
        → (not (t.status == queued) || not (lebℤ limit t.attempts)) ≡ false
        → t.status ≡ queued
    queued_of t due = ground arith

started-Moves :
    (limit : Option ℤ) (id : String) (w : World) → Moves (claim_rule limit) w (mark_running id)
started-Moves limit id w =
    Moves-weaken (turn id queued running) (claim_rule limit) w (mark_running id)
      (λ t t' (same, from, to). (from, inl to)) (λ a. a) (mark_running-Moves id w)

limit_reached-some :
    (limit : Option ℤ) (attempts n : ℤ) → limit_reached limit attempts ≡ some n → limit ≡ some n
limit_reached-some none attempts n h = absurd (ground (arith, h))
limit_reached-some (some m) attempts n h = ground (arith, h)

limited-Moves :
    (limit : Option ℤ) (n attempts : ℤ)
    → limit_reached limit attempts ≡ some n
    → (id : String) (w : World) → Moves (claim_rule limit) w (escalate_attempt_limit id n)
limited-Moves limit n attempts reached id w =
    Moves-weaken (limit_rule id n) (claim_rule limit) w (escalate_attempt_limit id n)
      (λ t t' (same, from, past, to).
        (from, inr (to, (n, limit_reached-some limit attempts n reached, past))))
      (λ a. a) (escalate_attempt_limit-Moves id n w)

one-Moves : (id : String) (w : World) → Moves batch_rule w (mark_running id)
one-Moves id w =
    Moves-weaken (turn id queued running) batch_rule w (mark_running id)
      (λ t t' (same, from, to). (from, to)) (λ a. a) (mark_running-Moves id w)

pub claim_selected-Moves :
    (limit : Option ℤ) (selected : Option QueueTask) (w : World)
    → Moves (claim_rule limit) w (claim_selected limit selected)
unfolding claim_selected
claim_selected-Moves limit none w = Quiet-Moves w _ (search quiet)
claim_selected-Moves limit (some t) w = elim (Option-cases (limit_reached limit t.attempts)) [
  | inl free ↦
      rw (free, claim_selected)
        (last_change w _ _ (started-Moves limit t.work_item.id w) λ a. search quiet)
  | inr (n, reached) ↦
      rw (reached, claim_selected)
        (last_change w _ _ (limited-Moves limit n t.attempts reached t.work_item.id w)
          λ a. search quiet)
]

pub claim_next-Moves :
    (limit : Option ℤ) (w : World) → Moves (claim_rule limit) w (claim_next limit)
unfolding claim_next
claim_next-Moves limit w = list_first w _ (claim_selected-Moves limit (schedule w.tasks).selected w)

mark_each-Moves : (ts : List QueueTask) (w : World) → Moves (batch_rule) w (mark_each ts)
unfolding mark_each
mark_each-Moves [] w = Quiet-Moves w _ (search quiet)
mark_each-Moves (t ∷ ts) w =
    then-Moves w _ _ (one-Moves t.work_item.id w)
      λ a w'. last_change w' _ _ (mark_each-Moves ts w') λ b. search quiet

pub claim_batch-Moves : (limit : ℤ) (w : World) → Moves (batch_rule) w (claim_batch limit)
unfolding claim_batch
claim_batch-Moves limit w =
    list_first w _
      (check_first w (schedule_batch limit w.tasks) _ λ batch _. mark_each-Moves batch w)

-- What `enqueue_many` has checked, in the terms of the lifecycle.
module _ (now : String) where
  Lacks-of_check :
      (t : QueueTask) (ts : List QueueTask) (items : List (WorkItem × String))
      → check_inactive (t ∷ ts) (items_of items) ≡ ok tt
      → is_active t.status ≡ true
      → Lacks t.work_item.id (map (new_task now) items)
  unfolding check_inactive any new_task
  Lacks-of_check t ts [] h active = tt
  Lacks-of_check t ts ((item, source) ∷ items) h active = ground (arith, Lacks-of_check t ts items)

  check_rest :
      (t : QueueTask) (ts : List QueueTask) (items : List WorkItem)
      → check_inactive (t ∷ ts) items ≡ ok tt
      → check_inactive ts items ≡ ok tt
  unfolding check_inactive any
  check_rest t ts [] h = refl
  check_rest t ts (item ∷ items) h = ground (arith, check_rest t ts items)

  resolved_of_check :
      (items : List (WorkItem × String)) (ts : List QueueTask)
      → check_inactive ts (items_of items) ≡ ok tt
      → All (λ t. is_active t.status ≡ true → Lacks t.work_item.id (map (new_task now) items)) ts
  resolved_of_check items [] h = tt
  resolved_of_check items (t ∷ ts) h =
      (Lacks-of_check t ts items h, resolved_of_check items ts (check_rest t ts (items_of items) h))

  Lacks-of_absent :
      (id : String) (items : List (WorkItem × String))
      → contains id (item_ids (items_of items)) ≡ false
      → Lacks id (map (new_task now) items)
  unfolding contains new_task
  Lacks-of_absent id [] h = tt
  Lacks-of_absent id ((item, source) ∷ items) h = ground (arith, Lacks-of_absent id items)

  own_ids_of_check :
      (items : List (WorkItem × String))
      → has_duplicates (item_ids (items_of items)) ≡ false
      → IsWellFormed (map (new_task now) items)
  unfolding has_duplicates new_task
  own_ids_of_check [] h = tt
  own_ids_of_check ((item, source) ∷ items) h =
      (λ _. Lacks-of_absent item.id items (ground arith), own_ids_of_check items (ground arith))

  All-queued_new :
      (items : List (WorkItem × String)) → All (λ t. t.status ≡ queued) (map (new_task now) items)
  unfolding new_task
  All-queued_new [] = tt
  All-queued_new (i ∷ items) = (refl, All-queued_new items)

-- The guards of `enqueue_many` make the batch fresh.
pub check_batch-Fresh :
    (now : String) (ts : List QueueTask) (items : List (WorkItem × String))
    → check_batch ts (items_of items) ≡ ok tt
    → Fresh ts (map (new_task now) items)
unfolding check_batch
check_batch-Fresh now ts items h = record {
  all_queued = All-queued_new now items;
  own_ids = own_ids_of_check now items (ground arith);
  resolved = resolved_of_check now items ts (ground arith);
}

Quiet-journal_added : (ts : List QueueTask) → Quiet (journal_added ts)
unfolding journal_added
Quiet-journal_added [] = search quiet
Quiet-journal_added (t ∷ ts) = Quiet-bind _ _ (search quiet) (λ _. Quiet-journal_added ts)

pub enqueue_many-Moves :
    (items : List (WorkItem × String)) (w : World) → Moves (only_adds) w (enqueue_many items)
unfolding enqueue_many
enqueue_many-Moves [] w = Quiet-Moves w _ (search quiet)
enqueue_many-Moves (i ∷ is) w = list_first w _ (
    check_first w (check_batch w.tasks (items_of (i ∷ is))) _ λ _ checked.
      Quiet-first w _ _ (search quiet) λ now w' same.
        last_change w' _ _
          (write_added w' w.tasks (map (new_task now) (i ∷ is)) same tt
            (check_batch-Fresh now w.tasks (i ∷ is) checked))
          λ _. Quiet-bind _ _ (Quiet-journal_added _) λ _. search quiet)

pub enqueue-Moves :
    (item : WorkItem) (source : String) (w : World) → Moves (only_adds) w (enqueue item source)
unfolding enqueue first_of_batch
enqueue-Moves item source w =
    last_change w _ _ (enqueue_many-Moves ((item, source) ∷ []) w)
      λ added. Quiet-first_of_batch added
  where
    Quiet-first_of_batch : (added : List QueueTask) → Quiet (first_of_batch added)
    Quiet-first_of_batch [] = search quiet
    Quiet-first_of_batch (t ∷ ts) = search quiet
