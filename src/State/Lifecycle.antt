-- ===== src/State/Lifecycle.antt =====
-- The lifecycle of a queue entry, as a relation on the queue: what the methods of
-- src/llm_harness/state.py may do to it, by a rule for each of them.
pub mod Runs
pub mod Replace
pub mod Rules
pub mod Queue
pub mod Review
pub mod Ledger
pub mod Permits
pub mod Reach
use ho_h.Prelude.{
  String, Bool, true, false, Option, none, some, List, [], ◌∷◌, ◌++◌, ◌≡◌, ◌≢◌, ◌⊎◌, inl, inr, refl,
  sym, ap, ◌∙◌, arith, map, ◌==◌, string_eq, eq_of_==, ne_of_==, Option-cases, Bool-cases,
}
use ho_h.Prelude.Lists.{All, All-append}
use ho_h.State.Records.{
  QueueTask, TaskStatus, queued, running, review_pending, rework_required, escalated, done, failed,
  rolled_back, task_eq,
}
use ho_h.State.Queue.{is_active}

-- What a change may make of an entry, and whether new entries may be appended.
pub record Rule : Type 1 where
  pub Turns : QueueTask → QueueTask → Type 0
  pub Adds : Type 0

-- no entry of the list has the id
abbrev pub Lacks : String → List QueueTask → Type 0
Lacks id = All (λ t. t.work_item.id ≢ id)

-- `t'` may stand for `t` where `after` follows: the id is kept, the rule permits it, and an entry that
-- becomes unresolved is the latest of its id.
pub record Moved (rule : Rule) (t t' : QueueTask) (after : List QueueTask) : Type 0 where
  pub same_id : t.work_item.id ≡ t'.work_item.id
  pub turns : rule.Turns t t'
  pub latest : is_active t'.status ≡ true → (is_active t.status ≡ true) ⊎ Lacks t.work_item.id after

pub data Change (rule : Rule) : List QueueTask → List QueueTask → Type 0 where
  here :
      {t t' : QueueTask} {ts : List QueueTask} → Moved rule t t' ts → Change rule (t ∷ ts) (t' ∷ ts)
  there :
      {t : QueueTask} {ts ts' : List QueueTask}
      → Change rule ts ts'
      → Change rule (t ∷ ts) (t ∷ ts')

-- An unresolved entry is the latest one of its id.
abbrev pub IsWellFormed : List QueueTask → Type 0
IsWellFormed [] = Unit
IsWellFormed (t ∷ ts) = (is_active t.status ≡ true → Lacks t.work_item.id ts) × IsWellFormed ts

-- a batch of new entries: queued, with ids of their own, none of which is unresolved in the queue
pub record Fresh (ts added : List QueueTask) : Type 0 where
  pub all_queued : All (λ t. t.status ≡ queued) added
  pub own_ids : IsWellFormed added
  pub resolved : All (λ t. is_active t.status ≡ true → Lacks t.work_item.id added) ts

-- The queue goes from the first list to the second by changes and by appending, as the rule permits.
pub data Goes (rule : Rule) (ts : List QueueTask) : List QueueTask → Type 0 where
  rest : Goes rule ts ts
  change : {us vs : List QueueTask} → Goes rule ts us → Change rule us vs → Goes rule ts vs
  append :
      {us vs added : List QueueTask}
      → Goes rule ts us
      → rule.Adds
      → Fresh us added
      → vs ≡ us ++ added
      → Goes rule ts vs
