-- ===== src/State/Lifecycle/Rules.antt =====
-- How an action moves the queue: one rule for each way in which the store's methods are composed.
use ho_h.Prelude.{
  ◌++◌, subst, Bool, true, false, if◌then◌else◌, ◌+◌, String, true, Option, some, List, ◌≡◌, inl,
  inr, refl, ◌∙◌, ◌==◌, Option-cases, Bool-cases, eq_of_==,
}
use ho_h.Prelude.Int.{ℤ}
use ho_h.Prelude.Exec.{Result, ok, err, pure, raise, gets, ◌>>=◌, ◌>>◌}
use ho_h.Json.{Json}
use ho_h.Journal.{Entry}
use ho_h.State.Records.{QueueTask, TaskStatus, task_eq, status_eq, Error}
use ho_h.State.Store.{
  write_tasks, list_tasks, utc_now, uuid4, World, Action, find_task, get_task, update_task,
  replace_task, updated, record_event, transition_event,
}
use ho_h.State.Queue.{is_active, require_status, lift}
use ho_h.State.Lifecycle.{Rule, Lacks, Moved, Fresh, Change, Goes}
use ho_h.State.Lifecycle.Runs.{trans, Goes-weaken}
use ho_h.State.Lifecycle.Replace.{
  find_task_id, replace_last-none, replace_first_runs, replace_last_runs,
}

-- the queue after the action comes from the queue before it as the rule permits
pub record Moves (rule : Rule) {A : Type 0} (w : World) (m : Action A) : Type 0 where
  pub at : Goes rule w.tasks (m w).1.tasks

-- the action leaves the queue alone, whether it returns or raises
pub record Quiet {A : Type 0} (m : Action A) : Type 0 where
  pub at : (w : World) → (m w).1.tasks ≡ w.tasks

module _ {A B : Type 0} where
  pub Quiet-bind :
      (m : Action A) (f : A → Action B) → Quiet m → ((a : A) → Quiet (f a)) → Quiet (m >>= f)
  unfolding ◌>>=◌
  Quiet-bind m f qm qf = record { at = λ w. go w (m w).0 refl }
    where
      go : (w : World) (r : Result Error A) → (m w).0 ≡ r → ((m >>= f) w).1.tasks ≡ w.tasks
      go w (ok a) e = rw e ((qf a).at (m w).1 ∙ qm.at w)
      go w (err x) e = rw e (qm.at w)

  -- the rest of a method, behind its change of the queue, is quiet
  pub last_change :
      {rule : Rule} (w : World) (m : Action A) (f : A → Action B)
      → Moves rule w m
      → ((a : A) → Quiet (f a))
      → Moves rule w (m >>= f)
  unfolding ◌>>=◌
  last_change {rule} w m f h q = record { at = go (m w).0 refl }
    where
      go : (r : Result Error A) → (m w).0 ≡ r → Goes rule w.tasks ((m >>= f) w).1.tasks
      go (ok a) e = rw e (rw ((q a).at (m w).1) h.at)
      go (err x) e = rw e h.at

  pub then-Moves :
      {rule : Rule} (w : World) (m : Action A) (f : A → Action B)
      → Moves rule w m
      → ((a : A) (w' : World) → Moves rule w' (f a))
      → Moves rule w (m >>= f)
  unfolding ◌>>=◌
  then-Moves {rule} w m f h q = record { at = go (m w).0 refl }
    where
      go : (r : Result Error A) → (m w).0 ≡ r → Goes rule w.tasks ((m >>= f) w).1.tasks
      go (ok a) e = rw e (trans h.at (q a (m w).1).at)
      go (err x) e = rw e h.at

  pub Quiet-first :
      {rule : Rule} (w : World) (m : Action A) (f : A → Action B)
      → Quiet m
      → ((a : A) (w' : World) → w'.tasks ≡ w.tasks → Moves rule w' (f a))
      → Moves rule w (m >>= f)
  unfolding ◌>>=◌
  Quiet-first {rule} w m f q h = record { at = go (m w).0 refl }
    where
      go : (r : Result Error A) → (m w).0 ≡ r → Goes rule w.tasks ((m >>= f) w).1.tasks
      go (ok a) e =
          rw e (subst (λ ts. Goes rule ts (f a (m w).1).1.tasks) (q.at w) (h a (m w).1 (q.at w)).at)
      go (err x) e = rw e (rw (q.at w) Goes.rest)

  -- a pure check that may raise
  pub check_first :
      {rule : Rule} (w : World) (r : Result Error A) (f : A → Action B)
      → ((a : A) → r ≡ ok a → Moves rule w (f a))
      → Moves rule w (lift r >>= f)
  unfolding ◌>>=◌ lift
  check_first w (ok a) f h = record { at = (h a refl).at }
  check_first w (err e) f h = record { at = Goes.rest }

module _ {A : Type 0} where
  pub Quiet-pure : (a : A) → Quiet {A = A} (pure a)
  unfolding pure
  Quiet-pure a = record { at = λ w. refl }

  pub Quiet-raise : (e : Error) → Quiet {A = A} (raise e)
  unfolding raise
  Quiet-raise e = record { at = λ w. refl }

  pub Quiet-lift : (r : Result Error A) → Quiet (lift r)
  unfolding lift
  Quiet-lift r = record { at = λ w. refl }

  pub Quiet-gets : (f : World → A) → Quiet (gets f)
  unfolding gets
  Quiet-gets f = record { at = λ w. refl }

  pub Quiet-if : (b : Bool) (m n : Action A) → Quiet m → Quiet n → Quiet (if b then m else n)
  Quiet-if true m n qm qn = qm
  Quiet-if false m n qm qn = qn

  pub Quiet-Moves : {rule : Rule} (w : World) (m : Action A) → Quiet m → Moves rule w m
  Quiet-Moves {rule} w m q = record { at = rw (q.at w) Goes.rest }

  pub get_first :
      {rule : Rule} (w : World) (id : String) (f : QueueTask → Action A)
      → ((t : QueueTask) → find_task id w.tasks ≡ some t → Moves rule w (f t))
      → Moves rule w (get_task id >>= f)
  unfolding get_task ◌>>=◌
  get_first {rule} w id f h = record {
    at = elim (Option-cases (find_task id w.tasks)) [
      | inl absent ↦ rw absent Goes.rest
      | inr (t, found) ↦ rw found (h t found).at
    ];
  }

  pub list_first :
      {rule : Rule} (w : World) (f : List QueueTask → Action A)
      → Moves rule w (f w.tasks)
      → Moves rule w (list_tasks >>= f)
  unfolding list_tasks ◌>>=◌
  list_first {rule} w f h = record { at = h.at }

  pub if_first :
      {rule : Rule} (w : World) (b : Bool) (m n : Action A)
      → (b ≡ true → Moves rule w m)
      → (b ≡ false → Moves rule w n)
      → Moves rule w (if b then m else n)
  if_first w true m n hm hn = hm refl
  if_first w false m n hm hn = hn refl

  pub require_first :
      {rule : Rule} (w : World) (t : QueueTask) (s : TaskStatus) (message id : String)
      (m : Action A)
      → (t.status ≡ s → Moves rule w m)
      → Moves rule w (require_status t s message id >> m)
  unfolding ◌>>=◌ require_status
  require_first {rule} w t s message id m h = record {
    at = elim (Bool-cases (t.status == s)) [
      | inl same ↦ rw same (h (eq_of_== t.status s same)).at
      | inr differ ↦ rw differ Goes.rest
    ];
  }

pub Quiet-utc_now : Quiet utc_now
unfolding utc_now
Quiet-utc_now = record { at = λ w. refl }

pub Quiet-uuid4 : Quiet uuid4
unfolding uuid4
Quiet-uuid4 = record { at = λ w. refl }

pub Quiet-record_event : (e : Entry) → Quiet (record_event e)
unfolding record_event
Quiet-record_event e = record { at = λ w. refl }

pub Quiet-transition_event :
    (t : QueueTask) (s s' : TaskStatus) (action : String) (details : Json) (run : Option String)
    → Quiet (transition_event t s s' action details run)
unfolding transition_event
Quiet-transition_event t s s' action details run = record { at = λ w. refl }

-- the world after a change of the queue
abbrev pub changed_to : World → List QueueTask → World
changed_to w ts = record w { store = record w.store { tasks = ts }; calls = w.calls + 1 }

module _ {rule : Rule} (w : World) (id : String) (t : QueueTask)
    (found : find_task id w.tasks ≡ some t) where
  -- `_update_task` succeeds on an id that is there, and makes one change.
  pub update_task_runs :
      (s : TaskStatus) (d : ℤ) (c e : Option String)
      → rule.Turns t (updated s d c e (w.utc w.calls) t)
      → (ts : List QueueTask) × (update_task id s d c e w
          ≡ (ok (updated s d c e (w.utc w.calls) t), changed_to w ts))
        × Change rule w.tasks ts
  unfolding update_task
  update_task_runs s d c e arrow =
      let change : QueueTask → QueueTask = updated s d c e (w.utc w.calls) in
      let moved : (after : List QueueTask) → Lacks id after → Moved rule t (change t) after =
        λ after lacks. record {
          same_id = refl;
          turns = arrow;
          latest = λ _. inr (rw (find_task_id id w.tasks found) lacks);
        } in
      let (ts, eq, ch) = replace_last_runs id change w.tasks t found moved in (ts, rw eq, ch)

  pub update_task-Moves :
      (s : TaskStatus) (d : ℤ) (c e : Option String)
      → rule.Turns t (updated s d c e (w.utc w.calls) t)
      → Moves rule w (update_task id s d c e)
  update_task-Moves s d c e arrow =
      let (ts, eq, ch) = update_task_runs s d c e arrow in
      record { at = rw eq (Goes.change Goes.rest ch) }

  -- `_replace_task` of the entry just read never finds the queue changed, and makes one change.
  pub replace_task_runs :
      (f : QueueTask → QueueTask)
      → t.work_item.id ≡ (f t).work_item.id
      → rule.Turns t (record (f t) { updated_at_utc = w.utc w.calls })
      → (is_active (f t).status ≡ true → is_active t.status ≡ true)
      → (ts : List QueueTask) × (replace_task t f w
          ≡ (ok (record (f t) { updated_at_utc = w.utc w.calls }), changed_to w ts))
        × Change rule w.tasks ts
  unfolding replace_task
  replace_task_runs f same arrow keeps =
      let change : QueueTask → QueueTask = λ u. record (f u) { updated_at_utc = w.utc w.calls } in
      let moved : (after : List QueueTask) → Moved rule t (change t) after =
        λ after. record { same_id = same; turns = arrow; latest = λ a. inl (keeps a) } in
      let (ts, eq, ch) = replace_first_runs id change w.tasks t found moved in (ts, rw eq, ch)

  pub replace_task-Moves :
      (f : QueueTask → QueueTask) (s : TaskStatus)
      → t.work_item.id ≡ (f t).work_item.id
      → (f t).status ≡ s
      → rule.Turns t (record (f t) { updated_at_utc = w.utc w.calls })
      → (is_active s ≡ true → is_active t.status ≡ true)
      → Moves rule w (replace_task t f)
  replace_task-Moves f s same becomes arrow keeps =
      let (ts, eq, ch) = replace_task_runs f same arrow (rw becomes keeps) in
      record { at = rw eq (Goes.change Goes.rest ch) }

-- `_update_task` on any id, there or not
pub update_any :
    {rule : Rule} (w : World) (id : String) (s : TaskStatus) (d : ℤ) (c e : Option String)
    → ((t : QueueTask) → t.work_item.id ≡ id → rule.Turns t (updated s d c e (w.utc w.calls) t))
    → Moves rule w (update_task id s d c e)
unfolding update_task
update_any w id s d c e arrow = record {
  at = elim (Option-cases (find_task id w.tasks)) [
    | inl absent ↦
        rw (replace_last-none id (updated s d c e (w.utc w.calls)) w.tasks absent) Goes.rest
    | inr (t, found) ↦
        (update_task-Moves w id t found s d c e (arrow t (find_task_id id w.tasks found))).at
  ];
}

pub write_added :
    {rule : Rule} (w : World) (ts added : List QueueTask)
    → w.tasks ≡ ts
    → rule.Adds
    → Fresh ts added
    → Moves rule w (write_tasks (ts ++ added))
unfolding write_tasks
write_added w ts added same adds fresh = record {
  at = Goes.append {added = added} Goes.rest adds (rw same fresh) (rw same);
}

pub Moves-weaken :
    {A : Type 0} (strict rule : Rule) (w : World) (m : Action A)
    → ((t t' : QueueTask) → strict.Turns t t' → rule.Turns t t')
    → (strict.Adds → rule.Adds)
    → Moves strict w m
    → Moves rule w m
Moves-weaken strict rule w m turns adds h = record { at = Goes-weaken strict rule turns adds h.at }

pub ruleset quiet = (
  Quiet-bind, Quiet-pure, Quiet-raise, Quiet-lift, Quiet-gets, Quiet-if, Quiet-utc_now, Quiet-uuid4,
  Quiet-record_event, Quiet-transition_event,
)
