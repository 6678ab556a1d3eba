-- ===== src/State/Lifecycle/Runs.antt =====
-- Sequences of changes of the queue of src/llm_harness/state.py, and the form of the queue.
use ho_h.Prelude.{String, true, List, [], ◌∷◌, ◌++◌, ◌≡◌, ◌≢◌, subst, ◌∙◌, arith, string_eq}
use ho_h.Prelude.Lists.{All, All-append}
use ho_h.State.Records.{QueueTask, task_eq}
use ho_h.State.Queue.{is_active}
use ho_h.State.Lifecycle.{Rule, Lacks, Change, IsWellFormed, Goes}

pub trans :
    {rule : Rule} {ts us vs : List QueueTask} → Goes rule ts us → Goes rule us vs → Goes rule ts vs
trans p Goes.rest = p
trans p (Goes.change q c) = Goes.change (trans p q) c
trans p (Goes.append q a f e) = Goes.append (trans p q) a f e

-- a rule permits what a stricter one does
module _ (strict rule : Rule) (turns : (t t' : QueueTask) → strict.Turns t t' → rule.Turns t t')
    (adds : strict.Adds → rule.Adds) where
  Change-weaken : {ts us : List QueueTask} → Change strict ts us → Change rule ts us
  Change-weaken (Change.here {t} {t'} m) =
      Change.here (record { same_id = m.same_id; turns = turns t t' m.turns; latest = m.latest })
  Change-weaken (Change.there c) = Change.there (Change-weaken c)

  pub Goes-weaken : {ts us : List QueueTask} → Goes strict ts us → Goes rule ts us
  Goes-weaken Goes.rest = Goes.rest
  Goes-weaken (Goes.change p c) = Goes.change (Goes-weaken p) (Change-weaken c)
  Goes-weaken (Goes.append p a f e) = Goes.append (Goes-weaken p) (adds a) f e

module _ {rule : Rule} where
  Change-Lacks :
      {ts us : List QueueTask} (id : String) → Change rule ts us → Lacks id ts → Lacks id us
  Change-Lacks id (Change.here m) (h, rest) = (λ e. h (m.same_id ∙ e), rest)
  Change-Lacks id (Change.there c) (h, rest) = (h, Change-Lacks id c rest)

  Change-IsWellFormed :
      {ts us : List QueueTask} → Change rule ts us → IsWellFormed ts → IsWellFormed us
  Change-IsWellFormed (Change.here {t} {t'} {ts} m) (h, rest) =
      (λ active. subst (λ id. Lacks id ts) m.same_id (ground (arith, m.latest active, h)), rest)
  Change-IsWellFormed (Change.there {t} c) (h, rest) =
      (λ active. Change-Lacks t.work_item.id c (h active), Change-IsWellFormed c rest)

append-IsWellFormed :
    (ts added : List QueueTask)
    → IsWellFormed ts
    → IsWellFormed added
    → All (λ t. is_active t.status ≡ true → Lacks t.work_item.id added) ts
    → IsWellFormed (ts ++ added)
append-IsWellFormed [] added _ w _ = w
append-IsWellFormed (t ∷ ts) added (h, rest) w (f, fs) = (
  λ active. All-append (λ u. u.work_item.id ≢ t.work_item.id) ts added (h active) (f active),
  append-IsWellFormed ts added rest w fs,
)

-- However the queue moves, it stays well formed.
pub Goes-IsWellFormed :
    {rule : Rule} {ts us : List QueueTask} → Goes rule ts us → IsWellFormed ts → IsWellFormed us
Goes-IsWellFormed Goes.rest h = h
Goes-IsWellFormed (Goes.change p c) h = Change-IsWellFormed c (Goes-IsWellFormed p h)
Goes-IsWellFormed (Goes.append {us} {vs} {added} p a f e) h =
    rw e (append-IsWellFormed us added (Goes-IsWellFormed p h) f.own_ids f.resolved)
