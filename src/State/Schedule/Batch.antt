-- ===== src/State/Schedule/Batch.antt =====
-- What a batch of `schedule_batch` in src/llm_harness/state.py holds.
use ho_h.Prelude.{
  refl, subst, ne_of_==, ℕ, suc, ◌≤◌, false, List, [], ◌∷◌, ◌++◌, ◌≡◌, inl, inr, arith, ◌==◌,
  Bool-cases,
}
use ho_h.Prelude.Int.{ℤ, pos_part, pos, negsuc, int_eq, ltbℤ, ◌≤ℤ◌}
use ho_h.Prelude.Exec.{ok}
use ho_h.Prelude.Lists.{length, length-append, All, All-append, any}
use ho_h.State.Records.{QueueTask, TaskReadiness}
use ho_h.State.Graph.{latest_tasks_by_id}
use ho_h.State.Schedule.{conflicts, select_batch, schedule_batch, schedule}
use ho_h.State.Schedule.Ready.{IsReady, schedule-IsReady}

-- no task of the list claims a resource that a task before it claims
abbrev pub IsCompatible : List QueueTask → Type 0
IsCompatible [] = Unit
IsCompatible (t ∷ ts) = All (λ u. conflicts u t ≡ false) ts × IsCompatible ts

IsCompatible-append :
    (ts : List QueueTask) (u : QueueTask)
    → IsCompatible ts
    → any (conflicts u) ts ≡ false
    → IsCompatible (ts ++ u ∷ [])
unfolding any
IsCompatible-append [] u h e = (tt, tt)
IsCompatible-append (t ∷ ts) u (h, hs) e = (
  All-append _ ts (u ∷ []) h (ground (arith, e), tt),
  IsCompatible-append ts u hs (ground (arith, e)),
)

below_limit :
    (n : ℕ) (limit : ℤ)
    → suc n ≤ pos_part limit
    → (pos (suc n) == limit) ≡ false
    → suc (suc n) ≤ pos_part limit
below_limit n (pos m) short other = grind (arith, short, ne_of_== (pos (suc n)) (pos m) other)
below_limit n (negsuc m) short other = absurd (omega (arith, short))

module _ (P : QueueTask → Type 0) (limit : ℤ) where
  select_batch-lem :
      (selected : List QueueTask) (rs : List TaskReadiness)
      → IsCompatible selected
      → All P selected
      → suc (length selected) ≤ pos_part limit
      → All (λ r. P r.task) rs
      → IsCompatible (select_batch limit selected rs)
        × All P (select_batch limit selected rs)
        × (length (select_batch limit selected rs) ≤ pos_part limit)
  unfolding select_batch
  select_batch-lem selected [] c a short h = (c, a, omega (arith, short))
  select_batch-lem selected (r ∷ rs) c a short (h, hs) =
      elim (Bool-cases (any (conflicts r.task) selected)) [
        | inl clash ↦ rw clash (select_batch-lem selected rs c a short hs)
        | inr clear ↦
            let c' = IsCompatible-append selected r.task c clear in
            let a' = All-append P selected (r.task ∷ []) a (h, tt) in
            let grown = length-append selected (r.task ∷ []) in
            elim (Bool-cases (pos (length (selected ++ r.task ∷ [])) == limit)) [
              | inl full ↦ rw (clear, full) (c', a', omega (arith, short, grown))
              | inr more ↦
                  rw (clear, more)
                    (select_batch-lem (selected ++ r.task ∷ []) rs c' a'
                      (subst (λ n. suc n ≤ pos_part limit) (omega (arith, grown))
                        (below_limit (length selected) limit short
                          (subst (λ n. (pos n == limit) ≡ false) (omega (arith, grown)) more)))
                      hs)
            ]
      ]

at_least_one : (limit : ℤ) → ltbℤ limit (pos 1) ≡ false → 1 ≤ pos_part limit
at_least_one (pos m) h = ground (arith, h)
at_least_one (negsuc m) h = absurd (ground (arith, h))

within : (limit : ℤ) (n : ℕ) → ltbℤ limit (pos 1) ≡ false → n ≤ pos_part limit → pos n ≤ℤ limit
within (pos m) n fits short = omega (arith, short)
within (negsuc m) n fits short = absurd (ground (arith, fits))

-- When `schedule_batch` returns a batch, the batch holds at most `limit` tasks, each of them is queued
-- with its dependencies done, and the paths of no task of it conflict with those of a task before
-- it.
pub schedule_batch-IsCompatible :
    (limit : ℤ) (tasks batch : List QueueTask)
    → schedule_batch limit tasks ≡ ok batch
    → IsCompatible batch
      × All (IsReady (latest_tasks_by_id tasks)) batch
      × (pos (length batch) ≤ℤ limit)
unfolding schedule_batch
schedule_batch-IsCompatible limit tasks batch h = elim (Bool-cases (ltbℤ limit (pos 1))) [
  | inl too_small ↦ absurd (ground (arith, h, too_small))
  | inr fits ↦
      let same : select_batch limit [] (schedule tasks).ready ≡ batch = ground (arith, h, fits) in
      let (c, a, short) =
        select_batch-lem (IsReady (latest_tasks_by_id tasks)) limit [] (schedule tasks).ready tt tt
          (at_least_one limit fits) (schedule-IsReady tasks) in
      rw⁻¹ same
        (c, a, within limit (length (select_batch limit [] (schedule tasks).ready)) fits short)
]

select_batch-first :
    (limit : ℤ) (t : QueueTask) (selected : List QueueTask) (rs : List TaskReadiness)
    → (rest : List QueueTask) × (select_batch limit (t ∷ selected) rs ≡ t ∷ rest)
unfolding select_batch
select_batch-first limit t selected [] = (selected, refl)
select_batch-first limit t selected (r ∷ rs) =
    elim (Bool-cases (any (conflicts r.task) (t ∷ selected))) [
      | inl clash ↦ rw clash (select_batch-first limit t selected rs)
      | inr clear ↦ elim (Bool-cases (pos (length (t ∷ selected ++ r.task ∷ [])) == limit)) [
        | inl full ↦ rw (clear, full) (selected ++ r.task ∷ [], refl)
        | inr more ↦ rw (clear, more) (select_batch-first limit t (selected ++ r.task ∷ []) rs)
      ]
    ]

-- With a limit of at least one and a task that is ready, `schedule_batch` returns a batch, and the first
-- task of the batch is the first one of the ready tasks.
pub schedule_batch-first :
    (limit : ℤ) (tasks : List QueueTask) (r : TaskReadiness) (rs : List TaskReadiness)
    → ltbℤ limit (pos 1) ≡ false
    → (schedule tasks).ready ≡ r ∷ rs
    → (rest : List QueueTask) × (schedule_batch limit tasks ≡ ok (r.task ∷ rest))
unfolding schedule_batch select_batch any
schedule_batch-first limit tasks r rs fits ready = elim (Bool-cases (pos 1 == limit)) [
  | inl one ↦ ([], rw (fits, ready, one) refl)
  | inr more ↦
      let (rest, same) = select_batch-first limit r.task [] rs in
      (rest, rw (fits, ready, more, same) refl)
]
