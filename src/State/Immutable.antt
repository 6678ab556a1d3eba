-- ===== src/State/Immutable.antt =====
-- The ids in the ledgers of `ho_h.State.Ledger`, and repeated calls.
use ho_h.Prelude.{
  Option, none, some, List, [], ◌∷◌, ◌++◌, ◌≡◌, ◌≢◌, inl, inr, refl, arith, ◌==◌, string_eq,
  eq_of_==, ==_refl, ne_of_==, Bool-cases,
}
use ho_h.Prelude.Exec.{ok, pure, raise, gets, ◌>>=◌}
use ho_h.Prelude.Lists.{All, All-append, find_first}
use ho_h.State.Records.{
  RollbackRecord, rollback_record_eq, ReviewDecisionRecord, review_decision_record_eq,
}
use ho_h.State.Store.{World, record_event}
use ho_h.State.Ledger.{
  append_rollback, settle_rollback, has_rollback_id, record_rollback, settle_decision, Clash, same,
  refused, free, decision_clash, append_decision, record_review_decision,
}

-- no two decisions share an id or a bundle
abbrev pub IsUnique : List ReviewDecisionRecord → Type 0
IsUnique [] = Unit
IsUnique (r ∷ rs) =
    All (λ s. (r.decision_id ≢ s.decision_id) × (r.bundle_id ≢ s.bundle_id)) rs × IsUnique rs

free_lem :
    (r : ReviewDecisionRecord) (rs : List ReviewDecisionRecord)
    → decision_clash r rs ≡ free
    → IsUnique rs
    → IsUnique (rs ++ r ∷ [])
unfolding decision_clash
free_lem r [] h u = (tt, tt)
free_lem r (s ∷ rs) h (apart, u) = elim (Bool-cases (s.decision_id == r.decision_id)) [
  | inl same_id ↦ absurd (ground (arith, h, same_id))
  | inr other_id ↦ elim (Bool-cases (s.bundle_id == r.bundle_id)) [
    | inl same_bundle ↦ absurd (ground (arith, h, other_id, same_bundle))
    | inr other_bundle ↦ (
      All-append _ rs (r ∷ []) apart (
        (
          ne_of_== s.decision_id r.decision_id other_id,
          ne_of_== s.bundle_id r.bundle_id other_bundle,
        ),
        tt,
      ),
      free_lem r rs (ground (arith, h, other_id, other_bundle)) u,
    )
  ]
]

-- a decision that was appended is found, equal to itself
again_lem :
    (r : ReviewDecisionRecord) (rs : List ReviewDecisionRecord)
    → decision_clash r rs ≡ free
    → decision_clash r (rs ++ r ∷ []) ≡ same r
unfolding decision_clash
again_lem r [] h = rw (==_refl r.decision_id, ==_refl r) refl
again_lem r (s ∷ rs) h = ground (arith, h, again_lem r rs)

same_lem :
    (r s : ReviewDecisionRecord) (rs : List ReviewDecisionRecord)
    → decision_clash r rs ≡ same s
    → s ≡ r
unfolding decision_clash
same_lem r s [] h = absurd (ground (arith, h))
same_lem r s (x ∷ rs) h = ground (arith, h, same_lem r s rs, eq_of_== x r)

-- Recording a review decision, whether it returns or raises, keeps the ledger free of two decisions
-- with one id and of two decisions on one bundle.
pub record_review_decision-IsUnique :
    (r : ReviewDecisionRecord) (w : World)
    → IsUnique w.review_decisions
    → IsUnique (record_review_decision r w).1.review_decisions
unfolding record_review_decision settle_decision append_decision record_event gets pure raise ◌>>=◌
record_review_decision-IsUnique r w u = go (decision_clash r w.review_decisions) refl
  where
    go :
        (c : Clash)
        → decision_clash r w.review_decisions ≡ c
        → IsUnique (record_review_decision r w).1.review_decisions
    go (same existing) e = rw e u
    go (refused x) e = rw e u
    go free e = rw e (free_lem r w.review_decisions e u)

-- A review decision that was recorded can be recorded again: the same record is returned, and nothing
-- changes.
pub record_review_decision-repeated :
    (r s : ReviewDecisionRecord) (w : World)
    → (record_review_decision r w).0 ≡ ok s
    → record_review_decision r (record_review_decision r w).1
      ≡ (ok r, (record_review_decision r w).1)
unfolding record_review_decision settle_decision append_decision record_event gets pure raise ◌>>=◌
record_review_decision-repeated r s w h = go (decision_clash r w.review_decisions) refl
  where
    go :
        (c : Clash)
        → decision_clash r w.review_decisions ≡ c
        → record_review_decision r (record_review_decision r w).1
          ≡ (ok r, (record_review_decision r w).1)
    go (same existing) e = rw (e, e) (rw (same_lem r existing w.review_decisions e) refl)
    go (refused x) e = absurd (ground (arith, h, e))
    go free e = rw (e, again_lem r w.review_decisions e) refl

found_again :
    (r : RollbackRecord) (rs : List RollbackRecord)
    → find_first (has_rollback_id r.rollback_id) rs ≡ none
    → find_first (has_rollback_id r.rollback_id) (rs ++ r ∷ []) ≡ some r
unfolding find_first
found_again r [] h = rw (==_refl r.rollback_id) refl
found_again r (s ∷ rs) h = ground (arith, h, found_again r rs)

-- A rollback that was recorded can be recorded again: the same record is returned, and nothing
-- changes.
pub record_rollback-repeated :
    (r s : RollbackRecord) (w : World)
    → (record_rollback r w).0 ≡ ok s
    → record_rollback r (record_rollback r w).1 ≡ (ok r, (record_rollback r w).1)
unfolding record_rollback settle_rollback append_rollback record_event gets pure raise ◌>>=◌
record_rollback-repeated r s w h =
    go (find_first (has_rollback_id r.rollback_id) w.rollback_records) refl
  where
    go :
        (o : Option RollbackRecord)
        → find_first (has_rollback_id r.rollback_id) w.rollback_records ≡ o
        → record_rollback r (record_rollback r w).1 ≡ (ok r, (record_rollback r w).1)
    go none e = rw (e, found_again r w.rollback_records e, ==_refl r) refl
    go (some existing) e = elim (Bool-cases (existing == r)) [
      | inl equal ↦ rw (e, equal, e, equal) (rw (eq_of_== existing r equal) refl)
      | inr other ↦ absurd (ground (arith, h, e, other))
    ]
