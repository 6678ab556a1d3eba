-- ===== src/Supervisor/Keeps.antt =====
-- Properties of all calls of a method, whether it returns or raises.
use ho_h.Prelude.{String, Bool, true, false, Option, List, [], ◌∷◌, if◌then◌else◌}
use ho_h.Prelude.Exec.{Result, ok, err, pure, raise, then_run, ◌>>=◌}
use ho_h.Prelude.Int.{pos}
use ho_h.Prelude.Lists.{All}
use ho_h.Git.{
  Task, run_git, returned, unless_failed, apply_patch, revert_patch, stage_paths, commit_changes,
  commit_staged, resolve_commit,
}
use ho_h.Git.Calls.{Outside, Completed, Desk, Failure, ask, Call, git}

-- If all calls so far have the property, so have those of the method.
abbrev pub Keeps : {A : Type 0} → (Call → Type 0) → Task A → Type 0
Keeps P m = (desk : Desk) → All P desk.calls → All P (m desk).1.calls

module _ (P : Call → Type 0) where
  pub Keeps->>= :
      {A B : Type 0} (m : Task A) (f : A → Task B)
      → Keeps P m
      → ((a : A) → Keeps P (f a))
      → Keeps P (m >>= f)
  unfolding ◌>>=◌
  Keeps->>= {A} {B} m f km kf desk h = go (m desk).0 (m desk).1 (km desk h)
    where
      go :
          (r : Result Failure A) (after : Desk)
          → All P after.calls
          → All P (then_run r f after).1.calls
      go (ok a) after k = kf a after k
      go (err e) after k = k

  pub Keeps-pure : {A : Type 0} (a : A) → Keeps P (pure a)
  unfolding pure
  Keeps-pure a desk h = h

  pub Keeps-raise : (A : Type 0) (e : Failure) → Keeps {A = A} P (raise e)
  unfolding raise
  Keeps-raise A e desk h = h

  pub Keeps-ask :
      {A : Type 0} (call : Call) (answer : List Call → A) → P call → Keeps P (ask call answer)
  unfolding ask
  Keeps-ask call answer p desk h = (p, h)

  pub Keeps-if :
      {A : Type 0} (b : Bool) (m n : Task A) → Keeps P m → Keeps P n → Keeps P (if b then m else n)
  Keeps-if true m n km kn = km
  Keeps-if false m n km kn = kn

  -- a property that each call of git has
  module _ (of_git : (args : List String) (input : Option String) → P (git args input))
      (outside : Outside) where
    Keeps-run_git :
        (args : List String) (input : Option String) → Keeps P (run_git outside args input)
    unfolding run_git
    Keeps-run_git args input = Keeps-ask _ _ (of_git args input)

    Keeps-unless_failed :
        (other : String) (result : Completed) → Keeps P (unless_failed outside other result)
    Keeps-unless_failed other result =
        Keeps-if (returned (pos 0) result) _ _ (Keeps-pure tt) (Keeps-raise Unit _)

    Keeps-git :
        (args : List String) (input : Option String) (other : String)
        → Keeps P (run_git outside args input >>= unless_failed outside other)
    Keeps-git args input other =
        Keeps->>= (run_git outside args input) (unless_failed outside other)
          (Keeps-run_git args input) (Keeps-unless_failed other)

    pub Keeps-apply_patch : (patch : String) → Keeps P (apply_patch outside patch)
    unfolding apply_patch
    Keeps-apply_patch patch = Keeps->>= _ _ (Keeps-git _ _ _) λ _. Keeps-git _ _ _

    pub Keeps-revert_patch : (patch : String) → Keeps P (revert_patch outside patch)
    unfolding revert_patch
    Keeps-revert_patch patch = Keeps-git _ _ _

    pub Keeps-stage_paths : (paths : List String) → Keeps P (stage_paths outside paths)
    unfolding stage_paths
    Keeps-stage_paths [] = Keeps-pure tt
    Keeps-stage_paths (p ∷ ps) = Keeps-git _ _ _

    pub Keeps-resolve_commit : (revision : String) → Keeps P (resolve_commit outside revision)
    unfolding resolve_commit
    Keeps-resolve_commit revision =
        Keeps->>= _ _ (Keeps-run_git _ _)
          λ result. Keeps-if (returned (pos 0) result) _ _ (Keeps-pure _) (Keeps-raise String _)

    Keeps-commit_changes : (message : String) → Keeps P (commit_changes outside message)
    unfolding commit_changes
    Keeps-commit_changes message = Keeps->>= _ _ (Keeps-git _ _ _) λ _.
        Keeps->>= _ _ (Keeps-run_git _ _)
          λ rev. Keeps-if (returned (pos 0) rev) _ _ (Keeps-pure _) (Keeps-raise (Option String) _)

    pub Keeps-commit_staged : (message : String) → Keeps P (commit_staged outside message)
    unfolding commit_staged
    Keeps-commit_staged message =
        Keeps->>= _ _ (Keeps-run_git _ _)
          λ diff. Keeps-if (returned (pos 0) diff) _ _ (Keeps-pure _) (Keeps-commit_changes message)
