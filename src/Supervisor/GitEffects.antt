-- ===== src/Supervisor/GitEffects.antt =====
-- The effects of the operations of src/llm_harness/git_ops.py.
use ho_h.Prelude.{
  String, String-discrete, Bool, true, false, Option, none, some, List, [], ◌∷◌, ◌≡◌, ◌≢◌, refl,
  subst, arith, string_eq, format, if◌then◌else◌,
}
use ho_h.Prelude.Chars.{strip}
use ho_h.Prelude.Exec.{Result, ok, err, pure, raise, ◌>>=◌}
use ho_h.Prelude.Int.{pos}
use ho_h.Git.{
  after_stderr, run_git, returned, unless_failed, apply_patch, revert_patch, stage_paths,
  commit_changes, commit_staged, run_verification_commands, resolve_commit, run_resolved,
}
use ho_h.Git.Calls.{Outside, Completed, Failure, ask, git}
use ho_h.Commands.{Platform, CommandPolicy, Refusal, resolve}
use ho_h.Supervisor.Effects.{
  Effects, applying, reverting, staging, committing, effect_of, effects, Quiet, Steps, Sound,
  Quiet->>=, Sound->>=, Sound-after, Sound-weaken, Quiet-Steps, Quiet-pure, Quiet-raise, Quiet-ask,
}

-- the effect of `commit_staged`, at what it returns
abbrev pub commit_effect : String → Option String → Effects → Effects
commit_effect message none e = e
commit_effect message (some commit) e = committing message e

module _ (outside : Outside) where
  unless_failed-Quiet :
      (other : String) (result : Completed) → Quiet (unless_failed outside other result)
  unless_failed-Quiet other result = go (returned (pos 0) result) refl
    where
      go : (b : Bool) → returned (pos 0) result ≡ b → Quiet (unless_failed outside other result)
      go true h = rw h (Quiet-pure tt)
      go false h = rw h (Quiet-raise Unit _)

  -- a call of git without effect
  pub Quiet-git :
      (args : List String) (input : Option String)
      → ((e : Effects) → effect_of (git args input) e ≡ e)
      → Quiet (run_git outside args input)
  unfolding run_git
  Quiet-git args input none_seen = Quiet-ask _ _ none_seen

  -- a call of git that succeeds or raises
  git-Steps :
      (args : List String) (input : Option String) (other : String)
      → Steps
          (λ _. effect_of (git args input))
          (run_git outside args input >>= unless_failed outside other)
  unfolding run_git ask effects
  git-Steps args input other desk a h =
      (Sound->>= (λ _. effect_of (git args input)) (λ _ e _ e'. e' ≡ e) (run_git outside args input)
        (unless_failed outside other) (λ before result done. refl)
        (λ result.
          Quiet-Steps (unless_failed outside other result) (unless_failed-Quiet other result))
        desk a h).1

  pub apply_patch-Steps : (patch : String) → Steps (λ _. applying patch) (apply_patch outside patch)
  unfolding apply_patch String-discrete
  apply_patch-Steps patch desk a h =
      Sound-after (λ e _ e'. e' ≡ applying patch e) _ _
        (Quiet->>= _ _ (Quiet-git ("apply" ∷ "--check" ∷ []) (some patch) (λ e. refl))
          (unless_failed-Quiet _))
        (λ _. git-Steps ("apply" ∷ []) (some patch) "git apply failed") desk a h

  pub revert_patch-Steps :
      (patch : String) → Steps (λ _. reverting patch) (revert_patch outside patch)
  unfolding revert_patch String-discrete
  revert_patch-Steps patch = git-Steps ("apply" ∷ "-R" ∷ []) (some patch) "git apply -R failed"

  pub stage_paths-Steps :
      (paths : List String) → Steps (λ _. staging paths) (stage_paths outside paths)
  unfolding stage_paths String-discrete pure
  stage_paths-Steps [] desk a h = refl
  stage_paths-Steps (p ∷ ps) desk a h =
      git-Steps ("add" ∷ "--" ∷ p ∷ ps) none "git add paths failed" desk a h

  -- the answer to the question which commit was made
  named_commit-Sound :
      (name : String) (failure : Failure) (found : Bool)
      → Sound
          (λ e commit e'. (commit ≢ none) × (e' ≡ e))
          (if found then pure (some name) else raise failure)
  unfolding pure raise
  named_commit-Sound name failure true desk commit h = (ground (arith, h), refl)
  named_commit-Sound name failure false desk commit h = absurd (ground (arith, h))

  commit_changes-Sound :
      (message : String)
      → Sound
          (λ e commit e'. (commit ≢ none) × (e' ≡ committing message e))
          (commit_changes outside message)
  unfolding commit_changes String-discrete
  commit_changes-Sound message desk commit h =
      (Sound->>= (λ _. committing message) (λ _ e commit e'. (commit ≢ none) × (e' ≡ e)) _ _
        (git-Steps ("commit" ∷ "-m" ∷ message ∷ []) none "git commit failed")
        (λ _.
          Sound-after (λ e commit e'. (commit ≢ none) × (e' ≡ e)) _ _
            (Quiet-git ("rev-parse" ∷ "--short" ∷ "HEAD" ∷ []) none (λ e. refl))
            (λ rev. named_commit-Sound _ _ (returned (pos 0) rev)))
        desk commit h).1

  pub commit_staged-Steps :
      (message : String) → Steps (commit_effect message) (commit_staged outside message)
  unfolding commit_staged String-discrete pure
  commit_staged-Steps message =
      Sound-after (λ e commit e'. e' ≡ commit_effect message commit e) _ _
        (Quiet-git ("diff" ∷ "--cached" ∷ "--quiet" ∷ []) none (λ e. refl))
        (λ diff. branch (returned (pos 0) diff))
    where
      chosen :
          (e e' : Effects) (commit : Option String)
          → (commit ≢ none) × (e' ≡ committing message e)
          → e' ≡ commit_effect message commit e
      chosen e e' none (made, h) = absurd (made refl)
      chosen e e' (some c) (made, h) = h

      branch :
          (nothing : Bool)
          → Sound
              (λ e commit e'. e' ≡ commit_effect message commit e)
              (if nothing then pure none else commit_changes outside message)
      branch true desk commit h =
          let same : none ≡ commit = ground (arith, h) in
          subst (λ c. effects desk.calls ≡ commit_effect message c (effects desk.calls)) same refl
      branch false desk commit h =
          Sound-weaken (λ e commit e'. (commit ≢ none) × (e' ≡ committing message e))
            (λ e commit e'. e' ≡ commit_effect message commit e) (commit_changes outside message)
            chosen (commit_changes-Sound message) desk commit h

  pub resolve_commit-Quiet : (revision : String) → Quiet (resolve_commit outside revision)
  unfolding resolve_commit String-discrete
  resolve_commit-Quiet revision = Quiet->>= _ _ (Quiet-git _ none (λ e. refl)) λ result.
      answer (returned (pos 0) result) (strip result.stdout)
        (after_stderr result (format ("Unknown git commit: " ∷ revision ∷ [])))
    where
      answer : (b : Bool) (a : String) (e : Failure) → Quiet (if b then pure a else raise e)
      answer true a e = Quiet-pure a
      answer false a e = Quiet-raise String e

  module _ (platform : Platform) (policy : CommandPolicy) where
    pub run_resolved-Quiet :
        (command : String) (resolved : Result Refusal (List String))
        → Quiet (run_resolved outside platform policy command resolved)
    run_resolved-Quiet command (err refusal) = Quiet-pure _
    run_resolved-Quiet command (ok argv) = Quiet-ask _ _ (λ e. refl)

    pub run_verification_commands-Quiet :
        (commands : List String)
        → Quiet (run_verification_commands outside platform policy commands)
    unfolding run_verification_commands
    run_verification_commands-Quiet [] = Quiet-pure []
    run_verification_commands-Quiet (command ∷ commands) =
        Quiet->>= _ _ (run_resolved-Quiet command (resolve platform policy command))
          λ result. Quiet->>= _ _ (run_verification_commands-Quiet commands) λ results. Quiet-pure _
