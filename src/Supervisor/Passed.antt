-- ===== src/Supervisor/Passed.antt =====
-- The verification commands that src/llm_harness/supervisor.py runs, and what their results say.
use ho_h.Prelude.{
  String, Bool, true, false, Option, none, List, [], ◌∷◌, ◌≡◌, ◌⊎◌, inl, inr, refl, subst, sym, ◌∙◌,
  ap, arith, ◌==◌, eq_of_==, ==_refl,
}
use ho_h.Prelude.Int.{ℤ, pos, int_eq}
use ho_h.Prelude.Exec.{Result, ok, err, pure}
use ho_h.Prelude.Lists.{all}
use ho_h.Domain.{CommandResult, command_ok}
use ho_h.Git.{run_verification_commands}
use ho_h.Git.Calls.{Call, Desk, Failure, ask}
use ho_h.Supervisor.Effects.{Effects, Sound, Sound-knowing, effects, Sound-pure}
use ho_h.Supervisor.GitEffects.{run_verification_commands-Quiet, run_resolved-Quiet}
use ho_h.Commands.{Platform, CommandPolicy, Refusal, resolve, child_environment}
use ho_h.Git.Calls.{Outside, ProcessOutcome, finished, timed_out, not_started}
use ho_h.Git.{run_resolved, result_of}

ok_injective : {A : Type 0} {a b : A} → ◌≡◌ {A = Result Failure A} (ok a) (ok b) → a ≡ b
ok_injective h = ground (arith, h)

module _ (outside : Outside) (platform : Platform) (policy : CommandPolicy) where
  -- The command is resolved by the policy, and there is a trace with the effects `e` at which its
  -- process finishes with the code zero and with the output that the result holds.
  abbrev pub HasPassed : Effects → String → CommandResult → Type 0
  HasPassed e command r =
      (argv : List String) × (resolve platform policy command ≡ ok argv)
      × ((calls : List Call) × (effects calls ≡ e)
          × (outside.run_process calls argv (child_environment platform policy outside.environ)
              ≡ finished (pos 0) r.stdout r.stderr))

  -- each command has its result, in order, and each has passed
  abbrev pub HavePassed : Effects → List String → List CommandResult → Type 0
  HavePassed e [] [] = Unit
  HavePassed e (command ∷ commands) (r ∷ rs) =
      (r.command ≡ command)
      × (r.return_code ≡ pos 0)
      × HasPassed e command r
      × HavePassed e commands rs
  HavePassed e _ _ = ⊥

  -- a result that is `ok` is that of a process that finished with zero
  abbrev pub Ran : Effects → String → CommandResult → Type 0
  Ran e command r = (r.command ≡ command) × (r.return_code ≡ pos 0 → HasPassed e command r)

  abbrev pub HaveRun : Effects → List String → List CommandResult → Type 0
  HaveRun e [] [] = Unit
  HaveRun e (command ∷ commands) (r ∷ rs) = Ran e command r × HaveRun e commands rs
  HaveRun e _ _ = ⊥

  result_of-Ran :
      (command : String) (argv : List String) (calls : List Call) (outcome : ProcessOutcome)
      → resolve platform policy command ≡ ok argv
      → outside.run_process calls argv (child_environment platform policy outside.environ) ≡ outcome
      → Ran (effects calls) command (result_of outside platform policy command outcome)
  result_of-Ran command argv calls (finished code stdout stderr) resolved ended = (
    refl,
    λ zero_code.
        (argv, resolved, (calls, refl, ended ∙ ap (λ c. finished c stdout stderr) zero_code)),
  )
  result_of-Ran command argv calls (timed_out stdout seconds) resolved ended =
      (refl, λ zero_code. absurd (ground (arith, zero_code)))
  result_of-Ran command argv calls (not_started message) resolved ended =
      (refl, λ zero_code. absurd (ground (arith, zero_code)))

  run_resolved-Ran :
      (command : String) (resolved : Result Refusal (List String))
      → resolve platform policy command ≡ resolved
      → (desk : Desk) (r : CommandResult)
      → (run_resolved outside platform policy command resolved desk).0 ≡ ok r
      → Ran (effects desk.calls) command r
  unfolding pure ask
  run_resolved-Ran command (err refusal) resolved desk r h =
      subst (Ran (effects desk.calls) command) (ok_injective h)
        (refl, λ zero_code. absurd (ground (arith, zero_code)))
  run_resolved-Ran command (ok argv) resolved desk r h =
      subst (Ran (effects desk.calls) command) (ok_injective h) (
        result_of-Ran command argv desk.calls
          (outside.run_process desk.calls argv (child_environment platform policy outside.environ))
          resolved refl)

  pub run_verification_commands-HaveRun :
      (commands : List String)
      → Sound
          (λ e results _. HaveRun e commands results)
          (run_verification_commands outside platform policy commands)
  unfolding run_verification_commands
  run_verification_commands-HaveRun [] =
      Sound-pure (λ e results _. HaveRun e [] results) [] (λ e. tt)
  run_verification_commands-HaveRun (command ∷ commands) =
      let ran = λ (e : Effects) (results : List CommandResult) (_ : Effects).
        HaveRun e (command ∷ commands) results in
      Sound-knowing ran (λ e r. Ran e command r)
        (run_resolved outside platform policy command (resolve platform policy command)) _
        (run_resolved-Quiet outside platform policy command (resolve platform policy command))
        (run_resolved-Ran command (resolve platform policy command) refl)
        (λ result.
          Sound-knowing (λ e results e'. Ran e command result → ran e results e')
            (λ e results. HaveRun e commands results)
            (run_verification_commands outside platform policy commands)
            (λ results. pure (result ∷ results))
            (run_verification_commands-Quiet outside platform policy commands)
            (run_verification_commands-HaveRun commands)
            (λ results.
              Sound-pure
                (λ e all_results e'.
                  HaveRun e commands results → Ran e command result → ran e all_results e')
                (result ∷ results) (λ e rest first. (first, rest))))

  pub HaveRun-HavePassed :
      (e : Effects) (commands : List String) (results : List CommandResult)
      → HaveRun e commands results
      → all command_ok results ≡ true
      → HavePassed e commands results
  unfolding all command_ok
  HaveRun-HavePassed e [] [] h passed = tt
  HaveRun-HavePassed e [] (r ∷ rs) h passed = h
  HaveRun-HavePassed e (c ∷ cs) [] h passed = h
  HaveRun-HavePassed e (c ∷ cs) (r ∷ rs) ((same, first), rest) passed =
      let zero_code : (r.return_code == pos 0) ≡ true = ground (arith, passed) in
      (
        same,
        eq_of_== r.return_code (pos 0) zero_code,
        first (eq_of_== r.return_code (pos 0) zero_code),
        HaveRun-HavePassed e cs rs rest (ground (arith, passed)),
      )

  pub all-HavePassed :
      (e : Effects) (commands : List String) (results : List CommandResult)
      → HavePassed e commands results
      → all command_ok results ≡ true
  unfolding all command_ok ho_h.Prelude.Int.ℤ-discrete ho_h.Prelude.ℕ_discrete
  all-HavePassed e [] [] h = refl
  all-HavePassed e [] (r ∷ rs) h = absurd h
  all-HavePassed e (c ∷ cs) [] h = absurd h
  all-HavePassed e (c ∷ cs) (r ∷ rs) (same, ended, passed, rest) =
      rw (ended, all-HavePassed e cs rs rest) refl
