-- ===== src/Supervisor/Outcome.antt =====
-- What src/llm_harness/supervisor.py leaves of a worker's patch in the repository.
use ho_h.Prelude.{
  String, Bool, true, false, Option, none, List, ◌≡◌, ◌⊎◌, inl, inr, refl, subst, sym, ◌∙◌, ap,
  arith,
}
use ho_h.Prelude.Int.{int_eq}
use ho_h.Prelude.Exec.{ok, ◌>>=◌, ◌>>◌}
use ho_h.Prelude.Lists.{is_nil, all}
use ho_h.Domain.{
  WorkItem, WorkerPatch, CommandResult, command_ok, HarnessRunResult, VerificationReport,
}
use ho_h.Git.{run_verification_commands, apply_patch}
use ho_h.Supervisor.{
  Site, Supervisor, OperationContext, lifted, message_of, provisional_of, after_commands,
  test_patch, refuse, record_policy, check_policy, after_report, apply_and_test, after_policy,
  check_and_apply,
}
use ho_h.Supervisor.Effects.{
  Effects, applying, reverting, staging, Sound, Sound->>=, Sound-after, Sound-known, Sound-knowing,
  Sound-pure, Sound-if,
}
use ho_h.Supervisor.GitEffects.{commit_effect, apply_patch-Steps, run_verification_commands-Quiet}
use ho_h.Verifier.Scan.{changed_files_from_patch}
use ho_h.Verifier.Gate.{verify_patch_before_apply, verify_after_apply}
use ho_h.Supervisor.Quiet.{
  notify-Quiet, lifted-Quiet, lifted-ok, record_entry-Quiet, in_operation-Quiet,
  record_results-Quiet,
}
use ho_h.Supervisor.Tested.{Judged, Tested, after_report-Tested}
use ho_h.Supervisor.Passed.{
  HavePassed, HaveRun, run_verification_commands-HaveRun, HaveRun-HavePassed,
}

nil_unless :
    (commands_ok documented : Bool) (item : WorkItem)
    → (verify_after_apply item commands_ok documented).is_ok ≡ true
    → (commands_ok ≡ true) × (is_nil item.acceptance_criteria ≡ false)
unfolding verify_after_apply
nil_unless commands_ok documented item h = (ground (arith, h), ground (arith, h))

-- A patch that is in the repository, with or without a commit: `e` are the effects before.
pub record IsLanded (site : Site) (supervisor : Supervisor) (item : WorkItem)
    (context : Option OperationContext) (patch : WorkerPatch) (e : Effects) (r : HarnessRunResult)
    (e' : Effects) : Type 0 where
  pub verified :
      verify_patch_before_apply site.posix site.python supervisor.verifier item patch
      ≡ ok r.pre_apply
  pub accepted : r.pre_apply.is_ok ≡ true
  pub all_pass :
      HavePassed site.outside site.platform supervisor.command_policy
        (applying patch.patch e)
        item.verification_commands
        r.command_results
  pub has_criteria : is_nil item.acceptance_criteria ≡ false
  pub post_ok : r.post_apply.is_ok ≡ true
  pub judged : Judged site supervisor item context "" patch (applying patch.patch e) r
  pub files : List String
  pub scanned : changed_files_from_patch site.python patch.patch ≡ ok files
  pub effect :
      e'
      ≡ commit_effect
          (message_of site supervisor context item)
          r.commit
          (staging files (applying patch.patch e))

-- Nothing is done; or the patch is applied and taken back; or it is in the repository.
abbrev pub Outcome :
    Site
    → Supervisor
    → WorkItem
    → Option OperationContext
    → WorkerPatch
    → Effects
    → HarnessRunResult
    → Effects
    → Type 0
Outcome site supervisor item context patch e r e' =
    ((r.commit ≡ none) × (e' ≡ e))
    ⊎ ((r.commit ≡ none) × (e' ≡ reverting patch.patch (applying patch.patch e)))
    ⊎ IsLanded site supervisor item context patch e r e'

module _ (site : Site) (supervisor : Supervisor) (item : WorkItem)
    (context : Option OperationContext) (job_id : String) (patch : WorkerPatch) where
  refuse-Outcome :
      (report : VerificationReport)
      → Sound
          (Outcome site supervisor item context patch)
          (refuse site supervisor item context job_id report)
  refuse-Outcome report =
      Sound-after (Outcome site supervisor item context patch) _ _ (notify-Quiet _)
        λ _. Sound-pure (Outcome site supervisor item context patch) _ (λ e. inl (refl, refl))

  module _ (files : List String)
      (scanned : changed_files_from_patch site.python patch.patch ≡ ok files)
      (report : VerificationReport)
      (verified : verify_patch_before_apply site.posix site.python supervisor.verifier item patch
        ≡ ok report)
      (accepted : report.is_ok ≡ true) where
    -- the commands, run behind the effects
    abbrev AreRun : Effects → List CommandResult → Type 0
    AreRun e results =
        HaveRun site.outside site.platform supervisor.command_policy e item.verification_commands
          results

    Tested-Outcome :
        (results : List CommandResult) (e e' : Effects) (r : HarnessRunResult)
        → AreRun (applying patch.patch e) results
        → Tested site supervisor item context job_id patch files
            (provisional_of site supervisor item context job_id files report results)
            (applying patch.patch e)
            r
            e'
        → Outcome site supervisor item context patch e r e'
    Tested-Outcome results e e' r run (pre, same, post, inl (no_commit, effect)) =
        inr (inl (no_commit, effect))
    Tested-Outcome results e e' r run (pre, same, post, inr (passed, gate, effect)) = inr (
        inr (record {
          verified = verified ∙ ap ok (sym pre);
          accepted = ap (λ x. x.is_ok) pre ∙ accepted;
          all_pass =
              HaveRun-HavePassed site.outside site.platform supervisor.command_policy
                (applying patch.patch e) item.verification_commands r.command_results
                (subst (AreRun (applying patch.patch e)) (sym same) run)
                (ap (all command_ok) same ∙ (nil_unless _ _ item passed).0);
          has_criteria = (nil_unless _ _ item passed).1;
          post_ok = ap (λ x. x.is_ok) post ∙ passed;
          judged = gate;
          files = files;
          scanned = scanned;
          effect = effect;
        }))

    -- behind the application
    After : Effects → HarnessRunResult → Effects → Type 0
    After e r e' =
        (results : List CommandResult) × AreRun e results
        × Tested site supervisor item context job_id patch files
            (provisional_of site supervisor item context job_id files report results) e r e'

    after_commands-After :
        (results : List CommandResult)
        → Sound
            (λ e r e'. AreRun e results → After e r e')
            (after_commands site supervisor item context job_id patch files report results)
    unfolding After
    after_commands-After results =
        Sound-after (λ e r e'. AreRun e results → After e r e') _
          (λ _.
            after_report site supervisor item context job_id patch files
              (provisional_of site supervisor item context job_id files report results))
          (record_results-Quiet site supervisor item context job_id results)
          (λ _ desk r h run. (
            results,
            run,
            after_report-Tested site supervisor item context job_id patch files
                (provisional_of site supervisor item context job_id files report results) refl refl
                desk r h,
          ))

    test_patch-After :
        Sound After (test_patch site supervisor item context job_id patch files report)
    test_patch-After = Sound-after After _ _ (in_operation-Quiet site supervisor context _) λ _.
        Sound-after After _ _ (record_entry-Quiet site supervisor _) λ _.
          Sound-knowing After AreRun
            (run_verification_commands site.outside site.platform supervisor.command_policy
              item.verification_commands)
            (after_commands site supervisor item context job_id patch files report)
            (run_verification_commands-Quiet site.outside site.platform supervisor.command_policy
              item.verification_commands)
            (run_verification_commands-HaveRun site.outside site.platform supervisor.command_policy
              item.verification_commands)
            after_commands-After

    apply_and_test-Outcome :
        Sound
          (Outcome site supervisor item context patch)
          (apply_and_test site supervisor item context job_id patch files report)
    unfolding apply_and_test After
    apply_and_test-Outcome =
        Sound-after (Outcome site supervisor item context patch) _
          (λ _.
            apply_patch site.outside patch.patch
            >> test_patch site supervisor item context job_id patch files report)
          (in_operation-Quiet site supervisor context _)
          (λ _ desk r h.
            concluded _ _ r
              (Sound->>= (λ _. applying patch.patch) (λ _. After)
                (apply_patch site.outside patch.patch)
                (λ _. test_patch site supervisor item context job_id patch files report)
                (apply_patch-Steps site.outside patch.patch) (λ _. test_patch-After) desk r h).1)
      where
        concluded :
            (e e' : Effects) (r : HarnessRunResult)
            → After (applying patch.patch e) r e'
            → Outcome site supervisor item context patch e r e'
        concluded e e' r (results, run, tested) = Tested-Outcome results e e' r run tested

  record_policy-Outcome :
      (files : List String)
      → changed_files_from_patch site.python patch.patch ≡ ok files
      → (report : VerificationReport)
      → verify_patch_before_apply site.posix site.python supervisor.verifier item patch ≡ ok report
      → Sound
          (Outcome site supervisor item context patch)
          (record_policy site supervisor item context job_id patch files report)
  record_policy-Outcome files scanned report verified =
      Sound-after (Outcome site supervisor item context patch) _
        (λ _. after_policy site supervisor item context job_id patch files report)
        (record_entry-Quiet site supervisor _)
        (λ _.
          Sound-if (Outcome site supervisor item context patch) report.is_ok _ _
            (λ accepted. apply_and_test-Outcome files scanned report verified accepted)
            (λ refused. refuse-Outcome report))

  pub check_and_apply-Outcome :
      Sound
        (Outcome site supervisor item context patch)
        (check_and_apply site supervisor item context job_id patch)
  unfolding check_and_apply
  check_and_apply-Outcome =
      Sound-after (Outcome site supervisor item context patch) _
        (λ _.
          lifted (changed_files_from_patch site.python patch.patch)
          >>= check_policy site supervisor item context job_id patch)
        (record_entry-Quiet site supervisor _)
        (λ _.
          Sound-known (Outcome site supervisor item context patch)
            (λ files. changed_files_from_patch site.python patch.patch ≡ ok files)
            (lifted (changed_files_from_patch site.python patch.patch))
            (check_policy site supervisor item context job_id patch) (lifted-Quiet _)
            (lifted-ok (changed_files_from_patch site.python patch.patch))
            (λ files scanned.
              Sound-known (Outcome site supervisor item context patch)
                (λ report.
                  verify_patch_before_apply site.posix site.python supervisor.verifier item patch
                  ≡ ok report)
                (lifted
                  (verify_patch_before_apply site.posix site.python supervisor.verifier item patch))
                (record_policy site supervisor item context job_id patch files) (lifted-Quiet _)
                (lifted-ok
                  (verify_patch_before_apply site.posix site.python supervisor.verifier item patch))
                (record_policy-Outcome files scanned)))
