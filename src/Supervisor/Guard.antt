-- ===== src/Supervisor/Guard.antt =====
-- No effect of src/llm_harness/supervisor.py without the gate of src/llm_harness/verifier.py, also where
-- a method raises.
use ho_h.Prelude.{
  String, Bool, true, false, Option, none, some, List, ◌≡◌, ◌⊎◌, inl, inr, refl, ◌∙◌, if◌then◌else◌,
}
use ho_h.Prelude.Exec.{Result, ok, err, ◌>>=◌}
use ho_h.Domain.{WorkItem, WorkerPatch, HarnessRunResult, VerificationReport}
use ho_h.Git.{Task}
use ho_h.Git.Calls.{Desk, Failure}
use ho_h.Jobs.{WorkerCompletion}
use ho_h.Supervisor.{
  Site, Supervisor, OperationContext, lifted, refuse, record_policy, check_policy, after_policy,
  check_and_apply, execute_worker_completion_locked,
}
use ho_h.Supervisor.Effects.{effects, Quiet, Quiet->>=, Quiet-pure, Quiet-ask}
use ho_h.Verifier.Scan.{changed_files_from_patch}
use ho_h.Verifier.Gate.{verify_patch_before_apply}
use ho_h.Supervisor.Quiet.{
  notify-Quiet, lifted-Quiet, lifted-ok, record_entry-Quiet, call_ledger-Quiet,
}
use ho_h.Supervisor.{execute_worker_completion, under_lease, with_patch}
use ho_h.Prelude.Exec.{then_run}
use ho_h.Verifier.Scan.{PatchScan, scan_patch}
use ho_h.Verifier.Safety.{IsAccepted, verify_patch_before_apply-IsAccepted}

-- The method has no effect, whether it returns or raises, or else `G` holds.
abbrev pub Guarded : {A : Type 0} → Type 0 → Task A → Type 0
Guarded G m = (desk : Desk) → (effects (m desk).1.calls ≡ effects desk.calls) ⊎ G

module _ (G : Type 0) where
  pub Guarded-known :
      {A B : Type 0} (K : A → Type 0) (m : Task A) (f : A → Task B)
      → Quiet m
      → ((desk : Desk) (a : A) → (m desk).0 ≡ ok a → K a)
      → ((a : A) → K a → Guarded G (f a))
      → Guarded G (m >>= f)
  unfolding ◌>>=◌
  Guarded-known {A} {B} K m f qm known gf desk = go (m desk).0 (m desk).1 (qm desk) (known desk)
    where
      go :
          (r : Result Failure A) (after : Desk)
          → effects after.calls ≡ effects desk.calls
          → ((a : A) → r ≡ ok a → K a)
          → (effects (then_run r f after).1.calls ≡ effects desk.calls) ⊎ G
      go (err e) after same k = inl same
      go (ok a) after same k = elim (gf a (k a refl) after) [
        | inl unchanged ↦ inl (unchanged ∙ same)
        | inr g ↦ inr g
      ]

  pub Guarded-after :
      {A B : Type 0} (m : Task A) (f : A → Task B)
      → Quiet m
      → ((a : A) → Guarded G (f a))
      → Guarded G (m >>= f)
  Guarded-after m f qm gf = Guarded-known (λ _. Unit) m f qm (λ _ _ _. tt) (λ a _. gf a)

  pub Guarded-Quiet : {A : Type 0} (m : Task A) → Quiet m → Guarded G m
  Guarded-Quiet m q desk = inl (q desk)

  Guarded-if :
      {A : Type 0} (b : Bool) (m n : Task A)
      → (b ≡ true → G)
      → Guarded G n
      → Guarded G (if b then m else n)
  Guarded-if true m n g h desk = inr (g refl)
  Guarded-if false m n g h desk = h desk

  Guarded-lease :
      (site : Site) (supervisor : Supervisor) (action : String) (body : Task HarnessRunResult)
      (answer : Option String)
      → Guarded G body
      → Guarded G (under_lease site supervisor action body answer)
  unfolding effects
  Guarded-lease site supervisor action body (some message) g desk = inl refl
  Guarded-lease site supervisor action body none g desk = g desk

-- The completion carries a patch that the gate accepts for the work item.
abbrev pub IsGuarded : Site → Supervisor → WorkItem → Option WorkerPatch → Type 0
IsGuarded site supervisor item returned =
    (patch : WorkerPatch) × (returned ≡ some patch)
    × ((scan : PatchScan) × (scan_patch site.python patch.patch ≡ ok scan)
        × IsAccepted site.posix supervisor.verifier item patch scan)

module _ (site : Site) (supervisor : Supervisor) (item : WorkItem)
    (context : Option OperationContext) where
  record_policy-Guarded :
      (job_id : String) (patch : WorkerPatch) (files : List String) (report : VerificationReport)
      → verify_patch_before_apply site.posix site.python supervisor.verifier item patch ≡ ok report
      → Guarded
          (IsGuarded site supervisor item (some patch))
          (record_policy site supervisor item context job_id patch files report)
  record_policy-Guarded job_id patch files report verified =
      let G = IsGuarded site supervisor item (some patch) in
      Guarded-after G _ (λ _. after_policy site supervisor item context job_id patch files report)
        (record_entry-Quiet site supervisor _)
        (λ _.
          Guarded-if G report.is_ok _ _
            (λ accepted. (
              patch,
              refl,
              (verify_patch_before_apply-IsAccepted site.posix supervisor.verifier site.python item
                    patch).0
                  (report, verified, accepted),
            ))
            (Guarded-Quiet G (refuse site supervisor item context job_id report)
              (Quiet->>= _ _ (notify-Quiet _) λ _. Quiet-pure _)))

  with_patch-Guarded :
      (completion : WorkerCompletion) (returned : Option WorkerPatch)
      → Guarded
          (IsGuarded site supervisor item returned)
          (with_patch site supervisor item completion context returned)
  unfolding check_and_apply
  with_patch-Guarded completion none =
      Guarded-Quiet (IsGuarded site supervisor item none)
        (with_patch site supervisor item completion context none)
        (Quiet->>= _ _ (notify-Quiet _) λ _. Quiet-pure _)
  with_patch-Guarded completion (some patch) =
      let G = IsGuarded site supervisor item (some patch) in
      let files_of = lifted (changed_files_from_patch site.python patch.patch) in
      let report_of =
        lifted (verify_patch_before_apply site.posix site.python supervisor.verifier item patch) in
      Guarded-after G _
        (λ _. files_of >>= check_policy site supervisor item context completion.job_id patch)
        (record_entry-Quiet site supervisor _)
        (λ _.
          Guarded-after G files_of
            (check_policy site supervisor item context completion.job_id patch) (lifted-Quiet _)
            (λ files.
              Guarded-known G
                (λ report.
                  verify_patch_before_apply site.posix site.python supervisor.verifier item patch
                  ≡ ok report)
                report_of (record_policy site supervisor item context completion.job_id patch files)
                (lifted-Quiet _)
                (lifted-ok
                  (verify_patch_before_apply site.posix site.python supervisor.verifier item patch))
                (record_policy-Guarded completion.job_id patch files)))

  -- Whether the execution of a completion returns or raises, it makes no call of `git apply`,
  -- `git apply -R`, `git add` and `git commit` unless the completion carries a patch that the policy
  -- gate accepts: the scan of the patch returns without a problem, and each path that it finds is
  -- permitted for the work item.
  pub execute_worker_completion-IsGuarded :
      (completion : WorkerCompletion) (desk : Desk)
      → (effects (execute_worker_completion site supervisor item completion context desk).1.calls
          ≡ effects desk.calls)
        ⊎ IsGuarded site supervisor item completion.patch
  unfolding execute_worker_completion execute_worker_completion_locked
  execute_worker_completion-IsGuarded completion =
      let G = IsGuarded site supervisor item completion.patch in
      Guarded-after G _ _ (Quiet-ask _ _ (λ e. refl)) λ answer.
        Guarded-lease G site supervisor _ _ answer (
          Guarded-after G _
            (λ _. with_patch site supervisor item completion context completion.patch)
            (call_ledger-Quiet site supervisor _)
            (λ _. with_patch-Guarded completion completion.patch))
