-- ===== src/Verifier/FailClosed.antt =====
-- Patches in which src/llm_harness/verifier.py finds no path.
use ho_h.Prelude.{
  String, Bool, true, false, List, [], ◌∷◌, ◌≡◌, ◌≢◌, ◌⊎◌, inl, inr, refl, sym, subst, ◌∙◌, arith,
  ◌==◌, string_eq,
}
use ho_h.Prelude.Chars.{strip, split_lines}
use ho_h.Prelude.Exec.{ok}
use ho_h.Prelude.Lists.{is_nil, All}
use ho_h.Prelude.Members.{unique}
use ho_h.Prelude.Results.{bind_ok}
use ho_h.Domain.{WorkItem, WorkerPatch, VerificationReport}
use ho_h.Trust.{requires_patch_output}
use ho_h.Verifier.Scan.{
  Python, PatchScan, Scan, finish, read_lines, scan_patch, report_pending, start,
}
use ho_h.Verifier.Gate.{PosixPath, PolicyVerifier, verify_patch_before_apply}
use ho_h.Verifier.Safety.{IsPermitted, verify_patch_before_apply-IsAccepted}

is_nil-unique : (xs : List String) → is_nil (unique xs) ≡ is_nil xs
unfolding unique
is_nil-unique [] = refl
is_nil-unique (x ∷ xs) = refl

module _ (python : Python) where
  finish-files :
      (patch : String) (scan : Scan)
      → (strip patch == "") ≡ false
      → (finish python patch scan).problems ≡ []
      → is_nil (finish python patch scan).files ≡ false
  unfolding finish
  finish-files patch scan full none_found = go (is_nil (report_pending python scan).files) refl
    where
      go :
          (b : Bool)
          → is_nil (report_pending python scan).files ≡ b
          → is_nil (finish python patch scan).files ≡ false
      go true h = absurd (ground (arith, none_found, full, h))
      go false h = is_nil-unique (report_pending python scan).files ∙ h

  scan_patch-files :
      (patch : String) (scan : PatchScan)
      → (strip patch == "") ≡ false
      → scan_patch python patch ≡ ok scan
      → scan.problems ≡ []
      → is_nil scan.files ≡ false
  unfolding scan_patch
  scan_patch-files patch scan full scanned none_found =
      let (last, _, h) =
        bind_ok (read_lines python (split_lines patch) false start)
          (λ last. ok (finish python patch last)) scan scanned in
      let same : finish python patch last ≡ scan = ground (arith, h) in
      subst (λ s. is_nil s.files ≡ false) same
        (finish-files patch last full (subst (λ s. s.problems ≡ []) (sym same) none_found))

not_empty : (s : String) → s ≢ "" → (s == "") ≡ false
not_empty s h = ground (arith, h)

-- Where the trust policy asks for a patch and the gate reports `ok`, the scan of the patch finds at least
-- one path, and no problem, and each path that it finds is permitted for the work item.
pub verify_patch_before_apply-files :
    (posix : PosixPath) (python : Python) (verifier : PolicyVerifier) (item : WorkItem)
    (patch : WorkerPatch) (report : VerificationReport)
    → requires_patch_output verifier.trust_policy ≡ true
    → verify_patch_before_apply posix python verifier item patch ≡ ok report
    → report.is_ok ≡ true
    → (scan : PatchScan) × (scan_patch python patch.patch ≡ ok scan)
      × (scan.problems ≡ [])
      × (is_nil scan.files ≡ false)
      × All (IsPermitted posix verifier item) scan.files
verify_patch_before_apply-files posix python verifier item patch report required verified accepted =
    let (scan, scanned, a) =
      (verify_patch_before_apply-IsAccepted posix verifier python item patch).0
        (report, verified, accepted) in
    (
      scan,
      scanned,
      a.readable,
      scan_patch-files python patch.patch scan (full a.not_blank) scanned a.readable,
      a.permitted,
    )
  where
    full :
        (requires_patch_output verifier.trust_policy ≡ false) ⊎ (strip patch.patch ≢ "")
        → (strip patch.patch == "") ≡ false
    full (inl free) = absurd (ground (arith, free, required))
    full (inr not_blank) = not_empty (strip patch.patch) not_blank
