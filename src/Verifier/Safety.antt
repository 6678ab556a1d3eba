-- ===== src/Verifier/Safety.antt =====
-- Patches that pass the gate of src/llm_harness/verifier.py.
use ho_h.Prelude.{
  String, Bool, true, false, not, ◌&&◌, List, [], ◌∷◌, ◌≡◌, ◌≢◌, ◌↔◌, ◌⊎◌, inl, inr, refl, arith,
  ◌==◌, string_eq, contains, Bool-cases, eq_of_==,
}
use ho_h.Prelude.Chars.{strip}
use ho_h.Prelude.Exec.{Result, ok, err}
use ho_h.Prelude.Lists.{is_nil, All, All-map, any, keep, is_nil-append, is_nil-keep, nil_of_is_nil}
use ho_h.Domain.{WorkItem, WorkerPatch, VerificationReport}
use ho_h.Trust.{requires_patch_output}
use ho_h.Verifier.Scan.{Python, PatchScan, scan_patch}
use ho_h.Verifier.Gate.{
  PosixPath, PolicyVerifier, with_slashes, finding_if, path_matches_prefix, is_forbidden,
  forbidden_hits, matches_any_allowed_path, is_unsafe_repo_path, scope_findings, patch_findings,
  patch_report, verify_patch_before_apply,
}

-- The scope that a work item declares holds the path, or it declares none and needs none.
abbrev pub InScope : PosixPath → PolicyVerifier → List String → String → Type 0
InScope posix verifier allowed_paths path =
    ((allowed_paths ≡ []) × (verifier.require_explicit_scope ≡ false))
    ⊎ (contains "*" allowed_paths ≡ true)
    ⊎ (any (path_matches_prefix posix path) allowed_paths ≡ true)

-- A path that a work item may touch.
pub record IsPermitted (posix : PosixPath) (verifier : PolicyVerifier) (work_item : WorkItem)
    (path : String) : Type 0 where
  pub relative : posix.is_absolute (with_slashes path) ≡ false
  pub no_parent : contains ".." (posix.parts (with_slashes path)) ≡ false
  pub not_forbidden :
      All (λ prefix. path_matches_prefix posix path prefix ≡ false) verifier.forbidden_paths
  pub in_scope : InScope posix verifier work_item.allowed_paths path

-- A patch that the policy accepts for a work item, as the scan reads it.
pub record IsAccepted (posix : PosixPath) (verifier : PolicyVerifier) (work_item : WorkItem)
    (worker_patch : WorkerPatch) (scan : PatchScan) : Type 0 where
  pub not_blank :
      (requires_patch_output verifier.trust_policy ≡ false) ⊎ (strip worker_patch.patch ≢ "")
  pub same_task : worker_patch.work_item_id ≡ work_item.id
  pub has_commands :
      (verifier.require_tests ≡ false) ⊎ (is_nil work_item.verification_commands ≡ false)
  pub readable : scan.problems ≡ []
  pub permitted : All (IsPermitted posix verifier work_item) scan.files

is_nil-finding : (b : Bool) (finding : String) → is_nil (finding_if b finding) ≡ not b
is_nil-finding true finding = refl
is_nil-finding false finding = refl

not-not : (b : Bool) → not (not b) ≡ b
not-not true = refl
not-not false = refl

any-All :
    (test : String → Bool) (xs : List String) → any test xs ≡ false ↔ All (λ x. test x ≡ false) xs
unfolding any
any-All test xs = (there xs, back xs)
  where
    there : (xs : List String) → any test xs ≡ false → All (λ x. test x ≡ false) xs
    there [] h = tt
    there (x ∷ xs) h = (ground (arith, h), there xs (ground (arith, h)))

    back : (xs : List String) → All (λ x. test x ≡ false) xs → any test xs ≡ false
    back [] h = refl
    back (x ∷ xs) (h, hs) = ground (arith, h, back xs hs)

module _ (posix : PosixPath) (verifier : PolicyVerifier) where
  InScope-declared :
      (a : String) (as' : List String) (path : String)
      → not (matches_any_allowed_path posix (a ∷ as') path) ≡ false
        ↔ InScope posix verifier (a ∷ as') path
  unfolding matches_any_allowed_path
  InScope-declared a as' path = (there, back)
    where
      there :
          not (matches_any_allowed_path posix (a ∷ as') path) ≡ false
          → InScope posix verifier (a ∷ as') path
      there h = elim (Bool-cases (contains "*" (a ∷ as'))) [
        | inl whole ↦ inr (inl whole)
        | inr part ↦ inr (inr (ground (arith, h, part)))
      ]

      back :
          InScope posix verifier (a ∷ as') path
          → not (matches_any_allowed_path posix (a ∷ as') path) ≡ false
      back (inl (h, _)) = absurd (ground (arith, h))
      back (inr (inl h)) = ground (arith, h)
      back (inr (inr h)) = ground (arith, h)

  InScope-undeclared :
      (files : List String)
      → not (verifier.require_explicit_scope && not (is_nil files)) ≡ true
        ↔ All (InScope posix verifier []) files
  unfolding contains any
  InScope-undeclared files = (there files, back files)
    where
      there :
          (files : List String)
          → not (verifier.require_explicit_scope && not (is_nil files)) ≡ true
          → All (InScope posix verifier []) files
      there [] h = tt
      there (f ∷ []) h = (inl (refl, ground (arith, h)), tt)
      there (f ∷ g ∷ fs) h = (inl (refl, ground (arith, h)), there (g ∷ fs) h)

      back :
          (files : List String)
          → All (InScope posix verifier []) files
          → not (verifier.require_explicit_scope && not (is_nil files)) ≡ true
      back [] h = ground arith
      back (f ∷ fs) (inl (_, h), _) = ground (arith, h)
      back (f ∷ fs) (inr (inl h), _) = absurd (ground (arith, h))
      back (f ∷ fs) (inr (inr h), _) = absurd (ground (arith, h))

  scope_findings-InScope :
      (files allowed_paths : List String)
      → is_nil (scope_findings posix verifier files allowed_paths) ≡ true
        ↔ All (InScope posix verifier allowed_paths) files
  unfolding scope_findings
  scope_findings-InScope files [] = rw (is_nil-finding _ _) (InScope-undeclared files)
  scope_findings-InScope files (a ∷ as') =
      let outside = λ (path : String). not (matches_any_allowed_path posix (a ∷ as') path) in
      (
        λ h.
            All-map files (λ path inside. (InScope-declared a as' path).0 inside)
              ((is_nil-keep outside files).0
                (ground (arith, h, is_nil-finding (not (is_nil (keep outside files)))))),
        λ h. rw (is_nil-finding _ _) (
            ground (
              arith,
              (is_nil-keep outside files).1
                  (All-map files (λ path inside. (InScope-declared a as' path).1 inside) h),
            )),
      )

  IsPermitted-files :
      (work_item : WorkItem) (files : List String)
      → (All (λ path. is_unsafe_repo_path posix path ≡ false) files
          × All (λ path. is_forbidden posix verifier.forbidden_paths path ≡ false) files
          × All (InScope posix verifier work_item.allowed_paths) files)
        ↔ All (IsPermitted posix verifier work_item) files
  unfolding is_unsafe_repo_path is_forbidden
  IsPermitted-files work_item files = (there files, back files)
    where
      there :
          (files : List String)
          → (All (λ path. is_unsafe_repo_path posix path ≡ false) files
              × All (λ path. is_forbidden posix verifier.forbidden_paths path ≡ false) files
              × All (InScope posix verifier work_item.allowed_paths) files)
          → All (IsPermitted posix verifier work_item) files
      there [] h = tt
      there (f ∷ fs) ((u, us), (n, ns), (s, ss)) = (
        record {
          relative = ground (arith, u);
          no_parent = ground (arith, u);
          not_forbidden = (any-All (path_matches_prefix posix f) verifier.forbidden_paths).0 n;
          in_scope = s;
        },
        there fs (us, ns, ss),
      )

      back :
          (files : List String)
          → All (IsPermitted posix verifier work_item) files
          → All (λ path. is_unsafe_repo_path posix path ≡ false) files
            × All (λ path. is_forbidden posix verifier.forbidden_paths path ≡ false) files
            × All (InScope posix verifier work_item.allowed_paths) files
      back [] h = (tt, tt, tt)
      back (f ∷ fs) (p, ps) =
          let (us, ns, ss) = back fs ps in
          (
            (ground (arith, p.relative, p.no_parent), us),
            (
              (any-All (path_matches_prefix posix f) verifier.forbidden_paths).1 p.not_forbidden,
              ns,
            ),
            (p.in_scope, ss),
          )

  module _ (work_item : WorkItem) (worker_patch : WorkerPatch) (scan : PatchScan) where
    -- one test for each place of the findings
    is_nil-findings : is_nil (patch_findings posix verifier work_item worker_patch scan) ≡ (
        not (requires_patch_output verifier.trust_policy && strip worker_patch.patch == "")
        && (worker_patch.work_item_id == work_item.id)
        && not (verifier.require_tests && is_nil work_item.verification_commands)
        && is_nil scan.problems
        && is_nil (keep (is_unsafe_repo_path posix) scan.files)
        && is_nil (forbidden_hits posix scan.files verifier.forbidden_paths)
        && is_nil (scope_findings posix verifier scan.files work_item.allowed_paths))
    unfolding patch_findings
    is_nil-findings = simp (is_nil-append, is_nil-finding, not-not)

    patch_report-IsAccepted :
        (patch_report posix verifier work_item worker_patch scan).is_ok ≡ true
        ↔ IsAccepted posix verifier work_item worker_patch scan
    unfolding patch_report forbidden_hits
    patch_report-IsAccepted = (there, back)
      where
        there :
            is_nil (patch_findings posix verifier work_item worker_patch scan) ≡ true
            → IsAccepted posix verifier work_item worker_patch scan
        there h = record {
          not_blank = elim (Bool-cases (requires_patch_output verifier.trust_policy)) [
            | inl required ↦ inr λ blank. ground (arith, h, is_nil-findings, required, blank)
            | inr free ↦ inl free
          ];
          same_task =
              eq_of_== worker_patch.work_item_id work_item.id (ground (arith, h, is_nil-findings));
          has_commands = elim (Bool-cases verifier.require_tests) [
            | inl required ↦ inr (ground (arith, h, is_nil-findings, required))
            | inr free ↦ inl free
          ];
          readable = nil_of_is_nil scan.problems (ground (arith, h, is_nil-findings));
          permitted = (IsPermitted-files work_item scan.files).0 (
            (is_nil-keep (is_unsafe_repo_path posix) scan.files).0
                (ground (arith, h, is_nil-findings)),
            (is_nil-keep (is_forbidden posix verifier.forbidden_paths) scan.files).0
                (ground (arith, h, is_nil-findings)),
            (scope_findings-InScope scan.files work_item.allowed_paths).0
                (ground (arith, h, is_nil-findings)),
          );
        }

        blank :
            (requires_patch_output verifier.trust_policy ≡ false) ⊎ (strip worker_patch.patch ≢ "")
            → (requires_patch_output verifier.trust_policy && strip worker_patch.patch == "")
              ≡ false
        blank (inl h) = ground (arith, h)
        blank (inr h) = ground (arith, h)

        commands :
            (verifier.require_tests ≡ false) ⊎ (is_nil work_item.verification_commands ≡ false)
            → (verifier.require_tests && is_nil work_item.verification_commands) ≡ false
        commands (inl h) = ground (arith, h)
        commands (inr h) = ground (arith, h)

        back :
            IsAccepted posix verifier work_item worker_patch scan
            → is_nil (patch_findings posix verifier work_item worker_patch scan) ≡ true
        back a =
            let (unsafe, forbidden, scope) =
              (IsPermitted-files work_item scan.files).1 a.permitted in
            ground (
              arith,
              is_nil-findings,
              blank a.not_blank,
              a.same_task,
              commands a.has_commands,
              a.readable,
              (is_nil-keep (is_unsafe_repo_path posix) scan.files).1 unsafe,
              (is_nil-keep (is_forbidden posix verifier.forbidden_paths) scan.files).1 forbidden,
              (scope_findings-InScope scan.files work_item.allowed_paths).1 scope,
            )

  -- The gate returns a report that is `ok` exactly when the scan of the patch returns, and the patch
  -- is not blank where the trust policy asks for one, it is for the work item, the work item has
  -- verification commands where they are required, the scan has no problem, and each path that the
  -- scan finds is permitted: relative, without `..`, under no forbidden path, and in the scope that
  -- the work item declares, or the work item declares none and the verifier requires none.
  pub verify_patch_before_apply-IsAccepted :
      (python : Python) (work_item : WorkItem) (worker_patch : WorkerPatch)
      → ((report : VerificationReport) × (verify_patch_before_apply posix python verifier work_item
              worker_patch
            ≡ ok report)
          × (report.is_ok ≡ true))
        ↔ ((scan : PatchScan) × (scan_patch python worker_patch.patch ≡ ok scan)
            × IsAccepted posix verifier work_item worker_patch scan)
  unfolding verify_patch_before_apply
  verify_patch_before_apply-IsAccepted python work_item worker_patch = (
    λ (report, verified, accepted).
        there (scan_patch python worker_patch.patch) refl report verified accepted,
    λ (scan, scanned, accepted). (
      patch_report posix verifier work_item worker_patch scan,
      rw scanned refl,
      (patch_report-IsAccepted work_item worker_patch scan).1 accepted,
    ),
  )
    where
      there :
          (result : Result String PatchScan)
          → scan_patch python worker_patch.patch ≡ result
          → (report : VerificationReport)
          → verify_patch_before_apply posix python verifier work_item worker_patch ≡ ok report
          → report.is_ok ≡ true
          → (scan : PatchScan) × (scan_patch python worker_patch.patch ≡ ok scan)
            × IsAccepted posix verifier work_item worker_patch scan
      there (err e) h report verified accepted = absurd (ground (arith, h, verified))
      there (ok scan) h report verified accepted = (
        scan,
        h,
        (patch_report-IsAccepted work_item worker_patch scan).0
            (ground (arith, h, verified, accepted)),
      )
