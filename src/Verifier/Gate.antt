-- ===== src/Verifier/Gate.antt =====
-- `PolicyVerifier` of src/llm_harness/verifier.py: the reports before and after a patch is applied.
use ho_h.Prelude.{
  String, Bool, true, false, not, ◌&&◌, ◌||◌, List, [], ◌∷◌, ◌++◌, ◌==◌, string_eq, format, join,
  contains,
}
use ho_h.Prelude.Chars.{translate, strip, strip_slashes, has_prefix, casefold}
use ho_h.Prelude.Exec.{Result, ok}
use ho_h.Prelude.Int.{pos}
use ho_h.Prelude.Lists.{length, is_nil, keep, any}
use ho_h.Prelude.Results.{◌>>=◌}
use ho_h.Domain.{WorkItem, WorkerPatch, VerificationReport, count, text, flag}
use ho_h.Trust.{
  WorkerTrustPolicy, requires_patch_output, can_create_branch, can_commit, show_trust_level,
}
use ho_h.Verifier.Scan.{Python, PatchScan, scan_patch}

-- `pathlib.PurePosixPath` of a text: its parts and its text again
pub record PosixPath : Type 0 where
  pub show : String → String
  pub parts : String → List String
  pub is_absolute : String → Bool
  pub name : String → String
  pub stem : String → String
  pub suffix : String → String

pub record PolicyVerifier : Type 0 where
  pub forbidden_paths : List String
  pub require_tests : Bool
  pub trust_policy : WorkerTrustPolicy
  pub require_explicit_scope : Bool

abbrev pub documentation_suffixes : List String
documentation_suffixes = ".md" ∷ ".markdown" ∷ ".rst" ∷ ".adoc" ∷ []

abbrev pub documentation_directories : List String
documentation_directories = "docs" ∷ "doc" ∷ "documentation" ∷ []

abbrev pub documentation_stems : List String
documentation_stems = "readme" ∷ "changelog" ∷ "release_notes" ∷ "release-notes" ∷ []

-- `path.replace("\\", "/")`
abbrev pub with_slashes : String → String
with_slashes = translate "\\" "/"

abbrev pub finding_if : Bool → String → List String
finding_if true finding = finding ∷ []
finding_if false finding = []

module _ (posix : PosixPath) where
  unfoldable pub normalize_repo_path : String → String
  normalize_repo_path path = strip_slashes (posix.show (with_slashes path))

  unfoldable pub path_matches_prefix : String → String → Bool
  path_matches_prefix path prefix =
      let normalized_path = normalize_repo_path path in
      let normalized_prefix = normalize_repo_path prefix in
      normalized_path == normalized_prefix
      || has_prefix (format (normalized_prefix ∷ "/" ∷ [])) normalized_path

  unfoldable pub is_forbidden : List String → String → Bool
  is_forbidden forbidden_prefixes path = any (path_matches_prefix path) forbidden_prefixes

  unfoldable pub forbidden_hits : List String → List String → List String
  forbidden_hits paths forbidden_prefixes = keep (is_forbidden forbidden_prefixes) paths

  unfoldable pub matches_any_allowed_path : List String → String → Bool
  matches_any_allowed_path allowed_paths path =
      contains "*" allowed_paths || any (path_matches_prefix path) allowed_paths

  unfoldable pub is_unsafe_repo_path : String → Bool
  is_unsafe_repo_path path =
      let normalized = with_slashes path in
      posix.is_absolute normalized || contains ".." (posix.parts normalized)

  abbrev pub in_directory : List String → Bool
  in_directory [] = false
  in_directory (part ∷ _) = contains (casefold part) documentation_directories

  unfoldable pub is_documentation_path : String → Bool
  is_documentation_path path =
      let parsed = normalize_repo_path path in
      not (posix.name parsed == "")
      && (in_directory (posix.parts parsed)
          || contains (casefold (posix.stem parsed)) documentation_stems
          || contains (casefold (posix.suffix parsed)) documentation_suffixes)

  unfoldable pub documentation_paths : List String → List String
  documentation_paths = keep is_documentation_path

  -- the findings on the paths outside the scope of the work item
  unfoldable pub scope_findings : PolicyVerifier → List String → List String → List String
  scope_findings verifier changed_files [] =
      finding_if (verifier.require_explicit_scope && not (is_nil changed_files)) (
        format (
          "Work item declares no allowed paths, so patch scope cannot be verified. "
          ∷ "Declare the paths the task may touch, or '" ∷ "*" ∷ "' for the whole repository."
          ∷ []))
  scope_findings verifier changed_files (a ∷ as') =
      let outside_scope = keep (λ p. not (matches_any_allowed_path (a ∷ as') p)) changed_files in
      finding_if (not (is_nil outside_scope))
        (format ("Patch changes files outside allowed paths: " ∷ join ", " outside_scope ∷ []))

  -- The findings in the order of the source.
  unfoldable pub patch_findings : PolicyVerifier → WorkItem → WorkerPatch → PatchScan → List String
  patch_findings verifier work_item worker_patch scan =
      let unsafe_paths = keep is_unsafe_repo_path scan.files in
      let hits = forbidden_hits scan.files verifier.forbidden_paths in
      finding_if (requires_patch_output verifier.trust_policy && strip worker_patch.patch == "")
        "Patch is empty."
      ++ finding_if (not (worker_patch.work_item_id == work_item.id))
          "Patch work item id does not match task."
      ++ finding_if (verifier.require_tests && is_nil work_item.verification_commands)
          "Work item has no verification commands."
      ++ finding_if (not (is_nil scan.problems)) (
          format
            ("Patch could not be parsed for scope verification: " ∷ join "; " scan.problems ∷ []))
      ++ finding_if (not (is_nil unsafe_paths))
          (format ("Patch contains unsafe repository paths: " ∷ join ", " unsafe_paths ∷ []))
      ++ finding_if (not (is_nil hits))
          (format ("Patch touches forbidden paths: " ∷ join ", " hits ∷ []))
      ++ scope_findings verifier scan.files work_item.allowed_paths

  unfoldable pub patch_report :
      PolicyVerifier → WorkItem → WorkerPatch → PatchScan → VerificationReport
  patch_report verifier work_item worker_patch scan =
      let findings = patch_findings verifier work_item worker_patch scan in
      let hits = forbidden_hits scan.files verifier.forbidden_paths in
      let policy = verifier.trust_policy in
      record {
        is_ok = is_nil findings;
        findings = findings;
        metrics =
            ("changed_files_count", count (pos (length scan.files)))
            ∷ ("forbidden_paths_touched_count", count (pos (length hits)))
            ∷ ("acceptance_criteria_count", count (pos (length work_item.acceptance_criteria)))
            ∷ ("verification_commands_count", count (pos (length work_item.verification_commands)))
            ∷ ("worker_trust_level", text (show_trust_level policy.level))
            ∷ ("worker_can_create_branch", flag (can_create_branch policy))
            ∷ ("worker_can_commit", flag (can_commit policy))
            ∷ ("patch_parse_problems_count", count (pos (length scan.problems)))
            ∷ [];
      }

  unfoldable pub verify_patch_before_apply :
      Python → PolicyVerifier → WorkItem → WorkerPatch → Result String VerificationReport
  verify_patch_before_apply python verifier work_item worker_patch =
      scan_patch python worker_patch.patch >>= λ scan.
      ok (patch_report verifier work_item worker_patch scan)

unfoldable pub verify_after_apply : WorkItem → Bool → Bool → VerificationReport
verify_after_apply work_item command_results_ok documentation_updated =
    let findings =
      finding_if (not command_results_ok) "One or more verification commands failed."
      ++ finding_if (is_nil work_item.acceptance_criteria)
          "Work item has no acceptance criteria." in
    record {
      is_ok = is_nil findings;
      findings = findings;
      metrics =
          ("acceptance_criteria_count", count (pos (length work_item.acceptance_criteria)))
          ∷ ("verification_commands_count", count (pos (length work_item.verification_commands)))
          ∷ ("documentation_updated", flag documentation_updated)
          ∷ [];
    }
