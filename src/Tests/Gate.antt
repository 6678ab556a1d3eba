-- ===== src/Tests/Gate.antt =====
-- The gate on patches, the search for cycles and a batch, at concrete inputs.
use Prim.Native.Char.{code}
use mathlib.Core.WellFounded.{WellFounded}
use ho_h.Prelude.{
  String, true, false, none, some, List, [], ◌∷◌, ◌≡◌, refl, ◌⊎◌, format, ◌==◌, string_eq,
  if◌then◌else◌,
}
use ho_h.Prelude.Chars.{has_prefix}
use ho_h.Prelude.Exec.{ok, err}
use ho_h.Domain.{WorkItem, WorkerPatch}
use ho_h.Trust.{WorkerTrustPolicy, patch_only}
use ho_h.State.Graph.{
  latest_tasks_by_id, queue_graph, visit_graph, cycle_error, check_dependencies,
  validate_enqueue_graph,
}
use ho_h.State.Graph.Cycles.{names_cycle, IsCycle}
use ho_h.State.Graph.Needed.{IsNeeded, combined}
use ho_h.State.Graph.Verdict.{HasKnownDependencies, queue_graph-decided, validate_enqueue_graph_iff}
use ho_h.Verifier.Scan.{Python, PatchScan, scan_patch}
use ho_h.Verifier.Gate.{PosixPath, PolicyVerifier, patch_report, verify_patch_before_apply}
use ho_h.Prelude.Int.{pos}
use ho_h.State.Schedule.{schedule, schedule_batch}
use ho_h.State.Schedule.Batch.{schedule_batch-first}
use ho_h.State.Records.{TaskReadiness}
use ho_h.Verifier.FailClosed.{verify_patch_before_apply-files}
use ho_h.Prelude.Lists.{All, is_nil}
use ho_h.Verifier.Safety.{IsAccepted, IsPermitted, verify_patch_before_apply-IsAccepted}
use ho_h.State.Records.{QueueTask, queued}
use ho_h.Tests.Samples.{item, task, three_tasks}

abbrev pub python : Python
python = record {
  utf8 = record { encode = λ c. code c ∷ []; decode = λ bytes. some "decoded" };
  repr = λ s. format ("'" ∷ s ∷ "'" ∷ []);
  match_hunk = λ line. if line == "@@ -1 +1 @@" then some (none, none) else none;
}

abbrev pub posix : PosixPath
posix = record {
  show = λ s. s;
  parts = λ s. s ∷ [];
  is_absolute = has_prefix "/";
  name = λ s. s;
  stem = λ s. s;
  suffix = λ _. "";
}

abbrev pub verifier : PolicyVerifier
verifier = record {
  forbidden_paths = ".git/" ∷ [];
  require_tests = true;
  trust_policy = record { level = patch_only };
  require_explicit_scope = true;
}

abbrev pub scoped_item : WorkItem
scoped_item = record (item "a" [] []) {
  verification_commands = "pytest" ∷ [];
  allowed_paths = "lib" ∷ [];
}

abbrev pub patch_text : String
patch_text =
    "diff --git a/lib/x y.py b/lib/x y.py\n--- a/lib/x y.py\n+++ b/lib/x y.py\n@@ -1 +1 @@\n-a\n+b\n"

abbrev pub patch : WorkerPatch
patch = record { worker_name = "w"; work_item_id = "a"; patch = patch_text; notes = "" }

abbrev pub patch_scan : PatchScan
patch_scan = record { files = "lib/x y.py" ∷ []; problems = [] }

scan_patch-run : scan_patch python patch_text ≡ ok patch_scan
unfolding scan_patch ho_h.Verifier.Scan.read_lines ho_h.Verifier.Scan.read_line
    ho_h.Verifier.Scan.read_header has_prefix ho_h.Verifier.Headers.git_header_paths
    ho_h.Prelude.String-discrete ho_h.Prelude.Chars.rstrip ho_h.Verifier.Scan.read_git
    ho_h.Verifier.Headers.chosen ho_h.Verifier.Headers.first_equal
    ho_h.Verifier.Headers.candidates_from ho_h.Verifier.Scan.report_pending
    ho_h.Verifier.Scan.after_combined ho_h.Verifier.Scan.after_pair
    ho_h.Verifier.Headers.decode_path_token ho_h.Prelude.Chars.before_char
    ho_h.Verifier.Scan.read_pair ho_h.Prelude.Chars.after_prefix ho_h.Prelude.Chars.split_lines
    ho_h.Prelude.Chars.strip ho_h.Prelude.Members.unique format ho_h.Verifier.Headers.distinct_names
    ho_h.Verifier.Headers.strip_diff_prefix ho_h.Verifier.Scan.finish
    ho_h.Verifier.Scan.hunk_body_step ho_h.Verifier.Scan.hunk_counts ho_h.Verifier.Scan.read_hunk
    ho_h.Prelude.ℕ_discrete
scan_patch-run = refl

verify_patch_before_apply-IsAccepted_example :
    (scan : PatchScan) × (scan_patch python patch_text ≡ ok scan)
    × IsAccepted posix verifier scoped_item patch scan
unfolding verify_patch_before_apply ho_h.Prelude.Chars.strip_slashes ho_h.Prelude.Chars.translate
    ho_h.Prelude.Lists.any ho_h.Prelude.Lists.keep ho_h.Prelude.contains format
    ho_h.Trust.WorkerTrustLevel-discrete ho_h.Trust.requires_patch_output
    ho_h.Verifier.Gate.forbidden_hits ho_h.Verifier.Gate.is_forbidden
    ho_h.Verifier.Gate.is_unsafe_repo_path ho_h.Verifier.Gate.matches_any_allowed_path
    ho_h.Verifier.Gate.normalize_repo_path ho_h.Verifier.Gate.patch_findings patch_report
    ho_h.Verifier.Gate.path_matches_prefix ho_h.Verifier.Gate.scope_findings
    ho_h.Prelude.Chars.strip has_prefix ho_h.Prelude.Chars.after_prefix ho_h.Prelude.String-discrete
    ho_h.Prelude.ℕ_discrete
verify_patch_before_apply-IsAccepted_example =
    (verify_patch_before_apply-IsAccepted posix verifier python scoped_item patch).0
      (patch_report posix verifier scoped_item patch patch_scan, rw scan_patch-run refl, refl)

abbrev pub looping : List QueueTask
looping = task queued (item "a" ("b" ∷ []) []) ∷ task queued (item "b" ("a" ∷ []) []) ∷ []

queue_graph-decided_example :
    ((visited : List String) × (visit_graph (queue_graph (combined looping [])) ≡ ok visited)
      × WellFounded (IsNeeded looping []))
    ⊎ ((cycle : List String) × (visit_graph (queue_graph (combined looping []))
          ≡ err (names_cycle cycle))
        × IsCycle (IsNeeded looping []) cycle)
queue_graph-decided_example = queue_graph-decided looping []

validate_enqueue_graph_iff_example :
    All
      (HasKnownDependencies three_tasks (item "d" ("b" ∷ []) [] ∷ []))
      (item "d" ("b" ∷ []) [] ∷ [])
    × WellFounded (IsNeeded three_tasks (item "d" ("b" ∷ []) [] ∷ []))
unfolding validate_enqueue_graph ho_h.Prelude.Dict.put ho_h.State.Records.TaskStatus-discrete
    ho_h.Prelude.contains ho_h.Prelude.Dict.lookup ho_h.Prelude.String-discrete
validate_enqueue_graph_iff_example =
    (validate_enqueue_graph_iff three_tasks (item "d" ("b" ∷ []) [] ∷ [])).0 refl

verify_patch_before_apply-files_example :
    (scan : PatchScan) × (scan_patch python patch_text ≡ ok scan)
    × (scan.problems ≡ [])
    × (is_nil scan.files ≡ false)
    × All (IsPermitted posix verifier scoped_item) scan.files
unfolding verify_patch_before_apply ho_h.Prelude.Chars.strip_slashes ho_h.Prelude.Chars.translate
    ho_h.Prelude.Lists.any ho_h.Prelude.Lists.keep ho_h.Prelude.contains format
    ho_h.Trust.WorkerTrustLevel-discrete ho_h.Trust.requires_patch_output
    ho_h.Verifier.Gate.forbidden_hits ho_h.Verifier.Gate.is_forbidden
    ho_h.Verifier.Gate.is_unsafe_repo_path ho_h.Verifier.Gate.matches_any_allowed_path
    ho_h.Verifier.Gate.normalize_repo_path ho_h.Verifier.Gate.patch_findings patch_report
    ho_h.Verifier.Gate.path_matches_prefix ho_h.Verifier.Gate.scope_findings
    ho_h.Prelude.Chars.strip has_prefix ho_h.Prelude.Chars.after_prefix ho_h.Prelude.String-discrete
    ho_h.Prelude.ℕ_discrete
verify_patch_before_apply-files_example =
    verify_patch_before_apply-files posix python verifier scoped_item patch
      (patch_report posix verifier scoped_item patch patch_scan) refl (rw scan_patch-run refl) refl

abbrev ready_task : TaskReadiness
ready_task = record {
  task = task queued (item "b" ("a" ∷ []) ("src" ∷ []));
  ready = true;
  blockers = [];
}

schedule_batch-first_example :
    (rest : List QueueTask) × (schedule_batch (pos 2) three_tasks ≡ ok (ready_task.task ∷ rest))
unfolding schedule ho_h.State.Records.TaskStatus-discrete ho_h.Prelude.Dict.lookup
    ho_h.State.Graph.dependency_blockers ho_h.Prelude.String-discrete latest_tasks_by_id
    ho_h.Prelude.Dict.put
schedule_batch-first_example = schedule_batch-first (pos 2) three_tasks ready_task [] refl refl
