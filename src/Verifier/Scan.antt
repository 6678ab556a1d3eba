-- ===== src/Verifier/Scan.antt =====
-- `scan_patch` of src/llm_harness/verifier.py: the paths that a patch touches, and what of it cannot
-- be read.
use Prim.Native.String.{String}
use Prim.Native.Char.{code}
use ho_h.Prelude.{
  ℕ, ◌-◌, Bool, true, false, not, ◌&&◌, ◌||◌, Option, none, some, List, [], ◌∷◌, ◌++◌, ◌==◌,
  string_eq, format, ltb, if◌then◌else◌,
}
use ho_h.Prelude.Chars.{number_eq, strip, after_prefix, has_prefix, split_lines}
use ho_h.Prelude.Exec.{Result, ok}
use ho_h.Prelude.Lists.{is_nil}
use ho_h.Prelude.Members.{unique}
use ho_h.Prelude.Results.{◌>>=◌}
use ho_h.Verifier.Quoted.{Utf8}
use ho_h.Verifier.Headers.{present, git_header_paths, decode_path_token}

pub record PatchScan : Type 0 where
  pub files : List String
  pub problems : List String

-- `PatchScan.ok`
unfoldable pub scan_ok : PatchScan → Bool
scan_ok scan = is_nil scan.problems

-- What the scan takes from Python: UTF-8, `repr` of a text, and `_HUNK_RE`, of whose match the groups
-- 2 and 4 are given as numbers.
pub record Python : Type 0 where
  pub utf8 : Utf8
  pub repr : String → String
  pub match_hunk : String → Option (Option ℕ × Option ℕ)

-- the local variables of the loop
pub record Scan : Type 0 where
  pub pending_header : Option String
  pub remaining_old : ℕ
  pub remaining_new : ℕ
  pub files : List String
  pub problems : List String

abbrev pub start : Scan
start = record {
  pending_header = none;
  remaining_old = 0;
  remaining_new = 0;
  files = [];
  problems = [];
}

abbrev pub or_one : Option ℕ → ℕ
or_one none = 1
or_one (some n) = n

-- `_hunk_body_step`
unfoldable pub hunk_body_step : String → Option (ℕ × ℕ)
hunk_body_step String.[] = some (1, 1)
hunk_body_step (String.◌∷◌ marker _) =
    if code marker == b' '
    then some (1, 1)
    else if code marker == b'-'
    then some (1, 0)
    else if code marker == b'+'
    then some (0, 1)
    else if code marker == 92
    then some (0, 0)
    else none

abbrev pub add_files : List String → Scan → Scan
add_files names scan = record {
  pending_header = scan.pending_header;
  remaining_old = scan.remaining_old;
  remaining_new = scan.remaining_new;
  files = scan.files ++ names;
  problems = scan.problems;
}

abbrev pub add_problem : String → Scan → Scan
add_problem problem scan = record {
  pending_header = scan.pending_header;
  remaining_old = scan.remaining_old;
  remaining_new = scan.remaining_new;
  files = scan.files;
  problems = scan.problems ++ problem ∷ [];
}

abbrev pub set_pending : Option String → Scan → Scan
set_pending header scan = record {
  pending_header = header;
  remaining_old = scan.remaining_old;
  remaining_new = scan.remaining_new;
  files = scan.files;
  problems = scan.problems;
}

abbrev pub set_remaining : ℕ → ℕ → Scan → Scan
set_remaining old new scan = record {
  pending_header = scan.pending_header;
  remaining_old = old;
  remaining_new = new;
  files = scan.files;
  problems = scan.problems;
}

-- the texts behind `diff --cc ` or `diff --combined `
unfoldable pub after_combined : String → Option String
unfolding after_prefix
after_combined line = elim (after_prefix "diff --cc " line) [
  | some rest ↦ some rest
  | none ↦ after_prefix "diff --combined " line
]

-- What stands behind `--- ` and `+++ ` in a line and the next one.
unfoldable pub after_pair : String → Option String → Option (String × String)
unfolding after_prefix
after_pair line none = none
after_pair line (some next) = elim (after_prefix "--- " line) [
  | none ↦ none
  | some old ↦ elim (after_prefix "+++ " next) [ none ↦ none | some new ↦ some (old, new) ]
]

-- A result of one round: the variables, and whether the next line is taken as well.
abbrev pub Round : Type 0
Round = Result String (Scan × Bool)

module _ (python : Python) where
  abbrev pub unreadable_header : String → String
  unreadable_header header = format ("unreadable diff header " ∷ python.repr header ∷ [])

  -- the problem that a header still pending gives
  unfoldable pub report_pending : Scan → Scan
  report_pending scan = report scan.pending_header
    where
      report : Option String → Scan
      report none = scan
      report (some header) = add_problem (unreadable_header header) scan

  unfoldable pub hunk_counts : String → Option (ℕ × ℕ)
  hunk_counts line = elim (python.match_hunk line) [
    | none ↦ none
    | some (old, new) ↦ some (or_one old, or_one new)
  ]

  unfoldable pub read_hunk : Scan → String → Option (ℕ × ℕ) → Scan
  read_hunk scan line none =
      add_problem (format ("unreadable hunk header " ∷ python.repr (strip line) ∷ [])) scan
  read_hunk scan line (some (old, new)) = set_remaining old new scan

  unfoldable pub read_git : Scan → String → Option (List String) → Scan
  read_git scan line none = set_pending (some (strip line)) (report_pending scan)
  read_git scan line (some names) = add_files names (set_pending none (report_pending scan))

  unfoldable pub read_combined : Scan → String → Option String → Scan
  read_combined scan line none =
      add_problem (unreadable_header (strip line)) (set_pending none (report_pending scan))
  read_combined scan line (some name) =
      add_files (name ∷ []) (set_pending none (report_pending scan))

  unfoldable pub read_pair : Scan → String → List String → Scan
  read_pair scan line [] = set_pending none (
      add_problem (format ("unreadable unified diff header " ∷ python.repr (strip line) ∷ [])) scan)
  read_pair scan line (n ∷ ns) = set_pending none (add_files (n ∷ ns) scan)

  -- the branches of the loop outside the body of a hunk
  abbrev pub read_others : Scan → String → Option (String × String) → Round
  read_others scan line none = ok (scan, false)
  read_others scan line (some (old, new)) = decode_path_token python.utf8 old >>= λ old_name.
      decode_path_token python.utf8 new >>= λ new_name.
      ok (read_pair scan line (present (old_name ∷ new_name ∷ [])), true)

  abbrev pub read_from_combined : Scan → String → Option String → Option String → Round
  read_from_combined scan line next none = read_others scan line (after_pair line next)
  read_from_combined scan line next (some token) =
      decode_path_token python.utf8 token >>= λ name. ok (read_combined scan line name, false)

  abbrev pub read_from_git : Scan → String → Option String → Option String → Round
  read_from_git scan line next none = read_from_combined scan line next (after_combined line)
  read_from_git scan line next (some rest) =
      git_header_paths python.utf8 rest >>= λ names. ok (read_git scan line names, false)

  unfoldable pub read_header : Scan → String → Option String → Round
  unfolding after_prefix
  read_header scan line next = elim (has_prefix "@@" line) [
    | true ↦ ok (read_hunk scan line (hunk_counts line), false)
    | false ↦ read_from_git scan line next (after_prefix "diff --git " line)
  ]

  abbrev pub read_body : Scan → String → Option String → Option (ℕ × ℕ) → Round
  read_body scan line next none = read_header (set_remaining 0 0 scan) line next
  read_body scan line next (some (old, new)) =
      ok (set_remaining (scan.remaining_old - old) (scan.remaining_new - new) scan, false)

  -- one round of the loop
  unfoldable pub read_line : Scan → String → Option String → Round
  read_line scan line next = elim (ltb 0 scan.remaining_old || ltb 0 scan.remaining_new) [
    | true ↦ read_body scan line next (hunk_body_step line)
    | false ↦ read_header scan line next
  ]

  abbrev pub next_line : List String → Option String
  next_line [] = none
  next_line (line ∷ _) = some line

  -- the loop; the flag says that the first line is already taken
  unfoldable pub read_lines : List String → Bool → Scan → Result String Scan
  read_lines [] taken scan = ok scan
  read_lines (line ∷ lines) true scan = read_lines lines false scan
  read_lines (line ∷ lines) false scan =
      read_line scan line (next_line lines) >>= λ (after, taken). read_lines lines taken after

  -- what follows the loop
  unfoldable pub finish : String → Scan → PatchScan
  finish patch scan = close (report_pending scan)
    where
      close : Scan → PatchScan
      close last = record {
        files = unique last.files;
        problems =
            if not (strip patch == "") && is_nil last.files && is_nil last.problems
            then "patch declares no file paths" ∷ []
            else last.problems;
      }

  unfoldable pub scan_patch : String → Result String PatchScan
  unfolding split_lines
  scan_patch patch = read_lines (split_lines patch) false start >>= λ scan. ok (finish patch scan)

  unfoldable pub changed_files_from_patch : String → Result String (List String)
  changed_files_from_patch patch = scan_patch patch >>= λ scan. ok scan.files
