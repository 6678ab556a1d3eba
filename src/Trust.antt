-- ===== src/Trust.antt =====
-- src/llm_harness/trust.py: what a worker may do.
use ho_h.Prelude.{
  String, Bool, not, ◌||◌, Option, none, some, [], ◌∷◌, ◌==◌, Eq, string_eq, format, if◌then◌else◌,
}
use ho_h.Prelude.Exec.{Result, ok, err}

pub data WorkerTrustLevel : Type 0 where
  patch_only branch_only branch_and_commit : WorkerTrustLevel

unfoldable pub WorkerTrustLevel-discrete : Discrete WorkerTrustLevel
WorkerTrustLevel-discrete = hlevel

instance abbrev pub trust_level_eq : Eq WorkerTrustLevel
trust_level_eq = record { dec = WorkerTrustLevel-discrete }

abbrev pub show_trust_level : WorkerTrustLevel → String
show_trust_level patch_only = "patch_only"
show_trust_level branch_only = "branch_only"
show_trust_level branch_and_commit = "branch_and_commit"

pub record WorkerTrustPolicy : Type 0 where
  pub level : WorkerTrustLevel

unfoldable pub requires_patch_output : WorkerTrustPolicy → Bool
requires_patch_output policy = policy.level == patch_only || policy.level == branch_only

unfoldable pub can_create_branch : WorkerTrustPolicy → Bool
can_create_branch policy = policy.level == branch_only || policy.level == branch_and_commit

unfoldable pub can_commit : WorkerTrustPolicy → Bool
can_commit policy = policy.level == branch_and_commit

unfoldable pub supervisor_must_commit : WorkerTrustPolicy → Bool
supervisor_must_commit policy = not (can_commit policy)

-- `WorkerTrustLevel(value)`
unfoldable pub trust_level_of : String → Option WorkerTrustLevel
trust_level_of value =
    if value == "patch_only"
    then some patch_only
    else if value == "branch_only"
    then some branch_only
    else if value == "branch_and_commit"
    then some branch_and_commit
    else none

-- the test against `IMPLEMENTED_WORKER_TRUST_LEVELS`
unfoldable pub implemented : WorkerTrustLevel → Result String WorkerTrustLevel
implemented patch_only = ok patch_only
implemented level = err (
    format (
      "Worker trust level '"
      ∷ show_trust_level level
      ∷ "' is not supported in this release. "
      ∷ "HoH grants the Worker no Git authority at all: it works in a disposable worktree "
      ∷ "and returns a patch. Use 'patch_only'."
      ∷ []))

-- `parse_worker_trust_level` of a text, with the message of its `ValueError`
unfoldable pub parse_worker_trust_level : String → Result String WorkerTrustLevel
parse_worker_trust_level value = elim (trust_level_of value) [
  | none ↦ err (
      format (
        "Unknown worker trust level '" ∷ value
        ∷ "'. Allowed values: patch_only, branch_only, branch_and_commit" ∷ []))
  | some level ↦ implemented level
]
