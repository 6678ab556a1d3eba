-- ===== src/State/Paths.antt =====
-- The ledgers of src/llm_harness/state.py that hold a path: audits and review bundles are written
-- with the path relative to the root, and read back under it.
use ho_h.Prelude.{
  String, Bool, true, false, Option, none, some, [], ◌∷◌, ◌≡◌, ◌⊎◌, inl, inr, refl, String-discrete,
  if◌then◌else◌,
}
use ho_h.Prelude.Exec.{ok}
use ho_h.Json.{Json, flag, int, str, object, get}
use ho_h.State.Records.{AuditRecord, ReviewBundleRecord}
use ho_h.Prelude.Results.{◌>>=◌}
use ho_h.State.Values.{Python, Decoded, at_key, expect_object, str_of, int_of, truthy, str_at}

-- `pathlib`, on the text of paths: `path.relative_to(root)` with `none` for its `ValueError`,
-- `is_absolute` and `root / path`.
pub record Pathlib : Type 0 where
  pub relative_to : String → String → Option String
  pub is_absolute : String → Bool
  pub joined : String → String → String

-- What pathlib documents: a path relative to the root is not absolute, and joined to the root again
-- it is the path.
pub record IsLawful (lib : Pathlib) : Type 0 where
  pub relative :
      (root path p : String) → lib.relative_to path root ≡ some p → lib.is_absolute p ≡ false
  pub rejoined :
      (root path p : String) → lib.relative_to path root ≡ some p → lib.joined root p ≡ path

module _ (py : Python) (lib : Pathlib) where
  abbrev or_path : String → Option String → String
  or_path path none = path
  or_path path (some p) = p

  -- `_relative_or_absolute`
  unfoldable pub relative_or_absolute : String → String → String
  relative_or_absolute root path = or_path path (lib.relative_to path root)

  -- `path if path.is_absolute() else root / path`
  unfoldable pub under_root : String → String → String
  under_root root path = if lib.is_absolute path then path else lib.joined root path

  unfoldable pub audit_record_to_json : AuditRecord → String → Json
  audit_record_to_json r root = object (
      ("audit_id", str r.audit_id)
      ∷ ("created_at_utc", str r.created_at_utc)
      ∷ ("ok", flag r.is_ok)
      ∷ ("report_path", str (relative_or_absolute root r.report_path))
      ∷ ("findings_count", int r.findings_count)
      ∷ ("command_results_count", int r.command_results_count)
      ∷ [])

  unfoldable pub audit_record_from_json : Json → String → Decoded AuditRecord
  audit_record_from_json v root = expect_object "Audit report entry must be an object." v >>= λ d.
      str_at py "report_path" d >>= λ path. str_at py "audit_id" d >>= λ audit_id.
      str_at py "created_at_utc" d >>= λ created. at_key "ok" d >>= λ is_ok.
      (at_key "findings_count" d >>= int_of py) >>= λ findings.
      (at_key "command_results_count" d >>= int_of py) >>= λ results. ok (record {
        audit_id = audit_id;
        created_at_utc = created;
        is_ok = truthy py is_ok;
        report_path = under_root root path;
        findings_count = findings;
        command_results_count = results;
      })

  unfoldable pub review_bundle_record_to_json : ReviewBundleRecord → String → Json
  review_bundle_record_to_json r root = object (
      ("bundle_id", str r.bundle_id)
      ∷ ("created_at_utc", str r.created_at_utc)
      ∷ ("run_id", str r.run_id)
      ∷ ("work_item_id", str r.work_item_id)
      ∷ ("commit", str r.commit)
      ∷ ("bundle_sha256", str r.bundle_sha256)
      ∷ ("bundle_path", str (relative_or_absolute root r.bundle_path))
      ∷ [])

  unfoldable pub review_bundle_record_from_json : Json → String → Decoded ReviewBundleRecord
  review_bundle_record_from_json v root =
      expect_object "Review bundle record must be an object." v >>= λ d.
      str_at py "bundle_path" d >>= λ path. str_at py "bundle_id" d >>= λ bundle_id.
      str_at py "created_at_utc" d >>= λ created. str_at py "run_id" d >>= λ run_id.
      str_at py "work_item_id" d >>= λ work_item_id. str_at py "commit" d >>= λ commit.
      str_at py "bundle_sha256" d >>= λ sha256. ok (record {
        bundle_id = bundle_id;
        created_at_utc = created;
        run_id = run_id;
        work_item_id = work_item_id;
        commit = commit;
        bundle_sha256 = sha256;
        bundle_path = under_root root path;
      })

  -- a path under the root, or an absolute one
  abbrev pub IsStorable : String → String → Type 0
  IsStorable root path =
      ((p : String) × (lib.relative_to path root ≡ some p))
      ⊎ ((lib.relative_to path root ≡ none) × (lib.is_absolute path ≡ true))

  under_root_lem :
      (root path : String)
      → IsLawful lib
      → IsStorable root path
      → under_root root (relative_or_absolute root path) ≡ path
  unfolding under_root relative_or_absolute
  under_root_lem root path law (inl (p, below)) =
      rw (below, law.relative root path p below) (law.rejoined root path p below)
  under_root_lem root path law (inr (elsewhere, absolute)) = rw (elsewhere, absolute) refl

  -- With pathlib as documented, an audit whose report lies under the root or at an absolute path is
  -- read back as it was written.
  pub audit_record_from_json-audit_record_to_json :
      (r : AuditRecord) (root : String)
      → IsLawful lib
      → IsStorable root r.report_path
      → audit_record_from_json (audit_record_to_json r root) root ≡ ok r
  unfolding audit_record_from_json audit_record_to_json expect_object str_at at_key get str_of
      truthy int_of String-discrete
  audit_record_from_json-audit_record_to_json r root law storable =
      rw (under_root_lem root r.report_path law storable) refl

  -- With pathlib as documented, a review bundle whose file lies under the root or at an absolute path
  -- is read back as it was written.
  pub review_bundle_record_from_json-review_bundle_record_to_json :
      (r : ReviewBundleRecord) (root : String)
      → IsLawful lib
      → IsStorable root r.bundle_path
      → review_bundle_record_from_json (review_bundle_record_to_json r root) root ≡ ok r
  unfolding review_bundle_record_from_json review_bundle_record_to_json expect_object str_at at_key
      get str_of String-discrete
  review_bundle_record_from_json-review_bundle_record_to_json r root law storable =
      rw (under_root_lem root r.bundle_path law storable) refl
