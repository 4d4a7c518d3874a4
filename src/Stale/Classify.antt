-- ===== src/Stale/Classify.antt =====
-- src/harness.rs: what the stale pass decides about one database. Ages are in seconds.
use postgres_test_harness.Base.{
  ℕ, suc, ◌+◌, ◌-◌, Bool, true, false, not, ◌&&◌, ◌||◌, ltb, if◌then◌else◌, Text, text_eq, Option,
  none, some, Result, ok, err,
}
use postgres_test_harness.Config.Project.{ProjectName}
use postgres_test_harness.Name.{DatabaseName, DatabaseKind, test_kind, template_kind, from_existing}
use postgres_test_harness.Name
use postgres_test_harness.Metadata.Decimal.{ℤ, int_eq}
use postgres_test_harness.Metadata.Resource.{
  ResourceMetadata, test, template, parse, project_of, created_at_of, lock_key_of,
}
use postgres_test_harness.Admin.Client.{DatabaseRecord}

pub record CleanupReport : Type 0 where
  pub dropped_test_databases : ℕ
  pub dropped_templates : ℕ
  pub skipped_active : ℕ
  pub skipped_fresh : ℕ
  pub skipped_unrecognized : ℕ

unfoldable pub total_dropped : CleanupReport → ℕ
total_dropped r = r.dropped_test_databases + r.dropped_templates

abbrev pub empty_report : CleanupReport
empty_report = record {
  dropped_test_databases = 0;
  dropped_templates = 0;
  skipped_active = 0;
  skipped_fresh = 0;
  skipped_unrecognized = 0;
}

pub data CleanupClassification : Type 0 where
  ignore unrecognized fresh : CleanupClassification
  candidate : DatabaseName → ℤ → CleanupClassification

abbrev pub kind_eq : DatabaseKind → DatabaseKind → Bool
kind_eq test_kind test_kind = true
kind_eq template_kind template_kind = true
kind_eq test_kind template_kind = false
kind_eq template_kind test_kind = false

-- The source panics where the template's name is an error.
abbrev pub is_name : Result DatabaseName → DatabaseName → Bool
is_name (ok n) name = text_eq n.value name.value && kind_eq n.kind name.kind
is_name (err e) name = false

unfoldable pub metadata_matches_name : ResourceMetadata → DatabaseName → Bool
metadata_matches_name (test m) name = kind_eq name.kind test_kind
metadata_matches_name (template m) name =
    kind_eq name.kind template_kind && is_name (Name.template m.project m.fingerprint) name

abbrev pub comment_eq : Option Text → Option Text → Bool
comment_eq none none = true
comment_eq (some s) (some t) = text_eq s t
comment_eq none (some t) = false
comment_eq (some s) none = false

-- `record.comment.as_deref().and_then(ResourceMetadata::parse)`.
abbrev pub metadata_of : Option Text → Option ResourceMetadata
metadata_of none = none
metadata_of (some comment) = parse comment

-- `current == snapshot`.
abbrev pub record_eq : DatabaseRecord → DatabaseRecord → Bool
record_eq r s = text_eq r.name s.name && comment_eq r.comment s.comment

unfoldable pub revalidated :
    Bool → ℤ → CleanupReport → CleanupClassification → Option DatabaseName × CleanupReport
revalidated same held_key report ignore = (none, report)
revalidated same held_key report unrecognized =
    (none, record report { skipped_unrecognized = suc report.skipped_unrecognized })
revalidated same held_key report fresh =
    (none, record report { skipped_fresh = suc report.skipped_fresh })
revalidated same held_key report (candidate name lock_key) =
    if same && int_eq lock_key held_key then (some name, report) else (none, report)

module _ (project : ProjectName) (now stale_after : ℕ) where
  unfoldable pub classify_metadata : DatabaseName → Option ResourceMetadata → CleanupClassification
  classify_metadata name none = unrecognized
  classify_metadata name (some m) =
      if not (text_eq (project_of m).value project.value) || not (metadata_matches_name m name)
      then unrecognized
      else if ltb (now - created_at_of m) stale_after
      then fresh
      else candidate name (lock_key_of m)

  unfoldable pub classify_name : Option DatabaseName → Option Text → CleanupClassification
  classify_name none comment = ignore
  classify_name (some name) comment = classify_metadata name (metadata_of comment)

  unfoldable pub classify_cleanup_record : DatabaseRecord → CleanupClassification
  classify_cleanup_record r = classify_name (from_existing project r.name) r.comment

  unfoldable pub revalidate_cleanup_candidate :
      DatabaseRecord
      → Option DatabaseRecord
      → ℤ
      → CleanupReport
      → Option DatabaseName × CleanupReport
  unfolding revalidated
  revalidate_cleanup_candidate snapshot none held_key report = (none, report)
  revalidate_cleanup_candidate snapshot (some current) held_key report =
      revalidated (record_eq current snapshot) held_key report (classify_cleanup_record current)
