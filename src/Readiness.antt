-- ===== src/Readiness.antt =====
-- src/harness.rs: whether a database is the template that a caller asks for, by its metadata.
use postgres_test_harness.Base.{Bool, true, false, ◌&&◌, text_eq, Option, none, some}
use postgres_test_harness.Config.Project.{ProjectName}
use postgres_test_harness.Fingerprint.Hex.{TemplateFingerprint}
use postgres_test_harness.Fingerprint.Identity.{TemplateIdentity}
use postgres_test_harness.Metadata.Decimal.{ℤ, int_eq}
use postgres_test_harness.Metadata.Resource.{
  ResourceMetadata, TemplateState, initializing, ready, test, template,
}
use postgres_test_harness.Admin.Client.{DatabaseRecord}
use postgres_test_harness.Stale.Classify.{metadata_of}

abbrev pub fingerprint_eq : TemplateFingerprint → TemplateFingerprint → Bool
fingerprint_eq f g = text_eq f.bytes g.bytes

abbrev pub parent_eq : Option TemplateFingerprint → Option TemplateFingerprint → Bool
parent_eq none none = true
parent_eq (some f) (some g) = fingerprint_eq f g
parent_eq none (some g) = false
parent_eq (some f) none = false

abbrev pub state_eq : TemplateState → TemplateState → Bool
state_eq initializing initializing = true
state_eq ready ready = true
state_eq initializing ready = false
state_eq ready initializing = false

module _ (project : ProjectName) (identity : TemplateIdentity) (lock_key : ℤ) where
  unfoldable pub template_metadata_matches : ResourceMetadata → TemplateState → Bool
  template_metadata_matches (test m) state = false
  template_metadata_matches (template m) state =
      text_eq m.project.value project.value
      && (int_eq m.lock_key lock_key
          && (fingerprint_eq m.fingerprint identity.fingerprint
              && (parent_eq m.parent identity.parent && state_eq m.state state)))

  unfoldable pub recoverable_template_initialization : ResourceMetadata → Bool
  unfolding template_metadata_matches
  recoverable_template_initialization m = template_metadata_matches m initializing

  abbrev pub is_ready_metadata : Option ResourceMetadata → Bool
  is_ready_metadata none = false
  is_ready_metadata (some m) = template_metadata_matches m ready

  unfoldable pub template_record_is_ready : Option DatabaseRecord → Bool
  template_record_is_ready none = false
  template_record_is_ready (some r) = is_ready_metadata (metadata_of r.comment)
