-- ===== src/Tests/Names.antt =====
-- Names, fingerprints, metadata and configurations: the theorems of src/name.rs,
-- src/fingerprint.rs, src/metadata.rs and src/config.rs at concrete inputs.
use postgres_test_harness.Base.{
  err, invalid_image_reference, ℕ, ◌≡◌, ◌↔◌, refl, true, List, [], ◌∷◌, arith, Text, text, some, ok,
}
use postgres_test_harness.Config.Project.{ProjectName, IsProjectName}
use postgres_test_harness.Config.Harness.{HarnessConfig, default_config, with_connection_budget}
use postgres_test_harness.Config.Usable.{Built, start, then_set, to_budget}
use postgres_test_harness.Config.Image.{ImageReference, has_white}
use postgres_test_harness.Config.Image
use postgres_test_harness.Name.{DatabaseName, test_kind, template_kind, from_existing}
use postgres_test_harness.Fingerprint.Hex.{TemplateFingerprint, IsFingerprint}
use postgres_test_harness.Fingerprint.Identity.{StepSpec}
use postgres_test_harness.Fingerprint.Lineage.{AreFrames, IsLineage, finish_root-injective}
use postgres_test_harness.Metadata.Decimal.{negsuc, pos}
use postgres_test_harness.Metadata.Resource.{
  ResourceMetadata, initializing, TemplateMetadata, template, ready, encode, parse,
}
use postgres_test_harness.Fingerprint.Identity.{TemplateIdentity}
use postgres_test_harness.Metadata.Resource.{new_template}
use postgres_test_harness.Readiness.{template_record_is_ready}
use postgres_test_harness.Initialization.{TemplateRequest, is_recoverable_metadata}
use postgres_test_harness.Initialization.Recorded.{IsAsked, written_template_is_read}
use postgres_test_harness.Stale.Classify.{metadata_of}
use postgres_test_harness.Metadata.RoundTrip.{IsTemplate, parse-encode}

abbrev pub credit : ProjectName
credit = record { value = text "credit" }

pub credit-IsProjectName : IsProjectName (text "credit")
credit-IsProjectName = record { short = omega arith; letter = refl; bytes = refl }

abbrev pub tested : DatabaseName
tested = record {
  value = text "pgh_credit_test_0123456789abcdef0123456789abcdef";
  kind = test_kind;
}

abbrev thirty_two : List ℕ
thirty_two =
    0 ∷ 1 ∷ 2 ∷ 3 ∷ 4 ∷ 5 ∷ 6 ∷ 7 ∷ 8 ∷ 9 ∷ 10 ∷ 11 ∷ 12 ∷ 13 ∷ 14 ∷ 15 ∷ 240 ∷ 241 ∷ 242 ∷ 243
    ∷ 244 ∷ 245 ∷ 246 ∷ 247 ∷ 248 ∷ 249 ∷ 250 ∷ 251 ∷ 252 ∷ 253 ∷ 254 ∷ 255 ∷ []

abbrev print : TemplateFingerprint
print = record { bytes = thirty_two }

print-IsFingerprint : IsFingerprint print
print-IsFingerprint = record { size = refl; range = omega arith }

tested-recognised : from_existing credit tested.value ≡ some tested
unfolding from_existing
tested-recognised = refl

-- The hash that keeps its input has no collisions.
abbrev kept : List ℕ → List ℕ
kept bytes = bytes

abbrev schema : List (List ℕ × List ℕ)
schema = (text "schema", text "v1") ∷ []

schema-AreFrames : AreFrames (text "app") schema
schema-AreFrames = omega arith

step : StepSpec
step = record { bytes = thirty_two }

step-IsLineage : IsLineage print step
unfolding step
step-IsLineage = record { parent_size = refl; step_size = refl }

finish_root-injective_example : (text "app" ≡ text "app") × (schema ≡ schema)
finish_root-injective_example =
    finish_root-injective kept (text "app") (text "app") schema schema schema-AreFrames
      schema-AreFrames (λ e. e) refl

abbrev metadata : TemplateMetadata
metadata = record {
  project = credit;
  lock_key = negsuc 41;
  fingerprint = print;
  parent = some print;
  state = ready;
  created_at = 1764000000;
}

metadata-IsTemplate : IsTemplate metadata
metadata-IsTemplate = record {
  project = credit-IsProjectName;
  lock_key = omega arith;
  fingerprint = print-IsFingerprint;
  parent = print-IsFingerprint;
  created_at = omega arith;
}

parse-encode_example : parse (encode (template metadata)) ≡ some (template metadata)
parse-encode_example = parse-encode (template metadata) metadata-IsTemplate

abbrev pub asked_for : TemplateIdentity
asked_for = record { fingerprint = print; parent = some print }

abbrev asker : TemplateRequest
asker = record {
  project = credit;
  template_wait_timeout = 60000000000;
  operation_timeout = 30000000000;
  name = record { value = text "pgh_credit_template_1"; kind = template_kind };
  identity = asked_for;
  lock_key = negsuc 41;
  coordination_key = pos 12;
}

abbrev written : ResourceMetadata
written = new_template 1764000000 credit (negsuc 41) asked_for ready

written_template_is_read_example :
    ((template_record_is_ready credit asked_for
          (negsuc 41)
          (some (record { name = text "pgh_credit_template_1"; comment = some (encode written) }))
        ≡ true)
      ↔ (IsAsked 1764000000 credit (negsuc 41) asked_for (text "pgh_credit_template_1") asker
          × (ready ≡ ready)))
    × ((is_recoverable_metadata asker (metadata_of (some (encode written))) ≡ true) ↔ (
        IsAsked 1764000000 credit (negsuc 41) asked_for (text "pgh_credit_template_1") asker
        × (ready ≡ initializing)))
unfolding new_template
written_template_is_read_example =
    written_template_is_read 1764000000 credit (negsuc 41) asked_for (text "pgh_credit_template_1")
      asker ready metadata-IsTemplate

abbrev small : HarnessConfig
small = record (default_config credit) { connection_budget_override = some 5 }

small-Built : Built credit small
unfolding with_connection_budget
small-Built = then_set start (to_budget 5 refl)

abbrev registry : Text
registry = text "registry.example:5000/postgres"

abbrev pinned : Text
pinned = text "registry.example:5000/postgres@sha256:abc"

-- A registry's port is no tag, and a digest is kept.
pinned-parse :
    Image.parse pinned ≡ ok (record { repository = registry; tag = text "latest@sha256:abc" })
unfolding Image.parse
pinned-parse = refl

spaced-parse :
    Image.parse (text "postgres 18")
    ≡ err (invalid_image_reference (text "the image must be non-empty and contain no whitespace"))
unfolding Image.parse
spaced-parse = refl
