-- ===== src/Name.antt =====
-- src/name.rs: the names of managed databases. A version-7 UUID's simple form is a parameter.
pub mod Laws
pub mod Namespace
use postgres_test_harness.Base.{
  ℕ, Bool, true, false, not, ◌&&◌, List, [], ◌∷◌, ◌++◌, leb, ◌==◌, if◌then◌else◌, length, all, Text,
  text, strip_prefix, Option, none, some, invalid_database_name, Result, ok, err,
}
use postgres_test_harness.Config.Project.{ProjectName, is_name_byte, is_empty}
use postgres_test_harness.Fingerprint.Hex.{TemplateFingerprint, short_hex, is_lower_hex}

abbrev pub identifier_max_len : ℕ
identifier_max_len = 63

pub data DatabaseKind : Type 0 where
  test_kind template_kind : DatabaseKind

pub record DatabaseName : Type 0 where
  pub value : Text
  pub kind : DatabaseKind

unfoldable pub new : Text → DatabaseKind → Result DatabaseName
new value kind =
    if not (is_empty value) && (leb (length value) identifier_max_len && all is_name_byte value)
    then ok (record { value = value; kind = kind })
    else err (invalid_database_name value)

abbrev pub test_prefix : ProjectName → Text
test_prefix project = text "pgh_" ++ (project.value ++ text "_test_")

abbrev pub template_prefix : ProjectName → Text
template_prefix project = text "pgh_" ++ (project.value ++ text "_template_")

-- The source unwraps this result by `expect`: an error here is a panic there.
unfoldable pub test : ProjectName → Text → Result DatabaseName
unfolding new
test project uuid = new (test_prefix project ++ uuid) test_kind

-- Unwrapped likewise.
unfoldable pub template : ProjectName → TemplateFingerprint → Result DatabaseName
unfolding new
template project fingerprint = new (template_prefix project ++ short_hex fingerprint) template_kind

unfoldable pub valid_hex_suffix : Text → ℕ → Bool
valid_hex_suffix suffix expected_len = length suffix == expected_len && all is_lower_hex suffix

abbrev pub to_option {ℓ} : {A : Type ℓ} → Result A → Option A
to_option (ok a) = some a
to_option (err e) = none

-- `valid_hex_suffix(..).then_some(kind)?` and then `new(..).ok()`.
unfoldable pub recognised : Text → DatabaseKind → Bool → Option DatabaseName
unfolding new
recognised value kind valid = if valid then to_option (new value kind) else none

unfoldable pub recognise_template : Text → Option Text → Option DatabaseName
unfolding recognised valid_hex_suffix
recognise_template value none = none
recognise_template value (some suffix) = recognised value template_kind (valid_hex_suffix suffix 24)

unfoldable pub recognise : Text → Option Text → Option Text → Option DatabaseName
unfolding recognised valid_hex_suffix recognise_template
recognise value (some suffix) rest = recognised value test_kind (valid_hex_suffix suffix 32)
recognise value none rest = recognise_template value rest

unfoldable pub from_existing : ProjectName → Text → Option DatabaseName
unfolding recognise
from_existing project value =
    recognise value (strip_prefix (test_prefix project) value)
      (strip_prefix (template_prefix project) value)

unfoldable pub quoted : DatabaseName → Text
quoted n = b'"' ∷ (n.value ++ b'"' ∷ [])
