-- ===== src/Admin/Keys.antt =====
-- src/admin.rs and src/harness.rs: the keys of advisory locks. `sha256` stands for the hash.
use postgres_test_harness.Base.{
  ℕ, zero, suc, ◌+◌, ◌-◌, ◌*◌, ◌^◌, List, [], ◌∷◌, ◌++◌, Text, text, ltb, if◌then◌else◌,
}
use postgres_test_harness.Config.Project.{ProjectName}
use postgres_test_harness.Fingerprint.Hex.{TemplateFingerprint, to_hex}
use postgres_test_harness.Fingerprint.Frames.{frame}
use postgres_test_harness.Metadata.Decimal.{ℤ, pos, negsuc, i64_half}

-- A number in base 256, of so many bytes, the most significant first.
abbrev pub from_be : ℕ → List ℕ → ℕ → ℕ
from_be zero bytes n = n
from_be (suc k) [] n = n
from_be (suc k) (b ∷ bytes) n = from_be k bytes (n * 256 + b)

-- A u64 as an i64, in two's complement.
abbrev pub as_i64 : ℕ → ℤ
as_i64 n = if ltb n i64_half then pos n else negsuc (2 ^ 64 - 1 - n)

module _ (sha256 : List ℕ → List ℕ) where
  -- What is hashed: the prefix, and the frames of the domain and the identity.
  abbrev pub key_input : Text → Text → List ℕ
  key_input domain identity =
      text "postgres-test-harness-advisory-v1" ++ (frame domain ++ frame identity)

  unfoldable pub advisory_key : Text → Text → ℤ
  advisory_key domain identity = as_i64 (from_be 8 (sha256 (key_input domain identity)) 0)

  abbrev pub key_identity : ProjectName → TemplateFingerprint → Text
  key_identity project fingerprint = project.value ++ (text ":" ++ to_hex fingerprint)

  unfoldable pub template_lock_key : ProjectName → TemplateFingerprint → ℤ
  unfolding advisory_key
  template_lock_key project fingerprint =
      advisory_key (text "template") (key_identity project fingerprint)

  unfoldable pub template_coordination_key : ProjectName → TemplateFingerprint → ℤ
  unfolding advisory_key
  template_coordination_key project fingerprint =
      advisory_key (text "template-coordination") (key_identity project fingerprint)
