-- ===== src/Fingerprint/Identity.antt =====
-- src/fingerprint.rs: the builder, root and step specifications, and a template's identity.
-- A builder holds the bytes that its digest has been given.
use postgres_test_harness.Base.{ℕ, List, [], ◌++◌, text, Option, none, some}
use postgres_test_harness.Fingerprint.Hex.{TemplateFingerprint}
use postgres_test_harness.Fingerprint.Frames.{frame}

pub record FingerprintBuilder : Type 0 where
  pub digested : List ℕ

pub record RootSpec : Type 0 where
  pub fingerprint : TemplateFingerprint

pub record StepSpec : Type 0 where
  pub bytes : List ℕ

pub record TemplateIdentity : Type 0 where
  pub fingerprint : TemplateFingerprint
  pub parent : Option TemplateFingerprint

abbrev pub template_domain : List ℕ
template_domain = text "postgres-test-harness-template-v1"

abbrev pub derived_domain : List ℕ
derived_domain = text "postgres-test-harness-derived-template-v1"

unfoldable pub add_frame : List ℕ → FingerprintBuilder → FingerprintBuilder
add_frame bytes b = record b { digested = b.digested ++ frame bytes }

unfoldable pub new : List ℕ → FingerprintBuilder
unfolding add_frame
new domain = add_frame domain (add_frame template_domain (record { digested = [] }))

unfoldable pub add : List ℕ → List ℕ → FingerprintBuilder → FingerprintBuilder
unfolding add_frame
add label content b = add_frame content (add_frame label b)

module _ (sha256 : List ℕ → List ℕ) where
  unfoldable pub finish_root : FingerprintBuilder → RootSpec
  finish_root b = record { fingerprint = record { bytes = sha256 b.digested } }

  unfoldable pub finish_step : FingerprintBuilder → StepSpec
  finish_step b = record { bytes = sha256 b.digested }

  unfoldable pub derived_fingerprint : TemplateFingerprint → StepSpec → TemplateFingerprint
  derived_fingerprint parent step = record {
    bytes = sha256 (frame derived_domain ++ frame parent.bytes ++ frame step.bytes);
  }

  unfoldable pub derived : TemplateFingerprint → StepSpec → TemplateIdentity
  unfolding derived_fingerprint
  derived parent step = record {
    fingerprint = derived_fingerprint parent step;
    parent = some parent;
  }

unfoldable pub root : RootSpec → TemplateIdentity
root spec = record { fingerprint = spec.fingerprint; parent = none }
