-- ===== src/Name/Laws.antt =====
-- src/name.rs: what generated and recognised names are.
use postgres_test_harness.Base.{
  ℕ, ◌≤◌, ◌≡◌, refl, ◌∙◌, ◌⊎◌, inl, inr, Bool, true, [], ◌∷◌, ◌++◌, arith, le→leb, ==_iff, &&_iff,
  length, length-append, all, Text, text, strip_prefix, strip_prefix-append, strip_prefix_sound,
  Option, none, some, ok, append_assoc,
}
use postgres_test_harness.Config.Project.{ProjectName, is_name_byte, IsProjectName}
use postgres_test_harness.Fingerprint.Hex.{
  TemplateFingerprint, IsFingerprint, all-of-All, short_hex, short_hex-shape, is_lower_hex,
}
use postgres_test_harness.Name.{
  DatabaseKind, test_kind, template_kind, DatabaseName, new, test, template, test_prefix,
  template_prefix, valid_hex_suffix, recognised, recognise, recognise_template, from_existing,
}

all-append : (p : ℕ → Bool) (s t : Text) → all p s ≡ true → all p t ≡ true → all p (s ++ t) ≡ true
all-append p [] t hs ht = ht
all-append p (b ∷ s) t hs ht = ground (arith, all-append p s t)

all-implies :
    (p q : ℕ → Bool) (t : Text)
    → ((b : ℕ) → p b ≡ true → q b ≡ true)
    → all p t ≡ true
    → all q t ≡ true
all-implies p q [] i h = refl
all-implies p q (b ∷ t) i h = ground (arith, i b, all-implies p q t i)

lower_hex_is_name_byte : (b : ℕ) → is_lower_hex b ≡ true → is_name_byte b ≡ true
lower_hex_is_name_byte b h = ground arith

-- The suffixes of managed names.
abbrev pub IsHexSuffix : ℕ → Text → Type 0
IsHexSuffix n t = (length t ≡ n) × (all is_lower_hex t ≡ true)

module _ (p : ProjectName) (shape : IsProjectName p.value) where
  test_name-valid :
      (uuid : Text)
      → IsHexSuffix 32 uuid
      → (length (test_prefix p ++ uuid) ≤ 63) × (all is_name_byte (test_prefix p ++ uuid) ≡ true)
  test_name-valid uuid h = (
    omega (
      arith,
      h.0,
      shape.short,
      length-append (p.value ++ text "_test_") uuid,
      length-append p.value (text "_test_"),
    ),
    all-append is_name_byte (p.value ++ text "_test_") uuid
        (all-append is_name_byte p.value (text "_test_") shape.bytes refl)
        (all-implies is_lower_hex is_name_byte uuid lower_hex_is_name_byte h.1),
  )

  template_name-valid :
      (suffix : Text)
      → IsHexSuffix 24 suffix
      → (length (template_prefix p ++ suffix) ≤ 63)
        × (all is_name_byte (template_prefix p ++ suffix) ≡ true)
  template_name-valid suffix h = (
    omega (
      arith,
      h.0,
      shape.short,
      length-append (p.value ++ text "_template_") suffix,
      length-append p.value (text "_template_"),
    ),
    all-append is_name_byte (p.value ++ text "_template_") suffix
        (all-append is_name_byte p.value (text "_template_") shape.bytes refl)
        (all-implies is_lower_hex is_name_byte suffix lower_hex_is_name_byte h.1),
  )

new-valid :
    (b : ℕ) (t : Text) (kind : DatabaseKind)
    → (length (b ∷ t) ≤ 63) × (all is_name_byte (b ∷ t) ≡ true)
    → new (b ∷ t) kind ≡ ok (record { value = b ∷ t; kind = kind })
unfolding new
new-valid b t kind (short, bytes) = rw (le→leb _ _ short, bytes)

valid_hex_suffix-lem : (n : ℕ) (t : Text) → IsHexSuffix n t → valid_hex_suffix t n ≡ true
unfolding valid_hex_suffix
valid_hex_suffix-lem n t h = (&&_iff _ _).1 ((==_iff _ _).1 h.0, h.1)

strip-common : (a s t : Text) → strip_prefix (a ++ s) (a ++ t) ≡ strip_prefix s t
strip-common [] s t = refl
strip-common (b ∷ a) s t = ground (arith, strip-common a s t)

template_is_no_test :
    (p : ProjectName) (s : Text) → strip_prefix (test_prefix p) (template_prefix p ++ s) ≡ none
template_is_no_test p s =
    rw (append_assoc p.value (text "_template_") s)
      (strip-common p.value (text "_test_") (text "_template_" ++ s))

module _ (p : ProjectName) (shape : IsProjectName p.value) where
  -- For a valid project and 32 hex digits a test name is made (the `expect` cannot panic), and
  -- stale cleanup recognises it as that name.
  pub test-recognised :
      (uuid : Text)
      → IsHexSuffix 32 uuid
      → (n : DatabaseName) × (test p uuid ≡ ok n) × (from_existing p n.value ≡ some n)
  unfolding test from_existing recognise recognised
  test-recognised uuid h =
      let made =
        new-valid b'p' (text "gh_" ++ (p.value ++ text "_test_") ++ uuid) test_kind
          (test_name-valid p shape uuid h) in
      (
        record { value = test_prefix p ++ uuid; kind = test_kind },
        made,
        rw (strip_prefix-append (test_prefix p) uuid, valid_hex_suffix-lem 32 uuid h, made),
      )

  -- For a valid project and any fingerprint a template name is made, and stale cleanup recognises
  -- it as that name.
  pub template-recognised :
      (f : TemplateFingerprint)
      → IsFingerprint f
      → (n : DatabaseName) × (template p f ≡ ok n) × (from_existing p n.value ≡ some n)
  unfolding template from_existing recognise recognise_template recognised
  template-recognised f v =
      let (size, lower) = short_hex-shape f v in
      let h : IsHexSuffix 24 (short_hex f) =
        (size, all-of-All is_lower_hex is_lower_hex (short_hex f) (λ b e. e) lower) in
      let made =
        new-valid b'p' (text "gh_" ++ (p.value ++ text "_template_") ++ short_hex f) template_kind
          (template_name-valid p shape (short_hex f) h) in
      (
        record { value = template_prefix p ++ short_hex f; kind = template_kind },
        made,
        rw (
          template_is_no_test p (short_hex f),
          strip_prefix-append (template_prefix p) (short_hex f),
          valid_hex_suffix-lem 24 (short_hex f) h,
          made,
        ),
      )

-- What a recognised name is made of.
abbrev pub IsManaged : ProjectName → DatabaseName → Type 0
IsManaged p n =
    ((suffix : Text) × (n.value ≡ test_prefix p ++ suffix)
      × IsHexSuffix 32 suffix
      × (n.kind ≡ test_kind))
    ⊎ ((suffix : Text) × (n.value ≡ template_prefix p ++ suffix)
        × IsHexSuffix 24 suffix
        × (n.kind ≡ template_kind))

recognised_sound :
    (value : Text) (kind : DatabaseKind) (valid : Bool) (n : DatabaseName)
    → recognised value kind valid ≡ some n
    → (valid ≡ true) × (n.value ≡ value) × (n.kind ≡ kind) × (all is_name_byte value ≡ true)
unfolding recognised new
recognised_sound value kind valid n h = ground arith

valid_hex_suffix_sound : (n : ℕ) (t : Text) → valid_hex_suffix t n ≡ true → IsHexSuffix n t
unfolding valid_hex_suffix
valid_hex_suffix_sound n t h = let (a, b) = (&&_iff _ _).0 h in ((==_iff _ _).0 a, b)

recognise_sound :
    (p : ProjectName) (value : Text) (as_test as_template : Option Text) (n : DatabaseName)
    → strip_prefix (test_prefix p) value ≡ as_test
    → strip_prefix (template_prefix p) value ≡ as_template
    → recognise value as_test as_template ≡ some n
    → (n.value ≡ value) × (all is_name_byte value ≡ true) × IsManaged p n
unfolding recognise recognise_template
recognise_sound p value (some s) rest n e f h =
    let (valid, same, kind, bytes) = recognised_sound value test_kind _ n h in
    (
      same,
      bytes,
      inl (
        s,
        same ∙ strip_prefix_sound (test_prefix p) value s e,
        valid_hex_suffix_sound 32 s valid,
        kind,
      ),
    )
recognise_sound p value none (some s) n e f h =
    let (valid, same, kind, bytes) = recognised_sound value template_kind _ n h in
    (
      same,
      bytes,
      inr (
        s,
        same ∙ strip_prefix_sound (template_prefix p) value s f,
        valid_hex_suffix_sound 24 s valid,
        kind,
      ),
    )
recognise_sound p value none none n e f h = cc

-- A name that is recognised is the text itself, holds only bytes that need no quoting, and has the
-- exact shape of a test or a template name of the project.
pub from_existing_sound :
    (p : ProjectName) (value : Text) (n : DatabaseName)
    → from_existing p value ≡ some n
    → (n.value ≡ value) × (all is_name_byte value ≡ true) × IsManaged p n
unfolding from_existing
from_existing_sound p value n h = recognise_sound p value _ _ n refl refl h
