-- ===== src/Metadata/RoundTrip.antt =====
-- src/metadata.rs: what is written is read back.
use postgres_test_harness.Base.{
  ℕ, ◌≡◌, refl, ap, ◌∙◌, Bool, true, not, List, [], ◌∷◌, ◌++◌, arith, ◌==◌, all, All, Text, text,
  Option, none, some,
}
use postgres_test_harness.Config.Project.{ProjectName, IsProjectName, is_name_byte, new_complete}
use postgres_test_harness.Fingerprint.Hex.{
  TemplateFingerprint, IsFingerprint, to_hex, from_hex-to_hex, to_hex-hex, is_lower_hex,
}
use postgres_test_harness.Metadata.Decimal.{
  ℤ, IsU64, IsI64, is_integer_byte, print_u64, print_i64, print_u64-bytes, print_i64-bytes,
  parse_u64-print_u64, parse_i64-print_i64,
}
use postgres_test_harness.Metadata.Fields.{split, lacks, split-lacks, split-append}
use postgres_test_harness.Metadata.Resource.{
  prefix, TemplateState, initializing, ready, TestMetadata, TemplateMetadata, ResourceMetadata,
  test, template, join, parent_field, test_fields, template_fields, state_text, encode, parse,
  parse_parts,
}

-- The values that the source's types allow.
pub record IsTest (m : TestMetadata) : Type 0 where
  pub project : IsProjectName m.project.value
  pub owner_key : IsI64 m.owner_key
  pub created_at : IsU64 m.created_at

abbrev pub IsParent : Option TemplateFingerprint → Type 0
IsParent none = Unit
IsParent (some f) = IsFingerprint f

pub record IsTemplate (m : TemplateMetadata) : Type 0 where
  pub project : IsProjectName m.project.value
  pub lock_key : IsI64 m.lock_key
  pub fingerprint : IsFingerprint m.fingerprint
  pub parent : IsParent m.parent
  pub created_at : IsU64 m.created_at

abbrev pub IsMetadata : ResourceMetadata → Type 0
IsMetadata (test m) = IsTest m
IsMetadata (template m) = IsTemplate m

abbrev IsField : Text → Type 0
IsField s = lacks b';' s ≡ true

split-join :
    (s : Text) (ss : List Text) → All IsField (s ∷ ss) → split b';' (join (s ∷ ss)) ≡ s ∷ ss
split-join s [] h = split-lacks b';' s h.0
split-join s (t ∷ ts) h =
    split-append b';' s (join (t ∷ ts)) h.0 ∙ ap (λ r. s ∷ r) (split-join t ts h.1)

-- A field is a text without a semicolon: a key in front of a value changes nothing.
lacks-append : (s t : Text) → IsField s → IsField t → IsField (s ++ t)
lacks-append [] t hs ht = ht
lacks-append (c ∷ s) t hs ht = ground (arith, lacks-append s t)

lacks-of-all :
    (p : ℕ → Bool) (t : Text)
    → ((c : ℕ) → p c ≡ true → not (c == b';') ≡ true)
    → all p t ≡ true
    → IsField t
lacks-of-all p [] i h = refl
lacks-of-all p (c ∷ t) i h = ground (arith, i c, lacks-of-all p t i)

project-IsField : (p : ProjectName) → IsProjectName p.value → IsField (text "project=" ++ p.value)
project-IsField p v =
    lacks-append (text "project=") p.value refl
      (lacks-of-all is_name_byte p.value (λ c h. ground arith) v.bytes)

integer-IsField : (key t : Text) → IsField key → all is_integer_byte t ≡ true → IsField (key ++ t)
integer-IsField key t k h =
    lacks-append key t k (lacks-of-all is_integer_byte t (λ c h. ground arith) h)

hex-IsField :
    (key : Text) (f : TemplateFingerprint)
    → IsField key
    → IsFingerprint f
    → IsField (key ++ to_hex f)
hex-IsField key f k v =
    lacks-append key (to_hex f) k
      (lacks-of-all is_lower_hex (to_hex f) (λ c h. ground arith) (to_hex-hex f v))

parse_test_fields : (m : TestMetadata) → IsTest m → parse_parts (test_fields m) ≡ some (test m)
unfolding parse_parts
parse_test_fields m v = rw (
  new_complete m.project.value v.project,
  parse_u64-print_u64 m.created_at v.created_at,
  parse_i64-print_i64 m.owner_key v.owner_key,
)

test_fields-AreFields : (m : TestMetadata) → IsTest m → All IsField (test_fields m)
test_fields-AreFields m v = (
  refl,
  (
    refl,
    (
      project-IsField m.project v.project,
      (
        integer-IsField (text "owner=") (print_i64 m.owner_key) refl (print_i64-bytes m.owner_key),
        (
          integer-IsField (text "created=") (print_u64 m.created_at) refl
              (print_u64-bytes m.created_at),
          tt,
        ),
      ),
    ),
  ),
)

test-round_trip : (m : TestMetadata) → IsTest m → parse (encode (test m)) ≡ some (test m)
unfolding parse encode
test-round_trip m v =
    ap parse_parts (
      split-join prefix
        (text "kind=test"
          ∷ (text "project=" ++ m.project.value)
          ∷ (text "owner=" ++ print_i64 m.owner_key)
          ∷ (text "created=" ++ print_u64 m.created_at)
          ∷ [])
        (test_fields-AreFields m v))
    ∙ parse_test_fields m v

state-IsField : (s : TemplateState) → IsField (text "state=" ++ state_text s)
state-IsField initializing = refl
state-IsField ready = refl

-- The fields after the fingerprint of a root, and of a derived template.
last_fields-AreFields :
    (s : TemplateState) (created_at : ℕ)
    → All IsField ((text "state=" ++ state_text s) ∷ (text "created=" ++ print_u64 created_at) ∷ [])
last_fields-AreFields s c = (
  state-IsField s,
  (integer-IsField (text "created=") (print_u64 c) refl (print_u64-bytes c), tt),
)

parent_fields-AreFields :
    (parent : Option TemplateFingerprint) (s : TemplateState) (created_at : ℕ)
    → IsParent parent
    → All IsField (
        parent_field parent
        ++ (text "state=" ++ state_text s) ∷ (text "created=" ++ print_u64 created_at) ∷ [])
parent_fields-AreFields none s c v = last_fields-AreFields s c
parent_fields-AreFields (some f) s c v =
    (hex-IsField (text "parent=") f refl v, last_fields-AreFields s c)

template_fields-AreFields : (m : TemplateMetadata) → IsTemplate m → All IsField (template_fields m)
template_fields-AreFields m v = (
  refl,
  (
    refl,
    (
      project-IsField m.project v.project,
      (
        integer-IsField (text "lock=") (print_i64 m.lock_key) refl (print_i64-bytes m.lock_key),
        (
          hex-IsField (text "fingerprint=") m.fingerprint refl v.fingerprint,
          parent_fields-AreFields m.parent m.state m.created_at v.parent,
        ),
      ),
    ),
  ),
)

abbrev with_parts :
    ProjectName
    → ℤ
    → TemplateFingerprint
    → Option TemplateFingerprint
    → TemplateState
    → ℕ
    → TemplateMetadata
with_parts p k f parent s c = record {
  project = p;
  lock_key = k;
  fingerprint = f;
  parent = parent;
  state = s;
  created_at = c;
}

module _ (p : ProjectName) (k : ℤ) (f : TemplateFingerprint) (c : ℕ) where
  parse_template_fields :
      (parent : Option TemplateFingerprint) (s : TemplateState)
      → IsTemplate (with_parts p k f parent s c)
      → parse_parts (template_fields (with_parts p k f parent s c))
        ≡ some (template (with_parts p k f parent s c))
  unfolding parse_parts
  parse_template_fields none initializing v = rw (
    new_complete p.value v.project,
    parse_u64-print_u64 c v.created_at,
    parse_i64-print_i64 k v.lock_key,
    from_hex-to_hex f v.fingerprint,
  )
  parse_template_fields none ready v = rw (
    new_complete p.value v.project,
    parse_u64-print_u64 c v.created_at,
    parse_i64-print_i64 k v.lock_key,
    from_hex-to_hex f v.fingerprint,
  )
  parse_template_fields (some g) initializing v = rw (
    new_complete p.value v.project,
    parse_u64-print_u64 c v.created_at,
    parse_i64-print_i64 k v.lock_key,
    from_hex-to_hex f v.fingerprint,
    from_hex-to_hex g v.parent,
  )
  parse_template_fields (some g) ready v = rw (
    new_complete p.value v.project,
    parse_u64-print_u64 c v.created_at,
    parse_i64-print_i64 k v.lock_key,
    from_hex-to_hex f v.fingerprint,
    from_hex-to_hex g v.parent,
  )

template-round_trip :
    (m : TemplateMetadata) → IsTemplate m → parse (encode (template m)) ≡ some (template m)
unfolding parse encode
template-round_trip m v =
    ap parse_parts (
      split-join prefix
        (text "kind=template"
          ∷ (text "project=" ++ m.project.value)
          ∷ (text "lock=" ++ print_i64 m.lock_key)
          ∷ (text "fingerprint=" ++ to_hex m.fingerprint)
          ∷ (parent_field m.parent
              ++ (text "state=" ++ state_text m.state)
                ∷ (text "created=" ++ print_u64 m.created_at)
                ∷ []))
        (template_fields-AreFields m v))
    ∙ parse_template_fields m.project m.lock_key m.fingerprint m.created_at m.parent m.state v

-- Parsing the encoding of any metadata whose parts the source's types allow gives it back: test and
-- template, root and derived, in either state.
pub parse-encode : (m : ResourceMetadata) → IsMetadata m → parse (encode m) ≡ some m
parse-encode (test m) v = test-round_trip m v
parse-encode (template m) v = template-round_trip m v
