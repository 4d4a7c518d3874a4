-- ===== src/Metadata/Resource.antt =====
-- src/metadata.rs, `ResourceMetadata`: its encoding and parsing. The time is a parameter.
use postgres_test_harness.Base.{
  ℕ, ◌&&◌, List, [], ◌∷◌, ◌++◌, ◌==◌, if◌then◌else◌, length, Text, text, text_eq, Option, none,
  some, Result, ok, err,
}
use postgres_test_harness.Config.Project.{ProjectName}
use postgres_test_harness.Config.Project
use postgres_test_harness.Fingerprint.Hex.{TemplateFingerprint, to_hex, from_hex}
use postgres_test_harness.Fingerprint.Identity.{TemplateIdentity}
use postgres_test_harness.Metadata.Decimal.{ℤ, print_u64, print_i64, parse_u64, parse_i64}
use postgres_test_harness.Metadata.Fields.{◌>>=◌, split, read_fields, Values, remove}

abbrev pub prefix : Text
prefix = text "postgres-test-harness:v1"

pub data TemplateState : Type 0 where
  initializing ready : TemplateState

pub record TestMetadata : Type 0 where
  pub project : ProjectName
  pub owner_key : ℤ
  pub created_at : ℕ

pub record TemplateMetadata : Type 0 where
  pub project : ProjectName
  pub lock_key : ℤ
  pub fingerprint : TemplateFingerprint
  pub parent : Option TemplateFingerprint
  pub state : TemplateState
  pub created_at : ℕ

pub data ResourceMetadata : Type 0 where
  test : TestMetadata → ResourceMetadata
  template : TemplateMetadata → ResourceMetadata

unfoldable pub new_test : ℕ → ProjectName → ℤ → ResourceMetadata
new_test now project owner_key =
    test (record { project = project; owner_key = owner_key; created_at = now })

unfoldable pub new_template :
    ℕ → ProjectName → ℤ → TemplateIdentity → TemplateState → ResourceMetadata
new_template now project lock_key identity state = template (record {
  project = project;
  lock_key = lock_key;
  fingerprint = identity.fingerprint;
  parent = identity.parent;
  state = state;
  created_at = now;
})

-- The fields of the format string, with semicolons between them.
abbrev pub join : List Text → Text
join [] = []
join (s ∷ []) = s
join (s ∷ t ∷ ts) = s ++ b';' ∷ join (t ∷ ts)

abbrev pub state_text : TemplateState → Text
state_text initializing = text "initializing"
state_text ready = text "ready"

abbrev pub parent_field : Option TemplateFingerprint → List Text
parent_field none = []
parent_field (some parent) = (text "parent=" ++ to_hex parent) ∷ []

abbrev pub test_fields : TestMetadata → List Text
test_fields m =
    prefix
    ∷ text "kind=test"
    ∷ (text "project=" ++ m.project.value)
    ∷ (text "owner=" ++ print_i64 m.owner_key)
    ∷ (text "created=" ++ print_u64 m.created_at)
    ∷ []

abbrev pub template_fields : TemplateMetadata → List Text
template_fields m =
    prefix
    ∷ text "kind=template"
    ∷ (text "project=" ++ m.project.value)
    ∷ (text "lock=" ++ print_i64 m.lock_key)
    ∷ (text "fingerprint=" ++ to_hex m.fingerprint)
    ∷ (parent_field m.parent
        ++ (text "state=" ++ state_text m.state) ∷ (text "created=" ++ print_u64 m.created_at) ∷ [])

unfoldable pub encode : ResourceMetadata → Text
encode (test m) = join (test_fields m)
encode (template m) = join (template_fields m)

abbrev pub to_option {ℓ} : {A : Type ℓ} → Result A → Option A
to_option (ok a) = some a
to_option (err e) = none

unfoldable pub parse_state : Text → Option TemplateState
parse_state t =
    if text_eq t (text "initializing")
    then some initializing
    else if text_eq t (text "ready")
    then some ready
    else none

-- `match values.remove("parent")`.
unfoldable pub parse_parent :
    Option (Text × Values) → Values → Option (Option TemplateFingerprint × Values)
parse_parent none values = some (none, values)
parse_parent (some (hex, rest)) values = do parent ← from_hex hex; some (some parent, rest)

-- `values.is_empty().then_some(metadata)`.
abbrev pub if_empty : Values → ResourceMetadata → Option ResourceMetadata
if_empty [] m = some m
if_empty (e ∷ es) m = none

unfoldable pub parse_test : ProjectName → ℕ → Values → Option ResourceMetadata
unfolding remove
parse_test project created_at values = do
  (owner, values) ← remove (text "owner") values
  owner_key ← parse_i64 owner
  if_empty values
      (test (record { project = project; owner_key = owner_key; created_at = created_at }))

unfoldable pub parse_template : ProjectName → ℕ → Values → Option ResourceMetadata
unfolding remove parse_parent parse_state
parse_template project created_at values = do
  (lock, values) ← remove (text "lock") values
  lock_key ← parse_i64 lock
  (hex, values) ← remove (text "fingerprint") values
  fingerprint ← from_hex hex
  (parent, values) ← parse_parent (remove (text "parent") values) values
  (written, values) ← remove (text "state") values
  state ← parse_state written
  if_empty values (
      template (record {
        project = project;
        lock_key = lock_key;
        fingerprint = fingerprint;
        parent = parent;
        state = state;
        created_at = created_at;
      }))

unfoldable pub parse_kind : Text → ProjectName → ℕ → Values → Option ResourceMetadata
unfolding parse_test parse_template
parse_kind kind project created_at values =
    if text_eq kind (text "test") && length values == 1
    then parse_test project created_at values
    else if text_eq kind (text "template")
    then parse_template project created_at values
    else none

unfoldable pub parse_values : Values → Option ResourceMetadata
unfolding remove parse_kind
parse_values values = do
  (kind, values) ← remove (text "kind") values
  (name, values) ← remove (text "project") values
  project ← to_option (Project.new name)
  (created, values) ← remove (text "created") values
  created_at ← parse_u64 created
  parse_kind kind project created_at values

unfoldable pub parse_parts : List Text → Option ResourceMetadata
unfolding read_fields parse_values
parse_parts [] = none
parse_parts (first ∷ parts) =
    if text_eq first prefix then (read_fields parts [] >>= parse_values) else none

unfoldable pub parse : Text → Option ResourceMetadata
unfolding parse_parts
parse encoded = parse_parts (split b';' encoded)

unfoldable pub project_of : ResourceMetadata → ProjectName
project_of (test m) = m.project
project_of (template m) = m.project

unfoldable pub created_at_of : ResourceMetadata → ℕ
created_at_of (test m) = m.created_at
created_at_of (template m) = m.created_at

unfoldable pub lock_key_of : ResourceMetadata → ℤ
lock_key_of (test m) = m.owner_key
lock_key_of (template m) = m.lock_key
