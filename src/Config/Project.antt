-- ===== src/Config/Project.antt =====
-- src/config.rs, `ProjectName`: the validated namespace of a project.
use postgres_test_harness.Base.{
  ℕ, ◌≤◌, ◌≡◌, Bool, true, false, not, ◌||◌, [], ◌∷◌, arith, ltb, ◌==◌, if◌then◌else◌, length, all,
  Text, text, is_ascii_lowercase, is_ascii_digit, invalid_project_name, Result, ok, err,
}

abbrev pub max_project_name_len : ℕ
max_project_name_len = 16

pub record ProjectName : Type 0 where
  pub value : Text

-- A lowercase ASCII letter, a digit or an underscore.
abbrev pub is_name_byte : ℕ → Bool
is_name_byte b = is_ascii_lowercase b || is_ascii_digit b || b == b'_'

abbrev pub is_empty : Text → Bool
is_empty [] = true
is_empty (b ∷ bs) = false

-- `bytes().next().is_some_and(..)`.
abbrev pub starts_lowercase : Text → Bool
starts_lowercase [] = false
starts_lowercase (b ∷ bs) = is_ascii_lowercase b

unfoldable pub new : Text → Result ProjectName
new name =
    if is_empty name
    then err (invalid_project_name name (text "the name must not be empty"))
    else if ltb max_project_name_len (length name)
    then err (invalid_project_name name (text "the name must be at most 16 ASCII characters"))
    else if not (starts_lowercase name)
    then err (invalid_project_name name (text "the name must start with a lowercase ASCII letter"))
    else if not (all is_name_byte name)
    then err (
        invalid_project_name name
          (text "only lowercase ASCII letters, digits, and underscores are allowed"))
    else ok (record { value = name })

-- The names that a project may have.
pub record IsProjectName (name : Text) : Type 0 where
  pub short : length name ≤ 16
  pub letter : starts_lowercase name ≡ true
  pub bytes : all is_name_byte name ≡ true

-- A name that is accepted is kept as it is, and has the shape of a project name.
pub new_sound :
    (name : Text) (p : ProjectName) → new name ≡ ok p → (p.value ≡ name) × IsProjectName name
unfolding new
new_sound name p h = ground arith

-- Every text of that shape is accepted.
pub new_complete : (name : Text) → IsProjectName name → new name ≡ ok (record { value = name })
unfolding new
new_complete [] v = ground arith
new_complete (b ∷ bs) v = ground arith
