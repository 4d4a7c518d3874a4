-- ===== src/Metadata/Fields.antt =====
-- src/metadata.rs: the text's fields, and the map of their values.
use postgres_test_harness.Base.{
  ℕ, ◌≡◌, refl, Bool, true, false, not, List, [], ◌∷◌, ◌++◌, arith, ◌==◌, if◌then◌else◌, all, Text,
  text_eq, Option, none, some,
}

infixl 5 ◌>>=◌
abbrev pub ◌>>=◌ {ℓ κ} : {A : Type ℓ} {B : Type κ} → Option A → (A → Option B) → Option B
none >>= f = none
some a >>= f = f a

abbrev push_front : ℕ → List Text → List Text
push_front c [] = (c ∷ []) ∷ []
push_front c (s ∷ ss) = (c ∷ s) ∷ ss

-- `str::split` on one byte.
unfoldable pub split : ℕ → Text → List Text
split sep [] = [] ∷ []
split sep (c ∷ t) = let rest = split sep t in if c == sep then [] ∷ rest else push_front c rest

abbrev pub prepend : ℕ → Option (Text × Text) → Option (Text × Text)
prepend c none = none
prepend c (some (k, v)) = some (c ∷ k, v)

unfoldable pub split_once : ℕ → Text → Option (Text × Text)
split_once sep [] = none
split_once sep (c ∷ t) = if c == sep then some ([], t) else prepend c (split_once sep t)

-- The map: keys are kept distinct by `read_fields`.
abbrev pub Values : Type 0
Values = List (Text × Text)

abbrev pub has_key : Text → Values → Bool
has_key k [] = false
has_key k ((j, v) ∷ m) = if text_eq j k then true else has_key k m

abbrev pub cons_entry : Text × Text → Option (Text × Values) → Option (Text × Values)
cons_entry e none = none
cons_entry e (some (v, m)) = some (v, e ∷ m)

-- `HashMap::remove`: the value, and the map without it.
unfoldable pub remove : Text → Values → Option (Text × Values)
remove k [] = none
remove k ((j, v) ∷ m) = if text_eq j k then some (v, m) else cons_entry (j, v) (remove k m)

-- The loop over the parts: a part with no equals sign, or a key that was read before, is an error.
unfoldable pub read_fields : List Text → Values → Option Values
unfolding split_once
read_fields [] m = some m
read_fields (part ∷ parts) m = elim (split_once b'=' part) [
  | none ↦ none
  | some (k, v) ↦ if has_key k m then none else read_fields parts ((k, v) ∷ m)
]

abbrev pub lacks : ℕ → Text → Bool
lacks sep t = all (λ c. not (c == sep)) t

pub split-lacks : (sep : ℕ) (s : Text) → lacks sep s ≡ true → split sep s ≡ s ∷ []
unfolding split
split-lacks sep [] h = refl
split-lacks sep (c ∷ s) h = ground (arith, split-lacks sep s)

pub split-append :
    (sep : ℕ) (s t : Text) → lacks sep s ≡ true → split sep (s ++ sep ∷ t) ≡ s ∷ split sep t
unfolding split
split-append sep [] t h = ground arith
split-append sep (c ∷ s) t h = ground (arith, split-append sep s t)
