-- ===== src/Base/Bytes.antt =====
-- Texts as lists of bytes, with the byte tests of the standard library.
use Prim.Native.Nat.{ℕ, zero, suc}
use Prim.Native.Char.{code}
use Prim.Native.String.{String}
use mathlib.Core.Path.{◌≡◌, refl}
use mathlib.Core.Bool.{Bool, true, false, ◌&&◌}
use mathlib.Core.Option.{Option, none, some}
use mathlib.Core.List.{List, [], ◌∷◌, ◌++◌}
use native.Mathlib.Omega.{arith}
use postgres_test_harness.Base.Tests.{leb, ◌==◌, if◌then◌else◌}

abbrev pub Text : Type 0
Text = List ℕ

-- The code points of a literal, which are its bytes since every literal of the source is ASCII.
abbrev pub text : String → Text
text String.[] = []
text (String.◌∷◌ c s) = code c ∷ text s

abbrev pub is_ascii_lowercase : ℕ → Bool
is_ascii_lowercase b = leb b'a' b && leb b b'z'

abbrev pub is_ascii_digit : ℕ → Bool
is_ascii_digit b = leb b'0' b && leb b b'9'

abbrev pub take : ℕ → Text → Text
take zero t = []
take (suc n) [] = []
take (suc n) (b ∷ t) = b ∷ take n t

abbrev pub drop : ℕ → Text → Text
drop zero t = t
drop (suc n) [] = []
drop (suc n) (b ∷ t) = drop n t

abbrev pub text_eq : Text → Text → Bool
text_eq [] [] = true
text_eq (a ∷ s) (b ∷ t) = if a == b then text_eq s t else false
text_eq [] (b ∷ t) = false
text_eq (a ∷ s) [] = false

abbrev pub strip_prefix : Text → Text → Option Text
strip_prefix [] t = some t
strip_prefix (a ∷ s) [] = none
strip_prefix (a ∷ s) (b ∷ t) = if a == b then strip_prefix s t else none

pub text_eq_sound : (s t : Text) → text_eq s t ≡ true → s ≡ t
text_eq_sound [] [] h = refl
text_eq_sound (a ∷ s) (b ∷ t) h = ground (arith, text_eq_sound s t)
text_eq_sound [] (b ∷ t) h = ground arith
text_eq_sound (a ∷ s) [] h = ground arith

pub text_eq_refl : (s : Text) → text_eq s s ≡ true
text_eq_refl [] = refl
text_eq_refl (a ∷ s) = ground (arith, text_eq_refl s)

pub strip_prefix-append : (s t : Text) → strip_prefix s (s ++ t) ≡ some t
strip_prefix-append [] t = refl
strip_prefix-append (a ∷ s) t = ground (arith, strip_prefix-append s t)

pub strip_prefix_sound : (s t r : Text) → strip_prefix s t ≡ some r → t ≡ s ++ r
strip_prefix_sound [] t r h = ground arith
strip_prefix_sound (a ∷ s) [] r h = ground arith
strip_prefix_sound (a ∷ s) (b ∷ t) r h = ground (arith, strip_prefix_sound s t r)
