-- ===== src/Base/Lists.antt =====
-- Lists measured by native numbers, and predicates on their items.
use Prim.Native.Nat.{ℕ, zero, suc, ◌+◌}
use mathlib.Core.Path.{◌≡◌, refl}
use mathlib.Core.Bool.{Bool, true, false}
use mathlib.Core.Option.{Option, none, some}
use mathlib.Core.List.{List, [], ◌∷◌, ◌++◌}
use native.Mathlib.Omega.{arith}
use postgres_test_harness.Base.Tests.{if◌then◌else◌}

module _ {ℓ} {A : Type ℓ} where
  abbrev pub length : List A → ℕ
  length [] = 0
  length (x ∷ xs) = suc (length xs)

  pub length-append : (xs ys : List A) → length (xs ++ ys) ≡ length xs + length ys
  length-append [] ys = omega arith
  length-append (x ∷ xs) ys = omega (arith, length-append xs ys)

  abbrev pub All {κ} : (A → Type κ) → List A → Type κ
  All P [] = Unit
  All P (x ∷ xs) = P x × All P xs

  pub All-append {κ} : (P : A → Type κ) (xs ys : List A) → All P xs → All P ys → All P (xs ++ ys)
  All-append P [] ys hx hy = hy
  All-append P (x ∷ xs) ys hx hy = (hx.0, All-append P xs ys hx.1 hy)

  -- The items that pass a test, in order.
  abbrev pub keep : (A → Bool) → List A → List A
  keep p [] = []
  keep p (x ∷ xs) = if p x then x ∷ keep p xs else keep p xs

  abbrev pub all : (A → Bool) → List A → Bool
  all p [] = true
  all p (x ∷ xs) = if p x then all p xs else false

  -- The item at an index, and the list without it.
  abbrev pub extract : ℕ → List A → Option (A × List A)
  extract i [] = none
  extract zero (x ∷ xs) = some (x, xs)
  extract (suc i) (x ∷ xs) = elim (extract i xs) [ none ↦ none | some (y, ys) ↦ some (y, x ∷ ys) ]

  -- Two texts cut at the same place.
  pub append-cancel :
      (xs ys s t : List A) → length xs ≡ length ys → xs ++ s ≡ ys ++ t → (xs ≡ ys) × (s ≡ t)
  append-cancel [] [] s t h e = (refl, e)
  append-cancel [] (y ∷ ys) s t h e = absurd (omega arith)
  append-cancel (x ∷ xs) [] s t h e = absurd (omega arith)
  append-cancel (x ∷ xs) (y ∷ ys) s t h e =
      let (same, rest) = append-cancel xs ys s t (omega arith) (cc) in (cc, rest)
