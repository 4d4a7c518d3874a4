-- ===== src/Base/Counts.antt =====
-- How often a number stands in a list, and the list operations that a set of numbers needs.
use Prim.Native.Nat.{ℕ, suc, ◌+◌}
use mathlib.Core.Path.{◌≡◌, refl}
use mathlib.Core.Bool.{Bool, true, false}
use mathlib.Core.List.{List, [], ◌∷◌, ◌++◌}
use native.Mathlib.Omega.{arith}
use postgres_test_harness.Base.Tests.{◌==◌, if◌then◌else◌}
use postgres_test_harness.Base.Lists.{length}

abbrev pub count : ℕ → List ℕ → ℕ
count n [] = 0
count n (x ∷ xs) = if x == n then suc (count n xs) else count n xs

abbrev pub contains : ℕ → List ℕ → Bool
contains n [] = false
contains n (x ∷ xs) = if x == n then true else contains n xs

abbrev pub remove : ℕ → List ℕ → List ℕ
remove n [] = []
remove n (x ∷ xs) = if x == n then xs else x ∷ remove n xs

-- One occurrence of `k`, seen from `n`.
abbrev pub one_at : ℕ → ℕ → ℕ
one_at k n = if k == n then 1 else 0

pub count-append : (n : ℕ) (xs ys : List ℕ) → count n (xs ++ ys) ≡ count n xs + count n ys
count-append n [] ys = omega arith
count-append n (x ∷ xs) ys = ground (arith, count-append n xs ys)

pub count-remove :
    (n k : ℕ) (xs : List ℕ) → contains k xs ≡ true → count n (remove k xs) + one_at k n ≡ count n xs
count-remove n k [] h = ground arith
count-remove n k (x ∷ xs) h = ground (arith, count-remove n k xs)

pub length-remove :
    (k : ℕ) (xs : List ℕ) → contains k xs ≡ true → suc (length (remove k xs)) ≡ length xs
length-remove k [] h = ground arith
length-remove k (x ∷ xs) h = ground (arith, length-remove k xs)

pub count-of-absent : (k : ℕ) (xs : List ℕ) → contains k xs ≡ false → count k xs ≡ 0
count-of-absent k [] h = refl
count-of-absent k (x ∷ xs) h = ground (arith, count-of-absent k xs)

pub absent-of-count : (k : ℕ) (xs : List ℕ) → count k xs ≡ 0 → contains k xs ≡ false
absent-of-count k [] h = refl
absent-of-count k (x ∷ xs) h = ground (arith, absent-of-count k xs)
