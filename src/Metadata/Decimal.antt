-- ===== src/Metadata/Decimal.antt =====
-- Integers in decimal, as the standard library prints and parses u64 and i64.
use postgres_test_harness.Base.{
  ℕ, zero, suc, ◌+◌, ◌-◌, ◌*◌, ◌/◌, ◌%◌, ◌^◌, ◌≤◌, ◌<◌, ◌≡◌, refl, ap, sym, subst, all, ◌||◌, ◌∙◌,
  inl, inr, Bool, true, false, [], ◌∷◌, arith, ltb, leb, ltb→lt, Bool-cases, ◌==◌, if◌then◌else◌,
  All, Text, is_ascii_digit, Option, none, some,
}
use native.Mathlib.Nat.{pow-suc}

abbrev pub u64_max : ℕ
u64_max = 18446744073709551615

-- 2 ^ 63.
abbrev pub i64_half : ℕ
i64_half = 9223372036854775808

-- `negsuc n` is -(n + 1).
pub data ℤ : Type 0 where
  pos : ℕ → ℤ
  negsuc : ℕ → ℤ

abbrev pub int_eq : ℤ → ℤ → Bool
int_eq (pos a) (pos b) = a == b
int_eq (negsuc a) (negsuc b) = a == b
int_eq (pos a) (negsuc b) = false
int_eq (negsuc a) (pos b) = false

-- Digits before `rest`, with fuel for the number of digits.
unfoldable pub print_digits : ℕ → ℕ → Text → Text
print_digits zero n rest = rest
print_digits (suc fuel) n rest =
    let more = print_digits fuel (n / 10) ((b'0' + n % 10) ∷ rest) in
    if ltb n 10 then (b'0' + n) ∷ rest else more

-- A u64 has at most 20 digits.
unfoldable pub print_u64 : ℕ → Text
unfolding print_digits
print_u64 n = print_digits 20 n []

unfoldable pub print_i64 : ℤ → Text
unfolding print_digits
print_i64 (pos n) = print_digits 20 n []
print_i64 (negsuc n) = b'-' ∷ print_digits 20 (n + 1) []

unfoldable pub parse_digits : Text → ℕ → Option ℕ
parse_digits [] n = some n
parse_digits (c ∷ t) n =
    let more = parse_digits t (n * 10 + (c - b'0')) in if is_ascii_digit c then more else none

-- The digits' value if it is in range; no digits are an error.
unfoldable pub parse_magnitude : ℕ → Text → Option ℕ
unfolding parse_digits
parse_magnitude limit [] = none
parse_magnitude limit (c ∷ t) = elim (parse_digits (c ∷ t) 0) [
  | none ↦ none
  | some n ↦ if leb n limit then some n else none
]

-- A leading plus sign is accepted.
unfoldable pub parse_u64 : Text → Option ℕ
unfolding parse_magnitude
parse_u64 [] = none
parse_u64 (c ∷ t) = if c == b'+' then parse_magnitude u64_max t else parse_magnitude u64_max (c ∷ t)

abbrev pub negated : Option ℕ → Option ℤ
negated none = none
negated (some zero) = some (pos 0)
negated (some (suc n)) = some (negsuc n)

abbrev pub positive : Option ℕ → Option ℤ
positive none = none
positive (some n) = some (pos n)

unfoldable pub parse_i64 : Text → Option ℤ
unfolding parse_magnitude
parse_i64 [] = none
parse_i64 (c ∷ t) =
    if c == b'-'
    then negated (parse_magnitude i64_half t)
    else if c == b'+'
    then positive (parse_magnitude (i64_half - 1) t)
    else positive (parse_magnitude (i64_half - 1) (c ∷ t))

abbrev pub IsU64 : ℕ → Type 0
IsU64 n = n ≤ u64_max

abbrev pub IsI64 : ℤ → Type 0
IsI64 (pos n) = n < i64_half
IsI64 (negsuc n) = n < i64_half

below_ten : (n : ℕ) → n < 10 ^ 0 → n ≡ 0
below_ten n h = omega arith

tenth-lt : (n f : ℕ) → n < 10 ^ suc f → n / 10 < 10 ^ f
tenth-lt n f h = omega (arith, pow-suc 10 f)

digit_step :
    (n : ℕ) (rest : Text) → parse_digits ((b'0' + n % 10) ∷ rest) (n / 10) ≡ parse_digits rest n
unfolding parse_digits
digit_step n rest =
    let value : n / 10 * 10 + (b'0' + n % 10 - b'0') ≡ n = omega arith in
    let digit : is_ascii_digit (b'0' + n % 10) ≡ true = ground arith in rw (digit, value)

small_step :
    (n : ℕ) (rest : Text) → n < 10 → parse_digits ((b'0' + n) ∷ rest) 0 ≡ parse_digits rest n
unfolding parse_digits
small_step n rest h =
    let value : 0 * 10 + (b'0' + n - b'0') ≡ n = omega arith in
    let digit : is_ascii_digit (b'0' + n) ≡ true = ground arith in rw (digit, value)

parse-print_digits :
    (fuel n : ℕ) (rest : Text)
    → n < 10 ^ fuel
    → parse_digits (print_digits fuel n rest) 0 ≡ parse_digits rest n
unfolding print_digits
parse-print_digits zero n rest h = rw (below_ten n h) refl
parse-print_digits (suc fuel) n rest h = elim (Bool-cases (ltb n 10)) [
  | inl small ↦ rw small (small_step n rest (ltb→lt n 10 small))
  | inr large ↦ rw large (
      parse-print_digits fuel (n / 10) ((b'0' + n % 10) ∷ rest) (tenth-lt n fuel h)
      ∙ digit_step n rest)
]

-- Printed digits are digits, and not none.
abbrev pub AreDigits : Text → Type 0
AreDigits = All (λ c. is_ascii_digit c ≡ true)

print_digits-digits :
    (fuel n : ℕ) (rest : Text) → AreDigits rest → AreDigits (print_digits fuel n rest)
unfolding print_digits
print_digits-digits zero n rest h = h
print_digits-digits (suc fuel) n rest h =
    ground (arith, print_digits-digits fuel (n / 10) ((b'0' + n % 10) ∷ rest))

print_digits-cons :
    (fuel n c : ℕ) (rest : Text) → (d : ℕ) × (t : Text) × (print_digits fuel n (c ∷ rest) ≡ d ∷ t)
unfolding print_digits
print_digits-cons zero n c rest = (c, rest, refl)
print_digits-cons (suc fuel) n c rest = elim (Bool-cases (ltb n 10)) [
  | inl small ↦ rw small (b'0' + n, c ∷ rest, refl)
  | inr large ↦ rw large (print_digits-cons fuel (n / 10) (b'0' + n % 10) (c ∷ rest))
]

print_some : (fuel n : ℕ) → (d : ℕ) × (t : Text) × (print_digits (suc fuel) n [] ≡ d ∷ t)
unfolding print_digits
print_some fuel n = elim (Bool-cases (ltb n 10)) [
  | inl small ↦ rw small (b'0' + n, [], refl)
  | inr large ↦ rw large (print_digits-cons fuel (n / 10) (b'0' + n % 10) [])
]

module _ (limit n : ℕ) (fits : n ≤ limit) where
  magnitude :
      (c : ℕ) (t : Text) → parse_digits (c ∷ t) 0 ≡ some n → parse_magnitude limit (c ∷ t) ≡ some n
  unfolding parse_magnitude
  magnitude c t h = ground arith

-- The text printed for a number below 10 ^ 20.
record IsPrinted (n : ℕ) (t : Text) : Type 0 where
  first : ℕ
  others : Text
  shape : t ≡ first ∷ others
  digit : is_ascii_digit first ≡ true
  value : parse_digits (first ∷ others) 0 ≡ some n

printed : (n : ℕ) → n < 10 ^ 20 → IsPrinted n (print_digits 20 n [])
printed n h =
    let (d, t, e) = print_some 19 n in
    record {
      first = d;
      others = t;
      shape = e;
      digit = (subst AreDigits e (print_digits-digits 20 n [] tt)).0;
      value = ap (λ s. parse_digits s 0) (sym e) ∙ parse-print_digits 20 n [] h ∙ parsed_end n;
    }
  where
    parsed_end : (m : ℕ) → parse_digits [] m ≡ some m
    parsed_end m = unfold parse_digits in refl

u64_step : (n : ℕ) (t : Text) → n ≤ u64_max → IsPrinted n t → parse_u64 t ≡ some n
unfolding parse_u64
u64_step n t h v = rw v.shape (ground (arith, magnitude u64_max n h v.first v.others v.value))

-- Parsing what is printed for a u64 gives it back.
pub parse_u64-print_u64 : (n : ℕ) → IsU64 n → parse_u64 (print_u64 n) ≡ some n
unfolding print_u64
parse_u64-print_u64 n h = u64_step n _ h (printed n (omega (arith, h)))

i64_step : (n : ℕ) (t : Text) → n < i64_half → IsPrinted n t → parse_i64 t ≡ some (pos n)
unfolding parse_i64
i64_step n t h v =
    rw v.shape
      (ground (arith, magnitude (i64_half - 1) n (omega (arith, h)) v.first v.others v.value))

negative_step :
    (n : ℕ) (t : Text) → n < i64_half → IsPrinted (n + 1) t → parse_i64 (b'-' ∷ t) ≡ some (negsuc n)
unfolding parse_i64
negative_step n t h v =
    rw v.shape
      (ground (arith, magnitude i64_half (n + 1) (omega (arith, h)) v.first v.others v.value))

-- Parsing what is printed for an i64 gives it back, negative values included.
pub parse_i64-print_i64 : (k : ℤ) → IsI64 k → parse_i64 (print_i64 k) ≡ some k
unfolding print_i64
parse_i64-print_i64 (pos n) h = i64_step n _ h (printed n (omega (arith, h)))
parse_i64-print_i64 (negsuc n) h = negative_step n _ h (printed (n + 1) (omega (arith, h)))

-- A byte that stands in a printed integer.
abbrev pub is_integer_byte : ℕ → Bool
is_integer_byte c = is_ascii_digit c || c == b'-'

digits_are_integer : (t : Text) → AreDigits t → all is_integer_byte t ≡ true
digits_are_integer [] h = refl
digits_are_integer (c ∷ t) h = ground (arith, digits_are_integer t h.1)

pub print_u64-bytes : (n : ℕ) → all is_integer_byte (print_u64 n) ≡ true
unfolding print_u64
print_u64-bytes n = digits_are_integer _ (print_digits-digits 20 n [] tt)

pub print_i64-bytes : (k : ℤ) → all is_integer_byte (print_i64 k) ≡ true
unfolding print_i64
print_i64-bytes (pos n) = digits_are_integer _ (print_digits-digits 20 n [] tt)
print_i64-bytes (negsuc n) = digits_are_integer _ (print_digits-digits 20 (n + 1) [] tt)

pub int_eq_refl : (k : ℤ) → int_eq k k ≡ true
int_eq_refl (pos n) = ground arith
int_eq_refl (negsuc n) = ground arith

pub int_eq_sound : (a b : ℤ) → int_eq a b ≡ true → a ≡ b
int_eq_sound (pos a) (pos b) h = ground arith
int_eq_sound (negsuc a) (negsuc b) h = ground arith
int_eq_sound (pos a) (negsuc b) h = ground arith
int_eq_sound (negsuc a) (pos b) h = ground arith
