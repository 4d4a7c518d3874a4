-- ===== src/Fingerprint/Hex.antt =====
-- src/fingerprint.rs: the hex form of a fingerprint.
use postgres_test_harness.Base.{
  take, ℕ, zero, suc, ◌+◌, ◌-◌, ◌*◌, ◌/◌, ◌%◌, ◌≤◌, ◌<◌, ◌≡◌, refl, ap, subst, if-eq-some, &&_iff,
  ==_iff, Bool, true, ◌&&◌, ◌||◌, List, [], ◌∷◌, arith, ltb, leb, ◌==◌, if◌then◌else◌, length, All,
  all, Text, is_ascii_digit, Option, none, some,
}

abbrev pub fingerprint_bytes : ℕ
fingerprint_bytes = 32

abbrev pub short_fingerprint_hex_len : ℕ
short_fingerprint_hex_len = 24

-- The array's bytes.
pub record TemplateFingerprint : Type 0 where
  pub bytes : List ℕ

-- Every value of the source's type has this shape.
pub record IsFingerprint (f : TemplateFingerprint) : Type 0 where
  pub size : length f.bytes ≡ 32
  pub range : All (λ b. b < 256) f.bytes

-- `{byte:02x}`.
unfoldable pub hex_digit : ℕ → ℕ
hex_digit n = if ltb n 10 then b'0' + n else b'a' + (n - 10)

unfoldable pub encode_hex : List ℕ → Text
unfolding hex_digit
encode_hex [] = []
encode_hex (b ∷ bs) = hex_digit (b / 16) ∷ hex_digit (b % 16) ∷ encode_hex bs

unfoldable pub to_hex : TemplateFingerprint → Text
unfolding encode_hex
to_hex f = encode_hex f.bytes

unfoldable pub short_hex : TemplateFingerprint → Text
unfolding to_hex
short_hex f = take short_fingerprint_hex_len (to_hex f)

abbrev pub is_lower_hex : ℕ → Bool
is_lower_hex b = is_ascii_digit b || (leb b'a' b && leb b b'f')

abbrev pub is_ascii_hexdigit : ℕ → Bool
is_ascii_hexdigit b = is_lower_hex b || (leb b'A' b && leb b b'F')

-- The value of a hex digit.
unfoldable pub digit_value : ℕ → ℕ
digit_value b =
    if is_ascii_digit b then b - b'0' else if leb b'a' b then b - b'a' + 10 else b - b'A' + 10

-- The loop over chunks of two, each read by `u8::from_str_radix(.., 16)`. An odd byte at the end
-- is in no chunk.
unfoldable pub decode_pairs : Text → List ℕ
unfolding digit_value
decode_pairs [] = []
decode_pairs (a ∷ []) = []
decode_pairs (a ∷ b ∷ t) = (digit_value a * 16 + digit_value b) ∷ decode_pairs t

unfoldable pub from_hex : Text → Option TemplateFingerprint
unfolding decode_pairs
from_hex hex =
    if length hex == fingerprint_bytes * 2 && all is_ascii_hexdigit hex
    then some (record { bytes = decode_pairs hex })
    else none

hex_digit-lem :
    (n : ℕ) → n < 16 → (digit_value (hex_digit n) ≡ n) × (is_lower_hex (hex_digit n) ≡ true)
unfolding hex_digit digit_value
hex_digit-lem n h = ground arith

encode_hex-shape :
    (bs : List ℕ)
    → All (λ b. b < 256) bs
    → (decode_pairs (encode_hex bs) ≡ bs)
      × (length (encode_hex bs) ≡ length bs * 2)
      × All (λ b. is_lower_hex b ≡ true) (encode_hex bs)
unfolding decode_pairs encode_hex
encode_hex-shape [] h = (refl, refl, tt)
encode_hex-shape (b ∷ bs) h =
    let (round, size, lower) = encode_hex-shape bs h.1 in
    let (high, high_hex) = hex_digit-lem (b / 16) (omega (arith, h.0)) in
    let (low, low_hex) = hex_digit-lem (b % 16) (omega arith) in
    (
      rw (round, high, low) (ap (λ x. x ∷ bs) (omega arith)),
      omega (arith, size),
      (high_hex, (low_hex, lower)),
    )

pub all-of-All :
    (p q : ℕ → Bool) (t : Text)
    → ((b : ℕ) → p b ≡ true → q b ≡ true)
    → All (λ b. p b ≡ true) t
    → all q t ≡ true
all-of-All p q [] i h = refl
all-of-All p q (b ∷ t) i h = rw (i b h.0) (all-of-All p q t i h.1)

-- For a fingerprint of 32 bytes, each below 256: reading what `to_hex` writes gives it back.
pub from_hex-to_hex : (f : TemplateFingerprint) → IsFingerprint f → from_hex (to_hex f) ≡ some f
unfolding from_hex to_hex
from_hex-to_hex f v =
    let (round, size, lower) = encode_hex-shape f.bytes v.range in
    let hex = all-of-All is_lower_hex is_ascii_hexdigit _ (λ b h. ground arith) lower in
    rw (size, v.size, hex, round)

take-shape :
    (P : ℕ → Type 0) (n : ℕ) (t : Text)
    → n ≤ length t
    → All P t
    → (length (take n t) ≡ n) × All P (take n t)
take-shape P zero t h a = (refl, tt)
take-shape P (suc n) [] h a = absurd (omega arith)
take-shape P (suc n) (b ∷ t) h a =
    let (size, rest) = take-shape P n t (omega arith) a.1 in (omega (arith, size), (a.0, rest))

-- The slice of `short_hex` is in bounds: 24 lowercase hex digits.
pub short_hex-shape :
    (f : TemplateFingerprint)
    → IsFingerprint f
    → (length (short_hex f) ≡ 24) × All (λ b. is_lower_hex b ≡ true) (short_hex f)
unfolding short_hex to_hex
short_hex-shape f v =
    let (round, size, lower) = encode_hex-shape f.bytes v.range in
    take-shape _ 24 (encode_hex f.bytes) (omega (arith, size, v.size)) lower

decode_pairs-size : (t : Text) → length (decode_pairs t) ≡ length t / 2
unfolding decode_pairs
decode_pairs-size [] = refl
decode_pairs-size (a ∷ []) = refl
decode_pairs-size (a ∷ b ∷ t) = omega (arith, decode_pairs-size t)

digit_value-lt : (b : ℕ) → is_ascii_hexdigit b ≡ true → digit_value b < 16
unfolding digit_value
digit_value-lt b h = ground arith

decode_pairs-range :
    (t : Text) → all is_ascii_hexdigit t ≡ true → All (λ b. b < 256) (decode_pairs t)
unfolding decode_pairs
decode_pairs-range [] h = tt
decode_pairs-range (a ∷ []) h = tt
decode_pairs-range (a ∷ b ∷ t) h =
    ground (arith, digit_value-lt a, digit_value-lt b, decode_pairs-range t)

-- Whatever is read is a fingerprint: 32 bytes, each in range.
pub from_hex-IsFingerprint :
    (t : Text) (f : TemplateFingerprint) → from_hex t ≡ some f → IsFingerprint f
unfolding from_hex
from_hex-IsFingerprint t f h =
    let (accepted, e) = if-eq-some _ h in
    let (size, hex) = (&&_iff (length t == 64) (all is_ascii_hexdigit t)).0 accepted in
    subst IsFingerprint e (record {
      size = omega (arith, decode_pairs-size t, (==_iff (length t) 64).0 size);
      range = decode_pairs-range t hex;
    })

pub to_hex-hex : (f : TemplateFingerprint) → IsFingerprint f → all is_lower_hex (to_hex f) ≡ true
unfolding to_hex
to_hex-hex f v =
    let (round, size, lower) = encode_hex-shape f.bytes v.range in
    all-of-All is_lower_hex is_lower_hex (encode_hex f.bytes) (λ b h. h) lower
