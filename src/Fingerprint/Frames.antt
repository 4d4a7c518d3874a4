-- ===== src/Fingerprint/Frames.antt =====
-- src/fingerprint.rs: the bytes that are hashed. A digest's input is the bytes given to `update`,
-- one after the other; `sha256` stands for the hash.
use postgres_test_harness.Base.{
  ℕ, ◌/◌, ◌%◌, ◌^◌, ◌<◌, ◌≡◌, refl, List, [], ◌∷◌, ◌++◌, append-cancel, arith, length, All,
}

-- `(n as u64).to_be_bytes()`.
abbrev pub to_be_bytes : ℕ → List ℕ
to_be_bytes n =
    n / 2 ^ 56 % 256
    ∷ n / 2 ^ 48 % 256
    ∷ n / 2 ^ 40 % 256
    ∷ n / 2 ^ 32 % 256
    ∷ n / 2 ^ 24 % 256
    ∷ n / 2 ^ 16 % 256
    ∷ n / 2 ^ 8 % 256
    ∷ n % 256
    ∷ []

to_be_bytes-injective : (n m : ℕ) → n < 2 ^ 64 → m < 2 ^ 64 → to_be_bytes n ≡ to_be_bytes m → n ≡ m
to_be_bytes-injective n m hn hm e = ground arith

-- `add_frame`: a frame's length, and the frame.
abbrev pub frame : List ℕ → List ℕ
frame bytes = to_be_bytes (length bytes) ++ bytes

abbrev pub frames : List (List ℕ) → List ℕ
frames [] = []
frames (f ∷ fs) = frame f ++ frames fs

abbrev pub IsFrame : List ℕ → Type 0
IsFrame bytes = length bytes < 2 ^ 64

frame-cancel :
    (x y s t : List ℕ) → IsFrame x → IsFrame y → frame x ++ s ≡ frame y ++ t → (x ≡ y) × (s ≡ t)
frame-cancel x y s t hx hy e =
    let (sizes, rest) =
      append-cancel (to_be_bytes (length x)) (to_be_bytes (length y)) (x ++ s) (y ++ t) refl e in
    append-cancel x y s t (to_be_bytes-injective _ _ hx hy sizes) rest

-- Different lists of frames are hashed as different bytes: no concatenation is ambiguous.
pub frames-injective :
    (xs ys : List (List ℕ)) → All IsFrame xs → All IsFrame ys → frames xs ≡ frames ys → xs ≡ ys
frames-injective [] [] hx hy e = refl
frames-injective [] (y ∷ ys) hx hy e = cc
frames-injective (x ∷ xs) [] hx hy e = cc
frames-injective (x ∷ xs) (y ∷ ys) hx hy e =
    let (same, rest) = frame-cancel x y (frames xs) (frames ys) hx.0 hy.0 e in
    let more = frames-injective xs ys hx.1 hy.1 rest in cc
