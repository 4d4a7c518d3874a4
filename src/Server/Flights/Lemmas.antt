-- ===== src/Server/Flights/Lemmas.antt =====
-- Fingerprints as keys, and lists of initializers.
use postgres_test_harness.Base.{
  ℕ, zero, suc, ◌≡◌, refl, subst, ◌∙◌, ◌⊎◌, inl, inr, Bool, true, false, List, [], ◌∷◌, arith, ◌==◌,
  if◌then◌else◌, text_eq, text_eq_sound, text_eq_refl, Text, All, extract, Bool-cases, Option-cases,
  Option, none, some,
}
use postgres_test_harness.Fingerprint.Hex.{TemplateFingerprint}
use postgres_test_harness.Server.Templates.{
  TemplateCacheEntry, initializing, ready, same, put, unexpired,
}
use postgres_test_harness.Server.Flights.{Initializer, holders, called_for, holds_flight}

pub text_eq_sym : (s t : Text) → text_eq s t ≡ text_eq t s
text_eq_sym [] [] = refl
text_eq_sym [] (b ∷ t) = refl
text_eq_sym (a ∷ s) [] = refl
text_eq_sym (a ∷ s) (b ∷ t) = ground (arith, text_eq_sym s t)

pub same_refl : (k : TemplateFingerprint) → same k k ≡ true
same_refl k = text_eq_refl k.bytes

pub same-cases : (k l : TemplateFingerprint) → (k ≡ l) ⊎ ((same k l ≡ false) × (same l k ≡ false))
same-cases k l = elim (Bool-cases (text_eq k.bytes l.bytes)) [
  | inl e ↦ inl (λ i. record { bytes = text_eq_sound k.bytes l.bytes e i })
  | inr e ↦ inr (e, text_eq_sym l.bytes k.bytes ∙ e)
]

-- Entries of other fingerprints stay the initializers' own.
pub owned-put :
    (live : ℕ → Bool) (k : TemplateFingerprint) (e : Option TemplateCacheEntry)
    (entries : TemplateFingerprint → Option TemplateCacheEntry) (active : List Initializer)
    → holders k active ≡ 0
    → All (λ x. entries x.fingerprint ≡ some (initializing x.flight)) active
    → All
        (λ x.
          put k e (λ l. unexpired live (entries l)) x.fingerprint ≡ some (initializing x.flight))
        active
owned-put live k e entries [] h a = tt
owned-put live k e entries (x ∷ xs) h (own, a) = elim (Bool-cases (same k x.fingerprint)) [
  | inl s ↦ absurd (ground arith)
  | inr s ↦ (rw (s, own) refl, owned-put live k e entries xs (ground arith) a)
]

pub called_for-unexpired :
    (live : ℕ → Bool) (e : Option TemplateCacheEntry) → called_for (unexpired live e) ≡ called_for e
called_for-unexpired live none = refl
called_for-unexpired live (some (initializing f)) = refl
called_for-unexpired live (some (ready t)) = ground arith

pub owned-put_none :
    (k : TemplateFingerprint) (e : Option TemplateCacheEntry)
    (entries : TemplateFingerprint → Option TemplateCacheEntry) (active : List Initializer)
    → holders k active ≡ 0
    → All (λ x. entries x.fingerprint ≡ some (initializing x.flight)) active
    → All (λ x. put k e entries x.fingerprint ≡ some (initializing x.flight)) active
owned-put_none k e entries [] h a = tt
owned-put_none k e entries (x ∷ xs) h (own, a) = elim (Bool-cases (same k x.fingerprint)) [
  | inl s ↦ absurd (ground arith)
  | inr s ↦ (rw (s, own) refl, owned-put_none k e entries xs (ground arith) a)
]

pub holders-extract :
    (k : TemplateFingerprint) (i : ℕ) (active : List Initializer) (x : Initializer)
    (rest : List Initializer)
    → extract i active ≡ some (x, rest)
    → holders k active ≡ (if same k x.fingerprint then suc (holders k rest) else holders k rest)
holders-extract k i [] x rest h = ground arith
holders-extract k zero (y ∷ ys) x rest h = ground arith
holders-extract k (suc i) (y ∷ ys) x rest h = elim (Option-cases (extract i ys)) [
  | inl e ↦ ground arith
  | inr ((z, zs), e) ↦ ground (arith, holders-extract k i ys z zs e)
]

pub holds_flight-extract :
    (f i : ℕ) (active : List Initializer) (x : Initializer) (rest : List Initializer)
    → extract i active ≡ some (x, rest)
    → holds_flight f active ≡ (if x.flight == f then true else holds_flight f rest)
holds_flight-extract f i [] x rest h = ground arith
holds_flight-extract f zero (y ∷ ys) x rest h = ground arith
holds_flight-extract f (suc i) (y ∷ ys) x rest h = elim (Option-cases (extract i ys)) [
  | inl e ↦ ground arith
  | inr ((z, zs), e) ↦ ground (arith, holds_flight-extract f i ys z zs e)
]

pub All-extract :
    (P : Initializer → Type 0) (i : ℕ) (active : List Initializer) (x : Initializer)
    (rest : List Initializer)
    → extract i active ≡ some (x, rest)
    → All P active
    → P x × All P rest
All-extract P i [] x rest h a = ground arith
All-extract P zero (y ∷ ys) x rest h (p, a) =
    let found : y ≡ x = ground arith in
    let left : ys ≡ rest = ground arith in (subst P found p, subst (All P) left a)
All-extract P (suc i) (y ∷ ys) x rest h (p, a) = elim (Option-cases (extract i ys)) [
  | inl e ↦ ground arith
  | inr ((z, zs), e) ↦
      let (q, b) = All-extract P i ys z zs e a in
      let found : z ≡ x = ground arith in
      let left : y ∷ zs ≡ rest = ground arith in (subst P found q, subst (All P) left (p, b))
]
