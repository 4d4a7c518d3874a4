-- ===== src/Server/Flights.antt =====
-- src/server.rs: callers share the template cache, in any order.
pub mod Lemmas
pub mod Preservation
pub mod Single
use postgres_test_harness.Base.{
  ℕ, zero, suc, ◌+◌, ◌≤◌, ◌<◌, ◌≡◌, ◌≢◌, refl, sym, ap, subst, ◌∙◌, ◌⊎◌, inl, inr, Bool, true,
  false, List, [], ◌∷◌, arith, ◌==◌, if◌then◌else◌, text_eq, text_eq_sound, text_eq_refl, Text, All,
  extract, Bool-cases, Option-cases, Option, none, some,
}
use postgres_test_harness.Fingerprint.Hex.{TemplateFingerprint}
use postgres_test_harness.Server.Templates.{
  TemplateCacheEntry, initializing, ready, TemplateFlight, TemplateCache, empty_cache,
  TemplateCacheAction, ready_action, initialize, wait, same, put, set_flight, unexpired,
  begin_flight, act_on, template_cache_action, owns_entry, complete, prune_expired_ready_entries,
  publish, drop_initializer, await_flight,
}

-- An initializer that is still to publish or to be dropped.
pub record Initializer : Type 0 where
  pub fingerprint : TemplateFingerprint
  pub flight : ℕ

abbrev pub started : TemplateCacheAction → TemplateFingerprint → List Initializer → List Initializer
started (initialize f) k active = record { fingerprint = k; flight = f } ∷ active
started (ready_action t) k active = active
started (wait f) k active = active

-- The cache with the active initializers. Which templates are referenced may change at any time.
pub data Step (c : TemplateCache) (active : List Initializer)
    : TemplateCache → List Initializer → Type 0 where
  asks :
      (live : ℕ → Bool) (k : TemplateFingerprint) (d : TemplateCache) (a : TemplateCacheAction)
      → template_cache_action live k c ≡ (a, d)
      → Step c active d (started a k active)
  publishes :
      (i t : ℕ) (x : Initializer) (rest : List Initializer)
      → extract i active ≡ some (x, rest)
      → Step c active (publish x.fingerprint x.flight t c) rest
  drops :
      (i : ℕ) (x : Initializer) (rest : List Initializer)
      → extract i active ≡ some (x, rest)
      → Step c active (drop_initializer x.fingerprint x.flight c) rest

pub data Reach : TemplateCache → List Initializer → Type 0 where
  start : Reach empty_cache []
  next : {c d : TemplateCache} {xs ys : List Initializer} → Reach c xs → Step c xs d ys → Reach d ys

-- How many initializers of a fingerprint are active, and how many its entry calls for.
abbrev pub holders : TemplateFingerprint → List Initializer → ℕ
holders k [] = 0
holders k (x ∷ xs) = if same k x.fingerprint then suc (holders k xs) else holders k xs

abbrev pub called_for : Option TemplateCacheEntry → ℕ
called_for (some (initializing f)) = 1
called_for _ = 0

-- Whether an active initializer has the flight.
abbrev pub holds_flight : ℕ → List Initializer → Bool
holds_flight f [] = false
holds_flight f (x ∷ xs) = if x.flight == f then true else holds_flight f xs

pub record IsSingleFlight (c : TemplateCache) (active : List Initializer) : Type 0 where
  pub owned : All (λ x. c.entries x.fingerprint ≡ some (initializing x.flight)) active
  pub single : (k : TemplateFingerprint) → holders k active ≡ called_for (c.entries k)
  pub awaited :
      (f : ℕ) → f < c.next_flight → (c.flights f).completed ≡ false → holds_flight f active ≡ true
