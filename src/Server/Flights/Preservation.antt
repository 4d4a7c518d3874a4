-- ===== src/Server/Flights/Preservation.antt =====
-- src/server.rs: every step on the template cache keeps one flight for a fingerprint.
use postgres_test_harness.Base.{
  ℕ, suc, ◌≡◌, refl, ap, subst, ◌∙◌, inl, inr, Bool, true, false, List, [], ◌∷◌, arith, ◌==◌,
  if◌then◌else◌, extract, Bool-cases, Option, none, some,
}
use postgres_test_harness.Fingerprint.Hex.{TemplateFingerprint}
use postgres_test_harness.Server.Templates.{
  TemplateCacheEntry, initializing, ready, TemplateFlight, TemplateCache, empty_cache, same, put,
  unexpired, begin_flight, act_on, template_cache_action, owns_entry, complete,
  prune_expired_ready_entries, publish, drop_initializer,
}
use postgres_test_harness.Server.Flights.{Initializer, started, holders, called_for, IsSingleFlight}
use postgres_test_harness.Server.Flights.Lemmas.{
  same_refl, same-cases, owned-put, owned-put_none, called_for-unexpired, holders-extract,
  holds_flight-extract, All-extract,
}

pub start-IsSingleFlight : IsSingleFlight empty_cache []
start-IsSingleFlight = record {
  owned = tt;
  single = λ k. refl;
  awaited = λ f h. absurd (omega arith);
}

module _ (c : TemplateCache) (active : List Initializer) (v : IsSingleFlight c active) where
  -- A cold request: its fingerprint has no flight yet.
  pub begin-IsSingleFlight :
      (live : ℕ → Bool) (k : TemplateFingerprint)
      → called_for (c.entries k) ≡ 0
      → IsSingleFlight
          (begin_flight live k c).1
          (record { fingerprint = k; flight = c.next_flight } ∷ active)
  unfolding begin_flight prune_expired_ready_entries
  begin-IsSingleFlight live k cold = record {
    owned =
        (rw (same_refl k) refl, owned-put live k _ c.entries active (v.single k ∙ cold) v.owned);
    single = λ l. elim (same-cases k l) [
      | inl e ↦
          subst
            (λ j.
              (if same j k then suc (holders j active) else holders j active)
              ≡ called_for
                  (put k (some (initializing c.next_flight)) (λ i. unexpired live (c.entries i)) j))
            e (rw (same_refl k, v.single k, cold) refl)
      | inr (n, m) ↦ rw (n, m, called_for-unexpired live (c.entries l)) (v.single l)
    ];
    awaited = λ f h g. ground (arith, v.awaited f);
  }

  pub asks-IsSingleFlight :
      (live : ℕ → Bool) (k : TemplateFingerprint)
      → let (a, d) = template_cache_action live k c in IsSingleFlight d (started a k active)
  unfolding template_cache_action begin_flight
  asks-IsSingleFlight live k = by_entry (c.entries k) refl
    where
      by_entry :
          (e : Option TemplateCacheEntry)
          → c.entries k ≡ e
          → let (a, d) = act_on live k e c in IsSingleFlight d (started a k active)
      by_entry none h = begin-IsSingleFlight live k (ap called_for h)
      by_entry (some (initializing f)) h = v
      by_entry (some (ready t)) h = elim (Bool-cases (live t)) [
        | inl e ↦ rw (e, act_on) v
        | inr e ↦ rw (e, act_on) (begin-IsSingleFlight live k (ap called_for h))
      ]

  -- An initializer is done with: its entry becomes one that calls for no initializer.
  pub finish-IsSingleFlight :
      (i : ℕ) (x : Initializer) (rest : List Initializer) (e : Option TemplateCacheEntry)
      (flights : ℕ → TemplateFlight)
      → extract i active ≡ some (x, rest)
      → called_for e ≡ 0
      → ((f : ℕ)
          → (flights f).completed ≡ false
          → ((x.flight == f) ≡ false) × ((c.flights f).completed ≡ false))
      → IsSingleFlight
          (record c { entries = put x.fingerprint e c.entries; flights = flights })
          rest
  finish-IsSingleFlight i x rest e flights h quiet others =
      let (own, owns) =
        All-extract (λ y. c.entries y.fingerprint ≡ some (initializing y.flight)) i active x rest h
          v.owned in
      let held = holders-extract x.fingerprint i active x rest h in
      let called : called_for (c.entries x.fingerprint) ≡ 1 = ap called_for own in
      let reflexive = same_refl x.fingerprint in
      let alone : holders x.fingerprint rest ≡ 0 =
        ground (arith, held, v.single x.fingerprint, called, reflexive) in
      record {
        owned = owned-put_none x.fingerprint e c.entries rest alone owns;
        single = λ l. elim (same-cases x.fingerprint l) [
          | inl q ↦
              subst (λ j. holders j rest ≡ called_for (put x.fingerprint e c.entries j)) q
                (rw (same_refl x.fingerprint, quiet) alone)
          | inr (n, m) ↦ ground (arith, holders-extract l i active x rest h, v.single l)
        ];
        awaited = λ f b g.
            ground (arith, others f g, v.awaited f, holds_flight-extract f i active x rest h);
      }

  pub owner :
      (i : ℕ) (x : Initializer) (rest : List Initializer)
      → extract i active ≡ some (x, rest)
      → c.entries x.fingerprint ≡ some (initializing x.flight)
  owner i x rest h =
      (All-extract (λ y. c.entries y.fingerprint ≡ some (initializing y.flight)) i active x rest h
        v.owned).0

  pub owner-owns :
      (i : ℕ) (x : Initializer) (rest : List Initializer)
      → extract i active ≡ some (x, rest)
      → owns_entry (c.entries x.fingerprint) x.flight ≡ true
  owner-owns i x rest h = rw (owner i x rest h) (ground arith)

  pub publish-IsSingleFlight :
      (i t : ℕ) (x : Initializer) (rest : List Initializer)
      → extract i active ≡ some (x, rest)
      → IsSingleFlight (publish x.fingerprint x.flight t c) rest
  unfolding publish complete
  publish-IsSingleFlight i t x rest h = rw (owner-owns i x rest h) (
      finish-IsSingleFlight i x rest (some (ready t)) _ h refl
        (λ f g. (ground arith, ground arith)))

  pub drop-IsSingleFlight :
      (i : ℕ) (x : Initializer) (rest : List Initializer)
      → extract i active ≡ some (x, rest)
      → IsSingleFlight (drop_initializer x.fingerprint x.flight c) rest
  unfolding drop_initializer complete
  drop-IsSingleFlight i x rest h =
      rw (owner-owns i x rest h)
        (finish-IsSingleFlight i x rest none _ h refl (λ f g. (ground arith, ground arith)))
