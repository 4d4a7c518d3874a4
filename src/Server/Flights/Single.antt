-- ===== src/Server/Flights/Single.antt =====
-- src/server.rs: one initializer for a template at a time, and what becomes of those who wait.
use postgres_test_harness.Base.{
  ℕ, ◌<◌, ◌≡◌, refl, ap, subst, ◌∙◌, Bool, true, List, arith, extract, none, some,
}
use postgres_test_harness.Server.Templates.{
  ready, TemplateCache, initialize, begin_flight, act_on, template_cache_action, complete, publish,
  drop_initializer, await_flight,
}
use postgres_test_harness.Server.Flights.{
  Initializer, started, Step, asks, publishes, drops, Reach, start, next, holders, called_for,
  holds_flight, IsSingleFlight,
}
use postgres_test_harness.Server.Flights.Lemmas.{same_refl}
use postgres_test_harness.Server.Flights.Preservation.{
  start-IsSingleFlight, owner, owner-owns, asks-IsSingleFlight, publish-IsSingleFlight,
  drop-IsSingleFlight,
}

Step-IsSingleFlight :
    {c d : TemplateCache} {xs ys : List Initializer}
    → Step c xs d ys
    → IsSingleFlight c xs
    → IsSingleFlight d ys
Step-IsSingleFlight {c} {xs = xs} (asks live k d a h) v =
    subst (λ r. IsSingleFlight r.1 (started r.0 k xs)) h (asks-IsSingleFlight c xs v live k)
Step-IsSingleFlight {c} {xs = xs} (publishes i t x rest h) v =
    publish-IsSingleFlight c xs v i t x rest h
Step-IsSingleFlight {c} {xs = xs} (drops i x rest h) v = drop-IsSingleFlight c xs v i x rest h

Reach-IsSingleFlight :
    {c : TemplateCache} {xs : List Initializer} → Reach c xs → IsSingleFlight c xs
Reach-IsSingleFlight start = start-IsSingleFlight
Reach-IsSingleFlight (next r s) = Step-IsSingleFlight s (Reach-IsSingleFlight r)

module _ {c : TemplateCache} {active : List Initializer} (reached : Reach c active) where
  -- However callers share the cache, a fingerprint has at most one active initializer, and one that
  -- publishes a template finds the entry that it owns: it installs the template, and those who
  -- wait for its flight get that template.
  pub publish_installs :
      (i t : ℕ) (x : Initializer) (rest : List Initializer)
      → extract i active ≡ some (x, rest)
      → let d = publish x.fingerprint x.flight t c in
        (holders x.fingerprint active ≡ 1)
        × (d.entries x.fingerprint ≡ some (ready t))
        × (await_flight x.flight d ≡ some (some t))
  unfolding publish complete await_flight
  publish_installs i t x rest h =
      let v = Reach-IsSingleFlight reached in
      (
        v.single x.fingerprint ∙ ap called_for (owner c active v i x rest h),
        rw (owner-owns c active v i x rest h, same_refl x.fingerprint) refl,
        rw (owner-owns c active v i x rest h) (ground arith),
      )

  -- However callers share the cache, an initializer that is dropped without publishing takes its
  -- entry away, so that the next request starts anew, and wakes those who wait for its flight.
  pub drop_reopens :
      (i : ℕ) (x : Initializer) (rest : List Initializer) (live : ℕ → Bool)
      → extract i active ≡ some (x, rest)
      → let d = drop_initializer x.fingerprint x.flight c in
        ((template_cache_action live x.fingerprint d).0 ≡ initialize d.next_flight)
        × (await_flight x.flight d ≡ some (c.flights x.flight).template)
  unfolding drop_initializer complete await_flight template_cache_action act_on begin_flight
  drop_reopens i x rest live h =
      let v = Reach-IsSingleFlight reached in
      (
        rw (owner-owns c active v i x rest h, same_refl x.fingerprint) refl,
        rw (owner-owns c active v i x rest h) (ground arith),
      )

  -- However callers share the cache, whoever has to wait for a flight that was started waits for one
  -- that an active initializer has.
  pub waiter_is_served :
      (f : ℕ) → f < c.next_flight → await_flight f c ≡ none → holds_flight f active ≡ true
  unfolding await_flight
  waiter_is_served f b h = (Reach-IsSingleFlight reached).awaited f b (ground arith)
