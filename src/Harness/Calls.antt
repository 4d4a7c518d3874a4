-- ===== src/Harness/Calls.antt =====
-- src/harness.rs, `get_or_initialize_template`: what a call leaves in the cache that callers share.
use postgres_test_harness.Base.{
  ℕ, zero, suc, ◌+◌, ◌≢◌, refl, List, ◌∷◌, Option, none, some, Result, ok, err,
}
use postgres_test_harness.Semaphore.{Semaphore}
use postgres_test_harness.Fingerprint.Hex.{TemplateFingerprint}
use postgres_test_harness.Admin.Postgres.{Postgres}
use postgres_test_harness.Server.Templates.{
  TemplateCache, TemplateCacheAction, ready_action, initialize, wait, template_cache_action,
  await_flight,
}
use postgres_test_harness.Server.Flights.{Initializer, started, asks, publishes, drops, Reach, next}
use postgres_test_harness.Initialization.{
  TemplateRequest, TemplateSource, TemplatePreparation, ready_template, initialization,
  run_initializer,
}
use postgres_test_harness.Harness.Acquired.{
  Round, panics, Prepared, prepared, failed, panicked, starved, Client, end_prepared, go_on,
  prepare, Call, end_flight, after_wait, act, get_or_initialize_template,
}

module _ (pg : Postgres) (timeout : ℕ) (clock : pg.World → ℕ) (q : TemplateRequest)
    (sem : Semaphore) (source : TemplateSource) (now rounds : ℕ) (k : TemplateFingerprint)
    (initializer : pg.World → Option ℕ × pg.World) where
  go_on-calm :
      (r : Result (Option TemplatePreparation) × Client pg timeout clock q sem source now rounds)
      → (go_on pg timeout clock q sem source now rounds (some initializer) r).0 ≢ panicked
  go_on-calm (err e, s) h = cc
  go_on-calm (ok none, s) h = cc
  go_on-calm (ok (some ready_template), s) h = cc
  go_on-calm (ok (some initialization), (a, w)) h =
      by_end (run_initializer pg timeout clock q initializer now w) h
    where
      by_end :
          (x : Result (Unit {0}) × pg.World)
          → (end_prepared pg timeout clock q sem source now rounds x (a, w)).0 ≢ panicked
      by_end (ok _, v) h = cc
      by_end (err e, v) h = cc

  prepare-calm :
      (s : Client pg timeout clock q sem source now rounds)
      → (prepare pg timeout clock q sem source now rounds (some initializer) s).0 ≢ panicked
  unfolding prepare
  prepare-calm s = go_on-calm _

  -- `Theirs` says which initializers the other callers have.
  module _ (Theirs : List Initializer → Type 0) (env : ℕ → Round)
      (others_wait : (i : ℕ) (c : TemplateCache) (xs : List Initializer)
        → Theirs xs
        → Reach c xs
        → (ys : List Initializer) × Theirs ys × Reach ((env i).while_waiting c) ys)
      (others_prepare : (i : ℕ) (c : TemplateCache) (x : Initializer) (xs : List Initializer)
        → Theirs xs
        → Reach c (x ∷ xs)
        → (ys : List Initializer) × Theirs ys × Reach ((env i).while_preparing c) (x ∷ ys)) where
    abbrev Left : Call pg timeout clock q sem source now rounds → Type 0
    Left (r, (d, t)) = ((ys : List Initializer) × Theirs ys × Reach d ys) × (r ≢ panics)

    end_flight-Left :
        (f t : ℕ) (c : TemplateCache) (ys : List Initializer)
        → Theirs ys
        → Reach c (record { fingerprint = k; flight = f } ∷ ys)
        → (p : Prepared × Client pg timeout clock q sem source now rounds) → p.0 ≢ panicked
        → Left (end_flight pg timeout clock q sem source now rounds k f t c p)
    end_flight-Left f t c ys m r (prepared, s) calm =
        ((ys, m, next r (publishes 0 t _ ys refl)), λ h. cc)
    end_flight-Left f t c ys m r (failed e, s) calm = ((ys, m, next r (drops 0 _ ys refl)), λ h. cc)
    end_flight-Left f t c ys m r (panicked, s) calm = absurd (calm refl)
    end_flight-Left f t c ys m r (starved, s) calm = ((ys, m, next r (drops 0 _ ys refl)), λ h. cc)

    after_wait-Left :
        (p : Option (Option ℕ)) (c : TemplateCache) (xs : List Initializer)
        (s : Client pg timeout clock q sem source now rounds)
        (again : Call pg timeout clock q sem source now rounds)
        → Theirs xs
        → Reach c xs
        → Left again
        → Left (after_wait pg timeout clock q sem source now rounds k p (c, s) again)
    after_wait-Left none c xs s again m r h = ((xs, m, r), λ e. cc)
    after_wait-Left (some (some t)) c xs s again m r h = ((xs, m, r), λ e. cc)
    after_wait-Left (some none) c xs s again m r h = h

    act-Left :
        (i : ℕ) (again : TemplateCache → Call pg timeout clock q sem source now rounds)
        → ((d : TemplateCache) (ys : List Initializer) → Theirs ys → Reach d ys → Left (again d))
        → (a : TemplateCacheAction × TemplateCache) (xs : List Initializer) → Theirs xs
        → Reach a.1 (started a.0 k xs)
        → (s : Client pg timeout clock q sem source now rounds)
        → Left (act pg timeout clock q sem source now rounds k (env i) (some initializer) again a s)
    act-Left i again rest (ready_action t, c) xs m r s = ((xs, m, r), λ e. cc)
    act-Left i again rest (wait f, c) xs m r s =
        let (ys, n, reached) = others_wait i c xs m r in
        after_wait-Left (await_flight f ((env i).while_waiting c)) _ ys s _ n reached
          (rest _ ys n reached)
    act-Left i again rest (initialize f, c) xs m r s =
        let (ys, n, reached) = others_prepare i c _ xs m r in
        end_flight-Left f (env i).template _ ys n reached _ (prepare-calm s)

    -- However callers share the cache, and whatever the others do while this one waits or
    -- prepares: a call that starts in a cache that they have reached leaves one that they can reach
    -- with the initializers that are theirs, so that none of its own is left, and it does not
    -- panic.
    pub call_leaves_nothing :
        (fuel i : ℕ) (c : TemplateCache) (xs : List Initializer)
        (s : Client pg timeout clock q sem source now rounds)
        → Theirs xs
        → Reach c xs
        → let (r, (d, t)) =
            get_or_initialize_template pg timeout clock q sem source now rounds k env
              (some initializer)
              fuel
              i
              (c, s) in
          ((ys : List Initializer) × Theirs ys × Reach d ys) × (r ≢ panics)
    unfolding get_or_initialize_template
    call_leaves_nothing zero i c xs s m r = ((xs, m, r), λ e. cc)
    call_leaves_nothing (suc fuel) i c xs s m r =
        act-Left i
          (λ d.
            get_or_initialize_template pg timeout clock q sem source now rounds k env
              (some initializer) fuel (i + 1) (d, s))
          (λ d ys n reached. call_leaves_nothing fuel (i + 1) d ys s n reached)
          (template_cache_action (env i).live k c) xs m (next r (asks (env i).live k _ _ refl)) s
