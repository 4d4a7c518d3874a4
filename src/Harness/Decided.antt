-- ===== src/Harness/Decided.antt =====
-- src/harness.rs, `get_or_initialize_template`: the rounds that are enough for a call to end.
use postgres_test_harness.Base.{
  ℕ, zero, suc, ◌+◌, ◌≡◌, ◌≢◌, refl, Option, none, some, Result, ok, err,
}
use postgres_test_harness.Semaphore.{Semaphore}
use postgres_test_harness.Fingerprint.Hex.{TemplateFingerprint}
use postgres_test_harness.Admin.Postgres.{Postgres}
use postgres_test_harness.Server.Templates.{
  TemplateCache, TemplateCacheAction, ready_action, initialize, wait, template_cache_action,
  await_flight,
}
use postgres_test_harness.Initialization.{
  TemplateRequest, TemplateSource, TemplatePreparation, ready_template, initialization,
  begin_template, run_initializer,
}
use postgres_test_harness.Initialization.Observed.{Observes}
use postgres_test_harness.Initialization.Decided.{IsAlone, begin_decides}
use postgres_test_harness.Harness.Acquired.{
  Round, out_of_fuel, Prepared, prepared, failed, panicked, starved, Client, Initialize,
  end_prepared, go_on, prepare, Call, end_flight, after_wait, act, get_or_initialize_template,
}

module _ (pg : Postgres) (seen : Observes pg) (alone : IsAlone pg seen) (timeout : ℕ)
    (clock : pg.World → ℕ) (q : TemplateRequest) (sem : Semaphore) (source : TemplateSource)
    (now rounds : ℕ) where
  end_prepared-fed :
      (x : Result (Unit {0}) × pg.World) (s : Client pg timeout clock q sem source now (suc rounds))
      → (end_prepared pg timeout clock q sem source now (suc rounds) x s).0 ≢ starved
  end_prepared-fed (ok _, w) s = λ e. cc
  end_prepared-fed (err e, w) s = λ e. cc

  go_on-fed :
      (initializer : Option (Initialize pg timeout clock q sem source now (suc rounds)))
      (r : Result (Option TemplatePreparation)
        × Client pg timeout clock q sem source now (suc rounds))
      → ((p : Option TemplatePreparation) → r.0 ≡ ok p → p ≢ none)
      → (go_on pg timeout clock q sem source now (suc rounds) initializer r).0 ≢ starved
  go_on-fed i (err e, s) d = λ e. cc
  go_on-fed i (ok none, s) d = absurd (d none refl refl)
  go_on-fed i (ok (some ready_template), s) d = λ e. cc
  go_on-fed none (ok (some initialization), s) d = λ e. cc
  go_on-fed (some i) (ok (some initialization), (a, w)) d =
      end_prepared-fed (run_initializer pg timeout clock q i now w) (a, w)

  prepare-fed :
      (initializer : Option (Initialize pg timeout clock q sem source now (suc rounds)))
      (s : Client pg timeout clock q sem source now (suc rounds))
      → (prepare pg timeout clock q sem source now (suc rounds) initializer s).0 ≢ starved
  unfolding prepare
  prepare-fed initializer s = go_on-fed initializer _ (λ p e.
      begin_decides pg seen alone timeout clock q sem source now rounds s
        (begin_template pg timeout clock q sem source now (suc rounds) s).1 p
        (λ j. (e j, (begin_template pg timeout clock q sem source now (suc rounds) s).1)))

  module _ (k : TemplateFingerprint)
      (initializer : Option (Initialize pg timeout clock q sem source now (suc rounds)))
      (env : ℕ → Round) where
    -- In each of these rounds the call awaits a flight that is then given up.
    abbrev pub GivenUp : ℕ → ℕ → TemplateCache → Type 0
    GivenUp zero i c = Unit {0}
    GivenUp (suc n) i c =
        (f : ℕ) × (d : TemplateCache) × (template_cache_action (env i).live k c ≡ (wait f, d))
        × (await_flight f ((env i).while_waiting d) ≡ some none)
        × GivenUp n (i + 1) ((env i).while_waiting d)

    end_flight-ends :
        (f t : ℕ) (c : TemplateCache)
        (x : Prepared × Client pg timeout clock q sem source now (suc rounds))
        → x.0 ≢ starved
        → (end_flight pg timeout clock q sem source now (suc rounds) k f t c x).0 ≢ out_of_fuel
    end_flight-ends f t c (prepared, s) d = λ e. cc
    end_flight-ends f t c (failed x, s) d = λ e. cc
    end_flight-ends f t c (panicked, s) d = λ e. cc
    end_flight-ends f t c (starved, s) d = absurd (d refl)

    after_wait-ends :
        (p : Option (Option ℕ))
        (s : TemplateCache × Client pg timeout clock q sem source now (suc rounds))
        (again : Call pg timeout clock q sem source now (suc rounds))
        → (after_wait pg timeout clock q sem source now (suc rounds) k p s again).0 ≡ out_of_fuel
        → (p ≡ some none) × (again.0 ≡ out_of_fuel)
    after_wait-ends none s again h = absurd (cc)
    after_wait-ends (some (some t)) s again h = absurd (cc)
    after_wait-ends (some none) s again h = (refl, h)

    act-ends :
        (n i : ℕ) (c : TemplateCache)
        (again : TemplateCache → Call pg timeout clock q sem source now (suc rounds))
        (x : TemplateCacheAction × TemplateCache)
        (s : Client pg timeout clock q sem source now (suc rounds))
        → template_cache_action (env i).live k c ≡ x
        → ((d : TemplateCache) → (again d).0 ≡ out_of_fuel → GivenUp n (i + 1) d)
        → (act pg timeout clock q sem source now (suc rounds) k (env i) initializer again x s).0
          ≡ out_of_fuel
        → GivenUp (suc n) i c
    act-ends n i c again (ready_action t, d) s e rest h = absurd (cc)
    act-ends n i c again (wait f, d) s e rest h =
        let (gone, more) = after_wait-ends _ _ _ h in (f, d, e, gone, rest _ more)
    act-ends n i c again (initialize f, d) s e rest h =
        absurd (end_flight-ends f _ _ _ (prepare-fed initializer s) h)

    -- Where nobody else changes the template's database, a call runs out of its rounds only where
    -- in each of them it awaits a flight of another caller, and that flight is given up: otherwise
    -- it returns a template or an error, panics, or waits for a flight that is under way. For the
    -- loop that takes the template's locks one round is enough.
    pub call_decides :
        (fuel i : ℕ) (c : TemplateCache) (s : Client pg timeout clock q sem source now (suc rounds))
        → (get_or_initialize_template pg timeout clock q sem source now
            (suc rounds)
            k
            env
            initializer
            fuel
            i
            (c, s)).0
          ≡ out_of_fuel
        → GivenUp fuel i c
    unfolding get_or_initialize_template
    call_decides zero i c s h = tt
    call_decides (suc fuel) i c s h =
        act-ends fuel i c
          (λ d.
            get_or_initialize_template pg timeout clock q sem source now (suc rounds) k env
              initializer fuel (i + 1) (d, s))
          (template_cache_action (env i).live k c) s refl (λ d e. call_decides fuel (i + 1) d s e) h
