-- ===== src/Harness/Acquired.antt =====
-- src/harness.rs, `get_or_initialize_template`: a caller asks the template cache, waits for the
-- flight of another caller, or prepares the template in a flight of its own.
use postgres_test_harness.Base.{ℕ, zero, suc, ◌+◌, Bool, Option, none, some, Error, Result, ok, err}
use postgres_test_harness.Semaphore.{Semaphore}
use postgres_test_harness.Fingerprint.Hex.{TemplateFingerprint}
use postgres_test_harness.Admin.Postgres.{Postgres}
use postgres_test_harness.Server.Templates.{
  TemplateCache, TemplateCacheAction, ready_action, initialize, wait, template_cache_action,
  publish, drop_initializer, await_flight,
}
use postgres_test_harness.Initialization.{
  TemplateRequest, TemplateSource, TemplatePreparation, ready_template, initialization, State,
  begin_template, run_initializer,
}

-- What a round meets: which templates are referenced, what other callers do to the cache while
-- this one waits or prepares, and the identity that a new template would have.
pub record Round : Type 0 where
  pub live : ℕ → Bool
  pub while_waiting : TemplateCache → TemplateCache
  pub while_preparing : TemplateCache → TemplateCache
  pub template : ℕ

-- How a call ends, where `waits` has not ended; the last is out of the model's fuel.
pub data Outcome : Type 0 where
  handle : ℕ → Outcome
  fails : Error → Outcome
  waits : Outcome
  panics : Outcome
  out_of_fuel : Outcome

-- What the owner of a flight comes to: it publishes, or drops the flight's initializer.
pub data Prepared : Type 0 where
  prepared : Prepared
  failed : Error → Prepared
  panicked starved : Prepared

module _ (pg : Postgres) (timeout : ℕ) (clock : pg.World → ℕ) (q : TemplateRequest)
    (sem : Semaphore) (source : TemplateSource) (now rounds : ℕ) where
  abbrev pub Client : Type 0
  Client = State pg timeout clock q sem source now

  -- The caller's initializer, which is taken when it runs.
  abbrev pub Initialize : Type 0
  Initialize = pg.World → Option ℕ × pg.World

  abbrev pub end_prepared : Result (Unit {0}) × pg.World → Client → Prepared × Client
  end_prepared (ok _, w) (a, v) = (prepared, (a, w))
  end_prepared (err e, w) (a, v) = (failed e, (a, w))

  abbrev pub go_on :
      Option Initialize → Result (Option TemplatePreparation) × Client → Prepared × Client
  go_on initializer (err e, s) = (failed e, s)
  go_on initializer (ok none, s) = (starved, s)
  go_on initializer (ok (some ready_template), s) = (prepared, s)
  go_on none (ok (some initialization), s) = (panicked, s)
  go_on (some initializer) (ok (some initialization), (a, w)) =
      end_prepared (run_initializer pg timeout clock q initializer now w) (a, w)

  -- The arm of a caller that owns the flight, up to its end.
  unfoldable pub prepare : Option Initialize → Client → Prepared × Client
  unfolding begin_template run_initializer
  prepare initializer s =
      go_on initializer (begin_template pg timeout clock q sem source now rounds s)

  abbrev pub Call : Type 0
  Call = Outcome × (TemplateCache × Client)

  module _ (k : TemplateFingerprint) where
    abbrev pub end_flight : ℕ → ℕ → TemplateCache → Prepared × Client → Call
    end_flight f template c (prepared, s) = (handle template, (publish k f template c, s))
    end_flight f template c (failed e, s) = (fails e, (drop_initializer k f c, s))
    end_flight f template c (panicked, s) = (panics, (drop_initializer k f c, s))
    end_flight f template c (starved, s) = (out_of_fuel, (drop_initializer k f c, s))

    abbrev pub after_wait : Option (Option ℕ) → (TemplateCache × Client) → Call → Call
    after_wait none s again = (waits, s)
    after_wait (some (some t)) s again = (handle t, s)
    after_wait (some none) s again = again

    abbrev pub act :
        Round
        → Option Initialize
        → (TemplateCache → Call)
        → TemplateCacheAction × TemplateCache
        → Client
        → Call
    act r initializer again (ready_action t, c) s = (handle t, (c, s))
    act r initializer again (wait f, c) s =
        let d = r.while_waiting c in after_wait (await_flight f d) (d, s) (again d)
    act r initializer again (initialize f, c) s =
        end_flight f r.template (r.while_preparing c) (prepare initializer s)

    -- The loop, from a round on.
    unfoldable pub get_or_initialize_template :
        (ℕ → Round) → Option Initialize → ℕ → ℕ → TemplateCache × Client → Call
    unfolding prepare publish drop_initializer await_flight template_cache_action
    get_or_initialize_template env initializer zero i (c, s) = (out_of_fuel, (c, s))
    get_or_initialize_template env initializer (suc fuel) i (c, s) =
        act (env i) initializer
          (λ d. get_or_initialize_template env initializer fuel (i + 1) (d, s))
          (template_cache_action (env i).live k c) s
