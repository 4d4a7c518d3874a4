-- ===== src/Initialization/Prepared.antt =====
-- src/harness.rs: a template that is prepared, from `begin_template` to the end of its initializer.
use postgres_test_harness.Base.{
  ℕ, ◌≡◌, ◌∙◌, subst, true, [], ◌∷◌, Option, none, some, Result, ok, err,
}
use postgres_test_harness.Semaphore.{Semaphore}
use postgres_test_harness.Admin.Action.{Post, after-Post}
use postgres_test_harness.Admin.Postgres.{Postgres, Row}
use postgres_test_harness.Admin.Tracking.{Tracks, Lock}
use postgres_test_harness.Admission.{DatabaseAdmission}
use postgres_test_harness.Initialization.{
  TemplateRequest, TemplatePreparation, TemplateSource, ready_template, initialization, State,
  run_initializer, prepared_or_initialize, prepare_template, end_initialization, after_abort, abort,
}
use postgres_test_harness.Initialization.Locking.{Holds}
use postgres_test_harness.Initialization.Inspected.{Watches, shared_lock, both_locks, row_is_ready}
use postgres_test_harness.Initialization.Begun.{Prepared, Begun, begin-Post, lifted}
use postgres_test_harness.Initialization.Ended.{finish-Post}

module _ (pg : Postgres) (track : Tracks pg) (seen : Watches pg track) (q : TemplateRequest)
    (timeout : ℕ) (clock : pg.World → ℕ) (sem : Semaphore) (source : TemplateSource) (now : ℕ)
    (initializer : pg.World → Option ℕ × pg.World)
    (apart : (w : pg.World) (m : Lock) → track.held m (initializer w).1 ≡ track.held m w) where
  ended :
      (r : Option ℕ) (w : pg.World)
      → Holds pg track (both_locks q) w
      → Post
          (λ _. Prepared pg track seen q (some ready_template))
          (end_initialization pg timeout clock q now (r, w))
  ended none w h = finish-Post pg track timeout clock q seen now w h
  ended (some k) w h = failed (abort pg timeout clock q w)
    where
      failed :
          (r : Result (Unit {0}) × pg.World)
          → Post
              (λ _. Prepared pg track seen q (some ready_template))
              (after_abort pg timeout clock q k r)
      failed (ok _, v) = tt
      failed (err e, v) = tt

  -- The template is ready, or there was no fuel.
  Done : Option TemplatePreparation → State pg timeout clock q sem source now → Type 0
  Done (some p) s = Prepared pg track seen q (some ready_template) s.1
  Done none s = Unit {0}

  initialized :
      (p : Option TemplatePreparation) (s : State pg timeout clock q sem source now)
      → Prepared pg track seen q p s.1
      → Post Done (prepared_or_initialize pg timeout clock q sem source now initializer p s)
  unfolding Done run_initializer
  initialized none s h = tt
  initialized (some ready_template) s h = h
  initialized (some initialization) s h =
      after-Post
        (λ _ (t : State pg timeout clock q sem source now).
          Prepared pg track seen q (some ready_template) t.1)
        _ _ _
        (lifted (λ _. Prepared pg track seen q (some ready_template)) _ s.0 _
          (ended (initializer s.1).0 (initializer s.1).1 (λ m. apart s.1 m ∙ h m)))
        (λ _ t j. j)

  -- A template that is prepared by a session that held no lock, by an initializer that does not
  -- touch the session's locks, whether it was ready or is initialized: the session holds exactly
  -- the template's shared lock, once, and has seen under it a row whose metadata is that of the
  -- template asked for, and says ready.
  pub prepared_is_ready :
      (fuel : ℕ) (a b : DatabaseAdmission sem) (w v : pg.World) (p : TemplatePreparation)
      → ((m : Lock) → track.held m w ≡ 0)
      → prepare_template pg timeout clock q sem source now initializer fuel (a, w)
        ≡ (ok (some p), (b, v))
      → Holds pg track (shared_lock q ∷ []) v
        × ((r : Option Row) × seen.sees (shared_lock q) q.name.value r v
            × (row_is_ready q r ≡ true))
  unfolding prepare_template Done
  prepared_is_ready fuel a b w v p free e = subst (Post Done) e (
      after-Post (Begun pg track seen q timeout clock sem source now) _ _ _
        (begin-Post pg track seen q timeout clock sem source now fuel a w free)
        (λ r s h. initialized r s h))
