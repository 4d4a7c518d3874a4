-- ===== src/Harness/Handles.antt =====
-- src/harness.rs, `get_or_initialize_template`: what the session of a call has
-- seen when it returns a template.
use postgres_test_harness.Base.{ℕ, ◌≡◌, ◌⊎◌, true, [], ◌∷◌, Option}
use postgres_test_harness.Semaphore.{Semaphore}
use postgres_test_harness.Fingerprint.Hex.{TemplateFingerprint}
use postgres_test_harness.Admin.Postgres.{Postgres, Row}
use postgres_test_harness.Admin.Tracking.{Tracks, Lock}
use postgres_test_harness.Admission.{DatabaseAdmission}
use postgres_test_harness.Initialization.{TemplateRequest, TemplateSource}
use postgres_test_harness.Initialization.Locking.{Holds}
use postgres_test_harness.Initialization.Inspected.{Watches, shared_lock, row_is_ready}
use postgres_test_harness.Harness.Acquired.{Round, handle, Prepared, Client, Call}

module _ (pg : Postgres) (timeout : ℕ) (clock : pg.World → ℕ) (q : TemplateRequest)
    (sem : Semaphore) (source : TemplateSource) (now rounds : ℕ) (k : TemplateFingerprint)
    (initializer : pg.World → Option ℕ × pg.World) where
  module _ (track : Tracks pg) (seen : Watches pg track)
      (apart : (w : pg.World) (m : Lock) → track.held m (initializer w).1 ≡ track.held m w)
      (env : ℕ → Round) (a : DatabaseAdmission sem) (w : pg.World)
      (free : (m : Lock) → track.held m w ≡ 0) where
    -- The session was not used, or has the template's lock and has seen that it is ready.
    abbrev pub Seen : Client pg timeout clock q sem source now rounds → Type 0
    Seen t =
        (t ≡ (a, w))
        ⊎ (Holds pg track (shared_lock q ∷ []) t.1
            × ((r : Option Row) × seen.sees (shared_lock q) q.name.value r t.1
                × (row_is_ready q r ≡ true)))

    OfHandle : Call pg timeout clock q sem source now rounds → Type 0
    OfHandle (handle template, (d, t)) = Seen t
    OfHandle (r, (d, t)) = Unit {0}
