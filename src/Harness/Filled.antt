-- ===== src/Harness/Filled.antt =====
-- src/harness.rs, `DatabaseTemplate::prewarm`: where every database that it creates is in the end.
use postgres_test_harness.Base.{
  ℕ, ◌+◌, ◌≡◌, ◌⊎◌, inl, inr, arith, [], length, ◌++◌, true, false, Option, none, some, Result, ok,
  err,
}
use postgres_test_harness.Semaphore.{Semaphore}
use postgres_test_harness.Admin.Postgres.{Postgres}
use postgres_test_harness.Prewarm.Pool
use postgres_test_harness.Admission.{DatabaseAdmission}
use postgres_test_harness.Prewarm.Pool.{PrewarmPoolInner}
use postgres_test_harness.Harness.Prewarming.{Filling}

module _ (pg : Postgres) (timeout : ℕ) (sem : Semaphore) where
  -- A pool that is open, with slots reserved for creations: all that was made is idle.
  pub record IsOpen (n creating : ℕ) (f : Filling pg sem) : Type 0 where
    pub accepts : f.pool.state.accepting ≡ true
    pub untouched : f.pool.state.cleanup_started ≡ false
    pub idle : f.pool.state.ready ≡ f.made
    pub queue_open : f.queue_closed ≡ false
    pub none_queued : f.queued ≡ []
    pub none_refused : f.refused ≡ []
    pub size : length f.made ≡ n
    pub tokens : sem.available_permits f.pool.ready_admission ≡ n
    pub slots : f.pool.state.creating ≡ creating
    pub no_other : f.pool.state.leased + f.pool.state.deleting ≡ 0

  -- A pool that is closed: all that was made has been submitted for deletion; the cleanup queue has
  -- accepted what was submitted before it was closed, and has refused the rest.
  pub record IsShut (creating : ℕ) (f : Filling pg sem) : Type 0 where
    pub refuses : f.pool.state.accepting ≡ false
    pub touched : f.pool.state.cleanup_started ≡ true
    pub none_idle : f.pool.state.ready ≡ []
    pub all_submitted : f.queued ++ f.refused ≡ f.made
    pub refused_late : f.queue_closed ≡ false → f.refused ≡ []
    pub slots : f.pool.state.creating ≡ creating
    pub no_other : f.pool.state.leased ≡ 0
    pub slots_queued : f.pool.state.deleting ≡ length f.queued

  abbrev pub IsKept : ℕ → ℕ → Filling pg sem → Type 0
  IsKept n creating f = IsOpen n creating f ⊎ IsShut creating f

  -- Every field that a pool is judged by is as it was.
  moved :
      (n c : ℕ) (s : DatabaseAdmission sem × pg.World) (f : Filling pg sem)
      → IsKept n c f
      → IsKept n c (record f { site = s })
  moved n c s f (inl o) = inl (ground arith)
  moved n c s f (inr h) = inr (ground arith)

  -- After a round that succeeds there is one database more.
  abbrev AfterRound : ℕ → Result (Unit {0}) × Filling pg sem → Type 0
  AfterRound n (ok _, f) = IsKept (n + 1) 0 f
  AfterRound n (err e, f) = IsKept n 0 f

  -- After all rounds, or some of them.
  abbrev AfterAll : ℕ → Result (Unit {0}) × Filling pg sem → Type 0
  AfterAll n (ok _, f) = IsKept n 0 f
  AfterAll n (err e, f) = (m : ℕ) × IsKept m 0 f

  -- Of a prewarming that has ended: a pool that is returned is open and full, or closed; where an
  -- error is returned it is closed, or nothing was made.
  pub Prewarmed : ℕ → Result (Unit {0}) × Option (Filling pg sem) → Type 0
  Prewarmed capacity (ok _, none) = ⊥
  Prewarmed capacity (err e, none) = Unit {0}
  Prewarmed capacity (ok _, some f) = IsOpen capacity 0 f ⊎ IsShut 0 f
  Prewarmed capacity (err e, some f) = IsShut 0 f ⊎ (f.made ≡ [])
