-- ===== src/Harness/Prewarming.antt =====
-- src/harness.rs, `DatabaseTemplate::prewarm`: a pool is made and filled, one database after the
-- other. Nobody else has the pool before it is returned, but a shutdown of the server can close it
-- at any time; what each round meets is given.
use postgres_test_harness.Base.{
  ℕ, zero, suc, ◌+◌, ◌-◌, if◌then◌else◌, length, Bool, true, false, List, [], ◌∷◌, ◌++◌, Option,
  none, some, Result, ok, err,
}
use postgres_test_harness.Semaphore.{Semaphore}
use postgres_test_harness.Admin.Postgres.{Postgres}
use postgres_test_harness.Admission.{
  DatabaseAdmission, CreationResult, created, failed_creation, into_error, ensure_open,
}
use postgres_test_harness.Prewarm.State.{PreparedDatabase, PrewarmPoolState, creating_phase}
use postgres_test_harness.Prewarm.Pool.{
  PrewarmPoolInner, check_capacity, begin_creation, finish_creation, close_and_queue_ready,
  fail_phase,
}
use postgres_test_harness.Prewarm.Pool
use postgres_test_harness.Lease.{Replacement, announce, idle_of}
use postgres_test_harness.Harness.{create_fresh}

-- A shutdown closes the pools, and then the cleanup queue.
pub data Shutdown : Type 0 where
  no_shutdown closes_pools closes_queue : Shutdown

-- The result of checking a session out, what is drawn for the database, and how far a shutdown of
-- the server gets before the slot is reserved, and while the database is created.
pub record Round : Type 0 where
  pub session : Result (Unit {0})
  pub fresh : Replacement
  pub shuts_before : Shutdown
  pub shuts_meanwhile : Shutdown

module _ (pg : Postgres) (sem : Semaphore) where
  -- Whether the cleanup queue is closed; `queued` are the databases that it has accepted, `refused`
  -- those that it has refused, which are left, and `made` all that were created.
  pub record Filling : Type 0 where
    pub pool : PrewarmPoolInner sem
    pub site : DatabaseAdmission sem × pg.World
    pub queue_closed : Bool
    pub queued : List PreparedDatabase
    pub refused : List PreparedDatabase
    pub made : List PreparedDatabase

module _ (pg : Postgres) (timeout : ℕ) (sem : Semaphore) where
  abbrev pub unpublished_of :
      PreparedDatabase
      → CreationResult × (DatabaseAdmission sem × pg.World)
      → Result PreparedDatabase × (DatabaseAdmission sem × pg.World)
  unpublished_of d (created, s) = (ok d, s)
  unpublished_of d (failed_creation f, s) = (err (into_error f), s)

  unfoldable pub create_unpublished_database :
      Result (Unit {0})
      → Replacement
      → DatabaseAdmission sem × pg.World
      → Result PreparedDatabase × (DatabaseAdmission sem × pg.World)
  unfolding create_fresh
  create_unpublished_database (err e) fresh s = (err e, s)
  create_unpublished_database (ok _) fresh s =
      unpublished_of fresh.prepared (create_fresh pg timeout sem fresh s)

  -- `submit_prewarmer`, of databases that each have a slot: a closed queue refuses, which is logged
  -- and drops the slot's guard.
  abbrev pub submit_all : List PreparedDatabase → Filling pg sem → Filling pg sem
  submit_all ds f =
      if f.queue_closed
      then record f {
        pool = record (f.pool) {
          state = record (f.pool.state) { deleting = f.pool.state.deleting - length ds };
        };
        refused = f.refused ++ ds;
      }
      else record f { queued = f.queued ++ ds }

  abbrev pub queue_idle :
      Option (List PreparedDatabase) × PrewarmPoolInner sem → Filling pg sem → Filling pg sem
  queue_idle (ready, p) f = submit_all (idle_of sem ready) (record f { pool = p })

  -- The pool's `Drop`, or the shutdown of the server.
  unfoldable pub close_pool : Filling pg sem → Filling pg sem
  unfolding close_and_queue_ready
  close_pool f = queue_idle (close_and_queue_ready sem f.pool) f

  abbrev pub shut_if : Shutdown → Filling pg sem → Filling pg sem
  shut_if no_shutdown f = f
  shut_if closes_pools f = close_pool f
  shut_if closes_queue f = record (close_pool f) { queue_closed = true }

  -- `PrewarmCreation::fail`.
  unfoldable pub fail_creation : Filling pg sem → Filling pg sem
  unfolding fail_phase
  fail_creation f = queue_idle (fail_phase sem creating_phase f.pool) f

  abbrev pub listed : Option PreparedDatabase → List PreparedDatabase
  listed none = []
  listed (some d) = d ∷ []

  -- `PrewarmCreation::publish`: a database that comes too late is submitted for deletion.
  unfoldable pub publish_creation : PreparedDatabase → Filling pg sem → Filling pg sem
  unfolding finish_creation
  publish_creation d f =
      let (late, s) = finish_creation d f.pool.state in
      submit_all (listed late) (record f {
        pool = record (f.pool) {
          state = s;
          ready_admission = announce sem late f.pool.ready_admission;
        };
        made = f.made ++ d ∷ [];
      })

  abbrev pub end_round :
      Result PreparedDatabase × (DatabaseAdmission sem × pg.World)
      → Shutdown
      → Filling pg sem
      → Result (Unit {0}) × Filling pg sem
  end_round (ok d, s) shuts f = (ok tt, publish_creation d (shut_if shuts (record f { site = s })))
  end_round (err e, s) shuts f = (err e, fail_creation (shut_if shuts (record f { site = s })))

  abbrev pub with_slot :
      Round
      → Result (Unit {0}) × PrewarmPoolState
      → Filling pg sem
      → Result (Unit {0}) × Filling pg sem
  with_slot r (err e, s) f = (err e, record f { pool = record (f.pool) { state = s } })
  with_slot r (ok _, s) f =
      end_round (create_unpublished_database r.session r.fresh f.site) r.shuts_meanwhile
        (record f { pool = record (f.pool) { state = s } })

  -- One round of the loop.
  unfoldable pub fill_one : Round → Filling pg sem → Result (Unit {0}) × Filling pg sem
  unfolding begin_creation close_pool create_unpublished_database fail_creation publish_creation
  fill_one r f =
      let g = shut_if r.shuts_before f in
      with_slot r (begin_creation g.pool.capacity g.pool.state) g

  unfoldable pub fill : (ℕ → Round) → ℕ → ℕ → Filling pg sem → Result (Unit {0}) × Filling pg sem
  unfolding fill_one
  fill rounds zero i f = (ok tt, f)
  fill rounds (suc n) i f =
      let (r, g) = fill_one (rounds i) f in
      elim r [ ok _ ↦ fill rounds n (i + 1) g | err e ↦ (err e, g) ]

  abbrev pub new_filling : ℕ → DatabaseAdmission sem × pg.World → Filling pg sem
  new_filling capacity s = record {
    pool = Pool.new sem capacity;
    site = s;
    queue_closed = false;
    queued = [];
    refused = [];
    made = [];
  }

  -- An error drops the pool.
  abbrev pub filled : Result (Unit {0}) × Filling pg sem → Result (Unit {0}) × Filling pg sem
  filled (ok _, f) = (ok tt, f)
  filled (err e, f) = (err e, close_pool f)

  -- The registration of the pool refuses a server whose admission is closed.
  abbrev pub registered :
      Result (Unit {0}) → ℕ → (ℕ → Round) → Filling pg sem → Result (Unit {0}) × Filling pg sem
  registered (err e) capacity rounds f = (err e, f)
  registered (ok _) capacity rounds f = filled (fill rounds capacity 0 f)

  abbrev pub with_capacity :
      Result (Unit {0})
      → ℕ
      → (ℕ → Round)
      → DatabaseAdmission sem × pg.World
      → Result (Unit {0}) × Option (Filling pg sem)
  with_capacity (err e) capacity rounds s = (err e, none)
  with_capacity (ok _) capacity rounds (a, w) =
      let (r, f) = registered (ensure_open sem a) capacity rounds (new_filling capacity (a, w)) in
      (r, some f)

  -- `none` where no pool was made.
  unfoldable pub prewarm :
      ℕ
      → ℕ
      → (ℕ → Round)
      → DatabaseAdmission sem × pg.World
      → Result (Unit {0}) × Option (Filling pg sem)
  unfolding fill close_pool ensure_open check_capacity Pool.new
  prewarm max_capacity capacity rounds s =
      with_capacity (check_capacity capacity max_capacity) capacity rounds s
