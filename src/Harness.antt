-- ===== src/Harness.antt =====
-- src/harness.rs: the operations that the harness offers on databases: making a lease of a fresh
-- database, and leasing one of a prewarmed pool. A future is tried once: `granted` is its result.
-- What other threads do at an await is `meanwhile`; a database's name, its URL and the instant are
-- drawn outside (`Replacement`).
pub mod Leases
pub mod Ready
pub mod Prewarming
pub mod Filled
pub mod Acquired
pub mod Calls
pub mod Handles
pub mod Decided
pub mod Closing
use postgres_test_harness.Base.{
  ℕ, Bool, true, false, Text, Option, none, some, prewarm_pool_closed, Result, ok, err,
}
use postgres_test_harness.Semaphore.{Semaphore, Poll, granted, closed, pending}
use postgres_test_harness.Name.{DatabaseName}
use postgres_test_harness.Metadata.Resource.{new_test}
use postgres_test_harness.Admin.Postgres.{Postgres}
use postgres_test_harness.Admission.{
  DatabaseAdmission, CreationResult, created, failed_creation, into_error, acquire,
}
use postgres_test_harness.Admission.Creation.{create_managed_database_classified}
use postgres_test_harness.Prewarm.State.{PreparedDatabase, PrewarmPoolState}
use postgres_test_harness.Prewarm.Pool.{PrewarmPoolInner, take_ready}
use postgres_test_harness.Lease.{Replacement}

-- `pooled` tells whether the lease has a weak reference to the pool that it came from.
pub record DatabaseLease : Type 0 where
  pub name : DatabaseName
  pub database_url : Text
  pub permit : ℕ
  pub pooled : Bool

-- `PreparedDatabase::into_lease`.
abbrev pub into_lease : ℕ → PreparedDatabase → DatabaseLease
into_lease permit d = record {
  name = d.name;
  database_url = d.database_url;
  permit = permit;
  pooled = true;
}

abbrev pub drop_held : (sem : Semaphore) → ℕ → sem.State → sem.State
drop_held sem permit a = sem.add_permits permit a

module _ (pg : Postgres) (timeout : ℕ) (sem : Semaphore) (fresh : Replacement) where
  abbrev pub Site : Type 0
  Site = DatabaseAdmission sem × pg.World

  -- The call that both kinds of creation make on a session that is checked out.
  unfoldable pub create_fresh : Site → CreationResult × Site
  create_fresh =
      create_managed_database_classified pg timeout sem fresh.prepared.name fresh.template_name
        (new_test fresh.now fresh.project fresh.owner_key)

  module _ (permit : ℕ) where
    -- An error drops the permit with the future.
    abbrev pub leased_or_back : CreationResult × Site → Result DatabaseLease × Site
    leased_or_back (created, s) =
        (ok (record (into_lease permit fresh.prepared) { pooled = false }), s)
    leased_or_back (failed_creation f, (a, w)) = (err (into_error f), (drop_held sem permit a, w))

    -- The part of `create_test_database` that blocks; the result of checking a session out is
    -- given.
    unfoldable pub create_with_permit : Result (Unit {0}) → Site → Result DatabaseLease × Site
    unfolding create_fresh
    create_with_permit (err e) (a, w) = (err e, (drop_held sem permit a, w))
    create_with_permit (ok _) s = leased_or_back (create_fresh s)

    abbrev pub with_permit :
        (Site → Site)
        → Result (Unit {0})
        → Poll (Result (DatabaseAdmission sem))
        → Site
        → Poll (Result DatabaseLease) × Site
    with_permit meanwhile checkout pending s = (pending, s)
    with_permit meanwhile checkout closed s = (closed, s)
    with_permit meanwhile checkout (granted (err e)) s = (granted (err e), s)
    with_permit meanwhile checkout (granted (ok b)) (a, w) =
        let (r, t) = create_with_permit checkout (meanwhile (b, w)) in (granted r, t)

    unfoldable pub create_test_database :
        (Site → Site) → Result (Unit {0}) → Site → Poll (Result DatabaseLease) × Site
    unfolding create_with_permit acquire
    create_test_database meanwhile checkout (a, w) =
        with_permit meanwhile checkout (acquire sem permit a) (a, w)

-- Whether the poll of the pool's semaphore `closed` ends; no permit is ever added to it.
abbrev pub is_ready : {A : Type 0} → Poll A → Bool
is_ready pending = false
is_ready (granted a) = true
is_ready closed = true

unfoldable pub acquire_database_permit_or_pool_close :
    {A : Type 0} → Poll (Result A) → Bool → Poll (Result A)
acquire_database_permit_or_pool_close (granted r) pool_closed = granted r
acquire_database_permit_or_pool_close closed pool_closed = closed
acquire_database_permit_or_pool_close pending true = granted (err prewarm_pool_closed)
acquire_database_permit_or_pool_close pending false = pending

module _ (sem : Semaphore) where
  abbrev pub PoolSite : Type 0
  PoolSite = PrewarmPoolInner sem × DatabaseAdmission sem

  -- The ready token is dropped, and so returns to its semaphore.
  abbrev pub return_token : PrewarmPoolInner sem → PrewarmPoolInner sem
  return_token p = record p { ready_admission = drop_held sem 1 p.ready_admission }

  -- The first await of `PrewarmedDatabasePool::database`.
  unfoldable pub reserve_ready :
      PrewarmPoolInner sem → Poll (Result (Unit {0})) × PrewarmPoolInner sem
  reserve_ready p = reserved (sem.acquire_many 1 p.ready_admission) p
    where
      reserved :
          Poll sem.State → PrewarmPoolInner sem → Poll (Result (Unit {0})) × PrewarmPoolInner sem
      reserved (granted t) p = (granted (ok tt), record p { ready_admission = t })
      reserved closed p = (granted (err prewarm_pool_closed), p)
      reserved pending p = (pending, p)

  module _ (permit : ℕ) where
    -- The token is forgotten where there is a database, and dropped with the permit otherwise.
    abbrev pub leased_ready :
        Option PreparedDatabase × PrewarmPoolState
        → PoolSite
        → Poll (Result DatabaseLease) × PoolSite
    leased_ready (some d, s) (p, a) =
        (granted (ok (into_lease permit d)), (record p { state = s }, a))
    leased_ready (none, s) (p, a) = (
      granted (err prewarm_pool_closed),
      (return_token (record p { state = s }), drop_held sem permit a),
    )

    abbrev pub with_pool_permit :
        (PrewarmPoolInner sem → PrewarmPoolInner sem)
        → Poll (Result (DatabaseAdmission sem))
        → PoolSite
        → Poll (Result DatabaseLease) × PoolSite
    with_pool_permit meanwhile pending s = (pending, s)
    with_pool_permit meanwhile closed s = (closed, s)
    with_pool_permit meanwhile (granted (err e)) (p, a) = (granted (err e), (return_token p, a))
    with_pool_permit meanwhile (granted (ok b)) (p, a) =
        leased_ready (take_ready (meanwhile p).state) (meanwhile p, b)

    -- `PrewarmedDatabasePool::database` from the second await on, with a token reserved.
    unfoldable pub lease_with_token :
        (PrewarmPoolInner sem → PrewarmPoolInner sem)
        → PoolSite
        → Poll (Result DatabaseLease) × PoolSite
    unfolding acquire acquire_database_permit_or_pool_close take_ready
    lease_with_token meanwhile (p, a) =
        with_pool_permit meanwhile
          (acquire_database_permit_or_pool_close (acquire sem permit a)
            (is_ready (sem.acquire_many 1 p.closed)))
          (p, a)

    abbrev pub with_token :
        (PrewarmPoolInner sem → PrewarmPoolInner sem)
        → (PoolSite → PoolSite)
        → Poll (Result (Unit {0})) × PrewarmPoolInner sem
        → DatabaseAdmission sem
        → Poll (Result DatabaseLease) × PoolSite
    with_token meanwhile between (granted (ok _), p) a = lease_with_token meanwhile (between (p, a))
    with_token meanwhile between (granted (err e), p) a = (granted (err e), (p, a))
    with_token meanwhile between (pending, p) a = (pending, (p, a))
    with_token meanwhile between (closed, p) a = (closed, (p, a))

    -- `PrewarmedDatabasePool::database`; `between` is what happens between its awaits.
    unfoldable pub database :
        (PrewarmPoolInner sem → PrewarmPoolInner sem)
        → (PoolSite → PoolSite)
        → PoolSite
        → Poll (Result DatabaseLease) × PoolSite
    unfolding reserve_ready lease_with_token
    database meanwhile between (p, a) = with_token meanwhile between (reserve_ready p) a

    -- The future is dropped at the second await.
    unfoldable pub cancel_with_token : PoolSite → PoolSite
    cancel_with_token (p, a) = (return_token p, a)
