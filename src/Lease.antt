-- ===== src/Lease.antt =====
-- src/harness.rs: leases of disposable databases: how one is returned, and the cleanup operation
-- that a worker runs for it, with the replacement that it may make for the prewarmed pool.
pub mod Disposal
pub mod Slots
use postgres_test_harness.Base.{
  ℕ, ◌+◌, Bool, true, false, List, [], Text, Option, none, some, Error, Result, ok, err, Attempt,
  waits, panics, returns,
}
use postgres_test_harness.Semaphore.{Semaphore}
use postgres_test_harness.Config.Project.{ProjectName}
use postgres_test_harness.Name.{DatabaseName}
use postgres_test_harness.Metadata.Decimal.{ℤ}
use postgres_test_harness.Metadata.Resource.{new_test}
use postgres_test_harness.Admin.Postgres.{Postgres}
use postgres_test_harness.Admin.Client.{drop_database}
use postgres_test_harness.Admission.{
  DatabaseAdmission, CreationResult, created, failed_creation, no_residual, residual_possible,
}
use postgres_test_harness.Admission.Creation.{create_managed_database_classified}
use postgres_test_harness.Cleanup.Submission.{
  DatabaseCleanupQueue, submit_awaited_outcome, submit_deferred_outcome, submit_fallback_outcome,
}
use postgres_test_harness.Cleanup.Worker.{CleanupOutcome, succeeded}
use postgres_test_harness.Cleanup.Worker
use postgres_test_harness.Sessions.Checkout.{AdminSessionDisposition, reuse, evict}
use postgres_test_harness.Prewarm.State.{
  PreparedDatabase, PrewarmReturnPhase, deleting_phase, creating_phase, complete_phase,
}
use postgres_test_harness.Prewarm.Pool.{
  PrewarmPoolInner, begin_return, after_drop, finish_creation, finish_deletion, fail_phase,
}

module _ (sem : Semaphore) where
  -- The guard of a returned lease's slot.
  pub record PrewarmReturn : Type 0 where
    pub pool : PrewarmPoolInner sem
    pub phase : PrewarmReturnPhase

module _ (sem : Semaphore) where
  -- `pool.begin_return()`, where the lease came from a pool that still exists.
  unfoldable pub begin_lease_return : Option (PrewarmPoolInner sem) → Option (PrewarmReturn sem)
  unfolding begin_return
  begin_lease_return none = none
  begin_lease_return (some p) =
      some (record { pool = record p { state = begin_return p.state }; phase = deleting_phase })

  -- `PrewarmReturn::after_drop`.
  unfoldable pub return_after_drop : PrewarmReturn sem → Bool × PrewarmReturn sem
  unfolding after_drop
  return_after_drop r =
      let (again, s) = after_drop r.pool.state in
      (
        again,
        record {
          pool = record (r.pool) { state = s };
          phase = elim again [ true ↦ creating_phase | false ↦ complete_phase ];
        },
      )

  -- A database that is put in the queue adds a permit to it.
  abbrev pub announce : Option PreparedDatabase → sem.State → sem.State
  announce none a = sem.add_permits 1 a
  announce (some d) a = a

  -- `PrewarmReturn::publish`.
  unfoldable pub return_publish :
      PreparedDatabase → PrewarmReturn sem → Option PreparedDatabase × PrewarmReturn sem
  unfolding finish_creation
  return_publish d r =
      let (unpublished, s) = finish_creation d r.pool.state in
      (
        unpublished,
        record {
          pool = record (r.pool) {
            state = s;
            ready_admission = announce unpublished r.pool.ready_admission;
          };
          phase = complete_phase;
        },
      )

  abbrev pub idle_of : Option (List PreparedDatabase) → List PreparedDatabase
  idle_of none = []
  idle_of (some ready) = ready

  abbrev pub failed_return :
      PrewarmReturnPhase → PrewarmPoolInner sem → List PreparedDatabase × PrewarmReturn sem
  failed_return phase p =
      let (ready, q) = fail_phase sem phase p in
      (idle_of ready, record { pool = q; phase = complete_phase })

  -- `Drop` of a guard: the idle databases that are to be queued for deletion, and the guard.
  unfoldable pub drop_return : PrewarmReturn sem → List PreparedDatabase × PrewarmReturn sem
  unfolding fail_phase
  drop_return r = by_phase r.phase r
    where
      by_phase : PrewarmReturnPhase → PrewarmReturn sem → List PreparedDatabase × PrewarmReturn sem
      by_phase deleting_phase r = failed_return deleting_phase r.pool
      by_phase creating_phase r = failed_return creating_phase r.pool
      by_phase complete_phase r = ([], r)

  abbrev pub drop_guard :
      Option (PrewarmReturn sem) → List PreparedDatabase × Option (PrewarmReturn sem)
  drop_guard none = ([], none)
  drop_guard (some r) = let (ready, s) = drop_return r in (ready, some s)

-- What a replacement is made with: the server's project and owner key, the pool's template, the
-- name that is drawn and the instant.
pub record Replacement : Type 0 where
  pub project : ProjectName
  pub owner_key : ℤ
  pub template_name : Text
  pub prepared : PreparedDatabase
  pub now : ℕ

-- `meanwhile` is what other threads do to the pool while a replacement is created.
module _ (pg : Postgres) (timeout : ℕ) (sem : Semaphore)
    (meanwhile : PrewarmPoolInner sem → PrewarmPoolInner sem) (fresh : Replacement) where
  abbrev pub Site : Type 0
  Site = DatabaseAdmission sem × pg.World

  -- The outcome with what becomes of the session, the guard and the server.
  abbrev pub Disposed : Type 0
  Disposed = AdminSessionDisposition CleanupOutcome × (Option (PrewarmReturn sem) × Site)

  abbrev pub finish_return : PrewarmReturn sem → PrewarmReturn sem
  finish_return r = record r { pool = record (r.pool) { state = finish_deletion r.pool.state } }

  abbrev pub discarded :
      PrewarmReturn sem → DatabaseAdmission sem → Result (Unit {0}) × pg.World → Disposed
  discarded r a (ok _, w) = (reuse succeeded, (some (finish_return r), (a, w)))
  discarded r a (err e, w) = (evict (Worker.residual_possible e), (some (finish_return r), (a, w)))

  abbrev pub published : Option PreparedDatabase × PrewarmReturn sem → Site → Disposed
  published (none, r) s = (reuse succeeded, (some r, s))
  published (some d, r) (a, w) = discarded r a (drop_database pg timeout d.name w)

  abbrev pub replaced : PrewarmReturn sem → CreationResult × Site → Disposed
  replaced r (created, s) = published (return_publish sem fresh.prepared r) s
  replaced r (failed_creation (no_residual e), s) = (reuse (Worker.no_residual e), (some r, s))
  replaced r (failed_creation (residual_possible e), s) =
      (evict (Worker.residual_possible e), (some r, s))

  abbrev pub refilled : Bool × PrewarmReturn sem → Site → Disposed
  refilled (false, r) s = (reuse succeeded, (some r, s))
  refilled (true, r) s =
      replaced (record r { pool = meanwhile r.pool })
        (create_managed_database_classified pg timeout sem fresh.prepared.name fresh.template_name
          (new_test fresh.now fresh.project fresh.owner_key) s)

  abbrev pub after_deletion :
      Option (PrewarmReturn sem) → DatabaseAdmission sem → Result (Unit {0}) × pg.World → Disposed
  after_deletion guard a (err e, w) = (evict (Worker.residual_possible e), (guard, (a, w)))
  after_deletion none a (ok _, w) = (reuse succeeded, (none, (a, w)))
  after_deletion (some r) a (ok _, w) = refilled (return_after_drop sem r) (a, w)

  -- The closure that `database_cleanup_operation` runs on a session.
  unfoldable pub dispose : DatabaseName → Option (PrewarmReturn sem) → Site → Disposed
  dispose name guard (a, w) = after_deletion guard a (drop_database pg timeout name w)

  abbrev pub payload : {T : Type 0} → AdminSessionDisposition T → T
  payload (reuse t) = t
  payload (evict t) = t

  -- The result of checking a session out is given. The guard is dropped at the end, and its idle
  -- databases are to be queued for deletion.
  unfoldable pub database_cleanup_operation :
      Result (Unit {0})
      → DatabaseName
      → Option (PrewarmReturn sem)
      → Site
      → CleanupOutcome × (List PreparedDatabase × Option (PrewarmReturn sem)) × Site
  unfolding dispose
  database_cleanup_operation (err e) name guard s =
      (Worker.residual_possible e, drop_guard sem guard, s)
  database_cleanup_operation (ok _) name guard s =
      let (outcome, (left, t)) = dispose name guard s in (payload outcome, drop_guard sem left, t)

module _ (sem : Semaphore) where
  -- `DatabaseLeaseInner`; the pool is that which the weak reference upgrades to, if any.
  pub record DatabaseLeaseInner : Type 0 where
    pub name : DatabaseName
    pub permit : ℕ
    pub prewarm_pool : Option (PrewarmPoolInner sem)

module _ (sem : Semaphore) where
  -- A job that the queue has accepted keeps its guard; a refused one drops it.
  abbrev pub guarded :
      Option (PrewarmReturn sem)
      → Attempt (Unit {0}) × DatabaseCleanupQueue sem
      → Attempt (Unit {0})
        × (List PreparedDatabase × Option (PrewarmReturn sem))
        × DatabaseCleanupQueue sem
  guarded guard (returns (err e), q) = (returns (err e), drop_guard sem guard, q)
  guarded guard (returns (ok _), q) = (returns (ok tt), ([], guard), q)
  guarded guard (waits, q) = (waits, ([], guard), q)
  guarded guard (panics, q) = (panics, drop_guard sem guard, q)

  abbrev pub Queued : Type 0
  Queued =
      Attempt (Unit {0})
      × (List PreparedDatabase × Option (PrewarmReturn sem))
      × DatabaseCleanupQueue sem

  unfoldable pub queue_awaited_cleanup : DatabaseLeaseInner sem → DatabaseCleanupQueue sem → Queued
  unfolding begin_lease_return submit_awaited_outcome
  queue_awaited_cleanup l q =
      guarded (begin_lease_return sem l.prewarm_pool)
        (submit_awaited_outcome sem l.name.value l.permit q)

  unfoldable pub queue_deferred_cleanup : DatabaseLeaseInner sem → DatabaseCleanupQueue sem → Queued
  unfolding begin_lease_return submit_deferred_outcome
  queue_deferred_cleanup l q =
      guarded (begin_lease_return sem l.prewarm_pool)
        (submit_deferred_outcome sem l.name.value (some l.permit) q)

  unfoldable pub queue_fallback_cleanup : DatabaseLeaseInner sem → DatabaseCleanupQueue sem → Queued
  unfolding begin_lease_return submit_fallback_outcome
  queue_fallback_cleanup l q =
      guarded (begin_lease_return sem l.prewarm_pool)
        (submit_fallback_outcome sem l.name.value l.permit q)
