-- ===== src/Server/Shutdown.antt =====
-- src/server.rs: the prewarmed pools that a server registers, and the end of a server with a container
-- of its own (`shutdown_container`). What the workers do while a drain waits is given.
use postgres_test_harness.Base.{
  List, [], ◌∷◌, ◌++◌, if◌then◌else◌, Option, none, some, connection_budget_closed, Result, ok, err,
  Attempt, waits, panics, returns,
}
use postgres_test_harness.Semaphore.{Semaphore}
use postgres_test_harness.Admission.{DatabaseAdmission, is_closed}
use postgres_test_harness.Cleanup.Completion.{CompletionState}
use postgres_test_harness.Cleanup.Submission.{
  DatabaseCleanupQueue, close_submission, submit_prewarmer,
}
use postgres_test_harness.Cleanup.Drain.{CleanupDrainOutcome, wait_and_take, finish, drop_outcome}
use postgres_test_harness.Prewarm.State.{PreparedDatabase}
use postgres_test_harness.Prewarm.Pool.{PrewarmPoolInner, close_and_queue_ready, finish_deletion}
use postgres_test_harness.Lease.{idle_of}
use postgres_test_harness.Sessions.Pool.{AdminSessionPoolState, close}
use postgres_test_harness.Container.{Joined, join_failed_startup_worker}
use postgres_test_harness.Server.Policy.{
  begin_owned_container_shutdown, combine_cleanup_and_shutdown,
}

-- The thread that owns a container: `none` while it runs, and what joining it comes to once it has
-- ended.
abbrev pub Thread : Type 0
Thread = Option Joined

-- `ContainerOwner::shutdown`, of the handle, which is `none` once it is taken; joining a thread that
-- runs waits. The mutex around the handle is not poisoned: no code that holds it panics.
unfoldable pub shutdown_owner : Option Thread → Attempt (Unit {0}) × Option Thread
unfolding join_failed_startup_worker
shutdown_owner none = (returns (ok tt), none)
shutdown_owner (some none) = (waits, none)
shutdown_owner (some (some end)) = (returns (join_failed_startup_worker end), none)

module _ (sem : Semaphore) where
  -- The weak reference to a pool is `none` where the pool is gone.
  pub record Owner : Type 0 where
    pub container : Option (Option Thread)
    pub database_cleanup : DatabaseCleanupQueue sem
    pub prewarm_pools : List (Option (PrewarmPoolInner sem))
    pub admin_sessions : AdminSessionPoolState

abbrev pub and_then : {A B : Type 0} → Option A → (A → Option B) → Option B
and_then none f = none
and_then (some a) f = f a

module _ (sem : Semaphore) where
  abbrev pub upgradable :
      List (Option (PrewarmPoolInner sem)) → List (Option (PrewarmPoolInner sem))
  upgradable [] = []
  upgradable (none ∷ ps) = upgradable ps
  upgradable (some p ∷ ps) = some p ∷ upgradable ps

  unfoldable pub register_prewarm_pool :
      PrewarmPoolInner sem → Owner sem → Result (Unit {0}) × Owner sem
  unfolding is_closed
  register_prewarm_pool p s =
      if is_closed sem s.database_cleanup.database_admission
      then (err connection_budget_closed, s)
      else (ok tt, record s { prewarm_pools = upgradable s.prewarm_pools ++ some p ∷ [] })

  abbrev pub Queue : Type 0
  Queue = DatabaseCleanupQueue sem

  -- A refused job is logged, and drops the guard of its slot. A job of this kind never waits.
  abbrev pub job_or_guard :
      Attempt (Unit {0}) × Queue → PrewarmPoolInner sem → Option (PrewarmPoolInner sem × Queue)
  job_or_guard (returns (ok _), q) p = some (p, q)
  job_or_guard (returns (err e), q) p = some (record p { state = finish_deletion p.state }, q)
  job_or_guard (waits, q) p = none
  job_or_guard (panics, q) p = none

  unfoldable pub queue_counted_prepared_database :
      PreparedDatabase → PrewarmPoolInner sem × Queue → Option (PrewarmPoolInner sem × Queue)
  unfolding submit_prewarmer finish_deletion
  queue_counted_prepared_database d (p, q) = job_or_guard (submit_prewarmer sem d.name.value q) p

  unfoldable pub queue_all :
      List PreparedDatabase → PrewarmPoolInner sem × Queue → Option (PrewarmPoolInner sem × Queue)
  unfolding queue_counted_prepared_database
  queue_all [] s = some s
  queue_all (d ∷ ds) s = and_then (queue_counted_prepared_database d s) (λ t. queue_all ds t)

  unfoldable pub close_into : PrewarmPoolInner sem → Queue → Option (PrewarmPoolInner sem × Queue)
  unfolding close_and_queue_ready queue_all
  close_into p q =
      let (ready, closed) = close_and_queue_ready sem p in queue_all (idle_of sem ready) (closed, q)

  -- `close_prewarm_pools`: the pools, closed, and the queue; `none` where a submission panics.
  unfoldable pub close_prewarm_pools :
      List (Option (PrewarmPoolInner sem)) → Queue → Option (List (PrewarmPoolInner sem) × Queue)
  unfolding close_into
  close_prewarm_pools [] q = some ([], q)
  close_prewarm_pools (none ∷ ps) q = close_prewarm_pools ps q
  close_prewarm_pools (some p ∷ ps) q =
      and_then (close_into p q)
        (λ x. and_then (close_prewarm_pools ps x.1) (λ y. some (x.0 ∷ y.0, y.1)))

  -- The result, the server, and the pools that were closed. A panic is one of the blocking task,
  -- which the caller meets as the error of a task that has failed (`BlockingTask`).
  abbrev pub Down : Type 0
  Down = Attempt (Unit {0}) × Owner sem × List (PrewarmPoolInner sem)

  module _ (workers : Queue → Queue) where
    abbrev pub with_thread :
        Attempt (Unit {0}) × Option Thread
        → CleanupDrainOutcome
        → Owner sem
        → List (PrewarmPoolInner sem)
        → Down
    with_thread (returns shutdown, gone) outcome s pools =
        let (cleanup, completion) = finish outcome s.database_cleanup.completion in
        (
          returns (combine_cleanup_and_shutdown cleanup shutdown),
          record s {
            container = some gone;
            database_cleanup = record (s.database_cleanup) { completion = completion };
          },
          pools,
        )
    with_thread (waits, gone) outcome s pools = (waits, record s { container = some gone }, pools)
    with_thread (panics, gone) outcome s pools = (panics, record s { container = some gone }, pools)

    abbrev pub with_sessions :
        Option Thread
        → CleanupDrainOutcome
        → Option AdminSessionPoolState
        → Owner sem
        → List (PrewarmPoolInner sem)
        → Down
    with_sessions c outcome none s pools = (
      panics,
      record s {
        database_cleanup = record (s.database_cleanup) {
          completion = drop_outcome outcome s.database_cleanup.completion;
        };
      },
      pools,
    )
    with_sessions c outcome (some sessions) s pools =
        with_thread (shutdown_owner c) outcome (record s { admin_sessions = sessions }) pools

    abbrev pub drained :
        Option Thread
        → Option (CleanupDrainOutcome × CompletionState)
        → Owner sem
        → List (PrewarmPoolInner sem)
        → Down
    drained c none s pools = (waits, s, pools)
    drained c (some (outcome, completion)) s pools =
        with_sessions c outcome (close s.admin_sessions)
          (record s { database_cleanup = record (s.database_cleanup) { completion = completion } })
          pools

    -- `close_and_begin_drain` and what follows it, with the pools closed.
    abbrev pub with_pools :
        Option Thread → Option (List (PrewarmPoolInner sem) × Queue) → Owner sem → Down
    with_pools c none s = (panics, s, [])
    with_pools c (some (pools, q)) s =
        let (submission, target) = close_submission q.submission in
        let r = workers (record q { submission = submission }) in
        drained c (wait_and_take target r.completion)
          (record s { database_cleanup = r; prewarm_pools = [] }) pools

    abbrev pub with_container : Option (Option Thread) × DatabaseAdmission sem → Owner sem → Down
    with_container (none, a) s = (returns (ok tt), s, [])
    with_container (some c, a) s =
        with_pools c
          (close_prewarm_pools s.prewarm_pools
            (record (s.database_cleanup) { database_admission = a }))
          s

    unfoldable pub shutdown_container : Owner sem → Down
    unfolding begin_owned_container_shutdown close_prewarm_pools close_submission wait_and_take
        close shutdown_owner finish drop_outcome combine_cleanup_and_shutdown
    shutdown_container s =
        with_container
          (begin_owned_container_shutdown sem s.container s.database_cleanup.database_admission) s
