-- ===== src/Server/Stopped.antt =====
-- src/server.rs, `shutdown_container`: what is over when the shutdown of a server is.
use postgres_test_harness.Base.{◌≡◌, true, List, [], All, none, some, waits, panics, returns}
use postgres_test_harness.Semaphore.{Semaphore}
use postgres_test_harness.Cleanup.Submission.{
  DatabaseCleanupQueue, CleanupJob, deferred, nonblocking_fallback, enqueue, accept, release_permit,
  drop_permit, submit_prewarmer, next_job, pop_job, SubmissionState, job,
}
use postgres_test_harness.Cleanup.Steps.{Reach}
use postgres_test_harness.Prewarm.Pool.{PrewarmPoolInner}
use postgres_test_harness.Cleanup
use postgres_test_harness.Sessions
use postgres_test_harness.Server.Shutdown.{Owner, Down}
use postgres_test_harness.Prewarm.Closing.{IsClosedPool}

module _ (sem : Semaphore) (workers : DatabaseCleanupQueue sem → DatabaseCleanupQueue sem)
    (runs : (q : DatabaseCleanupQueue sem) → Reach sem q (workers q)) where
  -- Nothing is waiting or running, and nothing can begin.
  abbrev pub IsOver : Owner sem → List (PrewarmPoolInner sem) → Type 0
  IsOver s pools =
      (s.database_cleanup.submission.jobs ≡ [])
      × (s.database_cleanup.running ≡ [])
      × (s.database_cleanup.submission.closed ≡ true)
      × (sem.is_closed s.database_cleanup.database_admission ≡ true)
      × (s.admin_sessions.closed ≡ true)
      × (s.admin_sessions.idle ≡ [])
      × (s.container ≡ some none)
      × All IsClosedPool pools

  Over : Down sem → Type 0
  Over (returns r, s, pools) = IsOver s pools
  Over (waits, s, pools) = Unit {0}
  Over (panics, s, pools) = Unit {0}
