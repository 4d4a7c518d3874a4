-- ===== src/Server/Pools.antt =====
-- src/server.rs, `close_prewarm_pools`: every pool is closed, and the cleanup queue stays accounted
-- for.
use postgres_test_harness.Base.{
  ◌≡◌, arith, true, List, [], ◌∷◌, All, Option, none, some, ok, err, Attempt, waits, panics,
  returns,
}
use postgres_test_harness.Semaphore.{Semaphore}
use postgres_test_harness.Cleanup.Submission.{
  DatabaseCleanupQueue, deferred, nonblocking_fallback, enqueue, submit_prewarmer,
}
use postgres_test_harness.Cleanup.Steps.{submits, here, next}
use postgres_test_harness.Cleanup.Invariant.{IsAccounted, Reach-IsAccounted}
use postgres_test_harness.Prewarm.Closing.{IsClosedPool, IsCleaned, close-IsClosedPool}
use postgres_test_harness.Prewarm.State.{PreparedDatabase}
use postgres_test_harness.Prewarm.Pool.{PrewarmPoolInner, finish_deletion}
use postgres_test_harness.Server.Halted.{permit-closed}
use postgres_test_harness.Server.Shutdown.{
  close_prewarm_pools, close_into, queue_all, and_then, job_or_guard,
  queue_counted_prepared_database,
}

abbrev pub When : {A : Type 0} → (A → Type 0) → Option A → Type 0
When P none = Unit
When P (some a) = P a

When-then :
    {A B : Type 0} (P : A → Type 0) (Q : B → Type 0) (m : Option A) (f : A → Option B)
    → When P m
    → ((a : A) → P a → When Q (f a))
    → When Q (and_then m f)
When-then P Q none f h k = tt
When-then P Q (some a) f h k = k a h

-- `Keeps` is what every submission of a prewarmed database keeps of the cleanup queue.
module _ (sem : Semaphore) (Keeps : DatabaseCleanupQueue sem → Type 0)
    (submit-kept : (d : PreparedDatabase) (q : DatabaseCleanupQueue sem)
      → Keeps q
      → Keeps (submit_prewarmer sem d.name.value q).1) where
  abbrev pub Both : PrewarmPoolInner sem × DatabaseCleanupQueue sem → Type 0
  Both (p, q) = IsClosedPool p × Keeps q

  job_or_guard-kept :
      (x : Attempt (Unit {0}) × DatabaseCleanupQueue sem) (p : PrewarmPoolInner sem)
      → IsClosedPool p
      → Keeps x.1
      → When Both (job_or_guard sem x p)
  unfolding finish_deletion
  job_or_guard-kept (returns (ok _), q) p c h = (c, h)
  job_or_guard-kept (returns (err e), q) p c h = (ground arith, h)
  job_or_guard-kept (waits, q) p c h = tt
  job_or_guard-kept (panics, q) p c h = tt

  queue_all-kept :
      (ds : List PreparedDatabase) (x : PrewarmPoolInner sem × DatabaseCleanupQueue sem)
      → Both x
      → When Both (queue_all sem ds x)
  unfolding queue_all queue_counted_prepared_database
  queue_all-kept [] x h = h
  queue_all-kept (d ∷ ds) (p, q) (c, h) =
      When-then Both Both _ _
        (job_or_guard-kept (submit_prewarmer sem d.name.value q) p c (submit-kept d q h))
        (λ y k. queue_all-kept ds y k)

  pub close_into-kept :
      (p : PrewarmPoolInner sem) (q : DatabaseCleanupQueue sem)
      → IsCleaned (some p)
      → Keeps q
      → When Both (close_into sem p q)
  unfolding close_into
  close_into-kept p q c h = queue_all-kept _ _ (close-IsClosedPool p c, h)

  abbrev pub AllClosed : List (PrewarmPoolInner sem) × DatabaseCleanupQueue sem → Type 0
  AllClosed (ps, q) = All IsClosedPool ps × Keeps q

  pub close_pools-kept :
      (ps : List (Option (PrewarmPoolInner sem))) (q : DatabaseCleanupQueue sem)
      → All IsCleaned ps
      → Keeps q
      → When AllClosed (close_prewarm_pools sem ps q)
  unfolding close_prewarm_pools
  close_pools-kept [] q c h = (tt, h)
  close_pools-kept (none ∷ ps) q (c, cs) h = close_pools-kept ps q cs h
  close_pools-kept (some p ∷ ps) q (c, cs) h =
      When-then Both AllClosed _ _ (close_into-kept p q c h) (λ x k.
        When-then AllClosed AllClosed _ _ (close_pools-kept ps x.1 cs k.1)
          (λ y m. ((k.0, m.0), m.1)))

module _ (sem : Semaphore) where
  abbrev pub IsReady : DatabaseCleanupQueue sem → Type 0
  IsReady q = IsAccounted q × (sem.is_closed q.database_admission ≡ true)

  pub submit-IsReady :
      (d : PreparedDatabase) (q : DatabaseCleanupQueue sem)
      → IsReady q
      → IsReady (submit_prewarmer sem d.name.value q).1
  unfolding submit_prewarmer enqueue
  submit-IsReady d q (v, h) = (
    Reach-IsAccounted v (next here (submits d.name.value deferred none nonblocking_fallback)),
    ground (arith, permit-closed sem none q.database_admission h),
  )
