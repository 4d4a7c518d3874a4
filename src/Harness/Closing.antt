-- ===== src/Harness/Closing.antt =====
-- src/harness.rs, `PrewarmedDatabasePool`: `shutdown`, which drops its handle at the end, and `Drop`.
-- What workers and other threads do while the shutdown waits is given (`meanwhile`).
use postgres_test_harness.Base.{
  ℕ, ◌≡◌, ◌==◌, Bool-cases, inl, inr, refl, subst, [], All, Option, none, some, Result, Attempt,
  waits, panics, returns,
}
use postgres_test_harness.Semaphore.{Semaphore}
use postgres_test_harness.Cleanup.Completion.{CompletionState}
use postgres_test_harness.Cleanup.Submission.{
  DatabaseCleanupQueue, new, submit_prewarmer, deferred, nonblocking_fallback,
}
use postgres_test_harness.Cleanup.Drain.{CleanupDrainOutcome, wait_and_take, finish}
use postgres_test_harness.Cleanup.Steps.{Reach, here, next, submits}
use postgres_test_harness.Cleanup.Barrier.{IsPast, drain_is_barrier}
use postgres_test_harness.Prewarm.Pool.{PrewarmPoolInner, close_and_queue_ready}
use postgres_test_harness.Prewarm.Closing.{IsClosedPool, IsCleaned, close-IsClosedPool}
use postgres_test_harness.Prewarm.Handles.{drop_handle}
use postgres_test_harness.Prewarm.State.{PreparedDatabase, begin_cleanup}
use postgres_test_harness.Server.Pools.{When, Both, close_into-kept}
use postgres_test_harness.Lease.{idle_of}
use postgres_test_harness.Server.Shutdown.{close_into, queue_all, and_then}

module _ (sem : Semaphore) where
  -- A pool and the cleanup queue of its server.
  abbrev pub Pooled : Type 0
  Pooled = PrewarmPoolInner sem × DatabaseCleanupQueue sem

  -- `Drop`: the count of handles is beside the pool.
  unfoldable pub drop_pool : ℕ → Pooled → Option (ℕ × Pooled)
  unfolding drop_handle queue_all
  drop_pool public_handles (p, q) =
      let (n, (ready, c)) = drop_handle sem public_handles p in
      and_then (queue_all sem (idle_of sem ready) (c, q)) (λ s. some (n, s))

  -- The pool is closed, and no job up to the target waits or runs.
  abbrev pub IsDrained : ℕ → Pooled → Type 0
  IsDrained target (p, q) =
      IsClosedPool p × All (IsPast target) q.submission.jobs × All (IsPast target) q.running

  module _ (meanwhile : Pooled → Pooled) where
    abbrev pub handle_dropped :
        Result (Unit {0}) → Pooled → Option (ℕ × Pooled) → Attempt (Unit {0}) × Pooled
    handle_dropped r s none = (panics, s)
    handle_dropped r s (some (n, t)) = (returns r, t)

    abbrev pub pool_drained :
        ℕ → Option (CleanupDrainOutcome × CompletionState) → Pooled → Attempt (Unit {0}) × Pooled
    pool_drained public_handles none s = (waits, s)
    pool_drained public_handles (some (outcome, c)) (p, q) =
        let (r, d) = finish outcome c in
        let s : Pooled = (p, record q { completion = d }) in
        handle_dropped r s (drop_pool public_handles s)

    -- `begin_drain` and what follows it.
    abbrev pub with_closed : ℕ → Pooled → Option Pooled → Attempt (Unit {0}) × Pooled
    with_closed public_handles s none = (panics, s)
    with_closed public_handles s (some t) =
        let u = meanwhile t in
        pool_drained public_handles (wait_and_take t.1.submission.next_sequence u.1.completion) u

    unfoldable pub shutdown_pool : ℕ → Pooled → Attempt (Unit {0}) × Pooled
    unfolding close_into wait_and_take finish drop_pool
    shutdown_pool public_handles (p, q) = with_closed public_handles (p, q) (close_into sem p q)

module _ (sem : Semaphore) (capacity : ℕ) (a : sem.State) (meanwhile : Pooled sem → Pooled sem)
    (runs : (s : Pooled sem) → Reach sem s.1 (meanwhile s).1)
    (stays : (s : Pooled sem) → IsClosedPool s.0 → IsClosedPool (meanwhile s).0) where
  abbrev Reached : DatabaseCleanupQueue sem → Type 0
  Reached = Reach sem (new sem capacity a)

  submit-Reached :
      (d : PreparedDatabase) (q : DatabaseCleanupQueue sem)
      → Reached q
      → Reached (submit_prewarmer sem d.name.value q).1
  unfolding submit_prewarmer
  submit-Reached d q r = next r (submits d.name.value deferred none nonblocking_fallback)

  reach-append : {q r s : DatabaseCleanupQueue sem} → Reach sem q r → Reach sem r s → Reach sem q s
  reach-append h here = h
  reach-append h (next r t) = next (reach-append h r) t

  -- `y` is what closing the pool and queueing its databases has come to.
  Shut : Option (Pooled sem) → Attempt (Unit {0}) × Pooled sem → Type 0
  Shut y (returns r, s) =
      (x : Pooled sem) × (y ≡ some x) × IsDrained sem x.1.submission.next_sequence s
  Shut y (waits, s) = Unit {0}
  Shut y (panics, s) = Unit {0}

  handle_dropped-Shut :
      (x : Pooled sem) (r : Result (Unit {0})) (s : Pooled sem) (z : Option (ℕ × Pooled sem))
      → When (λ t. IsDrained sem x.1.submission.next_sequence t.1) z
      → Shut (some x) (handle_dropped sem meanwhile r s z)
  unfolding Shut
  handle_dropped-Shut x r s none h = tt
  handle_dropped-Shut x r s (some (n, t)) h = (x, refl, h)

  none_idle :
      (p : PrewarmPoolInner sem)
      → p.state.ready ≡ []
      → idle_of sem (close_and_queue_ready sem p).0 ≡ []
  unfolding close_and_queue_ready begin_cleanup
  none_idle p empty = elim (Bool-cases p.state.cleanup_started) [
    | inl begun ↦ rw (begun) refl
    | inr fresh ↦ rw (fresh) empty
  ]

  -- Dropping a handle of a pool that is closed queues nothing.
  drop-IsDrained :
      (n target : ℕ) (s : Pooled sem)
      → IsDrained sem target s
      → When (λ t. IsDrained sem target t.1) (drop_pool sem n s)
  unfolding drop_pool drop_handle queue_all
  drop-IsDrained n target (p, q) (c, jobs, running) = elim (Bool-cases (n == 1)) [
    | inl last ↦ rw (last, none_idle p c.empty) (close-IsClosedPool p (inr c.empty), jobs, running)
    | inr more ↦ rw (more) (c, jobs, running)
  ]

  pool_drained-Shut :
      (n : ℕ) (x s : Pooled sem)
      → Reached s.1
      → IsClosedPool s.0
      → (w : Option (CleanupDrainOutcome × CompletionState))
      → wait_and_take x.1.submission.next_sequence s.1.completion ≡ w
      → Shut (some x) (pool_drained sem meanwhile n w s)
  unfolding Shut
  pool_drained-Shut n x s r c none e = tt
  pool_drained-Shut n x (p, q) r c (some (o, d)) e =
      let (jobs, running) = drain_is_barrier capacity a r x.1.submission.next_sequence o d e in
      handle_dropped-Shut x _ _ _ (drop-IsDrained n _ _ (c, jobs, running))

  with_closed-Shut :
      (n : ℕ) (s : Pooled sem) (y : Option (Pooled sem))
      → When (Both sem Reached submit-Reached) y
      → Shut y (with_closed sem meanwhile n s y)
  unfolding Shut
  with_closed-Shut n s none h = tt
  with_closed-Shut n s (some x) (c, r) =
      pool_drained-Shut n x (meanwhile x) (reach-append r (runs x)) (stays x c) _ refl

  -- When the shutdown of a prewarmed pool returns, whatever its result, and whatever the workers
  -- and other threads did while it waited, without reopening the pool: the pool is closed, with no
  -- idle database, and no cleanup job that was submitted before it or that it has submitted for
  -- the pool's idle databases is waiting or running. The queue is one that calls in any order have
  -- reached from a new one, and a pool whose cleanup has begun has no idle database.
  pub pool_shutdown_drains :
      (n : ℕ) (p : PrewarmPoolInner sem) (q : DatabaseCleanupQueue sem) (r : Result (Unit {0}))
      (t : Pooled sem)
      → Reached q
      → IsCleaned (some p)
      → shutdown_pool sem meanwhile n (p, q) ≡ (returns r, t)
      → (x : Pooled sem) × (close_into sem p q ≡ some x)
        × IsDrained sem x.1.submission.next_sequence t
  unfolding shutdown_pool Shut
  pool_shutdown_drains n p q r t reached cleaned h =
      subst (Shut (close_into sem p q)) h (
        with_closed-Shut n (p, q) _
          (close_into-kept sem Reached submit-Reached p q cleaned reached))
