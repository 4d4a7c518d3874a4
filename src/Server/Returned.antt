-- ===== src/Server/Returned.antt =====
-- src/server.rs, `shutdown_container`: a shutdown returns.
use postgres_test_harness.Base.{
  ◌≢◌, sym, ◌∙◌, ℕ, ◌+◌, ◌≤◌, ◌≡◌, refl, arith, ltb, false, List, [], length, Option, none, some,
  Result, returns,
}
use postgres_test_harness.Semaphore.{Semaphore}
use postgres_test_harness.Cleanup.Submission.{
  DatabaseCleanupQueue, deferred, nonblocking_fallback, u64_max, enqueue, accept, release_permit,
  close_submission, submit_prewarmer, next_job, pop_job,
}
use postgres_test_harness.Cleanup.Drain.{CleanupDrainOutcome, wait_and_take}
use postgres_test_harness.Cleanup.Steps.{Reach}
use postgres_test_harness.Cleanup.Invariant.{IsAccounted, Reach-IsAccounted, new-IsAccounted}
use postgres_test_harness.Cleanup.Barrier.{empty-through}
use postgres_test_harness.Cleanup
use postgres_test_harness.Prewarm.Pool.{PrewarmPoolInner}
use postgres_test_harness.Sessions
use postgres_test_harness.Sessions.Pool.{AdminSessionPoolState}
use postgres_test_harness.Server.Policy.{begin_owned_container_shutdown}
use postgres_test_harness.Server.Halted.{after_close}
use postgres_test_harness.Server.Shutdown.{
  shutdown_owner, Thread, with_thread, Owner, Down, shutdown_container, with_container, with_pools,
  drained, with_sessions,
}
use postgres_test_harness.Server.Room.{Sure, Roomy, ready_count, close_pools-Roomy, Reach-next}

module _ (sem : Semaphore) (workers : DatabaseCleanupQueue sem → DatabaseCleanupQueue sem)
    (runs : (q : DatabaseCleanupQueue sem) → Reach sem q (workers q)) where
  -- The workers end with no job waiting or running, and no other drain is delivering failures.
  abbrev pub Finish : Type 0
  Finish =
      (q : DatabaseCleanupQueue sem)
      → ((workers q).submission.jobs ≡ [])
        × ((workers q).running ≡ [])
        × ((workers q).completion.failure_delivery_in_flight ≡ false)

  Returns : Down sem → Type 0
  Returns d = (r : Result (Unit {0})) × (d.0 ≡ returns r)

  with_sessions-Returns :
      (c : Option Thread) (o : CleanupDrainOutcome) (s : Owner sem)
      (pools : List (PrewarmPoolInner sem)) (n : AdminSessionPoolState)
      → c ≢ some none
      → length n.idle ≤ n.total
      → Returns (with_sessions sem workers c o (Sessions.Pool.close n) s pools)
  unfolding Returns Sessions.Pool.close shutdown_owner
  with_sessions-Returns c o s pools n ended h =
      let enough : ltb n.total (length n.idle) ≡ false = ground arith in
      rw (enough) (by_thread c ended _)
    where
      by_thread :
          (d : Option Thread)
          → d ≢ some none
          → (t : Owner sem) → Returns (with_thread sem workers (shutdown_owner d) o t pools)
      by_thread none e t = (_, refl)
      by_thread (some none) e t = absurd (e refl)
      by_thread (some (some end)) e t = (_, refl)

  drained-Returns :
      (c : Option Thread) (target : ℕ) (s : Owner sem) (pools : List (PrewarmPoolInner sem))
      → c ≢ some none
      → length s.admin_sessions.idle ≤ s.admin_sessions.total
      → target ≤ s.database_cleanup.completion.completed_through
      → s.database_cleanup.completion.failure_delivery_in_flight ≡ false
      → Returns (drained sem workers c (wait_and_take target s.database_cleanup.completion) s pools)
  unfolding wait_and_take
  drained-Returns c target s pools ended h through still =
      let past : ltb s.database_cleanup.completion.completed_through target ≡ false =
        ground arith in
      rw (past, still) (with_sessions-Returns c _ _ pools s.admin_sessions ended h)

  with_pools-Returns :
      Finish
      → (c : Option Thread) (s : Owner sem)
        (x : Option (List (PrewarmPoolInner sem) × DatabaseCleanupQueue sem))
      → c ≢ some none
      → length s.admin_sessions.idle ≤ s.admin_sessions.total
      → Sure sem (Roomy sem 0) x
      → Returns (with_pools sem workers c x s)
  unfolding close_submission
  with_pools-Returns finish c s none ended h r = absurd r
  with_pools-Returns finish c s (some (pools, q)) ended h (v, room) =
      let stopped_queue : DatabaseCleanupQueue sem = record q {
        submission = (close_submission q.submission).0;
      } in
      let accounted = Reach-IsAccounted v (after_close sem (runs stopped_queue)) in
      let (jobs, running, still) = finish stopped_queue in
      drained-Returns c q.submission.next_sequence
        (record s { database_cleanup = workers stopped_queue; prewarm_pools = [] }) pools ended h
        (omega (arith, Reach-next sem (runs stopped_queue), empty-through _ accounted jobs running))
        still

  -- Where the cleanup workers end with no job waiting or running, no other drain has its delivery
  -- under way, and the container's thread, if it has not been joined before, ends once it is told
  -- to, the shutdown of a server with a container of its own returns: it neither waits nor panics.
  -- The queue is one that calls in any order have reached from a new one, with
  -- a 64-bit number left for each database that waits in a registered pool, and the session pool
  -- counts at least its idle sessions.
  pub shutdown_returns :
      Finish
      → (capacity : ℕ) (a : sem.State) (s : Owner sem) (c : Option Thread)
      → Reach sem (Cleanup.Submission.new sem capacity a) s.database_cleanup
      → s.database_cleanup.submission.next_sequence + ready_count sem s.prewarm_pools ≤ u64_max
      → length s.admin_sessions.idle ≤ s.admin_sessions.total
      → s.container ≡ some c
      → c ≢ some none
      → (r : Result (Unit {0})) × ((shutdown_container sem workers s).0 ≡ returns r)
  unfolding shutdown_container begin_owned_container_shutdown Returns
  shutdown_returns finish capacity a s c reached room sessions owned ended =
      by_container s.container owned
    where
      v : IsAccounted s.database_cleanup
      v = Reach-IsAccounted (new-IsAccounted capacity a) reached

      by_container :
          (x : Option (Option Thread))
          → x ≡ some c
          → Returns (
              with_container sem workers
                (begin_owned_container_shutdown sem x s.database_cleanup.database_admission)
                s)
      by_container none e = absurd (cc)
      by_container (some d) e =
          let same : d ≡ c = cc in
          with_pools-Returns finish d s _ (λ z. ended (sym same ∙ z)) sessions
            (close_pools-Roomy sem s.prewarm_pools _ (record { each = v.each; gap = v.gap }, room))
