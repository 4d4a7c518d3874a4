-- ===== src/Server/Room.antt =====
-- src/server.rs, `close_prewarm_pools`: the numbers of the cleanup queue that closing the pools uses
-- up.
use postgres_test_harness.Base.{
  ℕ, ◌+◌, ◌≤◌, ◌≡◌, arith, Bool-cases, inl, inr, leb, false, List, [], ◌∷◌, length, Option, none,
  some, ok, err, Attempt, waits, panics, returns,
}
use postgres_test_harness.Semaphore.{Semaphore}
use postgres_test_harness.Cleanup.Submission.{
  DatabaseCleanupQueue, deferred, nonblocking_fallback, u64_max, enqueue, accept, release_permit,
  close_submission, submit_prewarmer, next_job, pop_job,
}
use postgres_test_harness.Cleanup.Worker.{run_cleanup_job}
use postgres_test_harness.Cleanup.Steps.{
  Step, submits, releases, closes, starts, completes, takes, acknowledges, restores, drops, Reach,
  here, next,
}
use postgres_test_harness.Cleanup.Invariant.{IsAccounted, Reach-IsAccounted}
use postgres_test_harness.Prewarm.State.{PreparedDatabase, begin_cleanup}
use postgres_test_harness.Prewarm.Pool.{PrewarmPoolInner, close_and_queue_ready}
use postgres_test_harness.Lease.{idle_of}
use postgres_test_harness.Server.Shutdown.{
  close_prewarm_pools, close_into, queue_all, and_then, job_or_guard,
  queue_counted_prepared_database,
}

module _ (sem : Semaphore) where
  -- A number is left for each of `m` more jobs.
  abbrev HasRoom : ℕ → DatabaseCleanupQueue sem → Type 0
  HasRoom m q = IsAccounted q × (q.submission.next_sequence + m ≤ u64_max)

  abbrev pub Sure : {A : Type 0} → (A → Type 0) → Option A → Type 0
  Sure P none = ⊥
  Sure P (some a) = P a

  Sure-then :
      {A B : Type 0} (P : A → Type 0) (Q : B → Type 0) (m : Option A) (f : A → Option B)
      → Sure P m
      → ((a : A) → P a → Sure Q (f a))
      → Sure Q (and_then m f)
  Sure-then P Q none f h k = absurd h
  Sure-then P Q (some a) f h k = k a h

  abbrev pub Roomy : {A : Type 0} → ℕ → A × DatabaseCleanupQueue sem → Type 0
  Roomy m (p, q) = HasRoom m q

  Ended : ℕ → Attempt (Unit {0}) × DatabaseCleanupQueue sem → Type 0
  Ended n (returns r, q) = q.submission.next_sequence ≤ n
  Ended n (waits, q) = ⊥
  Ended n (panics, q) = ⊥

  -- A submission with a number left is accepted or refused, and uses up one number at most.
  submit-Ended :
      (d : PreparedDatabase) (q : DatabaseCleanupQueue sem)
      → q.submission.next_sequence + 1 ≤ u64_max
      → Ended (q.submission.next_sequence + 1) (submit_prewarmer sem d.name.value q)
  unfolding submit_prewarmer enqueue accept release_permit Ended
  submit-Ended d q room = elim (Bool-cases q.submission.closed) [
    | inl shut ↦ rw (shut) (omega arith)
    | inr opened ↦
        let left : leb u64_max q.submission.next_sequence ≡ false = ground arith in
        rw (opened, left) (omega arith)
  ]

  job-Roomy :
      (m n : ℕ) (x : Attempt (Unit {0}) × DatabaseCleanupQueue sem) (p : PrewarmPoolInner sem)
      → Ended (n + 1) x
      → IsAccounted x.1
      → n + (m + 1) ≤ u64_max
      → Sure (Roomy m) (job_or_guard sem x p)
  unfolding Ended
  job-Roomy m n (returns (ok _), q) p e v room = (v, omega arith)
  job-Roomy m n (returns (err f), q) p e v room = (v, omega arith)
  job-Roomy m n (waits, q) p e v room = absurd e
  job-Roomy m n (panics, q) p e v room = absurd e

  submit-IsAccounted :
      (d : PreparedDatabase) (q : DatabaseCleanupQueue sem)
      → IsAccounted q
      → IsAccounted (submit_prewarmer sem d.name.value q).1
  unfolding submit_prewarmer
  submit-IsAccounted d q v =
      Reach-IsAccounted v (next here (submits d.name.value deferred none nonblocking_fallback))

  queue_all-Roomy :
      (ds : List PreparedDatabase) (m : ℕ) (x : PrewarmPoolInner sem × DatabaseCleanupQueue sem)
      → HasRoom (length ds + m) x.1
      → Sure (Roomy m) (queue_all sem ds x)
  unfolding queue_all queue_counted_prepared_database
  queue_all-Roomy [] m (p, q) (v, room) = (v, omega arith)
  queue_all-Roomy (d ∷ ds) m (p, q) (v, room) =
      Sure-then (Roomy (length ds + m)) (Roomy m) _ _
        (job-Roomy (length ds + m) q.submission.next_sequence _ p (submit-Ended d q (omega arith))
          (submit-IsAccounted d q v) (omega arith))
        (λ y k. queue_all-Roomy ds m y k)

  -- The databases that wait in the pools that are still there.
  abbrev pub ready_count : List (Option (PrewarmPoolInner sem)) → ℕ
  ready_count [] = 0
  ready_count (none ∷ ps) = ready_count ps
  ready_count (some p ∷ ps) = length p.state.ready + ready_count ps

  idle-bound :
      (p : PrewarmPoolInner sem)
      → length (idle_of sem (close_and_queue_ready sem p).0) ≤ length p.state.ready
  unfolding close_and_queue_ready begin_cleanup
  idle-bound p = elim (Bool-cases p.state.cleanup_started) [
    | inl begun ↦ rw (begun) (omega arith)
    | inr fresh ↦ rw (fresh) (omega arith)
  ]

  close_into-Roomy :
      (p : PrewarmPoolInner sem) (m : ℕ) (q : DatabaseCleanupQueue sem)
      → HasRoom (length p.state.ready + m) q
      → Sure (Roomy m) (close_into sem p q)
  unfolding close_into
  close_into-Roomy p m q (v, room) = queue_all-Roomy _ m _ (v, omega (arith, idle-bound p, room))

  pub close_pools-Roomy :
      (ps : List (Option (PrewarmPoolInner sem))) (q : DatabaseCleanupQueue sem)
      → HasRoom (ready_count ps) q
      → Sure (Roomy 0) (close_prewarm_pools sem ps q)
  unfolding close_prewarm_pools
  close_pools-Roomy [] q h = h
  close_pools-Roomy (none ∷ ps) q h = close_pools-Roomy ps q h
  close_pools-Roomy (some p ∷ ps) q h =
      Sure-then (Roomy (ready_count ps)) (Roomy 0) _ _ (close_into-Roomy p (ready_count ps) q h)
        (λ x k. Sure-then (Roomy 0) (Roomy 0) _ _ (close_pools-Roomy ps x.1 k) (λ y m. m))

  Step-next :
      {q r : DatabaseCleanupQueue sem}
      → Step sem q r
      → q.submission.next_sequence ≤ r.submission.next_sequence
  unfolding enqueue accept release_permit close_submission next_job pop_job run_cleanup_job
  Step-next (submits name completion permit admission) = ground arith
  Step-next (releases permit) = omega arith
  Step-next closes = omega arith
  Step-next {q} (starts j s h) = ground (arith)
  Step-next (completes i operation j rest h) = omega arith
  Step-next (takes target o c h) = omega arith
  Step-next acknowledges = omega arith
  Step-next (restores fs) = omega arith
  Step-next (drops o) = omega arith

  pub Reach-next :
      {q r : DatabaseCleanupQueue sem}
      → Reach sem q r
      → q.submission.next_sequence ≤ r.submission.next_sequence
  Reach-next here = omega arith
  Reach-next (next r t) = omega (arith, Reach-next r, Step-next t)
