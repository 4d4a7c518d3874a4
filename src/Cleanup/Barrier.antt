-- ===== src/Cleanup/Barrier.antt =====
-- src/cleanup.rs: a drain is a barrier, and it is not passed over or held up without cause.
use postgres_test_harness.Base.{
  ℕ, ◌+◌, ◌≤◌, ◌<◌, ◌≡◌, ap, false, not, List, [], ◌∷◌, arith, All, keep, count, some,
}
use postgres_test_harness.Semaphore.{Semaphore}
use postgres_test_harness.Cleanup.Completion.{CompletionState}
use postgres_test_harness.Cleanup.Submission.{CleanupJob, DatabaseCleanupQueue, new}
use postgres_test_harness.Cleanup.Drain.{
  CleanupDrainOutcome, wait_and_take, outcome_of, sort_by_sequence, is_due,
}
use postgres_test_harness.Cleanup.Steps.{Reach}
use postgres_test_harness.Cleanup.Invariant.{
  IsAccounted, sequences, Reach-IsAccounted, new-IsAccounted,
}

abbrev pub IsPast : ℕ → CleanupJob → Type 0
IsPast target j = target < j.sequence

-- A job that stands in a list is counted there.
Past-of-count :
    (target : ℕ) (js : List CleanupJob)
    → ((n : ℕ) → 1 ≤ n → n ≤ target → count n (sequences js) ≡ 0)
    → count 0 (sequences js) ≡ 0
    → All (IsPast target) js
Past-of-count target [] h z = tt
Past-of-count target (j ∷ js) h z = (
  ground (arith, h j.sequence),
  Past-of-count target js (λ n l m. ground (arith, h n l m)) (ground arith),
)

-- With no job waiting or running, every number that was given out is complete.
pub empty-through :
    {sem : Semaphore} (q : DatabaseCleanupQueue sem)
    → IsAccounted q
    → q.submission.jobs ≡ []
    → q.running ≡ []
    → q.submission.next_sequence ≤ q.completion.completed_through
empty-through q v jobs running =
    let none_waiting = ap (λ js. count (q.completion.completed_through + 1) (sequences js)) jobs in
    let none_running =
      ap (λ js. count (q.completion.completed_through + 1) (sequences js)) running in
    ground (arith, v.each (q.completion.completed_through + 1), v.gap, none_waiting, none_running)

module _ {sem : Semaphore} (capacity : ℕ) (a : sem.State) {q : DatabaseCleanupQueue sem}
    (reached : Reach sem (new sem capacity a) q) where
  -- When a drain with a target gets past its wait, on any queue that calls in any order have
  -- reached from a new one, no job with a number up to the target is waiting or running.
  pub drain_is_barrier :
      (target : ℕ) (o : CleanupDrainOutcome) (c : CompletionState)
      → wait_and_take target q.completion ≡ some (o, c)
      → All (IsPast target) q.submission.jobs × All (IsPast target) q.running
  unfolding wait_and_take
  drain_is_barrier target o c h =
      let v = Reach-IsAccounted (new-IsAccounted capacity a) reached in
      let through : target ≤ q.completion.completed_through = ground arith in
      (
        Past-of-count target q.submission.jobs (λ n l m. ground (arith, v.each n))
            (ground (arith, v.each 0)),
        Past-of-count target q.running (λ n l m. ground (arith, v.each n))
            (ground (arith, v.each 0)),
      )

  -- When no job waits or runs, every number given out is complete, so that a drain to the
  -- current target does not wait for completion: only for a delivery in flight.
  pub drain_proceeds :
      q.submission.jobs ≡ []
      → q.running ≡ []
      → q.completion.failure_delivery_in_flight ≡ false
      → (r : CleanupDrainOutcome × CompletionState) × (wait_and_take q.submission.next_sequence
            q.completion
          ≡ some r)
  unfolding wait_and_take
  drain_proceeds jobs running idle =
      let v = Reach-IsAccounted (new-IsAccounted capacity a) reached in
      let done : q.submission.next_sequence ≤ q.completion.completed_through =
        empty-through q v jobs running in
      let c = q.completion in
      let target = q.submission.next_sequence in
      (
        outcome_of (sort_by_sequence (keep (is_due target) c.failures))
            (record c { failures = keep (λ f. not (is_due target f)) c.failures }),
        ground arith,
      )
