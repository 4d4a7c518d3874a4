-- ===== src/Server/Halted.antt =====
-- src/cleanup.rs: a queue that is closed on a closed admission stays so, and a drain to its last
-- number leaves no job.
use postgres_test_harness.Base.{
  ℕ, ◌≤◌, ◌≡◌, refl, ◌∙◌, arith, if◌then◌else◌, Bool, true, false, List, [], ◌∷◌, count, Option,
  none, some,
}
use postgres_test_harness.Semaphore.{Semaphore}
use postgres_test_harness.Cleanup.Completion.{CompletionState}
use postgres_test_harness.Cleanup.Submission.{
  DatabaseCleanupQueue, CleanupJob, enqueue, release_permit, drop_permit, close_submission,
  next_job, pop_job, SubmissionState, job,
}
use postgres_test_harness.Cleanup.Worker.{run_cleanup_job, close_after}
use postgres_test_harness.Cleanup.Drain.{CleanupDrainOutcome, wait_and_take}
use postgres_test_harness.Cleanup.Steps.{
  Step, submits, releases, closes, starts, completes, takes, acknowledges, restores, drops, Reach,
  here, next,
}
use postgres_test_harness.Cleanup.Invariant.{IsAccounted, sequences}

module _ (sem : Semaphore) where
  -- A queue that takes no more jobs, has given out these numbers, and lets nothing be created.
  pub record IsStopped (target : ℕ) (q : DatabaseCleanupQueue sem) : Type 0 where
    pub stopped : q.submission.closed ≡ true
    pub last : q.submission.next_sequence ≡ target
    pub refused : sem.is_closed q.database_admission ≡ true

  pub permit-closed :
      (permit : Option ℕ) (a : sem.State)
      → sem.is_closed a ≡ true
      → sem.is_closed (drop_permit sem permit a) ≡ true
  unfolding drop_permit
  permit-closed none a h = h
  permit-closed (some n) a h = sem.is_closed-add n a ∙ h

  pop-same :
      (js : List CleanupJob) (s t : SubmissionState) (j : CleanupJob)
      → pop_job js s ≡ (job j, t)
      → (t.closed ≡ s.closed) × (t.next_sequence ≡ s.next_sequence)
  unfolding pop_job
  pop-same [] s t j h = ground arith
  pop-same (x ∷ xs) s t j h = ground arith

  after-closed :
      (b : Bool) (a : sem.State)
      → sem.is_closed a ≡ true
      → sem.is_closed (if b then sem.close a else a) ≡ true
  after-closed true a h = sem.is_closed-close a
  after-closed false a h = h

  Step-IsStopped :
      {target : ℕ} {q r : DatabaseCleanupQueue sem}
      → Step sem q r
      → IsStopped target q
      → IsStopped target r
  unfolding enqueue release_permit close_submission run_cleanup_job close_after next_job pop_job
  Step-IsStopped {q} (submits name completion permit admission) s =
      ground (arith, permit-closed permit q.database_admission s.refused)
  Step-IsStopped {q} (releases permit) s = record {
    stopped = s.stopped;
    last = s.last;
    refused = permit-closed permit q.database_admission s.refused;
  }
  Step-IsStopped closes s = record { stopped = refl; last = s.last; refused = s.refused }
  Step-IsStopped {q} (starts j t h) s =
      let (same, last) = pop-same q.submission.jobs q.submission t j h in
      record { stopped = same ∙ s.stopped; last = last ∙ s.last; refused = s.refused }
  Step-IsStopped {q} (completes i operation j rest h) s = record {
    stopped = s.stopped;
    last = s.last;
    refused = permit-closed j.permit _ (after-closed _ q.database_admission s.refused);
  }
  Step-IsStopped (takes target o c h) s = record {
    stopped = s.stopped;
    last = s.last;
    refused = s.refused;
  }
  Step-IsStopped acknowledges s = record { stopped = s.stopped; last = s.last; refused = s.refused }
  Step-IsStopped (restores fs) s = record {
    stopped = s.stopped;
    last = s.last;
    refused = s.refused;
  }
  Step-IsStopped (drops o) s = record { stopped = s.stopped; last = s.last; refused = s.refused }

  pub Reach-IsStopped :
      {target : ℕ} {q r : DatabaseCleanupQueue sem}
      → IsStopped target q
      → Reach sem q r
      → IsStopped target r
  Reach-IsStopped s here = s
  Reach-IsStopped s (next r t) = Step-IsStopped t (Reach-IsStopped s r)

  none_counted : (js : List CleanupJob) → ((n : ℕ) → count n (sequences js) ≡ 0) → js ≡ []
  none_counted [] h = refl
  none_counted (j ∷ js) h = ground (arith, h j.sequence)

  -- A stopped queue whose drain gets past its wait has no job left.
  pub emptied :
      (target : ℕ) (q : DatabaseCleanupQueue sem) (o : CleanupDrainOutcome) (c : CompletionState)
      → IsAccounted q
      → IsStopped target q
      → wait_and_take target q.completion ≡ some (o, c)
      → (q.submission.jobs ≡ []) × (q.running ≡ [])
  unfolding wait_and_take
  emptied target q o c v s h =
      let through : target ≤ q.completion.completed_through = ground arith in
      (
        none_counted q.submission.jobs (λ n. ground (arith, v.each n, s.last)),
        none_counted q.running (λ n. ground (arith, v.each n, s.last)),
      )

  -- Closing the queue is a step of its own.
  pub after_close :
      {q r : DatabaseCleanupQueue sem}
      → Reach sem (record q { submission = (close_submission q.submission).0 }) r
      → Reach sem q r
  after_close here = next here closes
  after_close (next r t) = next (after_close r) t
