-- ===== src/Cleanup/Submission.antt =====
-- src/cleanup.rs, `SubmissionQueue` and the calls that put a job on it.
use postgres_test_harness.Base.{
  ℕ, ◌+◌, Bool, true, false, not, ◌&&◌, List, [], ◌∷◌, ◌++◌, leb, if◌then◌else◌, length, Text,
  Option, none, some, cleanup_queue_closed, ok, err, Attempt, waits, panics, returns, max,
}
use postgres_test_harness.Semaphore.{Semaphore}
use postgres_test_harness.Cleanup.Completion.{CompletionState, new_completion}

-- Whether a caller awaits the job's result.
pub data CleanupCompletion : Type 0 where
  awaited deferred : CleanupCompletion

pub data CleanupAdmission : Type 0 where
  backpressured nonblocking_fallback : CleanupAdmission

-- The operation's outcome is given when a worker runs it. A permit is a number of units.
pub record CleanupJob : Type 0 where
  pub sequence : ℕ
  pub database_name : Text
  pub completion : CleanupCompletion
  pub permit : Option ℕ

pub record SubmissionState : Type 0 where
  pub jobs : List CleanupJob
  pub next_sequence : ℕ
  pub closed : Bool

abbrev pub u64_max : ℕ
u64_max = 18446744073709551615

abbrev pub is_backpressured : CleanupAdmission → Bool
is_backpressured backpressured = true
is_backpressured nonblocking_fallback = false

unfoldable pub close_submission : SubmissionState → SubmissionState × ℕ
close_submission s = (record s { closed = true }, s.next_sequence)

-- A worker's poll: a job, the end, or a wait.
pub data NextJob : Type 0 where
  job : CleanupJob → NextJob
  finished : NextJob
  idle : NextJob

unfoldable pub pop_job : List CleanupJob → SubmissionState → NextJob × SubmissionState
pop_job (j ∷ rest) s = (job j, record s { jobs = rest })
pop_job [] s = (if s.closed then finished else idle, s)

unfoldable pub next_job : SubmissionState → NextJob × SubmissionState
unfolding pop_job
next_job s = pop_job s.jobs s

module _ (sem : Semaphore) where
  -- `worker_count` threads run `cleanup_worker`; the model lets any number of them run.
  pub record DatabaseCleanupQueue : Type 0 where
    pub capacity : ℕ
    pub submission : SubmissionState
    pub completion : CompletionState
    pub database_admission : sem.State
    pub running : List CleanupJob

module _ (sem : Semaphore) where
  unfoldable pub new : ℕ → sem.State → DatabaseCleanupQueue sem
  unfolding new_completion
  new queue_capacity admission = record {
    capacity = max queue_capacity 1;
    submission = record { jobs = []; next_sequence = 0; closed = false };
    completion = new_completion;
    database_admission = admission;
    running = [];
  }

  unfoldable pub drop_permit : Option ℕ → sem.State → sem.State
  drop_permit none a = a
  drop_permit (some n) a = sem.add_permits n a

  -- The next sequence number, and the job with it at the end of the queue.
  unfoldable pub accept :
      Text → CleanupCompletion → Option ℕ → DatabaseCleanupQueue sem → DatabaseCleanupQueue sem
  accept name completion permit q = record q {
    submission = record (q.submission) {
      jobs =
          q.submission.jobs
          ++ record {
            sequence = q.submission.next_sequence + 1;
            database_name = name;
            completion = completion;
            permit = permit;
          }
            ∷ [];
      next_sequence = q.submission.next_sequence + 1;
    };
  }

  unfoldable pub release_permit : Option ℕ → DatabaseCleanupQueue sem → DatabaseCleanupQueue sem
  unfolding drop_permit
  release_permit permit q = record q {
    database_admission = drop_permit permit q.database_admission;
  }

  -- An error, or the panic of the last number, drops the job's permit with its other arguments.
  unfoldable pub enqueue :
      Text
      → CleanupCompletion
      → Option ℕ
      → CleanupAdmission
      → DatabaseCleanupQueue sem
      → Attempt (Unit {0}) × DatabaseCleanupQueue sem
  unfolding accept release_permit
  enqueue name completion permit admission q =
      if is_backpressured admission && leb q.capacity (length jobs) && not closed
      then (waits, q)
      else if closed
      then (returns (err cleanup_queue_closed), release_permit permit q)
      else if leb u64_max next_sequence
      then (panics, release_permit permit q)
      else (returns (ok tt), accept name completion permit q)
    where
      open q.submission use {jobs, next_sequence, closed}

  unfoldable pub submit_awaited_outcome :
      Text → ℕ → DatabaseCleanupQueue sem → Attempt (Unit {0}) × DatabaseCleanupQueue sem
  unfolding enqueue
  submit_awaited_outcome name permit q = enqueue name awaited (some permit) backpressured q

  -- The permit is dropped when the queue has accepted the job, and with an error.
  unfoldable pub release_after :
      Option ℕ
      → Attempt (Unit {0}) × DatabaseCleanupQueue sem
      → Attempt (Unit {0}) × DatabaseCleanupQueue sem
  unfolding release_permit
  release_after permit (returns r, q) = (returns r, release_permit permit q)
  release_after permit (waits, q) = (waits, q)
  release_after permit (panics, q) = (panics, release_permit permit q)

  unfoldable pub submit_deferred_outcome :
      Text → Option ℕ → DatabaseCleanupQueue sem → Attempt (Unit {0}) × DatabaseCleanupQueue sem
  unfolding enqueue release_after
  submit_deferred_outcome name permit q =
      release_after permit (enqueue name deferred none backpressured q)

  unfoldable pub submit_fallback_outcome :
      Text → ℕ → DatabaseCleanupQueue sem → Attempt (Unit {0}) × DatabaseCleanupQueue sem
  unfolding enqueue
  submit_fallback_outcome name permit q = enqueue name deferred (some permit) nonblocking_fallback q

  unfoldable pub submit_prewarmer :
      Text → DatabaseCleanupQueue sem → Attempt (Unit {0}) × DatabaseCleanupQueue sem
  unfolding enqueue
  submit_prewarmer name q = enqueue name deferred none nonblocking_fallback q
