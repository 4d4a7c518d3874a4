-- ===== src/Cleanup/Worker.antt =====
-- src/cleanup.rs: the outcome of a cleanup operation, and what a worker does with it.
use postgres_test_harness.Base.{
  ℕ, Bool, true, false, if◌then◌else◌, Text, Option, none, some, Error, DeferredCleanupFailure,
  cleanup_worker_panicked, Result, ok, err,
}
use postgres_test_harness.Semaphore.{Semaphore}
use postgres_test_harness.Cleanup.Completion.{CompletionState, complete, record_late_failure}
use postgres_test_harness.Cleanup.Submission.{
  CleanupCompletion, awaited, deferred, CleanupJob, DatabaseCleanupQueue, drop_permit,
}

pub data CleanupOutcome : Type 0 where
  succeeded : CleanupOutcome
  no_residual : Error → CleanupOutcome
  residual_possible : Error → CleanupOutcome

unfoldable pub from_cleanup_result : Result (Unit {0}) → CleanupOutcome
from_cleanup_result (ok _) = succeeded
from_cleanup_result (err e) = residual_possible e

unfoldable pub may_leave_residual : CleanupOutcome → Bool
may_leave_residual (residual_possible e) = true
may_leave_residual _ = false

unfoldable pub into_result : CleanupOutcome → Result (Unit {0})
into_result succeeded = ok tt
into_result (no_residual e) = err e
into_result (residual_possible e) = err e

-- `catch_unwind`: `none` is a panic of the operation.
unfoldable pub caught : Option CleanupOutcome → CleanupOutcome
caught (some outcome) = outcome
caught none = residual_possible cleanup_worker_panicked

-- The failure that the completion records: that of an awaited job goes to its waiter.
unfoldable pub deferred_failure :
    CleanupCompletion → Text → Result (Unit {0}) → Option DeferredCleanupFailure
deferred_failure awaited name r = none
deferred_failure deferred name (ok _) = none
deferred_failure deferred name (err e) = some (record { database_name = name; source = e })

-- What an awaited job sends to its waiter.
pub record AwaitedCleanupOutcome : Type 0 where
  pub result : Result (Unit {0})
  pub sequence : ℕ
  pub database_name : Text

unfoldable pub sent :
    CleanupJob → Result (Unit {0}) → CleanupCompletion → Option AwaitedCleanupOutcome
sent j r awaited =
    some (record { result = r; sequence = j.sequence; database_name = j.database_name })
sent j r deferred = none

module _ (sem : Semaphore) where
  unfoldable pub close_after : CleanupOutcome → sem.State → sem.State
  unfolding may_leave_residual
  close_after outcome a = if may_leave_residual outcome then sem.close a else a

  -- The job has left `running` when the completion sees it.
  unfoldable pub run_cleanup_job :
      CleanupJob
      → Option CleanupOutcome
      → DatabaseCleanupQueue sem
      → Option AwaitedCleanupOutcome × DatabaseCleanupQueue sem
  unfolding caught close_after into_result drop_permit deferred_failure sent complete
  run_cleanup_job j operation q =
      let outcome = caught operation in
      let result = into_result outcome in
      (
        sent j result j.completion,
        record q {
          database_admission = drop_permit sem j.permit (close_after outcome q.database_admission);
          completion =
              complete j.sequence (deferred_failure j.completion j.database_name result)
                q.completion;
        },
      )

-- `AwaitedCleanupOutcome::finish` gives the result to the caller.
unfoldable pub finish_awaited : AwaitedCleanupOutcome → Result (Unit {0})
finish_awaited o = o.result

-- Dropped without `finish`, as when the waiter was cancelled, it is recorded as a late failure.
unfoldable pub late : Result (Unit {0}) → AwaitedCleanupOutcome → CompletionState → CompletionState
unfolding record_late_failure
late (ok _) o c = c
late (err e) o c =
    record_late_failure o.sequence (record { database_name = o.database_name; source = e }) c

unfoldable pub drop_awaited : AwaitedCleanupOutcome → CompletionState → CompletionState
unfolding late
drop_awaited o c = late o.result o c
