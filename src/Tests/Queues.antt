-- ===== src/Tests/Queues.antt =====
-- The cleanup queue: the theorems of src/cleanup.rs at concrete inputs.
use mathlib.Core.List.{Perm}
use postgres_test_harness.Base.{
  ◌≡◌, refl, true, false, not, ◌||◌, [], ◌∷◌, ◌++◌, All, text, none, some, connection_budget_closed,
}
use postgres_test_harness.Semaphore.{Counter, counting}
use postgres_test_harness.Cleanup.Completion.{SequencedFailure, CompletionState, new_completion}
use postgres_test_harness.Cleanup.Submission.{
  CleanupJob, awaited, deferred, backpressured, SubmissionState, DatabaseCleanupQueue, new,
  next_job, enqueue,
}
use postgres_test_harness.Cleanup.Worker.{residual_possible, run_cleanup_job}
use postgres_test_harness.Cleanup.Drain.{CleanupDrainOutcome, wait_and_take, is_due}
use postgres_test_harness.Cleanup.Steps.{Reach, here, next, submits, starts, completes}
use postgres_test_harness.Cleanup.Barrier.{IsPast, drain_is_barrier, drain_proceeds}
use postgres_test_harness.Cleanup.Delivery.{delivered, Ascends, take_delivers}
use postgres_test_harness.Cleanup.Permits.{is_uncertain, held, run_cleanup_job-admission}

abbrev open_admission : Counter
open_admission = record { permits = 3; shut = false }

abbrev first : DatabaseCleanupQueue counting
first = new counting 2 open_admission

-- A deferred cleanup of a database is submitted, taken up and fails.
abbrev job_one : CleanupJob
job_one = record { sequence = 1; database_name = text "a"; completion = deferred; permit = none }

abbrev taken_state : SubmissionState
taken_state = record { jobs = []; next_sequence = 1; closed = false }

abbrev failure_one : SequencedFailure
failure_one = record {
  sequence = 1;
  failure = record { database_name = text "a"; source = connection_budget_closed };
}

abbrev failed_state : CompletionState
failed_state = record {
  completed_through = 1;
  completed_out_of_order = [];
  failures = failure_one ∷ [];
  failure_delivery_in_flight = false;
}

abbrev drained_state : CompletionState
drained_state = record failed_state { failures = []; failure_delivery_in_flight = true }

abbrev last : DatabaseCleanupQueue counting
last = record {
  capacity = 2;
  submission = taken_state;
  completion = failed_state;
  database_admission = record open_admission { shut = true };
  running = [];
}

one_failed : Reach counting first last
unfolding new new_completion enqueue next_job run_cleanup_job
one_failed =
    next
      (next (next here (submits (text "a") deferred none backpressured))
        (starts job_one taken_state refl))
      (completes 0 (some (residual_possible connection_budget_closed)) job_one [] refl)

drain_is_barrier_example : All (IsPast 1) last.submission.jobs × All (IsPast 1) last.running
unfolding wait_and_take
drain_is_barrier_example =
    drain_is_barrier 2 open_admission one_failed 1 (some (failure_one ∷ [])) drained_state refl

drain_proceeds_example :
    (r : CleanupDrainOutcome × CompletionState) × (wait_and_take 1 last.completion ≡ some r)
drain_proceeds_example = drain_proceeds 2 open_admission one_failed refl refl refl

abbrev failure_two : SequencedFailure
failure_two = record failure_one { sequence = 2 }

abbrev failure_four : SequencedFailure
failure_four = record failure_one { sequence = 4 }

-- Two failures that are due, in the wrong order, and one that is not.
abbrev three_failures : CompletionState
three_failures = record failed_state {
  completed_through = 4;
  failures = failure_two ∷ failure_four ∷ failure_one ∷ [];
}

abbrev after_take : CompletionState
after_take = record three_failures {
  failures = failure_four ∷ [];
  failure_delivery_in_flight = true;
}

abbrev two_due : CleanupDrainOutcome
two_due = some (failure_one ∷ failure_two ∷ [])

two_taken : wait_and_take 3 three_failures ≡ some (two_due, after_take)
unfolding wait_and_take
two_taken = refl

take_delivers_example :
    Perm (delivered two_due ++ after_take.failures) three_failures.failures
    × Ascends 0 (delivered two_due)
    × All (λ f. is_due 3 f ≡ true) (delivered two_due)
    × All (λ f. not (is_due 3 f) ≡ true) after_take.failures
take_delivers_example = take_delivers 3 three_failures after_take two_due two_taken

-- A worker runs an awaited job that retains a permit of two units, and the job panics.
abbrev retaining : CleanupJob
retaining = record { sequence = 1; database_name = text "a"; completion = awaited; permit = some 2 }

abbrev busy : DatabaseCleanupQueue counting
busy = record {
  capacity = 2;
  submission = taken_state;
  completion = record failed_state { completed_through = 0; failures = [] };
  database_admission = open_admission;
  running = retaining ∷ [];
}

abbrev after_panic : DatabaseCleanupQueue counting
after_panic = (run_cleanup_job counting retaining none (record busy { running = [] })).1

run_cleanup_job-admission_example :
    (held counting after_panic ≡ held counting busy)
    × (counting.is_closed after_panic.database_admission
        ≡ (is_uncertain none || counting.is_closed busy.database_admission))
run_cleanup_job-admission_example = run_cleanup_job-admission counting busy 0 none retaining [] refl
