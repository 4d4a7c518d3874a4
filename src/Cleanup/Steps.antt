-- ===== src/Cleanup/Steps.antt =====
-- src/cleanup.rs: the calls on a queue, in any order that threads may make them.
use postgres_test_harness.Base.{ℕ, ◌≡◌, List, ◌∷◌, extract, Text, Option, some}
use postgres_test_harness.Semaphore.{Semaphore}
use postgres_test_harness.Cleanup.Completion.{SequencedFailure, CompletionState}
use postgres_test_harness.Cleanup.Submission.{
  CleanupCompletion, CleanupAdmission, CleanupJob, SubmissionState, DatabaseCleanupQueue, job,
  next_job, close_submission, enqueue, release_permit,
}
use postgres_test_harness.Cleanup.Worker.{
  CleanupOutcome, AwaitedCleanupOutcome, run_cleanup_job, drop_awaited,
}
use postgres_test_harness.Cleanup.Drain.{
  CleanupDrainOutcome, wait_and_take, acknowledge_delivery, restore_delivery,
}

module _ (sem : Semaphore) where
  pub data Step (q : DatabaseCleanupQueue sem) : DatabaseCleanupQueue sem → Type 0 where
    submits :
        (name : Text) (completion : CleanupCompletion) (permit : Option ℕ)
        (admission : CleanupAdmission)
        → Step q (enqueue sem name completion permit admission q).1
    releases : (permit : Option ℕ) → Step q (release_permit sem permit q)
    closes : Step q (record q { submission = (close_submission q.submission).0 })
    starts :
        (j : CleanupJob) (s : SubmissionState)
        → next_job q.submission ≡ (job j, s)
        → Step q (record q { submission = s; running = j ∷ q.running })
    completes :
        (i : ℕ) (operation : Option CleanupOutcome) (j : CleanupJob) (rest : List CleanupJob)
        → extract i q.running ≡ some (j, rest)
        → Step q (run_cleanup_job sem j operation (record q { running = rest })).1
    takes :
        (target : ℕ) (outcome : CleanupDrainOutcome) (c : CompletionState)
        → wait_and_take target q.completion ≡ some (outcome, c)
        → Step q (record q { completion = c })
    acknowledges : Step q (record q { completion = acknowledge_delivery q.completion })
    restores :
        (fs : List SequencedFailure)
        → Step q (record q { completion = restore_delivery fs q.completion })
    drops :
        (o : AwaitedCleanupOutcome) → Step q (record q { completion = drop_awaited o q.completion })

  pub data Reach (q : DatabaseCleanupQueue sem) : DatabaseCleanupQueue sem → Type 0 where
    here : Reach q q
    next : {r s : DatabaseCleanupQueue sem} → Reach q r → Step r s → Reach q s
