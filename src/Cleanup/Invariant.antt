-- ===== src/Cleanup/Invariant.antt =====
-- src/cleanup.rs: the invariant of the queue. Every number given out is waiting, running or complete,
-- and in one of these only, whatever the order in which threads call the queue.
use postgres_test_harness.Base.{
  ℕ, zero, suc, ◌+◌, ◌<◌, ◌≡◌, refl, inl, inr, not, List, [], ◌∷◌, ◌++◌, map, arith, extract, keep,
  count, one_at, Text, Option, some, Option-cases,
}
use postgres_test_harness.Semaphore.{Semaphore}
use postgres_test_harness.Cleanup.Completion.{SequencedFailure, CompletionState, new_completion}
use postgres_test_harness.Cleanup.Submission.{
  CleanupJob, SubmissionState, DatabaseCleanupQueue, CleanupCompletion, CleanupAdmission, new, job,
  next_job, close_submission, enqueue, accept, release_permit,
}
use postgres_test_harness.Cleanup.Worker.{
  CleanupOutcome, AwaitedCleanupOutcome, run_cleanup_job, drop_awaited, deferred_failure, caught,
  into_result,
}
use postgres_test_harness.Cleanup.Drain.{
  wait_and_take, outcome_of, acknowledge_delivery, restore_delivery, CleanupDrainOutcome,
  sort_by_sequence, is_due,
}
use postgres_test_harness.Cleanup.Steps.{
  Step, submits, releases, closes, starts, completes, takes, acknowledges, restores, drops, Reach,
  here, next,
}
use postgres_test_harness.Cleanup.Accounts.{upto, upto-suc, tally, complete-tally, complete-gap}

abbrev pub sequences : List CleanupJob → List ℕ
sequences = map λ j. j.sequence

-- Where the number `n` stands: waiting, running, or counted as complete.
abbrev pub places : {sem : Semaphore} → ℕ → DatabaseCleanupQueue sem → ℕ
places n q =
    count n (sequences q.submission.jobs) + count n (sequences q.running) + tally n q.completion

module _ {sem : Semaphore} where
  pub record IsAccounted (q : DatabaseCleanupQueue sem) : Type 0 where
    pub each : (n : ℕ) → places n q ≡ upto n q.submission.next_sequence
    pub gap : count (q.completion.completed_through + 1) q.completion.completed_out_of_order ≡ 0

count-extract :
    (n i : ℕ) (js : List CleanupJob) (j : CleanupJob) (rest : List CleanupJob)
    → extract i js ≡ some (j, rest)
    → count n (sequences js) ≡ count n (sequences rest) + one_at j.sequence n
count-extract n i [] j rest h = ground arith
count-extract n zero (x ∷ js) j rest h = ground arith
count-extract n (suc i) (x ∷ js) j rest h = elim (Option-cases (extract i js)) [
  | inl e ↦ ground arith
  | inr ((k, ks), e) ↦ ground (arith, count-extract n i js k ks e)
]

sequences-append :
    (n : ℕ) (js : List CleanupJob) (j : CleanupJob)
    → count n (sequences (js ++ j ∷ [])) ≡ count n (sequences js) + one_at j.sequence n
sequences-append n [] j = ground arith
sequences-append n (k ∷ js) j = ground (arith, sequences-append n js j)

-- A rule for what holds after `enqueue`.
enqueue_cases {ℓ} :
    {sem : Semaphore} (P : DatabaseCleanupQueue sem → Type ℓ) (q : DatabaseCleanupQueue sem)
    (name : Text) (c : CleanupCompletion) (permit : Option ℕ) (admission : CleanupAdmission)
    → P q
    → P (release_permit sem permit q)
    → P (accept sem name c permit q)
    → P (enqueue sem name c permit admission q).1
unfolding enqueue
enqueue_cases P q name c permit admission same refused accepted = ground arith

module _ {sem : Semaphore} (q : DatabaseCleanupQueue sem) (v : IsAccounted q) where
  release-IsAccounted : (permit : Option ℕ) → IsAccounted (release_permit sem permit q)
  unfolding release_permit
  release-IsAccounted permit = record { each = v.each; gap = v.gap }

  accept-IsAccounted :
      (name : Text) (c : CleanupCompletion) (permit : Option ℕ)
      → IsAccounted (accept sem name c permit q)
  unfolding accept
  accept-IsAccounted name c permit = record {
    each = λ n. ground (
      arith,
      v.each n,
      upto-suc n q.submission.next_sequence,
      sequences-append n q.submission.jobs (record {
        sequence = q.submission.next_sequence + 1;
        database_name = name;
        completion = c;
        permit = permit;
      }),
    );
    gap = v.gap;
  }

  starts-IsAccounted :
      (j : CleanupJob) (s : SubmissionState)
      → next_job q.submission ≡ (job j, s)
      → IsAccounted {sem = sem} (record q { submission = s; running = j ∷ q.running })
  unfolding next_job
  starts-IsAccounted j s h = record { each = λ n. ground (arith, v.each n); gap = v.gap }

  -- A running job is not complete.
  running_is_new :
      (i : ℕ) (j : CleanupJob) (rest : List CleanupJob)
      → extract i q.running ≡ some (j, rest)
      → (q.completion.completed_through < j.sequence)
        × (count j.sequence q.completion.completed_out_of_order ≡ 0)
  running_is_new i j rest h =
      ground (arith, v.each j.sequence, v.each 0, count-extract j.sequence i q.running j rest h)

  completes-IsAccounted :
      (i : ℕ) (operation : Option CleanupOutcome) (j : CleanupJob) (rest : List CleanupJob)
      → extract i q.running ≡ some (j, rest)
      → IsAccounted {sem = sem} (run_cleanup_job sem j operation (record q { running = rest })).1
  unfolding run_cleanup_job
  completes-IsAccounted i operation j rest h =
      let (new, absent) = running_is_new i j rest h in
      record {
        each = λ n. omega (
          arith,
          v.each n,
          count-extract n i q.running j rest h,
          complete-tally j.sequence
              (deferred_failure j.completion j.database_name (into_result (caught operation)))
              q.completion new absent n,
        );
        gap =
            complete-gap j.sequence
              (deferred_failure j.completion j.database_name (into_result (caught operation)))
              q.completion new v.gap;
      }

-- What a call on the failures alone leaves as it is.
abbrev SameProgress : CompletionState → CompletionState → Type 0
SameProgress c d =
    (d.completed_through ≡ c.completed_through)
    × (d.completed_out_of_order ≡ c.completed_out_of_order)

outcome_of_progress :
    (fs : List SequencedFailure) (c : CompletionState) → SameProgress c (outcome_of fs c).1
unfolding outcome_of
outcome_of_progress [] c = (refl, refl)
outcome_of_progress (f ∷ fs) c = (refl, refl)

takes_progress :
    (target : ℕ) (c d : CompletionState) (o : CleanupDrainOutcome)
    → wait_and_take target c ≡ some (o, d)
    → SameProgress c d
unfolding wait_and_take
takes_progress target c d o h = ground (
  arith,
  outcome_of_progress (sort_by_sequence (keep (is_due target) c.failures))
      (record c { failures = keep (λ f. not (is_due target f)) c.failures }),
)

drops_progress :
    (o : AwaitedCleanupOutcome) (c : CompletionState) → SameProgress c (drop_awaited o c)
unfolding drop_awaited
drops_progress o c = ground arith

same-IsAccounted :
    {sem : Semaphore} (q : DatabaseCleanupQueue sem) (d : CompletionState)
    → SameProgress q.completion d
    → IsAccounted q
    → IsAccounted {sem = sem} (record q { completion = d })
same-IsAccounted q d (t, s) v = record { each = λ n. rw (t, s) (v.each n); gap = rw (t, s) v.gap }

module _ {sem : Semaphore} where
  -- Every call on the queue keeps each number given out in one place: waiting, running or complete.
  pub Step-IsAccounted :
      {q r : DatabaseCleanupQueue sem} → Step sem q r → IsAccounted q → IsAccounted r
  unfolding close_submission acknowledge_delivery restore_delivery
  Step-IsAccounted {q} (submits name c permit admission) v =
      enqueue_cases IsAccounted q name c permit admission v (release-IsAccounted q v permit)
        (accept-IsAccounted q v name c permit)
  Step-IsAccounted {q} (releases permit) v = release-IsAccounted q v permit
  Step-IsAccounted closes v = record { each = v.each; gap = v.gap }
  Step-IsAccounted {q} (starts j s h) v = starts-IsAccounted q v j s h
  Step-IsAccounted {q} (completes i operation j rest h) v =
      completes-IsAccounted q v i operation j rest h
  Step-IsAccounted {q} (takes target o c h) v =
      same-IsAccounted q c (takes_progress target q.completion c o h) v
  Step-IsAccounted {q} acknowledges v = same-IsAccounted q _ (refl, refl) v
  Step-IsAccounted {q} (restores fs) v = same-IsAccounted q _ (refl, refl) v
  Step-IsAccounted {q} (drops o) v = same-IsAccounted q _ (drops_progress o q.completion) v

  pub Reach-IsAccounted :
      {q r : DatabaseCleanupQueue sem} → IsAccounted q → Reach sem q r → IsAccounted r
  Reach-IsAccounted v here = v
  Reach-IsAccounted v (next r s) = Step-IsAccounted s (Reach-IsAccounted v r)

  pub new-IsAccounted : (capacity : ℕ) (a : sem.State) → IsAccounted (new sem capacity a)
  unfolding new new_completion
  new-IsAccounted capacity a = record { each = λ n. ground arith; gap = refl }
