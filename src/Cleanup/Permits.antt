-- ===== src/Cleanup/Permits.antt =====
-- src/cleanup.rs: what becomes of application permits and of the admission.
use postgres_test_harness.Base.{
  ℕ, zero, suc, ◌+◌, ◌≡◌, refl, ap, ◌∙◌, Bool, true, false, inl, inr, ◌||◌, List, [], ◌∷◌, ◌++◌,
  arith, Text, Option, none, some, extract, Option-cases, Bool-cases, ok, waits, panics, returns,
  Attempt,
}
use postgres_test_harness.Semaphore.{Semaphore}
use postgres_test_harness.Cleanup.Submission.{
  CleanupCompletion, awaited, deferred, CleanupAdmission, backpressured, nonblocking_fallback,
  CleanupJob, SubmissionState, DatabaseCleanupQueue, drop_permit, enqueue, accept, release_permit,
  submit_awaited_outcome, submit_deferred_outcome, submit_fallback_outcome, release_after, next_job,
  job,
}
use postgres_test_harness.Cleanup.Worker.{
  CleanupOutcome, succeeded, no_residual, residual_possible, caught, may_leave_residual,
  close_after, run_cleanup_job,
}

-- The units of a permit, and those that the jobs of a list retain.
abbrev pub units : Option ℕ → ℕ
units none = 0
units (some n) = n

abbrev pub retained : List CleanupJob → ℕ
retained [] = 0
retained (j ∷ js) = units j.permit + retained js

-- Free units, and those that waiting and running jobs retain.
abbrev pub held : (sem : Semaphore) → DatabaseCleanupQueue sem → ℕ
held sem q =
    sem.available_permits q.database_admission + retained q.submission.jobs + retained q.running

retained-append :
    (js : List CleanupJob) (j : CleanupJob) → retained (js ++ j ∷ []) ≡ retained js + units j.permit
retained-append [] j = omega arith
retained-append (k ∷ js) j = omega (arith, retained-append js j)

retained-extract :
    (i : ℕ) (js : List CleanupJob) (j : CleanupJob) (rest : List CleanupJob)
    → extract i js ≡ some (j, rest)
    → retained js ≡ retained rest + units j.permit
retained-extract i [] j rest h = ground arith
retained-extract zero (x ∷ js) j rest h = ground arith
retained-extract (suc i) (x ∷ js) j rest h = elim (Option-cases (extract i js)) [
  | inl e ↦ ground arith
  | inr ((k, ks), e) ↦ ground (arith, retained-extract i js k ks e)
]

-- Of what an operation does, `none` for a panic: whether a database may be left behind.
abbrev pub is_uncertain : Option CleanupOutcome → Bool
is_uncertain none = true
is_uncertain (some succeeded) = false
is_uncertain (some (no_residual e)) = false
is_uncertain (some (residual_possible e)) = true

uncertain :
    (operation : Option CleanupOutcome)
    → may_leave_residual (caught operation) ≡ is_uncertain operation
unfolding caught may_leave_residual
uncertain none = refl
uncertain (some succeeded) = refl
uncertain (some (no_residual e)) = refl
uncertain (some (residual_possible e)) = refl

module _ (sem : Semaphore) where
  drop_permit-lem :
      (p : Option ℕ) (a : sem.State)
      → (sem.available_permits (drop_permit sem p a) ≡ sem.available_permits a + units p)
        × (sem.is_closed (drop_permit sem p a) ≡ sem.is_closed a)
  unfolding drop_permit
  drop_permit-lem none a = (omega arith, refl)
  drop_permit-lem (some n) a = (sem.available-add n a, sem.is_closed-add n a)

  close_after-lem :
      (outcome : CleanupOutcome) (a : sem.State)
      → (sem.available_permits (close_after sem outcome a) ≡ sem.available_permits a)
        × (sem.is_closed (close_after sem outcome a)
            ≡ (may_leave_residual outcome || sem.is_closed a))
  unfolding close_after
  close_after-lem outcome a = elim (Bool-cases (may_leave_residual outcome)) [
    | inl e ↦ rw (e, close_after) (sem.available-close a, sem.is_closed-close a)
    | inr e ↦ rw (e, close_after) (refl, refl)
  ]

  -- Running a job that a worker holds gives its permit back. It closes the admission when the
  -- operation panics, or ends with an error after which a database may be left; otherwise, after
  -- a success or an error that is known to leave none, the admission is closed exactly if it was.
  pub run_cleanup_job-admission :
      (q : DatabaseCleanupQueue sem) (i : ℕ) (operation : Option CleanupOutcome) (j : CleanupJob)
      (rest : List CleanupJob)
      → extract i q.running ≡ some (j, rest)
      → let r = (run_cleanup_job sem j operation (record q { running = rest })).1 in
        (held sem r ≡ held sem q)
        × (sem.is_closed r.database_admission
            ≡ (is_uncertain operation || sem.is_closed q.database_admission))
  unfolding run_cleanup_job
  run_cleanup_job-admission q i operation j rest h =
      let (dropped, same) =
        drop_permit-lem j.permit (close_after sem (caught operation) q.database_admission) in
      let (kept, closes) = close_after-lem (caught operation) q.database_admission in
      (
        omega (arith, dropped, kept, retained-extract i q.running j rest h),
        same ∙ closes ∙ ap (λ b. b || sem.is_closed q.database_admission) (uncertain operation),
      )

  -- A worker that takes a job keeps the job's permit with it.
  pub next_job-held :
      (q : DatabaseCleanupQueue sem) (j : CleanupJob) (s : SubmissionState)
      → next_job q.submission ≡ (job j, s)
      → held sem (record q { submission = s; running = j ∷ q.running }) ≡ held sem q
  unfolding next_job
  next_job-held q j s h = ground arith

-- What a submission with a permit of `n` units does to the units in the queue's care: once it
-- returns, it has taken them over, and until then the caller has them.
abbrev pub Takes :
    (sem : Semaphore)
    → ℕ
    → DatabaseCleanupQueue sem
    → Attempt (Unit {0}) × DatabaseCleanupQueue sem
    → Type 0
Takes sem n q (returns r, p) = held sem p ≡ held sem q + n
Takes sem n q (waits, p) = p ≡ q
Takes sem n q (panics, p) = held sem p ≡ held sem q + n

module _ (sem : Semaphore) where
  release-held :
      (p : Option ℕ) (q : DatabaseCleanupQueue sem)
      → held sem (release_permit sem p q) ≡ held sem q + units p
  unfolding release_permit
  release-held p q = omega (arith, (drop_permit-lem sem p q.database_admission).0)

  accept-held :
      (name : Text) (c : CleanupCompletion) (p : Option ℕ) (q : DatabaseCleanupQueue sem)
      → held sem (accept sem name c p q) ≡ held sem q + units p
  unfolding accept
  accept-held name c p q = omega (
    arith,
    retained-append q.submission.jobs (record {
      sequence = q.submission.next_sequence + 1;
      database_name = name;
      completion = c;
      permit = p;
    }),
  )

  enqueue-Takes :
      (name : Text) (c : CleanupCompletion) (p : Option ℕ) (admission : CleanupAdmission)
      (q : DatabaseCleanupQueue sem)
      → Takes sem (units p) q (enqueue sem name c p admission q)
  unfolding enqueue
  enqueue-Takes name c p admission q = ground (arith, accept-held name c p q, release-held p q)

  release_after-Takes :
      (n : ℕ) (q : DatabaseCleanupQueue sem) (r : Attempt (Unit {0}) × DatabaseCleanupQueue sem)
      → Takes sem 0 q r
      → Takes sem n q (release_after sem (some n) r)
  unfolding release_after
  release_after-Takes n q (returns r, p) h = omega (arith, h, release-held (some n) p)
  release_after-Takes n q (waits, p) h = h
  release_after-Takes n q (panics, p) h = omega (arith, h, release-held (some n) p)

  -- No way of submitting a cleanup with a permit of `n` units loses or makes up a unit: awaited,
  -- deferred and fallback submissions take the permit over when they return, with success or with
  -- an error, and leave the queue as it was while they wait.
  pub submit-Takes :
      (name : Text) (n : ℕ) (q : DatabaseCleanupQueue sem)
      → Takes sem n q (submit_awaited_outcome sem name n q)
        × Takes sem n q (submit_deferred_outcome sem name (some n) q)
        × Takes sem n q (submit_fallback_outcome sem name n q)
  unfolding submit_awaited_outcome submit_deferred_outcome submit_fallback_outcome
  submit-Takes name n q = (
    enqueue-Takes name awaited (some n) backpressured q,
    release_after-Takes n q _ (enqueue-Takes name deferred none backpressured q),
    enqueue-Takes name deferred (some n) nonblocking_fallback q,
  )

  -- When the queue has accepted a job, a deferred submission has freed its permit at once, and an
  -- awaited or fallback submission has freed nothing.
  pub submit-frees :
      (name : Text) (n : ℕ) (q p r s : DatabaseCleanupQueue sem)
      → submit_deferred_outcome sem name (some n) q ≡ (returns (ok tt), p)
      → submit_awaited_outcome sem name n q ≡ (returns (ok tt), r)
      → submit_fallback_outcome sem name n q ≡ (returns (ok tt), s)
      → (sem.available_permits p.database_admission
          ≡ sem.available_permits q.database_admission + n)
        × (sem.available_permits r.database_admission ≡ sem.available_permits q.database_admission)
        × (sem.available_permits s.database_admission ≡ sem.available_permits q.database_admission)
  unfolding submit_awaited_outcome submit_deferred_outcome submit_fallback_outcome enqueue accept
      release_after release_permit drop_permit
  submit-frees name n q p r s h k l =
      (ground (arith, sem.available-add n q.database_admission), ground arith, ground arith)
