-- ===== src/Tests/Harness.antt =====
-- The operations of the harness and the end of a server, of src/harness.rs and src/server.rs, at
-- concrete inputs.
use postgres_test_harness.Base.{
  ℕ, ◌+◌, ◌≡◌, ◌≢◌, refl, ap, ◌∙◌, arith, extract, ◌⊎◌, inl, false, true, List, [], ◌∷◌, text, none,
  some, connection_budget_closed, Result, ok, err, Attempt, returns,
}
use postgres_test_harness.Semaphore.{Counter, counting, Poll}
use postgres_test_harness.Admission.{is_closed, attempt_managed_creation}
use postgres_test_harness.Admission.Creation.{
  create_managed_database_classified, attempt_managed_database_creation,
}
use postgres_test_harness.Cleanup.Steps.{Reach, here, next, starts, completes, acknowledges}
use postgres_test_harness.Cleanup.Submission.{DatabaseCleanupQueue, new}
use postgres_test_harness.Cleanup.Drain.{acknowledge_delivery}
use postgres_test_harness.Prewarm.State.{PreparedDatabase}
use postgres_test_harness.Prewarm.Pool.{PrewarmPoolInner}
use postgres_test_harness.Harness.{DatabaseLease, create_test_database, lease_with_token}
use postgres_test_harness.Harness.Leases.{Leases, lease_or_permit_back}
use postgres_test_harness.Harness.Ready.{Settled, token_comes_back}
use postgres_test_harness.Harness.Prewarming.{Shutdown, no_shutdown, Round}
use postgres_test_harness.Tests.Memory.{Memory, memory, memory-IsPostgres, default_settings}
use postgres_test_harness.Tests.Leases.{replacement}
use postgres_test_harness.Admin.Statements.{quote_identifier}
use postgres_test_harness.Admin.Client.{create_database, run_admin_operation, set_database_metadata}
use postgres_test_harness.Cleanup.Submission.{CleanupJob, job, SubmissionState, next_job, pop_job}
use postgres_test_harness.Cleanup.Worker.{succeeded, run_cleanup_job}
use postgres_test_harness.Server.Shutdown.{Owner, shutdown_container}
use postgres_test_harness.Server.Returned.{Finish, shutdown_returns}
use postgres_test_harness.Server.Shutdown.{close_into}
use postgres_test_harness.Lease.{idle_of}
use postgres_test_harness.Prewarm.Closing.{IsClosedPool}
use postgres_test_harness.Prewarm.Handles.{
  Shared, first_handle, with_pool, clone_handle, drop_handle, last_handle_closes,
}
use postgres_test_harness.Prewarm.Handles
use postgres_test_harness.Harness.Closing.{Pooled, IsDrained, shutdown_pool, pool_shutdown_drains}
use postgres_test_harness.Container.{thread_ended}

abbrev three : Counter
three = record { permits = 3; shut = false }

abbrev bare : Memory
bare = record {
  rows = (text "postgres", none) ∷ [];
  refuses_comments = false;
  settings = default_settings;
  locks = [];
}

abbrev alone : Counter × Memory → Counter × Memory
alone s = s

abbrev made : Poll (Result DatabaseLease) × (Counter × Memory)
made = create_test_database memory 90 counting replacement 2 alone (ok tt) (three, bare)

abbrev lease : DatabaseLease
lease = record {
  name = replacement.prepared.name;
  database_url = replacement.prepared.database_url;
  permit = 2;
  pooled = false;
}

lease_or_permit_back_example :
    ((is_closed counting three ≡ true)
      × (ok lease ≡ err connection_budget_closed)
      × (made.1 ≡ (three, bare)))
    ⊎ ((b : Counter) × (b.permits + 2 ≡ 3)
        × Leases memory memory-IsPostgres 90 counting replacement 2 (b, bare) (ok lease, made.1))
unfolding create_test_database create_managed_database_classified attempt_managed_creation
    attempt_managed_database_creation create_database quote_identifier run_admin_operation
    set_database_metadata
lease_or_permit_back_example =
    lease_or_permit_back memory memory-IsPostgres 90 counting replacement 2 alone (ok tt) three bare
      (ok lease) made.1 (λ b. refl) refl

-- A pool with one idle database, whose token the caller has.
abbrev spare : PreparedDatabase
spare = replacement.prepared

abbrev one_idle : PrewarmPoolInner counting
one_idle = record {
  capacity = 1;
  ready_admission = record { permits = 0; shut = false };
  closed = record { permits = 0; shut = false };
  state = record {
    ready = spare ∷ [];
    leased = 0;
    creating = 0;
    deleting = 0;
    accepting = true;
    cleanup_started = false;
  };
}

abbrev taken : Poll (Result DatabaseLease) × (PrewarmPoolInner counting × Counter)
taken = lease_with_token counting 2 (λ p. p) (one_idle, three)

token_comes_back_example : Settled counting 2 one_idle (one_idle, three) taken
token_comes_back_example =
    token_comes_back counting 2 (λ p. p) one_idle taken.1.0 three taken.1.1 taken.0 refl

-- A pool of one slot, filled in one round, which a shutdown closes while the database is created.
abbrev round : Shutdown → ℕ → Round
round shuts i = record {
  session = ok tt;
  fresh = replacement;
  shuts_before = no_shutdown;
  shuts_meanwhile = shuts;
}

-- Workers that complete what is running, then what waits, and deliver the failures.
abbrev complete_running :
    List CleanupJob → DatabaseCleanupQueue counting → DatabaseCleanupQueue counting
complete_running [] q = q
complete_running (j ∷ js) q =
    complete_running js (run_cleanup_job counting j (some succeeded) (record q { running = js })).1

abbrev run_waiting : List CleanupJob → DatabaseCleanupQueue counting → DatabaseCleanupQueue counting
run_waiting [] q = q
run_waiting (j ∷ js) q =
    run_waiting js
      (run_cleanup_job counting j (some succeeded)
        (record q { submission = record (q.submission) { jobs = js } })).1

abbrev acknowledged : DatabaseCleanupQueue counting → DatabaseCleanupQueue counting
acknowledged q = record q { completion = acknowledge_delivery q.completion }

abbrev workers : DatabaseCleanupQueue counting → DatabaseCleanupQueue counting
workers q = let r = complete_running q.running q in acknowledged (run_waiting r.submission.jobs r)

complete_running-Reach :
    (p : DatabaseCleanupQueue counting) (js : List CleanupJob) (q : DatabaseCleanupQueue counting)
    → q.running ≡ js
    → Reach counting p q
    → Reach counting p (complete_running js q)
unfolding run_cleanup_job
complete_running-Reach p [] q h r = r
complete_running-Reach p (j ∷ js) q h r =
    complete_running-Reach p js _ refl
      (next r (completes 0 (some succeeded) j js (ap (extract 0) h)))

popped :
    (j : CleanupJob) (js : List CleanupJob) (s : SubmissionState)
    → s.jobs ≡ j ∷ js
    → next_job s ≡ (job j, record s { jobs = js })
unfolding next_job pop_job
popped j js s h = rw (h) refl

run_waiting-Reach :
    (p : DatabaseCleanupQueue counting) (js : List CleanupJob) (q : DatabaseCleanupQueue counting)
    → q.submission.jobs ≡ js
    → Reach counting p q
    → Reach counting p (run_waiting js q)
unfolding run_cleanup_job
run_waiting-Reach p [] q h r = r
run_waiting-Reach p (j ∷ js) q h r = run_waiting-Reach p js _ refl (
    next (next r (starts j _ (popped j js q.submission h)))
      (completes 0 (some succeeded) j q.running refl))

workers-Reach : (q : DatabaseCleanupQueue counting) → Reach counting q (workers q)
workers-Reach q =
    next (run_waiting-Reach q _ _ refl (complete_running-Reach q _ q refl here)) acknowledges

complete_running-ends :
    (js : List CleanupJob) (q : DatabaseCleanupQueue counting)
    → q.running ≡ js
    → (complete_running js q).running ≡ []
unfolding run_cleanup_job
complete_running-ends [] q h = h
complete_running-ends (j ∷ js) q h = complete_running-ends js _ refl

run_waiting-ends :
    (js : List CleanupJob) (q : DatabaseCleanupQueue counting)
    → q.submission.jobs ≡ js
    → ((run_waiting js q).submission.jobs ≡ []) × ((run_waiting js q).running ≡ q.running)
unfolding run_cleanup_job
run_waiting-ends [] q h = (h, refl)
run_waiting-ends (j ∷ js) q h = run_waiting-ends js _ refl

workers-Finish : Finish counting workers workers-Reach
unfolding acknowledge_delivery
workers-Finish q =
    let done = complete_running-ends q.running q refl in
    let (jobs, running) =
      run_waiting-ends (complete_running q.running q).submission.jobs (complete_running q.running q)
        refl in
    (jobs, running ∙ done, refl)

-- The end of a server with one idle database.
abbrev fresh_queue : DatabaseCleanupQueue counting
fresh_queue = new counting 2 three

abbrev server : Owner counting
server = record {
  container = some (some (some (thread_ended none)));
  database_cleanup = fresh_queue;
  prewarm_pools = some one_idle ∷ none ∷ [];
  admin_sessions = record { idle = 4 ∷ []; total = 1; closed = false };
}

abbrev server_end : Attempt (Unit {0}) × Owner counting × List (PrewarmPoolInner counting)
server_end = shutdown_container counting workers server

shutdown_returns_example :
    (r : Result (Unit {0})) × ((shutdown_container counting workers server).0 ≡ returns r)
unfolding new
shutdown_returns_example =
    shutdown_returns counting workers workers-Reach workers-Finish 2 three server
      (some (some (thread_ended none))) here (omega arith) (omega arith) refl (λ e. cc)

-- A pool's only handle shuts it down.
abbrev pool_end : Attempt (Unit {0}) × Pooled counting
pool_end = shutdown_pool counting (λ s. (s.0, workers s.1)) 1 (one_idle, fresh_queue)

pool_shutdown_drains_example :
    (x : Pooled counting) × (close_into counting one_idle fresh_queue ≡ some x)
    × IsDrained counting x.1.submission.next_sequence pool_end.1
unfolding shutdown_pool new next_job run_cleanup_job
pool_shutdown_drains_example =
    pool_shutdown_drains counting 2 three (λ s. (s.0, workers s.1)) (λ s. workers-Reach s.1)
      (λ s c. c) 1 one_idle fresh_queue (ok tt) pool_end.1 here (inl refl) refl

-- A pool whose handle is cloned, and then dropped twice.
abbrev once_dropped : Shared counting
once_dropped = record {
  public_handles = (drop_handle counting 2 (first_handle counting 1).world.pool).0;
  held = 1;
  world =
      with_pool counting (drop_handle counting 2 (first_handle counting 1).world.pool).1
        (first_handle counting 1).world;
}

last_handle_closes_example :
    let (n, (ready, p)) =
      drop_handle counting once_dropped.public_handles once_dropped.world.pool in
    (n ≡ 0)
    × (◌≢◌ {A = ℕ} 0 0 → (ready ≡ none) × (p ≡ once_dropped.world.pool))
    × (◌≡◌ {A = ℕ} 0 0
        → (idle_of counting ready ≡ once_dropped.world.pool.state.ready) × IsClosedPool p)
unfolding first_handle clone_handle
last_handle_closes_example =
    last_handle_closes counting 1 {s = once_dropped}
      (Handles.next (Handles.next Handles.here (Handles.clones 0 refl)) (Handles.drops 1 refl)) 0
      refl
