-- ===== src/Tests/Containers.antt =====
-- Owned containers, of src/server.rs, and the completion state's refinement, at concrete inputs.
use postgres_test_harness.Base.{
  ℕ, ◌*◌, zero, suc, ◌≤◌, ◌<◌, ◌≡◌, ◌≢◌, ◌↔◌, refl, true, false, [], ◌∷◌, arith, count, none, some,
  container_worker_stopped, ok, err,
}
use postgres_test_harness.Config.Harness.{OwnedContainerProfile}
use postgres_test_harness.Container.Worker.{
  ContainerWorker, spawned, Reach, start, next, works, shuts_down, request_succeeds, answers,
  hears_shutdown, rank, WorkerStep, ended_is_removed, closed_thread_ends, remove, monitoring,
  shutdown,
}
use postgres_test_harness.Container.Waiting.{Environment, wait_for_owned_server, wait_ends}
use postgres_test_harness.Cleanup.Refinement.{completions, barrier_refines, order_is_forgotten}

abbrev small_tmpfs : OwnedContainerProfile
small_tmpfs = record { initdb_no_sync = true; tmpfs_size_bytes = some 4096 }

abbrev running : ContainerWorker
running = record {
  phase = monitoring;
  created = 1;
  removals = 0;
  removed = 0;
  result_is_ok = true;
  commands = [];
  sender = true;
  receiver = true;
  startup_exit = none;
}

abbrev stopping : ContainerWorker
stopping = record running { commands = shutdown ∷ []; sender = false }

abbrev stopped : ContainerWorker
stopped = remove true (record stopping { commands = [] })

-- A container is created, runs, and is shut down.
run_stops : Reach stopped
unfolding spawned
run_stops =
    next
      (next (next (next start (works (request_succeeds refl))) (works (answers refl refl)))
        (shuts_down refl))
      (works (hears_shutdown true [] refl refl))

ended_is_removed_example :
    (stopped.removals ≡ stopped.created)
    × (stopped.created ≤ 1)
    × (true ≡ true → stopped.removed ≡ stopped.created)
ended_is_removed_example = ended_is_removed run_stops refl

closed_thread_ends_example :
    ((v : ContainerWorker) × WorkerStep stopping v)
    × (rank stopping.phase ≤ 4)
    × ((v : ContainerWorker) → WorkerStep stopping v → rank v.phase < rank stopping.phase)
closed_thread_ends_example = closed_thread_ends stopping refl (λ e. cc)

-- The first attempt fails, and the second, a second later, connects.
abbrev starting : Environment
starting = record {
  startup_exit = λ n. none;
  elapsed = λ n. n * 1000000000;
  exit_again = λ n. none;
  connect = λ n attempt all. elim n [ zero ↦ err container_worker_stopped | suc k ↦ ok 7 ];
}

wait_ends_example : wait_for_owned_server small_tmpfs 3000000000 starting 4 ≢ none
wait_ends_example = wait_ends small_tmpfs 3000000000 starting 3 (omega arith)

barrier_refines_example :
    (2 ≤ (completions (1 ∷ 3 ∷ 2 ∷ [])).completed_through)
    ↔ ((n : ℕ) → 1 ≤ n → n ≤ 2 → 1 ≤ count n (1 ∷ 3 ∷ 2 ∷ []))
barrier_refines_example =
    barrier_refines (1 ∷ 3 ∷ 2 ∷ []) 2
      (omega arith, refl, (omega arith, refl, (omega arith, refl, tt)))

order_is_forgotten_example :
    (completions (2 ∷ 1 ∷ [])).completed_through ≡ (completions (1 ∷ 2 ∷ [])).completed_through
order_is_forgotten_example =
    order_is_forgotten (2 ∷ 1 ∷ []) (1 ∷ 2 ∷ []) (omega arith, refl, (omega arith, refl, tt))
      (omega arith, refl, (omega arith, refl, tt)) (λ n. ground arith)
