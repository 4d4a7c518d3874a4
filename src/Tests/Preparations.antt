-- ===== src/Tests/Preparations.antt =====
-- Preparing sessions and templates, of src/admin.rs and src/harness.rs, on a server in memory.
use postgres_test_harness.Base.{
  subst, sym, List, ◌≤◌, arith, ok, ℕ, ◌≡◌, ◌≢◌, refl, true, false, [], ◌∷◌, Text, text, Option,
  none, some, Result,
}
use postgres_test_harness.Semaphore.{Counter, counting}
use postgres_test_harness.Name.{template_kind}
use postgres_test_harness.Fingerprint.Hex.{to_hex, from_hex}
use postgres_test_harness.Metadata.Decimal.{ℤ, pos, print_i64, print_u64, parse_i64, parse_u64}
use postgres_test_harness.Metadata.Fields.{split}
use postgres_test_harness.Metadata.Resource.{parse, encode, new_template}
use postgres_test_harness.Config.Project
use postgres_test_harness.Admin.Postgres.{
  Row, Response, completed, LockCall, lock, lock_shared, unlock, unlock_shared,
}
use postgres_test_harness.Admin.Statements.{quote_identifier}
use postgres_test_harness.Admin.Client.{
  acquire_advisory_lock, run_admin_operation, create_database, find_database, set_database_metadata,
  release_advisory_lock, release_shared_advisory_lock, disable_database_connections,
}
use postgres_test_harness.Admin.Deadlines.{duration_millis}
use postgres_test_harness.Admin.Settings.{
  configure_session_timeouts, configure_session_timeouts_with_timeout,
  configure_coordination_timeouts, acquire_template_advisory_lock,
  acquire_shared_template_advisory_lock, terminate_database_connections, validate_postgres_18,
  regular_connection_slots,
}
use postgres_test_harness.Admin.Tracking.{Lock, exclusive, held_after_call}
use postgres_test_harness.Admission.{attempt_managed_creation, ensure_open, settle}
use postgres_test_harness.Admission.Creation.{
  attempt_managed_database_creation, create_managed_database_classified,
}
use postgres_test_harness.Initialization.{
  TemplateRequest, TemplatePreparation, initialization, ready_template, empty_source, source_name,
  begin_template, begin_round, acquire_and_inspect_shared_template_lock, template_is_ready,
  prepare_template, run_initializer, finish, abort,
}
use postgres_test_harness.Initialization.Locking.{Holds}
use postgres_test_harness.Initialization.Inspected.{Watches, releases, shared_lock, row_is_ready}
use postgres_test_harness.Initialization.Observed.{Observes}
use postgres_test_harness.Initialization.Begun.{Prepared, begin_hands_over}
use postgres_test_harness.Initialization.Decided.{IsAlone}
use postgres_test_harness.Initialization.Prepared.{prepared_is_ready}
use postgres_test_harness.Initialization.Others.{others_are_spared}
use postgres_test_harness.Config.Harness.{
  HarnessConfig, ConnectionLimits, default_config, max_simultaneous_leases,
}
use postgres_test_harness.Admin.Action.{pure}
use postgres_test_harness.Server.Policy.{
  per_harness_admin_session_pool_size, regular_connection_slots_from_settings,
}
use postgres_test_harness.Server.Start.{
  ServerInner, server_of, finish_start_with, finish_start_with_client, started_is_owned,
}
use postgres_test_harness.Readiness.{template_record_is_ready, template_metadata_matches}
use postgres_test_harness.Server.Templates.{
  TemplateCache, empty_cache, begin_flight, await_flight, template_cache_action, act_on,
  drop_initializer, complete, prune_expired_ready_entries,
}
use postgres_test_harness.Server.Flights.{Initializer}
use postgres_test_harness.Server.Flights
use postgres_test_harness.Harness.Acquired.{
  Outcome, panics, out_of_fuel, get_or_initialize_template,
}
use postgres_test_harness.Harness.Acquired
use postgres_test_harness.Harness.Decided.{GivenUp, call_decides}
use postgres_test_harness.Harness.Calls.{call_leaves_nothing}
use postgres_test_harness.Tests.Memory.{
  Memory, memory, memory-IsPostgres, tracked, default_settings, find, holds,
}
use postgres_test_harness.Tests.Names.{credit, asked_for}

found_row :
    (n : Text) (w : Memory) (r : Option Row)
    → ◌≡◌ {A = Response (Option Row)} (completed (find n w.rows)) (completed r)
    → find n w.rows ≡ r
found_row n w r e = cc

abbrev sees_rows : Observes memory
sees_rows = record {
  sees = λ n r w. find n w.rows ≡ r;
  query_sees = found_row;
  call_sees = λ c k n r w s. s;
  timeouts_sees = λ s l n r w p. p;
}

still_held :
    (c : LockCall) (k : ℤ) (l : Lock) (n : ℕ)
    → releases c k l ≡ false
    → 1 ≤ n
    → 1 ≤ held_after_call c k l n
still_held lock k l n e h = omega arith
still_held lock_shared k l n e h = omega arith
still_held unlock k l n e h = rw (e) (omega arith)
still_held unlock_shared k l n e h = rw (e) (omega arith)

abbrev watches_rows : Watches memory tracked
watches_rows = record {
  sees = λ l n r w. (find n w.rows ≡ r) × (1 ≤ tracked.held l w);
  query_sees = λ l n w r h e. (found_row n w r e, h);
  call_sees = λ l c k n r w e d s.
      (s.0, subst (λ x. 1 ≤ x) (sym (tracked.call_held c k w d l)) (still_held c k l _ e s.1));
}

memory-IsAlone : IsAlone memory sees_rows
memory-IsAlone n r s w p e = cc

abbrev instant : Memory → ℕ
instant w = 5

abbrev admission : Counter
admission = record { permits = 3; shut = false }

abbrev fresh_server : Memory
fresh_server = record {
  rows = (text "postgres", none) ∷ [];
  refuses_comments = false;
  settings = default_settings;
  locks = [];
}

abbrev wanted : TemplateRequest
wanted = record {
  project = credit;
  template_wait_timeout = 60000000000;
  operation_timeout = 30000000000;
  name = record { value = text "pth_template"; kind = template_kind };
  identity = asked_for;
  lock_key = pos 11;
  coordination_key = pos 12;
}

abbrev begun : Result (Option TemplatePreparation) × (Counter × Memory)
begun =
    begin_template memory 31000000000 instant wanted counting empty_source 1764000000 1
      (admission, fresh_server)

begin_hands_over_example :
    Prepared memory tracked watches_rows wanted (some initialization) begun.1.1
unfolding begin_template begin_round acquire_and_inspect_shared_template_lock template_is_ready
    acquire_template_advisory_lock acquire_shared_template_advisory_lock
    configure_coordination_timeouts configure_session_timeouts
    configure_session_timeouts_with_timeout run_admin_operation duration_millis find_database
    release_shared_advisory_lock template_record_is_ready create_managed_database_classified
    attempt_managed_creation ensure_open settle attempt_managed_database_creation create_database
    quote_identifier source_name set_database_metadata
begin_hands_over_example =
    begin_hands_over memory tracked watches_rows wanted 31000000000 instant counting empty_source
      1764000000 1 admission begun.1.0 fresh_server begun.1.1 initialization (λ m. refl) refl

abbrev failing : Memory → Option ℕ × Memory
failing w = (some 9, w)

abbrev succeeding : Memory → Option ℕ × Memory
succeeding w = (none, w)

abbrev prepared : Result (Option TemplatePreparation) × (Counter × Memory)
prepared =
    prepare_template memory 31000000000 instant wanted counting empty_source 1764000000 succeeding 1
      (admission, fresh_server)

prepared_is_ready_example :
    Holds memory tracked (shared_lock wanted ∷ []) prepared.1.1
    × ((r : Option Row) × watches_rows.sees (shared_lock wanted) wanted.name.value r prepared.1.1
        × (row_is_ready wanted r ≡ true))
unfolding begin_template begin_round acquire_and_inspect_shared_template_lock template_is_ready
    acquire_template_advisory_lock acquire_shared_template_advisory_lock
    configure_coordination_timeouts configure_session_timeouts
    configure_session_timeouts_with_timeout run_admin_operation duration_millis find_database
    release_shared_advisory_lock template_record_is_ready create_managed_database_classified
    attempt_managed_creation ensure_open settle attempt_managed_database_creation create_database
    quote_identifier source_name set_database_metadata prepare_template run_initializer finish
    disable_database_connections terminate_database_connections release_advisory_lock parse split
    encode new_template print_i64 to_hex print_u64 Project.new parse_u64 parse_i64 from_hex
    template_metadata_matches
prepared_is_ready_example =
    prepared_is_ready memory tracked watches_rows wanted 31000000000 instant counting empty_source
      1764000000 succeeding (λ w m. refl) 1 admission prepared.1.0 fresh_server prepared.1.1
      ready_template (λ m. refl) refl

others_are_spared_example :
    (holds (text "postgres") begun.1.1.rows ≡ true)
    × ((holds
            (text "postgres")
            (finish memory 31000000000 instant wanted 1764000000 fresh_server).1.rows
          ≡ true)
        × (holds (text "postgres") (abort memory 31000000000 instant wanted fresh_server).1.rows
            ≡ true))
others_are_spared_example =
    others_are_spared memory memory-IsPostgres 31000000000 instant wanted (text "postgres")
      (λ e. cc) counting empty_source 1764000000 1 admission fresh_server

abbrev usual : HarnessConfig
usual = default_config credit

abbrev usual_limits : ConnectionLimits
usual_limits = record { connection_budget = 120; connections_per_database = 11 }

abbrev started : Result (ServerInner counting (Unit {0})) × Memory
started =
    finish_start_with counting (Unit {0}) memory instant usual usual_limits none (pos 21) (ok tt)
      (pure tt) fresh_server

abbrev started_server : ServerInner counting (Unit {0})
started_server =
    server_of counting (Unit {0}) memory instant usual usual_limits none (pos 21) (ok tt) 10

started_is_owned_example :
    (1 ≤ tracked.held (record { mode = exclusive; key = pos 21 }) started.1)
    × (1 ≤ started_server.worker_count)
    × (started_server.worker_count ≤ started_server.admin_sessions.max_size)
unfolding finish_start_with finish_start_with_client server_of validate_postgres_18
    run_admin_operation regular_connection_slots acquire_advisory_lock
    per_harness_admin_session_pool_size max_simultaneous_leases
    regular_connection_slots_from_settings
started_is_owned_example =
    started_is_owned counting (Unit {0}) memory instant usual usual_limits none (pos 21) (ok tt)
      tracked (pure tt) fresh_server started.1 started_server refl

-- Nobody else calls.
abbrev quiet : ℕ → Acquired.Round
quiet i = record {
  live = λ t. true;
  while_waiting = λ c. c;
  while_preparing = λ c. c;
  template = 7;
}

abbrev first_call : Outcome × (TemplateCache × (Counter × Memory))
first_call =
    get_or_initialize_template memory 31000000000 instant wanted counting empty_source 1764000000 1
      asked_for.fingerprint quiet (some succeeding) 1 0 (empty_cache, (admission, fresh_server))

call_leaves_nothing_example :
    ((ys : List Initializer) × (ys ≡ []) × Flights.Reach first_call.1.0 ys)
    × (first_call.0 ≢ panics)
call_leaves_nothing_example =
    call_leaves_nothing memory 31000000000 instant wanted counting empty_source 1764000000 1
      asked_for.fingerprint succeeding (λ ys. ys ≡ []) quiet (λ i c xs m r. (xs, m, r))
      (λ i c x xs m r. (xs, m, r)) 1 0 empty_cache [] (admission, fresh_server) refl Flights.start

-- A call that finds the flight of another caller, which then drops its initializer, and has one
-- round only.
abbrev given_up : ℕ → Acquired.Round
given_up i = record (quiet i) { while_waiting = drop_initializer asked_for.fingerprint 0 }

abbrev first_flight : TemplateCache
first_flight = (begin_flight (λ t. true) asked_for.fingerprint empty_cache).1

abbrev second_call : Outcome × (TemplateCache × (Counter × Memory))
second_call =
    get_or_initialize_template memory 31000000000 instant wanted counting empty_source 1764000000 1
      asked_for.fingerprint given_up (some succeeding) 1 0 (first_flight, (admission, fresh_server))

call_decides_example :
    GivenUp memory sees_rows memory-IsAlone 31000000000 instant wanted counting empty_source
      1764000000 0 asked_for.fingerprint
      (some succeeding)
      given_up
      1
      0
      first_flight
unfolding get_or_initialize_template begin_flight template_cache_action act_on drop_initializer
    complete await_flight prune_expired_ready_entries
call_decides_example =
    call_decides memory sees_rows memory-IsAlone 31000000000 instant wanted counting empty_source
      1764000000 0 asked_for.fingerprint (some succeeding) given_up 1 0 first_flight
      (admission, fresh_server) refl
