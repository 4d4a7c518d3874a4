-- ===== src/Admin/Settings.antt =====
-- src/admin.rs: configuring a session, checking the server, and the timed calls on a client.
use postgres_test_harness.Base.{
  ℕ, ◌/◌, ◌==◌, min, not, Bool, true, false, List, [], ◌∷◌, Text, text, leb, Option, none, some,
  Error, postgres_connect_timeout, postgres_operation_timeout, unsupported_postgres_version,
  missing_uuid_v7, timeout_out_of_range, template_connections_remain, Result, ok, err, map_err,
}
use postgres_test_harness.Name.{DatabaseName}
use postgres_test_harness.Metadata.Decimal.{ℤ, i64_half}
use postgres_test_harness.Admin.Action.{Action, pure, given, raise_if, ◌>>=◌, ◌>>◌}
use postgres_test_harness.Admin.Statements.{
  Statement, timeouts_statement, lifecycle_statement, discard_statement,
}
use postgres_test_harness.Admin.Postgres.{Postgres, lock, lock_shared}
use postgres_test_harness.Admin.Client.{Call, request}
use postgres_test_harness.Admin.Deadlines.{
  Deadline, checkout_remaining, client_operation_timeout, duration_millis, lock_timeout_limit,
  remaining, connect_timeout,
}
use postgres_test_harness.Server.Policy.{regular_connection_slots_from_settings}

abbrev pub some_not : List Bool → Bool
some_not [] = false
some_not (true ∷ rows) = some_not rows
some_not (false ∷ rows) = true

-- `i64::try_from`.
abbrev pub as_i64 : ℕ → ℕ → Result ℕ
as_i64 duration millis = elim (leb i64_half millis) [
  | true ↦ err (timeout_out_of_range duration)
  | false ↦ ok millis
]

abbrev or_error : Error → Option ℕ → Result ℕ
or_error e none = err e
or_error e (some n) = ok n

-- `timeout` is the client's request timeout, and `clock` the instant of a state.
module _ (pg : Postgres) (timeout : ℕ) (clock : pg.World → ℕ) where
  abbrev pub batch_execute_with_timeout : ℕ → Text → Statement → Call pg timeout (Unit {0})
  batch_execute_with_timeout request_timeout operation statement w =
      request pg request_timeout operation (pg.batch_execute statement w)

  unfoldable pub configure_session_timeouts_with_timeout : ℕ → ℕ → Call pg timeout (Unit {0})
  configure_session_timeouts_with_timeout operation_timeout request_timeout = do
    statement_timeout ← given (duration_millis operation_timeout)
    lock_timeout ← given (duration_millis (min lock_timeout_limit operation_timeout))
    batch_execute_with_timeout request_timeout (text "configure admin session timeouts")
        (timeouts_statement statement_timeout lock_timeout)

  unfoldable pub configure_session_timeouts : ℕ → Call pg timeout (Unit {0})
  unfolding configure_session_timeouts_with_timeout
  configure_session_timeouts operation_timeout =
      configure_session_timeouts_with_timeout operation_timeout timeout

  unfoldable pub configure_lifecycle_session_with_timeout :
      ℕ → Text → ℕ → Call pg timeout (Unit {0})
  configure_lifecycle_session_with_timeout operation_timeout application_name request_timeout = do
    statement_timeout ← given (duration_millis operation_timeout)
    lock_timeout ← given (duration_millis (min lock_timeout_limit operation_timeout))
    batch_execute_with_timeout request_timeout (text "configure pooled admin session")
        (lifecycle_statement statement_timeout lock_timeout application_name)

  unfoldable pub prepare_new_lifecycle_session : ℕ → Text → Call pg timeout (Unit {0})
  unfolding configure_lifecycle_session_with_timeout
  prepare_new_lifecycle_session operation_timeout application_name =
      configure_lifecycle_session_with_timeout operation_timeout application_name timeout

  -- What is left of a checkout's time, now.
  abbrev pub time_left : Deadline → Call pg timeout ℕ
  time_left deadline w = (checkout_remaining (clock w) deadline, w)

  unfoldable pub prepare_reused_lifecycle_session : ℕ → Text → Deadline → Call pg timeout (Unit {0})
  unfolding configure_lifecycle_session_with_timeout
  prepare_reused_lifecycle_session operation_timeout application_name checkout_deadline = do
    left ← time_left checkout_deadline
    batch_execute_with_timeout left (text "reset pooled admin session") discard_statement
    left ← time_left checkout_deadline
    configure_lifecycle_session_with_timeout operation_timeout application_name left

  unfoldable pub configure_coordination_timeouts : ℕ → Call pg timeout (Unit {0})
  configure_coordination_timeouts wait_timeout = do
    millis ← given (duration_millis wait_timeout)
    batch_execute_with_timeout timeout (text "configure template coordination timeouts")
        (timeouts_statement millis millis)

  unfoldable pub acquire_template_advisory_lock : ℤ → ℕ → ℕ → Call pg timeout (Unit {0})
  unfolding configure_coordination_timeouts configure_session_timeouts
  acquire_template_advisory_lock key wait_timeout operation_timeout = do
    configure_coordination_timeouts wait_timeout
    λ w.
        request pg (client_operation_timeout wait_timeout)
          (text "acquire PostgreSQL template advisory lock") (pg.call_lock lock key w)
    configure_session_timeouts operation_timeout

  unfoldable pub acquire_shared_template_advisory_lock : ℤ → ℕ → ℕ → Call pg timeout (Unit {0})
  unfolding configure_coordination_timeouts configure_session_timeouts
  acquire_shared_template_advisory_lock key wait_timeout operation_timeout = do
    configure_coordination_timeouts wait_timeout
    λ w.
        request pg (client_operation_timeout wait_timeout)
          (text "acquire shared PostgreSQL template advisory lock") (pg.call_lock lock_shared key w)
    configure_session_timeouts operation_timeout

  abbrev pub missing_on_error : Result (Unit {0}) × pg.World → Result (Unit {0}) × pg.World
  missing_on_error (r, w) = (map_err (λ e. missing_uuid_v7) r, w)

  unfoldable pub validate_postgres_18 : Call pg timeout (Unit {0})
  validate_postgres_18 = do
    version ← λ w. request pg timeout (text "read PostgreSQL server version") (pg.server_version w)
    raise_if (not (version / 10000 == 18)) (unsupported_postgres_version version)
    λ w.
        missing_on_error
          (request pg timeout (text "check PostgreSQL uuidv7 capability") (pg.uuidv7 w))

  unfoldable pub regular_connection_slots : Call pg timeout ℕ
  regular_connection_slots = do
    settings ← λ w.
        request pg timeout (text "read PostgreSQL connection capacity") (pg.connection_settings w)
    pure (
        let (max_connections, reserved, superuser_reserved) = settings in
        regular_connection_slots_from_settings max_connections reserved superuser_reserved)

  unfoldable pub terminate_database_connections : DatabaseName → ℕ → Call pg timeout (Unit {0})
  terminate_database_connections name operation_timeout = do
    millis ← given (duration_millis operation_timeout)
    millis ← given (as_i64 operation_timeout millis)
    rows ← λ w.
        request pg timeout (text "terminate PostgreSQL template connections")
          (pg.terminate name.value millis w)
    raise_if (some_not rows) (template_connections_remain name.value)
    remain ← λ w.
        request pg timeout (text "verify PostgreSQL template connections")
          (pg.has_connections name.value w)
    raise_if remain (template_connections_remain name.value)

-- `connect` stands for `AdminClient::connect`, of an operation and the connection's timeout.
module _ (pg : Postgres) (clock : pg.World → ℕ)
    (connect : Text → ℕ → Action pg.World (Unit {0})) where
  unfoldable pub connect_admin_with_timeout : ℕ → Text → ℕ → Action pg.World (Unit {0})
  unfolding configure_session_timeouts
  connect_admin_with_timeout operation_timeout operation limit = do
    connect operation limit
    configure_session_timeouts pg (client_operation_timeout operation_timeout) clock
        operation_timeout

  unfoldable pub connect_admin : ℕ → Text → Action pg.World (Unit {0})
  unfolding connect_admin_with_timeout
  connect_admin operation_timeout operation =
      connect_admin_with_timeout operation_timeout operation connect_timeout

  abbrev pub left_or : Deadline → Error → Action pg.World ℕ
  left_or deadline e w = (or_error e (remaining (clock w) deadline), w)

  -- The deadline starts when the call does.
  unfoldable pub connect_admin_with_setup_timeout : ℕ → Text → ℕ → ℕ → Action pg.World (Unit {0})
  unfolding configure_session_timeouts_with_timeout
  connect_admin_with_setup_timeout operation_timeout operation limit setup_timeout w =
      let deadline : Deadline = record { started = clock w; timeout = setup_timeout } in
      (do
        left ← left_or deadline (postgres_connect_timeout operation setup_timeout)
        connect operation (min limit left)
        left ←
            left_or deadline
              (postgres_operation_timeout (text "configure admin session timeouts") setup_timeout)
        configure_session_timeouts_with_timeout pg (client_operation_timeout operation_timeout)
            clock operation_timeout left)
        w
