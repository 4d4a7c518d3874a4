-- ===== src/Server/Start.antt =====
-- src/server.rs, the start of a server on a session that is connected (`finish_start_with` and
-- `finish_start_with_client`). The container and the result of spawning the cleanup workers are
-- given; the admission that the source shares is that of the cleanup queue.
use postgres_test_harness.Base.{ℕ, ◌≤◌, ◌≡◌, subst, Bool, arith, Option, text, Result, ok, err}
use postgres_test_harness.Semaphore.{Semaphore}
use postgres_test_harness.Admission
use postgres_test_harness.Config.Project.{ProjectName}
use postgres_test_harness.Config.Harness.{HarnessConfig, ConnectionLimits}
use postgres_test_harness.Metadata.Decimal.{ℤ, int_eq_refl}
use postgres_test_harness.Admin.Action.{
  Action, ◌>>=◌, ◌>>◌, pure, given, Post, after-Post, whatever,
}
use postgres_test_harness.Admin.Postgres.{Postgres, lock}
use postgres_test_harness.Admin.Client.{acquire_advisory_lock}
use postgres_test_harness.Admin.Deadlines.{client_operation_timeout}
use postgres_test_harness.Admin.Settings.{validate_postgres_18, regular_connection_slots}
use postgres_test_harness.Admin.Tracking.{Tracks, exclusive, held_after_call}
use postgres_test_harness.Admin.Configured.{run-Post}
use postgres_test_harness.Cleanup.Submission.{DatabaseCleanupQueue}
use postgres_test_harness.Cleanup
use postgres_test_harness.Sessions.Pool.{AdminSessionPool}
use postgres_test_harness.Sessions
use postgres_test_harness.Server.Policy.{per_harness_admin_session_pool_size, cleanup_queue_limits}

module _ (sem : Semaphore) (C : Type 0) where
  -- The address and the session with the owner's lock are those of the connection. The cache of
  -- templates and the prewarmed pools start empty, and are modelled where they are used.
  pub record ServerInner : Type 0 where
    pub project : ProjectName
    pub owner_key : ℤ
    pub operation_timeout : ℕ
    pub template_wait_timeout : ℕ
    pub stale_after : ℕ
    pub cleanup_on_start : Bool
    pub connection_limits : ConnectionLimits
    pub database_cleanup : DatabaseCleanupQueue sem
    pub worker_count : ℕ
    pub admin_sessions : AdminSessionPool
    pub container : Option C

module _ (sem : Semaphore) (C : Type 0) (pg : Postgres) (clock : pg.World → ℕ)
    (config : HarnessConfig) (limits : ConnectionLimits) (container : Option C) (owner_key : ℤ)
    (spawned : Result (Unit {0})) where
  unfoldable pub server_of : ℕ → ServerInner sem C
  unfolding Admission.new Sessions.Pool.new Cleanup.Submission.new cleanup_queue_limits
  server_of admin_pool_size =
      let queue_limits = cleanup_queue_limits admin_pool_size in
      record {
        project = config.project;
        owner_key = owner_key;
        operation_timeout = config.operation_timeout;
        template_wait_timeout = config.template_wait_timeout;
        stale_after = config.stale_after;
        cleanup_on_start = config.cleanup_on_start;
        connection_limits = limits;
        database_cleanup =
            Cleanup.Submission.new sem queue_limits.queue_capacity
              (Admission.new sem limits.connection_budget);
        worker_count = queue_limits.worker_count;
        admin_sessions = Sessions.Pool.new admin_pool_size;
        container = container;
      }

  unfoldable pub finish_start_with_client : Action pg.World (ServerInner sem C)
  unfolding server_of
  finish_start_with_client = do
    validate_postgres_18 pg (client_operation_timeout config.operation_timeout) clock
    slots ← regular_connection_slots pg (client_operation_timeout config.operation_timeout) clock
    acquire_advisory_lock pg (client_operation_timeout config.operation_timeout) owner_key
    given spawned
    pure (server_of (per_harness_admin_session_pool_size limits slots))

  -- `connected` is what the connector does.
  unfoldable pub finish_start_with :
      Action pg.World (Unit {0}) → Action pg.World (ServerInner sem C)
  unfolding finish_start_with_client
  finish_start_with connected = do connected; finish_start_with_client

  module _ (track : Tracks pg) where
    -- The session holds the owner's key, and the workers are at most the pool's sessions.
    abbrev pub IsStarted : ServerInner sem C → pg.World → Type 0
    IsStarted server w =
        (1 ≤ track.held (record { mode = exclusive; key = owner_key }) w)
        × (1 ≤ server.worker_count)
        × (server.worker_count ≤ server.admin_sessions.max_size)

    server_of-size :
        (n : ℕ)
        → (1 ≤ (server_of n).worker_count)
          × ((server_of n).worker_count ≤ (server_of n).admin_sessions.max_size)
    unfolding server_of
    server_of-size n = omega arith

    same :
        (held before : ℕ)
        → held
          ≡ held_after_call lock owner_key (record { mode = exclusive; key = owner_key }) before
        → 1 ≤ held
    same _ _ h = ground (arith, int_eq_refl owner_key)

    acquired :
        (w : pg.World)
        → Post
            (λ _ v. 1 ≤ track.held (record { mode = exclusive; key = owner_key }) v)
            (acquire_advisory_lock pg
              (client_operation_timeout config.operation_timeout)
              owner_key
              w)
    unfolding acquire_advisory_lock
    acquired w =
        run-Post _ (client_operation_timeout config.operation_timeout)
          (text "acquire PostgreSQL advisory lock") (pg.call_lock lock owner_key w).0 _
          (λ _ c. same _ _ (track.call_held lock owner_key w c _))

    from_spawned :
        (r : Result (Unit {0})) (slots : ℕ) (w : pg.World)
        → 1 ≤ track.held (record { mode = exclusive; key = owner_key }) w
        → Post IsStarted (
            (given r >>= λ _. pure (server_of (per_harness_admin_session_pool_size limits slots)))
              w)
    from_spawned (ok _) slots w held =
        let (some_worker, enough) =
          server_of-size (per_harness_admin_session_pool_size limits slots) in
        (held, some_worker, enough)
    from_spawned (err e) slots w held = tt

    start-Post :
        (connected : Action pg.World (Unit {0})) (w : pg.World)
        → Post IsStarted (finish_start_with connected w)
    unfolding finish_start_with finish_start_with_client
    start-Post connected w = whatever IsStarted connected _ w (λ _ u.
        whatever IsStarted
          (validate_postgres_18 pg (client_operation_timeout config.operation_timeout) clock) _ u
          (λ _ x.
            whatever IsStarted
              (regular_connection_slots pg (client_operation_timeout config.operation_timeout)
                clock)
              _ x
              (λ slots y.
                after-Post _ IsStarted _ _ (acquired y)
                  (λ _ z held. from_spawned spawned slots z held))))

    -- When a server starts, whatever the connector did and the server answered, its session holds
    -- the owner's advisory lock, and it has a cleanup worker or more, never more than its session
    -- pool has sessions.
    pub started_is_owned :
        (connected : Action pg.World (Unit {0})) (w v : pg.World) (server : ServerInner sem C)
        → finish_start_with connected w ≡ (ok server, v)
        → (1 ≤ track.held (record { mode = exclusive; key = owner_key }) v)
          × (1 ≤ server.worker_count)
          × (server.worker_count ≤ server.admin_sessions.max_size)
    started_is_owned connected w v server h = subst (Post IsStarted) h (start-Post connected w)
