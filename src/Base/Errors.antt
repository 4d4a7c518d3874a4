-- ===== src/Base/Errors.antt =====
-- error.rs: the crate's errors as values, and `Result`.
-- Of an error that another crate raises only an identity is kept, and of a tokio_postgres error
-- whether the server reported it.
use Prim.Native.Nat.{ℕ}
use mathlib.Core.Option.{Option}
use mathlib.Core.List.{List, [], ◌∷◌}
use postgres_test_harness.Base.Bytes.{Text}

-- `as_db_error` is some, or none.
pub data PostgresSource : Type 0 where
  db_error : ℕ → PostgresSource
  other_error : ℕ → PostgresSource

-- Durations are numbers of nanoseconds.
mutual
  pub data Error : Type 0 where
    invalid_configuration : Text → Error
    invalid_project_name : Text → Text → Error
    invalid_image_reference : Text → Error
    invalid_admin_database_url : Text → Error
    invalid_database_name : Text → Error
    postgres : Text → PostgresSource → Error
    postgres_connect_timeout : Text → ℕ → Error
    postgres_operation_timeout : Text → ℕ → Error
    postgres_runtime : Text → ℕ → Error
    unsupported_postgres_version : ℕ → Error
    missing_uuid_v7 : Error
    external_admin_url_required : Error
    container_start : ℕ → Error
    container_storage_start : ℕ → ℕ → Error
    container_readiness_timeout : ℕ → Error → Error
    container_exited_before_ready : Option ℕ → Error
    container_storage_exhausted : ℕ → Text → Error
    container_memory_exhausted : ℕ → Text → Error
    container_startup_timeout : ℕ → Error
    container_remove : ℕ → Error
    container_worker_start : ℕ → Error
    container_worker_stopped : Error
    container_worker_panicked : Error
    exit_cleanup_registration : Error
    blocking_task : ℕ → Error
    state_poisoned : Text → Error
    connection_budget_closed : Error
    invalid_prewarm_capacity : ℕ → ℕ → Error
    prewarm_pool_closed : Error
    admin_session_pool_closed : Error
    admin_session_checkout_timeout : ℕ → Error
    cleanup_queue_closed : Error
    cleanup_worker_stopped : Error
    cleanup_worker_panicked : Error
    deferred_cleanup : Failures → Error
    template_initializer : ℕ → Error
    template_initializer_and_cleanup : ℕ → Error → Error
    managed_database_tag_and_cleanup : Error → Error → Error
    inconsistent_metadata : Text → Error
    timeout_out_of_range : ℕ → Error
    template_connections_remain : Text → Error
    cleanup_worker_start : ℕ → Error
    cleanup_and_container_shutdown : Error → Error → Error
    container_startup_and_cleanup : Error → Error → Error

  -- `Vec<DeferredCleanupFailure>`, each a database's name with the error.
  pub data Failures : Type 0 where
    no_failures : Failures
    failed : Text → Error → Failures → Failures

pub record DeferredCleanupFailure : Type 0 where
  pub database_name : Text
  pub source : Error

abbrev pub failures : List DeferredCleanupFailure → Failures
failures [] = no_failures
failures (f ∷ fs) = failed f.database_name f.source (failures fs)

pub data Result {ℓ} (A : Type ℓ) : Type ℓ where
  ok : A → Result A
  err : Error → Result A

abbrev pub map_err {ℓ} : {A : Type ℓ} → (Error → Error) → Result A → Result A
map_err f (ok a) = ok a
map_err f (err e) = err (f e)

-- The operator `?`: an error is returned at once.
infixl 5 ◌>>=◌
abbrev pub ◌>>=◌ {ℓ κ} : {T : Type ℓ} {U : Type κ} → Result T → (T → Result U) → Result U
err e >>= next = err e
ok t >>= next = next t

infixl 5 ◌>>◌
abbrev pub ◌>>◌ {ℓ} : {U : Type ℓ} → Result (Unit {0}) → Result U → Result U
checked >> next = checked >>= λ _. next

-- What an operation that may block does when it is tried once.
pub data Attempt {ℓ} (A : Type ℓ) : Type ℓ where
  waits : Attempt A
  panics : Attempt A
  returns : Result A → Attempt A
