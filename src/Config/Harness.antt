-- ===== src/Config/Harness.antt =====
-- src/config.rs: `OwnedContainerProfile`, `HarnessConfig` with its setters, and `ConnectionLimits`.
-- Durations are numbers of nanoseconds; a usize has 64 bits.
use postgres_test_harness.Base.{
  ℕ, ◌*◌, ◌/◌, min, Bool, true, ◌||◌, ltb, ◌==◌, if◌then◌else◌, Text, text, Option, none, some,
  invalid_configuration, timeout_out_of_range, Result, ok, err, ◌>>◌,
}
use postgres_test_harness.Config.Project.{ProjectName}

abbrev pub seconds : ℕ → ℕ
seconds n = n * 1000000000

abbrev pub u32_max : ℕ
u32_max = 4294967295

abbrev pub i32_max : ℕ
i32_max = 2147483647

abbrev pub i64_max : ℕ
i64_max = 9223372036854775807

abbrev pub default_connection_budget : ℕ
default_connection_budget = 120

abbrev pub default_connections_per_database : ℕ
default_connections_per_database = 11

pub record OwnedContainerProfile : Type 0 where
  pub initdb_no_sync : Bool
  pub tmpfs_size_bytes : Option ℕ

unfoldable pub performance : OwnedContainerProfile
performance = record { initdb_no_sync = true; tmpfs_size_bytes = some 1073741824 }

unfoldable pub with_initdb_no_sync : Bool → OwnedContainerProfile → OwnedContainerProfile
with_initdb_no_sync enabled profile = record profile { initdb_no_sync = enabled }

unfoldable pub with_tmpfs_size_bytes : ℕ → OwnedContainerProfile → Result OwnedContainerProfile
with_tmpfs_size_bytes size_bytes profile =
    if size_bytes == 0 || ltb i64_max size_bytes
    then err (
        invalid_configuration
          (text "owned-container tmpfs size must be between 1 and i64::MAX bytes"))
    else ok (record profile { tmpfs_size_bytes = some size_bytes })

unfoldable pub without_tmpfs : OwnedContainerProfile → OwnedContainerProfile
without_tmpfs profile = record profile { tmpfs_size_bytes = none }

-- `NonZeroU32` is a number; the setters and `IsUsable` keep it in its range.
pub record HarnessConfig : Type 0 where
  pub project : ProjectName
  pub admin_database_url : Option Text
  pub image : Option Text
  pub owned_container_profile : OwnedContainerProfile
  pub startup_timeout : ℕ
  pub operation_timeout : ℕ
  pub template_wait_timeout : ℕ
  pub stale_after : ℕ
  pub connection_budget_override : Option ℕ
  pub connections_per_database_override : Option ℕ
  pub cleanup_on_start : Bool

pub record ConnectionLimits : Type 0 where
  pub connection_budget : ℕ
  pub connections_per_database : ℕ

unfoldable pub max_simultaneous_leases : ConnectionLimits → ℕ
max_simultaneous_leases l = l.connection_budget / l.connections_per_database

-- The name has been validated.
abbrev pub default_config : ProjectName → HarnessConfig
default_config project = record {
  project = project;
  admin_database_url = none;
  image = none;
  owned_container_profile = performance;
  startup_timeout = seconds 60;
  operation_timeout = seconds 90;
  template_wait_timeout = seconds 900;
  stale_after = seconds 3600;
  connection_budget_override = none;
  connections_per_database_override = none;
  cleanup_on_start = true;
}

abbrev pub milliseconds : ℕ → ℕ
milliseconds timeout = timeout / 1000000

unfoldable pub validate_millisecond_timeout : ℕ → Result (Unit {0})
validate_millisecond_timeout timeout =
    if milliseconds timeout == 0 then err (timeout_out_of_range timeout) else ok tt

unfoldable pub validate_postgres_timeout : ℕ → Result (Unit {0})
unfolding validate_millisecond_timeout
validate_postgres_timeout timeout =
    validate_millisecond_timeout timeout
    >> (if ltb i32_max (milliseconds timeout) then err (timeout_out_of_range timeout) else ok tt)

unfoldable pub with_admin_database_url : Text → HarnessConfig → HarnessConfig
with_admin_database_url url c = record c { admin_database_url = some url }

unfoldable pub with_owned_container_profile : OwnedContainerProfile → HarnessConfig → HarnessConfig
with_owned_container_profile profile c = record c { owned_container_profile = profile }

unfoldable pub with_startup_timeout : ℕ → HarnessConfig → Result HarnessConfig
with_startup_timeout timeout c =
    validate_millisecond_timeout timeout >> ok (record c { startup_timeout = timeout })

unfoldable pub with_operation_timeout : ℕ → HarnessConfig → Result HarnessConfig
with_operation_timeout timeout c =
    validate_postgres_timeout timeout >> ok (record c { operation_timeout = timeout })

unfoldable pub with_template_wait_timeout : ℕ → HarnessConfig → Result HarnessConfig
with_template_wait_timeout timeout c =
    validate_postgres_timeout timeout >> ok (record c { template_wait_timeout = timeout })

unfoldable pub with_stale_after : ℕ → HarnessConfig → HarnessConfig
with_stale_after stale_after c = record c { stale_after = stale_after }

-- `u32::try_from(permits).ok().and_then(NonZeroU32::new)`.
abbrev pub non_zero_u32 : ℕ → Option ℕ
non_zero_u32 n = if n == 0 || ltb u32_max n then none else some n

abbrev pub set_budget : Option ℕ → HarnessConfig → Result HarnessConfig
set_budget none c =
    err (invalid_configuration (text "the connection budget must fit in a positive u32"))
set_budget (some n) c = ok (record c { connection_budget_override = some n })

unfoldable pub with_connection_budget : ℕ → HarnessConfig → Result HarnessConfig
with_connection_budget permits = set_budget (non_zero_u32 permits)

abbrev pub set_per_database : Option ℕ → HarnessConfig → Result HarnessConfig
set_per_database none c = err (invalid_configuration (text "per-database permits must be positive"))
set_per_database (some n) c = ok (record c { connections_per_database_override = some n })

-- The argument is a u32.
unfoldable pub with_connections_per_database : ℕ → HarnessConfig → Result HarnessConfig
with_connections_per_database permits = set_per_database (non_zero_u32 permits)

unfoldable pub with_cleanup_on_start : Bool → HarnessConfig → HarnessConfig
with_cleanup_on_start b c = record c { cleanup_on_start = b }

abbrev pub or_default : ℕ → Option ℕ → ℕ
or_default d none = d
or_default d (some n) = n

abbrev pub resolve : ℕ → ℕ → Result ConnectionLimits
resolve connection_budget connections_per_database =
    if ltb connection_budget connections_per_database
    then err (
        invalid_configuration
          (text "per-database permits must be no greater than the connection budget"))
    else ok (record {
      connection_budget = connection_budget;
      connections_per_database = connections_per_database;
    })

unfoldable pub connection_limits : HarnessConfig → Result ConnectionLimits
connection_limits c =
    let connection_budget = or_default default_connection_budget c.connection_budget_override in
    resolve connection_budget (
      or_default (min default_connections_per_database connection_budget)
        c.connections_per_database_override)
