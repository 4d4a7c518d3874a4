-- ===== src/Server/Policy.antt =====
-- src/server.rs and src/admin.rs: how a server's session pool and its cleanup queue are sized, and
-- how the ends of a shutdown are put together. A usize has 64 bits.
use postgres_test_harness.Base.{
  ℕ, ◌-◌, ◌*◌, ◌/◌, ◌≤◌, ◌≡◌, refl, arith, min, max, Option, none, some,
  cleanup_and_container_shutdown, Result, ok, err,
}
use postgres_test_harness.Metadata.Decimal.{ℤ, pos, negsuc}
use postgres_test_harness.Semaphore.{Semaphore}
use postgres_test_harness.Admission.{DatabaseAdmission, close}
use postgres_test_harness.Config.Harness.{ConnectionLimits, max_simultaneous_leases}

-- `.max(0) as usize` of an i32.
abbrev pub as_usize : ℤ → ℕ
as_usize (pos n) = n
as_usize (negsuc n) = 0

unfoldable pub regular_connection_slots_from_settings : ℤ → ℤ → ℤ → ℕ
regular_connection_slots_from_settings max_connections reserved superuser_reserved =
    (as_usize max_connections - as_usize reserved) - as_usize superuser_reserved

unfoldable pub per_harness_admin_session_pool_size : ConnectionLimits → ℕ → ℕ
per_harness_admin_session_pool_size limits regular_connection_slots =
    let postgres_headroom_limit = max (regular_connection_slots / 4) 1 in
    max (min (max_simultaneous_leases limits) postgres_headroom_limit) 1

pub record CleanupQueueLimits : Type 0 where
  pub worker_count : ℕ
  pub queue_capacity : ℕ

abbrev pub clamp : ℕ → ℕ → ℕ → ℕ
clamp low high n = min (max n low) high

unfoldable pub cleanup_queue_limits : ℕ → CleanupQueueLimits
cleanup_queue_limits admin_pool_size =
    let worker_count = clamp 1 4 (admin_pool_size / 2) in
    record { worker_count = worker_count; queue_capacity = worker_count }

unfoldable pub combine_cleanup_and_shutdown :
    Result (Unit {0}) → Result (Unit {0}) → Result (Unit {0})
combine_cleanup_and_shutdown (ok _) (ok _) = ok tt
combine_cleanup_and_shutdown (err cleanup) (ok _) = err cleanup
combine_cleanup_and_shutdown (ok _) (err shutdown) = err shutdown
combine_cleanup_and_shutdown (err cleanup) (err shutdown) =
    err (cleanup_and_container_shutdown cleanup shutdown)

-- The container is a parameter.
unfoldable pub begin_owned_container_shutdown :
    (sem : Semaphore) {C : Type 0}
    → Option C
    → DatabaseAdmission sem
    → Option C × DatabaseAdmission sem
begin_owned_container_shutdown sem none a = (none, a)
begin_owned_container_shutdown sem (some container) a = (some container, close sem a)

-- For settings of a server and limits that allow a lease: a harness's session pool has a session,
-- no more than one for each lease that is possible, and, where the server has four regular
-- connections, at most a quarter of those. Its cleanup has between one and four workers, never more
-- than the pool has sessions, and at least half of a pool of two or more is left to other work.
pub sizes_are_sound :
    (max_connections reserved superuser_reserved : ℤ) (limits : ConnectionLimits)
    → 1 ≤ max_simultaneous_leases limits
    → let slots =
        regular_connection_slots_from_settings max_connections reserved superuser_reserved in
      let pool = per_harness_admin_session_pool_size limits slots in
      let queue = cleanup_queue_limits pool in
      (1 ≤ pool)
      × (pool ≤ max_simultaneous_leases limits)
      × (pool * 4 ≤ max slots 4)
      × (1 ≤ queue.worker_count)
      × (queue.worker_count ≤ 4)
      × (queue.worker_count ≤ pool)
      × (queue.worker_count * 2 ≤ max pool 2)
      × (queue.queue_capacity ≡ queue.worker_count)
unfolding per_harness_admin_session_pool_size cleanup_queue_limits
sizes_are_sound a b c limits h = (
  omega arith,
  omega arith,
  omega arith,
  omega arith,
  omega arith,
  omega arith,
  omega arith,
  refl,
)
