-- ===== src/Container.antt =====
-- src/server.rs: the owned container: how its start, its exit and its end are reported, the wait for
-- its server, and the worker thread that removes it. The container engine is a parameter: of its
-- errors an identity and a message are kept.
pub mod Evidence
pub mod Worker
pub mod Waiting
pub mod Resolution
use postgres_test_harness.Base.{
  ℕ, ◌+◌, ◌-◌, ◌==◌, ◌&&◌, ◌||◌, Bool, true, false, leb, if◌then◌else◌, [], ◌∷◌, map, Text, text,
  text_eq, strip_prefix, Option, none, some, Error, container_start, container_storage_start,
  container_exited_before_ready, container_storage_exhausted, container_memory_exhausted,
  container_startup_timeout, container_remove, container_worker_stopped, container_worker_panicked,
  container_startup_and_cleanup, Result, ok, err,
}
use postgres_test_harness.Config.Harness.{OwnedContainerProfile}

-- An exit code is a status between 0 and 255.
pub record ContainerExit : Type 0 where
  pub exit_code : Option ℕ
  pub output : Text

pub record EngineError : Type 0 where
  pub identity : ℕ
  pub message : Text

pub record StartedContainer : Type 0 where
  pub id : Text
  pub host : Text
  pub port : ℕ

abbrev pub postgres_storage_path : Text
postgres_storage_path = text "/var/lib/postgresql"

abbrev pub ascii_lowercase : ℕ → ℕ
ascii_lowercase c = if leb b'A' c && leb c b'Z' then c + 32 else c

-- The bytes of an ASCII text are those of its UTF-8, and a replaced invalid sequence has none.
unfoldable pub to_ascii_lowercase : Text → Text
to_ascii_lowercase t = map ascii_lowercase t

abbrev pub starts_with : Text → Text → Bool
starts_with s t = elim (strip_prefix s t) [ none ↦ false | some rest ↦ true ]

-- `str::contains`.
unfoldable pub contains_text : Text → Text → Bool
contains_text s [] = starts_with s []
contains_text s (c ∷ t) =
    let further = contains_text s t in if starts_with s (c ∷ t) then true else further

unfoldable pub storage_exhaustion_evidence : Text → Option Text
unfolding contains_text to_ascii_lowercase
storage_exhaustion_evidence output =
    if contains_text (text "no space left on device") (to_ascii_lowercase output)
    then some (text "container log reported no space left on device")
    else none

abbrev pub is_137 : Option ℕ → Bool
is_137 none = false
is_137 (some code) = code == 137

unfoldable pub memory_exhaustion_evidence : Text → Option ℕ → Option Text
unfolding contains_text to_ascii_lowercase
memory_exhaustion_evidence output exit_code =
    let lower = to_ascii_lowercase output in
    if contains_text (text "cannot allocate memory") lower
      || contains_text (text "out of memory") lower
    then some (text "container log reported memory exhaustion")
    else if is_137 exit_code
    then some (text "container exited with status 137, consistent with an engine OOM kill")
    else none

abbrev pub by_memory : ℕ → ContainerExit → Option Text → Error
by_memory size exit (some evidence) = container_memory_exhausted size evidence
by_memory size exit none = container_exited_before_ready exit.exit_code

abbrev pub by_storage : ℕ → ContainerExit → Option Text → Error
by_storage size exit (some evidence) = container_storage_exhausted size evidence
by_storage size exit none =
    by_memory size exit (memory_exhaustion_evidence exit.output exit.exit_code)

abbrev pub by_tmpfs : ContainerExit → Option ℕ → Error
by_tmpfs exit none = container_exited_before_ready exit.exit_code
by_tmpfs exit (some size) = by_storage size exit (storage_exhaustion_evidence exit.output)

unfoldable pub container_exit_error : OwnedContainerProfile → ContainerExit → Error
container_exit_error profile exit = by_tmpfs exit profile.tmpfs_size_bytes

unfoldable pub tmpfs_start_error_evidence : EngineError → Bool
unfolding contains_text to_ascii_lowercase
tmpfs_start_error_evidence source =
    let message = to_ascii_lowercase source.message in
    contains_text (text "tmpfs") message
    || (contains_text (text "mount") message && contains_text postgres_storage_path message)

abbrev pub by_mount : EngineError → Option ℕ → Bool → Error
by_mount source (some size) true = container_storage_start size source.identity
by_mount source (some size) false = container_start source.identity
by_mount source none evidence = container_start source.identity

unfoldable pub map_container_start_error : OwnedContainerProfile → EngineError → Error
unfolding tmpfs_start_error_evidence
map_container_start_error profile source =
    by_mount source profile.tmpfs_size_bytes (tmpfs_start_error_evidence source)

-- `eq_ignore_ascii_case`.
unfoldable pub ipv4_mapped_container_host : Text → Text
unfolding to_ascii_lowercase
ipv4_mapped_container_host host =
    if text_eq (to_ascii_lowercase host) (text "localhost") then text "127.0.0.1" else host

-- What joining the worker thread yields: a panic, or the result of the removal.
pub data Joined : Type 0 where
  thread_panicked : Joined
  thread_ended : Option EngineError → Joined

unfoldable pub join_failed_startup_worker : Joined → Result (Unit {0})
join_failed_startup_worker thread_panicked = err container_worker_panicked
join_failed_startup_worker (thread_ended none) = ok tt
join_failed_startup_worker (thread_ended (some source)) = err (container_remove source.identity)

unfoldable pub combine_startup_and_cleanup : Error → Result (Unit {0}) → Error
combine_startup_and_cleanup startup (ok _) = startup
combine_startup_and_cleanup startup (err cleanup) = container_startup_and_cleanup startup cleanup

-- What `recv_timeout` on the worker's answer comes to.
pub data Answer : Type 0 where
  started : StartedContainer → Answer
  failed : EngineError → Answer
  timed_out : Answer
  disconnected : Answer

-- The answer to `ContainerOwner::start`; the worker is joined where it failed.
unfoldable pub start_result : OwnedContainerProfile → ℕ → Answer → Joined → Result StartedContainer
unfolding map_container_start_error combine_startup_and_cleanup join_failed_startup_worker
start_result profile startup_timeout (started c) joined = ok c
start_result profile startup_timeout (failed source) joined = err (
    combine_startup_and_cleanup (map_container_start_error profile source)
      (join_failed_startup_worker joined))
start_result profile startup_timeout timed_out joined = err (
    combine_startup_and_cleanup (container_startup_timeout startup_timeout)
      (join_failed_startup_worker joined))
start_result profile startup_timeout disconnected joined =
    err (combine_startup_and_cleanup container_worker_stopped (join_failed_startup_worker joined))
