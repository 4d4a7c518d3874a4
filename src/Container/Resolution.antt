-- ===== src/Container/Resolution.antt =====
-- src/server.rs: what the engine says of a container: its address, asked for again while it cannot
-- be had (`resolve_started_container_with_retry`), and its bounded log. Durations are in
-- nanoseconds; a round is numbered.
use postgres_test_harness.Base.{
  ℕ, zero, suc, ◌+◌, ◌-◌, ◌≤◌, ◌≡◌, ◌≢◌, ap, Bool, true, false, leb, ltb, if◌then◌else◌, arith,
  length, length-append, [], ◌∷◌, ◌++◌, Text, take, Option, none, some,
}
use postgres_test_harness.Container.{EngineError, StartedContainer, ipv4_mapped_container_host}

pub data Reply (A : Type 0) : Type 0 where
  replies : A → Reply A
  refuses : EngineError → Reply A

-- The engine's replies in a round, and the time that has passed; `is_running` is `none` where the
-- engine cannot say.
pub record Engine : Type 0 where
  pub get_host : ℕ → Reply Text
  pub get_host_port_ipv4 : ℕ → Reply ℕ
  pub is_running : ℕ → Option Bool
  pub elapsed : ℕ → ℕ

module _ (id : Text) (engine : Engine) where
  abbrev pub with_port : Text → Reply ℕ → Reply StartedContainer
  with_port host (replies port) = replies (record { id = id; host = host; port = port })
  with_port host (refuses e) = refuses e

  abbrev pub with_host : ℕ → Reply Text → Reply StartedContainer
  with_host round (replies host) =
      with_port (ipv4_mapped_container_host host) (engine.get_host_port_ipv4 round)
  with_host round (refuses e) = refuses e

  unfoldable pub resolve_started_container : ℕ → Reply StartedContainer
  resolve_started_container round = with_host round (engine.get_host round)

  -- `matches!(container.is_running(), Ok(false))`.
  abbrev pub has_stopped : Option Bool → Bool
  has_stopped (some false) = true
  has_stopped (some true) = false
  has_stopped none = false

  module _ (startup_timeout : ℕ) where
    abbrev pub resolved_or :
        ℕ
        → Option (Reply StartedContainer)
        → Reply StartedContainer
        → Option (Reply StartedContainer)
    resolved_or round again (replies c) = some (replies c)
    resolved_or round again (refuses e) =
        if leb startup_timeout (engine.elapsed round)
        then some (refuses e)
        else if has_stopped (engine.is_running round)
        then some (refuses e)
        else again

    -- The loop from a round on; `none` is out of fuel.
    unfoldable pub resolve_from : ℕ → ℕ → Option (Reply StartedContainer)
    unfolding resolve_started_container
    resolve_from zero round = none
    resolve_from (suc fuel) round =
        let again = resolve_from fuel (round + 1) in
        resolved_or round again (resolve_started_container round)

    unfoldable pub resolve_started_container_with_retry : ℕ → Option (Reply StartedContainer)
    unfolding resolve_from
    resolve_started_container_with_retry fuel = resolve_from fuel 0

    resolved_or-late :
        (round : ℕ) (again : Option (Reply StartedContainer)) (r : Reply StartedContainer)
        → startup_timeout ≤ engine.elapsed round
        → resolved_or round again r ≢ none
    resolved_or-late round again (replies c) h = λ p. cc
    resolved_or-late round again (refuses e) h = λ p. ground arith

    resolved_or-again :
        (round : ℕ) (again : Option (Reply StartedContainer)) (r : Reply StartedContainer)
        → again ≢ none
        → resolved_or round again r ≢ none
    resolved_or-again round again (replies c) h = λ p. cc
    resolved_or-again round again (refuses e) h = λ p. h (ground arith)

    resolves :
        (more round : ℕ)
        → startup_timeout ≤ engine.elapsed (round + more)
        → resolve_from (suc more) round ≢ none
    unfolding resolve_from
    resolves zero round h =
        let now : round + 0 ≡ round = omega arith in
        resolved_or-late round _ _ (ground (arith, ap engine.elapsed now))
    resolves (suc more) round h =
        let same : round + suc more ≡ (round + 1) + more = omega arith in
        resolved_or-again round _ _
          (resolves more (round + 1) (ground (arith, ap engine.elapsed same)))

    -- The resolution ends: when the startup timeout has passed at some round, it has returned an
    -- address or an error by the end of that round.
    pub resolution_ends :
        (round : ℕ)
        → startup_timeout ≤ engine.elapsed round
        → resolve_started_container_with_retry (suc round) ≢ none
    unfolding resolve_started_container_with_retry
    resolution_ends round h =
        let same : 0 + round ≡ round = omega arith in
        resolves round 0 (ground (arith, ap engine.elapsed same))

abbrev pub startup_log_limit_bytes : ℕ
startup_log_limit_bytes = 65536

abbrev pub up_to : ℕ → Text → Text
up_to remaining stdout = if ltb 0 remaining then take remaining stdout else []

-- What could be read of the two streams is given, since an error of reading keeps what was read.
unfoldable pub bounded_container_output : Text → Text → Text
bounded_container_output stderr stdout =
    let output = take startup_log_limit_bytes stderr in
    output ++ up_to (startup_log_limit_bytes - length output) stdout

take-bounded : (n : ℕ) (t : Text) → length (take n t) ≤ n
take-bounded zero t = omega arith
take-bounded (suc n) [] = omega arith
take-bounded (suc n) (b ∷ t) = omega (arith, take-bounded n t)

up_to-bounded : (n : ℕ) (t : Text) → length (up_to n t) ≤ n
up_to-bounded n t = ground (arith, take-bounded n t)

-- The log that is kept of a container is never longer than the limit.
pub output_is_bounded :
    (stderr stdout : Text)
    → length (bounded_container_output stderr stdout) ≤ startup_log_limit_bytes
unfolding bounded_container_output
output_is_bounded stderr stdout =
    let output = take startup_log_limit_bytes stderr in
    let rest = up_to (startup_log_limit_bytes - length output) stdout in
    omega (
      arith,
      length-append output rest,
      take-bounded startup_log_limit_bytes stderr,
      up_to-bounded (startup_log_limit_bytes - length output) stdout,
    )
