-- ===== src/Container/Waiting.antt =====
-- src/server.rs: the wait for an owned container's server (`wait_for_owned_server`). Durations are in
-- nanoseconds; a round is numbered, and what it meets is an environment.
use postgres_test_harness.Base.{
  ℕ, zero, suc, ◌+◌, ◌-◌, ◌/◌, ◌≤◌, ◌<◌, ◌≡◌, ◌≢◌, refl, ap, subst, ◌∙◌, inl, inr, min, ◌==◌, Bool,
  true, false, Bool-cases, if◌then◌else◌, arith, Option, none, some, Error,
  container_startup_timeout, container_readiness_timeout, Result, ok, err,
}
use postgres_test_harness.Config.Harness.{OwnedContainerProfile}
use postgres_test_harness.Container.{ContainerExit, container_exit_error}

-- Of a round: the exit that its first check finds, the time that has passed, the exit that the
-- check after a timeout finds, and the connection, within a timeout for each attempt and for it
-- all.
pub record Environment : Type 0 where
  pub startup_exit : ℕ → Option ContainerExit
  pub elapsed : ℕ → ℕ
  pub exit_again : ℕ → Option ContainerExit
  pub connect : ℕ → ℕ → ℕ → Result ℕ

abbrev pub startup_connect_attempt_timeout : ℕ
startup_connect_attempt_timeout = 250000000

module _ (profile : OwnedContainerProfile) (startup_timeout : ℕ) (env : Environment) where
  abbrev pub time_remaining : ℕ → ℕ
  time_remaining round = startup_timeout - env.elapsed round

  abbrev pub timeout_error : Option Error → Error
  timeout_error none = container_startup_timeout startup_timeout
  timeout_error (some source) = container_readiness_timeout startup_timeout source

  abbrev pub exit_or : Option ContainerExit → Option (Result ℕ) → Option (Result ℕ)
  exit_or (some exit) next = some (err (container_exit_error profile exit))
  exit_or none next = next

  abbrev pub connected_or : (Error → Option (Result ℕ)) → Result ℕ → Option (Result ℕ)
  connected_or next (ok client) = some (ok client)
  connected_or next (err e) = next e

  -- The loop from a round on, after the last error; `none` is out of fuel.
  unfoldable pub wait_from : ℕ → ℕ → Option Error → Option (Result ℕ)
  wait_from zero round last_error = none
  wait_from (suc fuel) round last_error = exit_or (env.startup_exit round) (
      if time_remaining round / 1000000 == 0
      then exit_or (env.exit_again round) (some (err (timeout_error last_error)))
      else connected_or (λ e. wait_from fuel (round + 1) (some e))
          (env.connect round (min startup_connect_attempt_timeout (time_remaining round))
            (time_remaining round)))

  unfoldable pub wait_for_owned_server : ℕ → Option (Result ℕ)
  unfolding wait_from
  wait_for_owned_server fuel = wait_from fuel 0 none

  exit_or-decides :
      (e : Option ContainerExit) (next : Option (Result ℕ)) → next ≢ none → exit_or e next ≢ none
  exit_or-decides none next n = n
  exit_or-decides (some exit) next n = λ p. cc

  connected_or-decides :
      (next : Error → Option (Result ℕ)) (r : Result ℕ)
      → ((e : Error) → next e ≢ none)
      → connected_or next r ≢ none
  connected_or-decides next (ok c) n = λ p. cc
  connected_or-decides next (err e) n = n e

  decides :
      (more round : ℕ) (last_error : Option Error)
      → startup_timeout < env.elapsed (round + more) + 1000000
      → wait_from (suc more) round last_error ≢ none
  unfolding wait_from
  decides zero round last_error h =
      let now : round + 0 ≡ round = omega arith in
      let late : (time_remaining round / 1000000 == 0) ≡ true =
        ground (arith, ap env.elapsed now) in
      exit_or-decides (env.startup_exit round) _
        (rw late (exit_or-decides (env.exit_again round) _ (λ p. cc)))
  decides (suc more) round last_error h =
      let same : round + suc more ≡ (round + 1) + more = omega arith in
      let rest : (e : Error) → wait_from (suc more) (round + 1) (some e) ≢ none =
        λ e. decides more (round + 1) (some e) (subst Late same h) in
      exit_or-decides (env.startup_exit round) _
        (elim (Bool-cases (time_remaining round / 1000000 == 0)) [
          | inl late ↦ rw late (exit_or-decides (env.exit_again round) _ (λ p. cc))
          | inr early ↦ rw early (connected_or-decides _ _ rest)
        ])
    where
      Late : ℕ → Type 0
      Late n = startup_timeout < env.elapsed n + 1000000

  -- The wait ends: when less than a millisecond of the startup timeout is left at some round, the
  -- loop has returned a client or an error by the end of that round.
  pub wait_ends :
      (round : ℕ)
      → startup_timeout < env.elapsed round + 1000000
      → wait_for_owned_server (suc round) ≢ none
  unfolding wait_for_owned_server
  wait_ends round h =
      let same : round ≡ 0 + round = omega arith in decides round 0 none (subst Late same h)
    where
      Late : ℕ → Type 0
      Late n = startup_timeout < env.elapsed n + 1000000

  -- A round whose connection is the client, made in time and with no exit seen.
  abbrev pub Connected : ℕ → Type 0
  Connected client =
      (n : ℕ) × (env.startup_exit n ≡ none)
      × (1000000 ≤ time_remaining n)
      × (env.connect n (min startup_connect_attempt_timeout (time_remaining n)) (time_remaining n)
          ≡ ok client)

  module _ (client round : ℕ) (rest : Error → Option (Result ℕ))
      (later : (e : Error) → rest e ≡ some (ok client) → Connected client)
      (no_exit : env.startup_exit round ≡ none) (in_time : 1000000 ≤ time_remaining round) where
    connects_now :
        (r : Result ℕ)
        → env.connect round
            (min startup_connect_attempt_timeout (time_remaining round))
            (time_remaining round)
          ≡ r
        → connected_or rest r ≡ some (ok client)
        → Connected client
    connects_now (ok c) e h =
        let same : ◌≡◌ {A = Result ℕ} (ok c) (ok client) = cc in (round, no_exit, in_time, e ∙ same)
    connects_now (err f) e h = later f h

  never_connects :
      (e : Option ContainerExit) (f : Error) (client : ℕ)
      → exit_or e (some (err f)) ≢ some (ok client)
  never_connects none f client h = cc
  never_connects (some exit) f client h = cc

  connects :
      (fuel round : ℕ) (last_error : Option Error) (client : ℕ)
      → wait_from fuel round last_error ≡ some (ok client)
      → Connected client
  unfolding wait_from
  connects zero round last_error client h = absurd (cc)
  connects (suc fuel) round last_error client h =
      by_exit (λ e k. connects fuel (round + 1) (some e) client k) (env.startup_exit round) refl h
    where
      by_time :
          ((e : Error) → wait_from fuel (round + 1) (some e) ≡ some (ok client) → Connected client)
          → env.startup_exit round ≡ none
          → (b : Bool) → (time_remaining round / 1000000 == 0) ≡ b
          → (if b
              then exit_or (env.exit_again round) (some (err (timeout_error last_error)))
              else connected_or
                  (λ e. wait_from fuel (round + 1) (some e))
                  (env.connect round
                    (min startup_connect_attempt_timeout (time_remaining round))
                    (time_remaining round)))
            ≡ some (ok client)
          → Connected client
      by_time later no_exit true t k =
          absurd (never_connects (env.exit_again round) (timeout_error last_error) client k)
      by_time later no_exit false t k =
          connects_now client round _ later no_exit (ground arith) _ refl k

      by_exit :
          ((e : Error) → wait_from fuel (round + 1) (some e) ≡ some (ok client) → Connected client)
          → (x : Option ContainerExit) → env.startup_exit round ≡ x
          → exit_or x (
              if time_remaining round / 1000000 == 0
              then exit_or (env.exit_again round) (some (err (timeout_error last_error)))
              else connected_or
                  (λ e. wait_from fuel (round + 1) (some e))
                  (env.connect round
                    (min startup_connect_attempt_timeout (time_remaining round))
                    (time_remaining round)))
            ≡ some (ok client)
          → Connected client
      by_exit later (some exit) e k = absurd (cc)
      by_exit later none e k = by_time later e _ refl k

  -- A client that the wait returns is that of an attempt which was made with at least a
  -- millisecond left, within what was left, and before which the container was not seen to exit.
  pub wait_connects :
      (fuel client : ℕ)
      → wait_for_owned_server fuel ≡ some (ok client)
      → (n : ℕ) × (env.startup_exit n ≡ none)
        × (1000000 ≤ time_remaining n)
        × (env.connect n (min startup_connect_attempt_timeout (time_remaining n)) (time_remaining n)
            ≡ ok client)
  unfolding wait_for_owned_server
  wait_connects fuel client h = connects fuel 0 none client h
