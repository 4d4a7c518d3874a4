-- ===== src/Sessions/Checkout.antt =====
-- src/admin.rs: checking a session out, and running an operation with it. The pool's mutex is not
-- poisoned: no code that holds it panics while the pool's total counts its sessions.
use postgres_test_harness.Base.{
  ℕ, zero, suc, ◌+◌, Bool, true, false, if◌then◌else◌, Option, none, some, Error,
  admin_session_pool_closed, admin_session_checkout_timeout, Result, ok, err, length,
}
use postgres_test_harness.Sessions.Pool.{
  AdminSessionPoolState, shut, reused, reserved, full, acquire_checkout, release_slot, drop_session,
}

-- What a run of `checkout` meets outside the pool: in each round, whether preparing the idle
-- client succeeds and whether the deadline has passed by its end, and the result of connecting.
pub record Environment : Type 0 where
  pub prepares : ℕ → Bool
  pub elapsed : ℕ → Bool
  pub connected : Result ℕ
  pub timeout : ℕ

pub data Outcome : Type 0 where
  session : ℕ → AdminSessionPoolState → Outcome
  fails : Error → AdminSessionPoolState → Outcome
  blocks : AdminSessionPoolState → Outcome
  panics : Outcome
  out_of_fuel : Outcome

-- A failed connection gives its slot back.
unfoldable pub connect_new : Environment → AdminSessionPoolState → Outcome
connect_new env s = elim env.connected [
  | ok client ↦ session client s
  | err e ↦ elim (release_slot s) [ none ↦ panics | some t ↦ fails e t ]
]

-- An idle client that cannot be prepared is dropped and its slot released; the next round follows
-- unless the deadline has passed.
unfoldable pub prepare_reused :
    Environment → ℕ → (AdminSessionPoolState → Outcome) → ℕ → AdminSessionPoolState → Outcome
unfolding release_slot
prepare_reused env round next_round client s =
    if env.prepares round then session client s else elim (release_slot s) [
      | none ↦ panics
      | some t ↦
          if env.elapsed round
          then fails (admin_session_checkout_timeout env.timeout) t
          else next_round t
    ]

-- The loop of `checkout` from a round on.
unfoldable pub checkout_from : ℕ → ℕ → ℕ → Environment → AdminSessionPoolState → Outcome
unfolding acquire_checkout connect_new prepare_reused
checkout_from zero round max_size env s = out_of_fuel
checkout_from (suc fuel) round max_size env s = elim (acquire_checkout max_size s) [
  | shut ↦ fails admin_session_pool_closed s
  | full ↦
      if env.elapsed round then fails (admin_session_checkout_timeout env.timeout) s else blocks s
  | reserved t ↦ connect_new env t
  | reused client t ↦
      prepare_reused env round (checkout_from fuel (round + 1) max_size env) client t
]

-- Each round but the last takes an idle client away, so this fuel is enough (`checkout_ends`).
unfoldable pub checkout : ℕ → Environment → AdminSessionPoolState → Outcome
unfolding checkout_from
checkout max_size env s = checkout_from (length s.idle + 1) 0 max_size env s

pub data AdminSessionDisposition {ℓ} (T : Type ℓ) : Type ℓ where
  reuse : T → AdminSessionDisposition T
  evict : T → AdminSessionDisposition T

pub data Executed {ℓ} (T : Type ℓ) : Type ℓ where
  returned : Result T → AdminSessionPoolState → Executed T
  waiting : AdminSessionPoolState → Executed T
  unwound : AdminSessionPoolState → Executed T
  panicked : Executed T

module _ {T : Type 0} where
  -- A session that is dropped while a panic of the operation, `none`, unwinds is not reusable.
  unfoldable pub give_back :
      ℕ → AdminSessionPoolState → Option (AdminSessionDisposition T) → Executed T
  unfolding drop_session
  give_back client s none = elim (drop_session false client s) [
    | none ↦ panicked
    | some t ↦ unwound t
  ]
  give_back client s (some (reuse value)) = elim (drop_session true client s) [
    | none ↦ panicked
    | some t ↦ returned (ok value) t
  ]
  give_back client s (some (evict value)) = elim (drop_session false client s) [
    | none ↦ panicked
    | some t ↦ returned (ok value) t
  ]

  -- No other thread takes part; Sessions/Sharing interleaves the critical sections.
  unfoldable pub execute_with_disposition :
      ℕ
      → Environment
      → (ℕ → Option (AdminSessionDisposition T))
      → AdminSessionPoolState
      → Executed T
  unfolding checkout give_back
  execute_with_disposition max_size env operation s = elim (checkout max_size env s) [
    | session client t ↦ give_back client t (operation client)
    | fails e t ↦ returned (err e) t
    | blocks t ↦ waiting t
    | panics ↦ panicked
    | out_of_fuel ↦ panicked
  ]

  -- `execute`: a success is reused, and a failure evicts its session.
  unfoldable pub by_result : Result T → AdminSessionDisposition (Result T)
  by_result (ok value) = reuse (ok value)
  by_result (err e) = evict (err e)
