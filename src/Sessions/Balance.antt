-- ===== src/Sessions/Balance.antt =====
-- src/admin.rs: the pool's total counts the idle sessions and those that callers hold.
use postgres_test_harness.Base.{
  ℕ, zero, suc, ◌+◌, ◌≤◌, ◌<◌, ◌≡◌, refl, ◌⊎◌, inl, inr, ap, Bool-cases, if◌then◌else◌,
  admin_session_checkout_timeout, Bool, true, false, [], arith, length, Option, none, some, err,
}
use postgres_test_harness.Sessions.Pool.{
  AdminSessionPoolState, Acquired, shut, reused, reserved, full, acquire_checkout, release_slot,
  drop_session, close,
}
use postgres_test_harness.Sessions.Checkout.{
  Environment, Outcome, session, fails, blocks, panics, out_of_fuel, connect_new, prepare_reused,
  checkout_from, checkout, AdminSessionDisposition, reuse, evict, Executed, returned, unwound,
  waiting, panicked, give_back, execute_with_disposition,
}

-- `held` sessions or reserved slots are with callers.
pub record IsBalanced (max_size held : ℕ) (s : AdminSessionPoolState) : Type 0 where
  pub total : s.total ≡ length s.idle + held
  pub bounded : s.total ≤ max_size
  pub closed_idle : s.closed ≡ true → s.idle ≡ []

-- The state that an operation leaves, where it does not panic.
abbrev pub Leaves : ℕ → ℕ → Option AdminSessionPoolState → Type 0
Leaves max_size held none = ⊥
Leaves max_size held (some s) = IsBalanced max_size held s

abbrev AcquiredBalance : ℕ → ℕ → Acquired → Type 0
AcquiredBalance max_size held shut = Unit
AcquiredBalance max_size held full = Unit
AcquiredBalance max_size held (reserved s) = IsBalanced max_size (suc held) s
AcquiredBalance max_size held (reused client s) = IsBalanced max_size (suc held) s

module _ (max_size held : ℕ) where
  pub acquire-balance :
      (s : AdminSessionPoolState)
      → IsBalanced max_size held s
      → AcquiredBalance max_size held (acquire_checkout max_size s)
  unfolding acquire_checkout
  acquire-balance s b = ground arith

  pub release-balance :
      (s : AdminSessionPoolState)
      → IsBalanced max_size (suc held) s
      → Leaves max_size held (release_slot s)
  unfolding release_slot
  release-balance s b = ground arith

  pub drop-balance :
      (reusable : Bool) (client : ℕ) (s : AdminSessionPoolState)
      → IsBalanced max_size (suc held) s
      → Leaves max_size held (drop_session reusable client s)
  unfolding drop_session
  drop-balance reusable client s b = ground arith

  pub close-balance :
      (s : AdminSessionPoolState) → IsBalanced max_size held s → Leaves max_size held (close s)
  unfolding close
  close-balance s b = ground arith

-- A session is one more with the caller; a failure or a wait is none.
abbrev pub OutcomeBalance : ℕ → ℕ → Outcome → Type 0
OutcomeBalance max_size held (session client s) = IsBalanced max_size (suc held) s
OutcomeBalance max_size held (fails e s) = IsBalanced max_size held s
OutcomeBalance max_size held (blocks s) = IsBalanced max_size held s
OutcomeBalance max_size held panics = ⊥
OutcomeBalance max_size held out_of_fuel = ⊥

connect-balance :
    (max_size held : ℕ) (env : Environment) (s : AdminSessionPoolState)
    → IsBalanced max_size (suc held) s
    → OutcomeBalance max_size held (connect_new env s)
unfolding connect_new
connect-balance max_size held env s b = ground (arith, release-balance max_size held s b)

acquire-idle-falls :
    (max_size client : ℕ) (s t : AdminSessionPoolState)
    → acquire_checkout max_size s ≡ reused client t
    → length s.idle ≡ suc (length t.idle)
unfolding acquire_checkout
acquire-idle-falls max_size client s t h = ground arith

release-idle : (s t : AdminSessionPoolState) → release_slot s ≡ some t → t.idle ≡ s.idle
unfolding release_slot
release-idle s t h = ground arith

Acquired-cases :
    (a : Acquired)
    → (a ≡ shut)
      ⊎ (a ≡ full)
      ⊎ ((t : AdminSessionPoolState) × (a ≡ reserved t))
      ⊎ ((c : ℕ) × (t : AdminSessionPoolState) × (a ≡ reused c t))
Acquired-cases shut = inl refl
Acquired-cases full = inr (inl refl)
Acquired-cases (reserved t) = inr (inr (inl (t, refl)))
Acquired-cases (reused c t) = inr (inr (inr (c, t, refl)))

prepare-balance :
    (max_size held : ℕ) (env : Environment) (round client : ℕ) (s : AdminSessionPoolState)
    (next_round : AdminSessionPoolState → Outcome)
    → IsBalanced max_size (suc held) s
    → ((t : AdminSessionPoolState)
        → IsBalanced max_size held t
        → length t.idle ≡ length s.idle
        → OutcomeBalance max_size held (next_round t))
    → OutcomeBalance max_size held (prepare_reused env round next_round client s)
unfolding prepare_reused
prepare-balance max_size held env round client s next_round b goes_on =
    elim (Bool-cases (env.prepares round)) [
      | inl e ↦ rw (e, prepare_reused) b
      | inr e ↦
          rw (e, prepare_reused)
            (released (release_slot s) refl (release-balance max_size held s b))
    ]
  where
    released :
        (r : Option AdminSessionPoolState)
        → release_slot s ≡ r
        → Leaves max_size held r
        → OutcomeBalance max_size held (elim r [
          | none ↦ panics
          | some t ↦
              if env.elapsed round
              then fails (admin_session_checkout_timeout env.timeout) t
              else next_round t
        ])
    released none e l = l
    released (some t) e l = elim (Bool-cases (env.elapsed round)) [
      | inl late ↦ rw late l
      | inr early ↦ rw early (goes_on t l (ap length (release-idle s t e)))
    ]

checkout_from-balance :
    (fuel round max_size held : ℕ) (env : Environment) (s : AdminSessionPoolState)
    → length s.idle < fuel
    → IsBalanced max_size held s
    → OutcomeBalance max_size held (checkout_from fuel round max_size env s)
unfolding checkout_from
checkout_from-balance zero round max_size held env s h b = absurd (omega arith)
checkout_from-balance (suc fuel) round max_size held env s h b =
    elim (Acquired-cases (acquire_checkout max_size s)) [
      | inl e ↦ rw (e, checkout_from) b
      | inr (inl e) ↦ elim (Bool-cases (env.elapsed round)) [
        | inl late ↦ rw (e, checkout_from, late) b
        | inr early ↦ rw (e, checkout_from, early) b
      ]
      | inr (inr (inl (t, e))) ↦
          rw (e, checkout_from)
            (connect-balance max_size held env t (rw e at (acquire-balance max_size held s b)))
      | inr (inr (inr (c, t, e))) ↦
          rw (e, checkout_from)
            (prepare-balance max_size held env round c t
              (checkout_from fuel (round + 1) max_size env)
              (rw e at (acquire-balance max_size held s b))
              (λ u bu shorter.
                checkout_from-balance fuel (round + 1) max_size held env u
                  (omega (arith, acquire-idle-falls max_size c s t e)) bu))
    ]

-- From a pool whose total is its idle sessions and those that callers hold, within its size, a
-- checkout ends within its rounds and without a panic, whatever it meets: with a session callers
-- hold one more, and with an error or a wait as many as before.
pub checkout_ends :
    (max_size held : ℕ) (env : Environment) (s : AdminSessionPoolState)
    → IsBalanced max_size held s
    → OutcomeBalance max_size held (checkout max_size env s)
unfolding checkout
checkout_ends max_size held env s b =
    checkout_from-balance (length s.idle + 1) 0 max_size held env s (omega arith) b

-- The state in which an execution leaves the pool.
abbrev pub ExecutedBalance : {T : Type 0} → ℕ → ℕ → Executed T → Type 0
ExecutedBalance max_size held (returned r s) = IsBalanced max_size held s
ExecutedBalance max_size held (unwound s) = IsBalanced max_size held s
ExecutedBalance max_size held (waiting s) = IsBalanced max_size held s
ExecutedBalance max_size held panicked = ⊥

module _ {T : Type 0} (max_size held : ℕ) where
  give_back-balance :
      (client : ℕ) (s : AdminSessionPoolState) (d : Option (AdminSessionDisposition T))
      → IsBalanced max_size (suc held) s
      → ExecutedBalance max_size held (give_back client s d)
  unfolding give_back
  give_back-balance client s none b = ground (arith, drop-balance max_size held false client s b)
  give_back-balance client s (some (reuse value)) b =
      ground (arith, drop-balance max_size held true client s b)
  give_back-balance client s (some (evict value)) b =
      ground (arith, drop-balance max_size held false client s b)

  -- From a pool whose total is its idle sessions and those that callers hold, within its size,
  -- executing an operation never panics in the pool and leaks no slot: after the checkout's
  -- errors, its deadline included, both dispositions, a panic of the operation and a wait, callers
  -- hold as many sessions as before.
  pub execute-balance :
      (env : Environment) (operation : ℕ → Option (AdminSessionDisposition T))
      (s : AdminSessionPoolState)
      → IsBalanced max_size held s
      → ExecutedBalance max_size held (execute_with_disposition max_size env operation s)
  unfolding execute_with_disposition
  execute-balance env operation s b =
      executed (checkout max_size env s) (checkout_ends max_size held env s b)
    where
      executed :
          (o : Outcome)
          → OutcomeBalance max_size held o
          → ExecutedBalance max_size held (elim o [
            | session client t ↦ give_back client t (operation client)
            | fails e t ↦ returned (err e) t
            | blocks t ↦ waiting t
            | panics ↦ panicked
            | out_of_fuel ↦ panicked
          ])
      executed (session client t) h = give_back-balance client t (operation client) h
      executed (fails e t) h = h
      executed (blocks t) h = h
      executed panics h = h
      executed out_of_fuel h = h
