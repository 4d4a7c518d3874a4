-- ===== src/Sessions/Sharing.antt =====
-- src/admin.rs: threads share the pool through its critical sections, in any order.
use postgres_test_harness.Base.{ℕ, suc, ◌+◌, ◌≤◌, ◌≡◌, ◌≢◌, Bool, arith, length, none, some, max}
use postgres_test_harness.Sessions.Pool.{
  AdminSessionPoolState, new, reused, reserved, acquire_checkout, release_slot, drop_session, close,
}
use postgres_test_harness.Sessions.Balance.{
  IsBalanced, acquire-balance, release-balance, drop-balance, close-balance,
}

-- A state of the pool, with the number of sessions and reserved slots that threads hold.
pub data Step (max_size : ℕ) (s : AdminSessionPoolState) (held : ℕ)
    : AdminSessionPoolState → ℕ → Type 0 where
  reuses :
      (client : ℕ) (t : AdminSessionPoolState)
      → acquire_checkout max_size s ≡ reused client t
      → Step max_size s held t (suc held)
  reserves :
      (t : AdminSessionPoolState)
      → acquire_checkout max_size s ≡ reserved t
      → Step max_size s held t (suc held)
  releases :
      (n : ℕ) (t : AdminSessionPoolState)
      → held ≡ suc n
      → release_slot s ≡ some t
      → Step max_size s held t n
  drops :
      (n : ℕ) (reusable : Bool) (client : ℕ) (t : AdminSessionPoolState)
      → held ≡ suc n
      → drop_session reusable client s ≡ some t
      → Step max_size s held t n
  closes : (t : AdminSessionPoolState) → close s ≡ some t → Step max_size s held t held

pub data Reach (max_size : ℕ) (s : AdminSessionPoolState) (held : ℕ)
    : AdminSessionPoolState → ℕ → Type 0 where
  here : Reach max_size s held s held
  next :
      {t u : AdminSessionPoolState} {n m : ℕ}
      → Reach max_size s held t n
      → Step max_size t n u m
      → Reach max_size s held u m

module _ {max_size : ℕ} where
  Step-IsBalanced :
      {s t : AdminSessionPoolState} {n m : ℕ}
      → Step max_size s n t m
      → IsBalanced max_size n s
      → IsBalanced max_size m t
  Step-IsBalanced {s} {n} (reuses client t h) b = rw h at (acquire-balance max_size n s b)
  Step-IsBalanced {s} {n} (reserves t h) b = rw h at (acquire-balance max_size n s b)
  Step-IsBalanced {s} (releases n t e h) b = rw h at (release-balance max_size n s (rw e at b))
  Step-IsBalanced {s} (drops n reusable client t e h) b =
      rw h at (drop-balance max_size n reusable client s (rw e at b))
  Step-IsBalanced {s} {n} (closes t h) b = rw h at (close-balance max_size n s b)

  Reach-IsBalanced :
      {s : AdminSessionPoolState} {n : ℕ} {t : AdminSessionPoolState} {m : ℕ}
      → Reach max_size s n t m
      → IsBalanced max_size n s
      → IsBalanced max_size m t
  Reach-IsBalanced here b = b
  Reach-IsBalanced (next r st) b = Step-IsBalanced st (Reach-IsBalanced r b)

new-IsBalanced : (size : ℕ) → IsBalanced (new size).max_size 0 (new size).state
unfolding new
new-IsBalanced size = ground arith

-- However threads share a pool, it never has more sessions than its size, its total is the idle
-- ones and those that threads hold, and closing it does not panic.
pub sharing_is_sound :
    (size : ℕ) {s : AdminSessionPoolState} {held : ℕ}
    → Reach (new size).max_size (new size).state 0 s held
    → (length s.idle + held ≤ max size 1) × (s.total ≡ length s.idle + held) × (close s ≢ none)
unfolding new
sharing_is_sound size {s} {held} r =
    let b = Reach-IsBalanced r (new-IsBalanced size) in
    (omega (arith, b.total, b.bounded), b.total, λ e. rw e at (close-balance (max size 1) held s b))

-- However threads share a pool, one that holds a slot or a session can give it back without a panic.
pub giving_back_is_sound :
    (size : ℕ) {s : AdminSessionPoolState} {held : ℕ}
    → Reach (new size).max_size (new size).state 0 s (suc held)
    → (reusable : Bool) (client : ℕ)
    → (release_slot s ≢ none) × (drop_session reusable client s ≢ none)
unfolding new
giving_back_is_sound size {s} {held} r reusable client =
    let b = Reach-IsBalanced r (new-IsBalanced size) in
    (
      λ e. rw e at (release-balance (max size 1) held s b),
      λ e. rw e at (drop-balance (max size 1) held reusable client s b),
    )
