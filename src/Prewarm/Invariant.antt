-- ===== src/Prewarm/Invariant.antt =====
-- src/harness.rs: the counters agree with what callers hold, whatever the order of their steps.
use postgres_test_harness.Base.{
  ℕ, ◌+◌, ◌≤◌, ◌<◌, ◌≡◌, refl, ◌∙◌, true, not, List, [], ◌∷◌, arith, length, length-append, some,
}
use postgres_test_harness.Semaphore.{Semaphore}
use postgres_test_harness.Prewarm.State.{
  PreparedDatabase, PrewarmPoolState, new_state, occupied_slots, begin_cleanup,
  fail_and_begin_cleanup,
}
use postgres_test_harness.Prewarm.Pool.{
  new, take_ready, begin_creation, begin_return, finish_creation, after_drop, finish_deletion,
  finish_close,
}
use postgres_test_harness.Prewarm.World.{
  World, start, Step, Reach, here, next, creates, reserves, gives_back, leases_out, comes_back,
  refills, retires, publishes, discards, posts, fails_creation, fails_return, closes, shuts,
  deletes,
}

module _ {sem : Semaphore} where
  pub record IsBalanced (w : World sem) : Type 0 where
    pub leased : w.pool.state.leased ≡ w.leases
    pub creating : w.pool.state.creating ≡ w.creations
    pub deleting : w.pool.state.deleting ≡ w.returns + w.deletions
    pub bounded : occupied_slots w.pool.state ≤ w.pool.capacity
    pub open_or_closed : w.pool.state.accepting ≡ not w.pool.state.cleanup_started
    pub emptied : w.pool.state.cleanup_started ≡ true → w.pool.state.ready ≡ []
    pub posted :
        w.pool.state.accepting ≡ true
        → sem.available_permits w.pool.ready_admission + w.tokens + w.unposted
          ≡ length w.pool.state.ready

module _ {sem : Semaphore} where
  -- Every step keeps the counters equal to the guards that callers hold and the slots in use
  -- within the capacity.
  pub Step-IsBalanced : {w v : World sem} → Step sem w v → IsBalanced w → IsBalanced v
  unfolding begin_creation take_ready begin_return after_drop finish_creation finish_deletion
      finish_close fail_and_begin_cleanup begin_cleanup
  Step-IsBalanced {w} (creates s h) b = ground arith
  Step-IsBalanced {w} (reserves a h) b =
      ground (arith, sem.available-acquire 1 w.pool.ready_admission a h)
  Step-IsBalanced {w} (gives_back t h) b =
      ground (arith, sem.available-add 1 w.pool.ready_admission)
  Step-IsBalanced {w} (leases_out t d s h k) b = ground arith
  Step-IsBalanced {w} (comes_back l h) b = ground arith
  Step-IsBalanced {w} (refills r s h k) b = ground arith
  Step-IsBalanced {w} (retires r s h k) b = ground arith
  Step-IsBalanced {w} (publishes c d s h k) b =
      ground (arith, length-append w.pool.state.ready (d ∷ []))
  Step-IsBalanced {w} (discards c d e s h k) b = ground arith
  Step-IsBalanced {w} (posts u h) b = ground (arith, sem.available-add 1 w.pool.ready_admission)
  Step-IsBalanced {w} (fails_creation c ready s h k) b = ground arith
  Step-IsBalanced {w} (fails_return r ready s h k) b = ground arith
  Step-IsBalanced {w} (closes ready s h) b = ground arith
  Step-IsBalanced {w} (shuts h) b = ground arith
  Step-IsBalanced {w} (deletes d h) b = ground arith

  start-IsBalanced : (capacity : ℕ) → IsBalanced (start sem capacity)
  unfolding start new new_state
  start-IsBalanced capacity = ground (arith, sem.available-new 0)

  Reach-IsBalanced : {w v : World sem} → IsBalanced w → Reach sem w v → IsBalanced v
  Reach-IsBalanced b here = b
  Reach-IsBalanced b (next r s) = Step-IsBalanced s (Reach-IsBalanced b r)

  Step-capacity : {w v : World sem} → Step sem w v → v.pool.capacity ≡ w.pool.capacity
  unfolding finish_close
  Step-capacity (creates s h) = refl
  Step-capacity (reserves a h) = refl
  Step-capacity (gives_back t h) = refl
  Step-capacity (leases_out t d s h k) = refl
  Step-capacity (comes_back l h) = refl
  Step-capacity (refills r s h k) = refl
  Step-capacity (retires r s h k) = refl
  Step-capacity (publishes c d s h k) = refl
  Step-capacity (discards c d e s h k) = refl
  Step-capacity (posts u h) = refl
  Step-capacity (fails_creation c ready s h k) = refl
  Step-capacity (fails_return r ready s h k) = refl
  Step-capacity (closes ready s h) = refl
  Step-capacity (shuts h) = refl
  Step-capacity (deletes d h) = refl

  Reach-capacity : {w v : World sem} → Reach sem w v → v.pool.capacity ≡ w.pool.capacity
  Reach-capacity here = refl
  Reach-capacity (next r s) = Step-capacity s ∙ Reach-capacity r

pop_some :
    (ready : List PreparedDatabase) (s : PrewarmPoolState)
    → s.accepting ≡ true
    → s.ready ≡ ready
    → 0 < length ready
    → (d : PreparedDatabase) × (t : PrewarmPoolState) × (take_ready s ≡ (some d, t))
unfolding take_ready
pop_some [] s a e h = absurd (omega arith)
pop_some (d ∷ rest) s a e h = (d, record s { ready = rest; leased = s.leased + 1 }, ground arith)

module _ (sem : Semaphore) (capacity : ℕ) {w : World sem}
    (reached : Reach sem (start sem capacity) w) where
  pub reached-IsBalanced : IsBalanced w
  reached-IsBalanced = Reach-IsBalanced (start-IsBalanced capacity) reached

  -- In every state that any order of steps reaches from a new pool, the slots in use are within
  -- the capacity that the pool was made with, and each counter is the number of guards that
  -- callers hold.
  pub slots_are_accounted :
      (occupied_slots w.pool.state ≤ capacity)
      × (w.pool.state.leased ≡ w.leases)
      × (w.pool.state.creating ≡ w.creations)
      × (w.pool.state.deleting ≡ w.returns + w.deletions)
  unfolding start new
  slots_are_accounted =
      let b = reached-IsBalanced in
      (omega (arith, b.bounded, Reach-capacity reached), b.leased, b.creating, b.deleting)

  -- In every state that a pool and its callers reach from a new pool, while the pool accepts and
  -- some caller has reserved a ready permit, taking a ready database finds one.
  pub reserved_finds_ready :
      w.pool.state.accepting ≡ true
      → 0 < w.tokens
      → (d : PreparedDatabase) × (s : PrewarmPoolState) × (take_ready w.pool.state ≡ (some d, s))
  unfolding take_ready
  reserved_finds_ready open_pool token =
      let b = reached-IsBalanced in
      let some_ready = b.posted open_pool in
      pop_some w.pool.state.ready w.pool.state open_pool refl (omega (arith, some_ready))
