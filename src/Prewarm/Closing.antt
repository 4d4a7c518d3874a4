-- ===== src/Prewarm/Closing.antt =====
-- src/harness.rs: closing a pool is final, and leaves nothing behind.
use postgres_test_harness.Base.{
  ℕ, ◌≡◌, ◌⊎◌, inl, inr, ap, true, false, arith, length, [], Option, none, some,
  prewarm_pool_closed, err,
}
use postgres_test_harness.Semaphore.{Semaphore}
use postgres_test_harness.Prewarm.State.{
  PreparedDatabase, occupied_slots, begin_cleanup, fail_and_begin_cleanup,
}
use postgres_test_harness.Prewarm.Pool.{
  PrewarmPoolInner, close_and_queue_ready, take_ready, begin_creation, begin_return,
  finish_creation, after_drop, finish_deletion, finish_close,
}
use postgres_test_harness.Prewarm.World.{
  World, start, Step, Reach, here, next, creates, reserves, gives_back, leases_out, comes_back,
  refills, retires, publishes, discards, posts, fails_creation, fails_return, closes, shuts,
  deletes,
}
use postgres_test_harness.Prewarm.Invariant.{reached-IsBalanced}

module _ {sem : Semaphore} where
  -- The pool hands out nothing any more.
  pub record IsClosedPool (p : PrewarmPoolInner sem) : Type 0 where
    pub empty : p.state.ready ≡ []
    pub refuses : p.state.accepting ≡ false
    pub no_token : sem.is_closed p.ready_admission ≡ true
    pub announced : sem.is_closed p.closed ≡ true

  -- A pool whose cleanup has begun has no idle database.
  abbrev pub IsCleaned : Option (PrewarmPoolInner sem) → Type 0
  IsCleaned none = Unit {0}
  IsCleaned (some p) = (p.state.cleanup_started ≡ false) ⊎ (p.state.ready ≡ [])

  pub close-IsClosedPool :
      (p : PrewarmPoolInner sem) → IsCleaned (some p) → IsClosedPool (close_and_queue_ready sem p).1
  unfolding close_and_queue_ready begin_cleanup finish_close
  close-IsClosedPool p (inl untouched) =
      ground (arith, sem.is_closed-close p.ready_admission, sem.is_closed-close p.closed)
  close-IsClosedPool p (inr empty) =
      ground (arith, sem.is_closed-close p.ready_admission, sem.is_closed-close p.closed)

-- Cleanup has begun, and the pool takes no more work.
abbrev pub IsClosing : {sem : Semaphore} → World sem → Type 0
IsClosing w = (w.pool.state.cleanup_started ≡ true) × (w.pool.state.accepting ≡ false)

module _ {sem : Semaphore} where
  pub Step-IsClosing : {w v : World sem} → Step sem w v → IsClosing w → IsClosing v
  unfolding begin_creation take_ready begin_return after_drop finish_creation finish_deletion
      finish_close fail_and_begin_cleanup begin_cleanup
  Step-IsClosing {w} (creates s h) c = ground arith
  Step-IsClosing {w} (reserves a h) c = c
  Step-IsClosing {w} (gives_back t h) c = c
  Step-IsClosing {w} (leases_out t d s h k) c = ground arith
  Step-IsClosing {w} (comes_back l h) c = c
  Step-IsClosing {w} (refills r s h k) c = ground arith
  Step-IsClosing {w} (retires r s h k) c = ground arith
  Step-IsClosing {w} (publishes x d s h k) c = ground arith
  Step-IsClosing {w} (discards x d e s h k) c = ground arith
  Step-IsClosing {w} (posts u h) c = c
  Step-IsClosing {w} (fails_creation x ready s h k) c = ground arith
  Step-IsClosing {w} (fails_return r ready s h k) c = ground arith
  Step-IsClosing {w} (closes ready s h) c = ground arith
  Step-IsClosing {w} (shuts h) c = c
  Step-IsClosing {w} (deletes d h) c = c

  Reach-IsClosing : {w v : World sem} → IsClosing w → Reach sem w v → IsClosing v
  Reach-IsClosing c here = c
  Reach-IsClosing c (next r s) = Step-IsClosing s (Reach-IsClosing c r)

  -- Once cleanup has begun, whatever steps follow, no slot is reserved for a creation, no database
  -- is handed out, no replacement is started, and a database that is finished late is handed back
  -- for deletion.
  pub closing_is_final :
      {w v : World sem}
      → IsClosing w
      → Reach sem w v
      → (d : PreparedDatabase)
      → (begin_creation v.pool.capacity v.pool.state ≡ (err prewarm_pool_closed, v.pool.state))
        × (take_ready v.pool.state ≡ (none, v.pool.state))
        × ((after_drop v.pool.state).0 ≡ false)
        × ((finish_creation d v.pool.state).0 ≡ some d)
  unfolding begin_creation take_ready after_drop finish_creation
  closing_is_final c r d =
      let (started, refusing) = Reach-IsClosing c r in
      (rw refusing, rw refusing, rw refusing, rw refusing)

-- When a pool, in a state that any order of steps reaches from a new one, is closing and callers
-- hold no lease and no guard, no slot is in use.
pub closed_pool_is_empty :
    (sem : Semaphore) (capacity : ℕ) {w : World sem}
    → Reach sem (start sem capacity) w
    → IsClosing w
    → w.leases ≡ 0
    → w.creations ≡ 0
    → w.returns ≡ 0
    → w.deletions ≡ 0
    → occupied_slots w.pool.state ≡ 0
closed_pool_is_empty sem capacity reached (started, refusing) l c r d =
    let b = reached-IsBalanced sem capacity reached in
    let no_ready = ap length (b.emptied started) in
    omega (arith, no_ready, b.leased, b.creating, b.deleting)
