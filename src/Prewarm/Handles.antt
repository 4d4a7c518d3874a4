-- ===== src/Prewarm/Handles.antt =====
-- src/harness.rs: the public handles of a pool (`Clone` and `Drop` of `PrewarmedDatabasePool`).
use postgres_test_harness.Base.{
  ℕ, suc, ◌+◌, ◌-◌, ◌≡◌, ◌≢◌, refl, sym, ap, Bool-cases, inl, inr, subst, arith, ◌==◌,
  if◌then◌else◌, true, false, List, Option, none,
}
use postgres_test_harness.Semaphore.{Semaphore}
use postgres_test_harness.Prewarm.State.{PreparedDatabase, begin_cleanup}
use postgres_test_harness.Prewarm.Pool.{PrewarmPoolInner, close_and_queue_ready, finish_close}
use postgres_test_harness.Lease.{idle_of}
use postgres_test_harness.Prewarm.World.{World, with_state, queued, start}
use postgres_test_harness.Prewarm.World
use postgres_test_harness.Prewarm.Invariant.{IsBalanced, reached-IsBalanced}
use postgres_test_harness.Prewarm.Closing.{
  IsClosing, Step-IsClosing, IsClosedPool, close-IsClosedPool,
}

-- `fetch_add` on `public_handles`.
unfoldable pub clone_handle : ℕ → ℕ
clone_handle public_handles = public_handles + 1

module _ (sem : Semaphore) where
  -- `fetch_sub`, which returns the count before it: the count after it, what is to be queued for
  -- deletion, and the pool.
  unfoldable pub drop_handle :
      ℕ → PrewarmPoolInner sem → ℕ × (Option (List PreparedDatabase) × PrewarmPoolInner sem)
  unfolding close_and_queue_ready
  drop_handle public_handles p =
      (public_handles - 1, if public_handles == 1 then close_and_queue_ready sem p else (none, p))

  -- The count, the handles that callers have, and the pool with what else they hold.
  pub record Shared : Type 0 where
    pub public_handles : ℕ
    pub held : ℕ
    pub world : World sem

module _ (sem : Semaphore) where
  abbrev pub with_pool :
      Option (List PreparedDatabase) × PrewarmPoolInner sem → World sem → World sem
  with_pool (ready, p) w = record w { pool = p; deletions = w.deletions + queued sem ready }

  -- Any holder of a handle may clone it, drop it, or shut the pool down; everything else that
  -- happens to the pool is a step of Prewarm/World.
  pub data Step (s : Shared sem) : Shared sem → Type 0 where
    clones :
        (h : ℕ)
        → s.held ≡ suc h
        → Step s (record s { public_handles = clone_handle s.public_handles; held = s.held + 1 })
    drops :
        (h : ℕ)
        → s.held ≡ suc h
        → Step s (record {
          public_handles = (drop_handle sem s.public_handles s.world.pool).0;
          held = h;
          world = with_pool (drop_handle sem s.public_handles s.world.pool).1 s.world;
        })
    shuts_down :
        (h : ℕ)
        → s.held ≡ suc h
        → Step s (record s { world = with_pool (close_and_queue_ready sem s.world.pool) s.world })
    works : (v : World sem) → World.Step sem s.world v → Step s (record s { world = v })

  pub data Reach (s : Shared sem) : Shared sem → Type 0 where
    here : Reach s s
    next : {t u : Shared sem} → Reach s t → Step t u → Reach s u

  -- `PrewarmedDatabasePool::new`.
  unfoldable pub first_handle : ℕ → Shared sem
  unfolding start
  first_handle capacity = record { public_handles = 1; held = 1; world = start sem capacity }

module _ {sem : Semaphore} where
  World-append :
      {u v w : World sem} → World.Reach sem u v → World.Reach sem v w → World.Reach sem u w
  World-append r World.here = r
  World-append r (World.next q t) = World.next (World-append r q) t

  close-World :
      (w : World sem) → World.Reach sem w (with_pool sem (close_and_queue_ready sem w.pool) w)
  unfolding close_and_queue_ready begin_cleanup
  close-World w =
      World.next (World.next World.here (World.closes _ _ refl)) (World.shuts (ground arith))

  drop-World :
      (n : ℕ) (w : World sem) → World.Reach sem w (with_pool sem (drop_handle sem n w.pool).1 w)
  unfolding drop_handle
  drop-World n w = elim (Bool-cases (n == 1)) [
    | inl last ↦ rw (last) (close-World w)
    | inr more ↦
        rw (more) (
          subst (World.Reach sem w) (ap (λ d. record w { deletions = d }) (omega arith)) World.here)
  ]

  -- A step of the handles is made of steps of the pool.
  Step-World : {s t : Shared sem} → Step sem s t → World.Reach sem s.world t.world
  Step-World (clones h e) = World.here
  Step-World {s} (drops h e) = drop-World s.public_handles s.world
  Step-World {s} (shuts_down h e) = close-World s.world
  Step-World (works v t) = World.next World.here t

  Reach-World : {s t : Shared sem} → Reach sem s t → World.Reach sem s.world t.world
  Reach-World here = World.here
  Reach-World (next r t) = World-append (Reach-World r) (Step-World t)

  -- The count is that of the handles, and without a handle the pool is closing.
  pub record IsShared (s : Shared sem) : Type 0 where
    pub agrees : s.public_handles ≡ s.held
    pub unheld : s.held ≡ 0 → IsClosing s.world

  close-IsClosing : (w : World sem) → IsClosing (with_pool sem (close_and_queue_ready sem w.pool) w)
  unfolding close_and_queue_ready begin_cleanup finish_close
  close-IsClosing w = ground arith

  last-IsClosing :
      (n : ℕ) (w : World sem) → n ≡ 1 → IsClosing (with_pool sem (drop_handle sem n w.pool).1 w)
  unfolding drop_handle
  last-IsClosing n w e = let last : (n == 1) ≡ true = ground arith in rw (last) (close-IsClosing w)

  Step-IsShared : {s t : Shared sem} → Step sem s t → IsShared s → IsShared t
  unfolding clone_handle drop_handle
  Step-IsShared {s} (clones h e) i = record {
    agrees = omega (arith, i.agrees);
    unheld = λ z. absurd (omega (arith, z));
  }
  Step-IsShared {s} (drops h e) i = record {
    agrees = omega (arith, i.agrees);
    unheld = λ z. last-IsClosing s.public_handles s.world (omega (arith, i.agrees));
  }
  Step-IsShared {s} (shuts_down h e) i = record {
    agrees = i.agrees;
    unheld = λ z. close-IsClosing s.world;
  }
  Step-IsShared {s} (works v t) i = record {
    agrees = i.agrees;
    unheld = λ z. Step-IsClosing t (i.unheld z);
  }

  Reach-IsShared : {s t : Shared sem} → IsShared s → Reach sem s t → IsShared t
  Reach-IsShared i here = i
  Reach-IsShared i (next r t) = Step-IsShared t (Reach-IsShared i r)

module _ {sem : Semaphore} where
  closed_last :
      (w : World sem)
      → IsBalanced w
      → (idle_of sem (close_and_queue_ready sem w.pool).0 ≡ w.pool.state.ready)
        × IsClosedPool (close_and_queue_ready sem w.pool).1
  unfolding close_and_queue_ready begin_cleanup
  closed_last w b = elim (Bool-cases w.pool.state.cleanup_started) [
    | inl begun ↦
        (rw (begun) (sym (b.emptied begun)), close-IsClosedPool w.pool (inr (b.emptied begun)))
    | inr fresh ↦ (rw (fresh) refl, close-IsClosedPool w.pool (inl fresh))
  ]

module _ (sem : Semaphore) (capacity : ℕ) {s : Shared sem}
    (reached : Reach sem (first_handle sem capacity) s) where
  shared_lem : IsShared s × IsBalanced s.world
  unfolding first_handle
  shared_lem = (
    Reach-IsShared (record { agrees = refl; unheld = λ z. absurd (omega (arith, z)) }) reached,
    reached-IsBalanced sem capacity (Reach-World reached),
  )

  -- However a pool's handles are cloned and dropped, and whatever else happens to the pool
  -- meanwhile: dropping a handle while a caller has another one leaves the pool as it is and
  -- hands nothing over for deletion. Dropping the last one closes the pool, and hands over exactly
  -- the databases that were idle in it, to be submitted for deletion: none is left in the pool,
  -- which refuses work and whose semaphores are closed.
  pub last_handle_closes :
      (h : ℕ)
      → s.held ≡ suc h
      → let (n, (ready, p)) = drop_handle sem s.public_handles s.world.pool in
        (n ≡ h)
        × (h ≢ 0 → (ready ≡ none) × (p ≡ s.world.pool))
        × (h ≡ 0 → (idle_of sem ready ≡ s.world.pool.state.ready) × IsClosedPool p)
  unfolding drop_handle
  last_handle_closes h e =
      let (i, b) = shared_lem in
      (
        omega (arith, i.agrees),
        λ more.
            let other : (s.public_handles == 1) ≡ false = ground (arith, i.agrees) in
            rw (other) (refl, refl),
        λ last.
            let only : (s.public_handles == 1) ≡ true = ground (arith, i.agrees) in
            rw (only) (closed_last s.world b),
      )

  -- A pool whose handles are all gone is closing.
  pub abandoned_pool_closes : s.held ≡ 0 → IsClosing s.world
  abandoned_pool_closes e = shared_lem.0.unheld e
