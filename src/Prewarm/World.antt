-- ===== src/Prewarm/World.antt =====
-- src/harness.rs: a pool with what its callers hold, and every step that they may take, in any
-- order. A guard that is dropped fails its phase, as `Drop` does.
use postgres_test_harness.Base.{ℕ, suc, ◌+◌, ◌≡◌, true, false, List, length, Option, none, some, ok}
use postgres_test_harness.Semaphore.{Semaphore, granted}
use postgres_test_harness.Prewarm.State.{
  PreparedDatabase, PrewarmPoolState, begin_cleanup, fail_and_begin_cleanup, deleting_phase,
  creating_phase,
}
use postgres_test_harness.Prewarm.Pool.{
  PrewarmPoolInner, new, take_ready, begin_creation, begin_return, finish_creation, after_drop,
  finish_deletion, finish_close,
}

module _ (sem : Semaphore) where
  pub record World : Type 0 where
    pub pool : PrewarmPoolInner sem
    pub leases : ℕ  -- published `DatabaseLease`s
    pub creations : ℕ  -- `PrewarmCreation`, and `PrewarmReturn` in its creating phase
    pub returns : ℕ  -- `PrewarmReturn` in its deleting phase
    pub deletions : ℕ  -- `ClosedPrewarmDeletion`
    pub tokens : ℕ  -- ready permits that callers of `database` have reserved
    pub unposted : ℕ  -- databases put in the queue whose permit is not yet added

module _ (sem : Semaphore) where
  abbrev pub with_state : PrewarmPoolState → World sem → World sem
  with_state s w = record w { pool = record (w.pool) { state = s } }

  abbrev pub with_ready : sem.State → World sem → World sem
  with_ready a w = record w { pool = record (w.pool) { ready_admission = a } }

  abbrev pub queued : Option (List PreparedDatabase) → ℕ
  queued none = 0
  queued (some ds) = length ds

  unfoldable pub start : ℕ → World sem
  unfolding new
  start capacity = record {
    pool = new sem capacity;
    leases = 0;
    creations = 0;
    returns = 0;
    deletions = 0;
    tokens = 0;
    unposted = 0;
  }

  pub data Step (w : World sem) : World sem → Type 0 where
    creates :
        (s : PrewarmPoolState)
        → begin_creation w.pool.capacity w.pool.state ≡ (ok tt, s)
        → Step w (record (with_state s w) { creations = w.creations + 1 })
    reserves :
        (a : sem.State)
        → sem.acquire_many 1 w.pool.ready_admission ≡ granted a
        → Step w (record (with_ready a w) { tokens = w.tokens + 1 })
    gives_back :
        (t : ℕ)
        → w.tokens ≡ suc t
        → Step w (record (with_ready (sem.add_permits 1 w.pool.ready_admission) w) { tokens = t })
    leases_out :
        (t : ℕ) (d : PreparedDatabase) (s : PrewarmPoolState)
        → w.tokens ≡ suc t
        → take_ready w.pool.state ≡ (some d, s)
        → Step w (record (with_state s w) { tokens = t; leases = w.leases + 1 })
    comes_back :
        (l : ℕ)
        → w.leases ≡ suc l
        → Step w (record (with_state (begin_return w.pool.state) w) {
          leases = l;
          returns = w.returns + 1;
        })
    refills :
        (r : ℕ) (s : PrewarmPoolState)
        → w.returns ≡ suc r
        → after_drop w.pool.state ≡ (true, s)
        → Step w (record (with_state s w) { returns = r; creations = w.creations + 1 })
    retires :
        (r : ℕ) (s : PrewarmPoolState)
        → w.returns ≡ suc r
        → after_drop w.pool.state ≡ (false, s)
        → Step w (record (with_state s w) { returns = r })
    publishes :
        (c : ℕ) (d : PreparedDatabase) (s : PrewarmPoolState)
        → w.creations ≡ suc c
        → finish_creation d w.pool.state ≡ (none, s)
        → Step w (record (with_state s w) { creations = c; unposted = w.unposted + 1 })
    discards :
        (c : ℕ) (d e : PreparedDatabase) (s : PrewarmPoolState)
        → w.creations ≡ suc c
        → finish_creation d w.pool.state ≡ (some e, s)
        → Step w (record (with_state s w) { creations = c; deletions = w.deletions + 1 })
    posts :
        (u : ℕ)
        → w.unposted ≡ suc u
        → Step w (record (with_ready (sem.add_permits 1 w.pool.ready_admission) w) { unposted = u })
    fails_creation :
        (c : ℕ) (ready : Option (List PreparedDatabase)) (s : PrewarmPoolState)
        → w.creations ≡ suc c
        → fail_and_begin_cleanup creating_phase w.pool.state ≡ (ready, s)
        → Step w (record (with_state s w) { creations = c; deletions = w.deletions + queued ready })
    fails_return :
        (r : ℕ) (ready : Option (List PreparedDatabase)) (s : PrewarmPoolState)
        → w.returns ≡ suc r
        → fail_and_begin_cleanup deleting_phase w.pool.state ≡ (ready, s)
        → Step w (record (with_state s w) { returns = r; deletions = w.deletions + queued ready })
    closes :
        (ready : Option (List PreparedDatabase)) (s : PrewarmPoolState)
        → begin_cleanup w.pool.state ≡ (ready, s)
        → Step w (record (with_state s w) { deletions = w.deletions + queued ready })
    shuts : w.pool.state.accepting ≡ false → Step w (record w { pool = finish_close sem w.pool })
    deletes :
        (d : ℕ)
        → w.deletions ≡ suc d
        → Step w (record (with_state (finish_deletion w.pool.state) w) { deletions = d })

  pub data Reach (w : World sem) : World sem → Type 0 where
    here : Reach w w
    next : {u v : World sem} → Reach w u → Step u v → Reach w v
