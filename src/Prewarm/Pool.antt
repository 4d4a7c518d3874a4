-- ===== src/Prewarm/Pool.antt =====
-- src/harness.rs, `PrewarmPoolInner` and its guards.
use postgres_test_harness.Base.{
  ℕ, ◌+◌, ◌-◌, Bool, true, false, not, ◌&&◌, ◌||◌, List, [], ◌∷◌, ◌++◌, ltb, leb, ◌==◌,
  if◌then◌else◌, Option, none, some, prewarm_pool_closed, invalid_prewarm_capacity, Result, ok, err,
}
use postgres_test_harness.Semaphore.{Semaphore}
use postgres_test_harness.Prewarm.State.{
  PreparedDatabase, PrewarmPoolState, new_state, occupied_slots, PrewarmReturnPhase, begin_cleanup,
  fail_and_begin_cleanup,
}

-- The check of `DatabaseTemplate::prewarm` on the capacity asked for.
unfoldable pub check_capacity : ℕ → ℕ → Result (Unit {0})
check_capacity capacity max_capacity =
    if capacity == 0 || ltb max_capacity capacity
    then err (invalid_prewarm_capacity capacity max_capacity)
    else ok tt

unfoldable pub pop_ready :
    List PreparedDatabase → PrewarmPoolState → Option PreparedDatabase × PrewarmPoolState
pop_ready [] s = (none, s)
pop_ready (d ∷ rest) s = (some d, record s { ready = rest; leased = s.leased + 1 })

unfoldable pub take_ready : PrewarmPoolState → Option PreparedDatabase × PrewarmPoolState
unfolding pop_ready
take_ready s = if not s.accepting then (none, s) else pop_ready s.ready s

-- The slot that `PrewarmCreation` guards.
unfoldable pub begin_creation : ℕ → PrewarmPoolState → Result (Unit {0}) × PrewarmPoolState
begin_creation capacity s =
    if not s.accepting
    then (err prewarm_pool_closed, s)
    else if leb capacity (occupied_slots s)
    then (err prewarm_pool_closed, s)
    else (ok tt, record s { creating = s.creating + 1 })

-- The slot that `PrewarmReturn` guards.
unfoldable pub begin_return : PrewarmPoolState → PrewarmPoolState
begin_return s = record s { leased = s.leased - 1; deleting = s.deleting + 1 }

-- `none` when the database is in the queue, and the database, with a `ClosedPrewarmDeletion`
-- guard, when the pool has closed. `add_permits` follows outside the mutex.
unfoldable pub finish_creation :
    PreparedDatabase → PrewarmPoolState → Option PreparedDatabase × PrewarmPoolState
finish_creation d s =
    if s.accepting && not s.cleanup_started
    then (none, record s { creating = s.creating - 1; ready = s.ready ++ d ∷ [] })
    else (some d, record s { creating = s.creating - 1; deleting = s.deleting + 1 })

-- `PrewarmReturn::after_drop`: whether a replacement is to be created.
unfoldable pub after_drop : PrewarmPoolState → Bool × PrewarmPoolState
after_drop s =
    if s.accepting && not s.cleanup_started
    then (true, record s { deleting = s.deleting - 1; creating = s.creating + 1 })
    else (false, record s { deleting = s.deleting - 1 })

-- `ClosedPrewarmDeletion`, finished or dropped.
unfoldable pub finish_deletion : PrewarmPoolState → PrewarmPoolState
finish_deletion s = record s { deleting = s.deleting - 1 }

module _ (sem : Semaphore) where
  pub record PrewarmPoolInner : Type 0 where
    pub capacity : ℕ
    pub ready_admission : sem.State
    pub closed : sem.State
    pub state : PrewarmPoolState

module _ (sem : Semaphore) where
  unfoldable pub new : ℕ → PrewarmPoolInner sem
  unfolding new_state
  new capacity = record {
    capacity = capacity;
    ready_admission = sem.new 0;
    closed = sem.new 0;
    state = new_state;
  }

  -- The semaphores that `finish_close` closes before it queues the idle databases.
  unfoldable pub finish_close : PrewarmPoolInner sem → PrewarmPoolInner sem
  finish_close p = record p {
    ready_admission = sem.close p.ready_admission;
    closed = sem.close p.closed;
  }

  -- The idle databases that are to be queued for deletion, and the pool.
  unfoldable pub close_and_queue_ready :
      PrewarmPoolInner sem → Option (List PreparedDatabase) × PrewarmPoolInner sem
  unfolding begin_cleanup finish_close
  close_and_queue_ready p =
      let (ready, s) = begin_cleanup p.state in (ready, finish_close (record p { state = s }))

  unfoldable pub fail_phase :
      PrewarmReturnPhase
      → PrewarmPoolInner sem
      → Option (List PreparedDatabase) × PrewarmPoolInner sem
  unfolding fail_and_begin_cleanup finish_close
  fail_phase phase p =
      let (ready, s) = fail_and_begin_cleanup phase p.state in
      (ready, finish_close (record p { state = s }))
