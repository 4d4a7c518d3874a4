-- ===== src/Tests/Pools.antt =====
-- The prewarmed databases and the administration sessions: the theorems of src/harness.rs and
-- src/admin.rs on pools, at concrete inputs.
use postgres_test_harness.Base.{
  Option, ℕ, ◌+◌, ◌≤◌, ◌≡◌, ◌≢◌, refl, true, false, [], ◌∷◌, arith, length, text, none,
  prewarm_pool_closed, err,
}
use postgres_test_harness.Semaphore.{counting}
use postgres_test_harness.Name.{test_kind}
use postgres_test_harness.Prewarm.State.{
  PreparedDatabase, PrewarmPoolState, new_state, occupied_slots,
}
use postgres_test_harness.Prewarm.Pool.{new, begin_creation, finish_creation}
use postgres_test_harness.Prewarm.World.{
  World, start, with_state, Reach, here, next, creates, publishes, posts,
}
use postgres_test_harness.Prewarm.Invariant.{slots_are_accounted}
use postgres_test_harness.Sessions.Pool.{
  AdminSessionPoolState, acquire_checkout, release_slot, drop_session, close,
}
use postgres_test_harness.Sessions.Pool
use postgres_test_harness.Sessions.Checkout.{
  Environment, checkout, AdminSessionDisposition, execute_with_disposition,
}
use postgres_test_harness.Sessions.Balance.{
  OutcomeBalance, ExecutedBalance, IsBalanced, checkout_ends, execute-balance,
}
use postgres_test_harness.Sessions.Sharing
use postgres_test_harness.Sessions.Sharing.{sharing_is_sound, giving_back_is_sound}

abbrev prepared : PreparedDatabase
prepared = record {
  name = record { value = text "pgh_credit_test_1"; kind = test_kind };
  database_url = text "postgres://localhost/pgh_credit_test_1";
}

abbrev one_creating : PrewarmPoolState
one_creating = record new_state { creating = 1 }

abbrev one_ready : PrewarmPoolState
one_ready = record new_state { ready = prepared ∷ [] }

abbrev one_deleting : PrewarmPoolState
one_deleting = record new_state { deleting = 1; accepting = false; cleanup_started = true }

abbrev made : World counting
made = with_state counting one_ready (start counting 2)

abbrev posted : World counting
posted = record made {
  pool = record (made.pool) { ready_admission = record { permits = 1; shut = false } };
}

-- A database is created, put in the queue and posted.
one_posted : Reach counting (start counting 2) posted
unfolding start new new_state begin_creation finish_creation
one_posted =
    next (next (next here (creates one_creating refl)) (publishes 0 prepared one_ready refl refl))
      (posts 0 refl)

abbrev no_slot : PrewarmPoolState
no_slot = record one_deleting { deleting = 0 }

abbrev closed : World counting
closed = record (with_state counting no_slot posted) { deletions = 0 }

slots_are_accounted_example :
    (occupied_slots posted.pool.state ≤ 2)
    × (posted.pool.state.leased ≡ posted.leases)
    × (posted.pool.state.creating ≡ posted.creations)
    × (posted.pool.state.deleting ≡ posted.returns + posted.deletions)
slots_are_accounted_example = slots_are_accounted counting 2 one_posted

-- One session is checked out of a pool of two, and given back.
abbrev one_out : AdminSessionPoolState
one_out = record { idle = []; total = 1; closed = false }

one_checked_out : Sharing.Reach (Pool.new 2).max_size (Pool.new 2).state 0 one_out 1
unfolding Pool.new acquire_checkout
one_checked_out = Sharing.next Sharing.here (Sharing.reserves one_out refl)

sharing_is_sound_example :
    (length one_out.idle + 1 ≤ 2)
    × (one_out.total ≡ length one_out.idle + 1)
    × (close one_out ≢ none)
sharing_is_sound_example = sharing_is_sound 2 one_checked_out

-- An idle session is stale, and the connection that replaces it fails.
abbrev one_idle : AdminSessionPoolState
one_idle = record { idle = 9 ∷ []; total = 1; closed = false }

one_idle-IsBalanced : IsBalanced 2 0 one_idle
one_idle-IsBalanced = ground arith

abbrev failing : Environment
failing = record {
  prepares = λ round. false;
  elapsed = λ round. false;
  connected = err prewarm_pool_closed;
  timeout = 90;
}

checkout_ends_example : OutcomeBalance 2 0 (checkout 2 failing one_idle)
checkout_ends_example = checkout_ends 2 0 failing one_idle one_idle-IsBalanced

abbrev panicking : ℕ → Option (AdminSessionDisposition ℕ)
panicking client = none

execute-balance_example :
    ExecutedBalance 2 0 (execute_with_disposition 2 failing panicking one_idle)
execute-balance_example = execute-balance 2 0 failing panicking one_idle one_idle-IsBalanced
