-- ===== src/Prewarm/State.antt =====
-- src/harness.rs, `PrewarmPoolState`: the counters of the queue, under its mutex.
use postgres_test_harness.Base.{
  ℕ, ◌+◌, ◌-◌, Bool, true, false, List, [], if◌then◌else◌, length, Text, Option, none, some,
}
use postgres_test_harness.Name.{DatabaseName}

pub record PreparedDatabase : Type 0 where
  pub name : DatabaseName
  pub database_url : Text

-- The head of `ready` is the front of the deque.
pub record PrewarmPoolState : Type 0 where
  pub ready : List PreparedDatabase
  pub leased : ℕ
  pub creating : ℕ
  pub deleting : ℕ
  pub accepting : Bool
  pub cleanup_started : Bool

unfoldable pub new_state : PrewarmPoolState
new_state = record {
  ready = [];
  leased = 0;
  creating = 0;
  deleting = 0;
  accepting = true;
  cleanup_started = false;
}

abbrev pub occupied_slots : PrewarmPoolState → ℕ
occupied_slots s = length s.ready + s.leased + s.creating + s.deleting

pub data PrewarmReturnPhase : Type 0 where
  deleting_phase creating_phase complete_phase : PrewarmReturnPhase

-- `saturating_sub` is subtraction that stops at 0.
unfoldable pub begin_cleanup : PrewarmPoolState → Option (List PreparedDatabase) × PrewarmPoolState
begin_cleanup s = if s.cleanup_started then (none, record s { accepting = false }) else (
  some s.ready,
  record s {
    ready = [];
    deleting = s.deleting + length s.ready;
    accepting = false;
    cleanup_started = true;
  },
)

unfoldable pub fail_and_begin_cleanup :
    PrewarmReturnPhase → PrewarmPoolState → Option (List PreparedDatabase) × PrewarmPoolState
unfolding begin_cleanup
fail_and_begin_cleanup deleting_phase s = begin_cleanup (record s { deleting = s.deleting - 1 })
fail_and_begin_cleanup creating_phase s = begin_cleanup (record s { creating = s.creating - 1 })
fail_and_begin_cleanup complete_phase s = (none, s)
