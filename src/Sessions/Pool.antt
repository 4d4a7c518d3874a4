-- ===== src/Sessions/Pool.antt =====
-- src/admin.rs: the pool's critical sections. `none` is a panic of an `expect`.
use postgres_test_harness.Base.{
  ℕ, ◌+◌, ◌-◌, Bool, true, false, not, ◌&&◌, List, [], ◌∷◌, ltb, if◌then◌else◌, length, Option,
  none, some, max,
}

-- The head of `idle` is the end of the vector.
pub record AdminSessionPoolState : Type 0 where
  pub idle : List ℕ
  pub total : ℕ
  pub closed : Bool

pub record AdminSessionPool : Type 0 where
  pub max_size : ℕ
  pub state : AdminSessionPoolState

unfoldable pub new : ℕ → AdminSessionPool
new max_size = record {
  max_size = max max_size 1;
  state = record { idle = []; total = 0; closed = false };
}

-- `checked_sub`.
abbrev pub checked_sub : ℕ → ℕ → Option ℕ
checked_sub a b = if ltb a b then none else some (a - b)

abbrev pub with_total : AdminSessionPoolState → Option ℕ → Option AdminSessionPoolState
with_total s none = none
with_total s (some n) = some (record s { total = n })

-- One round of the loop of `acquire_checkout`: the pool is closed, an idle client, a slot
-- reserved for a new one, or a full pool, on which Sessions/Checkout tests the deadline and waits.
pub data Acquired : Type 0 where
  shut : Acquired
  reused : ℕ → AdminSessionPoolState → Acquired
  reserved : AdminSessionPoolState → Acquired
  full : Acquired

unfoldable pub acquire_idle : List ℕ → ℕ → AdminSessionPoolState → Acquired
acquire_idle (client ∷ rest) max_size s = reused client (record s { idle = rest })
acquire_idle [] max_size s =
    if ltb s.total max_size then reserved (record s { total = s.total + 1 }) else full

unfoldable pub acquire_checkout : ℕ → AdminSessionPoolState → Acquired
unfolding acquire_idle
acquire_checkout max_size s = if s.closed then shut else acquire_idle s.idle max_size s

unfoldable pub release_slot : AdminSessionPoolState → Option AdminSessionPoolState
release_slot s = with_total s (checked_sub s.total 1)

-- `Drop` of a checked-out session.
unfoldable pub drop_session : Bool → ℕ → AdminSessionPoolState → Option AdminSessionPoolState
drop_session reusable client s =
    if reusable && not s.closed
    then some (record s { idle = client ∷ s.idle })
    else with_total s (checked_sub s.total 1)

abbrev pub without_idle : Option AdminSessionPoolState → Option AdminSessionPoolState
without_idle none = none
without_idle (some s) = some (record s { idle = []; closed = true })

unfoldable pub close : AdminSessionPoolState → Option AdminSessionPoolState
close s = without_idle (with_total s (checked_sub s.total (length s.idle)))
