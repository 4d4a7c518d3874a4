-- ===== src/Cleanup/Completion.antt =====
-- src/cleanup.rs, `CompletionState`: which sequence numbers are complete, and the retained failures.
use postgres_test_harness.Base.{
  ℕ, zero, suc, ◌+◌, Bool, false, List, [], ◌∷◌, ◌++◌, ltb, ◌==◌, if◌then◌else◌, length, contains,
  remove, DeferredCleanupFailure, Option, none, some,
}

pub record SequencedFailure : Type 0 where
  pub sequence : ℕ
  pub failure : DeferredCleanupFailure

-- `completed_out_of_order` is the set's numbers, each once, in any order.
pub record CompletionState : Type 0 where
  pub completed_through : ℕ
  pub completed_out_of_order : List ℕ
  pub failures : List SequencedFailure
  pub failure_delivery_in_flight : Bool

unfoldable pub new_completion : CompletionState
new_completion = record {
  completed_through = 0;
  completed_out_of_order = [];
  failures = [];
  failure_delivery_in_flight = false;
}

-- `BTreeSet::insert`.
unfoldable pub insert : ℕ → List ℕ → List ℕ
insert n xs = if contains n xs then xs else n ∷ xs

-- The loop that takes the numbers which follow `completed_through` out of the set. Each round
-- removes one, so the set's size is fuel enough (`advance-gap` of Cleanup/Accounts).
unfoldable pub advance : ℕ → ℕ → List ℕ → ℕ × List ℕ
advance zero through set = (through, set)
advance (suc fuel) through set =
    let rest = advance fuel (through + 1) (remove (through + 1) set) in
    if contains (through + 1) set then rest else (through, set)

unfoldable pub push_failure :
    ℕ → Option DeferredCleanupFailure → List SequencedFailure → List SequencedFailure
push_failure sequence none fs = fs
push_failure sequence (some f) fs = fs ++ record { sequence = sequence; failure = f } ∷ []

unfoldable pub moved : ℕ × List ℕ → CompletionState → CompletionState
moved (through, set) c = record c { completed_through = through; completed_out_of_order = set }

unfoldable pub mark : ℕ → CompletionState → CompletionState
unfolding advance insert moved
mark sequence c =
    if sequence == c.completed_through + 1
    then moved (advance (length c.completed_out_of_order) sequence c.completed_out_of_order) c
    else if ltb c.completed_through sequence
    then record c { completed_out_of_order = insert sequence c.completed_out_of_order }
    else c

unfoldable pub complete : ℕ → Option DeferredCleanupFailure → CompletionState → CompletionState
unfolding mark push_failure
complete sequence failure c =
    mark sequence (record c { failures = push_failure sequence failure c.failures })

unfoldable pub record_late_failure : ℕ → DeferredCleanupFailure → CompletionState → CompletionState
unfolding push_failure
record_late_failure sequence failure c = record c {
  failures = push_failure sequence (some failure) c.failures;
}
