-- ===== src/Cleanup/Accounts.antt =====
-- src/cleanup.rs: how the completion state counts the sequence numbers.
use postgres_test_harness.Base.{
  ℕ, zero, suc, ◌+◌, ◌≤◌, ◌<◌, ◌≡◌, refl, ◌&&◌, List, [], ◌∷◌, arith, leb, if◌then◌else◌, length,
  count, remove, one_at, count-remove, length-remove, count-of-absent, absent-of-count,
  DeferredCleanupFailure, Option,
}
use postgres_test_harness.Cleanup.Completion.{
  CompletionState, insert, advance, moved, mark, complete,
}

-- Whether `n` is one of 1 to `k`, as a number.
abbrev pub upto : ℕ → ℕ → ℕ
upto n k = if leb 1 n && leb n k then 1 else 0

-- How often the state counts `n` as complete.
abbrev pub tally : ℕ → CompletionState → ℕ
tally n c = count n c.completed_out_of_order + upto n c.completed_through

pub upto-suc : (n k : ℕ) → upto n (k + 1) ≡ upto n k + one_at (k + 1) n
upto-suc n k = ground arith

advance-count :
    (fuel through : ℕ) (set : List ℕ) (n : ℕ)
    → count n (advance fuel through set).1 + upto n (advance fuel through set).0
      ≡ count n set + upto n through
unfolding advance
advance-count zero through set n = refl
advance-count (suc fuel) through set n = ground (
  arith,
  advance-count fuel (through + 1) (remove (through + 1) set) n,
  count-remove n (through + 1) set,
  upto-suc n through,
)

-- The set's size is fuel enough: the number after `completed_through` is not in the set.
advance-gap :
    (fuel through : ℕ) (set : List ℕ)
    → length set ≤ fuel
    → count ((advance fuel through set).0 + 1) (advance fuel through set).1 ≡ 0
unfolding advance
advance-gap zero through [] h = refl
advance-gap zero through (x ∷ xs) h = absurd (omega arith)
advance-gap (suc fuel) through set h = ground (
  arith,
  advance-gap fuel (through + 1) (remove (through + 1) set),
  length-remove (through + 1) set,
  count-of-absent (through + 1) set,
)

module _ (sequence : ℕ) (c : CompletionState) where
  mark-tally :
      c.completed_through < sequence
      → count sequence c.completed_out_of_order ≡ 0
      → (n : ℕ) → tally n (mark sequence c) ≡ tally n c + one_at sequence n
  unfolding mark moved insert
  mark-tally new absent n = ground (
    arith,
    advance-count (length c.completed_out_of_order) sequence c.completed_out_of_order n,
    upto-suc n c.completed_through,
    absent-of-count sequence c.completed_out_of_order absent,
  )

  mark-gap :
      c.completed_through < sequence
      → count (c.completed_through + 1) c.completed_out_of_order ≡ 0
      → count ((mark sequence c).completed_through + 1) (mark sequence c).completed_out_of_order ≡ 0
  unfolding mark moved insert
  mark-gap new gap =
      ground
        (arith, advance-gap (length c.completed_out_of_order) sequence c.completed_out_of_order)

module _ (sequence : ℕ) (failure : Option DeferredCleanupFailure) (c : CompletionState) where
  -- Completing a number that was not complete adds it to the complete ones and nothing else.
  pub complete-tally :
      c.completed_through < sequence
      → count sequence c.completed_out_of_order ≡ 0
      → (n : ℕ) → tally n (complete sequence failure c) ≡ tally n c + one_at sequence n
  unfolding complete
  complete-tally = mark-tally sequence _

  -- The number after `completed_through` stays out of the set: the prefix is as long as it can be.
  pub complete-gap :
      c.completed_through < sequence
      → count (c.completed_through + 1) c.completed_out_of_order ≡ 0
      → count
          ((complete sequence failure c).completed_through + 1)
          (complete sequence failure c).completed_out_of_order
        ≡ 0
  unfolding complete
  complete-gap = mark-gap sequence _
