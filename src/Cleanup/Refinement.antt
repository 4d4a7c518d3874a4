-- ===== src/Cleanup/Refinement.antt =====
-- src/cleanup.rs: the completion state refines the plain record of which jobs have completed. That
-- record is a list of their sequence numbers, the last one first.
use postgres_test_harness.Base.{
  ℕ, ◌+◌, ◌≤◌, ◌<◌, ◌≡◌, ◌↔◌, refl, sym, ◌∙◌, List, [], ◌∷◌, arith, leb, Bool-cases, inl, inr,
  count, one_at, none,
}
use postgres_test_harness.Cleanup.Completion.{CompletionState, new_completion, complete}
use postgres_test_harness.Cleanup.Accounts.{tally, complete-tally, complete-gap}

-- Completed jobs as the state sees them; a failure does not touch the numbers.
unfoldable pub completions : List ℕ → CompletionState
unfolding new_completion complete
completions [] = new_completion
completions (n ∷ ns) = complete n none (completions ns)

-- Jobs are numbered from 1, and each completes once.
abbrev pub Distinct : List ℕ → Type 0
Distinct [] = Unit
Distinct (n ∷ ns) = (1 ≤ n) × (count n ns ≡ 0) × Distinct ns

abbrev Represents : List ℕ → CompletionState → Type 0
Represents ns c =
    ((n : ℕ) → tally n c ≡ count n ns)
    × (count (c.completed_through + 1) c.completed_out_of_order ≡ 0)

completions-Represents : (ns : List ℕ) → Distinct ns → Represents ns (completions ns)
unfolding completions new_completion
completions-Represents [] d = (λ n. ground arith, refl)
completions-Represents (n ∷ ns) (positive, new, rest) =
    let (counts, gap) = completions-Represents ns rest in
    let at : tally n (completions ns) ≡ 0 = counts n ∙ new in
    let fresh : (completions ns).completed_through < n = ground arith in
    let absent : count n (completions ns).completed_out_of_order ≡ 0 = omega (arith, at) in
    (
      λ m. complete-tally n none (completions ns) fresh absent m ∙ added m (counts m),
      complete-gap n none (completions ns) fresh gap,
    )
  where
    added :
        (m : ℕ)
        → tally m (completions ns) ≡ count m ns
        → tally m (completions ns) + one_at n m ≡ count m (n ∷ ns)
    added m h = ground arith

-- The number that a drain compares with its target says what it should: of jobs that have completed
-- in any order, each once, it has reached a target exactly when every job up to the target has
-- completed.
pub barrier_refines :
    (ns : List ℕ) (target : ℕ)
    → Distinct ns
    → (target ≤ (completions ns).completed_through)
      ↔ ((n : ℕ) → 1 ≤ n → n ≤ target → 1 ≤ count n ns)
barrier_refines ns target d =
    let (counts, gap) = completions-Represents ns d in
    (
      λ reached n low high. ground (arith, counts n),
      λ every. elim (Bool-cases (leb target (completions ns).completed_through)) [
        | inl e ↦ ground arith
        | inr e ↦
            let m = (completions ns).completed_through + 1 in
            absurd (ground (arith, counts m, every m (omega arith) (ground arith)))
      ],
    )

-- When the same jobs have completed in two orders, each once, from a new completion, the number up
-- to which all are complete is the same after both.
pub order_is_forgotten :
    (ns ms : List ℕ)
    → Distinct ns
    → Distinct ms
    → ((n : ℕ) → count n ns ≡ count n ms)
    → (completions ns).completed_through ≡ (completions ms).completed_through
order_is_forgotten ns ms d e same =
    omega (arith, half ns ms d e same, half ms ns e d (λ n. sym (same n)))
  where
    half :
        (xs ys : List ℕ)
        → Distinct xs
        → Distinct ys
        → ((n : ℕ) → count n xs ≡ count n ys)
        → (completions xs).completed_through ≤ (completions ys).completed_through
    half xs ys d e s = (barrier_refines ys (completions xs).completed_through e).1 (λ n low high.
        ground (
          arith,
          s n,
          (barrier_refines xs (completions xs).completed_through d).0 (omega arith) n low high,
        ))
