-- ===== src/Cleanup/Drain.antt =====
-- src/cleanup.rs: draining the queue. A drain takes the failures up to its target and delivers
-- them: `finish` acknowledges the delivery, and dropping the outcome restores them.
use postgres_test_harness.Base.{
  ℕ, Bool, true, false, not, ◌||◌, List, [], ◌∷◌, ◌++◌, map, ltb, leb, if◌then◌else◌, keep, Option,
  none, some, deferred_cleanup, failures, Result, ok, err,
}
use postgres_test_harness.Cleanup.Completion.{CompletionState, SequencedFailure}

-- `sort_unstable_by_key` by sequence; numbers differ between jobs.
unfoldable pub insert_sorted : SequencedFailure → List SequencedFailure → List SequencedFailure
insert_sorted f [] = f ∷ []
insert_sorted f (g ∷ gs) = if leb f.sequence g.sequence then f ∷ g ∷ gs else g ∷ insert_sorted f gs

unfoldable pub sort_by_sequence : List SequencedFailure → List SequencedFailure
unfolding insert_sorted
sort_by_sequence [] = []
sort_by_sequence (f ∷ fs) = insert_sorted f (sort_by_sequence fs)

abbrev pub is_due : ℕ → SequencedFailure → Bool
is_due target f = leb f.sequence target

-- The outcome's failures are `none` where there is nothing to deliver.
abbrev pub CleanupDrainOutcome : Type 0
CleanupDrainOutcome = Option (List SequencedFailure)

unfoldable pub outcome_of :
    List SequencedFailure → CompletionState → CleanupDrainOutcome × CompletionState
outcome_of [] c = (none, c)
outcome_of (f ∷ fs) c = (some (f ∷ fs), record c { failure_delivery_in_flight = true })

unfoldable pub wait_and_take : ℕ → CompletionState → Option (CleanupDrainOutcome × CompletionState)
unfolding sort_by_sequence outcome_of
wait_and_take target c =
    if ltb c.completed_through target || c.failure_delivery_in_flight
    then none
    else some (
        outcome_of (sort_by_sequence (keep (is_due target) c.failures))
          (record c { failures = keep (λ f. not (is_due target f)) c.failures }))

unfoldable pub acknowledge_delivery : CompletionState → CompletionState
acknowledge_delivery c = record c { failure_delivery_in_flight = false }

unfoldable pub restore_delivery : List SequencedFailure → CompletionState → CompletionState
restore_delivery fs c = record c { failures = c.failures ++ fs; failure_delivery_in_flight = false }

unfoldable pub finish : CleanupDrainOutcome → CompletionState → Result (Unit {0}) × CompletionState
unfolding acknowledge_delivery
finish none c = (ok tt, c)
finish (some fs) c =
    (err (deferred_cleanup (failures (map (λ f. f.failure) fs))), acknowledge_delivery c)

unfoldable pub drop_outcome : CleanupDrainOutcome → CompletionState → CompletionState
unfolding restore_delivery
drop_outcome none c = c
drop_outcome (some fs) c = restore_delivery fs c
