-- ===== src/Cleanup/Delivery.antt =====
-- src/cleanup.rs: a drain delivers each retained failure up to its target once, and a delivery
-- that is dropped gives them back.
use mathlib.Core.List.{Perm, perm_middle, perm_append_comm}
use mathlib.Core.List.Perm
use postgres_test_harness.Base.{
  ℕ, ◌≤◌, ◌≡◌, refl, sym, Bool, true, false, not, List, [], ◌∷◌, ◌++◌, map, append-nil, arith, leb,
  inl, inr, All, keep, Bool-cases, none, some, failures, deferred_cleanup, Result, ok, err,
}
use postgres_test_harness.Cleanup.Completion.{SequencedFailure, CompletionState}
use postgres_test_harness.Cleanup.Drain.{
  insert_sorted, sort_by_sequence, is_due, CleanupDrainOutcome, outcome_of, wait_and_take, finish,
  drop_outcome,
}

abbrev pub delivered : CleanupDrainOutcome → List SequencedFailure
delivered none = []
delivered (some fs) = fs

-- No number of the list is below `n`, and the list ascends.
abbrev pub Ascends : ℕ → List SequencedFailure → Type 0
Ascends n [] = Unit
Ascends n (f ∷ fs) = (n ≤ f.sequence) × Ascends f.sequence fs

insert_sorted-perm :
    (f : SequencedFailure) (gs : List SequencedFailure) → Perm (insert_sorted f gs) (f ∷ gs)
unfolding insert_sorted
insert_sorted-perm f [] = Perm.refl _
insert_sorted-perm f (g ∷ gs) = elim (Bool-cases (leb f.sequence g.sequence)) [
  | inl e ↦ rw (e, insert_sorted) (Perm.refl _)
  | inr e ↦
      rw (e, insert_sorted) (Perm.trans (Perm.cons g (insert_sorted-perm f gs)) (Perm.swap f g gs))
]

sort-perm : (fs : List SequencedFailure) → Perm (sort_by_sequence fs) fs
unfolding sort_by_sequence
sort-perm [] = Perm.refl []
sort-perm (f ∷ fs) =
    Perm.trans (insert_sorted-perm f (sort_by_sequence fs)) (Perm.cons f (sort-perm fs))

keep-perm :
    (p : SequencedFailure → Bool) (fs : List SequencedFailure)
    → Perm (keep p fs ++ keep (λ f. not (p f)) fs) fs
keep-perm p [] = Perm.refl []
keep-perm p (f ∷ fs) = elim (Bool-cases (p f)) [
  | inl e ↦ rw e (Perm.cons f (keep-perm p fs))
  | inr e ↦ rw e (
      Perm.trans (perm_middle (keep p fs) (keep (λ g. not (p g)) fs))
        (Perm.cons f (keep-perm p fs)))
]

insert-Ascends :
    (n : ℕ) (f : SequencedFailure) (gs : List SequencedFailure)
    → n ≤ f.sequence
    → Ascends n gs
    → Ascends n (insert_sorted f gs)
unfolding insert_sorted
insert-Ascends n f [] h a = (h, tt)
insert-Ascends n f (g ∷ gs) h a = ground (arith, insert-Ascends g.sequence f gs)

sort-Ascends : (fs : List SequencedFailure) → Ascends 0 (sort_by_sequence fs)
unfolding sort_by_sequence
sort-Ascends [] = tt
sort-Ascends (f ∷ fs) = insert-Ascends 0 f (sort_by_sequence fs) (omega arith) (sort-Ascends fs)

keep-due :
    (p : SequencedFailure → Bool) (fs : List SequencedFailure) → All (λ f. p f ≡ true) (keep p fs)
keep-due p [] = tt
keep-due p (f ∷ fs) = elim (Bool-cases (p f)) [
  | inl e ↦ rw e (e, keep-due p fs)
  | inr e ↦ rw e (keep-due p fs)
]

insert-All :
    (P : SequencedFailure → Type 0) (f : SequencedFailure) (gs : List SequencedFailure)
    → P f
    → All P gs
    → All P (insert_sorted f gs)
unfolding insert_sorted
insert-All P f [] h a = (h, tt)
insert-All P f (g ∷ gs) h a = elim (Bool-cases (leb f.sequence g.sequence)) [
  | inl e ↦ rw (e, insert_sorted) (h, a)
  | inr e ↦ rw (e, insert_sorted) (a.0, insert-All P f gs h a.1)
]

sort-All :
    (P : SequencedFailure → Type 0) (fs : List SequencedFailure)
    → All P fs
    → All P (sort_by_sequence fs)
unfolding sort_by_sequence
sort-All P [] a = tt
sort-All P (f ∷ fs) a = insert-All P f (sort_by_sequence fs) a.0 (sort-All P fs a.1)

outcome_of-lem :
    (fs : List SequencedFailure) (c : CompletionState)
    → (delivered (outcome_of fs c).0 ≡ fs) × ((outcome_of fs c).1.failures ≡ c.failures)
unfolding outcome_of
outcome_of-lem [] c = (refl, refl)
outcome_of-lem (f ∷ fs) c = (refl, refl)

-- The state after a drain that got past its wait.
taken :
    (target : ℕ) (c d : CompletionState) (o : CleanupDrainOutcome)
    → wait_and_take target c ≡ some (o, d)
    → (delivered o ≡ sort_by_sequence (keep (is_due target) c.failures))
      × (d.failures ≡ keep (λ f. not (is_due target f)) c.failures)
unfolding wait_and_take
taken target c d o h = ground (
  arith,
  outcome_of-lem (sort_by_sequence (keep (is_due target) c.failures))
      (record c { failures = keep (λ f. not (is_due target f)) c.failures }),
)

drop_outcome-failures :
    (o : CleanupDrainOutcome) (d : CompletionState)
    → (drop_outcome o d).failures ≡ d.failures ++ delivered o
unfolding drop_outcome
drop_outcome-failures none d = sym (append-nil d.failures)
drop_outcome-failures (some fs) d = refl

outcome_of-idle :
    (fs : List SequencedFailure) (c : CompletionState)
    → c.failure_delivery_in_flight ≡ false
    → (drop_outcome (outcome_of fs c).0 (outcome_of fs c).1).failure_delivery_in_flight ≡ false
unfolding outcome_of drop_outcome
outcome_of-idle [] c h = h
outcome_of-idle (f ∷ fs) c h = refl

drop_outcome-idle :
    (target : ℕ) (c d : CompletionState) (o : CleanupDrainOutcome)
    → wait_and_take target c ≡ some (o, d)
    → (drop_outcome o d).failure_delivery_in_flight ≡ false
unfolding wait_and_take
drop_outcome-idle target c d o h = ground (
  arith,
  outcome_of-idle (sort_by_sequence (keep (is_due target) c.failures))
      (record c { failures = keep (λ f. not (is_due target f)) c.failures }),
)

-- What a drain returns for a list of failures.
abbrev pub report : List SequencedFailure → Result (Unit {0})
report [] = ok tt
report (f ∷ fs) = err (deferred_cleanup (failures (map (λ g. g.failure) (f ∷ fs))))

outcome_of-report :
    (fs : List SequencedFailure) (c : CompletionState)
    → c.failure_delivery_in_flight ≡ false
    → let (o, d) = outcome_of fs c in
      ((finish o d).1.failures ≡ d.failures)
      × ((finish o d).1.failure_delivery_in_flight ≡ false)
      × ((finish o d).0 ≡ report (delivered o))
unfolding outcome_of finish
outcome_of-report [] c h = (refl, h, refl)
outcome_of-report (f ∷ fs) c h = (refl, refl, refl)

finish-lem :
    (target : ℕ) (c d : CompletionState) (o : CleanupDrainOutcome)
    → wait_and_take target c ≡ some (o, d)
    → ((finish o d).1.failures ≡ d.failures)
      × ((finish o d).1.failure_delivery_in_flight ≡ false)
      × ((finish o d).0 ≡ report (delivered o))
unfolding wait_and_take
finish-lem target c d o h = ground (
  arith,
  outcome_of-report (sort_by_sequence (keep (is_due target) c.failures))
      (record c { failures = keep (λ f. not (is_due target f)) c.failures }),
)

module _ (target : ℕ) (c d : CompletionState) (o : CleanupDrainOutcome)
    (h : wait_and_take target c ≡ some (o, d)) where
  -- A drain that gets past its wait splits the retained failures: what it delivers has numbers up
  -- to its target and ascends, what it keeps back has later numbers, and none is lost or doubled.
  pub take_delivers :
      Perm (delivered o ++ d.failures) c.failures
      × Ascends 0 (delivered o)
      × All (λ f. is_due target f ≡ true) (delivered o)
      × All (λ f. not (is_due target f) ≡ true) d.failures
  take_delivers =
      let (out, left) = taken target c d o h in
      rw (out, left)
        (
          Perm.trans (Perm.append_right _ (sort-perm (keep (is_due target) c.failures)))
              (keep-perm (is_due target) c.failures),
          sort-Ascends (keep (is_due target) c.failures),
          sort-All _ _ (keep-due (is_due target) c.failures),
          keep-due (λ f. not (is_due target f)) c.failures,
        )

  -- Dropping the outcome in place of finishing it gives every failure back, for the next drain.
  pub drop_restores :
      Perm (drop_outcome o d).failures c.failures
      × ((drop_outcome o d).failure_delivery_in_flight ≡ false)
  drop_restores = (
    rw (drop_outcome-failures o d)
        (Perm.trans (perm_append_comm d.failures (delivered o)) take_delivers.0),
    drop_outcome-idle target c d o h,
  )

  -- Finishing it frees the next drain, keeps the failures that were held back, and returns the
  -- delivered ones in one error, or success where there are none.
  pub finish_reports :
      ((finish o d).1.failures ≡ d.failures)
      × ((finish o d).1.failure_delivery_in_flight ≡ false)
      × ((finish o d).0 ≡ report (delivered o))
  finish_reports = finish-lem target c d o h
