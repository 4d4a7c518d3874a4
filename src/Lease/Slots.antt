-- ===== src/Lease/Slots.antt =====
-- src/harness.rs: the slot of a returned lease is settled, however its cleanup ends.
use postgres_test_harness.Base.{
  ℕ, ◌+◌, ◌-◌, ◌≤◌, ◌≡◌, refl, ap, ◌⊎◌, inl, inr, arith, Bool-cases, true, false, not, ◌&&◌, List,
  [], ◌∷◌, ◌++◌, length-append, Option, none, some, Result, ok, err,
}
use postgres_test_harness.Semaphore.{Semaphore}
use postgres_test_harness.Prewarm.State.{
  PreparedDatabase, PrewarmPoolState, PrewarmReturnPhase, deleting_phase, creating_phase,
  complete_phase, occupied_slots, begin_cleanup, fail_and_begin_cleanup,
}
use postgres_test_harness.Prewarm.Pool.{
  PrewarmPoolInner, begin_return, fail_phase, after_drop, finish_creation, finish_deletion,
  finish_close,
}
use postgres_test_harness.Admin.Postgres.{Postgres}
use postgres_test_harness.Admission.{
  DatabaseAdmission, CreationResult, created, failed_creation, no_residual, residual_possible,
}
use postgres_test_harness.Admin.Client.{drop_database}
use postgres_test_harness.Name.{DatabaseName}
use postgres_test_harness.Lease.{
  drop_guard, Replacement, discarded, published, replaced, refilled, after_deletion, dispose, Site,
  database_cleanup_operation, begin_lease_return, PrewarmReturn, return_after_drop, return_publish,
  drop_return,
}

module _ (sem : Semaphore) where
  abbrev pub slots : PrewarmReturn sem → ℕ
  slots r = occupied_slots r.pool.state

  -- The guard's own slot is counted.
  abbrev pub Counts : PrewarmReturnPhase → PrewarmPoolState → Type 0
  Counts deleting_phase s = 1 ≤ s.deleting
  Counts creating_phase s = 1 ≤ s.creating
  Counts complete_phase s = Unit {0}

  cleaned : (s : PrewarmPoolState) → occupied_slots (begin_cleanup s).1 ≡ occupied_slots s
  unfolding begin_cleanup
  cleaned s = ground arith

  module _ (total : ℕ) (made : Replacement) (ready : List PreparedDatabase) where
    -- The slot is free, or the replacement has it.
    abbrev pub IsSettled : PrewarmPoolState → Type 0
    IsSettled s =
        (occupied_slots s + 1 ≡ total)
        ⊎ ((occupied_slots s ≡ total) × (s.ready ≡ ready ++ made.prepared ∷ []))

    -- A guard that has not finished has its slot; one that has finished has settled it.
    abbrev pub Balanced : PrewarmReturnPhase → PrewarmPoolState → Type 0
    Balanced deleting_phase s = (1 ≤ s.deleting) × (occupied_slots s ≡ total)
    Balanced creating_phase s = (1 ≤ s.creating) × (occupied_slots s ≡ total)
    Balanced complete_phase s = IsSettled s

    abbrev pub Finished : Option (PrewarmReturn sem) → Type 0
    Finished guard =
        (r : PrewarmReturn sem) × (guard ≡ some r)
        × (r.phase ≡ complete_phase)
        × IsSettled r.pool.state

    drop_settles :
        (p : PrewarmPoolInner sem) (phase : PrewarmReturnPhase)
        → Balanced phase p.state
        → Finished (some (drop_return sem (record { pool = p; phase = phase })).1)
    unfolding drop_return fail_phase fail_and_begin_cleanup finish_close
    drop_settles p deleting_phase (h, e) = (
      _,
      refl,
      refl,
      inl (omega (arith, cleaned (record (p.state) { deleting = p.state.deleting - 1 }))),
    )
    drop_settles p creating_phase (h, e) = (
      _,
      refl,
      refl,
      inl (omega (arith, cleaned (record (p.state) { creating = p.state.creating - 1 }))),
    )
    drop_settles p complete_phase h = (_, refl, refl, h)

    -- Of what is disposed of with a guard.
    abbrev Kept : Option (PrewarmReturn sem) → Type 0
    Kept none = false ≡ true
    Kept (some r) = Balanced r.phase r.pool.state

    dropped_guard-Finished :
        (guard : Option (PrewarmReturn sem)) → Kept guard → Finished (drop_guard sem guard).1
    dropped_guard-Finished none h = absurd (ground arith)
    dropped_guard-Finished (some r) h = drop_settles r.pool r.phase h

    module _ (pg : Postgres) (timeout : ℕ) where
      -- No other thread changes the pool while the replacement is made.
      abbrev pub calm : PrewarmPoolInner sem → PrewarmPoolInner sem
      calm p = p

      discarded-Kept :
          (p : PrewarmPoolInner sem) (a : DatabaseAdmission sem) (dropped : Result (Unit {0}))
          (w : pg.World)
          → 1 ≤ p.state.deleting
          → occupied_slots p.state ≡ total
          → let r : PrewarmReturn sem = record { pool = p; phase = complete_phase } in
            Kept (discarded pg timeout sem calm made r a (dropped, w)).1.0
      unfolding finish_deletion
      discarded-Kept p a (ok _) w h e = inl (omega arith)
      discarded-Kept p a (err f) w h e = inl (omega arith)

      published-Kept :
          (r : PrewarmReturn sem) (s : Site pg timeout sem calm made)
          → 1 ≤ r.pool.state.creating
          → slots r ≡ total
          → r.pool.state.ready ≡ ready
          → Kept (published pg timeout sem calm made (return_publish sem made.prepared r) s).1.0
      unfolding return_publish finish_creation
      published-Kept r s h e l =
          elim (Bool-cases (r.pool.state.accepting && not r.pool.state.cleanup_started)) [
            | inl c ↦ rw c (
                inr (
                  omega (arith, length-append r.pool.state.ready (made.prepared ∷ [])),
                  ap (λ d. d ++ made.prepared ∷ []) l,
                ))
            | inr c ↦ rw c (discarded-Kept _ _ _ _ (omega arith) (omega arith))
          ]

      replaced-Kept :
          (r : PrewarmReturn sem) (c : CreationResult) (s : Site pg timeout sem calm made)
          → r.phase ≡ creating_phase
          → 1 ≤ r.pool.state.creating
          → slots r ≡ total
          → r.pool.state.ready ≡ ready
          → Kept (replaced pg timeout sem calm made r (c, s)).1.0
      replaced-Kept r created s p h e l = published-Kept r s h e l
      replaced-Kept r (failed_creation (no_residual f)) s p h e l = rw p (h, e)
      replaced-Kept r (failed_creation (residual_possible f)) s p h e l = rw p (h, e)

      refilled-Kept :
          (r : PrewarmReturn sem) (s : Site pg timeout sem calm made)
          → r.phase ≡ deleting_phase
          → 1 ≤ r.pool.state.deleting
          → slots r ≡ total
          → r.pool.state.ready ≡ ready
          → Kept (refilled pg timeout sem calm made (return_after_drop sem r) s).1.0
      unfolding return_after_drop after_drop
      refilled-Kept r s p h e l =
          elim (Bool-cases (r.pool.state.accepting && not r.pool.state.cleanup_started)) [
            | inl c ↦ rw c (replaced-Kept _ _ _ refl (omega arith) (omega arith) l)
            | inr c ↦ rw c (inl (omega arith))
          ]

      dispose-Kept :
          (name : DatabaseName) (r : PrewarmReturn sem) (s : Site pg timeout sem calm made)
          → r.phase ≡ deleting_phase
          → 1 ≤ r.pool.state.deleting
          → slots r ≡ total
          → r.pool.state.ready ≡ ready
          → Kept (dispose pg timeout sem calm made name (some r) s).1.0
      unfolding dispose
      dispose-Kept name r (a, w) p h e l = by_drop (drop_database pg timeout name w).0 _
        where
          by_drop :
              (dropped : Result (Unit {0})) (v : pg.World)
              → Kept (after_deletion pg timeout sem calm made (some r) a (dropped, v)).1.0
          by_drop (ok _) v = refilled-Kept r (a, v) p h e l
          by_drop (err f) v = rw p (h, e)

module _ (sem : Semaphore) (pg : Postgres) (timeout : ℕ) (made : Replacement) where
  -- A lease of a prewarmed database that is returned has its slot in the pool. Whatever the
  -- session's checkout, the drop and the replacement come to, and unless another thread changes the
  -- pool, the guard has finished when the cleanup operation ends, and the pool has one slot in use
  -- less than before, or as many as before and the replacement behind its idle databases.
  pub slot_is_settled :
      (checkout : Result (Unit {0})) (name : DatabaseName) (p : PrewarmPoolInner sem)
      (a : DatabaseAdmission sem) (w : pg.World)
      → 1 ≤ p.state.leased
      → let (outcome, left, s) =
          database_cleanup_operation pg timeout sem
            (λ q. q)
            made
            checkout
            name
            (begin_lease_return sem (some p))
            (a, w) in
        (r : PrewarmReturn sem) × (left.1 ≡ some r)
        × (r.phase ≡ complete_phase)
        × ((occupied_slots r.pool.state + 1 ≡ occupied_slots p.state)
            ⊎ ((occupied_slots r.pool.state ≡ occupied_slots p.state)
                × (r.pool.state.ready ≡ p.state.ready ++ made.prepared ∷ [])))
  unfolding database_cleanup_operation begin_lease_return begin_return
  slot_is_settled (err e) name p a w h =
      dropped_guard-Finished sem (occupied_slots p.state) made p.state.ready
        (begin_lease_return sem (some p)) (omega arith, omega arith)
  slot_is_settled (ok _) name p a w h =
      dropped_guard-Finished sem (occupied_slots p.state) made p.state.ready _ (
        dispose-Kept sem (occupied_slots p.state) made p.state.ready pg timeout name _ (a, w) refl
          (omega arith) (omega arith) refl)
