-- ===== src/Admission/Permits.antt =====
-- src/admission.rs: what an attempt and an acquisition do to the permits.
use postgres_test_harness.Base.{
  ℕ, ◌≡◌, inl, inr, refl, Bool-cases, true, arith, Error, connection_budget_closed, ok, err,
}
use postgres_test_harness.Semaphore.{Semaphore, granted}
use postgres_test_harness.Admission.{
  DatabaseAdmission, CreationResult, created, failed_creation, no_residual, residual_possible,
  acquire, is_closed, attempt_managed_creation, settle, ensure_open, close,
}

module _ (sem : Semaphore) where
  settle-permits :
      (r : CreationResult) (a : DatabaseAdmission sem)
      → sem.available_permits (settle sem r a) ≡ sem.available_permits a
  unfolding settle close
  settle-permits created a = refl
  settle-permits (failed_creation (no_residual e)) a = refl
  settle-permits (failed_creation (residual_possible e)) a = sem.available-close a

  -- An attempt takes no permit.
  pub attempt-permits :
      {World : Type 0} (operation : World → CreationResult × World) (a : DatabaseAdmission sem)
      (w : World)
      → sem.available_permits (attempt_managed_creation sem operation (a, w)).1.0
        ≡ sem.available_permits a
  unfolding attempt_managed_creation ensure_open
  attempt-permits operation a w = elim (Bool-cases (sem.is_closed a)) [
    | inl shut ↦ rw (shut, attempt_managed_creation) refl
    | inr admitted ↦ rw (admitted, attempt_managed_creation) (settle-permits (operation w).0 a)
  ]

module _ (sem : Semaphore) (permit : ℕ) (a : DatabaseAdmission sem) where
  -- A permit that is refused is refused by a closed admission.
  pub acquire-refused :
      (e : Error)
      → acquire sem permit a ≡ granted (err e)
      → (is_closed sem a ≡ true) × (e ≡ connection_budget_closed)
  unfolding acquire is_closed
  acquire-refused e h = elim (Bool-cases (sem.is_closed a)) [
    | inl shut ↦ (shut, ground (arith, sem.acquire-closed permit a shut))
    | inr opened ↦ absurd (sem.acquire-open permit a opened (ground arith))
  ]

  pub acquire-granted :
      (b : DatabaseAdmission sem)
      → acquire sem permit a ≡ granted (ok b)
      → sem.acquire_many permit a ≡ granted b
  unfolding acquire
  acquire-granted b h = ground arith
