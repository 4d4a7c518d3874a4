-- ===== src/Admission/Laws.antt =====
-- What the admission of src/admission.rs guarantees.
use postgres_test_harness.Base.{◌≡◌, refl, Bool, true, false, connection_budget_closed}
use postgres_test_harness.Semaphore.{Semaphore}
use postgres_test_harness.Admission.{
  DatabaseAdmission, CreationResult, created, failed_creation, no_residual, residual_possible,
  attempt_managed_creation, is_closed, settle,
}

-- Whether a result says that a database may be left behind.
abbrev pub may_leave : CreationResult → Bool
may_leave (failed_creation (residual_possible e)) = true
may_leave _ = false

module _ (sem : Semaphore) where
  settle-closed :
      (result : CreationResult) (a : DatabaseAdmission sem)
      → is_closed sem a ≡ false
      → is_closed sem (settle sem result a) ≡ may_leave result
  unfolding settle is_closed
  settle-closed created a h = h
  settle-closed (failed_creation (no_residual e)) a h = h
  settle-closed (failed_creation (residual_possible e)) a h = sem.is_closed-close a

  module _ {World : Type 0} (operation : World → CreationResult × World) (a : DatabaseAdmission sem)
      (w : World) where
    -- On a closed admission the operation is not run: the result is a proven absence of residue
    -- with the error of a closed budget, and neither the admission nor the world changes.
    pub attempt_refused :
        is_closed sem a ≡ true
        → attempt_managed_creation sem operation (a, w)
          ≡ (failed_creation (no_residual connection_budget_closed), (a, w))
    unfolding attempt_managed_creation is_closed
    attempt_refused h = rw (h, attempt_managed_creation)

    -- On an open admission the operation is run once and its result handed on, and the admission
    -- is closed afterwards exactly when that result may leave a database behind.
    pub attempt_admitted :
        is_closed sem a ≡ false
        → let (result, (b, v)) = attempt_managed_creation sem operation (a, w) in
          (result ≡ (operation w).0) × (v ≡ (operation w).1) × (is_closed sem b ≡ may_leave result)
    unfolding attempt_managed_creation is_closed
    attempt_admitted h =
        rw (h, attempt_managed_creation) (refl, refl, settle-closed (operation w).0 a h)
