-- ===== src/Admission.antt =====
-- src/admission.rs: the server's admission for operations that can create a managed database.
-- An operation is a run over a world of its own, of any type: it sees and changes that alone.
pub mod Laws
pub mod Creation
pub mod Residue
pub mod Others
pub mod Permits
pub mod Made
use postgres_test_harness.Base.{
  ℕ, Bool, Error, connection_budget_closed, Result, ok, err, if◌then◌else◌,
}
use postgres_test_harness.Semaphore.{Semaphore, Poll, granted, closed, pending}

pub data ManagedDatabaseCreationFailure : Type 0 where
  no_residual : Error → ManagedDatabaseCreationFailure
  residual_possible : Error → ManagedDatabaseCreationFailure

unfoldable pub into_error : ManagedDatabaseCreationFailure → Error
into_error (no_residual e) = e
into_error (residual_possible e) = e

-- `Result<(), ManagedDatabaseCreationFailure>`.
pub data CreationResult : Type 0 where
  created : CreationResult
  failed_creation : ManagedDatabaseCreationFailure → CreationResult

module _ (sem : Semaphore) where
  abbrev pub DatabaseAdmission : Type 0
  DatabaseAdmission = sem.State

  unfoldable pub new : ℕ → DatabaseAdmission
  new permits = sem.new permits

  -- One poll: `pending` waits for permits.
  unfoldable pub acquire : ℕ → DatabaseAdmission → Poll (Result DatabaseAdmission)
  acquire permits a = elim (sem.acquire_many permits a) [
    | granted t ↦ granted (ok t)
    | closed ↦ granted (err connection_budget_closed)
    | pending ↦ pending
  ]

  unfoldable pub ensure_open : DatabaseAdmission → Result (Unit {0})
  ensure_open a = if sem.is_closed a then err connection_budget_closed else ok tt

  unfoldable pub close : DatabaseAdmission → DatabaseAdmission
  close a = sem.close a

  unfoldable pub is_closed : DatabaseAdmission → Bool
  is_closed a = sem.is_closed a

  -- `matches!(result, Err(ResidualPossible(_)))` closes the admission.
  unfoldable pub settle : CreationResult → DatabaseAdmission → DatabaseAdmission
  unfolding close
  settle (failed_creation (residual_possible e)) a = close a
  settle _ a = a

  module _ {World : Type 0} where
    unfoldable pub attempt_managed_creation :
        (World → CreationResult × World)
        → DatabaseAdmission × World
        → CreationResult × (DatabaseAdmission × World)
    unfolding ensure_open settle
    attempt_managed_creation operation (a, w) = elim (ensure_open a) [
      | err e ↦ (failed_creation (no_residual e), (a, w))
      | ok _ ↦ let (result, w') = operation w in (result, (settle result a, w'))
    ]
