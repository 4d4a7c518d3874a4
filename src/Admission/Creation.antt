-- ===== src/Admission/Creation.antt =====
-- src/admin.rs and src/server.rs: creating a managed database, and what a failure may leave.
use postgres_test_harness.Base.{
  ℕ, Text, db_error, Error, postgres, managed_database_tag_and_cleanup, Result, ok, err,
}
use postgres_test_harness.Semaphore.{Semaphore}
use postgres_test_harness.Name.{DatabaseName}
use postgres_test_harness.Metadata.Resource.{ResourceMetadata}
use postgres_test_harness.Admin.Postgres.{Postgres}
use postgres_test_harness.Admin.Client.{create_database, drop_database, set_database_metadata}
use postgres_test_harness.Admission.{
  DatabaseAdmission, ManagedDatabaseCreationFailure, no_residual, residual_possible, CreationResult,
  created, failed_creation, attempt_managed_creation,
}

unfoldable pub classify_database_creation_failure : Error → ManagedDatabaseCreationFailure
classify_database_creation_failure (postgres operation (db_error k)) =
    no_residual (postgres operation (db_error k))
classify_database_creation_failure e = residual_possible e

-- The result of the cleanup is given.
unfoldable pub compensate_failed_metadata_write :
    Error → Result (Unit {0}) → ManagedDatabaseCreationFailure
compensate_failed_metadata_write tagging (ok _) = no_residual tagging
compensate_failed_metadata_write tagging (err cleanup) =
    residual_possible (managed_database_tag_and_cleanup tagging cleanup)

module _ (pg : Postgres) (timeout : ℕ) where
  abbrev pub tag_failed : Error → Result (Unit {0}) × pg.World → CreationResult × pg.World
  tag_failed tagging (cleanup, w) =
      (failed_creation (compensate_failed_metadata_write tagging cleanup), w)

  abbrev pub tagged : DatabaseName → Result (Unit {0}) × pg.World → CreationResult × pg.World
  tagged name (ok _, w) = (created, w)
  tagged name (err tagging, w) = tag_failed tagging (drop_database pg timeout name w)

  abbrev pub tag :
      DatabaseName → ResourceMetadata → Result (Unit {0}) × pg.World → CreationResult × pg.World
  tag name metadata (ok _, w) = tagged name (set_database_metadata pg timeout name metadata w)
  tag name metadata (err e, w) = (failed_creation (classify_database_creation_failure e), w)

  unfoldable pub attempt_managed_database_creation :
      DatabaseName → Text → ResourceMetadata → pg.World → CreationResult × pg.World
  attempt_managed_database_creation name template_name metadata w =
      tag name metadata (create_database pg timeout name template_name w)

  -- `ServerInner::create_managed_database_classified`.
  unfoldable pub create_managed_database_classified :
      (sem : Semaphore)
      → DatabaseName
      → Text
      → ResourceMetadata
      → DatabaseAdmission sem × pg.World
      → CreationResult × (DatabaseAdmission sem × pg.World)
  create_managed_database_classified sem name template_name metadata =
      attempt_managed_creation sem (attempt_managed_database_creation name template_name metadata)
