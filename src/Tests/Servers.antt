-- ===== src/Tests/Servers.antt =====
-- Admission, the stale pass and a server's sizes: the theorems of src/admission.rs, src/admin.rs,
-- src/harness.rs and src/server.rs on a server in memory.
use postgres_test_harness.Base.{
  ok, ◌≤◌, ◌≡◌, refl, true, false, [], ◌∷◌, text, none, some, Error, postgres, other_error,
}
use postgres_test_harness.Semaphore.{Counter, counting}
use postgres_test_harness.Name.{from_existing}
use postgres_test_harness.Metadata.Decimal.{pos, print_i64, print_u64, parse_i64, parse_u64}
use postgres_test_harness.Metadata.Fields.{split}
use postgres_test_harness.Config.Project
use postgres_test_harness.Admin.Statements.{quote_identifier}
use postgres_test_harness.Metadata.Resource.{
  ResourceMetadata, test, encode, parse, project_of, created_at_of, lock_key_of,
}
use postgres_test_harness.Admin.Client.{
  DatabaseRecord, create_database, drop_database, set_database_metadata, run_admin_operation,
  find_database, try_acquire_advisory_lock, release_advisory_lock,
}
use postgres_test_harness.Config.Harness.{ConnectionLimits}
use postgres_test_harness.Admission.{no_residual, attempt_managed_creation, is_closed}
use postgres_test_harness.Admission.Creation.{
  attempt_managed_database_creation, create_managed_database_classified,
  compensate_failed_metadata_write,
}
use postgres_test_harness.Admission.Residue.{open_after_failure_is_clean}
use postgres_test_harness.Stale.Classify.{
  CleanupReport, empty_report, candidate, ignore, classify_name, classify_metadata,
  metadata_matches_name, classify_cleanup_record, revalidate_cleanup_candidate,
}
use postgres_test_harness.Stale.Pass.{
  clean_record, clean_records, cleanup_stale_blocking, cleanup_candidate_after_lock, counted,
  finish_locked_cleanup,
}
use postgres_test_harness.Stale.Dropping.{dropped_is_revalidated}
use postgres_test_harness.Name.{DatabaseName}
use postgres_test_harness.Stale.Spared.{foreign_is_spared}
use postgres_test_harness.Stale.Report.{examined, report_is_bounded}
use postgres_test_harness.Tests.Memory.{default_settings, Memory, memory, memory-IsPostgres, holds}
use postgres_test_harness.Tests.Names.{credit, tested}

abbrev admission : Counter
admission = record { permits = 3; shut = false }

abbrev owned : ResourceMetadata
owned = test (record { project = credit; owner_key = pos 7; created_at = 100 })

-- The server refuses the comment, and the database is dropped again.
abbrev refusing : Memory
refusing = record {
  rows = (text "postgres", none) ∷ [];
  refuses_comments = true;
  settings = default_settings;
  locks = [];
}

abbrev tagging_refused : Error
tagging_refused = postgres (text "write disposable PostgreSQL database metadata") (other_error 7)

open_after_failure_is_clean_example :
    holds tested.value refusing.rows ≡ holds tested.value refusing.rows
unfolding create_managed_database_classified attempt_managed_creation is_closed
    attempt_managed_database_creation create_database quote_identifier run_admin_operation
    set_database_metadata compensate_failed_metadata_write drop_database
open_after_failure_is_clean_example =
    open_after_failure_is_clean memory memory-IsPostgres 90 tested refusing refl counting admission
      admission (text "template0") owned (no_residual tagging_refused) refusing refl refl
      tested.value

-- A stale test database, tagged by the project, beside a foreign one.
abbrev stale : DatabaseRecord
stale = record { name = tested.value; comment = some (encode owned) }

abbrev foreign : DatabaseRecord
foreign = record { name = text "postgres"; comment = none }

abbrev server : Memory
server = record {
  rows = (text "postgres", none) ∷ (tested.value, some (encode owned)) ∷ [];
  refuses_comments = false;
  settings = default_settings;
  locks = [];
}

stale-candidate : classify_cleanup_record credit 10000 3600 stale ≡ candidate tested (pos 7)
unfolding classify_cleanup_record classify_name classify_metadata from_existing parse encode split
    print_i64 print_u64 Project.new parse_u64 parse_i64 project_of metadata_matches_name
    created_at_of lock_key_of
stale-candidate = refl

foreign-ignored : classify_cleanup_record credit 10000 3600 foreign ≡ ignore
unfolding classify_cleanup_record classify_name from_existing
foreign-ignored = refl

dropped_is_revalidated_example :
    (name : DatabaseName) × (name.value ≡ tested.value)
    × ((find_database memory 90 name server).0 ≡ ok (some stale))
    × (classify_cleanup_record credit 10000 3600 stale ≡ candidate name (pos 7))
unfolding cleanup_candidate_after_lock find_database revalidate_cleanup_candidate encode print_i64
    print_u64 drop_database run_admin_operation from_existing
dropped_is_revalidated_example =
    dropped_is_revalidated memory memory-IsPostgres 90 credit 10000 3600 tested.value stale (pos 7)
      server empty_report refl (rw stale-candidate refl)

foreign_is_spared_example :
    holds (text "postgres") (cleanup_stale_blocking memory 90 credit 10000 3600 server).1.rows
    ≡ holds (text "postgres") server.rows
unfolding from_existing
foreign_is_spared_example =
    foreign_is_spared memory memory-IsPostgres 90 credit 10000 3600 (text "postgres") server refl

abbrev one_dropped : CleanupReport
one_dropped = record empty_report { dropped_test_databases = 1 }

report_is_bounded_example : examined one_dropped ≤ 2
unfolding clean_records clean_record try_acquire_advisory_lock run_admin_operation
    cleanup_candidate_after_lock find_database revalidate_cleanup_candidate drop_database
    release_advisory_lock counted finish_locked_cleanup from_existing encode print_i64 print_u64
report_is_bounded_example =
    report_is_bounded memory 90 credit 10000 3600 (foreign ∷ stale ∷ []) one_dropped server
      (clean_records memory 90 credit 10000 3600 (foreign ∷ stale ∷ []) empty_report server).1
      (rw (foreign-ignored, stale-candidate, stale-candidate) refl)

abbrev usual : ConnectionLimits
usual = record { connection_budget = 120; connections_per_database = 11 }
