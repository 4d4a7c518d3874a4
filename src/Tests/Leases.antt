-- ===== src/Tests/Leases.antt =====
-- Leases, of src/harness.rs, on a server in memory.
use postgres_test_harness.Base.{
  ◌+◌, ◌≡◌, ◌≢◌, refl, ◌⊎◌, false, true, List, [], ◌∷◌, length, ap, arith, Text, text, Option, none,
  some, ok,
}
use postgres_test_harness.Semaphore.{Counter, counting}
use postgres_test_harness.Name.{test_kind}
use postgres_test_harness.Metadata.Decimal.{pos}
use postgres_test_harness.Admin.Statements.{quote_identifier}
use postgres_test_harness.Admin.Client.{
  drop_database, run_admin_operation, create_database, set_database_metadata,
}
use postgres_test_harness.Admission.{attempt_managed_creation}
use postgres_test_harness.Admission.Creation.{
  attempt_managed_database_creation, create_managed_database_classified,
}
use postgres_test_harness.Cleanup.Worker.{CleanupOutcome, may_leave_residual}
use postgres_test_harness.Prewarm.State.{PreparedDatabase, occupied_slots, complete_phase}
use postgres_test_harness.Prewarm.Pool.{PrewarmPoolInner}
use postgres_test_harness.Lease.{
  PrewarmReturn, Replacement, begin_lease_return, return_after_drop, return_publish,
  database_cleanup_operation,
}
use postgres_test_harness.Lease.Disposal.{IsPublished, cleanup_is_clean}
use postgres_test_harness.Lease.Slots.{slot_is_settled}
use postgres_test_harness.Tests.Memory.{Memory, memory, memory-IsPostgres, default_settings, holds}
use postgres_test_harness.Tests.Names.{credit, tested}

abbrev pub replacement : Replacement
replacement = record {
  project = credit;
  owner_key = pos 7;
  template_name = text "pgh_credit_template_1";
  prepared = record {
    name = record { value = text "pgh_credit_test_2"; kind = test_kind };
    database_url = text "postgres://localhost/pgh_credit_test_2";
  };
  now = 100;
}

-- A pool of one slot, which is leased.
abbrev leased_pool : PrewarmPoolInner counting
leased_pool = record {
  capacity = 1;
  ready_admission = record { permits = 0; shut = false };
  closed = record { permits = 0; shut = false };
  state = record {
    ready = [];
    leased = 1;
    creating = 0;
    deleting = 0;
    accepting = true;
    cleanup_started = false;
  };
}

abbrev unchanged : PrewarmPoolInner counting → PrewarmPoolInner counting
unchanged p = p

abbrev admission : Counter
admission = record { permits = 3; shut = false }

abbrev with_lease : Memory
with_lease = record {
  rows = (text "postgres", none) ∷ (tested.value, none) ∷ [];
  refuses_comments = false;
  settings = default_settings;
  locks = [];
}

abbrev guard : Option (PrewarmReturn counting)
guard = begin_lease_return counting (some leased_pool)

abbrev cleaned :
    CleanupOutcome × (List PreparedDatabase × Option (PrewarmReturn counting)) × (Counter × Memory)
cleaned =
    database_cleanup_operation memory 90 counting unchanged replacement (ok tt) tested guard
      (admission, with_lease)

tested_is_other : tested.value ≢ replacement.prepared.name.value
tested_is_other e = absurd (ground (arith, ap length e))

cleanup_is_clean_example :
    let (outcome, left, (b, v)) = cleaned in
    (holds tested.value v.rows ≡ false)
    × (((m : Text) → m ≢ tested.value → holds m v.rows ≡ holds m with_lease.rows)
        ⊎ IsPublished counting replacement left.1)
unfolding database_cleanup_operation may_leave_residual drop_database run_admin_operation
    begin_lease_return return_after_drop create_managed_database_classified attempt_managed_creation
    attempt_managed_database_creation create_database quote_identifier set_database_metadata
    return_publish
cleanup_is_clean_example =
    let (outcome, left, (b, v)) = cleaned in
    cleanup_is_clean memory memory-IsPostgres 90 counting unchanged replacement tested with_lease
      tested_is_other refl (ok tt) guard left.1 left.0 admission b v outcome refl refl

slot_is_settled_example :
    let (outcome, left, s) = cleaned in
    (r : PrewarmReturn counting) × (left.1 ≡ some r)
    × (r.phase ≡ complete_phase)
    × ((occupied_slots r.pool.state + 1 ≡ occupied_slots leased_pool.state)
        ⊎ ((occupied_slots r.pool.state ≡ occupied_slots leased_pool.state)
            × (r.pool.state.ready ≡ replacement.prepared ∷ [])))
slot_is_settled_example =
    slot_is_settled counting memory 90 replacement (ok tt) tested leased_pool admission with_lease
      (omega arith)
