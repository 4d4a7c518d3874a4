-- ===== src/Stale/Pass.antt =====
-- src/harness.rs: the stale pass over the databases of a server, from the listing on.
use postgres_test_harness.Base.{
  ℕ, suc, Bool, true, false, List, [], ◌∷◌, Option, none, some, Result, ok, err, Attempt, panics,
  returns,
}
use postgres_test_harness.Config.Project.{ProjectName}
use postgres_test_harness.Name.{DatabaseName, DatabaseKind, test_kind, template_kind, from_existing}
use postgres_test_harness.Metadata.Decimal.{ℤ}
use postgres_test_harness.Admin.Postgres.{Postgres}
use postgres_test_harness.Admin.Client.{
  DatabaseRecord, find_database, drop_database, list_databases, try_acquire_advisory_lock,
  release_advisory_lock,
}
use postgres_test_harness.Stale.Classify.{
  CleanupReport, empty_report, CleanupClassification, ignore, unrecognized, fresh, candidate,
  classify_cleanup_record, revalidate_cleanup_candidate,
}

-- The unlocking has been done: its result is given.
unfoldable pub finish_locked_cleanup {ℓ} : {A : Type ℓ} → Result A → Result (Unit {0}) → Result A
finish_locked_cleanup (ok value) (ok _) = ok value
finish_locked_cleanup (ok value) (err e) = err e
finish_locked_cleanup (err e) unlock = err e

unfoldable pub counted : CleanupReport → Result (Option DatabaseKind) → Result CleanupReport
counted report (err e) = err e
counted report (ok none) = ok report
counted report (ok (some test_kind)) =
    ok (record report { dropped_test_databases = suc report.dropped_test_databases })
counted report (ok (some template_kind)) =
    ok (record report { dropped_templates = suc report.dropped_templates })

module _ (pg : Postgres) (timeout : ℕ) (project : ProjectName) (now stale_after : ℕ) where
  -- The result of the locked part, with the report as it leaves it.
  abbrev pub Locked : Type 0
  Locked = (Attempt (Option DatabaseKind) × CleanupReport) × pg.World

  abbrev pub dropped : DatabaseName → CleanupReport → Result (Unit {0}) × pg.World → Locked
  dropped name report (ok _, w) = ((returns (ok (some name.kind)), report), w)
  dropped name report (err e, w) = ((returns (err e), report), w)

  abbrev pub drop_revalidated : Option DatabaseName × CleanupReport → pg.World → Locked
  drop_revalidated (none, report) w = ((returns (ok none), report), w)
  drop_revalidated (some name, report) w = dropped name report (drop_database pg timeout name w)

  abbrev pub looked_up :
      DatabaseRecord → ℤ → CleanupReport → Result (Option DatabaseRecord) × pg.World → Locked
  looked_up snapshot held_key report (err e, w) = ((returns (err e), report), w)
  looked_up snapshot held_key report (ok current, w) =
      drop_revalidated
        (revalidate_cleanup_candidate project now stale_after snapshot current held_key report) w

  -- The snapshot's name is unwrapped by `expect`.
  abbrev pub named : Option DatabaseName → DatabaseRecord → ℤ → CleanupReport → pg.World → Locked
  named none snapshot held_key report w = ((panics, report), w)
  named (some name) snapshot held_key report w =
      looked_up snapshot held_key report (find_database pg timeout name w)

  unfoldable pub cleanup_candidate_after_lock :
      DatabaseRecord → ℤ → CleanupReport → pg.World → Locked
  cleanup_candidate_after_lock snapshot = named (from_existing project snapshot.name) snapshot

  abbrev pub Passed : Type 0
  Passed = Attempt CleanupReport × pg.World

  abbrev pub unlock_and_count : ℤ → Locked → Passed
  unlock_and_count key ((returns r, report), w) =
      let (unlock, v) = release_advisory_lock pg timeout key w in
      (returns (counted report (finish_locked_cleanup r unlock)), v)
  unlock_and_count key ((_, report), w) = (panics, w)

  abbrev pub locked : DatabaseRecord → ℤ → CleanupReport → Result Bool × pg.World → Passed
  locked r key report (err e, w) = (returns (err e), w)
  locked r key report (ok false, w) =
      (returns (ok (record report { skipped_active = suc report.skipped_active })), w)
  locked r key report (ok true, w) =
      unlock_and_count key (cleanup_candidate_after_lock r key report w)

  abbrev pub handle : CleanupClassification → DatabaseRecord → CleanupReport → pg.World → Passed
  handle ignore r report w = (returns (ok report), w)
  handle unrecognized r report w =
      (returns (ok (record report { skipped_unrecognized = suc report.skipped_unrecognized })), w)
  handle fresh r report w =
      (returns (ok (record report { skipped_fresh = suc report.skipped_fresh })), w)
  handle (candidate name key) r report w =
      locked r key report (try_acquire_advisory_lock pg timeout key w)

  -- The loop's body.
  unfoldable pub clean_record : DatabaseRecord → CleanupReport → pg.World → Passed
  clean_record r = handle (classify_cleanup_record project now stale_after r) r

  abbrev pub continue_with : (CleanupReport → pg.World → Passed) → Passed → Passed
  continue_with rest (returns (ok report), w) = rest report w
  continue_with rest p = p

  unfoldable pub clean_records : List DatabaseRecord → CleanupReport → pg.World → Passed
  clean_records [] report w = (returns (ok report), w)
  clean_records (r ∷ rs) report w = continue_with (clean_records rs) (clean_record r report w)

  abbrev pub listed : Result (List DatabaseRecord) × pg.World → Passed
  listed (err e, w) = (returns (err e), w)
  listed (ok records, w) = clean_records records empty_report w

  -- Once the client is connected and the server's version is validated.
  unfoldable pub cleanup_stale_blocking : pg.World → Passed
  cleanup_stale_blocking w = listed (list_databases pg timeout w)
