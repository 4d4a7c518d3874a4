-- ===== src/Stale/Report.antt =====
-- src/harness.rs: the report of a stale pass, and that the pass cannot panic.
use postgres_test_harness.Base.{
  ℕ, suc, ◌+◌, ◌≤◌, ◌≡◌, refl, true, false, List, [], ◌∷◌, arith, length, Option, none, some, subst,
  Bool, ◌&&◌, if◌then◌else◌, Result, ok, err, Attempt, waits, panics, returns,
}
use postgres_test_harness.Config.Project.{ProjectName}
use postgres_test_harness.Name.{DatabaseName, DatabaseKind, test_kind, template_kind, from_existing}
use postgres_test_harness.Metadata.Decimal.{ℤ}
use postgres_test_harness.Admin.Postgres.{Postgres}
use postgres_test_harness.Admin.Client.{DatabaseRecord, drop_database, list_databases}
use postgres_test_harness.Metadata.Decimal.{int_eq}
use postgres_test_harness.Stale.Classify.{
  CleanupReport, total_dropped, empty_report, CleanupClassification, ignore, unrecognized, fresh,
  candidate, classify_cleanup_record, revalidated, revalidate_cleanup_candidate, record_eq,
}
use postgres_test_harness.Stale.Pass.{
  finish_locked_cleanup, counted, clean_record, clean_records, cleanup_stale_blocking,
  cleanup_candidate_after_lock, looked_up, locked, handle, unlock_and_count, drop_revalidated,
  dropped, Locked, Passed, continue_with, listed,
}
use postgres_test_harness.Stale.Revalidation.{candidate-name}

-- All of a report's counts.
abbrev pub examined : CleanupReport → ℕ
examined r = total_dropped r + r.skipped_active + r.skipped_fresh + r.skipped_unrecognized

-- A report with at most `n` more than `r`, unless the pass has failed; never a panic.
abbrev AtMost : ℕ → Attempt CleanupReport → Type 0
AtMost n (returns (ok report)) = examined report ≤ n
AtMost n (returns (err e)) = Unit {0}
AtMost n _ = ⊥

-- What the locked part leaves to be counted.
abbrev Countable : ℕ → Attempt (Option DatabaseKind) × CleanupReport → Type 0
Countable n (returns (ok (some kind)), report) = examined report ≤ n
Countable n (returns (ok none), report) = examined report ≤ suc n
Countable n (returns (err e), report) = Unit {0}
Countable n (_, report) = ⊥

counted-AtMost :
    (n : ℕ) (report : CleanupReport) (r : Result (Option DatabaseKind)) (u : Result (Unit {0}))
    → Countable n (returns r, report)
    → AtMost (suc n) (returns (counted report (finish_locked_cleanup r u)))
unfolding counted finish_locked_cleanup total_dropped
counted-AtMost n report (ok none) (ok x) h = h
counted-AtMost n report (ok (some test_kind)) (ok x) h = omega arith
counted-AtMost n report (ok (some template_kind)) (ok x) h = omega arith
counted-AtMost n report (ok o) (err e) h = tt
counted-AtMost n report (err e) u h = tt

abbrev Refused : ℕ → Option DatabaseName × CleanupReport → Type 0
Refused n (some name, after) = examined after ≤ n
Refused n (none, after) = examined after ≤ suc n

revalidated-counts :
    (same : Bool) (key : ℤ) (report : CleanupReport) (c : CleanupClassification)
    → Refused (examined report) (revalidated same key report c)
unfolding revalidated total_dropped
revalidated-counts same key report ignore = omega arith
revalidated-counts same key report unrecognized = omega arith
revalidated-counts same key report fresh = omega arith
revalidated-counts same key report (candidate name k) = by_test (same && int_eq k key)
  where
    by_test :
        (b : Bool) → Refused (examined report) (if b then (some name, report) else (none, report))
    by_test true = omega arith
    by_test false = omega arith

module _ (pg : Postgres) (timeout : ℕ) (project : ProjectName) (now stale_after : ℕ) where
  dropped-counts :
      (n : ℕ) (p : Option DatabaseName × CleanupReport) (w : pg.World)
      → Refused n p
      → Countable n (drop_revalidated pg timeout project now stale_after p w).0
  unfolding drop_database
  dropped-counts n (none, report) w h = h
  dropped-counts n (some name, report) w h = by_drop (drop_database pg timeout name w)
    where
      by_drop :
          (r : Result (Unit {0}) × pg.World)
          → Countable n (dropped pg timeout project now stale_after name report r).0
      by_drop (ok x, v) = h
      by_drop (err e, v) = tt

  looked_up-counts :
      (snapshot : DatabaseRecord) (key : ℤ) (report : CleanupReport)
      (found : Result (Option DatabaseRecord) × pg.World)
      → Countable
          (examined report)
          (looked_up pg timeout project now stale_after snapshot key report found).0
  unfolding revalidate_cleanup_candidate total_dropped
  looked_up-counts snapshot key report (err e, w) = tt
  looked_up-counts snapshot key report (ok none, w) = omega arith
  looked_up-counts snapshot key report (ok (some current), w) =
      dropped-counts (examined report)
        (revalidated (record_eq current snapshot) key report
          (classify_cleanup_record project now stale_after current))
        w
        (revalidated-counts (record_eq current snapshot) key report
          (classify_cleanup_record project now stale_after current))

  under_lock-counts :
      (r : DatabaseRecord) (name : DatabaseName) (key : ℤ) (report : CleanupReport) (w : pg.World)
      → from_existing project r.name ≡ some name
      → Countable
          (examined report)
          (cleanup_candidate_after_lock pg timeout project now stale_after r key report w).0
  unfolding cleanup_candidate_after_lock
  under_lock-counts r name key report w h = rw h (looked_up-counts r key report _)

  unlocked-counts :
      (n : ℕ) (key : ℤ) (l : Locked pg timeout project now stale_after)
      → Countable n l.0
      → AtMost (suc n) (unlock_and_count pg timeout project now stale_after key l).0
  unlocked-counts n key ((returns r, report), w) h = counted-AtMost n report r _ h
  unlocked-counts n key ((waits, report), w) h = h
  unlocked-counts n key ((panics, report), w) h = h

  record-counts :
      (r : DatabaseRecord) (report : CleanupReport) (w : pg.World)
      → AtMost
          (suc (examined report))
          (clean_record pg timeout project now stale_after r report w).0
  unfolding clean_record classify_cleanup_record total_dropped
  record-counts r report w = by_class (classify_cleanup_record project now stale_after r) refl
    where
      by_lock :
          (name : DatabaseName) (key : ℤ) (b : Result Bool × pg.World)
          → from_existing project r.name ≡ some name
          → AtMost
              (suc (examined report))
              (locked pg timeout project now stale_after r key report b).0
      by_lock name key (err e, v) h = tt
      by_lock name key (ok false, v) h = omega arith
      by_lock name key (ok true, v) h =
          unlocked-counts (examined report) key _ (under_lock-counts r name key report v h)

      by_class :
          (c : CleanupClassification)
          → classify_cleanup_record project now stale_after r ≡ c
          → AtMost
              (suc (examined report))
              (handle pg timeout project now stale_after c r report w).0
      by_class ignore e = omega arith
      by_class unrecognized e = omega arith
      by_class fresh e = omega arith
      by_class (candidate name key) e = by_lock name key _ (
          candidate-name project now stale_after (from_existing project r.name) r.comment name key
            e)

  AtMost-mono : (a b : ℕ) (r : Attempt CleanupReport) → a ≤ b → AtMost a r → AtMost b r
  unfolding total_dropped
  AtMost-mono a b (returns (ok report)) le h = omega arith
  AtMost-mono a b (returns (err e)) le h = tt
  AtMost-mono a b waits le h = h
  AtMost-mono a b panics le h = h

  continue_with-counts :
      (n k : ℕ) (rest : CleanupReport → pg.World → Passed pg timeout project now stale_after)
      (p : Passed pg timeout project now stale_after)
      → ((report : CleanupReport) (v : pg.World) → AtMost (examined report + k) (rest report v).0)
      → AtMost n p.0
      → AtMost (n + k) (continue_with pg timeout project now stale_after rest p).0
  unfolding total_dropped
  continue_with-counts n k rest (returns (ok report), v) later h =
      AtMost-mono (examined report + k) (n + k) _ (omega arith) (later report v)
  continue_with-counts n k rest (returns (err e), v) later h = tt
  continue_with-counts n k rest (waits, v) later h = h
  continue_with-counts n k rest (panics, v) later h = h

  records-counts :
      (records : List DatabaseRecord) (report : CleanupReport) (w : pg.World)
      → AtMost
          (examined report + length records)
          (clean_records pg timeout project now stale_after records report w).0
  unfolding clean_records total_dropped
  records-counts [] report w = omega arith
  records-counts (r ∷ rs) report w =
      AtMost-mono (suc (examined report) + length rs) (examined report + suc (length rs)) _
        (omega arith)
        (continue_with-counts (suc (examined report)) (length rs) _ _ (records-counts rs)
          (record-counts r report w))

  -- When a pass over listed records ends with a report, its counts add up to at most the number
  -- of records.
  pub report_is_bounded :
      (records : List DatabaseRecord) (report : CleanupReport) (w v : pg.World)
      → clean_records pg timeout project now stale_after records empty_report w
        ≡ (returns (ok report), v)
      → examined report ≤ length records
  unfolding total_dropped
  report_is_bounded records report w v h =
      subst (λ p. AtMost (length records) p.0) h
        (AtMost-mono (examined empty_report + length records) (length records) _ (omega arith)
          (records-counts records empty_report w))

  -- The stale pass ends, with a report or an error, and never panics: the `expect` on a candidate's
  -- name cannot fail.
  pub pass_never_panics :
      (w : pg.World)
      → (r : Result CleanupReport) × ((cleanup_stale_blocking pg timeout project now stale_after
            w).0
          ≡ returns r)
  unfolding cleanup_stale_blocking
  pass_never_panics w = by_listing (list_databases pg timeout w)
    where
      result_of :
          (n : ℕ) (a : Attempt CleanupReport)
          → AtMost n a
          → (r : Result CleanupReport) × (a ≡ returns r)
      result_of n (returns r) h = (r, refl)
      result_of n waits h = elim h [ ]
      result_of n panics h = elim h [ ]

      by_listing :
          (found : Result (List DatabaseRecord) × pg.World)
          → (r : Result CleanupReport) × ((listed pg timeout project now stale_after found).0
              ≡ returns r)
      by_listing (err e, v) = (err e, refl)
      by_listing (ok records, v) = result_of _ _ (records-counts records empty_report v)
