-- ===== src/Stale/Spared.antt =====
-- src/harness.rs: which databases the stale pass leaves alone.
use postgres_test_harness.Base.{
  ℕ, ◌≡◌, ◌≢◌, refl, sym, ap, ◌∙◌, inl, inr, Bool, true, false, not, List, [], ◌∷◌, all, arith,
  Text, text, text_eq, text_eq_sound, text_eq_refl, Bool-cases, Option, none, some, Result, ok, err,
  waits, panics, returns,
}
use postgres_test_harness.Config.Project.{ProjectName}
use postgres_test_harness.Name.{DatabaseName, from_existing}
use postgres_test_harness.Metadata.Decimal.{ℤ}
use postgres_test_harness.Name.Laws.{from_existing_sound}
use postgres_test_harness.Admin.Statements.{drop_statement}
use postgres_test_harness.Admin.Postgres.{
  Postgres, IsPostgres, Response, completed, refused, timed_out, unlock,
}
use postgres_test_harness.Admin.Client.{
  run_admin_operation, DatabaseRecord, find_database, drop_database, list_databases,
  try_acquire_advisory_lock, release_advisory_lock,
}
use postgres_test_harness.Stale.Classify.{
  CleanupReport, empty_report, CleanupClassification, ignore, unrecognized, fresh, candidate,
  classify_cleanup_record, revalidate_cleanup_candidate,
}
use postgres_test_harness.Stale.Pass.{
  clean_record, clean_records, cleanup_stale_blocking, cleanup_candidate_after_lock, looked_up,
  named, locked, handle, unlock_and_count, drop_revalidated, dropped, Locked, Passed, continue_with,
  listed,
}
use postgres_test_harness.Stale.Revalidation.{revalidate_sound, candidate-name}

-- Whether a classification makes a candidate of the database of a name.
abbrev names : Text → CleanupClassification → Bool
names m (candidate name key) = text_eq name.value m
names m _ = false

names-candidate :
    (m : Text) (c : CleanupClassification) (name : DatabaseName) (key : ℤ)
    → c ≡ candidate name key
    → names m c ≡ false
    → m ≢ name.value
names-candidate m c name key e h p =
    cc (sym h ∙ ap (names m) e ∙ ap (text_eq name.value) p ∙ text_eq_refl name.value)

foreign_names :
    (project : ProjectName) (now stale_after : ℕ) (m : Text) (r : DatabaseRecord)
    → from_existing project m ≡ none
    → names m (classify_cleanup_record project now stale_after r) ≡ false
unfolding classify_cleanup_record
foreign_names project now stale_after m r h =
    by_class (classify_cleanup_record project now stale_after r) refl
  where
    by_class :
        (c : CleanupClassification)
        → classify_cleanup_record project now stale_after r ≡ c
        → names m c ≡ false
    by_class ignore e = refl
    by_class unrecognized e = refl
    by_class fresh e = refl
    by_class (candidate name key) e =
        let found =
          candidate-name project now stale_after (from_existing project r.name) r.comment name key
            e in
        let (value, _, _) = from_existing_sound project r.name name found in
        elim (Bool-cases (text_eq name.value m)) [
          | inl t ↦ cc (
              sym h
              ∙ ap (from_existing project) (sym (text_eq_sound name.value m t) ∙ value)
              ∙ found)
          | inr t ↦ t
        ]

foreign_records :
    (project : ProjectName) (now stale_after : ℕ) (m : Text) (records : List DatabaseRecord)
    → from_existing project m ≡ none
    → all (λ r. not (names m (classify_cleanup_record project now stale_after r))) records ≡ true
foreign_records project now stale_after m [] h = refl
foreign_records project now stale_after m (r ∷ rs) h =
    rw (foreign_names project now stale_after m r h)
      (foreign_records project now stale_after m rs h)

module _ (pg : Postgres) (law : IsPostgres pg) (timeout : ℕ) (project : ProjectName)
    (now stale_after : ℕ) (m : Text) where
  abbrev pub Keeps : {A : Type 0} → pg.World → A × pg.World → Type 0
  Keeps w (a, v) = pg.has m v ≡ pg.has m w

  abbrev concerns : DatabaseRecord → Bool
  concerns r = names m (classify_cleanup_record project now stale_after r)

  pub dropped-Keeps :
      (name : DatabaseName) (report : CleanupReport) (w : pg.World)
      → m ≢ name.value
      → Keeps w (drop_revalidated pg timeout project now stale_after (some name, report) w)
  unfolding drop_database run_admin_operation
  dropped-Keeps name report w n = by_response (pg.batch_execute (drop_statement name) w).0
    where
      by_response :
          (r : Response (Unit {0}))
          → Keeps w (
              dropped pg timeout project now stale_after name report (
                run_admin_operation timeout (text "drop disposable PostgreSQL database") r,
                (pg.batch_execute (drop_statement name) w).1,
              ))
      by_response (completed tt) = law.drop_others name w m n
      by_response (refused s) = law.drop_others name w m n
      by_response timed_out = law.drop_others name w m n

  looked_up-Keeps :
      (snapshot : DatabaseRecord) (key : ℤ) (report : CleanupReport) (w : pg.World)
      (found : Result (Option DatabaseRecord))
      → concerns snapshot ≡ false
      → Keeps w (looked_up pg timeout project now stale_after snapshot key report (found, w))
  looked_up-Keeps snapshot key report w (err e) h = refl
  looked_up-Keeps snapshot key report w (ok current) h =
      by_revalidation
        (revalidate_cleanup_candidate project now stale_after snapshot current key report) refl
    where
      by_revalidation :
          (p : Option DatabaseName × CleanupReport)
          → revalidate_cleanup_candidate project now stale_after snapshot current key report ≡ p
          → Keeps w (drop_revalidated pg timeout project now stale_after p w)
      by_revalidation (none, after) e = refl
      by_revalidation (some name, after) e = dropped-Keeps name after w (
          names-candidate m (classify_cleanup_record project now stale_after snapshot) name key
            (revalidate_sound project now stale_after snapshot current key report after name e).1 h)

  unlocked-Keeps :
      (key : ℤ) (w : pg.World) (l : Locked pg timeout project now stale_after)
      → Keeps w l
      → Keeps w (unlock_and_count pg timeout project now stale_after key l)
  unfolding release_advisory_lock
  unlocked-Keeps key w ((returns r, report), v) h = law.lock_keeps unlock key v m ∙ h
  unlocked-Keeps key w ((waits, report), v) h = h
  unlocked-Keeps key w ((panics, report), v) h = h

  under_lock-Keeps :
      (r : DatabaseRecord) (key : ℤ) (report : CleanupReport) (w : pg.World)
      → concerns r ≡ false
      → Keeps w (cleanup_candidate_after_lock pg timeout project now stale_after r key report w)
  unfolding cleanup_candidate_after_lock find_database
  under_lock-Keeps r key report w h = by_name (from_existing project r.name)
    where
      by_name :
          (o : Option DatabaseName)
          → Keeps w (named pg timeout project now stale_after o r key report w)
      by_name none = refl
      by_name (some name) = looked_up-Keeps r key report _ _ h ∙ law.query_keeps name.value w m

  record-Keeps :
      (r : DatabaseRecord) (report : CleanupReport) (w : pg.World)
      → concerns r ≡ false
      → Keeps w (clean_record pg timeout project now stale_after r report w)
  unfolding clean_record try_acquire_advisory_lock
  record-Keeps r report w h = by_class (classify_cleanup_record project now stale_after r)
    where
      by_lock :
          (key : ℤ) (b : Result Bool) (v : pg.World)
          → pg.has m v ≡ pg.has m w
          → Keeps w (locked pg timeout project now stale_after r key report (b, v))
      by_lock key (err e) v k = k
      by_lock key (ok false) v k = k
      by_lock key (ok true) v k = unlocked-Keeps key w _ (under_lock-Keeps r key report v h ∙ k)

      by_class :
          (c : CleanupClassification)
          → Keeps w (handle pg timeout project now stale_after c r report w)
      by_class ignore = refl
      by_class unrecognized = refl
      by_class fresh = refl
      by_class (candidate name key) = by_lock key _ _ (law.try_keeps key w m)

  continue_with-Keeps :
      (rest : CleanupReport → pg.World → Passed pg timeout project now stale_after) (w : pg.World)
      (p : Passed pg timeout project now stale_after)
      → ((report : CleanupReport) (v : pg.World) → Keeps v (rest report v))
      → Keeps w p
      → Keeps w (continue_with pg timeout project now stale_after rest p)
  continue_with-Keeps rest w (returns (ok report), v) keep h = keep report v ∙ h
  continue_with-Keeps rest w (returns (err e), v) keep h = h
  continue_with-Keeps rest w (waits, v) keep h = h
  continue_with-Keeps rest w (panics, v) keep h = h

  -- On a server that meets PostgreSQL's laws: when none of the listed records is a candidate for
  -- dropping under the name `m`, the pass over them leaves it as it is whether a database `m`
  -- exists, however the requests end.
  pub spared_by_records :
      (records : List DatabaseRecord) (report : CleanupReport) (w : pg.World)
      → all (λ r. not (concerns r)) records ≡ true
      → pg.has m (clean_records pg timeout project now stale_after records report w).1 ≡ pg.has m w
  unfolding clean_records
  spared_by_records [] report w h = refl
  spared_by_records (r ∷ rs) report w h =
      continue_with-Keeps (clean_records pg timeout project now stale_after rs) w
        (clean_record pg timeout project now stale_after r report w)
        (λ after v. spared_by_records rs after v (ground arith))
        (record-Keeps r report w (ground arith))

  -- On a server that meets PostgreSQL's laws: whether a database `m` exists is as before the
  -- whole pass when `m` is not a name of the project's namespace, whatever the server answers and
  -- however its requests end.
  pub foreign_is_spared :
      (w : pg.World)
      → from_existing project m ≡ none
      → pg.has m (cleanup_stale_blocking pg timeout project now stale_after w).1 ≡ pg.has m w
  unfolding cleanup_stale_blocking list_databases
  foreign_is_spared w h = by_listing (list_databases pg timeout w).0 ∙ law.list_keeps w m
    where
      by_listing :
          (found : Result (List DatabaseRecord))
          → Keeps
              (pg.query_databases w).1
              (listed pg timeout project now stale_after (found, (pg.query_databases w).1))
      by_listing (err e) = refl
      by_listing (ok records) =
          spared_by_records records empty_report _
            (foreign_records project now stale_after m records h)
