-- ===== src/Initialization/Made.antt =====
-- src/admin.rs and src/harness.rs: a database that is made, changed or dropped keeps the session's
-- locks.
use postgres_test_harness.Base.{
  ℕ, ◌≡◌, refl, ◌∙◌, inl, inr, Bool-cases, List, Text, text, Option, none, some, Result, ok, err,
}
use postgres_test_harness.Name.{DatabaseName}
use postgres_test_harness.Semaphore.{Semaphore}
use postgres_test_harness.Metadata.Resource.{ResourceMetadata, encode, new_template, initializing}
use postgres_test_harness.Stale.Classify.{metadata_of}
use postgres_test_harness.Admin.Action.{Post}
use postgres_test_harness.Admin.Statements.{
  Statement, create_statement, drop_statement, comment_statement, quote_identifier,
}
use postgres_test_harness.Admin.Postgres.{Postgres, Response, completed, refused, timed_out, Row}
use postgres_test_harness.Admin.Client.{
  DatabaseRecord, record_of, map_option, map_result, find_database, create_quoted, create_database,
  drop_database, set_database_metadata, run_admin_operation,
}
use postgres_test_harness.Admin.Tracking.{Tracks, Lock, held_after}
use postgres_test_harness.Admin.Configured.{run-Post}
use postgres_test_harness.Admission.{
  DatabaseAdmission, CreationResult, created, failed_creation, is_closed,
}
use postgres_test_harness.Admission.Laws.{attempt_refused, attempt_admitted}
use postgres_test_harness.Admission.Creation.{
  tag, tagged, attempt_managed_database_creation, create_managed_database_classified,
}
use postgres_test_harness.Initialization.{
  TemplateRequest, TemplateSource, source_name, as_result, create, drop_recoverable,
  is_recoverable_metadata,
}
use postgres_test_harness.Initialization.Locking.{Holds}

module _ (pg : Postgres) (track : Tracks pg) (locks : List Lock) (timeout : ℕ) where
  pub executed-Post :
      (s : Statement) (operation : Text)
      → ((n : ℕ) → held_after s n ≡ n)
      → (w : pg.World) → Holds pg track locks w
      → Post
          (λ _. Holds pg track locks)
          (run_admin_operation timeout operation (pg.batch_execute s w).0, (pg.batch_execute s w).1)
  executed-Post s operation same w h =
      run-Post _ timeout operation (pg.batch_execute s w).0 _
        (λ _ c m. track.execute_held s w c m ∙ same _ ∙ h m)

  pub find_database-Post :
      (name : DatabaseName) (w : pg.World)
      → Holds pg track locks w
      → Post (λ _. Holds pg track locks) (find_database pg timeout name w)
  unfolding find_database run_admin_operation
  find_database-Post name w h = by_response (pg.query_database name.value w).0 refl
    where
      by_response :
          (r : Response (Option Row))
          → (pg.query_database name.value w).0 ≡ r
          → Post
              (λ _. Holds pg track locks)
              (
                map_result
                    (map_option record_of)
                    (run_admin_operation timeout (text "find disposable PostgreSQL database") r),
                (pg.query_database name.value w).1,
              )
      by_response (completed r) c = λ m. track.query_held _ w r c m ∙ h m
      by_response (refused s) c = tt
      by_response timed_out c = tt

  -- A creation that succeeds has kept the locks.
  abbrev Made : CreationResult → pg.World → Type 0
  Made created v = Holds pg track locks v
  Made (failed_creation f) v = Unit {0}

  tagged-Made :
      (name : DatabaseName) (r : Result (Unit {0})) (v : pg.World)
      → Post (λ _. Holds pg track locks) (r, v)
      → Made (tagged pg timeout name (r, v)).0 (tagged pg timeout name (r, v)).1
  tagged-Made name (ok _) v h = h
  tagged-Made name (err e) v h = tt

  tag-Made :
      (name : DatabaseName) (metadata : ResourceMetadata) (r : Result (Unit {0})) (v : pg.World)
      → Post (λ _. Holds pg track locks) (r, v)
      → Made (tag pg timeout name metadata (r, v)).0 (tag pg timeout name metadata (r, v)).1
  unfolding set_database_metadata
  tag-Made name metadata (ok _) v h = tagged-Made name _ _ (
      executed-Post (comment_statement name (encode metadata))
        (text "write disposable PostgreSQL database metadata") (λ n. refl) v h)
  tag-Made name metadata (err e) v h = tt

  create_quoted-Post :
      (name : DatabaseName) (t : Result Text) (w : pg.World)
      → Holds pg track locks w
      → Post (λ _. Holds pg track locks) (create_quoted pg timeout name t w)
  create_quoted-Post name (ok t) w h =
      executed-Post (create_statement name t) (text "create disposable PostgreSQL database")
        (λ n. refl) w h
  create_quoted-Post name (err e) w h = tt

  attempt-Made :
      (name : DatabaseName) (template_name : Text) (metadata : ResourceMetadata) (w : pg.World)
      → Holds pg track locks w
      → let (r, v) = attempt_managed_database_creation pg timeout name template_name metadata w in
        Made r v
  unfolding attempt_managed_database_creation create_database
  attempt-Made name template_name metadata w h =
      tag-Made name metadata _ _ (create_quoted-Post name (quote_identifier template_name) w h)

  module _ (clock : pg.World → ℕ) (q : TemplateRequest) where
    pub drop-Post :
        (w : pg.World)
        → Holds pg track locks w
        → Post (λ _. Holds pg track locks) (drop_database pg timeout q.name w)
    unfolding drop_database
    drop-Post w h =
        executed-Post (drop_statement q.name) (text "drop disposable PostgreSQL database")
          (λ n. refl) w h

    pub drop_recoverable-Post :
        (found : Option DatabaseRecord) (w : pg.World)
        → Holds pg track locks w
        → Post (λ _. Holds pg track locks) (drop_recoverable pg timeout clock q found w)
    drop_recoverable-Post none w h = h
    drop_recoverable-Post (some r) w h =
        elim (Bool-cases (is_recoverable_metadata q (metadata_of r.comment))) [
          | inl e ↦ rw e (drop-Post w h)
          | inr e ↦ rw e tt
        ]

    module _ (sem : Semaphore) (source : TemplateSource) (now : ℕ) where
      pub create-Post :
          (a : DatabaseAdmission sem) (w : pg.World)
          → Holds pg track locks w
          → Post (λ _ s. Holds pg track locks s.1) (create pg timeout clock q sem source now (a, w))
      unfolding create_managed_database_classified
      create-Post a w h = elim (Bool-cases (is_closed sem a)) [
        | inl shut ↦ rw (attempt_refused sem operation a w shut) tt
        | inr admitted ↦
            let (p, x, _) = attempt_admitted sem operation a w admitted in
            made _ _ _ (rw (p, x) (attempt-Made q.name _ _ w h))
      ]
        where
          operation : pg.World → CreationResult × pg.World
          operation =
              attempt_managed_database_creation pg timeout q.name (source_name source)
                (new_template now q.project q.lock_key q.identity initializing)

          made :
              (r : CreationResult) (b : DatabaseAdmission sem) (v : pg.World)
              → Made r v
              → Post
                  (λ _ (s : DatabaseAdmission sem × pg.World). Holds pg track locks s.1)
                  (as_result r, (b, v))
          made created b v h = h
          made (failed_creation f) b v h = tt
