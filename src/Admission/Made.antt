-- ===== src/Admission/Made.antt =====
-- src/admin.rs and src/server.rs: a creation of a managed database that succeeds has made it.
use postgres_test_harness.Base.{
  ℕ, ◌≡◌, inl, inr, refl, sym, ◌∙◌, subst, Bool-cases, true, Text, text, Result, ok, err,
}
use postgres_test_harness.Semaphore.{Semaphore}
use postgres_test_harness.Metadata.Resource.{ResourceMetadata}
use postgres_test_harness.Name.{DatabaseName}
use postgres_test_harness.Metadata.Resource.{encode}
use postgres_test_harness.Admin.Statements.{quote_identifier, create_statement, comment_statement}
use postgres_test_harness.Admin.Client.{
  create_quoted, create_database, set_database_metadata, run_admin_operation,
}
use postgres_test_harness.Admin.Postgres.{
  Postgres, IsPostgres, Response, completed, refused, timed_out,
}
use postgres_test_harness.Admission.{
  DatabaseAdmission, CreationResult, created, failed_creation, is_closed,
}
use postgres_test_harness.Admission.Laws.{attempt_refused, attempt_admitted}
use postgres_test_harness.Admission.Creation.{
  create_managed_database_classified, attempt_managed_database_creation, tag, tagged,
}
use postgres_test_harness.Admission.Residue.{pair}

module _ (pg : Postgres) (law : IsPostgres pg) (timeout : ℕ) (name : DatabaseName) where
  -- A creation that succeeds has made its database.
  unfoldable pub Made : CreationResult × pg.World → Type 0
  Made (created, v) = pg.has name.value v ≡ true
  Made (failed_creation f, v) = Unit {0}

  tagged-Made :
      (metadata : ResourceMetadata) (v : pg.World)
      → pg.has name.value v ≡ true
      → Made (tagged pg timeout name (set_database_metadata pg timeout name metadata v))
  unfolding set_database_metadata Made
  tagged-Made metadata v h = by_answer (
      run_admin_operation timeout (text "write disposable PostgreSQL database metadata")
        (pg.batch_execute (comment_statement name (encode metadata)) v).0)
    where
      by_answer :
          (r : Result (Unit {0}))
          → Made (
              tagged pg timeout name
                (r, (pg.batch_execute (comment_statement name (encode metadata)) v).1))
      by_answer (ok _) = law.comment_keeps name (encode metadata) v name.value ∙ h
      by_answer (err e) = tt

  attempt-Made :
      (template_name : Text) (metadata : ResourceMetadata) (w : pg.World)
      → Made (attempt_managed_database_creation pg timeout name template_name metadata w)
  unfolding attempt_managed_database_creation create_database run_admin_operation Made
  attempt-Made template_name metadata w = by_identifier (quote_identifier template_name)
    where
      by_response :
          (t : Text) (r : Response (Unit {0}))
          → (pg.batch_execute (create_statement name t) w).0 ≡ r
          → Made (
              tag pg timeout name metadata (
                run_admin_operation timeout (text "create disposable PostgreSQL database") r,
                (pg.batch_execute (create_statement name t) w).1,
              ))
      by_response t (completed tt) e = tagged-Made metadata _ (law.create_done name t w e)
      by_response t (refused s) e = tt
      by_response t timed_out e = tt

      by_identifier :
          (q : Result Text)
          → Made (tag pg timeout name metadata (create_quoted pg timeout name q w))
      by_identifier (err e) = tt
      by_identifier (ok t) = by_response t (pg.batch_execute (create_statement name t) w).0 refl

  pub managed-Made :
      (sem : Semaphore) (template_name : Text) (metadata : ResourceMetadata)
      (a : DatabaseAdmission sem) (w : pg.World)
      → let (r, (b, v)) =
          create_managed_database_classified pg timeout sem name template_name metadata (a, w) in
        Made (r, v)
  unfolding create_managed_database_classified Made
  managed-Made sem template_name metadata a w = elim (Bool-cases (is_closed sem a)) [
    | inl shut ↦ subst (λ x. Made (x.0, x.1.1)) (sym (attempt_refused sem operation a w shut)) tt
    | inr admitted ↦
        let (p, x, _) = attempt_admitted sem operation a w admitted in
        subst Made (sym (pair p x)) (attempt-Made template_name metadata w)
  ]
    where
      operation : pg.World → CreationResult × pg.World
      operation = attempt_managed_database_creation pg timeout name template_name metadata
