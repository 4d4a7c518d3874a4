-- ===== src/Admission/Others.antt =====
-- src/admin.rs and src/server.rs: creating a database touches no other.
use postgres_test_harness.Base.{
  ℕ, ◌≡◌, ◌≢◌, refl, ◌∙◌, ap, sym, Error, Bool-cases, inl, inr, false, Text, Result, ok, err,
}
use postgres_test_harness.Semaphore.{Semaphore}
use postgres_test_harness.Name.{DatabaseName}
use postgres_test_harness.Metadata.Resource.{ResourceMetadata, encode}
use postgres_test_harness.Admin.Statements.{quote_identifier}
use postgres_test_harness.Admin.Postgres.{Postgres, IsPostgres}
use postgres_test_harness.Admin.Client.{
  create_quoted, create_database, drop_database, set_database_metadata,
}
use postgres_test_harness.Admission.{
  DatabaseAdmission, CreationResult, failed_creation, no_residual, is_closed,
}
use postgres_test_harness.Admission.Laws.{attempt_refused, attempt_admitted}
use postgres_test_harness.Admission.Creation.{
  tag, tagged, attempt_managed_database_creation, create_managed_database_classified,
}
use postgres_test_harness.Admission.Residue.{no_residue_is_clean, pair}

module _ (pg : Postgres) (law : IsPostgres pg) (timeout : ℕ) (name : DatabaseName) (m : Text)
    (other : m ≢ name.value) where
  tag_keeps :
      (metadata : ResourceMetadata) (r : Result (Unit {0})) (w : pg.World)
      → pg.has m (tag pg timeout name metadata (r, w)).1 ≡ pg.has m w
  unfolding set_database_metadata drop_database
  tag_keeps metadata (err e) w = refl
  tag_keeps metadata (ok _) w =
      by_tagging (set_database_metadata pg timeout name metadata w).0 _
      ∙ law.comment_keeps name (encode metadata) w m
    where
      by_tagging :
          (r : Result (Unit {0})) (v : pg.World)
          → pg.has m (tagged pg timeout name (r, v)).1 ≡ pg.has m v
      by_tagging (ok _) v = refl
      by_tagging (err e) v = law.drop_others name v m other

  quoted_keeps :
      (t : Result Text) (w : pg.World) → pg.has m (create_quoted pg timeout name t w).1 ≡ pg.has m w
  quoted_keeps (ok t) w = law.create_others name t w m other
  quoted_keeps (err e) w = refl

  -- However it ends, a managed creation leaves every other database as it was.
  pub managed_keeps :
      (sem : Semaphore) (template_name : Text) (metadata : ResourceMetadata)
      (a : DatabaseAdmission sem) (w : pg.World)
      → pg.has m
          (create_managed_database_classified pg timeout sem name template_name metadata (a, w)).1.1
        ≡ pg.has m w
  unfolding create_managed_database_classified attempt_managed_database_creation create_database
  managed_keeps sem template_name metadata a w = elim (Bool-cases (is_closed sem a)) [
    | inl shut ↦ ap (λ r. pg.has m r.1.1) (attempt_refused sem operation a w shut)
    | inr admitted ↦
        let (_, x, _) = attempt_admitted sem operation a w admitted in
        ap (pg.has m) x ∙ (tag_keeps metadata _ _ ∙ quoted_keeps (quote_identifier template_name) w)
  ]
    where
      operation : pg.World → CreationResult × pg.World
      operation = attempt_managed_database_creation pg timeout name template_name metadata

module _ (pg : Postgres) (law : IsPostgres pg) (timeout : ℕ) (name : DatabaseName) (w : pg.World)
    (fresh : pg.has name.value w ≡ false) where
  -- A managed creation that reports no residue, refused by the admission or not, has left every
  -- database as it was.
  pub managed_is_clean :
      (sem : Semaphore) (template_name : Text) (metadata : ResourceMetadata)
      (a : DatabaseAdmission sem) (e : Error)
      → (create_managed_database_classified pg timeout sem name template_name metadata (a, w)).0
        ≡ failed_creation (no_residual e)
      → (m : Text)
      → pg.has m
          (create_managed_database_classified pg timeout sem name template_name metadata (a, w)).1.1
        ≡ pg.has m w
  unfolding create_managed_database_classified
  managed_is_clean sem template_name metadata a e h m = elim (Bool-cases (is_closed sem a)) [
    | inl shut ↦ ap (λ r. pg.has m r.1.1) (attempt_refused sem operation a w shut)
    | inr admitted ↦
        let (p, x, _) = attempt_admitted sem operation a w admitted in
        ap (pg.has m) x
        ∙ no_residue_is_clean pg law timeout name w fresh template_name metadata e _
            (pair (sym p ∙ h) refl) m
  ]
    where
      operation : pg.World → CreationResult × pg.World
      operation = attempt_managed_database_creation pg timeout name template_name metadata
