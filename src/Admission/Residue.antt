-- ===== src/Admission/Residue.antt =====
-- src/admin.rs: a creation that reports no residue has left the server's databases as they were.
use postgres_test_harness.Base.{
  ℕ, ◌≡◌, ◌≢◌, refl, sym, ap, ◌∙◌, ◌⊎◌, inl, inr, false, arith, Text, text, text_eq, text_eq_sound,
  text_eq_refl, Bool-cases, db_error, other_error, Error, invalid_database_name, Result, ok, err,
}
use postgres_test_harness.Semaphore.{Semaphore}
use postgres_test_harness.Name.{DatabaseName}
use postgres_test_harness.Base.{subst}
use postgres_test_harness.Metadata.Resource.{ResourceMetadata, encode}
use postgres_test_harness.Admin.Statements.{
  quote_identifier, create_statement, drop_statement, comment_statement,
}
use postgres_test_harness.Admin.Postgres.{
  Postgres, IsPostgres, Response, completed, refused, timed_out,
}
use postgres_test_harness.Admin.Client.{
  run_admin_operation, create_quoted, create_database, drop_database, set_database_metadata,
}
use postgres_test_harness.Admission.{
  DatabaseAdmission, ManagedDatabaseCreationFailure, no_residual, residual_possible, CreationResult,
  failed_creation, is_closed,
}
use postgres_test_harness.Admission.Laws.{may_leave, attempt_refused, attempt_admitted}
use postgres_test_harness.Admission.Creation.{
  classify_database_creation_failure, compensate_failed_metadata_write, tag_failed, tagged, tag,
  attempt_managed_database_creation, create_managed_database_classified,
}

-- The databases of one state are those of another.
abbrev pub SameDatabases : (pg : Postgres) → pg.World → pg.World → Type 0
SameDatabases pg w v = (m : Text) → pg.has m v ≡ pg.has m w

-- The same, but for one name.
abbrev pub SameOthers : (pg : Postgres) → Text → pg.World → pg.World → Type 0
SameOthers pg n w v = (m : Text) → m ≢ n → pg.has m v ≡ pg.has m w

-- A failure that claims no residue, or anything else.
abbrev IsClean : (pg : Postgres) → pg.World → CreationResult × pg.World → Type 0
IsClean pg w (failed_creation (no_residual e), v) = SameDatabases pg w v
IsClean pg w _ = Unit {0}

pub Text-cases : (s t : Text) → (s ≡ t) ⊎ (s ≢ t)
Text-cases s t = elim (Bool-cases (text_eq s t)) [
  | inl e ↦ inl (text_eq_sound s t e)
  | inr e ↦ inr (λ p. cc (sym e ∙ ap (text_eq s) (sym p) ∙ text_eq_refl s))
]

pub pair :
    {A : Type 0} {B : Type 0} {a c : A} {b d : B} → a ≡ c → b ≡ d → ◌≡◌ {A = A × B} (a, b) (c, d)
pair p q = rw (p, q) refl

quote_identifier-err :
    (t : Text) (e : Error) → quote_identifier t ≡ err e → e ≡ invalid_database_name t
unfolding quote_identifier
quote_identifier-err t e h = ground arith

module _ (pg : Postgres) (law : IsPostgres pg) (timeout : ℕ) (name : DatabaseName) (w : pg.World)
    (fresh : pg.has name.value w ≡ false) where
  same_all :
      (v : pg.World)
      → SameOthers pg name.value w v
      → pg.has name.value v ≡ false
      → SameDatabases pg w v
  same_all v others gone m = elim (Text-cases m name.value) [
    | inl e ↦ rw e (gone ∙ sym fresh)
    | inr n ↦ others m n
  ]

  dropped-IsClean :
      (tagging : Error) (v : pg.World)
      → SameOthers pg name.value w v
      → IsClean pg w (tag_failed pg timeout tagging (drop_database pg timeout name v))
  unfolding drop_database run_admin_operation compensate_failed_metadata_write
  dropped-IsClean tagging v others = by_response (pg.batch_execute (drop_statement name) v).0 refl
    where
      by_response :
          (r : Response (Unit {0}))
          → (pg.batch_execute (drop_statement name) v).0 ≡ r
          → IsClean pg w (
              tag_failed pg timeout tagging (
                run_admin_operation timeout (text "drop disposable PostgreSQL database") r,
                (pg.batch_execute (drop_statement name) v).1,
              ))
      by_response (completed tt) e =
          same_all _ (λ m n. law.drop_others name v m n ∙ others m n) (law.drop_done name v e)
      by_response (refused s) e = tt
      by_response timed_out e = tt

  tagged-IsClean :
      (metadata : ResourceMetadata) (v : pg.World)
      → SameOthers pg name.value w v
      → IsClean pg w (tagged pg timeout name (set_database_metadata pg timeout name metadata v))
  unfolding set_database_metadata run_admin_operation
  tagged-IsClean metadata v others =
      by_response (pg.batch_execute (comment_statement name (encode metadata)) v).0
    where
      still :
          SameOthers pg name.value w
            (pg.batch_execute (comment_statement name (encode metadata)) v).1
      still m n = law.comment_keeps name (encode metadata) v m ∙ others m n

      by_response :
          (r : Response (Unit {0}))
          → IsClean pg w (
              tagged pg timeout name (
                run_admin_operation timeout
                    (text "write disposable PostgreSQL database metadata")
                    r,
                (pg.batch_execute (comment_statement name (encode metadata)) v).1,
              ))
      by_response (completed tt) = tt
      by_response (refused s) = dropped-IsClean _ _ still
      by_response timed_out = dropped-IsClean _ _ still

  attempt-IsClean :
      (template_name : Text) (metadata : ResourceMetadata)
      → IsClean pg w (attempt_managed_database_creation pg timeout name template_name metadata w)
  unfolding attempt_managed_database_creation create_database run_admin_operation
      classify_database_creation_failure
  attempt-IsClean template_name metadata = by_identifier (quote_identifier template_name) refl
    where
      by_response :
          (t : Text) (r : Response (Unit {0}))
          → (pg.batch_execute (create_statement name t) w).0 ≡ r
          → IsClean pg w (
              tag pg timeout name metadata (
                run_admin_operation timeout (text "create disposable PostgreSQL database") r,
                (pg.batch_execute (create_statement name t) w).1,
              ))
      by_response t (completed tt) e = tagged-IsClean metadata _ (law.create_others name t w)
      by_response t (refused (db_error k)) e = law.create_refused name t w k e
      by_response t (refused (other_error k)) e = tt
      by_response t timed_out e = tt

      by_identifier :
          (q : Result Text)
          → quote_identifier template_name ≡ q
          → IsClean pg w (tag pg timeout name metadata (create_quoted pg timeout name q w))
      by_identifier (err e) h = rw (quote_identifier-err template_name e h) tt
      by_identifier (ok t) h = by_response t (pg.batch_execute (create_statement name t) w).0 refl

  -- On a server where PostgreSQL's behaviour holds and the database's name is free: when creating
  -- the managed database ends in a failure that is tagged as leaving no residue, every database
  -- exists after it exactly if it existed before.
  pub no_residue_is_clean :
      (template_name : Text) (metadata : ResourceMetadata) (e : Error) (v : pg.World)
      → attempt_managed_database_creation pg timeout name template_name metadata w
        ≡ (failed_creation (no_residual e), v)
      → (m : Text) → pg.has m v ≡ pg.has m w
  no_residue_is_clean template_name metadata e v h =
      subst (IsClean pg w) h (attempt-IsClean template_name metadata)

  -- On a server that meets PostgreSQL's laws on databases, for any admission and a name that no
  -- database has yet: when the server's creation of a database of that name fails and the admission
  -- is open afterwards, every database exists after it exactly if it existed before.
  pub open_after_failure_is_clean :
      (sem : Semaphore) (a b : DatabaseAdmission sem) (template_name : Text)
      (metadata : ResourceMetadata) (f : ManagedDatabaseCreationFailure) (v : pg.World)
      → create_managed_database_classified pg timeout sem name template_name metadata (a, w)
        ≡ (failed_creation f, (b, v))
      → is_closed sem b ≡ false
      → (m : Text) → pg.has m v ≡ pg.has m w
  unfolding create_managed_database_classified
  open_after_failure_is_clean sem a b template_name metadata f v h opened =
      elim (Bool-cases (is_closed sem a)) [
        | inl shut ↦ λ m. ap (λ r. pg.has m r.1.1) (sym h ∙ attempt_refused sem operation a w shut)
        | inr admitted ↦
            by_failure f (subst Admitted h (attempt_admitted sem operation a w admitted))
      ]
    where
      operation : pg.World → CreationResult × pg.World
      operation = attempt_managed_database_creation pg timeout name template_name metadata

      Admitted : CreationResult × (DatabaseAdmission sem × pg.World) → Type 0
      Admitted (r, (c, u)) =
          (r ≡ (operation w).0) × (u ≡ (operation w).1) × (is_closed sem c ≡ may_leave r)

      by_failure :
          (g : ManagedDatabaseCreationFailure)
          → Admitted (failed_creation g, (b, v))
          → (m : Text) → pg.has m v ≡ pg.has m w
      by_failure (no_residual e) (p, q, c) =
          no_residue_is_clean template_name metadata e v (sym (pair p q))
      by_failure (residual_possible e) (p, q, c) = λ m. cc (sym opened ∙ c)
