-- ===== src/Initialization/Observed.antt =====
-- src/harness.rs: what a client knows of a template's row, where nobody else changes it.
use postgres_test_harness.Base.{ℕ, ◌≡◌, Bool, true, false, Text, Option}
use postgres_test_harness.Metadata.Decimal.{ℤ}
use postgres_test_harness.Admin.Statements.{timeouts_statement}
use postgres_test_harness.Admin.Postgres.{Postgres, Row, completed, LockCall, unlock}
use postgres_test_harness.Initialization.{TemplateRequest}
use postgres_test_harness.Initialization.Locking.{IsUnlockable}
use postgres_test_harness.Initialization.Inspected.{row_is_ready}

-- What a client may know of a database's row: a query tells it, and its own locking and settings
-- do not change it.
pub record Observes (pg : Postgres) : Type 1 where
  pub sees : Text → Option Row → pg.World → Type 0
  pub query_sees :
      (n : Text) (w : pg.World) (r : Option Row)
      → (pg.query_database n w).0 ≡ completed r
      → sees n r (pg.query_database n w).1
  pub call_sees :
      (c : LockCall) (k : ℤ) (n : Text) (r : Option Row) (w : pg.World)
      → sees n r w
      → sees n r (pg.call_lock c k w).1
  pub timeouts_sees :
      (s l : ℕ) (n : Text) (r : Option Row) (w : pg.World)
      → sees n r w
      → sees n r (pg.batch_execute (timeouts_statement s l) w).1

module _ (pg : Postgres) (seen : Observes pg) (q : TemplateRequest) where
  -- The row that the client has seen is that of the ready template.
  abbrev pub KnowsReady : pg.World → Type 0
  KnowsReady w = (r : Option Row) × seen.sees q.name.value r w × (row_is_ready q r ≡ true)

  abbrev pub Knows : Bool → pg.World → Type 0
  Knows true w = KnowsReady w
  Knows false w = Unit {0}

  pub Knows-IsUnlockable : (b : Bool) → IsUnlockable pg unlock (Knows b)
  Knows-IsUnlockable true k w c (r, s, e) = (r, seen.call_sees unlock k _ r w s, e)
  Knows-IsUnlockable false k w c f = tt

  pub knows :
      (b : Bool) (r : Option Row) (v : pg.World)
      → seen.sees q.name.value r v
      → row_is_ready q r ≡ b
      → Knows b v
  knows true r v s e = (r, s, e)
  knows false r v s e = tt
