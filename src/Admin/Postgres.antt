-- ===== src/Admin/Postgres.antt =====
-- The PostgreSQL server behind a tokio_postgres client: a parameter. Its state is unknown but for
-- which databases it has; the laws are PostgreSQL's documented behaviour.
use postgres_test_harness.Base.{
  ℕ, ◌≡◌, ◌≢◌, Bool, false, true, List, Text, Option, PostgresSource, db_error,
}
use postgres_test_harness.Name.{DatabaseName}
use postgres_test_harness.Metadata.Decimal.{ℤ}
use postgres_test_harness.Admin.Statements.{
  Statement, create_statement, drop_statement, comment_statement, disallow_statement,
  timeouts_statement,
}

-- What a client's request comes to.
pub data Response {ℓ} (A : Type ℓ) : Type ℓ where
  completed : A → Response A
  refused : PostgresSource → Response A
  timed_out : Response A

-- The catalog row of a database: its name and its comment.
abbrev pub Row : Type 0
Row = Text × Option Text

pub data LockCall : Type 0 where
  lock lock_shared unlock unlock_shared : LockCall

pub record Postgres : Type 1 where
  pub World : Type 0
  pub batch_execute : Statement → World → Response (Unit {0}) × World
  pub query_database : Text → World → Response (Option Row) × World
  pub query_databases : World → Response (List Row) × World
  pub try_lock : ℤ → World → Response Bool × World
  pub call_lock : LockCall → ℤ → World → Response (Unit {0}) × World
  -- `current_setting('server_version_num')`, which is never negative, and `uuidv7()`.
  pub server_version : World → Response ℕ × World
  pub uuidv7 : World → Response (Unit {0}) × World
  -- `max_connections`, `reserved_connections` and `superuser_reserved_connections`.
  pub connection_settings : World → Response (ℤ × ℤ × ℤ) × World
  -- Each other session of the database: whether it ended in time.
  pub terminate : Text → ℕ → World → Response (List Bool) × World
  pub has_connections : Text → World → Response Bool × World
  -- Whether a database of this name exists.
  pub has : Text → World → Bool

pub record IsPostgres (pg : Postgres) : Type 0 where
  -- A creation that the server itself refuses has changed nothing.
  pub create_refused :
      (n : DatabaseName) (t : Text) (w : pg.World) (k : ℕ)
      → (pg.batch_execute (create_statement n t) w).0 ≡ refused (db_error k)
      → (m : Text) → pg.has m (pg.batch_execute (create_statement n t) w).1 ≡ pg.has m w
  -- A creation that completes has made the database.
  pub create_done :
      (n : DatabaseName) (t : Text) (w : pg.World)
      → (pg.batch_execute (create_statement n t) w).0 ≡ completed tt
      → pg.has n.value (pg.batch_execute (create_statement n t) w).1 ≡ true
  -- A creation touches no other database.
  pub create_others :
      (n : DatabaseName) (t : Text) (w : pg.World) (m : Text)
      → m ≢ n.value
      → pg.has m (pg.batch_execute (create_statement n t) w).1 ≡ pg.has m w
  -- A drop that completes has removed the database.
  pub drop_done :
      (n : DatabaseName) (w : pg.World)
      → (pg.batch_execute (drop_statement n) w).0 ≡ completed tt
      → pg.has n.value (pg.batch_execute (drop_statement n) w).1 ≡ false
  -- A drop touches no other database.
  pub drop_others :
      (n : DatabaseName) (w : pg.World) (m : Text)
      → m ≢ n.value
      → pg.has m (pg.batch_execute (drop_statement n) w).1 ≡ pg.has m w
  -- No other request creates or removes a database.
  pub comment_keeps :
      (n : DatabaseName) (c : Text) (w : pg.World) (m : Text)
      → pg.has m (pg.batch_execute (comment_statement n c) w).1 ≡ pg.has m w
  pub disallow_keeps :
      (n : DatabaseName) (w : pg.World) (m : Text)
      → pg.has m (pg.batch_execute (disallow_statement n) w).1 ≡ pg.has m w
  pub timeouts_keeps :
      (s l : ℕ) (w : pg.World) (m : Text)
      → pg.has m (pg.batch_execute (timeouts_statement s l) w).1 ≡ pg.has m w
  pub terminate_keeps :
      (n : Text) (t : ℕ) (w : pg.World) (m : Text) → pg.has m (pg.terminate n t w).1 ≡ pg.has m w
  pub connections_keeps :
      (n : Text) (w : pg.World) (m : Text) → pg.has m (pg.has_connections n w).1 ≡ pg.has m w
  pub query_keeps :
      (n : Text) (w : pg.World) (m : Text) → pg.has m (pg.query_database n w).1 ≡ pg.has m w
  pub list_keeps : (w : pg.World) (m : Text) → pg.has m (pg.query_databases w).1 ≡ pg.has m w
  pub try_keeps : (k : ℤ) (w : pg.World) (m : Text) → pg.has m (pg.try_lock k w).1 ≡ pg.has m w
  pub lock_keeps :
      (c : LockCall) (k : ℤ) (w : pg.World) (m : Text)
      → pg.has m (pg.call_lock c k w).1 ≡ pg.has m w
