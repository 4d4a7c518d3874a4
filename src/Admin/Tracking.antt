-- ===== src/Admin/Tracking.antt =====
-- What a session keeps on the server, PostgreSQL's documented behaviour: the advisory locks that it
-- holds, each as often as it was taken, and its settings. `Tracks` says how the requests of
-- src/admin.rs change these; a request that does not complete may do anything.
use postgres_test_harness.Base.{
  ℕ, ◌+◌, ◌-◌, ◌≡◌, Bool, ◌&&◌, if◌then◌else◌, List, [], ◌∷◌, Text, Option, true, false,
}
use postgres_test_harness.Metadata.Decimal.{ℤ, int_eq}
use postgres_test_harness.Admin.Statements.{
  Statement, timeouts_statement, lifecycle_statement, discard_statement,
}
use postgres_test_harness.Admin.Postgres.{
  Postgres, Row, LockCall, lock, lock_shared, unlock, unlock_shared, completed,
}

pub data LockMode : Type 0 where
  exclusive shared : LockMode

abbrev pub mode_eq : LockMode → LockMode → Bool
mode_eq exclusive exclusive = true
mode_eq shared shared = true
mode_eq exclusive shared = false
mode_eq shared exclusive = false

pub record Lock : Type 0 where
  pub mode : LockMode
  pub key : ℤ

abbrev pub lock_eq : Lock → Lock → Bool
lock_eq l m = mode_eq l.mode m.mode && int_eq l.key m.key

abbrev pub once : Lock → Lock → ℕ
once l m = if lock_eq l m then 1 else 0

-- How often a lock stands in a list of locks.
abbrev pub times : Lock → List Lock → ℕ
times m [] = 0
times m (l ∷ ls) = once l m + times m ls

-- Timeouts are in milliseconds.
pub record Settings : Type 0 where
  pub statement_timeout : ℕ
  pub lock_timeout : ℕ
  pub application_name : Text

-- Of a lock that is held n times.
abbrev pub held_after_call : LockCall → ℤ → Lock → ℕ → ℕ
held_after_call lock k m n = n + once (record { mode = exclusive; key = k }) m
held_after_call lock_shared k m n = n + once (record { mode = shared; key = k }) m
held_after_call unlock k m n = n - once (record { mode = exclusive; key = k }) m
held_after_call unlock_shared k m n = n - once (record { mode = shared; key = k }) m

abbrev pub held_after : Statement → ℕ → ℕ
held_after discard_statement n = 0
held_after _ n = n

abbrev pub settings_after : Settings → Statement → Settings → Settings
settings_after defaults discard_statement s = defaults
settings_after defaults (timeouts_statement st l) s = record s {
  statement_timeout = st;
  lock_timeout = l;
}
settings_after defaults (lifecycle_statement st l name) s = record {
  statement_timeout = st;
  lock_timeout = l;
  application_name = name;
}
settings_after defaults _ s = s

pub record Tracks (pg : Postgres) : Type 0 where
  pub held : Lock → pg.World → ℕ
  pub settings : pg.World → Settings
  pub defaults : Settings
  pub execute_held :
      (s : Statement) (w : pg.World)
      → (pg.batch_execute s w).0 ≡ completed tt
      → (m : Lock) → held m (pg.batch_execute s w).1 ≡ held_after s (held m w)
  pub execute_settings :
      (s : Statement) (w : pg.World)
      → (pg.batch_execute s w).0 ≡ completed tt
      → settings (pg.batch_execute s w).1 ≡ settings_after defaults s (settings w)
  pub call_held :
      (c : LockCall) (k : ℤ) (w : pg.World)
      → (pg.call_lock c k w).0 ≡ completed tt
      → (m : Lock) → held m (pg.call_lock c k w).1 ≡ held_after_call c k m (held m w)
  pub query_held :
      (n : Text) (w : pg.World) (r : Option Row)
      → (pg.query_database n w).0 ≡ completed r
      → (m : Lock) → held m (pg.query_database n w).1 ≡ held m w
  pub terminate_held :
      (n : Text) (t : ℕ) (w : pg.World) (r : List Bool)
      → (pg.terminate n t w).0 ≡ completed r
      → (m : Lock) → held m (pg.terminate n t w).1 ≡ held m w
  pub connections_held :
      (n : Text) (w : pg.World) (r : Bool)
      → (pg.has_connections n w).0 ≡ completed r
      → (m : Lock) → held m (pg.has_connections n w).1 ≡ held m w
