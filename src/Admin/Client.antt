-- ===== src/Admin/Client.antt =====
-- src/admin.rs: the calls that the harness makes on a client.
use postgres_test_harness.Base.{
  ℕ, Bool, List, map, Text, text, Option, none, some, postgres, postgres_operation_timeout, Result,
  ok, err,
}
use postgres_test_harness.Name.{DatabaseName}
use postgres_test_harness.Metadata.Decimal.{ℤ}
use postgres_test_harness.Metadata.Resource.{ResourceMetadata, encode}
use postgres_test_harness.Admin.Statements.{
  create_statement, drop_statement, comment_statement, disallow_statement, quote_identifier,
}
use postgres_test_harness.Admin.Postgres.{
  Postgres, Response, completed, refused, timed_out, Row, lock, unlock, unlock_shared,
}

pub record DatabaseRecord : Type 0 where
  pub name : Text
  pub comment : Option Text

unfoldable pub run_admin_operation {ℓ} : {A : Type ℓ} → ℕ → Text → Response A → Result A
run_admin_operation timeout operation (completed a) = ok a
run_admin_operation timeout operation (refused source) = err (postgres operation source)
run_admin_operation timeout operation timed_out = err (postgres_operation_timeout operation timeout)

abbrev pub record_of : Row → DatabaseRecord
record_of (name, comment) = record { name = name; comment = comment }

abbrev pub map_result {ℓ κ} : {A : Type ℓ} {B : Type κ} → (A → B) → Result A → Result B
map_result f (ok a) = ok (f a)
map_result f (err e) = err e

abbrev pub map_option {ℓ κ} : {A : Type ℓ} {B : Type κ} → (A → B) → Option A → Option B
map_option f none = none
map_option f (some a) = some (f a)

-- `timeout` is the client's request timeout.
module _ (pg : Postgres) (timeout : ℕ) where
  abbrev pub Call {ℓ} : Type ℓ → Type ℓ
  Call A = pg.World → Result A × pg.World

  abbrev pub request {ℓ} : {A : Type ℓ} → Text → Response A × pg.World → Result A × pg.World
  request operation (r, w) = (run_admin_operation timeout operation r, w)

  -- A template's name that cannot be quoted is an error before any request.
  abbrev pub create_quoted : DatabaseName → Result Text → Call (Unit {0})
  create_quoted name (err e) w = (err e, w)
  create_quoted name (ok template) w =
      request (text "create disposable PostgreSQL database")
        (pg.batch_execute (create_statement name template) w)

  unfoldable pub create_database : DatabaseName → Text → Call (Unit {0})
  create_database name template_name = create_quoted name (quote_identifier template_name)

  unfoldable pub drop_database : DatabaseName → Call (Unit {0})
  drop_database name w =
      request (text "drop disposable PostgreSQL database")
        (pg.batch_execute (drop_statement name) w)

  unfoldable pub find_database : DatabaseName → Call (Option DatabaseRecord)
  find_database name w =
      let (r, v) =
        request (text "find disposable PostgreSQL database") (pg.query_database name.value w) in
      (map_result (map_option record_of) r, v)

  unfoldable pub set_database_metadata : DatabaseName → ResourceMetadata → Call (Unit {0})
  set_database_metadata name metadata w =
      request (text "write disposable PostgreSQL database metadata")
        (pg.batch_execute (comment_statement name (encode metadata)) w)

  unfoldable pub disable_database_connections : DatabaseName → Call (Unit {0})
  disable_database_connections name w =
      request (text "disable PostgreSQL template connections")
        (pg.batch_execute (disallow_statement name) w)

  unfoldable pub list_databases : Call (List DatabaseRecord)
  list_databases w =
      let (r, v) =
        request (text "list PostgreSQL databases for stale cleanup") (pg.query_databases w) in
      (map_result (map record_of) r, v)

  unfoldable pub acquire_advisory_lock : ℤ → Call (Unit {0})
  acquire_advisory_lock key w =
      request (text "acquire PostgreSQL advisory lock") (pg.call_lock lock key w)

  unfoldable pub try_acquire_advisory_lock : ℤ → Call Bool
  try_acquire_advisory_lock key w =
      request (text "try PostgreSQL advisory lock") (pg.try_lock key w)

  unfoldable pub release_advisory_lock : ℤ → Call (Unit {0})
  release_advisory_lock key w =
      request (text "release PostgreSQL advisory lock") (pg.call_lock unlock key w)

  unfoldable pub release_shared_advisory_lock : ℤ → Call (Unit {0})
  release_shared_advisory_lock key w =
      request (text "release shared PostgreSQL advisory lock") (pg.call_lock unlock_shared key w)
