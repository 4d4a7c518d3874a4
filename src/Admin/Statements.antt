-- ===== src/Admin/Statements.antt =====
-- src/admin.rs: the statements that the harness sends, and their SQL text.
use postgres_test_harness.Base.{
  ℕ, not, ◌&&◌, ◌||◌, [], ◌∷◌, ◌++◌, leb, ◌==◌, if◌then◌else◌, length, all, Text, text, text_eq,
  invalid_database_name, Result, ok, err,
}
use postgres_test_harness.Config.Project.{is_name_byte, is_empty}
use postgres_test_harness.Name.{DatabaseName, quoted}
use postgres_test_harness.Metadata.Decimal.{print_u64}

-- The template's identifier is the quoted text.
pub data Statement : Type 0 where
  create_statement : DatabaseName → Text → Statement
  drop_statement : DatabaseName → Statement
  comment_statement : DatabaseName → Text → Statement
  disallow_statement : DatabaseName → Statement
  timeouts_statement : ℕ → ℕ → Statement
  lifecycle_statement : ℕ → ℕ → Text → Statement
  discard_statement : Statement

-- `value.replace('\'', "''")`.
unfoldable pub double_quotes : Text → Text
double_quotes [] = []
double_quotes (c ∷ t) = if c == 39 then 39 ∷ 39 ∷ double_quotes t else c ∷ double_quotes t

unfoldable pub quote_literal : Text → Text
unfolding double_quotes
quote_literal value = 39 ∷ (double_quotes value ++ 39 ∷ [])

unfoldable pub quote_identifier : Text → Result Text
quote_identifier identifier =
    if text_eq identifier (text "template0")
      || (not (is_empty identifier) && (leb (length identifier) 63 && all is_name_byte identifier))
    then ok (b'"' ∷ (identifier ++ b'"' ∷ []))
    else err (invalid_database_name identifier)

abbrev pub create_sql : DatabaseName → Text → Text
create_sql name template =
    text "CREATE DATABASE " ++ (quoted name ++ (text " TEMPLATE " ++ template))

abbrev pub drop_sql : DatabaseName → Text
drop_sql name = text "DROP DATABASE IF EXISTS " ++ (quoted name ++ text " WITH (FORCE)")

abbrev pub comment_sql : DatabaseName → Text → Text
comment_sql name comment =
    text "COMMENT ON DATABASE " ++ (quoted name ++ (text " IS " ++ quote_literal comment))

abbrev pub disallow_sql : DatabaseName → Text
disallow_sql name = text "ALTER DATABASE " ++ (quoted name ++ text " ALLOW_CONNECTIONS false")

-- Of the statement and the lock timeout, in milliseconds.
abbrev pub timeouts_sql : ℕ → ℕ → Text
timeouts_sql statement_timeout lock_timeout =
    text "SET statement_timeout = "
    ++ (print_u64 statement_timeout
        ++ (text "; SET lock_timeout = " ++ (print_u64 lock_timeout ++ text ";")))

abbrev pub lifecycle_sql : ℕ → ℕ → Text → Text
lifecycle_sql statement_timeout lock_timeout application_name =
    text "SET statement_timeout = "
    ++ (print_u64 statement_timeout
        ++ (text "; SET lock_timeout = "
            ++ (print_u64 lock_timeout
                ++ (text "; SET application_name = " ++ quote_literal application_name))))

unfoldable pub sql : Statement → Text
sql (create_statement name template) = create_sql name template
sql (drop_statement name) = drop_sql name
sql (comment_statement name comment) = comment_sql name comment
sql (disallow_statement name) = disallow_sql name
sql (timeouts_statement statement_timeout lock_timeout) =
    timeouts_sql statement_timeout lock_timeout
sql (lifecycle_statement statement_timeout lock_timeout application_name) =
    lifecycle_sql statement_timeout lock_timeout application_name
sql discard_statement = text "DISCARD ALL"
