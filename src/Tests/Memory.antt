-- ===== src/Tests/Memory.antt =====
-- A PostgreSQL server in memory, with the laws that src/admin.rs relies on: what the examples run on.
use postgres_test_harness.Base.{
  ℕ, ◌≡◌, ◌≢◌, refl, sym, ap, ◌∙◌, Bool, true, false, not, List, [], ◌∷◌, map, arith, if◌then◌else◌,
  keep, Bool-cases, &&_iff, ◌-◌, inl, inr, Text, text_eq, text_eq_sound, text_eq_refl, Option, none,
  some, db_error, other_error,
}
use postgres_test_harness.Name.{DatabaseName}
use postgres_test_harness.Admin.Statements.{
  Statement, create_statement, drop_statement, comment_statement, disallow_statement,
  timeouts_statement, lifecycle_statement, discard_statement,
}
use postgres_test_harness.Admin.Postgres.{
  Postgres, IsPostgres, Response, completed, refused, Row, LockCall, lock, lock_shared, unlock,
  unlock_shared,
}
use postgres_test_harness.Metadata.Decimal.{ℤ, pos, int_eq, int_eq_sound}
use postgres_test_harness.Admin.Tracking.{
  Tracks, Lock, LockMode, exclusive, shared, lock_eq, mode_eq, once, times, Settings,
  held_after_call, held_after, settings_after,
}

-- A server that may refuse every comment.
pub record Memory : Type 0 where
  pub rows : List Row
  pub refuses_comments : Bool
  pub settings : Settings
  pub locks : List Lock

abbrev pub default_settings : Settings
default_settings = record { statement_timeout = 0; lock_timeout = 0; application_name = [] }

abbrev without : Lock → List Lock → List Lock
without l [] = []
without l (m ∷ ms) = if lock_eq l m then ms else m ∷ without l ms

abbrev pub call : LockCall → ℤ → List Lock → List Lock
call lock k ls = record { mode = exclusive; key = k } ∷ ls
call lock_shared k ls = record { mode = shared; key = k } ∷ ls
call unlock k ls = without (record { mode = exclusive; key = k }) ls
call unlock_shared k ls = without (record { mode = shared; key = k }) ls

abbrev pub holds : Text → List Row → Bool
holds m [] = false
holds m ((n, c) ∷ rows) = if text_eq n m then true else holds m rows

abbrev has_name : Text → Row → Bool
has_name m (n, c) = text_eq n m

abbrev commented : Text → Text → Row → Row
commented m comment (n, c) = if text_eq n m then (n, some comment) else (n, c)

abbrev pub execute : Statement → Memory → Response (Unit {0}) × Memory
execute (create_statement n t) w =
    if holds n.value w.rows
    then (refused (db_error 42), w)
    else (completed tt, record w { rows = (n.value, none) ∷ w.rows })
execute (drop_statement n) w =
    (completed tt, record w { rows = keep (λ r. not (has_name n.value r)) w.rows })
execute (comment_statement n c) w =
    if w.refuses_comments
    then (refused (other_error 7), w)
    else (completed tt, record w { rows = map (commented n.value c) w.rows })
execute (disallow_statement n) w = (completed tt, w)
execute (timeouts_statement s l) w = (
  completed tt,
  record w { settings = record w.settings { statement_timeout = s; lock_timeout = l } },
)
execute (lifecycle_statement s l a) w = (
  completed tt,
  record w { settings = record { statement_timeout = s; lock_timeout = l; application_name = a } },
)
execute discard_statement w = (completed tt, record w { settings = default_settings; locks = [] })

abbrev pub find : Text → List Row → Option Row
find m [] = none
find m (r ∷ rows) = if has_name m r then some r else find m rows

abbrev pub memory : Postgres
memory = record {
  World = Memory;
  batch_execute = execute;
  query_database = λ n w. (completed (find n w.rows), w);
  query_databases = λ w. (completed w.rows, w);
  try_lock = λ k w. (completed true, w);
  call_lock = λ c k w. (completed tt, record w { locks = call c k w.locks });
  server_version = λ w. (completed 180001, w);
  uuidv7 = λ w. (completed tt, w);
  connection_settings = λ w. (completed (pos 300, pos 0, pos 3), w);
  terminate = λ n t w. (completed [], w);
  has_connections = λ n w. (completed false, w);
  has = λ m w. holds m w.rows;
}

other_text : (s t : Text) → t ≢ s → text_eq s t ≡ false
other_text s t n = elim (Bool-cases (text_eq s t)) [
  | inl e ↦ absurd (n (sym (text_eq_sound s t e)))
  | inr e ↦ e
]

create_refused :
    (n : DatabaseName) (t : Text) (w : Memory) (k : ℕ)
    → (execute (create_statement n t) w).0 ≡ refused (db_error k)
    → (m : Text) → holds m (execute (create_statement n t) w).1.rows ≡ holds m w.rows
create_refused n t w k h m = ground arith

create_done :
    (n : DatabaseName) (t : Text) (w : Memory)
    → (execute (create_statement n t) w).0 ≡ completed tt
    → holds n.value (execute (create_statement n t) w).1.rows ≡ true
create_done n t w h = ground (arith, text_eq_refl n.value)

create_others :
    (n : DatabaseName) (t : Text) (w : Memory) (m : Text)
    → m ≢ n.value
    → holds m (execute (create_statement n t) w).1.rows ≡ holds m w.rows
create_others n t w m d = ground (arith, other_text n.value m d)

drop_done : (m : Text) (rows : List Row) → holds m (keep (λ r. not (has_name m r)) rows) ≡ false
drop_done m [] = refl
drop_done m ((n, c) ∷ rows) = ground (arith, drop_done m rows)

drop_others :
    (n m : Text) (rows : List Row)
    → m ≢ n
    → holds m (keep (λ r. not (has_name n r)) rows) ≡ holds m rows
drop_others n m [] d = refl
drop_others n m ((k, c) ∷ rows) d = elim (Bool-cases (text_eq k n)) [
  | inl e ↦ rw (e, drop_others n m rows d, other_text k m (λ p. d (p ∙ text_eq_sound k n e))) refl
  | inr e ↦ rw (e, drop_others n m rows d) refl
]

comment_keeps : (n c m : Text) (rows : List Row) → holds m (map (commented n c) rows) ≡ holds m rows
comment_keeps n c m [] = refl
comment_keeps n c m ((k, d) ∷ rows) = ground (arith, comment_keeps n c m rows)

comment_statement_keeps :
    (n : DatabaseName) (c : Text) (w : Memory) (m : Text)
    → holds m (execute (comment_statement n c) w).1.rows ≡ holds m w.rows
comment_statement_keeps n c w m = ground (arith, comment_keeps n.value c m w.rows)

pub memory-IsPostgres : IsPostgres memory
memory-IsPostgres = record {
  create_refused = create_refused;
  create_done = create_done;
  create_others = create_others;
  drop_done = λ n w e. drop_done n.value w.rows;
  drop_others = λ n w m d. drop_others n.value m w.rows d;
  comment_keeps = comment_statement_keeps;
  query_keeps = λ n w m. refl;
  list_keeps = λ w m. refl;
  try_keeps = λ k w m. refl;
  lock_keeps = λ c k w m. refl;
  disallow_keeps = λ n w m. refl;
  timeouts_keeps = λ s l w m. refl;
  terminate_keeps = λ n t w m. refl;
  connections_keeps = λ n w m. refl;
}

mode_eq_sound : (a b : LockMode) → mode_eq a b ≡ true → a ≡ b
mode_eq_sound exclusive exclusive h = refl
mode_eq_sound shared shared h = refl
mode_eq_sound exclusive shared h = ground arith
mode_eq_sound shared exclusive h = ground arith

lock_eq_sound : (l m : Lock) → lock_eq l m ≡ true → l ≡ m
lock_eq_sound l m h =
    let (p, q) = (&&_iff (mode_eq l.mode m.mode) (int_eq l.key m.key)).0 h in
    λ i. record { mode = mode_eq_sound l.mode m.mode p i; key = int_eq_sound l.key m.key q i }

apart : (l k m : Lock) → lock_eq l k ≡ false → lock_eq k m ≡ true → lock_eq l m ≡ false
apart l k m e f = rw (sym (lock_eq_sound k m f)) e

once_same : (l k m : Lock) → lock_eq l k ≡ true → once l m ≡ once k m
once_same l k m e = ap (λ n. once n m) (lock_eq_sound l k e)

times-without : (m l : Lock) (ls : List Lock) → times m (without l ls) ≡ times m ls - once l m
times-without m l [] = omega arith
times-without m l (k ∷ ks) = elim (Bool-cases (lock_eq l k)) [
  | inl e ↦ rw e (omega (arith, once_same l k m e))
  | inr e ↦ rw e (ground (arith, times-without m l ks, apart l k m e))
]

pub call_held :
    (c : LockCall) (k : ℤ) (ls : List Lock) (m : Lock)
    → times m (call c k ls) ≡ held_after_call c k m (times m ls)
call_held lock k ls m = omega arith
call_held lock_shared k ls m = omega arith
call_held unlock k ls m = times-without m (record { mode = exclusive; key = k }) ls
call_held unlock_shared k ls m = times-without m (record { mode = shared; key = k }) ls

pub execute_held :
    (s : Statement) (w : Memory) (m : Lock)
    → times m (execute s w).1.locks ≡ held_after s (times m w.locks)
execute_held (create_statement n t) w m = ground arith
execute_held (drop_statement n) w m = refl
execute_held (comment_statement n c) w m = ground arith
execute_held (disallow_statement n) w m = refl
execute_held (timeouts_statement s l) w m = refl
execute_held (lifecycle_statement s l a) w m = refl
execute_held discard_statement w m = refl

pub execute_settings :
    (s : Statement) (w : Memory)
    → (execute s w).1.settings ≡ settings_after default_settings s w.settings
execute_settings (create_statement n t) w = ground arith
execute_settings (drop_statement n) w = refl
execute_settings (comment_statement n c) w = ground arith
execute_settings (disallow_statement n) w = refl
execute_settings (timeouts_statement s l) w = refl
execute_settings (lifecycle_statement s l a) w = refl
execute_settings discard_statement w = refl

abbrev pub tracked : Tracks memory
tracked = record {
  held = λ m w. times m w.locks;
  settings = λ w. w.settings;
  defaults = default_settings;
  execute_held = λ s w e m. execute_held s w m;
  execute_settings = λ s w e. execute_settings s w;
  call_held = λ c k w e m. call_held c k w.locks m;
  query_held = λ n w r e m. refl;
  terminate_held = λ n t w r e m. refl;
  connections_held = λ n w r e m. refl;
}
