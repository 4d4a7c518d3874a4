-- ===== src/Config/Usable.antt =====
-- src/config.rs: what holds of every configuration that the setters can make.
use postgres_test_harness.Base.{
  ℕ, ◌*◌, ◌≤◌, ◌≡◌, refl, subst, ◌∙◌, Bool, true, false, arith, min, ltb, ◌==◌, Text, Option, none,
  some, Result, ok, err, ◌>>=◌, ◌||◌, if◌then◌else◌,
}
use native.Mathlib.Nat.{div-mul-le_self, le-div_iff_mul-le}
use postgres_test_harness.Config.Project.{ProjectName}
use postgres_test_harness.Config.Harness.{
  OwnedContainerProfile, HarnessConfig, ConnectionLimits, max_simultaneous_leases, default_config,
  milliseconds, with_admin_database_url, with_owned_container_profile, with_startup_timeout,
  with_operation_timeout, with_template_wait_timeout, with_stale_after, with_connection_budget,
  with_connections_per_database, with_cleanup_on_start, connection_limits, i32_max, u32_max,
  validate_millisecond_timeout, validate_postgres_timeout, or_default, resolve,
  default_connection_budget, default_connections_per_database, set_budget, set_per_database,
  non_zero_u32,
}

-- One setter that succeeds.
pub data Step : HarnessConfig → HarnessConfig → Type 0 where
  to_url : {c : HarnessConfig} → (url : Text) → Step c (with_admin_database_url url c)
  to_profile :
      {c : HarnessConfig} → (p : OwnedContainerProfile) → Step c (with_owned_container_profile p c)
  to_startup : {c d : HarnessConfig} → (t : ℕ) → with_startup_timeout t c ≡ ok d → Step c d
  to_operation : {c d : HarnessConfig} → (t : ℕ) → with_operation_timeout t c ≡ ok d → Step c d
  to_wait : {c d : HarnessConfig} → (t : ℕ) → with_template_wait_timeout t c ≡ ok d → Step c d
  to_stale : {c : HarnessConfig} → (t : ℕ) → Step c (with_stale_after t c)
  to_budget : {c d : HarnessConfig} → (n : ℕ) → with_connection_budget n c ≡ ok d → Step c d
  to_per_database :
      {c d : HarnessConfig} → (n : ℕ) → with_connections_per_database n c ≡ ok d → Step c d
  to_cleanup : {c : HarnessConfig} → (b : Bool) → Step c (with_cleanup_on_start b c)

-- The configurations made from a project's default.
pub data Built (project : ProjectName) : HarnessConfig → Type 0 where
  start : Built project (default_config project)
  then_set : {c d : HarnessConfig} → Built project c → Step c d → Built project d

abbrev pub InRange : Option ℕ → Type 0
InRange none = Unit {0}
InRange (some n) = (1 ≤ n) × (n ≤ u32_max)

abbrev pub IsTimeout : ℕ → Type 0
IsTimeout t = (1 ≤ milliseconds t) × (milliseconds t ≤ i32_max)

pub record IsUsable (project : ProjectName) (c : HarnessConfig) : Type 0 where
  pub same_project : c.project ≡ project
  pub budget : InRange c.connection_budget_override
  pub per_database : InRange c.connections_per_database_override
  pub startup : 1 ≤ milliseconds c.startup_timeout
  pub operation : IsTimeout c.operation_timeout
  pub wait : IsTimeout c.template_wait_timeout

millisecond-valid : (t : ℕ) → validate_millisecond_timeout t ≡ ok tt → 1 ≤ milliseconds t
unfolding validate_millisecond_timeout
millisecond-valid t h = ground arith

postgres-valid : (t : ℕ) → validate_postgres_timeout t ≡ ok tt → IsTimeout t
unfolding validate_postgres_timeout
postgres-valid t h = (ground arith, ground arith)

guarded :
    {c d : HarnessConfig} (v : Result (Unit {0})) → (v >>= λ _. ok c) ≡ ok d → (v ≡ ok tt) × (c ≡ d)
guarded (ok x) h = (refl, ground arith)
guarded (err e) h = ground arith

in_range : (n : ℕ) → InRange (non_zero_u32 n)
in_range n = by_test (n == 0 || ltb u32_max n) refl
  where
    by_test : (b : Bool) → (n == 0 || ltb u32_max n) ≡ b → InRange (if b then none else some n)
    by_test true h = tt
    by_test false h = (ground arith, ground arith)

-- A usable configuration with other values where the setters put them.
rebuilt :
    {project : ProjectName} {c : HarnessConfig}
    → IsUsable project c
    → (d : HarnessConfig) → d.project ≡ c.project
    → InRange d.connection_budget_override
    → InRange d.connections_per_database_override
    → 1 ≤ milliseconds d.startup_timeout
    → IsTimeout d.operation_timeout
    → IsTimeout d.template_wait_timeout
    → IsUsable project d
rebuilt u d p b q s o w = record {
  same_project = p ∙ u.same_project;
  budget = b;
  per_database = q;
  startup = s;
  operation = o;
  wait = w;
}

module _ (project : ProjectName) (c d : HarnessConfig) (u : IsUsable project c) where
  budget-IsUsable : (o : Option ℕ) → InRange o → set_budget o c ≡ ok d → IsUsable project d
  budget-IsUsable none r h = ground arith
  budget-IsUsable (some n) r h = subst (IsUsable project) (ground arith) (
      rebuilt u (record c { connection_budget_override = some n }) refl r u.per_database u.startup
        u.operation u.wait)

  per_database-IsUsable :
      (o : Option ℕ) → InRange o → set_per_database o c ≡ ok d → IsUsable project d
  per_database-IsUsable none r h = ground arith
  per_database-IsUsable (some n) r h = subst (IsUsable project) (ground arith) (
      rebuilt u (record c { connections_per_database_override = some n }) refl u.budget r u.startup
        u.operation u.wait)

Step-IsUsable :
    (project : ProjectName) (c d : HarnessConfig)
    → IsUsable project c
    → Step c d
    → IsUsable project d
unfolding with_admin_database_url with_owned_container_profile with_startup_timeout
    with_operation_timeout with_template_wait_timeout with_stale_after with_connection_budget
    with_connections_per_database with_cleanup_on_start
Step-IsUsable project c d u (to_url url) =
    rebuilt u _ refl u.budget u.per_database u.startup u.operation u.wait
Step-IsUsable project c d u (to_profile p) =
    rebuilt u _ refl u.budget u.per_database u.startup u.operation u.wait
Step-IsUsable project c d u (to_startup t h) =
    let (valid, same) = guarded (validate_millisecond_timeout t) h in
    subst (IsUsable project) same
      (rebuilt u _ refl u.budget u.per_database (millisecond-valid t valid) u.operation u.wait)
Step-IsUsable project c d u (to_operation t h) =
    let (valid, same) = guarded (validate_postgres_timeout t) h in
    subst (IsUsable project) same
      (rebuilt u _ refl u.budget u.per_database u.startup (postgres-valid t valid) u.wait)
Step-IsUsable project c d u (to_wait t h) =
    let (valid, same) = guarded (validate_postgres_timeout t) h in
    subst (IsUsable project) same
      (rebuilt u _ refl u.budget u.per_database u.startup u.operation (postgres-valid t valid))
Step-IsUsable project c d u (to_stale t) =
    rebuilt u _ refl u.budget u.per_database u.startup u.operation u.wait
Step-IsUsable project c d u (to_budget n h) = budget-IsUsable project c d u _ (in_range n) h
Step-IsUsable project c d u (to_per_database n h) =
    per_database-IsUsable project c d u _ (in_range n) h
Step-IsUsable project c d u (to_cleanup b) =
    rebuilt u _ refl u.budget u.per_database u.startup u.operation u.wait

-- Every configuration that a project's default and successful setters make keeps the project, has
-- its overrides in the range of a positive u32 and its timeouts of at least a millisecond, those
-- for PostgreSQL also within an i32 of milliseconds.
pub Built-IsUsable :
    (project : ProjectName) (c : HarnessConfig) → Built project c → IsUsable project c
Built-IsUsable project c start = record {
  same_project = refl;
  budget = tt;
  per_database = tt;
  startup = omega arith;
  operation = (omega arith, omega arith);
  wait = (omega arith, omega arith);
}
Built-IsUsable project c (then_set b s) = Step-IsUsable project _ c (Built-IsUsable project _ b) s

-- What the limits of a budget and a number of permits for each database promise.
abbrev pub AreLimits : ConnectionLimits → Type 0
AreLimits l =
    (1 ≤ l.connections_per_database)
    × (l.connections_per_database ≤ l.connection_budget)
    × (l.connection_budget ≤ u32_max)
    × (1 ≤ max_simultaneous_leases l)
    × (max_simultaneous_leases l * l.connections_per_database ≤ l.connection_budget)

divided :
    (budget per_database : ℕ)
    → 1 ≤ per_database
    → per_database ≤ budget
    → budget ≤ u32_max
    → AreLimits (record { connection_budget = budget; connections_per_database = per_database })
unfolding max_simultaneous_leases
divided budget per_database p q r = (
  p,
  q,
  r,
  (le-div_iff_mul-le {k = per_database} {x = 1} {y = budget} p).1 (omega arith),
  div-mul-le_self budget per_database,
)

resolved :
    (budget per_database : ℕ) (l : ConnectionLimits)
    → 1 ≤ per_database
    → budget ≤ u32_max
    → resolve budget per_database ≡ ok l
    → AreLimits l
resolved budget per_database l p q h =
    subst AreLimits (ground arith) (divided budget per_database p (ground arith) q)

InRange-or :
    (d : ℕ) (o : Option ℕ)
    → InRange o
    → (1 ≤ d) × (d ≤ u32_max)
    → (1 ≤ or_default d o) × (or_default d o ≤ u32_max)
InRange-or d none r h = h
InRange-or d (some n) r h = r

-- When the limits of a configuration that the setters made resolve, a database's permits are at
-- least one and no more than the budget, the budget fits in a u32, at least one lease is possible,
-- and the leases that are possible at once do not exceed the budget together.
pub limits_are_sound :
    (project : ProjectName) (c : HarnessConfig) (l : ConnectionLimits)
    → Built project c
    → connection_limits c ≡ ok l
    → AreLimits l
unfolding connection_limits max_simultaneous_leases
limits_are_sound project c l b h =
    let u = Built-IsUsable project c b in
    let (low, high) =
      InRange-or default_connection_budget c.connection_budget_override u.budget
        (omega arith, omega arith) in
    let (per, _) =
      InRange-or
        (min default_connections_per_database
          (or_default default_connection_budget c.connection_budget_override))
        c.connections_per_database_override u.per_database (omega arith, omega arith) in
    resolved _ _ l per high h

-- Two successful settings of the budget and of a database's permits make the same configuration in
-- either order.
pub overrides_commute :
    (n m : ℕ) (c d e : HarnessConfig)
    → with_connection_budget n c ≡ ok d
    → with_connections_per_database m d ≡ ok e
    → (with_connections_per_database m c >>= with_connection_budget n) ≡ ok e
unfolding with_connection_budget with_connections_per_database
overrides_commute n m c d e h k = by_values (non_zero_u32 n) (non_zero_u32 m) h k
  where
    by_values :
        (o p : Option ℕ)
        → set_budget o c ≡ ok d
        → set_per_database p d ≡ ok e
        → (set_per_database p c >>= set_budget o) ≡ ok e
    by_values (some a) (some b) h k = ground arith
    by_values none p h k = ground arith
    by_values (some a) none h k = ground arith
