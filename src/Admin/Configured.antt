-- ===== src/Admin/Configured.antt =====
-- src/admin.rs: how the calls on a client change what its session keeps.
use postgres_test_harness.Base.{
  ℕ, ◌/◌, ◌≡◌, refl, sym, ◌∙◌, subst, min, leb, Bool, true, false, if◌then◌else◌, Text, text, ◌⊎◌,
  inl, inr, Result, ok, err, timeout_out_of_range,
}
use postgres_test_harness.Metadata.Decimal.{u64_max}
use postgres_test_harness.Admin.Action.{given, ◌>>=◌, Post, after, after-Post, anything}
use postgres_test_harness.Admin.Statements.{
  Statement, timeouts_statement, lifecycle_statement, discard_statement,
}
use postgres_test_harness.Admin.Postgres.{Postgres, Response, completed, refused, timed_out}
use postgres_test_harness.Admin.Client.{run_admin_operation}
use postgres_test_harness.Admin.Deadlines.{
  Deadline, checkout_remaining, duration_millis, lock_timeout_limit,
}
use postgres_test_harness.Admin.Settings.{
  time_left, configure_session_timeouts, configure_session_timeouts_with_timeout,
  configure_lifecycle_session_with_timeout, prepare_new_lifecycle_session,
  batch_execute_with_timeout, prepare_reused_lifecycle_session, configure_coordination_timeouts,
}
use postgres_test_harness.Admin.Tracking.{Tracks, Lock, Settings}

-- A request's success is a completed response.
pub run-Post :
    {World A : Type 0} (Q : A → World → Type 0) (t : ℕ) (operation : Text) (r : Response A)
    (v : World)
    → ((a : A) → r ≡ completed a → Q a v)
    → Post Q (run_admin_operation t operation r, v)
unfolding run_admin_operation
run-Post Q t operation (completed a) v h = h a refl
run-Post Q t operation (refused s) v h = tt
run-Post Q t operation timed_out v h = tt

pub duration_millis-cases :
    (duration : ℕ)
    → (duration_millis duration ≡ ok (duration / 1000000))
      ⊎ (duration_millis duration ≡ err (timeout_out_of_range duration))
unfolding duration_millis
duration_millis-cases duration = by_range (leb (duration / 1000000) u64_max)
  where
    by_range :
        (b : Bool)
        → let r = if b then ok (duration / 1000000) else err (timeout_out_of_range duration) in
          (r ≡ ok (duration / 1000000)) ⊎ (r ≡ err (timeout_out_of_range duration))
    by_range true = inl refl
    by_range false = inr refl

abbrev pub lifecycle_settings : ℕ → Text → Settings
lifecycle_settings operation_timeout name = record {
  statement_timeout = operation_timeout / 1000000;
  lock_timeout = min lock_timeout_limit operation_timeout / 1000000;
  application_name = name;
}

module _ (pg : Postgres) where
  -- What a change of timeouts keeps.
  abbrev pub IsSteady : (pg.World → Type 0) → Type 0
  IsSteady P =
      (s l : ℕ) (w : pg.World)
      → (pg.batch_execute (timeouts_statement s l) w).0 ≡ completed tt
      → P w
      → P (pg.batch_execute (timeouts_statement s l) w).1

module _ (pg : Postgres) (timeout : ℕ) (clock : pg.World → ℕ) where
  -- Two durations are computed before a statement runs with them.
  pub statement_runs :
      (P : pg.World → Type 0) (a b request_timeout : ℕ) (operation : Text)
      (statement : ℕ → ℕ → Statement) (w : pg.World)
      → ((pg.batch_execute (statement (a / 1000000) (b / 1000000)) w).0 ≡ completed tt
          → P (pg.batch_execute (statement (a / 1000000) (b / 1000000)) w).1)
      → Post
          (λ _. P)
          (after (given (duration_millis a) w) (λ s. given (duration_millis b) >>= λ l.
            batch_execute_with_timeout pg timeout clock request_timeout operation (statement s l)))
  statement_runs P a b request_timeout operation statement w h = elim (duration_millis-cases a) [
    | inr e ↦ rw e tt
    | inl e ↦ elim (duration_millis-cases b) [
      | inr f ↦ rw (e, f) tt
      | inl f ↦
          rw (e, f)
            (run-Post (λ _. P) request_timeout operation
              (pg.batch_execute (statement (a / 1000000) (b / 1000000)) w).0 _ (λ _ c. h c))
    ]
  ]

  module _ (P : pg.World → Type 0) (steady : IsSteady pg P) (w : pg.World) (p : P w) where
    pub configure_session-Post :
        (operation_timeout : ℕ)
        → Post (λ _. P) (configure_session_timeouts pg timeout clock operation_timeout w)
    unfolding configure_session_timeouts configure_session_timeouts_with_timeout
    configure_session-Post operation_timeout =
        statement_runs P operation_timeout (min lock_timeout_limit operation_timeout) timeout
          (text "configure admin session timeouts") timeouts_statement w (λ c. steady _ _ w c p)

    pub configure_coordination-Post :
        (wait_timeout : ℕ)
        → Post (λ _. P) (configure_coordination_timeouts pg timeout clock wait_timeout w)
    unfolding configure_coordination_timeouts
    configure_coordination-Post wait_timeout = elim (duration_millis-cases wait_timeout) [
      | inr e ↦ rw e tt
      | inl e ↦
          let n = wait_timeout / 1000000 in
          rw e (
            run-Post (λ _. P) timeout (text "configure template coordination timeouts")
              (pg.batch_execute (timeouts_statement n n) w).0 _ (λ _ c. steady n n w c p))
    ]

module _ (pg : Postgres) (track : Tracks pg) where
  abbrev pub HoldsNothing : pg.World → Type 0
  HoldsNothing w = (m : Lock) → track.held m w ≡ 0

  -- A lifecycle session is prepared.
  abbrev pub IsPrepared : ℕ → Text → pg.World → Type 0
  IsPrepared operation_timeout name w =
      (track.settings w ≡ lifecycle_settings operation_timeout name) × HoldsNothing w

  module _ (timeout : ℕ) (clock : pg.World → ℕ) where
    configure_lifecycle-Post :
        (operation_timeout : ℕ) (name : Text) (request_timeout : ℕ) (w : pg.World)
        → HoldsNothing w
        → Post
            (λ _. IsPrepared operation_timeout name)
            (configure_lifecycle_session_with_timeout pg timeout clock operation_timeout name
              request_timeout w)
    unfolding configure_lifecycle_session_with_timeout
    configure_lifecycle-Post operation_timeout name request_timeout w free =
        statement_runs pg timeout clock (IsPrepared operation_timeout name) operation_timeout
          (min lock_timeout_limit operation_timeout) request_timeout
          (text "configure pooled admin session") (λ s l. lifecycle_statement s l name) w
          (λ c. (track.execute_settings _ w c, λ m. track.execute_held _ w c m ∙ free m))

    prepare_reused-Post :
        (operation_timeout : ℕ) (name : Text) (deadline : Deadline) (w : pg.World)
        → Post
            (λ _. IsPrepared operation_timeout name)
            (prepare_reused_lifecycle_session pg timeout clock operation_timeout name deadline w)
    unfolding prepare_reused_lifecycle_session
    prepare_reused-Post operation_timeout name deadline w =
        after-Post (λ _ _. Unit {0}) _ _ (time_left pg timeout clock deadline w) (anything _)
          (λ left u _.
            after-Post (λ _. HoldsNothing) _ _ _
              (run-Post _ left (text "reset pooled admin session")
                (pg.batch_execute discard_statement u).0 _
                (λ _ c. track.execute_held discard_statement u c))
              (λ _ v free.
                after-Post (λ _. HoldsNothing) _ _ (time_left pg timeout clock deadline v)
                  (given_keeps (checkout_remaining (clock v) deadline) v free)
                  (λ more x clean. configure_lifecycle-Post operation_timeout name more x clean)))
      where
        given_keeps :
            (r : Result ℕ) (v : pg.World) → HoldsNothing v → Post (λ _. HoldsNothing) (r, v)
        given_keeps (ok n) v free = free
        given_keeps (err e) v free = tt

    -- A client that the pool hands out is prepared alike whether it is new or reused: when a new
    -- connection, which holds no lock, is prepared, and when an idle one is, whatever its last user
    -- left behind, it holds no advisory lock and its settings are the lifecycle's, the statement
    -- timeout and the lock timeout that of the operation in milliseconds, the latter at most ten
    -- seconds.
    pub IsPrepared-alike :
        (operation_timeout : ℕ) (name : Text) (deadline : Deadline) (new_one idle u v : pg.World)
        → HoldsNothing new_one
        → prepare_new_lifecycle_session pg timeout clock operation_timeout name new_one ≡ (ok tt, u)
        → prepare_reused_lifecycle_session pg timeout clock operation_timeout name deadline idle
          ≡ (ok tt, v)
        → IsPrepared operation_timeout name u
          × (IsPrepared operation_timeout name v × (track.settings u ≡ track.settings v))
    unfolding prepare_new_lifecycle_session
    IsPrepared-alike operation_timeout name deadline new_one idle u v free h g =
        let Q : Result (Unit {0}) × pg.World → Type 0 =
          Post (λ _. IsPrepared operation_timeout name) in
        let p = subst Q h (configure_lifecycle-Post operation_timeout name timeout new_one free) in
        let q = subst Q g (prepare_reused-Post operation_timeout name deadline idle) in
        (p, (q, p.0 ∙ sym q.0))
