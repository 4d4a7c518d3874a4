-- ===== src/Initialization/Others.antt =====
-- src/harness.rs: preparing a template touches no other database.
use postgres_test_harness.Base.{
  ℕ, zero, suc, ◌≡◌, ◌≢◌, refl, ◌∙◌, Bool, true, false, List, Text, Option, none, some, text,
  template_connections_remain, Result, ok, err,
}
use postgres_test_harness.Semaphore.{Semaphore}
use postgres_test_harness.Metadata.Decimal.{ℤ}
use postgres_test_harness.Metadata.Resource.{new_template, initializing}
use postgres_test_harness.Admin.Action.{Action, given, pure, raise_if, ◌>>=◌, after}
use postgres_test_harness.Admin.Postgres.{
  Postgres, IsPostgres, lock, lock_shared, unlock, unlock_shared,
}
use postgres_test_harness.Admin.Client.{
  DatabaseRecord, request, drop_database, find_database, set_database_metadata,
  disable_database_connections, release_advisory_lock, release_shared_advisory_lock,
}
use postgres_test_harness.Admin.Deadlines.{duration_millis}
use postgres_test_harness.Admin.Settings.{
  configure_session_timeouts, configure_session_timeouts_with_timeout,
  configure_coordination_timeouts, acquire_template_advisory_lock,
  acquire_shared_template_advisory_lock, terminate_database_connections, as_i64, some_not,
}
use postgres_test_harness.Admission.{DatabaseAdmission}
use postgres_test_harness.Admission.Others.{managed_keeps}
use postgres_test_harness.Initialization.{
  TemplateRequest, TemplatePreparation, ready_template, initialization, TemplateSource, State,
  source_name, on_client, create, template_is_ready, keep_if_ready,
  acquire_and_inspect_shared_template_lock, drop_recoverable, finish, abort, with_both_locks,
  with_coordination, without_coordination, begin_round, or_again, begin_template,
}

-- What each step keeps, a sequence of them keeps, however it ends.
after_keeps :
    {World A B V : Type 0} (f : World → V) (r : Result A) (w : World) (next : A → Action World B)
    → ((a : A) (v : World) → f (next a v).1 ≡ f v)
    → f (after (r, w) next).1 ≡ f w
after_keeps f (ok a) w next k = k a w
after_keeps f (err e) w next k = refl

module _ (pg : Postgres) (law : IsPostgres pg) (timeout : ℕ) (clock : pg.World → ℕ)
    (q : TemplateRequest) (m : Text) (other : m ≢ q.name.value) where
  Keeps : {A : Type 0} → Action pg.World A → Type 0
  Keeps c = (w : pg.World) → pg.has m (c w).1 ≡ pg.has m w

  then-Keeps :
      {A B : Type 0} (c : Action pg.World A) (next : A → Action pg.World B)
      → Keeps c
      → ((a : A) → Keeps (next a))
      → Keeps (c >>= next)
  unfolding Keeps
  then-Keeps c next k l w = after_keeps (pg.has m) (c w).0 (c w).1 next l ∙ k w

  at_each :
      {A : Type 0} (c : Action pg.World A)
      → ((w : pg.World) → pg.has m (c w).1 ≡ pg.has m w)
      → Keeps c
  unfolding Keeps
  at_each c k = k

  session-Keeps : (t : ℕ) → Keeps (configure_session_timeouts pg timeout clock t)
  unfolding Keeps configure_session_timeouts configure_session_timeouts_with_timeout
  session-Keeps t w =
      after_keeps (pg.has m) (duration_millis t) w _
        (λ s v. after_keeps (pg.has m) (duration_millis _) v _ (λ l u. law.timeouts_keeps s l u m))

  coordination-Keeps : (t : ℕ) → Keeps (configure_coordination_timeouts pg timeout clock t)
  unfolding Keeps configure_coordination_timeouts
  coordination-Keeps t w =
      after_keeps (pg.has m) (duration_millis t) w _ (λ n v. law.timeouts_keeps n n v m)

  acquire-Keeps : (k : ℤ) (s t : ℕ) → Keeps (acquire_template_advisory_lock pg timeout clock k s t)
  unfolding acquire_template_advisory_lock
  acquire-Keeps k s t =
      then-Keeps _ _ (coordination-Keeps s)
        (λ _. then-Keeps _ _ (at_each _ (λ w. law.lock_keeps lock k w m)) (λ _. session-Keeps t))

  acquire_shared-Keeps :
      (k : ℤ) (s t : ℕ) → Keeps (acquire_shared_template_advisory_lock pg timeout clock k s t)
  unfolding acquire_shared_template_advisory_lock
  acquire_shared-Keeps k s t = then-Keeps _ _ (coordination-Keeps s) (λ _.
      then-Keeps _ _ (at_each _ (λ w. law.lock_keeps lock_shared k w m)) (λ _. session-Keeps t))

  release-Keeps : (k : ℤ) → Keeps (release_advisory_lock pg timeout k)
  unfolding Keeps release_advisory_lock
  release-Keeps k w = law.lock_keeps unlock k w m

  ready-Keeps : Keeps (template_is_ready pg timeout clock q)
  unfolding Keeps template_is_ready find_database
  ready-Keeps w =
      after_keeps (pg.has m) (find_database pg timeout q.name w).0 _ _ (λ r v. refl)
      ∙ law.query_keeps q.name.value w m

  kept_lock-Keeps : (b : Bool) → Keeps (keep_if_ready pg timeout clock q b)
  unfolding Keeps release_shared_advisory_lock
  kept_lock-Keeps true w = refl
  kept_lock-Keeps false w =
      after_keeps (pg.has m) (release_shared_advisory_lock pg timeout q.lock_key w).0 _ _
        (λ _ v. refl)
      ∙ law.lock_keeps unlock_shared q.lock_key w m

  inspect-Keeps : Keeps (acquire_and_inspect_shared_template_lock pg timeout clock q)
  unfolding acquire_and_inspect_shared_template_lock
  inspect-Keeps =
      then-Keeps _ _ (acquire_shared-Keeps q.lock_key q.template_wait_timeout q.operation_timeout)
        (λ _. then-Keeps _ _ ready-Keeps kept_lock-Keeps)

  find-Keeps : Keeps (find_database pg timeout q.name)
  unfolding Keeps find_database
  find-Keeps w = law.query_keeps q.name.value w m

  drop-Keeps : Keeps (drop_database pg timeout q.name)
  unfolding Keeps drop_database
  drop-Keeps w = law.drop_others q.name w m other

  recoverable-Keeps : (r : Option DatabaseRecord) → Keeps (drop_recoverable pg timeout clock q r)
  recoverable-Keeps none = at_each _ (λ w. refl)
  recoverable-Keeps (some r) = then-Keeps _ _ (at_each _ (λ w. refl)) (λ _. drop-Keeps)

  given-Keeps : {A : Type 0} (r : Result A) → Keeps (given r)
  given-Keeps r = at_each (given r) (λ w. refl)

  terminate-Keeps :
      Keeps (terminate_database_connections pg timeout clock q.name q.operation_timeout)
  unfolding Keeps terminate_database_connections
  terminate-Keeps w =
      after_keeps (pg.has m) (duration_millis q.operation_timeout) w _
        (λ n v. after_keeps (pg.has m) (as_i64 q.operation_timeout n) v _ (λ k u. rows_keep k u))
    where
      exist_keeps :
          (x : pg.World)
          → pg.has m
              (after
                (request pg timeout
                  (text "verify PostgreSQL template connections")
                  (pg.has_connections q.name.value x))
                (λ remain. raise_if remain (template_connections_remain q.name.value))).1
            ≡ pg.has m x
      exist_keeps x =
          after_keeps (pg.has m)
            (request pg timeout (text "verify PostgreSQL template connections")
              (pg.has_connections q.name.value x)).0
            (pg.has_connections q.name.value x).1
            (λ remain. raise_if remain (template_connections_remain q.name.value)) (λ b y. refl)
          ∙ law.connections_keeps q.name.value x m

      none_keeps :
          (rows : List Bool) (x : pg.World)
          → pg.has m
              (after (raise_if (some_not rows) (template_connections_remain q.name.value) x) (λ _ y.
                after
                  (request pg timeout
                    (text "verify PostgreSQL template connections")
                    (pg.has_connections q.name.value y))
                  (λ remain. raise_if remain (template_connections_remain q.name.value)))).1
            ≡ pg.has m x
      none_keeps rows x =
          after_keeps (pg.has m)
            (raise_if (some_not rows) (template_connections_remain q.name.value) x).0 x _
            (λ _ y. exist_keeps y)

      rows_keep :
          (k : ℕ) (u : pg.World)
          → pg.has m
              (after
                (request pg timeout
                  (text "terminate PostgreSQL template connections")
                  (pg.terminate q.name.value k u))
                (λ rows x.
                  after
                    (raise_if (some_not rows) (template_connections_remain q.name.value) x)
                    (λ _ y.
                      after
                        (request pg timeout
                          (text "verify PostgreSQL template connections")
                          (pg.has_connections q.name.value y))
                        (λ remain. raise_if remain (template_connections_remain q.name.value))))).1
            ≡ pg.has m u
      rows_keep k u =
          after_keeps (pg.has m)
            (request pg timeout (text "terminate PostgreSQL template connections")
              (pg.terminate q.name.value k u)).0
            (pg.terminate q.name.value k u).1 _ (λ rows x. none_keeps rows x)
          ∙ law.terminate_keeps q.name.value k u m

  finish-Keeps : (now : ℕ) → Keeps (finish pg timeout clock q now)
  unfolding finish disable_database_connections set_database_metadata
  finish-Keeps now = then-Keeps _ _ (at_each _ (λ w. law.disallow_keeps q.name w m)) (λ _.
      then-Keeps _ _ terminate-Keeps (λ _.
        then-Keeps _ _ (at_each _ (λ w. law.comment_keeps q.name _ w m)) (λ _.
          then-Keeps _ _ (release-Keeps q.lock_key) (λ _. then-Keeps _ _ inspect-Keeps (λ _.
            then-Keeps _ _ (release-Keeps q.coordination_key) (λ _. at_each _ (λ w. refl)))))))

  abort-Keeps : Keeps (abort pg timeout clock q)
  unfolding Keeps abort drop_database release_advisory_lock
  abort-Keeps w =
      law.lock_keeps unlock q.coordination_key _ m
      ∙ (law.lock_keeps unlock q.lock_key _ m ∙ law.drop_others q.name w m other)

  module _ (sem : Semaphore) (source : TemplateSource) (now : ℕ) where
    abbrev Pair : Type 0
    Pair = State pg timeout clock q sem source now

    Spares : {A : Type 0} → Action Pair A → Type 0
    Spares c = (s : Pair) → pg.has m (c s).1.1 ≡ pg.has m s.1

    then-Spares :
        {A B : Type 0} (c : Action Pair A) (next : A → Action Pair B)
        → Spares c
        → ((a : A) → Spares (next a))
        → Spares (c >>= next)
    unfolding Spares
    then-Spares c next k l s = after_keeps (λ (t : Pair). pg.has m t.1) (c s).0 (c s).1 next l ∙ k s

    client-Spares :
        {A : Type 0} (c : Action pg.World A)
        → Keeps c
        → Spares (on_client pg timeout clock q sem source now c)
    unfolding Spares Keeps
    client-Spares c k s = k s.1

    pure-Spares : {A : Type 0} (a : A) → Spares (pure a)
    unfolding Spares
    pure-Spares a s = refl

    create-Spares : Spares (create pg timeout clock q sem source now)
    unfolding Spares
    create-Spares s =
        managed_keeps pg law timeout q.name m other sem (source_name source)
          (new_template now q.project q.lock_key q.identity initializing) s.0 s.1

    with_both_locks-Spares :
        (b : Bool) → Spares (with_both_locks pg timeout clock q sem source now b)
    with_both_locks-Spares true = client-Spares _ (
        then-Keeps _ _ (release-Keeps q.lock_key) (λ _.
          then-Keeps _ _ inspect-Keeps
            (λ _. then-Keeps _ _ (release-Keeps q.coordination_key) (λ _. at_each _ (λ w. refl)))))
    with_both_locks-Spares false = then-Spares _ _ (client-Spares _ find-Keeps) (λ r.
        then-Spares _ _ (client-Spares _ (recoverable-Keeps r))
          (λ _. then-Spares _ _ create-Spares (λ _. pure-Spares (some initialization))))

    with_coordination-Spares :
        (b : Bool) → Spares (with_coordination pg timeout clock q sem source now b)
    with_coordination-Spares true =
        client-Spares _
          (then-Keeps _ _ (release-Keeps q.coordination_key) (λ _. at_each _ (λ w. refl)))
    with_coordination-Spares false =
        then-Spares _ _
          (client-Spares _ (acquire-Keeps q.lock_key q.template_wait_timeout q.operation_timeout))
          (λ _. then-Spares _ _ (client-Spares _ ready-Keeps) with_both_locks-Spares)

    without_coordination-Spares :
        (b : Bool) → Spares (without_coordination pg timeout clock q sem source now b)
    without_coordination-Spares true = pure-Spares (some ready_template)
    without_coordination-Spares false =
        then-Spares _ _
          (client-Spares _
            (acquire-Keeps q.coordination_key q.template_wait_timeout q.operation_timeout))
          (λ _. then-Spares _ _ (client-Spares _ inspect-Keeps) with_coordination-Spares)

    round-Spares : Spares (begin_round pg timeout clock q sem source now)
    unfolding begin_round
    round-Spares = then-Spares _ _ (client-Spares _ inspect-Keeps) without_coordination-Spares

    or_again-Spares :
        (rest : Action Pair (Option TemplatePreparation))
        → Spares rest
        → (p : Option TemplatePreparation)
        → Spares (or_again pg timeout clock q sem source now rest p)
    or_again-Spares rest k (some p) = pure-Spares (some p)
    or_again-Spares rest k none = k

    begin-Spares : (fuel : ℕ) → Spares (begin_template pg timeout clock q sem source now fuel)
    unfolding begin_template
    begin-Spares zero = pure-Spares none
    begin-Spares (suc fuel) = then-Spares _ _ round-Spares (or_again-Spares _ (begin-Spares fuel))

    -- However they end, beginning, finishing and aborting the preparation of a template leave every
    -- other database as it was: it exists afterwards exactly if it existed before.
    pub others_are_spared :
        (fuel : ℕ) (a : DatabaseAdmission sem) (w : pg.World)
        → (pg.has m (begin_template pg timeout clock q sem source now fuel (a, w)).1.1 ≡ pg.has m w)
          × ((pg.has m (finish pg timeout clock q now w).1 ≡ pg.has m w)
              × (pg.has m (abort pg timeout clock q w).1 ≡ pg.has m w))
    unfolding Spares Keeps
    others_are_spared fuel a w = (begin-Spares fuel (a, w), (finish-Keeps now w, abort-Keeps w))
