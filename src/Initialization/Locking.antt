-- ===== src/Initialization/Locking.antt =====
-- src/admin.rs and src/harness.rs: which advisory locks a session holds after the calls that prepare
-- a template.
use postgres_test_harness.Base.{ℕ, ◌+◌, ◌-◌, ◌≡◌, ap, ◌∙◌, List, ◌∷◌, arith, Text, text}
use postgres_test_harness.Metadata.Decimal.{ℤ}
use postgres_test_harness.Admin.Action.{◌>>◌, Post, after, after-Post}
use postgres_test_harness.Admin.Statements.{timeouts_statement}
use postgres_test_harness.Admin.Postgres.{
  Postgres, LockCall, lock, lock_shared, unlock, unlock_shared, completed,
}
use postgres_test_harness.Admin.Client.{
  request, release_advisory_lock, release_shared_advisory_lock,
}
use postgres_test_harness.Admin.Deadlines.{client_operation_timeout}
use postgres_test_harness.Admin.Settings.{
  acquire_template_advisory_lock, acquire_shared_template_advisory_lock,
  configure_coordination_timeouts, configure_session_timeouts,
}
use postgres_test_harness.Admin.Tracking.{
  Tracks, Lock, exclusive, shared, once, times, held_after_call,
}
use postgres_test_harness.Admin.Configured.{
  run-Post, configure_session-Post, configure_coordination-Post,
}

module _ (pg : Postgres) where
  -- A fact that no call of this kind changes.
  abbrev pub IsUnlockable : LockCall → (pg.World → Type 0) → Type 0
  IsUnlockable c F =
      (k : ℤ) (w : pg.World)
      → (pg.call_lock c k w).0 ≡ completed tt
      → F w
      → F (pg.call_lock c k w).1

module _ (pg : Postgres) (track : Tracks pg) where
  -- The session holds these locks, each as often as it stands in the list, and no other.
  abbrev pub Holds : List Lock → pg.World → Type 0
  Holds locks w = (m : Lock) → track.held m w ≡ times m locks

  module _ (timeout : ℕ) (clock : pg.World → ℕ) where
    Holds-IsSteady :
        (locks : List Lock) (s l : ℕ) (w : pg.World)
        → (pg.batch_execute (timeouts_statement s l) w).0 ≡ completed tt
        → Holds locks w
        → Holds locks (pg.batch_execute (timeouts_statement s l) w).1
    Holds-IsSteady locks s l w c h m = track.execute_held _ w c m ∙ h m

    acquired :
        (c : LockCall) (key : ℤ) (l : Lock) (locks : List Lock)
        → ((m : Lock) (n : ℕ) → held_after_call c key m n ≡ once l m + n)
        → (operation : Text) (wait_timeout operation_timeout : ℕ) (w : pg.World) → Holds locks w
        → Post
            (λ _. Holds (l ∷ locks))
            (after (configure_coordination_timeouts pg timeout clock wait_timeout w) (λ _.
              (λ v.
                request pg (client_operation_timeout wait_timeout) operation (pg.call_lock c key v))
              >> configure_session_timeouts pg timeout clock operation_timeout))
    acquired c key l locks step operation wait_timeout operation_timeout w h =
        after-Post (λ _. Holds locks) _ _ _
          (configure_coordination-Post pg timeout clock (Holds locks) (Holds-IsSteady locks) w h
            wait_timeout)
          (λ _ u g.
            after-Post (λ _. Holds (l ∷ locks)) _ _ _
              (run-Post (λ _. Holds (l ∷ locks)) (client_operation_timeout wait_timeout) operation
                (pg.call_lock c key u).0 _
                (λ _ d m. track.call_held c key u d m ∙ step m _ ∙ ap (◌+◌ (once l m)) (g m)))
              (λ _ v k.
                configure_session-Post pg timeout clock (Holds (l ∷ locks))
                  (Holds-IsSteady (l ∷ locks)) v k operation_timeout))

    module _ (key : ℤ) (locks : List Lock) (w : pg.World) (h : Holds locks w)
        (wait_timeout operation_timeout : ℕ) where
      pub acquire_template-Post :
          Post
            (λ _. Holds (record { mode = exclusive; key = key } ∷ locks))
            (acquire_template_advisory_lock pg timeout clock key wait_timeout operation_timeout w)
      unfolding acquire_template_advisory_lock
      acquire_template-Post =
          acquired lock key (record { mode = exclusive; key = key }) locks (λ m n. omega arith)
            (text "acquire PostgreSQL template advisory lock") wait_timeout operation_timeout w h

      pub acquire_shared_template-Post :
          Post
            (λ _. Holds (record { mode = shared; key = key } ∷ locks))
            (acquire_shared_template_advisory_lock pg timeout clock key wait_timeout
              operation_timeout w)
      unfolding acquire_shared_template_advisory_lock
      acquire_shared_template-Post =
          acquired lock_shared key (record { mode = shared; key = key }) locks (λ m n. omega arith)
            (text "acquire shared PostgreSQL template advisory lock") wait_timeout operation_timeout
            w h

    module _ (F : pg.World → Type 0) (free : IsUnlockable pg unlock F) (key : ℤ)
        (locks rest : List Lock) (w : pg.World) (h : Holds locks w) (f : F w) where
      pub release-Post :
          ((m : Lock)
            → times m locks - once (record { mode = exclusive; key = key }) m ≡ times m rest)
          → Post (λ _ v. Holds rest v × F v) (release_advisory_lock pg timeout key w)
      unfolding release_advisory_lock
      release-Post step =
          run-Post _ timeout (text "release PostgreSQL advisory lock") (pg.call_lock unlock key w).0
            _
            (λ _ c.
              (λ m. omega (arith, track.call_held unlock key w c m, h m, step m), free key w c f))

    module _ (F : pg.World → Type 0) (free : IsUnlockable pg unlock_shared F) (key : ℤ)
        (locks rest : List Lock) (w : pg.World) (h : Holds locks w) (f : F w) where
      pub release_shared-Post :
          ((m : Lock) → times m locks - once (record { mode = shared; key = key }) m ≡ times m rest)
          → Post (λ _ v. Holds rest v × F v) (release_shared_advisory_lock pg timeout key w)
      unfolding release_shared_advisory_lock
      release_shared-Post step =
          run-Post _ timeout (text "release shared PostgreSQL advisory lock")
            (pg.call_lock unlock_shared key w).0 _
            (λ _ c. (
              λ m. omega (arith, track.call_held unlock_shared key w c m, h m, step m),
              free key w c f,
            ))
