-- ===== src/Initialization/Ended.antt =====
-- src/harness.rs: how an initialization ends, by `finish` or `abort`.
use postgres_test_harness.Base.{
  ℕ, ◌≡◌, refl, ◌∙◌, Bool, true, false, List, [], ◌∷◌, arith, text, Option, some, Error,
  template_connections_remain, template_initializer, template_initializer_and_cleanup, ◌⊎◌, Result,
  ok, err,
}
use postgres_test_harness.Metadata.Resource.{ready, new_template, encode}
use postgres_test_harness.Admin.Action.{◌>>◌, Post, after, after-Post, raise_if-Post}
use postgres_test_harness.Admin.Statements.{comment_statement, disallow_statement}
use postgres_test_harness.Admin.Postgres.{Postgres, IsPostgres}
use postgres_test_harness.Admin.Client.{
  release_advisory_lock, set_database_metadata, disable_database_connections,
}
use postgres_test_harness.Admin.Deadlines.{duration_millis}
use postgres_test_harness.Admin.Settings.{terminate_database_connections, as_i64, some_not}
use postgres_test_harness.Admin.Tracking.{Tracks, Lock}
use postgres_test_harness.Admin.Configured.{run-Post}
use postgres_test_harness.Initialization.{
  TemplateRequest, ready_template, acquire_and_inspect_shared_template_lock, finish,
  inconsistent_unless,
}
use postgres_test_harness.Initialization.Locking.{Holds, release-Post}
use postgres_test_harness.Initialization.Made.{executed-Post}
use postgres_test_harness.Initialization.Inspected.{
  Watches, Saw, kept, coordination_lock, inspect-Post, both_locks, freed,
}
use postgres_test_harness.Initialization.Begun.{Prepared}

module _ (pg : Postgres) (track : Tracks pg) (timeout : ℕ) (clock : pg.World → ℕ)
    (q : TemplateRequest) where
  -- A value computed without a request.
  given-Post :
      {A : Type 0} (P : pg.World → Type 0) (r : Result A) (w : pg.World)
      → P w
      → Post (λ _. P) (r, w)
  given-Post P (ok a) w p = p
  given-Post P (err e) w p = tt

  terminate-Post :
      (locks : List Lock) (w : pg.World)
      → Holds pg track locks w
      → Post
          (λ _. Holds pg track locks)
          (terminate_database_connections pg timeout clock q.name q.operation_timeout w)
  unfolding terminate_database_connections
  terminate-Post locks w h =
      after-Post (λ _. Holds pg track locks) _ _ _
        (given-Post (Holds pg track locks) (duration_millis q.operation_timeout) w h)
        (λ n u g.
          after-Post (λ _. Holds pg track locks) _ _ _
            (given-Post (Holds pg track locks) (as_i64 q.operation_timeout n) u g)
            (λ m v k.
              after-Post (λ _. Holds pg track locks) _ _ _
                (run-Post (λ _. Holds pg track locks) timeout
                  (text "terminate PostgreSQL template connections")
                  (pg.terminate q.name.value m v).0 _
                  (λ rows c l. track.terminate_held _ m v rows c l ∙ k l))
                (λ rows x j.
                  after-Post (λ _. Holds pg track locks) _ _ _
                    (raise_if-Post (Holds pg track locks) (some_not rows)
                      (template_connections_remain q.name.value) x (λ _. j))
                    (λ _ y i.
                      after-Post (λ _. Holds pg track locks) _ _ _
                        (run-Post (λ _. Holds pg track locks) timeout
                          (text "verify PostgreSQL template connections")
                          (pg.has_connections q.name.value y).0 _
                          (λ b c l. track.connections_held _ y b c l ∙ i l))
                        (λ b z o.
                          raise_if-Post (Holds pg track locks) b
                            (template_connections_remain q.name.value) z (λ _. o))))))

  module _ (seen : Watches pg track) where
    pub finish-Post :
        (now : ℕ) (w : pg.World)
        → Holds pg track (both_locks q) w
        → Post
            (λ _. Prepared pg track seen q (some ready_template))
            (finish pg timeout clock q now w)
    unfolding finish disable_database_connections set_database_metadata
    finish-Post now w h =
        after-Post (λ _. Holds pg track (both_locks q)) _ _ _
          (executed-Post pg track (both_locks q) timeout (disallow_statement q.name)
            (text "disable PostgreSQL template connections") (λ n. refl) w h)
          (λ _ u g.
            after-Post (λ _. Holds pg track (both_locks q)) _ _ _
              (terminate-Post (both_locks q) u g)
              (λ _ v k.
                after-Post (λ _. Holds pg track (both_locks q)) _ _ _
                  (executed-Post pg track (both_locks q) timeout
                    (comment_statement q.name
                      (encode (new_template now q.project q.lock_key q.identity ready)))
                    (text "write disposable PostgreSQL database metadata") (λ n. refl) v k)
                  (λ _ x j.
                    after-Post (λ _ y. Holds pg track (coordination_lock q ∷ []) y × Unit {0}) _ _ _
                      (release-Post pg track timeout clock (λ _. Unit {0}) (λ k y c f. tt)
                        q.lock_key (both_locks q) (coordination_lock q ∷ []) x j tt
                        (λ m. omega arith))
                      (λ _ y i. shared_again y i.0))))
      where
        ready_only :
            (b : Bool) (w : pg.World)
            → Holds pg track (kept q b []) w × Saw pg track seen q b w
            → Post
                (λ _. Prepared pg track seen q (some ready_template))
                (inconsistent_unless pg timeout clock q b w)
        ready_only true w h = h
        ready_only false w h = tt

        shared_again :
            (y : pg.World)
            → Holds pg track (coordination_lock q ∷ []) y
            → Post
                (λ _. Prepared pg track seen q (some ready_template))
                (after (acquire_and_inspect_shared_template_lock pg timeout clock q y) (λ b.
                  release_advisory_lock pg timeout q.coordination_key
                  >> inconsistent_unless pg timeout clock q b))
        shared_again y i =
            after-Post
              (λ b x.
                Holds pg track (kept q b (coordination_lock q ∷ [])) x × Saw pg track seen q b x)
              _ _ _ (inspect-Post pg track seen timeout clock q (coordination_lock q ∷ []) y i)
              (λ b x j.
                after-Post (λ _ z. Holds pg track (kept q b []) z × Saw pg track seen q b z) _ _ _
                  (freed pg track seen timeout clock q b x j) (λ _ z k. ready_only b z k))

  -- No lock is held, and the template's database is gone.
  abbrev pub Undone : pg.World → Type 0
  Undone v = Holds pg track [] v × (pg.has q.name.value v ≡ false)

  module _ (law : IsPostgres pg) (initializer : pg.World → Option ℕ × pg.World)
      (apart : (w : pg.World) (m : Lock) → track.held m (initializer w).1 ≡ track.held m w)
      (now : ℕ) where
    -- The initializer's error with everything undone, or that error with the one of undoing.
    abbrev pub Failed : ℕ → Result (Unit {0}) × pg.World → Type 0
    Failed k (r, v) =
        ((r ≡ err (template_initializer k))
          × (Holds pg track [] v × (pg.has q.name.value v ≡ false)))
        ⊎ ((e : Error) × (r ≡ err (template_initializer_and_cleanup k e)))
