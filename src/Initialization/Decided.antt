-- ===== src/Initialization/Decided.antt =====
-- src/harness.rs: one round of `begin_template` is enough where nobody else changes the template.
use postgres_test_harness.Base.{
  ℕ, suc, ◌≡◌, ◌≢◌, refl, ap, ◌∙◌, subst, arith, Bool, true, false, Text, text, Option, none, some,
  ok,
}
use postgres_test_harness.Semaphore.{Semaphore}
use postgres_test_harness.Admin.Action.{pure, Post, after-Post, whatever}
use postgres_test_harness.Admin.Postgres.{Postgres, Row, completed, lock_shared, unlock}
use postgres_test_harness.Admin.Client.{release_advisory_lock, find_database}
use postgres_test_harness.Admin.Deadlines.{client_operation_timeout}
use postgres_test_harness.Admin.Settings.{
  acquire_shared_template_advisory_lock, acquire_template_advisory_lock,
}
use postgres_test_harness.Admin.Configured.{
  IsSteady, run-Post, configure_session-Post, configure_coordination-Post,
}
use postgres_test_harness.Admission.{DatabaseAdmission}
use postgres_test_harness.Initialization.{
  TemplateRequest, TemplatePreparation, ready_template, TemplateSource, State, on_client, create,
  drop_recoverable, again_unless, keep_if_ready, acquire_and_inspect_shared_template_lock,
  with_both_locks, with_coordination, without_coordination, begin_round, or_again, begin_template,
}
use postgres_test_harness.Initialization.Begun.{lifted}
use postgres_test_harness.Initialization.Inspected.{row_is_ready, inspected-Post}
use postgres_test_harness.Initialization.Observed.{
  Observes, KnowsReady, Knows, Knows-IsUnlockable, knows,
}

module _ (pg : Postgres) (seen : Observes pg) where
  -- What was seen of a row is what a query finds, until the client itself changes the row.
  abbrev pub IsAlone : Type 0
  IsAlone =
      (n : Text) (r s : Option Row) (w : pg.World)
      → seen.sees n r w
      → (pg.query_database n w).0 ≡ completed s
      → s ≡ r

module _ (pg : Postgres) (seen : Observes pg) (alone : IsAlone pg seen) (timeout : ℕ)
    (clock : pg.World → ℕ) (q : TemplateRequest) where
  acquire_shared-KnowsReady :
      (w : pg.World)
      → KnowsReady pg seen q w
      → Post
          (λ _. KnowsReady pg seen q)
          (acquire_shared_template_advisory_lock pg timeout clock q.lock_key q.template_wait_timeout
            q.operation_timeout w)
  unfolding acquire_shared_template_advisory_lock
  acquire_shared-KnowsReady w k =
      after-Post (λ _. KnowsReady pg seen q) _ _ _
        (configure_coordination-Post pg timeout clock _ steady w k q.template_wait_timeout)
        (λ _ u g.
          after-Post (λ _. KnowsReady pg seen q) _ _ _
            (run-Post _ (client_operation_timeout q.template_wait_timeout)
              (text "acquire shared PostgreSQL template advisory lock")
              (pg.call_lock lock_shared q.lock_key u).0 _ (λ _ c. called u g))
            (λ _ v h. configure_session-Post pg timeout clock _ steady v h q.operation_timeout))
    where
      steady : IsSteady pg (KnowsReady pg seen q)
      steady s l u c (r, x, e) = (r, seen.timeouts_sees s l _ r u x, e)

      called :
          (u : pg.World)
          → KnowsReady pg seen q u
          → KnowsReady pg seen q (pg.call_lock lock_shared q.lock_key u).1
      called u (r, x, e) = (r, seen.call_sees lock_shared q.lock_key _ r u x, e)

  -- Whoever has seen the ready template finds it again.
  inspect-finds :
      (w : pg.World)
      → KnowsReady pg seen q w
      → Post (λ b _. b ≡ true) (acquire_and_inspect_shared_template_lock pg timeout clock q w)
  unfolding acquire_and_inspect_shared_template_lock
  inspect-finds w k =
      after-Post (λ _. KnowsReady pg seen q) _ _ _ (acquire_shared-KnowsReady w k)
        (λ _ u g.
          after-Post (λ b _. b ≡ true) _ _ _
            (inspected-Post pg timeout clock q (λ b _. b ≡ true) u
              (λ r c. ap (row_is_ready q) (alone _ g.0 r u g.1 c) ∙ g.2))
            (λ b v e. keeps b v e))
    where
      keeps :
          (b : Bool) (v : pg.World)
          → b ≡ true
          → Post (λ c _. c ≡ true) (keep_if_ready pg timeout clock q b v)
      keeps true v e = refl
      keeps false v e = absurd (ground arith)

  module _ (sem : Semaphore) (source : TemplateSource) (now : ℕ) where
    Decided : Option TemplatePreparation → State pg timeout clock q sem source now → Type 0
    Decided p s = p ≢ none

    with_both_locks-Decided :
        (b : Bool) (a : DatabaseAdmission sem) (w : pg.World)
        → Knows pg seen q b w
        → Post Decided (with_both_locks pg timeout clock q sem source now b (a, w))
    unfolding Decided release_advisory_lock
    with_both_locks-Decided true a w k =
        lifted (λ p _. p ≢ none) _ a _
          (after-Post (λ _. KnowsReady pg seen q) _ _ _
            (run-Post _ timeout (text "release PostgreSQL advisory lock")
              (pg.call_lock unlock q.lock_key w).0 _
              (λ _ c. Knows-IsUnlockable pg seen q true q.lock_key w c k))
            (λ _ u g.
              after-Post (λ b _. b ≡ true) _ _ _ (inspect-finds u g)
                (λ b v e.
                  whatever (λ p _. p ≢ none) (release_advisory_lock pg timeout q.coordination_key) _
                    v (λ _ x. again b e))))
      where
        again : (b : Bool) → b ≡ true → again_unless pg timeout clock q sem source now b ≢ none
        again true e = λ n. cc
        again false e = absurd (ground arith)
    with_both_locks-Decided false a w k =
        whatever (λ p _. p ≢ none)
          (on_client pg timeout clock q sem source now (find_database pg timeout q.name)) _ (a, w)
          (λ found s.
            whatever (λ p _. p ≢ none)
              (on_client pg timeout clock q sem source now
                (drop_recoverable pg timeout clock q found))
              _ s
              (λ _ t.
                whatever (λ p _. p ≢ none) (create pg timeout clock q sem source now) _ t
                  (λ _ u n. cc)))

    with_coordination-Decided :
        (b : Bool) (s : State pg timeout clock q sem source now)
        → Post Decided (with_coordination pg timeout clock q sem source now b s)
    unfolding Decided
    with_coordination-Decided true s =
        lifted (λ p _. p ≢ none) _ s.0 _
          (whatever (λ p _. p ≢ none) (release_advisory_lock pg timeout q.coordination_key)
            (λ _. pure (some ready_template)) s.1 (λ _ v n. cc))
    with_coordination-Decided false s =
        whatever (λ p _. p ≢ none)
          (on_client pg timeout clock q sem source now (
            acquire_template_advisory_lock pg timeout clock q.lock_key q.template_wait_timeout
              q.operation_timeout))
          _ s
          (λ _ t.
            after-Post (λ b u. Knows pg seen q b u.1) _ _ _
              (lifted (Knows pg seen q) _ t.0 _ (
                inspected-Post pg timeout clock q (Knows pg seen q) t.1
                  (λ r c. knows pg seen q (row_is_ready q r) r _ (seen.query_sees _ t.1 r c) refl)))
              (λ b u k. with_both_locks-Decided b u.0 u.1 k))

    without_coordination-Decided :
        (b : Bool) (s : State pg timeout clock q sem source now)
        → Post Decided (without_coordination pg timeout clock q sem source now b s)
    unfolding Decided
    without_coordination-Decided true s = λ n. cc
    without_coordination-Decided false s =
        whatever (λ p _. p ≢ none)
          (on_client pg timeout clock q sem source now (
            acquire_template_advisory_lock pg timeout clock q.coordination_key
              q.template_wait_timeout q.operation_timeout))
          _ s
          (λ _ t.
            whatever (λ p _. p ≢ none)
              (on_client pg timeout clock q sem source now
                (acquire_and_inspect_shared_template_lock pg timeout clock q))
              _ t (λ b u. with_coordination-Decided b u))

    begin_round-Decided :
        (s : State pg timeout clock q sem source now)
        → Post Decided (begin_round pg timeout clock q sem source now s)
    unfolding begin_round
    begin_round-Decided s =
        whatever Decided
          (on_client pg timeout clock q sem source now
            (acquire_and_inspect_shared_template_lock pg timeout clock q))
          _ s (λ b t. without_coordination-Decided b t)

    -- Where nobody else changes the template's database, `begin_template` with fuel for one round
    -- or more never runs out of it: it fails, or it says what to do.
    pub begin_decides :
        (fuel : ℕ) (s t : State pg timeout clock q sem source now) (p : Option TemplatePreparation)
        → begin_template pg timeout clock q sem source now (suc fuel) s ≡ (ok p, t)
        → p ≢ none
    unfolding begin_template Decided
    begin_decides fuel s t p h =
        subst (Post Decided) h
          (after-Post Decided _ _ _ (begin_round-Decided s) (λ r u d. once r u d))
      where
        once :
            (r : Option TemplatePreparation) (u : State pg timeout clock q sem source now)
            → r ≢ none
            → Post Decided (
                or_again pg timeout clock q sem source now
                  (begin_template pg timeout clock q sem source now fuel)
                  r
                  u)
        once (some x) u d = λ n. cc
        once none u d = absurd (d refl)
