-- ===== src/Initialization/Begun.antt =====
-- src/harness.rs: what `begin_template` leaves its caller with.
use postgres_test_harness.Base.{
  ℕ, zero, suc, ◌≡◌, subst, Bool, true, false, [], ◌∷◌, arith, Option, none, some, Result, ok, err,
}
use postgres_test_harness.Semaphore.{Semaphore}
use postgres_test_harness.Admin.Action.{Action, Post, after-Post}
use postgres_test_harness.Admin.Postgres.{Postgres}
use postgres_test_harness.Admin.Tracking.{Tracks, Lock}
use postgres_test_harness.Admission.{DatabaseAdmission}
use postgres_test_harness.Initialization.{
  TemplateRequest, TemplatePreparation, TemplateSource, ready_template, initialization, State,
  again_unless, with_both_locks, with_coordination, without_coordination, begin_round, or_again,
  begin_template,
}
use postgres_test_harness.Initialization.Made.{
  find_database-Post, drop_recoverable-Post, create-Post,
}
use postgres_test_harness.Initialization.Locking.{Holds, acquire_template-Post, release-Post}
use postgres_test_harness.Initialization.Inspected.{
  Watches, SawReady, Saw, kept, shared_lock, coordination_lock, template_is_ready-Post,
  inspect-Post, both_locks, freed,
}

-- An action of a client, beside the admission.
pub lifted :
    {World S A : Type 0} (Q : A → World → Type 0) (r : Result A) (a : S) (v : World)
    → Post Q (r, v)
    → Post (λ x (s : S × World). Q x s.1) (r, (a, v))
lifted Q (ok x) a v h = h
lifted Q (err e) a v h = tt

module _ (pg : Postgres) (track : Tracks pg) (seen : Watches pg track) (q : TemplateRequest) where
  -- What a session holds once it is told what to do, and what it knows.
  abbrev pub Prepared : Option TemplatePreparation → pg.World → Type 0
  Prepared (some ready_template) w =
      Holds pg track (shared_lock q ∷ []) w × SawReady pg track seen q w
  Prepared (some initialization) w = Holds pg track (both_locks q) w
  Prepared none w = Holds pg track [] w

  module _ (timeout : ℕ) (clock : pg.World → ℕ) (sem : Semaphore) (source : TemplateSource)
      (now : ℕ) where
    abbrev pub Begun : Option TemplatePreparation → State pg timeout clock q sem source now → Type 0
    Begun p s = Prepared p s.1

    prepared :
        (b : Bool) (w : pg.World)
        → Holds pg track (kept q b []) w × Saw pg track seen q b w
        → Prepared (again_unless pg timeout clock q sem source now b) w
    prepared true w h = h
    prepared false w h = h.0

    with_both_locks-Post :
        (b : Bool) (a : DatabaseAdmission sem) (w : pg.World)
        → Holds pg track (both_locks q) w
        → Post Begun (with_both_locks pg timeout clock q sem source now b (a, w))
    with_both_locks-Post true a w h = lifted Prepared _ a _ (
        after-Post (λ _ v. Holds pg track (coordination_lock q ∷ []) v × Unit {0}) _ _ _
          (release-Post pg track timeout clock (λ _. Unit {0}) (λ k v c f. tt) q.lock_key
            (both_locks q) (coordination_lock q ∷ []) w h tt (λ m. omega arith))
          (λ _ u g.
            after-Post
              (λ b v.
                Holds pg track (kept q b (coordination_lock q ∷ [])) v × Saw pg track seen q b v)
              _ _ _ (inspect-Post pg track seen timeout clock q (coordination_lock q ∷ []) u g.0)
              (λ b v k.
                after-Post (λ _ x. Holds pg track (kept q b []) x × Saw pg track seen q b x) _ _ _
                  (freed pg track seen timeout clock q b v k) (λ _ x j. prepared b x j))))
    with_both_locks-Post false a w h =
        after-Post (λ _ s. Holds pg track (both_locks q) s.1) _ _ _
          (lifted (λ _. Holds pg track (both_locks q)) _ a _
            (find_database-Post pg track (both_locks q) timeout q.name w h))
          (λ found s g.
            after-Post (λ _ t. Holds pg track (both_locks q) t.1) _ _ _
              (lifted (λ _. Holds pg track (both_locks q)) _ s.0 _
                (drop_recoverable-Post pg track (both_locks q) timeout clock q found s.1 g))
              (λ _ t k.
                after-Post (λ _ u. Holds pg track (both_locks q) u.1) _ _ _
                  (create-Post pg track (both_locks q) timeout clock q sem source now t.0 t.1 k)
                  (λ _ u j. j)))

    with_coordination-Post :
        (b : Bool) (a : DatabaseAdmission sem) (w : pg.World)
        → Holds pg track (kept q b (coordination_lock q ∷ [])) w × Saw pg track seen q b w
        → Post Begun (with_coordination pg timeout clock q sem source now b (a, w))
    with_coordination-Post true a w h = lifted Prepared _ a _ (
        after-Post (λ _ x. Holds pg track (kept q true []) x × Saw pg track seen q true x) _ _ _
          (freed pg track seen timeout clock q true w h) (λ _ x j. j))
    with_coordination-Post false a w h =
        after-Post (λ _ s. Holds pg track (both_locks q) s.1) _ _ _
          (lifted (λ _. Holds pg track (both_locks q)) _ a _
            (acquire_template-Post pg track timeout clock q.lock_key (coordination_lock q ∷ []) w
              h.0 q.template_wait_timeout q.operation_timeout))
          (λ _ s g.
            after-Post (λ _ t. Holds pg track (both_locks q) t.1) _ _ _
              (lifted (λ _. Holds pg track (both_locks q)) _ s.0 _
                (template_is_ready-Post pg track seen timeout clock q (both_locks q) s.1 g))
              (λ b t k. with_both_locks-Post b t.0 t.1 k))

    without_coordination-Post :
        (b : Bool) (a : DatabaseAdmission sem) (w : pg.World)
        → Holds pg track (kept q b []) w × Saw pg track seen q b w
        → Post Begun (without_coordination pg timeout clock q sem source now b (a, w))
    without_coordination-Post true a w h = h
    without_coordination-Post false a w h =
        after-Post (λ _ s. Holds pg track (coordination_lock q ∷ []) s.1) _ _ _
          (lifted (λ _. Holds pg track (coordination_lock q ∷ [])) _ a _
            (acquire_template-Post pg track timeout clock q.coordination_key [] w h.0
              q.template_wait_timeout q.operation_timeout))
          (λ _ s g.
            after-Post
              (λ b t.
                Holds pg track (kept q b (coordination_lock q ∷ [])) t.1
                × Saw pg track seen q b t.1)
              _ _ _
              (lifted
                (λ b v.
                  Holds pg track (kept q b (coordination_lock q ∷ [])) v × Saw pg track seen q b v)
                _ s.0 _
                (inspect-Post pg track seen timeout clock q (coordination_lock q ∷ []) s.1 g))
              (λ b t k. with_coordination-Post b t.0 t.1 k))

    begin_round-Post :
        (a : DatabaseAdmission sem) (w : pg.World)
        → Holds pg track [] w
        → Post Begun (begin_round pg timeout clock q sem source now (a, w))
    unfolding begin_round
    begin_round-Post a w h =
        after-Post (λ b t. Holds pg track (kept q b []) t.1 × Saw pg track seen q b t.1) _ _ _
          (lifted (λ b v. Holds pg track (kept q b []) v × Saw pg track seen q b v) _ a _
            (inspect-Post pg track seen timeout clock q [] w h))
          (λ b t k. without_coordination-Post b t.0 t.1 k)

    or_again-Post :
        (rest : Action (State pg timeout clock q sem source now) (Option TemplatePreparation))
        → ((s : State pg timeout clock q sem source now)
            → Holds pg track [] s.1
            → Post Begun (rest s))
        → (p : Option TemplatePreparation) (s : State pg timeout clock q sem source now) → Begun p s
        → Post Begun (or_again pg timeout clock q sem source now rest p s)
    or_again-Post rest k (some p) s g = g
    or_again-Post rest k none s g = k s g

    pub begin-Post :
        (fuel : ℕ) (a : DatabaseAdmission sem) (w : pg.World)
        → Holds pg track [] w
        → Post Begun (begin_template pg timeout clock q sem source now fuel (a, w))
    unfolding begin_template
    begin-Post zero a w h = h
    begin-Post (suc fuel) a w h = after-Post Begun _ _ _ (begin_round-Post a w h) (
        or_again-Post (begin_template pg timeout clock q sem source now fuel)
          (λ s g. begin-Post fuel s.0 s.1 g))

    -- Of a session that holds no lock, `begin_template` makes one that holds exactly the shared
    -- lock, once, and that has seen under it the row of the ready template, or one that holds
    -- exactly the template's lock and the coordination lock, once each, and is to initialize it;
    -- and it makes nothing else, however many rounds it takes.
    pub begin_hands_over :
        (fuel : ℕ) (a b : DatabaseAdmission sem) (w v : pg.World) (p : TemplatePreparation)
        → ((m : Lock) → track.held m w ≡ 0)
        → begin_template pg timeout clock q sem source now fuel (a, w) ≡ (ok (some p), (b, v))
        → Prepared (some p) v
    begin_hands_over fuel a b w v p free h = subst (Post Begun) h (begin-Post fuel a w free)
