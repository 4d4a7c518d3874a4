-- ===== src/Initialization/Inspected.antt =====
-- src/harness.rs: what a session holds and knows once it has inspected a template under its lock.
use postgres_test_harness.Base.{
  ℕ, ◌≤◌, ◌-◌, ◌≡◌, refl, ◌∙◌, Bool, true, false, List, [], ◌∷◌, arith, Text, text, Option,
}
use postgres_test_harness.Metadata.Decimal.{ℤ, int_eq_refl}
use postgres_test_harness.Admin.Action.{pure, Post, after, after-Post}
use postgres_test_harness.Admin.Postgres.{
  Postgres, Row, Response, completed, refused, timed_out, LockCall, lock, lock_shared, unlock,
  unlock_shared,
}
use postgres_test_harness.Admin.Client.{
  record_of, map_option, map_result, find_database, release_advisory_lock, run_admin_operation,
}
use postgres_test_harness.Admin.Tracking.{Tracks, Lock, lock_eq, exclusive, shared, once, times}
use postgres_test_harness.Initialization.{
  TemplateRequest, template_is_ready, keep_if_ready, acquire_and_inspect_shared_template_lock,
}
use postgres_test_harness.Initialization.Locking.{
  Holds, IsUnlockable, acquire_shared_template-Post, release-Post, release_shared-Post,
}
use postgres_test_harness.Readiness.{template_record_is_ready}

-- Whether a call gives a lock back.
abbrev pub releases : LockCall → ℤ → Lock → Bool
releases unlock k l = lock_eq (record { mode = exclusive; key = k }) l
releases unlock_shared k l = lock_eq (record { mode = shared; key = k }) l
releases lock k l = false
releases lock_shared k l = false

-- What a client has seen of a database's row under a lock: a query tells it, while the session
-- holds the lock, and no call on locks makes it forget but those that give this lock back.
pub record Watches (pg : Postgres) (track : Tracks pg) : Type 1 where
  pub sees : Lock → Text → Option Row → pg.World → Type 0
  pub query_sees :
      (l : Lock) (n : Text) (w : pg.World) (r : Option Row)
      → 1 ≤ track.held l w
      → (pg.query_database n w).0 ≡ completed r
      → sees l n r (pg.query_database n w).1
  pub call_sees :
      (l : Lock) (c : LockCall) (k : ℤ) (n : Text) (r : Option Row) (w : pg.World)
      → releases c k l ≡ false
      → (pg.call_lock c k w).0 ≡ completed tt
      → sees l n r w
      → sees l n r (pg.call_lock c k w).1

module _ (q : TemplateRequest) where
  abbrev pub shared_lock : Lock
  shared_lock = record { mode = shared; key = q.lock_key }

  abbrev pub template_lock : Lock
  template_lock = record { mode = exclusive; key = q.lock_key }

  abbrev pub coordination_lock : Lock
  coordination_lock = record { mode = exclusive; key = q.coordination_key }

  abbrev pub both_locks : List Lock
  both_locks = template_lock ∷ coordination_lock ∷ []

  abbrev pub row_is_ready : Option Row → Bool
  row_is_ready r = template_record_is_ready q.project q.identity q.lock_key (map_option record_of r)

  abbrev pub kept : Bool → List Lock → List Lock
  kept true locks = shared_lock ∷ locks
  kept false locks = locks

module _ (pg : Postgres) (track : Tracks pg) (seen : Watches pg track) (q : TemplateRequest) where
  -- The row that the client has seen under the template's shared lock is that of the ready
  -- template.
  abbrev pub SawReady : pg.World → Type 0
  SawReady w =
      (r : Option Row) × seen.sees (shared_lock q) q.name.value r w × (row_is_ready q r ≡ true)

  abbrev pub Saw : Bool → pg.World → Type 0
  Saw true w = SawReady w
  Saw false w = Unit {0}

  pub Saw-IsUnlockable : (b : Bool) → IsUnlockable pg unlock (Saw b)
  Saw-IsUnlockable true k w c (r, s, e) = (r, seen.call_sees _ unlock k _ r w refl c s, e)
  Saw-IsUnlockable false k w c f = tt

  saw :
      (b : Bool) (r : Option Row) (v : pg.World)
      → seen.sees (shared_lock q) q.name.value r v
      → row_is_ready q r ≡ b
      → Saw b v
  saw true r v s e = (r, s, e)
  saw false r v s e = tt

module _ (pg : Postgres) (timeout : ℕ) (clock : pg.World → ℕ) (q : TemplateRequest) where
  pub inspected-Post :
      (Q : Bool → pg.World → Type 0) (w : pg.World)
      → ((r : Option Row)
          → (pg.query_database q.name.value w).0 ≡ completed r
          → Q (row_is_ready q r) (pg.query_database q.name.value w).1)
      → Post Q (template_is_ready pg timeout clock q w)
  unfolding template_is_ready find_database run_admin_operation
  inspected-Post Q w h = by_response (pg.query_database q.name.value w).0 refl
    where
      by_response :
          (r : Response (Option Row))
          → (pg.query_database q.name.value w).0 ≡ r
          → Post Q (
              after
                (
                  map_result
                      (map_option record_of)
                      (run_admin_operation timeout (text "find disposable PostgreSQL database") r),
                  (pg.query_database q.name.value w).1,
                )
                (λ found. pure (template_record_is_ready q.project q.identity q.lock_key found)))
      by_response (completed r) c = h r c
      by_response (refused s) c = tt
      by_response timed_out c = tt

module _ (pg : Postgres) (track : Tracks pg) (seen : Watches pg track) (timeout : ℕ)
    (clock : pg.World → ℕ) (q : TemplateRequest) where
  pub template_is_ready-Post :
      (locks : List Lock) (w : pg.World)
      → Holds pg track locks w
      → Post (λ _. Holds pg track locks) (template_is_ready pg timeout clock q w)
  template_is_ready-Post locks w h =
      inspected-Post pg timeout clock q _ w (λ r c m. track.query_held _ w r c m ∙ h m)

  held_first :
      (n : ℕ) (locks : List Lock) → n ≡ times (shared_lock q) (shared_lock q ∷ locks) → 1 ≤ n
  held_first n locks h = ground (arith, int_eq_refl q.lock_key)

  -- Under the shared lock.
  inspected_under-Post :
      (locks : List Lock) (w : pg.World)
      → Holds pg track (shared_lock q ∷ locks) w
      → Post
          (λ b v. Holds pg track (shared_lock q ∷ locks) v × Saw pg track seen q b v)
          (template_is_ready pg timeout clock q w)
  inspected_under-Post locks w h = inspected-Post pg timeout clock q _ w (λ r c. (
    λ m. track.query_held _ w r c m ∙ h m,
    saw pg track seen q (row_is_ready q r) r _
        (seen.query_sees (shared_lock q) _ w r (held_first _ locks (h (shared_lock q))) c) refl,
  ))

  keep_if_ready-Post :
      (locks : List Lock) (b : Bool) (w : pg.World)
      → Holds pg track (shared_lock q ∷ locks) w × Saw pg track seen q b w
      → Post
          (λ c v. Holds pg track (kept q c locks) v × Saw pg track seen q c v)
          (keep_if_ready pg timeout clock q b w)
  keep_if_ready-Post locks true w h = h
  keep_if_ready-Post locks false w h =
      after-Post (λ _ v. Holds pg track locks v × Unit {0}) _ _ _
        (release_shared-Post pg track timeout clock (λ _. Unit {0}) (λ k v c f. tt) q.lock_key
          (shared_lock q ∷ locks) locks w h.0 tt (λ m. omega arith))
        (λ _ v g. g)

  -- An inspection that succeeds keeps the shared lock exactly of a template that it finds ready.
  pub inspect-Post :
      (locks : List Lock) (w : pg.World)
      → Holds pg track locks w
      → Post
          (λ c v. Holds pg track (kept q c locks) v × Saw pg track seen q c v)
          (acquire_and_inspect_shared_template_lock pg timeout clock q w)
  unfolding acquire_and_inspect_shared_template_lock
  inspect-Post locks w h =
      after-Post (λ _. Holds pg track (shared_lock q ∷ locks)) _ _ _
        (acquire_shared_template-Post pg track timeout clock q.lock_key locks w h
          q.template_wait_timeout q.operation_timeout)
        (λ _ u g.
          after-Post (λ b v. Holds pg track (shared_lock q ∷ locks) v × Saw pg track seen q b v) _ _
            _ (inspected_under-Post locks u g) (λ b v k. keep_if_ready-Post locks b v k))

  -- The coordination lock is released after an inspection.
  pub freed :
      (b : Bool) (w : pg.World)
      → Holds pg track (kept q b (coordination_lock q ∷ [])) w × Saw pg track seen q b w
      → Post
          (λ _ v. Holds pg track (kept q b []) v × Saw pg track seen q b v)
          (release_advisory_lock pg timeout q.coordination_key w)
  freed b w (h, f) =
      release-Post pg track timeout clock (Saw pg track seen q b)
        (Saw-IsUnlockable pg track seen q b) q.coordination_key
        (kept q b (coordination_lock q ∷ [])) (kept q b []) w h f (step b)
    where
      step :
          (b : Bool) (m : Lock)
          → times m (kept q b (coordination_lock q ∷ [])) - once (coordination_lock q) m
            ≡ times m (kept q b [])
      step true m = omega arith
      step false m = omega arith
