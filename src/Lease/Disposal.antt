-- ===== src/Lease/Disposal.antt =====
-- src/harness.rs: what the cleanup operation of a lease leaves on the server.
use postgres_test_harness.Base.{
  ℕ, ◌≡◌, ◌≢◌, refl, sym, ◌∙◌, subst, arith, ◌⊎◌, inl, inr, Bool, Bool-cases, true, false, not,
  ◌&&◌, List, [], ◌∷◌, ◌++◌, Text, text, Option, none, some, Error, Result, ok, err,
}
use postgres_test_harness.Semaphore.{Semaphore}
use postgres_test_harness.Name.{DatabaseName}
use postgres_test_harness.Metadata.Resource.{ResourceMetadata, new_test}
use postgres_test_harness.Admin.Action.{Post}
use postgres_test_harness.Admin.Statements.{drop_statement}
use postgres_test_harness.Admin.Postgres.{Postgres, IsPostgres}
use postgres_test_harness.Admin.Client.{drop_database}
use postgres_test_harness.Admin.Configured.{run-Post}
use postgres_test_harness.Admission.{
  DatabaseAdmission, CreationResult, created, failed_creation, no_residual, residual_possible,
}
use postgres_test_harness.Admission.Creation.{create_managed_database_classified}
use postgres_test_harness.Admission.Residue.{Text-cases}
use postgres_test_harness.Admission.Others.{managed_keeps, managed_is_clean}
use postgres_test_harness.Cleanup.Worker.{CleanupOutcome, may_leave_residual}
use postgres_test_harness.Cleanup.Worker
use postgres_test_harness.Sessions.Checkout.{AdminSessionDisposition, reuse, evict}
use postgres_test_harness.Prewarm.State.{PreparedDatabase, complete_phase}
use postgres_test_harness.Prewarm.Pool.{PrewarmPoolInner, finish_creation}
use postgres_test_harness.Lease.{
  PrewarmReturn, return_after_drop, return_publish, Replacement, Site, Disposed, discarded,
  published, replaced, refilled, after_deletion, dispose, payload, drop_return, drop_guard,
  database_cleanup_operation,
}

module _ (sem : Semaphore) (fresh : Replacement) where
  -- The replacement is the last database in the guard's pool.
  abbrev pub IsPublished : Option (PrewarmReturn sem) → Type 0
  IsPublished guard =
      (r : PrewarmReturn sem) × (rest : List PreparedDatabase) × (guard ≡ some r)
      × (r.phase ≡ complete_phase)
      × (r.pool.state.ready ≡ rest ++ fresh.prepared ∷ [])

module _ (pg : Postgres) (law : IsPostgres pg) (timeout : ℕ) (sem : Semaphore)
    (meanwhile : PrewarmPoolInner sem → PrewarmPoolInner sem) (fresh : Replacement)
    (name : DatabaseName) (w : pg.World) (distinct : name.value ≢ fresh.prepared.name.value)
    (free : pg.has fresh.prepared.name.value w ≡ false) where
  -- The lease's database is gone, and every other is as it was.
  abbrev pub Removed : pg.World → Type 0
  Removed v =
      (pg.has name.value v ≡ false) × ((m : Text) → m ≢ name.value → pg.has m v ≡ pg.has m w)

  -- A session is evicted exactly with an outcome that may leave a database behind; otherwise the
  -- lease's database is gone, and every other is as it was but for a replacement in the pool.
  abbrev pub Sound : Disposed pg timeout sem meanwhile fresh → Type 0
  Sound (evict outcome, s) = may_leave_residual outcome ≡ true
  Sound (reuse outcome, (guard, (a, v))) =
      (may_leave_residual outcome ≡ false)
      × ((pg.has name.value v ≡ false)
          × (((m : Text) → m ≢ name.value → pg.has m v ≡ pg.has m w) ⊎ IsPublished sem fresh guard))

  discarded-Sound :
      (r : PrewarmReturn sem) (a : DatabaseAdmission sem) (dropped : Result (Unit {0}))
      (v : pg.World)
      → Post (λ _. Removed) (dropped, v)
      → Sound (discarded pg timeout sem meanwhile fresh r a (dropped, v))
  unfolding may_leave_residual
  discarded-Sound r a (ok _) v h = (refl, (h.0, inl h.1))
  discarded-Sound r a (err e) v h = refl

  -- The replacement may exist now.
  abbrev Replaced : pg.World → Type 0
  Replaced v =
      (pg.has name.value v ≡ false)
      × ((m : Text) → m ≢ name.value → m ≢ fresh.prepared.name.value → pg.has m v ≡ pg.has m w)

  drop_fresh-Post :
      (v : pg.World)
      → Replaced v
      → Post (λ _. Removed) (drop_database pg timeout fresh.prepared.name v)
  unfolding drop_database
  drop_fresh-Post v (gone, same) =
      run-Post (λ _. Removed) timeout (text "drop disposable PostgreSQL database")
        (pg.batch_execute (drop_statement fresh.prepared.name) v).0 _
        (λ _ c. (
          law.drop_others fresh.prepared.name v name.value distinct ∙ gone,
          λ m n. elim (Text-cases m fresh.prepared.name.value) [
            | inl e ↦ rw e (law.drop_done fresh.prepared.name v c ∙ sym free)
            | inr d ↦ law.drop_others fresh.prepared.name v m d ∙ same m n d
          ],
        ))

  published-Sound :
      (r : PrewarmReturn sem) (a : DatabaseAdmission sem) (v : pg.World)
      → Replaced v
      → Sound
          (published pg timeout sem meanwhile fresh (return_publish sem fresh.prepared r) (a, v))
  unfolding return_publish finish_creation may_leave_residual
  published-Sound r a v h =
      elim (Bool-cases (r.pool.state.accepting && not r.pool.state.cleanup_started)) [
        | inl e ↦ rw e (refl, (h.0, inr (_, r.pool.state.ready, refl, refl, refl)))
        | inr e ↦ rw e (discarded-Sound _ a _ _ (drop_fresh-Post v h))
      ]

  replaced-Sound :
      (r : PrewarmReturn sem) (c : CreationResult) (a : DatabaseAdmission sem) (v : pg.World)
      → Replaced v
      → ((e : Error) → c ≡ failed_creation (no_residual e) → Removed v)
      → Sound (replaced pg timeout sem meanwhile fresh r (c, (a, v)))
  unfolding may_leave_residual
  replaced-Sound r created a v h k = published-Sound r a v h
  replaced-Sound r (failed_creation (no_residual e)) a v h k =
      (refl, ((k e refl).0, inl (k e refl).1))
  replaced-Sound r (failed_creation (residual_possible e)) a v h k = refl

  refilled-Sound :
      (again : Bool) (r : PrewarmReturn sem) (a : DatabaseAdmission sem) (v : pg.World)
      → Removed v
      → Sound (refilled pg timeout sem meanwhile fresh (again, r) (a, v))
  unfolding may_leave_residual
  refilled-Sound false r a v h = (refl, (h.0, inl h.1))
  refilled-Sound true r a v (gone, same) =
      replaced-Sound _ _ _ _ (keeps name.value distinct ∙ gone, λ m n d. keeps m d ∙ same m n)
        (λ e c. (clean e c name.value ∙ gone, λ m n. clean e c m ∙ same m n))
    where
      metadata : ResourceMetadata
      metadata = new_test fresh.now fresh.project fresh.owner_key

      keeps :
          (m : Text)
          → m ≢ fresh.prepared.name.value
          → pg.has m
              (create_managed_database_classified pg timeout sem fresh.prepared.name
                fresh.template_name metadata
                (a, v)).1.1
            ≡ pg.has m v
      keeps m d =
          managed_keeps pg law timeout fresh.prepared.name m d sem fresh.template_name metadata a v

      clean :
          (e : Error)
          → (create_managed_database_classified pg timeout sem fresh.prepared.name
              fresh.template_name metadata
              (a, v)).0
            ≡ failed_creation (no_residual e)
          → (m : Text)
          → pg.has m
              (create_managed_database_classified pg timeout sem fresh.prepared.name
                fresh.template_name metadata
                (a, v)).1.1
            ≡ pg.has m v
      clean e c =
          managed_is_clean pg law timeout fresh.prepared.name v
            (same fresh.prepared.name.value (λ p. distinct (sym p)) ∙ free) sem fresh.template_name
            metadata a e c

  after_deletion-Sound :
      (guard : Option (PrewarmReturn sem)) (a : DatabaseAdmission sem) (dropped : Result (Unit {0}))
      (v : pg.World)
      → Post (λ _. Removed) (dropped, v)
      → Sound (after_deletion pg timeout sem meanwhile fresh guard a (dropped, v))
  unfolding may_leave_residual
  after_deletion-Sound guard a (err e) v h = refl
  after_deletion-Sound none a (ok _) v h = (refl, (h.0, inl h.1))
  after_deletion-Sound (some r) a (ok _) v h =
      refilled-Sound (return_after_drop sem r).0 (return_after_drop sem r).1 a v h

  dispose-Sound :
      (guard : Option (PrewarmReturn sem)) (a : DatabaseAdmission sem)
      → Sound (dispose pg timeout sem meanwhile fresh name guard (a, w))
  unfolding dispose drop_database
  dispose-Sound guard a = after_deletion-Sound guard a _ _ (
      run-Post (λ _. Removed) timeout (text "drop disposable PostgreSQL database")
        (pg.batch_execute (drop_statement name) w).0 _
        (λ _ c. (law.drop_done name w c, λ m n. law.drop_others name w m n)))

  dropped-IsPublished :
      (guard : Option (PrewarmReturn sem))
      → IsPublished sem fresh guard
      → IsPublished sem fresh (drop_guard sem guard).1
  unfolding drop_return
  dropped-IsPublished none h = h
  dropped-IsPublished (some g) (r, rest, e, c, l) =
      let same : g ≡ r = cc in (r, rest, rw (same, c) refl, c, l)

  operation-Clean :
      (d : AdminSessionDisposition CleanupOutcome) (guard : Option (PrewarmReturn sem))
      (a : DatabaseAdmission sem) (v : pg.World)
      → Sound (d, (guard, (a, v)))
      → may_leave_residual (payload pg timeout sem meanwhile fresh d) ≡ false
      → (pg.has name.value v ≡ false)
        × (((m : Text) → m ≢ name.value → pg.has m v ≡ pg.has m w)
            ⊎ IsPublished sem fresh (drop_guard sem guard).1)
  operation-Clean (evict o) guard a v h c = absurd (ground arith)
  operation-Clean (reuse o) guard a v (_, (gone, inl same)) c = (gone, inl same)
  operation-Clean (reuse o) guard a v (_, (gone, inr p)) c =
      (gone, inr (dropped-IsPublished guard p))

  -- On a server where PostgreSQL's behaviour holds and the replacement's name is free: when the
  -- cleanup operation of a lease ends in an outcome that keeps the admission open, whatever other
  -- threads do to the pool in the meantime, the lease's database is gone, and every other database
  -- exists exactly if it did before, or the replacement is the last of the pool's idle databases.
  pub cleanup_is_clean :
      (checkout : Result (Unit {0})) (guard left : Option (PrewarmReturn sem))
      (queued : List PreparedDatabase) (a b : DatabaseAdmission sem) (v : pg.World)
      (outcome : CleanupOutcome)
      → database_cleanup_operation pg timeout sem meanwhile fresh checkout name guard (a, w)
        ≡ (outcome, (queued, left), (b, v))
      → may_leave_residual outcome ≡ false
      → (pg.has name.value v ≡ false)
        × (((m : Text) → m ≢ name.value → pg.has m v ≡ pg.has m w) ⊎ IsPublished sem fresh left)
  unfolding database_cleanup_operation may_leave_residual
  cleanup_is_clean (err e) guard left queued a b v outcome h c =
      let same : outcome ≡ Worker.residual_possible e = cc in absurd (ground (arith, same))
  cleanup_is_clean (ok _) guard left queued a b v outcome h c =
      subst Ends h (λ k. operation-Clean _ _ _ _ (dispose-Sound guard a) k) c
    where
      Ends :
          CleanupOutcome
            × (List PreparedDatabase × Option (PrewarmReturn sem))
            × Site pg timeout sem meanwhile fresh
          → Type 0
      Ends (o, (q, l), (d, u)) =
          may_leave_residual o ≡ false
          → (pg.has name.value u ≡ false)
            × (((m : Text) → m ≢ name.value → pg.has m u ≡ pg.has m w) ⊎ IsPublished sem fresh l)
