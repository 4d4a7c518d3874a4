-- ===== src/Harness/Leases.antt =====
-- src/harness.rs, `create_test_database`: where the connection permit is, and which databases exist,
-- however making a lease ends.
use postgres_test_harness.Base.{
  ℕ, ◌+◌, ◌≡◌, ◌≢◌, ◌⊎◌, inl, inr, refl, sym, ap, ◌∙◌, subst, Bool-cases, false, true, Text,
  connection_budget_closed, Result, ok, err,
}
use postgres_test_harness.Semaphore.{Semaphore, Poll, granted, closed, pending}
use postgres_test_harness.Metadata.Resource.{ResourceMetadata, new_test}
use postgres_test_harness.Admin.Postgres.{Postgres, IsPostgres}
use postgres_test_harness.Admission.{
  DatabaseAdmission, CreationResult, created, failed_creation, acquire, is_closed,
}
use postgres_test_harness.Admission.Creation.{create_managed_database_classified}
use postgres_test_harness.Admission.Others.{managed_keeps}
use postgres_test_harness.Admission.Residue.{open_after_failure_is_clean}
use postgres_test_harness.Lease.{Replacement}
use postgres_test_harness.Harness.{
  DatabaseLease, Site, create_fresh, leased_or_back, create_with_permit, with_permit,
  create_test_database, drop_held,
}
use postgres_test_harness.Admission.Permits.{attempt-permits, acquire-refused, acquire-granted}
use postgres_test_harness.Admission.Made.{Made, managed-Made}

module _ (pg : Postgres) (law : IsPostgres pg) (timeout : ℕ) (sem : Semaphore) (fresh : Replacement)
    (permit : ℕ) where
  abbrev pub Here : Type 0
  Here = Site pg timeout sem fresh

  -- What the blocking part has done, by how it ended: a lease has the permit and its database
  -- exists; an error has given the permit back, and where the admission is open nothing was made.
  abbrev pub Leases : Here → Result DatabaseLease × Here → Type 0
  Leases (a, w) (ok l, (b, v)) =
      (l.permit ≡ permit)
      × (sem.available_permits b ≡ sem.available_permits a)
      × (pg.has l.name.value v ≡ true)
      × ((m : Text) → m ≢ l.name.value → pg.has m v ≡ pg.has m w)
  Leases (a, w) (err e, (b, v)) =
      (sem.available_permits b ≡ sem.available_permits a + permit)
      × ((is_closed sem b ≡ true) ⊎ ((m : Text) → pg.has m v ≡ pg.has m w))

  abbrev metadata : ResourceMetadata
  metadata = new_test fresh.now fresh.project fresh.owner_key

  by_creation :
      (a : DatabaseAdmission sem) (w : pg.World)
      → pg.has fresh.prepared.name.value w ≡ false
      → (x : CreationResult × Here) → create_fresh pg timeout sem fresh (a, w) ≡ x
      → Leases (a, w) (leased_or_back pg timeout sem fresh permit x)
  unfolding create_fresh create_managed_database_classified is_closed Made
  by_creation a w free (created, (b, v)) e = (
    refl,
    ap (λ x. sem.available_permits x.1.0) (sym e) ∙ attempt-permits sem _ a w,
    subst (λ x. Made pg law timeout fresh.prepared.name (x.0, x.1.1)) e
        (managed-Made pg law timeout fresh.prepared.name sem fresh.template_name metadata a w),
    λ m other.
        ap (λ x. pg.has m x.1.1) (sym e)
        ∙ managed_keeps pg law timeout fresh.prepared.name m other sem fresh.template_name metadata
            a w,
  )
  by_creation a w free (failed_creation f, (b, v)) e = (
    sem.available-add permit b
        ∙ ap (λ n. n + permit)
            (ap (λ x. sem.available_permits x.1.0) (sym e) ∙ attempt-permits sem _ a w),
    elim (Bool-cases (is_closed sem (drop_held sem permit b))) [
      | inl shut ↦ inl shut
      | inr opened ↦ inr (
          open_after_failure_is_clean pg law timeout fresh.prepared.name w free sem a b
            fresh.template_name metadata f v e (sym (sem.is_closed-add permit b) ∙ opened))
    ],
  )

  create_with_permit-Leases :
      (checkout : Result (Unit {0})) (s : Here)
      → pg.has fresh.prepared.name.value s.1 ≡ false
      → Leases s (create_with_permit pg timeout sem fresh permit checkout s)
  unfolding create_with_permit
  create_with_permit-Leases (err e) (a, w) free = (sem.available-add permit a, inr (λ m. refl))
  create_with_permit-Leases (ok _) (a, w) free = by_creation a w free _ refl

  Ends : (Here → Here) → Here → Poll (Result DatabaseLease) × Here → Type 0
  Ends meanwhile (a, w) (pending, t) = Unit {0}
  Ends meanwhile (a, w) (closed, t) = Unit {0}
  Ends meanwhile (a, w) (granted r, t) =
      ((is_closed sem a ≡ true) × (r ≡ err connection_budget_closed) × (t ≡ (a, w)))
      ⊎ ((b : DatabaseAdmission sem) × (sem.available_permits b + permit ≡ sem.available_permits a)
          × Leases (meanwhile (b, w)) (r, t))

  with_permit-Ends :
      (meanwhile : Here → Here) (checkout : Result (Unit {0})) (a : DatabaseAdmission sem)
      (w : pg.World)
      → ((b : DatabaseAdmission sem)
          → pg.has fresh.prepared.name.value (meanwhile (b, w)).1 ≡ false)
      → (q : Poll (Result (DatabaseAdmission sem))) → acquire sem permit a ≡ q
      → Ends meanwhile (a, w) (with_permit pg timeout sem fresh permit meanwhile checkout q (a, w))
  unfolding Ends
  with_permit-Ends meanwhile checkout a w free pending e = tt
  with_permit-Ends meanwhile checkout a w free closed e = tt
  with_permit-Ends meanwhile checkout a w free (granted (err f)) e =
      let (shut, same) = acquire-refused sem permit a f e in inl (shut, ap err same, refl)
  with_permit-Ends meanwhile checkout a w free (granted (ok b)) e = inr (
    b,
    sem.available-acquire permit a b (acquire-granted sem permit a b e),
    create_with_permit-Leases checkout (meanwhile (b, w)) (free b),
  )

  -- When making a lease of a fresh database ends, whatever other threads did while it waited for
  -- the permit, except that none of them took the name that is drawn for it: the admission was closed, and nothing has changed; or the permit was taken, and
  -- from there on either the lease has it, its database exists and no other one was touched, or
  -- the permit is back with the error, and if the admission is open, no database was left.
  pub lease_or_permit_back :
      (meanwhile : Here → Here) (checkout : Result (Unit {0})) (a : DatabaseAdmission sem)
      (w : pg.World) (r : Result DatabaseLease) (t : Here)
      → ((b : DatabaseAdmission sem)
          → pg.has fresh.prepared.name.value (meanwhile (b, w)).1 ≡ false)
      → create_test_database pg timeout sem fresh permit meanwhile checkout (a, w) ≡ (granted r, t)
      → ((is_closed sem a ≡ true) × (r ≡ err connection_budget_closed) × (t ≡ (a, w)))
        ⊎ ((b : DatabaseAdmission sem) × (sem.available_permits b + permit
              ≡ sem.available_permits a)
            × Leases (meanwhile (b, w)) (r, t))
  unfolding create_test_database Ends
  lease_or_permit_back meanwhile checkout a w r t free h =
      subst (Ends meanwhile (a, w)) h (with_permit-Ends meanwhile checkout a w free _ refl)
