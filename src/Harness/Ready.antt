-- ===== src/Harness/Ready.antt =====
-- src/harness.rs, `PrewarmedDatabasePool::database`: what becomes of the token and of the permit.
use postgres_test_harness.Base.{
  ℕ, ◌+◌, ◌≡◌, ◌⊎◌, inl, inr, refl, ◌∙◌, subst, arith, not, if◌then◌else◌, List, ◌∷◌, [], Bool,
  true, false, none, Result, ok, err,
}
use postgres_test_harness.Semaphore.{Semaphore, Poll, granted, closed, pending}
use postgres_test_harness.Admission.{DatabaseAdmission, acquire}
use postgres_test_harness.Prewarm.State.{PreparedDatabase}
use postgres_test_harness.Prewarm.Pool.{PrewarmPoolInner, take_ready, pop_ready}
use postgres_test_harness.Harness.{
  DatabaseLease, PoolSite, into_lease, return_token, is_ready, leased_ready, with_pool_permit,
  lease_with_token, acquire_database_permit_or_pool_close,
}
use postgres_test_harness.Admission.Permits.{acquire-granted}

module _ (sem : Semaphore) (permit : ℕ) where
  -- Of the outcome, where a token is reserved, and of the pool at the end.
  pub Settled :
      PrewarmPoolInner sem → PoolSite sem → Poll (Result DatabaseLease) × PoolSite sem → Type 0
  Settled late (p, a) (pending, t) = t ≡ (p, a)
  Settled late (p, a) (closed, t) = ⊥
  Settled late (p, a) (granted (ok l), (q, b)) =
      (d : PreparedDatabase) × (rest : List PreparedDatabase) × (late.state.ready ≡ d ∷ rest)
      × (l ≡ into_lease permit d)
      × (q ≡ record late {
        state = record (late.state) { ready = rest; leased = late.state.leased + 1 };
      })
      × (sem.available_permits b + permit ≡ sem.available_permits a)
  Settled late (p, a) (granted (err e), (q, b)) =
      ((q ≡ return_token sem p) ⊎ (q ≡ return_token sem late))
      × (sem.available_permits b ≡ sem.available_permits a)

  taken-Settled :
      (late p : PrewarmPoolInner sem) (a b : DatabaseAdmission sem)
      → sem.available_permits b + permit ≡ sem.available_permits a
      → Settled late (p, a) (leased_ready sem permit (take_ready late.state) (late, b))
  unfolding take_ready pop_ready Settled
  taken-Settled late p a b h = by_state late.state.accepting late.state.ready refl
    where
      by_state :
          (accepting : Bool) (ready : List PreparedDatabase)
          → late.state.ready ≡ ready
          → Settled late
              (p, a)
              (leased_ready sem permit
                (if not accepting then (none, late.state) else pop_ready ready late.state)
                (late, b))
      by_state false ready e = (inr refl, sem.available-add permit b ∙ h)
      by_state true [] e = (inr refl, sem.available-add permit b ∙ h)
      by_state true (d ∷ rest) e = (d, rest, e, refl, refl, h)

  with_pool_permit-Settled :
      (meanwhile : PrewarmPoolInner sem → PrewarmPoolInner sem) (p : PrewarmPoolInner sem)
      (a : DatabaseAdmission sem) (shut : Bool) (q : Poll (Result (DatabaseAdmission sem)))
      → acquire sem permit a ≡ q
      → Settled
          (meanwhile p)
          (p, a)
          (with_pool_permit sem permit meanwhile
            (acquire_database_permit_or_pool_close q shut)
            (p, a))
  unfolding acquire_database_permit_or_pool_close Settled acquire
  with_pool_permit-Settled meanwhile p a true pending e = (inl refl, refl)
  with_pool_permit-Settled meanwhile p a false pending e = refl
  with_pool_permit-Settled meanwhile p a shut closed e = ground arith
  with_pool_permit-Settled meanwhile p a shut (granted (err f)) e = (inl refl, refl)
  with_pool_permit-Settled meanwhile p a shut (granted (ok b)) e =
      taken-Settled (meanwhile p) p a b
        (sem.available-acquire permit a b (acquire-granted sem permit a b e))

  -- A caller that has reserved a token and is granted its lease has the front of the idle
  -- databases, which is leased out, with the token used up, and the permit is taken. A caller that
  -- ends with an error has given the token back, and the permit if it had one, and the idle
  -- databases are as they were. A caller that waits has changed nothing.
  pub token_comes_back :
      (meanwhile : PrewarmPoolInner sem → PrewarmPoolInner sem) (p q : PrewarmPoolInner sem)
      (a b : DatabaseAdmission sem) (r : Poll (Result DatabaseLease))
      → lease_with_token sem permit meanwhile (p, a) ≡ (r, (q, b))
      → Settled (meanwhile p) (p, a) (r, (q, b))
  unfolding lease_with_token
  token_comes_back meanwhile p q a b r h =
      subst (Settled (meanwhile p) (p, a)) h
        (with_pool_permit-Settled meanwhile p a (is_ready (sem.acquire_many 1 p.closed)) _ refl)
