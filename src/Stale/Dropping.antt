-- ===== src/Stale/Dropping.antt =====
-- src/harness.rs, `cleanup_candidate_after_lock`: what is known of a database that the stale pass
-- drops.
use postgres_test_harness.Base.{
  ℕ, ◌≡◌, refl, sym, ap, ◌∙◌, arith, inl, inr, true, false, Bool-cases, Text, text_eq,
  text_eq_sound, text_eq_refl, Option, none, some, Result, ok, err,
}
use postgres_test_harness.Config.Project.{ProjectName}
use postgres_test_harness.Name.{DatabaseName, from_existing}
use postgres_test_harness.Metadata.Decimal.{ℤ}
use postgres_test_harness.Admin.Postgres.{Postgres, IsPostgres}
use postgres_test_harness.Admin.Client.{DatabaseRecord, find_database}
use postgres_test_harness.Stale.Classify.{
  CleanupReport, candidate, classify_cleanup_record, revalidate_cleanup_candidate,
}
use postgres_test_harness.Stale.Pass.{
  cleanup_candidate_after_lock, looked_up, named, drop_revalidated, Locked,
}
use postgres_test_harness.Stale.Revalidation.{revalidate_sound, candidate-name}
use postgres_test_harness.Stale.Spared.{dropped-Keeps}

module _ (pg : Postgres) (law : IsPostgres pg) (timeout : ℕ) (project : ProjectName)
    (now stale_after : ℕ) (m : Text) (r : DatabaseRecord) (key : ℤ) (w : pg.World) where
  -- The server's answer under the lock is the listed record, a candidate under this name.
  abbrev pub IsRevalidated : DatabaseName → Type 0
  IsRevalidated name =
      ((find_database pg timeout name w).0 ≡ ok (some r))
      × (classify_cleanup_record project now stale_after r ≡ candidate name key)

  IsLost : Locked pg timeout project now stale_after → Type 0
  IsLost l = (pg.has m w ≡ true) × (pg.has m l.1 ≡ false)

  abbrev Why : Type 0
  Why = (name : DatabaseName) × (name.value ≡ m) × IsRevalidated name

  same :
      (l : Locked pg timeout project now stale_after) → pg.has m l.1 ≡ pg.has m w → IsLost l → Why
  unfolding IsLost
  same l e (before, after) = absurd (cc (sym after ∙ e ∙ before))

  classified :
      (n name : DatabaseName)
      → from_existing project r.name ≡ some n
      → classify_cleanup_record project now stale_after r ≡ candidate name key
      → name ≡ n
  unfolding classify_cleanup_record
  classified n name e c =
      let found =
        candidate-name project now stale_after (from_existing project r.name) r.comment name key
          c in
      ground (arith, sym found ∙ e)

  module _ (n : DatabaseName) (e : from_existing project r.name ≡ some n)
      (report : CleanupReport) where
    looked_up-Why :
        (found : Result (Option DatabaseRecord)) (v : pg.World)
        → (find_database pg timeout n w) ≡ (found, v)
        → pg.has m v ≡ pg.has m w
        → IsLost (looked_up pg timeout project now stale_after r key report (found, v))
        → Why
    looked_up-Why (err x) v h k = same _ k
    looked_up-Why (ok current) v h k =
        by_revalidation (revalidate_cleanup_candidate project now stale_after r current key report)
          refl
      where
        by_revalidation :
            (p : Option DatabaseName × CleanupReport)
            → revalidate_cleanup_candidate project now stale_after r current key report ≡ p
            → IsLost (drop_revalidated pg timeout project now stale_after p v)
            → Why
        by_revalidation (none, after) g = same _ k
        by_revalidation (some name, after) g =
            let (listed, c) =
              revalidate_sound project now stale_after r current key report after name g in
            elim (Bool-cases (text_eq name.value m)) [
              | inl t ↦ λ lost. (
                name,
                text_eq_sound name.value m t,
                (
                  ap (λ x. (find_database pg timeout x w).0) (classified n name e c)
                      ∙ ap (λ x. x.0) h
                      ∙ ap ok listed,
                  c,
                ),
              )
              | inr f ↦ same _ (
                  dropped-Keeps pg law timeout project now stale_after m name after v
                    (λ p. cc (sym f ∙ ap (text_eq name.value) p ∙ text_eq_refl name.value))
                  ∙ k)
            ]

  -- On a server that meets PostgreSQL's laws: when a database is gone after the locked part of the
  -- stale pass over a listed record, then the record that the server gave for that database's name
  -- under the lock was the listed one, and this record is a candidate for dropping under that
  -- name, whose lock key is the one held.
  pub dropped_is_revalidated :
      (report : CleanupReport)
      → pg.has m w ≡ true
      → pg.has m (cleanup_candidate_after_lock pg timeout project now stale_after r key report w).1
        ≡ false
      → (name : DatabaseName) × (name.value ≡ m)
        × ((find_database pg timeout name w).0 ≡ ok (some r))
        × (classify_cleanup_record project now stale_after r ≡ candidate name key)
  unfolding cleanup_candidate_after_lock find_database IsLost
  dropped_is_revalidated report before after =
      let (name, v, p) = by_name (from_existing project r.name) refl (before, after) in
      (name, v, p.0, p.1)
    where
      by_name :
          (o : Option DatabaseName)
          → from_existing project r.name ≡ o
          → IsLost (named pg timeout project now stale_after o r key report w)
          → Why
      by_name none e = same (named pg timeout project now stale_after none r key report w) refl
      by_name (some n) e = looked_up-Why n e report _ _ refl (law.query_keeps n.value w m)
