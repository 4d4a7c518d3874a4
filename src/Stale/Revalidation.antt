-- ===== src/Stale/Revalidation.antt =====
-- src/harness.rs: what must hold of a database before the stale pass drops it.
use postgres_test_harness.Base.{
  ℕ, ◌≡◌, refl, ap, subst, Bool, true, false, arith, if◌then◌else◌, Text, text_eq, text_eq_sound,
  &&_iff, Option, none, some,
}
use postgres_test_harness.Config.Project.{ProjectName}
use postgres_test_harness.Name.{DatabaseName}
use postgres_test_harness.Metadata.Decimal.{ℤ, int_eq, int_eq_sound}
use postgres_test_harness.Metadata.Resource.{ResourceMetadata}
use postgres_test_harness.Admin.Client.{DatabaseRecord}
use postgres_test_harness.Stale.Classify.{
  CleanupReport, CleanupClassification, ignore, unrecognized, fresh, candidate,
  classify_cleanup_record, classify_name, classify_metadata, revalidated,
  revalidate_cleanup_candidate, comment_eq, record_eq,
}

comment_eq_sound : (s t : Option Text) → comment_eq s t ≡ true → s ≡ t
comment_eq_sound none none h = refl
comment_eq_sound (some s) (some t) h = ap some (text_eq_sound s t h)
comment_eq_sound none (some t) h = ground arith
comment_eq_sound (some s) none h = ground arith

same_record : (r s : DatabaseRecord) → r.name ≡ s.name → r.comment ≡ s.comment → r ≡ s
same_record r s p q i = record { name = p i; comment = q i }

record_eq_sound : (r s : DatabaseRecord) → record_eq r s ≡ true → r ≡ s
record_eq_sound r s h =
    let (n, c) = (&&_iff (text_eq r.name s.name) (comment_eq r.comment s.comment)).0 h in
    same_record r s (text_eq_sound r.name s.name n) (comment_eq_sound r.comment s.comment c)

revalidated-some :
    (same : Bool) (held_key : ℤ) (report after : CleanupReport) (c : CleanupClassification)
    (name : DatabaseName)
    → revalidated same held_key report c ≡ (some name, after)
    → (same ≡ true) × ((key : ℤ) × ((c ≡ candidate name key) × (int_eq key held_key ≡ true)))
unfolding revalidated
revalidated-some same held_key report after ignore name h = ground arith
revalidated-some same held_key report after unrecognized name h = ground arith
revalidated-some same held_key report after fresh name h = ground arith
revalidated-some true held_key report after (candidate n key) name h =
    held (int_eq key held_key) refl h
  where
    same_name :
        ◌≡◌ {A = Option DatabaseName × CleanupReport} (some n, report) (some name, after) → n ≡ name
    same_name g = ground arith

    held :
        (b : Bool)
        → int_eq key held_key ≡ b
        → ◌≡◌ {A = Option DatabaseName × CleanupReport}
            (if b then (some n, report) else (none, report))
            (some name, after)
        → (true ≡ true)
          × ((k : ℤ) × ((candidate n key ≡ candidate name k) × (int_eq k held_key ≡ true)))
    held true e g = (refl, (key, (ap (λ m. candidate m key) (same_name g), e)))
    held false e g = ground arith
revalidated-some false held_key report after (candidate n key) name h = ground arith

module _ (project : ProjectName) (now stale_after : ℕ) where
  -- A database is dropped only when its current record is the one that was listed, and that record
  -- is a candidate for dropping under this name whose lock key is the one held.
  pub revalidate_sound :
      (snapshot : DatabaseRecord) (current : Option DatabaseRecord) (held_key : ℤ)
      (report after : CleanupReport) (name : DatabaseName)
      → revalidate_cleanup_candidate project now stale_after snapshot current held_key report
        ≡ (some name, after)
      → (current ≡ some snapshot)
        × (classify_cleanup_record project now stale_after snapshot ≡ candidate name held_key)
  unfolding revalidate_cleanup_candidate
  revalidate_sound snapshot none held_key report after name h = ground arith
  revalidate_sound snapshot (some current) held_key report after name h =
      let (same, (key, (c, k))) =
        revalidated-some (record_eq current snapshot) held_key report after
          (classify_cleanup_record project now stale_after current) name h in
      let e = record_eq_sound current snapshot same in
      (
        ap some e,
        subst (λ r. classify_cleanup_record project now stale_after r ≡ candidate name held_key) e
            (subst (λ k. classify_cleanup_record project now stale_after current ≡ candidate name k)
              (int_eq_sound key held_key k) c),
      )

  metadata-name :
      (n name : DatabaseName) (metadata : Option ResourceMetadata) (key : ℤ)
      → classify_metadata project now stale_after n metadata ≡ candidate name key
      → n ≡ name
  unfolding classify_metadata
  metadata-name n name none key h = ground arith
  metadata-name n name (some x) key h = ground arith

  pub candidate-name :
      (o : Option DatabaseName) (comment : Option Text) (name : DatabaseName) (key : ℤ)
      → classify_name project now stale_after o comment ≡ candidate name key
      → o ≡ some name
  unfolding classify_name
  candidate-name none comment name key h = ground arith
  candidate-name (some n) comment name key h = ap some (metadata-name n name _ key h)
