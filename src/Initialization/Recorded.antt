-- ===== src/Initialization/Recorded.antt =====
-- src/harness.rs and src/metadata.rs: what is read of the comment that an initializer has written.
use postgres_test_harness.Base.{
  ℕ, ◌≡◌, ◌↔◌, refl, ap, subst, Bool, true, ◌&&◌, &&_iff, Text, text_eq, text_eq_sound,
  text_eq_refl, Option, none, some,
}
use postgres_test_harness.Config.Project.{ProjectName}
use postgres_test_harness.Fingerprint.Hex.{TemplateFingerprint}
use postgres_test_harness.Fingerprint.Identity.{TemplateIdentity}
use postgres_test_harness.Metadata.Decimal.{ℤ, int_eq, int_eq_sound, int_eq_refl}
use postgres_test_harness.Metadata.Resource.{
  TemplateState, initializing, ready, new_template, encode,
}
use postgres_test_harness.Metadata.RoundTrip.{IsMetadata, parse-encode}
use postgres_test_harness.Stale.Classify.{metadata_of}
use postgres_test_harness.Readiness.{
  fingerprint_eq, parent_eq, state_eq, template_metadata_matches, template_record_is_ready,
  recoverable_template_initialization,
}
use postgres_test_harness.Initialization.{TemplateRequest, is_recoverable_metadata}

-- A test that holds of equal values, and of no others.
subst_test :
    {A : Type 0} (test : A → A → Bool)
    → ((a : A) → test a a ≡ true)
    → (a b : A) → a ≡ b
    → test a b ≡ true
subst_test test same a b e = subst (λ x. test a x ≡ true) e (same a)

fingerprint_sound : (f g : TemplateFingerprint) → fingerprint_eq f g ≡ true → f ≡ g
fingerprint_sound f g h = same (text_eq_sound f.bytes g.bytes h)
  where
    same : f.bytes ≡ g.bytes → f ≡ g
    same e i = record { bytes = e i }

parent_sound : (p q : Option TemplateFingerprint) → parent_eq p q ≡ true → p ≡ q
parent_sound none none h = refl
parent_sound (some f) (some g) h = ap some (fingerprint_sound f g h)
parent_sound none (some g) h = absurd (cc)
parent_sound (some f) none h = absurd (cc)

parent_refl : (p : Option TemplateFingerprint) → parent_eq p p ≡ true
parent_refl none = refl
parent_refl (some f) = text_eq_refl f.bytes

state_sound : (s t : TemplateState) → state_eq s t ≡ true → s ≡ t
state_sound initializing initializing h = refl
state_sound ready ready h = refl
state_sound initializing ready h = absurd (cc)
state_sound ready initializing h = absurd (cc)

state_refl : (s : TemplateState) → state_eq s s ≡ true
state_refl initializing = refl
state_refl ready = refl

module _ (now : ℕ) (project : ProjectName) (lock_key : ℤ) (identity : TemplateIdentity)
    (name : Text) (q : TemplateRequest) where
  -- The metadata was written for the template that is asked for.
  abbrev pub IsAsked : Type 0
  IsAsked =
      (project.value ≡ q.project.value)
      × (lock_key ≡ q.lock_key)
      × (identity.fingerprint ≡ q.identity.fingerprint)
      × (identity.parent ≡ q.identity.parent)

  matches_iff :
      (state wanted : TemplateState)
      → (template_metadata_matches q.project q.identity q.lock_key
            (new_template now project lock_key identity state)
            wanted
          ≡ true)
        ↔ (IsAsked × (state ≡ wanted))
  unfolding template_metadata_matches new_template
  matches_iff state wanted = (to, from)
    where
      to :
          (text_eq project.value q.project.value
              && (int_eq lock_key q.lock_key
                  && (fingerprint_eq identity.fingerprint q.identity.fingerprint
                      && (parent_eq identity.parent q.identity.parent && state_eq state wanted)))
            ≡ true)
          → IsAsked × (state ≡ wanted)
      to h =
          let (a, h1) = (&&_iff _ _).0 h in
          let (b, h2) = (&&_iff _ _).0 h1 in
          let (c, h3) = (&&_iff _ _).0 h2 in
          let (d, e) = (&&_iff _ _).0 h3 in
          (
            (text_eq_sound _ _ a, int_eq_sound _ _ b, fingerprint_sound _ _ c, parent_sound _ _ d),
            state_sound state wanted e,
          )

      from :
          IsAsked × (state ≡ wanted)
          → (text_eq project.value q.project.value
                && (int_eq lock_key q.lock_key
                    && (fingerprint_eq identity.fingerprint q.identity.fingerprint
                        && (parent_eq identity.parent q.identity.parent && state_eq state wanted)))
              ≡ true)
      from ((a, b, c, d), e) =
          rw
            (
              subst_test text_eq text_eq_refl _ _ a,
              subst_test int_eq int_eq_refl _ _ b,
              subst_test fingerprint_eq (λ f. text_eq_refl f.bytes) _ _ c,
              subst_test parent_eq parent_refl _ _ d,
            )
            (subst_test state_eq state_refl _ _ e)

  -- A database whose comment is the encoding of the metadata that an initializer writes, for valid
  -- parts, is found ready by a request exactly when the comment says ready and was written for the
  -- request's project, key, fingerprint and parent; and it is taken for a recoverable
  -- initialization exactly when the comment says initializing and was written for these.
  pub written_template_is_read :
      (state : TemplateState)
      → IsMetadata (new_template now project lock_key identity state)
      → let comment = some (encode (new_template now project lock_key identity state)) in
        ((template_record_is_ready q.project q.identity q.lock_key
              (some (record { name = name; comment = comment }))
            ≡ true)
          ↔ (IsAsked × (state ≡ ready)))
        × ((is_recoverable_metadata q (metadata_of comment) ≡ true)
            ↔ (IsAsked × (state ≡ initializing)))
  unfolding template_record_is_ready recoverable_template_initialization
  written_template_is_read state v = (
    rw (parse-encode (new_template now project lock_key identity state) v)
        (matches_iff state ready),
    rw (parse-encode (new_template now project lock_key identity state) v)
        (matches_iff state initializing),
  )
