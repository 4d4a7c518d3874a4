-- ===== src/Fingerprint/Lineage.antt =====
-- src/fingerprint.rs: fingerprints tell apart whatever their inputs tell apart, as far as the hash
-- has no collision.
use postgres_test_harness.Base.{
  ℕ, ◌≡◌, refl, ap, sym, ◌∙◌, ◌≢◌, List, [], ◌∷◌, ◌++◌, append_assoc, append-nil, arith, length,
  All,
}
use postgres_test_harness.Fingerprint.Hex.{TemplateFingerprint}
use postgres_test_harness.Fingerprint.Frames.{frame, frames, IsFrame, frames-injective}
use postgres_test_harness.Fingerprint.Identity.{
  FingerprintBuilder, StepSpec, new, add, add_frame, finish_root, derived_fingerprint,
  template_domain, derived_domain,
}

-- The calls of `add` on a new builder, the first one first.
pub build : List (List ℕ × List ℕ) → FingerprintBuilder → FingerprintBuilder
build [] b = b
build ((label, content) ∷ rest) b = build rest (add label content b)

abbrev pub parts : List (List ℕ × List ℕ) → List (List ℕ)
parts [] = []
parts ((label, content) ∷ rest) = label ∷ content ∷ parts rest

-- A builder's bytes are the frames of its domain and of the labels and contents added.
add-digested :
    (label content : List ℕ) (b : FingerprintBuilder)
    → (add label content b).digested ≡ b.digested ++ (frame label ++ frame content)
unfolding add add_frame
add-digested label content b = append_assoc b.digested (frame label) (frame content)

build-digested :
    (adds : List (List ℕ × List ℕ)) (b : FingerprintBuilder)
    → (build adds b).digested ≡ b.digested ++ frames (parts adds)
unfolding build
build-digested [] b = sym (append-nil b.digested)
build-digested ((label, content) ∷ rest) b =
    build-digested rest (add label content b)
    ∙ rw (add-digested label content b) (
        append_assoc b.digested (frame label ++ frame content) (frames (parts rest))
        ∙ ap (◌++◌ b.digested) (append_assoc (frame label) (frame content) (frames (parts rest))))

built :
    (domain : List ℕ) (adds : List (List ℕ × List ℕ))
    → (build adds (new domain)).digested ≡ frames (template_domain ∷ domain ∷ parts adds)
unfolding new add_frame
built domain adds =
    build-digested adds (new domain)
    ∙ append_assoc (frame template_domain) (frame domain) (frames (parts adds))

-- The frames of a root or step are shorter than 2 ^ 64 bytes, as every slice is.
abbrev pub AreFrames : List ℕ → List (List ℕ × List ℕ) → Type 0
AreFrames domain adds = IsFrame domain × All IsFrame (parts adds)

parts-injective : (xs ys : List (List ℕ × List ℕ)) → parts xs ≡ parts ys → xs ≡ ys
parts-injective [] [] e = refl
parts-injective [] ((c, d) ∷ ys) e = cc
parts-injective ((a, b) ∷ xs) [] e = cc
parts-injective ((a, b) ∷ xs) ((c, d) ∷ ys) e =
    let rest = parts-injective xs ys (cc) in
    let first : a ≡ c = cc in let second : b ≡ d = cc in rw (first, second, rest)

template_domain-IsFrame : IsFrame template_domain
template_domain-IsFrame = omega arith

derived_domain-IsFrame : IsFrame derived_domain
derived_domain-IsFrame = omega arith

domains_differ : derived_domain ≢ template_domain
domains_differ e = absurd (omega (arith, ap length e))

-- The hash does not take these two inputs to one digest, unless they are one.
abbrev pub NoCollision : (List ℕ → List ℕ) → List ℕ → List ℕ → Type 0
NoCollision sha256 x y = sha256 x ≡ sha256 y → x ≡ y

-- What `derived_fingerprint` hashes.
abbrev pub lineage : TemplateFingerprint → StepSpec → List ℕ
lineage parent step = frame derived_domain ++ frame parent.bytes ++ frame step.bytes

lineage-frames :
    (parent : TemplateFingerprint) (step : StepSpec)
    → lineage parent step ≡ frames (derived_domain ∷ parent.bytes ∷ step.bytes ∷ [])
lineage-frames parent step =
    append_assoc (frame derived_domain) (frame parent.bytes) (frame step.bytes)
    ∙ ap (λ t. frame derived_domain ++ (frame parent.bytes ++ t))
        (sym (append-nil (frame step.bytes)))

-- A parent and a step of 32 bytes each.
pub record IsLineage (parent : TemplateFingerprint) (step : StepSpec) : Type 0 where
  pub parent_size : length parent.bytes ≡ 32
  pub step_size : length step.bytes ≡ 32

lineage-AreFrames :
    (parent : TemplateFingerprint) (step : StepSpec)
    → IsLineage parent step
    → All IsFrame (derived_domain ∷ parent.bytes ∷ step.bytes ∷ [])
lineage-AreFrames parent step v = omega arith

module _ (sha256 : List ℕ → List ℕ) where
  -- For domains, labels and contents shorter than 2 ^ 64 bytes: two builders give the same root
  -- only if they were given the same domain and the same labels and contents in the same order,
  -- or their two inputs collide under the hash.
  pub finish_root-injective :
      (domain domain' : List ℕ) (adds adds' : List (List ℕ × List ℕ))
      → AreFrames domain adds
      → AreFrames domain' adds'
      → NoCollision sha256 (build adds (new domain)).digested (build adds' (new domain')).digested
      → finish_root sha256 (build adds (new domain))
        ≡ finish_root sha256 (build adds' (new domain'))
      → (domain ≡ domain') × (adds ≡ adds')
  unfolding finish_root
  finish_root-injective domain domain' adds adds' h h' apart e =
      let same =
        frames-injective (template_domain ∷ domain ∷ parts adds)
          (template_domain ∷ domain' ∷ parts adds') (template_domain-IsFrame, h)
          (template_domain-IsFrame, h')
          (sym (built domain adds)
            ∙ apart (ap (λ r. r.fingerprint.bytes) e)
            ∙ built domain' adds') in
      (cc, parts-injective adds adds' (cc))

  -- For parents and steps of 32 bytes: two derived templates have the same fingerprint only if
  -- they have the same parent and the same step, or their two inputs collide under the hash.
  pub derived_fingerprint-injective :
      (p q : TemplateFingerprint) (s t : StepSpec)
      → IsLineage p s
      → IsLineage q t
      → NoCollision sha256 (lineage p s) (lineage q t)
      → derived_fingerprint sha256 p s ≡ derived_fingerprint sha256 q t
      → (p ≡ q) × (s ≡ t)
  unfolding derived_fingerprint
  derived_fingerprint-injective p q s t v w apart e =
      let same =
        frames-injective (derived_domain ∷ p.bytes ∷ s.bytes ∷ [])
          (derived_domain ∷ q.bytes ∷ t.bytes ∷ []) (lineage-AreFrames p s v)
          (lineage-AreFrames q t w)
          (sym (lineage-frames p s) ∙ apart (ap (λ r. r.bytes) e) ∙ lineage-frames q t) in
      let parents : p.bytes ≡ q.bytes = cc in
      let steps : s.bytes ≡ t.bytes = cc in
      (λ i. record { bytes = parents i }, λ i. record { bytes = steps i })

  -- A template derived from a parent and a step of 32 bytes never has the fingerprint of a root
  -- whose frames are shorter than 2 ^ 64 bytes, unless their inputs collide under the hash.
  pub derived_is_no_root :
      (p : TemplateFingerprint) (s : StepSpec) (domain : List ℕ) (adds : List (List ℕ × List ℕ))
      → IsLineage p s
      → AreFrames domain adds
      → NoCollision sha256 (lineage p s) (build adds (new domain)).digested
      → derived_fingerprint sha256 p s ≢ (finish_root sha256 (build adds (new domain))).fingerprint
  unfolding derived_fingerprint finish_root
  derived_is_no_root p s domain adds v h apart e =
      let same =
        frames-injective (derived_domain ∷ p.bytes ∷ s.bytes ∷ [])
          (template_domain ∷ domain ∷ parts adds) (lineage-AreFrames p s v)
          (template_domain-IsFrame, h)
          (sym (lineage-frames p s) ∙ apart (ap (λ r. r.bytes) e) ∙ built domain adds) in
      domains_differ (cc)
