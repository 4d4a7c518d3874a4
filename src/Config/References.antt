-- ===== src/Config/References.antt =====
-- src/config.rs, `ImageReference::parse`: how the reference that is read relates to the image's text.
use postgres_test_harness.Base.{
  take, drop, ℕ, zero, suc, ◌≡◌, ◌≢◌, refl, ap, ◌∙◌, sym, subst, length, Bool, true, false, [], ◌∷◌,
  ◌++◌, append-nil, append_assoc, arith, ◌==◌, if◌then◌else◌, count, Text, text, Option, none, some,
  ok,
}
use postgres_test_harness.Config.Image.{
  ImageReference, parse, parse_name, reference, name_and_digest, with_digest, split_tag,
  tag_separator, rfind, rfind_after, has_white,
}
use postgres_test_harness.Metadata.Fields.{split_once, prepend}

-- What a reference says of the image: its text is the repository, and after a colon the tag, or a
-- tag that stands for none, with the digest.
pub data Reads (image : Text) (r : ImageReference) : Type 0 where
  tagged : image ≡ r.repository ++ b':' ∷ r.tag → Reads image r
  untagged :
      (rest : Text) → r.tag ≡ text "latest" ++ rest → image ≡ r.repository ++ rest → Reads image r

split_once-joins : (sep : ℕ) (t k v : Text) → split_once sep t ≡ some (k, v) → t ≡ k ++ sep ∷ v
unfolding split_once
split_once-joins sep [] k v h = ground arith
split_once-joins sep (c ∷ t) k v h =
    by_rest (λ j u e. split_once-joins sep t j u e) (split_once sep t) refl h
  where
    by_rest :
        ((j u : Text) → split_once sep t ≡ some (j, u) → t ≡ j ++ sep ∷ u)
        → (rest : Option (Text × Text)) → split_once sep t ≡ rest
        → (if c == sep then some ([], t) else prepend c rest) ≡ some (k, v)
        → c ∷ t ≡ k ++ sep ∷ v
    by_rest joins none e h = ground arith
    by_rest joins (some (j, u)) e h = ground (arith, joins j u e)

rfind-splits : (c i : ℕ) (t : Text) → rfind c t ≡ some i → t ≡ take i t ++ c ∷ drop (suc i) t
unfolding rfind
rfind-splits c i [] h = ground arith
rfind-splits c i (b ∷ t) h = by_rest (λ j e. rfind-splits c j t e) i (rfind c t) refl h
  where
    by_rest :
        ((j : ℕ) → rfind c t ≡ some j → t ≡ take j t ++ c ∷ drop (suc j) t)
        → (i : ℕ) (rest : Option ℕ) → rfind c t ≡ rest
        → rfind_after (b == c) rest ≡ some i
        → b ∷ t ≡ take i (b ∷ t) ++ c ∷ drop (suc i) (b ∷ t)
    by_rest splits zero none e h = ground arith
    by_rest splits (suc i) none e h = ground arith
    by_rest splits zero (some j) e h = ground arith
    by_rest splits (suc i) (some j) e h = ap (λ u. b ∷ u) (splits i (ground (arith, e)))

tag_separator-rfind :
    (slash colon : Option ℕ) (i : ℕ) → tag_separator slash colon ≡ some i → colon ≡ some i
tag_separator-rfind none (some j) i h = h
tag_separator-rfind (some s) (some j) i h = ground arith
tag_separator-rfind none none i h = h
tag_separator-rfind (some s) none i h = h

-- What becomes of a digest in the image's text.
abbrev suffix : Option Text → Text
suffix none = []
suffix (some digest) = b'@' ∷ digest

suffix-digest : (digest : Option Text) (t : Text) → with_digest digest t ≡ t ++ suffix digest
suffix-digest none t = sym (append-nil t)
suffix-digest (some d) t = refl

name-joins :
    (image : Text) (found : Option (Text × Text))
    → split_once b'@' image ≡ found
    → let (name, digest) = name_and_digest image found in image ≡ name ++ suffix digest
name-joins image none h = sym (append-nil image)
name-joins image (some (name, digest)) h = split_once-joins b'@' image name digest h

-- The repository with the tag that the name has, if any.
data ReadsName (name : Text) : Text × Text → Type 0 where
  has_tag :
      (repository tag : Text) → name ≡ repository ++ b':' ∷ tag → ReadsName name (repository, tag)
  has_none : ReadsName name (name, text "latest")

split_tag-ReadsName :
    (name : Text) (slash found : Option ℕ)
    → tag_separator slash (rfind b':' name) ≡ found
    → ReadsName name (split_tag name found)
split_tag-ReadsName name slash none h = has_none
split_tag-ReadsName name slash (some i) h =
    has_tag _ _ (rfind-splits b':' i name (tag_separator-rfind slash (rfind b':' name) i h))

reads :
    (image name : Text) (digest : Option Text) (parts : Text × Text)
    → image ≡ name ++ suffix digest
    → ReadsName name parts
    → Reads image (record { repository = parts.0; tag = with_digest digest parts.1 })
reads image name digest _ e (has_tag repository tag h) = tagged (
    e
    ∙ ap (λ t. t ++ suffix digest) h
    ∙ append_assoc repository (b':' ∷ tag) (suffix digest)
    ∙ ap (λ t. repository ++ b':' ∷ t) (sym (suffix-digest digest tag)))
reads image name digest _ e has_none =
    untagged (suffix digest) (suffix-digest digest (text "latest")) e

ok-injective : {a b : ImageReference} → ok a ≡ ok b → a ≡ b
ok-injective h = cc

reference-ok :
    (digest : Option Text) (parts : Text × Text) (r : ImageReference)
    → reference digest parts ≡ ok r
    → (r ≡ record { repository = parts.0; tag = with_digest digest parts.1 }) × (parts.0 ≢ [])
unfolding reference
reference-ok digest ([], tag) r h = ground arith
reference-ok digest (b ∷ t, []) r h = ground arith
reference-ok digest (b ∷ t, c ∷ tag) r h = ((sym (ok-injective h)), λ e. ground (arith, e))

parse_name-ok :
    (name : Text) (digest : Option Text) (r : ImageReference)
    → parse_name name digest ≡ ok r
    → reference digest (split_tag name (tag_separator (rfind b'/' name) (rfind b':' name))) ≡ ok r
unfolding parse_name
parse_name-ok name digest r h = ground arith

-- An image that is accepted is read as it is written: a repository that is not empty, and after
-- a colon the tag, with the digest if there is one; or no tag, and then the tag is `latest` with
-- the digest.
pub parse_reads :
    (image : Text) (r : ImageReference) → parse image ≡ ok r → Reads image r × (r.repository ≢ [])
unfolding parse
parse_reads image r h =
    let (name, digest) = name_and_digest image (split_once b'@' image) in
    let parts = split_tag name (tag_separator (rfind b'/' name) (rfind b':' name)) in
    let (same, filled) = reference-ok digest parts r (parse_name-ok name digest r (ground arith)) in
    (
      subst (Reads image) (sym same) (
          reads image name digest parts (name-joins image (split_once b'@' image) refl)
            (split_tag-ReadsName name (rfind b'/' name) _ refl)),
      λ e. filled (ap (λ q. q.repository) (sym same) ∙ e),
    )

rfind-none : (c : ℕ) (t : Text) → count c t ≡ 0 → rfind c t ≡ none
unfolding rfind
rfind-none c [] h = refl
rfind-none c (b ∷ t) h = ground (arith, rfind-none c t)

rfind-last : (c : ℕ) (s t : Text) → count c t ≡ 0 → rfind c (s ++ c ∷ t) ≡ some (length s)
unfolding rfind
rfind-last c [] t h = ground (arith, rfind-none c t h)
rfind-last c (b ∷ s) t h = ap (rfind_after (b == c)) (rfind-last c s t h)

rfind-before :
    (c d : ℕ) (s t : Text) → (d == c) ≡ false → count c t ≡ 0 → rfind c (s ++ d ∷ t) ≡ rfind c s
unfolding rfind
rfind-before c d [] t apart h = ground (arith, rfind-none c t h)
rfind-before c d (b ∷ s) t apart h = ap (rfind_after (b == c)) (rfind-before c d s t apart h)

tag_separator-length :
    (c : ℕ) (s : Text) → tag_separator (rfind c s) (some (length s)) ≡ some (length s)
unfolding rfind
tag_separator-length c [] = refl
tag_separator-length c (b ∷ s) = step (b == c) (rfind c s) (tag_separator-length c s)
  where
    step :
        (here : Bool) (slash : Option ℕ)
        → tag_separator slash (some (length s)) ≡ some (length s)
        → tag_separator (rfind_after here slash) (some (suc (length s))) ≡ some (suc (length s))
    step true none h = ground arith
    step false none h = refl
    step true (some j) h = ground arith
    step false (some j) h = ground arith

take-length : (s t : Text) → take (length s) (s ++ t) ≡ s
take-length [] t = refl
take-length (b ∷ s) t = ap (λ u. b ∷ u) (take-length s t)

drop-length : (c : ℕ) (s t : Text) → drop (suc (length s)) (s ++ c ∷ t) ≡ t
drop-length c [] t = refl
drop-length c (b ∷ s) t = drop-length c s t

split_once-none : (sep : ℕ) (t : Text) → count sep t ≡ 0 → split_once sep t ≡ none
unfolding split_once
split_once-none sep [] h = refl
split_once-none sep (c ∷ t) h = ground (arith, split_once-none sep t)

name-written :
    (b c : ℕ) (s tag : Text)
    → count b':' (c ∷ tag) ≡ 0
    → count b'/' (c ∷ tag) ≡ 0
    → parse_name ((b ∷ s) ++ b':' ∷ c ∷ tag) none
      ≡ ok (record { repository = b ∷ s; tag = c ∷ tag })
unfolding parse_name reference
name-written b c s tag colon slash =
    let repository : Text = b ∷ s in
    let name : Text = repository ++ b':' ∷ c ∷ tag in
    ap (λ i. reference none (split_tag name (tag_separator (rfind b'/' name) i)))
      (rfind-last b':' repository (c ∷ tag) colon)
    ∙ ap (λ i. reference none (split_tag name (tag_separator i (some (length repository)))))
        (rfind-before b'/' b':' repository (c ∷ tag) refl slash)
    ∙ ap (λ i. reference none (split_tag name i)) (tag_separator-length b'/' repository)
    ∙ ap (λ t. reference none (t, drop (suc (length repository)) name))
        (take-length repository (b':' ∷ c ∷ tag))
    ∙ ap (λ t. reference none (repository, t)) (drop-length b':' repository (c ∷ tag))

-- A repository and a tag that are not empty, with a colon between them, are read back: if there is
-- no white space and no at sign in them, and no colon and no slash in the tag. The repository may
-- have the colon of a registry's port.
pub parse-written :
    (repository tag : Text)
    → repository ≢ []
    → tag ≢ []
    → has_white (repository ++ b':' ∷ tag) ≡ false
    → count b'@' (repository ++ b':' ∷ tag) ≡ 0
    → count b':' tag ≡ 0
    → count b'/' tag ≡ 0
    → parse (repository ++ b':' ∷ tag) ≡ ok (record { repository = repository; tag = tag })
unfolding parse
parse-written [] tag h k white at colon slash = absurd (h refl)
parse-written (b ∷ s) [] h k white at colon slash = absurd (k refl)
parse-written (b ∷ s) (c ∷ tag) h k white at colon slash =
    ground (
      arith,
      name-written b c s tag colon slash,
      split_once-none b'@' ((b ∷ s) ++ b':' ∷ c ∷ tag) at,
    )
