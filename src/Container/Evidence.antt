-- ===== src/Container/Evidence.antt =====
-- src/server.rs: what an owned container that exits before it is ready is blamed on.
use postgres_test_harness.Base.{
  ℕ, ◌≡◌, ◌↔◌, refl, ap, Bool, true, false, if◌then◌else◌, [], ◌∷◌, ◌++◌, arith, Bool-cases,
  Option-cases, inl, inr, Text, text, strip_prefix, strip_prefix-append, strip_prefix_sound, Option,
  none, some, container_storage_exhausted,
}
use postgres_test_harness.Config.Harness.{OwnedContainerProfile}
use postgres_test_harness.Container.{
  ContainerExit, to_ascii_lowercase, starts_with, contains_text, storage_exhaustion_evidence,
  by_memory, by_storage, by_tmpfs, container_exit_error,
}

-- A text with another one in it.
abbrev pub Within : Text → Text → Type 0
Within s t = (before : Text) × (rest : Text) × (t ≡ before ++ (s ++ rest))

starts_with_sound : (s t : Text) → starts_with s t ≡ true → Within s t
starts_with_sound s t h = elim (Option-cases (strip_prefix s t)) [
  | inl e ↦ absurd (ground (arith, e))
  | inr (rest, e) ↦ ([], rest, strip_prefix_sound s t rest e)
]

starts_with-append : (s t : Text) → starts_with s (s ++ t) ≡ true
starts_with-append s t = rw (strip_prefix-append s t, starts_with) refl

contains_text_sound : (s t : Text) → contains_text s t ≡ true → Within s t
unfolding contains_text
contains_text_sound s [] h = starts_with_sound s [] h
contains_text_sound s (c ∷ t) h = elim (Bool-cases (starts_with s (c ∷ t))) [
  | inl e ↦ starts_with_sound s (c ∷ t) e
  | inr e ↦
      let (before, rest, p) = contains_text_sound s t (ground (arith, e)) in
      (c ∷ before, rest, ap (◌∷◌ c) p)
]

starts_with-contains_text : (s t : Text) → starts_with s t ≡ true → contains_text s t ≡ true
unfolding contains_text
starts_with-contains_text s [] h = h
starts_with-contains_text s (c ∷ t) h = rw h refl

contains_text-append : (s before rest : Text) → contains_text s (before ++ (s ++ rest)) ≡ true
unfolding contains_text
contains_text-append s [] rest = starts_with-contains_text s (s ++ rest) (starts_with-append s rest)
contains_text-append s (c ∷ before) rest = ground (arith, contains_text-append s before rest)

-- An owned container that exits early is reported to have exhausted a storage of some size exactly
-- when its profile has a tmpfs of that size and its output, in lower case, has the text of a full
-- device somewhere in it; memory exhaustion never takes precedence.
pub storage_is_blamed :
    (profile : OwnedContainerProfile) (exit : ContainerExit) (size : ℕ)
    → ((evidence : Text) × (container_exit_error profile exit
          ≡ container_storage_exhausted size evidence))
      ↔ ((profile.tmpfs_size_bytes ≡ some size)
          × Within (text "no space left on device") (to_ascii_lowercase exit.output))
unfolding container_exit_error storage_exhaustion_evidence
storage_is_blamed profile exit size = (
  λ (evidence, h). by_size profile.tmpfs_size_bytes evidence h,
  λ (p, (before, rest, q)). (
    text "container log reported no space left on device",
    rw (p, q, contains_text-append (text "no space left on device") before rest) refl,
  ),
)
  where
    lower : Text
    lower = to_ascii_lowercase exit.output

    not_memory :
        (n : ℕ) (m : Option Text) (evidence : Text)
        → by_memory n exit m ≡ container_storage_exhausted size evidence
        → (some n ≡ some size) × Within (text "no space left on device") lower
    not_memory n none evidence h = absurd (cc)
    not_memory n (some e) evidence h = absurd (cc)

    by_text :
        (n : ℕ) (b : Bool) (evidence : Text)
        → contains_text (text "no space left on device") lower ≡ b
        → by_storage n exit
            (if b then some (text "container log reported no space left on device") else none)
          ≡ container_storage_exhausted size evidence
        → (some n ≡ some size) × Within (text "no space left on device") lower
    by_text n true evidence e h = (cc, contains_text_sound (text "no space left on device") lower e)
    by_text n false evidence e h = not_memory n _ evidence h

    by_size :
        (t : Option ℕ) (evidence : Text)
        → by_tmpfs exit t ≡ container_storage_exhausted size evidence
        → (t ≡ some size) × Within (text "no space left on device") lower
    by_size none evidence h = absurd (cc)
    by_size (some n) evidence h = by_text n _ evidence refl h
