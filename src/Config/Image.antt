-- ===== src/Config/Image.antt =====
-- src/config.rs, `ImageReference`: an image's repository and tag. Texts are UTF-8.
use postgres_test_harness.Base.{
  take, drop, ℕ, suc, Bool, true, false, ◌&&◌, ◌||◌, [], ◌∷◌, ◌++◌, leb, ltb, ◌==◌, if◌then◌else◌,
  Text, text, Option, none, some, invalid_image_reference, Result, ok, err,
}
use postgres_test_harness.Config.Project.{is_empty}
use postgres_test_harness.Config.Harness.{HarnessConfig}
use postgres_test_harness.Metadata.Fields.{split_once}

-- `char::is_whitespace`, of a character of one, two or three bytes.
abbrev pub is_white_byte : ℕ → Bool
is_white_byte a = (leb 9 a && leb a 13) || a == 32

abbrev pub is_white_pair : ℕ → ℕ → Bool
is_white_pair a b = a == 194 && (b == 133 || b == 160)

abbrev pub is_white_triple : ℕ → ℕ → ℕ → Bool
is_white_triple a b c =
    (a == 225 && b == 154 && c == 128)
    || (a == 226 && b == 128 && ((leb 128 c && leb c 138) || c == 168 || c == 169 || c == 175))
    || (a == 226 && b == 129 && c == 159)
    || (a == 227 && b == 128 && c == 128)

abbrev pub starts_white : Text → Bool
starts_white [] = false
starts_white (a ∷ []) = is_white_byte a
starts_white (a ∷ b ∷ []) = is_white_byte a || is_white_pair a b
starts_white (a ∷ b ∷ c ∷ t) = is_white_byte a || is_white_pair a b || is_white_triple a b c

unfoldable pub has_white : Text → Bool
has_white [] = false
has_white (b ∷ t) = starts_white (b ∷ t) || has_white t

-- `str::rfind` of one byte: the index of the last.
abbrev pub rfind_after : Bool → Option ℕ → Option ℕ
rfind_after here (some i) = some (suc i)
rfind_after true none = some 0
rfind_after false none = none

unfoldable pub rfind : ℕ → Text → Option ℕ
rfind c [] = none
rfind c (b ∷ t) = rfind_after (b == c) (rfind c t)

pub record ImageReference : Type 0 where
  pub repository : Text
  pub tag : Text

-- The last colon, if no slash follows it.
abbrev pub tag_separator : Option ℕ → Option ℕ → Option ℕ
tag_separator slash none = none
tag_separator none (some i) = some i
tag_separator (some slash) (some i) = if ltb slash i then some i else none

abbrev pub split_tag : Text → Option ℕ → Text × Text
split_tag t none = (t, text "latest")
split_tag t (some i) = (take i t, drop (suc i) t)

abbrev pub with_digest : Option Text → Text → Text
with_digest none tag = tag
with_digest (some digest) tag = tag ++ b'@' ∷ digest

abbrev pub is_some_empty : Option Text → Bool
is_some_empty none = false
is_some_empty (some t) = is_empty t

unfoldable pub reference : Option Text → Text × Text → Result ImageReference
reference digest (repository, tag) =
    if is_empty repository || is_empty tag
    then err (invalid_image_reference (text "the repository and tag must be non-empty"))
    else ok (record { repository = repository; tag = with_digest digest tag })

unfoldable pub parse_name : Text → Option Text → Result ImageReference
unfolding reference rfind
parse_name name digest =
    if is_empty name || is_some_empty digest
    then err (invalid_image_reference (text "the repository and optional digest must be non-empty"))
    else reference digest (split_tag name (tag_separator (rfind b'/' name) (rfind b':' name)))

abbrev pub name_and_digest : Text → Option (Text × Text) → Text × Option Text
name_and_digest image none = (image, none)
name_and_digest image (some (name, digest)) = (name, some digest)

-- `ImageReference::parse`.
unfoldable pub parse : Text → Result ImageReference
unfolding parse_name has_white split_once
parse image =
    if is_empty image || has_white image
    then err
        (invalid_image_reference (text "the image must be non-empty and contain no whitespace"))
    else let (name, digest) = name_and_digest image (split_once b'@' image) in
      parse_name name digest

-- `HarnessConfig::with_image`.
unfoldable pub with_image : Text → HarnessConfig → Result HarnessConfig
unfolding parse
with_image image c = elim (parse image) [
  | ok r ↦ ok (record c { image = some image })
  | err e ↦ err e
]

abbrev pub default_image : Text
default_image = text "postgres:18"

abbrev pub or_default : Option Text → Option Text → Text
or_default (some image) variable = image
or_default none (some image) = image
or_default none none = default_image

-- `HarnessConfig::resolved_image`, with the environment variable that is read.
unfoldable pub resolved_image : Option Text → HarnessConfig → Result ImageReference
unfolding parse
resolved_image variable c = parse (or_default c.image variable)
