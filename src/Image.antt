-- ===== src/Image.antt =====
-- rs/src/policy.rs: image references, their normalised names, and a policy's tag rules.
pub mod Namespaces
pub mod Errors
use docker_socket_policy.Base.{
  Text, ℕ, suc, ◌+◌, ◌<◌, Bool, true, false, not, Option, none, some, List, [], ◌∷◌, ◌++◌, map,
  Result, ok, err, ◌>>=◌, ◌>>◌, ensure, ok_or, lit, ◌==◌, to_lower, ltb, leb, eqb, any, all, ◌||◌,
  ◌&&◌, is_empty, length, if◌then◌else◌, split, split_once, rfind, take, drop, contains,
  strip_prefix, starts_with, get_elem?,
}
use docker_socket_policy.Message.{
  Message, invalid_image_reference, prefix_has_tag_or_digest, tag_or_digest_too_long,
  digests_not_allowed, invalid_digest_format, invalid_tag_pattern, tag_does_not_match,
}
use docker_socket_policy.Policy.{Regex, is_match, Policy}

pub record ImageRef : Type 0 where
  pub name : Text
  pub tag : Text
  pub digest : Text

abbrev pub default_registries : List Text
default_registries = lit "docker.io" ∷ lit "index.docker.io" ∷ lit "registry-1.docker.io" ∷ []

abbrev pub domain_re : Text
domain_re =
    lit
      "^[A-Za-z0-9](?:[A-Za-z0-9-]*[A-Za-z0-9])?(?:\\.[A-Za-z0-9](?:[A-Za-z0-9-]*[A-Za-z0-9])?)*(?::[0-9]+)?$"

abbrev pub path_component_re : Text
path_component_re = lit "^[a-z0-9]+(?:(?:[._]|__|-+)[a-z0-9]+)*$"

abbrev pub tag_re : Text
tag_re = lit "^[A-Za-z0-9_][A-Za-z0-9_.-]*$"

abbrev pub sha256_digest_re : Text
sha256_digest_re = lit "^sha256:[a-f0-9]{64}$"

-- The first component names a registry host.
unfoldable pub is_host : Text → Bool
is_host first = contains first b'.' || contains first b':' || first == lit "localhost"

-- The host, lower-cased, and the path of a name.
unfoldable pub split_domain : Text → Option Text × Text
split_domain name = elim (split_once name b'/') [
  | none ↦ (none, name)
  | some (first, path) ↦ if is_host first then (some (map to_lower first), path) else (none, name)
]

-- A host that is dropped from the normalised name.
unfoldable pub is_default_registry : Text → Bool
is_default_registry d = any (λ r. r == d) default_registries

-- `path` without `library/`, if that leaves a single component.
unfoldable pub strip_official : Text → Text
strip_official path = elim (strip_prefix path (lit "library/")) [
  | none ↦ path
  | some official ↦ if contains official b'/' then path else official
]

unfoldable pub full_name : Option Text → Text → Text
full_name none path = strip_official path
full_name (some d) path = if is_default_registry d then strip_official path else d ++ b'/' ∷ path

unfoldable pub domain_ok : Regex → Option Text → Bool
domain_ok re none = true
domain_ok re (some d) = is_match re domain_re d

unfoldable pub path_ok : Regex → Text → Bool
path_ok re path = all (is_match re path_component_re) (split path b'/')

-- `normalize_name` after the split of its host.
unfoldable pub normalize_split : Regex → Option Text → Text → Option Text
normalize_split re domain path =
    if not (domain_ok re domain)
    then none
    else if not (path_ok re path)
    then none
    else if ltb 255 (length (full_name domain path))
    then none
    else some (full_name domain path)

unfoldable pub normalize_name : Regex → Text → Option Text
normalize_name re name = let (domain, path) = split_domain name in normalize_split re domain path

-- The part before the first `@`, and the digest; an empty digest is refused.
unfoldable pub split_digest : Text → Result Message (Text × Text)
split_digest reference = elim (split_once reference b'@') [
  | none ↦ ok (reference, [])
  | some (r, d) ↦ if is_empty d then err (invalid_image_reference reference) else ok (r, d)
]

-- The index behind the last slash.
unfoldable pub after_slash : Text → ℕ
after_slash rest = elim (rfind rest b'/') [ none ↦ 0 | some i ↦ i + 1 ]

-- The name and the tag, which follows the last `:` after the last `/`.
unfoldable pub split_tag : Regex → Text → Text → Result Message (Text × Text)
split_tag re reference rest = elim (rfind (drop (after_slash rest) rest) b':') [
  | none ↦ ok (rest, [])
  | some i ↦
      if is_match re tag_re (drop (after_slash rest + i + 1) rest)
      then ok (take (after_slash rest + i) rest, drop (after_slash rest + i + 1) rest)
      else err (invalid_image_reference reference)
]

unfoldable pub parse_image_ref : Regex → Text → Result Message ImageRef
parse_image_ref re reference = do
  (rest, digest) ← split_digest reference
  (name, tag) ← split_tag re reference rest
  normalized ← ok_or (invalid_image_reference reference) (normalize_name re name)
  ok (record { name = normalized; tag = tag; digest = digest })

unfoldable pub normalize_image_prefix : Regex → Text → Result Message Text
normalize_image_prefix re prefix = do
  r ← parse_image_ref re prefix
  ensure (is_empty r.tag && is_empty r.digest) (prefix_has_tag_or_digest prefix)
  ok r.name

-- Whether the byte at an index is the given one: `as_bytes().get(i) == Some(&b)`.
unfoldable pub byte_is : Text → ℕ → ℕ → Bool
byte_is s i b = elim (get_elem? s i) [ none ↦ false | some c ↦ eqb c b ]

unfoldable pub matches_prefix : Text → Text → Bool
matches_prefix name p = name == p || starts_with name p && byte_is name (length p) b'/'

unfoldable pub matches_image_prefix : Text → List Text → Bool
matches_image_prefix name prefixes = any (matches_prefix name) prefixes

-- The digest rules of `check_image_tag`.
unfoldable pub check_digest : Regex → Policy → Text → Result Message (Unit {0})
check_digest re policy digest = if is_empty digest then ok tt else do
  ensure (not (ltb 128 (length digest))) tag_or_digest_too_long
  ensure policy.image_digest_allowed (digests_not_allowed policy.service_name)
  ensure (is_match re sha256_digest_re digest) (invalid_digest_format digest)

unfoldable pub check_tag_pattern : Regex → Option Text → Text → Result Message (Unit {0})
check_tag_pattern re none tag = ok tt
check_tag_pattern re (some pattern) tag = elim (re.compile pattern) [
  | err e ↦ err (invalid_tag_pattern e)
  | ok matches ↦ ensure (matches tag) (tag_does_not_match tag pattern)
]

-- The tag rules of `check_image_tag`.
unfoldable pub check_tag : Regex → Policy → Text → Result Message (Unit {0})
check_tag re policy tag = if is_empty tag then ok tt else do
  ensure (not (ltb 128 (length tag))) tag_or_digest_too_long
  check_tag_pattern re policy.image_tag_pattern tag

unfoldable pub check_image_tag : Regex → Policy → ImageRef → Result Message (Unit {0})
check_image_tag re policy r = do check_digest re policy r.digest; check_tag re policy r.tag
