-- ===== src/Gates/Registry/Rules.antt =====
-- Which images RegistryGate lets pass.
use docker_socket_policy.Base.{
  Text, Bool, true, not, some, [], ◌∷◌, ◌≡◌, refl, ◌≢◌, ok, inl, inr, arith, ◌≤◌, Elem, >>-eq-ok,
  >>=-eq-ok, ensure, ensure-eq-ok, ensure-not-eq-ok, Result-cases, is_empty, if◌then◌else◌, length,
  ltb, Option, Result,
}
use docker_socket_policy.Json.{Body}
use docker_socket_policy.Message.{Message}
use docker_socket_policy.Policy.{Regex, Policy, is_match}
use docker_socket_policy.Image.{
  ImageRef, parse_image_ref, matches_image_prefix, check_image_tag, check_digest, check_tag,
  check_tag_pattern, sha256_digest_re,
}
use docker_socket_policy.Image.Namespaces.{InNamespace, matches_image_prefix_iff}
use docker_socket_policy.Router.{image_field}
use docker_socket_policy.Gates.Registry.{check, check_image}

-- A digest that the policy accepts: it allows digests, and this one is a SHA-256.
pub record IsAllowedDigest (re : Regex) (policy : Policy) (digest : Text) : Type 0 where
  pub short : length digest ≤ 128
  pub digests : policy.image_digest_allowed ≡ true
  pub sha256 : is_match re sha256_digest_re digest ≡ true

-- A tag that the policy accepts: one that matches its pattern, if it has one.
pub record IsAllowedTag (re : Regex) (policy : Policy) (tag : Text) : Type 0 where
  pub short : length tag ≤ 128
  pub matching :
      (pattern : Text)
      → policy.image_tag_pattern ≡ some pattern
      → (test : Text → Bool) × (re.compile pattern ≡ ok test) × (test tag ≡ true)

-- An image in a namespace of the policy, whose digest and tag, if it has them, the policy accepts.
pub record IsAllowedImage (re : Regex) (policy : Policy) (image : Text) : Type 0 where
  pub r : ImageRef
  pub parsed : parse_image_ref re image ≡ ok r
  pub prefix : Text
  pub listed : Elem prefix policy.allowed_image_prefixes
  pub below : InNamespace r.name prefix
  pub digest : r.digest ≢ [] → IsAllowedDigest re policy r.digest
  pub tag : r.tag ≢ [] → IsAllowedTag re policy r.tag

module _ (re : Regex) (policy : Policy) where
  check_digest-IsAllowedDigest :
      (digest : Text)
      → check_digest re policy digest ≡ ok tt
      → digest ≢ []
      → IsAllowedDigest re policy digest
  unfolding check_digest
  check_digest-IsAllowedDigest [] h n = absurd (n refl)
  check_digest-IsAllowedDigest (c ∷ s) h n =
      let a = >>-eq-ok (ensure (not (ltb 128 (length (c ∷ s)))) _) _ h in
      let b = >>-eq-ok (ensure policy.image_digest_allowed _) _ a.1 in
      let long = ensure-not-eq-ok _ _ a.0 in
      record { short = ground arith; digests = ensure-eq-ok _ _ b.0; sha256 = ensure-eq-ok _ _ b.1 }

  check_tag_pattern-match :
      (o : Option Text) (tag : Text)
      → check_tag_pattern re o tag ≡ ok tt
      → (pattern : Text) → o ≡ some pattern
      → (test : Text → Bool) × (re.compile pattern ≡ ok test) × (test tag ≡ true)
  unfolding check_tag_pattern
  check_tag_pattern-match o tag h pattern e = elim (Result-cases (re.compile pattern)) [
    | inl (test, k) ↦ (test, k, ensure-eq-ok (test tag) _ (rw (e, k, check_tag_pattern) at h))
    | inr (msg, k) ↦ let refused = rw (e, k, check_tag_pattern) at h in absurd cc
  ]

  check_tag-IsAllowedTag :
      (tag : Text) → check_tag re policy tag ≡ ok tt → tag ≢ [] → IsAllowedTag re policy tag
  unfolding check_tag
  check_tag-IsAllowedTag [] h n = absurd (n refl)
  check_tag-IsAllowedTag (c ∷ s) h n =
      let a = >>-eq-ok (ensure (not (ltb 128 (length (c ∷ s)))) _) _ h in
      let long = ensure-not-eq-ok _ _ a.0 in
      record {
        short = ground arith;
        matching = check_tag_pattern-match policy.image_tag_pattern (c ∷ s) a.1;
      }

  check_image-IsAllowedImage :
      (image : Text) → check_image re policy image ≡ ok tt → IsAllowedImage re policy image
  unfolding check_image check_image_tag
  check_image-IsAllowedImage image h =
      let (r, parsed, rest) = >>=-eq-ok (parse_image_ref re image) _ h in
      let a =
        >>-eq-ok (ensure (matches_image_prefix r.name policy.allowed_image_prefixes) _) _ rest in
      let b = >>-eq-ok (check_digest re policy r.digest) _ a.1 in
      let (prefix, listed, below) =
        (matches_image_prefix_iff r.name policy.allowed_image_prefixes).0 (ensure-eq-ok _ _ a.0) in
      record {
        r = r;
        parsed = parsed;
        prefix = prefix;
        listed = listed;
        below = below;
        digest = check_digest-IsAllowedDigest r.digest b.0;
        tag = check_tag-IsAllowedTag r.tag b.1;
      }

  pub check-IsAllowedImage :
      (body : Body)
      → check re policy body ≡ ok tt
      → image_field body ≢ []
      → IsAllowedImage re policy (image_field body)
  unfolding check
  check-IsAllowedImage body h n =
      check_image-IsAllowedImage (image_field body) (nonempty (image_field body) _ n h)
    where
      nonempty :
          (image : Text) (r : Result Message (Unit {0}))
          → image ≢ []
          → (if is_empty image then ok tt else r) ≡ ok tt
          → r ≡ ok tt
      nonempty [] r n h = absurd (n refl)
      nonempty (c ∷ s) r n h = h
