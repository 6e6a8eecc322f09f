-- ===== src/Image/Namespaces.antt =====
-- Namespaces of image names: what `matches_image_prefix` and `overlapping_prefixes` decide.
use docker_socket_policy.Base.{
  Text, ℕ, true, List, [], ◌∷◌, ◌++◌, ◌≡◌, ap, ◌∙◌, ◌↔◌, ◌⊎◌, inl, inr, ◌==◌, ==_iff, ==_refl,
  starts_with, length, eqb_iff, arith, Bool-cases, Elem, any-Elem, any-eq-true,
}
use docker_socket_policy.Base.Split.{starts_with-append, starts_with-eq-true}
use docker_socket_policy.Image.{byte_is, matches_prefix, matches_image_prefix}

-- The name is the prefix or stands below it.
abbrev pub InNamespace : Text → Text → Type 0
InNamespace name p = (name ≡ p) ⊎ ((r : Text) × (name ≡ p ++ b'/' ∷ r))

byte_is-append : (p r : Text) (b : ℕ) → byte_is (p ++ b ∷ r) (length p) b ≡ true
unfolding byte_is
byte_is-append [] r b = ground arith
byte_is-append (c ∷ p) r b = byte_is-append p r b

slash_of_byte_is :
    (p r : Text) → byte_is (p ++ r) (length p) b'/' ≡ true → (t : Text) × (r ≡ b'/' ∷ t)
unfolding byte_is
slash_of_byte_is [] [] h = cc
slash_of_byte_is [] (c ∷ r) h = (r, ap (λ d. d ∷ r) ((eqb_iff c _).0 h))
slash_of_byte_is (c ∷ p) r h = slash_of_byte_is p r h

below_of_tests :
    (name p : Text)
    → starts_with name p ≡ true
    → byte_is name (length p) b'/' ≡ true
    → (r : Text) × (name ≡ p ++ b'/' ∷ r)
below_of_tests name p s b =
    let (r, e) = starts_with-eq-true name p s in
    let (t, e') = slash_of_byte_is p r (rw e at b) in (t, e ∙ ap (λ x. p ++ x) e')

pub InNamespace-of_matches : (name p : Text) → matches_prefix name p ≡ true → InNamespace name p
unfolding matches_prefix
InNamespace-of_matches name p h = elim (Bool-cases (name == p)) [
  | inl same ↦ inl ((==_iff name p).0 same)
  | inr other ↦ inr (below_of_tests name p (ground arith) (ground arith))
]

pub matches_of_InNamespace : (name p : Text) → InNamespace name p → matches_prefix name p ≡ true
unfolding matches_prefix
matches_of_InNamespace name p (inl e) = rw e (rw (==_refl p))
matches_of_InNamespace name p (inr (r, e)) =
    rw e (ground (arith, starts_with-append p (b'/' ∷ r), byte_is-append p r b'/'))

-- A name matches a list of prefixes exactly when it lies in the namespace of one of them.
pub matches_image_prefix_iff :
    (name : Text) (prefixes : List Text)
    → (matches_image_prefix name prefixes ≡ true)
      ↔ ((p : Text) × Elem p prefixes × InNamespace name p)
unfolding matches_image_prefix
matches_image_prefix_iff name prefixes = (
  λ h.
      let (p, e, m) = any-eq-true (matches_prefix name) prefixes h in
      (p, e, InNamespace-of_matches name p m),
  λ (p, e, n). any-Elem (matches_prefix name) e (matches_of_InNamespace name p n),
)
