-- ===== src/Manager/Conflicts.antt =====
-- Two prefixes overlap exactly when one image name can match both; the conflict check of two policies
-- refuses every pair that one create could select together.
use docker_socket_policy.Base.{
  Text, ℕ, true, none, List, [], ◌∷◌, ◌++◌, ◌≡◌, refl, sym, ap, ◌∙◌, ◌↔◌, ◌⊎◌, inl, inr, ◌==◌,
  ==_iff, any, filter, starts_with, arith, Bool-cases, Option-cases, Elem, any-eq-true, ◌≢◌,
  filter-Elem,
}
use docker_socket_policy.Base.Map.{Map}
use docker_socket_policy.Base.Split.{
  starts_with-append, starts_with-eq-true, prefix_total, append_cancel,
}
use docker_socket_policy.Image.{matches_image_prefix}
use docker_socket_policy.Image.Namespaces.{InNamespace, matches_image_prefix_iff}
use docker_socket_policy.Policy.{Policy, accepts_name}
use docker_socket_policy.Manager.{
  overlap, overlap_with, overlapping_prefixes, minimum, conflict_reason, conflict,
}
use mathlib.Core.List.{append_assoc, append-nil}

-- A name in a namespace continues the prefix.
extends : (name p : Text) → InNamespace name p → (y : Text) × (name ≡ p ++ y)
extends name p (inl e) = ([], e ∙ sym (append-nil p))
extends name p (inr (r, e)) = (b'/' ∷ r, e)

-- What stands behind `q` in a name below `q`.
slash_behind : (q v name : Text) (c : ℕ) → name ≡ q ++ c ∷ v → InNamespace name q → c ≡ b'/'
slash_behind q v name c e (inl e') =
    let bad : c ∷ v ≡ [] = append_cancel q (c ∷ v) [] (sym e ∙ e' ∙ sym (append-nil q)) in cc
slash_behind q v name c e (inr (r, e')) =
    let same : c ∷ v ≡ b'/' ∷ r = append_cancel q (c ∷ v) (b'/' ∷ r) (sym e ∙ e') in cc

-- A longer prefix with a name in common continues the shorter one with a slash.
continued :
    (p q u name : Text)
    → p ≡ q ++ u
    → InNamespace name p
    → InNamespace name q
    → (p ≡ q) ⊎ (starts_with p (q ++ b'/' ∷ []) ≡ true)
continued p q [] name e np nq = inl (e ∙ append-nil q)
continued p q (c ∷ u) name e np nq =
    let (y, e') = extends name p np in
    let slash =
      slash_behind q (u ++ y) name c (e' ∙ ap (λ x. x ++ y) e ∙ append_assoc q (c ∷ u) y) nq in
    let whole : p ≡ (q ++ b'/' ∷ []) ++ u =
      e ∙ ap (λ d. q ++ d ∷ u) slash ∙ sym (append_assoc q (b'/' ∷ []) u) in
    inr (rw whole (starts_with-append (q ++ b'/' ∷ []) u))

overlap_of_common :
    (pa pb name : Text) → InNamespace name pa → InNamespace name pb → overlap pa pb ≡ true
unfolding overlap
overlap_of_common pa pb name na nb =
    let (y, ea) = extends name pa na in
    let (z, eb) = extends name pb nb in
    elim (prefix_total pa pb y z (sym ea ∙ eb)) [
      | inl (u, e) ↦ elim (continued pa pb u name e na nb) [
        | inl same ↦ ground (arith, (==_iff pa pb).1 same)
        | inr longer ↦ ground arith
      ]
      | inr (u, e) ↦ elim (continued pb pa u name e nb na) [
        | inl same ↦ ground (arith, (==_iff pa pb).1 (sym same))
        | inr longer ↦ ground arith
      ]
    ]

below_of_starts : (p q : Text) → starts_with p (q ++ b'/' ∷ []) ≡ true → InNamespace p q
below_of_starts p q h =
    let (r, e) = starts_with-eq-true p (q ++ b'/' ∷ []) h in
    inr (r, e ∙ append_assoc q (b'/' ∷ []) r)

common_of_overlap :
    (pa pb : Text)
    → overlap pa pb ≡ true
    → (name : Text) × InNamespace name pa × InNamespace name pb
unfolding overlap
common_of_overlap pa pb h = elim (Bool-cases (pa == pb)) [
  | inl same ↦ (pa, inl refl, inl ((==_iff pa pb).0 same))
  | inr other ↦ elim (Bool-cases (starts_with pa (pb ++ b'/' ∷ []))) [
    | inl longer ↦ (pa, inl refl, below_of_starts pa pb longer)
    | inr not_longer ↦ (pb, below_of_starts pb pa (ground arith), inl refl)
  ]
]

-- Two prefixes overlap exactly when some image name lies in the namespaces of both.
pub overlap_iff :
    (pa pb : Text)
    → (overlap pa pb ≡ true) ↔ ((name : Text) × InNamespace name pa × InNamespace name pb)
overlap_iff pa pb = (common_of_overlap pa pb, λ (name, na, nb). overlap_of_common pa pb name na nb)

overlap_with-Elem :
    (pa : Text) {pb : Text} {bs : List Text}
    → Elem pb bs
    → overlap pa pb ≡ true
    → overlap_with pa bs ≢ none
unfolding overlap_with
overlap_with-Elem pa Elem.here h = ground arith
overlap_with-Elem pa (Elem.there e) h = ground (arith, overlap_with-Elem pa e h)

overlapping_prefixes-Elem :
    {pa pb : Text} {xs : List Text} (bs : List Text)
    → Elem pa xs
    → Elem pb bs
    → overlap pa pb ≡ true
    → overlapping_prefixes xs bs ≢ none
unfolding overlapping_prefixes
overlapping_prefixes-Elem bs Elem.here eb h = ground (arith, overlap_with-Elem _ eb h)
overlapping_prefixes-Elem bs (Elem.there ea) eb h =
    ground (arith, overlapping_prefixes-Elem bs ea eb h)

-- Two lists of prefixes that one name matches have an overlapping pair.
pub overlapping-of_matches :
    (name : Text) (xs bs : List Text)
    → matches_image_prefix name xs ≡ true
    → matches_image_prefix name bs ≡ true
    → overlapping_prefixes xs bs ≢ none
overlapping-of_matches name xs bs ha hb =
    let (pa, ea, na) = (matches_image_prefix_iff name xs).0 ha in
    let (pb, eb, nb) = (matches_image_prefix_iff name bs).0 hb in
    overlapping_prefixes-Elem bs ea eb (overlap_of_common pa pb name na nb)

minimum-Elem : {s : Text} {ss : List Text} → Elem s ss → minimum ss ≢ none
unfolding minimum
minimum-Elem Elem.here = ground arith
minimum-Elem (Elem.there e) = ground (arith, minimum-Elem e)

shared_name :
    (name : Text) (an bn : List Text)
    → any (λ n. n == name) an ≡ true
    → any (λ n. n == name) bn ≡ true
    → minimum (filter (λ n. any (λ k. k == n) bn) an) ≢ none
shared_name name an bn ha hb =
    let (n, e, h) = any-eq-true (λ n. n == name) an ha in
    let same = (==_iff n name).0 h in
    minimum-Elem (filter-Elem (λ n. any (λ k. k == n) bn) e (rw same hb))

-- Two policies that accept one container name have a reason to conflict.
pub conflict_reason-of_accepts :
    (a b : Policy) (name : Text)
    → accepts_name a name ≡ true
    → accepts_name b name ≡ true
    → conflict_reason a b ≢ none
unfolding conflict_reason accepts_name
conflict_reason-of_accepts a b name ha hb = elim (Option-cases a.container_names) [
  | inl e ↦ ground arith
  | inr (an, e) ↦ elim (Option-cases b.container_names) [
    | inl e' ↦ ground arith
    | inr (bn, e') ↦ ground (arith, shared_name name an bn (rw e at ha) (rw e' at hb))
  ]
]

-- Two policies that one create could select conflict.
pub conflict-of_common :
    (file_of : Map Text) (a b : Policy) (image name : Text)
    → matches_image_prefix image a.allowed_image_prefixes ≡ true
    → matches_image_prefix image b.allowed_image_prefixes ≡ true
    → accepts_name a name ≡ true
    → accepts_name b name ≡ true
    → conflict file_of a b ≢ none
unfolding conflict
conflict-of_common file_of a b image name ma mb ha hb = ground (
  arith,
  overlapping-of_matches image a.allowed_image_prefixes b.allowed_image_prefixes ma mb,
  conflict_reason-of_accepts a b name ha hb,
)
