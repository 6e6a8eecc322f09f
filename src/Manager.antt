-- ===== src/Manager.antt =====
-- rs/src/policy.rs: the manager, with its policies sorted by service name, and how it selects.
pub mod Load
pub mod Listing
pub mod Conflicts
pub mod Selection
pub mod Invariant
use docker_socket_policy.Base.{
  Text, ℕ, Bool, true, false, not, Option, none, some, List, [], ◌∷◌, ◌++◌, map, Result, ok, err,
  ◌>>=◌, lit, ◌==◌, any, find, filter, ◌||◌, ◌&&◌, is_empty, if◌then◌else◌, starts_with, text_ltb,
  ◌⊎◌, inl, inr,
}
use docker_socket_policy.Base.Map.{Map, get, values, keys}
use docker_socket_policy.Message.{
  Message, image_not_allowed, image_requires_name, name_not_allowed_for_image, ambiguous_policy,
  conflict_without_names, conflict_shared_name,
}
use docker_socket_policy.Policy.{Regex, Policy, accepts_name, covered_names}
use docker_socket_policy.Image.{parse_image_ref, matches_image_prefix}

pub record Manager : Type 0 where
  pub policies_by_name : Map Policy

-- `policies_by_name.values()`
unfoldable pub policies : Manager → List Policy
policies m = values m.policies_by_name

-- `Manager::get`
unfoldable pub get_policy : Manager → Text → Option Policy
get_policy m name = get name m.policies_by_name

-- `Manager::list`
unfoldable pub list : Manager → List Text
list m = keys m.policies_by_name

unfoldable pub matching_image : Manager → Text → List Policy
matching_image m name =
    filter (λ p. matches_image_prefix name p.allowed_image_prefixes) (policies m)

unfoldable pub get_by_image : Regex → Manager → Text → Option Policy
get_by_image re m image_ref = elim (parse_image_ref re image_ref) [
  | err e ↦ none
  | ok r ↦ elim (matching_image m r.name) [ [] ↦ none | p ∷ ps ↦ some p ]
]

-- `join(", ")`
unfoldable pub join_comma : List Text → Text
join_comma [] = []
join_comma (s ∷ []) = s
join_comma (s ∷ t ∷ ss) = s ++ lit ", " ++ join_comma (t ∷ ss)

unfoldable pub covering : Manager → Text → List Policy
covering m name = filter (λ p. any (λ n. n == name) (covered_names p)) (policies m)

-- The answer of `select_for_create`, by the policies whose prefixes match and those of them that
-- accept the name.
unfoldable pub choose : Text → Text → List Policy → List Policy → Result Message Policy
choose image_ref name matching (p ∷ []) = ok p
choose image_ref name matching [] =
    if is_empty matching
    then err (image_not_allowed image_ref)
    else if is_empty name
    then err (image_requires_name image_ref)
    else err (name_not_allowed_for_image name image_ref)
choose image_ref name matching (p ∷ q ∷ many) =
    if is_empty matching
    then err (image_not_allowed image_ref)
    else err
        (ambiguous_policy image_ref name (join_comma (map (λ r. r.service_name) (p ∷ q ∷ many))))

unfoldable pub select_for_create : Regex → Manager → Text → Text → Result Message Policy
select_for_create re m image_ref name = do
  r ← parse_image_ref re image_ref
  let matching = matching_image m r.name
  choose image_ref name matching (filter (λ p. accepts_name p name) matching)

-- One prefix equals the other or is a namespace prefix of it.
unfoldable pub overlap : Text → Text → Bool
overlap pa pb = pa == pb || starts_with pa (pb ++ b'/' ∷ []) || starts_with pb (pa ++ b'/' ∷ [])

-- The inner loop of `overlapping_prefixes`.
unfoldable pub overlap_with : Text → List Text → Option (Text × Text)
overlap_with pa [] = none
overlap_with pa (pb ∷ bs) =
    let rest = overlap_with pa bs in if overlap pa pb then some (pa, pb) else rest

unfoldable pub overlapping_prefixes : List Text → List Text → Option (Text × Text)
overlapping_prefixes [] bs = none
overlapping_prefixes (pa ∷ as_) bs =
    let rest = overlapping_prefixes as_ bs in
    elim (overlap_with pa bs) [ some pair ↦ some pair | none ↦ rest ]

-- The least text of a list: `min()`.
unfoldable pub minimum : List Text → Option Text
minimum [] = none
minimum (s ∷ ss) = elim (minimum ss) [
  | none ↦ some s
  | some t ↦ if text_ltb t s then some t else some s
]

-- Why two policies whose prefixes overlap could both be selected: `inl` names one that accepts any
-- name, `inr` is a shared name, and `none` is the `continue`.
unfoldable pub conflict_reason : Policy → Policy → Option (Text ⊎ Text)
conflict_reason a b = elim a.container_names [
  | none ↦ some (inl a.service_name)
  | some an ↦ elim b.container_names [
    | none ↦ some (inl b.service_name)
    | some bn ↦ elim (minimum (filter (λ n. any (λ k. k == n) bn) an)) [
      | some shared ↦ some (inr shared)
      | none ↦ none
    ]
  ]
]

-- The file that a service came from, or "".
unfoldable pub file_name : Map Text → Text → Text
file_name file_of service = elim (get service file_of) [ some f ↦ f | none ↦ [] ]

-- The conflict of two policies, if they have one: the body of the loops of `check_conflicts`.
unfoldable pub conflict : Map Text → Policy → Policy → Option Message
conflict file_of a b =
    elim (overlapping_prefixes a.allowed_image_prefixes b.allowed_image_prefixes) [
      | none ↦ none
      | some (pa, pb) ↦ elim (conflict_reason a b) [
        | none ↦ none
        | some (inl unnamed) ↦ some (
            conflict_without_names a.service_name (file_name file_of a.service_name) b.service_name
              (file_name file_of b.service_name) pa pb unnamed)
        | some (inr shared) ↦ some (
            conflict_shared_name a.service_name (file_name file_of a.service_name) b.service_name
              (file_name file_of b.service_name) pa pb shared)
      ]
    ]

unfoldable pub first_conflict : Map Text → Policy → List Policy → Option Message
first_conflict file_of a [] = none
first_conflict file_of a (b ∷ rest) =
    let later = first_conflict file_of a rest in
    elim (conflict file_of a b) [ some e ↦ some e | none ↦ later ]

unfoldable pub conflicts_from : Map Text → List Policy → Result Message (Unit {0})
conflicts_from file_of [] = ok tt
conflicts_from file_of (a ∷ rest) =
    let later = conflicts_from file_of rest in
    elim (first_conflict file_of a rest) [ some e ↦ err e | none ↦ later ]

unfoldable pub check_conflicts : Manager → Map Text → Result Message (Unit {0})
check_conflicts m file_of = conflicts_from file_of (policies m)
