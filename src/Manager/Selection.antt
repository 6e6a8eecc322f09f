-- ===== src/Manager/Selection.antt =====
-- Selection after a successful load: at most one policy fits a create, and what is selected fits.
use docker_socket_policy.Base.{
  Text, ◌≤◌, Bool, true, none, List, [], ◌∷◌, ◌≡◌, refl, sym, ◌∙◌, ◌≢◌, ◌&&◌, filter, length, arith,
  Bool-cases, inl, inr, Result, ok, err, >>=-eq-ok, >>-eq-ok, Result-cases, ◌↔◌,
}
use docker_socket_policy.Base.Map.{Map, values}
use docker_socket_policy.Message.{ambiguous_policy}
use docker_socket_policy.Policy.{Regex, Policy, accepts_name}
use docker_socket_policy.Image.{ImageRef, parse_image_ref, matches_image_prefix}
use docker_socket_policy.Manager.{
  Manager, policies, matching_image, select_for_create, choose, first_conflict, conflicts_from,
  check_conflicts,
}
use docker_socket_policy.Image.Errors.{parse_image_ref-err}
use docker_socket_policy.Manager.Conflicts.{conflict-of_common}
use docker_socket_policy.Manager.Load.{
  Directory, not_found, unreadable, listing, new, Loaded, load_entries, manager_of,
}

-- Whether a create of the image and name could select the policy.
abbrev pub fits : (image name : Text) → Policy → Bool
fits image name p = matches_image_prefix image p.allowed_image_prefixes && accepts_name p name

filter-filter {ℓ} :
    {A : Type ℓ} (p q : A → Bool) (xs : List A)
    → filter q (filter p xs) ≡ filter (λ x. p x && q x) xs
filter-filter p q [] = refl
filter-filter p q (x ∷ xs) = elim (Bool-cases (p x)) [
  | inl e ↦ rw (e, filter-filter p q xs)
  | inr e ↦ rw (e, filter-filter p q xs)
]

module _ (file_of : Map Text) (image name : Text) where
  -- A policy that conflicts with none of the others leaves them unfit.
  first_conflict-none :
      (a : Policy) (ps : List Policy)
      → first_conflict file_of a ps ≡ none
      → fits image name a ≡ true
      → filter (fits image name) ps ≡ []
  unfolding first_conflict
  first_conflict-none a [] h fa = refl
  first_conflict-none a (b ∷ ps) h fa = elim (Bool-cases (fits image name b)) [
    | inl fb ↦ absurd (
        conflict-of_common file_of a b image name (ground arith) (ground arith) (ground arith)
          (ground arith) (ground arith))
    | inr nb ↦ rw nb (first_conflict-none a ps (ground arith) fa)
  ]

  conflicts_from-ok :
      (ps : List Policy)
      → conflicts_from file_of ps ≡ ok tt
      → length (filter (fits image name) ps) ≤ 1
  unfolding conflicts_from
  conflicts_from-ok [] h = omega arith
  conflicts_from-ok (a ∷ ps) h = elim (Bool-cases (fits image name a)) [
    | inl fa ↦ rw (fa, first_conflict-none a ps (ground arith) fa) (omega arith)
    | inr na ↦ rw na (conflicts_from-ok ps (ground arith))
  ]

no_conflicts : (m : Manager) → m.policies_by_name ≡ [] → conflicts_from [] (policies m) ≡ ok tt
unfolding policies conflicts_from values
no_conflicts m e = rw e

conflicts_of_manager_of :
    (l : Loaded) {m : Manager}
    → manager_of l ≡ ok m
    → (l.policies_by_name ≡ m.policies_by_name) × (conflicts_from l.file_of (policies m) ≡ ok tt)
unfolding manager_of check_conflicts policies
conflicts_of_manager_of l {m} h =
    let (checked, done) =
      >>-eq-ok (check_conflicts (record { policies_by_name = l.policies_by_name }) l.file_of)
        (ok (record { policies_by_name = l.policies_by_name })) h in
    let same : l.policies_by_name ≡ m.policies_by_name = cc in (same, rw (← same) checked)

-- What a successful load has checked: no two of the policies conflict.
new-conflicts :
    (re : Regex) (yaml : Text → Result Text Policy) (dir : Text) (d : Directory) {m : Manager}
    → new re yaml dir d ≡ ok m
    → (file_of : Map Text) × (conflicts_from file_of (policies m) ≡ ok tt)
unfolding new
new-conflicts re yaml dir not_found {m} h = ([], no_conflicts m (cc))
new-conflicts re yaml dir (unreadable e) h = cc
new-conflicts re yaml dir (listing es) {m} h =
    let (l, _, h1) = >>=-eq-ok (load_entries re yaml dir es) manager_of h in
    (l.file_of, (conflicts_of_manager_of l h1).1)

-- After a successful load, at most one policy fits the image and name of a create.
pub new-fits_unique :
    (re : Regex) (yaml : Text → Result Text Policy) (dir : Text) (d : Directory) {m : Manager}
    → new re yaml dir d ≡ ok m
    → (image name : Text) → length (filter (λ p. accepts_name p name) (matching_image m image)) ≤ 1
unfolding matching_image
new-fits_unique re yaml dir d {m} h image name =
    let (file_of, e) = new-conflicts re yaml dir d h in
    rw
      (filter-filter (λ p. matches_image_prefix image p.allowed_image_prefixes)
        (λ p. accepts_name p name) (policies m))
      (conflicts_from-ok file_of image name (policies m) e)

choose-ne-ambiguous :
    (image_ref name services : Text) (matching candidates : List Policy)
    → length candidates ≤ 1
    → choose image_ref name matching candidates ≢ err (ambiguous_policy image_ref name services)
unfolding choose
choose-ne-ambiguous image_ref name services matching [] h = ground arith
choose-ne-ambiguous image_ref name services matching (p ∷ []) h = ground arith
choose-ne-ambiguous image_ref name services matching (p ∷ q ∷ ps) h = absurd (omega arith)

-- After a successful load no create is refused as ambiguous, whatever its image and name.
pub new-select_unambiguous :
    (re : Regex) (yaml : Text → Result Text Policy) (dir : Text) (d : Directory) {m : Manager}
    → new re yaml dir d ≡ ok m
    → (image_ref name services : Text)
    → select_for_create re m image_ref name ≢ err (ambiguous_policy image_ref name services)
unfolding select_for_create
new-select_unambiguous re yaml dir d {m} h image_ref name services e =
    elim (Result-cases (parse_image_ref re image_ref)) [
      | inl (r, p) ↦
          choose-ne-ambiguous image_ref name services (matching_image m r.name) _
            (new-fits_unique re yaml dir d h r.name name) (rw p at e)
      | inr (msg, p) ↦
          let shown = parse_image_ref-err re image_ref p in
          let same : msg ≡ ambiguous_policy image_ref name services = ground arith in cc
    ]

choose_single :
    (image_ref name : Text) (matching : List Policy) (p : Policy)
    → choose image_ref name matching (p ∷ []) ≡ ok p
unfolding choose
choose_single image_ref name matching p = refl

choose-eq-ok :
    (image_ref name : Text) (matching candidates : List Policy) {p : Policy}
    → choose image_ref name matching candidates ≡ ok p
    → candidates ≡ p ∷ []
unfolding choose
choose-eq-ok image_ref name matching [] h = ground arith
choose-eq-ok image_ref name matching (p ∷ []) h = ground arith
choose-eq-ok image_ref name matching (p ∷ q ∷ ps) h = ground arith

matching-accepting :
    (m : Manager) (image name : Text)
    → filter (λ p. accepts_name p name) (matching_image m image)
      ≡ filter (fits image name) (policies m)
unfolding matching_image
matching-accepting m image name =
    filter-filter (λ p. matches_image_prefix image p.allowed_image_prefixes)
      (λ p. accepts_name p name) (policies m)

-- A create is given a policy exactly when its image parses and that policy is the only one of the
-- manager whose prefixes match the image's name and which accepts the container name.
pub select_for_create_iff :
    (re : Regex) (m : Manager) (image_ref name : Text) (p : Policy)
    → (select_for_create re m image_ref name ≡ ok p) ↔ (
        (r : ImageRef) × (parse_image_ref re image_ref ≡ ok r)
        × (filter (fits r.name name) (policies m) ≡ p ∷ []))
unfolding select_for_create
select_for_create_iff re m image_ref name p = (
  λ h. elim (Result-cases (parse_image_ref re image_ref)) [
    | inl (r, e) ↦
        let chosen =
          choose-eq-ok image_ref name (matching_image m r.name)
            (filter (λ p. accepts_name p name) (matching_image m r.name)) (rw e at h) in
        (r, e, sym (matching-accepting m r.name name) ∙ chosen)
    | inr (msg, e) ↦ absurd (ground arith)
  ],
  λ (r, e, single).
      rw (e, matching-accepting m r.name name ∙ single) (choose_single image_ref name _ p),
)
