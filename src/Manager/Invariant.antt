-- ===== src/Manager/Invariant.antt =====
-- What holds of every policy of a manager that was loaded.
use docker_socket_policy.Base.{
  Text, true, false, not, Option, none, some, List, [], ◌∷◌, ◌≡◌, refl, subst, ◌≢◌, Result, ok,
  >>=-eq-ok, >>-eq-ok, ensure, ensure-not-eq-ok, find, arith, All, is_empty, unwrap_or,
}
use docker_socket_policy.Base.Map.{Map, insert, All-insert}
use docker_socket_policy.Message.{missing_service_name, missing_allowed_image_prefixes}
use docker_socket_policy.Policy.{Regex, Policy, ContainerConfig, valid_container_name}
use docker_socket_policy.Policy.Groups.{check_group_add}
use docker_socket_policy.Policy.GroupRules.{IsGroup, Distinct, check_group_add_sound}
use docker_socket_policy.Manager.{Manager}
use docker_socket_policy.Manager.Load.{
  File, Directory, not_found, unreadable, listing, new, Loaded, load_entries, manager_of,
  nothing_loaded, check_names, check_config, nonempty_groups, normalize_prefixes, check_service,
  add_policy, validate_policy, read_policy, load_files, policy_files, sort_files,
}

-- The names, if they are set, are some valid container names.
abbrev pub AreNames : Option (List Text) → Type 0
AreNames none = Unit
AreNames (some names) = (names ≢ []) × All (λ n. valid_container_name n ≡ true) names

valid_of_find :
    (names : List Text)
    → find (λ n. not (valid_container_name n)) names ≡ none
    → All (λ n. valid_container_name n ≡ true) names
valid_of_find [] h = tt
valid_of_find (n ∷ ns) h = (ground arith, valid_of_find ns (ground arith))

check_names-AreNames :
    (file : Text) (names : Option (List Text)) → check_names file names ≡ ok tt → AreNames names
unfolding check_names
check_names-AreNames file none h = tt
check_names-AreNames file (some []) h = absurd (ground arith)
check_names-AreNames file (some (n ∷ ns)) h = (λ e. cc, valid_of_find (n ∷ ns) (ground arith))

-- The forced groups, if they are set, are some groups that pass the check of group_add.
abbrev pub AreGroups : Option ContainerConfig → Type 0
AreGroups none = Unit
AreGroups (some config) = elim config.group_add as (λ _. Type 0) [
  | none ↦ Unit
  | some groups ↦ (groups ≢ []) × All IsGroup groups × Distinct groups
]

AreGroups-of_nonempty :
    (config : ContainerConfig) (groups : Option (List Text))
    → All IsGroup (unwrap_or [] groups) × Distinct (unwrap_or [] groups)
    → AreGroups (some (record config { group_add = nonempty_groups groups }))
unfolding nonempty_groups
AreGroups-of_nonempty config none h = tt
AreGroups-of_nonempty config (some []) h = tt
AreGroups-of_nonempty config (some (g ∷ gs)) h = (λ e. cc, h.0, h.1)

check_config-AreGroups :
    (file : Text) (config : Option ContainerConfig) {config' : Option ContainerConfig}
    → check_config file config ≡ ok config'
    → AreGroups config'
unfolding check_config
check_config-AreGroups file none {config'} h = let e : none ≡ config' = cc in subst AreGroups e tt
check_config-AreGroups file (some config) {config'} h =
    let (checked, e) =
      >>-eq-ok (check_group_add file (unwrap_or [] config.group_add))
        (ok (some (record config { group_add = nonempty_groups config.group_add }))) h in
    let same : some (record config { group_add = nonempty_groups config.group_add }) ≡ config' =
      cc in
    subst AreGroups same (
      AreGroups-of_nonempty config config.group_add
        (check_group_add_sound file (unwrap_or [] config.group_add) checked))

normalize_prefixes-ne-nil :
    (re : Regex) (dir file : Text) (ps qs : List Text)
    → ps ≢ []
    → normalize_prefixes re dir file ps ≡ ok qs
    → qs ≢ []
unfolding normalize_prefixes
normalize_prefixes-ne-nil re dir file [] qs n h = absurd (n refl)
normalize_prefixes-ne-nil re dir file (p ∷ ps) qs n h = λ e. ground arith

-- A policy that passed the load, under the key it is kept by.
pub record IsLoaded (entry : Text × Policy) : Type 0 where
  pub keyed : entry.0 ≡ entry.1.service_name
  pub named : entry.1.service_name ≢ []
  pub prefixed : entry.1.allowed_image_prefixes ≢ []
  pub names : AreNames entry.1.container_names
  pub groups : AreGroups entry.1.container_config

ne_nil {ℓ} : {A : Type ℓ} (l : List A) → is_empty l ≡ false → l ≢ []
ne_nil [] h = cc
ne_nil (x ∷ xs) h = λ e. cc

validate_policy-IsLoaded :
    (re : Regex) (dir file : Text) (file_of : Map Text) (p : Policy) {kept : Policy}
    → validate_policy re dir file file_of p ≡ ok kept
    → IsLoaded (p.service_name, kept)
unfolding validate_policy
validate_policy-IsLoaded re dir file file_of p {kept} h =
    let (h1, r1) = >>-eq-ok (ensure (not (is_empty p.service_name)) missing_service_name) _ h in
    let (h2, r2) =
      >>-eq-ok (ensure (not (is_empty p.allowed_image_prefixes)) missing_allowed_image_prefixes) _
        r1 in
    let (h3, r3) = >>-eq-ok (check_names file p.container_names) _ r2 in
    let (config, h4, r4) = >>=-eq-ok (check_config file p.container_config) _ r3 in
    let (h5, r5) = >>-eq-ok (check_service file_of file p.service_name) _ r4 in
    let (prefixes, h6, r6) =
      >>=-eq-ok (normalize_prefixes re dir file p.allowed_image_prefixes) _ r5 in
    let same : record p { allowed_image_prefixes = prefixes; container_config = config } ≡ kept =
      cc in
    subst (λ (x : Policy). IsLoaded (p.service_name, x)) same
      (record {
        keyed = refl;
        named = ne_nil p.service_name (ensure-not-eq-ok _ _ h1);
        prefixed =
            normalize_prefixes-ne-nil re dir file p.allowed_image_prefixes prefixes
              (ne_nil p.allowed_image_prefixes (ensure-not-eq-ok _ _ h2)) h6;
        names = check_names-AreNames file p.container_names h3;
        groups = check_config-AreGroups file p.container_config h4;
      })

add_policy-IsLoaded :
    (re : Regex) (dir file : Text) (p : Policy) (l : Loaded) {l' : Loaded}
    → add_policy re dir file p l ≡ ok l'
    → All IsLoaded l.policies_by_name
    → All IsLoaded l'.policies_by_name
unfolding add_policy
add_policy-IsLoaded re dir file p l {l'} h loaded =
    let (kept, h1, r) = >>=-eq-ok (validate_policy re dir file l.file_of p) _ h in
    let same : insert p.service_name kept l.policies_by_name ≡ l'.policies_by_name = ground arith in
    subst (λ (m : Map Policy). All IsLoaded m) same
      (All-insert IsLoaded p.service_name kept l.policies_by_name
        (validate_policy-IsLoaded re dir file l.file_of p h1) loaded)

load_files-IsLoaded :
    (re : Regex) (yaml : Text → Result Text Policy) (dir : Text) (files : List File) (l : Loaded)
    {l' : Loaded}
    → load_files re yaml dir files l ≡ ok l'
    → All IsLoaded l.policies_by_name
    → All IsLoaded l'.policies_by_name
unfolding load_files
load_files-IsLoaded re yaml dir [] l {l'} h loaded =
    let e : l ≡ l' = cc in subst (λ (x : Loaded). All IsLoaded x.policies_by_name) e loaded
load_files-IsLoaded re yaml dir (f ∷ files) l h loaded =
    let (p, _, h1) = >>=-eq-ok (read_policy yaml f) _ h in
    let (l1, e, h2) = >>=-eq-ok (add_policy re dir f.file p l) _ h1 in
    load_files-IsLoaded re yaml dir files l1 h2 (add_policy-IsLoaded re dir f.file p l e loaded)

load_entries-IsLoaded :
    (re : Regex) (yaml : Text → Result Text Policy) (dir : Text) (es : List (Result Text File))
    {l : Loaded}
    → load_entries re yaml dir es ≡ ok l
    → All IsLoaded l.policies_by_name
unfolding load_entries
load_entries-IsLoaded re yaml dir es h =
    let (files, _, h1) = >>=-eq-ok (policy_files es) _ h in
    load_files-IsLoaded re yaml dir (sort_files files) nothing_loaded h1 tt

manager_of-policies :
    (l : Loaded) {m : Manager} → manager_of l ≡ ok m → l.policies_by_name ≡ m.policies_by_name
unfolding manager_of
manager_of-policies l h = ground arith

-- After a successful load every policy is kept under its own service name, which is not empty, has
-- image prefixes, and has valid container names and forced groups where it sets them.
pub new-IsLoaded :
    (re : Regex) (yaml : Text → Result Text Policy) (dir : Text) (d : Directory) {m : Manager}
    → new re yaml dir d ≡ ok m
    → All IsLoaded m.policies_by_name
unfolding new
new-IsLoaded re yaml dir not_found {m} h =
    let e : [] ≡ m.policies_by_name = ground arith in
    subst (λ (x : Map Policy). All IsLoaded x) e tt
new-IsLoaded re yaml dir (unreadable e) h = cc
new-IsLoaded re yaml dir (listing es) {m} h =
    let (l, e, h1) = >>=-eq-ok (load_entries re yaml dir es) manager_of h in
    subst (λ x. All IsLoaded x) (manager_of-policies l h1) (load_entries-IsLoaded re yaml dir es e)
