-- ===== src/Manager/Load.antt =====
-- rs/src/policy.rs: `Manager::new`, which reads the policy files of the configuration directory.
-- The directory is an input; serde_yaml is the parameter `yaml`.
use docker_socket_policy.Base.{
  Text, zero, suc, Bool, false, not, Option, none, some, List, [], ◌∷◌, Result, ok, err, ◌>>=◌,
  ◌>>◌, ensure, lit, ◌==◌, find, ◌||◌, is_empty, if◌then◌else◌, text_ltb, rfind, drop, unwrap_or,
}
use docker_socket_policy.Base.Map.{Map, get, insert}
use docker_socket_policy.Message.{
  Message, io_error, yaml_error, missing_service_name, missing_allowed_image_prefixes,
  container_names_empty, invalid_policy_container_name, same_service_name, invalid_prefix_entry,
}
use docker_socket_policy.Policy.{Regex, Policy, ContainerConfig, valid_container_name}
use docker_socket_policy.Policy.Groups.{check_group_add}
use docker_socket_policy.Image.{normalize_image_prefix}
use docker_socket_policy.Manager.{Manager, check_conflicts}

-- A file of the directory, with what reading it gives: its text, or an error.
pub record File : Type 0 where
  pub file : Text
  pub contents : Result Text Text

-- What `read_dir` gives: no directory, another error, or entries that may each be an error.
pub data Directory : Type 0 where
  not_found : Directory
  unreadable : Text → Directory
  listing : List (Result Text File) → Directory

-- `Path::extension` of a file name: what follows the last dot, unless that is its first byte.
unfoldable pub extension : Text → Option Text
extension file = elim (rfind file b'.') [
  | none ↦ none
  | some zero ↦ none
  | some (suc i) ↦ some (drop (suc (suc i)) file)
]

unfoldable pub is_policy_file : Text → Bool
is_policy_file file = elim (extension file) [
  | none ↦ false
  | some e ↦ e == lit "yaml" || e == lit "yml"
]

-- The first loop: the entries with a policy file's extension.
unfoldable pub policy_files : List (Result Text File) → Result Message (List File)
policy_files [] = ok []
policy_files (err e ∷ entries) = err (io_error e)
policy_files (ok f ∷ entries) = do
  rest ← policy_files entries
  ok (if is_policy_file f.file then f ∷ rest else rest)

-- `paths.sort()`: the files share a directory, so their paths are ordered as their names.
unfoldable pub insert_file : File → List File → List File
insert_file f [] = f ∷ []
insert_file f (g ∷ fs) =
    let rest = g ∷ insert_file f fs in if text_ltb g.file f.file then rest else f ∷ g ∷ fs

unfoldable pub sort_files : List File → List File
sort_files [] = []
sort_files (f ∷ fs) = insert_file f (sort_files fs)

unfoldable pub check_names : Text → Option (List Text) → Result Message (Unit {0})
check_names file none = ok tt
check_names file (some names) = do
  ensure (not (is_empty names)) (container_names_empty file)
  elim (find (λ n. not (valid_container_name n)) names) [
    | none ↦ ok tt
    | some bad ↦ err (invalid_policy_container_name file bad)
  ]

-- An empty list becomes an unset one.
unfoldable pub nonempty_groups : Option (List Text) → Option (List Text)
nonempty_groups (some []) = none
nonempty_groups groups = groups

unfoldable pub check_config :
    Text → Option ContainerConfig → Result Message (Option ContainerConfig)
check_config file none = ok none
check_config file (some config) = do
  check_group_add file (unwrap_or [] config.group_add)
  ok (some (record config { group_add = nonempty_groups config.group_add }))

unfoldable pub normalize_prefixes :
    Regex → (dir file : Text) → List Text → Result Message (List Text)
normalize_prefixes re dir file [] = ok []
normalize_prefixes re dir file (prefix ∷ prefixes) =
    let rest = normalize_prefixes re dir file prefixes in
    elim (normalize_image_prefix re prefix) [
      | err e ↦ err (invalid_prefix_entry dir file prefix)
      | ok normalized ↦ rest >>= λ others. ok (normalized ∷ others)
    ]

-- The two maps that the second loop fills.
pub record Loaded : Type 0 where
  pub policies_by_name : Map Policy
  pub file_of : Map Text

unfoldable pub check_service : Map Text → (file service : Text) → Result Message (Unit {0})
check_service file_of file service = elim (get service file_of) [
  | none ↦ ok tt
  | some prev ↦ err (same_service_name prev file service)
]

-- The validation of a parsed policy: the policy as it is kept.
unfoldable pub validate_policy :
    Regex → (dir file : Text) → (file_of : Map Text) → Policy → Result Message Policy
validate_policy re dir file file_of policy = do
  ensure (not (is_empty policy.service_name)) missing_service_name
  ensure (not (is_empty policy.allowed_image_prefixes)) missing_allowed_image_prefixes
  check_names file policy.container_names
  config ← check_config file policy.container_config
  check_service file_of file policy.service_name
  prefixes ← normalize_prefixes re dir file policy.allowed_image_prefixes
  ok (record policy { allowed_image_prefixes = prefixes; container_config = config })

-- The body of the second loop, for a parsed policy.
unfoldable pub add_policy : Regex → (dir file : Text) → Policy → Loaded → Result Message Loaded
add_policy re dir file policy l = do
  kept ← validate_policy re dir file l.file_of policy
  ok (record {
    policies_by_name = insert policy.service_name kept l.policies_by_name;
    file_of = insert policy.service_name file l.file_of;
  })

unfoldable pub read_policy : (Text → Result Text Policy) → File → Result Message Policy
read_policy yaml f = elim f.contents [
  | err e ↦ err (io_error e)
  | ok contents ↦ elim (yaml contents) [ err e ↦ err (yaml_error f.file e) | ok p ↦ ok p ]
]

-- The second loop.
unfoldable pub load_files :
    Regex → (Text → Result Text Policy) → (dir : Text) → List File → Loaded → Result Message Loaded
load_files re yaml dir [] l = ok l
load_files re yaml dir (f ∷ files) l = do
  policy ← read_policy yaml f
  l' ← add_policy re dir f.file policy l
  load_files re yaml dir files l'

abbrev pub nothing_loaded : Loaded
nothing_loaded = record { policies_by_name = []; file_of = [] }

-- The policies of the directory's files, in the order of their names.
unfoldable pub load_entries :
    Regex
    → (Text → Result Text Policy)
    → (dir : Text) → List (Result Text File)
    → Result Message Loaded
load_entries re yaml dir entries = do
  files ← policy_files entries
  load_files re yaml dir (sort_files files) nothing_loaded

-- The end of `Manager::new`: the conflicts of what was loaded.
unfoldable pub manager_of : Loaded → Result Message Manager
manager_of l = do
  check_conflicts (record { policies_by_name = l.policies_by_name }) l.file_of
  ok (record { policies_by_name = l.policies_by_name })

-- `Manager::new`
unfoldable pub new :
    Regex → (Text → Result Text Policy) → (dir : Text) → Directory → Result Message Manager
new re yaml dir not_found = ok (record { policies_by_name = [] })
new re yaml dir (unreadable e) = err (io_error e)
new re yaml dir (listing entries) = do l ← load_entries re yaml dir entries; manager_of l
