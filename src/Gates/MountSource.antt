-- ===== src/Gates/MountSource.antt =====
-- rs/src/middleware.rs: MountSourceGate: binds, mounts and volumes.
pub mod Rules
pub mod BindOptions
pub mod MountRules
pub mod Mounts
use docker_socket_policy.Base.{
  Text, ℕ, Bool, true, false, not, Option, none, some, List, [], ◌∷◌, Result, ok, err, ◌>>◌, ◌>>=◌,
  ensure, ok_or, ◌==◌, lit, ◌||◌, ◌&&◌, is_empty, if◌then◌else◌, split, any, find, is_some,
  unwrap_or,
}
use docker_socket_policy.Base.Map.{Map, get}
use docker_socket_policy.Json.{
  Value, null, bool, number, string, array, object, Body, as_str, as_array, as_object, as_bool,
  entries,
}
use docker_socket_policy.Message.{
  Message, binds_not_list, invalid_bind, volume_mount_not_whitelisted, bind_option_not_allowed,
  volume_mount_must_be_readonly, mounts_not_list, mounts_entry_not_object, mount_field_not_allowed,
  tmpfs_with_source, mount_source_not_whitelisted, mount_must_be_readonly, mount_type_not_allowed,
  bind_options_not_object, propagation_not_allowed, bind_option_field_not_allowed,
  volume_not_whitelisted,
}
use docker_socket_policy.Policy.{Policy, Volume}
use docker_socket_policy.Gates.{
  check_field_case, check_values, is_zero_value, sorted_keys, find_volume,
}

unfoldable pub bind_modes : List Text
bind_modes =
    lit "ro" ∷ lit "rw" ∷ lit "z" ∷ lit "Z" ∷ lit "nocopy" ∷ lit "private" ∷ lit "rprivate" ∷ []

unfoldable pub mount_fields : List Text
mount_fields =
    lit "Type"
    ∷ lit "Source"
    ∷ lit "Target"
    ∷ lit "ReadOnly"
    ∷ lit "Consistency"
    ∷ lit "BindOptions"
    ∷ lit "VolumeOptions"
    ∷ lit "ImageOptions"
    ∷ lit "TmpfsOptions"
    ∷ lit "ClusterOptions"
    ∷ []

unfoldable pub mount_any_value : List Text
mount_any_value = lit "Target" ∷ lit "Consistency" ∷ lit "TmpfsOptions" ∷ []

unfoldable pub bind_option_fields : List Text
bind_option_fields =
    lit "Propagation"
    ∷ lit "NonRecursive"
    ∷ lit "CreateMountpoint"
    ∷ lit "ReadOnlyNonRecursive"
    ∷ lit "ReadOnlyForceRecursive"
    ∷ []

unfoldable pub bind_option_any_value : List Text
bind_option_any_value =
    lit "NonRecursive" ∷ lit "CreateMountpoint" ∷ lit "ReadOnlyForceRecursive" ∷ []

-- Whether a list of texts contains a text.
unfoldable pub contains_entry : List Text → Text → Bool
contains_entry l s = any (λ t. t == s) l

unfoldable pub check_options : (host_path service : Text) → List Text → Result Message (Unit {0})
check_options host_path service [] = ok tt
check_options host_path service (o ∷ opts) = do
  ensure (contains_entry bind_modes o) (bind_option_not_allowed o host_path service)
  check_options host_path service opts

-- The checks of a bind behind its split into parts.
unfoldable pub check_bind_parts :
    Policy → (host_path : Text) → (opts : List Text) → Result Message (Unit {0})
check_bind_parts policy host_path opts = do
  vol ←
      ok_or (volume_mount_not_whitelisted host_path policy.service_name)
        (find_volume host_path policy)
  check_options host_path policy.service_name opts
  ensure (vol.read_write || contains_entry opts (lit "ro") && not (contains_entry opts (lit "rw")))
      (volume_mount_must_be_readonly host_path policy.service_name)

unfoldable pub bind_options : Text → List Text
bind_options options = if is_empty options then [] else split options b','

unfoldable pub check_bind_split : Policy → (bind : Text) → List Text → Result Message (Unit {0})
check_bind_split policy bind [] = err (invalid_bind bind policy.service_name)
check_bind_split policy bind (host_path ∷ []) = check_bind_parts policy host_path []
check_bind_split policy bind (host_path ∷ target ∷ []) = check_bind_parts policy host_path []
check_bind_split policy bind (host_path ∷ target ∷ options ∷ []) =
    check_bind_parts policy host_path (bind_options options)
check_bind_split policy bind (_ ∷ _ ∷ _ ∷ _ ∷ _) = err (invalid_bind bind policy.service_name)

-- The body of the loop of `check_binds`.
unfoldable pub check_bind : Policy → Text → Result Message (Unit {0})
check_bind policy bind =
    if is_empty bind
    then err (invalid_bind bind policy.service_name)
    else check_bind_split policy bind (split bind b':')

unfoldable pub check_bind_list : Policy → List Value → Result Message (Unit {0})
check_bind_list policy [] = ok tt
check_bind_list policy (v ∷ vs) = do
  bind ← ok_or (binds_not_list policy.service_name) (as_str v)
  check_bind policy bind
  check_bind_list policy vs

unfoldable pub check_binds : Option Value → Policy → Result Message (Unit {0})
check_binds none policy = ok tt
check_binds (some null) policy = ok tt
check_binds (some raw) policy = do
  binds ← ok_or (binds_not_list policy.service_name) (as_array raw)
  check_bind_list policy binds

-- The rule of "Propagation".
unfoldable pub propagation_ok : Value → Bool
propagation_ok null = true
propagation_ok (string s) = is_empty s || s == lit "private" || s == lit "rprivate"
propagation_ok v = false

unfoldable pub check_bind_option : Policy → (key : Text) → Value → Result Message (Unit {0})
check_bind_option policy key value =
    if key == lit "Propagation"
    then ensure (propagation_ok value) (propagation_not_allowed value policy.service_name)
    else if contains_entry bind_option_any_value key
    then ok tt
    else ensure (is_zero_value value) (bind_option_field_not_allowed key policy.service_name)

unfoldable pub check_bind_options : Value → Policy → Result Message (Unit {0})
check_bind_options null policy = ok tt
check_bind_options raw policy = do
  opts ← ok_or (bind_options_not_object policy.service_name) (as_object raw)
  check_field_case (lit "HostConfig.Mounts.BindOptions.") opts bind_option_fields policy
  check_values (check_bind_option policy) opts

unfoldable pub check_mount_field : Policy → (key : Text) → Value → Result Message (Unit {0})
check_mount_field policy key value =
    if key == lit "Type" || key == lit "Source" || key == lit "ReadOnly"
    then ok tt
    else if key == lit "BindOptions"
    then check_bind_options value policy
    else if contains_entry mount_any_value key
    then ok tt
    else ensure (is_zero_value value) (mount_field_not_allowed key policy.service_name)

-- `mount.get(key).and_then(as_str).unwrap_or("")`
unfoldable pub text_field : Text → Map Value → Text
text_field key m = elim (get key m) [ none ↦ [] | some v ↦ unwrap_or [] (as_str v) ]

-- `mount.get(key).and_then(as_bool).unwrap_or(false)`
unfoldable pub flag_field : Text → Map Value → Bool
flag_field key m = elim (get key m) [ none ↦ false | some v ↦ unwrap_or false (as_bool v) ]

-- `mount.get(key).map_or(true, is_zero_value)`
unfoldable pub zero_field : Text → Map Value → Bool
zero_field key m = elim (get key m) [ none ↦ true | some v ↦ is_zero_value v ]

-- The rule of the mount's type.
unfoldable pub check_mount_type :
    Policy → (mount_type source : Text) → Map Value → Result Message (Unit {0})
check_mount_type policy mount_type source mount =
    if mount_type == lit "tmpfs"
    then ensure (zero_field (lit "Source") mount) (tmpfs_with_source policy.service_name)
    else if mount_type == lit "bind"
    then (do
      vol ←
          ok_or (mount_source_not_whitelisted source policy.service_name)
            (find_volume source policy)
      ensure (vol.read_write || flag_field (lit "ReadOnly") mount)
          (mount_must_be_readonly source policy.service_name))
    else err (mount_type_not_allowed mount_type policy.service_name)

unfoldable pub check_mount : Map Value → Policy → Result Message (Unit {0})
check_mount mount policy = do
  check_field_case (lit "HostConfig.Mounts.") mount mount_fields policy
  check_values (check_mount_field policy) mount
  check_mount_type policy (text_field (lit "Type") mount) (text_field (lit "Source") mount) mount

unfoldable pub check_mount_list : Policy → List Value → Result Message (Unit {0})
check_mount_list policy [] = ok tt
check_mount_list policy (v ∷ vs) = do
  mount ← ok_or (mounts_entry_not_object policy.service_name) (as_object v)
  check_mount mount policy
  check_mount_list policy vs

unfoldable pub check_mounts : Option Value → Policy → Result Message (Unit {0})
check_mounts none policy = ok tt
check_mounts (some null) policy = ok tt
check_mounts (some raw) policy = do
  mounts ← ok_or (mounts_not_list policy.service_name) (as_array raw)
  check_mount_list policy mounts

unfoldable pub check_volume_keys : Policy → List Text → Result Message (Unit {0})
check_volume_keys policy [] = ok tt
check_volume_keys policy (host_path ∷ ks) = do
  ensure (is_some (find_volume host_path policy))
      (volume_not_whitelisted host_path policy.service_name)
  check_volume_keys policy ks

-- The object under a key, if there is one.
unfoldable pub object_field : Text → Map Value → Option (Map Value)
object_field key m = elim (get key m) [ none ↦ none | some v ↦ as_object v ]

unfoldable pub check_host_mounts : Policy → Option (Map Value) → Result Message (Unit {0})
check_host_mounts policy none = ok tt
check_host_mounts policy (some hc) = do
  check_binds (get (lit "Binds") hc) policy
  check_mounts (get (lit "Mounts") hc) policy

unfoldable pub check_volumes : Policy → Option (Map Value) → Result Message (Unit {0})
check_volumes policy none = ok tt
check_volumes policy (some volumes) = check_volume_keys policy (sorted_keys volumes)

unfoldable pub check : Policy → Body → Result Message (Unit {0})
check policy body = do
  check_host_mounts policy (object_field (lit "HostConfig") body)
  check_volumes policy (object_field (lit "Volumes") body)
