-- ===== src/Gates/HostConfig.antt =====
-- rs/src/middleware.rs: HostConfigGate, the default-deny check on `HostConfig`.
pub mod Fields
pub mod Passed
pub mod Rules
pub mod Options
use docker_socket_policy.Base.{
  Text, ℕ, Bool, true, false, not, Option, none, some, List, [], ◌∷◌, Result, ok, err, ◌>>◌, ◌>>=◌,
  ensure, ok_or, ◌==◌, lit, ◌||◌, ◌&&◌, is_empty, if◌then◌else◌, unwrap_or,
}
use docker_socket_policy.Base.Map.{Map, get}
use docker_socket_policy.Json.{
  Value, null, bool, number, string, array, object, Body, as_str, as_array, is_null, entries,
  is_nonnegative_value,
}
use docker_socket_policy.Message.{
  Message, host_config_not_object, host_config_field_not_allowed, security_opt_not_list,
  security_opt_not_allowed, mode_not_allowed, oom_score_adj_not_allowed,
}
use docker_socket_policy.Policy.{Policy, ContainerConfig}
use docker_socket_policy.Gates.{check_field_case, check_values, is_zero_value}
use docker_socket_policy.Gates.MountSource.{contains_entry, object_field}
use Fields.{
  host_config_fields, create_body_fields, networking_config_fields, host_config_any_value,
  no_new_privileges,
}

-- The values a namespace field may take besides "".
unfoldable pub host_config_modes : Text → Option (List Text)
host_config_modes key =
    if key == lit "PidMode"
      || key == lit "UTSMode"
      || key == lit "UsernsMode"
      || key == lit "Cgroup"
    then some []
    else if key == lit "IpcMode"
    then some (lit "private" ∷ lit "shareable" ∷ lit "none" ∷ [])
    else if key == lit "CgroupnsMode"
    then some (lit "private" ∷ [])
    else if key == lit "Isolation"
    then some (lit "default" ∷ [])
    else none

-- The policy's `group_add`.
unfoldable pub forced_groups : Policy → Option (List Text)
forced_groups policy = elim policy.container_config [ none ↦ none | some c ↦ c.group_add ]

-- A list of strings equal, in order, to the given texts.
unfoldable pub same_strings : List Value → List Text → Bool
same_strings [] [] = true
same_strings (string s ∷ vs) (f ∷ fs) = s == f && same_strings vs fs
same_strings _ _ = false

unfoldable pub equals_groups : Value → Option (List Text) → Bool
equals_groups value none = false
equals_groups value (some []) = false
equals_groups value (some (g ∷ gs)) = elim (as_array value) [
  | none ↦ false
  | some list ↦ same_strings list (g ∷ gs)
]

unfoldable pub equals_forced_groups : Value → Policy → Bool
equals_forced_groups value policy = equals_groups value (forced_groups policy)

-- The policy's `security_options`, or no options.
unfoldable pub policy_security_options : Policy → List Text
policy_security_options policy = elim policy.container_config [
  | none ↦ []
  | some c ↦ unwrap_or [] c.security_options
]

unfoldable pub check_security_opts :
    (allowed : List Text) → (service : Text) → List Value → Result Message (Unit {0})
check_security_opts allowed service [] = ok tt
check_security_opts allowed service (e ∷ es) = do
  s ← ok_or (security_opt_not_allowed e service) (as_str e)
  ensure (contains_entry no_new_privileges s || contains_entry allowed s)
      (security_opt_not_allowed e service)
  check_security_opts allowed service es

unfoldable pub check_security_opt : Value → Policy → Result Message (Unit {0})
check_security_opt null policy = ok tt
check_security_opt value policy = do
  list ← ok_or (security_opt_not_list policy.service_name) (as_array value)
  check_security_opts (policy_security_options policy) policy.service_name list

unfoldable pub mode_ok : Value → List Text → Bool
mode_ok null allowed = true
mode_ok (string s) allowed = is_empty s || contains_entry allowed s
mode_ok v allowed = false

unfoldable pub check_mode :
    (key : Text) → Value → (allowed : List Text) → Policy → Result Message (Unit {0})
check_mode key value allowed policy =
    ensure (mode_ok value allowed) (mode_not_allowed key value policy.service_name)

-- The last arm of the `match` on a HostConfig key.
unfoldable pub check_other_field : Policy → (key : Text) → Value → Result Message (Unit {0})
check_other_field policy key value = elim (host_config_modes key) [
  | some modes ↦ check_mode key value modes policy
  | none ↦ ensure (is_zero_value value) (host_config_field_not_allowed key policy.service_name)
]

-- The `match` on a HostConfig key, in the order of its arms.
unfoldable pub check_host_field : Policy → (key : Text) → Value → Result Message (Unit {0})
check_host_field policy key value =
    if key == lit "Binds" || key == lit "Mounts"
    then ok tt
    else if contains_entry host_config_any_value key
    then ok tt
    else if key == lit "MaskedPaths" || key == lit "ReadonlyPaths"
    then ensure (is_null value) (host_config_field_not_allowed key policy.service_name)
    else if key == lit "SecurityOpt"
    then check_security_opt value policy
    else if key == lit "GroupAdd"
    then ensure (is_zero_value value || equals_forced_groups value policy)
        (host_config_field_not_allowed (lit "GroupAdd") policy.service_name)
    else if key == lit "OomScoreAdj"
    then ensure (is_null value || is_nonnegative_value value)
        (oom_score_adj_not_allowed value policy.service_name)
    else check_other_field policy key value

unfoldable pub check_networking_case : Policy → Option (Map Value) → Result Message (Unit {0})
check_networking_case policy none = ok tt
check_networking_case policy (some nc) =
    check_field_case (lit "NetworkingConfig.") nc networking_config_fields policy

unfoldable pub check_host_config : Policy → Option Value → Result Message (Unit {0})
check_host_config policy none = ok tt
check_host_config policy (some null) = ok tt
check_host_config policy (some (object o)) = do
  check_field_case (lit "HostConfig.") (entries o) host_config_fields policy
  check_values (check_host_field policy) (entries o)
check_host_config policy (some v) = err (host_config_not_object policy.service_name)

unfoldable pub check : Policy → Body → Result Message (Unit {0})
check policy body = do
  check_field_case [] body create_body_fields policy
  check_networking_case policy (object_field (lit "NetworkingConfig") body)
  check_host_config policy (get (lit "HostConfig") body)
