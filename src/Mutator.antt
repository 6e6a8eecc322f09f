-- ===== src/Mutator.antt =====
-- rs/src/middleware.rs: ContainerConfigMutator, which forces the policy's container configuration.
pub mod Fields
pub mod Rest
pub mod Forced
pub mod Endpoints
pub mod Twice
use docker_socket_policy.Base.{
  Text, Bool, true, false, not, Option, none, some, List, [], ◌∷◌, Result, ok, err, ◌==◌, lit, ◌||◌,
  ◌&&◌, is_empty, if◌then◌else◌, any, map, unwrap_or,
}
use docker_socket_policy.Base.Map.{Map, get, insert, keys}
use docker_socket_policy.Json.{
  Value, null, bool, string, array, object, Body, as_object, obj, from_list, entries,
}
use docker_socket_policy.Policy.{Policy, ContainerConfig}
use docker_socket_policy.Gates.NetworkEndpoints.{
  forced_network_mode, endpoints_config, detached_network_mode, foreign_network,
}

abbrev pub strings : List Text → Value
strings l = array (from_list (map string l))

-- The entry that the endpoints keep for the mode: its own, else that of "default", else {}.
unfoldable pub kept_entry : (mode : Text) → Map Value → Value
kept_entry mode eps = elim (get mode eps) [
  | some v ↦ v
  | none ↦ unwrap_or (obj []) (get (lit "default") eps)
]

unfoldable pub forced_endpoints : (mode : Text) → Map Value → Map Value
forced_endpoints mode eps =
    if detached_network_mode mode then [] else (mode, kept_entry mode eps) ∷ []

-- NetworkingConfig as an object: {} if it is absent or no object.
unfoldable pub networking_object : Body → Map Value
networking_object body = elim (get (lit "NetworkingConfig") body) [
  | none ↦ []
  | some v ↦ unwrap_or [] (as_object v)
]

unfoldable pub set_endpoints : Map Value → Body → Body
set_endpoints forced body =
    insert (lit "NetworkingConfig")
      (obj (insert (lit "EndpointsConfig") (obj forced) (networking_object body))) body

unfoldable pub force_found : (mode : Text) → Map Value → Body → Body
force_found mode eps body =
    if any (foreign_network mode) (keys eps)
    then body
    else set_endpoints (forced_endpoints mode eps) body

unfoldable pub force_endpoints : (mode : Text) → Body → Body
force_endpoints mode body = elim (endpoints_config body) [
  | err _ ↦ body
  | ok none ↦ force_found mode [] body
  | ok (some eps) ↦ force_found mode eps body
]

-- A write that is made when the policy sets the value.
abbrev pub set_some {ℓ} : {A : Type ℓ} → Text → (A → Value) → Option A → Map Value → Map Value
set_some key value none m = m
set_some key value (some a) m = insert key (value a) m

-- `json!({"Name": rp})`
unfoldable pub restart_value : Text → Value
restart_value rp = obj ((lit "Name", string rp) ∷ [])

-- A map of strings as a JSON object.
unfoldable pub options_object : List (Text × Text) → Map Value
options_object [] = []
options_object ((k, v) ∷ options) = insert k (string v) (options_object options)

-- `json!({"Type": driver, "Config": log_options})`
unfoldable pub log_value : Option (List (Text × Text)) → (driver : Text) → Value
log_value options driver =
    obj (
      (lit "Config", obj (options_object (unwrap_or [] options)))
      ∷ (lit "Type", string driver)
      ∷ [])

-- `group_add`, unless it is empty.
unfoldable pub nonempty_list : Option (List Text) → Option (List Text)
nonempty_list none = none
nonempty_list (some l) = if is_empty l then none else some l

-- The writes into `HostConfig` of a container_config.
unfoldable pub config_fields : ContainerConfig → Map Value → Map Value
config_fields config hc =
    let hc1 = set_some (lit "NetworkMode") string config.network_mode hc in
    let hc2 = set_some (lit "RestartPolicy") restart_value config.restart_policy hc1 in
    let hc3 = set_some (lit "SecurityOpt") strings config.security_options hc2 in
    let hc4 = set_some (lit "LogConfig") (log_value config.log_options) config.log_driver hc3 in
    set_some (lit "GroupAdd") strings (nonempty_list config.group_add) hc4

unfoldable pub optional_config_fields : Option ContainerConfig → Map Value → Map Value
optional_config_fields none hc = hc
optional_config_fields (some config) hc = config_fields config hc

unfoldable pub forced_host_config : Policy → Map Value → Map Value
forced_host_config policy hc =
    optional_config_fields policy.container_config (insert (lit "Privileged") (bool false) hc)

-- The entry of `HostConfig`: {} if it is absent or null.
unfoldable pub host_config_value : Body → Value
host_config_value body = elim (get (lit "HostConfig") body) [
  | none ↦ obj []
  | some null ↦ obj []
  | some v ↦ v
]

unfoldable pub forced_user : Option ContainerConfig → Option Text
forced_user none = none
forced_user (some config) = config.user

-- The writes at the top level: the user, and the endpoints of a forced network mode.
unfoldable pub config_top : Policy → Body → Body
config_top policy body =
    let body' = set_some (lit "User") string (forced_user policy.container_config) body in
    elim (forced_network_mode policy) [ none ↦ body' | some mode ↦ force_endpoints mode body' ]

unfoldable pub mutate : Policy → Body → Body
mutate policy body = elim (as_object (host_config_value body)) [
  | none ↦ body
  | some hc ↦
      config_top policy (insert (lit "HostConfig") (obj (forced_host_config policy hc)) body)
]
