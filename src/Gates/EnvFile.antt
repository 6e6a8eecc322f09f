-- ===== src/Gates/EnvFile.antt =====
-- rs/src/middleware.rs: EnvFileGate.
pub mod Rules
use docker_socket_policy.Base.{
  Text, Bool, true, Option, none, some, Result, ok, ◌>>◌, ensure, lit, is_empty, if◌then◌else◌,
}
use docker_socket_policy.Base.Map.{Map, get}
use docker_socket_policy.Json.{Value, Body, as_array}
use docker_socket_policy.Message.{
  Message, inline_env_not_allowed, inline_host_config_env_not_allowed,
}
use docker_socket_policy.Policy.{Policy}
use docker_socket_policy.Gates.MountSource.{object_field}

-- Whether "Env" is not a list with entries.
unfoldable pub no_env : Map Value → Bool
no_env m = elim (get (lit "Env") m) [
  | none ↦ true
  | some v ↦ elim (as_array v) [ none ↦ true | some env ↦ is_empty env ]
]

unfoldable pub no_host_env : Option (Map Value) → Bool
no_host_env none = true
no_host_env (some hc) = no_env hc

unfoldable pub check_env : Policy → (env_file : Text) → Body → Result Message (Unit {0})
check_env policy env_file body = do
  ensure (no_env body) (inline_env_not_allowed policy.service_name env_file)
  ensure (no_host_env (object_field (lit "HostConfig") body))
      (inline_host_config_env_not_allowed policy.service_name env_file)

unfoldable pub check : Policy → Body → Result Message (Unit {0})
check policy body = elim policy.env_file [
  | none ↦ ok tt
  | some env_file ↦ if is_empty env_file then ok tt else check_env policy env_file body
]
