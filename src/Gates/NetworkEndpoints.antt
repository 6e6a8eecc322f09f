-- ===== src/Gates/NetworkEndpoints.antt =====
-- rs/src/middleware.rs: the forced network mode, and NetworkEndpointsGate.
use docker_socket_policy.Base.{
  Text, Bool, not, Option, none, some, Result, ok, err, ◌>>=◌, ◌==◌, lit, ◌||◌, ◌&&◌, is_empty,
  if◌then◌else◌, starts_with, find,
}
use docker_socket_policy.Base.Map.{Map, get, keys}
use docker_socket_policy.Json.{Value, null, object, Body, entries}
use docker_socket_policy.Message.{Message, endpoints_not_object, network_not_allowed}
use docker_socket_policy.Policy.{Policy}

unfoldable pub nonempty_mode : Option Text → Option Text
nonempty_mode none = none
nonempty_mode (some mode) = if is_empty mode then none else some mode

unfoldable pub forced_network_mode : Policy → Option Text
forced_network_mode policy = elim policy.container_config [
  | none ↦ none
  | some config ↦ nonempty_mode config.network_mode
]

-- An object, absent or null (`ok none`), or anything else (`err`).
abbrev pub optional_object : Option Value → Result (Unit {0}) (Option (Map Value))
optional_object none = ok none
optional_object (some null) = ok none
optional_object (some (object o)) = ok (some (entries o))
optional_object (some v) = err tt

unfoldable pub endpoints_of : Option (Map Value) → Result (Unit {0}) (Option (Map Value))
endpoints_of none = ok none
endpoints_of (some nc) = optional_object (get (lit "EndpointsConfig") nc)

unfoldable pub endpoints_config : Body → Result (Unit {0}) (Option (Map Value))
endpoints_config body = do nc ← optional_object (get (lit "NetworkingConfig") body); endpoints_of nc

unfoldable pub detached_network_mode : Text → Bool
detached_network_mode mode =
    mode == lit "host" || mode == lit "none" || starts_with mode (lit "container:")

-- A network that the forced mode does not allow.
unfoldable pub foreign_network : (mode key : Text) → Bool
foreign_network mode key = not (key == lit "default") && not (key == mode)

unfoldable pub check_endpoints : Policy → (mode : Text) → Map Value → Result Message (Unit {0})
check_endpoints policy mode eps = elim (find (foreign_network mode) (keys eps)) [
  | some k ↦ err (network_not_allowed k policy.service_name mode)
  | none ↦ ok tt
]

unfoldable pub check_mode_endpoints : Policy → (mode : Text) → Body → Result Message (Unit {0})
check_mode_endpoints policy mode body = elim (endpoints_config body) [
  | err _ ↦ err (endpoints_not_object mode)
  | ok none ↦ ok tt
  | ok (some eps) ↦ check_endpoints policy mode eps
]

unfoldable pub check : Policy → Body → Result Message (Unit {0})
check policy body = elim (forced_network_mode policy) [
  | none ↦ ok tt
  | some mode ↦ check_mode_endpoints policy mode body
]
