-- ===== src/Router.antt =====
-- rs/src/proxy.rs: the default-deny router.
mod Route
mod Create
mod Pull
pub mod Admission
pub mod Endpoints
pub mod Creates
pub mod Pulls
pub mod Kinds
pub mod Named
use docker_socket_policy.Base.{
  Text, ℕ, Bool, true, false, not, Option, none, some, List, [], ◌∷◌, ◌++◌, Result, ok, err, ◌>>=◌,
  lit, ◌==◌, ◌||◌, ◌&&◌, is_empty, if◌then◌else◌, contains, contains_text, starts_with, ends_with,
  split_once, ltb, unwrap_or, is_some, find,
}
use docker_socket_policy.Base.Map.{get}
use docker_socket_policy.Json.{Body, as_str}
use docker_socket_policy.Message.{
  Message, no_message, readonly_mode, percent_encoded_path, empty_path_segment, dot_path_segment,
  auth_not_allowed, exec_not_allowed, attach_not_allowed, build_not_allowed, commit_not_allowed,
  rename_not_allowed, update_not_allowed, endpoint_not_allowed, empty_request_body,
  image_field_required, pull_has_body, invalid_query_string, duplicate_parameter,
  image_import_not_allowed, from_image_required, tag_parameter_ambiguous, pull_without_tag,
  image_not_allowed,
}
use docker_socket_policy.Policy.{Regex, Policy}
use docker_socket_policy.Image.{ImageRef, parse_image_ref, check_image_tag}
use docker_socket_policy.Manager.{Manager, select_for_create, covering, matching_image}
use docker_socket_policy.Query.{Parameters, parse_query, occurrences, parameter, create_name}
use docker_socket_policy.Paths.{
  strip_api_version, has_dot_segment, is_exec_path, is_attach_path, extract_container_name,
  could_be_id,
}
pub use Route.{
  Action, deny_action, allow_action, create_container, resolve_container_action, RouteResult, allow,
  deny, or_deny,
}
unfoldable pub use Create.{image_field, create_image, route_create, route_covering, route_by_name}
pub use Create.{created, resolve_later, allow_named}
unfoldable pub use Pull.{
  pull_policies, add_tag, pull_reference, pull_image, duplicate_key, pull_parameters,
  route_image_pull,
}
pub use Pull.{allow_pull}

pub record Router : Type 0 where
  pub manager : Manager
  pub readonly : Bool

-- `Router::new` and `with_readonly`
unfoldable pub new : Manager → Router
new manager = record { manager = manager; readonly = false }

unfoldable pub with_readonly : Router → Bool → Router
with_readonly r readonly = record r { readonly = readonly }

abbrev pub is_read : Text → Bool
is_read method = method == lit "GET" || method == lit "HEAD"

-- The lifecycle actions of a container.
unfoldable pub is_lifecycle : Text → Bool
is_lifecycle path =
    ends_with path (lit "/start")
    || ends_with path (lit "/stop")
    || ends_with path (lit "/restart")
    || ends_with path (lit "/kill")
    || ends_with path (lit "/wait")
    || ends_with path (lit "/pause")
    || ends_with path (lit "/unpause")

-- The `match` for a path that names a container.
unfoldable pub route_container : Manager → (method path name : Text) → RouteResult
route_container m method path name =
    if is_lifecycle path && method == lit "POST"
    then route_by_name m name
    else if ends_with path (lit "/rename") && method == lit "POST"
    then deny rename_not_allowed
    else if ends_with path (lit "/update") && method == lit "POST"
    then deny update_not_allowed
    else if method == lit "DELETE"
    then route_by_name m name
    else if is_read method
    then allow
    else deny (endpoint_not_allowed method path)

-- What no policy can allow, by the path without its version.
unfoldable pub denied_endpoint : Text → Option Message
denied_endpoint path =
    if starts_with path (lit "/auth")
    then some auth_not_allowed
    else if is_exec_path path
    then some exec_not_allowed
    else if is_attach_path path
    then some attach_not_allowed
    else if starts_with path (lit "/build")
    then some build_not_allowed
    else if starts_with path (lit "/commit")
    then some commit_not_allowed
    else none

-- `route_request` from the container create on.
unfoldable pub route_endpoint :
    Regex → Manager → (method path query : Text) → Bool → Option Body → RouteResult
route_endpoint re m method path query has_body body =
    if method == lit "POST" && path == lit "/containers/create"
    then route_create re m body query
    else elim (extract_container_name path) [
      | some name ↦ route_container m method path name
      | none ↦
          if method == lit "POST" && path == lit "/images/create"
          then route_image_pull re m query has_body
          else if is_read method
          then allow
          else deny (endpoint_not_allowed method path)
    ]

-- `route_request` from the denied endpoints on.
unfoldable pub route_path :
    Regex → Manager → (method path query : Text) → Bool → Option Body → RouteResult
route_path re m method path query has_body body = elim (denied_endpoint path) [
  | some msg ↦ deny msg
  | none ↦ route_endpoint re m method path query has_body body
]

-- `target.split_once('?').unwrap_or((target, ""))`
unfoldable pub split_target : Text → Text × Text
split_target target = unwrap_or (target, []) (split_once target b'?')

-- The spellings of a path that could hide an endpoint.
unfoldable pub hidden_path : Text → Option Message
hidden_path path =
    if contains path b'%'
    then some percent_encoded_path
    else if contains_text path (lit "//")
    then some empty_path_segment
    else if has_dot_segment path
    then some dot_path_segment
    else none

unfoldable pub route_request :
    Regex → Router → (method target : Text) → Bool → Option Body → RouteResult
route_request re router method target has_body body =
    let (path, query) = split_target target in
    if router.readonly && not (method == lit "GET") && not (method == lit "HEAD")
    then deny (readonly_mode method)
    else elim (hidden_path path) [
      | some msg ↦ deny msg
      | none ↦ route_path re router.manager method (strip_api_version path) query has_body body
    ]

-- `Router::route`
unfoldable pub route : Regex → Router → (method target : Text) → Option Body → RouteResult
route re router method target body = route_request re router method target (is_some body) body
