-- ===== src/Router/Create.antt =====
-- rs/src/proxy.rs: route_create, and route_by_name for the container of a lifecycle action.
use docker_socket_policy.Base.{
  Text, Option, none, some, List, [], ◌∷◌, ok, ◌>>=◌, lit, is_empty, if◌then◌else◌, unwrap_or,
}
use docker_socket_policy.Base.Map.{get}
use docker_socket_policy.Json.{Body, as_str}
use docker_socket_policy.Message.{empty_request_body, image_field_required}
use docker_socket_policy.Policy.{Regex, Policy}
use docker_socket_policy.Image.{parse_image_ref}
use docker_socket_policy.Manager.{Manager, select_for_create, covering}
use docker_socket_policy.Query.{create_name}
use docker_socket_policy.Paths.{could_be_id}
use docker_socket_policy.Router.Route.{
  create_container, resolve_container_action, RouteResult, allow, deny, or_deny,
}

-- `body.get("Image")` as a string, or "".
unfoldable pub image_field : Body → Text
image_field body = elim (get (lit "Image") body) [ none ↦ [] | some v ↦ unwrap_or [] (as_str v) ]

abbrev pub created : Body → (image name : Text) → Policy → RouteResult
created body image name policy = record {
  action = create_container;
  service = some policy.service_name;
  policy = some policy;
  body = some body;
  container = if is_empty name then none else some name;
  resolved_name = none;
  image = some image;
  deny_msg = none;
}

-- `route_create` behind its first checks.
unfoldable pub create_image : Regex → Manager → Body → Text → Text → RouteResult
create_image re m body image query = or_deny (do
  _ ← parse_image_ref re image
  name ← create_name query
  policy ← select_for_create re m image name
  ok (created body image name policy))

unfoldable pub route_create : Regex → Manager → Option Body → Text → RouteResult
route_create re m none query = deny empty_request_body
route_create re m (some body) query =
    if is_empty body
    then deny empty_request_body
    else if is_empty (image_field body)
    then deny image_field_required
    else create_image re m body (image_field body) query

abbrev pub resolve_later : Text → RouteResult
resolve_later name = record allow { action = resolve_container_action; container = some name }

abbrev pub allow_named : Text → Policy → RouteResult
allow_named name policy = record allow {
  service = some policy.service_name;
  policy = some policy;
  container = some name;
}

unfoldable pub route_covering : Text → List Policy → RouteResult
route_covering name (policy ∷ []) =
    if could_be_id name then resolve_later name else allow_named name policy
route_covering name _ = resolve_later name

unfoldable pub route_by_name : Manager → Text → RouteResult
route_by_name m name = route_covering name (covering m name)
