-- ===== src/Handler/Inspect.antt =====
-- rs/src/handler.rs: resolve_container.
use docker_socket_policy.Base.{
  Text, Option, none, some, [], ◌∷◌, ◌++◌, Result, ok, err, lit, is_empty, if◌then◌else◌, eqb,
}
use docker_socket_policy.Base.Map.{get}
use docker_socket_policy.Json.{Value, as_str, as_object}
use docker_socket_policy.Message.{
  not_managed, cannot_resolve, bad_request, forward_failed, daemon_returned, unreadable_inspect,
  TransportError,
}
use docker_socket_policy.Manager.{covering}
use docker_socket_policy.Query.{path_escape, strip_slash}
use docker_socket_policy.Router.{RouteResult, Router, allow, deny}
use docker_socket_policy.Handler.State.{ForwardRequest, DaemonResponse, World, Handler, forward}

-- The answer to an inspect of the container `id`, by the name that it gives.
unfoldable pub resolved : Router → (id name : Text) → RouteResult
resolved router id name = elim (covering router.manager name) [
  | [] ↦ record (deny (not_managed id)) { resolved_name = some name }
  | policy ∷ [] ↦ record allow {
    service = some policy.service_name;
    policy = some policy;
    container = some id;
    resolved_name = some name;
  }
  | _ ∷ _ ∷ _ ↦ record allow { container = some id; resolved_name = some name }
]

-- The "Name" of an inspect response, if it is a text that is not empty.
unfoldable pub inspected_name : Option Value → Option Text
inspected_name none = none
inspected_name (some v) = elim (as_object v) [
  | none ↦ none
  | some o ↦ elim (get (lit "Name") o) [
    | none ↦ none
    | some n ↦ elim (as_str n) [ none ↦ none | some s ↦ if is_empty s then none else some s ]
  ]
]

unfoldable pub read_inspect : Handler → (id : Text) → DaemonResponse → RouteResult
read_inspect h id resp =
    if eqb resp.status 200
    then elim (inspected_name (h.from_slice resp.body)) [
      | none ↦ deny (cannot_resolve id unreadable_inspect)
      | some name ↦ resolved h.router id (strip_slash name)
    ]
    else if eqb resp.status 404
    then deny (not_managed id)
    else deny (cannot_resolve id (daemon_returned resp.status))

-- GET /containers/{id}/json
unfoldable pub inspect_request : Text → ForwardRequest
inspect_request id = record {
  method = lit "GET";
  uri = lit "/containers/" ++ path_escape id ++ lit "/json";
  headers = (lit "host", lit "docker") ∷ [];
  content_length = none;
  body = [];
}

abbrev pub read_answer :
    Handler → (id : Text) → World × Result TransportError DaemonResponse → World × RouteResult
read_answer h id (w, err e) = (w, deny (cannot_resolve id (forward_failed e)))
read_answer h id (w, ok resp) = (w, read_inspect h id resp)

unfoldable pub resolve_container : Handler → (id : Text) → World → World × RouteResult
resolve_container h id w = elim (h.uri_error (inspect_request id).uri) [
  | some e ↦ (w, deny (cannot_resolve id (bad_request e)))
  | none ↦ read_answer h id (forward h (inspect_request id) w)
]
