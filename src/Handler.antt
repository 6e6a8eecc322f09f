-- ===== src/Handler.antt =====
-- rs/src/handler.rs: the handler of a request, with the audit log (audit.rs) and the transport
-- (transport.rs) as explicit state: the entries written and the requests sent so far.
mod State
mod Inspect
pub mod Sent
pub mod Permitted
pub mod Creates
pub mod Admission
pub mod Named
pub mod Resolve
pub mod Reasons
pub mod Monitor
pub mod Tasks
use docker_socket_policy.Base.{
  Text, ℕ, Bool, true, false, not, Option, none, some, List, [], ◌∷◌, ◌++◌, Result, ok, err, ◌==◌,
  lit, ◌||◌, ◌&&◌, is_empty, if◌then◌else◌, unwrap_or, split, any, trim_ascii, map, to_lower, eqb,
  filter, length,
}
use docker_socket_policy.Base.Map.{Map, get}
use docker_socket_policy.Json.{Value, Body, as_str, as_object}
use docker_socket_policy.Message.{
  Message, no_message, connect_not_allowed, upgrade_not_allowed, body_unreadable, not_managed,
  cannot_resolve, resolved_to, container_resolved_to, socket_permission_denied, proxy_error,
  ResolveFailure, bad_request, forward_failed, daemon_returned, unreadable_inspect, TransportError,
  socket_permission, other,
}
use docker_socket_policy.Policy.{Regex, Policy}
use docker_socket_policy.Manager.{covering}
use docker_socket_policy.Query.{path_escape, strip_slash}
use docker_socket_policy.Router.{
  RouteResult, Router, Action, deny_action, allow_action, create_container,
  resolve_container_action, allow, deny, route_request,
}
use docker_socket_policy.Chain.{Chain, GateResult, execute}
pub use State.{
  Headers, HttpRequest, ForwardRequest, Content, message, bytes, Response, DaemonResponse, Decision,
  allowed, denied, AuditEntry, World, Handler, respond,
}
unfoldable pub use State.{audit, forward}
unfoldable pub use Inspect.{
  resolved, inspected_name, read_inspect, inspect_request, resolve_container,
}
pub use Inspect.{read_answer}

unfoldable pub has_header : Text → Headers → Bool
has_header name headers = any (λ (n, _). n == name) headers

unfoldable pub lists_upgrade : Text → Bool
lists_upgrade value = any (λ tok. map to_lower (trim_ascii tok) == lit "upgrade") (split value b',')

unfoldable pub is_upgrade_request : Headers → Bool
is_upgrade_request headers =
    has_header (lit "upgrade") headers
    || any (λ (n, v). n == lit "connection" && lists_upgrade v) headers

-- The body as a JSON object, if it is one.
unfoldable pub body_json : Handler → Text → Option Body
body_json h body =
    if is_empty body then none else elim (h.from_slice body) [ none ↦ none | some v ↦ as_object v ]

abbrev pub target : HttpRequest → Text
target req = unwrap_or req.path req.path_and_query

abbrev pub denied_reason : Message → Option Text → Message
denied_reason msg none = msg
denied_reason msg (some name) = resolved_to msg name

unfoldable pub refuse : HttpRequest → RouteResult → World → World × Response
refuse req route w =
    let msg = unwrap_or no_message route.deny_msg in
    (
      audit denied req.method (target req) (denied_reason msg route.resolved_name) w,
      respond 403 msg,
    )

abbrev pub allowed_reason : RouteResult → Message
allowed_reason route = elim route.resolved_name [
  | none ↦ no_message
  | some name ↦ container_resolved_to (unwrap_or [] route.container) name
]

abbrev pub answer : World × Result TransportError DaemonResponse → World × Response
answer (w, ok resp) =
    (w, record { status = resp.status; headers = resp.headers; content = bytes resp.body })
answer (w, err (socket_permission e)) = (w, respond 403 socket_permission_denied)
answer (w, err (other e)) = (w, respond 502 (proxy_error (other e)))

-- The request as it is sent on: the caller's headers, but for the content length.
unfoldable pub outgoing : HttpRequest → Text → ForwardRequest
outgoing req body = record {
  method = req.method;
  uri = req.full_uri;
  headers = filter (λ (n, _). not (n == lit "content-length")) req.headers;
  content_length = some (length body);
  body = body;
}

-- The end of `handle`: the audit entry, and the request to the daemon with the given body.
unfoldable pub send : Handler → HttpRequest → RouteResult → (body : Text) → World → World × Response
send h req route body w =
    answer (
      forward h (outgoing req body)
        (audit allowed req.method (target req) (allowed_reason route) w))

-- The chain's verdict on a create.
unfoldable pub apply_chain :
    Handler → HttpRequest → RouteResult → (body : Text) → GateResult → World → World × Response
apply_chain h req route body result w =
    if result.allowed
    then send h req route (unwrap_or body result.modified_body) w
    else (audit denied req.method (target req) result.reason w, respond 403 result.reason)

abbrev pub run_chain :
    Handler
    → HttpRequest
    → RouteResult
    → (body : Text) → Option Policy
    → Option Body
    → World
    → World × Response
run_chain h req route body (some policy) (some json) w =
    apply_chain h req route body (execute h.re h.to_vec h.chain policy json) w
run_chain h req route body _ _ w = send h req route body w

unfoldable pub dispatch :
    Handler → HttpRequest → (body : Text) → Action → RouteResult → World → World × Response
dispatch h req body deny_action route w = refuse req route w
dispatch h req body create_container route w = run_chain h req route body route.policy route.body w
dispatch h req body _ route w = send h req route body w

abbrev pub resolve_route : Handler → Action → RouteResult → World → World × RouteResult
resolve_route h resolve_container_action route w =
    resolve_container h (unwrap_or [] route.container) w
resolve_route h _ route w = (w, route)

-- `handle` from the routing on.
unfoldable pub handle_body : Handler → HttpRequest → (body : Text) → World → World × Response
handle_body h req body w =
    let route =
      route_request h.re h.router req.method (target req) (not (is_empty body))
        (body_json h body) in
    let (w', final) = resolve_route h route.action route w in
    dispatch h req body final.action final w'

unfoldable pub handle : Handler → HttpRequest → World → World × Response
handle h req w =
    if req.method == lit "CONNECT"
    then (
      audit denied req.method req.full_uri connect_not_allowed w,
      respond 403 connect_not_allowed,
    )
    else if is_upgrade_request req.headers
    then (
      audit denied req.method (target req) upgrade_not_allowed w,
      respond 403 upgrade_not_allowed,
    )
    else elim req.body [
      | none ↦ (w, respond 400 body_unreadable)
      | some body ↦ handle_body h req body w
    ]
