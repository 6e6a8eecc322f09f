-- ===== src/Handler/Tasks.antt =====
-- rs/src/handler.rs: `handle` as a task that gives way at each `.await`, and many of them over one audit
-- log and one daemon (main.rs serves every connection in a task of its own).
pub mod Moves
pub mod Alone
pub mod Answers
pub mod Shared
pub mod Requests
pub mod Order
pub mod Guarded
use docker_socket_policy.Base.{
  Text, ℕ, Bool, Option, none, some, List, [], ◌∷◌, ◌++◌, Result, ok, err, ◌==◌, lit, is_empty, not,
  if◌then◌else◌, unwrap_or, eqb,
}
use docker_socket_policy.Json.{Body}
use docker_socket_policy.Message.{
  Message, no_message, connect_not_allowed, upgrade_not_allowed, body_unreadable, cannot_resolve,
  bad_request, forward_failed, TransportError,
}
use docker_socket_policy.Policy.{Policy}
use docker_socket_policy.Router.{
  RouteResult, Action, deny_action, allow_action, create_container, resolve_container_action, deny,
  route_request,
}
use docker_socket_policy.Chain.{GateResult, execute}
use docker_socket_policy.Handler.{
  HttpRequest, ForwardRequest, DaemonResponse, Response, respond, Decision, allowed, denied,
  AuditEntry, World, Handler, is_upgrade_request, body_json, target, denied_reason, allowed_reason,
  inspect_request, read_inspect, outgoing,
}
use docker_socket_policy.Handler.Monitor.{reply}

-- What the transport gives.
abbrev pub Answer : Type 0
Answer = Result TransportError DaemonResponse

-- Where a task stands: before `handle`; at the body; at the inspect; behind the routing, the container
-- resolved; behind the audit entry that allows the request; at the daemon's answer; done.
pub data Phase : Type 0 where
  arrived reading : Phase
  inspecting : (body : Text) → (id : Text) → Phase
  settled : (body : Text) → RouteResult → Phase
  forwarding awaiting : (body : Text) → Phase
  answered : Response → Phase

-- What a task does to what the tasks share, at most one thing at a time.
pub data Effect : Type 0 where
  quiet : Effect
  logs : AuditEntry → Effect
  sends : ForwardRequest → Effect

abbrev pub entry : Decision → (method uri : Text) → Message → Effect
entry decision method uri reason =
    logs (record { decision = decision; method = method; uri = uri; reason = reason })

unfoldable pub arrive : HttpRequest → Phase × Effect
arrive req =
    if req.method == lit "CONNECT"
    then (
      answered (respond 403 connect_not_allowed),
      entry denied req.method req.full_uri connect_not_allowed,
    )
    else if is_upgrade_request req.headers
    then (
      answered (respond 403 upgrade_not_allowed),
      entry denied req.method (target req) upgrade_not_allowed,
    )
    else (reading, quiet)

-- The inspect of a container, unless its URI is no URI.
unfoldable pub ask : Handler → (body id : Text) → Phase × Effect
ask h body id = elim (h.uri_error (inspect_request id).uri) [
  | some e ↦ (settled body (deny (cannot_resolve id (bad_request e))), quiet)
  | none ↦ (inspecting body id, sends (inspect_request id))
]

abbrev pub settle_or_ask : Handler → (body : Text) → Action → RouteResult → Phase × Effect
settle_or_ask h body resolve_container_action route = ask h body (unwrap_or [] route.container)
settle_or_ask h body _ route = (settled body route, quiet)

unfoldable pub read : Handler → HttpRequest → (body : Text) → Phase × Effect
read h req body =
    let route =
      route_request h.re h.router req.method (target req) (not (is_empty body))
        (body_json h body) in
    settle_or_ask h body route.action route

abbrev pub take_body : Handler → HttpRequest → Option Text → Phase × Effect
take_body h req none = (answered (respond 400 body_unreadable), quiet)
take_body h req (some body) = read h req body

-- The route that the answer to an inspect gives.
abbrev pub inspected : Handler → (id : Text) → Answer → RouteResult
inspected h id (err e) = deny (cannot_resolve id (forward_failed e))
inspected h id (ok resp) = read_inspect h id resp

abbrev pub permit : HttpRequest → RouteResult → (body : Text) → Phase × Effect
permit req route body =
    (forwarding body, entry allowed req.method (target req) (allowed_reason route))

abbrev pub reject : HttpRequest → Message → (reason : Message) → Phase × Effect
reject req msg reason = (answered (respond 403 msg), entry denied req.method (target req) reason)

unfoldable pub judge : HttpRequest → RouteResult → (body : Text) → GateResult → Phase × Effect
judge req route body result =
    if result.allowed
    then permit req route (unwrap_or body result.modified_body)
    else reject req result.reason result.reason

abbrev pub judge_create :
    Handler
    → HttpRequest
    → RouteResult
    → (body : Text) → Option Policy
    → Option Body
    → Phase × Effect
judge_create h req route body (some policy) (some json) =
    judge req route body (execute h.re h.to_vec h.chain policy json)
judge_create h req route body _ _ = permit req route body

abbrev pub decide : Handler → HttpRequest → (body : Text) → Action → RouteResult → Phase × Effect
decide h req body deny_action route =
    let msg = unwrap_or no_message route.deny_msg in
    reject req msg (denied_reason msg route.resolved_name)
decide h req body create_container route = judge_create h req route body route.policy route.body
decide h req body _ route = permit req route body

-- One step of a task. Only a task at the daemon looks at the answer.
unfoldable pub advance : Handler → HttpRequest → Phase → Answer → Phase × Effect
advance h req arrived a = arrive req
advance h req reading a = take_body h req req.body
advance h req (inspecting body id) a = (settled body (inspected h id a), quiet)
advance h req (settled body route) a = decide h req body route.action route
advance h req (forwarding body) a = (awaiting body, sends (outgoing req body))
advance h req (awaiting body) a = (answered (reply a), quiet)
advance h req (answered r) a = (answered r, quiet)

abbrev pub apply : Effect → World → World
apply quiet w = w
apply (logs e) w = record w { log = e ∷ w.log }
apply (sends f) w = record w { forwarded = f ∷ w.forwarded }

-- The answers that a task has got, the oldest first.
abbrev pub noted : Phase → Answer → List Answer → List Answer
noted (inspecting body id) a answers = answers ++ (a ∷ [])
noted (awaiting body) a answers = answers ++ (a ∷ [])
noted _ a answers = answers

-- The tasks by number, and what they did to what they share, the newest first.
pub record System : Type 0 where
  pub phase : ℕ → Phase
  pub answers : ℕ → List Answer
  pub history : List (ℕ × Effect)

abbrev pub update {ℓ} : {A : Type ℓ} → (ℕ → A) → ℕ → A → ℕ → A
update f i a j = if eqb i j then a else f j

abbrev pub step : Handler → (ℕ → HttpRequest) → System → (i : ℕ) → Answer → System
step h requests s i a =
    let next = advance h (requests i) (s.phase i) a in
    record {
      phase = update s.phase i next.0;
      answers = update s.answers i (noted (s.phase i) a (s.answers i));
      history = (i, next.1) ∷ s.history;
    }

-- No request has arrived.
abbrev pub idle : System
idle = record { phase = λ i. arrived; answers = λ i. []; history = [] }

-- The tasks of a sequence of requests in any interleaving, with any answers of the daemon.
pub data Reach (h : Handler) (requests : ℕ → HttpRequest) : System → Type 0 where
  start : Reach h requests idle
  later :
      {s : System}
      → Reach h requests s
      → (i : ℕ) → (a : Answer) → Reach h requests (step h requests s i a)

-- What one task alone did.
abbrev pub own : ℕ → List (ℕ × Effect) → World
own i [] = record { forwarded = []; log = [] }
own i ((j, e) ∷ history) = if eqb j i then apply e (own i history) else own i history
