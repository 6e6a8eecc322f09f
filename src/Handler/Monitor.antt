-- ===== src/Handler/Monitor.antt =====
-- The handler as a reference monitor: one audit entry for each decision, and the decision it records is
-- what happened.
use docker_socket_policy.Base.{
  Text, true, false, Option, none, some, [], ◌∷◌, ◌≡◌, refl, sym, subst, inl, inr, Bool-cases,
  Result, ok, err, unwrap_or, lit, ◌==◌, if◌then◌else◌,
}
use docker_socket_policy.Json.{Body}
use docker_socket_policy.Message.{
  Message, TransportError, socket_permission, other, body_unreadable, socket_permission_denied,
  proxy_error, connect_not_allowed, upgrade_not_allowed,
}
use docker_socket_policy.Policy.{Policy}
use docker_socket_policy.Router.{RouteResult, resolve_container_action}
use docker_socket_policy.Router.Named.{route_request-NoName}
use docker_socket_policy.Chain.{GateResult}
use docker_socket_policy.Handler.{
  HttpRequest, World, Response, DaemonResponse, Handler, Decision, allowed, denied, bytes, respond,
  audit, forward, target, outgoing, answer, send, refuse, allowed_reason, denied_reason,
  apply_chain, run_chain, handle_body, handle, is_upgrade_request,
}
use docker_socket_policy.Handler.Reasons.{
  asking, IsDenyReason, IsAllowReason, DeniesFor, AllowsFor, NoName-DeniesFor, NoName-AllowsFor,
  resolve_container-HasResolved, deny_message,
}
use docker_socket_policy.Handler.Permitted.{
  r, asked, routed, Action-cases, handle_body_deny, handle_body_allow, handle_body_create,
  handle_body_resolve, dispatch_deny, dispatch_allow,
}

-- The daemon's answer, or what stands for it.
abbrev pub reply : Result TransportError DaemonResponse → Response
reply (ok resp) = record { status = resp.status; headers = resp.headers; content = bytes resp.body }
reply (err (socket_permission e)) = respond 403 socket_permission_denied
reply (err (other e)) = respond 502 (proxy_error (other e))

-- The target that stands in the log: the path with its query, or the whole URI of a CONNECT.
abbrev pub logged_uri : HttpRequest → Text
logged_uri req =
    if req.method == lit "CONNECT" then req.full_uri else unwrap_or req.path req.path_and_query

abbrev pub recorded : Decision → HttpRequest → (reason : Message) → World → World
recorded decision req reason w = record w {
  log =
      record { decision = decision; method = req.method; uri = logged_uri req; reason = reason }
      ∷ w.log;
}

-- An inspect is only of the container that the router leaves to be resolved.
abbrev pub WasAsked : Handler → HttpRequest → Option Text → Type 0
WasAsked h req none = Unit
WasAsked h req (some id) =
    (body : Text) × (req.body ≡ some body)
    × ((routed h req body).action ≡ resolve_container_action)
    × (id ≡ unwrap_or [] (routed h req body).container)

-- The three outcomes of a request.
pub data IsMonitored (h : Handler) (req : HttpRequest) (w : World) : World × Response → Type 0 where
  unreadable : req.body ≡ none → IsMonitored h req w (w, respond 400 body_unreadable)
  refused :
      (inspected : Option Text) (msg reason : Message)
      → WasAsked h req inspected
      → IsDenyReason inspected msg reason
      → IsMonitored h req w (recorded denied req reason (asking inspected w), respond 403 msg)
  passed :
      (inspected : Option Text) (body : Text) (reason : Message)
      → WasAsked h req inspected
      → IsAllowReason inspected reason
      → IsMonitored h req w (
        record (recorded allowed req reason (asking inspected w)) {
          forwarded = outgoing req body ∷ (asking inspected w).forwarded;
        },
        reply (h.transport (asking inspected w).forwarded (outgoing req body)),
      )

pub answer-reply :
    (v : World) (result : Result TransportError DaemonResponse)
    → answer (v, result) ≡ (v, reply result)
answer-reply v (ok resp) = refl
answer-reply v (err (socket_permission e)) = refl
answer-reply v (err (other e)) = refl

module _ (h : Handler) (req : HttpRequest) (w : World) where
  abbrev M : World × Response → Type 0
  M = IsMonitored h req w

  refused_target :
      (inspected : Option Text) (msg reason : Message)
      → WasAsked h req inspected
      → IsDenyReason inspected msg reason
      → (req.method == lit "CONNECT") ≡ false
      → M (audit denied req.method (target req) reason (asking inspected w), respond 403 msg)
  unfolding audit
  refused_target inspected msg reason a why plain =
      let m : M (recorded denied req reason (asking inspected w), respond 403 msg) =
        refused inspected msg reason a why in
      rw plain at m

  module _ (plain : (req.method == lit "CONNECT") ≡ false) where
    send-M :
        (inspected : Option Text) (route : RouteResult) (body : Text)
        → WasAsked h req inspected
        → AllowsFor inspected route
        → M (send h req route body (asking inspected w))
    unfolding send forward audit
    send-M inspected route body a why =
        let v = asking inspected w in
        let m : M (
          record (recorded allowed req (allowed_reason route) v) {
            forwarded = outgoing req body ∷ v.forwarded;
          },
          reply (h.transport v.forwarded (outgoing req body)),
        ) =
          passed inspected body (allowed_reason route) a why in
        subst M (sym (answer-reply _ _)) (rw plain at m)

    refuse-M :
        (inspected : Option Text) (route : RouteResult)
        → WasAsked h req inspected
        → DeniesFor inspected route
        → M (refuse req route (asking inspected w))
    unfolding refuse
    refuse-M inspected route a why =
        refused_target inspected (deny_message route)
          (denied_reason (deny_message route) route.resolved_name) a why plain

    module _ (route : RouteResult) (silent : AllowsFor none route) where
      apply_chain-M :
          (body : Text) (result : GateResult) → M (apply_chain h req route body result w)
      unfolding apply_chain
      apply_chain-M body result = elim (Bool-cases result.allowed) [
        | inl t ↦ rw (t, apply_chain) (send-M none route _ tt silent)
        | inr f ↦ rw (f, apply_chain) (refused_target none _ _ tt refl plain)
      ]

      run_chain-M :
          (body : Text) (policy : Option Policy) (json : Option Body)
          → M (run_chain h req route body policy json w)
      run_chain-M body (some policy) (some json) = apply_chain-M body _
      run_chain-M body (some policy) none = send-M none route body tt silent
      run_chain-M body none (some json) = send-M none route body tt silent
      run_chain-M body none none = send-M none route body tt silent

    module _ (body : Text) (read : req.body ≡ some body) where
      resolve-M : (r h req body w).action ≡ resolve_container_action → M (handle_body h req body w)
      resolve-M e =
          let id = unwrap_or [] (r h req body w).container in
          let final = (asked h req body w).1 in
          let done = resolve_container-HasResolved h id w in
          let was : WasAsked h req done.inspected = elim done.asked [
            | inl n ↦ rw n tt
            | inr s ↦ rw s (body, read, e, refl)
          ] in
          rw (handle_body_resolve h req body w e) (elim done.explained [
            | inl (d, why) ↦
                rw (dispatch_deny h req body w final (asked h req body w).0 d, done.world)
                  (refuse-M done.inspected final was why)
            | inr (a, why) ↦
                rw (dispatch_allow h req body w final (asked h req body w).0 a, done.world)
                  (send-M done.inspected final body was why)
          ])

      handle_body-M : M (handle_body h req body w)
      handle_body-M =
          let unnamed = route_request-NoName h.re h.router req.method (target req) _ _ in
          let silent = NoName-AllowsFor (r h req body w) unnamed in
          elim (Action-cases (r h req body w).action) [
            | inl d ↦
                rw (handle_body_deny h req body w d)
                  (refuse-M none _ tt (NoName-DeniesFor (r h req body w) unnamed))
            | inr (inl a) ↦ rw (handle_body_allow h req body w a) (send-M none _ body tt silent)
            | inr (inr (inl c)) ↦
                rw (handle_body_create h req body w c) (run_chain-M _ silent body _ _)
            | inr (inr (inr e)) ↦ resolve-M e
          ]

    read-M :
        (o : Option Text)
        → req.body ≡ o
        → M (elim o [
          | none ↦ (w, respond 400 body_unreadable)
          | some body ↦ handle_body h req body w
        ])
    read-M none e = unreadable e
    read-M (some body) e = handle_body-M body e

  connect-M :
      (req.method == lit "CONNECT") ≡ true
      → M (
        audit denied req.method req.full_uri connect_not_allowed w,
        respond 403 connect_not_allowed,
      )
  unfolding audit
  connect-M connect =
      let m : M (recorded denied req connect_not_allowed w, respond 403 connect_not_allowed) =
        refused none connect_not_allowed connect_not_allowed tt refl in
      rw connect at m

  -- A request has one of three outcomes. Its body cannot be read: nothing is sent or logged, and it is
  -- answered with 400. Or it is refused: one entry that denies it is logged, with its method, its target
  -- (the URI of a CONNECT) and the message that the caller gets with 403, and at most an inspect was
  -- sent. Or it is passed on: one entry that allows it is logged, with its method and its target, then
  -- the caller's method, URI and headers are sent, after at most one inspect, and the daemon's answer
  -- is returned: its status, headers and body. An inspect is of the container that the router leaves to be
  -- resolved; only then an entry may say more: a refusal the name that the daemon gave, and a request that
  -- is passed on the container and that name.
  pub handle-IsMonitored : IsMonitored h req w (handle h req w)
  unfolding handle
  handle-IsMonitored = elim (Bool-cases (req.method == lit "CONNECT")) [
    | inl connect ↦ rw (connect, handle) (connect-M connect)
    | inr plain ↦ elim (Bool-cases (is_upgrade_request req.headers)) [
      | inl upgrade ↦
          rw (plain, upgrade, handle)
            (refused_target none upgrade_not_allowed upgrade_not_allowed tt refl plain)
      | inr ordinary ↦ rw (plain, ordinary, handle) (read-M plain req.body refl)
    ]
  ]
