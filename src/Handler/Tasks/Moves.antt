-- ===== src/Handler/Tasks/Moves.antt =====
-- The moves of a task: where a step may lead, and what it does.
use docker_socket_policy.Base.{
  Text, Option, none, some, inl, inr, lit, ◌==◌, if_intro, Option-cases, Bool-cases,
}
use docker_socket_policy.Json.{Body}
use docker_socket_policy.Message.{Message, body_unreadable}
use docker_socket_policy.Policy.{Policy}
use docker_socket_policy.Router.{
  RouteResult, Action, deny_action, allow_action, create_container, resolve_container_action,
}
use docker_socket_policy.Chain.{execute}
use docker_socket_policy.Handler.{
  HttpRequest, Response, Handler, allowed, denied, respond, target, inspect_request, outgoing,
  is_upgrade_request,
}
use docker_socket_policy.Handler.Tasks.{
  Answer, Phase, arrived, reading, inspecting, settled, forwarding, awaiting, answered, Effect,
  quiet, sends, entry, arrive, ask, settle_or_ask, read, take_body, judge, judge_create, decide,
  advance,
}

pub data Move (req : HttpRequest) : Phase → Phase × Effect → Type 0 where
  turns_away :
      (uri : Text) (msg : Message)
      → Move req arrived (answered (respond 403 msg), entry denied req.method uri msg)
  opens : Move req arrived (reading, quiet)
  gives_up : Move req reading (answered (respond 400 body_unreadable), quiet)
  asks : (body id : Text) → Move req reading (inspecting body id, sends (inspect_request id))
  settles : (body : Text) (route : RouteResult) → Move req reading (settled body route, quiet)
  learns :
      (body id : Text) (route : RouteResult)
      → Move req (inspecting body id) (settled body route, quiet)
  rejects :
      (body : Text) (route : RouteResult) (msg reason : Message)
      → Move req
          (settled body route)
          (answered (respond 403 msg), entry denied req.method (target req) reason)
  permits :
      (body : Text) (route : RouteResult) (body' : Text) (reason : Message)
      → Move req
          (settled body route)
          (forwarding body', entry allowed req.method (target req) reason)
  forwards : (body : Text) → Move req (forwarding body) (awaiting body, sends (outgoing req body))
  hears : (body : Text) (r : Response) → Move req (awaiting body) (answered r, quiet)
  rests : (r : Response) → Move req (answered r) (answered r, quiet)

module _ (h : Handler) (req : HttpRequest) where
  arrive-Move : Move req arrived (arrive req)
  unfolding arrive
  arrive-Move = elim (Bool-cases (req.method == lit "CONNECT")) [
    | inl t ↦ rw (t, arrive) (turns_away _ _)
    | inr f ↦ elim (Bool-cases (is_upgrade_request req.headers)) [
      | inl t ↦ rw (f, t, arrive) (turns_away _ _)
      | inr g ↦ rw (f, g, arrive) opens
    ]
  ]

  ask-Move : (body id : Text) → Move req reading (ask h body id)
  unfolding ask
  ask-Move body id = elim (Option-cases (h.uri_error (inspect_request id).uri)) [
    | inl e ↦ rw (e, ask) (asks body id)
    | inr (msg, e) ↦ rw (e, ask) (settles body _)
  ]

  settle_or_ask-Move :
      (body : Text) (action : Action) (route : RouteResult)
      → Move req reading (settle_or_ask h body action route)
  settle_or_ask-Move body resolve_container_action route = ask-Move body _
  settle_or_ask-Move body deny_action route = settles body route
  settle_or_ask-Move body allow_action route = settles body route
  settle_or_ask-Move body create_container route = settles body route

  take_body-Move : (body : Option Text) → Move req reading (take_body h req body)
  unfolding read
  take_body-Move none = gives_up
  take_body-Move (some body) = settle_or_ask-Move body _ _

  judge_create-Move :
      (route : RouteResult) (body : Text) (policy : Option Policy) (json : Option Body)
      → Move req (settled body route) (judge_create h req route body policy json)
  unfolding judge
  judge_create-Move route body (some policy) (some json) =
      if_intro (Move req (settled body route)) (execute h.re h.to_vec h.chain policy json).allowed _
        _ (λ t. permits body route _ _) (λ f. rejects body route _ _)
  judge_create-Move route body (some policy) none = permits body route _ _
  judge_create-Move route body none (some json) = permits body route _ _
  judge_create-Move route body none none = permits body route _ _

  decide-Move :
      (body : Text) (action : Action) (route : RouteResult)
      → Move req (settled body route) (decide h req body action route)
  decide-Move body deny_action route = rejects body route _ _
  decide-Move body allow_action route = permits body route _ _
  decide-Move body resolve_container_action route = permits body route _ _
  decide-Move body create_container route = judge_create-Move route body route.policy route.body

  -- Every step of a task is one of the moves.
  pub advance-Move : (phase : Phase) (a : Answer) → Move req phase (advance h req phase a)
  unfolding advance
  advance-Move arrived a = arrive-Move
  advance-Move reading a = take_body-Move req.body
  advance-Move (inspecting body id) a = learns body id _
  advance-Move (settled body route) a = decide-Move body route.action route
  advance-Move (forwarding body) a = forwards body
  advance-Move (awaiting body) a = hears body _
  advance-Move (answered r) a = rests r
