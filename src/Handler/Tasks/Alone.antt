-- ===== src/Handler/Tasks/Alone.antt =====
-- A task's steps are `handle`, cut at its effects.
use docker_socket_policy.Base.{
  Text, Option, none, some, List, [], ◌∷◌, ◌≡◌, refl, sym, inl, inr, lit, ◌==◌, Bool-cases,
  Option-cases, unwrap_or, ok, err,
}
use docker_socket_policy.Json.{Body}
use docker_socket_policy.Message.{body_unreadable}
use docker_socket_policy.Policy.{Policy}
use docker_socket_policy.Router.{
  RouteResult, Action, deny_action, allow_action, create_container, resolve_container_action,
}
use docker_socket_policy.Chain.{GateResult}
use docker_socket_policy.Handler.{
  HttpRequest, ForwardRequest, World, Response, Handler, respond, answer, read_answer, dispatch,
  refuse, send, forward, audit, handle, handle_body, apply_chain, run_chain, resolve_route,
  resolve_container, outgoing, inspect_request, is_upgrade_request,
}
use docker_socket_policy.Handler.Monitor.{answer-reply}
use docker_socket_policy.Handler.Tasks.{
  Answer, Phase, arrived, reading, inspecting, settled, forwarding, awaiting, answered, Effect,
  arrive, ask, settle_or_ask, read, take_body, inspected, judge, judge_create, decide, advance,
  apply,
}

-- The requests before the last one.
abbrev pub earlier : List ForwardRequest → List ForwardRequest
earlier [] = []
earlier (f ∷ fs) = fs

abbrev pub finish_read : Handler → HttpRequest → Option Text → World → World × Response
finish_read h req none w = (w, respond 400 body_unreadable)
finish_read h req (some body) w = handle_body h req body w

-- What is left of `handle` at a phase: the last request sent is the one that is waited for.
abbrev pub finish : Handler → HttpRequest → Phase → World → World × Response
finish h req arrived w = handle h req w
finish h req reading w = finish_read h req req.body w
finish h req (inspecting body id) w =
    let (w', final) =
      read_answer h id (w, h.transport (earlier w.forwarded) (inspect_request id)) in
    dispatch h req body final.action final w'
finish h req (settled body route) w = dispatch h req body route.action route w
finish h req (forwarding body) w = answer (forward h (outgoing req body) w)
finish h req (awaiting body) w = answer (w, h.transport (earlier w.forwarded) (outgoing req body))
finish h req (answered r) w = (w, r)

-- The answer is the one that the transport gives.
abbrev pub IsGiven : Handler → HttpRequest → Phase → World → Answer → Type 0
IsGiven h req (inspecting body id) w a = a ≡ h.transport (earlier w.forwarded) (inspect_request id)
IsGiven h req (awaiting body) w a = a ≡ h.transport (earlier w.forwarded) (outgoing req body)
IsGiven h req _ w a = Unit

-- What is left behind a step.
abbrev pub continue : Handler → HttpRequest → Phase × Effect → World → World × Response
continue h req (phase, effect) w = finish h req phase (apply effect w)

module _ (h : Handler) (req : HttpRequest) (w : World) where
  finish_read-handle :
      (body : Option Text)
      → finish_read h req body w
        ≡ (elim body [ none ↦ (w, respond 400 body_unreadable) | some b ↦ handle_body h req b w ])
  finish_read-handle none = refl
  finish_read-handle (some body) = refl

  arrive-handle : continue h req (arrive req) w ≡ handle h req w
  unfolding arrive handle audit
  arrive-handle = elim (Bool-cases (req.method == lit "CONNECT")) [
    | inl t ↦ rw (t, arrive, handle)
    | inr f ↦ elim (Bool-cases (is_upgrade_request req.headers)) [
      | inl t ↦ rw (f, t, arrive, handle)
      | inr f' ↦ rw (f, f', arrive, handle) (finish_read-handle req.body)
    ]
  ]

  ask-resolve :
      (body id : Text)
      → continue h req (ask h body id) w
        ≡ (let (w', final) = resolve_container h id w in dispatch h req body final.action final w')
  unfolding ask resolve_container forward
  ask-resolve body id = elim (Option-cases (h.uri_error (inspect_request id).uri)) [
    | inl e ↦ rw (e, ask, resolve_container)
    | inr (msg, e) ↦ rw (e, ask, resolve_container)
  ]

  settle_or_ask-resolve :
      (body : Text) (action : Action) (route : RouteResult)
      → continue h req (settle_or_ask h body action route) w ≡ (
          let (w', final) = resolve_route h action route w in
          dispatch h req body final.action final w')
  settle_or_ask-resolve body resolve_container_action route =
      ask-resolve body (unwrap_or [] route.container)
  settle_or_ask-resolve body deny_action route = refl
  settle_or_ask-resolve body allow_action route = refl
  settle_or_ask-resolve body create_container route = refl

  read-handle_body : (body : Text) → continue h req (read h req body) w ≡ handle_body h req body w
  unfolding read handle_body
  read-handle_body body = settle_or_ask-resolve body _ _

  judge-apply_chain :
      (route : RouteResult) (body : Text) (result : GateResult)
      → continue h req (judge req route body result) w ≡ apply_chain h req route body result w
  unfolding judge apply_chain send audit
  judge-apply_chain route body result = elim (Bool-cases result.allowed) [
    | inl t ↦ rw (t, judge, apply_chain)
    | inr f ↦ rw (f, judge, apply_chain)
  ]

  judge_create-run_chain :
      (route : RouteResult) (body : Text) (policy : Option Policy) (json : Option Body)
      → continue h req (judge_create h req route body policy json) w
        ≡ run_chain h req route body policy json w
  unfolding send audit
  judge_create-run_chain route body (some policy) (some json) = judge-apply_chain route body _
  judge_create-run_chain route body (some policy) none = refl
  judge_create-run_chain route body none (some json) = refl
  judge_create-run_chain route body none none = refl

  decide-dispatch :
      (body : Text) (action : Action) (route : RouteResult)
      → continue h req (decide h req body action route) w ≡ dispatch h req body action route w
  unfolding dispatch refuse send audit
  decide-dispatch body deny_action route = refl
  decide-dispatch body allow_action route = refl
  decide-dispatch body resolve_container_action route = refl
  decide-dispatch body create_container route =
      judge_create-run_chain route body route.policy route.body

  read_body-finish :
      (body : Option Text) → continue h req (take_body h req body) w ≡ finish_read h req body w
  read_body-finish none = refl
  read_body-finish (some body) = read-handle_body body

  inspected-dispatch :
      (body id : Text) (a : Answer)
      → dispatch h req body (inspected h id a).action (inspected h id a) w
        ≡ (let (w', final) = read_answer h id (w, a) in dispatch h req body final.action final w')
  inspected-dispatch body id (ok resp) = refl
  inspected-dispatch body id (err e) = refl

  -- Each step of a task leaves what is left of `handle` as it was, if the daemon's answer to the last
  -- request is the transport's.
  pub advance-finish :
      (phase : Phase) (a : Answer)
      → IsGiven h req phase w a
      → continue h req (advance h req phase a) w ≡ finish h req phase w
  unfolding advance forward
  advance-finish arrived a given = arrive-handle
  advance-finish reading a given = read_body-finish req.body
  advance-finish (inspecting body id) a given = rw given (inspected-dispatch body id _)
  advance-finish (settled body route) a given = decide-dispatch body route.action route
  advance-finish (forwarding body) a given = refl
  advance-finish (awaiting body) a given = rw given (sym (answer-reply w _))
  advance-finish (answered r) a given = refl
