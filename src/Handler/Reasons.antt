-- ===== src/Handler/Reasons.antt =====
-- The reasons that the handler logs.
use docker_socket_policy.Base.{
  Text, Option, none, some, List, [], ◌∷◌, ◌≡◌, refl, ◌⊎◌, inl, inr, Bool-cases, Option-cases, ok,
  err, Result, eqb, unwrap_or,
}
use docker_socket_policy.Message.{
  Message, no_message, resolved_to, container_resolved_to, TransportError,
}
use docker_socket_policy.Policy.{Policy}
use docker_socket_policy.Manager.{covering}
use docker_socket_policy.Query.{strip_slash}
use docker_socket_policy.Router.{RouteResult, deny_action, allow_action}
use docker_socket_policy.Router.Named.{NoName}
use docker_socket_policy.Handler.{
  World, DaemonResponse, Handler, forward, denied_reason, allowed_reason, inspect_request,
  read_answer, read_inspect, inspected_name, resolved, resolve_container,
}

-- The world after the inspect of a container, if there was one.
abbrev pub asking : Option Text → World → World
asking none w = w
asking (some id) w = record w { forwarded = inspect_request id ∷ w.forwarded }

-- The logged reason of a refusal is the message to the caller, with the name that an inspect gave.
abbrev pub IsDenyReason : (inspected : Option Text) → (msg reason : Message) → Type 0
IsDenyReason none msg reason = reason ≡ msg
IsDenyReason (some id) msg reason =
    (reason ≡ msg) ⊎ ((name : Text) × (reason ≡ resolved_to msg name))

-- That of a request that is passed on is empty, or says which container was inspected, and its name.
abbrev pub IsAllowReason : (inspected : Option Text) → (reason : Message) → Type 0
IsAllowReason none reason = reason ≡ no_message
IsAllowReason (some id) reason = (name : Text) × (reason ≡ container_resolved_to id name)

abbrev pub deny_message : RouteResult → Message
deny_message route = unwrap_or no_message route.deny_msg

abbrev pub DeniesFor : Option Text → RouteResult → Type 0
DeniesFor inspected route =
    IsDenyReason inspected (deny_message route)
      (denied_reason (deny_message route) route.resolved_name)

abbrev pub AllowsFor : Option Text → RouteResult → Type 0
AllowsFor inspected route = IsAllowReason inspected (allowed_reason route)

pub NoName-DeniesFor : (route : RouteResult) → NoName route → DeniesFor none route
NoName-DeniesFor route e = rw e refl

pub NoName-AllowsFor : (route : RouteResult) → NoName route → AllowsFor none route
NoName-AllowsFor route e = rw e refl

-- A result that is settled, with its reason.
abbrev pub IsExplained : Option Text → RouteResult → Type 0
IsExplained inspected route =
    ((route.action ≡ deny_action) × DeniesFor inspected route)
    ⊎ ((route.action ≡ allow_action) × AllowsFor inspected route)

module _ (h : Handler) (id : Text) where
  resolved-IsExplained :
      (name : Text) (ps : List Policy)
      → covering h.router.manager name ≡ ps
      → IsExplained (some id) (resolved h.router id name)
  unfolding resolved
  resolved-IsExplained name [] e = rw (e, resolved) (inl (refl, inr (name, refl)))
  resolved-IsExplained name (p ∷ []) e = rw (e, resolved) (inr (refl, (name, refl)))
  resolved-IsExplained name (p ∷ q ∷ ps) e = rw (e, resolved) (inr (refl, (name, refl)))

  read_inspect-IsExplained :
      (resp : DaemonResponse) → IsExplained (some id) (read_inspect h id resp)
  unfolding read_inspect
  read_inspect-IsExplained resp = elim (Bool-cases (eqb resp.status 200)) [
    | inr f ↦ elim (Bool-cases (eqb resp.status 404)) [
      | inl missing ↦ rw (f, missing, read_inspect) (inl (refl, inl refl))
      | inr other ↦ rw (f, other, read_inspect) (inl (refl, inl refl))
    ]
    | inl t ↦ elim (Option-cases (inspected_name (h.from_slice resp.body))) [
      | inl n ↦ rw (t, n, read_inspect) (inl (refl, inl refl))
      | inr (name, n) ↦ rw (t, n, read_inspect) (resolved-IsExplained (strip_slash name) _ refl)
    ]
  ]

  read_answer-IsExplained :
      (w : World) (result : Result TransportError DaemonResponse)
      → ((read_answer h id (w, result)).0 ≡ w)
        × IsExplained (some id) (read_answer h id (w, result)).1
  read_answer-IsExplained w (ok resp) = (refl, read_inspect-IsExplained resp)
  read_answer-IsExplained w (err e) = (refl, inl (refl, inl refl))

  -- What a resolution did: it asked the daemon for this container or for none, and settled the request.
  pub record HasResolved (w : World) : Type 0 where
    pub inspected : Option Text
    pub asked : (inspected ≡ none) ⊎ (inspected ≡ some id)
    pub world : (resolve_container h id w).0 ≡ asking inspected w
    pub explained : IsExplained inspected (resolve_container h id w).1

  pub resolve_container-HasResolved : (w : World) → HasResolved w
  unfolding resolve_container forward
  resolve_container-HasResolved w = elim (Option-cases (h.uri_error (inspect_request id).uri)) [
    | inr (msg, e) ↦ record {
      inspected = none;
      asked = inl refl;
      world = rw (e, resolve_container) refl;
      explained = rw (e, resolve_container) (inl (refl, refl));
    }
    | inl e ↦
        let both =
          read_answer-IsExplained (asking (some id) w)
            (h.transport w.forwarded (inspect_request id)) in
        record {
          inspected = some id;
          asked = inr refl;
          world = rw (e, resolve_container) both.0;
          explained = rw (e, resolve_container) both.1;
        }
  ]
