-- ===== src/Handler/Permitted.antt =====
-- Every request that the handler sends is permitted by the router, the chain, or the daemon's inspect.
use docker_socket_policy.Base.{
  Text, not, Option, some, [], ◌≡◌, refl, sym, ap, ap₂, ◌∙◌, ◌≢◌, ◌⊎◌, inl, inr, Bool-cases, ok,
  unwrap_or, is_empty,
}
use docker_socket_policy.Json.{Body}
use docker_socket_policy.Policy.{Policy}
use docker_socket_policy.Mutator.{mutate}
use docker_socket_policy.Router.{
  RouteResult, Action, deny_action, allow_action, create_container, resolve_container_action,
  route_request,
}
use docker_socket_policy.Chain
use docker_socket_policy.Chain.{Gate, GateResult, check_gate, execute}
use docker_socket_policy.Chain.Verdict.{execute-allowed_iff, execute-modified_body}
use docker_socket_policy.Handler.{
  HttpRequest, ForwardRequest, World, Handler, audit, resolve_container, inspect_request, target,
  body_json, outgoing, send, apply_chain, run_chain, dispatch, handle_body, refuse,
}
use docker_socket_policy.Handler.Sent.{
  Sends, nothing_sent, send-Sends, resolve_container-Sends, Sends-chain,
}
use docker_socket_policy.Handler.Resolve.{resolve_container-IsSettled}
use docker_socket_policy.Router.Kinds.{route_request-HasCreate}

module _ (h : Handler) (req : HttpRequest) (body : Text) where
  abbrev pub routed : RouteResult
  routed =
      route_request h.re h.router req.method (target req) (not (is_empty body)) (body_json h body)

  -- What a request may be that the handler sends for `req`: the inspect of a container to be resolved;
  -- the caller's request, if the router allows it or its container was resolved; or a create with the
  -- body of the mutator, which every gate passed.
  pub data Permitted (w : World) : ForwardRequest → Type 0 where
    inspect :
        routed.action ≡ resolve_container_action
        → Permitted w (inspect_request (unwrap_or [] routed.container))
    on_route : routed.action ≡ allow_action → Permitted w (outgoing req body)
    on_resolved :
        routed.action ≡ resolve_container_action
        → (resolve_container h (unwrap_or [] routed.container) w).1.action ≢ deny_action
        → Permitted w (outgoing req body)
    on_create :
        (policy : Policy) (json : Body)
        → routed.action ≡ create_container
        → routed.policy ≡ some policy
        → routed.body ≡ some json
        → ((g : Gate) → check_gate h.re g policy (mutate policy json) ≡ ok tt)
        → Permitted w (outgoing req (unwrap_or body (h.to_vec (mutate policy json))))

pub Action-cases :
    (a : Action)
    → (a ≡ deny_action)
      ⊎ ((a ≡ allow_action) ⊎ ((a ≡ create_container) ⊎ (a ≡ resolve_container_action)))
Action-cases deny_action = inl refl
Action-cases allow_action = inr (inl refl)
Action-cases create_container = inr (inr (inl refl))
Action-cases resolve_container_action = inr (inr (inr refl))

module _ (h : Handler) (req : HttpRequest) (body : Text) (w : World) where
  abbrev pub r : RouteResult
  r = routed h req body

  -- The handler behind the routing, by the action of the route.
  pub handle_body_deny : r.action ≡ deny_action → handle_body h req body w ≡ refuse req r w
  unfolding handle_body dispatch
  handle_body_deny e = rw (e, handle_body)

  pub handle_body_allow : r.action ≡ allow_action → handle_body h req body w ≡ send h req r body w
  unfolding handle_body dispatch
  handle_body_allow e = rw (e, handle_body)

  pub handle_body_create :
      r.action ≡ create_container
      → handle_body h req body w ≡ run_chain h req r body r.policy r.body w
  unfolding handle_body dispatch
  handle_body_create e = rw (e, handle_body)

  abbrev pub asked : World × RouteResult
  asked = resolve_container h (unwrap_or [] r.container) w

  pub handle_body_resolve :
      r.action ≡ resolve_container_action
      → handle_body h req body w ≡ dispatch h req body asked.1.action asked.1 asked.0
  unfolding handle_body
  handle_body_resolve e = rw (e, handle_body)

  pub dispatch_deny :
      (final : RouteResult) (v : World)
      → final.action ≡ deny_action
      → dispatch h req body final.action final v ≡ refuse req final v
  unfolding dispatch
  dispatch_deny final v e = rw e

  pub dispatch_allow :
      (final : RouteResult) (v : World)
      → final.action ≡ allow_action
      → dispatch h req body final.action final v ≡ send h req final body v
  unfolding dispatch
  dispatch_allow final v e = rw e

  refuse-forwarded :
      (route : RouteResult) (v : World) → (refuse req route v).0.forwarded ≡ v.forwarded
  unfolding refuse audit
  refuse-forwarded route v = refl

  abbrev Ok : ForwardRequest → Type 0
  Ok = Permitted h req body w

  resolve-Sends : r.action ≡ resolve_container_action → Sends Ok w (handle_body h req body w).0
  resolve-Sends e =
      let ask = resolve_container-Sends Ok h (unwrap_or [] r.container) w (inspect e) in
      rw (handle_body_resolve e)
        (elim (resolve_container-IsSettled h (unwrap_or [] r.container) w) [
          | inl d ↦ rw (dispatch_deny asked.1 asked.0 d) (
              Sends-chain Ok w asked.0 _ ask
                (nothing_sent Ok asked.0 _ (refuse-forwarded asked.1 asked.0)))
          | inr a ↦ rw (dispatch_allow asked.1 asked.0 a) (
              Sends-chain Ok w asked.0 _ ask (
                send-Sends Ok h req asked.1 body asked.0
                  (on_resolved e (λ d. (let both : allow_action ≡ deny_action = sym a ∙ d in cc)))))
        ])

  apply_chain-Sends :
      (policy : Policy) (json : Body)
      → r.action ≡ create_container
      → r.policy ≡ some policy
      → r.body ≡ some json
      → Sends Ok w (apply_chain h req r body (execute h.re h.to_vec Chain.new policy json) w).0
  unfolding apply_chain audit
  apply_chain-Sends policy json a p j =
      elim (Bool-cases (execute h.re h.to_vec Chain.new policy json).allowed) [
        | inr f ↦ rw (f, apply_chain) (nothing_sent Ok w _ refl)
        | inl t ↦
            rw (t, execute-modified_body h.re h.to_vec policy json t, apply_chain)
              (send-Sends Ok h req r _ w
                (on_create policy json a p j ((execute-allowed_iff h.re h.to_vec policy json).0 t)))
      ]

  run_chain_given :
      (policy : Policy) (json : Body)
      → h.chain ≡ Chain.new
      → (o : Option Policy) (b : Option Body) → o ≡ some policy
      → b ≡ some json
      → run_chain h req r body o b w
        ≡ apply_chain h req r body (execute h.re h.to_vec Chain.new policy json) w
  run_chain_given policy json standard o b p j =
      ap₂ (λ o b. run_chain h req r body o b w) p j
      ∙ ap (λ c. apply_chain h req r body (execute h.re h.to_vec c policy json) w) standard

  create-Sends :
      h.chain ≡ Chain.new → r.action ≡ create_container → Sends Ok w (handle_body h req body w).0
  create-Sends standard e =
      let (policy, json, p, j) =
        route_request-HasCreate h.re h.router req.method (target req) _ _ e in
      let same = handle_body_create e ∙ run_chain_given policy json standard r.policy r.body p j in
      rw same (apply_chain-Sends policy json e p j)

  -- Whatever the daemon answers, every request that a handler with the chain of `Chain::new` sends
  -- for a request with a readable body is permitted: the inspect of a container to be resolved; the
  -- caller's request, when the router allows it or its container was resolved; or a create with the
  -- body that the mutator made from the caller's and that every gate passed.
  pub handle_body-Permitted :
      h.chain ≡ Chain.new → Sends (Permitted h req body w) w (handle_body h req body w).0
  handle_body-Permitted standard = elim (Action-cases r.action) [
    | inl e ↦ rw (handle_body_deny e) (nothing_sent Ok w _ (refuse-forwarded r w))
    | inr (inl e) ↦ rw (handle_body_allow e) (send-Sends Ok h req r body w (on_route e))
    | inr (inr (inl e)) ↦ create-Sends standard e
    | inr (inr (inr e)) ↦ resolve-Sends e
  ]
