-- ===== src/Handler/Creates.antt =====
-- What the handler sends for a request that the router takes for a create.
use docker_socket_policy.Base.{Text, ◌≡◌, refl, sym, ap, ◌∙◌, unwrap_or, ok}
use docker_socket_policy.Json.{Body}
use docker_socket_policy.Policy.{Policy}
use docker_socket_policy.Mutator.{mutate}
use docker_socket_policy.Mutator.Rest.{image_field-mutate}
use docker_socket_policy.Gates.Registry.Rules.{IsAllowedImage}
use docker_socket_policy.Router.{create_container, image_field}
use docker_socket_policy.Router.Creates.{IsCreate}
use docker_socket_policy.Router.Admission.{query_of}
use docker_socket_policy.Router.Kinds.{route_request-IsCreate}
use docker_socket_policy.Chain
use docker_socket_policy.Chain.{Gate, check_gate}
use docker_socket_policy.Chain.Verdict.{execute-allowed_iff}
use docker_socket_policy.Chain.Safe.{IsSafeCreate, execute-IsSafeCreate}
use docker_socket_policy.Handler.{
  HttpRequest, ForwardRequest, World, Handler, body_json, target, outgoing, handle_body,
}
use docker_socket_policy.Handler.Sent.{Sends, Sends-map}
use docker_socket_policy.Handler.Permitted.{
  routed, Permitted, inspect, on_route, on_resolved, on_create, handle_body-Permitted,
}

module _ (h : Handler) (req : HttpRequest) (body : Text) where
  -- A create under the only policy that fits its image and name, with a body that is safe under it.
  pub record IsSafelySent (f : ForwardRequest) : Type 0 where
    pub create :
        IsCreate h.re h.router.manager
          (body_json h body)
          (query_of (target req))
          (routed h req body)
    pub content : f ≡ outgoing req (unwrap_or body (h.to_vec (mutate create.policy create.json)))
    pub image : IsAllowedImage h.re create.policy (image_field create.json)
    pub safe : IsSafeCreate h.re create.policy (mutate create.policy create.json)

  module _ (is_create : (routed h req body).action ≡ create_container) where
    passed-IsSafeCreate :
        (policy : Policy) (json : Body)
        → ((g : Gate) → check_gate h.re g policy (mutate policy json) ≡ ok tt)
        → IsSafeCreate h.re policy (mutate policy json)
    passed-IsSafeCreate policy json gates =
        (execute-IsSafeCreate h.re h.to_vec policy json
          ((execute-allowed_iff h.re h.to_vec policy json).1 gates)).1

    pub Permitted-IsSafelySent :
        (w : World) (f : ForwardRequest) → Permitted h req body w f → IsSafelySent f
    Permitted-IsSafelySent w f (inspect e) = let two = sym is_create ∙ e in absurd cc
    Permitted-IsSafelySent w f (on_route e) = let two = sym is_create ∙ e in absurd cc
    Permitted-IsSafelySent w f (on_resolved e n) = let two = sym is_create ∙ e in absurd cc
    Permitted-IsSafelySent w f (on_create policy json e p j gates) =
        let c =
          route_request-IsCreate h.re h.router req.method (target req) _ (body_json h body)
            is_create in
        let same_policy : c.policy ≡ policy = let q = ap (λ r. r.policy) c.result in cc in
        let same_json : c.json ≡ json = let q = ap (λ r. r.body) c.result in cc in
        let safe : IsSafeCreate h.re c.policy (mutate c.policy c.json) =
          rw (same_policy, same_json) (passed-IsSafeCreate policy json gates) in
        record {
          create = c;
          content = rw (same_policy, same_json) refl;
          image =
              rw (image_field-mutate c.policy c.json) at
                (safe.image (rw (image_field-mutate c.policy c.json) c.imaged));
          safe = safe;
        }

-- For a request that the router takes for a create, a handler with the chain of `Chain::new` sends only
-- creates, whatever the daemon answers: each under the only policy of the manager that fits its image
-- and its name, with an image that the policy accepts, and with the body that the mutator made, which
-- is safe under the policy.
pub handle_body-IsSafelySent :
    (h : Handler) (req : HttpRequest) (body : Text) (w : World)
    → h.chain ≡ Chain.new
    → (routed h req body).action ≡ create_container
    → Sends (IsSafelySent h req body) w (handle_body h req body w).0
handle_body-IsSafelySent h req body w standard is_create =
    Sends-map (Permitted h req body w) (IsSafelySent h req body) w (handle_body h req body w).0
      (Permitted-IsSafelySent h req body is_create w) (handle_body-Permitted h req body w standard)
