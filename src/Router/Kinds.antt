-- ===== src/Router/Kinds.antt =====
-- Which results the router gives the action of a create.
use docker_socket_policy.Base.{Text, Bool, Option, some, ◌≡◌, ap, ◌∙◌, ◌≢◌, inl, inr}
use docker_socket_policy.Json.{Body}
use docker_socket_policy.Policy.{Regex, Policy}
use docker_socket_policy.Router.{
  deny_action, create_container, route_create, route_image_pull, RouteResult, Router, route_request,
}
use docker_socket_policy.Router.Endpoints.{
  IsEndpoint, route_request-IsEndpoint, read, create, by_name, pull,
}
use docker_socket_policy.Router.Creates.{IsCreate, route_create-IsCreate, route_by_name_cases}
use docker_socket_policy.Router.Pulls.{route_image_pull-IsPull}
use docker_socket_policy.Router.Admission.{query_of}
use docker_socket_policy.Manager.{Manager}

-- A result with the policy and the body of a create.
abbrev pub HasCreate : RouteResult → Type 0
HasCreate r = (policy : Policy) × (json : Body) × (r.policy ≡ some policy) × (r.body ≡ some json)

IsEndpoint-IsCreate :
    (re : Regex) (m : Manager) (method path query : Text) (has_body : Bool) (body : Option Body)
    {r : RouteResult}
    → IsEndpoint re m method path query has_body body r
    → r.action ≡ create_container
    → IsCreate re m body query r
IsEndpoint-IsCreate re m method path query has_body body (read w e) h = absurd cc
IsEndpoint-IsCreate re m method path query has_body body {r} (create p q e) h =
    let admitted : (route_create re m body query).action ≢ deny_action =
      λ d. (let s = ap (λ r. r.action) e in cc) in
    rw e (route_create-IsCreate re m body query admitted)
IsEndpoint-IsCreate re m method path query has_body body {r} (by_name name p q e) h =
    elim (route_by_name_cases m name) [
      | inl (policy, _, _, k) ↦ let same = ap (λ r. r.action) (e ∙ k) in absurd cc
      | inr (_, k) ↦ let same = ap (λ r. r.action) (e ∙ k) in absurd cc
    ]
IsEndpoint-IsCreate re m method path query has_body body {r} (pull p q e) h =
    let admitted : (route_image_pull re m query has_body).action ≢ deny_action =
      λ d. (let s = ap (λ r. r.action) e in cc) in
    let c = route_image_pull-IsPull re m query has_body admitted in
    let same = ap (λ r. r.action) (e ∙ c.result) in absurd cc

-- A request that the router gives to the chain is a create with an image, whose policy is the only one
-- that fits.
pub route_request-IsCreate :
    (re : Regex) (router : Router) (method target : Text) (has_body : Bool) (body : Option Body)
    → (route_request re router method target has_body body).action ≡ create_container
    → IsCreate re router.manager body
        (query_of target)
        (route_request re router method target has_body body)
route_request-IsCreate re router method target has_body body h =
    IsEndpoint-IsCreate re router.manager method _ (query_of target) has_body body
      (route_request-IsEndpoint re router method target has_body body (λ d. cc)) h

-- So it has the policy and the body that the chain needs.
pub route_request-HasCreate :
    (re : Regex) (router : Router) (method target : Text) (has_body : Bool) (body : Option Body)
    → (route_request re router method target has_body body).action ≡ create_container
    → HasCreate (route_request re router method target has_body body)
route_request-HasCreate re router method target has_body body h =
    let c = route_request-IsCreate re router method target has_body body h in
    (c.policy, c.json, ap (λ r. r.policy) c.result, ap (λ r. r.body) c.result)
