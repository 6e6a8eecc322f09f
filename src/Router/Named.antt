-- ===== src/Router/Named.antt =====
-- Only the daemon's answer gives a result a resolved name: the router gives none.
use docker_socket_policy.Base.{
  Text, Bool, Option, none, some, List, [], ◌∷◌, ◌≡◌, refl, arith, Option-cases, Result-cases, inl,
  inr, lit, unwrap_or,
}
use docker_socket_policy.Json.{Body}
use docker_socket_policy.Message.{Message}
use docker_socket_policy.Policy.{Regex, Policy}
use docker_socket_policy.Image.{ImageRef, check_image_tag}
use docker_socket_policy.Manager.{Manager, covering, matching_image}
use docker_socket_policy.Query.{Parameters, parse_query, parameter}
use docker_socket_policy.Paths.{extract_container_name, strip_api_version}
use docker_socket_policy.Router.{
  RouteResult, Router, image_field, create_image, route_create, route_covering, route_by_name,
  pull_policies, pull_reference, pull_image, pull_parameters, route_image_pull, route_container,
  route_endpoint, route_path, route_request, split_target,
}

abbrev pub NoName : RouteResult → Type 0
NoName r = r.resolved_name ≡ none

module _ (re : Regex) (m : Manager) where
  route_covering-NoName : (name : Text) (ps : List Policy) → NoName (route_covering name ps)
  unfolding route_covering
  route_covering-NoName name [] = refl
  route_covering-NoName name (p ∷ []) = ground arith
  route_covering-NoName name (p ∷ q ∷ ps) = refl

  route_by_name-NoName : (name : Text) → NoName (route_by_name m name)
  unfolding route_by_name
  route_by_name-NoName name = route_covering-NoName name (covering m name)

  create_image-NoName :
      (body : Body) (image query : Text) → NoName (create_image re m body image query)
  unfolding create_image
  create_image-NoName body image query = ground arith

  route_create-NoName : (body : Option Body) (query : Text) → NoName (route_create re m body query)
  unfolding route_create
  route_create-NoName none query = refl
  route_create-NoName (some body) query =
      ground (arith, create_image-NoName body (image_field body) query)

  pull_policies-NoName :
      (from_image : Text) (r : ImageRef) (last : Option Message) (ps : List Policy)
      → NoName (pull_policies re from_image r last ps)
  unfolding pull_policies
  pull_policies-NoName from_image r last [] = ground arith
  pull_policies-NoName from_image r last (p ∷ ps) = elim (Result-cases (check_image_tag re p r)) [
    | inl (u, e) ↦ rw (e, pull_policies)
    | inr (msg, e) ↦ rw (e, pull_policies) (pull_policies-NoName from_image r _ ps)
  ]

  pull_image-NoName : (from_image : Text) (r : ImageRef) → NoName (pull_image re m from_image r)
  unfolding pull_image
  pull_image-NoName from_image r =
      ground (arith, pull_policies-NoName from_image r none (matching_image m r.name))

  pull_parameters-NoName : (params : Parameters) → NoName (pull_parameters re m params)
  unfolding pull_parameters
  pull_parameters-NoName params =
      let from_image = unwrap_or [] (parameter (lit "fromImage") params) in
      let tag = unwrap_or [] (parameter (lit "tag") params) in
      elim (Result-cases (pull_reference re from_image tag)) [
        | inl (r, e) ↦ ground (arith, e, pull_image-NoName from_image r)
        | inr (msg, e) ↦ ground (arith, e)
      ]

  route_image_pull-NoName :
      (query : Text) (has_body : Bool) → NoName (route_image_pull re m query has_body)
  unfolding route_image_pull
  route_image_pull-NoName query has_body = elim (Option-cases (parse_query query)) [
    | inl e ↦ ground (arith, e)
    | inr (params, e) ↦ ground (arith, e, pull_parameters-NoName params)
  ]

  route_container-NoName : (method path name : Text) → NoName (route_container m method path name)
  unfolding route_container
  route_container-NoName method path name = ground (arith, route_by_name-NoName name)

  route_endpoint-NoName :
      (method path query : Text) (has_body : Bool) (body : Option Body)
      → NoName (route_endpoint re m method path query has_body body)
  unfolding route_endpoint
  route_endpoint-NoName method path query has_body body =
      elim (Option-cases (extract_container_name path)) [
        | inl e ↦
            ground
              (arith, e, route_create-NoName body query, route_image_pull-NoName query has_body)
        | inr (name, e) ↦
            ground
              (arith, e, route_create-NoName body query, route_container-NoName method path name)
      ]

  route_path-NoName :
      (method path query : Text) (has_body : Bool) (body : Option Body)
      → NoName (route_path re m method path query has_body body)
  unfolding route_path
  route_path-NoName method path query has_body body =
      ground (arith, route_endpoint-NoName method path query has_body body)

pub route_request-NoName :
    (re : Regex) (router : Router) (method target : Text) (has_body : Bool) (body : Option Body)
    → NoName (route_request re router method target has_body body)
unfolding route_request
route_request-NoName re router method target has_body body =
    let (path, query) = split_target target in
    ground (
      arith,
      route_path-NoName re router.manager method (strip_api_version path) query has_body body,
    )
