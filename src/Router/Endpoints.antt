-- ===== src/Router/Endpoints.antt =====
-- The endpoints that the router lets through: everything else is denied.
use docker_socket_policy.Base.{
  Text, Bool, true, Option, some, ◌≡◌, refl, ◌≢◌, ◌⊎◌, inl, inr, ◌==◌, ==_iff, ◌&&◌, lit, arith,
  Bool-cases, Option-cases, ends_with, if◌then◌else◌,
}
use docker_socket_policy.Message.{
  Message, rename_not_allowed, update_not_allowed, endpoint_not_allowed,
}
use docker_socket_policy.Json.{Body}
use docker_socket_policy.Policy.{Regex}
use docker_socket_policy.Manager.{Manager}
use docker_socket_policy.Paths.{strip_api_version, extract_container_name}
use docker_socket_policy.Router.{
  deny_action, allow_action, RouteResult, Router, is_read, is_lifecycle, route_create,
  route_by_name, route_container, route_image_pull, route_endpoint, route_request, allow, deny,
}
use docker_socket_policy.Router.Admission.{path_of, query_of, route_request-Passed}

-- What a request that is not denied asks for, with the result that the router gives it.
pub data IsEndpoint (re : Regex) (m : Manager) (method path query : Text) (has_body : Bool)
    (body : Option Body) : RouteResult → Type 0 where
  -- A GET or HEAD, which is passed on as it is.
  read :
      {r : RouteResult}
      → (method ≡ lit "GET") ⊎ (method ≡ lit "HEAD")
      → r.action ≡ allow_action
      → IsEndpoint re m method path query has_body body r
  -- POST /containers/create
  create :
      {r : RouteResult}
      → method ≡ lit "POST"
      → path ≡ lit "/containers/create"
      → r ≡ route_create re m body query
      → IsEndpoint re m method path query has_body body r
  -- A lifecycle POST, or a DELETE, on a container
  by_name :
      {r : RouteResult} (name : Text)
      → extract_container_name path ≡ some name
      → ((method ≡ lit "POST") × (is_lifecycle path ≡ true)) ⊎ (method ≡ lit "DELETE")
      → r ≡ route_by_name m name
      → IsEndpoint re m method path query has_body body r
  -- POST /images/create
  pull :
      {r : RouteResult}
      → method ≡ lit "POST"
      → path ≡ lit "/images/create"
      → r ≡ route_image_pull re m query has_body
      → IsEndpoint re m method path query has_body body r

module _ (re : Regex) (m : Manager) (method path query : Text) (has_body : Bool)
    (body : Option Body) where
  read_method : is_read method ≡ true → (method ≡ lit "GET") ⊎ (method ≡ lit "HEAD")
  read_method h = ground (arith, ==_iff method (lit "GET"), ==_iff method (lit "HEAD"))

  -- The result is a denial or belongs to an endpoint.
  abbrev Listed : RouteResult → Type 0
  Listed r = r.action ≢ deny_action → IsEndpoint re m method path query has_body body r

  denial : (msg : Message) → Listed (deny msg)
  denial msg h = absurd (h refl)

  read_or_deny-Listed :
      Listed (if is_read method then allow else deny (endpoint_not_allowed method path))
  read_or_deny-Listed = elim (Bool-cases (is_read method)) [
    | inl t ↦ rw t (λ _. read (read_method t) refl)
    | inr f ↦ rw f (denial (endpoint_not_allowed method path))
  ]

  route_container-Listed :
      (name : Text)
      → extract_container_name path ≡ some name
      → Listed (route_container m method path name)
  unfolding route_container
  route_container-Listed name e = elim (Bool-cases (is_lifecycle path && method == lit "POST")) [
    | inl t ↦ rw t (λ _. by_name name e (inl (ground (arith, ==_iff method (lit "POST")))) refl)
    | inr f ↦ elim (Bool-cases (ends_with path (lit "/rename") && method == lit "POST")) [
      | inl t ↦ rw (f, t) (denial rename_not_allowed)
      | inr f1 ↦ elim (Bool-cases (ends_with path (lit "/update") && method == lit "POST")) [
        | inl t ↦ rw (f, f1, t) (denial update_not_allowed)
        | inr f2 ↦ elim (Bool-cases (method == lit "DELETE")) [
          | inl t ↦
              rw (f, f1, f2, t)
                (λ _. by_name name e (inr ((==_iff method (lit "DELETE")).0 t)) refl)
          | inr f3 ↦ rw (f, f1, f2, f3) read_or_deny-Listed
        ]
      ]
    ]
  ]

  route_other-Listed : Listed (
      if method == lit "POST" && path == lit "/images/create"
      then route_image_pull re m query has_body
      else if is_read method
      then allow
      else deny (endpoint_not_allowed method path))
  route_other-Listed = elim (Bool-cases (method == lit "POST" && path == lit "/images/create")) [
    | inl t ↦ rw t (λ _.
        pull (ground (arith, ==_iff method (lit "POST")))
          (ground (arith, ==_iff path (lit "/images/create"))) refl)
    | inr f ↦ rw f read_or_deny-Listed
  ]

  route_endpoint-Listed : Listed (route_endpoint re m method path query has_body body)
  unfolding route_endpoint
  route_endpoint-Listed =
      elim (Bool-cases (method == lit "POST" && path == lit "/containers/create")) [
        | inl t ↦ rw t (λ _.
            create (ground (arith, ==_iff method (lit "POST")))
              (ground (arith, ==_iff path (lit "/containers/create"))) refl)
        | inr f ↦ elim (Option-cases (extract_container_name path)) [
          | inl e ↦ rw (f, e) route_other-Listed
          | inr (name, e) ↦ rw (f, e) (route_container-Listed name e)
        ]
      ]

-- Every request that is not denied, with the API version stripped from its path, is a GET or HEAD that
-- is allowed, a container create, an image pull, or a lifecycle POST or a DELETE that names a container;
-- the last three get the answer of their own routine.
pub route_request-IsEndpoint :
    (re : Regex) (router : Router) (method target : Text) (has_body : Bool) (body : Option Body)
    → (route_request re router method target has_body body).action ≢ deny_action
    → IsEndpoint re router.manager method
        (strip_api_version (path_of target))
        (query_of target)
        has_body
        body
        (route_request re router method target has_body body)
route_request-IsEndpoint re router method target has_body body h =
    let passed = route_request-Passed re router method target has_body body h in
    let path = strip_api_version (path_of target) in
    let listed =
      route_endpoint-Listed re router.manager method path (query_of target) has_body body
        (rw passed.routed at h) in
    rw passed.routed listed
