-- ===== src/Mutator/Forced.antt =====
-- What the mutator forces into `HostConfig`.
use docker_socket_policy.Base.{
  Text, false, Option, none, some, [], ◌≡◌, refl, ◌∙◌, ◌==◌, lit, Bool-cases, Option-cases, inl,
  inr, any, Result, ok, err, ◌⊎◌,
}
use docker_socket_policy.Base.Map.{Map, get, keys, insert, get-insert_self, get-insert_ne}
use docker_socket_policy.Json.{Value, string, Body, as_object, obj}
use docker_socket_policy.Policy.{Policy}
use docker_socket_policy.Gates.NetworkEndpoints.{
  forced_network_mode, endpoints_config, foreign_network,
}
use docker_socket_policy.Mutator.{
  set_some, forced_host_config, host_config_value, config_top, forced_user, force_endpoints,
  forced_endpoints, force_found, set_endpoints, mutate,
}
use docker_socket_policy.Mutator.Fields.{get-set_some_ne, IsForced, forced_host_config-IsForced}

-- The endpoints are set under NetworkingConfig alone.
module _ (k : Text) (off_networking : (lit "NetworkingConfig" == k) ≡ false) where
  set_endpoints-get :
      (forced : Map Value) (body : Body) → get k (set_endpoints forced body) ≡ get k body
  unfolding set_endpoints
  set_endpoints-get forced body = get-insert_ne k (lit "NetworkingConfig") _ body off_networking

  force_found-get :
      (mode : Text) (eps : Map Value) (body : Body) → get k (force_found mode eps body) ≡ get k body
  unfolding force_found
  force_found-get mode eps body = elim (Bool-cases (any (foreign_network mode) (keys eps))) [
    | inl t ↦ rw t
    | inr f ↦ rw f (set_endpoints-get (forced_endpoints mode eps) body)
  ]

-- What the body gives as its endpoints, and what the mutator does with it.
pub endpoints_cases :
    (r : Result (Unit {0}) (Option (Map Value)))
    → (r ≡ err tt) ⊎ ((r ≡ ok none) ⊎ ((eps : Map Value) × (r ≡ ok (some eps))))
endpoints_cases (err tt) = inl refl
endpoints_cases (ok none) = inr (inl refl)
endpoints_cases (ok (some eps)) = inr (inr (eps, refl))

module _ (mode : Text) (body : Body) where
  pub force_endpoints_err : endpoints_config body ≡ err tt → force_endpoints mode body ≡ body
  unfolding force_endpoints
  force_endpoints_err e = rw (e, force_endpoints)

  pub force_endpoints-none :
      endpoints_config body ≡ ok none → force_endpoints mode body ≡ force_found mode [] body
  unfolding force_endpoints
  force_endpoints-none e = rw (e, force_endpoints)

  pub force_endpoints-some :
      (eps : Map Value)
      → endpoints_config body ≡ ok (some eps)
      → force_endpoints mode body ≡ force_found mode eps body
  unfolding force_endpoints
  force_endpoints-some eps e = rw (e, force_endpoints)

module _ (k : Text) (off_networking : (lit "NetworkingConfig" == k) ≡ false) where
  force_endpoints-get : (mode : Text) (body : Body) → get k (force_endpoints mode body) ≡ get k body
  force_endpoints-get mode body = elim (endpoints_cases (endpoints_config body)) [
    | inl e ↦ rw (force_endpoints_err mode body e)
    | inr (inl e) ↦
        rw (force_endpoints-none mode body e) (force_found-get k off_networking mode [] body)
    | inr (inr (eps, e)) ↦
        rw (force_endpoints-some mode body eps e) (force_found-get k off_networking mode eps body)
  ]

-- The body with the forced user.
abbrev pub with_user : Policy → Body → Body
with_user policy body = set_some (lit "User") string (forced_user policy.container_config) body

pub config_top_free :
    (policy : Policy) (body : Body)
    → forced_network_mode policy ≡ none
    → config_top policy body ≡ with_user policy body
unfolding config_top
config_top_free policy body e = rw (e, config_top)

pub config_top_forced :
    (policy : Policy) (body : Body) (mode : Text)
    → forced_network_mode policy ≡ some mode
    → config_top policy body ≡ force_endpoints mode (with_user policy body)
unfolding config_top
config_top_forced policy body mode e = rw (e, config_top)

-- The writes at the top level stand under User and NetworkingConfig.
pub config_top-get :
    (policy : Policy) (body : Body) (k : Text)
    → (lit "User" == k) ≡ false
    → (lit "NetworkingConfig" == k) ≡ false
    → get k (config_top policy body) ≡ get k body
config_top-get policy body k off_user off_networking =
    let kept =
      get-set_some_ne k (lit "User") string (forced_user policy.container_config) body off_user in
    elim (Option-cases (forced_network_mode policy)) [
      | inl e ↦ rw (config_top_free policy body e) kept
      | inr (mode, e) ↦
          rw (config_top_forced policy body mode e)
            (force_endpoints-get k off_networking mode (with_user policy body) ∙ kept)
    ]

config_top-host :
    (policy : Policy) (body : Body)
    → get (lit "HostConfig") (config_top policy body) ≡ get (lit "HostConfig") body
unfolding ◌==◌ lit
config_top-host policy body = config_top-get policy body (lit "HostConfig") refl refl

pub mutate_object :
    (policy : Policy) (body : Body) (hc : Map Value)
    → as_object (host_config_value body) ≡ some hc
    → mutate policy body
      ≡ config_top policy (insert (lit "HostConfig") (obj (forced_host_config policy hc)) body)
unfolding mutate
mutate_object policy body hc h = rw (h, mutate)

pub mutate_other :
    (policy : Policy) (body : Body)
    → as_object (host_config_value body) ≡ none
    → mutate policy body ≡ body
unfolding mutate
mutate_other policy body h = rw (h, mutate)

-- A body whose HostConfig is absent, null or an object leaves the mutator with an object there, in
-- which Privileged is false and every field that the policy's container_config sets has its value.
pub mutate-IsForced :
    (policy : Policy) (body : Body) (hc : Map Value)
    → as_object (host_config_value body) ≡ some hc
    → (get (lit "HostConfig") (mutate policy body) ≡ some (obj (forced_host_config policy hc)))
      × IsForced policy (forced_host_config policy hc)
mutate-IsForced policy body hc h = (
  rw (mutate_object policy body hc h) (
      config_top-host policy _
      ∙ get-insert_self (lit "HostConfig") (obj (forced_host_config policy hc)) body),
  forced_host_config-IsForced policy hc,
)
