-- ===== src/Mutator/Twice/Endpoints.antt =====
-- The endpoints of a forced network mode, set twice.
use docker_socket_policy.Base.{
  Text, false, [], ◌∷◌, ◌≡◌, refl, sym, ap, ◌∙◌, lit, ==_refl, Bool-cases, inl, inr, any,
}
use docker_socket_policy.Base.Map.{Map, get, insert, keys, insert_idempotent, get-insert_self}
use docker_socket_policy.Json.{Value, Body, obj}
use docker_socket_policy.Json.Laws.{entries-from_entries}
use docker_socket_policy.Gates.NetworkEndpoints.{
  endpoints_config, foreign_network, detached_network_mode,
}
use docker_socket_policy.Mutator.{
  kept_entry, forced_endpoints, networking_object, set_endpoints, force_found, force_endpoints,
}
use docker_socket_policy.Mutator.Forced.{
  endpoints_cases, force_endpoints_err, force_endpoints-none, force_endpoints-some,
}
use docker_socket_policy.Mutator.Endpoints.{endpoints_config-set, no_foreign, force_found_foreign}

forced_endpoints-attached :
    (mode : Text) (eps : Map Value)
    → detached_network_mode mode ≡ false
    → forced_endpoints mode eps ≡ (mode, kept_entry mode eps) ∷ []
unfolding forced_endpoints
forced_endpoints-attached mode eps f = rw (f, forced_endpoints) refl

kept_entry_own : (mode : Text) (v : Value) → kept_entry mode ((mode, v) ∷ []) ≡ v
unfolding kept_entry get
kept_entry_own mode v = rw (kept_entry, get, ==_refl mode) refl

forced_endpoints_idempotent :
    (mode : Text) (eps : Map Value)
    → forced_endpoints mode (forced_endpoints mode eps) ≡ forced_endpoints mode eps
unfolding forced_endpoints
forced_endpoints_idempotent mode eps = elim (Bool-cases (detached_network_mode mode)) [
  | inl t ↦ rw (t, forced_endpoints) refl
  | inr f ↦
      let once = forced_endpoints-attached mode eps f in
      ap (forced_endpoints mode) once
      ∙ forced_endpoints-attached mode _ f
      ∙ ap (λ v. (mode, v) ∷ []) (kept_entry_own mode (kept_entry mode eps))
      ∙ sym once
]

networking_object-set :
    (forced : Map Value) (body : Body)
    → networking_object (set_endpoints forced body)
      ≡ insert (lit "EndpointsConfig") (obj forced) (networking_object body)
unfolding networking_object set_endpoints
networking_object-set forced body =
    let nc = insert (lit "EndpointsConfig") (obj forced) (networking_object body) in
    rw
      (
        networking_object,
        get-insert_self (lit "NetworkingConfig") (obj nc) body,
        entries-from_entries nc,
      )
      refl

set_endpoints_idempotent :
    (forced : Map Value) (body : Body)
    → set_endpoints forced (set_endpoints forced body) ≡ set_endpoints forced body
unfolding set_endpoints networking_object
set_endpoints_idempotent forced body =
    let write = λ (nc : Map Value) (b : Body). insert (lit "NetworkingConfig") (obj nc) b in
    let nc = insert (lit "EndpointsConfig") (obj forced) (networking_object body) in
    ap (λ n. write (insert (lit "EndpointsConfig") (obj forced) n) (set_endpoints forced body))
      (networking_object-set forced body)
    ∙ ap (λ n. write n (set_endpoints forced body))
        (insert_idempotent (lit "EndpointsConfig") (obj forced) (networking_object body))
    ∙ insert_idempotent (lit "NetworkingConfig") (obj nc) body

force_found-own :
    (mode : Text) (eps : Map Value) (body : Body)
    → any (foreign_network mode) (keys eps) ≡ false
    → force_found mode eps body ≡ set_endpoints (forced_endpoints mode eps) body
unfolding force_found
force_found-own mode eps body f = rw (f, force_found) refl

force_found_again :
    (mode : Text) (eps : Map Value) (body : Body)
    → any (foreign_network mode) (keys eps) ≡ false
    → force_endpoints mode (force_found mode eps body) ≡ force_found mode eps body
force_found_again mode eps body own =
    let forced = forced_endpoints mode eps in
    let body' = set_endpoints forced body in
    let once = force_found-own mode eps body own in
    ap (force_endpoints mode) once
    ∙ force_endpoints-some mode body' forced (endpoints_config-set forced body)
    ∙ elim (Bool-cases (any (foreign_network mode) (keys forced))) [
      | inl t ↦ force_found_foreign mode forced body' t
      | inr f ↦
          force_found-own mode forced body' f
          ∙ ap (λ eps'. set_endpoints eps' body') (forced_endpoints_idempotent mode eps)
          ∙ set_endpoints_idempotent forced body
    ]
    ∙ sym once

pub force_endpoints_idempotent :
    (mode : Text) (body : Body)
    → force_endpoints mode (force_endpoints mode body) ≡ force_endpoints mode body
force_endpoints_idempotent mode body = elim (endpoints_cases (endpoints_config body)) [
  | inl c ↦ ap (force_endpoints mode) (force_endpoints_err mode body c)
  | inr (inl c) ↦
      rw (force_endpoints-none mode body c) (force_found_again mode [] body (no_foreign mode))
  | inr (inr (eps, c)) ↦ elim (Bool-cases (any (foreign_network mode) (keys eps))) [
    | inl t ↦
        ap (force_endpoints mode)
          (force_endpoints-some mode body eps c ∙ force_found_foreign mode eps body t)
    | inr f ↦ rw (force_endpoints-some mode body eps c) (force_found_again mode eps body f)
  ]
]
