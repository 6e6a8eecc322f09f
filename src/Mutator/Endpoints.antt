-- ===== src/Mutator/Endpoints.antt =====
-- Which networks a create may join after the mutator, when the policy forces a network mode.
use docker_socket_policy.Base.{
  Text, Bool, true, false, none, some, List, [], ◌∷◌, ◌≡◌, refl, sym, ◌∙◌, ◌≢◌, lit, arith,
  Bool-cases, inl, inr, ok, err, any, find,
}
use docker_socket_policy.Base.Map.{Map, insert, keys, get-insert_self}
use docker_socket_policy.Json.{Value, Body, obj}
use docker_socket_policy.Json.Laws.{entries-from_entries}
use docker_socket_policy.Policy.{Policy}
use docker_socket_policy.Gates.NetworkEndpoints
use docker_socket_policy.Gates.NetworkEndpoints.{
  forced_network_mode, endpoints_config, endpoints_of, optional_object, foreign_network,
  check_endpoints, check_mode_endpoints, detached_network_mode,
}
use docker_socket_policy.Mutator.{
  force_endpoints, force_found, set_endpoints, forced_endpoints, networking_object, config_top,
}
use docker_socket_policy.Mutator.Forced.{
  endpoints_cases, force_endpoints_err, force_endpoints-none, force_endpoints-some, with_user,
  config_top_forced,
}

-- What the gate and the daemon find after the endpoints are set.
pub endpoints_config-set :
    (forced : Map Value) (body : Body)
    → endpoints_config (set_endpoints forced body) ≡ ok (some forced)
unfolding endpoints_config endpoints_of set_endpoints
endpoints_config-set forced body =
    let nc = insert (lit "EndpointsConfig") (obj forced) (networking_object body) in
    rw (
      get-insert_self (lit "NetworkingConfig") (obj nc) body,
      entries-from_entries nc,
      get-insert_self (lit "EndpointsConfig") (obj forced) (networking_object body),
      entries-from_entries forced,
    )

find-any : {A : Type 0} (p : A → Bool) (xs : List A) → any p xs ≡ true → find p xs ≢ none
find-any p [] h = cc
find-any p (x ∷ xs) h = ground (arith, find-any p xs)

check_endpoints-foreign :
    (policy : Policy) (mode : Text) (eps : Map Value)
    → check_endpoints policy mode eps ≡ ok tt
    → any (foreign_network mode) (keys eps) ≡ false
unfolding check_endpoints
check_endpoints-foreign policy mode eps h =
    ground (arith, find-any (foreign_network mode) (keys eps))

-- The endpoints after the mutator: those that the mode forces, made from the caller's.
abbrev pub HasForcedEndpoints : (mode : Text) → Body → Type 0
HasForcedEndpoints mode body =
    (eps : Map Value) × (endpoints_config body ≡ ok (some (forced_endpoints mode eps)))

pub check_mode_endpoints-some :
    (policy : Policy) (mode : Text) (body : Body) (eps : Map Value)
    → endpoints_config body ≡ ok (some eps)
    → check_mode_endpoints policy mode body ≡ check_endpoints policy mode eps
unfolding check_mode_endpoints
check_mode_endpoints-some policy mode body eps e = rw (e, check_mode_endpoints)

check_mode_endpoints_err :
    (policy : Policy) (mode : Text) (body : Body)
    → endpoints_config body ≡ err tt
    → check_mode_endpoints policy mode body ≢ ok tt
unfolding check_mode_endpoints
check_mode_endpoints_err policy mode body e h = ground arith

pub force_found_foreign :
    (mode : Text) (eps : Map Value) (body : Body)
    → any (foreign_network mode) (keys eps) ≡ true
    → force_found mode eps body ≡ body
unfolding force_found
force_found_foreign mode eps body t = rw (t, force_found)

force_found_own :
    (mode : Text) (eps : Map Value) (body : Body)
    → any (foreign_network mode) (keys eps) ≡ false
    → HasForcedEndpoints mode (force_found mode eps body)
unfolding force_found
force_found_own mode eps body f =
    rw (f, force_found) (eps, endpoints_config-set (forced_endpoints mode eps) body)

pub no_foreign : (mode : Text) → any (foreign_network mode) (keys {V = Value} []) ≡ false
unfolding keys
no_foreign mode = refl

force_found-HasForced :
    (policy : Policy) (mode : Text) (eps : Map Value) (body : Body)
    → endpoints_config body ≡ ok (some eps)
    → check_mode_endpoints policy mode (force_found mode eps body) ≡ ok tt
    → HasForcedEndpoints mode (force_found mode eps body)
force_found-HasForced policy mode eps body found h =
    elim (Bool-cases (any (foreign_network mode) (keys eps))) [
      | inl t ↦
          let passed : check_endpoints policy mode eps ≡ ok tt =
            sym (check_mode_endpoints-some policy mode body eps found)
            ∙ (rw (force_found_foreign mode eps body t) at h) in
          let own = check_endpoints-foreign policy mode eps passed in absurd (ground arith)
      | inr f ↦ force_found_own mode eps body f
    ]

force_endpoints-HasForced :
    (policy : Policy) (mode : Text) (body : Body)
    → check_mode_endpoints policy mode (force_endpoints mode body) ≡ ok tt
    → HasForcedEndpoints mode (force_endpoints mode body)
force_endpoints-HasForced policy mode body h = elim (endpoints_cases (endpoints_config body)) [
  | inl e ↦
      absurd
        (check_mode_endpoints_err policy mode body e (rw (force_endpoints_err mode body e) at h))
  | inr (inl e) ↦
      rw (force_endpoints-none mode body e) (force_found_own mode [] body (no_foreign mode))
  | inr (inr (eps, e)) ↦
      let same = force_endpoints-some mode body eps e in
      rw same (force_found-HasForced policy mode eps body e (rw same at h))
]

pub check_forced :
    (policy : Policy) (mode : Text) (body : Body)
    → forced_network_mode policy ≡ some mode
    → NetworkEndpoints.check policy body ≡ check_mode_endpoints policy mode body
unfolding NetworkEndpoints.check
check_forced policy mode body e = rw (e, NetworkEndpoints.check)

-- When the policy forces a network mode and the gate lets the body that the mutator made pass, its
-- EndpointsConfig is empty for a detached mode ("host", "none" and "container:..."), and else has
-- one entry, for the mode.
pub config_top-HasForced :
    (policy : Policy) (mode : Text) (body : Body)
    → forced_network_mode policy ≡ some mode
    → NetworkEndpoints.check policy (config_top policy body) ≡ ok tt
    → HasForcedEndpoints mode (config_top policy body)
config_top-HasForced policy mode body e h =
    let same = config_top_forced policy body mode e in
    let passed = sym (check_forced policy mode (config_top policy body) e) ∙ h in
    rw same (force_endpoints-HasForced policy mode (with_user policy body) (rw same at passed))
