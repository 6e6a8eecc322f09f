-- ===== src/Chain/Plain/Networks.antt =====
-- The networks of a create that gives none.
use docker_socket_policy.Base.{
  Text, none, some, [], ◌≡◌, refl, ap, ◌∙◌, ok, inl, inr, ◌⊎◌, lit, All, ◌==◌, Option-cases,
}
use docker_socket_policy.Base.Map.{Map, get, insert, All-insert, get-insert_ne}
use docker_socket_policy.Json.{Value, string, Body, obj, as_object}
use docker_socket_policy.Policy.{Policy}
use docker_socket_policy.Gates.Passing.{IsSpelled}
use docker_socket_policy.Gates.MountSource.{object_field}
use docker_socket_policy.Gates.HostConfig.{check_networking_case}
use docker_socket_policy.Gates.HostConfig.Fields.{create_body_fields}
use docker_socket_policy.Gates.NetworkEndpoints
use docker_socket_policy.Gates.NetworkEndpoints.{
  forced_network_mode, endpoints_config, endpoints_of, foreign_network, check_endpoints,
  check_mode_endpoints, detached_network_mode,
}
use docker_socket_policy.Mutator.{
  forced_host_config, host_config_value, forced_user, forced_endpoints, force_found, set_endpoints,
  mutate,
}
use docker_socket_policy.Mutator.Fields.{get-set_some_ne}
use docker_socket_policy.Mutator.Forced.{
  mutate_object, config_top_free, config_top_forced, with_user, force_endpoints-none,
}
use docker_socket_policy.Mutator.Endpoints.{
  check_forced, check_mode_endpoints-some, endpoints_config-set, no_foreign,
}
use docker_socket_policy.Chain.Forcing.{All-set_some}
use docker_socket_policy.Chain.Plain.Parts.{
  IsPlain, check_free, forced_endpoints-passes, none-passes, spelled_user, spelled_host_config,
  spelled_networking, set_endpoints-passes,
}

module _ (policy : Policy) (body : Body) (plain : IsPlain body) where
  abbrev out : Body
  out = mutate policy body

  abbrev hc : Map Value
  hc = forced_host_config policy []

  pub empty_host : as_object (host_config_value body) ≡ some []
  unfolding host_config_value
  empty_host = rw (plain.host_config, host_config_value) refl

  abbrev before : Body
  before = with_user policy (insert (lit "HostConfig") (obj hc) body)

  before-networking : get (lit "NetworkingConfig") before ≡ none
  unfolding ◌==◌ lit
  before-networking =
      get-set_some_ne (lit "NetworkingConfig") (lit "User") string
        (forced_user policy.container_config) _ refl
      ∙ get-insert_ne (lit "NetworkingConfig") (lit "HostConfig") (obj hc) body refl
      ∙ plain.networking

  endpoints_config-before : endpoints_config before ≡ ok none
  unfolding endpoints_config endpoints_of
  endpoints_config-before = rw (before-networking, endpoints_config) refl

  force_found-before :
      (mode : Text) → force_found mode [] before ≡ set_endpoints (forced_endpoints mode []) before
  unfolding force_found
  force_found-before mode = rw (no_foreign mode, force_found) refl

  -- What the mutator makes of a body without NetworkingConfig.
  mutate_cases :
      ((forced_network_mode policy ≡ none) × (out ≡ before))
      ⊎ ((mode : Text) × (forced_network_mode policy ≡ some mode)
          × (out ≡ set_endpoints (forced_endpoints mode []) before))
  mutate_cases = elim (Option-cases (forced_network_mode policy)) [
    | inl e ↦ inl (e, mutate_object policy body [] empty_host ∙ config_top_free policy _ e)
    | inr (mode, e) ↦ inr (
      mode,
      e,
      mutate_object policy body [] empty_host
          ∙ config_top_forced policy _ mode e
          ∙ force_endpoints-none mode before endpoints_config-before
          ∙ force_found-before mode,
    )
  ]

  pub networks-passes : NetworkEndpoints.check policy out ≡ ok tt
  networks-passes = elim mutate_cases [
    | inl (e, same) ↦ check_free policy out e
    | inr (mode, e, same) ↦
        check_forced policy mode out e
        ∙ check_mode_endpoints-some policy mode out (forced_endpoints mode [])
            (ap endpoints_config same ∙ endpoints_config-set (forced_endpoints mode []) before)
        ∙ forced_endpoints-passes policy mode
  ]

  pub networking-passes :
      check_networking_case policy (object_field (lit "NetworkingConfig") out) ≡ ok tt
  networking-passes = elim mutate_cases [
    | inl (e, same) ↦
        ap (λ b. check_networking_case policy (object_field (lit "NetworkingConfig") b)) same
        ∙ none-passes policy before before-networking
    | inr (mode, e, same) ↦
        ap (λ b. check_networking_case policy (object_field (lit "NetworkingConfig") b)) same
        ∙ set_endpoints-passes policy (forced_endpoints mode []) before before-networking
  ]

  before-IsSpelled : All (IsSpelled create_body_fields) before
  before-IsSpelled =
      All-set_some (IsSpelled create_body_fields) (lit "User") string
        (forced_user policy.container_config) _ (λ user e. spelled_user)
        (All-insert (IsSpelled create_body_fields) (lit "HostConfig") (obj hc) body
          spelled_host_config plain.spelled)

  pub out-IsSpelled : All (IsSpelled create_body_fields) out
  unfolding set_endpoints
  out-IsSpelled = elim mutate_cases [
    | inl (e, same) ↦ rw same before-IsSpelled
    | inr (mode, e, same) ↦ rw same (
        All-insert (IsSpelled create_body_fields) (lit "NetworkingConfig") _ before
          spelled_networking before-IsSpelled)
  ]
