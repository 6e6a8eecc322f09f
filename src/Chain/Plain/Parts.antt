-- ===== src/Chain/Plain/Parts.antt =====
-- What the gates say of bodies without the fields that they look into, and of what the mutator adds.
use docker_socket_policy.Base.{
  Text, true, false, none, some, [], ◌∷◌, ◌≡◌, refl, ◌∙◌, ok, inl, inr, lit, All, ◌==◌, ==_refl,
  arith, Bool-cases, to_lower, is_upper,
}
use docker_socket_policy.Base.Map.{Map, get, keys, insert, get-insert_self}
use docker_socket_policy.Json.{Value, Body, obj, as_object}
use docker_socket_policy.Json.Laws.{as_object-obj}
use docker_socket_policy.Policy.{Policy}
use docker_socket_policy.Gates.{read_as, fold_key}
use docker_socket_policy.Gates.Passing.{IsSpelled, IsChecked, check_field_case-passes}
use docker_socket_policy.Gates.MountSource.{object_field}
use docker_socket_policy.Gates.EnvFile.{no_env}
use docker_socket_policy.Gates.HostConfig.{check_host_field, check_networking_case}
use docker_socket_policy.Gates.HostConfig.Fields.{
  host_config_fields, create_body_fields, networking_config_fields,
}
use docker_socket_policy.Gates.NetworkEndpoints
use docker_socket_policy.Gates.NetworkEndpoints.{
  forced_network_mode, endpoints_config, endpoints_of, foreign_network, check_endpoints,
  check_mode_endpoints, detached_network_mode,
}
use docker_socket_policy.Mutator.{forced_endpoints, set_endpoints, networking_object}
use docker_socket_policy.Chain.Forcing.{Passes}

-- A body without the fields that the gates look into, whose keys are spelled as the API spells them.
pub record IsPlain (body : Body) : Type 0 where
  pub host_config : get (lit "HostConfig") body ≡ none
  pub networking : get (lit "NetworkingConfig") body ≡ none
  pub volumes : get (lit "Volumes") body ≡ none
  pub env : get (lit "Env") body ≡ none
  pub cmd : get (lit "Cmd") body ≡ none
  pub spelled : All (IsSpelled create_body_fields) body

pub Passes-unzip :
    (policy : Policy) (m : Map Value)
    → All (Passes policy) m
    → All (IsSpelled host_config_fields) m × All (IsChecked (check_host_field policy)) m
Passes-unzip policy [] all = (tt, tt)
Passes-unzip policy (p ∷ m) (h, hs) =
    let rest = Passes-unzip policy m hs in ((h.0, rest.0), (h.1, rest.1))

pub object_field-none : (k : Text) (m : Map Value) → get k m ≡ none → object_field k m ≡ none
unfolding object_field
object_field-none k m e = rw (e, object_field) refl

pub no_env-none : (m : Map Value) → get (lit "Env") m ≡ none → no_env m ≡ true
unfolding no_env
no_env-none m e = rw (e, no_env) refl

pub check_free :
    (policy : Policy) (body : Body)
    → forced_network_mode policy ≡ none
    → NetworkEndpoints.check policy body ≡ ok tt
unfolding NetworkEndpoints.check
check_free policy body e = rw (e, NetworkEndpoints.check) refl

-- The endpoints that a mode forces are those that it allows.
pub own_network : (mode : Text) → foreign_network mode mode ≡ false
unfolding foreign_network
own_network mode = ground (arith, ==_refl mode)

pub forced_endpoints-passes :
    (policy : Policy) (mode : Text) → check_endpoints policy mode (forced_endpoints mode []) ≡ ok tt
unfolding check_endpoints forced_endpoints keys
forced_endpoints-passes policy mode = elim (Bool-cases (detached_network_mode mode)) [
  | inl t ↦ rw (t, check_endpoints) refl
  | inr f ↦ rw (f, own_network mode, check_endpoints) refl
]

pub none-passes :
    (policy : Policy) (body : Body)
    → get (lit "NetworkingConfig") body ≡ none
    → check_networking_case policy (object_field (lit "NetworkingConfig") body) ≡ ok tt
unfolding check_networking_case
none-passes policy body e = rw (object_field-none (lit "NetworkingConfig") body e) refl

pub spelled_endpoints : read_as (lit "EndpointsConfig") networking_config_fields ≡ none
unfolding read_as fold_key networking_config_fields to_lower is_upper ◌==◌ lit
spelled_endpoints = refl

pub spelled_user : read_as (lit "User") create_body_fields ≡ none
unfolding read_as fold_key create_body_fields to_lower is_upper ◌==◌ lit
spelled_user = refl

pub spelled_host_config : read_as (lit "HostConfig") create_body_fields ≡ none
unfolding read_as fold_key create_body_fields to_lower is_upper ◌==◌ lit
spelled_host_config = refl

pub spelled_networking : read_as (lit "NetworkingConfig") create_body_fields ≡ none
unfolding read_as fold_key create_body_fields to_lower is_upper ◌==◌ lit
spelled_networking = refl

pub object_field-some :
    (k : Text) (m : Map Value) (v : Value) → get k m ≡ some v → object_field k m ≡ as_object v
unfolding object_field
object_field-some k m v e = rw (e, object_field)

pub networking_object-none :
    (body : Body) → get (lit "NetworkingConfig") body ≡ none → networking_object body ≡ []
unfolding networking_object
networking_object-none body e = rw (e, networking_object)

pub set_endpoints-object :
    (forced : Map Value) (body : Body)
    → object_field (lit "NetworkingConfig") (set_endpoints forced body)
      ≡ some (insert (lit "EndpointsConfig") (obj forced) (networking_object body))
unfolding set_endpoints
set_endpoints-object forced body =
    let nc = insert (lit "EndpointsConfig") (obj forced) (networking_object body) in
    object_field-some (lit "NetworkingConfig") _ (obj nc)
      (get-insert_self (lit "NetworkingConfig") (obj nc) body)
    ∙ as_object-obj nc

pub set_endpoints-passes :
    (policy : Policy) (forced : Map Value) (body : Body)
    → get (lit "NetworkingConfig") body ≡ none
    → check_networking_case policy
        (object_field (lit "NetworkingConfig") (set_endpoints forced body))
      ≡ ok tt
unfolding check_networking_case insert
set_endpoints-passes policy forced body e =
    rw (set_endpoints-object forced body, networking_object-none body e)
      (check_field_case-passes (lit "NetworkingConfig.") ((lit "EndpointsConfig", obj forced) ∷ [])
        networking_config_fields policy (spelled_endpoints, tt))
