-- ===== src/Gates/HostConfig/Passed.antt =====
-- The parts of the check of HostConfigGate, when it passes.
use docker_socket_policy.Base.{Text, some, [], ◌≡◌, ok, lit, Elem, >>-eq-ok}
use docker_socket_policy.Base.Map.{Map, get}
use docker_socket_policy.Json.{
  Value, null, bool, number, string, array, object, Body, as_object, entries,
}
use docker_socket_policy.Policy.{Policy}
use docker_socket_policy.Gates.{check_field_case, check_values, fold_key}
use docker_socket_policy.Gates.KeyRules.{check_values-get, check_field_case_sound}
use docker_socket_policy.Gates.MountSource.{object_field}
use docker_socket_policy.Gates.HostConfig.{
  check, check_host_config, check_host_field, check_networking_case,
}
use docker_socket_policy.Gates.HostConfig.Fields.{
  host_config_fields, create_body_fields, networking_config_fields,
}

pub check_host_config-ok :
    (policy : Policy) (body : Body)
    → check policy body ≡ ok tt
    → check_host_config policy (get (lit "HostConfig") body) ≡ ok tt
unfolding check
check_host_config-ok policy body h =
    let inner = >>-eq-ok (check_field_case [] body create_body_fields policy) _ h in
    (>>-eq-ok (check_networking_case policy (object_field (lit "NetworkingConfig") body)) _
      inner.1).1

pub check_networking-ok :
    (policy : Policy) (body : Body)
    → check policy body ≡ ok tt
    → check_networking_case policy (object_field (lit "NetworkingConfig") body) ≡ ok tt
unfolding check
check_networking-ok policy body h =
    let inner = >>-eq-ok (check_field_case [] body create_body_fields policy) _ h in
    (>>-eq-ok (check_networking_case policy (object_field (lit "NetworkingConfig") body)) _
      inner.1).0

-- No key of a NetworkingConfig that the gate passes is another spelling of EndpointsConfig.
pub check-networking_spelling :
    (policy : Policy) (body : Body) (networks : Map Value) (key : Text) (v : Value)
    → check policy body ≡ ok tt
    → object_field (lit "NetworkingConfig") body ≡ some networks
    → get key networks ≡ some v
    → fold_key key ≡ fold_key (lit "EndpointsConfig")
    → key ≡ lit "EndpointsConfig"
unfolding check_networking_case networking_config_fields
check-networking_spelling policy body networks key v passed found g same =
    check_field_case_sound (lit "NetworkingConfig.") networks networking_config_fields policy key
      (lit "EndpointsConfig") v
      (rw (found, check_networking_case) at (check_networking-ok policy body passed)) g Elem.here
      same

pub check_top_case-ok :
    (policy : Policy) (body : Body)
    → check policy body ≡ ok tt
    → check_field_case [] body create_body_fields policy ≡ ok tt
unfolding check
check_top_case-ok policy body h =
    (>>-eq-ok (check_field_case [] body create_body_fields policy) _ h).0

check_host_object-ok :
    (policy : Policy) (o : Value) (hc : Map Value)
    → as_object o ≡ some hc
    → check_host_config policy (some o) ≡ ok tt
    → (check_field_case (lit "HostConfig.") hc host_config_fields policy ≡ ok tt)
      × (check_values (check_host_field policy) hc ≡ ok tt)
unfolding check_host_config
check_host_object-ok policy (object o) hc e h =
    let both =
      >>-eq-ok (check_field_case (lit "HostConfig.") (entries o) host_config_fields policy) _ h in
    let same : entries o ≡ hc = cc in rw same at both
check_host_object-ok policy null hc e h = absurd cc
check_host_object-ok policy (bool b) hc e h = absurd cc
check_host_object-ok policy (number n) hc e h = absurd cc
check_host_object-ok policy (string s) hc e h = absurd cc
check_host_object-ok policy (array a) hc e h = absurd cc

module _ (policy : Policy) (body : Body) (o : Value) (hc : Map Value)
    (passed : check policy body ≡ ok tt) (found : get (lit "HostConfig") body ≡ some o)
    (is_object : as_object o ≡ some hc) where
  check-object :
      (check_field_case (lit "HostConfig.") hc host_config_fields policy ≡ ok tt)
      × (check_values (check_host_field policy) hc ≡ ok tt)
  check-object =
      check_host_object-ok policy o hc is_object
        (rw found at (check_host_config-ok policy body passed))

  -- Every entry of a HostConfig that the gate passes has passed the check of its field.
  pub check-field :
      (key : Text) (v : Value) → get key hc ≡ some v → check_host_field policy key v ≡ ok tt
  check-field key v g = check_values-get (check_host_field policy) hc key v check-object.1 g

  -- And no key is another spelling of a field.
  pub check-spelling :
      (key field : Text) (v : Value)
      → get key hc ≡ some v
      → Elem field host_config_fields
      → fold_key key ≡ fold_key field
      → key ≡ field
  check-spelling key field v g e same =
      check_field_case_sound (lit "HostConfig.") hc host_config_fields policy key field v
        check-object.0 g e same
