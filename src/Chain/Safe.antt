-- ===== src/Chain/Safe.antt =====
-- What a create is like that the chain allows: the rules of the six gates and of the mutator together.
use docker_socket_policy.Base.{Text, true, false, Option, some, List, [], ◌≡◌, ◌≢◌, ok, lit, Elem}
use docker_socket_policy.Base.Map.{Map, get}
use docker_socket_policy.Json.{Value, Body, as_array, as_object, obj}
use docker_socket_policy.Json.Laws.{as_object-obj}
use docker_socket_policy.Policy.{Regex, Policy, Volume}
use docker_socket_policy.Gates.{fold_key}
use docker_socket_policy.Gates.KeyRules.{check_field_case_sound}
use docker_socket_policy.Gates.MountSource
use docker_socket_policy.Gates.HostConfig
use docker_socket_policy.Gates.HostConfig.{check_host_field}
use docker_socket_policy.Gates.Cmd
use docker_socket_policy.Gates.NetworkEndpoints
use docker_socket_policy.Gates.Registry.Rules.{IsAllowedImage, check-IsAllowedImage}
use docker_socket_policy.Gates.MountSource.{contains_entry, object_field}
use docker_socket_policy.Gates.MountSource.Rules.{IsBindValue, Declares}
use docker_socket_policy.Gates.MountSource.Mounts.{
  Entries, IsMountValue, check-mounts, check-volume,
}
use docker_socket_policy.Gates.EnvFile.Rules.{NoEnv, check-NoEnv}
use docker_socket_policy.Gates.HostConfig.Fields.{host_config_fields, create_body_fields}
use docker_socket_policy.Gates.Zero.{IsZero}
use docker_socket_policy.Gates.HostConfig.Passed.{
  check-field, check-spelling, check-networking_spelling, check_top_case-ok,
}
use docker_socket_policy.Gates.HostConfig.Rules.{
  check-default_deny, check-IsMode, IsMode, namespace_fields, is_ruled, is_free,
}
use docker_socket_policy.Gates.HostConfig.Options.{IsOption, check_host_field-IsOption}
use docker_socket_policy.Gates.Cmd.Flags.{AllFlags, check_args-AllFlags}
use docker_socket_policy.Gates.NetworkEndpoints.{forced_network_mode}
use docker_socket_policy.Router.{image_field}
use docker_socket_policy.Mutator.{mutate, host_config_value}
use docker_socket_policy.Mutator.Fields.{IsForced}
use docker_socket_policy.Mutator.Forced.{mutate_object}
use docker_socket_policy.Mutator.Endpoints.{HasForcedEndpoints, config_top-HasForced}
use docker_socket_policy.Chain
use docker_socket_policy.Chain.{
  Gate, check_gate, registry_gate, mount_source_gate, env_file_gate, host_config_gate, cmd_gate,
  network_endpoints_gate, execute,
}
use docker_socket_policy.Chain.Verdict.{execute-allowed_iff}
use docker_socket_policy.Chain.Forced.{execute-IsForced, mutate-HasHostConfig}

-- A HostConfig that leaves the container no more of the host than the policy says.
pub record IsSafeHostConfig (policy : Policy) (hc : Map Value) : Type 0 where
  -- What the policy forces stands there, and Privileged is false.
  pub forced : IsForced policy hc
  -- Only host paths are mounted that the policy declares, read-only unless it says otherwise.
  pub binds : Entries (IsBindValue policy) (get (lit "Binds") hc)
  pub mounts : Entries (IsMountValue policy) (get (lit "Mounts") hc)
  -- No namespace of the host or of another container.
  pub modes :
      (p : Text × List Text) (v : Value)
      → Elem p namespace_fields
      → get p.0 hc ≡ some v
      → IsMode p.1 v
  -- SecurityOpt, GroupAdd, OomScoreAdj, MaskedPaths and ReadonlyPaths keep to their rules.
  pub options : (key : Text) (v : Value) → get key hc ≡ some v → IsOption policy key v
  -- Every field that has no rule and is not free is zero.
  pub others :
      (key : Text) (v : Value)
      → get key hc ≡ some v
      → is_ruled key ≡ false
      → is_free key ≡ false
      → IsZero v
  -- The daemon reads no key as a field that the rules did not see.
  pub spelled :
      (key field : Text) (v : Value)
      → get key hc ≡ some v
      → Elem field host_config_fields
      → fold_key key ≡ fold_key field
      → key ≡ field

-- A body that is safe to create a container from, under the policy.
pub record IsSafeCreate (re : Regex) (policy : Policy) (body : Body) : Type 0 where
  pub image : image_field body ≢ [] → IsAllowedImage re policy (image_field body)
  pub host_config : Map Value
  pub found : get (lit "HostConfig") body ≡ some (obj host_config)
  pub safe : IsSafeHostConfig policy host_config
  pub volumes :
      (volumes : Map Value) (host_path : Text) (v : Value)
      → object_field (lit "Volumes") body ≡ some volumes
      → get host_path volumes ≡ some v
      → (volume : Volume) × Declares policy host_path volume
  pub env :
      (env_file : Text)
      → policy.env_file ≡ some env_file
      → env_file ≢ []
      → NoEnv body × NoEnv host_config
  pub flags :
      (v : Value) (cmd : List Value)
      → get (lit "Cmd") body ≡ some v
      → as_array v ≡ some cmd
      → AllFlags re policy cmd
  -- The endpoints are those of the network mode that the policy forces.
  pub endpoints :
      (mode : Text) → forced_network_mode policy ≡ some mode → HasForcedEndpoints mode body
  -- The daemon reads no key as another field than the rules did: none of a NetworkingConfig that is an
  -- object, and none of the body.
  pub networks_spelled :
      (networks : Map Value) (key : Text) (v : Value)
      → object_field (lit "NetworkingConfig") body ≡ some networks
      → get key networks ≡ some v
      → fold_key key ≡ fold_key (lit "EndpointsConfig")
      → key ≡ lit "EndpointsConfig"
  pub spelled :
      (key field : Text) (v : Value)
      → get key body ≡ some v
      → Elem field create_body_fields
      → fold_key key ≡ fold_key field
      → key ≡ field

-- A body with this HostConfig that the gates pass.
module _ (re : Regex) (policy : Policy) (body : Body) (hc : Map Value)
    (found : get (lit "HostConfig") body ≡ some (obj hc))
    (passed : (g : Gate) → check_gate re g policy body ≡ ok tt) where
  host_gate : HostConfig.check policy body ≡ ok tt
  unfolding check_gate
  host_gate = passed host_config_gate

  mount_gate : MountSource.check policy body ≡ ok tt
  unfolding check_gate
  mount_gate = passed mount_source_gate

  object-found : object_field (lit "HostConfig") body ≡ some hc
  unfolding object_field
  object-found = rw (found, object_field) (as_object-obj hc)

  check_field-passed :
      (key : Text) (v : Value) → get key hc ≡ some v → check_host_field policy key v ≡ ok tt
  check_field-passed = check-field policy body (obj hc) hc host_gate found (as_object-obj hc)

  gates-IsSafeHostConfig : IsForced policy hc → IsSafeHostConfig policy hc
  gates-IsSafeHostConfig forced = record {
    forced = forced;
    binds = (check-mounts policy body hc mount_gate object-found).0;
    mounts = (check-mounts policy body hc mount_gate object-found).1;
    modes = λ p v. check-IsMode policy body (obj hc) hc p v host_gate found (as_object-obj hc);
    options = λ key v g. check_host_field-IsOption policy key v (check_field-passed key v g);
    others = λ key v.
        check-default_deny policy body (obj hc) hc key v host_gate found (as_object-obj hc);
    spelled = check-spelling policy body (obj hc) hc host_gate found (as_object-obj hc);
  }

  gates-flags :
      (v : Value) (cmd : List Value)
      → get (lit "Cmd") body ≡ some v
      → as_array v ≡ some cmd
      → AllFlags re policy cmd
  unfolding check_gate Cmd.check
  gates-flags v cmd g e =
      check_args-AllFlags re policy cmd (rw (g, e, Cmd.check) at (passed cmd_gate))

  gates-env :
      (env_file : Text) → policy.env_file ≡ some env_file → env_file ≢ [] → NoEnv body × NoEnv hc
  unfolding check_gate
  gates-env env_file e n =
      let (own, host) = check-NoEnv policy body env_file e n (passed env_file_gate) in
      (own, host hc object-found)

  gates-image : image_field body ≢ [] → IsAllowedImage re policy (image_field body)
  unfolding check_gate
  gates-image = check-IsAllowedImage re policy body (passed registry_gate)

  gates-networks : NetworkEndpoints.check policy body ≡ ok tt
  unfolding check_gate
  gates-networks = passed network_endpoints_gate

mutate-endpoints :
    (policy : Policy) (body : Body) (hc : Map Value) (mode : Text)
    → as_object (host_config_value body) ≡ some hc
    → NetworkEndpoints.check policy (mutate policy body) ≡ ok tt
    → forced_network_mode policy ≡ some mode
    → HasForcedEndpoints mode (mutate policy body)
mutate-endpoints policy body hc mode e h forced =
    let same = mutate_object policy body hc e in
    rw same (config_top-HasForced policy mode _ forced (rw same at h))

-- Whatever body the chain allows, the body that it sends on is safe under the policy: its image is in a
-- namespace of the policy with a tag or digest that the policy accepts; only declared host paths are
-- mounted, read-only unless the policy says otherwise; its HostConfig has what the policy forces, no
-- namespace of the host, and zero values in all that has no rule and is not free; Env is empty under an
-- env_file; the flags of its command keep to the policy; its endpoints are those of the forced network;
-- and no key of the body, its HostConfig or its NetworkingConfig is another spelling of a field.
pub execute-IsSafeCreate :
    (re : Regex) (to_vec : Body → Option Text) (policy : Policy) (body : Body)
    → (execute re to_vec Chain.new policy body).allowed ≡ true
    → ((execute re to_vec Chain.new policy body).modified_body ≡ to_vec (mutate policy body))
      × IsSafeCreate re policy (mutate policy body)
execute-IsSafeCreate re to_vec policy body h =
    let passed = (execute-allowed_iff re to_vec policy body).0 h in
    let (hc, sent, found, forced) = execute-IsForced re to_vec policy body h in
    let (asked, is_object) = mutate-HasHostConfig re to_vec policy body h in
    let out = mutate policy body in
    (
      sent,
      record {
        image = gates-image re policy out hc found passed;
        host_config = hc;
        found = found;
        safe = gates-IsSafeHostConfig re policy out hc found passed forced;
        volumes = λ volumes path v.
            check-volume policy out volumes path v (mount_gate re policy out hc found passed);
        env = gates-env re policy out hc found passed;
        flags = gates-flags re policy out hc found passed;
        endpoints = λ mode.
            mutate-endpoints policy body asked mode is_object
              (gates-networks re policy out hc found passed);
        networks_spelled = λ networks key v.
            check-networking_spelling policy out networks key v
              (host_gate re policy out hc found passed);
        spelled = λ key field v.
            check_field_case_sound [] out create_body_fields policy key field v
              (check_top_case-ok policy out (host_gate re policy out hc found passed));
      },
    )
