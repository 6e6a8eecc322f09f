-- ===== src/Chain/Plain.antt =====
-- A create that asks for nothing but its image.
mod Parts
mod Networks
use docker_socket_policy.Base.{
  Text, true, false, Option, none, some, List, [], ◌∷◌, ◌≡◌, refl, sym, ap, ◌∙◌, ok, err, inl, inr,
  ◌⊎◌, lit, All, ◌==◌, ==_refl, arith, Bool-cases, Option-cases, find, any, is_empty, to_lower,
  is_upper, unwrap_or, ◌↔◌,
}
use docker_socket_policy.Base.Map.{
  Map, get, keys, insert, All-insert, get-insert_ne, get-insert_self,
}
use docker_socket_policy.Json.{Value, string, Body, obj, entries, as_object}
use docker_socket_policy.Json.Laws.{as_object-obj, entries-from_entries}
use docker_socket_policy.Policy.{Regex, Policy}
use docker_socket_policy.Gates.{read_as, fold_key, check_field_case, check_values}
use docker_socket_policy.Gates.Passing.{
  IsSpelled, IsChecked, check_values-passes, check_field_case-passes,
}
use docker_socket_policy.Gates.Registry
use docker_socket_policy.Gates.MountSource
use docker_socket_policy.Gates.MountSource.{
  object_field, check_host_mounts, check_volumes, check_binds, check_mounts,
}
use docker_socket_policy.Gates.EnvFile
use docker_socket_policy.Gates.EnvFile.{no_env, no_host_env, check_env}
use docker_socket_policy.Gates.HostConfig
use docker_socket_policy.Gates.HostConfig.{
  check_host_field, check_host_config, check_networking_case,
}
use docker_socket_policy.Gates.HostConfig.Fields.{
  host_config_fields, create_body_fields, networking_config_fields,
}
use docker_socket_policy.Gates.Cmd
use docker_socket_policy.Gates.NetworkEndpoints
use docker_socket_policy.Gates.NetworkEndpoints.{
  forced_network_mode, endpoints_config, endpoints_of, foreign_network, check_endpoints,
  check_mode_endpoints, detached_network_mode,
}
use docker_socket_policy.Mutator.{
  set_some, forced_host_config, host_config_value, config_top, forced_user, force_endpoints,
  forced_endpoints, force_found, set_endpoints, networking_object, mutate, kept_entry,
}
use docker_socket_policy.Mutator.Fields.{forced_fields, forced_host_config-get, get-set_some_ne}
use docker_socket_policy.Mutator.Forced.{
  mutate_object, mutate-IsForced, config_top_free, config_top_forced, with_user,
  force_endpoints-none,
}
use docker_socket_policy.Mutator.Endpoints.{
  check_forced, check_mode_endpoints-some, endpoints_config-set, no_foreign,
}
use docker_socket_policy.Mutator.Rest.{mutate-get, image_field-mutate}
use docker_socket_policy.Router.{image_field}
use docker_socket_policy.Chain
use docker_socket_policy.Chain.{
  Gate, check_gate, registry_gate, mount_source_gate, env_file_gate, host_config_gate, cmd_gate,
  network_endpoints_gate, execute,
}
use docker_socket_policy.Chain.Verdict.{execute-allowed_iff}
use docker_socket_policy.Chain.Forcing.{Passes, forced_host_config-Passes, All-set_some}
use Parts.{
  IsPlain, Passes-unzip, object_field-none, no_env-none, check_free, own_network,
  forced_endpoints-passes, none-passes, spelled_endpoints, spelled_user, spelled_host_config,
  spelled_networking, object_field-some, networking_object-none, set_endpoints-object,
  set_endpoints-passes,
}
use Networks.{empty_host, networks-passes, networking-passes, out-IsSpelled}

module _ (policy : Policy) (body : Body) (plain : IsPlain body) where
  abbrev out : Body
  out = mutate policy body

  abbrev hc : Map Value
  hc = forced_host_config policy []

  object_field-out : object_field (lit "HostConfig") out ≡ some hc
  unfolding object_field
  object_field-out =
      rw ((mutate-IsForced policy body [] (empty_host policy body plain)).0, object_field)
        (as_object-obj hc)

  host_config-none : (k : Text) → any (λ f. f == k) forced_fields ≡ false → get k hc ≡ none
  unfolding get
  host_config-none k other = forced_host_config-get policy [] k other

  host_mounts-passes : check_host_mounts policy (some hc) ≡ ok tt
  unfolding check_host_mounts check_binds check_mounts ◌==◌ lit
  host_mounts-passes =
      rw
        (
          host_config-none (lit "Binds") refl,
          host_config-none (lit "Mounts") refl,
          check_binds,
          check_mounts,
        )
        refl

  mounts-passes : MountSource.check policy out ≡ ok tt
  unfolding MountSource.check check_volumes ◌==◌ lit
  mounts-passes =
      let volumes =
        object_field-none (lit "Volumes") out
          (mutate-get policy body (lit "Volumes") refl ∙ plain.volumes) in
      rw (object_field-out, host_mounts-passes, volumes) refl

  check_env-passes : (env_file : Text) → check_env policy env_file out ≡ ok tt
  unfolding check_env no_host_env ◌==◌ lit
  check_env-passes env_file =
      let top = no_env-none out (mutate-get policy body (lit "Env") refl ∙ plain.env) in
      let inner = no_env-none hc (host_config-none (lit "Env") refl) in
      rw (top, object_field-out, inner) refl

  env-passes : EnvFile.check policy out ≡ ok tt
  unfolding EnvFile.check
  env-passes = elim (Option-cases policy.env_file) [
    | inl e ↦ rw (e, EnvFile.check) refl
    | inr (env_file, e) ↦ elim (Bool-cases (is_empty env_file)) [
      | inl t ↦ rw (e, t, EnvFile.check) refl
      | inr f ↦ rw (e, f, EnvFile.check) (check_env-passes env_file)
    ]
  ]

  cmd-passes : (re : Regex) → Cmd.check re policy out ≡ ok tt
  unfolding Cmd.check ◌==◌ lit
  cmd-passes re = rw (mutate-get policy body (lit "Cmd") refl, plain.cmd, Cmd.check) refl

  registry-passes :
      (re : Regex) → Registry.check re policy body ≡ ok tt → Registry.check re policy out ≡ ok tt
  unfolding Registry.check
  registry-passes re h = rw (image_field-mutate policy body) h

  host_config-passes : check_host_config policy (get (lit "HostConfig") out) ≡ ok tt
  unfolding check_host_config
  host_config-passes =
      let (spelled, checked) = Passes-unzip policy hc (forced_host_config-Passes policy [] tt) in
      rw
        (
          (mutate-IsForced policy body [] (empty_host policy body plain)).0,
          entries-from_entries hc,
          check_field_case-passes (lit "HostConfig.") hc host_config_fields policy spelled,
          check_values-passes (check_host_field policy) hc checked,
        )
        refl

  host_gate-passes : HostConfig.check policy out ≡ ok tt
  unfolding HostConfig.check
  host_gate-passes =
      rw
        (
          check_field_case-passes [] out create_body_fields policy
              (out-IsSpelled policy body plain),
          networking-passes policy body plain,
          host_config-passes,
        )
        refl

  gates-pass :
      (re : Regex)
      → Registry.check re policy body ≡ ok tt
      → (g : Gate) → check_gate re g policy out ≡ ok tt
  unfolding check_gate
  gates-pass re image registry_gate = registry-passes re image
  gates-pass re image mount_source_gate = mounts-passes
  gates-pass re image env_file_gate = env-passes
  gates-pass re image host_config_gate = host_gate-passes
  gates-pass re image cmd_gate = cmd-passes re
  gates-pass re image network_endpoints_gate = networks-passes policy body plain

-- A create with none of HostConfig, NetworkingConfig, Volumes, Env and Cmd, whose keys are spelled as
-- the API spells them and whose image the policy accepts, is allowed under every policy: whatever the
-- policy forces into it passes the policy's own gates.
pub execute-plain :
    (re : Regex) (to_vec : Body → Option Text) (policy : Policy) (body : Body)
    → IsPlain body
    → Registry.check re policy body ≡ ok tt
    → (execute re to_vec Chain.new policy body).allowed ≡ true
execute-plain re to_vec policy body plain image =
    (execute-allowed_iff re to_vec policy body).1 (gates-pass policy body plain re image)
