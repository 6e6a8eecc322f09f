-- ===== src/Examples/Creates.antt =====
-- The mutator and the gates on the create of the example.
use docker_socket_policy.Base.{true, some, [], ◌∷◌, ◌≡◌, refl, lit, ok, Elem, ◌↔◌}
use docker_socket_policy.Base.Map.{get}
use docker_socket_policy.Json.{string, array, from_list, obj, Body}
use docker_socket_policy.Gates.Zero.{IsZero}
use docker_socket_policy.Gates.HostConfig.Rules.{check-default_deny, check-IsMode, IsMode}
use docker_socket_policy.Gates.MountSource.Rules.{IsBindValue}
use docker_socket_policy.Gates.MountSource.Mounts.{check-mounts, Entries, IsMountValue}
use docker_socket_policy.Gates.Cmd.Flags.{check_args-AllFlags, AllFlags}
use docker_socket_policy.Mutator.{mutate}
use docker_socket_policy.Mutator.Twice.{mutate_idempotent}
use docker_socket_policy.Mutator.Rest.{written_fields, SameBut, IsKept, mutate-SameBut}
use docker_socket_policy.Chain.Safe.{IsSafeCreate, execute-IsSafeCreate}
use docker_socket_policy.Chain.Plain.{execute-plain}
use docker_socket_policy.Chain
use docker_socket_policy.Chain.{Gate, check_gate, execute}
use docker_socket_policy.Chain.Verdict.{execute-allowed_iff, execute-modified_body}
use docker_socket_policy.Examples.{
  program, engine, web, create_body, host_config, arguments, handler,
}

execute-allowed_iff_example :
    (execute engine handler.to_vec Chain.new web create_body).allowed ≡ true
    ↔ ((g : Gate) → check_gate engine g web (mutate web create_body) ≡ ok tt)
execute-allowed_iff_example = execute-allowed_iff engine handler.to_vec web create_body

execute-modified_body_example :
    (execute engine handler.to_vec Chain.new web create_body).modified_body ≡ some (lit "{}")
unfolding program
execute-modified_body_example = execute-modified_body engine handler.to_vec web create_body refl

-- A create that asks for the host's PID namespace.
abbrev host_pid : Body
host_pid =
    (lit "HostConfig", obj ((lit "PidMode", string (lit "host")) ∷ []))
    ∷ (lit "Image", string (lit "ghcr.io/acme/app:1"))
    ∷ []

check-default_deny_example : IsZero (array (from_list []))
unfolding program
check-default_deny_example =
    check-default_deny web create_body (obj host_config) host_config (lit "CapAdd")
      (array (from_list [])) refl refl refl refl refl refl

check-IsMode_example : IsMode [] (string [])
unfolding program
check-IsMode_example =
    check-IsMode web create_body (obj host_config) host_config (lit "PidMode", []) (string []) refl
      refl refl Elem.here refl

check-mounts_example :
    Entries (IsBindValue web) (get (lit "Binds") host_config)
    × Entries (IsMountValue web) (get (lit "Mounts") host_config)
unfolding program
check-mounts_example = check-mounts web create_body host_config refl refl

check_args-AllFlags_example : AllFlags engine web arguments
unfolding program
check_args-AllFlags_example = check_args-AllFlags engine web arguments refl

mutate_idempotent_example : mutate web (mutate web create_body) ≡ mutate web create_body
mutate_idempotent_example = mutate_idempotent web create_body

execute-IsSafeCreate_example :
    ((execute engine handler.to_vec Chain.new web create_body).modified_body
      ≡ handler.to_vec (mutate web create_body))
    × IsSafeCreate engine web (mutate web create_body)
unfolding program
execute-IsSafeCreate_example = execute-IsSafeCreate engine handler.to_vec web create_body refl

mutate-SameBut_example :
    SameBut written_fields create_body (mutate web create_body)
    × IsKept (some host_config) create_body (mutate web create_body)
unfolding program
mutate-SameBut_example = mutate-SameBut web create_body

-- A create of nothing but an image.
abbrev plain_body : Body
plain_body = (lit "Image", string (lit "ghcr.io/acme/app:1")) ∷ []

execute-plain_example : (execute engine handler.to_vec Chain.new web plain_body).allowed ≡ true
unfolding program
execute-plain_example =
    execute-plain engine handler.to_vec web plain_body
      (record {
        host_config = refl;
        networking = refl;
        volumes = refl;
        env = refl;
        cmd = refl;
        spelled = (refl, tt);
      })
      refl
