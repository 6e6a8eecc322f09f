-- ===== src/Chain.antt =====
-- rs/src/middleware.rs: the chain of mutators and gates.
pub mod Verdict
pub mod Forced
pub mod Safe
pub mod Forcing
pub mod Plain
use docker_socket_policy.Base.{
  Text, Bool, true, false, Option, none, some, List, [], ◌∷◌, Result, ok, err,
}
use docker_socket_policy.Json.{Body}
use docker_socket_policy.Message.{Message, create_allowed}
use docker_socket_policy.Policy.{Regex, Policy}
use docker_socket_policy.Gates.Registry
use docker_socket_policy.Gates.MountSource
use docker_socket_policy.Gates.HostConfig
use docker_socket_policy.Gates.EnvFile
use docker_socket_policy.Gates.Cmd
use docker_socket_policy.Gates.NetworkEndpoints
use docker_socket_policy.Mutator.{mutate}

-- The implementations of the traits `Gate` and `Mutator`.
pub data Gate : Type 0 where
  registry_gate mount_source_gate env_file_gate host_config_gate cmd_gate network_endpoints_gate :
      Gate

pub data Mutator : Type 0 where
  container_config_mutator : Mutator

pub record Chain : Type 0 where
  pub gates : List Gate
  pub mutators : List Mutator

pub record GateResult : Type 0 where
  pub allowed : Bool
  pub reason : Message
  pub modified_body : Option Text

-- `Chain::new`
abbrev pub new : Chain
new = record {
  gates =
      registry_gate ∷ mount_source_gate ∷ env_file_gate ∷ host_config_gate ∷ cmd_gate
      ∷ network_endpoints_gate ∷ [];
  mutators = container_config_mutator ∷ [];
}

-- `Gate::check`; no gate reads the method or the path.
unfoldable pub check_gate : Regex → Gate → Policy → Body → Result Message (Unit {0})
check_gate re registry_gate policy body = Registry.check re policy body
check_gate re mount_source_gate policy body = MountSource.check policy body
check_gate re env_file_gate policy body = EnvFile.check policy body
check_gate re host_config_gate policy body = HostConfig.check policy body
check_gate re cmd_gate policy body = Cmd.check re policy body
check_gate re network_endpoints_gate policy body = NetworkEndpoints.check policy body

unfoldable pub apply_mutator : Mutator → Policy → Body → Body
apply_mutator container_config_mutator policy body = mutate policy body

unfoldable pub mutate_all : List Mutator → Policy → Body → Body
mutate_all [] policy body = body
mutate_all (m ∷ ms) policy body = mutate_all ms policy (apply_mutator m policy body)

-- The first error of the gates.
unfoldable pub first_denial : Regex → List Gate → Policy → Body → Option Message
first_denial re [] policy body = none
first_denial re (g ∷ gs) policy body =
    let later = first_denial re gs policy body in
    elim (check_gate re g policy body) [ err reason ↦ some reason | ok _ ↦ later ]

-- `to_vec` is serde_json's printer; `none` is its error.
unfoldable pub execute : Regex → (Body → Option Text) → Chain → Policy → Body → GateResult
execute re to_vec chain policy body =
    let mutated = mutate_all chain.mutators policy body in
    elim (first_denial re chain.gates policy mutated) [
      | some reason ↦ record { allowed = false; reason = reason; modified_body = none }
      | none ↦ record { allowed = true; reason = create_allowed; modified_body = to_vec mutated }
    ]
