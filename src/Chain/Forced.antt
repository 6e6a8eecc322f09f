-- ===== src/Chain/Forced.antt =====
-- What the policy forces on every create that the chain allows.
use docker_socket_policy.Base.{
  Text, true, Option, none, some, [], ◌≡◌, refl, ok, lit, Option-cases, inl, inr,
}
use docker_socket_policy.Base.Map.{Map, get}
use docker_socket_policy.Json.{
  Value, null, bool, number, string, array, object, Body, as_object, obj, entries,
}
use docker_socket_policy.Policy.{Regex, Policy}
use docker_socket_policy.Gates.HostConfig.{check_host_config}
use docker_socket_policy.Gates.HostConfig.Passed.{check_host_config-ok}
use docker_socket_policy.Mutator.{mutate, host_config_value, forced_host_config}
use docker_socket_policy.Mutator.Fields.{IsForced}
use docker_socket_policy.Mutator.Forced.{mutate-IsForced, mutate_other}
use docker_socket_policy.Chain
use docker_socket_policy.Chain.{host_config_gate, check_gate, execute}
use docker_socket_policy.Chain.Verdict.{execute-allowed_iff, execute-modified_body}

-- A HostConfig that is absent, null or an object, as the mutator takes it.
abbrev HasHostConfig : Option Value → Type 0
HasHostConfig o =
    (hc : Map Value) × (as_object (elim o [ none ↦ obj [] | some null ↦ obj [] | some v ↦ v ])
      ≡ some hc)

check_host_config-HasHostConfig :
    (policy : Policy) (o : Option Value) → check_host_config policy o ≡ ok tt → HasHostConfig o
unfolding check_host_config
check_host_config-HasHostConfig policy none h = ([], refl)
check_host_config-HasHostConfig policy (some null) h = ([], refl)
check_host_config-HasHostConfig policy (some (object o)) h = (entries o, refl)
check_host_config-HasHostConfig policy (some (bool b)) h = absurd cc
check_host_config-HasHostConfig policy (some (number n)) h = absurd cc
check_host_config-HasHostConfig policy (some (string s)) h = absurd cc
check_host_config-HasHostConfig policy (some (array a)) h = absurd cc

pub mutate-HasHostConfig :
    (re : Regex) (to_vec : Body → Option Text) (policy : Policy) (body : Body)
    → (execute re to_vec Chain.new policy body).allowed ≡ true
    → (hc : Map Value) × (as_object (host_config_value body) ≡ some hc)
unfolding host_config_value check_gate
mutate-HasHostConfig re to_vec policy body h =
    let gate = (execute-allowed_iff re to_vec policy body).0 h host_config_gate in
    elim (Option-cases (as_object (host_config_value body))) [
      | inr found ↦ found
      | inl e ↦
          let same = mutate_other policy body e in
          check_host_config-HasHostConfig policy (get (lit "HostConfig") body)
            (check_host_config-ok policy body (rw same at gate))
    ]

-- A create that the chain allows is sent on with a HostConfig that is an object, in which Privileged is
-- false and every field that the policy's container_config sets has its value.
pub execute-IsForced :
    (re : Regex) (to_vec : Body → Option Text) (policy : Policy) (body : Body)
    → (execute re to_vec Chain.new policy body).allowed ≡ true
    → (hc : Map Value) × ((execute re to_vec Chain.new policy body).modified_body
        ≡ to_vec (mutate policy body))
      × (get (lit "HostConfig") (mutate policy body) ≡ some (obj hc))
      × IsForced policy hc
execute-IsForced re to_vec policy body h =
    let (hc, e) = mutate-HasHostConfig re to_vec policy body h in
    let (found, forced) = mutate-IsForced policy body hc e in
    (forced_host_config policy hc, execute-modified_body re to_vec policy body h, found, forced)
