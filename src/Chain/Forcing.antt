-- ===== src/Chain/Forcing.antt =====
-- What the policy forces passes the policy's own gates.
use docker_socket_policy.Base.{
  Text, true, false, Option, none, some, List, [], ◌∷◌, ◌≡◌, refl, ok, lit, All, map, ◌==◌, ==_refl,
  arith, Elem, ◌||◌, ensure, Bool, to_lower, is_upper,
}
use docker_socket_policy.Base.Map.{Map, All-insert}
use docker_socket_policy.Json.{Value, bool, string}
use docker_socket_policy.Json.Laws.{to_list-from_list}
use docker_socket_policy.Policy.{Policy, ContainerConfig}
use docker_socket_policy.Gates.Passing.{IsSpelled, IsChecked}
use docker_socket_policy.Message.{Message}
use docker_socket_policy.Gates.{read_as, fold_key, is_zero_value}
use docker_socket_policy.Gates.HostConfig.{
  check_host_field, check_other_field, host_config_modes, check_security_opt, check_security_opts,
  policy_security_options, same_strings, forced_groups, equals_groups, equals_forced_groups,
}
use docker_socket_policy.Gates.HostConfig.Fields.{
  host_config_fields, host_config_any_value, no_new_privileges,
}
use docker_socket_policy.Gates.MountSource.{contains_entry}
use docker_socket_policy.Gates.MountSource.Rules.{Elem-contains_entry}
use docker_socket_policy.Mutator.{
  strings, set_some, restart_value, log_value, nonempty_list, config_fields, optional_config_fields,
  forced_host_config,
}

pub All-set_some :
    {A : Type 0} (P : Text × Value → Type 0) (key : Text) (value : A → Value) (o : Option A)
    (m : Map Value)
    → ((a : A) → o ≡ some a → P (key, value a))
    → All P m
    → All P (set_some key value o m)
All-set_some P key value none m h hs = hs
All-set_some P key value (some a) m h hs = All-insert P key (value a) m (h a refl) hs

own_options :
    (all allowed : List Text) (service : Text)
    → ((s : Text) → Elem s all → Elem s allowed)
    → check_security_opts allowed service (map string all) ≡ ok tt
unfolding check_security_opts
own_options [] allowed service h = refl
own_options (s ∷ all) allowed service h =
    let listed : contains_entry allowed s ≡ true = Elem-contains_entry allowed s (h s Elem.here) in
    let passes : (contains_entry no_new_privileges s || contains_entry allowed s) ≡ true =
      ground arith in
    rw passes (own_options all allowed service (λ t e. h t (Elem.there e)))

ensure-or_true : (b : Bool) (e : Message) → ensure (b || true) e ≡ ok tt
ensure-or_true true e = refl
ensure-or_true false e = refl

same_strings_refl : (l : List Text) → same_strings (map string l) l ≡ true
unfolding same_strings
same_strings_refl [] = refl
same_strings_refl (s ∷ l) = rw (==_refl s) (same_strings_refl l)

nonempty_list-some :
    (o : Option (List Text)) (groups : List Text)
    → nonempty_list o ≡ some groups
    → (g : Text) × (gs : List Text) × (groups ≡ g ∷ gs) × (o ≡ some (g ∷ gs))
unfolding nonempty_list
nonempty_list-some none groups h = absurd cc
nonempty_list-some (some []) groups h = absurd cc
nonempty_list-some (some (g ∷ gs)) groups h = (g, gs, cc, refl)

-- The gate passes what the policy forces into HostConfig.
module _ (policy : Policy) (config : ContainerConfig)
    (configured : policy.container_config ≡ some config) where
  own_security_options :
      (options : List Text)
      → config.security_options ≡ some options
      → policy_security_options policy ≡ options
  unfolding policy_security_options
  own_security_options options e = rw (configured, e)

  own_groups :
      (groups : List Text) → config.group_add ≡ some groups → forced_groups policy ≡ some groups
  unfolding forced_groups
  own_groups groups e = rw (configured, e)

  security-passes :
      (options : List Text)
      → config.security_options ≡ some options
      → check_host_field policy (lit "SecurityOpt") (strings options) ≡ ok tt
  unfolding check_host_field check_security_opt host_config_any_value contains_entry ◌==◌ lit
      strings
  security-passes options e =
      rw (own_security_options options e, to_list-from_list (map string options))
        (own_options options options policy.service_name (λ s k. k))

  groups-passes :
      (groups : List Text)
      → nonempty_list config.group_add ≡ some groups
      → check_host_field policy (lit "GroupAdd") (strings groups) ≡ ok tt
  unfolding check_host_field host_config_any_value contains_entry ◌==◌ lit strings
      equals_forced_groups equals_groups
  groups-passes groups e =
      let (g, gs, same, own) = nonempty_list-some config.group_add groups e in
      rw
        (
          same,
          own_groups (g ∷ gs) own,
          to_list-from_list (map string (g ∷ gs)),
          same_strings_refl (g ∷ gs),
        )
        (ensure-or_true (is_zero_value (strings (g ∷ gs))) _)

-- An entry of HostConfig that the gate passes.
abbrev pub Passes : Policy → Text × Value → Type 0
Passes policy p = IsSpelled host_config_fields p × IsChecked (check_host_field policy) p

-- No key that the mutator writes is another spelling of a field.
spelled_privileged : read_as (lit "Privileged") host_config_fields ≡ none
unfolding read_as fold_key host_config_fields to_lower is_upper ◌==◌ lit
spelled_privileged = refl

spelled_network_mode : read_as (lit "NetworkMode") host_config_fields ≡ none
unfolding read_as fold_key host_config_fields to_lower is_upper ◌==◌ lit
spelled_network_mode = refl

spelled_restart_policy : read_as (lit "RestartPolicy") host_config_fields ≡ none
unfolding read_as fold_key host_config_fields to_lower is_upper ◌==◌ lit
spelled_restart_policy = refl

spelled_security_opt : read_as (lit "SecurityOpt") host_config_fields ≡ none
unfolding read_as fold_key host_config_fields to_lower is_upper ◌==◌ lit
spelled_security_opt = refl

spelled_log_config : read_as (lit "LogConfig") host_config_fields ≡ none
unfolding read_as fold_key host_config_fields to_lower is_upper ◌==◌ lit
spelled_log_config = refl

spelled_group_add : read_as (lit "GroupAdd") host_config_fields ≡ none
unfolding read_as fold_key host_config_fields to_lower is_upper ◌==◌ lit
spelled_group_add = refl

privileged-passes :
    (policy : Policy) → check_host_field policy (lit "Privileged") (bool false) ≡ ok tt
unfolding check_host_field check_other_field host_config_modes host_config_any_value contains_entry
    ◌==◌ lit is_zero_value
privileged-passes policy = refl

-- The fields among those that may hold any value.
any_value-passes :
    (policy : Policy) (v : Value)
    → (check_host_field policy (lit "NetworkMode") v ≡ ok tt)
      × (check_host_field policy (lit "RestartPolicy") v ≡ ok tt)
      × (check_host_field policy (lit "LogConfig") v ≡ ok tt)
unfolding check_host_field host_config_any_value contains_entry ◌==◌ lit
any_value-passes policy v = (refl, refl, refl)

config_fields-Passes :
    (policy : Policy) (config : ContainerConfig) (hc : Map Value)
    → policy.container_config ≡ some config
    → All (Passes policy) hc
    → All (Passes policy) (config_fields config hc)
unfolding config_fields
config_fields-Passes policy config hc configured all =
    let P = Passes policy in
    All-set_some P (lit "GroupAdd") strings (nonempty_list config.group_add) _
      (λ groups e. (spelled_group_add, groups-passes policy config configured groups e))
      (All-set_some P (lit "LogConfig") (log_value config.log_options) config.log_driver _
        (λ driver e. (spelled_log_config, (any_value-passes policy _).2))
        (All-set_some P (lit "SecurityOpt") strings config.security_options _
          (λ options e. (spelled_security_opt, security-passes policy config configured options e))
          (All-set_some P (lit "RestartPolicy") restart_value config.restart_policy _
            (λ rp e. (spelled_restart_policy, (any_value-passes policy _).1))
            (All-set_some P (lit "NetworkMode") string config.network_mode hc
              (λ mode e. (spelled_network_mode, (any_value-passes policy _).0)) all))))

optional-Passes :
    (policy : Policy) (o : Option ContainerConfig) (hc : Map Value)
    → policy.container_config ≡ o
    → All (Passes policy) hc
    → All (Passes policy) (optional_config_fields o hc)
unfolding optional_config_fields
optional-Passes policy none hc e all = all
optional-Passes policy (some config) hc e all = config_fields-Passes policy config hc e all

-- Whatever the policy forces into a HostConfig that passes, it passes still.
pub forced_host_config-Passes :
    (policy : Policy) (hc : Map Value)
    → All (Passes policy) hc
    → All (Passes policy) (forced_host_config policy hc)
unfolding forced_host_config
forced_host_config-Passes policy hc all = optional-Passes policy policy.container_config _ refl (
    All-insert (Passes policy) (lit "Privileged") (bool false) hc
      (spelled_privileged, privileged-passes policy) all)
