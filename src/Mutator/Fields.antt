-- ===== src/Mutator/Fields.antt =====
-- The fields of the HostConfig that the mutator forces.
use docker_socket_policy.Base.{
  Text, false, Option, none, some, List, [], ◌∷◌, ◌≡◌, refl, ◌∙◌, ◌==◌, lit, any, arith,
}
use docker_socket_policy.Base.Map.{Map, get, insert, get-insert_self, get-insert_ne}
use docker_socket_policy.Json.{Value, bool, string}
use docker_socket_policy.Policy.{Policy, ContainerConfig}
use docker_socket_policy.Mutator.{
  strings, set_some, restart_value, log_value, nonempty_list, config_fields, optional_config_fields,
  forced_host_config,
}

module _ {ℓ} {A : Type ℓ} where
  pub get-set_some_ne :
      (k key : Text) (value : A → Value) (o : Option A) (m : Map Value)
      → (key == k) ≡ false
      → get k (set_some key value o m) ≡ get k m
  get-set_some_ne k key value none m h = refl
  get-set_some_ne k key value (some a) m h = get-insert_ne k key (value a) m h

  -- The value stands under the key, if the policy sets one.
  abbrev pub Forces : Text → (A → Value) → Option A → Map Value → Type 0
  Forces key value none hc = Unit
  Forces key value (some a) hc = get key hc ≡ some (value a)

  get-set_some_self :
      (key : Text) (value : A → Value) (o : Option A) (m : Map Value)
      → Forces key value o (set_some key value o m)
  get-set_some_self key value none m = tt
  get-set_some_self key value (some a) m = get-insert_self key (value a) m

  -- A later write under another key leaves what is forced.
  Forces-later :
      {B : Type 0} (key k : Text) (value : A → Value) (o : Option A) (other : B → Value)
      (p : Option B) (m : Map Value)
      → (k == key) ≡ false
      → Forces key value o m
      → Forces key value o (set_some k other p m)
  Forces-later key k value none other p m h f = tt
  Forces-later key k value (some a) other none m h f = f
  Forces-later key k value (some a) other (some b) m h f = get-insert_ne key k (other b) m h ∙ f

-- A HostConfig with the policy's container configuration.
pub record IsConfigured (config : ContainerConfig) (hc : Map Value) : Type 0 where
  pub network_mode : Forces (lit "NetworkMode") string config.network_mode hc
  pub restart_policy : Forces (lit "RestartPolicy") restart_value config.restart_policy hc
  pub security_options : Forces (lit "SecurityOpt") strings config.security_options hc
  pub log_config : Forces (lit "LogConfig") (log_value config.log_options) config.log_driver hc
  pub group_add : Forces (lit "GroupAdd") strings (nonempty_list config.group_add) hc

config_fields-IsConfigured :
    (config : ContainerConfig) (hc : Map Value) → IsConfigured config (config_fields config hc)
unfolding config_fields ◌==◌ lit
config_fields-IsConfigured config hc =
    let h1 = set_some (lit "NetworkMode") string config.network_mode hc in
    let h2 = set_some (lit "RestartPolicy") restart_value config.restart_policy h1 in
    let h3 = set_some (lit "SecurityOpt") strings config.security_options h2 in
    let h4 = set_some (lit "LogConfig") (log_value config.log_options) config.log_driver h3 in
    let groups = nonempty_list config.group_add in
    let log = log_value config.log_options in
    record {
      network_mode = Forces-later _ _ string config.network_mode strings groups h4 refl (
          Forces-later _ _ string config.network_mode log config.log_driver h3 refl (
            Forces-later _ _ string config.network_mode strings config.security_options h2 refl (
              Forces-later _ _ string config.network_mode restart_value config.restart_policy h1
                refl (get-set_some_self _ string config.network_mode hc))));
      restart_policy = Forces-later _ _ restart_value config.restart_policy strings groups h4 refl (
          Forces-later _ _ restart_value config.restart_policy log config.log_driver h3 refl (
            Forces-later _ _ restart_value config.restart_policy strings config.security_options h2
              refl (get-set_some_self _ restart_value config.restart_policy h1)));
      security_options = Forces-later _ _ strings config.security_options strings groups h4 refl (
          Forces-later _ _ strings config.security_options log config.log_driver h3 refl
            (get-set_some_self _ strings config.security_options h2));
      log_config =
          Forces-later _ _ log config.log_driver strings groups h4 refl
            (get-set_some_self _ log config.log_driver h3);
      group_add = get-set_some_self _ strings groups h4;
    }

config_fields-get :
    (config : ContainerConfig) (hc : Map Value) (k : Text)
    → (lit "NetworkMode" == k) ≡ false
    → (lit "RestartPolicy" == k) ≡ false
    → (lit "SecurityOpt" == k) ≡ false
    → (lit "LogConfig" == k) ≡ false
    → (lit "GroupAdd" == k) ≡ false
    → get k (config_fields config hc) ≡ get k hc
unfolding config_fields
config_fields-get config hc k n r s l g =
    get-set_some_ne k _ strings (nonempty_list config.group_add) _ g
    ∙ get-set_some_ne k _ (log_value config.log_options) config.log_driver _ l
    ∙ get-set_some_ne k _ strings config.security_options _ s
    ∙ get-set_some_ne k _ restart_value config.restart_policy _ r
    ∙ get-set_some_ne k _ string config.network_mode hc n

config_fields-privileged :
    (config : ContainerConfig) (hc : Map Value)
    → get (lit "Privileged") (config_fields config hc) ≡ get (lit "Privileged") hc
unfolding ◌==◌ lit
config_fields-privileged config hc =
    config_fields-get config hc (lit "Privileged") refl refl refl refl refl

-- What the mutator forces, for a policy with or without a container configuration.
pub record IsForced (policy : Policy) (hc : Map Value) : Type 0 where
  pub privileged : get (lit "Privileged") hc ≡ some (bool false)
  pub configured :
      (config : ContainerConfig) → policy.container_config ≡ some config → IsConfigured config hc

optional-privileged :
    (config : Option ContainerConfig) (hc : Map Value)
    → get (lit "Privileged") (optional_config_fields config hc) ≡ get (lit "Privileged") hc
unfolding optional_config_fields
optional-privileged none hc = refl
optional-privileged (some config) hc = config_fields-privileged config hc

optional-IsConfigured :
    (o : Option ContainerConfig) (hc : Map Value) (config : ContainerConfig)
    → o ≡ some config
    → IsConfigured config (optional_config_fields o hc)
unfolding optional_config_fields
optional-IsConfigured o hc config e =
    rw (e, optional_config_fields) (config_fields-IsConfigured config hc)

pub forced_host_config-IsForced :
    (policy : Policy) (hc : Map Value) → IsForced policy (forced_host_config policy hc)
unfolding forced_host_config
forced_host_config-IsForced policy hc =
    let base = insert (lit "Privileged") (bool false) hc in
    record {
      privileged =
          optional-privileged policy.container_config base
          ∙ get-insert_self (lit "Privileged") (bool false) hc;
      configured = optional-IsConfigured policy.container_config base;
    }

-- The fields of HostConfig that the mutator may write.
abbrev pub forced_fields : List Text
forced_fields =
    lit "Privileged"
    ∷ lit "NetworkMode"
    ∷ lit "RestartPolicy"
    ∷ lit "SecurityOpt"
    ∷ lit "LogConfig"
    ∷ lit "GroupAdd"
    ∷ []

optional-get :
    (o : Option ContainerConfig) (hc : Map Value) (k : Text)
    → any (λ f. f == k) forced_fields ≡ false
    → get k (optional_config_fields o hc) ≡ get k hc
unfolding optional_config_fields
optional-get none hc k other = refl
optional-get (some config) hc k other =
    config_fields-get config hc k (ground arith) (ground arith) (ground arith) (ground arith)
      (ground arith)

pub forced_host_config-get :
    (policy : Policy) (hc : Map Value) (k : Text)
    → any (λ f. f == k) forced_fields ≡ false
    → get k (forced_host_config policy hc) ≡ get k hc
unfolding forced_host_config
forced_host_config-get policy hc k other =
    optional-get policy.container_config _ k other
    ∙ get-insert_ne k (lit "Privileged") (bool false) hc (ground arith)
