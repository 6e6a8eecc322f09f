-- ===== src/Mutator/Twice/Writes.antt =====
-- Writes into an object, and those of the host configuration made twice.
use docker_socket_policy.Base.{
  Text, false, Option, none, some, List, [], ◌∷◌, ◌≡◌, refl, sym, ap, ◌∙◌, lit, ◌==◌, All,
}
use docker_socket_policy.Base.Map.{Map, insert, insert_comm, insert_idempotent}
use docker_socket_policy.Json.{Value, bool, string}
use docker_socket_policy.Policy.{Policy, ContainerConfig}
use docker_socket_policy.Mutator.{
  strings, set_some, restart_value, log_value, nonempty_list, config_fields, optional_config_fields,
  forced_host_config,
}

-- A write that may be left out.
abbrev pub Write : Type 0
Write = Text × Option Value

unfoldable pub put : Write → Map Value → Map Value
put (k, none) m = m
put (k, some v) m = insert k v m

unfoldable put_all : List Write → Map Value → Map Value
put_all [] m = m
put_all (w ∷ ws) m = put_all ws (put w m)

abbrev Fresh : Text → List Write → Type 0
Fresh k ws = All (λ (w : Write). (k == w.0) ≡ false) ws

abbrev DistinctKeys : List Write → Type 0
DistinctKeys [] = Unit
DistinctKeys (w ∷ ws) = Fresh w.0 ws × DistinctKeys ws

pub put_comm :
    (v w : Write) (m : Map Value) → (v.0 == w.0) ≡ false → put v (put w m) ≡ put w (put v m)
unfolding put
put_comm (j, none) (k, o) m h = refl
put_comm (j, some u) (k, none) m h = refl
put_comm (j, some u) (k, some v) m h = insert_comm j k u v m h

pub put_idempotent : (w : Write) (m : Map Value) → put w (put w m) ≡ put w m
unfolding put
put_idempotent (k, none) m = refl
put_idempotent (k, some v) m = insert_idempotent k v m

put-put_all :
    (w : Write) (ws : List Write) (m : Map Value)
    → Fresh w.0 ws
    → put w (put_all ws m) ≡ put_all ws (put w m)
unfolding put_all
put-put_all w [] m h = refl
put-put_all w (v ∷ ws) m (h, hs) =
    put-put_all w ws (put v m) hs ∙ ap (put_all ws) (put_comm w v m h)

put_all_idempotent :
    (ws : List Write) (m : Map Value) → DistinctKeys ws → put_all ws (put_all ws m) ≡ put_all ws m
unfolding put_all
put_all_idempotent [] m h = refl
put_all_idempotent (w ∷ ws) m (fresh, h) =
    ap (put_all ws) (put-put_all w ws (put w m) fresh)
    ∙ put_all_idempotent ws (put w (put w m)) h
    ∙ ap (put_all ws) (put_idempotent w m)

abbrev pub written : {A : Type 0} → (A → Value) → Option A → Option Value
written value none = none
written value (some a) = some (value a)

pub set_some-put :
    {A : Type 0} (key : Text) (value : A → Value) (o : Option A) {m n : Map Value}
    → m ≡ n
    → set_some key value o m ≡ put (key, written value o) n
unfolding put
set_some-put key value none e = e
set_some-put key value (some a) e = ap (insert key (value a)) e

-- The writes of a policy's container_config.
abbrev forced_writes : Option ContainerConfig → List Write
forced_writes none = (lit "Privileged", some (bool false)) ∷ []
forced_writes (some config) =
    (lit "Privileged", some (bool false))
    ∷ (lit "NetworkMode", written string config.network_mode)
    ∷ (lit "RestartPolicy", written restart_value config.restart_policy)
    ∷ (lit "SecurityOpt", written strings config.security_options)
    ∷ (lit "LogConfig", written (log_value config.log_options) config.log_driver)
    ∷ (lit "GroupAdd", written strings (nonempty_list config.group_add))
    ∷ []

forced_writes-DistinctKeys : (config : Option ContainerConfig) → DistinctKeys (forced_writes config)
unfolding ◌==◌ lit
forced_writes-DistinctKeys none = (tt, tt)
forced_writes-DistinctKeys (some config) = (
  (refl, (refl, (refl, (refl, (refl, tt))))),
  (
    (refl, (refl, (refl, (refl, tt)))),
    ((refl, (refl, (refl, tt))), ((refl, (refl, tt)), ((refl, tt), (tt, tt)))),
  ),
)

fields-put_all :
    (config : Option ContainerConfig) (hc : Map Value)
    → optional_config_fields config (insert (lit "Privileged") (bool false) hc)
      ≡ put_all (forced_writes config) hc
unfolding optional_config_fields config_fields put_all put
fields-put_all none hc = refl
fields-put_all (some config) hc =
    set_some-put (lit "GroupAdd") strings (nonempty_list config.group_add) (
      set_some-put (lit "LogConfig") (log_value config.log_options) config.log_driver (
        set_some-put (lit "SecurityOpt") strings config.security_options (
          set_some-put (lit "RestartPolicy") restart_value config.restart_policy
            (set_some-put (lit "NetworkMode") string config.network_mode refl))))

pub forced_host_config_idempotent :
    (policy : Policy) (hc : Map Value)
    → forced_host_config policy (forced_host_config policy hc) ≡ forced_host_config policy hc
unfolding forced_host_config
forced_host_config_idempotent policy hc =
    let config = policy.container_config in
    let once = fields-put_all config hc in
    ap (forced_host_config policy) once
    ∙ fields-put_all config (put_all (forced_writes config) hc)
    ∙ put_all_idempotent (forced_writes config) hc (forced_writes-DistinctKeys config)
    ∙ sym once
