-- ===== src/Mutator/Twice.antt =====
-- The mutator on a body that it made.
mod Writes
mod Endpoints
use docker_socket_policy.Base.{
  Text, false, Option, none, some, List, [], ◌∷◌, ◌≡◌, refl, sym, ap, ◌∙◌, lit, ◌==◌, ==_refl, All,
  Bool-cases, Option-cases, inl, inr, any,
}
use docker_socket_policy.Base.Map.{
  Map, get, insert, keys, insert_comm, insert_idempotent, get-insert_self,
}
use docker_socket_policy.Json.{Value, Body, bool, string, obj, as_object}
use docker_socket_policy.Json.Laws.{as_object-obj, entries-from_entries}
use docker_socket_policy.Policy.{Policy, ContainerConfig}
use docker_socket_policy.Gates.NetworkEndpoints.{
  forced_network_mode, endpoints_config, foreign_network, detached_network_mode,
}
use docker_socket_policy.Mutator.{
  strings, kept_entry, forced_endpoints, networking_object, set_endpoints, force_found,
  force_endpoints, set_some, restart_value, log_value, nonempty_list, config_fields,
  optional_config_fields, forced_host_config, host_config_value, forced_user, config_top, mutate,
}
use docker_socket_policy.Mutator.Forced.{
  endpoints_cases, force_endpoints_err, force_endpoints-none, force_endpoints-some, with_user,
  config_top_free, config_top_forced, mutate_object, mutate_other, mutate-IsForced,
}
use docker_socket_policy.Mutator.Endpoints.{endpoints_config-set, no_foreign, force_found_foreign}
use Writes.{
  Write, put, put_comm, put_idempotent, written, set_some-put, forced_host_config_idempotent,
}
use Endpoints.{force_endpoints_idempotent}

-- A write other than that of the endpoints stays in force when they are set.
set_endpoints_keeps :
    (w : Write) (forced : Map Value) (body : Body)
    → (w.0 == lit "NetworkingConfig") ≡ false
    → put w body ≡ body
    → put w (set_endpoints forced body) ≡ set_endpoints forced body
unfolding set_endpoints put
set_endpoints_keeps w forced body other_key e =
    put_comm w (lit "NetworkingConfig", some _) body other_key
    ∙ ap (put (lit "NetworkingConfig", some _)) e

force_found_keeps :
    (w : Write) (mode : Text) (eps : Map Value) (body : Body)
    → (w.0 == lit "NetworkingConfig") ≡ false
    → put w body ≡ body
    → put w (force_found mode eps body) ≡ force_found mode eps body
unfolding force_found
force_found_keeps w mode eps body other_key e =
    elim (Bool-cases (any (foreign_network mode) (keys eps))) [
      | inl t ↦ rw (t, force_found) e
      | inr f ↦
          rw (f, force_found) (set_endpoints_keeps w (forced_endpoints mode eps) body other_key e)
    ]

force_endpoints_keeps :
    (w : Write) (mode : Text) (body : Body)
    → (w.0 == lit "NetworkingConfig") ≡ false
    → put w body ≡ body
    → put w (force_endpoints mode body) ≡ force_endpoints mode body
force_endpoints_keeps w mode body other_key e = elim (endpoints_cases (endpoints_config body)) [
  | inl c ↦ rw (force_endpoints_err mode body c) e
  | inr (inl c) ↦
      rw (force_endpoints-none mode body c) (force_found_keeps w mode [] body other_key e)
  | inr (inr (eps, c)) ↦
      rw (force_endpoints-some mode body eps c) (force_found_keeps w mode eps body other_key e)
]

-- Nor do the writes at the top level undo one of the host configuration.
with_user-put :
    (policy : Policy) (body : Body)
    → with_user policy body
      ≡ put (lit "User", written string (forced_user policy.container_config)) body
with_user-put policy body =
    set_some-put (lit "User") string (forced_user policy.container_config) refl

with_user_keeps :
    (w : Write) (policy : Policy) (body : Body)
    → (w.0 == lit "User") ≡ false
    → put w body ≡ body
    → put w (with_user policy body) ≡ with_user policy body
with_user_keeps w policy body other_key e =
    let user : Write = (lit "User", written string (forced_user policy.container_config)) in
    let once = with_user-put policy body in
    ap (put w) once ∙ put_comm w user body other_key ∙ ap (put user) e ∙ sym once

with_user_idempotent :
    (policy : Policy) (body : Body)
    → with_user policy (with_user policy body) ≡ with_user policy body
with_user_idempotent policy body =
    let once = with_user-put policy body in
    ap (with_user policy) once ∙ with_user-put policy _ ∙ put_idempotent _ body ∙ sym once

config_top_keeps :
    (policy : Policy) (v : Value) (body : Body)
    → insert (lit "HostConfig") v body ≡ body
    → insert (lit "HostConfig") v (config_top policy body) ≡ config_top policy body
unfolding put lit ◌==◌
config_top_keeps policy v body e =
    let user = with_user_keeps (lit "HostConfig", some v) policy body refl e in
    elim (Option-cases (forced_network_mode policy)) [
      | inl c ↦ rw (config_top_free policy body c) user
      | inr (mode, c) ↦
          rw (config_top_forced policy body mode c) (
            force_endpoints_keeps (lit "HostConfig", some v) mode (with_user policy body) refl user)
    ]

-- The user that was written stays while the endpoints are set.
user_kept :
    (policy : Policy) (mode : Text) (body : Body)
    → with_user policy (force_endpoints mode (with_user policy body))
      ≡ force_endpoints mode (with_user policy body)
unfolding lit ◌==◌
user_kept policy mode body =
    let user : Write = (lit "User", written string (forced_user policy.container_config)) in
    with_user-put policy _
    ∙ force_endpoints_keeps user mode (with_user policy body) refl
        (sym (with_user-put policy _) ∙ with_user_idempotent policy body)

config_top_idempotent :
    (policy : Policy) (body : Body)
    → config_top policy (config_top policy body) ≡ config_top policy body
config_top_idempotent policy body = elim (Option-cases (forced_network_mode policy)) [
  | inl c ↦
      let once = config_top_free policy body c in
      ap (config_top policy) once
      ∙ config_top_free policy _ c
      ∙ with_user_idempotent policy body
      ∙ sym once
  | inr (mode, c) ↦
      let once = config_top_forced policy body mode c in
      ap (config_top policy) once
      ∙ config_top_forced policy _ mode c
      ∙ ap (force_endpoints mode) (user_kept policy mode body)
      ∙ force_endpoints_idempotent mode (with_user policy body)
      ∙ sym once
]

host_config_written :
    (body : Body) (hc : Map Value)
    → get (lit "HostConfig") body ≡ some (obj hc)
    → as_object (host_config_value body) ≡ some hc
unfolding host_config_value
host_config_written body hc e = rw (host_config_value, e) (as_object-obj hc)

mutate_again :
    (policy : Policy) (body : Body) (hc : Map Value)
    → as_object (host_config_value body) ≡ some hc
    → mutate policy (mutate policy body) ≡ mutate policy body
mutate_again policy body hc h =
    let forced = forced_host_config policy hc in
    let once = mutate_object policy body hc h in
    let kept =
      config_top_keeps policy (obj forced) _
        (insert_idempotent (lit "HostConfig") (obj forced) body) in
    mutate_object policy (mutate policy body) forced
      (host_config_written (mutate policy body) forced (mutate-IsForced policy body hc h).0)
    ∙ ap (λ f. config_top policy (insert (lit "HostConfig") (obj f) (mutate policy body)))
        (forced_host_config_idempotent policy hc)
    ∙ ap (λ b. config_top policy (insert (lit "HostConfig") (obj forced) b)) once
    ∙ ap (config_top policy) kept
    ∙ config_top_idempotent policy _
    ∙ sym once

-- A body that the mutator made is left as it is: applying the mutator twice is applying it once.
pub mutate_idempotent :
    (policy : Policy) (body : Body) → mutate policy (mutate policy body) ≡ mutate policy body
mutate_idempotent policy body = elim (Option-cases (as_object (host_config_value body))) [
  | inl h ↦ ap (mutate policy) (mutate_other policy body h)
  | inr (hc, h) ↦ mutate_again policy body hc h
]
