-- ===== src/Gates/EnvFile/Rules.antt =====
-- What EnvFileGate lets pass.
use docker_socket_policy.Base.{
  Text, true, some, List, [], ◌∷◌, ◌≡◌, refl, ◌≢◌, ok, ensure, ensure-eq-ok, >>-eq-ok, lit, arith,
}
use docker_socket_policy.Base.Map.{Map, get}
use docker_socket_policy.Json.{Value, Body, as_array}
use docker_socket_policy.Policy.{Policy}
use docker_socket_policy.Gates.MountSource.{object_field}
use docker_socket_policy.Gates.EnvFile.{no_env, no_host_env, check_env, check}

-- Env is not a list with entries.
abbrev pub NoEnv : Map Value → Type 0
NoEnv m =
    (v : Value) (env : List Value) → get (lit "Env") m ≡ some v → as_array v ≡ some env → env ≡ []

no_env-NoEnv : (m : Map Value) → no_env m ≡ true → NoEnv m
unfolding no_env
no_env-NoEnv m h v [] g e = refl
no_env-NoEnv m h v (x ∷ env) g e = absurd (ground arith)

check-check_env :
    (policy : Policy) (body : Body) (env_file : Text)
    → policy.env_file ≡ some env_file
    → env_file ≢ []
    → check policy body ≡ ok tt
    → check_env policy env_file body ≡ ok tt
unfolding check
check-check_env policy body [] e n h = absurd (n refl)
check-check_env policy body (c ∷ s) e n h = rw (e, check) at h

-- Under a policy with an env_file that is not empty the gate passes only bodies in which neither Env
-- nor HostConfig.Env is a list with entries.
pub check-NoEnv :
    (policy : Policy) (body : Body) (env_file : Text)
    → policy.env_file ≡ some env_file
    → env_file ≢ []
    → check policy body ≡ ok tt
    → NoEnv body × ((hc : Map Value) → object_field (lit "HostConfig") body ≡ some hc → NoEnv hc)
unfolding check_env no_host_env
check-NoEnv policy body env_file e n h =
    let both = >>-eq-ok (ensure (no_env body) _) _ (check-check_env policy body env_file e n h) in
    (
      no_env-NoEnv body (ensure-eq-ok (no_env body) _ both.0),
      λ hc found.
          let own : no_host_env (some hc) ≡ true = rw found at (ensure-eq-ok _ _ both.1) in
          no_env-NoEnv hc own,
    )
