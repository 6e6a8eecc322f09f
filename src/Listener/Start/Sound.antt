-- ===== src/Listener/Start/Sound.antt =====
-- What holds once the process serves, and what is left if it does not.
use docker_socket_policy.Base.{
  Text, ℕ, true, false, none, some, List, [], ◌∷◌, ◌≡◌, refl, ◌≢◌, Result, ok, err, map_err,
  starts_with, any, All, arith, subst, >>=-eq-ok, >>-eq-ok,
}
use docker_socket_policy.Base.Split.{starts_with-eq-true}
use docker_socket_policy.Manager.{Manager}
use docker_socket_policy.Manager.Load
use docker_socket_policy.Manager.Invariant.{IsLoaded, new-IsLoaded}
use docker_socket_policy.Listener.Addresses.{
  host_schemes, validate_listen_socket, validate_docker_host,
}
use docker_socket_policy.Listener.Group.{resolve_group, select_socket_group}
use docker_socket_policy.Listener.Effects.{Call}
use docker_socket_policy.Listener.Socket.Replay.{lock_of, Facts}
use docker_socket_policy.Listener.Socket.Open.{IsReady}
use docker_socket_policy.Listener.Start.{
  Cli, Environment, StartError, Service, build_handler, service_of, open_audit, check_cli,
  configure,
}

-- An absolute path.
abbrev pub IsAbsolute : Text → Type 0
IsAbsolute path = (rest : Text) × (path ≡ b'/' ∷ rest)

-- No URL.
abbrev pub IsHost : Text → Type 0
IsHost host = (host ≢ []) × (any (λ s. starts_with host s) host_schemes ≡ false)

validate_listen_socket-IsAbsolute :
    (addr : Text) → validate_listen_socket addr ≡ ok tt → IsAbsolute addr
unfolding validate_listen_socket
validate_listen_socket-IsAbsolute addr h =
    let slash : starts_with addr (b'/' ∷ []) ≡ true = ground arith in
    starts_with-eq-true addr (b'/' ∷ []) slash

validate_docker_host-IsHost : (host : Text) → validate_docker_host host ≡ ok tt → IsHost host
unfolding validate_docker_host
validate_docker_host-IsHost [] h = cc
validate_docker_host-IsHost (c ∷ host) h = (λ e. cc, ground arith)

map_err-eq-ok {ℓ κ ι} :
    {E : Type ι} {F : Type κ} {A : Type ℓ} (f : E → F) (r : Result E A) {a : A}
    → map_err f r ≡ ok a
    → r ≡ ok a
map_err-eq-ok f (ok a) h = ground arith
map_err-eq-ok f (err e) h = cc

ok-injective {ℓ κ} :
    {E : Type κ} {A : Type ℓ} {a b : A} → ◌≡◌ {A = Result E A} (ok a) (ok b) → a ≡ b
ok-injective h = ground arith

-- What was checked before the listener.
pub record IsConfigured (env : Environment) (cli : Cli) (service : Service) : Type 0 where
  pub listen_socket : IsAbsolute cli.listen_socket
  pub docker_host : IsHost cli.docker_host
  pub selected :
      select_socket_group cli.listen_socket_group (resolve_group env.getgrnam) env.egid
      ≡ ok (service.socket_gid, service.warning)
  pub manager : Manager
  pub opened : Load.new env.re env.yaml cli.config_dir (env.read_dir cli.config_dir) ≡ ok manager
  pub loaded : All IsLoaded manager.policies_by_name
  pub handles : service.handler ≡ build_handler env cli manager

pub configure-IsConfigured :
    (env : Environment) (cli : Cli) {service : Service}
    → configure env cli ≡ ok service
    → IsConfigured env cli service
unfolding configure check_cli
configure-IsConfigured env cli {service} h =
    let (group, checked, h1) = >>=-eq-ok (check_cli env cli) _ h in
    let (manager, loaded, h2) =
      >>=-eq-ok (map_err _ (Load.new env.re env.yaml cli.config_dir (env.read_dir cli.config_dir)))
        _ h1 in
    let (audit, _, h3) = >>=-eq-ok (open_audit env.log_files cli.log_file) _ h2 in
    let (_, h4) = >>-eq-ok _ _ h3 in
    let (valid_socket, checked1) = >>-eq-ok _ _ checked in
    let (valid_host, checked2) = >>-eq-ok _ _ checked1 in
    let built : service_of env cli group manager audit ≡ service = ok-injective h4 in
    subst (IsConfigured env cli) built (record {
      listen_socket =
          validate_listen_socket-IsAbsolute cli.listen_socket (map_err-eq-ok _ _ valid_socket);
      docker_host = validate_docker_host-IsHost cli.docker_host (map_err-eq-ok _ _ valid_host);
      selected = map_err-eq-ok _ _ checked2;
      manager = manager;
      opened = map_err-eq-ok _ _ loaded;
      loaded =
          new-IsLoaded env.re env.yaml cli.config_dir (env.read_dir cli.config_dir)
            (map_err-eq-ok _ _ loaded);
      handles = refl;
    })

-- What the process has once it serves: a checked configuration, and the history of a ready socket.
pub record IsServing (env : Environment) (cli : Cli) (initial : ℕ) (service : Service)
    (calls : List Call) : Type 0 where
  pub configured : IsConfigured env cli service
  pub history :
      Facts env.os initial (some (lock_of cli.listen_socket)) (some cli.listen_socket) initial calls
  pub ready : IsReady env.os cli.listen_socket (some service.socket_gid) calls

abbrev pub Ends :
    (env : Environment)
    → (cli : Cli) → (initial : ℕ) → List Call × Result StartError Service
    → Type 0
Ends env cli initial (calls, ok service) = IsServing env cli initial service calls
Ends env cli initial (calls, err e) = Facts env.os initial none none initial calls
