-- ===== src/Listener/Start.antt =====
-- rs/src/main.rs: `main` up to the running listener: the configuration is checked, the policies are
-- loaded, the handler is built, and the listener is opened.
pub mod Sound
pub mod Policed
use docker_socket_policy.Base.{
  Text, ℕ, Bool, true, false, Option, none, some, List, Result, ok, err, map_err, ◌>>=◌, ◌>>◌,
}
use docker_socket_policy.Json.{Value, Body}
use docker_socket_policy.Message.{Message}
use docker_socket_policy.Policy.{Regex, Policy}
use docker_socket_policy.Manager.{Manager}
use docker_socket_policy.Manager.Load
use docker_socket_policy.Manager.Load.{Directory}
use docker_socket_policy.Router
use docker_socket_policy.Chain
use docker_socket_policy.Handler.{Handler, ForwardRequest, DaemonResponse}
use docker_socket_policy.Transport
use docker_socket_policy.Transport.{Hyper}
use docker_socket_policy.Audit
use docker_socket_policy.Audit.{LogFile, AuditLogger}
use docker_socket_policy.Listener.Addresses.{
  AddressError, validate_listen_socket, validate_docker_host,
}
use docker_socket_policy.Listener.Group.{GroupError, Warning, resolve_group, select_socket_group}
use docker_socket_policy.Listener.Effects.{OsError, IoError, Call, Os}
use docker_socket_policy.Listener.Socket.{open_listener}

pub record Cli : Type 0 where
  pub listen_socket : Text
  pub docker_host : Text
  pub config_dir : Text
  pub log_file : Text
  pub readonly : Bool
  pub listen_socket_group : Option Text

-- What `main` calls outside the repository.
pub record Environment : Type 0 where
  pub re : Regex
  pub yaml : Text → Result Text Policy
  pub from_slice : Text → Option Value
  pub to_vec : Body → Option Text
  pub uri_error : Text → Option Text
  pub hyper : Hyper
  pub log_files : LogFile
  pub read_dir : (dir : Text) → Directory
  pub getgrnam : Text → Result Text (Option ℕ)
  pub egid : ℕ
  -- The registration of the handler of SIGTERM.
  pub sigterm : Result Text (Unit {0})
  pub os : Os

pub data StartError : Type 0 where
  bad_address : AddressError → StartError
  bad_group : GroupError → StartError
  bad_policies : Message → StartError
  no_dev_null : StartError
  no_signal : Text → StartError
  no_listener : IoError → StartError

-- `process::exit(2)`, the panic of `nop`, or an error of `main`.
unfoldable pub exit_code : StartError → ℕ
exit_code (bad_address e) = 2
exit_code (bad_group e) = 2
exit_code (bad_policies m) = 1
exit_code no_dev_null = 101
exit_code (no_signal e) = 1
exit_code (no_listener e) = 1

-- What the process has when it serves.
pub record Service : Type 0 where
  pub handler : Handler
  pub audit : AuditLogger
  pub socket_gid : ℕ
  pub warning : Option Warning

-- The logger, or else the one without a file.
unfoldable pub open_audit : LogFile → (log_file : Text) → Result StartError AuditLogger
open_audit system log_file = elim (Audit.new system log_file) [
  | ok logger ↦ ok logger
  | err e ↦ elim (Audit.nop system) [ some logger ↦ ok logger | none ↦ err no_dev_null ]
]

unfoldable pub build_handler : Environment → Cli → Manager → Handler
build_handler env cli manager = record {
  re = env.re;
  router = Router.with_readonly (Router.new manager) cli.readonly;
  chain = Chain.new;
  from_slice = env.from_slice;
  to_vec = env.to_vec;
  uri_error = env.uri_error;
  transport = Transport.forward env.hyper (Transport.new cli.docker_host);
}

-- The checks of the command line.
unfoldable pub check_cli : Environment → Cli → Result StartError (ℕ × Option Warning)
check_cli env cli = do
  map_err bad_address (validate_listen_socket cli.listen_socket)
  map_err bad_address (validate_docker_host cli.docker_host)
  map_err bad_group
      (select_socket_group cli.listen_socket_group (resolve_group env.getgrnam) env.egid)

abbrev pub service_of : Environment → Cli → ℕ × Option Warning → Manager → AuditLogger → Service
service_of env cli group manager audit = record {
  handler = build_handler env cli manager;
  audit = audit;
  socket_gid = group.0;
  warning = group.1;
}

-- The part of `main` before the listener.
unfoldable pub configure : Environment → Cli → Result StartError Service
configure env cli = do
  group ← check_cli env cli
  manager ←
      map_err bad_policies (Load.new env.re env.yaml cli.config_dir (env.read_dir cli.config_dir))
  audit ← open_audit env.log_files cli.log_file
  map_err no_signal env.sigterm
  ok (service_of env cli group manager audit)

abbrev pub with_listener :
    Service → List Call × Result IoError (Unit {0}) → List Call × Result StartError Service
with_listener service (calls, ok _) = (calls, ok service)
with_listener service (calls, err e) = (calls, err (no_listener e))

unfoldable pub listen :
    Environment
    → Cli
    → Result StartError Service
    → List Call
    → List Call × Result StartError Service
listen env cli (err e) calls = (calls, err e)
listen env cli (ok service) calls =
    with_listener service (open_listener env.os cli.listen_socket (some service.socket_gid) calls)

-- `main`, up to the listener's task.
unfoldable pub start : Environment → Cli → List Call → List Call × Result StartError Service
start env cli calls = listen env cli (configure env cli) calls
