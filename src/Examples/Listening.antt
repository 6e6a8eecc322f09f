-- ===== src/Examples/Listening.antt =====
-- The start of a process on the example's host, and what its parts do.
use docker_socket_policy.Base.{
  Text, ℕ, ◌<◌, ◌^◌, true, none, some, [], ◌∷◌, ◌≡◌, ◌≢◌, refl, ◌↔◌, ok, err, lit, arith,
}
use docker_socket_policy.Query.{path_escape, query_unescape}
use docker_socket_policy.Query.Utf8.{IsUtf8, query_unescape-path_escape}
use docker_socket_policy.Message.{socket_permission}
use docker_socket_policy.Transport.{
  Hyper, UnixSocketTransport, ConnectionDenied, forward-ConnectionDenied,
}
use docker_socket_policy.Transport
use docker_socket_policy.Audit.{LogFile}
use docker_socket_policy.Audit
use docker_socket_policy.Message.{ambiguous_policy}
use docker_socket_policy.Manager.{select_for_create}
use docker_socket_policy.Handler.{Handler, HttpRequest, handle, inspect_request}
use docker_socket_policy.Handler.Tasks.{System}
use docker_socket_policy.Handler.Tasks.Guarded.{IsGuarded}
use docker_socket_policy.Handler.Sent.{Sends}
use docker_socket_policy.Handler.Admission.{IsRead}
use docker_socket_policy.Listener.Start.Policed.{start-IsGuarded, start-IsRead}
use docker_socket_policy.Handler.Monitor.{IsMonitored, handle-IsMonitored}
use docker_socket_policy.Listener.Addresses.{validate_listen_socket, validate_docker_host}
use docker_socket_policy.Listener.Group.{
  gid_in_range, named_group, resolve_group, default_group, explicit_group, select_socket_group,
}
use docker_socket_policy.Listener.Group.Gids.{IsChoice, select_socket_group-gid}
use docker_socket_policy.Listener.Effects.{
  permission_denied, other_kind, OsError, econnrefused, socket, connect_failed, Os,
}
use docker_socket_policy.Listener.Socket.{
  lock_path, locked, acquire_instance_lock, remove_stale, after_connect_error, after_probe,
  clear_file, after_metadata_error, clear_path, prepare_socket_path, set_group, set_mode,
  set_socket_ownership_and_mode, or_unbind, bind_unix_listener, or_unlock, open_listener,
}
use docker_socket_policy.Listener.Socket.Replay.{is_ok, mask_after}
use docker_socket_policy.Listener.Start.{
  Cli, Environment, open_audit, build_handler, check_cli, configure, listen,
}
use docker_socket_policy.Listener.Start
use docker_socket_policy.Examples.{program, engine, yaml, directory, handler}
use docker_socket_policy.Examples.Interleaved.{played, played-Reach}
use docker_socket_policy.Examples

-- What the tests run of the listener.
service : Unit {0}
unfolding program validate_listen_socket validate_docker_host gid_in_range named_group resolve_group
    default_group explicit_group select_socket_group lock_path locked acquire_instance_lock
    remove_stale after_connect_error after_probe clear_file after_metadata_error clear_path
    prepare_socket_path set_group set_mode set_socket_ownership_and_mode or_unbind
    bind_unix_listener or_unlock open_listener open_audit build_handler check_cli configure listen
    Start.start Transport.new Transport.forward Audit.new Audit.nop
service = tt

abbrev refused : OsError
refused = record {
  kind = other_kind (lit "refused");
  errno = some econnrefused;
  text = lit "refused";
}

-- A system with a stale socket at the path, where every other call succeeds.
abbrev os : Os
os = record {
  open_lock = λ lock calls. ok tt;
  flock = λ lock calls. ok tt;
  symlink_metadata = λ path calls. ok socket;
  connect = λ path calls. connect_failed refused;
  remove_file = λ path calls. ok tt;
  umask = λ mask calls. mask_after 18 calls;
  bind = λ path calls. ok tt;
  chown = λ path gid calls. ok tt;
  chmod = λ path mode calls. ok tt;
}

abbrev denied : OsError
denied = record { kind = permission_denied; errno = none; text = lit "denied" }

abbrev denying : Hyper
denying = record {
  connect = λ host sent. err denied;
  handshake = λ sent. ok tt;
  send_request = λ sent req. ok (200, []);
  collect = λ sent req. ok [];
}

abbrev daemon : UnixSocketTransport
daemon = record { docker_host = lit "/var/run/docker.sock" }

abbrev log_files : LogFile
log_files = record { open_append = λ path. ok []; writeln = λ line lines. line ∷ lines }

abbrev environment : Environment
environment = record {
  re = engine;
  yaml = yaml;
  from_slice = handler.from_slice;
  to_vec = handler.to_vec;
  uri_error = handler.uri_error;
  hyper = denying;
  log_files = log_files;
  read_dir = λ dir. directory;
  getgrnam = λ group. ok (some 999);
  egid = 1000;
  sigterm = ok tt;
  os = os;
}

abbrev cli : Cli
cli = record {
  listen_socket = lit "/run/proxy.sock";
  docker_host = lit "/var/run/docker.sock";
  config_dir = lit "/etc/services";
  log_file = lit "/var/log/proxy.log";
  readonly = true;
  listen_socket_group = some (lit "proxy");
}

-- The process serves.
start_runs : is_ok (Start.start environment cli []).1 ≡ true
unfolding service
start_runs = refl

-- What the process serves with.
abbrev running : Handler
running = build_handler environment cli Examples.manager

-- A request that is let in and sent on.
abbrev callers : ℕ → HttpRequest
callers i = Examples.request (lit "GET") (lit "/info")

abbrev tasks : System
tasks = played running callers (0 ∷ 1 ∷ 0 ∷ 0 ∷ 1 ∷ 0 ∷ [])

start-IsGuarded_example :
    IsGuarded running callers tasks
    × (select_for_create engine Examples.manager (lit "ghcr.io/acme/app:1") (lit "web")
        ≢ err (ambiguous_policy (lit "ghcr.io/acme/app:1") (lit "web") []))
unfolding service
start-IsGuarded_example =
    start-IsGuarded environment cli [] refl callers tasks (lit "ghcr.io/acme/app:1") (lit "web") []
      (played-Reach running callers (0 ∷ 1 ∷ 0 ∷ 0 ∷ 1 ∷ 0 ∷ []))

start-IsRead_example :
    Sends IsRead Examples.start
      (handle running (Examples.request (lit "POST") (lit "/build")) Examples.start).0
unfolding service
start-IsRead_example =
    start-IsRead environment cli [] refl refl (Examples.request (lit "POST") (lit "/build"))
      Examples.start

select_socket_group-gid_example :
    (999 < 2 ^ 32) × IsChoice (λ group. ok (some 999)) 1000 (some (lit "proxy")) 999 none
unfolding service
select_socket_group-gid_example =
    select_socket_group-gid (λ group. ok (some 999)) 1000 (some (lit "proxy")) (omega arith)
      (λ g n e. ground arith) refl

handle-IsMonitored_example :
    IsMonitored handler
      (Examples.request (lit "GET") (lit "/info"))
      Examples.start
      (handle handler (Examples.request (lit "GET") (lit "/info")) Examples.start)
handle-IsMonitored_example =
    handle-IsMonitored handler (Examples.request (lit "GET") (lit "/info")) Examples.start

query_unescape-path_escape_example :
    query_unescape (path_escape (97 ∷ 195 ∷ 169 ∷ [])) ≡ some (97 ∷ 195 ∷ 169 ∷ [])
query_unescape-path_escape_example = query_unescape-path_escape (97 ∷ 195 ∷ 169 ∷ []) (
    IsUtf8.one (omega arith)
      (IsUtf8.two (omega arith, omega arith) (omega arith, omega arith) IsUtf8.nothing))

forward-ConnectionDenied_example :
    ((text : Text) × (Transport.forward denying daemon [] (inspect_request (lit "ab"))
        ≡ err (socket_permission text)))
    ↔ ConnectionDenied denying daemon []
forward-ConnectionDenied_example =
    forward-ConnectionDenied denying daemon [] (inspect_request (lit "ab"))
