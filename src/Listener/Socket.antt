-- ===== src/Listener/Socket.antt =====
-- rs/src/main.rs: open_listener: the single-instance lock, the socket path, and the bind.
pub mod Replay
pub mod Steps
pub mod Open
use docker_socket_policy.Base.{Text, ℕ, Option, none, some, List, ◌∷◌, ◌++◌, Result, ok, err, lit}
use docker_socket_policy.Listener.Effects.{
  addr_in_use, already_exists, other_kind, eperm, ewouldblock, econnrefused, OsError, FileType,
  socket, other_type, Probe, connected, timed_out, disconnected, connect_failed, IoError,
  opening_lock, in_use_by_instance, locking, checking, not_a_socket, in_use_by_process,
  refusing_to_remove, probe_not_completed, removing_stale, cannot_give, setting_group, setting_mode,
  os_error, wrapped, Call, open_lock, flock, close_lock, symlink_metadata, connect, remove_file,
  bind, drop_listener, umask, chown, chmod, Os, Io, pure, fail, ◌>>=◌, ◌>>◌, perform, ok_or_else,
  ErrorKind, not_found, Errno,
}

-- `BIND_UMASK` and `SOCKET_MODE`: 0o177 and 0o660.
abbrev pub bind_umask : ℕ
bind_umask = 127

abbrev pub socket_mode : ℕ
socket_mode = 432

-- `format!("{}.lock", socket_path)`
unfoldable pub lock_path : Text → Text
lock_path path = path ++ lit ".lock"

abbrev pub lock_error : (path : Text) → OsError → Option Errno → IoError
lock_error path e (some ewouldblock) = record {
  kind = addr_in_use;
  message = in_use_by_instance path (lock_path path);
}
lock_error path e errno = wrapped (locking (lock_path path) e) e

abbrev pub chown_error : (path : Text) → (gid : ℕ) → OsError → Option Errno → IoError
chown_error path gid e (some eperm) = wrapped (cannot_give path gid) e
chown_error path gid e errno = wrapped (setting_group path e) e

module _ (os : Os) where
  -- What follows the call of `flock`. An error drops the file.
  unfoldable pub locked : (path : Text) → Result OsError (Unit {0}) → Io (Unit {0})
  locked path (ok _) = pure tt
  locked path (err e) = do
    perform (close_lock (lock_path path)) (λ calls. tt)
    fail (lock_error path e e.errno)

  unfoldable pub acquire_instance_lock : (path : Text) → Io (Unit {0})
  acquire_instance_lock path = do
    opened ← perform (open_lock (lock_path path)) (os.open_lock (lock_path path))
    ok_or_else (λ e. wrapped (opening_lock (lock_path path) e) e) opened
    result ← perform (flock (lock_path path)) (os.flock (lock_path path))
    locked path result

  unfoldable pub remove_stale : (path : Text) → Io (Unit {0})
  remove_stale path = do
    removed ← perform (remove_file path) (os.remove_file path)
    ok_or_else (λ e. wrapped (removing_stale path e) e) removed

  -- Only a refused connection shows a stale socket.
  unfoldable pub after_connect_error : (path : Text) → OsError → Option Errno → Io (Unit {0})
  after_connect_error path e (some econnrefused) = remove_stale path
  after_connect_error path e errno = fail (wrapped (refusing_to_remove path e) e)

  -- The `match` on the answer of the probe.
  unfoldable pub after_probe : (path : Text) → Probe → Io (Unit {0})
  after_probe path connected =
      fail (record { kind = addr_in_use; message = in_use_by_process path })
  after_probe path timed_out =
      fail (record { kind = addr_in_use; message = in_use_by_process path })
  after_probe path disconnected =
      fail (record { kind = other_kind (lit "other"); message = probe_not_completed path })
  after_probe path (connect_failed e) = after_connect_error path e e.errno

  unfoldable pub clear_file : (path : Text) → FileType → Io (Unit {0})
  clear_file path socket = do
    probe ← perform (connect path) (os.connect path)
    after_probe path probe
  clear_file path (other_type t) =
      fail (record { kind = already_exists; message = not_a_socket path (other_type t) })

  unfoldable pub after_metadata_error : (path : Text) → OsError → ErrorKind → Io (Unit {0})
  after_metadata_error path e not_found = pure tt
  after_metadata_error path e kind = fail (wrapped (checking path e) e)

  unfoldable pub clear_path : (path : Text) → Result OsError FileType → Io (Unit {0})
  clear_path path (ok t) = clear_file path t
  clear_path path (err e) = after_metadata_error path e e.kind

  unfoldable pub prepare_socket_path : (path : Text) → Io (Unit {0})
  prepare_socket_path path = do
    meta ← perform (symlink_metadata path) (os.symlink_metadata path)
    clear_path path meta

  unfoldable pub set_group : (path : Text) → Option ℕ → Io (Unit {0})
  set_group path none = pure tt
  set_group path (some gid) = do
    changed ← perform (chown path gid) (os.chown path gid)
    ok_or_else (λ e. chown_error path gid e e.errno) changed

  unfoldable pub set_mode : (path : Text) → Io (Unit {0})
  set_mode path = do
    changed ← perform (chmod path socket_mode) (os.chmod path socket_mode)
    ok_or_else (λ e. wrapped (setting_mode path e) e) changed

  unfoldable pub set_socket_ownership_and_mode : (path : Text) → Option ℕ → Io (Unit {0})
  set_socket_ownership_and_mode path group = do set_group path group; set_mode path

  -- The clean-up when the ownership or the mode cannot be set: `let _ = remove_file(addr)`.
  unfoldable pub or_unbind :
      (path : Text) → List Call × Result IoError (Unit {0}) → List Call × Result IoError (Unit {0})
  or_unbind path (calls, ok _) = (calls, ok tt)
  or_unbind path (calls, err e) = (remove_file path ∷ drop_listener path ∷ calls, err e)

  unfoldable pub bind_unix_listener : (path : Text) → Option ℕ → Io (Unit {0})
  bind_unix_listener path group = do
    previous ← perform (umask bind_umask) (os.umask bind_umask)
    listener ← perform (bind path) (os.bind path)
    perform (umask previous) (λ calls. tt)
    ok_or_else os_error listener
    (λ calls. or_unbind path (set_socket_ownership_and_mode path group calls))

  -- An error drops the lock.
  unfoldable pub or_unlock :
      (path : Text) → List Call × Result IoError (Unit {0}) → List Call × Result IoError (Unit {0})
  or_unlock path (calls, ok _) = (calls, ok tt)
  or_unlock path (calls, err e) = (close_lock (lock_path path) ∷ calls, err e)

  unfoldable pub open_listener : (path : Text) → Option ℕ → Io (Unit {0})
  open_listener path group = do
    acquire_instance_lock path
    (λ calls. or_unlock path ((prepare_socket_path path >> bind_unix_listener path group) calls))

  -- The removal at the end of a clean shutdown; its error is only logged.
  unfoldable pub unlink_listen_socket : (path : Text) → List Call → List Call
  unlink_listen_socket path calls = remove_file path ∷ calls
