-- ===== src/Listener/Socket/Steps.antt =====
-- Each step of open_listener keeps the history in order.
use docker_socket_policy.Base.{
  Text, ℕ, Option, none, some, List, ◌∷◌, ◌≡◌, refl, inl, Result, ok, err, sym,
}
use docker_socket_policy.Listener.Effects.{
  ErrorKind, not_found, addr_in_use, already_exists, permission_denied, other_kind, Errno, eperm,
  ewouldblock, econnrefused, other_errno, OsError, FileType, socket, other_type, Probe, connected,
  timed_out, disconnected, connect_failed, IoError, Call, open_lock, flock, close_lock,
  symlink_metadata, connect, remove_file, Os, Io, continue_with, ok_or_else,
}
use docker_socket_policy.Listener.Socket.{
  lock_path, locked, acquire_instance_lock, remove_stale, after_probe, clear_file, clear_path,
  prepare_socket_path, after_metadata_error, after_connect_error,
}
use docker_socket_policy.Listener.Socket.Replay.{
  at_path, lock_of, WasStale, Facts, Facts-call, Ensures,
}

-- A sequence: the first part ensures what the second needs.
pub Ensures-then :
    {A B : Type 0} (P' P Q : List Call → Type 0) (r : List Call × Result IoError A)
    (next : A → Io B)
    → Ensures P' Q r
    → ((a : A) (calls : List Call) → P' calls → Ensures P Q (next a calls))
    → Ensures P Q (continue_with r next)
Ensures-then P' P Q (calls, ok a) next h k = k a calls h
Ensures-then P' P Q (calls, err e) next h k = h

module _ (P Q : List Call → Type 0) {A : Type 0} (wrap : OsError → IoError) (r : Result OsError A)
    (calls : List Call) where
  -- A call whose error ends the computation.
  pub Ensures-or_else :
      ((a : A) → r ≡ ok a → P calls)
      → ((e : OsError) → r ≡ err e → Q calls)
      → Ensures P Q (ok_or_else wrap r calls)
  Ensures-or_else k q =
      elim r as (λ s. s ≡ r → Ensures P Q (ok_or_else wrap s calls)) [
        | ok a ↦ λ e. k a (sym e)
        | err e ↦ λ eq. q e (sym eq)
      ]
        refl

  pub Ensures-or_else_then :
      {B : Type 0} (next : A → Io B)
      → ((a : A) → r ≡ ok a → Ensures P Q (next a calls))
      → ((e : OsError) → r ≡ err e → Q calls)
      → Ensures P Q (continue_with (ok_or_else wrap r calls) next)
  Ensures-or_else_then next k q =
      elim r as (λ s. s ≡ r → Ensures P Q (continue_with (ok_or_else wrap s calls) next)) [
        | ok a ↦ λ e. k a (sym e)
        | err e ↦ λ eq. q e (sym eq)
      ]
        refl

module _ (os : Os) (initial : ℕ) (path : Text) where
  abbrev F : (held open_now : Option Text) → (mask : ℕ) → List Call → Type 0
  F = Facts os initial

  abbrev held : Option Text
  held = some (lock_of path)

  -- The lock is taken, or it is not held at the end.
  locked-Facts :
      (calls : List Call) (result : Result OsError (Unit {0}))
      → F (at_path (lock_path path) result) none initial calls
      → Ensures (F held none initial) (F none none initial) (locked os path result calls)
  unfolding locked lock_path
  locked-Facts calls (ok u) f = f
  locked-Facts calls (err e) f =
      Facts-call os (close_lock (lock_path path)) tt f refl f.listens f.masked

  pub acquire-Facts :
      (calls : List Call)
      → F none none initial calls
      → Ensures (F held none initial) (F none none initial) (acquire_instance_lock os path calls)
  unfolding acquire_instance_lock
  acquire-Facts calls f =
      let opened =
        Facts-call os (open_lock (lock_path path)) tt f f.holds_lock f.listens f.masked in
      Ensures-or_else_then (F held none initial) (F none none initial) _
        (os.open_lock (lock_path path) calls) (open_lock (lock_path path) ∷ calls) _
        (λ u e.
          locked-Facts _ (os.flock (lock_path path) (open_lock (lock_path path) ∷ calls))
            (Facts-call os (flock (lock_path path)) tt opened refl opened.listens opened.masked))
        (λ u e. opened)

  -- The facts while the path is cleared, after a success and after an error.
  abbrev Clearing : List Call → Type 0
  Clearing = F held none initial

  remove_stale-Facts :
      (calls : List Call)
      → Clearing calls
      → WasStale os path calls
      → Ensures Clearing Clearing (remove_stale os path calls)
  unfolding remove_stale
  remove_stale-Facts calls f stale =
      let removed =
        Facts-call os (remove_file path) (f.holds_lock, inl stale) f f.holds_lock f.listens
          f.masked in
      Ensures-or_else Clearing Clearing _ (os.remove_file path calls) _ (λ u e. removed)
        (λ u e. removed)

  after_connect_error-Facts :
      (calls : List Call) (e : OsError) (errno : Option Errno)
      → Clearing calls
      → (errno ≡ some econnrefused → WasStale os path calls)
      → Ensures Clearing Clearing (after_connect_error os path e errno calls)
  unfolding after_connect_error
  after_connect_error-Facts calls e (some econnrefused) f stale =
      remove_stale-Facts calls f (stale refl)
  after_connect_error-Facts calls e (some eperm) f stale = f
  after_connect_error-Facts calls e (some ewouldblock) f stale = f
  after_connect_error-Facts calls e (some (other_errno n)) f stale = f
  after_connect_error-Facts calls e none f stale = f

  after_probe-Facts :
      (calls : List Call) (probe : Probe)
      → Clearing calls
      → ((e : OsError)
          → probe ≡ connect_failed e
          → e.errno ≡ some econnrefused
          → WasStale os path calls)
      → Ensures Clearing Clearing (after_probe os path probe calls)
  unfolding after_probe
  after_probe-Facts calls connected f stale = f
  after_probe-Facts calls timed_out f stale = f
  after_probe-Facts calls disconnected f stale = f
  after_probe-Facts calls (connect_failed e) f stale =
      after_connect_error-Facts calls e e.errno f (stale e refl)

  clear_file-Facts :
      (calls : List Call) (t : FileType)
      → Clearing (symlink_metadata path ∷ calls)
      → os.symlink_metadata path calls ≡ ok t
      → Ensures Clearing Clearing (clear_file os path t (symlink_metadata path ∷ calls))
  unfolding clear_file
  clear_file-Facts calls (other_type t) f e = f
  clear_file-Facts calls socket f e =
      after_probe-Facts _ (os.connect path (symlink_metadata path ∷ calls))
        (Facts-call os (connect path) tt f f.holds_lock f.listens f.masked)
        (λ error refused errno. record {
          rest = calls;
          error = error;
          asked = refl;
          was_socket = e;
          refused = refused;
          errno = errno;
        })

  after_metadata_error-Facts :
      (calls : List Call) (e : OsError) (kind : ErrorKind)
      → Clearing calls
      → Ensures Clearing Clearing (after_metadata_error os path e kind calls)
  unfolding after_metadata_error
  after_metadata_error-Facts calls e not_found f = f
  after_metadata_error-Facts calls e addr_in_use f = f
  after_metadata_error-Facts calls e already_exists f = f
  after_metadata_error-Facts calls e permission_denied f = f
  after_metadata_error-Facts calls e (other_kind k) f = f

  clear_path-Facts :
      (calls : List Call) (r : Result OsError FileType)
      → Clearing (symlink_metadata path ∷ calls)
      → os.symlink_metadata path calls ≡ r
      → Ensures Clearing Clearing (clear_path os path r (symlink_metadata path ∷ calls))
  unfolding clear_path
  clear_path-Facts calls (ok t) f e = clear_file-Facts calls t f e
  clear_path-Facts calls (err error) f e = after_metadata_error-Facts _ error error.kind f

  pub prepare-Facts :
      (calls : List Call)
      → Clearing calls
      → Ensures Clearing Clearing (prepare_socket_path os path calls)
  unfolding prepare_socket_path
  prepare-Facts calls f =
      clear_path-Facts calls (os.symlink_metadata path calls)
        (Facts-call os (symlink_metadata path) tt f f.holds_lock f.listens f.masked) refl
