-- ===== src/Listener/Socket/Replay.antt =====
-- What a history of calls says: which lock is held, at which path a socket listens, the process's umask,
-- and whether each call was in order when it was made.
use docker_socket_policy.Base.{
  Text, ℕ, Bool, true, false, Option, none, some, List, [], ◌∷◌, ◌++◌, ◌≡◌, ◌⊎◌, Result, ok, err,
  lit,
}
use docker_socket_policy.Listener.Effects.{
  econnrefused, OsError, socket, connect_failed, IoError, Call, flock, close_lock, symlink_metadata,
  connect, remove_file, bind, drop_listener, umask, chown, chmod, Os,
}
use docker_socket_policy.Listener.Socket.{bind_umask, socket_mode}

abbrev pub is_ok : {E A : Type 0} → Result E A → Bool
is_ok (ok a) = true
is_ok (err e) = false

-- The path of a call that succeeded.
abbrev pub at_path : {E A : Type 0} → (path : Text) → Result E A → Option Text
at_path path (ok a) = some path
at_path path (err e) = none

-- The file whose lock guards the path.
abbrev pub lock_of : (path : Text) → Text
lock_of path = path ++ lit ".lock"

abbrev pub mask_after : (initial : ℕ) → List Call → ℕ
mask_after initial [] = initial
mask_after initial (umask mask ∷ older) = mask
mask_after initial (call ∷ older) = mask_after initial older

module _ (os : Os) where
  -- The file whose lock the process holds.
  abbrev pub lock_held : List Call → Option Text
  lock_held [] = none
  lock_held (flock lock ∷ older) = at_path lock (os.flock lock older)
  lock_held (close_lock lock ∷ older) = none
  lock_held (call ∷ older) = lock_held older

  -- The path at which its socket listens.
  abbrev pub listening : List Call → Option Text
  listening [] = none
  listening (bind path ∷ older) = at_path path (os.bind path older)
  listening (drop_listener path ∷ older) = none
  listening (call ∷ older) = listening older

  -- The path was a socket that refused the connection made just before.
  pub record WasStale (path : Text) (older : List Call) : Type 0 where
    pub rest : List Call
    pub error : OsError
    pub asked : older ≡ connect path ∷ symlink_metadata path ∷ rest
    pub was_socket : os.symlink_metadata path rest ≡ ok socket
    pub refused : os.connect path (symlink_metadata path ∷ rest) ≡ connect_failed error
    pub errno : error.errno ≡ some econnrefused

  -- The process has just closed its own listener there.
  pub record WasOwn (path : Text) (older : List Call) : Type 0 where
    pub rest : List Call
    pub closed : older ≡ drop_listener path ∷ rest
    pub own : listening rest ≡ some path

  -- When a call may be made: a path is bound, and a file there removed, only under the lock of that
  -- path; the file was stale or the process's own; the socket is bound under the mask 0o177; and a path
  -- gets its group and the mode 0o660 once the socket listens there.
  abbrev pub MayCall : Call → List Call → Type 0
  MayCall (remove_file path) older =
      (lock_held older ≡ some (lock_of path)) × (WasStale path older ⊎ WasOwn path older)
  MayCall (bind path) older =
      (lock_held older ≡ some (lock_of path))
      × ((rest : List Call) × (older ≡ umask bind_umask ∷ rest))
  MayCall (chown path gid) older = listening older ≡ some path
  MayCall (chmod path mode) older = (listening older ≡ some path) × (mode ≡ socket_mode)
  MayCall call older = Unit

  abbrev pub InOrder : List Call → Type 0
  InOrder [] = Unit
  InOrder (call ∷ older) = MayCall call older × InOrder older

  -- A history in order, and where it leads.
  pub record Facts (initial : ℕ) (held open_now : Option Text) (mask : ℕ) (calls : List Call)
      : Type 0 where
    pub in_order : InOrder calls
    pub holds_lock : lock_held calls ≡ held
    pub listens : listening calls ≡ open_now
    pub masked : mask_after initial calls ≡ mask

  -- One more call.
  pub Facts-call :
      {initial : ℕ} {held open_now held' open_now' : Option Text} {mask mask' : ℕ}
      {calls : List Call} (call : Call)
      → MayCall call calls
      → Facts initial held open_now mask calls
      → lock_held (call ∷ calls) ≡ held'
      → listening (call ∷ calls) ≡ open_now'
      → mask_after initial (call ∷ calls) ≡ mask'
      → Facts initial held' open_now' mask' (call ∷ calls)
  Facts-call call may f h o m = record {
    in_order = (may, f.in_order);
    holds_lock = h;
    listens = o;
    masked = m;
  }

-- What holds of the history after a success, and after an error.
abbrev pub Ensures :
    {A : Type 0} → (P Q : List Call → Type 0) → List Call × Result IoError A → Type 0
Ensures P Q (calls, ok a) = P calls
Ensures P Q (calls, err e) = Q calls
