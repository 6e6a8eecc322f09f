-- ===== src/Listener/Socket/Open.antt =====
-- The bind, and open_listener as a whole.
use docker_socket_policy.Base.{
  Text, ℕ, Option, none, some, List, ◌∷◌, ◌≡◌, refl, inr, Result, ok, err, ◌∙◌,
}
use docker_socket_policy.Listener.Effects.{
  IoError, Call, close_lock, remove_file, bind, drop_listener, umask, chown, chmod, Os,
}
use docker_socket_policy.Listener.Socket.{
  bind_umask, socket_mode, lock_path, acquire_instance_lock, prepare_socket_path, set_group,
  set_mode, set_socket_ownership_and_mode, or_unbind, bind_unix_listener, or_unlock, open_listener,
}
use docker_socket_policy.Listener.Socket.Replay.{lock_of, mask_after, Facts, Facts-call, Ensures}
use docker_socket_policy.Listener.Socket.Steps.{
  Ensures-then, Ensures-or_else, Ensures-or_else_then, acquire-Facts, prepare-Facts,
}

-- The group was the last thing to be set, if one was asked for.
abbrev pub GroupSet : Os → (path : Text) → Option ℕ → List Call → Type 0
GroupSet os path none calls = Unit
GroupSet os path (some gid) calls =
    (rest : List Call) × (calls ≡ chown path gid ∷ rest) × (os.chown path gid rest ≡ ok tt)

-- The socket got the mode 0o660 last, and just before that its group.
pub record IsReady (os : Os) (path : Text) (group : Option ℕ) (calls : List Call) : Type 0 where
  pub rest : List Call
  pub mode_last : calls ≡ chmod path socket_mode ∷ rest
  pub mode_set : os.chmod path socket_mode rest ≡ ok tt
  pub group_set : GroupSet os path group rest

-- `umask` gives the mask that was set before.
abbrev pub KeepsMask : Os → (initial : ℕ) → Type 0
KeepsMask os initial =
    (mask : ℕ) (calls : List Call) → os.umask mask calls ≡ mask_after initial calls

module _ (os : Os) (initial : ℕ) (path : Text) (group : Option ℕ) where
  abbrev Bound : List Call → Type 0
  Bound = Facts os initial (some (lock_of path)) (some path) initial

  abbrev Clear : List Call → Type 0
  Clear = Facts os initial (some (lock_of path)) none initial

  set_group-Facts :
      (g : Option ℕ) (calls : List Call)
      → Bound calls
      → Ensures (λ c. Bound c × GroupSet os path g c) Bound (set_group os path g calls)
  unfolding set_group
  set_group-Facts none calls f = (f, tt)
  set_group-Facts (some gid) calls f =
      let changed = Facts-call os (chown path gid) f.listens f f.holds_lock f.listens f.masked in
      Ensures-or_else (λ c. Bound c × GroupSet os path (some gid) c) Bound _
        (os.chown path gid calls) _ (λ u e. (changed, (calls, refl, e))) (λ u e. changed)

  set_mode-Facts :
      (calls : List Call)
      → Bound calls × GroupSet os path group calls
      → Ensures (λ c. Bound c × IsReady os path group c) Bound (set_mode os path calls)
  unfolding set_mode
  set_mode-Facts calls (f, g) =
      let changed =
        Facts-call os (chmod path socket_mode) (f.listens, refl) f f.holds_lock f.listens
          f.masked in
      Ensures-or_else (λ c. Bound c × IsReady os path group c) Bound _
        (os.chmod path socket_mode calls) _
        (λ u e. (changed, record { rest = calls; mode_last = refl; mode_set = e; group_set = g }))
        (λ u e. changed)

  ownership-Facts :
      (calls : List Call)
      → Bound calls
      → Ensures
          (λ c. Bound c × IsReady os path group c)
          Bound
          (set_socket_ownership_and_mode os path group calls)
  unfolding set_socket_ownership_and_mode
  ownership-Facts calls f =
      Ensures-then (λ c. Bound c × GroupSet os path group c)
        (λ c. Bound c × IsReady os path group c) Bound (set_group os path group calls) _
        (set_group-Facts group calls f) (λ a c h. set_mode-Facts c h)

  or_unbind-Facts :
      (P : List Call → Type 0) (r : List Call × Result IoError (Unit {0}))
      → Ensures P Bound r
      → Ensures P Clear (or_unbind os path r)
  unfolding or_unbind
  or_unbind-Facts P (calls, ok u) h = h
  or_unbind-Facts P (calls, err e) f =
      let dropped = Facts-call os (drop_listener path) tt f f.holds_lock refl f.masked in
      Facts-call os (remove_file path)
        (f.holds_lock, inr (record { rest = calls; closed = refl; own = f.listens })) dropped
        dropped.holds_lock dropped.listens dropped.masked

  bind-Facts :
      KeepsMask os initial
      → (calls : List Call) → Clear calls
      → Ensures
          (λ c. Bound c × IsReady os path group c)
          Clear
          (bind_unix_listener os path group calls)
  unfolding bind_unix_listener
  bind-Facts keeps calls f =
      let masked =
        Facts-call os {mask' = bind_umask} (umask bind_umask) tt f f.holds_lock f.listens refl in
      let tried =
        Facts-call os (bind path) (f.holds_lock, (calls, refl)) masked masked.holds_lock refl
          masked.masked in
      let before = keeps bind_umask calls ∙ f.masked in
      let unmasked =
        Facts-call os (umask (os.umask bind_umask calls)) tt tried tried.holds_lock tried.listens
          before in
      Ensures-or_else_then (λ c. Bound c × IsReady os path group c) Clear _
        (os.bind path (umask bind_umask ∷ calls)) _ _
        (λ u e.
          or_unbind-Facts (λ c. Bound c × IsReady os path group c)
            (set_socket_ownership_and_mode os path group _) (ownership-Facts _ (rw e at unmasked)))
        (λ error e. rw e at unmasked)

  or_unlock-Facts :
      (P : List Call → Type 0) (r : List Call × Result IoError (Unit {0}))
      → Ensures P Clear r
      → Ensures P (Facts os initial none none initial) (or_unlock os path r)
  unfolding or_unlock
  or_unlock-Facts P (calls, ok u) h = h
  or_unlock-Facts P (calls, err e) f =
      Facts-call os (close_lock (lock_path path)) tt f refl f.listens f.masked

  -- From a history in order, without the lock and the socket, opening the listener leaves a history in
  -- order. On success the lock of the path is held and the socket listens at the path, and at the end the
  -- path got its group and then the mode 0o660. On an error neither is left. In both cases the umask is the one before, where the
  -- system's `umask` gives the mask that was set.
  pub open_listener-Facts :
      KeepsMask os initial
      → (calls : List Call) → Facts os initial none none initial calls
      → Ensures
          (λ c.
            Facts os initial (some (lock_of path)) (some path) initial c × IsReady os path group c)
          (Facts os initial none none initial)
          (open_listener os path group calls)
  unfolding open_listener
  open_listener-Facts keeps calls f =
      Ensures-then Clear (λ c. Bound c × IsReady os path group c)
        (Facts os initial none none initial) (acquire_instance_lock os path calls) _
        (acquire-Facts os initial path calls f)
        (λ u c held.
          or_unlock-Facts (λ c. Bound c × IsReady os path group c) _
            (Ensures-then Clear (λ c. Bound c × IsReady os path group c) Clear
              (prepare_socket_path os path c) _ (prepare-Facts os initial path c held)
              (λ v d clear. bind-Facts keeps d clear)))
