-- ===== src/Listener/Serving/Runs.antt =====
-- What holds of the listener after every sequence of events.
use docker_socket_policy.Base.{
  ℕ, suc, ◌≤◌, ◌<◌, true, false, not, ◌&&◌, ◌||◌, some, List, [], ◌∷◌, ◌≡◌, refl, ◌⊎◌, inl, inr,
  subst, ltb, is_empty, All, arith,
}
use docker_socket_policy.Listener.Serving.Tasks.{
  when-eq-some, then_run-eq-some, with_conns-eq-some, update_at-All, joined-All, join-eq-some,
  update_at-nil,
}
use docker_socket_policy.Listener.Serving.{
  Connection, ConnectionEvent, request, respond, tell, close, hang_up, connection_step, Phase,
  accepting, is_accepting, is_draining, is_closed, is_exited, draining, closed, exited, Server,
  spawned, Event, signal, accept, accept_error, stop, connection, join, drained, deadline, release,
  update_at, step, run,
}

-- A connection subscribed after some of the broadcasts that were sent, and it is shut down only if one
-- was sent after that.
abbrev pub IsTracked : (sent : ℕ) → Connection → Type 0
IsTracked sent c = (c.subscribed ≤ sent) × ((c.closing ≡ false) ⊎ (c.subscribed < sent))

pub record IsValid (s : Server) : Type 0 where
  pub listens : s.listening ≡ is_accepting s.phase
  pub locks : s.lock_held ≡ not (is_exited s.phase)
  pub signalled : (is_accepting s.phase ≡ true) ⊎ (0 < s.sent)
  pub over : ((is_accepting s.phase || is_draining s.phase) ≡ true) ⊎ (s.conns ≡ [])
  pub tracked : All (IsTracked s.sent) s.conns

connection_step-IsTracked :
    (sent : ℕ) (event : ConnectionEvent) (c d : Connection)
    → connection_step sent event c ≡ some d
    → IsTracked sent c
    → IsTracked sent d
unfolding connection_step
connection_step-IsTracked sent request c d h t = subst (IsTracked sent) (when-eq-some _ h).1 t
connection_step-IsTracked sent respond c d h t = subst (IsTracked sent) (when-eq-some _ h).1 t
connection_step-IsTracked sent tell c d h t =
    let (b, same) = when-eq-some _ h in subst (IsTracked sent) same (t.0, inr (ground arith))
connection_step-IsTracked sent close c d h t = subst (IsTracked sent) (when-eq-some _ h).1 t
connection_step-IsTracked sent hang_up c d h t = subst (IsTracked sent) (when-eq-some _ h).1 t

IsTracked-suc :
    (sent : ℕ) (cs : List Connection) → All (IsTracked sent) cs → All (IsTracked (suc sent)) cs
IsTracked-suc sent [] t = tt
IsTracked-suc sent (c ∷ cs) ((bound, inl open_now), t) =
    ((omega arith, inl open_now), IsTracked-suc sent cs t)
IsTracked-suc sent (c ∷ cs) ((bound, inr before), t) =
    ((omega arith, inr (omega arith)), IsTracked-suc sent cs t)

pub is_accepting-eq-true : (p : Phase) → is_accepting p ≡ true → p ≡ accepting
is_accepting-eq-true accepting h = refl
is_accepting-eq-true draining h = cc
is_accepting-eq-true closed h = cc
is_accepting-eq-true exited h = cc

pub is_draining-eq-true : (p : Phase) → is_draining p ≡ true → p ≡ draining
is_draining-eq-true accepting h = cc
is_draining-eq-true draining h = refl
is_draining-eq-true closed h = cc
is_draining-eq-true exited h = cc

pub is_closed-eq-true : (p : Phase) → is_closed p ≡ true → p ≡ closed
is_closed-eq-true accepting h = cc
is_closed-eq-true draining h = cc
is_closed-eq-true closed h = refl
is_closed-eq-true exited h = cc

-- A run is past the broadcast in every phase but the first.
signalled-in :
    {s : Server} (p : Phase) → s.phase ≡ p → is_accepting p ≡ false → IsValid s → 0 < s.sent
signalled-in p e started v = elim v.signalled [
  | inl on ↦ let off : is_accepting p ≡ true = rw (← e) on in cc
  | inr sent ↦ sent
]

-- The set is empty once the task is over.
nothing-in :
    {s : Server} (p : Phase)
    → s.phase ≡ p
    → (is_accepting p || is_draining p) ≡ false
    → IsValid s
    → s.conns ≡ []
nothing-in p e over v = elim v.over [
  | inl on ↦ let still_on : (is_accepting p || is_draining p) ≡ true = rw (← e) on in cc
  | inr nothing ↦ nothing
]

pub is_empty-eq-true {ℓ} : {A : Type ℓ} (xs : List A) → is_empty xs ≡ true → xs ≡ []
is_empty-eq-true [] h = refl
is_empty-eq-true (x ∷ xs) h = cc

pub step-IsValid :
    (event : Event) (s : Server) {s' : Server} → step event s ≡ some s' → IsValid s → IsValid s'
unfolding step
step-IsValid signal s h v = subst IsValid (when-eq-some (ltb 0 s.pending) h).1 (record {
  listens = v.listens;
  locks = v.locks;
  signalled = inr (omega arith);
  over = v.over;
  tracked = IsTracked-suc s.sent s.conns v.tracked;
})
step-IsValid accept s h v =
    let (on, same) = when-eq-some (is_accepting s.phase) h in
    subst IsValid same (record {
      listens = v.listens;
      locks = v.locks;
      signalled = v.signalled;
      over = inl (ground arith);
      tracked = ((omega arith, inl refl), v.tracked);
    })
step-IsValid accept_error s h v = subst IsValid (when-eq-some (is_accepting s.phase) h).1 v
step-IsValid (stop unlinked) s h v =
    let (on, same) = when-eq-some (is_accepting s.phase && ltb 0 s.sent) h in
    let phase = is_accepting-eq-true s.phase (ground arith) in
    subst IsValid same (record {
      listens = refl;
      locks = rw (phase) at v.locks;
      signalled = inr (ground arith);
      over = inl refl;
      tracked = v.tracked;
    })
step-IsValid (connection i event) s h v =
    let (cs, e, same) =
      with_conns-eq-some s (update_at i (connection_step s.sent event) s.conns) h in
    subst IsValid same (record {
      listens = v.listens;
      locks = v.locks;
      signalled = v.signalled;
      over = elim v.over [
        | inl on ↦ inl on
        | inr nothing ↦ inr (update_at-nil i (connection_step s.sent event) s.conns nothing e)
      ];
      tracked =
          update_at-All (IsTracked s.sent) _ (connection_step-IsTracked s.sent event) i s.conns e
            v.tracked;
    })
step-IsValid (join i) s h v =
    let (cs, on, e, same) = join-eq-some i s h in
    subst IsValid same (record {
      listens = v.listens;
      locks = v.locks;
      signalled = v.signalled;
      over = inl (ground arith);
      tracked = joined-All (IsTracked s.sent) i s.conns e v.tracked;
    })
step-IsValid drained s h v =
    let (on, same) = when-eq-some (is_draining s.phase && is_empty s.conns) h in
    let phase = is_draining-eq-true s.phase (ground arith) in
    subst IsValid same (record {
      listens = rw (phase) at v.listens;
      locks = rw (phase) at v.locks;
      signalled = inr (signalled-in draining phase refl v);
      over = inr (is_empty-eq-true s.conns (ground arith));
      tracked = v.tracked;
    })
step-IsValid deadline s h v =
    let (on, same) = when-eq-some (is_draining s.phase) h in
    let phase = is_draining-eq-true s.phase on in
    subst IsValid same (record {
      listens = rw (phase) at v.listens;
      locks = rw (phase) at v.locks;
      signalled = inr (signalled-in draining phase refl v);
      over = inr refl;
      tracked = tt;
    })
step-IsValid release s h v =
    let (on, same) = when-eq-some (is_closed s.phase) h in
    let phase = is_closed-eq-true s.phase on in
    subst IsValid same (record {
      listens = rw (phase) at v.listens;
      locks = refl;
      signalled = inr (signalled-in closed phase refl v);
      over = inr (nothing-in closed phase refl v);
      tracked = v.tracked;
    })

run-IsValid :
    (events : List Event) (s : Server) {s' : Server}
    → run events s ≡ some s'
    → IsValid s
    → IsValid s'
unfolding run
run-IsValid [] s h v = subst IsValid (ground arith) v
run-IsValid (event ∷ events) s h v =
    let (t, e, h1) = then_run-eq-some (step event s) (run events) h in
    run-IsValid events t h1 (step-IsValid event s e v)

-- After any sequence of events from the start, the socket listens exactly in the accepting phase and the
-- instance's lock is held until the process exits; past the accepting phase a broadcast was sent, and
-- past the drain no connection is left. A connection is shut down only if a broadcast was sent after it
-- was accepted.
pub run-spawned-IsValid :
    (events : List Event) {s : Server} → run events spawned ≡ some s → IsValid s
run-spawned-IsValid events h =
    run-IsValid events spawned h
      (record { listens = refl; locks = refl; signalled = inl refl; over = inl refl; tracked = tt })
