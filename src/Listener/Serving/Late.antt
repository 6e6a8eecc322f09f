-- ===== src/Listener/Serving/Late.antt =====
-- A connection that subscribes after the last broadcast.
use docker_socket_policy.Base.{
  ℕ, zero, suc, Bool, true, false, ◌&&◌, some, List, [], ◌∷◌, ◌≡◌, refl, ◌⊎◌, inl, inr, subst, ltb,
  is_empty, all, Result, arith,
}
use docker_socket_policy.Listener.Effects.{OsError}
use docker_socket_policy.Listener.Serving.Tasks.{
  when-eq-some, then_run-eq-some, with_conns-eq-some, prepend_to-eq-some, replace_first-eq-some,
  join-eq-some,
}
use docker_socket_policy.Listener.Serving.{
  Connection, ConnectionEvent, request, respond, tell, close, hang_up, is_done, connection_step,
  is_accepting, is_draining, is_closed, draining, Server, Event, signal, accept, accept_error, stop,
  connection, join, drained, deadline, release, update_at, joined, step, run,
}

-- The events of the connections' requests and of the drain: no signal, no client that hangs up, and not
-- the deadline.
abbrev pub goes_on : Event → Bool
goes_on signal = false
goes_on deadline = false
goes_on (connection i hang_up) = false
goes_on event = true

-- A connection that was open and told of nothing when the last broadcast so far was sent.
abbrev IsLate : (sent : ℕ) → Connection → Type 0
IsLate sent c = (c.subscribed ≡ sent) × (c.closing ≡ false) × (is_done c.activity ≡ false)

abbrev SomeLate : (sent : ℕ) → List Connection → Type 0
SomeLate sent [] = ⊥
SomeLate sent (c ∷ cs) = IsLate sent c ⊎ SomeLate sent cs

abbrev is_hang_up : ConnectionEvent → Bool
is_hang_up hang_up = true
is_hang_up event = false

connection_step-IsLate :
    (sent : ℕ) (event : ConnectionEvent) (c d : Connection)
    → is_hang_up event ≡ false
    → connection_step sent event c ≡ some d
    → IsLate sent c
    → IsLate sent d
unfolding connection_step
connection_step-IsLate sent request c d on h late =
    subst (IsLate sent) (when-eq-some _ h).1 (late.0, late.1, refl)
connection_step-IsLate sent respond c d on h (last, open_now, running) =
    subst (IsLate sent) (when-eq-some _ h).1 (last, open_now, rw (open_now) refl)
connection_step-IsLate sent tell c d on h (last, open_now, running) =
    let (can, _) = when-eq-some _ h in absurd (ground arith)
connection_step-IsLate sent close c d on h (last, open_now, running) =
    let (can, _) = when-eq-some _ h in absurd (ground arith)
connection_step-IsLate sent hang_up c d on h late = cc

update_at-SomeLate :
    (sent : ℕ) (event : ConnectionEvent) (i : ℕ) (cs : List Connection) {ds : List Connection}
    → is_hang_up event ≡ false
    → update_at i (connection_step sent event) cs ≡ some ds
    → SomeLate sent cs
    → SomeLate sent ds
update_at-SomeLate sent event i [] on h late = absurd late
update_at-SomeLate sent event zero (c ∷ cs) on h late =
    let (d, e, same) = replace_first-eq-some (connection_step sent event c) cs h in
    subst (SomeLate sent) same (elim late [
      | inl this ↦ inl (connection_step-IsLate sent event c d on e this)
      | inr other ↦ inr other
    ])
update_at-SomeLate sent event (suc i) (c ∷ cs) on h late =
    let (rest, e, same) = prepend_to-eq-some c (update_at i (connection_step sent event) cs) h in
    subst (SomeLate sent) same (elim late [
      | inl this ↦ inl this
      | inr other ↦ inr (update_at-SomeLate sent event i cs on e other)
    ])

joined-SomeLate :
    (sent : ℕ) (i : ℕ) (cs : List Connection) {ds : List Connection}
    → joined i cs ≡ some ds
    → SomeLate sent cs
    → SomeLate sent ds
joined-SomeLate sent i [] h late = absurd late
joined-SomeLate sent zero (c ∷ cs) h late =
    let (over, same) = when-eq-some (is_done c.activity) h in
    subst (SomeLate sent) same (elim late [ inl this ↦ absurd (ground arith) | inr other ↦ other ])
joined-SomeLate sent (suc i) (c ∷ cs) h late =
    let (rest, e, same) = prepend_to-eq-some c (joined i cs) h in
    subst (SomeLate sent) same
      (elim late [ inl this ↦ inl this | inr other ↦ inr (joined-SomeLate sent i cs e other) ])

record Waits (s : Server) : Type 0 where
  phase : s.phase ≡ draining
  late : SomeLate s.sent s.conns

connection-Waits :
    (i : ℕ) (event : ConnectionEvent) (s : Server) {s' : Server}
    → is_hang_up event ≡ false
    → step (connection i event) s ≡ some s'
    → Waits s
    → Waits s'
unfolding step
connection-Waits i event s on h w =
    let (cs, e, same) =
      with_conns-eq-some s (update_at i (connection_step s.sent event) s.conns) h in
    subst Waits same
      (record { phase = w.phase; late = update_at-SomeLate s.sent event i s.conns on e w.late })

SomeLate-is_empty : (sent : ℕ) (cs : List Connection) → SomeLate sent cs → is_empty cs ≡ false
SomeLate-is_empty sent [] late = absurd late
SomeLate-is_empty sent (c ∷ cs) late = refl

step-Waits :
    (event : Event) (s : Server) {s' : Server}
    → goes_on event ≡ true
    → step event s ≡ some s'
    → Waits s
    → Waits s'
unfolding step
step-Waits signal s on h w = cc
step-Waits accept s on h w =
    let off : false ≡ true = rw (w.phase) at (when-eq-some (is_accepting s.phase) h).0 in cc
step-Waits accept_error s on h w =
    let off : false ≡ true = rw (w.phase) at (when-eq-some (is_accepting s.phase) h).0 in cc
step-Waits (stop r) s on h w =
    let off : false ≡ true =
      rw (w.phase) at (when-eq-some (is_accepting s.phase && ltb 0 s.sent) h).0 in
    cc
step-Waits (connection i request) s on h w = connection-Waits i request s refl h w
step-Waits (connection i respond) s on h w = connection-Waits i respond s refl h w
step-Waits (connection i tell) s on h w = connection-Waits i tell s refl h w
step-Waits (connection i close) s on h w = connection-Waits i close s refl h w
step-Waits (connection i hang_up) s on h w = cc
step-Waits (join i) s on h w =
    let (cs, _, e, same) = join-eq-some i s h in
    subst Waits same (record { phase = w.phase; late = joined-SomeLate s.sent i s.conns e w.late })
step-Waits drained s on h w =
    let (can, _) = when-eq-some (is_draining s.phase && is_empty s.conns) h in
    let nonempty = SomeLate-is_empty s.sent s.conns w.late in
    let off : (is_draining draining && false) ≡ true = rw (w.phase, nonempty) at can in cc
step-Waits deadline s on h w = cc
step-Waits release s on h w =
    let off : false ≡ true = rw (w.phase) at (when-eq-some (is_closed s.phase) h).0 in cc

run-Waits :
    (events : List Event) (s : Server) {s' : Server}
    → all goes_on events ≡ true
    → run events s ≡ some s'
    → Waits s
    → Waits s'
unfolding run
run-Waits [] s on h w = subst Waits (ground arith) w
run-Waits (event ∷ events) s on h w =
    let (t, e, h1) = then_run-eq-some (step event s) (run events) h in
    run-Waits events t (ground arith) h1 (step-Waits event s (ground arith) e w)

accept_stop-Waits :
    (unlinked : Result OsError (Unit {0})) (s : Server) {s1 s2 : Server}
    → step accept s ≡ some s1
    → step (stop unlinked) s1 ≡ some s2
    → Waits s2
unfolding step
accept_stop-Waits unlinked s {s1} h1 h2 =
    let (_, accepted) = when-eq-some (is_accepting s.phase) h1 in
    let (_, stopped) = when-eq-some (is_accepting s1.phase && ltb 0 s1.sent) h2 in
    subst Waits stopped (record { phase = refl; late = rw (← accepted) (inl (refl, refl, refl)) })

-- If a connection is accepted just before the loop takes the broadcast, so after it was sent, the drain
-- goes on as long as no other signal comes, no client hangs up, and the deadline is not reached, whatever
-- requests are served, connections closed and tasks joined.
pub late_accept-draining :
    (unlinked : Result OsError (Unit {0})) (events : List Event) (s : Server) {s' : Server}
    → all goes_on events ≡ true
    → run (accept ∷ stop unlinked ∷ events) s ≡ some s'
    → s'.phase ≡ draining
unfolding run
late_accept-draining unlinked events s on h =
    let (s1, h1, rest) = then_run-eq-some (step accept s) (run (stop unlinked ∷ events)) h in
    let (s2, h2, later) = then_run-eq-some (step (stop unlinked) s1) (run events) rest in
    (run-Waits events s2 on later (accept_stop-Waits unlinked s h1 h2)).phase
