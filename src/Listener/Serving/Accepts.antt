-- ===== src/Listener/Serving/Accepts.antt =====
-- How many tasks the JoinSet holds while the listener accepts.
use docker_socket_policy.Base.{ℕ, ◌+◌, true, false, some, List, [], ◌∷◌, ◌≡◌, ltb, length, arith}
use docker_socket_policy.Listener.Serving.Tasks.{
  when-eq-some, then_run-eq-some, with_conns-eq-some, join-eq-some, update_at-length,
}
use docker_socket_policy.Listener.Serving.{
  connection_step, is_accepting, Server, spawned, Event, signal, accept, accept_error, stop,
  connection, join, drained, deadline, release, step, run,
}
use docker_socket_policy.Listener.Serving.Runs.{is_accepting-eq-true}

abbrev accepted_by : Event → ℕ
accepted_by accept = 1
accepted_by event = 0

-- The connections accepted in a sequence of events.
unfoldable pub accepts : List Event → ℕ
accepts [] = 0
accepts (event ∷ events) = accepted_by event + accepts events

-- The accepting phase is not entered again, and in it no task leaves the set.
step-is_accepting :
    (event : Event) (s : Server) {s' : Server}
    → step event s ≡ some s'
    → is_accepting s'.phase ≡ true
    → (is_accepting s.phase ≡ true) × (length s'.conns ≡ accepted_by event + length s.conns)
unfolding step
step-is_accepting signal s h on =
    let (_, same) = when-eq-some (ltb 0 s.pending) h in rw (← same) (rw (← same) at on, omega arith)
step-is_accepting accept s h on =
    let (_, same) = when-eq-some (is_accepting s.phase) h in
    rw (← same) (rw (← same) at on, omega arith)
step-is_accepting accept_error s h on =
    let (_, same) = when-eq-some (is_accepting s.phase) h in
    rw (← same) (rw (← same) at on, omega arith)
step-is_accepting (stop r) s h on =
    let (_, same) = when-eq-some _ h in let off : false ≡ true = rw (← same) at on in cc
step-is_accepting (connection i event) s h on =
    let (cs, e, same) = with_conns-eq-some s _ h in
    rw (← same) (
      rw (← same) at on,
      (let kept = update_at-length i (connection_step s.sent event) s.conns e in omega arith),
    )
step-is_accepting (join i) s h on =
    let (cs, draining_on, _, same) = join-eq-some i s h in
    let accepting_on : is_accepting s.phase ≡ true = rw (← same) at on in
    let off : false ≡ true = rw (is_accepting-eq-true s.phase accepting_on) at draining_on in cc
step-is_accepting drained s h on =
    let (_, same) = when-eq-some _ h in let off : false ≡ true = rw (← same) at on in cc
step-is_accepting deadline s h on =
    let (_, same) = when-eq-some _ h in let off : false ≡ true = rw (← same) at on in cc
step-is_accepting release s h on =
    let (_, same) = when-eq-some _ h in let off : false ≡ true = rw (← same) at on in cc

run-accepts :
    (events : List Event) (s : Server) {s' : Server}
    → run events s ≡ some s'
    → is_accepting s'.phase ≡ true
    → (is_accepting s.phase ≡ true) × (length s'.conns ≡ accepts events + length s.conns)
unfolding run accepts
run-accepts [] s {s'} h on =
    let same : s ≡ s' = ground arith in rw (← same) (rw (← same) at on, omega arith)
run-accepts (event ∷ events) s h on =
    let (t, e, h1) = then_run-eq-some (step event s) (run events) h in
    let (still_on, grown) = run-accepts events t h1 on in
    let (before, one) = step-is_accepting event s e still_on in (before, omega arith)

-- While the listener accepts, the set holds a task for every connection that was ever accepted, those
-- that are done included.
pub run-spawned-accepts :
    (events : List Event) {s : Server}
    → run events spawned ≡ some s
    → is_accepting s.phase ≡ true
    → length s.conns ≡ accepts events
run-spawned-accepts events h on = let (_, grown) = run-accepts events spawned h on in omega arith
