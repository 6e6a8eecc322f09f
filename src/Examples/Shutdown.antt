-- ===== src/Examples/Shutdown.antt =====
-- The service and the shutdown of the listener.
use docker_socket_policy.Base.{
  ◌≤◌, ◌+◌, true, false, some, List, [], ◌∷◌, ◌≡◌, refl, ok, all, arith,
}
use docker_socket_policy.Listener.Serving.{
  Connection, idle, busy, done, request, respond, tell, join, hang_up, connection_step, draining,
  exited, Server, spawned, Event, signal, accept, stop, connection, step, run,
}
use docker_socket_policy.Listener.Serving.Runs.{IsValid, run-spawned-IsValid}
use docker_socket_policy.Listener.Serving.Late.{goes_on, late_accept-draining}
use docker_socket_policy.Listener.Serving.Accepts.{accepts, run-spawned-accepts}
use docker_socket_policy.Listener.Serving.Ending.{left, run-left}
use docker_socket_policy.Listener.Serving.Drain.{drain-exited}
use docker_socket_policy.Examples.{program}

-- What the tests run of the shutdown.
shutdown_program : Unit {0}
unfolding program connection_step step run accepts
shutdown_program = tt

-- A request in flight when the signal comes.
abbrev shutdown : List Event
shutdown = accept ∷ connection 0 request ∷ signal ∷ stop (ok tt) ∷ []

abbrev in_flight : Connection
in_flight = record { subscribed = 0; closing = false; activity = busy }

abbrev stopped : Server
stopped = record spawned {
  phase = draining;
  listening = false;
  linked = false;
  pending = 1;
  sent = 1;
  conns = in_flight ∷ [];
}

run-spawned-IsValid_example : IsValid stopped
unfolding shutdown_program
run-spawned-IsValid_example = run-spawned-IsValid shutdown refl

drain-exited_example :
    (events : List Event) × (all goes_on events ≡ true)
    × (run events stopped ≡ some (record stopped { phase = exited; lock_held = false; conns = [] }))
drain-exited_example = drain-exited stopped refl (omega arith, tt)

-- The request is answered, and the task joined.
abbrev answered : List Event
answered = connection 0 tell ∷ connection 0 respond ∷ join 0 ∷ []

answered_runs : run answered stopped ≡ some (record stopped { conns = [] })
unfolding shutdown_program
answered_runs = refl

run-left_example : 3 + left (record stopped { conns = [] }) ≤ left stopped
run-left_example = run-left answered stopped refl refl answered_runs

abbrev signalled : Server
signalled = record spawned { pending = 1; sent = 1 }

-- A connection after the signal is served, and the drain goes on.
late_accept-draining_example : draining ≡ draining
unfolding shutdown_program
late_accept-draining_example =
    late_accept-draining (ok tt) (connection 0 request ∷ connection 0 respond ∷ []) signalled
      {s' = record stopped {
        conns = record { subscribed = 1; closing = false; activity = idle } ∷ [];
      }}
      refl refl

abbrev visits : List Event
visits = accept ∷ connection 0 hang_up ∷ accept ∷ []

run-spawned-accepts_example : 2 ≡ accepts visits
unfolding shutdown_program
run-spawned-accepts_example =
    run-spawned-accepts visits
      {s = record spawned {
        conns =
            record { subscribed = 0; closing = false; activity = idle }
            ∷ record { subscribed = 0; closing = false; activity = done }
            ∷ [];
      }}
      refl refl
