-- ===== src/Listener/Serving/Drain.antt =====
-- The process can exit without the drain's deadline once every connection can be told.
use docker_socket_policy.Base.{
  ℕ, ◌<◌, Bool, true, false, some, List, [], ◌∷◌, ◌≡◌, refl, ◌∙◌, ltb, All, all, arith,
}
use docker_socket_policy.Listener.Serving.{
  release, exited, Connection, respond, tell, close, Activity, idle, busy, done, connection_step,
  draining, Server, Event, connection, join, drained, step, run,
}
use docker_socket_policy.Listener.Serving.Late.{goes_on}

-- The events that end the first connection and join its task.
unfoldable finish : (closing : Bool) → Activity → List Event → List Event
finish closing done events = join 0 ∷ events
finish true idle events = connection 0 close ∷ join 0 ∷ events
finish true busy events = connection 0 respond ∷ join 0 ∷ events
finish false idle events = connection 0 tell ∷ connection 0 close ∷ join 0 ∷ events
finish false busy events = connection 0 tell ∷ connection 0 respond ∷ join 0 ∷ events

unfoldable drain : List Connection → List Event
drain [] = drained ∷ release ∷ []
drain (c ∷ cs) = finish c.closing c.activity (drain cs)

finish-goes_on :
    (closing : Bool) (activity : Activity) (events : List Event)
    → all goes_on events ≡ true
    → all goes_on (finish closing activity events) ≡ true
unfolding finish
finish-goes_on true idle events h = h
finish-goes_on true busy events h = h
finish-goes_on true done events h = h
finish-goes_on false idle events h = h
finish-goes_on false busy events h = h
finish-goes_on false done events h = h

drain-goes_on : (cs : List Connection) → all goes_on (drain cs) ≡ true
unfolding drain
drain-goes_on [] = refl
drain-goes_on (c ∷ cs) = finish-goes_on c.closing c.activity (drain cs) (drain-goes_on cs)

abbrev pub Told : (sent : ℕ) → Connection → Type 0
Told sent c = c.subscribed < sent

run-finish :
    (closing : Bool) (activity : Activity) (subscribed : ℕ) (events : List Event)
    (cs : List Connection) (s : Server)
    → s.phase ≡ draining
    → subscribed < s.sent
    → run (finish closing activity events) (record s {
      conns = record { subscribed = subscribed; closing = closing; activity = activity } ∷ cs;
    })
      ≡ run events (record s { conns = cs })
unfolding run finish step connection_step
run-finish true idle n events cs s p told = rw (p) refl
run-finish true busy n events cs s p told = rw (p) refl
run-finish true done n events cs s p told = rw (p) refl
run-finish false idle n events cs s p told =
    let can : ltb n s.sent ≡ true = ground arith in rw (can, p) refl
run-finish false busy n events cs s p told =
    let can : ltb n s.sent ≡ true = ground arith in rw (can, p) refl
run-finish false done n events cs s p told = rw (p) refl

run-drain :
    (cs : List Connection) (s : Server)
    → s.phase ≡ draining
    → All (Told s.sent) cs
    → run (drain cs) (record s { conns = cs })
      ≡ some (record s { phase = exited; lock_held = false; conns = [] })
unfolding run drain step
run-drain [] s p told = rw (p) refl
run-drain (c ∷ cs) s p (before, told) =
    run-finish c.closing c.activity c.subscribed (drain cs) cs s p before ∙ run-drain cs s p told

-- If every connection was accepted before the last broadcast, the process can exit from the drain without
-- another signal, without a client that hangs up, and before the deadline: the requests in flight are
-- answered, no connection is left, and then the lock is released.
pub drain-exited :
    (s : Server)
    → s.phase ≡ draining
    → All (Told s.sent) s.conns
    → (events : List Event) × (all goes_on events ≡ true)
      × (run events s ≡ some (record s { phase = exited; lock_held = false; conns = [] }))
drain-exited s p told = (drain s.conns, drain-goes_on s.conns, run-drain s.conns s p told)
