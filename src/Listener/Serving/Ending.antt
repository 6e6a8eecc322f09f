-- ===== src/Listener/Serving/Ending.antt =====
-- The shutdown ends: every event but a request brings it nearer.
use docker_socket_policy.Base.{
  ℕ, zero, suc, ◌+◌, ◌≤◌, ◌<◌, Bool, true, false, not, ◌&&◌, some, List, [], ◌∷◌, ◌≡◌, refl, subst,
  ltb, is_empty, length, all, arith,
}
use docker_socket_policy.Listener.Serving.{
  Connection, ConnectionEvent, request, respond, tell, close, hang_up, Activity, is_idle, is_busy,
  is_done, idle, busy, done, after_response, connection_step, Phase, accepting, draining, closed,
  exited, is_accepting, is_draining, is_closed, Server, Event, signal, accept, accept_error, stop,
  connection, join, drained, deadline, release, update_at, joined, step, run,
}
use docker_socket_policy.Listener.Serving.Tasks.{
  when-eq-some, then_run-eq-some, with_conns-eq-some, prepend_to-eq-some, replace_first-eq-some,
  join-eq-some,
}
use docker_socket_policy.Listener.Serving.Runs.{is_draining-eq-true, is_closed-eq-true}

abbrev if_so : Bool → ℕ
if_so true = 1
if_so false = 0

-- The events that a connection can still have, without new requests.
abbrev weight : Activity → (closing : Bool) → ℕ
weight activity closing =
    1 + (if_so (not (is_done activity)) + (if_so (is_busy activity) + if_so (not closing)))

abbrev left_of : Connection → ℕ
left_of c = weight c.activity c.closing

abbrev left_of_all : List Connection → ℕ
left_of_all [] = 0
left_of_all (c ∷ cs) = left_of c + left_of_all cs

abbrev left_in : Phase → ℕ
left_in accepting = 3
left_in draining = 2
left_in closed = 1
left_in exited = 0

-- And those of the process.
unfoldable pub left : Server → ℕ
left s = left_in s.phase + (s.pending + left_of_all s.conns)

abbrev is_request : ConnectionEvent → Bool
is_request request = true
is_request event = false

abbrev pub without_request : Event → Bool
without_request (connection i request) = false
without_request event = true

respond-weight :
    (activity : Activity) (closing : Bool)
    → is_busy activity ≡ true
    → weight (after_response closing) closing < weight activity closing
respond-weight idle closing h = cc
respond-weight busy true h = omega arith
respond-weight busy false h = omega arith
respond-weight done closing h = cc

tell-weight :
    (activity : Activity) (closing : Bool)
    → not closing ≡ true
    → weight activity true < weight activity closing
tell-weight activity true h = cc
tell-weight activity false h = omega arith

done-weight :
    (activity : Activity) (closing : Bool)
    → not (is_done activity) ≡ true
    → weight done closing < weight activity closing
done-weight idle closing h = omega arith
done-weight busy closing h = omega arith
done-weight done closing h = cc

idle-not_done : (activity : Activity) → is_idle activity ≡ true → not (is_done activity) ≡ true
idle-not_done idle h = refl
idle-not_done busy h = refl
idle-not_done done h = cc

abbrev Shrinks : Connection → Connection → Type 0
Shrinks c d = left_of d < left_of c

connection_step-left :
    (sent : ℕ) (event : ConnectionEvent) (c d : Connection)
    → is_request event ≡ false
    → connection_step sent event c ≡ some d
    → Shrinks c d
unfolding connection_step
connection_step-left sent request c d on h = cc
connection_step-left sent respond c d on h =
    let (can, same) = when-eq-some (is_busy c.activity) h in
    subst (Shrinks c) same (respond-weight c.activity c.closing can)
connection_step-left sent tell c d on h =
    let (can, same) = when-eq-some _ h in
    subst (Shrinks c) same (tell-weight c.activity c.closing (ground arith))
connection_step-left sent close c d on h =
    let (can, same) = when-eq-some _ h in
    subst (Shrinks c) same
      (done-weight c.activity c.closing (idle-not_done c.activity (ground arith)))
connection_step-left sent hang_up c d on h =
    let (can, same) = when-eq-some _ h in
    subst (Shrinks c) same (done-weight c.activity c.closing can)

update_at-left :
    (sent : ℕ) (event : ConnectionEvent) (i : ℕ) (cs : List Connection) {ds : List Connection}
    → is_request event ≡ false
    → update_at i (connection_step sent event) cs ≡ some ds
    → left_of_all ds < left_of_all cs
update_at-left sent event i [] on h = cc
update_at-left sent event zero (c ∷ cs) on h =
    let (d, e, same) = replace_first-eq-some (connection_step sent event c) cs h in
    let less = connection_step-left sent event c d on e in
    subst (λ ds. left_of_all ds < left_of_all (c ∷ cs)) same (omega arith)
update_at-left sent event (suc i) (c ∷ cs) on h =
    let (rest, e, same) = prepend_to-eq-some c (update_at i (connection_step sent event) cs) h in
    let less = update_at-left sent event i cs on e in
    subst (λ ds. left_of_all ds < left_of_all (c ∷ cs)) same (omega arith)

joined-left :
    (i : ℕ) (cs : List Connection) {ds : List Connection}
    → joined i cs ≡ some ds
    → left_of_all ds < left_of_all cs
joined-left i [] h = cc
joined-left zero (c ∷ cs) h =
    let (_, same) = when-eq-some (is_done c.activity) h in
    subst (λ ds. left_of_all ds < left_of_all (c ∷ cs)) same (omega arith)
joined-left (suc i) (c ∷ cs) h =
    let (rest, e, same) = prepend_to-eq-some c (joined i cs) h in
    let less = joined-left i cs e in
    subst (λ ds. left_of_all ds < left_of_all (c ∷ cs)) same (omega arith)

-- The process is past its accepting phase, and stays there.
record Nearer (s s' : Server) : Type 0 where
  past : is_accepting s'.phase ≡ false
  fewer : left s' < left s

connection-Nearer :
    (i : ℕ) (event : ConnectionEvent) (s : Server) {s' : Server}
    → is_request event ≡ false
    → step (connection i event) s ≡ some s'
    → is_accepting s.phase ≡ false
    → Nearer s s'
unfolding step left
connection-Nearer i event s on h past =
    let (cs, e, same) =
      with_conns-eq-some s (update_at i (connection_step s.sent event) s.conns) h in
    let less = update_at-left s.sent event i s.conns on e in
    subst (Nearer s) same (record { past = past; fewer = omega arith })

step-Nearer :
    (event : Event) (s : Server) {s' : Server}
    → without_request event ≡ true
    → step event s ≡ some s'
    → is_accepting s.phase ≡ false
    → Nearer s s'
unfolding step left
step-Nearer signal s on h past =
    let (can, same) = when-eq-some (ltb 0 s.pending) h in
    subst (Nearer s) same (record { past = past; fewer = ground arith })
step-Nearer accept s on h past = let (can, _) = when-eq-some (is_accepting s.phase) h in cc
step-Nearer accept_error s on h past = let (can, _) = when-eq-some (is_accepting s.phase) h in cc
step-Nearer (stop r) s on h past =
    let (can, _) = when-eq-some (is_accepting s.phase && ltb 0 s.sent) h in absurd (ground arith)
step-Nearer (connection i request) s on h past = cc
step-Nearer (connection i respond) s on h past = connection-Nearer i respond s refl h past
step-Nearer (connection i tell) s on h past = connection-Nearer i tell s refl h past
step-Nearer (connection i close) s on h past = connection-Nearer i close s refl h past
step-Nearer (connection i hang_up) s on h past = connection-Nearer i hang_up s refl h past
step-Nearer (join i) s on h past =
    let (cs, _, e, same) = join-eq-some i s h in
    let less = joined-left i s.conns e in
    subst (Nearer s) same (record { past = past; fewer = omega arith })
step-Nearer drained s on h past =
    let (can, same) = when-eq-some (is_draining s.phase && is_empty s.conns) h in
    let phase = is_draining-eq-true s.phase (ground arith) in
    subst (Nearer s) same (record { past = refl; fewer = rw phase (omega arith) })
step-Nearer deadline s on h past =
    let (can, same) = when-eq-some (is_draining s.phase) h in
    let phase = is_draining-eq-true s.phase can in
    subst (Nearer s) same (record { past = refl; fewer = rw phase (omega arith) })
step-Nearer release s on h past =
    let (can, same) = when-eq-some (is_closed s.phase) h in
    let phase = is_closed-eq-true s.phase can in
    subst (Nearer s) same (record { past = refl; fewer = rw phase (omega arith) })

-- Once the listener has stopped accepting, a sequence of events without a new request has at most `left`
-- events, whatever they are and in whatever order: what each of them takes off is never given back.
pub run-left :
    (events : List Event) (s : Server) {s' : Server}
    → all without_request events ≡ true
    → is_accepting s.phase ≡ false
    → run events s ≡ some s'
    → length events + left s' ≤ left s
unfolding run
run-left [] s {s'} on past h = let same : s ≡ s' = ground arith in rw (← same) (omega arith)
run-left (event ∷ events) s on past h =
    let (t, e, h1) = then_run-eq-some (step event s) (run events) h in
    let nearer = step-Nearer event s (ground arith) e past in
    let rest = run-left events t (ground arith) nearer.past h1 in
    let fewer = nearer.fewer in omega arith
