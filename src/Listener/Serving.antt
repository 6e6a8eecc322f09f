-- ===== src/Listener/Serving.antt =====
-- rs/src/main.rs: spawn_unix_listener, serve_connection, and the shutdown of `main`, as events of the
-- process. tokio's select, broadcast channel and JoinSet choose their order: any event may come next.
pub mod Tasks
pub mod Runs
pub mod Accepts
pub mod Late
pub mod Drain
pub mod Ending
use docker_socket_policy.Base.{
  ℕ, zero, suc, ◌-◌, Bool, true, false, not, ◌&&◌, Option, none, some, List, [], ◌∷◌, ◌++◌, Result,
  ok, err, ltb, is_empty,
}
use docker_socket_policy.Listener.Effects.{ErrorKind, not_found, OsError}

-- What the task of a connection does.
pub data Activity : Type 0 where
  idle busy done : Activity

-- `subscribed` is how many broadcasts were sent before the connection's receiver was made: the
-- receiver gets the later ones. `closing` is set by `graceful_shutdown`.
pub record Connection : Type 0 where
  pub subscribed : ℕ
  pub closing : Bool
  pub activity : Activity

pub data ConnectionEvent : Type 0 where
  -- A request starts to be served, and is answered.
  request respond : ConnectionEvent
  -- The receiver's branch of the select is taken.
  tell : ConnectionEvent
  -- hyper closes a connection that is shut down, between requests.
  close : ConnectionEvent
  -- The client hangs up, or the connection fails.
  hang_up : ConnectionEvent

abbrev pub is_idle : Activity → Bool
is_idle idle = true
is_idle busy = false
is_idle done = false

abbrev pub is_busy : Activity → Bool
is_busy idle = false
is_busy busy = true
is_busy done = false

abbrev pub is_done : Activity → Bool
is_done idle = false
is_done busy = false
is_done done = true

abbrev pub when {ℓ} : {A : Type ℓ} → Bool → A → Option A
when true a = some a
when false a = none

abbrev pub only_if {ℓ} : {A : Type ℓ} → Bool → Option A → Option A
only_if true o = o
only_if false o = none

abbrev pub after_response : (closing : Bool) → Activity
after_response true = done
after_response false = idle

-- `serve_connection`: `sent` broadcasts were sent so far.
unfoldable pub connection_step : (sent : ℕ) → ConnectionEvent → Connection → Option Connection
connection_step sent request c =
    when (is_idle c.activity && not c.closing) (record c { activity = busy })
connection_step sent respond c =
    when (is_busy c.activity) (record c { activity = after_response c.closing })
connection_step sent tell c =
    when (not (is_done c.activity) && (not c.closing && ltb c.subscribed sent))
      (record c { closing = true })
connection_step sent close c = when (is_idle c.activity && c.closing) (record c { activity = done })
connection_step sent hang_up c = when (not (is_done c.activity)) (record c { activity = done })

pub data Phase : Type 0 where
  -- The loop of the listener's task, the drain after it, and the end of the task.
  accepting draining closed : Phase
  -- `main` has dropped the lock.
  exited : Phase

abbrev pub is_accepting : Phase → Bool
is_accepting accepting = true
is_accepting draining = false
is_accepting closed = false
is_accepting exited = false

abbrev pub is_draining : Phase → Bool
is_draining accepting = false
is_draining draining = true
is_draining closed = false
is_draining exited = false

abbrev pub is_closed : Phase → Bool
is_closed accepting = false
is_closed draining = false
is_closed closed = true
is_closed exited = false

abbrev pub is_exited : Phase → Bool
is_exited accepting = false
is_exited draining = false
is_exited closed = false
is_exited exited = true

-- `conns` is the JoinSet, which keeps the tasks that are done until they are joined; `pending` counts
-- the signal tasks that still wait, and `sent` the broadcasts sent.
pub record Server : Type 0 where
  pub phase : Phase
  pub listening : Bool
  pub linked : Bool
  pub lock_held : Bool
  pub pending : ℕ
  pub sent : ℕ
  pub conns : List Connection
  pub timed_out : Bool

-- The start of the task: SIGINT and SIGTERM are awaited.
abbrev pub spawned : Server
spawned = record {
  phase = accepting;
  listening = true;
  linked = true;
  lock_held = true;
  pending = 2;
  sent = 0;
  conns = [];
  timed_out = false;
}

pub data Event : Type 0 where
  signal accept accept_error : Event
  -- The loop's receiver; with what `remove_file` gives.
  stop : Result OsError (Unit {0}) → Event
  connection : (index : ℕ) → ConnectionEvent → Event
  -- `join_next` gives a task that is done, or the set is empty.
  join : (index : ℕ) → Event
  drained deadline release : Event

abbrev pub kept_by : ErrorKind → (linked : Bool) → Bool
kept_by not_found linked = false
kept_by kind linked = linked

-- `unlink_listen_socket`: whether the path is still there.
abbrev pub still_linked : Result OsError (Unit {0}) → (linked : Bool) → Bool
still_linked (ok _) linked = false
still_linked (err e) linked = kept_by e.kind linked

abbrev pub prepend_to {ℓ} : {A : Type ℓ} → A → Option (List A) → Option (List A)
prepend_to a none = none
prepend_to a (some rest) = some (a ∷ rest)

abbrev pub replace_first {ℓ} : {A : Type ℓ} → Option A → List A → Option (List A)
replace_first none rest = none
replace_first (some a) rest = some (a ∷ rest)

abbrev pub update_at {ℓ} : {A : Type ℓ} → ℕ → (A → Option A) → List A → Option (List A)
update_at i f [] = none
update_at zero f (a ∷ rest) = replace_first (f a) rest
update_at (suc i) f (a ∷ rest) = prepend_to a (update_at i f rest)

-- The set without a task that is done.
abbrev pub joined : ℕ → List Connection → Option (List Connection)
joined i [] = none
joined zero (c ∷ cs) = when (is_done c.activity) cs
joined (suc i) (c ∷ cs) = prepend_to c (joined i cs)

abbrev pub with_conns : Server → Option (List Connection) → Option Server
with_conns s none = none
with_conns s (some cs) = some (record s { conns = cs })

-- One event, if it can happen.
unfoldable pub step : Event → Server → Option Server
step signal s = when (ltb 0 s.pending) (record s { pending = s.pending - 1; sent = suc s.sent })
step accept s = when (is_accepting s.phase) (record s {
  conns = record { subscribed = s.sent; closing = false; activity = idle } ∷ s.conns;
})
step accept_error s = when (is_accepting s.phase) s
step (stop unlinked) s =
    when (is_accepting s.phase && ltb 0 s.sent)
      (record s { phase = draining; listening = false; linked = still_linked unlinked s.linked })
step (connection i event) s = with_conns s (update_at i (connection_step s.sent event) s.conns)
step (join i) s = with_conns s (only_if (is_draining s.phase) (joined i s.conns))
step drained s = when (is_draining s.phase && is_empty s.conns) (record s { phase = closed })
step deadline s =
    when (is_draining s.phase) (record s { phase = closed; conns = []; timed_out = true })
step release s = when (is_closed s.phase) (record s { phase = exited; lock_held = false })

abbrev pub then_run : Option Server → (Server → Option Server) → Option Server
then_run none next = none
then_run (some s) next = next s

-- A sequence of events.
unfoldable pub run : List Event → Server → Option Server
run [] s = some s
run (event ∷ events) s = then_run (step event s) (run events)
