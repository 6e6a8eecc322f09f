-- ===== src/Examples/Interleaved.antt =====
-- A create and a start of a container that must be resolved, interleaved.
use docker_socket_policy.Base.{
  Text, ℕ, false, List, [], ◌∷◌, ◌≡◌, refl, lit, ok, if◌then◌else◌, eqb,
}
use docker_socket_policy.Handler.{Handler, HttpRequest, Response, bytes, handle}
use docker_socket_policy.Handler.Tasks.{
  Answer, System, Phase, answered, sends, arrive, ask, read, judge, advance, step, idle, Reach, own,
}
use docker_socket_policy.Handler.Tasks
use docker_socket_policy.Handler.Tasks.Answers.{alone, empty}
use docker_socket_policy.Handler.Tasks.Shared.{answered-handle}
use docker_socket_policy.Audit.{LogFile, Stamp, AuditLogger}
use docker_socket_policy.Json.{Value}
use docker_socket_policy.Message.{Message}
use docker_socket_policy.Handler.Tasks.Order.{IsLoggedFirst, Reach-IsLoggedFirst}
use docker_socket_policy.Examples.{program, handler, request}
use docker_socket_policy.Examples.Requests.{create_target}

abbrev callers : ℕ → HttpRequest
callers i =
    if eqb i 0
    then request (lit "POST") create_target
    else request (lit "POST") (lit "/v1.43/containers/abc123/start")

abbrev fine : Answer
fine = ok (record { status = 200; headers = []; body = lit "{}" })

-- The tasks that step, the last first.
abbrev turns_taken : List ℕ
turns_taken = 1 ∷ 1 ∷ 0 ∷ 0 ∷ 1 ∷ 0 ∷ 1 ∷ 1 ∷ 0 ∷ 0 ∷ 1 ∷ []

abbrev pub played : Handler → (ℕ → HttpRequest) → List ℕ → System
played h requests [] = idle
played h requests (i ∷ is) = step h requests (played h requests is) i fine

pub played-Reach :
    (h : Handler) (requests : ℕ → HttpRequest) (is : List ℕ)
    → Reach h requests (played h requests is)
played-Reach h requests [] = Tasks.start
played-Reach h requests (i ∷ is) = Tasks.later (played-Reach h requests is) i fine

abbrev answer : Response
answer = record { status = 200; headers = []; content = bytes (lit "{}") }

answered-handle_example :
    handle (alone handler ((played handler callers turns_taken).answers 1)) (callers 1) empty
    ≡ (own 1 (played handler callers turns_taken).history, answer)
unfolding program arrive ask read judge advance
answered-handle_example =
    answered-handle handler callers (played-Reach handler callers turns_taken) 1 answer refl

Reach-IsLoggedFirst_example : IsLoggedFirst callers (played handler callers turns_taken).history
Reach-IsLoggedFirst_example =
    Reach-IsLoggedFirst callers handler (played handler callers turns_taken)
      (played-Reach handler callers turns_taken)

-- A file that takes every line.
abbrev log_file : LogFile
log_file = record { open_append = λ path. ok []; writeln = λ line lines. line ∷ lines }

abbrev stamps : ℕ → Stamp
stamps n = record { timestamp = lit "2024-01-01T00:00:00Z"; bytes = n ∷ [] }

abbrev print : Value → Text
print v = lit "entry"

abbrev show : Message → Text
show m = []

abbrev logger : AuditLogger
logger = record { lines = []; poisoned = false }
