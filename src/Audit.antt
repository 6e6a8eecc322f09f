-- ===== src/Audit.antt =====
-- rs/src/audit.rs: the audit logger. The file is its lines, the newest first. The system, the clock,
-- the random generator and serde_json's printer are parameters.
pub mod Lines
pub mod Trail
use docker_socket_policy.Base.{
  Text, ℕ, ◌+◌, ◌-◌, ◌/◌, ◌%◌, Bool, false, List, [], ◌∷◌, Result, ok, err, Option, none, some, lit,
  ltb, if◌then◌else◌,
}
use docker_socket_policy.Base.Map.{Map}
use docker_socket_policy.Json.{Value, string, obj}

-- What the system does with the log file.
pub record LogFile : Type 0 where
  -- The lines of the file that was opened to append to it, or an error.
  pub open_append : (path : Text) → Result Text (List Text)
  -- The lines after a try to write one more.
  pub writeln : Text → List Text → List Text

-- `poisoned`: a thread panicked while it had the mutex.
pub record AuditLogger : Type 0 where
  pub lines : List Text
  pub poisoned : Bool

-- `AuditLogger::new`
unfoldable pub new : LogFile → (path : Text) → Result Text AuditLogger
new system path = elim (system.open_append path) [
  | err e ↦ err e
  | ok lines ↦ ok (record { lines = lines; poisoned = false })
]

-- `AuditLogger::nop`; `none` is the panic of `expect`.
unfoldable pub nop : LogFile → Option AuditLogger
nop system = elim (system.open_append (lit "/dev/null")) [
  | err e ↦ none
  | ok lines ↦ some (record { lines = lines; poisoned = false })
]

-- A lower-case hex digit.
unfoldable pub hex_lower : ℕ → ℕ
hex_lower d = if ltb d 10 then b'0' + d else b'a' + (d - 10)

-- `{:02x}` of each byte.
unfoldable pub request_id : (bytes : List ℕ) → Text
request_id [] = []
request_id (b ∷ bytes) = hex_lower (b / 16) ∷ hex_lower (b % 16) ∷ request_id bytes

-- The time and the random bytes of one entry.
pub record Stamp : Type 0 where
  pub timestamp : Text
  pub bytes : List ℕ

-- `serde_json::json!`, whose objects are ordered by their keys.
unfoldable pub entry : Stamp → (decision method uri reason : Text) → Value
entry stamp decision method uri reason = obj (
    (lit "decision", string decision)
    ∷ (lit "method", string method)
    ∷ (lit "reason", string reason)
    ∷ (lit "request_id", string (request_id stamp.bytes))
    ∷ (lit "timestamp", string stamp.timestamp)
    ∷ (lit "uri", string uri)
    ∷ [])

module _ (system : LogFile) (print : Value → Text) where
  unfoldable pub log : Stamp → (decision method uri reason : Text) → AuditLogger → AuditLogger
  log stamp decision method uri reason logger = if logger.poisoned then logger else record logger {
    lines = system.writeln (print (entry stamp decision method uri reason)) logger.lines;
  }

  unfoldable pub allow_reason : Stamp → (method uri reason : Text) → AuditLogger → AuditLogger
  allow_reason stamp method uri reason = log stamp (lit "ALLOW") method uri reason

  unfoldable pub allow : Stamp → (method uri : Text) → AuditLogger → AuditLogger
  allow stamp method uri = log stamp (lit "ALLOW") method uri []

  unfoldable pub deny : Stamp → (method uri reason : Text) → AuditLogger → AuditLogger
  deny stamp method uri reason = log stamp (lit "DENY") method uri reason
