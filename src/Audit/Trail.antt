-- ===== src/Audit/Trail.antt =====
-- The entries of the tasks as lines of the audit log's file. `show` prints a message, `no_message` as
-- the empty text, `print` is
-- serde_json's printer, and a stamp is the time and the random bytes of an entry.
use docker_socket_policy.Base.{Text, ℕ, List, [], ◌∷◌, lit, Elem, length}
use docker_socket_policy.Json.{Value}
use docker_socket_policy.Message.{Message}
use docker_socket_policy.Audit.{LogFile, AuditLogger, Stamp, entry, allow_reason, deny}
use docker_socket_policy.Handler.{
  HttpRequest, AuditEntry, Decision, allowed, denied, Handler, target,
}
use docker_socket_policy.Handler.Tasks.{Effect, quiet, logs, sends}

module _ (system : LogFile) (print : Value → Text) (show : Message → Text) where
  -- The handler's call of the logger for an entry; `allow` is `allow_reason` with no reason.
  abbrev pub write_as : Stamp → Decision → (method uri reason : Text) → AuditLogger → AuditLogger
  write_as stamp allowed method uri reason logger =
      allow_reason system print stamp method uri reason logger
  write_as stamp denied method uri reason logger = deny system print stamp method uri reason logger

  abbrev pub write : Stamp → AuditEntry → AuditLogger → AuditLogger
  write stamp e logger = write_as stamp e.decision e.method e.uri (show e.reason) logger

  -- The logger after a history; the stamps are numbered by the effects before them.
  abbrev pub written : (ℕ → Stamp) → List (ℕ × Effect) → AuditLogger → AuditLogger
  written stamps [] logger = logger
  written stamps ((i, quiet) ∷ history) logger = written stamps history logger
  written stamps ((i, sends f) ∷ history) logger = written stamps history logger
  written stamps ((i, logs e) ∷ history) logger =
      write (stamps (length history)) e (written stamps history logger)

  -- The line of an allowed request.
  abbrev pub allow_line : Stamp → HttpRequest → Message → Text
  allow_line stamp req reason =
      print (entry stamp (lit "ALLOW") req.method (target req) (show reason))

  -- The file has a line that allows the request.
  abbrev pub IsOnFile : HttpRequest → AuditLogger → Type 0
  IsOnFile req logger =
      (stamp : Stamp) × (reason : Message) × Elem (allow_line stamp req reason) logger.lines
