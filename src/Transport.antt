-- ===== src/Transport.antt =====
-- rs/src/transport.rs: the connection to the daemon's socket. tokio and hyper are the parameter `Hyper`:
-- each answer may depend on all the requests sent before.
use docker_socket_policy.Base.{
  Text, ℕ, List, ◌≡◌, refl, ◌↔◌, inl, inr, Result, ok, err, map_err, Result-cases, ◌>>=◌, ◌>>◌,
}
use docker_socket_policy.Message.{TransportError, socket_permission, other}
use docker_socket_policy.Listener.Effects.{
  ErrorKind, not_found, addr_in_use, already_exists, permission_denied, other_kind, OsError,
}
use docker_socket_policy.Handler.{Headers, ForwardRequest, DaemonResponse}

pub record Hyper : Type 0 where
  pub connect : (docker_host : Text) → List ForwardRequest → Result OsError (Unit {0})
  pub handshake : List ForwardRequest → Result Text (Unit {0})
  pub send_request : List ForwardRequest → ForwardRequest → Result Text (ℕ × Headers)
  pub collect : List ForwardRequest → ForwardRequest → Result Text Text

abbrev pub connect_error : ErrorKind → Text → TransportError
connect_error permission_denied text = socket_permission text
connect_error kind text = other text

unfoldable pub map_connect_error : OsError → TransportError
map_connect_error e = connect_error e.kind e.text

pub record UnixSocketTransport : Type 0 where
  pub docker_host : Text

-- `UnixSocketTransport::new`
unfoldable pub new : (docker_host : Text) → UnixSocketTransport
new docker_host = record { docker_host = docker_host }

-- `forward`: `parts` are the status and the headers, and the body is collected whole.
unfoldable pub forward :
    Hyper
    → UnixSocketTransport
    → List ForwardRequest
    → ForwardRequest
    → Result TransportError DaemonResponse
forward hyper t sent req = do
  map_err map_connect_error (hyper.connect t.docker_host sent)
  map_err other (hyper.handshake sent)
  parts ← map_err other (hyper.send_request sent req)
  bytes ← map_err other (hyper.collect sent req)
  ok (record { status = parts.0; headers = parts.1; body = bytes })

abbrev pub ConnectionDenied : Hyper → UnixSocketTransport → List ForwardRequest → Type 0
ConnectionDenied hyper t sent =
    (e : OsError) × (hyper.connect t.docker_host sent ≡ err e) × (e.kind ≡ permission_denied)

abbrev IsDenial : Result TransportError DaemonResponse → Type 0
IsDenial (err (socket_permission text)) = Unit
IsDenial (err (other text)) = ⊥
IsDenial (ok response) = ⊥

connect_error-IsDenial :
    (kind : ErrorKind) (text : Text)
    → IsDenial (err (connect_error kind text))
    → kind ≡ permission_denied
connect_error-IsDenial permission_denied text d = refl
connect_error-IsDenial not_found text d = absurd d
connect_error-IsDenial addr_in_use text d = absurd d
connect_error-IsDenial already_exists text d = absurd d
connect_error-IsDenial (other_kind k) text d = absurd d

-- No failure after the connection is taken for a denial.
late-not-IsDenial :
    {A : Type 0} (r : Result Text A) (next : A → Result TransportError DaemonResponse)
    → ((a : A) → ¬ IsDenial (next a))
    → ¬ IsDenial (map_err other r >>= next)
late-not-IsDenial (ok a) next h = h a
late-not-IsDenial (err e) next h = λ d. d

forward-IsDenial :
    (hyper : Hyper) (t : UnixSocketTransport) (sent : List ForwardRequest) (req : ForwardRequest)
    → IsDenial (forward hyper t sent req)
    → ConnectionDenied hyper t sent
unfolding forward map_connect_error
forward-IsDenial hyper t sent req d = elim (Result-cases (hyper.connect t.docker_host sent)) [
  | inl (u, e) ↦ absurd (
      late-not-IsDenial (hyper.handshake sent) _
        (λ v.
          late-not-IsDenial (hyper.send_request sent req) _
            (λ parts. late-not-IsDenial (hyper.collect sent req) _ (λ bytes x. x)))
        (rw e at d))
  | inr (error, e) ↦ (error, e, connect_error-IsDenial error.kind error.text (rw e at d))
]

-- Forwarding fails with the error that is answered with 403 exactly if the system denied the connection
-- to the daemon's socket.
pub forward-ConnectionDenied :
    (hyper : Hyper) (t : UnixSocketTransport) (sent : List ForwardRequest) (req : ForwardRequest)
    → ((text : Text) × (forward hyper t sent req ≡ err (socket_permission text)))
      ↔ ConnectionDenied hyper t sent
unfolding forward map_connect_error
forward-ConnectionDenied hyper t sent req = (
  (λ (text, e). forward-IsDenial hyper t sent req (rw e tt)),
  (λ (error, e, kind). (error.text, rw (e, kind) refl)),
)
