-- ===== src/Handler/State.antt =====
-- rs/src/handler.rs: the handler's parts, with the audit log (audit.rs) and the transport (transport.rs)
-- as explicit state: the entries written and the requests sent so far.
use docker_socket_policy.Base.{Text, ℕ, Option, List, [], ◌∷◌, Result}
use docker_socket_policy.Json.{Value, Body}
use docker_socket_policy.Message.{Message, TransportError}
use docker_socket_policy.Policy.{Regex}
use docker_socket_policy.Router.{Router}
use docker_socket_policy.Chain.{Chain}

-- Header names are in lower case, as hyper keeps them.
abbrev pub Headers : Type 0
Headers = List (Text × Text)

-- What hyper hands to the handler; `body` is `none` if it cannot be read.
pub record HttpRequest : Type 0 where
  pub method : Text
  pub full_uri : Text
  pub path : Text
  pub path_and_query : Option Text
  pub headers : Headers
  pub body : Option Text

-- A request to the daemon. The content length, a header, has a field of its own.
pub record ForwardRequest : Type 0 where
  pub method : Text
  pub uri : Text
  pub headers : Headers
  pub content_length : Option ℕ
  pub body : Text

-- A text of the proxy, or bytes of the daemon.
pub data Content : Type 0 where
  message : Message → Content
  bytes : Text → Content

pub record Response : Type 0 where
  pub status : ℕ
  pub headers : Headers
  pub content : Content

pub record DaemonResponse : Type 0 where
  pub status : ℕ
  pub headers : Headers
  pub body : Text

pub data Decision : Type 0 where
  allowed denied : Decision

-- A line of the audit log, without its time and request id.
pub record AuditEntry : Type 0 where
  pub decision : Decision
  pub method : Text
  pub uri : Text
  pub reason : Message

-- The newest request and entry come first.
pub record World : Type 0 where
  pub forwarded : List ForwardRequest
  pub log : List AuditEntry

-- The handler's parts, and what it calls outside the repository: serde_json's parser and printer,
-- the http crate's error for a URI, and the daemon, whose answer may depend on all that it was sent.
pub record Handler : Type 0 where
  pub re : Regex
  pub router : Router
  pub chain : Chain
  pub from_slice : Text → Option Value
  pub to_vec : Body → Option Text
  pub uri_error : Text → Option Text
  pub transport : List ForwardRequest → ForwardRequest → Result TransportError DaemonResponse

unfoldable pub audit : Decision → (method uri : Text) → Message → World → World
audit decision method uri reason w = record w {
  log = record { decision = decision; method = method; uri = uri; reason = reason } ∷ w.log;
}

unfoldable pub forward :
    Handler → ForwardRequest → World → World × Result TransportError DaemonResponse
forward h req w = (record w { forwarded = req ∷ w.forwarded }, h.transport w.forwarded req)

abbrev pub respond : ℕ → Message → Response
respond status msg = record { status = status; headers = []; content = message msg }
