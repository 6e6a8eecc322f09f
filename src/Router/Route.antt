-- ===== src/Router/Route.antt =====
-- rs/src/proxy.rs: Action and RouteResult.
use docker_socket_policy.Base.{Text, Option, none, some, Result, ok, err}
use docker_socket_policy.Json.{Body}
use docker_socket_policy.Message.{Message}
use docker_socket_policy.Policy.{Policy}

pub data Action : Type 0 where
  deny_action allow_action create_container resolve_container_action : Action

pub record RouteResult : Type 0 where
  pub action : Action
  pub service : Option Text
  pub policy : Option Policy
  pub body : Option Body
  pub container : Option Text
  pub resolved_name : Option Text
  pub image : Option Text
  pub deny_msg : Option Message

abbrev pub allow : RouteResult
allow = record {
  action = allow_action;
  service = none;
  policy = none;
  body = none;
  container = none;
  resolved_name = none;
  image = none;
  deny_msg = none;
}

abbrev pub deny : Message → RouteResult
deny msg = record {
  action = deny_action;
  service = none;
  policy = none;
  body = none;
  container = none;
  resolved_name = none;
  image = none;
  deny_msg = some msg;
}

-- An error is the deny message.
abbrev pub or_deny : Result Message RouteResult → RouteResult
or_deny (ok r) = r
or_deny (err msg) = deny msg
