-- ===== src/Examples/Requests.antt =====
-- Requests to the handler and the router of the example.
use docker_socket_policy.Base.{Text, false, none, some, ◌≡◌, refl, lit}
use docker_socket_policy.Paths.{strip_api_version, segments}
use docker_socket_policy.Router.{route_request, route_create, route_image_pull}
use docker_socket_policy.Router.Admission.{
  route_request-IsPlainPath, route_request-NoExec, IsPlainPath, NoExec, path_of, query_of,
}
use docker_socket_policy.Router.Endpoints.{IsEndpoint, route_request-IsEndpoint}
use docker_socket_policy.Router.Creates.{IsCreate, route_create-IsCreate}
use docker_socket_policy.Router.Pulls.{IsPull, route_image_pull-IsPull}
use docker_socket_policy.Handler.{handle, handle_body}
use docker_socket_policy.Handler.Sent.{Sends}
use docker_socket_policy.Handler.Permitted.{Permitted, handle_body-Permitted}
use docker_socket_policy.Handler.Creates.{IsSafelySent, handle_body-IsSafelySent}
use docker_socket_policy.Handler.Resolve.{IsResolved, resolve_container-IsResolved}
use docker_socket_policy.Examples.{
  program, engine, manager, router, handler, request, start, create_body,
}

abbrev pub create_target : Text
create_target = lit "/v1.43/containers/create?name=web"

abbrev start_target : Text
start_target = lit "/v1.43/containers/web/start"

abbrev pull_query : Text
pull_query = lit "fromImage=ghcr.io/acme/app&tag=1"

-- The example runs: its create is sent on to the daemon.
create_runs : (handle handler (request (lit "POST") create_target) start).1.status ≡ 200
unfolding program
create_runs = refl

handle_body-Permitted_example :
    Sends
      (Permitted handler (request (lit "POST") create_target) (lit "{}") start)
      start
      (handle_body handler (request (lit "POST") create_target) (lit "{}") start).0
handle_body-Permitted_example =
    handle_body-Permitted handler (request (lit "POST") create_target) (lit "{}") start refl

resolve_container-IsResolved_example : IsResolved handler (lit "abc123") start
unfolding program
resolve_container-IsResolved_example =
    resolve_container-IsResolved handler (lit "abc123") start (λ e. cc)

route_request-IsPlainPath_example : IsPlainPath (path_of start_target)
unfolding program
route_request-IsPlainPath_example =
    route_request-IsPlainPath engine router (lit "POST") start_target false none (λ e. cc)

route_request-NoExec_example : NoExec (segments (strip_api_version (path_of start_target)))
unfolding program
route_request-NoExec_example =
    route_request-NoExec engine router (lit "POST") start_target false none (λ e. cc)

route_request-IsEndpoint_example :
    IsEndpoint engine manager
      (lit "POST")
      (strip_api_version (path_of start_target))
      (query_of start_target)
      false
      none
      (route_request engine router (lit "POST") start_target false none)
unfolding program
route_request-IsEndpoint_example =
    route_request-IsEndpoint engine router (lit "POST") start_target false none (λ e. cc)

route_create-IsCreate_example :
    IsCreate engine manager
      (some create_body)
      (lit "name=web")
      (route_create engine manager (some create_body) (lit "name=web"))
unfolding program
route_create-IsCreate_example =
    route_create-IsCreate engine manager (some create_body) (lit "name=web") (λ e. cc)

route_image_pull-IsPull_example :
    IsPull engine manager pull_query false (route_image_pull engine manager pull_query false)
unfolding program
route_image_pull-IsPull_example = route_image_pull-IsPull engine manager pull_query false (λ e. cc)

handle_body-IsSafelySent_example :
    Sends
      (IsSafelySent handler (request (lit "POST") create_target) (lit "{}"))
      start
      (handle_body handler (request (lit "POST") create_target) (lit "{}") start).0
unfolding program
handle_body-IsSafelySent_example =
    handle_body-IsSafelySent handler (request (lit "POST") create_target) (lit "{}") start refl refl
