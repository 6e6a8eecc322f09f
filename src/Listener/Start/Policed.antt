-- ===== src/Listener/Start/Policed.antt =====
-- The handler of a process that serves: what was proved of a handler holds of this one.
use docker_socket_policy.Base.{Text, ℕ, ◌≡◌, ◌≢◌, ap, ◌∙◌, true, List, Result, ok, err, arith}
use docker_socket_policy.Message.{ambiguous_policy}
use docker_socket_policy.Manager.{select_for_create}
use docker_socket_policy.Manager.Selection.{new-select_unambiguous}
use docker_socket_policy.Chain
use docker_socket_policy.Router
use docker_socket_policy.Handler.{HttpRequest, Handler, World, handle}
use docker_socket_policy.Handler.Sent.{Sends}
use docker_socket_policy.Handler.Tasks.{System, Reach}
use docker_socket_policy.Handler.Tasks.Guarded.{IsGuarded, Reach-IsGuarded}
use docker_socket_policy.Handler.Admission.{IsRead, handle-IsRead}
use docker_socket_policy.Listener.Effects.{IoError, Call}
use docker_socket_policy.Listener.Start.{
  Cli, Environment, StartError, Service, build_handler, configure, with_listener, listen, start,
}
use docker_socket_policy.Listener.Start.Sound.{IsConfigured, configure-IsConfigured}

with_listener-eq-ok :
    (service : Service) (r : List Call × Result IoError (Unit {0})) {s : Service}
    → (with_listener service r).1 ≡ ok s
    → service ≡ s
with_listener-eq-ok service (calls, ok u) h = ground arith
with_listener-eq-ok service (calls, err e) h = cc

listen-eq-ok :
    (env : Environment) (cli : Cli) (r : Result StartError Service) (calls : List Call)
    {s : Service}
    → (listen env cli r calls).1 ≡ ok s
    → r ≡ ok s
unfolding listen
listen-eq-ok env cli (err e) calls h = cc
listen-eq-ok env cli (ok service) calls h = ap ok (with_listener-eq-ok service _ h)

module _ (env : Environment) (cli : Cli) (calls : List Call) where
  start-IsConfigured : {s : Service} → (start env cli calls).1 ≡ ok s → IsConfigured env cli s
  unfolding start
  start-IsConfigured h =
      configure-IsConfigured env cli (listen-eq-ok env cli (configure env cli) calls h)

  built-chain : {s : Service} → (start env cli calls).1 ≡ ok s → s.handler.chain ≡ Chain.new
  unfolding build_handler
  built-chain h = ap (λ (x : Handler). x.chain) (start-IsConfigured h).handles

  built-readonly :
      {s : Service} → (start env cli calls).1 ≡ ok s → s.handler.router.readonly ≡ cli.readonly
  unfolding build_handler Router.with_readonly Router.new
  built-readonly h = ap (λ (x : Handler). x.router.readonly) (start-IsConfigured h).handles

  built-manager :
      {s : Service}
      → (h : (start env cli calls).1 ≡ ok s)
      → s.handler.router.manager ≡ (start-IsConfigured h).manager
  unfolding build_handler Router.with_readonly Router.new
  built-manager h = ap (λ (x : Handler). x.router.manager) (start-IsConfigured h).handles

  -- Once the process serves, then in any interleaving of any requests, whatever the daemon answers,
  -- every request that it sends to the daemon is permitted for a caller's request, is safe under the
  -- only policy that fits if that is a create, and only reads if the process is read-only; it is an
  -- inspect, or its entry was logged before; and no create is refused as ambiguous.
  pub start-IsGuarded :
      {s : Service}
      → (start env cli calls).1 ≡ ok s
      → (requests : ℕ → HttpRequest) (tasks : System) (image_ref name services : Text)
      → Reach s.handler requests tasks
      → IsGuarded s.handler requests tasks
        × (select_for_create env.re s.handler.router.manager image_ref name
            ≢ err (ambiguous_policy image_ref name services))
  start-IsGuarded {s} h requests tasks image_ref name services reach =
      let c = start-IsConfigured h in
      (
        Reach-IsGuarded s.handler requests tasks (built-chain h) reach,
        rw (built-manager h) (
            new-select_unambiguous env.re env.yaml cli.config_dir (env.read_dir cli.config_dir)
              c.opened image_ref name services),
      )

  -- A process that serves with the flag for reading only sends only GET and HEAD requests to the daemon.
  pub start-IsRead :
      {s : Service}
      → (start env cli calls).1 ≡ ok s
      → cli.readonly ≡ true
      → (req : HttpRequest) (w : World) → Sends IsRead w (handle s.handler req w).0
  start-IsRead {s} h readonly req w =
      handle-IsRead s.handler req w (built-chain h) (built-readonly h ∙ readonly)
