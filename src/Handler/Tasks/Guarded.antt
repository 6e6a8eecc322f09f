-- ===== src/Handler/Tasks/Guarded.antt =====
-- All that the tasks send, together.
use docker_socket_policy.Base.{Text, ℕ, some, ◌≡◌, subst, true, Elem}
use docker_socket_policy.Router.{create_container}
use docker_socket_policy.Chain
use docker_socket_policy.Handler.{HttpRequest, ForwardRequest, Handler, handle}
use docker_socket_policy.Handler.Permitted.{routed, Permitted}
use docker_socket_policy.Handler.Creates.{IsSafelySent, Permitted-IsSafelySent}
use docker_socket_policy.Handler.Admission.{IsRead, handle-IsRead}
use docker_socket_policy.Handler.Tasks.{System, Reach, sends}
use docker_socket_policy.Handler.Tasks.Answers.{alone, empty}
use docker_socket_policy.Handler.Tasks.Requests.{
  PermittedFor, Reach-PermittedFor, Reach-Elem, Sends-Elem,
}
use docker_socket_policy.Handler.Tasks.Order.{IsLoggedFirst, Reach-IsLoggedFirst}

-- What the daemon gets for the request of a task.
pub record IsGuardedRequest (h : Handler) (req : HttpRequest) (f : ForwardRequest) : Type 0 where
  -- It is permitted for the caller's request.
  pub permitted : PermittedFor h req f
  -- A create has a body that is safe under the only policy that fits.
  pub creates :
      (body : Text)
      → req.body ≡ some body
      → (routed h req body).action ≡ create_container
      → IsSafelySent h req body f
  -- In read-only mode it only reads.
  pub reads : h.router.readonly ≡ true → IsRead f

-- The daemon gets nothing else, and nothing that is not announced in the log.
pub record IsGuarded (h : Handler) (requests : ℕ → HttpRequest) (s : System) : Type 0 where
  pub each :
      (i : ℕ) (f : ForwardRequest)
      → Elem (i, sends f) s.history
      → IsGuardedRequest (alone h (s.answers i)) (requests i) f
  pub logged : IsLoggedFirst requests s.history

PermittedFor-IsSafelySent :
    (h : Handler) (req : HttpRequest) (f : ForwardRequest) (body : Text)
    → PermittedFor h req f
    → req.body ≡ some body
    → (routed h req body).action ≡ create_container
    → IsSafelySent h req body f
PermittedFor-IsSafelySent h req f body (b, given, p) read is_create =
    let same : b ≡ body = cc in
    Permitted-IsSafelySent h req body is_create empty f
      (subst (λ b. Permitted h req b empty f) same p)

pub Reach-IsGuarded :
    (h : Handler) (requests : ℕ → HttpRequest) (s : System)
    → h.chain ≡ Chain.new
    → Reach h requests s
    → IsGuarded h requests s
Reach-IsGuarded h requests s standard reach = record {
  each = λ i f e.
      let g = alone h (s.answers i) in
      let p = Reach-PermittedFor h requests s i f standard reach e in
      record {
        permitted = p;
        creates = λ body. PermittedFor-IsSafelySent g (requests i) f body p;
        reads = λ readonly.
            Sends-Elem IsRead (handle g (requests i) empty).0 f
              (handle-IsRead g (requests i) empty standard readonly)
              (Reach-Elem h requests s i f standard reach e);
      };
  logged = Reach-IsLoggedFirst requests h s reach;
}
