-- ===== src/Handler/Tasks/Requests.antt =====
-- What the tasks send: every request that any of them sent is permitted.
use docker_socket_policy.Base.{
  Text, ℕ, Option, none, some, List, [], ◌∷◌, ◌++◌, ◌≡◌, refl, sym, inl, inr, Bool-cases, ok, err,
  All-elem, Elem, eqb, subst, if_intro, arith,
}
use docker_socket_policy.Json.{Body}
use docker_socket_policy.Policy.{Policy}
use docker_socket_policy.Router.{
  RouteResult, Action, deny_action, allow_action, create_container, resolve_container_action,
}
use docker_socket_policy.Chain
use docker_socket_policy.Chain.{GateResult}
use docker_socket_policy.Handler.{
  HttpRequest, ForwardRequest, World, Handler, audit, forward, read_answer, dispatch, refuse,
  handle, handle_body, apply_chain, run_chain, outgoing, answer,
}
use docker_socket_policy.Handler.Sent.{Sends, nothing_sent, send-Sends, Sends-map}
use docker_socket_policy.Handler.Permitted.{Permitted, handle_body-Permitted}
use docker_socket_policy.Handler.Admission.{handle-Sends}
use docker_socket_policy.Handler.Monitor.{answer-reply}
use docker_socket_policy.Handler.Tasks.{
  Answer, Phase, arrived, reading, inspecting, settled, forwarding, awaiting, answered, Effect,
  quiet, logs, sends, apply, System, Reach, own,
}
use docker_socket_policy.Handler.Tasks.Alone.{finish, finish_read}
use docker_socket_policy.Handler.Tasks.Answers.{alone, empty}
use docker_socket_policy.Handler.Tasks.Shared.{Reach-Task, append_nil}

-- Whatever is left sends more, and takes nothing back.
abbrev Any : ForwardRequest → Type 0
Any f = Unit

module _ (h : Handler) (req : HttpRequest) (body : Text) (w : World) where
  apply_chain-Any :
      (route : RouteResult) (result : GateResult)
      → Sends Any w (apply_chain h req route body result w).0
  unfolding apply_chain audit
  apply_chain-Any route result = elim (Bool-cases result.allowed) [
    | inl t ↦ rw (t, apply_chain) (send-Sends Any h req route _ w tt)
    | inr f ↦ rw (f, apply_chain) (nothing_sent Any w _ refl)
  ]

  run_chain-Any :
      (route : RouteResult) (policy : Option Policy) (json : Option Body)
      → Sends Any w (run_chain h req route body policy json w).0
  run_chain-Any route (some policy) (some json) = apply_chain-Any route _
  run_chain-Any route (some policy) none = send-Sends Any h req route body w tt
  run_chain-Any route none (some json) = send-Sends Any h req route body w tt
  run_chain-Any route none none = send-Sends Any h req route body w tt

  dispatch-Any :
      (action : Action) (route : RouteResult) → Sends Any w (dispatch h req body action route w).0
  unfolding dispatch refuse audit
  dispatch-Any deny_action route = nothing_sent Any w _ refl
  dispatch-Any allow_action route = send-Sends Any h req route body w tt
  dispatch-Any resolve_container_action route = send-Sends Any h req route body w tt
  dispatch-Any create_container route = run_chain-Any route route.policy route.body

  answer_dispatch-Any :
      (id : Text) (a : Answer)
      → Sends Any w
          (let (w', final) = read_answer h id (w, a) in dispatch h req body final.action final w').0
  answer_dispatch-Any id (ok resp) = dispatch-Any _ _
  answer_dispatch-Any id (err e) = dispatch-Any _ _

  answer-Any : (a : Answer) → Sends Any w (answer (w, a)).0
  answer-Any a = rw (answer-reply w a) (nothing_sent Any w w refl)

module _ (h : Handler) (req : HttpRequest) (standard : h.chain ≡ Chain.new) where
  handle_body-Any : (body : Text) (w : World) → Sends Any w (handle_body h req body w).0
  handle_body-Any body w =
      Sends-map (Permitted h req body w) Any w _ (λ f p. tt)
        (handle_body-Permitted h req body w standard)

  finish_read-Any : (body : Option Text) (w : World) → Sends Any w (finish_read h req body w).0
  finish_read-Any none w = nothing_sent Any w w refl
  finish_read-Any (some body) w = handle_body-Any body w

  finish-Any : (phase : Phase) (w : World) → Sends Any w (finish h req phase w).0
  unfolding forward
  finish-Any arrived w = handle-Sends h req w Any (λ body given. handle_body-Any body w)
  finish-Any reading w = finish_read-Any req.body w
  finish-Any (inspecting body id) w = answer_dispatch-Any h req body w id _
  finish-Any (settled body route) w = dispatch-Any h req body w route.action route
  finish-Any (forwarding body) w =
      rw (answer-reply (record w { forwarded = outgoing req body ∷ w.forwarded }) _)
        (record { sent = outgoing req body ∷ []; history = refl; each = (tt, tt) })
  finish-Any (awaiting body) w = answer-Any h req body w _
  finish-Any (answered r) w = nothing_sent Any w w refl

-- A request that `handle` may send for this one, whose body can be read.
abbrev pub PermittedFor : Handler → HttpRequest → ForwardRequest → Type 0
PermittedFor h req f = (body : Text) × (req.body ≡ some body) × Permitted h req body empty f

handle-PermittedFor :
    (h : Handler) (req : HttpRequest)
    → h.chain ≡ Chain.new
    → Sends (PermittedFor h req) empty (handle h req empty).0
handle-PermittedFor h req standard = handle-Sends h req empty (PermittedFor h req) (λ body given.
    Sends-map (Permitted h req body empty) (PermittedFor h req) empty _ (λ f p. (body, given, p))
      (handle_body-Permitted h req body empty standard))

Elem-append : (f : ForwardRequest) (xs ys : List ForwardRequest) → Elem f ys → Elem f (xs ++ ys)
Elem-append f [] ys e = e
Elem-append f (x ∷ xs) ys e = Elem.there (Elem-append f xs ys e)

Elem-of_append_nil : (f : ForwardRequest) (xs : List ForwardRequest) → Elem f (xs ++ []) → Elem f xs
Elem-of_append_nil f [] e = e
Elem-of_append_nil f (x ∷ xs) Elem.here = Elem.here
Elem-of_append_nil f (x ∷ xs) (Elem.there e) = Elem.there (Elem-of_append_nil f xs e)

pub Sends-Elem :
    (P : ForwardRequest → Type 0) (w : World) (f : ForwardRequest)
    → Sends P empty w
    → Elem f w.forwarded
    → P f
Sends-Elem P w f s e =
    All-elem P s.each (Elem-of_append_nil f s.sent (subst (λ l. Elem f l) s.history e))

apply-Elem :
    (f : ForwardRequest) (effect : Effect) (w : World)
    → Elem f w.forwarded
    → Elem f (apply effect w).forwarded
apply-Elem f quiet w e = e
apply-Elem f (logs entry) w e = e
apply-Elem f (sends g) w e = Elem.there e

own-Elem :
    (i : ℕ) (f : ForwardRequest) {history : List (ℕ × Effect)}
    → Elem (i, sends f) history
    → Elem f (own i history).forwarded
own-Elem i f (Elem.here {xs}) =
    if_intro (λ (w : World). Elem f w.forwarded) (eqb i i) _ _ (λ t. Elem.here)
      (λ n. absurd (ground arith))
own-Elem i f (Elem.there {x = (j, effect)} {xs} e) =
    if_intro (λ (w : World). Elem f w.forwarded) (eqb j i) _ _
      (λ t. apply-Elem f effect (own i xs) (own-Elem i f e)) (λ n. own-Elem i f e)

-- What a task sent is among what `handle` sends alone.
pub Reach-Elem :
    (h : Handler) (requests : ℕ → HttpRequest) (s : System) (i : ℕ) (f : ForwardRequest)
    → h.chain ≡ Chain.new
    → Reach h requests s
    → Elem (i, sends f) s.history
    → Elem f (handle (alone h (s.answers i)) (requests i) empty).0.forwarded
Reach-Elem h requests s i f standard reach e =
    let g = alone h (s.answers i) in
    let task = Reach-Task h requests reach i in
    let w = own i s.history in
    let rest : finish g (requests i) (s.phase i) w ≡ handle g (requests i) empty =
      rw (append_nil (s.answers i)) at (task.rest []) in
    let after = finish-Any g (requests i) standard (s.phase i) w in
    subst (λ r. Elem f r.0.forwarded) rest
      (subst (λ l. Elem f l) (sym after.history)
        (Elem-append f after.sent w.forwarded (own-Elem i f e)))

-- In any interleaving of any requests, with any answers of the daemon, over a handler with the chain of
-- `Chain::new`, every request that a task sent, answered or not, is permitted for the caller's request
-- of the task, whose body could be read, over a daemon that gives the answers that the task got.
pub Reach-PermittedFor :
    (h : Handler) (requests : ℕ → HttpRequest) (s : System) (i : ℕ) (f : ForwardRequest)
    → h.chain ≡ Chain.new
    → Reach h requests s
    → Elem (i, sends f) s.history
    → PermittedFor (alone h (s.answers i)) (requests i) f
Reach-PermittedFor h requests s i f standard reach e =
    let g = alone h (s.answers i) in
    Sends-Elem (PermittedFor g (requests i)) (handle g (requests i) empty).0 f
      (handle-PermittedFor g (requests i) standard) (Reach-Elem h requests s i f standard reach e)
