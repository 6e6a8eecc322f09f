-- ===== src/Handler/Sent.antt =====
-- What the handler sends to the daemon, whatever the daemon answers.
use docker_socket_policy.Base.{
  Text, List, [], ◌∷◌, ◌++◌, ◌≡◌, refl, sym, ap, ◌∙◌, inl, inr, Option-cases, Result, ok, err, All,
}
use docker_socket_policy.Message.{TransportError, socket_permission, other}
use docker_socket_policy.Router.{RouteResult}
use docker_socket_policy.Handler.{
  HttpRequest, ForwardRequest, World, DaemonResponse, Handler, audit, forward, resolve_container,
  inspect_request, answer, outgoing, send, read_answer,
}

-- The second world has sent these requests more than the first, the newest first.
pub record Sends (P : ForwardRequest → Type 0) (w w' : World) : Type 0 where
  pub sent : List ForwardRequest
  pub history : w'.forwarded ≡ sent ++ w.forwarded
  pub each : All P sent

++_assoc : (a b c : List ForwardRequest) → (a ++ b) ++ c ≡ a ++ (b ++ c)
++_assoc [] b c = refl
++_assoc (x ∷ a) b c = ap (λ l. x ∷ l) (++_assoc a b c)

All-append :
    (P : ForwardRequest → Type 0) (a b : List ForwardRequest) → All P a → All P b → All P (a ++ b)
All-append P [] b h k = k
All-append P (x ∷ a) b h k = (h.0, All-append P a b h.1 k)

module _ (P : ForwardRequest → Type 0) where
  pub nothing_sent : (w w' : World) → w'.forwarded ≡ w.forwarded → Sends P w w'
  nothing_sent w w' e = record { sent = []; history = e; each = tt }

  answer-forwarded :
      (r : World × Result TransportError DaemonResponse) → (answer r).0.forwarded ≡ r.0.forwarded
  answer-forwarded (w, ok resp) = refl
  answer-forwarded (w, err (socket_permission e)) = refl
  answer-forwarded (w, err (other e)) = refl

  read_answer-forwarded :
      (h : Handler) (id : Text) (r : World × Result TransportError DaemonResponse)
      → (read_answer h id r).0.forwarded ≡ r.0.forwarded
  read_answer-forwarded h id (w, ok resp) = refl
  read_answer-forwarded h id (w, err e) = refl

  pub send-Sends :
      (h : Handler) (req : HttpRequest) (route : RouteResult) (body : Text) (w : World)
      → P (outgoing req body)
      → Sends P w (send h req route body w).0
  unfolding send audit forward
  send-Sends h req route body w p = record {
    sent = outgoing req body ∷ [];
    history = answer-forwarded _;
    each = (p, tt);
  }

  pub resolve_container-Sends :
      (h : Handler) (id : Text) (w : World)
      → P (inspect_request id)
      → Sends P w (resolve_container h id w).0
  unfolding resolve_container forward
  resolve_container-Sends h id w p = elim (Option-cases (h.uri_error (inspect_request id).uri)) [
    | inr (msg, e) ↦ rw (e, resolve_container) (nothing_sent w w refl)
    | inl e ↦
        rw (e, resolve_container)
          (record {
            sent = inspect_request id ∷ [];
            history = read_answer-forwarded h id _;
            each = (p, tt);
          })
  ]

  pub Sends-chain : (u v w : World) → Sends P u v → Sends P v w → Sends P u w
  Sends-chain u v w a b = record {
    sent = b.sent ++ a.sent;
    history =
        b.history ∙ ap (λ l. b.sent ++ l) a.history ∙ sym (++_assoc b.sent a.sent u.forwarded);
    each = All-append P b.sent a.sent b.each a.each;
  }

All-map :
    (P Q : ForwardRequest → Type 0)
    → ((r : ForwardRequest) → P r → Q r)
    → (rs : List ForwardRequest) → All P rs
    → All Q rs
All-map P Q f [] h = tt
All-map P Q f (r ∷ rs) h = (f r h.0, All-map P Q f rs h.1)

pub Sends-map :
    (P Q : ForwardRequest → Type 0) (w w' : World)
    → ((f : ForwardRequest) → P f → Q f)
    → Sends P w w'
    → Sends Q w w'
Sends-map P Q w w' imp s = record {
  sent = s.sent;
  history = s.history;
  each = All-map P Q imp s.sent s.each;
}
