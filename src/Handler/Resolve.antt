-- ===== src/Handler/Resolve.antt =====
-- Resolving a container by the daemon's inspect fails closed.
use docker_socket_policy.Base.{
  Text, false, none, some, List, [], ◌∷◌, ◌≡◌, refl, ◌≢◌, ◌⊎◌, inl, inr, eqb, eqb_iff, Bool-cases,
  Option-cases, ok, err, Result-cases, arith, Elem,
}
use docker_socket_policy.Policy.{Policy}
use docker_socket_policy.Message.{TransportError}
use docker_socket_policy.Policy.{covered_names}
use docker_socket_policy.Manager.{covering, policies}
use docker_socket_policy.Query.{strip_slash}
use docker_socket_policy.Router.{RouteResult, deny_action, allow_action}
use docker_socket_policy.Handler.{
  World, DaemonResponse, Handler, forward, resolve_container, inspect_request, read_inspect,
  inspected_name, resolved,
}
use docker_socket_policy.Handler.Named.{
  IsBare, IsNamed, strip_slash-IsBare, inspected_name-IsNamed, covering-Elem,
}

-- The daemon's answer to the inspect, and the name in it, which a policy covers.
pub record IsResolved (h : Handler) (id : Text) (w : World) : Type 0 where
  pub answered : DaemonResponse
  pub name : Text
  pub bare : Text
  pub policy : Policy
  pub asked : h.transport w.forwarded (inspect_request id) ≡ ok answered
  pub found : answered.status ≡ 200
  pub named : IsNamed (h.from_slice answered.body) name
  pub stripped : IsBare name bare
  pub loaded : Elem policy (policies h.router.manager)
  pub covers : Elem bare (covered_names policy)

module _ (h : Handler) (id : Text) where
  resolved_none :
      (name : Text)
      → covering h.router.manager name ≡ []
      → (resolved h.router id name).action ≡ deny_action
  unfolding resolved
  resolved_none name e = rw (e, resolved)

  resolved-covered :
      (name : Text) (ps : List Policy)
      → covering h.router.manager name ≡ ps
      → (resolved h.router id name).action ≢ deny_action
      → (policy : Policy) × (others : List Policy) × (covering h.router.manager name
          ≡ policy ∷ others)
  resolved-covered name [] e k = absurd (k (resolved_none name e))
  resolved-covered name (p ∷ ps) e k = (p, ps, e)

  read_inspect_named :
      (resp : DaemonResponse) (name : Text)
      → resp.status ≡ 200
      → inspected_name (h.from_slice resp.body) ≡ some name
      → read_inspect h id resp ≡ resolved h.router id (strip_slash name)
  unfolding read_inspect
  read_inspect_named resp name e n = rw ((eqb_iff resp.status 200).1 e, n, read_inspect)

  read_inspect_unnamed :
      (resp : DaemonResponse)
      → inspected_name (h.from_slice resp.body) ≡ none
      → (read_inspect h id resp).action ≡ deny_action
  unfolding read_inspect
  read_inspect_unnamed resp n = ground arith

  read_inspect_other :
      (resp : DaemonResponse)
      → eqb resp.status 200 ≡ false
      → (read_inspect h id resp).action ≡ deny_action
  unfolding read_inspect
  read_inspect_other resp f = ground arith

module _ (h : Handler) (id : Text) (w : World) where
  read_inspect-IsResolved :
      (resp : DaemonResponse)
      → h.transport w.forwarded (inspect_request id) ≡ ok resp
      → (read_inspect h id resp).action ≢ deny_action
      → IsResolved h id w
  read_inspect-IsResolved resp asked k = elim (Bool-cases (eqb resp.status 200)) [
    | inr f ↦ absurd (k (read_inspect_other h id resp f))
    | inl t ↦ elim (Option-cases (inspected_name (h.from_slice resp.body))) [
      | inl n ↦ absurd (k (read_inspect_unnamed h id resp n))
      | inr (name, n) ↦
          let found = (eqb_iff resp.status 200).0 t in
          let (policy, others, e) =
            resolved-covered h id (strip_slash name) (covering h.router.manager (strip_slash name))
              refl (rw (read_inspect_named h id resp name found n) at k) in
          let (loaded, covers) =
            covering-Elem h.router.manager (strip_slash name) policy others e in
          record {
            answered = resp;
            name = name;
            bare = strip_slash name;
            policy = policy;
            asked = asked;
            found = found;
            named = inspected_name-IsNamed _ name n;
            stripped = strip_slash-IsBare name;
            loaded = loaded;
            covers = covers;
          }
    ]
  ]

  resolve_container_refused :
      (msg : Text)
      → h.uri_error (inspect_request id).uri ≡ some msg
      → (resolve_container h id w).1.action ≡ deny_action
  unfolding resolve_container
  resolve_container_refused msg e = rw (e, resolve_container)

  resolve_container_failed :
      (e : TransportError)
      → h.transport w.forwarded (inspect_request id) ≡ err e
      → (resolve_container h id w).1.action ≡ deny_action
  unfolding resolve_container forward
  resolve_container_failed e failed = elim (Option-cases (h.uri_error (inspect_request id).uri)) [
    | inr (msg, u) ↦ resolve_container_refused msg u
    | inl u ↦ rw (u, failed, resolve_container)
  ]

  resolve_container_answered :
      (resp : DaemonResponse)
      → h.uri_error (inspect_request id).uri ≡ none
      → h.transport w.forwarded (inspect_request id) ≡ ok resp
      → (resolve_container h id w).1 ≡ read_inspect h id resp
  unfolding resolve_container forward
  resolve_container_answered resp u asked = rw (u, asked, resolve_container)

  -- A container is resolved only if the daemon answers the inspect with 200 and a JSON object whose Name
  -- is a text that is not empty, and that name, less the slash it may start with, is among the names
  -- that a policy of the manager covers.
  pub resolve_container-IsResolved :
      (resolve_container h id w).1.action ≢ deny_action → IsResolved h id w
  resolve_container-IsResolved k = elim (Option-cases (h.uri_error (inspect_request id).uri)) [
    | inr (msg, u) ↦ absurd (k (resolve_container_refused msg u))
    | inl u ↦ elim (Result-cases (h.transport w.forwarded (inspect_request id))) [
      | inr (e, failed) ↦ absurd (k (resolve_container_failed e failed))
      | inl (resp, asked) ↦
          read_inspect-IsResolved resp asked (rw (resolve_container_answered resp u asked) at k)
    ]
  ]

-- A result that is settled: denied or allowed.
abbrev pub IsSettled : RouteResult → Type 0
IsSettled r = (r.action ≡ deny_action) ⊎ (r.action ≡ allow_action)

module _ (h : Handler) (id : Text) where
  resolved-IsSettled :
      (name : Text) (ps : List Policy)
      → covering h.router.manager name ≡ ps
      → IsSettled (resolved h.router id name)
  unfolding resolved
  resolved-IsSettled name [] e = inl (resolved_none h id name e)
  resolved-IsSettled name (p ∷ []) e = inr (rw (e, resolved))
  resolved-IsSettled name (p ∷ q ∷ ps) e = inr (rw (e, resolved))

  read_inspect-IsSettled : (resp : DaemonResponse) → IsSettled (read_inspect h id resp)
  read_inspect-IsSettled resp = elim (Bool-cases (eqb resp.status 200)) [
    | inr f ↦ inl (read_inspect_other h id resp f)
    | inl t ↦ elim (Option-cases (inspected_name (h.from_slice resp.body))) [
      | inl n ↦ inl (read_inspect_unnamed h id resp n)
      | inr (name, n) ↦ rw (read_inspect_named h id resp name ((eqb_iff resp.status 200).0 t) n) (
          resolved-IsSettled (strip_slash name) (covering h.router.manager (strip_slash name)) refl)
    ]
  ]

  pub resolve_container-IsSettled : (w : World) → IsSettled (resolve_container h id w).1
  resolve_container-IsSettled w = elim (Option-cases (h.uri_error (inspect_request id).uri)) [
    | inr (msg, u) ↦ inl (resolve_container_refused h id w msg u)
    | inl u ↦ elim (Result-cases (h.transport w.forwarded (inspect_request id))) [
      | inr (e, failed) ↦ inl (resolve_container_failed h id w e failed)
      | inl (resp, asked) ↦
          rw (resolve_container_answered h id w resp u asked) (read_inspect-IsSettled resp)
    ]
  ]
