-- ===== src/Handler/Admission.antt =====
-- The handler from its start: what is refused before the routing, and the read-only mode.
use docker_socket_policy.Base.{
  Text, true, false, Option, none, some, ◌≡◌, refl, ap, ◌≢◌, ◌⊎◌, inl, inr, Bool-cases, arith, lit,
  ◌==◌, ==_iff,
}
use docker_socket_policy.Message.{connect_not_allowed, upgrade_not_allowed, body_unreadable}
use docker_socket_policy.Router.{deny_action}
use docker_socket_policy.Router.Admission.{route_request-readonly}
use docker_socket_policy.Chain
use docker_socket_policy.Handler.{
  HttpRequest, ForwardRequest, World, Handler, is_upgrade_request, audit, inspect_request, target,
  handle_body, handle, respond, denied, Response, outgoing,
}
use docker_socket_policy.Handler.Sent.{Sends, nothing_sent, Sends-map}
use docker_socket_policy.Handler.Permitted.{
  routed, Permitted, inspect, on_route, on_resolved, on_create, handle_body-Permitted,
}

-- A request that reads.
abbrev pub IsRead : ForwardRequest → Type 0
IsRead r = (r.method ≡ lit "GET") ⊎ (r.method ≡ lit "HEAD")

read_cases :
    (method : Text)
    → ((method ≡ lit "GET") ⊎ (method ≡ lit "HEAD"))
      ⊎ ((method ≢ lit "GET") × (method ≢ lit "HEAD"))
read_cases method = elim (Bool-cases (method == lit "GET")) [
  | inl t ↦ inl (inl ((==_iff method (lit "GET")).0 t))
  | inr f ↦ elim (Bool-cases (method == lit "HEAD")) [
    | inl t ↦ inl (inr ((==_iff method (lit "HEAD")).0 t))
    | inr f' ↦ inr (
      λ e. ground (arith, ==_iff method (lit "GET")),
      λ e. ground (arith, ==_iff method (lit "HEAD")),
    )
  ]
]

Permitted-reads :
    (h : Handler) (req : HttpRequest) (body : Text) (w : World)
    → (req.method ≡ lit "GET") ⊎ (req.method ≡ lit "HEAD")
    → (r : ForwardRequest) → Permitted h req body w r
    → IsRead r
unfolding inspect_request outgoing
Permitted-reads h req body w reads _ (inspect e) = inl refl
Permitted-reads h req body w reads _ (on_route e) = reads
Permitted-reads h req body w reads _ (on_resolved e k) = reads
Permitted-reads h req body w reads _ (on_create policy json e p j g) = reads

Permitted-denied :
    (h : Handler) (req : HttpRequest) (body : Text) (w : World)
    → (routed h req body).action ≡ deny_action
    → (r : ForwardRequest) → Permitted h req body w r
    → IsRead r
Permitted-denied h req body w d _ (inspect e) = absurd cc
Permitted-denied h req body w d _ (on_route e) = absurd cc
Permitted-denied h req body w d _ (on_resolved e k) = absurd cc
Permitted-denied h req body w d _ (on_create policy json e p j g) = absurd cc

module _ (h : Handler) (req : HttpRequest) (w : World) where
  handle_connect :
      (req.method == lit "CONNECT") ≡ true
      → handle h req w ≡ (
        audit denied req.method req.full_uri connect_not_allowed w,
        respond 403 connect_not_allowed,
      )
  unfolding handle
  handle_connect t = rw (t, handle)

  handle_upgrade :
      (req.method == lit "CONNECT") ≡ false
      → is_upgrade_request req.headers ≡ true
      → handle h req w ≡ (
        audit denied req.method (target req) upgrade_not_allowed w,
        respond 403 upgrade_not_allowed,
      )
  unfolding handle
  handle_upgrade f t = rw (f, t, handle)

  abbrev by_body : Option Text → World × Response
  by_body o = elim o [
    | none ↦ (w, respond 400 body_unreadable)
    | some body ↦ handle_body h req body w
  ]

  handle_plain :
      (req.method == lit "CONNECT") ≡ false
      → is_upgrade_request req.headers ≡ false
      → handle h req w ≡ by_body req.body
  unfolding handle
  handle_plain f g = rw (f, g, handle)

  by_body-Sends :
      (P : ForwardRequest → Type 0) (o : Option Text)
      → ((body : Text) → o ≡ some body → Sends P w (handle_body h req body w).0)
      → Sends P w (by_body o).0
  by_body-Sends P none k = nothing_sent P w w refl
  by_body-Sends P (some body) k = k body refl

  -- The handler refuses CONNECT and upgrades with 403, and sends nothing for them.
  pub handle-tunnel :
      (req.method ≡ lit "CONNECT") ⊎ (is_upgrade_request req.headers ≡ true)
      → ((handle h req w).0.forwarded ≡ w.forwarded) × ((handle h req w).1.status ≡ 403)
  unfolding audit
  handle-tunnel tunnel = elim (Bool-cases (req.method == lit "CONNECT")) [
    | inl t ↦ rw (handle_connect t) (refl, refl)
    | inr f ↦
        let up : is_upgrade_request req.headers ≡ true = elim tunnel [
          | inl e ↦ absurd (ground (arith, ==_iff req.method (lit "CONNECT")))
          | inr u ↦ u
        ] in
        rw (handle_upgrade f up) (refl, refl)
  ]

  pub handle-Sends :
      (P : ForwardRequest → Type 0)
      → ((body : Text) → req.body ≡ some body → Sends P w (handle_body h req body w).0)
      → Sends P w (handle h req w).0
  unfolding audit
  handle-Sends P k = elim (Bool-cases (req.method == lit "CONNECT")) [
    | inl t ↦ rw (handle_connect t) (nothing_sent P w _ refl)
    | inr f ↦ elim (Bool-cases (is_upgrade_request req.headers)) [
      | inl u ↦ rw (handle_upgrade f u) (nothing_sent P w _ refl)
      | inr g ↦ rw (handle_plain f g) (by_body-Sends P req.body k)
    ]
  ]

  -- In read-only mode a handler with the chain of `Chain::new` sends GET and HEAD requests only,
  -- whatever the caller asks for and whatever the daemon answers.
  pub handle-IsRead :
      h.chain ≡ Chain.new → h.router.readonly ≡ true → Sends IsRead w (handle h req w).0
  handle-IsRead standard readonly = handle-Sends IsRead (λ body given.
      Sends-map (Permitted h req body w) IsRead w (handle_body h req body w).0
        (elim (read_cases req.method) [
          | inl reads ↦ Permitted-reads h req body w reads
          | inr (g, k) ↦ Permitted-denied h req body w (
              ap (λ r. r.action)
                (route_request-readonly h.re h.router req.method (target req) _ _ readonly g k))
        ])
        (handle_body-Permitted h req body w standard))
