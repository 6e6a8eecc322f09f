-- ===== src/Handler/Tasks/Order.antt =====
-- The order of the log and of the requests to the daemon.
use docker_socket_policy.Base.{
  Text, ℕ, List, [], ◌∷◌, ◌≡◌, refl, ◌⊎◌, inl, inr, eqb, arith, Bool-cases, Elem,
}
use docker_socket_policy.Handler.{
  HttpRequest, ForwardRequest, AuditEntry, Handler, allowed, target, inspect_request, outgoing,
}
use docker_socket_policy.Handler.Tasks.{
  Phase, arrived, reading, inspecting, settled, forwarding, awaiting, answered, Effect, quiet, logs,
  sends, System, Reach, start, later,
}
use docker_socket_policy.Handler.Tasks.Moves.{
  Move, turns_away, opens, gives_up, asks, settles, learns, rejects, permits, forwards, hears,
  rests, advance-Move,
}

-- The task has written the entry that allows its request.
abbrev pub HasAllowed : HttpRequest → ℕ → List (ℕ × Effect) → Type 0
HasAllowed req i history =
    (e : AuditEntry) × Elem (i, logs e) history
    × (e.decision ≡ allowed)
    × (e.method ≡ req.method)
    × (e.uri ≡ target req)

-- An inspect, or the task's request behind the entry that allows it.
abbrev pub IsAnnounced : HttpRequest → ℕ → ForwardRequest → List (ℕ × Effect) → Type 0
IsAnnounced req i f history =
    ((id : Text) × (f ≡ inspect_request id))
    ⊎ (((body : Text) × (f ≡ outgoing req body)) × HasAllowed req i history)

-- Every request in the history stands behind the entry that allows it.
abbrev pub IsLoggedFirst : (ℕ → HttpRequest) → List (ℕ × Effect) → Type 0
IsLoggedFirst requests [] = Unit
IsLoggedFirst requests ((i, quiet) ∷ history) = IsLoggedFirst requests history
IsLoggedFirst requests ((i, logs e) ∷ history) = IsLoggedFirst requests history
IsLoggedFirst requests ((i, sends f) ∷ history) =
    IsAnnounced (requests i) i f history × IsLoggedFirst requests history

abbrev IsReady : HttpRequest → ℕ → Phase → List (ℕ × Effect) → Type 0
IsReady req i (forwarding body) history = HasAllowed req i history
IsReady req i _ history = Unit

IsReady-there :
    (req : HttpRequest) (i : ℕ) (x : ℕ × Effect) (phase : Phase) (history : List (ℕ × Effect))
    → IsReady req i phase history
    → IsReady req i phase (x ∷ history)
IsReady-there req i x (forwarding body) history (e, k, d, m, u) = (e, Elem.there k, d, m, u)
IsReady-there req i x arrived history ready = tt
IsReady-there req i x reading history ready = tt
IsReady-there req i x (inspecting body id) history ready = tt
IsReady-there req i x (settled body route) history ready = tt
IsReady-there req i x (awaiting body) history ready = tt
IsReady-there req i x (answered r) history ready = tt

module _ (requests : ℕ → HttpRequest) where
  Move-IsReady :
      (i : ℕ) (history : List (ℕ × Effect)) {phase : Phase} {p : Phase × Effect}
      → Move (requests i) phase p
      → IsReady (requests i) i phase history
      → IsLoggedFirst requests history
      → IsLoggedFirst requests ((i, p.1) ∷ history)
        × IsReady (requests i) i p.0 ((i, p.1) ∷ history)
  Move-IsReady i history (turns_away uri msg) ready first = (first, tt)
  Move-IsReady i history opens ready first = (first, tt)
  Move-IsReady i history gives_up ready first = (first, tt)
  Move-IsReady i history (asks body id) ready first = ((inl (id, refl), first), tt)
  Move-IsReady i history (settles body route) ready first = (first, tt)
  Move-IsReady i history (learns body id route) ready first = (first, tt)
  Move-IsReady i history (rejects body route msg reason) ready first = (first, tt)
  Move-IsReady i history (permits body route body' reason) ready first =
      (first, (_, Elem.here, refl, refl, refl))
  Move-IsReady i history (forwards body) ready first = ((inr ((body, refl), ready), first), tt)
  Move-IsReady i history (hears body r) ready first = (first, tt)
  Move-IsReady i history (rests r) ready first = (first, tt)

  Reach-IsReady :
      (h : Handler) {s : System}
      → Reach h requests s
      → IsLoggedFirst requests s.history × ((i : ℕ) → IsReady (requests i) i (s.phase i) s.history)
  Reach-IsReady h start = (tt, λ i. tt)
  Reach-IsReady h (later {s} before j a) =
      let (first, ready) = Reach-IsReady h before in
      let moved =
        Move-IsReady j s.history (advance-Move h (requests j) (s.phase j) a) (ready j) first in
      (
        moved.0,
        λ i. elim (Bool-cases (eqb j i)) [
          | inl e ↦
              let same : j ≡ i = ground arith in
              let own =
                Move-IsReady i s.history (advance-Move h (requests i) (s.phase i) a) (ready i)
                  first in
              rw (e, same) own.1
          | inr e ↦ rw e (IsReady-there (requests i) i _ (s.phase i) s.history (ready i))
        ],
      )

  -- In any interleaving, every request to the daemon is an inspect, or the request of a task that has
  -- written before it the entry that allows it, with its method and target.
  pub Reach-IsLoggedFirst :
      (h : Handler) (s : System) → Reach h requests s → IsLoggedFirst requests s.history
  Reach-IsLoggedFirst h s reach = (Reach-IsReady h reach).0
