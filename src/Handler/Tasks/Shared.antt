-- ===== src/Handler/Tasks/Shared.antt =====
-- However the tasks of the requests interleave, each does what `handle` does alone.
use docker_socket_policy.Base.{
  ℕ, List, [], ◌∷◌, ◌++◌, ◌≡◌, refl, sym, ap, inl, inr, Bool-cases, eqb, eqb_iff,
}
use docker_socket_policy.Handler.{HttpRequest, Response, Handler, handle}
use docker_socket_policy.Handler.Tasks.{Answer, answered, System, step, Reach, start, later, own}
use docker_socket_policy.Handler.Tasks.Answers.{
  alone, empty, IsAlone, arrived-IsAlone, advance-IsAlone,
}

pub append_nil : (answers : List Answer) → answers ++ [] ≡ answers
append_nil [] = refl
append_nil (a ∷ answers) = ap (λ l. a ∷ l) (append_nil answers)

module _ (h : Handler) (requests : ℕ → HttpRequest) where
  abbrev Task : System → ℕ → Type 0
  Task s i = IsAlone h (requests i) (s.phase i) (s.answers i) (own i s.history)

  step-Task : (s : System) (j : ℕ) (a : Answer) (i : ℕ) → Task s i → Task (step h requests s j a) i
  step-Task s j a i t = elim (Bool-cases (eqb j i)) [
    | inl e ↦
        let same = (eqb_iff j i).0 e in
        rw (e, same)
          (advance-IsAlone h (requests i) (s.phase i) (s.answers i) (own i s.history) a t)
    | inr e ↦ rw e t
  ]

  pub Reach-Task : {s : System} → Reach h requests s → (i : ℕ) → Task s i
  Reach-Task start i = arrived-IsAlone h (requests i)
  Reach-Task (later {s} before j a) i = step-Task s j a i (Reach-Task before i)

  -- In any interleaving of any requests, with any answers of the daemon, the task of a request that was
  -- answered did what `handle` does alone over a daemon that gives the answers that the task got: the
  -- same answer to the caller, the same requests sent, and the same entries logged, in the same order.
  pub answered-handle :
      {s : System}
      → Reach h requests s
      → (i : ℕ) (r : Response) → s.phase i ≡ answered r
      → handle (alone h (s.answers i)) (requests i) empty ≡ (own i s.history, r)
  answered-handle {s} reach i r e =
      let task = (Reach-Task reach i).rest [] in sym (rw (append_nil (s.answers i), e) at task)
