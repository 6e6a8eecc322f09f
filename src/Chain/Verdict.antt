-- ===== src/Chain/Verdict.antt =====
-- What a create must satisfy to be allowed by the chain.
use docker_socket_policy.Base.{
  Text, true, false, Option, none, some, List, [], ◌∷◌, ◌≡◌, refl, ap, ok, err, inl, inr, All,
  Result-cases, Option-cases, ok-tt, ◌↔◌,
}
use docker_socket_policy.Json.{Body}
use docker_socket_policy.Message.{Message, create_allowed}
use docker_socket_policy.Policy.{Regex, Policy}
use docker_socket_policy.Chain.{
  Gate, registry_gate, mount_source_gate, env_file_gate, host_config_gate, cmd_gate,
  network_endpoints_gate, Chain, GateResult, new, check_gate, mutate_all, apply_mutator,
  first_denial, execute,
}
use docker_socket_policy.Mutator.{mutate}

-- Every gate of the list passes.
abbrev pub Passes : Regex → Policy → Body → Gate → Type 0
Passes re policy body g = check_gate re g policy body ≡ ok tt

module _ (re : Regex) (policy : Policy) (body : Body) where
  first_denial-none :
      (gs : List Gate) → first_denial re gs policy body ≡ none → All (Passes re policy body) gs
  unfolding first_denial
  first_denial-none [] h = tt
  first_denial-none (g ∷ gs) h = elim (Result-cases (check_gate re g policy body)) [
    | inl (u, e) ↦
        (ok-tt (check_gate re g policy body) e, first_denial-none gs (rw (e, first_denial) at h))
    | inr (msg, e) ↦ let own : some msg ≡ none = rw (e, first_denial) at h in absurd cc
  ]

  first_denial-All :
      (gs : List Gate) → All (Passes re policy body) gs → first_denial re gs policy body ≡ none
  unfolding first_denial
  first_denial-All [] h = refl
  first_denial-All (g ∷ gs) h = rw (h.0, first_denial) (first_denial-All gs h.1)

  first_denial-some :
      (gs : List Gate) (reason : Message)
      → first_denial re gs policy body ≡ some reason
      → (g : Gate) × (check_gate re g policy body ≡ err reason)
  unfolding first_denial
  first_denial-some [] reason h = absurd cc
  first_denial-some (g ∷ gs) reason h = elim (Result-cases (check_gate re g policy body)) [
    | inl (u, e) ↦ first_denial-some gs reason (rw (e, first_denial) at h)
    | inr (msg, e) ↦ let own : some msg ≡ some reason = rw (e, first_denial) at h in (g, cc)
  ]

  -- The chain of `Chain::new` holds every gate.
  gates_iff :
      All (Passes re policy body) new.gates ↔ ((g : Gate) → check_gate re g policy body ≡ ok tt)
  gates_iff = (
    λ (a, (b, (c, (d, (e, (f, _)))))). elim [
      | registry_gate ↦ a
      | mount_source_gate ↦ b
      | env_file_gate ↦ c
      | host_config_gate ↦ d
      | cmd_gate ↦ e
      | network_endpoints_gate ↦ f
    ],
    λ h. (
      h registry_gate,
      (
        h mount_source_gate,
        (h env_file_gate, (h host_config_gate, (h cmd_gate, (h network_endpoints_gate, tt)))),
      ),
    ),
  )

module _ (re : Regex) (to_vec : Body → Option Text) (chain : Chain) (policy : Policy)
    (body : Body) where
  execute-none :
      first_denial re chain.gates policy (mutate_all chain.mutators policy body) ≡ none
      → execute re to_vec chain policy body ≡ record {
        allowed = true;
        reason = create_allowed;
        modified_body = to_vec (mutate_all chain.mutators policy body);
      }
  unfolding execute
  execute-none h = rw (h, execute)

  execute-some :
      (msg : Message)
      → first_denial re chain.gates policy (mutate_all chain.mutators policy body) ≡ some msg
      → execute re to_vec chain policy body
        ≡ record { allowed = false; reason = msg; modified_body = none }
  unfolding execute
  execute-some msg h = rw (h, execute)

module _ (re : Regex) (to_vec : Body → Option Text) (policy : Policy) (body : Body) where
  abbrev verdict : GateResult
  verdict = execute re to_vec new policy body

  verdict-none :
      first_denial re new.gates policy (mutate policy body) ≡ none
      → verdict ≡ record {
        allowed = true;
        reason = create_allowed;
        modified_body = to_vec (mutate policy body);
      }
  unfolding mutate_all apply_mutator
  verdict-none h = execute-none re to_vec new policy body h

  verdict-some :
      (msg : Message)
      → first_denial re new.gates policy (mutate policy body) ≡ some msg
      → verdict ≡ record { allowed = false; reason = msg; modified_body = none }
  unfolding mutate_all apply_mutator
  verdict-some msg h = execute-some re to_vec new policy body msg h

  verdict-gates :
      verdict.allowed ≡ true → (g : Gate) → check_gate re g policy (mutate policy body) ≡ ok tt
  verdict-gates h = elim (Option-cases (first_denial re new.gates policy (mutate policy body))) [
    | inl e ↦
        (gates_iff re policy (mutate policy body)).0
          (first_denial-none re policy (mutate policy body) new.gates e)
    | inr (msg, e) ↦ let b = ap (λ r. r.allowed) (verdict-some msg e) in absurd cc
  ]

  verdict-allowed :
      ((g : Gate) → check_gate re g policy (mutate policy body) ≡ ok tt)
      → verdict ≡ record {
        allowed = true;
        reason = create_allowed;
        modified_body = to_vec (mutate policy body);
      }
  verdict-allowed h = verdict-none (
      first_denial-All re policy (mutate policy body) new.gates
        ((gates_iff re policy (mutate policy body)).1 h))

  -- The chain allows a create exactly when each of the six gates passes the body that the mutator made.
  pub execute-allowed_iff :
      verdict.allowed ≡ true ↔ ((g : Gate) → check_gate re g policy (mutate policy body) ≡ ok tt)
  execute-allowed_iff = (verdict-gates, λ h. ap (λ r. r.allowed) (verdict-allowed h))

  -- What is sent on for an allowed create is the printed body of the mutator, the one the gates saw.
  pub execute-modified_body :
      verdict.allowed ≡ true → verdict.modified_body ≡ to_vec (mutate policy body)
  execute-modified_body h = ap (λ r. r.modified_body) (verdict-allowed (verdict-gates h))

  -- A create that is not allowed has the reason of a gate that refuses the mutated body, and no body.
  pub execute-denied :
      verdict.allowed ≡ false
      → (verdict.modified_body ≡ none)
        × ((g : Gate) × (check_gate re g policy (mutate policy body) ≡ err verdict.reason))
  execute-denied h = elim (Option-cases (first_denial re new.gates policy (mutate policy body))) [
    | inl e ↦ let b = ap (λ r. r.allowed) (verdict-none e) in absurd cc
    | inr (msg, e) ↦
        let refused = first_denial-some re policy (mutate policy body) new.gates msg e in
        rw (verdict-some msg e) (refl, refused)
  ]
