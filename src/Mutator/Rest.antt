-- ===== src/Mutator/Rest.antt =====
-- What the mutator leaves as it is.
use docker_socket_policy.Base.{
  Text, false, Option, none, some, List, [], ◌∷◌, ◌≡◌, refl, ◌∙◌, ◌==◌, lit, any, Option-cases, inl,
  inr, arith,
}
use docker_socket_policy.Base.Map.{Map, get, get-insert_ne}
use docker_socket_policy.Json.{
  Value, null, bool, number, string, array, object, Body, as_object, obj, entries,
}
use docker_socket_policy.Policy.{Policy}
use docker_socket_policy.Router.{image_field}
use docker_socket_policy.Mutator.{host_config_value, forced_host_config, mutate}
use docker_socket_policy.Mutator.Fields.{forced_fields, forced_host_config-get}
use docker_socket_policy.Mutator.Forced.{
  config_top-get, mutate_object, mutate_other, mutate-IsForced,
}

-- The fields of the body that the mutator may write.
abbrev pub written_fields : List Text
written_fields = lit "User" ∷ lit "NetworkingConfig" ∷ lit "HostConfig" ∷ []

pub mutate-get :
    (policy : Policy) (body : Body) (k : Text)
    → any (λ f. f == k) written_fields ≡ false
    → get k (mutate policy body) ≡ get k body
mutate-get policy body k other = elim (Option-cases (as_object (host_config_value body))) [
  | inl e ↦ rw (mutate_other policy body e)
  | inr (hc, e) ↦ rw (mutate_object policy body hc e) (
      config_top-get policy _ k (ground arith) (ground arith)
      ∙ get-insert_ne k (lit "HostConfig") (obj (forced_host_config policy hc)) body (ground arith))
]

-- Two objects with the same value under every key but these.
abbrev pub SameBut : List Text → Map Value → Map Value → Type 0
SameBut fields m m' = (k : Text) → any (λ f. f == k) fields ≡ false → get k m' ≡ get k m

-- The fields of a HostConfig: none if it is absent or null, and no object otherwise.
abbrev pub asked_fields : Option Value → Option (Map Value)
asked_fields none = some []
asked_fields (some null) = some []
asked_fields (some (object o)) = some (entries o)
asked_fields (some other) = none

-- What becomes of a body with these fields in its HostConfig.
abbrev pub IsKept : Option (Map Value) → (body body' : Body) → Type 0
IsKept none body body' = body' ≡ body
IsKept (some hc) body body' =
    (hc' : Map Value) × (get (lit "HostConfig") body' ≡ some (obj hc'))
    × SameBut forced_fields hc hc'

asked_fields-eq :
    (body : Body) → as_object (host_config_value body) ≡ asked_fields (get (lit "HostConfig") body)
unfolding host_config_value
asked_fields-eq body = by_value (get (lit "HostConfig") body)
  where
    by_value :
        (o : Option Value)
        → as_object (elim o [ none ↦ obj [] | some null ↦ obj [] | some v ↦ v ]) ≡ asked_fields o
    by_value none = refl
    by_value (some null) = refl
    by_value (some (bool b)) = refl
    by_value (some (number n)) = refl
    by_value (some (string s)) = refl
    by_value (some (array a)) = refl
    by_value (some (object o)) = refl

fields-IsKept :
    (policy : Policy) (body : Body) (fields : Option (Map Value))
    → as_object (host_config_value body) ≡ fields
    → IsKept fields body (mutate policy body)
fields-IsKept policy body none e = mutate_other policy body e
fields-IsKept policy body (some hc) e = (
  forced_host_config policy hc,
  (mutate-IsForced policy body hc e).0,
  forced_host_config-get policy hc,
)

-- The mutator writes no other field of the body than User, NetworkingConfig and HostConfig. It
-- leaves the whole body as it is if HostConfig is neither absent nor null nor an object; otherwise it
-- leaves an object there, in which it writes no other field than Privileged, NetworkMode,
-- RestartPolicy, SecurityOpt, LogConfig and GroupAdd.
pub mutate-SameBut :
    (policy : Policy) (body : Body)
    → SameBut written_fields body (mutate policy body)
      × IsKept (asked_fields (get (lit "HostConfig") body)) body (mutate policy body)
mutate-SameBut policy body =
    (mutate-get policy body, fields-IsKept policy body _ (asked_fields-eq body))

-- The image stays.
pub image_field-mutate :
    (policy : Policy) (body : Body) → image_field (mutate policy body) ≡ image_field body
unfolding image_field ◌==◌ lit
image_field-mutate policy body = rw (mutate-get policy body (lit "Image") refl, image_field)
