-- ===== src/Router/Creates.antt =====
-- Creates and lifecycle actions: which policy the router attaches to them.
use docker_socket_policy.Base.{
  Text, true, false, Option, none, some, List, [], ◌∷◌, ◌≡◌, refl, ◌≢◌, ◌⊎◌, inl, inr, Bool-cases,
  ok, filter, Result-cases, is_empty, is_empty-false,
}
use docker_socket_policy.Json.{Body}
use docker_socket_policy.Policy.{Regex, Policy}
use docker_socket_policy.Image.{ImageRef, parse_image_ref}
use docker_socket_policy.Manager.{Manager, policies, covering, select_for_create}
use docker_socket_policy.Manager.Selection.{fits, select_for_create_iff}
use docker_socket_policy.Query.{create_name}
use docker_socket_policy.Paths.{could_be_id}
use docker_socket_policy.Router.{
  deny_action, RouteResult, route_create, create_image, route_by_name, route_covering, image_field,
  created, resolve_later, allow_named,
}

-- A create that is passed on to the chain: the body is the caller's, the policy is the only one that
-- fits its image and the name in its query.
pub record IsCreate (re : Regex) (m : Manager) (body : Option Body) (query : Text) (r : RouteResult)
    : Type 0 where
  pub json : Body
  pub name : Text
  pub policy : Policy
  pub image : ImageRef
  pub given : body ≡ some json
  pub imaged : image_field json ≢ []
  pub named : create_name query ≡ ok name
  pub parsed : parse_image_ref re (image_field json) ≡ ok image
  pub single : filter (fits image.name name) (policies m) ≡ policy ∷ []
  pub result : r ≡ created json (image_field json) name policy

module _ (re : Regex) (m : Manager) (query : Text) where
  create_image-IsCreate :
      (json : Body)
      → image_field json ≢ []
      → (create_image re m json (image_field json) query).action ≢ deny_action
      → IsCreate re m (some json) query (create_image re m json (image_field json) query)
  unfolding create_image
  create_image-IsCreate json imaged h =
      elim (Result-cases (parse_image_ref re (image_field json))) [
        | inr (msg, e) ↦ absurd (h (rw e))
        | inl (r, e) ↦ elim (Result-cases (create_name query)) [
          | inr (msg, e1) ↦ absurd (h (rw (e, e1)))
          | inl (name, e1) ↦ elim (Result-cases (select_for_create re m (image_field json) name)) [
            | inr (msg, e2) ↦ absurd (h (rw (e, e1, e2)))
            | inl (policy, e2) ↦
                let (r', e', single) =
                  (select_for_create_iff re m (image_field json) name policy).0 e2 in
                rw (e, e1, e2)
                  (record {
                    json = json;
                    name = name;
                    policy = policy;
                    image = r';
                    given = refl;
                    imaged = imaged;
                    named = e1;
                    parsed = e';
                    single = single;
                    result = refl;
                  })
          ]
        ]
      ]

  route_create-some-IsCreate :
      (json : Body)
      → (route_create re m (some json) query).action ≢ deny_action
      → IsCreate re m (some json) query (route_create re m (some json) query)
  unfolding route_create
  route_create-some-IsCreate json h = elim (Bool-cases (is_empty json)) [
    | inl t ↦ absurd (h (rw t))
    | inr f ↦ elim (Bool-cases (is_empty (image_field json))) [
      | inl t ↦ absurd (h (rw (f, t)))
      | inr f' ↦
          rw (f, f')
            (create_image-IsCreate json (is_empty-false (image_field json) f')
              (rw (f, f', route_create) at h))
    ]
  ]

-- A create that is not denied carries the caller's body and the only policy of the manager that fits
-- the image of that body and the name in the query.
pub route_create-IsCreate :
    (re : Regex) (m : Manager) (body : Option Body) (query : Text)
    → (route_create re m body query).action ≢ deny_action
    → IsCreate re m body query (route_create re m body query)
unfolding route_create
route_create-IsCreate re m none query h = absurd (h refl)
route_create-IsCreate re m (some json) query h = route_create-some-IsCreate re m query json h

-- How the router answers for the policies that cover a name.
abbrev ByName : Text → List Policy → RouteResult → Type 0
ByName name ps r =
    ((policy : Policy) × (ps ≡ policy ∷ [])
      × (could_be_id name ≡ false)
      × (r ≡ allow_named name policy))
    ⊎ (((policy : Policy) → ps ≡ policy ∷ [] → could_be_id name ≡ true) × (r ≡ resolve_later name))

route_covering-ByName : (name : Text) (ps : List Policy) → ByName name ps (route_covering name ps)
unfolding route_covering
route_covering-ByName name [] = inr (λ policy e. cc, refl)
route_covering-ByName name (p ∷ []) = elim (Bool-cases (could_be_id name)) [
  | inl t ↦ inr (λ policy e. t, rw t)
  | inr f ↦ inl (p, refl, f, rw f)
]
route_covering-ByName name (p ∷ q ∷ ps) = inr (λ policy e. cc, refl)

-- A lifecycle action is allowed without asking the daemon when one policy alone covers the name and
-- the name is not one of lower-case hex digits only; in every other case the container is resolved.
pub route_by_name_cases :
    (m : Manager) (name : Text)
    → ((policy : Policy) × (covering m name ≡ policy ∷ [])
        × (could_be_id name ≡ false)
        × (route_by_name m name ≡ allow_named name policy))
      ⊎ (((policy : Policy) → covering m name ≡ policy ∷ [] → could_be_id name ≡ true)
          × (route_by_name m name ≡ resolve_later name))
unfolding route_by_name
route_by_name_cases m name = route_covering-ByName name (covering m name)
