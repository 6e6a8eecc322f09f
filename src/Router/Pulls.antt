-- ===== src/Router/Pulls.antt =====
-- Image pulls: what an allowed pull has passed.
use docker_socket_policy.Base.{
  Text, ◌≤◌, Bool, true, false, Option, none, some, List, [], ◌∷◌, ◌≡◌, refl, ◌≢◌, ◌⊎◌, inl, inr,
  ◌&&◌, lit, arith, Bool-cases, Option-cases, ok, Result-cases, is_empty, is_empty-false, unwrap_or,
  Elem, Elem-of_filter, find-eq-none, ltb,
}
use docker_socket_policy.Message.{Message}
use docker_socket_policy.Policy.{Regex, Policy}
use docker_socket_policy.Image.{ImageRef, check_image_tag, matches_image_prefix}
use docker_socket_policy.Manager.{Manager, policies, matching_image}
use docker_socket_policy.Query.{Parameters, parse_query, parameter, occurrences}
use docker_socket_policy.Router.{
  deny_action, RouteResult, route_image_pull, pull_parameters, pull_image, pull_policies,
  pull_reference, duplicate_key, allow_pull,
}

-- A policy of the list whose tag rules accept the image.
pull_policies-accepts :
    (re : Regex) (from_image : Text) (r : ImageRef) (first_err : Option Message) (ps : List Policy)
    → (pull_policies re from_image r first_err ps).action ≢ deny_action
    → (p : Policy) × Elem p ps
      × (check_image_tag re p r ≡ ok tt)
      × (pull_policies re from_image r first_err ps ≡ allow_pull from_image p)
unfolding pull_policies
pull_policies-accepts re from_image r first_err [] h = absurd (h refl)
pull_policies-accepts re from_image r first_err (p ∷ ps) h =
    elim (Result-cases (check_image_tag re p r)) [
      | inl (_, e) ↦ (p, Elem.here, e, rw (e, pull_policies))
      | inr (msg, e) ↦
          let (q, there_q, accepted, result) =
            pull_policies-accepts re from_image r (some (unwrap_or msg first_err)) ps
              (rw (e, pull_policies) at h) in
          (q, Elem.there there_q, accepted, rw (e, pull_policies) result)
    ]

-- What an allowed pull has passed: it has no body, and names a tag or a digest of an image that a
-- policy of the manager allows.
pub record IsPull (re : Regex) (m : Manager) (query : Text) (has_body : Bool) (r : RouteResult)
    : Type 0 where
  pub params : Parameters
  pub image : ImageRef
  pub policy : Policy
  pub no_body : has_body ≡ false
  pub parsed : parse_query query ≡ some params
  pub single :
      (key : Text)
      → Elem key (lit "fromImage" ∷ lit "tag" ∷ lit "fromSrc" ∷ [])
      → occurrences key params ≤ 1
  pub no_import : parameter (lit "fromSrc") params ≡ none
  pub reference :
      pull_reference re
        (unwrap_or [] (parameter (lit "fromImage") params))
        (unwrap_or [] (parameter (lit "tag") params))
      ≡ ok image
  pub tagged : (image.tag ≢ []) ⊎ (image.digest ≢ [])
  pub known : Elem policy (policies m)
  pub allowed : matches_image_prefix image.name policy.allowed_image_prefixes ≡ true
  pub accepted : check_image_tag re policy image ≡ ok tt
  pub result : r ≡ allow_pull (unwrap_or [] (parameter (lit "fromImage") params)) policy

tagged_of_test :
    (image : ImageRef)
    → (is_empty image.tag && is_empty image.digest) ≡ false
    → (image.tag ≢ []) ⊎ (image.digest ≢ [])
tagged_of_test image h = elim (Bool-cases (is_empty image.tag)) [
  | inr t ↦ inl (is_empty-false image.tag t)
  | inl t ↦ inr (is_empty-false image.digest (ground arith))
]

-- The image of a pull that is allowed.
record IsPullImage (re : Regex) (m : Manager) (from_image : Text) (image : ImageRef)
    (r : RouteResult) : Type 0 where
  policy : Policy
  tagged : (image.tag ≢ []) ⊎ (image.digest ≢ [])
  known : Elem policy (policies m)
  allowed : matches_image_prefix image.name policy.allowed_image_prefixes ≡ true
  accepted : check_image_tag re policy image ≡ ok tt
  result : r ≡ allow_pull from_image policy

pull_image-IsPullImage :
    (re : Regex) (m : Manager) (from_image : Text) (image : ImageRef)
    → (pull_image re m from_image image).action ≢ deny_action
    → IsPullImage re m from_image image (pull_image re m from_image image)
unfolding pull_image matching_image
pull_image-IsPullImage re m from_image image h =
    elim (Bool-cases (is_empty image.tag && is_empty image.digest)) [
      | inl t ↦ absurd (h (rw t))
      | inr f ↦ elim (Bool-cases (is_empty (matching_image m image.name))) [
        | inl t ↦ absurd (h (rw (f, t)))
        | inr f' ↦
            let (p, e, accepted, result) =
              pull_policies-accepts re from_image image none (matching_image m image.name)
                (rw (f, f', pull_image) at h) in
            let (known, allowed) =
              Elem-of_filter (λ q. matches_image_prefix image.name q.allowed_image_prefixes)
                (policies m) e in
            rw (f, f')
              (record {
                policy = p;
                tagged = tagged_of_test image f;
                known = known;
                allowed = allowed;
                accepted = accepted;
                result = result;
              })
      ]
    ]

-- The parameters of a pull that is allowed.
record IsPullParameters (re : Regex) (m : Manager) (params : Parameters) (r : RouteResult)
    : Type 0 where
  image : ImageRef
  no_import : parameter (lit "fromSrc") params ≡ none
  reference :
      pull_reference re
        (unwrap_or [] (parameter (lit "fromImage") params))
        (unwrap_or [] (parameter (lit "tag") params))
      ≡ ok image
  pulled : IsPullImage re m (unwrap_or [] (parameter (lit "fromImage") params)) image r

pull_parameters-IsPullParameters :
    (re : Regex) (m : Manager) (params : Parameters)
    → (pull_parameters re m params).action ≢ deny_action
    → IsPullParameters re m params (pull_parameters re m params)
unfolding pull_parameters
pull_parameters-IsPullParameters re m params h =
    elim (Option-cases (parameter (lit "fromSrc") params)) [
      | inr (source, e) ↦ absurd (h (rw e))
      | inl e ↦ elim (Bool-cases (is_empty (unwrap_or [] (parameter (lit "fromImage") params)))) [
        | inl t ↦ absurd (h (rw (e, t)))
        | inr f ↦
            elim (Result-cases (
              pull_reference re (unwrap_or [] (parameter (lit "fromImage") params))
                (unwrap_or [] (parameter (lit "tag") params)))) [
                  | inr (msg, e') ↦ absurd (h (rw (e, f, e')))
                  | inl (image, e') ↦
                      let pulled =
                        pull_image-IsPullImage re m
                          (unwrap_or [] (parameter (lit "fromImage") params)) image
                          (rw (e, f, e', pull_parameters) at h) in
                      rw (e, f, e')
                        (record { image = image; no_import = e; reference = e'; pulled = pulled })
                ]
      ]
    ]

single_of_duplicate :
    (params : Parameters)
    → duplicate_key params ≡ none
    → (key : Text) → Elem key (lit "fromImage" ∷ lit "tag" ∷ lit "fromSrc" ∷ [])
    → occurrences key params ≤ 1
unfolding duplicate_key
single_of_duplicate params h key e =
    let unique = find-eq-none (λ key. ltb 1 (occurrences key params)) h e in ground arith

-- An image pull that is not denied has no body, gives each of its parameters at most once, imports
-- nothing, and names a tag or digest of an image that lies under a prefix of a policy of the manager
-- whose tag and digest rules accept it.
pub route_image_pull-IsPull :
    (re : Regex) (m : Manager) (query : Text) (has_body : Bool)
    → (route_image_pull re m query has_body).action ≢ deny_action
    → IsPull re m query has_body (route_image_pull re m query has_body)
unfolding route_image_pull
route_image_pull-IsPull re m query true h = absurd (h refl)
route_image_pull-IsPull re m query false h = elim (Option-cases (parse_query query)) [
  | inl e ↦ absurd (h (rw e))
  | inr (params, e) ↦ elim (Option-cases (duplicate_key params)) [
    | inr (key, d) ↦ absurd (h (rw (e, d)))
    | inl d ↦
        let p = pull_parameters-IsPullParameters re m params (rw (e, d, route_image_pull) at h) in
        rw (e, d)
          (record {
            params = params;
            image = p.image;
            policy = p.pulled.policy;
            no_body = refl;
            parsed = e;
            single = single_of_duplicate params d;
            no_import = p.no_import;
            reference = p.reference;
            tagged = p.pulled.tagged;
            known = p.pulled.known;
            allowed = p.pulled.allowed;
            accepted = p.pulled.accepted;
            result = p.pulled.result;
          })
  ]
]
