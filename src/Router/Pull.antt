-- ===== src/Router/Pull.antt =====
-- rs/src/proxy.rs: route_image_pull.
use docker_socket_policy.Base.{
  Text, Bool, not, Option, none, some, List, [], ◌∷◌, ◌++◌, Result, ok, err, ◌>>=◌, lit, ◌||◌, ◌&&◌,
  is_empty, if◌then◌else◌, contains, ltb, unwrap_or, is_some, find,
}
use docker_socket_policy.Message.{
  Message, no_message, pull_has_body, invalid_query_string, duplicate_parameter,
  image_import_not_allowed, from_image_required, tag_parameter_ambiguous, pull_without_tag,
  image_not_allowed,
}
use docker_socket_policy.Policy.{Regex, Policy}
use docker_socket_policy.Image.{ImageRef, parse_image_ref, check_image_tag}
use docker_socket_policy.Manager.{Manager, matching_image}
use docker_socket_policy.Query.{Parameters, parse_query, occurrences, parameter}
use docker_socket_policy.Router.Route.{RouteResult, allow, deny}

abbrev pub allow_pull : Text → Policy → RouteResult
allow_pull from_image policy = record allow {
  service = some policy.service_name;
  image = some from_image;
}

-- The loop over the matching policies, with the first error so far.
unfoldable pub pull_policies : Regex → Text → ImageRef → Option Message → List Policy → RouteResult
pull_policies re from_image r first_err [] = deny (unwrap_or no_message first_err)
pull_policies re from_image r first_err (policy ∷ rest) = elim (check_image_tag re policy r) [
  | ok _ ↦ allow_pull from_image policy
  | err msg ↦ pull_policies re from_image r (some (unwrap_or msg first_err)) rest
]

-- The reference with the `tag` parameter, which a reference with a tag or digest may not have.
unfoldable pub add_tag : Regex → (from_image tag : Text) → ImageRef → Result Message ImageRef
add_tag re from_image tag r =
    if is_empty tag
    then ok r
    else if not (is_empty r.tag) || not (is_empty r.digest)
    then err (tag_parameter_ambiguous from_image)
    else parse_image_ref re (from_image ++ (if contains tag b':' then b'@' else b':') ∷ tag)

-- The reference that `fromImage` and `tag` name together.
unfoldable pub pull_reference : Regex → (from_image tag : Text) → Result Message ImageRef
pull_reference re from_image tag = do r ← parse_image_ref re from_image; add_tag re from_image tag r

unfoldable pub pull_image : Regex → Manager → Text → ImageRef → RouteResult
pull_image re m from_image r =
    if is_empty r.tag && is_empty r.digest
    then deny pull_without_tag
    else if is_empty (matching_image m r.name)
    then deny (image_not_allowed from_image)
    else pull_policies re from_image r none (matching_image m r.name)

-- The first of the three parameters that stands twice in the query.
unfoldable pub duplicate_key : Parameters → Option Text
duplicate_key params =
    find (λ key. ltb 1 (occurrences key params)) (lit "fromImage" ∷ lit "tag" ∷ lit "fromSrc" ∷ [])

unfoldable pub pull_parameters : Regex → Manager → Parameters → RouteResult
pull_parameters re m params =
    let from_image = unwrap_or [] (parameter (lit "fromImage") params) in
    let tag = unwrap_or [] (parameter (lit "tag") params) in
    if is_some (parameter (lit "fromSrc") params)
    then deny image_import_not_allowed
    else if is_empty from_image
    then deny from_image_required
    else elim (pull_reference re from_image tag) [
      | err msg ↦ deny msg
      | ok r ↦ pull_image re m from_image r
    ]

unfoldable pub route_image_pull : Regex → Manager → Text → Bool → RouteResult
route_image_pull re m raw_query has_body =
    if has_body then deny pull_has_body else elim (parse_query raw_query) [
      | none ↦ deny invalid_query_string
      | some params ↦ elim (duplicate_key params) [
        | some key ↦ deny (duplicate_parameter key)
        | none ↦ pull_parameters re m params
      ]
    ]
