-- ===== src/Paths.antt =====
-- rs/src/proxy.rs: the checks on the path of a request.
use docker_socket_policy.Base.{
  Text, ℕ, ◌+◌, Bool, false, not, Option, none, some, List, [], ◌∷◌, lit, ◌==◌, ◌||◌, ◌&&◌,
  is_empty, if◌then◌else◌, split, eqb, leb, is_digit, any, all, drop, take_while_count,
  strip_prefix,
}
use docker_socket_policy.Image.{byte_is}
use docker_socket_policy.Query.{strip_slash}

unfoldable pub is_lower_hex : ℕ → Bool
is_lower_hex b = is_digit b || leb b'a' b && leb b b'f'

unfoldable pub could_be_id : Text → Bool
could_be_id name = not (is_empty name) && all is_lower_hex name

-- The closure `digits`: how many digits stand from an index on.
unfoldable pub digits : Text → ℕ → ℕ
digits bytes from = take_while_count is_digit (drop from bytes)

-- The end of `strip_api_version`: what is left if a slash stands at the index.
unfoldable pub from_slash : Text → Text → ℕ → Text
from_slash path rest i = if byte_is rest i b'/' then drop i rest else path

-- `strip_api_version` behind the prefix "/v".
unfoldable pub strip_version : Text → Text → Text
strip_version path rest =
    let major = digits rest 0 in
    if eqb major 0
    then path
    else if byte_is rest major b'.'
    then (let minor = digits rest (major + 1) in
        if eqb minor 0 then path else from_slash path rest (major + (1 + minor)))
    else from_slash path rest major

unfoldable pub strip_api_version : Text → Text
strip_api_version path = elim (strip_prefix path (lit "/v")) [
  | none ↦ path
  | some rest ↦ strip_version path rest
]

unfoldable pub has_dot_segment : Text → Bool
has_dot_segment path = any (λ s. s == lit "." || s == lit "..") (split path b'/')

-- The segments of a path, without its leading slash.
unfoldable pub segments : Text → List Text
segments path = split (strip_slash path) b'/'

unfoldable pub exec_segments : List Text → Bool
exec_segments [] = false
exec_segments (first ∷ segs) =
    first == lit "exec" || first == lit "containers" && any (λ s. s == lit "exec") segs

unfoldable pub is_exec_path : Text → Bool
is_exec_path path = exec_segments (segments path)

unfoldable pub attach_segments : List Text → Bool
attach_segments [] = false
attach_segments (first ∷ segs) = first == lit "containers" && any (λ s. s == lit "attach") segs

unfoldable pub is_attach_path : Text → Bool
is_attach_path path = attach_segments (segments path)

unfoldable pub container_segment : List Text → Option Text
container_segment (first ∷ second ∷ _) =
    if first == lit "containers"
      && not (is_empty second)
      && not (second == lit "create")
      && not (second == lit "json")
      && not (second == lit "exec")
    then some second
    else none
container_segment _ = none

unfoldable pub extract_container_name : Text → Option Text
extract_container_name path = container_segment (segments path)
