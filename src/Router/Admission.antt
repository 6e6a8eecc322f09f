-- ===== src/Router/Admission.antt =====
-- What a request that is not denied has passed: the read-only mode, the checks on its path, and the
-- denied endpoints.
use docker_socket_policy.Base.{
  Text, ℕ, Bool, true, false, Option, none, List, [], ◌∷◌, ◌++◌, ◌≡◌, ◌≢◌, inl, inr, ◌==◌, ==_iff,
  ==_refl, ◌||◌, any, any-Elem, starts_with, lit, arith, Option-cases, Elem, contains,
  contains_text, split,
}
use docker_socket_policy.Base.Split.{starts_with-append}
use docker_socket_policy.Json.{Body}
use docker_socket_policy.Message.{readonly_mode}
use docker_socket_policy.Policy.{Regex}
use docker_socket_policy.Paths.{
  strip_api_version, has_dot_segment, is_exec_path, is_attach_path, exec_segments, attach_segments,
  segments,
}
use docker_socket_policy.Router.{
  deny_action, Router, deny, is_read, split_target, hidden_path, denied_endpoint, route_endpoint,
  route_path, route_request,
}

-- The path and the query of a request target.
abbrev pub path_of : Text → Text
path_of target = (split_target target).0

abbrev pub query_of : Text → Text
query_of target = (split_target target).1

module _ (re : Regex) (router : Router) (method target : Text) (has_body : Bool)
    (body : Option Body) where
  -- In read-only mode everything but GET and HEAD is denied, whatever the target and the body.
  pub route_request-readonly :
      router.readonly ≡ true
      → method ≢ lit "GET"
      → method ≢ lit "HEAD"
      → route_request re router method target has_body body ≡ deny (readonly_mode method)
  unfolding route_request
  route_request-readonly r g h =
      ground (arith, ==_iff method (lit "GET"), ==_iff method (lit "HEAD"))

  -- A request that is not denied is routed by its endpoint alone, behind these checks.
  pub record Passed : Type 0 where
    pub writable : router.readonly ≡ true → is_read method ≡ true
    pub plain : hidden_path (path_of target) ≡ none
    pub open_endpoint : denied_endpoint (strip_api_version (path_of target)) ≡ none
    pub routed :
        route_request re router method target has_body body
        ≡ route_endpoint re router.manager method
            (strip_api_version (path_of target))
            (query_of target)
            has_body
            body

  pub route_request-Passed :
      (route_request re router method target has_body body).action ≢ deny_action → Passed
  unfolding route_request route_path
  route_request-Passed h = elim (Option-cases (hidden_path (path_of target))) [
    | inr (msg, e) ↦ absurd (ground arith)
    | inl e ↦ elim (Option-cases (denied_endpoint (strip_api_version (path_of target)))) [
      | inr (msg, e') ↦ absurd (ground arith)
      | inl e' ↦ record {
        writable = ground arith;
        plain = e;
        open_endpoint = e';
        routed = ground arith;
      }
    ]
  ]

contains-Elem : {b : ℕ} {s : Text} → Elem b s → contains s b ≡ true
unfolding contains
contains-Elem Elem.here = ground arith
contains-Elem (Elem.there e) = ground (arith, contains-Elem e)

contains_of_starts : (s p : Text) → starts_with s p ≡ true → contains_text s p ≡ true
unfolding contains_text
contains_of_starts [] p h = h
contains_of_starts (c ∷ s) p h = ground arith

contains_text-append : (a p r : Text) → contains_text (a ++ p ++ r) p ≡ true
unfolding contains_text
contains_text-append [] p r = contains_of_starts (p ++ r) p (starts_with-append p r)
contains_text-append (c ∷ a) p r = ground (arith, contains_text-append a p r)

-- A path that the daemon reads as it is written: no percent escape, no empty segment inside it, and
-- no segment that is "." or "..".
pub record IsPlainPath (path : Text) : Type 0 where
  pub unescaped : ¬ Elem b'%' path
  pub no_empty : (a r : Text) → path ≢ a ++ lit "//" ++ r
  pub no_dots : (s : Text) → Elem s (split path b'/') → (s ≢ lit ".") × (s ≢ lit "..")

dot_segment-Elem :
    (path : Text) {s : Text}
    → Elem s (split path b'/')
    → (s == lit "." || s == lit "..") ≡ true
    → has_dot_segment path ≡ true
unfolding has_dot_segment
dot_segment-Elem path e h = any-Elem (λ s. s == lit "." || s == lit "..") e h

IsPlainPath-of_hidden : (path : Text) → hidden_path path ≡ none → IsPlainPath path
unfolding hidden_path
IsPlainPath-of_hidden path h = record {
  unescaped = λ e. ground (arith, contains-Elem e);
  no_empty = λ a r e. ground (arith, contains_text-append a (lit "//") r);
  no_dots = λ s e. (
    λ d. ground (arith, dot_segment-Elem path e, ==_iff s (lit ".")),
    λ d. ground (arith, dot_segment-Elem path e, ==_iff s (lit "..")),
  );
}

-- The first segment is no exec, and no exec or attach stands below containers.
abbrev pub NoExec : List Text → Type 0
NoExec [] = Unit
NoExec (first ∷ rest) =
    (first ≢ lit "exec")
    × (first ≡ lit "containers" → ¬ Elem (lit "exec") rest × ¬ Elem (lit "attach") rest)

named-Elem : (name : Text) {rest : List Text} → Elem name rest → any (λ s. s == name) rest ≡ true
named-Elem name e = any-Elem (λ s. s == name) e (==_refl name)

NoExec-of_segments :
    (segs : List Text) → exec_segments segs ≡ false → attach_segments segs ≡ false → NoExec segs
unfolding exec_segments attach_segments
NoExec-of_segments [] h k = tt
NoExec-of_segments (first ∷ rest) h k = (
  λ e. ground (arith, ==_iff first (lit "exec")),
  λ c. (
    λ e. ground (arith, ==_iff first (lit "containers"), named-Elem (lit "exec") e),
    λ e. ground (arith, ==_iff first (lit "containers"), named-Elem (lit "attach") e),
  ),
)

NoExec-of_denied : (path : Text) → denied_endpoint path ≡ none → NoExec (segments path)
unfolding denied_endpoint is_exec_path is_attach_path
NoExec-of_denied path h = NoExec-of_segments (segments path) (ground arith) (ground arith)

module _ (re : Regex) (router : Router) (method target : Text) (has_body : Bool)
    (body : Option Body) where
  -- Whatever is not denied has a plain path: no percent sign, no "//" in it, and no segment that is "."
  -- or "..".
  pub route_request-IsPlainPath :
      (route_request re router method target has_body body).action ≢ deny_action
      → IsPlainPath (path_of target)
  route_request-IsPlainPath h =
      IsPlainPath-of_hidden _ (route_request-Passed re router method target has_body body h).plain

  -- Whatever is not denied reaches no exec and no attach endpoint, with the API version stripped: the
  -- first segment is not "exec", and below "containers" no segment is "exec" or "attach".
  pub route_request-NoExec :
      (route_request re router method target has_body body).action ≢ deny_action
      → NoExec (segments (strip_api_version (path_of target)))
  route_request-NoExec h =
      NoExec-of_denied _
        (route_request-Passed re router method target has_body body h).open_endpoint
