-- ===== src/Gates/Registry.antt =====
-- rs/src/middleware.rs: RegistryGate.
pub mod Rules
use docker_socket_policy.Base.{Text, Result, ok, ◌>>◌, ◌>>=◌, ensure, is_empty, if◌then◌else◌}
use docker_socket_policy.Json.{Body}
use docker_socket_policy.Message.{Message, image_not_in_prefixes}
use docker_socket_policy.Policy.{Regex, Policy}
use docker_socket_policy.Image.{parse_image_ref, matches_image_prefix, check_image_tag}
use docker_socket_policy.Router.{image_field}

-- The checks on the image of a create.
unfoldable pub check_image : Regex → Policy → Text → Result Message (Unit {0})
check_image re policy image = do
  r ← parse_image_ref re image
  ensure (matches_image_prefix r.name policy.allowed_image_prefixes) (image_not_in_prefixes r.name)
  check_image_tag re policy r

unfoldable pub check : Regex → Policy → Body → Result Message (Unit {0})
check re policy body =
    if is_empty (image_field body) then ok tt else check_image re policy (image_field body)
