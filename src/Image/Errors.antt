-- ===== src/Image/Errors.antt =====
-- The errors of `parse_image_ref`, and of the tag rules.
use docker_socket_policy.Base.{Text, ◌≡◌, err, arith}
use docker_socket_policy.Message.{Message, invalid_image_reference}
use docker_socket_policy.Policy.{Regex}
use docker_socket_policy.Image.{split_digest, split_tag, parse_image_ref}

split_digest-err :
    (reference : Text) {msg : Message}
    → split_digest reference ≡ err msg
    → msg ≡ invalid_image_reference reference
unfolding split_digest
split_digest-err reference h = ground arith

split_tag-err :
    (re : Regex) (reference rest : Text) {msg : Message}
    → split_tag re reference rest ≡ err msg
    → msg ≡ invalid_image_reference reference
unfolding split_tag
split_tag-err re reference rest h = ground arith

-- Every error of the parser shows the reference that it was given.
pub parse_image_ref-err :
    (re : Regex) (reference : Text) {msg : Message}
    → parse_image_ref re reference ≡ err msg
    → msg ≡ invalid_image_reference reference
unfolding parse_image_ref
parse_image_ref-err re reference h =
    grind (arith, split_digest-err reference, split_tag-err re reference)
