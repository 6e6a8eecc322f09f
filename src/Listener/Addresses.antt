-- ===== src/Listener/Addresses.antt =====
-- rs/src/main.rs: validate_listen_socket and validate_docker_host.
use docker_socket_policy.Base.{
  Text, List, [], ◌∷◌, Result, ok, err, lit, any, is_empty, if◌then◌else◌, not, ◌||◌, starts_with,
}

-- Why an address is refused.
pub data AddressError : Type 0 where
  listen_socket_empty : AddressError
  listen_socket_not_unix listen_socket_abstract listen_socket_relative :
      (addr : Text) → AddressError
  docker_host_empty : AddressError
  docker_host_not_unix : (addr : Text) → AddressError

abbrev pub listen_schemes : List Text
listen_schemes = lit "fd://" ∷ lit "tcp://" ∷ lit "http://" ∷ lit "https://" ∷ lit "unix://" ∷ []

abbrev pub host_schemes : List Text
host_schemes = lit "tcp://" ∷ lit "http://" ∷ lit "https://" ∷ lit "unix://" ∷ []

unfoldable pub validate_listen_socket : (addr : Text) → Result AddressError (Unit {0})
validate_listen_socket addr =
    if is_empty addr
    then err listen_socket_empty
    else if any (λ s. starts_with addr s) listen_schemes
    then err (listen_socket_not_unix addr)
    else if starts_with addr (b'@' ∷ []) || starts_with addr (0 ∷ [])
    then err (listen_socket_abstract addr)
    else if not (starts_with addr (b'/' ∷ []))
    then err (listen_socket_relative addr)
    else ok tt

unfoldable pub validate_docker_host : (addr : Text) → Result AddressError (Unit {0})
validate_docker_host addr =
    if is_empty addr
    then err docker_host_empty
    else if any (λ s. starts_with addr s) host_schemes
    then err (docker_host_not_unix addr)
    else ok tt
