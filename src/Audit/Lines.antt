-- ===== src/Audit/Lines.antt =====
-- The ids of the audit entries.
use docker_socket_policy.Base.{
  Text, ℕ, ◌+◌, ◌*◌, ◌<◌, ◌/◌, ◌%◌, [], ◌∷◌, ◌≡◌, refl, none, some, Option, List, arith, All,
}
use docker_socket_policy.Query.{hex_digit, within, escaped_byte, prepend}
use docker_socket_policy.Audit.{hex_lower, request_id}

-- The bytes of a text of hex digits, two for each.
unfoldable decode_hex : Text → Option (List ℕ)
decode_hex [] = some []
decode_hex (h ∷ []) = none
decode_hex (h ∷ l ∷ s) =
    let rest = decode_hex s in elim (escaped_byte h l) [ none ↦ none | some b ↦ prepend b rest ]

hex_digit-hex_lower : (d : ℕ) → d < 16 → hex_digit (hex_lower d) ≡ some d
unfolding hex_lower hex_digit within
hex_digit-hex_lower d h = ground arith

escaped_byte-hex_lower :
    (b : ℕ) → b < 256 → escaped_byte (hex_lower (b / 16)) (hex_lower (b % 16)) ≡ some b
unfolding escaped_byte
escaped_byte-hex_lower b h =
    let e : 16 * (b / 16) + b % 16 ≡ b = omega arith in
    rw
      (
        escaped_byte,
        hex_digit-hex_lower (b / 16) (omega arith),
        hex_digit-hex_lower (b % 16) (omega arith),
        e,
      )
      refl

-- The bytes can be read back from the id, so that two entries have the same id only if the random
-- generator gave the same bytes.
decode_hex-request_id :
    (bytes : List ℕ) → All (λ b. b < 256) bytes → decode_hex (request_id bytes) ≡ some bytes
unfolding decode_hex request_id
decode_hex-request_id [] h = refl
decode_hex-request_id (b ∷ bytes) (byte, h) =
    rw (decode_hex, escaped_byte-hex_lower b byte, decode_hex-request_id bytes h) refl
