-- ===== src/Query/Escape.antt =====
-- The escape of a container's id in the path of its inspect.
use docker_socket_policy.Base.{
  Text, ℕ, ◌+◌, ◌*◌, ◌<◌, ◌/◌, ◌%◌, some, true, false, [], ◌∷◌, ◌≡◌, refl, arith, All, eqb,
  is_alnum, is_alpha, is_upper, is_lower, is_digit, Bool-cases, inl, inr,
}
use docker_socket_policy.Query.{
  is_unreserved, hex_upper, path_escape, hex_digit, within, escaped_byte, plain_byte, prepend,
  unescape_bytes,
}

-- A byte that ends no segment and starts no query.
abbrev pub IsSegmentByte : ℕ → Type 0
IsSegmentByte b = (eqb b b'/' ≡ false) × (eqb b b'?' ≡ false) × (eqb b b'#' ≡ false)

hex_upper-IsSegmentByte : (d : ℕ) → d < 16 → IsSegmentByte (hex_upper d)
unfolding hex_upper
hex_upper-IsSegmentByte d h = (ground arith, ground arith, ground arith)

is_unreserved-IsSegmentByte : (b : ℕ) → is_unreserved b ≡ true → IsSegmentByte b
unfolding is_unreserved is_alnum is_alpha is_upper is_lower is_digit
is_unreserved-IsSegmentByte b h = (ground arith, ground arith, ground arith)

-- An escaped text of bytes is one segment of a path: it has no "/", no "?" and no "#".
pub path_escape-IsSegmentByte :
    (s : Text) → All (λ b. b < 256) s → All IsSegmentByte (path_escape s)
unfolding path_escape
path_escape-IsSegmentByte [] h = tt
path_escape-IsSegmentByte (b ∷ s) (byte, h) =
    let rest = path_escape-IsSegmentByte s h in
    elim (Bool-cases (is_unreserved b)) [
      | inl t ↦ rw (t, path_escape) (is_unreserved-IsSegmentByte b t, rest)
      | inr f ↦
          rw (f, path_escape)
            (
              (refl, refl, refl),
              (
                hex_upper-IsSegmentByte (b / 16) (omega arith),
                (hex_upper-IsSegmentByte (b % 16) (omega arith), rest),
              ),
            )
    ]

hex_digit-hex_upper : (d : ℕ) → d < 16 → hex_digit (hex_upper d) ≡ some d
unfolding hex_upper hex_digit within
hex_digit-hex_upper d h = ground arith

escaped_byte-hex_upper :
    (b : ℕ) → b < 256 → escaped_byte (hex_upper (b / 16)) (hex_upper (b % 16)) ≡ some b
unfolding escaped_byte
escaped_byte-hex_upper b h =
    let e : 16 * (b / 16) + b % 16 ≡ b = omega arith in
    rw
      (
        escaped_byte,
        hex_digit-hex_upper (b / 16) (omega arith),
        hex_digit-hex_upper (b % 16) (omega arith),
        e,
      )
      refl

-- A byte other than "%" and "+" stands for itself.
unescape_bytes-plain :
    (c : ℕ) (s : Text)
    → eqb c b'%' ≡ false
    → eqb c b'+' ≡ false
    → unescape_bytes (c ∷ s) ≡ prepend c (unescape_bytes s)
unfolding unescape_bytes plain_byte
unescape_bytes-plain c [] percent plus = rw (percent, plus) refl
unescape_bytes-plain c (h ∷ []) percent plus = rw (percent, plus) refl
unescape_bytes-plain c (h ∷ l ∷ s) percent plus = rw (percent, plus) refl

is_unreserved-plain : (b : ℕ) → is_unreserved b ≡ true → (eqb b b'%' ≡ false) × (eqb b b'+' ≡ false)
unfolding is_unreserved is_alnum is_alpha is_upper is_lower is_digit
is_unreserved-plain b h = (ground arith, ground arith)

-- The bytes of a text can be read back from its escape.
pub unescape_bytes-path_escape :
    (s : Text) → All (λ b. b < 256) s → unescape_bytes (path_escape s) ≡ some s
unfolding path_escape unescape_bytes
unescape_bytes-path_escape [] h = refl
unescape_bytes-path_escape (b ∷ s) (byte, h) =
    let rest = unescape_bytes-path_escape s h in
    elim (Bool-cases (is_unreserved b)) [
      | inl t ↦
          let (percent, plus) = is_unreserved-plain b t in
          rw (t, path_escape, unescape_bytes-plain b (path_escape s) percent plus, rest) refl
      | inr f ↦ rw (f, path_escape, unescape_bytes, escaped_byte-hex_upper b byte, rest) refl
    ]
