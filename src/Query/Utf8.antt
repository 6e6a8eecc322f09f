-- ===== src/Query/Utf8.antt =====
-- The lossy reading of UTF-8, and the way of a text through its escape.
use docker_socket_policy.Base.{
  Text, ℕ, ◌≤◌, ◌<◌, true, some, [], ◌∷◌, ◌≡◌, refl, ap, ◌⊎◌, All, arith,
}
use docker_socket_policy.Query.{
  within, second_within, third_continues, fourth_continues, utf8_chunk, utf8_lossy_from, utf8_lossy,
  query_unescape, path_escape,
}
use docker_socket_policy.Query.Escape.{unescape_bytes-path_escape}

-- A byte of a range, and a continuation byte.
abbrev pub Between : ℕ → ℕ → ℕ → Type 0
Between lo hi b = (lo ≤ b) × (b ≤ hi)

abbrev pub Continues : ℕ → Type 0
Continues = Between 128 191

-- The first two bytes of a sequence of three and of four, by the table of well-formed UTF-8.
abbrev pub StartsThree : ℕ → ℕ → Type 0
StartsThree a b =
    ((a ≡ 224) × Between 160 191 b)
    ⊎ (((a ≡ 237) × Between 128 159 b) ⊎ ((Between 225 236 a ⊎ Between 238 239 a) × Continues b))

abbrev pub StartsFour : ℕ → ℕ → Type 0
StartsFour a b =
    ((a ≡ 240) × Between 144 191 b)
    ⊎ (((a ≡ 244) × Between 128 143 b) ⊎ (Between 241 243 a × Continues b))

-- The texts of Rust.
pub data IsUtf8 : Text → Type 0 where
  nothing : IsUtf8 []
  one : {a : ℕ} {s : Text} → a < 128 → IsUtf8 s → IsUtf8 (a ∷ s)
  two : {a b : ℕ} {s : Text} → Between 194 223 a → Continues b → IsUtf8 s → IsUtf8 (a ∷ b ∷ s)
  three : {a b c : ℕ} {s : Text} → StartsThree a b → Continues c → IsUtf8 s → IsUtf8 (a ∷ b ∷ c ∷ s)
  four :
      {a b c d : ℕ} {s : Text}
      → StartsFour a b
      → Continues c
      → Continues d
      → IsUtf8 s
      → IsUtf8 (a ∷ b ∷ c ∷ d ∷ s)

utf8_chunk-one : (a : ℕ) (s : Text) → a < 128 → utf8_chunk a s ≡ (0, true)
unfolding utf8_chunk
utf8_chunk-one a s h = ground arith

utf8_chunk-two :
    (a b : ℕ) (s : Text) → Between 194 223 a → Continues b → utf8_chunk a (b ∷ s) ≡ (1, true)
unfolding utf8_chunk within second_within
utf8_chunk-two a b s h k = ground arith

utf8_chunk-three :
    (a b c : ℕ) (s : Text) → StartsThree a b → Continues c → utf8_chunk a (b ∷ c ∷ s) ≡ (2, true)
unfolding utf8_chunk within second_within third_continues
utf8_chunk-three a b c s h k = ground arith

utf8_chunk-four :
    (a b c d : ℕ) (s : Text)
    → StartsFour a b
    → Continues c
    → Continues d
    → utf8_chunk a (b ∷ c ∷ d ∷ s) ≡ (3, true)
unfolding utf8_chunk within second_within third_continues fourth_continues
utf8_chunk-four a b c d s h k l = ground arith

utf8_lossy_from-IsUtf8 : {s : Text} → IsUtf8 s → utf8_lossy_from 0 true s ≡ s
unfolding utf8_lossy_from
utf8_lossy_from-IsUtf8 nothing = refl
utf8_lossy_from-IsUtf8 (one {a = a} {s = s} h u) =
    rw (utf8_lossy_from, utf8_chunk-one a s h, utf8_lossy_from-IsUtf8 u) refl
utf8_lossy_from-IsUtf8 (two {a = a} {b = b} {s = s} h k u) =
    rw (utf8_lossy_from, utf8_chunk-two a b s h k, utf8_lossy_from-IsUtf8 u) refl
utf8_lossy_from-IsUtf8 (three {a = a} {b = b} {c = c} {s = s} h k u) =
    rw (utf8_lossy_from, utf8_chunk-three a b c s h k, utf8_lossy_from-IsUtf8 u) refl
utf8_lossy_from-IsUtf8 (four {a = a} {b = b} {c = c} {d = d} {s = s} h k l u) =
    rw (utf8_lossy_from, utf8_chunk-four a b c d s h k l, utf8_lossy_from-IsUtf8 u) refl

IsUtf8-bytes : {s : Text} → IsUtf8 s → All (λ b. b < 256) s
IsUtf8-bytes nothing = tt
IsUtf8-bytes (one h u) = (omega arith, IsUtf8-bytes u)
IsUtf8-bytes (two h k u) = (omega arith, (omega arith, IsUtf8-bytes u))
IsUtf8-bytes (three h k u) = (ground arith, (ground arith, (omega arith, IsUtf8-bytes u)))
IsUtf8-bytes (four h k l u) =
    (ground arith, (ground arith, (omega arith, (omega arith, IsUtf8-bytes u))))

-- A UTF-8 text that is escaped as a path segment comes back whole when it is read as a query is.
pub query_unescape-path_escape : (s : Text) → IsUtf8 s → query_unescape (path_escape s) ≡ some s
unfolding query_unescape utf8_lossy
query_unescape-path_escape s u =
    rw (query_unescape, unescape_bytes-path_escape s (IsUtf8-bytes u))
      (ap some (utf8_lossy_from-IsUtf8 u))
