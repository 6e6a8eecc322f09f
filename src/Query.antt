-- ===== src/Query.antt =====
-- rs/src/proxy.rs: the query string, and rs/src/handler.rs: the escape of a path segment.
pub mod Escape
pub mod Utf8
use docker_socket_policy.Base.{
  Text, ℕ, zero, suc, ◌+◌, ◌-◌, ◌*◌, ◌/◌, ◌%◌, Bool, true, false, not, Option, none, some, List, [],
  ◌∷◌, Result, ok, ◌>>=◌, ok_or, ensure, ◌>>◌, lit, ◌==◌, ◌||◌, ◌&&◌, is_empty, if◌then◌else◌,
  split, split_once, contains, eqb, ltb, leb, is_alnum, filter, find, length, strip_prefix,
  unwrap_or,
}
use docker_socket_policy.Message.{
  Message, invalid_query_string, duplicate_name_parameter, invalid_container_name,
}
use docker_socket_policy.Policy.{valid_container_name}

abbrev pub Parameters : Type 0
Parameters = List (Text × Text)

unfoldable pub within : ℕ → ℕ → ℕ → Bool
within lo hi c = leb lo c && leb c hi

unfoldable pub second_within : ℕ → ℕ → Text → Bool
second_within lo hi [] = false
second_within lo hi (b ∷ _) = within lo hi b

unfoldable pub third_continues : Text → Bool
third_continues (b ∷ c ∷ _) = within 128 191 c
third_continues _ = false

unfoldable pub fourth_continues : Text → Bool
fourth_continues (b ∷ c ∷ d ∷ _) = within 128 191 d
fourth_continues _ = false

-- How many of the bytes behind `a` belong to its UTF-8 sequence, and whether the sequence is valid.
-- An invalid one ends before the first byte that could not continue it.
unfoldable pub utf8_chunk : ℕ → Text → ℕ × Bool
utf8_chunk a s =
    if ltb a 128
    then (0, true)
    else if within 194 223 a
    then (if second_within 128 191 s then (1, true) else (0, false))
    else if within 224 239 a
    then (if second_within (if eqb a 224 then 160 else 128) (if eqb a 237 then 159 else 191) s
        then (if third_continues s then (2, true) else (1, false))
        else (0, false))
    else if within 240 244 a
        && second_within (if eqb a 240 then 144 else 128) (if eqb a 244 then 143 else 191) s
    then (if third_continues s
        then (if fourth_continues s then (3, true) else (2, false))
        else (1, false))
    else (0, false)

-- The rest of a sequence of which `n` bytes are left, kept or dropped, and what follows it.
unfoldable pub utf8_lossy_from : ℕ → Bool → Text → Text
utf8_lossy_from n keep [] = []
utf8_lossy_from (suc n) keep (c ∷ s) =
    let rest = utf8_lossy_from n keep s in if keep then c ∷ rest else rest
utf8_lossy_from zero keep (c ∷ s) =
    let (n, valid) = utf8_chunk c s in
    let rest = utf8_lossy_from n valid s in if valid then c ∷ rest else 0xef ∷ 0xbf ∷ 0xbd ∷ rest

-- `String::from_utf8_lossy`
unfoldable pub utf8_lossy : Text → Text
utf8_lossy s = utf8_lossy_from 0 true s

-- `char::to_digit(16)`
unfoldable pub hex_digit : ℕ → Option ℕ
hex_digit c =
    if within b'0' b'9' c
    then some (c - b'0')
    else if within b'a' b'f' c
    then some (c - b'a' + 10)
    else if within b'A' b'F' c
    then some (c - b'A' + 10)
    else none

abbrev pub prepend : ℕ → Option Text → Option Text
prepend c none = none
prepend c (some s) = some (c ∷ s)

-- The byte of a `%` escape, from its two hex digits.
unfoldable pub escaped_byte : ℕ → ℕ → Option ℕ
escaped_byte h l = elim (hex_digit h) [
  | none ↦ none
  | some hi ↦ elim (hex_digit l) [ none ↦ none | some lo ↦ some (16 * hi + lo) ]
]

unfoldable pub plain_byte : ℕ → ℕ
plain_byte c = if eqb c b'+' then b' ' else c

-- The loop of `query_unescape`.
unfoldable pub unescape_bytes : Text → Option Text
unescape_bytes [] = some []
unescape_bytes (c ∷ []) = if eqb c b'%' then none else some (plain_byte c ∷ [])
unescape_bytes (c ∷ h ∷ []) =
    let rest = unescape_bytes (h ∷ []) in if eqb c b'%' then none else prepend (plain_byte c) rest
unescape_bytes (c ∷ h ∷ l ∷ s) =
    let after_escape = unescape_bytes s in
    let after_plain = unescape_bytes (h ∷ l ∷ s) in
    if eqb c b'%'
    then elim (escaped_byte h l) [ none ↦ none | some b ↦ prepend b after_escape ]
    else prepend (plain_byte c) after_plain

unfoldable pub query_unescape : Text → Option Text
query_unescape s = elim (unescape_bytes s) [ none ↦ none | some out ↦ some (utf8_lossy out) ]

unfoldable pub unescape_pair : Text → Text → Option (Text × Text)
unescape_pair k v = elim (query_unescape k) [
  | none ↦ none
  | some k' ↦ elim (query_unescape v) [ none ↦ none | some v' ↦ some (k', v') ]
]

-- The key and the value of one part, without an `=` the whole part and "".
unfoldable pub parse_part : Text → Option (Text × Text)
parse_part part = let (k, v) = unwrap_or (part, []) (split_once part b'=') in unescape_pair k v

unfoldable pub parse_parts : List Text → Option Parameters
parse_parts [] = some []
parse_parts (part ∷ parts) =
    let rest = parse_parts parts in
    if contains part b';' then none else if is_empty part then rest else elim (parse_part part) [
      | none ↦ none
      | some pair ↦ elim rest [ none ↦ none | some pairs ↦ some (pair ∷ pairs) ]
    ]

unfoldable pub parse_query : Text → Option Parameters
parse_query raw = parse_parts (split raw b'&')

-- How often a parameter stands in the query.
unfoldable pub occurrences : Text → Parameters → ℕ
occurrences key params = length (filter (λ (k, _). k == key) params)

-- The first value of a parameter.
unfoldable pub parameter : Text → Parameters → Option Text
parameter key params = elim (find (λ (k, _). k == key) params) [
  | none ↦ none
  | some (_, v) ↦ some v
]

-- `name.strip_prefix('/').unwrap_or(name)`
unfoldable pub strip_slash : Text → Text
strip_slash name = unwrap_or name (strip_prefix name (b'/' ∷ []))

unfoldable pub create_name : Text → Result Message Text
create_name query = do
  params ← ok_or invalid_query_string (parse_query query)
  ensure (not (ltb 1 (occurrences (lit "name") params))) duplicate_name_parameter
  let name = strip_slash (unwrap_or [] (parameter (lit "name") params))
  ensure (is_empty name || valid_container_name name) invalid_container_name
  ok name

-- The RFC 3986 unreserved characters.
unfoldable pub is_unreserved : ℕ → Bool
is_unreserved b = is_alnum b || eqb b b'-' || eqb b b'.' || eqb b b'_' || eqb b b'~'

-- An upper-case hex digit.
unfoldable pub hex_upper : ℕ → ℕ
hex_upper d = if ltb d 10 then b'0' + d else b'A' + (d - 10)

-- `path_escape` of handler.rs
unfoldable pub path_escape : Text → Text
path_escape [] = []
path_escape (b ∷ s) =
    let rest = path_escape s in
    if is_unreserved b then b ∷ rest else b'%' ∷ hex_upper (b / 16) ∷ hex_upper (b % 16) ∷ rest
