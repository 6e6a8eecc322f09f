-- ===== src/Policy/Groups.antt =====
-- rs/src/policy.rs: the entries of `container_config.group_add`.
use docker_socket_policy.Base.{
  Text, ℕ, Bool, false, not, Option, none, some, List, [], ◌∷◌, Result, ok, err, ◌>>=◌, ◌>>◌,
  ensure, lit, ◌==◌, is_lower, is_digit, eqb, ltb, leb, any, all, ◌||◌, ◌&&◌, is_empty, decimal,
  length, ◌^◌, if◌then◌else◌,
}
use docker_socket_policy.Message.{
  Message, group_entries_must_be_strings, invalid_group_entry, root_group_entry,
  duplicate_group_entry,
}

unfoldable pub collect_strings :
    {Y : Type 0} → (Y → Option Text) → List Y → Result Message (List Text)
collect_strings as_string [] = ok []
collect_strings as_string (v ∷ vs) =
    let rest = collect_strings as_string vs in
    elim (as_string v) [
      | some s ↦ rest >>= λ strings. ok (s ∷ strings)
      | none ↦ err group_entries_must_be_strings
    ]

-- `group_list`: only YAML strings are taken. `as_string` is serde_yaml's test for `Value::String`.
unfoldable pub group_list :
    {Y : Type 0} → (Y → Option Text) → Option (List Y) → Result Message (Option (List Text))
group_list as_string none = ok none
group_list as_string (some values) = do
  strings ← collect_strings as_string values
  ok (some strings)

-- `name.strip_suffix('$').unwrap_or(name)`
unfoldable pub strip_dollar : Text → Text
strip_dollar [] = []
strip_dollar (c ∷ []) = if eqb c b'$' then [] else c ∷ []
strip_dollar (c ∷ d ∷ s) = c ∷ strip_dollar (d ∷ s)

unfoldable pub is_group_byte : ℕ → Bool
is_group_byte b = is_lower b || is_digit b || eqb b b'_' || eqb b b'-'

unfoldable pub valid_group_body : Text → Bool
valid_group_body [] = false
valid_group_body (b ∷ rest) = (is_lower b || eqb b b'_') && all is_group_byte rest

unfoldable pub valid_group_name : Text → Bool
valid_group_name name = valid_group_body (strip_dollar name) && leb (length name) 32

-- The keys under which entries are compared: "gid:<number>" and "name:<name>".
pub data GroupKey : Type 0 where
  gid : ℕ → GroupKey
  name : Text → GroupKey

unfoldable pub same_key : GroupKey → GroupKey → Bool
same_key (gid a) (gid b) = eqb a b
same_key (name s) (name t) = s == t
same_key _ _ = false

-- `g.parse::<u32>()` of a non-empty text of digits.
unfoldable pub parse_u32 : Text → Option ℕ
parse_u32 g = if ltb (decimal g) (2 ^ 32) then some (decimal g) else none

unfoldable pub is_decimal : Text → Bool
is_decimal g = not (is_empty g) && all is_digit g

unfoldable pub group_key : Text → Text → Result Message GroupKey
group_key file g =
    if is_decimal g
    then elim (parse_u32 g) [
      | none ↦ err (invalid_group_entry file g)
      | some n ↦ if eqb n 0 then err (root_group_entry file g) else ok (gid n)
    ]
    else if valid_group_name g
    then (if g == lit "root" then err (root_group_entry file g) else ok (name g))
    else err (invalid_group_entry file g)

-- The loop of `check_group_add` over the entries, with the keys seen so far.
unfoldable pub check_groups_from : Text → List GroupKey → List Text → Result Message (Unit {0})
check_groups_from file seen [] = ok tt
check_groups_from file seen (g ∷ groups) = do
  key ← group_key file g
  ensure (not (any (same_key key) seen)) (duplicate_group_entry file g)
  check_groups_from file (key ∷ seen) groups

unfoldable pub check_group_add : Text → List Text → Result Message (Unit {0})
check_group_add file groups = check_groups_from file [] groups
