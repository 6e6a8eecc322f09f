-- ===== src/Listener/Group.antt =====
-- rs/src/main.rs: select_socket_group and resolve_group. The group database is the parameter
-- `getgrnam`: an error of the lookup, no such group, or its GID.
pub mod Gids
use docker_socket_policy.Base.{
  Text, ℕ, ◌-◌, ◌^◌, Bool, not, ◌&&◌, Option, none, some, [], ◌∷◌, Result, ok, err, lit, is_empty,
  if◌then◌else◌, contains, leb,
}
use docker_socket_policy.Policy.Groups.{is_decimal, parse_u32}

pub data GroupError : Type 0 where
  gid_out_of_range contains_nul no_such_group : (group : Text) → GroupError
  lookup_failed : (group reason : Text) → GroupError

pub data Warning : Type 0 where
  default_group_not_found : (egid : ℕ) → Warning

-- `u32::MAX - 1`
abbrev pub max_socket_gid : ℕ
max_socket_gid = 2 ^ 32 - 2

abbrev pub default_socket_group : Text
default_socket_group = lit "docker-socket-policy"

-- A parsed number as a GID; `u32::MAX` is the sentinel of chown for "no change".
unfoldable pub gid_in_range : Text → Option ℕ → Result GroupError ℕ
gid_in_range group none = err (gid_out_of_range group)
gid_in_range group (some gid) =
    if leb gid max_socket_gid then ok gid else err (gid_out_of_range group)

unfoldable pub named_group : Text → Result Text (Option ℕ) → Result GroupError ℕ
named_group group (err reason) = err (lookup_failed group reason)
named_group group (ok none) = err (no_such_group group)
named_group group (ok (some gid)) = ok gid

unfoldable pub resolve_group :
    (getgrnam : Text → Result Text (Option ℕ)) → Text → Result GroupError ℕ
resolve_group getgrnam group =
    if is_decimal group
    then gid_in_range group (parse_u32 group)
    else if contains group 0
    then err (contains_nul group)
    else named_group group (getgrnam group)

-- The group of an answer, or the process's own with a warning.
unfoldable pub default_group : (egid : ℕ) → Result GroupError ℕ → ℕ × Option Warning
default_group egid (ok gid) = (gid, none)
default_group egid (err e) = (egid, some (default_group_not_found egid))

unfoldable pub explicit_group : Result GroupError ℕ → Result GroupError (ℕ × Option Warning)
explicit_group (ok gid) = ok (gid, none)
explicit_group (err e) = err e

unfoldable pub select_socket_group :
    (flag : Option Text)
    → (lookup : Text → Result GroupError ℕ) → (egid : ℕ) → Result GroupError (ℕ × Option Warning)
select_socket_group none lookup egid = ok (default_group egid (lookup default_socket_group))
select_socket_group (some []) lookup egid = ok (egid, none)
select_socket_group (some (c ∷ group)) lookup egid = explicit_group (lookup (c ∷ group))
