-- ===== src/Listener/Group/Gids.antt =====
-- The GIDs that the socket can be given.
use docker_socket_policy.Base.{
  Text, ℕ, ◌-◌, ◌^◌, ◌<◌, true, false, Option, none, some, [], ◌∷◌, ◌≡◌, refl, subst, ◌⊎◌, inl, inr,
  ◌↔◌, Result, ok, err, Bool-cases, contains, decimal, arith,
}
use docker_socket_policy.Policy.Groups.{is_decimal, parse_u32}
use docker_socket_policy.Listener.Group.{
  GroupError, contains_nul, Warning, default_socket_group, gid_in_range, named_group, resolve_group,
  default_group, explicit_group, select_socket_group,
}

-- What a group may name: its number, or the entry of the database under its name.
abbrev pub Names : (getgrnam : Text → Result Text (Option ℕ)) → (group : Text) → (gid : ℕ) → Type 0
Names getgrnam group gid =
    ((is_decimal group ≡ true) × (decimal group ≡ gid) × (gid < 2 ^ 32 - 1))
    ⊎ ((is_decimal group ≡ false) × (contains group 0 ≡ false) × (getgrnam group ≡ ok (some gid)))

gid_in_range-eq-ok :
    (group : Text) {gid : ℕ}
    → gid_in_range group (parse_u32 group) ≡ ok gid
    → (decimal group ≡ gid) × (gid < 2 ^ 32 - 1)
unfolding gid_in_range parse_u32
gid_in_range-eq-ok group h = ground arith

gid_in_range-decimal :
    (group : Text)
    → decimal group < 2 ^ 32 - 1
    → gid_in_range group (parse_u32 group) ≡ ok (decimal group)
unfolding gid_in_range parse_u32
gid_in_range-decimal group h = ground arith

named_group-eq-ok :
    (group : Text) (r : Result Text (Option ℕ)) {gid : ℕ}
    → named_group group r ≡ ok gid
    → r ≡ ok (some gid)
unfolding named_group
named_group-eq-ok group (err e) h = cc
named_group-eq-ok group (ok none) h = cc
named_group-eq-ok group (ok (some gid)) h = cc

resolve_group-Names :
    (getgrnam : Text → Result Text (Option ℕ)) (group : Text) {gid : ℕ}
    → resolve_group getgrnam group ≡ ok gid
    → Names getgrnam group gid
unfolding resolve_group
resolve_group-Names getgrnam group {gid} h = elim (Bool-cases (is_decimal group)) [
  | inl t ↦ let (e, bound) = gid_in_range-eq-ok group (rw (t) at h) in inl (t, e, bound)
  | inr f ↦ elim (Bool-cases (contains group 0)) [
    | inl nul ↦ let refused : err (contains_nul group) ≡ ok gid = rw (f, nul) at h in cc
    | inr no_nul ↦ inr (f, no_nul, named_group-eq-ok group (getgrnam group) (rw (f, no_nul) at h))
  ]
]

resolve_group-eq-ok :
    (getgrnam : Text → Result Text (Option ℕ)) (group : Text) {gid : ℕ}
    → Names getgrnam group gid
    → resolve_group getgrnam group ≡ ok gid
unfolding resolve_group named_group
resolve_group-eq-ok getgrnam group (inl (t, e, h)) =
    rw (t, resolve_group, gid_in_range-decimal group (rw (← e) at h), e) refl
resolve_group-eq-ok getgrnam group (inr (f, no_nul, e)) = rw (resolve_group, f, no_nul, e) refl

-- A group resolves to a GID exactly if it is that number in decimal, below 2 ^ 32 - 1, or if it is not a
-- number, has no NUL byte, and the group database has the GID under that name.
pub resolve_group_iff :
    (getgrnam : Text → Result Text (Option ℕ)) (group : Text) (gid : ℕ)
    → (resolve_group getgrnam group ≡ ok gid) ↔ Names getgrnam group gid
resolve_group_iff getgrnam group gid =
    (resolve_group-Names getgrnam group, resolve_group-eq-ok getgrnam group)

resolve_group-below :
    (getgrnam : Text → Result Text (Option ℕ)) (group : Text) {gid : ℕ}
    → ((g : Text) (n : ℕ) → getgrnam g ≡ ok (some n) → n < 2 ^ 32)
    → resolve_group getgrnam group ≡ ok gid
    → gid < 2 ^ 32
resolve_group-below getgrnam group {gid} known h = elim (resolve_group-Names getgrnam group h) [
  | inl (_, _, below) ↦ omega arith
  | inr (_, _, found) ↦ known group gid found
]

explicit_group-eq-ok :
    (r : Result GroupError ℕ) {selected : ℕ × Option Warning}
    → explicit_group r ≡ ok selected
    → (r ≡ ok selected.0) × (selected.1 ≡ none)
unfolding explicit_group
explicit_group-eq-ok (ok gid) h = ground arith
explicit_group-eq-ok (err e) h = cc

-- What the flag asks for.
abbrev pub IsChoice :
    (getgrnam : Text → Result Text (Option ℕ))
    → (egid : ℕ) → (flag : Option Text) → (gid : ℕ) → Option Warning
    → Type 0
IsChoice getgrnam egid none gid none = Names getgrnam default_socket_group gid
IsChoice getgrnam egid none gid (some w) =
    (gid ≡ egid) × ((n : ℕ) → ¬ Names getgrnam default_socket_group n)
IsChoice getgrnam egid (some []) gid warning = (gid ≡ egid) × (warning ≡ none)
IsChoice getgrnam egid (some (c ∷ group)) gid warning =
    Names getgrnam (c ∷ group) gid × (warning ≡ none)

-- The default group, where its name resolves, and otherwise the process's own.
default_group-IsChoice :
    (getgrnam : Text → Result Text (Option ℕ)) (egid : ℕ) (r : Result GroupError ℕ)
    → resolve_group getgrnam default_socket_group ≡ r
    → IsChoice getgrnam egid none (default_group egid r).0 (default_group egid r).1
unfolding default_group
default_group-IsChoice getgrnam egid (ok gid) h =
    resolve_group-Names getgrnam default_socket_group h
default_group-IsChoice getgrnam egid (err e) h =
    (refl, λ n names. let resolved = resolve_group-eq-ok getgrnam default_socket_group names in cc)

default_group-below :
    (egid : ℕ) (r : Result GroupError ℕ)
    → egid < 2 ^ 32
    → ((gid : ℕ) → r ≡ ok gid → gid < 2 ^ 32)
    → (default_group egid r).0 < 2 ^ 32
unfolding default_group
default_group-below egid (ok gid) own h = h gid refl
default_group-below egid (err e) own h = own

-- Whatever group is selected has a GID of 32 bits, where the process's own and those of the group
-- database are of 32 bits. With an explicit group it is a GID that the group names, and without a
-- warning; with "" it is the process's own; and without the flag it is a GID of the default group, or
-- the process's own with a warning, if the default group names none.
pub select_socket_group-gid :
    (getgrnam : Text → Result Text (Option ℕ)) (egid : ℕ) (flag : Option Text) {gid : ℕ}
    {warning : Option Warning}
    → egid < 2 ^ 32
    → ((g : Text) (n : ℕ) → getgrnam g ≡ ok (some n) → n < 2 ^ 32)
    → select_socket_group flag (resolve_group getgrnam) egid ≡ ok (gid, warning)
    → (gid < 2 ^ 32) × IsChoice getgrnam egid flag gid warning
unfolding select_socket_group
select_socket_group-gid getgrnam egid none {gid} {warning} own known h =
    let looked_up = resolve_group getgrnam default_socket_group in
    let same : default_group egid looked_up ≡ (gid, warning) = ground arith in
    subst (λ (s : ℕ × Option Warning). (s.0 < 2 ^ 32) × IsChoice getgrnam egid none s.0 s.1) same
      (
        default_group-below egid looked_up own
            (λ n e. resolve_group-below getgrnam default_socket_group known e),
        default_group-IsChoice getgrnam egid looked_up refl,
      )
select_socket_group-gid getgrnam egid (some []) own known h =
    (ground arith, (ground arith, ground arith))
select_socket_group-gid getgrnam egid (some (c ∷ g)) own known h =
    let (e, silent) = explicit_group-eq-ok (resolve_group getgrnam (c ∷ g)) h in
    (resolve_group-below getgrnam (c ∷ g) known e, (resolve_group-Names getgrnam (c ∷ g) e, silent))
