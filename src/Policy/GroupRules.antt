-- ===== src/Policy/GroupRules.antt =====
-- What `check_group_add` establishes of the groups of a policy.
use docker_socket_policy.Base.{
  Text, ◌<◌, ◌^◌, true, false, List, [], ◌∷◌, ◌≡◌, sym, ◌≢◌, Elem, any-Elem, ◌⊎◌, inl, inr, ==_iff,
  lit, ok, >>=-eq-ok, >>-eq-ok, ensure-not-eq-ok, any, arith, All, decimal,
}
use docker_socket_policy.Policy.Groups.{
  GroupKey, gid, name, same_key, parse_u32, is_decimal, valid_group_name, group_key,
  check_groups_from, check_group_add,
}

-- An entry that may be forced: a decimal GID above 0 that fits in 32 bits, or a group name but root.
abbrev pub IsGroup : Text → Type 0
IsGroup g =
    ((is_decimal g ≡ true) × (0 < decimal g) × (decimal g < 2 ^ 32))
    ⊎ ((is_decimal g ≡ false) × (valid_group_name g ≡ true) × (g ≢ lit "root"))

-- Two entries name one group: the same text, or two spellings of one GID.
abbrev pub SameGroup : Text → Text → Type 0
SameGroup g h = (g ≡ h) ⊎ ((is_decimal g ≡ true) × (is_decimal h ≡ true) × (decimal g ≡ decimal h))

abbrev pub Distinct : List Text → Type 0
Distinct [] = Unit
Distinct (g ∷ gs) = All (λ h. ¬ SameGroup g h) gs × Distinct gs

-- What a group's key says of it.
abbrev KeyOf : Text → GroupKey → Type 0
KeyOf g (gid n) = (is_decimal g ≡ true) × (n ≡ decimal g) × (0 < n) × (n < 2 ^ 32)
KeyOf g (name s) = (is_decimal g ≡ false) × (s ≡ g) × (valid_group_name g ≡ true) × (g ≢ lit "root")

group_key-KeyOf : (file g : Text) (k : GroupKey) → group_key file g ≡ ok k → KeyOf g k
unfolding group_key parse_u32
group_key-KeyOf file g (gid n) h = ground arith
group_key-KeyOf file g (name s) h = ground (arith, ==_iff g (lit "root"))

IsGroup-of_KeyOf : (g : Text) (k : GroupKey) → KeyOf g k → IsGroup g
IsGroup-of_KeyOf g (gid n) h = inl (ground arith)
IsGroup-of_KeyOf g (name s) h = inr (ground arith)

-- Entries that name one group have keys that compare as equal.
same_key-of_SameGroup :
    (g h : Text) (j k : GroupKey) → KeyOf g j → KeyOf h k → SameGroup g h → same_key j k ≡ true
unfolding same_key
same_key-of_SameGroup g h (gid m) (gid n) kg kh s = ground arith
same_key-of_SameGroup g h (name s) (name t) kg kh e = ground (arith, ==_iff s t)
same_key-of_SameGroup g h (gid m) (name t) kg kh e = ground arith
same_key-of_SameGroup g h (name s) (gid n) kg kh e = ground arith

SameGroup-sym : (g h : Text) → SameGroup g h → SameGroup h g
SameGroup-sym g h (inl e) = inl (sym e)
SameGroup-sym g h (inr (dg, dh, e)) = inr (dh, dg, sym e)

-- The groups are allowed, distinct, and other than those whose keys were seen before.
record Accepted (seen : List GroupKey) (groups : List Text) : Type 0 where
  allowed : All IsGroup groups
  distinct : Distinct groups
  fresh : (k : GroupKey) (g : Text) → Elem k seen → KeyOf g k → All (λ h. ¬ SameGroup g h) groups

unseen :
    (seen : List GroupKey) (g h : Text) (j k : GroupKey)
    → any (same_key k) seen ≡ false
    → Elem j seen
    → KeyOf g j
    → KeyOf h k
    → ¬ SameGroup g h
unseen seen g h j k fresh e kg kh s =
    let found =
      any-Elem (same_key k) e (same_key-of_SameGroup h g k j kh kg (SameGroup-sym g h s)) in
    cc

check_groups_from-Accepted :
    (file : Text) (seen : List GroupKey) (groups : List Text)
    → check_groups_from file seen groups ≡ ok tt
    → Accepted seen groups
unfolding check_groups_from
check_groups_from-Accepted file seen [] h = record {
  allowed = tt;
  distinct = tt;
  fresh = λ k g e p. tt;
}
check_groups_from-Accepted file seen (g ∷ gs) h =
    let (key, e, h1) = >>=-eq-ok (group_key file g) _ h in
    let known = group_key-KeyOf file g key e in
    let (new_key, h2) = >>-eq-ok _ _ h1 in
    let rest = check_groups_from-Accepted file (key ∷ seen) gs h2 in
    record {
      allowed = (IsGroup-of_KeyOf g key known, rest.allowed);
      distinct = (rest.fresh key g Elem.here known, rest.distinct);
      fresh = λ k g' e' known'. (
        unseen seen g' g k key (ensure-not-eq-ok _ _ new_key) e' known' known,
        rest.fresh k g' (Elem.there e') known',
      );
    }

-- Groups that pass the check are each a GID from 1 to 2^32 - 1 or a group name other than root, and no
-- two of them name one group by the same text or the same GID.
pub check_group_add_sound :
    (file : Text) (groups : List Text)
    → check_group_add file groups ≡ ok tt
    → All IsGroup groups × Distinct groups
unfolding check_group_add
check_group_add_sound file groups h =
    let accepted = check_groups_from-Accepted file [] groups h in
    (accepted.allowed, accepted.distinct)
