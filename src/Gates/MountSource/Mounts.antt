-- ===== src/Gates/MountSource/Mounts.antt =====
-- What the binds and the mounts of a HostConfig are, where MountSourceGate lets a body pass.
use docker_socket_policy.Base.{
  Text, true, Option, none, some, List, [], ◌∷◌, ◌≡◌, refl, ok, ◌⊎◌, inl, inr, lit, All, >>-eq-ok,
  >>=-eq-ok, ok_or-eq-ok, ensure-eq-ok, ok_or, Elem, is_some, ensure, Option-cases,
}
use docker_socket_policy.Base.Map.{Map, get}
use docker_socket_policy.Json.{
  Value, null, bool, number, string, array, object, Body, as_object, Items, to_list,
}
use docker_socket_policy.Policy.{Policy, Volume}
use docker_socket_policy.Gates.{find_volume}
use docker_socket_policy.Gates.KeyRules.{sorted_keys-Elem}
use docker_socket_policy.Gates.MountSource.{
  object_field, check_binds, check_mount, check_mount_list, check_mounts, check_host_mounts, check,
  check_volume_keys, check_volumes,
}
use docker_socket_policy.Gates.MountSource.MountRules.{IsAllowedMount, check_mount-IsAllowedMount}
use docker_socket_policy.Gates.MountSource.Rules.{
  Declares, find_volume-Declares, IsBindValue, check_bind_list-All,
}

-- A value that is an allowed mount.
abbrev pub IsMountValue : Policy → Value → Type 0
IsMountValue policy v =
    (mount : Map Value) × (as_object v ≡ some mount) × IsAllowedMount policy mount

check_mount_list-All :
    (policy : Policy) (vs : List Value)
    → check_mount_list policy vs ≡ ok tt
    → All (IsMountValue policy) vs
unfolding check_mount_list
check_mount_list-All policy [] h = tt
check_mount_list-All policy (v ∷ vs) h =
    let (mount, found, rest) = >>=-eq-ok (ok_or _ (as_object v)) _ h in
    let both = >>-eq-ok (check_mount mount policy) (check_mount_list policy vs) rest in
    (
      (mount, ok_or-eq-ok _ (as_object v) found, check_mount-IsAllowedMount policy mount both.0),
      check_mount_list-All policy vs both.1,
    )

-- Absent, null, or an array whose values all satisfy the predicate.
abbrev pub Entries : (Value → Type 0) → Option Value → Type 0
Entries P o =
    (o ≡ none)
    ⊎ ((o ≡ some null) ⊎ ((items : Items) × (o ≡ some (array items)) × All P (to_list items)))

check_binds-Entries :
    (policy : Policy) (o : Option Value)
    → check_binds o policy ≡ ok tt
    → Entries (IsBindValue policy) o
unfolding check_binds
check_binds-Entries policy none h = inl refl
check_binds-Entries policy (some null) h = inr (inl refl)
check_binds-Entries policy (some (array a)) h =
    inr (inr (a, refl, check_bind_list-All policy (to_list a) h))
check_binds-Entries policy (some (bool b)) h = absurd cc
check_binds-Entries policy (some (number n)) h = absurd cc
check_binds-Entries policy (some (string s)) h = absurd cc
check_binds-Entries policy (some (object f)) h = absurd cc

check_mounts-Entries :
    (policy : Policy) (o : Option Value)
    → check_mounts o policy ≡ ok tt
    → Entries (IsMountValue policy) o
unfolding check_mounts
check_mounts-Entries policy none h = inl refl
check_mounts-Entries policy (some null) h = inr (inl refl)
check_mounts-Entries policy (some (array a)) h =
    inr (inr (a, refl, check_mount_list-All policy (to_list a) h))
check_mounts-Entries policy (some (bool b)) h = absurd cc
check_mounts-Entries policy (some (number n)) h = absurd cc
check_mounts-Entries policy (some (string s)) h = absurd cc
check_mounts-Entries policy (some (object f)) h = absurd cc

-- When the gate lets a body with an object as its HostConfig pass, its Binds and Mounts are each absent,
-- null or an array; every bind names a host path that the policy declares and is read-only unless the
-- policy allows writes; every mount is a tmpfs without a source, or a bind mount of which the same holds,
-- with a private propagation, and with a zero value in every field that has no rule and is not free.
pub check-mounts :
    (policy : Policy) (body : Body) (hc : Map Value)
    → check policy body ≡ ok tt
    → object_field (lit "HostConfig") body ≡ some hc
    → Entries (IsBindValue policy) (get (lit "Binds") hc)
      × Entries (IsMountValue policy) (get (lit "Mounts") hc)
unfolding check check_host_mounts
check-mounts policy body hc h found =
    let outer = >>-eq-ok (check_host_mounts policy (object_field (lit "HostConfig") body)) _ h in
    let own : check_host_mounts policy (some hc) ≡ ok tt = rw found at outer.0 in
    let both = >>-eq-ok (check_binds (get (lit "Binds") hc) policy) _ own in
    (check_binds-Entries policy _ both.0, check_mounts-Entries policy _ both.1)

check_volume_keys-Elem :
    (policy : Policy) {host_path : Text} {ks : List Text}
    → check_volume_keys policy ks ≡ ok tt
    → Elem host_path ks
    → is_some (find_volume host_path policy) ≡ true
unfolding check_volume_keys
check_volume_keys-Elem policy {host_path} h Elem.here =
    ensure-eq-ok _ _ (>>-eq-ok (ensure (is_some (find_volume host_path policy)) _) _ h).0
check_volume_keys-Elem policy h (Elem.there {x} e) =
    check_volume_keys-Elem policy (>>-eq-ok (ensure (is_some (find_volume x policy)) _) _ h).1 e

-- Every key of Volumes is a host path that the policy declares.
pub check-volume :
    (policy : Policy) (body : Body) (volumes : Map Value) (host_path : Text) (v : Value)
    → check policy body ≡ ok tt
    → object_field (lit "Volumes") body ≡ some volumes
    → get host_path volumes ≡ some v
    → (volume : Volume) × Declares policy host_path volume
unfolding check check_volumes
check-volume policy body volumes host_path v h found g =
    let outer = >>-eq-ok (check_host_mounts policy (object_field (lit "HostConfig") body)) _ h in
    let own : check_volumes policy (some volumes) ≡ ok tt = rw found at outer.1 in
    let declared = check_volume_keys-Elem policy own (sorted_keys-Elem host_path volumes v g) in
    elim (Option-cases (find_volume host_path policy)) [
      | inl e ↦ let some_volume = rw e at declared in absurd cc
      | inr (volume, e) ↦ (volume, find_volume-Declares policy host_path volume e)
    ]
