-- ===== src/Gates/MountSource/Rules.antt =====
-- What MountSourceGate lets a container mount.
use docker_socket_policy.Base.{
  Text, Bool, true, false, not, none, some, List, [], ◌∷◌, ◌≡◌, refl, sym, ok, ◌⊎◌, inl, inr, arith,
  lit, any-eq-true, any-Elem, Elem, All, ◌==◌, ◌||◌, ◌&&◌, ==_iff, >>-eq-ok, >>=-eq-ok, ok_or-eq-ok,
  ensure, ensure-eq-ok, Option-cases, find, find-eq-some, split, ok_or, ==_refl,
}
use docker_socket_policy.Json.{Value, null, bool, number, string, array, object, as_str}
use docker_socket_policy.Policy.{Policy, Volume}
use docker_socket_policy.Gates.{find_volume}
use docker_socket_policy.Gates.MountSource.{
  contains_entry, check_bind, check_bind_split, check_bind_parts, check_options, bind_options,
  bind_modes, check_bind_list,
}

pub contains_entry-Elem : (l : List Text) (s : Text) → contains_entry l s ≡ true → Elem s l
unfolding contains_entry
contains_entry-Elem l s h =
    let (t, e, q) = any-eq-true (λ t. t == s) l h in rw (sym ((==_iff t s).0 q)) e

pub Elem-contains_entry : (l : List Text) (s : Text) → Elem s l → contains_entry l s ≡ true
unfolding contains_entry
Elem-contains_entry l s e = any-Elem (λ t. t == s) e (==_refl s)

-- The policy declares the host path as this volume.
pub record Declares (policy : Policy) (host_path : Text) (volume : Volume) : Type 0 where
  pub volumes : List Volume
  pub declared : policy.volumes ≡ some volumes
  pub listed : Elem volume volumes
  pub path : volume.host_path ≡ host_path

pub find_volume-Declares :
    (policy : Policy) (host_path : Text) (volume : Volume)
    → find_volume host_path policy ≡ some volume
    → Declares policy host_path volume
unfolding find_volume
find_volume-Declares policy host_path volume h = elim (Option-cases policy.volumes) [
  | inl e ↦ let found : none ≡ some volume = rw (e, find_volume) at h in absurd cc
  | inr (vs, e) ↦
      let found : find (λ v. v.host_path == host_path) vs ≡ some volume =
        rw (e, find_volume) at h in
      let (listed, same) = find-eq-some (λ v. v.host_path == host_path) vs found in
      record {
        volumes = vs;
        declared = e;
        listed = listed;
        path = (==_iff volume.host_path host_path).0 same;
      }
]

-- How the parts of a bind name a host path and options.
pub data Parts : List Text → (host_path : Text) → (options : List Text) → Type 0 where
  bare : {h : Text} → Parts (h ∷ []) h []
  at_target : {h t : Text} → Parts (h ∷ t ∷ []) h []
  with_options : {h t o : Text} → Parts (h ∷ t ∷ o ∷ []) h (bind_options o)

-- A bind of a host path that the policy declares, read-only unless the policy says otherwise.
pub record IsAllowedBind (policy : Policy) (bind : Text) : Type 0 where
  pub host_path : Text
  pub options : List Text
  pub volume : Volume
  pub parts : Parts (split bind b':') host_path options
  pub declares : Declares policy host_path volume
  pub known : All (λ o. Elem o bind_modes) options
  pub protected : (volume.read_write ≡ true) ⊎ (Elem (lit "ro") options × ¬ Elem (lit "rw") options)

check_options-All :
    (host_path service : Text) (options : List Text)
    → check_options host_path service options ≡ ok tt
    → All (λ o. Elem o bind_modes) options
unfolding check_options
check_options-All host_path service [] h = tt
check_options-All host_path service (o ∷ options) h =
    let both =
      >>-eq-ok (ensure (contains_entry bind_modes o) _) (check_options host_path service options)
        h in
    (
      contains_entry-Elem bind_modes o (ensure-eq-ok _ _ both.0),
      check_options-All host_path service options both.1,
    )

protected_cases :
    (write : Bool) (options : List Text)
    → (write || contains_entry options (lit "ro") && not (contains_entry options (lit "rw"))) ≡ true
    → (write ≡ true) ⊎ (Elem (lit "ro") options × ¬ Elem (lit "rw") options)
protected_cases true options h = inl refl
protected_cases false options h = inr (
  contains_entry-Elem options (lit "ro") (ground arith),
  λ e. ground (arith, Elem-contains_entry options (lit "rw") e),
)

check_bind_parts-IsAllowedBind :
    (policy : Policy) (bind host_path : Text) (options : List Text)
    → Parts (split bind b':') host_path options
    → check_bind_parts policy host_path options ≡ ok tt
    → IsAllowedBind policy bind
unfolding check_bind_parts
check_bind_parts-IsAllowedBind policy bind host_path options parts h =
    let (volume, found, rest) = >>=-eq-ok (ok_or _ (find_volume host_path policy)) _ h in
    let both = >>-eq-ok (check_options host_path policy.service_name options) _ rest in
    record {
      host_path = host_path;
      options = options;
      volume = volume;
      parts = parts;
      declares = find_volume-Declares policy host_path volume (ok_or-eq-ok _ _ found);
      known = check_options-All host_path policy.service_name options both.0;
      protected = protected_cases volume.read_write options (ensure-eq-ok _ _ both.1);
    }

check_bind_split-IsAllowedBind :
    (policy : Policy) (bind : Text) (parts : List Text)
    → split bind b':' ≡ parts
    → check_bind_split policy bind parts ≡ ok tt
    → IsAllowedBind policy bind
unfolding check_bind_split
check_bind_split-IsAllowedBind policy bind [] e h = absurd cc
check_bind_split-IsAllowedBind policy bind (p ∷ []) e h =
    check_bind_parts-IsAllowedBind policy bind p [] (rw e Parts.bare) h
check_bind_split-IsAllowedBind policy bind (p ∷ t ∷ []) e h =
    check_bind_parts-IsAllowedBind policy bind p [] (rw e Parts.at_target) h
check_bind_split-IsAllowedBind policy bind (p ∷ t ∷ o ∷ []) e h =
    check_bind_parts-IsAllowedBind policy bind p (bind_options o) (rw e Parts.with_options) h
check_bind_split-IsAllowedBind policy bind (p ∷ t ∷ o ∷ x ∷ more) e h = absurd cc

check_bind-IsAllowedBind :
    (policy : Policy) (bind : Text) → check_bind policy bind ≡ ok tt → IsAllowedBind policy bind
unfolding check_bind
check_bind-IsAllowedBind policy [] h = absurd cc
check_bind-IsAllowedBind policy (c ∷ bind) h =
    check_bind_split-IsAllowedBind policy (c ∷ bind) (split (c ∷ bind) b':') refl h

-- A value that is an allowed bind.
abbrev pub IsBindValue : Policy → Value → Type 0
IsBindValue policy v = (bind : Text) × (v ≡ string bind) × IsAllowedBind policy bind

pub as_str-eq-some : (v : Value) {s : Text} → as_str v ≡ some s → v ≡ string s
as_str-eq-some (string s) h = cc
as_str-eq-some null h = absurd cc
as_str-eq-some (bool b) h = absurd cc
as_str-eq-some (number n) h = absurd cc
as_str-eq-some (array a) h = absurd cc
as_str-eq-some (object o) h = absurd cc

pub check_bind_list-All :
    (policy : Policy) (vs : List Value)
    → check_bind_list policy vs ≡ ok tt
    → All (IsBindValue policy) vs
unfolding check_bind_list
check_bind_list-All policy [] h = tt
check_bind_list-All policy (v ∷ vs) h =
    let (bind, found, rest) = >>=-eq-ok (ok_or _ (as_str v)) _ h in
    let both = >>-eq-ok (check_bind policy bind) (check_bind_list policy vs) rest in
    (
      (
        bind,
        as_str-eq-some v (ok_or-eq-ok _ (as_str v) found),
        check_bind-IsAllowedBind policy bind both.0,
      ),
      check_bind_list-All policy vs both.1,
    )
