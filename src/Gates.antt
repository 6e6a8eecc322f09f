-- ===== src/Gates.antt =====
-- rs/src/middleware.rs: what the gates share: the case check of JSON keys, and zero values.
pub mod Registry
pub mod MountSource
pub mod HostConfig
pub mod EnvFile
pub mod Cmd
pub mod NetworkEndpoints
pub mod KeyRules
pub mod Passing
pub mod Zero
use docker_socket_policy.Base.{
  Text, ℕ, Bool, true, false, not, Option, none, some, List, [], ◌∷◌, Result, ok, err, ◌>>◌, ◌>>=◌,
  ensure, ◌==◌, ◌||◌, ◌&&◌, is_empty, if◌then◌else◌, eqb, to_lower, sort, find,
}
use docker_socket_policy.Base.Map.{Map, get, keys}
use docker_socket_policy.Json.{
  Value, null, bool, number, string, array, object, is_zero_number, to_list, entries,
}
use docker_socket_policy.Message.{Message, field_case_not_allowed}
use docker_socket_policy.Policy.{Policy, Volume}

-- `fold_key`: ASCII case, the Kelvin sign (bytes e2 84 aa) and the long s (bytes c5 bf).
unfoldable pub fold_key : Text → Text
fold_key [] = []
fold_key (c ∷ []) = to_lower c ∷ []
fold_key (c ∷ d ∷ []) =
    let plain = to_lower c ∷ fold_key (d ∷ []) in
    if eqb c 0xc5 && eqb d 0xbf then b's' ∷ [] else plain
fold_key (c ∷ d ∷ e ∷ s) =
    let kelvin = b'k' ∷ fold_key s in
    let long_s = b's' ∷ fold_key (e ∷ s) in
    let plain = to_lower c ∷ fold_key (d ∷ e ∷ s) in
    if eqb c 0xe2 && eqb d 0x84 && eqb e 0xaa
    then kelvin
    else if eqb c 0xc5 && eqb d 0xbf
    then long_s
    else plain

unfoldable pub sorted_keys {ℓ} : {V : Type ℓ} → Map V → List Text
sorted_keys m = sort (keys m)

-- The field that the daemon reads a key as, if it is spelled otherwise.
unfoldable pub read_as : Text → List Text → Option Text
read_as key fields = find (λ f. not (key == f) && fold_key key == fold_key f) fields

unfoldable pub check_keys_case :
    (prefix service : Text) → (fields ks : List Text) → Result Message (Unit {0})
check_keys_case prefix service fields [] = ok tt
check_keys_case prefix service fields (key ∷ ks) =
    let rest = check_keys_case prefix service fields ks in
    elim (read_as key fields) [
      | some f ↦ err (field_case_not_allowed prefix key service f)
      | none ↦ rest
    ]

unfoldable pub check_field_case :
    (prefix : Text) → Map Value → (fields : List Text) → Policy → Result Message (Unit {0})
check_field_case prefix m fields policy =
    check_keys_case prefix policy.service_name fields (sorted_keys m)

-- null, false, 0, "", [] and {}
unfoldable pub is_zero_value : Value → Bool
is_zero_value null = true
is_zero_value (bool b) = not b
is_zero_value (number n) = is_zero_number n
is_zero_value (string s) = is_empty s
is_zero_value (array a) = is_empty (to_list a)
is_zero_value (object o) = is_empty (entries o)

-- A loop over the sorted keys of a map that checks each value, and stops at the first error.
unfoldable pub check_keys :
    (Text → Value → Result Message (Unit {0})) → Map Value → List Text → Result Message (Unit {0})
check_keys check m [] = ok tt
check_keys check m (key ∷ ks) =
    let rest = check_keys check m ks in
    elim (get key m) [ none ↦ rest | some v ↦ check key v >> rest ]

unfoldable pub check_values :
    (Text → Value → Result Message (Unit {0})) → Map Value → Result Message (Unit {0})
check_values check m = check_keys check m (sorted_keys m)

unfoldable pub find_volume : Text → Policy → Option Volume
find_volume host_path policy = elim policy.volumes [
  | none ↦ none
  | some vs ↦ find (λ v. v.host_path == host_path) vs
]
