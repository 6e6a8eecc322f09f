-- ===== src/Gates/Passing.antt =====
-- When the loops over the keys of an object pass.
use docker_socket_policy.Base.{
  Text, none, some, List, [], ◌∷◌, ◌≡◌, refl, inl, inr, ◌==◌, ==_iff, arith, Bool-cases,
  Option-cases, Result, ok, Elem, All, All-elem, sort, insert_sorted, text_ltb,
}
use docker_socket_policy.Base.Map.{Map, get, keys}
use docker_socket_policy.Json.{Value}
use docker_socket_policy.Message.{Message}
use docker_socket_policy.Policy.{Policy}
use docker_socket_policy.Gates.{
  sorted_keys, read_as, check_keys_case, check_field_case, check_keys, check_values,
}

-- An entry whose key is no other spelling of a field.
abbrev pub IsSpelled : List Text → Text × Value → Type 0
IsSpelled fields (k, v) = read_as k fields ≡ none

-- An entry that passes a check.
abbrev pub IsChecked : (Text → Value → Result Message (Unit {0})) → Text × Value → Type 0
IsChecked check (k, v) = check k v ≡ ok tt

get-Elem : (k : Text) (m : Map Value) (v : Value) → get k m ≡ some v → Elem (k, v) m
unfolding get
get-Elem k [] v h = cc
get-Elem k ((j, w) ∷ m) v h = elim (Bool-cases (j == k)) [
  | inl t ↦
      let same : j ≡ k = (==_iff j k).0 t in
      let value : w ≡ v = ground arith in rw (same, value) Elem.here
  | inr f ↦ Elem.there (get-Elem k m v (ground arith))
]

check_keys-passes :
    (check : Text → Value → Result Message (Unit {0})) (m : Map Value) (ks : List Text)
    → All (IsChecked check) m
    → check_keys check m ks ≡ ok tt
unfolding check_keys
check_keys-passes check m [] all = refl
check_keys-passes check m (k ∷ ks) all = elim (Option-cases (get k m)) [
  | inl e ↦ rw (e, check_keys) (check_keys-passes check m ks all)
  | inr (v, e) ↦
      let own : check k v ≡ ok tt = All-elem (IsChecked check) all (get-Elem k m v e) in
      rw (e, own, check_keys) (check_keys-passes check m ks all)
]

pub check_values-passes :
    (check : Text → Value → Result Message (Unit {0})) (m : Map Value)
    → All (IsChecked check) m
    → check_values check m ≡ ok tt
unfolding check_values
check_values-passes check m all = check_keys-passes check m (sorted_keys m) all

check_keys_case-passes :
    (prefix service : Text) (fields ks : List Text)
    → All (λ k. read_as k fields ≡ none) ks
    → check_keys_case prefix service fields ks ≡ ok tt
unfolding check_keys_case
check_keys_case-passes prefix service fields [] all = refl
check_keys_case-passes prefix service fields (k ∷ ks) all =
    rw (all.0, check_keys_case) (check_keys_case-passes prefix service fields ks all.1)

module _ (P : Text → Type 0) where
  All-insert_sorted : (k : Text) (l : List Text) → P k → All P l → All P (insert_sorted k l)
  unfolding insert_sorted
  All-insert_sorted k [] h hs = (h, tt)
  All-insert_sorted k (j ∷ l) h hs = elim (Bool-cases (text_ltb j k)) [
    | inl t ↦ rw t (hs.0, All-insert_sorted k l h hs.1)
    | inr f ↦ rw f (h, hs)
  ]

  All-sort : (l : List Text) → All P l → All P (sort l)
  unfolding sort
  All-sort [] hs = tt
  All-sort (k ∷ l) hs = All-insert_sorted k (sort l) hs.0 (All-sort l hs.1)

All-keys : (P : Text → Type 0) (m : Map Value) → All (λ p. P p.0) m → All P (keys m)
unfolding keys
All-keys P [] all = tt
All-keys P ((k, v) ∷ m) all = (all.0, All-keys P m all.1)

pub check_field_case-passes :
    (prefix : Text) (m : Map Value) (fields : List Text) (policy : Policy)
    → All (IsSpelled fields) m
    → check_field_case prefix m fields policy ≡ ok tt
unfolding check_field_case sorted_keys
check_field_case-passes prefix m fields policy all =
    check_keys_case-passes prefix policy.service_name fields _ (
      All-sort (λ k. read_as k fields ≡ none) (keys m)
        (All-keys (λ k. read_as k fields ≡ none) m all))
