-- ===== src/Gates/KeyRules.antt =====
-- The loops over the sorted keys of an object look at every key.
use docker_socket_policy.Base.{
  Text, not, none, some, List, [], ◌∷◌, ◌≡◌, inl, inr, ◌==◌, ==_iff, ◌&&◌, arith, Bool-cases,
  Option-cases, Result, ok, ◌>>◌, >>-eq-ok, Elem, find-eq-none, sort, insert_sorted, text_ltb,
}
use docker_socket_policy.Base.Map.{Map, get, keys}
use docker_socket_policy.Json.{Value}
use docker_socket_policy.Message.{Message}
use docker_socket_policy.Policy.{Policy}
use docker_socket_policy.Gates.{
  fold_key, sorted_keys, read_as, check_keys_case, check_field_case, check_keys, check_values,
}

insert_sorted-head : (k : Text) (l : List Text) → Elem k (insert_sorted k l)
unfolding insert_sorted
insert_sorted-head k [] = Elem.here
insert_sorted-head k (j ∷ l) = elim (Bool-cases (text_ltb j k)) [
  | inl t ↦ rw t (Elem.there (insert_sorted-head k l))
  | inr f ↦ rw f Elem.here
]

insert_sorted-Elem : (k : Text) {x : Text} {l : List Text} → Elem x l → Elem x (insert_sorted k l)
unfolding insert_sorted
insert_sorted-Elem k {x} (Elem.here {xs = l}) = elim (Bool-cases (text_ltb x k)) [
  | inl t ↦ rw t Elem.here
  | inr f ↦ rw f (Elem.there Elem.here)
]
insert_sorted-Elem k (Elem.there {x = j} {xs = l} e) = elim (Bool-cases (text_ltb j k)) [
  | inl t ↦ rw t (Elem.there (insert_sorted-Elem k e))
  | inr f ↦ rw f (Elem.there (Elem.there e))
]

sort-Elem : {x : Text} {l : List Text} → Elem x l → Elem x (sort l)
unfolding sort
sort-Elem (Elem.here {xs = l}) = insert_sorted-head _ (sort l)
sort-Elem (Elem.there {x = j} e) = insert_sorted-Elem j (sort-Elem e)

pub keys-Elem {ℓ} : {V : Type ℓ} (k : Text) (m : Map V) (v : V) → get k m ≡ some v → Elem k (keys m)
unfolding get keys
keys-Elem k [] v h = cc
keys-Elem k ((j, w) ∷ m) v h = elim (Bool-cases (j == k)) [
  | inl t ↦ rw ((==_iff j k).0 t) Elem.here
  | inr f ↦ Elem.there (keys-Elem k m v (ground arith))
]

pub sorted_keys-Elem {ℓ} :
    {V : Type ℓ} (k : Text) (m : Map V) (v : V) → get k m ≡ some v → Elem k (sorted_keys m)
unfolding sorted_keys
sorted_keys-Elem k m v h = sort-Elem (keys-Elem k m v h)

check_keys-tail :
    (check : Text → Value → Result Message (Unit {0})) (m : Map Value) (j : Text) (ks : List Text)
    → check_keys check m (j ∷ ks) ≡ ok tt
    → check_keys check m ks ≡ ok tt
unfolding check_keys
check_keys-tail check m j ks h = elim (Option-cases (get j m)) [
  | inl e ↦ rw (e, check_keys) at h
  | inr (w, e) ↦
      let both : (check j w >> check_keys check m ks) ≡ ok tt = rw (e, check_keys) at h in
      (>>-eq-ok (check j w) _ both).1
]

check_keys-Elem :
    (check : Text → Value → Result Message (Unit {0})) (m : Map Value) {k : Text} {ks : List Text}
    (v : Value)
    → check_keys check m ks ≡ ok tt
    → Elem k ks
    → get k m ≡ some v
    → check k v ≡ ok tt
unfolding check_keys
check_keys-Elem check m {k} v h (Elem.here {xs}) g =
    let both : (check k v >> check_keys check m xs) ≡ ok tt = rw (g, check_keys) at h in
    (>>-eq-ok (check k v) _ both).0
check_keys-Elem check m v h (Elem.there {x = j} {xs} e) g =
    check_keys-Elem check m v (check_keys-tail check m j xs h) e g

-- A loop over the values of an object that succeeds has checked every value of it.
pub check_values-get :
    (check : Text → Value → Result Message (Unit {0})) (m : Map Value) (k : Text) (v : Value)
    → check_values check m ≡ ok tt
    → get k m ≡ some v
    → check k v ≡ ok tt
unfolding check_values
check_values-get check m k v h g = check_keys-Elem check m v h (sorted_keys-Elem k m v g) g

check_keys_case-Elem :
    (prefix service : Text) (fields : List Text) {k : Text} {ks : List Text}
    → check_keys_case prefix service fields ks ≡ ok tt
    → Elem k ks
    → read_as k fields ≡ none
unfolding check_keys_case
check_keys_case-Elem prefix service fields h Elem.here = ground arith
check_keys_case-Elem prefix service fields h (Elem.there {xs} e) =
    check_keys_case-Elem prefix service fields {ks = xs} (ground arith) e

-- Where the case check passes, a key of the object that the daemon would read as a field, because it
-- folds to the same text, is that field.
pub check_field_case_sound :
    (prefix : Text) (m : Map Value) (fields : List Text) (policy : Policy) (k field : Text)
    (v : Value)
    → check_field_case prefix m fields policy ≡ ok tt
    → get k m ≡ some v
    → Elem field fields
    → fold_key k ≡ fold_key field
    → k ≡ field
unfolding check_field_case read_as
check_field_case_sound prefix m fields policy k field v h g e same =
    let unread =
      check_keys_case-Elem prefix policy.service_name fields h (sorted_keys-Elem k m v g) in
    let unlike = find-eq-none (λ f. not (k == f) && fold_key k == fold_key f) unread e in
    ground (arith, ==_iff k field, ==_iff (fold_key k) (fold_key field))
