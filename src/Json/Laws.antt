-- ===== src/Json/Laws.antt =====
-- Lists and maps of values survive the passage through the JSON types.
use docker_socket_policy.Base.{◌≡◌, refl, ap, List, [], ◌∷◌, some}
use docker_socket_policy.Base.Map.{Map}
use docker_socket_policy.Json.{Value, to_list, from_list, entries, from_entries, as_object, obj}

pub to_list-from_list : (vs : List Value) → to_list (from_list vs) ≡ vs
to_list-from_list [] = refl
to_list-from_list (v ∷ vs) = ap (λ r. v ∷ r) (to_list-from_list vs)

pub entries-from_entries : (m : Map Value) → entries (from_entries m) ≡ m
entries-from_entries [] = refl
entries-from_entries ((k, v) ∷ m) = ap (λ r. (k, v) ∷ r) (entries-from_entries m)

pub as_object-obj : (m : Map Value) → as_object (obj m) ≡ some m
as_object-obj m = ap some (entries-from_entries m)
