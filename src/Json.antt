-- ===== src/Json.antt =====
-- serde_json values (`serde_json::Value`), as rs/src uses them. A `serde_json::Map` is a `BTreeMap`
-- (the crate's `preserve_order` feature is off). A request body, a `HashMap`, is kept as such a map
-- too: the program reads it by key, or sorts its keys first.
pub mod Laws
use docker_socket_policy.Base.{
  Text, ℕ, Bool, true, false, not, Option, none, some, List, [], ◌∷◌, eqb, is_empty, ◌||◌,
}
use docker_socket_policy.Base.Map
use docker_socket_policy.Base.Map.{Map}

-- A JSON number: u64, i64 below zero (`neg n` is -(n + 1)), or a finite f64 given by its sign bit and
-- its other 63 bits, which are 0 exactly for the two zeros.
pub data Number : Type 0 where
  pos : ℕ → Number
  neg : ℕ → Number
  float : (sign : Bool) (magnitude : ℕ) → Number

mutual
  pub data Value : Type 0 where
    null : Value
    bool : Bool → Value
    number : Number → Value
    string : Text → Value
    array : Items → Value
    object : Fields → Value

  pub data Items : Type 0 where
    nil : Items
    cons : Value → Items → Items

  pub data Fields : Type 0 where
    end : Fields
    field : Text → Value → Fields → Fields

abbrev pub to_list : Items → List Value
to_list nil = []
to_list (cons v vs) = v ∷ to_list vs

abbrev pub from_list : List Value → Items
from_list [] = nil
from_list (v ∷ vs) = cons v (from_list vs)

abbrev pub entries : Fields → Map Value
entries end = []
entries (field k v fs) = (k, v) ∷ entries fs

abbrev pub from_entries : Map Value → Fields
from_entries [] = end
from_entries ((k, v) ∷ m) = field k v (from_entries m)

abbrev pub obj : Map Value → Value
obj m = object (from_entries m)

abbrev pub as_str : Value → Option Text
as_str (string s) = some s
as_str v = none

abbrev pub as_bool : Value → Option Bool
as_bool (bool b) = some b
as_bool v = none

abbrev pub as_array : Value → Option (List Value)
as_array (array a) = some (to_list a)
as_array v = none

abbrev pub as_object : Value → Option (Map Value)
as_object (object o) = some (entries o)
as_object v = none

abbrev pub is_null : Value → Bool
is_null null = true
is_null v = false

-- `n.as_f64() == Some(0.0)`
unfoldable pub is_zero_number : Number → Bool
is_zero_number (pos n) = eqb n 0
is_zero_number (neg n) = false
is_zero_number (float sign magnitude) = eqb magnitude 0

-- `n.as_f64() >= 0.0`
unfoldable pub is_nonnegative : Number → Bool
is_nonnegative (pos n) = true
is_nonnegative (neg n) = false
is_nonnegative (float sign magnitude) = not sign || eqb magnitude 0

-- `v.as_f64().is_some_and(|n| n >= 0.0)`
unfoldable pub is_nonnegative_value : Value → Bool
is_nonnegative_value (number n) = is_nonnegative n
is_nonnegative_value v = false

-- The body of a request: a JSON object.
abbrev pub Body : Type 0
Body = Map Value
