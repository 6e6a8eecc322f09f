-- ===== src/Gates/Zero.antt =====
-- The values that is_zero_value takes.
use docker_socket_policy.Base.{Bool, true, false, [], ◌∷◌, ◌≡◌, arith}
use docker_socket_policy.Json
use docker_socket_policy.Json.{
  Number, pos, neg, float, Value, null, bool, number, string, array, object, nil, cons, end,
  is_zero_number,
}
use docker_socket_policy.Gates.{is_zero_value}

-- The zero values of the API's types.
pub data IsZero : Value → Type 0 where
  null_value : IsZero null
  false_value : IsZero (bool false)
  zero_number : IsZero (number (pos 0))
  zero_float : (sign : Bool) → IsZero (number (float sign 0))
  empty_text : IsZero (string [])
  empty_list : IsZero (array nil)
  empty_object : IsZero (object end)

is_zero_number-IsZero : (n : Number) → is_zero_number n ≡ true → IsZero (number n)
unfolding is_zero_number
is_zero_number-IsZero (pos n) h = let e : n ≡ 0 = ground arith in rw e zero_number
is_zero_number-IsZero (neg n) h = absurd cc
is_zero_number-IsZero (float sign m) h = let e : m ≡ 0 = ground arith in rw e (zero_float sign)

pub is_zero_value-IsZero : (v : Value) → is_zero_value v ≡ true → IsZero v
unfolding is_zero_value
is_zero_value-IsZero null h = null_value
is_zero_value-IsZero (bool false) h = false_value
is_zero_value-IsZero (bool true) h = absurd cc
is_zero_value-IsZero (number n) h = is_zero_number-IsZero n h
is_zero_value-IsZero (string []) h = empty_text
is_zero_value-IsZero (string (c ∷ s)) h = absurd cc
is_zero_value-IsZero (array nil) h = empty_list
is_zero_value-IsZero (array (cons v vs)) h = absurd cc
is_zero_value-IsZero (object end) h = empty_object
is_zero_value-IsZero (object (Json.field k v fs)) h = absurd cc
