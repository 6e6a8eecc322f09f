-- ===== src/Base/Map.antt =====
-- Maps with text keys: a `BTreeMap` as the list of its entries in key order.
use docker_socket_policy.Base.Texts.{Text, ◌==◌, text_ltb, ==_iff, ==_refl}
use docker_socket_policy.Base.Order.{text_ltb-asym, text_ltb-antisym, text_ltb-above}
use docker_socket_policy.Base.Tests.{if◌then◌else◌, Bool-cases}
use docker_socket_policy.Base.Lists.{All}
use mathlib.Core.Path.{◌≡◌, refl, ◌∙◌}
use mathlib.Core.Logic.{inl, inr}
use mathlib.Core.Bool.{false}
use mathlib.Core.Option.{Option, none, some}
use mathlib.Core.List.{List, [], ◌∷◌}
use native.Mathlib.Omega.{arith}

abbrev pub Map {ℓ} : Type ℓ → Type ℓ
Map V = List (Text × V)

module _ {ℓ} {V : Type ℓ} where
  unfoldable pub get : Text → Map V → Option V
  get k [] = none
  get k ((j, v) ∷ m) = let rest = get k m in if j == k then some v else rest

  unfoldable pub insert : Text → V → Map V → Map V
  insert k v [] = (k, v) ∷ []
  insert k v ((j, w) ∷ m) =
      let later = (j, w) ∷ insert k v m in
      if j == k then (k, v) ∷ m else if text_ltb k j then (k, v) ∷ (j, w) ∷ m else later

  unfoldable pub keys : Map V → List Text
  keys [] = []
  keys ((k, v) ∷ m) = k ∷ keys m

  unfoldable pub values : Map V → List V
  values [] = []
  values ((k, v) ∷ m) = v ∷ values m

  pub get-insert :
      (j k : Text) (v : V) (m : Map V) → get j (insert k v m) ≡ (if k == j then some v else get j m)
  unfolding get insert
  get-insert j k v [] = refl
  get-insert j k v ((i, w) ∷ m) =
      ground (arith, ==_iff k j, ==_iff i k, ==_iff i j, get-insert j k v m)

  pub get-insert_self : (k : Text) (v : V) (m : Map V) → get k (insert k v m) ≡ some v
  get-insert_self k v m = get-insert k k v m ∙ rw (==_refl k)

  pub get-insert_ne :
      (j k : Text) (v : V) (m : Map V) → (k == j) ≡ false → get j (insert k v m) ≡ get j m
  get-insert_ne j k v m h = get-insert j k v m ∙ rw h

  -- A second write of the same value under the same key changes nothing.
  pub insert_idempotent : (k : Text) (v : V) (m : Map V) → insert k v (insert k v m) ≡ insert k v m
  unfolding insert
  insert_idempotent k v [] = rw (==_refl k)
  insert_idempotent k v ((i, w) ∷ m) =
      ground (arith, ==_iff i k, ==_refl k, insert_idempotent k v m)

  -- What holds of an entry and of all entries holds after the entry is written.
  pub All-insert {κ} :
      (P : Text × V → Type κ) (k : Text) (v : V) (m : Map V)
      → P (k, v)
      → All P m
      → All P (insert k v m)
  unfolding insert
  All-insert P k v [] h hs = (h, tt)
  All-insert P k v ((j, w) ∷ m) h (hj, hs) = elim (Bool-cases (j == k)) [
    | inl same ↦ rw same (h, hs)
    | inr differ ↦ elim (Bool-cases (text_ltb k j)) [
      | inl before ↦ rw (differ, before) (h, (hj, hs))
      | inr after ↦ rw (differ, after) (hj, All-insert P k v m h hs)
    ]
  ]

  -- Writes under different keys commute.
  pub insert_comm :
      (j k : Text) (u v : V) (m : Map V)
      → (j == k) ≡ false
      → insert j u (insert k v m) ≡ insert k v (insert j u m)
  unfolding insert
  insert_comm j k u v [] h =
      ground
        (arith, ==_iff j k, ==_iff k j, text_ltb-asym j k, text_ltb-asym k j, text_ltb-antisym j k)
  insert_comm j k u v ((i, w) ∷ m) h = ground (
    arith,
    ==_iff j k,
    ==_iff i j,
    ==_iff i k,
    ==_iff k j,
    ==_iff j i,
    ==_iff k i,
    text_ltb-asym j k,
    text_ltb-asym k j,
    text_ltb-antisym j k,
    text_ltb-above i j k,
    text_ltb-above i k j,
    text_ltb-asym j i,
    text_ltb-asym k i,
    text_ltb-antisym j i,
    text_ltb-antisym k i,
    insert_comm j k u v m h,
  )
