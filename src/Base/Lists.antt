-- ===== src/Base/Lists.antt =====
-- Lists under Boolean tests, measured by native numbers, and the predicates `Elem` and `All`.
use Prim.Native.Nat.{ℕ, zero, suc}
use mathlib.Core.Path.{◌≡◌, refl}
use mathlib.Core.Logic.{◌≢◌, inl, inr}
use mathlib.Core.Bool.{Bool, true, false, ◌&&◌, ◌||◌}
use mathlib.Core.Option.{Option, none, some}
use mathlib.Core.List.{List, [], ◌∷◌}
use native.Mathlib.Omega.{arith}
use docker_socket_policy.Base.Tests.{if◌then◌else◌, Bool-cases}

module _ {ℓ} {A : Type ℓ} where
  abbrev pub length : List A → ℕ
  length [] = 0
  length (x ∷ xs) = suc (length xs)

  abbrev pub is_empty : List A → Bool
  is_empty [] = true
  is_empty (x ∷ xs) = false

  abbrev pub get_elem? : List A → ℕ → Option A
  get_elem? [] i = none
  get_elem? (x ∷ xs) zero = some x
  get_elem? (x ∷ xs) (suc i) = get_elem? xs i

  abbrev pub take : ℕ → List A → List A
  take zero xs = []
  take (suc n) [] = []
  take (suc n) (x ∷ xs) = x ∷ take n xs

  abbrev pub drop : ℕ → List A → List A
  drop zero xs = xs
  drop (suc n) [] = []
  drop (suc n) (x ∷ xs) = drop n xs

  abbrev pub all : (A → Bool) → List A → Bool
  all p [] = true
  all p (x ∷ xs) = p x && all p xs

  abbrev pub any : (A → Bool) → List A → Bool
  any p [] = false
  any p (x ∷ xs) = p x || any p xs

  -- The first element that passes the test.
  abbrev pub find : (A → Bool) → List A → Option A
  find p [] = none
  find p (x ∷ xs) = if p x then some x else find p xs

  -- The elements that pass the test, in order.
  abbrev pub filter : (A → Bool) → List A → List A
  filter p [] = []
  filter p (x ∷ xs) = let rest = filter p xs in if p x then x ∷ rest else rest

  -- The length of the longest prefix whose elements pass the test.
  abbrev pub take_while_count : (A → Bool) → List A → ℕ
  take_while_count p [] = 0
  take_while_count p (x ∷ xs) = let n = suc (take_while_count p xs) in if p x then n else 0

  -- The element stands in the list at some place.
  pub data Elem (a : A) : List A → Type ℓ where
    here : {xs : List A} → Elem a (a ∷ xs)
    there : {x : A} {xs : List A} → Elem a xs → Elem a (x ∷ xs)

module _ {ℓ κ} {A : Type ℓ} where
  abbrev pub All : (A → Type κ) → List A → Type κ
  All P [] = Unit
  All P (x ∷ xs) = P x × All P xs

  pub All-elem : (P : A → Type κ) {x : A} {xs : List A} → All P xs → Elem x xs → P x
  All-elem P h here = h.0
  All-elem P h (there e) = All-elem P h.1 e

module _ {ℓ} {A : Type ℓ} where
  pub all-Elem : (p : A → Bool) {x : A} {xs : List A} → all p xs ≡ true → Elem x xs → p x ≡ true
  all-Elem p h here = ground arith
  all-Elem p h (there {xs} e) = all-Elem p {xs = xs} (ground arith) e

  pub all-of_Elem :
      (p : A → Bool) (xs : List A) → ((x : A) → Elem x xs → p x ≡ true) → all p xs ≡ true
  all-of_Elem p [] h = refl
  all-of_Elem p (x ∷ xs) h = ground (arith, h x here, all-of_Elem p xs (λ y e. h y (there e)))

  pub any-Elem : (p : A → Bool) {x : A} {xs : List A} → Elem x xs → p x ≡ true → any p xs ≡ true
  any-Elem p here h = ground arith
  any-Elem p (there {xs} e) h = ground (arith, any-Elem p e h)

  pub any-eq-true :
      (p : A → Bool) (xs : List A) → any p xs ≡ true → (x : A) × Elem x xs × (p x ≡ true)
  any-eq-true p [] h = absurd (ground arith)
  any-eq-true p (x ∷ xs) h = elim (Bool-cases (p x)) [
    | inl yes_here ↦ (x, here, yes_here)
    | inr no_here ↦ let (y, e, q) = any-eq-true p xs (ground arith) in (y, there e, q)
  ]

  pub find-eq-some :
      (p : A → Bool) (xs : List A) {x : A} → find p xs ≡ some x → Elem x xs × (p x ≡ true)
  find-eq-some p [] h = absurd (ground arith)
  find-eq-some p (y ∷ xs) {x} h = elim (Bool-cases (p y)) [
    | inl yes_here ↦ let e : y ≡ x = ground arith in rw (← e) (here, yes_here)
    | inr no_here ↦ let (e, q) = find-eq-some p xs (ground arith) in (there e, q)
  ]

  pub find-eq-none :
      (p : A → Bool) {x : A} {xs : List A} → find p xs ≡ none → Elem x xs → p x ≡ false
  find-eq-none p h here = ground arith
  find-eq-none p h (there {xs} e) = find-eq-none p {xs = xs} (ground arith) e

  pub filter-Elem :
      (p : A → Bool) {x : A} {xs : List A} → Elem x xs → p x ≡ true → Elem x (filter p xs)
  filter-Elem p (here {xs}) h = rw h here
  filter-Elem p (there {x = y} {xs} e) h = elim (Bool-cases (p y)) [
    | inl q ↦ rw q (there (filter-Elem p e h))
    | inr q ↦ rw q (filter-Elem p e h)
  ]

  pub Elem-of_filter :
      (p : A → Bool) (xs : List A) {x : A} → Elem x (filter p xs) → Elem x xs × (p x ≡ true)
  Elem-of_filter p [] e = elim e [ ]
  Elem-of_filter p (y ∷ xs) e = elim (Bool-cases (p y)) [
    | inl q ↦ keep q (rw q at e) (Elem-of_filter p xs)
    | inr q ↦ let (d, r) = Elem-of_filter p xs (rw q at e) in (there d, r)
  ]
    where
      keep :
          {x : A}
          → p y ≡ true
          → Elem x (y ∷ filter p xs)
          → (Elem x (filter p xs) → Elem x xs × (p x ≡ true))
          → Elem x (y ∷ xs) × (p x ≡ true)
      keep q here ih = (here, q)
      keep q (there d) ih = let (d', r) = ih d in (there d', r)

pub is_empty-false {ℓ} : {A : Type ℓ} (l : List A) → is_empty l ≡ false → l ≢ []
is_empty-false [] h = cc
is_empty-false (x ∷ xs) h = λ e. cc
