-- ===== src/Base/Results.antt =====
-- Results with an error, and their do notation.
use mathlib.Core.Path.{◌≡◌, refl}
use mathlib.Core.Bool.{Bool, true, false, not}
use mathlib.Core.Logic.{◌⊎◌, inl, inr}
use mathlib.Core.Option.{Option, none, some}

pub data Result {ℓ κ} (E : Type κ) (A : Type ℓ) : Type (ℓ ⊔ κ) where
  ok : A → Result E A
  err : E → Result E A

-- Early return of an error when the test fails.
abbrev pub ensure {ι} : {E : Type ι} → Bool → E → Result E (Unit {0})
ensure false reason = err reason
ensure true reason = ok tt

-- `map_err`.
abbrev pub map_err {ℓ κ ι} :
    {E : Type ι} {F : Type κ} {A : Type ℓ} → (E → F) → Result E A → Result F A
map_err f (ok value) = ok value
map_err f (err reason) = err (f reason)

-- `ok_or`.
abbrev pub ok_or {ℓ ι} : {E : Type ι} {A : Type ℓ} → E → Option A → Result E A
ok_or reason (some value) = ok value
ok_or reason none = err reason

module _ {ℓ κ ι} {E : Type ι} {A : Type ℓ} {B : Type κ} where
  infixl 5 ◌>>=◌
  abbrev pub ◌>>=◌ : Result E A → (A → Result E B) → Result E B
  err reason >>= next = err reason
  ok value >>= next = next value

  pub >>=-eq-ok :
      (r : Result E A) (next : A → Result E B) {b : B}
      → (r >>= next) ≡ ok b
      → (value : A) × (r ≡ ok value) × (next value ≡ ok b)
  >>=-eq-ok (err reason) next h = cc
  >>=-eq-ok (ok value) next h = (value, refl, h)

-- In sequence, where the first result carries no value.
infixl 5 ◌>>◌
abbrev pub ◌>>◌ {κ ι} : {E : Type ι} {B : Type κ} → Result E (Unit {0}) → Result E B → Result E B
r >> after = r >>= λ done. after

pub >>-eq-ok {ℓ ι} :
    {E : Type ι} {B : Type ℓ} (m : Result E (Unit {0})) (k : Result E B) {b : B}
    → (m >> k) ≡ ok b
    → (m ≡ ok tt) × (k ≡ ok b)
>>-eq-ok (ok tt) k h = (refl, h)
>>-eq-ok (err e) k h = cc

pub Result-cases {ℓ κ} :
    {E : Type κ} {A : Type ℓ} (r : Result E A) → ((a : A) × (r ≡ ok a)) ⊎ ((e : E) × (r ≡ err e))
Result-cases (ok a) = inl (a, refl)
Result-cases (err e) = inr (e, refl)

-- A check that passed.
pub ensure-eq-ok {ι} : {E : Type ι} (b : Bool) (e : E) → ensure b e ≡ ok tt → b ≡ true
ensure-eq-ok true e h = refl
ensure-eq-ok false e h = cc

pub ensure-not-eq-ok {ι} : {E : Type ι} (b : Bool) (e : E) → ensure (not b) e ≡ ok tt → b ≡ false
ensure-not-eq-ok true e h = cc
ensure-not-eq-ok false e h = refl

-- A value that was there.
pub ok_or-eq-ok {ℓ ι} :
    {E : Type ι} {A : Type ℓ} (e : E) (o : Option A) {a : A} → ok_or e o ≡ ok a → o ≡ some a
ok_or-eq-ok e none h = cc
ok_or-eq-ok e (some a) h = cc

-- A computation without a value that succeeded.
pub ok-tt {ι} : {E : Type ι} (r : Result E (Unit {0})) {u : Unit {0}} → r ≡ ok u → r ≡ ok tt
ok-tt r h = h
