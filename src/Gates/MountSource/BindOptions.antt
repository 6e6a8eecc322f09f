-- ===== src/Gates/MountSource/BindOptions.antt =====
-- What check_bind_options lets pass.
use docker_socket_policy.Base.{
  Text, refl, true, false, some, List, [], ◌∷◌, ◌≡◌, ok, ◌⊎◌, inl, inr, arith, lit, ◌==◌, ==_iff,
  >>-eq-ok, ensure-eq-ok, Bool-cases, or_cases, Elem,
}
use docker_socket_policy.Base.Map.{Map, get}
use docker_socket_policy.Json.{Value, null, bool, number, string, array, object, as_object, entries}
use docker_socket_policy.Policy.{Policy}
use docker_socket_policy.Gates.{check_field_case, fold_key}
use docker_socket_policy.Gates.KeyRules.{check_values-get, check_field_case_sound}
use docker_socket_policy.Gates.Zero.{IsZero, is_zero_value-IsZero}
use docker_socket_policy.Gates.MountSource.{
  contains_entry, check_bind_options, check_bind_option, bind_option_any_value, bind_option_fields,
  propagation_ok,
}
use docker_socket_policy.Gates.MountSource.Rules.{Elem-contains_entry}

-- null, "", "private" or "rprivate".
abbrev pub IsPrivate : Value → Type 0
IsPrivate v =
    (v ≡ null)
    ⊎ ((s : Text) × (v ≡ string s) × ((s ≡ []) ⊎ ((s ≡ lit "private") ⊎ (s ≡ lit "rprivate"))))

-- No key is another spelling of a field.
abbrev pub IsSpelled : List Text → Map Value → Type 0
IsSpelled fields m =
    (key field : Text) (v : Value)
    → get key m ≡ some v
    → Elem field fields
    → fold_key key ≡ fold_key field
    → key ≡ field

-- The options of a bind mount that may hold any value, or have a rule of their own.
abbrev pub free_options : List Text
free_options =
    lit "Propagation"
    ∷ lit "NonRecursive"
    ∷ lit "CreateMountpoint"
    ∷ lit "ReadOnlyForceRecursive"
    ∷ []

-- The options of a bind mount: a private propagation, and a zero value in every other field.
pub record HasPrivateOptions (opts : Map Value) : Type 0 where
  pub spelled : IsSpelled bind_option_fields opts
  pub propagation : (v : Value) → get (lit "Propagation") opts ≡ some v → IsPrivate v
  pub others :
      (key : Text) (v : Value)
      → get key opts ≡ some v
      → contains_entry free_options key ≡ false
      → IsZero v

propagation_ok-IsPrivate : (v : Value) → propagation_ok v ≡ true → IsPrivate v
unfolding propagation_ok
propagation_ok-IsPrivate null h = inl refl
propagation_ok-IsPrivate (string []) h = inr ([], refl, inl refl)
propagation_ok-IsPrivate (string (c ∷ s)) h = inr (
  c ∷ s,
  refl,
  inr (elim (or_cases (c ∷ s == lit "private") _ h) [
    | inl e ↦ inl ((==_iff (c ∷ s) (lit "private")).0 e)
    | inr e ↦ inr ((==_iff (c ∷ s) (lit "rprivate")).0 e)
  ]),
)
propagation_ok-IsPrivate (bool b) h = absurd cc
propagation_ok-IsPrivate (number n) h = absurd cc
propagation_ok-IsPrivate (array a) h = absurd cc
propagation_ok-IsPrivate (object o) h = absurd cc

-- A key that is not in the list is none of its texts.
pub not_in-other :
    (l : List Text) (key t : Text) → contains_entry l key ≡ false → Elem t l → (key == t) ≡ false
not_in-other l key t free e = elim (Bool-cases (key == t)) [
  | inr f ↦ f
  | inl same ↦
      let listed = Elem-contains_entry l t e in
      absurd (let both : contains_entry l t ≡ false = rw ((==_iff key t).0 same) at free in cc)
]

check_bind_option-IsZero :
    (policy : Policy) (key : Text) (v : Value)
    → check_bind_option policy key v ≡ ok tt
    → contains_entry free_options key ≡ false
    → IsZero v
unfolding check_bind_option contains_entry bind_option_any_value
check_bind_option-IsZero policy key v h free = is_zero_value-IsZero v (
    ensure-eq-ok _ _ (
      let other = not_in-other free_options key (lit "Propagation") free Elem.here in
      let rest : contains_entry bind_option_any_value key ≡ false = ground arith in
      rw (other, rest, check_bind_option) at h))

check_bind_option-IsPrivate :
    (policy : Policy) (v : Value)
    → check_bind_option policy (lit "Propagation") v ≡ ok tt
    → IsPrivate v
unfolding check_bind_option ◌==◌ lit
check_bind_option-IsPrivate policy v h = propagation_ok-IsPrivate v (ensure-eq-ok _ _ h)

pub check_bind_options-cases :
    (policy : Policy) (v : Value)
    → check_bind_options v policy ≡ ok tt
    → (v ≡ null) ⊎ ((opts : Map Value) × (as_object v ≡ some opts) × HasPrivateOptions opts)
unfolding check_bind_options
check_bind_options-cases policy null h = inl refl
check_bind_options-cases policy (object o) h =
    let both = >>-eq-ok (check_field_case _ (entries o) bind_option_fields policy) _ h in
    inr (
      entries o,
      refl,
      record {
        spelled = λ key field v.
            check_field_case_sound _ (entries o) bind_option_fields policy key field v both.0;
        propagation = λ v g.
            check_bind_option-IsPrivate policy v
              (check_values-get (check_bind_option policy) (entries o) _ v both.1 g);
        others = λ key v g.
            check_bind_option-IsZero policy key v
              (check_values-get (check_bind_option policy) (entries o) key v both.1 g);
      },
    )
check_bind_options-cases policy (string s) h = absurd cc
check_bind_options-cases policy (bool b) h = absurd cc
check_bind_options-cases policy (number n) h = absurd cc
check_bind_options-cases policy (array a) h = absurd cc
