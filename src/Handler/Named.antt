-- ===== src/Handler/Named.antt =====
-- The name that an inspect gives, and the policies that cover it.
use docker_socket_policy.Base.{
  Text, none, some, List, [], ◌∷◌, ◌≡◌, refl, ◌≢◌, ◌⊎◌, inl, inr, eqb, eqb_iff, Bool-cases,
  Option-cases, arith, Option, lit, any, sym, strip_prefix, is_empty, if◌then◌else◌, ◌==◌, Elem,
  Elem-of_filter,
}
use docker_socket_policy.Policy.{Policy}
use docker_socket_policy.Json.{Value, null, bool, number, string, array, object, as_object, as_str}
use docker_socket_policy.Base.Map.{Map, get}
use docker_socket_policy.Gates.MountSource.{contains_entry}
use docker_socket_policy.Gates.MountSource.Rules.{contains_entry-Elem}
use docker_socket_policy.Policy.{covered_names}
use docker_socket_policy.Manager.{Manager, covering, policies}
use docker_socket_policy.Query.{strip_slash}
use docker_socket_policy.Handler.{inspected_name}

-- A name without its slash, if it starts with one.
abbrev pub IsBare : (name bare : Text) → Type 0
IsBare name bare = (name ≡ b'/' ∷ bare) ⊎ ((name ≡ bare) × ((rest : Text) → name ≢ b'/' ∷ rest))

-- A JSON object whose Name is this text, which is not empty.
pub record IsNamed (answered : Option Value) (name : Text) : Type 0 where
  pub value : Value
  pub members : Map Value
  pub parsed : answered ≡ some value
  pub is_object : as_object value ≡ some members
  pub named : get (lit "Name") members ≡ some (string name)
  pub filled : name ≢ []

pub strip_slash-IsBare : (name : Text) → IsBare name (strip_slash name)
unfolding strip_slash strip_prefix
strip_slash-IsBare [] = inr (refl, λ rest e. cc)
strip_slash-IsBare (c ∷ name) = elim (Bool-cases (eqb c b'/')) [
  | inl t ↦ let slash = (eqb_iff c b'/').0 t in rw (t, strip_prefix) (inl (ground arith))
  | inr f ↦
      rw (f, strip_prefix)
        (inr (refl, λ rest e. (let same : c ≡ b'/' = ground arith in absurd (ground arith))))
]

pub inspected_name-IsNamed :
    (answered : Option Value) (name : Text)
    → inspected_name answered ≡ some name
    → IsNamed answered name
unfolding inspected_name
inspected_name-IsNamed none name e = absurd cc
inspected_name-IsNamed (some v) name e = elim (Option-cases (as_object v)) [
  | inl o ↦ absurd (let no_name : none ≡ some name = rw (o, inspected_name) at e in cc)
  | inr (members, o) ↦ elim (Option-cases (get (lit "Name") members)) [
    | inl g ↦ absurd (let no_name : none ≡ some name = rw (o, g, inspected_name) at e in cc)
    | inr (n, g) ↦ member v name members n o g (rw (o, g, inspected_name) at e)
  ]
]
  where
    member :
        (v : Value) (name : Text) (members : Map Value) (n : Value)
        → as_object v ≡ some members
        → get (lit "Name") members ≡ some n
        → elim (as_str n) [ none ↦ none | some s ↦ if is_empty s then none else some s ] ≡ some name
        → IsNamed (some v) name
    member v name members (string []) o g e = absurd cc
    member v name members (string (c ∷ s)) o g e = record {
      value = v;
      members = members;
      parsed = refl;
      is_object = o;
      named = rw (let same : c ∷ s ≡ name = ground arith in sym same) g;
      filled = λ empty. (let same : c ∷ s ≡ name = ground arith in cc);
    }
    member v name members null o g e = absurd cc
    member v name members (bool b) o g e = absurd cc
    member v name members (number n) o g e = absurd cc
    member v name members (array n) o g e = absurd cc
    member v name members (object n) o g e = absurd cc

pub covering-Elem :
    (m : Manager) (bare : Text) (policy : Policy) (others : List Policy)
    → covering m bare ≡ policy ∷ others
    → Elem policy (policies m) × Elem bare (covered_names policy)
unfolding covering contains_entry
covering-Elem m bare policy others e =
    let (loaded, covers) =
      Elem-of_filter (λ p. any (λ n. n == bare) (covered_names p)) (policies m) (rw e Elem.here) in
    (loaded, contains_entry-Elem (covered_names policy) bare covers)
