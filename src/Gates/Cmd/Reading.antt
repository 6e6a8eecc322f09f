-- ===== src/Gates/Cmd/Reading.antt =====
-- How an argument that is a flag, and what stands behind it, name a flag and its value.
use docker_socket_policy.Base.{
  Text, ℕ, true, false, Option, none, some, List, [], ◌∷◌, ◌++◌, ◌≡◌, refl, ap, sym, subst, inl,
  inr, arith, Bool-cases, Option-cases, Elem, eqb, eqb_iff, split_once, unwrap_or, if◌then◌else◌,
  starts_with,
}
use docker_socket_policy.Json.{Value}
use docker_socket_policy.Gates.Cmd.{argument, is_flag, flag_name, inline_value, takes_next}

-- The value of a flag: behind its `=`, else the next argument if that is no flag.
abbrev pub given : Text → List Value → Text
given arg [] = unwrap_or [] (inline_value arg)
given arg (w ∷ rest) =
    if takes_next arg (argument w) then argument w else unwrap_or [] (inline_value arg)

-- A text that starts with a dash.
abbrev pub IsDashed : Text → Type 0
IsDashed arg = (s : Text) × (arg ≡ b'-' ∷ s)

-- The flag and its value: both sides of the first `=`; else the whole argument, with the next one, if
-- there is one and it does not start with a dash, and with no value otherwise.
pub data Reads : (arg : Text) → (rest : List Value) → (flag value : Text) → Type 0 where
  inline :
      {flag value : Text} {rest : List Value}
      → ¬ Elem b'=' flag
      → Reads (flag ++ b'=' ∷ value) rest flag value
  last : {arg : Text} → ¬ Elem b'=' arg → Reads arg [] arg []
  takes :
      {arg : Text} {w : Value} {rest : List Value}
      → ¬ Elem b'=' arg
      → ¬ IsDashed (argument w)
      → Reads arg (w ∷ rest) arg (argument w)
  alone :
      {arg : Text} {w : Value} {rest : List Value}
      → ¬ Elem b'=' arg
      → IsDashed (argument w)
      → Reads arg (w ∷ rest) arg []

-- Where a text is split.
abbrev IsSplit : Text → (b : ℕ) → Option (Text × Text) → Type 0
IsSplit s b none = ¬ Elem b s
IsSplit s b (some (l, r)) = (s ≡ l ++ b ∷ r) × ¬ Elem b l

not_first : (b c : ℕ) (s : Text) → eqb c b ≡ false → ¬ Elem b s → ¬ Elem b (c ∷ s)
not_first b c s f absent Elem.here = absurd (ground arith)
not_first b c s f absent (Elem.there e) = absent e

split_once-IsSplit : (s : Text) (b : ℕ) → IsSplit s b (split_once s b)
unfolding split_once
split_once-IsSplit [] b = λ e. elim e [ ]
split_once-IsSplit (c ∷ s) b = elim (Bool-cases (eqb c b)) [
  | inl t ↦ rw (t, split_once, (eqb_iff c b).0 t) (refl, λ e. elim e [ ])
  | inr f ↦ elim (Option-cases (split_once s b)) [
    | inl e ↦ rw (f, e, split_once) (not_first b c s f (rw e at (split_once-IsSplit s b)))
    | inr ((l, r), e) ↦
        let both : (s ≡ l ++ b ∷ r) × ¬ Elem b l = rw e at (split_once-IsSplit s b) in
        rw (f, e, split_once) (ap (λ t. c ∷ t) both.0, not_first b c l f both.1)
  ]
]

is_flag-IsDashed : (arg : Text) → is_flag arg ≡ true → IsDashed arg
unfolding is_flag starts_with
is_flag-IsDashed [] h = absurd cc
is_flag-IsDashed (c ∷ s) h = let dash : c ≡ b'-' = ground arith in (s, ap (λ d. d ∷ s) dash)

pub IsDashed-is_flag : (arg : Text) → IsDashed arg → is_flag arg ≡ true
unfolding is_flag starts_with
IsDashed-is_flag arg (s, e) = rw e refl

-- An argument without an `=`.
plain-Reads :
    (arg : Text) (rest : List Value)
    → split_once arg b'=' ≡ none
    → ¬ Elem b'=' arg
    → Reads arg rest (flag_name arg) (given arg rest)
unfolding flag_name inline_value takes_next
plain-Reads arg [] e absent = rw (e, flag_name, inline_value) (last absent)
plain-Reads arg (w ∷ rest) e absent = elim (Bool-cases (is_flag (argument w))) [
  | inl t ↦
      rw (e, flag_name, inline_value, takes_next, t)
        (alone absent (is_flag-IsDashed (argument w) t))
  | inr f ↦
      rw (e, flag_name, inline_value, takes_next, f)
        (takes absent (λ dashed. ground (arith, IsDashed-is_flag (argument w) dashed)))
]

-- An argument with one.
inline_given :
    (arg : Text) (rest : List Value) (l r : Text)
    → split_once arg b'=' ≡ some (l, r)
    → (flag_name arg ≡ l) × (given arg rest ≡ r)
unfolding flag_name inline_value takes_next
inline_given arg [] l r e = (rw (e, flag_name), rw (e, inline_value))
inline_given arg (w ∷ rest) l r e = (rw (e, flag_name), rw (e, inline_value, takes_next))

pub flag-Reads : (arg : Text) (rest : List Value) → Reads arg rest (flag_name arg) (given arg rest)
flag-Reads arg rest = elim (Option-cases (split_once arg b'=')) [
  | inl e ↦ plain-Reads arg rest e (rw e at (split_once-IsSplit arg b'='))
  | inr ((l, r), e) ↦
      let (parts, absent) : (arg ≡ l ++ b'=' ∷ r) × ¬ Elem b'=' l =
        rw e at (split_once-IsSplit arg b'=') in
      let (name, value) = inline_given arg rest l r e in
      rw (name, value) (subst (λ a. Reads a rest l r) (sym parts) (inline absent))
]
