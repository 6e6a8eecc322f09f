-- ===== src/Base/Texts.antt =====
-- A Rust `str` is the list of its UTF-8 bytes; here are the std operations the program calls on it.
use Prim.Native.Nat.{ℕ, suc, ◌+◌, ◌-◌, ◌*◌}
use Prim.Native.Char.{code}
use Prim.Native.String.{String}
use mathlib.Core.Path.{◌≡◌, refl}
use mathlib.Core.Logic.{◌↔◌, ◌≢◌}
use mathlib.Core.Bool.{Bool, true, false, ◌&&◌, ◌||◌}
use mathlib.Core.Option.{Option, none, some}
use mathlib.Core.List.{List, [], ◌∷◌, foldl}
use native.Mathlib.Omega.{arith}
use native.Mathlib.Decide.{ℕ_discrete}
use docker_socket_policy.Base.Tests.{if◌then◌else◌, eqb, ltb, leb}

abbrev pub Text : Type 0
Text = List ℕ

-- The bytes of a literal; every literal of the program is ASCII, so they are its code points.
unfoldable pub lit : String → Text
lit String.[] = []
lit (String.◌∷◌ c s) = code c ∷ lit s

infix 50 ◌==◌
unfoldable pub ◌==◌ : Text → Text → Bool
[] == [] = true
[] == (d ∷ t) = false
(c ∷ s) == [] = false
(c ∷ s) == (d ∷ t) = eqb c d && (s == t)

-- The order of byte strings: lexicographic.
unfoldable pub text_ltb : Text → Text → Bool
text_ltb s [] = false
text_ltb [] (d ∷ t) = true
text_ltb (c ∷ s) (d ∷ t) = ltb c d || eqb c d && text_ltb s t

unfoldable pub starts_with : Text → Text → Bool
starts_with s [] = true
starts_with [] (d ∷ p) = false
starts_with (c ∷ s) (d ∷ p) = eqb c d && starts_with s p

unfoldable pub strip_prefix : Text → Text → Option Text
strip_prefix s [] = some s
strip_prefix [] (d ∷ p) = none
strip_prefix (c ∷ s) (d ∷ p) = let rest = strip_prefix s p in if eqb c d then rest else none

unfoldable pub ends_with : Text → Text → Bool
ends_with [] p = [] == p
ends_with (c ∷ s) p = (c ∷ s) == p || ends_with s p

unfoldable pub contains : Text → ℕ → Bool
contains [] b = false
contains (c ∷ s) b = eqb c b || contains s b

unfoldable pub contains_text : Text → Text → Bool
contains_text [] p = starts_with [] p
contains_text (c ∷ s) p = starts_with (c ∷ s) p || contains_text s p

abbrev pub push_first : ℕ → List Text → List Text
push_first c [] = (c ∷ []) ∷ []
push_first c (p ∷ ps) = (c ∷ p) ∷ ps

-- The pieces between the separators: one more than there are separators.
unfoldable pub split : Text → ℕ → List Text
split [] b = [] ∷ []
split (c ∷ s) b = let rest = split s b in if eqb c b then [] ∷ rest else push_first c rest

-- What stands before and after the first separator.
unfoldable pub split_once : Text → ℕ → Option (Text × Text)
split_once [] b = none
split_once (c ∷ s) b =
    let later : Option (Text × Text) = elim (split_once s b) [
      | none ↦ none
      | some (l, r) ↦ some (c ∷ l, r)
    ] in
    if eqb c b then some ([], s) else later

-- The index of the last occurrence.
unfoldable pub rfind : Text → ℕ → Option ℕ
rfind [] b = none
rfind (c ∷ s) b = elim (rfind s b) [
  | some i ↦ some (suc i)
  | none ↦ if eqb c b then some 0 else none
]

unfoldable pub is_digit : ℕ → Bool
is_digit c = leb b'0' c && leb c b'9'

unfoldable pub is_lower : ℕ → Bool
is_lower c = leb b'a' c && leb c b'z'

unfoldable pub is_upper : ℕ → Bool
is_upper c = leb b'A' c && leb c b'Z'

unfoldable pub is_alpha : ℕ → Bool
is_alpha c = is_lower c || is_upper c

unfoldable pub is_alnum : ℕ → Bool
is_alnum c = is_alpha c || is_digit c

unfoldable pub to_lower : ℕ → ℕ
to_lower c = if is_upper c then c + 32 else c

-- The number that a text of decimal digits stands for.
unfoldable pub decimal : Text → ℕ
decimal = foldl (λ n c. 10 * n + (c - b'0')) 0

unfoldable pub is_space : ℕ → Bool
is_space c = eqb c 32 || eqb c 9 || eqb c 10 || eqb c 12 || eqb c 13

-- Whether every byte is ASCII white space.
unfoldable pub blank : Text → Bool
blank [] = true
blank (c ∷ s) = is_space c && blank s

unfoldable pub trim_end : Text → Text
trim_end [] = []
trim_end (c ∷ s) = let rest = c ∷ trim_end s in if blank (c ∷ s) then [] else rest

unfoldable pub trim_start : Text → Text
trim_start [] = []
trim_start (c ∷ s) = let rest = trim_start s in if is_space c then rest else c ∷ s

unfoldable pub trim_ascii : Text → Text
trim_ascii s = trim_end (trim_start s)

unfoldable pub insert_sorted : Text → List Text → List Text
insert_sorted k [] = k ∷ []
insert_sorted k (j ∷ l) =
    let rest = j ∷ insert_sorted k l in if text_ltb j k then rest else k ∷ j ∷ l

unfoldable pub sort : List Text → List Text
sort [] = []
sort (k ∷ l) = insert_sorted k (sort l)

pub ==_iff : (s t : Text) → ((s == t) ≡ true) ↔ (s ≡ t)
unfolding ◌==◌
==_iff [] [] = (λ _. refl, λ _. refl)
==_iff [] (d ∷ t) = (λ h. cc, λ h. cc)
==_iff (c ∷ s) [] = (λ h. cc, λ h. cc)
==_iff (c ∷ s) (d ∷ t) = ground (arith, ==_iff s t)

pub ==_refl : (s : Text) → (s == s) ≡ true
==_refl s = (==_iff s s).1 refl

pub ==-false : (s t : Text) → s ≢ t → (s == t) ≡ false
==-false s t h = ground (arith, ==_iff s t)

pub ==_sym : (s t : Text) → (s == t) ≡ (t == s)
==_sym s t = ground (arith, ==_iff s t, ==_iff t s)

pub Text-discrete : Discrete Text
Text-discrete = hlevel ℕ_discrete
