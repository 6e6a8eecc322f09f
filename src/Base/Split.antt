-- ===== src/Base/Split.antt =====
-- Prefixes, suffixes and pieces of texts: what the std operations return.
use docker_socket_policy.Base.Texts.{Text, starts_with, strip_prefix, split, push_first}
use docker_socket_policy.Base.Tests.{Bool-cases, eqb, eqb_iff}
use Prim.Native.Nat.{ℕ}
use mathlib.Core.Path.{◌≡◌, refl, ap, ap₂, sym}
use mathlib.Core.Logic.{◌⊎◌, ◌≢◌, inl, inr}
use mathlib.Core.Bool.{true}
use mathlib.Core.Option.{some}
use mathlib.Core.List.{List, [], ◌∷◌, ◌++◌}
use native.Mathlib.Omega.{arith}

-- `p` is a prefix of `s`.
pub starts_with-append : (p r : Text) → starts_with (p ++ r) p ≡ true
unfolding starts_with
starts_with-append [] r = refl
starts_with-append (c ∷ p) r = ground (arith, starts_with-append p r)

pub starts_with-eq-true : (s p : Text) → starts_with s p ≡ true → (r : Text) × (s ≡ p ++ r)
unfolding starts_with
starts_with-eq-true s [] h = (s, refl)
starts_with-eq-true [] (d ∷ p) h = cc
starts_with-eq-true (c ∷ s) (d ∷ p) h =
    let (r, e) = starts_with-eq-true s p (ground arith) in (r, ap₂ ◌∷◌ (ground arith) e)

-- Two prefixes of one text are comparable.
pub prefix_total :
    (p q r t : Text) → p ++ r ≡ q ++ t → ((u : Text) × (p ≡ q ++ u)) ⊎ ((u : Text) × (q ≡ p ++ u))
prefix_total [] q r t e = inr (q, refl)
prefix_total (c ∷ p) [] r t e = inl (c ∷ p, refl)
prefix_total (c ∷ p) (d ∷ q) r t e = elim (prefix_total p q r t (cc)) [
  | inl (u, h) ↦ inl (u, ap₂ ◌∷◌ (cc) h)
  | inr (u, h) ↦ inr (u, ap₂ ◌∷◌ (cc) h)
]

pub append_cancel : (p r t : Text) → p ++ r ≡ p ++ t → r ≡ t
append_cancel [] r t e = e
append_cancel (c ∷ p) r t e = append_cancel p r t (cc)

pub strip_prefix-eq-some : (s p : Text) {r : Text} → strip_prefix s p ≡ some r → s ≡ p ++ r
unfolding strip_prefix
strip_prefix-eq-some s [] h = cc
strip_prefix-eq-some [] (d ∷ p) h = cc
strip_prefix-eq-some (c ∷ s) (d ∷ p) h =
    ap₂ ◌∷◌ (ground arith) (strip_prefix-eq-some s p (ground arith))

-- The pieces joined by the separator are the text.
pub join : ℕ → List Text → Text
join b [] = []
join b (p ∷ []) = p
join b (p ∷ q ∷ ps) = p ++ b ∷ join b (q ∷ ps)

join-push_first : (b c : ℕ) (ps : List Text) → ps ≢ [] → join b (push_first c ps) ≡ c ∷ join b ps
unfolding join
join-push_first b c [] h = absurd (h refl)
join-push_first b c (p ∷ []) h = refl
join-push_first b c (p ∷ q ∷ ps) h = refl

push_first-ne-nil : (c : ℕ) (ps : List Text) → push_first c ps ≢ []
push_first-ne-nil c [] = λ h. cc
push_first-ne-nil c (p ∷ ps) = λ h. cc

pub split-ne-nil : (s : Text) (b : ℕ) → split s b ≢ []
unfolding split
split-ne-nil [] b = λ h. cc
split-ne-nil (c ∷ s) b = elim (Bool-cases (eqb c b)) [
  | inl e ↦ rw e (cc)
  | inr e ↦ rw e (push_first-ne-nil c (split s b))
]

join-cons_nil : (b : ℕ) (ps : List Text) → ps ≢ [] → join b ([] ∷ ps) ≡ b ∷ join b ps
unfolding join
join-cons_nil b [] h = absurd (h refl)
join-cons_nil b (p ∷ ps) h = refl

pub join-split : (s : Text) (b : ℕ) → join b (split s b) ≡ s
unfolding split join
join-split [] b = refl
join-split (c ∷ s) b = elim (Bool-cases (eqb c b)) [
  | inl e ↦
      rw (e, join-cons_nil b (split s b) (split-ne-nil s b), join-split s b)
        (ap (λ x. x ∷ s) (sym ((eqb_iff c b).0 e)))
  | inr e ↦ rw (e, join-push_first b c (split s b) (split-ne-nil s b), join-split s b)
]
