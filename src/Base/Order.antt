-- ===== src/Base/Order.antt =====
-- The order of texts is a strict linear order.
use mathlib.Core.Path.{◌≡◌, refl, ap₂}
use mathlib.Core.Bool.{true, false}
use mathlib.Core.List.{[], ◌∷◌}
use native.Mathlib.Omega.{arith}
use docker_socket_policy.Base.Texts.{Text, text_ltb}

pub text_ltb-asym : (s t : Text) → text_ltb s t ≡ true → text_ltb t s ≡ false
unfolding text_ltb
text_ltb-asym s [] h = cc
text_ltb-asym [] (d ∷ t) h = refl
text_ltb-asym (c ∷ s) (d ∷ t) h = ground (arith, text_ltb-asym s t)

pub text_ltb-antisym : (s t : Text) → text_ltb s t ≡ false → text_ltb t s ≡ false → s ≡ t
unfolding text_ltb
text_ltb-antisym [] [] h k = refl
text_ltb-antisym [] (d ∷ t) h k = cc
text_ltb-antisym (c ∷ s) [] h k = cc
text_ltb-antisym (c ∷ s) (d ∷ t) h k =
    ap₂ ◌∷◌ (ground arith) (text_ltb-antisym s t (ground arith) (ground arith))

-- A text that is not above another is below all that is above that one.
pub text_ltb-above :
    (s t u : Text) → text_ltb s u ≡ true → text_ltb s t ≡ false → text_ltb t u ≡ true
unfolding text_ltb
text_ltb-above s t [] h k = cc
text_ltb-above s [] (e ∷ u) h k = refl
text_ltb-above [] (d ∷ t) (e ∷ u) h k = cc
text_ltb-above (c ∷ s) (d ∷ t) (e ∷ u) h k = ground (arith, text_ltb-above s t u)
