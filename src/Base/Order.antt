-- ===== src/Base/Order.antt =====
-- Python's order on strings: by the first code point that differs, a prefix before its extensions.
use swat4stats.Base.Tests.{ltb, ◌==◌}
use swat4stats.Base.Text.{Text, text_eq}
use mathlib.Core.Path.{◌≡◌, refl}
use mathlib.Core.Bool.{Bool, true, false, not, ◌&&◌, ◌||◌}
use mathlib.Core.List.{[], ◌∷◌}
use native.Mathlib.Omega.{arith}

abbrev pub text_ltb : Text → Text → Bool
text_ltb s [] = false
text_ltb [] (d ∷ t) = true
text_ltb (c ∷ s) (d ∷ t) = ltb c d || c == d && text_ltb s t

pub text_ltb_asym : (s t : Text) → text_ltb s t ≡ true → text_ltb t s ≡ false
text_ltb_asym [] [] h = refl
text_ltb_asym [] (d ∷ t) h = refl
text_ltb_asym (c ∷ s) [] h = cc
text_ltb_asym (c ∷ s) (d ∷ t) h = ground (arith, text_ltb_asym s t)

pub text_ltb_cotrans :
    (s t u : Text) → text_ltb s t ≡ false → text_ltb t u ≡ false → text_ltb s u ≡ false
text_ltb_cotrans s t [] h k = refl
text_ltb_cotrans [] [] (e ∷ u) h k = cc
text_ltb_cotrans [] (d ∷ t) (e ∷ u) h k = cc
text_ltb_cotrans (c ∷ s) [] (e ∷ u) h k = cc
text_ltb_cotrans (c ∷ s) (d ∷ t) (e ∷ u) h k = ground (arith, text_ltb_cotrans s t u)

pub text_ltb_total : (s t : Text) → text_eq s t ≡ (not (text_ltb s t) && not (text_ltb t s))
text_ltb_total [] [] = refl
text_ltb_total [] (d ∷ t) = refl
text_ltb_total (c ∷ s) [] = refl
text_ltb_total (c ∷ s) (d ∷ t) = ground (arith, text_ltb_total s t)
