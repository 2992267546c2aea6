-- ===== src/Prelude/Text.antt =====
-- Go's strings as lists of code points.
use Prim.Native.Nat.{ℕ}
use Prim.Native.Char.{code}
use Prim.Native.String.{String}
use termino.Prelude.Tests.{nat_beq}
use termino.Prelude.Eq.{Eq}
use mathlib.Core.Path.{◌≡◌, refl}
use mathlib.Core.Logic.{◌↔◌}
use mathlib.Core.Bool.{Bool, true, false, ◌&&◌}
use mathlib.Core.List.{List, [], ◌∷◌}
use native.Mathlib.Omega.{arith}

abbrev pub Text : Type 0
Text = List ℕ

abbrev pub codes : String → Text
codes String.[] = []
codes (String.◌∷◌ c s) = code c ∷ codes s

unfoldable pub text_beq : Text → Text → Bool
text_beq [] [] = true
text_beq (a ∷ s) (b ∷ t) = nat_beq a b && text_beq s t
text_beq _ _ = false

pub text_beq_iff : (s t : Text) → (text_beq s t ≡ true) ↔ (s ≡ t)
unfolding text_beq
text_beq_iff [] [] = ((λ h. refl), (λ h. refl))
text_beq_iff [] (b ∷ t) = ((λ h. cc), (λ h. cc))
text_beq_iff (a ∷ s) [] = ((λ h. cc), (λ h. cc))
text_beq_iff (a ∷ s) (b ∷ t) =
    ((λ h. ground (arith, text_beq_iff s t)), (λ h. ground (arith, text_beq_iff s t)))

instance abbrev pub text_eq : Eq Text
text_eq = record { beq = text_beq; beq_iff = text_beq_iff }
