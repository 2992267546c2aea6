-- ===== src/Cli/Sparkline/Small.antt =====
-- The sparkline of cli/crypto-stream/ui/watch.go on small prices.
use termino.Prelude.{
  ◌≡◌, refl, Bool, true, false, List, [], ◌∷◌, Option, some, if◌then◌else◌, All, All-map,
}
use termino.Prelude.Text.{Text}
use termino.Float.{Float, FloatOrder, FloatRange}
use termino.Cli.{Look}
use termino.Cli.Sparkline.{span, render_sparkline}
use termino.Cli.Sparkline.Bounds.{render_sparkline-some}

-- Values so small that their differences are finite.
pub record AreSmall {F : Type 0} {fl : Float F} {o : FloatOrder fl} (r : FloatRange o)
    (IsSmall : F → Type 0) : Type 0 where
  pub finite : (a : F) → IsSmall a → r.IsFinite a
  pub difference : (a b : F) → IsSmall a → IsSmall b → r.IsFinite (fl.sub a b)

abbrev pub IsDrawn : Option Text → Type 0
IsDrawn o = (t : Text) × (o ≡ some t)

-- The loop for the ends keeps to the values.
span-All :
    {F : Type 0} ⦃fl : Float F⦄ (P : F → Type 0) (min max : F) (vs : List F)
    → P min
    → P max
    → All P vs
    → P (span min max vs).0 × P (span min max vs).1
unfolding span
span-All P min max [] h k f = (h, k)
span-All {F} ⦃fl⦄ P min max (v ∷ vs) h k f =
    span-All P _ _ vs (either (fl.lt v min) f.0 h) (either (fl.lt max v) f.0 k) f.1
  where
    either : (b : Bool) {x y : F} → P x → P y → P (if b then x else y)
    either true p q = p
    either false p q = q

module _ {F : Type 0} ⦃fl : Float F⦄ {o : FloatOrder fl} (r : FloatRange o) (IsSmall : F → Type 0)
    (small : AreSmall r IsSmall) (look : Look) where
  pub render_sparkline-IsDrawn : (vs : List F) → All IsSmall vs → IsDrawn (render_sparkline look vs)
  unfolding render_sparkline
  render_sparkline-IsDrawn [] h = ([], refl)
  render_sparkline-IsDrawn (v ∷ vs) h =
      let ends = span-All IsSmall v v (v ∷ vs) h.0 h.0 h in
      (render_sparkline-some r look v vs (All-map small.finite (v ∷ vs) h)
        (small.difference _ _ ends.1 ends.0)).1
