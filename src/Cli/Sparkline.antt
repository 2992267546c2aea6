-- ===== src/Cli/Sparkline.antt =====
-- `renderSparkline` of cli/crypto-stream/ui/watch.go. `none` is a panic: an index out of range.
pub mod Bounds
pub mod Small
use termino.Prelude.{ℕ, zero, suc, Bool, List, [], ◌∷◌, ◌++◌, Option, none, some, if◌then◌else◌}
use termino.Prelude.Int.{ℤ, pos, negsuc, leb_ℤ}
use termino.Prelude.Text.{Text}
use termino.Float.{Float}
use termino.Cli.{Look}

-- The eight blocks, from the lowest.
unfoldable pub blocks : List Text
blocks =
    (0x2581 ∷ [])
    ∷ (0x2582 ∷ [])
    ∷ (0x2583 ∷ [])
    ∷ (0x2584 ∷ [])
    ∷ (0x2585 ∷ [])
    ∷ (0x2586 ∷ [])
    ∷ (0x2587 ∷ [])
    ∷ (0x2588 ∷ [])
    ∷ []

abbrev pub get_elem? : {A : Type 0} → List A → ℕ → Option A
get_elem? [] i = none
get_elem? (x ∷ xs) zero = some x
get_elem? (x ∷ xs) (suc i) = get_elem? xs i

abbrev pub at_index : {A : Type 0} → List A → ℤ → Option A
at_index xs (pos n) = get_elem? xs n
at_index xs (negsuc n) = none

module _ {F : Type 0} ⦃fl : Float F⦄ where
  -- The loop over the data for the least and the greatest value.
  unfoldable pub span : F → F → List F → F × F
  span min max [] = (min, max)
  span min max (v ∷ vs) = span (if fl.lt v min then v else min) (if fl.lt max v then v else max) vs

  pub spread : F × F → F
  spread (min, max) =
      let rng = fl.sub max min in if fl.eq rng (fl.of_nat 0) then fl.of_nat 1 else rng

  pub index_of : F → F → F → ℤ
  index_of min rng v =
      let idx = fl.to_int (fl.mul (fl.div (fl.sub v min) rng) (fl.of_nat 7)) in
      if leb_ℤ (pos 8) idx then pos 7 else idx

  -- A rise after the value before is green, a fall is red.
  coloured : Look → Option F → F → Text → Text
  coloured look none v char = char
  coloured look (some before) v char =
      if fl.lt before v then look.green char else if fl.lt v before then look.red char else char

  with_block : Look → Option F → F → Option Text → Option Text → Option Text
  unfolding coloured
  with_block look before v none rest = none
  with_block look before v (some char) none = none
  with_block look before v (some char) (some rest) = some (coloured look before v char ++ rest)

  pub render_from : Look → F → F → Option F → List F → Option Text
  unfolding index_of with_block
  render_from look min rng before [] = some []
  render_from look min rng before (v ∷ vs) =
      with_block look before v (at_index blocks (index_of min rng v))
        (render_from look min rng (some v) vs)

  unfoldable pub render_sparkline : Look → List F → Option Text
  unfolding spread render_from
  render_sparkline look [] = some []
  render_sparkline look (v ∷ vs) =
      let ends = span v v (v ∷ vs) in render_from look ends.0 (spread ends) none (v ∷ vs)
