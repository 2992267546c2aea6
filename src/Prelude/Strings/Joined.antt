-- ===== src/Prelude/Strings/Joined.antt =====
-- Texts that are joined and split again, and texts without blanks.
use Prim.Native.Nat.{ℕ}
use mathlib.Core.Path.{◌≡◌, refl, ap, ◌∙◌}
use mathlib.Core.Logic.{inl, inr, ◌≢◌}
use mathlib.Core.Bool.{Bool, true}
use mathlib.Core.List.{List, [], ◌∷◌, ◌++◌}
use native.Mathlib.Omega.{arith}
use termino.Prelude.Tests.{Bool-cases, nat_beq}
use termino.Prelude.Lists.{All}
use termino.Prelude.Text.{Text}
use termino.Prelude.Strings.{
  add_to_first, is_space, trim_left, trim_right, trim_space, split, join, none_is,
}

abbrev pub is_at : ℕ → ℕ → Bool
is_at sep c = nat_beq c sep

split-append :
    (sep : ℕ) (s rest : Text)
    → none_is (is_at sep) s ≡ true
    → split sep (s ++ sep ∷ rest) ≡ s ∷ split sep rest
unfolding split
split-append sep [] rest h = ground arith
split-append sep (c ∷ s) rest h = ground (arith, split-append sep s rest)

split_whole : (sep : ℕ) (s : Text) → none_is (is_at sep) s ≡ true → split sep s ≡ s ∷ []
unfolding split
split_whole sep [] h = refl
split_whole sep (c ∷ s) h = ground (arith, split_whole sep s)

-- Texts without the separator are split where they were joined.
pub split-join :
    (sep : ℕ) (s : Text) (ss : List Text)
    → All (λ t. none_is (is_at sep) t ≡ true) (s ∷ ss)
    → split sep (join sep (s ∷ ss)) ≡ s ∷ ss
unfolding join
split-join sep s [] h = split_whole sep s h.0
split-join sep s (t ∷ ts) h =
    split-append sep s (join sep (t ∷ ts)) h.0 ∙ ap (◌∷◌ s) (split-join sep t ts h.1)

trim_left-same : (s : Text) → none_is is_space s ≡ true → trim_left s ≡ s
unfolding trim_left
trim_left-same [] h = refl
trim_left-same (c ∷ s) h = ground arith

trim_right-same : (s : Text) → none_is is_space s ≡ true → trim_right s ≡ s
unfolding trim_right
trim_right-same [] h = refl
trim_right-same (c ∷ s) h = ground (arith, trim_right-same s)

pub trim_space-same : (s : Text) → none_is is_space s ≡ true → trim_space s ≡ s
unfolding trim_space
trim_space-same s h = ap trim_right (trim_left-same s h) ∙ trim_right-same s h

pub join-ne-nil : (sep : ℕ) (s : Text) (ss : List Text) → s ≢ [] → join sep (s ∷ ss) ≢ []
unfolding join
join-ne-nil sep s [] h e = h e
join-ne-nil sep [] (t ∷ ts) h e = h refl
join-ne-nil sep (c ∷ s) (t ∷ ts) h e = cc

-- There is a first part.
pub split-cons : (sep : ℕ) (t : Text) → (b : Text) × (bs : List Text) × (split sep t ≡ b ∷ bs)
unfolding split
split-cons sep [] = ([], [], refl)
split-cons sep (c ∷ t) = elim (Bool-cases (nat_beq c sep)) [
  | inl e ↦ rw e ([], split sep t, refl)
  | inr e ↦ let (b, bs, h) = split-cons sep t in rw (e, h, add_to_first) (c ∷ b, bs, refl)
]
