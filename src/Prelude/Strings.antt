-- ===== src/Prelude/Strings.antt =====
-- What the program uses of Go's `strings`, on code points. The upper case of a code point outside
-- ASCII is a parameter.
pub mod Joined
use Prim.Native.Nat.{ℕ, ◌-◌}
use mathlib.Core.Path.{◌≡◌, refl}
use mathlib.Core.Bool.{Bool, true, false, not, ◌&&◌, ◌||◌}
use mathlib.Core.Option.{Option, none, some}
use mathlib.Core.List.{List, [], ◌∷◌, ◌++◌, map}
use native.Mathlib.Omega.{arith}
use termino.Prelude.Tests.{ltb, leb, nat_beq, if◌then◌else◌}
use termino.Prelude.Text.{Text}

abbrev pub is_lower : ℕ → Bool
is_lower c = leb b'a' c && leb c b'z'

-- `unicode.ToUpper` outside ASCII, which never gives an ASCII small letter.
pub record Unicode : Type 0 where
  pub upper : ℕ → ℕ
  pub upper_not_lower : (c : ℕ) → is_lower (upper c) ≡ false

unfoldable pub upper_code : Unicode → ℕ → ℕ
upper_code u c = if ltb c 128 then (if is_lower c then c - 32 else c) else u.upper c

unfoldable pub to_upper : Unicode → Text → Text
unfolding upper_code
to_upper u s = map (upper_code u) s

-- `unicode.IsSpace`.
abbrev pub is_space : ℕ → Bool
is_space c =
    leb 9 c && leb c 13
    || nat_beq c 32
    || nat_beq c 0x85
    || nat_beq c 0xa0
    || nat_beq c 0x1680
    || leb 0x2000 c && leb c 0x200a
    || nat_beq c 0x2028
    || nat_beq c 0x2029
    || nat_beq c 0x202f
    || nat_beq c 0x205f
    || nat_beq c 0x3000

trim_left : Text → Text
trim_left [] = []
trim_left (c ∷ s) = let rest = trim_left s in if is_space c then rest else c ∷ s

abbrev is_empty : Text → Bool
is_empty [] = true
is_empty (c ∷ s) = false

trim_right : Text → Text
trim_right [] = []
trim_right (c ∷ s) = let rest = trim_right s in if is_space c && is_empty rest then [] else c ∷ rest

unfoldable pub trim_space : Text → Text
unfolding trim_left trim_right
trim_space s = trim_right (trim_left s)

abbrev add_to_first : ℕ → List Text → List Text
add_to_first c [] = (c ∷ []) ∷ []
add_to_first c (t ∷ ts) = (c ∷ t) ∷ ts

-- `strings.Split` at one code point.
unfoldable pub split : ℕ → Text → List Text
split sep [] = [] ∷ []
split sep (c ∷ s) =
    let parts = split sep s in if nat_beq c sep then [] ∷ parts else add_to_first c parts

-- `strings.Join` with one code point.
unfoldable pub join : ℕ → List Text → Text
join sep [] = []
join sep (t ∷ []) = t
join sep (t ∷ ts) = t ++ sep ∷ join sep ts

-- The rest of a text after a prefix, if it has it.
unfoldable pub cut_prefix : Text → Text → Option Text
cut_prefix [] s = some s
cut_prefix (p ∷ ps) [] = none
cut_prefix (p ∷ ps) (c ∷ s) = let rest = cut_prefix ps s in if nat_beq p c then rest else none

-- A test on every code point.
abbrev pub none_is : (ℕ → Bool) → Text → Bool
none_is p [] = true
none_is p (c ∷ s) = not (p c) && none_is p s

upper_code_not_lower : (u : Unicode) (c : ℕ) → is_lower (upper_code u c) ≡ false
unfolding upper_code
upper_code_not_lower u c = ground (arith, u.upper_not_lower c)

pub none_is-to_upper : (u : Unicode) (s : Text) → none_is is_lower (to_upper u s) ≡ true
unfolding to_upper
none_is-to_upper u [] = refl
none_is-to_upper u (c ∷ s) = rw (upper_code_not_lower u c) (none_is-to_upper u s)

none_is-trim_left : (p : ℕ → Bool) (s : Text) → none_is p s ≡ true → none_is p (trim_left s) ≡ true
unfolding trim_left
none_is-trim_left p [] h = refl
none_is-trim_left p (c ∷ s) h = ground (arith, none_is-trim_left p s)

none_is-trim_right :
    (p : ℕ → Bool) (s : Text) → none_is p s ≡ true → none_is p (trim_right s) ≡ true
unfolding trim_right
none_is-trim_right p [] h = refl
none_is-trim_right p (c ∷ s) h = ground (arith, none_is-trim_right p s)

pub none_is-trim_space :
    (p : ℕ → Bool) (s : Text) → none_is p s ≡ true → none_is p (trim_space s) ≡ true
unfolding trim_space
none_is-trim_space p s h = none_is-trim_right p (trim_left s) (none_is-trim_left p s h)
