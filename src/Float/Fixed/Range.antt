-- ===== src/Float/Fixed/Range.antt =====
-- Numbers in hundredths keep the rules of `FloatRange`.
use termino.Prelude.{ℕ, ◌*◌, ◌/◌, ◌≤◌, ◌≡◌, ◌≢◌, refl, true, false, nat_beq, arith}
use termino.Prelude.Int.{pos, negsuc, ◌-ℤ◌, ◌*ℤ◌, leb_ℤ, int_beq}
use termino.Float.{FloatRange}
use termino.Float.Fixed.{
  Cents, nan, cents, div_ℤ, lift, test, quotient, truncated, fixed_float, fixed_order,
}

share : (p q : ℕ) → nat_beq q 0 ≡ false → p ≤ q → p * 100 / q ≤ 100
share p q h k = grind arith

div_range :
    (x y : Cents)
    → test int_beq y (cents (pos 0)) ≡ false
    → test leb_ℤ (cents (pos 0)) x ≡ true
    → test leb_ℤ x y ≡ true
    → (test leb_ℤ (cents (pos 0)) (quotient x y) ≡ true)
      × (test leb_ℤ (quotient x y) (cents (pos 100)) ≡ true)
div_range nan y e h k = cc
div_range (cents (negsuc a)) y e h k = absurd (ground arith)
div_range (cents (pos a)) nan e h k = cc
div_range (cents (pos a)) (cents (negsuc b)) e h k = absurd (ground arith)
div_range (cents (pos a)) (cents (pos b)) e h k = ground (arith, share a b)

scaled : (p n : ℕ) → p ≤ 100 → p * (n * 100) / 100 ≤ n * 100
scaled p n h = grind arith

mul_range :
    (x : Cents) (n : ℕ)
    → test leb_ℤ (cents (pos 0)) x ≡ true
    → test leb_ℤ x (cents (pos 100)) ≡ true
    → (test leb_ℤ (cents (pos 0)) (lift (λ a b. div_ℤ (a *ℤ b) 100) x (cents (pos (n * 100))))
        ≡ true)
      × (test leb_ℤ
            (lift (λ a b. div_ℤ (a *ℤ b) 100) x (cents (pos (n * 100))))
            (cents (pos (n * 100)))
          ≡ true)
unfolding ◌*ℤ◌
mul_range nan n h k = cc
mul_range (cents (negsuc a)) n h k = absurd (ground arith)
mul_range (cents (pos a)) n h k = ground (arith, scaled a n)

to_int_range :
    (x : Cents) (n : ℕ)
    → test leb_ℤ (cents (pos 0)) x ≡ true
    → test leb_ℤ x (cents (pos (n * 100))) ≡ true
    → (k : ℕ) × (truncated x ≡ pos k) × (k ≤ n)
to_int_range nan n h k = cc
to_int_range (cents (negsuc a)) n h k = absurd (ground arith)
to_int_range (cents (pos a)) n h k = (a / 100, refl, ground arith)

sub_self : (a : Cents) → a ≢ nan → lift ◌-ℤ◌ a a ≡ cents (pos 0)
unfolding ◌-ℤ◌
sub_self nan h = absurd (h refl)
sub_self (cents a) h = ground arith

sub_mono :
    (a b c : Cents)
    → a ≢ nan
    → test leb_ℤ b c ≡ true
    → test leb_ℤ (lift ◌-ℤ◌ b a) (lift ◌-ℤ◌ c a) ≡ true
unfolding ◌-ℤ◌
sub_mono nan b c h k = absurd (h refl)
sub_mono (cents a) nan c h k = cc
sub_mono (cents a) (cents b) nan h k = cc
sub_mono (cents a) (cents b) (cents c) h k = ground arith

le_of_eq : (a b : Cents) → test int_beq a b ≡ true → test leb_ℤ a b ≡ true
le_of_eq a b h = ground arith

unfoldable pub fixed_range : FloatRange fixed_order
unfolding fixed_float fixed_order le_of_eq sub_self sub_mono div_range mul_range to_int_range share
    scaled
fixed_range = record {
  IsFinite = λ a. a ≢ nan;
  finite_number = λ a h. h;
  finite_one = λ h. cc;
  le_of_eq = le_of_eq;
  zero_le_one = refl;
  one_ne_zero = refl;
  sub_self = sub_self;
  sub_mono = λ a b c h k l. sub_mono a b c h;
  div_range = λ x y h. div_range x y;
  mul_range = λ x n b. mul_range x n;
  to_int_range = λ x n b. to_int_range x n;
}
