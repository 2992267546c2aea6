-- ===== src/Float/Fixed.antt =====
-- A concrete `Float`: numbers in hundredths, and a NaN. It shows that the interface's facts can
-- hold, and lets the definitions run in tests.
pub mod Range
use termino.Prelude.{
  ℕ, suc, ◌+◌, ◌*◌, ◌/◌, ◌%◌, ◌^◌, ◌≡◌, ◌≢◌, [], Bool, true, false, ◌∷◌, ◌++◌, arith, nat_beq,
  if◌then◌else◌,
}
use termino.Prelude.Text.{Text}
use termino.Prelude.Int.{
  ℤ, pos, negsuc, pos_part, neg_part, sub_ℕ, ◌+ℤ◌, ◌-ℤ◌, ◌*ℤ◌, ltb_ℤ, leb_ℤ, int_beq,
}
use termino.Prelude.Decimal.{print_nat}
use termino.Float.{Float, FloatOrder}

pub data Cents : Type 0 where
  nan : Cents
  cents : ℤ → Cents

-- Division rounds towards zero.
abbrev pub div_ℤ : ℤ → ℕ → ℤ
div_ℤ (pos n) d = pos (n / d)
div_ℤ (negsuc n) d = sub_ℕ 0 (suc n / d)

abbrev pub lift : (ℤ → ℤ → ℤ) → Cents → Cents → Cents
lift f (cents a) (cents b) = cents (f a b)
lift f _ _ = nan

abbrev pub test : (ℤ → ℤ → Bool) → Cents → Cents → Bool
test f (cents a) (cents b) = f a b
test f _ _ = false

abbrev pub quotient : Cents → Cents → Cents
quotient (cents a) (cents (pos n)) =
    if nat_beq n 0 then nan else cents (div_ℤ (sub_ℕ (pos_part a * 100) (neg_part a * 100)) n)
quotient (cents a) (cents (negsuc n)) =
    cents (div_ℤ (sub_ℕ (neg_part a * 100) (pos_part a * 100)) (suc n))
quotient _ _ = nan

abbrev pub truncated : Cents → ℤ
truncated nan = negsuc 0
truncated (cents a) = div_ℤ a 100

two_digits : ℕ → Text
two_digits n = (n / 10 % 10 + b'0') ∷ (n % 10 + b'0') ∷ []

print_cents : ℕ → Cents → Text
print_cents k nan = b'N' ∷ b'a' ∷ b'N' ∷ []
print_cents k (cents (pos n)) = print_nat (n / 100) ++ b'.' ∷ two_digits (n % 100)
print_cents k (cents (negsuc n)) = b'-' ∷ print_nat (suc n / 100) ++ b'.' ∷ two_digits (suc n % 100)

instance unfoldable pub fixed_float : Float Cents
unfolding ◌+ℤ◌ ◌-ℤ◌ ◌*ℤ◌ print_cents two_digits print_nat
fixed_float = record {
  add = lift ◌+ℤ◌;
  sub = lift ◌-ℤ◌;
  mul = lift (λ a b. div_ℤ (a *ℤ b) 100);
  div = quotient;
  lt = test ltb_ℤ;
  le = test leb_ℤ;
  eq = test int_beq;
  of_nat = λ n. cents (pos (n * 100));
  decimal = λ n k. cents (pos (n * 100 / 10 ^ k));
  to_int = truncated;
  fixed = print_cents;
}

le_refl : (a : Cents) → a ≢ nan → test leb_ℤ a a ≡ true
le_refl a h = ground arith

le_trans : (a b c : Cents) → test leb_ℤ a b ≡ true → test leb_ℤ b c ≡ true → test leb_ℤ a c ≡ true
le_trans a b c h k = ground arith

le_of_lt : (a b : Cents) → test ltb_ℤ a b ≡ true → test leb_ℤ a b ≡ true
le_of_lt a b h = ground arith

le_of_not_lt : (a b : Cents) → a ≢ nan → b ≢ nan → test ltb_ℤ a b ≡ false → test leb_ℤ b a ≡ true
le_of_not_lt a b h k e = ground arith

unfoldable pub fixed_order : FloatOrder fixed_float
unfolding fixed_float le_refl le_trans le_of_lt le_of_not_lt
fixed_order = record {
  IsNumber = λ a. a ≢ nan;
  le_refl = le_refl;
  le_trans = le_trans;
  le_of_lt = le_of_lt;
  le_of_not_lt = le_of_not_lt;
}
