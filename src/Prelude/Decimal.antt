-- ===== src/Prelude/Decimal.antt =====
-- Decimal text: `strconv.Itoa`, `fmt.Sprintf("%d", n)` and `strconv.Atoi` on a 64-bit `int`.
use Prim.Native.Nat.{ℕ, zero, suc, ◌+◌, ◌-◌, ◌*◌, ◌/◌, ◌%◌, ◌^◌, ◌<◌}
use mathlib.Core.Path.{◌≡◌, sym, ap, ◌∙◌}
use mathlib.Core.Option.{some-injective}
use mathlib.Core.Bool.{Bool, true, ◌&&◌}
use mathlib.Core.Option.{Option, none, some}
use mathlib.Core.List.{[], ◌∷◌, ◌++◌}
use mathlib.Core.Logic.{inl, inr}
use native.Mathlib.Omega.{arith}
use termino.Prelude.Tests.{ltb, leb, nat_beq, if◌then◌else◌, Bool-cases}
use termino.Prelude.Int.{ℤ, pos, negsuc}
use termino.Prelude.Text.{Text}

abbrev pub is_digit : ℕ → Bool
is_digit c = leb b'0' c && leb c b'9'

-- The digits of `n`, the last one first written; the fuel bounds their number.
digits_fuel : ℕ → ℕ → Text
digits_fuel zero n = []
digits_fuel (suc f) n =
    let front = digits_fuel f (n / 10) in
    if ltb n 10 then (n + b'0') ∷ [] else front ++ (n % 10 + b'0') ∷ []

unfoldable pub print_nat : ℕ → Text
unfolding digits_fuel
print_nat n = digits_fuel (suc n) n

unfoldable pub itoa : ℤ → Text
unfolding print_nat
itoa (pos n) = print_nat n
itoa (negsuc n) = b'-' ∷ print_nat (suc n)

-- A run of digits read from the left; any other character is an error.
parse_digits : ℕ → Text → Option ℕ
parse_digits acc [] = some acc
parse_digits acc (c ∷ s) =
    let rest = parse_digits (acc * 10 + (c - b'0')) s in if is_digit c then rest else none

parse_nat : Text → Option ℕ
unfolding parse_digits
parse_nat [] = none
parse_nat (c ∷ s) = parse_digits 0 (c ∷ s)

abbrev pub int_limit : ℕ
int_limit = 2 ^ 63

-- The value must fit a signed 64-bit integer.
pos_in_range : Option ℕ → Option ℤ
pos_in_range none = none
pos_in_range (some n) = if ltb n int_limit then some (pos n) else none

neg_in_range : Option ℕ → Option ℤ
neg_in_range none = none
neg_in_range (some zero) = some (pos 0)
neg_in_range (some (suc n)) = if ltb n int_limit then some (negsuc n) else none

unfoldable pub atoi : Text → Option ℤ
unfolding parse_nat pos_in_range neg_in_range
atoi [] = none
atoi (c ∷ s) =
    if nat_beq c b'-'
    then neg_in_range (parse_nat s)
    else if nat_beq c b'+'
    then pos_in_range (parse_nat s)
    else pos_in_range (parse_nat (c ∷ s))

parse_digits-append :
    (acc : ℕ) (s : Text) (c v : ℕ)
    → parse_digits acc s ≡ some v
    → is_digit c ≡ true
    → parse_digits acc (s ++ c ∷ []) ≡ some (v * 10 + (c - b'0'))
unfolding parse_digits
parse_digits-append acc [] c v h d = ground arith
parse_digits-append acc (x ∷ s) c v h d =
    ground (arith, parse_digits-append (acc * 10 + (x - b'0')) s c v)

parse_digits-one : (n : ℕ) → n < 10 → parse_digits 0 ((n + b'0') ∷ []) ≡ some n
unfolding parse_digits
parse_digits-one n h = ground arith

is_digit_code : (n : ℕ) → is_digit (n % 10 + b'0') ≡ true
is_digit_code n = ground arith

parse_digits-digits_fuel : (f n : ℕ) → n < f → parse_digits 0 (digits_fuel f n) ≡ some n
unfolding digits_fuel
parse_digits-digits_fuel zero n h = absurd (omega arith)
parse_digits-digits_fuel (suc f) n h = elim (Bool-cases (ltb n 10)) [
  | inl short ↦ rw short (parse_digits-one n (ground arith))
  | inr long ↦ rw long (
      parse_digits-append 0 (digits_fuel f (n / 10)) (n % 10 + b'0') (n / 10)
        (parse_digits-digits_fuel f (n / 10) (ground arith)) (is_digit_code n)
      ∙ ap {B = Option ℕ} some (omega arith))
]

-- Different numbers are printed differently.
pub print_nat_injective : (m n : ℕ) → print_nat m ≡ print_nat n → m ≡ n
unfolding print_nat
print_nat_injective m n h = some-injective _ _ (
    sym (parse_digits-digits_fuel (suc m) m (omega arith))
    ∙ ap (parse_digits 0) h
    ∙ parse_digits-digits_fuel (suc n) n (omega arith))

-- A printed number starts with a digit, so it is read without a sign.
abbrev StartsWithDigit : Text → Type 0
StartsWithDigit [] = ⊥
StartsWithDigit (c ∷ s) = is_digit c ≡ true

StartsWithDigit-append : (s t : Text) → StartsWithDigit s → StartsWithDigit (s ++ t)
StartsWithDigit-append [] t h = absurd h
StartsWithDigit-append (c ∷ s) t h = h

digits_fuel-StartsWithDigit : (f n : ℕ) → n < f → StartsWithDigit (digits_fuel f n)
unfolding digits_fuel
digits_fuel-StartsWithDigit zero n h = absurd (omega arith)
digits_fuel-StartsWithDigit (suc f) n h = elim (Bool-cases (ltb n 10)) [
  | inl short ↦ rw short (ground arith)
  | inr long ↦ rw long (
      StartsWithDigit-append (digits_fuel f (n / 10)) _
        (digits_fuel-StartsWithDigit f (n / 10) (ground arith)))
]

atoi_of_digits :
    (s : Text) (n : ℕ)
    → StartsWithDigit s
    → parse_digits 0 s ≡ some n
    → n < int_limit
    → atoi s ≡ some (pos n)
unfolding atoi
atoi_of_digits [] n d h b = absurd d
atoi_of_digits (c ∷ s) n d h b = ground arith

atoi-itoa_pos : (n : ℕ) → n < int_limit → atoi (itoa (pos n)) ≡ some (pos n)
unfolding itoa
atoi-itoa_pos n h =
    atoi_of_digits _ n (digits_fuel-StartsWithDigit (suc n) n (omega arith))
      (parse_digits-digits_fuel (suc n) n (omega arith)) h

atoi_of_negative :
    (s : Text) (n : ℕ)
    → StartsWithDigit s
    → parse_digits 0 s ≡ some (suc n)
    → n < int_limit
    → atoi (b'-' ∷ s) ≡ some (negsuc n)
unfolding atoi
atoi_of_negative [] n d h b = absurd d
atoi_of_negative (c ∷ s) n d h b = ground arith

-- The integers of 64 bits.
abbrev pub FitsInt : ℤ → Type 0
FitsInt (pos n) = n < int_limit
FitsInt (negsuc n) = n < int_limit

-- `Atoi` reads back what `Itoa` writes.
pub atoi-itoa : (n : ℤ) → FitsInt n → atoi (itoa n) ≡ some n
unfolding itoa
atoi-itoa (pos n) h = atoi-itoa_pos n h
atoi-itoa (negsuc n) h =
    atoi_of_negative _ n (digits_fuel-StartsWithDigit (suc (suc n)) (suc n) (omega arith))
      (parse_digits-digits_fuel (suc (suc n)) (suc n) (omega arith)) h

pos_in_range-FitsInt : (o : Option ℕ) (n : ℤ) → pos_in_range o ≡ some n → FitsInt n
unfolding pos_in_range
pos_in_range-FitsInt none n h = cc
pos_in_range-FitsInt (some k) (pos m) h = ground arith
pos_in_range-FitsInt (some k) (negsuc m) h = ground arith

neg_in_range-FitsInt : (o : Option ℕ) (n : ℤ) → neg_in_range o ≡ some n → FitsInt n
unfolding neg_in_range
neg_in_range-FitsInt none n h = cc
neg_in_range-FitsInt (some zero) (pos m) h = ground arith
neg_in_range-FitsInt (some zero) (negsuc m) h = ground arith
neg_in_range-FitsInt (some (suc k)) (pos m) h = ground arith
neg_in_range-FitsInt (some (suc k)) (negsuc m) h = ground arith

-- Whatever `Atoi` accepts fits 64 bits.
pub atoi-FitsInt : (s : Text) (n : ℤ) → atoi s ≡ some n → FitsInt n
unfolding atoi
atoi-FitsInt [] n h = cc
atoi-FitsInt (c ∷ s) n h = elim (Bool-cases (nat_beq c b'-')) [
  | inl e ↦ neg_in_range-FitsInt (parse_nat s) n (rw e at h)
  | inr e ↦ elim (Bool-cases (nat_beq c b'+')) [
    | inl f ↦ pos_in_range-FitsInt (parse_nat s) n (rw (e, f) at h)
    | inr f ↦ pos_in_range-FitsInt (parse_nat (c ∷ s)) n (rw (e, f) at h)
  ]
]
