-- ===== src/Float.antt =====
-- Go's `float64`, as an interface: the operations that the program calls, and the documented facts
-- of IEEE 754 comparison that its correctness rests on.
use termino.Prelude.{ℕ, ◌≤◌, ◌≡◌, Bool, true, false}
use termino.Prelude.Int.{ℤ, pos}
use termino.Prelude.Text.{Text}
pub mod Fixed

pub record Float (F : Type 0) : Type 0 where
  pub add : F → F → F
  pub sub : F → F → F
  pub mul : F → F → F
  pub div : F → F → F
  -- Go's `<`, `<=` and `==`.
  pub lt : F → F → Bool
  pub le : F → F → Bool
  pub eq : F → F → Bool
  -- The conversion of a length, and an integer constant.
  pub of_nat : ℕ → F
  -- The constant that is the first number divided by ten to the second.
  pub decimal : ℕ → ℕ → F
  -- The conversion to `int`; Go leaves open what a NaN or a value out of range gives.
  pub to_int : F → ℤ
  -- `fmt.Sprintf("%.<digits>f", x)`.
  pub fixed : ℕ → F → Text

-- IEEE 754 comparison on values that are not NaN (`IsNumber`); any comparison with a NaN is false.
pub record FloatOrder {F : Type 0} (fl : Float F) : Type 1 where
  pub IsNumber : F → Type 0
  pub le_refl : (a : F) → IsNumber a → fl.le a a ≡ true
  pub le_trans : (a b c : F) → fl.le a b ≡ true → fl.le b c ≡ true → fl.le a c ≡ true
  pub le_of_lt : (a b : F) → fl.lt a b ≡ true → fl.le a b ≡ true
  pub le_of_not_lt : (a b : F) → IsNumber a → IsNumber b → fl.lt a b ≡ false → fl.le b a ≡ true

-- IEEE 754 arithmetic rounds monotonically: what holds of a difference, a share and a product of
-- finite values in range. The conversion to `int` truncates. The whole numbers are small ones, which
-- a `float64` and an `int` hold exactly.
pub record FloatRange {F : Type 0} {fl : Float F} (o : FloatOrder fl) : Type 1 where
  pub IsFinite : F → Type 0
  pub finite_number : (a : F) → IsFinite a → o.IsNumber a
  pub finite_one : IsFinite (fl.of_nat 1)
  pub le_of_eq : (a b : F) → fl.eq a b ≡ true → fl.le a b ≡ true
  pub zero_le_one : fl.le (fl.of_nat 0) (fl.of_nat 1) ≡ true
  pub one_ne_zero : fl.eq (fl.of_nat 1) (fl.of_nat 0) ≡ false
  pub sub_self : (a : F) → IsFinite a → fl.sub a a ≡ fl.of_nat 0
  pub sub_mono :
      (a b c : F)
      → IsFinite a
      → IsFinite b
      → IsFinite c
      → fl.le b c ≡ true
      → fl.le (fl.sub b a) (fl.sub c a) ≡ true
  pub div_range :
      (x y : F)
      → IsFinite y
      → fl.eq y (fl.of_nat 0) ≡ false
      → fl.le (fl.of_nat 0) x ≡ true
      → fl.le x y ≡ true
      → (fl.le (fl.of_nat 0) (fl.div x y) ≡ true) × (fl.le (fl.div x y) (fl.of_nat 1) ≡ true)
  pub mul_range :
      (x : F) (n : ℕ)
      → n ≤ 1000
      → fl.le (fl.of_nat 0) x ≡ true
      → fl.le x (fl.of_nat 1) ≡ true
      → (fl.le (fl.of_nat 0) (fl.mul x (fl.of_nat n)) ≡ true)
        × (fl.le (fl.mul x (fl.of_nat n)) (fl.of_nat n) ≡ true)
  pub to_int_range :
      (x : F) (n : ℕ)
      → n ≤ 1000
      → fl.le (fl.of_nat 0) x ≡ true
      → fl.le x (fl.of_nat n) ≡ true
      → (k : ℕ) × (fl.to_int x ≡ pos k) × (k ≤ n)
