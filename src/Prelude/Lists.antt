-- ===== src/Prelude/Lists.antt =====
-- Lists measured and cut by native numbers, and a predicate on all elements.
use Prim.Native.Nat.{ℕ, zero, suc, ◌+◌, ◌-◌, ◌≤◌}
use mathlib.Core.Path.{◌≡◌, refl, sym, ap, ◌∙◌}
use mathlib.Core.Bool.{Bool}
use mathlib.Core.List.{List, [], ◌∷◌, ◌++◌}
use native.Mathlib.Nat.{suc-add}
use native.Mathlib.Omega.{arith}
use termino.Prelude.Tests.{if◌then◌else◌}

module _ {ℓ} {A : Type ℓ} where
  abbrev pub length : List A → ℕ
  length [] = 0
  length (x ∷ xs) = suc (length xs)

  abbrev pub take : ℕ → List A → List A
  take zero xs = []
  take (suc n) [] = []
  take (suc n) (x ∷ xs) = x ∷ take n xs

  abbrev pub drop : ℕ → List A → List A
  drop zero xs = xs
  drop (suc n) [] = []
  drop (suc n) (x ∷ xs) = drop n xs

  -- The elements that pass a Boolean test.
  abbrev pub select : (A → Bool) → List A → List A
  select p [] = []
  select p (x ∷ xs) = if p x then x ∷ select p xs else select p xs

  pub length-append : (xs ys : List A) → length (xs ++ ys) ≡ length xs + length ys
  length-append [] ys = omega arith
  length-append (x ∷ xs) ys = omega (arith, length-append xs ys)

  pub length-drop : (n : ℕ) (xs : List A) → length (drop n xs) ≡ length xs - n
  length-drop zero xs = omega arith
  length-drop (suc n) [] = omega arith
  length-drop (suc n) (x ∷ xs) = omega (arith, length-drop n xs)

  pub drop-append : (n : ℕ) (xs ys : List A) → n ≤ length xs → drop n (xs ++ ys) ≡ drop n xs ++ ys
  drop-append zero xs ys h = refl
  drop-append (suc n) [] ys h = absurd (omega arith)
  drop-append (suc n) (x ∷ xs) ys h = drop-append n xs ys (omega arith)

  pub drop-nil : (n : ℕ) → ◌≡◌ {A = List A} (drop n []) []
  drop-nil zero = refl
  drop-nil (suc n) = refl

  pub drop-drop : (m n : ℕ) (xs : List A) → drop m (drop n xs) ≡ drop (n + m) xs
  drop-drop m zero xs = ap (λ (k : ℕ). drop k xs) (omega arith)
  drop-drop m (suc n) [] = drop-nil m ∙ sym (drop-nil (suc n + m))
  drop-drop m (suc n) (x ∷ xs) =
      drop-drop m n xs ∙ ap (λ (k : ℕ). drop k (x ∷ xs)) (sym (suc-add n m))

  -- The last `n` elements, as Go's `xs[len(xs)-n:]` under the guard `len(xs) > n`.
  abbrev pub last : ℕ → List A → List A
  last n xs = drop (length xs - n) xs

  pub length-last : (n : ℕ) (xs : List A) → length (last n xs) ≤ n
  length-last n xs = omega (arith, length-drop (length xs - n) xs)

  -- A window that is cut after each append holds the last elements of the whole.
  pub last-last-append : (n : ℕ) (xs ys : List A) → last n (last n xs ++ ys) ≡ last n (xs ++ ys)
  last-last-append n xs ys =
      let d : ℕ = length xs - n in
      ap (drop _) (sym (drop-append d xs ys (omega arith)))
      ∙ drop-drop _ d (xs ++ ys)
      ∙ ap (λ (k : ℕ). drop k (xs ++ ys))
          (omega (arith, length-append (last n xs) ys, length-append xs ys, length-drop d xs))

  pub select-append :
      (p : A → Bool) (xs ys : List A) → select p (xs ++ ys) ≡ select p xs ++ select p ys
  select-append p [] ys = refl
  select-append p (x ∷ xs) ys = ground (arith, select-append p xs ys)

abbrev pub All {ℓ κ} : {A : Type ℓ} → (A → Type κ) → List A → Type κ
All P [] = Unit
All P (x ∷ xs) = P x × All P xs

pub All-append {ℓ κ} :
    {A : Type ℓ} (P : A → Type κ) (xs ys : List A) → All P xs → All P ys → All P (xs ++ ys)
All-append P [] ys h k = k
All-append P (x ∷ xs) ys h k = (h.0, All-append P xs ys h.1 k)

pub All-drop {ℓ κ} :
    {A : Type ℓ} (P : A → Type κ) (n : ℕ) (xs : List A) → All P xs → All P (drop n xs)
All-drop P zero xs h = h
All-drop P (suc n) [] h = h
All-drop P (suc n) (x ∷ xs) h = All-drop P n xs h.1

pub All-map2 {ℓ κ} :
    {A : Type ℓ} {P Q R : A → Type κ} (f : (x : A) → P x → Q x → R x) (xs : List A)
    → All P xs
    → All Q xs
    → All R xs
All-map2 f [] h k = h
All-map2 f (x ∷ xs) h k = (f x h.0 k.0, All-map2 f xs h.1 k.1)

pub select-ext {ℓ} :
    {A : Type ℓ} (p q : A → Bool) (xs : List A)
    → All (λ x. p x ≡ q x) xs
    → select p xs ≡ select q xs
select-ext p q [] h = refl
select-ext p q (x ∷ xs) h = ground (arith, h.0, select-ext p q xs h.1)

pub All-of {ℓ κ} : {A : Type ℓ} {P : A → Type κ} (f : (x : A) → P x) (xs : List A) → All P xs
All-of f [] = tt
All-of f (x ∷ xs) = (f x, All-of f xs)

pub All-map {ℓ κ} :
    {A : Type ℓ} {P R : A → Type κ} (f : (x : A) → P x → R x) (xs : List A) → All P xs → All R xs
All-map f [] h = h
All-map f (x ∷ xs) h = (f x h.0, All-map f xs h.1)
