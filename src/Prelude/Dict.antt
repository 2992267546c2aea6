-- ===== src/Prelude/Dict.antt =====
-- Go's maps: association lists whose keys stay distinct. An order of iteration is the order of the
-- list, which no statement about a map depends on.
use termino.Prelude.Tests.{if◌then◌else◌, Bool-cases}
use termino.Prelude.Lists.{All, All-map}
use mathlib.Core.Logic.{inl, inr}
use termino.Prelude.Eq.{Eq, ◌==◌}
use mathlib.Core.Path.{◌≡◌, refl, subst}
use mathlib.Core.Bool.{Bool, false, ◌||◌}
use mathlib.Core.Option.{Option, none, some}
use mathlib.Core.List.{List, [], ◌∷◌}
use native.Mathlib.Omega.{arith}

module _ {ℓ κ} {K : Type ℓ} {V : Type κ} ⦃e : Eq K⦄ where
  abbrev pub lookup : K → List (K × V) → Option V
  lookup k [] = none
  lookup k ((j, v) ∷ m) = if j == k then some v else lookup k m

  abbrev pub insert : K → V → List (K × V) → List (K × V)
  insert k v [] = (k, v) ∷ []
  insert k v ((j, w) ∷ m) = if j == k then (k, v) ∷ m else (j, w) ∷ insert k v m

  abbrev pub delete : K → List (K × V) → List (K × V)
  delete k [] = []
  delete k ((j, w) ∷ m) = if j == k then delete k m else (j, w) ∷ delete k m

  pub lookup-insert :
      (k j : K) (v : V) (m : List (K × V))
      → lookup j (insert k v m) ≡ (if k == j then some v else lookup j m)
  lookup-insert k j v [] = refl
  lookup-insert k j v ((i, w) ∷ m) =
      ground (arith, e.beq_iff k j, e.beq_iff i k, e.beq_iff i j, lookup-insert k j v m)

  pub lookup-delete :
      (k j : K) (m : List (K × V)) → lookup j (delete k m) ≡ (if k == j then none else lookup j m)
  lookup-delete k j [] = ground arith
  lookup-delete k j ((i, w) ∷ m) =
      ground (arith, e.beq_iff k j, e.beq_iff i k, e.beq_iff i j, lookup-delete k j m)

module _ {ℓ} {K : Type ℓ} ⦃e : Eq K⦄ where
  abbrev pub member : K → List K → Bool
  member x [] = false
  member x (y ∷ ys) = y == x || member x ys

  abbrev pub IsDistinct : List K → Type 0
  IsDistinct [] = Unit {0}
  IsDistinct (x ∷ xs) = (member x xs ≡ false) × IsDistinct xs

module _ {ℓ κ} {K : Type ℓ} {V : Type κ} ⦃e : Eq K⦄ where
  abbrev pub keys : List (K × V) → List K
  keys [] = []
  keys ((k, v) ∷ m) = k ∷ keys m

  pub member-insert :
      (x k : K) (v : V) (m : List (K × V))
      → member x (keys (insert k v m)) ≡ (k == x || member x (keys m))
  member-insert x k v [] = ground arith
  member-insert x k v ((j, w) ∷ m) =
      ground (arith, e.beq_iff j k, e.beq_iff j x, e.beq_iff k x, member-insert x k v m)

  pub insert-IsDistinct :
      (k : K) (v : V) (m : List (K × V)) → IsDistinct (keys m) → IsDistinct (keys (insert k v m))
  insert-IsDistinct k v [] h = ground arith
  insert-IsDistinct k v ((j, w) ∷ m) h =
      ground (arith, e.beq_iff j k, e.beq_iff k j, member-insert j k v m, insert-IsDistinct k v m)

  pub member-delete :
      (x k : K) (m : List (K × V))
      → member x (keys (delete k m)) ≡ (if k == x then false else member x (keys m))
  member-delete x k [] = ground arith
  member-delete x k ((j, w) ∷ m) =
      ground (arith, e.beq_iff j k, e.beq_iff j x, e.beq_iff k x, member-delete x k m)

  pub delete-IsDistinct :
      (k : K) (m : List (K × V)) → IsDistinct (keys m) → IsDistinct (keys (delete k m))
  delete-IsDistinct k [] h = h
  delete-IsDistinct k ((j, w) ∷ m) h = ground (arith, member-delete j k m, delete-IsDistinct k m)

-- A predicate on the entries, through the operations.
module _ {ℓ κ} {K : Type ℓ} {V : Type κ} ⦃e : Eq K⦄ {P Q : K × V → Type 0} where
  pub All-insert :
      (k : K) (v : V) (m : List (K × V))
      → Q (k, v)
      → ((x : K × V) → P x → Q x)
      → All P m
      → All Q (insert k v m)
  All-insert k v [] q f h = (q, tt)
  All-insert k v ((j, w) ∷ m) q f h = elim (Bool-cases (j == k)) [
    | inl t ↦ rw t (q, All-map f m h.1)
    | inr t ↦ rw t (f (j, w) h.0, All-insert k v m q f h.1)
  ]

  pub All-delete :
      (k : K) (m : List (K × V))
      → ((x : K × V) → (x.0 == k) ≡ false → P x → Q x)
      → All P m
      → All Q (delete k m)
  All-delete k [] f h = tt
  All-delete k ((j, w) ∷ m) f h = elim (Bool-cases (j == k)) [
    | inl t ↦ rw t (All-delete k m f h.1)
    | inr t ↦ rw t (f (j, w) t h.0, All-delete k m f h.1)
  ]

some_injective {ℓ} : {A : Type ℓ} {a b : A} → some a ≡ some b → a ≡ b
some_injective p = cc

-- What holds of all entries holds of the one that is found.
pub All-lookup {ℓ κ} :
    {K : Type ℓ} {V : Type κ} ⦃e : Eq K⦄ (P : V → Type 0) (k : K) (v : V) (m : List (K × V))
    → All (λ x. P x.1) m
    → lookup k m ≡ some v
    → P v
All-lookup P k v [] h e = cc
All-lookup P k v ((j, w) ∷ m) h e = elim (Bool-cases (j == k)) [
  | inl t ↦ subst P (some_injective (rw t at e)) h.0
  | inr t ↦ All-lookup P k v m h.1 (rw t at e)
]
