-- ===== src/Prelude/Entries.antt =====
-- What insertion and deletion do to one entry of a map over numbers.
use Prim.Native.Nat.{ℕ}
use mathlib.Core.Path.{◌≡◌, sym, ◌∙◌}
use mathlib.Core.Logic.{inl, inr}
use mathlib.Core.Bool.{true, false}
use mathlib.Core.Option.{Option, none, some}
use mathlib.Core.List.{List}
use native.Mathlib.Omega.{arith}
use termino.Prelude.Tests.{ltb, Bool-cases}
use termino.Prelude.Eq.{nat_eq, ◌==◌, beq_self}
use termino.Prelude.Dict.{lookup, insert, delete, lookup-insert, lookup-delete}

pub same_inserted :
    {V : Type 0} (ch j : ℕ) (v : V) (m : List (ℕ × V))
    → (ch == j) ≡ true
    → lookup j (insert ch v m) ≡ some v
same_inserted ch j v m h = lookup-insert ch j v m ∙ rw h

pub other_kept :
    {V : Type 0} (ch j : ℕ) (v : V) (w : Option V) (m : List (ℕ × V))
    → (ch == j) ≡ false
    → lookup j m ≡ w
    → lookup j (insert ch v m) ≡ w
other_kept ch j v w m n h = lookup-insert ch j v m ∙ rw n h

pub lookup-insert_self :
    {V : Type 0} (ch : ℕ) (v : V) (m : List (ℕ × V)) → lookup ch (insert ch v m) ≡ some v
lookup-insert_self ch v m = lookup-insert ch ch v m ∙ rw (beq_self ch)

pub other_not_deleted :
    {V : Type 0} (ch j : ℕ) (w : Option V) (m : List (ℕ × V))
    → (ch == j) ≡ false
    → lookup j m ≡ w
    → lookup j (delete ch m) ≡ w
other_not_deleted ch j w m n h = lookup-delete ch j m ∙ rw n h

pub kept_after_delete :
    {V : Type 0} (ch j : ℕ) (v : V) (m : List (ℕ × V))
    → lookup j (delete ch m) ≡ some v
    → ((ch == j) ≡ false) × (lookup j m ≡ some v)
kept_after_delete {V} ch j v m h = elim (Bool-cases (ch == j)) [
  | inl e ↦ absurd (none_not_some (rw e at (sym (lookup-delete ch j m) ∙ h)))
  | inr e ↦ (e, rw e at (sym (lookup-delete ch j m) ∙ h))
]
  where
    none_not_some : ◌≡◌ {A = Option V} none (some v) → ⊥
    none_not_some e = cc

pub not_below_self : (j ch : ℕ) → ltb j ch ≡ true → (ch == j) ≡ false
not_below_self j ch h = ground arith

pub flipped : (j ch : ℕ) → (j == ch) ≡ false → (ch == j) ≡ false
flipped j ch h = ground arith
