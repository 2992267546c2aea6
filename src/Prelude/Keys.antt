-- ===== src/Prelude/Keys.antt =====
-- The keys of a map, and their number, through insertion of a new key and deletion.
use Prim.Native.Nat.{ℕ, suc}
use mathlib.Core.Path.{◌≡◌, refl}
use mathlib.Core.Bool.{true, false}
use mathlib.Core.Option.{none, some}
use mathlib.Core.List.{List, [], ◌∷◌, ◌++◌}
use native.Mathlib.Omega.{arith}
use termino.Prelude.Tests.{ltb, if◌then◌else◌}
use termino.Prelude.Lists.{length, All}
use termino.Prelude.Eq.{Eq, nat_eq, ◌==◌}
use termino.Prelude.Dict.{lookup, insert, delete, keys, member, IsDistinct}

abbrev pub remove : {K : Type 0} ⦃e : Eq K⦄ → K → List K → List K
remove k [] = []
remove k (j ∷ ks) = if j == k then remove k ks else j ∷ remove k ks

module _ {K V : Type 0} ⦃e : Eq K⦄ where
  pub keys-insert :
      (k : K) (v : V) (m : List (K × V))
      → member k (keys m) ≡ false
      → keys (insert k v m) ≡ keys m ++ k ∷ []
  keys-insert k v [] h = refl
  keys-insert k v ((j, w) ∷ m) h = ground (arith, keys-insert k v m)

  pub length-insert :
      (k : K) (v : V) (m : List (K × V))
      → member k (keys m) ≡ false
      → length (insert k v m) ≡ suc (length m)
  length-insert k v [] h = refl
  length-insert k v ((j, w) ∷ m) h = ground (arith, length-insert k v m)

  pub keys-delete : (k : K) (m : List (K × V)) → keys (delete k m) ≡ remove k (keys m)
  keys-delete k [] = refl
  keys-delete k ((j, w) ∷ m) = ground (arith, keys-delete k m)

  length-delete-absent :
      (k : K) (m : List (K × V)) → member k (keys m) ≡ false → length (delete k m) ≡ length m
  length-delete-absent k [] h = refl
  length-delete-absent k ((j, w) ∷ m) h = ground (arith, length-delete-absent k m)

  pub length-delete :
      (k : K) (v : V) (m : List (K × V))
      → IsDistinct (keys m)
      → lookup k m ≡ some v
      → length m ≡ suc (length (delete k m))
  length-delete k v [] d h = cc
  length-delete k v ((j, w) ∷ m) d h =
      ground (arith, e.beq_iff j k, length-delete k v m, length-delete-absent k m)

-- A number above all keys is none of them.
pub not_member-above :
    {V : Type 0} (n : ℕ) (m : List (ℕ × V))
    → All (λ x. ltb x.0 n ≡ true) m
    → member n (keys m) ≡ false
not_member-above n [] h = refl
not_member-above n ((j, w) ∷ m) h = ground (arith, not_member-above n m)

-- So it has no entry.
pub lookup-above :
    {V : Type 0} (n : ℕ) (m : List (ℕ × V)) → All (λ x. ltb x.0 n ≡ true) m → lookup n m ≡ none
lookup-above n [] h = refl
lookup-above n ((j, w) ∷ m) h = ground (arith, lookup-above n m)
