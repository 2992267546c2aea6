-- ===== src/Prelude/GoMap.antt =====
-- Go's maps as they look from outside: association lists up to the order of their entries.
use mathlib.Core.Path.{◌≡◌, ap}
use mathlib.Core.Option.{Option}
use mathlib.Core.List.{List}
use mathlib.Core.Quot
use mathlib.Core.Quot.{Quot, Quot-set}
use termino.Prelude.Eq.{Eq}
use termino.Prelude.Dict.{lookup}

-- Every key has the same value, or none.
abbrev pub SameEntries : {K V : Type 0} ⦃e : Eq K⦄ → List (K × V) → List (K × V) → Type 0
SameEntries {K} m n = (k : K) → lookup k m ≡ lookup k n

abbrev pub GoMap : (K V : Type 0) ⦃e : Eq K⦄ → Type 0
GoMap K V = Quot {α = List (K × V)} SameEntries

abbrev pub go_map : {K V : Type 0} ⦃e : Eq K⦄ → List (K × V) → GoMap K V
go_map = Quot.mk

module _ {K V : Type 0} ⦃e : Eq K⦄ (set : IsSet (Option V)) where
  -- The value of a key does not depend on the order.
  abbrev pub get : K → GoMap K V → Option V
  get k = Quot.lift set (lookup k) (λ m n h. h k)

  pub go_map-exact :
      (m n : List (K × V)) → ◌≡◌ {A = GoMap K V} (go_map m) (go_map n) → SameEntries m n
  go_map-exact m n h k = ap (get k) h
