-- ===== src/DbWriter/Settled.antt =====
-- The rows that services/db-writer/main.go tries in transactions that are committed.
use mathlib.Core.List.Permᴰ
use mathlib.Core.List.{Permᴰ}
use termino.Prelude.{
  ℕ, ◌+◌, ◌≡◌, refl, ap, subst, ◌∙◌, List, [], ◌∷◌, ◌++◌, Option, none, some, length, length-append,
  arith,
}
use termino.Prelude.Text.{Text}
use termino.DbWriter.{Row, Tx, skipped, not_begun, not_prepared, tried, inserted}

module _ {F : Type 0} where
  abbrev pub rows : List (Row F × Option Text) → List (Row F)
  rows [] = []
  rows ((r, e) ∷ rs) = r ∷ rows rs

  -- The rows tried in the transactions that were committed, whatever the database answered to each.
  -- One whose insertion failed is among them: the writer drops it with the others.
  abbrev pub settled : List (Tx F) → List (Row F)
  settled [] = []
  settled (tried rs none ∷ ts) = rows rs ++ settled ts
  settled (tried rs (some e) ∷ ts) = settled ts
  settled (skipped ∷ ts) = settled ts
  settled (not_begun ∷ ts) = settled ts
  settled (not_prepared ∷ ts) = settled ts

  -- The same with the answers to their insertion.
  abbrev pub answered : List (Tx F) → List (Row F × Option Text)
  answered [] = []
  answered (tried rs none ∷ ts) = rs ++ answered ts
  answered (tried rs (some e) ∷ ts) = answered ts
  answered (skipped ∷ ts) = answered ts
  answered (not_begun ∷ ts) = answered ts
  answered (not_prepared ∷ ts) = answered ts

  -- The rows that the database took without an error.
  abbrev pub stored : List (Row F × Option Text) → List (Row F)
  stored [] = []
  stored ((r, none) ∷ rs) = r ∷ stored rs
  stored ((r, some e) ∷ rs) = stored rs

  -- The rows whose insertion failed.
  abbrev pub lost : List (Row F × Option Text) → List (Row F)
  lost [] = []
  lost ((r, none) ∷ rs) = lost rs
  lost ((r, some e) ∷ rs) = r ∷ lost rs

  -- How many rows of committed transactions were taken without an error.
  abbrev pub accepted : List (Tx F) → ℕ
  accepted [] = 0
  accepted (tried rs none ∷ ts) = inserted rs + accepted ts
  accepted (tried rs (some e) ∷ ts) = accepted ts
  accepted (skipped ∷ ts) = accepted ts
  accepted (not_begun ∷ ts) = accepted ts
  accepted (not_prepared ∷ ts) = accepted ts

  rows-append : (xs ys : List (Row F × Option Text)) → rows (xs ++ ys) ≡ rows xs ++ rows ys
  rows-append [] ys = refl
  rows-append ((r, e) ∷ xs) ys = ap (◌∷◌ r) (rows-append xs ys)

  stored-append : (xs ys : List (Row F × Option Text)) → stored (xs ++ ys) ≡ stored xs ++ stored ys
  stored-append [] ys = refl
  stored-append ((r, none) ∷ xs) ys = ap (◌∷◌ r) (stored-append xs ys)
  stored-append ((r, some e) ∷ xs) ys = stored-append xs ys

  rows-answered : (ts : List (Tx F)) → rows (answered ts) ≡ settled ts
  rows-answered [] = refl
  rows-answered (tried rs none ∷ ts) =
      rows-append rs (answered ts) ∙ ap (◌++◌ (rows rs)) (rows-answered ts)
  rows-answered (tried rs (some e) ∷ ts) = rows-answered ts
  rows-answered (skipped ∷ ts) = rows-answered ts
  rows-answered (not_begun ∷ ts) = rows-answered ts
  rows-answered (not_prepared ∷ ts) = rows-answered ts

  rows-Permᴰ : (rs : List (Row F × Option Text)) → Permᴰ (rows rs) (stored rs ++ lost rs)
  rows-Permᴰ [] = Permᴰ.nil
  rows-Permᴰ ((r, none) ∷ rs) = Permᴰ.cons refl (rows-Permᴰ rs)
  rows-Permᴰ ((r, some e) ∷ rs) =
      Permᴰ.trans (Permᴰ.cons refl (rows-Permᴰ rs))
        (Permᴰ.symm (Permᴰ.middle r (stored rs) (lost rs)))

  pub settled-Permᴰ :
      (ts : List (Tx F)) → Permᴰ (settled ts) (stored (answered ts) ++ lost (answered ts))
  settled-Permᴰ ts =
      subst (λ xs. Permᴰ xs (stored (answered ts) ++ lost (answered ts))) (rows-answered ts)
        (rows-Permᴰ (answered ts))

  inserted-stored : (rs : List (Row F × Option Text)) → inserted rs ≡ length (stored rs)
  unfolding inserted
  inserted-stored [] = refl
  inserted-stored ((r, none) ∷ rs) = omega (arith, inserted-stored rs)
  inserted-stored ((r, some e) ∷ rs) = inserted-stored rs

  pub accepted-stored : (ts : List (Tx F)) → accepted ts ≡ length (stored (answered ts))
  accepted-stored [] = refl
  accepted-stored (tried rs none ∷ ts) =
      let h = ap length (stored-append rs (answered ts)) in
      omega (
        arith,
        h,
        length-append (stored rs) (stored (answered ts)),
        inserted-stored rs,
        accepted-stored ts,
      )
  accepted-stored (tried rs (some e) ∷ ts) = accepted-stored ts
  accepted-stored (skipped ∷ ts) = accepted-stored ts
  accepted-stored (not_begun ∷ ts) = accepted-stored ts
  accepted-stored (not_prepared ∷ ts) = accepted-stored ts
