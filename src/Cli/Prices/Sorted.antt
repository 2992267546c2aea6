-- ===== src/Cli/Prices/Sorted.antt =====
-- cli/crypto-stream/ui/prices.go: the rows of the table, in the order of `sort.Strings`.
use mathlib.Core.List.Permᴰ
use mathlib.Core.List.{Permᴰ}
use termino.Prelude.{
  ◌≡◌, refl, ap, ◌∙◌, true, false, List, [], ◌∷◌, arith, Bool-cases, inl, inr, All, All-map,
}
use termino.Prelude.Text.{Text, text_eq}
use termino.Prelude.Dict.{lookup}
use termino.Prelude.GoMap.{SameEntries}
use termino.Float.{Float}
use termino.Models.{AggregatedPrice}
use termino.Cli.{Table, Msg, Look}
use termino.Cli.Prices.{
  PriceModel, text_le, insert_sorted, sort_strings, row_for, rows_for, update_table,
}

text_le_total : (s t : Text) → text_le s t ≡ false → text_le t s ≡ true
unfolding text_le
text_le_total [] t h = ground arith
text_le_total (a ∷ s) [] h = refl
text_le_total (a ∷ s) (b ∷ t) h = ground (arith, text_le_total s t)

text_le_antisym : (s t : Text) → text_le s t ≡ true → text_le t s ≡ true → s ≡ t
unfolding text_le
text_le_antisym [] [] h k = refl
text_le_antisym [] (b ∷ t) h k = cc
text_le_antisym (a ∷ s) [] h k = cc
text_le_antisym (a ∷ s) (b ∷ t) h k = ground (arith, text_le_antisym s t)

text_le_trans : (s t v : Text) → text_le s t ≡ true → text_le t v ≡ true → text_le s v ≡ true
unfolding text_le
text_le_trans [] t v h k = refl
text_le_trans (a ∷ s) [] v h k = cc
text_le_trans (a ∷ s) (b ∷ t) [] h k = cc
text_le_trans (a ∷ s) (b ∷ t) (c ∷ v) h k = ground (arith, text_le_trans s t v)

insert_sorted-swap :
    (s t : Text) (xs : List Text)
    → insert_sorted s (insert_sorted t xs) ≡ insert_sorted t (insert_sorted s xs)
unfolding insert_sorted
insert_sorted-swap s t [] =
    ground (arith, text_le_total s t, text_le_total t s, text_le_antisym s t)
insert_sorted-swap s t (x ∷ xs) = ground (
  arith,
  insert_sorted-swap s t xs,
  text_le_total s t,
  text_le_total t s,
  text_le_antisym s t,
  text_le_trans s t x,
  text_le_trans t s x,
)

sort_strings_unique : {xs ys : List Text} → Permᴰ xs ys → sort_strings xs ≡ sort_strings ys
unfolding sort_strings
sort_strings_unique Permᴰ.nil = refl
sort_strings_unique (Permᴰ.cons {b = b} {l₁ = xs} e p) =
    ap (λ a. insert_sorted a (sort_strings xs)) e ∙ ap (insert_sorted b) (sort_strings_unique p)
sort_strings_unique (Permᴰ.swap {a = a} {b = b} {a' = c} {b' = d} {l = xs} e f) =
    insert_sorted-swap a b (sort_strings xs)
    ∙ ap (λ x. insert_sorted x (insert_sorted a (sort_strings xs))) f
    ∙ ap (λ x. insert_sorted c (insert_sorted x (sort_strings xs))) e
sort_strings_unique (Permᴰ.trans p q) = sort_strings_unique p ∙ sort_strings_unique q

-- Each text comes before all that follow it.
abbrev pub IsSorted : List Text → Type 0
IsSorted [] = Unit {0}
IsSorted (x ∷ xs) = All (λ y. text_le x y ≡ true) xs × IsSorted xs

All-insert_sorted :
    (P : Text → Type 0) (t : Text) (xs : List Text) → P t → All P xs → All P (insert_sorted t xs)
unfolding insert_sorted
All-insert_sorted P t [] p h = (p, tt)
All-insert_sorted P t (x ∷ xs) p h = elim (Bool-cases (text_le t x)) [
  | inl e ↦ rw e (p, h)
  | inr e ↦ rw e (h.0, All-insert_sorted P t xs p h.1)
]

insert_sorted-IsSorted : (t : Text) (xs : List Text) → IsSorted xs → IsSorted (insert_sorted t xs)
unfolding insert_sorted
insert_sorted-IsSorted t [] h = (tt, tt)
insert_sorted-IsSorted t (x ∷ xs) h = elim (Bool-cases (text_le t x)) [
  | inl e ↦ rw e ((e, All-map (λ y k. text_le_trans t x y e k) xs h.0), h)
  | inr e ↦ rw e (
    All-insert_sorted (λ y. text_le x y ≡ true) t xs (text_le_total t x e) h.0,
    insert_sorted-IsSorted t xs h.1,
  )
]

insert_sorted-Permᴰ : (t : Text) (xs : List Text) → Permᴰ (t ∷ xs) (insert_sorted t xs)
unfolding insert_sorted
insert_sorted-Permᴰ t [] = Permᴰ.refl (t ∷ [])
insert_sorted-Permᴰ t (x ∷ xs) = elim (Bool-cases (text_le t x)) [
  | inl e ↦ rw e (Permᴰ.refl (t ∷ x ∷ xs))
  | inr e ↦ rw e (Permᴰ.trans (Permᴰ.swap refl refl) (Permᴰ.cons refl (insert_sorted-Permᴰ t xs)))
]

sort_strings-IsSorted : (xs : List Text) → IsSorted (sort_strings xs)
unfolding sort_strings
sort_strings-IsSorted [] = tt
sort_strings-IsSorted (x ∷ xs) =
    insert_sorted-IsSorted x (sort_strings xs) (sort_strings-IsSorted xs)

sort_strings-Permᴰ : (xs : List Text) → Permᴰ xs (sort_strings xs)
unfolding sort_strings
sort_strings-Permᴰ [] = Permᴰ.nil
sort_strings-Permᴰ (x ∷ xs) =
    Permᴰ.trans (Permᴰ.cons refl (sort_strings-Permᴰ xs)) (insert_sorted-Permᴰ x (sort_strings xs))

module _ {F T : Type 0} ⦃fl : Float F⦄ (look : Look) (tb : Table (Msg (AggregatedPrice F)) T) where
  -- The rows are those of the symbols in order, each as often as it was asked for.
  pub record IsListed (m : PriceModel F T) (table : T) : Type 0 where
    pub shown : List Text
    pub sorted : IsSorted shown
    pub complete : Permᴰ m.symbols shown
    pub rows : table ≡ tb.set_rows (rows_for look tb shown m.prices) m.table

  rows_for-SameEntries :
      (ss : List Text) (p q : List (Text × AggregatedPrice F))
      → SameEntries p q
      → rows_for look tb ss p ≡ rows_for look tb ss q
  unfolding rows_for
  rows_for-SameEntries [] p q h = refl
  rows_for-SameEntries (s ∷ ss) p q h =
      ap (λ o. row_for look tb s o ∷ rows_for look tb ss p) (h s)
      ∙ ap (λ rows. row_for look tb s (lookup s q) ∷ rows) (rows_for-SameEntries ss p q h)

  -- The table shows the rows of the symbols in ascending order, each symbol as often as it was asked
  -- for. The display is stable: a model with the same symbols in any order, the same last prices in
  -- any order of the map, and the same table before, shows the same.
  pub update_table-stable :
      (m n : PriceModel F T)
      → Permᴰ m.symbols n.symbols
      → SameEntries m.prices n.prices
      → m.table ≡ n.table
      → IsListed m (update_table look tb m).table
        × ((update_table look tb m).table ≡ (update_table look tb n).table)
  unfolding update_table
  update_table-stable m n p same e = (
    record {
      shown = sort_strings m.symbols;
      sorted = sort_strings-IsSorted m.symbols;
      complete = sort_strings-Permᴰ m.symbols;
      rows = refl;
    },
    ap (λ t. tb.set_rows (rows_for look tb (sort_strings m.symbols) m.prices) t) e
        ∙ ap (λ rows. tb.set_rows rows n.table)
            (rows_for-SameEntries (sort_strings m.symbols) m.prices n.prices same
              ∙ ap (λ ss. rows_for look tb ss n.prices) (sort_strings_unique p)),
  )
