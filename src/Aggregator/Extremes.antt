-- ===== src/Aggregator/Extremes.antt =====
-- The high and the low price of `computeAggregate` in internal/domain/aggregator.go.
use mathlib.Core.List.{Memᴰ}
use mathlib.Core.Option.{some-injective}
use termino.Prelude.{
  ◌≡◌, refl, ◌⊎◌, inl, inr, Bool, true, false, List, [], ◌∷◌, some, All, if◌then◌else◌, Bool-cases,
  subst,
}
use termino.Prelude.Int.{ℤ}
use termino.Prelude.Text.{Text, text_eq}
use termino.Prelude.Dict.{lookup}
use termino.Float.{Float, FloatOrder}
use termino.Models.{PriceEvent, AggregatedPrice}
use termino.Aggregator.{
  PriceWindow, PriceAggregator, Totals, tally, tally_all, start, totals, report, aggregate_of, add,
}
use termino.Aggregator.Window.{add_reports}

-- The running best of the prices, where `better best price` replaces it.
abbrev best : {F : Type 0} → (F → F → Bool) → F → List (PriceEvent F) → F
best better b [] = b
best better b (p ∷ ps) = best better (if better b p.price then p.price else b) ps

module _ {F : Type 0} ⦃fl : Float F⦄ where
  tally_all-best :
      (t : Totals F) (ps : List (PriceEvent F))
      → ((tally_all t ps).high ≡ best fl.lt t.high ps)
        × ((tally_all t ps).low ≡ best (λ b p. fl.lt p b) t.low ps)
  unfolding tally_all
  tally_all-best t [] = (refl, refl)
  tally_all-best t (p ∷ ps) = tally_all-best (tally t p) ps

-- `below a b` is the order in which a better value is above.
module _ {F : Type 0} (better below : F → F → Bool) (IsNumber : F → Type 0)
    (self : (a : F) → IsNumber a → below a a ≡ true)
    (trans : (a b c : F) → below a b ≡ true → below b c ≡ true → below a c ≡ true)
    (replaced : (a b : F) → better a b ≡ true → below a b ≡ true)
    (stays : (a b : F) → IsNumber a → IsNumber b → better a b ≡ false → below b a ≡ true) where
  pub record Best (b : F) (ps : List (PriceEvent F)) (u : F) : Type 0 where
    pub over : below b u ≡ true
    pub covers : All (λ p. below p.price u ≡ true) ps
    pub attained : (u ≡ b) ⊎ ((p : PriceEvent F) × Memᴰ p ps × (u ≡ p.price))

  best_lem :
      (b : F) (ps : List (PriceEvent F))
      → IsNumber b
      → All (λ p. IsNumber p.price) ps
      → Best b ps (best better b ps)
  best_lem b [] n h = record { over = self b n; covers = tt; attained = inl refl }
  best_lem b (p ∷ ps) n h = elim (Bool-cases (better b p.price)) [
    | inl e ↦ rw e (moved (best_lem p.price ps h.0 h.1) e)
    | inr e ↦ rw e (kept (best_lem b ps n h.1) e)
  ]
    where
      moved :
          Best p.price ps (best better p.price ps)
          → better b p.price ≡ true
          → Best b (p ∷ ps) (best better p.price ps)
      moved q e = record {
        over = trans _ _ _ (replaced _ _ e) q.over;
        covers = (q.over, q.covers);
        attained = elim q.attained [
          | inl same ↦ inr (p, Memᴰ.head refl, same)
          | inr (x, m, same) ↦ inr (x, Memᴰ.tail m, same)
        ];
      }

      kept :
          Best b ps (best better b ps)
          → better b p.price ≡ false
          → Best b (p ∷ ps) (best better b ps)
      kept q e = record {
        over = q.over;
        covers = (trans _ _ _ (stays _ _ n h.0 e) q.over, q.covers);
        attained = elim q.attained [
          | inl same ↦ inl same
          | inr (x, m, same) ↦ inr (x, Memᴰ.tail m, same)
        ];
      }

module _ {F : Type 0} ⦃fl : Float F⦄ (o : FloatOrder fl) where
  -- Every price of the list lies between the two, and each of the two is a price of the list.
  pub record IsRange (low high : F) (ps : List (PriceEvent F)) : Type 0 where
    pub above_low : All (λ p. fl.le low p.price ≡ true) ps
    pub below_high : All (λ p. fl.le p.price high ≡ true) ps
    pub low_attained : (p : PriceEvent F) × Memᴰ p ps × (low ≡ p.price)
    pub high_attained : (p : PriceEvent F) × Memᴰ p ps × (high ≡ p.price)

  attained_in :
      (p : PriceEvent F) (ps : List (PriceEvent F)) (u : F)
      → (u ≡ p.price) ⊎ ((q : PriceEvent F) × Memᴰ q (p ∷ ps) × (u ≡ q.price))
      → (q : PriceEvent F) × Memᴰ q (p ∷ ps) × (u ≡ q.price)
  attained_in p ps u (inl e) = (p, Memᴰ.head refl, e)
  attained_in p ps u (inr found) = found

  totals-IsRange :
      (p : PriceEvent F) (ps : List (PriceEvent F))
      → All (λ q. o.IsNumber q.price) (p ∷ ps)
      → IsRange (totals p ps).low (totals p ps).high (p ∷ ps)
  unfolding totals
  totals-IsRange p ps h =
      let up =
        best_lem fl.lt fl.le o.IsNumber o.le_refl o.le_trans o.le_of_lt o.le_of_not_lt p.price
          (p ∷ ps) h.0 h in
      let down =
        best_lem (λ b x. fl.lt x b) (λ x y. fl.le y x) o.IsNumber o.le_refl
          (λ x y z l m. o.le_trans z y x m l) (λ x y l. o.le_of_lt y x l)
          (λ x y m n l. o.le_of_not_lt y x n m l) p.price (p ∷ ps) h.0 h in
      rw (tally_all-best (start p) (p ∷ ps)).0 (
        rw (tally_all-best (start p) (p ∷ ps)).1 (record {
          above_low = down.covers;
          below_high = up.covers;
          low_attained = attained_in p ps _ down.attained;
          high_attained = attained_in p ps _ up.attained;
        }))

  aggregate_of-IsRange :
      (now : ℤ) (s : Text) (w : PriceWindow F) (ps : List (PriceEvent F)) {r : AggregatedPrice F}
      → aggregate_of now s w ps ≡ some r
      → All (λ q. o.IsNumber q.price) ps
      → IsRange r.low_price r.high_price ps
  unfolding aggregate_of report
  aggregate_of-IsRange now s w [] e h = cc
  aggregate_of-IsRange now s w (p ∷ ps) e h =
      subst (λ q. IsRange q.low_price q.high_price (p ∷ ps)) (some-injective _ _ e)
        (totals-IsRange p ps h)

  -- Where `Add` returns an aggregate and no price of the symbol's new window is a NaN, the low and
  -- the high price of the aggregate bound every price of that window and occur in it.
  pub add-IsRange :
      (now : ℤ) (a : PriceAggregator F) (e : PriceEvent F) {b : PriceAggregator F}
      {r : AggregatedPrice F} {w : PriceWindow F}
      → add now a e ≡ some (b, r)
      → lookup e.symbol b.windows ≡ some w
      → All (λ q. o.IsNumber q.price) w.prices
      → IsRange r.low_price r.high_price w.prices
  add-IsRange now a e {w = w} added found h =
      aggregate_of-IsRange now e.symbol w w.prices (add_reports now a e added found) h
