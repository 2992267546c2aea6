-- ===== src/Aggregator/Exchanges.antt =====
-- `ExchangeCount` of `computeAggregate` in internal/domain/aggregator.go.
use termino.Prelude.{suc, ◌≡◌, refl, ap, ◌∙◌, ◌||◌, List, [], ◌∷◌, some, length, arith, subst}
use termino.Prelude.Int.{ℤ, pos}
use termino.Prelude.Text.{Text, text_eq}
use termino.Prelude.Dict.{lookup, keys, member, IsDistinct, member-insert, insert-IsDistinct}
use mathlib.Core.Option.{some-injective}
use termino.Float.{Float}
use termino.Models.{PriceEvent, AggregatedPrice}
use termino.Aggregator.{
  PriceWindow, PriceAggregator, Totals, tally, tally_all, start, totals, report, aggregate_of, add,
}
use termino.Aggregator.Window.{add_reports}

-- `n` is how many different texts there are among `names`: the length of a list without
-- repetition that has the same members.
pub record CountsDistinct (names : List Text) (n : ℤ) : Type 0 where
  pub witnesses : List Text
  pub distinct : IsDistinct witnesses
  pub same : (x : Text) → member x witnesses ≡ member x names
  pub count : pos (length witnesses) ≡ n

abbrev pub exchanges_in : {F : Type 0} → List (PriceEvent F) → List Text
exchanges_in [] = []
exchanges_in (p ∷ ps) = p.exchange ∷ exchanges_in ps

length-keys : {V : Type 0} (m : List (Text × V)) → length (keys m) ≡ length m
length-keys [] = refl
length-keys (x ∷ m) = ap suc (length-keys m)

module _ {F : Type 0} ⦃fl : Float F⦄ where
  tally_all-IsDistinct :
      (t : Totals F) (ps : List (PriceEvent F))
      → IsDistinct (keys t.exchanges)
      → IsDistinct (keys (tally_all t ps).exchanges)
  unfolding tally_all
  tally_all-IsDistinct t [] h = h
  tally_all-IsDistinct t (p ∷ ps) h =
      tally_all-IsDistinct (tally t p) ps (insert-IsDistinct p.exchange tt t.exchanges h)

  tally_all-member :
      (t : Totals F) (ps : List (PriceEvent F)) (x : Text)
      → member x (keys (tally_all t ps).exchanges)
        ≡ (member x (exchanges_in ps) || member x (keys t.exchanges))
  unfolding tally_all
  tally_all-member t [] x = refl
  tally_all-member t (p ∷ ps) x =
      ground (arith, tally_all-member (tally t p) ps x, member-insert x p.exchange tt t.exchanges)

  aggregate_of-CountsDistinct :
      (now : ℤ) (s : Text) (w : PriceWindow F) (ps : List (PriceEvent F)) {r : AggregatedPrice F}
      → aggregate_of now s w ps ≡ some r
      → CountsDistinct (exchanges_in ps) r.exchange_count
  unfolding aggregate_of report totals
  aggregate_of-CountsDistinct now s w [] e = cc
  aggregate_of-CountsDistinct now s w (p ∷ ps) e =
      subst (λ q. CountsDistinct (exchanges_in (p ∷ ps)) q.exchange_count) (some-injective _ _ e)
        (record {
          witnesses = keys (totals p ps).exchanges;
          distinct = tally_all-IsDistinct (start p) (p ∷ ps) tt;
          same = λ x. tally_all-member (start p) (p ∷ ps) x ∙ ground arith;
          count = ap pos (length-keys (totals p ps).exchanges);
        })

  -- The exchange count that `Add` returns is the number of different exchanges among the prices of
  -- the symbol's new window.
  pub add-CountsDistinct :
      (now : ℤ) (a : PriceAggregator F) (e : PriceEvent F) {b : PriceAggregator F}
      {r : AggregatedPrice F} {w : PriceWindow F}
      → add now a e ≡ some (b, r)
      → lookup e.symbol b.windows ≡ some w
      → CountsDistinct (exchanges_in w.prices) r.exchange_count
  add-CountsDistinct now a e {w = w} added found =
      aggregate_of-CountsDistinct now e.symbol w w.prices (add_reports now a e added found)
