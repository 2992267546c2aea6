-- ===== src/Examples/Storage.antt =====
-- The theorems on the database writer and on the cache applied to a log of rows and to an
-- association list.
use mathlib.Core.Option.{some-injective}
use mathlib.Core.List.{Permᴰ}
use termino.Prelude.{
  ℕ, arith, ◌<◌, ◌≡◌, refl, sym, ap, ◌∙◌, subst, Bool, true, false, List, [], ◌∷◌, ◌++◌, Option,
  none, some, length, if◌then◌else◌, ◌==◌, Bool-cases, inl, inr,
}
use termino.Prelude.Int.{ℤ, pos, negsuc}
use termino.Prelude.Text.{Text, codes, text_eq, text_beq, text_beq_iff}
use termino.Prelude.Dict.{lookup, insert, lookup-insert}
use termino.Float.Fixed.{Cents}
use termino.Models.{AggregatedPrice, Codec, IsFaithful}
use termino.DbWriter
use termino.DbWriter.{Database, DbWriter, Row, Op, run, flush, row_of}
use termino.DbWriter.Conserved.{rows_of, added, run-new_conserved}
use termino.DbWriter.Settled.{settled, answered, stored, lost}
use termino.DbWriter.Shutdown.{RefusesDone, arrived, serve-cancelled}
use termino.DbWriter.Ticker
use termino.DbWriter.Ticker.{Event, arrives, cancels, ticks, stops, Service, serve}
use termino.DbWriter.Bounded.{IsWorking, run_bounded}
use termino.Redis.{Rdb, Reply, missing, found, set_price, get_price}
use termino.Redis.RoundTrip.{IsHash, get-set_price}
use termino.Examples.{btc, eth, aggregate}

-- A database whose state is the log of the committed and the pending rows, newest first; it takes
-- no transaction in a done context.
abbrev pub Log : Type 0
Log = List (Row Cents)

abbrev begun : Bool → Option Text
begun true = some (codes "context canceled")
begun false = none

abbrev pub logging : Database Cents Log
logging = record {
  begin_tx = λ cancelled s. (s, begun cancelled);
  prepare = λ s. (s, none);
  exec = λ r s. (r ∷ s, none);
  rollback = λ s. s;
  commit = λ s. (s, none);
}

abbrev calls : List (Op Cents)
calls =
    DbWriter.adds (aggregate btc 5000)
    ∷ DbWriter.flushes false
    ∷ DbWriter.adds (aggregate eth 300)
    ∷ DbWriter.flushes true
    ∷ DbWriter.flushes false
    ∷ []

-- A database that takes no row of one symbol, and commits all the same.
abbrev pickiness : Bool → Option Text
pickiness true = some (codes "value out of range")
pickiness false = none

abbrev picky : Database Cents Log
picky = record logging { exec = λ r s. (r ∷ s, pickiness (text_beq r.symbol eth)) }

run-new_conserved_example :
    let (w, s', ts) = run picky calls DbWriter.new [] in
    (settled ts ++ rows_of w.batch ≡ rows_of (added calls))
    × Permᴰ
        (rows_of (added calls))
        ((stored (answered ts) ++ lost (answered ts)) ++ rows_of w.batch)
    × (w.rows_inserted ≡ length (stored (answered ts)))
run-new_conserved_example = run-new_conserved picky calls []

refuses_done : RefusesDone logging
refuses_done s = (codes "context canceled", refl)

-- One more price, a turn of the ticker, and the turn that ends the loop.
abbrev closing : List (Event Cents)
closing = arrives (aggregate eth 301) ∷ ticks ∷ stops ∷ []

abbrev holding : Service Cents
holding = record Ticker.start { writer = record DbWriter.new { batch = aggregate btc 5000 ∷ [] } }

serve-cancelled_example :
    let (v, s, ts) = serve logging (cancels ∷ closing) holding [] in
    (v.writer.batch ≡ holding.writer.batch ++ arrived closing) × (settled ts ≡ [])
serve-cancelled_example = serve-cancelled logging closing holding [] refuses_done (omega arith)

working : IsWorking logging
working = record { begins = λ s. refl; prepares = λ s. refl; commits = λ s. refl }

run_bounded_example : length (run logging calls DbWriter.new []).0.batch < 100
run_bounded_example = run_bounded logging calls [] working

-- One association list keyed by hash and field.
abbrev pub Cache : Type 0
Cache = List (Text × List (Text × Text))

abbrev fields : Option (List (Text × Text)) → List (Text × Text)
fields none = []
fields (some m) = m

abbrev reply : Option Text → Reply Text
reply none = missing
reply (some v) = found v

abbrev pub table : Rdb Cache
table = record {
  hset = λ h k v r. (insert h (insert k v (fields (lookup h r))) r, none);
  expire = λ h ttl r. (r, none);
  hget_all = λ h r. some (fields (lookup h r));
  hget = λ h k r. reply (lookup k (fields (lookup h r)));
}

table-hget-hset :
    (h h' k k' v : Text) (r : Cache)
    → table.hget h' k' (table.hset h k v r).0
      ≡ (if h == h' then (if k == k' then found v else table.hget h' k' r) else table.hget h' k' r)
table-hget-hset h h' k k' v r = elim (Bool-cases (h == h')) [
  | inr f ↦ rw (lookup-insert h h' (insert k v (fields (lookup h r))) r, f)
  | inl f ↦ elim (Bool-cases (k == k')) [
    | inl g ↦ rw (
      lookup-insert h h' (insert k v (fields (lookup h r))) r,
      f,
      lookup-insert k k' v (fields (lookup h r)),
      g,
    )
    | inr g ↦ rw (
      lookup-insert h h' (insert k v (fields (lookup h r))) r,
      f,
      lookup-insert k k' v (fields (lookup h r)),
      g,
      (text_beq_iff h h').0 f,
    )
  ]
]

table-IsHash : IsHash table
table-IsHash = record { hget-hset = λ h h' k k' v r e. table-hget-hset h h' k k' v r }

-- Numbers in hundredths, in a fixed order, and then the symbol. Times before 1970 are not settled.
abbrev encode : ℤ → ℤ → AggregatedPrice ℕ → Option Text
encode (negsuc t) n p = none
encode (pos t) (negsuc n) p = none
encode (pos t) (pos n) p = some (
    p.price ∷ p.avg_price ∷ p.high_price ∷ p.low_price ∷ p.change24h ∷ p.change_pct ∷ p.volume ∷ n
    ∷ t ∷ p.symbol)

abbrev decode : Text → Option (AggregatedPrice ℕ)
decode (price ∷ avg ∷ high ∷ low ∷ change ∷ pct ∷ volume ∷ count ∷ t ∷ symbol) = some (record {
  symbol = symbol;
  price = price;
  avg_price = avg;
  high_price = high;
  low_price = low;
  change24h = change;
  change_pct = pct;
  volume = volume;
  exchange_count = pos count;
  timestamp = pos t;
})
decode _ = none

abbrev plain : Codec (AggregatedPrice ℕ)
plain = record { marshal = λ p. encode p.timestamp p.exchange_count p; unmarshal = decode }

decode-encode :
    (t n : ℤ) (p : AggregatedPrice ℕ) (d : Text)
    → p.timestamp ≡ t
    → p.exchange_count ≡ n
    → encode t n p ≡ some d
    → decode d ≡ some p
decode-encode (negsuc t) n p d h k e = cc
decode-encode (pos t) (negsuc n) p d h k e = cc
decode-encode (pos t) (pos n) p d h k e =
    subst (λ (x : Text). decode x ≡ some p) (some-injective _ _ e)
      (ap (λ (x : ℤ). some (record p { timestamp = x; exchange_count = pos n })) (sym h)
        ∙ ap (λ (x : ℤ). some (record p { exchange_count = x })) (sym k))

plain-IsFaithful : IsFaithful plain
plain-IsFaithful = record {
  unmarshal-marshal = λ p d e. decode-encode p.timestamp p.exchange_count p d refl refl e;
}

abbrev quote : AggregatedPrice ℕ
quote = record {
  symbol = btc;
  price = 5000;
  avg_price = 5000;
  high_price = 5000;
  low_price = 5000;
  change24h = 0;
  change_pct = 0;
  volume = 100;
  exchange_count = pos 1;
  timestamp = pos 1700000000;
}

get-set_price_example :
    get_price table plain btc (set_price table plain btc quote (pos 60) []).0
    ≡ (if btc == btc then found quote else get_price table plain btc [])
unfolding set_price
get-set_price_example =
    get-set_price table plain btc btc quote (pos 60) [] table-IsHash plain-IsFaithful refl
