-- ===== src/Examples/Postgres.antt =====
-- The theorem on a refused row applied to a database that takes only symbols of three characters.
use termino.Prelude.{
  ◌≡◌, ◌≢◌, refl, Bool, true, false, List, [], ◌∷◌, ◌++◌, Option, none, some, length, if◌then◌else◌,
  ◌==◌, nat_eq,
}
use termino.Prelude.Text.{Text, codes}
use mathlib.Core.List.Memᴰ.{head}
use termino.Float.Fixed.{Cents}
use termino.DbWriter
use termino.DbWriter.{Database, DbWriter, Row, Op, run, row_of}
use termino.DbWriter.Conserved.{added}
use termino.DbWriter.Settled.{settled}
use termino.DbWriter.Poisoned.{IsPostgres, IsRefused, run-poisoned}
use termino.Examples.{btc, aggregate}

abbrev takes : Row Cents → Bool
takes r = length r.symbol == 3

abbrev insertion : Bool → Option Text
insertion true = none
insertion false = some (codes "value too long")

abbrev committing : Bool → Option Text
committing true = some (codes "failed transaction")
committing false = none

-- The state tells whether the transaction is aborted.
abbrev strict : Database Cents Bool
strict = record {
  begin_tx = λ cancelled s. (false, none);
  prepare = λ s. (s, none);
  exec = λ r s. (if takes r then s else true, insertion (takes r));
  rollback = λ s. false;
  commit = λ s. (false, committing s);
}

strict-aborts : (b s : Bool) (e : Text) → insertion b ≡ some e → (if b then s else true) ≡ true
strict-aborts true s e h = cc
strict-aborts false s e h = refl

strict-stays : (b s : Bool) → s ≡ true → (if b then s else true) ≡ true
strict-stays true s h = h
strict-stays false s h = refl

strict-refuses : (s : Bool) → s ≡ true → committing s ≢ none
strict-refuses true h e = cc
strict-refuses false h e = cc

strict-IsPostgres : IsPostgres strict (λ s. s ≡ true)
strict-IsPostgres = record {
  aborts = λ r s e h. strict-aborts (takes r) s e h;
  stays = λ r s h. strict-stays (takes r) s h;
  refuses = strict-refuses;
}

abbrev doge : Text
doge = codes "DOGE"

doge-IsRefused : IsRefused strict (aggregate doge 12)
doge-IsRefused = record { fails = λ s. (codes "value too long", refl) }

abbrev holding : DbWriter Cents
holding = record { batch = aggregate doge 12 ∷ []; rows_inserted = 0; batches_written = 0 }

abbrev later : List (Op Cents)
later = DbWriter.adds (aggregate btc 5000) ∷ DbWriter.flushes false ∷ DbWriter.flushes false ∷ []

run-poisoned_example :
    (settled (run strict later holding false).2 ≡ [])
    × ((run strict later holding false).0.batch ≡ holding.batch ++ added later)
run-poisoned_example =
    run-poisoned strict (λ s. s ≡ true) strict-IsPostgres (aggregate doge 12) doge-IsRefused later
      holding false (head refl)
