-- ===== src/Cli/Prices.antt =====
-- cli/crypto-stream/ui/prices.go: the table of live prices.
pub mod Frozen
pub mod Sorted
use termino.Prelude.{
  ℕ, Bool, true, false, not, ◌&&◌, ◌||◌, List, [], ◌∷◌, ◌++◌, Option, none, some, if◌then◌else◌,
  ltb, nat_beq,
}
use termino.Prelude.Int.{ℤ}
use termino.Prelude.Text.{Text, text_eq, codes}
use termino.Prelude.Dict.{lookup, insert}
use termino.Float.{Float}
use termino.Models.{AggregatedPrice}
use termino.Cli.{
  Table, Msg, key, arrived, err_msg, tick, Cmd, quit, connect, tick_soon, tick_later, Look, quits,
  format_price, format_volume,
}

pub record PriceModel (F T : Type 0) : Type 0 where
  pub table : T
  pub prices : List (Text × AggregatedPrice F)
  pub symbols : List Text
  pub err : Option Text
  pub connected : Bool
  pub last_update : Option ℤ

-- The order of `sort.Strings`.
pub text_le : Text → Text → Bool
text_le [] t = true
text_le (a ∷ s) [] = false
text_le (a ∷ s) (b ∷ t) = ltb a b || nat_beq a b && text_le s t

pub insert_sorted : Text → List Text → List Text
insert_sorted t [] = t ∷ []
insert_sorted t (x ∷ xs) = if text_le t x then t ∷ x ∷ xs else x ∷ insert_sorted t xs

unfoldable pub sort_strings : List Text → List Text
unfolding insert_sorted text_le
sort_strings [] = []
sort_strings (x ∷ xs) = insert_sorted x (sort_strings xs)

module _ {F T : Type 0} ⦃fl : Float F⦄ (look : Look) (tb : Table (Msg (AggregatedPrice F)) T) where
  abbrev pub init_cmds : List Cmd
  init_cmds = connect ∷ tick_soon ∷ []

  abbrev pub new : T → List Text → PriceModel F T
  new table symbols = record {
    table = table;
    prices = [];
    symbols = symbols;
    err = none;
    connected = false;
    last_update = none;
  }

  change_text : F → Text
  change_text pct =
      let text = fl.fixed 2 pct ++ codes "%" in
      if fl.lt (fl.of_nat 0) pct
      then look.green (codes "+" ++ text)
      else if fl.lt pct (fl.of_nat 0)
      then look.red text
      else text

  abbrev dashes : Text
  dashes = codes "---"

  row_for : Text → Option (AggregatedPrice F) → List Text
  unfolding change_text
  row_for sym none = sym ∷ dashes ∷ dashes ∷ dashes ∷ dashes ∷ dashes ∷ dashes ∷ dashes ∷ []
  row_for sym (some p) =
      sym
      ∷ format_price p.price
      ∷ format_price p.avg_price
      ∷ format_price p.high_price
      ∷ format_price p.low_price
      ∷ change_text p.change_pct
      ∷ format_volume p.volume
      ∷ look.clock p.timestamp
      ∷ []

  pub rows_for : List Text → List (Text × AggregatedPrice F) → List (List Text)
  unfolding row_for
  rows_for [] prices = []
  rows_for (s ∷ ss) prices = row_for s (lookup s prices) ∷ rows_for ss prices

  unfoldable pub update_table : PriceModel F T → PriceModel F T
  unfolding rows_for
  update_table m = record m {
    table = tb.set_rows (rows_for (sort_strings m.symbols) m.prices) m.table;
  }

  -- The end of `Update`: the table has the message too.
  pub to_table : Msg (AggregatedPrice F) → PriceModel F T → PriceModel F T × List Cmd
  to_table msg m = let (table, cmds) = tb.update msg m.table in (record m { table = table }, cmds)

  -- `now` is the clock.
  unfoldable pub update : ℤ → Msg (AggregatedPrice F) → PriceModel F T → PriceModel F T × List Cmd
  unfolding to_table update_table
  update now (key k) m = if quits k then (m, quit ∷ []) else to_table (key k) m
  update now (arrived p) m = to_table (arrived p) (
      update_table (record m {
        prices = insert p.symbol p m.prices;
        last_update = some now;
        connected = true;
      }))
  update now (err_msg e) m = (record m { err = some e; connected = false }, tick_later ∷ [])
  update now tick m = (m, if not m.connected then connect ∷ [] else tick_soon ∷ [])

-- The runtime of bubbletea: a state of the program with the commands that run.
pub record Running (F T : Type 0) : Type 0 where
  pub model : PriceModel F T
  pub pending : List Cmd

-- A command ends with a message; keys come at any time.
pub data Gives {F : Type 0} : Cmd → Msg (AggregatedPrice F) → Type 0 where
  streamed : (p : AggregatedPrice F) → Gives connect (arrived p)
  failed : (e : Text) → Gives connect (err_msg e)
  ticked_soon : Gives tick_soon tick
  ticked_later : Gives tick_later tick

abbrev pub shows : {F : Type 0} → Msg (AggregatedPrice F) → ℕ
shows (arrived p) = 1
shows (key k) = 0
shows (err_msg e) = 0
shows tick = 0
