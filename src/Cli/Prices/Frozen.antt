-- ===== src/Cli/Prices/Frozen.antt =====
-- cli/crypto-stream/ui/prices.go under its runtime: how often a price can reach the table.
use termino.Prelude.{
  ℕ, suc, some, ◌+◌, ◌≤◌, ◌≡◌, refl, ap, true, List, [], ◌∷◌, ◌++◌, arith, Bool-cases, inl, inr,
}
use termino.Prelude.Int.{ℤ}
use termino.Prelude.Text.{Text, text_eq}
use termino.Prelude.Dict.{insert}
use termino.Float.{Float}
use termino.Models.{AggregatedPrice}
use termino.Cli.{Table}
use termino.Cli.{Msg, key, arrived, Cmd, quit, connect, fetch, tick_soon, tick_later, Look, quits}
use termino.Cli.Prices.{
  PriceModel, new, init_cmds, to_table, update, update_table, Running, Gives, streamed, failed,
  ticked_soon, ticked_later, shows,
}

-- The commands that will give a message.
abbrev readers : List Cmd → ℕ
readers [] = 0
readers (quit ∷ cs) = readers cs
readers (connect ∷ cs) = suc (readers cs)
readers (fetch ∷ cs) = readers cs
readers (tick_soon ∷ cs) = suc (readers cs)
readers (tick_later ∷ cs) = suc (readers cs)

readers-append : (xs ys : List Cmd) → readers (xs ++ ys) ≡ readers xs + readers ys
readers-append [] ys = omega arith
readers-append (quit ∷ xs) ys = readers-append xs ys
readers-append (connect ∷ xs) ys = omega (arith, readers-append xs ys)
readers-append (fetch ∷ xs) ys = readers-append xs ys
readers-append (tick_soon ∷ xs) ys = omega (arith, readers-append xs ys)
readers-append (tick_later ∷ xs) ys = omega (arith, readers-append xs ys)

module _ {F T : Type 0} ⦃fl : Float F⦄ (look : Look) (tb : Table (Msg (AggregatedPrice F)) T) where
  -- A message goes to `Update`, and the commands that it returns run beside the others.
  abbrev pub feed : ℤ → Msg (AggregatedPrice F) → PriceModel F T → List Cmd → Running F T
  feed now msg m others =
      let (m', cmds) = update look tb now msg m in record { model = m'; pending = others ++ cmds }

  -- The states that the program can reach, with the number of prices that came to it.
  pub data Reach (table : T) (symbols : List Text) : ℕ → Running F T → Type 0 where
    start :
        (s : Running F T)
        → s ≡ record { model = new look tb table symbols; pending = init_cmds look tb }
        → Reach table symbols 0 s
    press :
        {n : ℕ} {s : Running F T}
        → Reach table symbols n s
        → (now : ℤ) (k : Text) (t : Running F T) → t ≡ feed now (key k) s.model s.pending
        → Reach table symbols n t
    finish :
        {n : ℕ} {s : Running F T}
        → Reach table symbols n s
        → (now : ℤ) (xs ys : List Cmd) (c : Cmd) (msg : Msg (AggregatedPrice F)) (m : ℕ)
          (t : Running F T)
        → s.pending ≡ xs ++ c ∷ ys
        → Gives c msg
        → m ≡ shows msg + n
        → t ≡ feed now msg s.model (xs ++ ys)
        → Reach table symbols m t

  -- The table of bubbles asks for nothing.
  abbrev pub IsQuiet : Type 0
  IsQuiet = (msg : Msg (AggregatedPrice F)) (t : T) → (tb.update msg t).1 ≡ []

  to_table-quiet :
      (msg : Msg (AggregatedPrice F)) (m : PriceModel F T)
      → IsQuiet
      → readers (to_table look tb msg m).1 ≡ 0
  unfolding to_table
  to_table-quiet msg m h = ap readers (h msg m.table)

  -- A message never brings more commands than the one that gave it; a price brings none.
  cost :
      (now : ℤ) (c : Cmd) (msg : Msg (AggregatedPrice F)) (m : PriceModel F T)
      → IsQuiet
      → Gives c msg
      → (shows msg + readers (update look tb now msg m).1 ≤ 1) × (readers (c ∷ []) ≡ 1)
  unfolding update
  cost now c msg m h (streamed p) = (
    omega (
      arith,
      to_table-quiet (arrived p)
          (update_table look tb (record m {
            prices = insert p.symbol p m.prices;
            last_update = some now;
            connected = true;
          }))
          h,
    ),
    refl,
  )
  cost now c msg m h (failed e) = omega arith
  cost now c msg m h ticked_soon = ground arith
  cost now c msg m h ticked_later = ground arith

  key_cost :
      (now : ℤ) (k : Text) (m : PriceModel F T)
      → IsQuiet
      → readers (update look tb now (key k) m).1 ≡ 0
  unfolding update
  key_cost now k m h = elim (Bool-cases (quits k)) [
    | inl e ↦ rw e
    | inr e ↦ rw e (to_table-quiet (key k) m h)
  ]

  budget :
      {table : T} {symbols : List Text} {n : ℕ} {s : Running F T}
      → IsQuiet
      → Reach table symbols n s
      → n + readers s.pending ≤ 2
  budget h (start s e) = rw e (omega arith)
  budget h (press {n} {s} r now k t e) = rw e (
      omega (
        arith,
        budget h r,
        readers-append s.pending (update look tb now (key k) s.model).1,
        key_cost now k s.model h,
      ))
  budget h (finish {n} {s} r now xs ys c msg m t p g q e) = rw e (
      omega (
        arith,
        budget h r,
        ap readers p,
        readers-append xs (c ∷ ys),
        readers-append (c ∷ []) ys,
        readers-append xs ys,
        readers-append (xs ++ ys) (update look tb now msg s.model).1,
        (cost now c msg s.model h g).0,
        (cost now c msg s.model h g).1,
      ))

  -- With a table that issues no command, however long the program runs and whatever the server
  -- sends, at most two prices ever come to it.
  pub prices_at_most_two :
      (table : T) (symbols : List Text) (n : ℕ) (s : Running F T)
      → IsQuiet
      → Reach table symbols n s
      → n ≤ 2
  prices_at_most_two table symbols n s h r = omega (arith, budget h r)
