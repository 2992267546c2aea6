-- ===== src/DbWriter/Shutdown.antt =====
-- What services/db-writer/main.go commits once its context is done.
use mathlib.Core.List.{append_assoc, append-nil}
use termino.Prelude.{
  ◌+◌, ◌<◌, ◌≡◌, refl, sym, ap, ◌∙◌, Bool, true, false, List, [], ◌∷◌, ◌++◌, Option, none, some,
  length, length-append, leb, arith, Bool-cases, inl, inr,
}
use termino.Prelude.Text.{Text}
use termino.Models.{AggregatedPrice}
use termino.DbWriter.{
  Database, DbWriter, Tx, not_begun, skipped, transact, flush_batch, flush, add_to_batch,
}
use termino.DbWriter.Settled.{settled}
use termino.DbWriter.Conserved.{settled-cons}
use termino.DbWriter.Ticker.{
  Event, arrives, cancels, ticks, stops, Service, stop, tick, turn, serve,
}

-- Documented of `DB.BeginTx`: a context that is done is an error.
abbrev pub RefusesDone : {F S : Type 0} → Database F S → Type 0
RefusesDone {F} {S} db = (s : S) → (e : Text) × ((db.begin_tx true s).1 ≡ some e)

-- The prices that came.
abbrev pub arrived : {F : Type 0} → List (Event F) → List (AggregatedPrice F)
arrived [] = []
arrived (arrives p ∷ es) = p ∷ arrived es
arrived (cancels ∷ es) = arrived es
arrived (ticks ∷ es) = arrived es
arrived (stops ∷ es) = arrived es

module _ {F S : Type 0} (db : Database F S) where
  transact_refused :
      (w : DbWriter F) (r : S × Option Text) (e : Text)
      → r.1 ≡ some e
      → transact db w r ≡ (w, r.0, not_begun)
  unfolding transact
  transact_refused w (s, none) e h = cc
  transact_refused w (s, some x) e h = refl

  flush_batch_done :
      (ps : List (AggregatedPrice F)) (w : DbWriter F) (s : S)
      → RefusesDone db
      → ((flush_batch db true ps w s).0 ≡ w) × (settled ((flush_batch db true ps w s).2 ∷ []) ≡ [])
  unfolding flush_batch
  flush_batch_done [] w s h = (refl, refl)
  flush_batch_done (p ∷ ps) w s h =
      let e = transact_refused w (db.begin_tx true s) (h s).0 (h s).1 in
      (
        ap (λ (r : DbWriter F × S × Tx F). r.0) e,
        ap (λ (r : DbWriter F × S × Tx F). settled (r.2 ∷ [])) e,
      )

  -- After an event of a service that is cancelled the prices are those of before and the one that came,
  -- and nothing was committed.
  record Stays (v v' : Service F) (t : Tx F) (came : List (AggregatedPrice F)) : Type 0 where
    done : v'.is_done ≡ true
    batch : v'.writer.batch ≡ v.writer.batch ++ came
    nothing : settled (t ∷ []) ≡ []

  flush-Stays :
      (v : Service F) (s : S) (b : Bool)
      → RefusesDone db
      → v.is_done ≡ true
      → let (w, s', t) = flush db v.is_done v.writer s in
        Stays v (record v { writer = w; is_looping = b }) t []
  unfolding flush
  flush-Stays v s b h d =
      let (same, nothing) = flush_batch_done v.writer.batch v.writer s h in
      record {
        done = d;
        batch = rw d (ap (λ (w : DbWriter F). w.batch) same ∙ sym (append-nil _));
        nothing = rw d nothing;
      }

  unmoved : (v : Service F) → v.is_done ≡ true → Stays v v skipped []
  unmoved v d = record { done = d; batch = sym (append-nil _); nothing = refl }

  tick-Stays :
      (b : Bool) (v : Service F) (s : S)
      → RefusesDone db
      → v.is_done ≡ true
      → Stays v (tick db b v s).0 (tick db b v s).2 []
  unfolding tick
  tick-Stays true v s h d = flush-Stays v s v.is_looping h d
  tick-Stays false v s h d = unmoved v d

  stop-Stays :
      (b c : Bool) (v : Service F) (s : S)
      → RefusesDone db
      → v.is_done ≡ true
      → Stays v (stop db b c v s).0 (stop db b c v s).2 []
  unfolding stop
  stop-Stays true true v s h d = flush-Stays v s false h d
  stop-Stays true false v s h d = unmoved v d
  stop-Stays false c v s h d = unmoved v d

  add_to_batch-Stays :
      (p : AggregatedPrice F) (v : Service F) (s : S)
      → v.is_done ≡ true
      → length v.writer.batch + 1 < 100
      → let (w, s', t) = add_to_batch db p v.writer s in
        Stays v (record v { writer = w }) t (p ∷ [])
  unfolding add_to_batch
  add_to_batch-Stays p v s d short =
      elim (Bool-cases (leb 100 (length (v.writer.batch ++ p ∷ [])))) [
        | inl e ↦ absurd (ground (arith, length-append v.writer.batch (p ∷ [])))
        | inr e ↦ rw e (record { done = d; batch = refl; nothing = refl })
      ]

  turn-Stays :
      (e : Event F) (v : Service F) (s : S)
      → RefusesDone db
      → v.is_done ≡ true
      → length v.writer.batch + length (arrived (e ∷ [])) < 100
      → Stays v (turn db e v s).0 (turn db e v s).2 (arrived (e ∷ []))
  unfolding turn
  turn-Stays (arrives p) v s h d short = add_to_batch-Stays p v s d short
  turn-Stays cancels v s h d short = record {
    done = refl;
    batch = sym (append-nil _);
    nothing = refl;
  }
  turn-Stays ticks v s h d short = tick-Stays v.is_looping v s h d
  turn-Stays stops v s h d short = stop-Stays v.is_looping v.is_done v s h d

  arrived-cons :
      (e : Event F) (es : List (Event F)) → arrived (e ∷ es) ≡ arrived (e ∷ []) ++ arrived es
  arrived-cons (arrives p) es = refl
  arrived-cons cancels es = refl
  arrived-cons ticks es = refl
  arrived-cons stops es = refl

  serve-Stays :
      (es : List (Event F)) (v : Service F) (s : S)
      → RefusesDone db
      → v.is_done ≡ true
      → length v.writer.batch + length (arrived es) < 100
      → ((serve db es v s).0.writer.batch ≡ v.writer.batch ++ arrived es)
        × (settled (serve db es v s).2 ≡ [])
  unfolding serve
  serve-Stays [] v s h d short = (sym (append-nil _), refl)
  serve-Stays (e ∷ es) v s h d short =
      let (v1, s1, t) = turn db e v s in
      let here = arrived (e ∷ []) in
      let all = ap length (arrived-cons e es) in
      let both = length-append here (arrived es) in
      let st = turn-Stays e v s h d (omega (arith, all, both)) in
      let (kept, nothing) =
        serve-Stays es v1 s1 h st.done
          (omega (arith, all, both, ap length st.batch, length-append v.writer.batch here)) in
      (
        kept
            ∙ ap (λ xs. xs ++ arrived es) st.batch
            ∙ append_assoc v.writer.batch here (arrived es)
            ∙ ap (◌++◌ v.writer.batch) (sym (arrived-cons e es)),
        settled-cons t (serve db es v1 s1).2
            ∙ ap (λ xs. xs ++ settled (serve db es v1 s1).2) st.nothing
            ∙ nothing,
      )

  -- With a database that refuses a done context: once the context is cancelled, in any state of the
  -- service and whatever comes then (prices, turns of the ticker, the turn that ends the loop), as long
  -- as the prices of the batch and those that come are fewer than a full batch, no transaction is
  -- committed and all of them are still in the batch at the end.
  pub serve-cancelled :
      (es : List (Event F)) (v : Service F) (s : S)
      → RefusesDone db
      → length v.writer.batch + length (arrived es) < 100
      → let (v', s', ts) = serve db (cancels ∷ es) v s in
        (v'.writer.batch ≡ v.writer.batch ++ arrived es) × (settled ts ≡ [])
  unfolding serve turn
  serve-cancelled es v s h short = serve-Stays es (record v { is_done = true }) s h refl short
