-- ===== src/DbWriter/Service/Rows.antt =====
-- services/db-writer/main.go behind the consumer of pkg/kafka: the rows of the messages.
use mathlib.Core.List.{append_assoc, append-nil}
use termino.Prelude.{◌≡◌, refl, sym, ap, ◌∙◌, Bool, List, [], ◌∷◌, ◌++◌, Option, none, some}
use termino.Models.{AggregatedPrice, Codec}
use termino.Kafka.{Message}
use termino.Kafka.Consumer.{
  Consumer, Turn, done, fetched, fetch_failed, fetch_cancelled, process, consume,
}
use termino.Kafka.Consumer.Committed.{read_messages}
use termino.Kafka.Consumer.Unchanged.{IsApart, settle_view}
use termino.DbWriter.{Row, Database, DbWriter, Tx, Op, adds, run}
use termino.DbWriter.Conserved.{rows_of, added, rows_of-append, settled-cons, run_conserved}
use termino.DbWriter.Settled.{settled}
use termino.DbWriter.Service.{Brokers, State, start, flush_ops, apply, handle_decoded, env_of}

module _ {F : Type 0} where
  settled-append : (xs ys : List (Tx F)) → settled (xs ++ ys) ≡ settled xs ++ settled ys
  settled-append [] ys = refl
  settled-append (t ∷ xs) ys =
      settled-cons t (xs ++ ys)
      ∙ ap (◌++◌ (settled (t ∷ []))) (settled-append xs ys)
      ∙ sym (append_assoc (settled (t ∷ [])) (settled xs) (settled ys))
      ∙ ap (λ (r : List (Row F)). r ++ settled ys) (sym (settled-cons t xs))

  added-flush_ops : (cs : List Bool) → added (flush_ops {F = F} cs) ≡ []
  added-flush_ops [] = refl
  added-flush_ops (c ∷ cs) = added-flush_ops cs

  abbrev add_decoded : Option (AggregatedPrice F) → List (AggregatedPrice F)
  add_decoded none = []
  add_decoded (some price) = price ∷ []

  -- The prices of the messages that can be decoded.
  abbrev pub decoded : Codec (AggregatedPrice F) → List Message → List (AggregatedPrice F)
  decoded codec [] = []
  decoded codec (m ∷ ms) = add_decoded (codec.unmarshal m.value) ++ decoded codec ms

module _ {F S B : Type 0} where
  -- The rows tried in committed transactions, followed by those of the batch.
  abbrev pub all_rows : State F S B → List (Row F)
  all_rows s = settled s.flushed ++ rows_of s.writer.batch

module _ {F S B : Type 0} (db : Database F S) (codec : Codec (AggregatedPrice F))
    (br : Brokers B) where
  all_rows-apply :
      (os : List (Op F)) (s : State F S B)
      → all_rows (apply db os s) ≡ all_rows s ++ rows_of (added os)
  unfolding apply
  all_rows-apply os s =
      let txs : List (Tx F) = (run db os s.writer s.store).2 in
      let w : DbWriter F = (run db os s.writer s.store).0 in
      ap (λ (r : List (Row F)). r ++ rows_of w.batch) (settled-append s.flushed txs)
      ∙ append_assoc (settled s.flushed) (settled txs) (rows_of w.batch)
      ∙ ap (◌++◌ (settled s.flushed))
          (sym (run_conserved db os s.writer s.store) ∙ rows_of-append s.writer.batch (added os))
      ∙ sym (append_assoc (settled s.flushed) (rows_of s.writer.batch) (rows_of (added os)))

  all_rows-handle_decoded :
      (o : Option (AggregatedPrice F)) (s : State F S B)
      → all_rows (handle_decoded db o s).0 ≡ all_rows s ++ rows_of (add_decoded o)
  unfolding handle_decoded
  all_rows-handle_decoded none s = sym (append-nil (all_rows s))
  all_rows-handle_decoded (some price) s = all_rows-apply (adds price ∷ []) s

  all_rows-ticks :
      (cs : List Bool) (s : State F S B) → all_rows (apply db (flush_ops cs) s) ≡ all_rows s
  all_rows-ticks cs s =
      all_rows-apply (flush_ops cs) s
      ∙ ap (λ (ps : List (AggregatedPrice F)). all_rows s ++ rows_of ps) (added-flush_ops cs)
      ∙ append-nil (all_rows s)

  env_of-IsApart : IsApart (env_of {B = B} db codec br) all_rows
  unfolding env_of
  env_of-IsApart = record { after_write = λ t m s. refl; after_commit = λ m s. refl }

  all_rows-process :
      (c : Consumer) (msg : Message) (s : State F S B)
      → all_rows (process (env_of db codec br) c msg s).0
        ≡ all_rows s ++ rows_of (add_decoded (codec.unmarshal msg.value))
  unfolding process env_of
  all_rows-process c msg s =
      settle_view (env_of db codec br) c all_rows env_of-IsApart msg
        ((env_of db codec br).handle msg s)
      ∙ all_rows-handle_decoded (codec.unmarshal msg.value)
          (apply db (flush_ops (br.ticks s.brokers)) s)
      ∙ ap (λ (r : List (Row F)). r ++ rows_of (add_decoded (codec.unmarshal msg.value)))
          (all_rows-ticks (br.ticks s.brokers) s)

  all_rows-consume :
      (c : Consumer) (ts : List Turn) (s : State F S B)
      → all_rows (consume (env_of db codec br) c ts s).0
        ≡ all_rows s ++ rows_of (decoded codec (read_messages ts))
  unfolding consume
  all_rows-consume c [] s = sym (append-nil (all_rows s))
  all_rows-consume c (done ∷ ts) s = sym (append-nil (all_rows s))
  all_rows-consume c (fetch_cancelled ∷ ts) s = sym (append-nil (all_rows s))
  all_rows-consume c (fetch_failed ∷ ts) s = all_rows-consume c ts s
  all_rows-consume c (fetched msg ∷ ts) s =
      let price = add_decoded (codec.unmarshal msg.value) in
      let rest = decoded codec (read_messages ts) in
      all_rows-consume c ts (process (env_of db codec br) c msg s).0
      ∙ ap (λ (r : List (Row F)). r ++ rows_of rest) (all_rows-process c msg s)
      ∙ append_assoc (all_rows s) (rows_of price) (rows_of rest)
      ∙ ap (◌++◌ (all_rows s)) (sym (rows_of-append price rest))

  -- Whatever the database and the brokers answer, and whenever the ticker flushes: from a new writer,
  -- the rows tried in committed transactions (those whose insertion failed there, which are lost,
  -- included), followed by the rows of the batch, are exactly the rows of the messages that were fetched
  -- and can be decoded, in their order.
  pub consume-all_rows :
      (c : Consumer) (ts : List Turn) (store : S) (b : B)
      → all_rows (consume (env_of db codec br) c ts (start store b)).0
        ≡ rows_of (decoded codec (read_messages ts))
  consume-all_rows c ts store b = all_rows-consume c ts (start store b)
