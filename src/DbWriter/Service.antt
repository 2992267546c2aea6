-- ===== src/DbWriter/Service.antt =====
-- services/db-writer/main.go: the handler of the messages, which the consumer of pkg/kafka calls, and
-- the flushes of the ticker that come between.
pub mod Rows
use termino.Prelude.{Bool, List, [], ◌∷◌, ◌++◌, Option, none, some}
use termino.Prelude.Text.{Text, codes}
use termino.Models.{AggregatedPrice, Codec}
use termino.Kafka.{Message}
use termino.Kafka.Consumer.{Env}
use termino.DbWriter.{Database, DbWriter, Tx, new, Op, adds, flushes, run}

-- The brokers of the consumer, and for each call of the handler the flushes of the ticker that got
-- the lock before it, with their contexts done or not.
pub record Brokers (B : Type 0) : Type 0 where
  pub write : Text → Message → B → B × Option Text
  pub commit : Message → B → B × Option Text
  pub clock : B → Text
  pub ticks : B → List Bool

-- The writer, the database, the brokers, and the record of the flushes.
pub record State (F S B : Type 0) : Type 0 where
  pub writer : DbWriter F
  pub store : S
  pub brokers : B
  pub flushed : List (Tx F)

abbrev pub start : {F S B : Type 0} → S → B → State F S B
start store brokers = record { writer = new; store = store; brokers = brokers; flushed = [] }

abbrev flush_ops : {F : Type 0} → List Bool → List (Op F)
flush_ops [] = []
flush_ops (c ∷ cs) = flushes c ∷ flush_ops cs

module _ {F S B : Type 0} (db : Database F S) where
  pub apply : List (Op F) → State F S B → State F S B
  apply os s =
      let (w, store, txs) = run db os s.writer s.store in
      record s { writer = w; store = store; flushed = s.flushed ++ txs }

  pub handle_decoded : Option (AggregatedPrice F) → State F S B → State F S B × Option Text
  unfolding apply
  handle_decoded none s = (s, some (codes "invalid JSON"))
  handle_decoded (some price) s = (apply (adds price ∷ []) s, none)

  abbrev with_brokers : State F S B → B × Option Text → State F S B × Option Text
  with_brokers s (b, e) = (record s { brokers = b }, e)

  -- The consumer of the service.
  unfoldable pub env_of : Codec (AggregatedPrice F) → Brokers B → Env (State F S B)
  unfolding handle_decoded apply
  env_of codec br = record {
    handle = λ msg s.
        handle_decoded (codec.unmarshal msg.value) (apply (flush_ops (br.ticks s.brokers)) s);
    write = λ topic msg s. with_brokers s (br.write topic msg s.brokers);
    commit = λ msg s. with_brokers s (br.commit msg s.brokers);
    clock = λ s. br.clock s.brokers;
  }
