-- ===== src/Examples/Messages.antt =====
-- The theorems on pkg/kafka and pkg/middleware applied to one failing message and three requests.
use termino.Prelude.{◌≡◌, ◌≢◌, refl, List, [], ◌∷◌, Option, none, some, select, arith}
use termino.Prelude.Int.{pos}
use termino.Prelude.Text.{Text, codes, text_eq}
use termino.Kafka.{Message, retry_count, get_retry_count, update_retry_header}
use termino.Kafka.Headers.{is_other, get-update_retry_header}
use termino.Kafka.Consumer.{
  Env, Consumer, new_consumer_with_dlq, Turn, done, fetched, fetch_failed, consume, handle_failure,
}
use termino.Kafka.Consumer.Committed.{marks, each_once, read_messages, consume-each_once}
use termino.Kafka.Consumer.Failures.{IsDeadLettered, handle_failure-IsDeadLettered}

abbrev dead : Text
dead = codes "dead"

-- Writers that refuse a message with a topic, and a handler that always fails.
abbrev refusal : Text → Option Text
refusal [] = none
refusal (c ∷ t) = some (codes "two topics")

abbrev pub failing : Env (List Message)
failing = record {
  handle = λ m s. (s, some (codes "no parse"));
  write = λ t m s. (m ∷ s, refusal m.topic);
  commit = λ m s. (s, none);
  clock = λ s. codes "2024-01-01T00:00:00Z";
}

abbrev pub consumer : Consumer
consumer = new_consumer_with_dlq (codes "prices") (codes "group") dead (pos 3)

abbrev pub failed_once : Message
failed_once = record {
  topic = codes "prices";
  key = codes "BTC";
  value = codes "x";
  headers = record { key = retry_count; value = codes "1" } ∷ [];
}

abbrev turns : List Turn
turns = fetched failed_once ∷ fetch_failed ∷ fetched failed_once ∷ done ∷ []

consume-each_once_example :
    marks (consume failing consumer turns []).1 ≡ each_once (read_messages turns)
consume-each_once_example = consume-each_once failing consumer turns []

refused_topic : (t : Text) → t ≢ [] → (e : Text) × (refusal t ≡ some e)
refused_topic [] h = absurd (h refl)
refused_topic (c ∷ t) h = (codes "two topics", refl)

handle_failure-IsDeadLettered_example :
    IsDeadLettered failing consumer dead failed_once
      (codes "no parse")
      (handle_failure failing consumer failed_once (codes "no parse") []).1
handle_failure-IsDeadLettered_example =
    handle_failure-IsDeadLettered failing consumer dead failed_once (codes "no parse") []
      (λ t m s h k. refused_topic m.topic k) refl (λ h. cc) (λ h. cc)

get-update_retry_header_example :
    (get_retry_count (update_retry_header failed_once.headers (pos 2)) ≡ pos 2)
    × (select is_other (update_retry_header failed_once.headers (pos 2))
        ≡ select is_other failed_once.headers)
get-update_retry_header_example = get-update_retry_header failed_once.headers (pos 2) (omega arith)
