-- ===== src/Kafka/Consumer.antt =====
-- pkg/kafka/consumer.go and pkg/kafka/producer.go. The brokers, the handler and the clock are an
-- environment over a state `S`; what is asked of it is recorded as a list of actions. The loop of
-- `Consume` takes the results of its fetches one by one.
pub mod Committed
pub mod Failures
pub mod Unchanged
use termino.Prelude.{List, [], ◌∷◌, ◌++◌, Option, none, some, if◌then◌else◌}
use termino.Prelude.Int.{ℤ, pos, ◌+ℤ◌, ltb_ℤ}
use termino.Prelude.Decimal.{itoa}
use termino.Prelude.Text.{Text, codes}
use termino.Kafka.{Message, retry_count, get_retry_count, update_retry_header}

-- An error is its text. `write` is `WriteMessages` of a writer with the `Topic` given first.
pub record Env (S : Type 0) : Type 0 where
  pub handle : Message → S → S × Option Text
  pub write : Text → Message → S → S × Option Text
  pub commit : Message → S → S × Option Text
  -- The time in RFC 3339.
  pub clock : S → Text

pub record Consumer : Type 0 where
  pub topic : Text
  pub group : Text
  -- The topic of the dead letter writer, if there is one.
  pub dlq_producer : Option Text
  pub max_retries : ℤ

abbrev pub new_consumer : Text → Text → Consumer
new_consumer topic group = record {
  topic = topic;
  group = group;
  dlq_producer = none;
  max_retries = pos 0;
}

abbrev pub new_consumer_with_dlq : Text → Text → Text → ℤ → Consumer
new_consumer_with_dlq topic group dlq max_retries = record (new_consumer topic group) {
  dlq_producer = some dlq;
  max_retries = max_retries;
}

pub data Action : Type 0 where
  handled : Message → Option Text → Action
  wrote : Text → Message → Option Text → Action
  committed : Message → Option Text → Action

abbrev pub retry_message : Consumer → Message → ℤ → Message
retry_message c msg count = record {
  topic = c.topic;
  key = msg.key;
  value = msg.value;
  headers = update_retry_header msg.headers count;
}

abbrev pub dlq_message : Consumer → Message → Text → ℤ → Text → Message
dlq_message c msg err count now = record {
  topic = [];
  key = msg.key;
  value = msg.value;
  headers =
      record { key = codes "original-topic"; value = c.topic }
      ∷ record { key = codes "original-group"; value = c.group }
      ∷ record { key = codes "error-message"; value = err }
      ∷ record { key = retry_count; value = itoa count }
      ∷ record { key = codes "failed-at"; value = now }
      ∷ [];
}

-- `Publish` of a producer whose writer has this topic.
pub publish : {S : Type 0} → Env S → Text → Text → Text → S → S × Option Text
publish env topic key value s =
    env.write topic (record { topic = []; key = key; value = value; headers = [] }) s

module _ {S : Type 0} (env : Env S) (c : Consumer) where
  pub send_to_dlq : Text → Message → Text → ℤ → S → S × List Action
  send_to_dlq dlq msg err count s =
      let m = dlq_message c msg err count (env.clock s) in
      let (s', e) = env.write dlq m s in (s', wrote dlq m e ∷ [])

  -- A retry that could not be published goes to the dead letters.
  pub after_retry : Text → Message → Text → ℤ → Message → S × Option Text → S × List Action
  unfolding send_to_dlq
  after_retry dlq msg err count m (s, none) = (s, wrote dlq m none ∷ [])
  after_retry dlq msg err count m (s, some e) =
      let (s', acts) = send_to_dlq dlq msg err count s in (s', wrote dlq m (some e) ∷ acts)

  pub fail_with : Option Text → Message → Text → ℤ → S → S × List Action
  unfolding after_retry
  fail_with none msg err count s = (s, [])
  fail_with (some dlq) msg err count s =
      if ltb_ℤ count c.max_retries
      then (let m = retry_message c msg (count +ℤ pos 1) in
          after_retry dlq msg err count m (env.write dlq m s))
      else send_to_dlq dlq msg err count s

  unfoldable pub handle_failure : Message → Text → S → S × List Action
  unfolding fail_with
  handle_failure msg err s = fail_with c.dlq_producer msg err (get_retry_count msg.headers) s

  pub commit_after : Message → S × List Action → S × List Action
  commit_after msg (s, acts) = let (s', e) = env.commit msg s in (s', acts ++ committed msg e ∷ [])

  pub settle : Message → S × Option Text → S × List Action
  unfolding commit_after
  settle msg (s, none) = commit_after msg (s, handled msg none ∷ [])
  settle msg (s, some err) =
      let (s', acts) = handle_failure msg err s in
      commit_after msg (s', handled msg (some err) ∷ acts)

  -- One message that was fetched.
  unfoldable pub process : Message → S → S × List Action
  unfolding settle
  process msg s = settle msg (env.handle msg s)

-- What a round of the loop meets: the context is done before the fetch, a message, or an error of
-- the fetch with the context done or not.
pub data Turn : Type 0 where
  done : Turn
  fetched : Message → Turn
  fetch_failed fetch_cancelled : Turn

-- `closed`: the reader is closed and the loop returns; `returned`: it returns without that.
pub data Outcome : Type 0 where
  waiting closed returned : Outcome

module _ {S : Type 0} (env : Env S) (c : Consumer) where
  unfoldable pub consume : List Turn → S → S × List Action × Outcome
  consume [] s = (s, [], waiting)
  consume (done ∷ ts) s = (s, [], closed)
  consume (fetch_cancelled ∷ ts) s = (s, [], returned)
  consume (fetch_failed ∷ ts) s = consume ts s
  consume (fetched msg ∷ ts) s =
      let (s1, acts) = process env c msg s in
      let (s2, more, o) = consume ts s1 in (s2, acts ++ more, o)
