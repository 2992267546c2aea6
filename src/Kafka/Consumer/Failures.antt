-- ===== src/Kafka/Consumer/Failures.antt =====
-- What pkg/kafka/consumer.go does with a message whose handler failed.
use termino.Prelude.{
  zero, suc, ◌≡◌, ◌≢◌, refl, sym, subst, ◌⊎◌, inl, inr, true, List, [], ◌∷◌, ◌++◌, Option, none,
  some, arith, Bool-cases,
}
use termino.Prelude.Int.{ℤ, pos, negsuc, ◌+ℤ◌, ltb_ℤ, leb_ℤ}
use termino.Prelude.Text.{Text}
use termino.Prelude.Decimal.{FitsInt}
use termino.Kafka.Headers.{get-update_retry_header, get_retry_count-FitsInt}
use termino.Kafka.{Message, get_retry_count, update_retry_header}
use termino.Kafka.Consumer.{
  Env, Consumer, Action, handled, committed, wrote, send_to_dlq, after_retry, fail_with,
  handle_failure, retry_message, dlq_message,
}

-- The message is written to the dead letters, with the retry count that it came with; before that
-- there is at most an attempt to publish a retry, which was refused.
pub record IsDeadLettered {S : Type 0} (env : Env S) (c : Consumer) (dlq : Text) (msg : Message)
    (err : Text) (acts : List Action) : Type 0 where
  pub refused : List Action
  pub at_most_one :
      (refused ≡ [])
      ⊎ ((e : Text) × (refused
            ≡ wrote dlq (retry_message c msg (get_retry_count msg.headers +ℤ pos 1)) (some e) ∷ []))
  pub now : S
  pub answer : Option Text
  pub written :
      acts
      ≡ refused
        ++ wrote dlq (dlq_message c msg err (get_retry_count msg.headers) (env.clock now)) answer
          ∷ []

-- Documented of kafka-go's `Writer.Topic`: where it is set, no message may have a topic.
abbrev pub RefusesTwoTopics : {S : Type 0} → Env S → Type 0
RefusesTwoTopics {S} env =
    (t : Text) (m : Message) (s : S)
    → t ≢ []
    → m.topic ≢ []
    → (e : Text) × ((env.write t m s).1 ≡ some e)

module _ {S : Type 0} (env : Env S) (c : Consumer) where
  IsDeadLettered-at_once :
      (dlq : Text) (msg : Message) (err : Text) (s : S)
      → IsDeadLettered env c dlq msg err
          (send_to_dlq env c dlq msg err (get_retry_count msg.headers) s).1
  unfolding send_to_dlq
  IsDeadLettered-at_once dlq msg err s = record {
    refused = [];
    at_most_one = inl refl;
    now = s;
    answer = (env.write dlq _ s).1;
    written = refl;
  }

  IsDeadLettered-after :
      (dlq : Text) (msg : Message) (err : Text) (r : S × Option Text) (e : Text)
      → r.1 ≡ some e
      → IsDeadLettered env c dlq msg err
          (after_retry env c dlq msg err
            (get_retry_count msg.headers)
            (retry_message c msg (get_retry_count msg.headers +ℤ pos 1))
            r).1
  unfolding after_retry send_to_dlq
  IsDeadLettered-after dlq msg err (s, none) e h = cc
  IsDeadLettered-after dlq msg err (s, some x) e h = record {
    refused = wrote dlq _ (some x) ∷ [];
    at_most_one = inr (x, refl);
    now = s;
    answer = (env.write dlq _ s).1;
    written = refl;
  }

  dead_lettered :
      (dlq : Text) (msg : Message) (err : Text) (s : S)
      → RefusesTwoTopics env
      → dlq ≢ []
      → c.topic ≢ []
      → IsDeadLettered env c dlq msg err
          (fail_with env c (some dlq) msg err (get_retry_count msg.headers) s).1
  unfolding fail_with
  dead_lettered dlq msg err s rule hd ht =
      let count : ℤ = get_retry_count msg.headers in
      let m : Message = retry_message c msg (count +ℤ pos 1) in
      elim (Bool-cases (ltb_ℤ count c.max_retries)) [
        | inl e ↦ rw e (
            IsDeadLettered-after dlq msg err (env.write dlq m s) (rule dlq m s hd ht).0
              (rule dlq m s hd ht).1)
        | inr e ↦ rw e (IsDeadLettered-at_once dlq msg err s)
      ]

  -- With a dead letter topic and writers that keep kafka-go's rule on topics, no failed message is
  -- ever published again: whatever its retry count is and however many retries are configured, it
  -- goes to the dead letters with the count that it came with.
  pub handle_failure-IsDeadLettered :
      (dlq : Text) (msg : Message) (err : Text) (s : S)
      → RefusesTwoTopics env
      → c.dlq_producer ≡ some dlq
      → dlq ≢ []
      → c.topic ≢ []
      → IsDeadLettered env c dlq msg err (handle_failure env c msg err s).1
  unfolding handle_failure
  handle_failure-IsDeadLettered dlq msg err s rule configured hd ht =
      subst
        (λ d.
          IsDeadLettered env c dlq msg err
            (fail_with env c d msg err (get_retry_count msg.headers) s).1)
        (sym configured) (dead_lettered dlq msg err s rule hd ht)

  -- Every message among the actions that was published on a topic of its own.
  abbrev pub Republished : (Message → Type 0) → List Action → Type 0
  Republished P [] = Unit
  Republished P (handled m e ∷ acts) = Republished P acts
  Republished P (committed m e ∷ acts) = Republished P acts
  Republished P (wrote t m (some e) ∷ acts) = Republished P acts
  Republished P (wrote t m none ∷ acts) = (m.topic ≢ [] → P m) × Republished P acts

  -- A next try of a failed message, within the configured maximum.
  pub record IsRetry (msg m : Message) : Type 0 where
    pub topic_is : m.topic ≡ c.topic
    pub key_is : m.key ≡ msg.key
    pub value_is : m.value ≡ msg.value
    pub counted : get_retry_count m.headers ≡ get_retry_count msg.headers +ℤ pos 1
    pub bounded : leb_ℤ (get_retry_count m.headers) c.max_retries ≡ true

  sent-Republished :
      (P : Message → Type 0) (dlq : Text) (msg : Message) (err : Text) (count : ℤ) (s : S)
      → Republished P (send_to_dlq env c dlq msg err count s).1
  unfolding send_to_dlq
  sent-Republished P dlq msg err count s =
      only (env.write dlq (dlq_message c msg err count (env.clock s)) s).1
    where
      only :
          (o : Option Text)
          → Republished P (wrote dlq (dlq_message c msg err count (env.clock s)) o ∷ [])
      only none = ((λ h. absurd (h refl)), tt)
      only (some e) = tt

  after_retry-Republished :
      (P : Message → Type 0) (dlq : Text) (msg : Message) (err : Text) (count : ℤ) (m : Message)
      (r : S × Option Text)
      → P m
      → Republished P (after_retry env c dlq msg err count m r).1
  unfolding after_retry
  after_retry-Republished P dlq msg err count m (s, none) h = ((λ _. h), tt)
  after_retry-Republished P dlq msg err count m (s, some e) h =
      sent-Republished P dlq msg err count s

  FitsInt-next : (a b : ℤ) → ltb_ℤ a b ≡ true → FitsInt a → FitsInt b → FitsInt (a +ℤ pos 1)
  unfolding ◌+ℤ◌
  FitsInt-next (pos a) (pos b) l h k = ground arith
  FitsInt-next (pos a) (negsuc b) l h k = ground arith
  FitsInt-next (negsuc zero) b l h k = ground arith
  FitsInt-next (negsuc (suc a)) b l h k = ground arith

  next-le : (a b : ℤ) → ltb_ℤ a b ≡ true → leb_ℤ (a +ℤ pos 1) b ≡ true
  unfolding ◌+ℤ◌
  next-le a b l = ground arith

  retry_message-IsRetry :
      (msg : Message)
      → FitsInt c.max_retries
      → ltb_ℤ (get_retry_count msg.headers) c.max_retries ≡ true
      → IsRetry msg (retry_message c msg (get_retry_count msg.headers +ℤ pos 1))
  retry_message-IsRetry msg bound l =
      let count : ℤ = get_retry_count msg.headers in
      let read : get_retry_count (update_retry_header msg.headers (count +ℤ pos 1))
          ≡ count +ℤ pos 1 =
        (get-update_retry_header msg.headers (count +ℤ pos 1)
          (FitsInt-next count c.max_retries l (get_retry_count-FitsInt msg.headers) bound)).0 in
      record {
        topic_is = refl;
        key_is = refl;
        value_is = refl;
        counted = read;
        bounded = rw read (next-le count c.max_retries l);
      }

  fail_with-Republished :
      (d : Option Text) (msg : Message) (err : Text) (s : S)
      → FitsInt c.max_retries
      → Republished (IsRetry msg) (fail_with env c d msg err (get_retry_count msg.headers) s).1
  unfolding fail_with
  fail_with-Republished none msg err s bound = tt
  fail_with-Republished (some dlq) msg err s bound =
      elim (Bool-cases (ltb_ℤ (get_retry_count msg.headers) c.max_retries)) [
        | inl e ↦ rw e (
            after_retry-Republished (IsRetry msg) dlq msg err _ _ (env.write dlq _ s)
              (retry_message-IsRetry msg bound e))
        | inr e ↦ rw e (sent-Republished (IsRetry msg) dlq msg err _ s)
      ]

  -- Whatever the writers answer, a failed message is published again only on the consumer's own
  -- topic, with its key and value, and with a retry count that is one more than before and at most
  -- the configured maximum.
  pub handle_failure-Republished :
      (msg : Message) (err : Text) (s : S)
      → FitsInt c.max_retries
      → Republished (IsRetry msg) (handle_failure env c msg err s).1
  unfolding handle_failure
  handle_failure-Republished msg err s bound = fail_with-Republished c.dlq_producer msg err s bound
