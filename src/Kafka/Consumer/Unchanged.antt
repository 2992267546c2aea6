-- ===== src/Kafka/Consumer/Unchanged.antt =====
-- What a service keeps beside the brokers is changed by its handler alone in pkg/kafka/consumer.go.
use termino.Prelude.{◌≡◌, refl, ◌∙◌, Option, none, some, Bool-cases, inl, inr}
use termino.Prelude.Int.{ℤ, ltb_ℤ}
use termino.Prelude.Text.{Text}
use termino.Kafka.{Message}
use termino.Kafka.Consumer.{
  Env, Consumer, send_to_dlq, after_retry, fail_with, handle_failure, commit_after, settle,
}

-- A view of the state that writes and commits leave as it is.
pub record IsApart {S X : Type 0} (env : Env S) (view : S → X) : Type 0 where
  pub after_write : (t : Text) (m : Message) (s : S) → view (env.write t m s).0 ≡ view s
  pub after_commit : (m : Message) (s : S) → view (env.commit m s).0 ≡ view s

module _ {S X : Type 0} (env : Env S) (c : Consumer) (view : S → X) (apart : IsApart env view) where
  send_to_dlq_view :
      (dlq : Text) (msg : Message) (err : Text) (count : ℤ) (s : S)
      → view (send_to_dlq env c dlq msg err count s).0 ≡ view s
  unfolding send_to_dlq
  send_to_dlq_view dlq msg err count s = apart.after_write dlq _ s

  after_retry_view :
      (dlq : Text) (msg : Message) (err : Text) (count : ℤ) (m : Message) (r : S × Option Text)
      → view (after_retry env c dlq msg err count m r).0 ≡ view r.0
  unfolding after_retry
  after_retry_view dlq msg err count m (s, none) = refl
  after_retry_view dlq msg err count m (s, some e) = send_to_dlq_view dlq msg err count s

  fail_with_view :
      (d : Option Text) (msg : Message) (err : Text) (count : ℤ) (s : S)
      → view (fail_with env c d msg err count s).0 ≡ view s
  unfolding fail_with
  fail_with_view none msg err count s = refl
  fail_with_view (some dlq) msg err count s = elim (Bool-cases (ltb_ℤ count c.max_retries)) [
    | inl e ↦
        rw e (after_retry_view dlq msg err count _ (env.write dlq _ s) ∙ apart.after_write dlq _ s)
    | inr e ↦ rw e (send_to_dlq_view dlq msg err count s)
  ]

  pub settle_view : (msg : Message) (r : S × Option Text) → view (settle env c msg r).0 ≡ view r.0
  unfolding settle commit_after handle_failure
  settle_view msg (s, none) = apart.after_commit msg s
  settle_view msg (s, some err) =
      apart.after_commit msg (handle_failure env c msg err s).0
      ∙ fail_with_view c.dlq_producer msg err _ s
