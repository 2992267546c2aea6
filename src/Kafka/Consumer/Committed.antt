-- ===== src/Kafka/Consumer/Committed.antt =====
-- The loop of pkg/kafka/consumer.go handles and commits every message that it fetches.
use mathlib.Core.Path.{ap₂}
use termino.Prelude.{
  ◌≡◌, refl, ap, ◌∙◌, List, [], ◌∷◌, ◌++◌, Option, none, some, Bool-cases, inl, inr,
}
use termino.Prelude.Int.{ℤ, ltb_ℤ}
use termino.Prelude.Text.{Text}
use termino.Kafka.{Message}
use termino.Kafka.Consumer.{
  Env, Consumer, Action, handled, wrote, committed, send_to_dlq, after_retry, fail_with,
  handle_failure, commit_after, settle, process, Turn, done, fetched, fetch_failed, fetch_cancelled,
  consume,
}

-- The messages that are fetched before the loop ends.
abbrev pub read_messages : List Turn → List Message
read_messages [] = []
read_messages (done ∷ ts) = []
read_messages (fetch_cancelled ∷ ts) = []
read_messages (fetch_failed ∷ ts) = read_messages ts
read_messages (fetched msg ∷ ts) = msg ∷ read_messages ts

pub data Mark : Type 0 where
  handles commits : Message → Mark

-- The calls of the handler and the commits among the actions.
abbrev pub marks : List Action → List Mark
marks [] = []
marks (handled m e ∷ acts) = handles m ∷ marks acts
marks (wrote t m e ∷ acts) = marks acts
marks (committed m e ∷ acts) = commits m ∷ marks acts

abbrev pub each_once : List Message → List Mark
each_once [] = []
each_once (m ∷ ms) = handles m ∷ commits m ∷ each_once ms

marks-append : (xs ys : List Action) → marks (xs ++ ys) ≡ marks xs ++ marks ys
marks-append [] ys = refl
marks-append (handled m e ∷ xs) ys = ap (◌∷◌ (handles m)) (marks-append xs ys)
marks-append (wrote t m e ∷ xs) ys = marks-append xs ys
marks-append (committed m e ∷ xs) ys = ap (◌∷◌ (commits m)) (marks-append xs ys)

module _ {S : Type 0} (env : Env S) (c : Consumer) where
  marks-after_retry :
      (dlq : Text) (msg : Message) (err : Text) (count : ℤ) (m : Message) (r : S × Option Text)
      → marks (after_retry env c dlq msg err count m r).1 ≡ []
  unfolding after_retry send_to_dlq
  marks-after_retry dlq msg err count m (s, none) = refl
  marks-after_retry dlq msg err count m (s, some e) = refl

  marks-fail_with :
      (d : Option Text) (msg : Message) (err : Text) (count : ℤ) (s : S)
      → marks (fail_with env c d msg err count s).1 ≡ []
  unfolding fail_with send_to_dlq
  marks-fail_with none msg err count s = refl
  marks-fail_with (some dlq) msg err count s = elim (Bool-cases (ltb_ℤ count c.max_retries)) [
    | inl e ↦ rw e (marks-after_retry dlq msg err count _ (env.write dlq _ s))
    | inr e ↦ rw e
  ]

  marks-settle :
      (msg : Message) (r : S × Option Text)
      → marks (settle env c msg r).1 ≡ handles msg ∷ commits msg ∷ []
  unfolding settle commit_after handle_failure
  marks-settle msg (s, none) = refl
  marks-settle msg (s, some err) = ap (◌∷◌ (handles msg)) (
      marks-append (handle_failure env c msg err s).1 _
      ∙ ap (λ (xs : List Mark). xs ++ commits msg ∷ [])
          (marks-fail_with c.dlq_producer msg err _ s))

  -- Whatever the brokers and the handler answer, the loop calls the handler on every message that it
  -- fetches, once and in order, and commits that message, once, before it fetches another: also after a
  -- handler that failed.
  pub consume-each_once :
      (ts : List Turn) (s : S) → marks (consume env c ts s).1 ≡ each_once (read_messages ts)
  unfolding consume process
  consume-each_once [] s = refl
  consume-each_once (done ∷ ts) s = refl
  consume-each_once (fetch_cancelled ∷ ts) s = refl
  consume-each_once (fetch_failed ∷ ts) s = consume-each_once ts s
  consume-each_once (fetched msg ∷ ts) s =
      marks-append (process env c msg s).1 _
      ∙ ap₂ ◌++◌ (marks-settle msg (env.handle msg s))
          (consume-each_once ts (process env c msg s).0)
