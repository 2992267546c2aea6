-- ===== src/Pipeline/Messages.antt =====
-- The messages between the services in a row, and what is read of them.
use termino.Prelude.{◌≡◌, refl, ap, List, [], ◌∷◌, Option, none, some, Option-cases, inl, inr, All}
use termino.Prelude.Int.{ℤ}
use termino.Prelude.Text.{Text, text_eq}
use termino.Float.{Float}
use termino.Models.{PriceEvent, AggregatedPrice, Codec, IsFaithfulOn}
use termino.Aggregator.{PriceAggregator}
use termino.AggregatorService.Pipeline
use termino.AggregatorService.Pipeline.{messages, asked_by, run-Aggregator_run}
use termino.AlertService.Published
use termino.AlertService.Published.{texts_of, all_edges, run_prices-all_edges}
use termino.Kafka.Consumer.{Env, Turn, fetched}
use termino.Kafka.Attempts.{Attempt, asked, taken}
use termino.Kafka.Consumer.Committed.{read_messages}
use termino.Streaming.Handlers.{Op, price}
use termino.Streaming.Handlers.Latest.{came}
use termino.DbWriter.Service.Rows
use termino.DbWriter.Service.Rows.{all_rows, consume-all_rows}

abbrev text_if : ℤ → Option Text → List (ℤ × Text) → List (ℤ × Text)
text_if now none rest = rest
text_if now (some text) rest = (now, text) ∷ rest

module _ {A : Type 0} where
  abbrev cons_if : A → Option Text → List A → List A
  cons_if a none rest = rest
  cons_if a (some text) rest = a ∷ rest

  -- The values that can be written.
  abbrev pub writable : Codec A → List A → List A
  writable codec [] = []
  writable codec (a ∷ rest) = cons_if a (codec.marshal a) (writable codec rest)

  abbrev timed_if : ℤ → A → Option Text → List (ℤ × A) → List (ℤ × A)
  timed_if now a none rest = rest
  timed_if now a (some text) rest = (now, a) ∷ rest

  -- The same with the times at which they are handled.
  abbrev pub writable_at : Codec A → List (ℤ × A) → List (ℤ × A)
  writable_at codec [] = []
  writable_at codec ((now, a) ∷ rest) = timed_if now a (codec.marshal a) (writable_at codec rest)

  -- Their texts.
  abbrev pub texts_at : Codec A → List (ℤ × A) → List (ℤ × Text)
  texts_at codec [] = []
  texts_at codec ((now, a) ∷ rest) = text_if now (codec.marshal a) (texts_at codec rest)

abbrev pub values_of : List (Text × Text) → List Text
values_of [] = []
values_of ((key, value) ∷ rest) = value ∷ values_of rest

-- The messages of the prices, as the streaming server handles them.
abbrev pub prices_in : List Text → List Op
prices_in [] = []
prices_in (value ∷ rest) = price value ∷ prices_in rest

-- The messages of a topic, fetched one after the other.
abbrev pub turns_of : Text → List (Text × Text) → List Turn
turns_of topic [] = []
turns_of topic ((key, value) ∷ rest) =
    fetched (record { topic = topic; key = key; value = value; headers = [] }) ∷ turns_of topic rest

module _ {F S : Type 0} ⦃fl : Float F⦄ (env : Env S) (topic : Text) (events : Codec (PriceEvent F))
    (aggregates : Codec (AggregatedPrice F)) where
  pub decoded-texts_at :
      (P : PriceEvent F → Type 0) (es : List (ℤ × PriceEvent F))
      → IsFaithfulOn P events
      → All (λ e. P e.1) es
      → Pipeline.decoded env topic events aggregates (texts_at events es) ≡ writable_at events es
  unfolding Pipeline.decoded Pipeline.consed
  decoded-texts_at P [] h k = refl
  decoded-texts_at P ((now, e) ∷ es) h k = elim (Option-cases (events.marshal e)) [
    | inl m ↦ rw m (decoded-texts_at P es h k.1)
    | inr (text, m) ↦
        rw (m, h.unmarshal-marshal e text k.0 m) (ap (◌∷◌ (now, e)) (decoded-texts_at P es h k.1))
  ]

  pub writable_at-All :
      (P : PriceEvent F → Type 0) (es : List (ℤ × PriceEvent F))
      → All (λ e. P e.1) es
      → All (λ e. P e.1) (writable_at events es)
  writable_at-All P [] k = tt
  writable_at-All P ((now, e) ∷ es) k = elim (Option-cases (events.marshal e)) [
    | inl m ↦ rw m (writable_at-All P es k.1)
    | inr (text, m) ↦ rw m (k.0, writable_at-All P es k.1)
  ]

  -- The messages that the broker took are those of the aggregates at their places.
  pub decoded-taken :
      (Q : AggregatedPrice F → Type 0) (as' : List (Option Text)) (rs : List (AggregatedPrice F))
      → IsFaithfulOn Q aggregates
      → All Q rs
      → Published.decoded aggregates
          (values_of (taken as' (messages env topic events aggregates rs)))
        ≡ taken as' (writable aggregates rs)
  unfolding messages Pipeline.keyed
  decoded-taken Q [] rs h k = refl
  decoded-taken Q (e ∷ es) [] h k = refl
  decoded-taken Q (none ∷ es) (r ∷ rs) h k = elim (Option-cases (aggregates.marshal r)) [
    | inl m ↦ rw m (decoded-taken Q (none ∷ es) rs h k.1)
    | inr (text, m) ↦
        rw (m, h.unmarshal-marshal r text k.0 m) (ap (◌∷◌ r) (decoded-taken Q es rs h k.1))
  ]
  decoded-taken Q (some x ∷ es) (r ∷ rs) h k = elim (Option-cases (aggregates.marshal r)) [
    | inl m ↦ rw m (decoded-taken Q (some x ∷ es) rs h k.1)
    | inr (text, m) ↦ rw m (decoded-taken Q es rs h k.1)
  ]

  pub asked_by-some :
      (o : Option (PriceAggregator F × S × List Attempt)) (a : PriceAggregator F)
      (ms : List (Text × Text))
      → asked_by env topic events aggregates o ≡ some (a, ms)
      → (s : S) × (sent : List Attempt) × (o ≡ some (a, s, sent)) × (asked sent ≡ ms)
  asked_by-some none a ms h = cc
  asked_by-some (some (b, s, sent)) a ms h = (s, sent, cc, cc)

module _ {F : Type 0} ⦃fl : Float F⦄ (codec : Codec (AggregatedPrice F)) (topic : Text) where
  pub decoded-read_messages :
      (sent : List (Text × Text))
      → Rows.decoded codec (read_messages (turns_of topic sent))
        ≡ Published.decoded codec (values_of sent)
  decoded-read_messages [] = refl
  decoded-read_messages ((key, value) ∷ sent) = elim (Option-cases (codec.unmarshal value)) [
    | inl e ↦ rw e (decoded-read_messages sent)
    | inr (p, e) ↦ rw e (ap (◌∷◌ p) (decoded-read_messages sent))
  ]

module _ {F : Type 0} ⦃fl : Float F⦄ (codec : Codec (AggregatedPrice F)) where
  pub came-prices_in :
      (values : List Text) → came codec (prices_in values) ≡ Published.decoded codec values
  came-prices_in [] = refl
  came-prices_in (value ∷ values) = elim (Option-cases (codec.unmarshal value)) [
    | inl e ↦ rw e (came-prices_in values)
    | inr (p, e) ↦ rw e (ap (◌∷◌ p) (came-prices_in values))
  ]
