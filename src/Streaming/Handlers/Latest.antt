-- ===== src/Streaming/Handlers/Latest.antt =====
-- The latest prices that services/streaming-api/main.go keeps and answers with.
use mathlib.Core.Option.{some-injective}
use termino.Prelude.{
  ℕ, ◌≡◌, refl, sym, ap, ◌∙◌, Bool, true, false, List, [], ◌∷◌, Option, none, some, if◌then◌else◌,
  ◌==◌, Option-cases, Bool-cases, inl, inr,
}
use termino.Prelude.Int.{ℤ}
use termino.Prelude.Text.{Text, text_eq}
use termino.Prelude.Dict.{lookup, insert, lookup-insert}
use termino.Prelude.Strings.{Unicode}
use termino.Models.{AggregatedPrice, Codec}
use termino.Redis.{Rdb}
use termino.Streaming.{
  Channel, Endpoint, prices, alerts, StreamingServer, new, with_channels, broadcast,
  broadcast_alert,
}
use termino.Streaming.Handlers.{
  connect, connect_alerts, close_channel, remove_client, stop, hang_up_handler, hang_up,
  write_frame, write_text, receive, deliver_on, deliver, cache_price, receive_decoded,
  receive_price, Op, price, alert, opens, opens_alerts, delivers, hangs_up, step, run,
}
use termino.Streaming.Handlers.Safety.{run-new-IsSafe}

module _ {F : Type 0} where
  abbrev cons_decoded :
      Option (AggregatedPrice F) → List (AggregatedPrice F) → List (AggregatedPrice F)
  cons_decoded none ps = ps
  cons_decoded (some p) ps = p ∷ ps

  -- The prices that came and can be decoded.
  abbrev pub came : Codec (AggregatedPrice F) → List Op → List (AggregatedPrice F)
  came codec [] = []
  came codec (price value ∷ os) = cons_decoded (codec.unmarshal value) (came codec os)
  came codec (alert value ∷ os) = came codec os
  came codec (opens flusher query ∷ os) = came codec os
  came codec (opens_alerts flusher ∷ os) = came codec os
  came codec (delivers ch ∷ os) = came codec os
  came codec (hangs_up ch ∷ os) = came codec os

  -- The last price of a symbol, or an older one.
  abbrev pub last_price :
      Text → Option (AggregatedPrice F) → List (AggregatedPrice F) → Option (AggregatedPrice F)
  last_price k old [] = old
  last_price k old (p ∷ ps) = last_price k (if p.symbol == k then some p else old) ps

module _ {F R : Type 0} where
  -- Unless it panics, an operation leaves these latest prices.
  abbrev Leaves : List (Text × AggregatedPrice F) → Option (StreamingServer F R) → Type 0
  Leaves m o = (t : StreamingServer F R) → o ≡ some t → t.latest ≡ m

  done-Leaves : (s : StreamingServer F R) → Leaves s.latest (some s)
  done-Leaves s t e = ap (λ (x : StreamingServer F R). x.latest) (sym (some-injective _ _ e))

  panics-Leaves : (m : List (Text × AggregatedPrice F)) → Leaves m none
  panics-Leaves m t e = cc

  with_channels-Leaves :
      (s : StreamingServer F R) (o : Option (List (ℕ × Channel)))
      → Leaves s.latest (with_channels s o)
  unfolding with_channels
  with_channels-Leaves s none = panics-Leaves s.latest
  with_channels-Leaves s (some channels) = done-Leaves (record s { channels = channels })

module _ {F R : Type 0} (u : Unicode) (codec : Codec (AggregatedPrice F)) (rdb : Rdb R) where
  abbrev after_decoded :
      Option (AggregatedPrice F) → List (Text × AggregatedPrice F) → List (Text × AggregatedPrice F)
  after_decoded none m = m
  after_decoded (some p) m = insert p.symbol p m

  abbrev after : Op → List (Text × AggregatedPrice F) → List (Text × AggregatedPrice F)
  after (price value) m = after_decoded (codec.unmarshal value) m
  after _ m = m

  receive_decoded-Leaves :
      (value : Text) (o : Option (AggregatedPrice F)) (s : StreamingServer F R)
      → Leaves (after_decoded o s.latest) (receive_decoded u codec rdb value o s)
  unfolding receive_decoded broadcast
  receive_decoded-Leaves value none s = done-Leaves s
  receive_decoded-Leaves value (some p) s =
      with_channels-Leaves
        (record s {
          latest = insert p.symbol p s.latest;
          redis = cache_price u codec rdb p s.redis_ttl s.redis;
        })
        _

  connect_latest :
      (b : Bool) (query : Text) (s : StreamingServer F R)
      → (connect u codec rdb b query s).latest ≡ s.latest
  unfolding connect
  connect_latest false query s = refl
  connect_latest true query s = refl

  connect_alerts_latest :
      (b : Bool) (s : StreamingServer F R) → (connect_alerts u codec rdb b s).latest ≡ s.latest
  unfolding connect_alerts
  connect_alerts_latest false s = refl
  connect_alerts_latest true s = refl

  receive_latest :
      (ch : ℕ) (e : Endpoint) (b : Bool) (texts : List Text) (s : StreamingServer F R)
      → (receive u codec rdb ch e b texts s).latest ≡ s.latest
  unfolding receive write_text write_frame stop
  receive_latest ch e false [] s = refl
  receive_latest ch e true [] s = refl
  receive_latest ch prices false (text ∷ texts) s = refl
  receive_latest ch prices true (text ∷ texts) s = refl
  receive_latest ch alerts false (text ∷ texts) s = refl
  receive_latest ch alerts true (text ∷ texts) s = refl

  deliver_on_latest :
      (ch : ℕ) (h : Option Endpoint) (c : Option Channel) (s : StreamingServer F R)
      → (deliver_on u codec rdb ch h c s).latest ≡ s.latest
  unfolding deliver_on
  deliver_on_latest ch none c s = refl
  deliver_on_latest ch (some e) none s = refl
  deliver_on_latest ch (some e) (some c) s = receive_latest ch e c.is_closed c.buffer s

  close_channel-Leaves :
      (ch : ℕ) (c : Option Channel) (s : StreamingServer F R)
      → Leaves s.latest (close_channel u codec rdb ch c s)
  unfolding close_channel
  close_channel-Leaves ch none s = panics-Leaves s.latest
  close_channel-Leaves ch (some c) s = elim (Bool-cases c.is_closed) [
    | inl e ↦ rw e (panics-Leaves s.latest)
    | inr e ↦ rw e (done-Leaves _)
  ]

  hang_up_handler-Leaves :
      (ch : ℕ) (h : Option Endpoint) (s : StreamingServer F R)
      → Leaves s.latest (hang_up_handler u codec rdb ch h s)
  unfolding hang_up_handler remove_client stop
  hang_up_handler-Leaves ch none s = done-Leaves s
  hang_up_handler-Leaves ch (some e) s = close_channel-Leaves ch _ (stop u codec rdb ch s)

  step-Leaves :
      (o : Op) (s : StreamingServer F R) → Leaves (after o s.latest) (step u codec rdb o s)
  unfolding step receive_price broadcast_alert hang_up deliver
  step-Leaves (price value) s = receive_decoded-Leaves value (codec.unmarshal value) s
  step-Leaves (alert value) s = with_channels-Leaves s _
  step-Leaves (opens flusher query) s = λ t e. done-Leaves _ t e ∙ connect_latest flusher query s
  step-Leaves (opens_alerts flusher) s = λ t e. done-Leaves _ t e ∙ connect_alerts_latest flusher s
  step-Leaves (delivers ch) s = λ t e. done-Leaves _ t e ∙ deliver_on_latest ch _ _ s
  step-Leaves (hangs_up ch) s = hang_up_handler-Leaves ch _ s

  last_price-after :
      (k : Text) (o : Op) (os : List Op) (m : List (Text × AggregatedPrice F))
      → last_price k (lookup k (after o m)) (came codec os)
        ≡ last_price k (lookup k m) (came codec (o ∷ os))
  last_price-after k (price value) os m = by_decoded (codec.unmarshal value)
    where
      by_decoded :
          (d : Option (AggregatedPrice F))
          → last_price k (lookup k (after_decoded d m)) (came codec os)
            ≡ last_price k (lookup k m) (cons_decoded d (came codec os))
      by_decoded none = refl
      by_decoded (some p) =
          ap (λ (x : Option (AggregatedPrice F)). last_price k x (came codec os))
            (lookup-insert p.symbol k p m)
  last_price-after k (alert value) os m = refl
  last_price-after k (opens flusher query) os m = refl
  last_price-after k (opens_alerts flusher) os m = refl
  last_price-after k (delivers ch) os m = refl
  last_price-after k (hangs_up ch) os m = refl

  run_latest :
      (os : List Op) (s t : StreamingServer F R) (k : Text)
      → run u codec rdb os s ≡ some t
      → lookup k t.latest ≡ last_price k (lookup k s.latest) (came codec os)
  unfolding run
  run_latest [] s t k e = ap (lookup k) (done-Leaves s t e)
  run_latest (o ∷ os) s t k e = elim (Option-cases (step u codec rdb o s)) [
    | inl n ↦ absurd (none_not_some (rw (n, run) at e))
    | inr (mid, n) ↦
        run_latest os mid t k (rw (n, run) at e)
        ∙ ap (λ m. last_price k (lookup k m) (came codec os)) (step-Leaves o s mid n)
        ∙ last_price-after k o os s.latest
  ]
    where
      none_not_some :
          {x : StreamingServer F R} → ◌≡◌ {A = Option (StreamingServer F R)} none (some x) → ⊥
      none_not_some p = cc

  -- From a new server, any sequence of prices, alerts, connections, deliveries and disconnections ends
  -- without a panic in a server that keeps for each symbol the last price that came and can be decoded,
  -- and nothing for a symbol without one.
  pub run-new-latest :
      (os : List Op) (redis : Option R) (ttl : ℤ)
      → (t : StreamingServer F R) × (run u codec rdb os (new redis ttl) ≡ some t)
        × ((k : Text) → lookup k t.latest ≡ last_price k none (came codec os))
  run-new-latest os redis ttl =
      let (t, ran, safe) = run-new-IsSafe u codec rdb os redis ttl in
      (t, ran, λ k. run_latest os (new redis ttl) t k ran)
