-- ===== src/Streaming/Router/Lasting.antt =====
-- What ends a stream of services/streaming-api/main.go.
use mathlib.Core.Option.{some-injective}
use termino.Prelude.{
  ℕ, ◌≡◌, refl, sym, ◌∙◌, subst, Bool, false, List, [], ◌∷◌, Option, none, some, ◌==◌, nat_eq, All,
  Bool-cases, inl, inr, arith,
}
use termino.Prelude.Int.{ℤ, ltb_ℤ}
use termino.Prelude.Text.{Text}
use termino.Prelude.Dict.{lookup}
use termino.Prelude.Strings.{Unicode}
use termino.Models.{AggregatedPrice, Codec}
use termino.Redis.{Rdb}
use termino.Middleware.RateLimit.{Rate, address_of, serve}
use termino.Streaming.{Endpoint, prices, alerts, StreamingServer, broadcast_alert}
use termino.Streaming.History.{Query}
use termino.Streaming.Handlers.{hang_up, receive_price}
use termino.Streaming.Handlers.Tracked.{
  IsTracked, deliver-AreSame, receive_price-AreSame, broadcast_alert-AreSame,
}
use termino.Streaming.Handlers.Tracked.Lasting.{
  Lasts, AreSame-Lasts, connect-Lasts, connect_alerts-Lasts, hang_up-Lasts,
}
use termino.Streaming.Router.{
  Request, Route, routes, stream, latest_prices, history, health, metrics, Counted, Api, new_api,
  take_out, count, dispatch, receive, connected, start, decide_on, decide, with_server, ended, end,
  leave, Op, receives, decides, ends, delivers, leaves, cleans, price, alert, step, run,
}
use termino.Streaming.Router.Requests.{IsLimited}
use termino.Streaming.Router.Limited.{step-IsLimited, run-IsLimited, new-IsLimited}

-- Whether the request of this channel ends.
abbrev pub is_end : ℕ → Op → Bool
is_end ch (ends j) = j == ch
is_end ch (receives r now) = false
is_end ch (decides i) = false
is_end ch (delivers j) = false
is_end ch leaves = false
is_end ch (cleans now) = false
is_end ch (price text) = false
is_end ch (alert text) = false

module _ {F R G L : Type 0} (u : Unicode) (codec : Codec (AggregatedPrice F)) (rdb : Rdb R)
    (lib : Rate G L) (split : Text → Option Text) (mux : List (Text × Route) → Text → Option Route)
    (query : Option (Query F)) (ch : ℕ) where
  dispatch-server :
      (r : Request) (o : Option Route) (a : Api F R G L)
      → (dispatch u codec rdb lib split mux query r o a).0.server ≡ a.server
  unfolding dispatch count
  dispatch-server r none a = refl
  dispatch-server r (some (stream e)) a = refl
  dispatch-server r (some latest_prices) a = refl
  dispatch-server r (some history) a = refl
  dispatch-server r (some health) a = refl
  dispatch-server r (some metrics) a = refl

  receive-server :
      (r : Request) (now : ℤ) (a : Api F R G L)
      → (receive u codec rdb lib split mux query r now a).0.server ≡ a.server
  unfolding receive
  receive-server r now a =
      let (limiter, allowed) = serve lib (address_of split r.remote) now a.limiter in
      elim (Bool-cases allowed) [
        | inl e ↦ rw e (dispatch-server r (mux routes r.path) (record a { limiter = limiter }))
        | inr e ↦ rw e refl
      ]

  connected-Lasts :
      (e : Endpoint) (r : Request) (s : StreamingServer F R)
      → IsTracked s
      → Lasts ch s (connected u codec rdb lib split mux query e r s)
  unfolding connected
  connected-Lasts prices r s h = connect-Lasts u codec rdb ch r.flusher r.symbols s h
  connected-Lasts alerts r s h = connect_alerts-Lasts u codec rdb ch r.flusher s h

  decide_on-Lasts :
      (o : Option (Counted × List Counted)) (a : Api F R G L)
      → IsTracked a.server
      → Lasts ch a.server (decide_on u codec rdb lib split mux query o a).0.server
  unfolding decide_on start
  decide_on-Lasts none a h = λ e l. l
  decide_on-Lasts (some (c, rest)) a h = elim (Bool-cases (ltb_ℤ a.max c.current)) [
    | inl over ↦ rw over (λ e l. l)
    | inr under ↦ rw under (connected-Lasts c.endpoint c.request a.server h)
  ]

  leave-server : (a : Api F R G L) → (leave u codec rdb lib split mux query a).server ≡ a.server
  unfolding leave
  leave-server a = ground arith

  with_server-Lasts :
      (a b : Api F R G L) (o : Option (StreamingServer F R))
      → with_server u codec rdb lib split mux query a o ≡ some b
      → ((t : StreamingServer F R) → o ≡ some t → Lasts ch a.server t)
      → Lasts ch a.server b.server
  unfolding with_server
  with_server-Lasts a b none e f = cc
  with_server-Lasts a b (some t) e f =
      subst (λ x. Lasts ch a.server x.server) (some-injective _ _ e) (f t refl)

  step-Lasts :
      (max : ℤ) (o : Op) (a b : Api F R G L)
      → is_end ch o ≡ false
      → IsLimited max a
      → step u codec rdb lib split mux query o a ≡ some b
      → Lasts ch a.server b.server
  unfolding step end decide
  step-Lasts max (receives r now) a b n h e =
      subst (λ x. Lasts ch a.server x.server) (some-injective _ _ e)
        (subst (Lasts ch a.server) (sym (receive-server r now a)) (λ f l. l))
  step-Lasts max (decides i) a b n h e =
      subst (λ x. Lasts ch a.server x.server) (some-injective _ _ e)
        (decide_on-Lasts (take_out i a.counted) a h.tracked)
  step-Lasts max (ends j) a b n h e =
      let o : Option Endpoint = lookup j a.server.handlers in
      with_server-Lasts (record a { leaving = ended u codec rdb lib split mux query a o }) b
        (hang_up u codec rdb j a.server) e
        (λ t stepped. hang_up-Lasts u codec rdb ch j a.server t n stepped)
  step-Lasts max leaves a b n h e =
      subst (λ x. Lasts ch a.server x.server) (some-injective _ _ e)
        (subst (Lasts ch a.server) (sym (leave-server a)) (λ f l. l))
  step-Lasts max (cleans now) a b n h e =
      subst (λ x. Lasts ch a.server x.server) (some-injective _ _ e) (λ f l. l)
  step-Lasts max (price value) a b n h e =
      with_server-Lasts a b (receive_price u codec rdb value a.server) e (λ t stepped.
        AreSame-Lasts ch a.server t (receive_price-AreSame u codec rdb value a.server t stepped))
  step-Lasts max (alert value) a b n h e =
      with_server-Lasts a b (broadcast_alert value a.server) e (λ t stepped.
        AreSame-Lasts ch a.server t (broadcast_alert-AreSame value a.server t stepped))
  step-Lasts max (delivers j) a b n h e =
      subst (λ x. Lasts ch a.server x.server) (some-injective _ _ e)
        (AreSame-Lasts ch a.server _ (deliver-AreSame u codec rdb j a.server h.safe))

  run_on-Lasts :
      (os : List Op) (o : Option (Api F R G L)) (b c : Api F R G L)
      → o ≡ some b
      → run u codec rdb lib split mux query os b ≡ some c
      → elim o [ none ↦ none | some d ↦ run u codec rdb lib split mux query os d ] ≡ some c
  run_on-Lasts os o b c e h = rw e h

  run-Lasts :
      (max : ℤ) (os : List Op) (a : Api F R G L)
      → IsLimited max a
      → All (λ o. is_end ch o ≡ false) os
      → (b : Api F R G L) × (run u codec rdb lib split mux query os a ≡ some b)
        × Lasts ch a.server b.server
  unfolding run
  run-Lasts max [] a h n = (a, refl, λ e l. l)
  run-Lasts max (o ∷ os) a h n =
      let (b, stepped, hb) = step-IsLimited u codec rdb lib split mux query max o a h in
      let (c, ran, lasts) = run-Lasts max os b hb n.1 in
      let first = step-Lasts max o a b n.0 h stepped in
      (c, run_on-Lasts os _ b c stepped ran, λ e l. lasts e (first e l))

  -- A stream is ended by nothing but the end of its own request: when it runs after any operations on
  -- a new server, it still runs after any more that do not end its request, whatever requests come,
  -- start and end, and whatever texts come and are delivered; the server does not panic meanwhile.
  pub run-stream_lasts :
      (os os' : List Op) (rate : G) (burst max ttl : ℤ) (redis : Option R) (a : Api F R G L)
      (e : Endpoint)
      → run u codec rdb lib split mux query os (new_api rate burst max redis ttl) ≡ some a
      → lookup ch a.server.handlers ≡ some e
      → All (λ o. is_end ch o ≡ false) os'
      → (b : Api F R G L) × (run u codec rdb lib split mux query os' a ≡ some b)
        × (lookup ch b.server.handlers ≡ some e)
  run-stream_lasts os os' rate burst max ttl redis a e ran found n =
      let (a', ran', h) =
        run-IsLimited u codec rdb lib split mux query max os (new_api rate burst max redis ttl)
          (new-IsLimited u codec rdb lib split mux query max rate burst ttl redis) in
      let limited : IsLimited max a =
        subst (IsLimited max) (some-injective _ _ (sym ran' ∙ ran)) h in
      let (b, went, lasts) = run-Lasts max os' a limited n in (b, went, lasts e found)
