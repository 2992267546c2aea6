-- ===== src/Streaming/Router/Limited.antt =====
-- How many streams the HTTP server of services/streaming-api/main.go runs at once.
use mathlib.Core.Option.{some-injective}
use termino.Prelude.{
  ℕ, ◌+◌, ◌≤◌, ◌≡◌, refl, sym, subst, List, [], ◌∷◌, Option, none, some, length, arith, nat_eq,
}
use termino.Prelude.Int.{ℤ, pos, pos_part}
use termino.Prelude.Text.{Text}
use termino.Prelude.Dict.{lookup, keys}
use termino.Prelude.Strings.{Unicode}
use termino.Models.{AggregatedPrice, Codec}
use termino.Redis.{Rdb}
use termino.Middleware.RateLimit.{Rate}
use termino.Streaming.{Endpoint, StreamingServer}
use termino.Streaming.History.{Query}
use termino.Streaming.Handlers
use termino.Streaming.Handlers.{opens, opens_alerts, hangs_up}
use termino.Streaming.Handlers.Open.{IsSafe}
use termino.Streaming.Handlers.Safety.{new-IsSafe, step-IsSafe}
use termino.Streaming.Handlers.Tracked.{
  AreSame, AreSame-IsTracked, deliver-AreSame, receive_price-AreSame, broadcast_alert-AreSame,
}
use termino.Streaming.Handlers.Tracked.Streams.{number, hang_up-IsTracked}
use termino.Streaming.Router.{
  Route, Api, new_api, with_server, ended, end, Op, receives, decides, ends, delivers, leaves,
  cleans, price, alert, step, run,
}
use termino.Streaming.Router.Places.{Fits, end-Fits}
use termino.Streaming.Router.Requests.{
  IsLimited, receive-IsLimited, decide-IsLimited, leave-IsLimited,
}

module _ {F R G L : Type 0} (u : Unicode) (codec : Codec (AggregatedPrice F)) (rdb : Rdb R)
    (lib : Rate G L) (split : Text → Option Text) (mux : List (Text × Route) → Text → Option Route)
    (query : Option (Query F)) (max : ℤ) where
  -- An operation answers, and leaves the server limited.
  abbrev pub Succeeds : Option (Api F R G L) → Type 0
  Succeeds o = (b : Api F R G L) × (o ≡ some b) × IsLimited max b

  with_server-Succeeds :
      (a : Api F R G L) (o : Option (StreamingServer F R)) (t : StreamingServer F R)
      → o ≡ some t
      → IsLimited max (record a { server = t })
      → Succeeds (with_server u codec rdb lib split mux query a o)
  unfolding with_server
  with_server-Succeeds a o t e h = (record a { server = t }, rw (e, with_server) refl, h)

  ended-number :
      (a : Api F R G L) (o : Option Endpoint) (m m' : ℕ)
      → m ≡ number o + m'
      → m' + ended u codec rdb lib split mux query a o ≡ m + a.leaving
  unfolding ended
  ended-number a none m m' h = omega arith
  ended-number a (some e) m m' h = omega arith

  end-IsLimited :
      (ch : ℕ) (a : Api F R G L)
      → IsLimited max a
      → Succeeds (end u codec rdb lib split mux query ch a)
  unfolding end Handlers.step
  end-IsLimited ch a h =
      let (t, stepped, safe) = step-IsSafe u codec rdb (hangs_up ch) a.server h.safe in
      let (tracked, fewer) = hang_up-IsTracked u codec rdb ch a.server t h.tracked stepped in
      let o : Option Endpoint = lookup ch a.server.handlers in
      let n = ended u codec rdb lib split mux query a o in
      with_server-Succeeds (record a { leaving = n }) _ t stepped
        (record {
          safe = safe;
          tracked = tracked;
          same_max = h.same_max;
          fits =
              end-Fits max a.active a.counted _ a.leaving _ _ (ended-number a o _ _ fewer) h.fits;
        })

  -- The texts leave the handlers as they are.
  same-Succeeds :
      (a : Api F R G L) (o : Option (StreamingServer F R)) (t : StreamingServer F R)
      → o ≡ some t
      → AreSame a.server t
      → IsSafe t
      → IsLimited max a
      → Succeeds (with_server u codec rdb lib split mux query a o)
  same-Succeeds a o t e same safe h = with_server-Succeeds a o t e (record {
    safe = safe;
    tracked = AreSame-IsTracked same h.tracked;
    same_max = h.same_max;
    fits =
        subst (λ hs. Fits max a.active a.counted (length hs) a.leaving) (sym same.handlers) h.fits;
  })

  deliver-IsLimited :
      (ch : ℕ) (a : Api F R G L)
      → IsLimited max a
      → IsLimited max (record a { server = Handlers.deliver u codec rdb ch a.server })
  unfolding Handlers.step
  deliver-IsLimited ch a h =
      let (t, stepped, safe) = step-IsSafe u codec rdb (Handlers.delivers ch) a.server h.safe in
      let same = deliver-AreSame u codec rdb ch a.server h.safe in
      record {
        safe = subst IsSafe (sym (some-injective _ _ stepped)) safe;
        tracked = AreSame-IsTracked same h.tracked;
        same_max = h.same_max;
        fits =
            subst (λ hs. Fits max a.active a.counted (length hs) a.leaving) (sym same.handlers)
              h.fits;
      }

  pub step-IsLimited :
      (o : Op) (a : Api F R G L)
      → IsLimited max a
      → Succeeds (step u codec rdb lib split mux query o a)
  unfolding step Handlers.step
  step-IsLimited (receives r now) a h =
      (_, refl, receive-IsLimited u codec rdb lib split mux query max r now a h)
  step-IsLimited (decides i) a h =
      (_, refl, decide-IsLimited u codec rdb lib split mux query max i a h)
  step-IsLimited (ends ch) a h = end-IsLimited ch a h
  step-IsLimited leaves a h = (_, refl, leave-IsLimited u codec rdb lib split mux query max a h)
  step-IsLimited (cleans now) a h =
      (_, refl, record { safe = h.safe; tracked = h.tracked; same_max = h.same_max; fits = h.fits })
  step-IsLimited (price value) a h =
      let (t, stepped, safe) = step-IsSafe u codec rdb (Handlers.price value) a.server h.safe in
      same-Succeeds a _ t stepped (receive_price-AreSame u codec rdb value a.server t stepped) safe
        h
  step-IsLimited (alert value) a h =
      let (t, stepped, safe) = step-IsSafe u codec rdb (Handlers.alert value) a.server h.safe in
      same-Succeeds a _ t stepped (broadcast_alert-AreSame value a.server t stepped) safe h
  step-IsLimited (delivers ch) a h = (_, refl, deliver-IsLimited ch a h)

  run_on :
      (os : List Op) (o : Option (Api F R G L)) (b : Api F R G L)
      → o ≡ some b
      → Succeeds (run u codec rdb lib split mux query os b)
      → Succeeds (elim o [ none ↦ none | some c ↦ run u codec rdb lib split mux query os c ])
  run_on os o b e h = rw e h

  pub run-IsLimited :
      (os : List Op) (a : Api F R G L)
      → IsLimited max a
      → Succeeds (run u codec rdb lib split mux query os a)
  unfolding run
  run-IsLimited [] a h = (a, refl, h)
  run-IsLimited (o ∷ os) a h =
      let (b, stepped, hb) = step-IsLimited o a h in run_on os _ b stepped (run-IsLimited os b hb)

  pub new-IsLimited :
      (rate : G) (burst ttl : ℤ) (redis : Option R)
      → IsLimited {F = F} {L = L} max (new_api rate burst max redis ttl)
  new-IsLimited rate burst ttl redis = record {
    safe = new-IsSafe u codec rdb redis ttl;
    tracked = record { distinct = tt; fresh = tt; registered = refl; gauge = refl };
    same_max = refl;
    fits = record { in_flight = refl; limited = omega arith };
  }

  -- Whatever requests come, in whatever interleaving they are limited, counted, tested, started,
  -- ended and taken from the count again, and whatever texts come and are delivered between: the
  -- server does not panic; at most `max` streams of both endpoints together run at once (none, if
  -- `max` is negative); the counter is the number of requests between their increment and their
  -- decrement; the clients are those of the running handlers, and the gauge is their number.
  pub run-new_limited :
      (os : List Op) (rate : G) (burst ttl : ℤ) (redis : Option R)
      → (a : Api F R G L) × (run u codec rdb lib split mux query os
            (new_api rate burst max redis ttl)
          ≡ some a)
        × (length a.server.handlers ≤ pos_part max)
        × (a.active ≡ pos (length a.counted + length a.server.handlers + a.leaving))
        × (keys a.server.clients ≡ keys a.server.handlers)
        × (a.server.active_clients ≡ pos (length a.server.handlers))
  run-new_limited os rate burst ttl redis =
      let (a, ran, h) =
        run-IsLimited os (new_api rate burst max redis ttl) (new-IsLimited rate burst ttl redis) in
      (
        a,
        ran,
        omega (arith, h.fits.limited),
        h.fits.in_flight,
        h.tracked.registered,
        h.tracked.gauge,
      )
