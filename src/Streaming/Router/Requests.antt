-- ===== src/Streaming/Router/Requests.antt =====
-- The requests of the HTTP server of services/streaming-api/main.go, against the limit of its streams.
use mathlib.Core.Option.{some-injective}
use termino.Prelude.{
  ℕ, zero, suc, ◌+◌, ◌≡◌, refl, sym, subst, Bool, true, false, List, Option, none, some, length,
  if◌then◌else◌, arith, Bool-cases, inl, inr, nat_eq,
}
use termino.Prelude.Int.{ℤ, pos, ◌-ℤ◌, ltb_ℤ}
use termino.Prelude.Text.{Text}
use termino.Prelude.Strings.{Unicode}
use termino.Models.{AggregatedPrice, Codec}
use termino.Redis.{Rdb}
use termino.Middleware.RateLimit.{Rate, address_of, serve}
use termino.Streaming.{Endpoint, prices, alerts, StreamingServer}
use termino.Streaming.History.{Query}
use termino.Streaming.Handlers
use termino.Streaming.Handlers.{opens, opens_alerts, hangs_up}
use termino.Streaming.Handlers.Open.{IsSafe}
use termino.Streaming.Handlers.Safety.{step-IsSafe}
use termino.Streaming.Handlers.Tracked.{IsTracked}
use termino.Streaming.Handlers.Tracked.Streams.{connect-IsTracked, connect_alerts-IsTracked}
use termino.Streaming.Router.{
  Request, Route, routes, stream, latest_prices, history, health, metrics, Counted, Api, take_out,
  count, dispatch, receive, connected, start, decide_on, decide, leave,
}
use termino.Streaming.Router.Places.{
  Fits, IsTaken, take_out-IsTaken, count-Fits, refuse-Fits, admit-Fits, leave-Fits,
}

-- The server is in order, and its handlers fit the limit.
pub record IsLimited {F R G L : Type 0} (max : ℤ) (a : Api F R G L) : Type 0 where
  pub safe : IsSafe a.server
  pub tracked : IsTracked a.server
  pub same_max : a.max ≡ max
  pub fits : Fits max a.active a.counted (length a.server.handlers) a.leaving

module _ {F R G L : Type 0} (u : Unicode) (codec : Codec (AggregatedPrice F)) (rdb : Rdb R)
    (lib : Rate G L) (split : Text → Option Text) (mux : List (Text × Route) → Text → Option Route)
    (query : Option (Query F)) (max : ℤ) where
  dispatch-IsLimited :
      (r : Request) (route : Option Route) (a : Api F R G L)
      → IsLimited max a
      → IsLimited max (dispatch u codec rdb lib split mux query r route a).0
  unfolding dispatch count
  dispatch-IsLimited r none a h = h
  dispatch-IsLimited r (some (stream e)) a h = record {
    safe = h.safe;
    tracked = h.tracked;
    same_max = h.same_max;
    fits = count-Fits max a.active a.counted _ a.leaving e r h.fits;
  }
  dispatch-IsLimited r (some latest_prices) a h = h
  dispatch-IsLimited r (some history) a h = h
  dispatch-IsLimited r (some health) a h = h
  dispatch-IsLimited r (some metrics) a h = h

  pub receive-IsLimited :
      (r : Request) (now : ℤ) (a : Api F R G L)
      → IsLimited max a
      → IsLimited max (receive u codec rdb lib split mux query r now a).0
  unfolding receive
  receive-IsLimited r now a h =
      let (limiter, allowed) = serve lib (address_of split r.remote) now a.limiter in
      let same : IsLimited max (record a { limiter = limiter }) = record {
        safe = h.safe;
        tracked = h.tracked;
        same_max = h.same_max;
        fits = h.fits;
      } in
      elim (Bool-cases allowed) [
        | inl e ↦ rw e (dispatch-IsLimited r (mux routes r.path) _ same)
        | inr e ↦ rw e same
      ]

  -- A handler starts, or answers at once.
  connected-IsTracked :
      (e : Endpoint) (r : Request) (s : StreamingServer F R)
      → IsTracked s
      → IsTracked (connected u codec rdb lib split mux query e r s)
        × (length (connected u codec rdb lib split mux query e r s).handlers
            ≡ (if r.flusher then suc (length s.handlers) else length s.handlers))
  unfolding connected
  connected-IsTracked prices r s h = connect-IsTracked u codec rdb r.flusher r.symbols s h
  connected-IsTracked alerts r s h = connect_alerts-IsTracked u codec rdb r.flusher s h

  connected-IsSafe :
      (e : Endpoint) (r : Request) (s : StreamingServer F R)
      → IsSafe s
      → IsSafe (connected u codec rdb lib split mux query e r s)
  unfolding connected Handlers.step
  connected-IsSafe prices r s h =
      let (t, stepped, safe) = step-IsSafe u codec rdb (opens r.flusher r.symbols) s h in
      subst IsSafe (sym (some-injective _ _ stepped)) safe
  connected-IsSafe alerts r s h =
      let (t, stepped, safe) = step-IsSafe u codec rdb (opens_alerts r.flusher) s h in
      subst IsSafe (sym (some-injective _ _ stepped)) safe

  one_more :
      (b : Bool) (m n m' : ℕ)
      → m' ≡ (if b then suc m else m)
      → m' + (if b then n else n + 1) ≡ suc (m + n)
  one_more b m n m' h = ground arith

  decide_on-IsLimited :
      (o : Option (Counted × List Counted)) (a : Api F R G L)
      → ((q : Counted × List Counted) → o ≡ some q → IsTaken max a.counted q)
      → IsLimited max a
      → IsLimited max (decide_on u codec rdb lib split mux query o a).0
  unfolding decide_on start
  decide_on-IsLimited none a t h = h
  decide_on-IsLimited (some (c, rest)) a t h = elim (Bool-cases (ltb_ℤ a.max c.current)) [
    | inl over ↦ rw over (record {
      safe = h.safe;
      tracked = h.tracked;
      same_max = h.same_max;
      fits =
          refuse-Fits max a.active a.counted rest c _ a.leaving
            (subst (λ m. ltb_ℤ m c.current ≡ true) h.same_max over) (t (c, rest) refl) h.fits;
    })
    | inr under ↦
        let (tracked, more) = connected-IsTracked c.endpoint c.request a.server h.tracked in
        rw under (record {
          safe = connected-IsSafe c.endpoint c.request a.server h.safe;
          tracked = tracked;
          same_max = h.same_max;
          fits =
              admit-Fits max a.active a.counted rest c _ a.leaving _ _
                (subst (λ m. ltb_ℤ m c.current ≡ false) h.same_max under)
                (one_more c.request.flusher _ a.leaving _ more) (t (c, rest) refl) h.fits;
        })
  ]

  pub decide-IsLimited :
      (i : ℕ) (a : Api F R G L)
      → IsLimited max a
      → IsLimited max (decide u codec rdb lib split mux query i a).0
  unfolding decide
  decide-IsLimited i a h =
      decide_on-IsLimited (take_out i a.counted) a (λ q. take_out-IsTaken max i a.counted q) h

  leave_on-IsLimited :
      (n : ℕ) (a : Api F R G L)
      → a.leaving ≡ n
      → IsLimited max a
      → IsLimited max
          (elim n [ zero ↦ a | suc k ↦ record a { active = a.active -ℤ pos 1; leaving = k } ])
  leave_on-IsLimited zero a e h = h
  leave_on-IsLimited (suc k) a e h = record {
    safe = h.safe;
    tracked = h.tracked;
    same_max = h.same_max;
    fits =
        leave-Fits max a.active a.counted _ k
          (subst (Fits max a.active a.counted (length a.server.handlers)) e h.fits);
  }

  pub leave-IsLimited :
      (a : Api F R G L) → IsLimited max a → IsLimited max (leave u codec rdb lib split mux query a)
  unfolding leave
  leave-IsLimited a h = leave_on-IsLimited a.leaving a refl h
