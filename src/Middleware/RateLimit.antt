-- ===== src/Middleware/RateLimit.antt =====
-- pkg/middleware/ratelimit.go: a token bucket for each address. The buckets of golang.org/x/time/rate
-- and `net.SplitHostPort` are parameters. A request looks its visitor up and asks the bucket in one
-- step; the bucket that the map points to is changed in place, so it is written back here.
pub mod PerAddress
use termino.Prelude.{ℕ, ◌+◌, Bool, true, false, List, [], ◌∷◌, Option, none, some, if◌then◌else◌}
use termino.Prelude.Int.{ℤ, pos, ◌-ℤ◌, ltb_ℤ}
use termino.Prelude.Text.{Text, text_eq}
use termino.Prelude.Dict.{lookup, insert, delete}

-- `rate.NewLimiter` and `Allow`, which reads the clock.
pub record Rate (F L : Type 0) : Type 0 where
  pub new_limiter : F → ℤ → L
  pub allow : ℤ → L → L × Bool

pub record Visitor (L : Type 0) : Type 0 where
  pub limiter : L
  pub last_seen : ℤ

pub record RateLimiter (F L : Type 0) : Type 0 where
  pub visitors : List (Text × Visitor L)
  pub rate : F
  pub burst : ℤ
  -- The counter of rejected requests.
  pub rejected : ℕ

abbrev pub new_rate_limiter : {F L : Type 0} → F → ℤ → RateLimiter F L
new_rate_limiter rate burst = record { visitors = []; rate = rate; burst = burst; rejected = 0 }

-- Three minutes, in nanoseconds.
abbrev pub idle_time : ℤ
idle_time = pos 180000000000

abbrev pub is_idle : {L : Type 0} → ℤ → Visitor L → Bool
is_idle now v = ltb_ℤ idle_time (now -ℤ v.last_seen)

-- The address without the port, or the whole where it cannot be split.
abbrev pub address_of : (Text → Option Text) → Text → Text
address_of split remote = elim (split remote) [ none ↦ remote | some host ↦ host ]

module _ {F L : Type 0} (lib : Rate F L) where
  -- The visitor that `getVisitor` finds or makes, seen now.
  pub visitor_for : ℤ → RateLimiter F L → Option (Visitor L) → Visitor L
  visitor_for now rl none = record { limiter = lib.new_limiter rl.rate rl.burst; last_seen = now }
  visitor_for now rl (some v) = record v { last_seen = now }

  unfoldable pub get_visitor : Text → ℤ → RateLimiter F L → RateLimiter F L × Visitor L
  unfolding visitor_for
  get_visitor ip now rl =
      let v = visitor_for now rl (lookup ip rl.visitors) in
      (record rl { visitors = insert ip v rl.visitors }, v)

  -- `Middleware`: whether the request is served.
  unfoldable pub serve : Text → ℤ → RateLimiter F L → RateLimiter F L × Bool
  unfolding get_visitor
  serve ip now rl =
      let (rl1, v) = get_visitor ip now rl in
      let (limiter, allowed) = lib.allow now v.limiter in
      (
        record rl1 {
          visitors = insert ip (record v { limiter = limiter }) rl1.visitors;
          rejected = if allowed then rl1.rejected else rl1.rejected + 1;
        },
        allowed,
      )

  -- The loop over the entries of the map in `cleanup`.
  pub sweep : ℤ → List (Text × Visitor L) → List (Text × Visitor L) → List (Text × Visitor L)
  sweep now [] visitors = visitors
  sweep now ((ip, v) ∷ entries) visitors =
      sweep now entries (if is_idle now v then delete ip visitors else visitors)

  unfoldable pub cleanup : ℤ → RateLimiter F L → RateLimiter F L
  unfolding sweep
  cleanup now rl = record rl { visitors = sweep now rl.visitors rl.visitors }

pub data Op : Type 0 where
  request : Text → ℤ → Op
  clean : ℤ → Op

module _ {F L : Type 0} (lib : Rate F L) (split : Text → Option Text) where
  -- The answers, each with the address that it is for.
  unfoldable pub run : List Op → RateLimiter F L → RateLimiter F L × List (Text × Bool)
  run [] rl = (rl, [])
  run (request remote now ∷ os) rl =
      let ip = address_of split remote in
      let (rl1, allowed) = serve lib ip now rl in
      let (rl2, answers) = run os rl1 in (rl2, (ip, allowed) ∷ answers)
  run (clean now ∷ os) rl = run os (cleanup lib now rl)
