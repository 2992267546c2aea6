-- ===== src/Examples/Streams.antt =====
-- The theorems on services/streaming-api/main.go applied to one client of prices and one of alerts.
use termino.Prelude.{
  ℕ, ◌≡◌, refl, Bool, true, false, List, [], ◌∷◌, Option, none, some, All, arith, leb, ◌&&◌,
  if◌then◌else◌, ◌-◌, ◌<◌, ◌≤◌, length, nat_eq, nat_beq_iff,
}
use termino.Prelude.Int.{pos}
use termino.Prelude.Text.{Text, codes, text_eq, text_beq}
use termino.Prelude.Dict.{lookup}
use termino.Prelude.Strings.{Unicode, split, trim_space, to_upper}
use termino.Float.Fixed.{Cents}
use termino.Streaming.{
  Channel, Endpoint, StreamingServer, broadcast, broadcast_alert, alerts_mark, wants_price,
  send_all, new,
}
use termino.Streaming.Symbols.{parse_symbols, symbol_map}
use termino.Streaming.Delivery.Unordered.{send_all-unordered}
use termino.Prelude.GoMap.{GoMap, go_map}
use mathlib.Core.Quot
use termino.Streaming.Handlers.{
  Op, price, alert, opens, opens_alerts, step, run, receive_price, connect, connect_alerts,
}
use termino.Streaming.Handlers.Sorted.{Fits}
use termino.Streaming.Handlers.Open.{IsSafe, buffer_of}
use termino.Streaming.Handlers.Safety.{run-new-IsSafe}
use termino.Streaming.Handlers.Latest.{came, last_price, run-new-latest}
use termino.Streaming.Handlers.Isolation.{run_isolated}
use termino.Examples.{btc, eth, naming}
use termino.Examples.Storage.{Cache, table}

abbrev ascii_upper : ℕ → ℕ
ascii_upper c = if leb b'a' c && leb c b'z' then c - 32 else c

ascii_upper-is_lower : (c : ℕ) → (leb b'a' (ascii_upper c) && leb (ascii_upper c) b'z') ≡ false
ascii_upper-is_lower c = ground arith

abbrev pub ascii : Unicode
unfolding ascii_upper-is_lower
ascii = record { upper = ascii_upper; upper_not_lower = ascii_upper-is_lower }

abbrev traffic : List Op
traffic =
    opens true (codes "btc,sol")
    ∷ opens_alerts true
    ∷ price btc
    ∷ price eth
    ∷ alert (codes "BTC is above 50")
    ∷ []

abbrev fresh : StreamingServer Cents Cache
fresh = new (some []) (pos 60)

run-new-IsSafe_example :
    (t : StreamingServer Cents Cache) × (run ascii naming table traffic fresh ≡ some t) × IsSafe t
run-new-IsSafe_example = run-new-IsSafe ascii naming table traffic (some []) (pos 60)

run-new-latest_example :
    (t : StreamingServer Cents Cache) × (run ascii naming table traffic fresh ≡ some t)
    × ((k : Text) → lookup k t.latest ≡ last_price k none (came naming traffic))
run-new-latest_example = run-new-latest ascii naming table traffic (some []) (pos 60)

abbrev some_server : Option (StreamingServer Cents Cache) → StreamingServer Cents Cache
some_server none = fresh
some_server (some s) = s

abbrev served : StreamingServer Cents Cache
served = some_server (run ascii naming table traffic fresh)

-- Here prices are short texts and alerts are long ones.
abbrev IsShort : Text → Type 0
IsShort text = length text < 10

abbrev IsLong : Text → Type 0
IsLong text = 10 ≤ length text

run_isolated_example :
    All (Fits IsShort IsLong Endpoint.prices) (buffer_of (lookup 0 served.channels))
unfolding run step receive_price broadcast broadcast_alert connect connect_alerts text_beq
    symbol_map parse_symbols split trim_space to_upper
run_isolated_example =
    run_isolated IsShort IsLong ascii naming table traffic (some []) (pos 60) served
      (tt, (tt, (omega arith, (omega arith, (omega arith, tt))))) refl 0 Endpoint.prices refl

abbrev two_clients : List (ℕ × List (Text × Bool))
two_clients = (0, (btc, true) ∷ []) ∷ (1, (alerts_mark, true) ∷ []) ∷ []

abbrev two_channels : List (ℕ × Channel)
two_channels =
    (0, record { buffer = []; is_closed = false })
    ∷ (1, record { buffer = []; is_closed = false })
    ∷ []

abbrev two_clients_swapped : List (ℕ × List (Text × Bool))
two_clients_swapped = (1, (alerts_mark, true) ∷ []) ∷ (0, (btc, true) ∷ []) ∷ []

abbrev two_channels_swapped : List (ℕ × Channel)
two_channels_swapped =
    (1, record { buffer = []; is_closed = false })
    ∷ (0, record { buffer = []; is_closed = false })
    ∷ []

swapped-SameEntries :
    {V : Type 0} (a b : V) (k : ℕ)
    → lookup k ((0, a) ∷ (1, b) ∷ []) ≡ lookup k ((1, b) ∷ (0, a) ∷ [])
swapped-SameEntries a b k = ground (arith, nat_beq_iff 0 k, nat_beq_iff 1 k)

send_all-unordered_example :
    (after after' : List (ℕ × Channel)) × (send_all (wants_price btc) btc two_clients two_channels
      ≡ some after)
    × (send_all (wants_price btc) btc two_clients_swapped two_channels_swapped ≡ some after')
    × ◌≡◌ {A = GoMap ℕ Channel} (go_map after) (go_map after')
send_all-unordered_example =
    send_all-unordered (wants_price btc) btc two_clients two_clients_swapped two_channels
      two_channels_swapped
      (record { distinct = (refl, (refl, tt)); clients_open = (refl, (refl, tt)) })
      (record { distinct = (refl, (refl, tt)); clients_open = (refl, (refl, tt)) })
      (Quot.sound (swapped-SameEntries _ _)) (Quot.sound (swapped-SameEntries _ _))
