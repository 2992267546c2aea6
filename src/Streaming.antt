-- ===== src/Streaming.antt =====
-- services/streaming-api/main.go: the bridge from the Kafka topics to the streaming clients. The
-- locks make the operations below atomic. A channel is a number; each handler of a stream makes one,
-- and the response of the handler is the list of the frames that it wrote. `none` is a panic.
pub mod Symbols
pub mod Delivery
pub mod Handlers
pub mod History
pub mod Router
use termino.Prelude.{
  ℕ, ◌+◌, ◌<◌, Bool, true, false, not, ◌&&◌, ◌||◌, List, [], ◌∷◌, ◌++◌, Option, none, some, length,
  ltb, if◌then◌else◌, ◌==◌, nat_eq,
}
use termino.Prelude.Int.{ℤ, pos, ◌+ℤ◌, ◌-ℤ◌}
use termino.Prelude.Text.{Text, text_eq, codes}
use termino.Prelude.Dict.{lookup, insert, delete}
use termino.Prelude.Strings.{Unicode}
use termino.Models.{AggregatedPrice, Codec}
use termino.Redis.{Rdb, set_price, get_prices}
use Symbols.{parse_symbols, symbol_map}

pub record Channel : Type 0 where
  pub buffer : List Text
  pub is_closed : Bool

pub data Endpoint : Type 0 where
  prices alerts : Endpoint

-- `clients` is the field of the server; the channels, the handlers that run, by their channel, and
-- their responses are kept beside it.
pub record StreamingServer (F R : Type 0) : Type 0 where
  pub clients : List (ℕ × List (Text × Bool))
  pub latest : List (Text × AggregatedPrice F)
  pub redis : Option R
  pub redis_ttl : ℤ
  pub channels : List (ℕ × Channel)
  pub handlers : List (ℕ × Endpoint)
  pub responses : List (ℕ × List Text)
  pub next_channel : ℕ
  pub active_clients : ℤ
  pub messages_streamed : ℕ

abbrev pub capacity : ℕ
capacity = 64

abbrev pub alerts_mark : Text
alerts_mark = codes "__alerts__"

abbrev pub flag_or_false : Option Bool → Bool
flag_or_false none = false
flag_or_false (some b) = b

abbrev pub has_symbol : Text → List (Text × Bool) → Bool
has_symbol symbol syms = flag_or_false (lookup symbol syms)

abbrev pub is_nil : List (Text × Bool) → Bool
is_nil [] = true
is_nil (x ∷ xs) = false

-- Whether a client is sent a price of this symbol.
abbrev pub wants_price : Text → List (Text × Bool) → Bool
wants_price symbol syms =
    not (has_symbol alerts_mark syms) && (is_nil syms || has_symbol symbol syms)

abbrev pub wants_alert : List (Text × Bool) → Bool
wants_alert syms = has_symbol alerts_mark syms

-- `select { case ch <- text: default: }`: a full buffer drops the text, a closed channel panics.
send_on : ℕ → Text → List (ℕ × Channel) → Option Channel → Option (List (ℕ × Channel))
send_on ch text channels none = some channels
send_on ch text channels (some c) =
    if c.is_closed
    then none
    else if ltb (length c.buffer) capacity
    then some (insert ch (record c { buffer = c.buffer ++ text ∷ [] }) channels)
    else some channels

pub send : ℕ → Text → List (ℕ × Channel) → Option (List (ℕ × Channel))
unfolding send_on
send ch text channels = send_on ch text channels (lookup ch channels)

pub send_all :
    (List (Text × Bool) → Bool)
    → Text
    → List (ℕ × List (Text × Bool))
    → List (ℕ × Channel)
    → Option (List (ℕ × Channel))
unfolding send
send_all wants text [] channels = some channels
send_all wants text ((ch, syms) ∷ clients) channels =
    elim (if wants syms then send ch text channels else some channels) [
      | none ↦ none
      | some channels' ↦ send_all wants text clients channels'
    ]

-- Server-sent events.
abbrev pub price_frame : Text → Text
price_frame text = codes "data: " ++ text ++ 10 ∷ 10 ∷ []

abbrev pub alert_frame : Text → Text
alert_frame text = codes "event: alert" ++ 10 ∷ codes "data: " ++ text ++ 10 ∷ 10 ∷ []

module _ {F R : Type 0} where
  pub with_channels :
      StreamingServer F R → Option (List (ℕ × Channel)) → Option (StreamingServer F R)
  with_channels s none = none
  with_channels s (some channels) = some (record s { channels = channels })

  unfoldable pub broadcast : Text → Text → StreamingServer F R → Option (StreamingServer F R)
  unfolding with_channels send_all
  broadcast symbol text s =
      with_channels s (send_all (wants_price symbol) text s.clients s.channels)

  unfoldable pub broadcast_alert : Text → StreamingServer F R → Option (StreamingServer F R)
  unfolding with_channels send_all
  broadcast_alert text s = with_channels s (send_all wants_alert text s.clients s.channels)

abbrev pub new : {F R : Type 0} → Option R → ℤ → StreamingServer F R
new redis ttl = record {
  clients = [];
  latest = [];
  redis = redis;
  redis_ttl = ttl;
  channels = [];
  handlers = [];
  responses = [];
  next_channel = 0;
  active_clients = pos 0;
  messages_streamed = 0;
}
