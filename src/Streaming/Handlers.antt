-- ===== src/Streaming/Handlers.antt =====
-- The handlers of services/streaming-api/main.go: the two streams, the two consumers, and the latest
-- prices. `none` is a panic.
pub mod Open
pub mod Safety
pub mod Sorted
pub mod Isolation
pub mod Drained
pub mod Latest
pub mod Tracked
use termino.Prelude.{
  ℕ, ◌+◌, Bool, true, false, ◌||◌, List, [], ◌∷◌, ◌++◌, Option, none, some, if◌then◌else◌, nat_eq,
}
use termino.Prelude.Int.{ℤ, pos, ◌+ℤ◌, ◌-ℤ◌}
use termino.Prelude.Text.{Text, text_eq}
use termino.Prelude.Dict.{lookup, insert, delete}
use termino.Prelude.Strings.{Unicode}
use termino.Models.{AggregatedPrice, Codec}
use termino.Redis.{Rdb, set_price, get_prices}
use termino.Streaming.{
  Channel, Endpoint, prices, alerts, StreamingServer, alerts_mark, has_symbol, is_nil, price_frame,
  alert_frame, broadcast, broadcast_alert,
}
use termino.Streaming.Symbols.{parse_symbols, symbol_map}

abbrev text_or_empty : Option Text → Text
text_or_empty none = []
text_or_empty (some text) = text

module _ {F R : Type 0} (u : Unicode) (codec : Codec (AggregatedPrice F)) (rdb : Rdb R) where
  -- The latest prices that `handleStream` writes first.
  pub first_frames : List (Text × Bool) → List (Text × AggregatedPrice F) → List Text
  first_frames syms [] = []
  first_frames syms ((symbol, price) ∷ m) =
      let rest = first_frames syms m in
      if is_nil syms || has_symbol symbol syms
      then price_frame (text_or_empty (codec.marshal price)) ∷ rest
      else rest

  -- One step, where the source releases the lock before it raises the gauge and reads the frames: a
  -- broadcast in between is left out.
  pub register :
      Endpoint → List (Text × Bool) → List Text → StreamingServer F R → StreamingServer F R
  register endpoint syms frames s =
      let ch = s.next_channel in
      record s {
        clients = insert ch syms s.clients;
        channels = insert ch (record { buffer = []; is_closed = false }) s.channels;
        handlers = insert ch endpoint s.handlers;
        responses = insert ch frames s.responses;
        next_channel = ch + 1;
        active_clients = s.active_clients +ℤ pos 1;
      }

  -- `handleStream` up to its loop; without a flusher it answers an error.
  unfoldable pub connect : Bool → Text → StreamingServer F R → StreamingServer F R
  unfolding register first_frames
  connect false query s = s
  connect true query s =
      let syms = symbol_map u (parse_symbols u query) in
      register prices syms (first_frames syms s.latest) s

  -- `handleAlertStream` up to its loop.
  unfoldable pub connect_alerts : Bool → StreamingServer F R → StreamingServer F R
  unfolding register
  connect_alerts false s = s
  connect_alerts true s = register alerts ((alerts_mark, true) ∷ []) [] s

  pub close_channel : ℕ → Option Channel → StreamingServer F R → Option (StreamingServer F R)
  close_channel ch none s = none
  close_channel ch (some c) s =
      if c.is_closed
      then none
      else some (record s {
        clients = delete ch s.clients;
        channels = insert ch (record c { is_closed = true }) s.channels;
        active_clients = s.active_clients -ℤ pos 1;
      })

  -- Closing a channel that is closed, or none, panics.
  unfoldable pub remove_client : ℕ → StreamingServer F R → Option (StreamingServer F R)
  unfolding close_channel
  remove_client ch s = close_channel ch (lookup ch s.channels) s

  pub stop : ℕ → StreamingServer F R → StreamingServer F R
  stop ch s = record s { handlers = delete ch s.handlers }

  hang_up_handler : ℕ → Option Endpoint → StreamingServer F R → Option (StreamingServer F R)
  unfolding stop
  hang_up_handler ch none s = some s
  hang_up_handler ch (some e) s = remove_client ch (stop ch s)

  -- The loop of a handler meets the end of its request, and returns.
  unfoldable pub hang_up : ℕ → StreamingServer F R → Option (StreamingServer F R)
  unfolding hang_up_handler
  hang_up ch s = hang_up_handler ch (lookup ch s.handlers) s

  frames_of : Option (List Text) → List Text
  frames_of none = []
  frames_of (some frames) = frames

  write_frame : ℕ → Text → StreamingServer F R → StreamingServer F R
  unfolding frames_of
  write_frame ch frame s = record s {
    responses = insert ch (frames_of (lookup ch s.responses) ++ frame ∷ []) s.responses;
  }

  write_text : ℕ → Endpoint → Text → StreamingServer F R → StreamingServer F R
  unfolding write_frame
  write_text ch prices text s =
      write_frame ch (price_frame text) (record s { messages_streamed = s.messages_streamed + 1 })
  write_text ch alerts text s = write_frame ch (alert_frame text) s

  -- A receive on an open channel without texts waits; on a closed one it ends the handler.
  receive : ℕ → Endpoint → Bool → List Text → StreamingServer F R → StreamingServer F R
  unfolding write_text stop
  receive ch e false [] s = s
  receive ch e true [] s = stop ch s
  receive ch e is_closed (text ∷ rest) s = write_text ch e text (record s {
    channels = insert ch (record { buffer = rest; is_closed = is_closed }) s.channels;
  })

  deliver_on : ℕ → Option Endpoint → Option Channel → StreamingServer F R → StreamingServer F R
  unfolding receive
  deliver_on ch (some e) (some c) s = receive ch e c.is_closed c.buffer s
  deliver_on ch _ _ s = s

  -- The loop of a handler takes a text from its channel, and writes it.
  unfoldable pub deliver : ℕ → StreamingServer F R → StreamingServer F R
  unfolding deliver_on
  deliver ch s = deliver_on ch (lookup ch s.handlers) (lookup ch s.channels) s

  cache_price : AggregatedPrice F → ℤ → Option R → Option R
  cache_price price ttl none = none
  cache_price price ttl (some r) = some (set_price rdb codec price.symbol price ttl r).0

  -- One step, where the source releases the lock before it writes the cache and again before the
  -- broadcast: what other goroutines do in between is left out.
  receive_decoded :
      Text → Option (AggregatedPrice F) → StreamingServer F R → Option (StreamingServer F R)
  unfolding cache_price
  receive_decoded value none s = some s
  receive_decoded value (some price) s = broadcast price.symbol value (record s {
    latest = insert price.symbol price s.latest;
    redis = cache_price price s.redis_ttl s.redis;
  })

  -- The handler of the aggregated prices. A value that cannot be decoded is an error for the
  -- consumer; a failure of the cache is not.
  unfoldable pub receive_price : Text → StreamingServer F R → Option (StreamingServer F R)
  unfolding receive_decoded
  receive_price value s = receive_decoded value (codec.unmarshal value) s

  -- `handleLatestPrices`: whether the cache was hit, and the prices of the answer.
  latest_or :
      List (Text × AggregatedPrice F)
      → Option (List (Text × AggregatedPrice F))
      → Bool × List (Text × AggregatedPrice F)
  latest_or latest none = (false, latest)
  latest_or latest (some []) = (false, latest)
  latest_or latest (some (p ∷ ps)) = (true, p ∷ ps)

  cached : Option R → Option (List (Text × AggregatedPrice F))
  cached none = none
  cached (some r) = get_prices rdb codec r

  unfoldable pub handle_latest_prices : StreamingServer F R → Bool × List (Text × AggregatedPrice F)
  unfolding latest_or cached
  handle_latest_prices s = latest_or s.latest (cached s.redis)

-- What happens to the server, one operation at a time.
pub data Op : Type 0 where
  price alert : Text → Op
  opens : Bool → Text → Op
  opens_alerts : Bool → Op
  delivers hangs_up : ℕ → Op

module _ {F R : Type 0} (u : Unicode) (codec : Codec (AggregatedPrice F)) (rdb : Rdb R) where
  unfoldable pub step : Op → StreamingServer F R → Option (StreamingServer F R)
  step (price value) s = receive_price u codec rdb value s
  step (alert value) s = broadcast_alert value s
  step (opens flusher query) s = some (connect u codec rdb flusher query s)
  step (opens_alerts flusher) s = some (connect_alerts u codec rdb flusher s)
  step (delivers ch) s = some (deliver u codec rdb ch s)
  step (hangs_up ch) s = hang_up u codec rdb ch s

  unfoldable pub run : List Op → StreamingServer F R → Option (StreamingServer F R)
  run [] s = some s
  run (o ∷ os) s = elim (step o s) [ none ↦ none | some t ↦ run os t ]
