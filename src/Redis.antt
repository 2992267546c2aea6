-- ===== src/Redis.antt =====
-- pkg/redis/client.go: the cache of the latest prices in one Redis hash. The Redis server is an
-- interface over a state `R`.
use termino.Prelude.{◌≡◌, Bool, true, false, List, [], ◌∷◌, Option, none, some, if◌then◌else◌, ◌==◌}
use termino.Prelude.Int.{ℤ}
use termino.Prelude.Text.{Text, text_eq, codes}
use termino.Prelude.Dict.{insert}
use termino.Models.{AggregatedPrice, Codec}
pub mod RoundTrip

-- The answer to a read of one field: redis.Nil, an error, or the value.
pub data Reply (A : Type 0) : Type 0 where
  missing failed : Reply A
  found : A → Reply A

pub record Rdb (R : Type 0) : Type 0 where
  pub hset : Text → Text → Text → R → R × Option Text
  pub expire : Text → ℤ → R → R × Option Text
  pub hget_all : Text → R → Option (List (Text × Text))
  pub hget : Text → Text → R → Reply Text

abbrev pub latest_prices_key : Text
latest_prices_key = codes "latest_prices"

module _ {F R : Type 0} (rdb : Rdb R) (codec : Codec (AggregatedPrice F)) where
  write_price : Text → Option Text → R → R × Option Text
  write_price symbol none r = (r, some (codes "json: unsupported value"))
  write_price symbol (some text) r = rdb.hset latest_prices_key symbol text r

  -- The time to live is not used.
  unfoldable pub set_price : Text → AggregatedPrice F → ℤ → R → R × Option Text
  unfolding write_price
  set_price symbol price ttl r = write_price symbol (codec.marshal price) r

  unfoldable pub set_prices_ttl : ℤ → R → R × Option Text
  set_prices_ttl ttl r = rdb.expire latest_prices_key ttl r

  add_decoded :
      Text
      → Option (AggregatedPrice F)
      → List (Text × AggregatedPrice F)
      → List (Text × AggregatedPrice F)
  add_decoded symbol none prices = prices
  add_decoded symbol (some p) prices = insert symbol p prices

  -- A value that cannot be decoded is skipped.
  decode_all : List (Text × Text) → List (Text × AggregatedPrice F)
  unfolding add_decoded
  decode_all [] = []
  decode_all ((symbol, text) ∷ m) = add_decoded symbol (codec.unmarshal text) (decode_all m)

  decode_reply : Option (List (Text × Text)) → Option (List (Text × AggregatedPrice F))
  unfolding decode_all
  decode_reply none = none
  decode_reply (some m) = some (decode_all m)

  -- `none` is an error; the empty hash and a nil map are both empty.
  unfoldable pub get_prices : R → Option (List (Text × AggregatedPrice F))
  unfolding decode_reply
  get_prices r = decode_reply (rdb.hget_all latest_prices_key r)

  read_price : Option (AggregatedPrice F) → Reply (AggregatedPrice F)
  read_price none = failed
  read_price (some p) = found p

  decode_price : Reply Text → Reply (AggregatedPrice F)
  unfolding read_price
  decode_price missing = missing
  decode_price failed = failed
  decode_price (found text) = read_price (codec.unmarshal text)

  unfoldable pub get_price : Text → R → Reply (AggregatedPrice F)
  unfolding decode_price
  get_price symbol r = decode_price (rdb.hget latest_prices_key symbol r)
