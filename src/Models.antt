-- ===== src/Models.antt =====
-- pkg/models/price.go: the records that travel between the services. Times are Unix seconds.
-- `encoding/json` is an interface: a codec for each type that is marshalled, which Models.Json fills.
pub mod Json
use termino.Prelude.{ℕ, ◌≡◌, Option, some}
use termino.Prelude.Int.{ℤ}
use termino.Prelude.Text.{Text}

-- A raw price from an exchange.
pub record PriceEvent (F : Type 0) : Type 0 where
  pub symbol : Text
  pub price : F
  pub exchange : Text
  pub volume : F
  pub timestamp : ℤ

-- A processed price with analytics.
pub record AggregatedPrice (F : Type 0) : Type 0 where
  pub symbol : Text
  pub price : F
  pub avg_price : F
  pub high_price : F
  pub low_price : F
  pub change24h : F
  pub change_pct : F
  pub volume : F
  pub exchange_count : ℤ
  pub timestamp : ℤ

-- A triggered alert.
pub record PriceAlert (F : Type 0) : Type 0 where
  pub id : Text
  pub symbol : Text
  pub rule : Text
  pub threshold : F
  pub current : F
  pub direction : Text
  pub message : Text
  pub timestamp : ℤ

-- An alert rule; the direction is meant to be "above" or "below".
pub record AlertRule (F : Type 0) : Type 0 where
  pub id : Text
  pub symbol : Text
  pub threshold : F
  pub direction : Text

-- The content of a dead letter.
pub record DlqMessage : Type 0 where
  pub key : Text
  pub value : Text
  pub original_topic : Text
  pub original_group : Text
  pub error_message : Text
  pub retry_count : Text
  pub failed_at : Text

-- `Marshal` and the `Unmarshal` functions; both can fail.
pub record Codec (A : Type 0) : Type 0 where
  pub marshal : A → Option Text
  pub unmarshal : Text → Option A

-- What `encoding/json` documents: a value that it could write is read back as it was.
pub record IsFaithful {A : Type 0} (c : Codec A) : Type 0 where
  pub unmarshal-marshal : (a : A) (d : Text) → c.marshal a ≡ some d → c.unmarshal d ≡ some a

-- What is written of a value with `P` is read back as that value.
pub record IsFaithfulOn {A : Type 0} (P : A → Type 0) (codec : Codec A) : Type 0 where
  pub unmarshal-marshal :
      (a : A) (text : Text) → P a → codec.marshal a ≡ some text → codec.unmarshal text ≡ some a
