-- ===== src/Bits.antt =====
-- libs/symm-core/src/core/bits.rs: sides and orders. Identifiers and addresses are only
-- compared, so they stand as numbers; instants are integers of nanoseconds.
pub mod Symbols
use index_maker.Prelude.{ℕ, Bool, true, false, Option, List}
use index_maker.Prelude.Int.{ℤ}
use index_maker.Decimal.{Amount}

-- A text, as its character codes.
abbrev pub Symbol : Type 0
Symbol = List ℕ

pub data Side : Type 0 where
  buy sell : Side

unfoldable pub opposite_side : Side → Side
opposite_side buy = sell
opposite_side sell = buy

abbrev pub side_eq : Side → Side → Bool
side_eq buy buy = true
side_eq sell sell = true
side_eq buy sell = false
side_eq sell buy = false

pub record AssetOrder : Type 0 where
  pub order_id : ℕ
  pub symbol : Symbol
  pub side : Side
  pub price : Amount
  pub quantity : Amount

pub record BatchOrder : Type 0 where
  pub batch_order_id : ℕ
  pub asset_orders : List AssetOrder
  pub created_timestamp : ℤ

pub record SingleOrder : Type 0 where
  pub order_id : ℕ
  pub batch_order_id : ℕ
  pub symbol : Symbol
  pub side : Side
  pub price : Amount
  pub quantity : Amount
  pub created_timestamp : ℤ

-- `u64` sequence numbers, with the prices and quantities that were last seen of a symbol.
pub record LastPriceEntry : Type 0 where
  pub sequence_number : ℕ
  pub best_bid_price : Option Amount
  pub best_ask_price : Option Amount
  pub best_bid_quantity : Amount
  pub best_ask_quantity : Amount
  pub last_trade_price : Option Amount
  pub last_trade_quantity : Amount

pub record PricePointEntry : Type 0 where
  pub price : Amount
  pub quantity : Amount
