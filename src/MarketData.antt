-- ===== src/MarketData.antt =====
-- libs/symm-core/src/market_data: the events of the market data connector, and what listens to them.
pub mod Books
pub mod Managed
pub mod Snapshot
pub mod Collected
pub mod Prices
pub mod Latest
pub mod Priced
pub mod Stable
mod Tests
use index_maker.Prelude.{ℕ, List}
use index_maker.Decimal.{Amount}
use index_maker.Bits.{Symbol, PricePointEntry}

pub data MarketDataEvent : Type 0 where
  -- symbol, sequence number, best bid and ask price, best bid and ask quantity
  top_of_book : Symbol → ℕ → Amount → Amount → Amount → Amount → MarketDataEvent
  -- symbol, sequence number, price and quantity
  trade : Symbol → ℕ → Amount → Amount → MarketDataEvent
  -- symbol, sequence number, bids and asks
  order_book_snapshot order_book_delta :
      Symbol → ℕ → List PricePointEntry → List PricePointEntry → MarketDataEvent
