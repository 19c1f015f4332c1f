-- ===== src/MarketData/Prices.antt =====
-- libs/symm-core/src/market_data/price_tracker.rs and exchange_rates.rs, with the prices of
-- `LastPriceEntry` of libs/symm-core/src/core/bits.rs. What the observer is given is the state's
-- `published` log. `itertools::partition` is of a crate: it is a parameter, `Partition`.
use index_maker.Prelude.{
  ℕ, max, Bool, Option, none, some, List, [], ◌∷◌, ◌++◌, take, is_none, if_some,
}
use index_maker.Decimal.{Amount, zero_amount, Decimal, safe_add, safe_mul, safe_div}
use index_maker.Bits.{Symbol, LastPriceEntry}
use index_maker.Bits.Symbols.{SymbolMap, find_symbol, put_symbol}
use index_maker.MarketData.{
  MarketDataEvent, top_of_book, trade, order_book_snapshot, order_book_delta,
}

pub data PriceType : Type 0 where
  best_bid best_ask last_trade mid_point volume_weighted : PriceType

-- `PriceEvent::PriceChange`
pub data PriceEvent : Type 0 where
  price_change : Symbol → PriceEvent

pub record PriceTracker : Type 0 where
  pub published : List PriceEvent
  pub prices : SymbolMap LastPriceEntry

abbrev pub new_tracker : PriceTracker
new_tracker = record { published = []; prices = [] }

-- `entry(symbol).and_modify(f).or_insert_with(|| new)`
unfoldable pub modify_or_insert :
    Symbol
    → (LastPriceEntry → LastPriceEntry)
    → LastPriceEntry
    → SymbolMap LastPriceEntry
    → SymbolMap LastPriceEntry
modify_or_insert symbol f new prices = elim (find_symbol symbol prices) [
  | none ↦ put_symbol symbol new prices
  | some value ↦ put_symbol symbol (f value) prices
]

unfoldable pub update_top :
    Symbol → ℕ → Amount → Amount → Amount → Amount → PriceTracker → PriceTracker
update_top symbol sequence_number bid ask bid_quantity ask_quantity t = record {
  prices =
      modify_or_insert symbol
        (λ value. record value {
          sequence_number = max sequence_number value.sequence_number;
          best_bid_price = some bid;
          best_ask_price = some ask;
          best_bid_quantity = bid_quantity;
          best_ask_quantity = ask_quantity;
        })
        (record {
          sequence_number = sequence_number;
          best_bid_price = some bid;
          best_ask_price = some ask;
          best_bid_quantity = bid_quantity;
          best_ask_quantity = ask_quantity;
          last_trade_price = none;
          last_trade_quantity = zero_amount;
        })
        t.prices;
  published = t.published ++ price_change symbol ∷ [];
}

unfoldable pub update_last_trade : Symbol → ℕ → Amount → Amount → PriceTracker → PriceTracker
update_last_trade symbol sequence_number price quantity t = record {
  prices =
      modify_or_insert symbol
        (λ value. record value {
          sequence_number = max sequence_number value.sequence_number;
          last_trade_price = some price;
          last_trade_quantity = quantity;
        })
        (record {
          sequence_number = sequence_number;
          best_bid_price = none;
          best_ask_price = none;
          best_bid_quantity = zero_amount;
          best_ask_quantity = zero_amount;
          last_trade_price = some price;
          last_trade_quantity = quantity;
        })
        t.prices;
  published = t.published ++ price_change symbol ∷ [];
}

unfoldable pub handle_price_data : MarketDataEvent → PriceTracker → PriceTracker
handle_price_data (top_of_book symbol n bid ask bid_quantity ask_quantity) t =
    update_top symbol n bid ask bid_quantity ask_quantity t
handle_price_data (trade symbol n price quantity) t = update_last_trade symbol n price quantity t
handle_price_data (order_book_snapshot symbol n bid_updates ask_updates) t = t
handle_price_data (order_book_delta symbol n bid_updates ask_updates) t = t

-- `Amount::TWO` and `Amount::ONE` are constants of the crate's amounts.
module _ ⦃d : Decimal⦄ (one two : Amount) where
  unfoldable pub mid_price : LastPriceEntry → Option Amount
  mid_price e =
      if_some e.best_bid_price
        λ bid. if_some e.best_ask_price λ ask. if_some (safe_add bid ask) λ sum. safe_div sum two

  unfoldable pub weighted_price : LastPriceEntry → Option Amount
  weighted_price e = if_some e.best_bid_price λ bid.
      if_some (safe_mul bid e.best_bid_quantity) λ bid_value. if_some e.best_ask_price λ ask.
        if_some (safe_mul ask e.best_ask_quantity) λ ask_value.
          if_some (safe_add bid_value ask_value) λ value.
            if_some (safe_add e.best_bid_quantity e.best_ask_quantity)
              λ quantity. safe_div value quantity

  unfoldable pub get_price : PriceType → LastPriceEntry → Option Amount
  get_price best_bid e = e.best_bid_price
  get_price best_ask e = e.best_ask_price
  get_price last_trade e = e.last_trade_price
  get_price mid_point e = mid_price e
  get_price volume_weighted e = weighted_price e

-- `partition` moves the elements of which the test holds to the front, and tells how many they are.
-- The closure sees the elements in the order `visited`.
pub record Partition : Type 0 where
  pub visited : List Symbol → List Symbol
  pub arrange : (Symbol → Bool) → List Symbol → List Symbol × ℕ

pub record GetPricesResponse : Type 0 where
  pub prices : SymbolMap Amount
  pub missing_symbols : List Symbol

-- `prices.insert(symbol.clone(), price)`, where the closure finds a price.
unfoldable pub insert_price : Symbol → Option Amount → SymbolMap Amount → SymbolMap Amount
insert_price symbol none prices = prices
insert_price symbol (some price) prices = put_symbol symbol price prices

module _ ⦃d : Decimal⦄ (one two : Amount) where
  abbrev pub price_of : PriceType → PriceTracker → Symbol → Option Amount
  price_of price_type t symbol =
      if_some (find_symbol symbol t.prices) λ price. get_price one two price_type price

  -- The closure on every symbol.
  unfoldable pub insert_prices :
      PriceType → PriceTracker → List Symbol → SymbolMap Amount → SymbolMap Amount
  insert_prices price_type t [] prices = prices
  insert_prices price_type t (symbol ∷ symbols) prices =
      insert_prices price_type t symbols (insert_price symbol (price_of price_type t symbol) prices)

  unfoldable pub get_prices : Partition → PriceType → List Symbol → PriceTracker → GetPricesResponse
  get_prices p price_type symbols t =
      let (arranged, partition_point) =
        p.arrange (λ symbol. is_none (price_of price_type t symbol)) symbols in
      record {
        prices = insert_prices price_type t (p.visited symbols) [];
        missing_symbols = take partition_point arranged;
      }
