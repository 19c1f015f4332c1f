-- ===== src/MarketData/Tests.antt =====
-- Tests of libs/symm-core/src/market_data on a few events, and the theorems at concrete inputs.
use index_maker.Prelude.{
  ℕ, ◌+◌, ◌<◌, ◌≡◌, refl, inl, inr, none, some, List, [], ◌∷◌, ◌++◌, arith, ok, err,
}
use index_maker.Prelude.Int.{pos, ◌+ℤ◌, ◌-ℤ◌, int_laws}
use index_maker.Decimal.{Amount, Decimal, bounded, fixed_scale, fixed_scale-IsExact}
use index_maker.Bits.{Symbol, buy, LastPriceEntry, PricePointEntry}
use index_maker.Bits.Symbols.{symbol_eq, SymbolMap, find_symbol, put_symbol}
use index_maker.MarketData.{
  MarketDataEvent, top_of_book, trade, order_book_snapshot, order_book_delta,
}
use index_maker.MarketData.Books.{
  book_update, PricePointBookManager, new_manager, handle_book_data, handle_all, collect,
}
use index_maker.MarketData.Collected.{IsCollected, collect-IsCollected}
use index_maker.MarketData.Latest.{
  last_top, last_trade_of, highest, handle_prices, Holds, handle_prices-Holds,
}
use index_maker.MarketData.Managed.{IsManaged, handle_all-IsManaged}
use index_maker.MarketData.Priced.{IsAnswered, get_prices-IsAnswered}
use index_maker.MarketData.Prices.{
  last_trade, PriceTracker, new_tracker, modify_or_insert, update_top, update_last_trade,
  handle_price_data, get_price, insert_price, insert_prices, get_prices,
}
use index_maker.MarketData.Snapshot.{AreSound, Shows, snapshot-Shows}
use index_maker.MarketData.Stable.{stable, stable-IsPartition}
use index_maker.OrderBook.{
  no_sequence_number, walk, try_new, sum_until, get_liquidity, get_top_level,
}
use index_maker.OrderBook.Book.{PricePointBook, new_book, get_book_liquidity, get_book_top}
use index_maker.OrderBook.Quoted.{Apart}
use index_maker.OrderBook.Sorted.{sorted_list, sorted_list-IsTree}

instance checked_ops : Decimal
checked_ops = fixed_scale

abbrev quote : ℕ → ℕ → PricePointEntry
quote price quantity = record { price = pos price; quantity = pos quantity }

abbrev btc : Symbol
btc = 66 ∷ 84 ∷ 67 ∷ []

abbrev eth : Symbol
eth = 69 ∷ 84 ∷ 72 ∷ []

abbrev story : List MarketDataEvent
story =
    order_book_snapshot btc 1 (quote 90 7 ∷ quote 95 4 ∷ []) (quote 101 3 ∷ [])
    ∷ trade btc 2 (pos 100) (pos 1)
    ∷ top_of_book btc 5 (pos 95) (pos 101) (pos 4) (pos 3)
    ∷ trade btc 3 (pos 99) (pos 2)
    ∷ order_book_delta btc 4 (quote 95 0 ∷ []) (quote 102 6 ∷ [])
    ∷ []

abbrev idle : PricePointBookManager
idle = new_manager (pos 1)

idle-IsManaged : IsManaged idle
idle-IsManaged = record { wide = omega arith; kept = tt }

handle_all-IsManaged_example : IsManaged (handle_all sorted_list story idle)
unfolding checked_ops
handle_all-IsManaged_example =
    handle_all-IsManaged sorted_list sorted_list-IsTree fixed_scale-IsExact story idle
      idle-IsManaged

below : {a b : ℕ} → a + 1 < b → Apart (pos 1) (pos a) (pos b)
below h = inr (inl (omega int_laws))

new_bids : AreSound (pos 1) (quote 94 7 ∷ quote 96 4 ∷ [])
unfolding checked_ops fixed_scale bounded ◌+ℤ◌ ◌-ℤ◌
new_bids = record {
  fit = (((pos 93, refl), (pos 95, refl)), (((pos 95, refl), (pos 97, refl)), tt));
  apart = ((below (omega arith), tt), (tt, tt));
}

new_asks : AreSound (pos 1) (quote 100 2 ∷ [])
unfolding checked_ops fixed_scale bounded ◌+ℤ◌ ◌-ℤ◌
new_asks = record { fit = (((pos 99, refl), (pos 101, refl)), tt); apart = (tt, tt) }

snapshot-Shows_example :
    let m' =
      handle_book_data sorted_list
        (order_book_snapshot btc 9 (quote 94 7 ∷ quote 96 4 ∷ []) (quote 100 2 ∷ []))
        idle in
    (book : PricePointBook) × (find_symbol btc m'.order_books ≡ some book)
    × Shows (pos 1) 9 (quote 94 7 ∷ quote 96 4 ∷ []) (quote 100 2 ∷ []) book
    × (m'.published ≡ idle.published ++ book_update btc ∷ [])
unfolding checked_ops
snapshot-Shows_example =
    snapshot-Shows sorted_list sorted_list-IsTree fixed_scale-IsExact btc 9
      (quote 94 7 ∷ quote 96 4 ∷ []) (quote 100 2 ∷ []) idle idle-IsManaged new_bids new_asks

abbrev booked : SymbolMap PricePointBook
booked = (btc, new_book (pos 1)) ∷ []

no_quantity :
    collect {K = Symbol} {A = Amount}
      (λ s. s)
      (λ s book. get_book_liquidity book buy (pos 5))
      (btc ∷ eth ∷ [])
      booked
      []
    ≡ ok ((btc, pos 0) ∷ [])
unfolding checked_ops fixed_scale bounded ◌+ℤ◌ ◌-ℤ◌ collect find_symbol put_symbol symbol_eq
    new_book get_book_liquidity get_liquidity try_new sum_until walk
no_quantity = refl

collect-IsCollected_example :
    IsCollected {A = Amount}
      (λ s. s)
      (λ s book. get_book_liquidity book buy (pos 5))
      booked
      (btc ∷ eth ∷ [])
      (collect (λ s. s) (λ s book. get_book_liquidity book buy (pos 5)) (btc ∷ eth ∷ []) booked [])
unfolding checked_ops
collect-IsCollected_example =
    collect-IsCollected (λ s. s) (λ s book. get_book_liquidity book buy (pos 5)) booked
      (btc ∷ eth ∷ [])

no_number :
    collect {K = Symbol} {A = LastPriceEntry}
      (λ s. s)
      (λ s book. get_book_top book)
      (eth ∷ btc ∷ [])
      booked
      []
    ≡ err no_sequence_number
unfolding checked_ops fixed_scale bounded ◌+ℤ◌ ◌-ℤ◌ collect find_symbol symbol_eq new_book
    get_book_top get_top_level try_new walk
no_number = refl

untouched : Holds btc new_tracker none none none
unfolding find_symbol
untouched = record { entry = refl; top_unseen = λ e. refl; trade_unseen = λ e. refl }

handle_prices-Holds_example :
    Holds btc
      (handle_prices story new_tracker)
      (highest btc story none)
      (last_top btc story none)
      (last_trade_of btc story none)
handle_prices-Holds_example = handle_prices-Holds btc story new_tracker none none none untouched

-- The sequence number is the highest, the trade is the last.
tracked :
    find_symbol btc (handle_prices story new_tracker).prices
    ≡ some (record {
      sequence_number = 5;
      best_bid_price = some (pos 95);
      best_ask_price = some (pos 101);
      best_bid_quantity = pos 4;
      best_ask_quantity = pos 3;
      last_trade_price = some (pos 99);
      last_trade_quantity = pos 2;
    })
unfolding handle_price_data update_top update_last_trade modify_or_insert find_symbol put_symbol
    symbol_eq
tracked = refl

abbrev seen : PriceTracker
seen = handle_prices story new_tracker

get_prices-IsAnswered_example :
    IsAnswered
      (pos 1)
      (pos 2)
      last_trade
      (eth ∷ btc ∷ [])
      seen
      btc
      (get_prices (pos 1) (pos 2) stable last_trade (eth ∷ btc ∷ []) seen)
unfolding checked_ops
get_prices-IsAnswered_example =
    get_prices-IsAnswered (pos 1) (pos 2) stable last_trade (eth ∷ btc ∷ []) seen btc
      stable-IsPartition

answered :
    get_prices (pos 1) (pos 2) stable last_trade (eth ∷ btc ∷ []) seen
    ≡ record { prices = (btc, pos 99) ∷ []; missing_symbols = eth ∷ [] }
unfolding checked_ops handle_price_data update_top update_last_trade modify_or_insert find_symbol
    put_symbol symbol_eq get_prices stable insert_prices insert_price get_price
answered = refl
