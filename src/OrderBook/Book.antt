-- ===== src/OrderBook/Book.antt =====
-- libs/symm-core/src/market_data/order_book/order_book.rs: `PricePointBook`, two sides and the
-- sequence number of the last update.
use index_maker.Prelude.{
  ℕ, Option, none, some, List, map, take, Result, ok, Action, modify, ok_or, and_then, ◌>>◌,
}
use index_maker.Decimal.{Amount, zero_amount, Decimal}
use index_maker.Bits.{Side, buy, sell, LastPriceEntry, PricePointEntry}
use index_maker.OrderBook.{
  PricePointBookEntry, RbTree, PricePointEntries, BookError, no_sequence_number, new_entries, clear,
  update_each, get_liquidity, get_liquidity_levels, get_top_level,
}

pub record PricePointBook : Type 0 where
  pub sequence_number : Option ℕ
  pub bid_entries : PricePointEntries
  pub ask_entries : PricePointEntries

unfoldable pub new_book : Amount → PricePointBook
new_book tolerance = record {
  sequence_number = none;
  bid_entries = new_entries buy tolerance;
  ask_entries = new_entries sell tolerance;
}

unfoldable pub clear_book : PricePointBook → PricePointBook
unfolding clear
clear_book book = record {
  sequence_number = none;
  bid_entries = clear book.bid_entries;
  ask_entries = clear book.ask_entries;
}

-- An operation of one side, on the book.
abbrev pub on_bids :
    Action PricePointEntries BookError (Unit {0}) → Action PricePointBook BookError (Unit {0})
on_bids m book = let (r, bids) = m book.bid_entries in (r, record book { bid_entries = bids })

abbrev pub on_asks :
    Action PricePointEntries BookError (Unit {0}) → Action PricePointBook BookError (Unit {0})
on_asks m book = let (r, asks) = m book.ask_entries in (r, record book { ask_entries = asks })

unfoldable pub update_entries :
    RbTree
    → ⦃d : Decimal⦄ → ℕ
    → List PricePointEntry
    → List PricePointEntry
    → Action PricePointBook BookError (Unit {0})
update_entries tree sequence_number bid_updates ask_updates = do
  modify (λ book. record book { sequence_number = some sequence_number })
  on_bids (update_each tree bid_updates)
  on_asks (update_each tree ask_updates)

module _ ⦃d : Decimal⦄ where
  unfoldable pub get_book_liquidity : PricePointBook → Side → Amount → Result BookError Amount
  get_book_liquidity book buy price = get_liquidity book.bid_entries price
  get_book_liquidity book sell price = get_liquidity book.ask_entries price

  unfoldable pub get_book_levels :
      PricePointBook → Side → ℕ → Result BookError (Option PricePointEntry)
  get_book_levels book buy max_levels = get_liquidity_levels book.bid_entries max_levels
  get_book_levels book sell max_levels = get_liquidity_levels book.ask_entries max_levels

  -- `map_or((None, Amount::ZERO), |x| (Some(x.price), x.quantity))`
  abbrev pub price_and_quantity : Option PricePointEntry → Option Amount × Amount
  price_and_quantity none = (none, zero_amount)
  price_and_quantity (some x) = (some x.price, x.quantity)

  unfoldable pub get_book_top : PricePointBook → Result BookError LastPriceEntry
  get_book_top book = and_then (get_top_level book.bid_entries) λ best_bid.
      and_then (get_top_level book.ask_entries) λ best_ask.
        and_then (ok_or book.sequence_number no_sequence_number) λ sequence_number.
          let (best_bid_price, best_bid_quantity) = price_and_quantity best_bid in
          let (best_ask_price, best_ask_quantity) = price_and_quantity best_ask in
          ok (record {
            sequence_number = sequence_number;
            best_bid_price = best_bid_price;
            best_ask_price = best_ask_price;
            best_bid_quantity = best_bid_quantity;
            best_ask_quantity = best_ask_quantity;
            last_trade_price = none;
            last_trade_quantity = zero_amount;
          })

abbrev pub entry_of : PricePointBookEntry → PricePointEntry
entry_of e = record { price = e.price; quantity = e.quantity }

-- Both sides are read in the order of the tree, from the lowest price.
unfoldable pub get_entries : PricePointBook → Side → ℕ → List PricePointEntry
get_entries book buy max_levels = take max_levels (map entry_of book.bid_entries.entries)
get_entries book sell max_levels = take max_levels (map entry_of book.ask_entries.entries)
