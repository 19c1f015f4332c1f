-- ===== src/MarketData/Latest.antt =====
-- libs/symm-core/src/market_data/price_tracker.rs: what the tracker holds of a symbol after any
-- market data, against the last events of the symbol.
use mathlib.Core.Option
use index_maker.Prelude.{
  if◌then◌else◌, Bool-cases, Option-cases, ℕ, max, ◌≡◌, refl, ◌∙◌, inl, inr, false, Option, none,
  some, List, [], ◌∷◌, last,
}
use index_maker.Decimal.{Amount, zero_amount}
use index_maker.Bits.{Symbol, LastPriceEntry}
use index_maker.Bits.Symbols.{
  symbol_eq, SymbolMap, find_symbol, symbol_eq→≡, find_symbol-put_symbol, find_symbol-put_self,
}
use index_maker.MarketData.{
  MarketDataEvent, top_of_book, trade, order_book_snapshot, order_book_delta,
}
use index_maker.MarketData.Prices.{
  PriceTracker, modify_or_insert, update_top, update_last_trade, handle_price_data,
}

pub record Top : Type 0 where
  pub bid : Amount
  pub ask : Amount
  pub bid_quantity : Amount
  pub ask_quantity : Amount

pub record Trade : Type 0 where
  pub price : Amount
  pub quantity : Amount

-- The last top of book of a symbol.
abbrev pub last_top : Symbol → List MarketDataEvent → Option Top → Option Top
last_top s [] old = old
last_top s (top_of_book symbol n bid ask bid_quantity ask_quantity ∷ events) old =
    last_top s events (
      if symbol_eq symbol s
      then some (record {
        bid = bid;
        ask = ask;
        bid_quantity = bid_quantity;
        ask_quantity = ask_quantity;
      })
      else old)
last_top s (trade symbol n price quantity ∷ events) old = last_top s events old
last_top s (order_book_snapshot symbol n bids asks ∷ events) old = last_top s events old
last_top s (order_book_delta symbol n bids asks ∷ events) old = last_top s events old

-- The last trade of a symbol.
abbrev pub last_trade_of : Symbol → List MarketDataEvent → Option Trade → Option Trade
last_trade_of s [] old = old
last_trade_of s (trade symbol n price quantity ∷ events) old =
    last_trade_of s events
      (if symbol_eq symbol s then some (record { price = price; quantity = quantity }) else old)
last_trade_of s (top_of_book symbol n bid ask bid_quantity ask_quantity ∷ events) old =
    last_trade_of s events old
last_trade_of s (order_book_snapshot symbol n bids asks ∷ events) old = last_trade_of s events old
last_trade_of s (order_book_delta symbol n bids asks ∷ events) old = last_trade_of s events old

abbrev pub higher : ℕ → Option ℕ → Option ℕ
higher n none = some n
higher n (some m) = some (max n m)

-- The highest sequence number of the tops and trades of a symbol.
abbrev pub highest : Symbol → List MarketDataEvent → Option ℕ → Option ℕ
highest s [] old = old
highest s (top_of_book symbol n bid ask bid_quantity ask_quantity ∷ events) old =
    highest s events (if symbol_eq symbol s then higher n old else old)
highest s (trade symbol n price quantity ∷ events) old =
    highest s events (if symbol_eq symbol s then higher n old else old)
highest s (order_book_snapshot symbol n bids asks ∷ events) old = highest s events old
highest s (order_book_delta symbol n bids asks ∷ events) old = highest s events old

abbrev pub top_quantity : (Top → Amount) → Option Top → Amount
top_quantity f none = zero_amount
top_quantity f (some top) = f top

abbrev pub trade_quantity : Option Trade → Amount
trade_quantity none = zero_amount
trade_quantity (some last) = last.quantity

-- The entry that holds these.
abbrev pub entry_with : Option Top → Option Trade → ℕ → LastPriceEntry
entry_with top last n = record {
  sequence_number = n;
  best_bid_price = Option.map (λ (t : Top). t.bid) top;
  best_ask_price = Option.map (λ (t : Top). t.ask) top;
  best_bid_quantity = top_quantity (λ t. t.bid_quantity) top;
  best_ask_quantity = top_quantity (λ t. t.ask_quantity) top;
  last_trade_price = Option.map (λ (t : Trade). t.price) last;
  last_trade_quantity = trade_quantity last;
}

abbrev pub handle_prices : List MarketDataEvent → PriceTracker → PriceTracker
handle_prices [] t = t
handle_prices (event ∷ events) t = handle_prices events (handle_price_data event t)

-- What is held of a symbol: its entry, or nothing if no event came.
pub record Holds (s : Symbol) (t : PriceTracker) (n : Option ℕ) (top : Option Top)
    (last : Option Trade) : Type 0 where
  pub entry : find_symbol s t.prices ≡ Option.map (entry_with top last) n
  pub top_unseen : n ≡ none → top ≡ none
  pub trade_unseen : n ≡ none → last ≡ none

modify_or_insert_self :
    (s : Symbol) (f : LastPriceEntry → LastPriceEntry) (new : LastPriceEntry)
    (prices : SymbolMap LastPriceEntry)
    → find_symbol s (modify_or_insert s f new prices)
      ≡ some (elim (find_symbol s prices) [ none ↦ new | some value ↦ f value ])
unfolding modify_or_insert
modify_or_insert_self s f new prices = elim (Option-cases (find_symbol s prices)) [
  | inl absent ↦ rw (absent, modify_or_insert) (find_symbol-put_self s new prices)
  | inr (value, found) ↦ rw (found, modify_or_insert) (find_symbol-put_self s (f value) prices)
]

modify_or_insert_other :
    (s k : Symbol) (f : LastPriceEntry → LastPriceEntry) (new : LastPriceEntry)
    (prices : SymbolMap LastPriceEntry)
    → symbol_eq k s ≡ false
    → find_symbol s (modify_or_insert k f new prices) ≡ find_symbol s prices
unfolding modify_or_insert
modify_or_insert_other s k f new prices h = elim (Option-cases (find_symbol k prices)) [
  | inl absent ↦ rw (absent, modify_or_insert) (find_symbol-put_symbol s k new prices h)
  | inr (value, found) ↦
      rw (found, modify_or_insert) (find_symbol-put_symbol s k (f value) prices h)
]

module _ (s : Symbol) (m : ℕ) (t : PriceTracker) (top : Option Top) (last : Option Trade) where
  top_self :
      (n : Option ℕ) (bid ask bid_quantity ask_quantity : Amount)
      → Holds s t n top last
      → find_symbol s (update_top s m bid ask bid_quantity ask_quantity t).prices
        ≡ Option.map
            (entry_with
              (some (record {
                bid = bid;
                ask = ask;
                bid_quantity = bid_quantity;
                ask_quantity = ask_quantity;
              }))
              last)
            (higher m n)
  unfolding update_top
  top_self none bid ask bid_quantity ask_quantity h =
      modify_or_insert_self s _ _ t.prices ∙ rw (h.entry, h.trade_unseen refl) refl
  top_self (some n) bid ask bid_quantity ask_quantity h =
      modify_or_insert_self s _ _ t.prices ∙ rw h.entry refl

  trade_self :
      (n : Option ℕ) (price quantity : Amount)
      → Holds s t n top last
      → find_symbol s (update_last_trade s m price quantity t).prices
        ≡ Option.map
            (entry_with top (some (record { price = price; quantity = quantity })))
            (higher m n)
  unfolding update_last_trade
  trade_self none price quantity h =
      modify_or_insert_self s _ _ t.prices ∙ rw (h.entry, h.top_unseen refl) refl
  trade_self (some n) price quantity h = modify_or_insert_self s _ _ t.prices ∙ rw h.entry refl

higher-ne-none : (m : ℕ) (n : Option ℕ) {P : Type 0} → higher m n ≡ none → P
higher-ne-none m none h = cc
higher-ne-none m (some n) h = cc

module _ (s : Symbol) (t : PriceTracker) (n : Option ℕ) (top : Option Top) (last : Option Trade)
    (h : Holds s t n top last) where
  top-Holds :
      (symbol : Symbol) (m : ℕ) (bid ask bid_quantity ask_quantity : Amount)
      → Holds s
          (update_top symbol m bid ask bid_quantity ask_quantity t)
          (if symbol_eq symbol s then higher m n else n)
          (if symbol_eq symbol s
            then some (record {
              bid = bid;
              ask = ask;
              bid_quantity = bid_quantity;
              ask_quantity = ask_quantity;
            })
            else top)
          last
  top-Holds symbol m bid ask bid_quantity ask_quantity = elim (Bool-cases (symbol_eq symbol s)) [
    | inl same ↦
        rw (same, symbol_eq→≡ symbol s same)
          (record {
            entry = top_self s m t top last n bid ask bid_quantity ask_quantity h;
            top_unseen = λ e. higher-ne-none m n e;
            trade_unseen = λ e. higher-ne-none m n e;
          })
    | inr other ↦ rw other (record {
      entry = unfold update_top in (modify_or_insert_other s symbol _ _ t.prices other ∙ h.entry);
      top_unseen = h.top_unseen;
      trade_unseen = h.trade_unseen;
    })
  ]

  trade-Holds :
      (symbol : Symbol) (m : ℕ) (price quantity : Amount)
      → Holds s
          (update_last_trade symbol m price quantity t)
          (if symbol_eq symbol s then higher m n else n)
          top
          (if symbol_eq symbol s
            then some (record { price = price; quantity = quantity })
            else last)
  trade-Holds symbol m price quantity = elim (Bool-cases (symbol_eq symbol s)) [
    | inl same ↦
        rw (same, symbol_eq→≡ symbol s same)
          (record {
            entry = trade_self s m t top last n price quantity h;
            top_unseen = λ e. higher-ne-none m n e;
            trade_unseen = λ e. higher-ne-none m n e;
          })
    | inr other ↦ rw other (record {
      entry =
          unfold update_last_trade in
          (modify_or_insert_other s symbol _ _ t.prices other ∙ h.entry);
      top_unseen = h.top_unseen;
      trade_unseen = h.trade_unseen;
    })
  ]

-- After any market data the tracker holds, of every symbol, its last top of book, its last trade and
-- the highest of their sequence numbers, whatever their order; and nothing if none came.
pub handle_prices-Holds :
    (s : Symbol) (events : List MarketDataEvent) (t : PriceTracker) (n : Option ℕ)
    (top : Option Top) (last : Option Trade)
    → Holds s t n top last
    → Holds s
        (handle_prices events t)
        (highest s events n)
        (last_top s events top)
        (last_trade_of s events last)
unfolding handle_price_data
handle_prices-Holds s [] t n top last h = h
handle_prices-Holds s (top_of_book symbol m bid ask bid_quantity ask_quantity ∷ events) t n top last
      h =
    handle_prices-Holds s events _ _ _ _
      (top-Holds s t n top last h symbol m bid ask bid_quantity ask_quantity)
handle_prices-Holds s (trade symbol m price quantity ∷ events) t n top last h =
    handle_prices-Holds s events _ _ _ _ (trade-Holds s t n top last h symbol m price quantity)
handle_prices-Holds s (order_book_snapshot symbol m bids asks ∷ events) t n top last h =
    handle_prices-Holds s events t n top last h
handle_prices-Holds s (order_book_delta symbol m bids asks ∷ events) t n top last h =
    handle_prices-Holds s events t n top last h
