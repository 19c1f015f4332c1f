-- ===== src/MarketData/Books.antt =====
-- libs/symm-core/src/market_data/order_book/order_book_manager.rs: a book for each symbol. What the
-- observer is given is the state's `published` log.
use index_maker.Prelude.{
  if◌then◌else◌, ℕ, Bool, true, false, Option, none, some, List, [], ◌∷◌, ◌++◌, Result, ok, err,
  and_then,
}
use index_maker.Decimal.{Amount, Decimal}
use index_maker.Bits.{Symbol, Side, LastPriceEntry, PricePointEntry}
use index_maker.Bits.Symbols.{SymbolMap, find_symbol, put_symbol}
use index_maker.MarketData.{
  MarketDataEvent, top_of_book, trade, order_book_snapshot, order_book_delta,
}
use index_maker.OrderBook.{RbTree, BookError}
use index_maker.OrderBook.Book.{
  PricePointBook, new_book, clear_book, update_entries, get_book_liquidity, get_book_levels,
  get_book_top,
}

pub data OrderBookEvent : Type 0 where
  book_update : Symbol → OrderBookEvent
  update_error : Symbol → BookError → OrderBookEvent

pub record PricePointBookManager : Type 0 where
  pub published : List OrderBookEvent
  pub order_books : SymbolMap PricePointBook
  pub tolerance : Amount

abbrev pub new_manager : Amount → PricePointBookManager
new_manager tolerance = record { published = []; order_books = []; tolerance = tolerance }

-- `entry(symbol).or_insert_with(|| PricePointBook::new(self.tolerance))`
unfoldable pub book_or_new : Symbol → PricePointBookManager → PricePointBook
book_or_new symbol m = elim (find_symbol symbol m.order_books) [
  | none ↦ new_book m.tolerance
  | some book ↦ book
]

abbrev pub outcome_event : Symbol → Result BookError (Unit {0}) → OrderBookEvent
outcome_event symbol (ok done_with) = book_update symbol
outcome_event symbol (err error) = update_error symbol error

module _ (tree : RbTree) ⦃d : Decimal⦄ where
  unfoldable pub update_order_book :
      Symbol
      → ℕ
      → Bool
      → List PricePointEntry
      → List PricePointEntry
      → PricePointBookManager
      → PricePointBookManager
  update_order_book symbol sequence_number is_snapshot bid_updates ask_updates m =
      let found = book_or_new symbol m in
      let book = if is_snapshot then clear_book found else found in
      let (r, updated) = update_entries tree sequence_number bid_updates ask_updates book in
      record m {
        order_books = put_symbol symbol updated m.order_books;
        published = m.published ++ outcome_event symbol r ∷ [];
      }

  unfoldable pub handle_book_data : MarketDataEvent → PricePointBookManager → PricePointBookManager
  handle_book_data (order_book_snapshot symbol sequence_number bid_updates ask_updates) m =
      update_order_book symbol sequence_number true bid_updates ask_updates m
  handle_book_data (order_book_delta symbol sequence_number bid_updates ask_updates) m =
      update_order_book symbol sequence_number false bid_updates ask_updates m
  handle_book_data (top_of_book symbol sequence_number bid ask bid_quantity ask_quantity) m = m
  handle_book_data (trade symbol sequence_number price quantity) m = m

  abbrev pub handle_all : List MarketDataEvent → PricePointBookManager → PricePointBookManager
  handle_all [] m = m
  handle_all (event ∷ events) m = handle_all events (handle_book_data event m)

-- The loops of the queries: the answer of every symbol that has a book, up to the first error.
unfoldable pub collect :
    {K A : Type 0}
    → (K → Symbol)
    → (K → PricePointBook → Result BookError A)
    → List K
    → SymbolMap PricePointBook
    → SymbolMap A
    → Result BookError (SymbolMap A)
collect symbol_of query [] books result = ok result
collect symbol_of query (k ∷ ks) books result = elim (find_symbol (symbol_of k) books) [
  | none ↦ collect symbol_of query ks books result
  | some book ↦
      and_then (query k book)
        λ answer. collect symbol_of query ks books (put_symbol (symbol_of k) answer result)
]

module _ ⦃d : Decimal⦄ (m : PricePointBookManager) where
  unfoldable pub manager_liquidity :
      Side → List (Symbol × Amount) → Result BookError (SymbolMap Amount)
  manager_liquidity side symbols =
      collect (λ k. k.0) (λ k book. get_book_liquidity book side k.1) symbols m.order_books []

  unfoldable pub manager_levels :
      Side → ℕ → List Symbol → Result BookError (SymbolMap (Option PricePointEntry))
  manager_levels side max_levels symbols =
      collect (λ s. s) (λ s book. get_book_levels book side max_levels) symbols m.order_books []

  unfoldable pub manager_top : List Symbol → Result BookError (SymbolMap LastPriceEntry)
  manager_top symbols = collect (λ s. s) (λ s book. get_book_top book) symbols m.order_books []
