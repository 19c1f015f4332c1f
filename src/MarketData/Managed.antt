-- ===== src/MarketData/Managed.antt =====
-- libs/symm-core/src/market_data/order_book/order_book_manager.rs: that every event keeps every book.
use index_maker.Prelude.{
  if◌then◌else◌, Bool-cases, Option-cases, ℕ, ◌≡◌, refl, inl, inr, Bool, true, false, some, List,
  [], ◌∷◌, All, bind_holds, of_some,
}
use index_maker.Prelude.Int.{◌<ℤ◌}
use index_maker.Decimal.{Amount, zero_amount, Decimal, IsExact}
use index_maker.Bits.{Symbol, buy, sell, PricePointEntry}
use index_maker.Bits.Symbols.{symbol_eq, SymbolMap, find_symbol, put_symbol}
use index_maker.MarketData.{
  MarketDataEvent, top_of_book, trade, order_book_snapshot, order_book_delta,
}
use index_maker.MarketData.Books.{
  PricePointBookManager, book_or_new, update_order_book, handle_book_data, handle_all,
}
use index_maker.OrderBook.{RbTree, IsTree, update_each}
use index_maker.OrderBook.Book.{
  PricePointBook, new_book, clear_book, on_bids, on_asks, update_entries,
}
use index_maker.OrderBook.Kept.{IsSide, clear-IsSide, update_each-IsSide}

pub record IsKept (tolerance : Amount) (book : PricePointBook) : Type 0 where
  pub bids : IsSide buy tolerance book.bid_entries
  pub asks : IsSide sell tolerance book.ask_entries

new_book-IsKept :
    (tolerance : Amount) → zero_amount <ℤ tolerance → IsKept tolerance (new_book tolerance)
unfolding new_book
new_book-IsKept tolerance wide = record {
  bids = record {
    book = record { wide = wide; spaced = tt; filled = tt };
    same_side = refl;
    same_tolerance = refl;
  };
  asks = record {
    book = record { wide = wide; spaced = tt; filled = tt };
    same_side = refl;
    same_tolerance = refl;
  };
}

pub clear_book-IsKept :
    {tolerance : Amount} {book : PricePointBook}
    → IsKept tolerance book
    → IsKept tolerance (clear_book book)
unfolding clear_book
clear_book-IsKept k = record { bids = clear-IsSide k.bids; asks = clear-IsSide k.asks }

-- Of a map, a predicate of every value.
abbrev AllValues : {V : Type 0} → (V → Type 0) → SymbolMap V → Type 0
AllValues P m = All (λ (kv : Symbol × _). P kv.1) m

AllValues-put_symbol :
    {V : Type 0} (P : V → Type 0) (s : Symbol) (v : V) (m : SymbolMap V)
    → P v
    → AllValues P m
    → AllValues P (put_symbol s v m)
unfolding put_symbol
AllValues-put_symbol P s v [] pv h = (pv, tt)
AllValues-put_symbol P s v ((t, w) ∷ m) pv h = elim (Bool-cases (symbol_eq t s)) [
  | inl same ↦ rw same (pv, h.1)
  | inr other ↦ rw other (h.0, AllValues-put_symbol P s v m pv h.1)
]

AllValues-find_symbol :
    {V : Type 0} (P : V → Type 0) (s : Symbol) (m : SymbolMap V) {v : V}
    → AllValues P m
    → find_symbol s m ≡ some v
    → P v
unfolding find_symbol
AllValues-find_symbol P s [] h e = cc
AllValues-find_symbol P s ((t, w) ∷ m) h e = elim (Bool-cases (symbol_eq t s)) [
  | inl same ↦ rw (← of_some (rw same at e)) h.0
  | inr other ↦ AllValues-find_symbol P s m h.1 (rw other at e)
]

pub record IsManaged (m : PricePointBookManager) : Type 0 where
  pub wide : zero_amount <ℤ m.tolerance
  pub kept : AllValues (IsKept m.tolerance) m.order_books

pub book_or_new-IsKept :
    (symbol : Symbol) {m : PricePointBookManager}
    → IsManaged m
    → IsKept m.tolerance (book_or_new symbol m)
unfolding book_or_new
book_or_new-IsKept symbol {m} i = elim (Option-cases (find_symbol symbol m.order_books)) [
  | inl absent ↦ rw (absent, book_or_new) (new_book-IsKept m.tolerance i.wide)
  | inr (book, found) ↦
      rw (found, book_or_new)
        (AllValues-find_symbol (IsKept m.tolerance) symbol m.order_books i.kept found)
]

module _ (tree : RbTree) ⦃d : Decimal⦄ (laws : IsTree tree) (exact : IsExact d) where
  pub update_entries-IsKept :
      (tolerance : Amount) (n : ℕ) (bids asks : List PricePointEntry) (book : PricePointBook)
      → IsKept tolerance book
      → IsKept tolerance (update_entries tree n bids asks book).1
  unfolding update_entries
  update_entries-IsKept tolerance n bids asks book k =
      bind_holds (IsKept tolerance) (on_bids (update_each tree bids))
        (λ _. on_asks (update_each tree asks)) (record book { sequence_number = some n })
        (record {
          bids = update_each-IsSide tree laws exact buy tolerance bids _ k.bids;
          asks = k.asks;
        })
        (λ _ t kept. record {
          bids = kept.bids;
          asks = update_each-IsSide tree laws exact sell tolerance asks _ kept.asks;
        })

  update_order_book-IsManaged :
      (symbol : Symbol) (n : ℕ) (is_snapshot : Bool) (bids asks : List PricePointEntry)
      (m : PricePointBookManager)
      → IsManaged m
      → IsManaged (update_order_book tree symbol n is_snapshot bids asks m)
  unfolding update_order_book
  update_order_book-IsManaged symbol n is_snapshot bids asks m i = record {
    wide = i.wide;
    kept =
        AllValues-put_symbol (IsKept m.tolerance) symbol _ m.order_books
          (update_entries-IsKept m.tolerance n bids asks _ (cleared is_snapshot)) i.kept;
  }
    where
      cleared :
          (b : Bool)
          → IsKept m.tolerance
              (if b then clear_book (book_or_new symbol m) else book_or_new symbol m)
      cleared true = clear_book-IsKept (book_or_new-IsKept symbol i)
      cleared false = book_or_new-IsKept symbol i

  handle_book_data-IsManaged :
      (event : MarketDataEvent) (m : PricePointBookManager)
      → IsManaged m
      → IsManaged (handle_book_data tree event m)
  unfolding handle_book_data
  handle_book_data-IsManaged (order_book_snapshot symbol n bids asks) m i =
      update_order_book-IsManaged symbol n true bids asks m i
  handle_book_data-IsManaged (order_book_delta symbol n bids asks) m i =
      update_order_book-IsManaged symbol n false bids asks m i
  handle_book_data-IsManaged (top_of_book symbol n bid ask bid_quantity ask_quantity) m i = i
  handle_book_data-IsManaged (trade symbol n price quantity) m i = i

  -- With exact arithmetic, a tree that does as documented and a positive tolerance, whatever market
  -- data arrives, whether its updates
  -- succeed or overflow: the levels of every side of every book are apart by the tolerance and above
  -- it, if they were before.
  pub handle_all-IsManaged :
      (events : List MarketDataEvent) (m : PricePointBookManager)
      → IsManaged m
      → IsManaged (handle_all tree events m)
  handle_all-IsManaged [] m i = i
  handle_all-IsManaged (event ∷ events) m i =
      handle_all-IsManaged events (handle_book_data tree event m)
        (handle_book_data-IsManaged event m i)
