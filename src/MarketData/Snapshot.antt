-- ===== src/MarketData/Snapshot.antt =====
-- libs/symm-core/src/market_data/order_book/order_book_manager.rs: a snapshot replaces what the book
-- held before.
use index_maker.Prelude.{
  ℕ, ◌≡◌, refl, ap, ◌∙◌, none, some, List, [], ◌∷◌, ◌++◌, All, Pairwise, ok, bind_ok,
}
use index_maker.Decimal.{Amount, zero_amount, Decimal, IsExact}
use index_maker.Bits.{Symbol, Side, buy, sell, PricePointEntry}
use index_maker.Bits.Symbols.{find_symbol, put_symbol, find_symbol-put_self}
use index_maker.MarketData.{order_book_snapshot}
use index_maker.MarketData.Books.{
  book_update, PricePointBookManager, book_or_new, outcome_event, update_order_book,
  handle_book_data,
}
use index_maker.MarketData.Managed.{IsKept, clear_book-IsKept, IsManaged, book_or_new-IsKept}
use index_maker.OrderBook.{RbTree, IsTree, PricePointEntries, clear, update_each}
use index_maker.OrderBook.Book.{PricePointBook, clear_book, on_bids, on_asks, update_entries}
use index_maker.OrderBook.Kept.{IsSide}
use index_maker.OrderBook.Quoted.{level_at, quoted, Apart}
use index_maker.OrderBook.Refines.{Fits, AllApart, update_each-quotes}
use index_maker.OrderBook.Spaced.{IsBook}

-- Updates whose prices are apart from each other, and whose bounds do not overflow.
pub record AreSound ⦃d : Decimal⦄ (tolerance : Amount) (updates : List PricePointEntry)
    : Type 0 where
  pub fit : All (λ u. Fits tolerance u.price) updates
  pub apart : Pairwise (λ u v. Apart tolerance u.price v.price) updates

-- A book with exactly the quantities that its last snapshot quotes.
pub record Shows (tolerance : Amount) (n : ℕ) (bids asks : List PricePointEntry)
    (book : PricePointBook) : Type 0 where
  pub sequence_number : book.sequence_number ≡ some n
  pub bids_shown : (p : Amount) → level_at p book.bid_entries.entries ≡ quoted tolerance p bids none
  pub asks_shown : (p : Amount) → level_at p book.ask_entries.entries ≡ quoted tolerance p asks none

no_levels_apart :
    (s : PricePointEntries) (updates : List PricePointEntry)
    → s.entries ≡ []
    → All (λ (u : PricePointEntry). AllApart s u.price) updates
no_levels_apart s [] h = tt
no_levels_apart s (u ∷ updates) h = (rw h tt, no_levels_apart s updates h)

module _ (tree : RbTree) ⦃d : Decimal⦄ (laws : IsTree tree) (exact : IsExact d) where
  -- From an empty side sound updates succeed, and leave what they quote.
  fill_side :
      (side : Side) (tolerance : Amount) (updates : List PricePointEntry) (s : PricePointEntries)
      → IsSide side tolerance s
      → s.entries ≡ []
      → AreSound tolerance updates
      → ((update_each tree updates s).0 ≡ ok tt)
        × ((p : Amount)
            → level_at p (update_each tree updates s).1.entries ≡ quoted tolerance p updates none)
  fill_side side tolerance updates s i empty sound = (
    (ap (λ r. r.0) (run zero_amount).1),
    λ p. ap (λ r. level_at p r.1.entries) (run p).1 ∙ (run p).2 ∙ rw (empty, i.same_tolerance) refl,
  )
    where
      run :
          (p : Amount)
          → (t : PricePointEntries) × (update_each tree updates s ≡ (ok tt, t))
            × (level_at p t.entries ≡ quoted s.tolerance p updates (level_at p s.entries))
            × IsBook t
      run p =
          update_each-quotes tree laws exact p updates s i.book (rw i.same_tolerance sound.fit)
            (rw i.same_tolerance sound.apart) (no_levels_apart s updates empty)

  -- From a book without levels sound updates succeed, and the book shows what they quote.
  fill_book :
      (tolerance : Amount) (n : ℕ) (bids asks : List PricePointEntry) (book : PricePointBook)
      → IsKept tolerance book
      → book.bid_entries.entries ≡ []
      → book.ask_entries.entries ≡ []
      → AreSound tolerance bids
      → AreSound tolerance asks
      → (t : PricePointBook) × (update_entries tree n bids asks book ≡ (ok tt, t))
        × Shows tolerance n bids asks t
  unfolding update_entries
  fill_book tolerance n bids asks book k no_bids no_asks sound_bids sound_asks =
      let (bids_fit, bids_shown) =
        fill_side buy tolerance bids book.bid_entries k.bids no_bids sound_bids in
      let (asks_fit, asks_shown) =
        fill_side sell tolerance asks book.ask_entries k.asks no_asks sound_asks in
      let b₁ : PricePointBook = record book {
        sequence_number = some n;
        bid_entries = (update_each tree bids book.bid_entries).1;
      } in
      let b₂ : PricePointBook = record b₁ {
        ask_entries = (update_each tree asks book.ask_entries).1;
      } in
      (
        b₂,
        bind_ok (on_bids (update_each tree bids)) (λ _. on_asks (update_each tree asks))
              (record book { sequence_number = some n }) (ap (λ r. (r, b₁)) bids_fit)
            ∙ ap (λ r. (r, b₂)) asks_fit,
        record { sequence_number = refl; bids_shown = bids_shown; asks_shown = asks_shown },
      )

  -- With exact arithmetic and a tree that does as documented, from a manager with a positive
  -- tolerance and books whose levels are at
  -- least that far apart and above it: after a snapshot whose prices are, on each side, equal or
  -- further apart than the tolerance, with bounds that do not overflow, the book of the symbol has the
  -- snapshot's sequence number and, whatever it held before, at every price the quantity that is quoted
  -- last there if that is above the tolerance, and no level otherwise; the observer is told of an
  -- update.
  pub snapshot-Shows :
      (symbol : Symbol) (n : ℕ) (bids asks : List PricePointEntry) (m : PricePointBookManager)
      → IsManaged m
      → AreSound m.tolerance bids
      → AreSound m.tolerance asks
      → let m' = handle_book_data tree (order_book_snapshot symbol n bids asks) m in
        (book : PricePointBook) × (find_symbol symbol m'.order_books ≡ some book)
        × Shows m.tolerance n bids asks book
        × (m'.published ≡ m.published ++ book_update symbol ∷ [])
  unfolding handle_book_data update_order_book clear_book clear
  snapshot-Shows symbol n bids asks m i sound_bids sound_asks =
      let cleared = clear_book (book_or_new symbol m) in
      let (book, h, shows) =
        fill_book m.tolerance n bids asks cleared (clear_book-IsKept (book_or_new-IsKept symbol i))
          refl refl sound_bids sound_asks in
      (
        book,
        ap (λ r. find_symbol symbol (put_symbol symbol r.1 m.order_books)) h
            ∙ find_symbol-put_self symbol book m.order_books,
        shows,
        ap (λ r. m.published ++ outcome_event symbol r.0 ∷ []) h,
      )
