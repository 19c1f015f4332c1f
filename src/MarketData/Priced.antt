-- ===== src/MarketData/Priced.antt =====
-- libs/symm-core/src/market_data/price_tracker.rs: `get_prices` gives each requested symbol a price
-- or names it as missing.
use mathlib.Core.List.{Memᴰ}
use index_maker.Prelude.{
  Bool-cases, ℕ, ◌≡◌, refl, sym, ap, ◌∙◌, ◌↔◌, ◌⊎◌, inl, inr, Bool, true, false, Option, none, some,
  List, [], ◌∷◌, take, drop, All, All-Memᴰ, Memᴰ-take_drop, Memᴰ-of_take, is_none,
}
use index_maker.Decimal.{Amount, Decimal}
use index_maker.Bits.{Symbol}
use index_maker.Bits.Symbols.{
  symbol_eq, SymbolMap, find_symbol, symbol_eq→≡, find_symbol-put_symbol, symbol_eq_refl,
  find_symbol-put_self, find_symbol-nil,
}
use index_maker.MarketData.Prices.{
  PriceType, PriceTracker, Partition, GetPricesResponse, insert_price, price_of, insert_prices,
  get_prices,
}

-- What the crate documents of `partition`.
pub record IsPartition (p : Partition) : Type 0 where
  pub sees : (s : Symbol) (l : List Symbol) → Memᴰ s (p.visited l) ↔ Memᴰ s l
  pub moves :
      (s : Symbol) (test : Symbol → Bool) (l : List Symbol) → Memᴰ s (p.arrange test l).0 ↔ Memᴰ s l
  pub front :
      (test : Symbol → Bool) (l : List Symbol)
      → let (arranged, n) = p.arrange test l in All (λ s. test s ≡ true) (take n arranged)
  pub back :
      (test : Symbol → Bool) (l : List Symbol)
      → let (arranged, n) = p.arrange test l in All (λ s. test s ≡ false) (drop n arranged)

is_none→none : {A : Type 0} (a : Option A) → is_none a ≡ true → a ≡ none
is_none→none none h = refl
is_none→none (some a) h = cc

insert_price_other :
    (s k : Symbol) (price : Option Amount) (prices : SymbolMap Amount)
    → symbol_eq k s ≡ false
    → find_symbol s (insert_price k price prices) ≡ find_symbol s prices
unfolding insert_price
insert_price_other s k none prices h = refl
insert_price_other s k (some price) prices h = find_symbol-put_symbol s k price prices h

insert_price_self :
    (s : Symbol) (price : Option Amount) (a : Amount) (prices : SymbolMap Amount)
    → find_symbol s (insert_price s price prices) ≡ some a
    → (find_symbol s prices ≡ some a) ⊎ (price ≡ some a)
unfolding insert_price
insert_price_self s none a prices h = inl h
insert_price_self s (some price) a prices h = inr (sym (find_symbol-put_self s price prices) ∙ h)

module _ ⦃d : Decimal⦄ (one two : Amount) (price_type : PriceType) (t : PriceTracker)
    (s : Symbol) where
  -- A price was there before, or it is that of a symbol of the list.
  insert_prices_sound :
      (l : List Symbol) (prices : SymbolMap Amount) (a : Amount)
      → find_symbol s (insert_prices one two price_type t l prices) ≡ some a
      → (find_symbol s prices ≡ some a) ⊎ (Memᴰ s l × (price_of one two price_type t s ≡ some a))
  unfolding insert_prices
  insert_prices_sound [] prices a h = inl h
  insert_prices_sound (k ∷ l) prices a h = elim (insert_prices_sound l _ a h) [
    | inr later ↦ inr (Memᴰ.tail later.0, later.1)
    | inl before ↦ elim (Bool-cases (symbol_eq k s)) [
      | inr other ↦ inl (sym (insert_price_other s k _ prices other) ∙ before)
      | inl same ↦ here (symbol_eq→≡ k s same) before
    ]
  ]
    where
      here :
          k ≡ s
          → find_symbol s (insert_price k (price_of one two price_type t k) prices) ≡ some a
          → (find_symbol s prices ≡ some a)
            ⊎ (Memᴰ s (k ∷ l) × (price_of one two price_type t s ≡ some a))
      here e before = elim (insert_price_self s _ a prices (rw e at before)) [
        | inl old ↦ inl old
        | inr now ↦ inr (Memᴰ.head (sym e), now)
      ]

  module _ (a : Amount) (priced : price_of one two price_type t s ≡ some a) where
    insert_price_keeps :
        (k : Symbol) (prices : SymbolMap Amount)
        → (find_symbol s prices ≡ some a) ⊎ (k ≡ s)
        → find_symbol s (insert_price k (price_of one two price_type t k) prices) ≡ some a
    unfolding insert_price
    insert_price_keeps k prices h = elim (Bool-cases (symbol_eq k s)) [
      | inl same ↦ rw (symbol_eq→≡ k s same, priced) (find_symbol-put_self s a prices)
      | inr other ↦ insert_price_other s k _ prices other ∙ old other h
    ]
      where
        old :
            symbol_eq k s ≡ false
            → (find_symbol s prices ≡ some a) ⊎ (k ≡ s)
            → find_symbol s prices ≡ some a
        old other (inl before) = before
        old other (inr e) = let bad : symbol_eq s s ≡ false = rw e at other in cc (symbol_eq_refl s)

    insert_prices_keeps :
        (l : List Symbol) (prices : SymbolMap Amount)
        → find_symbol s prices ≡ some a
        → find_symbol s (insert_prices one two price_type t l prices) ≡ some a
    unfolding insert_prices
    insert_prices_keeps [] prices h = h
    insert_prices_keeps (k ∷ l) prices h =
        insert_prices_keeps l _ (insert_price_keeps k prices (inl h))

    insert_prices_complete :
        (l : List Symbol) (prices : SymbolMap Amount)
        → Memᴰ s l
        → find_symbol s (insert_prices one two price_type t l prices) ≡ some a
    unfolding insert_prices
    insert_prices_complete [] prices m = elim m [ ]
    insert_prices_complete (k ∷ l) prices (Memᴰ.head e) =
        insert_prices_keeps l _ (insert_price_keeps k prices (inr (sym e)))
    insert_prices_complete (k ∷ l) prices (Memᴰ.tail m) = insert_prices_complete l _ m

-- A symbol is missing exactly if it is requested and has no price, and has a price in the response
-- exactly if it is requested and that is its price.
pub record IsAnswered ⦃d : Decimal⦄ (one two : Amount) (price_type : PriceType)
    (symbols : List Symbol) (t : PriceTracker) (s : Symbol) (r : GetPricesResponse) : Type 0 where
  pub missing :
      Memᴰ s r.missing_symbols ↔ (Memᴰ s symbols × (price_of one two price_type t s ≡ none))
  pub priced :
      (a : Amount)
      → (find_symbol s r.prices ≡ some a)
        ↔ (Memᴰ s symbols × (price_of one two price_type t s ≡ some a))

pub get_prices-IsAnswered :
    ⦃d : Decimal⦄ (one two : Amount) (p : Partition) (price_type : PriceType)
    (symbols : List Symbol) (t : PriceTracker) (s : Symbol)
    → IsPartition p
    → IsAnswered one two price_type symbols t s (get_prices one two p price_type symbols t)
unfolding get_prices
get_prices-IsAnswered one two p price_type symbols t s laws = record {
  missing = (gone, back);
  priced = λ a. (
    sound a,
    λ h. insert_prices_complete one two price_type t s a h.1 _ [] ((laws.sees s symbols).1 h.0),
  );
}
  where
    test : Symbol → Bool
    test symbol = is_none (price_of one two price_type t symbol)

    arranged : List Symbol
    arranged = (p.arrange test symbols).0

    point : ℕ
    point = (p.arrange test symbols).1

    price : Option Amount
    price = price_of one two price_type t s

    gone : Memᴰ s (take point arranged) → Memᴰ s symbols × (price ≡ none)
    gone m = (
      (laws.moves s test symbols).0 (Memᴰ-of_take point arranged m),
      is_none→none price (All-Memᴰ _ m (laws.front test symbols)),
    )

    back : Memᴰ s symbols × (price ≡ none) → Memᴰ s (take point arranged)
    back h = elim (Memᴰ-take_drop point arranged ((laws.moves s test symbols).1 h.0)) [
      | inl front ↦ front
      | inr behind ↦
          let priced : is_none price ≡ false = All-Memᴰ _ behind (laws.back test symbols) in
          let missing : is_none price ≡ true = ap is_none h.1 in cc
    ]

    sound :
        (a : Amount)
        → find_symbol s (insert_prices one two price_type t (p.visited symbols) []) ≡ some a
        → Memᴰ s symbols × (price ≡ some a)
    sound a h = elim (insert_prices_sound one two price_type t s _ [] a h) [
      | inl before ↦ absurd (find_symbol-nil s a before)
      | inr found ↦ ((laws.sees s symbols).0 found.0, found.1)
    ]
