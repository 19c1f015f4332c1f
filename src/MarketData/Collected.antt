-- ===== src/MarketData/Collected.antt =====
-- libs/symm-core/src/market_data/order_book/order_book_manager.rs: the loops of the queries over
-- symbols, against the last answer of each symbol and the first error.
use mathlib.Core.Path.{subst}
use mathlib.Core.Option
use index_maker.Prelude.{
  if◌then◌else◌, Bool-cases, Option-cases, ◌≡◌, refl, sym, ap, ◌∙◌, inl, inr, Bool, true, false,
  Option, none, some, List, [], ◌∷◌, Result, ok, err, if_some, Result-cases,
}
use index_maker.Bits.{Symbol}
use index_maker.Bits.Symbols.{
  symbol_eq, SymbolMap, find_symbol, put_symbol, symbol_eq→≡, find_symbol-put_symbol,
  find_symbol-put_self,
}
use index_maker.MarketData.Books.{collect}
use index_maker.OrderBook.{BookError}
use index_maker.OrderBook.Book.{PricePointBook}

abbrev pub or_else : {A : Type 0} → Option A → Option A → Option A
or_else (some a) other = some a
or_else none other = other

or_else_assoc : {A : Type 0} (a b c : Option A) → or_else (or_else a b) c ≡ or_else a (or_else b c)
or_else_assoc (some x) b c = refl
or_else_assoc none b c = refl

or_else-none : {A : Type 0} (a : Option A) → or_else a none ≡ a
or_else-none (some x) = refl
or_else-none none = refl

abbrev pub ok_of : {A : Type 0} → Result BookError A → Option A
ok_of (ok a) = some a
ok_of (err e) = none

abbrev pub err_of : {A : Type 0} → Result BookError A → Option BookError
err_of (ok a) = none
err_of (err e) = some e

module _ {K A : Type 0} (symbol_of : K → Symbol) (query : K → PricePointBook → Result BookError A)
    (books : SymbolMap PricePointBook) where
  -- What the book of a requested symbol gives, if there is a book.
  abbrev pub asked : K → Option (Result BookError A)
  asked k = Option.map (query k) (find_symbol (symbol_of k) books)

  -- The answer to the last request for the symbol.
  abbrev pub last_answer : Symbol → List K → Option A
  last_answer s [] = none
  last_answer s (k ∷ ks) =
      or_else (last_answer s ks)
        (if symbol_eq (symbol_of k) s then if_some (asked k) ok_of else none)

  abbrev pub first_error : List K → Option BookError
  first_error [] = none
  first_error (k ∷ ks) = or_else (if_some (asked k) err_of) (first_error ks)

  -- The first error, or where there is none the last answer of every symbol, over earlier answers.
  abbrev Collects : List K → SymbolMap A → Result BookError (SymbolMap A) → Type 0
  Collects ks before (err e) = first_error ks ≡ some e
  Collects ks before (ok out) =
      (first_error ks ≡ none)
      × ((s : Symbol) → find_symbol s out ≡ or_else (last_answer s ks) (find_symbol s before))

  put-answer :
      (s t : Symbol) (a : A) (before : SymbolMap A)
      → find_symbol s (put_symbol t a before)
        ≡ or_else (if symbol_eq t s then some a else none) (find_symbol s before)
  put-answer s t a before = elim (Bool-cases (symbol_eq t s)) [
    | inl same ↦ rw same (rw (symbol_eq→≡ t s same) (find_symbol-put_self s a before))
    | inr other ↦ rw other (find_symbol-put_symbol s t a before other)
  ]

  no_answer : (b : Bool) (a : Option A) → or_else a (if b then none else none) ≡ a
  no_answer true a = or_else-none a
  no_answer false a = or_else-none a

  Collects-skipped :
      (k : K) (ks : List K) (before : SymbolMap A) (r : Result BookError (SymbolMap A))
      → asked k ≡ none
      → Collects ks before r
      → Collects (k ∷ ks) before r
  Collects-skipped k ks before (err e) absent h = rw absent h
  Collects-skipped k ks before (ok out) absent h = (
    rw absent (h.0),
    λ s.
        h.1 s
        ∙ ap (λ a. or_else a (find_symbol s before))
            (sym (
              ap
                (λ x.
                  or_else (last_answer s ks)
                    (if symbol_eq (symbol_of k) s then if_some x ok_of else none))
                absent
              ∙ no_answer (symbol_eq (symbol_of k) s) (last_answer s ks))),
  )

  Collects-answered :
      (k : K) (ks : List K) (before : SymbolMap A) (r : Result BookError (SymbolMap A)) (a : A)
      → asked k ≡ some (ok a)
      → Collects ks (put_symbol (symbol_of k) a before) r
      → Collects (k ∷ ks) before r
  Collects-answered k ks before (err e) a given h = rw given h
  Collects-answered k ks before (ok out) a given h = (
    rw given h.0,
    λ s.
        h.1 s
        ∙ ap (or_else (last_answer s ks)) (put-answer s (symbol_of k) a before)
        ∙ sym (or_else_assoc (last_answer s ks) _ (find_symbol s before))
        ∙ ap
            (λ x.
              or_else
                (or_else (last_answer s ks)
                  (if symbol_eq (symbol_of k) s then if_some x ok_of else none))
                (find_symbol s before))
            (sym given),
  )

  collect-Collects :
      (ks : List K) (before : SymbolMap A)
      → Collects ks before (collect symbol_of query ks books before)
  unfolding collect
  collect-Collects [] before = (refl, λ s. refl)
  collect-Collects (k ∷ ks) before = elim (Option-cases (find_symbol (symbol_of k) books)) [
    | inl absent ↦
        let skipped =
          Collects-skipped k ks before (collect symbol_of query ks books before)
            (ap (Option.map (query k)) absent) (collect-Collects ks before) in
        subst (Collects (k ∷ ks) before) (sym (rw (absent, collect) refl)) skipped
    | inr (book, found) ↦
        let given = ap (Option.map (query k)) found in
        elim (Result-cases (query k book)) [
          | inl (e, bad) ↦
              let stops : first_error (k ∷ ks) ≡ some e =
                ap (λ x. or_else (if_some x err_of) (first_error ks)) (given ∙ ap some bad) in
              let fails : collect symbol_of query (k ∷ ks) books before ≡ err e =
                rw (found, bad, collect) refl in
              subst (Collects (k ∷ ks) before) (sym fails) stops
          | inr (a, good) ↦
              subst (Collects (k ∷ ks) before) (sym (rw (found, good, collect) refl)) (
                Collects-answered k ks before
                  (collect symbol_of query ks books (put_symbol (symbol_of k) a before)) a
                  (given ∙ ap some good) (collect-Collects ks (put_symbol (symbol_of k) a before)))
        ]
  ]

  -- The first error, or all answers.
  abbrev pub IsCollected : List K → Result BookError (SymbolMap A) → Type 0
  IsCollected ks (err e) = first_error ks ≡ some e
  IsCollected ks (ok out) =
      (first_error ks ≡ none) × ((s : Symbol) → find_symbol s out ≡ last_answer s ks)

  -- A query over symbols fails with the first error among the books of the requested symbols, taken
  -- in the order of the requests. Where no such book fails, it holds for every symbol the answer of
  -- the symbol's book to the last request for it, and nothing for a symbol that is not requested or
  -- has no book.
  pub collect-IsCollected : (ks : List K) → IsCollected ks (collect symbol_of query ks books [])
  unfolding find_symbol
  collect-IsCollected ks = go (collect symbol_of query ks books []) (collect-Collects ks [])
    where
      go : (r : Result BookError (SymbolMap A)) → Collects ks [] r → IsCollected ks r
      go (err e) h = h
      go (ok out) h = (h.0, λ s. h.1 s ∙ or_else-none (last_answer s ks))
