-- ===== src/OrderBook/Quoted.antt =====
-- libs/symm-core/src/market_data/order_book/order_book.rs: a side of a book against the map from
-- prices to quantities that its updates describe, for prices that are equal or further apart than
-- the tolerance.
use index_maker.Prelude.{
  if◌then◌else◌, Bool-cases, ◌≡◌, refl, ◌⊎◌, inl, inr, true, false, Option, none, some, List, [],
  ◌∷◌, ◌++◌, arith, All, All-map,
}
use index_maker.Prelude.Int.{ℤ, ◌+ℤ◌, ◌≤ℤ◌, ◌<ℤ◌, ltb_ℤ, eqb_ℤ, eq_of_parts, parts_of_eq, int_laws}
use index_maker.Decimal.{Amount}
use index_maker.Bits.{PricePointEntry}
use index_maker.OrderBook.{PricePointBookEntry, Levels, PricePointEntries, store_quantity}
use index_maker.OrderBook.Spaced.{Gap, IsBook}

-- The quantity of the level at exactly this price.
abbrev pub level_at : Amount → Levels → Option Amount
level_at p [] = none
level_at p (e ∷ l) = if eqb_ℤ e.price p then some e.quantity else level_at p l

-- What an update says of the price `p`: a quantity, if it is above the tolerance, or that the level
-- is gone.
abbrev pub quote_after : Amount → Amount → PricePointEntry → Option Amount → Option Amount
quote_after tolerance p entry old =
    if eqb_ℤ entry.price p
    then (if ltb_ℤ tolerance entry.quantity then some entry.quantity else none)
    else old

abbrev pub quoted : Amount → Amount → List PricePointEntry → Option Amount → Option Amount
quoted tolerance p [] old = old
quoted tolerance p (entry ∷ updates) old =
    quoted tolerance p updates (quote_after tolerance p entry old)

abbrev pub Apart : Amount → Amount → Amount → Type 0
Apart tolerance p q = (p ≡ q) ⊎ (p +ℤ tolerance <ℤ q) ⊎ (q +ℤ tolerance <ℤ p)

abbrev or_else : Option Amount → Option Amount → Option Amount
or_else none b = b
or_else (some a) b = some a

level_at-append :
    (p : Amount) (xs ys : Levels) → level_at p (xs ++ ys) ≡ or_else (level_at p xs) (level_at p ys)
level_at-append p [] ys = refl
level_at-append p (e ∷ xs) ys = ground (arith, level_at-append p xs ys)

level_at-absent :
    (p : Amount) (l : Levels) → All (λ e. eqb_ℤ e.price p ≡ false) l → level_at p l ≡ none
level_at-absent p [] h = refl
level_at-absent p (e ∷ l) h = rw h.0 (level_at-absent p l h.1)

eq→eqb_ℤ : (a b : ℤ) → a ≡ b → eqb_ℤ a b ≡ true
eq→eqb_ℤ a b h = ground (arith, parts_of_eq a b h)

eqb_ℤ→eq : (a b : ℤ) → eqb_ℤ a b ≡ true → a ≡ b
eqb_ℤ→eq a b h = eq_of_parts a b (ground arith)

lt→eqb_ℤ : (a b : ℤ) → (a <ℤ b) ⊎ (b <ℤ a) → eqb_ℤ a b ≡ false
lt→eqb_ℤ a b h = ground arith

-- A section for one price and one update of a side.
module _ (p : Amount) (entry : PricePointEntry) (s : PricePointEntries) (b : IsBook s) where
  absent_before :
      (l : Levels)
      → entry.price ≡ p
      → All (λ e. e.price +ℤ s.tolerance <ℤ entry.price) l
      → level_at p l ≡ none
  absent_before l at h = level_at-absent p l (
      All-map _ _
        (λ e lt. lt→eqb_ℤ e.price p (inl (omega (int_laws, b.wide, parts_of_eq entry.price p at))))
        l h)

  absent_after :
      (l : Levels)
      → entry.price ≡ p
      → All (λ e. entry.price +ℤ s.tolerance ≤ℤ e.price) l
      → level_at p l ≡ none
  absent_after l at h = level_at-absent p l (
      All-map _ _
        (λ e le. lt→eqb_ℤ e.price p (inr (omega (int_laws, b.wide, parts_of_eq entry.price p at))))
        l h)

  -- The level that an update hits is one of exactly its price.
  pub hit_eq :
      (x : PricePointBookEntry)
      → Apart s.tolerance x.price entry.price
      → entry.price ≤ℤ x.price +ℤ s.tolerance
      → x.price <ℤ entry.price +ℤ s.tolerance
      → x.price ≡ entry.price
  hit_eq x (inl same) le lt = same
  hit_eq x (inr (inl low)) le lt = absurd (omega arith)
  hit_eq x (inr (inr high)) le lt = absurd (omega arith)

  module _ (before : Levels) (low : All (λ e. e.price +ℤ s.tolerance <ℤ entry.price) before) where
    -- At the price of the update only what stands at and after the cursor counts.
    level_at-cursor :
        (after : Levels) → entry.price ≡ p → level_at p (before ++ after) ≡ level_at p after
    level_at-cursor after at = rw (level_at-append p before after, absent_before before at low) refl

    -- At another price an edit at the cursor that keeps the rest changes nothing.
    level_at-elsewhere :
        (after after' : Levels)
        → level_at p after ≡ level_at p after'
        → level_at p (before ++ after) ≡ level_at p (before ++ after')
    level_at-elsewhere after after' h =
        rw (level_at-append p before after, level_at-append p before after', h) refl

    pub stored_at :
        (x : PricePointBookEntry) (after : Levels)
        → x.price ≡ entry.price
        → level_at p (before ++ store_quantity entry.quantity (x ∷ after))
          ≡ (if eqb_ℤ entry.price p then some entry.quantity else level_at p (before ++ x ∷ after))
    stored_at x after same = elim (Bool-cases (eqb_ℤ entry.price p)) [
      | inl at ↦ rw (at, level_at-cursor _ (eqb_ℤ→eq _ _ at), same, at) refl
      | inr other ↦ rw other (level_at-elsewhere _ _ (rw (same, other) refl))
    ]

    pub inserted_at :
        (after : Levels)
        → level_at p (before ++ record { price = entry.price; quantity = entry.quantity } ∷ after)
          ≡ (if eqb_ℤ entry.price p then some entry.quantity else level_at p (before ++ after))
    inserted_at after = elim (Bool-cases (eqb_ℤ entry.price p)) [
      | inl at ↦ rw (at, level_at-cursor _ (eqb_ℤ→eq _ _ at), at) refl
      | inr other ↦ rw other (level_at-elsewhere _ _ (rw other refl))
    ]

    pub removed_at :
        (x : PricePointBookEntry) (after : Levels)
        → x.price ≡ entry.price
        → All (Gap s.tolerance x) after
        → level_at p (before ++ after)
          ≡ (if eqb_ℤ entry.price p then none else level_at p (before ++ x ∷ after))
    removed_at x after same gaps = elim (Bool-cases (eqb_ℤ entry.price p)) [
      | inl at ↦
          let e = eqb_ℤ→eq entry.price p at in
          rw (at, level_at-cursor after e) (absent_after after e (rw (← same) gaps))
      | inr other ↦ rw other (level_at-elsewhere _ _ (rw (same, other) refl))
    ]

    pub missed_at :
        (after : Levels)
        → All (λ e. entry.price +ℤ s.tolerance ≤ℤ e.price) after
        → level_at p (before ++ after)
          ≡ (if eqb_ℤ entry.price p then none else level_at p (before ++ after))
    missed_at after high = elim (Bool-cases (eqb_ℤ entry.price p)) [
      | inl at ↦
          let e = eqb_ℤ→eq entry.price p at in
          rw (at, level_at-cursor after e) (absent_after after e high)
      | inr other ↦ rw other refl
    ]
