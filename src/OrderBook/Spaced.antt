-- ===== src/OrderBook/Spaced.antt =====
-- libs/symm-core/src/market_data/order_book/order_book.rs: that no two levels of a side come
-- closer than the tolerance, and what `find_entry` finds in such a side.
use index_maker.Prelude.{
  Option-cases, ◌≡◌, inl, inr, Bool, true, false, [], ◌∷◌, ◌++◌, All, All-map, Pairwise, Across,
  Pairwise-of_append, ok, of_ok,
}
use index_maker.Prelude.Int.{◌+ℤ◌, ◌-ℤ◌, ◌≤ℤ◌, ◌<ℤ◌, ltb_ℤ→lt, ltb_ℤ→ge, int_laws, -ℤ◌}
use index_maker.Decimal.{Amount, zero_amount, Decimal, IsExact, safe_add, safe_sub}
use index_maker.OrderBook.{
  PricePointBookEntry, Levels, Cursor, RbTree, IsOrdered, IsTree, PricePointEntries, is_match,
  find_entry,
}

abbrev pub Gap : Amount → PricePointBookEntry → PricePointBookEntry → Type 0
Gap tolerance x y = x.price +ℤ tolerance ≤ℤ y.price

pub record IsBook (s : PricePointEntries) : Type 0 where
  pub wide : zero_amount <ℤ s.tolerance
  pub spaced : Pairwise (Gap s.tolerance) s.entries
  pub filled : All (λ e. s.tolerance <ℤ e.quantity) s.entries

Pairwise-map :
    (tolerance : Amount) (l : Levels)
    → zero_amount <ℤ tolerance
    → Pairwise (Gap tolerance) l
    → IsOrdered l
Pairwise-map tolerance [] wide h = tt
Pairwise-map tolerance (e ∷ l) wide h =
    (All-map _ _ (λ f gap. omega int_laws) l h.0, Pairwise-map tolerance l wide h.1)

pub IsBook-IsOrdered : {s : PricePointEntries} → IsBook s → IsOrdered s.entries
IsBook-IsOrdered {s} b = Pairwise-map s.tolerance s.entries b.wide b.spaced

-- The element at the cursor is one that the price matches.
abbrev pub Hits : Amount → Amount → Levels → Type 0
Hits price tolerance [] = ⊥
Hits price tolerance (e ∷ l) = e.price <ℤ price +ℤ tolerance

-- Where `find_entry` leaves the cursor.
pub record Found (price : Amount) (s : PricePointEntries) (found : Bool × Cursor) : Type 0 where
  pub cut : found.1.0 ++ found.1.1 ≡ s.entries
  pub before : All (λ e. e.price +ℤ s.tolerance <ℤ price) found.1.0
  pub after : All (λ e. price ≤ℤ e.price +ℤ s.tolerance) found.1.1
  pub hit : found.0 ≡ true → Hits price s.tolerance found.1.1
  pub missed : found.0 ≡ false → All (λ e. price +ℤ s.tolerance ≤ℤ e.price) found.1.1

is_match-Hits :
    (price tolerance upper : Amount) (l : Levels)
    → upper ≡ price +ℤ tolerance
    → is_match upper l ≡ true
    → Hits price tolerance l
unfolding is_match
is_match-Hits price tolerance upper [] e h = cc
is_match-Hits price tolerance upper (x ∷ l) e h = omega (int_laws, ltb_ℤ→lt x.price upper h)

is_match-misses :
    (price tolerance upper : Amount) (l : Levels)
    → upper ≡ price +ℤ tolerance
    → IsOrdered l
    → is_match upper l ≡ false
    → All (λ e. price +ℤ tolerance ≤ℤ e.price) l
unfolding is_match
is_match-misses price tolerance upper [] e o h = tt
is_match-misses price tolerance upper (x ∷ l) e o h =
    let first : price +ℤ tolerance ≤ℤ x.price = omega (int_laws, ltb_ℤ→ge x.price upper h) in
    (first, All-map _ _ (λ f le. omega int_laws) l o.0)

module _ (tree : RbTree) ⦃d : Decimal⦄ (laws : IsTree tree) (exact : IsExact d) where
  lower_bound-Found :
      (price lower upper : Amount) (s : PricePointEntries)
      → IsBook s
      → lower ≡ price -ℤ s.tolerance
      → upper ≡ price +ℤ s.tolerance
      → let cursor = tree.lower_bound lower s.entries in
        Found price s (is_match upper cursor.1, cursor)
  lower_bound-Found price lower upper s b low up = record {
    cut = laws.cuts lower s.entries;
    before = All-map _ _ (λ e lt. omega int_laws) cursor.0 (laws.below lower s.entries ordered);
    after = All-map _ _ (λ e le. omega int_laws) cursor.1 (laws.from lower s.entries ordered);
    hit = is_match-Hits price s.tolerance upper cursor.1 up;
    missed = is_match-misses price s.tolerance upper cursor.1 up parts.1;
  }
    where
      ordered : IsOrdered s.entries
      ordered = IsBook-IsOrdered b

      cursor : Cursor
      cursor = tree.lower_bound lower s.entries

      parts :
          IsOrdered cursor.0
          × IsOrdered cursor.1
          × Across (λ x y. x.price ≤ℤ y.price) cursor.0 cursor.1
      parts =
          Pairwise-of_append (λ x y. x.price ≤ℤ y.price) cursor.0 cursor.1
            (rw (laws.cuts lower s.entries) ordered)

  pub find_entry-Found :
      (price : Amount) (s : PricePointEntries) (found : Bool × Cursor)
      → IsBook s
      → find_entry tree price s ≡ ok found
      → Found price s found
  unfolding find_entry
  find_entry-Found price s found b h = elim (Option-cases (safe_sub price s.tolerance)) [
    | inl over ↦ cc (rw over at h)
    | inr (lower, low) ↦ elim (Option-cases (safe_add price s.tolerance)) [
      | inl over ↦ cc (rw (low, over) at h)
      | inr (upper, up) ↦ rw (← of_ok (rw (low, up) at h)) (
          lower_bound-Found price lower upper s b (exact.sub_exact _ _ _ low)
            (exact.add_exact _ _ _ up))
    ]
  ]
