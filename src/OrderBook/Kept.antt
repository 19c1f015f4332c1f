-- ===== src/OrderBook/Kept.antt =====
-- libs/symm-core/src/market_data/order_book/order_book.rs: that every update of a side keeps its
-- levels apart and above the tolerance.
use index_maker.Prelude.{
  Bool-cases, ◌≡◌, refl, ◌∙◌, inl, inr, Bool, true, false, List, [], ◌∷◌, ◌++◌, arith, All, All-map,
  Pairwise, All-append, All-of_append, Pairwise-append, Pairwise-of_append, All-both, bind_holds,
  Result-cases,
}
use index_maker.Prelude.Int.{◌+ℤ◌, ◌≤ℤ◌, ◌<ℤ◌, ltb_ℤ, ltb_ℤ→lt}
use index_maker.Decimal.{Amount, Decimal, IsExact}
use index_maker.Bits.{Side, PricePointEntry}
use index_maker.OrderBook.{
  Levels, Cursor, RbTree, IsTree, PricePointEntries, store_quantity, clear, place, take_out,
  find_entry, insert_or_modify_entry, remove_entry, update, update_each,
}
use index_maker.OrderBook.Spaced.{Gap, IsBook, Hits, Found, find_entry-Found}

module _ (tree : RbTree) ⦃d : Decimal⦄ (laws : IsTree tree) (exact : IsExact d) where
  module _ (entry : PricePointEntry) (s : PricePointEntries) (b : IsBook s) where
    stored-IsBook :
        (before after : Levels)
        → before ++ after ≡ s.entries
        → s.tolerance <ℤ entry.quantity
        → IsBook (record s { entries = before ++ store_quantity entry.quantity after })
    stored-IsBook before [] cut big = record {
      wide = b.wide;
      spaced = rw cut b.spaced;
      filled = rw cut b.filled;
    }
    stored-IsBook before (x ∷ after) cut big =
        let gaps : Pairwise (Gap s.tolerance) (before ++ x ∷ after) = rw cut b.spaced in
        let sizes : All (λ e. s.tolerance <ℤ e.quantity) (before ++ x ∷ after) = rw cut b.filled in
        let (left, right, across) = Pairwise-of_append (Gap s.tolerance) before (x ∷ after) gaps in
        let (full, rest) = All-of_append _ before (x ∷ after) sizes in
        record {
          wide = b.wide;
          spaced = Pairwise-append (Gap s.tolerance) before _ left right across;
          filled = All-append _ before _ full (big, rest.1);
        }

    inserted-IsBook :
        (before after : Levels)
        → before ++ after ≡ s.entries
        → All (λ e. e.price +ℤ s.tolerance <ℤ entry.price) before
        → All (λ e. entry.price +ℤ s.tolerance ≤ℤ e.price) after
        → s.tolerance <ℤ entry.quantity
        → IsBook (record s { entries = place tree entry (false, (before, after)) })
    unfolding place
    inserted-IsBook before after cut low high big =
        let gaps : Pairwise (Gap s.tolerance) (before ++ after) = rw cut b.spaced in
        let sizes : All (λ e. s.tolerance <ℤ e.quantity) (before ++ after) = rw cut b.filled in
        let (left, right, across) = Pairwise-of_append (Gap s.tolerance) before after gaps in
        let (full, rest) = All-of_append _ before after sizes in
        rw (laws.inserts _ before after) (record {
          wide = b.wide;
          spaced =
              Pairwise-append (Gap s.tolerance) before _ left (high, right)
                (All-both _ _ before (All-map _ _ (λ e lt. omega arith) before low) across);
          filled = All-append _ before _ full (big, rest);
        })

    removed-IsBook :
        (before after : Levels)
        → before ++ after ≡ s.entries
        → Hits entry.price s.tolerance after
        → IsBook (record s { entries = take_out tree (true, (before, after)) s.entries })
    unfolding take_out
    removed-IsBook before [] cut hit = absurd hit
    removed-IsBook before (x ∷ after) cut hit =
        let gaps : Pairwise (Gap s.tolerance) (before ++ x ∷ after) = rw cut b.spaced in
        let sizes : All (λ e. s.tolerance <ℤ e.quantity) (before ++ x ∷ after) = rw cut b.filled in
        let (left, right, across) = Pairwise-of_append (Gap s.tolerance) before (x ∷ after) gaps in
        let (full, rest) = All-of_append _ before (x ∷ after) sizes in
        rw (laws.removes x before after) (record {
          wide = b.wide;
          spaced =
              Pairwise-append (Gap s.tolerance) before after left right.1
                (All-map _ _ (λ e both. both.1) before across);
          filled = All-append _ before after full rest.1;
        })

    placed-IsBook :
        (found : Bool × Cursor)
        → Found entry.price s found
        → s.tolerance <ℤ entry.quantity
        → IsBook (record s { entries = place tree entry found })
    unfolding place
    placed-IsBook (true, (before, after)) f big = stored-IsBook before after f.cut big
    placed-IsBook (false, (before, after)) f big =
        inserted-IsBook before after f.cut f.before (f.missed refl) big

    taken_out-IsBook :
        (found : Bool × Cursor)
        → Found entry.price s found
        → IsBook (record s { entries = take_out tree found s.entries })
    unfolding take_out
    taken_out-IsBook (true, (before, after)) f = removed-IsBook before after f.cut (f.hit refl)
    taken_out-IsBook (false, cursor) f = b

    insert_or_modify_entry-IsBook :
        s.tolerance <ℤ entry.quantity → IsBook (insert_or_modify_entry tree entry s).1
    unfolding insert_or_modify_entry
    insert_or_modify_entry-IsBook big = elim (Result-cases (find_entry tree entry.price s)) [
      | inl (e, h) ↦ rw (h, insert_or_modify_entry) b
      | inr (found, h) ↦
          rw (h, insert_or_modify_entry)
            (placed-IsBook found (find_entry-Found tree laws exact entry.price s found b h) big)
    ]

    remove_entry-IsBook : IsBook (remove_entry tree entry s).1
    unfolding remove_entry
    remove_entry-IsBook = elim (Result-cases (find_entry tree entry.price s)) [
      | inl (e, h) ↦ rw (h, remove_entry) b
      | inr (found, h) ↦
          rw (h, remove_entry)
            (taken_out-IsBook found (find_entry-Found tree laws exact entry.price s found b h))
    ]

    -- Whatever its outcome, an update keeps the levels apart and above the tolerance.
    pub update-IsBook : IsBook (update tree entry s).1
    unfolding update
    update-IsBook = elim (Bool-cases (ltb_ℤ s.tolerance entry.quantity)) [
      | inl big ↦ rw big (insert_or_modify_entry-IsBook (ltb_ℤ→lt s.tolerance entry.quantity big))
      | inr small ↦ rw small remove_entry-IsBook
    ]

  -- From a side whose levels are apart and above the tolerance, any updates, up to the first that
  -- fails, leave such a side.
  pub update_each-IsBook :
      (updates : List PricePointEntry) (s : PricePointEntries)
      → IsBook s
      → IsBook (update_each tree updates s).1
  unfolding update_each
  update_each-IsBook [] s b = b
  update_each-IsBook (entry ∷ updates) s b =
      bind_holds IsBook (update tree entry) (λ _. update_each tree updates) s
        (update-IsBook entry s b) (λ _ t kept. update_each-IsBook updates t kept)

-- A side as the book holds it: its levels are apart and above the tolerance.
pub record IsSide (side : Side) (tolerance : Amount) (s : PricePointEntries) : Type 0 where
  pub book : IsBook s
  pub same_side : s.side ≡ side
  pub same_tolerance : s.tolerance ≡ tolerance

pub clear-IsSide :
    {side : Side} {tolerance : Amount} {s : PricePointEntries}
    → IsSide side tolerance s
    → IsSide side tolerance (clear s)
unfolding clear
clear-IsSide i = record {
  book = record { wide = i.book.wide; spaced = tt; filled = tt };
  same_side = i.same_side;
  same_tolerance = i.same_tolerance;
}

update_same :
    (tree : RbTree) ⦃d : Decimal⦄ (entry : PricePointEntry) (s : PricePointEntries)
    → let t = (update tree entry s).1 in (t.side ≡ s.side) × (t.tolerance ≡ s.tolerance)
unfolding update insert_or_modify_entry remove_entry
update_same tree entry s = ground arith

module _ (tree : RbTree) ⦃d : Decimal⦄ (laws : IsTree tree) (exact : IsExact d) (side : Side)
    (tolerance : Amount) where
  pub update_each-IsSide :
      (updates : List PricePointEntry) (s : PricePointEntries)
      → IsSide side tolerance s
      → IsSide side tolerance (update_each tree updates s).1
  unfolding update_each
  update_each-IsSide [] s i = i
  update_each-IsSide (entry ∷ updates) s i =
      bind_holds (IsSide side tolerance) (update tree entry) (λ _. update_each tree updates) s
        (record {
          book = update-IsBook tree laws exact entry s i.book;
          same_side = (update_same tree entry s).0 ∙ i.same_side;
          same_tolerance = (update_same tree entry s).1 ∙ i.same_tolerance;
        })
        (λ _ t kept. update_each-IsSide updates t kept)
