-- ===== src/OrderBook/Refines.antt =====
-- libs/symm-core/src/market_data/order_book/order_book.rs: that a run of updates leaves the
-- quantities that the updates quote.
use index_maker.Prelude.{
  if◌then◌else◌, Bool-cases, ◌≡◌, refl, ap, ◌∙◌, inl, inr, Bool, true, false, none, some, List, [],
  ◌∷◌, ◌++◌, last, All, All-map, Pairwise, All-append, All-of_append, Pairwise-of_append, All-both,
  ok, bind_ok,
}
use index_maker.Prelude.Int.{ltb_ℤ, eqb_ℤ}
use index_maker.Decimal.{Amount, Decimal, IsExact, safe_add, safe_sub}
use index_maker.Bits.{PricePointEntry}
use index_maker.OrderBook.{
  PricePointBookEntry, Levels, Cursor, RbTree, IsTree, PricePointEntries, is_match, place, take_out,
  find_entry, insert_or_modify_entry, remove_entry, update, update_each,
}
use index_maker.OrderBook.Kept.{update-IsBook}
use index_maker.OrderBook.Quoted.{
  level_at, quote_after, quoted, Apart, hit_eq, stored_at, inserted_at, removed_at, missed_at,
}
use index_maker.OrderBook.Spaced.{Gap, IsBook, Found, find_entry-Found}

-- The bounds of the search round a price do not overflow.
abbrev pub Fits : ⦃d : Decimal⦄ → Amount → Amount → Type 0
Fits tolerance price =
    ((a : Amount) × (safe_sub price tolerance ≡ some a))
    × ((a : Amount) × (safe_add price tolerance ≡ some a))

abbrev pub AllApart : PricePointEntries → Amount → Type 0
AllApart s price = All (λ e. Apart s.tolerance e.price price) s.entries

module _ (tree : RbTree) ⦃d : Decimal⦄ (laws : IsTree tree) (exact : IsExact d) where
  find_entry_total :
      (price : Amount) (s : PricePointEntries)
      → Fits s.tolerance price
      → (found : Bool × Cursor) × (find_entry tree price s ≡ ok found)
  unfolding find_entry
  find_entry_total price s ((lower, low), (upper, up)) =
      let cursor = tree.lower_bound lower s.entries in
      ((is_match upper cursor.1, cursor), rw (low, up) refl)

  module _ (entry : PricePointEntry) (s : PricePointEntries) (b : IsBook s) where
    module _ (p : Amount) (apart : AllApart s entry.price) where
      head-Apart :
          (before : Levels) (x : PricePointBookEntry) (after : Levels)
          → before ++ x ∷ after ≡ s.entries
          → Apart s.tolerance x.price entry.price
      head-Apart before x after cut =
          (All-of_append (λ e. Apart s.tolerance e.price entry.price) before (x ∷ after)
            (rw cut apart)).1.0

      place_at :
          (found : Bool × Cursor)
          → Found entry.price s found
          → level_at p (place tree entry found)
            ≡ (if eqb_ℤ entry.price p then some entry.quantity else level_at p s.entries)
      unfolding place
      place_at (true, (before, [])) f = absurd (f.hit refl)
      place_at (true, (before, x ∷ after)) f = rw (← f.cut) (
          stored_at p entry s b before f.before x after
            (hit_eq p entry s b x (head-Apart before x after f.cut) f.after.0 (f.hit refl)))
      place_at (false, (before, after)) f =
          rw (laws.inserts _ before after, ← f.cut) (inserted_at p entry s b before f.before after)

      take_out_at :
          (found : Bool × Cursor)
          → Found entry.price s found
          → level_at p (take_out tree found s.entries)
            ≡ (if eqb_ℤ entry.price p then none else level_at p s.entries)
      unfolding take_out
      take_out_at (true, (before, [])) f = absurd (f.hit refl)
      take_out_at (true, (before, x ∷ after)) f =
          rw (laws.removes x before after, ← f.cut)
            (removed_at p entry s b before f.before x after
              (hit_eq p entry s b x (head-Apart before x after f.cut) f.after.0 (f.hit refl))
              (Pairwise-of_append (Gap s.tolerance) before (x ∷ after) (rw f.cut b.spaced)).1.0)
      take_out_at (false, (before, after)) f =
          rw (← f.cut) (missed_at p entry s b before f.before after (f.missed refl))

    place_prices :
        (Q : Amount → Type 0) (found : Bool × Cursor)
        → found.1.0 ++ found.1.1 ≡ s.entries
        → All (λ e. Q e.price) s.entries
        → Q entry.price
        → All (λ e. Q e.price) (place tree entry found)
    unfolding place
    place_prices Q (true, (before, [])) cut h q = rw cut h
    place_prices Q (true, (before, x ∷ after)) cut h q =
        let (left, right) = All-of_append _ before (x ∷ after) (rw cut h) in
        All-append _ before _ left right
    place_prices Q (false, (before, after)) cut h q =
        let (left, right) = All-of_append _ before after (rw cut h) in
        rw (laws.inserts _ before after) (All-append _ before _ left (q, right))

    take_out_prices :
        (Q : Amount → Type 0) (found : Bool × Cursor)
        → Found entry.price s found
        → All (λ e. Q e.price) s.entries
        → All (λ e. Q e.price) (take_out tree found s.entries)
    unfolding take_out
    take_out_prices Q (true, (before, [])) f h = absurd (f.hit refl)
    take_out_prices Q (true, (before, x ∷ after)) f h =
        let (left, right) = All-of_append _ before (x ∷ after) (rw f.cut h) in
        rw (laws.removes x before after) (All-append _ before after left right.1)
    take_out_prices Q (false, cursor) f h = h

    -- What an update that succeeds does: to the quantity at every price, if the prices are apart, and
    -- to the prices of the levels.
    pub record Updates (t : PricePointEntries) : Type 1 where
      pub tolerance : t.tolerance ≡ s.tolerance
      pub quotes :
          (p : Amount)
          → AllApart s entry.price
          → level_at p t.entries ≡ quote_after s.tolerance p entry (level_at p s.entries)
      pub prices :
          (Q : Amount → Type 0)
          → All (λ e. Q e.price) s.entries
          → Q entry.price
          → All (λ e. Q e.price) t.entries

    insert_or_modify_entry-Updates :
        (found : Bool × Cursor)
        → find_entry tree entry.price s ≡ ok found
        → ltb_ℤ s.tolerance entry.quantity ≡ true
        → Updates (record s { entries = place tree entry found })
    insert_or_modify_entry-Updates found h big =
        let f = find_entry-Found tree laws exact entry.price s found b h in
        record {
          tolerance = refl;
          quotes = λ p apart. rw big (place_at p apart found f);
          prices = λ Q olds new. place_prices Q found f.cut olds new;
        }

    remove_entry-Updates :
        (found : Bool × Cursor)
        → find_entry tree entry.price s ≡ ok found
        → ltb_ℤ s.tolerance entry.quantity ≡ false
        → Updates (record s { entries = take_out tree found s.entries })
    remove_entry-Updates found h small =
        let f = find_entry-Found tree laws exact entry.price s found b h in
        record {
          tolerance = refl;
          quotes = λ p apart. rw small (take_out_at p apart found f);
          prices = λ Q olds new. take_out_prices Q found f olds;
        }

    insert_or_modify_runs :
        (found : Bool × Cursor)
        → find_entry tree entry.price s ≡ ok found
        → insert_or_modify_entry tree entry s
          ≡ (ok tt, record s { entries = place tree entry found })
    unfolding insert_or_modify_entry
    insert_or_modify_runs found h = rw (h, insert_or_modify_entry) refl

    remove_runs :
        (found : Bool × Cursor)
        → find_entry tree entry.price s ≡ ok found
        → remove_entry tree entry s ≡ (ok tt, record s { entries = take_out tree found s.entries })
    unfolding remove_entry
    remove_runs found h = rw (h, remove_entry) refl

    -- An update whose bounds do not overflow succeeds and has its effect.
    pub update-Updates :
        Fits s.tolerance entry.price
        → (t : PricePointEntries) × (update tree entry s ≡ (ok tt, t)) × Updates t
    unfolding update
    update-Updates fits =
        let (found, h) = find_entry_total entry.price s fits in
        elim (Bool-cases (ltb_ℤ s.tolerance entry.quantity)) [
          | inl big ↦ (
            record s { entries = place tree entry found },
            rw big (insert_or_modify_runs found h),
            insert_or_modify_entry-Updates found h big,
          )
          | inr small ↦ (
            record s { entries = take_out tree found s.entries },
            rw small (remove_runs found h),
            remove_entry-Updates found h small,
          )
        ]

  -- With exact arithmetic and a tree that does as documented, on a side with a positive tolerance whose
  -- levels are at least that far apart
  -- and hold quantities above it: updates at prices that are equal or further apart than the tolerance,
  -- from each other and from the levels, succeed if their bounds do not overflow. They leave at every
  -- price that they name the quantity that is quoted last there if that is above the tolerance, and no
  -- level otherwise, and at every other price what was there.
  pub update_each-quotes :
      (p : Amount) (updates : List PricePointEntry) (s : PricePointEntries)
      → IsBook s
      → All (λ u. Fits s.tolerance u.price) updates
      → Pairwise (λ u v. Apart s.tolerance u.price v.price) updates
      → All (λ u. AllApart s u.price) updates
      → (t : PricePointEntries) × (update_each tree updates s ≡ (ok tt, t))
        × (level_at p t.entries ≡ quoted s.tolerance p updates (level_at p s.entries))
        × IsBook t
  unfolding update_each
  update_each-quotes p [] s b fits mutual_apart apart = (s, refl, refl, b)
  update_each-quotes p (entry ∷ updates) s b fits mutual_apart apart =
      let (t, h, u) = update-Updates entry s b fits.0 in
      let kept : IsBook t = rw (← ap (λ r. r.1) h) (update-IsBook tree laws exact entry s b) in
      let (r, run, quotes, last) =
        update_each-quotes p updates t kept (rw u.tolerance fits.1) (rw u.tolerance mutual_apart.1)
          (All-map _ _
            (λ v both. rw u.tolerance (u.prices (λ q. Apart s.tolerance q v.price) both.0 both.1))
            updates (All-both _ _ updates apart.1 mutual_apart.0)) in
      (
        r,
        bind_ok (update tree entry) (λ _. update_each tree updates) s h ∙ run,
        rw (quotes, u.tolerance, u.quotes p apart.0) refl,
        last,
      )
