-- ===== src/OrderBook.antt =====
-- libs/symm-core/src/market_data/order_book/order_book.rs: one side of a book, a red-black tree of
-- price levels. The tree is of a crate: it stands as the sequence of its elements in order, a
-- cursor as that sequence cut in two, and the crate's search and edits are a parameter, `RbTree`.
pub mod Spaced
pub mod Kept
pub mod Quoted
pub mod Refines
pub mod Liquidity
pub mod Depth
pub mod Sorted
mod Tests
pub mod Book
use mathlib.Core.Option
use index_maker.Prelude.{
  ◌==◌, if◌then◌else◌, ℕ, ◌+◌, ◌≡◌, Bool, true, false, Option, none, some, List, [], ◌∷◌, ◌++◌, map,
  All, reverse, Pairwise, Result, ok, err, Action, pure, ◌>>◌, ok_or, and_then,
}
use index_maker.Prelude.Int.{◌≤ℤ◌, ◌<ℤ◌, ltb_ℤ}
use index_maker.Decimal.{Amount, zero_amount, Decimal, safe_add, safe_sub}
use index_maker.Bits.{Side, buy, sell, PricePointEntry}

pub record PricePointBookEntry : Type 0 where
  pub price : Amount
  pub quantity : Amount

abbrev pub Levels : Type 0
Levels = List PricePointBookEntry

-- What stands before the cursor, and what stands at it and after it.
abbrev pub Cursor : Type 0
Cursor = Levels × Levels

-- `RBTree::lower_bound_mut` with an included bound, `CursorMut::insert_before`, `CursorMut::remove`.
pub record RbTree : Type 0 where
  pub lower_bound : Amount → Levels → Cursor
  pub insert_before : PricePointBookEntry → Cursor → Levels
  pub remove : Cursor → Levels

abbrev pub IsOrdered : Levels → Type 0
IsOrdered = Pairwise (λ x y. x.price ≤ℤ y.price)

-- What the crate documents of them on an ordered tree.
pub record IsTree (tree : RbTree) : Type 0 where
  pub cuts : (bound : Amount) (l : Levels) → let c = tree.lower_bound bound l in c.0 ++ c.1 ≡ l
  pub below :
      (bound : Amount) (l : Levels)
      → IsOrdered l
      → All (λ e. e.price <ℤ bound) (tree.lower_bound bound l).0
  pub from :
      (bound : Amount) (l : Levels)
      → IsOrdered l
      → All (λ e. bound ≤ℤ e.price) (tree.lower_bound bound l).1
  pub inserts :
      (e : PricePointBookEntry) (before after : Levels)
      → tree.insert_before e (before, after) ≡ before ++ e ∷ after
  pub removes :
      (e : PricePointBookEntry) (before after : Levels)
      → tree.remove (before, e ∷ after) ≡ before ++ after

pub record PricePointEntries : Type 0 where
  pub side : Side
  pub tolerance : Amount
  pub entries : Levels

pub record PricePointEntriesOps : Type 0 where
  pub side : Side
  pub bound : Amount

pub data BookError : Type 0 where
  math_overflow no_sequence_number : BookError

abbrev pub new_entries : Side → Amount → PricePointEntries
new_entries side tolerance = record { side = side; tolerance = tolerance; entries = [] }

-- The levels in the order that `begin_ops` and `move_next` visit them.
unfoldable pub walk : Side → Levels → Levels
walk buy l = reverse l
walk sell l = l

abbrev pub past : Side → Amount → Amount → Bool
past buy bound price = ltb_ℤ price bound
past sell bound price = ltb_ℤ bound price

unfoldable pub is_finished : PricePointEntriesOps → Amount → Bool
is_finished ops price = past ops.side ops.bound price

-- `cursor.get()` and the test of its price.
unfoldable pub is_match : Amount → Levels → Bool
is_match price_upper [] = false
is_match price_upper (e ∷ l) = ltb_ℤ e.price price_upper

abbrev pub store_quantity : Amount → Levels → Levels
store_quantity quantity [] = []
store_quantity quantity (e ∷ l) = record e { quantity = quantity } ∷ l

unfoldable pub clear : PricePointEntries → PricePointEntries
clear s = record s { entries = [] }

module _ (tree : RbTree) where
  -- The two arms of `insert_or_modify_entry`.
  unfoldable pub place : PricePointEntry → Bool × Cursor → Levels
  place entry (true, (before, after)) = before ++ store_quantity entry.quantity after
  place entry (false, cursor) =
      tree.insert_before (record { price = entry.price; quantity = entry.quantity }) cursor

  unfoldable pub take_out : Bool × Cursor → Levels → Levels
  take_out (true, cursor) l = tree.remove cursor
  take_out (false, cursor) l = l

  module _ ⦃d : Decimal⦄ where
    unfoldable pub find_entry : Amount → PricePointEntries → Result BookError (Bool × Cursor)
    find_entry price s = and_then (ok_or (safe_sub price s.tolerance) math_overflow) λ price_lower.
        and_then (ok_or (safe_add price s.tolerance) math_overflow) λ price_upper.
          let cursor = tree.lower_bound price_lower s.entries in
          ok (is_match price_upper cursor.1, cursor)

    unfoldable pub insert_or_modify_entry :
        PricePointEntry → Action PricePointEntries BookError (Unit {0})
    insert_or_modify_entry entry s = elim (find_entry entry.price s) [
      | ok found ↦ (ok tt, record s { entries = place entry found })
      | err e ↦ (err e, s)
    ]

    unfoldable pub remove_entry : PricePointEntry → Action PricePointEntries BookError (Unit {0})
    remove_entry entry s = elim (find_entry entry.price s) [
      | ok found ↦ (ok tt, record s { entries = take_out found s.entries })
      | err e ↦ (err e, s)
    ]

    unfoldable pub update : PricePointEntry → Action PricePointEntries BookError (Unit {0})
    update entry s =
        if ltb_ℤ s.tolerance entry.quantity
        then insert_or_modify_entry entry s
        else remove_entry entry s

    -- `for entry in updates { entries.update(entry)? }`
    unfoldable pub update_each :
        List PricePointEntry → Action PricePointEntries BookError (Unit {0})
    update_each [] = pure tt
    update_each (entry ∷ updates) = update entry >> update_each updates

-- The answers of `get_liquidity_levels` and `get_top_level`.
abbrev pub level_of : Option Amount × Amount → Option PricePointEntry
level_of (some price, liquidity) = some (record { price = price; quantity = liquidity })
level_of (none, liquidity) = none

abbrev pub first_level : Levels → Option PricePointEntry
first_level [] = none
first_level (e ∷ l) = some (record { price = e.price; quantity = e.quantity })

module _ ⦃d : Decimal⦄ where
  abbrev pub bound_of : Side → Amount → Amount → Option Amount
  bound_of buy tolerance price = safe_sub price tolerance
  bound_of sell tolerance price = safe_add price tolerance

  unfoldable pub try_new : Side → Amount → Amount → Option PricePointEntriesOps
  try_new side tolerance price =
      Option.map (λ bound. record { side = side; bound = bound }) (bound_of side tolerance price)

  -- The loop of `get_liquidity`.
  unfoldable pub sum_until : PricePointEntriesOps → Amount → Levels → Result BookError Amount
  sum_until ops liquidity [] = ok liquidity
  sum_until ops liquidity (e ∷ l) =
      if is_finished ops e.price
      then ok liquidity
      else and_then (ok_or (safe_add liquidity e.quantity) math_overflow)
          (λ more. sum_until ops more l)

  unfoldable pub get_liquidity : PricePointEntries → Amount → Result BookError Amount
  get_liquidity s price =
      and_then (ok_or (try_new s.side s.tolerance price) math_overflow)
        λ ops. sum_until ops zero_amount (walk s.side s.entries)

  -- The loop of `get_liquidity_levels`.
  unfoldable pub sum_levels :
      ℕ → ℕ → Amount → Option Amount → Levels → Result BookError (Option Amount × Amount)
  sum_levels max_levels num_levels liquidity price_limit [] = ok (price_limit, liquidity)
  sum_levels max_levels num_levels liquidity price_limit (e ∷ l) =
      if max_levels == num_levels
      then ok (price_limit, liquidity)
      else and_then (ok_or (safe_add liquidity e.quantity) math_overflow)
          λ more. sum_levels max_levels (num_levels + 1) more (some e.price) l

  unfoldable pub get_liquidity_levels :
      PricePointEntries → ℕ → Result BookError (Option PricePointEntry)
  get_liquidity_levels s max_levels =
      and_then (ok_or (try_new s.side s.tolerance zero_amount) math_overflow) λ ops.
        and_then (sum_levels max_levels 0 zero_amount none (walk s.side s.entries))
          λ r. ok (level_of r)

  unfoldable pub get_top_level : PricePointEntries → Result BookError (Option PricePointEntry)
  get_top_level s =
      and_then (ok_or (try_new s.side s.tolerance zero_amount) math_overflow)
        λ ops. ok (first_level (walk s.side s.entries))
