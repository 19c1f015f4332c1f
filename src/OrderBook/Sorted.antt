-- ===== src/OrderBook/Sorted.antt =====
-- An ordered sequence in the place of the tree of libs/symm-core/src/market_data/order_book/order_book.rs,
-- as a concrete one for tests.
use index_maker.Prelude.{
  if◌then◌else◌, Bool-cases, ◌≡◌, refl, inl, inr, [], ◌∷◌, ◌++◌, arith, All, All-map,
}
use index_maker.Prelude.Int.{◌≤ℤ◌, ◌<ℤ◌, ltb_ℤ, ltb_ℤ→lt, ltb_ℤ→ge}
use index_maker.Decimal.{Amount}
use index_maker.OrderBook.{Levels, Cursor, RbTree, IsOrdered, IsTree}

unfoldable pub cut : Amount → Levels → Cursor
cut bound [] = ([], [])
cut bound (e ∷ l) =
    let (before, after) = cut bound l in
    if ltb_ℤ e.price bound then (e ∷ before, after) else ([], e ∷ l)

abbrev remove_at : Cursor → Levels
remove_at (before, []) = before
remove_at (before, e ∷ after) = before ++ after

unfoldable pub sorted_list : RbTree
sorted_list = record {
  lower_bound = cut;
  insert_before = λ e c. c.0 ++ e ∷ c.1;
  remove = λ c. remove_at c;
}

cut-append : (bound : Amount) (l : Levels) → (cut bound l).0 ++ (cut bound l).1 ≡ l
unfolding cut
cut-append bound [] = refl
cut-append bound (e ∷ l) = elim (Bool-cases (ltb_ℤ e.price bound)) [
  | inl low ↦ rw (low, cut-append bound l) refl
  | inr high ↦ rw high refl
]

cut-below : (bound : Amount) (l : Levels) → All (λ e. e.price <ℤ bound) (cut bound l).0
unfolding cut
cut-below bound [] = tt
cut-below bound (e ∷ l) = elim (Bool-cases (ltb_ℤ e.price bound)) [
  | inl low ↦ rw low (ltb_ℤ→lt e.price bound low, cut-below bound l)
  | inr high ↦ rw high tt
]

cut-from : (bound : Amount) (l : Levels) → IsOrdered l → All (λ e. bound ≤ℤ e.price) (cut bound l).1
unfolding cut
cut-from bound [] o = tt
cut-from bound (e ∷ l) o = elim (Bool-cases (ltb_ℤ e.price bound)) [
  | inl low ↦ rw low (cut-from bound l o.1)
  | inr high ↦
      let le : bound ≤ℤ e.price = ltb_ℤ→ge e.price bound high in
      rw high (le, All-map _ _ (λ f more. omega arith) l o.0)
]

pub sorted_list-IsTree : IsTree sorted_list
unfolding sorted_list
sorted_list-IsTree = record {
  cuts = cut-append;
  below = λ bound l o. cut-below bound l;
  from = cut-from;
  inserts = λ e before after. refl;
  removes = λ e before after. refl;
}
