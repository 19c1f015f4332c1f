-- ===== src/OrderBook/Tests.antt =====
-- Tests of libs/symm-core/src/market_data/order_book/order_book.rs on small books, and the theorems at
-- concrete inputs.
use index_maker.Prelude.{ℕ, ◌+◌, ◌<◌, ◌≡◌, refl, ◌⊎◌, inl, inr, List, [], ◌∷◌, arith, take, ok}
use index_maker.Prelude.Int.{pos, ◌+ℤ◌, ◌-ℤ◌, int_laws}
use index_maker.Decimal.{Decimal, bounded, fixed_scale, fixed_scale-IsExact}
use index_maker.Bits.{buy, PricePointEntry}
use index_maker.OrderBook.{
  PricePointBookEntry, PricePointEntries, walk, is_finished, is_match, place, take_out, find_entry,
  insert_or_modify_entry, remove_entry, update, update_each, try_new, sum_until, get_liquidity,
  get_liquidity_levels,
}
use index_maker.OrderBook.Depth.{together, get_liquidity_levels-Answers}
use index_maker.OrderBook.Liquidity.{
  edge, quantity_within, levels_within, Unbounded, Refuses, Answers, get_liquidity-Answers,
}
use index_maker.OrderBook.Quoted.{level_at, quoted, Apart}
use index_maker.OrderBook.Refines.{update_each-quotes}
use index_maker.OrderBook.Sorted.{cut, sorted_list, sorted_list-IsTree}
use index_maker.OrderBook.Spaced.{IsBook, IsBook-IsOrdered}

instance checked_ops : Decimal
checked_ops = fixed_scale

abbrev quote : ℕ → ℕ → PricePointEntry
quote price quantity = record { price = pos price; quantity = pos quantity }

abbrev level : ℕ → ℕ → PricePointBookEntry
level price quantity = record { price = pos price; quantity = pos quantity }

abbrev bids : PricePointEntries
bids = record {
  side = buy;
  tolerance = pos 1;
  entries = level 90 7 ∷ level 95 4 ∷ level 100 9 ∷ [];
}

abbrev changes : List PricePointEntry
changes = quote 95 6 ∷ quote 100 0 ∷ quote 110 3 ∷ []

changed :
    (update_each sorted_list changes bids).1.entries ≡ level 90 7 ∷ level 95 6 ∷ level 110 3 ∷ []
unfolding checked_ops fixed_scale bounded ◌+ℤ◌ ◌-ℤ◌ update_each update insert_or_modify_entry
    remove_entry find_entry is_match place take_out sorted_list cut
changed = refl

liquid : get_liquidity bids (pos 95) ≡ ok (pos 13)
unfolding checked_ops fixed_scale bounded ◌+ℤ◌ ◌-ℤ◌ get_liquidity try_new sum_until is_finished walk
liquid = refl

-- With a level at 99 and one at 100, an update of the price 100 changes the level at 99.
hits_neighbour :
    (update sorted_list
      (quote 100 5)
      (record bids { entries = level 99 7 ∷ level 100 9 ∷ [] })).1.entries
    ≡ level 99 5 ∷ level 100 9 ∷ []
unfolding checked_ops fixed_scale bounded ◌+ℤ◌ ◌-ℤ◌ update insert_or_modify_entry find_entry
    is_match place sorted_list cut
hits_neighbour = refl

bids-IsBook : IsBook bids
unfolding ◌+ℤ◌
bids-IsBook = record { wide = omega arith; spaced = omega arith; filled = omega arith }

below : {a b : ℕ} → a + 1 < b → Apart (pos 1) (pos a) (pos b)
below h = inr (inl (omega int_laws))

above : {a b : ℕ} → b + 1 < a → Apart (pos 1) (pos a) (pos b)
above h = inr (inr (omega int_laws))

update_each-quotes_example :
    (t : PricePointEntries) × (update_each sorted_list changes bids ≡ (ok tt, t))
    × (level_at (pos 100) t.entries
        ≡ quoted (pos 1) (pos 100) changes (level_at (pos 100) bids.entries))
    × IsBook t
unfolding checked_ops fixed_scale bounded ◌+ℤ◌ ◌-ℤ◌
update_each-quotes_example =
    update_each-quotes sorted_list sorted_list-IsTree fixed_scale-IsExact (pos 100) changes bids
      bids-IsBook
      (
        ((pos 94, refl), (pos 96, refl)),
        (((pos 99, refl), (pos 101, refl)), (((pos 109, refl), (pos 111, refl)), tt)),
      )
      ((below (omega arith), (below (omega arith), tt)), ((below (omega arith), tt), (tt, tt)))
      (
        (below (omega arith), (inl refl, (above (omega arith), tt))),
        (
          (below (omega arith), (below (omega arith), (inl refl, tt))),
          ((below (omega arith), (below (omega arith), (below (omega arith), tt))), tt),
        ),
      )

get_liquidity-Answers_example :
    let bound = edge buy (pos 1) (pos 95) in
    Answers
      (quantity_within buy bound bids.entries)
      (Unbounded checked_ops buy (pos 1) (pos 95)
        ⊎ Refuses checked_ops (pos 0) (levels_within buy bound (walk buy bids.entries)))
      (get_liquidity bids (pos 95))
unfolding checked_ops
get_liquidity-Answers_example =
    get_liquidity-Answers fixed_scale-IsExact bids (pos 95) (IsBook-IsOrdered bids-IsBook)

get_liquidity_levels-Answers_example :
    let best = take 2 (walk buy bids.entries) in
    Answers
      (together best)
      (Unbounded checked_ops buy (pos 1) (pos 0) ⊎ Refuses checked_ops (pos 0) best)
      (get_liquidity_levels bids 2)
unfolding checked_ops
get_liquidity_levels-Answers_example = get_liquidity_levels-Answers fixed_scale-IsExact bids 2
