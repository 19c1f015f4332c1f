-- ===== src/IndexOrder/Tests.antt =====
-- index_order.rs at concrete inputs, and the theorems' instances.
use index_maker.Prelude.{◌≡◌, refl, none, [], ◌∷◌}
use index_maker.Prelude.Int.{pos, ◌+ℤ◌, ◌-ℤ◌, int_laws, -ℤ◌}
use index_maker.Decimal.{Decimal, bounded, fixed_scale, fixed_scale-IsExact}
use index_maker.Bits.{buy}
use index_maker.IndexOrder.Cancelled.{Cancels, match_cancel-Cancels}
use index_maker.IndexOrder.Engaged.{Engages, solver_engage-Engages}
use index_maker.IndexOrder.Matching.{
  engage_whole, commit_engage, match_cancel, engage_update, engage_loop, match_engage,
}
use index_maker.IndexOrder.Order.{
  find_order_update, book_engaged, book_matched, solver_engage, cancel_named, solver_cancel,
}
use index_maker.IndexOrder.Totals.{remaining_total}
use index_maker.IndexOrder.Update.{IndexOrder, new_update, new_index_order}
use index_maker.IndexOrder.Withdrawn.{solver_cancel_withdraws}

instance checked_ops : Decimal
checked_ops = fixed_scale

-- Two updates, of 1000 and of 500.
abbrev two_updates : IndexOrder
unfolding new_index_order
two_updates = record (new_index_order 1 5 (73 ∷ 49 ∷ []) buy (pos 0)) {
  remaining_collateral = pos 1500;
  order_updates = new_update 1 buy (pos 1000) (pos 1) ∷ new_update 2 buy (pos 500) (pos 2) ∷ [];
}

engage_runs : (solver_engage (pos 1200) (pos 1) two_updates).1.remaining_collateral ≡ pos 300
unfolding checked_ops fixed_scale bounded ◌+ℤ◌ ◌-ℤ◌ -ℤ◌ new_index_order solver_engage match_engage
    engage_loop engage_update engage_whole commit_engage book_matched book_engaged
engage_runs = refl

solver_engage-Engages_example :
    Engages (pos 1) (pos 1200) two_updates (solver_engage (pos 1200) (pos 1) two_updates)
unfolding checked_ops
solver_engage-Engages_example =
    solver_engage-Engages fixed_scale-IsExact (pos 1200) (pos 1) two_updates (omega int_laws)

match_cancel-Cancels_example :
    Cancels (pos 1) (pos 700) two_updates (match_cancel (pos 700) (pos 1) two_updates)
unfolding checked_ops
match_cancel-Cancels_example =
    match_cancel-Cancels fixed_scale-IsExact (pos 1) (omega int_laws) (pos 700) two_updates

abbrev second_withdrawn : IndexOrder
unfolding new_index_order
second_withdrawn = record two_updates {
  remaining_collateral = pos 1000;
  order_updates = new_update 1 buy (pos 1000) (pos 1) ∷ [];
  closed_updates = new_update 2 buy (pos 500) (pos 2) ∷ [];
}

solver_cancel_withdraws_example :
    (second_withdrawn.remaining_collateral +ℤ remaining_total two_updates.order_updates
      ≡ two_updates.remaining_collateral +ℤ remaining_total second_withdrawn.order_updates)
    × (find_order_update 2 second_withdrawn ≡ none)
unfolding checked_ops fixed_scale bounded ◌+ℤ◌ ◌-ℤ◌ new_index_order solver_cancel cancel_named
solver_cancel_withdraws_example =
    solver_cancel_withdraws fixed_scale-IsExact 2 two_updates second_withdrawn refl
