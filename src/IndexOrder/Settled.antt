-- ===== src/IndexOrder/Settled.antt =====
-- index_order.rs: `update_order` and `cancel_updates` against the collateral that the updates hold.
use index_maker.Prelude.{◌≡◌, ◌⊎◌, true, false, none, some, Result, ok, err}
use index_maker.Prelude.Int.{◌+ℤ◌, ◌-ℤ◌, -ℤ◌}
use index_maker.Decimal.{Amount, zero_amount, Decimal, safe_add, safe_sub}
use index_maker.Bits.{Side, opposite_side}
use index_maker.IndexOrder.Matching.{match_cancel}
use index_maker.IndexOrder.Order.{is_some}
use index_maker.IndexOrder.Totals.{remaining_total, Near}
use index_maker.IndexOrder.Update.{
  IndexOrder, UpdateOutcome, push, reduce, flip, IndexOrderError, math_problem,
}

-- What `match_cancel` leaves alone.
record SameBooks (o o' : IndexOrder) : Type 0 where
  remaining : o'.remaining_collateral ≡ o.remaining_collateral
  side : o'.side ≡ o.side
  engaged_side : o'.engaged_side ≡ o.engaged_side

module _ ⦃d : Decimal⦄ where
  -- Why `update_order` has failed: `match_cancel` did, or the decimals refused a sum or a difference.
  pub data Stops (tolerance : Amount) (side : Side) (amount : Amount) (o : IndexOrder)
      : IndexOrderError → Type 0 where
    pushing :
        side ≡ o.side
        → safe_add o.remaining_collateral amount ≡ none
        → Stops tolerance side amount o math_problem
    matching :
        {e : IndexOrderError}
        → side ≡ opposite_side o.side
        → (match_cancel amount tolerance o).0 ≡ err e
        → Stops tolerance side amount o e
    reducing :
        side ≡ opposite_side o.side
        → (match_cancel amount tolerance o).0 ≡ ok none
        → safe_sub o.remaining_collateral amount ≡ none
        → Stops tolerance side amount o math_problem
    emptying :
        (left : Amount)
        → side ≡ opposite_side o.side
        → (match_cancel amount tolerance o).0 ≡ ok (some left)
        → safe_sub amount left ≡ none
        → Stops tolerance side amount o math_problem

  -- After `update_order` on a side with `amount`, by its outcome.
  abbrev pub Settles :
      Amount
      → Side
      → Amount
      → IndexOrder
      → Result IndexOrderError UpdateOutcome × IndexOrder
      → Type 0
  Settles tolerance side amount o (ok (push added), o') =
      (side ≡ o.side)
      × (o'.side ≡ o.side)
      × (added ≡ amount)
      × (o'.remaining_collateral ≡ o.remaining_collateral +ℤ amount)
      × (remaining_total o'.order_updates ≡ remaining_total o.order_updates +ℤ amount)
  Settles tolerance side amount o (ok (reduce removed remaining), o') =
      (side ≡ opposite_side o.side)
      × (o'.side ≡ o.side)
      × (o'.remaining_collateral ≡ remaining)
      × (((removed ≡ amount) × (remaining ≡ o.remaining_collateral -ℤ removed))
          ⊎ ((is_some o.engaged_side ≡ true) × (remaining ≡ zero_amount)))
      × Near tolerance (remaining_total o.order_updates)
          (remaining_total o'.order_updates +ℤ removed)
  Settles tolerance side amount o (ok (flip new left), o') =
      (side ≡ opposite_side o.side)
      × (is_some o.engaged_side ≡ false)
      × (new ≡ side)
      × (o'.side ≡ side)
      × (o'.remaining_collateral ≡ left)
      × (remaining_total o.order_updates +ℤ left +ℤ left
          ≡ remaining_total o'.order_updates +ℤ amount)
  Settles tolerance side amount o (err e, o') = Stops tolerance side amount o e
