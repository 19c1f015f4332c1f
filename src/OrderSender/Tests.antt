-- ===== src/OrderSender/Tests.antt =====
-- position.rs and order_tracker.rs at concrete inputs, and the theorems' instances.
use index_maker.Prelude.{ℕ, ◌≡◌, refl, true, false, some, List, [], ◌∷◌}
use index_maker.Prelude.Int.{pos, ◌+ℤ◌, ◌-ℤ◌, int_laws}
use index_maker.Decimal.{Amount, Decimal, bounded, fixed_scale, fixed_scale-IsExact}
use index_maker.Bits.{Symbol, Side, buy, sell, SingleOrder}
use index_maker.OrderSender.Position.{
  Lot, Position, Fill, opened_lot, updated_lot, create_lot, match_lots,
}
use index_maker.OrderSender.Position.Balance.{total_open, IsBalanced, Created, create_lot-Created}
use index_maker.OrderSender.Position.Conservation.{Matched, match_lots-Matched}
use index_maker.OrderSender.Position.Defect.{match_lots-loses_rest, match_lots-keeps_closed}
use index_maker.OrderSender.Tracker.{
  Report, ConnectorNotification, fills, new_order_ack, cancels, Tracker, handle_order_notification,
  new_order,
}
use index_maker.OrderSender.Tracker.Accounts.{notified-IsAccounted}
use index_maker.OrderSender.Tracker.Life.{
  Leaves, handle_order_notification-Leaves, notified, Refused, new_order_once,
}
use index_maker.OrderSender.Tracker.Remaining.{filled_for, IsAccounted}

instance checked_ops : Decimal
checked_ops = fixed_scale

-- "ETH"
abbrev eth : Symbol
eth = 69 ∷ 84 ∷ 72 ∷ []

abbrev fill_of : ℕ → Side → Amount → Fill
fill_of order_id side quantity = record {
  order_id = order_id;
  batch_order_id = 1;
  lot_id = order_id;
  side = side;
  price_filled = pos 50;
  quantity_filled = quantity;
  fee_paid = pos 1;
  fill_timestamp = pos order_id;
}

abbrev lot_of : ℕ → Amount → Lot
lot_of order_id quantity = opened_lot (fill_of order_id buy quantity)

abbrev bought : List Lot → Amount → Position
bought lots balance = record {
  symbol = eth;
  side = buy;
  balance = balance;
  created_timestamp = some (pos 1);
  last_update_timestamp = some (pos 1);
  open_lots = lots;
  closed_lots = [];
}

-- Two lots, of 10 and of 5.
abbrev two_lots : Position
two_lots = bought (lot_of 1 (pos 10) ∷ lot_of 2 (pos 5) ∷ []) (pos 15)

two_lots-IsBalanced : IsBalanced two_lots
unfolding total_open ◌+ℤ◌
two_lots-IsBalanced = refl

create_lot-Created_example :
    Created two_lots (fill_of 3 buy (pos 4)) (create_lot (fill_of 3 buy (pos 4)) two_lots)
unfolding checked_ops
create_lot-Created_example =
    create_lot-Created fixed_scale-IsExact (fill_of 3 buy (pos 4)) two_lots two_lots-IsBalanced

match_lots-Matched_example :
    Matched
      (fill_of 3 sell (pos 12))
      (pos 1)
      two_lots
      (match_lots (fill_of 3 sell (pos 12)) (pos 1) two_lots)
unfolding checked_ops
match_lots-Matched_example =
    match_lots-Matched fixed_scale-IsExact (fill_of 3 sell (pos 12)) (pos 1) two_lots refl
      (omega int_laws) (omega int_laws)

-- 4 of the first lot are sold, and the second lot disappears.
match_lots-loses_rest_example :
    let p' = (match_lots (fill_of 3 sell (pos 4)) (pos 1) two_lots).1 in
    (p'.open_lots ≡ updated_lot (fill_of 3 sell (pos 4)) (lot_of 1 (pos 10)) (pos 4) (pos 6) ∷ [])
    × (p'.balance ≡ total_open p'.open_lots +ℤ total_open (lot_of 2 (pos 5) ∷ []))
unfolding checked_ops fixed_scale bounded ◌+ℤ◌ ◌-ℤ◌
match_lots-loses_rest_example =
    match_lots-loses_rest (fill_of 3 sell (pos 4)) (pos 1) two_lots (lot_of 1 (pos 10))
      (lot_of 2 (pos 5) ∷ []) refl fixed_scale-IsExact (pos 6) (pos 11) refl refl (omega int_laws)
      two_lots-IsBalanced

match_lots-keeps_closed_example :
    let p' = (match_lots (fill_of 3 sell (pos 10)) (pos 1) two_lots).1 in
    (p'.open_lots ≡ lot_of 1 (pos 10) ∷ [])
    × (p'.closed_lots
        ≡ updated_lot (fill_of 3 sell (pos 10)) (lot_of 1 (pos 10)) (pos 10) (pos 0) ∷ [])
unfolding checked_ops fixed_scale bounded ◌+ℤ◌ ◌-ℤ◌
match_lots-keeps_closed_example =
    match_lots-keeps_closed (fill_of 3 sell (pos 10)) (pos 1) two_lots (lot_of 1 (pos 10))
      (lot_of 2 (pos 5) ∷ []) refl (pos 0) (pos 5) refl refl (omega int_laws) (omega int_laws)

-- An order of 10 that a session has taken, and what the exchange says of it.
abbrev idle : Tracker
idle = record { session = some 1; orders = []; tolerance = pos 1; published = [] }

abbrev single : SingleOrder
single = record {
  order_id = 3;
  batch_order_id = 1;
  symbol = eth;
  side = buy;
  price = pos 50;
  quantity = pos 10;
  created_timestamp = pos 0;
}

abbrev report_of : Amount → Report
report_of quantity = record {
  order_id = 3;
  symbol = eth;
  side = buy;
  price = pos 50;
  quantity = quantity;
  timestamp = pos 9;
}

abbrev story : List ConnectorNotification
story =
    new_order_ack (report_of (pos 10))
    ∷ fills (report_of (pos 4)) 1 (pos 0)
    ∷ cancels (report_of (pos 6))
    ∷ []

abbrev taken : Tracker
unfolding new_order
taken = (new_order (λ s o. true) single idle).1

handle_order_notification-Leaves_example :
    Leaves taken (handle_order_notification (new_order_ack (report_of (pos 10))) taken)
handle_order_notification-Leaves_example =
    handle_order_notification-Leaves (new_order_ack (report_of (pos 10))) taken

new_order_once_example :
    let later = notified story (new_order (λ s o. false) single idle).1 in
    Refused later (new_order (λ s o. true) single later)
new_order_once_example =
    new_order_once (λ s o. false) (λ s o. true) single single story idle 1 refl refl

-- 4 of 10 are filled and 6 remain.
abbrev story_so_far : List ConnectorNotification
story_so_far = new_order_ack (report_of (pos 10)) ∷ fills (report_of (pos 4)) 1 (pos 0) ∷ []

notified-IsAccounted_example : IsAccounted 3 (pos 10) (notified story_so_far taken)
unfolding checked_ops new_order filled_for
notified-IsAccounted_example =
    notified-IsAccounted fixed_scale-IsExact 3 (pos 10) story_so_far taken
      ((λ same. refl), (tt, tt)) refl
