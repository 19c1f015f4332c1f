-- ===== src/OrderSender/Inventory.antt =====
-- libs/symm-core/src/order_sender/inventory_manager.rs: fills become lots of the positions. What the
-- observer is given is the state's `published` log.
pub mod Misses
pub mod Batch
pub mod Repeats
pub mod Adds
mod Tests
use index_maker.Prelude.{
  if◌then◌else◌, ℕ, Bool, Option, none, some, List, [], ◌∷◌, ◌++◌, map, ok, err, Action, pure,
  modify, ◌>>=◌, ◌>>◌,
}
use index_maker.Prelude.Int.{ℤ}
use index_maker.Decimal.{Amount, zero_amount, Decimal}
use index_maker.Bits.{Symbol, Side, opposite_side, AssetOrder, BatchOrder, SingleOrder}
use index_maker.Bits.Symbols.{SymbolMap, find_symbol, put_symbol}
use index_maker.OrderSender.Asset.{base_asset}
use index_maker.OrderSender.Position.{
  Lot, Position, PositionError, Fill, get_last_transaction_quantity, new_position, create_lot,
  match_lots, drain_closed_lots,
}
use index_maker.OrderSender.Tracker.{
  fully_cancelled, FillReport, CancelReport, TrackerNotification, filled, cancelled_order, Tracker,
  TrackerError, new_order,
}

-- `InventoryEvent::OpenLot`
pub record OpenLot : Type 0 where
  pub order_id : ℕ
  pub batch_order_id : ℕ
  pub lot_id : ℕ
  pub symbol : Symbol
  pub side : Side
  pub price : Amount
  pub quantity : Amount
  pub fee : Amount
  pub original_batch_quantity : Amount
  pub batch_quantity_remaining : Amount
  pub timestamp : ℤ

-- `InventoryEvent::CloseLot`
pub record CloseLot : Type 0 where
  pub original_order_id : ℕ
  pub original_batch_order_id : ℕ
  pub original_lot_id : ℕ
  pub closing_order_id : ℕ
  pub closing_batch_order_id : ℕ
  pub closing_lot_id : ℕ
  pub symbol : Symbol
  pub side : Side
  pub original_price : Amount
  pub closing_price : Amount
  pub closing_fee : Amount
  pub quantity_closed : Amount
  pub original_quantity : Amount
  pub quantity_remaining : Amount
  pub closing_batch_original_quantity : Amount
  pub closing_batch_quantity_remaining : Amount
  pub original_timestamp : ℤ
  pub closing_timestamp : ℤ

-- `InventoryEvent`; its `Cancel` has the fields of the tracker's report.
pub data InventoryEvent : Type 0 where
  lot_opened : OpenLot → InventoryEvent
  lot_closed : CloseLot → InventoryEvent
  order_cancelled : CancelReport → InventoryEvent

pub record InventoryManager : Type 0 where
  pub positions : SymbolMap Position
  pub tolerance : Amount
  pub published : List InventoryEvent

pub data InventoryError : Type 0 where
  in_position : PositionError → InventoryError
  position_not_found : InventoryError

abbrev pub OnInventory : Type 0 → Type 0
OnInventory A = Action InventoryManager InventoryError A

abbrev pub publish_events : List InventoryEvent → InventoryManager → InventoryManager
publish_events es v = record v { published = v.published ++ es }

-- What a position is told of the report, with the quantity that is still to book.
abbrev pub fill_of : FillReport → Amount → Fill
fill_of r quantity = record {
  order_id = r.order_id;
  batch_order_id = r.batch_order_id;
  lot_id = r.lot_id;
  side = r.side;
  price_filled = r.price_filled;
  quantity_filled = quantity;
  fee_paid = r.fee_paid;
  fill_timestamp = r.fill_timestamp;
}

abbrev pub open_event : FillReport → Amount → InventoryEvent
open_event r quantity = lot_opened (record {
  order_id = r.order_id;
  batch_order_id = r.batch_order_id;
  lot_id = r.lot_id;
  symbol = r.symbol;
  side = r.side;
  price = r.price_filled;
  quantity = quantity;
  fee = r.fee_paid;
  original_batch_quantity = r.original_quantity;
  batch_quantity_remaining = r.quantity_remaining;
  timestamp = r.fill_timestamp;
})

unfoldable pub close_event : FillReport → Lot → InventoryEvent
close_event r lot = lot_closed (record {
  original_order_id = lot.original_order_id;
  original_batch_order_id = lot.original_batch_order_id;
  original_lot_id = lot.lot_id;
  closing_order_id = r.order_id;
  closing_batch_order_id = r.batch_order_id;
  closing_lot_id = r.lot_id;
  symbol = r.symbol;
  side = opposite_side r.side;
  original_price = lot.original_price;
  closing_price = r.price_filled;
  closing_fee = r.fee_paid;
  quantity_closed = get_last_transaction_quantity lot;
  original_quantity = lot.original_quantity;
  quantity_remaining = lot.remaining_quantity;
  closing_batch_original_quantity = r.original_quantity;
  closing_batch_quantity_remaining = r.quantity_remaining;
  original_timestamp = lot.created_timestamp;
  closing_timestamp = r.fill_timestamp;
})

-- `cancel_status: FullyCancelled`, of a fill that ended the order.
abbrev pub cancel_event : FillReport → InventoryEvent
cancel_event r = order_cancelled (record {
  order_id = r.order_id;
  batch_order_id = r.batch_order_id;
  symbol = r.symbol;
  side = r.side;
  quantity_cancelled = zero_amount;
  original_quantity = r.original_quantity;
  quantity_remaining = r.quantity_remaining;
  cancel_status = fully_cancelled;
  cancel_timestamp = r.fill_timestamp;
})

-- The key that `create_lot` stores a position under: the base asset of the base asset.
unfoldable pub stored_key : Symbol → Symbol
stored_key symbol = base_asset (base_asset symbol)

-- `entry(..).or_insert_with(..)`
unfoldable pub position_or_new : FillReport → InventoryManager → Position
position_or_new r v = elim (find_symbol (stored_key r.symbol) v.positions) [
  | none ↦ new_position (base_asset r.symbol) r.side
  | some p ↦ p
]

module _ ⦃d : Decimal⦄ where
  -- `InventoryManager::create_lot`
  unfoldable pub create_lot_of : FillReport → Amount → OnInventory (Unit {0})
  create_lot_of r quantity v =
      let (booked, p) = create_lot (fill_of r quantity) (position_or_new r v) in
      let v' = record v { positions = put_symbol (stored_key r.symbol) p v.positions } in
      elim booked [
        | err e ↦ (err (in_position e), v')
        | ok _ ↦ (ok tt, publish_events (open_event r quantity ∷ []) v')
      ]

  -- `InventoryManager::match_lots`
  unfoldable pub match_lots_of : FillReport → OnInventory (Option Amount)
  match_lots_of r v = elim (find_symbol (base_asset r.symbol) v.positions) [
    | none ↦ (ok (some r.quantity_filled), v)
    | some position ↦
        let (matched, p) = match_lots (fill_of r r.quantity_filled) v.tolerance position in
        elim matched [
          | err e ↦ (
            err (in_position e),
            record v { positions = put_symbol (base_asset r.symbol) p v.positions },
          )
          | ok remaining ↦
              let (lots, drained) = drain_closed_lots p in
              (
                ok remaining,
                publish_events (map (close_event r) lots)
                    (record v { positions = put_symbol (base_asset r.symbol) drained v.positions }),
              )
        ]
  ]

  -- What of a fill opens a lot.
  unfoldable pub open_unmatched : FillReport → Option Amount → OnInventory (Unit {0})
  open_unmatched r none = pure tt
  open_unmatched r (some quantity) = create_lot_of r quantity

  unfoldable pub announce_cancelled : FillReport → InventoryManager → InventoryManager
  announce_cancelled r v = if r.is_cancelled then publish_events (cancel_event r ∷ []) v else v

  -- `InventoryManager::handle_fill_report`
  unfoldable pub handle_fill_report : TrackerNotification → OnInventory (Unit {0})
  handle_fill_report (filled r) = do
    unmatched ← match_lots_of r
    open_unmatched r unmatched
    modify (announce_cancelled r)
  handle_fill_report (cancelled_order c) = modify (publish_events (order_cancelled c ∷ []))

-- The order that `new_order_batch` sends for one of a batch.
abbrev pub single_order : BatchOrder → AssetOrder → SingleOrder
single_order batch o = record {
  order_id = o.order_id;
  batch_order_id = batch.batch_order_id;
  symbol = o.symbol;
  side = o.side;
  price = o.price;
  quantity = o.quantity;
  created_timestamp = batch.created_timestamp;
}

-- The loop of `new_order_batch`, which stops at the first order that is refused.
unfoldable pub send_each :
    (ℕ → SingleOrder → Bool) → BatchOrder → List AssetOrder → Action Tracker TrackerError (Unit {0})
send_each send_order batch [] = pure tt
send_each send_order batch (o ∷ os) = do
  new_order send_order (single_order batch o)
  send_each send_order batch os

-- `InventoryManager::new_order_batch`, on the order tracker.
unfoldable pub new_order_batch :
    (ℕ → SingleOrder → Bool) → BatchOrder → Action Tracker TrackerError (Unit {0})
new_order_batch send_order batch = send_each send_order batch batch.asset_orders
