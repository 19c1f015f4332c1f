-- ===== src/OrderSender/Tracker.antt =====
-- libs/symm-core/src/order_sender/order_tracker.rs and the notifications of order_connector.rs:
-- the life of each order that was sent. What the observer is given is the state's `published` log.
pub mod Life
pub mod Remaining
pub mod Accounts
use index_maker.Prelude.{
  if◌then◌else◌, ℕ, Bool, true, false, ◌&&◌, Option, none, some, List, [], ◌∷◌, ◌++◌, Result, ok,
  err, Action, modify, ◌>>=◌, ◌>>◌,
}
use index_maker.Prelude.Int.{ℤ, ltb_ℤ}
use index_maker.Prelude.Dict.{Dict, lookup, insert}
use index_maker.Decimal.{Amount, zero_amount, Decimal, safe_sub}
use index_maker.Bits.{Symbol, Side, SingleOrder}

pub data CancelStatus : Type 0 where
  partial fully_cancelled rejected : CancelStatus

-- `CancelStatus::from_cancelled`
unfoldable pub from_cancelled : Bool → CancelStatus
from_cancelled true = fully_cancelled
from_cancelled false = partial

-- What the exchange says of an order.
pub record Report : Type 0 where
  pub order_id : ℕ
  pub symbol : Symbol
  pub side : Side
  pub price : Amount
  pub quantity : Amount
  pub timestamp : ℤ

-- `OrderConnectorNotification`; the texts of reasons are left out.
pub data ConnectorNotification : Type 0 where
  session_logon : ℕ → ConnectorNotification
  session_logout : ℕ → ConnectorNotification
  rejects : Report → ConnectorNotification
  fills : Report → ℕ → Amount → ConnectorNotification
  new_order_ack : Report → ConnectorNotification
  cancels : Report → ConnectorNotification

pub record FillReport : Type 0 where
  pub order_id : ℕ
  pub batch_order_id : ℕ
  pub lot_id : ℕ
  pub symbol : Symbol
  pub side : Side
  pub price_filled : Amount
  pub quantity_filled : Amount
  pub fee_paid : Amount
  pub original_quantity : Amount
  pub quantity_remaining : Amount
  pub is_cancelled : Bool
  pub fill_timestamp : ℤ

pub record CancelReport : Type 0 where
  pub order_id : ℕ
  pub batch_order_id : ℕ
  pub symbol : Symbol
  pub side : Side
  pub quantity_cancelled : Amount
  pub original_quantity : Amount
  pub quantity_remaining : Amount
  pub cancel_status : CancelStatus
  pub cancel_timestamp : ℤ

-- `OrderTrackerNotification`
pub data TrackerNotification : Type 0 where
  filled : FillReport → TrackerNotification
  cancelled_order : CancelReport → TrackerNotification

pub data OrderStatus : Type 0 where
  sent live cancelled : Amount → OrderStatus
  send_failed : OrderStatus

pub record OrderEntry : Type 0 where
  pub session_id : ℕ
  pub order : SingleOrder
  pub status : OrderStatus

pub record Tracker : Type 0 where
  pub session : Option ℕ
  pub orders : Dict OrderEntry
  pub tolerance : Amount
  pub published : List TrackerNotification

pub data TrackerError : Type 0 where
  invalid_for_new invalid_for_fill fill_after_cancel overflow untracked : TrackerError
  no_session already_sent send_error : TrackerError

-- `OrderEntry::new`
abbrev pub new_entry : ℕ → SingleOrder → OrderEntry
new_entry session_id order = record {
  session_id = session_id;
  order = order;
  status = sent order.quantity;
}

-- `OrderEntry::set_status`, on the entry in the map.
abbrev pub set_status : ℕ → OrderEntry → OrderStatus → Tracker → Tracker
set_status order_id entry status t = record t {
  orders = insert order_id (record entry { status = status }) t.orders;
}

abbrev pub publish : TrackerNotification → Tracker → Tracker
publish n t = record t { published = t.published ++ n ∷ [] }

-- The inner `match` of `update_order_new`, on the status of the entry.
unfoldable pub acknowledge :
    ℕ → Amount → OrderEntry → OrderStatus → Action Tracker TrackerError (Unit {0})
acknowledge order_id quantity entry (sent order_quantity) t =
    (ok tt, set_status order_id entry (live quantity) t)
acknowledge order_id quantity entry _ t = (err invalid_for_new, t)

-- `OrderTracker::update_order_new`
unfoldable pub update_order_new : ℕ → Amount → Action Tracker TrackerError (Unit {0})
update_order_new order_id quantity t = elim (lookup order_id t.orders) [
  | none ↦ (err untracked, t)
  | some entry ↦ acknowledge order_id quantity entry entry.status t
]

-- What `update_order_status` returns: the entry, the quantity remaining, whether the order was
-- live, and whether it is cancelled.
pub record Updated : Type 0 where
  pub entry : OrderEntry
  pub quantity_remaining : Amount
  pub was_live : Bool
  pub is_cancelled : Bool

abbrev closing : ℕ → OrderEntry → Tracker → Result TrackerError Updated × Tracker
closing order_id entry t = (
  ok (record {
    entry = entry;
    quantity_remaining = zero_amount;
    was_live = true;
    is_cancelled = true;
  }),
  set_status order_id entry (cancelled zero_amount) t,
)

module _ ⦃d : Decimal⦄ where
  -- The branch of a live order.
  unfoldable pub update_live :
      ℕ → OrderEntry → Amount → Amount → Bool → Action Tracker TrackerError Updated
  update_live order_id entry remaining quantity is_cancel t =
      if is_cancel then closing order_id entry t else elim (safe_sub remaining quantity) [
        | none ↦ (err overflow, t)
        | some left ↦ if ltb_ℤ left t.tolerance then closing order_id entry t else (
          ok (record {
            entry = entry;
            quantity_remaining = left;
            was_live = true;
            is_cancelled = false;
          }),
          set_status order_id entry (live left) t,
        )
      ]

  -- The inner `match` of `update_order_status`, on the status of the entry.
  unfoldable pub update_entry :
      ℕ → Amount → Bool → OrderEntry → OrderStatus → Action Tracker TrackerError Updated
  update_entry order_id quantity is_cancel entry (sent order_quantity) t =
      if is_cancel then closing order_id entry t else (err invalid_for_fill, t)
  update_entry order_id quantity is_cancel entry (live remaining) t =
      update_live order_id entry remaining quantity is_cancel t
  update_entry order_id quantity is_cancel entry _ t =
      if is_cancel && ltb_ℤ quantity t.tolerance
      then (
        ok (record {
          entry = entry;
          quantity_remaining = zero_amount;
          was_live = false;
          is_cancelled = true;
        }),
        t,
      )
      else (err fill_after_cancel, t)

  -- `OrderTracker::update_order_status`
  unfoldable pub update_order_status : ℕ → Amount → Bool → Action Tracker TrackerError Updated
  update_order_status order_id quantity is_cancel t = elim (lookup order_id t.orders) [
    | none ↦ (err untracked, t)
    | some entry ↦ update_entry order_id quantity is_cancel entry entry.status t
  ]

  -- The notification that follows a cancellation of the exchange.
  abbrev pub cancel_report : Report → CancelStatus → Updated → TrackerNotification
  cancel_report r status u = cancelled_order (record {
    order_id = r.order_id;
    batch_order_id = u.entry.order.batch_order_id;
    symbol = r.symbol;
    side = r.side;
    quantity_cancelled = r.quantity;
    original_quantity = u.entry.order.quantity;
    quantity_remaining = u.quantity_remaining;
    cancel_status = status;
    cancel_timestamp = r.timestamp;
  })

  abbrev pub fill_report : Report → ℕ → Amount → Updated → TrackerNotification
  fill_report r lot_id fee u = filled (record {
    order_id = r.order_id;
    batch_order_id = u.entry.order.batch_order_id;
    lot_id = lot_id;
    symbol = r.symbol;
    side = r.side;
    price_filled = r.price;
    quantity_filled = r.quantity;
    fee_paid = fee;
    original_quantity = u.entry.order.quantity;
    quantity_remaining = u.quantity_remaining;
    is_cancelled = u.is_cancelled;
    fill_timestamp = r.timestamp;
  })

  -- A cancellation that the fill has announced already is not announced again.
  unfoldable pub publish_if_live : Report → Updated → Tracker → Tracker
  publish_if_live r u t =
      if u.was_live then publish (cancel_report r (from_cancelled u.is_cancelled) u) t else t

  -- `OrderTracker::handle_order_notification`
  unfoldable pub handle_order_notification :
      ConnectorNotification → Action Tracker TrackerError (Unit {0})
  handle_order_notification (session_logon session_id) =
      modify λ t. record t { session = some session_id }
  handle_order_notification (session_logout session_id) = modify λ t. record t { session = none }
  handle_order_notification (rejects r) = do
    u ← update_order_status r.order_id r.quantity true
    modify (publish (cancel_report r rejected u))
  handle_order_notification (fills r lot_id fee) = do
    u ← update_order_status r.order_id r.quantity false
    modify (publish (fill_report r lot_id fee u))
  handle_order_notification (new_order_ack r) = update_order_new r.order_id r.quantity
  handle_order_notification (cancels r) = do
    u ← update_order_status r.order_id r.quantity true
    modify (publish_if_live r u)

-- `OrderTracker::new_order`; `send_order` is the order connector's, behind its trait.
unfoldable pub new_order :
    (ℕ → SingleOrder → Bool) → SingleOrder → Action Tracker TrackerError (Unit {0})
new_order send_order order t = elim t.session [
  | none ↦ (err no_session, t)
  | some session_id ↦ elim (lookup order.order_id t.orders) [
    | some entry ↦ (err already_sent, t)
    | none ↦
        let entry = new_entry session_id order in
        let tracked = record t { orders = insert order.order_id entry t.orders } in
        if send_order session_id order
        then (ok tt, tracked)
        else (err send_error, set_status order.order_id entry send_failed tracked)
  ]
]

-- `OrderTracker::get_order`
unfoldable pub get_order : ℕ → Tracker → Option SingleOrder
get_order order_id t = elim (lookup order_id t.orders) [
  | none ↦ none
  | some entry ↦ some entry.order
]
