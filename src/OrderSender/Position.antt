-- ===== src/OrderSender/Position.antt =====
-- libs/symm-core/src/order_sender/position.rs: the lots of one asset.
pub mod Balance
pub mod Conservation
pub mod Defect
use index_maker.Prelude.{
  if◌then◌else◌, ℕ, ◌+◌, Bool, true, false, not, ◌&&◌, Option, none, some, List, [], ◌∷◌, ◌++◌,
  take, drop, last, Result, ok, err, Action,
}
use index_maker.Prelude.Int.{ℤ, ltb_ℤ, eqb_ℤ, -ℤ◌}
use index_maker.Prelude.Dict.{Dict, lookup, erase}
use index_maker.Decimal.{Amount, zero_amount, Decimal, safe_add, safe_sub}
use index_maker.Bits.{Symbol, Side, side_eq}

pub record LotTransaction : Type 0 where
  pub order_id : ℕ
  pub batch_order_id : ℕ
  pub matched_lot_id : ℕ
  pub quantity_closed : Amount
  pub closing_price : Amount
  pub closing_fee : Amount
  pub closing_timestamp : ℤ

pub record LotAssignment : Type 0 where
  pub chain_id : ℕ
  pub address : ℕ
  pub seq_num : ℕ
  pub client_order_id : ℕ
  pub side : Side
  pub assigned_quantity : Amount
  pub assigned_fee : Amount
  pub assigned_timestamp : ℤ

pub record Lot : Type 0 where
  pub original_order_id : ℕ
  pub original_batch_order_id : ℕ
  pub lot_id : ℕ
  pub original_price : Amount
  pub original_quantity : Amount
  pub original_fee : Amount
  pub remaining_quantity : Amount
  pub created_timestamp : ℤ
  pub last_update_timestamp : ℤ
  pub lot_transactions : List LotTransaction
  pub lot_assignments : List LotAssignment

pub record Position : Type 0 where
  pub symbol : Symbol
  pub side : Side
  pub balance : Amount
  pub created_timestamp : Option ℤ
  pub last_update_timestamp : Option ℤ
  pub open_lots : List Lot
  pub closed_lots : List Lot

-- `eyre!("Math overflow")`, `ok_or_eyre("Math Problem")` and a failed `ensure!`.
pub data PositionError : Type 0 where
  math_overflow math_problem ensure_failed : PositionError

-- What `create_lot` and `match_lots` are told of a fill.
pub record Fill : Type 0 where
  pub order_id : ℕ
  pub batch_order_id : ℕ
  pub lot_id : ℕ
  pub side : Side
  pub price_filled : Amount
  pub quantity_filled : Amount
  pub fee_paid : Amount
  pub fill_timestamp : ℤ

-- `Lot::get_last_transaction_quantity`
unfoldable pub get_last_transaction_quantity : Lot → Amount
get_last_transaction_quantity lot = elim (last lot.lot_transactions) [
  | none ↦ zero_amount
  | some t ↦ t.quantity_closed
]

-- `Position::new`
unfoldable pub new_position : Symbol → Side → Position
new_position symbol side = record {
  symbol = symbol;
  side = side;
  balance = zero_amount;
  created_timestamp = none;
  last_update_timestamp = none;
  open_lots = [];
  closed_lots = [];
}

-- The lot that a fill opens.
abbrev pub opened_lot : Fill → Lot
opened_lot f = record {
  original_order_id = f.order_id;
  original_batch_order_id = f.batch_order_id;
  lot_id = f.lot_id;
  original_price = f.price_filled;
  original_quantity = f.quantity_filled;
  original_fee = f.fee_paid;
  remaining_quantity = f.quantity_filled;
  created_timestamp = f.fill_timestamp;
  last_update_timestamp = f.fill_timestamp;
  lot_transactions = [];
  lot_assignments = [];
}

abbrev or_else : Option ℤ → ℤ → Option ℤ
or_else none t = some t
or_else (some s) t = some s

-- What `match_lots` has computed so far, none of it written yet.
pub record Matching : Type 0 where
  pub quantity_filled : Amount
  pub balance : Amount
  pub front_lot_update : Option Lot
  pub open_lots_drain_count : ℕ
  pub closed_lots : List Lot

-- The lot after one transaction against it.
abbrev pub updated_lot : Fill → Lot → Amount → Amount → Lot
updated_lot f lot matched remaining = record lot {
  lot_transactions =
      lot.lot_transactions
      ++ (record {
        order_id = f.order_id;
        batch_order_id = f.batch_order_id;
        matched_lot_id = f.lot_id;
        quantity_closed = matched;
        closing_price = f.price_filled;
        closing_fee = f.fee_paid;
        closing_timestamp = f.fill_timestamp;
      })
        ∷ [];
  last_update_timestamp = f.fill_timestamp;
  remaining_quantity = remaining;
}

-- How much of a lot a fill takes: the quantity matched, what remains on the lot, what remains of
-- the fill, whether the walk is finished and whether the lot was closed.
pub record Taken : Type 0 where
  pub matched : Amount
  pub lot_remaining : Amount
  pub fill_remaining : Amount
  pub finished : Bool
  pub was_closed : Bool

-- The tuple that the loop's `if` computes from the difference of lot and fill.
unfoldable pub take_lot : Amount → Amount → Amount → Amount → Taken
take_lot lot_quantity quantity_filled remaining tolerance =
    if ltb_ℤ remaining tolerance
    then (if ltb_ℤ remaining (-ℤ◌ tolerance)
        then record {
          matched = lot_quantity;
          lot_remaining = zero_amount;
          fill_remaining = -ℤ◌ remaining;
          finished = false;
          was_closed = true;
        }
        else record {
          matched = lot_quantity;
          lot_remaining = zero_amount;
          fill_remaining = zero_amount;
          finished = true;
          was_closed = true;
        })
    else record {
      matched = quantity_filled;
      lot_remaining = remaining;
      fill_remaining = zero_amount;
      finished = true;
      was_closed = false;
    }

module _ ⦃d : Decimal⦄ where
  -- The rest of the loop's body: the balance, the transaction and where the lot goes.
  unfoldable pub book_taken : Fill → Lot → Taken → Matching → Result PositionError (Bool × Matching)
  book_taken f lot t m = elim (safe_sub m.balance t.matched) [
    | none ↦ err math_overflow
    | some balance ↦
        let lot_mut = updated_lot f lot t.matched t.lot_remaining in
        if t.was_closed
        then ok (
          t.finished,
          record {
            quantity_filled = t.fill_remaining;
            balance = balance;
            front_lot_update = m.front_lot_update;
            open_lots_drain_count = m.open_lots_drain_count + 1;
            closed_lots = m.closed_lots ++ lot_mut ∷ [];
          },
        )
        else (if t.finished
            then ok (
              t.finished,
              record {
                quantity_filled = t.fill_remaining;
                balance = balance;
                front_lot_update = some lot_mut;
                open_lots_drain_count = m.open_lots_drain_count;
                closed_lots = m.closed_lots;
              },
            )
            else err ensure_failed)
  ]

  -- The loop's body; the flag says whether the walk is finished.
  unfoldable pub match_lot : Fill → Amount → Lot → Matching → Result PositionError (Bool × Matching)
  match_lot f tolerance lot m = elim (safe_sub lot.remaining_quantity m.quantity_filled) [
    | none ↦ err math_problem
    | some remaining ↦
        book_taken f lot (take_lot lot.remaining_quantity m.quantity_filled remaining tolerance) m
  ]

  -- `for lot in self.open_lots.iter()`, up to the first lot that finishes the fill.
  unfoldable pub match_loop : Fill → Amount → List Lot → Matching → Result PositionError Matching
  match_loop f tolerance [] m = ok m
  match_loop f tolerance (lot ∷ lots) m = elim (match_lot f tolerance lot m) [
    | err e ↦ err e
    | ok (true, m') ↦ ok m'
    | ok (false, m') ↦ match_loop f tolerance lots m'
  ]

  -- `Position::create_lot`: the lot is stored before the balance is computed.
  unfoldable pub create_lot : Fill → Action Position PositionError (Unit {0})
  create_lot f p =
      let stored = record p {
        created_timestamp = or_else p.created_timestamp f.fill_timestamp;
        last_update_timestamp = some f.fill_timestamp;
        open_lots = p.open_lots ++ opened_lot f ∷ [];
      } in
      elim (safe_add p.balance f.quantity_filled) [
        | none ↦ (err math_overflow, stored)
        | some balance ↦ (ok tt, record stored { balance = balance })
      ]

-- What `match_lots` starts its walk from.
abbrev pub matching_of : Fill → Position → Matching
matching_of f p = record {
  quantity_filled = f.quantity_filled;
  balance = p.balance;
  front_lot_update = none;
  open_lots_drain_count = 0;
  closed_lots = [];
}

-- The commit of `match_lots`: `drain(open_lots_drain_count..)` removes the lots from that place on,
-- then the updated lot, if any, replaces the front.
unfoldable pub commit : Matching → Position → Position
commit m p =
    let kept = take m.open_lots_drain_count p.open_lots in
    record p {
      open_lots = elim m.front_lot_update [ none ↦ kept | some lot ↦ lot ∷ drop 1 kept ];
      closed_lots = m.closed_lots;
      balance = m.balance;
    }

module _ ⦃d : Decimal⦄ where
  -- `Position::match_lots`; the quantity that is left of the fill, if more than the tolerance.
  unfoldable pub match_lots : Fill → Amount → Action Position PositionError (Option Amount)
  match_lots f tolerance p =
      if side_eq p.side f.side
      then (ok (some f.quantity_filled), p)
      else (let p' = record p { last_update_timestamp = some f.fill_timestamp } in
          elim (match_loop f tolerance p.open_lots (matching_of f p)) [
            | err e ↦ (err e, p')
            | ok m ↦ (
              ok (if ltb_ℤ tolerance m.quantity_filled then some m.quantity_filled else none),
              commit m p',
            )
          ])

-- `Option<DateTime>` equality.
abbrev pub same_instant : ℤ → Option ℤ → Bool
same_instant t none = false
same_instant t (some s) = eqb_ℤ t s

-- The front lot, if this update changed it.
unfoldable pub updated_front : Position → List Lot
updated_front p = elim p.open_lots [
  | [] ↦ []
  | lot ∷ lots ↦
      if not (eqb_ℤ lot.remaining_quantity lot.original_quantity)
        && same_instant lot.last_update_timestamp p.last_update_timestamp
      then lot ∷ []
      else []
]

-- `Position::drain_closed_lots_and_callback_on_updated`: the lots that the callback is given.
unfoldable pub drain_closed_lots : Position → List Lot × Position
drain_closed_lots p = (p.closed_lots ++ updated_front p, record p { closed_lots = [] })

-- The loop of `assign_lots`: each lot takes its assignments out of the map.
unfoldable pub assign_each : Dict (List LotAssignment) → List Lot → List Lot
assign_each assignments [] = []
assign_each assignments (lot ∷ lots) = elim (lookup lot.lot_id assignments) [
  | none ↦ lot ∷ assign_each assignments lots
  | some new ↦
      (record lot { lot_assignments = lot.lot_assignments ++ new })
      ∷ assign_each (erase lot.lot_id assignments) lots
]

-- `Position::assign_lots`, which never fails.
unfoldable pub assign_lots : Dict (List LotAssignment) → Position → Position
assign_lots assignments p = record p { open_lots = assign_each assignments p.open_lots }
