-- ===== src/IndexOrder/Update.antt =====
-- index_order.rs: the data of an index order.
use index_maker.Prelude.{ℕ, Option, none, List, [], Action}
use index_maker.Prelude.Int.{ℤ}
use index_maker.Decimal.{Amount, zero_amount}
use index_maker.Bits.{Symbol, Side}

pub record IndexOrderUpdate : Type 0 where
  pub client_order_id : ℕ
  pub side : Side
  pub original_collateral_amount : Amount
  pub remaining_collateral : Amount
  pub engaged_collateral : Option Amount
  pub collateral_spent : Amount
  pub filled_quantity : Amount
  pub update_fee : Amount
  pub timestamp : ℤ

pub record IndexOrder : Type 0 where
  pub chain_id : ℕ
  pub address : ℕ
  pub symbol : Symbol
  pub side : Side
  pub remaining_collateral : Amount
  pub created_timestamp : ℤ
  pub last_update_timestamp : ℤ
  pub engaged_side : Option Side
  pub engaged_collateral : Option Amount
  pub collateral_spent : Amount
  pub filled_quantity : Amount
  pub fees : Amount
  pub order_updates : List IndexOrderUpdate
  pub engaged_updates : List IndexOrderUpdate
  pub closed_updates : List IndexOrderUpdate

-- `UpdateIndexOrderOutcome`: `push` and `flip` with the new collateral, `reduce` with the removed
-- and the remaining collateral.
pub data UpdateOutcome : Type 0 where
  push : Amount → UpdateOutcome
  reduce : Amount → Amount → UpdateOutcome
  flip : Side → Amount → UpdateOutcome

-- `CancelIndexOrderOutcome`: `Reduce` and `Cancel`.
pub data CancelOutcome : Type 0 where
  cancel_part : Amount → Amount → CancelOutcome
  cancel_all : Amount → CancelOutcome

-- `eyre!("Math Problem")` and the other errors by their texts.
pub data IndexOrderError : Type 0 where
  math_problem engaged_update_not_found already_fully_engaged : IndexOrderError
  front_update_not_found not_next_update : IndexOrderError

abbrev pub OnOrder : Type 0 → Type 0
OnOrder A = Action IndexOrder IndexOrderError A

-- The update that `update_order` allocates.
abbrev pub new_update : ℕ → Side → Amount → ℤ → IndexOrderUpdate
new_update client_order_id side collateral_amount timestamp = record {
  client_order_id = client_order_id;
  side = side;
  original_collateral_amount = collateral_amount;
  remaining_collateral = collateral_amount;
  engaged_collateral = none;
  collateral_spent = zero_amount;
  filled_quantity = zero_amount;
  update_fee = zero_amount;
  timestamp = timestamp;
}

-- `IndexOrder::new`
unfoldable pub new_index_order : ℕ → ℕ → Symbol → Side → ℤ → IndexOrder
new_index_order chain_id address symbol side timestamp = record {
  chain_id = chain_id;
  address = address;
  symbol = symbol;
  side = side;
  remaining_collateral = zero_amount;
  created_timestamp = timestamp;
  last_update_timestamp = timestamp;
  engaged_side = none;
  engaged_collateral = none;
  collateral_spent = zero_amount;
  filled_quantity = zero_amount;
  fees = zero_amount;
  order_updates = [];
  engaged_updates = [];
  closed_updates = [];
}
