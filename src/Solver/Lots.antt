-- ===== src/Solver/Lots.antt =====
-- src/solver/solver_order/solver_order.rs: the lots that are assigned to an index order.
use index_maker.Prelude.{ℕ}
use index_maker.Prelude.Int.{ℤ}
use index_maker.Decimal.{Amount}
use index_maker.Bits.{Symbol}

pub record SolverOrderAssetLot : Type 0 where
  pub lot_id : ℕ
  pub symbol : Symbol
  pub price : Amount
  pub original_quantity : Amount
  pub remaining_quantity : Amount
  pub original_fee : Amount
  pub assigned_quantity : Amount
  pub assigned_fee : Amount
  pub created_timestamp : ℤ
  pub assigned_timestamp : ℤ
