-- ===== src/Solver/PerLot.antt =====
-- src/solver/solver_order/solver_order.rs, `compress_lots`: what it does to the lots of an order.
use index_maker.Prelude.{◌≡◌, refl, ap, Option, none, some, List, [], reverse, ok}
use index_maker.Decimal.{Decimal, IsExact}
use index_maker.Solver.Compress.{
  LotKey, LotMap, compress_loop, sorted_lots, end_compress, compress_lots,
}
use index_maker.Solver.Compressed.{total, Keyed}
use index_maker.Solver.Gathered.{share_of, share_before, compress_lot-total, sorted-total}
use index_maker.Solver.Lots.{SolverOrderAssetLot}
use index_maker.Solver.OneEach.{
  IsMap, compress_lot-IsMap, compress_loop-holds, IsSingle, sorted_lots-IsSingle,
}
use index_maker.Solver.Orders.{SolverOrder}

-- Of each lot, under the symbol of its base asset, the same quantity and fee are assigned as before,
-- in one assignment at most, and nothing else of the order changes.
pub record Compresses (before after : SolverOrder) : Type 0 where
  pub quantities :
      (key : LotKey)
      → total (share_of (λ lot. lot.assigned_quantity) key) after.lots
        ≡ total (share_before (λ lot. lot.assigned_quantity) key) before.lots
  pub fees :
      (key : LotKey)
      → total (share_of (λ lot. lot.assigned_fee) key) after.lots
        ≡ total (share_before (λ lot. lot.assigned_fee) key) before.lots
  pub single : IsSingle after.lots
  pub rest : after ≡ record before { lots = after.lots }

module _ ⦃d : Decimal⦄ (exact : IsExact d) where
  end-Compresses :
      (order : SolverOrder) (end : LotMap) (left : List SolverOrderAssetLot)
      → compress_loop (reverse order.lots) [] ≡ (some end, left)
      → Compresses order (record order { lots = sorted_lots end })
  end-Compresses order end left h = record {
    quantities = λ key.
        sorted-total exact (λ lot. lot.assigned_quantity) (λ lot r. refl)
          (λ current lot merged m. m.quantity) key order.lots end left h;
    fees = λ key.
        sorted-total exact (λ lot. lot.assigned_fee) (λ lot r. refl) (λ current lot merged m. m.fee)
          key order.lots end left h;
    single =
        sorted_lots-IsSingle end
          (compress_loop-holds IsMap compress_lot-IsMap (reverse order.lots) [] end left tt h)
          (compress_loop-holds Keyed
            (λ lot m next keyed e.
              (compress_lot-total exact (λ lot. lot.assigned_quantity) (λ lot r. refl)
                (λ current lot merged m. m.quantity) (lot.symbol, lot.lot_id) lot m next keyed e).0)
            (reverse order.lots) [] end left tt h);
    rest = refl;
  }

  -- With exact sums, when `compress_lots` succeeds: of each lot, by the symbol of its base asset and
  -- its identifier, the assignments are of the same quantity and fee together as before, no two
  -- assignments are of one lot, and nothing else of the order has changed.
  pub compress_lots-Compresses :
      (order after : SolverOrder) → compress_lots order ≡ (ok tt, after) → Compresses order after
  unfolding compress_lots
  compress_lots-Compresses order after h = go (compress_loop (reverse order.lots) []) refl h
    where
      go :
          (r : Option LotMap × List SolverOrderAssetLot)
          → compress_loop (reverse order.lots) [] ≡ r
          → end_compress order r ≡ (ok tt, after)
          → Compresses order after
      go (none, left) e h' = let no = ap (λ x. x.0) h' in cc
      go (some end, left) e h' =
          let same : record order { lots = sorted_lots end } ≡ after = ap (λ x. x.1) h' in
          rw (← same) (end-Compresses order end left e)
