-- ===== src/Solver/Compress.antt =====
-- src/solver/solver_order/solver_order.rs, `SolverOrder` and `SolverOrderAssetLot`: the lots of an
-- order. The order of iteration of a `HashMap`, which is unspecified, is that of its entries.
use index_maker.Prelude.{
  ◌==◌, if◌then◌else◌, ℕ, Bool, ◌&&◌, Option, none, some, List, [], ◌∷◌, ◌++◌, reverse, Result, ok,
  err, Action, if_some,
}
use index_maker.Prelude.Int.{ℤ, ltb_ℤ, max_ℤ}
use index_maker.Decimal.{Amount, Decimal, safe_add, safe_sub, safe_mul}
use index_maker.Bits.{Symbol}
use index_maker.Bits.Symbols.{symbol_eq}
use index_maker.OrderSender.Asset.{base_asset}
use index_maker.OrderSender.Position.{LotAssignment}
use index_maker.Prelude.Keyed.{find_key, put_key}
use index_maker.Solver.Lots.{SolverOrderAssetLot}
use index_maker.Solver.Orders.{SolverOrder, OrdersError}

abbrev pub LotKey : Type 0
LotKey = Symbol × ℕ

abbrev pub lot_key_eq : LotKey → LotKey → Bool
lot_key_eq (s, i) (t, j) = symbol_eq s t && i == j

abbrev pub LotMap : Type 0
LotMap = List (LotKey × SolverOrderAssetLot)

abbrev pub key_of : SolverOrderAssetLot → LotKey
key_of lot = (lot.symbol, lot.lot_id)

abbrev pub min_ℤ : ℤ → ℤ → ℤ
min_ℤ a b = if ltb_ℤ b a then b else a

-- The lot after its assignment, under the symbol of the base asset.
abbrev pub assigned : SolverOrderAssetLot → Amount → SolverOrderAssetLot
assigned lot remaining = record lot {
  symbol = base_asset lot.symbol;
  remaining_quantity = remaining;
}

module _ ⦃d : Decimal⦄ where
  unfoldable pub compute_collateral_spent : SolverOrderAssetLot → Option Amount
  compute_collateral_spent lot =
      if_some (safe_mul lot.assigned_quantity lot.price) λ value. safe_add value lot.assigned_fee

  -- `Entry::Occupied`: the sums, the lower remaining quantity and the later time.
  unfoldable pub merge : SolverOrderAssetLot → SolverOrderAssetLot → Option SolverOrderAssetLot
  merge current lot = elim (safe_add current.assigned_quantity lot.assigned_quantity) [
    | none ↦ none
    | some quantity ↦ elim (safe_add current.assigned_fee lot.assigned_fee) [
      | none ↦ none
      | some fee ↦ some (record current {
        assigned_quantity = quantity;
        assigned_fee = fee;
        remaining_quantity = min_ℤ current.remaining_quantity lot.remaining_quantity;
        assigned_timestamp = max_ℤ current.assigned_timestamp lot.assigned_timestamp;
      })
    ]
  ]

  -- `match map.entry(..)`
  unfoldable pub file : SolverOrderAssetLot → LotMap → Option LotMap
  file lot m = elim (find_key lot_key_eq (key_of lot) m) [
    | none ↦ some (put_key lot_key_eq (key_of lot) lot m)
    | some current ↦ elim (merge current lot) [
      | none ↦ none
      | some merged ↦ some (put_key lot_key_eq (key_of lot) merged m)
    ]
  ]

  unfoldable pub compress_lot : SolverOrderAssetLot → LotMap → Option LotMap
  compress_lot lot m = elim (safe_sub lot.remaining_quantity lot.assigned_quantity) [
    | none ↦ none
    | some remaining ↦ file (assigned lot remaining) m
  ]

  -- The loop over the lots, the last one first: what it has collected, and the lots that are left
  -- on an error.
  unfoldable pub compress_loop :
      List SolverOrderAssetLot → LotMap → Option LotMap × List SolverOrderAssetLot
  compress_loop [] m = (some m, [])
  compress_loop (lot ∷ lots) m = elim (compress_lot lot m) [
    | none ↦ (none, lots)
    | some next ↦ compress_loop lots next
  ]

-- `sorted_by_key(|x| x.assigned_timestamp)`, which keeps the order of equal ones.
abbrev pub place_lot : SolverOrderAssetLot → List SolverOrderAssetLot → List SolverOrderAssetLot
place_lot lot [] = lot ∷ []
place_lot lot (other ∷ lots) =
    if ltb_ℤ other.assigned_timestamp lot.assigned_timestamp
    then other ∷ place_lot lot lots
    else lot ∷ other ∷ lots

abbrev pub sorted_lots : LotMap → List SolverOrderAssetLot
sorted_lots [] = []
sorted_lots ((key, lot) ∷ m) = place_lot lot (sorted_lots m)

abbrev pub end_compress :
    SolverOrder
    → Option LotMap × List SolverOrderAssetLot
    → Result OrdersError (Unit {0}) × SolverOrder
end_compress order (none, left) =
    (err OrdersError.math_problem, record order { lots = reverse left })
end_compress order (some m, left) = (ok tt, record order { lots = sorted_lots m })

module _ ⦃d : Decimal⦄ where
  unfoldable pub compress_lots : Action SolverOrder OrdersError (Unit {0})
  compress_lots order = end_compress order (compress_loop (reverse order.lots) [])

-- `LotAssignment` of an order's lot.
abbrev pub assignment_of : SolverOrder → ℕ → SolverOrderAssetLot → LotAssignment
assignment_of order seq_num lot = record {
  chain_id = order.chain_id;
  address = order.address;
  seq_num = seq_num;
  client_order_id = order.client_order_id;
  side = order.side;
  assigned_quantity = lot.assigned_quantity;
  assigned_fee = lot.assigned_fee;
  assigned_timestamp = lot.assigned_timestamp;
}

abbrev pub or_empty : Option (List LotAssignment) → List LotAssignment
or_empty none = []
or_empty (some l) = l

-- `fold`: each assignment goes to the end of the ones of its lot.
unfoldable pub collect_each :
    SolverOrder
    → ℕ
    → List SolverOrderAssetLot
    → List (LotKey × List LotAssignment)
    → List (LotKey × List LotAssignment)
collect_each order seq_num [] m = m
collect_each order seq_num (lot ∷ lots) m = collect_each order seq_num lots (
    put_key lot_key_eq (key_of lot)
      (or_empty (find_key lot_key_eq (key_of lot) m) ++ assignment_of order seq_num lot ∷ []) m)

unfoldable pub collect_lot_assignments : SolverOrder → ℕ → List (LotKey × List LotAssignment)
unfolding collect_each
collect_lot_assignments order seq_num = collect_each order seq_num order.lots []
