-- ===== src/OrderSender/Inventory/Repeats.antt =====
-- inventory_manager.rs, `match_lots`: the callback on the updated front lot runs also when the fill is on
-- the position's own side and nothing was matched.
use index_maker.Prelude.{
  ◌≡◌, refl, ap, ◌∙◌, true, false, Option, some, List, [], ◌∷◌, ◌++◌, map, Result, ok, err,
}
use index_maker.Prelude.Int.{eqb_ℤ}
use index_maker.Decimal.{Amount, Decimal}
use index_maker.Bits.{side_eq}
use index_maker.Bits.Symbols.{find_symbol, put_symbol}
use index_maker.OrderSender.Asset.{base_asset}
use index_maker.OrderSender.Inventory.{
  InventoryManager, InventoryError, in_position, publish_events, fill_of, close_event,
  match_lots_of,
}
use index_maker.OrderSender.Position.{
  Lot, Position, PositionError, Fill, match_lots, same_instant, updated_front, drain_closed_lots,
}
use index_maker.OrderSender.Tracker.{FillReport}

module _ ⦃d : Decimal⦄ where
  pub match_lots-same_side :
      (f : Fill) (tolerance : Amount) (p : Position)
      → side_eq p.side f.side ≡ true
      → match_lots f tolerance p ≡ (ok (some f.quantity_filled), p)
  unfolding match_lots
  match_lots-same_side f tolerance p own = rw (own, match_lots) refl

  updated_front-lot :
      (p : Position) (lot : Lot) (rest : List Lot)
      → p.open_lots ≡ lot ∷ rest
      → eqb_ℤ lot.remaining_quantity lot.original_quantity ≡ false
      → same_instant lot.last_update_timestamp p.last_update_timestamp ≡ true
      → updated_front p ≡ lot ∷ []
  unfolding updated_front
  updated_front-lot p lot rest front partly recent = rw (front, updated_front, partly, recent) refl

  -- When the last thing that happened to a position was that its front lot was closed in part, and
  -- the next fill is on the position's own side: `match_lots` matches nothing and returns the whole
  -- quantity, and yet announces that the fill has closed the front lot, with the quantity that was
  -- closed before.
  pub match_lots_of-repeats :
      (r : FillReport) (v : InventoryManager) (p : Position) (lot : Lot) (rest : List Lot)
      → find_symbol (base_asset r.symbol) v.positions ≡ some p
      → side_eq p.side r.side ≡ true
      → p.open_lots ≡ lot ∷ rest
      → p.closed_lots ≡ []
      → eqb_ℤ lot.remaining_quantity lot.original_quantity ≡ false
      → same_instant lot.last_update_timestamp p.last_update_timestamp ≡ true
      → ((match_lots_of r v).0 ≡ ok (some r.quantity_filled))
        × ((match_lots_of r v).1.published ≡ v.published ++ close_event r lot ∷ [])
  unfolding match_lots_of drain_closed_lots
  match_lots_of-repeats r v p lot rest found own front none_closed partly recent =
      let step = ap after (match_lots-same_side (fill_of r r.quantity_filled) v.tolerance p own) in
      let drained =
        ap (λ lots. lots ++ updated_front p) none_closed
        ∙ updated_front-lot p lot rest front partly recent in
      rw (found, match_lots_of)
        (
          ap (λ x. x.0) step,
          ap (λ x. x.1.published) step
              ∙ ap (λ lots. v.published ++ map (close_event r) lots) drained,
        )
    where
      after :
          Result PositionError (Option Amount) × Position
          → Result InventoryError (Option Amount) × InventoryManager
      after m = elim m.0 as (λ _. Result InventoryError (Option Amount) × InventoryManager) [
        | err e ↦ (
          err (in_position e),
          record v { positions = put_symbol (base_asset r.symbol) m.1 v.positions },
        )
        | ok remaining ↦
            let (lots, drained) = drain_closed_lots m.1 in
            (
              ok remaining,
              publish_events (map (close_event r) lots)
                  (record v { positions = put_symbol (base_asset r.symbol) drained v.positions }),
            )
      ]
