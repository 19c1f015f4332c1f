-- ===== src/OrderSender/Inventory/Misses.antt =====
-- inventory_manager.rs: `create_lot` takes the base asset twice and `match_lots` once, so that the lots
-- of a symbol whose base asset ends in a known suffix itself are not found again.
use index_maker.Prelude.{◌≡◌, refl, ◌∙◌, false, none, some, [], ◌∷◌, Result, ok, err}
use index_maker.Decimal.{Amount, Decimal}
use index_maker.Bits.{Symbol}
use index_maker.Bits.Symbols.{symbol_eq, find_symbol, put_symbol, find_symbol-put_symbol}
use index_maker.OrderSender.Asset.{base_asset}
use index_maker.OrderSender.Inventory.{
  InventoryManager, InventoryError, in_position, publish_events, fill_of, open_event, stored_key,
  position_or_new, create_lot_of, match_lots_of,
}
use index_maker.OrderSender.Position.{Position, PositionError, create_lot}
use index_maker.OrderSender.Tracker.{FillReport}

module _ ⦃d : Decimal⦄ where
  create_lot_of-other :
      (r : FillReport) (quantity : Amount) (s : Symbol) (v : InventoryManager)
      → symbol_eq (stored_key r.symbol) s ≡ false
      → find_symbol s (create_lot_of r quantity v).1.positions ≡ find_symbol s v.positions
  unfolding create_lot_of
  create_lot_of-other r quantity s v other =
      go (create_lot (fill_of r quantity) (position_or_new r v))
    where
      go :
          (b : Result PositionError (Unit {0}) × Position)
          → find_symbol s
              (elim b.0 as (λ _. Result InventoryError (Unit {0}) × InventoryManager) [
                | err e ↦ (
                  err (in_position e),
                  record v { positions = put_symbol (stored_key r.symbol) b.1 v.positions },
                )
                | ok _ ↦ (
                  ok tt,
                  publish_events
                      (open_event r quantity ∷ [])
                      (record v { positions = put_symbol (stored_key r.symbol) b.1 v.positions }),
                )
              ]).1.positions
            ≡ find_symbol s v.positions
      go (err e, p) = find_symbol-put_symbol s (stored_key r.symbol) p v.positions other
      go (ok _, p) = find_symbol-put_symbol s (stored_key r.symbol) p v.positions other

  match_lots_of-none :
      (r : FillReport) (v : InventoryManager)
      → find_symbol (base_asset r.symbol) v.positions ≡ none
      → match_lots_of r v ≡ (ok (some r.quantity_filled), v)
  unfolding match_lots_of
  match_lots_of-none r v missing = rw (missing, match_lots_of) refl

  -- For a symbol whose base asset has another base asset again, in an inventory with no position for
  -- the first: whatever a fill of the symbol opens, a later fill of the same symbol finds no lot to
  -- match and changes nothing, and its whole quantity is left over.
  pub match_lots_of-misses :
      (bought sold : FillReport) (quantity : Amount) (v : InventoryManager)
      → sold.symbol ≡ bought.symbol
      → symbol_eq (stored_key bought.symbol) (base_asset bought.symbol) ≡ false
      → find_symbol (base_asset bought.symbol) v.positions ≡ none
      → let v' = (create_lot_of bought quantity v).1 in
        match_lots_of sold v' ≡ (ok (some sold.quantity_filled), v')
  match_lots_of-misses bought sold quantity v same apart missing =
      match_lots_of-none sold (create_lot_of bought quantity v).1
        (rw same (create_lot_of-other bought quantity (base_asset bought.symbol) v apart ∙ missing))
