-- ===== src/OrderSender/Inventory/Adds.antt =====
-- inventory_manager.rs, `handle_fill_report`: a fill on the position's own side adds to it.
use index_maker.Prelude.{
  ==_iff, Bool-cases, ◌≡◌, refl, ap, ◌∙◌, inl, inr, true, Option, none, some, [], ◌∷◌, map, arith,
  Result, ok, err, modify, ◌>>=◌,
}
use index_maker.Prelude.Int.{◌+ℤ◌}
use index_maker.Decimal.{Amount, Decimal, IsExact, safe_add}
use index_maker.Bits.{Symbol, side_eq}
use index_maker.Bits.Symbols.{symbol_eq, SymbolMap, find_symbol, put_symbol}
use index_maker.OrderSender.Asset.{base_asset}
use index_maker.OrderSender.Inventory.{
  InventoryManager, InventoryError, in_position, publish_events, fill_of, open_event, close_event,
  stored_key, position_or_new, create_lot_of, match_lots_of, open_unmatched, announce_cancelled,
  handle_fill_report,
}
use index_maker.OrderSender.Inventory.Repeats.{match_lots-same_side}
use index_maker.OrderSender.Position.{Position, PositionError, Fill, create_lot, drain_closed_lots}
use index_maker.OrderSender.Tracker.{FillReport, filled}

symbol_eq_refl : (s : Symbol) → symbol_eq s s ≡ true
unfolding symbol_eq
symbol_eq_refl [] = refl
symbol_eq_refl (c ∷ cs) = rw ((==_iff c c).1 refl, symbol_eq_refl cs) refl

find_symbol-put_same :
    {V : Type 0} (s : Symbol) (v : V) (m : SymbolMap V) → find_symbol s (put_symbol s v m) ≡ some v
unfolding find_symbol put_symbol
find_symbol-put_same s v [] = rw (symbol_eq_refl s) refl
find_symbol-put_same s v ((t, w) ∷ m) = elim (Bool-cases (symbol_eq t s)) [
  | inl same ↦ rw (same, find_symbol, same) refl
  | inr other ↦ rw (other, find_symbol, other) (find_symbol-put_same s v m)
]

-- The position that is found under a symbol, with a balance.
abbrev pub Holds : Symbol → Amount → InventoryManager → Type 0
Holds s balance v = (p : Position) × (find_symbol s v.positions ≡ some p) × (p.balance ≡ balance)

announced-Holds :
    ⦃d : Decimal⦄
    → (r : FillReport) (s : Symbol) (balance : Amount) (v : InventoryManager) → Holds s balance v
    → Holds s balance (announce_cancelled r v)
unfolding announce_cancelled
announced-Holds r s balance v h = elim (Bool-cases r.is_cancelled) [
  | inl ended ↦ rw (ended, announce_cancelled) h
  | inr going ↦ rw (going, announce_cancelled) h
]

module _ ⦃d : Decimal⦄ (exact : IsExact d) where
  create_lot_sums :
      (f : Fill) (p : Position) (sum : Amount)
      → safe_add p.balance f.quantity_filled ≡ some sum
      → ((create_lot f p).0 ≡ ok tt) × ((create_lot f p).1.balance ≡ sum)
  unfolding create_lot
  create_lot_sums f p sum adds = rw (adds, create_lot) (refl, refl)

  create_lot_of-Holds :
      (r : FillReport) (quantity sum : Amount) (v : InventoryManager) (p : Position)
      → find_symbol (stored_key r.symbol) v.positions ≡ some p
      → safe_add p.balance quantity ≡ some sum
      → ((create_lot_of r quantity v).0 ≡ ok tt)
        × Holds (stored_key r.symbol) sum (create_lot_of r quantity v).1
  unfolding create_lot_of position_or_new
  create_lot_of-Holds r quantity sum v p found adds =
      go (create_lot (fill_of r quantity) (position_or_new r v))
        (rw same (create_lot_sums (fill_of r quantity) p sum adds))
    where
      same : position_or_new r v ≡ p
      same = rw (position_or_new, found) refl

      go :
          (b : Result PositionError (Unit {0}) × Position)
          → (b.0 ≡ ok tt) × (b.1.balance ≡ sum)
          → let after = elim b.0 as (λ _. Result InventoryError (Unit {0}) × InventoryManager) [
            | err e ↦ (
              err (in_position e),
              record v { positions = put_symbol (stored_key r.symbol) b.1 v.positions },
            )
            | ok _ ↦ (
              ok tt,
              publish_events
                  (open_event r quantity ∷ [])
                  (record v { positions = put_symbol (stored_key r.symbol) b.1 v.positions }),
            )
          ] in
            (after.0 ≡ ok tt) × Holds (stored_key r.symbol) sum after.1
      go (ok _, p') (fine, total) =
          (refl, (p', find_symbol-put_same (stored_key r.symbol) p' v.positions, total))
      go (err e, p') (fine, total) = absurd (ground arith)

  -- What a fill on the position's own side finds matched.
  match_lots_of-own_side :
      (r : FillReport) (v : InventoryManager) (p : Position)
      → find_symbol (base_asset r.symbol) v.positions ≡ some p
      → side_eq p.side r.side ≡ true
      → ((match_lots_of r v).0 ≡ ok (some r.quantity_filled))
        × (find_symbol (base_asset r.symbol) (match_lots_of r v).1.positions
            ≡ some (record p { closed_lots = [] }))
  unfolding match_lots_of drain_closed_lots
  match_lots_of-own_side r v p found own =
      let step = ap after (match_lots-same_side (fill_of r r.quantity_filled) v.tolerance p own) in
      rw (found, match_lots_of)
        (
          ap (λ x. x.0) step,
          ap (λ x. find_symbol (base_asset r.symbol) x.1.positions) step
              ∙ find_symbol-put_same (base_asset r.symbol) (record p { closed_lots = [] })
                  v.positions,
        )
    where
      after :
          Result PositionError (Option Amount) × Position
          → Result InventoryError (Option Amount) × InventoryManager
      after m = elim m.0 as (λ _. Result InventoryError (Option Amount) × InventoryManager) [
        | err e ↦ (
          err (in_position e),
          record v { positions = put_symbol (base_asset r.symbol) m.1 v.positions },
        )
        | ok remaining ↦
            let (lots, drained) = drain_closed_lots m.1 in
            (
              ok remaining,
              publish_events (map (close_event r) lots)
                  (record v { positions = put_symbol (base_asset r.symbol) drained v.positions }),
            )
      ]

  -- With exact arithmetic, a fill on the own side of the position of a symbol whose base asset has no
  -- other base asset, when the sum does not overflow: `handle_fill_report` succeeds, and the balance
  -- of the position has risen by exactly the quantity of the fill, of a short position as well, though
  -- a comment of the source expects that balance to be below zero.
  pub handle_fill_report-Holds :
      (r : FillReport) (v : InventoryManager) (p : Position) (sum : Amount)
      → stored_key r.symbol ≡ base_asset r.symbol
      → find_symbol (base_asset r.symbol) v.positions ≡ some p
      → side_eq p.side r.side ≡ true
      → safe_add p.balance r.quantity_filled ≡ some sum
      → ((handle_fill_report (filled r) v).0 ≡ ok tt)
        × Holds
            (base_asset r.symbol)
            (p.balance +ℤ r.quantity_filled)
            (handle_fill_report (filled r) v).1
  unfolding handle_fill_report open_unmatched
  handle_fill_report-Holds r v p sum one_base found own adds =
      go (match_lots_of r v) (match_lots_of-own_side r v p found own)
    where
      total : sum ≡ p.balance +ℤ r.quantity_filled
      total = exact.add_exact _ _ _ adds

      booked :
          (c : Result InventoryError (Unit {0}) × InventoryManager)
          → (c.0 ≡ ok tt) × Holds (stored_key r.symbol) sum c.1
          → let after = elim c.0 as (λ _. Result InventoryError (Unit {0}) × InventoryManager) [
            | ok _ ↦ (ok tt, announce_cancelled r c.1)
            | err e ↦ (err e, c.1)
          ] in
            (after.0 ≡ ok tt) × Holds (base_asset r.symbol) (p.balance +ℤ r.quantity_filled) after.1
      booked (ok _, v') (fine, held) = (
        refl,
        announced-Holds r (base_asset r.symbol) (p.balance +ℤ r.quantity_filled) v'
            (rw (one_base, total) at held),
      )
      booked (err e, v') (fine, held) = absurd (ground arith)

      go :
          (m : Result InventoryError (Option Amount) × InventoryManager)
          → (m.0 ≡ ok (some r.quantity_filled))
            × (find_symbol (base_asset r.symbol) m.1.positions
                ≡ some (record p { closed_lots = [] }))
          → let after = (elim m.0 as (λ _. Result InventoryError (Unit {0}) × InventoryManager) [
            | ok unmatched ↦ (open_unmatched r unmatched >>= λ _. modify (announce_cancelled r)) m.1
            | err e ↦ (err e, m.1)
          ]) in
            (after.0 ≡ ok tt) × Holds (base_asset r.symbol) (p.balance +ℤ r.quantity_filled) after.1
      go (ok none, v') (fine, here) = absurd (ground arith)
      go (ok (some quantity), v') (fine, here) =
          let same : quantity ≡ r.quantity_filled = cc in
          rw same (
            booked (create_lot_of r r.quantity_filled v') (
              create_lot_of-Holds r r.quantity_filled sum v' (record p { closed_lots = [] })
                (rw one_base here) adds))
      go (err e, v') (fine, here) = absurd (ground arith)
