-- ===== src/OrderSender/Position/Defect.antt =====
-- position.rs, `match_lots`: the commit drains the wrong end of the open lots. `drain(n..)` removes
-- what stands from place n on, so that the closed lots stay and the others go.
use index_maker.Prelude.{◌≡◌, sym, ap, ◌∙◌, false, some, List, [], ◌∷◌, arith}
use index_maker.Prelude.Int.{◌+ℤ◌, ◌-ℤ◌, -ℤ◌, ◌≤ℤ◌, ◌<ℤ◌, int_laws}
use index_maker.Decimal.{Amount, zero_amount, Decimal, IsExact, safe_sub}
use index_maker.Bits.{side_eq}
use index_maker.OrderSender.Position.{
  Lot, Position, Fill, updated_lot, take_lot, book_taken, match_lot, match_loop, commit, match_lots,
}
use index_maker.OrderSender.Position.Balance.{total_open, IsBalanced}

-- The position before a match, with its front lot shown.
abbrev pub fronted : Position → Lot → List Lot → Position
fronted p lot rest = record p { open_lots = lot ∷ rest }

module _ ⦃d : Decimal⦄ (f : Fill) (tolerance : Amount) (p : Position) (lot : Lot) (rest : List Lot)
    (opposite : side_eq p.side f.side ≡ false) where
  front_only :
      (remaining balance : Amount)
      → safe_sub lot.remaining_quantity f.quantity_filled ≡ some remaining
      → safe_sub p.balance f.quantity_filled ≡ some balance
      → tolerance ≤ℤ remaining
      → let p' = (match_lots f tolerance (fronted p lot rest)).1 in
        (p'.open_lots ≡ updated_lot f lot f.quantity_filled remaining ∷ []) × (p'.balance ≡ balance)
  unfolding match_lots match_loop match_lot book_taken take_lot commit
  front_only remaining balance s b h = (ground arith, ground arith)

  -- A fill that leaves at least the tolerance on the front lot of a balanced position, with exact
  -- arithmetic and no overflow: the front lot is all that stays open, and the balance exceeds what
  -- the open lots hold by all that the other lots held.
  pub match_lots-loses_rest :
      IsExact d
      → (remaining balance : Amount)
      → safe_sub lot.remaining_quantity f.quantity_filled ≡ some remaining
      → safe_sub p.balance f.quantity_filled ≡ some balance
      → tolerance ≤ℤ remaining
      → IsBalanced (fronted p lot rest)
      → let p' = (match_lots f tolerance (fronted p lot rest)).1 in
        (p'.open_lots ≡ updated_lot f lot f.quantity_filled remaining ∷ [])
        × (p'.balance ≡ total_open p'.open_lots +ℤ total_open rest)
  unfolding total_open
  match_lots-loses_rest exact remaining balance s b h balanced =
      let (front, left) = front_only remaining balance s b h in
      let minus : remaining ≡ lot.remaining_quantity -ℤ f.quantity_filled =
        exact.sub_exact _ _ _ s in
      let less : balance ≡ p.balance -ℤ f.quantity_filled = exact.sub_exact _ _ _ b in
      let held : balance ≡ remaining +ℤ zero_amount +ℤ total_open rest = omega int_laws in
      (front, left ∙ held ∙ ap (λ lots. total_open lots +ℤ total_open rest) (sym front))

  -- A fill that uses the front lot up, within the tolerance: the lot is reported as closed and yet
  -- stays open with the quantity that it had, and every other lot is gone.
  pub match_lots-keeps_closed :
      (remaining balance : Amount)
      → safe_sub lot.remaining_quantity f.quantity_filled ≡ some remaining
      → safe_sub p.balance lot.remaining_quantity ≡ some balance
      → remaining <ℤ tolerance
      → -ℤ◌ tolerance ≤ℤ remaining
      → let p' = (match_lots f tolerance (fronted p lot rest)).1 in
        (p'.open_lots ≡ lot ∷ [])
        × (p'.closed_lots ≡ updated_lot f lot lot.remaining_quantity zero_amount ∷ [])
  unfolding match_lots match_loop match_lot book_taken take_lot commit
  match_lots-keeps_closed remaining balance s b h k = ground arith
