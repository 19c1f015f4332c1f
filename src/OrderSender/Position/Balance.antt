-- ===== src/OrderSender/Position/Balance.antt =====
-- position.rs: the balance of a position against the quantities of its open lots.
use index_maker.Prelude.{
  Option-cases, ◌≡◌, refl, sym, ◌∙◌, inl, inr, List, [], ◌∷◌, ◌++◌, Result, ok, err,
}
use index_maker.Prelude.Int.{◌+ℤ◌, int_laws}
use index_maker.Decimal.{Amount, zero_amount, Decimal, IsExact, safe_add}
use index_maker.OrderSender.Position.{Lot, Position, PositionError, Fill, opened_lot, create_lot}

-- The quantity that the open lots hold.
unfoldable pub total_open : List Lot → Amount
total_open [] = zero_amount
total_open (lot ∷ lots) = lot.remaining_quantity +ℤ total_open lots

-- The balance is what the open lots hold.
abbrev pub IsBalanced : Position → Type 0
IsBalanced p = p.balance ≡ total_open p.open_lots

pub total_open-append : (xs ys : List Lot) → total_open (xs ++ ys) ≡ total_open xs +ℤ total_open ys
unfolding total_open
total_open-append [] ys = omega int_laws
total_open-append (x ∷ xs) ys = rw (total_open-append xs ys) (omega int_laws)

-- What `create_lot` leaves: by how it ended.
abbrev pub Created : Position → Fill → Result PositionError (Unit {0}) × Position → Type 0
Created p f (ok _, p') = IsBalanced p' × (p'.balance ≡ p.balance +ℤ f.quantity_filled)
Created p f (err _, p') =
    (p'.balance ≡ p.balance) × (total_open p'.open_lots ≡ p.balance +ℤ f.quantity_filled)

held :
    (f : Fill) (p : Position)
    → IsBalanced p
    → total_open (p.open_lots ++ opened_lot f ∷ []) ≡ p.balance +ℤ f.quantity_filled
unfolding total_open
held f p b = rw (total_open-append p.open_lots (opened_lot f ∷ []), ← b) (omega int_laws)

module _ ⦃d : Decimal⦄ (exact : IsExact d) where
  -- From a balanced position with exact arithmetic, a fill that is booked, a purchase or a sale, leaves
  -- the position balanced with the fill added, though a comment of the source expects the balance of a
  -- short position to be below zero; on an overflow the lot stays booked and the balance does not
  -- follow.
  pub create_lot-Created : (f : Fill) (p : Position) → IsBalanced p → Created p f (create_lot f p)
  unfolding create_lot total_open
  create_lot-Created f p b = elim (Option-cases (safe_add p.balance f.quantity_filled)) [
    | inl overflow ↦ rw (overflow, create_lot, Created) (refl, held f p b)
    | inr (c, sum) ↦
        let same : c ≡ p.balance +ℤ f.quantity_filled = exact.add_exact _ _ _ sum in
        rw (sum, create_lot, Created) (same ∙ sym (held f p b), same)
  ]
