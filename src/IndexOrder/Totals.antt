-- ===== src/IndexOrder/Totals.antt =====
-- index_order.rs: the collateral that the updates of an order still hold, and what a match does to it.
use index_maker.Prelude.{ℕ, suc, ◌≡◌, refl, Option, none, some, List, [], ◌∷◌, drop}
use index_maker.Prelude.Int.{◌+ℤ◌, ◌-ℤ◌, ◌≤ℤ◌, int_laws, -ℤ◌}
use index_maker.Decimal.{Amount, zero_amount}
use index_maker.IndexOrder.Update.{IndexOrderUpdate}

unfoldable pub remaining_total : List IndexOrderUpdate → Amount
remaining_total [] = zero_amount
remaining_total (u ∷ us) = u.remaining_collateral +ℤ remaining_total us

-- `a` and `b` differ by at most the tolerance.
abbrev pub Near : Amount → Amount → Amount → Type 0
Near tolerance a b = (a ≤ℤ b +ℤ tolerance) × (b ≤ℤ a +ℤ tolerance)

-- What was taken of the updates and what is left of the amount make up the amount: exactly if
-- something is left, and up to the tolerance if nothing is.
abbrev pub Shifted : Amount → Amount → Amount → Amount → Option Amount → Type 0
Shifted tolerance amount before after (some left) = before +ℤ left ≡ after +ℤ amount
Shifted tolerance amount before after none = Near tolerance before (after +ℤ amount)

-- The updates when a walk from their front has used `k` of them up and may have replaced the next.
abbrev pub walked : Option IndexOrderUpdate → ℕ → List IndexOrderUpdate → List IndexOrderUpdate
walked none k us = drop k us
walked (some u) k us = u ∷ drop 1 (drop k us)

pub walked-suc :
    (o : Option IndexOrderUpdate) (k : ℕ) (u : IndexOrderUpdate) (us : List IndexOrderUpdate)
    → walked o (suc k) (u ∷ us) ≡ walked o k us
walked-suc none k u us = refl
walked-suc (some v) k u us = refl

-- One update is used up, and then the others are walked with what is left.
pub Shifted-then :
    (tolerance amount future remaining before after : Amount) (result : Option Amount)
    → future ≡ remaining -ℤ amount
    → Shifted tolerance (-ℤ◌ future) before after result
    → Shifted tolerance amount (remaining +ℤ before) after result
Shifted-then tol amount future remaining before after none e s = (omega int_laws, omega int_laws)
Shifted-then tol amount future remaining before after (some left) e s = omega int_laws
