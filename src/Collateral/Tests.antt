-- ===== src/Collateral/Tests.antt =====
-- collateral_position.rs and arcswaputil.rs at concrete inputs: the repository's own unit test, and
-- the theorems' instances. Amounts are in units of 0.0001, which is the threshold.
use index_maker.Prelude.{ℕ, ◌+◌, ◌≡◌, refl, some, List, [], ◌∷◌, map, ok, Action}
use index_maker.Prelude.Int.{pos, ◌+ℤ◌, ◌-ℤ◌, -ℤ◌}
use index_maker.Decimal.{Amount, Decimal, bounded, fixed_scale, fixed_scale-IsExact}
use index_maker.Bits.{buy}
use index_maker.Collateral.Account.{
  CollateralPosition, new_account, on_side, deposit, add_ready_on, preauth_if_ready,
  confirm_if_preauth, preauth_on, confirm_on,
}
use index_maker.Collateral.Accounted.{
  AreAccounted, Request, deposits, readies, preauths, confirms, perform, serve, serve-AreAccounted,
}
use index_maker.Collateral.Confirm.{
  spends_of, gather, cover_spends, spend_each, spend_some, book_lot, finish_lot, spend_lot_found,
  spend_lot, spend_lots, spend_part_found, spend_part, at_index, remove_lot, close_lots, book_spent,
  spend_next, settle, confirm_found, confirm_payment,
}
use index_maker.Collateral.Side.{
  CollateralLot, CollateralSide, Stop, new_side, is_booked, each_first, update_at, open_lot, cover,
  shifted, take_from_lots, confirm_part, confirm_whole, book_ready, add_ready, preauth_part,
  preauth_whole, book_preauth, preauth_payment,
}
use index_maker.Collateral.Totals.{total}
use index_maker.SafeUpdate.{ArcSwap, interfere, try_swap, swapped, safe_update}
use index_maker.SafeUpdate.Atomic.{Atomic, safe_update-Atomic}

instance checked_ops : Decimal
checked_ops = fixed_scale

abbrev opened : ArcSwap CollateralPosition
unfolding new_account new_side
opened = record { version = 0; value = new_account 1 5 (pos 0) }

-- `test_collateral_position`, "partial all": deposit 1000, ready 900, preauth 800, confirm 500.
abbrev partial_all : List Request
partial_all =
    deposits 1 (some 1) (pos 10000000) (pos 1)
    ∷ readies buy (pos 9000000) (pos 2) (pos 1)
    ∷ preauths 7 2 (pos 3) buy (pos 8000000) (pos 1)
    ∷ confirms 2 (pos 4) buy (pos 5000000) (pos 1)
    ∷ []

abbrev balances_of : CollateralSide → Amount × Amount × Amount × Amount
balances_of side =
    (side.unconfirmed_balance, side.ready_balance, side.preauth_balance, side.spent_balance)

abbrev amounts_of : CollateralLot → Amount × Amount × Amount × Amount
amounts_of lot = (lot.unconfirmed_amount, lot.ready_amount, lot.preauth_amount, lot.spent_amount)

partial_all_runs :
    (balances_of (serve partial_all opened).value.side_cr
      ≡ (pos 1000000, pos 1000000, pos 3000000, pos 5000000))
    × (map amounts_of (serve partial_all opened).value.side_cr.open_lots
        ≡ (pos 1000000, pos 1000000, pos 3000000, pos 5000000) ∷ [])
unfolding checked_ops fixed_scale bounded ◌+ℤ◌ ◌-ℤ◌ -ℤ◌ new_account new_side serve perform
    safe_update swapped deposit on_side open_lot is_booked add_ready_on add_ready take_from_lots
    cover each_first update_at shifted confirm_part confirm_whole book_ready preauth_on
    preauth_if_ready preauth_payment preauth_part preauth_whole book_preauth confirm_on
    confirm_if_preauth confirm_payment cover_spends spends_of confirm_found spend_lots spend_lot
    spend_lot_found spend_each gather spend_next spend_part spend_part_found spend_some finish_lot
    book_lot at_index settle close_lots remove_lot book_spent
partial_all_runs = (refl, refl)

-- The rest of the payment, confirmed later: the balance moves and the lot does not, since the first
-- confirmation has cleared the spend.
confirm_rest_runs :
    (balances_of
        (serve
          (confirms 2 (pos 5) buy (pos 3000000) (pos 1) ∷ [])
          (serve partial_all opened)).value.side_cr
      ≡ (pos 1000000, pos 1000000, pos 0, pos 8000000))
    × (map amounts_of
          (serve
            (confirms 2 (pos 5) buy (pos 3000000) (pos 1) ∷ [])
            (serve partial_all opened)).value.side_cr.open_lots
        ≡ (pos 1000000, pos 1000000, pos 3000000, pos 5000000) ∷ [])
unfolding checked_ops fixed_scale bounded ◌+ℤ◌ ◌-ℤ◌ -ℤ◌ new_account new_side serve perform
    safe_update swapped deposit on_side open_lot is_booked add_ready_on add_ready take_from_lots
    cover each_first update_at shifted confirm_part confirm_whole book_ready preauth_on
    preauth_if_ready preauth_payment preauth_part preauth_whole book_preauth confirm_on
    confirm_if_preauth confirm_payment cover_spends spends_of confirm_found spend_lots spend_lot
    spend_lot_found spend_each gather spend_next spend_part spend_part_found spend_some finish_lot
    book_lot at_index settle close_lots remove_lot book_spent
confirm_rest_runs = (refl, refl)

serve-AreAccounted_example : AreAccounted (serve partial_all opened).value
unfolding checked_ops new_account new_side total ◌+ℤ◌
serve-AreAccounted_example = serve-AreAccounted fixed_scale-IsExact partial_all opened (refl, refl)

abbrev increment : Action ℕ Stop ℕ
increment n = (ok n, n + 1)

abbrev shared : ArcSwap ℕ
shared = record { version = 0; value = 10 }

-- Another writer comes first; the increment is then computed from its value.
safe_update_runs :
    safe_update increment ((20 ∷ []) ∷ []) shared ≡ (ok 20, record { version = 2; value = 21 })
unfolding safe_update try_swap swapped interfere
safe_update_runs = refl

safe_update-Atomic_example :
    (k : ℕ) × Atomic increment
      ((20 ∷ []) ∷ [])
      shared
      (safe_update increment ((20 ∷ []) ∷ []) shared)
      k
safe_update-Atomic_example = safe_update-Atomic increment ((20 ∷ []) ∷ []) shared
