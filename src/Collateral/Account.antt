-- ===== src/Collateral/Account.antt =====
-- src/collateral/collateral_position.rs, `CollateralPosition`: the two sides of a user's account.
use index_maker.Prelude.{if◌then◌else◌, ℕ, Option, none, some, ok, err, Action, ◌>>◌}
use index_maker.Prelude.Int.{ℤ, -ℤ◌, ltb_ℤ}
use index_maker.Decimal.{Amount, Decimal, safe_sub}
use index_maker.Bits.{Side, buy, sell}
use index_maker.Collateral.Confirm.{confirm_payment}
use index_maker.Collateral.Side.{
  CollateralSide, PreAuthStatus, not_enough_ready, ConfirmStatus, not_enough_preauth, Stop,
  no_result, Attempt, new_side, open_lot, add_ready, preauth_payment,
}

pub record CollateralPosition : Type 0 where
  pub chain_id : ℕ
  pub address : ℕ
  pub side_cr : CollateralSide
  pub side_dr : CollateralSide
  pub created_timestamp : ℤ
  pub last_update_timestamp : ℤ

abbrev pub OnAccount : Type 0 → Type 0
OnAccount A = Action CollateralPosition Stop A

-- `CollateralPosition::new`
unfoldable pub new_account : ℕ → ℕ → ℤ → CollateralPosition
new_account chain_id address timestamp = record {
  chain_id = chain_id;
  address = address;
  side_cr = new_side timestamp;
  side_dr = new_side timestamp;
  created_timestamp = timestamp;
  last_update_timestamp = timestamp;
}

abbrev pub get_side : Side → CollateralPosition → CollateralSide
get_side buy p = p.side_cr
get_side sell p = p.side_dr

abbrev pub put_side : Side → CollateralSide → CollateralPosition → CollateralPosition
put_side buy side p = record p { side_cr = side }
put_side sell side p = record p { side_dr = side }

-- What is called on `get_side_mut(side)`.
unfoldable pub on_side : {A : Type 0} → Side → Attempt A → OnAccount A
on_side side f p = let (r, s) = f (get_side side p) in (r, put_side side s p)

abbrev pub touch : ℤ → OnAccount (Unit {0})
touch timestamp p = (ok tt, record p { last_update_timestamp = timestamp })

module _ ⦃d : Decimal⦄ where
  -- `CollateralPosition::deposit`
  unfoldable pub deposit : ℕ → Option ℕ → Amount → ℤ → OnAccount (Unit {0})
  deposit payment_id seq_num amount timestamp = do
    on_side buy (open_lot payment_id seq_num amount timestamp)
    touch timestamp

  -- `CollateralPosition::withdraw`
  unfoldable pub withdraw : ℕ → Amount → ℤ → OnAccount (Unit {0})
  withdraw payment_id amount timestamp = do
    on_side sell (open_lot payment_id none amount timestamp)
    touch timestamp

  -- `CollateralPosition::add_ready`
  unfoldable pub add_ready_on : Side → Amount → ℤ → Amount → OnAccount (Unit {0})
  add_ready_on side amount timestamp zero_threshold =
      on_side side (add_ready amount timestamp zero_threshold)

  -- `CollateralPosition::preauth_payment` on its side; `next_payment_id` has answered `payment_id`.
  unfoldable pub preauth_if_ready : ℕ → ℕ → ℤ → Amount → Amount → Attempt PreAuthStatus
  preauth_if_ready client_order_id payment_id timestamp amount_payable zero_threshold side =
      elim (safe_sub side.ready_balance amount_payable) [
        | none ↦ (err no_result, side)
        | some remaining ↦
            if ltb_ℤ remaining (-ℤ◌ zero_threshold)
            then (ok not_enough_ready, side)
            else preauth_payment client_order_id payment_id timestamp amount_payable zero_threshold
                side
      ]

  -- `CollateralPosition::confirm_payment` on its side.
  unfoldable pub confirm_if_preauth : ℕ → ℤ → Amount → Amount → Attempt ConfirmStatus
  confirm_if_preauth payment_id timestamp amount_paid zero_threshold side =
      elim (safe_sub side.preauth_balance amount_paid) [
        | none ↦ (err no_result, side)
        | some remaining ↦
            if ltb_ℤ remaining (-ℤ◌ zero_threshold)
            then (ok not_enough_preauth, side)
            else confirm_payment payment_id timestamp amount_paid zero_threshold side
      ]

  -- `CollateralPosition::preauth_payment`
  unfoldable pub preauth_on : ℕ → ℕ → ℤ → Side → Amount → Amount → OnAccount PreAuthStatus
  preauth_on client_order_id payment_id timestamp side amount_payable zero_threshold =
      on_side side
        (preauth_if_ready client_order_id payment_id timestamp amount_payable zero_threshold)

  -- `CollateralPosition::confirm_payment`
  unfoldable pub confirm_on : ℕ → ℤ → Side → Amount → Amount → OnAccount ConfirmStatus
  confirm_on payment_id timestamp side amount_paid zero_threshold =
      on_side side (confirm_if_preauth payment_id timestamp amount_paid zero_threshold)
