-- ===== src/Collateral/Side.antt =====
-- src/collateral/collateral_position.rs, `CollateralSide`: lots of collateral move from unconfirmed
-- to ready, to pre-authorised, to spent. A method that answers `None` may have written already.
use index_maker.Prelude.{
  ◌==◌, if◌then◌else◌, ℕ, zero, suc, ◌+◌, Bool, true, false, ◌||◌, Option, none, some, List, [],
  ◌∷◌, ◌++◌, any, ok, err, Action, ◌>>◌, FoldWhile, continue, done,
}
use index_maker.Prelude.Int.{ℤ, -ℤ◌, ltb_ℤ}
use index_maker.Decimal.{Amount, zero_amount, Decimal, safe_add, safe_sub}

pub record CollateralSpend : Type 0 where
  pub client_order_id : ℕ
  pub payment_id : ℕ
  pub preauth_amount : Amount
  pub spent_amount : Amount
  pub timestamp : ℤ

pub record CollateralLot : Type 0 where
  pub payment_id : ℕ
  pub seq_num : Option ℕ
  pub unconfirmed_amount : Amount
  pub ready_amount : Amount
  pub preauth_amount : Amount
  pub spent_amount : Amount
  pub created_timestamp : ℤ
  pub last_update_timestamp : ℤ
  pub spends : List CollateralSpend

pub record CollateralSide : Type 0 where
  pub unconfirmed_balance : Amount
  pub ready_balance : Amount
  pub preauth_balance : Amount
  pub spent_balance : Amount
  pub open_lots : List CollateralLot
  pub closed_lots : List CollateralLot
  pub created_timestamp : ℤ
  pub last_update_timestamp : ℤ

-- Both enums call the second constructor `NotEnoughFunds`.
pub data PreAuthStatus : Type 0 where
  approved : ℕ → PreAuthStatus
  not_enough_ready : PreAuthStatus

pub data ConfirmStatus : Type 0 where
  authorized : List ℕ → ConfirmStatus
  not_enough_preauth : ConfirmStatus

-- How a method that returns `Option` ends without a result: with `None`, or with a panic, as of
-- `sum` on an overflow.
pub data Stop : Type 0 where
  no_result panicked : Stop

abbrev pub Attempt : Type 0 → Type 0
Attempt A = Action CollateralSide Stop A

-- `CollateralLot::new`
abbrev pub new_lot : ℕ → Option ℕ → Amount → ℤ → CollateralLot
new_lot payment_id seq_num amount timestamp = record {
  payment_id = payment_id;
  seq_num = seq_num;
  unconfirmed_amount = amount;
  ready_amount = zero_amount;
  preauth_amount = zero_amount;
  spent_amount = zero_amount;
  created_timestamp = timestamp;
  last_update_timestamp = timestamp;
  spends = [];
}

-- `CollateralSide::new`
unfoldable pub new_side : ℤ → CollateralSide
new_side timestamp = record {
  unconfirmed_balance = zero_amount;
  ready_balance = zero_amount;
  preauth_balance = zero_amount;
  spent_balance = zero_amount;
  open_lots = [];
  closed_lots = [];
  created_timestamp = timestamp;
  last_update_timestamp = timestamp;
}

abbrev has_seq_num : ℕ → CollateralLot → Bool
has_seq_num n lot = elim lot.seq_num [ none ↦ false | some s ↦ s == n ]

-- The test of `open_lot` that the deposit is already booked.
unfoldable pub is_booked : Option ℕ → CollateralSide → Bool
is_booked none side = false
is_booked (some n) side = any (has_seq_num n) (side.open_lots ++ side.closed_lots)

-- `for lot in open_lots.iter_mut().take(n)`, with a body that may leave by `?`.
unfoldable pub each_first :
    (CollateralLot → Option CollateralLot) → ℕ → List CollateralLot → Bool × List CollateralLot
each_first f zero lots = (true, lots)
each_first f (suc n) [] = (true, [])
each_first f (suc n) (lot ∷ lots) = elim (f lot) [
  | none ↦ (false, lot ∷ lots)
  | some lot' ↦ let (finished, lots') = each_first f n lots in (finished, lot' ∷ lots')
]

-- `let lot = &mut self.open_lots[n]`, with an update that may leave by `?`.
unfoldable pub update_at :
    (CollateralLot → Option CollateralLot) → ℕ → List CollateralLot → Option (List CollateralLot)
update_at f n [] = none
update_at f zero (lot ∷ lots) = elim (f lot) [ none ↦ none | some lot' ↦ some (lot' ∷ lots) ]
update_at f (suc n) (lot ∷ lots) = elim (update_at f n lots) [
  | none ↦ none
  | some lots' ↦ some (lot ∷ lots')
]

module _ ⦃d : Decimal⦄ where
  -- `CollateralSide::open_lot`: the lot is stored before the balance is computed.
  unfoldable pub open_lot : ℕ → Option ℕ → Amount → ℤ → Attempt (Unit {0})
  unfolding is_booked
  open_lot payment_id seq_num amount timestamp side =
      if is_booked seq_num side
      then (ok tt, side)
      else (let stored = record side {
        open_lots = side.open_lots ++ new_lot payment_id seq_num amount timestamp ∷ [];
      } in
          elim (safe_add side.unconfirmed_balance amount) [
            | none ↦ (err no_result, stored)
            | some balance ↦ (
              ok tt,
              record stored { unconfirmed_balance = balance; last_update_timestamp = timestamp },
            )
          ])

  -- The `fold_while` of `add_ready` and `preauth_payment`: how much is still to take, and how many
  -- lots are taken whole, `held` being what a lot can give.
  unfoldable pub cover :
      (CollateralLot → Amount)
      → Amount
      → List CollateralLot
      → Amount
      → ℕ
      → FoldWhile (Option (Amount × ℕ))
  cover held zero_threshold [] amount n = continue (some (amount, n))
  cover held zero_threshold (lot ∷ lots) amount n = elim (safe_sub amount (held lot)) [
    | none ↦ done none
    | some remaining ↦
        let rest = cover held zero_threshold lots remaining (n + 1) in
        if ltb_ℤ (-ℤ◌ zero_threshold) remaining then rest else done (some (amount, n))
  ]

  -- A new balance pair, unless one would be negative beyond the threshold.
  abbrev pub checked : Amount → Amount → Amount → Option (Amount × Amount)
  checked zero_threshold a b =
      if ltb_ℤ a (-ℤ◌ zero_threshold) || ltb_ℤ b (-ℤ◌ zero_threshold) then none else some (a, b)

  -- `from - amount` and `to + amount`.
  unfoldable pub shifted : Amount → Amount → Amount → Amount → Option (Amount × Amount)
  shifted zero_threshold from to amount = elim (safe_add to amount) [
    | none ↦ none
    | some to' ↦ elim (safe_sub from amount) [
      | none ↦ none
      | some from' ↦ checked zero_threshold from' to'
    ]
  ]

  -- The lots part of `add_ready` and of `preauth_payment`: first the lot that gives a part, if the
  -- walk stopped at one, then the lots before it, which give all.
  unfoldable pub take_from_lots :
      (Amount → CollateralLot → Option CollateralLot)
      → (CollateralLot → Option CollateralLot)
      → FoldWhile (Option (Amount × ℕ))
      → Attempt (Unit {0})
  take_from_lots part whole (continue none) side = (err no_result, side)
  take_from_lots part whole (done none) side = (err no_result, side)
  take_from_lots part whole (continue (some (amount, n))) side =
      let (finished, lots) = each_first whole n side.open_lots in
      (if finished then ok tt else err no_result, record side { open_lots = lots })
  take_from_lots part whole (done (some (amount, n))) side =
      elim (update_at (part amount) n side.open_lots) [
        | none ↦ (err no_result, side)
        | some lots₁ ↦
            let (finished, lots) = each_first whole n lots₁ in
            (if finished then ok tt else err no_result, record side { open_lots = lots })
      ]

  -- `add_ready` on a lot that is confirmed in part.
  unfoldable pub confirm_part : Amount → Amount → CollateralLot → Option CollateralLot
  confirm_part zero_threshold amount lot =
      elim (shifted zero_threshold lot.unconfirmed_amount lot.ready_amount amount) [
        | none ↦ none
        | some (unconfirmed, ready) ↦
            some (record lot { unconfirmed_amount = unconfirmed; ready_amount = ready })
      ]

  -- `add_ready` on a lot that is confirmed whole.
  unfoldable pub confirm_whole : ℤ → CollateralLot → Option CollateralLot
  confirm_whole timestamp lot = elim (safe_add lot.ready_amount lot.unconfirmed_amount) [
    | none ↦ none
    | some ready ↦ some (record lot {
      unconfirmed_amount = zero_amount;
      ready_amount = ready;
      last_update_timestamp = timestamp;
    })
  ]

  abbrev pub unconfirmed_of : CollateralLot → Amount
  unconfirmed_of lot = lot.unconfirmed_amount

  abbrev pub ready_of : CollateralLot → Amount
  ready_of lot = lot.ready_amount

  -- The balances of `add_ready`.
  unfoldable pub book_ready : Amount → ℤ → Amount → Attempt (Unit {0})
  book_ready amount timestamp zero_threshold side =
      elim (shifted zero_threshold side.unconfirmed_balance side.ready_balance amount) [
        | none ↦ (err no_result, side)
        | some (unconfirmed, ready) ↦ (
          ok tt,
          record side {
            unconfirmed_balance = unconfirmed;
            ready_balance = ready;
            last_update_timestamp = timestamp;
          },
        )
      ]

  -- `CollateralSide::add_ready`
  unfoldable pub add_ready : Amount → ℤ → Amount → Attempt (Unit {0})
  add_ready amount_deliverable timestamp zero_threshold side =
      (take_from_lots (confirm_part zero_threshold) (confirm_whole timestamp)
            (cover unconfirmed_of zero_threshold side.open_lots amount_deliverable 0)
          >> book_ready amount_deliverable timestamp zero_threshold)
        side

  -- The record that a pre-authorisation leaves on a lot.
  abbrev pub new_spend : ℕ → ℕ → Amount → ℤ → CollateralSpend
  new_spend client_order_id payment_id amount timestamp = record {
    client_order_id = client_order_id;
    payment_id = payment_id;
    preauth_amount = amount;
    spent_amount = zero_amount;
    timestamp = timestamp;
  }

  unfoldable pub preauth_part : ℕ → ℕ → ℤ → Amount → Amount → CollateralLot → Option CollateralLot
  preauth_part client_order_id payment_id timestamp zero_threshold amount lot =
      elim (shifted zero_threshold lot.ready_amount lot.preauth_amount amount) [
        | none ↦ none
        | some (ready, preauth) ↦ some (record lot {
          ready_amount = ready;
          preauth_amount = preauth;
          spends = lot.spends ++ new_spend client_order_id payment_id amount timestamp ∷ [];
        })
      ]

  unfoldable pub preauth_whole : ℕ → ℕ → ℤ → CollateralLot → Option CollateralLot
  preauth_whole client_order_id payment_id timestamp lot =
      elim (safe_add lot.preauth_amount lot.ready_amount) [
        | none ↦ none
        | some preauth ↦ some (record lot {
          ready_amount = zero_amount;
          preauth_amount = preauth;
          last_update_timestamp = timestamp;
          spends =
              lot.spends ++ new_spend client_order_id payment_id lot.ready_amount timestamp ∷ [];
        })
      ]

  unfoldable pub book_preauth : ℕ → Amount → Amount → Attempt PreAuthStatus
  book_preauth payment_id amount zero_threshold side =
      elim (shifted zero_threshold side.ready_balance side.preauth_balance amount) [
        | none ↦ (err no_result, side)
        | some (ready, preauth) ↦ (
          ok (approved payment_id),
          record side { ready_balance = ready; preauth_balance = preauth },
        )
      ]

  -- `CollateralSide::preauth_payment`
  unfoldable pub preauth_payment : ℕ → ℕ → ℤ → Amount → Amount → Attempt PreAuthStatus
  preauth_payment client_order_id payment_id timestamp amount_payable zero_threshold side =
      (take_from_lots (preauth_part client_order_id payment_id timestamp zero_threshold)
            (preauth_whole client_order_id payment_id timestamp)
            (cover ready_of zero_threshold side.open_lots amount_payable 0)
          >> book_preauth payment_id amount_payable zero_threshold)
        side
