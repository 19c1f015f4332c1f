-- ===== src/Collateral/Confirm.antt =====
-- src/collateral/collateral_position.rs, `CollateralSide::confirm_payment`: the pre-authorised
-- spends of a payment become spent, lot by lot.
-- `sum` over the spends of the payment; `none` is an overflow, which panics.
use index_maker.Prelude.{
  ◌==◌, if◌then◌else◌, ℕ, zero, suc, ◌+◌, Bool, true, false, ◌&&◌, Option, none, some, List, [],
  ◌∷◌, ◌++◌, Result, ok, err, Action, pure, FoldWhile, continue, done, ◌>>=◌, ◌>>◌,
}
use index_maker.Prelude.Int.{ℤ, -ℤ◌, ltb_ℤ}
use index_maker.Decimal.{Amount, zero_amount, Decimal, safe_add, safe_sub}
use index_maker.Collateral.Side.{
  CollateralSpend, CollateralLot, ConfirmStatus, authorized, Stop, no_result, panicked, Attempt,
  shifted,
}

unfoldable pub spends_of : ⦃d : Decimal⦄ → ℕ → List CollateralSpend → Amount → Option Amount
spends_of payment_id [] total = some total
spends_of payment_id (s ∷ ss) total = elim (s.payment_id == payment_id) [
  | false ↦ spends_of payment_id ss total
  | true ↦ elim (safe_add total s.preauth_amount) [
    | none ↦ none
    | some more ↦ spends_of payment_id ss more
  ]
]

-- What the lots are asked to do, with the state of one lot or of all open lots.
abbrev pub OnLot : Type 0 → Type 0
OnLot A = Action CollateralLot Stop A

abbrev pub OnLots : Type 0 → Type 0
OnLots A = Action (List CollateralLot) Stop A

-- What the first loop collects: the sequence numbers of lots that gave, and the lots to close.
pub record Collected : Type 0 where
  pub seq_nums : List ℕ
  pub closed_lots : List ℕ

abbrev seq_nums_of : Bool → CollateralLot → List ℕ
seq_nums_of false lot = []
seq_nums_of true lot = elim lot.seq_num [ none ↦ [] | some n ↦ n ∷ [] ]

-- Nothing is left on the lot but what is spent.
abbrev pub used_up : Amount → CollateralLot → Bool
used_up zero_threshold lot =
    ltb_ℤ lot.unconfirmed_amount zero_threshold
    && ltb_ℤ lot.ready_amount zero_threshold
    && ltb_ℤ lot.preauth_amount zero_threshold

abbrev pub spent_by : CollateralSpend → Amount → ℤ → CollateralSpend
spent_by s total timestamp = record s {
  preauth_amount = zero_amount;
  spent_amount = total;
  timestamp = timestamp;
}

-- A lot's result before those of the lots behind it, which are not reached after an error.
unfoldable pub gather :
    Result Stop Collected
    → CollateralLot
    → List CollateralLot
    → Result Stop Collected × List CollateralLot
    → Result Stop Collected × List CollateralLot
gather (err e) lot' lots rest = (err e, lot' ∷ lots)
gather (ok c) lot' lots (err e, lots') = (err e, lot' ∷ lots')
gather (ok c) lot' lots (ok cs, lots') = (
  ok (record {
    seq_nums = c.seq_nums ++ cs.seq_nums;
    closed_lots = c.closed_lots ++ cs.closed_lots;
  }),
  lot' ∷ lots',
)

module _ ⦃d : Decimal⦄ where
  -- The `fold_while` of `confirm_payment`.
  unfoldable pub cover_spends :
      ℕ → Amount → List CollateralLot → Amount → ℕ → FoldWhile (Result Stop (Amount × ℕ))
  cover_spends payment_id zero_threshold [] amount n = continue (ok (amount, n))
  cover_spends payment_id zero_threshold (lot ∷ lots) amount n =
      elim (spends_of payment_id lot.spends zero_amount) [
        | none ↦ done (err panicked)
        | some held ↦ elim (safe_sub amount held) [
          | none ↦ done (err no_result)
          | some remaining ↦
              let rest = cover_spends payment_id zero_threshold lots remaining (n + 1) in
              if ltb_ℤ (-ℤ◌ zero_threshold) remaining then rest else done (ok (amount, n))
        ]
      ]

  -- The inner loop of the first loop: every spend of the payment is spent; how much that is.
  unfoldable pub spend_each : ℕ → ℤ → Amount → Action (List CollateralSpend) Stop Amount
  spend_each payment_id timestamp spent [] = (ok spent, [])
  spend_each payment_id timestamp spent (s ∷ ss) = elim (s.payment_id == payment_id) [
    | false ↦ let (r, ss') = spend_each payment_id timestamp spent ss in (r, s ∷ ss')
    | true ↦ elim (safe_add s.spent_amount s.preauth_amount) [
      | none ↦ (err no_result, s ∷ ss)
      | some total ↦ elim (safe_add spent s.preauth_amount) [
        | none ↦ (err no_result, spent_by s total timestamp ∷ ss)
        | some spent' ↦
            let (r, ss') = spend_each payment_id timestamp spent' ss in
            (r, spent_by s total timestamp ∷ ss')
      ]
    ]
  ]

  -- The inner loop on the lot that gives a part.
  unfoldable pub spend_some :
      ℕ → ℤ → Amount → Amount → Amount → Action (List CollateralSpend) Stop Amount
  spend_some payment_id timestamp zero_threshold amount spent [] = (ok spent, [])
  spend_some payment_id timestamp zero_threshold amount spent (s ∷ ss) =
      elim (s.payment_id == payment_id) [
        | false ↦
            let (r, ss') = spend_some payment_id timestamp zero_threshold amount spent ss in
            (r, s ∷ ss')
        | true ↦ elim (safe_sub amount spent) [
          | none ↦ (err no_result, s ∷ ss)
          | some left ↦ elim (safe_sub left s.preauth_amount) [
            | none ↦ (err no_result, s ∷ ss)
            | some after ↦
                let given = if ltb_ℤ zero_threshold after then s.preauth_amount else left in
                elim (safe_add s.spent_amount given) [
                  | none ↦ (err no_result, s ∷ ss)
                  | some total ↦ elim (safe_add spent given) [
                    | none ↦ (err no_result, spent_by s total timestamp ∷ ss)
                    | some spent' ↦
                        let (r, ss') =
                          spend_some payment_id timestamp zero_threshold amount spent' ss in
                        (r, spent_by s total timestamp ∷ ss')
                  ]
                ]
          ]
        ]
      ]

  -- `lot.preauth_amount - amount` and `lot.spent_amount + amount`.
  unfoldable pub book_lot : Amount → ℤ → CollateralLot → Option CollateralLot
  book_lot amount timestamp lot = elim (safe_add lot.spent_amount amount) [
    | none ↦ none
    | some spent ↦ elim (safe_sub lot.preauth_amount amount) [
      | none ↦ none
      | some preauth ↦ some (record lot {
        preauth_amount = preauth;
        spent_amount = spent;
        last_update_timestamp = timestamp;
      })
    ]
  ]

  -- What follows the loop over the spends of a lot, with how much they gave.
  unfoldable pub finish_lot : {A : Type 0} → Amount → ℤ → (CollateralLot → A) → OnLot A
  finish_lot amount timestamp answer lot = elim (book_lot amount timestamp lot) [
    | none ↦ (err no_result, lot)
    | some lot' ↦ (ok (answer lot'), lot')
  ]

  -- What the first loop adds to its two lists.
  abbrev collected : Amount → Amount → CollateralLot → Collected
  collected zero_threshold spent lot = record {
    seq_nums = seq_nums_of (ltb_ℤ zero_threshold spent) lot;
    closed_lots = if used_up zero_threshold lot then lot.payment_id ∷ [] else [];
  }

  unfoldable pub spend_lot_found : ℤ → Amount → Result Stop Amount → OnLot Collected
  spend_lot_found timestamp zero_threshold (err e) lot = (err e, lot)
  spend_lot_found timestamp zero_threshold (ok spent) lot =
      finish_lot spent timestamp (collected zero_threshold spent) lot

  -- The body of the first loop.
  unfoldable pub spend_lot : ℕ → ℤ → Amount → OnLot Collected
  spend_lot payment_id timestamp zero_threshold lot =
      let (r, spends) = spend_each payment_id timestamp zero_amount lot.spends in
      spend_lot_found timestamp zero_threshold r (record lot { spends = spends })

  -- `for lot in self.open_lots.iter_mut().take(n)`
  unfoldable pub spend_lots : ℕ → ℤ → Amount → ℕ → OnLots Collected
  spend_lots payment_id timestamp zero_threshold zero lots =
      (ok (record { seq_nums = []; closed_lots = [] }), lots)
  spend_lots payment_id timestamp zero_threshold (suc n) [] =
      (ok (record { seq_nums = []; closed_lots = [] }), [])
  spend_lots payment_id timestamp zero_threshold (suc n) (lot ∷ lots) =
      let (r, lot') = spend_lot payment_id timestamp zero_threshold lot in
      gather r lot' lots (spend_lots payment_id timestamp zero_threshold n lots)

  unfoldable pub spend_part_found : Amount → Amount → Result Stop Amount → OnLot (List ℕ)
  spend_part_found zero_threshold amount (err e) lot = (err e, lot)
  spend_part_found zero_threshold amount (ok spent) lot =
      finish_lot amount lot.last_update_timestamp (seq_nums_of (ltb_ℤ zero_threshold spent)) lot

  -- The lot that gives a part; its sequence number if it gave more than the threshold.
  unfoldable pub spend_part : ℕ → ℤ → Amount → Amount → OnLot (List ℕ)
  spend_part payment_id timestamp zero_threshold amount lot =
      let (r, spends) =
        spend_some payment_id timestamp zero_threshold amount zero_amount lot.spends in
      spend_part_found zero_threshold amount r (record lot { spends = spends })

-- `let lot = &mut self.open_lots[n]`, which panics out of range.
unfoldable pub at_index : {A : Type 0} → OnLot A → ℕ → OnLots A
at_index f n [] = (err panicked, [])
at_index f zero (lot ∷ lots) = let (r, lot') = f lot in (r, lot' ∷ lots)
at_index f (suc n) (lot ∷ lots) = let (r, lots') = at_index f n lots in (r, lot ∷ lots')

abbrev pub on_lots : {A : Type 0} → OnLots A → Attempt A
on_lots f side = let (r, lots) = f side.open_lots in (r, record side { open_lots = lots })

-- `find_position` and `remove`.
unfoldable pub remove_lot : ℕ → List CollateralLot → Option (CollateralLot × List CollateralLot)
remove_lot payment_id [] = none
remove_lot payment_id (lot ∷ lots) = elim (payment_id == lot.payment_id) [
  | true ↦ some (lot, lots)
  | false ↦ elim (remove_lot payment_id lots) [
    | none ↦ none
    | some (found, rest) ↦ some (found, lot ∷ rest)
  ]
]

-- `for lot_id in closed_lots`
unfoldable pub close_lots : List ℕ → Attempt (Unit {0})
close_lots [] side = (ok tt, side)
close_lots (lot_id ∷ ids) side = elim (remove_lot lot_id side.open_lots) [
  | none ↦ (err no_result, side)
  | some (lot, rest) ↦
      close_lots ids (record side { open_lots = rest; closed_lots = side.closed_lots ++ lot ∷ [] })
]

module _ ⦃d : Decimal⦄ where
  -- The balances of `confirm_payment`.
  unfoldable pub book_spent : Amount → Amount → Attempt (Unit {0})
  book_spent amount_paid zero_threshold side =
      elim (shifted zero_threshold side.preauth_balance side.spent_balance amount_paid) [
        | none ↦ (err no_result, side)
        | some (preauth, spent) ↦
            (ok tt, record side { preauth_balance = preauth; spent_balance = spent })
      ]

  -- `if res.is_done()`
  unfoldable pub spend_next : ℕ → ℤ → Amount → Option Amount → ℕ → Attempt (List ℕ)
  spend_next payment_id timestamp zero_threshold none n = pure []
  spend_next payment_id timestamp zero_threshold (some amount) n =
      on_lots (at_index (spend_part payment_id timestamp zero_threshold amount) n)

  -- The end of `confirm_payment`: the used up lots are closed and the balances booked.
  unfoldable pub settle : Amount → Amount → List ℕ → List ℕ → Attempt ConfirmStatus
  settle amount_paid zero_threshold lot_ids seq_nums = do
    close_lots lot_ids
    book_spent amount_paid zero_threshold
    pure (authorized seq_nums)

  -- `confirm_payment` once the scan has said how many lots give all, and what the next one gives.
  unfoldable pub confirm_found : ℕ → ℤ → Amount → Amount → Option Amount → ℕ → Attempt ConfirmStatus
  confirm_found payment_id timestamp amount_paid zero_threshold part n = do
    booked ← on_lots (spend_lots payment_id timestamp zero_threshold n)
    more ← spend_next payment_id timestamp zero_threshold part n
    settle amount_paid zero_threshold booked.closed_lots (booked.seq_nums ++ more)

  -- `CollateralSide::confirm_payment`
  unfoldable pub confirm_payment : ℕ → ℤ → Amount → Amount → Attempt ConfirmStatus
  confirm_payment payment_id timestamp amount_paid zero_threshold side =
      elim (cover_spends payment_id zero_threshold side.open_lots amount_paid 0) [
        | continue (err e) ↦ (err e, side)
        | done (err e) ↦ (err e, side)
        | continue (ok (amount, n)) ↦
            confirm_found payment_id timestamp amount_paid zero_threshold none n side
        | done (ok (amount, n)) ↦
            confirm_found payment_id timestamp amount_paid zero_threshold (some amount) n side
      ]
