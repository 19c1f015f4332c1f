-- ===== src/Collateral/Spent.antt =====
-- collateral_position.rs: `confirm_payment` moves collateral from pre-authorised to spent, and lots
-- from open to closed, and keeps what they hold.
use index_maker.Prelude.{
  ◌==◌, Bool-cases, Option-cases, ℕ, zero, suc, ◌≡◌, refl, sym, ap, ◌∙◌, inl, inr, Option, none,
  some, List, [], ◌∷◌, ◌++◌, Result, ok, err, pure, ◌>>=◌, ◌>>◌, FoldWhile, continue, done,
  bind_holds, of_some,
}
use index_maker.Prelude.Int.{ℤ, ◌+ℤ◌, int_laws}
use index_maker.Decimal.{Amount, zero_amount, Decimal, IsExact, safe_add, safe_sub}
use index_maker.Collateral.Confirm.{
  OnLot, OnLots, Collected, gather, cover_spends, spend_each, spend_some, book_lot, finish_lot,
  spend_lot_found, spend_lot, spend_lots, spend_part_found, spend_part, at_index, on_lots,
  remove_lot, close_lots, book_spent, spend_next, settle, confirm_found, confirm_payment,
}
use index_maker.Collateral.Side.{
  CollateralLot, CollateralSide, ConfirmStatus, authorized, Stop, shifted,
}
use index_maker.Collateral.Totals.{
  lot_total, total, Keeps, total-append, Preserves, Keeps-refl, shifted-exact,
}

module _ ⦃d : Decimal⦄ (exact : IsExact d) where
  book_lot-Preserves :
      (amount : Amount) (timestamp : ℤ) → Preserves lot_total (book_lot amount timestamp)
  unfolding book_lot
  book_lot-Preserves amount t lot lot' h = elim (Option-cases (safe_add lot.spent_amount amount)) [
    | inl stop ↦ cc
    | inr (spent, add) ↦ elim (Option-cases (safe_sub lot.preauth_amount amount)) [
      | inl stop ↦ cc
      | inr (preauth, sub) ↦
          let more = exact.add_exact lot.spent_amount amount spent add in
          let less = exact.sub_exact lot.preauth_amount amount preauth sub in
          rw (← of_some (rw (add, sub, book_lot) at h)) (omega int_laws)
    ]
  ]

  finish_lot-total :
      {A : Type 0} (amount : Amount) (timestamp : ℤ) (answer : CollateralLot → A)
      (lot : CollateralLot)
      → lot_total (finish_lot amount timestamp answer lot).1 ≡ lot_total lot
  unfolding finish_lot
  finish_lot-total amount t answer lot = elim (Option-cases (book_lot amount t lot)) [
    | inl stop ↦ rw (stop, finish_lot) refl
    | inr (lot', q) ↦ rw (q, finish_lot) (book_lot-Preserves amount t lot lot' q)
  ]

  spend_lot_found-total :
      (timestamp : ℤ) (zero_threshold : Amount) (r : Result Stop Amount) (lot : CollateralLot)
      → lot_total (spend_lot_found timestamp zero_threshold r lot).1 ≡ lot_total lot
  unfolding spend_lot_found
  spend_lot_found-total t zt (err e) lot = refl
  spend_lot_found-total t zt (ok spent) lot = finish_lot-total spent t _ lot

  spend_part_found-total :
      (zero_threshold amount : Amount) (r : Result Stop Amount) (lot : CollateralLot)
      → lot_total (spend_part_found zero_threshold amount r lot).1 ≡ lot_total lot
  unfolding spend_part_found
  spend_part_found-total zt amount (err e) lot = refl
  spend_part_found-total zt amount (ok spent) lot =
      finish_lot-total amount lot.last_update_timestamp _ lot

  spend_lot-total :
      (payment_id : ℕ) (timestamp : ℤ) (zero_threshold : Amount) (lot : CollateralLot)
      → lot_total (spend_lot payment_id timestamp zero_threshold lot).1 ≡ lot_total lot
  unfolding spend_lot
  spend_lot-total p t zt lot =
      let (r, spends) = spend_each p t zero_amount lot.spends in
      spend_lot_found-total t zt r (record lot { spends = spends })

  spend_part-total :
      (payment_id : ℕ) (timestamp : ℤ) (zero_threshold amount : Amount) (lot : CollateralLot)
      → lot_total (spend_part payment_id timestamp zero_threshold amount lot).1 ≡ lot_total lot
  unfolding spend_part
  spend_part-total p t zt amount lot =
      let (r, spends) = spend_some p t zt amount zero_amount lot.spends in
      spend_part_found-total zt amount r (record lot { spends = spends })

  gather-total :
      (r : Result Stop Collected) (lot lot' : CollateralLot) (lots : List CollateralLot)
      (rest : Result Stop Collected × List CollateralLot)
      → lot_total lot' ≡ lot_total lot
      → total lot_total rest.1 ≡ total lot_total lots
      → total lot_total (gather r lot' lots rest).1 ≡ total lot_total (lot ∷ lots)
  unfolding gather total
  gather-total (err e) lot lot' lots rest same more = rw same refl
  gather-total (ok c) lot lot' lots (err e, lots') same more = rw (same, more) refl
  gather-total (ok c) lot lot' lots (ok cs, lots') same more = rw (same, more) refl

  spend_lots-total :
      (payment_id : ℕ) (timestamp : ℤ) (zero_threshold : Amount) (n : ℕ) (lots : List CollateralLot)
      → total lot_total (spend_lots payment_id timestamp zero_threshold n lots).1
        ≡ total lot_total lots
  unfolding spend_lots
  spend_lots-total p t zt zero lots = refl
  spend_lots-total p t zt (suc n) [] = refl
  spend_lots-total p t zt (suc n) (lot ∷ lots) =
      let (r, lot') = spend_lot p t zt lot in
      gather-total r lot lot' lots (spend_lots p t zt n lots) (spend_lot-total p t zt lot)
        (spend_lots-total p t zt n lots)

  at_index-total :
      {A : Type 0} (f : OnLot A)
      → ((lot : CollateralLot) → lot_total (f lot).1 ≡ lot_total lot)
      → (n : ℕ) (lots : List CollateralLot)
      → total lot_total (at_index f n lots).1 ≡ total lot_total lots
  unfolding at_index total
  at_index-total f keeps n [] = refl
  at_index-total f keeps zero (lot ∷ lots) = rw (keeps lot) refl
  at_index-total f keeps (suc n) (lot ∷ lots) = rw (at_index-total f keeps n lots) refl

  abbrev both : CollateralLot × List CollateralLot → Amount
  both (lot, lots) = lot_total lot +ℤ total lot_total lots

  remove_lot-total :
      (payment_id : ℕ) (lots : List CollateralLot) (found : CollateralLot)
      (rest : List CollateralLot)
      → remove_lot payment_id lots ≡ some (found, rest)
      → lot_total found +ℤ total lot_total rest ≡ total lot_total lots
  unfolding remove_lot total
  remove_lot-total p [] found rest h = cc
  remove_lot-total p (lot ∷ lots) found rest h = elim (Bool-cases (p == lot.payment_id)) [
    | inl here ↦ sym (ap both (of_some (rw (here, remove_lot) at h)))
    | inr further ↦ elim (Option-cases (remove_lot p lots)) [
      | inl stop ↦ cc
      | inr ((f, more), q) ↦
          let e = ap both (of_some (rw (further, q, remove_lot) at h)) in
          let rec = remove_lot-total p lots f more q in sym e ∙ omega int_laws
    ]
  ]

  close_lots-Keeps :
      (ids : List ℕ) (side₀ side : CollateralSide)
      → Keeps side₀ side
      → Keeps side₀ (close_lots ids side).1
  unfolding close_lots total
  close_lots-Keeps [] side₀ side k = k
  close_lots-Keeps (id ∷ ids) side₀ side k = elim (Option-cases (remove_lot id side.open_lots)) [
    | inl stop ↦ rw (stop, close_lots) k
    | inr ((lot, rest), q) ↦
        let (held, balances) = k in
        let e = remove_lot-total id side.open_lots lot rest q in
        let closed = total-append lot_total side.closed_lots (lot ∷ []) in
        rw (q, close_lots)
          (close_lots-Keeps ids side₀
            (record side { open_lots = rest; closed_lots = side.closed_lots ++ lot ∷ [] })
            (rw (closed, total) (omega int_laws), balances))
  ]

  on_lots-Keeps :
      {A : Type 0} (f : OnLots A)
      → ((lots : List CollateralLot) → total lot_total (f lots).1 ≡ total lot_total lots)
      → (side₀ side : CollateralSide) → Keeps side₀ side
      → Keeps side₀ (on_lots f side).1
  on_lots-Keeps f keeps side₀ side k =
      let (held, balances) = k in
      (ap (λ x. x +ℤ total lot_total side.closed_lots) (keeps side.open_lots) ∙ held, balances)

  book_spent-Keeps :
      (amount zero_threshold : Amount) (side₀ side : CollateralSide)
      → Keeps side₀ side
      → Keeps side₀ (book_spent amount zero_threshold side).1
  unfolding book_spent
  book_spent-Keeps amount zt side₀ side k =
      elim (Option-cases (shifted zt side.preauth_balance side.spent_balance amount)) [
        | inl stop ↦ rw (stop, book_spent) k
        | inr ((p, s), q) ↦
            let (less, more) =
              shifted-exact exact zt side.preauth_balance side.spent_balance amount p s q in
            let (held, balances) = k in rw (q, book_spent) (held, omega int_laws)
      ]

  spend_next-Keeps :
      (payment_id : ℕ) (timestamp : ℤ) (zero_threshold : Amount) (part : Option Amount) (n : ℕ)
      (side₀ side : CollateralSide)
      → Keeps side₀ side
      → Keeps side₀ (spend_next payment_id timestamp zero_threshold part n side).1
  unfolding spend_next
  spend_next-Keeps p t zt none n side₀ side k = k
  spend_next-Keeps p t zt (some amount) n side₀ side k =
      on_lots-Keeps (at_index (spend_part p t zt amount) n)
        (at_index-total (spend_part p t zt amount) (spend_part-total p t zt amount) n) side₀ side k

  settle-Keeps :
      (amount_paid zero_threshold : Amount) (lot_ids seq_nums : List ℕ)
      (side₀ side : CollateralSide)
      → Keeps side₀ side
      → Keeps side₀ (settle amount_paid zero_threshold lot_ids seq_nums side).1
  unfolding settle
  settle-Keeps paid zt ids nums side₀ side k =
      bind_holds (Keeps side₀) (close_lots ids) (λ _. book_spent paid zt >> pure (authorized nums))
        side (close_lots-Keeps ids side₀ side k)
        (λ _ s k₁.
          bind_holds (Keeps side₀) (book_spent paid zt) (λ _. pure (authorized nums)) s
            (book_spent-Keeps paid zt side₀ s k₁) (λ _ s₂ k₂. k₂))

  confirm_found-Keeps :
      (payment_id : ℕ) (timestamp : ℤ) (amount_paid zero_threshold : Amount) (part : Option Amount)
      (n : ℕ) (side : CollateralSide)
      → Keeps side (confirm_found payment_id timestamp amount_paid zero_threshold part n side).1
  unfolding confirm_found
  confirm_found-Keeps p t paid zt part n side =
      bind_holds (Keeps side) (on_lots (spend_lots p t zt n))
        (λ booked. spend_next p t zt part n >>= λ more.
          settle paid zt booked.closed_lots (booked.seq_nums ++ more))
        side
        (on_lots-Keeps (spend_lots p t zt n) (spend_lots-total p t zt n) side side
          (Keeps-refl side))
        (λ booked s k.
          bind_holds (Keeps side) (spend_next p t zt part n)
            (λ more. settle paid zt booked.closed_lots (booked.seq_nums ++ more)) s
            (spend_next-Keeps p t zt part n side s k)
            (λ more s₂ k₂.
              settle-Keeps paid zt booked.closed_lots (booked.seq_nums ++ more) side s₂ k₂))

  pub confirm_payment-Keeps :
      (payment_id : ℕ) (timestamp : ℤ) (amount_paid zero_threshold : Amount) (side : CollateralSide)
      → Keeps side (confirm_payment payment_id timestamp amount_paid zero_threshold side).1
  unfolding confirm_payment
  confirm_payment-Keeps p t paid zt side = go (cover_spends p zt side.open_lots paid 0)
    where
      go :
          (scan : FoldWhile (Result Stop (Amount × ℕ)))
          → Keeps side
              (elim scan as (λ _. Result Stop ConfirmStatus × CollateralSide) [
                | continue (err e) ↦ (err e, side)
                | done (err e) ↦ (err e, side)
                | continue (ok (amount, n)) ↦ confirm_found p t paid zt none n side
                | done (ok (amount, n)) ↦ confirm_found p t paid zt (some amount) n side
              ]).1
      go (continue (err e)) = Keeps-refl side
      go (done (err e)) = Keeps-refl side
      go (continue (ok (amount, n))) = confirm_found-Keeps p t paid zt none n side
      go (done (ok (amount, n))) = confirm_found-Keeps p t paid zt (some amount) n side
