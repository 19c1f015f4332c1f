-- ===== src/Collateral/Totals.antt =====
-- collateral_position.rs: collateral moves between the stages of a lot and between the balances of
-- a side, and none appears or disappears.
-- All that a lot holds, whatever its stage.
use index_maker.Prelude.{
  Option-cases, ℕ, zero, suc, ◌≡◌, refl, sym, ap, ◌∙◌, inl, inr, Option, none, some, List, [], ◌∷◌,
  ◌++◌, arith, FoldWhile, continue, done, bind_holds, of_some,
}
use index_maker.Prelude.Int.{ℤ, ◌+ℤ◌, ◌-ℤ◌, int_laws, -ℤ◌}
use index_maker.Decimal.{Amount, zero_amount, Decimal, IsExact, safe_add, safe_sub}
use index_maker.Collateral.Side.{
  CollateralLot, CollateralSide, each_first, update_at, cover, shifted, take_from_lots,
  confirm_part, confirm_whole, unconfirmed_of, ready_of, book_ready, add_ready, preauth_part,
  preauth_whole, book_preauth, preauth_payment,
}

abbrev pub lot_total : CollateralLot → Amount
lot_total lot = lot.unconfirmed_amount +ℤ lot.ready_amount +ℤ lot.preauth_amount +ℤ lot.spent_amount

unfoldable pub total : (CollateralLot → Amount) → List CollateralLot → Amount
total g [] = zero_amount
total g (lot ∷ lots) = g lot +ℤ total g lots

abbrev pub held_total : CollateralSide → Amount
held_total side = total lot_total side.open_lots +ℤ total lot_total side.closed_lots

abbrev pub balance_total : CollateralSide → Amount
balance_total side =
    side.unconfirmed_balance +ℤ side.ready_balance +ℤ side.preauth_balance +ℤ side.spent_balance

-- What all operations but a deposit keep, also when they fail.
abbrev pub Keeps : CollateralSide → CollateralSide → Type 0
Keeps side side' = (held_total side' ≡ held_total side) × (balance_total side' ≡ balance_total side)

pub total-append :
    (g : CollateralLot → Amount) (xs ys : List CollateralLot)
    → total g (xs ++ ys) ≡ total g xs +ℤ total g ys
unfolding total
total-append g [] ys = omega int_laws
total-append g (x ∷ xs) ys = rw (total-append g xs ys) (omega int_laws)

-- An update of a lot that keeps what `g` reads of it.
abbrev pub Preserves : (CollateralLot → Amount) → (CollateralLot → Option CollateralLot) → Type 0
Preserves g f = (lot lot' : CollateralLot) → f lot ≡ some lot' → g lot' ≡ g lot

total-each_first :
    (g : CollateralLot → Amount) (f : CollateralLot → Option CollateralLot)
    → Preserves g f
    → (n : ℕ) (lots : List CollateralLot) → total g (each_first f n lots).1 ≡ total g lots
unfolding total each_first
total-each_first g f keeps zero lots = refl
total-each_first g f keeps (suc n) [] = refl
total-each_first g f keeps (suc n) (lot ∷ lots) = elim (Option-cases (f lot)) [
  | inl stop ↦ rw (stop, each_first) refl
  | inr (lot', e) ↦
      rw (e, each_first, total, keeps lot lot' e, total-each_first g f keeps n lots) refl
]

total-update_at :
    (g : CollateralLot → Amount) (f : CollateralLot → Option CollateralLot)
    → Preserves g f
    → (n : ℕ) (lots lots' : List CollateralLot) → update_at f n lots ≡ some lots'
    → total g lots' ≡ total g lots
unfolding total update_at
total-update_at g f keeps n [] lots' e = cc
total-update_at g f keeps zero (lot ∷ lots) lots' e = elim (Option-cases (f lot)) [
  | inl stop ↦ cc
  | inr (lot', q) ↦ let same : lots' ≡ lot' ∷ lots = cc in rw (same, total, keeps lot lot' q) refl
]
total-update_at g f keeps (suc n) (lot ∷ lots) lots' e = elim (Option-cases (update_at f n lots)) [
  | inl stop ↦ cc
  | inr (more, q) ↦
      let same : lots' ≡ lot ∷ more = cc in
      rw (same, total, total-update_at g f keeps n lots more q) refl
]

pub Keeps-refl : (side : CollateralSide) → Keeps side side
Keeps-refl side = (refl, refl)

-- The open lots changed and nothing else.
pub relotted :
    (side : CollateralSide) (lots : List CollateralLot)
    → total lot_total lots ≡ total lot_total side.open_lots
    → Keeps side (record side { open_lots = lots })
relotted side lots h = (ap (λ x. x +ℤ total lot_total side.closed_lots) h, refl)

take_from_lots-Keeps :
    ⦃d : Decimal⦄
    → (part : Amount → CollateralLot → Option CollateralLot)
      (whole : CollateralLot → Option CollateralLot)
    → ((amount : Amount) → Preserves lot_total (part amount))
    → Preserves lot_total whole
    → (scan : FoldWhile (Option (Amount × ℕ))) (side : CollateralSide)
    → Keeps side (take_from_lots part whole scan side).1
unfolding take_from_lots
take_from_lots-Keeps part whole p w (continue none) side = Keeps-refl side
take_from_lots-Keeps part whole p w (done none) side = Keeps-refl side
take_from_lots-Keeps part whole p w (continue (some (amount, n))) side =
    relotted side (each_first whole n side.open_lots).1
      (total-each_first lot_total whole w n side.open_lots)
take_from_lots-Keeps part whole p w (done (some (amount, n))) side =
    elim (Option-cases (update_at (part amount) n side.open_lots)) [
      | inl stop ↦ rw (stop, take_from_lots) (Keeps-refl side)
      | inr (lots, q) ↦
          rw (q, take_from_lots)
            (relotted side (each_first whole n lots).1 (
              total-each_first lot_total whole w n lots
              ∙ total-update_at lot_total (part amount) (p amount) n side.open_lots lots q))
    ]

module _ ⦃d : Decimal⦄ (exact : IsExact d) where
  pub shifted-exact :
      (zero_threshold from to amount from' to' : Amount)
      → shifted zero_threshold from to amount ≡ some (from', to')
      → (from' ≡ from -ℤ amount) × (to' ≡ to +ℤ amount)
  unfolding shifted
  shifted-exact zt from to amount from' to' h = elim (Option-cases (safe_add to amount)) [
    | inl over ↦ cc
    | inr (t, add) ↦ elim (Option-cases (safe_sub from amount)) [
      | inl over ↦ cc
      | inr (f, sub) ↦
          let both : (f ≡ from') × (t ≡ to') = ground arith in
          (
            sym both.0 ∙ exact.sub_exact from amount f sub,
            sym both.1 ∙ exact.add_exact to amount t add,
          )
    ]
  ]

  confirm_part-Preserves :
      (zero_threshold amount : Amount) → Preserves lot_total (confirm_part zero_threshold amount)
  unfolding confirm_part
  confirm_part-Preserves zt amount lot lot' h =
      elim (Option-cases (shifted zt lot.unconfirmed_amount lot.ready_amount amount)) [
        | inl stop ↦ cc
        | inr ((u, r), q) ↦
            let (less, more) =
              shifted-exact zt lot.unconfirmed_amount lot.ready_amount amount u r q in
            rw (← of_some (rw (q, confirm_part) at h)) (omega int_laws)
      ]

  confirm_whole-Preserves : (timestamp : ℤ) → Preserves lot_total (confirm_whole timestamp)
  unfolding confirm_whole
  confirm_whole-Preserves timestamp lot lot' h =
      elim (Option-cases (safe_add lot.ready_amount lot.unconfirmed_amount)) [
        | inl stop ↦ cc
        | inr (ready, q) ↦
            let more = exact.add_exact lot.ready_amount lot.unconfirmed_amount ready q in
            rw (← of_some (rw (q, confirm_whole) at h)) (omega int_laws)
      ]

  preauth_part-Preserves :
      (client_order_id payment_id : ℕ) (timestamp : ℤ) (zero_threshold amount : Amount)
      → Preserves lot_total
          (preauth_part client_order_id payment_id timestamp zero_threshold amount)
  unfolding preauth_part
  preauth_part-Preserves c p t zt amount lot lot' h =
      elim (Option-cases (shifted zt lot.ready_amount lot.preauth_amount amount)) [
        | inl stop ↦ cc
        | inr ((u, r), q) ↦
            let (less, more) = shifted-exact zt lot.ready_amount lot.preauth_amount amount u r q in
            rw (← of_some (rw (q, preauth_part) at h)) (omega int_laws)
      ]

  preauth_whole-Preserves :
      (client_order_id payment_id : ℕ) (timestamp : ℤ)
      → Preserves lot_total (preauth_whole client_order_id payment_id timestamp)
  unfolding preauth_whole
  preauth_whole-Preserves c p t lot lot' h =
      elim (Option-cases (safe_add lot.preauth_amount lot.ready_amount)) [
        | inl stop ↦ cc
        | inr (preauth, q) ↦
            let more = exact.add_exact lot.preauth_amount lot.ready_amount preauth q in
            rw (← of_some (rw (q, preauth_whole) at h)) (omega int_laws)
      ]

  book_ready-Keeps :
      (amount : Amount) (timestamp : ℤ) (zero_threshold : Amount) (side₀ side : CollateralSide)
      → Keeps side₀ side
      → Keeps side₀ (book_ready amount timestamp zero_threshold side).1
  unfolding book_ready
  book_ready-Keeps amount t zt side₀ side k =
      elim (Option-cases (shifted zt side.unconfirmed_balance side.ready_balance amount)) [
        | inl stop ↦ rw (stop, book_ready) k
        | inr ((u, r), q) ↦
            let (less, more) =
              shifted-exact zt side.unconfirmed_balance side.ready_balance amount u r q in
            let (held, balances) = k in rw (q, book_ready) (held, omega int_laws)
      ]

  pub add_ready-Keeps :
      (amount : Amount) (timestamp : ℤ) (zero_threshold : Amount) (side : CollateralSide)
      → Keeps side (add_ready amount timestamp zero_threshold side).1
  unfolding add_ready
  add_ready-Keeps amount t zt side =
      bind_holds (Keeps side)
        (take_from_lots (confirm_part zt) (confirm_whole t)
          (cover unconfirmed_of zt side.open_lots amount 0))
        (λ _. book_ready amount t zt) side
        (take_from_lots-Keeps (confirm_part zt) (confirm_whole t) (confirm_part-Preserves zt)
          (confirm_whole-Preserves t) _ side)
        (λ _ s. book_ready-Keeps amount t zt side s)

  book_preauth-Keeps :
      (payment_id : ℕ) (amount zero_threshold : Amount) (side₀ side : CollateralSide)
      → Keeps side₀ side
      → Keeps side₀ (book_preauth payment_id amount zero_threshold side).1
  unfolding book_preauth
  book_preauth-Keeps p amount zt side₀ side k =
      elim (Option-cases (shifted zt side.ready_balance side.preauth_balance amount)) [
        | inl stop ↦ rw (stop, book_preauth) k
        | inr ((u, r), q) ↦
            let (less, more) =
              shifted-exact zt side.ready_balance side.preauth_balance amount u r q in
            let (held, balances) = k in rw (q, book_preauth) (held, omega int_laws)
      ]

  pub preauth_payment-Keeps :
      (client_order_id payment_id : ℕ) (timestamp : ℤ) (amount zero_threshold : Amount)
      (side : CollateralSide)
      → Keeps side
          (preauth_payment client_order_id payment_id timestamp amount zero_threshold side).1
  unfolding preauth_payment
  preauth_payment-Keeps c p t amount zt side =
      bind_holds (Keeps side)
        (take_from_lots (preauth_part c p t zt) (preauth_whole c p t)
          (cover ready_of zt side.open_lots amount 0))
        (λ _. book_preauth p amount zt) side
        (take_from_lots-Keeps (preauth_part c p t zt) (preauth_whole c p t)
          (preauth_part-Preserves c p t zt) (preauth_whole-Preserves c p t) _ side)
        (λ _ s. book_preauth-Keeps p amount zt side s)
