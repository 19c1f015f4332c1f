-- ===== src/IndexOrder/Withdrawn.antt =====
-- index_order.rs: `solver_cancel` takes the named updates out of an order.
-- What the walk over the updates leaves: the remaining collateral has fallen by what was taken out,
-- and no update with the name is kept.
use index_maker.Prelude.{
  ◌==◌, Bool-cases, Option-cases, ℕ, ◌≡◌, refl, inl, inr, none, some, List, [], ◌∷◌, of_some,
}
use index_maker.Prelude.Int.{◌+ℤ◌, int_laws}
use index_maker.Decimal.{Amount, Decimal, IsExact, safe_sub}
use index_maker.IndexOrder.Order.{find_update, find_order_update, cancel_named, solver_cancel}
use index_maker.IndexOrder.Totals.{remaining_total}
use index_maker.IndexOrder.Update.{IndexOrderUpdate, IndexOrder}

abbrev Withdrawn :
    ℕ
    → List IndexOrderUpdate
    → Amount
    → List IndexOrderUpdate × List IndexOrderUpdate × Amount
    → Type 0
Withdrawn id us remaining (kept, closed, rest) =
    (rest +ℤ remaining_total us ≡ remaining +ℤ remaining_total kept)
    × (remaining_total us ≡ remaining_total kept +ℤ remaining_total closed)
    × (find_update id kept ≡ none)

module _ ⦃d : Decimal⦄ (exact : IsExact d) (id : ℕ) where
  cancel_named-Withdrawn :
      (us : List IndexOrderUpdate) (remaining : Amount)
      (r : List IndexOrderUpdate × List IndexOrderUpdate × Amount)
      → cancel_named id us remaining ≡ some r
      → Withdrawn id us remaining r
  unfolding cancel_named remaining_total find_update
  cancel_named-Withdrawn [] remaining r h = rw (← of_some h) (refl, omega int_laws, refl)
  cancel_named-Withdrawn (u ∷ us) remaining r h = elim (Bool-cases (u.client_order_id == id)) [
    | inl named ↦ elim (Option-cases (safe_sub remaining u.remaining_collateral)) [
      | inl over ↦ cc
      | inr (less, s) ↦ elim (Option-cases (cancel_named id us less)) [
        | inl stop ↦ cc
        | inr ((kept, closed, rest), q) ↦
            let minus = exact.sub_exact remaining u.remaining_collateral less s in
            let (fell, shared, gone) = cancel_named-Withdrawn us less (kept, closed, rest) q in
            rw (← of_some (rw (named, s, q, cancel_named) at h))
              (omega int_laws, omega int_laws, gone)
      ]
    ]
    | inr other ↦ elim (Option-cases (cancel_named id us remaining)) [
      | inl stop ↦ cc
      | inr ((kept, closed, rest), q) ↦
          let (fell, shared, gone) = cancel_named-Withdrawn us remaining (kept, closed, rest) q in
          rw (← of_some (rw (other, q, cancel_named) at h))
            (omega int_laws, omega int_laws, rw (find_update, other) gone)
    ]
  ]

  -- With exact arithmetic, when `solver_cancel` does not panic: the order's remaining collateral has
  -- fallen by exactly what its open updates hold less, and no open update has the name any more.
  pub solver_cancel_withdraws :
      (o o' : IndexOrder)
      → solver_cancel id o ≡ some o'
      → (o'.remaining_collateral +ℤ remaining_total o.order_updates
          ≡ o.remaining_collateral +ℤ remaining_total o'.order_updates)
        × (find_order_update id o' ≡ none)
  unfolding solver_cancel find_order_update
  solver_cancel_withdraws o o' h =
      elim (Option-cases (cancel_named id o.order_updates o.remaining_collateral)) [
        | inl stop ↦ cc
        | inr ((kept, closed, rest), q) ↦
            let (fell, shared, gone) =
              cancel_named-Withdrawn o.order_updates o.remaining_collateral (kept, closed, rest)
                q in
            rw (← of_some (rw (q, solver_cancel) at h)) (fell, gone)
      ]
