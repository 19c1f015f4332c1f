-- ===== src/OrderSender/Inventory/Batch.antt =====
-- inventory_manager.rs, `new_order_batch`: a batch that goes out whole is tracked whole.
-- An order goes out only if it was not tracked, and then is tracked as it was sent.
use index_maker.Prelude.{
  ◌==◌, ==_iff, Bool-cases, Option-cases, ℕ, ◌≡◌, refl, ap, inl, inr, Bool, none, some, List, [],
  ◌∷◌, arith, All, Result, ok, err,
}
use index_maker.Prelude.Dict.{lookup, insert, lookup-insert}
use index_maker.Bits.{AssetOrder, BatchOrder, SingleOrder}
use index_maker.OrderSender.Inventory.{single_order, send_each, new_order_batch}
use index_maker.OrderSender.Tracker.{
  OrderEntry, Tracker, TrackerError, new_entry, new_order, get_order,
}

new_order_ok :
    (send_order : ℕ → SingleOrder → Bool) (order : SingleOrder) (t t' : Tracker)
    → new_order send_order order t ≡ (ok tt, t')
    → (lookup order.order_id t.orders ≡ none)
      × ((session_id : ℕ) × (t'.orders
            ≡ insert order.order_id (new_entry session_id order) t.orders))
unfolding new_order
new_order_ok send_order order t t' h = elim (Option-cases t.session) [
  | inl none_yet ↦ absurd (ground arith)
  | inr (session_id, s) ↦ elim (Option-cases (lookup order.order_id t.orders)) [
    | inr (entry, e) ↦ absurd (ground arith)
    | inl fresh ↦ elim (Bool-cases (send_order session_id order)) [
      | inl went ↦ (fresh, (session_id, ground arith))
      | inr failed ↦ absurd (ground arith)
    ]
  ]
]

new_order-get_order :
    (send_order : ℕ → SingleOrder → Bool) (order : SingleOrder) (t t' : Tracker)
    → new_order send_order order t ≡ (ok tt, t')
    → (get_order order.order_id t' ≡ some order)
      × ((j : ℕ) (o : SingleOrder) → get_order j t ≡ some o → get_order j t' ≡ some o)
unfolding get_order
new_order-get_order send_order order t t' h = (here, others)
  where
    sent_ok :
        (lookup order.order_id t.orders ≡ none)
        × ((session_id : ℕ) × (t'.orders
              ≡ insert order.order_id (new_entry session_id order) t.orders))
    sent_ok = new_order_ok send_order order t t' h

    entry : OrderEntry
    entry = new_entry sent_ok.1.0 order

    here : get_order order.order_id t' ≡ some order
    here =
        let found = lookup-insert order.order_id order.order_id entry t.orders in
        let self = (==_iff order.order_id order.order_id).1 refl in
        rw (get_order, sent_ok.1.1, found, self) refl

    others : (j : ℕ) (o : SingleOrder) → get_order j t ≡ some o → get_order j t' ≡ some o
    others j o g = elim (Bool-cases (order.order_id == j)) [
      | inl same ↦
          let gone : lookup j t.orders ≡ none = rw (← (==_iff order.order_id j).0 same) sent_ok.0 in
          absurd (ground arith)
      | inr other ↦
          let kept = lookup-insert order.order_id j entry t.orders in
          rw (get_order, sent_ok.1.1, kept, other) g
    ]

send_each_tracks :
    (send_order : ℕ → SingleOrder → Bool) (batch : BatchOrder) (os : List AssetOrder)
    (t t' : Tracker)
    → send_each send_order batch os t ≡ (ok tt, t')
    → All (λ o. get_order o.order_id t' ≡ some (single_order batch o)) os
      × ((j : ℕ) (o : SingleOrder) → get_order j t ≡ some o → get_order j t' ≡ some o)
unfolding send_each
send_each_tracks send_order batch [] t t' h = (tt, λ j o g. rw (← ap (λ x. x.1) h) g)
send_each_tracks send_order batch (o ∷ os) t t' h =
    go (new_order send_order (single_order batch o) t) refl h
      (λ t₁. send_each_tracks send_order batch os t₁ t')
  where
    go :
        (r : Result TrackerError (Unit {0}) × Tracker)
        → new_order send_order (single_order batch o) t ≡ r
        → (elim r.0 as (λ _. Result TrackerError (Unit {0}) × Tracker) [
          | ok _ ↦ send_each send_order batch os r.1
          | err e ↦ (err e, r.1)
        ])
          ≡ (ok tt, t')
        → ((t₁ : Tracker)
            → send_each send_order batch os t₁ ≡ (ok tt, t')
            → All (λ x. get_order x.order_id t' ≡ some (single_order batch x)) os
              × ((j : ℕ) (x : SingleOrder) → get_order j t₁ ≡ some x → get_order j t' ≡ some x))
        → All (λ x. get_order x.order_id t' ≡ some (single_order batch x)) (o ∷ os)
          × ((j : ℕ) (x : SingleOrder) → get_order j t ≡ some x → get_order j t' ≡ some x)
    go (err e, t₁) q h₁ rec = absurd (ground arith)
    go (ok _, t₁) q h₁ rec =
        let (mine, kept) = new_order-get_order send_order (single_order batch o) t t₁ q in
        let (rest, later) = rec t₁ h₁ in
        ((later o.order_id (single_order batch o) mine, rest), λ j x g. later j x (kept j x g))

-- A batch that `new_order_batch` reports as sent is tracked whole, each order as it was sent, and no
-- order that was tracked before is replaced.
pub new_order_batch_tracks :
    (send_order : ℕ → SingleOrder → Bool) (batch : BatchOrder) (t t' : Tracker)
    → new_order_batch send_order batch t ≡ (ok tt, t')
    → All (λ o. get_order o.order_id t' ≡ some (single_order batch o)) batch.asset_orders
      × ((j : ℕ) (o : SingleOrder) → get_order j t ≡ some o → get_order j t' ≡ some o)
unfolding new_order_batch
new_order_batch_tracks send_order batch t t' h =
    send_each_tracks send_order batch batch.asset_orders t t' h
