-- ===== src/OrderSender/Tracker/Remaining.antt =====
-- order_tracker.rs: what one update does to the account of an order: the quantity acknowledged against
-- the fills published and the quantity remaining.
-- The quantity of the fills that were published for order `j`.
use index_maker.Prelude.{
  ◌==◌, if◌then◌else◌, ==_iff, Bool-cases, Option-cases, ℕ, ◌≡◌, refl, inl, inr, Bool, true, false,
  ◌&&◌, Option, none, some, List, [], ◌∷◌, arith, Result, ok, err,
}
use index_maker.Prelude.Int.{◌+ℤ◌, ltb_ℤ, int_laws}
use index_maker.Prelude.Dict.{lookup, lookup-insert}
use index_maker.Decimal.{Amount, zero_amount, Decimal, IsExact, safe_sub}
use index_maker.OrderSender.Tracker.{
  TrackerNotification, filled, cancelled_order, OrderStatus, sent, live, cancelled, send_failed,
  OrderEntry, Tracker, TrackerError, set_status, Updated, update_live, update_entry,
  update_order_status,
}
use index_maker.OrderSender.Tracker.Life.{Leaves, update_order_status-Leaves}

unfoldable pub filled_for : ℕ → List TrackerNotification → Amount
filled_for j [] = zero_amount
filled_for j (filled r ∷ ns) =
    (if r.order_id == j then r.quantity_filled else zero_amount) +ℤ filled_for j ns
filled_for j (cancelled_order c ∷ ns) = filled_for j ns

-- Of an order acknowledged with `acknowledged`, by its status.
abbrev pub ByStatus : Amount → OrderStatus → Amount → Type 0
ByStatus acknowledged (sent q) total = total ≡ zero_amount
ByStatus acknowledged (live remaining) total = remaining +ℤ total ≡ acknowledged
ByStatus acknowledged (cancelled q) total = Unit {0}
ByStatus acknowledged send_failed total = Unit {0}

abbrev pub Accounted : Amount → Option OrderEntry → Amount → Type 0
Accounted acknowledged none total = total ≡ zero_amount
Accounted acknowledged (some e) total = ByStatus acknowledged e.status total

abbrev pub IsAccounted : ℕ → Amount → Tracker → Type 0
IsAccounted j acknowledged t = Accounted acknowledged (lookup j t.orders) (filled_for j t.published)

module _ ⦃d : Decimal⦄ where
  -- Of another order.
  Elsewhere : {A : Type 0} → ℕ → Tracker → Result TrackerError A × Tracker → Type 0
  Elsewhere j t r = (lookup j r.1.orders ≡ lookup j t.orders) × (r.1.published ≡ t.published)

  pub set_status-other :
      (i j : ℕ) (entry : OrderEntry) (status : OrderStatus) (t : Tracker)
      → i == j ≡ false
      → lookup j (set_status i entry status t).orders ≡ lookup j t.orders
  set_status-other i j entry status t other =
      rw (lookup-insert i j (record entry { status = status }) t.orders, other) refl

  pub set_status-same :
      (i j : ℕ) (entry : OrderEntry) (status : OrderStatus) (t : Tracker)
      → i == j ≡ true
      → lookup j (set_status i entry status t).orders ≡ some (record entry { status = status })
  set_status-same i j entry status t same =
      rw (lookup-insert i j (record entry { status = status }) t.orders, same) refl

  update_live-other :
      (i j : ℕ) (entry : OrderEntry) (remaining quantity : Amount) (is_cancel : Bool) (t : Tracker)
      → i == j ≡ false
      → Elsewhere j t (update_live i entry remaining quantity is_cancel t)
  unfolding update_live Elsewhere
  update_live-other i j entry remaining quantity true t other =
      (set_status-other i j entry (cancelled zero_amount) t other, refl)
  update_live-other i j entry remaining quantity false t other =
      elim (Option-cases (safe_sub remaining quantity)) [
        | inl over ↦ rw (over, update_live) (refl, refl)
        | inr (left, q) ↦ elim (Bool-cases (ltb_ℤ left t.tolerance)) [
          | inl low ↦
              rw (q, low, update_live)
                (set_status-other i j entry (cancelled zero_amount) t other, refl)
          | inr high ↦
              rw (q, high, update_live) (set_status-other i j entry (live left) t other, refl)
        ]
      ]

  update_entry-other :
      (i j : ℕ) (quantity : Amount) (is_cancel : Bool) (entry : OrderEntry) (status : OrderStatus)
      (t : Tracker)
      → i == j ≡ false
      → Elsewhere j t (update_entry i quantity is_cancel entry status t)
  unfolding update_entry Elsewhere
  update_entry-other i j quantity true entry (sent q) t other =
      (set_status-other i j entry (cancelled zero_amount) t other, refl)
  update_entry-other i j quantity false entry (sent q) t other = (refl, refl)
  update_entry-other i j quantity is_cancel entry (live q) t other =
      update_live-other i j entry q quantity is_cancel t other
  update_entry-other i j quantity is_cancel entry (cancelled q) t other =
      (ground arith, ground arith)
  update_entry-other i j quantity is_cancel entry send_failed t other = (ground arith, ground arith)

  update_order_status-other :
      (i j : ℕ) (quantity : Amount) (is_cancel : Bool) (t : Tracker)
      → i == j ≡ false
      → Elsewhere j t (update_order_status i quantity is_cancel t)
  unfolding update_order_status Elsewhere
  update_order_status-other i j quantity is_cancel t other =
      elim (Option-cases (lookup i t.orders)) [
        | inl missing ↦ rw (missing, update_order_status) (refl, refl)
        | inr (entry, e) ↦
            rw (e, update_order_status)
              (update_entry-other i j quantity is_cancel entry entry.status t other)
      ]

-- What an update with `given` leaves for the order itself, before the fill is published.
abbrev pub After : ℕ → Amount → Amount → Tracker → Result TrackerError Updated × Tracker → Type 0
After j acknowledged given t (ok u, t') =
    (t'.published ≡ t.published)
    × Accounted acknowledged (lookup j t'.orders) (filled_for j t.published +ℤ given)
After j acknowledged given t (err e, t') = t' ≡ t

abbrev pub given_by : Bool → Amount → Amount
given_by true quantity = zero_amount
given_by false quantity = quantity

module _ ⦃d : Decimal⦄ (exact : IsExact d) (j : ℕ) (acknowledged : Amount) where
  stored-After :
      (i : ℕ) (entry : OrderEntry) (status : OrderStatus) (given : Amount) (t : Tracker)
      → i == j ≡ true
      → ByStatus acknowledged status (filled_for j t.published +ℤ given)
      → ((set_status i entry status t).published ≡ t.published)
        × Accounted acknowledged
            (lookup j (set_status i entry status t).orders)
            (filled_for j t.published +ℤ given)
  stored-After i entry status given t same b =
      (refl, rw (set_status-same i j entry status t same) b)

  update_live-After :
      (i : ℕ) (entry : OrderEntry) (remaining quantity : Amount) (is_cancel : Bool) (t : Tracker)
      → i == j ≡ true
      → remaining +ℤ filled_for j t.published ≡ acknowledged
      → After j acknowledged
          (given_by is_cancel quantity)
          t
          (update_live i entry remaining quantity is_cancel t)
  unfolding update_live
  update_live-After i entry remaining quantity true t same b =
      stored-After i entry (cancelled zero_amount) zero_amount t same tt
  update_live-After i entry remaining quantity false t same b =
      elim (Option-cases (safe_sub remaining quantity)) [
        | inl over ↦ rw (over, update_live) refl
        | inr (left, q) ↦ elim (Bool-cases (ltb_ℤ left t.tolerance)) [
          | inl low ↦
              rw (q, low, update_live)
                (stored-After i entry (cancelled zero_amount) quantity t same tt)
          | inr high ↦
              let minus = exact.sub_exact remaining quantity left q in
              rw (q, high, update_live)
                (stored-After i entry (live left) quantity t same (omega int_laws))
        ]
      ]

  update_entry-After :
      (i : ℕ) (quantity : Amount) (is_cancel : Bool) (entry : OrderEntry) (status : OrderStatus)
      (t : Tracker)
      → i == j ≡ true
      → lookup j t.orders ≡ some (record entry { status = status })
      → ByStatus acknowledged status (filled_for j t.published)
      → After j acknowledged
          (given_by is_cancel quantity)
          t
          (update_entry i quantity is_cancel entry status t)
  unfolding update_entry
  update_entry-After i quantity true entry (sent q) t same e b =
      stored-After i entry (cancelled zero_amount) zero_amount t same tt
  update_entry-After i quantity false entry (sent q) t same e b = refl
  update_entry-After i quantity is_cancel entry (live q) t same e b =
      update_live-After i entry q quantity is_cancel t same b
  update_entry-After i quantity is_cancel entry (cancelled q) t same e b =
      elim (Bool-cases (is_cancel && ltb_ℤ quantity t.tolerance)) [
        | inl small ↦ rw (small, update_entry) (refl, rw e tt)
        | inr large ↦ rw (large, update_entry) refl
      ]
  update_entry-After i quantity is_cancel entry send_failed t same e b =
      elim (Bool-cases (is_cancel && ltb_ℤ quantity t.tolerance)) [
        | inl small ↦ rw (small, update_entry) (refl, rw e tt)
        | inr large ↦ rw (large, update_entry) refl
      ]

  pub update_order_status-After :
      (i : ℕ) (quantity : Amount) (is_cancel : Bool) (t : Tracker)
      → IsAccounted j acknowledged t
      → After j acknowledged
          (if i == j then given_by is_cancel quantity else zero_amount)
          t
          (update_order_status i quantity is_cancel t)
  unfolding update_order_status Elsewhere
  update_order_status-After i quantity is_cancel t b = elim (Bool-cases (i == j)) [
    | inr other ↦ rw other (
        elsewhere (update_order_status i quantity is_cancel t)
          (update_order_status-other i j quantity is_cancel t other)
          (update_order_status-Leaves i quantity is_cancel t))
    | inl same ↦ rw same (elim (Option-cases (lookup i t.orders)) [
      | inl missing ↦ rw (missing, update_order_status) refl
      | inr (entry, e) ↦
          let found : lookup j t.orders ≡ some entry = rw (← (==_iff i j).0 same) e in
          rw (e, update_order_status)
            (update_entry-After i quantity is_cancel entry entry.status t same found
              (rw found at b))
    ])
  ]
    where
      elsewhere :
          (r : Result TrackerError Updated × Tracker)
          → (lookup j r.1.orders ≡ lookup j t.orders) × (r.1.published ≡ t.published)
          → Leaves t r
          → After j acknowledged zero_amount t r
      elsewhere (ok u, t') (same, quiet) l =
          let nothing : filled_for j t.published +ℤ zero_amount ≡ filled_for j t.published =
            omega int_laws in
          (quiet, rw (same, nothing) b)
      elsewhere (err e, t') o l = l
