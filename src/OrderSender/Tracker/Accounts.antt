-- ===== src/OrderSender/Tracker/Accounts.antt =====
-- order_tracker.rs: what the exchange acknowledged of a live order is what its fills have brought and
-- what remains.
-- What a notification adds for order `j`.
use index_maker.Prelude.{
  ◌==◌, if◌then◌else◌, ==_iff, Bool-cases, Option-cases, ℕ, ◌≡◌, refl, inl, inr, true, false, some,
  List, [], ◌∷◌, ◌++◌, All, Result, ok, err,
}
use index_maker.Prelude.Int.{◌+ℤ◌, int_laws}
use index_maker.Prelude.Dict.{lookup}
use index_maker.Decimal.{Amount, zero_amount, Decimal, IsExact}
use index_maker.OrderSender.Tracker.{
  rejected, from_cancelled, Report, ConnectorNotification, session_logon, session_logout, rejects,
  fills, new_order_ack, cancels, TrackerNotification, filled, cancelled_order, OrderStatus, sent,
  live, cancelled, send_failed, OrderEntry, Tracker, TrackerError, publish, acknowledge,
  update_order_new, Updated, update_order_status, cancel_report, fill_report, publish_if_live,
  handle_order_notification,
}
use index_maker.OrderSender.Tracker.Life.{notified}
use index_maker.OrderSender.Tracker.Remaining.{
  filled_for, Accounted, IsAccounted, set_status-other, set_status-same, After, given_by,
  update_order_status-After,
}

abbrev filled_in : ℕ → TrackerNotification → Amount
filled_in j (filled r) = if r.order_id == j then r.quantity_filled else zero_amount
filled_in j (cancelled_order c) = zero_amount

filled_for-append :
    (j : ℕ) (ns : List TrackerNotification) (n : TrackerNotification)
    → filled_for j (ns ++ n ∷ []) ≡ filled_for j ns +ℤ filled_in j n
unfolding filled_for
filled_for-append j [] (filled r) = omega int_laws
filled_for-append j [] (cancelled_order c) = omega int_laws
filled_for-append j (filled r ∷ ns) n = rw (filled_for-append j ns n) (omega int_laws)
filled_for-append j (cancelled_order c ∷ ns) n = filled_for-append j ns n

-- An acknowledgement of order `j` is of this quantity.
abbrev pub Acknowledges : ℕ → Amount → ConnectorNotification → Type 0
Acknowledges j acknowledged (new_order_ack r) = r.order_id == j ≡ true → r.quantity ≡ acknowledged
Acknowledges j acknowledged (session_logon s) = Unit {0}
Acknowledges j acknowledged (session_logout s) = Unit {0}
Acknowledges j acknowledged (rejects r) = Unit {0}
Acknowledges j acknowledged (fills r lot_id fee) = Unit {0}
Acknowledges j acknowledged (cancels r) = Unit {0}

module _ ⦃d : Decimal⦄ (exact : IsExact d) (j : ℕ) (acknowledged : Amount) where
  published-IsAccounted :
      (given : Amount) (t t' : Tracker) (n : TrackerNotification)
      → filled_in j n ≡ given
      → t'.published ≡ t.published
      → Accounted acknowledged (lookup j t'.orders) (filled_for j t.published +ℤ given)
      → IsAccounted j acknowledged (publish n t')
  published-IsAccounted given t t' n adds quiet b =
      rw (filled_for-append j t'.published n, adds, quiet) b

  -- A call that has updated, and then published one notification.
  then-IsAccounted :
      (given : Amount) (t : Tracker) (r : Result TrackerError Updated × Tracker)
      (k : Updated → TrackerNotification)
      → ((u : Updated) → filled_in j (k u) ≡ given)
      → IsAccounted j acknowledged t
      → After j acknowledged given t r
      → IsAccounted j acknowledged
          (elim r.0 as (λ _. Result TrackerError (Unit {0}) × Tracker) [
            | ok u ↦ (ok tt, publish (k u) r.1)
            | err e ↦ (err e, r.1)
          ]).1
  then-IsAccounted given t (ok u, t') k adds b (quiet, after) =
      published-IsAccounted given t t' (k u) (adds u) quiet after
  then-IsAccounted given t (err e, t') k adds b same = rw same b

  acknowledge-IsAccounted :
      (i : ℕ) (quantity : Amount) (entry : OrderEntry) (status : OrderStatus) (t : Tracker)
      → (i == j ≡ true → quantity ≡ acknowledged)
      → lookup i t.orders ≡ some (record entry { status = status })
      → IsAccounted j acknowledged t
      → IsAccounted j acknowledged (acknowledge i quantity entry status t).1
  unfolding acknowledge
  acknowledge-IsAccounted i quantity entry (sent q) t fits e b = elim (Bool-cases (i == j)) [
    | inl same ↦
        let found : lookup j t.orders ≡ some (record entry { status = sent q }) =
          rw (← (==_iff i j).0 same) e in
        let none_yet : filled_for j t.published ≡ zero_amount = rw found at b in
        let whole = fits same in
        rw (set_status-same i j entry (live quantity) t same) (omega int_laws)
    | inr other ↦ rw (set_status-other i j entry (live quantity) t other) b
  ]
  acknowledge-IsAccounted i quantity entry (live q) t fits e b = b
  acknowledge-IsAccounted i quantity entry (cancelled q) t fits e b = b
  acknowledge-IsAccounted i quantity entry send_failed t fits e b = b

  update_order_new-IsAccounted :
      (i : ℕ) (quantity : Amount) (t : Tracker)
      → (i == j ≡ true → quantity ≡ acknowledged)
      → IsAccounted j acknowledged t
      → IsAccounted j acknowledged (update_order_new i quantity t).1
  unfolding update_order_new
  update_order_new-IsAccounted i quantity t fits b = elim (Option-cases (lookup i t.orders)) [
    | inl missing ↦ rw (missing, update_order_new) b
    | inr (entry, e) ↦
        rw (e, update_order_new) (acknowledge-IsAccounted i quantity entry entry.status t fits e b)
  ]

  no_fill :
      (i : ℕ) (quantity : Amount)
      → zero_amount ≡ (if i == j then given_by true quantity else zero_amount)
  no_fill i quantity = elim (Bool-cases (i == j)) [
    | inl same ↦ rw same refl
    | inr other ↦ rw other refl
  ]

  cancels-IsAccounted :
      (report : Report) (given : Amount) (t : Tracker) (r : Result TrackerError Updated × Tracker)
      → zero_amount ≡ given
      → IsAccounted j acknowledged t
      → After j acknowledged given t r
      → IsAccounted j acknowledged
          (elim r.0 as (λ _. Result TrackerError (Unit {0}) × Tracker) [
            | ok u ↦ (ok tt, publish_if_live report u r.1)
            | err e ↦ (err e, r.1)
          ]).1
  unfolding publish_if_live
  cancels-IsAccounted report given t (err e, t') adds b same = rw same b
  cancels-IsAccounted report given t (ok u, t') adds b (quiet, after) =
      elim (Bool-cases u.was_live) [
        | inl was ↦
            rw (was, publish_if_live)
              (published-IsAccounted given t t'
                (cancel_report report (from_cancelled u.is_cancelled) u) adds quiet after)
        | inr was_not ↦
            let nothing : filled_for j t.published +ℤ given ≡ filled_for j t'.published =
              rw (← adds, quiet) (omega int_laws) in
            rw (was_not, publish_if_live) (rw nothing at after)
      ]

  handle-IsAccounted :
      (n : ConnectorNotification) (t : Tracker)
      → Acknowledges j acknowledged n
      → IsAccounted j acknowledged t
      → IsAccounted j acknowledged (handle_order_notification n t).1
  unfolding handle_order_notification
  handle-IsAccounted (session_logon s) t fits b = b
  handle-IsAccounted (session_logout s) t fits b = b
  handle-IsAccounted (rejects r) t fits b =
      then-IsAccounted (if r.order_id == j then given_by true r.quantity else zero_amount) t
        (update_order_status r.order_id r.quantity true t) (cancel_report r rejected)
        (λ u. no_fill r.order_id r.quantity) b
        (update_order_status-After exact j acknowledged r.order_id r.quantity true t b)
  handle-IsAccounted (fills r lot_id fee) t fits b =
      then-IsAccounted (if r.order_id == j then given_by false r.quantity else zero_amount) t
        (update_order_status r.order_id r.quantity false t) (fill_report r lot_id fee) (λ u. refl) b
        (update_order_status-After exact j acknowledged r.order_id r.quantity false t b)
  handle-IsAccounted (new_order_ack r) t fits b =
      update_order_new-IsAccounted r.order_id r.quantity t fits b
  handle-IsAccounted (cancels r) t fits b =
      cancels-IsAccounted r (if r.order_id == j then given_by true r.quantity else zero_amount) t
        (update_order_status r.order_id r.quantity true t) (no_fill r.order_id r.quantity) b
        (update_order_status-After exact j acknowledged r.order_id r.quantity true t b)

  -- With exact arithmetic, whatever the exchange says, if every acknowledgement of order `j` is of the
  -- same quantity: while the order is sent nothing of it has been published as filled, and while it is
  -- live the quantity acknowledged is what was published as filled and what remains, if this held
  -- before.
  pub notified-IsAccounted :
      (ns : List ConnectorNotification) (t : Tracker)
      → All (Acknowledges j acknowledged) ns
      → IsAccounted j acknowledged t
      → IsAccounted j acknowledged (notified ns t)
  unfolding notified
  notified-IsAccounted [] t fits b = b
  notified-IsAccounted (n ∷ ns) t (fits, rest) b =
      notified-IsAccounted ns (handle_order_notification n t).1 rest (handle-IsAccounted n t fits b)
