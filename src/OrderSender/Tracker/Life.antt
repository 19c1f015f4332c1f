-- ===== src/OrderSender/Tracker/Life.antt =====
-- order_tracker.rs: no order is forgotten, replaced or revived.
use index_maker.Prelude.{
  ◌==◌, if◌then◌else◌, ==_iff, Bool-cases, Option-cases, ℕ, ◌≤◌, ◌≡◌, refl, ◌∙◌, ◌⊎◌, inl, inr,
  Bool, true, false, ◌&&◌, Option, none, some, List, [], ◌∷◌, arith, Result, ok, err,
}
use index_maker.Prelude.Int.{ltb_ℤ}
use index_maker.Prelude.Dict.{Dict, lookup, insert, lookup-insert}
use index_maker.Decimal.{Amount, zero_amount, Decimal, safe_sub}
use index_maker.Bits.{SingleOrder}
use index_maker.OrderSender.Tracker.{
  rejected, Report, ConnectorNotification, session_logon, session_logout, rejects, fills,
  new_order_ack, cancels, OrderStatus, sent, live, cancelled, send_failed, OrderEntry, Tracker,
  TrackerError, no_session, already_sent, new_entry, set_status, publish, acknowledge,
  update_order_new, Updated, update_live, update_entry, update_order_status, cancel_report,
  fill_report, publish_if_live, handle_order_notification, new_order,
}

abbrev rank : OrderStatus → ℕ
rank (sent q) = 0
rank (live q) = 1
rank (cancelled q) = 2
rank send_failed = 2

abbrev pub is_closed : OrderStatus → Bool
is_closed (sent q) = false
is_closed (live q) = false
is_closed (cancelled q) = true
is_closed send_failed = true

-- From sent to live to closed, and a closed status stays what it is.
abbrev pub Follows : OrderStatus → OrderStatus → Type 0
Follows s s' = (rank s ≤ rank s') × (is_closed s ≡ true → s' ≡ s)

-- The entry of one order before and after.
abbrev pub Continues : Option OrderEntry → Option OrderEntry → Type 0
Continues none none = Unit {0}
Continues (some e) (some e') =
    (e'.order ≡ e.order) × (e'.session_id ≡ e.session_id) × Follows e.status e'.status
Continues none (some e) = ⊥
Continues (some e) none = ⊥

-- Of every order.
abbrev pub Continue : Dict OrderEntry → Dict OrderEntry → Type 0
Continue os os' = (order_id : ℕ) → Continues (lookup order_id os) (lookup order_id os')

Follows-refl : (s : OrderStatus) → Follows s s
Follows-refl s = (omega arith, λ c. refl)

Follows-trans : (s s' s'' : OrderStatus) → Follows s s' → Follows s' s'' → Follows s s''
Follows-trans s s' s'' f g = (omega arith, λ c. let e = f.1 c in g.1 (rw e c) ∙ e)

Continues-refl : (o : Option OrderEntry) → Continues o o
Continues-refl none = tt
Continues-refl (some e) = (refl, refl, Follows-refl e.status)

pub Continues-trans : (a b c : Option OrderEntry) → Continues a b → Continues b c → Continues a c
Continues-trans none none none f g = tt
Continues-trans (some e) (some e') (some e'') f g =
    (g.0 ∙ f.0, g.1 ∙ f.1, Follows-trans e.status e'.status e''.status f.2 g.2)
Continues-trans none none (some c) f g = absurd g
Continues-trans none (some b) c f g = absurd f
Continues-trans (some a) none c f g = absurd f
Continues-trans (some a) (some b) none f g = absurd g

set_status-Continue :
    (order_id : ℕ) (entry : OrderEntry) (status : OrderStatus) (t : Tracker)
    → lookup order_id t.orders ≡ some entry
    → Follows entry.status status
    → Continue t.orders (set_status order_id entry status t).orders
set_status-Continue order_id entry status t e f j =
    rw (lookup-insert order_id j (record entry { status = status }) t.orders)
      (elim (Bool-cases (order_id == j)) [
        | inl same ↦ rw same (
            let found : lookup j t.orders ≡ some entry = rw (← (==_iff order_id j).0 same) e in
            rw found (refl, refl, f))
        | inr other ↦ rw other (Continues-refl (lookup j t.orders))
      ])

-- What a call leaves: on success every order continues, on an error nothing has changed.
abbrev pub Leaves : {A : Type 0} → Tracker → Result TrackerError A × Tracker → Type 0
Leaves t (ok a, t') = Continue t.orders t'.orders
Leaves t (err e, t') = t' ≡ t

same-Continue : (os : Dict OrderEntry) → Continue os os
same-Continue os j = Continues-refl (lookup j os)

acknowledge-Leaves :
    (order_id : ℕ) (quantity : Amount) (entry : OrderEntry) (status : OrderStatus) (t : Tracker)
    → lookup order_id t.orders ≡ some entry
    → entry.status ≡ status
    → Leaves t (acknowledge order_id quantity entry status t)
unfolding acknowledge
acknowledge-Leaves order_id quantity entry (sent q) t e s =
    set_status-Continue order_id entry (live quantity) t e (rw s (omega arith, λ c. cc))
acknowledge-Leaves order_id quantity entry (live q) t e s = refl
acknowledge-Leaves order_id quantity entry (cancelled q) t e s = refl
acknowledge-Leaves order_id quantity entry send_failed t e s = refl

update_order_new-Leaves :
    (order_id : ℕ) (quantity : Amount) (t : Tracker)
    → Leaves t (update_order_new order_id quantity t)
unfolding update_order_new
update_order_new-Leaves order_id quantity t = elim (Option-cases (lookup order_id t.orders)) [
  | inl missing ↦ rw (missing, update_order_new) refl
  | inr (entry, e) ↦
      rw (e, update_order_new) (acknowledge-Leaves order_id quantity entry entry.status t e refl)
]

checked-Leaves :
    {A : Type 0} (b : Bool) (a : A) (e : TrackerError) (t : Tracker)
    → Leaves t (if b then (ok a, t) else (err e, t))
checked-Leaves true a e t = same-Continue t.orders
checked-Leaves false a e t = refl

module _ ⦃d : Decimal⦄ where
  closing-Continue :
      (order_id : ℕ) (entry : OrderEntry) (t : Tracker)
      → lookup order_id t.orders ≡ some entry
      → is_closed entry.status ≡ false
      → Continue t.orders (set_status order_id entry (cancelled zero_amount) t).orders
  closing-Continue order_id entry t e h =
      set_status-Continue order_id entry (cancelled zero_amount) t e (closes entry.status h)
    where
      closes : (s : OrderStatus) → is_closed s ≡ false → Follows s (cancelled zero_amount)
      closes (sent q) h = (omega arith, λ c. cc)
      closes (live q) h = (omega arith, λ c. cc)
      closes (cancelled q) h = cc
      closes send_failed h = cc

  update_live-Leaves :
      (order_id : ℕ) (entry : OrderEntry) (remaining quantity : Amount) (is_cancel : Bool)
      (t : Tracker)
      → lookup order_id t.orders ≡ some entry
      → entry.status ≡ live remaining
      → Leaves t (update_live order_id entry remaining quantity is_cancel t)
  unfolding update_live
  update_live-Leaves order_id entry remaining quantity true t e s =
      closing-Continue order_id entry t e (rw s)
  update_live-Leaves order_id entry remaining quantity false t e s =
      elim (Option-cases (safe_sub remaining quantity)) [
        | inl overflows ↦ rw (overflows, update_live) refl
        | inr (left, q) ↦
            rw (q, update_live)
              (elim (Bool-cases (ltb_ℤ left t.tolerance)) [
                | inl low ↦ rw low (closing-Continue order_id entry t e (rw s))
                | inr more ↦ rw more (
                    set_status-Continue order_id entry (live left) t e
                      (rw s (omega arith, λ c. cc)))
              ])
      ]

  update_entry-Leaves :
      (order_id : ℕ) (quantity : Amount) (is_cancel : Bool) (entry : OrderEntry)
      (status : OrderStatus) (t : Tracker)
      → lookup order_id t.orders ≡ some entry
      → entry.status ≡ status
      → Leaves t (update_entry order_id quantity is_cancel entry status t)
  unfolding update_entry
  update_entry-Leaves order_id quantity true entry (sent q) t e s =
      closing-Continue order_id entry t e (rw s)
  update_entry-Leaves order_id quantity false entry (sent q) t e s = refl
  update_entry-Leaves order_id quantity is_cancel entry (live q) t e s =
      update_live-Leaves order_id entry q quantity is_cancel t e s
  update_entry-Leaves order_id quantity is_cancel entry (cancelled q) t e s =
      checked-Leaves (is_cancel && ltb_ℤ quantity t.tolerance) _ _ t
  update_entry-Leaves order_id quantity is_cancel entry send_failed t e s =
      checked-Leaves (is_cancel && ltb_ℤ quantity t.tolerance) _ _ t

  pub update_order_status-Leaves :
      (order_id : ℕ) (quantity : Amount) (is_cancel : Bool) (t : Tracker)
      → Leaves t (update_order_status order_id quantity is_cancel t)
  unfolding update_order_status
  update_order_status-Leaves order_id quantity is_cancel t =
      elim (Option-cases (lookup order_id t.orders)) [
        | inl missing ↦ rw (missing, update_order_status) refl
        | inr (entry, e) ↦
            rw (e, update_order_status)
              (update_entry-Leaves order_id quantity is_cancel entry entry.status t e refl)
      ]

  -- A write to the log after a call that has succeeded.
  then-Leaves :
      {A : Type 0} (t : Tracker) (r : Result TrackerError A × Tracker) (k : A → Tracker → Tracker)
      → ((a : A) (u : Tracker) → (k a u).orders ≡ u.orders)
      → Leaves t r
      → Leaves {A = Unit {0}} t (elim r.0 [ ok a ↦ (ok (tt {0}), k a r.1) | err e ↦ (err e, r.1) ])
  then-Leaves t (ok a, u) k same h = λ j. rw (same a u) (h j)
  then-Leaves t (err e, u) k same h = h

  publish_if_live-orders :
      (r : Report) (a : Updated) (u : Tracker) → (publish_if_live r a u).orders ≡ u.orders
  unfolding publish_if_live
  publish_if_live-orders r a u = ground arith

  -- A notification of the exchange that is refused leaves the tracker as it was; one that is taken
  -- keeps every tracked order, with its order and session, and moves its status only from sent to
  -- live to closed, never out of a closed status.
  pub handle_order_notification-Leaves :
      (n : ConnectorNotification) (t : Tracker) → Leaves t (handle_order_notification n t)
  unfolding handle_order_notification
  handle_order_notification-Leaves (session_logon s) t = same-Continue t.orders
  handle_order_notification-Leaves (session_logout s) t = same-Continue t.orders
  handle_order_notification-Leaves (rejects r) t =
      then-Leaves t (update_order_status r.order_id r.quantity true t)
        (λ a. publish (cancel_report r rejected a)) (λ a u. refl)
        (update_order_status-Leaves r.order_id r.quantity true t)
  handle_order_notification-Leaves (fills r lot_id fee) t =
      then-Leaves t (update_order_status r.order_id r.quantity false t)
        (λ a. publish (fill_report r lot_id fee a)) (λ a u. refl)
        (update_order_status-Leaves r.order_id r.quantity false t)
  handle_order_notification-Leaves (new_order_ack r) t =
      update_order_new-Leaves r.order_id r.quantity t
  handle_order_notification-Leaves (cancels r) t =
      then-Leaves t (update_order_status r.order_id r.quantity true t) (publish_if_live r)
        (publish_if_live-orders r) (update_order_status-Leaves r.order_id r.quantity true t)

-- `new_order` in a run.
abbrev is_tracked : Option OrderEntry → Bool
is_tracked none = false
is_tracked (some e) = true

-- The tracker after notifications, refused ones included.
unfoldable pub notified : ⦃d : Decimal⦄ → List ConnectorNotification → Tracker → Tracker
notified [] t = t
notified (n ∷ ns) t = notified ns (handle_order_notification n t).1

module _ ⦃d : Decimal⦄ where
  Leaves-Continue :
      {A : Type 0} (t : Tracker) (r : Result TrackerError A × Tracker)
      → Leaves {A = A} t r
      → Continue t.orders r.1.orders
  Leaves-Continue t (ok a, t') h = h
  Leaves-Continue t (err e, t') h = rw h (same-Continue t.orders)

  notified-Continue :
      (ns : List ConnectorNotification) (t : Tracker) → Continue t.orders (notified ns t).orders
  unfolding notified
  notified-Continue [] t j = same-Continue t.orders j
  notified-Continue (n ∷ ns) t j =
      let t₁ = (handle_order_notification n t).1 in
      Continues-trans (lookup j t.orders) (lookup j t₁.orders) (lookup j (notified ns t₁).orders)
        (Leaves-Continue t (handle_order_notification n t) (handle_order_notification-Leaves n t) j)
        (notified-Continue ns t₁ j)

tracked-Continues :
    (o o' : Option OrderEntry) → Continues o o' → is_tracked o ≡ true → is_tracked o' ≡ true
tracked-Continues none o' c h = cc
tracked-Continues (some e) none c h = absurd c
tracked-Continues (some e) (some e') c h = refl

new_order_tracks :
    (send_order : ℕ → SingleOrder → Bool) (order : SingleOrder) (t : Tracker) (session_id : ℕ)
    → t.session ≡ some session_id
    → is_tracked (lookup order.order_id (new_order send_order order t).1.orders) ≡ true
unfolding new_order
new_order_tracks send_order order t session_id s = ground (
  arith,
  lookup-insert order.order_id order.order_id (new_entry session_id order) t.orders,
  lookup-insert order.order_id order.order_id
      (record (new_entry session_id order) { status = send_failed })
      (insert order.order_id (new_entry session_id order) t.orders),
)

-- Of an order that is tracked, a second `new_order` changes nothing and does not reach the exchange.
abbrev pub Refused : Tracker → Result TrackerError (Unit {0}) × Tracker → Type 0
Refused t r = (r.1 ≡ t) × ((r.0 ≡ err no_session) ⊎ (r.0 ≡ err already_sent))

new_order_tracked :
    (send_order : ℕ → SingleOrder → Bool) (order : SingleOrder) (t : Tracker)
    → is_tracked (lookup order.order_id t.orders) ≡ true
    → Refused t (new_order send_order order t)
unfolding new_order
new_order_tracked send_order order t h = (ground arith, ground arith)

-- Once a connected session has taken an order, whether its sending failed or not, and whatever
-- the exchange then says, a later `new_order` with the same identifier is refused, changes
-- nothing, and does not depend on what the order connector would do.
pub new_order_once :
    ⦃d : Decimal⦄
    → (send_order send_again : ℕ → SingleOrder → Bool) (order again : SingleOrder)
      (ns : List ConnectorNotification) (t : Tracker) (session_id : ℕ)
    → t.session ≡ some session_id
    → again.order_id ≡ order.order_id
    → let later = notified ns (new_order send_order order t).1 in
      Refused later (new_order send_again again later)
new_order_once send_order send_again order again ns t session_id s same =
    let t₁ = (new_order send_order order t).1 in
    new_order_tracked send_again again (notified ns t₁) (
      rw same (
        tracked-Continues (lookup order.order_id t₁.orders)
          (lookup order.order_id (notified ns t₁).orders) (notified-Continue ns t₁ order.order_id)
          (new_order_tracks send_order order t session_id s)))
