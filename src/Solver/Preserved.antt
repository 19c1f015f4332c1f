-- ===== src/Solver/Preserved.antt =====
-- src/solver/solver_order/solver_order.rs: the operations keep what is said of the queues.
use mathlib.Core.List.{Memᴰ}
use mathlib.Core.List.Memᴰ
use index_maker.Prelude.{
  Bool-cases, Option-cases, ℕ, ◌≡◌, refl, sym, ap, ◌∙◌, ◌≢◌, ◌⊎◌, inl, inr, Bool, true, false,
  Option, none, some, List, [], ◌∷◌, ◌++◌, All-map, All-append, Pairwise-append, of_some,
}
use index_maker.Prelude.Int.{ℤ}
use index_maker.Prelude.Keyed.{find_key, put_key, find_key-put_self}
use index_maker.Solver.Erased.{order_eq-other}
use index_maker.Solver.Orders.{
  SolverOrderStatus, SolverOrder, User, OrderKey, user_eq, order_eq, SolverClientOrders,
  get_client_order, queue_of, notify, change_order, put_back, enqueue,
}
use index_maker.Solver.Queued.{
  order_eq-IsTest, There, There-put_key, There-of_put_key, QueueOk, IsQueued, All-ne, append-ne-nil,
  QueueOk-map, put_queue-IsQueued,
}

pub notify-IsQueued : (user : User) (s : SolverClientOrders) → IsQueued s → IsQueued (notify user s)
notify-IsQueued user s q = record { queues = q.queues; queued = q.queued }

-- An order that is there changes.
pub put_order-IsQueued :
    (user : User) (i : ℕ) (order : SolverOrder) (s : SolverClientOrders)
    → There s.client_orders user i
    → IsQueued s
    → IsQueued (record s { client_orders = put_key order_eq (user, i) order s.client_orders })
put_order-IsQueued user i order s old q = record {
  queues = λ v queue h.
      QueueOk-map (λ k. There-put_key user v i k order s.client_orders) (q.queues v queue h);
  queued = queued;
}
  where
    queued :
        (v : User) (k : ℕ)
        → There (put_key order_eq (user, i) order s.client_orders) v k
        → (queue : List ℕ) × (queue_of v s ≡ some queue) × Memᴰ k queue
    queued v k there = elim (Bool-cases (order_eq (user, i) (v, k))) [
      | inl same ↦
          let e = order_eq-IsTest.sound (user, i) (v, k) same in
          let here : There s.client_orders v k = (old.0, rw (← e) old.1) in q.queued v k here
      | inr other ↦ q.queued v k (There-of_put_key user v i k order s.client_orders other there)
    ]

change_order-IsQueued :
    (user : User) (i : ℕ) (f : SolverOrder → SolverOrder) (s : SolverClientOrders)
    → IsQueued s
    → IsQueued (change_order user i f s)
unfolding get_client_order
change_order-IsQueued user i f s q = go (get_client_order user i s) refl
  where
    go :
        (found : Option SolverOrder)
        → get_client_order user i s ≡ found
        → IsQueued (elim found as (λ _. SolverClientOrders) [
          | none ↦ s
          | some order ↦ record s {
            client_orders = put_key order_eq (user, i) (f order) s.client_orders;
          }
        ])
    go none h = q
    go (some order) h = put_order-IsQueued user i (f order) s (order, h) q

pub put_back-IsQueued :
    (user : User) (i : ℕ) (current : Bool) (status : SolverOrderStatus) (timestamp : ℤ)
    (s : SolverClientOrders)
    → IsQueued s
    → IsQueued (put_back user i current status timestamp s)
unfolding put_back
put_back-IsQueued user i true status timestamp s q = notify-IsQueued user _ (
    change_order-IsQueued user i (λ order. record order { status = status; timestamp = timestamp })
      s q)
put_back-IsQueued user i false status timestamp s q = notify-IsQueued user s q

module _ (user : User) (i : ℕ) (order : SolverOrder) (s : SolverClientOrders)
    (fresh : find_key order_eq (user, i) s.client_orders ≡ none) (q : IsQueued s) where
  abbrev pub with_new : List (OrderKey × SolverOrder)
  with_new = put_key order_eq (user, i) order s.client_orders

  with_new_keeps : (v : User) (k : ℕ) → There s.client_orders v k → There with_new v k
  with_new_keeps v k = There-put_key user v i k order s.client_orders

  with_new_adds :
      (v : User) (k : ℕ) → user_eq user v ≡ false → There with_new v k → There s.client_orders v k
  with_new_adds v k other =
      There-of_put_key user v i k order s.client_orders (order_eq-other user v i k other)

  with_new_self : There with_new user i
  with_new_self = (
    order,
    find_key-put_self order_eq (user, i) order s.client_orders
        (order_eq-IsTest.reflexive (user, i)),
  )

  -- A new order is the one that is added or was there.
  with_new_cases : (k : ℕ) → There with_new user k → (k ≡ i) ⊎ There s.client_orders user k
  with_new_cases k there = elim (Bool-cases (order_eq (user, i) (user, k))) [
    | inl same ↦ inl (sym (ap (λ x. x.1) (order_eq-IsTest.sound (user, i) (user, k) same)))
    | inr other ↦ inr (There-of_put_key user user i k order s.client_orders other there)
  ]

  appended-Ok :
      (queue : List ℕ) → queue_of user s ≡ some queue → QueueOk with_new user (queue ++ i ∷ [])
  appended-Ok queue h =
      let good = q.queues user queue h in
      record {
        filled = append-ne-nil queue i;
        known =
            All-append _ queue (i ∷ []) (All-map _ _ (with_new_keeps user) queue good.known)
              (with_new_self, tt);
        distinct =
            Pairwise-append ◌≢◌ queue (i ∷ []) good.distinct (tt, tt)
              (All-map _ _ (λ k ne. (ne, tt)) queue
                (All-ne s.client_orders user i queue fresh good.known));
      }

  appended-inside :
      (queue : List ℕ)
      → queue_of user s ≡ some queue
      → (k : ℕ) → There with_new user k
      → Memᴰ k (queue ++ i ∷ [])
  appended-inside queue h k there = elim (with_new_cases k there) [
    | inl e ↦ Memᴰ.append_right queue (Memᴰ.head e)
    | inr old ↦
        let (found, h', m) = q.queued user k old in
        Memᴰ.append_left (i ∷ []) (rw (← of_some (sym h' ∙ h)) m)
  ]

  pub enqueue-IsQueued : IsQueued (enqueue user i (record s { client_orders = with_new }))
  unfolding enqueue
  enqueue-IsQueued = elim (Option-cases (queue_of user s)) [
    | inl h ↦
        let alone : (k : ℕ) → There with_new user k → Memᴰ k (i ∷ []) = λ k there.
          elim (with_new_cases k there) [
            | inl e ↦ Memᴰ.head e
            | inr old ↦ let (found, h', m) = q.queued user k old in cc
          ] in
        let good : QueueOk with_new user (i ∷ []) = record {
          filled = λ e. cc;
          known = (with_new_self, tt);
          distinct = (tt, tt);
        } in
        rw (h, enqueue)
          (notify-IsQueued user _ (
            put_queue-IsQueued user with_new s q (λ v k other. with_new_keeps v k) with_new_adds
              (i ∷ []) good alone))
    | inr (queue, h) ↦
        rw (h, enqueue)
          (put_queue-IsQueued user with_new s q (λ v k other. with_new_keeps v k) with_new_adds
            (queue ++ i ∷ []) (appended-Ok queue h) (appended-inside queue h))
  ]
