-- ===== src/Solver/Runs.antt =====
-- src/solver/solver_order/solver_order.rs, `SolverClientOrders`: any sequence of calls.
use mathlib.Core.List.{Memᴰ}
use index_maker.Prelude.{
  ◌==◌, ==_iff, Bool-cases, Option-cases, ℕ, ◌≡◌, refl, sym, ap, ◌∙◌, inl, inr, Bool, false, Option,
  none, some, List, [], ◌∷◌, of_some,
}
use index_maker.Prelude.Int.{ℤ}
use index_maker.Decimal.{Amount, Decimal, safe_sub}
use index_maker.Bits.{Symbol, Side}
use index_maker.Prelude.Keyed.{erase_key}
use index_maker.Solver.Erased.{
  order_eq-other, There-of_erase_key, popped-Ok, without-Ok, without-inside, popped-inside,
}
use index_maker.Solver.Orders.{
  SolverOrderStatus, SolverOrder, User, OrderKey, user_eq, order_eq, SolverClientOrders,
  get_client_order, queue_of, first_ready, serve_first, get_next_client_order, put_back,
  new_order_of, add_client_order, without, after_front, dequeue_from, dequeue, cancel_client_order,
  is_open, update_client_order,
}
use index_maker.Solver.Preserved.{
  notify-IsQueued, put_order-IsQueued, put_back-IsQueued, enqueue-IsQueued,
}
use index_maker.Solver.Queued.{
  There, There-erase_key, IsQueued, put_queue-IsQueued, drop_queue-IsQueued,
}

-- The order is there, and is taken out.
module _ (user : User) (i : ℕ) (s : SolverClientOrders) (q : IsQueued s)
    (there : There s.client_orders user i) where
  abbrev left_over : List (OrderKey × SolverOrder)
  left_over = erase_key order_eq (user, i) s.client_orders

  left_over-keeps :
      (v : User) (k : ℕ) → user_eq user v ≡ false → There s.client_orders v k → There left_over v k
  left_over-keeps v k other =
      There-erase_key user v i k s.client_orders (order_eq-other user v i k other)

  left_over-adds :
      (v : User) (k : ℕ) → user_eq user v ≡ false → There left_over v k → There s.client_orders v k
  left_over-adds v k other = There-of_erase_key user v i k s.client_orders

  queue_inside :
      (queue : List ℕ)
      → queue_of user s ≡ some queue
      → (k : ℕ) → There s.client_orders user k
      → Memᴰ k queue
  queue_inside queue h k here =
      let (found, h', m) = q.queued user k here in rw (← of_some (sym h' ∙ h)) m

  after_front-IsQueued :
      (queue : List ℕ)
      → queue_of user s ≡ some (i ∷ queue)
      → IsQueued (after_front user queue (record s { client_orders = left_over }))
  after_front-IsQueued [] h =
      drop_queue-IsQueued user left_over s q left_over-keeps left_over-adds (λ k here.
        elim (popped-inside user i s.client_orders [] (queue_inside (i ∷ []) h) k here) [ ])
  after_front-IsQueued (j ∷ queue) h = notify-IsQueued user _ (
      put_queue-IsQueued user left_over s q left_over-keeps left_over-adds (j ∷ queue)
        (popped-Ok user i s.client_orders (j ∷ queue) (λ e. cc) (q.queues user (i ∷ j ∷ queue) h))
        (popped-inside user i s.client_orders (j ∷ queue) (queue_inside (i ∷ j ∷ queue) h)))

  dequeue_from-IsQueued :
      (found : Option (List ℕ))
      → queue_of user s ≡ found
      → IsQueued (dequeue_from user i found (record s { client_orders = left_over }))
  dequeue_from-IsQueued none h = let (found, h', m) = q.queued user i there in cc
  dequeue_from-IsQueued (some []) h = absurd ((q.queues user [] h).filled refl)
  dequeue_from-IsQueued (some (j ∷ queue)) h = elim (Bool-cases (j == i)) [
    | inl same ↦
        rw same (after_front-IsQueued queue (h ∙ ap (λ k. some (k ∷ queue)) ((==_iff j i).0 same)))
    | inr other ↦
        let put =
          put_queue-IsQueued user left_over s q left_over-keeps left_over-adds
            (without i (j ∷ queue))
            (without-Ok user i s.client_orders j queue other (q.queues user (j ∷ queue) h))
            (without-inside user i s.client_orders (j ∷ queue) (queue_inside (j ∷ queue) h)) in
        rw other (rw other at put)
  ]

add_client_order-IsQueued :
    (user : User) (i : ℕ) (symbol : Symbol) (side : Side) (collateral_amount : Amount)
    (timestamp : ℤ) (s : SolverClientOrders)
    → IsQueued s
    → IsQueued (add_client_order user i symbol side collateral_amount timestamp s).1
unfolding add_client_order get_client_order
add_client_order-IsQueued user i symbol side collateral_amount timestamp s q =
    elim (Option-cases (get_client_order user i s)) [
      | inl h ↦
          rw (h, add_client_order)
            (enqueue-IsQueued user i (new_order_of user i symbol side collateral_amount timestamp) s
              h q)
      | inr (order, h) ↦ rw (h, add_client_order) q
    ]

cancel_client_order-IsQueued :
    (user : User) (i : ℕ) (s : SolverClientOrders)
    → IsQueued s
    → IsQueued (cancel_client_order user i s).1
unfolding cancel_client_order get_client_order dequeue
cancel_client_order-IsQueued user i s q = elim (Option-cases (get_client_order user i s)) [
  | inl h ↦ rw (h, cancel_client_order) q
  | inr (order, h) ↦
      rw (h, cancel_client_order)
        (dequeue_from-IsQueued user i s q (order, h) (queue_of user s) refl)
]

serve_first-IsQueued :
    (waiting : List User) (timestamp : ℤ) (s : SolverClientOrders)
    → IsQueued s
    → IsQueued (serve_first waiting timestamp s).1
unfolding serve_first
serve_first-IsQueued [] timestamp s q = q
serve_first-IsQueued (user ∷ waiting) timestamp s q =
    elim (Option-cases (first_ready user timestamp s)) [
      | inl h ↦ rw (h, serve_first) q
      | inr (order, h) ↦ rw (h, serve_first) (record { queues = q.queues; queued = q.queued })
    ]

module _ ⦃d : Decimal⦄ where
  update_client_order-IsQueued :
      (user : User) (i : ℕ) (collateral_removed : Amount) (timestamp : ℤ) (s : SolverClientOrders)
      → IsQueued s
      → IsQueued (update_client_order user i collateral_removed timestamp s).1
  unfolding update_client_order get_client_order
  update_client_order-IsQueued user i collateral_removed timestamp s q =
      elim (Option-cases (get_client_order user i s)) [
        | inl h ↦ rw (h, update_client_order) q
        | inr (order, h) ↦
            elim (Option-cases (safe_sub order.remaining_collateral collateral_removed)) [
              | inl h' ↦ rw (h, update_client_order, h') q
              | inr (remaining, h') ↦
                  let put =
                    put_order-IsQueued user i
                      (record order { remaining_collateral = remaining; timestamp = timestamp }) s
                      (order, h) q in
                  elim (Bool-cases (is_open order.status)) [
                    | inl fresh ↦
                        rw (h, update_client_order, h', fresh)
                          (record { queues = put.queues; queued = put.queued })
                    | inr other ↦ rw (h, update_client_order, h', other) put
                  ]
            ]
      ]

  pub data Call : Type 0 where
    add : User → ℕ → Symbol → Side → Amount → ℤ → Call
    cancel : User → ℕ → Call
    update : User → ℕ → Amount → ℤ → Call
    next : ℤ → Call
    back : User → ℕ → Bool → SolverOrderStatus → ℤ → Call

  abbrev pub call : Call → SolverClientOrders → SolverClientOrders
  call (add user i symbol side amount t) s = (add_client_order user i symbol side amount t s).1
  call (cancel user i) s = (cancel_client_order user i s).1
  call (update user i amount t) s = (update_client_order user i amount t s).1
  call (next t) s = (get_next_client_order t s).1
  call (back user i current status t) s = put_back user i current status t s

  abbrev pub calls : List Call → SolverClientOrders → SolverClientOrders
  calls [] s = s
  calls (c ∷ cs) s = calls cs (call c s)

  call-IsQueued : (c : Call) (s : SolverClientOrders) → IsQueued s → IsQueued (call c s)
  unfolding get_next_client_order
  call-IsQueued (add user i symbol side amount t) s q =
      add_client_order-IsQueued user i symbol side amount t s q
  call-IsQueued (cancel user i) s q = cancel_client_order-IsQueued user i s q
  call-IsQueued (update user i amount t) s q = update_client_order-IsQueued user i amount t s q
  call-IsQueued (next t) s q = serve_first-IsQueued s.client_notify_queue t s q
  call-IsQueued (back user i current status t) s q = put_back-IsQueued user i current status t s q

  -- Whatever is called, in whatever order and with whatever outcome: the queue of a client is not
  -- empty, holds each order at most once and only orders that are in the map, and each order of the
  -- client that is in the map is in that queue, if all this held before.
  pub calls-IsQueued :
      (cs : List Call) (s : SolverClientOrders) → IsQueued s → IsQueued (calls cs s)
  calls-IsQueued [] s q = q
  calls-IsQueued (c ∷ cs) s q = calls-IsQueued cs (call c s) (call-IsQueued c s q)
