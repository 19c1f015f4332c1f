-- ===== src/Solver/Starved.antt =====
-- src/solver/solver_order/solver_order.rs, `cancel_client_order` and `get_next_client_order`: no client
-- is served any more.
use index_maker.Prelude.{
  ==_iff, Bool-cases, Option-cases, ℕ, ◌≡◌, refl, ap, ◌∙◌, inl, inr, true, false, Option, none,
  some, List, [], ◌∷◌, All,
}
use index_maker.Prelude.Int.{ℤ}
use index_maker.Decimal.{Amount, Decimal, safe_sub}
use index_maker.Bits.{Symbol, Side}
use index_maker.Prelude.Keyed.{put_key, find_key-erase_self}
use index_maker.Solver.Blocked.{
  IsBlocked, append-IsStuck, moved_back-IsStuck, enqueue-IsBlocked, dequeue_from-IsBlocked,
}
use index_maker.Solver.Orders.{
  SolverOrder, User, user_eq, order_eq, SolverClientOrders, get_client_order, queue_of, first_ready,
  serve_first, get_next_client_order, change_order, put_back, add_client_order, dequeue,
  cancel_client_order, is_open, update_client_order,
}
use index_maker.Solver.Queued.{There}
use index_maker.Solver.Runs.{Call, add, cancel, update, next, back, call, calls}

-- `cancel_client_order` of the only order of the client in front.
cancel-IsBlocked :
    (user : User) (i : ℕ) (behind : List User) (s : SolverClientOrders)
    → There s.client_orders user i
    → queue_of user s ≡ some (i ∷ [])
    → s.client_notify_queue ≡ user ∷ behind
    → IsBlocked user (cancel_client_order user i s).1
unfolding cancel_client_order get_client_order dequeue
cancel-IsBlocked user i behind s (order, there) alone front =
    rw (there, cancel_client_order, alone, dequeue, (==_iff i i).1 refl)
      record {
        behind = behind;
        in_front = front;
        no_queue = find_key-erase_self user_eq user s.client_order_queues;
      }

-- Nobody is served.
first_ready-blocked :
    (user : User) (timestamp : ℤ) (s : SolverClientOrders)
    → IsBlocked user s
    → first_ready user timestamp s ≡ none
unfolding first_ready
first_ready-blocked user timestamp s k = rw (k.no_queue, first_ready) refl

serve_first-none :
    (user : User) (behind : List User) (timestamp : ℤ) (s : SolverClientOrders)
    → first_ready user timestamp s ≡ none
    → serve_first (user ∷ behind) timestamp s ≡ (none, s)
unfolding serve_first
serve_first-none user behind timestamp s h = rw (h, serve_first) refl

serves_nobody :
    (user : User) (timestamp : ℤ) (s : SolverClientOrders)
    → IsBlocked user s
    → get_next_client_order timestamp s ≡ (none, s)
unfolding get_next_client_order
serves_nobody user timestamp s k =
    ap (λ w. serve_first w timestamp s) k.in_front
    ∙ serve_first-none user k.behind timestamp s (first_ready-blocked user timestamp s k)

next-IsBlocked :
    (user : User) (timestamp : ℤ) (s : SolverClientOrders)
    → IsBlocked user s
    → IsBlocked user (get_next_client_order timestamp s).1
next-IsBlocked user timestamp s k = rw (serves_nobody user timestamp s k) k

change_order-IsBlocked :
    (user v : User) (i : ℕ) (f : SolverOrder → SolverOrder) (s : SolverClientOrders)
    → IsBlocked user s
    → IsBlocked user (change_order v i f s)
change_order-IsBlocked user v i f s k = go (get_client_order v i s)
  where
    go :
        (found : Option SolverOrder)
        → IsBlocked user (elim found as (λ _. SolverClientOrders) [
          | none ↦ s
          | some order ↦ record s {
            client_orders = put_key order_eq (v, i) (f order) s.client_orders;
          }
        ])
    go none = k
    go (some order) = k

module _ ⦃d : Decimal⦄ where
  -- The call is not one that `user` makes: `get_next_client_order` and `put_back` are the solver's.
  abbrev pub NotBy : User → Call → Type 0
  NotBy user (add v i symbol side amount t) = user_eq v user ≡ false
  NotBy user (cancel v i) = user_eq v user ≡ false
  NotBy user (update v i amount t) = user_eq v user ≡ false
  NotBy user (next t) = Unit
  NotBy user (back v i current status t) = Unit

  add-IsBlocked :
      (user v : User) (i : ℕ) (symbol : Symbol) (side : Side) (amount : Amount) (t : ℤ)
      (s : SolverClientOrders)
      → user_eq v user ≡ false
      → IsBlocked user s
      → IsBlocked user (add_client_order v i symbol side amount t s).1
  unfolding add_client_order
  add-IsBlocked user v i symbol side amount t s other k =
      elim (Option-cases (get_client_order v i s)) [
        | inl h ↦ rw (h, add_client_order) (enqueue-IsBlocked user v other i _ k)
        | inr (order, h) ↦ rw (h, add_client_order) k
      ]

  cancel_other-IsBlocked :
      (user v : User) (i : ℕ) (s : SolverClientOrders)
      → user_eq v user ≡ false
      → IsBlocked user s
      → IsBlocked user (cancel_client_order v i s).1
  unfolding cancel_client_order dequeue
  cancel_other-IsBlocked user v i s other k = elim (Option-cases (get_client_order v i s)) [
    | inl h ↦ rw (h, cancel_client_order) k
    | inr (order, h) ↦
        rw (h, cancel_client_order) (dequeue_from-IsBlocked user v other i (queue_of v s) _ k)
  ]

  update-IsBlocked :
      (user v : User) (i : ℕ) (amount : Amount) (t : ℤ) (s : SolverClientOrders)
      → user_eq v user ≡ false
      → IsBlocked user s
      → IsBlocked user (update_client_order v i amount t s).1
  unfolding update_client_order
  update-IsBlocked user v i amount t s other k = elim (Option-cases (get_client_order v i s)) [
    | inl h ↦ rw (h, update_client_order) k
    | inr (order, h) ↦ elim (Option-cases (safe_sub order.remaining_collateral amount)) [
      | inl h' ↦ rw (h, update_client_order, h') k
      | inr (remaining, h') ↦ elim (Bool-cases (is_open order.status)) [
        | inl fresh ↦ rw (h, update_client_order, h', fresh) (moved_back-IsStuck user v other k)
        | inr later ↦ rw (h, update_client_order, h', later) k
      ]
    ]
  ]

  call-IsBlocked :
      (user : User) (c : Call) (s : SolverClientOrders)
      → NotBy user c
      → IsBlocked user s
      → IsBlocked user (call c s)
  unfolding put_back
  call-IsBlocked user (add v i symbol side amount t) s other k =
      add-IsBlocked user v i symbol side amount t s other k
  call-IsBlocked user (cancel v i) s other k = cancel_other-IsBlocked user v i s other k
  call-IsBlocked user (update v i amount t) s other k = update-IsBlocked user v i amount t s other k
  call-IsBlocked user (next t) s other k = next-IsBlocked user t s k
  call-IsBlocked user (back v i true status t) s other k =
      append-IsStuck (v ∷ []) (change_order-IsBlocked user v i _ s k)
  call-IsBlocked user (back v i false status t) s other k = append-IsStuck (v ∷ []) k

  calls-IsBlocked :
      (user : User) (cs : List Call) (s : SolverClientOrders)
      → All (NotBy user) cs
      → IsBlocked user s
      → IsBlocked user (calls cs s)
  calls-IsBlocked user [] s h k = k
  calls-IsBlocked user (c ∷ cs) s h k =
      calls-IsBlocked user cs (call c s) h.1 (call-IsBlocked user c s h.0 k)

  -- After `cancel_client_order` of the only order of the client in front of the waiting ones, whatever
  -- other clients and the solver call, as long as that client calls nothing: `get_next_client_order`
  -- gives no order at any time, and changes nothing.
  pub cancel_starves :
      (user : User) (i : ℕ) (behind : List User) (s : SolverClientOrders)
      → There s.client_orders user i
      → queue_of user s ≡ some (i ∷ [])
      → s.client_notify_queue ≡ user ∷ behind
      → (cs : List Call) → All (NotBy user) cs
      → (timestamp : ℤ)
      → let later = calls cs (cancel_client_order user i s).1 in
        get_next_client_order timestamp later ≡ (none, later)
  cancel_starves user i behind s there alone front cs others timestamp =
      serves_nobody user timestamp _
        (calls-IsBlocked user cs _ others (cancel-IsBlocked user i behind s there alone front))
