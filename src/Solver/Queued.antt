-- ===== src/Solver/Queued.antt =====
-- src/solver/solver_order/solver_order.rs: every queued order is there, once, and every order that is
-- there is queued.
use mathlib.Core.List.{Memᴰ}
use index_maker.Prelude.{
  ◌==◌, ==_iff, Bool-cases, ℕ, ◌≡◌, refl, sym, ap, ◌∙◌, ◌≢◌, inl, inr, false, none, some, List, [],
  ◌∷◌, ◌++◌, arith, length, All, length-append, All-map, Pairwise, of_some,
}
use index_maker.Prelude.Int.{ℤ}
use index_maker.Prelude.Keyed.{
  find_key, put_key, find_key-put_self, erase_key, find_key-erase_self, IsTest, find_key-put_other,
  find_key-erase_other, of_both,
}
use index_maker.Solver.Orders.{
  SolverOrder, User, OrderKey, user_eq, order_eq, SolverClientOrders, new_orders, queue_of,
  put_queue, drop_queue,
}

pub user_eq-IsTest : IsTest user_eq
user_eq-IsTest = record {
  sound = λ (a, b) (c, e) h.
      let (left, right) = of_both (a == c) (b == e) h in
      rw ((==_iff a c).0 left, (==_iff b e).0 right) refl;
  reflexive = λ (a, b). rw ((==_iff a a).1 refl, (==_iff b b).1 refl) refl;
}

pub order_eq-IsTest : IsTest order_eq
order_eq-IsTest = record {
  sound = λ (u, i) (v, j) h.
      let (left, right) = of_both (user_eq u v) (i == j) h in
      rw (user_eq-IsTest.sound u v left, (==_iff i j).0 right) refl;
  reflexive = λ (u, i). rw (user_eq-IsTest.reflexive u, (==_iff i i).1 refl) refl;
}

-- The order is there.
abbrev pub There : List (OrderKey × SolverOrder) → User → ℕ → Type 0
There orders user i = (order : SolverOrder) × (find_key order_eq (user, i) orders ≡ some order)

pub There-put_key :
    (u v : User) (i k : ℕ) (order : SolverOrder) (orders : List (OrderKey × SolverOrder))
    → There orders v k
    → There (put_key order_eq (u, i) order orders) v k
There-put_key u v i k order orders (old, h) = elim (Bool-cases (order_eq (u, i) (v, k))) [
  | inl same ↦ (
    order,
    rw (order_eq-IsTest.sound (u, i) (v, k) same)
        (find_key-put_self order_eq (v, k) order orders (order_eq-IsTest.reflexive (v, k))),
  )
  | inr other ↦
      (old, find_key-put_other order_eq order_eq-IsTest (u, i) (v, k) order orders other ∙ h)
]

pub There-of_put_key :
    (u v : User) (i k : ℕ) (order : SolverOrder) (orders : List (OrderKey × SolverOrder))
    → order_eq (u, i) (v, k) ≡ false
    → There (put_key order_eq (u, i) order orders) v k
    → There orders v k
There-of_put_key u v i k order orders other (o, h) =
    (o, sym (find_key-put_other order_eq order_eq-IsTest (u, i) (v, k) order orders other) ∙ h)

pub There-erase_key :
    (u v : User) (i k : ℕ) (orders : List (OrderKey × SolverOrder))
    → order_eq (u, i) (v, k) ≡ false
    → There orders v k
    → There (erase_key order_eq (u, i) orders) v k
There-erase_key u v i k orders other (o, h) =
    (o, find_key-erase_other order_eq order_eq-IsTest (u, i) (v, k) orders other ∙ h)

-- A queue is not empty, its orders are there, and none is in it twice.
pub record QueueOk (orders : List (OrderKey × SolverOrder)) (user : User) (queue : List ℕ)
    : Type 0 where
  pub filled : queue ≢ []
  pub known : All (λ i. There orders user i) queue
  pub distinct : Pairwise ◌≢◌ queue

pub record IsQueued (s : SolverClientOrders) : Type 0 where
  pub queues :
      (user : User) (queue : List ℕ)
      → queue_of user s ≡ some queue
      → QueueOk s.client_orders user queue
  pub queued :
      (user : User) (i : ℕ)
      → There s.client_orders user i
      → (queue : List ℕ) × (queue_of user s ≡ some queue) × Memᴰ i queue

pub new_orders-IsQueued : (client_wait_period : ℤ) → IsQueued (new_orders client_wait_period)
unfolding find_key
new_orders-IsQueued client_wait_period = record {
  queues = λ user queue h. cc;
  queued = λ user i (order, h). cc;
}

pub All-ne :
    (orders : List (OrderKey × SolverOrder)) (user : User) (i : ℕ) (queue : List ℕ)
    → find_key order_eq (user, i) orders ≡ none
    → All (λ k. There orders user k) queue
    → All (λ k. k ≢ i) queue
All-ne orders user i [] h known = tt
All-ne orders user i (k ∷ queue) h known =
    (λ e. let here = rw e at known.0.1 in cc, All-ne orders user i queue h known.1)

pub append-ne-nil : (queue : List ℕ) (i : ℕ) → (queue ++ i ∷ []) ≢ []
append-ne-nil queue i e = absurd (omega (arith, ap length e, length-append {0} queue (i ∷ [])))

pub QueueOk-map :
    {orders orders' : List (OrderKey × SolverOrder)} {user : User} {queue : List ℕ}
    → ((k : ℕ) → There orders user k → There orders' user k)
    → QueueOk orders user queue
    → QueueOk orders' user queue
QueueOk-map {queue = queue} keeps ok_queue = record {
  filled = ok_queue.filled;
  known = All-map _ _ keeps queue ok_queue.known;
  distinct = ok_queue.distinct;
}

-- A change of the orders and of the queue of one user.
module _ (user : User) (orders : List (OrderKey × SolverOrder)) (s : SolverClientOrders)
    (q : IsQueued s)
    (keeps : (v : User) (k : ℕ)
      → user_eq user v ≡ false
      → There s.client_orders v k
      → There orders v k)
    (adds : (v : User) (k : ℕ)
      → user_eq user v ≡ false
      → There orders v k
      → There s.client_orders v k) where
  pub put_queue-IsQueued :
      (queue : List ℕ)
      → QueueOk orders user queue
      → ((k : ℕ) → There orders user k → Memᴰ k queue)
      → IsQueued (put_queue user queue (record s { client_orders = orders }))
  put_queue-IsQueued queue good inside = record { queues = queues; queued = queued }
    where
      queues :
          (v : User) (found : List ℕ)
          → find_key user_eq v (put_key user_eq user queue s.client_order_queues) ≡ some found
          → QueueOk orders v found
      queues v found h = elim (Bool-cases (user_eq user v)) [
        | inl same ↦
            let e = user_eq-IsTest.sound user v same in
            let self =
              find_key-put_self user_eq v queue s.client_order_queues
                (user_eq-IsTest.reflexive v) in
            rw (← of_some (sym self ∙ rw e at h), ← e) good
        | inr other ↦
            QueueOk-map (λ k. keeps v k other)
              (q.queues v found (
                sym (
                  find_key-put_other user_eq user_eq-IsTest user v queue s.client_order_queues
                    other)
                ∙ h))
      ]

      queued :
          (v : User) (k : ℕ)
          → There orders v k
          → (found : List ℕ) × (find_key user_eq v
                (put_key user_eq user queue s.client_order_queues)
              ≡ some found)
            × Memᴰ k found
      queued v k there = elim (Bool-cases (user_eq user v)) [
        | inl same ↦
            let e = user_eq-IsTest.sound user v same in
            (
              queue,
              rw e (
                  find_key-put_self user_eq v queue s.client_order_queues
                    (user_eq-IsTest.reflexive v)),
              inside k (rw e there),
            )
        | inr other ↦
            let (found, h, m) = q.queued v k (adds v k other there) in
            (
              found,
              find_key-put_other user_eq user_eq-IsTest user v queue s.client_order_queues other
                  ∙ h,
              m,
            )
      ]

  pub drop_queue-IsQueued :
      ((k : ℕ) → ¬ There orders user k)
      → IsQueued (drop_queue user (record s { client_orders = orders }))
  drop_queue-IsQueued nobody = record { queues = queues; queued = queued }
    where
      queues :
          (v : User) (found : List ℕ)
          → find_key user_eq v (erase_key user_eq user s.client_order_queues) ≡ some found
          → QueueOk orders v found
      queues v found h = elim (Bool-cases (user_eq user v)) [
        | inl same ↦
            let e = user_eq-IsTest.sound user v same in
            let gone = find_key-erase_self user_eq v s.client_order_queues in
            let here = rw e at h in cc
        | inr other ↦
            QueueOk-map (λ k. keeps v k other)
              (q.queues v found (
                sym (find_key-erase_other user_eq user_eq-IsTest user v s.client_order_queues other)
                ∙ h))
      ]

      queued :
          (v : User) (k : ℕ)
          → There orders v k
          → (found : List ℕ) × (find_key user_eq v (erase_key user_eq user s.client_order_queues)
              ≡ some found)
            × Memᴰ k found
      queued v k there = elim (Bool-cases (user_eq user v)) [
        | inl same ↦ absurd (nobody k (rw (user_eq-IsTest.sound user v same) there))
        | inr other ↦
            let (found, h, m) = q.queued v k (adds v k other there) in
            (
              found,
              find_key-erase_other user_eq user_eq-IsTest user v s.client_order_queues other ∙ h,
              m,
            )
      ]
