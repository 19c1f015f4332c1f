-- ===== src/Solver/Orders.antt =====
-- src/solver/solver_order/solver_order.rs, `SolverClientOrders`: the orders of all clients, a queue of
-- orders for each client, and the queue of clients that wait to be served. A shared order is its
-- entry in the map; the duplicate that an error reports is not kept.
use mathlib.Core.Option
use index_maker.Prelude.{
  ltb, ◌==◌, if◌then◌else◌, ℕ, Bool, true, false, ◌&&◌, Option, none, some, List, [], ◌∷◌, ◌++◌,
  length, ok, err, Action, if_some,
}
use index_maker.Prelude.Int.{ℤ, ◌-ℤ◌, ltb_ℤ, -ℤ◌}
use index_maker.Decimal.{Amount, zero_amount, Decimal, safe_sub}
use index_maker.Bits.{Symbol, Side}
use index_maker.Prelude.Keyed.{find_key, put_key, erase_key}
use index_maker.Solver.Lots.{SolverOrderAssetLot}

pub data SolverOrderStatus : Type 0 where
  open_order manage_collateral_order ready_order engaged partly_mintable : SolverOrderStatus
  fully_mintable minted invalid_symbol invalid_order invalid_collateral : SolverOrderStatus
  service_unavailable internal_error : SolverOrderStatus

pub record SolverOrder : Type 0 where
  pub chain_id : ℕ
  pub address : ℕ
  pub client_order_id : ℕ
  pub payment_id : Option ℕ
  pub symbol : Symbol
  pub side : Side
  pub remaining_collateral : Amount
  pub engaged_collateral : Amount
  pub collateral_carried : Amount
  pub collateral_routed : Amount
  pub collateral_spent : Amount
  pub filled_quantity : Amount
  pub created_timestamp : ℤ
  pub timestamp : ℤ
  pub status : SolverOrderStatus
  pub lots : List SolverOrderAssetLot

-- Chain and address; chain, address and client order.
abbrev pub User : Type 0
User = ℕ × ℕ

abbrev pub OrderKey : Type 0
OrderKey = User × ℕ

abbrev pub user_eq : User → User → Bool
user_eq (a, b) (c, e) = a == c && b == e

abbrev pub order_eq : OrderKey → OrderKey → Bool
order_eq (u, i) (v, j) = user_eq u v && i == j

pub record SolverClientOrders : Type 0 where
  pub client_orders : List (OrderKey × SolverOrder)
  pub client_order_queues : List (User × List ℕ)
  pub client_notify_queue : List User
  pub client_wait_period : ℤ

pub data OrdersError : Type 0 where
  duplicate_client_order_id failed_to_remove missing_order math_problem : OrdersError

abbrev pub OnOrders : Type 0
OnOrders = Action SolverClientOrders OrdersError (Unit {0})

abbrev pub new_orders : ℤ → SolverClientOrders
new_orders client_wait_period = record {
  client_orders = [];
  client_order_queues = [];
  client_notify_queue = [];
  client_wait_period = client_wait_period;
}

unfoldable pub get_client_order : User → ℕ → SolverClientOrders → Option SolverOrder
get_client_order user client_order_id s = find_key order_eq (user, client_order_id) s.client_orders

abbrev pub queue_of : User → SolverClientOrders → Option (List ℕ)
queue_of user s = find_key user_eq user s.client_order_queues

-- `x.timestamp <= ready_timestamp`
unfoldable pub check_ready : ℤ → SolverClientOrders → SolverOrder → Bool
check_ready timestamp s order =
    if ltb_ℤ (timestamp -ℤ s.client_wait_period) order.timestamp then false else true

abbrev pub if_ready_order : ℤ → SolverClientOrders → Option SolverOrder → Option SolverOrder
if_ready_order timestamp s none = none
if_ready_order timestamp s (some order) = if check_ready timestamp s order then some order else none

abbrev pub second_of : List ℕ → Option ℕ
second_of [] = none
second_of (i ∷ []) = none
second_of (i ∷ j ∷ queue) = some j

-- The second order of the queue, if it is ready.
unfoldable pub peek_next_client_order : User → ℤ → SolverClientOrders → Option SolverOrder
peek_next_client_order user timestamp s =
    if_some (queue_of user s)
      λ queue. if_some (second_of queue) λ j. if_ready_order timestamp s (get_client_order user j s)

-- The first order of a client's queue, if it is ready.
unfoldable pub first_ready : User → ℤ → SolverClientOrders → Option SolverOrder
first_ready user timestamp s = elim (queue_of user s) [
  | none ↦ none
  | some [] ↦ none
  | some (i ∷ queue) ↦ if_ready_order timestamp s (get_client_order user i s)
]

-- `get_next_client_order` looks at the first waiting client, and takes it out if its order is ready.
unfoldable pub serve_first :
    List User → ℤ → SolverClientOrders → Option SolverOrder × SolverClientOrders
serve_first [] timestamp s = (none, s)
serve_first (user ∷ waiting) timestamp s = elim (first_ready user timestamp s) [
  | none ↦ (none, s)
  | some order ↦ (some order, record s { client_notify_queue = waiting })
]

unfoldable pub get_next_client_order :
    ℤ → SolverClientOrders → Option SolverOrder × SolverClientOrders
unfolding serve_first
get_next_client_order timestamp s = serve_first s.client_notify_queue timestamp s

abbrev pub notify : User → SolverClientOrders → SolverClientOrders
notify user s = record s { client_notify_queue = s.client_notify_queue ++ user ∷ [] }

abbrev pub change_order :
    User → ℕ → (SolverOrder → SolverOrder) → SolverClientOrders → SolverClientOrders
change_order user i f s = elim (get_client_order user i s) [
  | none ↦ s
  | some order ↦ record s { client_orders = put_key order_eq (user, i) (f order) s.client_orders }
]

-- `put_back` of an order that `get_next_client_order` gave. The source writes through the handle that it
-- is given; `current` tells whether the order is still the entry of the map, which it is not once the
-- order was cancelled, even if another was added under its identifier.
unfoldable pub put_back :
    User → ℕ → Bool → SolverOrderStatus → ℤ → SolverClientOrders → SolverClientOrders
put_back user i current status timestamp s = notify user (
    if current
    then change_order user i (λ order. record order { status = status; timestamp = timestamp }) s
    else s)

abbrev pub new_order_of : User → ℕ → Symbol → Side → Amount → ℤ → SolverOrder
new_order_of (chain_id, address) client_order_id symbol side collateral_amount timestamp = record {
  chain_id = chain_id;
  address = address;
  client_order_id = client_order_id;
  payment_id = none;
  symbol = symbol;
  side = side;
  remaining_collateral = collateral_amount;
  engaged_collateral = zero_amount;
  collateral_carried = zero_amount;
  collateral_routed = zero_amount;
  collateral_spent = zero_amount;
  filled_quantity = zero_amount;
  created_timestamp = timestamp;
  timestamp = timestamp;
  status = open_order;
  lots = [];
}

-- `match self.client_order_queues.entry(..)` of `add_client_order`, and the notification.
unfoldable pub enqueue : User → ℕ → SolverClientOrders → SolverClientOrders
enqueue user i s = elim (queue_of user s) [
  | none ↦
      notify user
        (record s { client_order_queues = put_key user_eq user (i ∷ []) s.client_order_queues })
  | some queue ↦ record s {
    client_order_queues = put_key user_eq user (queue ++ i ∷ []) s.client_order_queues;
  }
]

unfoldable pub add_client_order : User → ℕ → Symbol → Side → Amount → ℤ → OnOrders
add_client_order user i symbol side collateral_amount timestamp s =
    elim (get_client_order user i s) [
      | some order ↦ (err duplicate_client_order_id, s)
      | none ↦ (
        ok tt,
        enqueue user i (record s {
          client_orders =
              put_key order_eq (user, i)
                (new_order_of user i symbol side collateral_amount timestamp) s.client_orders;
        }),
      )
    ]

-- `queue.retain(|x| !x.eq(&client_order_id))`
abbrev pub without : ℕ → List ℕ → List ℕ
without i [] = []
without i (j ∷ queue) = if j == i then without i queue else j ∷ without i queue

abbrev pub put_queue : User → List ℕ → SolverClientOrders → SolverClientOrders
put_queue user queue s = record s {
  client_order_queues = put_key user_eq user queue s.client_order_queues;
}

abbrev pub drop_queue : User → SolverClientOrders → SolverClientOrders
drop_queue user s = record s { client_order_queues = erase_key user_eq user s.client_order_queues }

-- What is left when the order in front is cancelled.
abbrev pub after_front : User → List ℕ → SolverClientOrders → SolverClientOrders
after_front user [] s = drop_queue user s
after_front user (j ∷ queue) s = notify user (put_queue user (j ∷ queue) s)

-- `match self.client_order_queues.entry(..)` of `cancel_client_order`, and the notification.
abbrev pub dequeue_from : User → ℕ → Option (List ℕ) → SolverClientOrders → SolverClientOrders
dequeue_from user i none s = s
dequeue_from user i (some []) s = drop_queue user s
dequeue_from user i (some (j ∷ queue)) s =
    if j == i then after_front user queue s else put_queue user (without i (j ∷ queue)) s

unfoldable pub dequeue : User → ℕ → SolverClientOrders → SolverClientOrders
dequeue user i s = dequeue_from user i (queue_of user s) s

unfoldable pub cancel_client_order : User → ℕ → OnOrders
cancel_client_order user i s = elim (get_client_order user i s) [
  | none ↦ (err failed_to_remove, s)
  | some order ↦ (
    ok tt,
    dequeue user i (record s { client_orders = erase_key order_eq (user, i) s.client_orders }),
  )
]

-- `find_position` and `remove` of the first entry of the client.
abbrev pub remove_first : User → List User → Option (List User)
remove_first user [] = none
remove_first user (v ∷ waiting) =
    if user_eq v user then some waiting else Option.map (λ l. v ∷ l) (remove_first user waiting)

-- The client moves to the end of the waiting clients, if there are others.
unfoldable pub moved_back : User → List User → List User
moved_back user waiting = elim (remove_first user waiting) [
  | none ↦ waiting
  | some rest ↦ if ltb 1 (length waiting) then rest ++ user ∷ [] else waiting
]

abbrev pub is_open : SolverOrderStatus → Bool
is_open open_order = true
is_open _ = false

module _ ⦃d : Decimal⦄ where
  unfoldable pub update_client_order : User → ℕ → Amount → ℤ → OnOrders
  update_client_order user i collateral_removed timestamp s = elim (get_client_order user i s) [
    | none ↦ (err missing_order, s)
    | some order ↦ elim (safe_sub order.remaining_collateral collateral_removed) [
      | none ↦ (err math_problem, s)
      | some remaining ↦
          let updated = record s {
            client_orders =
                put_key order_eq (user, i)
                  (record order { remaining_collateral = remaining; timestamp = timestamp })
                  s.client_orders;
          } in
          (
            ok tt,
            if is_open order.status
                then record updated { client_notify_queue = moved_back user s.client_notify_queue }
                else updated,
          )
    ]
  ]
