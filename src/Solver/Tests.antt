-- ===== src/Solver/Tests.antt =====
-- Tests of src/solver/solver_order/solver_order.rs on the orders of two clients, and the theorems at
-- concrete inputs.
use index_maker.Prelude.{ℕ, ◌^◌, ◌≡◌, refl, Option, none, some, List, [], ◌∷◌, ok, err}
use index_maker.Prelude.Int.{pos, ◌+ℤ◌, ◌-ℤ◌}
use index_maker.Decimal.{Decimal, bounded, fixed_scale, fixed_scale-IsExact}
use index_maker.Bits.{Symbol, buy}
use index_maker.Bits.Symbols.{symbol_eq}
use index_maker.OrderSender.Asset.{strip_prefix, strip_suffix, first_stripped, base_asset}
use index_maker.Prelude.Keyed.{find_key, put_key, erase_key}
use index_maker.Solver.Compress.{merge, file, compress_lot, compress_loop, compress_lots}
use index_maker.Solver.Lots.{SolverOrderAssetLot}
use index_maker.Solver.Orders.{
  SolverOrder, User, SolverClientOrders, OrdersError, new_orders, get_client_order, queue_of,
  check_ready, first_ready, serve_first, get_next_client_order, new_order_of, enqueue,
  add_client_order, dequeue, cancel_client_order, moved_back, update_client_order,
}
use index_maker.Solver.PerLot.{Compresses, compress_lots-Compresses}
use index_maker.Solver.Queued.{There, IsQueued, new_orders-IsQueued}
use index_maker.Solver.Runs.{Call, add, cancel, update, next, calls, calls-IsQueued}
use index_maker.Solver.Starved.{cancel_starves}

instance checked_ops : Decimal
checked_ops = fixed_scale

abbrev alice : User
alice = (1, 5)

abbrev bob : User
bob = (1, 6)

abbrev index : Symbol
index = 73 ∷ []

abbrev adds : User → ℕ → ℕ → Call
adds user i at_time = add user i index buy (pos 100) (pos at_time)

abbrev empty_orders : SolverClientOrders
empty_orders = new_orders (pos 1)

-- Two orders of one client, one of another, and the first one is minted.
abbrev day : List Call
day =
    adds alice 7 1
    ∷ adds alice 8 2
    ∷ adds bob 9 3
    ∷ next (pos 5)
    ∷ cancel alice 7
    ∷ update bob 9 (pos 40) (pos 6)
    ∷ []

day_queue : (calls day empty_orders).client_notify_queue ≡ alice ∷ bob ∷ []
unfolding checked_ops fixed_scale bounded ◌+ℤ◌ ◌-ℤ◌ add_client_order cancel_client_order
    update_client_order get_next_client_order serve_first first_ready check_ready get_client_order
    enqueue dequeue moved_back find_key put_key erase_key
day_queue = refl

calls-IsQueued_example : IsQueued (calls day empty_orders)
unfolding checked_ops
calls-IsQueued_example = calls-IsQueued day empty_orders (new_orders-IsQueued (pos 1))

-- The client in front is notified again when its first order is cancelled.
abbrev waiting_twice : SolverClientOrders
waiting_twice = calls (adds alice 7 1 ∷ adds alice 8 2 ∷ cancel alice 7 ∷ []) empty_orders

twice : waiting_twice.client_notify_queue ≡ alice ∷ alice ∷ []
unfolding checked_ops add_client_order cancel_client_order get_client_order enqueue dequeue find_key
    put_key erase_key
twice = refl

abbrev id_of : Option SolverOrder → ℕ
id_of none = 0
id_of (some order) = order.client_order_id

abbrev served : SolverClientOrders → ℕ × SolverClientOrders
served s = let (order, t) = get_next_client_order (pos 9) s in (id_of order, t)

abbrev served_ids : List ℕ
served_ids =
    let (first, s) = served waiting_twice in let (second, t) = served s in first ∷ second ∷ []

-- The order is handed out two times.
served_twice : served_ids ≡ 8 ∷ 8 ∷ []
unfolding checked_ops ◌+ℤ◌ ◌-ℤ◌ add_client_order cancel_client_order get_next_client_order
    serve_first first_ready check_ready get_client_order enqueue dequeue find_key put_key erase_key
served_twice = refl

abbrev both_wait : SolverClientOrders
both_wait = calls (adds alice 7 1 ∷ adds bob 9 3 ∷ []) empty_orders

both_wait-There : There both_wait.client_orders alice 7
unfolding checked_ops add_client_order get_client_order enqueue find_key put_key
both_wait-There = (new_order_of alice 7 index buy (pos 100) (pos 1), refl)

abbrev later_calls : List Call
later_calls = adds bob 10 6 ∷ cancel bob 9 ∷ next (pos 8) ∷ []

both_wait-queue : queue_of alice both_wait ≡ some (7 ∷ [])
unfolding checked_ops add_client_order get_client_order enqueue find_key put_key
both_wait-queue = refl

both_wait-front : both_wait.client_notify_queue ≡ alice ∷ bob ∷ []
unfolding checked_ops add_client_order get_client_order enqueue find_key put_key
both_wait-front = refl

cancel_starves_example :
    let later = calls later_calls (cancel_client_order alice 7 both_wait).1 in
    get_next_client_order (pos 99) later ≡ (none, later)
unfolding checked_ops
cancel_starves_example =
    cancel_starves alice 7 (bob ∷ []) both_wait both_wait-There both_wait-queue both_wait-front
      later_calls (refl, (refl, (tt, tt))) (pos 99)

-- "ABUSDC" and "AB".
abbrev pair : Symbol
pair = 65 ∷ 66 ∷ 85 ∷ 83 ∷ 68 ∷ 67 ∷ []

abbrev base : Symbol
base = 65 ∷ 66 ∷ []

abbrev lot_of : Symbol → ℕ → ℕ → ℕ → ℕ → SolverOrderAssetLot
lot_of symbol lot_id remaining quantity at_time = record {
  lot_id = lot_id;
  symbol = symbol;
  price = pos 2;
  original_quantity = pos 50;
  remaining_quantity = pos remaining;
  original_fee = pos 3;
  assigned_quantity = pos quantity;
  assigned_fee = pos 1;
  created_timestamp = pos 1;
  assigned_timestamp = pos at_time;
}

abbrev with_lots : List SolverOrderAssetLot → SolverOrder
with_lots lots = record (new_order_of alice 7 index buy (pos 100) (pos 1)) { lots = lots }

abbrev assigned_order : SolverOrder
assigned_order =
    with_lots (lot_of pair 1 50 10 2 ∷ lot_of pair 2 30 5 4 ∷ lot_of base 1 40 20 3 ∷ [])

abbrev compressed_order : SolverOrder
compressed_order =
    with_lots (record (lot_of base 1 20 30 3) { assigned_fee = pos 2 } ∷ lot_of base 2 25 5 4 ∷ [])

compressed : compress_lots assigned_order ≡ (ok tt, compressed_order)
unfolding checked_ops fixed_scale bounded ◌+ℤ◌ ◌-ℤ◌ compress_lots compress_loop compress_lot file
    merge find_key put_key symbol_eq base_asset first_stripped strip_suffix strip_prefix
compressed = refl

compress_lots-Compresses_example : Compresses assigned_order compressed_order
unfolding checked_ops
compress_lots-Compresses_example =
    compress_lots-Compresses fixed_scale-IsExact assigned_order compressed_order compressed

-- A lot with less remaining than assigned, in the middle.
abbrev spoilt : SolverOrder
spoilt = with_lots (
    lot_of pair 1 50 10 2
    ∷ record (lot_of pair 2 30 5 4) { assigned_fee = pos (2 ^ 96) }
    ∷ lot_of pair 2 25 5 5
    ∷ lot_of base 1 40 20 3
    ∷ [])

-- After an overflow the lots that the loop has visited are gone.
loses_lots :
    compress_lots spoilt ≡ (err OrdersError.math_problem, with_lots (lot_of pair 1 50 10 2 ∷ []))
unfolding checked_ops fixed_scale bounded ◌+ℤ◌ ◌-ℤ◌ compress_lots compress_loop compress_lot file
    merge find_key put_key symbol_eq base_asset first_stripped strip_suffix strip_prefix
loses_lots = refl
