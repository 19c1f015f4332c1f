-- ===== src/Collateral/Router.antt =====
-- libs/index-core/src/collateral/collateral_router.rs: collateral moves over bridges along routes.
-- A bridge is a trait object: of it the router uses the names of its ends, and `transfer_funds`,
-- which is a parameter that tells whether the call is accepted. The calls are logged in `sent`, and
-- what the observer is given in `published`. A panic of the source is the error `panics`: a caller does
-- not handle it but passes it on, as the stack unwinds.
use index_maker.Prelude.{
  ◌==◌, if◌then◌else◌, ℕ, Bool, false, ◌&&◌, Option, none, some, List, [], ◌∷◌, ◌++◌, last, Result,
  ok, err, Action, ok_or, and_then,
}
use index_maker.Prelude.Int.{ℤ}
use index_maker.Decimal.{Amount, zero_amount}
use index_maker.Bits.{Symbol, Side, buy, sell}
use index_maker.Bits.Symbols.{symbol_eq}
use index_maker.Prelude.Keyed.{find_key, put_key}

-- The names of `get_source()` and `get_destination()`.
pub record Bridge : Type 0 where
  pub source : Symbol
  pub destination : Symbol

-- The arguments of `transfer_funds`.
pub record Transfer : Type 0 where
  pub chain_id : ℕ
  pub address : ℕ
  pub client_order_id : ℕ
  pub route_from : Symbol
  pub route_to : Symbol
  pub amount : Amount
  pub cumulative_fee : Amount

pub data CollateralRoutingStatus : Type 0 where
  success : CollateralRoutingStatus
  failure : Symbol → CollateralRoutingStatus

-- `CollateralRouterEvent::HopComplete` without its status.
pub record HopComplete : Type 0 where
  pub chain_id : ℕ
  pub address : ℕ
  pub client_order_id : ℕ
  pub timestamp : ℤ
  pub source : Symbol
  pub destination : Symbol
  pub route_from : Symbol
  pub route_to : Symbol
  pub amount : Amount
  pub fee : Amount

-- What the two variants of `CollateralTransferEvent` share.
pub record TransferReport : Type 0 where
  pub chain_id : ℕ
  pub address : ℕ
  pub client_order_id : ℕ
  pub timestamp : ℤ
  pub transfer_from : Symbol
  pub transfer_to : Symbol
  pub amount : Amount
  pub fee : Amount

pub data CollateralTransferEvent : Type 0 where
  transfer_complete : TransferReport → CollateralTransferEvent
  -- with the place of the collateral and the reason
  transfer_failed : TransferReport → Symbol → Symbol → CollateralTransferEvent

pub data RouterError : Type 0 where
  duplicate source_not_found destination_not_found route_not_found : RouterError
  hop_not_found bridge_not_found bridge_failed panics : RouterError

pub record CollateralRouter : Type 0 where
  pub published : List CollateralTransferEvent
  pub sent : List (Bridge × Transfer)
  pub bridges : List ((Symbol × Symbol) × Bridge)
  pub routes : List (List Symbol)
  pub chain_sources : List ((ℕ × Symbol) × Symbol)
  pub default_destination : Option Symbol

abbrev pub OnRouter : Type 0
OnRouter = Action CollateralRouter RouterError (Unit {0})

abbrev pub new_router : CollateralRouter
new_router = record {
  published = [];
  sent = [];
  bridges = [];
  routes = [];
  chain_sources = [];
  default_destination = none;
}

abbrev pub ends_eq : Symbol × Symbol → Symbol × Symbol → Bool
ends_eq (a, b) (c, e) = symbol_eq a c && symbol_eq b e

abbrev pub chain_eq : ℕ × Symbol → ℕ × Symbol → Bool
chain_eq (a, b) (c, e) = a == c && symbol_eq b e

abbrev pub ends : Bridge → Symbol × Symbol
ends bridge = (bridge.source, bridge.destination)

-- `.is_none().then_some(()).ok_or_eyre("Duplicate ...")` on the value that was replaced.
abbrev pub if_new : {A : Type 0} → Option A → Result RouterError (Unit {0})
if_new none = ok tt
if_new (some old) = err duplicate

unfoldable pub add_bridge : Bridge → OnRouter
add_bridge bridge r = (
  if_new (find_key ends_eq (ends bridge) r.bridges),
  record r { bridges = put_key ends_eq (ends bridge) bridge r.bridges },
)

unfoldable pub add_route : List Symbol → OnRouter
add_route route r = (ok tt, record r { routes = r.routes ++ route ∷ [] })

unfoldable pub add_chain_source : ℕ → Symbol → Symbol → OnRouter
add_chain_source chain_id symbol designation r = (
  if_new (find_key chain_eq (chain_id, symbol) r.chain_sources),
  record r { chain_sources = put_key chain_eq (chain_id, symbol) designation r.chain_sources },
)

unfoldable pub set_default_destination : Symbol → OnRouter
set_default_destination designation r =
    (if_new r.default_destination, record r { default_destination = some designation })

-- `match (route.first(), route.last())`
abbrev pub is_end : Symbol → Option Symbol → Bool
is_end s none = false
is_end s (some t) = symbol_eq s t

abbrev pub first : List Symbol → Option Symbol
first [] = none
first (s ∷ l) = some s

unfoldable pub find_route : Symbol → Symbol → List (List Symbol) → Option (List Symbol)
find_route route_from route_to [] = none
find_route route_from route_to (route ∷ routes) =
    if is_end route_from (first route) && is_end route_to (last route)
    then some route
    else find_route route_from route_to routes

-- `(route[0].clone(), route[1].clone())`
abbrev pub first_two : List Symbol → Result RouterError (Symbol × Symbol)
first_two [] = err panics
first_two (s ∷ []) = err panics
first_two (s ∷ t ∷ l) = ok (s, t)

-- `find_position`, and the hop that stands after the one found.
unfoldable pub hop_after : Symbol → List Symbol → Result RouterError (Symbol × Symbol)
hop_after source [] = err hop_not_found
hop_after source (hop ∷ route) =
    if symbol_eq source hop then first_two (hop ∷ route) else hop_after source route

unfoldable pub next_hop : Symbol → Symbol → Symbol → CollateralRouter → Result RouterError Bridge
next_hop source route_from route_to r =
    and_then (ok_or (find_route route_from route_to r.routes) route_not_found) λ route.
      and_then (if symbol_eq source route_from then first_two route else hop_after source route)
        λ name. ok_or (find_key ends_eq name r.bridges) bridge_not_found

-- The bridge that `transfer_collateral` starts with, and the ends of the route.
unfoldable pub first_hop :
    ℕ → Symbol → CollateralRouter → Result RouterError (Bridge × Symbol × Symbol)
first_hop chain_id symbol r =
    and_then (ok_or (find_key chain_eq (chain_id, symbol) r.chain_sources) source_not_found)
      λ transfer_from. and_then (ok_or r.default_destination destination_not_found) λ transfer_to.
        and_then {B = Bridge × Symbol × Symbol} (next_hop transfer_from transfer_from transfer_to r)
          λ bridge. ok (bridge, transfer_from, transfer_to)

module _ (accepts : Bridge → Transfer → Bool) where
  unfoldable pub transfer_funds : Bridge → Transfer → OnRouter
  transfer_funds bridge transfer r = (
    if accepts bridge transfer then ok tt else err bridge_failed,
    record r { sent = r.sent ++ (bridge, transfer) ∷ [] },
  )

  -- `transfer_collateral`: a sale is `todo!`.
  unfoldable pub transfer_collateral : ℕ → ℕ → ℕ → Symbol → Side → Amount → OnRouter
  transfer_collateral chain_id address client_order_id symbol sell amount r = (err panics, r)
  transfer_collateral chain_id address client_order_id symbol buy amount r =
      elim (first_hop chain_id symbol r) [
        | err e ↦ (err e, r)
        | ok (bridge, transfer_from, transfer_to) ↦
            transfer_funds bridge
              (record {
                chain_id = chain_id;
                address = address;
                client_order_id = client_order_id;
                route_from = transfer_from;
                route_to = transfer_to;
                amount = amount;
                cumulative_fee = zero_amount;
              })
              r
      ]

-- What the handler of a completed hop does: it tells the observer, or moves the collateral on.
pub data Reaction : Type 0 where
  publishes : CollateralTransferEvent → Reaction
  sends : Bridge → Transfer → Reaction

abbrev pub report_of : HopComplete → TransferReport
report_of h = record {
  chain_id = h.chain_id;
  address = h.address;
  client_order_id = h.client_order_id;
  timestamp = h.timestamp;
  transfer_from = h.route_from;
  transfer_to = h.route_to;
  amount = h.amount;
  fee = h.fee;
}

abbrev pub transfer_of : HopComplete → Transfer
transfer_of h = record {
  chain_id = h.chain_id;
  address = h.address;
  client_order_id = h.client_order_id;
  route_from = h.route_from;
  route_to = h.route_to;
  amount = h.amount;
  cumulative_fee = h.fee;
}

unfoldable pub react :
    CollateralRoutingStatus → HopComplete → CollateralRouter → Result RouterError Reaction
react (failure reason) h r = ok (publishes (transfer_failed (report_of h) h.source reason))
react success h r =
    if symbol_eq h.route_to h.destination
    then ok (publishes (transfer_complete (report_of h)))
    else and_then (next_hop h.destination h.route_from h.route_to r)
        λ bridge. ok (sends bridge (transfer_of h))

unfoldable pub handle_collateral_router_event :
    (Bridge → Transfer → Bool) → CollateralRoutingStatus → HopComplete → OnRouter
handle_collateral_router_event accepts status h r = elim (react status h r) [
  | err e ↦ (err e, r)
  | ok (publishes event) ↦ (ok tt, record r { published = r.published ++ event ∷ [] })
  | ok (sends bridge transfer) ↦ transfer_funds accepts bridge transfer r
]
