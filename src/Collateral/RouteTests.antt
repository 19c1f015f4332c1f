-- ===== src/Collateral/RouteTests.antt =====
-- Tests of src/collateral/collateral_manager.rs and of
-- libs/index-core/src/collateral/collateral_router.rs on a route of two hops, and the theorems at
-- concrete inputs.
use index_maker.Prelude.{
  ℕ, ◌≡◌, refl, ◌≢◌, Bool, true, some, List, [], ◌∷◌, map, arith, ok, err, is_none, ◌>>◌,
}
use index_maker.Prelude.Int.{pos, ◌+ℤ◌, ◌-ℤ◌, -ℤ◌}
use index_maker.Decimal.{Amount, Decimal, bounded, fixed_scale, fixed_scale-IsExact}
use index_maker.Bits.{Symbol, buy, sell}
use index_maker.Bits.Symbols.{symbol_eq}
use index_maker.Collateral.Account.{new_account, on_side, deposit}
use index_maker.Collateral.Covered.{IsFunded, SentFor, Sends, process_collateral-Sends}
use index_maker.Collateral.Journey.{
  pairs, Settlement, settle_all, travel, IsRoute, arrival, journey_arrives,
}
use index_maker.Collateral.Managed.{
  Call, deposited, managed, calls, AllAccounted, calls-AllAccounted,
}
use index_maker.Collateral.Manager.{
  CollateralManagement, CollateralManager, new_collateral_manager, get_position, add_position,
  update_or_add, manage_collateral, handle_deposit, is_ready_to_route, route_each,
  process_collateral,
}
use index_maker.Collateral.Replaced.{Replaces, setters-Replaces}
use index_maker.Collateral.Router.{
  Bridge, Transfer, TransferReport, transfer_complete, panics, CollateralRouter, new_router,
  ends_eq, chain_eq, ends, add_bridge, add_route, add_chain_source, set_default_destination,
  find_route, hop_after, next_hop, first_hop, transfer_funds, transfer_collateral, react,
}
use index_maker.Collateral.Side.{new_side, is_booked, open_lot}
use index_maker.Prelude.Keyed.{find_key, put_key}
use index_maker.SafeUpdate.{swapped, safe_update}

instance checked_ops : Decimal
checked_ops = fixed_scale

abbrev arbitrum : Symbol
arbitrum = 65 ∷ []

abbrev base : Symbol
base = 66 ∷ []

abbrev binance : Symbol
binance = 67 ∷ []

abbrev index : Symbol
index = 73 ∷ []

abbrev to_base : Bridge
to_base = record { source = arbitrum; destination = base }

abbrev to_binance : Bridge
to_binance = record { source = base; destination = binance }

abbrev set_up : CollateralRouter
set_up = record {
  published = [];
  sent = [];
  bridges = ((arbitrum, base), to_base) ∷ ((base, binance), to_binance) ∷ [];
  routes = (arbitrum ∷ base ∷ binance ∷ []) ∷ [];
  chain_sources = ((1, index), arbitrum) ∷ [];
  default_destination = some binance;
}

-- The setters make this router.
set_up_made :
    (do
      add_bridge to_base
      add_bridge to_binance
      add_route (arbitrum ∷ base ∷ binance ∷ [])
      add_chain_source 1 index arbitrum
      set_default_destination binance)
      new_router
    ≡ (ok tt, set_up)
unfolding add_bridge add_route add_chain_source set_default_destination find_key put_key symbol_eq
set_up_made = refl

-- A fee of one at each hop.
abbrev one_each : Settlement
one_each e (amount, fee) = (amount -ℤ pos 1, fee +ℤ pos 1)

symbols_ne : (a b : ℕ) → a ≢ b → ◌≢◌ {A = Symbol} (a ∷ []) (b ∷ [])
symbols_ne a b h e = h (cc)

set_up-IsRoute : IsRoute set_up arbitrum binance (arbitrum ∷ base ∷ binance ∷ [])
unfolding find_route find_key symbol_eq
set_up-IsRoute = record {
  routed = refl;
  distinct = (
    (symbols_ne 65 66 (λ e. omega arith), (symbols_ne 65 67 (λ e. omega arith), tt)),
    ((symbols_ne 66 67 (λ e. omega arith), tt), (tt, tt)),
  );
  bridged = ((to_base, refl, refl, refl), ((to_binance, refl, refl, refl), tt));
}

abbrev first_transfer : Transfer
first_transfer = record {
  chain_id = 1;
  address = 5;
  client_order_id = 7;
  route_from = arbitrum;
  route_to = binance;
  amount = pos 100;
  cumulative_fee = pos 0;
}

journey_arrives_example :
    (bridge : Bridge) × (transfer_collateral (λ b t. true) 1 5 7 index buy (pos 100) set_up
      ≡ transfer_funds (λ b t. true) bridge first_transfer set_up)
    × (travel one_each (pos 3) set_up 3 bridge first_transfer
        ≡ ok (
          pairs (arbitrum ∷ base ∷ binance ∷ []),
          some (
              arrival
                (pos 3)
                first_transfer
                (settle_all one_each (pairs (arbitrum ∷ base ∷ binance ∷ [])) (pos 100, pos 0))),
        ))
unfolding find_key symbol_eq
journey_arrives_example =
    journey_arrives one_each (pos 3) set_up arbitrum binance (arbitrum ∷ base ∷ binance ∷ [])
      set_up-IsRoute 1 5 7 index (pos 100) refl refl (symbols_ne 65 67 (λ e. omega arith))
      (λ b t. true)

journey_runs :
    travel one_each (pos 3) set_up 3 to_base first_transfer
    ≡ ok (
      (arbitrum, base) ∷ (base, binance) ∷ [],
      some (
          transfer_complete (record {
            chain_id = 1;
            address = 5;
            client_order_id = 7;
            timestamp = pos 3;
            transfer_from = arbitrum;
            transfer_to = binance;
            amount = pos 98;
            fee = pos 2;
          })),
    )
unfolding travel react next_hop find_route hop_after find_key symbol_eq ◌+ℤ◌ ◌-ℤ◌
journey_runs = refl

-- A route of one designation is an index out of bounds.
single_hop_panics :
    next_hop arbitrum arbitrum arbitrum (record set_up { routes = (arbitrum ∷ []) ∷ [] })
    ≡ err panics
unfolding next_hop find_route symbol_eq
single_hop_panics = refl

setters-Replaces_example :
    Replaces
      (some to_base)
      to_base
      (add_bridge to_base set_up).0
      (find_key ends_eq (ends to_base) (add_bridge to_base set_up).1.bridges)
    × Replaces
        (some arbitrum)
        base
        (add_chain_source 1 index base set_up).0
        (find_key chain_eq (1, index) (add_chain_source 1 index base set_up).1.chain_sources)
    × Replaces
        (some binance)
        base
        (set_default_destination base set_up).0
        (set_default_destination base set_up).1.default_destination
unfolding find_key symbol_eq
setters-Replaces_example = setters-Replaces to_base 1 index base set_up

abbrev request : ℕ → CollateralManagement
request order = record {
  chain_id = 1;
  address = 5;
  client_order_id = order;
  symbol = index;
  side = buy;
  collateral_amount = pos 100;
}

abbrev manager : CollateralManager
manager = new_collateral_manager set_up (pos 1)

-- One deposit of 100, and two orders for 100 each.
abbrev over_asked : List Call
over_asked = deposited 1 1 5 9 (pos 100) (pos 1) ∷ managed (request 7) ∷ managed (request 8) ∷ []

abbrev every_bridge : Bridge → Transfer → Bool
every_bridge b t = true

abbrev asked_for : Bridge × Transfer → ℕ × Amount
asked_for x = (x.1.client_order_id, x.1.amount)

-- Both orders are sent over the bridges, though the account holds enough for one.
both_sent :
    map asked_for (process_collateral every_bridge (pos 2) (calls over_asked manager)).1.router.sent
    ≡ (7, pos 100) ∷ (8, pos 100) ∷ []
unfolding checked_ops fixed_scale bounded ◌+ℤ◌ ◌-ℤ◌ process_collateral route_each
    transfer_collateral first_hop next_hop find_route find_key put_key symbol_eq transfer_funds
    is_ready_to_route get_position handle_deposit update_or_add add_position safe_update swapped
    new_account new_side deposit on_side open_lot is_booked manage_collateral
both_sent = refl

manager-AllAccounted : AllAccounted manager
manager-AllAccounted = tt

calls-AllAccounted_example : AllAccounted (calls over_asked manager)
unfolding checked_ops
calls-AllAccounted_example =
    calls-AllAccounted fixed_scale-IsExact over_asked manager manager-AllAccounted

abbrev ended_report : TransferReport
ended_report = record {
  chain_id = 1;
  address = 5;
  client_order_id = 7;
  timestamp = pos 4;
  transfer_from = arbitrum;
  transfer_to = binance;
  amount = pos 98;
  fee = pos 2;
}

-- A sale between two purchases: the router panics, and the second purchase is not sent.
abbrev sale_between : List CollateralManagement
sale_between = request 7 ∷ record (request 8) { side = sell } ∷ request 9 ∷ []

sale_stops :
    let (failures, router) = route_each every_bridge sale_between set_up in
    (is_none failures ≡ true) × (map asked_for router.sent ≡ (7, pos 100) ∷ [])
unfolding route_each transfer_collateral first_hop next_hop find_route find_key symbol_eq
    transfer_funds
sale_stops = (refl, refl)

process_collateral-Sends_example :
    Sends
      (SentFor (IsFunded (calls over_asked manager)) (calls over_asked manager).requests)
      (calls over_asked manager).router
      (process_collateral every_bridge (pos 2) (calls over_asked manager)).1.router
process_collateral-Sends_example =
    process_collateral-Sends every_bridge (pos 2) (calls over_asked manager)
