-- ===== src/Collateral/Journey.antt =====
-- libs/index-core/src/collateral/collateral_router.rs: a transfer whose bridges all complete passes
-- every hop of its route and arrives.
use index_maker.Prelude.{
  Bool-cases, ℕ, zero, suc, ◌<◌, ◌≡◌, refl, sym, ap, ◌∙◌, ◌≢◌, inl, inr, Bool, true, false, ◌&&◌,
  Option, none, some, List, [], ◌∷◌, ◌++◌, arith, length, last, All, All-map, Pairwise, Across,
  Pairwise-of_append, Result, ok, and_then, of_some,
}
use index_maker.Prelude.Int.{ℤ}
use index_maker.Decimal.{Amount, zero_amount}
use index_maker.Bits.{Symbol, buy}
use index_maker.Bits.Symbols.{symbol_eq, symbol_eq→≡, symbol_eq_refl}
use index_maker.Collateral.Router.{
  Bridge, Transfer, success, HopComplete, CollateralTransferEvent, transfer_complete, RouterError,
  CollateralRouter, ends_eq, chain_eq, ends, is_end, first, find_route, first_two, hop_after,
  next_hop, first_hop, transfer_funds, transfer_collateral, publishes, sends, transfer_of, react,
}
use index_maker.Prelude.Keyed.{find_key}

abbrev pub pairs : List Symbol → List (Symbol × Symbol)
pairs [] = []
pairs (a ∷ []) = []
pairs (a ∷ b ∷ l) = (a, b) ∷ pairs (b ∷ l)

-- What a bridge makes of an amount and the fee so far.
abbrev pub Settlement : Type 0
Settlement = Symbol × Symbol → Amount × Amount → Amount × Amount

abbrev pub settle_all : Settlement → List (Symbol × Symbol) → Amount × Amount → Amount × Amount
settle_all settle [] x = x
settle_all settle (e ∷ l) x = settle_all settle l (settle e x)

-- What a bridge tells the router when it has done what it was asked for.
abbrev pub hop_of : Settlement → ℤ → Bridge → Transfer → HopComplete
hop_of settle timestamp bridge t =
    let (amount, fee) = settle (ends bridge) (t.amount, t.cumulative_fee) in
    record {
      chain_id = t.chain_id;
      address = t.address;
      client_order_id = t.client_order_id;
      timestamp = timestamp;
      source = bridge.source;
      destination = bridge.destination;
      route_from = t.route_from;
      route_to = t.route_to;
      amount = amount;
      fee = fee;
    }

-- The hops that a transfer makes while every bridge completes, and the event at the end; no event if
-- the fuel runs out.
unfoldable pub travel :
    Settlement
    → ℤ
    → CollateralRouter
    → ℕ
    → Bridge
    → Transfer
    → Result RouterError (List (Symbol × Symbol) × Option CollateralTransferEvent)
travel settle timestamp r zero bridge t = ok ([], none)
travel settle timestamp r (suc fuel) bridge t =
    and_then (react success (hop_of settle timestamp bridge t) r) λ reaction. elim reaction [
      | publishes event ↦ ok (ends bridge ∷ [], some event)
      | sends next transfer ↦
          and_then (travel settle timestamp r fuel next transfer)
            λ onwards. ok (ends bridge ∷ onwards.0, onwards.1)
    ]

-- The router has a bridge between these ends.
abbrev pub Bridged : CollateralRouter → Symbol × Symbol → Type 0
Bridged r (a, b) =
    (bridge : Bridge) × (find_key ends_eq (a, b) r.bridges ≡ some bridge)
    × (bridge.source ≡ a)
    × (bridge.destination ≡ b)

ne→symbol_eq : (a b : Symbol) → a ≢ b → symbol_eq a b ≡ false
ne→symbol_eq a b h = elim (Bool-cases (symbol_eq a b)) [
  | inl same ↦ absurd (h (symbol_eq→≡ a b same))
  | inr other ↦ other
]

last-append :
    (xs : List Symbol) (y : Symbol) (ys : List Symbol) → last (xs ++ y ∷ ys) ≡ last (y ∷ ys)
last-append [] y ys = refl
last-append (x ∷ []) y ys = refl
last-append (x ∷ z ∷ xs) y ys = last-append (z ∷ xs) y ys

All-last :
    (P : Symbol → Type 0) (s : Symbol) (l : List Symbol) → is_end s (last l) ≡ true → All P l → P s
All-last P s [] h all_hold = cc
All-last P s (x ∷ []) h all_hold = rw (symbol_eq→≡ s x h) all_hold.0
All-last P s (x ∷ y ∷ l) h all_hold = All-last P s (y ∷ l) h all_hold.1

All-first :
    (P : Symbol → Type 0) (s : Symbol) (l : List Symbol) → is_end s (first l) ≡ true → All P l → P s
All-first P s [] h all_hold = cc
All-first P s (x ∷ l) h all_hold = rw (symbol_eq→≡ s x h) all_hold.0

of_and : (a b : Bool) → (a && b) ≡ true → (a ≡ true) × (b ≡ true)
of_and true true h = (refl, refl)
of_and true false h = cc
of_and false b h = cc

regroup : (xs : List Symbol) (b : Symbol) (ys : List Symbol) → (xs ++ b ∷ []) ++ ys ≡ xs ++ b ∷ ys
regroup [] b ys = refl
regroup (x ∷ xs) b ys = ap (λ l. x ∷ l) (regroup xs b ys)

-- A route that is found has the ends that were asked for.
find_route_ends :
    (from to : Symbol) (routes : List (List Symbol)) {route : List Symbol}
    → find_route from to routes ≡ some route
    → (is_end from (first route) ≡ true) × (is_end to (last route) ≡ true)
unfolding find_route
find_route_ends from to [] h = cc
find_route_ends from to (r ∷ routes) h =
    elim (Bool-cases (is_end from (first r) && is_end to (last r))) [
      | inl here ↦ rw (← of_some (rw here at h)) (of_and _ _ here)
      | inr other ↦ find_route_ends from to routes (rw other at h)
    ]

hop_after_at :
    (pre : List Symbol) (b c : Symbol) (rest : List Symbol)
    → All (λ x. x ≢ b) pre
    → hop_after b (pre ++ b ∷ c ∷ rest) ≡ ok (b, c)
unfolding hop_after
hop_after_at [] b c rest h = rw (symbol_eq_refl b) refl
hop_after_at (x ∷ pre) b c rest h =
    rw (ne→symbol_eq b x (λ e. h.0 (sym e))) (hop_after_at pre b c rest h.1)

-- A route between different designations has a first hop.
two_ends :
    (from to : Symbol) (l : List Symbol)
    → from ≢ to
    → is_end from (first l) ≡ true
    → is_end to (last l) ≡ true
    → (x : Symbol) × (y : Symbol) × (rest : List Symbol) × (l ≡ x ∷ y ∷ rest)
two_ends from to [] ne f l = cc
two_ends from to (x ∷ []) ne f l = absurd (ne (symbol_eq→≡ from x f ∙ sym (symbol_eq→≡ to x l)))
two_ends from to (x ∷ y ∷ rest) ne f l = (x, y, rest, refl)

-- A route from one designation to another, none twice, with a bridge for each hop.
pub record IsRoute (r : CollateralRouter) (from to : Symbol) (route : List Symbol) : Type 0 where
  pub routed : find_route from to r.routes ≡ some route
  pub distinct : Pairwise ◌≢◌ route
  pub bridged : All (Bridged r) (pairs route)

-- The event at the end of a journey.
abbrev pub arrival : ℤ → Transfer → Amount × Amount → CollateralTransferEvent
arrival timestamp t (amount, fee) = transfer_complete (record {
  chain_id = t.chain_id;
  address = t.address;
  client_order_id = t.client_order_id;
  timestamp = timestamp;
  transfer_from = t.route_from;
  transfer_to = t.route_to;
  amount = amount;
  fee = fee;
})

module _ (settle : Settlement) (timestamp : ℤ) (r : CollateralRouter) (from to : Symbol)
    (route : List Symbol) (i : IsRoute r from to route) where
  is_ends : (is_end from (first route) ≡ true) × (is_end to (last route) ≡ true)
  is_ends = find_route_ends from to r.routes i.routed

  module _ (x : Symbol) (pre : List Symbol) (b : Symbol) where
    -- Past the first designation of the route, the next hop is the next pair of the route.
    next_hop_at :
        (c : Symbol) (rest : List Symbol) (bridge : Bridge)
        → route ≡ (x ∷ pre) ++ b ∷ c ∷ rest
        → find_key ends_eq (b, c) r.bridges ≡ some bridge
        → next_hop b from to r ≡ ok bridge
    unfolding next_hop
    next_hop_at c rest bridge e found = rw (i.routed, not_first, hop, found) refl
      where
        parts :
            Pairwise ◌≢◌ (x ∷ pre)
            × Pairwise ◌≢◌ (b ∷ c ∷ rest)
            × Across ◌≢◌ (x ∷ pre) (b ∷ c ∷ rest)
        parts = Pairwise-of_append ◌≢◌ (x ∷ pre) (b ∷ c ∷ rest) (rw e at i.distinct)

        before : All (λ y. y ≢ b) (x ∷ pre)
        before = All-map _ _ (λ y h. h.0) (x ∷ pre) parts.2

        not_first : symbol_eq b from ≡ false
        not_first = ne→symbol_eq b from (λ same.
            All-first (λ y. y ≢ b) from (x ∷ []) (rw e at is_ends.0) (before.0, tt) (sym same))

        hop : hop_after b route ≡ ok (b, c)
        hop = rw e (hop_after_at (x ∷ pre) b c rest before)

    -- Before the last designation the collateral has not arrived.
    not_arrived :
        (c : Symbol) (rest : List Symbol)
        → route ≡ (x ∷ pre) ++ b ∷ c ∷ rest
        → symbol_eq to b ≡ false
    not_arrived c rest e = ne→symbol_eq to b (λ same.
        All-last (λ y. b ≢ y) to (c ∷ rest)
          (rw (last-append (x ∷ pre) b (c ∷ rest)) at (rw e at is_ends.1))
          (Pairwise-of_append ◌≢◌ (x ∷ pre) (b ∷ c ∷ rest) (rw e at i.distinct)).1.0 (sym same))

  -- From a designation of the route on, every hop is made, and the journey ends with the event.
  travel_on :
      (rest : List Symbol) (x : Symbol) (pre : List Symbol) (b : Symbol) (fuel : ℕ)
      (bridge : Bridge) (t : Transfer)
      → route ≡ (x ∷ pre) ++ b ∷ rest
      → length rest < fuel
      → t.route_from ≡ from
      → t.route_to ≡ to
      → bridge.destination ≡ b
      → All (Bridged r) (pairs (b ∷ rest))
      → let hops = ends bridge ∷ pairs (b ∷ rest) in
        travel settle timestamp r fuel bridge t
        ≡ ok
            (hops, some (arrival timestamp t (settle_all settle hops (t.amount, t.cumulative_fee))))
  unfolding travel react
  travel_on rest x pre b zero bridge t e enough at_from at_to at_b bridges = absurd (omega arith)
  travel_on [] x pre b (suc fuel) bridge t e enough at_from at_to at_b bridges =
      let at_end : symbol_eq to b ≡ true = rw (last-append (x ∷ pre) b []) at (rw e at is_ends.1) in
      let here : symbol_eq t.route_to bridge.destination ≡ true = rw (at_to, at_b) at_end in
      rw (here, react) refl
  travel_on (c ∷ rest) x pre b (suc fuel) bridge t e enough at_from at_to at_b bridges =
      let (next, found, source, destination) = bridges.0 in
      let onwards : symbol_eq t.route_to bridge.destination ≡ false =
        rw (at_to, at_b) (not_arrived x pre b c rest e) in
      let hop : next_hop bridge.destination t.route_from t.route_to r ≡ ok next =
        rw (at_b, at_from, at_to) (next_hop_at x pre b c rest next e found) in
      let same : ends next ≡ (b, c) = rw (source, destination) refl in
      let ih =
        travel_on rest x (pre ++ b ∷ []) c fuel next
          (transfer_of (hop_of settle timestamp bridge t))
          (e ∙ sym (regroup (x ∷ pre) b (c ∷ rest))) (omega arith) at_from at_to destination
          bridges.1 in
      rw (onwards, hop, ih, same) refl

  module _ (chain_id address client_order_id : ℕ) (symbol : Symbol) (amount : Amount)
      (sourced : find_key chain_eq (chain_id, symbol) r.chain_sources ≡ some from)
      (destined : r.default_destination ≡ some to) (ne : from ≢ to) where
    -- What `transfer_collateral` asks the first bridge for.
    abbrev pub start : Transfer
    start = record {
      chain_id = chain_id;
      address = address;
      client_order_id = client_order_id;
      route_from = from;
      route_to = to;
      amount = amount;
      cumulative_fee = zero_amount;
    }

    next_hop_start :
        (x y : Symbol) (bridge : Bridge)
        → first_two route ≡ ok (x, y)
        → find_key ends_eq (x, y) r.bridges ≡ some bridge
        → next_hop from from to r ≡ ok bridge
    unfolding next_hop
    next_hop_start x y bridge two found =
        rw (i.routed, symbol_eq_refl from, two, found, next_hop) refl

    first_hop_start :
        (bridge : Bridge)
        → next_hop from from to r ≡ ok bridge
        → first_hop chain_id symbol r ≡ ok (bridge, from, to)
    unfolding first_hop
    first_hop_start bridge hop = simp (sourced, destined, hop)

    transfer_start :
        (accepts : Bridge → Transfer → Bool) (bridge : Bridge)
        → first_hop chain_id symbol r ≡ ok (bridge, from, to)
        → transfer_collateral accepts chain_id address client_order_id symbol buy amount r
          ≡ transfer_funds accepts bridge start r
    unfolding transfer_collateral
    transfer_start accepts bridge hop = rw (hop, transfer_collateral) refl

    -- For a purchase with a source, a destination other than the source, and a route between them that
    -- has a bridge for each hop and names no designation twice: `transfer_collateral` starts a transfer
    -- over the first bridge; while every
    -- bridge completes, the transfer makes each hop of the route once, in order, and the last hop
    -- tells the observer of the amount and the fee that the bridges have settled.
    pub journey_arrives :
        (accepts : Bridge → Transfer → Bool)
        → (bridge : Bridge) × (transfer_collateral accepts chain_id address client_order_id symbol
              buy amount r
            ≡ transfer_funds accepts bridge start r)
          × (travel settle timestamp r (length route) bridge start
              ≡ ok (
                pairs route,
                some (
                    arrival timestamp start
                      (settle_all settle (pairs route) (amount, zero_amount))),
              ))
    journey_arrives accepts =
        let (x, y, rest, e) = two_ends from to route ne is_ends.0 is_ends.1 in
        let (bridge, found, source, destination) = (rw e at i.bridged).0 in
        let two : first_two route ≡ ok (x, y) = rw e refl in
        let same : ends bridge ≡ (x, y) = rw (source, destination) refl in
        (
          bridge,
          transfer_start accepts bridge
              (first_hop_start bridge (next_hop_start x y bridge two found)),
          rw e (
              rw same at (
                travel_on rest x [] y (length (x ∷ y ∷ rest)) bridge start e (omega arith) refl refl
                  destination (rw e at i.bridged).1)),
        )
