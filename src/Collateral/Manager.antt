-- ===== src/Collateral/Manager.antt =====
-- src/collateral/collateral_manager.rs: the accounts of users by chain and address, and the requests
-- to route their collateral. The router that it shares is a field; what the observer is given is
-- the state's `published` log. The identifiers of payments that the host gives are arguments. An
-- account changes under the manager's lock: no other writer comes between. A panic is an error that no
-- method handles: what was changed before it stays.
use mathlib.Core.Option
use index_maker.Prelude.{
  ◌==◌, if◌then◌else◌, ℕ, Bool, true, false, not, ◌&&◌, Option, none, some, List, [], ◌∷◌, ◌++◌,
  map, Result, ok, err, Action, pure, gets, modify, ◌>>=◌, ◌>>◌,
}
use index_maker.Prelude.Int.{ℤ, ltb_ℤ}
use index_maker.Decimal.{Amount, zero_amount, Decimal}
use index_maker.Bits.{Symbol, Side, buy}
use index_maker.Collateral.Account.{
  CollateralPosition, OnAccount, new_account, get_side, deposit, withdraw, add_ready_on, preauth_on,
  confirm_on,
}
use index_maker.Collateral.Router.{
  Bridge, Transfer, TransferReport, CollateralTransferEvent, transfer_complete, transfer_failed,
  RouterError, panics, CollateralRouter, transfer_collateral,
}
use index_maker.Collateral.Side.{PreAuthStatus, ConfirmStatus, Stop, no_result, panicked}
use index_maker.Prelude.Keyed.{find_key, put_key}
use index_maker.SafeUpdate.{ArcSwap, safe_update}

-- `CollateralManagement` of src/solver/solver.rs, without what the manager does not read.
pub record CollateralManagement : Type 0 where
  pub chain_id : ℕ
  pub address : ℕ
  pub client_order_id : ℕ
  pub symbol : Symbol
  pub side : Side
  pub collateral_amount : Amount

pub data RoutingStatus : Type 0 where
  ready : Amount → RoutingStatus
  not_ready check_later : RoutingStatus

-- Chain, address and client order come first in each.
pub data CollateralEvent : Type 0 where
  -- collateral amount, timestamp and status
  collateral_ready : ℕ → ℕ → ℕ → Amount → ℤ → RoutingStatus → CollateralEvent
  -- amount payable, timestamp and status
  preauth_response : ℕ → ℕ → ℕ → Amount → ℤ → PreAuthStatus → CollateralEvent
  -- payment, amount paid, timestamp, status and position
  confirm_response :
      ℕ → ℕ → ℕ → ℕ → Amount → ℤ → ConfirmStatus → CollateralPosition → CollateralEvent

pub data ManagerError : Type 0 where
  position_not_found routing_panicked : ManagerError
  in_position : Stop → ManagerError

-- The error is a panic.
abbrev pub unwinds : ManagerError → Bool
unwinds position_not_found = false
unwinds routing_panicked = true
unwinds (in_position no_result) = false
unwinds (in_position panicked) = true

abbrev pub Funds : Type 0
Funds = List ((ℕ × ℕ) × ArcSwap CollateralPosition)

pub record CollateralManager : Type 0 where
  pub published : List CollateralEvent
  pub router : CollateralRouter
  pub client_funds : Funds
  pub requests : List CollateralManagement
  pub zero_threshold : Amount

abbrev pub OnManager : Type 0
OnManager = Action CollateralManager ManagerError (Unit {0})

abbrev pub new_collateral_manager : CollateralRouter → Amount → CollateralManager
new_collateral_manager router zero_threshold = record {
  published = [];
  router = router;
  client_funds = [];
  requests = [];
  zero_threshold = zero_threshold;
}

abbrev pub funds_eq : ℕ × ℕ → ℕ × ℕ → Bool
funds_eq (a, b) (c, e) = a == c && b == e

abbrev pub announce : CollateralEvent → CollateralManager → CollateralManager
announce event m = record m { published = m.published ++ event ∷ [] }

unfoldable pub get_position : ℕ → ℕ → CollateralManager → Option (ArcSwap CollateralPosition)
get_position chain_id address m = find_key funds_eq (chain_id, address) m.client_funds

abbrev pub put_position : ℕ → ℕ → ArcSwap CollateralPosition → CollateralManager → CollateralManager
put_position chain_id address funds m = record m {
  client_funds = put_key funds_eq (chain_id, address) funds m.client_funds;
}

-- `add_position`: the account, a new one if there is none.
unfoldable pub add_position : ℕ → ℕ → ℤ → CollateralManager → ArcSwap CollateralPosition
add_position chain_id address timestamp m = elim (get_position chain_id address m) [
  | some funds ↦ funds
  | none ↦ record { version = 0; value = new_account chain_id address timestamp }
]

abbrev pub from_position : {A : Type 0} → Result Stop A → Result ManagerError A
from_position (ok a) = ok a
from_position (err e) = err (in_position e)

-- `safe_update` on an account that is there.
unfoldable pub update_funds :
    {A : Type 0} → ℕ → ℕ → OnAccount A → Action CollateralManager ManagerError A
update_funds chain_id address f m = elim (get_position chain_id address m) [
  | none ↦ (err position_not_found, m)
  | some funds ↦
      let (r, updated) = safe_update f [] funds in
      (from_position r, put_position chain_id address updated m)
]

-- `safe_update` on an account that is added if there is none.
unfoldable pub update_or_add : ℕ → ℕ → ℤ → OnAccount (Unit {0}) → OnManager
update_or_add chain_id address timestamp f m =
    let (r, updated) = safe_update f [] (add_position chain_id address timestamp m) in
    (from_position r, put_position chain_id address updated m)

-- The event is published if there is no error.
abbrev pub then_announce :
    {A : Type 0} → Action CollateralManager ManagerError A → (A → CollateralEvent) → OnManager
then_announce f event = f >>= λ a. modify (announce (event a))

unfoldable pub manage_collateral : CollateralManagement → CollateralManager → CollateralManager
manage_collateral request m = record m { requests = m.requests ++ request ∷ [] }

-- A method whose result is dropped; a panic is not.
abbrev pub dropped : {A : Type 0} → Result Stop A → Result Stop (Unit {0})
dropped (ok a) = ok tt
dropped (err no_result) = ok tt
dropped (err panicked) = err panicked

abbrev pub ignore : {A : Type 0} → OnAccount A → OnAccount (Unit {0})
ignore f p = let (r, q) = f p in (dropped r, q)

module _ ⦃d : Decimal⦄ where
  unfoldable pub handle_deposit : ℕ → ℕ → ℕ → ℕ → Amount → ℤ → OnManager
  handle_deposit payment_id chain_id address seq_num amount timestamp =
      update_or_add chain_id address timestamp (deposit payment_id (some seq_num) amount timestamp)

  unfoldable pub handle_withdrawal : ℕ → ℕ → ℕ → Amount → ℤ → OnManager
  handle_withdrawal payment_id chain_id address amount timestamp =
      update_or_add chain_id address timestamp (withdraw payment_id amount timestamp)

  unfoldable pub preauth_collateral : ℕ → ℕ → ℕ → ℕ → ℤ → Side → Amount → OnManager
  preauth_collateral payment_id chain_id address client_order_id timestamp side amount_payable m =
      then_announce
        (update_funds chain_id address
          (preauth_on client_order_id payment_id timestamp side amount_payable m.zero_threshold))
        (λ status.
          preauth_response chain_id address client_order_id amount_payable timestamp status)
        m

  -- The closure of `confirm_payment`, which also clones the account.
  abbrev pub confirm_and_clone :
      ℕ → ℤ → Side → Amount → Amount → OnAccount (ConfirmStatus × CollateralPosition)
  confirm_and_clone payment_id timestamp side amount_paid zero_threshold =
      confirm_on payment_id timestamp side amount_paid zero_threshold >>= λ status.
      gets (λ position. (status, position))

  unfoldable pub confirm_collateral : ℕ → ℕ → ℕ → ℕ → ℤ → Side → Amount → OnManager
  confirm_collateral chain_id address client_order_id payment_id timestamp side amount_paid m =
      then_announce
        (update_funds chain_id address
          (confirm_and_clone payment_id timestamp side amount_paid m.zero_threshold))
        (λ r.
          confirm_response chain_id address client_order_id payment_id amount_paid timestamp r.0
            r.1)
        m

  -- The closure of `close_all_lots`; the payment is "System".
  unfoldable pub close_lots_on : ℕ → ℕ → Side → ℤ → Amount → OnAccount (Unit {0})
  close_lots_on system client_order_id side timestamp zero_threshold p =
      let unconfirmed_amount = (get_side side p).unconfirmed_balance in
      (do
        ignore (add_ready_on side unconfirmed_amount timestamp zero_threshold)
        ignore (preauth_on client_order_id system timestamp side unconfirmed_amount zero_threshold)
        ignore (confirm_on system timestamp side unconfirmed_amount zero_threshold))
        p

  unfoldable pub close_all_lots : ℕ → ℕ → ℕ → ℕ → Side → ℤ → OnManager
  close_all_lots system chain_id address client_order_id side timestamp m =
      update_funds chain_id address
        (close_lots_on system client_order_id side timestamp m.zero_threshold) m

  abbrev pub if_ready : Side → Option Amount → ℤ → Amount → OnAccount (Unit {0})
  if_ready side none timestamp zero_threshold = pure tt
  if_ready side (some amount) timestamp zero_threshold =
      add_ready_on side amount timestamp zero_threshold

  -- The closure of `book_records`; the payment is "Charges".
  unfoldable pub book_on : ℕ → ℕ → Side → Option Amount → Amount → ℤ → Amount → OnAccount (Unit {0})
  book_on charges client_order_id side amount_ready fee timestamp zero_threshold = do
    if_ready side amount_ready timestamp zero_threshold
    add_ready_on side fee timestamp zero_threshold
    preauth_on client_order_id charges timestamp side fee zero_threshold
    confirm_on charges timestamp side fee zero_threshold
    pure tt

  unfoldable pub book_records : ℕ → ℕ → ℕ → ℕ → Side → Option Amount → Amount → ℤ → OnManager
  book_records charges chain_id address client_order_id side amount_ready fee timestamp m =
      update_funds chain_id address
        (book_on charges client_order_id side amount_ready fee timestamp m.zero_threshold) m

  -- The event of a transfer that has ended.
  abbrev pub answer_of : TransferReport → RoutingStatus → CollateralEvent
  answer_of t status =
      collateral_ready t.chain_id t.address t.client_order_id t.amount t.timestamp status

  -- The observer is told after `close_all_lots`, whose error is only logged.
  abbrev pub tell_closed :
      TransferReport
      → Result ManagerError (Unit {0}) × CollateralManager
      → Result ManagerError (Unit {0}) × CollateralManager
  tell_closed t (ok done_with, m) = (ok tt, announce (answer_of t not_ready) m)
  tell_closed t (err e, m) =
      if unwinds e then (err e, m) else (ok tt, announce (answer_of t not_ready) m)

  unfoldable pub close_and_tell : ℕ → TransferReport → OnManager
  close_and_tell system t m =
      tell_closed t (close_all_lots system t.chain_id t.address t.client_order_id buy t.timestamp m)

  -- The arms of `match self.book_records(..)` of a complete transfer.
  unfoldable pub booked_or_closed :
      ℕ
      → TransferReport
      → Result ManagerError (Unit {0}) × CollateralManager
      → Result ManagerError (Unit {0}) × CollateralManager
  unfolding close_and_tell
  booked_or_closed system t (ok done_with, m) = (ok tt, announce (answer_of t (ready t.fee)) m)
  booked_or_closed system t (err e, m) = if unwinds e then (err e, m) else close_and_tell system t m

  -- Of a failed transfer the lots are closed, whether the fees were booked or not.
  unfoldable pub closed_anyway :
      ℕ
      → TransferReport
      → Result ManagerError (Unit {0}) × CollateralManager
      → Result ManagerError (Unit {0}) × CollateralManager
  unfolding close_and_tell
  closed_anyway system t (ok done_with, m) = close_and_tell system t m
  closed_anyway system t (err e, m) = if unwinds e then (err e, m) else close_and_tell system t m

  unfoldable pub handle_collateral_transfer_event : ℕ → ℕ → CollateralTransferEvent → OnManager
  handle_collateral_transfer_event charges system (transfer_complete t) m =
      booked_or_closed system t (
        book_records charges t.chain_id t.address t.client_order_id buy (some t.amount) t.fee
          t.timestamp m)
  handle_collateral_transfer_event charges system (transfer_failed t collateral_at reason) m =
      closed_anyway system t
        (book_records charges t.chain_id t.address t.client_order_id buy none t.fee t.timestamp m)

-- The test of `partition_map`.
unfoldable pub is_ready_to_route : CollateralManager → CollateralManagement → Bool
is_ready_to_route m request = elim (get_position request.chain_id request.address m) [
  | none ↦ false
  | some position ↦
      if ltb_ℤ (get_side request.side position.value).unconfirmed_balance request.collateral_amount
      then false
      else true
]

abbrev pub select :
    (CollateralManagement → Bool) → List CollateralManagement → List CollateralManagement
select test [] = []
select test (request ∷ requests) =
    if test request then request ∷ select test requests else select test requests

-- The router has panicked.
abbrev pub has_panicked : Result RouterError (Unit {0}) → Bool
has_panicked (err panics) = true
has_panicked _ = false

-- `Err(err) => Some((err, request))`
abbrev pub if_refused :
    CollateralManagement
    → Result RouterError (Unit {0})
    → List CollateralManagement
    → List CollateralManagement
if_refused request (ok done_with) failures = failures
if_refused request (err e) failures = request ∷ failures

-- The loop of `filter_map` over the requests that are ready: the ones that the router refuses, and
-- nothing if it panics, at which the loop ends.
unfoldable pub route_each :
    (Bridge → Transfer → Bool)
    → List CollateralManagement
    → CollateralRouter
    → Option (List CollateralManagement) × CollateralRouter
route_each accepts [] r = (some [], r)
route_each accepts (request ∷ requests) r =
    let (result, r₁) =
      transfer_collateral accepts request.chain_id request.address request.client_order_id
        request.symbol request.side request.collateral_amount r in
    let (failures, r₂) = route_each accepts requests r₁ in
    if has_panicked result
    then (none, r₁)
    else (Option.map (if_refused request result) failures, r₂)

abbrev pub later_event : ℤ → CollateralManagement → CollateralEvent
later_event timestamp request =
    collateral_ready request.chain_id request.address request.client_order_id zero_amount timestamp
      check_later

abbrev pub failure_event : ℤ → CollateralManagement → CollateralEvent
failure_event timestamp request =
    collateral_ready request.chain_id request.address request.client_order_id
      request.collateral_amount timestamp not_ready

-- The events for the requests that were refused, after the loop.
abbrev pub tell_failures :
    ℤ
    → CollateralManager
    → Option (List CollateralManagement)
    → Result ManagerError (Unit {0}) × CollateralManager
tell_failures timestamp m none = (err routing_panicked, m)
tell_failures timestamp m (some failures) =
    (ok tt, record m { published = m.published ++ map (failure_event timestamp) failures })

unfoldable pub process_collateral : (Bridge → Transfer → Bool) → ℤ → OnManager
process_collateral accepts timestamp m =
    let ready_to_route = select (is_ready_to_route m) m.requests in
    let later = select (λ request. not (is_ready_to_route m request)) m.requests in
    let (failures, router) = route_each accepts ready_to_route m.router in
    tell_failures timestamp
      (record m {
        requests = [];
        router = router;
        published = m.published ++ map (later_event timestamp) later;
      })
      failures
