-- ===== src/Collateral/Covered.antt =====
-- src/collateral/collateral_manager.rs: `process_collateral` sends over the bridges only what an
-- account has unconfirmed.
use mathlib.Core.List.{append-nil, append_assoc, Memᴰ}
use index_maker.Prelude.{
  Bool-cases, Option-cases, ◌≡◌, refl, sym, ap, ◌∙◌, inl, inr, Bool, true, Option, none, some, List,
  [], ◌∷◌, ◌++◌, arith, All, All-map, All-append, Result-cases,
}
use index_maker.Prelude.Int.{ℤ, ◌≤ℤ◌}
use index_maker.Bits.{Side, buy, sell}
use index_maker.Collateral.Account.{CollateralPosition, get_side}
use index_maker.Collateral.Manager.{
  CollateralManagement, CollateralManager, get_position, is_ready_to_route, select, has_panicked,
  route_each, tell_failures, process_collateral,
}
use index_maker.Collateral.Router.{
  Bridge, Transfer, CollateralRouter, first_hop, transfer_funds, transfer_collateral,
}
use index_maker.SafeUpdate.{ArcSwap}

-- The transfer that a request asks for.
pub record Asks (request : CollateralManagement) (t : Transfer) : Type 0 where
  pub chain_id : t.chain_id ≡ request.chain_id
  pub address : t.address ≡ request.address
  pub client_order_id : t.client_order_id ≡ request.client_order_id
  pub amount : t.amount ≡ request.collateral_amount

-- The account has at least that amount of unconfirmed balance.
pub record IsFunded (m : CollateralManager) (request : CollateralManagement) : Type 0 where
  pub position : ArcSwap CollateralPosition
  pub found : get_position request.chain_id request.address m ≡ some position
  pub enough :
      request.collateral_amount ≤ℤ (get_side request.side position.value).unconfirmed_balance

is_ready-IsFunded :
    (m : CollateralManager) (request : CollateralManagement)
    → is_ready_to_route m request ≡ true
    → IsFunded m request
unfolding is_ready_to_route
is_ready-IsFunded m request h =
    elim (Option-cases (get_position request.chain_id request.address m)) [
      | inl absent ↦ cc (rw (absent, is_ready_to_route) at h)
      | inr (position, found) ↦ record {
        position = position;
        found = found;
        enough = ground (arith, rw (found, is_ready_to_route) at h);
      }
    ]

-- What is sent for one of some requests.
abbrev pub SentFor : (CollateralManagement → Type 0) → List CollateralManagement → Transfer → Type 0
SentFor P requests t =
    (request : CollateralManagement) × Memᴰ request requests × P request × Asks request t

All-select :
    (test : CollateralManagement → Bool) (requests : List CollateralManagement)
    → All (λ q. test q ≡ true) (select test requests)
All-select test [] = tt
All-select test (q ∷ requests) = elim (Bool-cases (test q)) [
  | inl h ↦ rw h (h, All-select test requests)
  | inr h ↦ rw h (All-select test requests)
]

Memᴰ-of_select :
    (test : CollateralManagement → Bool) (q : CollateralManagement)
    (requests : List CollateralManagement)
    → Memᴰ q (select test requests)
    → Memᴰ q requests
Memᴰ-of_select test q [] m = m
Memᴰ-of_select test q (x ∷ requests) m = elim (Bool-cases (test x)) [
  | inl h ↦ inside (λ k. Memᴰ-of_select test q requests k) (rw h at m)
  | inr h ↦ Memᴰ.tail (Memᴰ-of_select test q requests (rw h at m))
]
  where
    inside :
        (Memᴰ q (select test requests) → Memᴰ q requests)
        → Memᴰ q (x ∷ select test requests)
        → Memᴰ q (x ∷ requests)
    inside ih (Memᴰ.head e) = Memᴰ.head e
    inside ih (Memᴰ.tail rest) = Memᴰ.tail (ih rest)

-- The transfers that a step of the router has sent.
pub record Sends (P : Transfer → Type 0) (r t : CollateralRouter) : Type 0 where
  pub new : List (Bridge × Transfer)
  pub appended : t.sent ≡ r.sent ++ new
  pub each : All (λ (x : Bridge × Transfer). P x.1) new

Sends-nil : (P : Transfer → Type 0) (r : CollateralRouter) → Sends P r r
Sends-nil P r = record { new = []; appended = sym (append-nil r.sent); each = tt }

SentFor-later :
    (P : CollateralManagement → Type 0) (request : CollateralManagement)
    (requests : List CollateralManagement) (t : Transfer)
    → SentFor P requests t
    → SentFor P (request ∷ requests) t
SentFor-later P request requests t (q, m, p, a) = (q, Memᴰ.tail m, p, a)

module _ (accepts : Bridge → Transfer → Bool) where
  -- One request sends one transfer, or none.
  transfer_collateral-Sends :
      (request : CollateralManagement) (side : Side) (r : CollateralRouter)
      → Sends
          (Asks request)
          r
          (transfer_collateral accepts request.chain_id request.address request.client_order_id
            request.symbol side request.collateral_amount r).1
  unfolding transfer_collateral transfer_funds
  transfer_collateral-Sends request sell r = Sends-nil (Asks request) r
  transfer_collateral-Sends request buy r =
      elim (Result-cases (first_hop request.chain_id request.symbol r)) [
        | inl (e, h) ↦ rw (h, transfer_collateral) (Sends-nil (Asks request) r)
        | inr (hop, h) ↦
            rw (h, transfer_collateral)
              (record {
                new = _ ∷ [];
                appended = refl;
                each = (
                  record { chain_id = refl; address = refl; client_order_id = refl; amount = refl },
                  tt,
                );
              })
      ]

  route_each-Sends :
      (P : CollateralManagement → Type 0) (requests : List CollateralManagement)
      (r : CollateralRouter)
      → All P requests
      → Sends (SentFor P requests) r (route_each accepts requests r).1
  unfolding route_each
  route_each-Sends P [] r h = Sends-nil (SentFor P []) r
  route_each-Sends P (request ∷ requests) r h =
      let result =
        transfer_collateral accepts request.chain_id request.address request.client_order_id
          request.symbol request.side request.collateral_amount r in
      let one = transfer_collateral-Sends request request.side r in
      let first = All-map _ _ (λ x a. (request, Memᴰ.head refl, h.0, a)) one.new one.each in
      let rest = route_each-Sends P requests result.1 h.1 in
      elim (Bool-cases (has_panicked result.0)) [
        | inl panic ↦ rw panic (record { new = one.new; appended = one.appended; each = first })
        | inr goes_on ↦ rw goes_on (record {
          new = one.new ++ rest.new;
          appended =
              rest.appended
              ∙ ap (λ l. l ++ rest.new) one.appended
              ∙ append_assoc r.sent one.new rest.new;
          each =
              All-append _ one.new rest.new first
                (All-map _ _ (λ x a. SentFor-later P request requests x.1 a) rest.new rest.each);
        })
      ]

  tell_failures_router :
      (timestamp : ℤ) (m : CollateralManager) (failures : Option (List CollateralManagement))
      → (tell_failures timestamp m failures).1.router ≡ m.router
  tell_failures_router timestamp m none = refl
  tell_failures_router timestamp m (some failures) = refl

  -- Every transfer that `process_collateral` sends is one that a request asks for, and the account of
  -- the request has at least its amount unconfirmed on the side of the request.
  pub process_collateral-Sends :
      (timestamp : ℤ) (m : CollateralManager)
      → Sends
          (SentFor (IsFunded m) m.requests)
          m.router
          (process_collateral accepts timestamp m).1.router
  unfolding process_collateral
  process_collateral-Sends timestamp m =
      let s = route_each-Sends (IsFunded m) (select (is_ready_to_route m) m.requests) m.router (
        All-map _ _ (λ q h. is_ready-IsFunded m q h) _
          (All-select (is_ready_to_route m) m.requests)) in
      record {
        new = s.new;
        appended = ap (λ r. r.sent) (tell_failures_router timestamp _ _) ∙ s.appended;
        each =
            All-map _ _
              (λ x (q, mem, p, a). (q, Memᴰ-of_select (is_ready_to_route m) q m.requests mem, p, a))
              s.new s.each;
      }
