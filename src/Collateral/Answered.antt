-- ===== src/Collateral/Answered.antt =====
-- src/collateral/collateral_manager.rs: of every transfer that ends the observer is told once, and no
-- account but that of the transfer changes.
use index_maker.Prelude.{ℕ, ◌≡◌, ◌⊎◌, true, false, some, [], ◌∷◌, ◌++◌, Result, ok, err}
use index_maker.Decimal.{Decimal}
use index_maker.Bits.{buy}
use index_maker.Collateral.Manager.{
  RoutingStatus, ready, not_ready, CollateralEvent, ManagerError, unwinds, CollateralManager,
  funds_eq, get_position, book_records, answer_of,
}
use index_maker.Collateral.Router.{
  TransferReport, CollateralTransferEvent, transfer_complete, transfer_failed,
}

abbrev pub report_in : CollateralTransferEvent → TransferReport
report_in (transfer_complete t) = t
report_in (transfer_failed t collateral_at reason) = t

-- Nothing was told, and only the account of one user may differ.
record IsQuiet (chain_id address : ℕ) (m n : CollateralManager) : Type 0 where
  told : n.published ≡ m.published
  router : n.router ≡ m.router
  requests : n.requests ≡ m.requests
  others :
      (c a : ℕ)
      → funds_eq (chain_id, address) (c, a) ≡ false
      → get_position c a n ≡ get_position c a m

-- What a transfer that has ended does to the manager.
pub record IsTold (event : CollateralEvent) (chain_id address : ℕ) (m n : CollateralManager)
    : Type 0 where
  pub told : n.published ≡ m.published ++ event ∷ []
  pub router : n.router ≡ m.router
  pub requests : n.requests ≡ m.requests
  pub others :
      (c a : ℕ)
      → funds_eq (chain_id, address) (c, a) ≡ false
      → get_position c a n ≡ get_position c a m

-- As what a transfer is reported.
abbrev pub Told :
    ⦃d : Decimal⦄ → ℕ → CollateralTransferEvent → CollateralManager → RoutingStatus → Type 0
Told charges (transfer_failed t collateral_at reason) m status = status ≡ not_ready
Told charges (transfer_complete t) m status =
    let booked =
      (book_records charges t.chain_id t.address t.client_order_id buy (some t.amount) t.fee
        t.timestamp m).0 in
    ((status ≡ ready t.fee) × (booked ≡ ok tt))
    ⊎ ((status ≡ not_ready) × ((e : ManagerError) × (booked ≡ err e) × (unwinds e ≡ false)))

-- The handler has told the observer, or has panicked: then nothing was told.
abbrev pub Ends :
    ⦃d : Decimal⦄
    → ℕ
    → CollateralTransferEvent
    → CollateralManager
    → Result ManagerError (Unit {0}) × CollateralManager
    → Type 0
Ends charges event m (ok done_with, n) =
    let t = report_in event in
    (status : RoutingStatus) × Told charges event m status
    × IsTold (answer_of t status) t.chain_id t.address m n
Ends charges event m (err e, n) = (unwinds e ≡ true) × (n.published ≡ m.published)
