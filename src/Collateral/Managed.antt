-- ===== src/Collateral/Managed.antt =====
-- src/collateral/collateral_manager.rs: whatever the manager is called with, every account stays
-- accounted for.
use index_maker.Prelude.{
  Bool-cases, Option-cases, ℕ, refl, inl, inr, Bool, Option, none, some, List, [], ◌∷◌, All, Result,
  ok, err, Action, pure, gets, modify, ◌>>=◌, ◌>>◌, bind_holds,
}
use index_maker.Prelude.Int.{ℤ, ◌+ℤ◌}
use index_maker.Decimal.{Amount, Decimal, IsExact}
use index_maker.Bits.{Side, buy, sell}
use index_maker.Collateral.Account.{
  CollateralPosition, OnAccount, new_account, get_side, on_side, deposit, withdraw, add_ready_on,
  preauth_if_ready, confirm_if_preauth, preauth_on, confirm_on,
}
use index_maker.Collateral.Accounted.{
  AreAccounted, deposits, withdraws, perform, OnSuccess, Keeps-IsAccounted, always,
  preauth_if_ready-Keeps, confirm_if_preauth-Keeps, perform-AreAccounted,
}
use index_maker.Collateral.Manager.{
  CollateralManagement, CollateralEvent, preauth_response, confirm_response, ManagerError, unwinds,
  Funds, CollateralManager, funds_eq, announce, get_position, add_position, update_funds,
  update_or_add, then_announce, manage_collateral, ignore, handle_deposit, handle_withdrawal,
  preauth_collateral, confirm_and_clone, confirm_collateral, close_lots_on, close_all_lots,
  if_ready, book_on, book_records, tell_closed, close_and_tell, booked_or_closed, closed_anyway,
  handle_collateral_transfer_event, tell_failures, process_collateral,
}
use index_maker.Collateral.Router.{
  Bridge, Transfer, TransferReport, CollateralTransferEvent, transfer_complete, transfer_failed,
}
use index_maker.Collateral.Side.{CollateralSide, Stop, Attempt, new_side, add_ready}
use index_maker.Collateral.Totals.{total, Keeps, add_ready-Keeps}
use index_maker.Prelude.Keyed.{find_key, All-put_key, All-find_key}
use index_maker.SafeUpdate.{ArcSwap, swapped, safe_update}

-- The calls that change the manager; of a result only the state is looked at.
pub data Call : Type 0 where
  deposited : ℕ → ℕ → ℕ → ℕ → Amount → ℤ → Call
  withdrawn : ℕ → ℕ → ℕ → Amount → ℤ → Call
  managed : CollateralManagement → Call
  preauthorized confirmed : ℕ → ℕ → ℕ → ℕ → ℤ → Side → Amount → Call
  -- with the identifiers "Charges" and "System"
  ended : ℕ → ℕ → CollateralTransferEvent → Call
  processed : (Bridge → Transfer → Bool) → ℤ → Call

module _ ⦃d : Decimal⦄ where
  abbrev pub call : Call → CollateralManager → CollateralManager
  call (deposited id chain_id address seq_num amount timestamp) m =
      (handle_deposit id chain_id address seq_num amount timestamp m).1
  call (withdrawn id chain_id address amount timestamp) m =
      (handle_withdrawal id chain_id address amount timestamp m).1
  call (managed request) m = manage_collateral request m
  call (preauthorized id chain_id address order timestamp side amount) m =
      (preauth_collateral id chain_id address order timestamp side amount m).1
  call (confirmed chain_id address order id timestamp side amount) m =
      (confirm_collateral chain_id address order id timestamp side amount m).1
  call (ended charges system event) m = (handle_collateral_transfer_event charges system event m).1
  call (processed accepts timestamp) m = (process_collateral accepts timestamp m).1

  abbrev pub calls : List Call → CollateralManager → CollateralManager
  calls [] m = m
  calls (c ∷ cs) m = calls cs (call c m)

abbrev AccountOk : ArcSwap CollateralPosition → Type 0
AccountOk funds = AreAccounted funds.value

-- Every account is accounted for.
abbrev pub AllAccounted : CollateralManager → Type 0
AllAccounted m =
    All (λ (e : (ℕ × ℕ) × ArcSwap CollateralPosition). AreAccounted e.1.value) m.client_funds

-- A step of an account that, whatever its outcome, leaves it accounted for.
abbrev Always : {A : Type 0} → OnAccount A → Type 0
Always f = (p : CollateralPosition) → AreAccounted p → AreAccounted (f p).1

on_side-Always :
    {A : Type 0} (side : Side) (f : Attempt A)
    → ((s : CollateralSide) → Keeps s (f s).1)
    → Always (on_side side f)
unfolding on_side
on_side-Always buy f keeps p a =
    (Keeps-IsAccounted p.side_cr (f p.side_cr).1 a.0 (keeps p.side_cr), a.1)
on_side-Always sell f keeps p a =
    (a.0, Keeps-IsAccounted p.side_dr (f p.side_dr).1 a.1 (keeps p.side_dr))

bind-Always :
    {A B : Type 0} (f : OnAccount A) (k : A → OnAccount B)
    → Always f
    → ((a : A) → Always (k a))
    → Always (f >>= k)
bind-Always f k hf hk p a = bind_holds AreAccounted f k p (hf p a) hk

new_account-AreAccounted :
    (chain_id address : ℕ) (timestamp : ℤ) → AreAccounted (new_account chain_id address timestamp)
unfolding new_account new_side total ◌+ℤ◌
new_account-AreAccounted chain_id address timestamp = (refl, refl)

module _ ⦃d : Decimal⦄ (exact : IsExact d) where
  add_ready_on-Always :
      (side : Side) (amount : Amount) (timestamp : ℤ) (zt : Amount)
      → Always (add_ready_on side amount timestamp zt)
  unfolding add_ready_on
  add_ready_on-Always side amount timestamp zt =
      on_side-Always side (add_ready amount timestamp zt)
        (add_ready-Keeps exact amount timestamp zt)

  preauth_on-Always :
      (order id : ℕ) (timestamp : ℤ) (side : Side) (amount zt : Amount)
      → Always (preauth_on order id timestamp side amount zt)
  unfolding preauth_on
  preauth_on-Always order id timestamp side amount zt =
      on_side-Always side (preauth_if_ready order id timestamp amount zt)
        (preauth_if_ready-Keeps exact order id timestamp amount zt)

  confirm_on-Always :
      (id : ℕ) (timestamp : ℤ) (side : Side) (amount zt : Amount)
      → Always (confirm_on id timestamp side amount zt)
  unfolding confirm_on
  confirm_on-Always id timestamp side amount zt =
      on_side-Always side (confirm_if_preauth id timestamp amount zt)
        (confirm_if_preauth-Keeps exact id timestamp amount zt)

  if_ready-Always :
      (side : Side) (amount : Option Amount) (timestamp : ℤ) (zt : Amount)
      → Always (if_ready side amount timestamp zt)
  if_ready-Always side none timestamp zt p a = a
  if_ready-Always side (some amount) timestamp zt p a =
      add_ready_on-Always side amount timestamp zt p a

  book_on-Always :
      (charges order : ℕ) (side : Side) (amount : Option Amount) (fee : Amount) (timestamp : ℤ)
      (zt : Amount)
      → Always (book_on charges order side amount fee timestamp zt)
  unfolding book_on
  book_on-Always charges order side amount fee timestamp zt =
      let confirms : OnAccount (Unit {0}) = confirm_on charges timestamp side fee zt >> pure tt in
      let authorizes : OnAccount (Unit {0}) =
        preauth_on order charges timestamp side fee zt >> confirms in
      let readies : OnAccount (Unit {0}) = add_ready_on side fee timestamp zt >> authorizes in
      bind-Always (if_ready side amount timestamp zt) (λ _. readies)
        (if_ready-Always side amount timestamp zt)
        (λ _.
          bind-Always (add_ready_on side fee timestamp zt) (λ _. authorizes)
            (add_ready_on-Always side fee timestamp zt)
            (λ _.
              bind-Always (preauth_on order charges timestamp side fee zt) (λ _. confirms)
                (preauth_on-Always order charges timestamp side fee zt)
                (λ _.
                  bind-Always (confirm_on charges timestamp side fee zt) (λ _. pure tt)
                    (confirm_on-Always charges timestamp side fee zt) (λ _ p a. a))))

  close_lots_on-Always :
      (system order : ℕ) (side : Side) (timestamp : ℤ) (zt : Amount)
      → Always (close_lots_on system order side timestamp zt)
  unfolding close_lots_on
  close_lots_on-Always system order side timestamp zt p a =
      let amount = (get_side side p).unconfirmed_balance in
      let confirms : OnAccount (Unit {0}) = ignore (confirm_on system timestamp side amount zt) in
      let authorizes : OnAccount (Unit {0}) =
        ignore (preauth_on order system timestamp side amount zt) >> confirms in
      bind-Always (ignore (add_ready_on side amount timestamp zt)) (λ _. authorizes)
        (add_ready_on-Always side amount timestamp zt)
        (λ _.
          bind-Always (ignore (preauth_on order system timestamp side amount zt)) (λ _. confirms)
            (preauth_on-Always order system timestamp side amount zt)
            (λ _. confirm_on-Always system timestamp side amount zt))
        p a

abbrev AllOf : Funds → Type 0
AllOf funds = All (λ (e : (ℕ × ℕ) × ArcSwap CollateralPosition). AreAccounted e.1.value) funds

-- An account after `safe_update`.
safe_update-holds :
    {A : Type 0} (f : OnAccount A) (s : ArcSwap CollateralPosition)
    → OnSuccess AreAccounted (f s.value)
    → AreAccounted s.value
    → AreAccounted (safe_update f [] s).1.value
unfolding safe_update swapped
safe_update-holds {A} f s new old = go (f s.value) new
  where
    go :
        (r : Result Stop A × CollateralPosition)
        → OnSuccess AreAccounted r
        → AreAccounted (swapped r s).1.value
    go (ok a, p) h = h
    go (err e, p) h = old

update_funds-holds :
    {A : Type 0} (chain_id address : ℕ) (f : OnAccount A) (m : CollateralManager)
    → Always f
    → AllAccounted m
    → AllAccounted (update_funds chain_id address f m).1
unfolding update_funds get_position
update_funds-holds chain_id address f m keeps h =
    elim (Option-cases (find_key funds_eq (chain_id, address) m.client_funds)) [
      | inl absent ↦ rw (absent, update_funds) h
      | inr (funds, found) ↦
          let old = All-find_key funds_eq AccountOk (chain_id, address) m.client_funds h found in
          rw (found, update_funds)
            (All-put_key funds_eq AccountOk (chain_id, address) _ m.client_funds
              (safe_update-holds f funds
                (always AreAccounted (f funds.value) (keeps funds.value old)) old)
              h)
    ]

announced-holds :
    {A : Type 0} (f : Action CollateralManager ManagerError A) (event : A → CollateralEvent)
    (m : CollateralManager)
    → AllAccounted (f m).1
    → AllAccounted (then_announce f event m).1
announced-holds f event m h =
    bind_holds AllAccounted f (λ a. modify (announce (event a))) m h (λ a n k. k)

add_position-holds :
    (chain_id address : ℕ) (timestamp : ℤ) (m : CollateralManager)
    → AllAccounted m
    → AreAccounted (add_position chain_id address timestamp m).value
unfolding add_position get_position
add_position-holds chain_id address timestamp m h =
    elim (Option-cases (find_key funds_eq (chain_id, address) m.client_funds)) [
      | inl absent ↦ rw (absent, add_position) (new_account-AreAccounted chain_id address timestamp)
      | inr (funds, found) ↦
          rw (found, add_position)
            (All-find_key funds_eq AccountOk (chain_id, address) m.client_funds h found)
    ]

update_or_add-holds :
    (chain_id address : ℕ) (timestamp : ℤ) (f : OnAccount (Unit {0})) (m : CollateralManager)
    → ((p : CollateralPosition) → AreAccounted p → OnSuccess AreAccounted (f p))
    → AllAccounted m
    → AllAccounted (update_or_add chain_id address timestamp f m).1
unfolding update_or_add
update_or_add-holds chain_id address timestamp f m keeps h =
    let old = add_position-holds chain_id address timestamp m h in
    All-put_key funds_eq AccountOk (chain_id, address) _ m.client_funds
      (safe_update-holds f _ (keeps _ old) old) h

module _ ⦃d : Decimal⦄ (exact : IsExact d) where
  close_all_lots-holds :
      (system chain_id address order : ℕ) (side : Side) (timestamp : ℤ) (m : CollateralManager)
      → AllAccounted m
      → AllAccounted (close_all_lots system chain_id address order side timestamp m).1
  unfolding close_all_lots
  close_all_lots-holds system chain_id address order side timestamp m h =
      update_funds-holds chain_id address _ m
        (close_lots_on-Always exact system order side timestamp m.zero_threshold) h

  book_records-holds :
      (charges chain_id address order : ℕ) (side : Side) (amount : Option Amount) (fee : Amount)
      (timestamp : ℤ) (m : CollateralManager)
      → AllAccounted m
      → AllAccounted (book_records charges chain_id address order side amount fee timestamp m).1
  unfolding book_records
  book_records-holds charges chain_id address order side amount fee timestamp m h =
      update_funds-holds chain_id address _ m
        (book_on-Always exact charges order side amount fee timestamp m.zero_threshold) h

  tell_closed-holds :
      (t : TransferReport) (r : Result ManagerError (Unit {0}) × CollateralManager)
      → AllAccounted r.1
      → AllAccounted (tell_closed t r).1
  tell_closed-holds t (ok x, n) k = k
  tell_closed-holds t (err e, n) k = elim (Bool-cases (unwinds e)) [
    | inl panic ↦ rw panic k
    | inr goes_on ↦ rw goes_on k
  ]

  close_and_tell-holds :
      (system : ℕ) (t : TransferReport) (m : CollateralManager)
      → AllAccounted m
      → AllAccounted (close_and_tell system t m).1
  unfolding close_and_tell
  close_and_tell-holds system t m h =
      tell_closed-holds t
        (close_all_lots system t.chain_id t.address t.client_order_id buy t.timestamp m)
        (close_all_lots-holds system t.chain_id t.address t.client_order_id buy t.timestamp m h)

  booked_or_closed-holds :
      (system : ℕ) (t : TransferReport) (r : Result ManagerError (Unit {0}) × CollateralManager)
      → AllAccounted r.1
      → AllAccounted (booked_or_closed system t r).1
  unfolding booked_or_closed
  booked_or_closed-holds system t (ok x, n) k = k
  booked_or_closed-holds system t (err e, n) k = elim (Bool-cases (unwinds e)) [
    | inl panic ↦ rw panic k
    | inr goes_on ↦ rw goes_on (close_and_tell-holds system t n k)
  ]

  closed_anyway-holds :
      (system : ℕ) (t : TransferReport) (r : Result ManagerError (Unit {0}) × CollateralManager)
      → AllAccounted r.1
      → AllAccounted (closed_anyway system t r).1
  unfolding closed_anyway
  closed_anyway-holds system t (ok x, n) k = close_and_tell-holds system t n k
  closed_anyway-holds system t (err e, n) k = elim (Bool-cases (unwinds e)) [
    | inl panic ↦ rw panic k
    | inr goes_on ↦ rw goes_on (close_and_tell-holds system t n k)
  ]

  ended-holds :
      (charges system : ℕ) (event : CollateralTransferEvent) (m : CollateralManager)
      → AllAccounted m
      → AllAccounted (handle_collateral_transfer_event charges system event m).1
  unfolding handle_collateral_transfer_event
  ended-holds charges system (transfer_complete t) m h = booked_or_closed-holds system t _ (
      book_records-holds charges t.chain_id t.address t.client_order_id buy (some t.amount) t.fee
        t.timestamp m h)
  ended-holds charges system (transfer_failed t collateral_at reason) m h =
      closed_anyway-holds system t _ (
        book_records-holds charges t.chain_id t.address t.client_order_id buy none t.fee t.timestamp
          m h)

  tell_failures-holds :
      (timestamp : ℤ) (m : CollateralManager) (failures : Option (List CollateralManagement))
      → AllAccounted m
      → AllAccounted (tell_failures timestamp m failures).1
  tell_failures-holds timestamp m none h = h
  tell_failures-holds timestamp m (some failures) h = h

  call-AllAccounted : (c : Call) (m : CollateralManager) → AllAccounted m → AllAccounted (call c m)
  unfolding handle_deposit handle_withdrawal manage_collateral preauth_collateral confirm_collateral
      process_collateral perform
  call-AllAccounted (deposited id chain_id address seq_num amount timestamp) m h =
      update_or_add-holds chain_id address timestamp (deposit id (some seq_num) amount timestamp) m
        (perform-AreAccounted exact (deposits id (some seq_num) amount timestamp)) h
  call-AllAccounted (withdrawn id chain_id address amount timestamp) m h =
      update_or_add-holds chain_id address timestamp (withdraw id amount timestamp) m
        (perform-AreAccounted exact (withdraws id amount timestamp)) h
  call-AllAccounted (managed request) m h = h
  call-AllAccounted (preauthorized id chain_id address order timestamp side amount) m h =
      announced-holds
        (update_funds chain_id address (preauth_on order id timestamp side amount m.zero_threshold))
        (λ status. preauth_response chain_id address order amount timestamp status) m
        (update_funds-holds chain_id address
          (preauth_on order id timestamp side amount m.zero_threshold) m
          (preauth_on-Always exact order id timestamp side amount m.zero_threshold) h)
  call-AllAccounted (confirmed chain_id address order id timestamp side amount) m h =
      let f = confirm_and_clone id timestamp side amount m.zero_threshold in
      announced-holds (update_funds chain_id address f)
        (λ r. confirm_response chain_id address order id amount timestamp r.0 r.1) m
        (update_funds-holds chain_id address f m
          (bind-Always (confirm_on id timestamp side amount m.zero_threshold)
            (λ status. gets (λ position. (status, position)))
            (confirm_on-Always exact id timestamp side amount m.zero_threshold) (λ _ p a. a))
          h)
  call-AllAccounted (ended charges system event) m h = ended-holds charges system event m h
  call-AllAccounted (processed accepts timestamp) m h = tell_failures-holds timestamp _ _ h

  -- With exact arithmetic: whatever the manager is called with, in whatever order and with whatever
  -- outcome, the four balances of each side of every account make up exactly what its lots hold.
  pub calls-AllAccounted :
      (cs : List Call) (m : CollateralManager) → AllAccounted m → AllAccounted (calls cs m)
  calls-AllAccounted [] m h = h
  calls-AllAccounted (c ∷ cs) m h = calls-AllAccounted cs (call c m) (call-AllAccounted c m h)
