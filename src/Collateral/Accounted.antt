-- ===== src/Collateral/Accounted.antt =====
-- collateral_position.rs: an account stays accounted for whatever is done to it.
-- The four balances of a side make up what its lots hold.
use index_maker.Prelude.{
  Bool-cases, Option-cases, ℕ, ◌≡◌, sym, ◌∙◌, inl, inr, Option, none, List, [], ◌∷◌, Result, ok,
  err, Action, pure, ◌>>=◌, ◌>>◌,
}
use index_maker.Prelude.Int.{ℤ, ltb_ℤ, int_laws, -ℤ◌}
use index_maker.Decimal.{Amount, Decimal, IsExact, safe_add, safe_sub}
use index_maker.Bits.{Side, buy, sell}
use index_maker.Collateral.Account.{
  CollateralPosition, OnAccount, put_side, on_side, touch, deposit, withdraw, add_ready_on,
  preauth_if_ready, confirm_if_preauth, preauth_on, confirm_on,
}
use index_maker.Collateral.Side.{
  CollateralSide, Stop, Attempt, new_lot, is_booked, open_lot, add_ready,
}
use index_maker.Collateral.Spent.{confirm_payment-Keeps}
use index_maker.Collateral.Totals.{
  lot_total, total, held_total, balance_total, Keeps, total-append, Keeps-refl, add_ready-Keeps,
  preauth_payment-Keeps,
}
use index_maker.SafeUpdate.{ArcSwap, swapped, safe_update}

abbrev pub IsAccounted : CollateralSide → Type 0
IsAccounted side = balance_total side ≡ held_total side

abbrev pub AreAccounted : CollateralPosition → Type 0
AreAccounted p = IsAccounted p.side_cr × IsAccounted p.side_dr

-- The calls of the collateral manager that change an account.
pub data Request : Type 0 where
  deposits : ℕ → Option ℕ → Amount → ℤ → Request
  withdraws : ℕ → Amount → ℤ → Request
  readies : Side → Amount → ℤ → Amount → Request
  preauths : ℕ → ℕ → ℤ → Side → Amount → Amount → Request
  confirms : ℕ → ℤ → Side → Amount → Amount → Request

module _ ⦃d : Decimal⦄ where
  unfoldable pub perform : Request → OnAccount (Unit {0})
  perform (deposits payment_id seq_num amount timestamp) =
      deposit payment_id seq_num amount timestamp
  perform (withdraws payment_id amount timestamp) = withdraw payment_id amount timestamp
  perform (readies side amount timestamp zt) = add_ready_on side amount timestamp zt
  perform (preauths client_order_id payment_id timestamp side amount zt) =
      preauth_on client_order_id payment_id timestamp side amount zt >> pure tt
  perform (confirms payment_id timestamp side amount zt) =
      confirm_on payment_id timestamp side amount zt >> pure tt

  -- Requests one after the other, each through `safe_update`.
  unfoldable pub serve : List Request → ArcSwap CollateralPosition → ArcSwap CollateralPosition
  serve [] s = s
  serve (r ∷ rs) s = serve rs (safe_update (perform r) [] s).1

-- What holds of the state that an action ends well with.
abbrev pub OnSuccess : {S A : Type 0} → (S → Type 0) → Result Stop A × S → Type 0
OnSuccess P (ok a, s) = P s
OnSuccess P (err e, s) = Unit {0}

pub Keeps-IsAccounted :
    (side side' : CollateralSide) → IsAccounted side → Keeps side side' → IsAccounted side'
Keeps-IsAccounted side side' a (held, balances) = balances ∙ a ∙ sym held

bind-OnSuccess :
    {S A B : Type 0} (P : S → Type 0) (m : Action S Stop A) (k : A → Action S Stop B) (s : S)
    → OnSuccess P (m s)
    → ((a : A) (t : S) → P t → OnSuccess P (k a t))
    → OnSuccess P ((m >>= k) s)
bind-OnSuccess {S} {A} {B} P m k s h next = go (m s) h
  where
    go :
        (r : Result Stop A × S)
        → OnSuccess P r
        → OnSuccess P
            (elim r.0 as (λ _. Result Stop B × S) [ ok a ↦ k a r.1 | err e ↦ (err e, r.1) ])
    go (ok a, t) p = next a t p
    go (err e, t) p = tt

pub on_side-AreAccounted :
    {A : Type 0} (side : Side) (f : Attempt A)
    → ((s : CollateralSide) → IsAccounted s → OnSuccess IsAccounted (f s))
    → (p : CollateralPosition) → AreAccounted p
    → OnSuccess AreAccounted (on_side side f p)
unfolding on_side
on_side-AreAccounted {A = A} buy f h p a = go (f p.side_cr) (h p.side_cr a.0)
  where
    go :
        (r : Result Stop A × CollateralSide)
        → OnSuccess IsAccounted r
        → OnSuccess AreAccounted (r.0, put_side buy r.1 p)
    go (ok x, s) k = (k, a.1)
    go (err e, s) k = tt
on_side-AreAccounted {A = A} sell f h p a = go (f p.side_dr) (h p.side_dr a.1)
  where
    go :
        (r : Result Stop A × CollateralSide)
        → OnSuccess IsAccounted r
        → OnSuccess AreAccounted (r.0, put_side sell r.1 p)
    go (ok x, s) k = (a.0, k)
    go (err e, s) k = tt

pub always : {S A : Type 0} (P : S → Type 0) (r : Result Stop A × S) → P r.1 → OnSuccess P r
always P (ok a, s) h = h
always P (err e, s) h = tt

module _ ⦃d : Decimal⦄ (exact : IsExact d) where
  pub open_lot-IsAccounted :
      (payment_id : ℕ) (seq_num : Option ℕ) (amount : Amount) (timestamp : ℤ)
      (side : CollateralSide)
      → IsAccounted side
      → OnSuccess IsAccounted (open_lot payment_id seq_num amount timestamp side)
  unfolding open_lot total
  open_lot-IsAccounted p n amount t side a = elim (Bool-cases (is_booked n side)) [
    | inl booked ↦ rw (booked, open_lot) a
    | inr fresh ↦ elim (Option-cases (safe_add side.unconfirmed_balance amount)) [
      | inl over ↦ rw (fresh, over, open_lot) tt
      | inr (balance, q) ↦
          let more = exact.add_exact side.unconfirmed_balance amount balance q in
          let held = total-append lot_total side.open_lots (new_lot p n amount t ∷ []) in
          rw (fresh, q, open_lot, OnSuccess) (rw (held, total) (omega int_laws))
    ]
  ]

  pub preauth_if_ready-Keeps :
      (client_order_id payment_id : ℕ) (timestamp : ℤ) (amount zero_threshold : Amount)
      (side : CollateralSide)
      → Keeps side
          (preauth_if_ready client_order_id payment_id timestamp amount zero_threshold side).1
  unfolding preauth_if_ready
  preauth_if_ready-Keeps c p t amount zt side =
      elim (Option-cases (safe_sub side.ready_balance amount)) [
        | inl over ↦ rw (over, preauth_if_ready) (Keeps-refl side)
        | inr (remaining, q) ↦ elim (Bool-cases (ltb_ℤ remaining (-ℤ◌ zt))) [
          | inl short ↦ rw (q, short, preauth_if_ready) (Keeps-refl side)
          | inr enough ↦
              rw (q, enough, preauth_if_ready) (preauth_payment-Keeps exact c p t amount zt side)
        ]
      ]

  pub confirm_if_preauth-Keeps :
      (payment_id : ℕ) (timestamp : ℤ) (amount zero_threshold : Amount) (side : CollateralSide)
      → Keeps side (confirm_if_preauth payment_id timestamp amount zero_threshold side).1
  unfolding confirm_if_preauth
  confirm_if_preauth-Keeps p t amount zt side =
      elim (Option-cases (safe_sub side.preauth_balance amount)) [
        | inl over ↦ rw (over, confirm_if_preauth) (Keeps-refl side)
        | inr (remaining, q) ↦ elim (Bool-cases (ltb_ℤ remaining (-ℤ◌ zt))) [
          | inl short ↦ rw (q, short, confirm_if_preauth) (Keeps-refl side)
          | inr enough ↦
              rw (q, enough, confirm_if_preauth) (confirm_payment-Keeps exact p t amount zt side)
        ]
      ]

  kept :
      {A : Type 0} (f : Attempt A)
      → ((s : CollateralSide) → Keeps s (f s).1)
      → (s : CollateralSide) → IsAccounted s
      → OnSuccess IsAccounted (f s)
  kept f keeps s a = always IsAccounted (f s) (Keeps-IsAccounted s (f s).1 a (keeps s))

  pub perform-AreAccounted :
      (r : Request) (p : CollateralPosition) → AreAccounted p → OnSuccess AreAccounted (perform r p)
  unfolding perform deposit withdraw add_ready_on preauth_on confirm_on
  perform-AreAccounted (deposits id n amount t) p a =
      bind-OnSuccess AreAccounted (on_side buy (open_lot id n amount t)) (λ _. touch t) p
        (on_side-AreAccounted buy (open_lot id n amount t) (open_lot-IsAccounted id n amount t) p a)
        (λ _ s h. h)
  perform-AreAccounted (withdraws id amount t) p a =
      bind-OnSuccess AreAccounted (on_side sell (open_lot id none amount t)) (λ _. touch t) p
        (on_side-AreAccounted sell (open_lot id none amount t)
          (open_lot-IsAccounted id none amount t) p a)
        (λ _ s h. h)
  perform-AreAccounted (readies side amount t zt) p a =
      on_side-AreAccounted side (add_ready amount t zt)
        (kept (add_ready amount t zt) (add_ready-Keeps exact amount t zt)) p a
  perform-AreAccounted (preauths c id t side amount zt) p a =
      let f = preauth_if_ready c id t amount zt in
      bind-OnSuccess AreAccounted (on_side side f) (λ _. pure tt) p
        (on_side-AreAccounted side f (kept f (preauth_if_ready-Keeps c id t amount zt)) p a)
        (λ _ s h. h)
  perform-AreAccounted (confirms id t side amount zt) p a =
      let f = confirm_if_preauth id t amount zt in
      bind-OnSuccess AreAccounted (on_side side f) (λ _. pure tt) p
        (on_side-AreAccounted side f (kept f (confirm_if_preauth-Keeps id t amount zt)) p a)
        (λ _ s h. h)

  pub swapped-holds :
      (r : Result Stop (Unit {0}) × CollateralPosition) (s : ArcSwap CollateralPosition)
      → AreAccounted s.value
      → OnSuccess AreAccounted r
      → AreAccounted (swapped r s).1.value
  unfolding swapped
  swapped-holds (ok a, p) s old new = new
  swapped-holds (err e, p) s old new = old

  -- With exact arithmetic, and whatever requests are made, in whatever order and with whatever
  -- outcome: the four balances of each side of the account make up exactly what the lots of that
  -- side hold, if they did before.
  pub serve-AreAccounted :
      (rs : List Request) (s : ArcSwap CollateralPosition)
      → AreAccounted s.value
      → AreAccounted (serve rs s).value
  unfolding serve safe_update
  serve-AreAccounted [] s a = a
  serve-AreAccounted (r ∷ rs) s a =
      serve-AreAccounted rs (swapped (perform r s.value) s).1
        (swapped-holds (perform r s.value) s a (perform-AreAccounted r s.value a))
