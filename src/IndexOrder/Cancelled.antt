-- ===== src/IndexOrder/Cancelled.antt =====
-- index_order.rs: what `match_cancel` takes from the updates, and what the operations that call it do
-- to the order's remaining collateral.
-- From `c` the walk over `us` has come to `c'`.
use index_maker.Prelude.{
  if◌then◌else◌, Bool-cases, Option-cases, ℕ, suc, ◌+◌, ◌≡◌, refl, ◌⊎◌, inl, inr, Bool, true, false,
  Option, none, some, List, [], ◌∷◌, arith, reverse, Result, ok, err,
}
use index_maker.Prelude.Int.{◌-ℤ◌, ◌≤ℤ◌, ◌<ℤ◌, ltb_ℤ, int_laws, -ℤ◌}
use index_maker.Decimal.{Amount, zero_amount, Decimal, IsExact, safe_sub}
use index_maker.IndexOrder.Backwards.{remaining_total-reverse, commit_cancel-walked}
use index_maker.IndexOrder.Matching.{
  Cancelling, cancel_whole, cancel_update, commit_cancel, cancelling_of, cancel_loop, match_cancel,
}
use index_maker.IndexOrder.Totals.{remaining_total, Shifted, walked, walked-suc, Shifted-then}
use index_maker.IndexOrder.Update.{IndexOrderUpdate, IndexOrder, IndexOrderError}

abbrev Walked : Amount → List IndexOrderUpdate → Cancelling → Cancelling → Type 0
Walked tolerance us c c' =
    (k : ℕ) × (c'.order_updates_drain_count ≡ c.order_updates_drain_count + k)
    × Shifted tolerance c.collateral_amount (remaining_total us)
        (remaining_total (walked c'.back_order_update k us)) c'.result

-- Before each step of the walk.
abbrev Fresh : Cancelling → Type 0
Fresh c = (c.back_order_update ≡ none) × (c.result ≡ some c.collateral_amount)

-- What one step does, by whether it ends the walk: it ends when the amount is used up, at an engaged
-- update, or within an update.
abbrev Stepped : Amount → IndexOrderUpdate → Amount → Cancelling → Bool × Cancelling → Type 0
Stepped tolerance u future c (false, c') =
    Fresh c'
    × (c'.collateral_amount ≡ -ℤ◌ future)
    × (c'.order_updates_drain_count ≡ c.order_updates_drain_count + 1)
Stepped tolerance u future c (true, c') =
    ((c'.back_order_update ≡ none)
      × (c'.order_updates_drain_count ≡ c.order_updates_drain_count + 1)
      × (((c'.result ≡ none) × (future <ℤ tolerance) × (-ℤ◌ tolerance ≤ℤ future))
          ⊎ (c'.result ≡ some (-ℤ◌ future))))
    ⊎ ((c'.result ≡ none)
        × (c'.back_order_update ≡ some (record u { remaining_collateral = future }))
        × (c'.order_updates_drain_count ≡ c.order_updates_drain_count))

cancel_whole-Stepped :
    (tolerance : Amount) (u : IndexOrderUpdate) (future : Amount) (engaged : Option Amount)
    (c : Cancelling)
    → Fresh c
    → ltb_ℤ future tolerance ≡ true
    → Stepped tolerance u future c (cancel_whole tolerance u future engaged c)
unfolding cancel_whole
cancel_whole-Stepped tol u future (some engaged) c fresh low = inl (fresh.0, refl, inr refl)
cancel_whole-Stepped tol u future none c fresh low = elim (Bool-cases (ltb_ℤ future (-ℤ◌ tol))) [
  | inl more ↦ rw (more, cancel_whole) ((fresh.0, refl), refl, refl)
  | inr ended ↦
      rw (ended, cancel_whole) (inl (fresh.0, refl, inl (refl, omega int_laws, omega int_laws)))
]

cancel_update-Stepped :
    (tolerance : Amount) (u : IndexOrderUpdate) (future : Amount) (c : Cancelling)
    → Fresh c
    → Stepped tolerance u future c (cancel_update tolerance u future c)
unfolding cancel_update
cancel_update-Stepped tol u future c fresh = elim (Bool-cases (ltb_ℤ future tol)) [
  | inl low ↦
      rw (low, cancel_update) (cancel_whole-Stepped tol u future u.engaged_collateral c fresh low)
  | inr high ↦ rw (high, cancel_update) (inr (refl, refl, refl))
]

last-Walked :
    (tolerance : Amount) (u : IndexOrderUpdate) (us : List IndexOrderUpdate) (future : Amount)
    (c c' : Cancelling)
    → zero_amount ≤ℤ tolerance
    → future ≡ u.remaining_collateral -ℤ c.collateral_amount
    → Stepped tolerance u future c (true, c')
    → Walked tolerance (u ∷ us) c c'
unfolding remaining_total
last-Walked tol u us future c c' wide minus (inl (back, counted, inl (ended, low, high))) =
    (1, counted, rw (ended, back) (omega int_laws, omega int_laws))
last-Walked tol u us future c c' wide minus (inl (back, counted, inr stopped)) =
    (1, counted, rw (stopped, back) (omega int_laws))
last-Walked tol u us future c c' wide minus (inr (ended, back, counted)) =
    (0, omega arith, rw (ended, back) (omega int_laws, omega int_laws))

next-Walked :
    (tolerance : Amount) (u : IndexOrderUpdate) (us : List IndexOrderUpdate) (future : Amount)
    (c c₁ c' : Cancelling)
    → future ≡ u.remaining_collateral -ℤ c.collateral_amount
    → c₁.collateral_amount ≡ -ℤ◌ future
    → c₁.order_updates_drain_count ≡ c.order_updates_drain_count + 1
    → Walked tolerance us c₁ c'
    → Walked tolerance (u ∷ us) c c'
unfolding remaining_total
next-Walked tol u us future c c₁ c' minus less counted (k, drained, shifted) = (
  suc k,
  omega arith,
  rw (walked-suc c'.back_order_update k u us) (
      Shifted-then tol c.collateral_amount future u.remaining_collateral (remaining_total us)
        (remaining_total (walked c'.back_order_update k us)) c'.result minus (rw less at shifted)),
)

-- After `match_cancel` of `amount`, of which it returns what is left.
abbrev pub Cancels :
    Amount → Amount → IndexOrder → Result IndexOrderError (Option Amount) × IndexOrder → Type 0
Cancels tolerance amount o (ok left, o') =
    Shifted tolerance amount (remaining_total o.order_updates) (remaining_total o'.order_updates)
      left
Cancels tolerance amount o (err e, o') = o' ≡ o

module _ ⦃d : Decimal⦄ (exact : IsExact d) (tolerance : Amount)
    (wide : zero_amount ≤ℤ tolerance) where
  cancel_loop-Walked :
      (us : List IndexOrderUpdate) (c c' : Cancelling)
      → Fresh c
      → cancel_loop tolerance us c ≡ ok c'
      → Walked tolerance us c c'
  unfolding cancel_loop
  cancel_loop-Walked [] c c' fresh h =
      let same : c' ≡ c = cc in rw (same, fresh.0, fresh.1) (0, omega arith, refl)
  cancel_loop-Walked (u ∷ us) c c' fresh h =
      elim (Option-cases (safe_sub u.remaining_collateral c.collateral_amount)) [
        | inl over ↦ cc
        | inr (future, s) ↦
            go (cancel_update tolerance u future c) (exact.sub_exact _ _ _ s)
              (cancel_update-Stepped tolerance u future c fresh) (rw (s, cancel_loop) at h)
              (λ c₁. cancel_loop-Walked us c₁ c')
      ]
    where
      go :
          {future : Amount} (r : Bool × Cancelling)
          → future ≡ u.remaining_collateral -ℤ c.collateral_amount
          → Stepped tolerance u future c r
          → (if r.0 then ok r.1 else cancel_loop tolerance us r.1) ≡ ok c'
          → ((c₁ : Cancelling)
              → Fresh c₁
              → cancel_loop tolerance us c₁ ≡ ok c'
              → Walked tolerance us c₁ c')
          → Walked tolerance (u ∷ us) c c'
      go {future} (true, c₁) minus step same rec =
          let e : c₁ ≡ c' = cc in last-Walked tolerance u us future c c' wide minus (rw e at step)
      go {future} (false, c₁) minus (fresh₁, less, counted) same rec =
          next-Walked tolerance u us future c c₁ c' minus less counted (rec c₁ fresh₁ same)

  -- With exact arithmetic and a tolerance that is not negative: what `match_cancel` takes from the
  -- updates and what it returns as left make up the amount, exactly if something is left and up to
  -- the tolerance if nothing is; when it fails it changes nothing.
  pub match_cancel-Cancels :
      (amount : Amount) (o : IndexOrder)
      → Cancels tolerance amount o (match_cancel amount tolerance o)
  unfolding match_cancel
  match_cancel-Cancels amount o =
      go (cancel_loop tolerance (reverse o.order_updates) (cancelling_of amount)) refl
    where
      go :
          (r : Result IndexOrderError Cancelling)
          → cancel_loop tolerance (reverse o.order_updates) (cancelling_of amount) ≡ r
          → Cancels tolerance amount o
              (elim r as (λ _. Result IndexOrderError (Option Amount) × IndexOrder) [
                | err e ↦ (err e, o)
                | ok c ↦ (ok c.result, commit_cancel c o)
              ])
      go (err e) q = refl
      go (ok c) q =
          let (k, counted, s) =
            cancel_loop-Walked (reverse o.order_updates) (cancelling_of amount) c (refl, refl) q in
          let at_k : c.order_updates_drain_count ≡ k = omega arith in
          rw
            (
              commit_cancel-walked c o,
              at_k,
              remaining_total-reverse (walked c.back_order_update k (reverse o.order_updates)),
            )
            (rw (remaining_total-reverse o.order_updates) at s)
