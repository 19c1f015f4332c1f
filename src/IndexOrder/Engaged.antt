-- ===== src/IndexOrder/Engaged.antt =====
-- index_order.rs: `match_engage` and `solver_engage` take from the updates what they engage.
-- From `e` the walk over `us` has come to `e'`.
use index_maker.Prelude.{
  Bool-cases, Option-cases, ℕ, suc, ◌+◌, ◌≡◌, refl, sym, ◌⊎◌, inl, inr, Bool, true, false, Option,
  none, some, List, [], ◌∷◌, arith, drop, Result, ok, err, pure, ◌>>=◌, ◌>>◌, of_some,
}
use index_maker.Prelude.Int.{◌+ℤ◌, ◌-ℤ◌, ◌≤ℤ◌, ◌<ℤ◌, ltb_ℤ, int_laws, -ℤ◌}
use index_maker.Decimal.{Amount, zero_amount, Decimal, IsExact, safe_sub, safe_add_assign}
use index_maker.IndexOrder.Matching.{
  Engaging, engaging_of, engaged_with, engage_whole, commit_engage, engage_update, engage_loop,
  match_engage,
}
use index_maker.IndexOrder.Order.{book_engaged, book_matched, solver_engage}
use index_maker.IndexOrder.Totals.{remaining_total, Shifted, walked, walked-suc, Shifted-then}
use index_maker.IndexOrder.Update.{IndexOrderUpdate, IndexOrder, IndexOrderError}

abbrev Walked : Amount → List IndexOrderUpdate → Engaging → Engaging → Type 0
Walked tolerance us e e' =
    (k : ℕ) × (e'.order_updates_drain_count ≡ e.order_updates_drain_count + k)
    × Shifted tolerance e.collateral_amount (remaining_total us)
        (remaining_total (walked e'.front_order_update k us)) e'.result

-- Before each step of the walk.
abbrev Fresh : Engaging → Type 0
Fresh e = (e.front_order_update ≡ none) × (e.result ≡ some e.collateral_amount)

-- What one step does, by whether it ends the walk.
abbrev Stepped : Amount → IndexOrderUpdate → Amount → Engaging → Bool × Engaging → Type 0
Stepped tolerance u future e (false, e') =
    Fresh e'
    × (e'.collateral_amount ≡ -ℤ◌ future)
    × (e'.order_updates_drain_count ≡ e.order_updates_drain_count + 1)
Stepped tolerance u future e (true, e') =
    (e'.result ≡ none)
    × (((e'.front_order_update ≡ none)
          × (e'.order_updates_drain_count ≡ e.order_updates_drain_count + 1)
          × (future <ℤ tolerance)
          × (-ℤ◌ tolerance ≤ℤ future))
        ⊎ ((engaged : Amount) × (e'.front_order_update ≡ some (engaged_with u engaged future))
            × (e'.order_updates_drain_count ≡ e.order_updates_drain_count)))

module _ ⦃d : Decimal⦄ where
  engage_whole-Stepped :
      (tolerance : Amount) (u : IndexOrderUpdate) (future engaged : Amount) (e : Engaging)
      → Fresh e
      → ltb_ℤ future tolerance ≡ true
      → Stepped tolerance u future e (engage_whole tolerance u future engaged e)
  unfolding engage_whole
  engage_whole-Stepped tol u future engaged e fresh low =
      elim (Bool-cases (ltb_ℤ future (-ℤ◌ tol))) [
        | inl more ↦ rw (more, engage_whole) ((fresh.0, refl), refl, refl)
        | inr ended ↦
            rw (ended, engage_whole) (refl, inl (fresh.0, refl, omega int_laws, omega int_laws))
      ]

  engage_update-Stepped :
      (tolerance : Amount) (u : IndexOrderUpdate) (future : Amount) (e : Engaging)
      (r : Bool × Engaging)
      → Fresh e
      → engage_update tolerance u future e ≡ some r
      → Stepped tolerance u future e r
  unfolding engage_update
  engage_update-Stepped tol u future e r fresh h = elim (Bool-cases (ltb_ℤ future tol)) [
    | inl low ↦ elim (Option-cases (safe_add_assign u.engaged_collateral u.remaining_collateral)) [
      | inl over ↦ cc
      | inr (engaged, q) ↦
          rw (← of_some (rw (low, q, engage_update) at h))
            (engage_whole-Stepped tol u future engaged e fresh low)
    ]
    | inr high ↦ elim (Option-cases (safe_add_assign u.engaged_collateral e.collateral_amount)) [
      | inl over ↦ cc
      | inr (engaged, q) ↦
          rw (← of_some (rw (high, q, engage_update) at h)) (refl, inr (engaged, refl, refl))
    ]
  ]

  last-Walked :
      (tolerance : Amount) (u : IndexOrderUpdate) (us : List IndexOrderUpdate) (future : Amount)
      (e e' : Engaging)
      → zero_amount ≤ℤ tolerance
      → future ≡ u.remaining_collateral -ℤ e.collateral_amount
      → Stepped tolerance u future e (true, e')
      → Walked tolerance (u ∷ us) e e'
  unfolding remaining_total
  last-Walked tol u us future e e' wide minus (ended, inl (front, counted, low, high)) =
      (1, counted, rw (ended, front) (omega int_laws, omega int_laws))
  last-Walked tol u us future e e' wide minus (ended, inr (engaged, front, counted)) =
      (0, omega arith, rw (ended, front) (omega int_laws, omega int_laws))

  next-Walked :
      (tolerance : Amount) (u : IndexOrderUpdate) (us : List IndexOrderUpdate) (future : Amount)
      (e e₁ e' : Engaging)
      → future ≡ u.remaining_collateral -ℤ e.collateral_amount
      → e₁.collateral_amount ≡ -ℤ◌ future
      → e₁.order_updates_drain_count ≡ e.order_updates_drain_count + 1
      → Walked tolerance us e₁ e'
      → Walked tolerance (u ∷ us) e e'
  unfolding remaining_total
  next-Walked tol u us future e e₁ e' minus less counted (k, drained, shifted) = (
    suc k,
    omega arith,
    rw (walked-suc e'.front_order_update k u us) (
        Shifted-then tol e.collateral_amount future u.remaining_collateral (remaining_total us)
          (remaining_total (walked e'.front_order_update k us)) e'.result minus
          (rw less at shifted)),
  )

  engage_loop-Walked :
      (exact : IsExact d) (tolerance : Amount)
      → zero_amount ≤ℤ tolerance
      → (us : List IndexOrderUpdate) (e e' : Engaging) → Fresh e
      → engage_loop tolerance us e ≡ ok e'
      → Walked tolerance us e e'
  unfolding engage_loop
  engage_loop-Walked exact tol wide [] e e' fresh h =
      let same : e' ≡ e = cc in rw (same, fresh.0, fresh.1) (0, omega arith, refl)
  engage_loop-Walked exact tol wide (u ∷ us) e e' fresh h =
      elim (Option-cases (safe_sub u.remaining_collateral e.collateral_amount)) [
        | inl over ↦ cc
        | inr (future, s) ↦ elim (Option-cases (engage_update tol u future e)) [
          | inl over ↦ cc
          | inr ((false, e₁), q) ↦
              let (fresh₁, less, counted) =
                engage_update-Stepped tol u future e (false, e₁) fresh q in
              next-Walked tol u us future e e₁ e' (exact.sub_exact _ _ _ s) less counted
                (engage_loop-Walked exact tol wide us e₁ e' fresh₁ (rw (s, q, engage_loop) at h))
          | inr ((true, e₁), q) ↦
              let same : e₁ ≡ e' = cc in
              rw (← same) (
                last-Walked tol u us future e e₁ wide (exact.sub_exact _ _ _ s)
                  (engage_update-Stepped tol u future e (true, e₁) fresh q))
        ]
      ]

commit_engage-walked :
    (e : Engaging) (o : IndexOrder) (k : ℕ)
    → e.order_updates_drain_count ≡ k
    → (commit_engage e o).order_updates ≡ walked e.front_order_update k o.order_updates
unfolding commit_engage
commit_engage-walked e o k counted = go e.front_order_update
  where
    go :
        (front : Option IndexOrderUpdate)
        → (elim front as (λ _. List IndexOrderUpdate) [
          | none ↦ drop e.order_updates_drain_count o.order_updates
          | some u ↦ u ∷ drop 1 (drop e.order_updates_drain_count o.order_updates)
        ])
          ≡ walked front k o.order_updates
    go none = rw counted refl
    go (some u) = rw counted refl

abbrev pub amount_of : Option Amount → Amount
amount_of none = zero_amount
amount_of (some a) = a

-- `taken` has been moved from the order's remaining to its engaged collateral, and no update changed.
abbrev Booked : Amount → IndexOrder → Result IndexOrderError (Unit {0}) × IndexOrder → Type 0
Booked taken o (ok _, o') =
    (o'.remaining_collateral ≡ o.remaining_collateral -ℤ taken)
    × (amount_of o'.engaged_collateral ≡ amount_of o.engaged_collateral +ℤ taken)
    × (o'.engaged_side ≡ some o.side)
    × (o'.order_updates ≡ o.order_updates)
Booked taken o (err e, o') = Unit {0}

-- After `solver_engage` of `amount`, of which it returns what is left.
abbrev pub Engages :
    Amount → Amount → IndexOrder → Result IndexOrderError (Option Amount) × IndexOrder → Type 0
Engages tolerance amount o (ok left, o') =
    let taken = amount -ℤ amount_of left in
    (o'.remaining_collateral ≡ o.remaining_collateral -ℤ taken)
    × (amount_of o'.engaged_collateral ≡ amount_of o.engaged_collateral +ℤ taken)
    × (o'.engaged_side ≡ some o.side)
    × Shifted tolerance amount (remaining_total o.order_updates) (remaining_total o'.order_updates)
        left
Engages tolerance amount o (err e, o') = Unit {0}

module _ ⦃d : Decimal⦄ (exact : IsExact d) where
  safe_add_assign-exact :
      (a : Option Amount) (b c : Amount) → safe_add_assign a b ≡ some c → c ≡ amount_of a +ℤ b
  safe_add_assign-exact none b c h = let e : b ≡ c = of_some h in omega int_laws
  safe_add_assign-exact (some a) b c h = exact.add_exact a b c h

  book_engaged-Booked : (taken : Amount) (o : IndexOrder) → Booked taken o (book_engaged taken o)
  unfolding book_engaged
  book_engaged-Booked taken o = elim (Option-cases (safe_add_assign o.engaged_collateral taken)) [
    | inl over ↦ rw (over, book_engaged) tt
    | inr (engaged, add) ↦ elim (Option-cases (safe_sub o.remaining_collateral taken)) [
      | inl over ↦ rw (add, over, book_engaged) tt
      | inr (remaining, sub) ↦
          rw (add, sub, book_engaged)
            (
              exact.sub_exact _ _ _ sub,
              safe_add_assign-exact o.engaged_collateral taken engaged add,
              refl,
              refl,
            )
    ]
  ]

  book_matched-Booked :
      (amount : Amount) (left : Option Amount) (o : IndexOrder)
      → Booked (amount -ℤ amount_of left) o (book_matched amount left o)
  unfolding book_matched
  book_matched-Booked amount none o =
      let same : amount -ℤ zero_amount ≡ amount = omega int_laws in
      rw same (book_engaged-Booked amount o)
  book_matched-Booked amount (some left) o = elim (Option-cases (safe_sub amount left)) [
    | inl over ↦ rw (over, book_matched) tt
    | inr (taken, q) ↦
        let same : amount -ℤ left ≡ taken = sym (exact.sub_exact _ _ _ q) in
        rw (q, book_matched, same) (book_engaged-Booked taken o)
  ]

  -- With exact arithmetic and a tolerance that is not negative, when `solver_engage` succeeds: the
  -- order's remaining collateral falls, and its engaged collateral rises, by exactly the amount
  -- less what is returned as left; and the updates have given that much, exactly if something is
  -- left and up to the tolerance if nothing is.
  pub solver_engage-Engages :
      (amount tolerance : Amount) (o : IndexOrder)
      → zero_amount ≤ℤ tolerance
      → Engages tolerance amount o (solver_engage amount tolerance o)
  unfolding solver_engage match_engage commit_engage
  solver_engage-Engages amount tol o wide =
      go (engage_loop tol o.order_updates (engaging_of amount)) refl
    where
      finish :
          (left : Option Amount) (o₁ : IndexOrder)
          (r : Result IndexOrderError (Unit {0}) × IndexOrder)
          → (o₁.remaining_collateral ≡ o.remaining_collateral)
            × (o₁.engaged_collateral ≡ o.engaged_collateral)
            × (o₁.side ≡ o.side)
          → Shifted tol amount
              (remaining_total o.order_updates)
              (remaining_total o₁.order_updates)
              left
          → Booked (amount -ℤ amount_of left) o₁ r
          → Engages tol amount o
              (elim r.0 as (λ _. Result IndexOrderError (Option Amount) × IndexOrder) [
                | ok _ ↦ (ok left, r.1)
                | err e ↦ (err e, r.1)
              ])
      finish left o₁ (err e, o') same s b = tt
      finish left o₁ (ok _, o') (same_rem, same_eng, same_side) s (rem, eng, side, ups) =
          (rw same_rem at rem, rw same_eng at eng, rw same_side at side, rw ups s)

      go :
          (r : Result IndexOrderError Engaging)
          → engage_loop tol o.order_updates (engaging_of amount) ≡ r
          → Engages tol amount o (
              ((λ p. (elim r as (λ _. Result IndexOrderError (Option Amount) × IndexOrder) [
                | err e ↦ (err e, p)
                | ok e ↦ (ok e.result, commit_engage e p)
              ]))
                  >>= λ left. book_matched amount left >> pure left)
                o)
      go (err e) q = tt
      go (ok e) q =
          let (k, counted, s) =
            engage_loop-Walked exact tol wide o.order_updates (engaging_of amount) e (refl, refl)
              q in
          finish e.result (commit_engage e o) (book_matched amount e.result (commit_engage e o))
            (refl, refl, refl) (rw (commit_engage-walked e o k (omega arith)) s)
            (book_matched-Booked amount e.result (commit_engage e o))
