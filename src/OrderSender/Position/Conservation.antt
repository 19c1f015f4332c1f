-- ===== src/OrderSender/Position/Conservation.antt =====
-- position.rs, `match_lots`: how much of a fill is matched.
use index_maker.Prelude.{
  if◌then◌else◌, Bool-cases, Option-cases, ◌≡◌, refl, ◌⊎◌, inl, inr, Bool, true, false, Option,
  none, some, List, [], ◌∷◌, arith, Result, ok, err,
}
use index_maker.Prelude.Int.{◌+ℤ◌, ◌-ℤ◌, ◌≤ℤ◌, ◌<ℤ◌, ltb_ℤ, int_laws, -ℤ◌}
use index_maker.Decimal.{Amount, zero_amount, Decimal, IsExact, safe_sub}
use index_maker.Bits.{side_eq}
use index_maker.OrderSender.Position.{
  Lot, Position, PositionError, Fill, Matching, Taken, take_lot, book_taken, match_lot, match_loop,
  matching_of, commit, match_lots,
}

-- What a fill takes of a lot: short of the end exactly the difference, at the end the fill up to
-- the tolerance.
abbrev FitsBy : Bool → Amount → Amount → Amount → Amount → Type 0
FitsBy false q tolerance matched left = (q ≡ matched +ℤ left) × (zero_amount ≤ℤ left)
FitsBy true q tolerance matched left =
    (left ≡ zero_amount) × (q ≤ℤ matched +ℤ tolerance) × (matched ≤ℤ q +ℤ tolerance)

abbrev Fits : Amount → Amount → Taken → Type 0
Fits q tolerance t = FitsBy t.finished q tolerance t.matched t.fill_remaining

take_lot-Fits :
    (lot_quantity q remaining tolerance : Amount)
    → remaining ≡ lot_quantity -ℤ q
    → zero_amount ≤ℤ tolerance
    → Fits q tolerance (take_lot lot_quantity q remaining tolerance)
unfolding take_lot
take_lot-Fits l q remaining tolerance e wide = elim (Bool-cases (ltb_ℤ remaining tolerance)) [
  | inl closed ↦ rw closed (elim (Bool-cases (ltb_ℤ remaining (-ℤ◌ tolerance))) [
    | inl more ↦ rw more (omega int_laws, omega int_laws)
    | inr last_one ↦ rw last_one (refl, omega int_laws, omega int_laws)
  ])
  | inr open_still ↦ rw open_still (refl, omega int_laws, omega int_laws)
]

-- From `m` to `m'` the fill and the balance fell together: exactly while the walk goes on, up to
-- the tolerance when it has ended.
abbrev Running : Matching → Matching → Type 0
Running m m' =
    (m.quantity_filled +ℤ m'.balance ≡ m.balance +ℤ m'.quantity_filled)
    × (zero_amount ≤ℤ m'.quantity_filled)

abbrev Ended : Amount → Matching → Matching → Type 0
Ended tolerance m m' =
    (m'.quantity_filled ≡ zero_amount)
    × (m.quantity_filled +ℤ m'.balance ≤ℤ m.balance +ℤ tolerance)
    × (m.balance ≤ℤ m.quantity_filled +ℤ m'.balance +ℤ tolerance)

-- By whether the walk is finished.
abbrev Booked : Amount → Matching → Bool × Matching → Type 0
Booked tolerance m (false, m') = Running m m'
Booked tolerance m (true, m') = Ended tolerance m m'

Booked-of_Fits :
    (finished : Bool) (tolerance matched : Amount) (m m' : Matching)
    → m'.balance ≡ m.balance -ℤ matched
    → FitsBy finished m.quantity_filled tolerance matched m'.quantity_filled
    → Booked tolerance m (finished, m')
Booked-of_Fits true tolerance matched m m' lower fits = (fits.0, omega int_laws, omega int_laws)
Booked-of_Fits false tolerance matched m m' lower fits = (omega int_laws, fits.1)

module _ ⦃d : Decimal⦄ (exact : IsExact d) (f : Fill) (tolerance : Amount) where
  book_taken_ok :
      (lot : Lot) (t : Taken) (m m' : Matching) (finished : Bool)
      → book_taken f lot t m ≡ ok (finished, m')
      → (finished ≡ t.finished)
        × (m'.quantity_filled ≡ t.fill_remaining)
        × (safe_sub m.balance t.matched ≡ some m'.balance)
  unfolding book_taken
  book_taken_ok lot t m m' finished b = ground arith

  book_taken-Booked :
      (lot : Lot) (t : Taken) (m m' : Matching) (finished : Bool)
      → Fits m.quantity_filled tolerance t
      → book_taken f lot t m ≡ ok (finished, m')
      → Booked tolerance m (finished, m')
  book_taken-Booked lot t m m' finished fits b =
      let (end, left, lower) = book_taken_ok lot t m m' finished b in
      Booked-of_Fits finished tolerance t.matched m m' (exact.sub_exact _ _ _ lower)
        (rw (end, left) fits)

  match_lot-Booked :
      (lot : Lot) (m m' : Matching) (finished : Bool)
      → zero_amount ≤ℤ tolerance
      → match_lot f tolerance lot m ≡ ok (finished, m')
      → Booked tolerance m (finished, m')
  unfolding match_lot
  match_lot-Booked lot m m' finished wide b =
      elim (Option-cases (safe_sub lot.remaining_quantity m.quantity_filled)) [
        | inl overflow ↦ cc
        | inr (remaining, s) ↦
            book_taken-Booked lot
              (take_lot lot.remaining_quantity m.quantity_filled remaining tolerance) m m' finished
              (take_lot-Fits lot.remaining_quantity m.quantity_filled remaining tolerance
                (exact.sub_exact _ _ _ s) wide)
              (rw (s, match_lot) at b)
      ]

  Running-then :
      (m m₁ m' : Matching)
      → Running m m₁
      → Running m₁ m' ⊎ Ended tolerance m₁ m'
      → Running m m' ⊎ Ended tolerance m m'
  Running-then m m₁ m' a (inl b) = inl (omega int_laws, b.1)
  Running-then m m₁ m' a (inr b) = inr (b.0, omega int_laws, omega int_laws)

  -- Over the whole walk.
  match_loop-Conserves :
      (lots : List Lot) (m m' : Matching)
      → zero_amount ≤ℤ tolerance
      → zero_amount ≤ℤ m.quantity_filled
      → match_loop f tolerance lots m ≡ ok m'
      → Running m m' ⊎ Ended tolerance m m'
  unfolding match_loop
  match_loop-Conserves [] m m' wide h e =
      let same : m' ≡ m = cc in rw same (inl (omega int_laws, h))
  match_loop-Conserves (lot ∷ lots) m m' wide h e =
      go (match_lot f tolerance lot m) refl e
        (λ m₁ h₁ e₁. match_loop-Conserves lots m₁ m' wide h₁ e₁)
    where
      go :
          (r : Result PositionError (Bool × Matching))
          → match_lot f tolerance lot m ≡ r
          → (elim r [
            | err e ↦ err e
            | ok (true, m₁) ↦ ok m₁
            | ok (false, m₁) ↦ match_loop f tolerance lots m₁
          ])
            ≡ ok m'
          → ((m₁ : Matching)
              → zero_amount ≤ℤ m₁.quantity_filled
              → match_loop f tolerance lots m₁ ≡ ok m'
              → Running m₁ m' ⊎ Ended tolerance m₁ m')
          → Running m m' ⊎ Ended tolerance m m'
      go (err x) q e₁ rec = cc
      go (ok (true, m₁)) q e₁ rec =
          let same : m₁ ≡ m' = cc in inr (rw same at (match_lot-Booked lot m m₁ true wide q))
      go (ok (false, m₁)) q e₁ rec =
          let a = match_lot-Booked lot m m₁ false wide q in Running-then m m₁ m' a (rec m₁ a.1 e₁)

-- A fill of the opposite side against a position: what it left is what the result says, and
-- what left the balance is the rest of the fill, exactly if something is left and up to the
-- tolerance if nothing is.
abbrev pub Matched :
    Fill → Amount → Position → Result PositionError (Option Amount) × Position → Type 0
Matched f tolerance p (ok (some left), p') =
    (p.balance +ℤ left ≡ p'.balance +ℤ f.quantity_filled) × (tolerance <ℤ left)
Matched f tolerance p (ok none, p') =
    (f.quantity_filled +ℤ p'.balance ≤ℤ p.balance +ℤ tolerance)
    × (p.balance ≤ℤ f.quantity_filled +ℤ p'.balance +ℤ tolerance)
Matched f tolerance p (err _, p') =
    (p'.balance ≡ p.balance) × (p'.open_lots ≡ p.open_lots) × (p'.closed_lots ≡ p.closed_lots)

module _ ⦃d : Decimal⦄ (exact : IsExact d) (f : Fill) (tolerance : Amount) (p : Position)
    (opposite : side_eq p.side f.side ≡ false) (wide : zero_amount ≤ℤ tolerance)
    (filled : zero_amount ≤ℤ f.quantity_filled) where
  commit-Matched :
      (m : Matching) (p' : Position)
      → p'.balance ≡ m.balance
      → Running (matching_of f p) m ⊎ Ended tolerance (matching_of f p) m
      → Matched f tolerance p
          (ok (if ltb_ℤ tolerance m.quantity_filled then some m.quantity_filled else none), p')
  commit-Matched m p' e c = elim (Bool-cases (ltb_ℤ tolerance m.quantity_filled)) [
    | inl some_left ↦ rw some_left (left some_left c)
    | inr ended_here ↦ rw ended_here (ended ended_here c)
  ]
    where
      left :
          ltb_ℤ tolerance m.quantity_filled ≡ true
          → Running (matching_of f p) m ⊎ Ended tolerance (matching_of f p) m
          → Matched f tolerance p (ok (some m.quantity_filled), p')
      left h (inl a) = (omega int_laws, omega int_laws)
      left h (inr b) = absurd (omega int_laws)

      ended :
          ltb_ℤ tolerance m.quantity_filled ≡ false
          → Running (matching_of f p) m ⊎ Ended tolerance (matching_of f p) m
          → Matched f tolerance p (ok none, p')
      ended h (inl a) = (omega int_laws, omega int_laws)
      ended h (inr b) = (rw e b.1, rw e b.2)

  -- With exact arithmetic, a tolerance and a fill that are not negative, and a fill of the
  -- opposite side: what a match takes off the balance and what it reports as left make up the
  -- fill, exactly if something is left and up to the tolerance if nothing is; a match that fails
  -- changes no lot and no balance.
  pub match_lots-Matched : Matched f tolerance p (match_lots f tolerance p)
  unfolding match_lots commit
  match_lots-Matched =
      rw (opposite, match_lots) (go (match_loop f tolerance p.open_lots (matching_of f p)) refl)
    where
      p₁ : Position
      p₁ = record p { last_update_timestamp = some f.fill_timestamp }

      go :
          (r : Result PositionError Matching)
          → match_loop f tolerance p.open_lots (matching_of f p) ≡ r
          → Matched f tolerance p (elim r [
            | err e ↦ (err e, p₁)
            | ok m ↦ (
              ok (if ltb_ℤ tolerance m.quantity_filled then some m.quantity_filled else none),
              commit m p₁,
            )
          ])
      go (err e) q = (refl, refl, refl)
      go (ok m) q =
          commit-Matched m (commit m p₁) refl
            (match_loop-Conserves exact f tolerance p.open_lots (matching_of f p) m wide filled q)
