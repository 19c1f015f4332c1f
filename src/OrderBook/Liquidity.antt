-- ===== src/OrderBook/Liquidity.antt =====
-- libs/symm-core/src/market_data/order_book/order_book.rs: `get_liquidity`, which walks the levels
-- from the best one and stops at the first that is past the bound, against the sum over all levels.
use mathlib.Core.Path.{subst}
use index_maker.Prelude.{
  if◌then◌else◌, Bool-cases, Option-cases, ◌≡◌, refl, sym, ◌∙◌, ◌⊎◌, inl, inr, true, none, some, [],
  ◌∷◌, ◌++◌, arith, All, All-map, reverse, Pairwise, Pairwise-reverse, Result, ok, err,
}
use index_maker.Prelude.Int.{ℤ, pos, ◌+ℤ◌, ◌-ℤ◌, parts_of_eq, int_laws, -ℤ◌}
use index_maker.Decimal.{Amount, zero_amount, Decimal, IsExact, safe_add}
use index_maker.Bits.{Side, buy, sell}
use index_maker.OrderBook.{
  PricePointBookEntry, Levels, IsOrdered, PricePointEntries, BookError, math_overflow, walk, past,
  is_finished, bound_of, try_new, sum_until, get_liquidity,
}

-- The worst price that counts.
abbrev pub edge : Side → Amount → Amount → Amount
edge buy tolerance price = price -ℤ tolerance
edge sell tolerance price = price +ℤ tolerance

-- The sum of the quantities of the levels that are not past a bound.
abbrev pub quantity_within : Side → Amount → Levels → ℤ
quantity_within side bound [] = pos 0
quantity_within side bound (e ∷ l) =
    (if past side bound e.price then pos 0 else e.quantity) +ℤ quantity_within side bound l

-- The levels that are not past a bound.
abbrev pub levels_within : Side → Amount → Levels → Levels
levels_within side bound [] = []
levels_within side bound (e ∷ l) =
    if past side bound e.price then levels_within side bound l else e ∷ levels_within side bound l

-- The decimals refuse the bound around a price.
abbrev pub Unbounded : Decimal → Side → Amount → Amount → Type 0
Unbounded d buy tolerance price = d.checked_sub price tolerance ≡ none
Unbounded d sell tolerance price = d.checked_add price tolerance ≡ none

-- The decimals refuse to add some level's quantity to the sum of those before it, which starts with a
-- first amount.
abbrev pub Refuses : Decimal → Amount → Levels → Type 0
Refuses d sum [] = ⊥
Refuses d sum (e ∷ l) = (d.checked_add sum e.quantity ≡ none) ⊎ Refuses d (sum +ℤ e.quantity) l

-- The exact answer, if the overflow does not occur, and an error if it does.
abbrev pub Answers : {A : Type 0} → A → Type 0 → Result BookError A → Type 0
Answers expected Overflow (ok answer) = (answer ≡ expected) × ¬ Overflow
Answers expected Overflow (err e) = (e ≡ math_overflow) × Overflow

-- Once a level is past the bound, so are the levels that the walk visits later.
abbrev Later : Side → Amount → PricePointBookEntry → PricePointBookEntry → Type 0
Later side bound x y = past side bound x.price ≡ true → past side bound y.price ≡ true

module _ (side : Side) (bound : Amount) where
  quantity_within-append :
      (xs ys : Levels)
      → quantity_within side bound (xs ++ ys)
        ≡ quantity_within side bound xs +ℤ quantity_within side bound ys
  quantity_within-append [] ys = omega int_laws
  quantity_within-append (e ∷ xs) ys = omega (int_laws, quantity_within-append xs ys)

  quantity_within-reverse :
      (l : Levels) → quantity_within side bound (reverse l) ≡ quantity_within side bound l
  quantity_within-reverse [] = refl
  quantity_within-reverse (e ∷ l) =
      omega (int_laws, quantity_within-append (reverse l) (e ∷ []), quantity_within-reverse l)

  quantity_within-zero :
      (l : Levels)
      → All (λ e. past side bound e.price ≡ true) l
      → quantity_within side bound l ≡ pos 0
  quantity_within-zero [] h = refl
  quantity_within-zero (e ∷ l) h = rw h.0 (omega (int_laws, quantity_within-zero l h.1))

quantity_within-walk :
    (side : Side) (bound : Amount) (l : Levels)
    → quantity_within side bound (walk side l) ≡ quantity_within side bound l
unfolding walk
quantity_within-walk buy bound l = quantity_within-reverse buy bound l
quantity_within-walk sell bound l = refl

walk-Later :
    (side : Side) (bound : Amount) (l : Levels)
    → IsOrdered l
    → Pairwise (Later side bound) (walk side l)
unfolding walk
walk-Later buy bound l o = Pairwise-reverse (λ x y. Later buy bound y x) l (go l o)
  where
    go : (l : Levels) → IsOrdered l → Pairwise (λ x y. Later buy bound y x) l
    go [] o = tt
    go (x ∷ l) o = (All-map _ _ (λ y le h. ground arith) l o.0, go l o.1)
walk-Later sell bound [] o = tt
walk-Later sell bound (x ∷ l) o =
    (All-map _ _ (λ y le h. ground arith) l o.0, walk-Later sell bound l o.1)

levels_within-nil :
    (side : Side) (bound : Amount) (l : Levels)
    → All (λ e. past side bound e.price ≡ true) l
    → levels_within side bound l ≡ []
levels_within-nil side bound [] h = refl
levels_within-nil side bound (e ∷ l) h = rw h.0 (levels_within-nil side bound l h.1)

pub Answers-map :
    {A : Type 0} {x y : A} {P Q : Type 0} (r : Result BookError A)
    → x ≡ y
    → (P → Q)
    → (Q → P)
    → Answers x P r
    → Answers y Q r
Answers-map (ok answer) e f g h = (h.0 ∙ e, λ q. h.1 (g q))
Answers-map (err x) e f g h = (h.0, f h.1)

pub bound_of-Unbounded :
    ⦃d : Decimal⦄ (side : Side) (tolerance price : Amount)
    → bound_of side tolerance price ≡ none
    → Unbounded d side tolerance price
bound_of-Unbounded buy tolerance price h = h
bound_of-Unbounded sell tolerance price h = h

pub bound_of-bounded :
    ⦃d : Decimal⦄ (side : Side) (tolerance price bound : Amount)
    → bound_of side tolerance price ≡ some bound
    → ¬ Unbounded d side tolerance price
bound_of-bounded buy tolerance price bound h = λ none_left. cc
bound_of-bounded sell tolerance price bound h = λ none_left. cc

-- Where the bound is there, an overflow is one of the sums.
pub Answers-bounded :
    {A : Type 0} {x y : A} (P Q : Type 0) (r : Result BookError A)
    → x ≡ y
    → ¬ Q
    → Answers x P r
    → Answers y (Q ⊎ P) r
Answers-bounded P Q r e there h =
    Answers-map r e inr (λ o. elim o [ inl q ↦ absurd (there q) | inr p ↦ p ]) h

-- A sum that was not refused goes on.
pub Answers-added :
    {A : Type 0} {x y : A} (d : Decimal) (sum more : Amount) (e : PricePointBookEntry) (l : Levels)
    (r : Result BookError A)
    → d.checked_add sum e.quantity ≡ some more
    → more ≡ sum +ℤ e.quantity
    → x ≡ y
    → Answers x (Refuses d more l) r
    → Answers y (Refuses d sum (e ∷ l)) r
Answers-added d sum more e l r h same xy a =
    Answers-map r xy (λ p. inr (subst (λ m. Refuses d m l) same p))
      (λ o. elim o [ inl none_left ↦ cc | inr p ↦ subst (λ m. Refuses d m l) (sym same) p ]) a

module _ ⦃d : Decimal⦄ (exact : IsExact d) where
  bound_exact :
      (side : Side) (tolerance price bound : Amount)
      → bound_of side tolerance price ≡ some bound
      → bound ≡ edge side tolerance price
  bound_exact buy tolerance price bound h = exact.sub_exact price tolerance bound h
  bound_exact sell tolerance price bound h = exact.add_exact price tolerance bound h

  sum_until-Answers :
      (side : Side) (bound liquidity : Amount) (l : Levels)
      → Pairwise (Later side bound) l
      → Answers
          (liquidity +ℤ quantity_within side bound l)
          (Refuses d liquidity (levels_within side bound l))
          (sum_until (record { side = side; bound = bound }) liquidity l)
  unfolding sum_until is_finished
  sum_until-Answers side bound liquidity [] later = (omega int_laws, λ o. o)
  sum_until-Answers side bound liquidity (e ∷ l) later =
      elim (Bool-cases (past side bound e.price)) [
        | inl over ↦
            let behind = All-map _ _ (λ f h. h over) l later.0 in
            rw (over, levels_within-nil side bound l behind)
              (omega (int_laws, quantity_within-zero side bound l behind), λ o. o)
        | inr counts ↦ elim (Option-cases (safe_add liquidity e.quantity)) [
          | inl none_left ↦ rw (counts, none_left) (refl, inl refl)
          | inr (more, h) ↦
              let added = exact.add_exact liquidity e.quantity more h in
              let rest =
                Answers-added {y = liquidity +ℤ (e.quantity +ℤ quantity_within side bound l)} d
                  liquidity more e (levels_within side bound l)
                  (sum_until (record { side = side; bound = bound }) more l) h added
                  (omega (int_laws, parts_of_eq _ _ added))
                  (sum_until-Answers side bound more l later.1) in
              rw (counts, h) (rw h at rest)
        ]
      ]

  -- With exact arithmetic, of an ordered side: `get_liquidity` answers the summed quantity of the
  -- levels that are not past the bound around the price, unless the decimals refuse the bound or, in
  -- the order of the walk, the sum of the first of these levels and the next; exactly then it reports
  -- an overflow.
  pub get_liquidity-Answers :
      (s : PricePointEntries) (price : Amount)
      → IsOrdered s.entries
      → let bound = edge s.side s.tolerance price in
        Answers
          (quantity_within s.side bound s.entries)
          (Unbounded d s.side s.tolerance price
            ⊎ Refuses d zero_amount (levels_within s.side bound (walk s.side s.entries)))
          (get_liquidity s price)
  unfolding get_liquidity try_new
  get_liquidity-Answers s price ordered = elim (Option-cases (bound_of s.side s.tolerance price)) [
    | inl none_left ↦
        rw none_left (refl, inl (bound_of-Unbounded s.side s.tolerance price none_left))
    | inr (bound, h) ↦
        let same = bound_exact s.side s.tolerance price bound h in
        rw (h, ← same)
          (Answers-bounded _ _ (sum_until _ zero_amount (walk s.side s.entries))
            (omega (int_laws, quantity_within-walk s.side bound s.entries))
            (bound_of-bounded s.side s.tolerance price bound h)
            (sum_until-Answers s.side bound zero_amount (walk s.side s.entries)
              (walk-Later s.side bound s.entries ordered)))
  ]
