-- ===== src/OrderBook/Depth.antt =====
-- libs/symm-core/src/market_data/order_book/order_book.rs: `get_liquidity_levels` and
-- `get_top_level`, against the levels in the order in which the side is walked.
use mathlib.Core.List.{Memᴰ}
use index_maker.Prelude.{
  ◌==◌, Option-cases, ℕ, zero, suc, ◌+◌, ◌≡◌, refl, ap, ◌∙◌, ◌⊎◌, inl, inr, true, false, Option,
  none, some, [], ◌∷◌, arith, length, take, All, length-append, reverse, Pairwise-reverse,
  All-of_reverse, Memᴰ-of_reverse, Result, ok, err, and_then,
}
use index_maker.Prelude.Int.{ℤ, pos, ◌+ℤ◌, ◌≤ℤ◌, parts_of_eq, int_laws}
use index_maker.Decimal.{Amount, zero_amount, Decimal, IsExact, safe_add}
use index_maker.Bits.{Side, buy, sell, PricePointEntry}
use index_maker.OrderBook.{
  PricePointBookEntry, Levels, IsOrdered, PricePointEntries, BookError, math_overflow, walk,
  level_of, first_level, bound_of, try_new, sum_levels, get_liquidity_levels, get_top_level,
}
use index_maker.OrderBook.Liquidity.{
  Unbounded, Refuses, Answers, bound_of-Unbounded, bound_of-bounded, Answers-bounded, Answers-added,
}

abbrev pub total_quantity : Levels → ℤ
total_quantity [] = pos 0
total_quantity (e ∷ l) = e.quantity +ℤ total_quantity l

-- The price of the last of some levels.
abbrev pub worst_price : Option Amount → Levels → Option Amount
worst_price limit [] = limit
worst_price limit (e ∷ l) = worst_price (some e.price) l

-- The levels together: their quantity, at the price of the last.
abbrev pub together : Levels → Option PricePointEntry
together l = level_of (worst_price none l, total_quantity l)

zero-add_ℤ : (a : ℤ) → pos 0 +ℤ a ≡ a
zero-add_ℤ a = omega int_laws

module _ ⦃d : Decimal⦄ (exact : IsExact d) where
  sum_levels-Answers :
      (k max_levels num_levels : ℕ) (liquidity : Amount) (limit : Option Amount) (l : Levels)
      → num_levels + k ≡ max_levels
      → Answers
          (worst_price limit (take k l), liquidity +ℤ total_quantity (take k l))
          (Refuses d liquidity (take k l))
          (sum_levels max_levels num_levels liquidity limit l)
  unfolding sum_levels
  sum_levels-Answers zero max_levels num_levels liquidity limit [] h =
      (ap (λ q. (limit, q)) (omega int_laws), λ o. o)
  sum_levels-Answers (suc k) max_levels num_levels liquidity limit [] h =
      (ap (λ q. (limit, q)) (omega int_laws), λ o. o)
  sum_levels-Answers zero max_levels num_levels liquidity limit (e ∷ l) h =
      let stops : (max_levels == num_levels) ≡ true = ground arith in
      rw stops (ap (λ q. (limit, q)) (omega int_laws), λ o. o)
  sum_levels-Answers (suc k) max_levels num_levels liquidity limit (e ∷ l) h =
      let goes : (max_levels == num_levels) ≡ false = ground arith in
      elim (Option-cases (safe_add liquidity e.quantity)) [
        | inl none_left ↦ rw (goes, none_left) (refl, inl refl)
        | inr (more, sum) ↦
            let added = exact.add_exact liquidity e.quantity more sum in
            let rest =
              Answers-added
                {y = (
                  worst_price (some e.price) (take k l),
                  liquidity +ℤ (e.quantity +ℤ total_quantity (take k l)),
                )}
                d liquidity more e (take k l)
                (sum_levels max_levels (num_levels + 1) more (some e.price) l) sum added
                (ap (λ q. (worst_price (some e.price) (take k l), q))
                  (omega (int_laws, parts_of_eq _ _ added)))
                (sum_levels-Answers k max_levels (num_levels + 1) more (some e.price) l
                  (omega arith)) in
            rw (goes, sum) (rw sum at rest)
      ]

  -- With exact arithmetic: `get_liquidity_levels` answers the best `max_levels` levels together, their
  -- summed quantity at the price of the last, and nothing for no level, unless the decimals refuse the
  -- bound around zero that it makes first or, in the order of the walk, the sum of the first of these
  -- levels and the next; exactly then it reports an overflow.
  pub get_liquidity_levels-Answers :
      (s : PricePointEntries) (max_levels : ℕ)
      → let best = take max_levels (walk s.side s.entries) in
        Answers
          (together best)
          (Unbounded d s.side s.tolerance zero_amount ⊎ Refuses d zero_amount best)
          (get_liquidity_levels s max_levels)
  unfolding get_liquidity_levels try_new
  get_liquidity_levels-Answers s max_levels =
      elim (Option-cases (bound_of s.side s.tolerance zero_amount)) [
        | inl none_left ↦
            rw none_left (refl, inl (bound_of-Unbounded s.side s.tolerance zero_amount none_left))
        | inr (bound, h) ↦ rw h (
            Answers-bounded _ _ _ refl (bound_of-bounded s.side s.tolerance zero_amount bound h) (
              go _ (
                sum_levels-Answers max_levels max_levels 0 zero_amount none (walk s.side s.entries)
                  (omega arith))))
      ]
    where
      go :
          (r : Result BookError (Option Amount × Amount))
          → let l = take max_levels (walk s.side s.entries) in
            Answers (worst_price none l, pos 0 +ℤ total_quantity l) (Refuses d zero_amount l) r
            → Answers (together l) (Refuses d zero_amount l) (and_then r (λ x. ok (level_of x)))
      go (ok answer) h =
          let l = take max_levels (walk s.side s.entries) in
          (
            ap level_of (h.0 ∙ ap (λ q. (worst_price none l, q)) (zero-add_ℤ (total_quantity l))),
            h.1,
          )
      go (err e) h = h

-- No level of the side has a better price.
abbrev pub NoBetter : Side → Amount → PricePointBookEntry → Type 0
NoBetter buy price f = f.price ≤ℤ price
NoBetter sell price f = price ≤ℤ f.price

-- The answer is a level of the side, and none is better; there is none only of an empty side.
abbrev pub IsTop : Side → Levels → Option PricePointEntry → Type 0
IsTop side l none = l ≡ []
IsTop side l (some e) =
    Memᴰ (record { price = e.price; quantity = e.quantity }) l × All (NoBetter side e.price) l

nil_of_reverse : (l : Levels) → ◌≡◌ {A = Levels} [] (reverse l) → l ≡ []
nil_of_reverse [] h = refl
nil_of_reverse (e ∷ l) h =
    absurd (omega (arith, ap length h, length-append {0} (reverse l) (e ∷ [])))

first_level-IsTop :
    (side : Side) (l : Levels) → IsOrdered l → IsTop side l (first_level (walk side l))
unfolding walk
first_level-IsTop sell [] o = refl
first_level-IsTop sell (e ∷ l) o = (Memᴰ.head refl, (omega arith, o.0))
first_level-IsTop buy l o = go (reverse l) refl
  where
    go : (r : Levels) → r ≡ reverse l → IsTop buy l (first_level r)
    go [] h = nil_of_reverse l h
    go (e ∷ r) h = (
      Memᴰ-of_reverse _ l (rw (← h) (Memᴰ.head refl)),
      All-of_reverse _ l (
          rw (← h)
            (omega arith, (rw (← h) at (Pairwise-reverse (λ x y. x.price ≤ℤ y.price) l o)).0)),
    )

-- A best level, or an error where the bound around zero overflows.
abbrev pub Tops : Decimal → PricePointEntries → Result BookError (Option PricePointEntry) → Type 0
Tops d s (ok answer) = IsTop s.side s.entries answer
Tops d s (err e) = (e ≡ math_overflow) × Unbounded d s.side s.tolerance zero_amount

-- Of an ordered side, a level than which none is better, or an overflow.
pub get_top_level-Tops :
    ⦃d : Decimal⦄ (s : PricePointEntries) → IsOrdered s.entries → Tops d s (get_top_level s)
unfolding get_top_level try_new
get_top_level-Tops s ordered = elim (Option-cases (bound_of s.side s.tolerance zero_amount)) [
  | inl none_left ↦ rw none_left (refl, bound_of-Unbounded s.side s.tolerance zero_amount none_left)
  | inr (bound, h) ↦ rw h (first_level-IsTop s.side s.entries ordered)
]
