-- ===== src/Limit/Waiting.antt =====
-- limit.rs, `LimitWeights::waiting_period`: the wait is the shortest that releases the weight.
use mathlib.Core.List.{reverse}
use index_maker.Prelude.{
  ltb, if◌then◌else◌, ℕ, ◌+◌, ◌≤◌, ◌<◌, ◌≡◌, ◌⊎◌, List, [], ◌∷◌, arith, take_while, FoldWhile,
  continue, done,
}
use index_maker.Prelude.Int.{ℤ, pos, ◌-ℤ◌, -ℤ◌, ◌≤ℤ◌, ◌<ℤ◌, ltb_ℤ}
use index_maker.Limit.Weights.{usize_mod, add_usize, LimitWeight, LimitWeights, release_fold}
use index_maker.Limit.Window.{recent, Descending}

-- The true weight of the entries made after `t`.
unfoldable pub younger : ℤ → List LimitWeight → ℕ
younger t [] = 0
younger t (x ∷ xs) = (if ltb_ℤ t x.timestamp then x.weight else 0) + younger t xs

total : List LimitWeight → ℕ
total [] = 0
total (x ∷ xs) = x.weight + total xs

newest : ℤ → List LimitWeight → ℤ
newest now [] = now
newest now (x ∷ xs) = x.timestamp

younger-le-total : (t : ℤ) (ws : List LimitWeight) → younger t ws ≤ total ws
unfolding younger total
younger-le-total t [] = omega arith
younger-le-total t (x ∷ ws) = ground (arith, younger-le-total t ws)

-- What the walk from the oldest entry has found when it has seen all of `ws`, newest first.
abbrev Releases : ℤ → ℕ → List LimitWeight → FoldWhile (ℤ × ℕ) → Type 0
Releases now r ws (continue (t, s)) =
    (t ≡ newest now ws) × (s ≡ total ws) × ((u : ℤ) → u <ℤ t → total ws < younger u ws + r)
Releases now r ws (done (t, s)) =
    (r ≤ s)
    × (younger t ws + s ≤ total ws)
    × ((b : ℤ) → Descending b ws → t ≤ℤ b)
    × ((u : ℤ) → u <ℤ t → total ws < younger u ws + r)

abbrev release_step : ℕ → LimitWeight → FoldWhile (ℤ × ℕ) → FoldWhile (ℤ × ℕ)
release_step r x (done a) = done a
release_step r x (continue (t, s)) =
    if ltb s r then continue (x.timestamp, add_usize s x.weight) else done (t, s)

abbrev window : ℤ → List LimitWeight → List LimitWeight
window boundary ws = take_while (λ x. ltb_ℤ boundary x.timestamp) ws

-- The instant up to which the walk wants the entries gone.
release_instant : FoldWhile (ℤ × ℕ) → ℤ
release_instant (done (t, s)) = t
release_instant (continue (t, s)) = t

module _ (w : LimitWeights) (r : ℕ) (period now : ℤ) (order : Descending now w.weights)
    (fits : recent period now w.weights < usize_mod) (span : pos 0 ≤ℤ period)
    (positive : 0 < r) where
  boundary : ℤ
  boundary = now -ℤ period

  outcome : FoldWhile (ℤ × ℕ)
  outcome = release_fold r (reverse (window boundary w.weights)) (now, 0)

  -- The claim about an outcome of the walk.
  Exact : FoldWhile (ℤ × ℕ) → Type 0
  Exact o =
      (boundary ≤ℤ release_instant o)
      × ((younger (release_instant o) (window boundary w.weights) + r
            ≤ total (window boundary w.weights))
          ⊎ (younger (release_instant o) (window boundary w.weights) ≡ 0))
      × ((u : ℤ)
          → u <ℤ release_instant o
          → total (window boundary w.weights) < younger u (window boundary w.weights) + r)
