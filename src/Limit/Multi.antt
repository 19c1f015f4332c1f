-- ===== src/Limit/Multi.antt =====
-- libs/symm-core/src/core/limit.rs, `MultiLimiter`: several limits over one log of weights.
use index_maker.Prelude.{
  ltb, leb, if◌then◌else◌, ℕ, ◌-◌, ◌/◌, min, max, Bool, true, false, Option, none, some, List, [],
  ◌∷◌, ◌++◌, map, all,
}
use index_maker.Prelude.Int.{ℤ, pos, max_ℤ}
use index_maker.Limit.Weights.{
  add_usize, LimitWeights, LimiterConfig, no_weights, current_weight, waiting_period, put_weight,
  purge,
}

pub record MultiLimiter : Type 0 where
  pub weights : LimitWeights
  pub configs : List LimiterConfig

-- `MultiLimiter::new`
unfoldable pub new_multi : List LimiterConfig → MultiLimiter
unfolding no_weights
new_multi configs = record { weights = no_weights; configs = configs }

-- The loop of `MultiLimiter::refit`, which pushes each configuration as it goes.
pub refit_each : List (LimiterConfig × ℕ) → ℤ → MultiLimiter → MultiLimiter
refit_each [] timestamp m = m
refit_each ((config, count) ∷ values) timestamp m =
    let current = current_weight m.weights config.period timestamp in
    refit_each values timestamp (record m {
      weights =
          if ltb current count then put_weight m.weights (count - current) timestamp else m.weights;
      configs = m.configs ++ config ∷ [];
    })

-- `MultiLimiter::refit`
pub refit_multi : MultiLimiter → List (LimiterConfig × ℕ) → ℤ → MultiLimiter
unfolding refit_each
refit_multi m values timestamp = refit_each values timestamp (record m { configs = [] })

-- `MultiLimiter::check_limit`
unfoldable pub check_limit : LimitWeights → ℕ → ℤ → LimiterConfig → Bool
unfolding add_usize
check_limit w weight timestamp config =
    leb (add_usize (current_weight w config.period timestamp) weight) config.limit

-- `Iterator::max`
unfoldable pub greatest : List ℤ → Option ℤ
greatest [] = none
greatest (x ∷ xs) = elim (greatest xs) [ none ↦ some x | some y ↦ some (max_ℤ x y) ]

-- `Iterator::min`
unfoldable pub least : List ℕ → Option ℕ
least [] = none
least (x ∷ xs) = elim (least xs) [ none ↦ some x | some y ↦ some (min x y) ]

abbrev pub period_of : LimiterConfig → ℤ
period_of c = c.period

-- `MultiLimiter::try_consume`
unfoldable pub try_consume_multi : MultiLimiter → ℕ → ℤ → Bool × MultiLimiter
try_consume_multi m weight timestamp =
    if all (check_limit m.weights weight timestamp) m.configs
    then (true, record m { weights = put_weight m.weights weight timestamp })
    else (
      false,
      elim (greatest (map period_of m.configs)) [
        | none ↦ m
        | some p ↦ record m { weights = purge m.weights p timestamp }
      ],
    )

-- The `filter_map` of both waiting periods: a wait for each configuration that has no room now.
unfoldable pub waits : LimitWeights → ℕ → ℤ → List LimiterConfig → List ℤ
waits w release_weight timestamp [] = []
waits w release_weight timestamp (c ∷ cs) =
    let rest = waits w release_weight timestamp cs in
    if check_limit w release_weight timestamp c
    then rest
    else waiting_period w release_weight c.period timestamp ∷ rest

-- `max().unwrap_or_default()`
abbrev pub longest : List ℤ → ℤ
longest ds = elim (greatest ds) [ none ↦ pos 0 | some d ↦ d ]

-- `MultiLimiter::waiting_period`
unfoldable pub waiting_period_multi : MultiLimiter → ℕ → ℤ → ℤ
unfolding waits greatest
waiting_period_multi m release_weight timestamp =
    longest (waits m.weights release_weight timestamp m.configs)

-- Half the smallest limit, and at least one.
unfoldable pub half_smallest_limit : List LimiterConfig → ℕ
unfolding least
half_smallest_limit cs = max (elim (least (map (λ c. c.limit) cs)) [ none ↦ 0 | some n ↦ n ] / 2) 1

-- `MultiLimiter::waiting_period_half_smallest_limit`
unfoldable pub waiting_period_half_smallest_limit : MultiLimiter → ℤ → ℤ
unfolding waits greatest half_smallest_limit
waiting_period_half_smallest_limit m timestamp =
    longest (waits m.weights (half_smallest_limit m.configs) timestamp m.configs)
