-- ===== src/Limit/Single.antt =====
-- libs/symm-core/src/core/limit.rs, `Limiter`: one limit over one period.
use index_maker.Limit.Weights.{
  LimitWeights, LimiterConfig, add_usize, no_weights, current_weight, put_weight, purge,
  waiting_period,
}
use index_maker.Prelude.{ltb, leb, if◌then◌else◌, ℕ, ◌-◌, ◌/◌, Bool, true, false}
use index_maker.Prelude.Int.{ℤ}

pub record Limiter : Type 0 where
  pub weights : LimitWeights
  pub config : LimiterConfig

-- `Limiter::new`
pub new_limiter : ℕ → ℤ → Limiter
unfolding no_weights
new_limiter limit period = record {
  weights = no_weights;
  config = record { limit = limit; period = period };
}

-- `Limiter::refit`
unfoldable pub refit : Limiter → LimiterConfig → ℕ → ℤ → Limiter
unfolding current_weight put_weight
refit l config count timestamp =
    let current = current_weight l.weights config.period timestamp in
    if ltb current count
    then record l { weights = put_weight l.weights (count - current) timestamp; config = config }
    else record l { config = config }

-- `Limiter::try_consume`
unfoldable pub try_consume : Limiter → ℕ → ℤ → Bool × Limiter
unfolding add_usize
try_consume l weight timestamp =
    if leb (add_usize (current_weight l.weights l.config.period timestamp) weight) l.config.limit
    then (true, record l { weights = put_weight l.weights weight timestamp })
    else (false, record l { weights = purge l.weights l.config.period timestamp })

-- `Limiter::waiting_period_half_limit`
pub waiting_period_half_limit : Limiter → ℤ → ℤ
waiting_period_half_limit l timestamp =
    waiting_period l.weights (l.config.limit / 2) l.config.period timestamp
