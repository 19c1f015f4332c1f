-- ===== src/Limit/Tests.antt =====
-- limit.rs at concrete inputs: the repository's own unit test, and the theorems' instances.
use index_maker.Prelude.{leb, ◌+◌, ◌≡◌, refl, List, [], ◌∷◌, arith, all, All}
use index_maker.Prelude.Int.{pos, ◌-ℤ◌}
use index_maker.Limit.Multi.{new_multi, check_limit, greatest, try_consume_multi}
use index_maker.Limit.Safety.{Call, entry_of, run, Respects, run-Respects, try_consume-exact}
use index_maker.Limit.Weights.{
  LimitWeights, LimiterConfig, no_weights, current_weight, release_fold, outcome_wait,
  waiting_period, put_weight, find_position, drain_from, purge,
}
use index_maker.Limit.Window.{recent}

-- `test_limit_weights`: weight 5 at 3 s and weight 3 at 6 s, asked at 9 s.
abbrev two_weights : LimitWeights
unfolding no_weights put_weight
two_weights = put_weight (put_weight no_weights 5 (pos 3)) 3 (pos 6)

current_weight_runs :
    (current_weight two_weights (pos 10) (pos 9) ≡ 8)
    × (current_weight two_weights (pos 5) (pos 9) ≡ 3)
    × (current_weight two_weights (pos 1) (pos 9) ≡ 0)
unfolding current_weight ◌-ℤ◌ no_weights put_weight
current_weight_runs = (refl, refl, refl)

waiting_period_runs :
    (waiting_period two_weights 1 (pos 20) (pos 9) ≡ pos 14)
    × (waiting_period two_weights 6 (pos 20) (pos 9) ≡ pos 17)
    × (waiting_period two_weights 9 (pos 5) (pos 9) ≡ pos 2)
unfolding waiting_period outcome_wait release_fold ◌-ℤ◌ no_weights put_weight
waiting_period_runs = (refl, refl, refl)

abbrev ten_per_second : LimiterConfig
ten_per_second = record { limit = 10; period = pos 1000 }

abbrev fifteen_per_minute : LimiterConfig
fifteen_per_minute = record { limit = 15; period = pos 60000 }

abbrev both : List LimiterConfig
both = ten_per_second ∷ fifteen_per_minute ∷ []

abbrev schedule : List Call
schedule = (10, pos 0) ∷ (1, pos 500) ∷ (5, pos 1000) ∷ (1, pos 2000) ∷ []

-- The second call would break the first limit and the fourth the second.
run_refuses :
    (run (new_multi both) [] schedule).1 ≡ entry_of (5, pos 1000) ∷ entry_of (10, pos 0) ∷ []
unfolding run new_multi try_consume_multi check_limit current_weight put_weight purge drain_from
    find_position greatest no_weights ◌-ℤ◌
run_refuses = refl

run-Respects_example : All (Respects (run (new_multi both) [] schedule).1) both
run-Respects_example = run-Respects both (pos 0) schedule (omega arith) (omega arith)

try_consume-exact_example :
    let (m, hs) = run (new_multi both) [] schedule in
    (try_consume_multi m 3 (pos 2000)).0
    ≡ all (λ c. leb (recent c.period (pos 2000) hs + 3) c.limit) both
try_consume-exact_example =
    try_consume-exact both (pos 0) schedule (omega arith) (omega arith) (pos 2000) 3 (omega arith)
      (omega arith)
