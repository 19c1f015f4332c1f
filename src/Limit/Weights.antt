-- ===== src/Limit/Weights.antt =====
-- libs/symm-core/src/core/limit.rs, `LimitWeight` and `LimitWeights`. Instants and durations are
-- integers of nanoseconds; `usize` arithmetic wraps at 64 bits, as in a release build.
use mathlib.Core.List.{reverse}
use index_maker.Prelude.{
  ltb, if◌then◌else◌, ℕ, suc, ◌+◌, ◌%◌, ◌^◌, Bool, Option, none, some, List, [], ◌∷◌, take,
  take_while, FoldWhile, continue, done,
}
use index_maker.Prelude.Int.{ℤ, ◌-ℤ◌, -ℤ◌, ltb_ℤ}

-- `usize` on a 64-bit target.
abbrev pub usize_mod : ℕ
usize_mod = 2 ^ 64

unfoldable pub add_usize : ℕ → ℕ → ℕ
add_usize a b = (a + b) % usize_mod

pub record LimitWeight : Type 0 where
  pub weight : ℕ
  pub timestamp : ℤ

-- The front of the deque, where the newest entry goes, is the head of the list.
pub record LimitWeights : Type 0 where
  pub weights : List LimitWeight

pub record LimiterConfig : Type 0 where
  pub limit : ℕ
  pub period : ℤ

unfoldable pub sum_weights : List LimitWeight → ℕ
unfolding add_usize
sum_weights [] = 0
sum_weights (x ∷ xs) = add_usize x.weight (sum_weights xs)

-- `LimitWeights::new`
unfoldable pub no_weights : LimitWeights
no_weights = record { weights = [] }

unfoldable pub current_weight : LimitWeights → ℤ → ℤ → ℕ
unfolding sum_weights
current_weight w period timestamp =
    sum_weights (take_while (λ x. ltb_ℤ (timestamp -ℤ x.timestamp) period) w.weights)

-- The closure of `fold_while` in `waiting_period`, on the instant and the weight collected so far.
unfoldable pub release_fold : ℕ → List LimitWeight → ℤ × ℕ → FoldWhile (ℤ × ℕ)
unfolding add_usize
release_fold release_weight [] acc = continue acc
release_fold release_weight (w ∷ ws) (t, s) =
    let rest = release_fold release_weight ws (w.timestamp, add_usize s w.weight) in
    if ltb s release_weight then rest else done (t, s)

-- The last `match` of `waiting_period`.
unfoldable pub outcome_wait : ℤ → ℤ → ℤ → FoldWhile (ℤ × ℕ) → ℤ
outcome_wait boundary_time period timestamp (done (t, s)) = t -ℤ boundary_time
outcome_wait boundary_time period timestamp (continue (t, s)) = period -ℤ (timestamp -ℤ t)

unfoldable pub waiting_period : LimitWeights → ℕ → ℤ → ℤ → ℤ
waiting_period w release_weight period timestamp =
    let boundary_time = timestamp -ℤ period in
    let window = take_while (λ x. ltb_ℤ boundary_time x.timestamp) w.weights in
    outcome_wait boundary_time period timestamp
      (release_fold release_weight (reverse window) (timestamp, 0))

unfoldable pub put_weight : LimitWeights → ℕ → ℤ → LimitWeights
put_weight w weight timestamp = record w {
  weights = (record { weight = weight; timestamp = timestamp }) ∷ w.weights;
}

-- `Itertools::find_position`, without the element.
unfoldable pub find_position {ℓ} : {A : Type ℓ} → (A → Bool) → List A → Option ℕ
find_position p [] = none
find_position p (x ∷ xs) =
    if p x then some 0 else elim (find_position p xs) [ none ↦ none | some n ↦ some (suc n) ]

-- `if let Some(pos) = pos { weights.drain(pos..) }`
unfoldable pub drain_from {ℓ} : {A : Type ℓ} → Option ℕ → List A → List A
drain_from none xs = xs
drain_from (some n) xs = take n xs

unfoldable pub purge : LimitWeights → ℤ → ℤ → LimitWeights
purge w period timestamp =
    let found = find_position (λ x. ltb_ℤ period (timestamp -ℤ x.timestamp)) w.weights in
    record w { weights = drain_from found w.weights }
