-- ===== src/FixServer/RateTests.antt =====
-- Tests of libs/axum-fix-server/src/plugins/rate_limit_plugin.rs, and the theorem at concrete inputs.
use index_maker.Prelude.{ℕ, ◌-◌, ◌^◌, ◌≡◌, refl, Option, none, some, List, [], ◌∷◌, map, arith, All}
use index_maker.Prelude.Int.{pos, ◌-ℤ◌}
use index_maker.FixServer.RateLimit.{
  get_or_create_session_limiter, get_or_create_user_limiter, check_user, check_session,
  check_rate_limits, consume_message_weight, create_limited_session, destroy_limited_session,
  get_metrics,
}
use index_maker.FixServer.RatePlugin.{
  MessageType, order_message, quote_message, administrative, heartbeat, RateLimitConfig,
  default_config, UserId, user_id_eq, UserMetadata, RateLimitPlugin, new_rate_limit_plugin,
}
use index_maker.FixServer.Served.{history}
use index_maker.FixServer.UserLimits.{
  PluginCall, check, message, create, destroy, weight_of, serve_calls, user_limits-Respected,
}
use index_maker.Limit.Multi.{new_multi, check_limit, greatest, try_consume_multi}
use index_maker.Limit.Safety.{Fits, Respects}
use index_maker.Limit.Weights.{
  LimitWeight, LimiterConfig, no_weights, current_weight, put_weight, find_position, drain_from,
  purge,
}
use index_maker.Prelude.Keyed.{find_key, put_key, erase_key}

abbrev alice : UserId
alice = (1, 5)

abbrev ten_seconds : ℕ → LimiterConfig
ten_seconds limit = record { limit = limit; period = pos 10 }

-- At most 12 for a user in ten units of time.
abbrev small : RateLimitConfig
small = record default_config {
  session_limits = ten_seconds 20 ∷ [];
  user_limits = ten_seconds 12 ∷ [];
  global_limits = ten_seconds 30 ∷ [];
}

abbrev session_calls : List PluginCall
session_calls =
    create 3 (pos 0)
    ∷ check 3 alice (pos 1)
    ∷ message alice order_message (pos 2)
    ∷ destroy 3
    ∷ check 4 alice (pos 3)
    ∷ check 4 alice (pos 4)
    ∷ check 4 alice (pos 12)
    ∷ []

-- The check at 4 is refused, though the session is new.
accepted_times :
    map
      (λ (e : LimitWeight). e.timestamp)
      (history alice (serve_calls session_calls (new_rate_limit_plugin small, [])).1)
    ≡ pos 12 ∷ pos 3 ∷ pos 2 ∷ pos 1 ∷ []
unfolding check_rate_limits check_session check_user consume_message_weight create_limited_session
    destroy_limited_session get_or_create_session_limiter get_or_create_user_limiter find_key
    put_key erase_key new_multi try_consume_multi check_limit current_weight put_weight purge
    greatest no_weights ◌-ℤ◌ drain_from find_position
accepted_times = refl

small-Fits : (kind : MessageType) → Fits small.user_limits (weight_of small kind)
small-Fits order_message = (omega arith, tt)
small-Fits quote_message = (omega arith, tt)
small-Fits administrative = (omega arith, tt)
small-Fits heartbeat = (omega arith, tt)

user_limits-Respected_example :
    All
      (Respects (history alice (serve_calls session_calls (new_rate_limit_plugin small, [])).1))
      small.user_limits
user_limits-Respected_example =
    user_limits-Respected small refl (omega arith, tt) small-Fits session_calls (pos 0)
      (omega arith, (omega arith, (omega arith, (omega arith, (omega arith, tt))))) alice

abbrev sessions_of : Option UserMetadata → List ℕ
sessions_of none = []
sessions_of (some meta) = meta.active_sessions

abbrev ended : RateLimitPlugin
ended =
    (serve_calls (create 3 (pos 0) ∷ check 3 alice (pos 1) ∷ destroy 3 ∷ [])
      (new_rate_limit_plugin small, [])).0

-- The session that `create_session` announced keeps the user (0, 0), so that its end does not take it
-- out of the sessions of its user.
session_stays : sessions_of (find_key user_id_eq alice ended.user_metadata) ≡ 3 ∷ []
unfolding check_rate_limits check_session check_user create_limited_session destroy_limited_session
    get_or_create_session_limiter get_or_create_user_limiter find_key put_key erase_key new_multi
    try_consume_multi check_limit current_weight put_weight purge greatest no_weights ◌-ℤ◌
    drain_from find_position
session_stays = refl

-- A session without requests is not counted when it starts, and is when it ends.
count_wraps :
    (destroy_limited_session 3
      (create_limited_session 3 (pos 0) (new_rate_limit_plugin small))).metrics.active_sessions
    ≡ 2 ^ 64 - 1
unfolding create_limited_session destroy_limited_session find_key put_key erase_key new_multi
count_wraps = refl

-- The sessions that are reported are those with a limiter.
reported_sessions :
    (get_metrics (
      destroy_limited_session 3
        (create_limited_session 3 (pos 0) (new_rate_limit_plugin small)))).active_sessions
    ≡ 0
unfolding get_metrics create_limited_session destroy_limited_session find_key put_key erase_key
    new_multi
reported_sessions = refl
