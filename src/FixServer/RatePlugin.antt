-- ===== src/FixServer/RatePlugin.antt =====
-- libs/axum-fix-server/src/plugins/rate_limit_plugin.rs: the configuration, the state and the errors of
-- the limits of requests.
use index_maker.Prelude.{◌==◌, ℕ, ◌*◌, Bool, true, ◌&&◌, Option, some, List, [], ◌∷◌}
use index_maker.Prelude.Int.{ℤ, pos}
use index_maker.Limit.Multi.{MultiLimiter, new_multi}
use index_maker.Limit.Weights.{LimiterConfig}

pub data MessageType : Type 0 where
  order_message quote_message administrative heartbeat : MessageType

pub record RateLimitConfig : Type 0 where
  pub session_limits : List LimiterConfig
  pub user_limits : List LimiterConfig
  pub global_limits : List LimiterConfig
  pub message_type_weights : MessageType → Option ℕ
  pub cleanup_interval_seconds : ℕ
  pub max_inactive_session_age_seconds : ℕ
  pub enabled : Bool

abbrev seconds : ℕ → ℤ
seconds n = pos (n * 1000000000)

abbrev per : ℕ → ℕ → LimiterConfig
per limit n = record { limit = limit; period = seconds n }

abbrev default_weights : MessageType → Option ℕ
default_weights order_message = some 10
default_weights quote_message = some 5
default_weights administrative = some 1
default_weights heartbeat = some 1

abbrev pub default_config : RateLimitConfig
default_config = record {
  session_limits = per 50 10 ∷ per 1000 60 ∷ [];
  user_limits = per 100 10 ∷ per 5000 60 ∷ per 50000 86400 ∷ [];
  global_limits = per 1000 10 ∷ per 50000 60 ∷ [];
  message_type_weights = default_weights;
  cleanup_interval_seconds = 300;
  max_inactive_session_age_seconds = 3600;
  enabled = true;
}

-- Chain and address.
abbrev pub UserId : Type 0
UserId = ℕ × ℕ

abbrev pub user_id_eq : UserId → UserId → Bool
user_id_eq (a, b) (c, e) = a == c && b == e

abbrev pub session_eq : ℕ → ℕ → Bool
session_eq a b = a == b

pub record RateLimitMetrics : Type 0 where
  pub total_requests : ℕ
  pub rejected_requests : ℕ
  pub active_sessions : ℕ
  pub active_users : ℕ

pub record SessionMetadata : Type 0 where
  pub last_activity : ℤ
  pub user_id : UserId
  pub total_requests : ℕ

pub record UserMetadata : Type 0 where
  pub last_activity : ℤ
  pub active_sessions : List ℕ
  pub total_requests : ℕ

pub data RateLimitError : Type 0 where
  global_limit_exceeded : ℤ → RateLimitError
  session_limit_exceeded : ℕ → ℤ → RateLimitError
  user_limit_exceeded : UserId → MessageType → ℕ → ℤ → RateLimitError

pub record RateLimitPlugin : Type 0 where
  pub session_limiters : List (ℕ × MultiLimiter)
  pub user_limiters : List (UserId × MultiLimiter)
  pub global_limiter : MultiLimiter
  pub config : RateLimitConfig
  pub metrics : RateLimitMetrics
  pub session_metadata : List (ℕ × SessionMetadata)
  pub user_metadata : List (UserId × UserMetadata)

abbrev pub new_rate_limit_plugin : RateLimitConfig → RateLimitPlugin
new_rate_limit_plugin config = record {
  session_limiters = [];
  user_limiters = [];
  global_limiter = new_multi config.global_limits;
  config = config;
  metrics = record {
    total_requests = 0;
    rejected_requests = 0;
    active_sessions = 0;
    active_users = 0;
  };
  session_metadata = [];
  user_metadata = [];
}
