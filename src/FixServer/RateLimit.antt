-- ===== src/FixServer/RateLimit.antt =====
-- libs/axum-fix-server/src/plugins/rate_limit_plugin.rs: the limits of requests, of each session, of
-- each user and of all. A shared limiter is its entry in the map, and the time that a method reads
-- from the clock is its argument.
use index_maker.Prelude.{
  ◌==◌, if◌then◌else◌, ℕ, ◌+◌, ◌-◌, ◌%◌, ◌^◌, Bool, true, false, Option, none, some, List, [], ◌∷◌,
  length, Result, ok, err, Action,
}
use index_maker.Prelude.Int.{ℤ, ◌-ℤ◌, ltb_ℤ, -ℤ◌}
use index_maker.FixServer.RatePlugin.{
  MessageType, administrative, UserId, user_id_eq, session_eq, RateLimitMetrics, SessionMetadata,
  UserMetadata, RateLimitError, global_limit_exceeded, session_limit_exceeded, user_limit_exceeded,
  RateLimitPlugin,
}
use index_maker.Limit.Multi.{
  MultiLimiter, new_multi, try_consume_multi, waiting_period_half_smallest_limit,
}
use index_maker.Limit.Weights.{LimiterConfig}
use index_maker.Prelude.Keyed.{find_key, put_key, erase_key}

-- `fetch_add(1)` and `fetch_sub(1)` of a `u64`, and `+= 1` of a release build.
abbrev pub add_one : ℕ → ℕ
add_one n = (n + 1) % 2 ^ 64

abbrev pub sub_one : ℕ → ℕ
sub_one n = (n + (2 ^ 64 - 1)) % 2 ^ 64

abbrev pub with_metrics : (RateLimitMetrics → RateLimitMetrics) → RateLimitPlugin → RateLimitPlugin
with_metrics f p = record p { metrics = f p.metrics }

abbrev pub count_request : RateLimitPlugin → RateLimitPlugin
count_request p = with_metrics (λ m. record m { total_requests = add_one m.total_requests }) p

abbrev pub count_rejected : RateLimitPlugin → RateLimitPlugin
count_rejected p =
    with_metrics (λ m. record m { rejected_requests = add_one m.rejected_requests }) p

-- The limiter that `get_or_create_session_limiter` gives, and that of a user.
abbrev pub or_new : Option MultiLimiter → List LimiterConfig → MultiLimiter
or_new none configs = new_multi configs
or_new (some limiter) configs = limiter

abbrev pub session_limiter : ℕ → RateLimitPlugin → MultiLimiter
session_limiter session p =
    or_new (find_key session_eq session p.session_limiters) p.config.session_limits

abbrev pub user_limiter : UserId → RateLimitPlugin → MultiLimiter
user_limiter user p = or_new (find_key user_id_eq user p.user_limiters) p.config.user_limits

abbrev pub put_session_limiter : ℕ → MultiLimiter → RateLimitPlugin → RateLimitPlugin
put_session_limiter session limiter p = record p {
  session_limiters = put_key session_eq session limiter p.session_limiters;
}

abbrev pub put_user_limiter : UserId → MultiLimiter → RateLimitPlugin → RateLimitPlugin
put_user_limiter user limiter p = record p {
  user_limiters = put_key user_id_eq user limiter p.user_limiters;
}

-- A new limiter is put into the map and counted.
unfoldable pub get_or_create_session_limiter : ℕ → RateLimitPlugin → RateLimitPlugin
get_or_create_session_limiter session p = elim (find_key session_eq session p.session_limiters) [
  | some limiter ↦ p
  | none ↦
      with_metrics (λ m. record m { active_sessions = add_one m.active_sessions })
        (put_session_limiter session (new_multi p.config.session_limits) p)
]

unfoldable pub get_or_create_user_limiter : UserId → RateLimitPlugin → RateLimitPlugin
get_or_create_user_limiter user p = elim (find_key user_id_eq user p.user_limiters) [
  | some limiter ↦ p
  | none ↦
      with_metrics (λ m. record m { active_users = add_one m.active_users })
        (put_user_limiter user (new_multi p.config.user_limits) p)
]

-- A `HashSet` of sessions.
abbrev pub insert_session : ℕ → List ℕ → List ℕ
insert_session s [] = s ∷ []
insert_session s (t ∷ l) = if t == s then t ∷ l else t ∷ insert_session s l

abbrev pub remove_session : ℕ → List ℕ → List ℕ
remove_session s [] = []
remove_session s (t ∷ l) = if t == s then remove_session s l else t ∷ remove_session s l

-- `entry(..).and_modify(..).or_insert(..)`
abbrev pub session_after : Option SessionMetadata → UserId → ℤ → SessionMetadata
session_after none user t = record { last_activity = t; user_id = user; total_requests = 1 }
session_after (some meta) user t = record meta {
  last_activity = t;
  total_requests = add_one meta.total_requests;
}

abbrev pub user_after : Option UserMetadata → ℕ → ℤ → UserMetadata
user_after none session t = record {
  last_activity = t;
  active_sessions = session ∷ [];
  total_requests = 1;
}
user_after (some meta) session t = record {
  last_activity = t;
  active_sessions = insert_session session meta.active_sessions;
  total_requests = add_one meta.total_requests;
}

abbrev pub update_activity_timestamps : ℕ → UserId → ℤ → RateLimitPlugin → RateLimitPlugin
update_activity_timestamps session user t p = record p {
  session_metadata =
      put_key session_eq session
        (session_after (find_key session_eq session p.session_metadata) user t) p.session_metadata;
  user_metadata =
      put_key user_id_eq user (user_after (find_key user_id_eq user p.user_metadata) session t)
        p.user_metadata;
}

abbrev pub OnPlugin : Type 0
OnPlugin = Action RateLimitPlugin RateLimitError (Unit {0})

-- The third check, on the limiter of the user, for a weight of a message.
abbrev pub end_user :
    UserId
    → MessageType
    → ℕ
    → ℤ
    → RateLimitPlugin
    → Bool × MultiLimiter
    → Result RateLimitError (Unit {0}) × RateLimitPlugin
end_user user kind weight t p (true, limiter) = (ok tt, put_user_limiter user limiter p)
end_user user kind weight t p (false, limiter) = (
  err (user_limit_exceeded user kind weight (waiting_period_half_smallest_limit limiter t)),
  count_rejected (put_user_limiter user limiter p),
)

unfoldable pub check_user : UserId → MessageType → ℕ → ℤ → OnPlugin
unfolding get_or_create_user_limiter
check_user user kind weight t p =
    let q = get_or_create_user_limiter user p in
    end_user user kind weight t q (try_consume_multi (user_limiter user q) weight t)

-- `self.update_activity_timestamps(..)` if the user's limit has room.
abbrev pub then_active :
    ℕ
    → UserId
    → ℤ
    → Result RateLimitError (Unit {0}) × RateLimitPlugin
    → Result RateLimitError (Unit {0}) × RateLimitPlugin
then_active session user t (ok a, p) = (ok tt, update_activity_timestamps session user t p)
then_active session user t (err e, p) = (err e, p)

abbrev pub end_session :
    ℕ
    → UserId
    → ℤ
    → RateLimitPlugin
    → Bool × MultiLimiter
    → Result RateLimitError (Unit {0}) × RateLimitPlugin
end_session session user t p (true, limiter) =
    then_active session user t
      (check_user user administrative 1 t (put_session_limiter session limiter p))
end_session session user t p (false, limiter) = (
  err (session_limit_exceeded session (waiting_period_half_smallest_limit limiter t)),
  count_rejected (put_session_limiter session limiter p),
)

-- The second check, on the limiter of the session.
unfoldable pub check_session : ℕ → UserId → ℤ → OnPlugin
unfolding get_or_create_session_limiter
check_session session user t p =
    let q = get_or_create_session_limiter session p in
    end_session session user t q (try_consume_multi (session_limiter session q) 1 t)

abbrev pub end_global :
    ℕ
    → UserId
    → ℤ
    → RateLimitPlugin
    → Bool × MultiLimiter
    → Result RateLimitError (Unit {0}) × RateLimitPlugin
end_global session user t p (true, limiter) =
    check_session session user t (record p { global_limiter = limiter })
end_global session user t p (false, limiter) = (
  err (global_limit_exceeded (waiting_period_half_smallest_limit limiter t)),
  count_rejected (record p { global_limiter = limiter }),
)

unfoldable pub check_rate_limits : ℕ → UserId → ℤ → OnPlugin
check_rate_limits session user t p =
    if p.config.enabled
    then end_global session user t (count_request p) (try_consume_multi p.global_limiter 1 t)
    else (ok tt, p)

abbrev pub or_one : Option ℕ → ℕ
or_one none = 1
or_one (some weight) = weight

unfoldable pub consume_message_weight : UserId → MessageType → ℤ → OnPlugin
consume_message_weight user kind t p =
    if p.config.enabled
    then check_user user kind (or_one (p.config.message_type_weights kind)) t p
    else (ok tt, p)

unfoldable pub create_limited_session : ℕ → ℤ → RateLimitPlugin → RateLimitPlugin
create_limited_session session t p = record p {
  session_metadata =
      put_key session_eq session
        (record { last_activity = t; user_id = (0, 0); total_requests = 0 }) p.session_metadata;
}

-- The session leaves the set of its user, and a user without sessions leaves the map.
abbrev pub left_by : UserId → List ℕ → UserMetadata → RateLimitPlugin → RateLimitPlugin
left_by user [] meta p =
    with_metrics (λ m. record m { active_users = sub_one m.active_users })
      (record p { user_metadata = erase_key user_id_eq user p.user_metadata })
left_by user (s ∷ sessions) meta p = record p {
  user_metadata =
      put_key user_id_eq user (record meta { active_sessions = s ∷ sessions }) p.user_metadata;
}

abbrev pub leave_user : ℕ → UserId → Option UserMetadata → RateLimitPlugin → RateLimitPlugin
leave_user session user none p = p
leave_user session user (some meta) p =
    left_by user (remove_session session meta.active_sessions) meta p

abbrev pub leave : ℕ → Option SessionMetadata → RateLimitPlugin → RateLimitPlugin
leave session none p = p
leave session (some meta) p =
    leave_user session meta.user_id (find_key user_id_eq meta.user_id p.user_metadata)
      (record p { session_metadata = erase_key session_eq session p.session_metadata })

unfoldable pub destroy_limited_session : ℕ → RateLimitPlugin → RateLimitPlugin
destroy_limited_session session p =
    with_metrics (λ m. record m { active_sessions = sub_one m.active_sessions })
      (leave session (find_key session_eq session p.session_metadata)
        (record p { session_limiters = erase_key session_eq session p.session_limiters }))

-- The sessions whose last activity is before the time.
abbrev pub inactive_since : ℤ → List (ℕ × SessionMetadata) → List ℕ
inactive_since cutoff_time [] = []
inactive_since cutoff_time ((session, meta) ∷ metadata) =
    if ltb_ℤ meta.last_activity cutoff_time
    then session ∷ inactive_since cutoff_time metadata
    else inactive_since cutoff_time metadata

unfoldable pub remove_each : List ℕ → RateLimitPlugin → RateLimitPlugin
unfolding destroy_limited_session
remove_each [] p = p
remove_each (session ∷ sessions) p = remove_each sessions (destroy_limited_session session p)

unfoldable pub cleanup_inactive_sessions : ℤ → ℤ → RateLimitPlugin → RateLimitPlugin
unfolding remove_each
cleanup_inactive_sessions now max_age p =
    remove_each (inactive_since (now -ℤ max_age) p.session_metadata) p

unfoldable pub get_metrics : RateLimitPlugin → RateLimitMetrics
get_metrics p = record p.metrics {
  active_sessions = length p.session_limiters % 2 ^ 64;
  active_users = length p.user_limiters % 2 ^ 64;
}
