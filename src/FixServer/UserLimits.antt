-- ===== src/FixServer/UserLimits.antt =====
-- libs/axum-fix-server/src/plugins/rate_limit_plugin.rs: the limits of users hold whatever is called.
use mathlib.Core.Path.{subst}
use index_maker.Prelude.{
  if◌then◌else◌, Option-cases, ℕ, ◌≡◌, refl, sym, ap, ◌∙◌, inl, inr, Bool, true, false, Option,
  none, some, List, [], ◌∷◌, All, Result, ok, err,
}
use index_maker.Prelude.Int.{ℤ, ◌-ℤ◌, ◌≤ℤ◌, -ℤ◌}
use index_maker.FixServer.RateLimit.{
  count_request, session_limiter, put_session_limiter, get_or_create_session_limiter,
  remove_session, check_user, then_active, end_session, check_session, end_global,
  check_rate_limits, or_one, consume_message_weight, create_limited_session, left_by, leave_user,
  leave, destroy_limited_session, inactive_since, remove_each, cleanup_inactive_sessions,
}
use index_maker.FixServer.RatePlugin.{
  MessageType, administrative, RateLimitConfig, UserId, user_id_eq, session_eq, SessionMetadata,
  UserMetadata, RateLimitError, RateLimitPlugin, new_rate_limit_plugin,
}
use index_maker.FixServer.Served.{
  Accepted, history, log_for, InStep, InStep-later, SameUsers, InStep-same, check_user-InStep,
}
use index_maker.Limit.Multi.{MultiLimiter, new_multi, try_consume_multi}
use index_maker.Limit.Safety.{Fits, Respects, new-IsConsistent}
use index_maker.Prelude.Keyed.{find_key, erase_key}

-- What does not touch the limiters of users.
session-SameUsers :
    (session : ℕ) (p : RateLimitPlugin) → SameUsers p (get_or_create_session_limiter session p)
unfolding get_or_create_session_limiter
session-SameUsers session p = elim (Option-cases (find_key session_eq session p.session_limiters)) [
  | inl h ↦ rw (h, get_or_create_session_limiter) record { config = refl; limiters = refl }
  | inr (m, h) ↦ rw (h, get_or_create_session_limiter) record { config = refl; limiters = refl }
]

left_by-SameUsers :
    (user : UserId) (sessions : List ℕ) (meta : UserMetadata) (p : RateLimitPlugin)
    → SameUsers p (left_by user sessions meta p)
left_by-SameUsers user [] meta p = record { config = refl; limiters = refl }
left_by-SameUsers user (s ∷ sessions) meta p = record { config = refl; limiters = refl }

leave_user-SameUsers :
    (session : ℕ) (user : UserId) (found : Option UserMetadata) (p : RateLimitPlugin)
    → SameUsers p (leave_user session user found p)
leave_user-SameUsers session user none p = record { config = refl; limiters = refl }
leave_user-SameUsers session user (some meta) p =
    left_by-SameUsers user (remove_session session meta.active_sessions) meta p

leave-SameUsers :
    (session : ℕ) (found : Option SessionMetadata) (p : RateLimitPlugin)
    → SameUsers p (leave session found p)
leave-SameUsers session none p = record { config = refl; limiters = refl }
leave-SameUsers session (some meta) p =
    let same =
      leave_user-SameUsers session meta.user_id (find_key user_id_eq meta.user_id p.user_metadata)
        (record p { session_metadata = erase_key session_eq session p.session_metadata }) in
    record { config = same.config; limiters = same.limiters }

destroy-SameUsers :
    (session : ℕ) (p : RateLimitPlugin) → SameUsers p (destroy_limited_session session p)
unfolding destroy_limited_session
destroy-SameUsers session p =
    let same =
      leave-SameUsers session (find_key session_eq session p.session_metadata)
        (record p { session_limiters = erase_key session_eq session p.session_limiters }) in
    record { config = same.config; limiters = same.limiters }

remove_each-SameUsers :
    (sessions : List ℕ) (p : RateLimitPlugin) → SameUsers p (remove_each sessions p)
unfolding remove_each
remove_each-SameUsers [] p = record { config = refl; limiters = refl }
remove_each-SameUsers (s ∷ sessions) p =
    let first = destroy-SameUsers s p in
    let rest = remove_each-SameUsers sessions (destroy_limited_session s p) in
    record { config = rest.config ∙ first.config; limiters = rest.limiters ∙ first.limiters }

pub data PluginCall : Type 0 where
  check : ℕ → UserId → ℤ → PluginCall
  message : UserId → MessageType → ℤ → PluginCall
  create : ℕ → ℤ → PluginCall
  destroy : ℕ → PluginCall
  cleanup : ℤ → ℤ → PluginCall

abbrev pub weight_of : RateLimitConfig → MessageType → ℕ
weight_of c kind = or_one (c.message_type_weights kind)

-- A check counts 1 and a message its weight, when they are accepted.
abbrev pub serve_call : PluginCall → RateLimitPlugin × Accepted → RateLimitPlugin × Accepted
serve_call (check session user t) (p, log) =
    let (answer, after) = check_rate_limits session user t p in (after, log_for answer user 1 t log)
serve_call (message user kind t) (p, log) =
    let (answer, after) = consume_message_weight user kind t p in
    (after, log_for answer user (weight_of p.config kind) t log)
serve_call (create session t) (p, log) = (create_limited_session session t p, log)
serve_call (destroy session) (p, log) = (destroy_limited_session session p, log)
serve_call (cleanup now max_age) (p, log) = (cleanup_inactive_sessions now max_age p, log)

abbrev pub serve_calls : List PluginCall → RateLimitPlugin × Accepted → RateLimitPlugin × Accepted
serve_calls [] x = x
serve_calls (call ∷ calls) x = serve_calls calls (serve_call call x)

-- The limits are looked at in the order of time, from `t` on.
abbrev pub InTime : ℤ → List PluginCall → Type 0
InTime t [] = Unit
InTime t (check session user now ∷ calls) = (t ≤ℤ now) × InTime now calls
InTime t (message user kind now ∷ calls) = (t ≤ℤ now) × InTime now calls
InTime t (create session now ∷ calls) = InTime t calls
InTime t (destroy session ∷ calls) = InTime t calls
InTime t (cleanup now max_age ∷ calls) = InTime t calls

module _ (c : RateLimitConfig) (on : c.enabled ≡ true) (one_fits : Fits c.user_limits 1)
    (fits : (kind : MessageType) → Fits c.user_limits (weight_of c kind)) where
  then_active-InStep :
      (session : ℕ) (user : UserId) (t : ℤ) (log : Accepted)
      (r : Result RateLimitError (Unit {0}) × RateLimitPlugin)
      → InStep c t r.1 (log_for r.0 user 1 t log)
      → let (answer, after) = then_active session user t r in
        InStep c t after (log_for answer user 1 t log)
  then_active-InStep session user t log (ok a, p) i = record {
    same_config = i.same_config;
    users = i.users;
  }
  then_active-InStep session user t log (err e, p) i = i

  end_session-InStep :
      (session : ℕ) (user : UserId) (t : ℤ) (p : RateLimitPlugin) (log : Accepted)
      (r : Bool × MultiLimiter)
      → InStep c t p log
      → let (answer, after) = end_session session user t p r in
        InStep c t after (log_for answer user 1 t log)
  end_session-InStep session user t p log (true, m) i = then_active-InStep session user t log _ (
      check_user-InStep c t user administrative 1 log one_fits (put_session_limiter session m p)
        record { same_config = i.same_config; users = i.users })
  end_session-InStep session user t p log (false, m) i = record {
    same_config = i.same_config;
    users = i.users;
  }

  end_global-InStep :
      (session : ℕ) (user : UserId) (t : ℤ) (p : RateLimitPlugin) (log : Accepted)
      (r : Bool × MultiLimiter)
      → InStep c t p log
      → let (answer, after) = end_global session user t p r in
        InStep c t after (log_for answer user 1 t log)
  unfolding check_session
  end_global-InStep session user t p log (true, m) i =
      let next = record p { global_limiter = m } in
      let q = get_or_create_session_limiter session next in
      end_session-InStep session user t q log (try_consume_multi (session_limiter session q) 1 t) (
        InStep-same c t next q log (session-SameUsers session next)
          record { same_config = i.same_config; users = i.users })
  end_global-InStep session user t p log (false, m) i = record {
    same_config = i.same_config;
    users = i.users;
  }

  check-InStep :
      (session : ℕ) (user : UserId) (t : ℤ) (p : RateLimitPlugin) (log : Accepted)
      → InStep c t p log
      → let (answer, after) = check_rate_limits session user t p in
        InStep c t after (log_for answer user 1 t log)
  unfolding check_rate_limits
  check-InStep session user t p log i =
      let enabled : p.config.enabled ≡ true = ap (λ k. k.enabled) i.same_config ∙ on in
      let asked : Result RateLimitError (Unit {0}) × RateLimitPlugin =
        end_global session user t (count_request p) (try_consume_multi p.global_limiter 1 t) in
      subst (λ x. InStep c t x.1 (log_for x.0 user 1 t log))
        (sym (ap (λ b. if b then asked else (ok tt, p)) enabled))
        (end_global-InStep session user t (count_request p) log
          (try_consume_multi p.global_limiter 1 t)
          record { same_config = i.same_config; users = i.users })

  message-InStep :
      (user : UserId) (kind : MessageType) (t : ℤ) (p : RateLimitPlugin) (log : Accepted)
      → InStep c t p log
      → let (answer, after) = consume_message_weight user kind t p in
        InStep c t after (log_for answer user (weight_of p.config kind) t log)
  unfolding consume_message_weight
  message-InStep user kind t p log i =
      let enabled : p.config.enabled ≡ true = ap (λ k. k.enabled) i.same_config ∙ on in
      let heavy : Fits c.user_limits (weight_of p.config kind) =
        subst (λ k. Fits c.user_limits (weight_of k kind)) (sym i.same_config) (fits kind) in
      subst (λ x. InStep c t x.1 (log_for x.0 user (weight_of p.config kind) t log))
        (sym (
          ap (λ b. if b then check_user user kind (weight_of p.config kind) t p else (ok tt, p))
            enabled))
        (check_user-InStep c t user kind (weight_of p.config kind) log heavy p i)

  serve_calls-Respects :
      (calls : List PluginCall) (t : ℤ) (p : RateLimitPlugin) (log : Accepted)
      → InTime t calls
      → InStep c t p log
      → (user : UserId) → All (Respects (history user (serve_calls calls (p, log)).1)) c.user_limits
  unfolding create_limited_session cleanup_inactive_sessions
  serve_calls-Respects [] t p log a i user = (i.users user).0.respected
  serve_calls-Respects (check session v now ∷ calls) t p log a i user =
      serve_calls-Respects calls now _ _ a.1
        (check-InStep session v now p log (InStep-later c t now p log a.0 i)) user
  serve_calls-Respects (message v kind now ∷ calls) t p log a i user =
      serve_calls-Respects calls now _ _ a.1
        (message-InStep v kind now p log (InStep-later c t now p log a.0 i)) user
  serve_calls-Respects (create session now ∷ calls) t p log a i user =
      serve_calls-Respects calls t _ log a record { same_config = i.same_config; users = i.users }
        user
  serve_calls-Respects (destroy session ∷ calls) t p log a i user =
      serve_calls-Respects calls t _ log a (InStep-same c t p _ log (destroy-SameUsers session p) i)
        user
  serve_calls-Respects (cleanup now max_age ∷ calls) t p log a i user =
      serve_calls-Respects calls t _ log a
        (InStep-same c t p _ log
          (remove_each-SameUsers (inactive_since (now -ℤ max_age) p.session_metadata) p) i)
        user

  -- With limits that are enabled and that `usize` can add the weights to, whatever the plugin is
  -- called with from its start, sessions that end and are cleaned up included, as long as the clock
  -- does not go back: no window of a configured period of a user, in any of the user's sessions, ever
  -- holds more accepted checks and message weights of that user than the configured limit.
  pub user_limits-Respected :
      (calls : List PluginCall) (t : ℤ)
      → InTime t calls
      → (user : UserId)
      → All
          (Respects (history user (serve_calls calls (new_rate_limit_plugin c, [])).1))
          c.user_limits
  unfolding new_multi find_key
  user_limits-Respected calls t a user =
      serve_calls-Respects calls t (new_rate_limit_plugin c) [] a start user
    where
      start : InStep c t (new_rate_limit_plugin c) []
      start = record { same_config = refl; users = λ v. (new-IsConsistent t c.user_limits, refl) }
