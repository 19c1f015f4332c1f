-- ===== src/FixServer/Served.antt =====
-- libs/axum-fix-server/src/plugins/rate_limit_plugin.rs: sequences of calls, and what of them counts
-- for each user.
use mathlib.Core.Path.{subst}
use index_maker.Prelude.{
  ◌==◌, if◌then◌else◌, ==_iff, Bool-cases, Option-cases, ℕ, ◌≡◌, refl, sym, ◌∙◌, inl, inr, Bool,
  true, false, Option, some, List, [], ◌∷◌, Result, ok, err,
}
use index_maker.Prelude.Int.{ℤ, ◌≤ℤ◌}
use index_maker.FixServer.RateLimit.{
  or_new, user_limiter, put_user_limiter, get_or_create_user_limiter, end_user, check_user,
}
use index_maker.FixServer.RatePlugin.{
  MessageType, RateLimitConfig, UserId, user_id_eq, RateLimitError, RateLimitPlugin,
}
use index_maker.Limit.Multi.{MultiLimiter, new_multi, try_consume_multi}
use index_maker.Limit.Safety.{
  entry_of, logged, Fits, IsConsistent, later-IsConsistent, try_consume-configs,
}
use index_maker.Limit.Weights.{LimitWeight}
use index_maker.Prelude.Keyed.{find_key, find_key-put_self, IsTest, find_key-put_other, of_both}

user_id_eq-IsTest : IsTest user_id_eq
user_id_eq-IsTest = record {
  sound = λ (a, b) (c, e) h.
      let (left, right) = of_both (a == c) (b == e) h in
      rw ((==_iff a c).0 left, (==_iff b e).0 right) refl;
  reflexive = λ (a, b). rw ((==_iff a a).1 refl, (==_iff b b).1 refl) refl;
}

-- The accepted weights with their users, the latest first.
abbrev pub Accepted : Type 0
Accepted = List (UserId × LimitWeight)

abbrev pub history : UserId → Accepted → List LimitWeight
history user [] = []
history user ((v, entry) ∷ log) =
    if user_id_eq v user then entry ∷ history user log else history user log

abbrev pub log_for : Result RateLimitError (Unit {0}) → UserId → ℕ → ℤ → Accepted → Accepted
log_for (ok a) user weight t log = (user, entry_of (weight, t)) ∷ log
log_for (err e) user weight t log = log

-- The limiter of a user is in step with what was accepted.
abbrev pub UserInStep : RateLimitConfig → ℤ → Option MultiLimiter → List LimitWeight → Type 0
UserInStep c t found hs =
    IsConsistent t (or_new found c.user_limits).weights hs c.user_limits
    × ((or_new found c.user_limits).configs ≡ c.user_limits)

pub record InStep (c : RateLimitConfig) (t : ℤ) (p : RateLimitPlugin) (log : Accepted)
    : Type 0 where
  pub same_config : p.config ≡ c
  pub users :
      (user : UserId) → UserInStep c t (find_key user_id_eq user p.user_limiters) (history user log)

pub InStep-later :
    (c : RateLimitConfig) (s t : ℤ) (p : RateLimitPlugin) (log : Accepted)
    → s ≤ℤ t
    → InStep c s p log
    → InStep c t p log
InStep-later c s t p log h i = record {
  same_config = i.same_config;
  users = λ user.
      let (good, e) = i.users user in
      (later-IsConsistent s t _ (history user log) c.user_limits h good, e);
}

-- Nothing that the limits of users depend on differs.
pub record SameUsers (p q : RateLimitPlugin) : Type 0 where
  pub config : q.config ≡ p.config
  pub limiters : q.user_limiters ≡ p.user_limiters

pub InStep-same :
    (c : RateLimitConfig) (t : ℤ) (p q : RateLimitPlugin) (log : Accepted)
    → SameUsers p q
    → InStep c t p log
    → InStep c t q log
InStep-same c t p q log same i = record {
  same_config = same.config ∙ i.same_config;
  users = λ user.
      subst (λ l. UserInStep c t (find_key user_id_eq user l) (history user log))
        (sym same.limiters) (i.users user);
}

put-InStep :
    (c : RateLimitConfig) (t : ℤ) (user : UserId) (m : MultiLimiter) (p : RateLimitPlugin)
    (log log' : Accepted)
    → UserInStep c t (some m) (history user log')
    → ((v : UserId) → user_id_eq user v ≡ false → history v log' ≡ history v log)
    → InStep c t p log
    → InStep c t (put_user_limiter user m p) log'
put-InStep c t user m p log log' own others i = record {
  same_config = i.same_config;
  users = λ v. elim (Bool-cases (user_id_eq user v)) [
    | inl same ↦
        let e = user_id_eq-IsTest.sound user v same in
        let found =
          find_key-put_self user_id_eq user m p.user_limiters (user_id_eq-IsTest.reflexive user) in
        rw (← e) (subst (λ f. UserInStep c t f (history user log')) (sym found) own)
    | inr other ↦
        let kept = find_key-put_other user_id_eq user_id_eq-IsTest user v m p.user_limiters other in
        subst (λ f. UserInStep c t f (history v log')) (sym kept)
          (subst (UserInStep c t (find_key user_id_eq v p.user_limiters)) (sym (others v other))
            (i.users v))
  ];
}

get_or_create-InStep :
    (c : RateLimitConfig) (t : ℤ) (user : UserId) (p : RateLimitPlugin) (log : Accepted)
    → InStep c t p log
    → InStep c t (get_or_create_user_limiter user p) log
unfolding get_or_create_user_limiter
get_or_create-InStep c t user p log i =
    elim (Option-cases (find_key user_id_eq user p.user_limiters)) [
      | inr (m, h) ↦ rw (h, get_or_create_user_limiter) i
      | inl h ↦
          let fresh =
            subst (λ k. UserInStep c t (some (new_multi k.user_limits)) (history user log))
              (sym i.same_config)
              (subst (λ f. UserInStep c t f (history user log)) h (i.users user)) in
          let put =
            put-InStep c t user (new_multi p.config.user_limits) p log log fresh (λ v other. refl)
              i in
          rw (h, get_or_create_user_limiter)
            record { same_config = put.same_config; users = put.users }
    ]

module _ (c : RateLimitConfig) (t : ℤ) (user : UserId) (kind : MessageType) (weight : ℕ)
    (log : Accepted) (fits : Fits c.user_limits weight) where
  end_user-InStep :
      (q : RateLimitPlugin) (r : Bool × MultiLimiter)
      → InStep c t q log
      → UserInStep c t (some r.1) (logged r.0 (weight, t) (history user log))
      → let (answer, after) = end_user user kind weight t q r in
        InStep c t after (log_for answer user weight t log)
  end_user-InStep q (true, m) i own =
      put-InStep c t user m q log ((user, entry_of (weight, t)) ∷ log)
        (rw (user_id_eq-IsTest.reflexive user) own) (λ v other. rw other refl) i
  end_user-InStep q (false, m) i own =
      let put = put-InStep c t user m q log log own (λ v other. refl) i in
      record { same_config = put.same_config; users = put.users }

  pub check_user-InStep :
      (p : RateLimitPlugin)
      → InStep c t p log
      → let (answer, after) = check_user user kind weight t p in
        InStep c t after (log_for answer user weight t log)
  unfolding check_user
  check_user-InStep p i =
      let q = get_or_create_user_limiter user p in
      let iq = get_or_create-InStep c t user p log i in
      let (good, e) =
        subst
          (λ k.
            IsConsistent t (or_new (find_key user_id_eq user q.user_limiters) k.user_limits).weights
              (history user log) c.user_limits
            × ((or_new (find_key user_id_eq user q.user_limiters) k.user_limits).configs
                ≡ c.user_limits))
          (sym iq.same_config) (iq.users user) in
      end_user-InStep q (try_consume_multi (user_limiter user q) weight t) iq (
        try_consume-configs t (user_limiter user q) (history user log) weight c.user_limits e good
          fits)
