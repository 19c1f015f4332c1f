-- ===== src/Limit/Safety.antt =====
-- limit.rs, `MultiLimiter::try_consume` over a schedule of calls: what the limits promise.
use mathlib.Core.Path.{subst}
use index_maker.Prelude.{
  leb, Bool-cases, Option-cases, ℕ, ◌+◌, ◌≤◌, ◌<◌, ◌≡◌, refl, sym, ap, ◌∙◌, inl, inr, Bool, true,
  false, none, some, List, [], ◌∷◌, map, arith, all, All, All-map,
}
use index_maker.Prelude.Int.{ℤ, ◌-ℤ◌, -ℤ◌, ◌≤ℤ◌, int_laws}
use index_maker.Limit.Multi.{
  MultiLimiter, new_multi, check_limit, greatest, period_of, try_consume_multi,
}
use index_maker.Limit.Weights.{
  usize_mod, add_usize, LimitWeight, LimitWeights, LimiterConfig, no_weights, put_weight, purge,
}
use index_maker.Limit.Window.{
  recent, Descending, Keeps, Descending-mono, Keeps-mono, within, current-eq-recent,
  within-eq-recent, within-le-recent, Keeps-purge,
}

-- A call of `try_consume`: its weight and its instant.
abbrev pub Call : Type 0
Call = ℕ × ℤ

abbrev pub entry_of : Call → LimitWeight
entry_of (weight, timestamp) = record { weight = weight; timestamp = timestamp }

-- The log grows by the accepted calls.
abbrev pub logged : Bool → Call → List LimitWeight → List LimitWeight
logged true call hs = entry_of call ∷ hs
logged false call hs = hs

unfoldable pub run : MultiLimiter → List LimitWeight → List Call → MultiLimiter × List LimitWeight
run m hs [] = (m, hs)
run m hs ((weight, timestamp) ∷ calls) =
    let (accepted, m') = try_consume_multi m weight timestamp in
    run m' (logged accepted (weight, timestamp) hs) calls

-- Calls come in the order of time, from `t` on.
abbrev pub Ascending : ℤ → List Call → Type 0
Ascending t [] = Unit {0}
Ascending t ((weight, timestamp) ∷ calls) = (t ≤ℤ timestamp) × Ascending timestamp calls

-- A limit and a weight that `usize` can add.
abbrev pub Fits : List LimiterConfig → ℕ → Type 0
Fits configs weight = All (λ c. c.limit + weight < usize_mod) configs

-- No window of the configuration's length holds more than its limit.
abbrev pub Respects : List LimitWeight → LimiterConfig → Type 0
Respects hs c = (t : ℤ) → within c.period t hs ≤ c.limit

abbrev Kept : ℤ → LimitWeights → List LimitWeight → LimiterConfig → Type 0
Kept now w hs c = Keeps (now -ℤ c.period) w.weights hs

pub record IsConsistent (now : ℤ) (w : LimitWeights) (hs : List LimitWeight)
    (cs : List LimiterConfig) : Type 0 where
  pub order : Descending now hs
  pub kept : All (Kept now w hs) cs
  pub respected : All (Respects hs) cs

-- Time may pass.
Kept-later :
    (s t : ℤ) (w : LimitWeights) (hs : List LimitWeight) (cs : List LimiterConfig)
    → s ≤ℤ t
    → All (Kept s w hs) cs
    → All (Kept t w hs) cs
Kept-later s t w hs [] h k = tt
Kept-later s t w hs (c ∷ cs) h k = (
  Keeps-mono (s -ℤ c.period) (t -ℤ c.period) w.weights hs (omega int_laws) k.0,
  Kept-later s t w hs cs h k.1,
)

pub later-IsConsistent :
    (s t : ℤ) (w : LimitWeights) (hs : List LimitWeight) (cs : List LimiterConfig)
    → s ≤ℤ t
    → IsConsistent s w hs cs
    → IsConsistent t w hs cs
later-IsConsistent s t w hs cs h i = record {
  order = Descending-mono s t hs h i.order;
  kept = Kept-later s t w hs cs h i.kept;
  respected = i.respected;
}

-- The check of one configuration is the check against the log.
check-iff-room :
    (t : ℤ) (w : LimitWeights) (hs : List LimitWeight) (weight : ℕ) (c : LimiterConfig)
    → Descending t hs
    → Kept t w hs c
    → Respects hs c
    → c.limit + weight < usize_mod
    → check_limit w weight t c ≡ leb (recent c.period t hs + weight) c.limit
unfolding check_limit add_usize
check-iff-room t w hs weight c d k r f =
    rw
      (current-eq-recent c.period t t w hs k d
        (omega (arith, r t, within-eq-recent c.period t hs d)))
      (ground (arith, r t, within-eq-recent c.period t hs d))

-- A configuration with room still holds after the entry.
put-Respects :
    (t : ℤ) (hs : List LimitWeight) (weight : ℕ) (c : LimiterConfig)
    → Descending t hs
    → Respects hs c
    → recent c.period t hs + weight ≤ c.limit
    → Respects (entry_of (weight, t) ∷ hs) c
unfolding within
put-Respects t hs weight c d r room s = grind (int_laws, r s, within-le-recent c.period s t t hs)

-- The test of `try_consume` on the deque, read on the log.
all-check-iff-room :
    (t : ℤ) (w : LimitWeights) (hs : List LimitWeight) (weight : ℕ) (cs : List LimiterConfig)
    → IsConsistent t w hs cs
    → Fits cs weight
    → all (check_limit w weight t) cs ≡ all (λ c. leb (recent c.period t hs + weight) c.limit) cs
all-check-iff-room t w hs weight [] i f = refl
all-check-iff-room t w hs weight (c ∷ cs) i f = rw (
  check-iff-room t w hs weight c i.order i.kept.0 i.respected.0 f.0,
  all-check-iff-room t w hs weight cs
      (record { order = i.order; kept = i.kept.1; respected = i.respected.1 }) f.1,
)

all-Respects :
    (t : ℤ) (hs : List LimitWeight) (weight : ℕ) (cs : List LimiterConfig)
    → Descending t hs
    → All (Respects hs) cs
    → all (λ c. leb (recent c.period t hs + weight) c.limit) cs ≡ true
    → All (Respects (entry_of (weight, t) ∷ hs)) cs
all-Respects t hs weight [] d r h = tt
all-Respects t hs weight (c ∷ cs) d r h = (
  put-Respects t hs weight c d r.0 (ground arith),
  all-Respects t hs weight cs d r.1 (ground arith),
)

put-Kept :
    (t : ℤ) (w : LimitWeights) (hs : List LimitWeight) (weight : ℕ) (cs : List LimiterConfig)
    → All (Kept t w hs) cs
    → All (Kept t (put_weight w weight t) (entry_of (weight, t) ∷ hs)) cs
unfolding put_weight
put-Kept t w hs weight [] k = tt
put-Kept t w hs weight (c ∷ cs) k = ((refl, k.0), put-Kept t w hs weight cs k.1)

greatest-none : (cs : List LimiterConfig) → greatest (map period_of cs) ≡ none → cs ≡ []
unfolding greatest
greatest-none [] e = refl
greatest-none (c ∷ cs) e = ground arith

greatest-bounds :
    (cs : List LimiterConfig) (p : ℤ)
    → greatest (map period_of cs) ≡ some p
    → All (λ c. c.period ≤ℤ p) cs
unfolding greatest
greatest-bounds [] p e = tt
greatest-bounds (c ∷ cs) p e = elim (Option-cases (greatest (map period_of cs))) [
  | inl empty ↦ (ground arith, rw (greatest-none cs empty) tt)
  | inr (q, found) ↦ (
    ground arith,
    All-map (λ d. d.period ≤ℤ q) (λ d. d.period ≤ℤ p) (λ d h. ground arith) cs
        (greatest-bounds cs q found),
  )
]

purge-Kept :
    (t p : ℤ) (w : LimitWeights) (hs : List LimitWeight) (cs : List LimiterConfig)
    → Descending t hs
    → All (λ c. c.period ≤ℤ p) cs
    → All (Kept t w hs) cs
    → All (Kept t (purge w p t) hs) cs
purge-Kept t p w hs [] d b k = tt
purge-Kept t p w hs (c ∷ cs) d b k = (
  Keeps-purge p t (t -ℤ c.period) (t -ℤ c.period) t w hs (omega arith) (omega int_laws) d k.0,
  purge-Kept t p w hs cs d b.1 k.1,
)

-- One call keeps the log, the deque and the limits in step.
try_consume-IsConsistent :
    (t : ℤ) (m : MultiLimiter) (hs : List LimitWeight) (weight : ℕ)
    → IsConsistent t m.weights hs m.configs
    → Fits m.configs weight
    → let (accepted, m') = try_consume_multi m weight t in
      IsConsistent t m'.weights (logged accepted (weight, t) hs) m.configs
      × (m'.configs ≡ m.configs)
unfolding try_consume_multi
try_consume-IsConsistent t m hs weight i f =
    elim (Bool-cases (all (check_limit m.weights weight t) m.configs)) [
      | inl room ↦ rw room (
        record {
          order = (omega arith, i.order);
          kept = put-Kept t m.weights hs weight m.configs i.kept;
          respected =
              all-Respects t hs weight m.configs i.order i.respected
                (sym (all-check-iff-room t m.weights hs weight m.configs i f) ∙ room);
        },
        refl,
      )
      | inr full ↦ rw full (elim (Option-cases (greatest (map period_of m.configs))) [
        | inl empty ↦ rw empty (i, refl)
        | inr (p, found) ↦ rw found (
          record {
            order = i.order;
            kept =
                purge-Kept t p m.weights hs m.configs i.order (greatest-bounds m.configs p found)
                  i.kept;
            respected = i.respected;
          },
          refl,
        )
      ])
    ]

-- The instant of the last call, `t` if there is none.
abbrev pub last_instant : ℤ → List Call → ℤ
last_instant t [] = t
last_instant t ((weight, timestamp) ∷ calls) = last_instant timestamp calls

pub try_consume-configs :
    (t : ℤ) (m : MultiLimiter) (hs : List LimitWeight) (weight : ℕ) (configs : List LimiterConfig)
    → m.configs ≡ configs
    → IsConsistent t m.weights hs configs
    → Fits configs weight
    → let (accepted, m') = try_consume_multi m weight t in
      IsConsistent t m'.weights (logged accepted (weight, t) hs) configs × (m'.configs ≡ configs)
try_consume-configs t m hs weight configs e i f =
    let (i', e') =
      try_consume-IsConsistent t m hs weight (subst (IsConsistent t m.weights hs) (sym e) i)
        (subst (λ cs. Fits cs weight) (sym e) f) in
    (subst (IsConsistent t _ _) e i', e' ∙ e)

run-IsConsistent :
    (t : ℤ) (m : MultiLimiter) (hs : List LimitWeight) (configs : List LimiterConfig)
    (calls : List Call)
    → m.configs ≡ configs
    → IsConsistent t m.weights hs configs
    → Ascending t calls
    → All (λ call. Fits configs call.0) calls
    → let (m', hs') = run m hs calls in
      IsConsistent (last_instant t calls) m'.weights hs' configs × (m'.configs ≡ configs)
unfolding run
run-IsConsistent t m hs configs [] e i a f = (i, e)
run-IsConsistent t m hs configs ((weight, timestamp) ∷ calls) e i a f =
    let (accepted, m') = try_consume_multi m weight timestamp in
    let (i', e') =
      try_consume-configs timestamp m hs weight configs e
        (later-IsConsistent t timestamp m.weights hs configs a.0 i) f.0 in
    run-IsConsistent timestamp m' (logged accepted (weight, timestamp) hs) configs calls e' i' a.1
      f.1

pub new-IsConsistent : (t : ℤ) (configs : List LimiterConfig) → IsConsistent t no_weights [] configs
unfolding no_weights within
new-IsConsistent t [] = record { order = tt; kept = tt; respected = tt }
new-IsConsistent t (c ∷ cs) =
    let i = new-IsConsistent t cs in
    record { order = tt; kept = (tt, i.kept); respected = (λ s. omega arith, i.respected) }

consume-test :
    (m : MultiLimiter) (weight : ℕ) (now : ℤ)
    → (try_consume_multi m weight now).0 ≡ all (check_limit m.weights weight now) m.configs
unfolding try_consume_multi
consume-test m weight now = ground arith

module _ (configs : List LimiterConfig) (t : ℤ) (calls : List Call) (later : Ascending t calls)
    (fits : All (λ call. Fits configs call.0) calls) where
  run_new-IsConsistent :
      let (m, hs) = run (new_multi configs) [] calls in
      IsConsistent (last_instant t calls) m.weights hs configs × (m.configs ≡ configs)
  unfolding new_multi
  run_new-IsConsistent =
      run-IsConsistent t (new_multi configs) [] configs calls refl (new-IsConsistent t configs)
        later fits

  -- After any schedule of calls in the order of time, with weights that `usize` can add to the limits,
  -- no window of a configuration's period,
  -- wherever it ends, holds more accepted weight than that configuration's limit.
  pub run-Respects : All (Respects (run (new_multi configs) [] calls).1) configs
  run-Respects = run_new-IsConsistent.0.respected

  -- After any such schedule a later call with such a weight is accepted exactly if, for every configuration, the
  -- weight accepted within its period still leaves room.
  pub try_consume-exact :
      (now : ℤ) (weight : ℕ)
      → last_instant t calls ≤ℤ now
      → Fits configs weight
      → let (m, hs) = run (new_multi configs) [] calls in
        (try_consume_multi m weight now).0
        ≡ all (λ c. leb (recent c.period now hs + weight) c.limit) configs
  try_consume-exact now weight h f =
      let (m, hs) = run (new_multi configs) [] calls in
      let (i, e) = run_new-IsConsistent in
      consume-test m weight now
      ∙ ap (all (check_limit m.weights weight now)) e
      ∙ all-check-iff-room now m.weights hs weight configs
          (later-IsConsistent (last_instant t calls) now m.weights hs configs h i) f
