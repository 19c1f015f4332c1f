-- ===== src/Limit/Window.antt =====
-- The log behind limit.rs: every accepted entry, newest first, of which the deque keeps a part.
use index_maker.Prelude.{
  if◌then◌else◌, Bool-cases, ℕ, ◌+◌, ◌≤◌, ◌<◌, ◌≡◌, refl, inl, inr, Bool, true, not, ◌&&◌, List, [],
  ◌∷◌, arith, take_while, All,
}
use index_maker.Prelude.Int.{ℤ, ◌+ℤ◌, ◌-ℤ◌, -ℤ◌, ◌≤ℤ◌, ltb_ℤ, leb_ℤ, int_laws}
use index_maker.Limit.Weights.{
  usize_mod, add_usize, LimitWeight, LimitWeights, sum_weights, current_weight, find_position,
  drain_from, purge,
}

-- The whole weight of the entries that are younger than `period` at `now`, without wrapping.
unfoldable pub recent : ℤ → ℤ → List LimitWeight → ℕ
recent period now [] = 0
recent period now (x ∷ xs) =
    (if ltb_ℤ (now -ℤ x.timestamp) period then x.weight else 0) + recent period now xs

-- Instants fall along the log, from `t` on.
abbrev pub Descending : ℤ → List LimitWeight → Type 0
Descending t [] = Unit {0}
Descending t (x ∷ xs) = (x.timestamp ≤ℤ t) × Descending x.timestamp xs

abbrev pub Older : ℤ → List LimitWeight → Type 0
Older c = All (λ x. x.timestamp ≤ℤ c)

-- The deque `ws` is the log `hs` less a tail of entries no younger than `c`.
abbrev pub Keeps : ℤ → List LimitWeight → List LimitWeight → Type 0
Keeps c [] hs = Older c hs
Keeps c (x ∷ ws) [] = ⊥
Keeps c (x ∷ ws) (y ∷ hs) = (x ≡ y) × Keeps c ws hs

pub Descending-mono : (s t : ℤ) (hs : List LimitWeight) → s ≤ℤ t → Descending s hs → Descending t hs
Descending-mono s t [] h d = tt
Descending-mono s t (x ∷ hs) h d = (omega arith, d.1)

pub Descending-Older : (t c : ℤ) (hs : List LimitWeight) → t ≤ℤ c → Descending t hs → Older c hs
Descending-Older t c [] h d = tt
Descending-Older t c (x ∷ hs) h d =
    (omega arith, Descending-Older x.timestamp c hs (omega arith) d.1)

pub Older-mono : (b c : ℤ) (hs : List LimitWeight) → b ≤ℤ c → Older b hs → Older c hs
Older-mono b c [] h d = tt
Older-mono b c (x ∷ hs) h d = (omega arith, Older-mono b c hs h d.1)

pub Keeps-mono : (b c : ℤ) (ws hs : List LimitWeight) → b ≤ℤ c → Keeps b ws hs → Keeps c ws hs
Keeps-mono b c [] hs h k = Older-mono b c hs h k
Keeps-mono b c (x ∷ ws) [] h k = k
Keeps-mono b c (x ∷ ws) (y ∷ hs) h k = (k.0, Keeps-mono b c ws hs h k.1)

pub recent-Older :
    (period now c : ℤ) (hs : List LimitWeight)
    → c +ℤ period ≤ℤ now
    → Older c hs
    → recent period now hs ≡ 0
unfolding recent
recent-Older period now c [] h o = refl
recent-Older period now c (x ∷ hs) h o = grind (int_laws, recent-Older period now c hs h o.1)

-- Stopping at the first old entry, and wrapping, lose nothing while the true weight fits.
sum-eq-recent :
    (period now t c : ℤ) (ws hs : List LimitWeight)
    → c +ℤ period ≤ℤ now
    → Keeps c ws hs
    → Descending t hs
    → recent period now hs < usize_mod
    → sum_weights (take_while (λ x. ltb_ℤ (now -ℤ x.timestamp) period) ws) ≡ recent period now hs
unfolding recent sum_weights add_usize
sum-eq-recent period now t c [] hs h k d b = rw (recent-Older period now c hs h k)
sum-eq-recent period now t c (x ∷ ws) [] h k d b = absurd k
sum-eq-recent period now t c (x ∷ ws) (y ∷ hs) h k d b = grind (
  int_laws,
  sum-eq-recent period now y.timestamp c ws hs h k.1 d.1,
  recent-Older period now y.timestamp hs,
  Descending-Older y.timestamp y.timestamp hs,
)

-- The true weight of the entries of one window, which ends at `t` and has length `period`.
unfoldable pub within : ℤ → ℤ → List LimitWeight → ℕ
within period t [] = 0
within period t (x ∷ xs) =
    (if ltb_ℤ (t -ℤ x.timestamp) period && leb_ℤ x.timestamp t then x.weight else 0)
    + within period t xs

-- What the code computes from the deque is the true weight of the log.
pub current-eq-recent :
    (period now t : ℤ) (w : LimitWeights) (hs : List LimitWeight)
    → Keeps (now -ℤ period) w.weights hs
    → Descending t hs
    → recent period now hs < usize_mod
    → current_weight w period now ≡ recent period now hs
unfolding current_weight
current-eq-recent period now t w hs k d b =
    sum-eq-recent period now t (now -ℤ period) w.weights hs (omega int_laws) k d b

pub within-eq-recent :
    (period t : ℤ) (hs : List LimitWeight)
    → Descending t hs
    → within period t hs ≡ recent period t hs
unfolding within recent
within-eq-recent period t [] d = refl
within-eq-recent period t (x ∷ hs) d =
    grind (int_laws, within-eq-recent period t hs, Descending-mono x.timestamp t hs)

-- A later window holds no more of what had been logged before.
pub within-le-recent :
    (period s t u : ℤ) (hs : List LimitWeight) → t ≤ℤ s → within period s hs ≤ recent period t hs
unfolding within recent
within-le-recent period s t u [] h = omega arith
within-le-recent period s t u (x ∷ hs) h = grind (int_laws, within-le-recent period s t u hs)

drain-eq-take_while {ℓ} :
    {A : Type ℓ} (p : A → Bool) (xs : List A)
    → drain_from (find_position p xs) xs ≡ take_while (λ x. not (p x)) xs
unfolding drain_from find_position
drain-eq-take_while p [] = refl
drain-eq-take_while p (x ∷ xs) = ground (arith, drain-eq-take_while p xs)

take_while-Keeps :
    (period now c d t : ℤ) (ws hs : List LimitWeight)
    → c ≤ℤ d
    → now -ℤ period ≤ℤ d
    → Descending t hs
    → Keeps c ws hs
    → Keeps d (take_while (λ x. not (ltb_ℤ period (now -ℤ x.timestamp))) ws) hs
take_while-Keeps period now c d t [] hs hc hd h k = Older-mono c d hs hc k
take_while-Keeps period now c d t (x ∷ ws) [] hc hd h k = absurd k
take_while-Keeps period now c d t (x ∷ ws) (y ∷ hs) hc hd h k =
    elim (Bool-cases (ltb_ℤ period (now -ℤ x.timestamp))) [
      | inl old ↦ rw old (gone old)
      | inr young ↦ rw young (k.0, take_while-Keeps period now c d y.timestamp ws hs hc hd h.1 k.1)
    ]
  where
    gone : ltb_ℤ period (now -ℤ x.timestamp) ≡ true → Older d (y ∷ hs)
    gone old =
        let y_old : y.timestamp ≤ℤ d = rw (← k.0) (grind int_laws) in
        (y_old, Descending-Older y.timestamp d hs y_old h.1)

-- What `purge` drops is no younger than its period.
pub Keeps-purge :
    (period now c d t : ℤ) (w : LimitWeights) (hs : List LimitWeight)
    → c ≤ℤ d
    → now -ℤ period ≤ℤ d
    → Descending t hs
    → Keeps c w.weights hs
    → Keeps d (purge w period now).weights hs
unfolding purge
Keeps-purge period now c d t w hs hc hd h k =
    rw (drain-eq-take_while (λ x. ltb_ℤ period (now -ℤ x.timestamp)) w.weights)
      (take_while-Keeps period now c d t w.weights hs hc hd h k)
