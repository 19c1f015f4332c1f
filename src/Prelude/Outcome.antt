-- ===== src/Prelude/Outcome.antt =====
-- Rust's `Result`, and a method on `&mut self` that may fail: what it wrote before an error stays.
use mathlib.Core.Path.{◌≡◌, refl, ap}
use mathlib.Core.Logic.{◌⊎◌, inl, inr}
use mathlib.Core.Bool.{Bool, true, false}
use mathlib.Core.Option.{Option, none, some}

pub data Result {ℓ κ} (E : Type ℓ) (A : Type κ) : Type (ℓ ⊔ κ) where
  ok : A → Result E A
  err : E → Result E A

abbrev pub Action : Type 0 → Type 0 → Type 0 → Type 0
Action S E A = S → Result E A × S

module _ {S E A : Type 0} where
  abbrev pub pure : A → Action S E A
  pure a s = (ok a, s)

  abbrev pub fail : E → Action S E A
  fail e s = (err e, s)

  -- `option.ok_or(e)?`
  abbrev pub or_fail : Option A → E → Action S E A
  or_fail none e s = (err e, s)
  or_fail (some a) e s = (ok a, s)

  abbrev pub gets : (S → A) → Action S E A
  gets f s = (ok (f s), s)

abbrev pub modify : {S E : Type 0} → (S → S) → Action S E (Unit {0})
modify f s = (ok tt, f s)

infixl 5 ◌>>=◌ ◌>>◌
abbrev pub ◌>>=◌ : {S E A B : Type 0} → Action S E A → (A → Action S E B) → Action S E B
◌>>=◌ m f s = let (r, t) = m s in elim r [ ok a ↦ f a t | err e ↦ (err e, t) ]

abbrev pub ◌>>◌ : {S E A B : Type 0} → Action S E A → Action S E B → Action S E B
m >> k = m >>= λ _. k

abbrev pub is_none {ℓ} : {A : Type ℓ} → Option A → Bool
is_none none = true
is_none (some a) = false

-- `option.ok_or(e)`
abbrev pub ok_or {ℓ κ} : {A : Type ℓ} {E : Type κ} → Option A → E → Result E A
ok_or none e = err e
ok_or (some a) e = ok a

-- `Option::and_then`, and `?` on an option.
abbrev pub if_some {ℓ κ} : {A : Type ℓ} {B : Type κ} → Option A → (A → Option B) → Option B
if_some none f = none
if_some (some a) f = f a

-- `Result::and_then`
abbrev pub and_then {ℓ κ μ} :
    {E : Type ℓ} {A : Type κ} {B : Type μ} → Result E A → (A → Result E B) → Result E B
and_then (ok a) f = f a
and_then (err e) f = err e

-- `fold_while` of itertools stops at the first `done`.
pub data FoldWhile (A : Type 0) : Type 0 where
  continue : A → FoldWhile A
  done : A → FoldWhile A

-- What holds of the state after `m`, and after `k` from any state that it holds of, holds after both.
pub bind_holds :
    {S E A B : Type 0} (P : S → Type 0) (m : Action S E A) (k : A → Action S E B) (s : S)
    → P (m s).1
    → ((a : A) (t : S) → P t → P (k a t).1)
    → P ((m >>= k) s).1
bind_holds {S} {E} {A} {B} P m k s h next = go (m s) h
  where
    go :
        (r : Result E A × S)
        → P r.1
        → P (elim r.0 as (λ _. Result E B × S) [ ok a ↦ k a r.1 | err e ↦ (err e, r.1) ]).1
    go (ok a, t) p = next a t p
    go (err e, t) p = p

-- `some` is injective.
pub of_some : {A : Type 0} {a b : A} → some a ≡ some b → a ≡ b
of_some h = cc

-- So is `ok`.
pub of_ok : {E A : Type 0} {a b : A} → ◌≡◌ {A = Result E A} (ok a) (ok b) → a ≡ b
of_ok h = cc

-- To split on a computed result and keep the equation.
pub Result-cases :
    {E A : Type 0} (r : Result E A) → ((e : E) × (r ≡ err e)) ⊎ ((a : A) × (r ≡ ok a))
Result-cases (ok a) = inr (a, refl)
Result-cases (err e) = inl (e, refl)

-- After a step that succeeds the rest runs from its state.
pub bind_ok :
    {S E A B : Type 0} (m : Action S E A) (k : A → Action S E B) (s : S) {a : A} {t : S}
    → m s ≡ (ok a, t)
    → (m >>= k) s ≡ k a t
bind_ok {S} {E} {A} {B} m k s h =
    ap (λ r. elim r.0 as (λ _. Result E B × S) [ ok a ↦ k a r.1 | err e ↦ (err e, r.1) ]) h

-- After a step that fails nothing runs.
pub bind_err :
    {S E A B : Type 0} (m : Action S E A) (k : A → Action S E B) (s : S) {e : E} {t : S}
    → m s ≡ (err e, t)
    → (m >>= k) s ≡ (err e, t)
bind_err {S} {E} {A} {B} m k s h =
    ap (λ r. elim r.0 as (λ _. Result E B × S) [ ok a ↦ k a r.1 | err e ↦ (err e, r.1) ]) h

pub of_err : {E A : Type 0} {a b : E} → ◌≡◌ {A = Result E A} (err a) (err b) → a ≡ b
of_err h = cc
