-- ===== src/Prelude/Keyed.antt =====
-- A `HashMap` whose keys are compared by a test.
use mathlib.Core.Path.{◌≡◌, refl}
use mathlib.Core.Bool.{Bool, true, false, ◌&&◌}
use mathlib.Core.Logic.{inl, inr}
use mathlib.Core.List.{List, [], ◌∷◌}
use mathlib.Core.Option.{Option, none, some}
use index_maker.Prelude.Tests.{if◌then◌else◌, Bool-cases}
use index_maker.Prelude.Lists.{All}
use index_maker.Prelude.Outcome.{of_some}

module _ {K V : Type 0} (eq : K → K → Bool) where
  unfoldable pub find_key : K → List (K × V) → Option V
  find_key k [] = none
  find_key k ((j, v) ∷ m) = if eq j k then some v else find_key k m

  unfoldable pub put_key : K → V → List (K × V) → List (K × V)
  put_key k v [] = (k, v) ∷ []
  put_key k v ((j, w) ∷ m) = if eq j k then (j, v) ∷ m else (j, w) ∷ put_key k v m

  pub find_key-put_self :
      (k : K) (v : V) (m : List (K × V)) → eq k k ≡ true → find_key k (put_key k v m) ≡ some v
  unfolding find_key put_key
  find_key-put_self k v [] h = rw (h, find_key) refl
  find_key-put_self k v ((j, w) ∷ m) h = elim (Bool-cases (eq j k)) [
    | inl same ↦ rw (same, find_key, same) refl
    | inr other ↦ rw (other, find_key, other, find_key-put_self k v m h) refl
  ]

module _ {K V : Type 0} (eq : K → K → Bool) (P : V → Type 0) where
  pub All-put_key :
      (k : K) (v : V) (m : List (K × V))
      → P v
      → All (λ (e : K × V). P e.1) m
      → All (λ (e : K × V). P e.1) (put_key eq k v m)
  unfolding put_key
  All-put_key k v [] pv h = (pv, tt)
  All-put_key k v ((j, w) ∷ m) pv h = elim (Bool-cases (eq j k)) [
    | inl same ↦ rw same (pv, h.1)
    | inr other ↦ rw other (h.0, All-put_key k v m pv h.1)
  ]

  pub All-find_key :
      (k : K) (m : List (K × V)) {v : V}
      → All (λ (e : K × V). P e.1) m
      → find_key eq k m ≡ some v
      → P v
  unfolding find_key
  All-find_key k [] h e = cc
  All-find_key k ((j, w) ∷ m) h e = elim (Bool-cases (eq j k)) [
    | inl same ↦ rw (← of_some (rw same at e)) h.0
    | inr other ↦ All-find_key k m h.1 (rw other at e)
  ]

module _ {K V : Type 0} (eq : K → K → Bool) where
  unfoldable pub erase_key : K → List (K × V) → List (K × V)
  erase_key k [] = []
  erase_key k ((j, w) ∷ m) = if eq j k then erase_key k m else (j, w) ∷ erase_key k m

  pub find_key-erase_self : (k : K) (m : List (K × V)) → find_key eq k (erase_key k m) ≡ none
  unfolding find_key erase_key
  find_key-erase_self k [] = refl
  find_key-erase_self k ((j, w) ∷ m) = elim (Bool-cases (eq j k)) [
    | inl same ↦ rw same (find_key-erase_self k m)
    | inr other ↦ rw (other, find_key, other) (find_key-erase_self k m)
  ]

-- A test that decides equality.
pub record IsTest {K : Type 0} (eq : K → K → Bool) : Type 0 where
  pub sound : (j k : K) → eq j k ≡ true → j ≡ k
  pub reflexive : (k : K) → eq k k ≡ true

module _ {K V : Type 0} (eq : K → K → Bool) (test : IsTest eq) where
  pub find_key-put_other :
      (k i : K) (v : V) (m : List (K × V))
      → eq k i ≡ false
      → find_key eq i (put_key eq k v m) ≡ find_key eq i m
  unfolding find_key put_key
  find_key-put_other k i v [] h = rw (h, find_key) refl
  find_key-put_other k i v ((j, w) ∷ m) h = elim (Bool-cases (eq j k)) [
    | inl same ↦
        let no : eq j i ≡ false = rw (test.sound j k same) h in rw (same, find_key, no) refl
    | inr other ↦ rw (other, find_key, find_key-put_other k i v m h) refl
  ]

  pub find_key-erase_other :
      (k i : K) (m : List (K × V))
      → eq k i ≡ false
      → find_key eq i (erase_key eq k m) ≡ find_key eq i m
  unfolding find_key erase_key
  find_key-erase_other k i [] h = refl
  find_key-erase_other k i ((j, w) ∷ m) h = elim (Bool-cases (eq j k)) [
    | inl same ↦
        let no : eq j i ≡ false = rw (test.sound j k same) h in
        rw (same, no) (find_key-erase_other k i m h)
    | inr other ↦ rw (other, find_key, find_key-erase_other k i m h) refl
  ]

-- A test of pairs holds of both parts.
pub of_both : (a b : Bool) → (a && b) ≡ true → (a ≡ true) × (b ≡ true)
of_both true true h = (refl, refl)
of_both true false h = cc
of_both false b h = cc
