-- ===== src/SafeUpdate/Atomic.antt =====
-- arcswaputil.rs: `safe_update` takes effect at one instant.
-- The value after the first `k` lists of the schedule.
use index_maker.Prelude.{
  ◌==◌, ==_iff, Bool-cases, ℕ, zero, suc, ◌+◌, ◌≡◌, refl, sym, ap, ◌⊎◌, inl, inr, List, [], ◌∷◌,
  arith, length, Result, ok, err, Action,
}
use index_maker.SafeUpdate.{ArcSwap, stored, interfere, try_swap, swapped, safe_update}

unfoldable pub disturbed : {T : Type 0} → ℕ → List (List T) → ArcSwap T → ArcSwap T
disturbed zero schedule s = s
disturbed (suc k) [] s = s
disturbed (suc k) (others ∷ schedule) s = disturbed k schedule (interfere others s)

-- Either the update was computed from the very value that it replaced, and is the last write, or it
-- failed on a value that was current, and only the other writers have written.
abbrev pub Atomic :
    {T E R : Type 0}
    → Action T E R
    → List (List T)
    → ArcSwap T
    → Result E R × ArcSwap T
    → ℕ
    → Type 0
Atomic f schedule s (ok r, s') k =
    let u = disturbed k schedule s in ((f u.value).0 ≡ ok r) × (s' ≡ stored (f u.value).1 u)
Atomic f schedule s (err e, s') k =
    ((f (disturbed k schedule s).value).0 ≡ err e)
    × ((s' ≡ disturbed k schedule s) ⊎ (s' ≡ disturbed (suc k) schedule s))

module _ {T : Type 0} where
  interfere-version :
      (vs : List T) (s : ArcSwap T) → (interfere vs s).version ≡ s.version + length vs
  unfolding interfere
  interfere-version [] s = omega arith
  interfere-version (v ∷ vs) s = let rec = interfere-version vs (stored v s) in omega arith

  undisturbed :
      (vs : List T) (s : ArcSwap T) → (interfere vs s).version ≡ s.version → interfere vs s ≡ s
  unfolding interfere
  undisturbed [] s e = refl
  undisturbed (v ∷ vs) s e = let long = interfere-version vs (stored v s) in absurd (omega arith)

module _ {T E R : Type 0} where
  -- Whatever other writers store between the loads and the swaps of its loop: an update that
  -- `safe_update` reports as done was computed from the very value that it replaced, so that no
  -- write is lost, and one that it reports as failed was refused on a value that was current and
  -- has written nothing.
  pub safe_update-Atomic :
      (f : Action T E R) (schedule : List (List T)) (s : ArcSwap T)
      → (k : ℕ) × Atomic f schedule s (safe_update f schedule s) k
  unfolding safe_update swapped try_swap disturbed
  safe_update-Atomic f [] s = go (f s.value) refl
    where
      go : (r : Result E R × T) → f s.value ≡ r → (k : ℕ) × Atomic f [] s (swapped r s) k
      go (ok r, v) q = (0, (ap (λ x. x.0) q, ap (λ x. stored x.1 s) (sym q)))
      go (err e, v) q = (0, (ap (λ x. x.0) q, inl refl))
  safe_update-Atomic f (others ∷ schedule) s =
      go (f s.value) refl (safe_update-Atomic f schedule (interfere others s))
    where
      later :
          (r : Result E R × ArcSwap T) (k : ℕ)
          → Atomic f schedule (interfere others s) r k
          → Atomic f (others ∷ schedule) s r (suc k)
      later (ok r, s') k h = h
      later (err e, s') k h = h

      go :
          (r : Result E R × T)
          → f s.value ≡ r
          → ((k : ℕ) × Atomic f schedule
                (interfere others s)
                (safe_update f schedule (interfere others s))
                k)
          → (k : ℕ) × Atomic f
              (others ∷ schedule)
              s
              (try_swap r s (interfere others s) (safe_update f schedule (interfere others s)))
              k
      go (err e, v) q rec = (0, (ap (λ x. x.0) q, inr refl))
      go (ok r, v) q (k, rec) = elim (Bool-cases ((interfere others s).version == s.version)) [
        | inl alone ↦
            let same = undisturbed others s ((==_iff _ _).0 alone) in
            (0, rw (alone, try_swap) (ap (λ x. x.0) q, rw same (ap (λ x. stored x.1 s) (sym q))))
        | inr changed ↦ (
          suc k,
          rw (changed, try_swap) (later (safe_update f schedule (interfere others s)) k rec),
        )
      ]
