-- ===== src/SafeUpdate.antt =====
-- libs/symm-core/src/core/arcswaputil.rs: a shared value that is replaced by read, compute and
-- compare-and-swap. The pointers that the source compares stand as version numbers: no two stores
-- put the same pointer there while a reader holds the first.
pub mod Atomic
use index_maker.Prelude.{◌==◌, if◌then◌else◌, ℕ, ◌+◌, List, [], ◌∷◌, Result, ok, err, Action}

-- `ArcSwapAny<Arc<T>>`
pub record ArcSwap (T : Type 0) : Type 0 where
  pub version : ℕ
  pub value : T

-- `compare_and_swap` that succeeds, and what other writers do.
abbrev pub stored : {T : Type 0} → T → ArcSwap T → ArcSwap T
stored v s = record { version = s.version + 1; value = v }

-- The values that other writers store between a load and the compare-and-swap that follows.
unfoldable pub interfere : {T : Type 0} → List T → ArcSwap T → ArcSwap T
interfere [] s = s
interfere (v ∷ vs) s = interfere vs (stored v s)

module _ {T E R : Type 0} where
  -- The compare-and-swap, and what is done when it fails.
  unfoldable pub try_swap :
      Result E R × T → ArcSwap T → ArcSwap T → Result E R × ArcSwap T → Result E R × ArcSwap T
  try_swap (err e, v) loaded current retry = (err e, current)
  try_swap (ok r, v) loaded current retry =
      if current.version == loaded.version then (ok r, stored v current) else retry

  -- An iteration that no other writer disturbs, whose compare-and-swap succeeds.
  unfoldable pub swapped : Result E R × T → ArcSwap T → Result E R × ArcSwap T
  swapped (err e, v) s = (err e, s)
  swapped (ok r, v) s = (ok r, stored v s)

  -- `safe_update`: the loop meets each list of the schedule once, and no other writer after its end.
  unfoldable pub safe_update : Action T E R → List (List T) → ArcSwap T → Result E R × ArcSwap T
  safe_update f [] s = swapped (f s.value) s
  safe_update f (others ∷ schedule) s =
      let current = interfere others s in
      try_swap (f s.value) s current (safe_update f schedule current)
