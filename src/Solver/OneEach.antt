-- ===== src/Solver/OneEach.antt =====
-- src/solver/solver_order/solver_order.rs, `compress_lots`: no lot has two assignments.
use index_maker.Prelude.{
  Bool-cases, Option-cases, ◌≡◌, sym, ap, ◌∙◌, ◌≢◌, inl, inr, false, some, List, [], ◌∷◌, All,
  All-map, Pairwise, All-both, of_some,
}
use index_maker.Prelude.Int.{ltb_ℤ}
use index_maker.Decimal.{Decimal, safe_sub}
use index_maker.Prelude.Keyed.{find_key, put_key}
use index_maker.Solver.Compress.{
  LotKey, lot_key_eq, LotMap, key_of, assigned, merge, file, compress_lot, compress_loop, place_lot,
  sorted_lots,
}
use index_maker.Solver.Compressed.{lot_key_eq-IsTest, Keyed}
use index_maker.Solver.Lots.{SolverOrderAssetLot}

-- The keys of a map are different.
abbrev pub IsMap : LotMap → Type 0
IsMap m = Pairwise (λ (a b : LotKey × SolverOrderAssetLot). a.0 ≢ b.0) m

All-put_other :
    (j key : LotKey) (lot : SolverOrderAssetLot) (m : LotMap)
    → j ≢ key
    → All (λ (e : LotKey × SolverOrderAssetLot). j ≢ e.0) m
    → All (λ (e : LotKey × SolverOrderAssetLot). j ≢ e.0) (put_key lot_key_eq key lot m)
unfolding put_key
All-put_other j key lot [] apart h = (apart, tt)
All-put_other j key lot ((l, other) ∷ m) apart h = elim (Bool-cases (lot_key_eq l key)) [
  | inl same ↦ rw same (h.0, h.1)
  | inr different ↦ rw different (h.0, All-put_other j key lot m apart h.1)
]

lot_key_eq-apart : (j key : LotKey) → lot_key_eq j key ≡ false → j ≢ key
lot_key_eq-apart j key h e = let same = lot_key_eq-IsTest.reflexive key in let no = rw e at h in cc

IsMap-put_key :
    (key : LotKey) (lot : SolverOrderAssetLot) (m : LotMap)
    → IsMap m
    → IsMap (put_key lot_key_eq key lot m)
unfolding put_key
IsMap-put_key key lot [] h = (tt, tt)
IsMap-put_key key lot ((j, other) ∷ m) h = elim (Bool-cases (lot_key_eq j key)) [
  | inl same ↦ rw same (h.0, h.1)
  | inr different ↦ rw different (
    All-put_other j key lot m (lot_key_eq-apart j key different) h.0,
    IsMap-put_key key lot m h.1,
  )
]

module _ ⦃d : Decimal⦄ where
  file-IsMap :
      (lot : SolverOrderAssetLot) (m next : LotMap) → IsMap m → file lot m ≡ some next → IsMap next
  unfolding file
  file-IsMap lot m next h e = elim (Option-cases (find_key lot_key_eq (key_of lot) m)) [
    | inl f ↦ rw (← of_some (rw (f, file) at e)) (IsMap-put_key (key_of lot) lot m h)
    | inr (current, f) ↦ elim (Option-cases (merge current lot)) [
      | inl f' ↦ cc (rw (f, file, f') at e)
      | inr (merged, f') ↦
          rw (← of_some (rw (f, file, f') at e)) (IsMap-put_key (key_of lot) merged m h)
    ]
  ]

  pub compress_lot-IsMap :
      (lot : SolverOrderAssetLot) (m next : LotMap)
      → IsMap m
      → compress_lot lot m ≡ some next
      → IsMap next
  unfolding compress_lot
  compress_lot-IsMap lot m next h e =
      elim (Option-cases (safe_sub lot.remaining_quantity lot.assigned_quantity)) [
        | inl f ↦ cc (rw (f, compress_lot) at e)
        | inr (remaining, f) ↦
            file-IsMap (assigned lot remaining) m next h (rw (f, compress_lot) at e)
      ]

  -- What holds of the map before a lot holds after it, and so after all.
  pub compress_loop-holds :
      (P : LotMap → Type 0)
      → ((lot : SolverOrderAssetLot) (m next : LotMap)
          → P m
          → compress_lot lot m ≡ some next
          → P next)
      → (lots : List SolverOrderAssetLot) (m end : LotMap) (left : List SolverOrderAssetLot) → P m
      → compress_loop lots m ≡ (some end, left)
      → P end
  unfolding compress_loop
  compress_loop-holds P keeps [] m end left h e = rw (← of_some (ap (λ x. x.0) e)) h
  compress_loop-holds P keeps (lot ∷ lots) m end left h e =
      elim (Option-cases (compress_lot lot m)) [
        | inl f ↦ let no = ap (λ x. x.0) (rw (f, compress_loop) at e) in cc
        | inr (next, f) ↦
            compress_loop-holds P keeps lots next end left (keeps lot m next h f)
              (rw (f, compress_loop) at e)
      ]

All-place_lot :
    (P : SolverOrderAssetLot → Type 0) (lot : SolverOrderAssetLot) (lots : List SolverOrderAssetLot)
    → P lot
    → All P lots
    → All P (place_lot lot lots)
All-place_lot P lot [] p h = (p, tt)
All-place_lot P lot (other ∷ lots) p h =
    elim (Bool-cases (ltb_ℤ other.assigned_timestamp lot.assigned_timestamp)) [
      | inl before ↦ rw before (h.0, All-place_lot P lot lots p h.1)
      | inr after ↦ rw after (p, h)
    ]

All-sorted_lots :
    (P : SolverOrderAssetLot → Type 0) (m : LotMap)
    → All (λ (e : LotKey × SolverOrderAssetLot). P e.1) m
    → All P (sorted_lots m)
All-sorted_lots P [] h = tt
All-sorted_lots P ((key, lot) ∷ m) h =
    All-place_lot P lot (sorted_lots m) h.0 (All-sorted_lots P m h.1)

-- No two assignments are of one lot.
abbrev pub IsSingle : List SolverOrderAssetLot → Type 0
IsSingle lots = Pairwise (λ a b. key_of a ≢ key_of b) lots

IsSingle-place_lot :
    (lot : SolverOrderAssetLot) (lots : List SolverOrderAssetLot)
    → All (λ b. key_of lot ≢ key_of b) lots
    → IsSingle lots
    → IsSingle (place_lot lot lots)
IsSingle-place_lot lot [] a h = (tt, tt)
IsSingle-place_lot lot (other ∷ lots) a h =
    elim (Bool-cases (ltb_ℤ other.assigned_timestamp lot.assigned_timestamp)) [
      | inl before ↦ rw before (
        All-place_lot (λ b. key_of other ≢ key_of b) lot lots (λ e. a.0 (sym e)) h.0,
        IsSingle-place_lot lot lots a.1 h.1,
      )
      | inr after ↦ rw after (a, h)
    ]

pub sorted_lots-IsSingle : (m : LotMap) → IsMap m → Keyed m → IsSingle (sorted_lots m)
sorted_lots-IsSingle [] h keyed = tt
sorted_lots-IsSingle ((key, lot) ∷ m) h keyed =
    IsSingle-place_lot lot (sorted_lots m)
      (All-sorted_lots (λ b. key_of lot ≢ key_of b) m
        (All-map _ _ (λ e (apart, own) same. apart (sym keyed.0 ∙ same ∙ own)) m
          (All-both _ _ m h.0 keyed.1)))
      (sorted_lots-IsSingle m h.1 keyed.1)
