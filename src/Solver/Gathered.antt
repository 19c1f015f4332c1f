-- ===== src/Solver/Gathered.antt =====
-- src/solver/solver_order/solver_order.rs, `compress_lots`: one assignment for each lot.
use index_maker.Prelude.{
  if◌then◌else◌, Bool-cases, Option-cases, ◌≡◌, refl, ap, ◌∙◌, inl, inr, some, List, [], ◌∷◌,
  reverse, of_some,
}
use index_maker.Prelude.Int.{◌+ℤ◌, parts_of_eq, int_laws}
use index_maker.Decimal.{Amount, zero_amount, Decimal, IsExact, safe_add, safe_sub}
use index_maker.OrderSender.Asset.{base_asset}
use index_maker.Prelude.Keyed.{find_key}
use index_maker.Solver.Compress.{
  LotKey, lot_key_eq, LotMap, key_of, assigned, merge, file, compress_lot, compress_loop,
  sorted_lots,
}
use index_maker.Solver.Compressed.{
  total, map_total, total-reverse, total-sorted_lots, map_total-put_key, Keyed, Keyed-put_key,
  Keyed-find_key,
}
use index_maker.Solver.Lots.{SolverOrderAssetLot}

-- An amount that counts for one lot.
abbrev pub share_at : LotKey → LotKey → Amount → Amount
share_at key own a = if lot_key_eq own key then a else zero_amount

share_at-add :
    (key own : LotKey) (a b : Amount)
    → share_at key own (a +ℤ b) ≡ share_at key own a +ℤ share_at key own b
share_at-add key own a b = elim (Bool-cases (lot_key_eq own key)) [
  | inl same ↦ rw same refl
  | inr apart ↦ rw apart (omega int_laws)
]

-- The key of a lot once its symbol is that of the base asset.
abbrev pub base_key : SolverOrderAssetLot → LotKey
base_key lot = (base_asset lot.symbol, lot.lot_id)

-- What is assigned of one lot, after and before.
abbrev pub share_of : (SolverOrderAssetLot → Amount) → LotKey → SolverOrderAssetLot → Amount
share_of amount key lot = share_at key (key_of lot) (amount lot)

abbrev pub share_before : (SolverOrderAssetLot → Amount) → LotKey → SolverOrderAssetLot → Amount
share_before amount key lot = share_at key (base_key lot) (amount lot)

module _ ⦃d : Decimal⦄ where
  -- The sums of `merge`.
  pub record Merges (current lot merged : SolverOrderAssetLot) : Type 0 where
    pub quantity : merged.assigned_quantity ≡ current.assigned_quantity +ℤ lot.assigned_quantity
    pub fee : merged.assigned_fee ≡ current.assigned_fee +ℤ lot.assigned_fee
    pub same_key : key_of merged ≡ key_of current

  merge-Merges :
      (exact : IsExact d) (current lot merged : SolverOrderAssetLot)
      → merge current lot ≡ some merged
      → Merges current lot merged
  unfolding merge
  merge-Merges exact current lot merged h =
      elim (Option-cases (safe_add current.assigned_quantity lot.assigned_quantity)) [
        | inl e ↦ cc (rw (e, merge) at h)
        | inr (quantity, e) ↦ elim (Option-cases (safe_add current.assigned_fee lot.assigned_fee)) [
          | inl e' ↦ cc (rw (e, merge, e') at h)
          | inr (fee, e') ↦ rw (← of_some (rw (e, merge, e') at h)) record {
            quantity = exact.add_exact _ _ _ e;
            fee = exact.add_exact _ _ _ e';
            same_key = refl;
          }
        ]
      ]

  module _ (exact : IsExact d) (amount : SolverOrderAssetLot → Amount)
      (keeps : (lot : SolverOrderAssetLot) (r : Amount) → amount (assigned lot r) ≡ amount lot)
      (adds : (current lot merged : SolverOrderAssetLot)
        → Merges current lot merged
        → amount merged ≡ amount current +ℤ amount lot)
      (key : LotKey) where
    share-merged :
        (current lot merged : SolverOrderAssetLot)
        → key_of current ≡ key_of lot
        → Merges current lot merged
        → share_of amount key merged ≡ share_of amount key current +ℤ share_of amount key lot
    share-merged current lot merged same m =
        ap (λ k. share_at key k (amount merged)) m.same_key
        ∙ ap (share_at key (key_of current)) (adds current lot merged m)
        ∙ share_at-add key (key_of current) (amount current) (amount lot)
        ∙ ap (λ k. share_of amount key current +ℤ share_at key k (amount lot)) same

    file-total :
        (lot : SolverOrderAssetLot) (m next : LotMap)
        → Keyed m
        → file lot m ≡ some next
        → Keyed next
          × (map_total (share_of amount key) next
              ≡ map_total (share_of amount key) m +ℤ share_of amount key lot)
    unfolding file
    file-total lot m next keyed h = elim (Option-cases (find_key lot_key_eq (key_of lot) m)) [
      | inl e ↦
          let put = rw e at (map_total-put_key (share_of amount key) (key_of lot) lot m) in
          rw (← of_some (rw (e, file) at h))
            (Keyed-put_key (key_of lot) lot m refl keyed, omega (int_laws, parts_of_eq _ _ put))
      | inr (current, e) ↦ elim (Option-cases (merge current lot)) [
        | inl e' ↦ cc (rw (e, file, e') at h)
        | inr (merged, e') ↦
            let put = rw e at (map_total-put_key (share_of amount key) (key_of lot) merged m) in
            let sums = merge-Merges exact current lot merged e' in
            let own = Keyed-find_key (key_of lot) m keyed e in
            let sum = share-merged current lot merged own sums in
            rw (← of_some (rw (e, file, e') at h)) (
              Keyed-put_key (key_of lot) merged m (sums.same_key ∙ own) keyed,
              omega (int_laws, parts_of_eq _ _ put, parts_of_eq _ _ sum),
            )
      ]
    ]

    pub compress_lot-total :
        (lot : SolverOrderAssetLot) (m next : LotMap)
        → Keyed m
        → compress_lot lot m ≡ some next
        → Keyed next
          × (map_total (share_of amount key) next
              ≡ map_total (share_of amount key) m +ℤ share_before amount key lot)
    unfolding compress_lot
    compress_lot-total lot m next keyed h =
        elim (Option-cases (safe_sub lot.remaining_quantity lot.assigned_quantity)) [
          | inl e ↦ cc (rw (e, compress_lot) at h)
          | inr (remaining, e) ↦
              let (keyed', sum) =
                file-total (assigned lot remaining) m next keyed (rw (e, compress_lot) at h) in
              (
                keyed',
                sum
                    ∙ ap (λ a. map_total (share_of amount key) m +ℤ share_at key (base_key lot) a)
                        (keeps lot remaining),
              )
        ]

    pub compress_loop-total :
        (lots : List SolverOrderAssetLot) (m end : LotMap) (left : List SolverOrderAssetLot)
        → Keyed m
        → compress_loop lots m ≡ (some end, left)
        → map_total (share_of amount key) end
          ≡ map_total (share_of amount key) m +ℤ total (share_before amount key) lots
    unfolding compress_loop
    compress_loop-total [] m end left keyed h =
        let e : m ≡ end = of_some (ap (λ x. x.0) h) in rw (← e) (omega int_laws)
    compress_loop-total (lot ∷ lots) m end left keyed h = elim (Option-cases (compress_lot lot m)) [
      | inl e ↦ let no = ap (λ x. x.0) (rw (e, compress_loop) at h) in cc
      | inr (next, e) ↦
          let (keyed', first) = compress_lot-total lot m next keyed e in
          let rest = compress_loop-total lots next end left keyed' (rw (e, compress_loop) at h) in
          omega (int_laws, parts_of_eq _ _ first, parts_of_eq _ _ rest)
    ]

    pub sorted-total :
        (lots : List SolverOrderAssetLot) (end : LotMap) (left : List SolverOrderAssetLot)
        → compress_loop (reverse lots) [] ≡ (some end, left)
        → total (share_of amount key) (sorted_lots end) ≡ total (share_before amount key) lots
    sorted-total lots end left h =
        let sum = compress_loop-total (reverse lots) [] end left tt h in
        let before = total-reverse (share_before amount key) lots in
        total-sorted_lots (share_of amount key) end
        ∙ omega (int_laws, parts_of_eq _ _ sum, parts_of_eq _ _ before)
