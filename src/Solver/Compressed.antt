-- ===== src/Solver/Compressed.antt =====
-- src/solver/solver_order/solver_order.rs, `compress_lots`: what is assigned of each lot.
use index_maker.Prelude.{
  ◌==◌, ==_iff, Bool-cases, ◌≡◌, refl, sym, ◌∙◌, inl, inr, Option, none, some, List, [], ◌∷◌, ◌++◌,
  All, reverse, of_some,
}
use index_maker.Prelude.Int.{◌+ℤ◌, ltb_ℤ, parts_of_eq, int_laws}
use index_maker.Decimal.{Amount, zero_amount}
use index_maker.Bits.Symbols.{symbol_eq, symbol_eq→≡, symbol_eq_refl}
use index_maker.Prelude.Keyed.{find_key, put_key, IsTest, of_both}
use index_maker.Solver.Compress.{LotKey, lot_key_eq, LotMap, key_of, place_lot, sorted_lots}
use index_maker.Solver.Lots.{SolverOrderAssetLot}

pub lot_key_eq-IsTest : IsTest lot_key_eq
lot_key_eq-IsTest = record {
  sound = λ (s, i) (t, j) h.
      let (left, right) = of_both (symbol_eq s t) (i == j) h in
      rw (symbol_eq→≡ s t left, (==_iff i j).0 right) refl;
  reflexive = λ (s, i). rw (symbol_eq_refl s, (==_iff i i).1 refl) refl;
}

-- Sums over lots, and over the lots of a map.
abbrev pub total : (SolverOrderAssetLot → Amount) → List SolverOrderAssetLot → Amount
total f [] = zero_amount
total f (lot ∷ lots) = f lot +ℤ total f lots

abbrev pub map_total : (SolverOrderAssetLot → Amount) → LotMap → Amount
map_total f [] = zero_amount
map_total f ((key, lot) ∷ m) = f lot +ℤ map_total f m

abbrev pub share_found : (SolverOrderAssetLot → Amount) → Option SolverOrderAssetLot → Amount
share_found f none = zero_amount
share_found f (some lot) = f lot

total-append :
    (f : SolverOrderAssetLot → Amount) (xs ys : List SolverOrderAssetLot)
    → total f (xs ++ ys) ≡ total f xs +ℤ total f ys
total-append f [] ys = omega int_laws
total-append f (x ∷ xs) ys = let rest = total-append f xs ys in rw rest (omega int_laws)

pub total-reverse :
    (f : SolverOrderAssetLot → Amount) (xs : List SolverOrderAssetLot)
    → total f (reverse xs) ≡ total f xs
total-reverse f [] = refl
total-reverse f (x ∷ xs) =
    let rest = total-reverse f xs in total-append f (reverse xs) (x ∷ []) ∙ rw rest (omega int_laws)

total-place_lot :
    (f : SolverOrderAssetLot → Amount) (lot : SolverOrderAssetLot) (lots : List SolverOrderAssetLot)
    → total f (place_lot lot lots) ≡ f lot +ℤ total f lots
total-place_lot f lot [] = refl
total-place_lot f lot (other ∷ lots) =
    elim (Bool-cases (ltb_ℤ other.assigned_timestamp lot.assigned_timestamp)) [
      | inl before ↦ let rest = total-place_lot f lot lots in rw (before, rest) (omega int_laws)
      | inr after ↦ rw after refl
    ]

pub total-sorted_lots :
    (f : SolverOrderAssetLot → Amount) (m : LotMap) → total f (sorted_lots m) ≡ map_total f m
total-sorted_lots f [] = refl
total-sorted_lots f ((key, lot) ∷ m) =
    total-place_lot f lot (sorted_lots m) ∙ rw (total-sorted_lots f m) refl

-- A lot takes the place of the one that is found.
pub map_total-put_key :
    (f : SolverOrderAssetLot → Amount) (key : LotKey) (lot : SolverOrderAssetLot) (m : LotMap)
    → map_total f (put_key lot_key_eq key lot m) +ℤ share_found f (find_key lot_key_eq key m)
      ≡ map_total f m +ℤ f lot
unfolding put_key find_key
map_total-put_key f key lot [] = omega int_laws
map_total-put_key f key lot ((j, other) ∷ m) = elim (Bool-cases (lot_key_eq j key)) [
  | inl same ↦ rw same (omega int_laws)
  | inr apart ↦
      let rest = map_total-put_key f key lot m in rw apart (omega (int_laws, parts_of_eq _ _ rest))
]

-- The lots of a map stand under their own keys.
abbrev pub Keyed : LotMap → Type 0
Keyed m = All (λ (e : LotKey × SolverOrderAssetLot). key_of e.1 ≡ e.0) m

pub Keyed-put_key :
    (key : LotKey) (lot : SolverOrderAssetLot) (m : LotMap)
    → key_of lot ≡ key
    → Keyed m
    → Keyed (put_key lot_key_eq key lot m)
unfolding put_key
Keyed-put_key key lot [] own h = (own, tt)
Keyed-put_key key lot ((j, other) ∷ m) own h = elim (Bool-cases (lot_key_eq j key)) [
  | inl same ↦ rw same (own ∙ sym (lot_key_eq-IsTest.sound j key same), h.1)
  | inr apart ↦ rw apart (h.0, Keyed-put_key key lot m own h.1)
]

pub Keyed-find_key :
    (key : LotKey) (m : LotMap) {lot : SolverOrderAssetLot}
    → Keyed m
    → find_key lot_key_eq key m ≡ some lot
    → key_of lot ≡ key
unfolding find_key
Keyed-find_key key [] h e = cc
Keyed-find_key key ((j, other) ∷ m) h e = elim (Bool-cases (lot_key_eq j key)) [
  | inl same ↦ rw (← of_some (rw same at e)) (h.0 ∙ lot_key_eq-IsTest.sound j key same)
  | inr apart ↦ Keyed-find_key key m h.1 (rw apart at e)
]
