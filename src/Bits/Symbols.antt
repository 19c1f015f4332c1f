-- ===== src/Bits/Symbols.antt =====
-- `HashMap<Symbol, V>`: a map by symbols, which are texts that are only compared.
use index_maker.Prelude.{
  ◌==◌, if◌then◌else◌, ==_iff, Bool-cases, ◌≡◌, refl, inl, inr, Bool, true, false, ◌&&◌, Option,
  none, some, List, [], ◌∷◌,
}
use index_maker.Bits.{Symbol}

unfoldable pub symbol_eq : Symbol → Symbol → Bool
symbol_eq [] [] = true
symbol_eq [] (y ∷ ys) = false
symbol_eq (x ∷ xs) [] = false
symbol_eq (x ∷ xs) (y ∷ ys) = x == y && symbol_eq xs ys

abbrev pub SymbolMap : Type 0 → Type 0
SymbolMap V = List (Symbol × V)

module _ {V : Type 0} where
  -- `map.get(&symbol)`
  unfoldable pub find_symbol : Symbol → SymbolMap V → Option V
  find_symbol s [] = none
  find_symbol s ((t, v) ∷ m) = if symbol_eq t s then some v else find_symbol s m

  -- `map.insert(symbol, v)`
  unfoldable pub put_symbol : Symbol → V → SymbolMap V → SymbolMap V
  put_symbol s v [] = (s, v) ∷ []
  put_symbol s v ((t, w) ∷ m) = if symbol_eq t s then (t, v) ∷ m else (t, w) ∷ put_symbol s v m

pub symbol_eq→≡ : (s t : Symbol) → symbol_eq s t ≡ true → s ≡ t
unfolding symbol_eq
symbol_eq→≡ [] [] h = refl
symbol_eq→≡ [] (y ∷ ys) h = cc
symbol_eq→≡ (x ∷ xs) [] h = cc
symbol_eq→≡ (x ∷ xs) (y ∷ ys) h = elim (Bool-cases (x == y)) [
  | inl same ↦ let rest = symbol_eq→≡ xs ys (rw same at h) in rw ((==_iff x y).0 same, rest) refl
  | inr other ↦ cc
]

-- Under another symbol nothing has changed.
pub find_symbol-put_symbol :
    {V : Type 0} (s t : Symbol) (v : V) (m : SymbolMap V)
    → symbol_eq t s ≡ false
    → find_symbol s (put_symbol t v m) ≡ find_symbol s m
unfolding find_symbol put_symbol
find_symbol-put_symbol s t v [] h = rw (h, find_symbol) refl
find_symbol-put_symbol s t v ((u, w) ∷ m) h = elim (Bool-cases (symbol_eq u t)) [
  | inl same ↦
      let no : symbol_eq u s ≡ false = rw (symbol_eq→≡ u t same) h in
      rw (same, find_symbol, no) refl
  | inr other ↦ rw (other, find_symbol, find_symbol-put_symbol s t v m h) refl
]

pub symbol_eq_refl : (s : Symbol) → symbol_eq s s ≡ true
unfolding symbol_eq
symbol_eq_refl [] = refl
symbol_eq_refl (x ∷ s) = rw ((==_iff x x).1 refl) (symbol_eq_refl s)

-- Under its own symbol the new value is found.
pub find_symbol-put_self :
    {V : Type 0} (s : Symbol) (v : V) (m : SymbolMap V) → find_symbol s (put_symbol s v m) ≡ some v
unfolding find_symbol put_symbol
find_symbol-put_self s v [] = rw (symbol_eq_refl s, find_symbol) refl
find_symbol-put_self s v ((t, w) ∷ m) = elim (Bool-cases (symbol_eq t s)) [
  | inl same ↦ rw (same, find_symbol, same) refl
  | inr other ↦ rw (other, find_symbol, other, find_symbol-put_self s v m) refl
]

pub find_symbol-nil : {V : Type 0} (s : Symbol) (v : V) → ¬ (find_symbol s [] ≡ some v)
unfolding find_symbol
find_symbol-nil s v h = cc
