-- ===== src/OrderSender/Asset.antt =====
-- libs/symm-core/src/assets/asset.rs, `get_base_asset_symbol_workaround`.
-- `str::strip_suffix`, on the reversed texts.
use index_maker.Prelude.{◌==◌, true, false, Option, none, some, List, [], ◌∷◌, reverse}
use index_maker.Bits.{Symbol}

unfoldable pub strip_prefix : Symbol → Symbol → Option Symbol
strip_prefix [] symbol = some symbol
strip_prefix (c ∷ cs) [] = none
strip_prefix (c ∷ cs) (x ∷ xs) = elim (c == x) [ true ↦ strip_prefix cs xs | false ↦ none ]

unfoldable pub strip_suffix : Symbol → Symbol → Option Symbol
strip_suffix suffix symbol = elim (strip_prefix (reverse suffix) (reverse symbol)) [
  | none ↦ none
  | some rest ↦ some (reverse rest)
]

-- "USDC", "USDT" and "EUR".
abbrev pub known_suffixes : List Symbol
known_suffixes = (85 ∷ 83 ∷ 68 ∷ 67 ∷ []) ∷ (85 ∷ 83 ∷ 68 ∷ 84 ∷ []) ∷ (69 ∷ 85 ∷ 82 ∷ []) ∷ []

-- `find_map`
unfoldable pub first_stripped : Symbol → List Symbol → Option Symbol
first_stripped symbol [] = none
first_stripped symbol (s ∷ ss) = elim (strip_suffix s symbol) [
  | none ↦ first_stripped symbol ss
  | some rest ↦ some rest
]

-- `get_base_asset_symbol_workaround`
unfoldable pub base_asset : Symbol → Symbol
base_asset symbol = elim (first_stripped symbol known_suffixes) [ none ↦ symbol | some rest ↦ rest ]
