-- ===== src/MarketData/Stable.antt =====
-- A stable partition in the place of the one that `get_prices` of
-- libs/symm-core/src/market_data/price_tracker.rs calls, as a concrete one for tests.
use mathlib.Core.List.{Memᴰ}
use index_maker.Prelude.{
  if◌then◌else◌, Bool-cases, ◌≡◌, refl, ap, ◌⊎◌, inl, inr, Bool, true, false, not, List, [], ◌∷◌,
  ◌++◌, length, take, drop, All, All-map, Memᴰ-of_append,
}
use index_maker.Bits.{Symbol}
use index_maker.MarketData.Priced.{IsPartition}
use index_maker.MarketData.Prices.{Partition}

abbrev keep : (Symbol → Bool) → List Symbol → List Symbol
keep test [] = []
keep test (s ∷ l) = if test s then s ∷ keep test l else keep test l

unfoldable pub stable : Partition
stable = record {
  visited = λ l. l;
  arrange = λ test l. (keep test l ++ keep (λ s. not (test s)) l, length (keep test l));
}

module _ {A : Type 0} (xs ys : List A) where
  take-append : take (length xs) (xs ++ ys) ≡ xs
  take-append = go xs
    where
      go : (xs : List A) → take (length xs) (xs ++ ys) ≡ xs
      go [] = refl
      go (x ∷ xs) = ap (λ l. x ∷ l) (go xs)

  drop-append : drop (length xs) (xs ++ ys) ≡ ys
  drop-append = go xs
    where
      go : (xs : List A) → drop (length xs) (xs ++ ys) ≡ ys
      go [] = refl
      go (x ∷ xs) = go xs

All-keep : (test : Symbol → Bool) (l : List Symbol) → All (λ s. test s ≡ true) (keep test l)
All-keep test [] = tt
All-keep test (s ∷ l) = elim (Bool-cases (test s)) [
  | inl h ↦ rw h (h, All-keep test l)
  | inr h ↦ rw h (All-keep test l)
]

of_not : (b : Bool) → not b ≡ true → b ≡ false
of_not true h = cc
of_not false h = refl

Memᴰ-of_if :
    (b : Bool) (s t : Symbol) (l : List Symbol)
    → Memᴰ s (if b then t ∷ l else l)
    → (s ≡ t) ⊎ Memᴰ s l
Memᴰ-of_if true s t l (Memᴰ.head e) = inl e
Memᴰ-of_if true s t l (Memᴰ.tail m) = inr m
Memᴰ-of_if false s t l m = inr m

module _ {s : Symbol} where
  Memᴰ-of_keep : (test : Symbol → Bool) (l : List Symbol) → Memᴰ s (keep test l) → Memᴰ s l
  Memᴰ-of_keep test [] m = m
  Memᴰ-of_keep test (t ∷ l) m = elim (Memᴰ-of_if (test t) s t (keep test l) m) [
    | inl e ↦ Memᴰ.head e
    | inr rest ↦ Memᴰ.tail (Memᴰ-of_keep test l rest)
  ]

  Memᴰ-keep :
      (test : Symbol → Bool) (l : List Symbol) → test s ≡ true → Memᴰ s l → Memᴰ s (keep test l)
  Memᴰ-keep test (t ∷ l) h (Memᴰ.head e) = rw (← e, h) (Memᴰ.head refl)
  Memᴰ-keep test (t ∷ l) h (Memᴰ.tail m) = elim (Bool-cases (test t)) [
    | inl yes_t ↦ rw yes_t (Memᴰ.tail (Memᴰ-keep test l h m))
    | inr no_t ↦ rw no_t (Memᴰ-keep test l h m)
  ]
  Memᴰ-keep test [] h m = elim m [ ]

  Memᴰ-left : (xs ys : List Symbol) → Memᴰ s xs → Memᴰ s (xs ++ ys)
  Memᴰ-left (x ∷ xs) ys (Memᴰ.head e) = Memᴰ.head e
  Memᴰ-left (x ∷ xs) ys (Memᴰ.tail m) = Memᴰ.tail (Memᴰ-left xs ys m)
  Memᴰ-left [] ys m = elim m [ ]

  Memᴰ-right : (xs ys : List Symbol) → Memᴰ s ys → Memᴰ s (xs ++ ys)
  Memᴰ-right [] ys m = m
  Memᴰ-right (x ∷ xs) ys m = Memᴰ.tail (Memᴰ-right xs ys m)

pub stable-IsPartition : IsPartition stable
unfolding stable
stable-IsPartition = record {
  sees = λ s l. (λ m. m, λ m. m);
  moves = λ s test l. (
    λ m. elim (Memᴰ-of_append s (keep test l) _ m) [
      | inl kept ↦ Memᴰ-of_keep test l kept
      | inr rest ↦ Memᴰ-of_keep (λ t. not (test t)) l rest
    ],
    λ m. elim (Bool-cases (test s)) [
      | inl h ↦ Memᴰ-left (keep test l) _ (Memᴰ-keep test l h m)
      | inr h ↦ Memᴰ-right (keep test l) _ (Memᴰ-keep (λ t. not (test t)) l (rw h refl) m)
    ],
  );
  front = λ test l. rw (take-append (keep test l) (keep (λ s. not (test s)) l)) (All-keep test l);
  back = λ test l.
      rw (drop-append (keep test l) (keep (λ s. not (test s)) l))
        (All-map _ _ (λ s h. of_not (test s) h) _ (All-keep (λ s. not (test s)) l));
}
