-- ===== src/Prelude/Lists.antt =====
-- Lists measured by native numbers, and the walks that the Rust iterators make.
use Prim.Native.Nat.{ℕ, zero, suc, ◌+◌}
use mathlib.Core.Path.{◌≡◌}
use mathlib.Core.Bool.{Bool, true, false, ◌&&◌, ◌||◌}
use mathlib.Core.List.{Memᴰ, List, [], ◌∷◌, ◌++◌}
use mathlib.Core.Logic.{◌⊎◌, inl, inr}
use mathlib.Core.Option.{Option, none, some}
use native.Mathlib.Omega.{arith}
use index_maker.Prelude.Tests.{if◌then◌else◌}

module _ {ℓ} {A : Type ℓ} where
  abbrev pub length : List A → ℕ
  length [] = 0
  length (x ∷ xs) = suc (length xs)

  abbrev pub take : ℕ → List A → List A
  take zero xs = []
  take (suc n) [] = []
  take (suc n) (x ∷ xs) = x ∷ take n xs

  abbrev pub drop : ℕ → List A → List A
  drop zero xs = xs
  drop (suc n) [] = []
  drop (suc n) (x ∷ xs) = drop n xs

  -- `Iterator::take_while`
  abbrev pub take_while : (A → Bool) → List A → List A
  take_while p [] = []
  take_while p (x ∷ xs) = if p x then x ∷ take_while p xs else []

  -- `Vec::last`
  abbrev pub last : List A → Option A
  last [] = none
  last (x ∷ []) = some x
  last (x ∷ y ∷ xs) = last (y ∷ xs)

  -- `Iterator::all`
  abbrev pub all : (A → Bool) → List A → Bool
  all p [] = true
  all p (x ∷ xs) = p x && all p xs

  -- `Iterator::any`
  abbrev pub any : (A → Bool) → List A → Bool
  any p [] = false
  any p (x ∷ xs) = p x || any p xs

  -- A predicate of every element, by recursion.
  abbrev pub All {κ} : (A → Type κ) → List A → Type κ
  All P [] = Unit
  All P (x ∷ xs) = P x × All P xs

  pub length-append : (xs ys : List A) → length (xs ++ ys) ≡ length xs + length ys
  length-append [] ys = omega arith
  length-append (x ∷ xs) ys = omega (arith, length-append xs ys)

pub All-map {ℓ κ μ} :
    {A : Type ℓ} (P : A → Type κ) (Q : A → Type μ)
    → ((x : A) → P x → Q x)
    → (xs : List A) → All P xs
    → All Q xs
All-map P Q f [] h = tt
All-map P Q f (x ∷ xs) h = (f x h.0, All-map P Q f xs h.1)

module _ {ℓ} {A : Type ℓ} where
  -- `iter().rev()`
  abbrev pub reverse : List A → List A
  reverse [] = []
  reverse (x ∷ xs) = reverse xs ++ x ∷ []

  -- A relation of every element to every later one.
  abbrev pub Pairwise {κ} : (A → A → Type κ) → List A → Type κ
  Pairwise R [] = Unit
  Pairwise R (x ∷ xs) = All (R x) xs × Pairwise R xs

module _ {ℓ κ} {A : Type ℓ} (P : A → Type κ) where
  pub All-append : (xs ys : List A) → All P xs → All P ys → All P (xs ++ ys)
  All-append [] ys hx hy = hy
  All-append (x ∷ xs) ys hx hy = (hx.0, All-append xs ys hx.1 hy)

  pub All-of_append : (xs ys : List A) → All P (xs ++ ys) → All P xs × All P ys
  All-of_append [] ys h = (tt, h)
  All-of_append (x ∷ xs) ys h = let (hx, hy) = All-of_append xs ys h.1 in ((h.0, hx), hy)

module _ {ℓ κ} {A : Type ℓ} (R : A → A → Type κ) where
  -- Every element of `xs` to every element of `ys`.
  abbrev pub Across : List A → List A → Type κ
  Across xs ys = All (λ x. All (R x) ys) xs

  pub Pairwise-append :
      (xs ys : List A) → Pairwise R xs → Pairwise R ys → Across xs ys → Pairwise R (xs ++ ys)
  Pairwise-append [] ys hx hy c = hy
  Pairwise-append (x ∷ xs) ys hx hy c =
      (All-append (R x) xs ys hx.0 c.0, Pairwise-append xs ys hx.1 hy c.1)

  pub Pairwise-of_append :
      (xs ys : List A) → Pairwise R (xs ++ ys) → Pairwise R xs × Pairwise R ys × Across xs ys
  Pairwise-of_append [] ys h = (tt, h, tt)
  Pairwise-of_append (x ∷ xs) ys h =
      let (hx, hy, c) = Pairwise-of_append xs ys h.1 in
      let (left, right) = All-of_append (R x) xs ys h.0 in ((left, hx), hy, (right, c))

pub All-both {ℓ κ μ} :
    {A : Type ℓ} (P : A → Type κ) (Q : A → Type μ) (xs : List A)
    → All P xs
    → All Q xs
    → All (λ x. P x × Q x) xs
All-both P Q [] hp hq = tt
All-both P Q (x ∷ xs) hp hq = ((hp.0, hq.0), All-both P Q xs hp.1 hq.1)

pub All-reverse {ℓ κ} : {A : Type ℓ} (P : A → Type κ) (xs : List A) → All P xs → All P (reverse xs)
All-reverse P [] h = tt
All-reverse P (x ∷ xs) h = All-append P (reverse xs) (x ∷ []) (All-reverse P xs h.1) (h.0, tt)

pub Pairwise-reverse {ℓ κ} :
    {A : Type ℓ} (R : A → A → Type κ) (xs : List A)
    → Pairwise R xs
    → Pairwise (λ x y. R y x) (reverse xs)
Pairwise-reverse R [] h = tt
Pairwise-reverse R (x ∷ xs) h =
    Pairwise-append (λ x y. R y x) (reverse xs) (x ∷ []) (Pairwise-reverse R xs h.1) (tt, tt)
      (All-map _ _ (λ y r. (r, tt)) (reverse xs) (All-reverse (R x) xs h.0))

pub All-of_reverse {ℓ κ} :
    {A : Type ℓ} (P : A → Type κ) (xs : List A) → All P (reverse xs) → All P xs
All-of_reverse P [] h = tt
All-of_reverse P (x ∷ xs) h =
    let (rest, first) = All-of_append P (reverse xs) (x ∷ []) h in
    (first.0, All-of_reverse P xs rest)

module _ {ℓ} {A : Type ℓ} (a : A) where
  pub Memᴰ-of_append : (xs ys : List A) → Memᴰ a (xs ++ ys) → Memᴰ a xs ⊎ Memᴰ a ys
  Memᴰ-of_append [] ys m = inr m
  Memᴰ-of_append (x ∷ xs) ys (Memᴰ.head e) = inl (Memᴰ.head e)
  Memᴰ-of_append (x ∷ xs) ys (Memᴰ.tail m) = elim (Memᴰ-of_append xs ys m) [
    | inl left ↦ inl (Memᴰ.tail left)
    | inr right ↦ inr right
  ]

  pub Memᴰ-of_reverse : (xs : List A) → Memᴰ a (reverse xs) → Memᴰ a xs
  Memᴰ-of_reverse [] m = m
  Memᴰ-of_reverse (x ∷ xs) m = elim (Memᴰ-of_append (reverse xs) (x ∷ []) m) [
    | inl rest ↦ Memᴰ.tail (Memᴰ-of_reverse xs rest)
    | inr (Memᴰ.head e) ↦ Memᴰ.head e
    | inr (Memᴰ.tail none_left) ↦ elim none_left [ ]
  ]

pub All-Memᴰ {ℓ κ} :
    {A : Type ℓ} (P : A → Type κ) {a : A} {xs : List A} → Memᴰ a xs → All P xs → P a
All-Memᴰ P (Memᴰ.head e) h = rw e h.0
All-Memᴰ P (Memᴰ.tail m) h = All-Memᴰ P m h.1

-- A place in a list is in the part that is taken or in the part that is dropped.
module _ {ℓ} {A : Type ℓ} {a : A} where
  pub Memᴰ-take_drop : (n : ℕ) (xs : List A) → Memᴰ a xs → Memᴰ a (take n xs) ⊎ Memᴰ a (drop n xs)
  Memᴰ-take_drop zero xs m = inr m
  Memᴰ-take_drop (suc n) (x ∷ xs) (Memᴰ.head e) = inl (Memᴰ.head e)
  Memᴰ-take_drop (suc n) (x ∷ xs) (Memᴰ.tail m) = elim (Memᴰ-take_drop n xs m) [
    | inl left ↦ inl (Memᴰ.tail left)
    | inr right ↦ inr right
  ]
  Memᴰ-take_drop (suc n) [] m = elim m [ ]

  pub Memᴰ-of_take : (n : ℕ) (xs : List A) → Memᴰ a (take n xs) → Memᴰ a xs
  Memᴰ-of_take zero xs m = elim m [ ]
  Memᴰ-of_take (suc n) [] m = m
  Memᴰ-of_take (suc n) (x ∷ xs) (Memᴰ.head e) = Memᴰ.head e
  Memᴰ-of_take (suc n) (x ∷ xs) (Memᴰ.tail m) = Memᴰ.tail (Memᴰ-of_take n xs m)
