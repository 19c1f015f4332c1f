-- ===== src/IndexOrder/Backwards.antt =====
-- index_order.rs: `match_cancel` walks from the back; its commit, seen from the back.
use index_maker.Prelude.{
  ℕ, zero, suc, ◌-◌, ◌≤◌, ◌≡◌, refl, Option, none, some, List, [], ◌∷◌, ◌++◌, arith, length, take,
  drop, length-append, reverse,
}
use index_maker.Prelude.Int.{◌+ℤ◌, int_laws}
use index_maker.IndexOrder.Matching.{Cancelling, replace_back, commit_cancel}
use index_maker.IndexOrder.Totals.{remaining_total, walked}
use index_maker.IndexOrder.Update.{IndexOrderUpdate, IndexOrder}

module _ {A : Type 0} where
  length-reverse : (xs : List A) → length (reverse xs) ≡ length xs
  length-reverse [] = refl
  length-reverse (x ∷ xs) =
      rw (length-append (reverse xs) (x ∷ []), length-reverse xs) (omega arith)

  reverse-append_one : (xs : List A) (y : A) → reverse (xs ++ y ∷ []) ≡ y ∷ reverse xs
  reverse-append_one [] y = refl
  reverse-append_one (x ∷ xs) y = rw (reverse-append_one xs y) refl

  reverse-reverse : (xs : List A) → reverse (reverse xs) ≡ xs
  reverse-reverse [] = refl
  reverse-reverse (x ∷ xs) = rw (reverse-append_one (reverse xs) x, reverse-reverse xs) refl

  take-length : (xs : List A) → take (length xs) xs ≡ xs
  take-length [] = refl
  take-length (x ∷ xs) = rw (take-length xs) refl

  take-append : (n : ℕ) (xs ys : List A) → n ≤ length xs → take n (xs ++ ys) ≡ take n xs
  take-append zero xs ys h = refl
  take-append (suc n) [] ys h = absurd (omega arith)
  take-append (suc n) (x ∷ xs) ys h = rw (take-append n xs ys (omega arith)) refl

  take-reverse : (k : ℕ) (xs : List A) → take (length xs - k) (reverse xs) ≡ reverse (drop k xs)
  take-reverse zero xs =
      let same : length xs - 0 ≡ length (reverse xs) = rw (length-reverse xs) (omega arith) in
      rw same (take-length (reverse xs))
  take-reverse (suc k) [] = let nothing : 0 - suc k ≡ 0 = omega arith in rw nothing refl
  take-reverse (suc k) (x ∷ xs) =
      let less : suc (length xs) - suc k ≡ length xs - k = omega arith in
      let small : length xs - k ≤ length (reverse xs) = rw (length-reverse xs) (omega arith) in
      rw (less, take-append (length xs - k) (reverse xs) (x ∷ []) small) (take-reverse k xs)

replace_back-append :
    (u v : IndexOrderUpdate) (us : List IndexOrderUpdate)
    → replace_back u (us ++ v ∷ []) ≡ us ++ u ∷ []
unfolding replace_back
replace_back-append u v [] = refl
replace_back-append u v (w ∷ []) = refl
replace_back-append u v (w ∷ x ∷ us) = rw (replace_back-append u v (x ∷ us)) refl

replace_back-reverse :
    (u : IndexOrderUpdate) (us : List IndexOrderUpdate)
    → replace_back u (reverse us) ≡ reverse (u ∷ drop 1 us)
unfolding replace_back
replace_back-reverse u [] = refl
replace_back-reverse u (v ∷ us) = replace_back-append u v (reverse us)

pub remaining_total-append :
    (us vs : List IndexOrderUpdate)
    → remaining_total (us ++ vs) ≡ remaining_total us +ℤ remaining_total vs
unfolding remaining_total
remaining_total-append [] vs = omega int_laws
remaining_total-append (u ∷ us) vs = rw (remaining_total-append us vs) (omega int_laws)

pub remaining_total-reverse :
    (us : List IndexOrderUpdate) → remaining_total (reverse us) ≡ remaining_total us
unfolding remaining_total
remaining_total-reverse [] = refl
remaining_total-reverse (u ∷ us) =
    rw (remaining_total-append (reverse us) (u ∷ []), remaining_total, remaining_total-reverse us)
      (omega int_laws)

-- What the commit keeps is what the walk from the back has left.
pub commit_cancel-walked :
    (c : Cancelling) (o : IndexOrder)
    → (commit_cancel c o).order_updates
      ≡ reverse (walked c.back_order_update c.order_updates_drain_count (reverse o.order_updates))
unfolding commit_cancel
commit_cancel-walked c o = go c.back_order_update
  where
    k : ℕ
    k = c.order_updates_drain_count

    kept :
        take (length o.order_updates - k) o.order_updates
        ≡ reverse (drop k (reverse o.order_updates))
    kept =
        let turned = take-reverse k (reverse o.order_updates) in
        rw (length-reverse o.order_updates, reverse-reverse o.order_updates) at turned

    go :
        (back : Option IndexOrderUpdate)
        → (elim back as (λ _. List IndexOrderUpdate) [
          | none ↦ take (length o.order_updates - k) o.order_updates
          | some u ↦ replace_back u (take (length o.order_updates - k) o.order_updates)
        ])
          ≡ reverse (walked back k (reverse o.order_updates))
    go none = kept
    go (some u) = rw kept (replace_back-reverse u (drop k (reverse o.order_updates)))
