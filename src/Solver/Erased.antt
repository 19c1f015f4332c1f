-- ===== src/Solver/Erased.antt =====
-- src/solver/solver_order/solver_order.rs, `cancel_client_order`: what is left in a queue, and of the
-- orders.
use mathlib.Core.List.{Memᴰ}
use index_maker.Prelude.{
  ◌==◌, ==_iff, Bool-cases, ℕ, ◌≡◌, refl, sym, ap, ◌∙◌, ◌≢◌, inl, inr, false, List, [], ◌∷◌, All,
  All-map, Pairwise, All-both,
}
use index_maker.Prelude.Keyed.{erase_key, find_key-erase_self, find_key-erase_other}
use index_maker.Solver.Orders.{SolverOrder, User, OrderKey, user_eq, order_eq, without}
use index_maker.Solver.Queued.{order_eq-IsTest, There, There-erase_key, QueueOk}

All-without : (P : ℕ → Type 0) (i : ℕ) (queue : List ℕ) → All P queue → All P (without i queue)
All-without P i [] h = tt
All-without P i (j ∷ queue) h = elim (Bool-cases (j == i)) [
  | inl same ↦ rw same (All-without P i queue h.1)
  | inr other ↦ rw other (h.0, All-without P i queue h.1)
]

ne-without : (i : ℕ) (queue : List ℕ) → All (λ k. k ≢ i) (without i queue)
ne-without i [] = tt
ne-without i (j ∷ queue) = elim (Bool-cases (j == i)) [
  | inl same ↦ rw same (ne-without i queue)
  | inr other ↦ rw other (λ e. cc ((==_iff j i).1 e), ne-without i queue)
]

Pairwise-without : (i : ℕ) (queue : List ℕ) → Pairwise ◌≢◌ queue → Pairwise ◌≢◌ (without i queue)
Pairwise-without i [] h = tt
Pairwise-without i (j ∷ queue) h = elim (Bool-cases (j == i)) [
  | inl same ↦ rw same (Pairwise-without i queue h.1)
  | inr other ↦ rw other (All-without (◌≢◌ j) i queue h.0, Pairwise-without i queue h.1)
]

Memᴰ-without : (i k : ℕ) (queue : List ℕ) → k ≢ i → Memᴰ k queue → Memᴰ k (without i queue)
Memᴰ-without i k [] apart m = elim m [ ]
Memᴰ-without i k (j ∷ queue) apart (Memᴰ.head e) = elim (Bool-cases (j == i)) [
  | inl same ↦ absurd (apart (e ∙ (==_iff j i).0 same))
  | inr other ↦ rw other (Memᴰ.head e)
]
Memᴰ-without i k (j ∷ queue) apart (Memᴰ.tail m) = elim (Bool-cases (j == i)) [
  | inl same ↦ rw same (Memᴰ-without i k queue apart m)
  | inr other ↦ rw other (Memᴰ.tail (Memᴰ-without i k queue apart m))
]

order_eq-apart : (u v : User) (i k : ℕ) → k ≢ i → order_eq (u, i) (v, k) ≡ false
order_eq-apart u v i k apart = elim (Bool-cases (order_eq (u, i) (v, k))) [
  | inl same ↦ absurd (apart (sym (ap (λ x. x.1) (order_eq-IsTest.sound (u, i) (v, k) same))))
  | inr other ↦ other
]

pub order_eq-other : (u v : User) (i k : ℕ) → user_eq u v ≡ false → order_eq (u, i) (v, k) ≡ false
order_eq-other u v i k other = rw other refl

-- What is still there was there before, and is another order.
pub There-of_erase_key :
    (u v : User) (i k : ℕ) (orders : List (OrderKey × SolverOrder))
    → There (erase_key order_eq (u, i) orders) v k
    → There orders v k
There-of_erase_key u v i k orders (o, h) = elim (Bool-cases (order_eq (u, i) (v, k))) [
  | inl same ↦
      let here = rw (order_eq-IsTest.sound (u, i) (v, k) same) at h in
      let gone = find_key-erase_self order_eq (v, k) orders in cc
  | inr other ↦
      (o, sym (find_key-erase_other order_eq order_eq-IsTest (u, i) (v, k) orders other) ∙ h)
]

ne-There :
    (u : User) (i k : ℕ) (orders : List (OrderKey × SolverOrder))
    → There (erase_key order_eq (u, i) orders) u k
    → k ≢ i
ne-There u i k orders (o, h) e =
    let gone = find_key-erase_self order_eq (u, i) orders in let here = rw e at h in cc

module _ (user : User) (i : ℕ) (orders : List (OrderKey × SolverOrder)) where
  known_apart :
      (queue : List ℕ)
      → All (λ k. k ≢ i) queue
      → All (λ k. There orders user k) queue
      → All (λ k. There (erase_key order_eq (user, i) orders) user k) queue
  known_apart queue apart known =
      All-map _ _
        (λ k (there, ne).
          There-erase_key user user i k orders (order_eq-apart user user i k ne) there)
        queue (All-both _ _ queue known apart)

  -- The front order is cancelled and others follow.
  pub popped-Ok :
      (queue : List ℕ)
      → queue ≢ []
      → QueueOk orders user (i ∷ queue)
      → QueueOk (erase_key order_eq (user, i) orders) user queue
  popped-Ok queue filled ok_queue = record {
    filled = filled;
    known =
        known_apart queue (All-map _ _ (λ k ne e. ne (sym e)) queue ok_queue.distinct.0)
          ok_queue.known.1;
    distinct = ok_queue.distinct.1;
  }

  -- Another order than the front one is cancelled.
  pub without-Ok :
      (j : ℕ) (queue : List ℕ)
      → (j == i) ≡ false
      → QueueOk orders user (j ∷ queue)
      → QueueOk (erase_key order_eq (user, i) orders) user (without i (j ∷ queue))
  without-Ok j queue other ok_queue = record {
    filled = λ e. let here = rw other at e in cc;
    known =
        known_apart (without i (j ∷ queue)) (ne-without i (j ∷ queue))
          (All-without _ i (j ∷ queue) ok_queue.known);
    distinct = Pairwise-without i (j ∷ queue) ok_queue.distinct;
  }

  module _ (queue : List ℕ) (inside : (k : ℕ) → There orders user k → Memᴰ k queue) where
    pub without-inside :
        (k : ℕ) → There (erase_key order_eq (user, i) orders) user k → Memᴰ k (without i queue)
    without-inside k there =
        Memᴰ-without i k queue (ne-There user i k orders there)
          (inside k (There-of_erase_key user user i k orders there))

pub popped-inside :
    (user : User) (i : ℕ) (orders : List (OrderKey × SolverOrder)) (queue : List ℕ)
    → ((k : ℕ) → There orders user k → Memᴰ k (i ∷ queue))
    → (k : ℕ) → There (erase_key order_eq (user, i) orders) user k
    → Memᴰ k queue
popped-inside user i orders queue inside k there =
    elim (inside k (There-of_erase_key user user i k orders there)) [
      | Memᴰ.head e ↦ absurd (ne-There user i k orders there e)
      | Memᴰ.tail m ↦ m
    ]
