-- ===== src/Solver/Blocked.antt =====
-- src/solver/solver_order/solver_order.rs, `cancel_client_order` and `get_next_client_order`: a client
-- without orders in front of the waiting ones.
use mathlib.Core.Option
use index_maker.Prelude.{
  ltb, ◌==◌, Bool-cases, Option-cases, ℕ, ◌≡◌, refl, ap, ◌∙◌, inl, inr, false, Option, none, some,
  List, [], ◌∷◌, ◌++◌, length,
}
use index_maker.Prelude.Keyed.{
  find_key, put_key, erase_key, find_key-put_other, find_key-erase_other,
}
use index_maker.Solver.Orders.{
  User, user_eq, SolverClientOrders, queue_of, enqueue, without, dequeue_from, remove_first,
  moved_back,
}
use index_maker.Solver.Queued.{user_eq-IsTest}

-- The first waiting client has no queue of orders.
pub record IsStuck (user : User) (waiting : List User) (queues : List (User × List ℕ))
    : Type 0 where
  pub behind : List User
  pub in_front : waiting ≡ user ∷ behind
  pub no_queue : find_key user_eq user queues ≡ none

abbrev pub IsBlocked : User → SolverClientOrders → Type 0
IsBlocked user s = IsStuck user s.client_notify_queue s.client_order_queues

pub append-IsStuck :
    {user : User} {waiting : List User} {queues : List (User × List ℕ)} (l : List User)
    → IsStuck user waiting queues
    → IsStuck user (waiting ++ l) queues
append-IsStuck {user} l k = record {
  behind = k.behind ++ l;
  in_front = ap (λ w. w ++ l) k.in_front;
  no_queue = k.no_queue;
}

module _ (user v : User) (other : user_eq v user ≡ false) where
  put-IsStuck :
      (queue : List ℕ) {waiting : List User} {queues : List (User × List ℕ)}
      → IsStuck user waiting queues
      → IsStuck user waiting (put_key user_eq v queue queues)
  put-IsStuck queue {queues = queues} k = record {
    behind = k.behind;
    in_front = k.in_front;
    no_queue = find_key-put_other user_eq user_eq-IsTest v user queue queues other ∙ k.no_queue;
  }

  erase-IsStuck :
      {waiting : List User} {queues : List (User × List ℕ)}
      → IsStuck user waiting queues
      → IsStuck user waiting (erase_key user_eq v queues)
  erase-IsStuck {queues = queues} k = record {
    behind = k.behind;
    in_front = k.in_front;
    no_queue = find_key-erase_other user_eq user_eq-IsTest v user queues other ∙ k.no_queue;
  }

  not_front : user_eq user v ≡ false
  not_front = elim (Bool-cases (user_eq user v)) [
    | inl same ↦
        let e = rw (user_eq-IsTest.sound user v same) at other in
        absurd (cc (user_eq-IsTest.reflexive v))
    | inr h ↦ h
  ]

  remove_first-behind :
      (behind : List User)
      → remove_first v (user ∷ behind) ≡ Option.map (λ l. user ∷ l) (remove_first v behind)
  remove_first-behind behind = rw not_front refl

  moved_back-behind :
      (behind : List User) → (later : List User) × (moved_back v (user ∷ behind) ≡ user ∷ later)
  unfolding moved_back
  moved_back-behind behind = elim (Option-cases (remove_first v behind)) [
    | inl h ↦
        let none_there = remove_first-behind behind ∙ ap (Option.map (λ l. user ∷ l)) h in
        (behind, rw (none_there, moved_back) refl)
    | inr (rest, h) ↦
        let there = remove_first-behind behind ∙ ap (Option.map (λ l. user ∷ l)) h in
        elim (Bool-cases (ltb 1 (length (user ∷ behind)))) [
          | inl many ↦ (rest ++ v ∷ [], rw (there, moved_back, many) refl)
          | inr alone ↦ (behind, rw (there, moved_back, alone) refl)
        ]
  ]

  pub moved_back-IsStuck :
      {waiting : List User} {queues : List (User × List ℕ)}
      → IsStuck user waiting queues
      → IsStuck user (moved_back v waiting) queues
  moved_back-IsStuck k =
      let (later, e) = moved_back-behind k.behind in
      record { behind = later; in_front = ap (moved_back v) k.in_front ∙ e; no_queue = k.no_queue }

  pub enqueue-IsBlocked :
      (i : ℕ) (s : SolverClientOrders) → IsBlocked user s → IsBlocked user (enqueue v i s)
  unfolding enqueue
  enqueue-IsBlocked i s k = elim (Option-cases (queue_of v s)) [
    | inl h ↦ rw (h, enqueue) (append-IsStuck (v ∷ []) (put-IsStuck (i ∷ []) k))
    | inr (queue, h) ↦ rw (h, enqueue) (put-IsStuck (queue ++ i ∷ []) k)
  ]

  pub dequeue_from-IsBlocked :
      (i : ℕ) (found : Option (List ℕ)) (s : SolverClientOrders)
      → IsBlocked user s
      → IsBlocked user (dequeue_from v i found s)
  dequeue_from-IsBlocked i none s k = k
  dequeue_from-IsBlocked i (some []) s k = erase-IsStuck k
  dequeue_from-IsBlocked i (some (j ∷ [])) s k = elim (Bool-cases (j == i)) [
    | inl same ↦ rw same (erase-IsStuck k)
    | inr apart ↦ rw apart (put-IsStuck (j ∷ []) k)
  ]
  dequeue_from-IsBlocked i (some (j ∷ l ∷ queue)) s k = elim (Bool-cases (j == i)) [
    | inl same ↦ rw same (append-IsStuck (v ∷ []) (put-IsStuck (l ∷ queue) k))
    | inr apart ↦ rw apart (put-IsStuck (j ∷ without i (l ∷ queue)) k)
  ]
