-- ===== src/FixServer/InOrder.antt =====
-- seq_num_plugin.rs: the numbers that a session is accepted with, and those that it is answered with,
-- are consecutive.
-- `k` numbers after `a`.
use index_maker.Prelude.{
  ◌==◌, if◌then◌else◌, ==_iff, Bool-cases, Option-cases, ℕ, zero, suc, ◌+◌, ◌%◌, ◌<◌, ◌≡◌, refl, ap,
  ◌∙◌, ◌⊎◌, inl, inr, Bool, true, false, ◌&&◌, List, [], ◌∷◌, arith, length,
}
use index_maker.Prelude.Dict.{Dict, lookup, insert, lookup-insert}
use index_maker.FixServer.SeqNum.{
  u32_mod, SeqNumPlugin, last_of, last_sent, last_received, is_next, record_received, valid_seq_num,
  next_seq_num,
}

abbrev pub count_from : ℕ → ℕ → List ℕ
count_from a zero = []
count_from a (suc k) = (a + 1) ∷ count_from (a + 1) k

-- Requests of many sessions one after the other: the numbers that session `j` is accepted with.
unfoldable pub receive : ℕ → List (ℕ × ℕ) → SeqNumPlugin → List ℕ × SeqNumPlugin
receive j [] p = ([], p)
receive j ((session_id, seq_num) ∷ rs) p =
    let (accepted, p') = valid_seq_num seq_num session_id p in
    let (ns, p'') = receive j rs p' in
    (if accepted && session_id == j then seq_num ∷ ns else ns, p'')

-- The numbers that session `j` is answered with.
unfoldable pub answer : ℕ → List ℕ → SeqNumPlugin → List ℕ × SeqNumPlugin
answer j [] p = ([], p)
answer j (session_id ∷ ids) p =
    let (n, p') = next_seq_num session_id p in
    let (ns, p'') = answer j ids p' in (if session_id == j then n ∷ ns else ns, p'')

last_of-insert :
    (i j n : ℕ) (nums : Dict ℕ)
    → last_of j (insert i n nums) ≡ (if i == j then n else last_of j nums)
unfolding last_of
last_of-insert i j n nums = ground (arith, lookup-insert i j n nums)

-- The numbers start after `a`, and `b` is the last.
abbrev pub Consecutive : ℕ → List ℕ → ℕ → Type 0
Consecutive a ns b = (ns ≡ count_from a (length ns)) × (b ≡ a + length ns)

Consecutive-next :
    (a b : ℕ) (ns : List ℕ) → Consecutive (a + 1) ns b → Consecutive a ((a + 1) ∷ ns) b
Consecutive-next a b ns (same, last_one) = (ap (λ x. (a + 1) ∷ x) same, omega arith)

-- One request: whether it is accepted for session `j`, and the last number of `j` then.
valid_seq_num-last :
    (n i j : ℕ) (p : SeqNumPlugin)
    → last_received j p + 1 < u32_mod
    → let (accepted, p') = valid_seq_num n i p in
      ((accepted && i == j ≡ true)
        × (n ≡ last_received j p + 1)
        × (last_received j p' ≡ last_received j p + 1))
      ⊎ ((accepted && i == j ≡ false) × (last_received j p' ≡ last_received j p))
unfolding valid_seq_num is_next record_received last_received
valid_seq_num-last n i j p small = elim (Bool-cases (is_next n i p)) [
  | inl next ↦ elim (Bool-cases (i == j)) [
    | inl same ↦
        let found : (last_received i p + 1) % u32_mod ≡ n = (==_iff _ _).0 next in
        let here : last_received i p ≡ last_received j p =
          ap (λ x. last_received x p) ((==_iff i j).0 same) in
        let numbered : n ≡ last_received j p + 1 = omega arith in
        let kept = last_of-insert i j n p.last_received_seq_num in
        rw (next, same, valid_seq_num) (inl (refl, numbered, (rw same at kept) ∙ numbered))
    | inr other ↦
        let kept = last_of-insert i j n p.last_received_seq_num in
        rw (next, other, valid_seq_num) (inr (refl, rw other at kept))
  ]
  | inr not_next ↦ rw (not_next, valid_seq_num) (inr (refl, refl))
]

-- Whatever the sessions send, as long as the number does not wrap: the numbers that a session is
-- accepted with are consecutive, starting after the last one received and ending with the last one
-- received then, so that none is accepted twice.
pub receive-Consecutive :
    (j : ℕ) (rs : List (ℕ × ℕ)) (p : SeqNumPlugin)
    → last_received j p + length rs < u32_mod
    → let (ns, p') = receive j rs p in Consecutive (last_received j p) ns (last_received j p')
unfolding receive
receive-Consecutive j [] p small = (refl, omega arith)
receive-Consecutive j ((i, n) ∷ rs) p small =
    go (valid_seq_num n i p) (valid_seq_num-last n i j p (omega arith))
      (λ p'. receive-Consecutive j rs p')
  where
    go :
        (v : Bool × SeqNumPlugin)
        → ((v.0 && i == j ≡ true)
            × (n ≡ last_received j p + 1)
            × (last_received j v.1 ≡ last_received j p + 1))
          ⊎ ((v.0 && i == j ≡ false) × (last_received j v.1 ≡ last_received j p))
        → ((p' : SeqNumPlugin)
            → last_received j p' + length rs < u32_mod
            → Consecutive
                (last_received j p')
                (receive j rs p').0
                (last_received j (receive j rs p').1))
        → Consecutive
            (last_received j p)
            (if v.0 && i == j then n ∷ (receive j rs v.1).0 else (receive j rs v.1).0)
            (last_received j (receive j rs v.1).1)
    go v (inl (taken, numbered, moved)) rec =
        rw (taken, numbered)
          (Consecutive-next (last_received j p) _ _ (rw moved at (rec v.1 (omega arith))))
    go v (inr (passed, stayed)) rec = rw passed (rw stayed at (rec v.1 (omega arith)))

-- The number of an answer, whether or not the session has one yet, is stored as its last one.
next_seq_num_stores :
    (i : ℕ) (p : SeqNumPlugin)
    → let (n, p') = next_seq_num i p in
      (n ≡ (last_sent i p + 1) % u32_mod) × (p'.last_sent_seq_num ≡ insert i n p.last_sent_seq_num)
unfolding next_seq_num last_sent last_of
next_seq_num_stores i p = elim (Option-cases (lookup i p.last_sent_seq_num)) [
  | inl missing ↦ rw (missing, next_seq_num, last_sent, last_of) (refl, refl)
  | inr (n, found) ↦ rw (found, next_seq_num, last_sent, last_of) (refl, refl)
]

-- One answer: its number, and the last number of `j` then.
next_seq_num-last :
    (i j : ℕ) (p : SeqNumPlugin)
    → last_sent j p + 1 < u32_mod
    → let (n, p') = next_seq_num i p in
      ((i == j ≡ true) × (n ≡ last_sent j p + 1) × (last_sent j p' ≡ last_sent j p + 1))
      ⊎ ((i == j ≡ false) × (last_sent j p' ≡ last_sent j p))
unfolding last_sent
next_seq_num-last i j p small =
    let (n, p') = next_seq_num i p in
    let (counted, stored_num) = next_seq_num_stores i p in
    let kept : last_sent j p' ≡ (if i == j then n else last_sent j p) =
      ap (last_of j) stored_num ∙ last_of-insert i j n p.last_sent_seq_num in
    elim (Bool-cases (i == j)) [
      | inl same ↦
          let here : last_sent i p ≡ last_sent j p =
            ap (λ x. last_sent x p) ((==_iff i j).0 same) in
          let numbered : n ≡ last_sent j p + 1 = omega arith in
          inl (same, numbered, (rw same at kept) ∙ numbered)
      | inr other ↦ inr (other, rw other at kept)
    ]

-- Whatever sessions are answered, as long as the number does not wrap: the numbers of the answers to
-- a session are consecutive, starting after the last one sent and ending with the last one sent then.
pub answer-Consecutive :
    (j : ℕ) (ids : List ℕ) (p : SeqNumPlugin)
    → last_sent j p + length ids < u32_mod
    → let (ns, p') = answer j ids p in Consecutive (last_sent j p) ns (last_sent j p')
unfolding answer
answer-Consecutive j [] p small = (refl, omega arith)
answer-Consecutive j (i ∷ ids) p small =
    go (next_seq_num i p) (next_seq_num-last i j p (omega arith))
      (λ p'. answer-Consecutive j ids p')
  where
    go :
        (v : ℕ × SeqNumPlugin)
        → ((i == j ≡ true) × (v.0 ≡ last_sent j p + 1) × (last_sent j v.1 ≡ last_sent j p + 1))
          ⊎ ((i == j ≡ false) × (last_sent j v.1 ≡ last_sent j p))
        → ((p' : SeqNumPlugin)
            → last_sent j p' + length ids < u32_mod
            → Consecutive (last_sent j p') (answer j ids p').0 (last_sent j (answer j ids p').1))
        → Consecutive
            (last_sent j p)
            (if i == j then v.0 ∷ (answer j ids v.1).0 else (answer j ids v.1).0)
            (last_sent j (answer j ids v.1).1)
    go v (inl (same, numbered, moved)) rec =
        rw (same, numbered)
          (Consecutive-next (last_sent j p) _ _ (rw moved at (rec v.1 (omega arith))))
    go v (inr (other, stayed)) rec = rw other (rw stayed at (rec v.1 (omega arith)))
