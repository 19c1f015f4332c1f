-- ===== src/FixServer/Tests.antt =====
-- seq_num_plugin.rs at concrete inputs, and the theorems' instances.
use index_maker.Prelude.{ℕ, ◌≡◌, refl, List, [], ◌∷◌, arith}
use index_maker.FixServer.InOrder.{
  receive, answer, Consecutive, receive-Consecutive, answer-Consecutive,
}
use index_maker.FixServer.SeqNum.{
  SeqNumPlugin, new_plugin, last_of, last_sent, last_received, is_next, record_received,
  valid_seq_num, create_session, look, write,
}

abbrev greeted : SeqNumPlugin
unfolding create_session new_plugin
greeted = create_session 8 (create_session 7 new_plugin)

-- A repeated number and one that is ahead are refused; another session does not count.
abbrev requests : List (ℕ × ℕ)
requests = (7, 1) ∷ (8, 1) ∷ (7, 1) ∷ (7, 3) ∷ (7, 2) ∷ []

receive_runs : (receive 7 requests greeted).0 ≡ 1 ∷ 2 ∷ []
unfolding receive valid_seq_num is_next record_received last_of create_session new_plugin
receive_runs = refl

receive-Consecutive_example :
    let (ns, p') = receive 7 requests greeted in
    Consecutive (last_received 7 greeted) ns (last_received 7 p')
unfolding last_received last_of create_session new_plugin
receive-Consecutive_example = receive-Consecutive 7 requests greeted (omega arith)

answer-Consecutive_example :
    let (ns, p') = answer 7 (7 ∷ 8 ∷ 7 ∷ []) greeted in
    Consecutive (last_sent 7 greeted) ns (last_sent 7 p')
unfolding last_sent last_of create_session new_plugin
answer-Consecutive_example = answer-Consecutive 7 (7 ∷ 8 ∷ 7 ∷ []) greeted (omega arith)

-- Two calls that look before either writes are both accepted with the same number.
race_runs :
    (write (
      write
        (look 1 7 (look 1 7 (record { plugin = greeted; found = []; accepted = [] }))))).accepted
    ≡ (7, 1) ∷ (7, 1) ∷ []
unfolding look write is_next record_received last_of create_session new_plugin
race_runs = refl
