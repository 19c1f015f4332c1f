-- ===== src/FixServer/SeqNum.antt =====
-- libs/axum-fix-server/src/plugins/seq_num_plugin.rs: sequence numbers, by session, of what was
-- received and of what was sent. A number is a `u32` and wraps, as in a release build.
use index_maker.Prelude.{
  ◌==◌, if◌then◌else◌, ℕ, ◌+◌, ◌%◌, ◌^◌, Bool, true, false, none, some, List, [], ◌∷◌, ◌++◌,
}
use index_maker.Prelude.Dict.{Dict, lookup, insert, erase}

abbrev pub u32_mod : ℕ
u32_mod = 2 ^ 32

pub record SeqNumPlugin : Type 0 where
  pub last_received_seq_num : Dict ℕ
  pub last_sent_seq_num : Dict ℕ

-- `SeqNumPlugin::new`
unfoldable pub new_plugin : SeqNumPlugin
new_plugin = record { last_received_seq_num = []; last_sent_seq_num = [] }

-- `get(..).map_or(0, ..)`
unfoldable pub last_of : ℕ → Dict ℕ → ℕ
last_of session_id nums = elim (lookup session_id nums) [ none ↦ 0 | some n ↦ n ]

-- `SeqNumPlugin::last_sent_seq_num`
unfoldable pub last_sent : ℕ → SeqNumPlugin → ℕ
last_sent session_id p = last_of session_id p.last_sent_seq_num

-- `SeqNumPlugin::last_received_seq_num`
unfoldable pub last_received : ℕ → SeqNumPlugin → ℕ
last_received session_id p = last_of session_id p.last_received_seq_num

-- What `valid_seq_num` finds under its read lock.
unfoldable pub is_next : ℕ → ℕ → SeqNumPlugin → Bool
is_next seq_num session_id p =
    ((last_of session_id p.last_received_seq_num + 1) % u32_mod) == seq_num

-- What `valid_seq_num` writes under its write lock, if it has found the number valid.
unfoldable pub record_received : ℕ → ℕ → SeqNumPlugin → SeqNumPlugin
record_received seq_num session_id p = record p {
  last_received_seq_num = insert session_id seq_num p.last_received_seq_num;
}

-- `SeqNumPlugin::valid_seq_num`, when no other call comes between its two locks.
unfoldable pub valid_seq_num : ℕ → ℕ → SeqNumPlugin → Bool × SeqNumPlugin
valid_seq_num seq_num session_id p =
    if is_next seq_num session_id p
    then (true, record_received seq_num session_id p)
    else (false, p)

-- `SeqNumPlugin::next_seq_num`, which holds one lock throughout.
unfoldable pub next_seq_num : ℕ → SeqNumPlugin → ℕ × SeqNumPlugin
next_seq_num session_id p = elim (lookup session_id p.last_sent_seq_num) [
  | some n ↦
      let next = (n + 1) % u32_mod in
      (next, record p { last_sent_seq_num = insert session_id next p.last_sent_seq_num })
  | none ↦ (1, record p { last_sent_seq_num = insert session_id 1 p.last_sent_seq_num })
]

-- `SeqNumPlugin::create_session`, which never fails.
unfoldable pub create_session : ℕ → SeqNumPlugin → SeqNumPlugin
create_session session_id p = record {
  last_received_seq_num = insert session_id 0 p.last_received_seq_num;
  last_sent_seq_num = insert session_id 0 p.last_sent_seq_num;
}

-- `SeqNumPlugin::destroy_session`, which never fails.
unfoldable pub destroy_session : ℕ → SeqNumPlugin → SeqNumPlugin
destroy_session session_id p = record {
  last_received_seq_num = erase session_id p.last_received_seq_num;
  last_sent_seq_num = erase session_id p.last_sent_seq_num;
}

-- The steps of calls of `valid_seq_num` that run at once: each looks, and later writes if it has
-- found its number valid; `true` stands for a look.
pub record Racing : Type 0 where
  pub plugin : SeqNumPlugin
  pub found : List (ℕ × ℕ)
  pub accepted : List (ℕ × ℕ)

unfoldable pub look : ℕ → ℕ → Racing → Racing
look seq_num session_id r =
    if is_next seq_num session_id r.plugin
    then record r { found = r.found ++ (session_id, seq_num) ∷ [] }
    else r

-- The call that looked first writes and answers `true`.
unfoldable pub write : Racing → Racing
write r = elim r.found [
  | [] ↦ r
  | (session_id, seq_num) ∷ rest ↦ record {
    plugin = record_received seq_num session_id r.plugin;
    found = rest;
    accepted = r.accepted ++ (session_id, seq_num) ∷ [];
  }
]
