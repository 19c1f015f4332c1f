-- ===== src/IndexOrder/Matching.antt =====
-- index_order.rs: `match_cancel`, `match_engage` and `match_engage_one`, the walks over the updates.
-- What `match_cancel` has computed so far, none of it written yet; `result` is what it returns.
use index_maker.Prelude.{
  ◌==◌, if◌then◌else◌, ℕ, ◌+◌, ◌-◌, Bool, true, false, not, Option, none, some, List, [], ◌∷◌, ◌++◌,
  length, take, drop, last, reverse, Result, ok, err,
}
use index_maker.Prelude.Int.{ltb_ℤ, -ℤ◌}
use index_maker.Decimal.{Amount, zero_amount, Decimal, safe_sub, safe_add_assign}
use index_maker.IndexOrder.Update.{
  IndexOrderUpdate, IndexOrder, IndexOrderError, math_problem, already_fully_engaged,
  front_update_not_found, not_next_update, OnOrder,
}

pub record Cancelling : Type 0 where
  pub collateral_amount : Amount
  pub result : Option Amount
  pub back_order_update : Option IndexOrderUpdate
  pub order_updates_drain_count : ℕ
  pub new_closed_updates : List IndexOrderUpdate
  pub new_engaged_updates : List IndexOrderUpdate

-- An update that would be used up: it stops the walk if the solver has engaged it.
unfoldable pub cancel_whole :
    Amount → IndexOrderUpdate → Amount → Option Amount → Cancelling → Bool × Cancelling
cancel_whole tolerance update future (some engaged) c = (
  true,
  record c {
    new_engaged_updates =
        c.new_engaged_updates ++ (record update { remaining_collateral = zero_amount }) ∷ [];
    order_updates_drain_count = c.order_updates_drain_count + 1;
    result = some (-ℤ◌ future);
  },
)
cancel_whole tolerance update future none c =
    let closed = record c {
      new_closed_updates = c.new_closed_updates ++ update ∷ [];
      order_updates_drain_count = c.order_updates_drain_count + 1;
    } in
    if ltb_ℤ future (-ℤ◌ tolerance)
    then (false, record closed { collateral_amount = -ℤ◌ future; result = some (-ℤ◌ future) })
    else (true, record closed { result = none })

-- The loop's body after the subtraction; the flag says whether the walk is finished.
unfoldable pub cancel_update : Amount → IndexOrderUpdate → Amount → Cancelling → Bool × Cancelling
cancel_update tolerance update future c =
    if ltb_ℤ future tolerance
    then cancel_whole tolerance update future update.engaged_collateral c
    else (
      true,
      record c {
        back_order_update = some (record update { remaining_collateral = future });
        result = none;
      },
    )

-- `pop_back` and `push_back`.
unfoldable pub replace_back : IndexOrderUpdate → List IndexOrderUpdate → List IndexOrderUpdate
replace_back new [] = new ∷ []
replace_back new (u ∷ []) = new ∷ []
replace_back new (u ∷ v ∷ us) = u ∷ replace_back new (v ∷ us)

-- The commit of `match_cancel`.
unfoldable pub commit_cancel : Cancelling → IndexOrder → IndexOrder
commit_cancel c o =
    let kept = take (length o.order_updates - c.order_updates_drain_count) o.order_updates in
    record o {
      order_updates = elim c.back_order_update [
        | none ↦ kept
        | some update ↦ replace_back update kept
      ];
      engaged_updates = o.engaged_updates ++ c.new_engaged_updates;
      closed_updates = o.closed_updates ++ c.new_closed_updates;
    }

abbrev pub cancelling_of : Amount → Cancelling
cancelling_of collateral_amount = record {
  collateral_amount = collateral_amount;
  result = some collateral_amount;
  back_order_update = none;
  order_updates_drain_count = 0;
  new_closed_updates = [];
  new_engaged_updates = [];
}

-- What `match_engage` has computed so far.
pub record Engaging : Type 0 where
  pub collateral_amount : Amount
  pub result : Option Amount
  pub front_order_update : Option IndexOrderUpdate
  pub order_updates_drain_count : ℕ
  pub new_engaged_updates : List IndexOrderUpdate

abbrev pub engaging_of : Amount → Engaging
engaging_of collateral_amount = record {
  collateral_amount = collateral_amount;
  result = some collateral_amount;
  front_order_update = none;
  order_updates_drain_count = 0;
  new_engaged_updates = [];
}

-- The update with `engaged` engaged and `remaining` left.
abbrev pub engaged_with : IndexOrderUpdate → Amount → Amount → IndexOrderUpdate
engaged_with update engaged remaining = record update {
  engaged_collateral = some engaged;
  remaining_collateral = remaining;
}

-- The branch in which the whole update is engaged.
unfoldable pub engage_whole :
    Amount → IndexOrderUpdate → Amount → Amount → Engaging → Bool × Engaging
engage_whole tolerance update future engaged e =
    let moved = record e {
      new_engaged_updates = e.new_engaged_updates ++ engaged_with update engaged zero_amount ∷ [];
      order_updates_drain_count = e.order_updates_drain_count + 1;
    } in
    if ltb_ℤ future (-ℤ◌ tolerance)
    then (false, record moved { collateral_amount = -ℤ◌ future; result = some (-ℤ◌ future) })
    else (true, record moved { result = none })

-- The commit of `match_engage`.
unfoldable pub commit_engage : Engaging → IndexOrder → IndexOrder
commit_engage e o =
    let kept = drop e.order_updates_drain_count o.order_updates in
    record o {
      order_updates = elim e.front_order_update [
        | none ↦ kept
        | some update ↦ update ∷ drop 1 kept
      ];
      engaged_updates = o.engaged_updates ++ e.new_engaged_updates;
    }

-- `back().filter(..)`
abbrev pub is_last : ℕ → List IndexOrderUpdate → Bool
is_last client_order_id updates = elim (last updates) [
  | none ↦ false
  | some u ↦ u.client_order_id == client_order_id
]

-- `Decimal::min`
abbrev min_ℤ : Amount → Amount → Amount
min_ℤ a b = if ltb_ℤ b a then b else a

module _ ⦃d : Decimal⦄ where
  -- `for update in self.order_updates.iter().rev()`, on the reversed updates.
  unfoldable pub cancel_loop :
      Amount → List IndexOrderUpdate → Cancelling → Result IndexOrderError Cancelling
  cancel_loop tolerance [] c = ok c
  cancel_loop tolerance (update ∷ updates) c =
      elim (safe_sub update.remaining_collateral c.collateral_amount) [
        | none ↦ err math_problem
        | some future ↦
            let (finished, c') = cancel_update tolerance update future c in
            let rest = cancel_loop tolerance updates c' in if finished then ok c' else rest
      ]

  -- `IndexOrder::match_cancel`; what is left of the amount, or `none` if all of it was matched.
  unfoldable pub match_cancel : Amount → Amount → OnOrder (Option Amount)
  match_cancel collateral_amount tolerance o =
      elim (cancel_loop tolerance (reverse o.order_updates) (cancelling_of collateral_amount)) [
        | err e ↦ (err e, o)
        | ok c ↦ (ok c.result, commit_cancel c o)
      ]

  -- The loop's body of `match_engage`, after the subtraction.
  unfoldable pub engage_update :
      Amount → IndexOrderUpdate → Amount → Engaging → Option (Bool × Engaging)
  engage_update tolerance update future e =
      if ltb_ℤ future tolerance
      then elim (safe_add_assign update.engaged_collateral update.remaining_collateral) [
        | none ↦ none
        | some engaged ↦ some (engage_whole tolerance update future engaged e)
      ]
      else elim (safe_add_assign update.engaged_collateral e.collateral_amount) [
        | none ↦ none
        | some engaged ↦ some (
          true,
          record e {
            front_order_update = some (engaged_with update engaged future);
            result = none;
          },
        )
      ]

  -- `for update_box in self.order_updates.iter()`
  unfoldable pub engage_loop :
      Amount → List IndexOrderUpdate → Engaging → Result IndexOrderError Engaging
  engage_loop tolerance [] e = ok e
  engage_loop tolerance (update ∷ updates) e =
      elim (safe_sub update.remaining_collateral e.collateral_amount) [
        | none ↦ err math_problem
        | some future ↦ elim (engage_update tolerance update future e) [
          | none ↦ err math_problem
          | some (true, e') ↦ ok e'
          | some (false, e') ↦ engage_loop tolerance updates e'
        ]
      ]

  -- `IndexOrder::match_engage`
  unfoldable pub match_engage : Amount → Amount → OnOrder (Option Amount)
  match_engage collateral_amount tolerance o =
      elim (engage_loop tolerance o.order_updates (engaging_of collateral_amount)) [
        | err e ↦ (err e, o)
        | ok e ↦ (ok e.result, commit_engage e o)
      ]

  -- The closure of `match_engage_one`: the front update, which must be the named one, is engaged with
  -- as much as it has. A sum that overflows leaves no engaged collateral.
  unfoldable pub engage_front :
      ℕ → Amount → List IndexOrderUpdate → Result IndexOrderError (IndexOrderUpdate × Amount)
  engage_front client_order_id collateral_amount [] = err front_update_not_found
  engage_front client_order_id collateral_amount (update ∷ updates) =
      if not (update.client_order_id == client_order_id)
      then err not_next_update
      else (let matched = min_ℤ collateral_amount update.remaining_collateral in
          elim (safe_sub collateral_amount matched) [
            | none ↦ err math_problem
            | some unmatched ↦ elim (safe_sub update.remaining_collateral matched) [
              | none ↦ err math_problem
              | some remaining ↦ ok (
                record update {
                  engaged_collateral = safe_add_assign update.engaged_collateral matched;
                  remaining_collateral = remaining;
                },
                unmatched,
              )
            ]
          ])

  -- The rest of `match_engage_one`: a front update that is used up moves to the engaged ones.
  unfoldable pub engage_one : ℕ → Amount → Amount → OnOrder (Amount × Option Amount)
  engage_one client_order_id collateral_amount tolerance o =
      elim (engage_front client_order_id collateral_amount o.order_updates) [
        | err e ↦ (err e, o)
        | ok (update, unmatched) ↦ (
          ok (
            update.remaining_collateral,
            if ltb_ℤ unmatched tolerance then none else some unmatched,
          ),
          if ltb_ℤ update.remaining_collateral tolerance
              then record o {
                order_updates = drop 1 o.order_updates;
                engaged_updates = o.engaged_updates ++ update ∷ [];
              }
              else record o { order_updates = update ∷ drop 1 o.order_updates },
        )
      ]

  -- `IndexOrder::match_engage_one`
  unfoldable pub match_engage_one : ℕ → Amount → Amount → OnOrder (Amount × Option Amount)
  match_engage_one client_order_id collateral_amount tolerance o =
      if is_last client_order_id o.engaged_updates
      then (if ltb_ℤ collateral_amount tolerance
          then (ok (zero_amount, none), o)
          else (err already_fully_engaged, o))
      else engage_one client_order_id collateral_amount tolerance o
