-- ===== src/IndexOrder/Order.antt =====
-- index_order.rs: the operations of `IndexOrder`.
-- `find_position(..)` and `remove`.
use index_maker.Prelude.{
  ◌==◌, if◌then◌else◌, ℕ, Bool, true, false, Option, none, some, List, [], ◌∷◌, ◌++◌, take, ok, err,
  pure, ◌>>=◌, ◌>>◌,
}
use index_maker.Prelude.Int.{ℤ}
use index_maker.Decimal.{Amount, zero_amount, Decimal, safe_add, safe_sub, safe_add_assign}
use index_maker.Bits.{Side, opposite_side, side_eq}
use index_maker.IndexOrder.Matching.{match_cancel, match_engage, match_engage_one}
use index_maker.IndexOrder.Update.{
  IndexOrderUpdate, IndexOrder, UpdateOutcome, push, reduce, flip, CancelOutcome, cancel_part,
  cancel_all, math_problem, engaged_update_not_found, OnOrder, new_update,
}

unfoldable pub remove_update :
    ℕ → List IndexOrderUpdate → Option (IndexOrderUpdate × List IndexOrderUpdate)
remove_update client_order_id [] = none
remove_update client_order_id (u ∷ us) = elim (u.client_order_id == client_order_id) [
  | true ↦ some (u, us)
  | false ↦ elim (remove_update client_order_id us) [
    | none ↦ none
    | some (found, rest) ↦ some (found, u ∷ rest)
  ]
]

-- `IndexOrder::solver_complete`
unfoldable pub solver_complete : ℕ → OnOrder (Unit {0})
solver_complete client_order_id o = elim (remove_update client_order_id o.engaged_updates) [
  | none ↦ (err engaged_update_not_found, o)
  | some (update, rest) ↦
      (ok tt, record o { engaged_updates = rest; closed_updates = o.closed_updates ++ update ∷ [] })
]

-- `IndexOrder::drain_closed_updates`: the updates that the callback is given.
unfoldable pub drain_closed_updates : IndexOrder → List IndexOrderUpdate × IndexOrder
drain_closed_updates o = (o.closed_updates, record o { closed_updates = [] })

unfoldable pub find_update : ℕ → List IndexOrderUpdate → Option IndexOrderUpdate
find_update client_order_id [] = none
find_update client_order_id (u ∷ us) =
    if u.client_order_id == client_order_id then some u else find_update client_order_id us

-- `IndexOrder::find_order_update`
unfoldable pub find_order_update : ℕ → IndexOrder → Option IndexOrderUpdate
find_order_update client_order_id o = find_update client_order_id o.order_updates

-- `IndexOrder::find_engaged_update`
unfoldable pub find_engaged_update : ℕ → IndexOrder → Option IndexOrderUpdate
find_engaged_update client_order_id o =
    find_update client_order_id (take 1 o.order_updates ++ o.engaged_updates)

abbrev pub is_some : {A : Type 0} → Option A → Bool
is_some none = false
is_some (some a) = true

module _ ⦃d : Decimal⦄ where
  -- The end of `update_order` on the opposite side, by what `match_cancel` has left.
  unfoldable pub update_opposite : IndexOrderUpdate → Option Amount → OnOrder UpdateOutcome
  update_opposite update (some unmatched) o =
      if is_some o.engaged_side
      then (let o' = record o { remaining_collateral = zero_amount } in
          elim (safe_sub update.original_collateral_amount unmatched) [
            | none ↦ (err math_problem, o')
            | some removed ↦ (ok (reduce removed zero_amount), o')
          ])
      else (
        ok (flip update.side unmatched),
        record o {
          order_updates =
              o.order_updates ++ (record update { remaining_collateral = unmatched }) ∷ [];
          remaining_collateral = unmatched;
          side = update.side;
        },
      )
  update_opposite update none o =
      elim (safe_sub o.remaining_collateral update.original_collateral_amount) [
        | none ↦ (err math_problem, o)
        | some remaining ↦ (
          ok (reduce update.original_collateral_amount remaining),
          record o { remaining_collateral = remaining },
        )
      ]

  -- `update_order` on the order's own side.
  unfoldable pub push_update : IndexOrderUpdate → OnOrder UpdateOutcome
  push_update update o = elim (safe_add o.remaining_collateral update.original_collateral_amount) [
    | none ↦ (err math_problem, o)
    | some remaining ↦ (
      ok (push update.original_collateral_amount),
      record o { remaining_collateral = remaining; order_updates = o.order_updates ++ update ∷ [] },
    )
  ]

  -- `IndexOrder::update_order`
  unfoldable pub update_order : ℕ → Side → Amount → ℤ → Amount → OnOrder UpdateOutcome
  update_order client_order_id side collateral_amount timestamp tolerance o =
      let update = new_update client_order_id side collateral_amount timestamp in
      if side_eq (opposite_side o.side) side
      then (match_cancel collateral_amount tolerance >>= update_opposite update) o
      else push_update update o

  -- The end of `cancel_updates`, by what `match_cancel` has left.
  unfoldable pub cancel_matched : Amount → Option Amount → OnOrder CancelOutcome
  cancel_matched collateral_amount (some unmatched) o =
      elim (safe_sub collateral_amount unmatched) [
        | none ↦ (err math_problem, o)
        | some removed ↦
            if is_some o.engaged_side
            then (
              ok (cancel_part removed zero_amount),
              record o { remaining_collateral = zero_amount },
            )
            else (ok (cancel_all removed), o)
      ]
  cancel_matched collateral_amount none o =
      elim (safe_add o.remaining_collateral collateral_amount) [
        | none ↦ (err math_problem, o)
        | some remaining ↦ (
          ok (cancel_part collateral_amount remaining),
          record o { remaining_collateral = remaining },
        )
      ]

  -- `IndexOrder::cancel_updates`
  unfoldable pub cancel_updates : Amount → Amount → OnOrder CancelOutcome
  cancel_updates collateral_amount tolerance =
      match_cancel collateral_amount tolerance >>= cancel_matched collateral_amount

  -- The three writes that follow a match of `solver_engage` and `solver_engage_one`.
  unfoldable pub book_engaged : Amount → OnOrder (Unit {0})
  book_engaged amount o = elim (safe_add_assign o.engaged_collateral amount) [
    | none ↦ (err math_problem, o)
    | some engaged ↦ elim (safe_sub o.remaining_collateral amount) [
      | none ↦ (err math_problem, record o { engaged_collateral = some engaged })
      | some remaining ↦ (
        ok tt,
        record o {
          engaged_collateral = some engaged;
          remaining_collateral = remaining;
          engaged_side = some o.side;
        },
      )
    ]
  ]

  -- What of the amount was engaged, by what was left of it.
  unfoldable pub book_matched : Amount → Option Amount → OnOrder (Unit {0})
  book_matched collateral_amount none o = book_engaged collateral_amount o
  book_matched collateral_amount (some unmatched) o = elim (safe_sub collateral_amount unmatched) [
    | none ↦ (err math_problem, o)
    | some engaged ↦ book_engaged engaged o
  ]

  -- `IndexOrder::solver_engage`
  unfoldable pub solver_engage : Amount → Amount → OnOrder (Option Amount)
  solver_engage collateral_amount tolerance = do
    unmatched ← match_engage collateral_amount tolerance
    book_matched collateral_amount unmatched
    pure unmatched

  -- `IndexOrder::solver_engage_one`
  unfoldable pub solver_engage_one : ℕ → Amount → Amount → OnOrder (Amount × Option Amount)
  solver_engage_one client_order_id collateral_amount tolerance = do
    r ← match_engage_one client_order_id collateral_amount tolerance
    book_matched collateral_amount r.1
    pure r

  -- The `retain` of `solver_cancel`: the updates kept, those closed and the collateral remaining;
  -- `none` is the panic of `unwrap`.
  unfoldable pub cancel_named :
      ℕ
      → List IndexOrderUpdate
      → Amount
      → Option (List IndexOrderUpdate × List IndexOrderUpdate × Amount)
  cancel_named client_order_id [] remaining = some ([], [], remaining)
  cancel_named client_order_id (u ∷ us) remaining = elim (u.client_order_id == client_order_id) [
    | true ↦ elim (safe_sub remaining u.remaining_collateral) [
      | none ↦ none
      | some less ↦ elim (cancel_named client_order_id us less) [
        | none ↦ none
        | some (kept, closed, rest) ↦ some (kept, u ∷ closed, rest)
      ]
    ]
    | false ↦ elim (cancel_named client_order_id us remaining) [
      | none ↦ none
      | some (kept, closed, rest) ↦ some (u ∷ kept, closed, rest)
    ]
  ]

  -- `IndexOrder::solver_cancel`, which returns nothing; `none` if it panics.
  unfoldable pub solver_cancel : ℕ → IndexOrder → Option IndexOrder
  solver_cancel client_order_id o =
      elim (cancel_named client_order_id o.order_updates o.remaining_collateral) [
        | none ↦ none
        | some (kept, closed, remaining) ↦ some (record o {
          order_updates = kept;
          closed_updates = o.closed_updates ++ closed;
          remaining_collateral = remaining;
        })
      ]
