-- ===== src/OrderSender/Inventory/Tests.antt =====
-- inventory_manager.rs and asset.rs at concrete inputs, and the theorems' instances.
use index_maker.Prelude.{ℕ, ◌≡◌, refl, true, false, none, some, [], ◌∷◌, All, ok}
use index_maker.Prelude.Int.{pos, ◌+ℤ◌, ◌-ℤ◌, -ℤ◌}
use index_maker.Decimal.{Amount, Decimal, bounded, fixed_scale, fixed_scale-IsExact}
use index_maker.Bits.{Symbol, Side, buy, sell, AssetOrder, BatchOrder, SingleOrder}
use index_maker.Bits.Symbols.{symbol_eq, find_symbol, put_symbol}
use index_maker.OrderSender.Asset.{strip_prefix, strip_suffix, first_stripped, base_asset}
use index_maker.OrderSender.Inventory.{
  InventoryManager, fill_of, close_event, stored_key, position_or_new, create_lot_of, match_lots_of,
  open_unmatched, announce_cancelled, handle_fill_report, single_order, send_each, new_order_batch,
}
use index_maker.OrderSender.Inventory.Adds.{Holds, handle_fill_report-Holds}
use index_maker.OrderSender.Inventory.Batch.{new_order_batch_tracks}
use index_maker.OrderSender.Inventory.Misses.{match_lots_of-misses}
use index_maker.OrderSender.Inventory.Repeats.{match_lots_of-repeats}
use index_maker.OrderSender.Position.{
  Lot, Position, new_position, opened_lot, updated_lot, take_lot, book_taken, match_lot, match_loop,
  create_lot, commit, match_lots, updated_front, drain_closed_lots,
}
use index_maker.OrderSender.Tracker.{FillReport, filled, Tracker, new_order, get_order}

instance checked_ops : Decimal
checked_ops = fixed_scale

-- "ETH", "ETHUSDT" and "EURUSDT"
abbrev eth : Symbol
eth = 69 ∷ 84 ∷ 72 ∷ []

abbrev eth_usdt : Symbol
eth_usdt = 69 ∷ 84 ∷ 72 ∷ 85 ∷ 83 ∷ 68 ∷ 84 ∷ []

abbrev eur_usdt : Symbol
eur_usdt = 69 ∷ 85 ∷ 82 ∷ 85 ∷ 83 ∷ 68 ∷ 84 ∷ []

keys_run :
    (base_asset eth_usdt ≡ eth)
    × (stored_key eth_usdt ≡ eth)
    × (base_asset eur_usdt ≡ 69 ∷ 85 ∷ 82 ∷ [])
    × (stored_key eur_usdt ≡ [])
unfolding stored_key base_asset first_stripped strip_suffix strip_prefix
keys_run = (refl, refl, refl, refl)

abbrev report_of : Symbol → Side → ℕ → Amount → FillReport
report_of symbol side order_id quantity = record {
  order_id = order_id;
  batch_order_id = 1;
  lot_id = order_id;
  symbol = symbol;
  side = side;
  price_filled = pos 50;
  quantity_filled = quantity;
  fee_paid = pos 1;
  original_quantity = quantity;
  quantity_remaining = pos 0;
  is_cancelled = false;
  fill_timestamp = pos order_id;
}

abbrev empty_inventory : InventoryManager
empty_inventory = record { positions = []; tolerance = pos 1; published = [] }

abbrev bought_eur : FillReport
bought_eur = report_of eur_usdt buy 1 (pos 10)

abbrev sold_eur : FillReport
sold_eur = report_of eur_usdt sell 2 (pos 4)

match_lots_of-misses_example :
    let v' = (create_lot_of bought_eur (pos 10) empty_inventory).1 in
    match_lots_of sold_eur v' ≡ (ok (some (pos 4)), v')
unfolding stored_key base_asset first_stripped strip_suffix strip_prefix symbol_eq find_symbol
match_lots_of-misses_example =
    match_lots_of-misses bought_eur sold_eur (pos 10) empty_inventory refl refl refl

-- Of another symbol the fill is matched.
sold_eth_runs :
    let (_, v) = create_lot_of (report_of eth_usdt buy 1 (pos 10)) (pos 10) empty_inventory in
    (match_lots_of (report_of eth_usdt sell 2 (pos 4)) v).0 ≡ ok none
unfolding checked_ops fixed_scale bounded ◌+ℤ◌ ◌-ℤ◌ -ℤ◌ create_lot_of match_lots_of stored_key
    base_asset first_stripped strip_suffix strip_prefix symbol_eq find_symbol put_symbol
    position_or_new new_position create_lot match_lots match_loop match_lot take_lot book_taken
    commit drain_closed_lots updated_front
sold_eth_runs = refl

abbrev connected : Tracker
connected = record { session = some 1; orders = []; tolerance = pos 1; published = [] }

abbrev asset_order : ℕ → AssetOrder
asset_order order_id = record {
  order_id = order_id;
  symbol = eth_usdt;
  side = buy;
  price = pos 50;
  quantity = pos 10;
}

abbrev batch : BatchOrder
batch = record {
  batch_order_id = 9;
  asset_orders = asset_order 1 ∷ asset_order 2 ∷ [];
  created_timestamp = pos 0;
}

abbrev sent_batch : Tracker
unfolding new_order_batch send_each new_order
sent_batch = (new_order_batch (λ s o. true) batch connected).1

new_order_batch_tracks_example :
    All (λ o. get_order o.order_id sent_batch ≡ some (single_order batch o)) batch.asset_orders
    × ((j : ℕ) (o : SingleOrder) → get_order j connected ≡ some o → get_order j sent_batch ≡ some o)
unfolding new_order_batch send_each new_order
new_order_batch_tracks_example =
    new_order_batch_tracks (λ s o. true) batch connected sent_batch refl

-- 10 were bought and 4 of them sold; then 5 more are bought.
abbrev bought_eth : FillReport
bought_eth = report_of eth_usdt buy 1 (pos 10)

abbrev sold_eth : FillReport
sold_eth = report_of eth_usdt sell 2 (pos 4)

abbrev more_eth : FillReport
more_eth = report_of eth_usdt buy 3 (pos 5)

abbrev part_sold_lot : Lot
part_sold_lot =
    updated_lot (fill_of sold_eth (pos 4)) (opened_lot (fill_of bought_eth (pos 10))) (pos 4)
      (pos 6)

abbrev part_sold : Position
part_sold = record {
  symbol = eth;
  side = buy;
  balance = pos 6;
  created_timestamp = some (pos 1);
  last_update_timestamp = some (pos 2);
  open_lots = part_sold_lot ∷ [];
  closed_lots = [];
}

abbrev part_sold_inventory : InventoryManager
part_sold_inventory = record {
  positions = (eth, part_sold) ∷ [];
  tolerance = pos 1;
  published = [];
}

part_sold_runs :
    (handle_fill_report
      (filled sold_eth)
      (handle_fill_report (filled bought_eth) empty_inventory).1).1.positions
    ≡ part_sold_inventory.positions
unfolding handle_fill_report open_unmatched announce_cancelled checked_ops fixed_scale bounded ◌+ℤ◌
    ◌-ℤ◌ -ℤ◌ create_lot_of match_lots_of stored_key base_asset first_stripped strip_suffix
    strip_prefix symbol_eq find_symbol put_symbol position_or_new new_position create_lot match_lots
    match_loop match_lot take_lot book_taken commit drain_closed_lots updated_front
part_sold_runs = refl

match_lots_of-repeats_example :
    ((match_lots_of more_eth part_sold_inventory).0 ≡ ok (some (pos 5)))
    × ((match_lots_of more_eth part_sold_inventory).1.published
        ≡ close_event more_eth part_sold_lot ∷ [])
unfolding base_asset first_stripped strip_suffix strip_prefix symbol_eq find_symbol
match_lots_of-repeats_example =
    match_lots_of-repeats more_eth part_sold_inventory part_sold part_sold_lot [] refl refl refl
      refl refl refl

handle_fill_report-Holds_example :
    ((handle_fill_report (filled more_eth) part_sold_inventory).0 ≡ ok tt)
    × Holds
        (base_asset eth_usdt)
        (pos 6 +ℤ pos 5)
        (handle_fill_report (filled more_eth) part_sold_inventory).1
unfolding checked_ops fixed_scale bounded ◌+ℤ◌ ◌-ℤ◌ stored_key base_asset first_stripped
    strip_suffix strip_prefix symbol_eq find_symbol
handle_fill_report-Holds_example =
    handle_fill_report-Holds fixed_scale-IsExact more_eth part_sold_inventory part_sold (pos 11)
      refl refl refl refl
