-- ===== src/Stock/History/Examples.antt =====
-- Calls on a small stock, and the theorems of the stock repository at them.
use firebin_api.Base.{ℕ, String, true, false, Option, none, some, List, [], ◌∷◌, ◌≡◌, refl}
use firebin_api.Base.Int.{ℤ, pos, ◌+ℤ◌, ◌-ℤ◌, ltb_ℤ}
use firebin_api.Stock.Model.{StockItem, PartRow, Location, Db, Env, ItemView}
use firebin_api.Stock.Table
use firebin_api.Stock.Tx
use firebin_api.Stock.Adjust
use firebin_api.Stock.Transfer
use firebin_api.Stock.Lots
use firebin_api.Stock.Lookup.{quantity_of}
use firebin_api.Stock.Ledger.{IsSound, balance}
use firebin_api.Stock.Moved.{Moves}
use firebin_api.Stock.Adjust.Correct.{adjust_lem, adjust_lot_lem, Sets, LotSets}
use firebin_api.Stock.Transfer.Move.{move_lem}
use firebin_api.Stock.Transfer.Bulk.{move_part_lem}
use firebin_api.Stock.Transfer.Relocate.{relocate_lem}
use firebin_api.Stock.Lots.Split.{split_lot_lem}
use firebin_api.Stock.Lots.Merge.{merge_lot_lem}
use firebin_api.Stock.Lots.Clean.{delete_empty_lots_lem}
use firebin_api.Stock.History.{adjusts, step, run, stockless, audit, splits}

abbrev parts : List PartRow
parts = record { id = 1; name = "10k"; reference_only = true } ∷ []

abbrev bins : List Location
bins = record { id = 10; name = "A1" } ∷ record { id = 11; name = "B2" } ∷ []

abbrev at : ℕ → Env
at n = record { now = n; fresh_id = n }

abbrev receipt : Adjust.AdjustParams
receipt = record {
  part_id = 1;
  location_id = some 10;
  supplier_part_id = none;
  kind = "add";
  quantity = pos 50000;
  note = none;
  user_id = none;
}

-- Five pieces in bin A1, received at time 101. The line opens all that a run computes with.
shelf : Db
unfolding step run Adjust.adjust Adjust.adjust_lot Adjust.adjusted_quantity Adjust.lot_quantity
    Adjust.receive Tx.find_or_create Tx.record_change Tx.get_item Table.earliest Table.insert_item
    Table.insert_transaction Table.find_item Table.find_part Table.find_location
    Table.location_exists Table.barcode_taken Table.set_quantity Table.set_location
    Table.delete_item Table.without_item Table.without_transactions Table.forget_source
    Table.clear_reference Table.sum_where Transfer.move Transfer.move_part Transfer.relocate
    Transfer.empty_sources Lots.split_lot Lots.merge_lot Lots.delete_empty_lots
    Lots.count_empty_lots Lots.is_empty_lot quantity_of balance ◌+ℤ◌ ◌-ℤ◌
shelf = run (stockless parts bins) ((at 101, adjusts receipt) ∷ [])

abbrev lot : Option ℕ → ℤ → StockItem
lot loc q = record {
  id = 101;
  part_id = 1;
  location_id = loc;
  supplier_part_id = none;
  quantity = q;
  status = "ok";
  barcode = none;
  name = none;
  split_from = none;
  added_at = 101;
}

abbrev seen : StockItem → String → ItemView
seen x place = record { item = x; part_name = "10k"; location_name = some place }

shelf_lot : shelf.items ≡ lot (some 10) (pos 50000) ∷ []
unfolding shelf
shelf_lot = refl

shelf-IsSound : IsSound shelf
unfolding shelf
shelf-IsSound = audit parts bins ((at 101, adjusts receipt) ∷ [])

audit_example :
    balance 101 (run (stockless parts bins) ((at 101, adjusts receipt) ∷ [])).transactions
    ≡ quantity_of 101 (run (stockless parts bins) ((at 101, adjusts receipt) ∷ [])).items
audit_example = (audit parts bins ((at 101, adjusts receipt) ∷ [])).balanced 101

abbrev issue : Adjust.AdjustParams
issue = record receipt { kind = "remove"; quantity = pos 80000 }

-- Removing more than there is leaves none.
adjust_lem_example : Sets "remove" (quantity_of 101 shelf.items) (pos 80000) (pos 0)
unfolding shelf
adjust_lem_example =
    (adjust_lem (at 102) shelf issue (seen (lot (some 10) (pos 0)) "A1")
      (Adjust.adjust (at 102) shelf issue).1 shelf-IsSound refl).0

adjust_lot_lem_example : LotSets "count" (quantity_of 101 shelf.items) (pos 7) (pos 7)
unfolding shelf
adjust_lot_lem_example =
    (adjust_lot_lem (at 102) shelf 101 "count" (pos 7) none (seen (lot (some 10) (pos 7)) "A1")
      (Adjust.adjust_lot (at 102) shelf 101 "count" (pos 7) none).1 shelf-IsSound refl).1

abbrev transfer : Transfer.MoveParams
transfer = record {
  stock_item_id = 101;
  to_location_id = some 11;
  quantity = pos 20000;
  note = none;
  user_id = none;
}

move_lem_example : IsSound (Transfer.move (at 102) shelf transfer).1
unfolding shelf
move_lem_example =
    (move_lem (at 102) shelf transfer (Transfer.move (at 102) shelf transfer).1 shelf-IsSound
      refl).3

move_part_lem_example :
    Transfer.sources 1 (some 11) (Transfer.move_part (at 102) shelf 1 (some 11) none).1.items ≡ []
unfolding shelf
move_part_lem_example =
    (move_part_lem (at 102) shelf 1 (some 11) none (pos 50000)
      (Transfer.move_part (at 102) shelf 1 (some 11) none).1 shelf-IsSound refl).4

relocate_lem_example :
    quantity_of 101 (Transfer.relocate (at 102) shelf 101 (some 11) none).1.items
    ≡ quantity_of 101 shelf.items
unfolding shelf
relocate_lem_example =
    (relocate_lem (at 102) shelf 101 (some 11) none (seen (lot (some 11) (pos 50000)) "B2")
        (Transfer.relocate (at 102) shelf 101 (some 11) none).1 shelf-IsSound refl).3
      101

abbrev spool : Lots.SplitParams
spool = record {
  source_id = 101;
  quantity = pos 20000;
  to_location_id = some 11;
  name = some "spool";
  barcode = some "S1";
  user_id = none;
}

split_lot_lem_example :
    (x : StockItem) × (Table.find_item 101 shelf.items ≡ some x)
    × (ltb_ℤ (pos 0) (pos 20000) ≡ true)
    × (ltb_ℤ x.quantity (pos 20000) ≡ false)
    × (Lots.cut_lot (at 102) spool 1 ≡ record {
      id = 102;
      part_id = x.part_id;
      location_id = some 11;
      supplier_part_id = none;
      quantity = pos 20000;
      status = "ok";
      barcode = some "S1";
      name = some "spool";
      split_from = some 101;
      added_at = 102;
    })
    × (Table.find_item 101 (Lots.split_lot (at 102) shelf spool).1.items
        ≡ some (record x { quantity = x.quantity -ℤ pos 20000 }))
    × Moves shelf
        (Lots.split_lot (at 102) shelf spool).1
        x.part_id
        x.location_id
        (some 11)
        (pos 20000)
unfolding shelf
split_lot_lem_example =
    split_lot_lem (at 102) shelf spool (seen (Lots.cut_lot (at 102) spool 1) "B2")
      (Lots.split_lot (at 102) shelf spool).1 shelf-IsSound refl

-- The shelf after the split: two lots, 101 and 102.
two_lots : Db
unfolding shelf
two_lots = (Lots.split_lot (at 102) shelf spool).1

two_lots-IsSound : IsSound two_lots
unfolding two_lots
two_lots-IsSound = audit parts bins ((at 101, adjusts receipt) ∷ (at 102, splits spool) ∷ [])

merge_lot_lem_example :
    Table.find_item 102 (Lots.merge_lot (at 103) two_lots 102 101 none).1.items ≡ none
unfolding two_lots
merge_lot_lem_example =
    (merge_lot_lem (at 103) two_lots 102 101 none (Lots.merge_lot (at 103) two_lots 102 101 none).1
      two_lots-IsSound refl).6.gone

delete_empty_lots_lem_example : Lots.count_empty_lots (Lots.delete_empty_lots shelf).1 ≡ 0
delete_empty_lots_lem_example = (delete_empty_lots_lem shelf shelf-IsSound).3
