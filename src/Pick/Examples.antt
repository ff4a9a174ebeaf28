-- ===== src/Pick/Examples.antt =====
-- The pick list of a small board, and the theorems of the pick list at it.
use firebin_api.Base.{
  ℕ, String, false, Option, none, some, List, [], ◌∷◌, ◌≡◌, refl, Outcome, ok, err, if◌then◌else◌,
  ◌==◌, ◌↔◌,
}
use firebin_api.Base.Int.{ℤ, pos, ◌+ℤ◌, ◌-ℤ◌, ◌*ℤ◌, wrap_int}
use firebin_api.Base.Compare.{compare_text}
use firebin_api.Stock.Model.{StockItem, Db}
use firebin_api.Stock.Table.{find_part, find_location}
use firebin_api.Pick.Model.{
  BomLine, Board, StockLot, PickEntry, PickUnmatched, PickList, PickError, board_not_found,
}
use firebin_api.Pick.Demand
use firebin_api.Pick.Allocate
use firebin_api.Pick.Walk
use firebin_api.Pick.Source
use firebin_api.Pick.Source.Correct.{stock_source, stock_for_parts_lem, on_hand}
use firebin_api.Pick.Compute
use firebin_api.Pick.Compute.Correct.{compute_lem}
use firebin_api.Pick.Compute.Buildable.{buildable_lem, IsBuildable}

abbrev lot : ℕ → Option ℕ → ℤ → StockItem
lot k loc q = record {
  id = k;
  part_id = 1;
  location_id = loc;
  supplier_part_id = none;
  quantity = q;
  status = "ok";
  barcode = none;
  name = none;
  split_from = none;
  added_at = k;
}

-- Two resistors in bin A1, three without a bin.
abbrev tables : Db
tables = record {
  items = lot 101 none (pos 30000) ∷ lot 102 (some 10) (pos 20000) ∷ [];
  transactions = [];
  parts = record { id = 1; name = "10k"; reference_only = false } ∷ [];
  locations = record { id = 10; name = "A1" } ∷ [];
}

abbrev line : ℤ → Option ℕ → BomLine
line q part = record {
  refs = "R1";
  quantity = q;
  value = "10k";
  footprint = "0402";
  mpn = "";
  manufacturer = "";
  part_id = part;
  part_name = "10k";
}

-- Two resistors for each of two copies in a panel.
abbrev board : Board
board = record {
  id = 7;
  name = "main";
  copies = pos 2;
  lines = line (pos 1) (some 1) ∷ line (pos 1) none ∷ line (pos 1) (some 1) ∷ [];
}

abbrev get_board : ℕ → Outcome PickError (Option Board)
get_board k = if k == 7 then ok (some board) else ok none

abbrev unmatched_two : PickUnmatched
unmatched_two = record {
  refs = "R1";
  value = "10k";
  quantity = pos 2;
  footprint = "0402";
  mpn = "";
  manufacturer = "";
}

abbrev pull : ℕ → Option ℕ → String → ℤ → PickEntry
pull k loc name q = record {
  stock_item_id = k;
  part_id = 1;
  part_name = "10k";
  location_id = loc;
  location_name = name;
  quantity = q;
}

abbrev for_one : PickList
for_one = record {
  board_id = 7;
  board_name = "main";
  quantity = pos 1;
  copies = pos 2;
  total_units = pos 40000;
  entries = pull 102 (some 10) "A1" (pos 20000) ∷ pull 101 none "" (pos 20000) ∷ [];
  shortfalls = [];
  unmatched = unmatched_two ∷ [];
}

abbrev source : Compute.LotSource
source = stock_source compare_text tables

-- The pick list of a number of boards. The line opens all that it computes with.
asked : ℕ → ℤ → Outcome PickError PickList
unfolding Compute.compute stock_source Source.stock_for_parts Source.rows_for Source.lots_in
    Source.lot_of Source.is_usable Source.insert_row Source.joined_name Demand.demand
    Demand.add_lines Demand.add_need Demand.at_least_one Demand.line_need Demand.pieces
    Allocate.pick_parts Allocate.allocate Walk.sort_entries Walk.insert_entry Walk.walk_order ◌+ℤ◌
    ◌-ℤ◌ ◌*ℤ◌ wrap_int find_part find_location
asked k qty = Compute.compute get_board source k qty

-- A request for no boards is one for a single board.
asked_for_none : asked 7 (pos 0) ≡ ok for_one
unfolding asked
asked_for_none = refl

compute_lem_example :
    (b : Board) × (lots : List StockLot) × (get_board 7 ≡ ok (some b))
    × (source.lots_for (
          Compute.part_ids
            (Demand.demand
              (Demand.at_least_one b.copies)
              (Demand.at_least_one (pos 0))
              b.lines).needs)
        ≡ ok lots)
    × Compute.IsPickList b (Demand.at_least_one b.copies) (Demand.at_least_one (pos 0)) lots for_one
compute_lem_example =
    compute_lem get_board source 7 (pos 0) for_one (unfold asked in asked_for_none)

not_there : asked 8 (pos 1) ≡ err (board_not_found 8)
unfolding asked
not_there = refl

stock_for_parts_lem_example :
    Allocate.available 1 (Source.stock_for_parts compare_text (1 ∷ []) tables)
    ≡ on_hand (1 ∷ []) 1 tables.items
unfolding find_part
stock_for_parts_lem_example =
    (stock_for_parts_lem compare_text (1 ∷ []) tables 1 (λ h. cc, (λ h. cc, tt))).1

-- What the tables give for the board's part.
abbrev lots : List StockLot
lots = Source.stock_for_parts compare_text (1 ∷ []) tables

buildable_lem_example :
    (pl : PickList) × (Compute.compute get_board source 7 (pos 0) ≡ ok pl)
    × (((pl.shortfalls ≡ []) × (pl.unmatched ≡ [])) ↔ IsBuildable board lots (pos 2) (pos 1))
unfolding stock_source Demand.demand Compute.part_ids Demand.add_lines Demand.add_need
    Demand.at_least_one
buildable_lem_example = buildable_lem get_board source 7 (pos 0) board lots refl refl
